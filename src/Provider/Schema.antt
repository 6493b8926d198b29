-- ===== src/Provider/Schema.antt =====
-- The declarations of terraform-plugin-framework that the `Schema` methods give, as data, and what a
-- configuration has to be like for the framework to hand it to a resource.
pub mod Grants
pub mod Role
pub mod Grant
pub mod Configuration
pub mod Typed
pub mod Admitted
use terraform_provider_scyll.Base.{
  ℕ, ◌≤◌, String, ◌≡◌, ◌≢◌, Bool, true, false, ◌&&◌, Option, none, some, List, [], ◌∷◌, map,
  contains, length, All,
}
use terraform_provider_scyll.Base.Dict
use terraform_provider_scyll.Base.Dict.{Dict}
use terraform_provider_scyll.Go.Strings.{Unicode, equal_fold}
use terraform_provider_scyll.Provider.Framework.{Value, null, known, done}
use terraform_provider_scyll.Provider.Domains.{GrantModel}
use terraform_provider_scyll.Provider.Validators.{validate_set}

-- `StringAttribute`, `BoolAttribute`, and `ListAttribute` and `SetAttribute` of strings
pub data AttributeType : Type 0 where
  of_text of_flag of_list of_set : AttributeType

pub data Mode : Type 0 where
  required optional computed : Mode
  -- computed unless the configuration sets it
  optional_computed : Mode

pub data PlanModifier : Type 0 where
  use_state_for_unknown requires_replace : PlanModifier

-- `stringvalidator.OneOfCaseInsensitive`
pub data StringValidator : Type 0 where
  one_of_case_insensitive : List String → StringValidator

-- `setvalidator.ValueStringsAre`
pub data SetValidator : Type 0 where
  value_strings_are : StringValidator → SetValidator

-- `setvalidator.SizeAtLeast` and `uniqueGrantRolesValidator`
pub data BlockValidator : Type 0 where
  size_at_least : ℕ → BlockValidator
  unique_grant_roles : BlockValidator

pub record Attribute : Type 0 where
  pub name : String
  pub attribute_type : AttributeType
  pub description : String
  pub mode : Mode
  pub sensitive : Bool
  pub static_default : Option Bool
  pub plan_modifiers : List PlanModifier
  pub string_validators : List StringValidator
  pub set_validators : List SetValidator

-- An attribute of which only this is said
abbrev pub attribute : String → AttributeType → Mode → String → Attribute
attribute name attribute_type mode description = record {
  name = name;
  attribute_type = attribute_type;
  description = description;
  mode = mode;
  sensitive = false;
  static_default = none;
  plan_modifiers = [];
  string_validators = [];
  set_validators = [];
}

-- `SetNestedBlock`, or a `SingleNestedBlock`, which has one element or none
pub record Block : Type 0 where
  pub name : String
  pub single : Bool
  pub description : String
  pub attributes : List Attribute
  pub validators : List BlockValidator

pub record Schema : Type 0 where
  pub description : String
  pub attributes : List Attribute
  pub blocks : List Block

-- A field of a model, under the name of its `tfsdk` tag
pub data Datum : Type 0 where
  text_datum : Value String → Datum
  flag_datum : Value Bool → Datum
  list_datum set_datum : Value (List (Value String)) → Datum

pub record Fields : Type 0 where
  pub attributes : Dict Datum
  pub blocks : Dict (List (Dict Datum))

abbrev pub has_type : AttributeType → Datum → Bool
has_type of_text (text_datum _) = true
has_type of_flag (flag_datum _) = true
has_type of_list (list_datum _) = true
has_type of_set (set_datum _) = true
has_type _ _ = false

-- The fields are those of the attributes, and have their types.
abbrev pub AreTyped : List Attribute → Dict Datum → Type 0
AreTyped expected d =
    All (λ a. (x : Datum) × (Dict.lookup a.name d ≡ some x) × (has_type a.attribute_type x ≡ true))
      expected
    × All (λ k. contains (map (λ a. a.name) expected) k ≡ true) (Dict.keys d)

-- Of a single block, there is one or none.
abbrev pub IsSingle : Bool → List (Dict Datum) → Type 0
IsSingle true ds = length ds ≤ 1
IsSingle false ds = Unit

-- The framework converts between a model with these fields and values of the schema.
abbrev pub IsTyped : Schema → Fields → Type 0
IsTyped s f =
    AreTyped s.attributes f.attributes
    × All
        (λ b.
          (ds : List (Dict Datum)) × (Dict.lookup b.name f.blocks ≡ some ds)
          × IsSingle b.single ds
          × All (AreTyped b.attributes) ds)
        s.blocks
    × All (λ k. contains (map (λ b. b.name) s.blocks) k ≡ true) (Dict.keys f.blocks)

module _ ⦃u : Unicode⦄ where
  -- What the validators are documented to let pass; null and unknown values pass.
  abbrev pub MeetsString : Value String → StringValidator → Type 0
  MeetsString v (one_of_case_insensitive allowed) =
      (s : String)
      → v ≡ known s
      → (p : String) × (contains allowed p ≡ true) × (equal_fold s p ≡ true)

  abbrev pub MeetsSet : Value (List (Value String)) → SetValidator → Type 0
  MeetsSet v (value_strings_are validator) =
      (vs : List (Value String)) → v ≡ known vs → All (λ x. MeetsString x validator) vs

  abbrev pub MeetsBlock : List GrantModel → BlockValidator → Type 0
  MeetsBlock grants (size_at_least n) = n ≤ length grants
  MeetsBlock grants unique_grant_roles = validate_set (known (done grants)) ≡ []

  abbrev pub IsPresent : {A : Type 0} → Mode → Value A → Type 0
  IsPresent required v = v ≢ null
  IsPresent _ v = Unit

  abbrev pub MeetsDatum : Attribute → Datum → Type 0
  MeetsDatum a (text_datum v) = IsPresent a.mode v × All (MeetsString v) a.string_validators
  MeetsDatum a (set_datum v) = IsPresent a.mode v × All (MeetsSet v) a.set_validators
  MeetsDatum a (flag_datum v) = IsPresent a.mode v
  MeetsDatum a (list_datum v) = IsPresent a.mode v

  abbrev pub AreAdmitted : Dict Datum → List Attribute → Type 0
  AreAdmitted d = All (λ a. (x : Datum) → Dict.lookup a.name d ≡ some x → MeetsDatum a x)

  -- The framework lets the fields pass, whose set of grants is this.
  abbrev pub IsAdmitted : Schema → Fields → List GrantModel → Type 0
  IsAdmitted s f grants =
      AreAdmitted f.attributes s.attributes
      × All
          (λ b.
            (ds : List (Dict Datum))
            → Dict.lookup b.name f.blocks ≡ some ds
            → All (λ d. AreAdmitted d b.attributes) ds × All (MeetsBlock grants) b.validators)
          s.blocks
