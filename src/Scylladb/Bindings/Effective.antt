-- ===== src/Scylladb/Bindings/Effective.antt =====
-- What `GetEffectivePermissions` lists.
use terraform_provider_scyll.Base.{
  String, ◌<>◌, ◌≡◌, ◌∙◌, ◌↔◌, refl, sym, ap, subst, Bool, true, false, ◌||◌, List, [], ◌∷◌, ◌++◌,
  map, contains, contains-append, ◌==◌, arith, Bool-cases, inl, inr,
}
use terraform_provider_scyll.Base.Dict
use terraform_provider_scyll.Base.Dict.{Dict, lookup-eq-none}
use terraform_provider_scyll.Base.Exec.{ok}
use terraform_provider_scyll.Go.Slices.{sort, contains-sort}
use terraform_provider_scyll.Go.Maps.{RangeOrder}
use terraform_provider_scyll.Go.Strings.{Unicode, to_upper}
use terraform_provider_scyll.Go.Strings.Upper.{to_upper_fixed}
use terraform_provider_scyll.Cql.{Resource, resource_path}
use terraform_provider_scyll.Scylladb.Cluster.{Cluster}
use terraform_provider_scyll.Scylladb.Session.{Session}
use terraform_provider_scyll.Scylladb.Database.{IsDatabase}
use terraform_provider_scyll.Scylladb.Authoritative.{
  ParsedIdentifier, get_all_role_permissions_per_id,
}
use terraform_provider_scyll.Scylladb.Authoritative.Identifier.{Denotes}
use terraform_provider_scyll.Base.Exec.Inversion.{>>=-eq-ok}
use terraform_provider_scyll.Scylladb.Authoritative.Reads.{read-ok}
use terraform_provider_scyll.Scylladb.Bindings.{
  Reading, effective, add_effective, add_effective_roles, get_effective_permissions,
}

-- The text of a permission
abbrev pub entry : ParsedIdentifier → String → String → String
entry id r p = id.original <> ":" <> r <> ":" <> p

same-contains : (x y : String) (ys : List String) → x ≡ y → contains (y ∷ ys) x ≡ true
same-contains x y ys e = ground arith

later-contains :
    (x y : String) (ys : List String) → contains ys x ≡ true → contains (y ∷ ys) x ≡ true
later-contains x y ys e = ground arith

module _ ⦃u : Unicode⦄ (id : ParsedIdentifier) where
  abbrev entries : String → List String → List String
  entries r ps = map (λ p. entry id r (to_upper p)) ps

  contains-add_effective :
      (r : String) (out ps : List String) (t : String)
      → contains (add_effective id r out ps) t ≡ (contains out t || contains (entries r ps) t)
  unfolding add_effective
  contains-add_effective r out [] t = ground arith
  contains-add_effective r out (p ∷ ps) t = ground (
    arith,
    contains-add_effective r (out ++ entry id r (to_upper p) ∷ []) ps t,
    contains-append out (entry id r (to_upper p) ∷ []) t,
  )

  -- Some role of the list has the permission of the text.
  listed : Dict (List String) → List String → String → Bool
  listed perms [] t = false
  listed perms (r ∷ rs) t = contains (entries r (Dict.get_or r perms [])) t || listed perms rs t

  contains-add_effective_roles :
      (perms : Dict (List String)) (out rs : List String) (t : String)
      → contains (add_effective_roles id perms out rs) t ≡ (contains out t || listed perms rs t)
  unfolding add_effective_roles listed
  contains-add_effective_roles perms out [] t = ground arith
  contains-add_effective_roles perms out (r ∷ rs) t = ground (
    arith,
    contains-add_effective_roles perms (add_effective id r out (Dict.get_or r perms [])) rs t,
    contains-add_effective r out (Dict.get_or r perms []) t,
  )

  -- The permission that a text stands for
  abbrev Stands : List String → String → String → Type 0
  Stands ps r t = (p : String) × (contains ps p ≡ true) × (t ≡ entry id r (to_upper p))

  entries-Stands :
      (r : String) (ps : List String) (t : String)
      → contains (entries r ps) t ≡ true
      → Stands ps r t
  entries-Stands r [] t h = cc
  entries-Stands r (p ∷ ps) t h = elim (Bool-cases (t == entry id r (to_upper p))) [
    | inl e ↦ (p, same-contains p p ps refl, ground arith)
    | inr e ↦
        let (q, there, same) = entries-Stands r ps t (ground arith) in
        (q, later-contains q p ps there, same)
  ]

  Stands-entries :
      (r : String) (ps : List String) (p : String)
      → contains ps p ≡ true
      → contains (entries r ps) (entry id r (to_upper p)) ≡ true
  Stands-entries r [] p h = cc
  Stands-entries r (q ∷ ps) p h = elim (Bool-cases (p == q)) [
    | inl e ↦
        let same : p ≡ q = ground arith in
        same-contains _ _ _ (ap (λ x. entry id r (to_upper x)) same)
    | inr e ↦ later-contains _ _ _ (Stands-entries r ps p (ground arith))
  ]

  listed-Stands :
      (perms : Dict (List String)) (rs : List String) (t : String)
      → listed perms rs t ≡ true
      → (r : String) × (contains rs r ≡ true) × Stands (Dict.get_or r perms []) r t
  unfolding listed
  listed-Stands perms [] t h = cc
  listed-Stands perms (r ∷ rs) t h =
      elim (Bool-cases (contains (entries r (Dict.get_or r perms [])) t)) [
        | inl e ↦ (r, same-contains r r rs refl, entries-Stands r (Dict.get_or r perms []) t e)
        | inr e ↦
            let (q, there, stands) = listed-Stands perms rs t (ground arith) in
            (q, later-contains q r rs there, stands)
      ]

  Stands-listed :
      (perms : Dict (List String)) (rs : List String) (r p : String)
      → contains rs r ≡ true
      → contains (Dict.get_or r perms []) p ≡ true
      → listed perms rs (entry id r (to_upper p)) ≡ true
  unfolding listed
  Stands-listed perms [] r p there h = cc
  Stands-listed perms (q ∷ rs) r p there h = elim (Bool-cases (r == q)) [
    | inl e ↦
        let same : q ≡ r = ground arith in
        let first : contains (entries q (Dict.get_or q perms [])) (entry id r (to_upper p)) ≡ true =
          subst
            (λ x. contains (entries x (Dict.get_or x perms [])) (entry id r (to_upper p)) ≡ true)
            (sym same) (Stands-entries r (Dict.get_or r perms []) p h) in
        ground arith
    | inr e ↦ let rest = Stands-listed perms rs r p (ground arith) h in ground arith
  ]

module _ (S : Session) (D : IsDatabase S) ⦃u : Unicode⦄ (order : RangeOrder Reading) (c : Cluster)
    (own : c.system_auth_keyspace_name ≡ D.auth_keyspace) (id : ParsedIdentifier) (res : Resource)
    (den : Denotes id res) (s : S.State) where
  open order use {visit, contains-visit}

  -- The text is that of a permission on the resource.
  abbrev pub IsEntry : String → Type 0
  IsEntry t =
      (r : String) × (p : String) × (D.granted s r (resource_path res) p ≡ true)
      × (t ≡ entry id r p)

  granted-fixed : (r p : String) → D.granted s r (resource_path res) p ≡ true → to_upper p ≡ p
  granted-fixed r p h = to_upper_fixed p (D.granted-IsStored s r (resource_path res) p h).1

  has_key :
      (perms : Dict (List String)) (r p : String)
      → contains (Dict.get_or r perms []) p ≡ true
      → contains (Dict.keys perms) r ≡ true
  has_key perms r p h = ground (arith, lookup-eq-none perms r)

  module _ (perms : Dict (List String))
      (read : (get_all_role_permissions_per_id S c id s).0 ≡ ok perms) (t : String) where
    abbrev roles : List String
    roles = visit effective (Dict.keys perms)

    from_listed : listed id perms roles t ≡ true → IsEntry t
    from_listed h =
        let (r, there, stands) = listed-Stands id perms roles t h in
        let (p, held, same) = stands in
        let granted = sym (read-ok S D c own id res den s perms read r p) ∙ held in
        (r, p, granted, same ∙ ap (entry id r) (granted-fixed r p granted))

    to_listed : IsEntry t → listed id perms roles t ≡ true
    to_listed (r, p, granted, same) =
        let held = read-ok S D c own id res den s perms read r p ∙ granted in
        let there = contains-visit effective (Dict.keys perms) r ∙ has_key perms r p held in
        ap (listed id perms roles) (same ∙ ap (entry id r) (sym (granted-fixed r p granted)))
        ∙ Stands-listed id perms roles r p there held

    effective-listed :
        contains (sort (add_effective_roles id perms [] roles)) t ≡ listed id perms roles t
    effective-listed =
        contains-sort (add_effective_roles id perms [] roles) t
        ∙ contains-add_effective_roles id perms [] roles t

  -- If `GetEffectivePermissions` returns no error, a text is in its list exactly if it is the
  -- identifier, a role and a privilege, with colons between them, of a permission that the database
  -- holds on the resource, in whatever order the map is visited. The cluster's keyspace is the one
  -- that holds the permissions.
  pub get_effective_permissions-exact :
      (out : List String) (t : String)
      → (get_effective_permissions S order c id s).0 ≡ ok out
      → (contains out t ≡ true) ↔ IsEntry t
  unfolding get_effective_permissions
  get_effective_permissions-exact out t got =
      let (perms, read, rest, end) = >>=-eq-ok (get_all_role_permissions_per_id S c id) _ s got in
      let made : sort (add_effective_roles id perms [] (roles perms read t)) ≡ out = cc in
      let listing = ap (λ x. contains x t) (sym made) ∙ effective-listed perms read t in
      (λ h. from_listed perms read t (sym listing ∙ h), λ e. listing ∙ to_listed perms read t e)
