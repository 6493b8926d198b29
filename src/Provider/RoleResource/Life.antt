-- ===== src/Provider/RoleResource/Life.antt =====
-- The life of one role resource: the calls that Terraform makes of its handlers, in any order that the
-- state allows, for plans that name one role.
use terraform_provider_scyll.Base.{
  String, ◌≡◌, ◌∙◌, refl, sym, ap, subst, Bool, true, false, ◌⊎◌, inl, inr, Option, none, some,
  List, [], ◌∷◌, ◌==◌,
}
use terraform_provider_scyll.Go.Strings.{Unicode, lacks}
use terraform_provider_scyll.Scylladb.Cluster.{Cluster}
use terraform_provider_scyll.Scylladb.Session.{Session, RoleRow}
use terraform_provider_scyll.Scylladb.Role.{slice}
use terraform_provider_scyll.Scylladb.Role.Database.{
  IsRoleDatabase, SameBut, SameBut-refl, SameBut-trans,
}
use terraform_provider_scyll.Provider.Framework.{
  Value, done, texts_of, elements_as, value_from, list_value_from, value_string,
}
use terraform_provider_scyll.Provider.RoleResource.{RoleResourceModel, create, read, update, delete}
use terraform_provider_scyll.Provider.RoleResource.Found.{
  stored, plan, row_of, created-found, updated-found, deleted-found,
}
use terraform_provider_scyll.Provider.RoleResource.Laws.{
  shown, role_read-seen, if_same, some-injective,
}
use terraform_provider_scyll.Provider.Lifecycle.{World}

module _ (S : Session) ⦃u : Unicode⦄ (c : Cluster) (name : String) where
  -- A call of a handler that ends without an error
  pub data RoleStep (w : World RoleResourceModel S.State)
      : World RoleResourceModel S.State → Type 0 where
    creates :
        (login super : Bool) (id : Value String) (members : Value (List (Value String)))
        (st : RoleResourceModel)
        → w.managed ≡ none
        → (create S (done (plan name login super id members)) w.database).0 ≡ done st
        → RoleStep w (record {
          managed = some st;
          database = (create S (done (plan name login super id members)) w.database).1;
        })
    updates :
        (login super : Bool) (id : Value String) (members : Value (List (Value String)))
        (before st : RoleResourceModel)
        → w.managed ≡ some before
        → (update S (done (plan name login super id members)) (done before) w.database).0 ≡ done st
        → RoleStep w (record {
          managed = some st;
          database =
              (update S (done (plan name login super id members)) (done before) w.database).1;
        })
    -- `Read` removes the state of a role that is not there.
    refreshes :
        (before : RoleResourceModel) (seen : Option RoleResourceModel)
        → w.managed ≡ some before
        → (read S c (done before) w.database).0 ≡ done seen
        → RoleStep w (record { managed = seen; database = (read S c (done before) w.database).1 })
    deletes :
        (before : RoleResourceModel)
        → w.managed ≡ some before
        → (delete S (done before) w.database).0 ≡ done tt
        → RoleStep w (record { managed = none; database = (delete S (done before) w.database).1 })

  pub data RoleLife (w : World RoleResourceModel S.State)
      : World RoleResourceModel S.State → Type 0 where
    here : RoleLife w w
    next : {v x : World RoleResourceModel S.State} → RoleLife w v → RoleStep v x → RoleLife w x

module _ (S : Session) (D : IsRoleDatabase S) (name : String) where
  -- The state is what the table holds of the role; a null list stands for no element, as `[]` does.
  abbrev pub IsShown : RoleResourceModel → S.State → Type 0
  IsShown m s =
      (login : Bool) × (super : Bool) × (members : Option (List String)) × (recorded : Value
        (List (Value String)))
      × (m ≡ stored name login super recorded)
      × (elements_as recorded ≡ done (slice members))
      × (D.found s name ≡ some (row_of name login super members))

  abbrev AreOthers : S.State → S.State → Type 0
  AreOthers start s =
      (other : String)
      → (other == name) ≡ false
      → SameBut name (D.found start other) (D.found s other)

  pub record IsRecorded (start : S.State) (w : World RoleResourceModel S.State) : Type 0 where
    pub in_step : (m : RoleResourceModel) → w.managed ≡ some m → IsShown m w.database
    pub absent :
        w.managed ≡ none
        → (D.found w.database name ≡ none) ⊎ (D.found w.database name ≡ D.found start name)
    pub others : AreOthers start w.database

  others_kept :
      (start s t : S.State)
      → AreOthers start s
      → ((other : String) → (other == name) ≡ false → D.found t other ≡ D.found s other)
      → AreOthers start t
  others_kept start s t before kept other differ =
      subst (SameBut name (D.found start other)) (sym (kept other differ)) (before other differ)

texts_of-value_from : (xs : List String) → texts_of (value_from xs) ≡ done xs
unfolding texts_of value_from
texts_of-value_from [] = refl
texts_of-value_from (x ∷ xs) = rw (texts_of-value_from xs) refl

elements_as-list_value_from :
    (members : Option (List String)) → elements_as (list_value_from members) ≡ done (slice members)
unfolding elements_as list_value_from
elements_as-list_value_from none = refl
elements_as-list_value_from (some xs) = texts_of-value_from xs

module _ (S : Session) (D : IsRoleDatabase S) ⦃u : Unicode⦄ (c : Cluster)
    (own : c.system_auth_keyspace_name ≡ D.auth_keyspace) (name : String)
    (plain : lacks "'" name ≡ true) (start : S.State) where
  shown-IsRecorded :
      (s : S.State) (st : RoleResourceModel)
      → IsShown S D name st s
      → AreOthers S D name start s
      → IsRecorded S D name start (record { managed = some st; database = s })
  shown-IsRecorded s st shows others = record {
    in_step = λ m e. subst (λ x. IsShown S D name x s) (some-injective st m e) shows;
    absent = λ e. cc;
    others = others;
  }

  RoleStep-IsRecorded :
      (w v : World RoleResourceModel S.State)
      → IsRecorded S D name start w
      → RoleStep S c name w v
      → IsRecorded S D name start v
  RoleStep-IsRecorded w v before (creates login super id members st _ h) =
      let (form, _, new, lone, after) =
        created-found S D name login super id members w.database st h in
      shown-IsRecorded _ st
        (
          login,
          super,
          new,
          _,
          form,
          elements_as-list_value_from (some []) ∙ ap done (sym lone),
          after name ∙ if_same name _ _,
        )
        (others_kept S D name start w.database _ before.others
          (λ other differ. after other ∙ rw differ refl))
  RoleStep-IsRecorded w v before (updates login super id members old st e h) =
      let (was_login, was_super, groups, recorded, was, texts, held) = before.in_step old e in
      let (row, there, form, after) =
        updated-found S D name login super id members w.database old st plain h in
      let same : row.member_of ≡ groups =
        ap (λ (x : RoleRow). x.member_of) (some-injective row _ (sym there ∙ held)) in
      shown-IsRecorded _ st
        (
          login,
          super,
          groups,
          recorded,
          form ∙ ap (λ (x : RoleResourceModel). stored name login super x.member_of) was,
          texts,
          after name ∙ if_same name _ _ ∙ ap (λ ms. some (row_of name login super ms)) same,
        )
        (others_kept S D name start w.database _ before.others
          (λ other differ. after other ∙ rw differ refl))
  RoleStep-IsRecorded w v before (refreshes old seen e h) =
      let (login, super, groups, recorded, was, texts, held) = before.in_step old e in
      let (answer, still) = role_read-seen S D c own old w.database seen h in
      let named = ap (λ (x : RoleResourceModel). value_string x.id) was in
      let look = ap (D.found w.database) named ∙ held in
      let same : some (stored name login super (list_value_from groups)) ≡ seen =
        sym (answer ∙ ap shown look) in
      subst
        (λ x.
          IsRecorded S D name start
            (record { managed = x; database = (read S c (done old) w.database).1 }))
        same
        (subst
          (λ d. IsRecorded S D name start (record {
            managed = some (stored name login super (list_value_from groups));
            database = d;
          }))
          (sym still)
          (shown-IsRecorded w.database _
            (login, super, groups, _, refl, elements_as-list_value_from groups, held)
            before.others))
  RoleStep-IsRecorded w v before (deletes old e h) =
      let (login, super, groups, recorded, was, texts, held) = before.in_step old e in
      let (gone, rest) =
        deleted-found S D name old w.database (ap (λ (x : RoleResourceModel). x.role) was) plain
          h in
      record {
        in_step = λ m lost. cc;
        absent = λ _. inl gone;
        others = λ other differ.
            SameBut-trans name _ _ _ (before.others other differ) (rest other differ);
      }

  -- Behind any sequence of `Create`, `Update`, `Read` and `Delete` of a role resource, each of
  -- which ends without an error and whose plans name one and the same role, the recorded state, if
  -- there is one, is what the table holds of the role, the roles that it is a member of included,
  -- where a null list stands for none of them, as an empty one does; if there is none, the role is
  -- not there, or as it was at the start; and every other role is there or not as it was at the
  -- start, with its flags and the roles that it is a member of, except that it may be a member of
  -- this one no more or again. The name has no quotation mark, and the cluster's keyspace is the
  -- one that holds the roles.
  pub RoleLife-IsRecorded :
      (w : World RoleResourceModel S.State)
      → RoleLife S c name (record { managed = none; database = start }) w
      → IsRecorded S D name start w
  RoleLife-IsRecorded w here = record {
    in_step = λ m e. cc;
    absent = λ _. inr refl;
    others = λ other differ. SameBut-refl name (D.found start other);
  }
  RoleLife-IsRecorded w (next {v = v} steps step) =
      RoleStep-IsRecorded v w (RoleLife-IsRecorded v steps) step
