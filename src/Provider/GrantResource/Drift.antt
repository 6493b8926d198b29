-- ===== src/Provider/GrantResource/Drift.antt =====
-- When `ModifyPlan` lets the plan be.
use terraform_provider_scyll.Base.{
  String, ◌≡◌, ◌∙◌, refl, sym, ap, Bool, true, false, ◌||◌, some, List, [], ◌∷◌, ◌==◌, arith,
  if◌then◌else◌, Bool-cases, inl, inr, ◌⊎◌, ◌≢◌,
}
use terraform_provider_scyll.Base.Exec.{Result, ok, err, Exec, continue, pure}
use terraform_provider_scyll.Go.Strings.{Unicode, to_upper, contains_text}
use terraform_provider_scyll.Scylladb.Cluster.{Cluster}
use terraform_provider_scyll.Scylladb.Session.{Session}
use terraform_provider_scyll.Scylladb.Grant.{
  Grant, create_grant, update_grant, get_resource_name, get_role_permissions, list_grant,
  get_grant_permissions,
}
use terraform_provider_scyll.Provider.Framework.{
  known, Fallible, done, with_summary, elements_as, value_from,
}
use terraform_provider_scyll.Provider.Framework.Laws.{
  follow_keeps, follow-done, done-injective, with_summary-done,
}
use terraform_provider_scyll.Provider.Domains.RoundTrip.{texts_of-value_from}
use terraform_provider_scyll.Provider.GrantResource.{
  GrantResourceModel, grant_of, grant_id, complete, same_texts, plan_kept, permissions_replaced,
  create, update, modify_plan,
}

same_texts_refl : (xs : List String) → same_texts xs xs ≡ true
unfolding same_texts
same_texts_refl [] = refl
same_texts_refl (x ∷ xs) = ground (arith, same_texts_refl xs)

same_texts_sound : (xs ys : List String) → same_texts xs ys ≡ true → xs ≡ ys
unfolding same_texts
same_texts_sound [] [] h = refl
same_texts_sound [] (y ∷ ys) h = cc
same_texts_sound (x ∷ xs) [] h = cc
same_texts_sound (x ∷ xs) (y ∷ ys) h = ground (arith, same_texts_sound xs ys)

continue_state :
    {T A B : Type 0} (r : Result A) (f : A → B) (t : T) → (continue r (λ a. pure (f a)) t).1 ≡ t
continue_state (ok a) f t = refl
continue_state (err e) f t = refl

if_state :
    {T A : Type 0} (b : Bool) (m n : Exec T A) (t : T)
    → (m t).1 ≡ t
    → (n t).1 ≡ t
    → ((if b then m else n) t).1 ≡ t
if_state true m n t hm hn = hm
if_state false m n t hm hn = hn

module _ (S : Session) ⦃u : Unicode⦄ (c : Cluster) where
  get_role_permissions-state : (g : Grant) (s : S.State) → (get_role_permissions S c g s).1 ≡ s
  unfolding get_role_permissions
  get_role_permissions-state g s = elim (Bool-cases (get_resource_name g == "")) [
    | inl e ↦ rw e refl
    | inr e ↦ rw e refl
  ]

  -- Reading the permissions of a grant changes nothing.
  get_grant_permissions-state : (g : Grant) (s : S.State) → (get_grant_permissions S c g s).1 ≡ s
  unfolding get_grant_permissions list_grant
  get_grant_permissions-state g s =
      if_state
        (contains_text (to_upper g.resource_type) "KEYSPACE" || to_upper g.resource_type == "TABLE")
        (get_role_permissions S c g) _ s (get_role_permissions-state g s)
        (continue_state (list_grant S g s).0 _ s)

  elements-stored : (ps : List String) → elements_as (known (value_from ps)) ≡ done ps
  unfolding elements_as
  elements-stored ps = texts_of-value_from ps

  -- The last step of `Create` and `Update` changes nothing, also when it fails.
  pub complete-state :
      (plan : GrantResourceModel) (g : Grant) (s : S.State) → (complete S c plan g s).1 ≡ s
  complete-state plan g s =
      let run = get_grant_permissions S c g s in
      follow_keeps (λ t. t ≡ s) (with_summary "Error Getting Grant Permissions" run.0) _ run.1
        (get_grant_permissions-state g s) (λ ps. get_grant_permissions-state g s)

  -- The state that `Create` and `Update` set, and the one behind their last read.
  pub completed :
      (plan st : GrantResourceModel) (s : S.State)
      → (complete S c plan (grant_of plan) s).0 ≡ done st
      → (ps : List String) × ((get_grant_permissions S c (grant_of plan) s).0 ≡ ok ps)
        × (st ≡ record plan {
          permissions = known (value_from ps);
          id = known (grant_id (grant_of plan));
        })
        × ((complete S c plan (grant_of plan) s).1 ≡ s)
  completed plan st s h =
      let run = get_grant_permissions S c (grant_of plan) s in
      let (ps, ran, rest, end) =
        follow-done (with_summary "Error Getting Grant Permissions" run.0) _ run.1 st h in
      (
        ps,
        with_summary-done "Error Getting Grant Permissions" run.0 ps ran,
        sym (done-injective _ st rest),
        ap (λ o. o.1) end ∙ get_grant_permissions-state (grant_of plan) s,
      )

  -- `ModifyPlan` of a state whose permissions are those in the database.
  kept :
      (plan : GrantResourceModel) (planned : Fallible GrantResourceModel) (ps : List String)
      (s : S.State)
      → (get_grant_permissions S c (grant_of plan) s).0 ≡ ok ps
      → modify_plan S c
          (some (
            done (record plan {
              permissions = known (value_from ps);
              id = known (grant_id (grant_of plan));
            })))
          (some planned)
          s
        ≡ (done plan_kept, s)
  unfolding modify_plan grant_of
  kept plan planned ps s got =
      rw
        (got, elements-stored ps, same_texts_refl ps, get_grant_permissions-state (grant_of plan) s)
        refl

  -- After a `Create` that ended without an error, `ModifyPlan` of the state that it set finds no
  -- drift on the same database: it lets the plan be, whatever is planned.
  pub create-modify_plan :
      (plan st : GrantResourceModel) (planned : Fallible GrantResourceModel) (s : S.State)
      → (create S c (done plan) s).0 ≡ done st
      → modify_plan S c (some (done st)) (some planned) (create S c (done plan) s).1
        ≡ (done plan_kept, (create S c (done plan) s).1)
  unfolding create
  create-modify_plan plan st planned s h =
      let run = create_grant S (grant_of plan) s in
      let (_, ran, rest, end) =
        follow-done (with_summary "Error Creating Grant" run.0) _ run.1 st h in
      let (ps, got, same, still) = completed plan st run.1 rest in
      let after = ap (λ o. o.1) end ∙ still in rw (after, same) (kept plan planned ps run.1 got)

  -- After an `Update` that ended without an error, `ModifyPlan` of the state that it set finds no
  -- drift on the same database: it lets the plan be, whatever is planned.
  pub update-modify_plan :
      (old plan st : GrantResourceModel) (planned : Fallible GrantResourceModel) (s : S.State)
      → (update S c (done old) (done plan) s).0 ≡ done st
      → modify_plan S c (some (done st)) (some planned) (update S c (done old) (done plan) s).1
        ≡ (done plan_kept, (update S c (done old) (done plan) s).1)
  unfolding update
  update-modify_plan old plan st planned s h =
      let (from, converted, behind, end₁) = follow-done (elements_as old.permissions) _ s st h in
      let run = update_grant S (grant_of old) (grant_of plan) s in
      let (_, ran, rest, end₂) =
        follow-done (with_summary "Error Updating Grant" run.0) _ run.1 st behind in
      let (ps, got, same, still) = completed plan st run.1 rest in
      let after = ap (λ o. o.1) (end₁ ∙ end₂) ∙ still in
      rw (after, same) (kept plan planned ps run.1 got)

  -- Where the permissions in the database and those recorded in the state can be read, `ModifyPlan`
  -- asks for a replacement exactly if the two lists differ, and then plans the permissions of the
  -- database; it changes nothing in the database.
  pub modify_plan-drift :
      (state planned : GrantResourceModel) (ps qs : List String) (s : S.State)
      → (get_grant_permissions S c (grant_of state) s).0 ≡ ok ps
      → elements_as state.permissions ≡ done qs
      → ((ps ≡ qs)
          × (modify_plan S c (some (done state)) (some (done planned)) s ≡ (done plan_kept, s)))
        ⊎ ((ps ≢ qs)
            × (modify_plan S c (some (done state)) (some (done planned)) s ≡ (
              done (permissions_replaced (record planned { permissions = known (value_from ps) })),
              s,
            )))
  unfolding modify_plan
  modify_plan-drift state planned ps qs s got recorded = elim (Bool-cases (same_texts ps qs)) [
    | inl e ↦ inl (
      same_texts_sound ps qs e,
      rw (got, recorded, e, get_grant_permissions-state (grant_of state) s) refl,
    )
    | inr e ↦ inr (
      λ h. cc (sym (same_texts_refl ps) ∙ ap (same_texts ps) h ∙ e),
      rw (got, recorded, e, get_grant_permissions-state (grant_of state) s) refl,
    )
  ]
