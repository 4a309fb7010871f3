-- ===== src/Routes/Shredding.antt =====
-- DELETE /key/shred erases the key.
use mathlib.Core.Path.{subst}
use chameleon_vault.Prelude.{
  ℕ, String, ◌≡◌, refl, sym, ap, ◌∙◌, inl, inr, Bool, true, false, Option, none, some, [], ◌∷◌,
  ◌++◌, ok, err, Result, find, put, find-put_self, if◌then◌else◌, or_default, ◌==◌, Bool-cases,
  Option-cases,
}
use mathlib.Core.Option.{some-injective, none-ne-some}
use chameleon_vault.Fault.{Fault}
use chameleon_vault.Requests.Types.{Status, Request}
use chameleon_vault.Requests.Repository.{fresh, create_deletion_request, get_deletion_request}
use chameleon_vault.Requests.Queries.{get_active_deletion_request_for_user}
use chameleon_vault.Keys.Registry.{
  Keys, KeyState, KeyStatus, active, rotated, shredded, deleted, doc_id, is_shredded,
  get_key_status, key_status_of, or_text,
}
use chameleon_vault.Deletion.World.{
  World, Env, LineageEvent, later, requests_of, keys_of, set_requests, tenant_of, record_event,
}
use chameleon_vault.Deletion.Service.{
  created_event, create_new, create_request, advance_request, get_request,
}
use chameleon_vault.Deletion.Keeps.{Shredded}
use chameleon_vault.Deletion.Erasing.{cascade-KeepsKeys, destroy-Shredded}
use chameleon_vault.Routes.Http.{tenant_header, default_tenant, user_of}
use chameleon_vault.Routes.Deletion.{
  DeletionBody, is_valid_shred, shred_operation, shred_route, then_destroy, then_cascade,
  cascade_reply, is_erased,
}

-- The header's tenant is never an empty text.
tenant_header-text :
    (h : Option String) → or_text (some (tenant_header h)) none ≡ some (tenant_header h)
tenant_header-text none = refl
tenant_header-text (some t) = elim (Bool-cases (t == "")) [
  | inl empty ↦ rw empty refl
  | inr text ↦ rw text (rw text refl)
]

then_cascade-keys :
    (env : Env) (op : String) (p : Result Fault Request × World)
    → keys_of (then_cascade env op p).1 ≡ keys_of p.1
then_cascade-keys env op (err e, w) = refl
then_cascade-keys env op (ok r, w) =
    go (advance_request env op [] r.deletion_request_id Status.cascade_pending w)
    ∙ cascade-KeepsKeys env op r.deletion_request_id [] w
  where
    go : (p : Result Fault Request × World) → keys_of (cascade_reply p).1 ≡ keys_of p.1
    go (err e, t) = refl
    go (ok r', t) = refl

record_event-requests :
    (env : Env) (e : LineageEvent) (w : World)
    → requests_of (record_event env e w).1 ≡ requests_of w
record_event-requests env e w = go env.lineage_up
  where
    go :
        (b : Bool)
        → requests_of (if b then record w { lineage = w.lineage ++ e ∷ [] } else w) ≡ requests_of w
    go true = refl
    go false = refl

module _ (env : Env) (header : Option String) (user op : String) (w : World) where
  abbrev new_request : Request
  new_request = fresh (env.clock 0) user op (tenant_header header) none

  abbrev created : World
  created =
      (record_event env (created_event user op (tenant_header header))
        (set_requests (put op new_request (requests_of w)) w)).1

  create-new :
      find op (requests_of w) ≡ none
      → get_active_deletion_request_for_user user (tenant_header header) (requests_of w) ≡ none
      → create_request env user op (tenant_header header) none w
        ≡ (ok (record { request = new_request; already_existed = false }), created)
  unfolding create_request create_deletion_request
  create-new absent none_active =
      rw (create_request, none_active) (rw (create_new, create_deletion_request, absent) refl)

  -- A request that is created and advanced at once destroys the key.
  destroy-Erased :
      find op (requests_of w) ≡ none
      → get_active_deletion_request_for_user user (tenant_header header) (requests_of w) ≡ none
      → env.shred_outage ≡ none
      → Shredded
          (keys_of
            (then_destroy
              (later env)
              op
              (create_request env user op (tenant_header header) none w)).1)
          (tenant_header header)
          user
  destroy-Erased absent none_active up =
      let found : find op (requests_of created) ≡ some new_request =
        ap (find op) (record_event-requests env _ _)
        ∙ find-put_self op new_request (requests_of w) in
      let same_tenant : tenant_of new_request ≡ tenant_header header =
        ap (λ t. or_default t default_tenant) (tenant_header-text header) in
      let gone = destroy-Shredded (later env) op op [] new_request created found refl up in
      rw (create-new absent none_active) (
        subst (λ keys. Shredded keys (tenant_header header) user)
          (sym (
            then_cascade-keys (later (later env)) op
              (advance_request (later env) op [] op Status.key_destroyed created)))
          (subst
            (λ t.
              Shredded
                (keys_of (advance_request (later env) op [] op Status.key_destroyed created).1) t
                user)
            same_tenant gone))

erased_status : (s : KeyState) → is_erased s ≡ true → is_shredded s ≡ true
erased_status shredded h = refl
erased_status active h = cc
erased_status rotated h = cc
erased_status deleted h = refl

stored_status :
    (now : ℕ) (user tenant : String) (keys : Keys) (s : KeyStatus)
    → get_key_status now user tenant keys ≡ some s
    → is_erased s.status ≡ true
    → Shredded keys tenant user
unfolding get_key_status
stored_status now user tenant keys s known erased =
    elim (Option-cases (find (doc_id tenant user) keys)) [
      | inl gone ↦ absurd (none-ne-some s (rw (get_key_status, gone) at known))
      | inr (k, here) ↦
          let same : some (key_status_of now k) ≡ some s = rw (get_key_status, here) at known in
          (
            k,
            here,
            erased_status k.status
                (ap (λ t. is_erased t.status) (some-injective _ _ same) ∙ erased),
          )
    ]

-- After DELETE /key/shred with a valid body for a user that has a key document, that document is
-- shredded, whatever the plan, the cascade, the certificate and the lineage do, if the registry can be
-- written and neither the operation id nor the user has a request that stands in the way.
pub shred_route-Shredded :
    (env : Env) (header correlation : Option String) (b : DeletionBody) (w : World) (s : KeyStatus)
    → is_valid_shred b ≡ true
    → get_request (shred_operation env correlation b) w ≡ none
    → get_active_deletion_request_for_user (user_of b.user) (tenant_header header) (requests_of w)
      ≡ none
    → get_key_status (env.clock 0) (user_of b.user) (tenant_header header) (keys_of w) ≡ some s
    → env.shred_outage ≡ none
    → Shredded
        (keys_of (shred_route env header correlation b w).1)
        (tenant_header header)
        (user_of b.user)
unfolding shred_route get_request get_deletion_request
shred_route-Shredded env header correlation b w s valid absent none_active known up =
    let op = shred_operation env correlation b in
    let user = user_of b.user in
    elim (Bool-cases (is_erased s.status)) [
      | inl erased ↦
          rw (shred_route, valid, absent, known, erased)
            (stored_status (env.clock 0) user (tenant_header header) (keys_of w) s known erased)
      | inr live ↦
          rw (shred_route, valid, absent, known, live)
            (destroy-Erased env header user op w absent none_active up)
    ]
