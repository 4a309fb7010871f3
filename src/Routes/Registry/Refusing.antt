-- ===== src/Routes/Registry/Refusing.antt =====
-- A write that is refused changes nothing.
use chameleon_vault.Prelude.{
  ℕ, String, ◌≡◌, ◌⊎◌, refl, sym, inl, inr, Bool, true, false, ◌||◌, ◌&&◌, is_some, Option, none,
  some, err, find, Exec, Bool-cases, Option-cases, Result-cases, err-ne-ok,
}
use chameleon_vault.Fault.{Fault}
use chameleon_vault.Declarations.Types.{PiiRegistryEntry}
use chameleon_vault.Declarations.Registry.{
  Declarations, key_of, declaration_id, is_manual, write, mark, advance_sync_watermark,
  advance_last_sync_attempt, remove_entry, mark_resource_synced, mark_resource_sync_attempted,
}
use chameleon_vault.Declarations.Forms.Input.{PiiRegistryDeclarationInput}
use chameleon_vault.Keys.Registry.{or_text}
use chameleon_vault.Routes.Http.{Reply, sent, refused}
use chameleon_vault.Routes.Registry.Callers.{tenant_of, Caller, require_write_auth, gated}
use chameleon_vault.Routes.Registry.Upsert.{
  RegistryEnv, upsert, upsert_at, upsert_route, save, found, with_path, is_platform_managed,
  names_view, names_missing_column,
}
use chameleon_vault.Routes.Registry.Maintain.{
  removed_reply, marked_reply, remove_route, mark_synced_route, mark_sync_attempted_route,
}
use chameleon_vault.Routes.Registry.Declaring.{upsert_entry-cases}

abbrev is_sent : {A : Type 0} → Reply A → Bool
is_sent (sent n a) = true
is_sent (refused n) = false

-- The call answers a body, or leaves the registry as it was.
abbrev Settles : {A : Type 0} → Declarations → Reply A × Declarations → Type 0
Settles d p = (is_sent p.0 ≡ true) ⊎ (p.1 ≡ d)

-- A registry call that fails changes nothing.
abbrev FailsClean : {A : Type 0} → Exec Fault Declarations A → Type 0
FailsClean m = (d : Declarations) (f : Fault) → (m d).0 ≡ err f → (m d).1 ≡ d

refused-unchanged :
    {A : Type 0} (d : Declarations) (p : Reply A × Declarations) (n : ℕ)
    → Settles d p
    → p.0 ≡ refused n
    → p.1 ≡ d
refused-unchanged d p n (inr kept) h = kept
refused-unchanged d p n (inl answer) h = let clash : false ≡ true = rw h at answer in cc

gated-Settles :
    {A : Type 0} (gate : Option ℕ) (m : Declarations → Reply A × Declarations) (d : Declarations)
    → Settles d (m d)
    → Settles d (gated gate m d)
gated-Settles none m d h = h
gated-Settles (some code) m d h = inr refl

save-Settles :
    (env : RegistryEnv) (created : Bool) (o : Option PiiRegistryEntry) (d : Declarations)
    → Settles d (save env created o d)
save-Settles env created none d = inr refl
save-Settles env created (some e) d =
    elim (Bool-cases (names_view env e || names_missing_column env e)) [
      | inl blocked ↦ inr (rw (save, blocked) refl)
      | inr free ↦ elim (upsert_entry-cases env.encode env.down e d) [
        | inl (f, failed) ↦ inr (rw (save, free, failed) refl)
        | inr (d', worked, _) ↦ inl (rw (save, free, worked) refl)
      ]
    ]

upsert-Settles :
    (env : RegistryEnv) (header analyst : Option String) (form : PiiRegistryDeclarationInput)
    (path : Option String) (d : Declarations)
    → Settles d (upsert env header analyst form path d)
unfolding upsert
upsert-Settles env header analyst form path d =
    elim (Bool-cases (is_some given_path && is_platform_managed existing)) [
      | inl managed ↦ inr (rw (upsert, managed) refl)
      | inr free ↦ rw (upsert, free) (save-Settles env _ _ d)
    ]
  where
    given_path : Option String
    given_path = or_text path none

    existing : Option PiiRegistryEntry
    existing = found (with_path given_path form).resource_id (tenant_of header) d

upsert_at-Settles :
    (env : RegistryEnv) (header analyst : Option String) (form : PiiRegistryDeclarationInput)
    (given : Option String) (d : Declarations)
    → Settles d (upsert_at env header analyst form given d)
unfolding upsert_at
upsert_at-Settles env header analyst form none d = upsert-Settles env header analyst form none d
upsert_at-Settles env header analyst form (some p) d = elim (Option-cases (env.decode p)) [
  | inl broken ↦ inr (rw (upsert_at, broken) refl)
  | inr (id, fine) ↦ rw (upsert_at, fine) (upsert-Settles env header analyst form (some id) d)
]

-- A handler that decodes its parameter first.
decoded-Settles :
    {A : Type 0} (o : Option String) (m : String → Reply A × Declarations) (d : Declarations)
    → ((id : String) → Settles d (m id))
    → Settles {A = A} d (elim o [ none ↦ (refused 500, d) | some id ↦ m id ])
decoded-Settles none m d h = inr refl
decoded-Settles (some id) m d h = h id

module _ (encode : String → String) (down : Option Fault) (tenant id : String) (at : ℕ) where
  advance-FailsClean : FailsClean (advance_sync_watermark encode down tenant id at)
  unfolding advance_sync_watermark
  advance-FailsClean d f h = elim (Option-cases down) [
    | inr (e, closed) ↦ rw (advance_sync_watermark, write, closed) refl
    | inl up ↦ elim (Option-cases (find (declaration_id encode tenant id) d.durable)) [
      | inl gone ↦ rw (advance_sync_watermark, write, up, gone) refl
      | inr (e, here) ↦
          let clash = rw (advance_sync_watermark, write, up, here) at h in
          absurd (err-ne-ok f _ (sym clash))
    ]
  ]

  attempt-FailsClean : FailsClean (advance_last_sync_attempt encode down tenant id at)
  unfolding advance_last_sync_attempt
  attempt-FailsClean d f h = elim (Option-cases down) [
    | inr (e, closed) ↦ rw (advance_last_sync_attempt, write, closed) refl
    | inl up ↦ elim (Option-cases (find (declaration_id encode tenant id) d.durable)) [
      | inl gone ↦ rw (advance_last_sync_attempt, write, up, gone) refl
      | inr (e, here) ↦
          let clash = rw (advance_last_sync_attempt, write, up, here) at h in
          absurd (err-ne-ok f _ (sym clash))
    ]
  ]

marked-Settles :
    (encode : String → String) (down : Option Fault) (advance : Exec Fault Declarations ℕ)
    (change : ℕ → PiiRegistryEntry → PiiRegistryEntry) (id tenant : String) (d : Declarations)
    → FailsClean advance
    → Settles d (marked_reply (mark encode down advance change id tenant d))
marked-Settles encode down advance change id tenant d clean =
    elim (Option-cases (find (key_of (some tenant) id) d.entries)) [
      | inl gone ↦ inr (rw (mark, gone) refl)
      | inr (e, here) ↦ elim (Bool-cases (is_manual e)) [
        | inr foreign ↦ inr (rw (mark, here, foreign) refl)
        | inl manual ↦ elim (Result-cases (advance d).0) [
          | inr (f, failed) ↦ inr (rw (mark, here, manual, failed) (clean d f failed))
          | inl (t, worked) ↦ inl (rw (mark, here, manual, worked) refl)
        ]
      ]
    ]

removed-Settles :
    (encode : String → String) (down : Option Fault) (id tenant : String) (d : Declarations)
    → Settles d (removed_reply (remove_entry encode down id tenant d))
unfolding remove_entry
removed-Settles encode down id tenant d =
    elim (Option-cases (find (key_of (some tenant) id) d.entries)) [
      | inl gone ↦ inr (rw (remove_entry, gone) refl)
      | inr (e, here) ↦ elim (Bool-cases (is_manual e)) [
        | inr foreign ↦ inr (rw (remove_entry, here, foreign) refl)
        | inl manual ↦ elim (Option-cases down) [
          | inr (f, closed) ↦ inr (rw (remove_entry, here, manual, closed) refl)
          | inl up ↦ inl (rw (remove_entry, here, manual, up) refl)
        ]
      ]
    ]

-- What each route leaves of a registry.
pub record Untouched (env : RegistryEnv) (caller : Caller) (header : Option String)
    (d : Declarations) : Type 0 where
  pub upserts :
      (form : PiiRegistryDeclarationInput) (path : Option String) (n : ℕ)
      → (upsert_route env caller header form path d).0 ≡ refused n
      → (upsert_route env caller header form path d).1 ≡ d
  pub removes :
      (id : String) (n : ℕ)
      → (remove_route env caller header id d).0 ≡ refused n
      → (remove_route env caller header id d).1 ≡ d
  pub marks :
      (id : String) (at : Option ℕ) (n : ℕ)
      → (mark_synced_route env caller header id at d).0 ≡ refused n
      → (mark_synced_route env caller header id at d).1 ≡ d
  pub attempts :
      (id : String) (at : Option ℕ) (n : ℕ)
      → (mark_sync_attempted_route env caller header id at d).0 ≡ refused n
      → (mark_sync_attempted_route env caller header id at d).1 ≡ d

-- A declaration, a change, a removal or a mark that is answered with an error, for whatever reason, leaves
-- the registry in memory and its durable copy as they were.
pub refused-Untouched :
    (env : RegistryEnv) (caller : Caller) (header : Option String) (d : Declarations)
    → Untouched env caller header d
unfolding upsert_route remove_route mark_synced_route mark_sync_attempted_route mark_resource_synced
    mark_resource_sync_attempted
refused-Untouched env caller header d = record {
  upserts = λ form path n. refused-unchanged d (upsert_route env caller header form path d) n (
      gated-Settles gate (upsert_at env header caller.analyst form path) d
        (upsert_at-Settles env header caller.analyst form path d));
  removes = λ id n.
      refused-unchanged d (remove_route env caller header id d) n
        (gated-Settles gate _ d (removed id));
  marks =
      λ id at n. refused-unchanged d (mark_synced_route env caller header id at d) n (marked id at);
  attempts = λ id at n.
      refused-unchanged d (mark_sync_attempted_route env caller header id at d) n (attempted id at);
}
  where
    tenant : String
    tenant = tenant_of header

    gate : Option ℕ
    gate = require_write_auth env.write_token caller

    removed :
        (param : String)
        → Settles {A = Unit {0}} d (elim (env.decode param) [
          | none ↦ (refused 500, d)
          | some id ↦ removed_reply (remove_entry env.encode env.down id tenant d)
        ])
    removed param =
        decoded-Settles (env.decode param)
          (λ id. removed_reply (remove_entry env.encode env.down id tenant d)) d
          (λ id. removed-Settles env.encode env.down id tenant d)

    marked : (id : String) (at : Option ℕ) → Settles d (mark_synced_route env caller header id at d)
    marked param none = gated-Settles gate (λ d. (refused 400, d)) d (inr refl)
    marked param (some t) = gated-Settles gate _ d (
        decoded-Settles (env.decode param)
          (λ id. marked_reply (mark_resource_synced env.encode env.down id tenant t d)) d
          (λ id.
            marked-Settles env.encode env.down _ _ id tenant d
              (advance-FailsClean env.encode env.down tenant id t)))

    attempted :
        (id : String) (at : Option ℕ)
        → Settles d (mark_sync_attempted_route env caller header id at d)
    attempted param none = gated-Settles gate (λ d. (refused 400, d)) d (inr refl)
    attempted param (some t) = gated-Settles gate _ d (
        decoded-Settles (env.decode param)
          (λ id. marked_reply (mark_resource_sync_attempted env.encode env.down id tenant t d)) d
          (λ id.
            marked-Settles env.encode env.down _ _ id tenant d
              (attempt-FailsClean env.encode env.down tenant id t)))
