-- ===== src/Routes/Registry/Declaring.antt =====
-- What was declared is what is read.
use mathlib.Core.Path.{subst}
use chameleon_vault.Prelude.{
  ℕ, String, ◌≡◌, ◌⊎◌, refl, sym, ap, ◌∙◌, inl, inr, Bool, ◌||◌, ◌&&◌, not, is_some, Option, none,
  some, ok, err, find, put, find-put_self, Bool-cases, Option-cases,
}
use chameleon_vault.Fault.{Fault, immutable_owner, missing_tenant}
use chameleon_vault.Keys.Registry.{or_text}
use chameleon_vault.Declarations.Types.{PiiRegistryEntry}
use chameleon_vault.Declarations.Registry.{Declarations, key_of, get_entry, upsert_entry, is_manual}
use chameleon_vault.Declarations.Policy.{evaluate_entry}
use chameleon_vault.Declarations.Forms.Input.{PiiRegistryDeclarationInput}
use chameleon_vault.Declarations.Forms.Build.{build_manual_entry}
use chameleon_vault.Declarations.Forms.Accepted.{IsDeclared, build-IsDeclared}
use chameleon_vault.Routes.Http.{Reply, sent, refused}
use chameleon_vault.Routes.Registry.Callers.{tenant_of, Caller, require_write_auth}
use chameleon_vault.Routes.Registry.Upsert.{
  RegistryEnv, Declared, upsert, upsert_at, upsert_route, save, saved_reply, mutation_code, found,
  with_path, is_platform_managed, names_view, names_missing_column,
}
use chameleon_vault.Routes.Registry.Maintain.{resource_route}

-- An upsert that fails changes nothing; one that succeeds stores the entry under its tenant and id.
pub upsert_entry-cases :
    (encode : String → String) (down : Option Fault) (e : PiiRegistryEntry) (d : Declarations)
    → ((f : Fault) × (upsert_entry encode down e d ≡ (err f, d)))
      ⊎ ((d' : Declarations) × (upsert_entry encode down e d ≡ (ok e, d'))
          × (find (key_of e.tenant_id e.resource_id) d'.entries ≡ some e))
unfolding upsert_entry
upsert_entry-cases encode down e d = elim (Bool-cases (is_manual e)) [
  | inr foreign ↦ inl (immutable_owner, rw (upsert_entry, foreign) refl)
  | inl manual ↦ elim (Option-cases (or_text e.tenant_id none)) [
    | inl gone ↦ inl (missing_tenant, rw (upsert_entry, manual, gone) refl)
    | inr (t, owned) ↦ elim (Option-cases down) [
      | inr (f, outage) ↦ inl (f, rw (upsert_entry, manual, owned, outage) refl)
      | inl up ↦ inr (
        record (upsert_entry encode none e d).1 {
          entries = put (key_of e.tenant_id e.resource_id) e d.entries;
        },
        rw (upsert_entry, manual, owned, up) refl,
        find-put_self (key_of e.tenant_id e.resource_id) e d.entries,
      )
    ]
  ]
]

body_or : {A : Type 0} → A → Reply A → A
body_or a (sent n b) = b
body_or a (refused n) = a

sent-injective : {A : Type 0} (m n : ℕ) (a b : A) → ◌≡◌ {A = Reply A} (sent m a) (sent n b) → a ≡ b
unfolding body_or
sent-injective m n a b h = ap (body_or a) h

-- GET with this parameter gives the resource with its policy, and it is a sound declaration.
abbrev pub Reads : RegistryEnv → Option String → String → Declared → Declarations → Type 0
Reads env header param r d =
    (resource_route env header param d ≡ sent 200 (r.resource, r.policy))
    × IsDeclared (tenant_of header) r.resource

stored-Reads :
    (env : RegistryEnv) (header : Option String) (param : String) (e : PiiRegistryEntry)
    (d : Declarations)
    → env.decode param ≡ some e.resource_id
    → find (key_of e.tenant_id e.resource_id) d.entries ≡ some e
    → IsDeclared (tenant_of header) e
    → resource_route env header param d ≡ sent 200 (e, evaluate_entry e)
unfolding resource_route get_entry
stored-Reads env header param e d decoded here sound =
    let here' : find (key_of (some (tenant_of header)) e.resource_id) d.entries ≡ some e =
      subst (λ t. find (key_of t e.resource_id) d.entries ≡ some e) sound.owned here in
    rw (resource_route, decoded, get_entry, here') refl

refused-sent : {A : Type 0} (k n : ℕ) (r : A) → ¬ (◌≡◌ {A = Reply A} (refused k) (sent n r))
refused-sent k n r h = cc

save-Reads :
    (env : RegistryEnv) (header : Option String) (created : Bool) (o : Option PiiRegistryEntry)
    (d : Declarations) (n : ℕ) (r : Declared) (param : String)
    → env.decode param ≡ some r.resource.resource_id
    → ((e : PiiRegistryEntry) → o ≡ some e → IsDeclared (tenant_of header) e)
    → (save env created o d).0 ≡ sent n r
    → Reads env header param r (save env created o d).1
save-Reads env header created none d n r param decoded sound h = absurd (refused-sent 400 n r h)
save-Reads env header created (some e) d n r param decoded sound h =
    elim (Bool-cases (names_view env e || names_missing_column env e)) [
      | inl blocked ↦
          let answer : (save env created (some e) d).0 ≡ refused 400 = rw (save, blocked) refl in
          absurd (refused-sent 400 n r (sym answer ∙ h))
      | inr free ↦ elim (upsert_entry-cases env.encode env.down e d) [
        | inl (f, failed) ↦
            let answer : (save env created (some e) d).0 ≡ refused (mutation_code f) =
              rw (save, free, failed) refl in
            absurd (refused-sent (mutation_code f) n r (sym answer ∙ h))
        | inr (d', worked, here) ↦
            let saved = saved_reply env created (ok e, d') in
            let answer : save env created (some e) d ≡ saved = rw (save, free, worked) refl in
            let same : saved.0 ≡ sent n r = ap (λ p. p.0) (sym answer) ∙ h in
            let sound_entry = sound e refl in
            let there = sent-injective _ _ _ _ same in
            let decoded' : env.decode param ≡ some e.resource_id =
              subst (λ (r : Declared). env.decode param ≡ some r.resource.resource_id) (sym there)
                decoded in
            rw answer (
              subst (λ r. Reads env header param r d') there
                (stored-Reads env header param e d' decoded' here sound_entry, sound_entry))
      ]
    ]

module _ (env : RegistryEnv) (header analyst : Option String) (form : PiiRegistryDeclarationInput)
    (d : Declarations) (n : ℕ) (r : Declared) (param : String)
    (decoded : env.decode param ≡ some r.resource.resource_id) where
  upsert_lem :
      (path : Option String)
      → (upsert env header analyst form path d).0 ≡ sent n r
      → Reads env header param r (upsert env header analyst form path d).1
  unfolding upsert
  upsert_lem path h = elim (Bool-cases (is_some given_path && is_platform_managed existing)) [
    | inl managed ↦
        let answer : (upsert env header analyst form path d).0 ≡ refused 409 =
          rw (upsert, managed) refl in
        absurd (refused-sent 409 n r (sym answer ∙ h))
    | inr free ↦
        let answer : upsert env header analyst form path d ≡ save env fresh made d =
          rw (upsert, free) refl in
        rw answer (
          save-Reads env header fresh made d n r param decoded
            (λ e built. build-IsDeclared input (tenant_of header) env.now existing analyst e built)
            (ap (λ p. p.0) (sym answer) ∙ h))
  ]
    where
      given_path : Option String
      given_path = or_text path none

      input : PiiRegistryDeclarationInput
      input = with_path given_path form

      existing : Option PiiRegistryEntry
      existing = found input.resource_id (tenant_of header) d

      made : Option PiiRegistryEntry
      made = (build_manual_entry input (tenant_of header) env.now existing analyst).entry

      fresh : Bool
      fresh = not (is_some given_path) && not (is_some existing)

  upsert_at_lem :
      (given : Option String)
      → (upsert_at env header analyst form given d).0 ≡ sent n r
      → Reads env header param r (upsert_at env header analyst form given d).1
  unfolding upsert_at
  upsert_at_lem none h = upsert_lem none h
  upsert_at_lem (some p) h = elim (Option-cases (env.decode p)) [
    | inl broken ↦
        let answer : (upsert_at env header analyst form (some p) d).0 ≡ refused 500 =
          rw (upsert_at, broken) refl in
        absurd (refused-sent 500 n r (sym answer ∙ h))
    | inr (id, fine) ↦
        let answer : upsert_at env header analyst form (some p) d
            ≡ upsert env header analyst form (some id) d =
          rw (upsert_at, fine) refl in
        rw answer (upsert_lem (some id) (ap (λ p. p.0) (sym answer) ∙ h))
  ]

-- After a POST or PUT that is answered with a resource, GET for the same tenant, with a parameter that
-- decodes to that resource's id, answers the resource and its policy, and the resource is a sound
-- declaration of the tenant.
pub upsert-Reads :
    (env : RegistryEnv) (caller : Caller) (header : Option String)
    (form : PiiRegistryDeclarationInput) (given : Option String) (d : Declarations) (n : ℕ)
    (r : Declared) (param : String)
    → (upsert_route env caller header form given d).0 ≡ sent n r
    → env.decode param ≡ some r.resource.resource_id
    → Reads env header param r (upsert_route env caller header form given d).1
unfolding upsert_route
upsert-Reads env caller header form given d n r param h decoded =
    elim (Option-cases (require_write_auth env.write_token caller)) [
      | inr (code, closed) ↦
          let answer : (upsert_route env caller header form given d).0 ≡ refused code =
            rw (upsert_route, closed) refl in
          absurd (refused-sent code n r (sym answer ∙ h))
      | inl may ↦
          let answer : upsert_route env caller header form given d
              ≡ upsert_at env header caller.analyst form given d =
            rw (upsert_route, may) refl in
          rw answer (
            upsert_at_lem env header caller.analyst form d n r param decoded given
              (ap (λ p. p.0) (sym answer) ∙ h))
    ]
