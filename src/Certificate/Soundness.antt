-- ===== src/Certificate/Soundness.antt =====
-- What the claims of a certificate rest on.
use mathlib.Core.Path.{subst}
use mathlib.Core.Option.{some-injective}
use chameleon_vault.Prelude.{
  sym, ap, ◌∙◌, ℕ, ◌≤◌, String, ◌≡◌, refl, inl, inr, true, Option, none, some, List, arith, find,
  length, keep, length-map, length-keep-le, ok, Option-cases, and_then-ok, ok-injective,
}
use chameleon_vault.Fault.{Fault}
use chameleon_vault.Requests.Types.{Request}
use chameleon_vault.Requests.Repository.{is_allowed}
use chameleon_vault.Keys.Registry.{KeyMetadata, KeyStatus, doc_id, is_shredded, key_status_of}
use chameleon_vault.Declarations.Types.{PiiRegistryEntry}
use chameleon_vault.Certificate.Claims.{DestructionStatus, DestructionCertificateClaims}
use chameleon_vault.Certificate.Signer.{
  Evidence, SignerEnv, read, signer_key_status, signer_request, assert_key_shredded,
  assert_cascade_complete, completed, lineage_summary_of, generate_claims, claims_of, succeeded,
  get_manual_registry_entries_for_tenant,
}

pub shredded_ok :
    (user_id : String) (k? : Option KeyStatus) (k : KeyStatus)
    → assert_key_shredded user_id k? ≡ ok k
    → (k? ≡ some k) × (is_shredded k.status ≡ true)
unfolding assert_key_shredded
shredded_ok user_id none k h = ground arith
shredded_ok user_id (some j) k h = ground arith

pub complete_ok :
    (user_id : String) (r? : Option Request) (r : Request)
    → assert_cascade_complete user_id r? ≡ ok r
    → (r? ≡ some r) × (is_allowed r.status completed ≡ true)
unfolding assert_cascade_complete
complete_ok user_id none r h = ground arith
complete_ok user_id (some j) r h = ground arith

read_ok : {A : Type 0} (o : Option Fault) (a b : A) → read o a ≡ ok b → a ≡ b
read_ok none a b h = ground arith
read_ok (some e) a b h = ground arith

key_read :
    (now : ℕ) (s : Evidence) (user_id tenant_id : String) (k : KeyStatus)
    → signer_key_status now user_id tenant_id s.keys ≡ some k
    → is_shredded k.status ≡ true
    → (m : KeyMetadata) × (find (doc_id tenant_id user_id) s.keys ≡ some m)
      × (is_shredded m.status ≡ true)
unfolding signer_key_status
key_read now s user_id tenant_id k e h =
    elim (Option-cases (find (doc_id tenant_id user_id) s.keys)) [
      | inl gone ↦ ground arith
      | inr (m, here) ↦
          let e' : some (key_status_of now m) ≡ some k = rw (here, signer_key_status) at e in
          (m, here, ap (λ (j : KeyStatus). is_shredded j.status) (some-injective _ _ e') ∙ h)
    ]

-- The evidence behind a set of claims.
pub record Backed (user_id tenant_id : String) (request : Option String) (s : Evidence)
    (c : DestructionCertificateClaims) : Type 0 where
  pub subject : (c.sub ≡ user_id) × (c.tenant_id ≡ tenant_id)
  pub key : KeyMetadata
  pub stored : find (doc_id tenant_id user_id) s.keys ≡ some key
  pub shredded : is_shredded key.status ≡ true
  pub destroyed : c.key_destruction_status ≡ DestructionStatus.complete
  pub deletion : Request
  pub read_back : signer_request request user_id tenant_id s.requests ≡ some deletion
  pub done : is_allowed deletion.status completed ≡ true
  pub lineage : c.lineage_summary ≡ lineage_summary_of deletion.janitor_wipes
  pub counted : c.lineage_coverage.destinations_succeeded ≡ length c.lineage_summary
  pub bounded : c.lineage_coverage.destinations_succeeded ≤ c.lineage_coverage.destinations_checked

module _ (env : SignerEnv) (user_id tenant_id : String) (request : Option String)
    (ghosts known : List String) (s : Evidence) where
  claims_of-Backed :
      (k : KeyStatus) (r : Request) (entries : List PiiRegistryEntry) (fingerprint : String)
      → signer_key_status (env.clock 0) user_id tenant_id s.keys ≡ some k
      → is_shredded k.status ≡ true
      → signer_request request user_id tenant_id s.requests ≡ some r
      → is_allowed r.status completed ≡ true
      → Backed user_id tenant_id request s
          (claims_of env.clock user_id tenant_id k r entries fingerprint ghosts known)
  unfolding lineage_summary_of
  claims_of-Backed k r entries fingerprint ek hk er hr =
      let (m, here, shredded) = key_read (env.clock 0) s user_id tenant_id k ek hk in
      record {
        subject = (refl, refl);
        key = m;
        stored = here;
        shredded = shredded;
        destroyed = rw hk refl;
        deletion = r;
        read_back = er;
        done = hr;
        lineage = refl;
        counted = sym (length-map (keep succeeded r.janitor_wipes) _);
        bounded = length-keep-le succeeded r.janitor_wipes;
      }

  abbrev declared : List PiiRegistryEntry
  declared = get_manual_registry_entries_for_tenant tenant_id s.declarations

  -- How claims come about: each read answered, each assertion passed.
  pub generated :
      (c : DestructionCertificateClaims)
      → generate_claims env user_id tenant_id request ghosts known s ≡ ok c
      → (k : KeyStatus) × (r : Request) × (fingerprint : String) × (signer_key_status
            (env.clock 0)
            user_id
            tenant_id
            s.keys
          ≡ some k)
        × (is_shredded k.status ≡ true)
        × (signer_request request user_id tenant_id s.requests ≡ some r)
        × (is_allowed r.status completed ≡ true)
        × (claims_of env.clock user_id tenant_id k r declared fingerprint ghosts known ≡ c)
  unfolding generate_claims
  generated c h =
      let (k?, e1, h1) = and_then-ok _ _ c h in
      let (r?, e2, h2) = and_then-ok _ _ c h1 in
      let (k, e3, h3) = and_then-ok _ _ c h2 in
      let (r, e4, h4) = and_then-ok _ _ c h3 in
      let (entries, e5, h5) = and_then-ok (read env.registry_outage declared) _ c h4 in
      let (fingerprint, e6, h6) = and_then-ok env.fingerprint _ c h5 in
      let (kr, hk) = shredded_ok user_id k? k e3 in
      let (rr, hr) = complete_ok user_id r? r e4 in
      let same = read_ok env.registry_outage declared entries e5 in
      (
        k,
        r,
        fingerprint,
        read_ok env.key_outage _ k? e1 ∙ kr,
        hk,
        read_ok env.request_outage _ r? e2 ∙ rr,
        hr,
        ap (λ es. claims_of env.clock user_id tenant_id k r es fingerprint ghosts known) same
            ∙ ok-injective _ c h6,
      )

  -- Claims are only made of a user whose key document is shredded or deleted, for a request that has
  -- reached CASCADE_COMPLETE or CERTIFICATE_ISSUED, both as the collections have them; the lineage is
  -- that of the request's wipes that succeeded.
  pub generate_claims-Backed :
      (c : DestructionCertificateClaims)
      → generate_claims env user_id tenant_id request ghosts known s ≡ ok c
      → Backed user_id tenant_id request s c
  generate_claims-Backed c h =
      let (k, r, fingerprint, ek, hk, er, hr, made) = generated c h in
      subst (Backed user_id tenant_id request s) made
        (claims_of-Backed k r declared fingerprint ek hk er hr)
