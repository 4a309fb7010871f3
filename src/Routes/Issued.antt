-- ===== src/Routes/Issued.antt =====
-- What GET /certificate/:userId of routes/certificate.ts answers a certificate for.
use chameleon_vault.Prelude.{
  ℕ, String, ◌≡◌, true, Option, some, ok, err-ne-ok, Result-cases, inl, inr, arith,
}
use chameleon_vault.Fault.{Fault}
use chameleon_vault.Requests.Types.{Request}
use chameleon_vault.Requests.Repository.{is_allowed}
use chameleon_vault.Requests.Queries.{get_latest_completed_deletion_request_for_user}
use chameleon_vault.Keys.Registry.{KeyStatus, get_key_status, is_shredded}
use chameleon_vault.Certificate.Signer.{
  Evidence, assert_key_shredded, assert_cascade_complete, completed,
}
use chameleon_vault.Certificate.Soundness.{shredded_ok, complete_ok}
use chameleon_vault.Certificate.Service.{Vault, IssuerEnv}
use chameleon_vault.Certificate.Retrieval.{Retrieved, get_certificate_for_user}
use chameleon_vault.Routes.Http.{tenant_header, code_of}
use chameleon_vault.Routes.Certificates.{certificate_route, refusal_code}

-- The registry reports the key as shredded or deleted, and there is a request that is complete or issued.
abbrev pub Eligible : ℕ → String → String → Evidence → Type 0
Eligible now user tenant s =
    ((k : KeyStatus) × (get_key_status now user tenant s.keys ≡ some k)
      × (is_shredded k.status ≡ true))
    × ((r : Request) × (get_latest_completed_deletion_request_for_user user tenant s.requests
          ≡ some r)
        × (is_allowed r.status completed ≡ true))

refusal_ne : (e : Fault) → refusal_code e ≡ 200 → ⊥
refusal_ne e h = ground arith

module _ (env : IssuerEnv) (user tenant : String) (v : Vault) where
  retrieved_only :
      (c : Retrieved)
      → (get_certificate_for_user env user tenant v).0 ≡ ok c
      → Eligible (env.chain_clock 0) user tenant v.evidence
  unfolding get_certificate_for_user
  retrieved_only c h =
      elim (Result-cases (
        assert_key_shredded user
          (get_key_status (env.chain_clock 0) user tenant v.evidence.keys))) [
            | inr (e, refused) ↦
                absurd (err-ne-ok e c (rw (get_certificate_for_user, refused) at h))
            | inl (k, shredded) ↦
                elim (Result-cases (
                  assert_cascade_complete user (
                    get_latest_completed_deletion_request_for_user user tenant
                      v.evidence.requests))) [
                        | inr (e, refused) ↦
                            absurd (
                              err-ne-ok e c (rw (get_certificate_for_user, shredded, refused) at h))
                        | inl (r, complete) ↦
                            let key = shredded_ok user _ k shredded in
                            let request = complete_ok user _ r complete in
                            ((k, key.0, key.1), (r, request.0, request.1))
                      ]
          ]

-- A body of GET /certificate/:userId comes only with a key that the registry reports as shredded or
-- deleted for the tenant of the call, and with a request of the user there that is complete or issued.
pub certificate_route-Eligible :
    (env : IssuerEnv) (header : Option String) (user : String) (v : Vault)
    → code_of (certificate_route env header user v).0 ≡ 200
    → Eligible (env.chain_clock 0) user (tenant_header header) v.evidence
unfolding certificate_route
certificate_route-Eligible env header user v h =
    elim (Result-cases (get_certificate_for_user env user (tenant_header header) v).0) [
      | inl (c, found) ↦ retrieved_only env user (tenant_header header) v c found
      | inr (e, refused) ↦ absurd (refusal_ne e (rw (certificate_route, refused) at h))
    ]
