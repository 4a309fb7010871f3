-- ===== src/Access/Service.antt =====
-- services/analyst-access-service.ts. The hash and the generated secrets are parameters, `now` is the
-- reading of the clock.
use chameleon_vault.Prelude.{
  ℕ, ◌+◌, String, Bool, true, false, Option, none, some, ltb, if◌then◌else◌, or_default,
}
use chameleon_vault.Access.Types.{Role, analyst, Kind, AnalystAccess}
use chameleon_vault.Access.Repository.{
  AccessDocs, create_claim, get_claim_by_token_hash, claim_and_issue_credential, find_credential,
  create_session_credential, create_service_credential, revoke_service_credentials_for,
}

abbrev pub claim_expiry_ms : ℕ
claim_expiry_ms = 604800000

abbrev session_credential_ttl_ms : ℕ
session_credential_ttl_ms = 3600000

pub record ResolvedAnalystIdentity : Type 0 where
  pub tenant_id : String
  pub analyst_email : String
  pub role : Role
  pub kind : Option Kind

pub record ClaimedKey : Type 0 where
  pub api_key : String
  pub analyst_email : String
  pub role : Role

-- The three refusals of `claim` before the transaction.
abbrev pub is_claimable : ℕ → AnalystAccess → Bool
is_claimable now r = elim r.claimed_at [
  | some _ ↦ false
  | none ↦ if ltb r.expires_at now then false else true
]

-- The `return null` for a record that is revoked or whose own expiry has passed.
abbrev pub is_live : ℕ → AnalystAccess → Bool
is_live now r = elim r.revoked_at [
  | some _ ↦ false
  | none ↦ elim r.credential_expires_at [ none ↦ true | some e ↦ if ltb e now then false else true ]
]

abbrev pub identity_of : AnalystAccess → ResolvedAnalystIdentity
identity_of r = record {
  tenant_id = r.tenant_id;
  analyst_email = r.analyst_email;
  role = or_default r.role analyst;
  kind = r.kind;
}

abbrev answer : String → AnalystAccess → Option AnalystAccess → Option ClaimedKey
answer api_key r none = none
answer api_key r (some _) = some (record {
  api_key = api_key;
  analyst_email = r.analyst_email;
  role = or_default r.role analyst;
})

module _ (hash : String → String) where
  unfoldable pub service_create_claim :
      ℕ → String → String → String → Role → AccessDocs → AccessDocs
  service_create_claim now claim_token tenant_id analyst_email role m =
      create_claim now tenant_id analyst_email (hash claim_token) (now + claim_expiry_ms) role m

  -- `seen` is the collection at the first read, `m` the one the transaction finds.
  unfoldable pub claim :
      ℕ → String → String → AccessDocs → AccessDocs → Option ClaimedKey × AccessDocs
  claim now api_key claim_token seen m = elim (get_claim_by_token_hash (hash claim_token) seen) [
    | none ↦ (none, m)
    | some r ↦
        let done = claim_and_issue_credential now (hash claim_token) (hash api_key) m in
        if is_claimable now r then (answer api_key r done.0, done.1) else (none, m)
  ]

  unfoldable pub resolve_credential : ℕ → String → AccessDocs → Option ResolvedAnalystIdentity
  resolve_credential now presented_api_key m = elim (find_credential (hash presented_api_key) m) [
    | none ↦ none
    | some r ↦ if is_live now r then some (identity_of r) else none
  ]

  unfoldable pub mint_session_credential : ℕ → String → String → String → AccessDocs → AccessDocs
  mint_session_credential now credential tenant_id analyst_email m =
      create_session_credential now tenant_id analyst_email (hash credential)
        (now + session_credential_ttl_ms) m

  unfoldable pub mint_service_credential : ℕ → String → String → String → AccessDocs → AccessDocs
  mint_service_credential now credential tenant_id caller_name m =
      create_service_credential now tenant_id caller_name (hash credential) m

unfoldable pub revoke_service_credentials : ℕ → String → String → AccessDocs → ℕ × AccessDocs
revoke_service_credentials now tenant_id caller_name m =
    revoke_service_credentials_for now tenant_id caller_name m
