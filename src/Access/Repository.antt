-- ===== src/Access/Repository.antt =====
-- gcp/analyst-access-repository.ts. The collection is keyed by the document's id; `now` is the reading
-- of `Timestamp.now()`, and a transaction is one step of the model.
use chameleon_vault.Prelude.{
  ℕ, suc, String, Bool, true, false, ◌&&◌, Option, none, some, [], ◌∷◌, if◌then◌else◌, ◌==◌, Docs,
  find, put,
}
use chameleon_vault.Access.Types.{Role, Kind, service, console_session, AnalystAccess}

abbrev pub AccessDocs : Type 0
AccessDocs = Docs AnalystAccess

unfoldable pub create_claim : ℕ → String → String → String → ℕ → Role → AccessDocs → AccessDocs
create_claim now tenant_id analyst_email claim_token_hash expires_at role m =
    put claim_token_hash
      (record {
        claim_token_hash = claim_token_hash;
        credential_key_hash = none;
        tenant_id = tenant_id;
        analyst_email = analyst_email;
        created_at = now;
        expires_at = expires_at;
        claimed_at = none;
        revoked_at = none;
        role = some role;
        source = none;
        credential_expires_at = none;
        kind = none;
      })
      m

abbrev pub get_claim_by_token_hash : String → AccessDocs → Option AnalystAccess
get_claim_by_token_hash h m = find h m

abbrev pub claimed : ℕ → String → AnalystAccess → AnalystAccess
claimed now credential_key_hash r = record r {
  claimed_at = some now;
  credential_key_hash = some credential_key_hash;
}

unfoldable pub claim_and_issue_credential :
    ℕ → String → String → AccessDocs → Option AnalystAccess × AccessDocs
claim_and_issue_credential now h credential_key_hash m = elim (find h m) [
  | none ↦ (none, m)
  | some r ↦ elim r.claimed_at [
    | some _ ↦ (none, m)
    | none ↦ (some (claimed now credential_key_hash r), put h (claimed now credential_key_hash r) m)
  ]
]

unfoldable pub create_session_credential :
    ℕ → String → String → String → ℕ → AccessDocs → AccessDocs
create_session_credential now tenant_id analyst_email credential_key_hash credential_expires_at m =
    put credential_key_hash
      (record {
        claim_token_hash = credential_key_hash;
        credential_key_hash = some credential_key_hash;
        tenant_id = tenant_id;
        analyst_email = analyst_email;
        created_at = now;
        expires_at = credential_expires_at;
        claimed_at = some now;
        revoked_at = none;
        role = none;
        source = some console_session;
        credential_expires_at = some credential_expires_at;
        kind = none;
      })
      m

abbrev pub has_credential : String → AnalystAccess → Bool
has_credential h r = elim r.credential_key_hash [ none ↦ false | some k ↦ k == h ]

-- The query for a credential's hash, with `limit(1)`: the first in the order of the collection.
unfoldable pub find_credential : String → AccessDocs → Option AnalystAccess
find_credential h [] = none
find_credential h ((_, r) ∷ m) = if has_credential h r then some r else find_credential h m

-- `new Date('2099-01-01T00:00:00Z')`
abbrev far_future : ℕ
far_future = 4070908800000

unfoldable pub create_service_credential : ℕ → String → String → String → AccessDocs → AccessDocs
create_service_credential now tenant_id caller_name credential_key_hash m =
    put credential_key_hash
      (record {
        claim_token_hash = credential_key_hash;
        credential_key_hash = some credential_key_hash;
        tenant_id = tenant_id;
        analyst_email = caller_name;
        created_at = now;
        expires_at = far_future;
        claimed_at = some now;
        revoked_at = none;
        role = none;
        source = some console_session;
        credential_expires_at = none;
        kind = some service;
      })
      m

abbrev pub is_service : Option Kind → Bool
is_service (some service) = true
is_service _ = false

abbrev pub is_service_of : String → String → AnalystAccess → Bool
is_service_of tenant_id caller_name r =
    (r.tenant_id == tenant_id) && ((r.analyst_email == caller_name) && is_service r.kind)

abbrev pub is_standing : AnalystAccess → Bool
is_standing r = elim r.revoked_at [ none ↦ true | some _ ↦ false ]

-- A document after `revokeServiceCredentialsFor`.
abbrev pub revoked : ℕ → String → String → AnalystAccess → AnalystAccess
revoked now tenant_id caller_name r =
    if is_service_of tenant_id caller_name r && is_standing r
    then record r { revoked_at = some now }
    else r

unfoldable pub revoke_service_credentials_for : ℕ → String → String → AccessDocs → ℕ × AccessDocs
revoke_service_credentials_for now tenant_id caller_name [] = (0, [])
revoke_service_credentials_for now tenant_id caller_name ((id, r) ∷ m) =
    let rest = revoke_service_credentials_for now tenant_id caller_name m in
    (
      (if is_service_of tenant_id caller_name r && is_standing r then suc rest.0 else rest.0),
      (id, revoked now tenant_id caller_name r) ∷ rest.1,
    )
