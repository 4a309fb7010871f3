-- ===== src/Examples/Access.antt =====
-- The theorems on credentials, at a sample collection.
use Prim.Native.String
use chameleon_vault.Prelude.{
  String, ◌≡◌, refl, ◌⊎◌, true, false, Option, none, some, [], ◌∷◌, find, put,
}
use chameleon_vault.Access.Types.{analyst}
use chameleon_vault.Access.Repository.{
  AccessDocs, find_credential, create_claim, claim_and_issue_credential, create_service_credential,
}
use chameleon_vault.Access.Service.{
  claim, resolve_credential, service_create_claim, mint_service_credential,
  revoke_service_credentials,
}
use chameleon_vault.Access.Paths.{
  after, until_slash, is_analyst_credential_allowed_path, is_auditor_credential_allowed_path,
  is_service_credential_allowed_path, is_allowed_for_credential, is_exempt_from_auth,
}
use chameleon_vault.Access.Auth.{resolve_auth, IsOpenedBy, resolve_auth-IsScoped}
use chameleon_vault.Access.Revocation.{resolve-revoke}
use chameleon_vault.Access.Claims.{AccessCall, run, claim_once}

-- A stand-in for the hash.
abbrev digest : String → String
digest s = String.◌++◌ "sha256:" s

-- A claim link of an analyst, and a credential of a service.
abbrev stored : AccessDocs
stored =
    mint_service_credential digest 100 "svc" "acme" "partner:acme-crm"
      (service_create_claim digest 100 "token" "acme" "ann@acme.test" analyst [])

resolve_auth-IsScoped_example :
    (◌≡◌ {A = Option String} (some "svc") (some "shared"))
    ⊎ ((k : String) × (◌≡◌ {A = Option String} (some "svc") (some k))
        × IsOpenedBy digest 200 "/deletion-requests/dr-1/advance" k "acme" stored (
            resolve_auth digest 200 "/deletion-requests/dr-1/advance"
              (some "svc")
              "shared"
              stored
              "acme"))
unfolding resolve_auth resolve_credential find_credential find put service_create_claim create_claim
    mint_service_credential create_service_credential after until_slash
    is_analyst_credential_allowed_path is_auditor_credential_allowed_path
    is_service_credential_allowed_path is_allowed_for_credential
resolve_auth-IsScoped_example =
    resolve_auth-IsScoped digest 200 "/deletion-requests/dr-1/advance" (some "svc") "shared" stored
      "acme" refl

-- The same key is refused for another tenant, and on a path of an analyst.
refused_elsewhere :
    ((resolve_auth digest 200 "/deletion-requests" (some "svc") "shared" stored "globex").authorized
      ≡ false)
    × ((resolve_auth digest 200 "/decrypt" (some "svc") "shared" stored "acme").authorized ≡ false)
unfolding resolve_auth resolve_credential find_credential find put service_create_claim create_claim
    mint_service_credential create_service_credential after until_slash
    is_analyst_credential_allowed_path is_auditor_credential_allowed_path
    is_service_credential_allowed_path is_allowed_for_credential
refused_elsewhere = (refl, refl)

-- A declared resource is open to an analyst, and the sync mark below it is not; the claim route is exempt.
path_lists :
    (is_analyst_credential_allowed_path "/pii-registry/resources/r1" ≡ true)
    × (is_analyst_credential_allowed_path "/pii-registry/resources/r1/mark-synced" ≡ false)
    × (is_exempt_from_auth "/admin/analyst-claims/abc/claim" ≡ true)
    × (is_exempt_from_auth "/admin/analyst-claims/abc" ≡ false)
unfolding after until_slash is_analyst_credential_allowed_path is_exempt_from_auth
path_lists = (refl, refl, refl, refl)

resolve-revoke_example :
    resolve_credential digest 400 "svc"
      (revoke_service_credentials 300 "acme" "partner:acme-crm" stored).1
    ≡ none
unfolding resolve_credential find_credential find put service_create_claim create_claim
    mint_service_credential create_service_credential
resolve-revoke_example = resolve-revoke digest 300 400 "acme" "partner:acme-crm" "svc" stored

claim_once_example :
    (claim digest 600 "key 2" "token" stored (
      run digest
        ((550, AccessCall.revokes "acme" "partner:acme-crm") ∷ [])
        (claim digest 500 "key 1" "token" stored stored).1)).0
    ≡ none
unfolding claim claim_and_issue_credential find put service_create_claim create_claim
    mint_service_credential create_service_credential
claim_once_example =
    claim_once digest 500 600 "key 1" "key 2" "token" stored stored stored
      (record { api_key = "key 1"; analyst_email = "ann@acme.test"; role = analyst })
      ((550, AccessCall.revokes "acme" "partner:acme-crm") ∷ []) refl (tt, tt)
