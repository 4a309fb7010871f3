-- ===== src/Access/Auth.antt =====
-- middleware/auth.ts: `resolveAuth`.
use chameleon_vault.Prelude.{
  ℕ, String, ◌≡◌, refl, ap, ◌⊎◌, inl, inr, Bool, true, false, not, ◌&&◌, ◌||◌, Option, none, some,
  arith, if◌then◌else◌, ◌==◌, eq_iff, Bool-cases, Option-cases,
}
use mathlib.Core.Bool.{false≢true}
use chameleon_vault.Access.Types.{Role, Kind, service, AnalystAccess}
use chameleon_vault.Access.Repository.{AccessDocs, find_credential, is_service}
use chameleon_vault.Access.Service.{
  ResolvedAnalystIdentity, resolve_credential, is_live, identity_of,
}
use chameleon_vault.Access.Paths.{
  is_analyst_credential_allowed_path, is_auditor_credential_allowed_path,
  is_service_credential_allowed_path, is_allowed_for_credential,
}

pub record AuthResult : Type 0 where
  pub authorized : Bool
  pub analyst_email : Option String
  pub role : Option Role
  pub tenant_id : Option String
  pub credential_kind : Option Kind

abbrev pub unauthorized : AuthResult
unauthorized = record {
  authorized = false;
  analyst_email = none;
  role = none;
  tenant_id = none;
  credential_kind = none;
}

abbrev shared_key_result : AuthResult
shared_key_result = record unauthorized { authorized = true }

abbrev pub credential_result : ResolvedAnalystIdentity → AuthResult
credential_result i = record {
  authorized = true;
  analyst_email = some i.analyst_email;
  role = some i.role;
  tenant_id = some i.tenant_id;
  credential_kind = if is_service i.kind then some service else none;
}

abbrev judge : String → String → Option ResolvedAnalystIdentity → AuthResult
judge path request_tenant_id none = unauthorized
judge path request_tenant_id (some i) =
    if i.tenant_id == request_tenant_id && is_allowed_for_credential i path
    then credential_result i
    else unauthorized

-- The pre-check before the credential is looked up.
abbrev on_some_list : String → Bool
on_some_list path =
    is_analyst_credential_allowed_path path
    || (is_auditor_credential_allowed_path path || is_service_credential_allowed_path path)

module _ (hash : String → String) (now : ℕ) where
  unfoldable pub resolve_auth : String → Option String → String → AccessDocs → String → AuthResult
  resolve_auth path none shared_api_key m request_tenant_id = unauthorized
  resolve_auth path (some k) shared_api_key m request_tenant_id =
      if k == shared_api_key
      then shared_key_result
      else (if not (k == "") && on_some_list path
          then judge path request_tenant_id (resolve_credential hash now k m)
          else unauthorized)

  -- A stored, live credential of the tenant opens the path.
  pub record IsOpenedBy (path k tenant : String) (m : AccessDocs) (a : AuthResult) : Type 0 where
    pub document : AnalystAccess
    pub stored : find_credential (hash k) m ≡ some document
    pub live : is_live now document ≡ true
    pub own_tenant : document.tenant_id ≡ tenant
    pub allowed : is_allowed_for_credential (identity_of document) path ≡ true
    pub attributed : a ≡ credential_result (identity_of document)

  -- A call is authorised only by the shared key, or by the key of a stored credential that is neither
  -- revoked nor expired, is of the tenant the call names and has the path on its own allowlist; the
  -- result then carries the identity of that credential.
  pub resolve_auth-IsScoped :
      (path : String) (provided : Option String) (shared_api_key : String) (m : AccessDocs)
      (tenant : String)
      → (resolve_auth path provided shared_api_key m tenant).authorized ≡ true
      → (provided ≡ some shared_api_key)
        ⊎ ((k : String) × (provided ≡ some k)
            × IsOpenedBy path k tenant m (resolve_auth path provided shared_api_key m tenant))
  unfolding resolve_auth resolve_credential
  resolve_auth-IsScoped path none shared m tenant h = ground arith
  resolve_auth-IsScoped path (some k) shared m tenant h = elim (Bool-cases (k == shared)) [
    | inl same ↦ inl (ap some ((eq_iff k shared).0 same))
    | inr other ↦ elim (Bool-cases (not (k == "") && on_some_list path)) [
      | inr off ↦ absurd (false≢true (rw (resolve_auth, other, off) at h))
      | inl on ↦ elim (Option-cases (find_credential (hash k) m)) [
        | inl gone ↦
            absurd (false≢true (rw (resolve_auth, resolve_credential, other, on, gone) at h))
        | inr (r, here) ↦ elim (Bool-cases (is_live now r)) [
          | inr dead ↦
              absurd
                (false≢true (rw (resolve_auth, resolve_credential, other, on, here, dead) at h))
          | inl live ↦
              elim (Bool-cases
                (r.tenant_id == tenant && is_allowed_for_credential (identity_of r) path)) [
                  | inr outside ↦ absurd (
                      false≢true (
                        rw (resolve_auth, resolve_credential, other, on, here, live, outside) at h))
                  | inl scoped ↦ inr (
                    k,
                    refl,
                    record {
                      document = r;
                      stored = here;
                      live = live;
                      own_tenant = ground (arith, eq_iff r.tenant_id tenant);
                      allowed = ground arith;
                      attributed =
                          rw (resolve_auth, resolve_credential, other, on, here, live, scoped) refl;
                    },
                  )
                ]
        ]
      ]
    ]
  ]
