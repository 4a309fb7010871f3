-- ===== src/Access/Revocation.antt =====
-- What `revokeServiceCredentials` cuts off.
use chameleon_vault.Prelude.{
  ℕ, String, ◌≡◌, refl, inl, inr, true, false, ◌&&◌, Option, none, some, [], ◌∷◌, if◌then◌else◌,
  Bool-cases, Option-cases,
}
use chameleon_vault.Access.Types.{AnalystAccess}
use chameleon_vault.Access.Repository.{
  AccessDocs, find_credential, has_credential, is_service_of, revoked, is_standing,
  revoke_service_credentials_for,
}
use chameleon_vault.Access.Service.{
  ResolvedAnalystIdentity, resolve_credential, is_live, revoke_service_credentials,
}

module _ (now : ℕ) (tenant caller : String) where
  abbrev after_revoke : Option AnalystAccess → Option AnalystAccess
  after_revoke none = none
  after_revoke (some r) = some (revoked now tenant caller r)

  revoked-credential :
      (h : String) (r : AnalystAccess)
      → has_credential h (revoked now tenant caller r) ≡ has_credential h r
  revoked-credential h r = elim (Bool-cases (is_service_of tenant caller r && is_standing r)) [
    | inl e ↦ rw e
    | inr e ↦ rw e
  ]

  -- The query for a credential finds what it found before, revoked if it is to be.
  find-revoke :
      (h : String) (m : AccessDocs)
      → find_credential h (revoke_service_credentials_for now tenant caller m).1
        ≡ after_revoke (find_credential h m)
  unfolding find_credential revoke_service_credentials_for
  find-revoke h [] = refl
  find-revoke h ((i, r) ∷ m) = elim (Bool-cases (has_credential h r)) [
    | inl e ↦ rw (find_credential, revoked-credential h r, e) refl
    | inr e ↦ rw (find_credential, revoked-credential h r, e) (find-revoke h m)
  ]

  revoked-dead :
      (later : ℕ) (r : AnalystAccess)
      → is_service_of tenant caller r ≡ true
      → is_live later (revoked now tenant caller r) ≡ false
  revoked-dead later r e = elim (Option-cases r.revoked_at) [
    | inl standing ↦ rw (e, standing) refl
    | inr (t, gone) ↦ rw (e, gone) refl
  ]

-- What a key resolves to after a revocation: nothing, if it is a service's of this caller and tenant.
abbrev unless_cut_off :
    String
    → String
    → Option AnalystAccess
    → Option ResolvedAnalystIdentity
    → Option ResolvedAnalystIdentity
unless_cut_off tenant caller none before = none
unless_cut_off tenant caller (some r) before =
    if is_service_of tenant caller r then none else before

-- After the credentials of a caller of a tenant are revoked, at any later time, a key that finds a
-- service credential of that caller and tenant resolves to nothing, and every other key resolves to
-- what it resolved to before.
pub resolve-revoke :
    (hash : String → String) (now later : ℕ) (tenant caller k : String) (m : AccessDocs)
    → resolve_credential hash later k (revoke_service_credentials now tenant caller m).1
      ≡ unless_cut_off tenant caller
          (find_credential (hash k) m)
          (resolve_credential hash later k m)
unfolding resolve_credential revoke_service_credentials
resolve-revoke hash now later tenant caller k m = elim (Option-cases (find_credential (hash k) m)) [
  | inl gone ↦ rw (resolve_credential, find-revoke now tenant caller (hash k) m, gone) refl
  | inr (r, here) ↦ elim (Bool-cases (is_service_of tenant caller r)) [
    | inl theirs ↦
        rw
          (
            resolve_credential,
            find-revoke now tenant caller (hash k) m,
            here,
            revoked-dead now tenant caller later r theirs,
            theirs,
          )
          refl
    | inr other ↦
        rw (resolve_credential, find-revoke now tenant caller (hash k) m, here, other) refl
  ]
]
