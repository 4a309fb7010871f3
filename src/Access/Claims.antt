-- ===== src/Access/Claims.antt =====
-- `claim`: a claim token issues one key.
use chameleon_vault.Prelude.{
  ℕ, String, ◌≡◌, refl, ◌≢◌, inl, inr, none, some, List, [], ◌∷◌, ◌==◌, Bool-cases, Option-cases,
  find, put, find-put, find-put_self, find-put_ne, ap, ◌∙◌, ◌&&◌, All,
}
use mathlib.Core.Option.{some-injective, none-ne-some}
use chameleon_vault.Access.Types.{AnalystAccess, Role}
use chameleon_vault.Access.Repository.{
  AccessDocs, create_claim, claim_and_issue_credential, create_session_credential,
  create_service_credential, revoke_service_credentials_for, claimed, revoked, is_service_of,
  is_standing,
}
use chameleon_vault.Access.Service.{
  ClaimedKey, claim, service_create_claim, mint_session_credential, mint_service_credential,
  revoke_service_credentials, is_claimable,
}

-- The claim's document is there, and it has been claimed.
abbrev pub SpentAt : String → AccessDocs → Type 0
SpentAt h m = (r : AnalystAccess) × (t : ℕ) × (find h m ≡ some r) × (r.claimed_at ≡ some t)

put-SpentAt :
    (j h : String) (r : AnalystAccess) (t : ℕ) (m : AccessDocs)
    → r.claimed_at ≡ some t
    → SpentAt h m
    → SpentAt h (put j r m)
put-SpentAt j h r t m e (r', t', here, e') = elim (Bool-cases (j == h)) [
  | inl same ↦ (r, t, rw (find-put j h r m, same) refl, e)
  | inr other ↦ (r', t', rw (find-put j h r m, other) here, e')
]

-- The transaction refuses a document that is spent, and else spends it.
spent_refuses :
    (now : ℕ) (h key : String) (m : AccessDocs)
    → SpentAt h m
    → claim_and_issue_credential now h key m ≡ (none, m)
unfolding claim_and_issue_credential
spent_refuses now h key m (r, t, here, e) = rw (claim_and_issue_credential, here, e) refl

transaction-SpentAt :
    (now : ℕ) (j h key : String) (m : AccessDocs)
    → SpentAt h m
    → SpentAt h (claim_and_issue_credential now j key m).1
unfolding claim_and_issue_credential
transaction-SpentAt now j h key m s = elim (Option-cases (find j m)) [
  | inl e ↦ rw (claim_and_issue_credential, e) s
  | inr (r, e) ↦ elim (Option-cases r.claimed_at) [
    | inr (t, spent) ↦ rw (claim_and_issue_credential, e, spent) s
    | inl fresh ↦
        rw (claim_and_issue_credential, e, fresh) (put-SpentAt j h (claimed now key r) now m refl s)
  ]
]

revoked-claimed_at :
    (now : ℕ) (tenant caller : String) (r : AnalystAccess)
    → (revoked now tenant caller r).claimed_at ≡ r.claimed_at
revoked-claimed_at now tenant caller r =
    elim (Bool-cases (is_service_of tenant caller r && is_standing r)) [
      | inl e ↦ rw e refl
      | inr e ↦ rw e refl
    ]

revoke-SpentAt :
    (now : ℕ) (tenant caller h : String) (m : AccessDocs)
    → SpentAt h m
    → SpentAt h (revoke_service_credentials_for now tenant caller m).1
unfolding find revoke_service_credentials_for
revoke-SpentAt now tenant caller h [] s = s
revoke-SpentAt now tenant caller h ((i, x) ∷ m) (r, t, here, e) = elim (Bool-cases (i == h)) [
  | inl same ↦
      let found : some x ≡ some r = rw (find, same) at here in
      let x_is : x ≡ r = some-injective x r found in
      (
        revoked now tenant caller x,
        t,
        rw (find, same) refl,
        revoked-claimed_at now tenant caller x ∙ ap (λ y. y.claimed_at) x_is ∙ e,
      )
  | inr other ↦
      let found : find h m ≡ some r = rw (find, other) at here in
      let (r', t', here', e') = revoke-SpentAt now tenant caller h m (r, t, found, e) in
      (r', t', rw (find, other) here', e')
]

-- The calls that change the collection. A claim may have read an older state of it.
pub data AccessCall : Type 0 where
  creates_claim : String → String → String → Role → AccessCall
  claims : String → String → AccessDocs → AccessCall
  mints_session : String → String → String → AccessCall
  mints_service : String → String → String → AccessCall
  revokes : String → String → AccessCall

module _ (hash : String → String) where
  abbrev pub apply : ℕ → AccessCall → AccessDocs → AccessDocs
  apply now (creates_claim token t a role) m = service_create_claim hash now token t a role m
  apply now (claims key token seen) m = (claim hash now key token seen m).1
  apply now (mints_session c t a) m = mint_session_credential hash now c t a m
  apply now (mints_service c t a) m = mint_service_credential hash now c t a m
  apply now (revokes t a) m = (revoke_service_credentials now t a m).1

  abbrev pub run : List (ℕ × AccessCall) → AccessDocs → AccessDocs
  run [] m = m
  run ((now, c) ∷ cs) m = run cs (apply now c m)

  -- The call makes no new claim for the token.
  abbrev pub Spares : String → ℕ × AccessCall → Type 0
  Spares token (now, creates_claim other t a role) = hash other ≢ hash token
  Spares token (now, claims key other seen) = Unit
  Spares token (now, mints_session c t a) = Unit
  Spares token (now, mints_service c t a) = Unit
  Spares token (now, revokes t a) = Unit

  claim-SpentAt :
      (now : ℕ) (key token h : String) (seen m : AccessDocs)
      → SpentAt h m
      → SpentAt h (claim hash now key token seen m).1
  unfolding claim
  claim-SpentAt now key token h seen m s = elim (Option-cases (find (hash token) seen)) [
    | inl e ↦ rw (claim, e) s
    | inr (r, e) ↦ elim (Bool-cases (is_claimable now r)) [
      | inl valid ↦ rw (claim, e, valid) (transaction-SpentAt now (hash token) h (hash key) m s)
      | inr shut ↦ rw (claim, e, shut) s
    ]
  ]

  apply-SpentAt :
      (token : String) (now : ℕ) (c : AccessCall) (m : AccessDocs)
      → Spares token (now, c)
      → SpentAt (hash token) m
      → SpentAt (hash token) (apply now c m)
  unfolding service_create_claim create_claim mint_session_credential create_session_credential
      mint_service_credential create_service_credential revoke_service_credentials
  apply-SpentAt token now (creates_claim o t a role) m away (r, t', here, e) =
      (r, t', find-put_ne (hash o) (hash token) _ m away ∙ here, e)
  apply-SpentAt token now (claims key o seen) m _ s = claim-SpentAt now key o (hash token) seen m s
  apply-SpentAt token now (mints_session c t a) m _ s =
      put-SpentAt (hash c) (hash token) _ now m refl s
  apply-SpentAt token now (mints_service c t a) m _ s =
      put-SpentAt (hash c) (hash token) _ now m refl s
  apply-SpentAt token now (revokes t a) m _ s = revoke-SpentAt now t a (hash token) m s

  run-SpentAt :
      (token : String) (cs : List (ℕ × AccessCall)) (m : AccessDocs)
      → All (Spares token) cs
      → SpentAt (hash token) m
      → SpentAt (hash token) (run cs m)
  run-SpentAt token [] m _ s = s
  run-SpentAt token ((now, c) ∷ cs) m (away, rest) s =
      run-SpentAt token cs (apply now c m) rest (apply-SpentAt token now c m away s)

  spent_claims_nothing :
      (now : ℕ) (key token : String) (seen m : AccessDocs)
      → SpentAt (hash token) m
      → (claim hash now key token seen m).0 ≡ none
  unfolding claim
  spent_claims_nothing now key token seen m s = elim (Option-cases (find (hash token) seen)) [
    | inl e ↦ rw (claim, e) refl
    | inr (r, e) ↦ elim (Bool-cases (is_claimable now r)) [
      | inl valid ↦ rw (claim, e, valid, spent_refuses now (hash token) (hash key) m s) refl
      | inr shut ↦ rw (claim, e, shut) refl
    ]
  ]

  -- A claim that issues a key leaves the document spent.
  claim-spends :
      (now : ℕ) (key token : String) (seen m : AccessDocs) (k : ClaimedKey)
      → (claim hash now key token seen m).0 ≡ some k
      → SpentAt (hash token) (claim hash now key token seen m).1
  unfolding claim claim_and_issue_credential
  claim-spends now key token seen m k h = elim (Option-cases (find (hash token) seen)) [
    | inl e ↦ absurd (none-ne-some k (rw (claim, e) at h))
    | inr (r, e) ↦ elim (Bool-cases (is_claimable now r)) [
      | inr shut ↦ absurd (none-ne-some k (rw (claim, e, shut) at h))
      | inl valid ↦ elim (Option-cases (find (hash token) m)) [
        | inl f ↦ absurd (none-ne-some k (rw (claim, claim_and_issue_credential, e, valid, f) at h))
        | inr (x, f) ↦ elim (Option-cases x.claimed_at) [
          | inr (t, spent) ↦
              absurd
                (none-ne-some k (rw (claim, claim_and_issue_credential, e, valid, f, spent) at h))
          | inl fresh ↦
              rw (claim, claim_and_issue_credential, e, valid, f, fresh)
                (claimed now (hash key) x, now, find-put_self (hash token) _ m, refl)
        ]
      ]
    ]
  ]

  -- Once a claim of a token has issued a key, and whatever calls follow that make no new claim for a
  -- token with the same hash, no claim of that token issues a key again, also when it has read an
  -- older state of the collection.
  pub claim_once :
      (now later : ℕ) (key key' token : String) (seen seen' m : AccessDocs) (k : ClaimedKey)
      (cs : List (ℕ × AccessCall))
      → (claim hash now key token seen m).0 ≡ some k
      → All (Spares token) cs
      → (claim hash later key' token seen' (run cs (claim hash now key token seen m).1)).0 ≡ none
  claim_once now later key key' token seen seen' m k cs issued away =
      spent_claims_nothing later key' token seen' _
        (run-SpentAt token cs _ away (claim-spends now key token seen m k issued))
