-- ===== src/Deletion/Minting.antt =====
-- The case CERTIFICATE_ISSUED keeps the invariant: it claims the status before it mints, and writes
-- the old status back when the minting throws.
use mathlib.Core.Path.{subst}
use mathlib.Core.Option.{some-injective, none-ne-some}
use mathlib.Core.Bool.{true≢false}
use chameleon_vault.Prelude.{
  String, ◌≡◌, refl, sym, ap, ◌∙◌, ◌≢◌, ◌⊎◌, inl, inr, false, Option, none, some, [], ◌∷◌, ok, err,
  Result, Exec, raise, handle_err, ◌>>=◌, ◌>>◌, follow, find, put, find-put, Bool-cases,
  Option-cases, ◌==◌, eq_iff,
}
use chameleon_vault.Fault.{Fault}
use chameleon_vault.Requests.Types.{certificate_issued, Request}
use chameleon_vault.Requests.Repository.{
  Requests, update, enter_status, claim_transition, update_deletion_request_status, spread_fields,
  no_fields, is_allowed,
}
use chameleon_vault.Keys.Registry.{Keys}
use chameleon_vault.Certificate.Signer.{Evidence}
use chameleon_vault.Certificate.Service.{Vault, Issued, issue_and_store_certificate}
use chameleon_vault.Certificate.Issuance.{issue-Backed, issue-evidence}
use chameleon_vault.Deletion.World.{World, Env, requests_of, keys_of, tenant_of}
use chameleon_vault.Deletion.Handlers.{
  issue_certificate, claim_or_lose, or_roll_back, mint, finish_certificate, set_status, unless_lost,
}
use chameleon_vault.Deletion.Keeps.{
  Shredded, is_issued, Certified, Sound, IsSound, no_claim, finish-Keeps, Keeps,
}

-- Both are requests of one user of one tenant.
abbrev pub Owner : Request → Request → Type 0
Owner r d = (tenant_of r ≡ tenant_of d) × (r.user_id ≡ d.user_id)

-- What the store has under this id is of the user that the caller has read.
abbrev pub Agrees : String → Request → World → Type 0
Agrees id r w = (d : Request) → find id (requests_of w) ≡ some d → Owner r d

-- Sound but for one request, whose owner is that of `r`.
abbrev Almost : String → Request → Requests → Keys → Type 0
Almost id r m keys =
    (j : String) (d : Request) → find j m ≡ some d → Certified keys d ⊎ ((id ≡ j) × Owner r d)

-- Once the owner's key is destroyed, the one request is sound too.
Almost-Shredded :
    (id : String) (r : Request) (m : Requests) (keys : Keys)
    → Almost id r m keys
    → Shredded keys (tenant_of r) r.user_id
    → Sound m keys
Almost-Shredded id r m keys h gone j d here issued = elim (h j d here) [
  | inl c ↦ c issued
  | inr (same, (t, u)) ↦
      subst (λ x. Shredded keys x d.user_id) t (subst (Shredded keys (tenant_of r)) u gone)
]

module _ (id : String) (m : Requests) (new : Request) (j : String) (d : Request) where
  -- What is found after a write.
  found_after :
      find j (put id new m) ≡ some d → ((id ≡ j) × (new ≡ d)) ⊎ ((id ≢ j) × (find j m ≡ some d))
  found_after e = elim (Bool-cases (id == j)) [
    | inl same ↦
        let e' : some new ≡ some d = rw same at (sym (find-put id j new m) ∙ e) in
        inl ((eq_iff id j).0 same, some-injective _ _ e')
    | inr other ↦
        let e' : find j m ≡ some d = rw other at (sym (find-put id j new m) ∙ e) in
        inr ((λ same. true≢false (sym ((eq_iff id j).1 same) ∙ other)), e')
  ]

-- Writing back a status that is not CERTIFICATE_ISSUED makes the one request sound too.
Almost-rolled_back :
    (env : Env) (id : String) (r : Request) (w : World)
    → is_issued r.status ≡ false
    → Almost id r (requests_of w) (keys_of w)
    → IsSound (set_status env id r.status w).1
unfolding update_deletion_request_status
Almost-rolled_back env id r w e h = elim (Option-cases (find id (requests_of w))) [
  | inl gone ↦
      rw (gone, update)
        (λ j d here. elim (h j d here) [
          | inl c ↦ c
          | inr (same, own) ↦
              absurd (none-ne-some d (sym gone ∙ ap (λ k. find k (requests_of w)) same ∙ here))
        ])
  | inr (old, there) ↦
      rw (there, update)
        (λ j d here. elim (found_after id (requests_of w) _ j d here) [
          | inl (same, made) ↦ subst (Certified (keys_of w)) made (
              no_claim (keys_of w)
                (spread_fields no_fields (enter_status (env.clock 1) r.status old)) e)
          | inr (other, kept) ↦ elim (h j d kept) [
            | inl c ↦ c
            | inr (same, own) ↦ absurd (other same)
          ]
        ])
]

-- What a claim of CERTIFICATE_ISSUED leaves: won, it is sound but for the claimed request.
abbrev Claimed : String → Request → Result Fault (Option Request) × World → Type 0
Claimed id r (ok none, t) = Almost id r (requests_of t) (keys_of t)
Claimed id r (ok (some current), t) = IsSound t
Claimed id r (err e, t) = IsSound t

claim-Claimed :
    (env : Env) (id : String) (r : Request) (w : World)
    → IsSound w
    → Agrees id r w
    → Claimed id r (claim_or_lose env id r certificate_issued w)
unfolding claim_or_lose claim_transition
claim-Claimed env id r w h own = elim (Option-cases (find id (requests_of w))) [
  | inl gone ↦ rw (gone, claim_transition) h
  | inr (old, there) ↦ elim (Bool-cases (is_allowed old.status (r.status ∷ []))) [
    | inr refused ↦ rw (there, refused, claim_transition) h
    | inl allowed ↦
        rw (there, allowed, claim_transition)
          (λ j d here.
            elim (found_after id (requests_of w) (enter_status (env.clock 0) certificate_issued old)
              j d here) [
                | inl (same, made) ↦ inr (same, subst (Owner r) made (own old there))
                | inr (other, kept) ↦ inl (h j d kept)
              ])
  ]
]

raise-IsSound :
    (fault : Fault) (p : Result Fault (Unit {0}) × World)
    → IsSound p.1
    → IsSound (follow (λ _. raise {A = Issued} fault) p).1
raise-IsSound fault (ok _, t) k = k
raise-IsSound fault (err _, t) k = k

module _ (env : Env) (operation_id id : String) (r : Request) where
  abbrev AlmostAt : Evidence → Type 0
  AlmostAt e = Almost id r e.requests e.keys

  -- A certificate was issued only if the owner's key is destroyed.
  issued_means-Shredded :
      (v v' : Vault) (i : Issued)
      → issue_and_store_certificate env.issuer r.user_id r.deletion_request_id (tenant_of r) v
        ≡ (ok i, v')
      → Shredded v.evidence.keys (tenant_of r) r.user_id
  issued_means-Shredded v v' i h =
      let (claims, signed, backed, _, _) =
        issue-Backed env.issuer r.user_id r.deletion_request_id (tenant_of r) v i v' h in
      (backed.key, backed.stored, backed.shredded)

  -- The minting, with its rollback, from a world that is sound but for the claimed request.
  mint-IsSound :
      (w : World)
      → is_issued r.status ≡ false
      → Almost id r (requests_of w) (keys_of w)
      → IsSound (or_roll_back env id r (mint env r) w).1
  mint-IsSound w e h =
      go (minted w.vault)
        (issue-evidence env.issuer r.user_id r.deletion_request_id (tenant_of r) w.vault)
        (λ i same. issued_means-Shredded w.vault _ i (ap (λ out. (out, (minted w.vault).1)) same))
    where
      minted : Exec Fault Vault Issued
      minted = issue_and_store_certificate env.issuer r.user_id r.deletion_request_id (tenant_of r)

      go :
          (p : Result Fault Issued × Vault)
          → p.1.evidence ≡ w.vault.evidence
          → ((i : Issued) → p.0 ≡ ok i → Shredded (keys_of w) (tenant_of r) r.user_id)
          → IsSound
              (handle_err
                (λ e. set_status env id r.status >> raise e)
                (p.0, record w { vault = p.1 })).1
      go (ok i, v) same gone =
          subst (λ (ev : Evidence). Sound ev.requests ev.keys) (sym same)
            (Almost-Shredded id r (requests_of w) (keys_of w) h (gone i refl))
      go (err fault, v) same gone =
          raise-IsSound fault (set_status env id r.status (record w { vault = v }))
            (Almost-rolled_back env id r (record w { vault = v }) e (subst AlmostAt (sym same) h))

  finish_certificate-Keeps : (i : Issued) → Keeps (finish_certificate env operation_id id r i)
  finish_certificate-Keeps i = finish-Keeps env _ id r _ certificate_issued

  -- Whoever else has moved the request on, the case keeps the invariant.
  pub issue_certificate-IsSound :
      (w : World)
      → is_issued r.status ≡ false
      → Agrees id r w
      → IsSound w
      → IsSound (issue_certificate env operation_id id r w).1
  unfolding issue_certificate
  issue_certificate-IsSound w e own h =
      go (claim_or_lose env id r certificate_issued w) (claim-Claimed env id r w h own)
    where
      finished :
          (p : Result Fault Issued × World)
          → IsSound p.1
          → IsSound (follow (finish_certificate env operation_id id r) p).1
      finished (ok i, t) k = finish_certificate-Keeps i t k
      finished (err _, t) k = k

      go :
          (p : Result Fault (Option Request) × World)
          → Claimed id r p
          → IsSound
              (follow
                (unless_lost
                  (or_roll_back env id r (mint env r) >>= finish_certificate env operation_id id r))
                p).1
      go (ok none, t) k = finished (or_roll_back env id r (mint env r) t) (mint-IsSound t e k)
      go (ok (some current), t) k = k
      go (err _, t) k = k
