-- ===== src/Deletion/Refusals.antt =====
-- What the service takes back when issuing fails. Firestore answers the calls on a request.
use mathlib.Core.Path.{subst}
use chameleon_vault.Prelude.{
  String, ◌≡◌, refl, sym, ap, ◌∙◌, true, Option, none, some, [], ◌∷◌, arith, ok, err, Result,
  err-ne-ok, follow, raise, handle_err, ◌>>◌, ◌>>=◌, find, put, find-put_self,
}
use chameleon_vault.Fault.{Fault}
use chameleon_vault.Requests.Types.{Status, certificate_issued, Request}
use chameleon_vault.Requests.Repository.{
  update, claim_transition, update_deletion_request_status, enter_status, spread_fields, no_fields,
  is_allowed,
}
use chameleon_vault.Certificate.Signer.{Evidence}
use chameleon_vault.Certificate.Service.{Vault, Issued, issue_and_store_certificate}
use chameleon_vault.Certificate.Issuance.{issue-evidence}
use chameleon_vault.Deletion.World.{World, Env, set_requests, requests_of, tenant_of}
use chameleon_vault.Deletion.Handlers.{
  issue_certificate, claim_or_lose, set_status, finish_certificate, unless_lost, or_roll_back, mint,
}

-- The request under this id has this status.
abbrev pub HasStatus : String → Status → World → Type 0
HasStatus id s w = (r : Request) × (find id (requests_of w) ≡ some r) × (r.status ≡ s)

set_status_here :
    (env : Env) (id : String) (s : Status) (w : World) (d : Request)
    → find id (requests_of w) ≡ some d
    → ((set_status env id s w).0 ≡ ok tt) × HasStatus id s (set_status env id s w).1
unfolding update_deletion_request_status
set_status_here env id s w d here =
    rw (here, update)
      (
        refl,
        (
          _,
          find-put_self id (spread_fields no_fields (enter_status (env.clock 1) s d))
              (requests_of w),
          refl,
        ),
      )

-- A claim from the status that the store has is won.
claim_won :
    (env : Env) (id : String) (r : Request) (new : Status) (w : World)
    → find id (requests_of w) ≡ some r
    → claim_or_lose env id r new w
      ≡ (ok none, set_requests (put id (enter_status (env.clock 0) new r) (requests_of w)) w)
unfolding claim_or_lose claim_transition
claim_won env id r new w here = rw (here, own, claim_transition) refl
  where
    own : is_allowed r.status (r.status ∷ []) ≡ true
    own = ground arith

module _ (env : Env) (operation_id id : String) (r : Request) (w : World) where
  -- The world in which the certificate is minted.
  abbrev pub claimed_world : World
  claimed_world = (claim_or_lose env id r certificate_issued w).1

  abbrev minting : Vault → Result Fault Issued × Vault
  minting = issue_and_store_certificate env.issuer r.user_id r.deletion_request_id (tenant_of r)

  raised :
      (fault : Fault) (q : Result Fault (Unit {0}) × World)
      → q.0 ≡ ok tt
      → follow (finish_certificate env operation_id id r) (follow (λ _. raise fault) q)
        ≡ (err fault, q.1)
  raised fault (ok _, t) h = refl
  raised fault (err e, t) h = absurd (err-ne-ok e tt h)

  rolled_back :
      (fault : Fault) (p : Result Fault Issued × Vault) (d : Request) (u : World)
      → p.0 ≡ err fault
      → find id p.1.evidence.requests ≡ some d
      → (x : Result Fault Request × World) × (follow (finish_certificate env operation_id id r) (
            handle_err (λ e. set_status env id r.status >> raise e) (p.0, record u { vault = p.1 }))
          ≡ x)
        × (x.0 ≡ err fault)
        × HasStatus id r.status x.1
  rolled_back fault (ok i, v) d u thrown here = absurd (err-ne-ok fault i (sym thrown))
  rolled_back fault (err e, v) d u thrown here =
      let (fine, back) = set_status_here env id r.status (record u { vault = v }) d here in
      (_, raised e (set_status env id r.status (record u { vault = v })) fine, thrown_on, back)
    where
      thrown_on : ◌≡◌ {A = Result Fault Request} (err e) (err fault)
      thrown_on = ground arith

  -- When issuing throws, the fault is thrown on, and the request is back at the status from which it
  -- was claimed, not at CERTIFICATE_ISSUED.
  pub failed_issue_is_rolled_back :
      (fault : Fault)
      → find id (requests_of w) ≡ some r
      → (issue_and_store_certificate env.issuer r.user_id r.deletion_request_id
          (tenant_of r)
          claimed_world.vault).0
        ≡ err fault
      → ((issue_certificate env operation_id id r w).0 ≡ err fault)
        × HasStatus id r.status (issue_certificate env operation_id id r w).1
  unfolding issue_certificate
  failed_issue_is_rolled_back fault here throws =
      let won = claim_won env id r certificate_issued w here in
      let world : World =
        set_requests (put id (enter_status (env.clock 0) certificate_issued r) (requests_of w)) w in
      let throws' : (minting world.vault).0 ≡ err fault =
        ap (λ (u : World). (minting u.vault).0)
          (ap (λ (q : Result Fault (Option Request) × World). q.1) (sym won))
        ∙ throws in
      let kept =
        issue-evidence env.issuer r.user_id r.deletion_request_id (tenant_of r) world.vault in
      let there : find id (minting world.vault).1.evidence.requests ≡ some _ =
        ap (λ (ev : Evidence). find id ev.requests) kept
        ∙ find-put_self id (enter_status (env.clock 0) certificate_issued r) (requests_of w) in
      let (x, run, thrown, back) = rolled_back fault (minting world.vault) _ world throws' there in
      let whole : issue_certificate env operation_id id r w ≡ x =
        ap
          (follow (
            unless_lost
              (or_roll_back env id r (mint env r) >>= finish_certificate env operation_id id r)))
          won
        ∙ run in
      subst (λ (q : Result Fault Request × World). (q.0 ≡ err fault) × HasStatus id r.status q.1)
        (sym whole) (thrown, back)
