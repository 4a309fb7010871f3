-- ===== src/Requests/Claim.antt =====
-- The compare-and-swap of `claimTransition`: what a claim changes, and that a race has one winner.
use chameleon_vault.Prelude.{
  ℕ, ◌+◌, String, ◌≡◌, refl, ◌≢◌, ◌⊎◌, inl, inr, true, false, none, some, List, [], ◌∷◌, arith,
  find, put, find-put_self, find-put_ne, Bool-cases, Option-cases, Result, ok, err,
}
use chameleon_vault.Fault.{Fault, request_not_found}
use chameleon_vault.Requests.Types.{Status, Request}
use chameleon_vault.Requests.Repository.{
  Requests, Claim, claimed, lost, is_allowed, enter_status, claim_transition,
}

module _ (now : ℕ) (id : String) (allowed : List Status) (new : Status) (m : Requests) where
  -- A claim on a document that is there wins exactly when its status is one of the allowed ones.
  -- The winner has entered the new status; the loser is handed the document and changes nothing.
  pub claim_cases :
      (r : Request)
      → find id m ≡ some r
      → ((is_allowed r.status allowed ≡ true)
          × (claim_transition now id allowed new m
              ≡ (ok claimed, put id (enter_status now new r) m)))
        ⊎ ((is_allowed r.status allowed ≡ false)
            × (claim_transition now id allowed new m ≡ (ok (lost r), m)))
  unfolding claim_transition
  claim_cases r here = elim (Bool-cases (is_allowed r.status allowed)) [
    | inl e ↦ inl (e, ground arith)
    | inr e ↦ inr (e, ground arith)
  ]

  pub claim-missing :
      find id m ≡ none → claim_transition now id allowed new m ≡ (err (request_not_found id), m)
  unfolding claim_transition
  claim-missing missing = rw (missing, claim_transition)

  -- A claim touches no other document.
  pub claim-other :
      (j : String) → id ≢ j → find j (claim_transition now id allowed new m).1 ≡ find j m
  unfolding claim_transition
  claim-other j ne = elim (Option-cases (find id m)) [
    | inl e ↦ rw (e, claim_transition)
    | inr (r, e) ↦
        rw (e, claim_transition)
          (elim (Bool-cases (is_allowed r.status allowed)) [
            | inl t ↦ rw t (find-put_ne id j _ m ne)
            | inr t ↦ rw t
          ])
  ]

claim_lost :
    (now : ℕ) (id : String) (allowed : List Status) (new : Status) (m : Requests) (r : Request)
    → find id m ≡ some r
    → is_allowed r.status allowed ≡ false
    → claim_transition now id allowed new m ≡ (ok (lost r), m)
unfolding claim_transition
claim_lost now id allowed new m r here e = ground arith

claim_won :
    (now : ℕ) (id : String) (allowed : List Status) (new : Status) (m : Requests) (r : Request)
    → find id m ≡ some r
    → is_allowed r.status allowed ≡ true
    → claim_transition now id allowed new m ≡ (ok claimed, put id (enter_status now new r) m)
unfolding claim_transition
claim_won now id allowed new m r here e = ground arith

abbrev won : Result Fault Claim → ℕ
won (ok claimed) = 1
won (ok (lost r)) = 0
won (err e) = 0

-- Callers who all try the same transition on the same document, in the order in which their
-- transactions are serialised; each has its own time. The result counts the winners.
pub race : String → List Status → Status → List ℕ → Requests → ℕ
race id allowed new [] m = 0
race id allowed new (now ∷ rest) m =
    let (result, m') = claim_transition now id allowed new m in
    won result + race id allowed new rest m'

-- Once the status has left the allowed ones, nobody wins.
race_over :
    (id : String) (allowed : List Status) (new : Status) (times : List ℕ) (m : Requests)
    (r : Request)
    → find id m ≡ some r
    → is_allowed r.status allowed ≡ false
    → race id allowed new times m ≡ 0
unfolding race
race_over id allowed new [] m r here e = refl
race_over id allowed new (now ∷ rest) m r here e =
    rw (claim_lost now id allowed new m r here e)
      (omega (arith, race_over id allowed new rest m r here e))

-- Of any number of callers who try to move one document out of the allowed statuses, exactly one
-- wins, if the new status is not itself allowed and the document is at an allowed status.
pub race_one_winner :
    (id : String) (allowed : List Status) (new : Status) (now : ℕ) (times : List ℕ) (m : Requests)
    (r : Request)
    → find id m ≡ some r
    → is_allowed r.status allowed ≡ true
    → is_allowed new allowed ≡ false
    → race id allowed new (now ∷ times) m ≡ 1
unfolding race
race_one_winner id allowed new now times m r here e out =
    rw (claim_won now id allowed new m r here e) (
      rw (
        race_over id allowed new times (put id (enter_status now new r) m) (enter_status now new r)
          (find-put_self id (enter_status now new r) m) out))
