-- ===== src/Janitor/Retries.antt =====
-- The retry loop of the janitor against a description of its three ways to end.
use chameleon_vault.Prelude.{
  ℕ, zero, suc, ◌+◌, ◌≤◌, ◌<◌, String, ◌≡◌, refl, ◌⊎◌, inl, inr, true, false, arith, Bool-cases,
}
use chameleon_vault.Janitor.Connectors.{WipeResult}
use chameleon_vault.Janitor.Service.{Answer, response, is_retryable, Tried, retry, max_retries}

module _ (destination : String) (wipe : ℕ → Answer) where
  -- What the connector comes to at the n-th attempt.
  abbrev pub attempt : ℕ → WipeResult
  attempt n = response destination (wipe n)

  -- A failure that may be tried again.
  abbrev pub IsTransient : ℕ → Type 0
  IsTransient n = ((attempt n).success ≡ false) × (is_retryable (attempt n) ≡ true)

  -- How the attempts after the first `done` of them end, with `left` of them to make. In every case
  -- all attempts before the last were transient failures.
  pub data Ends (done left : ℕ) (t : Tried) : Type 0 where
    succeeded :
        t.success ≡ true
        → (attempt t.attempts).success ≡ true
        → t.records_found ≡ (attempt t.attempts).records_found
        → done < t.attempts
        → t.attempts ≤ done + left
        → ((i : ℕ) → done < i → i < t.attempts → IsTransient i)
        → Ends done left t
    refused :
        t.success ≡ false
        → (attempt t.attempts).success ≡ false
        → is_retryable (attempt t.attempts) ≡ false
        → done < t.attempts
        → t.attempts ≤ done + left
        → ((i : ℕ) → done < i → i < t.attempts → IsTransient i)
        → Ends done left t
    exhausted :
        t.success ≡ false
        → t.attempts ≡ done + left
        → ((i : ℕ) → done < i → i ≤ done + left → IsTransient i)
        → Ends done left t

  -- The transient failure that has just been seen joins those that follow.
  earlier :
      (done : ℕ) (P : ℕ → Type 0)
      → IsTransient (suc done)
      → ((i : ℕ) → suc done < i → P i → IsTransient i)
      → (i : ℕ) → done < i
      → P i
      → IsTransient i
  earlier done P now later i lt p = elim (compare_to (suc done) i lt) [
    | inl same ↦ rw (← same) now
    | inr past ↦ later i past p
  ]
    where
      compare_to : (a b : ℕ) → a ≤ b → (a ≡ b) ⊎ (a < b)
      compare_to a b h = grind arith

  Ends-suc :
      (done left : ℕ) (t : Tried)
      → IsTransient (suc done)
      → Ends (suc done) left t
      → Ends done (suc left) t
  Ends-suc done left t now (succeeded a b c d e f) =
      succeeded a b c (omega arith) (omega arith) (earlier done (λ i. i < t.attempts) now f)
  Ends-suc done left t now (refused a b c d e f) =
      refused a b c (omega arith) (omega arith) (earlier done (λ i. i < t.attempts) now f)
  Ends-suc done left t now (exhausted a b f) =
      exhausted a (omega arith)
        (earlier done (λ i. i ≤ done + suc left) now (λ i lt le. f i lt (omega arith)))

  pub retry-Ends :
      (left done : ℕ) (last : String) → Ends done left (retry destination wipe left done last)
  unfolding retry
  retry-Ends zero done last = exhausted refl (omega arith) (λ i lt le. absurd (omega arith))
  retry-Ends (suc left) done last = elim (Bool-cases (attempt (suc done)).success) [
    | inl good ↦
        rw good
          (succeeded refl good refl (omega arith) (omega arith) (λ i lt le. absurd (omega arith)))
    | inr bad ↦ elim (Bool-cases (is_retryable (attempt (suc done)))) [
      | inl again ↦
          rw (bad, again) (Ends-suc done left _ (bad, again) (retry-Ends left (suc done) _))
      | inr stop ↦
          rw (bad, stop)
            (refused refl bad stop (omega arith) (omega arith) (λ i lt le. absurd (omega arith)))
    ]
  ]

  -- A destination is tried at most three times and at least once. It is reported as wiped exactly
  -- when the last attempt succeeded, a failure that the connector calls permanent is not tried again,
  -- and a transient one is, until the attempts are used up.
  pub janitor_retries : Ends 0 max_retries (retry destination wipe max_retries 0 "")
  janitor_retries = retry-Ends max_retries 0 ""
