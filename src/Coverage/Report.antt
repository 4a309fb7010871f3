-- ===== src/Coverage/Report.antt =====
-- services/pii-coverage.ts, `computeCoverage`. A weight is a number of halves. Sums and halves of weights
-- are exact in doubles below 2 ^ 53; the quotient and its product with 100 are rounded as doubles are.
use chameleon_vault.Prelude.{
  ℕ, ◌+◌, ◌*◌, Bool, ◌&&◌, ◌||◌, List, [], ◌∷◌, ltb, nat_beq, if◌then◌else◌,
}
use chameleon_vault.Coverage.Doubles.{Double, to_double, round}
use chameleon_vault.Prelude.Stable.{sort_by}
use chameleon_vault.Coverage.Items.{CoverageState, protected, partial, exposed, CoverageItem}

-- `counts` and `weights`.
pub record Totals : Type 0 where
  pub protected_sum : ℕ
  pub partial_sum : ℕ
  pub exposed_sum : ℕ
  pub total : ℕ

abbrev pub nothing : Totals
nothing = record { protected_sum = 0; partial_sum = 0; exposed_sum = 0; total = 0 }

abbrev pub add : CoverageState → ℕ → Totals → Totals
add protected n t = record t { protected_sum = t.protected_sum + n; total = t.total + n }
add partial n t = record t { partial_sum = t.partial_sum + n; total = t.total + n }
add exposed n t = record t { exposed_sum = t.exposed_sum + n; total = t.total + n }

-- The loop over the items; `size` is the item's weight, or 1 for the counts.
unfoldable pub tally : (CoverageItem → ℕ) → List CoverageItem → Totals → Totals
tally size [] t = t
tally size (i ∷ is) t = tally size is (add i.state (size i) t)

-- `(protected + 0.5 * partial) / total`
abbrev pub quotient : Totals → Double
quotient w = to_double (2 * w.protected_sum + w.partial_sum) (2 * w.total)

-- `quotient * 100`
abbrev pub percentage : Totals → Double
percentage w = to_double (100 * (quotient w).mantissa) (quotient w).scale

unfoldable pub score_of : Totals → ℕ
unfolding to_double round
score_of w = if nat_beq w.total 0 then 100 else round (percentage w)

abbrev pub rank : CoverageState → ℕ
rank exposed = 0
rank partial = 1
rank protected = 2

-- `order[a.state] - order[b.state] || b.weight - a.weight`, when it is positive.
abbrev pub later : CoverageItem → CoverageItem → Bool
later a b =
    ltb (rank b.state) (rank a.state)
    || (nat_beq (rank a.state) (rank b.state) && ltb a.weight b.weight)

pub record CoverageReport : Type 0 where
  pub score : ℕ
  pub counts : Totals
  pub weights : Totals
  pub items : List CoverageItem

unfoldable pub compute_coverage : List CoverageItem → CoverageReport
unfolding tally score_of
compute_coverage items =
    let weights = tally (λ i. i.weight) items nothing in
    record {
      score = score_of weights;
      counts = tally (λ _. 1) items nothing;
      weights = weights;
      items = sort_by later items;
    }
