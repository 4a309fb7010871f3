-- ===== src/Coverage/Score.antt =====
-- The bounds of the score, and what the totals and the order of a report are.
use chameleon_vault.Prelude.{ℕ, ◌+◌, ◌*◌, ◌≤◌, ◌<◌, ◌⊎◌, ◌≡◌, Bool, List, map, length, keep}
use chameleon_vault.Prelude.Stable.{IsOrdered}
use chameleon_vault.Coverage.Doubles.{Double}
use chameleon_vault.Coverage.Nearest.{IsDouble, IsRound}
use chameleon_vault.Coverage.Items.{CoverageItem, sum}
use chameleon_vault.Coverage.Report.{Totals, later, CoverageReport}

-- The parts of a sum add up.
record Adds (t : Totals) : Type 0 where
  parts : t.protected_sum + t.partial_sum + t.exposed_sum ≡ t.total

-- The score is 100 without weight, and else a whole number next to a double z, which is 100 times a
-- double y, which is the share of the protected weight with half of the partial one.
abbrev pub IsRounded : ℕ → Totals → Type 0
IsRounded score w =
    ((w.total ≡ 0) × (score ≡ 100))
    ⊎ ((0 < w.total)
        × (y : Double) × (z : Double) × IsDouble y (2 * w.protected_sum + w.partial_sum)
            (2 * w.total)
        × IsDouble z (100 * y.mantissa) y.scale
        × IsRound score z)

-- What a report is of its items.
pub record IsReport (items : List CoverageItem) (r : CoverageReport) : Type 0 where
  pub bounded : r.score ≤ 100
  pub rounded : IsRounded r.score r.weights
  pub counted : r.counts.total ≡ length items
  pub counts_add :
      r.counts.protected_sum + r.counts.partial_sum + r.counts.exposed_sum ≡ r.counts.total
  pub weighed : r.weights.total ≡ sum (map (λ i. i.weight) items)
  pub weights_add :
      r.weights.protected_sum + r.weights.partial_sum + r.weights.exposed_sum ≡ r.weights.total
  pub ordered : IsOrdered later r.items
  pub kept : (p : CoverageItem → Bool) → length (keep p r.items) ≡ length (keep p items)
