-- ===== src/Coverage/Doubles.antt =====
-- The doubles of JavaScript that services/pii-coverage.ts computes with: a fraction is rounded to the
-- nearest number of 53 bits, a tie to the even one. The fractions here are at most 100.
use chameleon_vault.Prelude.{ℕ, zero, suc, ◌+◌, ◌*◌, ◌/◌, ◌%◌, ◌^◌, ltb, leb, if◌then◌else◌}

-- The number mantissa / scale.
pub record Double : Type 0 where
  pub mantissa : ℕ
  pub scale : ℕ

-- The natural number next to n / d.
unfoldable pub nearest : ℕ → ℕ → ℕ
nearest n d =
    let q = n / d in
    let r = n % d in if ltb (2 * r) d then q else if ltb d (2 * r) then q + 1 else q + q % 2

-- The first power of two, from s on, that lifts n / d to 53 bits.
unfoldable pub lift_scale : ℕ → ℕ → ℕ → ℕ → ℕ
lift_scale zero n d s = s
lift_scale (suc k) n d s =
    let rest = lift_scale k n d (2 * s) in if leb (2 ^ 52 * d) (n * s) then s else rest

unfoldable pub to_double : ℕ → ℕ → Double
to_double n d = let s = lift_scale 128 n d 1 in record { mantissa = nearest (n * s) d; scale = s }

-- `Math.round`, exact, with a half rounded up.
unfoldable pub round : Double → ℕ
round x = (2 * x.mantissa + x.scale) / (2 * x.scale)
