-- ===== src/Coverage/Nearest.antt =====
-- What the rounding of a fraction to a double is.
use native.Mathlib.Nat.{
  div-add-mod', mod-lt, div-lt_iff_lt-mul, le-div_iff_mul-le, div-mul-le_self, lt-div-mul-add,
  le_of_mul-le-mul_right, mul-le-mul_left,
}
use chameleon_vault.Prelude.{
  ℕ, zero, suc, ◌+◌, ◌*◌, ◌/◌, ◌%◌, ◌^◌, ◌≤◌, ◌<◌, ◌≡◌, ◌⊎◌, refl, inl, inr, arith, leb, Bool-cases,
}
use chameleon_vault.Coverage.Doubles.{Double, nearest, lift_scale, to_double, round}

module _ (n d : ℕ) (some_d : 0 < d) where
  parts : (n / d * d + n % d ≡ n) × (n % d < d)
  parts = (div-add-mod' n d, mod-lt n some_d)

  pub nearest-Near : (2 * (nearest n d * d) ≤ 2 * n + d) × (2 * n ≤ 2 * (nearest n d * d) + d)
  unfolding nearest
  nearest-Near = let (sum, below) = parts in (grind arith, grind arith)

  pub nearest-le : (k : ℕ) → n ≤ k * d → nearest n d ≤ k
  unfolding nearest
  nearest-le k h =
      let (sum, below) = parts in
      let q : n / d ≤ k =
        le_of_mul-le-mul_right {k = d} (omega (arith, div-mul-le_self n d)) some_d in
      elim (compare_le q) [
        | inl less ↦ ground arith
        | inr same ↦
            let none_left : n % d ≡ 0 = omega (arith, rw same at sum) in rw none_left (ground arith)
      ]
    where
      compare_le : n / d ≤ k → (n / d < k) ⊎ (n / d ≡ k)
      compare_le q = ground arith

  pub nearest-ge : (k : ℕ) → k * d ≤ n → k ≤ nearest n d
  unfolding nearest
  nearest-ge k h = let q : k ≤ n / d = (le-div_iff_mul-le some_d).1 h in ground arith

power_pos : (k : ℕ) → 1 ≤ 2 ^ k
power_pos zero = omega arith
power_pos (suc k) = omega (arith, power_pos k)

module _ (n d : ℕ) where
  -- A scale that starts low enough does not lift too high.
  lift_scale-upper : (k s : ℕ) → n * s < 2 ^ 53 * d → n * lift_scale k n d s < 2 ^ 53 * d
  unfolding lift_scale
  lift_scale-upper zero s h = h
  lift_scale-upper (suc k) s h = elim (Bool-cases (leb (2 ^ 52 * d) (n * s))) [
    | inl e ↦ rw e h
    | inr e ↦
        let low : n * s < 2 ^ 52 * d = ground arith in
        rw e (lift_scale-upper k (2 * s) (omega arith))
  ]

  lift_scale-full : (k s : ℕ) → 2 ^ 52 * d ≤ n * (s * 2 ^ k) → 2 ^ 52 * d ≤ n * lift_scale k n d s
  unfolding lift_scale
  lift_scale-full zero s h = grind arith
  lift_scale-full (suc k) s h = elim (Bool-cases (leb (2 ^ 52 * d) (n * s))) [
    | inl e ↦ rw e (ground arith)
    | inr e ↦ rw e (lift_scale-full k (2 * s) (grind arith))
  ]

  lift_scale-le : (k s : ℕ) → lift_scale k n d s ≤ s * 2 ^ k
  unfolding lift_scale
  lift_scale-le zero s = grind arith
  lift_scale-le (suc k) s = elim (Bool-cases (leb (2 ^ 52 * d) (n * s))) [
    | inl e ↦ rw e (omega (arith, mul-le-mul_left s (power_pos (suc k))))
    | inr e ↦
        let more : lift_scale k n d (2 * s) ≤ 2 * s * 2 ^ k = lift_scale-le k (2 * s) in
        rw e (grind arith)
  ]

  lift_scale-pos : (k s : ℕ) → 0 < s → 0 < lift_scale k n d s
  unfolding lift_scale
  lift_scale-pos zero s h = h
  lift_scale-pos (suc k) s h = elim (Bool-cases (leb (2 ^ 52 * d) (n * s))) [
    | inl e ↦ rw e h
    | inr e ↦ rw e (lift_scale-pos k (2 * s) (omega arith))
  ]

  lift_scale-power : (k e s : ℕ) → s ≡ 2 ^ e → (f : ℕ) × (lift_scale k n d s ≡ 2 ^ f)
  unfolding lift_scale
  lift_scale-power zero e s h = (e, h)
  lift_scale-power (suc k) e s h = elim (Bool-cases (leb (2 ^ 52 * d) (n * s))) [
    | inl now ↦ rw now (e, h)
    | inr not_yet ↦ rw not_yet (lift_scale-power k (suc e) (2 * s) (omega (arith, h)))
  ]

-- x is n / d, to 53 bits: the mantissa is a whole number next to the fraction at the scale, with no more
-- than 53 bits, and with all of them unless the fraction is 0.
pub record IsDouble (x : Double) (n d : ℕ) : Type 0 where
  pub power : (e : ℕ) × (x.scale ≡ 2 ^ e)
  pub some_scale : 0 < x.scale
  pub not_above : 2 * (x.mantissa * d) ≤ 2 * (n * x.scale) + d
  pub not_below : 2 * (n * x.scale) ≤ 2 * (x.mantissa * d) + d
  pub at_most : x.mantissa ≤ 2 ^ 53
  pub at_least : (n ≡ 0) ⊎ (2 ^ 52 ≤ x.mantissa)

pub to_double-IsDouble :
    (n d : ℕ)
    → 0 < d
    → n ≤ 100 * d
    → (n ≡ 0) ⊎ (2 ^ 52 * d ≤ n * 2 ^ 128)
    → IsDouble (to_double n d) n d
unfolding to_double
to_double-IsDouble n d some_d small enough =
    let s = lift_scale 128 n d 1 in
    let near = nearest-Near (n * s) d some_d in
    let low : n * s < 2 ^ 53 * d = lift_scale-upper n d 128 1 (omega arith) in
    record {
      power = lift_scale-power n d 128 0 1 refl;
      some_scale = lift_scale-pos n d 128 1 (omega arith);
      not_above = near.0;
      not_below = near.1;
      at_most = nearest-le (n * s) d some_d (2 ^ 53) (omega (arith, low));
      at_least = full enough;
    }
  where
    full :
        (n ≡ 0) ⊎ (2 ^ 52 * d ≤ n * 2 ^ 128)
        → (n ≡ 0) ⊎ (2 ^ 52 ≤ nearest (n * lift_scale 128 n d 1) d)
    full (inl none_there) = inl none_there
    full (inr fuel) = inr (
        nearest-ge (n * lift_scale 128 n d 1) d some_d (2 ^ 52)
          (lift_scale-full n d 128 1 (omega (arith, fuel))))

pub to_double-le :
    (n d k : ℕ) → 0 < d → n ≤ k * d → (to_double n d).mantissa ≤ k * (to_double n d).scale
unfolding to_double
to_double-le n d k some_d h =
    nearest-le (n * lift_scale 128 n d 1) d some_d (k * lift_scale 128 n d 1)
      (le_times (lift_scale 128 n d 1))
  where
    le_times : (s : ℕ) → n * s ≤ k * s * d
    le_times s = omega (arith, mul-le-mul_left s h)

pub to_double-scale_le : (n d : ℕ) → (to_double n d).scale ≤ 2 ^ 128
unfolding to_double
to_double-scale_le n d = omega (arith, lift_scale-le n d 128 1)

pub to_double-scale_pos : (n d : ℕ) → 0 < (to_double n d).scale
unfolding to_double
to_double-scale_pos n d = lift_scale-pos n d 128 1 (omega arith)

-- The whole number next to x, a half rounded up.
abbrev pub IsRound : ℕ → Double → Type 0
IsRound r x =
    (r * (2 * x.scale) ≤ 2 * x.mantissa + x.scale)
    × (2 * x.mantissa + x.scale < r * (2 * x.scale) + 2 * x.scale)

pub round-IsRound : (x : Double) → 0 < x.scale → IsRound (round x) x
unfolding round
round-IsRound x h = (div-mul-le_self _ _, lt-div-mul-add (omega arith))

pub round-le : (x : Double) (k : ℕ) → 0 < x.scale → x.mantissa ≤ k * x.scale → round x ≤ k
unfolding round
round-le x k h below =
    let less =
      (div-lt_iff_lt-mul {k = 2 * x.scale} {x = 2 * x.mantissa + x.scale} {y = k + 1}
          (omega arith)).1
        (omega (arith, below)) in
    omega (arith, less)

pub nearest_zero : (n d : ℕ) → 0 < d → n ≡ 0 → (to_double n d).mantissa ≡ 0
nearest_zero n d some_d h = omega (arith, to_double-le n d 0 some_d (omega (arith, h)))
