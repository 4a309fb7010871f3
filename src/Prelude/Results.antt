-- ===== src/Prelude/Results.antt =====
-- A `Result` by itself: a read of a store that may throw.
use chameleon_vault.Prelude.Effects.{Result, ok, err, err-ne-ok}
use mathlib.Core.Path.{◌≡◌, refl}

module _ {ℓ} {E A B : Type ℓ} where
  -- `const a = await r; return f(a)`
  abbrev pub and_then : Result E A → (A → Result E B) → Result E B
  and_then (ok a) f = f a
  and_then (err e) f = err e

  -- What ran before a read that answered has answered.
  pub and_then-ok :
      (r : Result E A) (f : A → Result E B) (b : B)
      → and_then r f ≡ ok b
      → (a : A) × (r ≡ ok a) × (f a ≡ ok b)
  and_then-ok (ok a) f b h = (a, refl, h)
  and_then-ok (err e) f b h = absurd (err-ne-ok e b h)
