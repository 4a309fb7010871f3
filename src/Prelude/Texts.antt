-- ===== src/Prelude/Texts.antt =====
-- `startsWith`, `includes` and `toLowerCase` of texts, as lists of code points.
use Prim.Native.Nat.{ℕ, ◌+◌}
use Prim.Native.Char.{code}
use Prim.Native.String.{String}
use mathlib.Core.Bool.{Bool, true, false, ◌&&◌, ◌||◌}
use mathlib.Core.List.{List, [], ◌∷◌}
use chameleon_vault.Prelude.Tests.{nat_beq, leb, if◌then◌else◌}

abbrev pub codes : String → List ℕ
codes String.[] = []
codes (String.◌∷◌ c s) = code c ∷ codes s

unfoldable pub starts_with : List ℕ → List ℕ → Bool
starts_with [] s = true
starts_with (c ∷ p) [] = false
starts_with (c ∷ p) (d ∷ s) = nat_beq c d && starts_with p s

unfoldable pub contains : List ℕ → List ℕ → Bool
unfolding starts_with
contains p [] = starts_with p []
contains p (d ∷ s) = starts_with p (d ∷ s) || contains p s

-- `split(':').pop()`, for the separator that is given: what stands behind the last one.
unfoldable pub after_last : ℕ → List ℕ → List ℕ → List ℕ
after_last sep whole [] = whole
after_last sep whole (c ∷ s) = after_last sep (if nat_beq c sep then s else whole) s

-- The small letter; outside ASCII only those with an ASCII letter in them are changed.
abbrev lower_code : ℕ → List ℕ → List ℕ
lower_code c rest =
    if leb b'A' c && leb c b'Z'
    then (c + 32) ∷ rest
    else (if nat_beq c 8490
        then b'k' ∷ rest
        else (if nat_beq c 304 then b'i' ∷ 775 ∷ rest else c ∷ rest))

unfoldable pub lower : List ℕ → List ℕ
lower [] = []
lower (c ∷ s) = lower_code c (lower s)
