-- ===== src/Prelude/Decimal.antt =====
-- Template literals: a number in decimal, and texts that end in a field without some character.
use Prim.Native.Nat.{ℕ, zero, suc, ◌+◌, ◌-◌, ◌*◌, ◌/◌, ◌%◌, ◌≤◌, ◌<◌}
use Prim.Native.Char.{Char, code}
use Prim.Native.String
use Prim.Native.String.{String}
use mathlib.Core.Path.{◌≡◌, refl, ap, ap₂, sym, subst, ◌∙◌}
use mathlib.Core.Logic.{◌≢◌, inl, inr}
use mathlib.Core.Bool.{Bool, true, false, ◌&&◌}
use text.Mathlib.TextLemmas.{nil-append, cons-append}
use native.Mathlib.Omega.{arith}
use text.Mathlib.TextEquality.{Char-path}
use chameleon_vault.Prelude.Tests.{if◌then◌else◌, ltb, leb, Bool-cases}

abbrev pub digit : ℕ → Char
digit zero = "0"
digit (suc zero) = "1"
digit (suc (suc zero)) = "2"
digit (suc (suc (suc zero))) = "3"
digit (suc (suc (suc (suc zero)))) = "4"
digit (suc (suc (suc (suc (suc zero))))) = "5"
digit (suc (suc (suc (suc (suc (suc zero)))))) = "6"
digit (suc (suc (suc (suc (suc (suc (suc zero))))))) = "7"
digit (suc (suc (suc (suc (suc (suc (suc (suc zero)))))))) = "8"
digit (suc (suc (suc (suc (suc (suc (suc (suc (suc n))))))))) = "9"

code-digit : (d : ℕ) → d < 10 → code (digit d) ≡ 48 + d
code-digit zero h = refl
code-digit (suc zero) h = refl
code-digit (suc (suc zero)) h = refl
code-digit (suc (suc (suc zero))) h = refl
code-digit (suc (suc (suc (suc zero)))) h = refl
code-digit (suc (suc (suc (suc (suc zero))))) h = refl
code-digit (suc (suc (suc (suc (suc (suc zero)))))) h = refl
code-digit (suc (suc (suc (suc (suc (suc (suc zero))))))) h = refl
code-digit (suc (suc (suc (suc (suc (suc (suc (suc zero)))))))) h = refl
code-digit (suc (suc (suc (suc (suc (suc (suc (suc (suc zero))))))))) h = refl
code-digit (suc (suc (suc (suc (suc (suc (suc (suc (suc (suc n)))))))))) h = absurd (omega arith)

-- The digits of `n` before `rest`; a number has fewer digits than `n + 1`.
show_before : ℕ → ℕ → String → String
show_before zero n rest = rest
show_before (suc f) n rest =
    let out = String.◌∷◌ (digit (n % 10)) rest in
    let more = show_before f (n / 10) out in if ltb n 10 then out else more

unfoldable pub show : ℕ → String
unfolding show_before
show n = show_before (suc n) n ""

value_from : ℕ → String → ℕ
value_from v String.[] = v
value_from v (String.◌∷◌ c s) = value_from (10 * v + (code c - 48)) s

value_from-show_before :
    (f n : ℕ) (rest : String) → n < f → value_from 0 (show_before f n rest) ≡ value_from n rest
unfolding show_before value_from
value_from-show_before zero n rest h = elim h [ ]
value_from-show_before (suc f) n rest h = elim (Bool-cases (ltb n 10)) [
  | inl small ↦
      rw small
        (ap (λ (v : ℕ). value_from v rest) (omega (arith, code-digit (n % 10), the_small n small)))
  | inr large ↦ rw large (
      value_from-show_before f (n / 10) (String.◌∷◌ (digit (n % 10)) rest)
        (omega (arith, the_large n large))
      ∙ ap (λ (v : ℕ). value_from v rest) (omega (arith, code-digit (n % 10))))
]
  where
    the_small : (k : ℕ) → ltb k 10 ≡ true → k < 10
    the_small k e = ground arith

    the_large : (k : ℕ) → ltb k 10 ≡ false → 10 ≤ k
    the_large k e = ground arith

-- Two numbers with the same decimal text are equal.
pub show-injective : (m n : ℕ) → show m ≡ show n → m ≡ n
unfolding show value_from
show-injective m n e =
    sym (value_from-show_before (suc m) m "" (omega arith))
    ∙ ap (value_from 0) e
    ∙ value_from-show_before (suc n) n "" (omega arith)

-- The text holds no character of this code.
abbrev pub Lacks : ℕ → String → Type 0
Lacks k String.[] = Unit
Lacks k (String.◌∷◌ c s) = (code c ≢ k) × Lacks k s

tail_of : String → String
tail_of String.[] = ""
tail_of (String.◌∷◌ c s) = s

tail_eq : (c d : Char) (s t : String) → String.◌∷◌ c s ≡ String.◌∷◌ d t → s ≡ t
unfolding tail_of
tail_eq c d s t e = ap tail_of e

head_code : String → ℕ
head_code String.[] = 0
head_code (String.◌∷◌ c s) = code c

head_eq : (c d : Char) (s t : String) → String.◌∷◌ c s ≡ String.◌∷◌ d t → code c ≡ code d
unfolding head_code
head_eq c d s t e = ap head_code e

-- `a + sep + s`, where `sep` is one character.
abbrev pub joined : Char → String → String → String
joined sep a s = String.◌++◌ a (String.◌∷◌ sep s)

Lacks-joined : (sep : Char) (a s : String) → ¬ Lacks (code sep) (joined sep a s)
Lacks-joined sep String.[] s h =
    let h' : Lacks (code sep) (String.◌∷◌ sep s) = rw nil-append at h in h'.0 refl
Lacks-joined sep (String.◌∷◌ c a) s h =
    let h' : Lacks (code sep) (String.◌∷◌ c (joined sep a s)) = rw cons-append at h in
    Lacks-joined sep a s h'.1

-- A text is cut at the last separator: with no separator in the second part, equal joins have equal
-- parts.
pub joined-injective :
    (sep : Char) (a b s t : String)
    → Lacks (code sep) s
    → Lacks (code sep) t
    → joined sep a s ≡ joined sep b t
    → (a ≡ b) × (s ≡ t)
joined-injective sep String.[] String.[] s t hs ht e =
    (refl, tail_eq sep sep s t (sym (nil-append _) ∙ e ∙ nil-append _))
joined-injective sep String.[] (String.◌∷◌ d b) s t hs ht e = absurd (
    Lacks-joined sep b t (
      subst (Lacks (code sep))
        (tail_eq sep d s (joined sep b t) (sym (nil-append _) ∙ e ∙ cons-append d b _)) hs))
joined-injective sep (String.◌∷◌ c a) String.[] s t hs ht e = absurd (
    Lacks-joined sep a s (
      subst (Lacks (code sep))
        (tail_eq sep c t (joined sep a s) (sym (nil-append _) ∙ sym e ∙ cons-append c a _)) ht))
joined-injective sep (String.◌∷◌ c a) (String.◌∷◌ d b) s t hs ht e =
    let e' = sym (cons-append c a _) ∙ e ∙ cons-append d b _ in
    let (ab, st) = joined-injective sep a b s t hs ht (tail_eq c d _ _ e') in
    (cons_eq c d a b (head_eq c d _ _ e') ab, st)
  where
    cons_eq :
        (c d : Char) (a b : String) → code c ≡ code d → a ≡ b → String.◌∷◌ c a ≡ String.◌∷◌ d b
    cons_eq c d a b p q = ap₂ String.◌∷◌ (Char-path c d p) q

-- The text has digits only.
unfoldable pub all_digits : String → Bool
all_digits String.[] = true
all_digits (String.◌∷◌ c s) = leb 48 (code c) && (leb (code c) 57 && all_digits s)

abbrev pub is_nonempty : String → Bool
is_nonempty String.[] = false
is_nonempty (String.◌∷◌ c s) = true

show_before-digits :
    (f n : ℕ) (rest : String)
    → n < f
    → all_digits rest ≡ true
    → (all_digits (show_before f n rest) ≡ true) × (is_nonempty (show_before f n rest) ≡ true)
unfolding show_before all_digits
show_before-digits zero n rest h k = elim h [ ]
show_before-digits (suc f) n rest h k =
    let one_more : all_digits (String.◌∷◌ (digit (n % 10)) rest) ≡ true =
      ground (arith, code-digit (n % 10)) in
    elim (Bool-cases (ltb n 10)) [
      | inl small ↦ rw small (one_more, refl)
      | inr large ↦ rw large (show_before-digits f (n / 10) _ (ground arith) one_more)
    ]

pub show-digits : (n : ℕ) → (all_digits (show n) ≡ true) × (is_nonempty (show n) ≡ true)
unfolding show all_digits
show-digits n = show_before-digits (suc n) n "" (omega arith) refl
