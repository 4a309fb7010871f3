-- ===== src/Examples/Ciphers.antt =====
-- A sample of the parameters of the cipher that has the laws: bytes are numbers, a sealed text is the text
-- itself with a tag of zeros, and an encoding writes a number as so many letters.
use Prim.Native.Char.{Char, char, code, IsLt}
use Prim.Native.Nat.{Ordering, compare}
use chameleon_vault.Prelude.{
  ℕ, zero, suc, ◌+◌, ◌≤◌, String, ◌≡◌, refl, sym, ap, ◌∙◌, inl, inr, true, false, some, [], ◌∷◌,
  arith, ◌==◌, eq_iff, length, nat_beq, if◌then◌else◌, Bool-cases,
}
use chameleon_vault.Prelude.Decimal.{is_nonempty}
use chameleon_vault.Crypto.Aes.{Bytes, Primitives, IsAead}
use chameleon_vault.Routes.Crypto.Cipher.{all_base64, is_base64}

-- The built-in test on scalar values, by cases.
abbrev Both : Ordering → Ordering → Type 0
Both Ordering.lt o = IsLt o
Both Ordering.eq _ = ⊥
Both Ordering.gt _ = ⊥

abbrev Scalar : Ordering → Ordering → Ordering → Type 0
Scalar Ordering.lt _ _ = Unit
Scalar Ordering.eq o p = Both o p
Scalar Ordering.gt o p = Both o p

abbrev char_if : (a b c : Ordering) → (Scalar a b c → Char) → Char
char_if Ordering.lt b c f = f tt
char_if Ordering.eq Ordering.lt Ordering.lt f = f tt
char_if Ordering.eq Ordering.lt Ordering.eq f = "?"
char_if Ordering.eq Ordering.lt Ordering.gt f = "?"
char_if Ordering.eq Ordering.eq c f = "?"
char_if Ordering.eq Ordering.gt c f = "?"
char_if Ordering.gt Ordering.lt Ordering.lt f = f tt
char_if Ordering.gt Ordering.lt Ordering.eq f = "?"
char_if Ordering.gt Ordering.lt Ordering.gt f = "?"
char_if Ordering.gt Ordering.eq c f = "?"
char_if Ordering.gt Ordering.gt c f = "?"

char_if-at : (a b c : Ordering) (f : Scalar a b c → Char) (p : Scalar a b c) → char_if a b c f ≡ f p
char_if-at Ordering.lt b c f p = refl
char_if-at Ordering.eq Ordering.lt Ordering.lt f p = refl
char_if-at Ordering.gt Ordering.lt Ordering.lt f p = refl
char_if-at Ordering.eq Ordering.lt Ordering.eq f p = elim p [ ]
char_if-at Ordering.eq Ordering.lt Ordering.gt f p = elim p [ ]
char_if-at Ordering.eq Ordering.eq c f p = elim p [ ]
char_if-at Ordering.eq Ordering.gt c f p = elim p [ ]
char_if-at Ordering.gt Ordering.lt Ordering.eq f p = elim p [ ]
char_if-at Ordering.gt Ordering.lt Ordering.gt f p = elim p [ ]
char_if-at Ordering.gt Ordering.eq c f p = elim p [ ]
char_if-at Ordering.gt Ordering.gt c f p = elim p [ ]

abbrev char_of : ℕ → Char
char_of n = char_if (compare n 55296) (compare 57343 n) (compare n 1114112) (λ p. char n p)

char_of-code : (c : Char) → char_of (code c) ≡ c
char_of-code (char n p) =
    char_if-at (compare n 55296) (compare 57343 n) (compare n 1114112) (λ q. char n q) p

pub numbers : String → Bytes
numbers String.[] = []
numbers (String.◌∷◌ c s) = code c ∷ numbers s

pub text : Bytes → String
text [] = ""
text (n ∷ ns) = String.◌∷◌ (char_of n) (text ns)

text-numbers : (s : String) → text (numbers s) ≡ s
unfolding text numbers
text-numbers String.[] = refl
text-numbers (String.◌∷◌ c s) = rw (char_of-code c) (ap (String.◌∷◌ c) (text-numbers s))

-- A number, then a text.
letters : ℕ → String → String
letters zero s = String.◌∷◌ "B" s
letters (suc n) s = String.◌∷◌ "A" (letters n s)

pub spelled : Bytes → String
spelled [] = ""
spelled (n ∷ ns) = letters n (spelled ns)

pub read_from : ℕ → String → Bytes
read_from n String.[] = []
read_from n (String.◌∷◌ c s) =
    let more = read_from (suc n) s in
    let rest = read_from 0 s in if nat_beq (code c) b'A' then more else n ∷ rest

read_from-letters : (k n : ℕ) (s : String) → read_from k (letters n s) ≡ (k + n) ∷ read_from 0 s
unfolding read_from letters
read_from-letters k zero s = ap (λ m. m ∷ read_from 0 s) (omega arith)
read_from-letters k (suc n) s =
    read_from-letters (suc k) n s ∙ ap (λ m. m ∷ read_from 0 s) (omega arith)

read-spelled : (bs : Bytes) → read_from 0 (spelled bs) ≡ bs
unfolding spelled read_from
read-spelled [] = refl
read-spelled (n ∷ ns) =
    let zero_plus : 0 + n ≡ n = omega arith in
    read_from-letters 0 n (spelled ns)
    ∙ ap (λ m. m ∷ read_from 0 (spelled ns)) zero_plus
    ∙ ap (λ ms. n ∷ ms) (read-spelled ns)

letters-all_base64 : (n : ℕ) (s : String) → all_base64 (letters n s) ≡ all_base64 s
unfolding letters all_base64
letters-all_base64 zero s = refl
letters-all_base64 (suc n) s = letters-all_base64 n s

spelled-all_base64 : (bs : Bytes) → all_base64 (spelled bs) ≡ true
unfolding spelled all_base64
spelled-all_base64 [] = refl
spelled-all_base64 (n ∷ ns) = letters-all_base64 n (spelled ns) ∙ spelled-all_base64 ns

letters-is_nonempty : (n : ℕ) (s : String) → is_nonempty (letters n s) ≡ true
unfolding letters
letters-is_nonempty zero s = refl
letters-is_nonempty (suc n) s = refl

nonempty_text : (s : String) → is_nonempty s ≡ true → (s == "") ≡ false
nonempty_text s h = elim (Bool-cases (s == "")) [
  | inr other ↦ other
  | inl same ↦ let clash : true ≡ false = sym h ∙ ap is_nonempty ((eq_iff s "").0 same) in cc
]

pub spelled-is_base64 : (bs : Bytes) → 1 ≤ length bs → is_base64 (spelled bs) ≡ true
unfolding spelled is_base64
spelled-is_base64 [] h = ground arith
spelled-is_base64 (n ∷ ns) h =
    rw
      (
        nonempty_text (letters n (spelled ns)) (letters-is_nonempty n (spelled ns)),
        letters-all_base64 n (spelled ns),
      )
      (spelled-all_base64 ns)

abbrev zeros : ℕ → Bytes
zeros zero = []
zeros (suc n) = 0 ∷ zeros n

abbrev pub plain_cipher : Primitives
plain_cipher = record {
  sha256 = λ bs. bs;
  seal = λ key iv aad bs. (bs, zeros 16);
  unseal = λ key iv aad tag bs. some bs;
  base64 = spelled;
  from_base64 = read_from 0;
  utf8 = numbers;
  from_utf8 = text;
}

pub plain_cipher-IsAead : IsAead plain_cipher
plain_cipher-IsAead = record {
  unseal-seal = λ key iv aad bs. refl;
  tag_length = λ key iv aad bs. refl;
  from_base64-base64 = read-spelled;
  from_utf8-utf8 = text-numbers;
}
