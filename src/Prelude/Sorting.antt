-- ===== src/Prelude/Sorting.antt =====
-- `orderBy(key, 'desc')`, `limit(n)` and their laws.
use Prim.Native.Nat.{ℕ, zero, suc, ◌+◌, ◌≤◌, ◌<◌}
use mathlib.Core.Logic.{inl, inr}
use mathlib.Core.Option.{Option, none, some}
use mathlib.Core.List.{List, [], ◌∷◌}
use native.Mathlib.Omega.{arith}
use chameleon_vault.Prelude.Tests.{if◌then◌else◌, ltb, Bool-cases}
use chameleon_vault.Prelude.Lists.{All, length, keep}
use mathlib.Core.Bool.{Bool}
use mathlib.Core.Path.{◌≡◌, refl}

module _ {ℓ} {A : Type ℓ} where
  -- `limit(n)`
  abbrev pub take : ℕ → List A → List A
  take zero xs = []
  take (suc n) [] = []
  take (suc n) (x ∷ xs) = x ∷ take n xs

  pub length-take-le : (n : ℕ) (xs : List A) → length (take n xs) ≤ n
  length-take-le zero xs = omega arith
  length-take-le (suc n) [] = omega arith
  length-take-le (suc n) (x ∷ xs) = omega (arith, length-take-le n xs)

  abbrev pub first : List A → Option A
  first [] = none
  first (x ∷ xs) = some x

module _ {ℓ} {A : Type ℓ} (key : A → ℕ) where
  unfoldable pub insert_desc : A → List A → List A
  insert_desc a [] = a ∷ []
  insert_desc a (x ∷ xs) = if ltb (key x) (key a) then a ∷ x ∷ xs else x ∷ insert_desc a xs

  unfoldable pub sort_desc : List A → List A
  unfolding insert_desc
  sort_desc [] = []
  sort_desc (x ∷ xs) = insert_desc x (sort_desc xs)

  -- Every element is at least each that stands behind it.
  abbrev pub IsDescending : List A → Type ℓ
  IsDescending [] = Unit
  IsDescending (x ∷ xs) = All (λ y. key y ≤ key x) xs × IsDescending xs

module _ {ℓ κ} {A : Type ℓ} (key : A → ℕ) (P : A → Type κ) where
  All-insert_desc : (a : A) (xs : List A) → P a → All P xs → All P (insert_desc key a xs)
  unfolding insert_desc
  All-insert_desc a [] p h = (p, tt)
  All-insert_desc a (x ∷ xs) p (q, h) = elim (Bool-cases (ltb (key x) (key a))) [
    | inl e ↦ rw e (p, (q, h))
    | inr e ↦ rw e (q, All-insert_desc a xs p h)
  ]

  pub All-sort_desc : (xs : List A) → All P xs → All P (sort_desc key xs)
  unfolding sort_desc
  All-sort_desc [] h = tt
  All-sort_desc (x ∷ xs) (p, h) = All-insert_desc x (sort_desc key xs) p (All-sort_desc xs h)

  All-of_insert_desc : (a : A) (xs : List A) → All P (insert_desc key a xs) → P a × All P xs
  unfolding insert_desc
  All-of_insert_desc a [] (p, h) = (p, tt)
  All-of_insert_desc a (x ∷ xs) h = elim (Bool-cases (ltb (key x) (key a))) [
    | inl e ↦ let h' : P a × (P x × All P xs) = rw (e, insert_desc) at h in h'
    | inr e ↦
        let h' : P x × All P (insert_desc key a xs) = rw (e, insert_desc) at h in
        let (pa, rest) = All-of_insert_desc a xs h'.1 in (pa, (h'.0, rest))
  ]

  -- Nothing is lost by sorting.
  pub All-of_sort_desc : (xs : List A) → All P (sort_desc key xs) → All P xs
  unfolding sort_desc
  All-of_sort_desc [] h = tt
  All-of_sort_desc (x ∷ xs) h =
      let (p, rest) = All-of_insert_desc x (sort_desc key xs) h in (p, All-of_sort_desc xs rest)

  pub All-take : (n : ℕ) (xs : List A) → All P xs → All P (take n xs)
  All-take zero xs h = tt
  All-take (suc n) [] h = tt
  All-take (suc n) (x ∷ xs) (p, h) = (p, All-take n xs h)

module _ {ℓ} {A : Type ℓ} (key : A → ℕ) where
  All-weaken : (m n : ℕ) (xs : List A) → m ≤ n → All (λ y. key y ≤ m) xs → All (λ y. key y ≤ n) xs
  All-weaken m n [] h k = tt
  All-weaken m n (x ∷ xs) h (p, k) = (omega arith, All-weaken m n xs h k)

  insert_desc-IsDescending :
      (a : A) (xs : List A) → IsDescending key xs → IsDescending key (insert_desc key a xs)
  unfolding insert_desc
  insert_desc-IsDescending a [] h = (tt, tt)
  insert_desc-IsDescending a (x ∷ xs) (p, h) = elim (Bool-cases (ltb (key x) (key a))) [
    | inl e ↦
        let below : key x ≤ key a = ground arith in
        rw e ((below, All-weaken (key x) (key a) xs below p), (p, h))
    | inr e ↦ rw e (
      All-insert_desc key (λ y. key y ≤ key x) a xs (ground arith) p,
      insert_desc-IsDescending a xs h,
    )
  ]

  pub sort_desc-IsDescending : (xs : List A) → IsDescending key (sort_desc key xs)
  unfolding sort_desc
  sort_desc-IsDescending [] = tt
  sort_desc-IsDescending (x ∷ xs) =
      insert_desc-IsDescending x (sort_desc key xs) (sort_desc-IsDescending xs)

  pub take-IsDescending : (n : ℕ) (xs : List A) → IsDescending key xs → IsDescending key (take n xs)
  take-IsDescending zero xs h = tt
  take-IsDescending (suc n) [] h = tt
  take-IsDescending (suc n) (x ∷ xs) (p, h) =
      (All-take key (λ y. key y ≤ key x) n xs p, take-IsDescending n xs h)

module _ {ℓ} {A : Type ℓ} where
  -- What a limit leaves out.
  abbrev pub drop : ℕ → List A → List A
  drop zero xs = xs
  drop (suc n) [] = []
  drop (suc n) (x ∷ xs) = drop n xs

  pub All-drop {κ} : (P : A → Type κ) (n : ℕ) (xs : List A) → All P xs → All P (drop n xs)
  All-drop P zero xs h = h
  All-drop P (suc n) [] h = tt
  All-drop P (suc n) (x ∷ xs) (p, h) = All-drop P n xs h

  pub All-take-drop {κ} :
      (P : A → Type κ) (n : ℕ) (xs : List A) → All P (take n xs) → All P (drop n xs) → All P xs
  All-take-drop P zero xs h k = k
  All-take-drop P (suc n) [] h k = tt
  All-take-drop P (suc n) (x ∷ xs) (p, h) k = (p, All-take-drop P n xs h k)

  -- As many elements pass a test among those taken and those left out.
  pub count-take :
      (p : A → Bool) (n : ℕ) (xs : List A)
      → length (keep p (take n xs)) + length (keep p (drop n xs)) ≡ length (keep p xs)
  count-take p zero xs = omega arith
  count-take p (suc n) [] = refl
  count-take p (suc n) (x ∷ xs) = ground (arith, count-take p n xs)

  -- A limit leaves something out only once it is reached.
  pub length-take : (n : ℕ) (xs : List A) → 0 < length (drop n xs) → length (take n xs) ≡ n
  length-take zero xs h = refl
  length-take (suc n) [] h = ground arith
  length-take (suc n) (x ∷ xs) h = ground (arith, length-take n xs h)

module _ {ℓ} {A : Type ℓ} (key : A → ℕ) where
  count-insert_desc :
      (p : A → Bool) (a : A) (xs : List A)
      → length (keep p (insert_desc key a xs)) ≡ length (keep p (a ∷ xs))
  unfolding insert_desc
  count-insert_desc p a [] = refl
  count-insert_desc p a (x ∷ xs) = ground (arith, count-insert_desc p a xs)

  pub count-sort_desc :
      (p : A → Bool) (xs : List A) → length (keep p (sort_desc key xs)) ≡ length (keep p xs)
  unfolding sort_desc
  count-sort_desc p [] = refl
  count-sort_desc p (x ∷ xs) =
      ground (arith, count-insert_desc p x (sort_desc key xs), count-sort_desc p xs)

  -- What is left out is not above what is taken.
  pub take-drop_desc :
      (n : ℕ) (xs : List A)
      → IsDescending key xs
      → All (λ x. All (λ y. key y ≤ key x) (drop n xs)) (take n xs)
  take-drop_desc zero xs h = tt
  take-drop_desc (suc n) [] h = tt
  take-drop_desc (suc n) (x ∷ xs) (p, h) =
      (All-drop (λ y. key y ≤ key x) n xs p, take-drop_desc n xs h)
