-- ===== src/Prelude/Stable.antt =====
-- `[...xs].sort(compare)`, which is stable: elements that do not differ keep their order.
use mathlib.Core.Path.{◌≡◌, refl}
use mathlib.Core.Logic.{inl, inr}
use mathlib.Core.Bool.{Bool, true, false}
use mathlib.Core.List.{List, [], ◌∷◌}
use native.Mathlib.Omega.{arith}
use chameleon_vault.Prelude.Tests.{if◌then◌else◌, Bool-cases}
use chameleon_vault.Prelude.Lists.{All, length, keep}

-- `later a b`: `a` must stand behind `b`.
module _ {ℓ} {A : Type ℓ} (later : A → A → Bool) where
  unfoldable pub insert_by : A → List A → List A
  insert_by a [] = a ∷ []
  insert_by a (x ∷ xs) = if later a x then x ∷ insert_by a xs else a ∷ x ∷ xs

  unfoldable pub sort_by : List A → List A
  unfolding insert_by
  sort_by [] = []
  sort_by (x ∷ xs) = insert_by x (sort_by xs)

  -- No element must stand behind one that follows it.
  abbrev pub IsOrdered : List A → Type ℓ
  IsOrdered [] = Unit
  IsOrdered (x ∷ xs) = All (λ y. later x y ≡ false) xs × IsOrdered xs

  count-insert_by :
      (p : A → Bool) (a : A) (xs : List A)
      → length (keep p (insert_by a xs)) ≡ length (keep p (a ∷ xs))
  unfolding insert_by
  count-insert_by p a [] = refl
  count-insert_by p a (x ∷ xs) = ground (arith, count-insert_by p a xs)

  -- As many elements pass a test as before: nothing is lost, added or doubled.
  pub count-sort_by :
      (p : A → Bool) (xs : List A) → length (keep p (sort_by xs)) ≡ length (keep p xs)
  unfolding sort_by
  count-sort_by p [] = refl
  count-sort_by p (x ∷ xs) = ground (arith, count-insert_by p x (sort_by xs), count-sort_by p xs)

  abbrev pub IsAsymmetric : Type ℓ
  IsAsymmetric = (a b : A) → later a b ≡ true → later b a ≡ false

  -- What is not behind composes.
  abbrev pub IsTransitive : Type ℓ
  IsTransitive = (a b c : A) → later a b ≡ false → later b c ≡ false → later a c ≡ false

  module _ (asymmetric : IsAsymmetric) (transitive : IsTransitive) where
    All-insert_by :
        (x a : A) (xs : List A)
        → later x a ≡ false
        → All (λ y. later x y ≡ false) xs
        → All (λ y. later x y ≡ false) (insert_by a xs)
    unfolding insert_by
    All-insert_by x a [] h k = (h, tt)
    All-insert_by x a (y ∷ ys) h (p, k) = elim (Bool-cases (later a y)) [
      | inl e ↦ rw e (p, All-insert_by x a ys h k)
      | inr e ↦ rw e (h, (p, k))
    ]

    All-before :
        (a x : A) (xs : List A)
        → later a x ≡ false
        → All (λ y. later x y ≡ false) xs
        → All (λ y. later a y ≡ false) xs
    All-before a x [] h k = tt
    All-before a x (y ∷ ys) h (p, k) = (transitive a x y h p, All-before a x ys h k)

    insert_by-IsOrdered : (a : A) (xs : List A) → IsOrdered xs → IsOrdered (insert_by a xs)
    unfolding insert_by
    insert_by-IsOrdered a [] h = (tt, tt)
    insert_by-IsOrdered a (x ∷ xs) (p, h) = elim (Bool-cases (later a x)) [
      | inl e ↦ rw e (All-insert_by x a xs (asymmetric a x e) p, insert_by-IsOrdered a xs h)
      | inr e ↦ rw e ((e, All-before a x xs e p), (p, h))
    ]

    pub sort_by-IsOrdered : (xs : List A) → IsOrdered (sort_by xs)
    unfolding sort_by
    sort_by-IsOrdered [] = tt
    sort_by-IsOrdered (x ∷ xs) = insert_by-IsOrdered x (sort_by xs) (sort_by-IsOrdered xs)
