-- ===== src/Prelude/Collections.antt =====
-- A Firestore collection, a `Map` or an object keyed by text: an association list in which a key
-- that is written again keeps its place, as in a JavaScript `Map`.
use Prim.Native.String.{String}
use mathlib.Core.Path.{◌≡◌, refl}
use mathlib.Core.Logic.{◌≢◌}
use mathlib.Core.Option.{Option, none, some}
use mathlib.Core.List.{List, [], ◌∷◌}
use native.Mathlib.Omega.{arith}
use text.Mathlib.Text.{◌==◌}
use text.Mathlib.TextEquality.{eq_iff}
use text.Mathlib.TextPositions.{eq_refl}
use chameleon_vault.Prelude.Tests.{if◌then◌else◌}

abbrev pub Docs {ℓ} : Type ℓ → Type ℓ
Docs V = List (String × V)

module _ {ℓ} {V : Type ℓ} where
  unfoldable pub find : String → Docs V → Option V
  find k [] = none
  find k ((j, v) ∷ m) = if j == k then some v else find k m

  unfoldable pub put : String → V → Docs V → Docs V
  put k v [] = (k, v) ∷ []
  put k v ((j, w) ∷ m) = if j == k then (j, v) ∷ m else (j, w) ∷ put k v m

  unfoldable pub delete : String → Docs V → Docs V
  delete k [] = []
  delete k ((j, w) ∷ m) = let rest = delete k m in if j == k then rest else (j, w) ∷ rest

  -- The documents, oldest key first.
  unfoldable pub values : Docs V → List V
  values [] = []
  values ((j, v) ∷ m) = v ∷ values m

  pub find-put :
      (k j : String) (v : V) (m : Docs V)
      → find j (put k v m) ≡ (if k == j then some v else find j m)
  unfolding find put
  find-put k j v [] = refl
  find-put k j v ((i, w) ∷ m) = ground (arith, eq_iff k j, eq_iff i k, eq_iff i j, find-put k j v m)

  pub find-put_self : (k : String) (v : V) (m : Docs V) → find k (put k v m) ≡ some v
  find-put_self k v m = simp (find-put, eq_refl)

  pub find-put_ne : (k j : String) (v : V) (m : Docs V) → k ≢ j → find j (put k v m) ≡ find j m
  find-put_ne k j v m h = ground (arith, find-put k j v m, eq_iff k j)

  pub find-delete :
      (k j : String) (m : Docs V) → find j (delete k m) ≡ (if k == j then none else find j m)
  unfolding find delete
  find-delete k j [] = ground arith
  find-delete k j ((i, w) ∷ m) =
      ground (arith, eq_iff k j, eq_iff i k, eq_iff i j, find-delete k j m)
