-- ===== src/Prelude/Effects.antt =====
-- Asynchronous methods that change a store and may throw: what was written before a throw stays.
use mathlib.Core.Path.{◌≡◌, refl, ap, ◌∙◌}
use mathlib.Core.Bool.{Bool, true, false, false≢true}
use mathlib.Core.Logic.{◌⊎◌, inl, inr}

pub data Result {ℓ κ} (E : Type ℓ) (A : Type κ) : Type (ℓ ⊔ κ) where
  ok : A → Result E A
  err : E → Result E A

is_ok {ℓ κ} : {E : Type ℓ} {A : Type κ} → Result E A → Bool
is_ok (ok a) = true
is_ok (err e) = false

pub err-ne-ok {ℓ κ} :
    {E : Type ℓ} {A : Type κ} (e : E) (a : A) → ¬ (◌≡◌ {A = Result E A} (err e) (ok a))
unfolding is_ok
err-ne-ok e a h = false≢true (ap is_ok h)

value_or {ℓ κ} : {E : Type ℓ} {A : Type κ} → A → Result E A → A
value_or a (ok x) = x
value_or a (err e) = a

pub ok-injective {ℓ κ} :
    {E : Type ℓ} {A : Type κ} (a b : A) → ◌≡◌ {A = Result E A} (ok a) (ok b) → a ≡ b
unfolding value_or
ok-injective a b h = ap (value_or a) h

pub Result-cases {ℓ κ} :
    {E : Type ℓ} {A : Type κ} (r : Result E A) → ((a : A) × (r ≡ ok a)) ⊎ ((e : E) × (r ≡ err e))
Result-cases (ok a) = inl (a, refl)
Result-cases (err e) = inr (e, refl)

abbrev pub Exec {ℓ} : Type ℓ → Type ℓ → Type ℓ → Type ℓ
Exec E S A = S → Result E A × S

module _ {ℓ} {E S A : Type ℓ} where
  abbrev pub pure : A → Exec E S A
  pure a s = (ok a, s)

  -- `throw e`
  abbrev pub raise : E → Exec E S A
  raise e s = (err e, s)

  abbrev pub gets : (S → A) → Exec E S A
  gets f s = (ok (f s), s)

  abbrev pub handle_err : (E → Exec E S A) → Result E A × S → Result E A × S
  handle_err f (ok a, s) = (ok a, s)
  handle_err f (err e, s) = f e s

  -- `try { m } catch (e) { f(e) }`
  abbrev pub catch : Exec E S A → (E → Exec E S A) → Exec E S A
  catch m f s = handle_err f (m s)

module _ {ℓ} {E S A B : Type ℓ} where
  abbrev pub follow : (A → Exec E S B) → Result E A × S → Result E B × S
  follow f (ok a, s) = f a s
  follow f (err e, s) = (err e, s)

  infixl 5 ◌>>=◌ ◌>>◌
  abbrev pub ◌>>=◌ : Exec E S A → (A → Exec E S B) → Exec E S B
  ◌>>=◌ m f s = follow f (m s)

  abbrev pub ◌>>◌ : Exec E S A → Exec E S B → Exec E S B
  m >> n = m >>= λ _. n

  -- What ran before a step that answered has answered.
  pub bind-ok :
      (m : Exec E S A) (f : A → Exec E S B) (s : S) (b : B) (s' : S)
      → (m >>= f) s ≡ (ok b, s')
      → (a : A) × (t : S) × (m s ≡ (ok a, t)) × (f a t ≡ (ok b, s'))
  bind-ok m f s b s' h = go (m s) refl h
    where
      go :
          (p : Result E A × S)
          → m s ≡ p
          → follow f p ≡ (ok b, s')
          → (a : A) × (t : S) × (m s ≡ (ok a, t)) × (f a t ≡ (ok b, s'))
      go (ok a, t) e h = (a, t, e, h)
      go (err e, t) _ h = absurd (err-ne-ok e b (ap (λ (p : Result E B × S). p.0) h))

  -- Two continuations with the same answers give the same answer.
  pub bind-answer :
      (m : Exec E S A) (f g : A → Exec E S B) (s : S)
      → ((a : A) (t : S) → (f a t).0 ≡ (g a t).0)
      → ((m >>= f) s).0 ≡ ((m >>= g) s).0
  bind-answer m f g s h = go (m s)
    where
      go : (p : Result E A × S) → (follow f p).0 ≡ (follow g p).0
      go (ok a, t) = h a t
      go (err e, t) = refl

  -- What both steps keep is kept.
  pub bind-keeps {κ} :
      {C : Type κ} (part : S → C) (m : Exec E S A) (f : A → Exec E S B) (s : S)
      → part (m s).1 ≡ part s
      → ((a : A) (t : S) → part (f a t).1 ≡ part t)
      → part ((m >>= f) s).1 ≡ part s
  bind-keeps part m f s h k = go (m s) h
    where
      go : (p : Result E A × S) → part p.1 ≡ part s → part (follow f p).1 ≡ part s
      go (ok a, t) e = k a t ∙ e
      go (err e, t) e' = e'

module _ {ℓ} {E S A : Type ℓ} where
  -- An answer that needs no change of the store.
  abbrev pub lift : Result E A → Exec E S A
  lift r s = (r, s)

  -- `m.catch(err => logger.error(...))`: a failure is swallowed.
  abbrev pub best_effort : Exec E S A → S → S
  best_effort m s = (m s).1
