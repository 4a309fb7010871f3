-- ===== src/Certificate/Exceptions.antt =====
-- What a certificate says of the backups of a customer's own tables.
use mathlib.Core.Path.{subst}
use mathlib.Core.List.{Memᴰ}
use mathlib.Core.List.Memᴰ
use chameleon_vault.Prelude.{
  sym, ap, ◌∙◌, ℕ, suc, ◌+◌, ◌≤◌, String, ◌≡◌, refl, ◌⊎◌, inl, inr, Bool, true, false, Option, none,
  some, List, [], ◌∷◌, map, ◌&&◌, arith, ok, All, All-append, keep, Bool-cases, if◌then◌else◌,
  values,
}
use chameleon_vault.Requests.Types.{Wipe}
use chameleon_vault.Declarations.Types.{PiiRegistryEntry}
use chameleon_vault.Certificate.Claims.{
  ExceptionStrategy, CertificateBackupImmunityItem, DestructionCertificateClaims,
  time_travel_ceiling_ms,
}
use chameleon_vault.Certificate.Destinations.{parse_source_redaction_destination}
use chameleon_vault.Certificate.Signer.{
  Evidence, SignerEnv, generate_claims, wipe_exceptions, exceptions_of, wipe_exception,
  shadow_exceptions, shadow_exception, succeeded, found_nothing,
  get_manual_registry_entries_for_tenant, of_tenant, has_shadow_copy,
}
use chameleon_vault.Certificate.Soundness.{generated}

-- Backups are called immune only where nothing but ciphertext was stored, or where the longest
-- time-travel window had passed at some reading of the clock.
abbrev pub Honest : (ℕ → ℕ) → CertificateBackupImmunityItem → Type 0
Honest clock i =
    i.backup_immune ≡ true
    → (i.strategy ≡ ExceptionStrategy.encrypted_copy)
      ⊎ ((n : ℕ) × (at : ℕ) × (i.redacted_at ≡ some at) × (at + time_travel_ceiling_ms ≤ clock n))

wipe_exception-Honest :
    (clock : ℕ → ℕ) (n at : ℕ) (p : String × ExceptionStrategy)
    → Honest clock (wipe_exception (clock n) at p)
wipe_exception-Honest clock n at (r, ExceptionStrategy.encrypted_copy) h = inl refl
wipe_exception-Honest clock n at (r, ExceptionStrategy.redact_in_place) h =
    inr (n, at, refl, ground arith)
wipe_exception-Honest clock n at (r, ExceptionStrategy.shadow_copy) h =
    inr (n, at, refl, ground arith)

one-Honest :
    (clock : ℕ → ℕ) (n at : ℕ) (o : Option (String × ExceptionStrategy))
    → All (Honest clock) (elim o [ none ↦ [] | some p ↦ wipe_exception (clock n) at p ∷ [] ])
one-Honest clock n at none = tt
one-Honest clock n at (some p) = (wipe_exception-Honest clock n at p, tt)

exceptions_of-Honest :
    (clock : ℕ → ℕ) (n : ℕ) (w : Wipe) → All (Honest clock) (exceptions_of (clock n) w)
unfolding exceptions_of
exceptions_of-Honest clock n w =
    elim (Bool-cases (succeeded w && (if found_nothing w then false else true))) [
      | inl e ↦
          rw e (one-Honest clock n w.updated_at (parse_source_redaction_destination w.destination))
      | inr e ↦ rw e tt
    ]

wipe_exceptions-Honest :
    (clock : ℕ → ℕ) (n : ℕ) (ws : List Wipe) → All (Honest clock) (wipe_exceptions clock n ws)
unfolding wipe_exceptions
wipe_exceptions-Honest clock n [] = tt
wipe_exceptions-Honest clock n (w ∷ ws) =
    All-append (Honest clock) (exceptions_of (clock n) w) _ (exceptions_of-Honest clock n w)
      (wipe_exceptions-Honest clock (suc n) ws)

shadow_exceptions-Honest :
    (clock : ℕ → ℕ) (es : List PiiRegistryEntry) → All (Honest clock) (shadow_exceptions es)
unfolding shadow_exceptions
shadow_exceptions-Honest clock es = go (keep has_shadow_copy es)
  where
    go : (xs : List PiiRegistryEntry) → All (Honest clock) (map shadow_exception xs)
    go [] = tt
    go (x ∷ xs) = ((λ h. ground arith), go xs)

kept :
    {A : Type 0} (p : A → Bool) (x : A) (xs : List A) → Memᴰ x xs → p x ≡ true → Memᴰ x (keep p xs)
kept p x [] m h = elim m [ ]
kept p x (y ∷ ys) (Memᴰ.head e) h = let h' : p y ≡ true = ap p (sym e) ∙ h in rw h' (Memᴰ.head e)
kept p x (y ∷ ys) (Memᴰ.tail m) h = elim (Bool-cases (p y)) [
  | inl e ↦ rw e (Memᴰ.tail (kept p x ys m h))
  | inr e ↦ rw e (kept p x ys m h)
]

mapped : {A B : Type 0} (f : A → B) (x : A) (xs : List A) → Memᴰ x xs → Memᴰ (f x) (map f xs)
mapped f x [] m = elim m [ ]
mapped f x (y ∷ ys) (Memᴰ.head e) = Memᴰ.head (ap f e)
mapped f x (y ∷ ys) (Memᴰ.tail m) = Memᴰ.tail (mapped f x ys m)

module _ (env : SignerEnv) (user_id tenant_id : String) (request : Option String)
    (ghosts known : List String) (s : Evidence) (c : DestructionCertificateClaims)
    (made : generate_claims env user_id tenant_id request ghosts known s ≡ ok c) where
  -- Every exception that calls backups immune is for ciphertext, or for a redaction at least 168
  -- hours before a reading of the clock.
  pub generate_claims-Honest : All (Honest env.clock) c.source_redaction_exceptions
  generate_claims-Honest =
      let (k, r, fingerprint, ek, hk, er, hr, same) =
        generated env user_id tenant_id request ghosts known s c made in
      subst
        (λ (d : DestructionCertificateClaims). All (Honest env.clock) d.source_redaction_exceptions)
        same
        (All-append (Honest env.clock) (wipe_exceptions env.clock 0 r.janitor_wipes) _
          (wipe_exceptions-Honest env.clock 0 r.janitor_wipes)
          (shadow_exceptions-Honest env.clock _))

  -- Each resource that the tenant has declared with a shadow copy is disclosed as not immune.
  pub shadow_copies_disclosed :
      (e : PiiRegistryEntry)
      → Memᴰ e (values s.declarations)
      → of_tenant tenant_id e ≡ true
      → has_shadow_copy e ≡ true
      → Memᴰ (shadow_exception e) c.source_redaction_exceptions
  unfolding shadow_exceptions get_manual_registry_entries_for_tenant
  shadow_copies_disclosed e m t h =
      let (k, r, fingerprint, ek, hk, er, hr, same) =
        generated env user_id tenant_id request ghosts known s c made in
      subst
        (λ (d : DestructionCertificateClaims).
          Memᴰ (shadow_exception e) d.source_redaction_exceptions)
        same
        (Memᴰ.append_right (wipe_exceptions env.clock 0 r.janitor_wipes) (
          mapped shadow_exception e _
            (kept has_shadow_copy e _ (kept (of_tenant tenant_id) e _ m t) h)))
