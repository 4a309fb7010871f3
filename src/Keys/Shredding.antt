-- ===== src/Keys/Shredding.antt =====
-- What `shredKeyForUser` destroys, and that nothing but a new key brings a key back.
use chameleon_vault.Prelude.{
  ℕ, String, ◌≡◌, refl, ◌≢◌, ◌⊎◌, inl, inr, false, Option, none, some, List, [], ◌∷◌, arith, ◌==◌,
  eq_iff, find, put, find-put, find-put_self, err, length, ◌+◌, Bool-cases, Option-cases, All,
}
use chameleon_vault.Fault.{key_is_shredded}
use chameleon_vault.Keys.Registry.{
  Keys, KeyMetadata, shredded, doc_id, get_key_for_user, set_key_for_user, rotate_at,
  rotate_key_for_user, shred_key_for_user, has_active_key_material, KeyStatus, get_key_status,
  key_status_of, is_exactly_shredded, rotated_key, version_id, add_destination_to_user,
}

-- The document of a shredded key: no DEK, no active id, and the status.
pub record IsErased (k : KeyMetadata) : Type 0 where
  pub no_deks : k.deks ≡ []
  pub no_active : k.active_dek_id ≡ none
  pub status : k.status ≡ shredded

-- The document at an id is that of a shredded key.
abbrev pub ErasedAt : String → Keys → Type 0
ErasedAt id m = (k : KeyMetadata) × (find id m ≡ some k) × IsErased k

-- What a user of the registry can still learn of a key.
pub record Unreadable (now : ℕ) (user_id tenant_id : String) (m : Keys) : Type 0 where
  pub no_version : (version : Option String) → get_key_for_user user_id tenant_id version m ≡ none
  pub no_material : has_active_key_material user_id tenant_id m ≡ false
  pub reported :
      (s : KeyStatus) × (get_key_status now user_id tenant_id m ≡ some s) × (s.status ≡ shredded)

pub ErasedAt-Unreadable :
    (now : ℕ) (user_id tenant_id : String) (m : Keys)
    → ErasedAt (doc_id tenant_id user_id) m
    → Unreadable now user_id tenant_id m
unfolding get_key_for_user has_active_key_material get_key_status
ErasedAt-Unreadable now user_id tenant_id m (k, here, e) = record {
  no_version = λ v. ground (arith, e.status);
  no_material = ground (arith, e.status);
  reported = (key_status_of now k, ground arith, e.status);
}

shred-ErasedAt :
    (now : ℕ) (user_id tenant_id : String) (request : Option String) (m : Keys)
    → ErasedAt (doc_id tenant_id user_id) (shred_key_for_user now user_id tenant_id request m)
unfolding shred_key_for_user
shred-ErasedAt now user_id tenant_id request m = (
  _,
  find-put_self (doc_id tenant_id user_id) _ m,
  record { no_deks = refl; no_active = refl; status = refl },
)

-- The calls that write to the registry. `set_key` is `POST /key/generate` and its batch form.
pub data KeyCall : Type 0 where
  set_key : (user_id dek tenant_id : String) → KeyCall
  rotate : (user_id dek tenant_id : String) → KeyCall
  shred : (user_id tenant_id : String) → Option String → KeyCall
  add_destination : (user_id destination tenant_id : String) → KeyCall

abbrev pub apply : ℕ → KeyCall → Keys → Keys
apply now (set_key u d t) m = set_key_for_user now u d t m
apply now (rotate u d t) m = (rotate_key_for_user now u d t m).1
apply now (shred u t r) m = shred_key_for_user now u t r m
apply now (add_destination u d t) m = add_destination_to_user u d t m

unfoldable pub run : List (ℕ × KeyCall) → Keys → Keys
run [] m = m
run ((now, c) ∷ cs) m = run cs (apply now c m)

-- The call does not set a new key in this document.
abbrev pub Spares : String → ℕ × KeyCall → Type 0
Spares id (now, set_key u d t) = doc_id t u ≢ id
Spares id (now, rotate u d t) = Unit
Spares id (now, shred u t r) = Unit
Spares id (now, add_destination u d t) = Unit

put-ErasedAt :
    (j id : String) (k : KeyMetadata) (m : Keys)
    → (j ≡ id → IsErased k)
    → ErasedAt id m
    → ErasedAt id (put j k m)
put-ErasedAt j id k m same (k', here, e) = elim (Bool-cases (j == id)) [
  | inl eq ↦ (k, rw (find-put j id k m, eq), same ((eq_iff j id).0 eq))
  | inr ne ↦ (k', rw (find-put j id k m, ne) here, e)
]

found-IsErased :
    (j id : String) (k : KeyMetadata) (m : Keys)
    → find j m ≡ some k
    → ErasedAt id m
    → j ≡ id
    → IsErased k
found-IsErased j id k m here (k', there, e) same = let eq : k' ≡ k = cc in rw (← eq) e

-- A rotation leaves the registry as it was, or writes the one document.
pub rotate_at-cases :
    (now : ℕ) (j dek : String) (k : KeyMetadata) (m : Keys)
    → ((rotate_at now j dek (some k) m).1 ≡ m)
      ⊎ ((k' : KeyMetadata) × ((rotate_at now j dek (some k) m).1 ≡ put j k' m))
rotate_at-cases now j dek k m = elim (Bool-cases (is_exactly_shredded k.status)) [
  | inl e ↦ inl (ground arith)
  | inr e ↦ elim (Option-cases k.active_dek_id) [
    | inl none_active ↦ inl (ground arith)
    | inr (a, some_active) ↦
        inr (rotated_key now (version_id (length k.deks + 1)) dek k, ground arith)
  ]
]

pub rotate_erased :
    (now : ℕ) (j dek : String) (k : KeyMetadata) (m : Keys)
    → IsErased k
    → rotate_at now j dek (some k) m ≡ (err key_is_shredded, m)
rotate_erased now j dek k m e = ground (arith, e.status)

rotate-ErasedAt :
    (now : ℕ) (j dek id : String) (m : Keys)
    → ErasedAt id m
    → ErasedAt id (rotate_at now j dek (find j m) m).1
rotate-ErasedAt now j dek id m h = elim (Option-cases (find j m)) [
  | inl e ↦ rw e h
  | inr (k, e) ↦ elim (Bool-cases (j == id)) [
    | inl same ↦
        rw (e, rotate_erased now j dek k m (found-IsErased j id k m e h ((eq_iff j id).0 same))) h
    | inr other ↦ elim (rotate_at-cases now j dek k m) [
      | inl kept ↦ rw e (rw kept h)
      | inr (k', wrote) ↦
          rw e (rw wrote (put-ErasedAt j id k' m (λ same. cc (other, (eq_iff j id).1 same)) h))
    ]
  ]
]

add_destination-ErasedAt :
    (u d t id : String) (m : Keys) → ErasedAt id m → ErasedAt id (add_destination_to_user u d t m)
unfolding add_destination_to_user
add_destination-ErasedAt u d t id m h = elim (Option-cases (find (doc_id t u) m)) [
  | inl e ↦ rw (e, add_destination_to_user) h
  | inr (k, e) ↦
      rw (e, add_destination_to_user)
        (put-ErasedAt (doc_id t u) id _ m
          (λ same.
            let old = found-IsErased (doc_id t u) id k m e h same in
            record { no_deks = old.no_deks; no_active = old.no_active; status = old.status })
          h)
]

apply-ErasedAt :
    (now : ℕ) (c : KeyCall) (id : String) (m : Keys)
    → Spares id (now, c)
    → ErasedAt id m
    → ErasedAt id (apply now c m)
unfolding set_key_for_user rotate_key_for_user shred_key_for_user
apply-ErasedAt now (set_key u d t) id m s h =
    put-ErasedAt (doc_id t u) id _ m (λ same. absurd (s same)) h
apply-ErasedAt now (rotate u d t) id m s h = rotate-ErasedAt now (doc_id t u) d id m h
apply-ErasedAt now (shred u t r) id m s h =
    put-ErasedAt (doc_id t u) id _ m
      (λ same. record { no_deks = refl; no_active = refl; status = refl }) h
apply-ErasedAt now (add_destination u d t) id m s h = add_destination-ErasedAt u d t id m h

run-ErasedAt :
    (calls : List (ℕ × KeyCall)) (id : String) (m : Keys)
    → All (Spares id) calls
    → ErasedAt id m
    → ErasedAt id (run calls m)
unfolding run
run-ErasedAt [] id m s h = h
run-ErasedAt ((now, c) ∷ cs) id m (s, ss) h =
    run-ErasedAt cs id (apply now c m) ss (apply-ErasedAt now c id m s h)

-- No sequence of calls that sets no new key for this user brings the key back: whatever is rotated,
-- shredded again or tracked, in any order, no version of it can be read and the registry reports it
-- as shredded.
pub shred_forever :
    (now later : ℕ) (user_id tenant_id : String) (request : Option String)
    (calls : List (ℕ × KeyCall)) (m : Keys)
    → All (Spares (doc_id tenant_id user_id)) calls
    → Unreadable later user_id tenant_id
        (run calls (shred_key_for_user now user_id tenant_id request m))
shred_forever now later user_id tenant_id request calls m spared =
    ErasedAt-Unreadable later user_id tenant_id _ (
      run-ErasedAt calls (doc_id tenant_id user_id) _ spared
        (shred-ErasedAt now user_id tenant_id request m))
