-- ===== src/Keys/Rotation.antt =====
-- Rotation: the new version is fresh, and every older one still decrypts.
use text.Mathlib.TextLemmas.{append_cancel_left}
use chameleon_vault.Prelude.{
  ℕ, suc, ◌+◌, ◌<◌, String, ◌≡◌, refl, sym, ap, ◌∙◌, inl, inr, none, some, [], ◌∷◌, arith, ◌==◌,
  eq_iff, Docs, find, put, find-put, find-put_self, ok, Bool-cases, length,
}
use chameleon_vault.Prelude.Decimal.{show, show-injective}
use chameleon_vault.Keys.Registry.{
  Keys, KeyMetadata, active, doc_id, set_key_for_user, rotate_key_for_user, rotated_key, new_key,
  version_id,
}

version_id-injective : (m n : ℕ) → version_id m ≡ version_id n → m ≡ n
unfolding version_id
version_id-injective m n e = show-injective m n (append_cancel_left "v" (show m) (show n) e)

-- The entries carry the ids v(k+1), v(k+2), and so on, in this order.
abbrev pub NumberedFrom : ℕ → Docs String → Type 0
NumberedFrom k [] = Unit
NumberedFrom k ((id, dek) ∷ rest) = (id ≡ version_id (suc k)) × NumberedFrom (suc k) rest

fresh_version :
    (k n : ℕ) (deks : Docs String)
    → NumberedFrom k deks
    → k + length deks < n
    → find (version_id n) deks ≡ none
unfolding find
fresh_version k n [] h lt = refl
fresh_version k n ((id, dek) ∷ rest) (e, h) lt = elim (Bool-cases (id == version_id n)) [
  | inl same ↦
      absurd
        (omega (arith, version_id-injective (suc k) n (sym e ∙ (eq_iff id (version_id n)).0 same)))
  | inr other ↦ rw other (fresh_version (suc k) n rest h (omega arith))
]

put_fresh-NumberedFrom :
    (k : ℕ) (dek : String) (deks : Docs String)
    → NumberedFrom k deks
    → (n : ℕ) → n ≡ suc (k + length deks)
    → NumberedFrom k (put (version_id n) dek deks)
      × (length (put (version_id n) dek deks) ≡ suc (length deks))
unfolding put
put_fresh-NumberedFrom k dek [] h n e = ((ap version_id (omega arith), tt), refl)
put_fresh-NumberedFrom k dek ((id, d) ∷ rest) (first, h) n e =
    elim (Bool-cases (id == version_id n)) [
      | inl same ↦ absurd (
          omega
            (arith, version_id-injective (suc k) n (sym first ∙ (eq_iff id (version_id n)).0 same)))
      | inr other ↦
          let (ih, len) = put_fresh-NumberedFrom (suc k) dek rest h n (omega arith) in
          rw other ((first, ih), ap suc len)
    ]

-- A key as `setKeyForUser` and `rotateKeyForUser` leave it: versions v1 to vn, the last one active.
pub record IsVersioned (k : KeyMetadata) : Type 0 where
  pub some_key : 0 < length k.deks
  pub numbered : NumberedFrom 0 k.deks
  pub active_last : k.active_dek_id ≡ some (version_id (length k.deks))
  pub status : k.status ≡ active

pub set_key-IsVersioned :
    (now : ℕ) (user_id dek tenant_id : String) (m : Keys)
    → (k : KeyMetadata) × (find
          (doc_id tenant_id user_id)
          (set_key_for_user now user_id dek tenant_id m)
        ≡ some k)
      × IsVersioned k
unfolding set_key_for_user version_id show
set_key-IsVersioned now user_id dek tenant_id m = (
  new_key now user_id dek,
  find-put_self (doc_id tenant_id user_id) _ m,
  record { some_key = omega arith; numbered = (refl, tt); active_last = refl; status = refl },
)

-- What a rotation leaves behind.
pub record Rotated (dek id : String) (old new : KeyMetadata) : Type 0 where
  pub fresh : find id old.deks ≡ none
  pub stored : find id new.deks ≡ some dek
  pub is_active : new.active_dek_id ≡ some id
  pub kept :
      (version : String) (d : String)
      → find version old.deks ≡ some d
      → find version new.deks ≡ some d
  pub versioned : IsVersioned new

pub rotated_key-Rotated :
    (now : ℕ) (dek : String) (k : KeyMetadata)
    → IsVersioned k
    → let id = version_id (length k.deks + 1) in Rotated dek id k (rotated_key now id dek k)
rotated_key-Rotated now dek k v =
    let n = length k.deks + 1 in
    let id = version_id n in
    let fresh = fresh_version 0 n k.deks v.numbered (omega arith) in
    let (numbered, len) = put_fresh-NumberedFrom 0 dek k.deks v.numbered n (omega arith) in
    record {
      fresh = fresh;
      stored = find-put_self id dek k.deks;
      is_active = refl;
      kept = λ version d e. ground (arith, find-put id version dek k.deks, eq_iff id version);
      versioned = record {
        some_key = omega arith;
        numbered = numbered;
        active_last = ap (λ (i : ℕ). some (version_id i)) (omega arith);
        status = refl;
      };
    }

-- A rotation of a versioned key succeeds. Its version id was not in use, it is now the active one
-- and holds the new DEK; every version that was there still holds its DEK; and the key is versioned
-- again, so that any number of rotations goes on like this.
pub rotate-Rotated :
    (now : ℕ) (user_id dek tenant_id : String) (m : Keys) (k : KeyMetadata)
    → find (doc_id tenant_id user_id) m ≡ some k
    → IsVersioned k
    → (id : String) × (new : KeyMetadata) × (rotate_key_for_user now user_id dek tenant_id m
        ≡ (ok id, put (doc_id tenant_id user_id) new m))
      × Rotated dek id k new
unfolding rotate_key_for_user
rotate-Rotated now user_id dek tenant_id m k here v =
    let id = version_id (length k.deks + 1) in
    (
      id,
      rotated_key now id dek k,
      ground (arith, v.status, v.active_last),
      rotated_key-Rotated now dek k v,
    )
