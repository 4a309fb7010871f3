-- ===== src/Keys/Refinement.antt =====
-- The registry of documents implements the keyrings.
use chameleon_vault.Prelude.{
  ℕ, ◌+◌, String, ◌≡◌, ◌⊎◌, refl, sym, ap, ◌∙◌, inl, inr, false, Option, none, some, List, [], ◌∷◌,
  ◌++◌, arith, ◌==◌, eq_iff, Docs, find, put, find-put_self, values, or_default, length, nat_beq,
  if◌then◌else◌, Bool-cases,
}
use mathlib.Core.Path.{subst}
use mathlib.Core.Option.{none-ne-some}
use chameleon_vault.Keys.Registry.{
  Keys, KeyMetadata, add_destination as add_to_list, doc_id, new_key, rotated_key, version_id,
  rotate_at, set_key_for_user, rotate_key_for_user, shred_key_for_user, add_destination_to_user,
  has_active_key_material, shred_fields, empty_key,
}
use chameleon_vault.Keys.Rotation.{IsVersioned, rotated_key-Rotated}
use chameleon_vault.Keys.Shredding.{
  KeyCall, set_key, rotate, shred, add_destination, apply, run, IsErased, rotate_erased,
}
use chameleon_vault.Keys.Isolation.{apply-other}
use chameleon_vault.Keys.Keyring.{
  Keyring, absent, live, erased, rotate_ring, act, target, run_ring, has_dek, view,
}
use chameleon_vault.Prelude.Decimal.{show}

-- A document that the registry itself has written.
abbrev Kept : Option KeyMetadata → Type 0
Kept none = Unit
Kept (some k) = IsVersioned k ⊎ IsErased k

-- The document after a call, and the keyring after its counterpart.
record Follows (c : KeyCall) (before after : Option KeyMetadata) : Type 0 where
  same : view after ≡ act c (view before)
  kept : Kept after

values-put_fresh :
    (id : String) (v : String) (m : Docs String)
    → find id m ≡ none
    → values (put id v m) ≡ values m ++ v ∷ []
unfolding values put find
values-put_fresh id v [] h = refl
values-put_fresh id v ((j, w) ∷ m) h = elim (Bool-cases (j == id)) [
  | inl here ↦ let clash : some w ≡ none = rw here at h in absurd (none-ne-some w (sym clash))
  | inr other ↦ rw (put, other) (ap (λ vs. w ∷ vs) (values-put_fresh id v m (rw other at h)))
]

view_versioned : (k : KeyMetadata) → IsVersioned k → view (some k) ≡ live (values k.deks)
view_versioned k v = rw v.status refl

view_erased : (k : KeyMetadata) → IsErased k → view (some k) ≡ erased
view_erased k e = rw e.status refl

rotated-Follows :
    (now : ℕ) (u dek t : String) (k : KeyMetadata)
    → IsVersioned k
    → Follows
        (rotate u dek t)
        (some k)
        (some (rotated_key now (version_id (length k.deks + 1)) dek k))
unfolding values
rotated-Follows now u dek t k v =
    let r = rotated_key-Rotated now dek k v in
    record {
      same =
          ap live (values-put_fresh (version_id (length k.deks + 1)) dek k.deks r.fresh)
          ∙ ap (rotate_ring dek) (sym (view_versioned k v));
      kept = inl r.versioned;
    }

-- The document with one more destination.
abbrev listed : String → KeyMetadata → KeyMetadata
listed d k = record k { destinations = some (add_to_list d k.destinations) }

listed-Kept : (d : String) (k : KeyMetadata) → Kept (some k) → Kept (some (listed d k))
listed-Kept d k (inl v) = inl (record {
  some_key = v.some_key;
  numbered = v.numbered;
  active_last = v.active_last;
  status = v.status;
})
listed-Kept d k (inr e) =
    inr (record { no_deks = e.no_deks; no_active = e.no_active; status = e.status })

module _ (now : ℕ) (m : Keys) where
  rotate-Follows :
      (u dek t : String) (o : Option KeyMetadata)
      → find (doc_id t u) m ≡ o
      → Kept o
      → Follows (rotate u dek t) o (find (doc_id t u) (rotate_at now (doc_id t u) dek o m).1)
  rotate-Follows u dek t none here h = rw here (record { same = refl; kept = tt })
  rotate-Follows u dek t (some k) here (inl v) =
      let id = doc_id t u in
      let wrote : find id (rotate_at now id dek (some k) m).1
          ≡ some (rotated_key now (version_id (length k.deks + 1)) dek k) =
        rw (rotate_at, v.status, v.active_last) (find-put_self id _ m) in
      rw wrote (rotated-Follows now u dek t k v)
  rotate-Follows u dek t (some k) here (inr e) =
      let unchanged : find (doc_id t u) (rotate_at now (doc_id t u) dek (some k) m).1 ≡ some k =
        rw (rotate_erased now (doc_id t u) dek k m e) here in
      rw unchanged (record {
        same = view_erased k e ∙ ap (rotate_ring dek) (sym (view_erased k e));
        kept = inr e;
      })

  own-Follows :
      (c : KeyCall)
      → Kept (find (target c) m)
      → Follows c (find (target c) m) (find (target c) (apply now c m))
  unfolding set_key_for_user rotate_key_for_user shred_key_for_user add_destination_to_user values
      version_id show
  own-Follows (set_key u d t) h = rw (find-put_self (doc_id t u) (new_key now u d) m) (record {
    same = refl;
    kept = inl (record {
      some_key = omega arith;
      numbered = (refl, tt);
      active_last = refl;
      status = refl;
    });
  })
  own-Follows (rotate u d t) h = rotate-Follows u d t (find (doc_id t u) m) refl h
  own-Follows (shred u t request) h =
      rw
        (find-put_self (doc_id t u)
          (shred_fields now request (or_default (find (doc_id t u) m) empty_key)) m)
        (record {
          same = refl;
          kept = inr (record { no_deks = refl; no_active = refl; status = refl });
        })
  own-Follows (add_destination u d t) h = tracked (find (doc_id t u) m) refl h
    where
      tracked :
          (o : Option KeyMetadata)
          → find (doc_id t u) m ≡ o
          → Kept o
          → Follows (add_destination u d t) o (find (doc_id t u) (add_destination_to_user u d t m))
      tracked none here h =
          rw (add_destination_to_user, here) (rw here (record { same = refl; kept = tt }))
      tracked (some k) here h =
          let wrote : find (doc_id t u) (add_destination_to_user u d t m) ≡ some (listed d k) =
            rw (add_destination_to_user, here) (find-put_self (doc_id t u) _ m) in
          rw wrote (record { same = refl; kept = listed-Kept d k h })

-- A call moves the document of any user as it moves that user's keyring.
step-Follows :
    (now : ℕ) (c : KeyCall) (id : String) (m : Keys)
    → Kept (find id m)
    → (view (find id (apply now c m))
        ≡ (if target c == id then act c (view (find id m)) else view (find id m)))
      × Kept (find id (apply now c m))
step-Follows now c id m h = elim (Bool-cases (target c == id)) [
  | inl mine ↦
      let same : target c ≡ id = (eq_iff (target c) id).0 mine in
      let f =
        subst (λ j. Kept (find j m) → Follows c (find j m) (find j (apply now c m))) same
          (own-Follows now m c) h in
      (rw mine f.same, f.kept)
  | inr other ↦
      let unchanged : find id (apply now c m) ≡ find id m =
        apply-other now c id m (λ same. cc (other, (eq_iff (target c) id).1 same)) in
      (rw (unchanged, other) refl, rw unchanged h)
]

run-view :
    (calls : List (ℕ × KeyCall)) (id : String) (m : Keys)
    → Kept (find id m)
    → (view (find id (run calls m)) ≡ run_ring id calls (view (find id m)))
      × Kept (find id (run calls m))
unfolding run run_ring
run-view [] id m h = (refl, h)
run-view ((now, c) ∷ cs) id m h =
    let (moved, kept) = step-Follows now c id m h in
    let (rest, last) = run-view cs id (apply now c m) kept in
    (rest ∙ ap (run_ring id cs) moved, last)

-- What the registry answers of a key is what its keyring says.
pub record Implements (r : Keyring) (user_id tenant_id : String) (m : Keys) : Type 0 where
  pub document : view (find (doc_id tenant_id user_id) m) ≡ r
  pub material : has_active_key_material user_id tenant_id m ≡ has_dek r

material-view :
    (user_id tenant_id : String) (m : Keys) (o : Option KeyMetadata)
    → find (doc_id tenant_id user_id) m ≡ o
    → Kept o
    → has_active_key_material user_id tenant_id m ≡ has_dek (view o)
unfolding has_active_key_material
material-view user_id tenant_id m none here h = rw (has_active_key_material, here) refl
material-view user_id tenant_id m (some k) here (inl v) =
    let some_key : nat_beq (length k.deks) 0 ≡ false = ground (arith, v.some_key) in
    rw (has_active_key_material, here, v.status, some_key) refl
material-view user_id tenant_id m (some k) here (inr e) =
    rw (has_active_key_material, here, e.status) refl

-- After any calls of the registry that starts empty, for any users and tenants, the document of each user
-- stands for the keyring that the calls for that document lead to, and the registry reports key material
-- exactly when the keyring is live.
pub run-Implements :
    (calls : List (ℕ × KeyCall)) (user_id tenant_id : String)
    → Implements (run_ring (doc_id tenant_id user_id) calls absent) user_id tenant_id (run calls [])
unfolding find
run-Implements calls user_id tenant_id =
    let id = doc_id tenant_id user_id in
    let (viewed, kept) = run-view calls id [] tt in
    record {
      document = viewed;
      material =
          material-view user_id tenant_id (run calls []) (find id (run calls [])) refl kept
          ∙ ap has_dek viewed;
    }
