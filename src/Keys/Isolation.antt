-- ===== src/Keys/Isolation.antt =====
-- `${tenantId}:${userId}` keeps the keys of different tenants and users apart.
use chameleon_vault.Prelude.{
  ℕ, String, ◌≡◌, ◌≢◌, ◌⊎◌, inl, inr, Option, find, find-put_ne, Option-cases,
}
use chameleon_vault.Prelude.Decimal.{Lacks, joined-injective}
use chameleon_vault.Keys.Registry.{
  Keys, doc_id, get_key_for_user, has_active_key_material, set_key_for_user, rotate_key_for_user,
  shred_key_for_user, add_destination_to_user,
}
use chameleon_vault.Keys.Shredding.{
  KeyCall, set_key, rotate, shred, add_destination, apply, rotate_at-cases,
}

-- User ids pass `userIdSchema`, which lets no colon through.
abbrev pub NoColon : String → Type 0
NoColon s = Lacks b':' s

pub doc_id-injective :
    (t t' u u' : String) → NoColon u → NoColon u' → doc_id t u ≡ doc_id t' u' → (t ≡ t') × (u ≡ u')
doc_id-injective t t' u u' h h' e = joined-injective ":" t t' u u' h h' e

-- Whom a call is about.
abbrev pub tenant_of : KeyCall → String
tenant_of (set_key u d t) = t
tenant_of (rotate u d t) = t
tenant_of (shred u t r) = t
tenant_of (add_destination u d t) = t

abbrev pub user_of : KeyCall → String
user_of (set_key u d t) = u
user_of (rotate u d t) = u
user_of (shred u t r) = u
user_of (add_destination u d t) = u

rotate-other :
    (now : ℕ) (u d t id : String) (m : Keys)
    → doc_id t u ≢ id
    → find id (rotate_key_for_user now u d t m).1 ≡ find id m
unfolding rotate_key_for_user
rotate-other now u d t id m ne = elim (Option-cases (find (doc_id t u) m)) [
  | inl e ↦ rw (e, rotate_key_for_user)
  | inr (k, e) ↦
      rw (e, rotate_key_for_user)
        (elim (rotate_at-cases now (doc_id t u) d k m) [
          | inl kept ↦ rw kept
          | inr (k', wrote) ↦ rw wrote (find-put_ne (doc_id t u) id k' m ne)
        ])
]

add-other :
    (u d t id : String) (m : Keys)
    → doc_id t u ≢ id
    → find id (add_destination_to_user u d t m) ≡ find id m
unfolding add_destination_to_user
add-other u d t id m ne = elim (Option-cases (find (doc_id t u) m)) [
  | inl e ↦ rw (e, add_destination_to_user)
  | inr (k, e) ↦ rw (e, add_destination_to_user) (find-put_ne (doc_id t u) id _ m ne)
]

pub apply-other :
    (now : ℕ) (c : KeyCall) (id : String) (m : Keys)
    → doc_id (tenant_of c) (user_of c) ≢ id
    → find id (apply now c m) ≡ find id m
unfolding set_key_for_user shred_key_for_user
apply-other now (set_key u d t) id m ne = find-put_ne (doc_id t u) id _ m ne
apply-other now (rotate u d t) id m ne = rotate-other now u d t id m ne
apply-other now (shred u t r) id m ne = find-put_ne (doc_id t u) id _ m ne
apply-other now (add_destination u d t) id m ne = add-other u d t id m ne

-- A call for another tenant or another user, both ids without a colon, changes nothing that this
-- user of this tenant can read, whatever the tenants are called.
pub key_isolation :
    (now : ℕ) (c : KeyCall) (user_id tenant_id : String) (version : Option String) (m : Keys)
    → NoColon user_id
    → NoColon (user_of c)
    → (tenant_of c ≢ tenant_id) ⊎ (user_of c ≢ user_id)
    → (get_key_for_user user_id tenant_id version (apply now c m)
        ≡ get_key_for_user user_id tenant_id version m)
      × (has_active_key_material user_id tenant_id (apply now c m)
          ≡ has_active_key_material user_id tenant_id m)
unfolding get_key_for_user has_active_key_material
key_isolation now c user_id tenant_id version m h hc other =
    let same = apply-other now c (doc_id tenant_id user_id) m (apart other) in (rw same, rw same)
  where
    apart :
        (tenant_of c ≢ tenant_id) ⊎ (user_of c ≢ user_id)
        → doc_id (tenant_of c) (user_of c) ≢ doc_id tenant_id user_id
    apart (inl t) e = t (doc_id-injective (tenant_of c) tenant_id (user_of c) user_id hc h e).0
    apart (inr u) e = u (doc_id-injective (tenant_of c) tenant_id (user_of c) user_id hc h e).1
