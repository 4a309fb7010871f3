-- ===== src/Deletion/Keeps.antt =====
-- The invariant of the deletion service, and the smaller steps that keep it: a request that stands at
-- CERTIFICATE_ISSUED is of a user whose key is destroyed.
use mathlib.Core.Path.{subst}
use mathlib.Core.Option.{some-injective}
use mathlib.Core.Bool.{true≢false}
use chameleon_vault.Prelude.{
  ℕ, String, ◌≡◌, refl, sym, ◌∙◌, inl, inr, Bool, true, false, Option, none, some, List, [], ◌∷◌,
  ok, err, Result, Exec, pure, raise, ◌>>=◌, ◌>>◌, follow, catch, handle_err, if◌then◌else◌, find,
  put, find-put, ◌++◌, Bool-cases, Option-cases, ◌==◌,
}
use chameleon_vault.Fault.{Fault}
use chameleon_vault.Requests.Types.{
  WipeStatus, Details, Status, certificate_issued, status_eq, Request,
}
use chameleon_vault.Requests.Repository.{
  Requests, update, enter_status, claim_transition, update_deletion_request_status,
  update_deletion_request_fields, UpdateFields, spread_fields, is_empty, no_fields, is_allowed,
  update_janitor_wipe_status,
}
use chameleon_vault.Keys.Registry.{Keys, KeyMetadata, doc_id, is_shredded, shred_key_for_user}
use chameleon_vault.Deletion.World.{
  World, Env, LineageEvent, requests_of, keys_of, on_requests, tenant_of, record_event,
}
use chameleon_vault.Deletion.Handlers.{
  result_of, claim_or_lose, set_status, set_fields, shred, finish, claiming, unless_lost,
  or_roll_back,
}
use chameleon_vault.Deletion.Service.{update_wipe}

-- The key document of the user is there, and is shredded or deleted.
abbrev pub Shredded : Keys → String → String → Type 0
Shredded keys tenant_id user_id =
    (k : KeyMetadata) × (find (doc_id tenant_id user_id) keys ≡ some k)
    × (is_shredded k.status ≡ true)

abbrev pub is_issued : Status → Bool
is_issued s = status_eq s certificate_issued

abbrev pub Certified : Keys → Request → Type 0
Certified keys r = is_issued r.status ≡ true → Shredded keys (tenant_of r) r.user_id

abbrev pub Sound : Requests → Keys → Type 0
Sound m keys = (id : String) (r : Request) → find id m ≡ some r → Certified keys r

abbrev pub IsSound : World → Type 0
IsSound w = Sound (requests_of w) (keys_of w)

abbrev pub Keeps : {A : Type 0} → Exec Fault World A → Type 0
Keeps m = (w : World) → IsSound w → IsSound (m w).1

module _ {A B : Type 0} where
  pub Keeps-bind :
      (m : Exec Fault World A) (f : A → Exec Fault World B)
      → Keeps m
      → ((a : A) → Keeps (f a))
      → Keeps (m >>= f)
  Keeps-bind m f hm hf w h = go (m w) (hm w h)
    where
      go : (p : Result Fault A × World) → IsSound p.1 → IsSound (follow f p).1
      go (ok a, t) k = hf a t k
      go (err e, t) k = k

  pub Keeps-then :
      (m : Exec Fault World A) (n : Exec Fault World B) → Keeps m → Keeps n → Keeps (m >> n)
  Keeps-then m n hm hn = Keeps-bind m (λ _. n) hm (λ _. hn)

module _ {A : Type 0} where
  pub Keeps-catch :
      (m : Exec Fault World A) (f : Fault → Exec Fault World A)
      → Keeps m
      → ((e : Fault) → Keeps (f e))
      → Keeps (catch m f)
  Keeps-catch m f hm hf w h = go (m w) (hm w h)
    where
      go : (p : Result Fault A × World) → IsSound p.1 → IsSound (handle_err f p).1
      go (ok a, t) k = k
      go (err e, t) k = hf e t k

pub Sound-put :
    (m : Requests) (keys : Keys) (id : String) (new : Request)
    → Sound m keys
    → Certified keys new
    → Sound (put id new m) keys
Sound-put m keys id new h c j r e = elim (Bool-cases (id == j)) [
  | inl same ↦
      let e' : some new ≡ some r = rw same at (sym (find-put id j new m) ∙ e) in
      subst (Certified keys) (some-injective _ _ e') c
  | inr other ↦ let e' : find j m ≡ some r = rw other at (sym (find-put id j new m) ∙ e) in h j r e'
]

Sound-update :
    (id : String) (f : Request → Request) (m : Requests) (keys : Keys)
    → ((r : Request) → Certified keys r → Certified keys (f r))
    → Sound m keys
    → Sound (update id f m).1 keys
Sound-update id f m keys c h = elim (Option-cases (find id m)) [
  | inl e ↦ rw (e, update) h
  | inr (r, e) ↦ rw (e, update) (Sound-put m keys id (f r) h (c r (h id r e)))
]

-- A status that is not CERTIFICATE_ISSUED asks for nothing.
pub no_claim : (keys : Keys) (r : Request) → is_issued r.status ≡ false → Certified keys r
no_claim keys r e h = absurd (true≢false (sym h ∙ e))

pub set_status-Keeps :
    (env : Env) (id : String) (s : Status) → is_issued s ≡ false → Keeps (set_status env id s)
unfolding update_deletion_request_status
set_status-Keeps env id s e w h =
    Sound-update id _ (requests_of w) (keys_of w)
      (λ r _. no_claim (keys_of w) (spread_fields no_fields (enter_status (env.clock 1) s r)) e) h

pub set_fields-Keeps : (id : String) (f : UpdateFields) → Keeps (set_fields id f)
unfolding update_deletion_request_fields
set_fields-Keeps id f w h = go (is_empty f)
  where
    go :
        (b : Bool)
        → Sound
            (if b then (ok tt, requests_of w) else update id (spread_fields f) (requests_of w)).1
            (keys_of w)
    go true = h
    go false = Sound-update id (spread_fields f) (requests_of w) (keys_of w) (λ r c. c) h

pub update_wipe-Keeps :
    (env : Env) (id destination : String) (s : WipeStatus) (d : Details)
    → Keeps (update_wipe env id destination s d)
unfolding update_wipe update_janitor_wipe_status
update_wipe-Keeps env id destination s d w h =
    Sound-update id _ (requests_of w) (keys_of w) (λ r c. c) h

pub record_event-Keeps : (env : Env) (event : LineageEvent) → Keeps (record_event env event)
record_event-Keeps env event w h = go env.lineage_up
  where
    go : (b : Bool) → IsSound (if b then record w { lineage = w.lineage ++ event ∷ [] } else w)
    go true = h
    go false = h

Sound-claim :
    (now : ℕ) (id : String) (from : List Status) (new : Status) (m : Requests) (keys : Keys)
    → is_issued new ≡ false
    → Sound m keys
    → Sound (claim_transition now id from new m).1 keys
unfolding claim_transition
Sound-claim now id from new m keys e h = elim (Option-cases (find id m)) [
  | inl gone ↦ rw (gone, claim_transition) h
  | inr (r, here) ↦ elim (Bool-cases (is_allowed r.status from)) [
    | inl allowed ↦
        rw (here, allowed, claim_transition)
          (Sound-put m keys id (enter_status now new r) h
            (no_claim keys (enter_status now new r) e))
    | inr refused ↦ rw (here, refused, claim_transition) h
  ]
]

pub claim_or_lose-Keeps :
    (env : Env) (id : String) (r : Request) (new : Status)
    → is_issued new ≡ false
    → Keeps (claim_or_lose env id r new)
unfolding claim_or_lose
claim_or_lose-Keeps env id r new e =
    Keeps-bind (on_requests (claim_transition (env.clock 0) id (r.status ∷ []) new)) _
      (λ w h. Sound-claim (env.clock 0) id (r.status ∷ []) new (requests_of w) (keys_of w) e h)
      (λ c w h. h)

unless_lost-Keeps :
    (body : Exec Fault World Request) (o : Option Request) → Keeps body → Keeps (unless_lost body o)
unless_lost-Keeps body none k = k
unless_lost-Keeps body (some r) k = λ w h. h

pub claiming-Keeps :
    (env : Env) (id : String) (r : Request) (new : Status) (body : Exec Fault World Request)
    → is_issued new ≡ false
    → Keeps body
    → Keeps (claiming env id r new body)
claiming-Keeps env id r new body e k =
    Keeps-bind (claim_or_lose env id r new) _ (claim_or_lose-Keeps env id r new e)
      (λ o. unless_lost-Keeps body o k)

pub finish-Keeps :
    (env : Env) (event : LineageEvent) (id : String) (r : Request) (f : UpdateFields) (s : Status)
    → Keeps (finish env event id r f s)
finish-Keeps env event id r f s =
    Keeps-then (record_event env event) (set_fields id f >> answer) (record_event-Keeps env event)
      (Keeps-then (set_fields id f) answer (set_fields-Keeps id f) (λ w h. h))
  where
    answer : Exec Fault World Request
    answer = pure (result_of r f s)

pub or_roll_back-Keeps :
    {A : Type 0} (env : Env) (id : String) (r : Request) (m : Exec Fault World A)
    → is_issued r.status ≡ false
    → Keeps m
    → Keeps (or_roll_back env id r m)
or_roll_back-Keeps env id r m e k =
    Keeps-catch m (λ fault. set_status env id r.status >> raise fault) k
      λ fault.
        Keeps-then (set_status env id r.status) (raise fault) (set_status-Keeps env id r.status e)
          (λ w h. h)

Shredded-put :
    (keys : Keys) (id : String) (k : KeyMetadata) (tenant_id user_id : String)
    → is_shredded k.status ≡ true
    → Shredded keys tenant_id user_id
    → Shredded (put id k keys) tenant_id user_id
Shredded-put keys id k tenant_id user_id e (old, here, gone) =
    elim (Bool-cases (id == doc_id tenant_id user_id)) [
      | inl same ↦ (k, find-put id (doc_id tenant_id user_id) k keys ∙ rw same refl, e)
      | inr other ↦ (old, find-put id (doc_id tenant_id user_id) k keys ∙ rw other here, gone)
    ]

-- Destroying a key leaves every destroyed key destroyed.
pub Sound-shred :
    (now : ℕ) (user_id tenant_id : String) (request : Option String) (m : Requests) (keys : Keys)
    → Sound m keys
    → Sound m (shred_key_for_user now user_id tenant_id request keys)
unfolding shred_key_for_user
Sound-shred now user_id tenant_id request m keys h id r here issued =
    Shredded-put keys (doc_id tenant_id user_id) _ (tenant_of r) r.user_id refl (h id r here issued)

pub shred-Keeps : (env : Env) (id : String) (r : Request) → Keeps (shred env id r)
shred-Keeps env id r w h = elim (Option-cases env.shred_outage) [
  | inr (e, down) ↦ rw down h
  | inl up ↦
      rw up
        (Sound-shred (env.clock 2) r.user_id (tenant_of r) (some id) (requests_of w) (keys_of w) h)
]
