-- ===== src/Certificate/Continuity.antt =====
-- Each tenant's certificates form one chain back to the first, and appending keeps it so.
use chameleon_vault.Prelude.{
  ℕ, zero, suc, String, ◌≡◌, refl, ap, ◌∙◌, ◌≢◌, inl, inr, Option, none, some, arith, ◌==◌, eq_iff,
  Docs, find, put, find-put_self, find-put_ne, Result, ok, err, Bool-cases,
}
use chameleon_vault.Fault.{Fault}
use chameleon_vault.Certificate.Chain.{
  CertificateChainEntry, CertificateChainState, Chain, ChainSignResult, Appended, Sign, head_hash,
  head_sequence, commit, append_to_chain, get_entry_by_hash,
}

-- From this hash, entries of this tenant lead back to the first certificate, with the sequence
-- numbers n, n - 1 and so on down to 1.
pub data LinkedBack (entries : Docs CertificateChainEntry) (tenant_id : String)
    : Option String → ℕ → Type 0 where
  genesis : LinkedBack entries tenant_id none zero
  link :
      {hash : String} {n : ℕ} (e : CertificateChainEntry)
      → find hash entries ≡ some e
      → e.tenant_id ≡ tenant_id
      → e.sequence ≡ suc n
      → LinkedBack entries tenant_id e.previous_hash n
      → LinkedBack entries tenant_id (some hash) (suc n)

-- The head of the tenant's chain.
abbrev pub IsChained : String → Chain → Type 0
IsChained tenant_id c =
    LinkedBack c.entries tenant_id (head_hash (find tenant_id c.heads))
      (head_sequence (find tenant_id c.heads))

LinkedBack-put :
    {entries : Docs CertificateChainEntry} {tenant_id : String} {from : Option String} {n : ℕ}
    (hash : String) (e : CertificateChainEntry)
    → find hash entries ≡ none
    → LinkedBack entries tenant_id from n
    → LinkedBack (put hash e entries) tenant_id from n
LinkedBack-put hash e fresh genesis = genesis
LinkedBack-put {entries} hash e fresh (link {hash = h} e' here t s rest) =
    link e'
      (find-put_ne hash h e entries (λ same. cc (ap (λ k. find k entries) same, fresh, here))
        ∙ here)
      t s (LinkedBack-put hash e fresh rest)

-- What one successful append adds.
pub record Extended (tenant_id request : String) (before after : Chain) (a : Appended)
    : Type 0 where
  pub next : a.sequence ≡ suc (head_sequence (find tenant_id before.heads))
  pub linked : a.previous_hash ≡ head_hash (find tenant_id before.heads)
  pub head : head_hash (find tenant_id after.heads) ≡ some a.signed.certificate_hash
  pub counted : head_sequence (find tenant_id after.heads) ≡ a.sequence
  pub indexed :
      (e : CertificateChainEntry) × (get_entry_by_hash a.signed.certificate_hash after ≡ some e)
      × (e.tenant_id ≡ tenant_id)
      × (e.deletion_request_id ≡ request)
      × (e.sequence ≡ a.sequence)
      × (e.previous_hash ≡ a.previous_hash)
  pub others : (t : String) → tenant_id ≢ t → find t after.heads ≡ find t before.heads

module _ (clock : ℕ → ℕ) (tenant_id request : String) (sign : Sign) (c : Chain) where
  abbrev before_hash : Option String
  before_hash = head_hash (find tenant_id c.heads)

  abbrev next_number : ℕ
  next_number = suc (head_sequence (find tenant_id c.heads))

  -- What the transaction comes to once the callback has signed.
  append_signed :
      (s : ChainSignResult)
      → sign before_hash next_number ≡ ok s
      → append_to_chain clock tenant_id request sign c ≡ (
        ok (record { signed = s; previous_hash = before_hash; sequence = next_number }),
        commit clock tenant_id request before_hash next_number s c,
      )
  unfolding append_to_chain
  append_signed s e = ground arith

  -- A callback that throws leaves both collections as they were.
  pub append_failed :
      (f : Fault)
      → sign before_hash next_number ≡ err f
      → append_to_chain clock tenant_id request sign c ≡ (err f, c)
  unfolding append_to_chain
  append_failed f e = ground arith

  commit-Extended :
      (s : ChainSignResult)
      → Extended tenant_id request c
          (commit clock tenant_id request before_hash next_number s c)
          (record { signed = s; previous_hash = before_hash; sequence = next_number })
  unfolding get_entry_by_hash
  commit-Extended s = record {
    next = refl;
    linked = refl;
    head = ap head_hash (find-put_self tenant_id _ c.heads);
    counted = ap head_sequence (find-put_self tenant_id _ c.heads);
    indexed = (_, find-put_self s.certificate_hash _ c.entries, refl, refl, refl, refl);
    others = λ t ne. find-put_ne tenant_id t _ c.heads ne;
  }

  -- If the callback signs for the place after the tenant's head, the append succeeds with what it
  -- signed: the next number, and the head's hash as the previous one. The head is now this
  -- certificate, the index finds it under its hash, and no other tenant's head moved.
  pub append-Extended :
      (s : ChainSignResult)
      → sign before_hash next_number ≡ ok s
      → (a : Appended) × (c' : Chain) × (append_to_chain clock tenant_id request sign c
          ≡ (ok a, c'))
        × (a.signed ≡ s)
        × Extended tenant_id request c c' a
  append-Extended s e = (_, _, append_signed s e, refl, commit-Extended s)

  commit-IsChained :
      (s : ChainSignResult) (t : String)
      → find s.certificate_hash c.entries ≡ none
      → IsChained tenant_id c
      → IsChained t c
      → IsChained t (commit clock tenant_id request before_hash next_number s c)
  commit-IsChained s t fresh mine theirs = elim (Bool-cases (tenant_id == t)) [
    | inl same ↦ rw (← (eq_iff tenant_id t).0 same) (
        rw (find-put_self tenant_id (head_of s) c.heads) (
          link (entry_of s) (find-put_self s.certificate_hash (entry_of s) c.entries) refl refl
            (LinkedBack-put s.certificate_hash (entry_of s) fresh mine)))
    | inr other ↦
        rw (find-put_ne tenant_id t (head_of s) c.heads (λ p. cc (other, (eq_iff tenant_id t).1 p)))
          (LinkedBack-put s.certificate_hash (entry_of s) fresh theirs)
  ]
    where
      head_of : ChainSignResult → CertificateChainState
      head_of s = record {
        tenant_id = tenant_id;
        sequence = next_number;
        last_hash = some s.certificate_hash;
        last_deletion_request_id = some request;
        updated_at = clock 0;
      }

      entry_of : ChainSignResult → CertificateChainEntry
      entry_of s = record {
        tenant_id = tenant_id;
        sequence = next_number;
        previous_hash = before_hash;
        deletion_request_id = request;
        created_at = clock 1;
        tsa_timestamp = none;
        rekor_entry = none;
      }

  -- If the hash of the new certificate is that of no certificate in the index, every tenant's chain
  -- that led back to its first certificate still does, with all numbers from the head's down to 1.
  -- An append whose callback throws is covered too.
  pub append-IsChained :
      (t : String)
      → ((s : ChainSignResult)
          → sign before_hash next_number ≡ ok s
          → find s.certificate_hash c.entries ≡ none)
      → IsChained tenant_id c
      → IsChained t c
      → IsChained t (append_to_chain clock tenant_id request sign c).1
  append-IsChained t fresh mine theirs = go (sign before_hash next_number) refl
    where
      go :
          (r : Result Fault ChainSignResult)
          → sign before_hash next_number ≡ r
          → IsChained t (append_to_chain clock tenant_id request sign c).1
      go (ok s) e = rw (append_signed s e) (commit-IsChained s t (fresh s e) mine theirs)
      go (err f) e = rw (append_failed f e) theirs
