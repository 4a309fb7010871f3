-- ===== src/Declarations/Watermark.antt =====
-- gcp/pii-registry-declaration-repository.ts: the sync watermarks only move forward.
use chameleon_vault.Prelude.{
  ℕ, ◌≤◌, String, ◌≡◌, refl, ◌⊎◌, inl, Option, none, some, arith, ok, find, put, find-put_self,
}
use chameleon_vault.Declarations.Types.{PiiRegistryEntry}
use chameleon_vault.Declarations.Registry.{
  Declarations, declaration_id, advance_sync_watermark, advanced,
}

module _ (encode : String → String) (tenant resource_id : String) (candidate : ℕ)
    (d : Declarations) where
  abbrev id : String
  id = declaration_id encode tenant resource_id

  abbrev at : PiiRegistryEntry → ℕ
  at e = advanced encode none e.last_synced_at candidate

  abbrev synced : PiiRegistryEntry → PiiRegistryEntry
  synced e = record e { last_synced_at = some (at e) }

  -- If Firestore answers, advancing the sync watermark of a stored declaration succeeds; what is stored
  -- then is the candidate or the old watermark, and is no older than either.
  pub watermark_advances :
      (e : PiiRegistryEntry)
      → find (declaration_id encode tenant resource_id) d.durable ≡ some e
      → (to : ℕ) × (d' : Declarations) × (e' : PiiRegistryEntry) × (advance_sync_watermark encode
            none tenant resource_id candidate d
          ≡ (ok to, d'))
        × (find (declaration_id encode tenant resource_id) d'.durable ≡ some e')
        × (e'.last_synced_at ≡ some to)
        × (candidate ≤ to)
        × ((old : ℕ) → e.last_synced_at ≡ some old → old ≤ to)
        × ((to ≡ candidate) ⊎ (e.last_synced_at ≡ some to))
  unfolding advance_sync_watermark
  watermark_advances e here = (
    at e,
    record d { durable = put id (synced e) d.durable },
    synced e,
    ground arith,
    find-put_self id (synced e) d.durable,
    refl,
    no_older e.last_synced_at,
    (λ old was. keeps_up e.last_synced_at old was),
    which e.last_synced_at,
  )
    where
      no_older : (o : Option ℕ) → candidate ≤ advanced encode none o candidate
      no_older none = omega arith
      no_older (some old) = ground arith

      keeps_up : (o : Option ℕ) (old : ℕ) → o ≡ some old → old ≤ advanced encode none o candidate
      keeps_up none old was = ground arith
      keeps_up (some now) old was = ground arith

      which :
          (o : Option ℕ)
          → (advanced encode none o candidate ≡ candidate)
            ⊎ (o ≡ some (advanced encode none o candidate))
      which none = inl refl
      which (some old) = ground arith
