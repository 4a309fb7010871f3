-- ===== src/Certificate/Chain.antt =====
-- types/certificate-chain.ts and gcp/certificate-chain-repository.ts: one chain of certificates for
-- each tenant, and the index of the certificates by their hash. `sign` is the callback.
use chameleon_vault.Prelude.{
  ℕ, suc, String, Option, none, some, Docs, find, put, Result, ok, err, Exec,
}
use chameleon_vault.Fault.{Fault, outage}

pub data TsaStatus : Type 0 where
  obtained : TsaStatus
  failed : TsaStatus

-- gcp/tsa-client.ts
pub record TsaTimestampInfo : Type 0 where
  pub status : TsaStatus
  pub token : Option String
  pub tsa_url : String

pub data RekorStatus : Type 0 where
  published : RekorStatus
  failed : RekorStatus

-- gcp/rekor-client.ts
pub record RekorLogEntryInfo : Type 0 where
  pub status : RekorStatus
  pub entry_uuid : Option String
  pub log_index : Option ℕ
  pub rekor_url : String

pub record CertificateChainState : Type 0 where
  pub tenant_id : String
  pub sequence : ℕ
  pub last_hash : Option String
  pub last_deletion_request_id : Option String
  pub updated_at : ℕ

pub record CertificateChainEntry : Type 0 where
  pub tenant_id : String
  pub sequence : ℕ
  pub previous_hash : Option String
  pub deletion_request_id : String
  pub created_at : ℕ
  pub tsa_timestamp : Option TsaTimestampInfo
  pub rekor_entry : Option RekorLogEntryInfo

-- The two collections.
pub record Chain : Type 0 where
  pub heads : Docs CertificateChainState
  pub entries : Docs CertificateChainEntry

pub record ChainSignResult : Type 0 where
  pub certificate : String
  pub certificate_hash : String

pub record Appended : Type 0 where
  pub signed : ChainSignResult
  pub previous_hash : Option String
  pub sequence : ℕ

abbrev pub Sign : Type 0
Sign = Option String → ℕ → Result Fault ChainSignResult

-- `current?.last_hash ?? null`
abbrev pub head_hash : Option CertificateChainState → Option String
head_hash none = none
head_hash (some s) = s.last_hash

-- `current?.sequence ?? 0`
abbrev pub head_sequence : Option CertificateChainState → ℕ
head_sequence none = 0
head_sequence (some s) = s.sequence

abbrev pub commit : (ℕ → ℕ) → String → String → Option String → ℕ → ChainSignResult → Chain → Chain
commit clock tenant_id request previous n signed c = record {
  heads =
      put tenant_id
        (record {
          tenant_id = tenant_id;
          sequence = n;
          last_hash = some signed.certificate_hash;
          last_deletion_request_id = some request;
          updated_at = clock 0;
        })
        c.heads;
  entries =
      put signed.certificate_hash
        (record {
          tenant_id = tenant_id;
          sequence = n;
          previous_hash = previous;
          deletion_request_id = request;
          created_at = clock 1;
          tsa_timestamp = none;
          rekor_entry = none;
        })
        c.entries;
}

-- The transaction: it reads the head, signs, and writes the head and the entry, or nothing at all
-- when the callback throws. An attempt that Firestore repeats has written nothing.
unfoldable pub append_to_chain : (ℕ → ℕ) → String → String → Sign → Exec Fault Chain Appended
append_to_chain clock tenant_id request sign c =
    let previous = head_hash (find tenant_id c.heads) in
    let n = suc (head_sequence (find tenant_id c.heads)) in
    elim (sign previous n) [
      | err e ↦ (err e, c)
      | ok signed ↦ (
        ok (record { signed = signed; previous_hash = previous; sequence = n }),
        commit clock tenant_id request previous n signed c,
      )
    ]

unfoldable pub get_entry_by_hash : String → Chain → Option CertificateChainEntry
get_entry_by_hash hash c = find hash c.entries

-- `update` rejects when there is no entry; the caller swallows that.
abbrev update_entry :
    String → (CertificateChainEntry → CertificateChainEntry) → Exec Fault Chain (Unit {0})
update_entry hash f c = elim (find hash c.entries) [
  | none ↦ (err (outage hash), c)
  | some e ↦ (ok tt, record c { entries = put hash (f e) c.entries })
]

unfoldable pub record_tsa_timestamp : String → TsaTimestampInfo → Exec Fault Chain (Unit {0})
record_tsa_timestamp hash info = update_entry hash (λ e. record e { tsa_timestamp = some info })

unfoldable pub record_rekor_entry : String → RekorLogEntryInfo → Exec Fault Chain (Unit {0})
record_rekor_entry hash info = update_entry hash (λ e. record e { rekor_entry = some info })
