-- ===== src/Certificate/Bucket.antt =====
-- gcp/gcs-client.ts: the evidence bucket. An object is found by its URI without the scheme, which is
-- `bucket/path`; the date in a path is a parameter of the callers.
use Prim.Native.Char.{Char, code}
use Prim.Native.String
use chameleon_vault.Prelude.{
  ℕ, String, Bool, false, ◌&&◌, not, Option, none, some, Docs, find, put, ok, err, Exec, nat_beq,
  if◌then◌else◌, ◌==◌,
}
use chameleon_vault.Fault.{Fault, outage}
use chameleon_vault.Certificate.Chain.{TsaTimestampInfo, RekorLogEntryInfo}
use chameleon_vault.Certificate.Destinations.{one_line}

-- The JSON wrapper, `certPayload`.
pub record StoredCertificate : Type 0 where
  pub certificate : String
  pub user_id : String
  pub deletion_request_id : String
  pub timestamp : ℕ
  pub hash : String
  pub previous_certificate_hash : Option String
  pub chain_sequence : ℕ
  pub tsa_timestamp : Option TsaTimestampInfo
  pub rekor_entry : Option RekorLogEntryInfo

pub record Bucket : Type 0 where
  pub certificates : Docs StoredCertificate
  pub audit_hashes : Docs String

-- The bucket's name, the date path of today, the clock, and what Cloud Storage rejects.
pub record BucketEnv : Type 0 where
  pub bucket_name : String
  pub date_path : String
  pub now : ℕ
  pub certificate_outage : Option Fault
  pub hash_outage : Option Fault
  pub download_outage : Option Fault

infixr 5 ◌+++◌
abbrev ◌+++◌ : String → String → String
a +++ b = String.◌++◌ a b

-- `${bucketName}/certificates/${tenantId}/${datePath}/certificate-${deletionRequestId}.json`
unfoldable pub certificate_location : BucketEnv → String → String → String
certificate_location env tenant_id request =
    env.bucket_name +++ "/certificates/" +++ tenant_id +++ "/" +++ env.date_path +++ "/certificate-"
    +++ request +++ ".json"

unfoldable pub audit_hash_location : BucketEnv → String → String → String
audit_hash_location env tenant_id request =
    env.bucket_name +++ "/certificates/" +++ tenant_id +++ "/" +++ env.date_path +++ "/audit-hash-"
    +++ request +++ ".txt"

unfoldable pub upload_certificate :
    BucketEnv → String → StoredCertificate → Exec Fault Bucket String
upload_certificate env tenant_id c b = elim env.certificate_outage [
  | some e ↦ (err e, b)
  | none ↦
      let saved = record b {
        certificates =
            put (certificate_location env tenant_id c.deletion_request_id) c b.certificates;
      } in
      elim env.hash_outage [
        | some e ↦ (err e, saved)
        | none ↦ (
          ok ("gs://" +++ certificate_location env tenant_id c.deletion_request_id),
          record saved {
            audit_hashes =
                put (audit_hash_location env tenant_id c.deletion_request_id) c.hash
                  saved.audit_hashes;
          },
        )
      ]
]

-- What follows the first slash.
unfoldable pub after_slash : String → Option String
after_slash String.[] = none
after_slash (String.◌∷◌ c s) = if nat_beq (code c) b'/' then some s else after_slash s

abbrev starts_with_slash : String → Bool
starts_with_slash String.[] = false
starts_with_slash (String.◌∷◌ c s) = nat_beq (code c) b'/'

abbrev is_object_path : Option String → Bool
is_object_path none = false
is_object_path (some path) = not (path == "") && one_line path

-- `([^/]+)\/(.+)`
unfoldable pub is_location : String → Bool
is_location s = not (starts_with_slash s) && is_object_path (after_slash s)

abbrev without : Char → Option String → Option String
without c none = none
without c (some String.[]) = none
without c (some (String.◌∷◌ d s)) = if nat_beq (code c) (code d) then some s else none

abbrev checked : Option String → Option String
checked none = none
checked (some s) = if is_location s then some s else none

-- `gcsPath.match(/^gs:\/\/([^/]+)\/(.+)$/)`
unfoldable pub location_of : String → Option String
location_of path =
    checked (without "/" (without "/" (without ":" (without "s" (without "g" (some path))))))

abbrev fetched : String → Option StoredCertificate → Exec Fault Bucket StoredCertificate
fetched path none b = (err (outage path), b)
fetched path (some c) b = (ok c, b)

unfoldable pub download_certificate : BucketEnv → String → Exec Fault Bucket StoredCertificate
download_certificate env path b = elim (location_of path) [
  | none ↦ (err (outage path), b)
  | some location ↦ elim env.download_outage [
    | some e ↦ (err e, b)
    | none ↦ fetched path (find location b.certificates) b
  ]
]
