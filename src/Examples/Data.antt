-- ===== src/Examples/Data.antt =====
-- Sample stores: two tenants, their requests, keys and declarations, and services that answer.
use Prim.Native.String
use chameleon_vault.Prelude.{ℕ, ◌+◌, String, true, false, none, some, List, [], ◌∷◌, ok, Result}
use chameleon_vault.Fault.{Fault}
use chameleon_vault.Requests.Types.{Status, WipeStatus, Details, Wipe, Request}
use chameleon_vault.Requests.Repository.{Requests}
use chameleon_vault.Keys.Registry.{Keys, KeyMetadata, empty_key}
use chameleon_vault.Declarations.Types.{
  PiiRegistryEntry, PiiSystem, PiiClassification, PiiHandling, ScanMode, DeletionStrategy,
  SourceRedactionStrategy,
}
use chameleon_vault.Janitor.Service.{Answer, responded}
use chameleon_vault.Certificate.Claims.{DestructionCertificateClaims}
use chameleon_vault.Certificate.Signer.{Evidence, SignerEnv}
use chameleon_vault.Certificate.Bucket.{BucketEnv}
use chameleon_vault.Certificate.Service.{Vault, SigningEnv, IssuerEnv}
use chameleon_vault.Deletion.World.{Job, World, Env}

abbrev pub no_details : Details
no_details = record {
  attempts = some 1;
  records_found = some 2;
  rows_affected = none;
  error = none;
}

abbrev pub hubspot_wiped : Wipe
hubspot_wiped = record {
  destination = "hubspot";
  status = WipeStatus.succeeded;
  updated_at = 900;
  details = no_details;
}

abbrev pub request_at : Status → Request
request_at s = record {
  deletion_request_id = "dr-1";
  tenant_id = some "acme";
  user_id = "u1";
  status = s;
  created_at = 1000;
  status_history = [];
  janitor_wipes = hubspot_wiped ∷ [];
  key_destroyed_at = none;
  cascade_initiated_at = none;
  certificate_issued_at = none;
  certificate_gcs_path = none;
  requested_by = some "ana@acme.test";
}

abbrev pub requests_at : Status → Requests
requests_at s = ("dr-1", request_at s) ∷ []

abbrev pub shredded_key : KeyMetadata
shredded_key = record empty_key {
  user_id = some "u1";
  shred_at = some 500;
  destinations = some ("hubspot" ∷ "mailchimp" ∷ []);
}

abbrev pub keys : Keys
keys = ("acme:u1", shredded_key) ∷ []

abbrev pub orders : PiiRegistryEntry
orders = record {
  registry_version = 1;
  resource_id = "bigquery:acme.shop.orders";
  system = PiiSystem.bigquery;
  resource_layer = none;
  visibility = none;
  tenant_id_column = some "tenant_id";
  user_id_column = some "user_id";
  pubsub_allowed_caller = none;
  user_id_field_path = none;
  updated_at_column = none;
  last_synced_at = some 10;
  last_sync_attempt_at = none;
  pii_fields =
      record {
        name = "email";
        classification = PiiClassification.direct_identifier;
        handling = PiiHandling.encrypt;
        required_in_mart = false;
      }
      ∷ [];
  owner_connector = "manual";
  lineage_destination = "orders";
  deletion_strategy = DeletionStrategy.crypto_shred;
  source_redaction_strategy = none;
  source_redaction_strategies = some (SourceRedactionStrategy.shadow_copy ∷ []);
  ghost_data_scan = record { enabled = false; scan_mode = ScanMode.no_scan; patterns = [] };
  notes = none;
  tenant_id = some "acme";
  status = none;
  created_at = none;
  updated_at = none;
  declared_by = none;
  last_modified_by = none;
}

abbrev pub evidence_at : Status → Evidence
evidence_at s = record {
  requests = requests_at s;
  keys = keys;
  declarations = ("acme:orders", orders) ∷ [];
}

abbrev pub vault_at : Status → Vault
vault_at s = record {
  evidence = evidence_at s;
  chain = record { heads = []; entries = [] };
  bucket = record { certificates = []; audit_hashes = [] };
}

abbrev pub ticking : ℕ → ℕ
ticking n = 1000000000 + n

abbrev pub signer : SignerEnv
signer = record {
  clock = ticking;
  key_outage = none;
  request_outage = none;
  registry_outage = none;
  fingerprint = ok "sha256:ab";
}

abbrev pub signing : SigningEnv
signing = record {
  version = ok "key/1";
  header = λ version. version;
  payload = λ (claims : DestructionCertificateClaims) previous n. claims.jti;
  asymmetric_sign = λ token version. ok "signature";
  sha256 = λ text. String.◌++◌ "hash of " text;
}

abbrev pub bucket : BucketEnv
bucket = record {
  bucket_name = "evidence";
  date_path = "2026/01/02";
  now = 7;
  certificate_outage = none;
  hash_outage = none;
  download_outage = none;
}

abbrev pub issuer : Result Fault (List String) → IssuerEnv
issuer ghosts = record {
  signer = signer;
  signing = signing;
  bucket = bucket;
  ghosts = ghosts;
  chain_clock = ticking;
  tsa = none;
  rekor = none;
  tsa_record_outage = none;
  rekor_record_outage = none;
  decode_jwt = λ certificate. ok (some 1);
}

-- Each connector's answer to every call.
abbrev pub wiped : Answer
wiped = responded (record {
  success = true;
  destination = "hubspot";
  error = none;
  retryable = none;
  records_found = some 1;
})

abbrev pub refused : Answer
refused = responded (record {
  success = false;
  destination = "hubspot";
  error = some "403";
  retryable = some false;
  records_found = none;
})

abbrev pub env : Result Fault (List String) → Answer → Env
env ghosts answer = record {
  clock = ticking;
  shred_outage = none;
  plan_outage = none;
  cleanup_outage = none;
  lineage_up = true;
  issuer = issuer ghosts;
  connectors = λ destination. some (λ n. answer);
  accepts = λ letter. true;
  redaction = none;
}

abbrev pub world_at : Status → World
world_at s = record {
  vault = vault_at s;
  entries = [];
  lineage = [];
  jobs = [];
  wipe_events = [];
  dead_letters = [];
}

abbrev pub job : Job
job = record {
  deletion_request_id = "dr-1";
  user_id = "u1";
  tenant_id = "acme";
  operation_id = "op-1";
  redacts = false;
  deletes_copies = false;
}
