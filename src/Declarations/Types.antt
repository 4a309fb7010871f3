-- ===== src/Declarations/Types.antt =====
-- types/pii-registry.ts. An ISO 8601 text is the number of its milliseconds.
use chameleon_vault.Prelude.{ℕ, String, Bool, Option, List, nat_beq}

pub data PiiSystem : Type 0 where
  bigquery : PiiSystem
  snowflake : PiiSystem
  gcs : PiiSystem
  firestore : PiiSystem
  log : PiiSystem
  hubspot : PiiSystem
  salesforce : PiiSystem
  external : PiiSystem
  pubsub : PiiSystem

-- The text of the union's member.
abbrev pub system_name : PiiSystem → String
system_name bigquery = "bigquery"
system_name snowflake = "snowflake"
system_name gcs = "gcs"
system_name firestore = "firestore"
system_name log = "log"
system_name hubspot = "hubspot"
system_name salesforce = "salesforce"
system_name external = "external"
system_name pubsub = "pubsub"

pub data PiiClassification : Type 0 where
  direct_identifier : PiiClassification
  quasi_identifier : PiiClassification
  contact : PiiClassification
  sensitive : PiiClassification
  behavioral : PiiClassification
  system_identifier : PiiClassification

pub data PiiHandling : Type 0 where
  encrypt : PiiHandling
  tokenize : PiiHandling
  redact : PiiHandling
  hash_surrogate : PiiHandling
  allow_aggregate_only : PiiHandling
  manual_review : PiiHandling

pub data DeletionStrategy : Type 0 where
  crypto_shred : DeletionStrategy
  delete_rows : DeletionStrategy
  redact_fields : DeletionStrategy
  external_wipe : DeletionStrategy
  manual_review : DeletionStrategy

pub data SourceRedactionStrategy : Type 0 where
  no_redaction : SourceRedactionStrategy
  redact_in_place : SourceRedactionStrategy
  shadow_copy : SourceRedactionStrategy
  encrypted_copy : SourceRedactionStrategy

-- The position of a strategy in the union; the constructors stand for distinct texts.
abbrev pub strategy_index : SourceRedactionStrategy → ℕ
strategy_index no_redaction = 0
strategy_index redact_in_place = 1
strategy_index shadow_copy = 2
strategy_index encrypted_copy = 3

abbrev pub strategy_eq : SourceRedactionStrategy → SourceRedactionStrategy → Bool
strategy_eq a b = nat_beq (strategy_index a) (strategy_index b)

pub data PiiResourceLayer : Type 0 where
  raw : PiiResourceLayer
  staging : PiiResourceLayer
  intermediate : PiiResourceLayer
  mart : PiiResourceLayer
  saas : PiiResourceLayer

pub data PiiResourceVisibility : Type 0 where
  customer_facing : PiiResourceVisibility
  internal : PiiResourceVisibility

pub data RegistryEntryStatus : Type 0 where
  approved : RegistryEntryStatus
  pending_review : RegistryEntryStatus
  deprecated : RegistryEntryStatus
  disabled : RegistryEntryStatus

pub data ScanMode : Type 0 where
  full : ScanMode
  sampled : ScanMode
  no_scan : ScanMode

pub record PiiFieldPolicy : Type 0 where
  pub name : String
  pub classification : PiiClassification
  pub handling : PiiHandling
  pub required_in_mart : Bool

pub record GhostDataScanPolicy : Type 0 where
  pub enabled : Bool
  pub scan_mode : ScanMode
  pub patterns : List String

pub record PiiRegistryEntry : Type 0 where
  pub registry_version : ℕ
  pub resource_id : String
  pub system : PiiSystem
  pub resource_layer : Option PiiResourceLayer
  pub visibility : Option PiiResourceVisibility
  pub tenant_id_column : Option String
  pub user_id_column : Option String
  pub pubsub_allowed_caller : Option String
  pub user_id_field_path : Option String
  pub updated_at_column : Option String
  pub last_synced_at : Option ℕ
  pub last_sync_attempt_at : Option ℕ
  pub pii_fields : List PiiFieldPolicy
  pub owner_connector : String
  pub lineage_destination : String
  pub deletion_strategy : DeletionStrategy
  pub source_redaction_strategy : Option SourceRedactionStrategy
  pub source_redaction_strategies : Option (List SourceRedactionStrategy)
  pub ghost_data_scan : GhostDataScanPolicy
  pub notes : Option String
  pub tenant_id : Option String
  pub status : Option RegistryEntryStatus
  pub created_at : Option ℕ
  pub updated_at : Option ℕ
  pub declared_by : Option String
  pub last_modified_by : Option String

abbrev pub manual_owner_connector : String
manual_owner_connector = "manual"
