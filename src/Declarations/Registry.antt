-- ===== src/Declarations/Registry.antt =====
-- services/pii-registry-service.ts: the registry of the declared resources in memory, and its durable
-- copy, gcp/pii-registry-declaration-repository.ts. The audit mirror is left out. A time is the number
-- of its milliseconds. `encode` is `encodeURIComponent`.
use Prim.Native.String
use chameleon_vault.Prelude.{
  ℕ, String, Bool, true, false, ◌||◌, not, Option, none, some, List, if◌then◌else◌, or_else,
  or_default, is_some, ◌==◌, Docs, find, put, delete, values, keep, first, ok, err, Exec, ◌>>=◌,
  ◌>>◌, leb,
}
use chameleon_vault.Fault.{Fault, outage, immutable_owner, missing_tenant}
use chameleon_vault.Keys.Registry.{or_text}
use chameleon_vault.Declarations.Types.{PiiRegistryEntry, system_name, manual_owner_connector}

-- `entries`, and the collection of the declarations.
pub record Declarations : Type 0 where
  pub entries : Docs PiiRegistryEntry
  pub durable : Docs PiiRegistryEntry

-- `${tenantId ?? '*'}::${resourceId}`
unfoldable pub key_of : Option String → String → String
key_of tenant_id resource_id = String.◌++◌ (or_default tenant_id "*") (String.◌++◌ "::" resource_id)

-- `${tenantId}:${encodeURIComponent(resourceId)}`
unfoldable pub declaration_id : (String → String) → String → String → String
declaration_id encode tenant_id resource_id =
    String.◌++◌ tenant_id (String.◌++◌ ":" (encode resource_id))

abbrev pub visible_to : Option String → PiiRegistryEntry → Bool
visible_to none e = true
visible_to (some t) e = elim e.tenant_id [ none ↦ true | some owner ↦ owner == t ]

-- The filters; an empty text sets none.
pub record Filters : Type 0 where
  pub tenant_id : Option String
  pub system : Option String
  pub owner_connector : Option String
  pub scan_enabled : Option Bool
  pub actor_email : Option String

abbrev same_flag : Bool → Bool → Bool
same_flag true b = b
same_flag false b = not b

abbrev is_of_system : Option String → PiiRegistryEntry → Bool
is_of_system none e = true
is_of_system (some system) e = system_name e.system == system

abbrev is_owned_by : Option String → PiiRegistryEntry → Bool
is_owned_by none e = true
is_owned_by (some owner) e = e.owner_connector == owner

abbrev has_scan : Option Bool → PiiRegistryEntry → Bool
has_scan none e = true
has_scan (some b) e = same_flag e.ghost_data_scan.enabled b

abbrev is_text : Option String → String → Bool
is_text none v = false
is_text (some t) v = t == v

abbrev has_actor : Option String → PiiRegistryEntry → Bool
has_actor none e = true
has_actor (some email) e = is_text e.declared_by email || is_text e.last_modified_by email

unfoldable pub list_entries : Filters → Declarations → List PiiRegistryEntry
list_entries f d = keep (has_actor (or_text f.actor_email none)) (
    keep (has_scan f.scan_enabled) (
      keep (is_owned_by (or_text f.owner_connector none)) (
        keep (is_of_system (or_text f.system none))
          (keep (visible_to f.tenant_id) (values d.entries)))))

abbrev has_resource_id : String → PiiRegistryEntry → Bool
has_resource_id id e = e.resource_id == id

unfoldable pub get_entry : String → Option String → Declarations → Option PiiRegistryEntry
get_entry resource_id (some t) d =
    or_else (find (key_of (some t) resource_id) d.entries)
      (find (key_of none resource_id) d.entries)
get_entry resource_id none d =
    or_else (find (key_of none resource_id) d.entries)
      (first (keep (has_resource_id resource_id) (values d.entries)))

unfoldable pub find_by_lineage_destination : String → Declarations → List PiiRegistryEntry
find_by_lineage_destination destination d =
    keep (λ e. (e.lineage_destination == destination) || (e.resource_id == destination))
      (values d.entries)

abbrev pub is_manual : PiiRegistryEntry → Bool
is_manual e = e.owner_connector == manual_owner_connector

-- `set(payload, { merge: true })`: what the entry lacks stays, but for the fields that are cleared.
abbrev pub merged : PiiRegistryEntry → PiiRegistryEntry → PiiRegistryEntry
merged e old = record e {
  resource_layer = or_else e.resource_layer old.resource_layer;
  visibility = or_else e.visibility old.visibility;
  tenant_id_column = or_else e.tenant_id_column old.tenant_id_column;
  user_id_column = or_else e.user_id_column old.user_id_column;
  pubsub_allowed_caller = or_else e.pubsub_allowed_caller old.pubsub_allowed_caller;
  user_id_field_path = or_else e.user_id_field_path old.user_id_field_path;
  updated_at_column = or_text e.updated_at_column none;
  last_synced_at =
      if is_some (or_text e.updated_at_column none)
      then or_else e.last_synced_at old.last_synced_at
      else none;
  last_sync_attempt_at = or_else e.last_sync_attempt_at old.last_sync_attempt_at;
  source_redaction_strategy = or_else e.source_redaction_strategy old.source_redaction_strategy;
  source_redaction_strategies =
      or_else e.source_redaction_strategies old.source_redaction_strategies;
  notes = or_else e.notes old.notes;
  status = or_else e.status old.status;
  created_at = or_else e.created_at old.created_at;
  updated_at = or_else e.updated_at old.updated_at;
  declared_by = or_else e.declared_by old.declared_by;
  last_modified_by = or_text e.last_modified_by none;
}

abbrev cleared : PiiRegistryEntry → PiiRegistryEntry
cleared e = merged e e

abbrev merge_into : PiiRegistryEntry → Option PiiRegistryEntry → PiiRegistryEntry
merge_into e none = cleared e
merge_into e (some old) = merged e old

module _ (encode : String → String) (down : Option Fault) where
  -- A write of the durable copy, if Firestore answers.
  abbrev pub write : {A : Type 0} → Exec Fault Declarations A → Exec Fault Declarations A
  write m = elim down [ none ↦ m | some e ↦ λ d. (err e, d) ]

  abbrev store_upsert : String → PiiRegistryEntry → Exec Fault Declarations (Unit {0})
  store_upsert tenant e = write λ d.
      let id = declaration_id encode tenant e.resource_id in
      (ok tt, record d { durable = put id (merge_into e (find id d.durable)) d.durable })

  unfoldable pub upsert_entry : PiiRegistryEntry → Exec Fault Declarations PiiRegistryEntry
  upsert_entry e d =
      if is_manual e
      then elim (or_text e.tenant_id none) [
        | none ↦ (err missing_tenant, d)
        | some tenant ↦
            (store_upsert tenant e >> λ d.
            (ok e, record d { entries = put (key_of e.tenant_id e.resource_id) e d.entries }))
              d
      ]
      else (err immutable_owner, d)

  abbrev store_delete : String → String → Exec Fault Declarations (Unit {0})
  store_delete tenant resource_id = write λ d.
      (ok tt, record d { durable = delete (declaration_id encode tenant resource_id) d.durable })

  unfoldable pub remove_entry : String → String → Exec Fault Declarations Bool
  remove_entry resource_id tenant d = elim (find (key_of (some tenant) resource_id) d.entries) [
    | none ↦ (ok false, d)
    | some e ↦
        if is_manual e
        then (store_delete tenant resource_id >> λ d.
              (ok true, record d { entries = delete (key_of (some tenant) resource_id) d.entries }))
            d
        else (err immutable_owner, d)
  ]

  -- `current && current >= candidate`
  abbrev pub is_newer_or_same : Option ℕ → ℕ → Bool
  is_newer_or_same none candidate = false
  is_newer_or_same (some current) candidate = leb candidate current

  abbrev pub advanced : Option ℕ → ℕ → ℕ
  advanced current candidate =
      if is_newer_or_same current candidate then or_default current candidate else candidate

  unfoldable pub advance_sync_watermark : String → String → ℕ → Exec Fault Declarations ℕ
  advance_sync_watermark tenant resource_id candidate = write λ d.
      let id = declaration_id encode tenant resource_id in
      elim (find id d.durable) [
        | none ↦ (err (outage resource_id), d)
        | some e ↦
            let at = advanced e.last_synced_at candidate in
            (ok at, record d { durable = put id (record e { last_synced_at = some at }) d.durable })
      ]

  unfoldable pub advance_last_sync_attempt : String → String → ℕ → Exec Fault Declarations ℕ
  advance_last_sync_attempt tenant resource_id candidate = write λ d.
      let id = declaration_id encode tenant resource_id in
      elim (find id d.durable) [
        | none ↦ (err (outage resource_id), d)
        | some e ↦
            let at = advanced e.last_sync_attempt_at candidate in
            (
              ok at,
              record d { durable = put id (record e { last_sync_attempt_at = some at }) d.durable },
            )
      ]

  abbrev pub mark :
      Exec Fault Declarations ℕ
      → (ℕ → PiiRegistryEntry → PiiRegistryEntry)
      → String
      → String
      → Exec Fault Declarations (Option PiiRegistryEntry)
  mark advance change resource_id tenant d =
      elim (find (key_of (some tenant) resource_id) d.entries) [
        | none ↦ (ok none, d)
        | some e ↦
            if is_manual e
            then (advance >>= λ at d. (
              ok (some (change at e)),
              record d { entries = put (key_of (some tenant) resource_id) (change at e) d.entries },
            ))
                d
            else (err immutable_owner, d)
      ]

  unfoldable pub mark_resource_synced :
      String → String → ℕ → Exec Fault Declarations (Option PiiRegistryEntry)
  mark_resource_synced resource_id tenant candidate =
      mark (advance_sync_watermark tenant resource_id candidate)
        (λ at e. record e { last_synced_at = some at }) resource_id tenant

  unfoldable pub mark_resource_sync_attempted :
      String → String → ℕ → Exec Fault Declarations (Option PiiRegistryEntry)
  mark_resource_sync_attempted resource_id tenant candidate =
      mark (advance_last_sync_attempt tenant resource_id candidate)
        (λ at e. record e { last_sync_attempt_at = some at }) resource_id tenant
