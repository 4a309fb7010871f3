-- ===== src/Deletion/World.antt =====
-- What the deletion service works on: the stores, the lineage events that it has published, and the
-- cascades that it has started. Firestore answers the calls on a request; `clock n` is a reading.
use chameleon_vault.Prelude.{
  ℕ, ◌+◌, String, Bool, Option, none, List, [], ◌∷◌, ◌++◌, ok, Exec, Docs, if◌then◌else◌,
  or_default,
}
use chameleon_vault.Fault.{Fault}
use chameleon_vault.Requests.Types.{Request}
use chameleon_vault.Requests.Repository.{Requests}
use chameleon_vault.Keys.Registry.{Keys, or_text}
use chameleon_vault.Declarations.Types.{PiiRegistryEntry}
use chameleon_vault.Declarations.Registry.{Declarations}
use chameleon_vault.Janitor.Service.{Answer, Event, DeadLetter}
use chameleon_vault.Redaction.Service.{Runner}
use chameleon_vault.Certificate.Service.{Vault, IssuerEnv}

pub data EventType : Type 0 where
  shred_requested : EventType
  key_shredded : EventType
  janitor_triggered : EventType
  cascade_retry_triggered : EventType
  cascade_partial_failure : EventType
  certificate_issued : EventType

pub record LineageEvent : Type 0 where
  pub event_type : EventType
  pub operation_id : String
  pub deletion_request_id : String
  pub user_id : String
  pub tenant_id : String
  -- `context`: the destinations, the failed destinations or the path
  pub context : List String

-- A cascade that runs on after the call has answered, `afterStatusPersisted`.
pub record Job : Type 0 where
  pub deletion_request_id : String
  pub user_id : String
  pub tenant_id : String
  pub operation_id : String
  pub redacts : Bool
  pub deletes_copies : Bool

pub record World : Type 0 where
  pub vault : Vault
  -- the registry of declared resources in memory
  pub entries : Docs PiiRegistryEntry
  pub lineage : List LineageEvent
  pub jobs : List Job
  pub wipe_events : List Event
  pub dead_letters : List DeadLetter

pub record Env : Type 0 where
  pub clock : ℕ → ℕ
  pub shred_outage : Option Fault
  pub plan_outage : Option Fault
  pub cleanup_outage : Option Fault
  pub lineage_up : Bool
  pub issuer : IssuerEnv
  pub connectors : String → Option (ℕ → Answer)
  -- the dead letters that Pub/Sub accepts
  pub accepts : DeadLetter → Bool
  -- the source redaction service, if there is one
  pub redaction : Option Runner

-- The readings that are left to a nested call.
abbrev pub later : Env → Env
later env = record env { clock = λ n. env.clock (n + 10) }

abbrev pub requests_of : World → Requests
requests_of w = w.vault.evidence.requests

abbrev pub keys_of : World → Keys
keys_of w = w.vault.evidence.keys

abbrev pub set_requests : Requests → World → World
set_requests m w = record w {
  vault = record w.vault { evidence = record w.vault.evidence { requests = m } };
}

abbrev pub set_keys : Keys → World → World
set_keys m w = record w {
  vault = record w.vault { evidence = record w.vault.evidence { keys = m } };
}

abbrev pub declarations_of : World → Declarations
declarations_of w = record { entries = w.entries; durable = w.vault.evidence.declarations }

abbrev pub on_requests : {A : Type 0} → Exec Fault Requests A → Exec Fault World A
on_requests m w = let out = m (requests_of w) in (out.0, set_requests out.1 w)

abbrev pub on_vault : {A : Type 0} → Exec Fault Vault A → Exec Fault World A
on_vault m w = let out = m w.vault in (out.0, record w { vault = out.1 })

-- `request.tenant_id || 'default-tenant'`
abbrev pub tenant_of : Request → String
tenant_of r = or_default (or_text r.tenant_id none) "default-tenant"

-- `lineageRepo.recordEvent(...).catch(...)`
abbrev pub record_event : Env → LineageEvent → Exec Fault World (Unit {0})
record_event env e w =
    (ok tt, if env.lineage_up then record w { lineage = w.lineage ++ e ∷ [] } else w)
