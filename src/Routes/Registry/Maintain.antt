-- ===== src/Routes/Registry/Maintain.antt =====
-- routes/pii-registry.ts: removing and reading resources and the marks of a sync. A submitted time is taken
-- as parsed. A parameter that `decodeURIComponent` refuses is a 500. Dropping the shadow copy of a removed resource is best effort, and left out.
use chameleon_vault.Prelude.{
  ℕ, String, Bool, true, false, Option, none, some, List, any, ok, err, Result, if◌then◌else◌, ◌==◌,
}
use chameleon_vault.Fault.{Fault}
use chameleon_vault.Declarations.Types.{PiiRegistryEntry}
use chameleon_vault.Declarations.Registry.{
  Declarations, Filters, list_entries, get_entry, remove_entry, mark_resource_synced,
  mark_resource_sync_attempted,
}
use chameleon_vault.Declarations.Policy.{
  PolicyStatus, pass, warn, fail, RegistryPolicyEvaluation, evaluate_entry, evaluate_all,
}
use chameleon_vault.Coverage.Items.{to_coverage_items}
use chameleon_vault.Coverage.Report.{CoverageReport, compute_coverage}
use chameleon_vault.Routes.Http.{Reply, sent, refused}
use chameleon_vault.Routes.Registry.Callers.{tenant_of, Caller, require_write_auth, gated}
use chameleon_vault.Routes.Registry.Upsert.{RegistryEnv, mutation_code}

abbrev pub removed_reply : Result Fault Bool × Declarations → Reply (Unit {0}) × Declarations
removed_reply (err e, d) = (refused (mutation_code e), d)
removed_reply (ok true, d) = (sent 200 tt, d)
removed_reply (ok false, d) = (refused 404, d)

-- DELETE /pii-registry/resources/:resourceId
unfoldable pub remove_route :
    RegistryEnv → Caller → Option String → String → Declarations → Reply (Unit {0}) × Declarations
remove_route env caller header param = gated (require_write_auth env.write_token caller) λ d.
    elim (env.decode param) [
      | none ↦ (refused 500, d)
      | some id ↦ removed_reply (remove_entry env.encode env.down id (tenant_of header) d)
    ]

abbrev pub marked_reply :
    Result Fault (Option PiiRegistryEntry) × Declarations → Reply PiiRegistryEntry × Declarations
marked_reply (err e, d) = (refused (mutation_code e), d)
marked_reply (ok none, d) = (refused 404, d)
marked_reply (ok (some e), d) = (sent 200 e, d)

-- POST /pii-registry/resources/:resourceId/mark-synced
unfoldable pub mark_synced_route :
    RegistryEnv
    → Caller
    → Option String
    → String
    → Option ℕ
    → Declarations
    → Reply PiiRegistryEntry × Declarations
mark_synced_route env caller header param at =
    gated (require_write_auth env.write_token caller) λ d. elim at [
      | none ↦ (refused 400, d)
      | some t ↦ elim (env.decode param) [
        | none ↦ (refused 500, d)
        | some id ↦
            marked_reply (mark_resource_synced env.encode env.down id (tenant_of header) t d)
      ]
    ]

-- POST /pii-registry/resources/:resourceId/mark-sync-attempted
unfoldable pub mark_sync_attempted_route :
    RegistryEnv
    → Caller
    → Option String
    → String
    → Option ℕ
    → Declarations
    → Reply PiiRegistryEntry × Declarations
mark_sync_attempted_route env caller header param at =
    gated (require_write_auth env.write_token caller) λ d. elim at [
      | none ↦ (refused 400, d)
      | some t ↦ elim (env.decode param) [
        | none ↦ (refused 500, d)
        | some id ↦
            marked_reply
              (mark_resource_sync_attempted env.encode env.down id (tenant_of header) t d)
      ]
    ]

abbrev resource_reply :
    Option PiiRegistryEntry → Reply (PiiRegistryEntry × RegistryPolicyEvaluation)
resource_reply none = refused 404
resource_reply (some e) = sent 200 (e, evaluate_entry e)

-- GET /pii-registry/resources/:resourceId
unfoldable pub resource_route :
    RegistryEnv
    → Option String
    → String
    → Declarations
    → Reply (PiiRegistryEntry × RegistryPolicyEvaluation)
resource_route env header param d = elim (env.decode param) [
  | none ↦ refused 500
  | some id ↦ resource_reply (get_entry id (some (tenant_of header)) d)
]

-- GET /pii-registry/resources
unfoldable pub resources_route :
    Option String
    → Option String
    → Option String
    → Option String
    → Declarations
    → Reply (List PiiRegistryEntry)
resources_route header system owner scan d = sent 200 (
    list_entries
      (record {
        tenant_id = some (tenant_of header);
        system = system;
        owner_connector = owner;
        scan_enabled = elim scan [ none ↦ none | some s ↦ some (s == "true") ];
        actor_email = none;
      })
      d)

abbrev is_fail : PolicyStatus → Bool
is_fail fail = true
is_fail _ = false

abbrev is_warn : PolicyStatus → Bool
is_warn warn = true
is_warn _ = false

abbrev worst : List RegistryPolicyEvaluation → PolicyStatus
worst es =
    if any (λ e. is_fail e.status) es
    then fail
    else (if any (λ e. is_warn e.status) es then warn else pass)

-- GET /pii-registry/policy
unfoldable pub policy_route :
    Option String → Declarations → Reply (PolicyStatus × List RegistryPolicyEvaluation)
policy_route header d = let es = evaluate_all (some (tenant_of header)) d in sent 200 (worst es, es)

abbrev of_tenant : String → Filters
of_tenant t = record {
  tenant_id = some t;
  system = none;
  owner_connector = none;
  scan_enabled = none;
  actor_email = none;
}

-- GET /pii-registry/coverage; without a source of findings there are none.
unfoldable pub coverage_route : RegistryEnv → Option String → Declarations → Reply CoverageReport
coverage_route env header d = elim (env.discovery (tenant_of header)) [
  | err e ↦ refused 500
  | ok findings ↦ sent 200 (
      compute_coverage (to_coverage_items (list_entries (of_tenant (tenant_of header)) d) findings))
]
