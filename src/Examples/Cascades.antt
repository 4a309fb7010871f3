-- ===== src/Examples/Cascades.antt =====
-- The theorems on the deletion service, at sample worlds.
use chameleon_vault.Prelude.{
  ◌≡◌, refl, none, some, [], ◌∷◌, ok, err, find, values, put, or_default, sort_desc,
}
use chameleon_vault.Fault.{outage}
use chameleon_vault.Requests.Types.{Status, Request}
use chameleon_vault.Requests.Repository.{
  claim_transition, create_deletion_request, update_deletion_request_status,
  update_deletion_request_fields, get_deletion_request,
}
use chameleon_vault.Requests.Queries.{get_active_deletion_request_for_user}
use chameleon_vault.Keys.Registry.{new_key, shred_key_for_user, get_key_status}
use chameleon_vault.Certificate.Signer.{
  generate_claims, signer_key_status, signer_request, assert_key_shredded, assert_cascade_complete,
  get_manual_registry_entries_for_tenant,
}
use chameleon_vault.Certificate.Service.{
  issue_and_store_certificate, sign_claims, timestamp, publish,
}
use chameleon_vault.Certificate.Chain.{append_to_chain}
use chameleon_vault.Certificate.Bucket.{upload_certificate, certificate_location}
use chameleon_vault.Redaction.Service.{plan_redaction, plan_encrypted_copy_deletion}
use chameleon_vault.Declarations.Registry.{list_entries}
use chameleon_vault.Janitor.Service.{
  process_cleanup, process_tasks, process_task, create_cleanup_plan, retry,
}
use chameleon_vault.Janitor.Names.{has_connector, to_lower_case, get_registered_connector_names}
use chameleon_vault.Deletion.World.{World, requests_of, keys_of, tenant_of}
use chameleon_vault.Deletion.Handlers.{
  is_valid_transition, transitions, claim_or_lose, issue_certificate, destroy_key,
}
use chameleon_vault.Deletion.Service.{
  create_request, advance_request, handle, start_cascade, prepare_cascade_trigger,
  shortcut_to_cascade_complete, advance_to_certificate,
}
use chameleon_vault.Deletion.Cascade.{run_cascade, outcomes}
use chameleon_vault.Deletion.Keeps.{Shredded}
use chameleon_vault.Deletion.Reachable.{Step, Steps, issued_is_Shredded}
use chameleon_vault.Deletion.Refusals.{HasStatus, failed_issue_is_rolled_back}
use chameleon_vault.Deletion.Withheld.{certificates_of, failed_cascade_withholds}
use chameleon_vault.Examples.Data.{world_at, request_at, env, wiped, refused, job}

failed_issue_is_rolled_back_example :
    ((issue_certificate
        (env (err (outage "bigquery")) wiped)
        "op-2"
        "dr-1"
        (request_at Status.cascade_complete)
        (world_at Status.cascade_complete)).0
      ≡ err (outage "bigquery"))
    × HasStatus "dr-1" Status.cascade_complete
        (issue_certificate
          (env (err (outage "bigquery")) wiped)
          "op-2"
          "dr-1"
          (request_at Status.cascade_complete)
          (world_at Status.cascade_complete)).1
unfolding find issue_and_store_certificate
failed_issue_is_rolled_back_example =
    failed_issue_is_rolled_back (env (err (outage "bigquery")) wiped) "op-2" "dr-1"
      (request_at Status.cascade_complete) (world_at Status.cascade_complete) (outage "bigquery")
      refl refl

failed_cascade_withholds_example :
    certificates_of (run_cascade (env (ok []) refused) job (world_at Status.cascade_pending))
    ≡ certificates_of (world_at Status.cascade_pending)
unfolding outcomes process_cleanup process_tasks process_task create_cleanup_plan retry
    has_connector to_lower_case get_registered_connector_names get_key_status find
failed_cascade_withholds_example =
    failed_cascade_withholds (env (ok []) refused) job (world_at Status.cascade_pending)
      (_, _, refl)

-- A user with a live key and no destinations, before any request.
abbrev start : World
start = record (world_at Status.shred_requested) {
  vault = record (world_at Status.shred_requested).vault {
    evidence = record {
      requests = [];
      keys = ("acme:u3", new_key 1 "u3" "ZGVr") ∷ [];
      declarations = [];
    };
  };
}

abbrev asked : World
asked = (create_request (env (ok []) wiped) "u3" "dr-3" "acme" none start).1

abbrev destroyed : World
destroyed = (advance_request (env (ok []) wiped) "op-3" [] "dr-3" Status.key_destroyed asked).1

-- There is nothing to wipe, so the request goes straight on to its certificate.
abbrev certified : World
certified =
    (advance_request (env (ok []) wiped) "op-3" [] "dr-3" Status.cascade_pending destroyed).1

abbrev last_request : Request
last_request = or_default (find "dr-3" (requests_of certified)) (request_at Status.shred_requested)

three_calls : Steps start certified
three_calls = Steps.next (Step.created (env (ok []) wiped) "u3" "dr-3" "acme" none) (
    Steps.next (Step.advanced (env (ok []) wiped) "op-3" [] "dr-3" Status.key_destroyed) (
      Steps.next (Step.advanced (env (ok []) wiped) "op-3" [] "dr-3" Status.cascade_pending)
        Steps.done))

certified_here : find "dr-3" (requests_of certified) ≡ some last_request
unfolding find put values sort_desc create_request create_deletion_request
    get_active_deletion_request_for_user advance_request get_deletion_request is_valid_transition
    transitions handle destroy_key start_cascade prepare_cascade_trigger create_cleanup_plan
    get_key_status plan_redaction plan_encrypted_copy_deletion list_entries
    shortcut_to_cascade_complete advance_to_certificate issue_certificate claim_or_lose
    claim_transition update_deletion_request_status update_deletion_request_fields
    shred_key_for_user issue_and_store_certificate generate_claims signer_key_status signer_request
    assert_key_shredded assert_cascade_complete get_manual_registry_entries_for_tenant
    append_to_chain sign_claims timestamp publish upload_certificate has_connector to_lower_case
    get_registered_connector_names certificate_location
certified_here = refl

certified_issued : last_request.status ≡ Status.certificate_issued
unfolding find put values sort_desc create_request create_deletion_request
    get_active_deletion_request_for_user advance_request get_deletion_request is_valid_transition
    transitions handle destroy_key start_cascade prepare_cascade_trigger create_cleanup_plan
    get_key_status plan_redaction plan_encrypted_copy_deletion list_entries
    shortcut_to_cascade_complete advance_to_certificate issue_certificate claim_or_lose
    claim_transition update_deletion_request_status update_deletion_request_fields
    shred_key_for_user issue_and_store_certificate generate_claims signer_key_status signer_request
    assert_key_shredded assert_cascade_complete get_manual_registry_entries_for_tenant
    append_to_chain sign_claims timestamp publish upload_certificate has_connector to_lower_case
    get_registered_connector_names certificate_location
certified_issued = refl

issued_is_Shredded_example :
    Shredded (keys_of certified) (tenant_of last_request) last_request.user_id
issued_is_Shredded_example =
    issued_is_Shredded "dr-3" last_request refl three_calls certified_here certified_issued
