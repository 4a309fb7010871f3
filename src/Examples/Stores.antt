-- ===== src/Examples/Stores.antt =====
-- The theorems on the requests, the keys, the janitor and the declarations, at sample stores.
use mathlib.Core.Bool.{false≢true}
use mathlib.Core.Logic.{inl}
use chameleon_vault.Prelude.Decimal.{show}
use chameleon_vault.Prelude.{
  false, ℕ, ◌≤◌, String, ◌≡◌, refl, ◌⊎◌, none, some, [], ◌∷◌, arith, ok, put, find, values, All,
  IsDescending, eq_iff,
}
use chameleon_vault.Requests.Types.{Status, WipeStatus, Request}
use chameleon_vault.Requests.Claim.{race, race_one_winner}
use chameleon_vault.Requests.Repository.{update_janitor_wipe_status}
use chameleon_vault.Requests.Wipes.{Recorded, update_janitor_wipe_status-Recorded}
use chameleon_vault.Requests.Queries.{created, list_by_requested_by, list_by_tenant_and_date_range}
use chameleon_vault.Requests.Queries.Pages.{Page, list_by_requested_by-Page, list_by_range_sound}
use chameleon_vault.Keys.Registry.{
  Keys, KeyMetadata, new_key, shred_key_for_user, rotate_key_for_user, get_key_for_user,
  has_active_key_material, version_id,
}
use chameleon_vault.Keys.Shredding.{
  rotate, shred, add_destination, run, apply, Unreadable, shred_forever,
}
use chameleon_vault.Keys.Rotation.{Rotated, rotate-Rotated}
use chameleon_vault.Keys.Isolation.{key_isolation}
use chameleon_vault.Janitor.Service.{
  create_cleanup_plan, process_cleanup, retry, max_retries, threw,
}
use chameleon_vault.Janitor.Retries.{Ends, janitor_retries}
use chameleon_vault.Janitor.Cleanup.{SettledAll, process_cleanup-SettledAll}
use chameleon_vault.Declarations.Registry.{Declarations, advance_sync_watermark, declaration_id}
use chameleon_vault.Declarations.Types.{PiiRegistryEntry}
use chameleon_vault.Declarations.Watermark.{watermark_advances}
use chameleon_vault.Redaction.Identifiers.{
  is_safe_identifier, assert_safe_identifiers, all_parts, parse_big_query_resource_id, until_dot,
}
use chameleon_vault.Redaction.Statements.{join, Statement, redact_statement}
use chameleon_vault.Redaction.Safety.{Parametrised, statement-Safe}
use chameleon_vault.Examples.Data.{request_at, requests_at, keys, orders, no_details}

race_one_winner_example :
    race "dr-1"
      (Status.shred_requested ∷ [])
      Status.key_destroyed
      (5 ∷ 6 ∷ 7 ∷ [])
      (requests_at Status.shred_requested)
    ≡ 1
unfolding find
race_one_winner_example =
    race_one_winner "dr-1" (Status.shred_requested ∷ []) Status.key_destroyed 5 (6 ∷ 7 ∷ [])
      (requests_at Status.shred_requested) (request_at Status.shred_requested) refl refl refl

update_janitor_wipe_status-Recorded_example :
    (new : Request) × (update_janitor_wipe_status 9 "dr-1" "salesforce" WipeStatus.failed no_details
        (requests_at Status.cascade_pending)
      ≡ (ok tt, put "dr-1" new (requests_at Status.cascade_pending)))
    × Recorded 9 "salesforce" WipeStatus.failed no_details (request_at Status.cascade_pending) new
unfolding find
update_janitor_wipe_status-Recorded_example =
    update_janitor_wipe_status-Recorded 9 "dr-1" "salesforce" WipeStatus.failed no_details
      (requests_at Status.cascade_pending) (request_at Status.cascade_pending) refl

list_by_requested_by-Page_example :
    Page "ana@acme.test" "acme" 20 (some 2000) (values (requests_at Status.key_destroyed)) (
      list_by_requested_by "ana@acme.test" "acme" 20 (some 2000) (requests_at Status.key_destroyed))
list_by_requested_by-Page_example =
    list_by_requested_by-Page "ana@acme.test" "acme" 20 (some 2000)
      (requests_at Status.key_destroyed)

list_by_range_sound_example :
    All
      (λ r. (r.tenant_id ≡ some "acme") × (900 ≤ r.created_at) × (r.created_at ≤ 1100))
      (list_by_tenant_and_date_range "acme" 900 1100 (requests_at Status.key_destroyed))
    × IsDescending created
        (list_by_tenant_and_date_range "acme" 900 1100 (requests_at Status.key_destroyed))
list_by_range_sound_example = list_by_range_sound "acme" 900 1100 (requests_at Status.key_destroyed)

shred_forever_example : Unreadable 8 "u1" "acme" (
    run
      ((3, rotate "u1" "ZGVr" "acme") ∷ (4, add_destination "u1" "hubspot" "acme") ∷ [])
      (shred_key_for_user 2 "u1" "acme" (some "dr-1") keys))
shred_forever_example =
    shred_forever 2 8 "u1" "acme" (some "dr-1")
      ((3, rotate "u1" "ZGVr" "acme") ∷ (4, add_destination "u1" "hubspot" "acme") ∷ []) keys
      (tt, (tt, tt))

abbrev live_key : KeyMetadata
live_key = new_key 1 "u2" "ZGVr"

abbrev live_keys : Keys
live_keys = ("acme:u2", live_key) ∷ []

rotate-Rotated_example :
    (id : String) × (new : KeyMetadata) × (rotate_key_for_user 5 "u2" "bmV3" "acme" live_keys
      ≡ (ok id, put "acme:u2" new live_keys))
    × Rotated "bmV3" id live_key new
unfolding find version_id show
rotate-Rotated_example =
    rotate-Rotated 5 "u2" "bmV3" "acme" live_keys live_key refl
      (record { some_key = omega arith; numbered = (refl, tt); active_last = refl; status = refl })

key_isolation_example :
    (get_key_for_user "u2" "acme" none (apply 6 (shred "u2" "other" none) live_keys)
      ≡ get_key_for_user "u2" "acme" none live_keys)
    × (has_active_key_material "u2" "acme" (apply 6 (shred "u2" "other" none) live_keys)
        ≡ has_active_key_material "u2" "acme" live_keys)
key_isolation_example =
    key_isolation 6 (shred "u2" "other" none) "u2" "acme" none live_keys
      ((λ e. omega arith), ((λ e. omega arith), tt)) ((λ e. omega arith), ((λ e. omega arith), tt))
      (inl (λ e. false≢true ((eq_iff "other" "acme").1 e)))

janitor_retries_example :
    Ends "hubspot"
      (λ n. threw "timeout")
      0
      max_retries
      (retry "hubspot" (λ n. threw "timeout") max_retries 0 "")
janitor_retries_example = janitor_retries "hubspot" (λ n. threw "timeout")

process_cleanup-SettledAll_example :
    SettledAll
      (λ letter. false)
      (create_cleanup_plan 3 "u1" "acme" keys)
      (process_cleanup 3 (λ d. some (λ n. threw "timeout")) (λ letter. false) "u1" "acme" keys)
process_cleanup-SettledAll_example =
    process_cleanup-SettledAll 3 (λ d. some (λ n. threw "timeout")) (λ letter. false) "u1" "acme"
      keys (λ d known. ((λ n. threw "timeout"), refl))

abbrev declared : Declarations
declared = record {
  entries = ("acme::bigquery:acme.shop.orders", orders) ∷ [];
  durable = ("acme:bigquery:acme.shop.orders", orders) ∷ [];
}

watermark_advances_example :
    (to : ℕ) × (d' : Declarations) × (e' : PiiRegistryEntry) × (advance_sync_watermark
        (λ s. s)
        none
        "acme"
        "bigquery:acme.shop.orders"
        5
        declared
      ≡ (ok to, d'))
    × (find (declaration_id (λ s. s) "acme" "bigquery:acme.shop.orders") d'.durable ≡ some e')
    × (e'.last_synced_at ≡ some to)
    × (5 ≤ to)
    × ((old : ℕ) → orders.last_synced_at ≡ some old → old ≤ to)
    × ((to ≡ 5) ⊎ (orders.last_synced_at ≡ some to))
unfolding find declaration_id
watermark_advances_example =
    watermark_advances (λ s. s) "acme" "bigquery:acme.shop.orders" 5 declared orders refl

abbrev redaction : Statement
redaction = record {
  query =
      "UPDATE `acme.shop.orders` SET email = NULL WHERE user_id = @userId AND tenant_id = @tenantId";
  user_id = "u1";
  tenant_id = some "acme";
}

statement-Safe_example : Parametrised orders redaction
unfolding redact_statement assert_safe_identifiers is_safe_identifier all_parts
    parse_big_query_resource_id until_dot join
statement-Safe_example = statement-Safe orders "u1" "acme" redaction refl
