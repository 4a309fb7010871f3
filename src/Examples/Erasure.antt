-- ===== src/Examples/Erasure.antt =====
-- The theorems on the deletion routes, at sample worlds.
use mathlib.Core.Option.{some-injective, none-ne-some}
use chameleon_vault.Prelude.{
  String, Bool, true, refl, none, some, [], ◌∷◌, ok, find, sort_desc, values,
}
use chameleon_vault.Requests.Types.{Status}
use chameleon_vault.Requests.Queries.{get_active_deletion_request_for_user}
use chameleon_vault.Requests.Repository.{get_deletion_request}
use chameleon_vault.Keys.Registry.{new_key, key_status_of, get_key_status}
use chameleon_vault.Deletion.World.{World, keys_of, set_requests, set_keys}
use chameleon_vault.Deletion.Service.{get_request}
use chameleon_vault.Deletion.Keeps.{Shredded}
use chameleon_vault.Routes.Http.{is_valid_ref, is_user_id, all_id_chars, text_length}
use chameleon_vault.Routes.Deletion.{
  DeletionBody, shred_route, is_valid_shred, shred_operation, AdvanceBody,
}
use chameleon_vault.Routes.Shredding.{shred_route-Shredded}
use chameleon_vault.Routes.Tenants.{Hidden, IsBlind, routes-IsBlind}
use chameleon_vault.Examples.Data.{env, world_at, wiped, request_at}

abbrev body : DeletionBody
body = record {
  user = record { user_id_camel = some "u1"; user_id_snake = none };
  operation_id_camel = some "op-1";
  operation_id_snake = none;
}

-- A user with a key, and no requests.
abbrev live : World
live =
    set_keys (("acme:u1", new_key 5 "u1" "dek-1") ∷ [])
      (set_requests [] (world_at Status.shred_requested))

shred_route-Shredded_example :
    Shredded (keys_of (shred_route (env (ok []) wiped) (some "acme") none body live).1) "acme" "u1"
unfolding is_valid_shred is_valid_ref is_user_id all_id_chars text_length shred_operation
    get_request get_deletion_request get_active_deletion_request_for_user get_key_status find
    sort_desc values
shred_route-Shredded_example =
    shred_route-Shredded (env (ok []) wiped) (some "acme") none body live
      (key_status_of 1000000000 (new_key 5 "u1" "dek-1")) refl refl refl refl refl

abbrev is_uuid : String → Bool
is_uuid s = true

abbrev advance_body : AdvanceBody
advance_body = record {
  new_status_camel = some (some Status.key_destroyed);
  new_status_snake = none;
  operation_camel = some "op-2";
  operation_snake = none;
}

request_at-Hidden : Hidden (some "beta") "dr-1" (world_at Status.shred_requested)
unfolding find
request_at-Hidden r here = rw⁻¹ (some-injective (request_at Status.shred_requested) r here) refl

live-Hidden : Hidden (some "beta") "dr-1" live
unfolding find
live-Hidden r here = absurd (none-ne-some r here)

routes-IsBlind_example :
    IsBlind is_uuid
      (env (ok []) wiped)
      (some "beta")
      "dr-1"
      advance_body
      (world_at Status.shred_requested)
      live
routes-IsBlind_example =
    routes-IsBlind is_uuid (env (ok []) wiped) (some "beta") "dr-1" advance_body
      (world_at Status.shred_requested) live request_at-Hidden live-Hidden
