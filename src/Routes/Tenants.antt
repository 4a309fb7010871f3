-- ===== src/Routes/Tenants.antt =====
-- A tenant cannot tell another tenant's deletion request from one that does not exist.
use chameleon_vault.Prelude.{
  String, ◌≡◌, refl, inl, inr, Bool, false, ◌&&◌, Option, none, some, find, or_default, ◌==◌,
  Bool-cases, Option-cases,
}
use chameleon_vault.Requests.Types.{Status, Request}
use chameleon_vault.Requests.Repository.{get_deletion_request}
use chameleon_vault.Deletion.World.{World, Env, requests_of}
use chameleon_vault.Deletion.Service.{get_request}
use chameleon_vault.Routes.Http.{tenant_header, default_tenant}
use chameleon_vault.Routes.Deletion.{
  visible, get_route, AdvanceBody, is_valid_advance, advance_visible, advance_route,
}

-- The id has no request that the tenant may see.
abbrev pub Hidden : Option String → String → World → Type 0
Hidden header id w =
    (r : Request)
    → find id (requests_of w) ≡ some r
    → (or_default r.tenant_id default_tenant == tenant_header header) ≡ false

visible-none :
    (header : Option String) (id : String) (w : World)
    → Hidden header id w
    → visible (tenant_header header) (get_request id w) ≡ none
unfolding visible get_request get_deletion_request
visible-none header id w h = elim (Option-cases (find id (requests_of w))) [
  | inl gone ↦ rw (visible, get_request, get_deletion_request, gone) refl
  | inr (r, here) ↦ rw (visible, get_request, get_deletion_request, here, h r here) refl
]

-- What both routes answer a tenant of an id that it may not see.
pub record IsBlind (is_uuid : String → Bool) (env : Env) (header : Option String) (id : String)
    (b : AdvanceBody) (w v : World) : Type 0 where
  pub get_same : get_route is_uuid header id w ≡ get_route is_uuid header id v
  pub advance_same :
      (advance_route is_uuid env header id b w).0 ≡ (advance_route is_uuid env header id b v).0
  pub untouched : (advance_route is_uuid env header id b w).1 ≡ w

blind_advance :
    (env : Env) (id op : String) (new : Option Status) (w v : World)
    → ((advance_visible env id op new none w).0 ≡ (advance_visible env id op new none v).0)
      × ((advance_visible env id op new none w).1 ≡ w)
blind_advance env id op none w v = (refl, refl)
blind_advance env id op (some s) w v = (refl, refl)

-- For an id of which the tenant sees no request in two worlds, say another tenant's in one and none in
-- the other, GET and advance answer the same in both, and an advance changes nothing.
pub routes-IsBlind :
    (is_uuid : String → Bool) (env : Env) (header : Option String) (id : String) (b : AdvanceBody)
    (w v : World)
    → Hidden header id w
    → Hidden header id v
    → IsBlind is_uuid env header id b w v
unfolding get_route advance_route
routes-IsBlind is_uuid env header id b w v hw hv =
    let sees_none = visible-none header id w hw in
    let sees_none' = visible-none header id v hv in
    elim (Bool-cases (is_uuid id && is_valid_advance is_uuid b)) [
      | inl valid ↦
          let (same, untouched) = blind_advance env id _ _ w v in
          record {
            get_same = rw (sees_none, sees_none') refl;
            advance_same = rw (advance_route, valid, sees_none, sees_none') same;
            untouched = rw (advance_route, valid, sees_none) untouched;
          }
      | inr refused ↦ record {
        get_same = rw (sees_none, sees_none') refl;
        advance_same = rw (advance_route, refused) refl;
        untouched = rw (advance_route, refused) refl;
      }
    ]
