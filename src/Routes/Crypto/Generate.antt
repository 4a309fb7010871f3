-- ===== src/Routes/Crypto/Generate.antt =====
-- routes/crypto.ts: POST /key/generate, POST /keys/batch-generate and POST /key/rotate.
use chameleon_vault.Prelude.{
  ℕ, suc, String, Bool, true, ◌&&◌, Option, none, some, List, [], ◌∷◌, leb, all, length, Result, ok,
  err, if◌then◌else◌, or_default,
}
use chameleon_vault.Fault.{Fault, key_not_found, key_is_shredded}
use chameleon_vault.Keys.Registry.{get_key_for_user, set_key_for_user, rotate_key_for_user, or_text}
use chameleon_vault.Routes.Http.{
  Reply, sent, refused, tenant_header, UserRef, is_valid_ref, user_of, is_user_id, text_length,
  default_tenant,
}
use chameleon_vault.Routes.Crypto.Vault.{
  KeyVault, CryptoEnv, record_audit, key_created, key_rotated,
}

pub data Generated : Type 0 where
  exists : Generated
  generated : Generated

abbrev pub stored_key : CryptoEnv → String → String → String → KeyVault → KeyVault
stored_key env user tenant dek v =
    record_audit env key_created user
      (record v { keys = set_key_for_user env.now user dek tenant v.keys })

-- A key for the user, unless one can be read already. `i` tells the calls of a batch apart.
abbrev pub generate_for :
    CryptoEnv → ℕ → String → String → KeyVault → Result Fault Generated × KeyVault
generate_for env i tenant user v = elim (get_key_for_user user tenant none v.keys) [
  | some _ ↦ (ok exists, v)
  | none ↦ elim (env.new_dek i tenant) [
    | err e ↦ (err e, v)
    | ok dek ↦ (ok generated, stored_key env user tenant dek v)
  ]
]

abbrev generated_reply : Result Fault Generated × KeyVault → Reply Generated × KeyVault
generated_reply (ok exists, v) = (sent 200 exists, v)
generated_reply (ok generated, v) = (sent 201 generated, v)
generated_reply (err e, v) = (refused 500, v)

-- `ensureTenantKey` is called only for a user without a key.
abbrev ensured_reply : CryptoEnv → String → String → KeyVault → Reply Generated × KeyVault
ensured_reply env tenant user v = elim (get_key_for_user user tenant none v.keys) [
  | some _ ↦ (sent 200 exists, v)
  | none ↦ elim (env.ensure_tenant_key tenant) [
    | some e ↦ (refused 500, v)
    | none ↦ generated_reply (generate_for env 0 tenant user v)
  ]
]

unfoldable pub key_generate :
    CryptoEnv → Option String → UserRef → KeyVault → Reply Generated × KeyVault
key_generate env header body v =
    if is_valid_ref body
    then ensured_reply env (tenant_header header) (user_of body) v
    else (refused 400, v)

-- The users of a batch. They run together; for users that differ that is the same as one after another,
-- since each touches its own key. A rejection fails the call, and what the others stored stays.
abbrev prepend :
    String × Generated
    → Result Fault (List (String × Generated))
    → Result Fault (List (String × Generated))
prepend r (ok rs) = ok (r ∷ rs)
prepend r (err e) = err e

abbrev joined_result :
    String
    → Result Fault Generated
    → Result Fault (List (String × Generated))
    → Result Fault (List (String × Generated))
joined_result user (ok g) rs = prepend (user, g) rs
joined_result user (err e) rs = err e

unfoldable pub generate_all :
    CryptoEnv
    → ℕ
    → String
    → List String
    → KeyVault
    → Result Fault (List (String × Generated)) × KeyVault
generate_all env i tenant [] v = (ok [], v)
generate_all env i tenant (u ∷ us) v =
    let (r, v') = generate_for env i tenant u v in
    let (rs, v'') = generate_all env (suc i) tenant us v' in (joined_result u r rs, v'')

pub record BatchBody : Type 0 where
  pub user_ids : List String
  pub tenant_id_camel : Option String
  pub tenant_id_snake : Option String

abbrev optional_tenant : Option String → Bool
optional_tenant none = true
optional_tenant (some t) = leb 1 (text_length t) && leb (text_length t) 128

abbrev pub batch_tenant : Option String → BatchBody → String
batch_tenant header b =
    or_default (or_text header (or_text b.tenant_id_camel (or_text b.tenant_id_snake none)))
      default_tenant

abbrev batch_reply :
    Result Fault (List (String × Generated)) × KeyVault
    → Reply (List (String × Generated)) × KeyVault
batch_reply (ok rs, v) = (sent 200 rs, v)
batch_reply (err e, v) = (refused 500, v)

-- `batchGenerateSchema`
unfoldable pub is_valid_batch : BatchBody → Bool
is_valid_batch b =
    (all is_user_id b.user_ids && (leb 1 (length b.user_ids) && leb (length b.user_ids) 1000))
    && (optional_tenant b.tenant_id_camel && optional_tenant b.tenant_id_snake)

unfoldable pub batch_generate :
    CryptoEnv → Option String → BatchBody → KeyVault → Reply (List (String × Generated)) × KeyVault
batch_generate env header b v =
    if is_valid_batch b
    then elim (env.ensure_tenant_key (batch_tenant header b)) [
      | some e ↦ (refused 500, v)
      | none ↦ batch_reply (generate_all env 0 (batch_tenant header b) b.user_ids v)
    ]
    else (refused 500, v)

-- A failed rotation is a 404 for a key that is missing or shredded. What Joi refuses is a 500 here.
abbrev rotation_failure : Fault → ℕ
rotation_failure key_not_found = 404
rotation_failure key_is_shredded = 404
rotation_failure _ = 500

abbrev rotate_with :
    CryptoEnv → String → String → Result Fault String → KeyVault → Reply (Unit {0}) × KeyVault
rotate_with env tenant user (err e) v = (refused 500, v)
rotate_with env tenant user (ok dek) v =
    let (r, keys) = rotate_key_for_user env.now user dek tenant v.keys in
    elim r [
      | err e ↦ (refused (rotation_failure e), v)
      | ok version ↦ (sent 200 tt, record_audit env key_rotated user (record v { keys = keys }))
    ]

unfoldable pub key_rotate :
    CryptoEnv → Option String → UserRef → KeyVault → Reply (Unit {0}) × KeyVault
key_rotate env header body v =
    if is_valid_ref body
    then elim (env.ensure_tenant_key (tenant_header header)) [
      | some e ↦ (refused 500, v)
      | none ↦
          rotate_with env (tenant_header header) (user_of body)
            (env.new_dek 0 (tenant_header header)) v
    ]
    else (refused 500, v)
