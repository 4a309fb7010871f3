-- ===== src/Routes/Crypto/Status.antt =====
-- routes/crypto.ts: GET /key-status, the encryption context of one user and of a batch; and
-- routes/auditor-verify.ts. The names of the algorithms are left out of a context.
use chameleon_vault.Prelude.{ℕ, String, Bool, Option, none, some, List, [], ◌∷◌, map, if◌then◌else◌}
use chameleon_vault.Keys.Registry.{
  KeyState, KeyStatus, KeyData, Keys, is_shredded, get_key_status, get_key_for_user,
  has_active_key_material,
}
use chameleon_vault.Routes.Http.{
  Reply, sent, refused, tenant_header, UserRef, is_valid_ref, user_of, is_user_id,
}
use chameleon_vault.Routes.Crypto.Vault.{CryptoEnv}
use chameleon_vault.Routes.Crypto.Generate.{BatchBody, is_valid_batch, batch_tenant}

abbrev status_reply : Option KeyStatus → Reply KeyStatus
status_reply none = refused 404
status_reply (some s) = sent 200 s

-- What Joi refuses is a 500 here.
unfoldable pub key_status_route : ℕ → Option String → String → Keys → Reply KeyStatus
key_status_route now header user m =
    if is_user_id user
    then status_reply (get_key_status now user (tenant_header header) m)
    else refused 500

pub record EncryptionContext : Type 0 where
  pub user_id : String
  pub key_id : Option String
  pub encrypted_dek : String
  pub encryption_version : String
  pub status : KeyState

-- `keyStatus.encryption_version || 'v1'`: `getKeyStatus` sets no version.
abbrev context_of : String → KeyStatus → Option KeyData → Reply EncryptionContext
context_of user s none = refused 500
context_of user s (some k) = sent 200 (record {
  user_id = user;
  key_id = k.active_dek_id;
  encrypted_dek = k.encrypted_dek;
  encryption_version = "v1";
  status = s.status;
})

-- The answer for one user: no context for a key that is missing or shredded.
unfoldable pub context_for : ℕ → String → String → Keys → Reply EncryptionContext
context_for now tenant user m = elim (get_key_status now user tenant m) [
  | none ↦ refused 404
  | some s ↦
      if is_shredded s.status
      then refused 404
      else context_of user s (get_key_for_user user tenant none m)
]

unfoldable pub encryption_context_route :
    ℕ → Option String → UserRef → Keys → Reply EncryptionContext
encryption_context_route now header params m =
    if is_valid_ref params
    then context_for now (tenant_header header) (user_of params) m
    else refused 500

pub record BatchContexts : Type 0 where
  pub results : List (String × Reply EncryptionContext)
  pub contexts : List EncryptionContext

abbrev contexts_in : List (Reply EncryptionContext) → List EncryptionContext
contexts_in [] = []
contexts_in (sent n c ∷ rs) = c ∷ contexts_in rs
contexts_in (refused n ∷ rs) = contexts_in rs

abbrev batch_contexts : ℕ → String → List String → Keys → BatchContexts
batch_contexts now tenant users m = record {
  results = map (λ u. (u, context_for now tenant u m)) users;
  contexts = contexts_in (map (λ u. context_for now tenant u m) users);
}

unfoldable pub batch_context_route :
    CryptoEnv → Option String → BatchBody → Keys → Reply BatchContexts
batch_context_route env header b m =
    if is_valid_batch b
    then elim (env.ensure_tenant_key (batch_tenant header b)) [
      | some e ↦ refused 500
      | none ↦ sent 200 (batch_contexts env.now (batch_tenant header b) b.user_ids m)
    ]
    else refused 400

-- GET /audit/key-status/:userId
unfoldable pub auditor_route : Option String → String → Keys → Reply Bool
auditor_route header user m = sent 200 (has_active_key_material user (tenant_header header) m)
