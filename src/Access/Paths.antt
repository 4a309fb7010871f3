-- ===== src/Access/Paths.antt =====
-- middleware/auth.ts: the allowlists of paths.
use Prim.Native.Char.{code}
use chameleon_vault.Prelude.{
  String, Bool, false, ◌&&◌, ◌||◌, not, Option, none, some, [], ◌∷◌, nat_beq, if◌then◌else◌,
  includes, ◌==◌,
}
use chameleon_vault.Access.Types.{auditor, analyst}
use chameleon_vault.Access.Repository.{is_service}
use chameleon_vault.Access.Service.{ResolvedAnalystIdentity}

-- What follows the prefix, if the text starts with it.
unfoldable pub after : String → String → Option String
after String.[] s = some s
after (String.◌∷◌ c p) String.[] = none
after (String.◌∷◌ c p) (String.◌∷◌ d s) =
    let rest = after p s in if nat_beq (code c) (code d) then rest else none

-- The text before the first slash, and what follows it, if there is one.
unfoldable pub until_slash : String → String × Option String
until_slash String.[] = ("", none)
until_slash (String.◌∷◌ c s) =
    let rest = until_slash s in
    if nat_beq (code c) b'/' then ("", some s) else (String.◌∷◌ c rest.0, rest.1)

abbrev ends_there : String × Option String → Bool
ends_there (segment, none) = not (segment == "")
ends_there (segment, some _) = false

abbrev ends_in : String → String × Option String → Bool
ends_in suffix (segment, none) = false
ends_in suffix (segment, some s) = not (segment == "") && s == suffix

-- `^<prefix>[^/]+$`
abbrev pub is_child : String → String → Bool
is_child prefix path = elim (after prefix path) [
  | none ↦ false
  | some s ↦ ends_there (until_slash s)
]

-- `^<prefix>[^/]+/<suffix>$`
abbrev pub is_action : String → String → String → Bool
is_action prefix suffix path = elim (after prefix path) [
  | none ↦ false
  | some s ↦ ends_in suffix (until_slash s)
]

unfoldable pub is_analyst_credential_allowed_path : String → Bool
is_analyst_credential_allowed_path path =
    includes path (
      "/encrypt" ∷ "/decrypt" ∷ "/pii-registry/resources" ∷ "/deletion-requests"
      ∷ "/pii-vault/decrypt" ∷ [])
    || is_child "/pii-registry/resources/" path

unfoldable pub is_auditor_credential_allowed_path : String → Bool
is_auditor_credential_allowed_path path = is_child "/audit/key-status/" path

unfoldable pub is_service_credential_allowed_path : String → Bool
is_service_credential_allowed_path path =
    includes path ("/deletion-requests" ∷ [])
    || (is_child "/deletion-requests/" path
        || (is_action "/deletion-requests/" "advance" path || is_child "/certificate/" path))

unfoldable pub is_allowed_for_credential : ResolvedAnalystIdentity → String → Bool
is_allowed_for_credential identity path = elim identity.role [
  | auditor ↦ is_auditor_credential_allowed_path path
  | analyst ↦
      if is_service identity.kind
      then is_service_credential_allowed_path path
      else is_analyst_credential_allowed_path path
]

unfoldable pub is_exempt_from_auth : String → Bool
is_exempt_from_auth path =
    path == "/health"
    || (path == "/version"
        || (is_action "/admin/analyst-claims/" "claim" path
            || (path == "/internal/decrypted-views/batch-decrypt"
                || (includes path
                      ("/public-key" ∷ "/rekor-signing-public-key" ∷ "/.well-known/jwks.json" ∷ [])
                    || is_child "/certificate-chain/by-hash/" path))))
