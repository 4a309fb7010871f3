-- ===== src/Routes/Registry/Callers.antt =====
-- routes/pii-registry.ts: the tenant of a call, and the gate of the routes that write.
use Prim.Native.Char.{code}
use chameleon_vault.Prelude.{
  ℕ, String, ◌&&◌, Option, none, some, is_some, nat_beq, if◌then◌else◌, or_default, ◌==◌,
}
use chameleon_vault.Keys.Registry.{or_text}
use chameleon_vault.Declarations.Registry.{Declarations}
use chameleon_vault.Declarations.Forms.Input.{is_space}
use chameleon_vault.Routes.Http.{Reply, refused, default_tenant}

unfoldable pub trim_start : String → String
trim_start String.[] = ""
trim_start (String.◌∷◌ c s) = let rest = trim_start s in if is_space c then rest else String.◌∷◌ c s

unfoldable pub trim_end : String → String
trim_end String.[] = ""
trim_end (String.◌∷◌ c s) =
    let rest = trim_end s in if is_space c && rest == "" then "" else String.◌∷◌ c rest

-- `tenantOf(request)`
unfoldable pub tenant_of : Option String → String
tenant_of none = default_tenant
tenant_of (some v) = or_default (or_text (some (trim_end (trim_start v))) none) default_tenant

unfoldable pub after_prefix : String → String → Option String
after_prefix String.[] s = some s
after_prefix (String.◌∷◌ c p) String.[] = none
after_prefix (String.◌∷◌ c p) (String.◌∷◌ d s) =
    let rest = after_prefix p s in if nat_beq (code c) (code d) then rest else none

-- Who calls: the analyst of the credential, and the `authorization` header.
pub record Caller : Type 0 where
  pub analyst : Option String
  pub authorization : Option String

-- `requireWriteAuth`: the status of a refusal.
unfoldable pub require_write_auth : Option String → Caller → Option ℕ
require_write_auth token c =
    if is_some (or_text c.analyst none) then none else elim (or_text token none) [
      | none ↦ some 503
      | some t ↦
          if or_default (after_prefix "Bearer " (or_default c.authorization "")) "" == t
          then none
          else some 401
    ]

abbrev pub gated :
    {A : Type 0}
    → Option ℕ
    → (Declarations → Reply A × Declarations)
    → Declarations
    → Reply A × Declarations
gated none m d = m d
gated (some code) m d = (refused code, d)
