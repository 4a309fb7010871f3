-- ===== src/Janitor/Names.antt =====
-- services/registry.ts: the connectors that the process registers, found by a name in any case. The
-- case of a text is folded as `toLowerCase` folds ASCII; every registered name is ASCII.
use Prim.Native.Char.{Char, code}
use Prim.Native.String.{String}
use chameleon_vault.Prelude.{
  ◌≡◌, refl, Bool, true, false, List, [], ◌∷◌, nat_beq, if◌then◌else◌, includes,
}

abbrev lower_char : Char → Char
lower_char c =
    if nat_beq (code c) b'A'
    then "a"
    else if nat_beq (code c) b'B'
    then "b"
    else if nat_beq (code c) b'C'
    then "c"
    else if nat_beq (code c) b'D'
    then "d"
    else if nat_beq (code c) b'E'
    then "e"
    else if nat_beq (code c) b'F'
    then "f"
    else if nat_beq (code c) b'G'
    then "g"
    else if nat_beq (code c) b'H'
    then "h"
    else if nat_beq (code c) b'I'
    then "i"
    else if nat_beq (code c) b'J'
    then "j"
    else if nat_beq (code c) b'K'
    then "k"
    else if nat_beq (code c) b'L'
    then "l"
    else if nat_beq (code c) b'M'
    then "m"
    else if nat_beq (code c) b'N'
    then "n"
    else if nat_beq (code c) b'O'
    then "o"
    else if nat_beq (code c) b'P'
    then "p"
    else if nat_beq (code c) b'Q'
    then "q"
    else if nat_beq (code c) b'R'
    then "r"
    else if nat_beq (code c) b'S'
    then "s"
    else if nat_beq (code c) b'T'
    then "t"
    else if nat_beq (code c) b'U'
    then "u"
    else if nat_beq (code c) b'V'
    then "v"
    else if nat_beq (code c) b'W'
    then "w"
    else if nat_beq (code c) b'X'
    then "x"
    else if nat_beq (code c) b'Y'
    then "y"
    else if nat_beq (code c) b'Z'
    then "z"
    else c

unfoldable pub to_lower_case : String → String
to_lower_case String.[] = ""
to_lower_case (String.◌∷◌ c s) = String.◌∷◌ (lower_char c) (to_lower_case s)

unfoldable pub get_registered_connector_names : List String
get_registered_connector_names = "hubspot" ∷ "salesforce" ∷ []

-- `connectorRegistry.getConnector(name) !== undefined`
unfoldable pub has_connector : String → Bool
unfolding to_lower_case get_registered_connector_names
has_connector name = includes (to_lower_case name) get_registered_connector_names

mixed_case : (has_connector "HubSpot" ≡ true) × (has_connector "mailchimp" ≡ false)
unfolding has_connector
mixed_case = (refl, refl)
