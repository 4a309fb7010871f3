-- ===== src/Janitor/Connectors.antt =====
-- services/connectors/hubspot-connector.ts and salesforce-connector.ts. The HTTP client is a
-- parameter: what the search and each deletion answer. An error of the client has a status if the
-- server answered, and a message; the message is handed on and is all of the error's text.
use chameleon_vault.Prelude.{
  ℕ, String, Bool, true, false, ◌&&◌, ◌||◌, Option, none, some, List, [], ◌∷◌, ltb, leb, nat_beq,
  if◌then◌else◌, length, or_default,
}
use chameleon_vault.Prelude.Decimal.{show}
use Prim.Native.String

pub record WipeResult : Type 0 where
  pub success : Bool
  pub destination : String
  pub error : Option String
  pub retryable : Option Bool
  pub records_found : Option ℕ

pub record HttpError : Type 0 where
  pub status : Option ℕ
  pub message : String
  -- `error.response?.data?.message`
  pub data_message : Option String

pub data Reply {ℓ} (A : Type ℓ) : Type ℓ where
  answered : A → Reply A
  rejected : HttpError → Reply A

-- The client: the ids that the search finds, and the answer to the deletion of each.
pub record Client : Type 0 where
  pub search : String → Reply (List String)
  pub remove : String → Reply (Unit {0})

abbrev has_status : (ℕ → Bool) → Option ℕ → Bool
has_status p none = false
has_status p (some s) = p s

abbrev pub transient : Option ℕ → Bool
transient = has_status (λ s. nat_beq s 429 || (leb 500 s && ltb s 600))

abbrev wiped : String → ℕ → WipeResult
wiped name n = record {
  success = true;
  destination = name;
  error = none;
  retryable = none;
  records_found = some n;
}

abbrev failure : String → String → Option Bool → WipeResult
failure name message retryable = record {
  success = false;
  destination = name;
  error = some message;
  retryable = retryable;
  records_found = none;
}

-- The deletions, in order, up to the first that rejects.
remove_all : Client → List String → Reply (Unit {0})
remove_all c [] = answered tt
remove_all c (id ∷ ids) = elim (c.remove id) [
  | answered _ ↦ remove_all c ids
  | rejected e ↦ rejected e
]

-- Search, then delete all that was found; `caught` is the handler of the `catch`.
abbrev search_and_remove : String → Client → String → (HttpError → WipeResult) → WipeResult
search_and_remove name c user_id caught = elim (c.search user_id) [
  | rejected e ↦ caught e
  | answered ids ↦ elim (remove_all c ids) [
    | answered _ ↦ wiped name (length ids)
    | rejected e ↦ caught e
  ]
]

abbrev hubspot_caught : HttpError → WipeResult
hubspot_caught e = failure "hubspot" e.message (some (transient e.status))

-- `this.apiToken || process.env.HUBSPOT_API_KEY`: an empty token counts as missing, and is `none`.
unfoldable pub hubspot_wipe : Option String → Client → String → WipeResult
unfolding remove_all
hubspot_wipe none c user_id = failure "hubspot" "Configuration error" none
hubspot_wipe (some token) c user_id = search_and_remove "hubspot" c user_id hubspot_caught

abbrev refused_auth : Option ℕ → Bool
refused_auth = has_status (λ s. nat_beq s 401 || nat_beq s 403)

abbrev server_error : ℕ → String
server_error s = String.◌++◌ "Server error (" (String.◌++◌ (show s) ")")

-- The order of the tests is the source's: 429, then 401 and 403, then 500 and above.
abbrev salesforce_caught : HttpError → WipeResult
salesforce_caught e =
    if has_status (λ s. nat_beq s 429) e.status
    then failure "salesforce" "Rate limited" (some true)
    else if refused_auth e.status
    then failure "salesforce" "Authentication failed" (some false)
    else if has_status (λ s. leb 500 s) e.status
    then failure "salesforce" (server_error (or_default e.status 0)) (some true)
    else failure "salesforce" (or_default e.data_message e.message) (some (transient e.status))

unfoldable pub salesforce_wipe : Option String → Client → String → WipeResult
unfolding remove_all
salesforce_wipe none c user_id = failure "salesforce" "Configuration error" none
salesforce_wipe (some key) c user_id = search_and_remove "salesforce" c user_id salesforce_caught
