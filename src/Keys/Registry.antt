-- ===== src/Keys/Registry.antt =====
-- gcp/firestore-registry.ts. A key document that a merge created may lack any field. The map of the
-- DEKs keeps its insertion order; a DEK is its base64 text, so decoding it to a buffer is left out.
-- A call is given its reading of the clock, and Firestore answers: an outage is the callers' concern.
use Prim.Native.String
use chameleon_vault.Prelude.{
  ℕ, ◌+◌, String, Bool, true, false, ◌&&◌, ◌||◌, not, Option, none, some, List, [], ◌∷◌, ◌++◌,
  if◌then◌else◌, or_else, or_default, ◌==◌, Docs, find, put, ok, err, Exec, length, includes,
  nat_beq,
}
use chameleon_vault.Prelude.Decimal.{show, joined}
use chameleon_vault.Fault.{Fault, key_not_found, key_is_shredded}

pub data KeyState : Type 0 where
  active : KeyState
  rotated : KeyState
  shredded : KeyState
  deleted : KeyState

pub record Tokenization : Type 0 where
  pub algorithm : String
  pub token_key_id : String

pub record KeyMetadata : Type 0 where
  pub user_id : Option String
  pub deks : Docs String
  pub active_dek_id : Option String
  pub status : KeyState
  pub created_at : Option ℕ
  pub shred_at : Option ℕ
  pub rotated_at : Option ℕ
  pub encryption_version : Option String
  pub tokenization : Option Tokenization
  pub deletion_request_id : Option String
  pub destinations : Option (List String)

abbrev pub Keys : Type 0
Keys = Docs KeyMetadata

-- `${tenantId}:${userId}`
abbrev pub doc_id : String → String → String
doc_id tenant_id user_id = joined ":" tenant_id user_id

abbrev pub is_shredded : KeyState → Bool
is_shredded shredded = true
is_shredded deleted = true
is_shredded _ = false

-- What `getKeyForUser` hands out.
pub record KeyData : Type 0 where
  pub encrypted_dek : String
  pub active_dek_id : Option String
  pub encryption_version : String

-- `a || b` on texts: an empty text counts as missing.
abbrev pub or_text : Option String → Option String → Option String
or_text none b = b
or_text (some t) b = if t == "" then b else some t

-- `deks[id]`; an empty text counts as missing.
abbrev dek_of : Option String → Docs String → Option String
dek_of none deks = none
dek_of (some id) deks = if id == "" then none else or_text (find id deks) none

abbrev key_data : KeyMetadata → Option String → Option KeyData
key_data k none = none
key_data k (some dek) = some (record {
  encrypted_dek = dek;
  active_dek_id = k.active_dek_id;
  encryption_version = or_default (or_text k.encryption_version none) "v1";
})

abbrev read_key : Option String → Option KeyMetadata → Option KeyData
read_key version none = none
read_key version (some k) =
    if is_shredded k.status || nat_beq (length k.deks) 0
    then none
    else key_data k (dek_of (or_text version k.active_dek_id) k.deks)

unfoldable pub get_key_for_user : String → String → Option String → Keys → Option KeyData
get_key_for_user user_id tenant_id version m = read_key version (find (doc_id tenant_id user_id) m)

abbrev pub new_key : ℕ → String → String → KeyMetadata
new_key now user_id dek = record {
  user_id = some user_id;
  deks = ("v1", dek) ∷ [];
  active_dek_id = some "v1";
  status = active;
  created_at = some now;
  shred_at = none;
  rotated_at = none;
  encryption_version = some "v2";
  tokenization =
      some (record { algorithm = "HMAC-SHA256"; token_key_id = "chameleon-token-key-v1" });
  deletion_request_id = none;
  destinations = none;
}

-- `set(metadata, { merge: false })`: whatever stood there is replaced.
unfoldable pub set_key_for_user : ℕ → String → String → String → Keys → Keys
set_key_for_user now user_id dek tenant_id m =
    put (doc_id tenant_id user_id) (new_key now user_id dek) m

-- `v${n}`
unfoldable pub version_id : ℕ → String
version_id n = String.◌++◌ "v" (show n)

abbrev pub rotated_key : ℕ → String → String → KeyMetadata → KeyMetadata
rotated_key now id dek k = record k {
  deks = put id dek k.deks;
  active_dek_id = some id;
  status = active;
  rotated_at = some now;
}

-- The test of the status is for SHREDDED alone; a key that is DELETED has no active DEK either.
abbrev pub is_exactly_shredded : KeyState → Bool
is_exactly_shredded shredded = true
is_exactly_shredded _ = false

abbrev pub rotate_at : ℕ → String → String → Option KeyMetadata → Exec Fault Keys String
rotate_at now id dek none m = (err key_not_found, m)
rotate_at now id dek (some k) m =
    if is_exactly_shredded k.status then (err key_is_shredded, m) else elim k.active_dek_id [
      | none ↦ (err key_is_shredded, m)
      | some _ ↦
          let version = version_id (length k.deks + 1) in
          (ok version, put id (rotated_key now version dek k) m)
    ]

unfoldable pub rotate_key_for_user : ℕ → String → String → String → Exec Fault Keys String
rotate_key_for_user now user_id dek tenant_id m =
    rotate_at now (doc_id tenant_id user_id) dek (find (doc_id tenant_id user_id) m) m

-- A document that only a merge has written.
abbrev pub empty_key : KeyMetadata
empty_key = record {
  user_id = none;
  deks = [];
  active_dek_id = none;
  status = shredded;
  created_at = none;
  shred_at = none;
  rotated_at = none;
  encryption_version = none;
  tokenization = none;
  deletion_request_id = none;
  destinations = none;
}

-- `set(update, { merge: true })`: the empty map of DEKs replaces the old one.
abbrev pub shred_fields : ℕ → Option String → KeyMetadata → KeyMetadata
shred_fields now deletion_request_id k = record k {
  deks = [];
  active_dek_id = none;
  status = shredded;
  shred_at = some now;
  deletion_request_id = or_else (or_text deletion_request_id none) k.deletion_request_id;
}

unfoldable pub shred_key_for_user : ℕ → String → String → Option String → Keys → Keys
shred_key_for_user now user_id tenant_id deletion_request_id m =
    put (doc_id tenant_id user_id)
      (shred_fields now deletion_request_id
        (or_default (find (doc_id tenant_id user_id) m) empty_key))
      m

abbrev has_material : Option KeyMetadata → Bool
has_material none = false
has_material (some k) = not (is_shredded k.status) && not (nat_beq (length k.deks) 0)

-- `status === 'ACTIVE' || status === 'ROTATED'`, and a DEK is there.
unfoldable pub has_active_key_material : String → String → Keys → Bool
has_active_key_material user_id tenant_id m = has_material (find (doc_id tenant_id user_id) m)

-- types/index.ts, `KeyStatus`, with the fields that this registry fills in.
pub record KeyStatus : Type 0 where
  pub status : KeyState
  pub created_at : ℕ
  pub shred_at : Option ℕ
  pub rotated_at : Option ℕ
  pub active_dek_id : Option String
  pub destinations : Option (List String)

abbrev pub key_status_of : ℕ → KeyMetadata → KeyStatus
key_status_of now k = record {
  status = k.status;
  created_at = or_default k.created_at now;
  shred_at = k.shred_at;
  rotated_at = k.rotated_at;
  active_dek_id = k.active_dek_id;
  destinations = k.destinations;
}

unfoldable pub get_key_status : ℕ → String → String → Keys → Option KeyStatus
get_key_status now user_id tenant_id m = elim (find (doc_id tenant_id user_id) m) [
  | none ↦ none
  | some k ↦ some (key_status_of now k)
]

-- `FieldValue.arrayUnion(destination)`
abbrev pub add_destination : String → Option (List String) → List String
add_destination d none = d ∷ []
add_destination d (some ds) = if includes d ds then ds else ds ++ d ∷ []

-- The update of a missing document rejects, and the method swallows that.
unfoldable pub add_destination_to_user : String → String → String → Keys → Keys
add_destination_to_user user_id destination tenant_id m = elim (find (doc_id tenant_id user_id) m) [
  | none ↦ m
  | some k ↦
      put (doc_id tenant_id user_id)
        (record k { destinations = some (add_destination destination k.destinations) }) m
]
