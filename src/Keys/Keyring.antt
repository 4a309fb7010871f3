-- ===== src/Keys/Keyring.antt =====
-- What the registry promises of one user's key: there is none, its DEKs v1, v2 and so on are there, or it is
-- erased.
use chameleon_vault.Prelude.{
  ℕ, String, Bool, true, false, Option, none, some, List, [], ◌∷◌, ◌++◌, ◌==◌, if◌then◌else◌,
  values,
}
use chameleon_vault.Keys.Registry.{KeyMetadata, doc_id, is_exactly_shredded}
use chameleon_vault.Keys.Shredding.{KeyCall, set_key, rotate, shred, add_destination}
use chameleon_vault.Keys.Isolation.{tenant_of, user_of}

pub data Keyring : Type 0 where
  absent : Keyring
  live : List String → Keyring
  erased : Keyring

-- A rotation appends a DEK to a live key only.
abbrev pub rotate_ring : String → Keyring → Keyring
rotate_ring dek absent = absent
rotate_ring dek (live deks) = live (deks ++ dek ∷ [])
rotate_ring dek erased = erased

abbrev pub act : KeyCall → Keyring → Keyring
act (set_key u d t) r = live (d ∷ [])
act (rotate u d t) r = rotate_ring d r
act (shred u t request) r = erased
act (add_destination u d t) r = r

abbrev pub target : KeyCall → String
target c = doc_id (tenant_of c) (user_of c)

-- The calls for the document, in their order.
unfoldable pub run_ring : String → List (ℕ × KeyCall) → Keyring → Keyring
run_ring id [] r = r
run_ring id ((now, c) ∷ cs) r = run_ring id cs (if target c == id then act c r else r)

abbrev pub has_dek : Keyring → Bool
has_dek absent = false
has_dek (live deks) = true
has_dek erased = false

-- What a stored document stands for.
abbrev pub view : Option KeyMetadata → Keyring
view none = absent
view (some k) = if is_exactly_shredded k.status then erased else live (values k.deks)
