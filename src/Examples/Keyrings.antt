-- ===== src/Examples/Keyrings.antt =====
-- The refinement of the key registry, at a sample history.
use chameleon_vault.Prelude.{ℕ, List, [], ◌∷◌, none}
use chameleon_vault.Keys.Registry.{doc_id}
use chameleon_vault.Keys.Shredding.{KeyCall, set_key, rotate, shred, run}
use chameleon_vault.Keys.Keyring.{absent, run_ring}
use chameleon_vault.Keys.Refinement.{Implements, run-Implements}

abbrev history : List (ℕ × KeyCall)
history =
    (1, set_key "u1" "dek-1" "acme")
    ∷ (2, set_key "u2" "dek-2" "acme")
    ∷ (3, rotate "u1" "dek-3" "acme")
    ∷ (4, shred "u2" "acme" none)
    ∷ []

run-Implements_example :
    Implements (run_ring (doc_id "acme" "u1") history absent) "u1" "acme" (run history [])
run-Implements_example = run-Implements history "u1" "acme"
