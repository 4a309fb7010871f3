-- ===== src/Requests/Queries/Newest.antt =====
-- The queries for one user return the newest of all matching requests, and miss none.
use chameleon_vault.Prelude.{◌≤◌, ◌≡◌, Bool, true, false, Option, none, some, List, All}
use chameleon_vault.Requests.Types.{Request}
use chameleon_vault.Requests.Repository.{Requests}

-- The answer of "newest first, limit 1" among the members of a list that pass a test.
pub data IsNewest (p : Request → Bool) (rs : List Request) : Option Request → Type 0 where
  nothing : All (λ r. p r ≡ false) rs → IsNewest p rs none
  newest :
      {r : Request}
      → p r ≡ true
      → All (λ s. p s ≡ true → s.created_at ≤ r.created_at) rs
      → IsNewest p rs (some r)
