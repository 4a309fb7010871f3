-- ===== src/Requests/Queries/Pages.antt =====
-- The paginated list by requester, and the list of a period.
use chameleon_vault.Prelude.{
  ℕ, ◌+◌, ◌≤◌, ◌<◌, String, ◌≡◌, refl, Bool, true, Option, none, some, List, [], ◌∷◌, arith, keep,
  All, All-keep, All-of_keep, All-map, values, sort_desc, length, length-take-le, IsDescending,
  take-IsDescending, drop, count-take, count-sort_desc, take-drop_desc, length-take, All-take-drop,
  sort_desc-IsDescending, All-sort_desc, All-of_sort_desc, All-take, eq_iff,
}
use chameleon_vault.Requests.Types.{Request}
use chameleon_vault.Requests.Repository.{Requests}
use chameleon_vault.Requests.Queries.{
  created, is_text, requested_by, in_range, list_by_requested_by, list_by_tenant_and_date_range,
}

is_text→some : (t : Option String) (v : String) → is_text t v ≡ true → t ≡ some v
is_text→some none v h = cc
is_text→some (some t) v h = ground (arith, eq_iff t v)

-- A request that the call asks for: of this person and tenant, and older than the cursor, if there is one.
abbrev pub Asked : String → String → Option ℕ → Request → Type 0
Asked email tenant_id before r =
    (r.requested_by ≡ some email)
    × (r.tenant_id ≡ some tenant_id)
    × ((cursor : ℕ) → before ≡ some cursor → r.created_at < cursor)

-- What a page of `listByRequestedBy` is of the stored requests. `left` are those that it leaves out.
pub record Page (email tenant_id : String) (limit : ℕ) (before : Option ℕ) (stored : List Request)
    (page : List Request) : Type 1 where
  pub left : List Request
  pub bounded : length page ≤ limit
  pub descending : IsDescending created page
  pub asked : All (Asked email tenant_id before) page
  pub complete :
      (Q : Request → Type 0)
      → All Q page
      → All Q left
      → All (λ r. Asked email tenant_id before r → Q r) stored
  pub single :
      (p : Request → Bool) → length (keep p page) + length (keep p left) ≤ length (keep p stored)
  pub newest : All (λ r. All (λ s. s.created_at ≤ r.created_at) left) page
  pub full : 0 < length left → length page ≡ limit

module _ (email tenant_id : String) where
  test→Asked :
      (before : Option ℕ) (r : Request)
      → requested_by email tenant_id before r ≡ true
      → Asked email tenant_id before r
  test→Asked none r h = (
    is_text→some r.requested_by email (ground arith),
    is_text→some r.tenant_id tenant_id (ground arith),
    λ cursor e. ground arith,
  )
  test→Asked (some t) r h = (
    is_text→some r.requested_by email (ground arith),
    is_text→some r.tenant_id tenant_id (ground arith),
    λ cursor e. ground arith,
  )

  Asked→test :
      (before : Option ℕ) (r : Request)
      → Asked email tenant_id before r
      → requested_by email tenant_id before r ≡ true
  Asked→test none r (person, tenant, _) =
      rw (person, tenant) (ground (arith, eq_iff email email, eq_iff tenant_id tenant_id))
  Asked→test (some t) r (person, tenant, older) =
      let younger : r.created_at < t = older t refl in
      rw (person, tenant) (ground (arith, eq_iff email email, eq_iff tenant_id tenant_id))

count-keep-le :
    (p q : Request → Bool) (rs : List Request) → length (keep p (keep q rs)) ≤ length (keep p rs)
count-keep-le p q [] = omega arith
count-keep-le p q (r ∷ rs) = ground (arith, count-keep-le p q rs)

-- A page holds at most `limit` requests, newest first, all asked for: of the person and the tenant, and
-- older than the cursor if there is one. Each stored request that is asked for is on the page or left out,
-- and none is there more often than it is stored; what is left out is not newer than what is on the page,
-- and nothing is left out unless the page has `limit` requests.
pub list_by_requested_by-Page :
    (email tenant_id : String) (limit : ℕ) (before : Option ℕ) (m : Requests)
    → Page email tenant_id limit before
        (values m)
        (list_by_requested_by email tenant_id limit before m)
unfolding list_by_requested_by
list_by_requested_by-Page email tenant_id limit before m = record {
  left = drop limit sorted;
  bounded = length-take-le limit sorted;
  descending = take-IsDescending created limit sorted ordered;
  asked = All-take created _ limit sorted (
      All-sort_desc created _ matches
        (All-keep _ p (values m) (test→Asked email tenant_id before)));
  complete = λ Q here there.
      All-map (λ r h a. h (Asked→test email tenant_id before r a)) (values m)
        (All-of_keep Q p (values m)
          (All-of_sort_desc created Q matches (All-take-drop Q limit sorted here there)));
  single = λ q. omega (
    arith,
    count-take q limit sorted,
    count-sort_desc created q matches,
    count-keep-le q p (values m),
  );
  newest = take-drop_desc created limit sorted ordered;
  full = length-take limit sorted;
}
  where
    p : Request → Bool
    p = requested_by email tenant_id before

    matches : List Request
    matches = keep p (values m)

    sorted : List Request
    sorted = sort_desc created matches

    ordered : IsDescending created sorted
    ordered = sort_desc-IsDescending created matches

-- `listByTenantAndDateRange` lists exactly the period: what holds of every listed request holds of
-- every stored request of the tenant whose `created_at` lies in the closed range, and each listed
-- one is such a request; newest first.
pub list_by_range_complete :
    (tenant_id : String) (from to : ℕ) (m : Requests) (Q : Request → Type 0)
    → All Q (list_by_tenant_and_date_range tenant_id from to m)
    → All (λ r. in_range tenant_id from to r ≡ true → Q r) (values m)
unfolding list_by_tenant_and_date_range
list_by_range_complete tenant_id from to m Q h =
    All-of_keep Q (in_range tenant_id from to) (values m) (All-of_sort_desc created Q _ h)

range_item :
    (tenant_id : String) (from to : ℕ) (r : Request)
    → in_range tenant_id from to r ≡ true
    → (r.tenant_id ≡ some tenant_id) × (from ≤ r.created_at) × (r.created_at ≤ to)
range_item tenant_id from to r h =
    (is_text→some r.tenant_id tenant_id (ground arith), ground arith, ground arith)

pub list_by_range_sound :
    (tenant_id : String) (from to : ℕ) (m : Requests)
    → All
        (λ r. (r.tenant_id ≡ some tenant_id) × (from ≤ r.created_at) × (r.created_at ≤ to))
        (list_by_tenant_and_date_range tenant_id from to m)
      × IsDescending created (list_by_tenant_and_date_range tenant_id from to m)
unfolding list_by_tenant_and_date_range
list_by_range_sound tenant_id from to m =
    let p = in_range tenant_id from to in
    (
      All-sort_desc created _ (keep p (values m))
          (All-keep _ p (values m) (range_item tenant_id from to)),
      sort_desc-IsDescending created (keep p (values m)),
    )
