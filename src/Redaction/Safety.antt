-- ===== src/Redaction/Safety.antt =====
-- services/source-redaction-service.ts, `redactOne`: the names in an UPDATE statement are plain identifiers.
use chameleon_vault.Prelude.{
  String, ◌≡◌, inl, inr, true, none, some, List, [], ◌∷◌, ◌++◌, arith, ok, and_then-ok, err-ne-ok,
  refl, ap, sym, ◌∙◌, ok-injective, Option, Bool-cases, All,
}
use chameleon_vault.Keys.Registry.{or_text}
use chameleon_vault.Declarations.Types.{PiiRegistryEntry}
use chameleon_vault.Redaction.Identifiers.{
  is_safe_identifier, assert_safe_identifiers, parse_big_query_resource_id, TableRef,
}
use chameleon_vault.Redaction.Statements.{
  Statement, redact_statement, update_text, scope, names_of, present, require_bigquery,
  require_user_column, require_fields,
}

abbrev pub Safe : String → Type 0
Safe i = is_safe_identifier i ≡ true

pub Safe-All : (is : List String) → assert_safe_identifiers is ≡ ok tt → All Safe is
unfolding assert_safe_identifiers
Safe-All [] h = tt
Safe-All (i ∷ is) h = elim (Bool-cases (is_safe_identifier i)) [
  | inl safe ↦ (safe, Safe-All is (rw (safe, assert_safe_identifiers) at h))
  | inr unsafe ↦ absurd (err-ne-ok _ tt (rw (unsafe, assert_safe_identifiers) at h))
]

-- What a resource shares with another one whose UPDATE has the same text: the id and the names in it.
abbrev pub SameNames : PiiRegistryEntry → PiiRegistryEntry → Type 0
SameNames e f =
    (f.system ≡ e.system)
    × (f.resource_id ≡ e.resource_id)
    × (f.user_id_column ≡ e.user_id_column)
    × (f.tenant_id_column ≡ e.tenant_id_column)
    × (names_of f.pii_fields ≡ names_of e.pii_fields)

-- The UPDATE of another user, tenant and resource, with this text.
abbrev pub MakesText : String → PiiRegistryEntry → String → String → Type 0
MakesText text e user_id tenant_id =
    (s : Statement) × (redact_statement e user_id tenant_id ≡ ok s)
    × (s.query ≡ text)
    × (s.user_id ≡ user_id)
    × ((column : String)
        → or_text e.tenant_id_column none ≡ some column
        → s.tenant_id ≡ some tenant_id)

-- The names in the text are plain identifiers, and the text depends on nothing else: values are parameters.
abbrev pub Parametrised : PiiRegistryEntry → Statement → Type 0
Parametrised e s =
    ((column : String) × (or_text e.user_id_column none ≡ some column)
      × All Safe (column ∷ present e.tenant_id_column ++ names_of e.pii_fields))
    × ((f : PiiRegistryEntry) (user tenant : String)
        → SameNames e f
        → MakesText s.query f user tenant)

abbrev made_of : PiiRegistryEntry → String → TableRef → String → String → Statement
made_of f column table user tenant = record {
  query = update_text table column (or_text f.tenant_id_column none) (names_of f.pii_fields);
  user_id = user;
  tenant_id = scope (or_text f.tenant_id_column none) tenant;
}

remade :
    (f : PiiRegistryEntry) (column : String) (table : TableRef) (user tenant : String)
    → require_bigquery f ≡ ok tt
    → require_user_column f ≡ ok column
    → require_fields (names_of f.pii_fields) ≡ ok tt
    → assert_safe_identifiers (column ∷ present f.tenant_id_column ++ names_of f.pii_fields) ≡ ok tt
    → parse_big_query_resource_id f.resource_id ≡ ok table
    → redact_statement f user tenant ≡ ok (made_of f column table user tenant)
unfolding redact_statement
remade f column table user tenant e1 e2 e3 e4 e5 = rw (redact_statement, e1, e2, e3, e4, e5) refl

module _ (e : PiiRegistryEntry) (user_id tenant_id : String) (s : Statement)
    (made : redact_statement e user_id tenant_id ≡ ok s) where
  names-Safe :
      (column : String) × (or_text e.user_id_column none ≡ some column)
      × All Safe (column ∷ present e.tenant_id_column ++ names_of e.pii_fields)
  unfolding redact_statement
  names-Safe =
      let (t, e1, h1) = and_then-ok (require_bigquery e) _ s made in
      let (column, e2, h2) = and_then-ok (require_user_column e) _ s h1 in
      let (t2, e3, h3) = and_then-ok (require_fields (names_of e.pii_fields)) _ s h2 in
      let (t3, e4, h4) =
        and_then-ok
          (assert_safe_identifiers (column ∷ present e.tenant_id_column ++ names_of e.pii_fields)) _
          s h3 in
      (
        column,
        user_column column e2,
        Safe-All (column ∷ present e.tenant_id_column ++ names_of e.pii_fields) e4,
      )
    where
      user_column :
          (c : String) → require_user_column e ≡ ok c → or_text e.user_id_column none ≡ some c
      user_column c q = ground arith

  same_text :
      (f : PiiRegistryEntry) (user tenant : String)
      → SameNames e f
      → MakesText s.query f user tenant
  unfolding redact_statement
  same_text f user tenant (system, resource, column, tenant_column, fields) =
      let (t, e1, h1) = and_then-ok (require_bigquery e) _ s made in
      let (c, e2, h2) = and_then-ok (require_user_column e) _ s h1 in
      let (t2, e3, h3) = and_then-ok (require_fields (names_of e.pii_fields)) _ s h2 in
      let (t3, e4, h4) =
        and_then-ok
          (assert_safe_identifiers (c ∷ present e.tenant_id_column ++ names_of e.pii_fields)) _ s
          h3 in
      let (table, e5, h5) = and_then-ok (parse_big_query_resource_id e.resource_id) _ s h4 in
      let here = remade e c table user_id tenant_id e1 e2 e3 e4 e5 in
      let there =
        remade f c table user tenant (rw system e1) (rw column e2) (rw fields e3)
          (rw (tenant_column, fields) e4) (rw resource e5) in
      (
        made_of f c table user tenant,
        there,
        rw (tenant_column, fields)
            (ap (λ (x : Statement). x.query) (ok-injective _ _ (sym here ∙ made))),
        refl,
        given (or_text f.tenant_id_column none),
      )
    where
      given : (o : Option String) (c : String) → o ≡ some c → scope o tenant ≡ some tenant
      given none c h = ground arith
      given (some d) c h = refl

  -- Whenever an UPDATE is made for a resource, the user column is declared, and it, the tenant column and
  -- the fields are plain identifiers; the UPDATE for any user and tenant and any resource with the same
  -- system, id and names has the same text; it has that user, and where there is a tenant column that tenant, as a parameter.
  pub statement-Safe : Parametrised e s
  statement-Safe = (names-Safe, same_text)
