-- ===== src/Redaction/Scoped.antt =====
-- The copies of a table that are kept when a resource is declared: what is known of the names in them.
use chameleon_vault.Prelude.{
  String, ◌≡◌, refl, sym, ◌∙◌, inl, inr, Bool, true, false, ◌||◌, some, none, List, ◌∷◌, ◌++◌,
  arith, any, ok, and_then-ok, Bool-cases, Result-cases, All,
}
use mathlib.Core.Bool.{true≢false}
use chameleon_vault.Keys.Registry.{or_text}
use chameleon_vault.Declarations.Types.{PiiRegistryEntry, SourceRedactionStrategy}
use chameleon_vault.Declarations.Strategies.{has_source_redaction_strategy}
use chameleon_vault.Redaction.Identifiers.{
  assert_safe_identifiers, parse_big_query_resource_id, TableRef,
}
use chameleon_vault.Redaction.Statements.{
  present, require_bigquery, require_user_column, require_fields, is_bigquery,
}
use chameleon_vault.Redaction.Safety.{Safe, Safe-All}
use chameleon_vault.Redaction.Copies.{
  Step, delete_table, create_view, query, CopyEnv, require, encrypted_fields_of,
  drop_shadow_copy_if_exists, shadow_view, ensure_shadow_copy, EncryptedCopy, encrypted_copy,
  ensure_encrypted_copy_table,
}

-- There is a user column, and it, the tenant column and the encrypted fields are plain identifiers.
abbrev pub Scoped : PiiRegistryEntry → Type 0
Scoped e =
    (column : String) × (or_text e.user_id_column none ≡ some column)
    × All Safe (column ∷ present e.tenant_id_column ++ encrypted_fields_of e)

abbrev pub is_write : Step → Bool
is_write (delete_table t) = false
is_write (create_view t sql) = true
is_write (query sql) = true

abbrev pub writes : List Step → Bool
writes steps = any is_write steps

module _ (env : CopyEnv) (e : PiiRegistryEntry) where
  user_column : (c : String) → require_user_column e ≡ ok c → or_text e.user_id_column none ≡ some c
  user_column c q = ground arith

  shadow_view-Scoped : (v : TableRef × String) → shadow_view env e ≡ ok v → Scoped e
  unfolding shadow_view
  shadow_view-Scoped v h =
      let (vault, e1, h1) = and_then-ok (require env.pii_vault _) _ v h in
      let (f, e2, h2) =
        and_then-ok (require (or_text env.batch_decrypt_function_ref none) _) _ v h1 in
      let (t, e3, h3) = and_then-ok (require_bigquery e) _ v h2 in
      let (column, e4, h4) = and_then-ok (require_user_column e) _ v h3 in
      let (tenant, e5, h5) = and_then-ok (require (or_text e.tenant_id none) _) _ v h4 in
      let (t2, e6, h6) = and_then-ok (require_fields (encrypted_fields_of e)) _ v h5 in
      let (t3, e7, h7) =
        and_then-ok
          (assert_safe_identifiers (column ∷ present e.tenant_id_column ++ encrypted_fields_of e)) _
          v h6 in
      (
        column,
        user_column column e4,
        Safe-All (column ∷ present e.tenant_id_column ++ encrypted_fields_of e) e7,
      )

  encrypted_copy-Scoped : (c : EncryptedCopy) → encrypted_copy e ≡ ok c → Scoped e
  unfolding encrypted_copy
  encrypted_copy-Scoped c h =
      let (t, e1, h1) = and_then-ok (require_bigquery e) _ c h in
      let (column, e2, h2) = and_then-ok (require_user_column e) _ c h1 in
      let (t2, e3, h3) = and_then-ok (require_fields (encrypted_fields_of e)) _ c h2 in
      let (t3, e4, h4) =
        and_then-ok
          (assert_safe_identifiers (column ∷ present e.tenant_id_column ++ encrypted_fields_of e)) _
          c h3 in
      (
        column,
        user_column column e2,
        Safe-All (column ∷ present e.tenant_id_column ++ encrypted_fields_of e) e4,
      )

  drop_writes : writes (drop_shadow_copy_if_exists env e).1 ≡ false
  unfolding drop_shadow_copy_if_exists
  drop_writes = elim (Bool-cases (is_bigquery e.system)) [
    | inr other ↦ rw (drop_shadow_copy_if_exists, other) refl
    | inl here ↦ elim (Result-cases (parse_big_query_resource_id e.resource_id)) [
      | inl (t, parsed) ↦ rw (drop_shadow_copy_if_exists, here, parsed) refl
      | inr (m, failed) ↦ rw (drop_shadow_copy_if_exists, here, failed) refl
    ]
  ]

  shadow-Scoped : writes (ensure_shadow_copy env e).1 ≡ true → Scoped e
  unfolding ensure_shadow_copy
  shadow-Scoped h =
      elim (Bool-cases (has_source_redaction_strategy e SourceRedactionStrategy.shadow_copy)) [
        | inr unwanted ↦
            let kept : (writes (ensure_shadow_copy env e).1) ≡ false =
              rw (ensure_shadow_copy, unwanted) drop_writes in
            absurd (true≢false (sym h ∙ kept))
        | inl wanted ↦ elim (Result-cases (shadow_view env e)) [
          | inl (v, made) ↦ shadow_view-Scoped v made
          | inr (m, failed) ↦
              let kept : (writes (ensure_shadow_copy env e).1) ≡ false =
                rw (ensure_shadow_copy, wanted, failed) refl in
              absurd (true≢false (sym h ∙ kept))
        ]
      ]

  encrypted-Scoped : writes (ensure_encrypted_copy_table env e).1 ≡ true → Scoped e
  unfolding ensure_encrypted_copy_table
  encrypted-Scoped h =
      elim (Bool-cases (has_source_redaction_strategy e SourceRedactionStrategy.encrypted_copy)) [
        | inr unwanted ↦
            let kept : (writes (ensure_encrypted_copy_table env e).1) ≡ false =
              rw (ensure_encrypted_copy_table, unwanted) refl in
            absurd (true≢false (sym h ∙ kept))
        | inl wanted ↦ elim (Result-cases (encrypted_copy e)) [
          | inl (c, made) ↦ encrypted_copy-Scoped c made
          | inr (m, failed) ↦
              let kept : (writes (ensure_encrypted_copy_table env e).1) ≡ false =
                rw (ensure_encrypted_copy_table, wanted, failed) refl in
              absurd (true≢false (sym h ∙ kept))
        ]
      ]

  -- Whenever maintaining the shadow view or the encrypted copy of a resource runs a statement or creates a
  -- view, the user column is declared, and it, the tenant column and the encrypted fields, which go into
  -- the text, are plain identifiers; also if BigQuery fails on the way.
  pub copies-Scoped :
      (writes (ensure_shadow_copy env e).1 || writes (ensure_encrypted_copy_table env e).1) ≡ true
      → Scoped e
  copies-Scoped h = elim (Bool-cases (writes (ensure_shadow_copy env e).1)) [
    | inl shadow ↦ shadow-Scoped shadow
    | inr other ↦ encrypted-Scoped (rw other at h)
  ]
