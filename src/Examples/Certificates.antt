-- ===== src/Examples/Certificates.antt =====
-- The theorems on certificates, at a sample vault.
use mathlib.Core.List.{Memᴰ}
use chameleon_vault.Prelude.{sort_desc, ◌≡◌, refl, none, some, [], ◌∷◌, ok, find, values, All}
use chameleon_vault.Prelude.Decimal.{show}
use chameleon_vault.Fault.{outage}
use chameleon_vault.Requests.Types.{Status}
use chameleon_vault.Certificate.Chain.{
  Chain, ChainSignResult, Sign, Appended, append_to_chain, TsaStatus,
}
use chameleon_vault.Certificate.Continuity.{
  Extended, append-Extended, IsChained, append-IsChained, LinkedBack,
}
use chameleon_vault.Certificate.Claims.{
  DestructionCertificateClaims, redact_in_place, encrypted_copy,
}
use chameleon_vault.Certificate.Destinations.{
  parse_source_redaction_destination, redact_destination, encrypted_destination, parse-destination,
  one_line,
}
use chameleon_vault.Certificate.Signer.{
  generate_claims, claims_of, signer_key_status, signer_request, assert_key_shredded,
  assert_cascade_complete, get_manual_registry_entries_for_tenant, shadow_exception,
}
use chameleon_vault.Declarations.Strategies.{
  has_source_redaction_strategy, resolve_source_redaction_strategies,
}
use chameleon_vault.Keys.Registry.{key_status_of, get_key_status}
use chameleon_vault.Certificate.Soundness.{Backed, generate_claims-Backed}
use chameleon_vault.Certificate.Exceptions.{Honest, generate_claims-Honest, shadow_copies_disclosed}
use chameleon_vault.Certificate.Bucket.{
  StoredCertificate, Bucket, upload_certificate, download_certificate, certificate_location,
  is_location, after_slash,
}
use chameleon_vault.Certificate.Storage.{download-upload}
use chameleon_vault.Certificate.Service.{
  Vault, Issued, issue_and_store_certificate, sign_claims, timestamp, publish,
}
use chameleon_vault.Certificate.Issuance.{publication_is_optional, issue-Backed}
use chameleon_vault.Certificate.Retrieval.{get_certificate_for_user, build_evidentiary_status}
use chameleon_vault.Routes.Certificates.{certificate_route}
use chameleon_vault.Routes.Issued.{Eligible, certificate_route-Eligible}
use chameleon_vault.Requests.Queries.{get_latest_completed_deletion_request_for_user}
use chameleon_vault.Examples.Data.{
  vault_at, evidence_at, request_at, shredded_key, orders, signer, issuer, bucket, signing, ticking,
}

parse-destination_example :
    (parse_source_redaction_destination (redact_destination "bigquery:a.b.c")
      ≡ some ("bigquery:a.b.c", redact_in_place))
    × (parse_source_redaction_destination (encrypted_destination "bigquery:a.b.c")
        ≡ some ("bigquery:a.b.c", encrypted_copy))
unfolding one_line
parse-destination_example = parse-destination "bigquery:a.b.c" refl

abbrev signed : ChainSignResult
signed = record { certificate = "a.b.c"; certificate_hash = "h1" }

abbrev signs : Sign
signs previous n = ok signed

abbrev empty_chain : Chain
empty_chain = record { heads = []; entries = [] }

append-Extended_example :
    (a : Appended) × (c' : Chain) × (append_to_chain ticking "acme" "dr-1" signs empty_chain
      ≡ (ok a, c'))
    × (a.signed ≡ signed)
    × Extended "acme" "dr-1" empty_chain c' a
append-Extended_example = append-Extended ticking "acme" "dr-1" signs empty_chain signed refl

append-IsChained_example :
    IsChained "acme" (append_to_chain ticking "acme" "dr-1" signs empty_chain).1
unfolding find
append-IsChained_example =
    append-IsChained ticking "acme" "dr-1" signs empty_chain "acme" (λ s e. refl) LinkedBack.genesis
      LinkedBack.genesis

abbrev claims : DestructionCertificateClaims
claims =
    claims_of ticking "u1" "acme" (key_status_of (ticking 0) shredded_key)
      (request_at Status.cascade_complete) (orders ∷ []) "sha256:ab" [] ("hubspot" ∷ [])

abbrev Made : Type 0
Made =
    generate_claims signer "u1" "acme" (some "dr-1") [] ("hubspot" ∷ [])
      (evidence_at Status.cascade_complete)
    ≡ ok claims

made : Made
unfolding generate_claims signer_key_status signer_request assert_key_shredded
    assert_cascade_complete get_manual_registry_entries_for_tenant find values
made = refl

generate_claims-Backed_example :
    Backed "u1" "acme" (some "dr-1") (evidence_at Status.cascade_complete) claims
generate_claims-Backed_example =
    generate_claims-Backed signer "u1" "acme" (some "dr-1") [] ("hubspot" ∷ [])
      (evidence_at Status.cascade_complete) claims made

generate_claims-Honest_example : All (Honest ticking) claims.source_redaction_exceptions
generate_claims-Honest_example =
    generate_claims-Honest signer "u1" "acme" (some "dr-1") [] ("hubspot" ∷ [])
      (evidence_at Status.cascade_complete) claims made

shadow_copies_disclosed_example : Memᴰ (shadow_exception orders) claims.source_redaction_exceptions
unfolding values has_source_redaction_strategy resolve_source_redaction_strategies
shadow_copies_disclosed_example =
    shadow_copies_disclosed signer "u1" "acme" (some "dr-1") [] ("hubspot" ∷ [])
      (evidence_at Status.cascade_complete) claims made orders (Memᴰ.head refl) refl refl

abbrev stored_certificate : StoredCertificate
stored_certificate = record {
  certificate = "a.b.c";
  user_id = "u1";
  deletion_request_id = "dr-1";
  timestamp = 7;
  hash = "h1";
  previous_certificate_hash = none;
  chain_sequence = 1;
  tsa_timestamp = none;
  rekor_entry = none;
}

abbrev empty_bucket : Bucket
empty_bucket = record { certificates = []; audit_hashes = [] }

download-upload_example :
    download_certificate bucket "gs://evidence/certificates/acme/2026/01/02/certificate-dr-1.json"
      (upload_certificate bucket "acme" stored_certificate empty_bucket).1
    ≡ (ok stored_certificate, (upload_certificate bucket "acme" stored_certificate empty_bucket).1)
unfolding upload_certificate certificate_location is_location after_slash one_line
download-upload_example =
    download-upload bucket "acme" stored_certificate empty_bucket
      "gs://evidence/certificates/acme/2026/01/02/certificate-dr-1.json"
      (upload_certificate bucket "acme" stored_certificate empty_bucket).1 refl refl refl

publication_is_optional_example :
    (issue_and_store_certificate
      (record (issuer (ok [])) {
        tsa = some (λ hash. record {
          status = TsaStatus.failed;
          token = none;
          tsa_url = "https://tsa.test";
        });
        rekor = none;
        tsa_record_outage = some (outage "firestore");
        rekor_record_outage = none;
      })
      "u1"
      "dr-1"
      "acme"
      (vault_at Status.certificate_issued)).0
    ≡ (issue_and_store_certificate
        (issuer (ok []))
        "u1"
        "dr-1"
        "acme"
        (vault_at Status.certificate_issued)).0
publication_is_optional_example =
    publication_is_optional (issuer (ok [])) "u1" "dr-1" "acme" (vault_at Status.certificate_issued)
      (some
        (λ hash. record { status = TsaStatus.failed; token = none; tsa_url = "https://tsa.test" }))
      none (some (outage "firestore")) none

abbrev issued_vault : Vault
issued_vault =
    (issue_and_store_certificate (issuer (ok [])) "u1" "dr-1" "acme"
      (vault_at Status.certificate_issued)).1

abbrev issued : Issued
issued = record {
  certificate = "key/1.cert_u1_1000000002.signature";
  gcs_path = "gs://evidence/certificates/acme/2026/01/02/certificate-dr-1.json";
}

issue-Backed_example :
    (claims : DestructionCertificateClaims) × (signed : ChainSignResult) × Backed "u1" "acme"
      (some "dr-1")
      (evidence_at Status.certificate_issued)
      claims
    × (sign_claims signing claims none (some 1) ≡ ok signed)
    × (issued.certificate ≡ signed.certificate)
unfolding issue_and_store_certificate generate_claims signer_key_status signer_request
    assert_key_shredded assert_cascade_complete get_manual_registry_entries_for_tenant find values
    append_to_chain sign_claims timestamp publish upload_certificate certificate_location show
issue-Backed_example =
    issue-Backed (issuer (ok [])) "u1" "dr-1" "acme" (vault_at Status.certificate_issued) issued
      issued_vault refl

certificate_route-Eligible_example :
    Eligible 1000000000 "u1" "acme" (evidence_at Status.cascade_complete)
unfolding certificate_route get_certificate_for_user get_key_status key_status_of find
    assert_key_shredded get_latest_completed_deletion_request_for_user values
    assert_cascade_complete generate_claims signer_key_status signer_request sign_claims
    get_manual_registry_entries_for_tenant build_evidentiary_status sort_desc
certificate_route-Eligible_example =
    certificate_route-Eligible (issuer (ok [])) (some "acme") "u1"
      (vault_at Status.cascade_complete) refl
