-- ===== src/Certificate/Issuance.antt =====
-- What issuing a certificate guarantees, whatever the time-stamping authority and the transparency log do.
use mathlib.Core.Path.{ap₂}
use chameleon_vault.Prelude.{
  find, sym, ap, ◌∙◌, ℕ, suc, String, ◌≡◌, refl, Option, none, some, List, arith, ok, err, Result,
  Exec, pure, follow, ◌>>=◌, bind-ok, bind-answer, bind-keeps, lift, Option-cases, inl, inr,
}
use chameleon_vault.Janitor.Names.{get_registered_connector_names}
use chameleon_vault.Fault.{Fault}
use chameleon_vault.Certificate.Chain.{
  Chain, Sign, ChainSignResult, head_hash, head_sequence, TsaTimestampInfo, RekorLogEntryInfo,
  Appended, append_to_chain,
}
use chameleon_vault.Certificate.Claims.{DestructionCertificateClaims}
use chameleon_vault.Certificate.Signer.{Evidence}
use chameleon_vault.Certificate.Soundness.{Backed, generate_claims-Backed}
use chameleon_vault.Certificate.Bucket.{Bucket, BucketEnv, StoredCertificate, upload_certificate}
use chameleon_vault.Certificate.Service.{
  Vault, IssuerEnv, Issued, issue_and_store_certificate, finish_issue, on_chain, on_bucket,
  claims_for, sign_claims, timestamp, publish, wrapper,
}

-- A step that never throws and leaves the evidence and the bucket alone.
record Quiet (before : Vault) {A : Type 0} (out : Result Fault A × Vault) : Type 0 where
  answer : A
  answered : out.0 ≡ ok answer
  evidence : out.1.evidence ≡ before.evidence
  bucket : out.1.bucket ≡ before.bucket

timestamp-Quiet : (env : IssuerEnv) (a : Appended) (v : Vault) → Quiet v (timestamp env a v)
unfolding timestamp
timestamp-Quiet env a v = elim (Option-cases env.tsa) [
  | inl e ↦ rw e (record { answer = none; answered = refl; evidence = refl; bucket = refl })
  | inr (f, e) ↦ rw e (record {
    answer = some (f a.signed.certificate_hash);
    answered = refl;
    evidence = refl;
    bucket = refl;
  })
]

publish-Quiet : (env : IssuerEnv) (a : Appended) (v : Vault) → Quiet v (publish env a v)
unfolding publish
publish-Quiet env a v = elim (Option-cases env.rekor) [
  | inl e ↦ rw e (record { answer = none; answered = refl; evidence = refl; bucket = refl })
  | inr (f, e) ↦ rw e (record {
    answer = some (f a.signed.certificate_hash a.previous_hash);
    answered = refl;
    evidence = refl;
    bucket = refl;
  })
]

Quiet-ok :
    {A : Type 0} {v : Vault} (out : Result Fault A × Vault)
    → (q : Quiet v out) → out ≡ (ok q.answer, out.1)
Quiet-ok out q = ap (λ r. (r, out.1)) q.answered

module _ (env : IssuerEnv) (user_id request tenant_id : String) (a : Appended) (v : Vault) where
  abbrev info : Option TsaTimestampInfo
  info = (timestamp-Quiet env a v).answer

  abbrev noted : Vault
  noted = (timestamp env a v).1

  abbrev log : Option RekorLogEntryInfo
  log = (publish-Quiet env a noted).answer

  abbrev logged : Vault
  logged = (publish env a noted).1

  abbrev uploaded : Result Fault String × Bucket
  uploaded =
      upload_certificate env.bucket tenant_id (wrapper env user_id request a info log) v.bucket

  abbrev answer : String → Exec Fault Vault Issued
  answer path = pure (record { certificate = a.signed.certificate; gcs_path = path })

  abbrev upload_from : Evidence → Bucket → Result Fault Issued × Vault
  upload_from e b =
      let out =
        upload_certificate env.bucket tenant_id (wrapper env user_id request a info log) b in
      follow answer (out.0, record { evidence = e; chain = logged.chain; bucket = out.1 })

  -- Only the upload can fail.
  finish_issue-upload :
      finish_issue env user_id request tenant_id a v ≡ upload_from v.evidence v.bucket
  finish_issue-upload =
      ap (follow after_timestamp) (Quiet-ok _ (timestamp-Quiet env a v))
      ∙ ap (follow (after_publish info)) (Quiet-ok _ (publish-Quiet env a noted))
      ∙ ap₂ upload_from ((publish-Quiet env a noted).evidence ∙ (timestamp-Quiet env a v).evidence)
          ((publish-Quiet env a noted).bucket ∙ (timestamp-Quiet env a v).bucket)
    where
      after_publish : Option TsaTimestampInfo → Option RekorLogEntryInfo → Exec Fault Vault Issued
      after_publish tsa rekor =
          on_bucket
            (upload_certificate env.bucket tenant_id (wrapper env user_id request a tsa rekor))
          >>= answer

      after_timestamp : Option TsaTimestampInfo → Exec Fault Vault Issued
      after_timestamp tsa = publish env a >>= after_publish tsa

  -- Whatever the outcome, the evidence is as it was.
  finish_issue-evidence : (finish_issue env user_id request tenant_id a v).1.evidence ≡ v.evidence
  finish_issue-evidence = rw finish_issue-upload (go uploaded.0)
    where
      go :
          (r : Result Fault String)
          → (follow answer (
            r,
            record { evidence = v.evidence; chain = logged.chain; bucket = uploaded.1 },
          )).1.evidence
            ≡ v.evidence
      go (ok path) = refl
      go (err e) = refl

-- The answer of an upload does not depend on what is uploaded.
upload_answer :
    (env : BucketEnv) (tenant_id : String) (c d : StoredCertificate) (b b' : Bucket)
    → c.deletion_request_id ≡ d.deletion_request_id
    → (upload_certificate env tenant_id c b).0 ≡ (upload_certificate env tenant_id d b').0
unfolding upload_certificate
upload_answer env tenant_id c d b b' h = elim (Option-cases env.certificate_outage) [
  | inr (e, is) ↦ rw is refl
  | inl is ↦ elim (Option-cases env.hash_outage) [
    | inr (e, is') ↦ rw (is, is') refl
    | inl is' ↦ rw (is, is', h) refl
  ]
]

reply : Appended → Result Fault String → Result Fault Issued
reply a (ok path) = ok (record { certificate = a.signed.certificate; gcs_path = path })
reply a (err e) = err e

-- The answer rests on the upload alone.
finish_issue-answer :
    (env : IssuerEnv) (user_id request tenant_id : String) (a : Appended) (v : Vault)
    → (finish_issue env user_id request tenant_id a v).0
      ≡ reply a
          (upload_certificate env.bucket tenant_id
            (wrapper env user_id request a none none)
            v.bucket).0
unfolding reply
finish_issue-answer env user_id request tenant_id a v =
    ap (λ (r : Result Fault Issued × Vault). r.0)
      (finish_issue-upload env user_id request tenant_id a v)
    ∙ go _ (uploaded env user_id request tenant_id a v).0
    ∙ ap (reply a) (
        upload_answer env.bucket tenant_id (wrapper env user_id request a _ _)
          (wrapper env user_id request a none none) v.bucket v.bucket refl)
  where
    go :
        (w : Vault) (r : Result Fault String)
        → (follow (answer env user_id request tenant_id a v) (r, w)).0 ≡ reply a r
    go w (ok path) = refl
    go w (err e) = refl

reply-certificate :
    (a : Appended) (r : Result Fault String) (i : Issued)
    → reply a r ≡ ok i
    → i.certificate ≡ a.signed.certificate
unfolding reply
reply-certificate a (ok path) i h = ground arith
reply-certificate a (err e) i h = ground arith

append_was_signed :
    (clock : ℕ → ℕ) (tenant_id request : String) (sign : Sign) (c : Chain) (a : Appended)
    → (append_to_chain clock tenant_id request sign c).0 ≡ ok a
    → sign (head_hash (find tenant_id c.heads)) (suc (head_sequence (find tenant_id c.heads)))
      ≡ ok a.signed
unfolding append_to_chain
append_was_signed clock tenant_id request sign c a h = ground arith

module _ (env : IssuerEnv) (user_id request tenant_id : String) (v : Vault) where
  abbrev sign_with : DestructionCertificateClaims → Sign
  sign_with claims previous n = sign_claims env.signing claims previous (some n)

  append_step : DestructionCertificateClaims → Exec Fault Vault Appended
  append_step claims =
      on_chain (append_to_chain env.chain_clock tenant_id request (sign_with claims))

  -- Issuing a certificate, whether it succeeds or throws, changes no request, key or declaration.
  pub issue-evidence :
      (issue_and_store_certificate env user_id request tenant_id v).1.evidence ≡ v.evidence
  unfolding issue_and_store_certificate
  issue-evidence =
      bind-keeps (λ (w : Vault). w.evidence) (lift env.ghosts) _ v refl
        λ ghosts w.
          bind-keeps (λ (w : Vault). w.evidence)
            (claims_for env user_id tenant_id (some request) ghosts) _ w refl
            λ claims x.
              bind-keeps (λ (w : Vault). w.evidence)
                (on_chain (append_to_chain env.chain_clock tenant_id request (sign_with claims))) _
                x refl (finish_issue-evidence env user_id request tenant_id)

  -- Whether the time-stamping authority and the transparency log are configured, what they answer and
  -- whether their follow-up writes are rejected makes no difference to the answer.
  pub publication_is_optional :
      (tsa : Option (String → TsaTimestampInfo))
      (rekor : Option (String → Option String → RekorLogEntryInfo))
      (tsa_record rekor_record : Option Fault)
      → (issue_and_store_certificate
          (record env {
            tsa = tsa;
            rekor = rekor;
            tsa_record_outage = tsa_record;
            rekor_record_outage = rekor_record;
          })
          user_id
          request
          tenant_id
          v).0
        ≡ (issue_and_store_certificate env user_id request tenant_id v).0
  unfolding issue_and_store_certificate
  publication_is_optional tsa rekor p q =
      let other : IssuerEnv = record env {
        tsa = tsa;
        rekor = rekor;
        tsa_record_outage = p;
        rekor_record_outage = q;
      } in
      bind-answer (lift env.ghosts) _ _ v λ ghosts w.
        bind-answer (claims_for env user_id tenant_id (some request) ghosts) _ _ w λ claims x.
          bind-answer
            (on_chain (append_to_chain env.chain_clock tenant_id request (sign_with claims))) _ _ x
            λ a y.
              finish_issue-answer other user_id request tenant_id a y
              ∙ sym (finish_issue-answer env user_id request tenant_id a y)

  -- A certificate that was issued carries claims that the stored evidence backs, signed as the next
  -- one in the tenant's chain.
  pub issue-Backed :
      (i : Issued) (v' : Vault)
      → issue_and_store_certificate env user_id request tenant_id v ≡ (ok i, v')
      → (claims : DestructionCertificateClaims) × (signed : ChainSignResult) × Backed user_id
          tenant_id
          (some request)
          v.evidence
          claims
        × (sign_with claims
              (head_hash (find tenant_id v.chain.heads))
              (suc (head_sequence (find tenant_id v.chain.heads)))
            ≡ ok signed)
        × (i.certificate ≡ signed.certificate)
  unfolding issue_and_store_certificate
  issue-Backed i v' h =
      let (ghosts, w, e, h1) = bind-ok (lift env.ghosts) _ v i v' h in
      let (claims, x, e1, h2) =
        bind-ok (claims_for env user_id tenant_id (some request) ghosts) _ w i v' h1 in
      let (a, y, e2, h3) =
        bind-ok (on_chain (append_to_chain env.chain_clock tenant_id request (sign_with claims))) _
          x i v' h2 in
      let before : v ≡ x =
        ap (λ (p : Result Fault (List String) × Vault). p.1) e
        ∙ ap (λ (p : Result Fault DestructionCertificateClaims × Vault). p.1) e1 in
      let at_v : (claims_for env user_id tenant_id (some request) ghosts v).0 ≡ ok claims =
        ap (λ (u : Vault). (claims_for env user_id tenant_id (some request) ghosts u).0)
          (ap (λ (p : Result Fault (List String) × Vault). p.1) e)
        ∙ ap (λ (p : Result Fault DestructionCertificateClaims × Vault). p.0) e1 in
      let signed_at =
        append_was_signed env.chain_clock tenant_id request (sign_with claims) x.chain a
          (ap (λ (p : Result Fault Appended × Vault). p.0) e2) in
      (
        claims,
        a.signed,
        generate_claims-Backed env.signer user_id tenant_id (some request) ghosts
            get_registered_connector_names v.evidence claims at_v,
        ap
              (λ (u : Vault).
                sign_with claims (head_hash (find tenant_id u.chain.heads))
                  (suc (head_sequence (find tenant_id u.chain.heads))))
              before
            ∙ signed_at,
        reply-certificate a _ i (
            sym (finish_issue-answer env user_id request tenant_id a y)
            ∙ ap (λ (p : Result Fault Issued × Vault). p.0) h3),
      )
