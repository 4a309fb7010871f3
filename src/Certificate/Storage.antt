-- ===== src/Certificate/Storage.antt =====
-- An uploaded certificate is downloaded again from the URI that the upload answers.
use Prim.Native.String
use text.Mathlib.TextLemmas.{nil-append, cons-append}
use chameleon_vault.Prelude.{
  String, ◌≡◌, refl, ap, ◌∙◌, sym, true, none, some, ok, err-ne-ok, ok-injective, Result, inl, inr,
  Option-cases, find-put_self, find,
}
use chameleon_vault.Fault.{Fault}
use chameleon_vault.Certificate.Bucket.{
  Bucket, BucketEnv, StoredCertificate, upload_certificate, download_certificate,
  certificate_location, is_location, location_of,
}

gs_append :
    (s : String)
    → String.◌++◌ "gs://" s
      ≡ String.◌∷◌ "g" (String.◌∷◌ "s" (String.◌∷◌ ":" (String.◌∷◌ "/" (String.◌∷◌ "/" s))))
gs_append s =
    rw
      (
        cons-append "g" "s://" s,
        cons-append "s" "://" s,
        cons-append ":" "//" s,
        cons-append "/" "/" s,
        cons-append "/" "" s,
        nil-append,
      )
      refl

location_of-gs : (s : String) → is_location s ≡ true → location_of (String.◌++◌ "gs://" s) ≡ some s
unfolding location_of
location_of-gs s h = rw (gs_append s, h) refl

module _ (env : BucketEnv) (tenant_id : String) (c : StoredCertificate) (b : Bucket) where
  -- The object's name is one that `downloadCertificate` accepts: a bucket without a slash, and a path
  -- on one line.
  abbrev pub IsReadable : Type 0
  IsReadable = is_location (certificate_location env tenant_id c.deletion_request_id) ≡ true

  abbrev location : String
  location = certificate_location env tenant_id c.deletion_request_id

  stored_where :
      (path : String) (b' : Bucket)
      → upload_certificate env tenant_id c b ≡ (ok path, b')
      → (String.◌++◌ "gs://" location ≡ path) × (find location b'.certificates ≡ some c)
  unfolding upload_certificate
  stored_where path b' h = elim (Option-cases env.certificate_outage) [
    | inr (e, is) ↦ absurd (err-ne-ok e path (ap first_of (rw (is, upload_certificate) at h)))
    | inl is ↦ elim (Option-cases env.hash_outage) [
      | inr (e, is') ↦
          absurd (err-ne-ok e path (ap first_of (rw (is, is', upload_certificate) at h)))
      | inl is' ↦
          let h' : _ ≡ (ok path, b') = rw (is, is', upload_certificate) at h in
          (
            ok-injective _ path (ap first_of h'),
            sym (ap (λ (p : Result Fault String × Bucket). find location p.1.certificates) h')
                ∙ find-put_self location c b.certificates,
          )
    ]
  ]
    where
      first_of : Result Fault String × Bucket → Result Fault String
      first_of p = p.0

  -- What was uploaded without an error is what a download of the answered URI gives back.
  pub download-upload :
      (path : String) (b' : Bucket)
      → IsReadable
      → env.download_outage ≡ none
      → upload_certificate env tenant_id c b ≡ (ok path, b')
      → download_certificate env path b' ≡ (ok c, b')
  unfolding download_certificate
  download-upload path b' readable up h =
      let (named, here) = stored_where path b' h in
      let found : location_of path ≡ some location =
        ap location_of (sym named) ∙ location_of-gs location readable in
      rw (found, up, here, download_certificate) refl
