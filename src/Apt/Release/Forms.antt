-- ===== src/Apt/Release/Forms.antt =====
-- What `selectReleaseForms` accepts: nothing that no signature covers.
use mirror_sync.Base.{
  ◌≡◌, refl, String, Option, none, some, List, arith, All, All-append, Result, ok, err,
  Result-cases, inl, inr, ◌⊎◌, subst, sym, ap, ensured, Bool-cases,
}
use mirror_sync.Base.Text.{Bytes}
use mirror_sync.Model.{MetadataFile}
use mirror_sync.Apt.Signed.{OpenPgp, verify_in_release, verify_detached_signature}
use mirror_sync.Apt.Release.{
  VerifiedRelease, verified_release_metadata, parse_release_hashes, in_form, detached_form,
  choose_form, with_detached, in_release_file, detached_files, select_release_forms,
  release_matches_verified_cleartext,
}

module _ (pgp : OpenPgp) where
  -- A file that a signature covers, or a signature: a clearsigned document, a detached pair's
  -- Release, or its signature.
  abbrev pub Covered : MetadataFile → Type 0
  Covered m =
      ((text : Bytes) × (verify_in_release pgp m.content ≡ ok text))
      ⊎ ((sig : Bytes) × (verify_detached_signature pgp m.content sig ≡ ok tt))
      ⊎ ((release : Bytes) × (verify_detached_signature pgp release m.content ≡ ok tt))

  -- The text is what a signature covers, of a file that was fetched.
  abbrev pub Signs : Option Bytes → Option Bytes → Option Bytes → Bytes → Type 0
  Signs in_release release sig text =
      ((doc : Bytes) × (in_release ≡ some doc) × (verify_in_release pgp doc ≡ ok text))
      ⊎ ((s : Bytes) × (release ≡ some text)
          × (sig ≡ some s)
          × (verify_detached_signature pgp text s ≡ ok tt))

  pub record Trusted (in_release release sig : Option Bytes) (v : VerifiedRelease) : Type 0 where
    pub signed_text : Signs in_release release sig v.cleartext
    pub same_text : v.text ≡ v.cleartext
    pub parsed : parse_release_hashes v.cleartext ≡ ok v.hashes
    pub covered : All Covered v.metadata

  metadata_lem :
      (text : Bytes) (ms : List MetadataFile) {v : VerifiedRelease}
      → verified_release_metadata text ms ≡ ok v
      → (v.cleartext ≡ text)
        × (v.text ≡ text)
        × (parse_release_hashes text ≡ ok v.hashes)
        × (v.metadata ≡ ms)
  unfolding verified_release_metadata
  metadata_lem text ms h = ground arith

  in_form-Trusted :
      (suite : Bytes) (in_release release sig : Option Bytes) {v : VerifiedRelease}
      → in_form pgp suite in_release ≡ ok v
      → Trusted in_release release sig v
  unfolding in_form
  in_form-Trusted suite none release sig h = absurd (cc)
  in_form-Trusted suite (some doc) release sig {v} h =
      elim (Result-cases (verify_in_release pgp doc)) [
        | inr (_, e) ↦ absurd (cc (rw e at h))
        | inl (text, e) ↦
            let l = metadata_lem text (in_release_file suite doc) (rw e at h) in
            record {
              signed_text = inl (doc, refl, cc (e, l.0));
              same_text = cc (l.0, l.1);
              parsed = cc (l.0, l.2);
              covered = subst (All Covered) (sym l.3) (inl (text, e), tt);
            }
      ]

  detached_form-Trusted :
      (suite : Bytes) (in_release release sig : Option Bytes) {v : VerifiedRelease}
      → detached_form pgp suite release sig ≡ ok v
      → Trusted in_release release sig v
  unfolding detached_form
  detached_form-Trusted suite in_release none sig h = absurd (cc)
  detached_form-Trusted suite in_release (some release) none h = absurd (cc)
  detached_form-Trusted suite in_release (some release) (some sig) {v} h =
      elim (Result-cases (verify_detached_signature pgp release sig)) [
        | inr (_, e) ↦ absurd (cc (rw e at h))
        | inl (_, e) ↦
            let l = metadata_lem release (detached_files suite release sig) (rw e at h) in
            record {
              signed_text = inr (
                sig,
                ap some (sym l.0),
                refl,
                subst (λ t. verify_detached_signature pgp t sig ≡ ok tt) (sym l.0) e,
              );
              same_text = cc (l.0, l.1);
              parsed = cc (l.0, l.2);
              covered =
                  subst (All Covered) (sym l.3) (inr (inl (sig, e)), (inr (inr (release, e)), tt));
            }
      ]

  choose_form-Trusted :
      (in_release release sig : Option Bytes) (a b : Result String VerifiedRelease)
      {v : VerifiedRelease}
      → ((x : VerifiedRelease) → a ≡ ok x → Trusted in_release release sig x)
      → ((x : VerifiedRelease) → b ≡ ok x → Trusted in_release release sig x)
      → choose_form pgp a b release ≡ ok v
      → Trusted in_release release sig v
  choose_form-Trusted in_release release sig (err e) (err e') p q h = absurd (cc)
  choose_form-Trusted in_release release sig (err e) (ok other) p q h = q _ h
  choose_form-Trusted in_release release sig (ok form) b p q h =
      let a = p form refl in
      ensured (Trusted in_release release sig) _
        (record {
          signed_text = a.signed_text;
          same_text = a.same_text;
          parsed = a.parsed;
          covered = both release b q;
        })
        h
    where
      both :
          (r : Option Bytes) (c : Result String VerifiedRelease)
          → ((x : VerifiedRelease) → c ≡ ok x → Trusted in_release release sig x)
          → All Covered (with_detached pgp form r c)
      both none (ok other) k = (p form refl).covered
      both none (err e) k = (p form refl).covered
      both (some r) (err e) k = (p form refl).covered
      both (some r) (ok other) k =
          elim (Bool-cases (release_matches_verified_cleartext r form.cleartext)) [
            | inl e ↦ rw e (
                All-append Covered form.metadata other.metadata (p form refl).covered
                  (k other refl).covered)
            | inr e ↦ rw e ((p form refl).covered)
          ]

  -- When a Release is selected, its text is what a signature covers, of the InRelease or of the
  -- detached pair that was given; its table is parsed from that text; and each metadata file that
  -- is kept is a clearsigned document that verifies, or one half of a detached pair that verifies.
  pub select_release_forms-Trusted :
      (suite : Bytes) (in_release release sig : Option Bytes) {v : VerifiedRelease}
      → select_release_forms pgp suite in_release release sig ≡ ok v
      → Trusted in_release release sig v
  unfolding select_release_forms
  select_release_forms-Trusted suite in_release release sig h =
      choose_form-Trusted in_release release sig (in_form pgp suite in_release)
        (detached_form pgp suite release sig) (λ _. in_form-Trusted suite in_release release sig)
        (λ _. detached_form-Trusted suite in_release release sig) h
