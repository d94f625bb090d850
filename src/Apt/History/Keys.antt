-- ===== src/Apt/History/Keys.antt =====
-- The keys of the history's records tell files and algorithms apart.
use mathlib.Core.List.{head-eq_of_cons-eq, tail-eq_of_cons-eq}
use mirror_sync.Base.{
  ◌≡◌, ◌≢◌, refl, sym, subst, true, [], ◌∷◌, ◌++◌, arith, ok, Bool-cases, inl, inr,
}
use mirror_sync.Base.Text.{Bytes, str, ◌=ˢ◌}
use mirror_sync.Base.Text.Laws.{=ˢ_iff, Lacks}
use mirror_sync.Model.{ByHashFile}
use mirror_sync.Apt.Checksums.{checksum_rank, digest_length, validate_by_hash_digest}
use mirror_sync.Apt.History.{ByHashHistoryRecord, key_of, file_key, history_record_key}

pub ranked_of_valid : (a d : Bytes) → validate_by_hash_digest a d ≡ ok tt → checksum_rank a ≢ 4
unfolding validate_by_hash_digest digest_length checksum_rank
ranked_of_valid a d h = ground arith

-- The algorithms' names hold no zero byte, which is what separates the two parts of a key.
ranked-Lacks : (a : Bytes) → checksum_rank a ≢ 4 → Lacks 0 a
unfolding checksum_rank
ranked-Lacks a h = elim (Bool-cases (a =ˢ str "SHA512")) [
  | inl e ↦ named (str "SHA512") e (omega arith)
  | inr e₁ ↦ elim (Bool-cases (a =ˢ str "SHA256")) [
    | inl e ↦ named (str "SHA256") e (omega arith)
    | inr e₂ ↦ elim (Bool-cases (a =ˢ str "SHA1")) [
      | inl e ↦ named (str "SHA1") e (omega arith)
      | inr e₃ ↦ elim (Bool-cases (a =ˢ str "MD5Sum")) [
        | inl e ↦ named (str "MD5Sum") e (omega arith)
        | inr e₄ ↦ absurd (h (rw (e₁, e₂, e₃, e₄) refl))
      ]
    ]
  ]
]
  where
    named : (name : Bytes) → (a =ˢ name) ≡ true → Lacks 0 name → Lacks 0 a
    named name e l = subst (Lacks 0) (sym ((=ˢ_iff a name).0 e)) l

not-Lacks : (c d : Bytes) → ¬ Lacks 0 (c ++ (0 ∷ d))
not-Lacks [] d h = h.0 refl
not-Lacks (x ∷ c) d h = not-Lacks c d h.1

zero_splits :
    (a c b d : Bytes) → Lacks 0 b → Lacks 0 d → a ++ (0 ∷ b) ≡ c ++ (0 ∷ d) → (a ≡ c) × (b ≡ d)
zero_splits [] [] b d hb hd e = ground arith
zero_splits [] (x ∷ c) b d hb hd e =
    absurd (not-Lacks c d (subst (Lacks 0) (tail-eq_of_cons-eq e) hb))
zero_splits (x ∷ a) [] b d hb hd e =
    absurd (not-Lacks a b (subst (Lacks 0) (sym (tail-eq_of_cons-eq e)) hd))
zero_splits (x ∷ a) (y ∷ c) b d hb hd e =
    ground (arith, head-eq_of_cons-eq e, zero_splits a c b d hb hd (tail-eq_of_cons-eq e))

-- Records with one key are of one file and one algorithm.
pub key_inj :
    (r : ByHashHistoryRecord) (f : ByHashFile)
    → checksum_rank r.algorithm ≢ 4
    → checksum_rank f.algorithm ≢ 4
    → key_of r ≡ file_key f
    → (r.canonical_path ≡ f.canonical_path) × (r.algorithm ≡ f.algorithm)
unfolding history_record_key
key_inj r f hr hf e =
    zero_splits r.canonical_path f.canonical_path r.algorithm f.algorithm
      (ranked-Lacks r.algorithm hr) (ranked-Lacks f.algorithm hf) e
