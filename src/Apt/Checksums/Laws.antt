-- ===== src/Apt/Checksums/Laws.antt =====
-- Laws of the checksum tables: comparison is symmetric, and merging two tables that agree loses
-- no digest of either.
use mirror_sync.Base.{
  true, false, ◌↔◌, Bool-cases, inl, inr, not, ◌&&◌, ◌∙◌, ◌≡◌, refl, List, [], ◌∷◌, arith,
  if◌then◌else◌,
}
use mirror_sync.Base.Text.{Bytes, str, is_empty, equal_fold, ◌=ˢ◌, to_lower}
use mirror_sync.Base.Text.Laws.{equal_fold_sym}
use mirror_sync.Model.{Checksums, get, set, no_digest}
use mirror_sync.Apt.Checksums.{
  checksum_from_map, clash, agree_on, same_checksums, merge_checksums, algorithms_and_md5,
}

clash_sym : (a b : Bytes) → clash a b ≡ clash b a
unfolding clash
clash_sym a b = ground (arith, equal_fold_sym a b)

agree_on_sym : (algs : List Bytes) (a b : Checksums) → agree_on algs a b ≡ agree_on algs b a
unfolding agree_on
agree_on_sym [] a b = refl
agree_on_sym (alg ∷ algs) a b =
    ground (arith, clash_sym (get a alg) (get b alg), agree_on_sym algs a b)

-- Whether two checksum tables agree does not depend on their order.
pub same_checksums_sym : (a b : Checksums) → same_checksums a b ≡ same_checksums b a
unfolding same_checksums
same_checksums_sym a b = ground (arith, agree_on_sym algorithms_and_md5 a b)

-- A digest of the second table, or else of the first.
abbrev pub either : Bytes → Bytes → Bytes
either x y = if is_empty y then x else y

-- Merging takes each digest of the second table, and those of the first that the second lacks.
pub merge_checksums_fields :
    (a b : Checksums)
    → ((merge_checksums a b).md5sum ≡ either a.md5sum b.md5sum)
      × ((merge_checksums a b).sha1 ≡ either a.sha1 b.sha1)
      × ((merge_checksums a b).sha256 ≡ either a.sha256 b.sha256)
      × ((merge_checksums a b).sha512 ≡ either a.sha512 b.sha512)
unfolding merge_checksums get set equal_fold to_lower ◌=ˢ◌
merge_checksums_fields a b = ground arith

-- The digests are equal, in any case, if both are known.
abbrev pub AgreeOn : Bytes → Bytes → Type 0
AgreeOn x y = is_empty x ≡ false → is_empty y ≡ false → equal_fold x y ≡ true

-- No algorithm has two different digests.
abbrev pub Compatible : Checksums → Checksums → Type 0
Compatible a b =
    AgreeOn a.md5sum b.md5sum
    × AgreeOn a.sha1 b.sha1
    × AgreeOn a.sha256 b.sha256
    × AgreeOn a.sha512 b.sha512

-- The digests of the second table, and those of the first that the second lacks.
abbrev pub combined : Checksums → Checksums → Checksums
combined a b = record {
  md5sum = either a.md5sum b.md5sum;
  sha1 = either a.sha1 b.sha1;
  sha256 = either a.sha256 b.sha256;
  sha512 = either a.sha512 b.sha512;
}

pub merge_checksums-combined : (a b : Checksums) → merge_checksums a b ≡ combined a b
merge_checksums-combined a b =
    let h = merge_checksums_fields a b in ground (arith, h.0, h.1, h.2, h.3)

clash-AgreeOn : (x y : Bytes) → (clash x y ≡ false) ↔ AgreeOn x y
unfolding clash
clash-AgreeOn x y = (
  λ h p q. ground arith,
  λ h. elim (Bool-cases (is_empty x)) [
    | inl e ↦ rw e refl
    | inr e ↦ elim (Bool-cases (is_empty y)) [
      | inl f ↦ rw (e, f) refl
      | inr f ↦ rw (e, f, h e f) refl
    ]
  ],
)

get_fields :
    (c : Checksums)
    → (get c (str "SHA512") ≡ c.sha512)
      × (get c (str "SHA256") ≡ c.sha256)
      × (get c (str "SHA1") ≡ c.sha1)
      × (get c (str "MD5Sum") ≡ c.md5sum)
      × (get c (str "MD5") ≡ c.md5sum)
unfolding get equal_fold to_lower ◌=ˢ◌
get_fields c = (refl, refl, refl, refl, refl)

same_checksums_fields :
    (a b : Checksums)
    → same_checksums a b ≡ (
        not (clash a.md5sum b.md5sum)
        && not (clash a.sha1 b.sha1)
        && not (clash a.sha256 b.sha256)
        && not (clash a.sha512 b.sha512))
unfolding same_checksums agree_on checksum_from_map no_digest clash
same_checksums_fields a b = ground (arith, get_fields a, get_fields b)

-- Two tables compare as equal exactly if no algorithm has two different digests in them.
pub same_checksums-Compatible : (a b : Checksums) → (same_checksums a b ≡ true) ↔ Compatible a b
same_checksums-Compatible a b =
    let flat = same_checksums_fields a b in
    let md5 = clash-AgreeOn a.md5sum b.md5sum in
    let sha1 = clash-AgreeOn a.sha1 b.sha1 in
    let sha256 = clash-AgreeOn a.sha256 b.sha256 in
    let sha512 = clash-AgreeOn a.sha512 b.sha512 in
    (
      λ h. (
        md5.0 (ground (arith, flat)),
        sha1.0 (ground (arith, flat)),
        sha256.0 (ground (arith, flat)),
        sha512.0 (ground (arith, flat)),
      ),
      λ h. flat ∙ rw (md5.1 h.0, sha1.1 h.1, sha256.1 h.2, sha512.1 h.3) refl,
    )
