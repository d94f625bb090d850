-- ===== src/Apt/ByHash/Derive.antt =====
-- What `deriveByHashFiles` returns.
use mirror_sync.Base.{
  ◌≡◌, String, Bool, true, false, not, Option, none, some, List, [], ◌∷◌, All, Result, ok, err,
  Bool-cases, inl, inr, ◌>>=◌, Ensures, Result-cases, ◌>>◌, Ensures-if, ensured, reject_if,
}
use mirror_sync.Base.Text.{Bytes, str, has_prefix, is_empty}
use mirror_sync.Base.Dict.{Dict, lookup, values, insert-All, values-All}
use mirror_sync.Base.Sort.{sort-All}
use mirror_sync.Model.{RepositoryFile, ByHashFile}
use mirror_sync.Apt.Checksums.{algorithms, checksum_from_map, validate_by_hash_digest}
use mirror_sync.Apt.ByHash.{
  by_hash_destination, put_found, put_target, derive_digest, derive_algorithm, derive_algorithms,
  derive_file, derive_files, derive_by_hash_files, sorted_files, same_target,
}

-- A by-hash file at the place, and with a digest of the form, that its algorithm wants.
pub record IsDerived (f : ByHashFile) : Type 0 where
  pub placed : by_hash_destination f.canonical_path f.algorithm f.digest ≡ ok f.path
  pub valid : validate_by_hash_digest f.algorithm f.digest ≡ ok tt
  pub under_dists : has_prefix f.canonical_path (str "dists/") ≡ true

-- The repository file that a by-hash file is a copy of.
abbrev pub file_of : ByHashFile → RepositoryFile
file_of f = record { path = f.canonical_path; size = f.size; checksums = f.checksums }

-- Derived, from a file that has the property `Q`.
abbrev pub DerivedFrom : (RepositoryFile → Type 0) → ByHashFile → Type 0
DerivedFrom Q f = IsDerived f × Q (file_of f)

abbrev Entry : (RepositoryFile → Type 0) → Bytes × ByHashFile → Type 0
Entry Q e = DerivedFrom Q e.1

module _ (Q : RepositoryFile → Type 0) where
  put_found-All :
      (old : Option ByHashFile) (f : ByHashFile) (m : Dict ByHashFile)
      → DerivedFrom Q f
      → All (Entry Q) m
      → Ensures (All (Entry Q)) (put_found old f m)
  put_found-All none f m d h = insert-All (Entry Q) f.path f m d h
  put_found-All (some old) f m d h =
      Ensures-if (All (Entry Q)) (same_target old f) _ _ (λ _. h) (λ _. tt)

  put_target-All :
      (f : ByHashFile) (m : Dict ByHashFile)
      → DerivedFrom Q f
      → All (Entry Q) m
      → Ensures (All (Entry Q)) (put_target f m)
  unfolding put_target
  put_target-All f m d h = put_found-All (lookup f.path m) f m d h

  abbrev Good : Dict ByHashFile × Bool → Type 0
  Good acc = All (Entry Q) acc.0

  module _ (file : RepositoryFile) (q : Q file)
      (under : has_prefix file.path (str "dists/") ≡ true) where
    derive_digest-Good :
        (algorithm digest : Bytes) (m : Dict ByHashFile)
        → All (Entry Q) m
        → Ensures Good (derive_digest file algorithm digest m)
    unfolding derive_digest
    derive_digest-Good algorithm digest m h =
        elim (Result-cases (validate_by_hash_digest algorithm digest)) [
          | inr (_, e) ↦ rw e tt
          | inl (_, valid) ↦
              rw valid (elim (Result-cases (by_hash_destination file.path algorithm digest)) [
                | inr (_, e) ↦ rw e tt
                | inl (path, placed) ↦ rw placed (put path valid placed)
              ])
        ]
      where
        target : Bytes → ByHashFile
        target path = record {
          canonical_path = file.path;
          path = path;
          algorithm = algorithm;
          digest = digest;
          size = file.size;
          checksums = file.checksums;
        }

        through :
            (r : Result String (Dict ByHashFile))
            → Ensures (All (Entry Q)) r
            → Ensures Good (r >>= λ m'. ok (m', true))
        through (ok m') k = k
        through (err e) k = tt

        put :
            (path : Bytes)
            → validate_by_hash_digest algorithm digest ≡ ok tt
            → by_hash_destination file.path algorithm digest ≡ ok path
            → Ensures Good (put_target (target path) m >>= λ m'. ok (m', true))
        put path valid placed = through (put_target (target path) m) (
            put_target-All (target path) m
              (record { placed = placed; valid = valid; under_dists = under }, q) h)

    derive_algorithm-Good :
        (algorithm : Bytes) (acc : Dict ByHashFile × Bool)
        → Good acc
        → Ensures Good (derive_algorithm file algorithm acc)
    unfolding derive_algorithm
    derive_algorithm-Good algorithm (m, found) h =
        let digest = checksum_from_map file.checksums algorithm in
        Ensures-if Good (is_empty digest) (ok (m, found)) (derive_digest file algorithm digest m)
          (λ _. h) (λ _. derive_digest-Good algorithm digest m h)

    derive_algorithms-Good :
        (algs : List Bytes) (acc : Dict ByHashFile × Bool)
        → Good acc
        → Ensures Good (derive_algorithms file algs acc)
    unfolding derive_algorithms
    derive_algorithms-Good [] acc h = h
    derive_algorithms-Good (alg ∷ algs) acc h =
        elim (Result-cases (derive_algorithm file alg acc)) [
          | inr (_, e) ↦ rw e tt
          | inl (acc', e) ↦ rw e (
              derive_algorithms-Good algs acc' (ensured Good _ (derive_algorithm-Good alg acc h) e))
        ]

  derive_file-All :
      (file : RepositoryFile) (m : Dict ByHashFile)
      → Q file
      → All (Entry Q) m
      → Ensures (All (Entry Q)) (derive_file file m)
  unfolding derive_file
  derive_file-All file m q h = elim (Bool-cases (has_prefix file.path (str "dists/"))) [
    | inr e ↦ rw e tt
    | inl under ↦ rw under (elim (Result-cases (derive_algorithms file algorithms (m, false))) [
      | inr (_, e) ↦ rw e tt
      | inl (acc, e) ↦ rw e (
          found_or_not acc.0 acc.1
            (ensured Good _ (derive_algorithms-Good file q under algorithms (m, false) h) e))
    ])
  ]
    where
      found_or_not :
          (m' : Dict ByHashFile) (b : Bool)
          → All (Entry Q) m'
          → Ensures
              (All (Entry Q))
              (reject_if {E = String} (not b) "no supported checksum for by-hash" >> ok m')
      found_or_not m' true k = k
      found_or_not m' false k = tt

  derive_files-All :
      (files : List RepositoryFile) (m : Dict ByHashFile)
      → All Q files
      → All (Entry Q) m
      → Ensures (All (Entry Q)) (derive_files files m)
  unfolding derive_files
  derive_files-All [] m _ h = h
  derive_files-All (file ∷ files) m (q, qs) h = elim (Result-cases (derive_file file m)) [
    | inr (_, e) ↦ rw e tt
    | inl (m', e) ↦
        rw e
          (derive_files-All files m' qs (ensured (All (Entry Q)) _ (derive_file-All file m q h) e))
  ]

  derived_files :
      (files : List RepositoryFile)
      → All Q files
      → Ensures (All (DerivedFrom Q)) (derive_by_hash_files files)
  unfolding derive_by_hash_files sorted_files
  derived_files files q = elim (Result-cases (derive_files (sorted_files files) [])) [
    | inr (_, e) ↦ rw e tt
    | inl (m, e) ↦ rw e (
        sort-All _ (DerivedFrom Q) (values m) (
          values-All (DerivedFrom Q) m (
            ensured (All (Entry Q)) _
              (derive_files-All (sorted_files files) [] (sort-All _ Q files q) tt) e)))
  ]

  -- Each by-hash file that is derived lies at the destination computed from its canonical path,
  -- algorithm and digest, has a digest of the length and alphabet of its algorithm, stands for a
  -- canonical path under dists/, and has the path, size and checksums of one of the files, so that
  -- what holds of all these holds of it.
  pub derive_by_hash_files-DerivedFrom :
      (files : List RepositoryFile) {out : List ByHashFile}
      → All Q files
      → derive_by_hash_files files ≡ ok out
      → All (DerivedFrom Q) out
  derive_by_hash_files-DerivedFrom files q h =
      ensured (All (DerivedFrom Q)) _ (derived_files files q) h
