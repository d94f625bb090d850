-- ===== src/Apt/Select/Laws.antt =====
-- The files that `selectReleaseFiles` yields from a Release.
use mirror_sync.Base.{
  ◌≡◌, refl, String, false, List, [], ◌∷◌, All, Result, ok, err, ◌>>=◌, Result-cases, Option-cases,
  inl, inr, Ensures, Ensures-if, ensured, or_default,
}
use mirror_sync.Base.Int.{is_negative}
use mirror_sync.Base.Text.{Bytes, str, join, has_prefix}
use mirror_sync.Base.Dict.{Dict, lookup, keys, lookup-All}
use mirror_sync.Base.Sort.{sort_strings}
use mirror_sync.Model.{RepositoryFile}
use mirror_sync.Safe.{rel, join_all, elements, clean, is_abs}
use mirror_sync.Safe.Clean.{IsName}
use mirror_sync.Safe.Inside.{rel-IsName, rel-clean, is_abs-rel, is_abs-unrooted}
use mirror_sync.Apt.Release.{ReleaseFile, no_file}
use mirror_sync.Apt.Release.Hashes.{IsSized}
use mirror_sync.Apt.Select.{AptSuite, is_wanted, put_file, select_paths, select_release_files}

-- A file to fetch: a clean relative path of names, and a size that is not negative.
pub record IsSelected (f : RepositoryFile) : Type 0 where
  pub names : All IsName (elements f.path)
  pub relative : is_abs f.path ≡ false
  pub cleaned : clean f.path ≡ f.path
  pub sized : is_negative f.size ≡ false

file_sized :
    (hashes : Dict ReleaseFile) (path : Bytes)
    → All IsSized hashes
    → is_negative (or_default (lookup path hashes) no_file).size ≡ false
file_sized hashes path h = elim (Option-cases (lookup path hashes)) [
  | inl e ↦ rw e refl
  | inr (f, e) ↦ rw e (lookup-All IsSized path hashes h e).1
]

below_dists : (suite path : Bytes) → is_abs (join_all (str "dists" ∷ suite ∷ path ∷ [])) ≡ false
unfolding join_all
below_dists suite path =
    is_abs-unrooted (join (str "dists" ∷ suite ∷ path ∷ []) b'/')
      (unfold is_abs join has_prefix in refl)

put_file-IsSelected :
    (suite : AptSuite) (clean_rel : Bytes) (file : ReleaseFile)
    (others : Result String (List RepositoryFile))
    → is_negative file.size ≡ false
    → Ensures (All IsSelected) others
    → Ensures (All IsSelected) (put_file suite clean_rel file others)
put_file-IsSelected suite clean_rel file others sized h =
    elim (Result-cases (rel (join_all (str "dists" ∷ suite.name ∷ clean_rel ∷ [])))) [
      | inr (_, p) ↦ rw p tt
      | inl (published, p) ↦ rw p (
          behind others h (record {
            names = rel-IsName _ p;
            relative = is_abs-rel _ (below_dists suite.name clean_rel) p;
            cleaned = rel-clean _ p;
            sized = sized;
          }))
    ]
  where
    behind :
        {f : RepositoryFile} (r : Result String (List RepositoryFile))
        → Ensures (All IsSelected) r
        → IsSelected f
        → Ensures (All IsSelected) (r >>= λ rest. ok (f ∷ rest))
    behind (err e) h s = tt
    behind (ok rest) h s = (s, h)

module _ (suite : AptSuite) (archs : List Bytes) (hashes : Dict ReleaseFile)
    (sized : All IsSized hashes) where
  select_paths-IsSelected :
      (paths : List Bytes) → Ensures (All IsSelected) (select_paths suite archs hashes paths)
  unfolding select_paths
  select_paths-IsSelected [] = tt
  select_paths-IsSelected (path ∷ paths) = elim (Result-cases (rel path)) [
    | inr (_, e) ↦ rw (e, select_paths) tt
    | inl (clean_rel, e) ↦
        rw (e, select_paths)
          (Ensures-if (All IsSelected) (is_wanted suite archs clean_rel)
            (put_file suite clean_rel (or_default (lookup path hashes) no_file)
              (select_paths suite archs hashes paths))
            (select_paths suite archs hashes paths)
            (λ _.
              put_file-IsSelected suite clean_rel (or_default (lookup path hashes) no_file) _
                (file_sized hashes path sized) (select_paths-IsSelected paths))
            (λ _. select_paths-IsSelected paths))
  ]

-- Each file that is selected from a table whose sizes are not negative has a clean relative path
-- whose elements are names, and a size that is not negative.
pub select_release_files-IsSelected :
    (suite : AptSuite) (archs : List Bytes) (hashes : Dict ReleaseFile)
    {files : List RepositoryFile}
    → All IsSized hashes
    → select_release_files suite archs hashes ≡ ok files
    → All IsSelected files
unfolding select_release_files
select_release_files-IsSelected suite archs hashes sized h =
    ensured (All IsSelected) _
      (select_paths-IsSelected suite archs hashes sized (sort_strings (keys hashes))) h
