-- ===== src/Apt/History/Fresh.antt =====
-- From the text of a Release to the history: the steps of a sync of one suite with by-hash.
use mirror_sync.Base.{◌≡◌, true, List, [], ◌∷◌, All-map, ok, arith}
use mirror_sync.Base.Text.{Bytes, str, ◌=ˢ◌, has_prefix, cut_prefix, trim_prefix}
use mirror_sync.Base.Dict.{Dict}
use mirror_sync.Model.{RepositoryFile, RepositoryState, ByHashFile}
use mirror_sync.Safe.{rel, clean}
use mirror_sync.Apt.Release.{ReleaseFile, parse_release_hashes}
use mirror_sync.Apt.Release.Hashes.{parse_release_hashes-IsSized}
use mirror_sync.Apt.Select.{AptSuite, select_release_files}
use mirror_sync.Apt.Select.Laws.{IsSelected, select_release_files-IsSelected}
use mirror_sync.Apt.ByHash.{derive_by_hash_files}
use mirror_sync.Apt.ByHash.Derive.{DerivedFrom, derive_by_hash_files-DerivedFrom}
use mirror_sync.Apt.History.{ByHashHistory, validate_by_hash_history, update_by_hash_history}
use mirror_sync.Apt.History.Update.{IsCurrent, validate-update_by_hash_history}

-- A clean path below dists/ is accepted as it is.
below_dists : (p : Bytes) → has_prefix p (str "dists/") ≡ true → clean p ≡ p → rel p ≡ ok p
unfolding rel has_prefix cut_prefix trim_prefix ◌=ˢ◌
below_dists [] h e = absurd (ground arith)
below_dists (c ∷ p) h e = ground (arith, e)

selected-IsCurrent : (f : ByHashFile) → DerivedFrom IsSelected f → IsCurrent f
selected-IsCurrent f (d, s) = record {
  derived = d;
  cleaned = below_dists f.canonical_path d.under_dists s.cleaned;
  sized = s.sized;
}

-- If the by-hash files of a state are derived from the files that a suite selects from a Release
-- that could be parsed, then a valid history is still valid behind its update by that state.
pub validate-update_from_release :
    (text : Bytes) (suite : AptSuite) (archs : List Bytes) (history : ByHashHistory)
    (state : RepositoryState) {hashes : Dict ReleaseFile} {files : List RepositoryFile}
    → parse_release_hashes text ≡ ok hashes
    → select_release_files suite archs hashes ≡ ok files
    → derive_by_hash_files files ≡ ok state.by_hash_files
    → validate_by_hash_history history ≡ ok tt
    → validate_by_hash_history (update_by_hash_history history state) ≡ ok tt
validate-update_from_release text suite archs history state {hashes} {files} parsed selected derived
      valid =
    validate-update_by_hash_history history state valid (
      All-map (DerivedFrom IsSelected) IsCurrent selected-IsCurrent state.by_hash_files (
        derive_by_hash_files-DerivedFrom IsSelected files
          (select_release_files-IsSelected suite archs hashes
            (parse_release_hashes-IsSized text parsed) selected)
          derived))
