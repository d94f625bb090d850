-- ===== src/Apt/Indexes.antt =====
-- internal/apt/apt.go: the optional files of a Release, the search for an index among its
-- compressed forms, and the reading of it into the payloads.
use mirror_sync.Base.{
  ℕ, String, Bool, true, false, not, ◌||◌, Option, none, some, List, [], ◌∷◌, map, is_some,
  if◌then◌else◌, Result, ok, err,
}
use mirror_sync.Base.Text.{Bytes, str, is_empty, has_suffix, contains}
use mirror_sync.Base.Dict.{Dict, Set, lookup}
use mirror_sync.Model.{Payload, RepositoryFile}
use mirror_sync.Safe.{safe_join, join_all, join_path}
use mirror_sync.World.{
  Fault, failure, Stream, Env, Io, done, fail, try, ◌>>=◌, ◌>>◌, read_file, read_optional,
}
use mirror_sync.Httpx.{Client, get_bytes, is_status}
use mirror_sync.Publish.{lift, size_check, checksum_check}
use mirror_sync.Publish
use mirror_sync.Apt.Checksums.{strongest_release_checksum}
use mirror_sync.Apt.Release.{ReleaseFile}
use mirror_sync.Apt.Select.{index_candidates, release_advertises_index}
use mirror_sync.Apt.Packages.{PackageScan, parse_packages}
use mirror_sync.Apt.Sources.{SourceScan, parse_sources}

unfoldable pub filepath_for : Bytes → Bytes → Bytes → Bytes
filepath_for cwd root rel = elim (safe_join cwd root rel) [ ok p ↦ p | err e ↦ [] ]

-- An index that is open: its path in the Release, and its bytes.
abbrev pub Opened : Type 0
Opened = Option (Bytes × Bytes)

pub data IndexKind : Type 0 where
  packages_index : IndexKind
  sources_index : IndexKind

-- An index to look for: its directory, its name without a suffix, and what it lists.
pub record IndexName : Type 0 where
  pub dir : Bytes
  pub name : Bytes
  pub kind : IndexKind

module _ (env : Env) where
  abbrev pub present_or_missing : Result Fault Bytes → Io (Option Bytes)
  present_or_missing (ok content) = done (some content)
  present_or_missing (err e) = if is_status e 404 then done none else fail e

  unfoldable pub fetch_optional : Client → Bytes → ℕ → Io (Option Bytes)
  fetch_optional client rel max_bytes =
      try (get_bytes env client rel max_bytes) >>= present_or_missing

  unfoldable pub read_optional_published : Bytes → Bytes → Bytes → Io (Option Bytes)
  read_optional_published cwd root rel = read_optional env (filepath_for cwd root rel)

  -- A resolved file is in the staging directory or else published.
  abbrev pub staged_or_published : Bytes → Bytes → Option Bytes → Io Opened
  staged_or_published rel published (some content) = done (some (rel, content))
  staged_or_published rel published none =
      read_file env published >>= λ content. done (some (rel, content))

  unfoldable pub open_resolved :
      Bytes → Bytes → Bytes → Bytes → Dict ReleaseFile → Set → List Bytes → Io Opened
  open_resolved cwd staging root suite hashes resolved [] = done none
  open_resolved cwd staging root suite hashes resolved (rel ∷ rels) =
      let full = join_all (str "dists" ∷ suite ∷ rel ∷ []) in
      let next = open_resolved cwd staging root suite hashes resolved rels in
      if not (is_some (lookup rel hashes)) || not (contains resolved full)
      then next
      else read_optional env (filepath_for cwd (join_path staging (str "payloads")) full)
        >>= staged_or_published rel (filepath_for cwd root full)

  unfoldable pub open_resolved_named_index :
      Bytes → Bytes → Bytes → Bytes → Dict ReleaseFile → List RepositoryFile → IndexName → Io Opened
  open_resolved_named_index cwd staging root suite hashes files index =
      open_resolved cwd staging root suite hashes (map (λ (f : RepositoryFile). f.path) files)
        (index_candidates index.dir index.name)

  unfoldable pub verify_file : Bytes → ReleaseFile → Io Bool
  verify_file file want =
      if is_empty (strongest_release_checksum want.checksums).0
      then fail (failure "no supported checksum")
      else Publish.verify env file (
          some (size_check want.size)
          ∷ some (
              checksum_check (strongest_release_checksum want.checksums).0
                (strongest_release_checksum want.checksums).1)
          ∷ [])

  abbrev pub open_if_valid : Bytes → Bytes → Io Opened → Bool → Io Opened
  open_if_valid rel file next false = next
  open_if_valid rel file next true = read_file env file >>= λ content. done (some (rel, content))

  abbrev pub open_wanted : Bytes → Bytes → Io Opened → Option ReleaseFile → Io Opened
  open_wanted rel file next none = next
  open_wanted rel file next (some want) = verify_file file want >>= open_if_valid rel file next

  unfoldable pub open_published : Bytes → Bytes → Bytes → Dict ReleaseFile → List Bytes → Io Opened
  open_published cwd root suite hashes [] = done none
  open_published cwd root suite hashes (rel ∷ rels) =
      open_wanted rel (filepath_for cwd root (join_all (str "dists" ∷ suite ∷ rel ∷ [])))
        (open_published cwd root suite hashes rels) (lookup rel hashes)

  unfoldable pub open_published_named_index :
      Bytes → Bytes → Bytes → Dict ReleaseFile → IndexName → Io Opened
  open_published_named_index cwd root suite hashes index =
      open_published cwd root suite hashes (index_candidates index.dir index.name)

  -- An index that the Release advertises must be there.
  unfoldable pub must_be_there : Dict ReleaseFile → IndexName → Io (Unit {0})
  must_be_there hashes index =
      if release_advertises_index index.dir index.name hashes
      then fail (failure "no valid published index")
      else done tt

  abbrev pub failure_text : Option Fault → Option String
  failure_text none = none
  failure_text (some e) = some "read"

  -- The reader of bzip2 reports an error when it is read.
  abbrev pub when_read : Result Fault Stream → Stream
  when_read (ok stream) = stream
  when_read (err e) = ([], some e)

  -- The reader of `consumeIndex`; closing it is not modelled.
  unfoldable pub index_stream : Bytes → Bytes → Result Fault Stream
  index_stream rel content =
      if has_suffix rel (str ".gz")
      then env.decompress (str "gzip") (content, none)
      else if has_suffix rel (str ".xz")
      then env.decompress (str "xz") (content, none)
      else if has_suffix rel (str ".bz2")
      then ok (when_read (env.decompress (str "bzip2") (content, none)))
      else ok (content, none)

  abbrev pub packages_of : Result String PackageScan → Result String (Dict Payload)
  packages_of (ok s) = ok s.1
  packages_of (err e) = err e

  abbrev pub sources_of : Result String SourceScan → Result String (Dict Payload)
  sources_of (ok s) = ok s.out
  sources_of (err e) = err e

  unfoldable pub parse_into : IndexKind → Set → Stream → Dict Payload → Result String (Dict Payload)
  parse_into packages_index allowed stream out =
      packages_of (parse_packages allowed stream.0 (failure_text stream.1) out)
  parse_into sources_index allowed stream out =
      sources_of (parse_sources stream.0 (failure_text stream.1) out)

  abbrev pub parse_stream : IndexKind → Set → Dict Payload → Result Fault Stream → Io (Dict Payload)
  parse_stream kind allowed out (err e) = fail e
  parse_stream kind allowed out (ok stream) = lift (parse_into kind allowed stream out)

  unfoldable pub consume_index : IndexKind → Set → Bytes → Bytes → Dict Payload → Io (Dict Payload)
  consume_index kind allowed rel content out =
      parse_stream kind allowed out (index_stream rel content)

  module _ (allowed : Set) (opening : IndexName → Io Opened)
      (missing : IndexName → Io (Unit {0})) where
    abbrev pub consume_opened : IndexName → Dict Payload → Opened → Io (Dict Payload)
    consume_opened index out none = missing index >> done out
    consume_opened index out (some (rel, content)) =
        consume_index index.kind allowed rel content out

    -- The loops over the indexes of a component, which differ in `opening` and `missing` only.
    unfoldable pub read_indexes : List IndexName → Dict Payload → Io (Dict Payload)
    read_indexes [] out = done out
    read_indexes (index ∷ indexes) out = do
      opened ← opening index
      out' ← consume_opened index out opened
      read_indexes indexes out'
