-- ===== src/Download.antt =====
-- internal/download/download.go: a file is fetched, checked and only then published. `cwd` is the
-- working directory. The goroutines' queue is not modelled: the functions treat one file.
pub mod Fetch
pub mod Publishing
pub mod Repair
pub mod Workers
use mirror_sync.Base.{
  ℕ, zero, suc, ◌+◌, String, Bool, true, false, not, ◌&&◌, ◌||◌, ◌==◌, ltb, leb, Option, none, some,
  List, [], ◌∷◌, ◌++◌, Result, ok, err, if◌then◌else◌, length, map,
}
use mirror_sync.Base.Int.{ℤ, pos, ◌==ℤ◌, is_negative, is_positive, to_ℕ}
use mirror_sync.Base.Text.{Bytes, str, ◌=ˢ◌, is_empty, equal_fold, to_upper, contains}
use mirror_sync.Model
use mirror_sync.Model.{Checksums, no_digest, OperationStats, no_stats, add_stats, Payload}
use mirror_sync.Base.Dict.{Dict, Set}
use mirror_sync.Safe.{safe_join, join_path, path_dir}
use mirror_sync.World.{
  World, Fault, failure, http_status, all_failed, Node, regular, special, Env, Io, done, fail, try,
  ◌>>=◌, ◌>>◌, call, remove, rename, create, write, Response, Stream, op_mkdir, op_sync,
}
use mirror_sync.Apt.Checksums.{algorithms_and_md5}
use mirror_sync.Publish.{
  VerifyOption, size_check, checksum_check, func_check, supported_hash, verify, publish_file, lift,
}
use mirror_sync.Httpx.{Client, do_request, is_status}

pub record Source : Type 0 where
  pub rel_path : Bytes
  pub decompress : Bytes

pub record Expected : Type 0 where
  pub rel_path : Bytes
  pub size : ℤ
  pub sha256 : Bytes
  pub checksums : Checksums
  pub verify : Option (Bytes → Bool)
  pub verify_on_sync : Bool
  pub sources : List Source

unfoldable pub canonical_checksum_name : Bytes → Bytes
canonical_checksum_name name = if equal_fold name (str "MD5Sum") then str "MD5" else to_upper name

unfoldable pub strongest_in : List Bytes → Checksums → Bytes × Bytes
strongest_in [] checksums = ([], [])
strongest_in (alg ∷ algs) checksums =
    let weaker = strongest_in algs checksums in
    if is_empty (Model.get checksums alg)
    then weaker
    else (canonical_checksum_name alg, Model.get checksums alg)

unfoldable pub strongest_checksum : Expected → Bytes × Bytes
strongest_checksum expected = strongest_in algorithms_and_md5 (
    if no_digest expected.checksums && not (is_empty expected.sha256)
    then record (expected.checksums) { sha256 = expected.sha256 }
    else expected.checksums)

abbrev pub option_of : Bytes × Bytes → Option VerifyOption
option_of (alg, hex) = if is_empty alg then none else some (checksum_check alg hex)

unfoldable pub checksum_verify_option : Expected → Option VerifyOption
checksum_verify_option expected = option_of (strongest_checksum expected)

-- The options of a full verification.
abbrev pub full_options : Expected → List (Option VerifyOption)
full_options expected =
    some (size_check expected.size)
    ∷ checksum_verify_option expected
    ∷ some (func_check expected.verify)
    ∷ []

-- `workerCount`, of the sources' limits.
abbrev pub limit_of : Client → ℕ
limit_of client = if is_positive client.max_in_flight then to_ℕ client.max_in_flight else 1

unfoldable pub sum_limits : List Client → ℕ
sum_limits [] = 0
sum_limits (client ∷ clients) = limit_of client + sum_limits clients

unfoldable pub worker_count : List Client → ℕ → ℕ
worker_count clients expected =
    if expected == 0
    then 0
    else let workers = (if sum_limits clients == 0 then 1 else sum_limits clients) in
      if ltb expected workers then expected else workers

abbrev pub partial : Bytes → Bytes
partial staged = staged ++ str ".partial"

module _ (env : Env) where
  -- What `gotChecksum` is for a content; it stays empty without a hash.
  unfoldable pub hash_of : Bytes → Bytes → Bytes
  hash_of alg content = if supported_hash alg then env.digest (to_upper alg) content else []

  unfoldable pub decompressed_body : Stream → Bytes → Result Fault Stream
  decompressed_body body compression =
      if is_empty compression
      then ok body
      else if compression =ˢ str "gzip" || compression =ˢ str "xz"
      then env.decompress compression body
      else err (failure "unsupported source decompression")

  abbrev pub raise : {A : Type 0} → Result Fault A → Io A
  raise (ok a) = done a
  raise (err e) = fail e

  abbrev pub raise_if : Option Fault → Io (Unit {0})
  raise_if none = done tt
  raise_if (some e) = fail e

  -- The response is written to the file `tmp`: the number of bytes and their checksum.
  unfoldable pub save_response : Bytes → Bytes → Bytes → Response → Io (ℕ × Bytes)
  save_response tmp compression alg resp = do
    create env tmp
    stream ← raise (decompressed_body resp.body compression)
    write env tmp stream.0
    raise_if stream.1
    call env op_sync tmp
    done (length stream.0, hash_of alg stream.0)

  abbrev pub discard : {A : Type 0} → Bytes → Fault → Io A
  discard tmp e = remove env tmp >> fail e

  abbrev pub renamed : Bytes → ℕ → Result Fault (Unit {0}) → Io ℕ
  renamed tmp written (ok _) = done written
  renamed tmp written (err e) = discard tmp e

  -- The checks on what was saved, and the renaming.
  abbrev pub accept : Expected → Bytes → Bytes → Result Fault (ℕ × Bytes) → Io ℕ
  accept expected tmp staged (err e) = discard tmp e
  accept expected tmp staged (ok (written, got)) =
      if not (is_negative expected.size) && not (pos written ==ℤ expected.size)
      then discard tmp (failure "size mismatch")
      else (if not (is_empty (strongest_checksum expected).0)
            && not (equal_fold got (strongest_checksum expected).1)
          then discard tmp (failure "checksum mismatch")
          else (try (rename env tmp staged) >>= renamed tmp written))

  unfoldable pub download_one : Client → Expected → Source → Bytes → Io ℕ
  download_one client expected source staged = do
    call env op_mkdir (path_dir staged)
    remove env (partial staged)
    saved ← try (
        do_request env client source.rel_path
          (save_response (partial staged) source.decompress (strongest_checksum expected).0)
          (0, []))
    accept expected (partial staged) staged saved

  abbrev pub or_next : {A : Type 0} → Io A → Result Fault A → Io A
  or_next next (ok a) = done a
  or_next next (err e) = next

  abbrev pub named_source : Expected → Source → Source
  named_source expected source =
      if is_empty source.rel_path then record source { rel_path = expected.rel_path } else source

  unfoldable pub download_sources : Client → Expected → Bytes → List Source → Io ℕ
  download_sources client expected staged [] = fail all_failed
  download_sources client expected staged (source ∷ sources) =
      try (download_one client expected (named_source expected source) staged)
      >>= or_next (download_sources client expected staged sources)

  abbrev pub sources_of : Expected → List Source → List Source
  sources_of expected [] = record { rel_path = expected.rel_path; decompress = [] } ∷ []
  sources_of expected (source ∷ sources) = source ∷ sources

  unfoldable pub download_from_client : Client → Expected → Bytes → Io ℕ
  download_from_client client expected staged =
      download_sources client expected staged (sources_of expected expected.sources)

  -- `expected.Verify(staged)`, which reads the file.
  abbrev pub verify_node_by : Option (Bytes → Bool) → Option Node → Bool
  verify_node_by none _ = true
  verify_node_by (some check) none = false
  verify_node_by (some check) (some special) = false
  verify_node_by (some check) (some (regular content)) = check content

  abbrev pub publish_checked :
      Bytes → Bytes → Bytes → Bytes → Expected → Io ℕ → Result Fault ℕ → Io ℕ
  publish_checked cwd root staged final expected next (err e) = next
  publish_checked cwd root staged final expected next (ok written) = λ w.
      if verify_node_by expected.verify (w.files staged)
      then (publish_file env cwd root staged final >> done written) w
      else (remove env staged >> next) w

  unfoldable pub download_and_publish :
      Bytes → Bytes → List Client → Expected → Bytes → Bytes → Io ℕ
  download_and_publish cwd root [] expected staged final = fail all_failed
  download_and_publish cwd root (client ∷ clients) expected staged final =
      try (download_from_client client expected staged)
      >>= publish_checked cwd root staged final expected
          (download_and_publish cwd root clients expected staged final)

  abbrev pub checked_stats : OperationStats
  checked_stats = record no_stats { files_checked = 1 }

  -- The statistics of an error are those of a file that was checked; they are left out here.
  unfoldable pub fetch_missing :
      Bytes → Bytes → List Client → Expected → Bytes → Bytes → ℕ → Io OperationStats
  fetch_missing cwd root clients expected staged final repaired = do
    remove env staged
    bytes ← download_and_publish cwd root clients expected staged final
    done (record checked_stats {
      files_downloaded = 1;
      files_repaired = repaired;
      bytes_downloaded = bytes;
    })

  abbrev pub sync_options : Expected → List (Option VerifyOption)
  sync_options expected =
      some (size_check expected.size)
      ∷ (if expected.verify_on_sync
          then checksum_verify_option expected ∷ some (func_check expected.verify) ∷ []
          else [])

  unfoldable pub ensure_synced_one :
      Bytes → Bytes → Bytes → List Client → Expected → Io OperationStats
  ensure_synced_one cwd publish_root staging_root clients expected = do
    final ← lift (safe_join cwd publish_root expected.rel_path)
    present ← verify env final (sync_options expected)
    if present
        then done (record checked_stats { files_reused = 1 })
        else (lift (safe_join cwd (join_path staging_root (str "payloads")) expected.rel_path)
            >>= λ staged. fetch_missing cwd publish_root clients expected staged final 0)

  abbrev pub publish_staged :
      Bytes → Bytes → List Client → Expected → Bytes → Bytes → Bool → Io OperationStats
  publish_staged cwd publish_root clients expected final staged true =
      publish_file env cwd publish_root staged final
      >> done (record checked_stats { files_repaired = 1 })
  publish_staged cwd publish_root clients expected final staged false =
      fetch_missing cwd publish_root clients expected staged final 1

  unfoldable pub ensure_repaired_one :
      Bytes → Bytes → Bytes → List Client → Expected → Io OperationStats
  ensure_repaired_one cwd publish_root staging_root clients expected = do
    final ← lift (safe_join cwd publish_root expected.rel_path)
    present ← verify env final (full_options expected)
    if present
        then done (record checked_stats { files_reused = 1 })
        else (lift (safe_join cwd (join_path staging_root (str "payloads")) expected.rel_path)
            >>= λ staged.
                verify env staged (full_options expected)
                >>= publish_staged cwd publish_root clients expected final staged)

  unfoldable pub try_clients : Expected → Bytes → List Client → Io Bool
  try_clients expected staged [] = fail all_failed
  try_clients expected staged (client ∷ clients) =
      try (
        download_one client expected (record { rel_path = expected.rel_path; decompress = [] })
          staged)
      >>= missing_or (is_last clients) (try_clients expected staged clients)
    where
      is_last : List Client → Bool
      is_last [] = true
      is_last (c ∷ cs) = false

      missing_or : Bool → Io Bool → Result Fault ℕ → Io Bool
      missing_or last next (ok written) = done true
      missing_or last next (err e) = if last && is_status e 404 then done false else next

  -- Whether a valid copy is in one of the roots already, behind the removal of an invalid staged
  -- one.
  abbrev pub reuse_published : Bytes → Bytes → List Client → Expected → Bytes → Bool → Io Bool
  reuse_published cwd publish_root clients expected staged reuse =
      if reuse && not (is_empty publish_root)
      then (lift (safe_join cwd publish_root expected.rel_path) >>= λ published.
          verify env published (full_options expected) >>= λ valid.
          if valid then done true else try_clients expected staged clients)
      else try_clients expected staged clients

  unfoldable pub resolve_exact_one : Bytes → Bytes → Bytes → Bool → List Client → Expected → Io Bool
  resolve_exact_one cwd publish_root staging_root reuse_local clients expected = do
    staged ← lift (safe_join cwd (join_path staging_root (str "payloads")) expected.rel_path)
    valid ← (if reuse_local then verify env staged (full_options expected) else done false)
    if valid
        then done true
        else (remove env staged
            >> reuse_published cwd publish_root clients expected staged reuse_local)

  -- `ensureMany` with one worker: it takes the files in order, and its first error ends the work.
  unfoldable pub ensure_many :
      (Expected → Io OperationStats) → List Expected → OperationStats → Io OperationStats
  ensure_many ensure_one [] stats = done stats
  ensure_many ensure_one (e ∷ es) stats = do
    result ← ensure_one e
    ensure_many ensure_one es (add_stats stats result)

  -- The files that are found, in the order of the expected ones.
  unfoldable pub resolve_each :
      Bytes → Bytes → Bytes → Set → List Client → List Expected → Io (List Expected)
  resolve_each cwd publish_root staging_root reusable clients [] = done []
  resolve_each cwd publish_root staging_root reusable clients (e ∷ es) = do
    found ← resolve_exact_one cwd publish_root staging_root (contains reusable e.rel_path) clients e
    rest ← resolve_each cwd publish_root staging_root reusable clients es
    done (if found then e ∷ rest else rest)

  -- `ResolveExact` with one worker; `reusable` is the map of the paths whose local copies may
  -- serve.
  unfoldable pub resolve_exact :
      Bytes → Bytes → Bytes → Set → List Client → List Expected → Io (List Expected)
  resolve_exact cwd publish_root staging_root reusable clients [] = done []
  resolve_exact cwd publish_root staging_root reusable [] (e ∷ es) =
      fail (failure "no download sources configured")
  resolve_exact cwd publish_root staging_root reusable (client ∷ clients) (e ∷ es) =
      resolve_each cwd publish_root staging_root reusable (client ∷ clients) (e ∷ es)

-- `payloadExpected`: a payload map as the files that are expected.
unfoldable pub payload_expected : Dict Payload → List Expected
payload_expected payloads =
    map
      (λ (e : Bytes × Payload). record {
        rel_path = e.0;
        size = e.1.size;
        sha256 = [];
        checksums = e.1.checksums;
        verify = e.1.verify;
        verify_on_sync = false;
        sources = [];
      })
      payloads
