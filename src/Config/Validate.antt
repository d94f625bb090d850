-- ===== src/Config/Validate.antt =====
-- `validate` of internal/config/config.go: the checks, and the absolute paths that it fills in.
use mirror_sync.Base.{
  String, Bool, true, false, not, ◌&&◌, ◌||◌, Option, none, some, List, [], ◌∷◌, ◌++◌, is_some,
  if◌then◌else◌, Result, ok, err, ◌>>=◌, ◌>>◌, reject_if,
}
use mirror_sync.Base.Int.{pos, ◌==ℤ◌, is_negative}
use mirror_sync.Base.Text.{Bytes, str, ◌=ˢ◌, is_empty, contains, contains_text}
use mirror_sync.Base.Dict.{Dict, Set, lookup, insert, add}
use mirror_sync.Safe.{is_abs, clean, join_path, abs, file_rel, goes_up}
use mirror_sync.Config.{
  Host, FileKind, plain_file, directory, Source, SourceProxy, GlobalProxy, Schedule, AptRepository,
  ApkRepository, SyncSettings, Config, web_scheme, validate_proxy_url,
}

unfoldable pub resolve_path : Host → Bytes → Bytes → Result String Bytes
resolve_path host base p =
    if is_empty p
    then err "path is required"
    else ok (abs host.cwd (clean (if is_abs p then p else join_path base p)))

unfoldable pub below_root : Bytes → Result String Bytes
unfolding ◌=ˢ◌
below_root rel =
    if goes_up rel then err "publish_path must not escape storage.published" else ok rel

unfoldable pub resolve_publish : Host → Bytes → Bytes → Result String Bytes
unfolding ◌=ˢ◌
resolve_publish host root p = do
  reject_if (is_empty p) "publish_path is required"
  reject_if (is_abs p) "publish_path must be relative"
  reject_if (clean p =ˢ str "." || goes_up (clean p))
      "publish_path must not escape storage.published"
  let target = abs host.cwd (join_path root (clean p))
  d ← file_rel root target
  _ ← below_root d
  ok target

abbrev opened : Bool → Option FileKind → Result String (Unit {0})
opened opens none = err "stat"
opened opens (some directory) = err "is a directory"
opened opens (some plain_file) = reject_if (not opens) "open"

unfoldable pub readable_file : Host → Bytes → Result String (Unit {0})
readable_file host path = opened (host.opens path) (host.stat path)

unfoldable pub validate_source_proxy : Host → SourceProxy → Result String (Unit {0})
validate_source_proxy host p = do
  reject_if (not (is_empty p.url) && is_some p.enabled) "specify only one of url or enabled"
  validate_proxy_url host p.url

unfoldable pub validate_global_proxy : Host → GlobalProxy → Result String (Unit {0})
validate_global_proxy host p = validate_proxy_url host p.url

unfoldable pub validate_http_source : Host → Source → Result String (Unit {0})
validate_http_source host src = do
  reject_if (is_empty src.url) "url is required"
  web_scheme "url must use http or https" (host.scheme src.url)
  reject_if (is_negative src.max_connections) "max_connections must be non-negative"
  reject_if (is_negative src.max_in_flight_requests) "max_in_flight_requests must be non-negative"
  validate_source_proxy host src.proxy

unfoldable pub validate_mirrors : Host → List Source → Result String (Unit {0})
validate_mirrors host [] = ok tt
validate_mirrors host (m ∷ ms) = do validate_http_source host m; validate_mirrors host ms

unfoldable pub validate_numbers : SyncSettings → Result String (Unit {0})
validate_numbers s = do
  reject_if (is_negative s.download.retries) "retries must be non-negative"
  reject_if (is_negative s.repository_retries) "repository_retries must be non-negative"
  reject_if (is_negative s.download.max_connections_per_source) "must be non-negative"
  reject_if (is_negative s.download.max_in_flight_requests) "must be non-negative"
  reject_if (is_negative s.download.max_in_flight_requests_per_source) "must be non-negative"

unfoldable pub validate_schedule : Host → Schedule → Result String (Unit {0})
validate_schedule host s = do
  reject_if (not (is_empty s.interval) && not (host.is_duration s.interval)) "interval"
  reject_if (not (is_empty s.cron) && is_empty s.timezone) "timezone is required when cron is set"
  reject_if (not (is_empty s.cron) && not (host.is_location s.timezone)) "timezone"
  reject_if (not (is_empty s.cron) && not (is_empty s.interval)) "only one of interval or cron"

abbrev pub levels : List Bytes
levels = [] ∷ str "debug" ∷ str "info" ∷ str "warn" ∷ str "error" ∷ str "off" ∷ []

-- The names and the owners of the publish paths of the repositories before this one.
abbrev pub no_list : {A : Type 0} → List A → Bool
no_list [] = true
no_list (x ∷ xs) = false

unfoldable pub claim_path : Host → Bytes → Dict Bytes → Bytes → Result String Bytes
claim_path host root paths publish_path = do
  target ← resolve_publish host root publish_path
  reject_if (is_some (lookup target paths)) "publish_path is used by both"
  ok target

unfoldable pub validate_apt_repository :
    Host → Bytes → Bytes → Set → Dict Bytes → AptRepository → Result String AptRepository
validate_apt_repository host dir root names paths repo = do
  reject_if (is_empty repo.name) "name is required"
  reject_if (contains names repo.name) "duplicate apt repository name"
  validate_http_source host repo.primary_source
  validate_mirrors host repo.mirror_sources
  target ← claim_path host root paths repo.publish_path
  reject_if (is_empty repo.keyring) "keyring is required"
  reject_if (contains_text repo.keyring (str "://")) "keyring must be a local path"
  keyring ← resolve_path host dir repo.keyring
  readable_file host keyring
  reject_if (no_list repo.architectures || no_list repo.suites) "requires architectures and suites"
  ok (record repo { abs_publish_path = target; abs_keyring = keyring })

unfoldable pub validate_apk_repository :
    Host → Bytes → Bytes → Set → Dict Bytes → ApkRepository → Result String ApkRepository
validate_apk_repository host dir root names paths repo = do
  reject_if (is_empty repo.name) "name is required"
  reject_if (contains names repo.name) "duplicate apk repository name"
  validate_http_source host repo.primary_source
  validate_mirrors host repo.mirror_sources
  target ← claim_path host root paths repo.publish_path
  reject_if (is_empty repo.keys_dir) "keys_dir is required"
  keys ← resolve_path host dir repo.keys_dir
  reject_if (no_list repo.architectures || no_list repo.versions)
      "requires architectures and versions"
  ok (record repo { abs_publish_path = target; abs_keys_dir = keys })

-- The repositories with their paths, and the owners of all publish paths so far.
unfoldable pub validate_apt :
    Host
    → Bytes
    → Bytes
    → Set
    → Dict Bytes
    → List AptRepository
    → Result String (List AptRepository × Dict Bytes)
validate_apt host dir root names paths [] = ok ([], paths)
validate_apt host dir root names paths (repo ∷ repos) = do
  r ← validate_apt_repository host dir root names paths repo
  rest ←
      validate_apt host dir root (add repo.name names)
        (insert r.abs_publish_path (str "apt/" ++ repo.name) paths) repos
  ok (r ∷ rest.0, rest.1)

unfoldable pub validate_apk :
    Host
    → Bytes
    → Bytes
    → Set
    → Dict Bytes
    → List ApkRepository
    → Result String (List ApkRepository × Dict Bytes)
validate_apk host dir root names paths [] = ok ([], paths)
validate_apk host dir root names paths (repo ∷ repos) = do
  r ← validate_apk_repository host dir root names paths repo
  rest ←
      validate_apk host dir root (add repo.name names)
        (insert r.abs_publish_path (str "apk/" ++ repo.name) paths) repos
  ok (r ∷ rest.0, rest.1)

-- The configuration with absolute paths.
unfoldable pub validate : Host → Config → Result String Config
validate host c = do
  reject_if (not (c.version ==ℤ pos 1)) "version must be 1"
  reject_if (not (contains levels c.level)) "logging.level must be one of"
  published ← resolve_path host c.config_dir c.storage.published
  staging ← resolve_path host c.config_dir c.storage.staging
  validate_numbers c.sync
  validate_global_proxy host c.sync.download.proxy
  validate_schedule host c.sync.schedule
  apt ← validate_apt host c.config_dir published [] [] c.apt
  apk ← validate_apk host c.config_dir published [] apt.1 c.apk
  ok (record c {
    storage = record { published = published; staging = staging };
    apt = apt.0;
    apk = apk.0;
  })
