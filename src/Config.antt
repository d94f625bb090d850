-- ===== src/Config.antt =====
-- internal/config/config.go: the configuration and the settings of a source that follow from it.
-- `Host` is what the code asks of the machine and of packages net/url and time.
pub mod Limits
pub mod Validate
pub mod Zeros
pub mod Nodes
pub mod Explicit
pub mod Effective
pub mod Claims
pub mod Numbers
pub mod Valid
pub mod Load
use mirror_sync.Base.{
  ℕ, zero, suc, ◌+◌, String, Bool, true, false, not, ◌&&◌, ◌||◌, Option, none, some, List, [], ◌∷◌,
  ◌++◌, any_by, if◌then◌else◌, Result, ok, err, ◌>>=◌, ◌>>◌, reject_if, ◌==◌,
}
use mirror_sync.Base.Int.{ℤ, pos, is_zero, is_positive}
use mirror_sync.Base.Text.{Bytes, str, ◌=ˢ◌, is_empty, trim_right}
use mirror_sync.Apt.Select.{AptSuite}

pub record Storage : Type 0 where
  pub published : Bytes
  pub staging : Bytes

pub record Schedule : Type 0 where
  pub interval : Bytes
  pub cron : Bytes
  pub timezone : Bytes

pub record GlobalProxy : Type 0 where
  pub url : Bytes
  pub enabled_by_default : Option Bool

pub record SourceProxy : Type 0 where
  pub url : Bytes
  pub enabled : Option Bool

pub record Source : Type 0 where
  pub url : Bytes
  pub max_connections : ℤ
  pub max_in_flight_requests : ℤ
  pub proxy : SourceProxy

pub record DownloadSettings : Type 0 where
  pub retries : ℤ
  pub max_connections_per_source : ℤ
  pub max_in_flight_requests : ℤ
  pub max_in_flight_requests_per_source : ℤ
  pub proxy : GlobalProxy

pub record SyncSettings : Type 0 where
  pub prune : Bool
  pub repository_retries : ℤ
  pub schedule : Schedule
  pub download : DownloadSettings

pub record AptRepository : Type 0 where
  pub name : Bytes
  pub publish_path : Bytes
  pub keyring : Bytes
  pub primary_source : Source
  pub mirror_sources : List Source
  pub architectures : List Bytes
  pub suites : List AptSuite
  pub abs_publish_path : Bytes
  pub abs_keyring : Bytes

pub record ApkVersion : Type 0 where
  pub name : Bytes
  pub repositories : List Bytes

pub record ApkRepository : Type 0 where
  pub name : Bytes
  pub publish_path : Bytes
  pub keys_dir : Bytes
  pub primary_source : Source
  pub mirror_sources : List Source
  pub architectures : List Bytes
  pub versions : List ApkVersion
  pub abs_publish_path : Bytes
  pub abs_keys_dir : Bytes

pub record Config : Type 0 where
  pub version : ℤ
  pub level : Bytes
  pub storage : Storage
  pub sync : SyncSettings
  pub apt : List AptRepository
  pub apk : List ApkRepository
  pub config_dir : Bytes

pub data RepoKind : Type 0 where
  repo_apt : RepoKind
  repo_apk : RepoKind

pub data SourceRole : Type 0 where
  source_primary : SourceRole
  source_mirror : SourceRole

pub record EffectiveSource : Type 0 where
  pub repo_name : Bytes
  pub repo_kind : RepoKind
  pub role : SourceRole
  pub index : ℕ
  pub url : Bytes
  pub proxy_url : Bytes
  pub direct_proxy : Bool
  pub max_connections : ℤ
  pub max_in_flight_requests : ℤ

-- What os.Stat says of a path that exists.
pub data FileKind : Type 0 where
  plain_file : FileKind
  directory : FileKind

-- The working directory, MIRRORSYNC_PROXY, the scheme that url.Parse finds, whether ParseDuration
-- and LoadLocation accept a text, os.Stat and whether os.Open succeeds.
pub record Host : Type 0 where
  pub cwd : Bytes
  pub proxy_variable : Bytes
  pub scheme : Bytes → Option Bytes
  pub is_duration : Bytes → Bool
  pub is_location : Bytes → Bool
  pub stat : Bytes → Option FileKind
  pub opens : Bytes → Bool

abbrev pub default_max_in_flight_requests : ℤ
default_max_in_flight_requests = pos 4

abbrev pub default_max_connections_per_source : ℤ
default_max_connections_per_source = pos 4

unfoldable pub web_scheme : String → Option Bytes → Result String (Unit {0})
unfolding ◌=ˢ◌
web_scheme text none = err "parse url"
web_scheme text (some s) = reject_if (not (s =ˢ str "http") && not (s =ˢ str "https")) text

unfoldable pub validate_proxy_url : Host → Bytes → Result String (Unit {0})
validate_proxy_url host raw =
    if is_empty raw then ok tt else web_scheme "proxy url must use http or https" (host.scheme raw)

-- The URL of the proxy, and whether requests go directly.
unfoldable pub inherited_proxy : Host → Config → Result String (Bytes × Bool)
inherited_proxy host c =
    if not (is_empty c.sync.download.proxy.url)
    then ok (c.sync.download.proxy.url, false)
    else if is_empty host.proxy_variable
    then ok ([], true)
    else (validate_proxy_url host host.proxy_variable >> ok (host.proxy_variable, false))

abbrev pub is_off : Option Bool → Bool
is_off none = false
is_off (some b) = not b

abbrev pub proxy_switch : Host → Config → Option Bool → Result String (Bytes × Bool)
proxy_switch host c (some enabled) = if not enabled then ok ([], true) else inherited_proxy host c
proxy_switch host c none =
    if is_off c.sync.download.proxy.enabled_by_default
    then ok ([], true)
    else inherited_proxy host c

unfoldable pub resolve_proxy : Host → Config → SourceProxy → Result String (Bytes × Bool)
resolve_proxy host c proxy =
    if not (is_empty proxy.url) then ok (proxy.url, false) else proxy_switch host c proxy.enabled

unfoldable pub max_in_flight : Config → ℤ
max_in_flight c =
    if is_positive c.sync.download.max_in_flight_requests
    then c.sync.download.max_in_flight_requests
    else default_max_in_flight_requests

abbrev pub or_if_zero : ℤ → ℤ → ℤ
or_if_zero a b = if is_zero a then b else a

-- `Source`
unfoldable pub effective :
    Host → Config → Bytes → RepoKind → SourceRole → ℕ → Source → Result String EffectiveSource
effective host c repo kind role index src = do
  proxy ← resolve_proxy host c src.proxy
  ok (record {
    repo_name = repo;
    repo_kind = kind;
    role = role;
    index = index;
    url = trim_right (λ b. b == b'/') src.url;
    proxy_url = proxy.0;
    direct_proxy = proxy.1;
    max_connections =
        or_if_zero (or_if_zero src.max_connections c.sync.download.max_connections_per_source)
          default_max_connections_per_source;
    max_in_flight_requests =
        or_if_zero
          (or_if_zero src.max_in_flight_requests c.sync.download.max_in_flight_requests_per_source)
          (max_in_flight c);
  })

-- The mirrors, from index `i` on.
unfoldable pub effective_mirrors :
    Host → Config → Bytes → RepoKind → ℕ → List Source → Result String (List EffectiveSource)
effective_mirrors host c repo kind i [] = ok []
effective_mirrors host c repo kind i (m ∷ ms) = do
  e ← effective host c repo kind source_mirror i m
  es ← effective_mirrors host c repo kind (suc i) ms
  ok (e ∷ es)

unfoldable pub has_url : Bytes → EffectiveSource → Bool
unfolding ◌=ˢ◌
has_url url e = e.url =ˢ url

unfoldable pub payload_sources :
    Host → Config → Bytes → RepoKind → Source → List Source → Result String (List EffectiveSource)
payload_sources host c repo kind primary mirrors = do
  p ← effective host c repo kind source_primary 0 primary
  out ← effective_mirrors host c repo kind 0 mirrors
  ok (if any_by (has_url p.url) out then out else out ++ (p ∷ []))
