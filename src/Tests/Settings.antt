-- ===== src/Tests/Settings.antt =====
-- A configuration of two repositories, and runs of a repository that fails twice.
use mirror_sync.Base.{
  err, ℕ, suc, ◌+◌, ◌≡◌, ◌↔◌, refl, true, false, none, some, List, [], ◌∷◌, ok, arith, length,
  Ensures, map, ltb, if◌then◌else◌,
}
use mirror_sync.Base.Int.{pos}
use mirror_sync.Base.Text.{
  Bytes, str, ◌=ˢ◌, contains, contains_text, has_prefix, cut_prefix, split, grow, join, trim_right,
  trim_left,
}
use mirror_sync.Base.Dict.{lookup, insert, add}
use mirror_sync.Model.{no_stats}
use mirror_sync.Safe.{
  is_abs, push, elements, render, clean, join_path, abs, path_dir, strip_common, file_rel,
}
use mirror_sync.Config.{
  Host, Config, Source, SourceProxy, AptRepository, ApkRepository, plain_file, repo_apt,
  source_primary, effective, payload_sources, validate_proxy_url, web_scheme,
}
use mirror_sync.Config.Limits.{
  YamlNode, document_node, mapping_node, scalar_node, no_nodes, more_nodes, document_root,
  reject_explicit_zero_limits, sequence_node, reject_zero_mirrors, reject_zero_source_limits,
  reject_zero_fields, reject_zero_paths, reject_zero_repositories, reject_zero_node, mapping_path,
  mapping_value, lookup_key, repositories_of, parse_any_int, parse_any_unsigned, parse_in_base,
  digit_value, base_of, underscore_ok,
}
use mirror_sync.Config.Validate.{
  validate, validate_apt, validate_apk, validate_apt_repository, validate_apk_repository,
  claim_path, resolve_publish, resolve_path, below_root, validate_numbers, validate_http_source,
  validate_mirrors, validate_source_proxy, validate_global_proxy, validate_schedule, readable_file,
}
use mirror_sync.Config.Nodes.{NoZeroLimit}
use mirror_sync.Config.Explicit.{reject_explicit_zero_limits_iff}
use mirror_sync.Config.Effective.{
  HasLimits, effective_limits, IsPayloadSources, payload_sources_lem,
}
use mirror_sync.Config.Valid.{IsValid}
use mirror_sync.Config.Load.{Reader, load, load_content, FromFile, load-IsValid}
use mirror_sync.App.{Task, each_repo, run_repo_with_retries}
use mirror_sync.App.Retries.{
  Attempted, NeverEnds, run_repo_with_retries_lem, run_repo_with_retries-succeeds,
}
use mirror_sync.App.Results.{AllSucceed, result_of, sum_of, each_repo_lem}

abbrev pub host : Host
host = record {
  cwd = str "/w";
  proxy_variable = [];
  scheme = λ u. some (str "http");
  is_duration = λ s. true;
  is_location = λ s. true;
  stat = λ p. some plain_file;
  opens = λ p. true;
}

abbrev no_proxy : SourceProxy
no_proxy = record { url = []; enabled = none }

abbrev primary : Source
primary = record {
  url = str "http://a/";
  max_connections = pos 0;
  max_in_flight_requests = pos 7;
  proxy = no_proxy;
}

abbrev pub apt_repo : AptRepository
apt_repo = record {
  name = str "d";
  publish_path = str "d";
  keyring = str "k";
  primary_source = primary;
  mirror_sources = [];
  architectures = str "all" ∷ [];
  suites = record { name = str "s"; components = str "main" ∷ [] } ∷ [];
  abs_publish_path = [];
  abs_keyring = [];
}

abbrev pub apk_repo : ApkRepository
apk_repo = record {
  name = str "d";
  publish_path = str "x/a";
  keys_dir = str "/k";
  primary_source = primary;
  mirror_sources = primary ∷ [];
  architectures = str "all" ∷ [];
  versions = record { name = str "v"; repositories = str "main" ∷ [] } ∷ [];
  abs_publish_path = [];
  abs_keys_dir = [];
}

abbrev pub settings : Config
settings = record {
  version = pos 1;
  level = [];
  storage = record { published = str "p"; staging = str "/s" };
  sync = record {
    prune = true;
    repository_retries = pos 2;
    schedule = record { interval = []; cron = []; timezone = [] };
    download = record {
      retries = pos 1;
      max_connections_per_source = pos 0;
      max_in_flight_requests = pos 0;
      max_in_flight_requests_per_source = pos 0;
      proxy = record { url = []; enabled_by_default = none };
    };
  };
  apt = apt_repo ∷ [];
  apk = apk_repo ∷ [];
  config_dir = [];
}

abbrev doc : YamlNode
doc = document_node (
    more_nodes
      (mapping_node
        (more_nodes (scalar_node (str "version")) (more_nodes (scalar_node (str "1")) no_nodes)))
      no_nodes)

abbrev reader : Reader
reader = record {
  read_file = λ p. some [];
  decode = λ text. ok settings;
  unmarshal = λ text. ok doc;
}

-- What is loaded: the paths are absolute.
abbrev loaded : Config
loaded = record settings {
  storage = record { published = str "/w/p"; staging = str "/s" };
  apt = record apt_repo { abs_publish_path = str "/w/p/d"; abs_keyring = str "/w/k" } ∷ [];
  apk = record apk_repo { abs_publish_path = str "/w/p/x/a"; abs_keys_dir = str "/k" } ∷ [];
  config_dir = str "/w";
}

loads : load host reader (str "c") ≡ ok loaded
unfolding load load_content validate validate_apt validate_apk validate_apt_repository
    validate_apk_repository claim_path resolve_publish resolve_path below_root validate_numbers
    validate_http_source validate_mirrors validate_source_proxy validate_global_proxy
    validate_schedule readable_file validate_proxy_url web_scheme lookup insert add contains
    contains_text has_prefix cut_prefix ◌=ˢ◌ is_abs push elements render clean join_path abs
    path_dir strip_common file_rel split grow join trim_right trim_left document_root
    reject_explicit_zero_limits reject_zero_paths reject_zero_repositories reject_zero_node
    mapping_path mapping_value lookup_key repositories_of
loads = refl

load-IsValid_example : IsValid loaded × FromFile host reader (str "c")
load-IsValid_example =
    load-IsValid host reader (str "c") (unfold is_abs has_prefix cut_prefix in refl) loads

-- `0x_0` is a zero.
zero_is_found : parse_any_int (str "0x_0") ≡ some (pos 0)
unfolding parse_any_int parse_any_unsigned parse_in_base digit_value base_of underscore_ok
zero_is_found = refl

abbrev pair : Bytes → YamlNode → YamlNode
pair key value = mapping_node (more_nodes (scalar_node key) (more_nodes value no_nodes))

-- A file of one section with a repository, whose mirror has a limit.
abbrev limited_mirror : Bytes → YamlNode
limited_mirror limit = document_node (
    more_nodes
      (pair (str "apk") (
        pair (str "repositories") (
          sequence_node (
            more_nodes
              (pair (str "mirror_sources") (
                sequence_node
                  (more_nodes (pair (str "max_connections") (scalar_node limit)) no_nodes)))
              no_nodes))))
      no_nodes)

four_is_accepted : reject_explicit_zero_limits (limited_mirror (str "4")) ≡ ok tt
unfolding reject_explicit_zero_limits reject_zero_paths reject_zero_repositories reject_zero_node
    reject_zero_mirrors reject_zero_source_limits reject_zero_fields mapping_path mapping_value
    lookup_key repositories_of document_root parse_any_int parse_any_unsigned parse_in_base
    digit_value base_of underscore_ok ◌=ˢ◌
four_is_accepted = refl

zero_is_refused :
    reject_explicit_zero_limits (limited_mirror (str "0x0")) ≡ err "must be positive when set"
unfolding reject_explicit_zero_limits reject_zero_paths reject_zero_repositories reject_zero_node
    reject_zero_mirrors reject_zero_source_limits reject_zero_fields mapping_path mapping_value
    lookup_key repositories_of document_root parse_any_int parse_any_unsigned parse_in_base
    digit_value base_of underscore_ok ◌=ˢ◌
zero_is_refused = refl

reject_explicit_zero_limits_iff_example :
    (reject_explicit_zero_limits (limited_mirror (str "4")) ≡ ok tt)
    ↔ NoZeroLimit (document_root (limited_mirror (str "4")))
reject_explicit_zero_limits_iff_example = reject_explicit_zero_limits_iff (limited_mirror (str "4"))

numbers_pass : validate_numbers settings.sync ≡ ok tt
unfolding validate_numbers
numbers_pass = refl

source_passes : validate_http_source host primary ≡ ok tt
unfolding validate_http_source validate_source_proxy validate_proxy_url web_scheme ◌=ˢ◌
source_passes = refl

effective_limits_example :
    Ensures
      (HasLimits settings primary)
      (effective host settings (str "d") repo_apt source_primary 0 primary)
effective_limits_example =
    effective_limits host settings (str "d") repo_apt source_primary 0 primary numbers_pass
      source_passes

payload_sources_lem_example :
    Ensures
      (IsPayloadSources host settings (str "d") repo_apt primary (primary ∷ []))
      (payload_sources host settings (str "d") repo_apt primary (primary ∷ []))
payload_sources_lem_example =
    payload_sources_lem host settings (str "d") repo_apt primary (primary ∷ [])

-- A repository whose first two attempts fail; the state counts its attempts.
abbrev flaky : Task ℕ ℕ
flaky = record {
  run = λ n. (suc n, (no_stats, if ltb n 2 then some n else none));
  is_done = λ n. false;
  wait = λ k n. (n, false);
}

run_repo_with_retries_lem_example :
    Attempted flaky 3 0 no_stats 0 (run_repo_with_retries flaky (pos 2) 0)
run_repo_with_retries_lem_example = run_repo_with_retries_lem flaky (pos 2) 0 refl

run_repo_with_retries-succeeds_example : (run_repo_with_retries flaky (pos 2) 0).1.1 ≡ none
run_repo_with_retries-succeeds_example =
    run_repo_with_retries-succeeds flaky (pos 2) 0 2 refl ((λ s. refl), (λ n s. refl)) (omega arith)
      (unfold mirror_sync.App.Retries.state_at in refl)

abbrev two_tasks : List (Task ℕ ℕ × ℕ)
two_tasks = (flaky, 0) ∷ (flaky, 1) ∷ []

each_repo_lem_example :
    ((each_repo two_tasks (pos 1)).0.succeeded + (each_repo two_tasks (pos 1)).0.failed
      ≡ length two_tasks)
    × ((each_repo two_tasks (pos 1)).0.failed ≡ length (each_repo two_tasks (pos 1)).1)
    × ((each_repo two_tasks (pos 1)).0.stats ≡ sum_of (map (result_of (pos 1)) two_tasks))
    × (((each_repo two_tasks (pos 1)).1 ≡ []) ↔ AllSucceed (pos 1) two_tasks)
each_repo_lem_example = each_repo_lem (pos 1) two_tasks
