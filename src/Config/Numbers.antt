-- ===== src/Config/Numbers.antt =====
-- The retries and limits that `validate` of internal/config/config.go lets through.
use mirror_sync.Base.{
  ◌≡◌, false, List, [], ◌∷◌, ◌++◌, ok, ◌>>=◌, Ensures, Ensures-bind, ensured, arith, All,
}
use mirror_sync.Base.Int.{is_negative}
use mirror_sync.Base.Text.{Bytes, str}
use mirror_sync.Base.Dict.{Dict, Set, insert, add}
use mirror_sync.Config.{Host, Source, SyncSettings, AptRepository, ApkRepository}
use mirror_sync.Config.Validate.{
  validate_apt, validate_apk, validate_apt_repository, validate_apk_repository, validate_numbers,
  validate_http_source, validate_mirrors,
}

-- No retry count and no limit of the file as a whole is negative.
abbrev pub NoneNegative : SyncSettings → Type 0
NoneNegative s =
    (is_negative s.download.retries ≡ false)
    × (is_negative s.repository_retries ≡ false)
    × (is_negative s.download.max_connections_per_source ≡ false)
    × (is_negative s.download.max_in_flight_requests ≡ false)
    × (is_negative s.download.max_in_flight_requests_per_source ≡ false)

pub validate_numbers-NoneNegative : (s : SyncSettings) → validate_numbers s ≡ ok tt → NoneNegative s
unfolding validate_numbers
validate_numbers-NoneNegative s h =
    (ground arith, ground arith, ground arith, ground arith, ground arith)

-- No limit of a source is negative.
abbrev pub IsLimited : Source → Type 0
IsLimited src =
    (is_negative src.max_connections ≡ false) × (is_negative src.max_in_flight_requests ≡ false)

source-IsLimited :
    (host : Host) (src : Source) → validate_http_source host src ≡ ok tt → IsLimited src
unfolding validate_http_source
source-IsLimited host src h = (ground arith, ground arith)

mirrors-IsLimited :
    (host : Host) (ms : List Source) → validate_mirrors host ms ≡ ok tt → All IsLimited ms
unfolding validate_mirrors
mirrors-IsLimited host [] h = tt
mirrors-IsLimited host (m ∷ ms) h =
    (source-IsLimited host m (ground arith), mirrors-IsLimited host ms (ground arith))

-- The limits of all sources of a repository.
abbrev pub AptLimited : AptRepository → Type 0
AptLimited r = All IsLimited (r.primary_source ∷ r.mirror_sources)

abbrev pub ApkLimited : ApkRepository → Type 0
ApkLimited r = All IsLimited (r.primary_source ∷ r.mirror_sources)

module _ (host : Host) (dir root : Bytes) where
  apt_repository-Limited :
      (names : Set) (paths : Dict Bytes) (repo : AptRepository) {r : AptRepository}
      → validate_apt_repository host dir root names paths repo ≡ ok r
      → AptLimited r
  unfolding validate_apt_repository
  apt_repository-Limited names paths repo {r} e = (
    source-IsLimited host r.primary_source (ground arith),
    mirrors-IsLimited host r.mirror_sources (ground arith),
  )

  apk_repository-Limited :
      (names : Set) (paths : Dict Bytes) (repo : ApkRepository) {r : ApkRepository}
      → validate_apk_repository host dir root names paths repo ≡ ok r
      → ApkLimited r
  unfolding validate_apk_repository
  apk_repository-Limited names paths repo {r} e = (
    source-IsLimited host r.primary_source (ground arith),
    mirrors-IsLimited host r.mirror_sources (ground arith),
  )

  pub validate_apt-Limited :
      (names : Set) (paths : Dict Bytes) (repos : List AptRepository)
      → Ensures
          (λ (out : List AptRepository × Dict Bytes). All AptLimited out.0)
          (validate_apt host dir root names paths repos)
  unfolding validate_apt
  validate_apt-Limited names paths [] = tt
  validate_apt-Limited names paths (repo ∷ repos) =
      Ensures-bind _ (validate_apt_repository host dir root names paths repo)
        (λ r.
          validate_apt host dir root (add repo.name names)
            (insert r.abs_publish_path (str "apt/" ++ repo.name) paths) repos
          >>= λ rest. ok (r ∷ rest.0, rest.1))
        λ r same.
          let names' = add repo.name names in
          let paths' = insert r.abs_publish_path (str "apt/" ++ repo.name) paths in
          Ensures-bind _ (validate_apt host dir root names' paths' repos)
            (λ rest. ok (r ∷ rest.0, rest.1))
            λ rest below. (
              apt_repository-Limited names paths repo same,
              ensured _ _ (validate_apt-Limited names' paths' repos) below,
            )

  pub validate_apk-Limited :
      (names : Set) (paths : Dict Bytes) (repos : List ApkRepository)
      → Ensures
          (λ (out : List ApkRepository × Dict Bytes). All ApkLimited out.0)
          (validate_apk host dir root names paths repos)
  unfolding validate_apk
  validate_apk-Limited names paths [] = tt
  validate_apk-Limited names paths (repo ∷ repos) =
      Ensures-bind _ (validate_apk_repository host dir root names paths repo)
        (λ r.
          validate_apk host dir root (add repo.name names)
            (insert r.abs_publish_path (str "apk/" ++ repo.name) paths) repos
          >>= λ rest. ok (r ∷ rest.0, rest.1))
        λ r same.
          let names' = add repo.name names in
          let paths' = insert r.abs_publish_path (str "apk/" ++ repo.name) paths in
          Ensures-bind _ (validate_apk host dir root names' paths' repos)
            (λ rest. ok (r ∷ rest.0, rest.1))
            λ rest below. (
              apk_repository-Limited names paths repo same,
              ensured _ _ (validate_apk-Limited names' paths' repos) below,
            )
