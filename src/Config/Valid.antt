-- ===== src/Config/Valid.antt =====
-- What `validate` of internal/config/config.go promises of the publish paths and the numbers.
use mirror_sync.Base.{
  ◌≡◌, refl, inl, inr, ◌∙◌, true, List, [], ◌∷◌, ◌++◌, map, ok, ◌>>=◌, Ensures, ensured,
  Ensures-bind, Result-cases, arith, if◌then◌else◌, ap, subst, All,
}
use mirror_sync.Base.Text.{Bytes, str}
use mirror_sync.Base.Dict.{Dict, Set, insert, add, Distinct}
use mirror_sync.Safe.{is_abs, clean, join_path, abs}
use mirror_sync.Safe.Inside.{is_abs-abs}
use mirror_sync.Config.{Host, Config, AptRepository, ApkRepository}
use mirror_sync.Config.Claims.{StrictlyBelow, Claims, claim_path-claims, Claims-append, Claims_lem}
use mirror_sync.Config.Numbers.{
  NoneNegative, AptLimited, ApkLimited, validate_numbers-NoneNegative, validate_apt-Limited,
  validate_apk-Limited,
}
use mirror_sync.Config.Validate.{
  resolve_path, claim_path, validate, validate_apt, validate_apk, validate_apt_repository,
  validate_apk_repository, validate_numbers,
}

-- The publish paths of a list of repositories.
abbrev pub apt_paths : List AptRepository → List Bytes
apt_paths = map (λ r. r.abs_publish_path)

abbrev pub apk_paths : List ApkRepository → List Bytes
apk_paths = map (λ r. r.abs_publish_path)

module _ (host : Host) (dir root : Bytes) where
  apt_repository-claims :
      (names : Set) (paths : Dict Bytes) (repo : AptRepository) {r : AptRepository}
      → validate_apt_repository host dir root names paths repo ≡ ok r
      → claim_path host root paths repo.publish_path ≡ ok r.abs_publish_path
  unfolding validate_apt_repository
  apt_repository-claims names paths repo e = ground arith

  apk_repository-claims :
      (names : Set) (paths : Dict Bytes) (repo : ApkRepository) {r : ApkRepository}
      → validate_apk_repository host dir root names paths repo ≡ ok r
      → claim_path host root paths repo.publish_path ≡ ok r.abs_publish_path
  unfolding validate_apk_repository
  apk_repository-claims names paths repo e = ground arith

  validate_apt-Claims :
      (names : Set) (paths : Dict Bytes) (repos : List AptRepository)
      → is_abs root ≡ true
      → Ensures
          (λ (out : List AptRepository × Dict Bytes). Claims root paths (apt_paths out.0) out.1)
          (validate_apt host dir root names paths repos)
  unfolding validate_apt
  validate_apt-Claims names paths [] h = refl
  validate_apt-Claims names paths (repo ∷ repos) h =
      Ensures-bind _ (validate_apt_repository host dir root names paths repo)
        (λ r.
          validate_apt host dir root (add repo.name names)
            (insert r.abs_publish_path (str "apt/" ++ repo.name) paths) repos
          >>= λ rest. ok (r ∷ rest.0, rest.1))
        λ r same.
          let found = apt_repository-claims names paths repo same in
          let (inside, free) = claim_path-claims host root repo.publish_path paths h found in
          let paths' = insert r.abs_publish_path (str "apt/" ++ repo.name) paths in
          Ensures-bind _ (validate_apt host dir root (add repo.name names) paths' repos)
            (λ rest. ok (r ∷ rest.0, rest.1))
            λ rest below. (
              inside,
              free,
              (
                str "apt/" ++ repo.name,
                ensured _ _ (validate_apt-Claims (add repo.name names) paths' repos h) below,
              ),
            )

  validate_apk-Claims :
      (names : Set) (paths : Dict Bytes) (repos : List ApkRepository)
      → is_abs root ≡ true
      → Ensures
          (λ (out : List ApkRepository × Dict Bytes). Claims root paths (apk_paths out.0) out.1)
          (validate_apk host dir root names paths repos)
  unfolding validate_apk
  validate_apk-Claims names paths [] h = refl
  validate_apk-Claims names paths (repo ∷ repos) h =
      Ensures-bind _ (validate_apk_repository host dir root names paths repo)
        (λ r.
          validate_apk host dir root (add repo.name names)
            (insert r.abs_publish_path (str "apk/" ++ repo.name) paths) repos
          >>= λ rest. ok (r ∷ rest.0, rest.1))
        λ r same.
          let found = apk_repository-claims names paths repo same in
          let (inside, free) = claim_path-claims host root repo.publish_path paths h found in
          let paths' = insert r.abs_publish_path (str "apk/" ++ repo.name) paths in
          Ensures-bind _ (validate_apk host dir root (add repo.name names) paths' repos)
            (λ rest. ok (r ∷ rest.0, rest.1))
            λ rest below. (
              inside,
              free,
              (
                str "apk/" ++ repo.name,
                ensured _ _ (validate_apk-Claims (add repo.name names) paths' repos h) below,
              ),
            )

-- An absolute path, whatever the base.
resolve_path-rooted :
    (host : Host) (base p : Bytes) {path : Bytes}
    → is_abs host.cwd ≡ true
    → resolve_path host base p ≡ ok path
    → is_abs path ≡ true
unfolding resolve_path
resolve_path-rooted host base p {path} h e =
    let q = clean (if is_abs p then p else join_path base p) in
    let same : abs host.cwd q ≡ path = ground arith in
    subst (λ x. is_abs x ≡ true) same (is_abs-abs host.cwd q h)

-- The publish paths of the repositories of a configuration, of both kinds.
abbrev pub publish_paths : Config → List Bytes
publish_paths c = apt_paths c.apt ++ apk_paths c.apk

abbrev pub IsValid : Config → Type 0
IsValid c =
    (is_abs c.storage.published ≡ true)
    × All (StrictlyBelow c.storage.published) (publish_paths c)
    × Distinct (publish_paths c)
    × NoneNegative c.sync
    × All AptLimited c.apt
    × All ApkLimited c.apk

-- The steps of a validation that succeeds.
abbrev Steps : Host → Config → Config → Type 0
Steps host c c' =
    let dir = c.config_dir in
    let published = c'.storage.published in
    (resolve_path host dir c.storage.published ≡ ok published)
    × (validate_numbers c'.sync ≡ ok tt)
    × ((paths : Dict Bytes) × (last : Dict Bytes) × (validate_apt host dir published [] [] c.apt
          ≡ ok (c'.apt, paths))
        × (validate_apk host dir published [] paths c.apk ≡ ok (c'.apk, last)))

validate-Steps :
    (host : Host) (c : Config) {c' : Config} → validate host c ≡ ok c' → Steps host c c'
unfolding validate
validate-Steps host c {c'} e =
    let dir = c.config_dir in
    let at_root : resolve_path host dir c.storage.published ≡ ok c'.storage.published =
      ground arith in
    let numbers : validate_numbers c'.sync ≡ ok tt = ground arith in
    elim (Result-cases (validate_apt host dir c'.storage.published [] [] c.apt)) [
      | inl (apt, e1) ↦
          elim (Result-cases (validate_apk host dir c'.storage.published [] apt.1 c.apk)) [
            | inl (apk, e2) ↦
                let same1 : apt.0 ≡ c'.apt = ground arith in
                let same2 : apk.0 ≡ c'.apk = ground arith in
                (
                  at_root,
                  numbers,
                  (
                    apt.1,
                    apk.1,
                    e1 ∙ ap (λ x. ok (x, apt.1)) same1,
                    e2 ∙ ap (λ x. ok (x, apk.1)) same2,
                  ),
                )
            | inr (x, e2) ↦ absurd (ground arith)
          ]
      | inr (x, e1) ↦ absurd (ground arith)
    ]

-- In a configuration that passes validation the publish paths of all repositories, of both kinds,
-- are pairwise different and lie strictly below the absolute storage.published; no retry count and
-- no limit, of the whole or of a source, is negative. The condition is that the working directory
-- is an absolute path.
pub validate-IsValid :
    (host : Host) (c : Config) {c' : Config}
    → is_abs host.cwd ≡ true
    → validate host c ≡ ok c'
    → IsValid c'
validate-IsValid host c {c'} h e =
    let (at_root, numbers, (paths, last, some_apt, some_apk)) = validate-Steps host c e in
    let published = c'.storage.published in
    let rooted = resolve_path-rooted host c.config_dir c.storage.published h at_root in
    let first =
      ensured _ _ (validate_apt-Claims host c.config_dir published [] [] c.apt rooted) some_apt in
    let second =
      ensured _ _ (validate_apk-Claims host c.config_dir published [] paths c.apk rooted)
        some_apk in
    let both =
      Claims-append published [] paths last (apt_paths c'.apt) (apk_paths c'.apk) first second in
    let (below, distinct, _) = Claims_lem published [] last (publish_paths c') both in
    let apt = ensured _ _ (validate_apt-Limited host c.config_dir published [] [] c.apt) some_apt in
    let apk =
      ensured _ _ (validate_apk-Limited host c.config_dir published [] paths c.apk) some_apk in
    (rooted, below, distinct, validate_numbers-NoneNegative c'.sync numbers, apt, apk)
