-- ===== src/Config/Zeros.antt =====
-- The checks of `rejectExplicitZeroLimits` of internal/config/config.go, one by one.
use mirror_sync.Base.{
  ◌≡◌, ◌≢◌, refl, ◌↔◌, Option, none, some, List, [], ◌∷◌, Result, ok, err, ◌>>◌, arith, All, subst,
  String, reject_if,
}
use mirror_sync.Base.Int.{ℤ, pos, negsuc}
use mirror_sync.Base.Text.{Bytes, str}
use mirror_sync.Config.Limits.{
  YamlNode, YamlNodes, document_node, mapping_node, sequence_node, scalar_node, alias_node,
  no_nodes, more_nodes, mapping_value, mapping_path, document_root, parse_any_int, zero_number,
  reject_zero_node, reject_zero_fields, reject_zero_source_limits, reject_zero_mirrors,
  reject_zero_repositories, reject_zero_paths, reject_explicit_zero_limits, sequence_of,
  download_path, repositories_of, global_limits,
}

-- The node, if there is one, is no scalar that reads as the number 0.
abbrev pub NonZero : Option YamlNode → Type 0
NonZero n = (s : Bytes) → n ≡ some (scalar_node s) → parse_any_int s ≢ some (pos 0)

abbrev pub AllNodes : (YamlNode → Type 0) → YamlNodes → Type 0
AllNodes P no_nodes = Unit
AllNodes P (more_nodes n ns) = P n × AllNodes P ns

abbrev pub source_fields : List Bytes
source_fields = str "max_connections" ∷ str "max_in_flight_requests" ∷ []

-- No limit of a source is an explicit 0.
abbrev pub SourceNonZero : Option YamlNode → Type 0
SourceNonZero src = All (λ f. NonZero (mapping_value src f)) source_fields

abbrev pub RepositoryNonZero : YamlNode → Type 0
RepositoryNonZero repo =
    SourceNonZero (mapping_value (some repo) (str "primary_source"))
    × AllNodes (λ m. SourceNonZero (some m))
        (sequence_of (mapping_value (some repo) (str "mirror_sources")))

-- No limit of a file is an explicit 0: none of the global ones, and none of a source of an APT or
-- APK repository.
abbrev pub LimitsNonZero : YamlNode → Type 0
LimitsNonZero root =
    All (λ k. NonZero (mapping_path (some root) (download_path k))) global_limits
    × AllNodes RepositoryNonZero (repositories_of root (str "apt"))
    × AllNodes RepositoryNonZero (repositories_of root (str "apk"))

zero_number-lem :
    (o : Option ℤ)
    → (reject_if {E = String} (zero_number o) "must be positive when set" ≡ ok tt)
      ↔ (o ≢ some (pos 0))
zero_number-lem none = ground arith
zero_number-lem (some (pos n)) = ground arith
zero_number-lem (some (negsuc n)) = ground arith

reject_zero_node_iff : (n : Option YamlNode) → (reject_zero_node n ≡ ok tt) ↔ NonZero n
unfolding reject_zero_node
reject_zero_node_iff none = (λ _ s e. absurd (ground arith), λ _. refl)
reject_zero_node_iff (some (document_node ns)) = (λ _ s e. absurd (ground arith), λ _. refl)
reject_zero_node_iff (some (mapping_node ns)) = (λ _ s e. absurd (ground arith), λ _. refl)
reject_zero_node_iff (some (sequence_node ns)) = (λ _ s e. absurd (ground arith), λ _. refl)
reject_zero_node_iff (some (alias_node s)) = (λ _ s e. absurd (ground arith), λ _. refl)
reject_zero_node_iff (some (scalar_node s)) =
    let l = zero_number-lem (parse_any_int s) in
    (
      λ h t e. let same : s ≡ t = cc in subst (λ x. parse_any_int x ≢ some (pos 0)) same (l.0 h),
      λ h. l.1 (h s refl),
    )

-- Two checks in a row.
then_iff :
    (P Q : Type 0) (m k : Result String (Unit {0}))
    → ((m ≡ ok tt) ↔ P)
    → ((k ≡ ok tt) ↔ Q)
    → ((m >> k) ≡ ok tt) ↔ (P × Q)
then_iff P Q (ok tt) k h l = (λ e. (h.0 refl, l.0 e), λ pq. l.1 pq.1)
then_iff P Q (err x) k h l = (λ e. absurd (ground arith), λ pq. absurd (ground (arith, h.1 pq.0)))

reject_zero_fields_iff :
    (src : Option YamlNode) (fs : List Bytes)
    → (reject_zero_fields src fs ≡ ok tt) ↔ All (λ f. NonZero (mapping_value src f)) fs
unfolding reject_zero_fields
reject_zero_fields_iff src [] = (λ _. tt, λ _. refl)
reject_zero_fields_iff src (f ∷ fs) =
    then_iff (NonZero (mapping_value src f)) (All (λ g. NonZero (mapping_value src g)) fs)
      (reject_zero_node (mapping_value src f)) (reject_zero_fields src fs)
      (reject_zero_node_iff (mapping_value src f)) (reject_zero_fields_iff src fs)

reject_zero_source_limits_iff :
    (src : Option YamlNode) → (reject_zero_source_limits src ≡ ok tt) ↔ SourceNonZero src
unfolding reject_zero_source_limits mapping_value
reject_zero_source_limits_iff none =
    (λ _. (λ s e. absurd (ground arith), (λ s e. absurd (ground arith), tt)), λ _. refl)
reject_zero_source_limits_iff (some src) = reject_zero_fields_iff (some src) source_fields

reject_zero_mirrors_iff :
    (ms : YamlNodes) → (reject_zero_mirrors ms ≡ ok tt) ↔ AllNodes (λ m. SourceNonZero (some m)) ms
unfolding reject_zero_mirrors
reject_zero_mirrors_iff no_nodes = (λ _. tt, λ _. refl)
reject_zero_mirrors_iff (more_nodes m ms) =
    then_iff (SourceNonZero (some m)) (AllNodes (λ n. SourceNonZero (some n)) ms)
      (reject_zero_source_limits (some m)) (reject_zero_mirrors ms)
      (reject_zero_source_limits_iff (some m)) (reject_zero_mirrors_iff ms)

reject_zero_repositories_iff :
    (rs : YamlNodes) → (reject_zero_repositories rs ≡ ok tt) ↔ AllNodes RepositoryNonZero rs
unfolding reject_zero_repositories
reject_zero_repositories_iff no_nodes = (λ _. tt, λ _. refl)
reject_zero_repositories_iff (more_nodes r rs) =
    let primary = mapping_value (some r) (str "primary_source") in
    let mirrors = sequence_of (mapping_value (some r) (str "mirror_sources")) in
    let rest =
      then_iff (AllNodes (λ m. SourceNonZero (some m)) mirrors) (AllNodes RepositoryNonZero rs)
        (reject_zero_mirrors mirrors) (reject_zero_repositories rs)
        (reject_zero_mirrors_iff mirrors) (reject_zero_repositories_iff rs) in
    let all =
      then_iff (SourceNonZero primary)
        (AllNodes (λ m. SourceNonZero (some m)) mirrors × AllNodes RepositoryNonZero rs)
        (reject_zero_source_limits primary)
        (reject_zero_mirrors mirrors >> reject_zero_repositories rs)
        (reject_zero_source_limits_iff primary) rest in
    (λ e. let (p, (m, rest)) = all.0 e in ((p, m), rest), λ h. all.1 (h.0.0, (h.0.1, h.1)))

reject_zero_paths_iff :
    (root : YamlNode) (ks : List Bytes)
    → (reject_zero_paths root ks ≡ ok tt)
      ↔ All (λ k. NonZero (mapping_path (some root) (download_path k))) ks
unfolding reject_zero_paths
reject_zero_paths_iff root [] = (λ _. tt, λ _. refl)
reject_zero_paths_iff root (k ∷ ks) =
    then_iff (NonZero (mapping_path (some root) (download_path k)))
      (All (λ j. NonZero (mapping_path (some root) (download_path j))) ks)
      (reject_zero_node (mapping_path (some root) (download_path k))) (reject_zero_paths root ks)
      (reject_zero_node_iff (mapping_path (some root) (download_path k)))
      (reject_zero_paths_iff root ks)

pub checks_iff :
    (doc : YamlNode) → (reject_explicit_zero_limits doc ≡ ok tt) ↔ LimitsNonZero (document_root doc)
unfolding reject_explicit_zero_limits
checks_iff doc =
    let root = document_root doc in
    let apt = repositories_of root (str "apt") in
    let apk = repositories_of root (str "apk") in
    let both =
      then_iff (AllNodes RepositoryNonZero apt) (AllNodes RepositoryNonZero apk)
        (reject_zero_repositories apt) (reject_zero_repositories apk)
        (reject_zero_repositories_iff apt) (reject_zero_repositories_iff apk) in
    let all =
      then_iff (All (λ k. NonZero (mapping_path (some root) (download_path k))) global_limits)
        (AllNodes RepositoryNonZero apt × AllNodes RepositoryNonZero apk)
        (reject_zero_paths root global_limits)
        (reject_zero_repositories apt >> reject_zero_repositories apk)
        (reject_zero_paths_iff root global_limits) both in
    (λ e. let (g, (a, k)) = all.0 e in (g, a, k), λ h. all.1 (h.0, (h.1, h.2)))
