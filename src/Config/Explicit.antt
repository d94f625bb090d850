-- ===== src/Config/Explicit.antt =====
-- Which configuration files `rejectExplicitZeroLimits` of internal/config/config.go accepts.
use mirror_sync.Base.{
  sym, inl, inr, ◌≡◌, ◌≢◌, refl, ◌↔◌, Option, none, some, [], ◌∷◌, ok, arith, All, subst,
}
use mirror_sync.Base.Int.{pos}
use mirror_sync.Base.Text.{Bytes, str}
use mirror_sync.Config.Limits.{
  YamlNode, YamlNodes, document_node, mapping_node, sequence_node, scalar_node, alias_node,
  no_nodes, more_nodes, mapping_value, mapping_path, document_root, parse_any_int,
  reject_explicit_zero_limits, sequence_of, download_path, repositories_of, global_limits,
}
use mirror_sync.Config.Nodes.{
  Listed, Item, IsGlobalLimit, IsSourceLimit, IsSource, IsSectionLimit, NoZeroLimit,
  mapping_value_lem, mapping_path_lem,
}
use mirror_sync.Config.Zeros.{
  NonZero, AllNodes, SourceNonZero, RepositoryNonZero, LimitsNonZero, checks_iff,
}

-- What holds of every listed node, by the nodes.
all_nodes_lem :
    (P : YamlNode → Type 0) (ns : YamlNodes) → AllNodes P ns ↔ ((n : YamlNode) → Listed ns n → P n)
all_nodes_lem P no_nodes = (λ _ n f. absurd f, λ _. tt)
all_nodes_lem P (more_nodes m ms) =
    let rest = all_nodes_lem P ms in
    (
      λ (first, others) n f. elim f [
        | inl same ↦ subst P (sym same) first
        | inr later ↦ rest.0 others n later
      ],
      λ h. (h m (inl refl), rest.1 (λ n later. h n (inr later))),
    )

-- The elements of a node that may be missing.
sequence_of_lem :
    (P : YamlNode → Type 0) (o : Option YamlNode)
    → AllNodes P (sequence_of o)
      ↔ ((seq : YamlNode) (n : YamlNode) → o ≡ some seq → Item seq n → P n)
sequence_of_lem P none = (λ _ seq n e. absurd (ground arith), λ _. tt)
sequence_of_lem P (some seq) =
    let one = item_lem P seq in
    (
      λ h seq' n e item.
          let same : seq ≡ seq' = ground arith in one.0 h n (subst (λ x. Item x n) (sym same) item),
      λ h. one.1 (λ n item. h seq n refl item),
    )
  where
    item_lem :
        (P : YamlNode → Type 0) (seq : YamlNode)
        → AllNodes P (sequence_of (some seq)) ↔ ((n : YamlNode) → Item seq n → P n)
    item_lem P (sequence_node ns) = all_nodes_lem P ns
    item_lem P (document_node ns) = (λ _ n f. absurd f, λ _. tt)
    item_lem P (mapping_node ns) = (λ _ n f. absurd f, λ _. tt)
    item_lem P (scalar_node s) = (λ _ n f. absurd f, λ _. tt)
    item_lem P (alias_node s) = (λ _ n f. absurd f, λ _. tt)

abbrev NotZero : Bytes → Type 0
NotZero s = parse_any_int s ≢ some (pos 0)

source_lem :
    (src : YamlNode) → SourceNonZero (some src) ↔ ((s : Bytes) → IsSourceLimit src s → NotZero s)
source_lem src =
    let value = mapping_value_lem in
    (
      λ (c, (m, _)) s limit. elim limit [
        | inl f ↦ c s ((value (str "max_connections") src (scalar_node s)).1 f)
        | inr f ↦ m s ((value (str "max_in_flight_requests") src (scalar_node s)).1 f)
      ],
      λ h. (
        λ s e. h s (inl ((value (str "max_connections") src (scalar_node s)).0 e)),
        (λ s e. h s (inr ((value (str "max_in_flight_requests") src (scalar_node s)).0 e)), tt),
      ),
    )

absent_source : SourceNonZero none
unfolding mapping_value
absent_source = (λ s e. absurd (ground arith), (λ s e. absurd (ground arith), tt))

optional_source :
    (o : Option YamlNode)
    → ((src : YamlNode) → o ≡ some src → SourceNonZero (some src))
    → SourceNonZero o
optional_source none h = absent_source
optional_source (some src) h = h src refl

repository_lem :
    (repo : YamlNode)
    → RepositoryNonZero repo
      ↔ ((src : YamlNode) (s : Bytes) → IsSource repo src → IsSourceLimit src s → NotZero s)
repository_lem repo =
    let primary = str "primary_source" in
    let mirrors = str "mirror_sources" in
    let listed =
      sequence_of_lem (λ m. SourceNonZero (some m)) (mapping_value (some repo) mirrors) in
    (
      λ (p, ms) src s source limit. elim source [
        | inl f ↦
            (source_lem src).0 (subst SourceNonZero ((mapping_value_lem primary repo src).1 f) p) s
              limit
        | inr (seq, f, item) ↦
            (source_lem src).0 (listed.0 ms seq src ((mapping_value_lem mirrors repo seq).1 f) item)
              s limit
      ],
      λ h. (
        optional_source (mapping_value (some repo) primary) (λ src e.
            (source_lem src).1
              (λ s limit. h src s (inl ((mapping_value_lem primary repo src).0 e)) limit)),
        listed.1 (λ seq src e item.
            (source_lem src).1 (λ s limit.
              h src s (inr (seq, (mapping_value_lem mirrors repo seq).0 e, item)) limit)),
      ),
    )

section_lem :
    (section : Bytes) (root : YamlNode)
    → AllNodes RepositoryNonZero (repositories_of root section)
      ↔ ((s : Bytes) → IsSectionLimit section root s → NotZero s)
unfolding repositories_of mapping_path
section_lem section root =
    let path = section ∷ str "repositories" ∷ [] in
    let listed = sequence_of_lem RepositoryNonZero (mapping_path (some root) path) in
    (
      λ h s (repos, repo, src, at, item, source, limit).
          (repository_lem repo).0
            (listed.0 h repos repo ((mapping_path_lem path root repos).1 at) item) src s source
            limit,
      λ h. listed.1 (λ repos repo e item. (repository_lem repo).1 (λ src s source limit.
          h s (repos, repo, src, (mapping_path_lem path root repos).0 e, item, source, limit))),
    )

global_lem :
    (root : YamlNode)
    → All (λ k. NonZero (mapping_path (some root) (download_path k))) global_limits
      ↔ ((s : Bytes) → IsGlobalLimit root s → NotZero s)
global_lem root =
    let path = λ (key : Bytes) (s : Bytes).
      mapping_path_lem (str "sync" ∷ str "download" ∷ key ∷ []) root (scalar_node s) in
    (
      λ (a, (b, (c, _))) s (key, known, at). elim known [
        | inl e ↦ a s (rw (sym e) ((path key s).1 at))
        | inr (inl e) ↦ b s (rw (sym e) ((path key s).1 at))
        | inr (inr e) ↦ c s (rw (sym e) ((path key s).1 at))
      ],
      λ h. (
        λ s e. h s (_, inl refl, (path _ s).0 e),
        (
          λ s e. h s (_, inr (inl refl), (path _ s).0 e),
          (λ s e. h s (_, inr (inr refl), (path _ s).0 e), tt),
        ),
      ),
    )

limits_lem : (root : YamlNode) → LimitsNonZero root ↔ NoZeroLimit root
limits_lem root =
    let global = global_lem root in
    let apt = section_lem (str "apt") root in
    let apk = section_lem (str "apk") root in
    (
      λ (g, a, k) s limit. elim limit [
        | inl f ↦ global.0 g s f
        | inr (inl f) ↦ apt.0 a s f
        | inr (inr f) ↦ apk.0 k s f
      ],
      λ h. (
        global.1 (λ s f. h s (inl f)),
        apt.1 (λ s f. h s (inr (inl f))),
        apk.1 (λ s f. h s (inr (inr f))),
      ),
    )

-- The check accepts a file exactly if no scalar of a limit is the integer 0, in whatever base it is
-- written. The limits are the three global ones below sync.download, and the two of the primary
-- source and of each mirror of a listed repository of apt and apk; a repeated key counts where it
-- stands first. An alias, or a zero that strconv.ParseInt does not read, such as 0.0, is accepted.
pub reject_explicit_zero_limits_iff :
    (doc : YamlNode) → (reject_explicit_zero_limits doc ≡ ok tt) ↔ NoZeroLimit (document_root doc)
reject_explicit_zero_limits_iff doc =
    let limits = limits_lem (document_root doc) in
    let checks = checks_iff doc in (λ e. limits.0 (checks.0 e), λ h. checks.1 (limits.1 h))
