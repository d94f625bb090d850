-- ===== src/Config/Nodes.antt =====
-- Where a node stands in the tree of a configuration file, apart from the lookups of
-- internal/config/config.go, and the lookups by it.
use mirror_sync.Base.{
  ◌⊎◌, inl, inr, Bool-cases, Option-cases, ◌≡◌, ◌≢◌, refl, ◌↔◌, none, some, List, [], ◌∷◌, arith,
  subst,
}
use mirror_sync.Base.Int.{pos}
use mirror_sync.Base.Text.{Bytes, str, ◌=ˢ◌}
use mirror_sync.Base.Text.Laws.{=ˢ_iff}
use mirror_sync.Config.Limits.{
  node_value, lookup_key, YamlNode, YamlNodes, document_node, mapping_node, sequence_node,
  scalar_node, alias_node, no_nodes, more_nodes, mapping_value, mapping_path, parse_any_int,
}

-- The value of a key in a mapping: that of the first pair whose key has the text.
abbrev pub FirstValue : Bytes → YamlNodes → YamlNode → Type 0
FirstValue key no_nodes n = ⊥
FirstValue key (more_nodes k no_nodes) n = ⊥
FirstValue key (more_nodes k (more_nodes v ns)) n =
    ((node_value k ≡ key) × (n ≡ v)) ⊎ ((node_value k ≢ key) × FirstValue key ns n)

abbrev pub Child : Bytes → YamlNode → YamlNode → Type 0
Child key (mapping_node ns) n = FirstValue key ns n
Child key (document_node ns) n = ⊥
Child key (sequence_node ns) n = ⊥
Child key (scalar_node s) n = ⊥
Child key (alias_node s) n = ⊥

-- The node that a path of keys leads to.
abbrev pub At : List Bytes → YamlNode → YamlNode → Type 0
At [] root n = n ≡ root
At (k ∷ ks) root n = (m : YamlNode) × Child k root m × At ks m n

abbrev pub Listed : YamlNodes → YamlNode → Type 0
Listed no_nodes n = ⊥
Listed (more_nodes m ms) n = (n ≡ m) ⊎ Listed ms n

abbrev pub Item : YamlNode → YamlNode → Type 0
Item (sequence_node ns) n = Listed ns n
Item (document_node ns) n = ⊥
Item (mapping_node ns) n = ⊥
Item (scalar_node s) n = ⊥
Item (alias_node s) n = ⊥

abbrev pub IsGlobalKey : Bytes → Type 0
IsGlobalKey key =
    (key ≡ str "max_connections_per_source")
    ⊎ ((key ≡ str "max_in_flight_requests") ⊎ (key ≡ str "max_in_flight_requests_per_source"))

-- A scalar of one of the global limits.
abbrev pub IsGlobalLimit : YamlNode → Bytes → Type 0
IsGlobalLimit root s =
    (key : Bytes) × IsGlobalKey key
    × At (str "sync" ∷ str "download" ∷ key ∷ []) root (scalar_node s)

-- A scalar of one of the limits of a source.
abbrev pub IsSourceLimit : YamlNode → Bytes → Type 0
IsSourceLimit src s =
    Child (str "max_connections") src (scalar_node s)
    ⊎ Child (str "max_in_flight_requests") src (scalar_node s)

abbrev pub IsSource : YamlNode → YamlNode → Type 0
IsSource repo src =
    Child (str "primary_source") repo src
    ⊎ ((mirrors : YamlNode) × Child (str "mirror_sources") repo mirrors × Item mirrors src)

-- A scalar of a limit of a source of a repository of the section.
abbrev pub IsSectionLimit : Bytes → YamlNode → Bytes → Type 0
IsSectionLimit section root s =
    (repos : YamlNode) × (repo : YamlNode) × (src : YamlNode) × At
      (section ∷ str "repositories" ∷ []) root repos
    × Item repos repo
    × IsSource repo src
    × IsSourceLimit src s

abbrev pub IsLimit : YamlNode → Bytes → Type 0
IsLimit root s =
    IsGlobalLimit root s ⊎ (IsSectionLimit (str "apt") root s ⊎ IsSectionLimit (str "apk") root s)

-- No scalar of a limit is the integer 0, as strconv.ParseInt reads it with base 0.
abbrev pub NoZeroLimit : YamlNode → Type 0
NoZeroLimit root = (s : Bytes) → IsLimit root s → parse_any_int s ≢ some (pos 0)

pub lookup_key_lem :
    (key : Bytes) (ns : YamlNodes) (n : YamlNode)
    → (lookup_key key ns ≡ some n) ↔ FirstValue key ns n
unfolding lookup_key
lookup_key_lem key no_nodes n = (λ e. absurd (ground arith), λ f. absurd f)
lookup_key_lem key (more_nodes k no_nodes) n = (λ e. absurd (ground arith), λ f. absurd f)
lookup_key_lem key (more_nodes k (more_nodes v ns)) n =
    let rest = lookup_key_lem key ns n in
    elim (Bool-cases (node_value k =ˢ key)) [
      | inl same ↦ (
        λ e. inl ((=ˢ_iff (node_value k) key).0 same, ground arith),
        λ f. elim f [
          | inl (named, here) ↦ ground arith
          | inr (other, later) ↦ absurd (other ((=ˢ_iff (node_value k) key).0 same))
        ],
      )
      | inr apart ↦ (
        λ e. inr (
          λ same. absurd (ground (arith, (=ˢ_iff (node_value k) key).1 same)),
          rest.0 (ground arith),
        ),
        λ f. elim f [
          | inl (named, here) ↦ absurd (ground (arith, (=ˢ_iff (node_value k) key).1 named))
          | inr (other, later) ↦ let found = rest.1 later in ground arith
        ],
      )
    ]

pub mapping_value_lem :
    (key : Bytes) (m n : YamlNode) → (mapping_value (some m) key ≡ some n) ↔ Child key m n
unfolding mapping_value
mapping_value_lem key (mapping_node ns) n = lookup_key_lem key ns n
mapping_value_lem key (document_node ns) n = (λ e. absurd (ground arith), λ f. absurd f)
mapping_value_lem key (sequence_node ns) n = (λ e. absurd (ground arith), λ f. absurd f)
mapping_value_lem key (scalar_node s) n = (λ e. absurd (ground arith), λ f. absurd f)
mapping_value_lem key (alias_node s) n = (λ e. absurd (ground arith), λ f. absurd f)

nowhere : (ks : List Bytes) → mapping_path none ks ≡ none
unfolding mapping_path mapping_value
nowhere [] = refl
nowhere (k ∷ ks) = nowhere ks

pub mapping_path_lem :
    (ks : List Bytes) (m n : YamlNode) → (mapping_path (some m) ks ≡ some n) ↔ At ks m n
unfolding mapping_path
mapping_path_lem [] m n = (λ e. ground arith, λ e. ground arith)
mapping_path_lem (k ∷ ks) m n = elim (Option-cases (mapping_value (some m) k)) [
  | inl absent ↦ (
    λ e. absurd (ground (arith, nowhere ks, rw absent at e)),
    λ (c, child, path). absurd (ground (arith, (mapping_value_lem k m c).1 child)),
  )
  | inr (c, found) ↦ (
    λ e. (c, (mapping_value_lem k m c).0 found, (mapping_path_lem ks c n).0 (rw found at e)),
    λ (d, child, path).
        let same : d ≡ c = ground (arith, (mapping_value_lem k m d).1 child) in
        rw found ((mapping_path_lem ks c n).1 (subst (λ x. At ks x n) same path)),
  )
]
