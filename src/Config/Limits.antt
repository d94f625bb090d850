-- ===== src/Config/Limits.antt =====
-- `rejectExplicitZeroLimits` of internal/config/config.go, over the tree that package yaml reads,
-- and strconv.ParseInt with base 0.
use mirror_sync.Base.{
  ℕ, ◌+◌, ◌-◌, ◌*◌, ◌^◌, String, Bool, true, false, not, ◌&&◌, ◌||◌, Option, none, some, List, [],
  ◌∷◌, if◌then◌else◌, Result, ok, ◌>>◌, reject_if, ◌==◌, ltb, leb,
}
use mirror_sync.Base.Int.{ℤ, pos, negate, is_zero}
use mirror_sync.Base.Text.{Bytes, str, ◌=ˢ◌, is_digit, lower}

-- A node with the value that the code reads: the scalar's text, or the name of an alias.
mutual
  pub data YamlNode : Type 0 where
    document_node : YamlNodes → YamlNode
    mapping_node : YamlNodes → YamlNode
    sequence_node : YamlNodes → YamlNode
    scalar_node : Bytes → YamlNode
    alias_node : Bytes → YamlNode

  pub data YamlNodes : Type 0 where
    no_nodes : YamlNodes
    more_nodes : YamlNode → YamlNodes → YamlNodes

abbrev pub node_value : YamlNode → Bytes
node_value (document_node ns) = []
node_value (mapping_node ns) = []
node_value (sequence_node ns) = []
node_value (scalar_node s) = s
node_value (alias_node s) = s

-- A key of an odd last place has no value.
unfoldable pub lookup_key : Bytes → YamlNodes → Option YamlNode
unfolding ◌=ˢ◌
lookup_key key no_nodes = none
lookup_key key (more_nodes k no_nodes) = none
lookup_key key (more_nodes k (more_nodes v ns)) =
    let rest = lookup_key key ns in if node_value k =ˢ key then some v else rest

unfoldable pub mapping_value : Option YamlNode → Bytes → Option YamlNode
mapping_value (some (mapping_node ns)) key = lookup_key key ns
mapping_value (some (document_node ns)) key = none
mapping_value (some (sequence_node ns)) key = none
mapping_value (some (scalar_node s)) key = none
mapping_value (some (alias_node s)) key = none
mapping_value none key = none

unfoldable pub mapping_path : Option YamlNode → List Bytes → Option YamlNode
unfolding mapping_value
mapping_path n [] = n
mapping_path n (k ∷ ks) = mapping_path (mapping_value n k) ks

unfoldable pub document_root : YamlNode → YamlNode
document_root (document_node no_nodes) = document_node no_nodes
document_root (document_node (more_nodes n ns)) = n
document_root (mapping_node ns) = mapping_node ns
document_root (sequence_node ns) = sequence_node ns
document_root (scalar_node s) = scalar_node s
document_root (alias_node s) = alias_node s

-- A digit or a letter as a digit of a base up to 36.
unfoldable pub digit_value : ℕ → Option ℕ
unfolding is_digit lower
digit_value c =
    if is_digit c
    then some (c - b'0')
    else if leb b'a' (lower c) && leb (lower c) b'z'
    then some (lower c - b'a' + 10)
    else none

abbrev pub shift_digit : ℕ → ℕ → Option ℕ → Option ℕ
shift_digit base n none = none
shift_digit base n (some d) = if ltb d base then some (n * base + d) else none

-- The digits in a base; an underscore is skipped.
unfoldable pub parse_in_base : ℕ → Option ℕ → Bytes → Option ℕ
parse_in_base base n [] = n
parse_in_base base none (c ∷ s) = none
parse_in_base base (some n) (c ∷ s) =
    parse_in_base base (if c == b'_' then some n else shift_digit base n (digit_value c)) s

-- The base that a prefix names, and the digits behind it.
unfoldable pub base_of : Bytes → ℕ × Bytes
unfolding lower
base_of [] = (10, [])
base_of (a ∷ []) = if a == b'0' then (8, []) else (10, a ∷ [])
base_of (a ∷ b ∷ []) = if a == b'0' then (8, b ∷ []) else (10, a ∷ b ∷ [])
base_of (a ∷ b ∷ c ∷ s) =
    if not (a == b'0')
    then (10, a ∷ b ∷ c ∷ s)
    else if lower b == b'b'
    then (2, c ∷ s)
    else if lower b == b'o'
    then (8, c ∷ s)
    else if lower b == b'x'
    then (16, c ∷ s)
    else (8, b ∷ c ∷ s)

-- What stands before an underscore: the beginning, a digit or a base prefix, one underscore,
-- another.
pub data Seen : Type 0 where
  seen_start : Seen
  seen_digit : Seen
  seen_underscore : Seen
  seen_other : Seen

abbrev is_underscore : Seen → Bool
is_underscore seen_start = false
is_underscore seen_digit = false
is_underscore seen_underscore = true
is_underscore seen_other = false

abbrev after_digit : Seen → Bool
after_digit seen_start = false
after_digit seen_digit = true
after_digit seen_underscore = false
after_digit seen_other = false

unfoldable underscores : Bool → Seen → Bytes → Bool
unfolding is_digit lower
underscores hex seen [] = not (is_underscore seen)
underscores hex seen (c ∷ s) =
    if is_digit c || (hex && leb b'a' (lower c) && leb (lower c) b'f')
    then underscores hex seen_digit s
    else if c == b'_'
    then after_digit seen && underscores hex seen_underscore s
    else not (is_underscore seen) && underscores hex seen_other s

-- underscoreOK of strconv, on a text without a sign.
unfoldable pub underscore_ok : Bytes → Bool
unfolding underscores lower
underscore_ok [] = true
underscore_ok (a ∷ []) = underscores false seen_start (a ∷ [])
underscore_ok (a ∷ b ∷ s) =
    if a == b'0' && (lower b == b'b' || lower b == b'o' || lower b == b'x')
    then underscores (lower b == b'x') seen_digit s
    else underscores false seen_start (a ∷ b ∷ s)

unfoldable pub parse_any_unsigned : Bytes → Option ℕ
unfolding underscore_ok base_of parse_in_base
parse_any_unsigned [] = none
parse_any_unsigned (c ∷ s) =
    if underscore_ok (c ∷ s)
    then parse_in_base (base_of (c ∷ s)).0 (some 0) (base_of (c ∷ s)).1
    else none

abbrev pub up_to : ℕ → (ℕ → ℤ) → Option ℕ → Option ℤ
up_to top f none = none
up_to top f (some n) = if leb n top then some (f n) else none

-- strconv.ParseInt(s, 0, 64)
unfoldable pub parse_any_int : Bytes → Option ℤ
unfolding parse_any_unsigned
parse_any_int [] = none
parse_any_int (c ∷ s) =
    if c == b'-'
    then up_to (2 ^ 63) negate (parse_any_unsigned s)
    else if c == b'+'
    then up_to (2 ^ 63 - 1) pos (parse_any_unsigned s)
    else up_to (2 ^ 63 - 1) pos (parse_any_unsigned (c ∷ s))

abbrev pub zero_number : Option ℤ → Bool
zero_number none = false
zero_number (some n) = is_zero n

-- The text of the error is without the label.
unfoldable pub reject_zero_node : Option YamlNode → Result String (Unit {0})
unfolding parse_any_int
reject_zero_node (some (scalar_node s)) =
    reject_if (zero_number (parse_any_int s)) "must be positive when set"
reject_zero_node (some (document_node ns)) = ok tt
reject_zero_node (some (mapping_node ns)) = ok tt
reject_zero_node (some (sequence_node ns)) = ok tt
reject_zero_node (some (alias_node s)) = ok tt
reject_zero_node none = ok tt

unfoldable pub reject_zero_fields : Option YamlNode → List Bytes → Result String (Unit {0})
unfolding reject_zero_node mapping_value
reject_zero_fields src [] = ok tt
reject_zero_fields src (f ∷ fs) = do
  reject_zero_node (mapping_value src f)
  reject_zero_fields src fs

unfoldable pub reject_zero_source_limits : Option YamlNode → Result String (Unit {0})
reject_zero_source_limits none = ok tt
reject_zero_source_limits (some src) =
    reject_zero_fields (some src) (str "max_connections" ∷ str "max_in_flight_requests" ∷ [])

unfoldable pub reject_zero_mirrors : YamlNodes → Result String (Unit {0})
reject_zero_mirrors no_nodes = ok tt
reject_zero_mirrors (more_nodes m ms) = do
  reject_zero_source_limits (some m)
  reject_zero_mirrors ms

-- The elements of a sequence; a node of another kind, or none, has none.
abbrev pub sequence_of : Option YamlNode → YamlNodes
sequence_of (some (sequence_node ns)) = ns
sequence_of (some (document_node ns)) = no_nodes
sequence_of (some (mapping_node ns)) = no_nodes
sequence_of (some (scalar_node s)) = no_nodes
sequence_of (some (alias_node s)) = no_nodes
sequence_of none = no_nodes

unfoldable pub reject_zero_repositories : YamlNodes → Result String (Unit {0})
unfolding mapping_value
reject_zero_repositories no_nodes = ok tt
reject_zero_repositories (more_nodes r rs) = do
  reject_zero_source_limits (mapping_value (some r) (str "primary_source"))
  reject_zero_mirrors (sequence_of (mapping_value (some r) (str "mirror_sources")))
  reject_zero_repositories rs

abbrev pub download_path : Bytes → List Bytes
download_path key = str "sync" ∷ str "download" ∷ key ∷ []

unfoldable pub reject_zero_paths : YamlNode → List Bytes → Result String (Unit {0})
unfolding reject_zero_node mapping_path
reject_zero_paths root [] = ok tt
reject_zero_paths root (k ∷ ks) = do
  reject_zero_node (mapping_path (some root) (download_path k))
  reject_zero_paths root ks

unfoldable pub repositories_of : YamlNode → Bytes → YamlNodes
unfolding mapping_value
repositories_of root section =
    sequence_of (mapping_value (mapping_value (some root) section) (str "repositories"))

abbrev pub global_limits : List Bytes
global_limits =
    str "max_connections_per_source"
    ∷ str "max_in_flight_requests"
    ∷ str "max_in_flight_requests_per_source"
    ∷ []

-- `doc` is what yaml.Unmarshal makes of the file.
unfoldable pub reject_explicit_zero_limits : YamlNode → Result String (Unit {0})
unfolding document_root reject_zero_repositories
reject_explicit_zero_limits doc =
    let root = document_root doc in
    do
      reject_zero_paths root global_limits
      reject_zero_repositories (repositories_of root (str "apt"))
      reject_zero_repositories (repositories_of root (str "apk"))
