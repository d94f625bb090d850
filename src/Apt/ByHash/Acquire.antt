-- ===== src/Apt/ByHash/Acquire.antt =====
-- What `parseAcquireByHash` answers, by the Acquire-By-Hash fields of the text.
use mirror_sync.Base.{
  ◌≡◌, refl, ◌≢◌, ◌↔◌, String, Bool, true, false, Option, none, some, List, [], ◌∷◌, arith, All,
  Result, ok, ◌==◌, ◌||◌, if◌then◌else◌, map, subst, sym, ◌∙◌,
}
use mirror_sync.Base.Text.{
  Bytes, str, split, trim_suffix, trim_space, to_lower, equal_fold, cut, ◌=ˢ◌,
}
use mirror_sync.Base.Text.Laws.{=ˢ_iff, =ˢ_refl}
use mirror_sync.Apt.ByHash.{acquire_field, acquire_loop, parse_acquire_by_hash}

-- The values of the fields, in order.
abbrev acquire_fields : List Bytes → List (Result String Bool)
acquire_fields [] = []
acquire_fields (line ∷ lines) = elim (acquire_field line) [
  | none ↦ acquire_fields lines
  | some v ↦ v ∷ acquire_fields lines
]

abbrev Reads : Bool → Result String Bool → Type 0
Reads b v = v ≡ ok b

loop_sound :
    (lines : List Bytes) (seen b : Bool)
    → acquire_loop lines (some seen) ≡ ok b
    → (seen ≡ b) × All (Reads b) (acquire_fields lines)
unfolding acquire_loop
loop_sound [] seen b h = ground arith
loop_sound (line ∷ lines) seen b h =
    ground (arith, loop_sound lines seen b, loop_sound lines true b, loop_sound lines false b)

loop_complete :
    (lines : List Bytes) (b : Bool)
    → All (Reads b) (acquire_fields lines)
    → acquire_loop lines (some b) ≡ ok b
unfolding acquire_loop
loop_complete [] b h = refl
loop_complete (line ∷ lines) b h = ground (arith, loop_complete lines b)

start_sound :
    (lines : List Bytes) (b : Bool)
    → acquire_loop lines none ≡ ok b
    → All (Reads b) (acquire_fields lines) × ((b ≡ true) → acquire_fields lines ≢ [])
unfolding acquire_loop
start_sound [] b h = ground arith
start_sound (line ∷ lines) b h =
    ground (arith, start_sound lines b, loop_sound lines true b, loop_sound lines false b)

start_complete :
    (lines : List Bytes) (b : Bool)
    → All (Reads b) (acquire_fields lines)
    → ((b ≡ true) → acquire_fields lines ≢ [])
    → acquire_loop lines none ≡ ok b
unfolding acquire_loop
start_complete [] true h k = absurd (k refl refl)
start_complete [] false h k = refl
start_complete (line ∷ lines) b h k = ground (arith, start_complete lines b, loop_complete lines b)

-- A line that is blank, or continues the field above it.
abbrev pub is_continuation : Bytes → Bool
is_continuation [] = true
is_continuation (c ∷ line) = c == b' ' || c == b'\t'

abbrev pub value_if_named : Option (Bytes × Bytes) → Option Bytes
value_if_named none = none
value_if_named (some (name, value)) =
    if equal_fold (trim_space name) (str "Acquire-By-Hash") then some (trim_space value) else none

-- The value of an Acquire-By-Hash field: the name stands before the first colon of a line that
-- begins a field, in any case; blanks around the name and the value do not count.
abbrev pub field_value : Bytes → Option Bytes
field_value raw =
    let line = trim_suffix raw (str "\r") in
    if is_continuation line then none else value_if_named (cut line b':')

-- The values of the Acquire-By-Hash fields, in order.
abbrev pub field_values : List Bytes → List Bytes
field_values [] = []
field_values (line ∷ lines) = elim (field_value line) [
  | none ↦ field_values lines
  | some v ↦ v ∷ field_values lines
]

-- The value is, in any case, yes or no.
abbrev pub Says : Bool → Bytes → Type 0
Says true value = to_lower value ≡ str "yes"
Says false value = to_lower value ≡ str "no"

abbrev read_value : Bytes → Result String Bool
read_value value = mirror_sync.Apt.ByHash.yes_or_no (to_lower value)

read_value-Says : (b : Bool) (value : Bytes) → Reads b (read_value value) ↔ Says b value
read_value-Says true value =
    (λ h. ground (arith, =ˢ_iff (to_lower value) (str "yes")), λ h. rw (h, =ˢ_refl) refl)
read_value-Says false value =
    (λ h. ground (arith, =ˢ_iff (to_lower value) (str "no")), λ h. unfold ◌=ˢ◌ in rw h refl)

abbrev read_if : Option Bytes → Option (Result String Bool)
read_if none = none
read_if (some value) = some (read_value value)

acquire_field_value : (line : Bytes) → acquire_field line ≡ read_if (field_value line)
unfolding acquire_field
acquire_field_value line = ground arith

acquire_fields-map :
    (lines : List Bytes) → acquire_fields lines ≡ map read_value (field_values lines)
acquire_fields-map [] = refl
acquire_fields-map (line ∷ lines) =
    ground (arith, acquire_field_value line, acquire_fields-map lines)

Says-Reads : (b : Bool) (vs : List Bytes) → All (Reads b) (map read_value vs) ↔ All (Says b) vs
Says-Reads b [] = (λ h. h, λ h. h)
Says-Reads b (v ∷ vs) =
    let one = read_value-Says b v in
    let rest = Says-Reads b vs in (λ h. (one.0 h.0, rest.0 h.1), λ h. (one.1 h.0, rest.1 h.1))

map-nil : (vs : List Bytes) → (map read_value vs ≡ []) ↔ (vs ≡ [])
map-nil [] = (λ h. refl, λ h. refl)
map-nil (v ∷ vs) = (λ h. absurd (ground arith), λ h. absurd (ground arith))

-- The parse answers b exactly when every Acquire-By-Hash field of the text has the value yes, for
-- true, or no, for false, in any case, and, for true, there is such a field; so a value that is
-- neither, or two fields that differ, are an error.
pub parse_acquire_by_hash_iff :
    (text : Bytes) (b : Bool)
    → (parse_acquire_by_hash text ≡ ok b) ↔ (
        All (Says b) (field_values (split text b'\n'))
        × ((b ≡ true) → field_values (split text b'\n') ≢ []))
unfolding parse_acquire_by_hash
parse_acquire_by_hash_iff text b =
    let lines = split text b'\n' in
    let vs = field_values lines in
    let same = acquire_fields-map lines in
    (
      λ e.
          let found = start_sound lines b e in
          (
            (Says-Reads b vs).0 (subst (All (Reads b)) same found.0),
            λ t h. found.1 t (same ∙ (map-nil vs).1 h),
          ),
      λ h.
          start_complete lines b (subst (All (Reads b)) (sym same) ((Says-Reads b vs).1 h.0))
            (λ t k. h.1 t ((map-nil vs).0 (sym same ∙ k))),
    )
