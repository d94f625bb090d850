-- ===== src/Base/Text.antt =====
-- Go strings as lists of bytes, with the functions of packages strings and bytes that the program
-- calls. Case folding and white space are those of ASCII.
pub mod Laws
use Prim.Native.Char.{code}
use mirror_sync.Base.{
  ℕ, zero, suc, ◌+◌, ◌-◌, ◌*◌, ◌^◌, String, Bool, true, false, ◌&&◌, ◌||◌, Option, none, some, List,
  [], ◌∷◌, ◌++◌, map, reverse, ltb, leb, ◌==◌, if◌then◌else◌, is_some, or_default, length,
  filter_by, any_by,
}
use mirror_sync.Base.Int.{ℤ, pos, negate}

abbrev pub Bytes : Type 0
Bytes = List ℕ

-- The bytes of an ASCII literal.
abbrev pub str : String → Bytes
str String.[] = []
str (String.◌∷◌ c s) = code c ∷ str s

infix 50 ◌=ˢ◌
unfoldable pub ◌=ˢ◌ : Bytes → Bytes → Bool
[] =ˢ [] = true
[] =ˢ (y ∷ ys) = false
(x ∷ xs) =ˢ [] = false
(x ∷ xs) =ˢ (y ∷ ys) = x == y && xs =ˢ ys

abbrev pub is_empty : Bytes → Bool
is_empty [] = true
is_empty (c ∷ s) = false

-- strings.CutPrefix: what is left of `s` behind the prefix `p`.
unfoldable pub cut_prefix : Bytes → Bytes → Option Bytes
cut_prefix s [] = some s
cut_prefix [] (b ∷ p) = none
cut_prefix (c ∷ s) (b ∷ p) = let rest = cut_prefix s p in if c == b then rest else none

unfoldable pub has_prefix : Bytes → Bytes → Bool
unfolding cut_prefix
has_prefix s p = is_some (cut_prefix s p)

unfoldable pub trim_prefix : Bytes → Bytes → Bytes
unfolding cut_prefix
trim_prefix s p = or_default (cut_prefix s p) s

unfoldable pub has_suffix : Bytes → Bytes → Bool
unfolding has_prefix
has_suffix s p = has_prefix (reverse s) (reverse p)

unfoldable pub trim_suffix : Bytes → Bytes → Bytes
unfolding trim_prefix
trim_suffix s p = reverse (trim_prefix (reverse s) (reverse p))

-- Puts a byte in front of the first part.
unfoldable pub grow : ℕ → List Bytes → List Bytes
grow c [] = (c ∷ []) ∷ []
grow c (p ∷ ps) = (c ∷ p) ∷ ps

-- strings.Split at a byte: always one part or more.
unfoldable pub split : Bytes → ℕ → List Bytes
unfolding grow
split [] sep = [] ∷ []
split (c ∷ s) sep = let rest = split s sep in if c == sep then [] ∷ rest else grow c rest

-- strings.Join with a byte between the parts.
unfoldable pub join : List Bytes → ℕ → Bytes
join [] sep = []
join (p ∷ []) sep = p
join (p ∷ q ∷ ps) sep = p ++ (sep ∷ join (q ∷ ps) sep)

abbrev pub before_cut : ℕ → Option (Bytes × Bytes) → Option (Bytes × Bytes)
before_cut c none = none
before_cut c (some (a, b)) = some (c ∷ a, b)

-- strings.Cut at a byte.
unfoldable pub cut : Bytes → ℕ → Option (Bytes × Bytes)
cut [] sep = none
cut (c ∷ s) sep = let rest = before_cut c (cut s sep) in if c == sep then some ([], s) else rest

unfoldable pub is_space : ℕ → Bool
is_space c = c == b' ' || (leb 9 c && leb c 13)

unfoldable pub trim_left : (ℕ → Bool) → Bytes → Bytes
trim_left p [] = []
trim_left p (c ∷ s) = let rest = trim_left p s in if p c then rest else c ∷ s

unfoldable pub trim_right : (ℕ → Bool) → Bytes → Bytes
unfolding trim_left
trim_right p s = reverse (trim_left p (reverse s))

unfoldable pub trim_space : Bytes → Bytes
unfolding trim_right trim_left is_space
trim_space s = trim_right is_space (trim_left is_space s)

-- strings.Fields: the parts between white space, the empty ones left out.
unfoldable pub fields : Bytes → List Bytes
unfolding split is_space
fields s =
    filter_by (λ p. if is_empty p then false else true)
      (split (map (λ c. if is_space c then b' ' else c) s) b' ')

unfoldable pub lower : ℕ → ℕ
lower c = if leb b'A' c && leb c b'Z' then c + 32 else c

unfoldable pub upper : ℕ → ℕ
upper c = if leb b'a' c && leb c b'z' then c - 32 else c

unfoldable pub to_lower : Bytes → Bytes
unfolding lower
to_lower = map lower

unfoldable pub to_upper : Bytes → Bytes
unfolding upper
to_upper = map upper

unfoldable pub equal_fold : Bytes → Bytes → Bool
unfolding to_lower ◌=ˢ◌
equal_fold a b = to_lower a =ˢ to_lower b

-- Byte order, as `<=` on Go strings.
unfoldable pub text_leb : Bytes → Bytes → Bool
text_leb [] ys = true
text_leb (x ∷ xs) [] = false
text_leb (x ∷ xs) (y ∷ ys) = ltb x y || (x == y && text_leb xs ys)

unfoldable pub contains : List Bytes → Bytes → Bool
unfolding ◌=ˢ◌
contains xs k = any_by (λ x. x =ˢ k) xs

-- strings.Contains
unfoldable pub contains_text : Bytes → Bytes → Bool
unfolding has_prefix
contains_text [] p = is_empty p
contains_text (c ∷ s) p = has_prefix (c ∷ s) p || contains_text s p

unfoldable pub is_digit : ℕ → Bool
is_digit c = leb b'0' c && leb c b'9'

unfoldable pub parse_digits : Bytes → ℕ → Option ℕ
unfolding is_digit
parse_digits [] n = some n
parse_digits (c ∷ s) n =
    let rest = parse_digits s (n * 10 + (c - b'0')) in if is_digit c then rest else none

unfoldable pub parse_unsigned : Bytes → Option ℕ
unfolding parse_digits
parse_unsigned [] = none
parse_unsigned (c ∷ s) = parse_digits (c ∷ s) 0

abbrev at_most : ℕ → (ℕ → ℤ) → Option ℕ → Option ℤ
at_most top f none = none
at_most top f (some n) = if leb n top then some (f n) else none

-- strconv.ParseInt(s, 10, 64), and strconv.Atoi on a 64-bit machine.
unfoldable pub parse_int : Bytes → Option ℤ
unfolding parse_unsigned
parse_int [] = none
parse_int (c ∷ s) =
    if c == b'-'
    then at_most (2 ^ 63) negate (parse_unsigned s)
    else if c == b'+'
    then at_most (2 ^ 63 - 1) pos (parse_unsigned s)
    else at_most (2 ^ 63 - 1) pos (parse_unsigned (c ∷ s))

unfoldable pub is_hex_digit : ℕ → Bool
is_hex_digit c = leb b'0' c && leb c b'9' || leb b'a' c && leb c b'f' || leb b'A' c && leb c b'F'

-- Whether hex.DecodeString accepts the text.
unfoldable pub is_hex : Bytes → Bool
unfolding is_hex_digit
is_hex [] = true
is_hex (c ∷ []) = false
is_hex (c ∷ d ∷ s) = is_hex_digit c && is_hex_digit d && is_hex s
