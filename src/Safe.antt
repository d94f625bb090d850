-- ===== src/Safe.antt =====
-- internal/safe/path.go, over the lexical path functions of packages path and path/filepath.
pub mod Clean
pub mod Inside
use mirror_sync.Base.{
  Bool, true, false, not, ◌||◌, ◌==◌, List, [], ◌∷◌, ◌++◌, map, foldl, reverse, String,
  if◌then◌else◌, Result, ok, err, ◌>>=◌, ◌>>◌, reject_if,
}
use mirror_sync.Base.Text.{
  Bytes, str, ◌=ˢ◌, is_empty, has_prefix, trim_prefix, split, join, trim_right,
}

unfoldable pub is_abs : Bytes → Bool
unfolding has_prefix
is_abs p = has_prefix p (str "/")

abbrev no_parts : List Bytes → Bool
no_parts [] = true
no_parts (p ∷ ps) = false

abbrev last_part : List Bytes → Bytes
last_part [] = []
last_part (p ∷ []) = p
last_part (p ∷ q ∷ ps) = last_part (q ∷ ps)

-- `..` with nothing to go back over: dropped at the root, kept elsewhere.
abbrev pub back : Bool → List Bytes → List Bytes
back true [] = []
back false [] = str ".." ∷ []
back rooted (top ∷ rest) = if top =ˢ str ".." then str ".." ∷ top ∷ rest else rest

-- One element of a path, onto the cleaned elements before it (the last one first).
unfoldable pub push : Bool → List Bytes → Bytes → List Bytes
unfolding ◌=ˢ◌
push rooted stack part =
    if is_empty part || part =ˢ str "."
    then stack
    else if part =ˢ str ".."
    then back rooted stack
    else part ∷ stack

-- The elements of path.Clean(p).
unfoldable pub elements : Bytes → List Bytes
elements p = reverse (foldl (push (is_abs p)) [] (split p b'/'))

unfoldable pub render : Bool → List Bytes → Bytes
unfolding join
render true parts = b'/' ∷ join parts b'/'
render false [] = str "."
render false (p ∷ ps) = join (p ∷ ps) b'/'

-- path.Clean, and filepath.Clean on Unix.
unfoldable pub clean : Bytes → Bytes
clean p = render (is_abs p) (elements p)

-- path.Join and filepath.Join of two elements.
unfoldable pub join_path : Bytes → Bytes → Bytes
join_path [] [] = []
join_path [] (c ∷ q) = clean (c ∷ q)
join_path (c ∷ p) q = clean ((c ∷ p) ++ (b'/' ∷ q))

abbrev drop_empty : List Bytes → List Bytes
drop_empty [] = []
drop_empty ([] ∷ ps) = drop_empty ps
drop_empty ((c ∷ p) ∷ ps) = (c ∷ p) ∷ ps

-- path.Join
unfoldable pub join_all : List Bytes → Bytes
join_all ps = if no_parts (drop_empty ps) then [] else clean (join (drop_empty ps) b'/')

-- path.Dir
unfoldable pub path_dir : Bytes → Bytes
path_dir p = clean (trim_right (λ c. not (c == b'/')) p)

-- path.Base
unfoldable pub path_base : Bytes → Bytes
path_base p =
    if is_empty p
    then str "."
    else if is_empty (trim_right (λ c. c == b'/') p)
    then str "/"
    else last_part (split (trim_right (λ c. c == b'/') p) b'/')

-- filepath.Abs in the working directory `cwd`.
unfoldable pub abs : Bytes → Bytes → Bytes
abs cwd p = if is_abs p then clean p else join_path cwd p

-- What is left of two element lists behind their common beginning.
unfoldable pub strip_common : List Bytes → List Bytes → List Bytes × List Bytes
unfolding ◌=ˢ◌
strip_common [] ts = ([], ts)
strip_common (b ∷ bs) [] = (b ∷ bs, [])
strip_common (b ∷ bs) (t ∷ ts) =
    let rest = strip_common bs ts in if b =ˢ t then rest else (b ∷ bs, t ∷ ts)

abbrev pub up_then : List Bytes → List Bytes → Result String Bytes
up_then [] ts = ok (render false ts)
up_then (b ∷ bs) ts =
    if b =ˢ str ".."
    then err "Rel: can't make relative"
    else ok (render false (map (λ _. str "..") (b ∷ bs) ++ ts))

-- filepath.Rel
unfoldable pub file_rel : Bytes → Bytes → Result String Bytes
file_rel base targ =
    let rest =
      up_then (strip_common (elements base) (elements targ)).0
        (strip_common (elements base) (elements targ)).1 in
    if is_abs base
    then (if is_abs targ then rest else err "Rel: can't make relative")
    else (if is_abs targ then err "Rel: can't make relative" else rest)

-- The path goes up from where it starts.
abbrev pub goes_up : Bytes → Bool
goes_up p = p =ˢ str ".." || has_prefix p (str "../")

unfoldable pub rel : Bytes → Result String Bytes
rel p =
    let c = clean (trim_prefix p (str "/")) in
    if c =ˢ str "." || goes_up c then err "unsafe relative path" else ok c

-- `Join`, in the working directory `cwd`.
unfoldable pub safe_join : Bytes → Bytes → Bytes → Result String Bytes
safe_join cwd root p = do
  r ← rel p
  let joined = join_path root r
  let clean_root = abs cwd root
  let target = abs cwd joined
  d ← file_rel clean_root target
  reject_if (goes_up d) "path escapes"
  ok target
