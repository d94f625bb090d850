-- ===== src/Safe/Inside.antt =====
-- `Rel` and `Join`: what they accept stays below the root.
use mathlib.Core.List.{foldl-append}
use mirror_sync.Base.{
  ◌≡◌, refl, sym, subst, ap, ◌∙◌, ◌≢◌, Bool, true, false, ◌||◌, List, [], ◌∷◌, ◌++◌, foldl, arith,
  All, if◌then◌else◌, ◌⊎◌, inl, inr, Result, ok, err, String, Bool-cases,
}
use mirror_sync.Base.Text.{Bytes, str, ◌=ˢ◌, has_prefix, split, join, trim_prefix}
use mirror_sync.Base.Text.Laws.{=ˢ_refl, split-append}
use mirror_sync.Safe.{
  is_abs, push, elements, render, clean, join_path, abs, strip_common, file_rel, goes_up, rel,
  safe_join,
}
use mirror_sync.Safe.Clean.{
  IsName, StartsUp, elements-IsName, elements-cases, fold-names, fold-render, elements-render,
  is_abs-render_rooted, is_abs-render, elements-clean, is_abs-clean,
}

goes_up-dots : (es : List Bytes) → goes_up (join (str ".." ∷ es) b'/') ≡ true
unfolding join has_prefix ◌=ˢ◌
goes_up-dots [] = refl
goes_up-dots (e ∷ es) = refl

goes_up-join : (e : Bytes) (es : List Bytes) → IsName e → goes_up (join (e ∷ es) b'/') ≡ false
unfolding join has_prefix ◌=ˢ◌
goes_up-join [] es n = absurd (n.0.1 refl)
goes_up-join (a ∷ []) [] n = ground arith
goes_up-join (a ∷ []) (_ ∷ es) n = ground arith
goes_up-join (a ∷ b ∷ []) [] n = ground arith
goes_up-join (a ∷ b ∷ []) (_ ∷ es) n = ground arith
goes_up-join (a ∷ b ∷ c ∷ e) [] n = ground arith
goes_up-join (a ∷ b ∷ c ∷ e) (_ ∷ es) n = ground arith

goes_up-render : (es : List Bytes) → All IsName es → goes_up (render false es) ≡ false
unfolding render has_prefix ◌=ˢ◌
goes_up-render [] _ = refl
goes_up-render (e ∷ es) (n, h) = goes_up-join e es n

-- An accepted path, as its elements.
record Accepted (r : Bytes) : Type 0 where
  rooted : Bool
  names : List Bytes
  all_names : All IsName names
  spelled : r ≡ render rooted names
  proper : (rooted ≡ true) ⊎ (names ≢ [])

abbrev accepts : Bytes → Result String Bytes
accepts c = if c =ˢ str "." || goes_up c then err "unsafe relative path" else ok c

of_unrooted :
    (es : List Bytes) {r : Bytes}
    → All IsName es ⊎ StartsUp es
    → accepts (render false es) ≡ ok r
    → Accepted r
unfolding render ◌=ˢ◌
of_unrooted [] d h = absurd (cc)
of_unrooted (e ∷ es) {r} (inl n) h = record {
  rooted = false;
  names = e ∷ es;
  all_names = n;
  spelled = ground arith;
  proper = inr (ground arith);
}
of_unrooted (e ∷ es) {r} (inr up) h =
    absurd
      (ground (arith, subst (λ x. goes_up (join (x ∷ es) b'/') ≡ true) (sym up) (goes_up-dots es)))

of_form :
    (rooted : Bool) (es : List Bytes) {r : Bytes}
    → ((rooted ≡ true) → All IsName es)
    → All IsName es ⊎ StartsUp es
    → accepts (render rooted es) ≡ ok r
    → Accepted r
of_form true es {r} n d h = record {
  rooted = true;
  names = es;
  all_names = n refl;
  spelled = unfold render in ground arith;
  proper = inl refl;
}
of_form false es n d h = of_unrooted es d h

rel-Accepted : (p : Bytes) {r : Bytes} → rel p ≡ ok r → Accepted r
unfolding rel clean
rel-Accepted p h =
    let q = trim_prefix p (str "/") in
    of_form (is_abs q) (elements q) (elements-IsName q) (elements-cases q) h

-- A path that `Rel` accepts has only names for elements: no `..`, no `.`, no empty element.
pub rel-IsName : (p : Bytes) {r : Bytes} → rel p ≡ ok r → All IsName (elements r)
rel-IsName p {r} h =
    let a = rel-Accepted p h in
    subst (λ x. All IsName (elements x)) (sym a.spelled)
      (rw (elements-render a.rooted a.names a.all_names) a.all_names)

clean-render :
    (rooted : Bool) (es : List Bytes)
    → All IsName es
    → (rooted ≡ true) ⊎ (es ≢ [])
    → clean (render rooted es) ≡ render rooted es
unfolding clean
clean-render true es n d =
    rw (is_abs-render_rooted es) (ap (render true) (elements-render true es n))
clean-render false [] n d = absurd (ground arith)
clean-render false (e ∷ es) n d =
    rw (is_abs-render e es n) (ap (render false) (elements-render false (e ∷ es) n))

-- What `Rel` returns is clean, so the callers' test `clean == path` passes on it.
pub rel-clean : (p : Bytes) {r : Bytes} → rel p ≡ ok r → clean r ≡ r
rel-clean p {r} h =
    let a = rel-Accepted p h in
    subst (λ x. clean x ≡ x) (sym a.spelled) (clean-render a.rooted a.names a.all_names a.proper)

split_slash : (root q : Bytes) → split (root ++ (b'/' ∷ q)) b'/' ≡ split root b'/' ++ split q b'/'
split_slash root q = split-append root q b'/'

is_abs-append : (root q : Bytes) → is_abs root ≡ true → is_abs (root ++ q) ≡ true
unfolding is_abs has_prefix
is_abs-append [] q h = cc
is_abs-append (c ∷ root) q h = ground arith

elements-append :
    (root : Bytes) (rooted : Bool) (es : List Bytes)
    → is_abs root ≡ true
    → All IsName es
    → elements (root ++ (b'/' ∷ render rooted es)) ≡ elements root ++ es
unfolding elements
elements-append root rooted es e n =
    let q = render rooted es in
    let st = foldl (push true) [] (split root b'/') in
    rw (is_abs-append root (b'/' ∷ q) e, e, split_slash root q, foldl-append)
      (rw (fold-render true rooted es st n) (fold-names true es st n))

join_path-clean :
    (root q : Bytes) → is_abs root ≡ true → join_path root q ≡ clean (root ++ (b'/' ∷ q))
unfolding join_path is_abs has_prefix
join_path-clean [] q h = absurd (cc)
join_path-clean (c ∷ root) q h = refl

abs-rooted : (cwd p : Bytes) → is_abs p ≡ true → abs cwd p ≡ clean p
unfolding abs
abs-rooted cwd p h = rw h

strip_common-append : (bs ns : List Bytes) → strip_common bs (bs ++ ns) ≡ ([], ns)
unfolding strip_common
strip_common-append [] ns = refl
strip_common-append (b ∷ bs) ns = rw (=ˢ_refl b) (strip_common-append bs ns)

file_rel-inside :
    (base targ : Bytes) (ns : List Bytes)
    → is_abs base ≡ true
    → is_abs targ ≡ true
    → elements targ ≡ elements base ++ ns
    → file_rel base targ ≡ ok (render false ns)
unfolding file_rel
file_rel-inside base targ ns hb ht e = rw (hb, ht, e, strip_common-append (elements base) ns) refl

-- Every path that `Rel` accepts is joined to an absolute root without an error, and the elements
-- of the result are those of the root with the elements of the path behind them, which are all
-- names: the result lies inside the root.
pub safe_join-inside :
    (cwd root p : Bytes) {r : Bytes}
    → is_abs root ≡ true
    → rel p ≡ ok r
    → (target : Bytes) × (safe_join cwd root p ≡ ok target)
      × (elements target ≡ elements root ++ elements r)
      × All IsName (elements r)
unfolding safe_join
safe_join-inside cwd root p {r} e h =
    let a = rel-Accepted p h in
    let path = root ++ (b'/' ∷ r) in
    let rooted : is_abs path ≡ true = is_abs-append root (b'/' ∷ r) e in
    let target = clean (clean path) in
    let rooted' : is_abs (clean path) ≡ true = is_abs-clean path rooted in
    let es : elements path ≡ elements root ++ elements r =
      subst (λ x. elements (root ++ (b'/' ∷ x)) ≡ elements root ++ elements x) (sym a.spelled)
        (elements-append root a.rooted a.names e a.all_names
          ∙ ap (λ x. elements root ++ x) (sym (elements-render a.rooted a.names a.all_names))) in
    let es' : elements target ≡ elements root ++ elements r =
      elements-clean (clean path) rooted' ∙ (elements-clean path rooted ∙ es) in
    let found : file_rel (clean root) target ≡ ok (render false (elements r)) =
      file_rel-inside (clean root) target (elements r) (is_abs-clean root e)
        (is_abs-clean (clean path) rooted')
        (es' ∙ ap (λ x. x ++ elements r) (sym (elements-clean root e))) in
    (
      target,
      rw
          (
            h,
            join_path-clean root r e,
            abs-rooted cwd root e,
            abs-rooted cwd (clean path) rooted',
            found,
            goes_up-render (elements r) (rel-IsName p h),
          )
          refl,
      es',
      rel-IsName p h,
    )

unrooted_names :
    (es : List Bytes)
    → All IsName es ⊎ StartsUp es
    → (render false es =ˢ str "." || goes_up (render false es)) ≡ false
    → All IsName es × (es ≢ [])
unfolding render ◌=ˢ◌
unrooted_names [] d h = absurd (cc)
unrooted_names (e ∷ es) (inl n) h = (n, ground arith)
unrooted_names (e ∷ es) (inr up) h =
    absurd
      (ground (arith, subst (λ x. goes_up (join (x ∷ es) b'/') ≡ true) (sym up) (goes_up-dots es)))

-- A cleaned relative path that stays where it starts is made of one name or more.
pub clean-names :
    (p : Bytes)
    → is_abs p ≡ false
    → (clean p =ˢ str "." || goes_up (clean p)) ≡ false
    → (es : List Bytes) × (clean p ≡ render false es) × All IsName es × (es ≢ [])
unfolding clean
clean-names p a h =
    let (n, some_name) = unrooted_names (elements p) (elements-cases p) (rw a at h) in
    (elements p, rw a refl, n, some_name)

pub is_abs-unrooted : (p : Bytes) → is_abs p ≡ false → is_abs (clean p) ≡ false
unfolding clean
is_abs-unrooted p a = rw a (go (elements p) (elements-cases p))
  where
    go : (es : List Bytes) → All IsName es ⊎ StartsUp es → is_abs (render false es) ≡ false
    go [] d = unfold is_abs render has_prefix in refl
    go (e ∷ es) (inl n) = is_abs-render e es n
    go (e ∷ []) (inr up) = rw up (unfold is_abs render has_prefix join in refl)
    go (e ∷ f ∷ es) (inr up) = rw up (unfold is_abs render has_prefix join in refl)

is_abs-trimmed : (p : Bytes) → is_abs p ≡ false → is_abs (trim_prefix p (str "/")) ≡ false
unfolding is_abs has_prefix trim_prefix mirror_sync.Base.Text.cut_prefix
is_abs-trimmed [] a = refl
is_abs-trimmed (c ∷ p) a = ground arith

-- What `Rel` makes of a relative path is relative.
pub is_abs-rel : (p : Bytes) {r : Bytes} → is_abs p ≡ false → rel p ≡ ok r → is_abs r ≡ false
unfolding rel
is_abs-rel p {r} a h =
    let same : clean (trim_prefix p (str "/")) ≡ r = ground arith in
    subst (λ x. is_abs x ≡ false) same
      (is_abs-unrooted (trim_prefix p (str "/")) (is_abs-trimmed p a))

-- Names that are joined to an absolute root lie below it, and `Rel` finds them again.
pub joined-below :
    (cwd root : Bytes) (es : List Bytes)
    → is_abs root ≡ true
    → All IsName es
    → (is_abs (abs cwd (join_path root (render false es))) ≡ true)
      × (elements (abs cwd (join_path root (render false es))) ≡ elements root ++ es)
      × (file_rel root (abs cwd (join_path root (render false es))) ≡ ok (render false es))
      × (goes_up (render false es) ≡ false)
joined-below cwd root es h n =
    let path = root ++ (b'/' ∷ render false es) in
    let rooted : is_abs path ≡ true = is_abs-append root (b'/' ∷ render false es) h in
    let rooted' : is_abs (clean path) ≡ true = is_abs-clean path rooted in
    let last : is_abs (clean (clean path)) ≡ true = is_abs-clean (clean path) rooted' in
    let found : elements (clean (clean path)) ≡ elements root ++ es =
      elements-clean (clean path) rooted'
      ∙ (elements-clean path rooted ∙ elements-append root false es h n) in
    rw (join_path-clean root (render false es) h, abs-rooted cwd (clean path) rooted')
      (last, found, file_rel-inside root (clean (clean path)) es h last found, goes_up-render es n)

-- filepath.Abs is absolute.
pub is_abs-abs : (cwd p : Bytes) → is_abs cwd ≡ true → is_abs (abs cwd p) ≡ true
unfolding abs
is_abs-abs cwd p h = elim (Bool-cases (is_abs p)) [
  | inl e ↦ rw e (is_abs-clean p e)
  | inr e ↦
      rw (e, join_path-clean cwd p h)
        (is_abs-clean (cwd ++ (b'/' ∷ p)) (is_abs-append cwd (b'/' ∷ p) h))
]
