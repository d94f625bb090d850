-- ===== src/Config/Claims.antt =====
-- The publish paths that `validate` of internal/config/config.go accepts one after another.
use mirror_sync.Base.{
  ◌≡◌, ◌≢◌, refl, sym, inl, inr, ◌∙◌, true, false, ◌||◌, none, List, [], ◌∷◌, ◌++◌, ok,
  ok-injective, Result-cases, arith, Bool-cases, Option-cases, subst, All,
}
use mirror_sync.Base.Text.{Bytes, str, ◌=ˢ◌, contains, is_empty}
use mirror_sync.Base.Text.Laws.{=ˢ_iff}
use mirror_sync.Base.Dict.{Dict, lookup, insert, lookup-insert, Distinct}
use mirror_sync.Safe.{is_abs, clean, join_path, abs, goes_up, elements, render}
use mirror_sync.Safe.Clean.{IsName}
use mirror_sync.Safe.Inside.{clean-names, joined-below}
use mirror_sync.Config.{Host}
use mirror_sync.Config.Validate.{resolve_publish, below_root, claim_path}

-- A path strictly below the root: the root's elements, and names behind them, one or more.
abbrev pub StrictlyBelow : Bytes → Bytes → Type 0
StrictlyBelow root path =
    (is_abs path ≡ true)
    × ((names : List Bytes) × (names ≢ [])
        × All IsName names
        × (elements path ≡ elements root ++ names))

names-below :
    (host : Host) (root : Bytes) (es : List Bytes)
    → is_abs root ≡ true
    → All IsName es
    → es ≢ []
    → StrictlyBelow root (abs host.cwd (join_path root (render false es)))
names-below host root es h n some_name =
    let (rooted, found, _, _) = joined-below host.cwd root es h n in
    (rooted, (es, some_name, n, found))

-- What the guards let through is joined to the root.
resolve_publish_ok :
    (host : Host) (root p : Bytes)
    → is_abs root ≡ true
    → is_empty p ≡ false
    → is_abs p ≡ false
    → (clean p =ˢ str "." || goes_up (clean p)) ≡ false
    → (path : Bytes) × (resolve_publish host root p ≡ ok path) × StrictlyBelow root path
unfolding resolve_publish below_root
resolve_publish_ok host root p h x y z =
    let (es, spelled, n, some_name) = clean-names p y z in
    let (rooted, found, named, stays) = joined-below host.cwd root es h n in
    (
      abs host.cwd (join_path root (render false es)),
      rw (x, y, z, spelled, named, stays) refl,
      names-below host root es h n some_name,
    )

resolve_publish-below :
    (host : Host) (root p : Bytes) {path : Bytes}
    → is_abs root ≡ true
    → resolve_publish host root p ≡ ok path
    → StrictlyBelow root path
unfolding resolve_publish
resolve_publish-below host root p {path} h e = elim (Bool-cases (is_empty p)) [
  | inl x ↦ absurd (ground (arith, rw x at e))
  | inr x ↦ elim (Bool-cases (is_abs p)) [
    | inl y ↦ absurd (ground (arith, rw (x, y) at e))
    | inr y ↦ elim (Bool-cases (clean p =ˢ str "." || goes_up (clean p))) [
      | inl z ↦ absurd (ground (arith, rw (x, y, z) at e))
      | inr z ↦
          let (q, same, below) = resolve_publish_ok host root p h x y z in
          subst (StrictlyBelow root) (ok-injective q path (sym same ∙ e)) below
    ]
  ]
]

pub claim_path-claims :
    (host : Host) (root p : Bytes) (paths : Dict Bytes) {path : Bytes}
    → is_abs root ≡ true
    → claim_path host root paths p ≡ ok path
    → StrictlyBelow root path × (lookup path paths ≡ none)
unfolding claim_path
claim_path-claims host root p paths {path} h e = elim (Result-cases (resolve_publish host root p)) [
  | inl (q, found) ↦ elim (Option-cases (lookup q paths)) [
    | inl free ↦
        let same = ok-injective q path (rw (found, free) at e) in
        subst (λ x. StrictlyBelow root x × (lookup x paths ≡ none)) same
          (resolve_publish-below host root p h found, free)
    | inr (owner, taken) ↦ absurd (ground (arith, rw (found, taken) at e))
  ]
  | inr (x, failed) ↦ absurd (ground (arith, rw failed at e))
]

-- The paths that a loop over repositories claims: each is free when its turn comes, and is taken
-- from then on.
abbrev pub Claims : Bytes → Dict Bytes → List Bytes → Dict Bytes → Type 0
Claims root paths [] last = paths ≡ last
Claims root paths (p ∷ ps) last =
    StrictlyBelow root p
    × (lookup p paths ≡ none)
    × ((owner : Bytes) × Claims root (insert p owner paths) ps last)

pub Claims-append :
    (root : Bytes) (paths mid last : Dict Bytes) (ps qs : List Bytes)
    → Claims root paths ps mid
    → Claims root mid qs last
    → Claims root paths (ps ++ qs) last
Claims-append root paths mid last [] qs e h = subst (λ d. Claims root d qs last) (sym e) h
Claims-append root paths mid last (p ∷ ps) qs (below, free, (owner, rest)) h =
    (below, free, (owner, Claims-append root (insert p owner paths) mid last ps qs rest h))

fresh_one :
    (p q owner : Bytes) (paths : Dict Bytes)
    → lookup q (insert p owner paths) ≡ none
    → ((q =ˢ p) ≡ false) × (lookup q paths ≡ none)
fresh_one p q owner paths h = ground (arith, lookup-insert p q owner paths, =ˢ_iff p q, =ˢ_iff q p)

fresh_many :
    (p owner : Bytes) (paths : Dict Bytes) (qs : List Bytes)
    → All (λ q. lookup q (insert p owner paths) ≡ none) qs
    → All (λ q. lookup q paths ≡ none) qs × (contains qs p ≡ false)
unfolding contains
fresh_many p owner paths [] _ = (tt, refl)
fresh_many p owner paths (q ∷ qs) (h, hs) =
    let (other, free) = fresh_one p q owner paths h in
    let (frees, others) = fresh_many p owner paths qs hs in ((free, frees), rw (other, others) refl)

pub Claims_lem :
    (root : Bytes) (paths last : Dict Bytes) (ps : List Bytes)
    → Claims root paths ps last
    → All (StrictlyBelow root) ps × Distinct ps × All (λ q. lookup q paths ≡ none) ps
Claims_lem root paths last [] _ = (tt, tt, tt)
Claims_lem root paths last (p ∷ ps) (below, free, (owner, rest)) =
    let (belows, distinct, frees) = Claims_lem root (insert p owner paths) last ps rest in
    let (frees', others) = fresh_many p owner paths ps frees in
    ((below, belows), (others, distinct), (free, frees'))
