-- ===== src/Publish/Pruning.antt =====
-- What `Prune` removes.
use mirror_sync.Base.{
  ◌≡◌, refl, sym, Bool, false, not, ◌&&◌, none, List, [], ◌∷◌, ◌++◌, arith, filter_by, any_by,
  append_assoc, append-nil, if◌then◌else◌, ap,
}
use mirror_sync.Base.Text.{Bytes, ◌=ˢ◌, contains}
use mirror_sync.Base.Text.Laws.{=ˢ_iff}
use mirror_sync.Base.Dict.{Set}
use mirror_sync.Base.Sort.{sort_strings}
use mirror_sync.Safe.{join_path}
use mirror_sync.World.{World, Env, Files, set_file, put, ◌>>=◌, changing, op_remove}
use mirror_sync.World.Hoare.{Post, Run, bind, choice, weaken, changing-Run}
use mirror_sync.World.Keeps.{At}
use mirror_sync.Publish.{prune, prune_walk}

module _ (env : Env) (root : Bytes) (keep : Set) where
  -- The walked paths that are not kept.
  abbrev pub doomed : List Bytes → List Bytes
  doomed = filter_by (λ p. not (contains keep p))

  -- Whether a file is one of those.
  abbrev pub is_doomed : List Bytes → Bytes → Bool
  is_doomed walked q = any_by (λ p. not (contains keep p) && join_path root p =ˢ q) walked

  abbrev Spared : Files → List Bytes → Files → Type 0
  Spared before walked files = (q : Bytes) → is_doomed walked q ≡ false → files q ≡ before q

  abbrev Pruned : Files → List Bytes → Files → Type 0
  Pruned before walked files =
      (q : Bytes) → files q ≡ (if is_doomed walked q then none else before q)

  abbrev Same : Files → Files → Type 0
  Same before files = (q : Bytes) → files q ≡ before q

  abbrev Walked : Files → List Bytes → List Bytes → List Bytes → World → Type 0
  Walked before removed walked result w =
      (result ≡ removed ++ doomed walked) × Pruned before walked w.files

  prune_walk-Run :
      (walked removed : List Bytes) (before : Files)
      → Run
          (At (Same before))
          (prune_walk env root keep walked removed)
          (Walked before removed walked)
          (At (Spared before walked))
  unfolding prune_walk
  prune_walk-Run [] removed before = λ w h. (sym (append-nil removed), h)
  prune_walk-Run (p ∷ walked) removed before =
      choice (Walked before removed (p ∷ walked)) (At (Spared before (p ∷ walked)))
        (At (Same before)) (contains keep p) (prune_walk env root keep walked removed)
        (changing env op_remove (join_path root p) (put (join_path root p) none) >>= λ _.
          prune_walk env root keep walked (removed ++ (p ∷ [])))
        (λ e.
          weaken (Walked before removed walked) (Walked before removed (p ∷ walked))
            (At (Spared before walked)) (At (Spared before (p ∷ walked))) (At (Same before))
            (prune_walk env root keep walked removed) (prune_walk-Run walked removed before)
            (λ r w h. (ground (arith, h.0), λ q. ground (arith, h.1 q)))
            (λ w h q d. h q (ground arith)))
        (λ e.
          bind (λ _. At (Same (set_file (join_path root p) none before)))
            (Walked before removed (p ∷ walked)) (At (Spared before (p ∷ walked)))
            (At (Same before)) _ _
            (changing-Run env (At (Same before))
              (At (Same (set_file (join_path root p) none before)))
              (At (Spared before (p ∷ walked))) op_remove (join_path root p) _
              (λ w h q. ground (arith, h q)) (λ w h q d. h q))
            (λ _.
              weaken (Walked (set_file (join_path root p) none before) (removed ++ (p ∷ [])) walked)
                (Walked before removed (p ∷ walked))
                (At (Spared (set_file (join_path root p) none before) walked))
                (At (Spared before (p ∷ walked)))
                (At (Same (set_file (join_path root p) none before)))
                (prune_walk env root keep walked (removed ++ (p ∷ [])))
                (prune_walk-Run walked (removed ++ (p ∷ []))
                  (set_file (join_path root p) none before))
                (λ r w h. (
                  ground (arith, h.0, append_assoc removed (p ∷ []) (doomed walked)),
                  λ q.
                      ground
                        (arith, h.1 q, =ˢ_iff q (join_path root p), =ˢ_iff (join_path root p) q),
                ))
                (λ w h q d.
                  ground (arith, h q, =ˢ_iff q (join_path root p), =ˢ_iff (join_path root p) q))))

-- Pruning that succeeds removes exactly those of the walked files that are not kept, and names
-- them in order; if it fails, every file that is not one of those is as before.
pub prune_lem :
    (env : Env) (root : Bytes) (keep : Set) (walked : List Bytes) (w : World)
    → Post
        (λ removed w'.
          (removed ≡ sort_strings (doomed env root keep walked))
          × ((q : Bytes)
              → w'.files q ≡ (if is_doomed env root keep walked q then none else w.files q)))
        (λ w'. (q : Bytes) → is_doomed env root keep walked q ≡ false → w'.files q ≡ w.files q)
        (prune env root keep walked w)
unfolding prune
prune_lem env root keep walked w =
    bind (Walked env root keep w.files [] walked)
      (λ removed w'.
        (removed ≡ sort_strings (doomed env root keep walked))
        × Pruned env root keep w.files walked w'.files)
      (At (Spared env root keep w.files walked)) (At (Same env root keep w.files)) _ _
      (prune_walk-Run env root keep walked [] w.files) (λ r w' h. (ap sort_strings h.0, h.1)) w
      (λ q. refl)
