-- ===== src/Apt/Runner/Pruning.antt =====
-- What `pruneStateWithHistory` of internal/apt/apt.go removes.
use mirror_sync.Base.{
  ◌≡◌, refl, ◌∙◌, ap, subst, Bool, true, false, ◌||◌, ◌&&◌, not, Option, none, some, List, [], ◌∷◌,
  ◌++◌, arith, if◌then◌else◌, any_by, filter_by, Result, ok, err, All, All-map, append_assoc,
}
use mirror_sync.Base.Text.{Bytes, ◌=ˢ◌, contains}
use mirror_sync.Base.Text.Laws.{=ˢ_refl, contains-append}
use mirror_sync.Base.Dict.{Set}
use mirror_sync.Base.Sort.{sort_strings}
use mirror_sync.Model.{RepositoryState}
use mirror_sync.Safe.{join_path}
use mirror_sync.World.{World, Fault, done, ◌>>=◌, op_stat, after, answered, tick, call}
use mirror_sync.World.Hoare.{Post}
use mirror_sync.World.Keeps.{Unchanged}
use mirror_sync.Publish.{prune}
use mirror_sync.Publish.Pruning.{doomed, is_doomed, prune_lem}
use mirror_sync.Apt.History.{ByHashHistory}
use mirror_sync.Apt.Runner.{Setup}
use mirror_sync.Apt.Runner.Keep.{
  kept_paths, is_by_hash, keep_existing_by_hash, prune_state_with_history, named,
  contains-kept_paths, contains-keep_existing,
}

-- The path must stay: it is named, or is any by-hash path while unknown ones are protected.
abbrev pub must_stay : RepositoryState → ByHashHistory → Bool → Bytes → Bool
must_stay state history protect p = named state history p || (protect && is_by_hash p)

members : (pre ps : List Bytes) → All (λ p. contains (pre ++ ps) p ≡ true) ps
unfolding contains
members pre [] = tt
members pre (p ∷ ps) = (
  ground (arith, contains-append pre (p ∷ ps) p, =ˢ_refl p),
  subst (λ xs. All (λ q. contains xs q ≡ true) ps) (append_assoc pre (p ∷ []) ps)
      (members (pre ++ (p ∷ [])) ps),
)

filter_by_same :
    (f g : Bytes → Bool) (ps : List Bytes)
    → All (λ p. f p ≡ g p) ps
    → filter_by f ps ≡ filter_by g ps
filter_by_same f g [] _ = refl
filter_by_same f g (p ∷ ps) (e, es) = ground (arith, e, filter_by_same f g ps es)

any_by_same :
    (f g : Bytes → Bool) (ps : List Bytes) → All (λ p. f p ≡ g p) ps → any_by f ps ≡ any_by g ps
any_by_same f g [] _ = refl
any_by_same f g (p ∷ ps) (e, es) = ground (arith, e, any_by_same f g ps es)

module _ (setup : Setup) (state : RepositoryState) (history : ByHashHistory) where
  -- The set that the prune keeps.
  abbrev keep_for : Bool → Set
  keep_for false = kept_paths state history
  keep_for true = keep_existing_by_hash setup.walk (kept_paths state history)

  contains-keep_for :
      (protect : Bool) (p : Bytes)
      → contains setup.walk p ≡ true
      → contains (keep_for protect) p ≡ must_stay state history protect p
  contains-keep_for false p h = ground (arith, contains-kept_paths state history p)
  contains-keep_for true p h = ground (
    arith,
    contains-keep_existing setup.walk (kept_paths state history) p,
    contains-kept_paths state history p,
  )

  walk_stays :
      (protect : Bool)
      → All (λ p. contains (keep_for protect) p ≡ must_stay state history protect p) setup.walk
  walk_stays protect =
      All-map (λ p. contains setup.walk p ≡ true)
        (λ p. contains (keep_for protect) p ≡ must_stay state history protect p)
        (λ p h. contains-keep_for protect p h) setup.walk (members [] setup.walk)

  -- What is removed, and what the files are behind it.
  abbrev pub PrunedTo : Bool → World → List Bytes → World → Type 0
  PrunedTo protect w removed w' =
      (removed ≡ sort_strings (filter_by (λ p. not (must_stay state history protect p)) setup.walk))
      × ((q : Bytes)
          → w'.files q ≡ (
              if any_by
                (λ p.
                  not (must_stay state history protect p)
                  && join_path setup.repo.abs_publish_path p =ˢ q)
                setup.walk
              then none
              else w.files q))

  abbrev pub Spares : Bool → World → World → Type 0
  Spares protect w w' =
      (q : Bytes)
      → any_by
          (λ p.
            not (must_stay state history protect p) && join_path setup.repo.abs_publish_path p =ˢ q)
          setup.walk
        ≡ false
      → w'.files q ≡ w.files q

  doomed_same :
      (protect : Bool)
      → doomed setup.env setup.repo.abs_publish_path (keep_for protect) setup.walk
        ≡ filter_by (λ p. not (must_stay state history protect p)) setup.walk
  doomed_same protect =
      filter_by_same (λ p. not (contains (keep_for protect) p))
        (λ p. not (must_stay state history protect p)) setup.walk
        (All-map (λ p. contains (keep_for protect) p ≡ must_stay state history protect p)
          (λ p. not (contains (keep_for protect) p) ≡ not (must_stay state history protect p))
          (λ p e. ap not e) setup.walk (walk_stays protect))

  is_doomed_same :
      (protect : Bool) (q : Bytes)
      → is_doomed setup.env setup.repo.abs_publish_path (keep_for protect) setup.walk q
        ≡ any_by
            (λ p.
              not (must_stay state history protect p)
              && join_path setup.repo.abs_publish_path p =ˢ q)
            setup.walk
  is_doomed_same protect q =
      any_by_same
        (λ p. not (contains (keep_for protect) p) && join_path setup.repo.abs_publish_path p =ˢ q)
        (λ p.
          not (must_stay state history protect p) && join_path setup.repo.abs_publish_path p =ˢ q)
        setup.walk
        (All-map (λ p. contains (keep_for protect) p ≡ must_stay state history protect p) _
          (λ p e. ap (λ b. not b && join_path setup.repo.abs_publish_path p =ˢ q) e) setup.walk
          (walk_stays protect))

  finish :
      (protect : Bool) (w v : World)
      → Unchanged w.files v.files
      → Post
          (PrunedTo protect w)
          (Spares protect w)
          (prune setup.env setup.repo.abs_publish_path (keep_for protect) setup.walk v)
  finish protect w v kept =
      go (prune setup.env setup.repo.abs_publish_path (keep_for protect) setup.walk v)
        (prune_lem setup.env setup.repo.abs_publish_path (keep_for protect) setup.walk v)
    where
      go :
          (r : World × Result Fault (List Bytes))
          → Post
              (λ removed w'.
                (removed
                  ≡ sort_strings
                      (doomed setup.env setup.repo.abs_publish_path (keep_for protect) setup.walk))
                × ((q : Bytes)
                    → w'.files q ≡ (
                        if is_doomed setup.env setup.repo.abs_publish_path
                          (keep_for protect)
                          setup.walk
                          q
                        then none
                        else v.files q)))
              (λ w'.
                (q : Bytes)
                → is_doomed setup.env setup.repo.abs_publish_path (keep_for protect) setup.walk q
                  ≡ false
                → w'.files q ≡ v.files q)
              r
          → Post (PrunedTo protect w) (Spares protect w) r
      go (w', ok removed) (same, files) = (
        same ∙ ap sort_strings (doomed_same protect),
        λ q.
            files q
            ∙ (ap (λ b. if b then none else v.files q) (is_doomed_same protect q)
                ∙ ap
                    (λ f.
                      if any_by
                        (λ p.
                          not (must_stay state history protect p)
                          && join_path setup.repo.abs_publish_path p =ˢ q)
                        setup.walk
                      then none
                      else f)
                    (kept q)),
      )
      go (w', err e) files = λ q h. files q (is_doomed_same protect q ∙ h) ∙ kept q

  -- A prune that succeeds removes exactly those of the walked files that need not stay: not the
  -- metadata, files, by-hash files and payloads of the state, not the generations of the history,
  -- and, while unknown by-hash files are protected, no by-hash file at all; every other file stays.
  -- If it fails, all files that must stay are as before.
  pub prune_state_with_history_lem :
      (protect : Bool) (w : World)
      → Post
          (PrunedTo protect w)
          (Spares protect w)
          (prune_state_with_history setup state history protect w)
  unfolding prune_state_with_history ◌>>=◌ call
  prune_state_with_history_lem false w = finish false w w (λ q. refl)
  prune_state_with_history_lem true w =
      go (setup.env.fails w.clock op_stat setup.repo.abs_publish_path)
    where
      go :
          (r : Option Fault)
          → Post (PrunedTo true w) (Spares true w) (
              after
                (after (answered r (tick w)) λ _. done (keep_for true))
                λ keep. prune setup.env setup.repo.abs_publish_path keep setup.walk)
      go none = finish true w (tick w) (λ q. refl)
      go (some e) = λ q h. refl
