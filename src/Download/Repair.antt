-- ===== src/Download/Repair.antt =====
-- `ensureRepairedOne` and `ensureSyncedOne`: what is at the published path behind them.
use mirror_sync.Base.{
  ℕ, ◌≡◌, ◌≢◌, refl, ◌∙◌, ◌⊎◌, Bool, true, false, none, List, [], ◌∷◌, ok, arith, All, inl,
}
use mirror_sync.Base.Text.{Bytes, str, is_empty, equal_fold}
use mirror_sync.Model.{Checksums}
use mirror_sync.Safe.{safe_join, join_path}
use mirror_sync.World.{World, Env, Files, remove}
use mirror_sync.World.Hoare.{Post, Run, bind, choice, weaken, remove-Run}
use mirror_sync.World.Keeps.{At, set_file_other}
use mirror_sync.Httpx.{Client}
use mirror_sync.Publish.Dirs.{lifted}
use mirror_sync.Publish.{verify, publish_file, passes_check}
use mirror_sync.Publish.Checks.{Verified, PassesIf, verify-Run}
use mirror_sync.Download.{
  Expected, partial, full_options, checksum_verify_option, option_of, strongest_checksum,
  strongest_in, hash_of, ensure_repaired_one, publish_staged, fetch_missing,
}
use mirror_sync.Download.Fetch.{Matches}
use mirror_sync.Download.Publishing.{
  Good, Retries, Before, Holds, Settled, publish_file-Run, download_and_publish-Run,
}
use mirror_sync.Apt.Checksums.{algorithms_and_md5}

strongest_in_value :
    (algs : List Bytes) (c : Checksums)
    → is_empty (strongest_in algs c).0 ≡ false
    → is_empty (strongest_in algs c).1 ≡ false
unfolding strongest_in
strongest_in_value [] c h = absurd (cc)
strongest_in_value (alg ∷ algs) c h = ground (arith, strongest_in_value algs c)

option_matches :
    (env : Env) (content : Bytes) (found : Bytes × Bytes)
    → (is_empty found.0 ≡ false → is_empty found.1 ≡ false)
    → PassesIf env content (option_of found)
    → is_empty found.0 ≡ false
    → equal_fold (hash_of env found.0 content) found.1 ≡ true
unfolding hash_of
option_matches env content ([], hex) valued h e = absurd (cc)
option_matches env content (a ∷ alg, hex) valued h e = let k = h (valued e) in rw (k.0) k.1

-- A full verification finds all that a download checks.
full-Matches :
    (env : Env) (expected : Expected) (content : Bytes)
    → All (PassesIf env content) (full_options expected)
    → Matches env expected content × (passes_check expected.verify content ≡ true)
unfolding checksum_verify_option strongest_checksum
full-Matches env expected content (sized, (summed, (checked, _))) = (
  (
    λ _. sized,
    option_matches env content (strongest_checksum expected)
        (strongest_in_value algorithms_and_md5 _) summed,
  ),
  checked,
)

module _ (env : Env) (expected : Expected) (staged final : Bytes) (apart : staged ≢ final)
    (apart' : partial staged ≢ final) (before : Files) (cwd root : Bytes) (clients : List Client)
    (retried : All Retries clients) where
  abbrev Untouched : World → Type 0
  Untouched = At (Before env expected staged final apart apart' before)

  abbrev Whole : World → Type 0
  Whole = At (Good env expected final)

  abbrev Outcome : World → Type 0
  Outcome = At (Settled env expected staged final apart apart' before)

  fetch_missing-Run :
      (repaired : ℕ)
      → Run Untouched
          (fetch_missing env cwd root clients expected staged final repaired)
          (λ _. Whole)
          Outcome
  unfolding fetch_missing
  fetch_missing-Run repaired =
      bind (λ _. Untouched) (λ _. Whole) Outcome Untouched (remove env staged) _
        (remove-Run env Untouched Untouched Outcome staged
          (λ w h. set_file_other staged final none w.files apart ∙ h) (λ w h. h))
        (λ _.
          bind (λ _. Whole) (λ _. Whole) Outcome Untouched _ _
            (download_and_publish-Run env expected staged final apart apart' before cwd root clients
              retried)
            (λ bytes w h. h))

  staged-Run :
      (b : Bool)
      → Run
          (λ w. Untouched w × (b ≡ true → Verified env staged (full_options expected) w.files))
          (publish_staged env cwd root clients expected final staged b)
          (λ _. Whole)
          Outcome
  staged-Run true w (h, v) =
      let (content, here, passed) = v refl in
      let m = full-Matches env expected content passed in
      bind (λ _. Whole) (λ _. Whole) Outcome
        (At (Holds env expected staged final apart apart' before content))
        (publish_file env cwd root staged final) _
        (publish_file-Run env expected staged final apart apart' before cwd root content)
        (λ _ w h. h) w (h, here, m.0, m.1)
  staged-Run false w (h, _) = fetch_missing-Run 1 w h

  kept-Good : (w : World) → Verified env final (full_options expected) w.files → Whole w
  kept-Good w (content, here, passed) =
      let m = full-Matches env expected content passed in (content, here, m.0, m.1)

-- A repair of one file that succeeds leaves at the published path a file that has the expected
-- size, if it is not negative, and the strongest expected checksum, if there is one, and passes the
-- payload's own check, whether it was there, staged or fetched; one that fails leaves there the
-- file of before, or such a file. The staged and the partial path differ from the published one,
-- and no client's number of retries is negative.
pub ensure_repaired_one-safe :
    (env : Env) (cwd root staging_root : Bytes) (clients : List Client) (expected : Expected)
    {final staged : Bytes}
    → safe_join cwd root expected.rel_path ≡ ok final
    → safe_join cwd (join_path staging_root (str "payloads")) expected.rel_path ≡ ok staged
    → staged ≢ final
    → partial staged ≢ final
    → All Retries clients
    → (w : World)
    → Post
        (λ _ w'. Good env expected final w'.files)
        (λ w'. (w'.files final ≡ w.files final) ⊎ Good env expected final w'.files)
        (ensure_repaired_one env cwd root staging_root clients expected w)
unfolding ensure_repaired_one
ensure_repaired_one-safe env cwd root staging_root clients expected {final} {staged} e e' apart
      apart' retried w =
    lifted start (λ _. good) outcome (safe_join cwd root expected.rel_path) _ e
      (bind (λ b w'. start w' × (b ≡ true → Verified env final (full_options expected) w'.files))
        (λ _. good) outcome start (verify env final (full_options expected)) _
        (weaken _
          (λ b w'. start w' × (b ≡ true → Verified env final (full_options expected) w'.files))
          start outcome start (verify env final (full_options expected))
          (verify-Run env before final (full_options expected)) (λ b w' h. h) (λ w' h. inl h))
        (λ present.
          choice (λ _. good) outcome
            (λ w'.
              start w' × (present ≡ true → Verified env final (full_options expected) w'.files))
            present _ _
            (λ there w' h.
              kept-Good env expected staged final apart apart' w.files cwd root clients retried w'
                (h.1 there))
            (λ _ w' h.
              lifted start (λ _. good) outcome
                (safe_join cwd (join_path staging_root (str "payloads")) expected.rel_path) _ e'
                (bind
                  (λ b w'.
                    start w' × (b ≡ true → Verified env staged (full_options expected) w'.files))
                  (λ _. good) outcome start (verify env staged (full_options expected)) _
                  (weaken _
                    (λ b w'.
                      start w' × (b ≡ true → Verified env staged (full_options expected) w'.files))
                    start outcome start (verify env staged (full_options expected))
                    (verify-Run env before staged (full_options expected)) (λ b w' h. h)
                    (λ w' h. inl h))
                  (staged-Run env expected staged final apart apart' w.files cwd root clients
                    retried))
                w' h.0)))
      w refl
  where
    before : Files → Type 0
    before = Before env expected staged final apart apart' w.files

    start : World → Type 0
    start = At before

    good : World → Type 0
    good = At (Good env expected final)

    outcome : World → Type 0
    outcome = At (Settled env expected staged final apart apart' w.files)
