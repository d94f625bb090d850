-- ===== src/Download/Publishing.antt =====
-- What `downloadAndPublish` leaves at the published path.
use mirror_sync.Base.{
  ℕ, ◌≡◌, ◌≢◌, refl, sym, ◌∙◌, ◌⊎◌, Bool, true, false, Option, none, some, List, [], ◌∷◌, Result,
  ok, err, All, Bool-cases, inl, inr, length,
}
use mirror_sync.Base.Int.{is_negative}
use mirror_sync.Base.Text.{Bytes}
use mirror_sync.Safe.{path_dir}
use mirror_sync.World.{
  World, Fault, Node, regular, Env, Io, Files, set_file, remove, op_chmod, op_sync,
}
use mirror_sync.World.Hoare.{
  Post, Run, Either, bind, tried, weaken, call-Run, remove-Run, rename-Run,
}
use mirror_sync.World.Keeps.{At, set_file_same, set_file_other}
use mirror_sync.Httpx.{Client}
use mirror_sync.Publish.{passes_check, publish_file, ensure_published_dirs}
use mirror_sync.Publish.Dirs.{ensure_published_dirs-Keeps}
use mirror_sync.Download.{
  Source, Expected, partial, download_one, download_sources, download_from_client,
  download_and_publish, publish_checked, or_next, sources_of, verify_node_by,
}
use mirror_sync.Download.Fetch.{Matches, download_one-Matches}

abbrev pub Retries : Client → Type 0
Retries client = is_negative client.retries ≡ false

-- The published file passes all checks.
abbrev pub Good : Env → Expected → Bytes → Files → Type 0
Good env expected final files =
    (content : Bytes) × (files final ≡ some (regular content))
    × Matches env expected content
    × (passes_check expected.verify content ≡ true)

module _ (env : Env) (expected : Expected) (staged final : Bytes) (apart : staged ≢ final)
    (apart' : partial staged ≢ final) (before : Files) where
  -- The published file is as before.
  abbrev pub Before : Files → Type 0
  Before files = files final ≡ before final

  -- The staged file passed the checks of the download.
  abbrev Ready : Files → Type 0
  Ready files =
      Before files
      × ((content : Bytes) × (files staged ≡ some (regular content)) × Matches env expected content)

  abbrev pub Fine : Files → Type 0
  Fine = Good env expected final

  abbrev pub Settled : Files → Type 0
  Settled files = Before files ⊎ Fine files

  one-Run :
      (client : Client) (source : Source)
      → Retries client
      → Run (At Before) (download_one env client expected source staged) (λ _. At Ready) (At Before)
  one-Run client source e w h =
      go (download_one env client expected source staged w)
        (download_one-Matches env client expected source staged e w)
    where
      go :
          (r : World × Result Fault ℕ)
          → Post
              (λ written w'.
                ((content : Bytes) × (w'.files staged ≡ some (regular content))
                  × Matches env expected content
                  × (written ≡ length content))
                × ((q : Bytes) → q ≢ staged → q ≢ partial staged → w'.files q ≡ w.files q))
              (λ w'. (q : Bytes) → q ≢ partial staged → w'.files q ≡ w.files q)
              r
          → Post (λ _. At Ready) (At Before) r
      go (w', ok n) ((content, here, good, _), frame) =
          (frame final (λ e. apart (sym e)) (λ e. apart' (sym e)) ∙ h, (content, here, good))
      go (w', err e) frame = frame final (λ e. apart' (sym e)) ∙ h

  sources-Run :
      (client : Client) (sources : List Source)
      → Retries client
      → Run
          (At Before)
          (download_sources env client expected staged sources)
          (λ _. At Ready)
          (At Before)
  unfolding download_sources
  sources-Run client [] e = λ w h. h
  sources-Run client (source ∷ sources) e =
      bind (Either (λ _. At Ready) (At Before)) (λ _. At Ready) (At Before) (At Before) _ _
        (tried (λ _. At Ready) (At Before) (At Before) (At Before) _ (one-Run client _ e))
        (next (sources-Run client sources e))
    where
      next :
          Run
            (At Before)
            (download_sources env client expected staged sources)
            (λ _. At Ready)
            (At Before)
          → (r : Result Fault ℕ)
          → Run
              (Either (λ _. At Ready) (At Before) r)
              (or_next env (download_sources env client expected staged sources) r)
              (λ _. At Ready)
              (At Before)
      next k (ok n) = λ w h. h
      next k (err e) = k

  client-Run :
      (client : Client)
      → Retries client
      → Run
          (At Before)
          (download_from_client env client expected staged)
          (λ _. At Ready)
          (At Before)
  unfolding download_from_client
  client-Run client e = sources-Run client (sources_of env expected expected.sources) e

  -- The staged file has this content, and it passes all checks.
  abbrev pub Holds : Bytes → Files → Type 0
  Holds content files =
      Before files
      × (files staged ≡ some (regular content))
      × Matches env expected content
      × (passes_check expected.verify content ≡ true)

  published :
      (content : Bytes) (files : Files) (node : Node)
      → Holds content files
      → files staged ≡ some node
      → Fine (set_file final (some node) (set_file staged none files))
  published content files node (b, here, m, p) now =
      (content, set_file_same final (some node) (set_file staged none files) ∙ sym now ∙ here, m, p)

  pub publish_file-Run :
      (cwd root content : Bytes)
      → Run
          (At (Holds content))
          (publish_file env cwd root staged final)
          (λ _. At Fine)
          (At Settled)
  unfolding publish_file
  publish_file-Run cwd root content =
      bind (λ _. At (Holds content)) (λ _. At Fine) (At Settled) (At (Holds content)) _ _
        (weaken (λ _. At (Holds content)) (λ _. At (Holds content)) (At (Holds content))
          (At Settled) (At (Holds content)) (ensure_published_dirs env cwd root (path_dir final))
          (ensure_published_dirs-Keeps env (Holds content) cwd root (path_dir final)) (λ _ w h. h)
          early)
        (λ _.
          bind (λ _. At (Holds content)) (λ _. At Fine) (At Settled) (At (Holds content)) _ _
            (call-Run env (At (Holds content)) (At (Holds content)) (At Settled) op_chmod staged
              (λ w h. h) early)
            (λ _.
              bind (λ _. At Fine) (λ _. At Fine) (At Settled) (At (Holds content)) _ _
                (rename-Run env (At (Holds content)) (At Fine) (At Settled) staged final
                  (λ w node h e. published content w.files node h e) early)
                (λ _.
                  call-Run env (At Fine) (At Fine) (At Settled) op_sync (path_dir final) (λ w h. h)
                    (λ w h. inr h))))
    where
      early : (w : World) → At (Holds content) w → At Settled w
      early w h = inl h.0

  checked-Run :
      (cwd root : Bytes) (next : Io ℕ) (r : Result Fault ℕ)
      → Run (At Before) next (λ _. At Fine) (At Settled)
      → Run
          (Either (λ _. At Ready) (At Before) r)
          (publish_checked env cwd root staged final expected next r)
          (λ _. At Fine)
          (At Settled)
  checked-Run cwd root next (err e) k = k
  checked-Run cwd root next (ok n) k = λ w h.
      elim (Bool-cases (verify_node_by env expected.verify (w.files staged))) [
        | inl e ↦ rw e (
            bind (λ _. At Fine) (λ _. At Fine) (At Settled) (At (Holds h.1.0))
              (publish_file env cwd root staged final) _ (publish_file-Run cwd root h.1.0)
              (λ _ w h. h) w
              (h.0, h.1.1, h.1.2, passed expected.verify (w.files staged) h.1.0 h.1.1 e))
        | inr e ↦ rw e (
            bind (λ _. At Before) (λ _. At Fine) (At Settled) (At Before) (remove env staged) _
              (remove-Run env (At Before) (At Before) (At Settled) staged
                (λ w h. set_file_other staged final none w.files apart ∙ h) (λ w h. h))
              (λ _. k) w h.0)
      ]
    where
      passed :
          (check : Option (Bytes → Bool)) (there : Option Node) (content : Bytes)
          → there ≡ some (regular content)
          → verify_node_by env check there ≡ true
          → passes_check check content ≡ true
      passed none there content e v = refl
      passed (some check) there content e v = cc (rw e at v)

  pub download_and_publish-Run :
      (cwd root : Bytes) (clients : List Client)
      → All Retries clients
      → Run
          (At Before)
          (download_and_publish env cwd root clients expected staged final)
          (λ _. At Fine)
          (At Settled)
  unfolding download_and_publish
  download_and_publish-Run cwd root [] _ = λ w h. inl h
  download_and_publish-Run cwd root (client ∷ clients) (e, es) =
      bind (Either (λ _. At Ready) (At Before)) (λ _. At Fine) (At Settled) (At Before) _ _
        (tried (λ _. At Ready) (At Before) (At Before) (At Settled) _ (client-Run client e))
        (λ r.
          checked-Run cwd root (download_and_publish env cwd root clients expected staged final) r
            (download_and_publish-Run cwd root clients es))

-- Whatever the sources answer and whichever call fails, a download that succeeds publishes a file
-- that has the expected size, if it is not negative, and the strongest expected checksum, if there
-- is one, and passes the payload's own check; one that fails leaves the published file as it was,
-- or such a file. The staged and the partial path differ from the published one, and no client's
-- number of retries is negative.
pub download_and_publish-safe :
    (env : Env) (cwd root : Bytes) (clients : List Client) (expected : Expected)
    (staged final : Bytes)
    → staged ≢ final
    → partial staged ≢ final
    → All Retries clients
    → (w : World)
    → Post
        (λ _ w'. Good env expected final w'.files)
        (λ w'. (w'.files final ≡ w.files final) ⊎ Good env expected final w'.files)
        (download_and_publish env cwd root clients expected staged final w)
download_and_publish-safe env cwd root clients expected staged final apart apart' retried w =
    download_and_publish-Run env expected staged final apart apart' w.files cwd root clients retried
      w refl
