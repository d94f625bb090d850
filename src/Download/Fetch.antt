-- ===== src/Download/Fetch.antt =====
-- What `downloadOne` leaves: a staged file only if it passed the checks.
use mirror_sync.Base.{
  ℕ, ◌≡◌, ◌≢◌, refl, sym, ◌∙◌, true, false, not, ◌&&◌, Option, none, some, [], Result, ok, err,
  arith, ap, length, length-append,
}
use mirror_sync.Base.Int.{pos, is_negative, ◌==ℤ◌, ==ℤ_iff}
use mirror_sync.Base.Text.{Bytes, str, is_empty, equal_fold}
use mirror_sync.Safe.{path_dir}
use mirror_sync.World.{
  World, Fault, Node, regular, Env, Files, Response, Stream, set_file, ◌>>=◌, done, call, create,
  write, op_mkdir, op_sync, op_open, op_write, failure,
}
use mirror_sync.World.Hoare.{
  Post, Run, Either, bind, choice, tried, call-Run, changing-Run, remove-Run, rename-Run,
}
use mirror_sync.World.Keeps.{At, set_file_same, set_file_other}
use mirror_sync.Httpx.{Client, do_request}
use mirror_sync.Httpx.Permits.{Held, do_request-balanced}
use mirror_sync.Download.{
  Source, Expected, strongest_checksum, partial, hash_of, decompressed_body, raise, raise_if,
  save_response, discard, renamed, accept, download_one,
}

-- A content that passes the checks of a download: the size, if one is known, and the strongest
-- checksum, if there is one.
abbrev pub Matches : Env → Expected → Bytes → Type 0
Matches env expected content =
    (is_negative expected.size ≡ false → pos (length content) ≡ expected.size)
    × (is_empty (strongest_checksum expected).0 ≡ false
        → equal_fold (hash_of env (strongest_checksum expected).0 content)
            (strongest_checksum expected).1
          ≡ true)

module _ (env : Env) (expected : Expected) (staged tmp : Bytes) (apart : tmp ≢ staged)
    (before : Files) where
  -- All files but the temporary one are as before.
  abbrev Quiet : Files → Type 0
  Quiet files = (q : Bytes) → q ≢ tmp → files q ≡ before q

  abbrev Saved : ℕ × Bytes → Files → Type 0
  Saved r files =
      Quiet files
      × ((content : Bytes) × (files tmp ≡ some (regular content))
          × (r.0 ≡ length content)
          × (r.1 ≡ hash_of env (strongest_checksum expected).0 content))

  abbrev Staged : ℕ → Files → Type 0
  Staged written files =
      ((content : Bytes) × (files staged ≡ some (regular content))
        × Matches env expected content
        × (written ≡ length content))
      × ((q : Bytes) → q ≢ staged → q ≢ tmp → files q ≡ before q)

  put_tmp : (n : Option Node) (files : Files) → Quiet files → Quiet (set_file tmp n files)
  put_tmp n files h q a = set_file_other tmp q n files (λ e. a (sym e)) ∙ h q a

  abbrev Content : Bytes → Files → Type 0
  Content content files = Quiet files × (files tmp ≡ some (regular content))

  save_response-Run :
      (s g : ℕ) (compression : Bytes) (resp : Response)
      → Run
          (Held s g Quiet)
          (save_response env tmp compression (strongest_checksum expected).0 resp)
          (λ r. Held s g (Saved r))
          (Held s g Quiet)
  unfolding save_response create write
  save_response-Run s g compression resp =
      bind (λ _. Held s g Quiet) (λ r. Held s g (Saved r)) (Held s g Quiet) (Held s g Quiet) _ _
        (changing-Run env (Held s g Quiet) (Held s g Quiet) (Held s g Quiet) op_open tmp _
          (λ w h. (h.0, h.1, put_tmp _ w.files h.2)) (λ w h. h))
        (λ _.
          bind (λ _. Held s g Quiet) (λ r. Held s g (Saved r)) (Held s g Quiet) (Held s g Quiet) _ _
            (raised (decompressed_body env resp.body compression)) written)
    where
      raised :
          (r : Result Fault Stream)
          → Run (Held s g Quiet) (raise env r) (λ _. Held s g Quiet) (Held s g Quiet)
      raised (ok stream) = λ w h. h
      raised (err e) = λ w h. h

      ended :
          (stream : Stream) (o : Option Fault)
          → Run
              (Held s g (Content stream.0))
              (raise_if env o >>= λ _. call env op_sync tmp >>= λ _.
                done (length stream.0, hash_of env (strongest_checksum expected).0 stream.0))
              (λ r. Held s g (Saved r))
              (Held s g Quiet)
      ended stream o =
          bind (λ _. Held s g (Content stream.0)) (λ r. Held s g (Saved r)) (Held s g Quiet)
            (Held s g (Content stream.0)) _ _ (stopping o)
            (λ _.
              bind (λ _. Held s g (Content stream.0)) (λ r. Held s g (Saved r)) (Held s g Quiet)
                (Held s g (Content stream.0)) _ _
                (call-Run env (Held s g (Content stream.0)) (Held s g (Content stream.0))
                  (Held s g Quiet) op_sync tmp (λ w h. h) (λ w h. (h.0, h.1, h.2.0)))
                (λ _ w h. (h.0, h.1, (h.2.0, (stream.0, h.2.1, refl, refl)))))
        where
          stopping :
              (o : Option Fault)
              → Run
                  (Held s g (Content stream.0))
                  (raise_if env o)
                  (λ _. Held s g (Content stream.0))
                  (Held s g Quiet)
          stopping none = λ w h. h
          stopping (some e) = λ w h. (h.0, h.1, h.2.0)

      written :
          (stream : Stream)
          → Run
              (Held s g Quiet)
              (write env tmp stream.0 >>= λ _. raise_if env stream.1 >>= λ _.
                call env op_sync tmp >>= λ _.
                done (length stream.0, hash_of env (strongest_checksum expected).0 stream.0))
              (λ r. Held s g (Saved r))
              (Held s g Quiet)
      written stream =
          bind (λ _. Held s g (Content stream.0)) (λ r. Held s g (Saved r)) (Held s g Quiet)
            (Held s g Quiet) _ _
            (changing-Run env (Held s g Quiet) (Held s g (Content stream.0)) (Held s g Quiet)
              op_write tmp _
              (λ w h. (h.0, h.1, (put_tmp _ w.files h.2, set_file_same tmp _ w.files))) (λ w h. h))
            (λ _. ended stream stream.1)

  loosen :
      (s g : ℕ) (r : World × Result Fault (ℕ × Bytes))
      → Post (λ a. Held s g (Saved a)) (Held s g Quiet) r
      → Post (λ a. At (Saved a)) (At Quiet) r
  loosen s g (w, ok a) h = h.2
  loosen s g (w, err e) h = h.2

  request-Run :
      (client : Client) (source : Source)
      → is_negative client.retries ≡ false
      → Run
          (At Quiet)
          (do_request env client source.rel_path
            (save_response env tmp source.decompress (strongest_checksum expected).0)
            (0, []))
          (λ a. At (Saved a))
          (At Quiet)
  request-Run client source e w h =
      loosen w.source_held w.global_held
        (do_request env client source.rel_path
          (save_response env tmp source.decompress (strongest_checksum expected).0) (0, []) w)
        (do_request-balanced env client
          (save_response env tmp source.decompress (strongest_checksum expected).0) Quiet Saved
          (λ resp s g _. save_response-Run s g source.decompress resp) source.rel_path (0, []) e w
          h)

  discard-Run :
      {A : Type 0} (Q : A → World → Type 0) (e : Fault)
      → Run (At Quiet) (discard env tmp e) Q (At Quiet)
  discard-Run Q e =
      bind (λ _. At Quiet) Q (At Quiet) (At Quiet) _ _
        (remove-Run env (At Quiet) (At Quiet) (At Quiet) tmp (λ w h. put_tmp none w.files h)
          (λ w h. h))
        (λ _ w h. h)

  staged_lem :
      (written : ℕ) (got : Bytes) (files : Files) (node : Node)
      → Saved (written, got) files
      → files tmp ≡ some node
      → (not (is_negative expected.size) && not (pos written ==ℤ expected.size)) ≡ false
      → (not (is_empty (strongest_checksum expected).0)
          && not (equal_fold got (strongest_checksum expected).1))
        ≡ false
      → Staged written (set_file staged (some node) (set_file tmp none files))
  staged_lem written got files node (quiet, (content, kept, n, d)) now sized summed = (
    (
      content,
      set_file_same staged (some node) (set_file tmp none files) ∙ sym now ∙ kept,
      (λ e. ground (arith, ==ℤ_iff (pos written) expected.size, n), λ e. ground (arith, d)),
      n,
    ),
    λ q a b.
        set_file_other staged q (some node) (set_file tmp none files) (λ e. a (sym e))
        ∙ put_tmp none files quiet q b,
  )

  accept-Run :
      (r : Result Fault (ℕ × Bytes))
      → Run
          (Either (λ a. At (Saved a)) (At Quiet) r)
          (accept env expected tmp staged r)
          (λ n. At (Staged n))
          (At Quiet)
  accept-Run (err e) = discard-Run (λ n. At (Staged n)) e
  accept-Run (ok (written, got)) =
      choice (λ n. At (Staged n)) (At Quiet) (At (Saved (written, got)))
        (not (is_negative expected.size) && not (pos written ==ℤ expected.size)) _ _
        (λ _ w h. discard-Run (λ n. At (Staged n)) (failure "size mismatch") w h.0)
        (λ sized.
          choice (λ n. At (Staged n)) (At Quiet) (At (Saved (written, got)))
            (not (is_empty (strongest_checksum expected).0)
              && not (equal_fold got (strongest_checksum expected).1))
            _ _ (λ _ w h. discard-Run (λ n. At (Staged n)) (failure "checksum mismatch") w h.0)
            (λ summed.
              bind (Either (λ _. At (Staged written)) (At Quiet)) (λ n. At (Staged n)) (At Quiet)
                (At (Saved (written, got))) _ _
                (tried (λ _. At (Staged written)) (At Quiet) (At (Saved (written, got))) (At Quiet)
                  _
                  (rename-Run env (At (Saved (written, got))) (At (Staged written)) (At Quiet) tmp
                    staged (λ w node h e. staged_lem written got w.files node h e sized summed)
                    (λ w h. h.0)))
                settle))
    where
      settle :
          (r : Result Fault (Unit {0}))
          → Run
              (Either (λ _. At (Staged written)) (At Quiet) r)
              (renamed env tmp written r)
              (λ n. At (Staged n))
              (At Quiet)
      settle (ok _) = λ w h. h
      settle (err e) = discard-Run (λ n. At (Staged n)) e

partial_apart : (staged : Bytes) → partial staged ≢ staged
partial_apart staged e = absurd (omega (arith, ap length e, length-append staged (str ".partial")))

module _ (env : Env) (client : Client) (expected : Expected) (source : Source) (staged : Bytes)
    (retried : is_negative client.retries ≡ false) (before : Files) where
  abbrev Unstaged : World → Type 0
  Unstaged = At (Quiet env expected staged (partial staged) (partial_apart staged) before)

  abbrev Done : ℕ → World → Type 0
  Done n = At (Staged env expected staged (partial staged) (partial_apart staged) before n)

  download_one-Run : Run Unstaged (download_one env client expected source staged) Done Unstaged
  unfolding download_one
  download_one-Run =
      bind (λ _. Unstaged) Done Unstaged Unstaged _ _
        (call-Run env Unstaged Unstaged Unstaged op_mkdir (path_dir staged) (λ w h. h) (λ w h. h))
        (λ _.
          bind (λ _. Unstaged) Done Unstaged Unstaged _ _
            (remove-Run env Unstaged Unstaged Unstaged (partial staged)
              (λ w h.
                put_tmp env expected staged (partial staged) (partial_apart staged) before none
                  w.files h)
              (λ w h. h))
            (λ _.
              bind
                (Either
                  (λ r.
                    At (Saved env expected staged (partial staged) (partial_apart staged) before r))
                  Unstaged)
                Done Unstaged Unstaged _ _
                (tried
                  (λ r.
                    At (Saved env expected staged (partial staged) (partial_apart staged) before r))
                  Unstaged Unstaged Unstaged _
                  (request-Run env expected staged (partial staged) (partial_apart staged) before
                    client source retried))
                (accept-Run env expected staged (partial staged) (partial_apart staged) before)))

-- A download that succeeds leaves a staged file that has the expected size, if it is not negative,
-- and the strongest expected checksum, if there is one, and answers its length; one that fails
-- leaves the staged file as it was. In both cases all files but the staged and the partial one are
-- as before. The client's number of retries is not negative.
pub download_one-Matches :
    (env : Env) (client : Client) (expected : Expected) (source : Source) (staged : Bytes)
    → is_negative client.retries ≡ false
    → (w : World)
    → Post
        (λ written w'.
          ((content : Bytes) × (w'.files staged ≡ some (regular content))
            × Matches env expected content
            × (written ≡ length content))
          × ((q : Bytes) → q ≢ staged → q ≢ partial staged → w'.files q ≡ w.files q))
        (λ w'. (q : Bytes) → q ≢ partial staged → w'.files q ≡ w.files q)
        (download_one env client expected source staged w)
download_one-Matches env client expected source staged e w =
    download_one-Run env client expected source staged e w.files w (λ q _. refl)
