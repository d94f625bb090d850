-- ===== src/Httpx/Permits.antt =====
-- The permits of a request: each that is taken is given back, on every path through `Do`.
use mirror_sync.Base.{
  ℕ, zero, suc, ◌≡◌, refl, Bool, true, false, ◌||◌, Option, none, some, Result, ok, err, arith,
  Bool-cases, inl, inr, if◌then◌else◌, ltb, leb, ap,
}
use mirror_sync.Base.Int.{ℤ, pos, negsuc, is_negative}
use mirror_sync.Base.Text.{Bytes}
use mirror_sync.World.{
  World, Fault, failure, Response, Env, Io, Files, tick, ◌>>=◌, done, op_request,
}
use mirror_sync.World.Hoare.{Post, Run, Either, bind, choice, tried, call-Run}
use mirror_sync.Httpx.{
  Client, Round, finished, stopped, failed, acquire, release, release_both, take_source,
  take_global, give_source, give_global, send, attempt, with_request, with_source, with_global,
  answered_by, consume_response, ended, pause, after_round, do_rounds, do_request, rounds_of,
  client_url, retryable_http_error,
}

-- The numbers of permits held, and a condition on the files.
abbrev pub Held : ℕ → ℕ → (Files → Type 0) → World → Type 0
Held s g F w = (w.source_held ≡ s) × (w.global_held ≡ g) × F w.files

abbrev up : Option ℕ → ℕ → ℕ
up none n = n
up (some permits) n = suc n

-- A response that is consumed.
abbrev pub is_success : Response → Bool
is_success resp = if ltb resp.status_code 200 || leb 300 resp.status_code then false else true

module _ {A : Type 0} (env : Env) (client : Client) (consume : Response → Io A) (F : Files → Type 0)
    (G : A → Files → Type 0)
    (consumes : (resp : Response) (s g : ℕ)
      → is_success resp ≡ true
      → Run (Held s g F) (consume resp) (λ a. Held s g (G a)) (Held s g F)) where
  module _ (s g : ℕ) where
    -- What holds behind a round that is over.
    abbrev After : Round A → World → Type 0
    After (finished a) = Held s g (G a)
    After (stopped e) = Held s g F
    After (failed e) = Held s g F

    abbrev HeldSource : (Files → Type 0) → World → Type 0
    HeldSource = Held (up client.source_limiter s) g

    abbrev HeldBoth : (Files → Type 0) → World → Type 0
    HeldBoth = Held (up client.source_limiter s) (up client.global_limiter g)

    give_source-Run :
        (H : Files → Type 0)
        → Run
            (HeldSource H)
            (release client.source_limiter give_source)
            (λ _. Held s g H)
            (Held s g F)
    give_source-Run H = go client.source_limiter
      where
        go :
            (lim : Option ℕ)
            → Run (Held (up lim s) g H) (release lim give_source) (λ _. Held s g H) (Held s g F)
        go none w h = h
        go (some permits) w h = (omega (arith, h.0), h.1, h.2)

    give_both-Run :
        (H : Files → Type 0)
        → Run (HeldBoth H) (release_both env client) (λ _. Held s g H) (Held s g F)
    give_both-Run H =
        bind (λ _. HeldSource H) (λ _. Held s g H) (Held s g F) (HeldBoth H) _ _
          (go client.global_limiter) (λ _. give_source-Run H)
      where
        go :
            (lim : Option ℕ)
            → Run
                (Held (up client.source_limiter s) (up lim g) H)
                (release lim give_global)
                (λ _. HeldSource H)
                (Held s g F)
        go none w h = h
        go (some permits) w h = (h.0, omega (arith, h.1), h.2)

    consumed-Run :
        (resp : Response)
        → Run (HeldBoth F) (consume_response env client consume resp) After (Held s g F)
    unfolding consume_response
    consumed-Run resp =
        bind (Either (λ a. HeldBoth (G a)) (HeldBoth F)) After (Held s g F) (HeldBoth F) _ _
          (tried (λ a. HeldBoth (G a)) (HeldBoth F) (HeldBoth F) (Held s g F) _
            (choice (λ a. HeldBoth (G a)) (HeldBoth F) (HeldBoth F)
              (ltb resp.status_code 200 || leb 300 resp.status_code) _ _ (λ e w h. h)
              (λ e. consumes resp _ _ (rw e refl))))
          give
      where
        give :
            (r : Result Fault A)
            → Run
                (Either (λ a. HeldBoth (G a)) (HeldBoth F) r)
                (release_both env client >>= λ _. done (ended env r))
                After
                (Held s g F)
        give (ok a) =
            bind (λ _. Held s g (G a)) After (Held s g F) (HeldBoth (G a)) _ _ (give_both-Run (G a))
              (λ _ w h. h)
        give (err e) =
            bind (λ _. Held s g F) After (Held s g F) (HeldBoth F) _ _ (give_both-Run F)
              (λ _ w h. h)

    answered-Run :
        (r : Result Fault Response)
        → Run
            (Either (λ _. HeldBoth F) (HeldBoth F) r)
            (answered_by env client consume r)
            After
            (Held s g F)
    answered-Run (ok resp) = consumed-Run resp
    answered-Run (err e) =
        bind (λ _. Held s g F) After (Held s g F) (HeldBoth F) _ _ (give_both-Run F) (λ _ w h. h)

    send-Run : (url : Bytes) → Run (HeldBoth F) (send env url) (λ _. HeldBoth F) (HeldBoth F)
    unfolding send
    send-Run url w h = go (env.answer w.clock url)
      where
        go : (r : Result Fault Response) → Post (λ _. HeldBoth F) (HeldBoth F) (tick w, r)
        go (ok resp) = h
        go (err e) = h

    with_global-Run :
        (url : Bytes) (r : Result Fault (Unit {0}))
        → Run
            (Either (λ _. HeldBoth F) (HeldSource F) r)
            (with_global env client url consume r)
            After
            (Held s g F)
    with_global-Run url (err e) =
        bind (λ _. Held s g F) After (Held s g F) (HeldSource F) _ _ (give_source-Run F)
          (λ _ w h. h)
    with_global-Run url (ok _) =
        bind (Either (λ _. HeldBoth F) (HeldBoth F)) After (Held s g F) (HeldBoth F) _ _
          (tried (λ _. HeldBoth F) (HeldBoth F) (HeldBoth F) (Held s g F) _ (send-Run url))
          answered-Run

    take_source-Run :
        Run
          (Held s g F)
          (acquire env client.source_limiter take_source)
          (λ _. HeldSource F)
          (Held s g F)
    take_source-Run w h = go client.source_limiter
      where
        go :
            (lim : Option ℕ)
            → Post (λ _. Held (up lim s) g F) (Held s g F) (acquire env lim take_source w)
        go none = h
        go (some permits) = elim (Bool-cases (env.cancelled w.clock)) [
          | inl e ↦ rw e h
          | inr e ↦ rw e (ap suc h.0, h.1, h.2)
        ]

    take_global-Run :
        Run
          (HeldSource F)
          (acquire env client.global_limiter take_global)
          (λ _. HeldBoth F)
          (HeldSource F)
    take_global-Run w h = go client.global_limiter
      where
        go :
            (lim : Option ℕ)
            → Post
                (λ _. Held (up client.source_limiter s) (up lim g) F)
                (HeldSource F)
                (acquire env lim take_global w)
        go none = h
        go (some permits) = elim (Bool-cases (env.cancelled w.clock)) [
          | inl e ↦ rw e h
          | inr e ↦ rw e (h.0, ap suc h.1, h.2)
        ]

    with_source-Run :
        (url : Bytes) (r : Result Fault (Unit {0}))
        → Run
            (Either (λ _. HeldSource F) (Held s g F) r)
            (with_source env client url consume r)
            After
            (Held s g F)
    with_source-Run url (err e) = λ w h. h
    with_source-Run url (ok _) =
        bind (Either (λ _. HeldBoth F) (HeldSource F)) After (Held s g F) (HeldSource F) _ _
          (tried (λ _. HeldBoth F) (HeldSource F) (HeldSource F) (Held s g F) _ take_global-Run)
          (with_global-Run url)

    with_request-Run :
        (url : Bytes) (r : Result Fault (Unit {0}))
        → Run
            (Either (λ _. Held s g F) (Held s g F) r)
            (with_request env client url consume r)
            After
            (Held s g F)
    with_request-Run url (err e) = λ w h. h
    with_request-Run url (ok _) =
        bind (Either (λ _. HeldSource F) (Held s g F)) After (Held s g F) (Held s g F) _ _
          (tried (λ _. HeldSource F) (Held s g F) (Held s g F) (Held s g F) _ take_source-Run)
          (with_source-Run url)

    attempt-Run :
        (url : Bytes) → Run (Held s g F) (attempt env client url consume) After (Held s g F)
    unfolding attempt
    attempt-Run url =
        bind (Either (λ _. Held s g F) (Held s g F)) After (Held s g F) (Held s g F) _ _
          (tried (λ _. Held s g F) (Held s g F) (Held s g F) (Held s g F) _
            (call-Run env (Held s g F) (Held s g F) (Held s g F) op_request url (λ w h. h)
              (λ w h. h)))
          (with_request-Run url)

  pause-Run : (s g : ℕ) → Run (Held s g F) (pause env) (λ _. Held s g F) (Held s g F)
  unfolding pause
  pause-Run s g w h = go (env.cancelled w.clock)
    where
      go :
          (b : Bool)
          → Post
              (λ _. Held s g F)
              (Held s g F)
              (if b then (tick w, err (failure "context done")) else (tick w, ok tt))
      go true = h
      go false = h

  last_round :
      (s g : ℕ) (next : Io A) (r : Round A)
      → Run (After s g r) (after_round env zero next r) (λ a. Held s g (G a)) (Held s g F)
  last_round s g next (finished a) = λ w h. h
  last_round s g next (stopped e) = λ w h. h
  last_round s g next (failed e) = λ w h. h

  more_rounds :
      (s g n : ℕ) (next : Io A) (r : Round A)
      → Run (Held s g F) next (λ a. Held s g (G a)) (Held s g F)
      → Run (After s g r) (after_round env (suc n) next r) (λ a. Held s g (G a)) (Held s g F)
  more_rounds s g n next (finished a) k = λ w h. h
  more_rounds s g n next (stopped e) k = λ w h. h
  more_rounds s g n next (failed e) k =
      choice (λ a. Held s g (G a)) (Held s g F) (Held s g F) (retryable_http_error e) _ _
        (λ _.
          bind (λ _. Held s g F) (λ a. Held s g (G a)) (Held s g F) (Held s g F) _ _ (pause-Run s g)
            (λ _. k))
        (λ _ w h. h)

  do_rounds-Run :
      (s g : ℕ) (n : ℕ) (url : Bytes) (unset : A)
      → Run
          (Held s g F)
          (do_rounds env (suc n) client url consume unset)
          (λ a. Held s g (G a))
          (Held s g F)
  unfolding do_rounds
  do_rounds-Run s g zero url unset =
      bind (After s g) (λ a. Held s g (G a)) (Held s g F) (Held s g F) _ _ (attempt-Run s g url)
        (last_round s g (do_rounds env zero client url consume unset))
  do_rounds-Run s g (suc n) url unset =
      bind (After s g) (λ a. Held s g (G a)) (Held s g F) (Held s g F) _ _ (attempt-Run s g url)
        (λ r.
          more_rounds s g n (do_rounds env (suc n) client url consume unset) r
            (do_rounds-Run s g n url unset))

  -- If the use of a successful response keeps the permits, and makes `G` of its result hold of the
  -- files or else keeps `F`, then so does the whole request, however many rounds it takes: it gives
  -- back all permits on every path, and it has a result only from the use of a response of status
  -- 2xx. The number of retries is not negative.
  pub do_request-balanced :
      (rel : Bytes) (unset : A)
      → is_negative client.retries ≡ false
      → (w : World) → F w.files
      → Post
          (λ a w'.
            (w'.source_held ≡ w.source_held) × (w'.global_held ≡ w.global_held) × G a w'.files)
          (λ w'. (w'.source_held ≡ w.source_held) × (w'.global_held ≡ w.global_held) × F w'.files)
          (do_request env client rel consume unset w)
  unfolding do_request
  do_request-balanced rel unset e w h = go client.retries e
    where
      go :
          (retries : ℤ)
          → is_negative retries ≡ false
          → Post
              (λ a. Held w.source_held w.global_held (G a))
              (Held w.source_held w.global_held F)
              (do_rounds env (rounds_of retries) client (client_url client rel) consume unset w)
      go (pos n) _ =
          do_rounds-Run w.source_held w.global_held n (client_url client rel) unset w
            (refl, refl, h)
      go (negsuc n) bad = absurd (cc)
