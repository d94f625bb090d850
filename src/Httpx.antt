-- ===== src/Httpx.antt =====
-- internal/httpx/httpx.go and internal/limit/limit.go: requests with their retries, and the permits
-- that a request holds of the limiters of its source and of the whole program.
pub mod Permits
use mirror_sync.Base.{
  ℕ, zero, suc, ◌+◌, ◌-◌, String, Bool, true, false, not, ◌&&◌, ◌||◌, ◌==◌, ltb, leb, Option, none,
  some, List, [], ◌∷◌, ◌++◌, Result, ok, err, if◌then◌else◌, length, take,
}
use mirror_sync.Base.Int.{ℤ, pos, negsuc}
use mirror_sync.Base.Text.{Bytes, str, trim_left, is_empty}
use mirror_sync.World.{
  World, Fault, Stream, failure, http_status, all_failed, Response, Env, Io, done, fail, try, ◌>>=◌,
  ◌>>◌, call, tick, op_request,
}
use mirror_sync.Config.{EffectiveSource}

-- `limit.New`: no limiter for a limit that is not positive; else its number of permits.
unfoldable pub new_limiter : ℤ → Option ℕ
new_limiter (pos zero) = none
new_limiter (pos (suc n)) = some (suc n)
new_limiter (negsuc n) = none

-- `Client`, of the fields of its source that requests depend on.
pub record Client : Type 0 where
  pub url : Bytes
  pub source_limiter : Option ℕ
  pub global_limiter : Option ℕ
  pub retries : ℤ
  pub max_in_flight : ℤ

unfoldable pub is_status : Fault → ℕ → Bool
is_status (http_status code) wanted = code == wanted
is_status (failure text) wanted = false
is_status all_failed wanted = false

unfoldable pub retryable_http_error : Fault → Bool
retryable_http_error (failure text) = true
retryable_http_error all_failed = true
retryable_http_error (http_status code) = leb 500 code || code == 408 || code == 425 || code == 429

unfoldable pub client_url : Client → Bytes → Bytes
client_url client rel = client.url ++ (b'/' ∷ trim_left (λ c. c == b'/') rel)

abbrev pub take_source : World → World
take_source w = record w { source_held = suc w.source_held }

abbrev pub take_global : World → World
take_global w = record w { global_held = suc w.global_held }

abbrev pub give_source : World → World
give_source w = record w { source_held = w.source_held - 1 }

abbrev pub give_global : World → World
give_global w = record w { global_held = w.global_held - 1 }

-- `release`, which is nothing for a nil limiter.
abbrev pub release : Option ℕ → (World → World) → Io (Unit {0})
release none give w = (w, ok tt)
release (some permits) give w = (give w, ok tt)

-- How a round ends: with a result, with an error that is returned at once, or with one that may be
-- tried again.
pub data Round (A : Type 0) : Type 0 where
  finished : A → Round A
  stopped : Fault → Round A
  failed : Fault → Round A

abbrev pub rounds_of : ℤ → ℕ
rounds_of (pos n) = suc n
rounds_of (negsuc n) = 0

module _ (env : Env) where
  -- `Acquire`: it waits for a permit or until the context is done.
  abbrev pub acquire : Option ℕ → (World → World) → Io (Unit {0})
  acquire none grab w = (w, ok tt)
  acquire (some permits) grab w =
      if env.cancelled w.clock
      then (tick w, err (failure "context done"))
      else (tick (grab w), ok tt)

  abbrev pub release_both : Client → Io (Unit {0})
  release_both client =
      release client.global_limiter give_global >> release client.source_limiter give_source

  -- http.Client.Do
  unfoldable pub send : Bytes → Io Response
  send url w = (tick w, env.answer w.clock url)

  -- The wait before the next round, which the context may end.
  unfoldable pub pause : Io (Unit {0})
  pause w =
      if env.cancelled w.clock then (tick w, err (failure "context done")) else (tick w, ok tt)

  module _ {A : Type 0} where
    abbrev pub ended : Result Fault A → Round A
    ended (ok a) = finished a
    ended (err e) = failed e

    unfoldable pub consume_response : Client → (Response → Io A) → Response → Io (Round A)
    consume_response client consume resp =
        try (
          if ltb resp.status_code 200 || leb 300 resp.status_code
          then fail (http_status resp.status_code)
          else consume resp)
        >>= λ outcome. release_both client >> done (ended outcome)

    abbrev pub answered_by : Client → (Response → Io A) → Result Fault Response → Io (Round A)
    answered_by client consume (err e) =
        release_both client >> done (failed (failure "request failed"))
    answered_by client consume (ok resp) = consume_response client consume resp

    abbrev pub with_global :
        Client → Bytes → (Response → Io A) → Result Fault (Unit {0}) → Io (Round A)
    with_global client url consume (err e) =
        release client.source_limiter give_source >> done (stopped e)
    with_global client url consume (ok _) = try (send url) >>= answered_by client consume

    abbrev pub with_source :
        Client → Bytes → (Response → Io A) → Result Fault (Unit {0}) → Io (Round A)
    with_source client url consume (err e) = done (stopped e)
    with_source client url consume (ok _) =
        try (acquire client.global_limiter take_global) >>= with_global client url consume

    abbrev pub with_request :
        Client → Bytes → (Response → Io A) → Result Fault (Unit {0}) → Io (Round A)
    with_request client url consume (err e) = done (stopped e)
    with_request client url consume (ok _) =
        try (acquire client.source_limiter take_source) >>= with_source client url consume

    -- One round of the loop of `Do`, up to the decision on a retry.
    unfoldable pub attempt : Client → Bytes → (Response → Io A) → Io (Round A)
    attempt client url consume = try (call env op_request url) >>= with_request client url consume

    -- What follows a round; `left` is the number of rounds left, and `next` the next of them.
    abbrev pub after_round : ℕ → Io A → Round A → Io A
    after_round left next (finished a) = done a
    after_round left next (stopped e) = fail e
    after_round zero next (failed e) = fail e
    after_round (suc n) next (failed e) = if retryable_http_error e then pause >> next else fail e

    unfoldable pub do_rounds : ℕ → Client → Bytes → (Response → Io A) → A → Io A
    do_rounds zero client url consume unset = done unset
    do_rounds (suc left) client url consume unset =
        let next = do_rounds left client url consume unset in
        attempt client url consume >>= after_round left next

    -- `Do`; `unset` is what the variables that `consume` sets hold before.
    unfoldable pub do_request : Client → Bytes → (Response → Io A) → A → Io A
    do_request client rel consume unset =
        do_rounds (rounds_of client.retries) client (client_url client rel) consume unset

  -- http.MaxBytesReader, for a positive limit.
  abbrev pub limited : ℕ → Stream → Stream
  limited top (content, e) =
      if ltb 0 top && ltb top (length content)
      then (take top content, some (failure "http: request body too large"))
      else (content, e)

  abbrev pub whole : Stream → Io Bytes
  whole (content, none) = done content
  whole (content, some e) = fail e

  -- `GetBytes`; `out` is nil before.
  unfoldable pub get_bytes : Client → Bytes → ℕ → Io Bytes
  get_bytes client rel max_bytes =
      do_request client rel (λ resp. whole (limited max_bytes resp.body)) []

-- `Factory.Client` behind its cache: the transport fails to be set up for a proxy's URL that
-- url.Parse rejects. `parses` is whether it accepts a text.
unfoldable pub new_client : (Bytes → Bool) → ℤ → Option ℕ → EffectiveSource → Result String Client
new_client parses retries global src =
    if not src.direct_proxy && not (is_empty src.proxy_url) && not (parses src.proxy_url)
    then err "parse proxy"
    else ok (record {
      url = src.url;
      source_limiter = new_limiter src.max_in_flight_requests;
      global_limiter = global;
      retries = retries;
      max_in_flight = src.max_in_flight_requests;
    })
