-- ===== src/Config/Effective.antt =====
-- The settings of a source in internal/config/config.go: limits, proxies and payload sources.
use mirror_sync.Base.{
  ℕ, suc, String, ◌≡◌, ◌≢◌, refl, ◌⊎◌, inl, inr, ◌∙◌, Bool, true, false, not, Option, none, some,
  List, [], ◌∷◌, ◌++◌, Result, ok, err, ◌>>=◌, Ensures, Result-cases, arith, if◌then◌else◌, any_by,
  any_by-append, Bool-cases, ap,
}
use mirror_sync.Base.Int.{ℤ, pos, negsuc, is_positive, is_negative}
use mirror_sync.Base.Text.{Bytes, str, ◌=ˢ◌, is_empty}
use mirror_sync.Base.Text.Laws.{=ˢ_iff, =ˢ_refl}
use mirror_sync.Config.{
  Host, Config, Source, SourceProxy, EffectiveSource, RepoKind, SourceRole, source_primary,
  source_mirror, effective, effective_mirrors, payload_sources, has_url, max_in_flight,
  resolve_proxy, inherited_proxy, proxy_switch, validate_proxy_url, web_scheme, or_if_zero,
  default_max_in_flight_requests, is_off,
}
use mirror_sync.Config.Validate.{
  validate_numbers, validate_http_source, validate_source_proxy, validate_global_proxy,
}

-- The first positive number of a list, or `last`.
abbrev pub first_positive : List ℤ → ℤ → ℤ
first_positive [] last = last
first_positive (n ∷ ns) last = if is_positive n then n else first_positive ns last

or_if_zero_lem :
    (a b d : ℤ)
    → is_negative a ≡ false
    → is_negative b ≡ false
    → or_if_zero (or_if_zero a b) d ≡ first_positive (a ∷ b ∷ []) d
or_if_zero_lem (pos a) (pos b) d h k = ground arith
or_if_zero_lem (negsuc a) b d h k = absurd (cc)
or_if_zero_lem (pos a) (negsuc b) d h k = absurd (cc)

first_positive-positive :
    (ns : List ℤ) (d : ℤ) → is_positive d ≡ true → is_positive (first_positive ns d) ≡ true
first_positive-positive [] d h = h
first_positive-positive (n ∷ ns) d h = ground (arith, first_positive-positive ns d h)

max_in_flight_lem :
    (c : Config)
    → max_in_flight c
      ≡ first_positive (c.sync.download.max_in_flight_requests ∷ []) default_max_in_flight_requests
unfolding max_in_flight
max_in_flight_lem c = refl

-- The limits that the settings name, in the order of precedence.
abbrev pub HasLimits : Config → Source → EffectiveSource → Type 0
HasLimits c src e =
    let g = c.sync.download in
    (e.max_connections
      ≡ first_positive (src.max_connections ∷ g.max_connections_per_source ∷ []) (pos 4))
    × (e.max_in_flight_requests
        ≡ first_positive
            (src.max_in_flight_requests ∷ g.max_in_flight_requests_per_source
              ∷ g.max_in_flight_requests ∷ [])
            (pos 4))
    × (is_positive e.max_connections ≡ true)
    × (is_positive e.max_in_flight_requests ≡ true)

-- The limits of a source are checked to be at least 0.
abbrev pub Checked : Config → Source → Type 0
Checked c src =
    let g = c.sync.download in
    (is_negative src.max_connections ≡ false)
    × (is_negative src.max_in_flight_requests ≡ false)
    × (is_negative g.max_connections_per_source ≡ false)
    × (is_negative g.max_in_flight_requests_per_source ≡ false)

validated-Checked :
    (host : Host) (c : Config) (src : Source)
    → validate_numbers c.sync ≡ ok tt
    → validate_http_source host src ≡ ok tt
    → Checked c src
unfolding validate_numbers validate_http_source
validated-Checked host c src h k = ground arith

effective-HasLimits :
    (host : Host) (c : Config) (repo : Bytes) (kind : RepoKind) (role : SourceRole) (i : ℕ)
    (src : Source)
    → Checked c src
    → Ensures (HasLimits c src) (effective host c repo kind role i src)
unfolding effective
effective-HasLimits host c repo kind role i src (a, b, d, e) =
    elim (Result-cases (resolve_proxy host c src.proxy)) [
      | inl (p, found) ↦
          let g = c.sync.download in
          let conns = or_if_zero_lem src.max_connections g.max_connections_per_source (pos 4) a d in
          let flight =
            or_if_zero_lem src.max_in_flight_requests g.max_in_flight_requests_per_source
              (max_in_flight c) b e
            ∙ ap
                (λ n.
                  first_positive
                    (src.max_in_flight_requests ∷ g.max_in_flight_requests_per_source ∷ []) n)
                (max_in_flight_lem c) in
          rw (found, conns, flight)
            (
              refl,
              refl,
              first_positive-positive (src.max_connections ∷ g.max_connections_per_source ∷ [])
                  (pos 4) refl,
              first_positive-positive
                  (src.max_in_flight_requests ∷ g.max_in_flight_requests_per_source
                    ∷ g.max_in_flight_requests ∷ [])
                  (pos 4) refl,
            )
      | inr (x, failed) ↦ rw failed tt
    ]

-- The limits of a source are positive: each is the first positive one of the source's own, the
-- global one per source, for requests in flight also the global one, and 4. The condition is that
-- the numbers of the configuration and the source have passed validation.
pub effective_limits :
    (host : Host) (c : Config) (repo : Bytes) (kind : RepoKind) (role : SourceRole) (i : ℕ)
    (src : Source)
    → validate_numbers c.sync ≡ ok tt
    → validate_http_source host src ≡ ok tt
    → Ensures (HasLimits c src) (effective host c repo kind role i src)
effective_limits host c repo kind role i src h k =
    effective-HasLimits host c repo kind role i src (validated-Checked host c src h k)

abbrev pub IsWeb : Host → Bytes → Type 0
IsWeb host url = (host.scheme url ≡ some (str "http")) ⊎ (host.scheme url ≡ some (str "https"))

-- A proxy that is one: either none, or the URL of one.
abbrev pub IsProxy : Host → Bytes × Bool → Type 0
IsProxy host (url, direct) =
    ((direct ≡ true) × (url ≡ [])) ⊎ ((direct ≡ false) × (url ≢ []) × IsWeb host url)

web_scheme-IsWeb :
    (host : Host) (text : String) (url : Bytes)
    → web_scheme text (host.scheme url) ≡ ok tt
    → IsWeb host url
unfolding web_scheme
web_scheme-IsWeb host text url h = go (host.scheme url) h
  where
    go :
        (o : Option Bytes)
        → web_scheme text o ≡ ok tt
        → (o ≡ some (str "http")) ⊎ (o ≡ some (str "https"))
    go none h = absurd (ground arith)
    go (some s) h = elim (Bool-cases (s =ˢ str "http")) [
      | inl e ↦ inl (ap some ((=ˢ_iff s (str "http")).0 e))
      | inr e ↦ inr (ap some ((=ˢ_iff s (str "https")).0 (ground arith)))
    ]

validate_proxy_url-IsProxy :
    (host : Host) (url : Bytes)
    → url ≢ []
    → validate_proxy_url host url ≡ ok tt
    → IsProxy host (url, false)
unfolding validate_proxy_url
validate_proxy_url-IsProxy host [] n h = absurd (n refl)
validate_proxy_url-IsProxy host (b ∷ url) n h =
    inr (refl, n, web_scheme-IsWeb host "proxy url must use http or https" (b ∷ url) h)

inherited_proxy-IsProxy :
    (host : Host) (c : Config)
    → validate_proxy_url host c.sync.download.proxy.url ≡ ok tt
    → Ensures (IsProxy host) (inherited_proxy host c)
unfolding inherited_proxy
inherited_proxy-IsProxy host c h = go c.sync.download.proxy.url h host.proxy_variable
  where
    variable :
        (v : Bytes)
        → v ≢ []
        → (r : Result String (Unit {0})) → validate_proxy_url host v ≡ r
        → Ensures (IsProxy host) (r >>= λ _. ok (v, false))
    variable v n (ok tt) e = validate_proxy_url-IsProxy host v n e
    variable v n (err x) e = tt

    go :
        (url : Bytes)
        → validate_proxy_url host url ≡ ok tt
        → (v : Bytes)
        → Ensures (IsProxy host) (
            if not (is_empty url)
            then ok (url, false)
            else if is_empty v
            then ok ([], true)
            else (validate_proxy_url host v >>= λ _. ok (v, false)))
    go (b ∷ url) h v = validate_proxy_url-IsProxy host (b ∷ url) (ground arith) h
    go [] h [] = inl (refl, refl)
    go [] h (b ∷ v) = variable (b ∷ v) (ground arith) (validate_proxy_url host (b ∷ v)) refl

-- A source's proxy is either none, with an empty URL, or the URL of an http or https proxy; no
-- source that turns its proxy off has one. The conditions are that the global proxy and the
-- source's have passed validation; MIRRORSYNC_PROXY is any text.
pub resolve_proxy-IsProxy :
    (host : Host) (c : Config) (p : SourceProxy)
    → validate_global_proxy host c.sync.download.proxy ≡ ok tt
    → validate_source_proxy host p ≡ ok tt
    → Ensures (IsProxy host) (resolve_proxy host c p)
      × (p.enabled ≡ some false → resolve_proxy host c p ≡ ok ([], true))
unfolding resolve_proxy validate_global_proxy validate_source_proxy
resolve_proxy-IsProxy host c p h k = go p.url p.enabled k
  where
    inherited : Ensures (IsProxy host) (inherited_proxy host c)
    inherited = inherited_proxy-IsProxy host c h

    default :
        (b : Bool) → Ensures (IsProxy host) (if b then ok ([], true) else inherited_proxy host c)
    default true = inl (refl, refl)
    default false = inherited

    go :
        (url : Bytes) (enabled : Option Bool)
        → validate_source_proxy host (record { url = url; enabled = enabled }) ≡ ok tt
        → Ensures
            (IsProxy host)
            (if not (is_empty url) then ok (url, false) else proxy_switch host c enabled)
          × (enabled ≡ some false
              → (if not (is_empty url) then ok (url, false) else proxy_switch host c enabled)
                ≡ ok ([], true))
    go (b ∷ url) none k =
        (validate_proxy_url-IsProxy host (b ∷ url) (ground arith) k, λ e. absurd (cc))
    go (b ∷ url) (some x) k = absurd (cc)
    go [] none k = (default (is_off c.sync.download.proxy.enabled_by_default), λ e. absurd (cc))
    go [] (some true) k = (inherited, λ e. absurd (ground arith))
    go [] (some false) k = (inl (refl, refl), λ e. refl)

-- The settings of the mirrors one by one, from an index on.
abbrev pub IsMirrors :
    Host → Config → Bytes → RepoKind → ℕ → List Source → List EffectiveSource → Type 0
IsMirrors host c repo kind i [] [] = Unit
IsMirrors host c repo kind i [] (e ∷ es) = ⊥
IsMirrors host c repo kind i (m ∷ ms) [] = ⊥
IsMirrors host c repo kind i (m ∷ ms) (e ∷ es) =
    (effective host c repo kind source_mirror i m ≡ ok e) × IsMirrors host c repo kind (suc i) ms es

effective_mirrors-IsMirrors :
    (host : Host) (c : Config) (repo : Bytes) (kind : RepoKind) (i : ℕ) (ms : List Source)
    → Ensures (IsMirrors host c repo kind i ms) (effective_mirrors host c repo kind i ms)
unfolding effective_mirrors
effective_mirrors-IsMirrors host c repo kind i [] = tt
effective_mirrors-IsMirrors host c repo kind i (m ∷ ms) =
    go (effective host c repo kind source_mirror i m) refl
      (effective_mirrors host c repo kind (suc i) ms)
      (effective_mirrors-IsMirrors host c repo kind (suc i) ms)
  where
    go :
        (r : Result String EffectiveSource)
        → effective host c repo kind source_mirror i m ≡ r
        → (rest : Result String (List EffectiveSource))
        → Ensures (IsMirrors host c repo kind (suc i) ms) rest
        → Ensures (IsMirrors host c repo kind i (m ∷ ms)) (r >>= λ e. rest >>= λ es. ok (e ∷ es))
    go (ok e) same (ok es) h = (same, h)
    go (ok e) same (err x) h = tt
    go (err x) same rest h = tt

-- The payload sources: the mirrors in their order, and behind them the primary source unless a
-- mirror has its URL.
abbrev pub IsPayloadSources :
    Host → Config → Bytes → RepoKind → Source → List Source → List EffectiveSource → Type 0
IsPayloadSources host c repo kind primary mirrors out =
    (p : EffectiveSource) × (es : List EffectiveSource) × (effective host c repo kind source_primary
        0 primary
      ≡ ok p)
    × IsMirrors host c repo kind 0 mirrors es
    × (((any_by (has_url p.url) es ≡ true) × (out ≡ es))
        ⊎ ((any_by (has_url p.url) es ≡ false) × (out ≡ es ++ (p ∷ []))))
    × (any_by (has_url p.url) out ≡ true)

-- Payloads are looked for at every mirror in the configured order, and at the primary source's URL
-- in any case: as the last one, or where a mirror has that URL, and then only there.
pub payload_sources_lem :
    (host : Host) (c : Config) (repo : Bytes) (kind : RepoKind) (primary : Source)
    (mirrors : List Source)
    → Ensures
        (IsPayloadSources host c repo kind primary mirrors)
        (payload_sources host c repo kind primary mirrors)
unfolding payload_sources has_url
payload_sources_lem host c repo kind primary mirrors =
    go (effective host c repo kind source_primary 0 primary) refl
      (effective_mirrors host c repo kind 0 mirrors)
      (effective_mirrors-IsMirrors host c repo kind 0 mirrors)
  where
    finish :
        (p : EffectiveSource) (es : List EffectiveSource) (b : Bool)
        → effective host c repo kind source_primary 0 primary ≡ ok p
        → IsMirrors host c repo kind 0 mirrors es
        → any_by (has_url p.url) es ≡ b
        → IsPayloadSources host c repo kind primary mirrors (if b then es else es ++ (p ∷ []))
    finish p es true same h e = (p, es, same, h, inl (e, refl), e)
    finish p es false same h e = (
      p,
      es,
      same,
      h,
      inr (e, refl),
      rw (any_by-append (has_url p.url) es (p ∷ []), e, =ˢ_refl p.url) refl,
    )

    go :
        (r : Result String EffectiveSource)
        → effective host c repo kind source_primary 0 primary ≡ r
        → (m : Result String (List EffectiveSource))
        → Ensures (IsMirrors host c repo kind 0 mirrors) m
        → Ensures
            (IsPayloadSources host c repo kind primary mirrors)
            (r >>= λ p. m >>= λ es. ok (if any_by (has_url p.url) es then es else es ++ (p ∷ [])))
    go (ok p) same (ok es) h = finish p es (any_by (has_url p.url) es) same h refl
    go (ok p) same (err x) h = tt
    go (err x) same m h = tt
