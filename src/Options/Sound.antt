-- ===== src/Options/Sound.antt =====
-- What `parseArgs` of src/options.c accepts keeps the bounds that the program relies on, but for the
-- interval of the tick, which has none.
use ws_server.Base.{
  ℕ, ◌+◌, ◌*◌, ◌^◌, ◌≤◌, ◌<◌, ◌≡◌, ◌∙◌, refl, Bool, Option, none, some, List, [], ◌∷◌, ◌++◌, arith,
  leb, ◌==◌, length, length-append, get_or, All, All-append, Option-cases, Bool-cases, inl, inr,
}
use ws_server.Options.{
  ℤ, pos, negsuc, UpstreamConfig, ServerConfig, max_workers, max_listeners, upstream_host_max,
  upstream_path_max, url_prefix, defaults, after_prefix, split_path, split_authority,
  parse_positive, up_to, parse_port, ensure_upstream_capacity, check_upstream, parse_upstream,
  add_upstream_url, Opt, opt_port, opt_workers, opt_listeners, opt_sink_path, opt_hwm, opt_lwm,
  opt_max_frame, opt_max_message, opt_tick, opt_upstream, opt_help, opt_other, to_int, Parsed,
  ready, failed, helped, with_value, apply_option, apply_options, parse_args,
}

-- An upstream fits the arrays of `UpstreamConfig_t` with a zero behind it, has a port, and a path
-- from the root.
pub record Fits (u : UpstreamConfig) : Type 0 where
  pub host : (0 < length u.host) × (length u.host < upstream_host_max)
  pub port : (1 ≤ u.port) × (u.port ≤ 65535)
  pub path : (length u.path < upstream_path_max) × (get_or u.path 0 0 ≡ b'/')

-- The bounds of the options; the interval of the tick is a positive `long` that is cut down to an `int`,
-- of any value and sign.
pub record Bounded (c : ServerConfig) : Type 0 where
  pub port : (1 ≤ c.port) × (c.port ≤ 65535)
  pub workers : (1 ≤ c.workers) × (c.workers ≤ max_workers)
  pub listeners : (1 ≤ c.listeners) × (c.listeners ≤ max_listeners)
  pub sink_path : get_or c.sink_path 0 0 ≡ b'/'
  pub handshake_max : c.handshake_max ≡ 8192
  pub limits : (1 ≤ c.max_frame) × (1 ≤ c.max_message)
  pub marks : (1 ≤ c.high_watermark) × (1 ≤ c.low_watermark)
  pub upstreams : All Fits c.upstreams
  pub room : length c.upstreams ≤ c.upstream_capacity
  pub growth : c.upstream_capacity ≤ 4 + 2 * length c.upstreams

up_to-le : (most n : ℕ) (v : ℤ) → up_to most v ≡ some n → (1 ≤ n) × (n ≤ most)
unfolding up_to
up_to-le most n (negsuc k) e = ground arith
up_to-le most n (pos k) e = ground arith

parse_positive_lem :
    (strtol : List ℕ → ℤ × ℕ) (text : List ℕ) (n : ℕ) → parse_positive strtol text ≡ some n → 1 ≤ n
unfolding parse_positive
parse_positive_lem strtol text n e = ground arith

parse_port_lem :
    (strtol : List ℕ → ℤ × ℕ) (text : List ℕ) (n : ℕ)
    → parse_port strtol text ≡ some n
    → (1 ≤ n) × (n ≤ 65535)
unfolding parse_port
parse_port_lem strtol text n e = ground (arith, up_to-le 65535 n (strtol text).0)

split_path_slash : (p : List ℕ) → get_or (split_path p).1 0 0 ≡ b'/'
unfolding split_path
split_path_slash p = ground arith

check_upstream-Fits :
    (strtol : List ℕ → ℤ × ℕ) (host port_text path : List ℕ) (u : UpstreamConfig)
    → get_or path 0 0 ≡ b'/'
    → check_upstream strtol host port_text path ≡ some u
    → Fits u
unfolding check_upstream
check_upstream-Fits strtol host port_text path u slash e =
    elim (Option-cases (parse_port strtol port_text)) [
      | inl bad ↦ absurd (ground arith)
      | inr (n, good) ↦
          let range = parse_port_lem strtol port_text n good in
          let is : u ≡ record { host = host; port = n; path = path } = ground arith in
          rw is (record { host = ground arith; port = range; path = (ground arith, slash) })
    ]

parse_upstream-Fits :
    (strtol : List ℕ → ℤ × ℕ) (p : List ℕ) (u : UpstreamConfig)
    → parse_upstream strtol p ≡ some u
    → Fits u
unfolding parse_upstream
parse_upstream-Fits strtol p u e = elim (Option-cases (split_authority (split_path p).0)) [
  | inl bad ↦ absurd (ground arith)
  | inr ((host, port_text), good) ↦
      check_upstream-Fits strtol host port_text (split_path p).1 u (split_path_slash p)
        (ground arith)
]

-- There is room for one more after `ensureUpstreamCapacity`, and nothing else is changed.
ensure_upstream_capacity_lem :
    (realloc : ℕ → Bool) (c d : ServerConfig)
    → Bounded c
    → length c.upstreams < 2 ^ 60
    → ensure_upstream_capacity realloc c ≡ some d
    → (length c.upstreams < d.upstream_capacity)
      × (d.upstream_capacity ≤ 4 + 2 * length c.upstreams)
      × (d ≡ record c { upstream_capacity = d.upstream_capacity })
unfolding ensure_upstream_capacity
ensure_upstream_capacity_lem realloc c d v few e =
    let room = v.room in let growth = v.growth in ground arith

-- One more upstream that fits.
one_more-Bounded :
    (c : ServerConfig) (capacity : ℕ) (u : UpstreamConfig)
    → Bounded c
    → Fits u
    → length c.upstreams < capacity
    → capacity ≤ 4 + 2 * length c.upstreams
    → Bounded (record c { upstream_capacity = capacity; upstreams = c.upstreams ++ u ∷ [] })
one_more-Bounded c capacity u v fits room growth = record {
  port = v.port;
  workers = v.workers;
  listeners = v.listeners;
  sink_path = v.sink_path;
  handshake_max = v.handshake_max;
  limits = v.limits;
  marks = v.marks;
  upstreams = All-append Fits c.upstreams (u ∷ []) v.upstreams (fits, tt);
  room = omega (arith, length-append c.upstreams (u ∷ []));
  growth = omega (arith, length-append c.upstreams (u ∷ []));
}

add_upstream_url-Bounded :
    (strtol : List ℕ → ℤ × ℕ) (realloc : ℕ → Bool) (c d : ServerConfig) (url : List ℕ)
    → Bounded c
    → length c.upstreams < 2 ^ 60
    → add_upstream_url strtol realloc c url ≡ some d
    → Bounded d × (length d.upstreams ≡ length c.upstreams + 1)
unfolding add_upstream_url
add_upstream_url-Bounded strtol realloc c d url v few e =
    elim (Option-cases (after_prefix url_prefix url)) [
      | inl bad ↦ absurd (ground arith)
      | inr (p, behind) ↦ elim (Option-cases (parse_upstream strtol p)) [
        | inl bad ↦ absurd (ground arith)
        | inr (u, parsed) ↦ elim (Option-cases (ensure_upstream_capacity realloc c)) [
          | inl bad ↦ absurd (ground arith)
          | inr (roomy, made) ↦
              let (room, growth, same) = ensure_upstream_capacity_lem realloc c roomy v few made in
              let is : d ≡ record c {
                upstream_capacity = roomy.upstream_capacity;
                upstreams = c.upstreams ++ u ∷ [];
              } =
                ground arith in
              rw is (
                one_more-Bounded c roomy.upstream_capacity u v
                    (parse_upstream-Fits strtol p u parsed) room growth,
                length-append c.upstreams (u ∷ []) ∙ omega arith,
              )
        ]
      ]
    ]

defaults-Bounded : Bounded defaults
unfolding defaults
defaults-Bounded = record {
  port = omega arith;
  workers = omega arith;
  listeners = omega arith;
  sink_path = refl;
  handshake_max = refl;
  limits = omega arith;
  marks = omega arith;
  upstreams = tt;
  room = omega arith;
  growth = omega arith;
}

next_ready :
    (p : Parsed) (d : ServerConfig) (rest : ServerConfig → Parsed)
    → (elim p as (λ _. Parsed) [ failed ↦ failed | helped ↦ helped | ready c ↦ rest c ]) ≡ ready d
    → (c : ServerConfig) × (p ≡ ready c) × (rest c ≡ ready d)
next_ready failed d rest e = absurd (ground arith)
next_ready helped d rest e = absurd (ground arith)
next_ready (ready c) d rest e = (c, refl, e)

with_value-ready :
    (o : Option ℕ) (set : ℕ → ServerConfig) (d : ServerConfig)
    → with_value o set ≡ ready d
    → (n : ℕ) × (o ≡ some n) × (d ≡ set n)
with_value-ready none set d e = absurd (ground arith)
with_value-ready (some n) set d e = (n, refl, ground arith)

module _ (strtol : List ℕ → ℤ × ℕ) (atoi : List ℕ → ℤ) (realloc : ℕ → Bool) where
  -- An option that is accepted keeps the bounds, and adds one upstream at most.
  apply_option-Bounded :
      (c d : ServerConfig) (o : Opt)
      → Bounded c
      → length c.upstreams < 2 ^ 60
      → apply_option strtol atoi realloc c o ≡ ready d
      → Bounded d × (length d.upstreams ≤ length c.upstreams + 1)
  unfolding apply_option
  apply_option-Bounded c d (opt_port arg) v few e =
      let (n, good, is) =
        with_value-ready (up_to 65535 (atoi arg)) (λ n. record c { port = n }) d e in
      let range = up_to-le 65535 n (atoi arg) good in rw is (ground arith)
  apply_option-Bounded c d (opt_workers arg) v few e =
      let (n, good, is) =
        with_value-ready (up_to max_workers (atoi arg)) (λ n. record c { workers = n }) d e in
      let range = up_to-le max_workers n (atoi arg) good in rw is (ground arith)
  apply_option-Bounded c d (opt_listeners arg) v few e =
      let (n, good, is) =
        with_value-ready (up_to max_listeners (atoi arg)) (λ n. record c { listeners = n }) d e in
      let range = up_to-le max_listeners n (atoi arg) good in rw is (ground arith)
  apply_option-Bounded c d (opt_hwm arg) v few e =
      let (n, good, is) =
        with_value-ready (parse_positive strtol arg) (λ n. record c { high_watermark = n }) d e in
      let range = parse_positive_lem strtol arg n good in rw is (ground arith)
  apply_option-Bounded c d (opt_lwm arg) v few e =
      let (n, good, is) =
        with_value-ready (parse_positive strtol arg) (λ n. record c { low_watermark = n }) d e in
      let range = parse_positive_lem strtol arg n good in rw is (ground arith)
  apply_option-Bounded c d (opt_max_frame arg) v few e =
      let (n, good, is) =
        with_value-ready (parse_positive strtol arg) (λ n. record c { max_frame = n }) d e in
      let range = parse_positive_lem strtol arg n good in rw is (ground arith)
  apply_option-Bounded c d (opt_max_message arg) v few e =
      let (n, good, is) =
        with_value-ready (parse_positive strtol arg) (λ n. record c { max_message = n }) d e in
      let range = parse_positive_lem strtol arg n good in rw is (ground arith)
  apply_option-Bounded c d (opt_tick arg) v few e =
      let (n, good, is) =
        with_value-ready (parse_positive strtol arg) (λ n. record c { tick_ms = to_int n }) d e in
      rw is (ground arith)
  apply_option-Bounded c d (opt_sink_path arg) v few e =
      elim (Bool-cases (get_or arg 0 0 == b'/')) [
        | inl good ↦
            let is : d ≡ record c { sink_path = arg } = ground arith in rw is (ground arith)
        | inr bad ↦ absurd (ground arith)
      ]
  apply_option-Bounded c d (opt_upstream arg) v few e =
      elim (Option-cases (add_upstream_url strtol realloc c arg)) [
        | inl bad ↦ absurd (ground arith)
        | inr (f, good) ↦
            let is : d ≡ f = ground arith in
            let (w, more) = add_upstream_url-Bounded strtol realloc c f arg v few good in
            rw is (w, omega arith)
      ]
  apply_option-Bounded c d opt_help v few e = absurd (ground arith)
  apply_option-Bounded c d opt_other v few e = absurd (ground arith)

  apply_options-Bounded :
      (c d : ServerConfig) (opts : List Opt)
      → Bounded c
      → length c.upstreams + length opts < 2 ^ 60
      → apply_options strtol atoi realloc c opts ≡ ready d
      → Bounded d × (d.low_watermark < d.high_watermark)
  unfolding apply_options
  apply_options-Bounded c d [] v few e = elim (Bool-cases (leb c.high_watermark c.low_watermark)) [
    | inl bad ↦ absurd (ground arith)
    | inr good ↦ let is : d ≡ c = ground arith in rw is (v, ground arith)
  ]
  apply_options-Bounded c d (o ∷ opts) v few e =
      let (next, good, rest) =
        next_ready (apply_option strtol atoi realloc c o) d
          (λ c'. apply_options strtol atoi realloc c' opts) e in
      let (v', more) = apply_option-Bounded c next o v (omega arith) good in
      apply_options-Bounded next d opts v' (omega arith) rest

  -- Whatever options `getopt_long` finds, fewer than 2^31 of them, as `argc` is an `int`, and
  -- whatever `strtol`, `atoi` and `realloc` return: where `parseArgs` returns 0, the port is 1 to
  -- 65535, there are 1 to 64 workers and 1 to 16 listeners, the path of the sink starts with a
  -- slash, the largest frame and message are not empty, the low watermark is positive and lies
  -- below the high one, and each upstream has a host of 1 to 255 characters, a port of 1 to 65535
  -- and a path of fewer than 512 characters that starts with a slash; the array has room for them. Of
  -- the interval of the tick nothing is stated.
  pub parse_args-Bounded :
      (opts : List Opt) (c : ServerConfig)
      → length opts < 2 ^ 31
      → parse_args strtol atoi realloc opts ≡ ready c
      → Bounded c × (c.low_watermark < c.high_watermark)
  unfolding parse_args
  parse_args-Bounded opts c few e =
      apply_options-Bounded defaults c opts defaults-Bounded (omega arith) e
