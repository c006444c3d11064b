-- ===== src/Options.antt =====
-- src/options.c: the command line. A text is the list of the codes of its characters. The library's
-- `strtol` (the value, and how many characters it has read), `atoi` and `realloc` are parameters, and
-- so is what `getopt_long` finds: a list of options, each with its argument.
pub mod Sound
pub mod Url
mod Examples
use ws_server.Base.{
  ℕ, zero, suc, ◌+◌, ◌-◌, ◌*◌, ◌%◌, ◌^◌, Bool, true, false, not, ◌&&◌, ◌||◌, Option, none, some,
  List, [], ◌∷◌, ◌++◌, if◌then◌else◌, ltb, leb, ◌==◌, length, get_or,
}

-- `negsuc n` is -(n + 1).
pub data ℤ : Type 0 where
  pos : ℕ → ℤ
  negsuc : ℕ → ℤ

-- `UpstreamConfig_t`; the texts without the zero at their end.
pub record UpstreamConfig : Type 0 where
  pub host : List ℕ
  pub port : ℕ
  pub path : List ℕ

-- The part of `ServerConfig_t` that the command line sets; `upstreamCount` is the length of
-- `upstreams`.
pub record ServerConfig : Type 0 where
  pub port : ℕ
  pub workers : ℕ
  pub listeners : ℕ
  pub sink_path : List ℕ
  pub handshake_max : ℕ
  pub max_frame : ℕ
  pub max_message : ℕ
  pub high_watermark : ℕ
  pub low_watermark : ℕ
  pub tick_ms : ℤ
  pub upstreams : List UpstreamConfig
  pub upstream_capacity : ℕ

-- The constants of inc/server.h.
abbrev pub max_workers : ℕ
max_workers = 64

abbrev pub max_listeners : ℕ
max_listeners = 16

abbrev pub upstream_host_max : ℕ
upstream_host_max = 256

abbrev pub upstream_path_max : ℕ
upstream_path_max = 512

-- sizeof(UpstreamConfig_t).
abbrev pub upstream_size : ℕ
upstream_size = 772

-- "/feed"
abbrev pub default_sink_path : List ℕ
default_sink_path = b'/' ∷ b'f' ∷ b'e' ∷ b'e' ∷ b'd' ∷ []

-- "ws://"
abbrev pub url_prefix : List ℕ
url_prefix = b'w' ∷ b's' ∷ b':' ∷ b'/' ∷ b'/' ∷ []

unfoldable pub defaults : ServerConfig
defaults = record {
  port = 33333;
  workers = 8;
  listeners = 2;
  sink_path = default_sink_path;
  handshake_max = 8192;
  max_frame = 65536;
  max_message = 4194304;
  high_watermark = 256;
  low_watermark = 128;
  tick_ms = pos 1000;
  upstreams = [];
  upstream_capacity = 0;
}

-- `strncmp(text, prefix, strlen(prefix)) == 0`: what follows the prefix.
unfoldable pub after_prefix : List ℕ → List ℕ → Option (List ℕ)
after_prefix [] text = some text
after_prefix (c ∷ prefix) [] = none
after_prefix (c ∷ prefix) (d ∷ text) =
    let rest = after_prefix prefix text in if c == d then rest else none

abbrev pub put_front : ℕ → Option (List ℕ × List ℕ) → Option (List ℕ × List ℕ)
put_front x none = none
put_front x (some (front, back)) = some (x ∷ front, back)

-- `strchr` and `memchr`: what stands in front of the first `c` and behind it.
unfoldable pub split_first : ℕ → List ℕ → Option (List ℕ × List ℕ)
split_first c [] = none
split_first c (x ∷ text) =
    let rest = split_first c text in if x == c then some ([], text) else put_front x rest

abbrev pub or_here : Bool → List ℕ → Option (List ℕ × List ℕ) → Option (List ℕ × List ℕ)
or_here true text none = some ([], text)
or_here false text none = none
or_here b text (some split) = some split

-- The loop that keeps the last `c`.
unfoldable pub split_last : ℕ → List ℕ → Option (List ℕ × List ℕ)
split_last c [] = none
split_last c (x ∷ text) = or_here (x == c) text (put_front x (split_last c text))

-- The authority, and the path with its slash.
unfoldable pub split_path : List ℕ → List ℕ × List ℕ
unfolding split_first
split_path p = elim (split_first b'/' p) [
  | none ↦ (p, b'/' ∷ [])
  | some (authority, path) ↦ (authority, b'/' ∷ path)
]

-- The port behind a closing bracket, which needs a colon and something after the bracket.
unfoldable pub after_bracket : List ℕ → Option (List ℕ)
after_bracket [] = none
after_bracket (c ∷ port) = if c == b':' then some port else none

-- The host and the text of the port.
unfoldable pub split_authority : List ℕ → Option (List ℕ × List ℕ)
unfolding split_first split_last after_bracket
split_authority [] = split_last b':' []
split_authority (c ∷ text) =
    if c == b'['
    then elim (split_first b']' text) [
      | none ↦ none
      | some (host, rest) ↦ elim (after_bracket rest) [
        | none ↦ none
        | some port ↦ some (host, port)
      ]
    ]
    else split_last b':' (c ∷ text)

-- A number that `strtol` reads to the end of the text, if it is at least 1.
unfoldable pub parse_positive : (List ℕ → ℤ × ℕ) → List ℕ → Option ℕ
parse_positive strtol text =
    let (v, used) = strtol text in
    if (used == 0) || not (used == length text)
    then none
    else elim v [ negsuc n ↦ none | pos n ↦ if n == 0 then none else some n ]

-- Whether a number lies between 1 and `most`.
unfoldable pub up_to : ℕ → ℤ → Option ℕ
up_to most (negsuc n) = none
up_to most (pos n) = if ltb n 1 || ltb most n then none else some n

unfoldable pub parse_port : (List ℕ → ℤ × ℕ) → List ℕ → Option ℕ
unfolding up_to
parse_port strtol text =
    let (v, used) = strtol text in
    if (used == 0) || not (used == length text) then none else up_to 65535 v

-- The capacity afterwards; `none` is -1.
unfoldable pub ensure_upstream_capacity : (ℕ → Bool) → ServerConfig → Option ServerConfig
ensure_upstream_capacity realloc conf =
    let larger = if conf.upstream_capacity == 0 then 4 else conf.upstream_capacity * 2 % 2 ^ 64 in
    if ltb (length conf.upstreams) conf.upstream_capacity
    then some conf
    else if realloc (larger * upstream_size % 2 ^ 64)
    then some (record conf { upstream_capacity = larger })
    else none

-- The checks of `addUpstreamUrl` on the lengths and the port.
unfoldable pub check_upstream : (List ℕ → ℤ × ℕ) → List ℕ → List ℕ → List ℕ → Option UpstreamConfig
unfolding parse_port
check_upstream strtol host port_text path =
    if (length host == 0) || leb upstream_host_max (length host)
    then none
    else if (length port_text == 0) || leb 16 (length port_text)
    then none
    else elim (parse_port strtol port_text) [
      | none ↦ none
      | some n ↦
          if leb upstream_path_max (length path)
          then none
          else some (record { host = host; port = n; path = path })
    ]

-- What `addUpstreamUrl` reads from the text behind the prefix.
unfoldable pub parse_upstream : (List ℕ → ℤ × ℕ) → List ℕ → Option UpstreamConfig
unfolding split_path split_authority check_upstream
parse_upstream strtol p = elim (split_authority (split_path p).0) [
  | none ↦ none
  | some (host, port_text) ↦ check_upstream strtol host port_text (split_path p).1
]

-- `none` is -1, where the configuration stays as it was.
unfoldable pub add_upstream_url :
    (List ℕ → ℤ × ℕ) → (ℕ → Bool) → ServerConfig → List ℕ → Option ServerConfig
unfolding after_prefix parse_upstream ensure_upstream_capacity
add_upstream_url strtol realloc conf url = elim (after_prefix url_prefix url) [
  | none ↦ none
  | some p ↦ if length p == 0 then none else elim (parse_upstream strtol p) [
    | none ↦ none
    | some u ↦ elim (ensure_upstream_capacity realloc conf) [
      | none ↦ none
      | some roomy ↦ some (record roomy { upstreams = roomy.upstreams ++ u ∷ [] })
    ]
  ]
]

-- What `getopt_long` finds.
pub data Opt : Type 0 where
  opt_port opt_workers opt_listeners opt_sink_path opt_hwm opt_lwm opt_max_frame : List ℕ → Opt
  opt_max_message opt_tick opt_upstream : List ℕ → Opt
  opt_help opt_other : Opt

-- The conversion of a `long` that is positive to `int`.
unfoldable pub to_int : ℕ → ℤ
to_int n = let low = n % 2 ^ 32 in if ltb low (2 ^ 31) then pos low else negsuc (2 ^ 32 - 1 - low)

-- The returns of `parseArgs`: 0, with the configuration; -1; and 1.
pub data Parsed : Type 0 where
  ready : ServerConfig → Parsed
  failed helped : Parsed

abbrev pub with_value : Option ℕ → (ℕ → ServerConfig) → Parsed
with_value none set = failed
with_value (some n) set = ready (set n)

module _ (strtol : List ℕ → ℤ × ℕ) (atoi : List ℕ → ℤ) (realloc : ℕ → Bool) where
  -- One round of the loop; `ready` goes on.
  unfoldable pub apply_option : ServerConfig → Opt → Parsed
  unfolding up_to parse_positive add_upstream_url to_int
  apply_option conf (opt_port arg) =
      with_value (up_to 65535 (atoi arg)) (λ n. record conf { port = n })
  apply_option conf (opt_workers arg) =
      with_value (up_to max_workers (atoi arg)) (λ n. record conf { workers = n })
  apply_option conf (opt_listeners arg) =
      with_value (up_to max_listeners (atoi arg)) (λ n. record conf { listeners = n })
  apply_option conf (opt_sink_path arg) =
      if get_or arg 0 0 == b'/' then ready (record conf { sink_path = arg }) else failed
  apply_option conf (opt_hwm arg) =
      with_value (parse_positive strtol arg) (λ n. record conf { high_watermark = n })
  apply_option conf (opt_lwm arg) =
      with_value (parse_positive strtol arg) (λ n. record conf { low_watermark = n })
  apply_option conf (opt_max_frame arg) =
      with_value (parse_positive strtol arg) (λ n. record conf { max_frame = n })
  apply_option conf (opt_max_message arg) =
      with_value (parse_positive strtol arg) (λ n. record conf { max_message = n })
  apply_option conf (opt_tick arg) =
      with_value (parse_positive strtol arg) (λ n. record conf { tick_ms = to_int n })
  apply_option conf (opt_upstream arg) = elim (add_upstream_url strtol realloc conf arg) [
    | none ↦ failed
    | some conf' ↦ ready conf'
  ]
  apply_option conf opt_help = helped
  apply_option conf opt_other = failed

  unfoldable pub apply_options : ServerConfig → List Opt → Parsed
  apply_options conf [] = if leb conf.high_watermark conf.low_watermark then failed else ready conf
  apply_options conf (o ∷ opts) = elim (apply_option conf o) [
    | failed ↦ failed
    | helped ↦ helped
    | ready conf' ↦ apply_options conf' opts
  ]

  unfoldable pub parse_args : List Opt → Parsed
  unfolding defaults apply_option apply_options
  parse_args opts = apply_options defaults opts
