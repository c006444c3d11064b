-- ===== src/Options/Examples.antt =====
-- Command lines for src/options.c, with a `strtol` that reads digits.
use ws_server.Base.{
  ℕ, ◌-◌, ◌<◌, ◌≡◌, refl, sym, ap, ◌∙◌, true, some, List, [], ◌∷◌, append-nil, arith, length,
}
use ws_server.Agg.Json.{digits_onto, decimal}
use ws_server.Agg.Json.Decode.{number}
use ws_server.Agg.Json.RoundTrip.{read_decimal}
use ws_server.Options.{
  ℤ, pos, ServerConfig, defaults, ensure_upstream_capacity, add_upstream_url, Opt, opt_port,
  opt_hwm, opt_lwm, opt_tick, ready, failed, parse_args,
}
use ws_server.Options.Sound.{Bounded, parse_args-Bounded}
use ws_server.Options.Url.{url_text, path_read, ReadsDecimal, add_upstream_url-url_text}

strtol : List ℕ → ℤ × ℕ
strtol text = let (n, rest) = number 0 text in (pos n, length text - length rest)

strtol-ReadsDecimal : ReadsDecimal strtol
unfolding strtol number
strtol-ReadsDecimal n h =
    let read : number 0 (decimal n) ≡ (n, []) =
      ap (number 0) (sym (append-nil (decimal n))) ∙ read_decimal n [] (omega arith) in
    ap (λ (r : ℕ × List ℕ). (pos r.0, length (decimal n) - length r.1)) read
    ∙ ap (λ k. (pos n, k)) (let e : length (decimal n) - 0 ≡ length (decimal n) = omega arith in e)

abbrev atoi : List ℕ → ℤ
atoi text = (strtol text).0

-- "::1"
abbrev loopback : List ℕ
loopback = b':' ∷ b':' ∷ b'1' ∷ []

-- "/feed" without its slash
abbrev feed : List ℕ
feed = b'f' ∷ b'e' ∷ b'e' ∷ b'd' ∷ []

abbrev roomy : ServerConfig
unfolding defaults
roomy = record defaults { upstream_capacity = 4 }

add_upstream_url-url_text_example :
    add_upstream_url strtol (λ _. true) defaults (url_text true loopback 33335 (some feed))
    ≡ some (record roomy {
      upstreams = record { host = loopback; port = 33335; path = path_read (some feed) } ∷ [];
    })
unfolding defaults ensure_upstream_capacity
add_upstream_url-url_text_example =
    add_upstream_url-url_text strtol (λ _. true) defaults roomy true loopback 33335 (some feed)
      strtol-ReadsDecimal ((refl, (refl, (refl, tt))), (refl, (refl, (refl, tt)))) (omega arith)
      (omega arith) (omega arith) refl

-- `-p 8080 --lwm 3 --hwm 9`
abbrev line : List Opt
line = opt_port (decimal 8080) ∷ opt_lwm (decimal 3) ∷ opt_hwm (decimal 9) ∷ []

abbrev accepted : ServerConfig
unfolding defaults
accepted = record defaults { port = 8080; low_watermark = 3; high_watermark = 9 }

line-ready : parse_args strtol atoi (λ _. true) line ≡ ready accepted
unfolding parse_args strtol decimal digits_onto number
line-ready = refl

parse_args-Bounded_example : Bounded accepted × (3 < 9)
unfolding defaults
parse_args-Bounded_example =
    parse_args-Bounded strtol atoi (λ _. true) line accepted (omega arith) line-ready

-- The watermarks are compared once all options are read.
crossed_marks :
    parse_args strtol atoi (λ _. true) (opt_lwm (decimal 9) ∷ opt_hwm (decimal 9) ∷ []) ≡ failed
unfolding parse_args strtol decimal digits_onto number
crossed_marks = refl

-- `--tick 4294967297` is taken for a tick of 1 ms.
long_tick :
    parse_args strtol atoi (λ _. true) (opt_tick (decimal 4294967297) ∷ [])
    ≡ ready (record defaults { tick_ms = pos 1 })
unfolding parse_args strtol decimal digits_onto number defaults
long_tick = refl
