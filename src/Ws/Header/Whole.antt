-- ===== src/Ws/Header/Whole.antt =====
-- Bytes that hold no whole frame at their front, by the layout of RFC 6455, 5.2.
use ws_server.Base.{
  ℕ, ◌+◌, ◌<◌, ◌≡◌, refl, ap, sym, ◌∙◌, List, [], ◌∷◌, ◌++◌, length, length-append, arith,
}
use ws_server.Ws.Header.{FrameHdr, ok, need_more, parse_header}
use ws_server.Ws.Header.Layout.{header_bytes, IsFrameHdr}
use ws_server.Ws.Header.RoundTrip.{parse_header-header_bytes}

-- However the bytes are read as a well-formed header and what is behind it, a part of the payload is
-- missing.
pub LacksFrame : List ℕ → Type 0
LacksFrame b =
    (h : FrameHdr) (rest : List ℕ)
    → IsFrameHdr h
    → b ≡ header_bytes h ++ rest
    → length rest < h.payload_len

pub need_more-LacksFrame : (b : List ℕ) → parse_header b ≡ need_more → LacksFrame b
unfolding LacksFrame
need_more-LacksFrame b e h rest v is =
    let read : need_more ≡ ok h = sym e ∙ ap parse_header is ∙ parse_header-header_bytes h rest v in
    absurd cc

pub part-LacksFrame :
    (b : List ℕ) (h : FrameHdr)
    → parse_header b ≡ ok h
    → length b < h.header_len + h.payload_len
    → LacksFrame b
unfolding LacksFrame
part-LacksFrame b h e short k rest v is =
    let read : ok h ≡ ok k = sym e ∙ ap parse_header is ∙ parse_header-header_bytes k rest v in
    let same : h ≡ k = cc in
    let lens : (h.header_len ≡ k.header_len) × (h.payload_len ≡ k.payload_len) =
      (ap (λ (x : FrameHdr). x.header_len) same, ap (λ (x : FrameHdr). x.payload_len) same) in
    omega (arith, lens.0, lens.1, v.whole, ap length is, length-append (header_bytes k) rest)

pub empty-LacksFrame : (b : List ℕ) → length b ≡ 0 → LacksFrame b
unfolding parse_header
empty-LacksFrame [] e = need_more-LacksFrame [] refl
empty-LacksFrame (x ∷ b) e = absurd (omega arith)
