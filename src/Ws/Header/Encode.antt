-- ===== src/Ws/Header/Encode.antt =====
-- What `wsEncodeHeader` writes, and that the server's own parser reads it back.
use ws_server.Base.{
  ℕ, ◌%◌, ◌^◌, ◌≤◌, ◌<◌, ◌≡◌, refl, ap, sym, false, List, [], ◌++◌, ◌∙◌, leb, length, arith,
  if◌then◌else◌,
}
use ws_server.Ws.Header.{FrameHdr, ok, parse_header, is_reserved, be_bytes, encode_header}
use ws_server.Ws.Header.Layout.{len_bytes, header_bytes, IsFrameHdr, opcode_mask, fin_set}
use ws_server.Ws.Header.RoundTrip.{parse_header-header_bytes}

-- The header that the server means: final, not masked.
abbrev pub server_header : ℕ → ℕ → FrameHdr
server_header opcode len = record {
  fin = 1;
  opcode = opcode;
  masked = 0;
  payload_len = len;
  mask_key = [];
  header_len = if leb len 125 then 2 else if leb len 0xFFFF then 4 else 10;
}

pub encode_header-header_bytes :
    (opcode len : ℕ)
    → opcode < 16
    → encode_header opcode len ≡ header_bytes (server_header opcode len)
unfolding encode_header header_bytes len_bytes be_bytes
encode_header-header_bytes opcode len h =
    rw (opcode_mask opcode (omega arith))
      (let e : opcode % 16 ≡ opcode = omega arith in rw (e, fin_set opcode h) (ground arith))

pub length-encode_header :
    (opcode len : ℕ)
    → length (encode_header opcode len)
      ≡ (if leb len 125 then 2 else if leb len 0xFFFF then 4 else 10)
unfolding encode_header be_bytes
length-encode_header opcode len = ground arith

server_header-IsFrameHdr :
    (opcode len : ℕ)
    → opcode < 16
    → is_reserved opcode ≡ false
    → len < 2 ^ 63
    → (8 ≤ opcode → len ≤ 125)
    → IsFrameHdr (server_header opcode len)
server_header-IsFrameHdr opcode len h known big control = record {
  fin_bit = omega arith;
  masked_bit = omega arith;
  opcode_range = h;
  known = known;
  len_range = big;
  control = λ c. (refl, control c);
  key_len = refl;
  whole =
      sym (length-encode_header opcode len) ∙ ap length (encode_header-header_bytes opcode len h);
}

-- The parser reads back what `wsEncodeHeader` writes, for a known 4-bit opcode, a length below
-- 2 ^ 63, and at most 125 in a control frame, and stops right behind it.
pub parse_header-encode_header :
    (opcode len : ℕ) (rest : List ℕ)
    → opcode < 16
    → is_reserved opcode ≡ false
    → len < 2 ^ 63
    → (8 ≤ opcode → len ≤ 125)
    → parse_header (encode_header opcode len ++ rest) ≡ ok (server_header opcode len)
parse_header-encode_header opcode len rest h known big control =
    rw (encode_header-header_bytes opcode len h) (
      parse_header-header_bytes (server_header opcode len) rest
        (server_header-IsFrameHdr opcode len h known big control))
