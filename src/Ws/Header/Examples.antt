-- ===== src/Ws/Header/Examples.antt =====
-- Runs of the header parser of src/ws.c, and its theorems at concrete headers.
use ws_server.Base.{ℕ, ◌≡◌, ◌≢◌, refl, List, [], ◌∷◌, ◌++◌, arith}
use ws_server.Ws.Header.{
  FrameHdr, need_more, ok, err_proto, parse_header, is_reserved, read_length, read_mask,
}
use ws_server.Ws.Header.Stable.{parse_header-append}

-- A masked text frame of two bytes.
abbrev text_hdr : FrameHdr
text_hdr = record {
  fin = 1;
  opcode = 1;
  masked = 1;
  payload_len = 2;
  mask_key = 1 ∷ 2 ∷ 3 ∷ 4 ∷ [];
  header_len = 6;
}

abbrev text_frame : List ℕ
text_frame = 0x81 ∷ 0x82 ∷ 1 ∷ 2 ∷ 3 ∷ 4 ∷ 0x49 ∷ 0x6B ∷ []

parses : parse_header text_frame ≡ ok text_hdr
unfolding parse_header is_reserved read_length read_mask
parses = refl

padded_length_refused : parse_header (0x82 ∷ 126 ∷ 0 ∷ 125 ∷ []) ≡ err_proto
unfolding parse_header is_reserved read_length
padded_length_refused = refl

-- A binary frame of 300 bytes, not masked.
abbrev long_hdr : FrameHdr
long_hdr = record {
  fin = 0;
  opcode = 2;
  masked = 0;
  payload_len = 300;
  mask_key = [];
  header_len = 4;
}

is_complete : parse_header text_frame ≢ need_more
is_complete e = ground (arith, parses)

parse_header-append_example : parse_header (text_frame ++ 0 ∷ []) ≡ parse_header text_frame
parse_header-append_example = parse_header-append text_frame (0 ∷ []) is_complete
