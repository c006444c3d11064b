-- ===== src/Ws/Header/Short.antt =====
-- The least that a header takes.
use ws_server.Base.{
  ◌/◌, ◌^◌, bit_and, not, ◌&&◌, ◌||◌, ◌==◌, ℕ, ◌≤◌, ◌≡◌, List, length, ltb, arith, refl,
}
use ws_server.Ws.Header.{
  FrameHdr, WsRc, ok, need_more, err_proto, reject, byte_at, ◌>>◌, ◌>>=◌, read_length, read_mask,
  parse_header,
}

read_length-least : (b : List ℕ) (len ext n : ℕ) → read_length b len ≡ ok (ext, n) → 2 ≤ n
unfolding read_length
read_length-least b len ext n e = ground arith

read_mask-least :
    (b : List ℕ) (masked need n : ℕ) (key : List ℕ)
    → read_mask b masked need ≡ ok (key, n)
    → need ≤ n
unfolding read_mask
read_mask-least b masked need n key e = ground arith

pub parse_header-least :
    (b : List ℕ) (h : FrameHdr) → parse_header b ≡ ok h → (2 ≤ h.header_len) × (2 ≤ length b)
unfolding parse_header
parse_header-least b h e = at_length (read_length b seven) refl (checked e)
  where
    seven : ℕ
    seven = bit_and (byte_at b 1) 0x7F

    header : ℕ → List ℕ → ℕ → FrameHdr
    header len key n = record {
      fin = bit_and (byte_at b 0 / 2 ^ 7) 1;
      opcode = bit_and (byte_at b 0) 0x0F;
      masked = bit_and (byte_at b 1 / 2 ^ 7) 1;
      payload_len = len;
      mask_key = key;
      header_len = n;
    }

    last : ℕ → List ℕ × ℕ → WsRc FrameHdr
    last len (key, n) = do
      reject (
          not (bit_and (bit_and (byte_at b 0) 0x0F) 0x8 == 0)
          && (bit_and (byte_at b 0 / 2 ^ 7) 1 == 0 || ltb 125 len))
      ok (header len key n)

    rest : ℕ × ℕ → WsRc FrameHdr
    rest (len, need) = read_mask b (bit_and (byte_at b 1 / 2 ^ 7) 1) need >>= last len

    checked : parse_header b ≡ ok h → ((read_length b seven >>= rest) ≡ ok h) × (2 ≤ length b)
    checked e = ground arith

    at_mask :
        (len need : ℕ) (m : WsRc (List ℕ × ℕ))
        → read_mask b (bit_and (byte_at b 1 / 2 ^ 7) 1) need ≡ m
        → 2 ≤ need
        → (m >>= last len) ≡ ok h
        → 2 ≤ h.header_len
    at_mask len need need_more l two e = ground arith
    at_mask len need (ok (key, n)) l two e =
        let more = read_mask-least b (bit_and (byte_at b 1 / 2 ^ 7) 1) need n key l in ground arith
    at_mask len need err_proto l two e = ground arith

    at_length :
        (m : WsRc (ℕ × ℕ))
        → read_length b seven ≡ m
        → ((m >>= rest) ≡ ok h) × (2 ≤ length b)
        → (2 ≤ h.header_len) × (2 ≤ length b)
    at_length need_more l (e, two) = ground arith
    at_length (ok (len, need)) l (e, two) =
        (at_mask len need _ refl (read_length-least b seven len need l) e, two)
    at_length err_proto l (e, two) = ground arith
