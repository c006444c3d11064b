-- ===== src/Ws/Header/RoundTrip.antt =====
-- Parsing and printing of frame headers.
use ws_server.Base.{
  ℕ, zero, suc, ◌+◌, ◌*◌, ◌/◌, ◌%◌, ◌^◌, ◌<◌, bit_and, ◌≡◌, refl, ap, sym, false, not, List, [],
  ◌∷◌, ◌++◌, if◌then◌else◌, ltb, leb, ◌==◌, length, take-append, drop-append, length-append,
  append_assoc, le→ltb, Bool-cases, inl, inr, arith, ◌||◌, ◌&&◌,
}
use ws_server.Base.Bits.{bit_or_shift, bit_and_one, bit_and_top}
use ws_server.Ws.Header.{FrameHdr, ok, byte_at, read_length, read_mask, parse_header, be_bytes}
use ws_server.Ws.Header.Layout.{
  len_bytes, header_bytes, IsFrameHdr, rsv_mask, opcode_mask, len_mask, control_mask, read_be_eight,
}

-- The 7-bit field that `len_bytes` writes, and the number of header bytes before the key.
abbrev len7 : ℕ → ℕ
len7 len = if leb len 125 then len else if leb len 0xFFFF then 126 else 127

abbrev need_of : ℕ → ℕ
need_of len = if leb len 125 then 2 else if leb len 0xFFFF then 4 else 10

read_length-len_bytes :
    (b0 mask len : ℕ) (rest : List ℕ)
    → len < 2 ^ 63
    → read_length (b0 ∷ (len_bytes mask len ++ rest)) (len7 len) ≡ ok (len, need_of len)
unfolding read_length len_bytes be_bytes
read_length-len_bytes b0 mask len rest h = elim (Bool-cases (leb len 125)) [
  | inl small ↦ rw small (ground arith)
  | inr big ↦ rw big (elim (Bool-cases (leb len 0xFFFF)) [
    | inl mid ↦ rw mid (ground (arith, bit_or_shift 8 (len / 256) (len % 256)))
    | inr large ↦
        rw (large, read_be_eight len (omega arith))
          (ground (arith, (bit_and_top 63 len (omega arith)).1 h))
  ])
]

length-len_bytes : (mask len : ℕ) → length (len_bytes mask len) + 1 ≡ need_of len
unfolding len_bytes be_bytes
length-len_bytes mask len = ground arith

-- The second byte holds the mask bit and the 7-bit field.
second_byte :
    (b0 m len : ℕ) (rest : List ℕ)
    → byte_at (b0 ∷ (len_bytes (m * 128) len ++ rest)) 1 ≡ m * 128 + len7 len
unfolding len_bytes
second_byte b0 m len rest = ground arith

read_mask-key :
    (front key rest : List ℕ) (n m : ℕ)
    → length front ≡ n
    → m < 2
    → length key ≡ 4 * m
    → read_mask (front ++ (key ++ rest)) m n ≡ ok (key, n + 4 * m)
unfolding read_mask
read_mask-key front [] rest n zero hn hm hk = ground arith
read_mask-key front (k ∷ key) rest n zero hn hm hk = absurd (omega arith)
read_mask-key front key rest n (suc zero) hn hm hk =
    rw
      (
        drop-append n front (key ++ rest) hn,
        take-append 4 key rest (omega arith),
        le→ltb (length (front ++ (key ++ rest))) (n + 4)
            (omega (arith, length-append front (key ++ rest), length-append key rest)),
      )
      refl
read_mask-key front key rest n (suc (suc m)) hn hm hk = absurd (omega arith)

first_byte :
    (fin op : ℕ)
    → fin < 2
    → op < 16
    → (bit_and (fin * 128 + op) 0x70 ≡ 0)
      × (bit_and ((fin * 128 + op) / 2 ^ 7) 1 ≡ fin)
      × (bit_and (fin * 128 + op) 0x0F ≡ op)
first_byte fin op hf ho = (
  omega (arith, rsv_mask (fin * 128 + op) (omega arith)),
  omega (arith, bit_and_one ((fin * 128 + op) / 2 ^ 7)),
  omega (arith, opcode_mask (fin * 128 + op) (omega arith)),
)

mask_byte :
    (m len : ℕ)
    → m < 2
    → (bit_and ((m * 128 + len7 len) / 2 ^ 7) 1 ≡ m)
      × (bit_and (m * 128 + len7 len) 0x7F ≡ len7 len)
mask_byte m len hm = (
  ground (arith, bit_and_one ((m * 128 + len7 len) / 2 ^ 7)),
  ground (arith, len_mask (m * 128 + len7 len)),
)

control_passes :
    (h : FrameHdr)
    → IsFrameHdr h
    → (not (bit_and h.opcode 0x8 == 0) && (h.fin == 0 || ltb 125 h.payload_len)) ≡ false
control_passes h v = ground (arith, control_mask h.opcode v.opcode_range, v.control)

length-header_bytes :
    (h : FrameHdr) → IsFrameHdr h → h.header_len ≡ need_of h.payload_len + 4 * h.masked
unfolding header_bytes
length-header_bytes h v = omega (
  arith,
  v.whole,
  length-append (len_bytes (h.masked * 128) h.payload_len) h.mask_key,
  length-len_bytes (h.masked * 128) h.payload_len,
)

pub parse_header-header_bytes :
    (h : FrameHdr) (rest : List ℕ) → IsFrameHdr h → parse_header (header_bytes h ++ rest) ≡ ok h
unfolding parse_header header_bytes
parse_header-header_bytes h rest v =
    let b1 = h.masked * 128 + len7 h.payload_len in
    let (rsv, fin, op) = first_byte h.fin h.opcode v.fin_bit v.opcode_range in
    let (mask, seven) = mask_byte h.masked h.payload_len v.masked_bit in
    rw
      (
        append_assoc (len_bytes (h.masked * 128) h.payload_len) h.mask_key rest,
        second_byte (h.fin * 128 + h.opcode) h.masked h.payload_len (h.mask_key ++ rest),
        rsv,
        fin,
        op,
        mask,
        seven,
        v.known,
        read_length-len_bytes (h.fin * 128 + h.opcode) (h.masked * 128) h.payload_len
            (h.mask_key ++ rest) v.len_range,
        read_mask-key ((h.fin * 128 + h.opcode) ∷ len_bytes (h.masked * 128) h.payload_len)
            h.mask_key rest (need_of h.payload_len) h.masked
            (omega (arith, length-len_bytes (h.masked * 128) h.payload_len)) v.masked_bit v.key_len,
        le→ltb (suc (length (len_bytes (h.masked * 128) h.payload_len ++ (h.mask_key ++ rest)))) 2 (
            ground (
              arith,
              length-len_bytes (h.masked * 128) h.payload_len,
              length-append (len_bytes (h.masked * 128) h.payload_len) (h.mask_key ++ rest),
            )),
        control_passes h v,
      )
      (ap ok (ap (λ (n : ℕ). record h { header_len = n }) (sym (length-header_bytes h v))))
