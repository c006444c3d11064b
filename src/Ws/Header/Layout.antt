-- ===== src/Ws/Header/Layout.antt =====
-- The layout of a frame header (RFC 6455, 5.2), independent of the code of src/ws.c, and the masks
-- of that code as arithmetic.
use ws_server.Base.{
  ℕ, zero, suc, ◌+◌, ◌*◌, ◌/◌, ◌%◌, ◌^◌, ◌≤◌, ◌<◌, bit_and, bit_or, ◌≡◌, refl, ap, sym, ◌∙◌, false,
  List, [], ◌∷◌, ◌++◌, if◌then◌else◌, leb, length, arith,
}
use ws_server.Base.Bits.{agree_below, agree_below-eq, bit_or_shift}
use mathlib.Core.List.{foldl}
use native.Mathlib.Nat.{div-div-eq-div-mul, one-le-pow}
use native.Mathlib.Numerals.{towards_suc}
use ws_server.Ws.Header.{FrameHdr, is_reserved, shift_in, be_bytes}

-- The second byte and the extended length, with `mask` the mask bit in place.
unfoldable pub len_bytes : ℕ → ℕ → List ℕ
len_bytes mask len =
    if leb len 125
    then (mask + len) ∷ []
    else if leb len 0xFFFF
    then (mask + 126) ∷ (len / 256) ∷ (len % 256) ∷ []
    else (mask + 127) ∷ be_bytes 8 len

unfoldable pub header_bytes : FrameHdr → List ℕ
unfolding len_bytes
header_bytes h = (h.fin * 128 + h.opcode) ∷ (len_bytes (h.masked * 128) h.payload_len ++ h.mask_key)

-- What the RFC asks of a header when no extension is in use.
pub record IsFrameHdr (h : FrameHdr) : Type 0 where
  pub fin_bit : h.fin < 2
  pub masked_bit : h.masked < 2
  pub opcode_range : h.opcode < 16
  pub known : is_reserved h.opcode ≡ false
  pub len_range : h.payload_len < 2 ^ 63
  pub control : 8 ≤ h.opcode → (h.fin ≡ 1) × (h.payload_len ≤ 125)
  pub key_len : length h.mask_key ≡ 4 * h.masked
  pub whole : h.header_len ≡ length (header_bytes h)

pub rsv_mask : (b : ℕ) → b < 256 → bit_and b 0x70 ≡ b / 16 % 8 * 16
unfolding agree_below
rsv_mask = agree_below-eq (λ b. bit_and b 0x70) (λ b. b / 16 % 8 * 16) 256 refl

pub opcode_mask : (b : ℕ) → b < 256 → bit_and b 0x0F ≡ b % 16
unfolding agree_below
opcode_mask = agree_below-eq (λ b. bit_and b 0x0F) (λ b. b % 16) 256 refl

pub len_mask : (b : ℕ) → b < 256 → bit_and b 0x7F ≡ b % 128
unfolding agree_below
len_mask = agree_below-eq (λ b. bit_and b 0x7F) (λ b. b % 128) 256 refl

pub control_mask : (b : ℕ) → b < 16 → bit_and b 0x8 ≡ b / 8 * 8
unfolding agree_below
control_mask = agree_below-eq (λ b. bit_and b 0x8) (λ b. b / 8 * 8) 16 refl

pub fin_set : (b : ℕ) → b < 16 → bit_or 0x80 b ≡ 128 + b
unfolding agree_below
fin_set = agree_below-eq (λ b. bit_or 0x80 b) (λ b. 128 + b) 16 refl

pub shift_in_lem : (len b : ℕ) → len < 2 ^ 56 → b < 256 → shift_in len b ≡ len * 256 + b
unfolding shift_in
shift_in_lem len b h hb =
    let e : len * 2 ^ 8 % 2 ^ 64 ≡ len * 2 ^ 8 = omega arith in rw e (bit_or_shift 8 len b hb)

pub length-be_bytes : (i len : ℕ) → length (be_bytes i len) ≡ i
unfolding be_bytes
length-be_bytes zero len = refl
length-be_bytes (suc i) len = ap suc (length-be_bytes i len)

pub pow_byte : (i : ℕ) → 2 ^ (8 * suc i) ≡ 2 ^ (8 * i) * 256
pow_byte i = let e : 8 * suc i ≡ 8 * i + 8 = omega arith in rw e (simp towards_suc (omega arith))

top_byte : (i len : ℕ) → suc i ≤ 8 → len < 2 ^ 64 → len / 2 ^ (8 * suc i) < 2 ^ 56
top_byte i len hi h = grind (arith, one-le-pow (8 * i) 2, pow_byte i)

-- Reading back the bytes of a 64-bit number, highest first.
read_be :
    (i len : ℕ) → i ≤ 8 → len < 2 ^ 64 → foldl shift_in (len / 2 ^ (8 * i)) (be_bytes i len) ≡ len
unfolding be_bytes
read_be zero len hi h = omega arith
read_be (suc i) len hi h =
    let p = 2 ^ (8 * i) in
    let q : 2 ^ (8 * suc i) ≡ p * 256 = pow_byte i in
    let cut : len / 2 ^ (8 * suc i) ≡ len / p / 256 =
      ap (λ (t : ℕ). len / t) q ∙ sym (div-div-eq-div-mul len p 256) in
    let top : len / 2 ^ (8 * suc i) < 2 ^ 56 = top_byte i len hi h in
    let e : shift_in (len / 2 ^ (8 * suc i)) (len / p % 256) ≡ len / p =
      omega (arith, shift_in_lem (len / 2 ^ (8 * suc i)) (len / p % 256) top (omega arith), cut) in
    ap (λ (t : ℕ). foldl shift_in t (be_bytes i len)) e ∙ read_be i len (omega arith) h

pub read_be_eight : (len : ℕ) → len < 2 ^ 64 → foldl shift_in 0 (be_bytes 8 len) ≡ len
read_be_eight len h =
    let e : len / 2 ^ 64 ≡ 0 = omega arith in rw e at (read_be 8 len (omega arith) h)
