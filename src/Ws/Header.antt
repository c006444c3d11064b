-- ===== src/Ws/Header.antt =====
-- `WsFrameHdr_t`, `wsParseHeader` and `wsEncodeHeader` of src/ws.c.
pub mod Layout
pub mod RoundTrip
pub mod Whole
pub mod Sound
pub mod Stable
pub mod Short
pub mod Examples
pub mod Encode
use ws_server.Base.{
  ℕ, zero, suc, ◌+◌, ◌*◌, ◌/◌, ◌%◌, ◌^◌, bit_and, bit_or, Bool, ◌&&◌, ◌||◌, not, List, [], ◌∷◌,
  if◌then◌else◌, ltb, leb, ◌==◌, length, get_or, take, drop,
}
use mathlib.Core.List.{foldl}

pub record FrameHdr : Type 0 where
  pub fin : ℕ
  pub opcode : ℕ
  pub masked : ℕ
  pub payload_len : ℕ
  pub mask_key : List ℕ
  pub header_len : ℕ

-- `WsRc_t`, with what the function writes on `WS_OK`.
pub data WsRc {ℓ} (A : Type ℓ) : Type ℓ where
  need_more : WsRc A
  ok : A → WsRc A
  err_proto : WsRc A

infixl 5 ◌>>=◌ ◌>>◌
abbrev pub ◌>>=◌ {ℓ κ} : {A : Type ℓ} {B : Type κ} → WsRc A → (A → WsRc B) → WsRc B
need_more >>= f = need_more
ok a >>= f = f a
err_proto >>= f = err_proto

abbrev pub ◌>>◌ {ℓ} : {B : Type ℓ} → WsRc (Unit {0}) → WsRc B → WsRc B
m >> k = m >>= λ _. k

-- `if (avail < need) return WS_NEED_MORE;`
abbrev pub require : List ℕ → ℕ → WsRc (Unit {0})
require b need = if ltb (length b) need then need_more else ok tt

-- `if (c) return WS_ERR_PROTO;`
abbrev pub reject : Bool → WsRc (Unit {0})
reject c = if c then err_proto else ok tt

abbrev pub byte_at : List ℕ → ℕ → ℕ
byte_at b i = get_or b i 0

-- `len = (len << 8) | b` on 64 bits.
pub shift_in : ℕ → ℕ → ℕ
shift_in len b = bit_or (len * 2 ^ 8 % 2 ^ 64) b

-- The length and the number of header bytes so far, from the 7-bit length `len`.
pub read_length : List ℕ → ℕ → WsRc (ℕ × ℕ)
read_length b len =
    if len == 126
    then (do
      require b 4
      let ext = bit_or (byte_at b 2 * 2 ^ 8) (byte_at b 3)
      reject (ltb ext 126)
      ok (ext, 4))
    else if len == 127
    then (do
      require b 10
      let ext = foldl shift_in 0 (take 8 (drop 2 b))
      reject (not (bit_and ext (2 ^ 63) == 0))
      reject (leb ext 0xFFFF)
      ok (ext, 10))
    else ok (len, 2)

-- The masking key, copied from the four bytes behind the length.
pub read_mask : List ℕ → ℕ → ℕ → WsRc (List ℕ × ℕ)
read_mask b masked need =
    if masked == 0
    then ok ([], need)
    else (do require b (need + 4); ok (take 4 (drop need b), need + 4))

unfoldable pub is_reserved : ℕ → Bool
is_reserved opcode = (leb 0x3 opcode && leb opcode 0x7) || leb 0xB opcode

pub parse_header : List ℕ → WsRc FrameHdr
parse_header b = do
  require b 2
  let b0 = byte_at b 0
  let b1 = byte_at b 1
  reject (not (bit_and b0 0x70 == 0))
  let fin = bit_and (b0 / 2 ^ 7) 1
  let opcode = bit_and b0 0x0F
  let masked = bit_and (b1 / 2 ^ 7) 1
  reject (is_reserved opcode)
  (len, need) ← read_length b (bit_and b1 0x7F)
  (key, header_len) ← read_mask b masked need
  reject (not (bit_and opcode 0x8 == 0) && (fin == 0 || ltb 125 len))
  ok (record {
    fin = fin;
    opcode = opcode;
    masked = masked;
    payload_len = len;
    mask_key = key;
    header_len = header_len;
  })

-- `for (int i = n - 1; i >= 0; --i) out[o++] = (uint8_t)(len >> (8 * i));`
unfoldable pub be_bytes : ℕ → ℕ → List ℕ
be_bytes zero len = []
be_bytes (suc i) len = (len / 2 ^ (8 * i) % 256) ∷ be_bytes i len

unfoldable pub encode_header : ℕ → ℕ → List ℕ
unfolding be_bytes
encode_header opcode len =
    bit_or 0x80 (bit_and opcode 0x0F)
    ∷ (if leb len 125
        then (len % 256) ∷ []
        else if leb len 0xFFFF
        then 126 ∷ (len / 2 ^ 8 % 256) ∷ (len % 256) ∷ []
        else 127 ∷ be_bytes 8 len)
