-- ===== src/Ws/Header/Sound.antt =====
-- What a successful parse says of the bytes: the header is well formed and in its only encoding.
use ws_server.Base.{
  ℕ, ◌+◌, ◌*◌, ◌/◌, ◌%◌, ◌^◌, ◌≤◌, ◌<◌, bit_and, ◌≡◌, false, not, List, ◌∷◌, ltb, ◌==◌, length,
  take, ◌||◌, ◌&&◌,
}
use mathlib.Core.List.{foldl}
use ws_server.Ws.Header.{FrameHdr, ok, shift_in, read_length, read_mask, is_reserved}
use ws_server.Ws.Header.Layout.{len_bytes, header_bytes, IsFrameHdr}

-- What a length that was read says of the bytes: the form is the shortest one.
abbrev Shortest : ℕ → ℕ → List ℕ → ℕ × ℕ → Type 0
Shortest b0 b1 r (len, need) =
    (len < 2 ^ 63)
    × (need ≤ length r + 2)
    × (take need (b0 ∷ b1 ∷ r) ≡ b0 ∷ len_bytes (b1 / 128 * 128) len)

module _ (b0 b1 : ℕ) (hb : b1 < 256) where
  abbrev ext : List ℕ → ℕ
  ext r = foldl shift_in 0 (take 8 r)

-- How a parse that succeeds went.
module _ (b0 b1 : ℕ) (r : List ℕ) (h : FrameHdr) where
  abbrev b : List ℕ
  b = b0 ∷ b1 ∷ r

  abbrev masked_bits : ℕ
  masked_bits = bit_and (b1 / 2 ^ 7) 1

  abbrev Went : ℕ × ℕ → List ℕ × ℕ → Type 0
  Went p q =
      (read_length b (bit_and b1 0x7F) ≡ ok p)
      × (read_mask b masked_bits p.1 ≡ ok q)
      × (not (bit_and b0 0x70 == 0) ≡ false)
      × (is_reserved (bit_and b0 0x0F) ≡ false)
      × ((not (bit_and (bit_and b0 0x0F) 0x8 == 0) && (bit_and (b0 / 2 ^ 7) 1 == 0 || ltb 125 p.0))
          ≡ false)
      × (h ≡ record {
        fin = bit_and (b0 / 2 ^ 7) 1;
        opcode = bit_and b0 0x0F;
        masked = masked_bits;
        payload_len = p.0;
        mask_key = q.0;
        header_len = q.1;
      })

module _ (b0 b1 : ℕ) (r key : List ℕ) (len need n : ℕ) (h0 : b0 < 256) (h1 : b1 < 256) where
  abbrev fields : FrameHdr
  fields = record {
    fin = b0 / 128;
    opcode = b0 % 16;
    masked = b1 / 128;
    payload_len = len;
    mask_key = key;
    header_len = n;
  }

  abbrev Sound : FrameHdr → Type 0
  Sound h =
      IsFrameHdr h
      × (h.header_len ≤ length (b0 ∷ b1 ∷ r))
      × (take h.header_len (b0 ∷ b1 ∷ r) ≡ header_bytes h)
