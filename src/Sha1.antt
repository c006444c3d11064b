-- ===== src/Sha1.antt =====
-- src/sha1.c: SHA-1, fed in chunks. A word is a number below 2 ^ 32.
pub mod Stream
pub mod Examples
use ws_server.Base.{
  ℕ, zero, suc, ◌+◌, ◌-◌, ◌*◌, ◌/◌, ◌%◌, ◌^◌, min, bit_and, bit_or, bit_xor, ◌≡◌, refl, Bool, true,
  false, List, [], ◌∷◌, ◌++◌, if◌then◌else◌, ltb, leb, ◌==◌, length, take, drop, get_or,
}

unfoldable pub rotl32 : ℕ → ℕ → ℕ
rotl32 x n = bit_or (x * 2 ^ n % 2 ^ 32) (x / 2 ^ (32 - n))

-- The five words `h`, and those that the rounds turn.
pub record Words : Type 0 where
  pub a : ℕ
  pub b : ℕ
  pub c : ℕ
  pub d : ℕ
  pub e : ℕ

-- `Sha1_t`; `buf` are the `bufLen` bytes that wait for a whole block.
pub record Sha1 : Type 0 where
  pub h : Words
  pub total_len : ℕ
  pub buf : List ℕ

abbrev pub sha1_init : Sha1
sha1_init = record {
  h = record {
    a = 0x6745_2301;
    b = 0xEFCD_AB89;
    c = 0x98BA_DCFE;
    d = 0x1032_5476;
    e = 0xC3D2_E1F0;
  };
  total_len = 0;
  buf = [];
}

-- The first sixteen words, from the bytes of a block.
unfoldable pub block_words : List ℕ → List ℕ
block_words (x ∷ y ∷ z ∷ t ∷ rest) =
    bit_or (bit_or (bit_or (x * 2 ^ 24) (y * 2 ^ 16)) (z * 2 ^ 8)) t ∷ block_words rest
block_words _ = []

-- The loop for the words behind `w`, so many more.
unfoldable pub schedule : ℕ → List ℕ → List ℕ
schedule zero w = w
schedule (suc more) w =
    let i = length w in
    let x =
      bit_xor (bit_xor (bit_xor (get_or w (i - 3) 0) (get_or w (i - 8) 0)) (get_or w (i - 14) 0))
        (get_or w (i - 16) 0) in
    schedule more (w ++ rotl32 x 1 ∷ [])

unfoldable pub not32 : ℕ → ℕ
not32 x = 2 ^ 32 - 1 - x

-- `f` and `k` of round `i`.
unfoldable pub round_f : ℕ → Words → ℕ
round_f i s =
    if ltb i 20
    then bit_or (bit_and s.b s.c) (bit_and (not32 s.b) s.d)
    else if ltb i 40
    then bit_xor (bit_xor s.b s.c) s.d
    else if ltb i 60
    then bit_or (bit_or (bit_and s.b s.c) (bit_and s.b s.d)) (bit_and s.c s.d)
    else bit_xor (bit_xor s.b s.c) s.d

unfoldable pub round_k : ℕ → ℕ
round_k i =
    if ltb i 20
    then 0x5A82_7999
    else if ltb i 40
    then 0x6ED9_EBA1
    else if ltb i 60
    then 0x8F1B_BCDC
    else 0xCA62_C1D6

unfoldable pub round : ℕ → ℕ → Words → Words
round i w s = record {
  a = (rotl32 s.a 5 + round_f i s + s.e + round_k i + w) % 2 ^ 32;
  b = s.a;
  c = rotl32 s.b 30;
  d = s.c;
  e = s.d;
}

-- The rounds from `i` on, one for each word.
unfoldable pub rounds : ℕ → List ℕ → Words → Words
rounds i [] s = s
rounds i (w ∷ ws) s = rounds (i + 1) ws (round i w s)

unfoldable pub add_words : Words → Words → Words
add_words h s = record {
  a = (h.a + s.a) % 2 ^ 32;
  b = (h.b + s.b) % 2 ^ 32;
  c = (h.c + s.c) % 2 ^ 32;
  d = (h.d + s.d) % 2 ^ 32;
  e = (h.e + s.e) % 2 ^ 32;
}

unfoldable pub sha1_block : Words → List ℕ → Words
sha1_block h block = add_words h (rounds 0 (schedule 64 (block_words block)) h)

-- `while (n >= 64)`; the bytes that are left come back.
unfoldable pub absorb : ℕ → Words → List ℕ → Words × List ℕ
absorb zero h p = (h, p)
absorb (suc fuel) h p =
    let rest = absorb fuel (sha1_block h (take 64 p)) (drop 64 p) in
    if leb 64 (length p) then rest else (h, p)

-- The loop with a call for every byte, and what is kept.
unfoldable pub absorb_rest : Words → List ℕ → ℕ → List ℕ → Sha1
absorb_rest h p total kept =
    let (h', left) = absorb (length p) h p in
    record { h = h'; total_len = total; buf = if ltb 0 (length left) then left else kept }

unfoldable pub sha1_update : Sha1 → List ℕ → Sha1
sha1_update c data' =
    let total = (c.total_len + length data') % 2 ^ 64 in
    let k = min (length data') (64 - length c.buf) in
    let filled = c.buf ++ take k data' in
    if ltb 0 (length c.buf)
    then (if length filled == 64
        then absorb_rest (sha1_block c.h filled) (drop k data') total []
        else absorb_rest c.h (drop k data') total filled)
    else absorb_rest c.h data' total c.buf

unfoldable pub zeroes : ℕ → List ℕ
zeroes zero = []
zeroes (suc n) = 0 ∷ zeroes n

unfoldable pub be_word : ℕ → List ℕ
be_word w = (w / 2 ^ 24 % 256) ∷ (w / 2 ^ 16 % 256) ∷ (w / 2 ^ 8 % 256) ∷ (w % 256) ∷ []

-- `bitLen`, eight bytes, the highest first.
unfoldable pub be_length : ℕ → List ℕ
be_length bits = be_word (bits / 2 ^ 32) ++ be_word (bits % 2 ^ 32)

unfoldable pub sha1_final : Sha1 → List ℕ
sha1_final c =
    let bits = c.total_len * 8 % 2 ^ 64 in
    let marked = c.buf ++ 0x80 ∷ [] in
    let h =
      if ltb 56 (length marked)
      then sha1_block (sha1_block c.h (marked ++ zeroes (64 - length marked)))
          (zeroes 56 ++ be_length bits)
      else sha1_block c.h (marked ++ (zeroes (56 - length marked) ++ be_length bits)) in
    be_word h.a ++ (be_word h.b ++ (be_word h.c ++ (be_word h.d ++ be_word h.e)))

unfoldable pub sha1 : List ℕ → List ℕ
sha1 data' = sha1_final (sha1_update sha1_init data')

-- Every digest has twenty bytes.
pub length-sha1 : (data' : List ℕ) → length (sha1 data') ≡ 20
unfolding sha1 be_word sha1_final
length-sha1 data' = refl
