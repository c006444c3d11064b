-- ===== src/Base64/RoundTrip.antt =====
-- What src/base64.c encodes, it decodes.
use ws_server.Base.{
  ℕ, ◌+◌, ◌*◌, ◌/◌, ◌%◌, ◌^◌, ◌<◌, ◌≡◌, refl, ap, ◌∙◌, bit_and, bit_or, true, false, List, [], ◌∷◌,
  ◌++◌, ◌==◌, get_or, All, arith,
}
use ws_server.Base.Bits.{
  IsByte, agree_below, agree_below-eq, bit_or_shift, bit_and_digit, bit_and_one,
}
use ws_server.Base64.{
  enc_table, pad_char, decode_char, sextet, base64_encode, is_sextet, decode_u32, decode_group,
  decode_groups,
}

-- The mask of six bits.
six_bits : (a : ℕ) → bit_and a 0x3F ≡ a % 64
six_bits a =
    let b1 = bit_and_one (a / 2 / 2 / 2 / 2 / 2) in
    let b2 = bit_and_digit (a / 2 / 2 / 2 / 2) 3 in
    let b3 = bit_and_digit (a / 2 / 2 / 2) 7 in
    let b4 = bit_and_digit (a / 2 / 2) 15 in
    let b5 = bit_and_digit (a / 2) 31 in let b6 = bit_and_digit a 63 in omega arith

decode_table : (i : ℕ) → i < 64 → decode_u32 (get_or enc_table i 0) ≡ i
unfolding agree_below enc_table decode_u32 decode_char
decode_table = agree_below-eq (λ i. decode_u32 (get_or enc_table i 0)) (λ i. i) 64 refl

pub decode-sextet : (v s : ℕ) → decode_u32 (sextet v s) ≡ v / 2 ^ s % 64
unfolding sextet
decode-sextet v s = rw (six_bits (v / 2 ^ s)) (decode_table (v / 2 ^ s % 64) (omega arith))

pub decode-pad : decode_u32 pad_char ≡ 64
unfolding decode_u32 decode_char
decode-pad = refl

pub sextet_passes : (c : ℕ) → decode_u32 c < 64 → is_sextet (decode_char c) ≡ true
unfolding decode_u32 is_sextet
sextet_passes c h = ground arith

three :
    (a b c : ℕ)
    → b < 256
    → c < 256
    → bit_or (bit_or (a * 2 ^ 16) (b * 2 ^ 8)) c ≡ a * 65536 + b * 256 + c
three a b c hb hc =
    let inner : bit_or (a * 2 ^ 16) (b * 2 ^ 8) ≡ a * 2 ^ 16 + b * 2 ^ 8 =
      bit_or_shift 16 a (b * 2 ^ 8) (omega arith) in
    let outer : bit_or ((a * 2 ^ 8 + b) * 2 ^ 8) c ≡ (a * 2 ^ 8 + b) * 2 ^ 8 + c =
      bit_or_shift 8 (a * 2 ^ 8 + b) c (omega arith) in
    let same : bit_or (a * 2 ^ 16) (b * 2 ^ 8) ≡ (a * 2 ^ 8 + b) * 2 ^ 8 = omega arith in
    rw same (omega arith)

four :
    (c0 c1 c2 c3 : ℕ)
    → c0 < 64
    → c1 < 64
    → c2 < 64
    → c3 < 64
    → bit_or (bit_or (bit_or (c0 * 2 ^ 18 % 2 ^ 32) (c1 * 2 ^ 12 % 2 ^ 32)) (c2 * 2 ^ 6)) c3
      ≡ c0 * 262144 + c1 * 4096 + c2 * 64 + c3
four c0 c1 c2 c3 h0 h1 h2 h3 =
    let e0 : c0 * 2 ^ 18 % 2 ^ 32 ≡ c0 * 2 ^ 18 = omega arith in
    let e1 : c1 * 2 ^ 12 % 2 ^ 32 ≡ c1 * 2 ^ 12 = omega arith in
    let s1 : bit_or (c0 * 2 ^ 18) (c1 * 2 ^ 12) ≡ (c0 * 2 ^ 6 + c1) * 2 ^ 12 =
      omega (arith, bit_or_shift 18 c0 (c1 * 2 ^ 12) (omega arith)) in
    let s2 : bit_or ((c0 * 2 ^ 6 + c1) * 2 ^ 12) (c2 * 2 ^ 6)
        ≡ (c0 * 2 ^ 12 + c1 * 2 ^ 6 + c2) * 2 ^ 6 =
      omega (arith, bit_or_shift 12 (c0 * 2 ^ 6 + c1) (c2 * 2 ^ 6) (omega arith)) in
    rw (e0, e1, s1, s2) (omega (arith, bit_or_shift 6 (c0 * 2 ^ 12 + c1 * 2 ^ 6 + c2) c3 h3))

no_pad : (c : ℕ) → c < 64 → (c == 64) ≡ false
no_pad c h = ground arith

abbrev joined : ℕ → ℕ → ℕ → ℕ → ℕ
joined p q r s = p * 262144 + q * 4096 + r * 64 + s

decode_three :
    (p q r s : ℕ)
    → p < 64
    → q < 64
    → r < 64
    → s < 64
    → decode_group p q r s
      ≡ (joined p q r s / 65536 % 256) ∷ (joined p q r s / 256 % 256) ∷ (joined p q r s % 256) ∷ []
unfolding decode_group
decode_three p q r s hp hq hr hs =
    let er : bit_and r 63 ≡ r = omega (arith, six_bits r) in
    let es : bit_and s 63 ≡ s = omega (arith, six_bits s) in
    rw (er, es, four p q r s hp hq hr hs, no_pad r hr, no_pad s hs) refl

decode_two :
    (p q r : ℕ)
    → p < 64
    → q < 64
    → r < 64
    → decode_group p q r 64 ≡ (joined p q r 0 / 65536 % 256) ∷ (joined p q r 0 / 256 % 256) ∷ []
unfolding decode_group
decode_two p q r hp hq hr =
    let er : bit_and r 63 ≡ r = omega (arith, six_bits r) in
    rw (er, four p q r 0 hp hq hr (omega arith), no_pad r hr) refl

decode_one :
    (p q : ℕ) → p < 64 → q < 64 → decode_group p q 64 64 ≡ (joined p q 0 0 / 65536 % 256) ∷ []
unfolding decode_group
decode_one p q hp hq = rw (four p q 0 0 hp hq (omega arith) (omega arith)) refl

-- Six bits at a time, and together again.
rejoined :
    (v : ℕ)
    → v < 2 ^ 24
    → joined (v / 2 ^ 18 % 64) (v / 2 ^ 12 % 64) (v / 2 ^ 6 % 64) (v / 2 ^ 0 % 64) ≡ v
rejoined v h = omega arith

group_three :
    (a b c : ℕ)
    → IsByte a
    → IsByte b
    → IsByte c
    → (let v = bit_or (bit_or (a * 2 ^ 16) (b * 2 ^ 8)) c in
        decode_group
          (decode_u32 (sextet v 18))
          (decode_u32 (sextet v 12))
          (decode_u32 (sextet v 6))
          (decode_u32 (sextet v 0))
        ≡ a ∷ b ∷ c ∷ [])
group_three a b c ha hb hc =
    let v = bit_or (bit_or (a * 2 ^ 16) (b * 2 ^ 8)) c in
    let is : v ≡ a * 65536 + b * 256 + c = three a b c hb hc in
    let whole = rejoined v (omega arith) in
    let e1 : v / 65536 % 256 ≡ a = omega arith in
    let e2 : v / 256 % 256 ≡ b = omega arith in
    let e3 : v % 256 ≡ c = omega arith in
    rw (decode-sextet v 18, decode-sextet v 12, decode-sextet v 6, decode-sextet v 0)
      (decode_three (v / 2 ^ 18 % 64) (v / 2 ^ 12 % 64) (v / 2 ^ 6 % 64) (v / 2 ^ 0 % 64)
          (omega arith) (omega arith) (omega arith) (omega arith)
        ∙ rw whole (rw (e1, e2, e3) refl))

group_two :
    (a b : ℕ)
    → IsByte a
    → IsByte b
    → (let v = bit_or (a * 2 ^ 16) (b * 2 ^ 8) in
        decode_group
          (decode_u32 (sextet v 18))
          (decode_u32 (sextet v 12))
          (decode_u32 (sextet v 6))
          (decode_u32 pad_char)
        ≡ a ∷ b ∷ [])
group_two a b ha hb =
    let v = bit_or (a * 2 ^ 16) (b * 2 ^ 8) in
    let is : v ≡ a * 65536 + b * 256 = omega (arith, bit_or_shift 16 a (b * 2 ^ 8) (omega arith)) in
    let whole : joined (v / 2 ^ 18 % 64) (v / 2 ^ 12 % 64) (v / 2 ^ 6 % 64) 0 ≡ v = omega arith in
    let e1 : v / 65536 % 256 ≡ a = omega arith in
    let e2 : v / 256 % 256 ≡ b = omega arith in
    rw (decode-sextet v 18, decode-sextet v 12, decode-sextet v 6, decode-pad)
      (decode_two (v / 2 ^ 18 % 64) (v / 2 ^ 12 % 64) (v / 2 ^ 6 % 64) (omega arith) (omega arith)
          (omega arith)
        ∙ rw whole (rw (e1, e2) refl))

group_one :
    (a : ℕ)
    → IsByte a
    → (let v = a * 2 ^ 16 in
        decode_group
          (decode_u32 (sextet v 18))
          (decode_u32 (sextet v 12))
          (decode_u32 pad_char)
          (decode_u32 pad_char)
        ≡ a ∷ [])
group_one a ha =
    let v = a * 2 ^ 16 in
    let whole : joined (v / 2 ^ 18 % 64) (v / 2 ^ 12 % 64) 0 0 / 65536 % 256 ≡ a = omega arith in
    rw (decode-sextet v 18, decode-sextet v 12, decode-pad)
      (decode_one (v / 2 ^ 18 % 64) (v / 2 ^ 12 % 64) (omega arith) (omega arith) ∙ rw whole refl)

pub decode_groups-base64_encode :
    (xs : List ℕ) → All IsByte xs → decode_groups (base64_encode xs) ≡ xs
unfolding decode_groups base64_encode
decode_groups-base64_encode [] h = refl
decode_groups-base64_encode (a ∷ []) (ha, h) = ap (λ (t : List ℕ). t ++ []) (group_one a ha)
decode_groups-base64_encode (a ∷ b ∷ []) (ha, (hb, h)) =
    ap (λ (t : List ℕ). t ++ []) (group_two a b ha hb)
decode_groups-base64_encode (a ∷ b ∷ c ∷ xs) (ha, (hb, (hc, h))) =
    rw (group_three a b c ha hb hc, decode_groups-base64_encode xs h) refl
