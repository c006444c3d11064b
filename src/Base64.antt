-- ===== src/Base64.antt =====
-- src/base64.c: encoder and decoder. A character is its code.
pub mod RoundTrip
pub mod Length
pub mod Examples
use ws_server.Base.{
  ℕ, zero, suc, ◌+◌, ◌-◌, ◌*◌, ◌/◌, ◌%◌, ◌^◌, bit_and, bit_or, Bool, true, false, not, ◌&&◌, Option,
  none, some, List, [], ◌∷◌, ◌++◌, if◌then◌else◌, ltb, leb, ◌==◌, length, take, drop, get_or,
}

-- `ENC_TABLE`: the letters, the digits, `+` and `/`.
unfoldable pub enc_table : List ℕ
enc_table =
    65 ∷ 66 ∷ 67 ∷ 68 ∷ 69 ∷ 70 ∷ 71 ∷ 72 ∷ 73 ∷ 74 ∷ 75 ∷ 76 ∷ 77 ∷ 78 ∷ 79 ∷ 80 ∷ 81 ∷ 82 ∷ 83
    ∷ 84 ∷ 85 ∷ 86 ∷ 87 ∷ 88 ∷ 89 ∷ 90 ∷ 97 ∷ 98 ∷ 99 ∷ 100 ∷ 101 ∷ 102 ∷ 103 ∷ 104 ∷ 105 ∷ 106
    ∷ 107 ∷ 108 ∷ 109 ∷ 110 ∷ 111 ∷ 112 ∷ 113 ∷ 114 ∷ 115 ∷ 116 ∷ 117 ∷ 118 ∷ 119 ∷ 120 ∷ 121 ∷ 122
    ∷ 48 ∷ 49 ∷ 50 ∷ 51 ∷ 52 ∷ 53 ∷ 54 ∷ 55 ∷ 56 ∷ 57 ∷ 43 ∷ 47 ∷ []

-- The code of `=`.
abbrev pub pad_char : ℕ
pad_char = 61

-- `none` is the return of -1; `=` has the value 64.
unfoldable pub decode_char : ℕ → Option ℕ
decode_char c =
    if leb 65 c && leb c 90
    then some (c - 65)
    else if leb 97 c && leb c 122
    then some (c - 97 + 26)
    else if leb 48 c && leb c 57
    then some (c - 48 + 52)
    else if c == 43
    then some 62
    else if c == 47
    then some 63
    else if c == 61
    then some 64
    else none

unfoldable pub encoded_len : ℕ → ℕ
encoded_len n = (n + 2) / 3 * 4

-- `ENC_TABLE[(v >> s) & 0x3F]`.
unfoldable pub sextet : ℕ → ℕ → ℕ
sextet v s = get_or enc_table (bit_and (v / 2 ^ s) 0x3F) 0

-- The loop over groups of three bytes, and what is done with the one or two that remain.
unfoldable pub base64_encode : List ℕ → List ℕ
base64_encode [] = []
base64_encode (a ∷ []) = let v = a * 2 ^ 16 in sextet v 18 ∷ sextet v 12 ∷ pad_char ∷ pad_char ∷ []
base64_encode (a ∷ b ∷ []) =
    let v = bit_or (a * 2 ^ 16) (b * 2 ^ 8) in
    sextet v 18 ∷ sextet v 12 ∷ sextet v 6 ∷ pad_char ∷ []
base64_encode (a ∷ b ∷ c ∷ rest) =
    let v = bit_or (bit_or (a * 2 ^ 16) (b * 2 ^ 8)) c in
    sextet v 18 ∷ sextet v 12 ∷ sextet v 6 ∷ sextet v 0 ∷ base64_encode rest

-- Whether the first loop of `checkedLen` lets a character pass.
unfoldable pub is_sextet : Option ℕ → Bool
is_sextet none = false
is_sextet (some v) = not (v == 64)

unfoldable pub all_sextets : List ℕ → Bool
all_sextets [] = true
all_sextets (c ∷ cs) = is_sextet (decode_char c) && all_sextets cs

unfoldable pub all_pads : List ℕ → Bool
all_pads [] = true
all_pads (c ∷ cs) = (c == pad_char) && all_pads cs

-- The number of `=` at the end, two at most.
unfoldable pub count_pads : List ℕ → ℕ
count_pads s =
    let n = length s in
    if get_or s (n - 1) 0 == pad_char then if get_or s (n - 2) 0 == pad_char then 2 else 1 else 0

-- The decoded length and the number of pads; `none` is the return of -1.
unfoldable pub checked_len : List ℕ → Option (ℕ × ℕ)
checked_len s =
    let n = length s in
    let pad = count_pads s in
    if n == 0
    then some (0, 0)
    else if not (n % 4 == 0)
    then none
    else if not (all_sextets (take (n - pad) s))
    then none
    else if not (all_pads (drop (n - pad) s))
    then none
    else some (n / 4 * 3 - pad, pad)

-- `decodeChar` as the loop of `base64Decode` reads it, an `int` in 32 bits.
pub decode_u32 : ℕ → ℕ
decode_u32 c = elim (decode_char c) [ none ↦ 2 ^ 32 - 1 | some v ↦ v ]

pub decode_group : ℕ → ℕ → ℕ → ℕ → List ℕ
decode_group c0 c1 c2 c3 =
    let v =
      bit_or
        (bit_or (bit_or (c0 * 2 ^ 18 % 2 ^ 32) (c1 * 2 ^ 12 % 2 ^ 32)) (bit_and c2 0x3F * 2 ^ 6))
        (bit_and c3 0x3F) in
    (v / 2 ^ 16 % 256)
    ∷ ((if c2 == 64 then [] else (v / 2 ^ 8 % 256) ∷ [])
        ++ (if c3 == 64 then [] else (v % 256) ∷ []))

-- The loop, over groups of four.
pub decode_groups : List ℕ → List ℕ
decode_groups (c0 ∷ c1 ∷ c2 ∷ c3 ∷ rest) =
    decode_group (decode_u32 c0) (decode_u32 c1) (decode_u32 c2) (decode_u32 c3)
    ++ decode_groups rest
decode_groups _ = []

-- The returned length and the bytes written.
pub base64_decode : List ℕ → Option (ℕ × List ℕ)
base64_decode s = elim (checked_len s) [ none ↦ none | some (n, pad) ↦ some (n, decode_groups s) ]
