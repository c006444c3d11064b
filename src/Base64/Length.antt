-- ===== src/Base64/Length.antt =====
-- What src/base64.c encodes has the length that it announces, and passes the checks of its decoder.
use ws_server.Base.{
  ℕ, zero, suc, ◌+◌, ◌-◌, ◌*◌, ◌/◌, ◌%◌, ◌≤◌, ◌<◌, ◌≡◌, refl, ap, ◌∙◌, bit_or, ◌^◌, true, false,
  some, List, [], ◌∷◌, ◌++◌, ◌==◌, length, take, drop, get_or, get_or-append, get_or-append_behind,
  take-append, drop-append, length-append, All, arith,
}
use ws_server.Base.Bits.{IsByte}
use ws_server.Base64.{
  pad_char, decode_char, sextet, base64_encode, is_sextet, all_sextets, all_pads, count_pads,
  checked_len, base64_decode, encoded_len, decode_groups,
}
use ws_server.Base64.RoundTrip.{decode-sextet, sextet_passes, decode_groups-base64_encode}

pads : ℕ → List ℕ
pads zero = []
pads (suc k) = pad_char ∷ pads k

length-pads : (k : ℕ) → length (pads k) ≡ k
unfolding pads
length-pads zero = refl
length-pads (suc k) = ap suc (length-pads k)

all_pads-pads : (k : ℕ) → all_pads (pads k) ≡ true
unfolding pads all_pads
all_pads-pads zero = refl
all_pads-pads (suc k) = all_pads-pads k

-- An encoding: characters of six bits each, and the pads behind them.
record IsCoded (l : ℕ) (s : List ℕ) : Type 0 where
  body : List ℕ
  tail : ℕ
  whole : s ≡ body ++ pads tail
  good : all_sextets body ≡ true
  few : tail ≤ 2
  len : length body + tail ≡ encoded_len l
  fills : (l + tail) % 3 ≡ 0

passes : (v s : ℕ) → is_sextet (decode_char (sextet v s)) ≡ true
passes v s = sextet_passes (sextet v s) (omega (arith, decode-sextet v s))

base64_encode-IsCoded : (xs : List ℕ) → IsCoded (length xs) (base64_encode xs)
unfolding base64_encode all_sextets pads encoded_len
base64_encode-IsCoded [] = record {
  body = [];
  tail = 0;
  whole = refl;
  good = refl;
  few = omega arith;
  len = omega arith;
  fills = omega arith;
}
base64_encode-IsCoded (a ∷ []) =
    let v = a * 2 ^ 16 in
    record {
      body = sextet v 18 ∷ sextet v 12 ∷ [];
      tail = 2;
      whole = refl;
      good = rw (passes v 18, passes v 12) refl;
      few = omega arith;
      len = omega arith;
      fills = omega arith;
    }
base64_encode-IsCoded (a ∷ b ∷ []) =
    let v = bit_or (a * 2 ^ 16) (b * 2 ^ 8) in
    record {
      body = sextet v 18 ∷ sextet v 12 ∷ sextet v 6 ∷ [];
      tail = 1;
      whole = refl;
      good = rw (passes v 18, passes v 12, passes v 6) refl;
      few = omega arith;
      len = omega arith;
      fills = omega arith;
    }
base64_encode-IsCoded (a ∷ b ∷ c ∷ xs) =
    let v = bit_or (bit_or (a * 2 ^ 16) (b * 2 ^ 8)) c in
    let r = base64_encode-IsCoded xs in
    record {
      body = sextet v 18 ∷ sextet v 12 ∷ sextet v 6 ∷ sextet v 0 ∷ r.body;
      tail = r.tail;
      whole = ap (λ (t : List ℕ). sextet v 18 ∷ sextet v 12 ∷ sextet v 6 ∷ sextet v 0 ∷ t) r.whole;
      good = rw (passes v 18, passes v 12, passes v 6, passes v 0) r.good;
      few = r.few;
      len = omega (arith, r.len);
      fills = omega (arith, r.fills);
    }

-- The number of characters is the one that the buffer is sized by.
pub length-base64_encode : (xs : List ℕ) → length (base64_encode xs) ≡ encoded_len (length xs)
length-base64_encode xs =
    let r = base64_encode-IsCoded xs in
    omega (arith, ap length r.whole, length-append r.body (pads r.tail), length-pads r.tail, r.len)

not_pad :
    (d : List ℕ) (i : ℕ) → all_sextets d ≡ true → i < length d → (get_or d i 0 == pad_char) ≡ false
unfolding all_sextets is_sextet decode_char
not_pad [] i good h = ground arith
not_pad (c ∷ d) zero good h = ground arith
not_pad (c ∷ d) (suc i) good h = not_pad d i (ground arith) (omega arith)

-- `checkedLen` looks at the last two characters, and finds the pads that are there.
count_pads-pads :
    (d : List ℕ) (k : ℕ)
    → all_sextets d ≡ true
    → 0 < length d
    → k ≤ 2
    → count_pads (d ++ pads k) ≡ k
unfolding count_pads pads
count_pads-pads d zero good pos few =
    let n = length-append d [] in
    let m = length (d ++ []) in
    let last : get_or (d ++ []) (m - 1) 0 ≡ get_or d (m - 1) 0 =
      get_or-append d [] (m - 1) 0 (omega arith) in
    rw (last, not_pad d (m - 1) good (omega arith)) refl
count_pads-pads d (suc zero) good pos few =
    let p = pad_char ∷ [] in
    let n = length-append d p in
    let m = length (d ++ p) in
    let last : get_or (d ++ p) (m - 1) 0 ≡ pad_char =
      get_or-append_behind d p 0 (m - 1) 0 (omega arith) in
    let before : get_or (d ++ p) (m - 2) 0 ≡ get_or d (m - 2) 0 =
      get_or-append d p (m - 2) 0 (omega arith) in
    rw (last, before, not_pad d (m - 2) good (omega arith)) refl
count_pads-pads d (suc (suc zero)) good pos few =
    let p = pad_char ∷ pad_char ∷ [] in
    let n = length-append d p in
    let m = length (d ++ p) in
    let last : get_or (d ++ p) (m - 1) 0 ≡ pad_char =
      get_or-append_behind d p 1 (m - 1) 0 (omega arith) in
    let before : get_or (d ++ p) (m - 2) 0 ≡ pad_char =
      get_or-append_behind d p 0 (m - 2) 0 (omega arith) in
    rw (last, before) refl
count_pads-pads d (suc (suc (suc k))) good pos few = absurd (omega arith)

checked_len-IsCoded :
    (l : ℕ) (s : List ℕ)
    → 0 < l
    → IsCoded l s
    → checked_len s ≡ some (l, length s - (length s - count_pads s))
unfolding checked_len encoded_len
checked_len-IsCoded l s pos r =
    let t = r.body ++ pads r.tail in
    let n : length t ≡ length r.body + r.tail =
      omega (arith, length-append r.body (pads r.tail), length-pads r.tail) in
    let body : 0 < length r.body = omega (arith, r.len, r.few, r.fills) in
    let count : count_pads t ≡ r.tail = count_pads-pads r.body r.tail r.good body r.few in
    let front : take (length t - r.tail) t ≡ r.body =
      take-append (length t - r.tail) r.body (pads r.tail) (omega arith) in
    let back : drop (length t - r.tail) t ≡ pads r.tail =
      drop-append (length t - r.tail) r.body (pads r.tail) (omega arith) in
    let e1 : (length t == 0) ≡ false = ground arith in
    let e2 : (length t % 4 == 0) ≡ true = ground (arith, r.len) in
    let e3 : length t / 4 * 3 - r.tail ≡ l = omega (arith, r.len, r.few, r.fills) in
    let e4 : length t - (length t - r.tail) ≡ r.tail = omega arith in
    rw (r.whole, count, e1, e2, front, back, r.good, all_pads-pads r.tail, e3, e4) refl

decode_checked :
    (s : List ℕ) (l pad : ℕ)
    → checked_len s ≡ some (l, pad)
    → base64_decode s ≡ some (l, decode_groups s)
unfolding base64_decode
decode_checked s l pad e = rw (e, base64_decode) refl

-- Decoding what was encoded from bytes gives the bytes back, and their number.
pub base64_decode-base64_encode :
    (xs : List ℕ) → All IsByte xs → base64_decode (base64_encode xs) ≡ some (length xs, xs)
base64_decode-base64_encode [] h =
    unfold base64_decode base64_encode checked_len decode_groups in refl
base64_decode-base64_encode (x ∷ xs) h =
    let s = base64_encode (x ∷ xs) in
    let l = length (x ∷ xs) in
    decode_checked s l _ (checked_len-IsCoded l s (omega arith) (base64_encode-IsCoded (x ∷ xs)))
    ∙ ap (λ (t : List ℕ). some (l, t)) (decode_groups-base64_encode (x ∷ xs) h)
