-- ===== src/Agg/Json/Bounds.antt =====
-- The sizes in the text of a message of src/agg.c.
use ws_server.Base.{
  ℕ, zero, suc, ◌+◌, ◌-◌, ◌*◌, ◌/◌, ◌%◌, ◌^◌, ◌≤◌, ◌<◌, ◌≡◌, refl, ap, List, [], ◌∷◌, ◌++◌, false,
  ltb, length, length-append, arith,
}
use native.Mathlib.Nat.{pow-suc}
use ws_server.Agg.Message.{Msg}
use ws_server.Agg.Json.{
  digits_onto, decimal, zeroes_onto, padded, escape_byte, json_escape_into, seq_text, t_text,
  data_text, end_text, json_head, json_cap, json_message,
}

length-digits_onto :
    (fuel k n : ℕ) (acc : List ℕ)
    → n < 10 ^ suc k
    → length (digits_onto fuel n acc) ≤ suc k + length acc
unfolding digits_onto
length-digits_onto zero k n acc h = omega arith
length-digits_onto (suc fuel) zero n acc h = ground arith
length-digits_onto (suc fuel) (suc k) n acc h = ground (
  arith,
  length-digits_onto fuel k (n / 10) ((48 + n % 10) ∷ acc) (omega (arith, pow-suc 10 (suc k))),
)

length-zeroes_onto : (n : ℕ) (t : List ℕ) → length (zeroes_onto n t) ≡ n + length t
unfolding zeroes_onto
length-zeroes_onto zero t = omega arith
length-zeroes_onto (suc n) t = omega (arith, length-zeroes_onto n t)

pub length-decimal : (k n : ℕ) → n < 10 ^ suc k → length (decimal n) ≤ suc k
unfolding decimal
length-decimal k n h = omega (arith, length-digits_onto 20 k n [] h)

pub length-padded : (n : ℕ) → n < 10 ^ 6 → length (padded 6 n) ≡ 6
unfolding padded
length-padded n h =
    omega (arith, length-decimal 5 n h, length-zeroes_onto (6 - length (decimal n)) (decimal n))

-- The payload with every byte escaped.
unfoldable pub escaped_text : List ℕ → List ℕ
escaped_text [] = []
escaped_text (c ∷ cs) = escape_byte c ++ escaped_text cs

length-escape_byte : (c : ℕ) → length (escape_byte c) ≤ 6
unfolding escape_byte
length-escape_byte c = ground arith

length-escaped_text : (cs : List ℕ) → length (escaped_text cs) ≤ length cs * 6
unfolding escaped_text
length-escaped_text [] = omega arith
length-escaped_text (c ∷ cs) = omega (
  arith,
  length-append (escape_byte c) (escaped_text cs),
  length-escape_byte c,
  length-escaped_text cs,
)

-- Six bytes of room for each byte are enough.
json_escape_into-escaped_text :
    (room : ℕ) (cs : List ℕ) → length cs * 6 ≤ room → json_escape_into room cs ≡ escaped_text cs
unfolding json_escape_into escaped_text
json_escape_into-escaped_text room [] h = refl
json_escape_into-escaped_text room (c ∷ cs) h =
    let l = length-escape_byte c in
    let e : ltb room (length (escape_byte c)) ≡ false = ground arith in
    rw e (
      ap (λ (t : List ℕ). escape_byte c ++ t)
        (json_escape_into-escaped_text (room - length (escape_byte c)) cs (omega arith)))

-- A message whose numbers are of their types, and whose buffer's size does not wrap.
pub record IsPrintable (m : Msg) (seq : ℕ) : Type 0 where
  pub src_id : m.src_id < 2 ^ 64
  pub seq_range : seq < 2 ^ 64
  pub sec : m.ts.sec < 2 ^ 63
  pub nsec : m.ts.nsec < 10 ^ 9
  pub small : length m.payload * 6 + 128 < 2 ^ 64

module _ (m : Msg) (seq : ℕ) (p : IsPrintable m seq) where
  length-json_head : length (json_head m.src_id seq m.ts) ≤ 95
  unfolding json_head
  length-json_head =
      let usec = padded 6 (m.ts.nsec / 1000) in
      let t3 = decimal m.ts.sec ++ (46 ∷ (usec ++ data_text)) in
      let t2 = decimal seq ++ (t_text ++ t3) in
      omega (
        arith,
        length-append (decimal m.src_id) (seq_text ++ t2),
        length-append (decimal seq) (t_text ++ t3),
        length-append (decimal m.ts.sec) (46 ∷ (usec ++ data_text)),
        length-append usec data_text,
        length-decimal 19 m.src_id (omega (arith, p.src_id)),
        length-decimal 19 seq (omega (arith, p.seq_range)),
        length-decimal 19 m.ts.sec (omega (arith, p.sec)),
        length-padded (m.ts.nsec / 1000) (omega (arith, p.nsec)),
      )

  pub json_message-escaped_text :
      json_message m seq ≡ json_head m.src_id seq m.ts ++ (escaped_text m.payload ++ end_text)
  unfolding json_message json_cap
  json_message-escaped_text =
      let l = length-json_head in
      let small = p.small in
      ap (λ (t : List ℕ). json_head m.src_id seq m.ts ++ (t ++ end_text))
        (json_escape_into-escaped_text _ m.payload (omega arith))

  -- For numbers within their types and a payload whose buffer size does not pass 64 bits, the buffer
  -- that `aggOnMessage` allocates holds the whole text with the final NUL, and no byte of the payload
  -- is left out.
  pub json_message_fits :
      (length (json_message m seq) < json_cap m)
      × (json_message m seq ≡ json_head m.src_id seq m.ts ++ (escaped_text m.payload ++ end_text))
  unfolding json_cap
  json_message_fits =
      let head = json_head m.src_id seq m.ts in
      let small = p.small in
      (
        omega (
          arith,
          ap length json_message-escaped_text,
          length-json_head,
          length-append head (escaped_text m.payload ++ end_text),
          length-append (escaped_text m.payload) end_text,
          length-escaped_text m.payload,
        ),
        json_message-escaped_text,
      )
