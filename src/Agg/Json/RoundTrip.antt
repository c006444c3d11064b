-- ===== src/Agg/Json/RoundTrip.antt =====
-- What is written into a message to the sink is what its reader gets.
use ws_server.Base.{
  ℕ, zero, suc, ◌+◌, ◌-◌, ◌*◌, ◌/◌, ◌%◌, ◌^◌, ◌<◌, ◌≡◌, refl, ap, sym, ◌∙◌, ◌&&◌, leb, true, false,
  All, some, List, [], ◌∷◌, ◌++◌, append_assoc, ltb, ◌==◌, length, inl, inr, Bool-cases, arith,
}
use mathlib.Core.Path.{ap₂, subst}
use native.Mathlib.Nat.{pow-suc, add-mul, mul_assoc}
use ws_server.Agg.Message.{Msg, Timespec}
use ws_server.Agg.Json.{
  digits_onto, decimal, zeroes_onto, padded, hex_digit, escape_byte, src_text, seq_text, t_text,
  data_text, end_text, json_head, json_message,
}
use ws_server.Agg.Json.Decode.{
  plain, hex_value, unescape, prepend, json_string, is_digit, number, fraction, expect,
  read_message,
}
use ws_server.Agg.Json.Bounds.{length-padded, escaped_text, IsPrintable, json_message-escaped_text}

number-digits_onto :
    (fuel n : ℕ) (acc : List ℕ)
    → n < 10 ^ suc fuel
    → number 0 (digits_onto (suc fuel) n acc) ≡ number n acc
unfolding number digits_onto
number-digits_onto zero n acc h = elim (Bool-cases (ltb n 10)) [
  | inl small ↦
      let e : 0 * 10 + (48 + n % 10 - 48) ≡ n = ground arith in
      let d : leb 48 (48 + n % 10) && leb (48 + n % 10) 57 ≡ true = ground arith in
      rw (small, d, e) refl
  | inr large ↦ absurd (ground arith)
]
number-digits_onto (suc fuel) n acc h = elim (Bool-cases (ltb n 10)) [
  | inl small ↦
      let e : 0 * 10 + (48 + n % 10 - 48) ≡ n = ground arith in
      let d : leb 48 (48 + n % 10) && leb (48 + n % 10) 57 ≡ true = ground arith in
      rw (small, d, e) refl
  | inr large ↦
      let e : n / 10 * 10 + (48 + n % 10 - 48) ≡ n = ground arith in
      let d : leb 48 (48 + n % 10) && leb (48 + n % 10) 57 ≡ true = ground arith in
      let r : number (n / 10) ((48 + n % 10) ∷ acc) ≡ number n acc = rw (d, e) refl in
      rw large (
        number-digits_onto fuel (n / 10) ((48 + n % 10) ∷ acc)
          (omega (arith, pow-suc 10 (suc fuel)))
        ∙ r)
]

number-decimal : (n : ℕ) (t : List ℕ) → n < 2 ^ 64 → number 0 (digits_onto 20 n t) ≡ number n t
number-decimal n t h = number-digits_onto 19 n t (omega arith)

digits_onto-append :
    (fuel n : ℕ) (acc t : List ℕ) → digits_onto fuel n acc ++ t ≡ digits_onto fuel n (acc ++ t)
unfolding digits_onto
digits_onto-append zero n acc t = refl
digits_onto-append (suc fuel) n acc t = elim (Bool-cases (ltb n 10)) [
  | inl small ↦ rw small refl
  | inr large ↦ rw large (digits_onto-append fuel (n / 10) ((48 + n % 10) ∷ acc) t)
]

pub read_decimal : (n : ℕ) (t : List ℕ) → n < 2 ^ 64 → number 0 (decimal n ++ t) ≡ number n t
unfolding decimal
read_decimal n t h = ap (number 0) (digits_onto-append 20 n [] t) ∙ number-decimal n t h

read_zeroes : (k : ℕ) (t u : List ℕ) → number 0 (zeroes_onto k t ++ u) ≡ number 0 (t ++ u)
unfolding zeroes_onto number
read_zeroes zero t u = refl
read_zeroes (suc k) t u = read_zeroes k t u

read_padded : (n : ℕ) (t : List ℕ) → n < 2 ^ 64 → number 0 (padded 6 n ++ t) ≡ number n t
unfolding padded
read_padded n t h = read_zeroes (6 - length (decimal n)) (decimal n) t ∙ read_decimal n t h

IsDigit : ℕ → Type 0
IsDigit c = is_digit c ≡ true

digits_onto-IsDigit :
    (fuel n : ℕ) (acc : List ℕ) → All IsDigit acc → All IsDigit (digits_onto fuel n acc)
unfolding digits_onto IsDigit
digits_onto-IsDigit zero n acc v = v
digits_onto-IsDigit (suc fuel) n acc v =
    let d : is_digit (48 + n % 10) ≡ true = ground arith in
    elim (Bool-cases (ltb n 10)) [
      | inl small ↦ rw small (d, v)
      | inr large ↦ rw large (digits_onto-IsDigit fuel (n / 10) ((48 + n % 10) ∷ acc) (d, v))
    ]

zeroes_onto-IsDigit : (k : ℕ) (t : List ℕ) → All IsDigit t → All IsDigit (zeroes_onto k t)
unfolding zeroes_onto IsDigit
zeroes_onto-IsDigit zero t v = v
zeroes_onto-IsDigit (suc k) t v = (refl, zeroes_onto-IsDigit k t v)

padded-IsDigit : (width n : ℕ) → All IsDigit (padded width n)
unfolding padded decimal
padded-IsDigit width n =
    zeroes_onto-IsDigit (width - length (decimal n)) (decimal n) (digits_onto-IsDigit 20 n [] tt)

-- As many digits as there are places, with another character behind them, are read as the number
-- that they make.
number-fraction :
    (ds : List ℕ) (c : ℕ) (t : List ℕ) (v : ℕ)
    → All IsDigit ds
    → is_digit c ≡ false
    → (let r = fraction (length ds) (ds ++ (c ∷ t)) in
        (number v (ds ++ (c ∷ t)) ≡ (v * 10 ^ length ds + r.0, c ∷ t)) × (r.1 ≡ c ∷ t))
unfolding number fraction IsDigit
number-fraction [] c t v digits other =
    let e : v ≡ v * 1 + 0 = omega arith in rw other (ap (λ (x : ℕ). (x, c ∷ t)) e, refl)
number-fraction (d ∷ ds) c t v (digit, digits) other =
    let r = fraction (length ds) (ds ++ (c ∷ t)) in
    let x = d - 48 in
    let (read, left) = number-fraction ds c t (v * 10 + x) digits other in
    let e : (v * 10 + x) * 10 ^ length ds + r.0
        ≡ v * 10 ^ suc (length ds) + (x * 10 ^ length ds + r.0) =
      let p = 10 ^ length ds in
      let next : 10 ^ suc (length ds) ≡ 10 * p = omega (arith, pow-suc 10 (length ds)) in
      rw next (omega (arith, add-mul (v * 10) x p, mul_assoc v 10 p)) in
    rw digit (read ∙ ap (λ (n : ℕ). (n, c ∷ t)) e, left)

-- `%06ld` of microseconds, behind a decimal point.
read_fraction :
    (n c : ℕ) (t : List ℕ)
    → n < 10 ^ 6
    → is_digit c ≡ false
    → fraction 6 (padded 6 n ++ (c ∷ t)) ≡ (n, c ∷ t)
read_fraction n c t h other =
    let r = fraction (length (padded 6 n)) (padded 6 n ++ (c ∷ t)) in
    let (read, left) = number-fraction (padded 6 n) c t 0 (padded-IsDigit 6 n) other in
    let whole : number n (c ∷ t) ≡ (n, c ∷ t) = unfold number in rw other refl in
    let same : r.0 ≡ n = omega (
      arith,
      ap (λ (x : ℕ × List ℕ). x.0) (sym read ∙ read_padded n (c ∷ t) (omega arith) ∙ whole),
    ) in
    let places : length (padded 6 n) ≡ 6 = length-padded n h in
    subst (λ (k : ℕ). fraction k (padded 6 n ++ (c ∷ t)) ≡ (n, c ∷ t)) places
      (ap₂ (λ (x : ℕ) (u : List ℕ). (x, u)) same left)

hex_value-hex_digit : (d : ℕ) → d < 16 → hex_value (hex_digit d) ≡ some d
unfolding hex_value hex_digit
hex_value-hex_digit d h = ground arith

-- The reader takes one escaped byte back.
json_string-escape_byte :
    (c : ℕ) (t : List ℕ) → json_string plain (escape_byte c ++ t) ≡ prepend c (json_string plain t)
unfolding escape_byte json_string unescape hex_value
json_string-escape_byte c t = elim (Bool-cases (c == 34)) [
  | inl e ↦ let e' : c ≡ 34 = ground arith in rw e' refl
  | inr n34 ↦ elim (Bool-cases (c == 92)) [
    | inl e ↦ let e' : c ≡ 92 = ground arith in rw e' refl
    | inr n92 ↦ elim (Bool-cases (c == 10)) [
      | inl e ↦ let e' : c ≡ 10 = ground arith in rw e' refl
      | inr n10 ↦ elim (Bool-cases (c == 13)) [
        | inl e ↦ let e' : c ≡ 13 = ground arith in rw e' refl
        | inr n13 ↦ elim (Bool-cases (c == 9)) [
          | inl e ↦ let e' : c ≡ 9 = ground arith in rw e' refl
          | inr n9 ↦ elim (Bool-cases (ltb c 32)) [
            | inr printed ↦ rw (n34, n92, n10, n13, n9, printed) (rw (n34, n92, printed) refl)
            | inl control ↦
                let high = hex_value-hex_digit (c / 16) (ground arith) in
                let low = hex_value-hex_digit (c % 16) (omega arith) in
                let e : (0 * 16 + c / 16) * 16 + c % 16 ≡ c = omega arith in
                let small : ltb c 128 ≡ true = ground arith in
                rw (n34, n92, n10, n13, n9, control) (rw (high, low) (rw (e, small) refl))
          ]
        ]
      ]
    ]
  ]
]

json_string-escaped_text :
    (cs t : List ℕ) → json_string plain (escaped_text cs ++ (34 ∷ t)) ≡ some (cs, t)
unfolding escaped_text json_string prepend
json_string-escaped_text [] t = refl
json_string-escaped_text (c ∷ cs) t =
    ap (json_string plain) (append_assoc (escape_byte c) (escaped_text cs) (34 ∷ t))
    ∙ json_string-escape_byte c (escaped_text cs ++ (34 ∷ t))
    ∙ ap (prepend c) (json_string-escaped_text cs t)

json_head-append :
    (src_id seq : ℕ) (ts : Timespec) (y : List ℕ)
    → json_head src_id seq ts ++ y
      ≡ src_text
        ++ (decimal src_id
            ++ (seq_text
                ++ (decimal seq
                    ++ (t_text
                        ++ (decimal ts.sec
                            ++ (46 ∷ (padded 6 (ts.nsec / 1000) ++ (data_text ++ y))))))))
unfolding json_head
json_head-append src_id seq ts y = simp append_assoc

-- A reader of the sink's stream gets back, from the text that `aggOnMessage` prints, the source, the
-- sequence number, the seconds, the microseconds that the digits behind the decimal point stand for,
-- and every byte of the payload, for numbers within their types and a payload whose buffer size does
-- not pass 64 bits.
pub read_message-json_message :
    (m : Msg) (seq : ℕ)
    → IsPrintable m seq
    → read_message (json_message m seq)
      ≡ some (record {
        src_id = m.src_id;
        seq = seq;
        sec = m.ts.sec;
        usec = m.ts.nsec / 1000;
        payload = m.payload;
      })
unfolding read_message expect number fraction
read_message-json_message m seq p =
    let y = escaped_text m.payload ++ end_text in
    let r4 = data_text ++ y in
    let r3 : List ℕ = 46 ∷ (padded 6 (m.ts.nsec / 1000) ++ r4) in
    let r2 = t_text ++ (decimal m.ts.sec ++ r3) in
    let r1 = seq_text ++ (decimal seq ++ r2) in
    let sec = p.sec in
    let nsec = p.nsec in
    let e1 = read_decimal m.src_id r1 p.src_id in
    let e2 = read_decimal seq r2 p.seq_range in
    let e3 = read_decimal m.ts.sec r3 (omega arith) in
    let e4 = read_fraction (m.ts.nsec / 1000) 44 _ (omega arith) refl in
    let v1 : (number 0 (decimal m.src_id ++ r1)).0 ≡ m.src_id = ap (λ (r : ℕ × List ℕ). r.0) e1 in
    let v2 : (number 0 (decimal seq ++ r2)).0 ≡ seq = ap (λ (r : ℕ × List ℕ). r.0) e2 in
    let v3 : (number 0 (decimal m.ts.sec ++ r3)).0 ≡ m.ts.sec = ap (λ (r : ℕ × List ℕ). r.0) e3 in
    let v4 : (fraction 6 (padded 6 (m.ts.nsec / 1000) ++ r4)).0 ≡ m.ts.nsec / 1000 =
      ap (λ (r : ℕ × List ℕ). r.0) e4 in
    ap read_message (json_message-escaped_text m seq p ∙ json_head-append m.src_id seq m.ts y)
    ∙ rw (e1, e2, e3, e4, json_string-escaped_text m.payload (125 ∷ [])) (simp (v1, v2, v3, v4))
