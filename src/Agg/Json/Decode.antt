-- ===== src/Agg/Json/Decode.antt =====
-- A reader of the messages to the sink, apart from src/agg.c: what a client of the sink's stream does.
use ws_server.Base.{
  ℕ, zero, suc, ◌+◌, ◌-◌, ◌*◌, ◌^◌, Bool, ◌&&◌, ◌||◌, Option, none, some, List, [], ◌∷◌,
  if◌then◌else◌, ltb, leb, ◌==◌,
}
use ws_server.Agg.Json.{src_text, seq_text, t_text, data_text}

-- Inside a JSON string: between two characters, behind a backslash, or with `k` hexadecimal digits
-- to come of a number that has the value `v` so far.
pub data Position : Type 0 where
  plain escaped : Position
  unicode : ℕ → ℕ → Position

unfoldable pub hex_value : ℕ → Option ℕ
hex_value c =
    if leb 48 c && leb c 57
    then some (c - 48)
    else if leb 97 c && leb c 102
    then some (c - 87)
    else if leb 65 c && leb c 70
    then some (c - 55)
    else none

-- The characters that a backslash may stand before, `u` apart.
unfoldable pub unescape : ℕ → Option ℕ
unescape c =
    if (c == 34) || (c == 92) || (c == 47)
    then some c
    else if c == 98
    then some 8
    else if c == 102
    then some 12
    else if c == 110
    then some 10
    else if c == 114
    then some 13
    else if c == 116
    then some 9
    else none

unfoldable pub prepend : ℕ → Option (List ℕ × List ℕ) → Option (List ℕ × List ℕ)
prepend c none = none
prepend c (some (text, rest)) = some (c ∷ text, rest)

-- The bytes of a JSON string up to the quote that ends it, and what follows that. Numbers above 127
-- behind `\u` are not read.
unfoldable pub json_string : Position → List ℕ → Option (List ℕ × List ℕ)
json_string p [] = none
json_string plain (c ∷ cs) =
    let rest = prepend c (json_string plain cs) in
    let behind = json_string escaped cs in
    if c == 34 then some ([], cs) else if c == 92 then behind else if ltb c 0x20 then none else rest
json_string escaped (c ∷ cs) =
    let number = json_string (unicode 3 0) cs in
    let rest = json_string plain cs in
    if c == 117 then number else elim (unescape c) [ none ↦ none | some b ↦ prepend b rest ]
json_string (unicode k v) (c ∷ cs) = elim (hex_value c) [
  | none ↦ none
  | some d ↦
      let rest = json_string plain cs in
      let more = json_string (unicode (k - 1) (v * 16 + d)) cs in
      if k == 0 then (if ltb (v * 16 + d) 128 then prepend (v * 16 + d) rest else none) else more
]

abbrev pub is_digit : ℕ → Bool
is_digit c = leb 48 c && leb c 57

-- The number that the digits in front make, from `v` on, and what follows them.
unfoldable pub number : ℕ → List ℕ → ℕ × List ℕ
number v [] = (v, [])
number v (c ∷ cs) =
    let rest = number (v * 10 + (c - 48)) cs in if is_digit c then rest else (v, c ∷ cs)

-- The millionths that the digits behind a decimal point make, where the first of them has the weight
-- `10 ^ (k - 1)`: those behind the `k`-th are too small to count.
unfoldable pub fraction : ℕ → List ℕ → ℕ × List ℕ
fraction k [] = (0, [])
fraction zero (c ∷ cs) =
    let rest = fraction zero cs in if is_digit c then (0, rest.1) else (0, c ∷ cs)
fraction (suc k) (c ∷ cs) =
    let rest = fraction k cs in
    if is_digit c then ((c - 48) * 10 ^ k + rest.0, rest.1) else (0, c ∷ cs)

-- What follows the text `t`, where the bytes begin with it.
unfoldable pub expect : List ℕ → List ℕ → Option (List ℕ)
expect [] cs = some cs
expect (t ∷ ts) [] = none
expect (t ∷ ts) (c ∷ cs) = let rest = expect ts cs in if t == c then rest else none

pub record Reading : Type 0 where
  pub src_id : ℕ
  pub seq : ℕ
  pub sec : ℕ
  pub usec : ℕ
  pub payload : List ℕ

infixl 5 ◌>>=◌
abbrev ◌>>=◌ {ℓ κ} : {A : Type ℓ} {B : Type κ} → Option A → (A → Option B) → Option B
none >>= f = none
some a >>= f = f a

unfoldable pub read_message : List ℕ → Option Reading
read_message text = do
  after_src ← expect src_text text
  let (src_id, r1) = number 0 after_src
  after_seq ← expect seq_text r1
  let (seq, r2) = number 0 after_seq
  after_t ← expect t_text r2
  let (sec, r3) = number 0 after_t
  after_dot ← expect (46 ∷ []) r3
  let (usec, r4) = fraction 6 after_dot
  after_data ← expect data_text r4
  (payload, r5) ← json_string plain after_data
  closing ← expect (125 ∷ []) r5
  elim closing [
    | [] ↦ some (record { src_id = src_id; seq = seq; sec = sec; usec = usec; payload = payload })
    | _ ∷ _ ↦ none
  ]
