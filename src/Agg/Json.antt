-- ===== src/Agg/Json.antt =====
-- The text of a message to the sink: `jsonEscapeInto` and the text that `aggOnMessage` of src/agg.c
-- prints round it.
pub mod Decode
pub mod Bounds
pub mod RoundTrip
use ws_server.Base.{
  ℕ, zero, suc, ◌+◌, ◌-◌, ◌*◌, ◌/◌, ◌%◌, ◌^◌, List, [], ◌∷◌, ◌++◌, if◌then◌else◌, ltb, ◌==◌, length,
}
use ws_server.Agg.Message.{Msg, Timespec}

-- `%PRIu64` and `%ld` of a number that is not negative: the digits in front of `acc`. A 64-bit number
-- has at most 20.
unfoldable pub digits_onto : ℕ → ℕ → List ℕ → List ℕ
digits_onto zero n acc = acc
digits_onto (suc fuel) n acc =
    let rest = digits_onto fuel (n / 10) ((48 + n % 10) ∷ acc) in
    if ltb n 10 then (48 + n % 10) ∷ acc else rest

unfoldable pub decimal : ℕ → List ℕ
decimal n = digits_onto 20 n []

-- `%06ld`.
pub zeroes_onto : ℕ → List ℕ → List ℕ
zeroes_onto zero text = text
zeroes_onto (suc n) text = 48 ∷ zeroes_onto n text

pub padded : ℕ → ℕ → List ℕ
padded width n = zeroes_onto (width - length (decimal n)) (decimal n)

pub hex_digit : ℕ → ℕ
hex_digit d = if ltb d 10 then 48 + d else 87 + d

-- The bytes that stand for one byte of the payload.
pub escape_byte : ℕ → List ℕ
escape_byte c =
    if c == 34
    then 92 ∷ 34 ∷ []
    else if c == 92
    then 92 ∷ 92 ∷ []
    else if c == 10
    then 92 ∷ 110 ∷ []
    else if c == 13
    then 92 ∷ 114 ∷ []
    else if c == 9
    then 92 ∷ 116 ∷ []
    else if ltb c 0x20
    then 92 ∷ 117 ∷ 48 ∷ 48 ∷ hex_digit (c / 16) ∷ hex_digit (c % 16) ∷ []
    else c ∷ []

-- What the loop writes, with `room` bytes left: it stops at the first byte that has no room.
pub json_escape_into : ℕ → List ℕ → List ℕ
json_escape_into room [] = []
json_escape_into room (c ∷ cs) =
    let esc = escape_byte c in
    let rest = json_escape_into (room - length esc) cs in
    if ltb room (length esc) then [] else esc ++ rest

-- `{"src":`, `,"seq":`, `,"t":`, `,"data":"` and `"}`.
abbrev pub src_text : List ℕ
src_text = 123 ∷ 34 ∷ 115 ∷ 114 ∷ 99 ∷ 34 ∷ 58 ∷ []

abbrev pub seq_text : List ℕ
seq_text = 44 ∷ 34 ∷ 115 ∷ 101 ∷ 113 ∷ 34 ∷ 58 ∷ []

abbrev pub t_text : List ℕ
t_text = 44 ∷ 34 ∷ 116 ∷ 34 ∷ 58 ∷ []

abbrev pub data_text : List ℕ
data_text = 44 ∷ 34 ∷ 100 ∷ 97 ∷ 116 ∷ 97 ∷ 34 ∷ 58 ∷ 34 ∷ []

abbrev pub end_text : List ℕ
end_text = 34 ∷ 125 ∷ []

-- The first `snprintf`.
pub json_head : ℕ → ℕ → Timespec → List ℕ
json_head src_id seq ts =
    src_text
    ++ (decimal src_id
        ++ (seq_text
            ++ (decimal seq
                ++ (t_text
                    ++ (decimal ts.sec ++ (46 ∷ (padded 6 (ts.nsec / 1000) ++ data_text)))))))

pub json_cap : Msg → ℕ
json_cap m = (length m.payload * 6 + 128) % 2 ^ 64

-- The `o` bytes of `out`.
pub json_message : Msg → ℕ → List ℕ
json_message m seq =
    let head = json_head m.src_id seq m.ts in
    head ++ (json_escape_into (json_cap m - length head - 3) m.payload ++ end_text)
