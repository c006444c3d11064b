-- ===== src/Ws/Utf8.antt =====
-- `wsUtf8Reset`, `wsUtf8Feed` and `wsUtf8Done` of src/ws.c, with their types of inc/conn.h.
pub mod Chunks
pub mod Unicode
use ws_server.Base.{ℕ, ◌-◌, Bool, ◌&&◌, Option, none, some, List, [], ◌∷◌, if◌then◌else◌, leb, ◌==◌}

-- `Utf8Kind_t`: the restriction on the next continuation byte.
pub data Utf8Kind : Type 0 where
  u8_none u8_gen u8_e0 u8_ed u8_f0 u8_f4 : Utf8Kind

pub record Utf8St : Type 0 where
  pub need : ℕ
  pub kind : Utf8Kind

abbrev pub state : ℕ → Utf8Kind → Utf8St
state n k = record { need = n; kind = k }

unfoldable pub utf8_reset : Utf8St
utf8_reset = state 0 u8_none

abbrev pub between : ℕ → ℕ → ℕ → Bool
between lo hi b = leb lo b && leb b hi

-- The branch of a byte that begins a character; `none` is the return of -1.
pub lead_byte : Utf8St → ℕ → Option Utf8St
lead_byte st b =
    if leb b 0x7F
    then some st
    else if between 0xC2 0xDF b
    then some (state 1 u8_gen)
    else if b == 0xE0
    then some (state 2 u8_e0)
    else if between 0xE1 0xEC b
    then some (state 2 u8_gen)
    else if b == 0xED
    then some (state 2 u8_ed)
    else if between 0xEE 0xEF b
    then some (state 2 u8_gen)
    else if b == 0xF0
    then some (state 3 u8_f0)
    else if between 0xF1 0xF3 b
    then some (state 3 u8_gen)
    else if b == 0xF4
    then some (state 3 u8_f4)
    else none

-- The `switch` over the kind.
pub continuation_ok : Utf8Kind → ℕ → Bool
continuation_ok u8_e0 b = between 0xA0 0xBF b
continuation_ok u8_ed b = between 0x80 0x9F b
continuation_ok u8_f0 b = between 0x90 0xBF b
continuation_ok u8_f4 b = between 0x80 0x8F b
continuation_ok _ b = between 0x80 0xBF b

pub feed_byte : Utf8St → ℕ → Option Utf8St
feed_byte st b =
    if st.need == 0
    then lead_byte st b
    else if continuation_ok st.kind b
    then some (state (st.need - 1) u8_gen)
    else none

pub utf8_feed : Utf8St → List ℕ → Option Utf8St
utf8_feed st [] = some st
utf8_feed st (b ∷ bs) = elim (feed_byte st b) [ none ↦ none | some st' ↦ utf8_feed st' bs ]

unfoldable pub utf8_done : Utf8St → Bool
utf8_done st = st.need == 0
