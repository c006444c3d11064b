-- ===== src/Agg/Sources.antt =====
-- The table of sources of src/agg.c: `findOrCreateSrc`, `aggSrcDown` and the counting at the head of
-- `aggOnMessage`. The table is the list of its `srcCount` entries.
pub mod Counts
use ws_server.Base.{
  ℕ, zero, suc, ◌+◌, ◌%◌, ◌^◌, ◌≤◌, ◌<◌, ◌≡◌, ◌≢◌, refl, ap, Bool, true, false, Option, none, some,
  List, [], ◌∷◌, ◌++◌, if◌then◌else◌, leb, ◌==◌, length, length-append, inl, inr, Bool-cases, arith,
}
use ws_server.Agg.Message.{Msg, Timespec, no_time}

-- `AggSrc_t`.
pub record AggSrc : Type 0 where
  pub id : ℕ
  pub alive : Bool
  pub msg_count : ℕ
  pub byte_count : ℕ
  pub last_ts : Timespec

abbrev pub max_sources : ℕ
max_sources = 256

-- The loop over the entries: the index of the first with this id.
pub find_src : List AggSrc → ℕ → Option ℕ
find_src [] id = none
find_src (s ∷ src) id =
    let rest : Option ℕ = elim (find_src src id) [ none ↦ none | some i ↦ some (suc i) ] in
    if s.id == id then some 0 else rest

-- `none` is the return of NULL: the table is full. An entry that was never used is zero, as
-- `aggInit` leaves it.
pub find_or_create_src : List AggSrc → ℕ → List AggSrc × Option ℕ
find_or_create_src src id = elim (find_src src id) [
  | some i ↦ (src, some i)
  | none ↦ if leb max_sources (length src) then (src, none) else (
    src
        ++ (record { id = id; alive = true; msg_count = 0; byte_count = 0; last_ts = no_time })
          ∷ [],
    some (length src),
  )
]

pub change_at : (AggSrc → AggSrc) → ℕ → List AggSrc → List AggSrc
change_at f i [] = []
change_at f zero (s ∷ src) = f s ∷ src
change_at f (suc i) (s ∷ src) = s ∷ change_at f i src

-- `aggSrcDown`.
pub src_down : List AggSrc → ℕ → List AggSrc
src_down src id = elim (find_src src id) [
  | none ↦ src
  | some i ↦ change_at (λ s. record s { alive = false }) i src
]

pub count_message : Msg → AggSrc → AggSrc
count_message m s = record s {
  msg_count = (s.msg_count + 1) % 2 ^ 64;
  byte_count = (s.byte_count + length m.payload) % 2 ^ 64;
  last_ts = m.ts;
  alive = true;
}

-- `s ? s->msgCount : 0`, at an index.
pub count_at : List AggSrc → Option ℕ → ℕ
count_at src none = 0
count_at [] (some i) = 0
count_at (s ∷ src) (some zero) = s.msg_count
count_at (s ∷ src) (some (suc i)) = count_at src (some i)

-- The head of `aggOnMessage`: the new table, and the number that the message gets.
pub count_source : List AggSrc → Msg → List AggSrc × ℕ
count_source src m =
    let (found, at) = find_or_create_src src m.src_id in
    let counted : List AggSrc = elim at [
      | none ↦ found
      | some i ↦ change_at (count_message m) i found
    ] in
    (counted, count_at counted at)
