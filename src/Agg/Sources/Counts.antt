-- ===== src/Agg/Sources/Counts.antt =====
-- The numbers that src/agg.c gives the messages of each source.
use ws_server.Base.{
  ℕ, zero, suc, ◌+◌, ◌%◌, ◌^◌, ◌≤◌, ◌<◌, ◌≡◌, Bool, true, ◌&&◌, none, some, List, [], ◌∷◌, ◌++◌,
  if◌then◌else◌, leb, ltb, ◌==◌, length, length-append, inl, inr, Bool-cases, Option-cases, arith,
}
use ws_server.Agg.Message.{Msg, no_time}
use ws_server.Agg.Sources.{
  AggSrc, max_sources, find_src, find_or_create_src, change_at, count_message, count_at,
  count_source,
}

-- How many messages of a source were counted.
pub count_of : List AggSrc → ℕ → ℕ
count_of [] id = 0
count_of (s ∷ src) id = if s.id == id then s.msg_count else count_of src id

-- The entry found is counted, and no other.
change_found :
    (m : Msg) (src : List AggSrc) (i id : ℕ)
    → find_src src m.src_id ≡ some i
    → (count_at (change_at (count_message m) i src) (some i) ≡ (count_of src m.src_id + 1) % 2 ^ 64)
      × (count_of (change_at (count_message m) i src) id
          ≡ (if m.src_id == id then (count_of src m.src_id + 1) % 2 ^ 64 else count_of src id))
      × (length (change_at (count_message m) i src) ≡ length src)
unfolding find_src change_at count_message count_at count_of
change_found m [] i id e = ground arith
change_found m (s ∷ src) zero id e =
    let here : s.id ≡ m.src_id = ground arith in ground (arith, here)
change_found m (s ∷ src) (suc i) id e = elim (Bool-cases (s.id == m.src_id)) [
  | inl here ↦ absurd (ground arith)
  | inr other ↦
      let later : find_src src m.src_id ≡ some i = ground arith in
      ground (arith, change_found m src i id later)
]

-- A new entry stands behind the others, and is found there.
create_found :
    (s : AggSrc) (src : List AggSrc) (id : ℕ)
    → find_src src s.id ≡ none
    → (find_src (src ++ s ∷ []) s.id ≡ some (length src))
      × (count_of src s.id ≡ 0)
      × (count_of (src ++ s ∷ []) id ≡ (if s.id == id then s.msg_count else count_of src id))
unfolding find_src count_of
create_found s [] id e = ground arith
create_found s (t ∷ src) id e = elim (Bool-cases (t.id == s.id)) [
  | inl here ↦ absurd (ground arith)
  | inr other ↦
      let later : find_src src s.id ≡ none = ground arith in
      ground (arith, create_found s src id later)
]

-- Whether the table has an entry for the source, or room for one.
pub has_room : List AggSrc → ℕ → Bool
has_room src id = elim (find_src src id) [ some i ↦ true | none ↦ ltb (length src) max_sources ]

pub record IsCounted (src : List AggSrc) (m : Msg) (r : List AggSrc × ℕ) : Type 0 where
  pub number : r.1 ≡ (if has_room src m.src_id then (count_of src m.src_id + 1) % 2 ^ 64 else 0)
  pub counts :
      (id : ℕ)
      → count_of r.0 id ≡ (
          if (m.src_id == id) && has_room src m.src_id
          then (count_of src id + 1) % 2 ^ 64
          else count_of src id)
  pub bounded : length src ≤ max_sources → length r.0 ≤ max_sources

module _ (src : List AggSrc) (m : Msg) where
  abbrev new_src : AggSrc
  new_src = record { id = m.src_id; alive = true; msg_count = 0; byte_count = 0; last_ts = no_time }

  abbrev counted : List AggSrc → ℕ → List AggSrc × ℕ
  counted found i =
      (change_at (count_message m) i found, count_at (change_at (count_message m) i found) (some i))

  when_found : (i : ℕ) → find_src src m.src_id ≡ some i → count_source src m ≡ counted src i
  unfolding count_source find_or_create_src
  when_found i e = ground arith

  when_full :
      find_src src m.src_id ≡ none → max_sources ≤ length src → count_source src m ≡ (src, 0)
  unfolding count_source find_or_create_src count_at
  when_full e full = ground arith

  when_new :
      find_src src m.src_id ≡ none
      → length src < max_sources
      → count_source src m ≡ counted (src ++ new_src ∷ []) (length src)
  unfolding count_source find_or_create_src
  when_new e room = ground arith

  -- A message gets the next number of its source, the other sources keep theirs, and the table stays
  -- within its 256 entries; where the table is full and does not have the source, the message gets
  -- the number 0 and nothing is counted.
  pub count_source-IsCounted : IsCounted src m (count_source src m)
  unfolding has_room
  count_source-IsCounted = elim (Option-cases (find_src src m.src_id)) [
    | inr (i, e) ↦ rw (when_found i e) (record {
      number = ground (arith, change_found m src i 0 e);
      counts = λ id. ground (arith, change_found m src i id e);
      bounded = ground (arith, change_found m src i 0 e);
    })
    | inl e ↦ elim (Bool-cases (leb max_sources (length src))) [
      | inl full ↦
          rw (when_full e (ground arith))
            (record { number = ground arith; counts = λ id. ground arith; bounded = λ h. h })
      | inr room ↦
          let fresh = src ++ new_src ∷ [] in
          let l = length-append src (new_src ∷ []) in
          let made = create_found new_src src m.src_id e in
          rw (when_new e (ground arith)) (record {
            number = ground (arith, made, change_found m fresh (length src) 0 made.0);
            counts = λ id. ground (
              arith,
              made,
              create_found new_src src id e,
              change_found m fresh (length src) id made.0,
            );
            bounded = ground (arith, l, change_found m fresh (length src) 0 made.0);
          })
    ]
  ]
