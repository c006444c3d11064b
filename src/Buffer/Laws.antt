-- ===== src/Buffer/Laws.antt =====
-- What the buffer operations do to the bytes that are waiting in the buffer.
use ws_server.Base.{
  ℕ, ◌+◌, ◌-◌, ◌%◌, ◌^◌, ◌≤◌, ◌<◌, ◌≡◌, refl, ap, sym, ◌∙◌, Bool, true, false, List, ◌++◌,
  if◌then◌else◌, leb, ◌==◌, length, take, drop, ◌↔◌, ◌≢◌, take-append, take-take, drop-take,
  length-take, length-drop, length-append, Bool-cases, inl, inr, arith,
}
use ws_server.Buffer.{Buf, buf_data, buf_len, buf_compact, grow, buf_grow, buf_reserve}
use ws_server.Buffer.Growth.{grow-enough}

-- The offsets are in order and lie within the block.
pub record IsBuf (b : Buf) : Type 0 where
  pub in_order : b.off ≤ b.len
  pub written : b.len ≤ length b.p
  pub within : length b.p ≤ b.cap

-- The bytes that are waiting.
unfoldable pub content : Buf → List ℕ
content b = take (buf_len b) (buf_data b)

pub content-take : (b : Buf) → content b ≡ drop b.off (take b.len b.p)
unfolding content buf_len buf_data
content-take b = sym (drop-take b.off b.len b.p)

pub length-content : (b : Buf) → IsBuf b → length (content b) ≡ buf_len b
unfolding content buf_len buf_data
length-content b v =
    omega (arith, length-take (b.len - b.off) (drop b.off b.p), length-drop b.off b.p)

-- `memmove(p, p + m, n)` within a block.
length_moved :
    (m n : ℕ) (p : List ℕ)
    → m + n ≤ length p
    → (length (take n (drop m p)) ≡ n) × (length (take n (drop m p) ++ drop n p) ≡ length p)
length_moved m n p h =
    let front : length (take n (drop m p)) ≡ n =
      omega (arith, length-take n (drop m p), length-drop m p) in
    (front, omega (arith, length-append (take n (drop m p)) (drop n p), length-drop n p))

pub record IsCompacted (b c : Buf) : Type 0 where
  pub valid : IsBuf c
  pub same : content c ≡ content b
  pub len : c.len ≡ buf_len b
  pub off : c.off ≡ 0
  pub cap : c.cap ≡ b.cap

-- `bufCompact` keeps what is waiting, and moves it to the front.
pub buf_compact-IsCompacted : (b : Buf) → IsBuf b → IsCompacted b (buf_compact b)
unfolding buf_compact content buf_len buf_data
buf_compact-IsCompacted b v = elim (Bool-cases (b.off == 0)) [
  | inl front ↦
      rw front
        (record { valid = v; same = refl; len = ground arith; off = ground arith; cap = refl })
  | inr moved ↦
      let n = b.len - b.off in
      let (front, whole) = length_moved b.off n b.p (omega arith) in
      rw moved (record {
        valid = record { in_order = omega arith; written = omega arith; within = omega arith };
        same =
            ap (λ k. take k (take n (drop b.off b.p) ++ drop n b.p))
              (let e : n - 0 ≡ n = omega arith in e)
            ∙ take-append n (take n (drop b.off b.p)) (drop n b.p) front;
        len = refl;
        off = refl;
        cap = refl;
      })
]

-- `bufReserve`: the bytes that are waiting stay, and the return of 0 promises the room.
pub record IsReserved (b : Buf) (extra : ℕ) (r : Buf × Bool) : Type 0 where
  pub valid : IsBuf r.0
  pub same : content r.0 ≡ content b
  pub room : r.1 ≡ true → r.0.len + extra ≤ r.0.cap
  pub shrinks : r.0.len ≤ b.len
  pub moves_back : r.0.off ≤ b.off

-- A block of at least `len` bytes keeps what is waiting.
resized :
    (b : Buf) (size : ℕ)
    → IsBuf b
    → b.len ≤ size
    → IsBuf (record b { p = take size b.p; cap = size })
      × (content (record b { p = take size b.p; cap = size }) ≡ content b)
unfolding content buf_len buf_data
resized b size v h = (
  record {
    in_order = v.in_order;
    written = omega (arith, length-take size b.p, v.written);
    within = omega (arith, length-take size b.p);
  },
  ap (take (b.len - b.off)) (drop-take b.off size b.p)
      ∙ take-take (b.len - b.off) (size - b.off) (drop b.off b.p) (omega (arith, v.in_order)),
)

module _ (realloc : ℕ → Bool) where
  buf_grow-IsReserved :
      (b : Buf) (extra hard_cap : ℕ)
      → IsBuf b
      → b.len + extra ≤ 2 ^ 63
      → IsReserved b extra (buf_grow realloc b extra hard_cap)
  unfolding buf_grow
  buf_grow-IsReserved b extra hard_cap v h =
      let start = if b.cap == 0 then 256 else b.cap in
      let need = (b.len + extra) % 2 ^ 64 in
      let exact : need ≡ b.len + extra = omega arith in
      let (reach, above) = grow-enough start need (ground arith) (omega arith) in
      let size = grow 64 start need in
      record {
        valid = ground (arith, (resized b size v (omega arith)).0, (resized b hard_cap v));
        same = ground (arith, (resized b size v (omega arith)).1, (resized b hard_cap v));
        room = ground arith;
        shrinks = ground arith;
        moves_back = ground arith;
      }

  -- For a sound buffer and at most 2 ^ 63 bytes in all, `bufReserve` keeps the buffer sound and the
  -- waiting bytes as they are, and its return of 0 promises room for the request.
  pub buf_reserve-IsReserved :
      (b : Buf) (extra hard_cap : ℕ)
      → IsBuf b
      → b.len + extra ≤ 2 ^ 63
      → IsReserved b extra (buf_reserve realloc b extra hard_cap)
  unfolding buf_reserve
  buf_reserve-IsReserved b extra hard_cap v h = elim (Bool-cases (leb extra (b.cap - b.len))) [
    | inl room ↦ rw room (record {
      valid = v;
      same = refl;
      room = λ _. ground arith;
      shrinks = omega arith;
      moves_back = omega arith;
    })
    | inr full ↦
        let c = buf_compact b in
        let k = buf_compact-IsCompacted b v in
        let lower : c.len ≤ b.len = unfold buf_len in omega (arith, k.len) in
        rw full (elim (Bool-cases (leb extra (c.cap - c.len))) [
          | inl room ↦ rw room (record {
            valid = k.valid;
            same = k.same;
            room = λ _. ground (arith, k.valid);
            shrinks = lower;
            moves_back = omega (arith, k.off);
          })
          | inr short ↦
              let g = buf_grow-IsReserved c extra hard_cap k.valid (omega arith) in
              rw short (record {
                valid = g.valid;
                same = g.same ∙ k.same;
                room = g.room;
                shrinks = omega (arith, g.shrinks);
                moves_back = omega (arith, g.moves_back, k.off);
              })
        ])
  ]

  -- With an allocator that always gives, for a sound buffer, at most 2 ^ 63 bytes in all and a block
  -- too small for the bytes that wait and the new ones, `bufReserve` refuses exactly when there is
  -- a hard cap and these together pass it.
  pub buf_reserve_refuses :
      ((n : ℕ) → realloc n ≡ true)
      → (b : Buf) (extra hard_cap : ℕ) → IsBuf b
      → b.len + extra ≤ 2 ^ 63
      → b.cap < length (content b) + extra
      → ((buf_reserve realloc b extra hard_cap).1 ≡ false)
        ↔ ((hard_cap ≢ 0) × (hard_cap < length (content b) + extra))
  unfolding buf_reserve buf_grow
  buf_reserve_refuses gives b extra hard_cap v h small =
      let c = buf_compact b in
      let k = buf_compact-IsCompacted b v in
      let n : length (content b) ≡ buf_len b = length-content b v in
      let need = (c.len + extra) % 2 ^ 64 in
      let start = if c.cap == 0 then 256 else c.cap in
      let long : buf_len b ≤ b.len = unfold buf_len in omega arith in
      let exact : need ≡ length (content b) + extra = omega (arith, k.len) in
      let (reach, above) = grow-enough start need (ground arith) (omega arith) in
      ground (arith, k.cap, k.len, gives hard_cap, gives (grow 64 start need))

  -- With no hard cap and such an allocator it never refuses.
  pub buf_reserve_gives :
      ((n : ℕ) → realloc n ≡ true)
      → (b : Buf) (extra : ℕ) → (buf_reserve realloc b extra 0).1 ≡ true
  unfolding buf_reserve buf_grow
  buf_reserve_gives gives b extra =
      let c = buf_compact b in
      let need = (c.len + extra) % 2 ^ 64 in
      ground (arith, gives (grow 64 (if c.cap == 0 then 256 else c.cap) need))

  -- Under a hard cap that the block is within, `bufReserve` leaves the block within it.
  pub buf_reserve-cap :
      (b : Buf) (extra hard_cap : ℕ)
      → hard_cap ≢ 0
      → b.cap ≤ hard_cap
      → (buf_reserve realloc b extra hard_cap).0.cap ≤ hard_cap
  unfolding buf_reserve buf_grow buf_compact
  buf_reserve-cap b extra hard_cap h within =
      let c = buf_compact b in let need = (c.len + extra) % 2 ^ 64 in ground arith
