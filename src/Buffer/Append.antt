-- ===== src/Buffer/Append.antt =====
-- Adding bytes behind those that are waiting, and taking bytes from the front.
use ws_server.Base.{
  ℕ, ◌+◌, ◌-◌, ◌^◌, ◌≤◌, ◌≡◌, refl, ap, sym, ◌∙◌, Bool, true, false, List, [], ◌∷◌, ◌++◌, leb, ◌==◌,
  length, take, drop, take-append, drop-append_le, drop-take, drop_all, drop-drop, length-take,
  length-drop, length-append, append-nil, append_assoc, Bool-cases, inl, inr, arith,
}
use mathlib.Core.Path.{ap₂}
use ws_server.Buffer.{
  Buf, buf_data, buf_len, buf_reserve, buf_consume, buf_write, buf_append, buf_reset,
}
use ws_server.Buffer.Laws.{IsBuf, content, content-take, buf_reserve-IsReserved, buf_reserve_gives}

-- Writing behind the bytes that are waiting.
module _ (b : Buf) (d : List ℕ) (v : IsBuf b) where
  abbrev front : List ℕ
  front = take b.len b.p

  abbrev tail : List ℕ
  tail = drop (b.len + length d) b.p

  length-front : length front ≡ b.len
  length-front = omega (arith, length-take b.len b.p, v.written)

  pub content-buf_write : content (buf_write b d) ≡ content b ++ d
  content-buf_write =
      content-take (buf_write b d)
      ∙ unfold buf_write in
        (ap (drop b.off) (
            ap (take (b.len + length d)) (sym (append_assoc front d tail))
            ∙ take-append (b.len + length d) (front ++ d) tail
                (omega (arith, length-front, length-append front d)))
          ∙ drop-append_le b.off front d (omega (arith, length-front, v.in_order))
          ∙ ap (λ (t : List ℕ). t ++ d) (sym (content-take b)))

  pub buf_write-IsBuf : b.len + length d ≤ b.cap → IsBuf (buf_write b d)
  unfolding buf_write
  buf_write-IsBuf h = record {
    in_order = omega (arith, v.in_order);
    written = omega (arith, length-front, length-append front (d ++ tail), length-append d tail);
    within = omega (
      arith,
      length-front,
      length-append front (d ++ tail),
      length-append d tail,
      length-drop (b.len + length d) b.p,
      v.within,
    );
  }

pub buf_reset_lem : (b : Buf) → IsBuf b → IsBuf (buf_reset b) × (content (buf_reset b) ≡ [])
unfolding buf_reset content buf_len
buf_reset_lem b v =
    (record { in_order = omega arith; written = omega arith; within = v.within }, refl)

-- `bufConsume` keeps a sound buffer sound and takes its bytes from the front of those that wait, as
-- many as are there.
pub buf_consume_lem :
    (b : Buf) (n : ℕ)
    → IsBuf b
    → IsBuf (buf_consume b n)
      × (content (buf_consume b n) ≡ drop n (content b))
      × ((buf_consume b n).len ≤ b.len)
      × ((buf_consume b n).cap ≡ b.cap)
unfolding buf_consume content buf_len buf_data
buf_consume_lem b n v = elim (Bool-cases (leb b.len (b.off + n))) [
  | inl all ↦ rw all (
    record { in_order = omega arith; written = omega arith; within = v.within },
    sym (
        drop_all n (take (b.len - b.off) (drop b.off b.p))
          (ground (arith, length-take (b.len - b.off) (drop b.off b.p)))),
    omega arith,
    refl,
  )
  | inr some_left ↦ rw some_left (
    record { in_order = ground arith; written = v.written; within = v.within },
    sym (
        drop-take n (b.len - b.off) (drop b.off b.p)
        ∙ ap₂ take (let e : b.len - b.off - n ≡ b.len - (b.off + n) = omega arith in e)
            (drop-drop n b.off b.p)),
    omega arith,
    refl,
  )
]

-- `bufAppend`, with an allocator that always gives and at most 2 ^ 63 bytes in all, keeps a sound
-- buffer sound and adds exactly the new bytes behind those that wait.
pub buf_append_lem :
    (realloc : ℕ → Bool) (b : Buf) (d : List ℕ)
    → ((n : ℕ) → realloc n ≡ true)
    → IsBuf b
    → b.len + length d ≤ 2 ^ 63
    → IsBuf (buf_append realloc b d)
      × (content (buf_append realloc b d) ≡ content b ++ d)
      × ((buf_append realloc b d).len ≤ b.len + length d)
      × ((buf_append realloc b d).off ≤ b.off)
unfolding buf_append
buf_append_lem realloc b [] gives v h = (v, sym (append-nil (content b)), omega arith, omega arith)
buf_append_lem realloc b (x ∷ d) gives v h =
    let n = length (x ∷ d) in
    let c = (buf_reserve realloc b n 0).0 in
    let r = buf_reserve-IsReserved realloc b n 0 v h in
    let given = buf_reserve_gives realloc gives b n in
    let w = buf_write c (x ∷ d) in
    let same : content w ≡ content b ++ x ∷ d =
      content-buf_write c (x ∷ d) r.valid ∙ ap (λ (t : List ℕ). t ++ x ∷ d) r.same in
    let some_bytes : (length (x ∷ d) == 0) ≡ false = ground arith in
    rw (some_bytes, given)
      (
        buf_write-IsBuf c (x ∷ d) r.valid (r.room given),
        same,
        unfold buf_write in omega (arith, r.shrinks),
        unfold buf_write in r.moves_back,
      )
