-- ===== src/Buffer/Socket/Recv.antt =====
-- `bufRecv` takes every byte that the kernel holds, in order, or stops at the hard cap.
use ws_server.Base.{
  ℕ, zero, suc, ◌+◌, ◌-◌, ◌^◌, ◌≤◌, ◌<◌, ◌≡◌, refl, ap, sym, ◌∙◌, ◌≢◌, ◌⊎◌, inl, inr, Bool, true,
  false, List, [], ◌∷◌, ◌++◌, leb, length, take, drop, take-append-drop, take_all, append_assoc,
  length-append, length-take, length-drop, Bool-cases, arith,
}
use mathlib.Core.Path.{ap₂}
use ws_server.Buffer.{Buf, buf_reserve, buf_write}
use ws_server.Buffer.Laws.{IsBuf, content, IsReserved, buf_reserve-IsReserved}
use ws_server.Buffer.Append.{content-buf_write, buf_write-IsBuf}
use ws_server.Buffer.Socket.{
  RecvAnswer, bytes, end_of_stream, recv_blocks, recv_fails, RecvRc, got, got_eof, again, closed,
  too_big, Received, after_recv, seen, recv_loop, calls, buf_recv,
}

-- The bytes that can be read before the call blocks, fails or meets the end.
unfoldable pub available : List RecvAnswer → List ℕ
available [] = []
available (bytes [] ∷ rest) = []
available (bytes (x ∷ xs) ∷ rest) = x ∷ (xs ++ available rest)
available (_ ∷ rest) = []

available_bytes :
    (ys : List ℕ) (rest : List RecvAnswer)
    → 0 < length ys
    → available (bytes ys ∷ rest) ≡ ys ++ available rest
unfolding available
available_bytes [] rest h = absurd (omega arith)
available_bytes (y ∷ ys) rest h = refl

after_recv_lem :
    (room x : ℕ) (xs : List ℕ) (rest : List RecvAnswer)
    → 0 < room
    → (take room (x ∷ xs) ++ available (after_recv room (x ∷ xs) rest) ≡ x ∷ (xs ++ available rest))
      × (calls (after_recv room (x ∷ xs) rest) < calls (bytes (x ∷ xs) ∷ rest))
unfolding after_recv available calls
after_recv_lem zero x xs rest h = absurd (omega arith)
after_recv_lem (suc room) x xs rest h = elim (Bool-cases (leb (length (x ∷ xs)) (suc room))) [
  | inl fits ↦ rw fits (
    ap (λ (t : List ℕ). x ∷ (t ++ available rest)) (take_all room xs (ground arith)),
    omega arith,
  )
  | inr over ↦
      rw (over, available_bytes (drop room xs) rest (ground (arith, length-drop room xs)))
        (
          ap (λ (t : List ℕ). x ∷ t)
              (sym (append_assoc (take room xs) (drop room xs) (available rest))
                ∙ ap (λ (t : List ℕ). t ++ available rest) (take-append-drop room xs)),
          omega (arith, length-drop room xs),
        )
]

-- What stays in the kernel when `bufRecv` returns: with -2 all that was not taken, else nothing.
abbrev pub left_over : RecvRc → List RecvAnswer → List ℕ
left_over too_big left = available left
left_over _ left = []

left_over_none : (rc : RecvRc) (left : List RecvAnswer) → rc ≢ too_big → left_over rc left ≡ []
left_over_none too_big left h = absurd (h refl)
left_over_none _ left h = refl

pub record IsReceived (b : Buf) (any : Bool) (answers : List RecvAnswer) (r : Received)
    : Type 0 where
  pub valid : IsBuf r.buf
  pub in_order : content r.buf ++ left_over r.rc r.left ≡ content b ++ available answers
  pub silent : (r.rc ≡ again) ⊎ (r.rc ≡ closed) → (any ≡ false) × (available answers ≡ [])
  pub bounded : r.buf.len ≤ b.len + length (available answers)

module _ (realloc : ℕ → Bool) (chunk hard_cap : ℕ) (pos : 0 < chunk) where
  -- A return of the loop, from the reserved buffer `c`, with nothing more to read.
  last_answer :
      (b c : Buf) (any : Bool) (answers left : List RecvAnswer) (rc : RecvRc)
      → IsBuf c
      → content c ≡ content b
      → c.len ≤ b.len
      → available answers ≡ []
      → (rc ≢ too_big)
      → ((rc ≡ again) ⊎ (rc ≡ closed) → any ≡ false)
      → IsReceived b any answers (record { rc = rc; buf = c; left = left })
  last_answer b c any answers left rc v same shorter none_left h quiet = record {
    valid = v;
    in_order = rw (same, none_left, left_over_none rc left h);
    silent = λ q. (quiet q, none_left);
    bounded = omega arith;
  }

  -- The loop goes on behind the bytes of one call.
  one_call :
      (b c : Buf) (any : Bool) (x : ℕ) (xs : List ℕ) (rest : List RecvAnswer) (r : Received)
      → IsBuf c
      → content c ≡ content b
      → c.len ≤ b.len
      → c.len + chunk ≤ c.cap
      → let front = take (c.cap - c.len) (x ∷ xs) in
        IsReceived (buf_write c front) true (after_recv (c.cap - c.len) (x ∷ xs) rest) r
        → IsReceived b any (bytes (x ∷ xs) ∷ rest) r
  unfolding available
  one_call b c any x xs rest r v same shorter room t =
      let k = c.cap - c.len in
      let front = take k (x ∷ xs) in
      let rest' = after_recv k (x ∷ xs) rest in
      let (joined, _) = after_recv_lem k x xs rest (omega arith) in
      record {
        valid = t.valid;
        in_order =
            t.in_order
            ∙ ap (λ (w : List ℕ). w ++ available rest') (content-buf_write c front v)
            ∙ append_assoc (content c) front (available rest')
            ∙ ap₂ ◌++◌ same joined;
        silent = λ q. cc (t.silent q).0;
        bounded =
            unfold buf_write in
            omega (
              arith,
              t.bounded,
              ap length joined,
              length-append front (available rest'),
              length-append xs (available rest),
            );
      }

  module _ (fuel : ℕ) (any : Bool) (b : Buf) (answers : List RecvAnswer) (v : IsBuf b)
      (h : b.len + length (available answers) + chunk ≤ 2 ^ 63) where
    abbrev c : Buf
    c = (buf_reserve realloc b chunk hard_cap).0

    reserved : IsReserved b chunk (buf_reserve realloc b chunk hard_cap)
    reserved = buf_reserve-IsReserved realloc b chunk hard_cap v (omega arith)

    abbrev Done : Type 0
    Done = IsReceived b any answers (recv_loop realloc chunk hard_cap (suc fuel) any b answers)

    refused : (buf_reserve realloc b chunk hard_cap).1 ≡ false → Done
    unfolding recv_loop
    refused no_room =
        rw (no_room, recv_loop)
          (record {
            valid = reserved.valid;
            in_order = ap (λ (w : List ℕ). w ++ available answers) reserved.same;
            silent = λ q. absurd (or_too_big q);
            bounded = omega (arith, reserved.shrinks);
          })
      where
        or_too_big : (too_big ≡ again) ⊎ (too_big ≡ closed) → ⊥
        or_too_big (inl e) = cc
        or_too_big (inr e) = cc

    given_room : ((buf_reserve realloc b chunk hard_cap).1 ≡ true → Done) → Done
    given_room go = elim (Bool-cases (buf_reserve realloc b chunk hard_cap).1) [
      | inl room ↦ go room
      | inr no_room ↦ refused no_room
    ]

    ended :
        (left : List RecvAnswer) (rc : RecvRc)
        → available answers ≡ []
        → rc ≢ too_big
        → ((rc ≡ again) ⊎ (rc ≡ closed) → any ≡ false)
        → IsReceived b any answers (record { rc = rc; buf = c; left = left })
    ended left rc none_left h' quiet =
        last_answer b c any answers left rc reserved.valid reserved.same reserved.shrinks none_left
          h' quiet

  seen_again :
      (any : Bool)
      → (seen any got again ≢ too_big)
        × ((seen any got again ≡ again) ⊎ (seen any got again ≡ closed) → any ≡ false)
  seen_again any = (ground arith, ground arith)

  seen_closed :
      (any : Bool)
      → (seen any got_eof closed ≢ too_big)
        × ((seen any got_eof closed ≡ again) ⊎ (seen any got_eof closed ≡ closed) → any ≡ false)
  seen_closed any = (ground arith, ground arith)

  calls_pos : (answers : List RecvAnswer) → 0 < calls answers
  unfolding calls
  calls_pos [] = omega arith
  calls_pos (bytes xs ∷ rest) = omega arith
  calls_pos (_ ∷ rest) = omega arith

  recv_loop-IsReceived :
      (fuel : ℕ) (any : Bool) (b : Buf) (answers : List RecvAnswer)
      → IsBuf b
      → b.len + length (available answers) + chunk ≤ 2 ^ 63
      → calls answers ≤ fuel
      → IsReceived b any answers (recv_loop realloc chunk hard_cap fuel any b answers)
  unfolding recv_loop available
  recv_loop-IsReceived zero any b answers v h f = absurd (omega (arith, calls_pos answers))
  recv_loop-IsReceived (suc fuel) any b [] v h f = given_room fuel any b [] v h λ room.
      rw (room, recv_loop) (ended fuel any b [] v h [] _ refl (seen_again any).0 (seen_again any).1)
  recv_loop-IsReceived (suc fuel) any b (bytes [] ∷ rest) v h f =
      given_room fuel any b (bytes [] ∷ rest) v h λ room.
        rw (room, recv_loop)
          (ended fuel any b (bytes [] ∷ rest) v h rest _ refl (seen_closed any).0
            (seen_closed any).1)
  recv_loop-IsReceived (suc fuel) any b (end_of_stream ∷ rest) v h f =
      given_room fuel any b (end_of_stream ∷ rest) v h λ room.
        rw (room, recv_loop)
          (ended fuel any b (end_of_stream ∷ rest) v h rest _ refl (seen_closed any).0
            (seen_closed any).1)
  recv_loop-IsReceived (suc fuel) any b (recv_blocks ∷ rest) v h f =
      given_room fuel any b (recv_blocks ∷ rest) v h λ room.
        rw (room, recv_loop)
          (ended fuel any b (recv_blocks ∷ rest) v h rest _ refl (seen_again any).0
            (seen_again any).1)
  recv_loop-IsReceived (suc fuel) any b (recv_fails ∷ rest) v h f =
      given_room fuel any b (recv_fails ∷ rest) v h λ room.
        rw (room, recv_loop)
          (ended fuel any b (recv_fails ∷ rest) v h rest _ refl (seen_closed any).0
            (seen_closed any).1)
  recv_loop-IsReceived (suc fuel) any b (bytes (x ∷ xs) ∷ rest) v h f =
      given_room fuel any b (bytes (x ∷ xs) ∷ rest) v h λ room.
        let q = reserved fuel any b (bytes (x ∷ xs) ∷ rest) v h in
        let c' = (buf_reserve realloc b chunk hard_cap).0 in
        let k = c'.cap - c'.len in
        let front = take k (x ∷ xs) in
        let rest' = after_recv k (x ∷ xs) rest in
        let (joined, fewer) = after_recv_lem k x xs rest (omega (arith, q.room room)) in
        rw (room, recv_loop)
          (one_call b c' any x xs rest _ q.valid q.same q.shrinks (q.room room) (
            recv_loop-IsReceived fuel true (buf_write c' front) rest'
              (buf_write-IsBuf c' front q.valid
                (omega (arith, length-take k (x ∷ xs), q.room room)))
              (unfold buf_write in
                omega (
                  arith,
                  q.shrinks,
                  ap length joined,
                  length-append front (available rest'),
                  length-append xs (available rest),
                ))
              (omega (arith, fewer))))

  -- For a sound buffer, a chunk above 0 and at most 2 ^ 63 bytes in all, whatever the socket answers,
  -- `bufRecv` ends with a sound buffer that holds what was waiting before and then, in order, all
  -- bytes that the socket had; only with -2 are bytes left unread, and with 0 or -1 there were none.
  pub buf_recv-IsReceived :
      (b : Buf) (answers : List RecvAnswer)
      → IsBuf b
      → b.len + length (available answers) + chunk ≤ 2 ^ 63
      → IsReceived b false answers (buf_recv realloc b chunk hard_cap answers)
  unfolding buf_recv
  buf_recv-IsReceived b answers v h =
      recv_loop-IsReceived (calls answers) false b answers v h (omega arith)
