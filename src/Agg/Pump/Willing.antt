-- ===== src/Agg/Pump/Willing.antt =====
-- `sinkFlush` of src/agg.c at a socket that takes something at each call.
use ws_server.Base.{
  ℕ, ◌+◌, ◌-◌, ◌≤◌, ◌<◌, ◌≡◌, refl, true, false, Option, none, some, List, [], ◌∷◌, ltb, length,
  drop, min, length-append, length-drop, All, inl, inr, Bool-cases, arith,
}
use ws_server.Buffer.Socket.{SendAnswer, takes, send_blocks, send_fails, all_sent}
use ws_server.Conn.{Conn}
use ws_server.Agg.State.{Agg}
use ws_server.Agg.Sink.{Out, whole, flush_frame, sink_flush_one, flush_both, sink_flush}
use ws_server.Agg.Sink.Flush.{unsent, waiting}

-- The socket takes something at each of these calls, and there are answers for `n` bytes and more.
abbrev pub IsTaken : SendAnswer → Type 0
IsTaken (takes k) = 0 < k
IsTaken send_blocks = ⊥
IsTaken send_fails = ⊥

pub record IsWilling (n : ℕ) (answers : List SendAnswer) : Type 0 where
  pub taken : All IsTaken answers
  pub enough : n ≤ length answers

flush_frame-IsWilling :
    (f : List ℕ) (off : ℕ) (wire : List ℕ) (answers : List SendAnswer) (n : ℕ)
    → IsWilling (length (drop off f) + n) answers
    → ((flush_frame f off wire answers).rc ≡ all_sent)
      × IsWilling n (flush_frame f off wire answers).out.answers
unfolding flush_frame whole
flush_frame-IsWilling f off wire [] n h =
    let enough = h.enough in
    let done : ltb off (length f) ≡ false = ground (arith, length-drop off f) in
    rw done (refl, record { taken = tt; enough = omega arith })
flush_frame-IsWilling f off wire (send_blocks ∷ rest) n h = absurd h.taken.0
flush_frame-IsWilling f off wire (send_fails ∷ rest) n h = absurd h.taken.0
flush_frame-IsWilling f off wire (takes k ∷ rest) n h = elim (Bool-cases (ltb off (length f))) [
  | inr done ↦ rw done (refl, record { taken = h.taken; enough = omega (arith, h.enough) })
  | inl more ↦
      let k' = min k (length f - off) in
      let pos = h.taken.0 in
      let some_taken : ltb 0 k' ≡ true = ground arith in
      rw (more, some_taken)
        (flush_frame-IsWilling f (off + k') _ rest n (record {
          taken = h.taken.1;
          enough = ground (arith, h.enough, length-drop off f, length-drop (off + k') f);
        }))
]

sink_flush_one-IsWilling :
    (slot : Option (List ℕ)) (off : ℕ) (out : Out) (n : ℕ)
    → IsWilling (length (unsent slot off) + n) out.answers
    → ((sink_flush_one slot off out).rc ≡ all_sent)
      × IsWilling n (sink_flush_one slot off out).out.answers
unfolding sink_flush_one unsent
sink_flush_one-IsWilling none off out n h =
    (refl, record { taken = h.taken; enough = omega (arith, h.enough) })
sink_flush_one-IsWilling (some f) off out n h = flush_frame-IsWilling f off out.wire out.answers n h

pub sink_flush-IsWilling :
    (agg : Agg) (out : Out) (c : Conn) (n : ℕ)
    → agg.sink ≡ some c
    → IsWilling (length (waiting agg) + n) out.answers
    → ((sink_flush agg out).0 ≡ all_sent) × IsWilling n (sink_flush agg out).2.answers
unfolding sink_flush flush_both waiting
sink_flush-IsWilling agg out c n s h =
    let u = unsent agg.pending_ctrl agg.pending_ctrl_off in
    let v = unsent agg.pending agg.pending_off in
    let (ctrl_sent, left) =
      sink_flush_one-IsWilling agg.pending_ctrl agg.pending_ctrl_off out (length v + n)
        (record { taken = h.taken; enough = omega (arith, h.enough, length-append u v) }) in
    let c' = sink_flush_one agg.pending_ctrl agg.pending_ctrl_off out in
    let (data_sent, left') = sink_flush_one-IsWilling agg.pending agg.pending_off c'.out n left in
    let is : sink_flush agg out ≡ flush_both agg out = ground arith in
    rw is (rw (flush_both, ctrl_sent) (data_sent, left'))
