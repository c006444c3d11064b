-- ===== src/Agg/Sink.antt =====
-- src/agg.c: what the aggregator does with its sink. `Out` is the sink's side of the socket: what the
-- sink has been given so far and the answers that `send` is going to give.
pub mod Flush
pub mod Split
pub mod Read
use ws_server.Base.{
  ℕ, zero, suc, ◌+◌, ◌-◌, ◌/◌, ◌%◌, ◌^◌, bit_or, Bool, true, false, not, ◌&&◌, Option, none, some,
  List, [], ◌∷◌, ◌++◌, if◌then◌else◌, ltb, leb, ◌==◌, length, take, drop, min,
}
use ws_server.Buffer.Socket.{
  SendAnswer, takes, send_blocks, send_fails, SendRc, all_sent, blocked, send_error,
}
use ws_server.Conn.{Conn, Role, role_sink}
use ws_server.Agg.Message.{frame_new, op_close}
use ws_server.Agg.State.{Agg}
use ws_server.Worker.{epollin, epollout}

pub record Out : Type 0 where
  pub wire : List ℕ
  pub answers : List SendAnswer

-- How `sinkFlushOne` returns 1, 0 or -1, with the slot and the offset that it leaves.
pub record Flushed : Type 0 where
  pub rc : SendRc
  pub slot : Option (List ℕ)
  pub off : ℕ
  pub out : Out

unfoldable pub flushed : SendRc → List ℕ → ℕ → List ℕ → List SendAnswer → Flushed
flushed rc f off wire answers = record {
  rc = rc;
  slot = some f;
  off = off;
  out = record { wire = wire; answers = answers };
}

unfoldable pub whole : List ℕ → List SendAnswer → Flushed
whole wire answers = record {
  rc = all_sent;
  slot = none;
  off = 0;
  out = record { wire = wire; answers = answers };
}

-- The loop of `sinkFlushOne`; a `send` is offered all that is left of the frame. A `send` of no byte
-- is an error, as is every answer but EAGAIN; no answer left is EAGAIN.
unfoldable pub flush_frame : List ℕ → ℕ → List ℕ → List SendAnswer → Flushed
flush_frame f off wire [] =
    if ltb off (length f) then flushed blocked f off wire [] else whole wire []
flush_frame f off wire (takes k ∷ rest) =
    let n = min k (length f - off) in
    let more = flush_frame f (off + n) (wire ++ take n (drop off f)) rest in
    if ltb off (length f)
    then (if ltb 0 n then more else flushed send_error f off wire rest)
    else whole wire (takes k ∷ rest)
flush_frame f off wire (send_blocks ∷ rest) =
    if ltb off (length f) then flushed blocked f off wire rest else whole wire (send_blocks ∷ rest)
flush_frame f off wire (send_fails ∷ rest) =
    if ltb off (length f)
    then flushed send_error f off wire rest
    else whole wire (send_fails ∷ rest)

unfoldable pub sink_flush_one : Option (List ℕ) → ℕ → Out → Flushed
sink_flush_one none off out = record { rc = all_sent; slot = none; off = off; out = out }
sink_flush_one (some f) off out = flush_frame f off out.wire out.answers

-- `sinkFlush`: the control frame first.
unfoldable pub flush_both : Agg → Out → SendRc × Agg × Out
flush_both agg out =
    let c = sink_flush_one agg.pending_ctrl agg.pending_ctrl_off out in
    let a = record agg { pending_ctrl = c.slot; pending_ctrl_off = c.off } in
    let d = sink_flush_one agg.pending agg.pending_off c.out in
    elim c.rc [
      | all_sent ↦ (d.rc, record a { pending = d.slot; pending_off = d.off }, d.out)
      | blocked ↦ (blocked, a, c.out)
      | send_error ↦ (send_error, a, c.out)
    ]

unfoldable pub sink_flush : Agg → Out → SendRc × Agg × Out
sink_flush agg out = elim agg.sink [ none ↦ (all_sent, agg, out) | some c ↦ flush_both agg out ]

-- The loop of `sendCloseBestEffort`: it gives up at the first `send` that takes nothing.
unfoldable pub best_effort : List ℕ → Out → Out
best_effort f out = (flush_frame f 0 out.wire out.answers).out

unfoldable pub send_close_best_effort : (ℕ → Bool) → Out → ℕ → Out
send_close_best_effort malloc out code =
    elim (frame_new malloc op_close ((code / 2 ^ 8 % 256) ∷ (code % 256) ∷ [])) [
      | none ↦ out
      | some f ↦ best_effort f out
    ]

-- `closeSink`; the closed sink is gone.
unfoldable pub close_slot : Option (List ℕ) → ℕ → ℕ
close_slot none off = off
close_slot (some f) off = 0

unfoldable pub close_sink : Agg → Agg
close_sink agg = elim agg.sink [
  | none ↦ agg
  | some c ↦ record agg {
    sink = none;
    pending = none;
    pending_off = close_slot agg.pending agg.pending_off;
    pending_ctrl = none;
    pending_ctrl_off = close_slot agg.pending_ctrl agg.pending_ctrl_off;
  }
]

-- `adoptSink`: the aggregator with its new sink, and what is given to the one before.
unfoldable pub adopt_sink : (ℕ → Bool) → Agg → Conn → Out → Agg × Out
adopt_sink malloc agg new_sink out =
    let given : Out = elim agg.sink [
      | none ↦ out
      | some c ↦ send_close_best_effort malloc out 1001
    ] in
    let adopted = record new_sink {
      epollfd = agg.epollfd;
      role = role_sink;
      watched = true;
      interest = epollin;
    } in
    (record (close_sink agg) { sink = some adopted }, given)

-- `agg->pending || agg->pendingCtrl`.
unfoldable pub has_pending : Agg → Bool
has_pending agg = elim agg.pending [
  | some f ↦ true
  | none ↦ elim agg.pending_ctrl [ some f ↦ true | none ↦ false ]
]

-- `sinkArm`: `EPOLL_CTL_MOD` of the sink.
unfoldable pub sink_arm : Agg → Agg
sink_arm agg =
    let want = if has_pending agg then bit_or epollin epollout else epollin in
    elim agg.sink [
      | none ↦ agg
      | some c ↦ record agg { sink = some (if c.watched then record c { interest = want } else c) }
    ]
