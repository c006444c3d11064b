-- ===== src/Agg/Pump.antt =====
-- `aggPump` and `resumeParked` of src/agg.c: the messages of the data queue become frames for the sink,
-- and a parked connection is resumed whenever the queue is at its low watermark.
pub mod Round
pub mod Order
pub mod Willing
pub mod Delivery
pub mod Ends
use ws_server.Base.{
  ℕ, zero, suc, bit_or, Bool, true, false, Option, none, some, List, [], ◌∷◌, ◌++◌, if◌then◌else◌,
  ltb, leb, ◌==◌, length,
}
use ws_server.Buffer.{buf_len}
use ws_server.Buffer.Socket.{SendRc, all_sent, blocked, send_error}
use ws_server.Conn.{Conn}
use ws_server.Queue.{enqueue}
use ws_server.Agg.Message.{Msg}
use ws_server.Agg.State.{Agg, agg_on_message}
use ws_server.Agg.Sink.{Out, sink_flush, close_sink, sink_arm}
use ws_server.Worker.{epollin, epollout, edge_once}

-- What the pump works on. `parked` is the park list, oldest first, and `resumed` the connections that
-- were given back to their workers' epoll, in turn.
pub record Work : Type 0 where
  pub agg : Agg
  pub out : Out
  pub queue : List Msg
  pub parked : List Conn
  pub resumed : List Conn

-- The returns of `aggPump`: there is no sink; it was lost; it takes no more for now; the queue is empty.
pub data PumpEnd : Type 0 where
  no_sink lost waits drained out_of_fuel : PumpEnd

-- `EPOLL_CTL_ADD` in `resumeParked`, which fails for a descriptor that is in the set.
unfoldable pub rejoin : Conn → Conn
rejoin c =
    let events = if ltb 0 (buf_len c.tx) then bit_or epollin epollout else epollin in
    if c.watched
    then record c { pending_msg = none }
    else record c { pending_msg = none; watched = true; interest = bit_or events edge_once }

-- The message that a parked connection holds joins the queue. A connection is parked with a message
-- only; the code would push a null pointer for one without, and the model pushes nothing.
unfoldable pub push_pending : (ℕ → Bool) → List Msg → Option Msg → List Msg
push_pending malloc queue none = queue
push_pending malloc queue (some m) = enqueue malloc queue m

unfoldable pub resume_next : (ℕ → Bool) → Work → List Conn → Work
resume_next malloc w [] = w
resume_next malloc w (c ∷ cs) = record w {
  queue = push_pending malloc w.queue c.pending_msg;
  parked = cs;
  resumed = w.resumed ++ rejoin c ∷ [];
}

unfoldable pub resume_at_low : (ℕ → Bool) → Work → Work
resume_at_low malloc w =
    if leb (length w.queue) w.agg.low_watermark then resume_next malloc w w.parked else w

unfoldable pub set_pending : Agg → Option (List ℕ) → Agg
set_pending agg none = agg
set_pending agg (some f) = record agg { pending = some f; pending_off = 0 }

-- A message that was taken from the queue.
unfoldable pub encode_next : (ℕ → Bool) → Work → Msg → List Msg → Work
encode_next malloc w m rest =
    let (agg, f) = agg_on_message malloc w.agg m in
    record w { agg = set_pending agg f; queue = rest }

-- The loop, of at most `fuel` rounds.
unfoldable pub agg_pump : (ℕ → Bool) → ℕ → Work → PumpEnd × Work
agg_pump malloc zero w = (out_of_fuel, w)
agg_pump malloc (suc fuel) w = elim w.agg.sink [
  | none ↦ (no_sink, w)
  | some sink ↦
      let (rc, agg, out) = sink_flush w.agg w.out in
      let r = resume_at_low malloc (record w { agg = agg; out = out }) in
      elim rc [
        | send_error ↦ (lost, record w { agg = close_sink agg; out = out })
        | blocked ↦ (waits, record w { agg = sink_arm agg; out = out })
        | all_sent ↦ elim r.queue [
          | [] ↦ (drained, record r { agg = sink_arm r.agg })
          | m ∷ rest ↦ agg_pump malloc fuel (encode_next malloc r m rest)
        ]
      ]
]
