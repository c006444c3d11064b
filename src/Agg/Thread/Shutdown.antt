-- ===== src/Agg/Thread/Shutdown.antt =====
-- The end of `aggregatorThread` of src/agg.c where the sink keeps taking: nothing is lost.
use ws_server.Base.{
  ℕ, ◌+◌, ◌≡◌, refl, ap, ◌∙◌, ◌⊎◌, inl, inr, Bool, true, some, List, [], ◌∷◌, ◌++◌, length, All,
  Option-cases, arith,
}
use ws_server.Conn.{Conn}
use ws_server.Queue.{node_size}
use ws_server.Agg.Message.{Msg}
use ws_server.Agg.Sink.{Out, send_close_best_effort}
use ws_server.Agg.Pump.{Work, agg_pump}
use ws_server.Agg.Pump.Order.{to_come}
use ws_server.Agg.Pump.Willing.{IsWilling}
use ws_server.Agg.Pump.Delivery.{IsHolding, agg_pump-IsDelivered}
use ws_server.Agg.Control.{Serving, control_messages}
use ws_server.Agg.Thread.{Loop, Event, finished, serve, finish, after_serve, aggregator_thread}

module _ (malloc realloc : ℕ → Bool) (conn_of : ℕ → Conn) (socket_of : Conn → Out) where
  -- What the pump is given at the top of the loop, where no control message waits.
  abbrev pub work : Loop → Work
  work l = record {
    agg = l.serving.agg;
    out = l.serving.out;
    queue = l.data_queue;
    parked = l.parked;
    resumed = l.resumed;
  }

  abbrev rounds : Loop → ℕ
  rounds l = length l.data_queue + length l.parked + 1

  abbrev served : Loop → Serving × List Msg → Work → Loop
  served l (s, ctrl_left) w = record l {
    serving = record s { agg = w.agg; out = w.out };
    data_queue = w.queue;
    ctrl_queue = ctrl_left;
    parked = w.parked;
    resumed = w.resumed;
  }

  abbrev after_control : Loop → Serving × List Msg → Loop
  after_control l c =
      served l c (agg_pump malloc (rounds l) (record (work l) { agg = c.0.agg; out = c.0.out })).1

  serve_quiet :
      (l : Loop)
      → l.ctrl_queue ≡ []
      → (serve malloc realloc conn_of socket_of l).1 ≡ after_control l (l.serving, [])
  unfolding serve control_messages
  serve_quiet l c =
      ap
        (λ (q : List Msg).
          after_control l (control_messages malloc realloc conn_of socket_of l.serving q))
        c

  finish_out :
      (l : Loop)
      → (o : Out) × (o ≡ l.serving.out)
        × (((finish malloc realloc conn_of socket_of l).serving.out ≡ o)
            ⊎ ((finish malloc realloc conn_of socket_of l).serving.out
                ≡ send_close_best_effort malloc o 1001))
  unfolding finish
  finish_out l = elim (Option-cases l.serving.agg.sink) [
    | inl none_there ↦ (l.serving.out, refl, inl (ground arith))
    | inr (c, is) ↦ (l.serving.out, refl, inr (ground arith))
  ]

  after_serve_done :
      (l : Loop)
      → l.data_shut ≡ true
      → l.ctrl_shut ≡ true
      → l.data_queue ≡ []
      → l.ctrl_queue ≡ []
      → after_serve malloc realloc conn_of socket_of l
        ≡ finished (finish malloc realloc conn_of socket_of l)
  unfolding after_serve
  after_serve_done l d c q k = ground (arith, ap length q, ap length k)

  first_round :
      (fuel : ℕ) (l : Loop) (waits : List (List Event)) (l' : Loop)
      → after_serve malloc realloc conn_of socket_of (serve malloc realloc conn_of socket_of l).1
        ≡ finished l'
      → aggregator_thread malloc realloc conn_of socket_of fuel l waits ≡ finished l'
  unfolding aggregator_thread
  first_round fuel l [] l' e = e
  first_round fuel l (es ∷ rest) l' e = rw (e, aggregator_thread) refl

  -- Where both queues are shut down, no control message waits, there is a sink, queue nodes can be
  -- allocated, every parked connection holds a message, and the socket takes at least one byte at each
  -- call, for as many calls as there are bytes to come: `aggregatorThread` leaves its loop in its next
  -- round, whatever events would follow, and before it closes the sink it has given it every byte
  -- that was to come, in order, of the frames that wait, the queue and the parked connections. After
  -- these bytes it does no more than to send a CLOSE frame of code 1001.
  pub aggregator_thread-delivers :
      (fuel : ℕ) (l : Loop) (sink : Conn) (waits : List (List Event))
      → malloc node_size ≡ true
      → l.data_shut ≡ true
      → l.ctrl_shut ≡ true
      → l.ctrl_queue ≡ []
      → l.serving.agg.sink ≡ some sink
      → All IsHolding l.parked
      → IsWilling (length (to_come malloc (work l))) l.serving.out.answers
      → (l' : Loop) × (o : Out) × (aggregator_thread malloc realloc conn_of socket_of fuel l waits
          ≡ finished l')
        × (o.wire ≡ l.serving.out.wire ++ to_come malloc (work l))
        × ((l'.serving.out ≡ o) ⊎ (l'.serving.out ≡ send_close_best_effort malloc o 1001))
  aggregator_thread-delivers fuel l sink waits memory d c k s holding willing =
      let done =
        agg_pump-IsDelivered malloc memory (rounds l) (work l) sink s holding willing
          (omega arith) in
      let x = after_control l (l.serving, []) in
      let (o, same, closes) = finish_out x in
      let ends : after_serve malloc realloc conn_of socket_of
            (serve malloc realloc conn_of socket_of l).1
          ≡ finished (finish malloc realloc conn_of socket_of x) =
        ap (after_serve malloc realloc conn_of socket_of) (serve_quiet l k)
        ∙ after_serve_done x d c done.no_message refl in
      (
        finish malloc realloc conn_of socket_of x,
        o,
        first_round fuel l waits (finish malloc realloc conn_of socket_of x) ends,
        ap (λ (p : Out). p.wire) same ∙ done.given_all,
        closes,
      )
