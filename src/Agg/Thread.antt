-- ===== src/Agg/Thread.antt =====
-- The loop of `aggregatorThread` of src/agg.c and what follows it, its timer and its `epoll_wait`
-- included; the returns ahead of the loop, where a descriptor cannot be made, are left out. What the
-- other threads push while a round runs joins the queues with the events that follow it.
pub mod Ends
pub mod Shutdown
mod Examples
use ws_server.Base.{
  ℕ, ◌+◌, Bool, true, false, ◌&&◌, not, Option, none, some, List, [], ◌∷◌, ◌++◌, if◌then◌else◌,
  ◌==◌, length,
}
use ws_server.Buffer.Socket.{RecvAnswer}
use ws_server.Conn.{Conn}
use ws_server.Agg.Message.{Msg, Timespec}
use ws_server.Agg.State.{Agg, agg_on_tick}
use ws_server.Agg.Sink.{Out, send_close_best_effort, close_sink, has_pending}
use ws_server.Agg.Pump.{Work, PumpEnd, out_of_fuel, set_pending, agg_pump}
use ws_server.Agg.Control.{Serving, control_messages, agg_drain_for_shutdown, sink_event}

-- What the thread works on: `serving` as in `Control.antt`, the two queues with whether they are shut
-- down, and the park list, as in `Pump.antt`. `freed` are the messages that `aggFreeState` frees.
pub record Loop : Type 0 where
  pub serving : Serving
  pub data_queue : List Msg
  pub data_shut : Bool
  pub ctrl_queue : List Msg
  pub ctrl_shut : Bool
  pub parked : List Conn
  pub resumed : List Conn
  pub freed : List Msg

-- What `epoll_wait` reports, with what happens before the thread looks at it: other threads push,
-- park a connection, or shut the queues down. `wait_failed` is its return of -1 with another error
-- than EINTR.
pub data Event : Type 0 where
  data_pushed ctrl_pushed : Msg → Event
  conn_parked : Conn → Event
  queues_shut : Event
  timer : Timespec → Event
  wait_failed : Event
  sink_ready : (id : ℕ) (hup readable : Bool) → List RecvAnswer → Event

pub data Turn : Type 0 where
  stays finished : Loop → Turn
  stuck : Turn

-- A frame of the timer is dropped where one waits already.
unfoldable pub on_timer : Agg → Timespec → Agg
on_timer agg now = elim (agg_on_tick agg now) [
  | none ↦ agg
  | some f ↦ elim agg.pending [ none ↦ set_pending agg (some f) | some g ↦ agg ]
]

abbrev pub pending_of : Option Msg → List Msg
pending_of none = []
pending_of (some m) = m ∷ []

-- `aggFreeState`, the loop of `parkListPop`: what it leaves of the park list, and the messages that are
-- freed, behind those that were.
unfoldable pub free_parked : List Conn → List Msg → List Conn × List Msg
free_parked [] freed = ([], freed)
free_parked (c ∷ cs) freed = free_parked cs (freed ++ pending_of c.pending_msg)

module _ (malloc realloc : ℕ → Bool) (conn_of : ℕ → Conn) (socket_of : Conn → Out) where
  -- The control queue and the pump, at the top of the loop. Each round of the pump takes a message
  -- of the queue or of a parked connection, so this fuel is enough.
  unfoldable pub serve : Loop → PumpEnd × Loop
  serve l =
      let (s, ctrl_left) =
        control_messages malloc realloc conn_of socket_of l.serving l.ctrl_queue in
      let (end, w) = agg_pump malloc (length l.data_queue + length l.parked + 1) (record {
        agg = s.agg;
        out = s.out;
        queue = l.data_queue;
        parked = l.parked;
        resumed = l.resumed;
      }) in
      (
        end,
        record l {
          serving = record s { agg = w.agg; out = w.out };
          data_queue = w.queue;
          ctrl_queue = ctrl_left;
          parked = w.parked;
          resumed = w.resumed;
        },
      )

  -- What follows the loop.
  unfoldable pub finish : Loop → Loop
  finish l =
      let s = l.serving in
      let closed : Serving = elim s.agg.sink [
        | none ↦ s
        | some c ↦ record s {
          agg = close_sink s.agg;
          out = send_close_best_effort malloc s.out 1001;
        }
      ] in
      let (parked, freed) = free_parked l.parked l.freed in
      record l { serving = closed; parked = parked; freed = freed }

  abbrev pub has_sink : Agg → Bool
  has_sink agg = elim agg.sink [ none ↦ false | some c ↦ true ]

  unfoldable pub drain : Loop → Loop
  drain l =
      let (s, ctrl_left, data_left) =
        agg_drain_for_shutdown malloc realloc conn_of socket_of l.serving l.ctrl_queue
          l.data_queue in
      record l { serving = s; ctrl_queue = ctrl_left; data_queue = data_left }

  -- The two ways out of the loop ahead of `epoll_wait`.
  unfoldable pub after_serve : Loop → Turn
  after_serve l =
      if (l.data_shut && (length l.data_queue == 0)) && (l.ctrl_shut && (length l.ctrl_queue == 0))
      then finished (finish l)
      else if l.data_shut && not (has_sink l.serving.agg)
      then finished (finish (drain l))
      else stays l

  -- One event; a failed `epoll_wait` is the third way out. `stuck` is a handler that has not returned within `fuel` rounds.
  unfoldable pub handle_event : ℕ → Loop → Event → Turn
  handle_event fuel l (data_pushed m) = stays (record l { data_queue = l.data_queue ++ m ∷ [] })
  handle_event fuel l (ctrl_pushed m) = stays (record l { ctrl_queue = l.ctrl_queue ++ m ∷ [] })
  handle_event fuel l (conn_parked c) = stays (record l { parked = l.parked ++ c ∷ [] })
  handle_event fuel l queues_shut = stays (record l { data_shut = true; ctrl_shut = true })
  handle_event fuel l wait_failed = finished (finish l)
  handle_event fuel l (timer now) =
      stays (record l { serving = record l.serving { agg = on_timer l.serving.agg now } })
  handle_event fuel l (sink_ready id hup readable recvs) =
      elim (sink_event malloc realloc conn_of socket_of fuel l.serving id hup readable recvs) [
        | none ↦ stuck
        | some s ↦ stays (record l { serving = s })
      ]

  unfoldable pub handle_events : ℕ → Loop → List Event → Turn
  handle_events fuel l [] = stays l
  handle_events fuel l (e ∷ es) = elim (handle_event fuel l e) [
    | stays l' ↦ handle_events fuel l' es
    | finished l' ↦ finished l'
    | stuck ↦ stuck
  ]

  -- The loop, with the events of each `epoll_wait`; an empty list of them is a wait that is cut
  -- short by a signal, or that nothing ends in time.
  unfoldable pub aggregator_thread : ℕ → Loop → List (List Event) → Turn
  aggregator_thread fuel l [] = after_serve (serve l).1
  aggregator_thread fuel l (es ∷ rest) = elim (after_serve (serve l).1) [
    | finished l' ↦ finished l'
    | stuck ↦ stuck
    | stays l' ↦ elim (handle_events fuel l' es) [
      | stays l'' ↦ aggregator_thread fuel l'' rest
      | finished l'' ↦ finished l''
      | stuck ↦ stuck
    ]
  ]
