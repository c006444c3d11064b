-- ===== src/Agg/Control.antt =====
-- The rest of the aggregator's thread in src/agg.c: the control queue, `aggDrainForShutdown`, and the
-- events of the sink. `conn_of` is the connection that an id stands for, and `socket_of` the sink's
-- side of its socket.
use ws_server.Base.{ℕ, Bool, Option, none, some, List, [], ◌∷◌, ◌++◌, if◌then◌else◌, ◌==◌, not}
use ws_server.Buffer.Socket.{RecvAnswer}
use ws_server.Conn.{Conn}
use ws_server.Agg.Message.{Msg, msg_data, msg_src_down, msg_sink_add}
use ws_server.Agg.Sources.{src_down}
use ws_server.Agg.State.{Agg, agg_on_message}
use ws_server.Agg.Sink.{Out, sink_flush_one, close_sink, adopt_sink}
use ws_server.Agg.Sink.Read.{Heard, sink_read_and_handle}

-- The aggregator, the sink's side of its sink's socket, and those of the sinks before.
pub record Serving : Type 0 where
  pub agg : Agg
  pub out : Out
  pub past : List Out

module _ (malloc realloc : ℕ → Bool) (conn_of : ℕ → Conn) (socket_of : Conn → Out) where
  unfoldable pub adopt : Serving → Conn → Serving
  adopt s c =
      let (agg, given) = adopt_sink malloc s.agg c s.out in
      record { agg = agg; out = socket_of c; past = s.past ++ given ∷ [] }

  unfoldable pub control_message : Serving → Msg → Serving
  control_message s m = elim m.kind [
    | msg_sink_add ↦ elim m.conn [ none ↦ s | some id ↦ adopt s (conn_of id) ]
    | msg_src_down ↦ record s { agg = record s.agg { src = src_down s.agg.src m.src_id } }
    | msg_data ↦ s
  ]

  -- `while (trypop(conf->ctrlQueue, &item) == 0)`, with what it leaves of the queue.
  unfoldable pub control_messages : Serving → List Msg → Serving × List Msg
  control_messages s [] = (s, [])
  control_messages s (m ∷ ms) = control_messages (control_message s m) ms

  -- A message of the data queue at the end: its frame is sent as far as the socket takes it.
  unfoldable pub drain_message : Serving → Msg → Serving
  drain_message s m = elim m.kind [
    | msg_data ↦ elim s.agg.sink [
      | none ↦ s
      | some c ↦
          let (agg, f) = agg_on_message malloc s.agg m in
          elim f [
            | none ↦ record s { agg = agg }
            | some bytes ↦ record s { agg = agg; out = (sink_flush_one (some bytes) 0 s.out).out }
          ]
    ]
    | msg_src_down ↦ s
    | msg_sink_add ↦ s
  ]

  -- `while (trypop(conf->dataQueue, &item) == 0)`, with what it leaves of the queue.
  unfoldable pub drain_messages : Serving → List Msg → Serving × List Msg
  drain_messages s [] = (s, [])
  drain_messages s (m ∷ ms) = drain_messages (drain_message s m) ms

  -- Behind the state, what it leaves of the control queue and of the data queue.
  unfoldable pub agg_drain_for_shutdown :
      Serving → List Msg → List Msg → Serving × List Msg × List Msg
  agg_drain_for_shutdown s ctrl_queue data_queue =
      let (t, ctrl_left) = control_messages s ctrl_queue in
      let (u, data_left) = drain_messages t data_queue in (u, ctrl_left, data_left)

  -- An event of the connection `id`: EPOLLHUP or EPOLLERR, and EPOLLIN. `none` is a handler that has
  -- not returned within `fuel` rounds.
  unfoldable pub sink_event : ℕ → Serving → ℕ → Bool → Bool → List RecvAnswer → Option Serving
  sink_event fuel s id hup readable recvs = elim s.agg.sink [
    | none ↦ some s
    | some c ↦
        let a = s.agg in
        let heard : Heard = record {
          rx = c.rx;
          pending_ctrl = a.pending_ctrl;
          pending_ctrl_off = a.pending_ctrl_off;
          out = s.out;
        } in
        if not (id == c.id)
        then some s
        else if hup
        then some (record s { agg = close_sink a })
        else if readable
        then elim (sink_read_and_handle malloc realloc fuel heard recvs) [
          | none ↦ none
          | some (stays, t) ↦
              let b : Agg = record a {
                sink = some (record c { rx = t.rx });
                pending_ctrl = t.pending_ctrl;
                pending_ctrl_off = t.pending_ctrl_off;
              } in
              some (record s { agg = if stays then b else close_sink b; out = t.out })
        ]
        else some s
  ]
