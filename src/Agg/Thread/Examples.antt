-- ===== src/Agg/Thread/Examples.antt =====
-- `aggregatorThread` of src/agg.c at its end.
use ws_server.Base.{ℕ, ◌≡◌, refl, ◌⊎◌, true, false, [], ◌∷◌, ◌++◌}
use ws_server.Conn.{Conn}
use ws_server.Agg.Examples.{enough_memory, two_bytes, sink, work, slow-IsWilling}
use ws_server.Agg.Sink.{Out, send_close_best_effort}
use ws_server.Agg.State.{agg_init}
use ws_server.Agg.Pump.{agg_pump}
use ws_server.Agg.Pump.Order.{to_come}
use ws_server.Agg.Control.{control_messages, drain_message, drain_messages, agg_drain_for_shutdown}
use ws_server.Agg.Thread.{
  Loop, data_pushed, queues_shut, finished, finish, drain, serve, after_serve, handle_event,
  handle_events, free_parked, aggregator_thread,
}
use ws_server.Agg.Thread.Ends.{IsOver, IsDrained, SomeFails, aggregator_thread-IsOver}
use ws_server.Agg.Thread.Shutdown

abbrev conn_of : ℕ → Conn
conn_of id = sink

abbrev socket_of : Conn → Out
socket_of c = work.out

abbrev loop : Loop
loop = record {
  serving = record { agg = work.agg; out = work.out; past = [] };
  data_queue = work.queue;
  data_shut = true;
  ctrl_queue = [];
  ctrl_shut = true;
  parked = work.parked;
  resumed = [];
  freed = [];
}

aggregator_thread-delivers_example :
    (l' : Loop) × (o : Out) × (aggregator_thread enough_memory enough_memory conn_of socket_of 5
        loop []
      ≡ finished l')
    × (o.wire ≡ [] ++ to_come enough_memory work)
    × ((l'.serving.out ≡ o) ⊎ (l'.serving.out ≡ send_close_best_effort enough_memory o 1001))
aggregator_thread-delivers_example =
    Shutdown.aggregator_thread-delivers enough_memory enough_memory conn_of socket_of 5 loop sink []
      refl refl refl refl refl ((two_bytes, refl), tt) slow-IsWilling

-- No sink: a message is pushed, then the queues are shut down.
abbrev lonely : Loop
lonely = record loop {
  serving = record { agg = agg_init 8 2; out = work.out; past = [] };
  data_shut = false;
  ctrl_shut = false;
  data_queue = [];
  parked = [];
}

abbrev left : Loop
left = record lonely { data_shut = true; ctrl_shut = true }

lonely_ends :
    aggregator_thread enough_memory enough_memory conn_of socket_of 5 lonely
      ((data_pushed two_bytes ∷ queues_shut ∷ []) ∷ [])
    ≡ finished left
unfolding aggregator_thread agg_init agg_pump after_serve serve handle_events handle_event
    control_messages finish drain free_parked agg_drain_for_shutdown drain_messages drain_message
lonely_ends = refl

aggregator_thread-IsOver_example :
    IsOver left × (SomeFails ((data_pushed two_bytes ∷ queues_shut ∷ []) ∷ []) ⊎ IsDrained left)
aggregator_thread-IsOver_example =
    aggregator_thread-IsOver enough_memory enough_memory conn_of socket_of 5 lonely left
      ((data_pushed two_bytes ∷ queues_shut ∷ []) ∷ []) lonely_ends
