-- ===== src/Agg/Examples.antt =====
-- The theorems on src/agg.c at concrete messages and sinks.
use ws_server.Base.{
  ℕ, ◌<◌, ◌≡◌, ◌≢◌, refl, Bool, true, none, some, List, [], ◌∷◌, ◌++◌, length, drop, take, arith,
}
use ws_server.Buffer.{no_buf}
use ws_server.Buffer.Laws.{IsBuf}
use ws_server.Buffer.Socket.{RecvAnswer, bytes, SendAnswer, takes, all_sent}
use ws_server.Buffer.Socket.Recv.{available}
use ws_server.Ws.Header.{encode_header}
use ws_server.Conn.{Conn, conn_new}
use ws_server.Agg.Message.{Msg, msg_data, frame_new}
use ws_server.Agg.Sources.{count_source}
use ws_server.Agg.Sources.Counts.{IsCounted, count_source-IsCounted}
use ws_server.Agg.Json.{json_head, json_cap, json_message, end_text}
use ws_server.Agg.Json.Bounds.{IsPrintable, escaped_text, json_message_fits}
use ws_server.Agg.Json.Decode.{read_message}
use ws_server.Agg.Json.RoundTrip.{read_message-json_message}
use ws_server.Agg.State.{Agg, agg_init, message_frame, agg_on_message, count_in, count_out}
use ws_server.Agg.Sink.{Out, flush_frame, flushed, whole, sink_flush_one, flush_both, sink_flush}
use ws_server.Agg.Sink.Flush.{unsent, waiting}
use ws_server.Agg.Sink.Split.{sink_flush_interleaved}
use ws_server.Agg.Sink.Read.{Heard, sink_read_and_handle}
use ws_server.Agg.Sink.Read.Rounds.{IsHeard, sink_read_and_handle-IsHeard}
use ws_server.Queue.{enqueue}
use ws_server.Agg.Pump.{
  Work, lost, agg_pump, resume_at_low, resume_next, push_pending, encode_next, set_pending,
}
use ws_server.Agg.Pump.Order.{frame_bytes, stream, held, to_come, given, agg_pump-given}
use ws_server.Agg.Pump.Willing.{IsWilling}
use ws_server.Agg.Pump.Delivery.{IsDelivered, agg_pump-IsDelivered}

abbrev pub enough_memory : ℕ → Bool
enough_memory n = true

-- A binary message of two bytes, and a text with a quote and a line end in it.
abbrev pub two_bytes : Msg
two_bytes = record {
  kind = msg_data;
  src_id = 7;
  opcode = 2;
  ts = record { sec = 5; nsec = 6000 };
  conn = none;
  payload = 1 ∷ 2 ∷ [];
}

abbrev quoted : Msg
quoted = record two_bytes { opcode = 1; payload = 34 ∷ 97 ∷ 10 ∷ 1 ∷ 92 ∷ [] }

quoted-IsPrintable : IsPrintable quoted 3
quoted-IsPrintable = record {
  src_id = omega arith;
  seq_range = omega arith;
  sec = omega arith;
  nsec = omega arith;
  small = omega arith;
}

count_source-IsCounted_example : IsCounted [] two_bytes (count_source [] two_bytes)
count_source-IsCounted_example = count_source-IsCounted [] two_bytes

json_message_fits_example :
    (length (json_message quoted 3) < json_cap quoted)
    × (json_message quoted 3 ≡ json_head 7 3 quoted.ts ++ (escaped_text quoted.payload ++ end_text))
json_message_fits_example = json_message_fits quoted 3 quoted-IsPrintable

read_message-json_message_example :
    read_message (json_message quoted 3)
    ≡ some (record { src_id = 7; seq = 3; sec = 5; usec = 6; payload = quoted.payload })
read_message-json_message_example = read_message-json_message quoted 3 quoted-IsPrintable

abbrev pub sink : Conn
sink = conn_new 4 3 9

abbrev pub parked_conn : Conn
parked_conn = record (conn_new 5 3 10) { pending_msg = some two_bytes }

-- A sink that takes one byte at a time.
abbrev pub slow : List SendAnswer
slow = takes 1 ∷ takes 1 ∷ takes 1 ∷ takes 1 ∷ takes 1 ∷ takes 1 ∷ takes 1 ∷ takes 1 ∷ []

one : 0 < 1
one = omega arith

abbrev pub work : Work
work = record {
  agg = record (agg_init 8 2) { sink = some sink };
  out = record { wire = []; answers = slow };
  queue = two_bytes ∷ [];
  parked = parked_conn ∷ [];
  resumed = [];
}

pub slow-IsWilling : IsWilling (length (to_come enough_memory work)) slow
unfolding to_come stream held waiting unsent frame_bytes message_frame frame_new encode_header
    agg_init
slow-IsWilling = record {
  taken = (one, (one, (one, (one, (one, (one, (one, (one, tt))))))));
  enough = omega arith;
}

agg_pump-IsDelivered_example : IsDelivered enough_memory refl work (agg_pump enough_memory 3 work)
agg_pump-IsDelivered_example =
    agg_pump-IsDelivered enough_memory refl 3 work sink refl ((two_bytes, refl), tt) slow-IsWilling
      (omega arith)

-- A sink that blocks in the middle of the first frame.
abbrev pub blocking : Work
blocking = record work { out = record { wire = []; answers = takes 3 ∷ [] } }

not_lost : (agg_pump enough_memory 3 blocking).0 ≢ lost
unfolding agg_pump sink_flush flush_both sink_flush_one flush_frame flushed whole agg_init
    resume_at_low resume_next push_pending encode_next agg_on_message message_frame frame_new
    set_pending count_out count_in encode_header enqueue
not_lost e = cc

agg_pump-given_example :
    given enough_memory refl (agg_pump enough_memory 3 blocking).1
    ≡ given enough_memory refl blocking
agg_pump-given_example = agg_pump-given enough_memory refl 3 blocking not_lost

-- The sink has half of a frame of four bytes, and a PONG waits.
abbrev interrupted : Agg
interrupted = record (agg_init 8 2) {
  sink = some sink;
  pending = some (130 ∷ 2 ∷ 1 ∷ 2 ∷ []);
  pending_off = 2;
  pending_ctrl = some (138 ∷ 0 ∷ []);
}

abbrev quick : Out
quick = record { wire = 130 ∷ 2 ∷ []; answers = takes 9 ∷ takes 9 ∷ [] }

interrupted_sent : (sink_flush interrupted quick).0 ≡ all_sent
unfolding sink_flush flush_both sink_flush_one flush_frame whole agg_init
interrupted_sent = refl

sink_flush_interleaved_example :
    (sink_flush interrupted quick).2.wire
    ≡ [] ++ (take 2 (130 ∷ 2 ∷ 1 ∷ 2 ∷ []) ++ ((138 ∷ 0 ∷ []) ++ drop 2 (130 ∷ 2 ∷ 1 ∷ 2 ∷ [])))
unfolding agg_init
sink_flush_interleaved_example =
    sink_flush_interleaved interrupted quick sink [] (130 ∷ 2 ∷ 1 ∷ 2 ∷ []) (138 ∷ 0 ∷ []) 2 refl
      refl refl refl refl refl interrupted_sent

-- A PING of the sink, without a payload, masked.
abbrev ping : List RecvAnswer
ping = bytes (137 ∷ 128 ∷ 1 ∷ 2 ∷ 3 ∷ 4 ∷ []) ∷ []

abbrev listening : Heard
listening = record { rx = no_buf; pending_ctrl = none; pending_ctrl_off = 0; out = quick }

no_buf-IsBuf : IsBuf no_buf
no_buf-IsBuf = record { in_order = omega arith; written = omega arith; within = omega arith }

sink_read_and_handle-IsHeard_example :
    IsHeard enough_memory (sink_read_and_handle enough_memory enough_memory 7 listening ping)
sink_read_and_handle-IsHeard_example =
    sink_read_and_handle-IsHeard enough_memory enough_memory 7 listening ping no_buf-IsBuf
      (unfold available in omega arith) (unfold available in omega arith)
