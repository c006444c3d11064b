-- ===== src/Agg/State.antt =====
-- `Agg_t` of inc/agg.h, without the park list, and `aggInit`, `aggOnMessage` and `aggOnTick` of src/agg.c.
use ws_server.Base.{
  ℕ, ◌+◌, ◌%◌, ◌^◌, Bool, Option, none, some, List, [], if◌then◌else◌, ◌==◌, length,
}
use ws_server.Conn.{Conn}
use ws_server.Agg.Message.{Msg, Timespec, frame_new, op_bin, op_text}
use ws_server.Agg.Sources.{AggSrc, count_source}
use ws_server.Agg.Json.{json_cap, json_message}

-- `src` holds the `srcCount` entries in use; a frame is the bytes of it; `epollfd` is `none` for -1.
pub record Agg : Type 0 where
  pub src : List AggSrc
  pub sink : Option Conn
  pub epollfd : Option ℕ
  pub pending : Option (List ℕ)
  pub pending_off : ℕ
  pub pending_ctrl : Option (List ℕ)
  pub pending_ctrl_off : ℕ
  pub high_watermark : ℕ
  pub low_watermark : ℕ
  pub stat_msgs_in : ℕ
  pub stat_bytes_in : ℕ
  pub stat_msgs_out : ℕ

unfoldable pub agg_init : ℕ → ℕ → Agg
agg_init high low = record {
  src = [];
  sink = none;
  epollfd = none;
  pending = none;
  pending_off = 0;
  pending_ctrl = none;
  pending_ctrl_off = 0;
  high_watermark = high;
  low_watermark = low;
  stat_msgs_in = 0;
  stat_bytes_in = 0;
  stat_msgs_out = 0;
}

-- The frame for a message with this number: a binary message goes out as it is, another as text.
-- `none` is NULL, where no memory is there.
unfoldable pub message_frame : (ℕ → Bool) → Msg → ℕ → Option (List ℕ)
message_frame malloc m seq =
    let text = frame_new malloc op_text (json_message m seq) in
    if m.opcode == op_bin
    then frame_new malloc op_bin m.payload
    else if malloc (json_cap m)
    then text
    else none

-- The counters of `aggOnMessage` that are there before the frame.
unfoldable pub count_in : Agg → Msg → List AggSrc → Agg
count_in agg m src = record agg {
  src = src;
  stat_msgs_in = (agg.stat_msgs_in + 1) % 2 ^ 64;
  stat_bytes_in = (agg.stat_bytes_in + length m.payload) % 2 ^ 64;
}

unfoldable pub count_out : Agg → Option (List ℕ) → Agg
count_out agg none = agg
count_out agg (some f) = record agg { stat_msgs_out = (agg.stat_msgs_out + 1) % 2 ^ 64 }

unfoldable pub agg_on_message : (ℕ → Bool) → Agg → Msg → Agg × Option (List ℕ)
agg_on_message malloc agg m =
    let (src, seq) = count_source agg.src m in
    let f = message_frame malloc m seq in (count_out (count_in agg m src) f, f)

unfoldable pub agg_on_tick : Agg → Timespec → Option (List ℕ)
agg_on_tick agg now = none
