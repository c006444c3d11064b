-- ===== src/Agg/Message.antt =====
-- `Msg_t`, `Frame_t` and what makes them, of src/agg.c and inc/agg.h. `malloc` says which sizes the
-- allocator gives, `now` is the reading of the clock.
use ws_server.Base.{ℕ, ◌+◌, Bool, Option, none, some, List, [], ◌++◌, if◌then◌else◌, length}
use ws_server.Ws.Header.{encode_header}

pub record Timespec : Type 0 where
  pub sec : ℕ
  pub nsec : ℕ

pub data MsgKind : Type 0 where
  msg_data msg_src_down msg_sink_add : MsgKind

-- `len` is the length of `payload`; `conn` is the id of the connection that is handed over.
pub record Msg : Type 0 where
  pub kind : MsgKind
  pub src_id : ℕ
  pub opcode : ℕ
  pub ts : Timespec
  pub conn : Option ℕ
  pub payload : List ℕ

abbrev pub no_time : Timespec
no_time = record { sec = 0; nsec = 0 }

abbrev pub op_cont : ℕ
op_cont = 0x0

abbrev pub op_text : ℕ
op_text = 0x1

abbrev pub op_bin : ℕ
op_bin = 0x2

abbrev pub op_close : ℕ
op_close = 0x8

abbrev pub op_ping : ℕ
op_ping = 0x9

abbrev pub op_pong : ℕ
op_pong = 0xA

-- The sizes of the two structures ahead of their payload.
abbrev pub msg_size : ℕ
msg_size = 56

abbrev pub frame_size : ℕ
frame_size = 8

module _ (malloc : ℕ → Bool) where
  unfoldable pub msg_new_data : Timespec → ℕ → ℕ → List ℕ → Option Msg
  msg_new_data now src_id opcode payload =
      if malloc (msg_size + length payload)
      then some (record {
        kind = msg_data;
        src_id = src_id;
        opcode = opcode;
        ts = now;
        conn = none;
        payload = payload;
      })
      else none

  unfoldable pub msg_new_src_down : ℕ → Option Msg
  msg_new_src_down src_id =
      if malloc msg_size
      then some (record {
        kind = msg_src_down;
        src_id = src_id;
        opcode = 0;
        ts = no_time;
        conn = none;
        payload = [];
      })
      else none

  unfoldable pub msg_new_sink_add : ℕ → Option Msg
  msg_new_sink_add conn =
      if malloc msg_size
      then some (record {
        kind = msg_sink_add;
        src_id = 0;
        opcode = 0;
        ts = no_time;
        conn = some conn;
        payload = [];
      })
      else none

  -- The bytes of an outgoing frame.
  unfoldable pub frame_new : ℕ → List ℕ → Option (List ℕ)
  frame_new opcode payload =
      let hdr = encode_header opcode (length payload) in
      if malloc (frame_size + length hdr + length payload) then some (hdr ++ payload) else none
