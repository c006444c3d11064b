-- ===== src/Worker/Frames/Examples.antt =====
-- Runs of `handleWsOpen` of src/worker.c, and its theorems at a concrete connection.
use ws_server.Base.{ℕ, refl, true, false, none, some, List, [], ◌∷◌, arith}
use ws_server.Buffer.{no_buf, buf_len, buf_data}
use ws_server.Buffer.Laws.{IsBuf, content}
use ws_server.Buffer.Socket.{bytes}
use ws_server.Ws.Utf8.{utf8_reset}
use ws_server.Conn.{Conn, st_ws_open, role_source}
use ws_server.Worker.{Config, Shared, Env}
use ws_server.Worker.Frames.{frame_loop, handle_ws_open}
use ws_server.Worker.Frames.Invariant.{IsGathered, IsSafe}
use ws_server.Worker.Frames.Outcome.{handle_ws_open-IsSafe}
use ws_server.Worker.Frames.Loop.{AtRest, frame_loop-AtRest}

abbrev pub env : Env
env = record { malloc = λ n. true; realloc = λ n. true; now = record { sec = 7; nsec = 0 } }

abbrev pub conf : Config
conf = record {
  sink_path = [];
  handshake_max = 8192;
  max_frame = 65536;
  max_message = 4194304;
  high_watermark = 256;
}

-- An open connection with the number 5.
abbrev pub open_conn : Conn
open_conn = record {
  fd = 9;
  epollfd = some 3;
  id = 5;
  role = role_source;
  state = st_ws_open;
  close_after_send = false;
  rx = no_buf;
  tx = no_buf;
  msg = no_buf;
  msg_opcode = 0;
  fragmenting = false;
  msg_utf8 = utf8_reset;
  pending_msg = none;
  watched = false;
  interest = 0;
}

abbrev pub idle : Shared
idle = record { data_queue = []; ctrl_queue = []; park_list = [] }

-- "Hi", masked, in a single text frame.
abbrev pub hi_frame : List ℕ
hi_frame = 0x81 ∷ 0x82 ∷ 1 ∷ 2 ∷ 3 ∷ 4 ∷ 0x49 ∷ 0x6B ∷ []

abbrev pub hi_conn : Conn
hi_conn = record open_conn { rx = record { p = hi_frame; cap = 256; len = 8; off = 0 } }

hi_conn-IsBuf : IsBuf hi_conn.rx
hi_conn-IsBuf = record { in_order = omega arith; written = omega arith; within = omega arith }

open_conn-IsGathered : IsGathered conf open_conn
unfolding content buf_len buf_data
open_conn-IsGathered = record {
  valid = record { in_order = omega arith; written = omega arith; within = omega arith };
  front = refl;
  fits = omega arith;
  seen = λ o. cc;
}

handle_ws_open-IsSafe_example :
    (let r = handle_ws_open env conf open_conn idle [] (bytes hi_frame ∷ []) [] in
      IsSafe conf open_conn r.conn idle r.shared)
handle_ws_open-IsSafe_example =
    handle_ws_open-IsSafe env conf open_conn idle [] (bytes hi_frame ∷ []) [] (λ n. refl)
      (omega arith) (omega arith) open_conn-IsGathered

frame_loop-AtRest_example : AtRest (frame_loop env conf 9 hi_conn idle)
frame_loop-AtRest_example =
    frame_loop-AtRest env conf 9 hi_conn idle hi_conn-IsBuf (unfold buf_len in omega arith)
