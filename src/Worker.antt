-- ===== src/Worker.antt =====
-- src/worker.c: what a worker thread does with a connection that it took from the queue. The
-- handlers are functions of the connection and of what the threads share.
pub mod Frames
pub mod Handshake
pub mod Thread
use ws_server.Base.{
  ℕ, ◌+◌, ◌/◌, ◌%◌, ◌^◌, bit_or, Bool, true, false, Option, none, some, List, [], ◌∷◌, ◌++◌,
  if◌then◌else◌,
}
use ws_server.Buffer.{Buf, buf_append}
use ws_server.Buffer.Socket.{SendAnswer, SendRc, all_sent, blocked, send_error, Sent, buf_send}
use ws_server.Agg.Message.{Msg, Timespec, frame_new, op_close}
use ws_server.Conn.{Conn}

pub data Disposition : Type 0 where
  rearm_in rearm_out rearm_inout disp_close parked handoff : Disposition

-- The part of `ServerConfig_t` that the handlers read.
pub record Config : Type 0 where
  pub sink_path : List ℕ
  pub handshake_max : ℕ
  pub max_frame : ℕ
  pub max_message : ℕ
  pub high_watermark : ℕ

-- What the threads share: the two queues to the aggregator and the park list, as the values that
-- they hold, oldest first. A parked connection is named by its id.
pub record Shared : Type 0 where
  pub data_queue : List Msg
  pub ctrl_queue : List Msg
  pub park_list : List ℕ

-- What the program takes from its surroundings: which sizes `malloc` and `realloc` give, and the
-- time of day.
pub record Env : Type 0 where
  pub malloc : ℕ → Bool
  pub realloc : ℕ → Bool
  pub now : Timespec

abbrev pub epollin : ℕ
epollin = 0x1

abbrev pub epollout : ℕ
epollout = 0x4

-- EPOLLET | EPOLLRDHUP | EPOLLONESHOT.
abbrev pub edge_once : ℕ
edge_once = 0xC000_2000

-- `EPOLL_CTL_MOD`: a descriptor that is not in the set stays out of it.
pub rearm_epoll : Conn → ℕ → Conn
rearm_epoll c events = if c.watched then record c { interest = bit_or events edge_once } else c

-- `none` is a connection that `connClose` has closed and freed.
pub apply_disposition : Conn → Disposition → Option Conn
apply_disposition c rearm_in = some (rearm_epoll c epollin)
apply_disposition c rearm_out = some (rearm_epoll c epollout)
apply_disposition c rearm_inout = some (rearm_epoll c (bit_or epollin epollout))
apply_disposition c disp_close = none
apply_disposition c parked = some c
apply_disposition c handoff = some c

-- `bufAppend(&c->tx, f->bytes, f->len)` where the frame could be made.
unfoldable pub append_frame : Env → Conn → Option (List ℕ) → Conn
append_frame env c none = c
append_frame env c (some f) = record c { tx = buf_append env.realloc c.tx f }

unfoldable pub send_close_and_mark : Env → Conn → ℕ → Conn
send_close_and_mark env c code =
    if c.close_after_send
    then c
    else record (append_frame env c
        (frame_new env.malloc op_close ((code / 2 ^ 8 % 256) ∷ (code % 256) ∷ []))) {
          close_after_send = true;
        }

-- What a handler returns, with the bytes that the peer has been given.
pub record Handled : Type 0 where
  pub disp : Disposition
  pub conn : Conn
  pub shared : Shared
  pub wire : List ℕ

abbrev pub tx_disposition : SendRc → Bool → Disposition
tx_disposition send_error closing = disp_close
tx_disposition blocked closing = rearm_inout
tx_disposition all_sent closing = if closing then disp_close else rearm_in

unfoldable pub flush_tx : Conn → Shared → List ℕ → List SendAnswer → Handled
flush_tx c s wire answers =
    let r = buf_send c.tx wire answers in
    record {
      disp = tx_disposition r.rc c.close_after_send;
      conn = record c { tx = r.buf };
      shared = s;
      wire = r.wire;
    }
