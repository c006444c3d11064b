-- ===== src/Conn.antt =====
-- `Conn_t` of inc/conn.h: one TCP connection, and `connNew` of src/conn.c.
pub mod Registry
pub mod Links
pub mod Registered
pub mod Opening
pub mod Closing
pub mod DestroyAll
mod Examples
use ws_server.Base.{ℕ, Bool, false, Option, none, some}
use ws_server.Buffer.{Buf, no_buf}
use ws_server.Ws.Utf8.{Utf8St, u8_none, state}
use ws_server.Agg.Message.{Msg}

pub data Role : Type 0 where
  role_undecided role_source role_sink : Role

pub data ConnState : Type 0 where
  st_handshake_read st_handshake_send st_ws_open : ConnState

-- `epollfd` is `none` for -1. `watched` says whether the descriptor is in that epoll, and `interest`
-- for which events: it is the kernel's side of `epoll_ctl`.
pub record Conn : Type 0 where
  pub fd : ℕ
  pub epollfd : Option ℕ
  pub id : ℕ
  pub role : Role
  pub state : ConnState
  pub close_after_send : Bool
  pub rx : Buf
  pub tx : Buf
  pub msg : Buf
  pub msg_opcode : ℕ
  pub fragmenting : Bool
  pub msg_utf8 : Utf8St
  pub pending_msg : Option Msg
  pub watched : Bool
  pub interest : ℕ

-- A fresh connection: zeroed, with the next id, waiting for the handshake.
unfoldable pub conn_new : ℕ → ℕ → ℕ → Conn
conn_new fd epollfd next_id = record {
  fd = fd;
  epollfd = some epollfd;
  id = next_id;
  role = role_undecided;
  state = st_handshake_read;
  close_after_send = false;
  rx = no_buf;
  tx = no_buf;
  msg = no_buf;
  msg_opcode = 0;
  fragmenting = false;
  msg_utf8 = state 0 u8_none;
  pending_msg = none;
  watched = false;
  interest = 0;
}
