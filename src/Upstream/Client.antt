-- ===== src/Upstream/Client.antt =====
-- `UpstreamClient_t` of src/ws_client.c, and the operations that queue what the client sends.
use ws_server.Base.{
  ℕ, ◌+◌, ◌*◌, ◌/◌, ◌%◌, ◌^◌, bit_or, Bool, true, false, not, ◌&&◌, ◌||◌, Option, none, some, List,
  [], ◌∷◌, ◌++◌, if◌then◌else◌, ltb, ◌==◌, length, take,
}
use ws_server.Buffer.{Buf, no_buf, buf_len, buf_reset}
use ws_server.Buffer.Socket.{SendAnswer, all_sent, blocked, send_error, buf_send}
use ws_server.Ws.Utf8.{Utf8St, utf8_reset}
use ws_server.Agg.Message.{Msg, op_close}
use ws_server.Worker.{Env, epollin, epollout}
use ws_server.Upstream.{queue_masked_frame, reconnect_delay_ms}

pub data UpstreamState : Type 0 where
  upstream_disconnected upstream_connecting upstream_handshake upstream_open upstream_closing :
      UpstreamState

-- `fd` is `none` for -1. `interest` and `mods` are the kernel's side of `epoll_ctl`: a descriptor of a
-- client is in the reactor's epoll as long as it is open, and `mods` says of the next EPOLL_CTL_MODs
-- for this client, call by call, which succeed; those behind its last entry do.
pub record UpstreamClient : Type 0 where
  pub id : ℕ
  pub fd : Option ℕ
  pub host : List ℕ
  pub port : ℕ
  pub path : List ℕ
  pub state : UpstreamState
  pub rx : Buf
  pub tx : Buf
  pub msg : Buf
  pub msg_opcode : ℕ
  pub fragmenting : Bool
  pub msg_utf8 : Utf8St
  pub expected_accept : List ℕ
  pub reconnect_at_ms : ℕ
  pub reconnect_attempt : ℕ
  pub pending_msg : Option Msg
  pub read_paused : Bool
  pub interest : ℕ
  pub mods : List Bool

-- What the reactor works on: a client, the data queue, and what `randomBytes` is going to give, one
-- entry for each call; a call behind the last fails.
pub record Link : Type 0 where
  pub client : UpstreamClient
  pub queue : List Msg
  pub draws : List (Option (List ℕ))

unfoldable pub draw : List (Option (List ℕ)) → Option (List ℕ) × List (Option (List ℕ))
draw [] = (none, [])
draw (d ∷ rest) = (d, rest)

abbrev pub epollrdhup : ℕ
epollrdhup = 0x2000

abbrev pub reads_in : UpstreamState → Bool
reads_in upstream_handshake = true
reads_in upstream_open = true
reads_in _ = false

abbrev pub connects_in : UpstreamState → Bool
connects_in upstream_connecting = true
connects_in _ = false

unfoldable pub wanted_events : UpstreamClient → ℕ
wanted_events c =
    let reading =
      if not c.read_paused && reads_in c.state then bit_or epollrdhup epollin else epollrdhup in
    if connects_in c.state || ltb 0 (buf_len c.tx) then bit_or reading epollout else reading

-- `epoll_ctl` with EPOLL_CTL_MOD, on a client that has a descriptor.
unfoldable pub epoll_mod : UpstreamClient → ℕ → List Bool → UpstreamClient × Bool
epoll_mod c events [] = (record c { interest = events }, true)
epoll_mod c events (true ∷ mods) = (record c { interest = events; mods = mods }, true)
epoll_mod c events (false ∷ mods) = (record c { mods = mods }, false)

-- The Boolean tells the return of 0 from that of -1.
unfoldable pub update_events : UpstreamClient → UpstreamClient × Bool
update_events c = elim c.fd [ none ↦ (c, false) | some fd ↦ epoll_mod c (wanted_events c) c.mods ]

-- `queueMaskedFrame` whole.
unfoldable pub send_frame : Env → Link → ℕ → List ℕ → Link × Bool
send_frame env k opcode payload =
    let (random, draws) = draw k.draws in
    let (tx, goes_on) =
      queue_masked_frame env.malloc env.realloc random k.client.tx opcode payload in
    let c = record k.client { tx = tx } in
    let (d, ok) = update_events c in
    if goes_on
    then (record k { client = d; draws = draws }, ok)
    else (record k { client = c; draws = draws }, false)

unfoldable pub begin_close : Env → Link → ℕ → Link × Bool
begin_close env k code =
    send_frame env (record k { client = record k.client { state = upstream_closing } }) op_close
      ((code / 2 ^ 8 % 256) ∷ (code % 256) ∷ [])

-- `upstreamDisconnect`; `now_ms` is what `nowMs` gives.
unfoldable pub upstream_disconnect : ℕ → UpstreamClient → UpstreamClient
upstream_disconnect now_ms c = record c {
  fd = none;
  rx = buf_reset c.rx;
  tx = buf_reset c.tx;
  msg = buf_reset c.msg;
  fragmenting = false;
  read_paused = false;
  pending_msg = none;
  state = upstream_disconnected;
  reconnect_attempt =
      if ltb c.reconnect_attempt 10 then c.reconnect_attempt + 1 else c.reconnect_attempt;
  reconnect_at_ms = (now_ms + reconnect_delay_ms c.reconnect_attempt) % 2 ^ 64;
}

-- `flushUpstreamTx`: the loop is that of `bufSend`. The Boolean tells the return of 0 from that of -1.
unfoldable pub flush_upstream_tx :
    UpstreamClient → List ℕ → List SendAnswer → UpstreamClient × Bool × List ℕ
flush_upstream_tx c wire sends =
    let r = buf_send c.tx wire sends in
    let (d, ok) = update_events (record c { tx = r.buf }) in
    elim r.rc [
      | send_error ↦ (record c { tx = r.buf }, false, r.wire)
      | all_sent ↦ (d, ok, r.wire)
      | blocked ↦ (d, ok, r.wire)
    ]

-- The clients of a reactor, and the id of the next.
pub record UpstreamReactor : Type 0 where
  pub clients : List UpstreamClient
  pub capacity : ℕ
  pub next_id : ℕ

abbrev pub no_clients : UpstreamReactor
no_clients = record { clients = []; capacity = 0; next_id = 1000000 }

-- `snprintf(c->host, sizeof(c->host), "%s", host)`: at most 255 characters.
unfoldable pub new_client : ℕ → List ℕ → ℕ → List ℕ → UpstreamClient
new_client id host port path = record {
  id = id;
  fd = none;
  host = take 255 host;
  port = port;
  path = take 255 path;
  state = upstream_disconnected;
  rx = no_buf;
  tx = no_buf;
  msg = no_buf;
  msg_opcode = 0;
  fragmenting = false;
  msg_utf8 = utf8_reset;
  expected_accept = [];
  reconnect_at_ms = 0;
  reconnect_attempt = 0;
  pending_msg = none;
  read_paused = false;
  interest = 0;
  mods = [];
}

-- The array of clients, grown where it is full; `none` is the return of -1. A pointer has 8 bytes, and
-- `client_size` is that of the structure.
unfoldable pub make_room : (ℕ → Bool) → UpstreamReactor → Option UpstreamReactor
make_room realloc r =
    let size = if r.capacity == 0 then 4 else r.capacity * 2 in
    if length r.clients == r.capacity
    then (if realloc (size * 8) then some (record r { capacity = size }) else none)
    else some r

unfoldable pub upstream_add :
    (ℕ → Bool) → (ℕ → Bool) → ℕ → UpstreamReactor → List ℕ → ℕ → List ℕ → UpstreamReactor × Bool
upstream_add malloc realloc client_size r host port path =
    if (port == 0) || ltb 65535 port then (r, false) else elim (make_room realloc r) [
      | none ↦ (r, false)
      | some s ↦
          if malloc client_size
          then (
            record s {
              clients = s.clients ++ new_client s.next_id host port path ∷ [];
              next_id = (s.next_id + 1) % 2 ^ 64;
            },
            true,
          )
          else (s, false)
    ]
