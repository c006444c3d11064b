-- ===== src/Upstream/Handshake.antt =====
-- The handshake of the upstream client in src/ws_client.c: `queueHandshake`, `readHandshake` and
-- `processHandshakeResponse`.
pub mod Opened
pub mod Pair
use ws_server.Base.{
  ℕ, zero, suc, ◌+◌, Bool, true, false, not, ◌&&◌, Option, none, some, List, [], ◌∷◌, ◌++◌,
  if◌then◌else◌, ltb, leb, ◌==◌, length, take,
}
use ws_server.Buffer.{Buf, buf_len, buf_consume, buf_append, buf_reset}
use ws_server.Buffer.Laws.{content}
use ws_server.Buffer.Socket.{
  RecvAnswer, bytes, end_of_stream, recv_blocks, recv_fails, after_recv, calls,
}
use ws_server.Base64.{base64_encode}
use ws_server.Ws.Accept.{compute_accept}
use ws_server.Http.{find_header_end, find_header, lists_token, same_bytes}
use ws_server.Http.Texts
use ws_server.Agg.Json.{decimal}
use ws_server.Worker.{Config, Env}
use ws_server.Upstream.Client.{
  UpstreamClient, upstream_handshake, upstream_open, Link, draw, update_events,
}

-- " HTTP/1.1\r\nHost: "
abbrev pub version_and_host : List ℕ
version_and_host =
    32 ∷ 72 ∷ 84 ∷ 84 ∷ 80 ∷ 47 ∷ 49 ∷ 46 ∷ 49 ∷ 13 ∷ 10 ∷ 72 ∷ 111 ∷ 115 ∷ 116 ∷ 58 ∷ 32 ∷ []

-- "\r\nUpgrade: websocket\r\nConnection: Upgrade\r\nSec-WebSocket-Key: "
abbrev pub upgrade_lines : List ℕ
upgrade_lines =
    13 ∷ 10 ∷ 85 ∷ 112 ∷ 103 ∷ 114 ∷ 97 ∷ 100 ∷ 101 ∷ 58 ∷ 32 ∷ 119 ∷ 101 ∷ 98 ∷ 115 ∷ 111 ∷ 99
    ∷ 107 ∷ 101 ∷ 116 ∷ 13 ∷ 10 ∷ 67 ∷ 111 ∷ 110 ∷ 110 ∷ 101 ∷ 99 ∷ 116 ∷ 105 ∷ 111 ∷ 110 ∷ 58 ∷ 32
    ∷ 85 ∷ 112 ∷ 103 ∷ 114 ∷ 97 ∷ 100 ∷ 101 ∷ 13 ∷ 10 ∷ 83 ∷ 101 ∷ 99 ∷ 45 ∷ 87 ∷ 101 ∷ 98 ∷ 83
    ∷ 111 ∷ 99 ∷ 107 ∷ 101 ∷ 116 ∷ 45 ∷ 75 ∷ 101 ∷ 121 ∷ 58 ∷ 32 ∷ []

-- "\r\nSec-WebSocket-Version: 13\r\n\r\n"
abbrev pub version_lines : List ℕ
version_lines =
    13 ∷ 10 ∷ 83 ∷ 101 ∷ 99 ∷ 45 ∷ 87 ∷ 101 ∷ 98 ∷ 83 ∷ 111 ∷ 99 ∷ 107 ∷ 101 ∷ 116 ∷ 45 ∷ 86 ∷ 101
    ∷ 114 ∷ 115 ∷ 105 ∷ 111 ∷ 110 ∷ 58 ∷ 32 ∷ 49 ∷ 51 ∷ 13 ∷ 10 ∷ 13 ∷ 10 ∷ []

-- "HTTP/1.1 101"
abbrev pub switching_101 : List ℕ
switching_101 = 72 ∷ 84 ∷ 84 ∷ 80 ∷ 47 ∷ 49 ∷ 46 ∷ 49 ∷ 32 ∷ 49 ∷ 48 ∷ 49 ∷ []

-- "Sec-WebSocket-Accept"
abbrev pub accept_name : List ℕ
accept_name =
    83 ∷ 101 ∷ 99 ∷ 45 ∷ 87 ∷ 101 ∷ 98 ∷ 83 ∷ 111 ∷ 99 ∷ 107 ∷ 101 ∷ 116 ∷ 45 ∷ 65 ∷ 99 ∷ 99 ∷ 101
    ∷ 112 ∷ 116 ∷ []

unfoldable pub request_text : UpstreamClient → List ℕ → List ℕ
request_text c key =
    Texts.get_text
    ++ (c.path
        ++ (version_and_host
            ++ (c.host ++ (58 ∷ (decimal c.port ++ (upgrade_lines ++ (key ++ version_lines)))))))

-- The request, for the key of the nonce; it must leave room for the zero in 1024 bytes.
unfoldable pub request_with : Env → UpstreamClient → List ℕ → UpstreamClient × Bool
request_with env c nonce =
    let key = base64_encode nonce in
    elim (compute_accept key) [
      | none ↦ (c, false)
      | some accept ↦
          let d = record c { expected_accept = accept } in
          if leb 1024 (length (request_text c key))
          then (d, false)
          else update_events (record d {
            tx = buf_append env.realloc (buf_reset c.tx) (request_text c key);
            state = upstream_handshake;
          })
    ]

-- `queueHandshake`; the nonce has 16 random bytes.
unfoldable pub queue_handshake : Env → Link → Link × Bool
queue_handshake env k =
    let (random, draws) = draw k.draws in
    elim random [
      | none ↦ (record k { draws = draws }, false)
      | some nonce ↦
          let (c, queued) = request_with env k.client nonce in
          (record k { client = c; draws = draws }, queued)
    ]

-- The accept key is there with 28 characters, those expected.
unfoldable pub accepts : UpstreamClient → Option (List ℕ) → Bool
accepts c none = false
accepts c (some accept) = (length accept == 28) && same_bytes accept (take 28 c.expected_accept)

-- The tests on the header, `data` being its bytes.
unfoldable pub is_switching : UpstreamClient → List ℕ → Bool
is_switching c data' =
    (leb 12 (length data') && same_bytes (take 12 data') switching_101)
    && (lists_token (find_header data' Texts.upgrade_name) Texts.websocket_token
        && (lists_token (find_header data' Texts.connection_name) Texts.upgrade_token
            && accepts c (find_header data' accept_name)))

-- `processHandshakeResponse`; the Boolean tells the return of 0 from that of -1.
unfoldable pub process_handshake_response : Config → UpstreamClient → UpstreamClient × Bool
process_handshake_response conf c = elim (find_header_end (content c.rx)) [
  | none ↦ (c, not (ltb conf.handshake_max (buf_len c.rx)))
  | some i ↦
      if is_switching c (take (i + 4) (content c.rx))
      then update_events
          (record c { rx = buf_consume c.rx (i + 4); state = upstream_open; reconnect_attempt = 0 })
      else (c, false)
]

-- The loop of `readHandshake`, of at most `fuel` calls, with 4096 bytes at a time: the buffer, whether
-- the call blocked in the end, and what is left of the answers.
unfoldable pub read_all : Env → ℕ → Buf → List RecvAnswer → Buf × Bool × List RecvAnswer
read_all env zero b answers = (b, true, answers)
read_all env (suc fuel) b answers = elim answers [
  | [] ↦ (b, true, [])
  | bytes [] ∷ rest ↦ (b, false, rest)
  | bytes (x ∷ xs) ∷ rest ↦
      read_all env fuel (buf_append env.realloc b (take 4096 (x ∷ xs)))
        (after_recv 4096 (x ∷ xs) rest)
  | end_of_stream ∷ rest ↦ (b, false, rest)
  | recv_blocks ∷ rest ↦ (b, true, rest)
  | recv_fails ∷ rest ↦ (b, false, rest)
]

unfoldable pub read_handshake :
    Env → Config → UpstreamClient → List RecvAnswer → UpstreamClient × Bool × List RecvAnswer
read_handshake env conf c answers =
    let (b, blocked, left) = read_all env (calls answers) c.rx answers in
    let d = record c { rx = b } in
    let (e, valid) = process_handshake_response conf d in
    if blocked then (e, valid, left) else (d, false, left)
