-- ===== src/Upstream/Reactor/Steps.antt =====
-- What each step of `handleUpstreamEvent` of src/ws_client.c leaves of a client that has a socket.
use ws_server.Base.{
  ℕ, zero, suc, ◌+◌, inl, inr, not, ◌&&◌, List, [], ◌∷◌, leb, length, take, Bool-cases,
  Option-cases,
}
use ws_server.Base64.{base64_encode}
use ws_server.Ws.Accept.{compute_accept}
use ws_server.Http.{find_header_end}
use ws_server.Buffer.{buf_len}
use ws_server.Buffer.Laws.{content}
use ws_server.Buffer.Socket.{
  RecvAnswer, bytes, end_of_stream, recv_blocks, recv_fails, after_recv, calls, SendAnswer,
  buf_send,
}
use ws_server.Worker.{Config, Env}
use ws_server.Upstream.Client.{UpstreamClient, Link, draw, flush_upstream_tx}
use ws_server.Upstream.Frames.{
  LinkRound, stop, fails, paused, go_on, with_client, process_buffered_frames,
}
use ws_server.Upstream.Frames.Safety.{RoundIs}
use ws_server.Upstream.Handshake.{
  queue_handshake, request_with, request_text, process_handshake_response, is_switching, read_all,
  read_handshake,
}
use ws_server.Agg.Sink.Flush.{SendRc-cases}
use ws_server.Upstream.Reactor.{is_open, after_process, receive, read_frames, read_upstream_frames}
use ws_server.Upstream.Reactor.Alive.{IsAlive, Live, update_events-IsAlive, buffered_frames-Alive}

after_process-Alive : (r : LinkRound) → RoundIs Live r → RoundIs Live (after_process r)
unfolding after_process
after_process-Alive (fails k) v = v
after_process-Alive (paused k) v = v
after_process-Alive (stop k) v =
    elim (Bool-cases (is_open k.client.state && not k.client.read_paused)) [
      | inl more ↦ rw more v
      | inr rest ↦ rw rest v
    ]
after_process-Alive (go_on k) v =
    elim (Bool-cases (is_open k.client.state && not k.client.read_paused)) [
      | inl more ↦ rw more v
      | inr rest ↦ rw rest v
    ]

module _ (env : Env) (conf : Config) where
  process-Alive : (k : Link) → Live k → RoundIs Live (process_buffered_frames env conf k)
  unfolding process_buffered_frames
  process-Alive k v = buffered_frames-Alive env conf (buf_len k.client.rx + 1) k v

  receive-Alive : (k : Link) (data' : List ℕ) → Live k → RoundIs Live (receive env conf k data')
  unfolding receive with_client
  receive-Alive k data' v = after_process-Alive _ (process-Alive _ v)

  read_frames-Alive :
      (fuel : ℕ) (k : Link) (answers : List RecvAnswer)
      → Live k
      → RoundIs Live (read_frames env conf fuel k answers)
  unfolding read_frames
  read_frames-Alive zero k answers v = v
  read_frames-Alive (suc fuel) k [] v = v
  read_frames-Alive (suc fuel) k (bytes [] ∷ rest) v = v
  read_frames-Alive (suc fuel) k (end_of_stream ∷ rest) v = v
  read_frames-Alive (suc fuel) k (recv_blocks ∷ rest) v = v
  read_frames-Alive (suc fuel) k (recv_fails ∷ rest) v = v
  read_frames-Alive (suc fuel) k (bytes (x ∷ xs) ∷ rest) v =
      behind (λ j w. read_frames-Alive fuel j (after_recv 8192 (x ∷ xs) rest) w) _
        (receive-Alive k (take 8192 (x ∷ xs)) v)
    where
      behind :
          ((j : Link)
            → Live j
            → RoundIs Live (read_frames env conf fuel j (after_recv 8192 (x ∷ xs) rest)))
          → (r : LinkRound) → RoundIs Live r
          → RoundIs Live (elim r [
            | go_on j ↦ read_frames env conf fuel j (after_recv 8192 (x ∷ xs) rest)
            | stop j ↦ stop j
            | fails j ↦ fails j
            | paused j ↦ stop j
          ])
      behind later (go_on j) w = later j w
      behind later (stop j) w = w
      behind later (fails j) w = w
      behind later (paused j) w = w

  pub read_upstream_frames-Alive :
      (k : Link) (answers : List RecvAnswer)
      → Live k
      → RoundIs Live (read_upstream_frames env conf k answers)
  unfolding read_upstream_frames
  read_upstream_frames-Alive k answers v =
      behind (after_process (process_buffered_frames env conf k))
        (after_process-Alive _ (process-Alive k v))
    where
      behind :
          (r : LinkRound)
          → RoundIs Live r
          → RoundIs Live (elim r [
            | go_on j ↦ read_frames env conf (calls answers) j answers
            | stop j ↦ stop j
            | fails j ↦ fails j
            | paused j ↦ stop j
          ])
      behind (go_on j) w = read_frames-Alive (calls answers) j answers w
      behind (stop j) w = w
      behind (fails j) w = w
      behind (paused j) w = w

  response-Alive : (c : UpstreamClient) → IsAlive c → IsAlive (process_handshake_response conf c).0
  unfolding process_handshake_response
  response-Alive c v = elim (Option-cases (find_header_end (content c.rx))) [
    | inl n ↦ rw (process_handshake_response, n) v
    | inr (i, found) ↦
        rw (process_handshake_response, found)
          (elim (Bool-cases (is_switching c (take (i + 4) (content c.rx)))) [
            | inr refused ↦ rw refused v
            | inl passed ↦ rw passed (update_events-IsAlive _ (v.0, λ e. cc))
          ])
  ]

  pub read_handshake-Alive :
      (c : UpstreamClient) (answers : List RecvAnswer)
      → IsAlive c
      → IsAlive (read_handshake env conf c answers).0
  unfolding read_handshake
  read_handshake-Alive c answers v =
      let r = read_all env (calls answers) c.rx answers in
      elim (Bool-cases r.1) [
        | inl waits ↦ rw (read_handshake, waits) (response-Alive (record c { rx = r.0 }) v)
        | inr ended ↦ rw (read_handshake, ended) v
      ]

  pub flush-Alive :
      (c : UpstreamClient) (wire : List ℕ) (sends : List SendAnswer)
      → IsAlive c
      → IsAlive (flush_upstream_tx c wire sends).0
  unfolding flush_upstream_tx
  flush-Alive c wire sends v =
      let r = buf_send c.tx wire sends in
      let told = update_events-IsAlive (record c { tx = r.buf }) v in
      elim (SendRc-cases r.rc) [
        | inl e ↦ rw (flush_upstream_tx, e) told
        | inr (inl e) ↦ rw (flush_upstream_tx, e) told
        | inr (inr e) ↦ rw (flush_upstream_tx, e) v
      ]

  request-Alive :
      (c : UpstreamClient) (nonce : List ℕ) → IsAlive c → IsAlive (request_with env c nonce).0
  unfolding request_with
  request-Alive c nonce v = elim (Option-cases (compute_accept (base64_encode nonce))) [
    | inl n ↦ rw (request_with, n) v
    | inr (a, e) ↦
        rw (request_with, e)
          (elim (Bool-cases (leb 1024 (length (request_text c (base64_encode nonce))))) [
            | inl long ↦ rw long v
            | inr fits ↦ rw fits (update_events-IsAlive _ (v.0, λ e. cc))
          ])
  ]

  pub queue_handshake-Alive : (k : Link) → Live k → Live (queue_handshake env k).0
  unfolding queue_handshake
  queue_handshake-Alive k v = elim (Option-cases (draw k.draws).0) [
    | inl n ↦ rw (queue_handshake, n) v
    | inr (nonce, e) ↦ rw (queue_handshake, e) (request-Alive k.client nonce v)
  ]
