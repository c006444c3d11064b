-- ===== src/Upstream/Reactor.antt =====
-- The reactor of src/ws_client.c: `readUpstreamFrames`, `handleUpstreamEvent`, `resumePausedClients` and
-- `reconnectClients`.
pub mod Alive
pub mod Steps
pub mod Sound
use ws_server.Base.{
  ℕ, zero, suc, ◌+◌, ◌%◌, ◌^◌, bit_or, Bool, true, false, not, ◌&&◌, ◌||◌, Option, none, some, List,
  [], ◌∷◌, if◌then◌else◌, ltb, leb, ◌==◌, length, take,
}
use ws_server.Buffer.{buf_len, buf_append}
use ws_server.Buffer.Socket.{
  RecvAnswer, bytes, end_of_stream, recv_blocks, recv_fails, after_recv, calls, SendAnswer,
}
use ws_server.Agg.Message.{Msg}
use ws_server.Queue.{enqueue}
use ws_server.Worker.{Config, Env, epollout}
use ws_server.Upstream.{reconnect_delay_ms}
use ws_server.Upstream.Client.{
  UpstreamState, upstream_disconnected, upstream_connecting, upstream_handshake, upstream_open,
  upstream_closing, UpstreamClient, Link, epollrdhup, update_events, upstream_disconnect,
  flush_upstream_tx,
}
use ws_server.Upstream.Frames.{
  LinkRound, stop, fails, paused, go_on, with_client, process_buffered_frames,
}
use ws_server.Upstream.Handshake.{queue_handshake, read_handshake}

abbrev pub is_open : UpstreamState → Bool
is_open upstream_open = true
is_open _ = false

abbrev pub is_disconnected : UpstreamState → Bool
is_disconnected upstream_disconnected = true
is_disconnected _ = false

abbrev pub is_closing : UpstreamState → Bool
is_closing upstream_closing = true
is_closing _ = false

abbrev pub is_handshake : UpstreamState → Bool
is_handshake upstream_handshake = true
is_handshake _ = false

abbrev pub is_connecting : UpstreamState → Bool
is_connecting upstream_connecting = true
is_connecting _ = false

-- What the caller of `processBufferedFrames` makes of its return: `go_on` where it reads on.
unfoldable pub after_process : LinkRound → LinkRound
after_process (fails k) = fails k
after_process (paused k) = stop k
after_process (stop k) =
    if is_open k.client.state && not k.client.read_paused then go_on k else stop k
after_process (go_on k) =
    if is_open k.client.state && not k.client.read_paused then go_on k else stop k

module _ (env : Env) (conf : Config) where
  unfoldable pub receive : Link → List ℕ → LinkRound
  receive k data' =
      let c = k.client in
      let got = record c { rx = buf_append env.realloc c.rx data' } in
      after_process (process_buffered_frames env conf (with_client k got))

  -- The loop of `readUpstreamFrames`, of at most `fuel` calls with 8192 bytes at a time: `stop` is the
  -- return of 0 and `fails` that of -1.
  unfoldable pub read_frames : ℕ → Link → List RecvAnswer → LinkRound
  read_frames zero k answers = stop k
  read_frames (suc fuel) k answers = elim answers [
    | [] ↦ stop k
    | bytes [] ∷ rest ↦ fails k
    | bytes (x ∷ xs) ∷ rest ↦ elim (receive k (take 8192 (x ∷ xs))) [
      | go_on j ↦ read_frames fuel j (after_recv 8192 (x ∷ xs) rest)
      | stop j ↦ stop j
      | fails j ↦ fails j
      | paused j ↦ stop j
    ]
    | end_of_stream ∷ rest ↦ fails k
    | recv_blocks ∷ rest ↦ stop k
    | recv_fails ∷ rest ↦ fails k
  ]

  unfoldable pub read_upstream_frames : Link → List RecvAnswer → LinkRound
  read_upstream_frames k answers = elim (after_process (process_buffered_frames env conf k)) [
    | go_on j ↦ read_frames (calls answers) j answers
    | stop j ↦ stop j
    | fails j ↦ fails j
    | paused j ↦ stop j
  ]

  -- `handleUpstreamEvent`. The events are EPOLLERR, EPOLLOUT, EPOLLIN, and EPOLLHUP or EPOLLRDHUP;
  -- `connected` is the return of `upstreamConnectComplete`, `now_ms` that of `nowMs`.
  module _ (err out inp hup connected : Bool) (now_ms : ℕ) where
    unfoldable pub drop_link : Link → Link
    drop_link k = with_client k (upstream_disconnect now_ms k.client)

    unfoldable pub on_hup : Link → Link
    on_hup k = if hup then drop_link k else k

    unfoldable pub on_frames : Link → List RecvAnswer → Link
    on_frames k recvs =
        if inp && is_open k.client.state
        then elim (read_upstream_frames k recvs) [
          | fails j ↦ drop_link j
          | stop j ↦ on_hup j
          | paused j ↦ on_hup j
          | go_on j ↦ on_hup j
        ]
        else on_hup k

    unfoldable pub on_response : Link → List RecvAnswer → Link
    on_response k recvs =
        let (c, valid, left) = read_handshake env conf k.client recvs in
        if inp && is_handshake k.client.state
        then (if valid then on_frames (with_client k c) left else drop_link (with_client k c))
        else on_frames k recvs

    unfoldable pub on_write : Link → List ℕ → List SendAnswer → List RecvAnswer → Link × List ℕ
    on_write k wire sends recvs =
        let (c, sent, wire') = flush_upstream_tx k.client wire sends in
        let j = with_client k c in
        if out
        then (if not sent || (is_closing c.state && (buf_len c.tx == 0))
            then (drop_link j, wire')
            else (on_response j recvs, wire'))
        else (on_response k recvs, wire)

    unfoldable pub on_connected : Link → Link
    on_connected k =
        let (j, queued) = queue_handshake env k in
        if connected then (if queued then j else drop_link j) else drop_link k

    unfoldable pub handle_upstream_event :
        Link → List ℕ → List SendAnswer → List RecvAnswer → Link × List ℕ
    handle_upstream_event k wire sends recvs =
        if err
        then (drop_link k, wire)
        else if out && is_connecting k.client.state
        then (on_connected k, wire)
        else on_write k wire sends recvs

  -- A paused client of `resumePausedClients`: its message is pushed, and the frames that are in its
  -- buffer are read.
  unfoldable pub unpaused : UpstreamClient → UpstreamClient
  unpaused c = record c { pending_msg = none; read_paused = false }

  unfoldable pub push_message : List Msg → Option Msg → List Msg
  push_message queue none = queue
  push_message queue (some m) = enqueue env.malloc queue m

  unfoldable pub resume_client : ℕ → Link → Link
  resume_client now_ms k =
      let (c, watched) = update_events (unpaused k.client) in
      let j = record k { client = c; queue = push_message k.queue k.client.pending_msg } in
      if watched
      then elim (process_buffered_frames env conf j) [
        | fails i ↦ with_client i (upstream_disconnect now_ms i.client)
        | stop i ↦ i
        | paused i ↦ i
        | go_on i ↦ i
      ]
      else with_client j (upstream_disconnect now_ms c)

  -- The loop over the clients, which stops where the queue is at the high watermark.
  unfoldable pub resume_clients :
      ℕ
      → List UpstreamClient
      → List Msg
      → List (Option (List ℕ))
      → List UpstreamClient × List Msg × List (Option (List ℕ))
  resume_clients now_ms [] queue draws = ([], queue, draws)
  resume_clients now_ms (c ∷ cs) queue draws = elim c.read_paused [
    | false ↦
        let (cs', queue', draws') = resume_clients now_ms cs queue draws in
        (c ∷ cs', queue', draws')
    | true ↦ elim (leb conf.high_watermark (length queue)) [
      | true ↦ (c ∷ cs, queue, draws)
      | false ↦
          let k = resume_client now_ms (record { client = c; queue = queue; draws = draws }) in
          let (cs', queue', draws') = resume_clients now_ms cs k.queue k.draws in
          (k.client ∷ cs', queue', draws')
    ]
  ]

  unfoldable pub resume_paused_clients :
      ℕ
      → ℕ
      → List UpstreamClient
      → List Msg
      → List (Option (List ℕ))
      → List UpstreamClient × List Msg × List (Option (List ℕ))
  resume_paused_clients low_watermark now_ms clients queue draws =
      if ltb low_watermark (length queue)
      then (clients, queue, draws)
      else resume_clients now_ms clients queue draws

-- `upstreamConnect`: `fd` is the socket that the system gives for the host, if any, and `added` tells
-- whether `EPOLL_CTL_ADD` returns 0.
unfoldable pub upstream_connect : Option ℕ → Bool → UpstreamClient → UpstreamClient × Bool
upstream_connect none added c = (c, false)
upstream_connect (some fd) added c =
    if added
    then (
      record c { fd = some fd; state = upstream_connecting; interest = bit_or epollout epollrdhup },
      true,
    )
    else (record c { fd = none; state = upstream_connecting }, false)

-- A client of `reconnectClients`.
unfoldable pub reconnect_client : Option ℕ → Bool → ℕ → UpstreamClient → UpstreamClient
reconnect_client fd added now_ms c =
    let (d, begun) = upstream_connect fd added c in
    let later = record d {
      reconnect_attempt =
          if ltb c.reconnect_attempt 10 then c.reconnect_attempt + 1 else c.reconnect_attempt;
      reconnect_at_ms = (now_ms + reconnect_delay_ms c.reconnect_attempt) % 2 ^ 64;
    } in
    if not (is_disconnected c.state) || ltb now_ms c.reconnect_at_ms
    then c
    else if begun
    then d
    else later

-- `reconnectClients`, `systems` being what the system gives for each client in turn.
unfoldable pub reconnect_clients :
    ℕ → List (Option ℕ × Bool) → List UpstreamClient → List UpstreamClient
reconnect_clients now_ms systems [] = []
reconnect_clients now_ms [] (c ∷ cs) =
    reconnect_client none false now_ms c ∷ reconnect_clients now_ms [] cs
reconnect_clients now_ms ((fd, added) ∷ systems) (c ∷ cs) =
    reconnect_client fd added now_ms c ∷ reconnect_clients now_ms systems cs
