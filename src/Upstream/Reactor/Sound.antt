-- ===== src/Upstream/Reactor/Sound.antt =====
-- `handleUpstreamEvent` of src/ws_client.c leaves a client with a socket or disconnected, never half of
-- both.
use ws_server.Base.{
  ℕ, ◌≡◌, refl, ◌⊎◌, inl, inr, Bool, not, ◌&&◌, ◌||◌, List, ◌==◌, Bool-cases, arith,
}
use ws_server.Buffer.{buf_len}
use ws_server.Buffer.Socket.{RecvAnswer, SendAnswer}
use ws_server.Worker.{Config, Env}
use ws_server.Upstream.Client.{UpstreamClient, Link, upstream_disconnect, flush_upstream_tx}
use ws_server.Upstream.Frames.{LinkRound, stop, fails, paused, go_on, with_client}
use ws_server.Upstream.Frames.Safety.{RoundIs}
use ws_server.Upstream.Handshake.{queue_handshake, read_handshake}
use ws_server.Upstream.Reactor.{
  is_open, is_closing, is_handshake, is_connecting, read_upstream_frames, drop_link, on_hup,
  on_frames, on_response, on_write, on_connected, handle_upstream_event,
}
use ws_server.Upstream.Reactor.Alive.{IsAlive, IsDead, Live}
use ws_server.Upstream.Reactor.Steps.{
  read_upstream_frames-Alive, read_handshake-Alive, flush-Alive, queue_handshake-Alive,
}

pub IsSound : UpstreamClient → Type 0
IsSound c = IsAlive c ⊎ IsDead c

module _ (env : Env) (conf : Config) (err out inp hup connected : Bool) (now_ms : ℕ) where
  abbrev Sound : Link → Type 0
  Sound k = IsSound k.client

  drop_link-Dead : (k : Link) → Sound (drop_link env conf err out inp hup connected now_ms k)
  unfolding drop_link with_client upstream_disconnect IsSound
  drop_link-Dead k = inr (refl, refl)

  on_hup-Sound : (k : Link) → Live k → Sound (on_hup env conf err out inp hup connected now_ms k)
  unfolding on_hup
  on_hup-Sound k v = elim (Bool-cases hup) [
    | inl gone ↦
        let is : on_hup env conf err out inp hup connected now_ms k
            ≡ drop_link env conf err out inp hup connected now_ms k =
          ground arith in
        rw is (drop_link-Dead k)
    | inr stays ↦
        let is : on_hup env conf err out inp hup connected now_ms k ≡ k = ground arith in
        rw is (unfold IsSound in inl v)
  ]

  on_frames-Sound :
      (k : Link) (recvs : List RecvAnswer)
      → Live k
      → Sound (on_frames env conf err out inp hup connected now_ms k recvs)
  unfolding on_frames
  on_frames-Sound k recvs v = elim (Bool-cases (inp && is_open k.client.state)) [
    | inl reads ↦ rw reads (
        behind (read_upstream_frames env conf k recvs)
          (read_upstream_frames-Alive env conf k recvs v))
    | inr waits ↦ rw waits (on_hup-Sound k v)
  ]
    where
      behind :
          (r : LinkRound)
          → RoundIs Live r
          → Sound (elim r [
            | fails j ↦ drop_link env conf err out inp hup connected now_ms j
            | stop j ↦ on_hup env conf err out inp hup connected now_ms j
            | paused j ↦ on_hup env conf err out inp hup connected now_ms j
            | go_on j ↦ on_hup env conf err out inp hup connected now_ms j
          ])
      behind (fails j) w = drop_link-Dead j
      behind (stop j) w = on_hup-Sound j w
      behind (paused j) w = on_hup-Sound j w
      behind (go_on j) w = on_hup-Sound j w

  on_response-Sound :
      (k : Link) (recvs : List RecvAnswer)
      → Live k
      → Sound (on_response env conf err out inp hup connected now_ms k recvs)
  unfolding on_response with_client
  on_response-Sound k recvs v =
      let r = read_handshake env conf k.client recvs in
      elim (Bool-cases (inp && is_handshake k.client.state)) [
        | inr waits ↦ rw waits (on_frames-Sound k recvs v)
        | inl reads ↦ rw reads (elim (Bool-cases r.1) [
          | inl valid ↦ rw valid (
              on_frames-Sound (record k { client = r.0 }) r.2
                (read_handshake-Alive env conf k.client recvs v))
          | inr bad ↦ rw bad (drop_link-Dead (record k { client = r.0 }))
        ])
      ]

  on_write-Sound :
      (k : Link) (wire : List ℕ) (sends : List SendAnswer) (recvs : List RecvAnswer)
      → Live k
      → Sound (on_write env conf err out inp hup connected now_ms k wire sends recvs).0
  unfolding on_write with_client
  on_write-Sound k wire sends recvs v =
      let r = flush_upstream_tx k.client wire sends in
      let j : Link = record k { client = r.0 } in
      elim (Bool-cases out) [
        | inr waits ↦
            let is : on_write env conf err out inp hup connected now_ms k wire sends recvs
                ≡ (on_response env conf err out inp hup connected now_ms k recvs, wire) =
              ground arith in
            rw is (on_response-Sound k recvs v)
        | inl writes ↦
            elim (Bool-cases (not r.1 || (is_closing r.0.state && (buf_len r.0.tx == 0)))) [
              | inl ends ↦
                  let is : on_write env conf err out inp hup connected now_ms k wire sends recvs
                      ≡ (drop_link env conf err out inp hup connected now_ms j, r.2) =
                    ground arith in
                  rw is (drop_link-Dead j)
              | inr stays ↦
                  let is : on_write env conf err out inp hup connected now_ms k wire sends recvs
                      ≡ (on_response env conf err out inp hup connected now_ms j recvs, r.2) =
                    ground arith in
                  rw is (on_response-Sound j recvs (flush-Alive env conf k.client wire sends v))
            ]
      ]

  on_connected-Sound :
      (k : Link) → Live k → Sound (on_connected env conf err out inp hup connected now_ms k)
  unfolding on_connected
  on_connected-Sound k v =
      let r = queue_handshake env k in
      elim (Bool-cases connected) [
        | inr refused ↦
            let is : on_connected env conf err out inp hup connected now_ms k
                ≡ drop_link env conf err out inp hup connected now_ms k =
              ground arith in
            rw is (drop_link-Dead k)
        | inl made ↦ elim (Bool-cases r.1) [
          | inl queued ↦
              let is : on_connected env conf err out inp hup connected now_ms k ≡ r.0 =
                ground arith in
              rw is (unfold IsSound in inl (queue_handshake-Alive env conf k v))
          | inr bad ↦
              let is : on_connected env conf err out inp hup connected now_ms k
                  ≡ drop_link env conf err out inp hup connected now_ms r.0 =
                ground arith in
              rw is (drop_link-Dead r.0)
        ]
      ]

  -- Whatever the events, the answers of the socket and the bytes that come: from a client that has a
  -- socket and is not disconnected, `handleUpstreamEvent` leaves a client that has a socket and is
  -- not disconnected, or has none and is disconnected, to be connected again.
  pub handle_upstream_event-IsSound :
      (k : Link) (wire : List ℕ) (sends : List SendAnswer) (recvs : List RecvAnswer)
      → IsAlive k.client
      → IsSound
          (handle_upstream_event env conf err out inp hup connected now_ms k wire sends
            recvs).0.client
  unfolding handle_upstream_event
  handle_upstream_event-IsSound k wire sends recvs v =
      let r = handle_upstream_event env conf err out inp hup connected now_ms k wire sends recvs in
      elim (Bool-cases err) [
        | inl failed ↦
            let is : r ≡ (drop_link env conf err out inp hup connected now_ms k, wire) =
              ground arith in
            rw is (drop_link-Dead k)
        | inr fine ↦ elim (Bool-cases (out && is_connecting k.client.state)) [
          | inl done ↦
              let is : r ≡ (on_connected env conf err out inp hup connected now_ms k, wire) =
                ground arith in
              rw is (on_connected-Sound k v)
          | inr other ↦
              let is : r ≡ on_write env conf err out inp hup connected now_ms k wire sends recvs =
                ground arith in
              rw is (on_write-Sound k wire sends recvs v)
        ]
      ]
