-- ===== src/Upstream/Reactor/Alive.antt =====
-- A client of src/ws_client.c has a socket exactly while it is not disconnected.
use ws_server.Base.{
  ℕ, zero, suc, ◌+◌, ◌-◌, ◌^◌, ◌≡◌, ◌≢◌, ap, sym, ◌∙◌, inl, inr, bit_and, Bool, true, false, not,
  ◌&&◌, ◌||◌, Option, none, some, List, ltb, leb, ◌==◌, length, Bool-cases, Option-cases,
}
use ws_server.Buffer.{buf_len, buf_consume}
use ws_server.Buffer.Laws.{content}
use ws_server.Ws.Header.{FrameHdr, WsRc, ok, need_more, err_proto, parse_header}
use ws_server.Ws.Utf8.{Utf8St, utf8_feed, utf8_done}
use ws_server.Agg.Message.{Msg, msg_new_data, op_cont, op_text, op_bin, op_close, op_ping, op_pong}
use ws_server.Worker.{Config, Env}
use ws_server.Upstream.{queue_masked_frame}
use ws_server.Upstream.Client.{
  UpstreamClient, Link, draw, update_events, send_frame, begin_close, upstream_closing,
  upstream_disconnected,
}
use ws_server.Upstream.Frames.{
  LinkRound, stop, fails, paused, go_on, with_client, frame_payload, skip_frame, start_message,
  returned, reject_with, publish_message, publish_reactor_message, reset_message, behind_publish,
  message_complete, join_payload, take_payload, upstream_data, upstream_close, upstream_ping,
  upstream_control, upstream_frame, upstream_round, buffered_frames,
}
use ws_server.Upstream.Frames.Safety.{RoundIs}
use ws_server.Upstream.Frames.Advance.{update_events-changes, update_events-keeps}

abbrev pub IsAlive : UpstreamClient → Type 0
IsAlive c = (c.fd ≢ none) × (c.state ≢ upstream_disconnected)

abbrev pub IsDead : UpstreamClient → Type 0
IsDead c = (c.fd ≡ none) × (c.state ≡ upstream_disconnected)

update_events-fd : (c : UpstreamClient) → (update_events c).0.fd ≡ c.fd
update_events-fd c =
    let (i, m, is) = update_events-changes c in ap (λ (d : UpstreamClient). d.fd) is

pub update_events-IsAlive : (c : UpstreamClient) → IsAlive c → IsAlive (update_events c).0
update_events-IsAlive c (has, up) =
    (λ e. has (sym (update_events-fd c) ∙ e), λ e. up (sym (update_events-keeps c).0 ∙ e))

abbrev pub Live : Link → Type 0
Live k = IsAlive k.client

module _ (env : Env) (conf : Config) where
  sends-Alive :
      (k : Link) (opcode : ℕ) (payload : List ℕ) → Live k → Live (send_frame env k opcode payload).0
  unfolding send_frame
  sends-Alive k opcode payload v =
      let r =
        queue_masked_frame env.malloc env.realloc (draw k.draws).0 k.client.tx opcode payload in
      elim (Bool-cases r.1) [
        | inl goes ↦ rw (send_frame, goes) (update_events-IsAlive (record k.client { tx = r.0 }) v)
        | inr stops ↦ rw (send_frame, stops) v
      ]

  returned-Alive : (r : Link × Bool) → Live r.0 → RoundIs Live (returned r)
  unfolding returned
  returned-Alive (k, true) v = v
  returned-Alive (k, false) v = v

  refused : (k : Link) (code : ℕ) → Live k → RoundIs Live (reject_with env conf k code)
  unfolding reject_with begin_close
  refused k code v = returned-Alive _ (
      sends-Alive (record k { client = record k.client { state = upstream_closing } }) op_close _
        (v.0, λ e. cc))

  publish-Alive :
      (k : Link) (m : Option Msg)
      → Live k
      → RoundIs Live (behind_publish env conf (publish_reactor_message env conf k m))
  unfolding publish_reactor_message publish_message behind_publish reset_message with_client
  publish-Alive k none v = v
  publish-Alive k (some m) v = elim (Bool-cases (leb conf.high_watermark (length k.queue))) [
    | inr free ↦ rw free v
    | inl full ↦
        let c = record k.client { pending_msg = some m; read_paused = true } in
        let told : IsAlive (update_events c).0 = update_events-IsAlive c v in
        rw full (elim (Bool-cases (update_events c).1) [
          | inl watched ↦ rw watched told
          | inr lost ↦ rw lost told
        ])
  ]

  message_complete-Alive : (k : Link) → Live k → RoundIs Live (message_complete env conf k)
  unfolding message_complete with_client
  message_complete-Alive k v =
      let c = record k.client { fragmenting = false } in
      elim (Bool-cases ((c.msg_opcode == op_text) && not (utf8_done c.msg_utf8))) [
        | inl cut ↦ rw cut (refused (record k { client = c }) 1007 v)
        | inr done ↦ rw done (
            publish-Alive (record k { client = c })
              (msg_new_data env.malloc env.now c.id c.msg_opcode (content c.msg)) v)
      ]

  join_payload-Alive :
      (k : Link) (h : FrameHdr) (st : Utf8St) → Live k → RoundIs Live (join_payload env conf k h st)
  unfolding join_payload with_client skip_frame
  join_payload-Alive k h st v = elim (Bool-cases (h.fin == 0)) [
    | inl more ↦ rw more v
    | inr last ↦ rw last (message_complete-Alive _ v)
  ]

  take_payload-Alive : (k : Link) (h : FrameHdr) → Live k → RoundIs Live (take_payload env conf k h)
  unfolding take_payload
  take_payload-Alive k h v =
      let c = k.client in
      elim (Bool-cases (
        ltb conf.max_message (buf_len c.msg)
        || ltb (conf.max_message - buf_len c.msg) h.payload_len)) [
          | inl over ↦ rw over (refused k 1009 v)
          | inr within ↦
              rw within (elim (Bool-cases ((c.msg_opcode == op_text) && ltb 0 h.payload_len)) [
                | inl checked ↦
                    rw checked (elim (Option-cases (utf8_feed c.msg_utf8 (frame_payload c h))) [
                      | inl bad ↦ rw bad (refused k 1007 v)
                      | inr (st, fed) ↦ rw fed (join_payload-Alive k h st v)
                    ])
                | inr unchecked ↦ rw unchecked (join_payload-Alive k h c.msg_utf8 v)
              ])
        ]

  upstream_data-Alive :
      (k : Link) (h : FrameHdr) → Live k → RoundIs Live (upstream_data env conf k h)
  unfolding upstream_data with_client start_message
  upstream_data-Alive k h v = elim (Bool-cases (h.opcode == op_cont)) [
    | inl cont ↦ rw cont (elim (Bool-cases k.client.fragmenting) [
      | inl opened ↦ simp opened (take_payload-Alive k h v)
      | inr shut ↦ simp shut (refused k 1002 v)
    ])
    | inr fresh ↦ rw fresh (elim (Bool-cases ((h.opcode == op_text) || (h.opcode == op_bin))) [
      | inl known ↦ rw known (elim (Bool-cases k.client.fragmenting) [
        | inl opened ↦ simp opened (refused k 1002 v)
        | inr shut ↦ simp shut (take_payload-Alive (with_client k (start_message k.client h)) h v)
      ])
      | inr other ↦ rw other (refused k 1002 v)
    ])
  ]

  upstream_close-Alive :
      (k : Link) (h : FrameHdr) → Live k → RoundIs Live (upstream_close env conf k h)
  unfolding upstream_close with_client skip_frame
  upstream_close-Alive k h v = elim (Bool-cases (h.payload_len == 1)) [
    | inl one ↦ rw one (refused k 1002 v)
    | inr rest ↦
        let c = record k.client {
          rx = buf_consume k.client.rx (h.header_len + h.payload_len);
          state = upstream_closing;
        } in
        let p = frame_payload k.client h in
        rw rest (
          returned-Alive (send_frame env (record k { client = c }) op_close p)
            (sends-Alive (record k { client = c }) op_close p (v.0, λ e. cc)))
  ]

  upstream_ping-Alive :
      (k : Link) (h : FrameHdr) → Live k → RoundIs Live (upstream_ping env conf k h)
  unfolding upstream_ping with_client skip_frame
  upstream_ping-Alive k h v =
      let r = send_frame env k op_pong (frame_payload k.client h) in
      let answered : Live r.0 = sends-Alive k op_pong (frame_payload k.client h) v in
      elim (Bool-cases r.1) [ inl sent ↦ rw sent answered | inr lost ↦ rw lost answered ]

  upstream_control-Alive :
      (k : Link) (h : FrameHdr) → Live k → RoundIs Live (upstream_control env conf k h)
  unfolding upstream_control with_client skip_frame
  upstream_control-Alive k h v = elim (Bool-cases ((h.fin == 0) || ltb 125 h.payload_len)) [
    | inl bad ↦ rw bad (refused k 1002 v)
    | inr good ↦ rw good (elim (Bool-cases (h.opcode == op_ping)) [
      | inl ping ↦ rw ping (upstream_ping-Alive k h v)
      | inr no_ping ↦ rw no_ping (elim (Bool-cases (h.opcode == op_close)) [
        | inl close ↦ rw close (upstream_close-Alive k h v)
        | inr pong ↦ rw pong v
      ])
    ])
  ]

  upstream_frame-Alive :
      (k : Link) (h : FrameHdr) → Live k → RoundIs Live (upstream_frame env conf k h)
  unfolding upstream_frame
  upstream_frame-Alive k h v = elim (Bool-cases (not (h.masked == 0))) [
    | inl masked ↦ rw masked (refused k 1002 v)
    | inr bare ↦ rw bare (elim (Bool-cases (ltb conf.max_frame h.payload_len)) [
      | inl big ↦ rw big (refused k 1009 v)
      | inr small ↦ rw small (elim (Bool-cases (ltb (2 ^ 64 - 1 - h.header_len) h.payload_len)) [
        | inl huge ↦ rw huge v
        | inr sum ↦
            rw sum (elim (Bool-cases (ltb (buf_len k.client.rx) (h.header_len + h.payload_len))) [
              | inl part ↦ rw part v
              | inr whole ↦ rw whole (elim (Bool-cases (not (bit_and h.opcode 0x08 == 0))) [
                | inl control ↦ rw control (upstream_control-Alive k h v)
                | inr data' ↦ rw data' (upstream_data-Alive k h v)
              ])
            ])
      ])
    ])
  ]

  upstream_round-Alive : (k : Link) → Live k → RoundIs Live (upstream_round env conf k)
  unfolding upstream_round
  upstream_round-Alive k v = elim (Bool-cases (buf_len k.client.rx == 0)) [
    | inl empty ↦ rw empty v
    | inr more ↦ rw more (of_header (parse_header (content k.client.rx)))
  ]
    where
      of_header :
          (r : WsRc FrameHdr)
          → RoundIs Live (elim r [
            | need_more ↦ stop k
            | err_proto ↦ reject_with env conf k 1002
            | ok h ↦ upstream_frame env conf k h
          ])
      of_header need_more = v
      of_header err_proto = refused k 1002 v
      of_header (ok h) = upstream_frame-Alive k h v

  pub buffered_frames-Alive :
      (fuel : ℕ) (k : Link) → Live k → RoundIs Live (buffered_frames env conf fuel k)
  unfolding buffered_frames
  buffered_frames-Alive zero k v = v
  buffered_frames-Alive (suc fuel) k v =
      behind (buffered_frames-Alive fuel) (upstream_round env conf k) (upstream_round-Alive k v)
    where
      behind :
          ((j : Link) → Live j → RoundIs Live (buffered_frames env conf fuel j))
          → (r : LinkRound) → RoundIs Live r
          → RoundIs Live (elim r [
            | stop j ↦ stop j
            | fails j ↦ fails j
            | paused j ↦ paused j
            | go_on j ↦ buffered_frames env conf fuel j
          ])
      behind later (stop j) w = w
      behind later (fails j) w = w
      behind later (paused j) w = w
      behind later (go_on j) w = later j w
