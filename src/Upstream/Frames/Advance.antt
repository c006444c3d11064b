-- ===== src/Upstream/Frames/Advance.antt =====
-- What each frame of src/ws_client.c leaves of the bytes that wait to be read.
use ws_server.Base.{
  ℕ, ◌+◌, ◌-◌, ◌≤◌, ◌<◌, ◌≡◌, refl, ap, sym, ◌∙◌, inl, inr, Bool, true, false, not, ◌&&◌, ◌||◌,
  Option, none, some, List, [], ◌∷◌, ltb, leb, ◌==◌, length, length-drop, Bool-cases, Option-cases,
  arith,
}
use mathlib.Core.Path.{subst}
use ws_server.Buffer.{Buf, buf_len, buf_consume}
use ws_server.Buffer.Laws.{IsBuf, content, length-content}
use ws_server.Buffer.Append.{buf_consume_lem}
use ws_server.Ws.Header.{FrameHdr}
use ws_server.Ws.Utf8.{Utf8St, utf8_feed, utf8_done}
use ws_server.Agg.Message.{Msg, msg_new_data, op_cont, op_text, op_bin, op_close, op_ping, op_pong}
use ws_server.Worker.{Config, Env}
use ws_server.Upstream.{queue_masked_frame}
use ws_server.Upstream.Client.{
  UpstreamClient, upstream_closing, Link, draw, epoll_mod, wanted_events, update_events, send_frame,
  begin_close,
}
use ws_server.Upstream.Frames.{
  LinkRound, stop, fails, paused, go_on, with_client, frame_payload, skip_frame, start_message,
  returned, reject_with, publish_message, publish_reactor_message, reset_message, behind_publish,
  message_complete, join_payload, take_payload, upstream_data, upstream_close, upstream_ping,
  upstream_control,
}

-- Behind a header: the link closes, or goes on with fewer than `n` bytes to read.
abbrev pub Advances : ℕ → LinkRound → Type 0
Advances n (stop j) = j.client.state ≡ upstream_closing
Advances n (fails j) = Unit {0}
Advances n (paused j) = j.client.read_paused ≡ true
Advances n (go_on j) = IsBuf j.client.rx × (buf_len j.client.rx < n)

epoll_mod-changes :
    (c : UpstreamClient) (events : ℕ) (mods : List Bool)
    → (i : ℕ) × (m : List Bool) × ((epoll_mod c events mods).0
        ≡ record c { interest = i; mods = m })
unfolding epoll_mod
epoll_mod-changes c events [] = (events, c.mods, refl)
epoll_mod-changes c events (true ∷ mods) = (events, mods, refl)
epoll_mod-changes c events (false ∷ mods) = (c.interest, mods, refl)

-- `updateEvents` changes nothing but the kernel's side of the client.
pub update_events-changes :
    (c : UpstreamClient)
    → (i : ℕ) × (m : List Bool) × ((update_events c).0 ≡ record c { interest = i; mods = m })
unfolding update_events
update_events-changes c = elim (Option-cases c.fd) [
  | inl n ↦ (c.interest, c.mods, ground arith)
  | inr (fd, s) ↦
      let (i, m, same) = epoll_mod-changes c (wanted_events c) c.mods in
      let is : update_events c ≡ epoll_mod c (wanted_events c) c.mods = ground arith in
      (i, m, ap (λ (x : UpstreamClient × Bool). x.0) is ∙ same)
]

pub update_events-keeps :
    (c : UpstreamClient) → ((update_events c).0.state ≡ c.state) × ((update_events c).0.rx ≡ c.rx)
update_events-keeps c =
    let (i, m, is) = update_events-changes c in
    (ap (λ (d : UpstreamClient). d.state) is, ap (λ (d : UpstreamClient). d.rx) is)

send_frame-keeps :
    (env : Env) (k : Link) (opcode : ℕ) (payload : List ℕ)
    → let j = (send_frame env k opcode payload).0 in
      (j.client.state ≡ k.client.state) × (j.client.rx ≡ k.client.rx)
unfolding send_frame
send_frame-keeps env k opcode payload =
    let r = queue_masked_frame env.malloc env.realloc (draw k.draws).0 k.client.tx opcode payload in
    elim (Bool-cases r.1) [
      | inl goes ↦ rw (send_frame, goes) (update_events-keeps (record k.client { tx = r.0 }))
      | inr stops ↦ rw (send_frame, stops) (refl, refl)
    ]

-- A frame of two bytes or more is behind the client.
pub skip_frame-IsBuf :
    (c : UpstreamClient) (h : FrameHdr)
    → IsBuf c.rx
    → 2 ≤ h.header_len
    → 2 ≤ buf_len c.rx
    → IsBuf (skip_frame c h).rx × (buf_len (skip_frame c h).rx < buf_len c.rx)
unfolding skip_frame
skip_frame-IsBuf c h v least some_left =
    let n = h.header_len + h.payload_len in
    let (valid, rest, _, _) = buf_consume_lem c.rx n v in
    let l = length-content (buf_consume c.rx n) valid in
    (valid, omega (arith, l, ap length rest, length-drop n (content c.rx), length-content c.rx v))

module _ (env : Env) (conf : Config) (n : ℕ) where
  returned-Advances :
      (r : Link × Bool) → r.0.client.state ≡ upstream_closing → Advances n (returned r)
  unfolding returned
  returned-Advances (k, true) e = e
  returned-Advances (k, false) e = tt

  pub reject_with-Advances : (k : Link) (code : ℕ) → Advances n (reject_with env conf k code)
  unfolding reject_with begin_close
  reject_with-Advances k code =
      let j : Link = record k { client = record k.client { state = upstream_closing } } in
      returned-Advances _ (send_frame-keeps env j op_close _).0

  -- What the rounds need to go on.
  abbrev Shorter : Link → Type 0
  Shorter k = IsBuf k.client.rx × (buf_len k.client.rx < n)

  publish-Advances :
      (k : Link) (m : Option Msg)
      → Shorter k
      → Advances n (behind_publish env conf (publish_reactor_message env conf k m))
  unfolding publish_reactor_message publish_message behind_publish reset_message with_client
  publish-Advances k none v = v
  publish-Advances k (some m) v = elim (Bool-cases (leb conf.high_watermark (length k.queue))) [
    | inr free ↦ rw free v
    | inl full ↦
        let c = record k.client { pending_msg = some m; read_paused = true } in
        rw full (elim (Bool-cases (update_events c).1) [
          | inl watched ↦
              let (i, mods, is) = update_events-changes c in
              rw watched (ap (λ (d : UpstreamClient). d.read_paused) is)
          | inr lost ↦ rw lost tt
        ])
  ]

  message_complete-Advances : (k : Link) → Shorter k → Advances n (message_complete env conf k)
  unfolding message_complete with_client
  message_complete-Advances k v =
      let c = record k.client { fragmenting = false } in
      elim (Bool-cases ((c.msg_opcode == op_text) && not (utf8_done c.msg_utf8))) [
        | inl cut ↦ rw cut (reject_with-Advances (record k { client = c }) 1007)
        | inr done ↦ rw done (
            publish-Advances (record k { client = c })
              (msg_new_data env.malloc env.now c.id c.msg_opcode (content c.msg)) v)
      ]

  join_payload-Advances :
      (k : Link) (h : FrameHdr) (st : Utf8St)
      → Shorter (with_client k (skip_frame k.client h))
      → Advances n (join_payload env conf k h st)
  unfolding join_payload with_client skip_frame
  join_payload-Advances k h st v = elim (Bool-cases (h.fin == 0)) [
    | inl more ↦ rw more v
    | inr last ↦ rw last (message_complete-Advances _ v)
  ]

  take_payload-Advances :
      (k : Link) (h : FrameHdr)
      → Shorter (with_client k (skip_frame k.client h))
      → Advances n (take_payload env conf k h)
  unfolding take_payload
  take_payload-Advances k h v =
      let c = k.client in
      elim (Bool-cases (
        ltb conf.max_message (buf_len c.msg)
        || ltb (conf.max_message - buf_len c.msg) h.payload_len)) [
          | inl over ↦ rw over (reject_with-Advances k 1009)
          | inr within ↦
              rw within (elim (Bool-cases ((c.msg_opcode == op_text) && ltb 0 h.payload_len)) [
                | inl checked ↦
                    rw checked (elim (Option-cases (utf8_feed c.msg_utf8 (frame_payload c h))) [
                      | inl bad ↦ rw bad (reject_with-Advances k 1007)
                      | inr (st, fed) ↦ rw fed (join_payload-Advances k h st v)
                    ])
                | inr unchecked ↦ rw unchecked (join_payload-Advances k h c.msg_utf8 v)
              ])
        ]

  pub upstream_data-Advances :
      (k : Link) (h : FrameHdr)
      → Shorter (with_client k (skip_frame k.client h))
      → Advances n (upstream_data env conf k h)
  unfolding upstream_data with_client skip_frame start_message
  upstream_data-Advances k h v = elim (Bool-cases (h.opcode == op_cont)) [
    | inl cont ↦ rw cont (elim (Bool-cases k.client.fragmenting) [
      | inl opened ↦ simp opened (take_payload-Advances k h v)
      | inr shut ↦ simp shut (reject_with-Advances k 1002)
    ])
    | inr fresh ↦ rw fresh (elim (Bool-cases ((h.opcode == op_text) || (h.opcode == op_bin))) [
      | inl known ↦ rw known (elim (Bool-cases k.client.fragmenting) [
        | inl opened ↦ simp opened (reject_with-Advances k 1002)
        | inr shut ↦
            simp shut (take_payload-Advances (with_client k (start_message k.client h)) h v)
      ])
      | inr other ↦ rw other (reject_with-Advances k 1002)
    ])
  ]

  upstream_close-Advances : (k : Link) (h : FrameHdr) → Advances n (upstream_close env conf k h)
  unfolding upstream_close with_client skip_frame
  upstream_close-Advances k h = elim (Bool-cases (h.payload_len == 1)) [
    | inl one ↦ rw one (reject_with-Advances k 1002)
    | inr rest ↦
        let c = record k.client {
          rx = buf_consume k.client.rx (h.header_len + h.payload_len);
          state = upstream_closing;
        } in
        let p = frame_payload k.client h in
        let j : Link = record k { client = c } in
        rw rest
          (returned-Advances (send_frame env j op_close p) (send_frame-keeps env j op_close p).0)
  ]

  upstream_ping-Advances :
      (k : Link) (h : FrameHdr)
      → Shorter (with_client k (skip_frame k.client h))
      → Advances n (upstream_ping env conf k h)
  unfolding upstream_ping with_client skip_frame
  upstream_ping-Advances k h v =
      let r = send_frame env k op_pong (frame_payload k.client h) in
      let same = (send_frame-keeps env k op_pong (frame_payload k.client h)).1 in
      elim (Bool-cases r.1) [
        | inl sent ↦ rw sent (
            subst
              (λ (b : Buf).
                IsBuf (buf_consume b (h.header_len + h.payload_len))
                × (buf_len (buf_consume b (h.header_len + h.payload_len)) < n))
              (sym same) v)
        | inr lost ↦ rw lost tt
      ]

  pub upstream_control-Advances :
      (k : Link) (h : FrameHdr)
      → Shorter (with_client k (skip_frame k.client h))
      → Advances n (upstream_control env conf k h)
  unfolding upstream_control
  upstream_control-Advances k h v = elim (Bool-cases ((h.fin == 0) || ltb 125 h.payload_len)) [
    | inl bad ↦ rw bad (reject_with-Advances k 1002)
    | inr good ↦ rw good (elim (Bool-cases (h.opcode == op_ping)) [
      | inl ping ↦ rw ping (upstream_ping-Advances k h v)
      | inr no_ping ↦ rw no_ping (elim (Bool-cases (h.opcode == op_close)) [
        | inl close ↦ rw close (upstream_close-Advances k h)
        | inr pong ↦ rw pong v
      ])
    ])
  ]
