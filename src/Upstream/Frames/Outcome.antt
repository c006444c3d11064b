-- ===== src/Upstream/Frames/Outcome.antt =====
-- `processBufferedFrames` of src/ws_client.c: whatever an upstream server sends, only sound messages join
-- the data queue.
use ws_server.Base.{
  ℕ, zero, suc, ◌+◌, ◌-◌, ◌^◌, ◌<◌, ◌≡◌, refl, inl, inr, bit_and, true, not, ◌||◌, ltb, ◌==◌,
  Bool-cases, arith,
}
use ws_server.Buffer.{buf_len, buf_consume}
use ws_server.Buffer.Laws.{content}
use ws_server.Ws.Header.{FrameHdr, WsRc, ok, need_more, err_proto, parse_header}
use ws_server.Agg.Message.{op_cont, op_text, op_bin, op_close, op_ping, op_pong}
use ws_server.Worker.{Config, Env}
use ws_server.Worker.Frames.Invariant.{IsGathered}
use ws_server.Worker.Frames.Gathering.{gathering_begins}
use ws_server.Worker.Frames.Outcome.{from_here}
use ws_server.Upstream.Client.{Link, send_frame, upstream_closing}
use ws_server.Upstream.Frames.{
  LinkRound, stop, fails, paused, go_on, with_client, frame_payload, skip_frame, start_message,
  reject_with, upstream_data, upstream_close, upstream_ping, upstream_control, upstream_frame,
  upstream_round, buffered_frames, process_buffered_frames,
}
use ws_server.Upstream.Frames.Safety.{
  as_conn, as_shared, IsLinkSafe, RoundIs, returned-Safe, sends-Safe, reject_with-Safe,
  take_payload-Safe,
}

module _ (env : Env) (conf : Config) (gives : (n : ℕ) → env.realloc n ≡ true)
    (limit : conf.max_message < 2 ^ 63) (k0 : Link) where
  abbrev Safe : Link → Type 0
  Safe k = IsLinkSafe conf k0 k

  refused : (k : Link) (code : ℕ) → Safe k → RoundIs Safe (reject_with env conf k code)
  refused = reject_with-Safe env conf gives limit k0

  upstream_data-Safe :
      (k : Link) (h : FrameHdr) → Safe k → RoundIs Safe (upstream_data env conf k h)
  unfolding upstream_data with_client start_message
  upstream_data-Safe k h v =
      let taken = take_payload-Safe env conf gives limit k0 in
      let begun : Safe (with_client k (start_message k.client h)) =
        gathering_begins env conf gives (omega arith) (as_conn k0.client) (as_shared k0.queue)
          (as_conn k.client) (as_shared k.queue) h.opcode v in
      elim (Bool-cases (h.opcode == op_cont)) [
        | inl cont ↦ rw cont (elim (Bool-cases k.client.fragmenting) [
          | inl opened ↦ simp opened (taken k h v opened)
          | inr shut ↦ simp shut (refused k 1002 v)
        ])
        | inr fresh ↦ rw fresh (elim (Bool-cases ((h.opcode == op_text) || (h.opcode == op_bin))) [
          | inl known ↦ rw known (elim (Bool-cases k.client.fragmenting) [
            | inl opened ↦ simp opened (refused k 1002 v)
            | inr shut ↦ simp shut (taken (with_client k (start_message k.client h)) h begun refl)
          ])
          | inr other ↦ rw other (refused k 1002 v)
        ])
      ]

  upstream_close-Safe :
      (k : Link) (h : FrameHdr) → Safe k → RoundIs Safe (upstream_close env conf k h)
  unfolding upstream_close with_client skip_frame
  upstream_close-Safe k h v = elim (Bool-cases (h.payload_len == 1)) [
    | inl one ↦ rw one (refused k 1002 v)
    | inr rest ↦
        let c = record k.client {
          rx = buf_consume k.client.rx (h.header_len + h.payload_len);
          state = upstream_closing;
        } in
        let p = frame_payload k.client h in
        rw rest (
          returned-Safe env conf gives limit k0
            (send_frame env (record k { client = c }) op_close p)
            (sends-Safe env conf gives limit k0 (record k { client = c }) op_close p v))
  ]

  upstream_ping-Safe :
      (k : Link) (h : FrameHdr) → Safe k → RoundIs Safe (upstream_ping env conf k h)
  unfolding upstream_ping with_client skip_frame
  upstream_ping-Safe k h v =
      let r = send_frame env k op_pong (frame_payload k.client h) in
      let answered : Safe r.0 =
        sends-Safe env conf gives limit k0 k op_pong (frame_payload k.client h) v in
      elim (Bool-cases r.1) [ inl sent ↦ rw sent answered | inr lost ↦ rw lost answered ]

  upstream_control-Safe :
      (k : Link) (h : FrameHdr) → Safe k → RoundIs Safe (upstream_control env conf k h)
  unfolding upstream_control with_client skip_frame
  upstream_control-Safe k h v = elim (Bool-cases ((h.fin == 0) || ltb 125 h.payload_len)) [
    | inl bad ↦ rw bad (refused k 1002 v)
    | inr good ↦ rw good (elim (Bool-cases (h.opcode == op_ping)) [
      | inl ping ↦ rw ping (upstream_ping-Safe k h v)
      | inr no_ping ↦ rw no_ping (elim (Bool-cases (h.opcode == op_close)) [
        | inl close ↦ rw close (upstream_close-Safe k h v)
        | inr pong ↦ rw pong v
      ])
    ])
  ]

  upstream_frame-Safe :
      (k : Link) (h : FrameHdr) → Safe k → RoundIs Safe (upstream_frame env conf k h)
  unfolding upstream_frame
  upstream_frame-Safe k h v = elim (Bool-cases (not (h.masked == 0))) [
    | inl masked ↦ rw masked (refused k 1002 v)
    | inr bare ↦ rw bare (elim (Bool-cases (ltb conf.max_frame h.payload_len)) [
      | inl big ↦ rw big (refused k 1009 v)
      | inr small ↦ rw small (elim (Bool-cases (ltb (2 ^ 64 - 1 - h.header_len) h.payload_len)) [
        | inl huge ↦ rw huge v
        | inr sum ↦
            rw sum (elim (Bool-cases (ltb (buf_len k.client.rx) (h.header_len + h.payload_len))) [
              | inl part ↦ rw part v
              | inr whole ↦ rw whole (elim (Bool-cases (not (bit_and h.opcode 0x08 == 0))) [
                | inl control ↦ rw control (upstream_control-Safe k h v)
                | inr data' ↦ rw data' (upstream_data-Safe k h v)
              ])
            ])
      ])
    ])
  ]

  upstream_round-Safe : (k : Link) → Safe k → RoundIs Safe (upstream_round env conf k)
  unfolding upstream_round
  upstream_round-Safe k v = elim (Bool-cases (buf_len k.client.rx == 0)) [
    | inl empty ↦ rw empty v
    | inr more ↦ rw more (of_header (parse_header (content k.client.rx)))
  ]
    where
      of_header :
          (r : WsRc FrameHdr)
          → RoundIs Safe (elim r [
            | need_more ↦ stop k
            | err_proto ↦ reject_with env conf k 1002
            | ok h ↦ upstream_frame env conf k h
          ])
      of_header need_more = v
      of_header err_proto = refused k 1002 v
      of_header (ok h) = upstream_frame-Safe k h v

  buffered_frames-Safe :
      (fuel : ℕ) (k : Link) → Safe k → RoundIs Safe (buffered_frames env conf fuel k)
  unfolding buffered_frames
  buffered_frames-Safe zero k v = v
  buffered_frames-Safe (suc fuel) k v =
      behind (buffered_frames-Safe fuel) (upstream_round env conf k) (upstream_round-Safe k v)
    where
      behind :
          ((j : Link) → Safe j → RoundIs Safe (buffered_frames env conf fuel j))
          → (r : LinkRound) → RoundIs Safe r
          → RoundIs Safe (elim r [
            | stop j ↦ stop j
            | fails j ↦ fails j
            | paused j ↦ paused j
            | go_on j ↦ buffered_frames env conf fuel j
          ])
      behind later (stop j) w = w
      behind later (fails j) w = w
      behind later (paused j) w = w
      behind later (go_on j) w = later j w

-- Whatever bytes are in the buffer, where memory is there, the limit is below 2 ^ 63 and what is
-- half-gathered is sound: `processBufferedFrames` adds to the data queue only messages that carry the
-- id of this client, that are within the limit, and that are valid UTF-8 if they are texts; the
-- message that it is paused with is of that kind too; and what it leaves half-gathered is sound.
pub process_buffered_frames-IsLinkSafe :
    (env : Env) (conf : Config) (k : Link)
    → ((n : ℕ) → env.realloc n ≡ true)
    → conf.max_message < 2 ^ 63
    → IsGathered conf (as_conn k.client)
    → RoundIs (IsLinkSafe conf k) (process_buffered_frames env conf k)
unfolding process_buffered_frames
process_buffered_frames-IsLinkSafe env conf k gives limit g =
    buffered_frames-Safe env conf gives limit k (buf_len k.client.rx + 1) k
      (from_here conf (as_conn k.client) (as_shared k.queue) g)
