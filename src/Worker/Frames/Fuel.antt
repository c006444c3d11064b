-- ===== src/Worker/Frames/Fuel.antt =====
-- The loop of `handleWsOpen` of src/worker.c ends, and leaves no whole frame behind.
use ws_server.Base.{
  ℕ, ◌+◌, ◌%◌, ◌^◌, ◌≤◌, ◌<◌, ◌≡◌, refl, ap, sym, ◌⊎◌, inl, inr, bit_and, true, not, ◌&&◌, Option,
  none, some, List, ◌++◌, ltb, leb, ◌==◌, length, take, drop, length-append, length-take,
  length-drop, Bool-cases, Option-cases, arith,
}
use ws_server.Buffer.{Buf, buf_len, buf_consume}
use ws_server.Buffer.Laws.{IsBuf, content, length-content}
use ws_server.Buffer.Append.{buf_consume_lem}
use ws_server.Ws.Header.{FrameHdr, WsRc, ok, need_more, err_proto, parse_header}
use ws_server.Ws.Header.Short.{parse_header-least}
use ws_server.Ws.Header.Whole.{LacksFrame, need_more-LacksFrame, part-LacksFrame}
use ws_server.Ws.Mask.{unmask, length-unmask}
use ws_server.Ws.Utf8.{Utf8St, utf8_feed, utf8_done}
use ws_server.Agg.Message.{Msg, frame_new, op_cont, op_text, op_close, op_ping, op_pong}
use ws_server.Conn.{Conn}
use ws_server.Worker.{Config, Shared, Env, append_frame, send_close_and_mark}
use ws_server.Worker.Frames.{
  Round, break_off, go_on, park, unmask_in_place, payload_of, consume_frame, control_frame,
  hand_over, finish_message, add_fragment, data_payload, begin_message, data_frame, whole_frame,
  frame_round,
}

-- A round behind the header: it closes, or goes on with fewer than `n` bytes in `rx`.
abbrev Advances : ℕ → Round → Type 0
Advances n (break_off c s) = c.close_after_send ≡ true
Advances n (go_on c s) = IsBuf c.rx × (buf_len c.rx < n)
Advances n (park c s) = Unit

closes :
    (env : Env) (c : Conn) (code : ℕ) → (send_close_and_mark env c code).close_after_send ≡ true
unfolding send_close_and_mark
closes env c code = ground arith

append_frame-rx : (env : Env) (c : Conn) (f : Option (List ℕ)) → (append_frame env c f).rx ≡ c.rx
unfolding append_frame
append_frame-rx env c none = refl
append_frame-rx env c (some f) = refl

unmask_in_place-IsBuf :
    (b : Buf) (h : FrameHdr)
    → IsBuf b
    → IsBuf (unmask_in_place b h) × (buf_len (unmask_in_place b h) ≡ buf_len b)
unfolding unmask_in_place buf_len
unmask_in_place-IsBuf b h v =
    let start = b.off + h.header_len in
    let payload = take h.payload_len (drop start b.p) in
    let whole : length (unmask_in_place b h).p ≡ length b.p = omega (
      arith,
      length-append (take start b.p)
          (unmask payload h.mask_key ++ drop (start + h.payload_len) b.p),
      length-append (unmask payload h.mask_key) (drop (start + h.payload_len) b.p),
      length-unmask payload h.mask_key,
      length-take start b.p,
      length-take h.payload_len (drop start b.p),
      length-drop start b.p,
      length-drop (start + h.payload_len) b.p,
    ) in
    (record { in_order = v.in_order; written = omega arith; within = omega arith }, refl)

-- Consuming a frame takes a byte at least.
shorter :
    (c : Conn) (h : FrameHdr)
    → IsBuf c.rx
    → 2 ≤ h.header_len
    → 2 ≤ buf_len c.rx
    → IsBuf (consume_frame c h).rx × (buf_len (consume_frame c h).rx < buf_len c.rx)
unfolding consume_frame
shorter c h v least some_left =
    let (valid, same, _, _) = buf_consume_lem c.rx (h.header_len + h.payload_len) v in
    let fewer = length-drop (h.header_len + h.payload_len) (content c.rx) in
    let n : buf_len (buf_consume c.rx (h.header_len + h.payload_len))
        ≡ length (content (buf_consume c.rx (h.header_len + h.payload_len))) =
      sym (length-content _ valid) in
    (valid, omega (arith, n, ap length same, fewer, length-content c.rx v))

module _ (env : Env) (conf : Config) (n : ℕ) where
  control_frame-Advances :
      (c : Conn) (s : Shared) (h : FrameHdr) (payload : List ℕ)
      → IsBuf c.rx
      → 2 ≤ h.header_len
      → 2 ≤ buf_len c.rx
      → buf_len c.rx ≤ n
      → Advances n (control_frame env conf c s h payload)
  unfolding control_frame consume_frame
  control_frame-Advances c s h payload v least some_left bound =
      let (valid, fewer) = shorter c h v least some_left in
      let gone : IsBuf (consume_frame c h).rx × (buf_len (consume_frame c h).rx < n) =
        (valid, omega arith) in
      let f = frame_new env.malloc op_pong payload in
      elim (Bool-cases (h.opcode == op_ping)) [
        | inl ping ↦ rw (ping, append_frame-rx env c f) gone
        | inr other ↦ rw other (elim (Bool-cases (h.opcode == op_close)) [
          | inl close ↦ rw close (closes env c _)
          | inr pong ↦ rw pong gone
        ])
      ]

  hand_over-Advances :
      (c : Conn) (s : Shared) (m : Option Msg)
      → IsBuf c.rx × (buf_len c.rx < n)
      → Advances n (hand_over env conf c s m)
  unfolding hand_over
  hand_over-Advances c s none gone = gone
  hand_over-Advances c s (some m) gone =
      elim (Bool-cases (leb conf.high_watermark (length s.data_queue))) [
        | inl full ↦ rw full tt
        | inr free ↦ rw free gone
      ]

  finish_message-Advances :
      (c : Conn) (s : Shared)
      → IsBuf c.rx × (buf_len c.rx < n)
      → Advances n (finish_message env conf c s)
  unfolding finish_message
  finish_message-Advances c s gone =
      elim (Bool-cases ((c.msg_opcode == op_text) && not (utf8_done c.msg_utf8))) [
        | inl cut ↦ rw cut (closes env _ 1007)
        | inr done ↦ rw done (hand_over-Advances _ s _ gone)
      ]

  module _ (s : Shared) (h : FrameHdr) (payload : List ℕ) (least : 2 ≤ h.header_len) where
    add_fragment-Advances :
        (c : Conn) (st : Utf8St)
        → IsBuf c.rx
        → 2 ≤ buf_len c.rx
        → buf_len c.rx ≤ n
        → Advances n (add_fragment env conf c s h payload st)
    unfolding add_fragment consume_frame
    add_fragment-Advances c st v some_left bound =
        let (valid, fewer) = shorter c h v least some_left in
        let gone : IsBuf (consume_frame c h).rx × (buf_len (consume_frame c h).rx < n) =
          (valid, omega arith) in
        elim (Bool-cases (h.fin == 0)) [
          | inl more ↦ rw more gone
          | inr last ↦ rw last (finish_message-Advances _ s gone)
        ]

    data_payload-Advances :
        (c : Conn)
        → IsBuf c.rx
        → 2 ≤ buf_len c.rx
        → buf_len c.rx ≤ n
        → Advances n (data_payload env conf c s h payload)
    unfolding data_payload
    data_payload-Advances c v some_left bound =
        elim (Bool-cases (ltb conf.max_message ((buf_len c.msg + h.payload_len) % 2 ^ 64))) [
          | inl over ↦ rw over (closes env c 1009)
          | inr fits ↦
              rw fits (elim (Bool-cases ((c.msg_opcode == op_text) && ltb 0 h.payload_len)) [
                | inl checked ↦ rw checked (elim (Option-cases (utf8_feed c.msg_utf8 payload)) [
                  | inl bad ↦ rw bad (closes env c 1007)
                  | inr (st, fed) ↦ rw fed (add_fragment-Advances c st v some_left bound)
                ])
                | inr unchecked ↦
                    rw unchecked (add_fragment-Advances c c.msg_utf8 v some_left bound)
              ])
        ]

    data_frame-Advances :
        (c : Conn)
        → IsBuf c.rx
        → 2 ≤ buf_len c.rx
        → buf_len c.rx ≤ n
        → Advances n (data_frame env conf c s h payload)
    unfolding data_frame begin_message
    data_frame-Advances c v some_left bound = elim (Bool-cases (h.opcode == op_cont)) [
      | inl cont ↦ rw cont (elim (Bool-cases c.fragmenting) [
        | inl opened ↦ simp opened (data_payload-Advances c v some_left bound)
        | inr shut ↦ simp shut (closes env c 1002)
      ])
      | inr fresh ↦ rw fresh (elim (Bool-cases c.fragmenting) [
        | inl opened ↦ simp opened (closes env c 1002)
        | inr shut ↦ simp shut (data_payload-Advances (begin_message c h) v some_left bound)
      ])
    ]

-- How a round of the loop ends: it takes bytes from `rx`, or closes or parks the connection, or
-- leaves all as it was, with no whole frame in `rx`.
abbrev pub Ends : Conn → Shared → Round → Type 0
Ends c s (break_off c' s') =
    (c'.close_after_send ≡ true) ⊎ ((c' ≡ c) × (s' ≡ s) × LacksFrame (content c.rx))
Ends c s (go_on c' s') = IsBuf c'.rx × (buf_len c'.rx < buf_len c.rx)
Ends c s (park c' s') = Unit

Advances-Ends : (c : Conn) (s : Shared) (r : Round) → Advances (buf_len c.rx) r → Ends c s r
Advances-Ends c s (break_off c' s') a = inl a
Advances-Ends c s (go_on c' s') a = a
Advances-Ends c s (park c' s') a = tt

module _ (env : Env) (conf : Config) where
  whole_frame-Ends :
      (c : Conn) (s : Shared) (h : FrameHdr)
      → IsBuf c.rx
      → parse_header (content c.rx) ≡ ok h
      → 2 ≤ h.header_len
      → 2 ≤ buf_len c.rx
      → Ends c s (whole_frame env conf c s h)
  unfolding whole_frame
  whole_frame-Ends c s h v parsed least some_left =
      let d = record c { rx = unmask_in_place c.rx h } in
      let (valid, same) = unmask_in_place-IsBuf c.rx h v in
      elim (Bool-cases (h.masked == 0)) [
        | inl bare ↦ rw bare (inl (closes env c 1002))
        | inr masked ↦ rw masked (elim (Bool-cases (ltb conf.max_frame h.payload_len)) [
          | inl big ↦ rw big (inl (closes env c 1009))
          | inr fits ↦
              rw fits
                (elim (Bool-cases (ltb (buf_len c.rx) ((h.header_len + h.payload_len) % 2 ^ 64))) [
                  | inl part ↦
                      let total = h.header_len + h.payload_len in
                      let most : total % 2 ^ 64 ≤ total = omega arith in
                      let short : length (content c.rx) < total =
                        ground (arith, length-content c.rx v) in
                      rw part (inr (refl, refl, part-LacksFrame (content c.rx) h parsed short))
                  | inr whole ↦ rw whole (elim (Bool-cases (not (bit_and h.opcode 0x8 == 0))) [
                    | inl control ↦ rw control (
                        Advances-Ends c s _ (
                          control_frame-Advances env conf (buf_len c.rx) d s h (payload_of d.rx h)
                            valid least (omega arith) (omega arith)))
                    | inr data' ↦ rw data' (
                        Advances-Ends c s _ (
                          data_frame-Advances env conf (buf_len c.rx) s h (payload_of d.rx h) least
                            d valid (omega arith) (omega arith)))
                  ])
                ])
        ])
      ]

  pub frame_round-Ends : (c : Conn) (s : Shared) → IsBuf c.rx → Ends c s (frame_round env conf c s)
  unfolding frame_round
  frame_round-Ends c s v = of_header (parse_header (content c.rx)) refl
    where
      of_header :
          (r : WsRc FrameHdr)
          → parse_header (content c.rx) ≡ r
          → Ends c s (elim r [
            | need_more ↦ break_off c s
            | err_proto ↦ break_off (send_close_and_mark env c 1002) s
            | ok h ↦ whole_frame env conf c s h
          ])
      of_header need_more e = inr (refl, refl, need_more-LacksFrame (content c.rx) e)
      of_header err_proto e = inl (closes env c 1002)
      of_header (ok h) e =
          let (least, some_left) = parse_header-least (content c.rx) h e in
          whole_frame-Ends c s h v e least (omega (arith, length-content c.rx v))
