-- ===== src/Worker/Frames/Moves.antt =====
-- Where a run of `handleWsOpen` of src/worker.c leaves its connection: where it was, or parked.
use ws_server.Base.{
  ℕ, zero, suc, ◌+◌, ◌%◌, ◌^◌, ◌≡◌, ◌/◌, refl, bit_and, Bool, true, false, not, ◌&&◌, Option, none,
  some, List, [], ◌∷◌, ◌++◌, if◌then◌else◌, leb, ltb, ◌==◌, length, Bool-cases, Option-cases, inl,
  inr, arith,
}
use ws_server.Buffer.{buf_len, buf_append}
use ws_server.Buffer.Socket.{
  RecvAnswer, RecvRc, SendRc, all_sent, blocked, send_error, buf_send, got, got_eof, again, closed,
  too_big, SendAnswer, buf_recv, Received,
}
use ws_server.Buffer.Laws.{content}
use ws_server.Ws.Header.{FrameHdr, WsRc, need_more, ok, err_proto, parse_header}
use ws_server.Ws.Utf8.{Utf8St, utf8_feed, utf8_done}
use ws_server.Agg.Message.{
  Msg, msg_sink_add, frame_new, op_cont, op_text, op_close, op_ping, op_pong,
}
use ws_server.Conn.{Conn}
use ws_server.Worker.{
  Config, Shared, Env, Disposition, parked, handoff, disp_close, rearm_in, rearm_out, rearm_inout,
  Handled, tx_disposition, append_frame, send_close_and_mark, flush_tx,
}
use ws_server.Worker.Frames.{
  Round, break_off, go_on, park, unmask_in_place, payload_of, consume_frame, begin_message,
  after_frames, control_frame, hand_over, finish_message, add_fragment, data_payload, data_frame,
  whole_frame, frame_round, frame_loop, at_end, handle_ws_open,
}

-- From the connection `c` and these queues on.
module _ (c0 : Conn) (s0 : Shared) where
  -- It is the same connection, as much watched as before, and no other thread was given it.
  pub record Unmoved (c : Conn) (s : Shared) : Type 0 where
    pub same_id : c.id ≡ c0.id
    pub same_watched : c.watched ≡ c0.watched
    pub same_epollfd : c.epollfd ≡ c0.epollfd
    pub same_park : s.park_list ≡ s0.park_list
    pub same_ctrl : s.ctrl_queue ≡ s0.ctrl_queue

  -- It is last in the park list, with a message, and no epoll has it.
  pub record IsParked (c : Conn) (s : Shared) : Type 0 where
    pub same_id : c.id ≡ c0.id
    pub unwatched : c.watched ≡ false
    pub same_epollfd : c.epollfd ≡ c0.epollfd
    pub holds : (m : Msg) × (c.pending_msg ≡ some m)
    pub last : s.park_list ≡ s0.park_list ++ c0.id ∷ []
    pub same_ctrl : s.ctrl_queue ≡ s0.ctrl_queue

  -- The aggregator is told of it, and it is in no epoll of the workers.
  pub record IsHanded (c : Conn) (s : Shared) : Type 0 where
    pub same_id : c.id ≡ c0.id
    pub unwatched : c.watched ≡ false
    pub no_epollfd : c.epollfd ≡ none
    pub told :
        (m : Msg) × (s.ctrl_queue ≡ s0.ctrl_queue ++ m ∷ [])
        × (m.kind ≡ msg_sink_add)
        × (m.conn ≡ some c0.id)
    pub same_park : s.park_list ≡ s0.park_list

  -- It is the same connection, and no queue has it.
  pub record IsAlone (c : Conn) (s : Shared) : Type 0 where
    pub same_id : c.id ≡ c0.id
    pub same_park : s.park_list ≡ s0.park_list
    pub same_ctrl : s.ctrl_queue ≡ s0.ctrl_queue

  pub alone : {c : Conn} {s : Shared} → Unmoved c s → IsAlone c s
  alone v = record { same_id = v.same_id; same_park = v.same_park; same_ctrl = v.same_ctrl }

  -- What a disposition says of where the connection is.
  abbrev pub At : Disposition → Conn → Shared → Type 0
  At parked c s = IsParked c s
  At handoff c s = IsHanded c s
  At rearm_in c s = Unmoved c s
  At rearm_out c s = Unmoved c s
  At rearm_inout c s = Unmoved c s
  At disp_close c s = IsAlone c s

  abbrev pub Places : Handled → Type 0
  Places r = At r.disp r.conn r.shared

  abbrev RoundMoves : Round → Type 0
  RoundMoves (break_off c s) = Unmoved c s
  RoundMoves (go_on c s) = Unmoved c s
  RoundMoves (park c s) = IsParked c s

  abbrev pub Moves : Conn × Shared × Bool → Type 0
  Moves (c, s, true) = IsParked c s
  Moves (c, s, false) = Unmoved c s

  either_way :
      (b : Bool) (x y : Round) → RoundMoves x → RoundMoves y → RoundMoves (if b then x else y)
  either_way true x y p q = p
  either_way false x y p q = q

  module _ (env : Env) (conf : Config) where
    append_frame-Unmoved :
        (c : Conn) (s : Shared) (f : Option (List ℕ))
        → Unmoved c s
        → Unmoved (append_frame env c f) s
    unfolding append_frame
    append_frame-Unmoved c s f v = ground arith

    closes-Unmoved :
        (c : Conn) (s : Shared) (code : ℕ)
        → Unmoved c s
        → Unmoved (send_close_and_mark env c code) s
    unfolding send_close_and_mark
    closes-Unmoved c s code v =
        let f = frame_new env.malloc op_close ((code / 2 ^ 8 % 256) ∷ (code % 256) ∷ []) in
        let w = append_frame-Unmoved c s f v in ground arith

    consumes-Unmoved :
        (c : Conn) (s : Shared) (h : FrameHdr) → Unmoved c s → Unmoved (consume_frame c h) s
    unfolding consume_frame
    consumes-Unmoved c s h v = ground arith

    control_frame-Moves :
        (c : Conn) (s : Shared) (h : FrameHdr) (payload : List ℕ)
        → Unmoved c s
        → RoundMoves (control_frame env conf c s h payload)
    unfolding control_frame
    control_frame-Moves c s h payload v =
        let f = frame_new env.malloc op_pong payload in
        let w = append_frame-Unmoved c s f v in
        elim (Bool-cases (h.opcode == op_ping)) [
          | inl ping ↦ rw ping (consumes-Unmoved _ s h w)
          | inr other ↦ rw other (elim (Bool-cases (h.opcode == op_close)) [
            | inl close ↦ rw close (consumes-Unmoved _ s h (closes-Unmoved c s _ v))
            | inr pong ↦ rw pong (consumes-Unmoved c s h v)
          ])
        ]

    hand_over-Moves :
        (c : Conn) (s : Shared) (m : Option Msg)
        → Unmoved c s
        → RoundMoves (hand_over env conf c s m)
    unfolding hand_over
    hand_over-Moves c s none v = v
    hand_over-Moves c s (some m) v =
        elim (Bool-cases (leb conf.high_watermark (length s.data_queue))) [
          | inl full ↦ rw full (record {
            same_id = v.same_id;
            unwatched = refl;
            same_epollfd = v.same_epollfd;
            holds = (m, refl);
            last = rw (v.same_park, v.same_id) refl;
            same_ctrl = v.same_ctrl;
          })
          | inr free ↦ rw free (ground arith)
        ]

    finish_message-Moves :
        (c : Conn) (s : Shared) → Unmoved c s → RoundMoves (finish_message env conf c s)
    unfolding finish_message
    finish_message-Moves c s v =
        elim (Bool-cases ((c.msg_opcode == op_text) && not (utf8_done c.msg_utf8))) [
          | inl cut ↦ rw cut (closes-Unmoved _ s 1007 (ground arith))
          | inr done ↦ rw done (hand_over-Moves _ s _ (ground arith))
        ]

    add_fragment-Moves :
        (c : Conn) (s : Shared) (h : FrameHdr) (payload : List ℕ) (st : Utf8St)
        → Unmoved c s
        → RoundMoves (add_fragment env conf c s h payload st)
    unfolding add_fragment
    add_fragment-Moves c s h payload st v =
        let w =
          consumes-Unmoved (record c { msg_utf8 = st; msg = buf_append env.realloc c.msg payload })
            s h (ground arith) in
        elim (Bool-cases (h.fin == 0)) [
          | inl more ↦ rw more w
          | inr last ↦ rw last (finish_message-Moves _ s w)
        ]

    data_payload-Moves :
        (c : Conn) (s : Shared) (h : FrameHdr) (payload : List ℕ)
        → Unmoved c s
        → RoundMoves (data_payload env conf c s h payload)
    unfolding data_payload
    data_payload-Moves c s h payload v =
        elim (Bool-cases (ltb conf.max_message ((buf_len c.msg + h.payload_len) % 2 ^ 64))) [
          | inl long ↦ rw long (closes-Unmoved c s 1009 v)
          | inr short ↦
              rw short (elim (Bool-cases ((c.msg_opcode == op_text) && ltb 0 h.payload_len)) [
                | inl text ↦ rw text (elim (Option-cases (utf8_feed c.msg_utf8 payload)) [
                  | inl bad ↦ rw bad (closes-Unmoved c s 1007 v)
                  | inr (st, fed) ↦ rw fed (add_fragment-Moves c s h payload st v)
                ])
                | inr other ↦ rw other (add_fragment-Moves c s h payload c.msg_utf8 v)
              ])
        ]

    data_frame-Moves :
        (c : Conn) (s : Shared) (h : FrameHdr) (payload : List ℕ)
        → Unmoved c s
        → RoundMoves (data_frame env conf c s h payload)
    unfolding data_frame
    data_frame-Moves c s h payload v =
        either_way (h.opcode == op_cont) _ _
          (either_way (not c.fragmenting) _ _ (closes-Unmoved c s 1002 v)
            (data_payload-Moves c s h payload v))
          (either_way c.fragmenting _ _ (closes-Unmoved c s 1002 v) (
            data_payload-Moves (begin_message c h) s h payload
              (unfold begin_message in ground arith)))

    whole_frame-Moves :
        (c : Conn) (s : Shared) (h : FrameHdr)
        → Unmoved c s
        → RoundMoves (whole_frame env conf c s h)
    unfolding whole_frame
    whole_frame-Moves c s h v =
        let d = record c { rx = unmask_in_place c.rx h } in
        let payload = payload_of d.rx h in
        let w : Unmoved d s = ground arith in
        either_way (h.masked == 0) _ _ (closes-Unmoved c s 1002 v) (
          either_way (ltb conf.max_frame h.payload_len) _ _ (closes-Unmoved c s 1009 v) (
            either_way (ltb (buf_len c.rx) ((h.header_len + h.payload_len) % 2 ^ 64)) _ _ v (
              either_way (not (bit_and h.opcode 0x8 == 0)) _ _ (control_frame-Moves d s h payload w)
                (data_frame-Moves d s h payload w))))

    frame_round-Moves :
        (c : Conn) (s : Shared) → Unmoved c s → RoundMoves (frame_round env conf c s)
    unfolding frame_round
    frame_round-Moves c s v = by_header (parse_header (content c.rx))
      where
        by_header :
            (r : WsRc FrameHdr)
            → RoundMoves (elim r [
              | need_more ↦ break_off c s
              | err_proto ↦ break_off (send_close_and_mark env c 1002) s
              | ok h ↦ whole_frame env conf c s h
            ])
        by_header need_more = v
        by_header err_proto = closes-Unmoved c s 1002 v
        by_header (ok h) = whole_frame-Moves c s h v

    pub frame_loop-Moves :
        (fuel : ℕ) (c : Conn) (s : Shared) → Unmoved c s → Moves (frame_loop env conf fuel c s)
    unfolding frame_loop
    frame_loop-Moves zero c s v = v
    frame_loop-Moves (suc fuel) c s v = elim (Bool-cases c.close_after_send) [
      | inl closing ↦ rw (closing, frame_loop) v
      | inr on ↦
          rw (on, frame_loop)
            (by_round (frame_round env conf c s) (frame_round-Moves c s v) (frame_loop-Moves fuel))
    ]
      where
        by_round :
            (r : Round)
            → RoundMoves r
            → ((d : Conn) (t : Shared) → Unmoved d t → Moves (frame_loop env conf fuel d t))
            → Moves (elim r [
              | break_off c' s' ↦ (c', s', false)
              | go_on c' s' ↦ frame_loop env conf fuel c' s'
              | park c' s' ↦ (c', s', true)
            ])
        by_round (break_off d t) w rest = w
        by_round (go_on d t) w rest = rest d t w
        by_round (park d t) w rest = w

    pub sent-At :
        (rc : SendRc) (closing : Bool) (c : Conn) (s : Shared)
        → Unmoved c s
        → At (tx_disposition rc closing) c s
    sent-At send_error closing c s v = alone v
    sent-At blocked closing c s v = v
    sent-At all_sent true c s v = alone v
    sent-At all_sent false c s v = v

    after_frames-Places :
        (eof : Bool) (wire : List ℕ) (sends : List SendAnswer) (x : Conn × Shared × Bool)
        → Moves x
        → Places (after_frames eof wire sends x)
    unfolding after_frames flush_tx
    after_frames-Places eof wire sends (c, s, true) v = v
    after_frames-Places true wire sends (c, s, false) v = ground arith
    after_frames-Places false wire sends (c, s, false) v =
        sent-At (buf_send c.tx wire sends).rc c.close_after_send _ s (ground arith)

    -- Where `handleWsOpen` leaves the connection, its disposition says.
    pub handle_ws_open-Places :
        (c : Conn) (s : Shared) (wire : List ℕ) (recvs : List RecvAnswer) (sends : List SendAnswer)
        → Unmoved c s
        → Places (handle_ws_open env conf c s wire recvs sends)
    unfolding handle_ws_open
    handle_ws_open-Places c s wire recvs sends v =
        after_frames-Places (at_end r.rc) wire sends
          (frame_loop env conf (buf_len (read r.rc).rx + 1) (read r.rc) s)
          (frame_loop-Moves (buf_len (read r.rc).rx + 1) (read r.rc) s (read-Unmoved r.rc))
      where
        r : Received
        r = buf_recv env.realloc c.rx 4096 ((conf.max_message + conf.max_frame) % 2 ^ 64) recvs

        d : Conn
        d = record c { rx = r.buf }

        read : RecvRc → Conn
        read rc = elim rc [ too_big ↦ send_close_and_mark env d 1009 | _ ↦ d ]

        read-Unmoved : (rc : RecvRc) → Unmoved (read rc) s
        read-Unmoved too_big = closes-Unmoved d s 1009 (ground arith)
        read-Unmoved got = ground arith
        read-Unmoved got_eof = ground arith
        read-Unmoved again = ground arith
        read-Unmoved closed = ground arith
