-- ===== src/Worker/Frames.antt =====
-- `handleWsOpen` of src/worker.c: the loop over the frames in `rx`, and the handler round it.
pub mod Invariant
pub mod Gathering
pub mod Safety
pub mod Outcome
pub mod Fuel
pub mod Loop
pub mod Moves
pub mod Examples
use ws_server.Base.{
  ℕ, zero, suc, ◌+◌, ◌*◌, ◌%◌, ◌^◌, bit_and, bit_or, Bool, true, false, not, ◌&&◌, ◌||◌, Option,
  none, some, List, [], ◌∷◌, ◌++◌, if◌then◌else◌, ltb, leb, ◌==◌, length, take, drop, get_or,
}
use ws_server.Buffer.{Buf, buf_data, buf_len, buf_consume, buf_append, buf_reset}
use ws_server.Buffer.Socket.{
  RecvAnswer, RecvRc, got, got_eof, again, closed, too_big, SendAnswer, buf_recv,
}
use ws_server.Buffer.Laws.{content}
use ws_server.Ws.Header.{FrameHdr, need_more, ok, err_proto, parse_header}
use ws_server.Ws.Mask.{unmask}
use ws_server.Ws.Utf8.{Utf8St, utf8_reset, utf8_feed, utf8_done}
use ws_server.Ws.Close.{is_valid_close_code}
use ws_server.Agg.Message.{
  Msg, msg_new_data, frame_new, op_cont, op_text, op_close, op_ping, op_pong,
}
use ws_server.Conn.{Conn}
use ws_server.Queue.{enqueue}
use ws_server.Worker.{
  Config, Shared, Env, Disposition, disp_close, parked, Handled, append_frame, send_close_and_mark,
  flush_tx,
}

-- How one round of the loop ends: `break`, `continue`, or the return of `DISP_PARKED`.
pub data Round : Type 0 where
  break_off : Conn → Shared → Round
  go_on : Conn → Shared → Round
  park : Conn → Shared → Round

-- `wsUnmask(payload, …)` in place: the payload lies behind the header in `rx`.
unfoldable pub unmask_in_place : Buf → FrameHdr → Buf
unmask_in_place b h =
    let start = b.off + h.header_len in
    let payload = take h.payload_len (drop start b.p) in
    record b {
      p = take start b.p ++ (unmask payload h.mask_key ++ drop (start + h.payload_len) b.p);
    }

unfoldable pub payload_of : Buf → FrameHdr → List ℕ
payload_of b h = take h.payload_len (drop h.header_len (buf_data b))

-- `bufConsume(&c->rx, h.headerLen + h.payloadLen)`.
unfoldable pub consume_frame : Conn → FrameHdr → Conn
consume_frame c h = record c { rx = buf_consume c.rx (h.header_len + h.payload_len) }

-- The code that answers a CLOSE frame with a payload of two bytes or more.
pub close_reply : List ℕ → ℕ
close_reply payload =
    let code = bit_or (get_or payload 0 0 * 2 ^ 8) (get_or payload 1 0) in
    if not (is_valid_close_code code) then 1002 else elim (utf8_feed utf8_reset (drop 2 payload)) [
      | none ↦ 1007
      | some st ↦ if utf8_done st then code else 1007
    ]

-- A frame that begins a message resets what was gathered.
unfoldable pub begin_message : Conn → FrameHdr → Conn
begin_message c h = record c {
  msg_opcode = h.opcode;
  fragmenting = true;
  msg = buf_reset c.msg;
  msg_utf8 = utf8_reset;
}

abbrev pub at_end : RecvRc → Bool
at_end closed = true
at_end got_eof = true
at_end _ = false

unfoldable pub after_frames : Bool → List ℕ → List SendAnswer → Conn × Shared × Bool → Handled
after_frames eof wire sends (c, s, true) = record {
  disp = parked;
  conn = c;
  shared = s;
  wire = wire;
}
after_frames eof wire sends (c, s, false) =
    let r = flush_tx c s wire sends in if eof then record r { disp = disp_close } else r

module _ (env : Env) (conf : Config) where
  pub control_frame : Conn → Shared → FrameHdr → List ℕ → Round
  control_frame c s h payload =
      if h.opcode == op_ping
      then go_on (consume_frame (append_frame env c (frame_new env.malloc op_pong payload)) h) s
      else if h.opcode == op_close
      then (let code =
            if h.payload_len == 1
            then 1002
            else if leb 2 h.payload_len
            then close_reply payload
            else 1000 in
          break_off (consume_frame (send_close_and_mark env c code) h) s)
      else go_on (consume_frame c h) s

  -- `parkListPush`; the list as the ids of its connections.
  abbrev pub park_list_push : Shared → Conn → Shared
  park_list_push s c = record s { park_list = s.park_list ++ c.id ∷ [] }

  -- `epoll_ctl` with EPOLL_CTL_DEL.
  abbrev pub epoll_del : Conn → Conn
  epoll_del c = record c { watched = false }

  -- A message is complete: `none` is the loss of a message that found no memory. A full queue parks the
  -- connection in two steps, the push first; here no other thread runs between them.
  pub hand_over : Conn → Shared → Option Msg → Round
  hand_over c s none = go_on c s
  hand_over c s (some m) =
      if leb conf.high_watermark (length s.data_queue)
      then (let d = record c { pending_msg = some m } in
          let pushed = park_list_push s d in park (epoll_del d) pushed)
      else go_on c (record s { data_queue = enqueue env.malloc s.data_queue m })

  pub finish_message : Conn → Shared → Round
  finish_message c s =
      let d = record c { fragmenting = false } in
      if (c.msg_opcode == op_text) && not (utf8_done c.msg_utf8)
      then break_off (send_close_and_mark env d 1007) s
      else hand_over (record d { msg = buf_reset c.msg }) s
          (msg_new_data env.malloc env.now c.id c.msg_opcode (content c.msg))

  -- The payload joins the message, `st` being the state of the validator behind it.
  pub add_fragment : Conn → Shared → FrameHdr → List ℕ → Utf8St → Round
  add_fragment c s h payload st =
      let d =
        consume_frame (record c { msg_utf8 = st; msg = buf_append env.realloc c.msg payload }) h in
      if h.fin == 0 then go_on d s else finish_message d s

  pub data_payload : Conn → Shared → FrameHdr → List ℕ → Round
  data_payload c s h payload =
      if ltb conf.max_message ((buf_len c.msg + h.payload_len) % 2 ^ 64)
      then break_off (send_close_and_mark env c 1009) s
      else if (c.msg_opcode == op_text) && ltb 0 h.payload_len
      then elim (utf8_feed c.msg_utf8 payload) [
        | none ↦ break_off (send_close_and_mark env c 1007) s
        | some st ↦ add_fragment c s h payload st
      ]
      else add_fragment c s h payload c.msg_utf8

  pub data_frame : Conn → Shared → FrameHdr → List ℕ → Round
  data_frame c s h payload =
      if h.opcode == op_cont
      then (if not c.fragmenting
          then break_off (send_close_and_mark env c 1002) s
          else data_payload c s h payload)
      else if c.fragmenting
      then break_off (send_close_and_mark env c 1002) s
      else data_payload (begin_message c h) s h payload

  -- A frame whose header is parsed.
  pub whole_frame : Conn → Shared → FrameHdr → Round
  whole_frame c s h =
      if h.masked == 0
      then break_off (send_close_and_mark env c 1002) s
      else if ltb conf.max_frame h.payload_len
      then break_off (send_close_and_mark env c 1009) s
      else if ltb (buf_len c.rx) ((h.header_len + h.payload_len) % 2 ^ 64)
      then break_off c s
      else (let d = record c { rx = unmask_in_place c.rx h } in
          let payload = payload_of d.rx h in
          if not (bit_and h.opcode 0x8 == 0)
          then control_frame d s h payload
          else data_frame d s h payload)

  pub frame_round : Conn → Shared → Round
  frame_round c s = elim (parse_header (content c.rx)) [
    | need_more ↦ break_off c s
    | err_proto ↦ break_off (send_close_and_mark env c 1002) s
    | ok h ↦ whole_frame c s h
  ]

  -- `while (!c->closeAfterSend)`; the Boolean says whether the connection was parked. Every round
  -- that goes on takes two bytes at least from `rx`, so `bufLen + 1` rounds are enough.
  pub frame_loop : ℕ → Conn → Shared → Conn × Shared × Bool
  frame_loop zero c s = (c, s, false)
  frame_loop (suc fuel) c s = elim c.close_after_send [
    | true ↦ (c, s, false)
    | false ↦ elim (frame_round c s) [
      | break_off c' s' ↦ (c', s', false)
      | go_on c' s' ↦ frame_loop fuel c' s'
      | park c' s' ↦ (c', s', true)
    ]
  ]

  pub handle_ws_open : Conn → Shared → List ℕ → List RecvAnswer → List SendAnswer → Handled
  handle_ws_open c s wire recvs sends =
      let r = buf_recv env.realloc c.rx 4096 ((conf.max_message + conf.max_frame) % 2 ^ 64) recvs in
      let d = record c { rx = r.buf } in
      let e : Conn = elim r.rc [ too_big ↦ send_close_and_mark env d 1009 | _ ↦ d ] in
      after_frames (at_end r.rc) wire sends (frame_loop (buf_len e.rx + 1) e s)
