-- ===== src/Upstream/Frames.antt =====
-- `processBufferedFrames` and `publishReactorMessage` of src/ws_client.c: what the client makes of the
-- frames of its upstream server.
pub mod Safety
pub mod Outcome
pub mod Advance
pub mod Loop
use ws_server.Base.{
  ℕ, zero, suc, ◌+◌, ◌-◌, ◌^◌, bit_and, Bool, true, false, not, ◌&&◌, ◌||◌, Option, none, some,
  List, if◌then◌else◌, ltb, leb, ◌==◌, length, take, drop,
}
use ws_server.Buffer.{buf_data, buf_len, buf_consume, buf_append, buf_reset}
use ws_server.Buffer.Laws.{content}
use ws_server.Ws.Header.{FrameHdr, need_more, ok, err_proto, parse_header}
use ws_server.Ws.Utf8.{Utf8St, utf8_reset, utf8_feed, utf8_done}
use ws_server.Agg.Message.{Msg, msg_new_data, op_cont, op_text, op_bin, op_close, op_ping, op_pong}
use ws_server.Queue.{enqueue}
use ws_server.Worker.{Config, Env}
use ws_server.Upstream.Client.{
  UpstreamClient, Link, upstream_closing, update_events, send_frame, begin_close,
}

-- The returns of 0, -1 and 1, and the next round.
pub data LinkRound : Type 0 where
  stop fails paused go_on : Link → LinkRound

unfoldable pub with_client : Link → UpstreamClient → Link
with_client k c = record k { client = c }

unfoldable pub frame_payload : UpstreamClient → FrameHdr → List ℕ
frame_payload c h = take h.payload_len (drop h.header_len (buf_data c.rx))

unfoldable pub skip_frame : UpstreamClient → FrameHdr → UpstreamClient
skip_frame c h = record c { rx = buf_consume c.rx (h.header_len + h.payload_len) }

unfoldable pub start_message : UpstreamClient → FrameHdr → UpstreamClient
start_message c h = record c {
  msg_opcode = h.opcode;
  fragmenting = true;
  msg = buf_reset c.msg;
  msg_utf8 = utf8_reset;
}

-- `if (x != 0) return -1; return 0;`
unfoldable pub returned : Link × Bool → LinkRound
returned (k, true) = stop k
returned (k, false) = fails k

module _ (env : Env) (conf : Config) where
  unfoldable pub reject_with : Link → ℕ → LinkRound
  reject_with k code = returned (begin_close env k code)

  -- `publishReactorMessage` for a message that found memory: the message joins the queue, or waits with
  -- the client, which then does not read.
  unfoldable pub publish_message : Link → Msg → LinkRound
  publish_message k m =
      let c = record k.client { pending_msg = some m; read_paused = true } in
      let (d, watched) = update_events c in
      if leb conf.high_watermark (length k.queue)
      then (if watched
          then paused (with_client k d)
          else fails (with_client k (record d { pending_msg = none; read_paused = false })))
      else go_on (record k { queue = enqueue env.malloc k.queue m })

  unfoldable pub publish_reactor_message : Link → Option Msg → LinkRound
  publish_reactor_message k none = go_on k
  publish_reactor_message k (some m) = publish_message k m

  -- The message was copied: its buffer is reset whatever `publishReactorMessage` returns.
  unfoldable pub reset_message : Link → Link
  reset_message k = with_client k (record k.client { msg = buf_reset k.client.msg })

  unfoldable pub behind_publish : LinkRound → LinkRound
  behind_publish (stop k) = stop (reset_message k)
  behind_publish (fails k) = fails (reset_message k)
  behind_publish (paused k) = paused (reset_message k)
  behind_publish (go_on k) = go_on (reset_message k)

  unfoldable pub message_complete : Link → LinkRound
  message_complete k =
      let c = record k.client { fragmenting = false } in
      if (c.msg_opcode == op_text) && not (utf8_done c.msg_utf8)
      then reject_with (with_client k c) 1007
      else behind_publish (
          publish_reactor_message (with_client k c)
            (msg_new_data env.malloc env.now c.id c.msg_opcode (content c.msg)))

  -- The payload joins the message, `st` being the state of the validator behind it.
  unfoldable pub join_payload : Link → FrameHdr → Utf8St → LinkRound
  join_payload k h st =
      let c = k.client in
      let d =
        skip_frame
          (record c { msg_utf8 = st; msg = buf_append env.realloc c.msg (frame_payload c h) }) h in
      if h.fin == 0 then go_on (with_client k d) else message_complete (with_client k d)

  unfoldable pub take_payload : Link → FrameHdr → LinkRound
  take_payload k h =
      let c = k.client in
      let current = buf_len c.msg in
      if ltb conf.max_message current || ltb (conf.max_message - current) h.payload_len
      then reject_with k 1009
      else if (c.msg_opcode == op_text) && ltb 0 h.payload_len
      then elim (utf8_feed c.msg_utf8 (frame_payload c h)) [
        | none ↦ reject_with k 1007
        | some st ↦ join_payload k h st
      ]
      else join_payload k h c.msg_utf8

  unfoldable pub upstream_data : Link → FrameHdr → LinkRound
  upstream_data k h =
      if h.opcode == op_cont
      then (if k.client.fragmenting then take_payload k h else reject_with k 1002)
      else if (h.opcode == op_text) || (h.opcode == op_bin)
      then (if k.client.fragmenting
          then reject_with k 1002
          else take_payload (with_client k (start_message k.client h)) h)
      else reject_with k 1002

  -- A CLOSE is answered with its own payload.
  unfoldable pub upstream_close : Link → FrameHdr → LinkRound
  upstream_close k h =
      let c = record (skip_frame k.client h) { state = upstream_closing } in
      if h.payload_len == 1
      then reject_with k 1002
      else returned (send_frame env (with_client k c) op_close (frame_payload k.client h))

  unfoldable pub upstream_ping : Link → FrameHdr → LinkRound
  upstream_ping k h =
      let (j, sent) = send_frame env k op_pong (frame_payload k.client h) in
      if sent then go_on (with_client j (skip_frame j.client h)) else fails j

  unfoldable pub upstream_control : Link → FrameHdr → LinkRound
  upstream_control k h =
      if (h.fin == 0) || ltb 125 h.payload_len
      then reject_with k 1002
      else if h.opcode == op_ping
      then upstream_ping k h
      else if h.opcode == op_close
      then upstream_close k h
      else go_on (with_client k (skip_frame k.client h))

  -- A frame whose header is parsed.
  unfoldable pub upstream_frame : Link → FrameHdr → LinkRound
  upstream_frame k h =
      if not (h.masked == 0)
      then reject_with k 1002
      else if ltb conf.max_frame h.payload_len
      then reject_with k 1009
      else if ltb (2 ^ 64 - 1 - h.header_len) h.payload_len
      then fails k
      else if ltb (buf_len k.client.rx) (h.header_len + h.payload_len)
      then stop k
      else if not (bit_and h.opcode 0x08 == 0)
      then upstream_control k h
      else upstream_data k h

  unfoldable pub upstream_round : Link → LinkRound
  upstream_round k =
      if buf_len k.client.rx == 0 then stop k else elim (parse_header (content k.client.rx)) [
        | need_more ↦ stop k
        | err_proto ↦ reject_with k 1002
        | ok h ↦ upstream_frame k h
      ]

  -- The loop, of at most `fuel` rounds, which ends with another outcome than `go_on`.
  unfoldable pub buffered_frames : ℕ → Link → LinkRound
  buffered_frames zero k = go_on k
  buffered_frames (suc fuel) k = elim (upstream_round k) [
    | stop j ↦ stop j
    | fails j ↦ fails j
    | paused j ↦ paused j
    | go_on j ↦ buffered_frames fuel j
  ]

  unfoldable pub process_buffered_frames : Link → LinkRound
  process_buffered_frames k = buffered_frames (buf_len k.client.rx + 1) k
