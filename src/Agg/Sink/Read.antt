-- ===== src/Agg/Sink/Read.antt =====
-- `sinkReadAndHandle` of src/agg.c: what the sink sends to the aggregator.
pub mod Rounds
use ws_server.Base.{
  ℕ, zero, suc, ◌+◌, ◌%◌, ◌^◌, Bool, true, false, not, ◌&&◌, Option, none, some, List, [], ◌∷◌,
  ◌++◌, if◌then◌else◌, ltb, ◌==◌, take, drop,
}
use ws_server.Buffer.{Buf, buf_data, buf_len, buf_consume}
use ws_server.Buffer.Laws.{content}
use ws_server.Buffer.Socket.{RecvAnswer, RecvRc, got, got_eof, again, closed, too_big, buf_recv}
use ws_server.Ws.Header.{FrameHdr, need_more, ok, err_proto, parse_header}
use ws_server.Ws.Mask.{unmask}
use ws_server.Agg.Message.{frame_new, op_close, op_ping, op_pong}
use ws_server.Agg.Sink.{Out, send_close_best_effort}

-- What the loop over the frames changes: the sink's buffer, the slot of the control frame, and what the
-- sink is given.
pub record Heard : Type 0 where
  pub rx : Buf
  pub pending_ctrl : Option (List ℕ)
  pub pending_ctrl_off : ℕ
  pub out : Out

-- How a round ends: `break`, the next round, or `return 0`.
pub data HeardRound : Type 0 where
  no_more next hang_up : Heard → HeardRound

unfoldable pub consume : Heard → FrameHdr → Heard
consume s h = record s { rx = buf_consume s.rx (h.header_len + h.payload_len) }

-- The payload behind the header, unmasked where it is masked. It is used only before it is consumed.
unfoldable pub payload_from : Buf → FrameHdr → List ℕ
payload_from b h =
    let payload = take h.payload_len (drop h.header_len (buf_data b)) in
    if h.masked == 0 then payload else unmask payload h.mask_key

module _ (malloc : ℕ → Bool) where
  -- A PING is answered where no control frame waits.
  unfoldable pub answer_ping : Heard → List ℕ → Heard
  answer_ping s payload = elim s.pending_ctrl [
    | some f ↦ s
    | none ↦ record s { pending_ctrl = frame_new malloc op_pong payload; pending_ctrl_off = 0 }
  ]

  unfoldable pub hear_frame : Heard → FrameHdr → HeardRound
  hear_frame s h =
      if ltb (buf_len s.rx) ((h.header_len + h.payload_len) % 2 ^ 64)
      then no_more s
      else if h.opcode == op_ping
      then next (consume (answer_ping s (payload_from s.rx h)) h)
      else if h.opcode == op_close
      then hang_up (consume (record s { out = send_close_best_effort malloc s.out 1000 }) h)
      else next (consume s h)

  unfoldable pub hear_round : Heard → HeardRound
  hear_round s = elim (parse_header (content s.rx)) [
    | need_more ↦ no_more s
    | err_proto ↦ hang_up (record s { out = send_close_best_effort malloc s.out 1002 })
    | ok h ↦ hear_frame s h
  ]

  -- The loop; the Boolean is false after `return 0`. `none` is a loop that has not ended in `fuel`
  -- rounds.
  unfoldable pub hear_loop : ℕ → Heard → Option (Bool × Heard)
  hear_loop zero s = none
  hear_loop (suc fuel) s = elim (hear_round s) [
    | no_more s' ↦ some (true, s')
    | next s' ↦ hear_loop fuel s'
    | hang_up s' ↦ some (false, s')
  ]

-- `eof`, behind the loop of `recv`.
abbrev pub ended : RecvRc → Bool
ended got = false
ended again = false
ended _ = true

-- The first loop is that of `bufRecv`, with 4096 bytes at a time and DEFAULT_MAX_FRAME + 64 at most.
unfoldable pub sink_read_and_handle :
    (ℕ → Bool) → (ℕ → Bool) → ℕ → Heard → List RecvAnswer → Option (Bool × Heard)
sink_read_and_handle malloc realloc fuel s recvs =
    let r = buf_recv realloc s.rx 4096 (65536 + 64) recvs in
    elim (hear_loop malloc fuel (record s { rx = r.buf })) [
      | none ↦ none
      | some (stays, s') ↦ some (stays && not (ended r.rc), s')
    ]
