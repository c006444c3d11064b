-- ===== src/Agg/Sink/Read/Rounds.antt =====
-- `sinkReadAndHandle` of src/agg.c returns.
use ws_server.Base.{
  ℕ, zero, suc, ◌+◌, ◌%◌, ◌^◌, ◌≤◌, ◌<◌, ◌≡◌, refl, ap, sym, Bool, true, false, not, ◌&&◌, Option,
  none, some, List, ltb, ◌==◌, length, length-drop, inl, inr, Bool-cases, Option-cases, arith,
}
use mathlib.Core.Path.{subst}
use ws_server.Buffer.{buf_len, buf_consume}
use ws_server.Buffer.Laws.{IsBuf, content, length-content}
use ws_server.Buffer.Append.{buf_consume_lem}
use ws_server.Buffer.Socket.{RecvAnswer, buf_recv}
use ws_server.Buffer.Socket.Recv.{available, buf_recv-IsReceived}
use ws_server.Ws.Header.{FrameHdr, WsRc, need_more, ok, err_proto, parse_header}
use ws_server.Ws.Header.Short.{parse_header-least}
use ws_server.Ws.Header.Whole.{LacksFrame, need_more-LacksFrame, part-LacksFrame}
use ws_server.Agg.Message.{op_close, op_ping}
use ws_server.Agg.Sink.{send_close_best_effort}
use ws_server.Agg.Sink.Read.{
  Heard, HeardRound, no_more, next, hang_up, consume, answer_ping, payload_from, hear_frame,
  hear_round, hear_loop, sink_read_and_handle, ended,
}

-- Another round has less to read.
abbrev Shrinks : Heard → HeardRound → Type 0
Shrinks s (no_more t) = (t ≡ s) × LacksFrame (content s.rx)
Shrinks s (next t) = IsBuf t.rx × (buf_len t.rx < buf_len s.rx)
Shrinks s (hang_up t) = Unit {0}

module _ (malloc : ℕ → Bool) where
  answer_ping-rx : (s : Heard) (payload : List ℕ) → (answer_ping malloc s payload).rx ≡ s.rx
  unfolding answer_ping
  answer_ping-rx s payload = elim (Option-cases s.pending_ctrl) [
    | inl n ↦ ground arith
    | inr (f, e) ↦ ground arith
  ]

  consume-Shrinks :
      (s t : Heard) (h : FrameHdr)
      → t.rx ≡ s.rx
      → IsBuf s.rx
      → 2 ≤ h.header_len
      → 2 ≤ buf_len s.rx
      → Shrinks s (next (consume t h))
  unfolding consume
  consume-Shrinks s t h same v least some_left =
      let n = h.header_len + h.payload_len in
      let (valid, rest, _, _) = buf_consume_lem s.rx n v in
      let l = length-content (buf_consume s.rx n) valid in
      rw same (
        valid,
        omega (arith, l, ap length rest, length-drop n (content s.rx), length-content s.rx v),
      )

  hear_frame-Shrinks :
      (s : Heard) (h : FrameHdr)
      → IsBuf s.rx
      → parse_header (content s.rx) ≡ ok h
      → 2 ≤ h.header_len
      → 2 ≤ buf_len s.rx
      → Shrinks s (hear_frame malloc s h)
  unfolding hear_frame
  hear_frame-Shrinks s h v parsed least left =
      elim (Bool-cases (ltb (buf_len s.rx) ((h.header_len + h.payload_len) % 2 ^ 64))) [
        | inl part ↦
            let total = h.header_len + h.payload_len in
            let most : total % 2 ^ 64 ≤ total = omega arith in
            let short : length (content s.rx) < total = ground (arith, length-content s.rx v) in
            rw part (refl, part-LacksFrame (content s.rx) h parsed short)
        | inr here ↦ rw here (elim (Bool-cases (h.opcode == op_ping)) [
          | inl ping ↦
              let t = answer_ping malloc s (payload_from s.rx h) in
              rw ping (consume-Shrinks s t h (answer_ping-rx s (payload_from s.rx h)) v least left)
          | inr no_ping ↦ rw no_ping (elim (Bool-cases (h.opcode == op_close)) [
            | inl close ↦ rw close tt
            | inr other ↦ rw other (consume-Shrinks s s h refl v least left)
          ])
        ])
      ]

  hear_round-Shrinks : (s : Heard) → IsBuf s.rx → Shrinks s (hear_round malloc s)
  unfolding hear_round
  hear_round-Shrinks s v = of_header (parse_header (content s.rx)) refl
    where
      of_header :
          (r : WsRc FrameHdr)
          → parse_header (content s.rx) ≡ r
          → Shrinks s (elim r [
            | need_more ↦ no_more s
            | err_proto ↦ hang_up (record s { out = send_close_best_effort malloc s.out 1002 })
            | ok h ↦ hear_frame malloc s h
          ])
      of_header need_more e = (refl, need_more-LacksFrame (content s.rx) e)
      of_header err_proto e = tt
      of_header (ok h) e =
          let (least, some_left) = parse_header-least (content s.rx) h e in
          let left : 2 ≤ buf_len s.rx = omega (arith, length-content s.rx v) in
          hear_frame-Shrinks s h v e least left

  -- The loop has ended: unless it hangs up, no whole frame is left.
  pub record IsHeard (r : Option (Bool × Heard)) : Type 0 where
    pub stays : Bool
    pub heard : Heard
    pub returned : r ≡ some (stays, heard)
    pub at_rest : stays ≡ true → LacksFrame (content heard.rx)

  hear_loop-IsHeard :
      (fuel : ℕ) (s : Heard) → IsBuf s.rx → buf_len s.rx < fuel → IsHeard (hear_loop malloc fuel s)
  unfolding hear_loop
  hear_loop-IsHeard zero s v h = absurd (omega arith)
  hear_loop-IsHeard (suc fuel) s v h =
      of_round (hear_loop-IsHeard fuel) (hear_round malloc s) refl (hear_round-Shrinks s v)
    where
      of_round :
          ((t : Heard) → IsBuf t.rx → buf_len t.rx < fuel → IsHeard (hear_loop malloc fuel t))
          → (r : HeardRound) → hear_round malloc s ≡ r
          → Shrinks s r
          → IsHeard (elim r [
            | no_more s' ↦ some (true, s')
            | next s' ↦ hear_loop malloc fuel s'
            | hang_up s' ↦ some (false, s')
          ])
      of_round later (no_more t) e (same, lacks) = record {
        stays = true;
        heard = t;
        returned = refl;
        at_rest = λ n. subst (λ (x : Heard). LacksFrame (content x.rx)) (sym same) lacks;
      }
      of_round later (next t) e (v', less) = later t v' (omega arith)
      of_round later (hang_up t) e q = record {
        stays = false;
        heard = t;
        returned = refl;
        at_rest = λ n. cc;
      }

  behind_loop :
      (eof : Bool) (o : Option (Bool × Heard))
      → IsHeard o
      → IsHeard (elim o [ none ↦ none | some (stays, t) ↦ some (stays && not eof, t) ])
  behind_loop eof o loop = rw loop.returned (record {
    stays = loop.stays && not eof;
    heard = loop.heard;
    returned = refl;
    at_rest = λ e. loop.at_rest (ground arith);
  })

  -- For a sound buffer, at most 2 ^ 62 bytes in all and more rounds than bytes, `sinkReadAndHandle`
  -- returns, whatever the sink sends; where it keeps the sink, no whole frame is left unread: however
  -- the bytes that wait are read as a well-formed header of RFC 6455 and what is behind it, a part of
  -- the payload is missing.
  pub sink_read_and_handle-IsHeard :
      (realloc : ℕ → Bool) (fuel : ℕ) (s : Heard) (recvs : List RecvAnswer)
      → IsBuf s.rx
      → s.rx.len + length (available recvs) ≤ 2 ^ 62
      → s.rx.len + length (available recvs) < fuel
      → IsHeard (sink_read_and_handle malloc realloc fuel s recvs)
  unfolding sink_read_and_handle buf_len
  sink_read_and_handle-IsHeard realloc fuel s recvs v small rounds =
      let r = buf_recv realloc s.rx 4096 (65536 + 64) recvs in
      let q =
        buf_recv-IsReceived realloc 4096 (65536 + 64) (omega arith) s.rx recvs v (omega arith) in
      behind_loop (ended r.rc) _
        (hear_loop-IsHeard fuel (record s { rx = r.buf }) q.valid (omega (arith, q.bounded)))
