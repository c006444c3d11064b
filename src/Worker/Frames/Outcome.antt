-- ===== src/Worker/Frames/Outcome.antt =====
-- `handleWsOpen` of src/worker.c: whatever bytes arrive, only sound messages leave for the
-- aggregator.
use ws_server.Base.{
  ℕ, zero, suc, ◌+◌, ◌%◌, ◌^◌, ◌≤◌, ◌<◌, ◌≡◌, refl, sym, inl, inr, bit_and, Bool, true, false, not,
  ◌&&◌, some, List, [], ◌∷◌, ltb, ◌==◌, length, drop, length-take, append-nil, Bool-cases,
  Option-cases, ltb→le, arith,
}
use ws_server.Buffer.{Buf, buf_data, buf_len}
use ws_server.Buffer.Laws.{content, length-content}
use ws_server.Ws.Header.{FrameHdr, WsRc, ok, need_more, err_proto, parse_header}
use ws_server.Ws.Utf8.{Utf8St, utf8_feed}
use ws_server.Ws.Utf8.Chunks.{utf8_feed_nil}
use ws_server.Agg.Message.{op_cont, op_text}
use ws_server.Worker.Frames.Invariant.{
  IsGathered, IsSafe, Untouched, IsSafe-Untouched, send_close-Untouched,
}
use ws_server.Worker.Frames.Gathering.{gathering_begins}
use ws_server.Conn.{Conn}
use ws_server.Buffer.Socket.{
  RecvAnswer, RecvRc, got, got_eof, again, closed, too_big, SendAnswer, buf_recv,
}
use ws_server.Worker.{flush_tx, Config, Shared, Env, send_close_and_mark}
use ws_server.Worker.Frames.{
  Round, break_off, go_on, park, unmask_in_place, payload_of, data_payload, begin_message,
  data_frame, whole_frame, frame_round, frame_loop, at_end, after_frames, handle_ws_open,
}
use ws_server.Worker.Frames.Safety.{RoundIs, closes, control_frame-Safe, add_fragment-Safe}

-- A connection whose rx alone is another.
other_rx : (c : Conn) (b : Buf) → Untouched c (record c { rx = b })
other_rx c b = record {
  msg = refl;
  opcode = refl;
  fragmenting = refl;
  utf8 = refl;
  id = refl;
  pending = refl;
}

pub nothing_fed : (st : Utf8St) (bs : List ℕ) → length bs ≡ 0 → utf8_feed st bs ≡ some st
nothing_fed st [] e = utf8_feed_nil st
nothing_fed st (b ∷ bs) e = ground arith

module _ (env : Env) (conf : Config) (gives : (n : ℕ) → env.realloc n ≡ true)
    (limit : conf.max_message < 2 ^ 63) (frame_limit : conf.max_frame < 2 ^ 63) (c0 : Conn)
    (s0 : Shared) where
  abbrev Safe : Conn → Shared → Type 0
  Safe c s = IsSafe conf c0 c s0 s

  data_payload-Safe :
      (c : Conn) (s : Shared) (h : FrameHdr) (payload : List ℕ)
      → Safe c s
      → c.fragmenting ≡ true
      → length payload ≤ h.payload_len
      → h.payload_len < 2 ^ 63
      → RoundIs Safe (data_payload env conf c s h payload)
  unfolding data_payload
  data_payload-Safe c s h payload v is_open short small =
      let g : IsGathered conf c = v.gathered in
      let len : buf_len c.msg ≡ length (content c.msg) = sym (length-content c.msg g.valid) in
      elim (Bool-cases (ltb conf.max_message ((buf_len c.msg + h.payload_len) % 2 ^ 64))) [
        | inl over ↦ rw over (closes env conf gives (omega arith) c0 s0 c s 1009 v)
        | inr fits ↦ rw fits (elim (Bool-cases ((c.msg_opcode == op_text) && ltb 0 h.payload_len)) [
          | inl checked ↦ rw checked (elim (Option-cases (utf8_feed c.msg_utf8 payload)) [
            | inl bad ↦ rw bad (closes env conf gives (omega arith) c0 s0 c s 1007 v)
            | inr (st, fed) ↦ rw fed (
                add_fragment-Safe env conf gives (omega arith) c0 s0 c s h payload st v is_open
                  (enough fits) (λ t. fed))
          ])
          | inr unchecked ↦ rw unchecked (
              add_fragment-Safe env conf gives (omega arith) c0 s0 c s h payload c.msg_utf8 v
                is_open (enough fits) (λ t. nothing_fed c.msg_utf8 payload (none_left unchecked t)))
        ])
      ]
    where
      enough :
          ltb conf.max_message ((buf_len c.msg + h.payload_len) % 2 ^ 64) ≡ false
          → length (content c.msg) + length payload ≤ conf.max_message
      enough fits =
          let g : IsGathered conf c = v.gathered in
          omega (
            arith,
            length-content c.msg g.valid,
            g.fits,
            ltb→le conf.max_message ((buf_len c.msg + h.payload_len) % 2 ^ 64) fits,
          )

      none_left :
          ((c.msg_opcode == op_text) && ltb 0 h.payload_len) ≡ false
          → c.msg_opcode ≡ op_text
          → length payload ≡ 0
      none_left unchecked t = ground arith

  data_frame-Safe :
      (c : Conn) (s : Shared) (h : FrameHdr) (payload : List ℕ)
      → Safe c s
      → length payload ≤ h.payload_len
      → h.payload_len < 2 ^ 63
      → RoundIs Safe (data_frame env conf c s h payload)
  unfolding data_frame begin_message
  data_frame-Safe c s h payload v short small =
      let g : IsGathered conf c = v.gathered in
      let begun : Safe (begin_message c h) s =
        gathering_begins env conf gives (omega arith) c0 s0 c s h.opcode v in
      let refused = closes env conf gives (omega arith) c0 s0 c s 1002 v in
      elim (Bool-cases (h.opcode == op_cont)) [
        | inl cont ↦ rw cont (elim (Bool-cases c.fragmenting) [
          | inl opened ↦ simp opened (data_payload-Safe c s h payload v opened short small)
          | inr shut ↦ simp shut refused
        ])
        | inr fresh ↦ rw fresh (elim (Bool-cases c.fragmenting) [
          | inl opened ↦ simp opened refused
          | inr shut ↦
              simp shut (data_payload-Safe (begin_message c h) s h payload begun refl short small)
        ])
      ]

  whole_frame-Safe :
      (c : Conn) (s : Shared) (h : FrameHdr) → Safe c s → RoundIs Safe (whole_frame env conf c s h)
  unfolding whole_frame payload_of
  whole_frame-Safe c s h v =
      let refused : (code : ℕ) → Safe (send_close_and_mark env c code) s =
        λ code. closes env conf gives (omega arith) c0 s0 c s code v in
      let d = record c { rx = unmask_in_place c.rx h } in
      let unmasked : Safe d s = IsSafe-Untouched conf (other_rx c (unmask_in_place c.rx h)) v in
      elim (Bool-cases (h.masked == 0)) [
        | inl bare ↦ rw bare (refused 1002)
        | inr masked ↦ rw masked (elim (Bool-cases (ltb conf.max_frame h.payload_len)) [
          | inl big ↦ rw big (refused 1009)
          | inr fits ↦
              rw fits
                (elim (Bool-cases (ltb (buf_len c.rx) ((h.header_len + h.payload_len) % 2 ^ 64))) [
                  | inl part ↦ rw part v
                  | inr whole ↦ rw whole (elim (Bool-cases (not (bit_and h.opcode 0x8 == 0))) [
                    | inl control ↦ rw control (
                        control_frame-Safe env conf gives (omega arith) c0 s0 d s h
                          (payload_of d.rx h) unmasked)
                    | inr data' ↦ rw data' (
                        data_frame-Safe d s h (payload_of d.rx h) unmasked
                          (omega
                            (arith, length-take h.payload_len (drop h.header_len (buf_data d.rx))))
                          (omega (arith, ltb→le conf.max_frame h.payload_len fits)))
                  ])
                ])
        ])
      ]

  frame_round-Safe : (c : Conn) (s : Shared) → Safe c s → RoundIs Safe (frame_round env conf c s)
  unfolding frame_round
  frame_round-Safe c s v = of_header (parse_header (content c.rx))
    where
      of_header :
          (r : WsRc FrameHdr)
          → RoundIs Safe (elim r [
            | need_more ↦ break_off c s
            | err_proto ↦ break_off (send_close_and_mark env c 1002) s
            | ok h ↦ whole_frame env conf c s h
          ])
      of_header need_more = v
      of_header err_proto = closes env conf gives (omega arith) c0 s0 c s 1002 v
      of_header (ok h) = whole_frame-Safe c s h v

  frame_loop-Safe :
      (fuel : ℕ) (c : Conn) (s : Shared)
      → Safe c s
      → (let r : Conn × Shared × Bool = frame_loop env conf fuel c s in Safe r.0 r.1)
  unfolding frame_loop
  frame_loop-Safe zero c s v = v
  frame_loop-Safe (suc fuel) c s v = started c.close_after_send (
      ended (λ c' s' v'. frame_loop-Safe fuel c' s' v') (frame_round env conf c s)
        (frame_round-Safe c s v))
    where
      SafeEnd : Conn × Shared × Bool → Type 0
      SafeEnd (c', s', parked') = Safe c' s'

      after : Round → Conn × Shared × Bool
      after r = elim r [
        | break_off c' s' ↦ (c', s', false)
        | go_on c' s' ↦ frame_loop env conf fuel c' s'
        | park c' s' ↦ (c', s', true)
      ]

      ended :
          ((c' : Conn) (s' : Shared) → Safe c' s' → SafeEnd (frame_loop env conf fuel c' s'))
          → (r : Round) → RoundIs Safe r
          → SafeEnd (after r)
      ended rest (break_off c' s') v' = v'
      ended rest (go_on c' s') v' = rest c' s' v'
      ended rest (park c' s') v' = v'

      started :
          (closing : Bool)
          → SafeEnd (after (frame_round env conf c s))
          → SafeEnd
              (elim closing [ true ↦ (c, s, false) | false ↦ after (frame_round env conf c s) ])
      started true rest = v
      started false rest = rest

-- The state in which `handle_ws_open` finds the connection: nothing is sent yet.
pub from_here : (conf : Config) (c : Conn) (s : Shared) → IsGathered conf c → IsSafe conf c c s s
from_here conf c s g = record {
  gathered = g;
  sent = [];
  grown = sym (append-nil s.data_queue);
  sound = tt;
  same_id = refl;
  waiting = λ m e. inl e;
}

-- Whatever bytes arrive, and however often reading and writing are interrupted: where memory is
-- there, the limits are below 2 ^ 63 and what is half-gathered is sound, one run of `handleWsOpen`
-- adds to the data queue only messages that carry the id of this connection, that are within the
-- limit, and that are valid UTF-8 if they are texts; the message that it parks with is of that kind
-- too; and what it leaves half-gathered is sound for the next run.
pub handle_ws_open-IsSafe :
    (env : Env) (conf : Config) (c : Conn) (s : Shared) (wire : List ℕ) (recvs : List RecvAnswer)
    (sends : List SendAnswer)
    → ((n : ℕ) → env.realloc n ≡ true)
    → conf.max_message < 2 ^ 63
    → conf.max_frame < 2 ^ 63
    → IsGathered conf c
    → (let r = handle_ws_open env conf c s wire recvs sends in IsSafe conf c r.conn s r.shared)
unfolding handle_ws_open after_frames flush_tx
handle_ws_open-IsSafe env conf c s wire recvs sends gives limit frame_limit g =
    let r = buf_recv env.realloc c.rx 4096 ((conf.max_message + conf.max_frame) % 2 ^ 64) recvs in
    let d = record c { rx = r.buf } in
    let filled : IsSafe conf c d s s =
      IsSafe-Untouched conf (other_rx c r.buf) (from_here conf c s g) in
    let begun = marked r.rc filled in
    ends (at_end r.rc) (frame_loop env conf (buf_len (mark r.rc d).rx + 1) (mark r.rc d) s)
      (frame_loop-Safe env conf gives limit frame_limit c s _ _ s begun)
  where
    mark : RecvRc → Conn → Conn
    mark rc d = elim rc [ too_big ↦ send_close_and_mark env d 1009 | _ ↦ d ]

    marked : {d : Conn} (rc : RecvRc) → IsSafe conf c d s s → IsSafe conf c (mark rc d) s s
    marked too_big v = IsSafe-Untouched conf (send_close-Untouched env _ 1009) v
    marked got v = v
    marked got_eof v = v
    marked again v = v
    marked closed v = v

    tx_only : (d : Conn) (b : Buf) → Untouched d (record d { tx = b })
    tx_only d b = record {
      msg = refl;
      opcode = refl;
      fragmenting = refl;
      utf8 = refl;
      id = refl;
      pending = refl;
    }

    ends :
        (eof : Bool) (x : Conn × Shared × Bool)
        → IsSafe conf c x.0 s x.1
        → (let r = after_frames eof wire sends x in IsSafe conf c r.conn s r.shared)
    ends eof (d, s', true) v = v
    ends true (d, s', false) v = IsSafe-Untouched conf (tx_only d _) v
    ends false (d, s', false) v = IsSafe-Untouched conf (tx_only d _) v
