-- ===== src/Worker/Frames/Safety.antt =====
-- Whatever bytes arrive, only sound messages leave for the aggregator.
use ws_server.Base.{
  ℕ, ◌+◌, ◌^◌, ◌≤◌, ◌≡◌, refl, inl, inr, true, false, not, ◌&&◌, Option, none, some, List, [], ◌∷◌,
  ◌++◌, leb, ◌==◌, length, Bool-cases,
}
use ws_server.Buffer.{buf_append, buf_reset}
use ws_server.Buffer.Laws.{content}
use ws_server.Ws.Header.{FrameHdr}
use ws_server.Ws.Utf8.{Utf8St, utf8_feed, utf8_done}
use ws_server.Agg.Message.{Msg, frame_new, op_text, op_close, op_ping, op_pong}
use ws_server.Worker.Frames.Invariant.{
  IsMessage, IsSafe, Untouched, IsSafe-Untouched, append_frame-Untouched, send_close-Untouched,
}
use ws_server.Worker.Frames.Gathering.{
  message_waits, message_joins, made_IsMessage, gathering_ends, gathering_empties, payload_joins,
}
use ws_server.Conn.{Conn}
use ws_server.Queue.{enqueue}
use ws_server.Worker.{Config, Shared, Env, send_close_and_mark}
use ws_server.Worker.Frames.{
  Round, break_off, go_on, park, consume_frame, control_frame, hand_over, finish_message,
  add_fragment,
}

-- A statement of the connection and the queues, whichever way a round ends.
abbrev pub RoundIs : (Conn → Shared → Type 0) → Round → Type 0
RoundIs P (break_off c s) = P c s
RoundIs P (go_on c s) = P c s
RoundIs P (park c s) = P c s

module _ (env : Env) (conf : Config) (gives : (n : ℕ) → env.realloc n ≡ true)
    (limit : conf.max_message ≤ 2 ^ 63) (c0 : Conn) (s0 : Shared) where
  abbrev Safe : Conn → Shared → Type 0
  Safe c s = IsSafe conf c0 c s0 s

  pub closes :
      (c : Conn) (s : Shared) (code : ℕ) → Safe c s → Safe (send_close_and_mark env c code) s
  closes c s code v = IsSafe-Untouched conf (send_close-Untouched env c code) v

  pub consumes : (c : Conn) (s : Shared) (h : FrameHdr) → Safe c s → Safe (consume_frame c h) s
  unfolding consume_frame
  consumes c s h v = IsSafe-Untouched conf rx_only v
    where
      rx_only : Untouched c (consume_frame c h)
      rx_only = record {
        msg = refl;
        opcode = refl;
        fragmenting = refl;
        utf8 = refl;
        id = refl;
        pending = refl;
      }

  pub control_frame-Safe :
      (c : Conn) (s : Shared) (h : FrameHdr) (payload : List ℕ)
      → Safe c s
      → RoundIs Safe (control_frame env conf c s h payload)
  unfolding control_frame
  control_frame-Safe c s h payload v =
      let f = frame_new env.malloc op_pong payload in
      let answered = IsSafe-Untouched conf (append_frame-Untouched env c f) v in
      elim (Bool-cases (h.opcode == op_ping)) [
        | inl ping ↦ rw ping (consumes _ s h answered)
        | inr other ↦ rw other (elim (Bool-cases (h.opcode == op_close)) [
          | inl close ↦ rw close (consumes _ s h (closes c s _ v))
          | inr pong ↦ rw pong (consumes c s h v)
        ])
      ]

  pub hand_over-Safe :
      (c : Conn) (s : Shared) (m : Option Msg)
      → Safe c s
      → ((x : Msg) → m ≡ some x → IsMessage conf c0.id x)
      → RoundIs Safe (hand_over env conf c s m)
  unfolding hand_over enqueue
  hand_over-Safe c s none v good = v
  hand_over-Safe c s (some m) v good =
      elim (Bool-cases (leb conf.high_watermark (length s.data_queue))) [
        | inl full ↦ rw full (
            message_waits env conf gives limit c0 s0 c s m (s.park_list ++ c.id ∷ []) v
              (good m refl))
        | inr free ↦ rw free (message_joins env conf gives limit c0 s0 c s m v (good m refl))
      ]

  pub finish_message-Safe :
      (c : Conn) (s : Shared)
      → Safe c s
      → c.fragmenting ≡ true
      → RoundIs Safe (finish_message env conf c s)
  unfolding finish_message
  finish_message-Safe c s v is_open =
      let d = record c { fragmenting = false } in
      let ended : Safe d s = gathering_ends env conf gives limit c0 s0 c s v in
      let emptied : Safe (record d { msg = buf_reset c.msg }) s =
        gathering_empties env conf gives limit c0 s0 d s ended refl in
      elim (Bool-cases ((c.msg_opcode == op_text) && not (utf8_done c.msg_utf8))) [
        | inl cut ↦ rw cut (closes d s 1007 ended)
        | inr done ↦ rw done (
            hand_over-Safe _ s _ emptied
              (made_IsMessage env conf gives limit c0 s0 c s v is_open done))
      ]

  pub add_fragment-Safe :
      (c : Conn) (s : Shared) (h : FrameHdr) (payload : List ℕ) (st : Utf8St)
      → Safe c s
      → c.fragmenting ≡ true
      → length (content c.msg) + length payload ≤ conf.max_message
      → (c.msg_opcode ≡ op_text → utf8_feed c.msg_utf8 payload ≡ some st)
      → RoundIs Safe (add_fragment env conf c s h payload st)
  unfolding add_fragment
  add_fragment-Safe c s h payload st v is_open fits fed =
      let d = record c { msg_utf8 = st; msg = buf_append env.realloc c.msg payload } in
      let added : Safe d s = payload_joins env conf gives limit c0 s0 c s payload st v fits fed in
      let consumed = consumes d s h added in
      elim (Bool-cases (h.fin == 0)) [
        | inl more ↦ rw more consumed
        | inr last ↦
            rw last
              (finish_message-Safe (consume_frame d h) s consumed (unfold consume_frame in is_open))
      ]
