-- ===== src/Agg/Pump/Order.antt =====
-- `aggPump` of src/agg.c refines a stream: the sink is given the frames of the queued messages and then
-- of the parked ones, each whole and in order.
use ws_server.Base.{
  ℕ, zero, suc, ◌≡◌, ◌≢◌, refl, ap, sym, ◌∙◌, Bool, true, Option, none, some, List, [], ◌∷◌, ◌++◌,
  leb, length, append_assoc, inl, inr, Bool-cases, Option-cases, arith,
}
use mathlib.Core.Path.{ap₂}
use ws_server.Buffer.Socket.{all_sent}
use ws_server.Conn.{Conn}
use ws_server.Queue.{node_size, enqueue}
use ws_server.Agg.Message.{Msg}
use ws_server.Agg.Sources.{AggSrc, count_source}
use ws_server.Agg.State.{Agg, message_frame, count_in, count_out, agg_on_message}
use ws_server.Agg.Sink.{Out, sink_arm}
use ws_server.Agg.Sink.Flush.{unsent, waiting, no_slot, sink_flush-IsSinkFlushed}
use ws_server.Agg.Pump.Round.{
  RoundOf, without_sink, loses, blocks, ends, goes_on, flush, after_flush, ready, agg_pump-RoundOf,
}
use ws_server.Agg.Pump.{
  Work, PumpEnd, lost, push_pending, resume_next, resume_at_low, set_pending, encode_next, agg_pump,
}

unfoldable pub frame_bytes : Option (List ℕ) → List ℕ
frame_bytes none = []
frame_bytes (some f) = f

-- The bytes that the sink is to be given for messages, from a table of sources on.
unfoldable pub stream : (ℕ → Bool) → List AggSrc → List Msg → List ℕ
stream malloc src [] = []
stream malloc src (m ∷ ms) =
    let (src', seq) = count_source src m in
    frame_bytes (message_frame malloc m seq) ++ stream malloc src' ms

-- The messages that parked connections hold.
unfoldable pub held : List Conn → List Msg
held [] = []
held (c ∷ cs) = elim c.pending_msg [ none ↦ held cs | some m ↦ m ∷ held cs ]

-- All that is still to be given to the sink.
unfoldable pub to_come : (ℕ → Bool) → Work → List ℕ
to_come malloc w = waiting w.agg ++ stream malloc w.agg.src (w.queue ++ held w.parked)

pub waiting_none : (a : Agg) → a.pending_ctrl ≡ none → a.pending ≡ none → waiting a ≡ []
unfolding waiting
waiting_none a no_ctrl empty =
    ap₂ ◌++◌ (no_slot a.pending_ctrl a.pending_ctrl_off no_ctrl)
      (no_slot a.pending a.pending_off empty)

waiting-set_pending :
    (a : Agg) (f : Option (List ℕ))
    → a.pending_ctrl ≡ none
    → a.pending ≡ none
    → (waiting (set_pending (count_out a f) f) ≡ frame_bytes f)
      × ((set_pending (count_out a f) f).src ≡ a.src)
unfolding set_pending count_out frame_bytes
waiting-set_pending a none no_ctrl empty = (waiting_none a no_ctrl empty, refl)
waiting-set_pending a (some f) no_ctrl empty =
    unfold waiting in
    unfold unsent in
    (ap (λ (t : List ℕ). t ++ f) (no_slot a.pending_ctrl a.pending_ctrl_off no_ctrl), refl)

module _ (malloc : ℕ → Bool) (memory : malloc node_size ≡ true) where
  -- A resumed message takes its place behind the queue.
  resume_next-held :
      (w : Work) (cs : List Conn)
      → w.parked ≡ cs
      → let r = resume_next malloc w cs in
        (r.queue ++ held r.parked ≡ w.queue ++ held w.parked) × (r.agg ≡ w.agg) × (r.out ≡ w.out)
  unfolding resume_next held push_pending enqueue
  resume_next-held w [] e = (refl, refl, refl)
  resume_next-held w (c ∷ cs) e = elim (Option-cases c.pending_msg) [
    | inl n ↦ rw (e, n) (refl, refl, refl)
    | inr (m, s) ↦ rw (e, s, memory) (append_assoc w.queue (m ∷ []) (held cs), refl, refl)
  ]

  pub resume_at_low-held :
      (w : Work)
      → let r = resume_at_low malloc w in
        (r.queue ++ held r.parked ≡ w.queue ++ held w.parked) × (r.agg ≡ w.agg) × (r.out ≡ w.out)
  unfolding resume_at_low
  resume_at_low-held w = elim (Bool-cases (leb (length w.queue) w.agg.low_watermark)) [
    | inl low ↦ rw low (resume_next-held w w.parked refl)
    | inr high ↦ rw high (refl, refl, refl)
  ]

  -- Encoding the first message moves its frame from the stream into the slot.
  pub encode_next-to_come :
      (w : Work) (m : Msg) (rest : List Msg)
      → w.queue ≡ m ∷ rest
      → w.agg.pending_ctrl ≡ none
      → w.agg.pending ≡ none
      → to_come malloc (encode_next malloc w m rest) ≡ to_come malloc w
  unfolding to_come encode_next stream agg_on_message count_in
  encode_next-to_come w m rest e no_ctrl empty =
      let src = (count_source w.agg.src m).0 in
      let f = message_frame malloc m (count_source w.agg.src m).1 in
      let (bytes, table) = waiting-set_pending (count_in w.agg m src) f no_ctrl empty in
      ap₂ (λ (t : List ℕ) (s : List AggSrc). t ++ stream malloc s (rest ++ held w.parked)) bytes
        table
      ∙ sym (
          ap₂ (λ (t : List ℕ) (q : List Msg). t ++ stream malloc w.agg.src (q ++ held w.parked))
            (waiting_none w.agg no_ctrl empty) e)

  -- Parts of a round that end the pump.
  pub sink_arm-waiting : (a : Agg) → (waiting (sink_arm a) ≡ waiting a) × ((sink_arm a).src ≡ a.src)
  unfolding sink_arm waiting
  sink_arm-waiting a = elim (Option-cases a.sink) [
    | inl n ↦ ground arith
    | inr (c, s) ↦ ground arith
  ]

  abbrev pub given : Work → List ℕ
  given w = w.out.wire ++ to_come malloc w

  module _ (fuel : ℕ) (w : Work) where
    after_flush-given :
        (c : Conn) → w.agg.sink ≡ some c → given (after_flush malloc fuel w) ≡ given w
    unfolding to_come
    after_flush-given c s =
        let x = after_flush malloc fuel w in
        let f = sink_flush-IsSinkFlushed w.agg w.out c s in
        let queued = w.queue ++ held w.parked in
        sym (append_assoc x.out.wire (waiting x.agg) (stream malloc x.agg.src queued))
        ∙ ap₂ (λ (t : List ℕ) (src : List AggSrc). t ++ stream malloc src queued) f.kept f.same_src
        ∙ append_assoc w.out.wire (waiting w.agg) (stream malloc w.agg.src queued)

    ready-given : (c : Conn) → w.agg.sink ≡ some c → given (ready malloc fuel w) ≡ given w
    unfolding to_come
    ready-given c s =
        let (queued, same_agg, same_out) = resume_at_low-held (after_flush malloc fuel w) in
        ap₂ (λ (o : Out) (t : List ℕ). o.wire ++ t) same_out
          (ap₂ (λ (a : Agg) (q : List Msg). waiting a ++ stream malloc a.src q) same_agg queued)
        ∙ after_flush-given c s

    armed-given : (x : Work) → given (record x { agg = sink_arm x.agg }) ≡ given x
    unfolding to_come
    armed-given x =
        let (same, src) = sink_arm-waiting x.agg in
        ap₂
          (λ (t : List ℕ) (table : List AggSrc).
            x.out.wire ++ (t ++ stream malloc table (x.queue ++ held x.parked)))
          same src

    encoded-given :
        (c : Conn) (m : Msg) (rest : List Msg)
        → w.agg.sink ≡ some c
        → (flush malloc fuel w).0 ≡ all_sent
        → (ready malloc fuel w).queue ≡ m ∷ rest
        → given (encode_next malloc (ready malloc fuel w) m rest) ≡ given w
    unfolding encode_next
    encoded-given c m rest s e q =
        let x = ready malloc fuel w in
        let f = sink_flush-IsSinkFlushed w.agg w.out c s in
        let (_, same_agg, _) = resume_at_low-held (after_flush malloc fuel w) in
        let (no_ctrl, empty) = f.emptied e in
        ap (λ (t : List ℕ). x.out.wire ++ t)
          (encode_next-to_come x m rest q (ap (λ (a : Agg). a.pending_ctrl) same_agg ∙ no_ctrl)
            (ap (λ (a : Agg). a.pending) same_agg ∙ empty))
        ∙ ready-given c s

    round-given :
        (r : PumpEnd × Work)
        → RoundOf malloc fuel w r
        → ((x : Work)
            → (agg_pump malloc fuel x).0 ≢ lost
            → given (agg_pump malloc fuel x).1 ≡ given x)
        → r.0 ≢ lost
        → given r.1 ≡ given w
    round-given r (without_sink n) later h = refl
    round-given r (loses c s e) later h = absurd (h refl)
    round-given r (blocks c s e) later h =
        armed-given (after_flush malloc fuel w) ∙ after_flush-given c s
    round-given r (ends c s e q) later h = armed-given (ready malloc fuel w) ∙ ready-given c s
    round-given r (goes_on c s e m rest q) later h =
        later (encode_next malloc (ready malloc fuel w) m rest) h ∙ encoded-given c m rest s e q

  -- While the sink is not lost, and where queue nodes can be allocated: what the sink has been given
  -- and what is still to come are together, in order, the same before and after `aggPump`, however
  -- many rounds it makes: each queued message's frame once and whole, then those of the parked ones.
  pub agg_pump-given :
      (fuel : ℕ) (w : Work)
      → (agg_pump malloc fuel w).0 ≢ lost
      → given (agg_pump malloc fuel w).1 ≡ given w
  unfolding agg_pump
  agg_pump-given zero w h = refl
  agg_pump-given (suc fuel) w h =
      round-given fuel w _ (agg_pump-RoundOf malloc fuel w) (agg_pump-given fuel) h
