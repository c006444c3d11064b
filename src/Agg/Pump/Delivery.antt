-- ===== src/Agg/Pump/Delivery.antt =====
-- `aggPump` of src/agg.c ends, and empties the queue and the park list where the sink keeps taking.
use ws_server.Base.{
  ℕ, zero, suc, ◌+◌, ◌≤◌, ◌<◌, ◌≡◌, refl, ap, sym, ◌∙◌, Bool, true, none, some, List, [], ◌∷◌, ◌++◌,
  leb, length, length-append, append-nil, All, inl, inr, Bool-cases, Option-cases, arith,
}
use mathlib.Core.Path.{ap₂, subst}
use ws_server.Buffer.Socket.{all_sent}
use ws_server.Conn.{Conn}
use ws_server.Queue.{node_size, enqueue}
use ws_server.Agg.Message.{Msg}
use ws_server.Agg.Sources.{AggSrc, count_source}
use ws_server.Agg.State.{Agg, message_frame, count_in, count_out, agg_on_message}
use ws_server.Agg.Sink.{Out}
use ws_server.Agg.Sink.Flush.{waiting, sink_flush-IsSinkFlushed}
use ws_server.Agg.Pump.{
  Work, PumpEnd, drained, push_pending, resume_next, resume_at_low, set_pending, encode_next,
  agg_pump,
}
use ws_server.Agg.Pump.Round.{
  RoundOf, without_sink, loses, blocks, ends, goes_on, flush, after_flush, ready, agg_pump-RoundOf,
}
use ws_server.Agg.Pump.Order.{
  stream, held, to_come, waiting_none, resume_at_low-held, encode_next-to_come, sink_arm-waiting,
  agg_pump-given,
}
use ws_server.Agg.Pump.Willing.{IsWilling, sink_flush-IsWilling}

-- A parked connection holds a message.
abbrev pub IsHolding : Conn → Type 0
IsHolding c = (m : Msg) × (c.pending_msg ≡ some m)

length-held : (cs : List Conn) → length (held cs) ≤ length cs
unfolding held
length-held [] = omega arith
length-held (c ∷ cs) = elim (Option-cases c.pending_msg) [
  | inl n ↦ rw n (omega (arith, length-held cs))
  | inr (m, s) ↦ rw s (omega (arith, length-held cs))
]

module _ (malloc : ℕ → Bool) (memory : malloc node_size ≡ true) where
  resume_next-IsHolding :
      (w : Work) (cs : List Conn)
      → w.parked ≡ cs
      → All IsHolding w.parked
      → All IsHolding (resume_next malloc w cs).parked
        × ((resume_next malloc w cs).queue ≡ [] → (resume_next malloc w cs).parked ≡ [])
  unfolding resume_next push_pending enqueue
  resume_next-IsHolding w [] e h = (h, λ q. e)
  resume_next-IsHolding w (c ∷ cs) e h =
      let h' : All IsHolding (c ∷ cs) = subst (All IsHolding) e h in
      let (m, s) = h'.0 in (h'.1, rw (s, memory) (λ q. absurd (behind w.queue m q)))
    where
      behind : (q : List Msg) (m : Msg) → q ++ m ∷ [] ≡ [] → ⊥
      behind [] m e = cc
      behind (x ∷ q) m e = cc

  resume_at_low-IsHolding :
      (w : Work)
      → All IsHolding w.parked
      → All IsHolding (resume_at_low malloc w).parked
        × ((resume_at_low malloc w).queue ≡ [] → (resume_at_low malloc w).parked ≡ [])
  unfolding resume_at_low
  resume_at_low-IsHolding w h = elim (Bool-cases (leb (length w.queue) w.agg.low_watermark)) [
    | inl low ↦ rw low (resume_next-IsHolding w w.parked refl h)
    | inr high ↦
        let long : 0 < length w.queue = ground arith in
        rw high (h, λ e. absurd (omega (arith, ap length e)))
  ]

  encode_next-sink :
      (w : Work) (m : Msg) (rest : List Msg) → (encode_next malloc w m rest).agg.sink ≡ w.agg.sink
  unfolding encode_next agg_on_message set_pending count_out count_in
  encode_next-sink w m rest =
      elim (Option-cases (message_frame malloc m (count_source w.agg.src m).1)) [
        | inl n ↦ ground arith
        | inr (f, s) ↦ ground arith
      ]

  pub record IsDelivered (w : Work) (r : PumpEnd × Work) : Type 0 where
    pub ended : r.0 ≡ drained
    pub no_message : r.1.queue ≡ []
    pub nobody_parked : r.1.parked ≡ []
    pub given_all : r.1.out.wire ≡ w.out.wire ++ to_come malloc w

  record IsEmptied (r : PumpEnd × Work) : Type 0 where
    ended : r.0 ≡ drained
    no_message : r.1.queue ≡ []
    nobody_parked : r.1.parked ≡ []
    nothing_waits : waiting r.1.agg ≡ []

  -- What a pump needs in order to empty everything within `fuel` rounds.
  record IsAble (fuel : ℕ) (w : Work) : Type 0 where
    sink : Conn
    has_sink : w.agg.sink ≡ some sink
    holding : All IsHolding w.parked
    willing : IsWilling (length (to_come malloc w)) w.out.answers
    rounds : length w.queue + length (held w.parked) < fuel

  module _ (fuel : ℕ) (w : Work) (h : IsAble (suc fuel) w) where
    abbrev queued : List Msg
    queued = w.queue ++ held w.parked

    flush_sent :
        ((flush malloc fuel w).0 ≡ all_sent)
        × IsWilling (length (stream malloc w.agg.src queued)) (flush malloc fuel w).2.answers
    flush_sent = sink_flush-IsWilling w.agg w.out h.sink _ h.has_sink (record {
      taken = h.willing.taken;
      enough =
          unfold to_come in
          omega (
            arith,
            h.willing.enough,
            length-append (waiting w.agg) (stream malloc w.agg.src queued),
          );
    })

    abbrev x : Work
    x = ready malloc fuel w

    x_emptied : (x.agg.pending_ctrl ≡ none) × (x.agg.pending ≡ none)
    x_emptied =
        let f = sink_flush-IsSinkFlushed w.agg w.out h.sink h.has_sink in
        let (_, same_agg, _) = resume_at_low-held malloc memory (after_flush malloc fuel w) in
        let (no_ctrl, empty) = f.emptied flush_sent.0 in
        (
          ap (λ (a : Agg). a.pending_ctrl) same_agg ∙ no_ctrl,
          ap (λ (a : Agg). a.pending) same_agg ∙ empty,
        )

    x-to_come : to_come malloc x ≡ stream malloc w.agg.src queued
    unfolding to_come
    x-to_come =
        let f = sink_flush-IsSinkFlushed w.agg w.out h.sink h.has_sink in
        let (same_queue, same_agg, _) =
          resume_at_low-held malloc memory (after_flush malloc fuel w) in
        ap (λ (t : List ℕ). t ++ stream malloc x.agg.src (x.queue ++ held x.parked))
          (waiting_none x.agg x_emptied.0 x_emptied.1)
        ∙ ap₂ (λ (src : List AggSrc) (q : List Msg). stream malloc src q)
            (ap (λ (a : Agg). a.src) same_agg ∙ f.same_src) same_queue

    x-IsHolding : All IsHolding x.parked × (x.queue ≡ [] → x.parked ≡ [])
    x-IsHolding = resume_at_low-IsHolding (after_flush malloc fuel w) h.holding

    next-IsAble :
        (m : Msg) (rest : List Msg) → x.queue ≡ m ∷ rest → IsAble fuel (encode_next malloc x m rest)
    next-IsAble m rest q =
        let f = sink_flush-IsSinkFlushed w.agg w.out h.sink h.has_sink in
        let (same_queue, same_agg, same_out) =
          resume_at_low-held malloc memory (after_flush malloc fuel w) in
        let come : to_come malloc (encode_next malloc x m rest) ≡ stream malloc w.agg.src queued =
          encode_next-to_come malloc memory x m rest q x_emptied.0 x_emptied.1 ∙ x-to_come in
        record {
          sink = h.sink;
          has_sink =
              encode_next-sink x m rest
              ∙ ap (λ (a : Agg). a.sink) same_agg
              ∙ f.same_sink
              ∙ h.has_sink;
          holding = unfold encode_next in x-IsHolding.0;
          willing =
              unfold encode_next in
              rw come (
                subst (λ (o : Out). IsWilling (length (stream malloc w.agg.src queued)) o.answers)
                  (sym same_out) flush_sent.1);
          rounds =
              unfold encode_next in
              omega (
                arith,
                h.rounds,
                ap length same_queue,
                ap length q,
                length-append x.queue (held x.parked),
                length-append w.queue (held w.parked),
              );
        }

    round-IsEmptied :
        (r : PumpEnd × Work)
        → RoundOf malloc fuel w r
        → ((y : Work) → IsAble fuel y → IsEmptied (agg_pump malloc fuel y))
        → IsEmptied r
    round-IsEmptied r (without_sink n) later = absurd (cc (n, h.has_sink))
    round-IsEmptied r (loses c s e) later = absurd (cc (e, flush_sent.0))
    round-IsEmptied r (blocks c s e) later = absurd (cc (e, flush_sent.0))
    round-IsEmptied r (ends c s e q) later = record {
      ended = refl;
      no_message = q;
      nobody_parked = x-IsHolding.1 q;
      nothing_waits =
          (sink_arm-waiting malloc memory x.agg).0 ∙ waiting_none x.agg x_emptied.0 x_emptied.1;
    }
    round-IsEmptied r (goes_on c s e m rest q) later =
        later (encode_next malloc x m rest) (next-IsAble m rest q)

  agg_pump-IsEmptied : (fuel : ℕ) (w : Work) → IsAble fuel w → IsEmptied (agg_pump malloc fuel w)
  agg_pump-IsEmptied zero w h = absurd (omega (arith, h.rounds))
  agg_pump-IsEmptied (suc fuel) w h =
      round-IsEmptied fuel w h _ (agg_pump-RoundOf malloc fuel w) (agg_pump-IsEmptied fuel)

  -- Where there is a sink, queue nodes can be allocated, every parked connection holds a message, the
  -- socket takes at least one byte at each call, for as many calls as there are bytes to come, and the
  -- pump makes more rounds than messages are queued and parked: the queue and the park list end empty,
  -- and the sink has been given every byte that was to come, in order.
  pub agg_pump-IsDelivered :
      (fuel : ℕ) (w : Work) (sink : Conn)
      → w.agg.sink ≡ some sink
      → All IsHolding w.parked
      → IsWilling (length (to_come malloc w)) w.out.answers
      → length w.queue + length w.parked < fuel
      → IsDelivered w (agg_pump malloc fuel w)
  agg_pump-IsDelivered fuel w sink s holding willing rounds =
      let r = agg_pump malloc fuel w in
      let e = agg_pump-IsEmptied fuel w (record {
        sink = sink;
        has_sink = s;
        holding = holding;
        willing = willing;
        rounds = omega (arith, rounds, length-held w.parked);
      }) in
      let rest : to_come malloc r.1 ≡ [] =
        unfold to_come in
        unfold held in
        rw (e.nothing_waits, e.no_message, e.nobody_parked) (unfold stream in refl) in
      record {
        ended = e.ended;
        no_message = e.no_message;
        nobody_parked = e.nobody_parked;
        given_all =
            sym (ap (λ (t : List ℕ). r.1.out.wire ++ t) rest ∙ append-nil r.1.out.wire)
            ∙ agg_pump-given malloc memory fuel w (λ l. cc (l, e.ended));
      }
