-- ===== src/Agg/Pump/Round.antt =====
-- The rounds of `aggPump` of src/agg.c, by how they end.
use ws_server.Base.{
  ℕ, suc, ◌≡◌, refl, ◌⊎◌, Bool, none, some, List, [], ◌∷◌, inl, inr, Option-cases, arith,
}
use ws_server.Buffer.Socket.{SendRc, all_sent, blocked, send_error}
use ws_server.Conn.{Conn}
use ws_server.Agg.Message.{Msg}
use ws_server.Agg.State.{Agg}
use ws_server.Agg.Sink.{Out, sink_flush, close_sink, sink_arm}
use ws_server.Agg.Sink.Flush.{SendRc-cases}
use ws_server.Agg.Pump.{
  Work, PumpEnd, no_sink, lost, waits, drained, resume_at_low, encode_next, agg_pump,
}

module _ (malloc : ℕ → Bool) (fuel : ℕ) (w : Work) where
  abbrev pub flush : SendRc × Agg × Out
  flush = sink_flush w.agg w.out

  abbrev pub after_flush : Work
  after_flush = record w { agg = flush.1; out = flush.2 }

  abbrev pub ready : Work
  ready = resume_at_low malloc after_flush

  -- A round ends the pump in one of four ways, or encodes the first message and goes on.
  pub data RoundOf : PumpEnd × Work → Type 0 where
    without_sink : w.agg.sink ≡ none → RoundOf (no_sink, w)
    loses :
        (c : Conn)
        → w.agg.sink ≡ some c
        → flush.0 ≡ send_error
        → RoundOf (lost, record after_flush { agg = close_sink flush.1 })
    blocks :
        (c : Conn)
        → w.agg.sink ≡ some c
        → flush.0 ≡ blocked
        → RoundOf (waits, record after_flush { agg = sink_arm flush.1 })
    ends :
        (c : Conn)
        → w.agg.sink ≡ some c
        → flush.0 ≡ all_sent
        → ready.queue ≡ []
        → RoundOf (drained, record ready { agg = sink_arm ready.agg })
    goes_on :
        (c : Conn)
        → w.agg.sink ≡ some c
        → flush.0 ≡ all_sent
        → (m : Msg) (rest : List Msg) → ready.queue ≡ m ∷ rest
        → RoundOf (agg_pump malloc fuel (encode_next malloc ready m rest))

  List-cases : (q : List Msg) → (q ≡ []) ⊎ ((m : Msg) × ((rest : List Msg) × (q ≡ m ∷ rest)))
  List-cases [] = inl refl
  List-cases (m ∷ rest) = inr (m, (rest, refl))

  pub agg_pump-RoundOf : RoundOf (agg_pump malloc (suc fuel) w)
  unfolding agg_pump
  agg_pump-RoundOf = elim (Option-cases w.agg.sink) [
    | inl n ↦
        let is : agg_pump malloc (suc fuel) w ≡ (no_sink, w) = ground arith in
        rw is (without_sink n)
    | inr (c, s) ↦ elim (SendRc-cases flush.0) [
      | inr (inr e) ↦
          let is : agg_pump malloc (suc fuel) w
              ≡ (lost, record after_flush { agg = close_sink flush.1 }) =
            ground arith in
          rw is (loses c s e)
      | inr (inl e) ↦
          let is : agg_pump malloc (suc fuel) w
              ≡ (waits, record after_flush { agg = sink_arm flush.1 }) =
            ground arith in
          rw is (blocks c s e)
      | inl e ↦ elim (List-cases ready.queue) [
        | inl q ↦
            let is : agg_pump malloc (suc fuel) w
                ≡ (drained, record ready { agg = sink_arm ready.agg }) =
              ground arith in
            rw is (ends c s e q)
        | inr (m, (rest, q)) ↦
            let is : agg_pump malloc (suc fuel) w
                ≡ agg_pump malloc fuel (encode_next malloc ready m rest) =
              ground arith in
            rw is (goes_on c s e m rest q)
      ]
    ]
  ]
