-- ===== src/Agg/Pump/Ends.antt =====
-- `aggPump` of src/agg.c ends.
use ws_server.Base.{
  ℕ, zero, suc, ◌+◌, ◌≤◌, ◌<◌, ◌≡◌, ◌≢◌, refl, ap, Bool, Option, none, some, List, [], ◌∷◌, leb,
  length, length-append, Bool-cases, inl, inr, arith,
}
use ws_server.Conn.{Conn}
use ws_server.Queue.{enqueue}
use ws_server.Agg.Message.{Msg}
use ws_server.Agg.Pump.{
  Work, PumpEnd, out_of_fuel, push_pending, resume_next, resume_at_low, encode_next, agg_pump,
}
use ws_server.Agg.Pump.Round.{
  RoundOf, without_sink, loses, blocks, ends, goes_on, ready, after_flush, agg_pump-RoundOf,
}

-- What is left for the pump.
abbrev pub left_in : Work → ℕ
left_in w = length w.queue + length w.parked

push_pending-le :
    (malloc : ℕ → Bool) (q : List Msg) (m : Option Msg)
    → length (push_pending malloc q m) ≤ length q + 1
unfolding push_pending enqueue
push_pending-le malloc q none = omega arith
push_pending-le malloc q (some m) = ground (arith, length-append q (m ∷ []))

resume_next-le :
    (malloc : ℕ → Bool) (w : Work) (cs : List Conn)
    → w.parked ≡ cs
    → left_in (resume_next malloc w cs) ≤ left_in w
unfolding resume_next
resume_next-le malloc w [] e = omega arith
resume_next-le malloc w (c ∷ cs) e =
    omega (arith, push_pending-le malloc w.queue c.pending_msg, ap length e)

resume_at_low-le : (malloc : ℕ → Bool) (w : Work) → left_in (resume_at_low malloc w) ≤ left_in w
unfolding resume_at_low
resume_at_low-le malloc w = elim (Bool-cases (leb (length w.queue) w.agg.low_watermark)) [
  | inl low ↦ rw low (resume_next-le malloc w w.parked refl)
  | inr high ↦ rw high (omega arith)
]

encoded_less :
    (malloc : ℕ → Bool) (fuel : ℕ) (w : Work) (m : Msg) (rest : List Msg)
    → (ready malloc fuel w).queue ≡ m ∷ rest
    → left_in w < suc fuel
    → left_in (encode_next malloc (ready malloc fuel w) m rest) < fuel
unfolding encode_next
encoded_less malloc fuel w m rest q h =
    omega (arith, resume_at_low-le malloc (after_flush malloc fuel w), ap length q)

-- `aggPump` ends, whatever the sink takes and whatever memory there is: with more rounds than there
-- are messages in the data queue and connections in the park list it never runs out of them.
pub agg_pump-ends :
    (malloc : ℕ → Bool) (fuel : ℕ) (w : Work)
    → left_in w < fuel
    → (agg_pump malloc fuel w).0 ≢ out_of_fuel
agg_pump-ends malloc zero w h = absurd (omega arith)
agg_pump-ends malloc (suc fuel) w h =
    by_round (agg_pump-RoundOf malloc fuel w) (agg_pump-ends malloc fuel)
  where
    by_round :
        {r : PumpEnd × Work}
        → RoundOf malloc fuel w r
        → ((v : Work) → left_in v < fuel → (agg_pump malloc fuel v).0 ≢ out_of_fuel)
        → r.0 ≢ out_of_fuel
    by_round (without_sink n) rest = λ e. cc
    by_round (loses c s e) rest = λ e. cc
    by_round (blocks c s e) rest = λ e. cc
    by_round (ends c s e q) rest = λ e. cc
    by_round (goes_on c s e m ms q) rest =
        rest (encode_next malloc (ready malloc fuel w) m ms) (encoded_less malloc fuel w m ms q h)
