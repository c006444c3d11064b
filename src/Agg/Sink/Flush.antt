-- ===== src/Agg/Sink/Flush.antt =====
-- `sinkFlush` of src/agg.c gives the sink every byte of the frames that wait, once and in order.
use ws_server.Base.{
  ℕ, ◌+◌, ◌-◌, ◌≡◌, ◌≢◌, ◌⊎◌, refl, ap, sym, ◌∙◌, false, Option, none, some, List, [], ◌∷◌, ◌++◌,
  ltb, length, take, drop, min, take-append-drop, append_assoc, drop-drop, drop_all, inl, inr,
  Bool-cases, arith,
}
use ws_server.Buffer.Socket.{
  SendAnswer, takes, send_blocks, send_fails, SendRc, all_sent, blocked, send_error,
}
use ws_server.Conn.{Conn}
use ws_server.Agg.State.{Agg}
use ws_server.Agg.Sink.{
  Out, Flushed, flushed, whole, flush_frame, sink_flush_one, flush_both, sink_flush,
}

pub SendRc-cases : (rc : SendRc) → (rc ≡ all_sent) ⊎ ((rc ≡ blocked) ⊎ (rc ≡ send_error))
SendRc-cases all_sent = inl refl
SendRc-cases blocked = inr (inl refl)
SendRc-cases send_error = inr (inr refl)

-- What is left of a frame in its slot.
unfoldable pub unsent : Option (List ℕ) → ℕ → List ℕ
unsent none off = []
unsent (some f) off = drop off f

pub no_slot : (slot : Option (List ℕ)) (off : ℕ) → slot ≡ none → unsent slot off ≡ []
unfolding unsent
no_slot none off e = refl
no_slot (some f) off e = cc

pub record IsFlushed (slot : Option (List ℕ)) (off : ℕ) (out : Out) (r : Flushed) : Type 0 where
  pub kept : r.out.wire ++ unsent r.slot r.off ≡ out.wire ++ unsent slot off
  pub emptied : r.rc ≡ all_sent → r.slot ≡ none

module _ (f : List ℕ) (off : ℕ) (wire : List ℕ) (answers : List SendAnswer) where
  abbrev start : Out
  start = record { wire = wire; answers = answers }

  flushed-IsFlushed :
      (rc : SendRc) (left : List SendAnswer)
      → rc ≢ all_sent
      → IsFlushed (some f) off start (flushed rc f off wire left)
  unfolding flushed
  flushed-IsFlushed rc left ne = record { kept = refl; emptied = λ e. absurd (ne e) }

  whole-IsFlushed :
      (left : List SendAnswer)
      → ltb off (length f) ≡ false
      → IsFlushed (some f) off start (whole wire left)
  unfolding whole unsent
  whole-IsFlushed left h = record {
    kept = ap (λ (t : List ℕ). wire ++ t) (sym (drop_all off f (ground arith)));
    emptied = λ e. refl;
  }

-- One frame, however the socket answers.
flush_frame-IsFlushed :
    (f : List ℕ) (off : ℕ) (wire : List ℕ) (answers : List SendAnswer)
    → IsFlushed
        (some f)
        off
        (record { wire = wire; answers = answers })
        (flush_frame f off wire answers)
unfolding flush_frame
flush_frame-IsFlushed f off wire [] = elim (Bool-cases (ltb off (length f))) [
  | inl more ↦ rw more (flushed-IsFlushed f off wire [] blocked [] (λ e. cc))
  | inr done ↦ rw done (whole-IsFlushed f off wire [] [] done)
]
flush_frame-IsFlushed f off wire (send_blocks ∷ rest) = elim (Bool-cases (ltb off (length f))) [
  | inl more ↦ rw more (flushed-IsFlushed f off wire _ blocked rest (λ e. cc))
  | inr done ↦ rw done (whole-IsFlushed f off wire _ _ done)
]
flush_frame-IsFlushed f off wire (send_fails ∷ rest) = elim (Bool-cases (ltb off (length f))) [
  | inl more ↦ rw more (flushed-IsFlushed f off wire _ send_error rest (λ e. cc))
  | inr done ↦ rw done (whole-IsFlushed f off wire _ _ done)
]
flush_frame-IsFlushed f off wire (takes k ∷ rest) = elim (Bool-cases (ltb off (length f))) [
  | inr done ↦ rw done (whole-IsFlushed f off wire _ _ done)
  | inl more ↦ rw more (elim (Bool-cases (ltb 0 (min k (length f - off)))) [
    | inr nothing ↦ rw nothing (flushed-IsFlushed f off wire _ send_error rest (λ e. cc))
    | inl some_taken ↦
        let n = min k (length f - off) in
        let front = take n (drop off f) in
        let r = flush_frame-IsFlushed f (off + n) (wire ++ front) rest in
        rw some_taken (record {
          kept =
              r.kept
              ∙ unfold unsent in
                (append_assoc wire front (drop (off + n) f)
                  ∙ ap (λ (t : List ℕ). wire ++ t)
                      (ap (λ (t : List ℕ). front ++ t) (sym (drop-drop n off f))
                        ∙ take-append-drop n (drop off f)));
          emptied = r.emptied;
        })
  ])
]

sink_flush_one-IsFlushed :
    (slot : Option (List ℕ)) (off : ℕ) (out : Out)
    → IsFlushed slot off out (sink_flush_one slot off out)
unfolding sink_flush_one
sink_flush_one-IsFlushed none off out = record { kept = refl; emptied = λ e. refl }
sink_flush_one-IsFlushed (some f) off out = flush_frame-IsFlushed f off out.wire out.answers

-- What waits for the sink: the control frame, then the data frame.
unfoldable pub waiting : Agg → List ℕ
waiting agg = unsent agg.pending_ctrl agg.pending_ctrl_off ++ unsent agg.pending agg.pending_off

pub record IsSinkFlushed (agg : Agg) (out : Out) (r : SendRc × Agg × Out) : Type 0 where
  pub kept : r.2.wire ++ waiting r.1 ≡ out.wire ++ waiting agg
  pub emptied : r.0 ≡ all_sent → (r.1.pending_ctrl ≡ none) × (r.1.pending ≡ none)
  pub same_src : r.1.src ≡ agg.src
  pub same_sink : r.1.sink ≡ agg.sink
  pub same_low : r.1.low_watermark ≡ agg.low_watermark

pub flush_both-IsSinkFlushed : (agg : Agg) (out : Out) → IsSinkFlushed agg out (flush_both agg out)
unfolding flush_both waiting
flush_both-IsSinkFlushed agg out =
    let c = sink_flush_one agg.pending_ctrl agg.pending_ctrl_off out in
    let d = sink_flush_one agg.pending agg.pending_off c.out in
    let fc = sink_flush_one-IsFlushed agg.pending_ctrl agg.pending_ctrl_off out in
    let fd = sink_flush_one-IsFlushed agg.pending agg.pending_off c.out in
    let u = unsent agg.pending_ctrl agg.pending_ctrl_off in
    let v = unsent agg.pending agg.pending_off in
    let ctrl_kept : c.out.wire ++ (unsent c.slot c.off ++ v) ≡ out.wire ++ (u ++ v) =
      sym (append_assoc c.out.wire (unsent c.slot c.off) v)
      ∙ ap (λ (t : List ℕ). t ++ v) fc.kept
      ∙ append_assoc out.wire u v in
    elim (SendRc-cases c.rc) [
      | inl e ↦
          let gone : unsent c.slot c.off ≡ [] = no_slot c.slot c.off (fc.emptied e) in
          rw (flush_both, e)
            (record {
              kept =
                  ap (λ (t : List ℕ). d.out.wire ++ (t ++ unsent d.slot d.off)) gone
                  ∙ fd.kept
                  ∙ sym (ap (λ (t : List ℕ). c.out.wire ++ (t ++ v)) gone)
                  ∙ ctrl_kept;
              emptied = λ h. (fc.emptied e, fd.emptied h);
              same_src = refl;
              same_sink = refl;
              same_low = refl;
            })
      | inr (inl e) ↦
          rw (flush_both, e)
            (record {
              kept = ctrl_kept;
              emptied = λ h. cc;
              same_src = refl;
              same_sink = refl;
              same_low = refl;
            })
      | inr (inr e) ↦
          rw (flush_both, e)
            (record {
              kept = ctrl_kept;
              emptied = λ h. cc;
              same_src = refl;
              same_sink = refl;
              same_low = refl;
            })
    ]

pub sink_flush-IsSinkFlushed :
    (agg : Agg) (out : Out) (c : Conn)
    → agg.sink ≡ some c
    → IsSinkFlushed agg out (sink_flush agg out)
unfolding sink_flush
sink_flush-IsSinkFlushed agg out c e =
    let is : sink_flush agg out ≡ flush_both agg out = ground arith in
    rw is (flush_both-IsSinkFlushed agg out)
