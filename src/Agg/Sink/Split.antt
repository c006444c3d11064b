-- ===== src/Agg/Sink/Split.antt =====
-- `sinkFlush` of src/agg.c writes a control frame even inside a data frame.
use ws_server.Base.{
  ℕ, ◌≡◌, ap, sym, ◌∙◌, some, List, [], ◌++◌, take, drop, append_assoc, append-nil,
}
use mathlib.Core.Path.{ap₂}
use ws_server.Buffer.Socket.{all_sent}
use ws_server.Conn.{Conn}
use ws_server.Agg.State.{Agg}
use ws_server.Agg.Sink.{Out, sink_flush}
use ws_server.Agg.Sink.Flush.{sink_flush-IsSinkFlushed, waiting, unsent, no_slot}

-- Where the sink has been given the first `off` bytes of the data frame `f`, and the control frame `g`
-- waits, a `sinkFlush` that returns 1 has given the sink the whole of `g` between these bytes and the
-- others of `f`.
pub sink_flush_interleaved :
    (agg : Agg) (out : Out) (sink : Conn) (wire f g : List ℕ) (off : ℕ)
    → agg.sink ≡ some sink
    → agg.pending ≡ some f
    → agg.pending_off ≡ off
    → agg.pending_ctrl ≡ some g
    → agg.pending_ctrl_off ≡ 0
    → out.wire ≡ wire ++ take off f
    → (sink_flush agg out).0 ≡ all_sent
    → (sink_flush agg out).2.wire ≡ wire ++ (take off f ++ (g ++ drop off f))
unfolding waiting unsent
sink_flush_interleaved agg out sink wire f g off s p po c co w done =
    let r = sink_flush-IsSinkFlushed agg out sink s in
    let x = (sink_flush agg out).1 in
    let (no_ctrl, no_data) = r.emptied done in
    let rest : waiting x ≡ [] =
      ap₂ ◌++◌ (no_slot x.pending_ctrl x.pending_ctrl_off no_ctrl)
        (no_slot x.pending x.pending_off no_data) in
    let before : waiting agg ≡ g ++ drop off f = ap₂ ◌++◌ (ap₂ unsent c co) (ap₂ unsent p po) in
    let out' = (sink_flush agg out).2 in
    sym (ap (λ (t : List ℕ). out'.wire ++ t) rest ∙ append-nil out'.wire)
    ∙ r.kept
    ∙ ap₂ ◌++◌ w before
    ∙ append_assoc wire (take off f) (g ++ drop off f)
