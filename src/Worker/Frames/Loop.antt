-- ===== src/Worker/Frames/Loop.antt =====
-- The loop of `handleWsOpen` of src/worker.c, whole.
use ws_server.Base.{ℕ, zero, suc, ◌<◌, ◌≡◌, refl, ap, sym, ◌⊎◌, inl, inr, Bool, true, false, arith}
use ws_server.Buffer.{buf_len}
use ws_server.Buffer.Laws.{IsBuf, content}
use ws_server.Ws.Header.Whole.{LacksFrame}
use mathlib.Core.Path.{subst}
use ws_server.Conn.{Conn}
use ws_server.Worker.{Config, Shared, Env}
use ws_server.Worker.Frames.{Round, break_off, go_on, park, frame_round, frame_loop}
use ws_server.Worker.Frames.Fuel.{Ends, frame_round-Ends}

-- Nothing is left to do now: the connection closes, is parked, or holds no whole frame.
pub AtRest : Conn × Shared × Bool → Type 0
AtRest (c, s, parked) = (c.close_after_send ≡ true) ⊎ ((parked ≡ true) ⊎ LacksFrame (content c.rx))

module _ (env : Env) (conf : Config) where
  abbrev after : ℕ → Round → Conn × Shared × Bool
  after fuel r = elim r [
    | break_off c s ↦ (c, s, false)
    | go_on c s ↦ frame_loop env conf fuel c s
    | park c s ↦ (c, s, true)
  ]

  abbrev started : Conn → Shared → Conn × Shared × Bool → Bool → Conn × Shared × Bool
  started c s x closing = elim closing [ true ↦ (c, s, false) | false ↦ x ]

  -- With a sound `rx`, all numbers of rounds above the number of its bytes give the same result: the
  -- loop ends.
  pub frame_loop-enough :
      (fuel fuel' : ℕ) (c : Conn) (s : Shared)
      → IsBuf c.rx
      → buf_len c.rx < fuel
      → buf_len c.rx < fuel'
      → frame_loop env conf fuel c s ≡ frame_loop env conf fuel' c s
  unfolding frame_loop
  frame_loop-enough zero fuel' c s v h h' = ground arith
  frame_loop-enough (suc fuel) zero c s v h h' = ground arith
  frame_loop-enough (suc fuel) (suc fuel') c s v h h' =
      ap (λ x. started c s x c.close_after_send)
        (same (λ c' s' v' k k'. frame_loop-enough fuel fuel' c' s' v' k k')
          (frame_round env conf c s) (frame_round-Ends env conf c s v))
    where
      same :
          ((c' : Conn) (s' : Shared)
            → IsBuf c'.rx
            → buf_len c'.rx < fuel
            → buf_len c'.rx < fuel'
            → frame_loop env conf fuel c' s' ≡ frame_loop env conf fuel' c' s')
          → (r : Round) → Ends c s r
          → after fuel r ≡ after fuel' r
      same rest (break_off c' s') e = refl
      same rest (go_on c' s') (v', less) = rest c' s' v' (omega arith) (omega arith)
      same rest (park c' s') e = refl

  -- With a sound `rx` and more rounds than it has bytes, the loop stops with the connection about to
  -- be closed, parked, or with a `rx` that holds no whole frame: however its bytes are read as a
  -- well-formed header of RFC 6455 and what is behind it, a part of the payload is missing.
  pub frame_loop-AtRest :
      (fuel : ℕ) (c : Conn) (s : Shared)
      → IsBuf c.rx
      → buf_len c.rx < fuel
      → AtRest (frame_loop env conf fuel c s)
  unfolding frame_loop AtRest
  frame_loop-AtRest zero c s v h = ground arith
  frame_loop-AtRest (suc fuel) c s v h = by_flag c.close_after_send refl (
      at_end (λ c' s' v' k. frame_loop-AtRest fuel c' s' v' k) (frame_round env conf c s) refl
        (frame_round-Ends env conf c s v))
    where
      at_end :
          ((c' : Conn) (s' : Shared)
            → IsBuf c'.rx
            → buf_len c'.rx < fuel
            → AtRest (frame_loop env conf fuel c' s'))
          → (r : Round) → frame_round env conf c s ≡ r
          → Ends c s r
          → AtRest (after fuel r)
      at_end rest (break_off c' s') is (inl closing) = inl closing
      at_end rest (break_off c' s') is (inr (same_c, same_s, lacks)) =
          inr (inr (subst (λ x. LacksFrame (content x.rx)) (sym same_c) lacks))
      at_end rest (go_on c' s') is (v', less) = rest c' s' v' (omega arith)
      at_end rest (park c' s') is e = inr (inl refl)

      by_flag :
          (closing : Bool)
          → c.close_after_send ≡ closing
          → AtRest (after fuel (frame_round env conf c s))
          → AtRest (started c s (after fuel (frame_round env conf c s)) closing)
      by_flag true is rest = inl is
      by_flag false is rest = rest
