-- ===== src/Upstream/Frames/Loop.antt =====
-- The loop of `processBufferedFrames` of src/ws_client.c ends, and leaves no whole frame behind.
use ws_server.Base.{
  ℕ, zero, suc, ◌+◌, ◌-◌, ◌^◌, ◌≤◌, ◌<◌, ◌≡◌, refl, sym, ◌⊎◌, inl, inr, bit_and, true, not, length,
  ltb, ◌==◌, Bool-cases, arith,
}
use mathlib.Core.Path.{subst}
use ws_server.Buffer.{buf_len}
use ws_server.Buffer.Laws.{IsBuf, content, length-content}
use ws_server.Ws.Header.{FrameHdr, WsRc, ok, need_more, err_proto, parse_header}
use ws_server.Ws.Header.Short.{parse_header-least}
use ws_server.Ws.Header.Whole.{LacksFrame, empty-LacksFrame, need_more-LacksFrame, part-LacksFrame}
use ws_server.Worker.{Config, Env}
use ws_server.Upstream.Client.{upstream_closing, Link}
use ws_server.Upstream.Frames.{
  LinkRound, stop, fails, paused, go_on, with_client, reject_with, upstream_frame, upstream_round,
  buffered_frames, process_buffered_frames,
}
use ws_server.Upstream.Frames.Advance.{
  Advances, skip_frame-IsBuf, reject_with-Advances, upstream_data-Advances,
  upstream_control-Advances,
}

-- A round from `k`: it closes, stops where it is, or goes on with less to read.
abbrev Ends : Link → LinkRound → Type 0
Ends k (stop j) = (j.client.state ≡ upstream_closing) ⊎ ((j ≡ k) × LacksFrame (content k.client.rx))
Ends k (fails j) = Unit {0}
Ends k (paused j) = j.client.read_paused ≡ true
Ends k (go_on j) = IsBuf j.client.rx × (buf_len j.client.rx < buf_len k.client.rx)

Advances-Ends : (k : Link) (r : LinkRound) → Advances (buf_len k.client.rx) r → Ends k r
Advances-Ends k (stop j) a = inl a
Advances-Ends k (fails j) a = tt
Advances-Ends k (paused j) a = a
Advances-Ends k (go_on j) a = a

module _ (env : Env) (conf : Config) where
  closes : (k : Link) (code : ℕ) → Ends k (reject_with env conf k code)
  closes k code = Advances-Ends k _ (reject_with-Advances env conf (buf_len k.client.rx) k code)

  upstream_frame-Ends :
      (k : Link) (h : FrameHdr)
      → IsBuf k.client.rx
      → parse_header (content k.client.rx) ≡ ok h
      → 2 ≤ h.header_len
      → 2 ≤ buf_len k.client.rx
      → Ends k (upstream_frame env conf k h)
  unfolding upstream_frame with_client
  upstream_frame-Ends k h v parsed least some_left =
      let n = buf_len k.client.rx in
      let gone = skip_frame-IsBuf k.client h v least some_left in
      elim (Bool-cases (not (h.masked == 0))) [
        | inl masked ↦ rw masked (closes k 1002)
        | inr bare ↦ rw bare (elim (Bool-cases (ltb conf.max_frame h.payload_len)) [
          | inl big ↦ rw big (closes k 1009)
          | inr small ↦
              rw small (elim (Bool-cases (ltb (2 ^ 64 - 1 - h.header_len) h.payload_len)) [
                | inl huge ↦ rw huge tt
                | inr sum ↦ rw sum (elim (Bool-cases (ltb n (h.header_len + h.payload_len))) [
                  | inl part ↦
                      let short : length (content k.client.rx) < h.header_len + h.payload_len =
                        ground (arith, length-content k.client.rx v) in
                      rw part (inr (refl, part-LacksFrame (content k.client.rx) h parsed short))
                  | inr whole ↦ rw whole (elim (Bool-cases (not (bit_and h.opcode 0x08 == 0))) [
                    | inl control ↦
                        rw control
                          (Advances-Ends k _ (upstream_control-Advances env conf n k h gone))
                    | inr data' ↦
                        rw data' (Advances-Ends k _ (upstream_data-Advances env conf n k h gone))
                  ])
                ])
              ])
        ])
      ]

  upstream_round-Ends : (k : Link) → IsBuf k.client.rx → Ends k (upstream_round env conf k)
  unfolding upstream_round
  upstream_round-Ends k v = elim (Bool-cases (buf_len k.client.rx == 0)) [
    | inl empty ↦ rw empty (
        inr (
          refl,
          empty-LacksFrame (content k.client.rx) (ground (arith, length-content k.client.rx v)),
        ))
    | inr more ↦ rw more (of_header (parse_header (content k.client.rx)) refl)
  ]
    where
      of_header :
          (r : WsRc FrameHdr)
          → parse_header (content k.client.rx) ≡ r
          → Ends k (elim r [
            | need_more ↦ stop k
            | err_proto ↦ reject_with env conf k 1002
            | ok h ↦ upstream_frame env conf k h
          ])
      of_header need_more e = inr (refl, need_more-LacksFrame (content k.client.rx) e)
      of_header err_proto e = closes k 1002
      of_header (ok h) e =
          let (least, some_left) = parse_header-least (content k.client.rx) h e in
          upstream_frame-Ends k h v e least (omega (arith, length-content k.client.rx v))

  -- How the loop may return: with 0 it is closing or waits for the rest of a frame, with 1 it reads no
  -- more.
  pub AtRest : LinkRound → Type 0
  AtRest (stop j) = (j.client.state ≡ upstream_closing) ⊎ LacksFrame (content j.client.rx)
  AtRest (fails j) = Unit {0}
  AtRest (paused j) = j.client.read_paused ≡ true
  AtRest (go_on j) = ⊥

  buffered_frames-AtRest :
      (fuel : ℕ) (k : Link)
      → IsBuf k.client.rx
      → buf_len k.client.rx < fuel
      → AtRest (buffered_frames env conf fuel k)
  unfolding buffered_frames AtRest
  buffered_frames-AtRest zero k v h = absurd (omega arith)
  buffered_frames-AtRest (suc fuel) k v h =
      behind (buffered_frames-AtRest fuel) (upstream_round env conf k) refl
        (upstream_round-Ends k v)
    where
      behind :
          ((j : Link)
            → IsBuf j.client.rx
            → buf_len j.client.rx < fuel
            → AtRest (buffered_frames env conf fuel j))
          → (r : LinkRound) → upstream_round env conf k ≡ r
          → Ends k r
          → AtRest (elim r [
            | stop j ↦ stop j
            | fails j ↦ fails j
            | paused j ↦ paused j
            | go_on j ↦ buffered_frames env conf fuel j
          ])
      behind later (stop j) e (inl closing) = inl closing
      behind later (stop j) e (inr (same, lacks)) =
          inr (subst (λ (x : Link). LacksFrame (content x.client.rx)) (sym same) lacks)
      behind later (fails j) e q = tt
      behind later (paused j) e q = q
      behind later (go_on j) e (v', less) = later j v' (omega arith)

  -- From a sound buffer, `processBufferedFrames` returns; with 0 the client is closing, or its buffer
  -- holds no whole frame.
  pub process_buffered_frames-AtRest :
      (k : Link) → IsBuf k.client.rx → AtRest (process_buffered_frames env conf k)
  unfolding process_buffered_frames
  process_buffered_frames-AtRest k v =
      buffered_frames-AtRest (buf_len k.client.rx + 1) k v (omega arith)
