-- ===== src/Ws/Header/Stable.antt =====
-- A verdict on a header does not change when more bytes arrive.
use ws_server.Base.{
  ℕ, ◌+◌, ◌≤◌, ◌≡◌, refl, ap, ◌∙◌, ◌⊎◌, bit_and, ◌/◌, ◌^◌, ◌≢◌, List, [], ◌∷◌, ◌++◌, ltb, length,
  take, drop, take-append_le, drop-append_le, length-append, length-drop, get_or-append, Bool-cases,
  inl, inr, arith,
}
use ws_server.Ws.Header.{WsRc, need_more, ok, read_length, read_mask, parse_header}

window-append :
    (m n : ℕ) (b more : List ℕ) → n + m ≤ length b → take m (drop n (b ++ more)) ≡ take m (drop n b)
window-append m n b more h =
    ap (take m) (drop-append_le n b more (omega arith))
    ∙ take-append_le m (drop n b) more (omega (arith, length-drop n b))

module _ (b more : List ℕ) where
  read_length-append :
      (len : ℕ) → read_length b len ≢ need_more → read_length (b ++ more) len ≡ read_length b len
  unfolding read_length
  read_length-append len ne = elim (Bool-cases (ltb (length b) 10)) [
    | inl few ↦
        ground (arith, length-append b more, get_or-append b more 2 0, get_or-append b more 3 0)
    | inr enough ↦
        rw (window-append 8 2 b more (ground arith))
          (ground (arith, length-append b more, get_or-append b more 2 0, get_or-append b more 3 0))
  ]

  read_mask-append :
      (m need : ℕ)
      → read_mask b m need ≢ need_more
      → read_mask (b ++ more) m need ≡ read_mask b m need
  unfolding read_mask
  read_mask-append m need ne = ground (arith, length-append b more, window-append 4 need b more)

WsRc-cases {ℓ} : {A : Type ℓ} (m : WsRc A) → (m ≡ need_more) ⊎ (m ≢ need_more)
WsRc-cases WsRc.need_more = inl refl
WsRc-cases (ok a) = inr (λ e. cc)
WsRc-cases WsRc.err_proto = inr (λ e. cc)

module _ (b0 b1 : ℕ) (r more : List ℕ) where
  abbrev b : List ℕ
  b = b0 ∷ b1 ∷ r

  abbrev len7 : ℕ
  len7 = bit_and b1 0x7F

  abbrev masked : ℕ
  masked = bit_and (b1 / 2 ^ 7) 1

  behind_mask :
      (p : ℕ × ℕ)
      → read_length b len7 ≡ ok p
      → read_length (b ++ more) len7 ≡ ok p
      → parse_header b ≢ need_more
      → parse_header (b ++ more) ≡ parse_header b
  unfolding parse_header
  behind_mask p e e' ne = elim (WsRc-cases (read_mask b masked p.1)) [
    | inl stop ↦ ground arith
    | inr go ↦ ground (arith, read_mask-append b more masked p.1 go)
  ]

  behind_length :
      (m : WsRc (ℕ × ℕ))
      → read_length b len7 ≡ m
      → parse_header b ≢ need_more
      → parse_header (b ++ more) ≡ parse_header b
  unfolding parse_header
  behind_length WsRc.need_more e ne = ground arith
  behind_length (ok p) e ne =
      let go : read_length b len7 ≢ need_more = λ stop. cc in
      behind_mask p e (read_length-append b more len7 go ∙ e) ne
  behind_length WsRc.err_proto e ne =
      let go : read_length b len7 ≢ need_more = λ stop. cc in
      ground (arith, read_length-append b more len7 go)

-- What the parser answers, other than `WS_NEED_MORE`, it answers whatever bytes follow.
pub parse_header-append :
    (b more : List ℕ) → parse_header b ≢ need_more → parse_header (b ++ more) ≡ parse_header b
unfolding parse_header
parse_header-append [] more ne = absurd (ne refl)
parse_header-append (b0 ∷ []) more ne = absurd (ne refl)
parse_header-append (b0 ∷ b1 ∷ r) more ne = behind_length b0 b1 r more _ refl ne
