-- ===== src/Ws/Utf8/Unicode.antt =====
-- The validator accepts exactly the encodings of Unicode scalar values (RFC 3629).
use ws_server.Base.{
  ℕ, zero, suc, ◌+◌, ◌-◌, ◌*◌, ◌/◌, ◌%◌, ◌≤◌, ◌<◌, Bool, true, false, Option, none, some, List, [],
  ◌∷◌, ◌++◌, ◌≡◌, refl, ap, ◌∙◌, ◌↔◌, ◌⊎◌, inl, inr, if◌then◌else◌, ltb, ◌==◌, length, All,
  Option-cases, arith,
}
use ws_server.Ws.Utf8.{
  Utf8Kind, u8_none, u8_gen, u8_e0, u8_ed, u8_f0, u8_f4, Utf8St, state, utf8_reset, lead_byte,
  continuation_ok, feed_byte, utf8_feed, utf8_done,
}

-- A code point that a text may hold: not a surrogate, and within Unicode.
abbrev pub IsScalar : ℕ → Type 0
IsScalar c = (c < 0xD800) ⊎ ((0xDFFF < c) × (c < 0x110000))

-- Its shortest encoding.
unfoldable pub utf8_encode : ℕ → List ℕ
utf8_encode c =
    if ltb c 0x80
    then c ∷ []
    else if ltb c 0x800
    then (0xC0 + c / 64) ∷ (0x80 + c % 64) ∷ []
    else if ltb c 0x10000
    then (0xE0 + c / 4096) ∷ (0x80 + c / 64 % 64) ∷ (0x80 + c % 64) ∷ []
    else (0xF0 + c / 262144) ∷ (0x80 + c / 4096 % 64) ∷ (0x80 + c / 64 % 64) ∷ (0x80 + c % 64) ∷ []

unfoldable pub encode_all : List ℕ → List ℕ
encode_all [] = []
encode_all (c ∷ cs) = utf8_encode c ++ encode_all cs

-- The verdict on a whole text from a given state.
abbrev pub verdict : Option Utf8St → Bool
verdict none = false
verdict (some st) = utf8_done st

abbrev accepts : ℕ → Utf8Kind → List ℕ → Bool
accepts n k bs = verdict (utf8_feed (state n k) bs)

-- Between characters the kind does not matter.
accepts_kind : (k k' : Utf8Kind) (bs : List ℕ) → accepts 0 k bs ≡ accepts 0 k' bs
unfolding utf8_feed feed_byte lead_byte utf8_done
accepts_kind k k' [] = refl
accepts_kind k k' (b ∷ bs) = ground (arith, accepts_kind k k' bs)

-- One character in front is accepted.
feed-encode :
    (c : ℕ) (k : Utf8Kind) (bs : List ℕ)
    → IsScalar c
    → accepts 0 k (utf8_encode c ++ bs) ≡ accepts 0 k bs
unfolding utf8_encode utf8_feed feed_byte lead_byte continuation_ok
feed-encode c k bs h = ground (arith, accepts_kind k u8_gen bs)

encode_all-accepts :
    (cs : List ℕ) (k : Utf8Kind) → All IsScalar cs → accepts 0 k (encode_all cs) ≡ true
unfolding encode_all utf8_feed utf8_done
encode_all-accepts [] k h = refl
encode_all-accepts (c ∷ cs) k h = feed-encode c k (encode_all cs) h.0 ∙ encode_all-accepts cs k h.1

-- Inside a character an accepted text goes on with a byte of the right kind.
continues :
    (n : ℕ) (k : Utf8Kind) (bs : List ℕ)
    → accepts (suc n) k bs ≡ true
    → (b : ℕ) × (r : List ℕ) × (bs ≡ b ∷ r)
      × (continuation_ok k b ≡ true)
      × (accepts n u8_gen r ≡ true)
unfolding utf8_feed feed_byte utf8_done
continues n k [] e = ground arith
continues n k (b ∷ r) e = (b, r, refl, ground arith, ground arith)

-- A text as the encoding of a list of scalar values.
abbrev pub IsText : List ℕ → Type 0
IsText bs = (cs : List ℕ) × All IsScalar cs × (bs ≡ encode_all cs)

IsText-cons :
    (c : ℕ) (front bs : List ℕ)
    → IsScalar c
    → front ≡ utf8_encode c
    → IsText bs
    → IsText (front ++ bs)
unfolding encode_all
IsText-cons c front bs h e (cs, scalars, same) = (c ∷ cs, (h, scalars), rw (e, same))

two_bytes :
    (b b1 : ℕ)
    → 0xC2 ≤ b
    → b ≤ 0xDF
    → continuation_ok u8_gen b1 ≡ true
    → (c : ℕ) × IsScalar c × (b ∷ b1 ∷ [] ≡ utf8_encode c)
unfolding continuation_ok utf8_encode
two_bytes b b1 lo hi ok = ((b - 0xC0) * 64 + (b1 - 0x80), ground arith, ground arith)

abbrev kind3 : ℕ → Utf8Kind
kind3 b = if b == 0xE0 then u8_e0 else if b == 0xED then u8_ed else u8_gen

abbrev kind4 : ℕ → Utf8Kind
kind4 b = if b == 0xF0 then u8_f0 else if b == 0xF4 then u8_f4 else u8_gen

three_bytes :
    (b b1 b2 : ℕ)
    → 0xE0 ≤ b
    → b ≤ 0xEF
    → continuation_ok (kind3 b) b1 ≡ true
    → continuation_ok u8_gen b2 ≡ true
    → (c : ℕ) × IsScalar c × (b ∷ b1 ∷ b2 ∷ [] ≡ utf8_encode c)
unfolding continuation_ok utf8_encode
three_bytes b b1 b2 lo hi ok1 ok2 =
    ((b - 0xE0) * 4096 + (b1 - 0x80) * 64 + (b2 - 0x80), ground arith, ground arith)

four_bytes :
    (b b1 b2 b3 : ℕ)
    → 0xF0 ≤ b
    → b ≤ 0xF4
    → continuation_ok (kind4 b) b1 ≡ true
    → continuation_ok u8_gen b2 ≡ true
    → continuation_ok u8_gen b3 ≡ true
    → (c : ℕ) × IsScalar c × (b ∷ b1 ∷ b2 ∷ b3 ∷ [] ≡ utf8_encode c)
unfolding continuation_ok utf8_encode
four_bytes b b1 b2 b3 lo hi ok1 ok2 ok3 = (
  (b - 0xF0) * 262144 + (b1 - 0x80) * 4096 + (b2 - 0x80) * 64 + (b3 - 0x80),
  ground arith,
  ground arith,
)

-- The four kinds of first byte.
leads :
    (k : Utf8Kind) (b : ℕ) (bs : List ℕ)
    → accepts 0 k (b ∷ bs) ≡ true
    → ((b < 0x80) × (accepts 0 k bs ≡ true))
      ⊎ ((0xC2 ≤ b) × (b ≤ 0xDF) × (accepts 1 u8_gen bs ≡ true))
      ⊎ ((0xE0 ≤ b) × (b ≤ 0xEF) × (accepts 2 (kind3 b) bs ≡ true))
      ⊎ ((0xF0 ≤ b) × (b ≤ 0xF4) × (accepts 3 (kind4 b) bs ≡ true))
unfolding utf8_feed feed_byte lead_byte
leads k b bs e = ground arith

-- The rest of a character, given that shorter texts are done.
module _ (n : ℕ)
    (shorter : (r : List ℕ) → length r ≤ n → accepts 0 u8_gen r ≡ true → IsText r) where
  two-IsText :
      (b : ℕ) (bs : List ℕ)
      → length bs ≤ n
      → 0xC2 ≤ b
      → b ≤ 0xDF
      → accepts 1 u8_gen bs ≡ true
      → IsText (b ∷ bs)
  two-IsText b bs h lo hi e =
      let (b1, r1, e1, ok1, rest) = continues 0 u8_gen bs e in
      let (c, scalar, same) = two_bytes b b1 lo hi ok1 in
      let text = shorter r1 (omega (arith, ap length e1)) rest in
      rw e1 (IsText-cons c (b ∷ b1 ∷ []) r1 scalar same text)

  three-IsText :
      (b : ℕ) (bs : List ℕ)
      → length bs ≤ n
      → 0xE0 ≤ b
      → b ≤ 0xEF
      → accepts 2 (kind3 b) bs ≡ true
      → IsText (b ∷ bs)
  three-IsText b bs h lo hi e =
      let (b1, r1, e1, ok1, rest1) = continues 1 (kind3 b) bs e in
      let (b2, r2, e2, ok2, rest2) = continues 0 u8_gen r1 rest1 in
      let (c, scalar, same) = three_bytes b b1 b2 lo hi ok1 ok2 in
      let text = shorter r2 (omega (arith, ap length e1, ap length e2)) rest2 in
      rw (e1, e2) (IsText-cons c (b ∷ b1 ∷ b2 ∷ []) r2 scalar same text)

  four-IsText :
      (b : ℕ) (bs : List ℕ)
      → length bs ≤ n
      → 0xF0 ≤ b
      → b ≤ 0xF4
      → accepts 3 (kind4 b) bs ≡ true
      → IsText (b ∷ bs)
  four-IsText b bs h lo hi e =
      let (b1, r1, e1, ok1, rest1) = continues 2 (kind4 b) bs e in
      let (b2, r2, e2, ok2, rest2) = continues 1 u8_gen r1 rest1 in
      let (b3, r3, e3, ok3, rest3) = continues 0 u8_gen r2 rest2 in
      let (c, scalar, same) = four_bytes b b1 b2 b3 lo hi ok1 ok2 ok3 in
      let text = shorter r3 (omega (arith, ap length e1, ap length e2, ap length e3)) rest3 in
      rw (e1, e2, e3) (IsText-cons c (b ∷ b1 ∷ b2 ∷ b3 ∷ []) r3 scalar same text)

accepts-IsText :
    (n : ℕ) (k : Utf8Kind) (bs : List ℕ) → length bs ≤ n → accepts 0 k bs ≡ true → IsText bs
accepts-IsText n k [] h e = ([], tt, unfold encode_all in refl)
accepts-IsText zero k (b ∷ bs) h e = absurd (omega arith)
accepts-IsText (suc n) k (b ∷ bs) h e = elim (leads k b bs e) [
  | inl (ascii, rest) ↦
      IsText-cons b (b ∷ []) bs (inl (omega arith)) (unfold utf8_encode in ground arith)
        (accepts-IsText n k bs (omega arith) rest)
  | inr (inl (lo, hi, rest)) ↦
      two-IsText n (λ r. accepts-IsText n u8_gen r) b bs (omega arith) lo hi rest
  | inr (inr (inl (lo, hi, rest))) ↦
      three-IsText n (λ r. accepts-IsText n u8_gen r) b bs (omega arith) lo hi rest
  | inr (inr (inr (lo, hi, rest))) ↦
      four-IsText n (λ r. accepts-IsText n u8_gen r) b bs (omega arith) lo hi rest
]

-- Fed from the reset state a text is valid and complete exactly when it encodes a list of Unicode
-- scalar values, each in its shortest form.
pub utf8_feed-IsText_iff :
    (bs : List ℕ)
    → ((st : Utf8St) × (utf8_feed utf8_reset bs ≡ some st) × (utf8_done st ≡ true)) ↔ IsText bs
unfolding utf8_reset
utf8_feed-IsText_iff bs = (
  λ (st, fed, done). accepts-IsText (length bs) u8_none bs (omega arith) (rw (fed, verdict) done),
  λ (cs, scalars, same). accepted (rw same (encode_all-accepts cs u8_none scalars)),
)
  where
    accepted :
        accepts 0 u8_none bs ≡ true
        → (st : Utf8St) × (utf8_feed (state 0 u8_none) bs ≡ some st) × (utf8_done st ≡ true)
    accepted e = elim (Option-cases (utf8_feed (state 0 u8_none) bs)) [
      | inl stuck ↦ absurd (ground arith)
      | inr (st, fed) ↦ (st, fed, ground arith)
    ]
