-- ===== src/Upstream/Encode.antt =====
-- The frames of src/ws_client.c, read by the parser of src/ws.c.
use ws_server.Base.{
  ℕ, zero, suc, ◌+◌, ◌*◌, ◌/◌, ◌%◌, ◌^◌, ◌≤◌, ◌<◌, ◌≡◌, refl, ap, sym, ◌∙◌, bit_or, min, false,
  List, [], ◌∷◌, ◌++◌, leb, length, take, drop, if◌then◌else◌, length-append, take-append,
  drop-append, append_assoc, inl, inr, Bool-cases, arith,
}
use ws_server.Base.Bits.{bit_or_shift}
use native.Mathlib.Nat.{one-le-pow}
use ws_server.Ws.Header.{FrameHdr, ok, parse_header, is_reserved, be_bytes}
use ws_server.Ws.Header.Layout.{len_bytes, header_bytes, IsFrameHdr, opcode_mask, fin_set}
use ws_server.Ws.Header.RoundTrip.{parse_header-header_bytes}
use ws_server.Ws.Mask.{unmask, unmask_twice, length-unmask}
use ws_server.Upstream.{client_header, client_frame, double_delay, reconnect_delay_ms}

-- The header that the client means: final and masked.
abbrev pub meant : ℕ → ℕ → List ℕ → FrameHdr
meant opcode len mask = record {
  fin = 1;
  opcode = opcode;
  masked = 1;
  payload_len = len;
  mask_key = mask;
  header_len = if leb len 125 then 6 else if leb len 0xFFFF then 8 else 14;
}

len_part :
    (len : ℕ)
    → (if leb len 125
        then bit_or 0x80 len ∷ []
        else if leb len 0xFFFF
        then bit_or 0x80 126 ∷ (len / 2 ^ 8 % 256) ∷ (len % 256) ∷ []
        else bit_or 0x80 127 ∷ be_bytes 8 len)
      ≡ len_bytes 128 len
unfolding len_bytes
len_part len = elim (Bool-cases (leb len 125)) [
  | inl small ↦
      let e : bit_or 128 len ≡ 128 + len = ground (arith, bit_or_shift 7 1 len) in
      rw (small, e) refl
  | inr large ↦ rw large (ground arith)
]

client_header-header_bytes :
    (opcode len : ℕ) (mask : List ℕ)
    → opcode < 16
    → client_header opcode len mask ≡ header_bytes (meant opcode len mask)
unfolding client_header header_bytes len_bytes
client_header-header_bytes opcode len mask h = rw (opcode_mask opcode (omega arith)) (
    let e : opcode % 16 ≡ opcode = omega arith in
    rw (e, fin_set opcode h) (ap (λ (t : List ℕ). (128 + opcode) ∷ (t ++ mask)) (len_part len)))

length-len_bytes :
    (len : ℕ)
    → length (len_bytes 128 len) ≡ (if leb len 125 then 1 else if leb len 0xFFFF then 3 else 9)
unfolding len_bytes be_bytes
length-len_bytes len = ground arith

length-header_bytes :
    (opcode len : ℕ) (mask : List ℕ)
    → length mask ≡ 4
    → length (header_bytes (meant opcode len mask)) ≡ (meant opcode len mask).header_len
unfolding header_bytes
length-header_bytes opcode len mask four =
    let l = length-append (len_bytes 128 len) mask in let n = length-len_bytes len in ground arith

meant-IsFrameHdr :
    (opcode len : ℕ) (mask : List ℕ)
    → opcode < 16
    → is_reserved opcode ≡ false
    → len < 2 ^ 63
    → (8 ≤ opcode → len ≤ 125)
    → length mask ≡ 4
    → IsFrameHdr (meant opcode len mask)
meant-IsFrameHdr opcode len mask h known big control four = record {
  fin_bit = omega arith;
  masked_bit = omega arith;
  opcode_range = h;
  known = known;
  len_range = big;
  control = λ c. (refl, control c);
  key_len = omega arith;
  whole = sym (length-header_bytes opcode len mask four);
}

-- What the client sends, the server's parser reads: for a known 4-bit opcode, a payload shorter than
-- 2 ^ 63, of at most 125 bytes in a control frame, and a key of four bytes, `wsParseHeader` finds the
-- header in the frame, whatever follows, and `wsUnmask` gives the payload behind it.
pub parse_header-client_frame :
    (opcode : ℕ) (payload mask rest : List ℕ)
    → opcode < 16
    → is_reserved opcode ≡ false
    → length payload < 2 ^ 63
    → (8 ≤ opcode → length payload ≤ 125)
    → length mask ≡ 4
    → (let h = meant opcode (length payload) mask in
        let sent = client_frame opcode payload mask ++ rest in
        (parse_header sent ≡ ok h)
        × (unmask (take h.payload_len (drop h.header_len sent)) h.mask_key ≡ payload))
unfolding client_frame
parse_header-client_frame opcode payload mask rest h known big control four =
    let m = meant opcode (length payload) mask in
    let body = unmask payload mask in
    let head = client_header-header_bytes opcode (length payload) mask h in
    let split : (client_header opcode (length payload) mask ++ body) ++ rest
        ≡ header_bytes m ++ (body ++ rest) =
      ap (λ (t : List ℕ). (t ++ body) ++ rest) head ∙ append_assoc (header_bytes m) body rest in
    let n = length-header_bytes opcode (length payload) mask four in
    let behind : drop m.header_len (header_bytes m ++ (body ++ rest)) ≡ body ++ rest =
      drop-append m.header_len (header_bytes m) (body ++ rest) n in
    let front : take (length payload) (body ++ rest) ≡ body =
      take-append (length payload) body rest (length-unmask payload mask) in
    (
      ap parse_header split
          ∙ parse_header-header_bytes m (body ++ rest)
              (meant-IsFrameHdr opcode (length payload) mask h known big control four),
      ap (λ (t : List ℕ). unmask (take (length payload) (drop m.header_len t)) mask) split
          ∙ ap (λ (t : List ℕ). unmask (take (length payload) t) mask) behind
          ∙ ap (λ (t : List ℕ). unmask t mask) front
          ∙ unmask_twice payload mask,
    )

-- The delay doubles from a second on with each attempt, up to thirty seconds.
pub reconnect_delay_ms_lem :
    (attempt : ℕ) → reconnect_delay_ms attempt ≡ min 30000 (1000 * 2 ^ attempt)
unfolding reconnect_delay_ms double_delay
reconnect_delay_ms_lem zero = refl
reconnect_delay_ms_lem (suc zero) = refl
reconnect_delay_ms_lem (suc (suc zero)) = refl
reconnect_delay_ms_lem (suc (suc (suc zero))) = refl
reconnect_delay_ms_lem (suc (suc (suc (suc zero)))) = refl
reconnect_delay_ms_lem (suc (suc (suc (suc (suc k))))) =
    let many : 1 ≤ 2 ^ k = grind (arith, one-le-pow k 2) in ground (arith, many)
