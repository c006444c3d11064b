-- ===== src/Ws/Accept.antt =====
-- `wsComputeAccept` of src/ws.c.
use ws_server.Base.{
  ◌↔◌, sym, ℕ, ◌≡◌, refl, ap, ◌∙◌, Bool, true, false, not, ◌||◌, Option, none, some, List, ◌++◌,
  if◌then◌else◌, ◌==◌, length, take, arith,
}
use ws_server.Base64.{checked_len, base64_encode, encoded_len}
use ws_server.Base64.Length.{length-base64_encode}
use ws_server.Sha1.{sha1, length-sha1}
use ws_server.Http.Texts.{magic}

-- `base64DecodedLen(key, keyLen) != 16`
unfoldable pub decodes_to_16 : List ℕ → Bool
decodes_to_16 key = elim (checked_len key) [ none ↦ false | some (n, pad) ↦ n == 16 ]

unfoldable pub compute_accept : List ℕ → Option (List ℕ)
compute_accept key =
    if not (length key == 24) || not (decodes_to_16 key)
    then none
    else some (base64_encode (sha1 (take 24 key ++ magic)))

-- A key is refused exactly when it is not 24 characters of base64 for 16 bytes; else the answer has
-- the 28 characters that its place holds.
pub compute_accept_lem :
    (key : List ℕ)
    → ((compute_accept key ≡ none) ↔ ((length key ≡ 24) × (decodes_to_16 key ≡ true) → ⊥))
      × ((a : List ℕ) → compute_accept key ≡ some a → length a ≡ 28)
unfolding compute_accept
compute_accept_lem key = (
  ground arith,
  λ a e.
      let m = take 24 key ++ magic in
      let is : base64_encode (sha1 m) ≡ a = ground arith in
      sym (ap length is)
      ∙ length-base64_encode (sha1 m)
      ∙ ap encoded_len (length-sha1 m)
      ∙ unfold encoded_len in refl,
)
