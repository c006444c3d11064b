-- ===== src/Base64/Examples.antt =====
-- The theorems on src/base64.c at concrete bytes.
use ws_server.Base.{ℕ, ◌≡◌, some, List, [], ◌∷◌, length, arith}
use ws_server.Base64.{base64_encode, base64_decode}
use ws_server.Base64.Length.{base64_decode-base64_encode}

abbrev five_bytes : List ℕ
five_bytes = 255 ∷ 0 ∷ 16 ∷ 128 ∷ 7 ∷ []

base64_decode-base64_encode_example :
    base64_decode (base64_encode five_bytes) ≡ some (length five_bytes, five_bytes)
base64_decode-base64_encode_example = base64_decode-base64_encode five_bytes (omega arith)
