-- ===== src/Upstream/Examples.antt =====
-- The theorems on src/ws_client.c at a concrete frame and attempt.
use ws_server.Base.{ℕ, false, ◌≡◌, refl, List, [], ◌∷◌, ◌++◌, length, take, drop, arith}
use ws_server.Ws.Header.{ok, parse_header, is_reserved}
use ws_server.Ws.Mask.{unmask}
use ws_server.Upstream.{client_frame}
use ws_server.Upstream.Encode.{meant, parse_header-client_frame}

abbrev hello : List ℕ
hello = 72 ∷ 101 ∷ 108 ∷ 108 ∷ 111 ∷ []

abbrev mask : List ℕ
mask = 0x37 ∷ 0xFA ∷ 0x21 ∷ 0x3D ∷ []

text_known : is_reserved 1 ≡ false
unfolding is_reserved
text_known = refl

parse_header-client_frame_example :
    (let h = meant 1 (length hello) mask in
      let sent = client_frame 1 hello mask ++ 9 ∷ [] in
      (parse_header sent ≡ ok h)
      × (unmask (take h.payload_len (drop h.header_len sent)) h.mask_key ≡ hello))
parse_header-client_frame_example =
    parse_header-client_frame 1 hello mask (9 ∷ []) (omega arith) text_known (omega arith)
      (λ c. omega arith) refl
