-- ===== src/Upstream/Handshake/Pair.antt =====
-- The upstream client of src/ws_client.c and the server's own answer of src/http.c agree.
use ws_server.Base.{
  ℕ, suc, ◌+◌, ◌≡◌, ◌≢◌, refl, ap, sym, ◌∙◌, Bool, true, false, not, ◌&&◌, some, List, [], ◌∷◌,
  ◌++◌, leb, ◌==◌, length, take, drop, append_assoc, length-append, take-append, take_all,
  drop-append, All, arith,
}
use ws_server.Buffer.{buf_consume}
use ws_server.Buffer.Laws.{IsBuf, content}
use ws_server.Base64.{sextet, base64_encode, decode_char, is_sextet}
use ws_server.Base64.RoundTrip.{decode-sextet, sextet_passes}
use ws_server.Http.{
  find_crlf, find_header_end, find_in_lines, find_header, same_name, fold_case, trim_end,
  skip_spaces, header_has_token, has_token, skip_separators, until, lists_token, same_bytes,
  upgrade_text,
}
use ws_server.Upstream.Handshake.{
  switching_101, accept_name, accepts, is_switching, process_handshake_response,
}
use ws_server.Sha1.{sha1}
use ws_server.Ws.Accept.{compute_accept, compute_accept_lem}
use ws_server.Buffer.Append.{buf_consume_lem}
use ws_server.Worker.{Config}
use ws_server.Upstream.Client.{
  UpstreamClient, upstream_open, epoll_mod, wanted_events, update_events,
}
use mathlib.Core.Path.{subst}
use ws_server.Http.Texts

-- A character that ends no line and is no space.
abbrev IsPlain : ℕ → Type 0
IsPlain c = (c ≢ 13) × (c ≢ 32)

sextet-IsPlain : (v s : ℕ) → IsPlain (sextet v s)
unfolding decode_char is_sextet
sextet-IsPlain v s =
    let passes : is_sextet (decode_char (sextet v s)) ≡ true =
      sextet_passes (sextet v s) (omega (arith, decode-sextet v s)) in
    (
      λ e. absurd (not_passing 13 refl (sym (ap (λ c. is_sextet (decode_char c)) e) ∙ passes)),
      λ e. absurd (not_passing 32 refl (sym (ap (λ c. is_sextet (decode_char c)) e) ∙ passes)),
    )
  where
    not_passing : (c : ℕ) → is_sextet (decode_char c) ≡ false → is_sextet (decode_char c) ≡ true → ⊥
    not_passing c f t = cc

base64_encode-IsPlain : (xs : List ℕ) → All IsPlain (base64_encode xs)
unfolding base64_encode
base64_encode-IsPlain [] = tt
base64_encode-IsPlain (a ∷ []) = (sextet-IsPlain _ 18, (sextet-IsPlain _ 12, (pad, (pad, tt))))
  where
    pad : IsPlain 61
    pad = (λ e. absurd (omega arith), λ e. absurd (omega arith))
base64_encode-IsPlain (a ∷ b ∷ []) =
    (sextet-IsPlain _ 18, (sextet-IsPlain _ 12, (sextet-IsPlain _ 6, (pad, tt))))
  where
    pad : IsPlain 61
    pad = (λ e. absurd (omega arith), λ e. absurd (omega arith))
base64_encode-IsPlain (a ∷ b ∷ c ∷ rest) = (
  sextet-IsPlain _ 18,
  (sextet-IsPlain _ 12, (sextet-IsPlain _ 6, (sextet-IsPlain _ 0, base64_encode-IsPlain rest))),
)

-- No character is a carriage return.
no_cr : List ℕ → Bool
no_cr [] = true
no_cr (x ∷ xs) = not (x == 13) && no_cr xs

plain_no_cr : (xs : List ℕ) → All IsPlain xs → no_cr xs ≡ true
unfolding no_cr
plain_no_cr [] h = refl
plain_no_cr (x ∷ xs) h =
    let ne = h.0.0 in let e : (x == 13) ≡ false = ground arith in rw (e, plain_no_cr xs h.1) refl

find_crlf_behind :
    (xs t : List ℕ) → no_cr xs ≡ true → find_crlf (xs ++ (13 ∷ 10 ∷ t)) ≡ some (length xs)
unfolding find_crlf no_cr
find_crlf_behind [] t h = refl
find_crlf_behind (x ∷ xs) t h =
    let e : (x == 13) ≡ false = ground arith in
    let later = find_crlf_behind xs t (ground arith) in rw (e, later) refl

find_header_end_blank :
    (xs t : List ℕ)
    → no_cr xs ≡ true
    → find_header_end (xs ++ (13 ∷ 10 ∷ 13 ∷ 10 ∷ t)) ≡ some (length xs)
unfolding find_header_end no_cr
find_header_end_blank [] t h = ground arith
find_header_end_blank (x ∷ xs) t h =
    let e : (x == 13) ≡ false = ground arith in
    let later = find_header_end_blank xs t (ground arith) in ground (arith, later)

-- The end of a line before another.
find_header_end_line :
    (xs t : List ℕ) (y i : ℕ)
    → no_cr xs ≡ true
    → (y == 13) ≡ false
    → find_header_end (y ∷ t) ≡ some i
    → find_header_end (xs ++ (13 ∷ 10 ∷ y ∷ t)) ≡ some (length xs + (2 + i))
unfolding find_header_end no_cr
find_header_end_line [] t y i h ne e = ground arith
find_header_end_line (x ∷ xs) t y i h ne e =
    let e' : (x == 13) ≡ false = ground arith in
    let later = find_header_end_line xs t y i (ground arith) ne e in ground (arith, later)

trim_end-IsPlain : (xs : List ℕ) → All IsPlain xs → trim_end xs ≡ xs
unfolding trim_end
trim_end-IsPlain [] h = refl
trim_end-IsPlain (x ∷ xs) h =
    let ne = h.0.1 in
    let e : (x == 32) ≡ false = ground arith in rw (e, trim_end-IsPlain xs h.1) refl

skip_spaces-IsPlain : (xs : List ℕ) → All IsPlain xs → skip_spaces xs ≡ xs
unfolding skip_spaces
skip_spaces-IsPlain [] h = refl
skip_spaces-IsPlain (x ∷ xs) h =
    let ne = h.0.1 in let e : (x == 32) ≡ false = ground arith in rw e refl

-- "HTTP/1.1 101 Switching Protocols", "Upgrade: websocket", "Connection: Upgrade" and
-- "Sec-WebSocket-Accept: ".
abbrev line_1 : List ℕ
line_1 =
    72 ∷ 84 ∷ 84 ∷ 80 ∷ 47 ∷ 49 ∷ 46 ∷ 49 ∷ 32 ∷ 49 ∷ 48 ∷ 49 ∷ 32 ∷ 83 ∷ 119 ∷ 105 ∷ 116 ∷ 99 ∷ 104
    ∷ 105 ∷ 110 ∷ 103 ∷ 32 ∷ 80 ∷ 114 ∷ 111 ∷ 116 ∷ 111 ∷ 99 ∷ 111 ∷ 108 ∷ 115 ∷ []

abbrev line_2 : List ℕ
line_2 =
    85 ∷ 112 ∷ 103 ∷ 114 ∷ 97 ∷ 100 ∷ 101 ∷ 58 ∷ 32 ∷ 119 ∷ 101 ∷ 98 ∷ 115 ∷ 111 ∷ 99 ∷ 107 ∷ 101
    ∷ 116 ∷ []

abbrev line_3 : List ℕ
line_3 =
    67 ∷ 111 ∷ 110 ∷ 110 ∷ 101 ∷ 99 ∷ 116 ∷ 105 ∷ 111 ∷ 110 ∷ 58 ∷ 32 ∷ 85 ∷ 112 ∷ 103 ∷ 114 ∷ 97
    ∷ 100 ∷ 101 ∷ []

abbrev line_4 : List ℕ
line_4 =
    83 ∷ 101 ∷ 99 ∷ 45 ∷ 87 ∷ 101 ∷ 98 ∷ 83 ∷ 111 ∷ 99 ∷ 107 ∷ 101 ∷ 116 ∷ 45 ∷ 65 ∷ 99 ∷ 99 ∷ 101
    ∷ 112 ∷ 116 ∷ 58 ∷ 32 ∷ []

same_bytes_refl : (xs : List ℕ) → same_bytes xs xs ≡ true
unfolding same_bytes
same_bytes_refl [] = refl
same_bytes_refl (x ∷ xs) = let h = same_bytes_refl xs in ground arith

module _ (a : List ℕ) (plain : All IsPlain a) (len : length a ≡ 28) where
  abbrev last_line : List ℕ → List ℕ
  last_line t = line_4 ++ (a ++ (13 ∷ 10 ∷ 13 ∷ 10 ∷ t))

  header_end_of : (t : List ℕ) → find_header_end (upgrade_text a ++ t) ≡ some 125
  unfolding upgrade_text
  header_end_of t =
      let e4 : find_header_end (last_line t) ≡ some 50 =
        ap find_header_end (sym (append_assoc line_4 a (13 ∷ 10 ∷ 13 ∷ 10 ∷ t)))
        ∙ find_header_end_blank (line_4 ++ a) t (unfold no_cr in plain_no_cr a plain)
        ∙ ap some (let l : length (line_4 ++ a) ≡ 50 = omega arith in l) in
      let e3 = find_header_end_line line_3 _ 83 50 (unfold no_cr in refl) refl e4 in
      let e2 = find_header_end_line line_2 _ 67 71 (unfold no_cr in refl) refl e3 in
      let e1 = find_header_end_line line_1 _ 85 91 (unfold no_cr in refl) refl e2 in
      ap find_header_end
        (ap (λ (u : List ℕ). Texts.switching ++ u) (append_assoc a Texts.blank_line t))
      ∙ e1

  -- The value in the last line.
  last_value : (fuel : ℕ) → find_in_lines (suc fuel) accept_name (last_line []) ≡ some a
  unfolding find_in_lines same_name fold_case skip_spaces
  last_value fuel =
      let crlf : find_crlf (last_line []) ≡ some 50 =
        ap find_crlf (sym (append_assoc line_4 a (13 ∷ 10 ∷ 13 ∷ 10 ∷ [])))
        ∙ find_crlf_behind (line_4 ++ a) (13 ∷ 10 ∷ []) (unfold no_cr in plain_no_cr a plain)
        ∙ ap some (let l : length (line_4 ++ a) ≡ 50 = omega arith in l) in
      let value : take 28 (a ++ (13 ∷ 10 ∷ 13 ∷ 10 ∷ [])) ≡ a = take-append 28 a _ len in
      rw crlf
        (rw value (ap some (ap trim_end (skip_spaces-IsPlain a plain) ∙ trim_end-IsPlain a plain)))

  upgrade_found :
      lists_token (find_header (upgrade_text a) Texts.upgrade_name) Texts.websocket_token ≡ true
  unfolding upgrade_text find_header find_crlf find_in_lines same_name fold_case skip_spaces
      trim_end header_has_token has_token skip_separators until
  upgrade_found = refl

  connection_found :
      lists_token (find_header (upgrade_text a) Texts.connection_name) Texts.upgrade_token ≡ true
  unfolding upgrade_text find_header find_crlf find_in_lines same_name fold_case skip_spaces
      trim_end header_has_token has_token skip_separators until
  connection_found = refl

  accept_found : find_header (upgrade_text a) accept_name ≡ some a
  unfolding upgrade_text find_header find_crlf find_in_lines same_name fold_case
  accept_found = last_value (length (drop 3 (Texts.switching ++ (a ++ Texts.blank_line))))

  length-upgrade_text : length (upgrade_text a) ≡ 129
  unfolding upgrade_text
  length-upgrade_text = omega (arith, length-append a Texts.blank_line, len)

  passes : (c : UpstreamClient) → c.expected_accept ≡ a → is_switching c (upgrade_text a) ≡ true
  unfolding is_switching accepts
  passes c expected =
      let same : same_bytes a (take 28 c.expected_accept) ≡ true =
        ap (λ (t : List ℕ). same_bytes a (take 28 t)) expected
        ∙ ap (same_bytes a) (take_all 28 a (omega arith))
        ∙ same_bytes_refl a in
      let long : leb 12 (length (upgrade_text a)) ≡ true = ground (arith, length-upgrade_text) in
      let begins : same_bytes (take 12 (upgrade_text a)) switching_101 ≡ true =
        unfold upgrade_text in unfold same_bytes in refl in
      let right : (length a == 28) ≡ true = ground arith in
      rw (long, begins, upgrade_found, connection_found, accept_found) (rw (right, same) refl)

accept-IsPlain : (key a : List ℕ) → compute_accept key ≡ some a → All IsPlain a × (length a ≡ 28)
unfolding compute_accept
accept-IsPlain key a e =
    let m = sha1 (take 24 key ++ Texts.magic) in
    let is : base64_encode m ≡ a = ground arith in
    (subst (All IsPlain) is (base64_encode-IsPlain m), (compute_accept_lem key).1 a e)

-- A connected client with a sound buffer that holds the answer of `httpBuildUpgradeResponse` to its own
-- key, as `wsComputeAccept` computes it, and any bytes behind, becomes open by
-- `processHandshakeResponse`, which returns 0 and leaves exactly these bytes to be read, where the
-- EPOLL_CTL_MOD of `updateEvents` succeeds.
pub process_handshake_response-upgrade_text :
    (conf : Config) (c : UpstreamClient) (fd : ℕ) (key accept rest : List ℕ)
    → IsBuf c.rx
    → c.fd ≡ some fd
    → compute_accept key ≡ some accept
    → c.expected_accept ≡ accept
    → content c.rx ≡ upgrade_text accept ++ rest
    → c.mods ≡ []
    → (let r = process_handshake_response conf c in
        (r.1 ≡ true) × (r.0.state ≡ upstream_open) × (content r.0.rx ≡ rest))
unfolding process_handshake_response update_events epoll_mod
process_handshake_response-upgrade_text conf c fd key a rest v connected computed expected held
      watched =
    let (plain, len) = accept-IsPlain key a computed in
    let l = length-upgrade_text a plain len in
    let found : find_header_end (content c.rx) ≡ some 125 =
      ap find_header_end held ∙ header_end_of a plain len rest in
    let front : take 129 (content c.rx) ≡ upgrade_text a =
      ap (take 129) held ∙ take-append 129 (upgrade_text a) rest l in
    let good : is_switching c (take 129 (content c.rx)) ≡ true =
      ap (is_switching c) front ∙ passes a plain len c expected in
    let (_, consumed, _, _) = buf_consume_lem c.rx 129 v in
    let left : content (buf_consume c.rx 129) ≡ rest =
      consumed ∙ ap (drop 129) held ∙ drop-append 129 (upgrade_text a) rest l in
    let d = record c { rx = buf_consume c.rx 129; state = upstream_open; reconnect_attempt = 0 } in
    let is : process_handshake_response conf c ≡ epoll_mod d (wanted_events d) c.mods =
      ground (arith, found, good, connected) in
    rw is (rw watched (refl, refl, left))
