-- ===== src/Http.antt =====
-- src/http.c: the request of the WebSocket handshake, and the answers. A text is the list of the codes
-- of its characters; a pointer into the request is the list from there on.
pub mod Texts
pub mod Search
pub mod Tokens
pub mod Fields
pub mod Accepted
pub mod Examples
use ws_server.Base.{
  ℕ, zero, suc, ◌+◌, ◌-◌, Bool, true, false, not, ◌&&◌, ◌||◌, Option, none, some, List, [], ◌∷◌,
  ◌++◌, if◌then◌else◌, ltb, leb, ◌==◌, length, take, drop, get_or,
}
use ws_server.Buffer.{Buf, buf_append}
use ws_server.Ws.Accept.{compute_accept}
use ws_server.Http.Texts

abbrev pub map_suc : Option ℕ → Option ℕ
map_suc none = none
map_suc (some i) = some (suc i)

-- `findCRLF`, the index.
unfoldable pub find_crlf : List ℕ → Option ℕ
find_crlf [] = none
find_crlf (x ∷ p) =
    let rest = find_crlf p in if (x == 13) && (get_or p 0 0 == 10) then some 0 else map_suc rest

abbrev pub begins_blank : List ℕ → Bool
begins_blank p =
    leb 4 (length p)
    && ((get_or p 0 0 == 13)
        && ((get_or p 1 0 == 10) && ((get_or p 2 0 == 13) && (get_or p 3 0 == 10))))

-- `httpFindHeaderEnd`, the index.
unfoldable pub find_header_end : List ℕ → Option ℕ
find_header_end [] = none
find_header_end (x ∷ p) =
    let rest = find_header_end p in if begins_blank (x ∷ p) then some 0 else map_suc rest

-- `tolower` of the C locale.
unfoldable pub fold_case : ℕ → ℕ
fold_case c = if leb 65 c && leb c 90 then c + 32 else c

-- `strncasecmp(s, name, strlen(name)) == 0`, where `s` is at least as long.
unfoldable pub same_name : List ℕ → List ℕ → Bool
same_name s [] = true
same_name [] (c ∷ name) = false
same_name (x ∷ s) (c ∷ name) = (fold_case x == fold_case c) && same_name s name

unfoldable pub skip_spaces : List ℕ → List ℕ
skip_spaces [] = []
skip_spaces (c ∷ v) = let rest = skip_spaces v in if c == 32 then rest else c ∷ v

-- Without the spaces at the end.
unfoldable pub trim_end : List ℕ → List ℕ
trim_end [] = []
trim_end (c ∷ v) = let rest = trim_end v in if (c == 32) && (length rest == 0) then [] else c ∷ rest

-- The loop over the lines from `p` on; `fuel` bounds their number.
unfoldable pub find_in_lines : ℕ → List ℕ → List ℕ → Option (List ℕ)
find_in_lines zero name p = none
find_in_lines (suc fuel) name p =
    let nl = find_crlf p in
    let line_len : ℕ = elim nl [ some n ↦ n | none ↦ length p ] in
    let rest = find_in_lines fuel name (drop (line_len + 2) p) in
    if line_len == 0
    then none
    else if ltb (length name) line_len && ((get_or p (length name) 0 == 58) && same_name p name)
    then some
        (trim_end (skip_spaces (take (line_len - length name - 1) (drop (length name + 1) p))))
    else elim nl [ some n ↦ rest | none ↦ none ]

-- `httpFindHeader`, the value; a line takes a byte at least.
unfoldable pub find_header : List ℕ → List ℕ → Option (List ℕ)
find_header buf name = elim (find_crlf buf) [
  | none ↦ none
  | some n ↦ find_in_lines (length buf) name (drop (n + 2) buf)
]

unfoldable pub skip_separators : List ℕ → List ℕ
skip_separators [] = []
skip_separators (c ∷ v) =
    let rest = skip_separators v in if (c == 32) || (c == 44) then rest else c ∷ v

unfoldable pub until : ℕ → List ℕ → List ℕ
until stop [] = []
until stop (c ∷ v) = let rest = until stop v in if c == stop then [] else c ∷ rest

-- The loop of `httpHeaderHasToken`; every round takes a byte at least.
unfoldable pub has_token : ℕ → List ℕ → List ℕ → Bool
has_token zero token v = false
has_token (suc fuel) token [] = false
has_token (suc fuel) token (c ∷ v) =
    let item = skip_separators (c ∷ v) in
    let word = trim_end (until 44 item) in
    let rest = has_token fuel token (drop (length (until 44 item)) item) in
    if ltb 0 (length word) && ((length word == length token) && same_name word token)
    then true
    else rest

unfoldable pub header_has_token : List ℕ → List ℕ → Bool
header_has_token v token = has_token (length v) token v

pub data HandshakeStatus : Type 0 where
  hs_ok hs_not_upgrade hs_bad_version hs_bad_request : HandshakeStatus

-- `path` holds the bytes ahead of the closing zero; both texts are empty where they are not set.
pub record HandshakeResult : Type 0 where
  pub status : HandshakeStatus
  pub path : List ℕ
  pub accept_key : List ℕ

abbrev pub result : HandshakeStatus → List ℕ → List ℕ → HandshakeResult
result status path key = record { status = status; path = path; accept_key = key }

unfoldable pub same_bytes : List ℕ → List ℕ → Bool
same_bytes [] [] = true
same_bytes (x ∷ xs) (y ∷ ys) = (x == y) && same_bytes xs ys
same_bytes _ _ = false

-- Whether a header is there and lists a token.
abbrev pub lists_token : Option (List ℕ) → List ℕ → Bool
lists_token none token = false
lists_token (some v) token = header_has_token v token

abbrev pub is_value : Option (List ℕ) → List ℕ → Bool
is_value none text = false
is_value (some v) text = same_bytes v text

-- What follows the path.
unfoldable pub parse_headers : List ℕ → List ℕ → HandshakeResult
parse_headers buf path =
    if not (lists_token (find_header buf Texts.upgrade_name) Texts.websocket_token)
      || not (lists_token (find_header buf Texts.connection_name) Texts.upgrade_token)
    then result hs_not_upgrade path []
    else if not (is_value (find_header buf Texts.version_name) Texts.version_13)
    then result hs_bad_version path []
    else elim (find_header buf Texts.key_name) [
      | none ↦ result hs_bad_request path []
      | some key ↦ elim (compute_accept key) [
        | none ↦ result hs_bad_request path []
        | some accept ↦ result hs_ok path accept
      ]
    ]

-- `httpParseHandshake`. The path ends at a space, and is shorter than 256 bytes.
unfoldable pub parse_handshake : List ℕ → HandshakeResult
parse_handshake buf =
    let path = until 32 (drop 4 buf) in
    if ltb (length buf) 5 || not (same_bytes (take 4 buf) Texts.get_text)
    then result hs_bad_request [] []
    else if length path == length (drop 4 buf)
    then result hs_bad_request [] []
    else if (length path == 0) || leb 256 (length path)
    then result hs_bad_request [] []
    else parse_headers buf path

-- The answers; their texts are shorter than the 256 bytes that `snprintf` is given.
unfoldable pub upgrade_text : List ℕ → List ℕ
upgrade_text accept = Texts.switching ++ (accept ++ Texts.blank_line)

pub error_text : List ℕ → List ℕ → List ℕ → List ℕ
error_text code reason extra =
    Texts.http_version ++ (code ++ (32 ∷ (reason ++ (Texts.crlf ++ (extra ++ Texts.closing)))))

unfoldable pub build_upgrade_response : (ℕ → Bool) → Buf → List ℕ → Buf
build_upgrade_response realloc tx accept = buf_append realloc tx (upgrade_text accept)

pub build_error : (ℕ → Bool) → Buf → List ℕ → List ℕ → List ℕ → Buf
build_error realloc tx code reason extra = buf_append realloc tx (error_text code reason extra)
