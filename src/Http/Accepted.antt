-- ===== src/Http/Accepted.antt =====
-- What a request has that `httpParseHandshake` of src/http.c accepts.
use ws_server.Base.{ℕ, ◌<◌, ◌≡◌, refl, true, some, List, [], ◌∷◌, ◌++◌, length, arith}
use ws_server.Ws.Accept.{compute_accept}
use ws_server.Http.{HandshakeResult, same_bytes}
use ws_server.Http.Fields.{HasHeader, HasToken}
use ws_server.Http.Texts.{
  get_text, upgrade_name, connection_name, version_name, key_name, websocket_token, upgrade_token,
  version_13,
}

-- The headers that are asked for, and the answer to the key.
pub record HasHeaders (buf accept : List ℕ) : Type 0 where
  pub upgrade : HasToken buf upgrade_name websocket_token
  pub connection : HasToken buf connection_name upgrade_token
  pub version : HasHeader buf version_name version_13
  pub key : List ℕ
  pub sent : HasHeader buf key_name key
  pub answer : compute_accept key ≡ some accept

pub record IsAccepted (buf : List ℕ) (r : HandshakeResult) : Type 0 where
  pub request_line : (rest : List ℕ) × (buf ≡ get_text ++ (r.path ++ (32 ∷ rest)))
  pub some_path : 0 < length r.path
  pub path_fits : length r.path < 256
  pub headers : HasHeaders buf r.accept_key
  pub key_fits : length r.accept_key ≡ 28

pub same_bytes_lem : (xs ys : List ℕ) → same_bytes xs ys ≡ true → xs ≡ ys
unfolding same_bytes
same_bytes_lem [] [] e = refl
same_bytes_lem [] (y ∷ ys) e = ground arith
same_bytes_lem (x ∷ xs) [] e = ground arith
same_bytes_lem (x ∷ xs) (y ∷ ys) e =
    let h : x ≡ y = ground arith in let t = same_bytes_lem xs ys (ground arith) in cc
