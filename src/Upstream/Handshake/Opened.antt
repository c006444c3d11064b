-- ===== src/Upstream/Handshake/Opened.antt =====
-- When the upstream client of src/ws_client.c counts as open.
use ws_server.Base.{ℕ, ◌+◌, ◌≡◌, some, List, length, take, drop}
use ws_server.Buffer.Laws.{content}
use ws_server.Http.Fields.{HasHeader, HasToken}
use ws_server.Http.Search.{FindsFirst}
use ws_server.Http.Texts
use ws_server.Upstream.Client.{UpstreamClient}
use ws_server.Upstream.Handshake.{switching_101, accept_name}

-- A response that answers the request of this client: of `i + 4` bytes, with the status 101, both tokens,
-- and the accept key that was computed from the nonce.
pub record IsAnswered (c d : UpstreamClient) : Type 0 where
  pub header_end : ℕ
  pub found : FindsFirst (content c.rx) (some header_end)
  pub status : take 12 (take (header_end + 4) (content c.rx)) ≡ switching_101
  pub upgrade :
      HasToken (take (header_end + 4) (content c.rx)) Texts.upgrade_name Texts.websocket_token
  pub connection :
      HasToken (take (header_end + 4) (content c.rx)) Texts.connection_name Texts.upgrade_token
  pub accept : List ℕ
  pub answer : HasHeader (take (header_end + 4) (content c.rx)) accept_name accept
  pub accept_len : length accept ≡ 28
  pub expected : accept ≡ take 28 c.expected_accept
  pub behind : content d.rx ≡ drop (header_end + 4) (content c.rx)
