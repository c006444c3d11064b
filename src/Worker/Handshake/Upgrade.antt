-- ===== src/Worker/Handshake/Upgrade.antt =====
-- Who gets past the handshake of src/worker.c.
use ws_server.Base.{
  ℕ, ◌+◌, ◌≡◌, refl, ◌⊎◌, inl, inr, Bool, true, false, Option, none, some, List, [], if◌then◌else◌,
  take, arith,
}
use ws_server.Buffer.Laws.{content}
use ws_server.Buffer.Socket.{
  RecvAnswer, RecvRc, SendRc, SendAnswer, got, got_eof, again, closed, too_big, all_sent, blocked,
  send_error, buf_recv, buf_send, Sent, Received,
}
use ws_server.Conn.{Conn, st_handshake_read, st_handshake_send, st_ws_open}
use ws_server.Http.{hs_ok, HandshakeResult, build_error, find_header_end, parse_handshake}
use ws_server.Http.Texts
use ws_server.Worker.{
  Config, Shared, Env, Disposition, handoff, disp_close, rearm_in, rearm_inout, Handled,
  tx_disposition,
}
use ws_server.Worker.Handshake.{
  handled, after_answer, handle_handshake_send, answer_request, whole_request, read_request,
  handle_handshake_read,
}

-- The connection has left the handshake: its frames are read, or the aggregator has it.
unfoldable pub Upgraded : Handled → Type 0
Upgraded r = (r.conn.state ≡ st_ws_open) ⊎ (r.disp ≡ handoff)

-- The bytes hold a whole request that is accepted.
pub HasRequest : List ℕ → Type 0
HasRequest bs =
    (i : ℕ) × (find_header_end bs ≡ some i) × ((parse_handshake (take (i + 4) bs)).status ≡ hs_ok)

waits :
    (disp : Disposition) (c : Conn) (s : Shared) (wire : List ℕ)
    → (c.state ≡ st_handshake_read) ⊎ (c.state ≡ st_handshake_send)
    → (disp ≡ handoff → ⊥)
    → Upgraded (handled disp c s wire)
    → ⊥
unfolding Upgraded
waits disp c s wire at other u = ground (arith, other)

module _ (env : Env) (conf : Config) where
  -- A connection that is to be closed goes no further.
  closing :
      (c : Conn) (s : Shared) (wire : List ℕ) (recvs : List RecvAnswer) (sends : List SendAnswer)
      → c.state ≡ st_handshake_send
      → c.close_after_send ≡ true
      → Upgraded (handle_handshake_send env conf c s wire recvs sends)
      → ⊥
  unfolding handle_handshake_send
  closing c s wire recvs sends at marked u = by_answer r.rc c.close_after_send marked u
    where
      r : Sent
      r = buf_send c.tx wire sends

      d : Conn
      d = record c { tx = r.buf }

      by_answer :
          (rc : SendRc) (closes : Bool)
          → closes ≡ true
          → Upgraded (elim (tx_disposition rc closes) [
            | rearm_in ↦ after_answer env conf d s r.wire recvs r.left
            | other ↦ handled other d s r.wire
          ])
          → ⊥
      by_answer all_sent true e u' = waits disp_close d s r.wire (inr at) (λ h. cc) u'
      by_answer all_sent false e u' = cc
      by_answer blocked closes e u' = waits rearm_inout d s r.wire (inr at) (λ h. cc) u'
      by_answer send_error closes e u' = waits disp_close d s r.wire (inr at) (λ h. cc) u'

  refused :
      (c : Conn) (hr : HandshakeResult)
      → (hr.status ≡ hs_ok) ⊎ ((answer_request env conf c hr).close_after_send ≡ true)
  unfolding answer_request
  refused c hr = ground arith

  -- A whole request that was read, if it is not accepted, ends with a connection to be closed.
  request_refused :
      (c : Conn) (n : ℕ) (eof : Bool)
      → ((parse_handshake (take n (content c.rx))).status ≡ hs_ok)
        ⊎ ((whole_request env conf c n eof).close_after_send ≡ true)
  unfolding whole_request
  request_refused c n true = inr refl
  request_refused c n false = refused _ (parse_handshake (take n (content c.rx)))

  read_request-Upgraded :
      (c : Conn) (s : Shared) (wire : List ℕ) (eof : Bool) (recvs : List RecvAnswer)
      (sends : List SendAnswer)
      → c.state ≡ st_handshake_read
      → Upgraded (read_request env conf c s wire eof recvs sends)
      → HasRequest (content c.rx)
  unfolding read_request HasRequest
  read_request-Upgraded c s wire eof recvs sends at u =
      by_end (find_header_end (content c.rx)) refl u
    where
      no_handoff : (b : Bool) → (if b then disp_close else rearm_in) ≡ handoff → ⊥
      no_handoff true h = cc
      no_handoff false h = cc

      by_end :
          (r : Option ℕ)
          → find_header_end (content c.rx) ≡ r
          → Upgraded (elim r [
            | none ↦ handled (if eof then disp_close else rearm_in) c s wire
            | some i ↦
                handle_handshake_send env conf
                  (whole_request env conf c (i + 4) eof)
                  s
                  wire
                  recvs
                  sends
          ])
          → (i : ℕ) × (find_header_end (content c.rx) ≡ some i)
            × ((parse_handshake (take (i + 4) (content c.rx))).status ≡ hs_ok)
      by_end none e u' =
          absurd
            (waits (if eof then disp_close else rearm_in) c s wire (inl at) (no_handoff eof) u')
      by_end (some i) e u' = elim (request_refused c (i + 4) eof) [
        | inl fine ↦ (i, e, fine)
        | inr marked ↦ absurd (
            closing (whole_request env conf c (i + 4) eof) s wire recvs sends
              (unfold whole_request in refl) marked u')
      ]

  -- Whatever the peer sends and however reading and writing are interrupted: if a connection that
  -- waits for its request leaves the handshake in `handleHandshakeRead`, to have its frames read or to
  -- go to the aggregator, then what was read holds a whole request, and that is accepted.
  pub handle_handshake_read-Upgraded :
      (c : Conn) (s : Shared) (wire : List ℕ) (recvs : List RecvAnswer) (sends : List SendAnswer)
      → c.state ≡ st_handshake_read
      → Upgraded (handle_handshake_read env conf c s wire recvs sends)
      → HasRequest (content (buf_recv env.realloc c.rx 4096 conf.handshake_max recvs).buf)
  unfolding handle_handshake_read
  handle_handshake_read-Upgraded c s wire recvs sends at u = by_rc r.rc u
    where
      r : Received
      r = buf_recv env.realloc c.rx 4096 conf.handshake_max recvs

      d : Conn
      d = record c { rx = r.buf }

      full : Conn
      full = record d {
        tx = build_error env.realloc c.tx Texts.code_431 Texts.reason_431 [];
        close_after_send = true;
        state = st_handshake_send;
      }

      by_rc :
          (rc : RecvRc)
          → Upgraded (elim rc [
            | closed ↦ handled disp_close d s wire
            | too_big ↦ handle_handshake_send env conf full s wire r.left sends
            | again ↦ handled rearm_in d s wire
            | got ↦ read_request env conf d s wire false r.left sends
            | got_eof ↦ read_request env conf d s wire true r.left sends
          ])
          → HasRequest (content r.buf)
      by_rc got u' = read_request-Upgraded d s wire false r.left sends at u'
      by_rc got_eof u' = read_request-Upgraded d s wire true r.left sends at u'
      by_rc again u' = absurd (waits rearm_in d s wire (inl at) (λ h. cc) u')
      by_rc closed u' = absurd (waits disp_close d s wire (inl at) (λ h. cc) u')
      by_rc too_big u' = absurd (closing full s wire r.left sends refl refl u')
