-- ===== src/Worker/Handshake.antt =====
-- `handleHandshakeRead` and `handleHandshakeSend` of src/worker.c.
pub mod Upgrade
pub mod Placing
pub mod Examples
use ws_server.Base.{
  ℕ, ◌+◌, Bool, true, false, not, Option, none, some, List, [], ◌∷◌, ◌++◌, if◌then◌else◌, take,
}
use ws_server.Buffer.{Buf, buf_consume}
use ws_server.Buffer.Laws.{content}
use ws_server.Buffer.Socket.{
  RecvAnswer, RecvRc, got, got_eof, again, closed, too_big, SendAnswer, buf_recv, buf_send,
  all_sent,
}
use ws_server.Ws.Utf8.{utf8_reset}
use ws_server.Agg.Message.{Msg, msg_new_sink_add}
use ws_server.Conn.{
  Conn, Role, role_sink, role_source, role_undecided, st_handshake_send, st_ws_open,
}
use ws_server.Queue.{node_size}
use ws_server.Http.{
  HandshakeResult, HandshakeStatus, hs_ok, hs_not_upgrade, hs_bad_version, hs_bad_request,
  find_header_end, parse_handshake, build_upgrade_response, build_error, same_bytes, until,
}
use ws_server.Http.Texts
use ws_server.Worker.{
  Config, Shared, Env, Disposition, rearm_in, disp_close, handoff, Handled, tx_disposition,
}
use ws_server.Worker.Frames.{handle_ws_open}

abbrev pub handled : Disposition → Conn → Shared → List ℕ → Handled
handled disp c s wire = record { disp = disp; conn = c; shared = s; wire = wire }

module _ (env : Env) (conf : Config) where
  -- A sink leaves the epoll of the workers and goes to the aggregator, if there is memory for it.
  pub hand_to_aggregator : Conn → Shared → List ℕ → Handled
  hand_to_aggregator c s wire =
      let d = record c { epollfd = none; watched = false } in
      elim (msg_new_sink_add env.malloc d.id) [
        | none ↦ handled disp_close d s wire
        | some m ↦
            if env.malloc node_size
            then handled handoff d (record s { ctrl_queue = s.ctrl_queue ++ m ∷ [] }) wire
            else handled disp_close d s wire
      ]

  -- Behind `flushTx`, where all was sent and the connection stays.
  pub after_answer : Conn → Shared → List ℕ → List RecvAnswer → List SendAnswer → Handled
  after_answer c s wire recvs sends = elim c.role [
    | role_sink ↦ hand_to_aggregator c s wire
    | _ ↦
        handle_ws_open env conf (record c { state = st_ws_open; msg_utf8 = utf8_reset }) s wire
          recvs sends
  ]

  pub handle_handshake_send : Conn → Shared → List ℕ → List RecvAnswer → List SendAnswer → Handled
  handle_handshake_send c s wire recvs sends =
      let r = buf_send c.tx wire sends in
      let d = record c { tx = r.buf } in
      elim (tx_disposition r.rc c.close_after_send) [
        | rearm_in ↦ after_answer d s r.wire recvs r.left
        | other ↦ handled other d s r.wire
      ]

  -- `strcmp(hr.path, conf->sinkPath) == 0`; a path ends at its first zero.
  pub role_of : List ℕ → Role
  role_of path = if same_bytes (until 0 path) conf.sink_path then role_sink else role_source

  -- The `switch` over the status.
  pub answer_request : Conn → HandshakeResult → Conn
  answer_request c hr = elim hr.status [
    | hs_ok ↦ record c {
      tx = build_upgrade_response env.realloc c.tx hr.accept_key;
      role = role_of hr.path;
      close_after_send = false;
    }
    | hs_bad_version ↦ record c {
      tx = build_error env.realloc c.tx Texts.code_426 Texts.reason_426 Texts.version_line;
      close_after_send = true;
    }
    | _ ↦ record c {
      tx = build_error env.realloc c.tx Texts.code_400 Texts.reason_400 [];
      close_after_send = true;
    }
  ]

  -- With the whole request in `rx`, of `header_len` bytes.
  pub whole_request : Conn → ℕ → Bool → Conn
  whole_request c header_len eof =
      let hr = parse_handshake (take header_len (content c.rx)) in
      let d = answer_request (record c { rx = buf_consume c.rx header_len }) hr in
      record d {
        close_after_send = if eof then true else d.close_after_send;
        state = st_handshake_send;
      }

  -- Bytes came; `eof` says whether the peer then closed.
  pub read_request : Conn → Shared → List ℕ → Bool → List RecvAnswer → List SendAnswer → Handled
  read_request c s wire eof recvs sends = elim (find_header_end (content c.rx)) [
    | none ↦ handled (if eof then disp_close else rearm_in) c s wire
    | some i ↦ handle_handshake_send (whole_request c (i + 4) eof) s wire recvs sends
  ]

  pub handle_handshake_read : Conn → Shared → List ℕ → List RecvAnswer → List SendAnswer → Handled
  handle_handshake_read c s wire recvs sends =
      let r = buf_recv env.realloc c.rx 4096 conf.handshake_max recvs in
      let d = record c { rx = r.buf } in
      elim r.rc [
        | closed ↦ handled disp_close d s wire
        | too_big ↦
            handle_handshake_send
              (record d {
                tx = build_error env.realloc c.tx Texts.code_431 Texts.reason_431 [];
                close_after_send = true;
                state = st_handshake_send;
              })
              s wire r.left sends
        | again ↦ handled rearm_in d s wire
        | got ↦ read_request d s wire false r.left sends
        | got_eof ↦ read_request d s wire true r.left sends
      ]
