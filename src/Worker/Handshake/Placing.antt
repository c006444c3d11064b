-- ===== src/Worker/Handshake/Placing.antt =====
-- Where the handlers of the handshake of src/worker.c leave their connection.
use ws_server.Base.{
  ℕ, ◌+◌, ◌≡◌, refl, ◌∙◌, ap, Bool, true, false, Option, none, some, List, [], ◌∷◌, ◌++◌,
  if◌then◌else◌, take, Bool-cases, Option-cases, inl, inr, arith,
}
use ws_server.Buffer.Laws.{content}
use ws_server.Buffer.{Buf, buf_consume}
use ws_server.Buffer.Socket.{
  RecvAnswer, RecvRc, SendRc, SendAnswer, got, got_eof, again, closed, too_big, all_sent, blocked,
  send_error, buf_recv, buf_send, Sent, Received,
}
use ws_server.Ws.Utf8.{utf8_reset}
use ws_server.Agg.Message.{Msg, msg_sink_add, msg_new_sink_add}
use ws_server.Conn.{
  Conn, Role, role_sink, role_source, role_undecided, st_handshake_send, st_ws_open,
}
use ws_server.Queue.{node_size}
use ws_server.Http.{
  HandshakeResult, HandshakeStatus, hs_ok, hs_not_upgrade, hs_bad_version, hs_bad_request,
  build_error, build_upgrade_response, find_header_end, parse_handshake,
}
use ws_server.Http.Texts
use ws_server.Worker.{Config, Shared, Env, disp_close, rearm_in, tx_disposition}
use ws_server.Worker.Handshake.{
  handled, hand_to_aggregator, after_answer, handle_handshake_send, answer_request, role_of,
  whole_request, read_request, handle_handshake_read,
}
use ws_server.Worker.Frames.{handle_ws_open}
use ws_server.Worker.Frames.Moves.{Unmoved, IsAlone, alone, Places, handle_ws_open-Places}

sink_add_lem :
    (malloc : ℕ → Bool) (n : ℕ) (m : Msg)
    → msg_new_sink_add malloc n ≡ some m
    → (m.kind ≡ msg_sink_add) × (m.conn ≡ some n)
unfolding msg_new_sink_add
sink_add_lem malloc n m e = ground arith

module _ (c0 : Conn) (s0 : Shared) (env : Env) (conf : Config) where
  hand_to_aggregator-Places :
      (c : Conn) (s : Shared) (wire : List ℕ)
      → Unmoved c0 s0 c s
      → Places c0 s0 (hand_to_aggregator env conf c s wire)
  unfolding hand_to_aggregator
  hand_to_aggregator-Places c s wire v = elim (Option-cases (msg_new_sink_add env.malloc c.id)) [
    | inl no_message ↦ rw (no_message, hand_to_aggregator) gone
    | inr (m, made) ↦ elim (Bool-cases (env.malloc node_size)) [
      | inl node ↦
          let (kind, conn) = sink_add_lem env.malloc c.id m made in
          rw (made, hand_to_aggregator)
            (rw node (record {
              same_id = v.same_id;
              unwatched = refl;
              no_epollfd = refl;
              told = (
                m,
                ap (λ (q : List Msg). q ++ m ∷ []) v.same_ctrl,
                kind,
                conn ∙ ap some v.same_id,
              );
              same_park = v.same_park;
            }))
      | inr no_node ↦ rw (made, hand_to_aggregator) (rw no_node gone)
    ]
  ]
    where
      gone : IsAlone c0 s0 (record c { epollfd = none; watched = false }) s
      gone = record { same_id = v.same_id; same_park = v.same_park; same_ctrl = v.same_ctrl }

  after_answer-Places :
      (c : Conn) (s : Shared) (wire : List ℕ) (recvs : List RecvAnswer) (sends : List SendAnswer)
      → Unmoved c0 s0 c s
      → Places c0 s0 (after_answer env conf c s wire recvs sends)
  unfolding after_answer
  after_answer-Places c s wire recvs sends v = by_role c.role
    where
      opened : Conn
      opened = record c { state = st_ws_open; msg_utf8 = utf8_reset }

      frames : Places c0 s0 (handle_ws_open env conf opened s wire recvs sends)
      frames = handle_ws_open-Places c0 s0 env conf opened s wire recvs sends (ground arith)

      by_role :
          (r : Role)
          → Places c0 s0 (elim r [
            | role_sink ↦ hand_to_aggregator env conf c s wire
            | _ ↦ handle_ws_open env conf opened s wire recvs sends
          ])
      by_role role_sink = hand_to_aggregator-Places c s wire v
      by_role role_source = frames
      by_role role_undecided = frames

  pub handle_handshake_send-Places :
      (c : Conn) (s : Shared) (wire : List ℕ) (recvs : List RecvAnswer) (sends : List SendAnswer)
      → Unmoved c0 s0 c s
      → Places c0 s0 (handle_handshake_send env conf c s wire recvs sends)
  unfolding handle_handshake_send
  handle_handshake_send-Places c s wire recvs sends v = by_answer r.rc c.close_after_send
    where
      r : Sent
      r = buf_send c.tx wire sends

      d : Conn
      d = record c { tx = r.buf }

      w : Unmoved c0 s0 d s
      w = ground arith

      by_answer :
          (rc : SendRc) (closes : Bool)
          → Places c0 s0 (elim (tx_disposition rc closes) [
            | rearm_in ↦ after_answer env conf d s r.wire recvs r.left
            | other ↦ handled other d s r.wire
          ])
      by_answer all_sent true = alone c0 s0 w
      by_answer all_sent false = after_answer-Places d s r.wire recvs r.left w
      by_answer blocked closes = w
      by_answer send_error closes = alone c0 s0 w

  answer_request-Unmoved :
      (c : Conn) (s : Shared) (hr : HandshakeResult)
      → Unmoved c0 s0 c s
      → Unmoved c0 s0 (answer_request env conf c hr) s
  unfolding answer_request
  answer_request-Unmoved c s hr v = by_status hr.status
    where
      refuses : (tx : Buf) → Unmoved c0 s0 (record c { tx = tx; close_after_send = true }) s
      refuses tx = ground arith

      by_status :
          (st : HandshakeStatus)
          → Unmoved c0 s0
              (elim st [
                | hs_ok ↦ record c {
                  tx = build_upgrade_response env.realloc c.tx hr.accept_key;
                  role = role_of env conf hr.path;
                  close_after_send = false;
                }
                | hs_bad_version ↦ record c {
                  tx =
                      build_error env.realloc c.tx Texts.code_426 Texts.reason_426
                        Texts.version_line;
                  close_after_send = true;
                }
                | _ ↦ record c {
                  tx = build_error env.realloc c.tx Texts.code_400 Texts.reason_400 [];
                  close_after_send = true;
                }
              ])
              s
      by_status hs_ok = ground arith
      by_status hs_bad_version = refuses _
      by_status hs_not_upgrade = refuses _
      by_status hs_bad_request = refuses _

  whole_request-Unmoved :
      (c : Conn) (s : Shared) (n : ℕ) (eof : Bool)
      → Unmoved c0 s0 c s
      → Unmoved c0 s0 (whole_request env conf c n eof) s
  unfolding whole_request
  whole_request-Unmoved c s n eof v =
      let w =
        answer_request-Unmoved (record c { rx = buf_consume c.rx n }) s
          (parse_handshake (take n (content c.rx))) (ground arith) in
      record {
        same_id = w.same_id;
        same_watched = w.same_watched;
        same_epollfd = w.same_epollfd;
        same_park = w.same_park;
        same_ctrl = w.same_ctrl;
      }

  read_request-Places :
      (c : Conn) (s : Shared) (wire : List ℕ) (eof : Bool) (recvs : List RecvAnswer)
      (sends : List SendAnswer)
      → Unmoved c0 s0 c s
      → Places c0 s0 (read_request env conf c s wire eof recvs sends)
  unfolding read_request
  read_request-Places c s wire eof recvs sends v = by_end (find_header_end (content c.rx)) eof
    where
      by_end :
          (o : Option ℕ) (b : Bool)
          → Places c0 s0 (elim o [
            | none ↦ handled (if b then disp_close else rearm_in) c s wire
            | some i ↦
                handle_handshake_send env conf
                  (whole_request env conf c (i + 4) b)
                  s
                  wire
                  recvs
                  sends
          ])
      by_end none true = alone c0 s0 v
      by_end none false = v
      by_end (some i) b =
          handle_handshake_send-Places _ s wire recvs sends (whole_request-Unmoved c s (i + 4) b v)

  pub handle_handshake_read-Places :
      (c : Conn) (s : Shared) (wire : List ℕ) (recvs : List RecvAnswer) (sends : List SendAnswer)
      → Unmoved c0 s0 c s
      → Places c0 s0 (handle_handshake_read env conf c s wire recvs sends)
  unfolding handle_handshake_read
  handle_handshake_read-Places c s wire recvs sends v = by_rc r.rc
    where
      r : Received
      r = buf_recv env.realloc c.rx 4096 conf.handshake_max recvs

      d : Conn
      d = record c { rx = r.buf }

      full : Conn
      full = record d {
        tx = build_error env.realloc c.tx Texts.code_431 Texts.reason_431 [];
        close_after_send = true;
        state = st_handshake_send;
      }

      w : Unmoved c0 s0 d s
      w = ground arith

      by_rc :
          (rc : RecvRc)
          → Places c0 s0 (elim rc [
            | closed ↦ handled disp_close d s wire
            | too_big ↦ handle_handshake_send env conf full s wire r.left sends
            | again ↦ handled rearm_in d s wire
            | got ↦ read_request env conf d s wire false r.left sends
            | got_eof ↦ read_request env conf d s wire true r.left sends
          ])
      by_rc closed = alone c0 s0 w
      by_rc too_big = handle_handshake_send-Places full s wire r.left sends (ground arith)
      by_rc again = w
      by_rc got = read_request-Places d s wire false r.left sends w
      by_rc got_eof = read_request-Places d s wire true r.left sends w
