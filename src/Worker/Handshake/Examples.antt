-- ===== src/Worker/Handshake/Examples.antt =====
-- A run of `handleHandshakeRead` of src/worker.c: the sink of RFC 6455's sample request is handed over.
use ws_server.Base.{refl, true, false, none, some, [], ◌∷◌, inr}
use ws_server.Conn.{Conn, role_undecided, st_handshake_read}
use ws_server.Buffer.{no_buf}
use ws_server.Ws.Utf8.{utf8_reset}
use ws_server.Buffer.Socket.{bytes, takes}
use ws_server.Worker.{Config, Shared, Env}
use ws_server.Http.Examples.{request, feed_path}
use ws_server.Worker.Handshake.Upgrade.{Upgraded, HasRequest, handle_handshake_read-Upgraded}
use ws_server.Buffer.{
  buf_reserve, buf_grow, grow, buf_append, buf_write, buf_consume, buf_compact, buf_data, buf_len,
}
use ws_server.Buffer.Socket.{recv_loop, after_recv, calls, buf_recv, buf_send, sent}
use ws_server.Http.{
  find_header_end, find_header, find_crlf, find_in_lines, same_name, fold_case, skip_spaces,
  trim_end, skip_separators, until, has_token, header_has_token, same_bytes, parse_headers,
  parse_handshake, upgrade_text, build_upgrade_response,
}
use ws_server.Ws.Accept.{compute_accept, decodes_to_16}
use ws_server.Base64.{
  checked_len, count_pads, all_sextets, is_sextet, decode_char, all_pads, base64_encode, sextet,
  enc_table,
}
use ws_server.Sha1.{
  sha1, sha1_final, sha1_update, absorb, absorb_rest, sha1_block, add_words, rounds, round, round_k,
  round_f, not32, schedule, block_words, rotl32, zeroes, be_word, be_length,
}
use ws_server.Buffer.Laws.{content}
use ws_server.Agg.Message.{msg_new_sink_add}
use ws_server.Worker.Handshake.{
  handle_handshake_read, read_request, whole_request, answer_request, role_of,
  handle_handshake_send, after_answer, hand_to_aggregator,
}

abbrev env : Env
env = record { malloc = λ n. true; realloc = λ n. true; now = record { sec = 0; nsec = 0 } }

abbrev conf : Config
conf = record {
  sink_path = feed_path;
  handshake_max = 8192;
  max_frame = 65536;
  max_message = 4194304;
  high_watermark = 256;
}

abbrev fresh : Conn
fresh = record {
  fd = 9;
  epollfd = some 3;
  id = 5;
  role = role_undecided;
  state = st_handshake_read;
  close_after_send = false;
  rx = no_buf;
  tx = no_buf;
  msg = no_buf;
  msg_opcode = 0;
  fragmenting = false;
  msg_utf8 = utf8_reset;
  pending_msg = none;
  watched = true;
  interest = 0;
}

abbrev idle : Shared
idle = record { data_queue = []; ctrl_queue = []; park_list = [] }

handed_over :
    Upgraded (handle_handshake_read env conf fresh idle [] (bytes request ∷ []) (takes 1000 ∷ []))
unfolding Upgraded buf_reserve buf_grow grow buf_append buf_write buf_consume buf_compact buf_data
    buf_len recv_loop after_recv calls buf_recv buf_send sent find_header_end find_header find_crlf
    find_in_lines same_name fold_case skip_spaces trim_end skip_separators until has_token
    header_has_token same_bytes parse_headers parse_handshake upgrade_text build_upgrade_response
    compute_accept decodes_to_16 checked_len count_pads all_sextets is_sextet decode_char all_pads
    base64_encode sextet enc_table sha1 sha1_final sha1_update absorb absorb_rest sha1_block
    add_words rounds round round_k round_f not32 schedule block_words rotl32 zeroes be_word
    be_length content msg_new_sink_add handle_handshake_read read_request whole_request
    answer_request role_of handle_handshake_send after_answer hand_to_aggregator
handed_over = inr refl

handle_handshake_read-Upgraded_example :
    HasRequest
      (content (buf_recv env.realloc fresh.rx 4096 conf.handshake_max (bytes request ∷ [])).buf)
handle_handshake_read-Upgraded_example =
    handle_handshake_read-Upgraded env conf fresh idle [] (bytes request ∷ []) (takes 1000 ∷ [])
      refl handed_over
