-- ===== src/Upstream/Runs.antt =====
-- The theorems on the clients of src/ws_client.c at concrete frames and responses.
use ws_server.Base.{
  ℕ, ◌≡◌, refl, true, false, some, List, [], ◌∷◌, ◌++◌, length, take, take_all, ◌-◌, arith,
}
use ws_server.Buffer.{Buf, buf_len, buf_data}
use ws_server.Buffer.Laws.{IsBuf, content}
use ws_server.Http.{upgrade_text}
use ws_server.Http.Texts
use ws_server.Base64.{
  base64_encode, checked_len, decode_char, all_sextets, is_sextet, all_pads, count_pads,
}
use ws_server.Sha1.{sha1}
use ws_server.Ws.Accept.{compute_accept, decodes_to_16}
use ws_server.Upstream.Reactor.{handle_upstream_event}
use ws_server.Upstream.Reactor.Sound.{IsSound, handle_upstream_event-IsSound}
use ws_server.Upstream.Handshake.Pair.{process_handshake_response-upgrade_text}
use ws_server.Agg.Message.{no_time}
use ws_server.Worker.{Config, Env}
use ws_server.Worker.Frames.Invariant.{IsGathered}
use ws_server.Upstream.Client.{UpstreamClient, Link, new_client, upstream_open, upstream_handshake}
use ws_server.Upstream.Frames.{process_buffered_frames}
use ws_server.Upstream.Frames.Safety.{as_conn, IsLinkSafe, RoundIs}
use ws_server.Upstream.Frames.Outcome.{process_buffered_frames-IsLinkSafe}
use ws_server.Upstream.Frames.Loop.{AtRest, process_buffered_frames-AtRest}
use ws_server.Upstream.Handshake.{process_handshake_response}

abbrev env : Env
env = record { malloc = λ n. true; realloc = λ n. true; now = no_time }

abbrev conf : Config
conf = record {
  sink_path = [];
  handshake_max = 4096;
  max_frame = 1024;
  max_message = 2048;
  high_watermark = 4;
}

-- "a.b", port 80, path "/".
abbrev fresh : UpstreamClient
fresh = new_client 7 (97 ∷ 46 ∷ 98 ∷ []) 80 (47 ∷ [])

-- A text frame "hi", and the first byte of another.
abbrev frames : List ℕ
frames = 129 ∷ 2 ∷ 104 ∷ 105 ∷ 129 ∷ []

abbrev filled : List ℕ → Buf
filled xs = record { p = xs; cap = length xs; len = length xs; off = 0 }

abbrev reading : Link
reading = record {
  client = record fresh { fd = some 4; state = upstream_open; rx = filled frames };
  queue = [];
  draws = [];
}

frames-IsBuf : IsBuf (filled frames)
frames-IsBuf = record { in_order = omega arith; written = omega arith; within = omega arith }

fresh-IsGathered : IsGathered conf (as_conn reading.client)
unfolding new_client content buf_len
fresh-IsGathered = record {
  valid = record { in_order = omega arith; written = omega arith; within = omega arith };
  front = refl;
  fits = omega arith;
  seen = λ e. cc;
}

process_buffered_frames-IsLinkSafe_example :
    RoundIs (IsLinkSafe conf reading) (process_buffered_frames env conf reading)
process_buffered_frames-IsLinkSafe_example =
    process_buffered_frames-IsLinkSafe env conf reading (λ n. refl) (omega arith) fresh-IsGathered

process_buffered_frames-AtRest_example : AtRest env conf (process_buffered_frames env conf reading)
process_buffered_frames-AtRest_example =
    process_buffered_frames-AtRest env conf reading frames-IsBuf

-- The answer to the key of the RFC: "s3pPLMBiTxaQ9kYGzzhZRbK+xOo=".
abbrev accept : List ℕ
accept =
    115 ∷ 51 ∷ 112 ∷ 80 ∷ 76 ∷ 77 ∷ 66 ∷ 105 ∷ 84 ∷ 120 ∷ 97 ∷ 81 ∷ 57 ∷ 107 ∷ 89 ∷ 71 ∷ 122 ∷ 122
    ∷ 104 ∷ 90 ∷ 82 ∷ 98 ∷ 75 ∷ 43 ∷ 120 ∷ 79 ∷ 111 ∷ 61 ∷ []

abbrev response : List ℕ
response = Texts.switching ++ (accept ++ Texts.blank_line)

abbrev waiting : UpstreamClient
waiting = record fresh {
  fd = some 4;
  state = upstream_handshake;
  expected_accept = accept;
  rx = filled response;
}

-- "dGhlIHNhbXBsZSBub25jZQ==", its answer, and the first byte of a frame behind.
abbrev key : List ℕ
key =
    100 ∷ 71 ∷ 104 ∷ 108 ∷ 73 ∷ 72 ∷ 78 ∷ 104 ∷ 98 ∷ 88 ∷ 66 ∷ 115 ∷ 90 ∷ 83 ∷ 66 ∷ 117 ∷ 98 ∷ 50
    ∷ 53 ∷ 106 ∷ 90 ∷ 81 ∷ 61 ∷ 61 ∷ []

abbrev answer_to_key : List ℕ
answer_to_key = base64_encode (sha1 (take 24 key ++ Texts.magic))

key_answered : compute_accept key ≡ some answer_to_key
unfolding compute_accept decodes_to_16 checked_len decode_char all_sextets is_sextet all_pads
    count_pads
key_answered = refl

abbrev answered_bytes : List ℕ
answered_bytes = upgrade_text answer_to_key ++ 129 ∷ []

abbrev answered_client : UpstreamClient
answered_client = record fresh {
  fd = some 4;
  state = upstream_handshake;
  expected_accept = answer_to_key;
  rx = filled answered_bytes;
}

answered-IsBuf : IsBuf answered_client.rx
answered-IsBuf = record { in_order = omega arith; written = omega arith; within = omega arith }

answered_content : content answered_client.rx ≡ answered_bytes
unfolding content buf_data buf_len
answered_content = take_all (length answered_bytes - 0) answered_bytes (omega arith)

process_handshake_response-upgrade_text_example :
    (let r = process_handshake_response conf answered_client in
      (r.1 ≡ true) × (r.0.state ≡ upstream_open) × (content r.0.rx ≡ 129 ∷ []))
unfolding new_client
process_handshake_response-upgrade_text_example =
    process_handshake_response-upgrade_text conf answered_client 4 key answer_to_key (129 ∷ [])
      answered-IsBuf refl key_answered refl answered_content refl

-- The upstream server closes behind the frames.
handle_upstream_event-IsSound_example :
    IsSound
      (handle_upstream_event env conf false false true true false 500 reading [] [] []).0.client
handle_upstream_event-IsSound_example =
    handle_upstream_event-IsSound env conf false false true true false 500 reading [] [] []
      (λ e. cc, λ e. cc)
