-- ===== src/Worker/Frames/Invariant.antt =====
-- What is kept true of a connection while its frames are read.
use ws_server.Base.{
  ℕ, ◌/◌, ◌%◌, ◌^◌, ◌≤◌, ◌≡◌, refl, ◌∙◌, ◌⊎◌, true, Option, none, some, List, [], ◌∷◌, ◌++◌, length,
  All, arith,
}
use ws_server.Buffer.Laws.{IsBuf, content}
use ws_server.Ws.Utf8.{utf8_reset, utf8_feed}
use ws_server.Ws.Utf8.Unicode.{IsText}
use ws_server.Agg.Message.{Msg, msg_data, frame_new, op_text, op_close}
use ws_server.Conn.{Conn}
use ws_server.Worker.{Config, Shared, Env, append_frame, send_close_and_mark}

-- A message that may leave: from this source, within the limit, and a text if it says so.
pub record IsMessage (conf : Config) (src_id : ℕ) (m : Msg) : Type 0 where
  pub kind : m.kind ≡ msg_data
  pub src : m.src_id ≡ src_id
  pub fits : length m.payload ≤ conf.max_message
  pub text : m.opcode ≡ op_text → IsText m.payload

-- The message that is being gathered, while one is open: the validator has seen what is in `msg`.
pub record IsGathered (conf : Config) (c : Conn) : Type 0 where
  pub valid : IsBuf c.msg
  pub front : c.msg.off ≡ 0
  pub fits : length (content c.msg) ≤ conf.max_message
  pub seen :
      c.fragmenting ≡ true
      → c.msg_opcode ≡ op_text
      → utf8_feed utf8_reset (content c.msg) ≡ some c.msg_utf8

-- What a connection leaves behind: the queue has grown by sound messages only, and the message
-- that waits while the connection is parked is sound too.
pub record IsSafe (conf : Config) (c0 c : Conn) (s0 s : Shared) : Type 0 where
  pub gathered : IsGathered conf c
  pub sent : List Msg
  pub grown : s.data_queue ≡ s0.data_queue ++ sent
  pub sound : All (IsMessage conf c0.id) sent
  pub same_id : c.id ≡ c0.id
  pub waiting :
      (m : Msg) → c.pending_msg ≡ some m → (c0.pending_msg ≡ some m) ⊎ IsMessage conf c0.id m

-- `d` differs from `c` in other fields than these.
pub record Untouched (c d : Conn) : Type 0 where
  pub msg : d.msg ≡ c.msg
  pub opcode : d.msg_opcode ≡ c.msg_opcode
  pub fragmenting : d.fragmenting ≡ c.fragmenting
  pub utf8 : d.msg_utf8 ≡ c.msg_utf8
  pub id : d.id ≡ c.id
  pub pending : d.pending_msg ≡ c.pending_msg

module _ (conf : Config) {c d : Conn} (u : Untouched c d) where
  pub IsGathered-Untouched : IsGathered conf c → IsGathered conf d
  IsGathered-Untouched g = record {
    valid = rw u.msg g.valid;
    front = rw u.msg g.front;
    fits = rw u.msg g.fits;
    seen = rw (u.fragmenting, u.opcode, u.msg, u.utf8) g.seen;
  }

  pub IsSafe-Untouched : {c0 : Conn} {s0 s : Shared} → IsSafe conf c0 c s0 s → IsSafe conf c0 d s0 s
  IsSafe-Untouched v = record {
    gathered = IsGathered-Untouched v.gathered;
    sent = v.sent;
    grown = v.grown;
    sound = v.sound;
    same_id = u.id ∙ v.same_id;
    waiting = rw u.pending v.waiting;
  }

pub append_frame-Untouched :
    (env : Env) (c : Conn) (f : Option (List ℕ)) → Untouched c (append_frame env c f)
unfolding append_frame
append_frame-Untouched env c none = record {
  msg = refl;
  opcode = refl;
  fragmenting = refl;
  utf8 = refl;
  id = refl;
  pending = refl;
}
append_frame-Untouched env c (some f) = record {
  msg = refl;
  opcode = refl;
  fragmenting = refl;
  utf8 = refl;
  id = refl;
  pending = refl;
}

pub send_close-Untouched :
    (env : Env) (c : Conn) (code : ℕ) → Untouched c (send_close_and_mark env c code)
unfolding send_close_and_mark
send_close-Untouched env c code =
    let f = frame_new env.malloc op_close ((code / 2 ^ 8 % 256) ∷ (code % 256) ∷ []) in
    let u = append_frame-Untouched env c f in ground arith
