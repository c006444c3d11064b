-- ===== src/Worker/Frames/Gathering.antt =====
-- What the steps of a gathering keep true, for the handler of src/worker.c and the upstream client.
use ws_server.Base.{
  ℕ, ◌+◌, ◌^◌, ◌≤◌, ◌≡◌, refl, ap, sym, ◌∙◌, inl, inr, true, false, not, ◌&&◌, Option, some, List,
  [], ◌∷◌, ◌++◌, ◌==◌, length, All-append, length-append, append_assoc, Bool-cases, arith,
}
use ws_server.Buffer.{buf_len, buf_append, buf_reset}
use ws_server.Buffer.Laws.{content, length-content}
use ws_server.Buffer.Append.{buf_append_lem, buf_reset_lem}
use ws_server.Ws.Utf8.{Utf8St, utf8_reset, utf8_feed, utf8_done}
use ws_server.Ws.Utf8.Chunks.{then_feed, utf8_feed-append, utf8_feed_nil}
use ws_server.Ws.Utf8.Unicode.{utf8_feed-IsText_iff}
use ws_server.Agg.Message.{Msg, msg_data, msg_new_data, op_text}
use ws_server.Worker.Frames.Invariant.{IsMessage, IsGathered, IsSafe}
use ws_server.Conn.{Conn}
use ws_server.Queue.{enqueue, node_size}
use ws_server.Worker.{Config, Shared, Env}

module _ (env : Env) (conf : Config) (gives : (n : ℕ) → env.realloc n ≡ true)
    (limit : conf.max_message ≤ 2 ^ 63) (c0 : Conn) (s0 : Shared) where
  abbrev pub Safe : Conn → Shared → Type 0
  Safe c s = IsSafe conf c0 c s0 s

  -- A message waits with the connection.
  pub message_waits :
      (c : Conn) (s : Shared) (m : Msg) (parked : List ℕ)
      → Safe c s
      → IsMessage conf c0.id m
      → Safe (record c { pending_msg = some m; watched = false }) (record s { park_list = parked })
  message_waits c s m parked v good =
      let g : IsGathered conf c = v.gathered in
      let good' : (x : Msg) → some m ≡ some x → IsMessage conf c0.id x =
        λ x e. let same : x ≡ m = cc in rw same good in
      record {
        gathered = record { valid = g.valid; front = g.front; fits = g.fits; seen = g.seen };
        sent = v.sent;
        grown = v.grown;
        sound = v.sound;
        same_id = v.same_id;
        waiting = λ x e. inr (good' x e);
      }

  -- A message joins the data queue, or finds no node.
  pub message_joins :
      (c : Conn) (s : Shared) (m : Msg)
      → Safe c s
      → IsMessage conf c0.id m
      → Safe c (record s { data_queue = enqueue env.malloc s.data_queue m })
  unfolding enqueue
  message_joins c s m v good = elim (Bool-cases (env.malloc node_size)) [
    | inl node ↦ rw node (record {
      gathered = v.gathered;
      sent = v.sent ++ m ∷ [];
      grown =
          ap (λ (q : List Msg). q ++ m ∷ []) v.grown ∙ append_assoc s0.data_queue v.sent (m ∷ []);
      sound = All-append (IsMessage conf c0.id) v.sent (m ∷ []) v.sound (good, tt);
      same_id = v.same_id;
      waiting = v.waiting;
    })
    | inr no_node ↦ rw no_node (record {
      gathered = v.gathered;
      sent = v.sent;
      grown = v.grown;
      sound = v.sound;
      same_id = v.same_id;
      waiting = v.waiting;
    })
  ]

  -- The message that a complete gathering makes.
  pub made_IsMessage :
      (c : Conn) (s : Shared)
      → Safe c s
      → c.fragmenting ≡ true
      → ((c.msg_opcode == op_text) && not (utf8_done c.msg_utf8)) ≡ false
      → (x : Msg) → msg_new_data env.malloc env.now c.id c.msg_opcode (content c.msg) ≡ some x
      → IsMessage conf c0.id x
  unfolding msg_new_data
  made_IsMessage c s v is_open done x e =
      let g : IsGathered conf c = v.gathered in
      let (kind, src, op, payload) = fields in
      record {
        kind = kind;
        src = src ∙ v.same_id;
        fits = rw payload g.fits;
        text = λ t.
            let t' : c.msg_opcode ≡ op_text = sym op ∙ t in
            rw payload (
              (utf8_feed-IsText_iff (content c.msg)).0
                (c.msg_utf8, g.seen is_open t', ground arith));
      }
    where
      fields :
          (x.kind ≡ msg_data)
          × (x.src_id ≡ c.id)
          × (x.opcode ≡ c.msg_opcode)
          × (x.payload ≡ content c.msg)
      fields = ground arith

  -- The last frame of a message is there.
  pub gathering_ends :
      (c : Conn) (s : Shared) → Safe c s → Safe (record c { fragmenting = false }) s
  gathering_ends c s v =
      let g : IsGathered conf c = v.gathered in
      record {
        gathered = record { valid = g.valid; front = g.front; fits = g.fits; seen = λ e. cc };
        sent = v.sent;
        grown = v.grown;
        sound = v.sound;
        same_id = v.same_id;
        waiting = v.waiting;
      }

  -- The buffer is emptied while nothing is gathered.
  pub gathering_empties :
      (c : Conn) (s : Shared)
      → Safe c s
      → c.fragmenting ≡ false
      → Safe (record c { msg = buf_reset c.msg }) s
  gathering_empties c s v shut =
      let g : IsGathered conf c = v.gathered in
      let (empty, nothing) = buf_reset_lem c.msg g.valid in
      record {
        gathered = record {
          valid = empty;
          front = unfold buf_reset in refl;
          fits = rw nothing (omega arith);
          seen = λ e. cc;
        };
        sent = v.sent;
        grown = v.grown;
        sound = v.sound;
        same_id = v.same_id;
        waiting = v.waiting;
      }

  -- A frame begins a message.
  pub gathering_begins :
      (c : Conn) (s : Shared) (opcode : ℕ)
      → Safe c s
      → Safe
          (record c {
            msg_opcode = opcode;
            fragmenting = true;
            msg = buf_reset c.msg;
            msg_utf8 = utf8_reset;
          })
          s
  gathering_begins c s opcode v =
      let g : IsGathered conf c = v.gathered in
      let (empty, nothing) = buf_reset_lem c.msg g.valid in
      record {
        gathered = record {
          valid = empty;
          front = unfold buf_reset in refl;
          fits = rw nothing (omega arith);
          seen = λ o t. rw nothing (utf8_feed_nil utf8_reset);
        };
        sent = v.sent;
        grown = v.grown;
        sound = v.sound;
        same_id = v.same_id;
        waiting = v.waiting;
      }

  -- A payload joins the message.
  pub payload_joins :
      (c : Conn) (s : Shared) (payload : List ℕ) (st : Utf8St)
      → Safe c s
      → length (content c.msg) + length payload ≤ conf.max_message
      → (c.msg_opcode ≡ op_text → utf8_feed c.msg_utf8 payload ≡ some st)
      → Safe (record c { msg_utf8 = st; msg = buf_append env.realloc c.msg payload }) s
  payload_joins c s payload st v fits fed =
      let g : IsGathered conf c = v.gathered in
      let len : c.msg.len ≡ length (content c.msg) =
        unfold buf_len in omega (arith, length-content c.msg g.valid, g.front) in
      let (valid, joined, _, back) =
        buf_append_lem env.realloc c.msg payload gives g.valid (omega arith) in
      record {
        gathered = record {
          valid = valid;
          front = omega (arith, g.front);
          fits = omega (arith, ap length joined, length-append (content c.msg) payload);
          seen = λ o t.
              ap (utf8_feed utf8_reset) joined
              ∙ utf8_feed-append utf8_reset (content c.msg) payload
              ∙ ap (λ (r : Option Utf8St). then_feed r payload) (g.seen o t)
              ∙ fed t;
        };
        sent = v.sent;
        grown = v.grown;
        sound = v.sound;
        same_id = v.same_id;
        waiting = v.waiting;
      }
