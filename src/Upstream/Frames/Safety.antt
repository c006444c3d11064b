-- ===== src/Upstream/Frames/Safety.antt =====
-- Whatever an upstream server sends, src/ws_client.c passes on only sound messages.
use ws_server.Base.{
  ℕ, ◌+◌, ◌-◌, ◌^◌, ◌≤◌, ◌<◌, ◌≡◌, refl, ap, sym, ◌∙◌, inl, inr, Bool, true, false, not, ◌&&◌, ◌||◌,
  Option, none, some, List, [], ltb, leb, ◌==◌, length, drop, length-take, Bool-cases, Option-cases,
  arith,
}
use mathlib.Core.Path.{subst}
use ws_server.Buffer.{no_buf, buf_data, buf_len, buf_consume, buf_append}
use ws_server.Buffer.Laws.{content, length-content}
use ws_server.Ws.Header.{FrameHdr}
use ws_server.Ws.Utf8.{Utf8St, utf8_feed, utf8_done}
use ws_server.Agg.Message.{Msg, msg_new_data, op_text, op_close}
use ws_server.Conn.{Conn, role_source, st_ws_open}
use ws_server.Worker.{Config, Shared, Env}
use ws_server.Worker.Frames.Invariant.{IsMessage, IsGathered, IsSafe}
use ws_server.Worker.Frames.Gathering.{
  message_waits, message_joins, made_IsMessage, gathering_ends, gathering_empties, payload_joins,
}
use ws_server.Worker.Frames.Outcome.{nothing_fed}
use ws_server.Upstream.{queue_masked_frame}
use ws_server.Upstream.Client.{
  UpstreamClient, Link, draw, update_events, send_frame, begin_close, upstream_closing,
}
use ws_server.Upstream.Frames.Advance.{update_events-changes}
use ws_server.Upstream.Frames.{
  LinkRound, stop, fails, paused, go_on, with_client, frame_payload, skip_frame, returned,
  reject_with, publish_message, publish_reactor_message, reset_message, behind_publish,
  message_complete, join_payload, take_payload,
}

-- The part of a client that gathers messages, as that of a connection of the server.
abbrev pub as_conn : UpstreamClient → Conn
as_conn c = record {
  fd = 0;
  epollfd = none;
  id = c.id;
  role = role_source;
  state = st_ws_open;
  close_after_send = false;
  rx = no_buf;
  tx = no_buf;
  msg = c.msg;
  msg_opcode = c.msg_opcode;
  fragmenting = c.fragmenting;
  msg_utf8 = c.msg_utf8;
  pending_msg = c.pending_msg;
  watched = false;
  interest = 0;
}

abbrev pub as_shared : List Msg → Shared
as_shared queue = record { data_queue = queue; ctrl_queue = []; park_list = [] }

-- The queue has grown by sound messages only, and what is gathered or waits is sound.
abbrev pub IsLinkSafe : Config → Link → Link → Type 0
IsLinkSafe conf k0 k =
    IsSafe conf (as_conn k0.client) (as_conn k.client) (as_shared k0.queue) (as_shared k.queue)

-- `j` gathers what `k` gathers.
abbrev pub Same : Link → Link → Type 0
Same k j = (as_conn j.client ≡ as_conn k.client) × (j.queue ≡ k.queue)

update_events-as_conn : (c : UpstreamClient) → as_conn (update_events c).0 ≡ as_conn c
update_events-as_conn c = let (i, m, is) = update_events-changes c in ap as_conn is

pub send_frame-Same :
    (env : Env) (k : Link) (opcode : ℕ) (payload : List ℕ)
    → Same k (send_frame env k opcode payload).0
unfolding send_frame
send_frame-Same env k opcode payload =
    let r = queue_masked_frame env.malloc env.realloc (draw k.draws).0 k.client.tx opcode payload in
    elim (Bool-cases r.1) [
      | inl goes ↦
          rw (send_frame, goes) (update_events-as_conn (record k.client { tx = r.0 }), refl)
      | inr stops ↦ rw (send_frame, stops) (refl, refl)
    ]

-- A statement of the link, whichever way a round ends.
abbrev pub RoundIs : (Link → Type 0) → LinkRound → Type 0
RoundIs P (stop k) = P k
RoundIs P (fails k) = P k
RoundIs P (paused k) = P k
RoundIs P (go_on k) = P k

module _ (env : Env) (conf : Config) (gives : (n : ℕ) → env.realloc n ≡ true)
    (limit : conf.max_message < 2 ^ 63) (k0 : Link) where
  abbrev Safe : Link → Type 0
  Safe k =
      IsSafe conf (as_conn k0.client) (as_conn k.client) (as_shared k0.queue) (as_shared k.queue)

  pub Same-Safe : (k j : Link) → Same k j → Safe k → Safe j
  Same-Safe k j (same_conn, same_queue) v =
      subst
        (λ q. IsSafe conf (as_conn k0.client) (as_conn j.client) (as_shared k0.queue) (as_shared q))
        (sym same_queue)
        (subst (λ c. IsSafe conf (as_conn k0.client) c (as_shared k0.queue) (as_shared k.queue))
          (sym same_conn) v)

  pub returned-Safe : (r : Link × Bool) → Safe r.0 → RoundIs Safe (returned r)
  unfolding returned
  returned-Safe (k, true) v = v
  returned-Safe (k, false) v = v

  pub sends-Safe :
      (k : Link) (opcode : ℕ) (payload : List ℕ) → Safe k → Safe (send_frame env k opcode payload).0
  sends-Safe k opcode payload v =
      Same-Safe k (send_frame env k opcode payload).0 (send_frame-Same env k opcode payload) v

  pub reject_with-Safe : (k : Link) (code : ℕ) → Safe k → RoundIs Safe (reject_with env conf k code)
  unfolding reject_with begin_close
  reject_with-Safe k code v =
      returned-Safe _ (
        sends-Safe (record k { client = record k.client { state = upstream_closing } }) op_close _
          v)

  -- A message that could not wait is forgotten.
  forgets-Safe :
      (k : Link)
      → Safe k
      → Safe (with_client k (record k.client { pending_msg = none; read_paused = false }))
  unfolding with_client
  forgets-Safe k v =
      let g : IsGathered conf (as_conn k.client) = v.gathered in
      record {
        gathered = record { valid = g.valid; front = g.front; fits = g.fits; seen = g.seen };
        sent = v.sent;
        grown = v.grown;
        sound = v.sound;
        same_id = v.same_id;
        waiting = λ m e. cc;
      }

  -- While nothing is gathered.
  abbrev Shut : Link → Type 0
  Shut k = Safe k × (k.client.fragmenting ≡ false)

  publish_message-Safe :
      (k : Link) (m : Msg)
      → Shut k
      → IsMessage conf k0.client.id m
      → RoundIs Shut (publish_message env conf k m)
  unfolding publish_message with_client
  publish_message-Safe k m (v, shut) good =
      let c = record k.client { pending_msg = some m; read_paused = true } in
      let d = (update_events c).0 in
      let waits : Safe (record k { client = c }) =
        message_waits env conf gives (omega arith) (as_conn k0.client) (as_shared k0.queue)
          (as_conn k.client) (as_shared k.queue) m [] v good in
      let told : Safe (record k { client = d }) =
        Same-Safe (record k { client = c }) (record k { client = d })
          (update_events-as_conn c, refl) waits in
      let still : d.fragmenting ≡ false =
        ap (λ (x : Conn). x.fragmenting) (update_events-as_conn c) ∙ shut in
      elim (Bool-cases (leb conf.high_watermark (length k.queue))) [
        | inr free ↦ rw free (
          message_joins env conf gives (omega arith) (as_conn k0.client) (as_shared k0.queue)
              (as_conn k.client) (as_shared k.queue) m v good,
          shut,
        )
        | inl full ↦ rw full (elim (Bool-cases (update_events c).1) [
          | inl watched ↦ rw watched (told, still)
          | inr lost ↦ rw lost (forgets-Safe (record k { client = d }) told, still)
        ])
      ]

  publish-Safe :
      (k : Link) (m : Option Msg)
      → Shut k
      → ((x : Msg) → m ≡ some x → IsMessage conf k0.client.id x)
      → RoundIs Shut (publish_reactor_message env conf k m)
  unfolding publish_reactor_message
  publish-Safe k none v good = v
  publish-Safe k (some m) v good = publish_message-Safe k m v (good m refl)

  reset-Safe : (k : Link) → Shut k → Safe (reset_message env conf k)
  unfolding reset_message with_client
  reset-Safe k (v, shut) =
      gathering_empties env conf gives (omega arith) (as_conn k0.client) (as_shared k0.queue)
        (as_conn k.client) (as_shared k.queue) v shut

  behind_publish-Safe : (r : LinkRound) → RoundIs Shut r → RoundIs Safe (behind_publish env conf r)
  unfolding behind_publish
  behind_publish-Safe (stop k) v = reset-Safe k v
  behind_publish-Safe (fails k) v = reset-Safe k v
  behind_publish-Safe (paused k) v = reset-Safe k v
  behind_publish-Safe (go_on k) v = reset-Safe k v

  message_complete-Safe :
      (k : Link) → Safe k → k.client.fragmenting ≡ true → RoundIs Safe (message_complete env conf k)
  unfolding message_complete with_client
  message_complete-Safe k v opened =
      let c = record k.client { fragmenting = false } in
      let ended : Safe (record k { client = c }) =
        gathering_ends env conf gives (omega arith) (as_conn k0.client) (as_shared k0.queue)
          (as_conn k.client) (as_shared k.queue) v in
      let made =
        made_IsMessage env conf gives (omega arith) (as_conn k0.client) (as_shared k0.queue)
          (as_conn k.client) (as_shared k.queue) v opened in
      elim (Bool-cases ((c.msg_opcode == op_text) && not (utf8_done c.msg_utf8))) [
        | inl cut ↦ rw cut (reject_with-Safe (record k { client = c }) 1007 ended)
        | inr done ↦
            let m = msg_new_data env.malloc env.now c.id c.msg_opcode (content c.msg) in
            rw done (
              behind_publish-Safe (publish_reactor_message env conf (record k { client = c }) m)
                (publish-Safe (record k { client = c }) m (ended, refl) (made done)))
      ]

  join_payload-Safe :
      (k : Link) (h : FrameHdr) (st : Utf8St)
      → Safe k
      → k.client.fragmenting ≡ true
      → length (content k.client.msg) + length (frame_payload k.client h) ≤ conf.max_message
      → (k.client.msg_opcode ≡ op_text
          → utf8_feed k.client.msg_utf8 (frame_payload k.client h) ≡ some st)
      → RoundIs Safe (join_payload env conf k h st)
  unfolding join_payload with_client skip_frame
  join_payload-Safe k h st v opened fits fed =
      let c = k.client in
      let payload = frame_payload c h in
      let j : Link = record k {
        client = record c {
          msg_utf8 = st;
          msg = buf_append env.realloc c.msg payload;
          rx = buf_consume c.rx (h.header_len + h.payload_len);
        };
      } in
      let joined : Safe j =
        payload_joins env conf gives (omega arith) (as_conn k0.client) (as_shared k0.queue)
          (as_conn c) (as_shared k.queue) payload st v fits fed in
      elim (Bool-cases (h.fin == 0)) [
        | inl more ↦ rw more joined
        | inr last ↦ rw last (message_complete-Safe j joined opened)
      ]

  pub take_payload-Safe :
      (k : Link) (h : FrameHdr)
      → Safe k
      → k.client.fragmenting ≡ true
      → RoundIs Safe (take_payload env conf k h)
  unfolding take_payload
  take_payload-Safe k h v opened =
      let c = k.client in
      let payload = frame_payload c h in
      let g : IsGathered conf (as_conn c) = v.gathered in
      let len : buf_len c.msg ≡ length (content c.msg) = sym (length-content c.msg g.valid) in
      let short : length payload ≤ h.payload_len =
        unfold frame_payload in
        omega (arith, length-take h.payload_len (drop h.header_len (buf_data c.rx))) in
      elim (Bool-cases (
        ltb conf.max_message (buf_len c.msg)
        || ltb (conf.max_message - buf_len c.msg) h.payload_len)) [
          | inl over ↦ rw over (reject_with-Safe k 1009 v)
          | inr within ↦
              let fits : length (content c.msg) + length payload ≤ conf.max_message =
                ground arith in
              rw within (elim (Bool-cases ((c.msg_opcode == op_text) && ltb 0 h.payload_len)) [
                | inl checked ↦ rw checked (elim (Option-cases (utf8_feed c.msg_utf8 payload)) [
                  | inl bad ↦ rw bad (reject_with-Safe k 1007 v)
                  | inr (st, fed) ↦ rw fed (join_payload-Safe k h st v opened fits (λ t. fed))
                ])
                | inr unchecked ↦ rw unchecked (
                    join_payload-Safe k h c.msg_utf8 v opened fits
                      (λ t. nothing_fed c.msg_utf8 payload (ground arith)))
              ])
        ]
