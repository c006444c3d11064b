-- ===== src/Worker/Thread/Placed.antt =====
-- What has become of a connection after a round of `workerThread` of src/worker.c in which no other
-- thread runs.
use ws_server.Base.{
  ℕ, ◌+◌, ◌%◌, ◌^◌, ◌≡◌, refl, ◌∙◌, ◌⊎◌, inl, inr, bit_or, true, Option, none, some, List, [], ◌∷◌,
  ◌++◌, arith,
}
use ws_server.Buffer.Socket.{RecvAnswer, SendAnswer}
use ws_server.Conn.{Conn, ConnState, st_handshake_read, st_handshake_send, st_ws_open}
use ws_server.Worker.{
  Config, Shared, Env, Disposition, rearm_in, rearm_out, rearm_inout, disp_close, parked, handoff,
  epollin, epollout, edge_once, rearm_epoll, apply_disposition,
}
use ws_server.Worker.Frames.{handle_ws_open}
use ws_server.Worker.Frames.Moves.{Unmoved, IsParked, IsHanded, At, Places, handle_ws_open-Places}
use ws_server.Worker.Handshake.{handle_handshake_read, handle_handshake_send}
use ws_server.Worker.Handshake.Placing.{handle_handshake_send-Places, handle_handshake_read-Places}
use ws_server.Worker.Thread.{Job, Done, handle_state, worker_round}

module _ (c0 : Conn) (s0 : Shared) where
  -- The epoll of the workers has it, for reading or for writing, once.
  pub record IsArmed (c : Conn) (s : Shared) : Type 0 where
    pub unmoved : Unmoved c0 s0 c s
    pub armed :
        (events : ℕ) × (c.interest ≡ bit_or events edge_once)
        × ((events ≡ epollin) ⊎ ((events ≡ epollout) ⊎ (events ≡ bit_or epollin epollout)))

  -- What has become of the connection: it is closed, or in one place of three.
  abbrev pub IsPlaced : Option Conn → Shared → Type 0
  IsPlaced none s = (s.park_list ≡ s0.park_list) × (s.ctrl_queue ≡ s0.ctrl_queue)
  IsPlaced (some c) s = IsArmed c s ⊎ (IsParked c0 s0 c s ⊎ IsHanded c0 s0 c s)

  rearm-IsArmed :
      (c : Conn) (s : Shared) (events : ℕ)
      → c0.watched ≡ true
      → Unmoved c0 s0 c s
      → (events ≡ epollin) ⊎ ((events ≡ epollout) ⊎ (events ≡ bit_or epollin epollout))
      → IsArmed (rearm_epoll c events) s
  unfolding rearm_epoll
  rearm-IsArmed c s events on v which =
      let watched : c.watched ≡ true = v.same_watched ∙ on in
      let is : rearm_epoll c events ≡ record c { interest = bit_or events edge_once } =
        ground arith in
      rw is (record {
        unmoved = record {
          same_id = v.same_id;
          same_watched = v.same_watched;
          same_epollfd = v.same_epollfd;
          same_park = v.same_park;
          same_ctrl = v.same_ctrl;
        };
        armed = (events, refl, which);
      })

  apply_disposition-IsPlaced :
      (d : Disposition) (c : Conn) (s : Shared)
      → c0.watched ≡ true
      → At c0 s0 d c s
      → IsPlaced (apply_disposition c d) s
  unfolding apply_disposition
  apply_disposition-IsPlaced rearm_in c s on v = inl (rearm-IsArmed c s epollin on v (inl refl))
  apply_disposition-IsPlaced rearm_out c s on v =
      inl (rearm-IsArmed c s epollout on v (inr (inl refl)))
  apply_disposition-IsPlaced rearm_inout c s on v =
      inl (rearm-IsArmed c s (bit_or epollin epollout) on v (inr (inr refl)))
  apply_disposition-IsPlaced disp_close c s on v = (v.same_park, v.same_ctrl)
  apply_disposition-IsPlaced parked c s on v = inr (inl v)
  apply_disposition-IsPlaced handoff c s on v = inr (inr v)

itself : (c : Conn) (s : Shared) → Unmoved c s c s
itself c s = record {
  same_id = refl;
  same_watched = refl;
  same_epollfd = refl;
  same_park = refl;
  same_ctrl = refl;
}

handle_state-Places :
    (env : Env) (conf : Config) (c : Conn) (s : Shared) (recvs : List RecvAnswer)
    (sends : List SendAnswer)
    → Places c s (handle_state env conf c s recvs sends)
unfolding handle_state
handle_state-Places env conf c s recvs sends = by_state c.state
  where
    by_state :
        (st : ConnState)
        → Places c s (elim st [
          | st_handshake_read ↦ handle_handshake_read env conf c s [] recvs sends
          | st_handshake_send ↦ handle_handshake_send env conf c s [] recvs sends
          | st_ws_open ↦ handle_ws_open env conf c s [] recvs sends
        ])
    by_state st_handshake_read =
        handle_handshake_read-Places c s env conf c s [] recvs sends (itself c s)
    by_state st_handshake_send =
        handle_handshake_send-Places c s env conf c s [] recvs sends (itself c s)
    by_state st_ws_open = handle_ws_open-Places c s env conf c s [] recvs sends (itself c s)

-- A round of `workerThread` alone, during which no other thread changes the connection, the park list
-- or the queues, so that the aggregator does not resume the connection between the `parkListPush` and
-- the EPOLL_CTL_DEL of `handleWsOpen`. In whatever state a connection that is in the epoll of the
-- workers comes from the queue, whatever its peer sends and its socket takes, and whatever memory there
-- is: after the round it is closed, with the park list and the control queue as they were; or it is armed again in
-- that epoll, for reading, writing or both, with these as they were; or it is last in the park list,
-- with a message that waits, and in no epoll; or it is in no epoll and the control queue has one
-- message more, that it is the new sink. Its id is the same, and the round is counted.
pub worker_round-IsPlaced :
    (env : Env) (conf : Config) (j : Job) (d : Done)
    → j.conn.watched ≡ true
    → (left : Option Conn) × ((worker_round env conf j d).left ≡ d.left ++ left ∷ [])
      × IsPlaced j.conn d.shared left (worker_round env conf j d).shared
      × ((worker_round env conf j d).total_requests ≡ (d.total_requests + 1) % 2 ^ 64)
unfolding worker_round
worker_round-IsPlaced env conf j d on =
    let r = handle_state env conf j.conn d.shared j.recvs j.sends in
    (
      apply_disposition r.conn r.disp,
      refl,
      apply_disposition-IsPlaced j.conn d.shared r.disp r.conn r.shared on
          (handle_state-Places env conf j.conn d.shared j.recvs j.sends),
      refl,
    )
