-- ===== src/Worker/Thread.antt =====
-- `workerThread` of src/worker.c: connections from the queue, one after another, each given to the
-- handler of its state and then placed by `applyDisposition`.
pub mod Placed
mod Examples
use ws_server.Base.{ℕ, ◌+◌, ◌%◌, ◌^◌, Option, List, [], ◌∷◌, ◌++◌}
use ws_server.Buffer.Socket.{RecvAnswer, SendAnswer}
use ws_server.Conn.{Conn, st_handshake_read, st_handshake_send, st_ws_open}
use ws_server.Worker.{Config, Shared, Env, Handled, apply_disposition}
use ws_server.Worker.Frames.{handle_ws_open}
use ws_server.Worker.Handshake.{handle_handshake_read, handle_handshake_send}

-- A connection from the queue, with what its socket is going to answer.
pub record Job : Type 0 where
  pub conn : Conn
  pub recvs : List RecvAnswer
  pub sends : List SendAnswer

-- What the thread leaves behind: `total_requests`, and each connection as `applyDisposition` left
-- it, `none` where it was closed.
pub record Done : Type 0 where
  pub shared : Shared
  pub total_requests : ℕ
  pub left : List (Option Conn)

module _ (env : Env) (conf : Config) where
  -- The `switch` over the state.
  unfoldable pub handle_state : Conn → Shared → List RecvAnswer → List SendAnswer → Handled
  handle_state c s recvs sends = elim c.state [
    | st_handshake_read ↦ handle_handshake_read env conf c s [] recvs sends
    | st_handshake_send ↦ handle_handshake_send env conf c s [] recvs sends
    | st_ws_open ↦ handle_ws_open env conf c s [] recvs sends
  ]

  -- One round of the loop.
  unfoldable pub worker_round : Job → Done → Done
  worker_round j d =
      let r = handle_state j.conn d.shared j.recvs j.sends in
      record {
        shared = r.shared;
        total_requests = (d.total_requests + 1) % 2 ^ 64;
        left = d.left ++ apply_disposition r.conn r.disp ∷ [];
      }

  -- The loop, until `pop` says that the queue is shut down and empty.
  unfoldable pub worker_thread : List Job → Done → Done
  worker_thread [] d = d
  worker_thread (j ∷ jobs) d = worker_thread jobs (worker_round j d)
