-- ===== src/Worker/Thread/Examples.antt =====
-- A round of `workerThread` of src/worker.c.
use ws_server.Base.{◌%◌, ◌^◌, ◌≡◌, refl, true, Option, [], ◌∷◌}
use ws_server.Buffer.Socket.{bytes}
use ws_server.Conn.{Conn}
use ws_server.Worker.Frames.Examples.{env, conf, open_conn, hi_frame, idle}
use ws_server.Worker.Thread.{Job, Done, worker_round}
use ws_server.Worker.Thread.Placed.{IsPlaced, worker_round-IsPlaced}

-- The peer of an open connection sends a text.
abbrev job : Job
job = record { conn = record open_conn { watched = true }; recvs = bytes hi_frame ∷ []; sends = [] }

abbrev start : Done
start = record { shared = idle; total_requests = 41; left = [] }

worker_round-IsPlaced_example :
    (left : Option Conn) × ((worker_round env conf job start).left ≡ left ∷ [])
    × IsPlaced job.conn idle left (worker_round env conf job start).shared
    × ((worker_round env conf job start).total_requests ≡ 42 % 2 ^ 64)
worker_round-IsPlaced_example = worker_round-IsPlaced env conf job start refl
