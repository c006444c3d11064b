-- ===== src/Conn/Examples.antt =====
-- The registry of src/conn.c with three connections.
use ws_server.Base.{◌≡◌, refl, none, some, [], ◌∷◌, arith}
use ws_server.Base.Store.{Ptr, write}
use ws_server.Agg.Message.{Msg, msg_data, no_time}
use ws_server.Conn.{Conn, conn_new}
use ws_server.Conn.Registry.{entry, Registry, conn_close, registry_destroy_all}
use ws_server.Conn.Links.{Cells}
use ws_server.Conn.Registered.{Registers}
use ws_server.Conn.Closing.{pending, watched_by, conn_close-Registers}
use ws_server.Conn.DestroyAll.{fds, all_pending, registry_destroy_all_lem}

abbrev late : Msg
late = record {
  kind = msg_data;
  src_id = 2;
  opcode = 1;
  ts = no_time;
  conn = none;
  payload = b'x' ∷ [];
}

-- The second one holds a message still, and no epoll watches the third one.
abbrev first_conn : Conn
unfolding conn_new
first_conn = conn_new 5 3 1

abbrev second_conn : Conn
unfolding conn_new
second_conn = record (conn_new 6 3 2) { pending_msg = some late }

abbrev third_conn : Conn
unfolding conn_new
third_conn = record (conn_new 7 3 3) { epollfd = none }

abbrev three : Cells
three = (96, third_conn) ∷ (80, second_conn) ∷ (64, first_conn) ∷ []

abbrev registry : Registry
registry = record {
  entries =
      write
        (write (write (λ _. none) 64 (some (entry 80 0 first_conn))) 80
          (some (entry 96 64 second_conn)))
        96 (some (entry 0 80 third_conn));
  head = 96;
  next_id = 4;
  closed = [];
  deleted = [];
  freed = [];
}

registry-Registers : Registers registry three
unfolding write conn_new
registry-Registers = record {
  linked = (
    (λ e. absurd (omega arith)),
    refl,
    refl,
    ((λ e. absurd (omega arith)), refl, refl, ((λ e. absurd (omega arith)), refl, refl, tt)),
  );
  head = refl;
  unused = λ a e. ground arith;
  below = (omega arith, (omega arith, (omega arith, tt)));
  distinct = (
    ((λ e. absurd (omega arith)), ((λ e. absurd (omega arith)), tt)),
    (((λ e. absurd (omega arith)), tt), (tt, tt)),
  );
}

conn_close-Registers_example :
    (r' : Registry) × (conn_close 80 registry ≡ some r')
    × Registers r' ((96, third_conn) ∷ (64, first_conn) ∷ [])
    × ((r'.closed ≡ second_conn.fd ∷ [])
        × (r'.deleted ≡ watched_by second_conn)
        × (r'.freed ≡ pending second_conn)
        × (r'.next_id ≡ 4))
conn_close-Registers_example =
    conn_close-Registers registry 80 second_conn ((96, third_conn) ∷ []) ((64, first_conn) ∷ [])
      registry-Registers

registry_destroy_all_lem_example :
    (r' : Registry) × (registry_destroy_all 4 registry ≡ some r')
    × ((a : Ptr) → r'.entries a ≡ none)
    × ((r'.head ≡ 0) × (r'.closed ≡ fds three) × (r'.freed ≡ all_pending three))
registry_destroy_all_lem_example =
    registry_destroy_all_lem 4 registry three registry-Registers (omega arith)

three_closed : fds three ≡ 7 ∷ 6 ∷ 5 ∷ []
unfolding conn_new
three_closed = refl
