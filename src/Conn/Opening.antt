-- ===== src/Conn/Opening.antt =====
-- `connNew` of src/conn.c.
use ws_server.Base.Store.{Store}
use ws_server.Conn.{Conn}
use ws_server.Conn.Registry.{Registry}
