-- ===== src/Connection.antt =====
-- What packets.h and server.h ask of a ClientConnection (the comment in include/gnat/server.h, lines
-- 21 to 32, and the further calls), and ConnectionType (lines 13 to 18).
use gnat.Base.{ℕ, List, Bool, Option}
use gnat.Base.Outcome.{Prog}

pub data ConnectionType : Type 0 where
  unknown mqtt_31 mqtt_311 mqtt_5 : ConnectionType

-- `C` is the connection object, `W` the world that it reaches: sockets, other processes, the time.
-- A `Read` that fails has put nothing into a buffer of one byte.
pub record ClientConnection (C W : Type 0) : Type 0 where
  pub read : ℕ → Prog (C × W) (Option (List ℕ))
  pub write : List ℕ → Prog (C × W) Bool
  pub write_partial : List ℕ → Prog (C × W) Bool
  pub drain : ℕ → Prog (C × W) Bool
  pub close : Prog (C × W) (Unit {0})
  pub id : C × W → ℕ
  pub connection_type : C → ConnectionType
  pub set_connection_type : ConnectionType → C → C
  pub create_heap_copy : Prog (C × W) C
