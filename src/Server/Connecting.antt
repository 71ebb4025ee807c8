-- ===== src/Server/Connecting.antt =====
-- The CONNECT branch of Server::HandleMessage (include/gnat/server.h, lines 42 to 67).
use gnat.Base.{ℕ, List, [], ◌∷◌, Bool, true, false, Option, none, some, ◌==◌, if◌then◌else◌}
use gnat.Base.Outcome.{Outcome, done, undefined, Prog, pure, raise, and_then, ◌>>=◌, ◌>>◌}
use gnat.Connection.{ClientConnection, ConnectionType, mqtt_31, mqtt_311, mqtt_5}
use gnat.Packet
use gnat.Packet.{Packet, on_connection}
use gnat.Proto3.Connect.{Connect, read_connect}
use gnat.Proto3.ConnectAck.{new_connect_ack, send_connect_ack}
use gnat.Server.State.{Broker, on_packet, response_status}
use gnat.Status.{Status}

-- `strcmp(literal, text) == 0` on two arrays, the literal with its zero; an array that ends before
-- the comparison does is read beyond its end.
unfoldable pub strcmp_eq : List ℕ → List ℕ → Outcome Bool
strcmp_eq (a ∷ as_) (b ∷ bs) =
    let rest = strcmp_eq as_ bs in
    if a == b then (if a == 0 then done true else rest) else done false
strcmp_eq _ _ = undefined

-- The test of the protocol name, `&&` with its short cut.
unfoldable pub wrong_protocol : List ℕ → Outcome Bool
unfolding strcmp_eq
wrong_protocol name = and_then (strcmp_eq (b'M' ∷ b'Q' ∷ b'T' ∷ b'T' ∷ 0 ∷ []) name) λ first.
    if first then strcmp_eq (b'M' ∷ b'Q' ∷ b'I' ∷ b's' ∷ b'd' ∷ b'p' ∷ 0 ∷ []) name else done false

-- The connection type that a protocol level stands for.
unfoldable pub level_type : ℕ → Option ConnectionType
level_type level =
    if level == 3
    then some mqtt_31
    else if level == 4
    then some mqtt_311
    else if level == 5
    then some mqtt_5
    else none

module _ {C W : Type 0} (conn : ClientConnection C W) where
  -- The connection type is set on the packet's connection.
  unfoldable pub set_type : ConnectionType → Prog (Packet C × W) (Unit {0})
  set_type t (p, w) =
      done (tt, (record p { connection = conn.set_connection_type t p.connection }, w))

  -- The CONNACK, with `ack.error`.
  unfoldable pub reply_connect : Bool → Prog (Packet C × W) Status
  unfolding on_connection
  reply_connect error =
      on_connection (send_connect_ack conn.write (record new_connect_ack { error = error }))
      >>= λ sent. pure (response_status sent)

  -- The branch behind the read: `ack.error` by the name, then by the level.
  unfoldable pub answer_connect : Connect → Prog (Packet C × W) Status
  unfolding set_type reply_connect
  answer_connect c s = and_then (wrong_protocol c.protocol_name.data_) λ wrong.
      let unsupported = reply_connect true s in
      elim (level_type c.protocol_level) [
        | none ↦ unsupported
        | some t ↦ (set_type t >> reply_connect wrong) s
      ]

  -- `*connect` of an empty optional is undefined.
  unfoldable pub or_undefined : Option Connect → Prog (Packet C × W) Status
  unfolding answer_connect
  or_undefined none = raise undefined
  or_undefined (some c) = answer_connect c

  -- `memory` is what the uninitialised members of a Connect hold.
  unfoldable pub handle_connect : {K : Type 0} → Connect → Prog (Broker K C W) Status
  unfolding or_undefined on_packet
  handle_connect memory = on_packet (read_connect (Packet.read conn) memory >>= or_undefined)
