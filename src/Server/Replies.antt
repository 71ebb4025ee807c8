-- ===== src/Server/Replies.antt =====
-- The answer to CONNECT.
use gnat.Base.{
  Option, get_or, zero, suc, ℕ, ◌≤◌, ◌≡◌, refl, ◌∙◌, arith, List, [], ◌∷◌, Bool, true, false, none,
  some, length, if◌then◌else◌, length-append, length-drop, drop, replicate,
}
use gnat.Base.Outcome.{
  Outcome, aborted, thrown, undefined, out_of_fuel, done, Prog, pure, and_then-done, and_then,
  ◌>>=◌, ◌>>◌,
}
use gnat.Connection.{ClientConnection, ConnectionType, mqtt_31, mqtt_311, mqtt_5}
use gnat.DataStore.{DataStore, DataStoreEntry}
use gnat.Packet
use gnat.Packet.{Packet, on_connection}
use gnat.Proto3.Connect.{Connect}
use gnat.Proto3.ConnectAck.{new_connect_ack, send_connect_ack-wire}
use gnat.Server.Connecting.{
  strcmp_eq, wrong_protocol, level_type, set_type, reply_connect, answer_connect, or_undefined,
  handle_connect,
}
use gnat.Server.Handling.{handle_message, handle_type}
use gnat.Server.State.{
  Subscription, broker_waiting, Broker, on_packet, on_packet-step, on_packet-same, response_status,
}
use gnat.Fields.Channel.{Delivers}
use gnat.Key.{KeyType}
use gnat.Header.{packet_type}
use gnat.Proto3.Connect.Receiving.{read_connect-packet}
use gnat.Proto3.Connect.RoundTrip.{IsConnect, connect_body, received_connect}
use gnat.Buffer.Writes.{text, length-text}
use gnat.Status.{ok_status, Status, failure_status}

-- The server's test of the protocol name holds for no name of at least five characters: every name
-- passes.
pub wrong_protocol-never : (name : List ℕ) → 5 ≤ length name → wrong_protocol name ≡ done false
unfolding wrong_protocol strcmp_eq and_then
wrong_protocol-never (a ∷ b ∷ c ∷ d ∷ e ∷ rest) h = ground arith
wrong_protocol-never [] h = absurd (omega arith)
wrong_protocol-never (a ∷ []) h = absurd (omega arith)
wrong_protocol-never (a ∷ b ∷ []) h = absurd (omega arith)
wrong_protocol-never (a ∷ b ∷ c ∷ []) h = absurd (omega arith)
wrong_protocol-never (a ∷ b ∷ c ∷ d ∷ []) h = absurd (omega arith)

-- The connection types by protocol level: MQTT 3.1, 3.1.1 and 5 have the levels 3, 4 and 5.
abbrev pub supported : ℕ → Option ConnectionType
supported level =
    get_or (none ∷ none ∷ none ∷ some mqtt_31 ∷ some mqtt_311 ∷ some mqtt_5 ∷ []) level none

level_type-supported : (level : ℕ) → level_type level ≡ supported level
unfolding level_type
level_type-supported zero = refl
level_type-supported (suc zero) = refl
level_type-supported (suc (suc zero)) = refl
level_type-supported (suc (suc (suc zero))) = refl
level_type-supported (suc (suc (suc (suc zero)))) = refl
level_type-supported (suc (suc (suc (suc (suc zero))))) = refl
level_type-supported (suc (suc (suc (suc (suc (suc level)))))) = ground arith

module _ {C W : Type 0} (conn : ClientConnection C W) where
  -- Bytes go out on the packet's connection, and the status says whether that worked.
  abbrev pub write_status : List ℕ → Prog (Packet C × W) Status
  write_status bytes = on_connection (conn.write bytes) >>= λ sent. pure (response_status sent)

  -- The answer to a CONNECT of a protocol level.
  abbrev pub connect_answer : ℕ → Prog (Packet C × W) Status
  connect_answer level s = elim (supported level) [
    | none ↦ write_status (0x20 ∷ 2 ∷ 0 ∷ 0x80 ∷ []) s
    | some t ↦ (set_type conn t >> write_status (0x20 ∷ 2 ∷ 0 ∷ 0 ∷ [])) s
  ]

  reply_connect-bytes :
      (error : Bool) (s : Packet C × W)
      → reply_connect conn error s
        ≡ write_status (0x20 ∷ 2 ∷ 0 ∷ (if error then 0x80 else 0) ∷ []) s
  unfolding reply_connect on_connection ◌>>=◌
  reply_connect-bytes error (p, w) = rw (
      send_connect_ack-wire conn.write (record new_connect_ack { error = error }) (p.connection, w))

  set_then :
      (u : ConnectionType) (s : Packet C × W)
      → (set_type conn u >> reply_connect conn false) s
        ≡ (set_type conn u >> write_status (0x20 ∷ 2 ∷ 0 ∷ 0 ∷ [])) s
  unfolding set_type ◌>>=◌
  set_then u (p, w) =
      reply_connect-bytes false
        (record p { connection = conn.set_connection_type u p.connection }, w)

  answer_connect-level :
      (c : Connect) (s : Packet C × W)
      → 5 ≤ length c.protocol_name.data_
      → answer_connect conn c s ≡ connect_answer c.protocol_level s
  unfolding answer_connect
  answer_connect-level c s h = and_then-done _ _ (wrong_protocol-never c.protocol_name.data_ h) (
      rw (level_type-supported c.protocol_level)
        (elim (supported c.protocol_level)
          as (λ t.
            (elim t [
              | none ↦ reply_connect conn true s
              | some u ↦ (set_type conn u >> reply_connect conn false) s
            ])
            ≡ (elim t [
              | none ↦ write_status (0x20 ∷ 2 ∷ 0 ∷ 0x80 ∷ []) s
              | some u ↦ (set_type conn u >> write_status (0x20 ∷ 2 ∷ 0 ∷ 0 ∷ [])) s
            ])) [ none ↦ reply_connect-bytes true s | some u ↦ set_then u s ]))

  -- The connection and the return code by the protocol level.
  abbrev pub welcomed : ℕ → C → C
  welcomed level c = elim (supported level) [ none ↦ c | some t ↦ conn.set_connection_type t c ]

  abbrev pub return_code : ℕ → ℕ
  return_code level = elim (supported level) [ none ↦ 0x80 | some t ↦ 0 ]

  -- A CONNACK on the connection of a broker's packet, and what is left by how the write ends.
  abbrev pub written : {K : Type 0} → ℕ → C → Broker K C W → Outcome (Status × Broker K C W)
  written code c b =
      and_then (conn.write (0x20 ∷ 2 ∷ 0 ∷ code ∷ []) (c, b.world)) λ (sent, (c', w')). done (
        if sent then ok_status else failure_status "Unable to send response.",
        record b { packet = record b.packet { connection = c' }; world = w' },
      )

  abbrev pub answered : {K : Type 0} → ℕ → Broker K C W → Outcome (Status × Broker K C W)
  answered level b = written (return_code level) (welcomed level b.packet.connection) b

  on_packet-written :
      {K : Type 0} (code : ℕ) (c : C) (b : Broker K C W)
      → on_packet
          (λ (p, w). write_status (0x20 ∷ 2 ∷ 0 ∷ code ∷ []) (record p { connection = c }, w))
          b
        ≡ written code c b
  unfolding on_packet on_connection ◌>>=◌ and_then
  on_packet-written {K} code c b =
      elim (conn.write (0x20 ∷ 2 ∷ 0 ∷ code ∷ []) (c, b.world))
        as (λ o.
          and_then {B = Status × Broker K C W}
            (and_then {B = Status × (Packet C × W)}
              (and_then {B = Bool × (Packet C × W)} o
                λ (sent, (c', w')). done (sent, (record b.packet { connection = c' }, w')))
              λ (sent, t). done (response_status sent, t))
            (λ (st, (p, w)). done (st, record b { packet = p; world = w }))
          ≡ and_then {B = Status × Broker K C W} o (λ (sent, (c', w')). done (
            if sent then ok_status else failure_status "Unable to send response.",
            record b { packet = record b.packet { connection = c' }; world = w' },
          ))) [
            | done x ↦ refl
            | aborted ↦ refl
            | thrown ↦ refl
            | undefined ↦ refl
            | out_of_fuel ↦ refl
          ]

  on_packet-answered :
      {K : Type 0} (level : ℕ) (b : Broker K C W)
      → on_packet (connect_answer level) b ≡ answered level b
  unfolding set_type ◌>>=◌ and_then on_connection on_packet
  on_packet-answered level b =
      elim (supported level)
        as (λ o.
          on_packet
            (λ s. elim o [
              | none ↦ write_status (0x20 ∷ 2 ∷ 0 ∷ 0x80 ∷ []) s
              | some t ↦ (set_type conn t >> write_status (0x20 ∷ 2 ∷ 0 ∷ 0 ∷ [])) s
            ])
            b
          ≡ written (elim o [ none ↦ 0x80 | some t ↦ 0 ])
              (elim o [
                | none ↦ b.packet.connection
                | some t ↦ conn.set_connection_type t b.packet.connection
              ])
              b) [
                | none ↦ on_packet-written 0x80 b.packet.connection b
                | some t ↦ on_packet-written 0 (conn.set_connection_type t b.packet.connection) b
              ]

received_name-long :
    (c : Connect) → IsConnect c → 5 ≤ length (received_connect c).protocol_name.data_
received_name-long c v =
    let zeros : List ℕ = replicate 6 0 in
    omega (
      arith,
      length-append (text c.protocol_name) (drop (length (text c.protocol_name)) zeros),
      length-drop (length (text c.protocol_name)) zeros,
      length-text c.protocol_name v.name,
      v.name.fits,
    )

module _ {K C W : Type 0} (keys : KeyType K) (conn : ClientConnection C W) (timestamp : Prog W ℕ)
    (order : List (K × DataStoreEntry) → List (K × DataStoreEntry)) (memory : Connect) where
  pub handle_message-connect_answer :
      (waiting : List ℕ → C × W) (delivers : Delivers conn.read waiting) (after : List ℕ)
      (store : DataStore K (Subscription K C)) (c : Connect)
      → IsConnect c
      → handle_message keys conn timestamp order memory
          (broker_waiting conn waiting 0x10 after store (connect_body c))
        ≡ on_packet (connect_answer conn c.protocol_level) (
            broker_waiting conn waiting 0x10 after store
              (0 ∷ c.client_id.length_ ∷ text c.client_id))
  unfolding handle_message handle_type handle_connect Packet.type packet_type or_undefined
  handle_message-connect_answer waiting delivers after store c v =
      on_packet-step _ _ _ (read_connect-packet conn waiting delivers after c v memory)
      ∙ on_packet-same (or_undefined conn (some (received_connect c)))
          (connect_answer conn c.protocol_level) _
          (answer_connect-level conn (received_connect c) _ (received_name-long c v))

  -- On a connection that delivers its bytes, HandleMessage on the CONNECT packet of any well-
  -- formed Connect answers by the protocol level alone: for 3, 4 and 5 it calls the connection's
  -- set_connection_type with MQTT 3.1, 3.1.1 and 5 and writes a CONNACK with code 0 on the
  -- connection this gives, for other levels it writes one with 0x80 on the connection as it is,
  -- whatever the protocol name; it ends as that one Write ends, Ok or Failure by its result, with
  -- the connection and the world that Write left, the data store as it was, and the client id
  -- still in the packet.
  pub handle_message-connect :
      (waiting : List ℕ → C × W) (delivers : Delivers conn.read waiting) (after : List ℕ)
      (store : DataStore K (Subscription K C)) (c : Connect)
      → IsConnect c
      → handle_message keys conn timestamp order memory
          (broker_waiting conn waiting 0x10 after store (connect_body c))
        ≡ answered conn c.protocol_level (
            broker_waiting conn waiting 0x10 after store
              (0 ∷ c.client_id.length_ ∷ text c.client_id))
  handle_message-connect waiting delivers after store c v =
      handle_message-connect_answer waiting delivers after store c v
      ∙ on_packet-answered conn c.protocol_level _
