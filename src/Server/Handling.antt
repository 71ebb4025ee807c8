-- ===== src/Server/Handling.antt =====
-- Server::HandleMessage and its branches (include/gnat/server.h, lines 39 to 154).
use gnat.Base.{ℕ, List, Option, none, some, replicate, if◌then◌else◌}
use gnat.Base.Outcome.{done, Prog, pure, and_then, ◌>>=◌}
use gnat.Connection.{ClientConnection}
use gnat.DataStore.{DataStoreEntry, set_entry, add_observer}
use gnat.Fields.{StringBuffer}
use gnat.Header.{PacketType, connect, publish, subscribe, pingreq, disconnect}
use gnat.Key.{KeyType}
use gnat.Packet
use gnat.Packet.{Packet, on_connection, remaining}
use gnat.Proto3.Connect.{Connect}
use gnat.Proto3.PingResp.{send_ping_resp}
use gnat.Proto3.Publish.{Publish, read_publish}
use gnat.Proto3.Subscribe.{Subscribe, read_subscribe}
use gnat.Proto3.SubscribeAck.{SubscribeAck, send_subscribe_ack}
use gnat.Server.Connecting.{handle_connect}
use gnat.Server.Observer.{notify, topic_callback}
use gnat.Server.State.{Broker, Subscription, on_packet, on_store, on_world, response_status}
use gnat.Status.{Status, ok_status, failure_status}

module _ {K C W : Type 0} (keys : KeyType K) (conn : ClientConnection C W)
    (timestamp : Prog W ℕ) where
  -- A key is made before the data store is reached.
  unfoldable pub make_key : StringBuffer → Prog (Broker K C W) K
  make_key topic b = and_then (keys.encode_key topic.data_ topic.length_) λ key. done (key, b)

  -- The entry is set under the key of its topic.
  unfoldable pub store_publish : Publish → ℕ → Option (List ℕ) → Prog (Broker K C W) Status
  unfolding make_key on_store
  store_publish p time none = pure (failure_status "Unable to complete read.")
  store_publish p time (some bytes) = make_key p.topic >>= λ key.
      on_store (
        set_entry keys.same (notify keys conn) key
          (record { bytes = bytes; size = p.payload_bytes; timestamp = time }))
      >>= λ _. pure ok_status

  unfoldable pub accept_publish : Option Publish → Prog (Broker K C W) Status
  unfolding store_publish on_world on_packet
  accept_publish none = pure (failure_status "No publish header!")
  accept_publish (some p) = on_world timestamp >>= λ time.
      on_packet (Packet.read conn p.payload_bytes) >>= store_publish p time

  unfoldable pub handle_publish : Prog (Broker K C W) Status
  unfolding accept_publish on_packet
  handle_publish b =
      (on_packet (read_publish (Packet.read conn) remaining (Packet.type_flags b.packet))
          >>= accept_publish)
        b

-- `order` is the order in which the map of the data store iterates.
module _ {K C W : Type 0} (keys : KeyType K) (conn : ClientConnection C W)
    (order : List (K × DataStoreEntry) → List (K × DataStoreEntry)) where
  abbrev pub ack_for : Subscribe → SubscribeAck
  ack_for p = record {
    subscribe_packet_id = p.packet_id;
    responses = replicate 32 0;
    responses_count = 1;
  }

  -- `if (observer)`: an observer that was set joins the data store, under the connection's id.
  unfoldable pub join : Option (Subscription K C) → Prog (Broker K C W) Status
  unfolding on_store
  join none b = done (ok_status, b)
  join (some s) b =
      (on_store (
            add_observer keys.same (notify keys conn) order
              (record { client_id = conn.id (b.packet.connection, b.world); handler = s }))
          >>= λ _. pure ok_status)
        b

  unfoldable pub accept_subscribe :
      Option (Subscribe × Option (Subscription K C)) → Prog (Broker K C W) Status
  unfolding join on_packet on_connection
  accept_subscribe none = pure (failure_status "")
  accept_subscribe (some (p, observer)) =
      on_packet (on_connection (send_subscribe_ack conn.write (ack_for p))) >>= λ sent.
      if sent then join observer else pure (failure_status "Unable to send response.")

  unfoldable pub handle_subscribe : Prog (Broker K C W) Status
  unfolding accept_subscribe on_packet
  handle_subscribe =
      on_packet (read_subscribe (Packet.read conn) remaining (topic_callback keys conn) none)
      >>= accept_subscribe

module _ {K C W : Type 0} (conn : ClientConnection C W) where
  unfoldable pub handle_pingreq : Prog (Broker K C W) Status
  unfolding on_packet on_connection
  handle_pingreq =
      on_packet (on_connection (send_ping_resp conn.write) >>= λ sent. pure (response_status sent))

  unfoldable pub handle_disconnect : Prog (Broker K C W) Status
  unfolding on_packet on_connection
  handle_disconnect = on_packet (on_connection conn.close) >>= λ _. pure ok_status

-- Server::HandleMessage.
module _ {K C W : Type 0} (keys : KeyType K) (conn : ClientConnection C W) (timestamp : Prog W ℕ)
    (order : List (K × DataStoreEntry) → List (K × DataStoreEntry)) (memory : Connect) where
  -- The chain of tests of the packet's type.
  unfoldable pub handle_type : PacketType → Prog (Broker K C W) Status
  unfolding handle_connect handle_publish handle_subscribe handle_pingreq handle_disconnect
  handle_type connect = handle_connect conn memory
  handle_type publish = handle_publish keys conn timestamp
  handle_type subscribe = handle_subscribe keys conn order
  handle_type pingreq = handle_pingreq conn
  handle_type disconnect = handle_disconnect conn
  handle_type _ = pure (failure_status "Unsupported packet type.")

  unfoldable pub handle_message : Prog (Broker K C W) Status
  unfolding handle_type
  handle_message b = handle_type (Packet.type b.packet) b
