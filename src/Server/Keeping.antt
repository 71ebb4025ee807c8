-- ===== src/Server/Keeping.antt =====
-- What a run of the server keeps of the data store, and what leaves it alone.
pub mod Publishing
pub mod Subscribing
pub mod Handling
use gnat.Base.{ℕ, ◌≡◌, refl, ap, ◌∙◌, List, [], ◌∷◌, false, Option, none, some}
use gnat.Base.Outcome.{Prog, done, out_of_fuel, pure, ◌>>=◌}
use gnat.Base.Ensures.{
  Any, Ensures, Ensures-done, Ensures-run, Ensures-branch, Ensures-and_then, Ensures-bind,
  Ensures-weaken, Ensures-stuck,
}
use gnat.Connection.{ClientConnection}
use gnat.DataStore.{DataStore, DataStoreEntry, set_entry, add_observer}
use gnat.DataStore.Entries.{IsEquality, set_entries}
use gnat.DataStore.Running.{
  IsMap, HasEntries, set_entries-IsMap, set_entry-HasEntries, add_observer-HasEntries,
}
use gnat.Fields.Shrinking.{Shrunk}
use gnat.Key.{KeyType}
use gnat.Packet
use gnat.Packet.{Packet, on_connection, remaining}
use gnat.Packet.Shrinking.{Exact, Paid, ReadBy, read-ReadBy, read-Shrunk, on_connection-NoMore}
use gnat.Proto3.Connect.{Connect, read_connect}
use gnat.Proto3.Ending.{read_connect-Any, read_publish-Any, send_subscribe_ack-Any}
use gnat.Proto3.Publish.{Publish, read_publish}
use gnat.Proto3.Subscribe.{Subscribe, read_subscribe}
use gnat.Proto3.Subscribe.Shrinking.{read_subscribe-NoMore}
use gnat.Proto3.SubscribeAck.{SubscribeAck, send_subscribe_ack}
use gnat.Proto3.PingResp.{send_ping_resp}
use gnat.Server.Connecting.{or_undefined, handle_connect}
use gnat.Server.Ending.Connecting.{or_undefined-Any}
use gnat.Server.Handling.{
  handle_message, handle_type, handle_publish, handle_subscribe, handle_pingreq, handle_disconnect,
  accept_publish, store_publish, make_key, accept_subscribe, join, ack_for,
}
use gnat.Header.{
  PacketType, reserved, connect, connack, publish, puback, pubrec, pubrel, pubcomp, subscribe,
  suback, unsubscribe, unsuback, pingreq, pingresp, disconnect, auth,
}
use gnat.Server.Ending.{Ends, notify-Any, topic_callback-NoMore}
use gnat.Server.Observer.{notify, topic_callback}
use gnat.Server.State.{
  on_world, Broker, Subscription, on_packet, on_packet-Ensures, on_store-Ensures, response_status,
}
use gnat.Status.{Status, is_ok, ok_status, failure_status}

module _ (stuck : Type 0) {K C W : Type 0} (keys : KeyType K) (equality : IsEquality keys.same)
    (conn : ClientConnection C W) (timestamp : Prog W ℕ)
    (ends : Ends stuck keys conn timestamp) where
  -- A failure changes nothing of the data store; a well-formed map stays one.
  pub record Kept (b : Broker K C W) (st : Status) (b' : Broker K C W) : Type 0 where
    pub atomic : is_ok st ≡ false → b'.store ≡ b.store
    pub map :
        Exact stuck conn
        → IsMap keys.same equality (notify keys conn) b.store.entries
        → IsMap keys.same equality (notify keys conn) b'.store.entries

  abbrev pub KeptBy : Broker K C W → Status × Broker K C W → Type 0
  KeptBy b (st, b') = Kept b st b'

  abbrev pub SameStore : {A : Type 0} → Broker K C W → A × Broker K C W → Type 0
  SameStore b (a, b') = b'.store ≡ b.store

  pub same_Kept : (b b' : Broker K C W) (st : Status) → b'.store ≡ b.store → Kept b st b'
  same_Kept b b' st e = record { atomic = λ _. e; map = λ _ m. rw e m }

  -- A run on the packet leaves the data store.
  pub on_packet-SameStore :
      {A : Type 0} (m : Prog (Packet C × W) A) (b c : Broker K C W)
      → c.store ≡ b.store
      → ((s : Packet C × W) → Ensures stuck Any (m s))
      → Ensures stuck (SameStore b) (on_packet m c)
  on_packet-SameStore m b c e h =
      on_packet-Ensures stuck (SameStore b) Any m c (h (c.packet, c.world)) (λ a p w q. e)

  pub packet_reads :
      (n : ℕ) (s : Packet C × W) → Ensures stuck (Shrunk stuck remaining n s) (Packet.read conn n s)
  packet_reads = read-Shrunk stuck conn ends.read

  pub on_connection-Any :
      {A : Type 0} (m : Prog (C × W) A) (s : Packet C × W)
      → ((t : C × W) → m t ≡ out_of_fuel → stuck)
      → Ensures stuck Any (on_connection m s)
  on_connection-Any m s h =
      Ensures-weaken stuck (on_connection m s) (λ x q. tt) (on_connection-NoMore stuck m s h)

  -- A well-formed map stays one.
  abbrev pub MapKept : Broker K C W → Unit {0} × Broker K C W → Type 0
  MapKept b (x, b') =
      Exact stuck conn
      → IsMap keys.same equality (notify keys conn) b.store.entries
      → IsMap keys.same equality (notify keys conn) b'.store.entries

  pub ok_Kept : (b b' : Broker K C W) → MapKept b (tt, b') → Kept b ok_status b'
  unfolding is_ok
  ok_Kept b b' h = record { atomic = λ no. cc; map = h }

  pub same_MapKept : (b b' : Broker K C W) → b'.store.entries ≡ b.store.entries → MapKept b (tt, b')
  same_MapKept b b' e exact m = rw e m
