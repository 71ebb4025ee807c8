-- ===== src/Server/Keeping/Subscribing.antt =====
-- What a SUBSCRIBE keeps of the data store.
use gnat.Base.{ℕ, ◌≡◌, refl, ap, ◌∙◌, List, Option, none, some}
use gnat.Base.Outcome.{Prog, out_of_fuel}
use gnat.Base.Ensures.{
  Any, Ensures, Ensures-done, Ensures-branch, Ensures-bind, Ensures-weaken, Ensures-stuck,
}
use gnat.Connection.{ClientConnection}
use gnat.DataStore.{DataStore, DataStoreEntry, add_observer}
use gnat.DataStore.Entries.{IsEquality}
use gnat.DataStore.Running.{HasEntries, add_observer-HasEntries}
use gnat.Key.{KeyType}
use gnat.Packet
use gnat.Packet.{Packet, on_connection, remaining}
use gnat.Proto3.Ending.{send_subscribe_ack-Any}
use gnat.Proto3.Subscribe.{Subscribe, read_subscribe}
use gnat.Proto3.Subscribe.Shrinking.{read_subscribe-NoMore}
use gnat.Proto3.SubscribeAck.{SubscribeAck, send_subscribe_ack}
use gnat.Server.Handling.{handle_subscribe, accept_subscribe, join, ack_for}
use gnat.Server.Ending.{Ends, notify-Any, topic_callback-NoMore}
use gnat.Server.Observer.{notify, topic_callback}
use gnat.Server.State.{Broker, Subscription, on_store-Ensures}
use gnat.Status.{ok_status, failure_status}
use gnat.Server.Keeping.{
  KeptBy, same_Kept, ok_Kept, MapKept, same_MapKept, SameStore, on_packet-SameStore, packet_reads,
  on_connection-Any,
}

module _ (stuck : Type 0) {K C W : Type 0} (keys : KeyType K) (equality : IsEquality keys.same)
    (conn : ClientConnection C W) (timestamp : Prog W ℕ)
    (ends : Ends stuck keys conn timestamp) where
  ack_ends :
      (ack : SubscribeAck) (t : C × W) → send_subscribe_ack conn.write ack t ≡ out_of_fuel → stuck
  ack_ends ack t e =
      Ensures-stuck stuck Any (send_subscribe_ack conn.write ack t)
        (send_subscribe_ack-Any stuck conn.write ends.write ack t) e

  module _ (order : List (K × DataStoreEntry) → List (K × DataStoreEntry)) where
    join-Kept :
        (o : Option (Subscription K C)) (b c : Broker K C W)
        → c.store ≡ b.store
        → Ensures stuck
            (KeptBy stuck keys equality conn timestamp ends b)
            (join keys conn order o c)
    unfolding join
    join-Kept none b c e =
        Ensures-done stuck (KeptBy stuck keys equality conn timestamp ends b)
          (same_Kept stuck keys equality conn timestamp ends b c ok_status e)
    join-Kept (some s) b c e =
        Ensures-bind stuck (MapKept stuck keys equality conn timestamp ends b)
          (KeptBy stuck keys equality conn timestamp ends b) _ _ c
          (on_store-Ensures stuck (MapKept stuck keys equality conn timestamp ends b)
            (HasEntries keys.same equality (notify keys conn) stuck
              (notify-Any stuck keys conn timestamp ends) c.store.entries)
            (add_observer keys.same (notify keys conn) order
              (record { client_id = conn.id (c.packet.connection, c.world); handler = s }))
            c
            (add_observer-HasEntries keys.same equality (notify keys conn) stuck
              (notify-Any stuck keys conn timestamp ends) order
              (record { client_id = conn.id (c.packet.connection, c.world); handler = s }) c.store
              c.world)
            (λ x store w same.
              same_MapKept stuck keys equality conn timestamp ends b
                (record c { store = store; world = w })
                (same ∙ ap (λ (t : DataStore K (Subscription K C)). t.entries) e)))
          λ x d kept.
            Ensures-done stuck (KeptBy stuck keys equality conn timestamp ends b)
              (ok_Kept stuck keys equality conn timestamp ends b d kept)

    accept_subscribe-Kept :
        (got : Option (Subscribe × Option (Subscription K C))) (b c : Broker K C W)
        → c.store ≡ b.store
        → Ensures stuck
            (KeptBy stuck keys equality conn timestamp ends b)
            (accept_subscribe keys conn order got c)
    unfolding accept_subscribe
    accept_subscribe-Kept none b c e =
        Ensures-done stuck (KeptBy stuck keys equality conn timestamp ends b)
          (same_Kept stuck keys equality conn timestamp ends b c (failure_status "") e)
    accept_subscribe-Kept (some (p, o)) b c e =
        Ensures-bind stuck (SameStore stuck keys equality conn timestamp ends b)
          (KeptBy stuck keys equality conn timestamp ends b) _ _ c
          (on_packet-SameStore stuck keys equality conn timestamp ends
            (on_connection (send_subscribe_ack conn.write (ack_for keys conn order p))) b c e
            λ s.
              on_connection-Any stuck keys equality conn timestamp ends
                (send_subscribe_ack conn.write (ack_for keys conn order p)) s
                (ack_ends (ack_for keys conn order p)))
          λ sent d same.
            Ensures-branch stuck (KeptBy stuck keys equality conn timestamp ends b) sent _ _ d
              (λ _. join-Kept o b d same)
              (λ _. Ensures-done stuck (KeptBy stuck keys equality conn timestamp ends b) (
                same_Kept stuck keys equality conn timestamp ends b d
                  (failure_status "Unable to send response.") same))

    pub handle_subscribe-Kept :
        (b : Broker K C W)
        → Ensures stuck
            (KeptBy stuck keys equality conn timestamp ends b)
            (handle_subscribe keys conn order b)
    unfolding handle_subscribe
    handle_subscribe-Kept b =
        Ensures-bind stuck (SameStore stuck keys equality conn timestamp ends b)
          (KeptBy stuck keys equality conn timestamp ends b) _ _ b
          (on_packet-SameStore stuck keys equality conn timestamp ends
            (read_subscribe (Packet.read conn) remaining (topic_callback keys conn) none) b b refl
            λ s.
              Ensures-weaken stuck _ (λ x q. tt)
                (read_subscribe-NoMore stuck (Packet.read conn) remaining (topic_callback keys conn)
                  (packet_reads stuck keys equality conn timestamp ends)
                  (topic_callback-NoMore stuck keys conn timestamp ends) none s))
          λ got c e. accept_subscribe-Kept got b c e
