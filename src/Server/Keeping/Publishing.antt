-- ===== src/Server/Keeping/Publishing.antt =====
-- What a PUBLISH keeps of the data store.
use gnat.Base.{ℕ, ◌≡◌, refl, List, Option, none, some}
use gnat.Base.Outcome.{Prog}
use gnat.Base.Ensures.{Any, Ensures, Ensures-done, Ensures-run, Ensures-and_then, Ensures-bind}
use gnat.Connection.{ClientConnection}
use gnat.DataStore.{DataStoreEntry, set_entry}
use gnat.DataStore.Entries.{IsEquality, set_entries}
use gnat.DataStore.Running.{HasEntries, set_entries-IsMap, set_entry-HasEntries}
use gnat.Key.{KeyType}
use gnat.Packet
use gnat.Packet.{Packet, on_connection, remaining}
use gnat.Packet.Shrinking.{Paid, ReadBy, read-ReadBy}
use gnat.Proto3.Ending.{read_publish-Any}
use gnat.Proto3.Publish.{Publish, read_publish}
use gnat.Server.Handling.{handle_publish, accept_publish, store_publish, make_key}
use gnat.Server.Ending.{Ends, notify-Any}
use gnat.Server.Observer.{notify}
use gnat.Server.State.{on_world, Broker, on_packet-Ensures, on_store-Ensures}
use gnat.Status.{failure_status}
use gnat.Server.Keeping.{
  KeptBy, same_Kept, ok_Kept, MapKept, SameStore, on_packet-SameStore, packet_reads,
}

module _ (stuck : Type 0) {K C W : Type 0} (keys : KeyType K) (equality : IsEquality keys.same)
    (conn : ClientConnection C W) (timestamp : Prog W ℕ)
    (ends : Ends stuck keys conn timestamp) where
  store_publish-Kept :
      (p : Publish) (time : ℕ) (got : Option (List ℕ)) (b c : Broker K C W)
      → c.store ≡ b.store
      → Paid stuck conn p.payload_bytes got
      → Ensures stuck
          (KeptBy stuck keys equality conn timestamp ends b)
          (store_publish keys conn timestamp p time got c)
  unfolding store_publish make_key
  store_publish-Kept p time none b c e paid =
      Ensures-done stuck (KeptBy stuck keys equality conn timestamp ends b) (
        same_Kept stuck keys equality conn timestamp ends b c
          (failure_status "Unable to complete read.") e)
  store_publish-Kept p time (some bytes) b c e paid =
      let entry : DataStoreEntry = record {
        bytes = bytes;
        size = p.payload_bytes;
        timestamp = time;
      } in
      Ensures-bind stuck (SameStore stuck keys equality conn timestamp ends b)
        (KeptBy stuck keys equality conn timestamp ends b) _ _ c
        (Ensures-and_then stuck Any (SameStore stuck keys equality conn timestamp ends b)
          (keys.encode_key p.topic.data_ p.topic.length_) _
          (Ensures-run stuck Any _ (ends.encode p.topic.data_ p.topic.length_) (λ x q. tt))
          (λ key q. Ensures-done stuck (SameStore stuck keys equality conn timestamp ends b) e))
        λ key d q.
          Ensures-bind stuck (MapKept stuck keys equality conn timestamp ends b)
            (KeptBy stuck keys equality conn timestamp ends b) _ _ d
            (on_store-Ensures stuck (MapKept stuck keys equality conn timestamp ends b)
              (HasEntries keys.same equality (notify keys conn) stuck
                (notify-Any stuck keys conn timestamp ends)
                (set_entries keys.same equality (notify keys conn) key entry d.store.entries))
              (set_entry keys.same (notify keys conn) key entry) d
              (set_entry-HasEntries keys.same equality (notify keys conn) stuck
                (notify-Any stuck keys conn timestamp ends) key entry d.store d.world)
              (λ x store w same exact m. rw same (
                set_entries-IsMap keys.same equality (notify keys conn) key entry d.store.entries
                  (paid exact) (rw q m))))
            λ x d' kept.
              Ensures-done stuck (KeptBy stuck keys equality conn timestamp ends b)
                (ok_Kept stuck keys equality conn timestamp ends b d' kept)

  -- The payload of a PUBLISH, read by a broker with the data store of `b`.
  abbrev GotPayload : Broker K C W → ℕ → Option (List ℕ) × Broker K C W → Type 0
  GotPayload b n (got, c) = (c.store ≡ b.store) × Paid stuck conn n got

  accept_publish-Kept :
      (got : Option Publish) (b c : Broker K C W)
      → c.store ≡ b.store
      → Ensures stuck
          (KeptBy stuck keys equality conn timestamp ends b)
          (accept_publish keys conn timestamp got c)
  unfolding accept_publish on_world
  accept_publish-Kept none b c e =
      Ensures-done stuck (KeptBy stuck keys equality conn timestamp ends b) (
        same_Kept stuck keys equality conn timestamp ends b c (failure_status "No publish header!")
          e)
  accept_publish-Kept (some p) b c e =
      Ensures-bind stuck (SameStore stuck keys equality conn timestamp ends b)
        (KeptBy stuck keys equality conn timestamp ends b) _ _ c
        (Ensures-and_then stuck Any (SameStore stuck keys equality conn timestamp ends b)
          (timestamp c.world) _ (Ensures-run stuck Any _ (ends.time c.world) (λ x q. tt))
          (λ (time, w) q.
            Ensures-done stuck (SameStore stuck keys equality conn timestamp ends b) e))
        λ time d same.
          Ensures-bind stuck (GotPayload b p.payload_bytes)
            (KeptBy stuck keys equality conn timestamp ends b) _ _ d
            (on_packet-Ensures stuck (GotPayload b p.payload_bytes)
              (ReadBy stuck conn ends.read p.payload_bytes (d.packet, d.world))
              (Packet.read conn p.payload_bytes) d
              (read-ReadBy stuck conn ends.read p.payload_bytes (d.packet, d.world))
              (λ a q w x. (same, x.1)))
            λ got f q. store_publish-Kept p time got b f q.0 q.1

  pub handle_publish-Kept :
      (b : Broker K C W)
      → Ensures stuck
          (KeptBy stuck keys equality conn timestamp ends b)
          (handle_publish keys conn timestamp b)
  unfolding handle_publish accept_publish
  handle_publish-Kept b =
      Ensures-bind stuck (SameStore stuck keys equality conn timestamp ends b)
        (KeptBy stuck keys equality conn timestamp ends b) _ _ b
        (on_packet-SameStore stuck keys equality conn timestamp ends
          (read_publish (Packet.read conn) remaining (Packet.type_flags b.packet)) b b refl
          (read_publish-Any stuck (Packet.read conn) remaining
            (packet_reads stuck keys equality conn timestamp ends) (Packet.type_flags b.packet)))
        λ got c e. accept_publish-Kept got b c e
