-- ===== src/Server/Fanout/Session.antt =====
-- A SUBSCRIBE on one connection, and then a PUBLISH on another.
use gnat.Base.{
  ℕ, ◌*◌, ◌+◌, ◌/◌, ◌≤◌, ◌<◌, ◌≡◌, sym, ap, ◌∙◌, List, ◌∷◌, ◌++◌, [], All, true, length, bit_and,
  ◌==◌, if◌then◌else◌,
}
use gnat.Base.Outcome.{done, Prog}
use gnat.Buffer.Writes.{stored}
use gnat.Connection.{ClientConnection}
use gnat.DataStore.{DataStore, DataStoreEntry, ObserverEntry}
use gnat.DataStore.Entries.{IsEquality}
use gnat.Fields.{StringBuffer}
use gnat.Fields.Channel.{Delivers}
use gnat.Header.{publish, packet_type}
use gnat.Key.{KeyType}
use gnat.Proto3.Connect.{Connect}
use gnat.Proto3.Subscribe.Reading.{Filter, filters_wire}
use gnat.Server.Fanout.{Network, IsSendable, deliveries, share, publish_packet}
use gnat.Server.Fanout.Delivery.{handle_message-deliveries}
use gnat.Server.Fanout.Joining.{CanSend, handle_message-joins}
use gnat.Server.Handling.{handle_message}
use gnat.Server.Observer.{matches}
use gnat.Server.Publishing.{entry_of}
use gnat.Server.State.{Broker, Subscription, broker_waiting}
use gnat.Server.Subscribing.{IsTopic, subscription_of}
use gnat.Status.{ok_status}
use mathlib.Core.List.{append-nil, append_assoc}

module _ {K C W : Type 0} (keys : KeyType K) (conn : ClientConnection C W)
    (network : Network conn) where
  deliveries-append :
      (n : ℕ) (key : K) (bytes : List ℕ) (os : List (ObserverEntry (Subscription K C)))
      (o : ObserverEntry (Subscription K C))
      → deliveries keys conn network n key bytes (os ++ o ∷ [])
        ≡ deliveries keys conn network n key bytes os
          ++ (if matches keys conn o.handler key
              then share keys conn network n o.handler.conn bytes
              else [])
  deliveries-append n key bytes [] o = append-nil _
  deliveries-append n key bytes (p ∷ os) o =
      ap
        (λ (xs : List ℕ).
          (if matches keys conn p.handler key
            then share keys conn network n p.handler.conn bytes
            else [])
          ++ xs)
        (deliveries-append n key bytes os o)
      ∙ sym (
          append_assoc
            (if matches keys conn p.handler key
              then share keys conn network n p.handler.conn bytes
              else [])
            _ _)

  module _ (k : ℕ) (topic_of : K → StringBuffer) (heap : C) (key_of : List ℕ → K)
      (timestamp : Prog W ℕ) (order : List (K × DataStoreEntry) → List (K × DataStoreEntry))
      (memory : Connect) (subscriber : List ℕ → C × W) (delivers : Delivers conn.read subscriber)
      (publisher : W → List ℕ → C × W)
      (delivers' : (w : W) → Delivers conn.read (publisher w)) where
    -- On a network where each write puts its bytes behind what its socket was sent and leaves what
    -- waits to be read, with connections that deliver their bytes and keep their ids, a heap copy
    -- of the subscriber's connection, a clock that reads without changing the world, a key
    -- equality that decides, for subscribed topics of at most 128 bytes without + that have a key,
    -- stored entries that can be sent under the topics of their keys, and a published topic of at
    -- most 128 bytes whose key decodes to it, with a payload whose size fits an int and k + 1
    -- groups of seven bits, k below 5: HandleMessage on the SUBSCRIBE packet of a client returns
    -- Ok; HandleMessage on the PUBLISH packet of QoS 0 from another connection, whose bytes arrive
    -- in the world that the first run left without a change of what was sent, then returns Ok, and
    -- sends every socket exactly one PUBLISH packet of its topic and payload for each observer of
    -- before on it whose matcher takes the key, and behind those one to the new subscriber's copy
    -- where the matcher of its last topic takes the key.
    pub subscribe-publish :
        (equality : IsEquality keys.same) (after after' : List ℕ)
        (store : DataStore K (Subscription K C)) (id_high id_low : ℕ) (fs : List Filter)
        (f : Filter) (control high low : ℕ) (topic payload : List ℕ) (time : ℕ) (key : K)
        → ((bytes : List ℕ)
            → conn.create_heap_copy (subscriber bytes) ≡ done (heap, subscriber bytes))
        → ((c : C) (w w' : W) → conn.id (c, w) ≡ conn.id (c, w'))
        → ((n : ℕ) (w : W) → network.sent n (publisher w after').1 ≡ network.sent n w)
        → All (IsTopic keys conn heap key_of) (fs ++ f ∷ [])
        → id_high < 256
        → id_low < 256
        → All (CanSend keys conn network k topic_of) (order store.entries)
        → packet_type (control / 16) ≡ publish
        → (bit_and (bit_and control 0xf / 2) 3 == 0) ≡ true
        → low < 256
        → high * 256 + low ≡ length topic
        → length topic ≤ 128
        → ((w : W) → timestamp w ≡ done (time, w))
        → keys.encode_key (stored 128 topic).data_ (length topic) ≡ done key
        → IsSendable keys conn network k key (stored 128 topic) (entry_of payload time)
        → (b : Broker K C W) × (b' : Broker K C W) × (handle_message keys conn timestamp order
              memory
              (broker_waiting conn subscriber 0x82 after store
                (id_high ∷ id_low ∷ filters_wire (fs ++ f ∷ [])))
            ≡ done (ok_status, b))
          × (handle_message keys conn timestamp order memory (
                broker_waiting conn
                  (publisher b.world)
                  control
                  after'
                  b.store
                  (high ∷ low ∷ topic ++ payload))
              ≡ done (ok_status, b'))
          × ((n : ℕ)
              → network.sent n b'.world
                ≡ network.sent n b.world
                  ++ (deliveries keys conn network n key
                        (publish_packet keys conn network k
                          (stored 128 topic)
                          (entry_of payload time))
                        store.observers
                      ++ (if matches keys conn (subscription_of keys conn heap key_of f.topic) key
                          then share keys conn network n heap (
                              publish_packet keys conn network k
                                (stored 128 topic)
                                (entry_of payload time))
                          else [])))
    subscribe-publish equality after after' store id_high id_low fs f control high low topic payload
          time key copies ids kept topics hh hl can_send is qos small e fits ticks encodes
          sendable =
        let (b, joined, entries, observers, grew, left, unread) =
          handle_message-joins keys conn network k topic_of heap key_of subscriber delivers
            timestamp order memory after store id_high id_low fs f copies ids topics hh hl
            can_send in
        let (b', ran, got, same, grew') =
          handle_message-deliveries keys conn network (publisher b.world) (delivers' b.world) after'
            control timestamp order memory equality b.store high low topic payload time key k is qos
            small e fits (ticks _) encodes sendable in
        let packet : List ℕ =
          publish_packet keys conn network k (stored 128 topic) (entry_of payload time) in
        (
          b,
          b',
          joined,
          ran,
          λ n.
              grew' n
              ∙ ap
                  (λ (xs : List ℕ).
                    xs ++ deliveries keys conn network n key packet b.store.observers)
                  (kept n b.world)
              ∙ ap
                  (λ (os : List (ObserverEntry (Subscription K C))).
                    network.sent n b.world ++ deliveries keys conn network n key packet os)
                  observers
              ∙ ap (λ (xs : List ℕ). network.sent n b.world ++ xs)
                  (deliveries-append n key packet store.observers _),
        )
