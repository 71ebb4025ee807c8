-- ===== src/Server/Fanout/Joining.antt =====
-- A SUBSCRIBE from its bytes to the SUBACK and the stored entries on the subscriber's sockets.
use gnat.Base.{
  ℕ, ◌<◌, ◌≡◌, refl, sym, ap, ◌∙◌, List, [], ◌∷◌, ◌++◌, All, if◌then◌else◌, Option, some, none,
}
use gnat.Base.Outcome.{done, Prog, step, and_then-done}
use gnat.Connection.{ClientConnection}
use gnat.DataStore.{DataStore, DataStoreEntry, replay_loop, add_observer}
use gnat.Fields.{StringBuffer}
use gnat.Fields.Channel.{Delivers}
use gnat.Key.{KeyType}
use gnat.Packet.{on_connection}
use gnat.Packet.Channel.{on_connection-done}
use gnat.Proto3.Connect.{Connect}
use gnat.Proto3.Subscribe.Reading.{Filter, filters_wire}
use gnat.Server.Fanout.{Network, IsSendable, share, publish_packet, notify-sends}
use gnat.Server.Handling.{handle_message, join}
use gnat.Server.Observer.{matches, notify}
use gnat.Server.State.{Broker, Subscription, broker_waiting, on_packet-done, on_store}
use gnat.Server.Subscribing.{
  IsTopic, last_observer, subscription_of, subscribe_answer, handle_message-subscribe,
}
use gnat.Status.{ok_status}
use mathlib.Core.List.{append-nil, append_assoc}

module _ {K C W : Type 0} (keys : KeyType K) (conn : ClientConnection C W) (network : Network conn)
    (k : ℕ) (topic_of : K → StringBuffer) where
  -- What socket `n` gets of the entries, in their order, through a subscription.
  abbrev pub replays : ℕ → Subscription K C → List (K × DataStoreEntry) → List ℕ
  replays n s [] = []
  replays n s ((key, e) ∷ rest) =
      (if matches keys conn s key
        then share keys conn network n s.conn (publish_packet keys conn network k (topic_of key) e)
        else [])
      ++ replays n s rest

  -- An entry that can be sent, under the topic of its key.
  abbrev pub CanSend : K × DataStoreEntry → Type 0
  CanSend (key, e) = IsSendable keys conn network k key (topic_of key) e

  pub replay_loop-sends :
      (s : Subscription K C) (es : List (K × DataStoreEntry)) (w : W)
      → All CanSend es
      → (w' : W) × (replay_loop keys.same (notify keys conn) s es w ≡ done (s, w'))
        × ((n : ℕ) → network.sent n w' ≡ network.sent n w ++ replays n s es)
        × ((n : ℕ) → network.pending n w' ≡ network.pending n w)
  unfolding replay_loop
  replay_loop-sends s [] w h = (w, refl, λ n. sym (append-nil (network.sent n w)), λ n. refl)
  replay_loop-sends s ((key, e) ∷ rest) w (h, hs) =
      let (w1, told, grew, kept) = notify-sends keys conn network k key (topic_of key) e h s w in
      let (w2, later, grew', kept') = replay_loop-sends s rest w1 hs in
      (
        w2,
        step _ _ told later,
        λ n.
            grew' n
            ∙ ap (λ (xs : List ℕ). xs ++ replays n s rest) (grew n)
            ∙ append_assoc (network.sent n w) _ _,
        λ n. kept' n ∙ kept n,
      )

  module _ (order : List (K × DataStoreEntry) → List (K × DataStoreEntry)) where
    -- The new observer comes behind the others, once it was told of every entry.
    join-sends :
        (s : Subscription K C) (b : Broker K C W)
        → All CanSend (order b.store.entries)
        → (w' : W) × (join keys conn order (some s) b
            ≡ done (
              ok_status,
              record b {
                store = record b.store {
                  observers =
                      b.store.observers
                      ++ record { client_id = conn.id (b.packet.connection, b.world); handler = s }
                        ∷ [];
                };
                world = w';
              },
            ))
          × ((n : ℕ)
              → network.sent n w' ≡ network.sent n b.world ++ replays n s (order b.store.entries))
          × ((n : ℕ) → network.pending n w' ≡ network.pending n b.world)
    unfolding join add_observer on_store
    join-sends s b h =
        let (w', told, grew, kept) = replay_loop-sends s (order b.store.entries) b.world h in
        (w', step _ _ (and_then-done _ _ (and_then-done _ _ told refl) refl) refl, grew, kept)

pub last_observer-append :
    {K C W : Type 0} (keys : KeyType K) (conn : ClientConnection C W) (heap : C)
    (key_of : List ℕ → K) (fs : List Filter) (f : Filter) (o : Option (Subscription K C))
    → last_observer keys conn heap key_of (fs ++ f ∷ []) o
      ≡ some (subscription_of keys conn heap key_of f.topic)
last_observer-append keys conn heap key_of [] f o = refl
last_observer-append keys conn heap key_of (g ∷ fs) f o =
    last_observer-append keys conn heap key_of fs f _

module _ {K C W : Type 0} (keys : KeyType K) (conn : ClientConnection C W) (network : Network conn)
    (k : ℕ) (topic_of : K → StringBuffer) (heap : C) (key_of : List ℕ → K)
    (waiting : List ℕ → C × W) (delivers : Delivers conn.read waiting) where
  -- On a network where each write puts its bytes behind what its socket was sent and leaves what
  -- waits to be read, on a connection that delivers its bytes, keeps its id and has one heap copy,
  -- for topics of at most 128 bytes without + that have a key, and entries that can be sent under
  -- the topics of their keys, HandleMessage on a SUBSCRIBE packet returns Ok; the entries are
  -- those of before, the observer of the last topic comes behind the others under the connection's
  -- id, and the connection's socket is sent a SUBACK with the packet id and one response, before
  -- the copy's socket is sent a PUBLISH packet for every stored entry whose key the matcher takes,
  -- in the map's order; no other socket is sent anything, the packet is used up, and what waits on
  -- the sockets is as before.
  pub handle_message-joins :
      (timestamp : Prog W ℕ) (order : List (K × DataStoreEntry) → List (K × DataStoreEntry))
      (memory : Connect) (after : List ℕ) (store : DataStore K (Subscription K C))
      (id_high id_low : ℕ) (fs : List Filter) (f : Filter)
      → ((bytes : List ℕ) → conn.create_heap_copy (waiting bytes) ≡ done (heap, waiting bytes))
      → ((c : C) (w w' : W) → conn.id (c, w) ≡ conn.id (c, w'))
      → All (IsTopic keys conn heap key_of) (fs ++ f ∷ [])
      → id_high < 256
      → id_low < 256
      → All (CanSend keys conn network k topic_of) (order store.entries)
      → (b' : Broker K C W) × (handle_message keys conn timestamp order memory (
            broker_waiting conn waiting 0x82 after store
              (id_high ∷ id_low ∷ filters_wire (fs ++ f ∷ [])))
          ≡ done (ok_status, b'))
        × (b'.store.entries ≡ store.entries)
        × (b'.store.observers
            ≡ store.observers
              ++ record {
                client_id = conn.id (waiting after);
                handler = subscription_of keys conn heap key_of f.topic;
              }
                ∷ [])
        × ((n : ℕ)
            → network.sent n b'.world
              ≡ (network.sent n (waiting after).1
                  ++ share keys conn network n
                      (waiting after).0
                      (0x90 ∷ 3 ∷ id_high ∷ id_low ∷ 0 ∷ []))
                ++ replays keys conn network k topic_of n
                    (subscription_of keys conn heap key_of f.topic)
                    (order store.entries))
        × (b'.packet ≡ (broker_waiting conn waiting 0x82 after store []).packet)
        × ((n : ℕ) → network.pending n b'.world ≡ network.pending n (waiting after).1)
  handle_message-joins timestamp order memory after store id_high id_low fs f copies ids topics hh
        hl can_send =
      let s : Subscription K C = subscription_of keys conn heap key_of f.topic in
      let suback : List ℕ = 0x90 ∷ 3 ∷ id_high ∷ id_low ∷ 0 ∷ [] in
      let b : Broker K C W = broker_waiting conn waiting 0x82 after store [] in
      let (w1, wrote, grew, kept) = network.writes suback (waiting after).0 (waiting after).1 in
      let b1 : Broker K C W = record b { world = w1 } in
      let (w2, joined, grew', kept') =
        join-sends keys conn network k topic_of order s b1 can_send in
      (
        record b1 {
          store = record store {
            observers =
                store.observers
                ++ record { client_id = conn.id ((waiting after).0, w1); handler = s } ∷ [];
          };
          world = w2;
        },
        handle_message-subscribe keys conn order timestamp memory heap key_of waiting delivers after
              store id_high id_low (fs ++ f ∷ []) copies topics hh hl
            ∙ ap
                (λ (o : Option (Subscription K C)).
                  subscribe_answer keys conn order id_high id_low o b)
                (last_observer-append keys conn heap key_of fs f none)
            ∙ step _ _
                (on_packet-done (on_connection (conn.write suback)) b
                  (on_connection-done (conn.write suback) b.packet b.world wrote))
                joined,
        refl,
        ap (λ (id : ℕ). store.observers ++ record { client_id = id; handler = s } ∷ [])
            (ids (waiting after).0 w1 (waiting after).1),
        λ n.
            grew' n
            ∙ ap
                (λ (xs : List ℕ).
                  xs ++ replays keys conn network k topic_of n s (order store.entries))
                (grew n),
        refl,
        λ n. kept' n ∙ kept n,
      )
