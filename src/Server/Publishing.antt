-- ===== src/Server/Publishing.antt =====
-- A PUBLISH from its bytes to the data store.
use gnat.Base.{
  ℕ, ◌*◌, ◌+◌, ◌/◌, ◌≤◌, ◌<◌, ◌≡◌, ◌≢◌, refl, ap, ◌∙◌, List, [], ◌∷◌, ◌++◌, true, some, length,
  bit_and, ◌==◌,
}
use gnat.Base.Outcome.{done, Prog, pure, step, and_then-done, ◌>>=◌}
use gnat.Buffer.Writes.{stored}
use gnat.Connection.{ClientConnection}
use gnat.DataStore.{DataStore, DataStoreEntry, ObserverEntry, get_entry, notify_loop, set_entry}
use gnat.DataStore.Entries.{
  IsEquality, set_store, set_entry-notified, get_entry-set_self, get_entry-set_other,
}
use gnat.Fields.Channel.{Delivers}
use gnat.Header.{publish, packet_type}
use gnat.Key.{KeyType}
use gnat.Packet
use gnat.Packet.{Packet, remaining}
use gnat.Packet.Channel.{packet_waiting, packet-Delivers}
use gnat.Proto3.Connect.{Connect}
use gnat.Proto3.Publish.{read_publish}
use gnat.Proto3.Publish.Reading.{HasId, read_publish-any_body}
use gnat.Server.Handling.{
  handle_message, handle_type, handle_publish, accept_publish, store_publish, make_key,
}
use gnat.Server.Observer.{notify}
use gnat.Server.State.{Broker, Subscription, broker_waiting, on_packet-done, on_store, on_world}
use gnat.Status.{ok_status}
use mathlib.Core.List.{append-nil}

-- What is stored: the payload, its size and the time.
abbrev pub entry_of : List ℕ → ℕ → DataStoreEntry
entry_of payload time = record { bytes = payload; size = length payload; timestamp = time }

module _ {K C W : Type 0} (keys : KeyType K) (conn : ClientConnection C W) (timestamp : Prog W ℕ)
    (waiting : List ℕ → C × W) (delivers : Delivers conn.read waiting) (after : List ℕ)
    (control : ℕ) where
  here : DataStore K (Subscription K C) → List ℕ → Broker K C W
  here = broker_waiting conn waiting control after

  -- The payload is all that is left of the packet.
  read_payload :
      (payload : List ℕ)
      → Packet.read conn (length payload) (packet_waiting conn waiting control after payload)
        ≡ done (some payload, packet_waiting conn waiting control after [])
  read_payload payload =
      rw append-nil at ((packet-Delivers conn waiting delivers control after).front payload [])

  accept_publish-body :
      (store : DataStore K (Subscription K C)) (topic payload : List ℕ) (time : ℕ) (key : K)
      → timestamp (waiting (payload ++ after)).1 ≡ done (time, (waiting (payload ++ after)).1)
      → keys.encode_key (stored 128 topic).data_ (length topic) ≡ done key
      → accept_publish keys conn timestamp
          (some (record { topic = stored 128 topic; payload_bytes = length payload }))
          (here store payload)
        ≡ (on_store (set_entry keys.same (notify keys conn) key (entry_of payload time)) >>= λ _.
              pure ok_status)
            (here store [])
  unfolding accept_publish here store_publish make_key on_world
  accept_publish-body store topic payload time key ticks encodes =
      step _ _ (and_then-done _ _ ticks refl) (
        step _ _
          (on_packet-done (Packet.read conn (length payload)) (here store payload)
            (read_payload payload))
          (step _ _ (and_then-done _ _ encodes refl) refl))

  handle_publish-body :
      (store : DataStore K (Subscription K C)) (high low : ℕ) (id topic payload : List ℕ)
      → HasId (bit_and control 0xf) id
      → low < 256
      → high * 256 + low ≡ length topic
      → length topic ≤ 128
      → handle_publish keys conn timestamp (here store (high ∷ low ∷ topic ++ (id ++ payload)))
        ≡ accept_publish keys conn timestamp
            (some (record { topic = stored 128 topic; payload_bytes = length payload }))
            (here store payload)
  unfolding handle_publish here Packet.type_flags
  handle_publish-body store high low id topic payload has hl e fits =
      step _ _
        (on_packet-done (read_publish (Packet.read conn) remaining (bit_and control 0xf))
          (here store (high ∷ low ∷ topic ++ (id ++ payload)))
          (read_publish-any_body conn waiting delivers control after (bit_and control 0xf) high low
            id topic payload has hl e fits))
        refl

  handle_message-publish_type :
      (order : List (K × DataStoreEntry) → List (K × DataStoreEntry)) (memory : Connect)
      (b : Broker K C W)
      → Packet.type b.packet ≡ publish
      → handle_message keys conn timestamp order memory b ≡ handle_publish keys conn timestamp b
  unfolding handle_message handle_type
  handle_message-publish_type order memory b e =
      ap (λ t. handle_type keys conn timestamp order memory t b) e

  store_entry :
      (equality : IsEquality keys.same) (store : DataStore K (Subscription K C)) (key : K)
      (entry : DataStoreEntry) {observers : List (ObserverEntry (Subscription K C))} {w : W}
      → notify_loop keys.same (notify keys conn) key entry store.observers (waiting after).1
        ≡ done (observers, w)
      → (on_store (set_entry keys.same (notify keys conn) key entry) >>= λ _. pure ok_status)
          (here store [])
        ≡ done (
          ok_status,
          record (here store []) {
            store =
                set_store keys.same equality (notify keys conn) key entry store.entries observers;
            world = w;
          },
        )
  unfolding on_store here
  store_entry equality store key entry notified =
      step _ _
        (and_then-done _ _
          (set_entry-notified keys.same equality (notify keys conn) key entry store
            (waiting after).1 notified)
          refl)
        refl

  -- The data store that is left is given outright.
  pub handle_message-stores :
      (order : List (K × DataStoreEntry) → List (K × DataStoreEntry)) (memory : Connect)
      (equality : IsEquality keys.same) (store : DataStore K (Subscription K C)) (high low : ℕ)
      (id topic payload : List ℕ) (time : ℕ) (key : K)
      {observers : List (ObserverEntry (Subscription K C))} {w : W}
      → packet_type (control / 16) ≡ publish
      → HasId (bit_and control 0xf) id
      → low < 256
      → high * 256 + low ≡ length topic
      → length topic ≤ 128
      → timestamp (waiting (payload ++ after)).1 ≡ done (time, (waiting (payload ++ after)).1)
      → keys.encode_key (stored 128 topic).data_ (length topic) ≡ done key
      → notify_loop keys.same
          (notify keys conn)
          key
          (entry_of payload time)
          store.observers
          (waiting after).1
        ≡ done (observers, w)
      → handle_message keys conn timestamp order memory
          (broker_waiting conn waiting control after store (high ∷ low ∷ topic ++ (id ++ payload)))
        ≡ done (
          ok_status,
          record (broker_waiting conn waiting control after store []) {
            store =
                set_store keys.same equality
                  (notify keys conn)
                  key
                  (entry_of payload time)
                  store.entries
                  observers;
            world = w;
          },
        )
  unfolding here Packet.type
  handle_message-stores order memory equality store high low id topic payload time key is has hl e
        fits ticks encodes notified =
      handle_message-publish_type order memory (here store (high ∷ low ∷ topic ++ (id ++ payload)))
        is
      ∙ handle_publish-body store high low id topic payload has hl e fits
      ∙ accept_publish-body store topic payload time key ticks encodes
      ∙ store_entry equality store key (entry_of payload time) notified

  -- On a connection that delivers its bytes, a clock whose reading at that point does not change
  -- the world and a key equality that decides, HandleMessage on a PUBLISH packet of QoS 0, whose
  -- topic has at most 128 bytes and an encoding as a key, returns Ok once the observers' handlers
  -- have run: the packet is used up, Get of the topic's key gives the payload with its size and
  -- the time, and Get of any other key is as before.
  pub handle_message-publish :
      (order : List (K × DataStoreEntry) → List (K × DataStoreEntry)) (memory : Connect)
      (equality : IsEquality keys.same) (store : DataStore K (Subscription K C)) (high low : ℕ)
      (topic payload : List ℕ) (time : ℕ) (key : K)
      {observers : List (ObserverEntry (Subscription K C))} {w : W}
      → packet_type (control / 16) ≡ publish
      → (bit_and (bit_and control 0xf / 2) 3 == 0) ≡ true
      → low < 256
      → high * 256 + low ≡ length topic
      → length topic ≤ 128
      → timestamp (waiting (payload ++ after)).1 ≡ done (time, (waiting (payload ++ after)).1)
      → keys.encode_key (stored 128 topic).data_ (length topic) ≡ done key
      → notify_loop keys.same
          (notify keys conn)
          key
          (entry_of payload time)
          store.observers
          (waiting after).1
        ≡ done (observers, w)
      → (store' : DataStore K (Subscription K C)) × (handle_message keys conn timestamp order memory
            (broker_waiting conn waiting control after store (high ∷ low ∷ topic ++ payload))
          ≡ done (
            ok_status,
            record (broker_waiting conn waiting control after store []) {
              store = store';
              world = w;
            },
          ))
        × (get_entry keys.same (notify keys conn) key store' ≡ done (entry_of payload time))
        × ((other : K)
            → key ≢ other
            → get_entry keys.same (notify keys conn) other store'
              ≡ get_entry keys.same (notify keys conn) other store)
        × (store'.observers ≡ observers)
  handle_message-publish order memory equality store high low topic payload time key
        {observers = os} is qos hl e fits ticks encodes notified =
      (
        set_store keys.same equality (notify keys conn) key (entry_of payload time) store.entries
            os,
        handle_message-stores order memory equality store high low [] topic payload time key is qos
            hl e fits ticks encodes notified,
        get_entry-set_self keys.same equality (notify keys conn) key (entry_of payload time)
            store.entries os,
        λ other h.
            get_entry-set_other keys.same equality (notify keys conn) key other
              (entry_of payload time) store os h,
        refl,
      )
