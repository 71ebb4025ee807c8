-- ===== src/Server/Subscribing.antt =====
-- A SUBSCRIBE from its bytes to the observer.
use gnat.Base.{
  ℕ, ◌+◌, ◌-◌, ◌*◌, ◌/◌, ◌%◌, ◌<◌, ◌≡◌, refl, ap, ◌∙◌, arith, List, [], ◌∷◌, ◌++◌, All, true, false,
  Option, none, some, length, drop, take-append, if◌then◌else◌,
}
use gnat.Base.Outcome.{done, Prog, pure, step, and_then-done, ◌>>=◌}
use gnat.Connection.{ClientConnection}
use gnat.DataStore.{DataStore, DataStoreEntry}
use gnat.Fields.{empty_buffer}
use gnat.Fields.Channel.{Delivers}
use gnat.Header.{packet_type}
use gnat.Key.{KeyType}
use gnat.Packet
use gnat.Packet.{Packet, on_connection, remaining}
use gnat.Packet.Channel.{on_connection-done, packet_waiting}
use gnat.Proto3.Connect.{Connect}
use gnat.Proto3.Subscribe.{read_subscribe}
use gnat.Proto3.Subscribe.Reading.{
  Filter, IsFilter, IsAccepted, filters_wire, captured, read_subscribe-body,
}
use gnat.Proto3.SubscribeAck.{send_subscribe_ack}
use gnat.Proto3.SubscribeAck.Sending.{send_subscribe_ack-wire}
use gnat.Server.Handling.{
  handle_message, handle_type, handle_subscribe, accept_subscribe, ack_for, join,
}
use gnat.Server.Observer.{contains, topic_callback}
use gnat.Server.State.{Broker, Subscription, broker_waiting, on_packet, on_packet-done}
use mathlib.Core.Path.{ap₂}
use gnat.Status.{Status, failure_status}

high_byte : (high low : ℕ) → low < 256 → (high * 256 + low) / 256 ≡ high
high_byte high low h = omega arith

low_of : (high low : ℕ) → low < 256 → (high * 256 + low) % 256 ≡ low
low_of high low h = omega arith

module _ {K C W : Type 0} (keys : KeyType K) (conn : ClientConnection C W) (heap : C)
    (key_of : List ℕ → K) where
  -- The number of characters that go into the key: a topic with `#` drops its last one.
  abbrev pub key_size : List ℕ → ℕ
  key_size topic = if contains b'#' topic then length topic - 1 else length topic

  -- A topic without `+` that has a key, whatever follows it in its buffer.
  pub record IsTopic (f : Filter) : Type 0 where
    pub formed : IsFilter f
    pub plain : contains b'+' f.topic ≡ false
    pub encodes :
        (rest : List ℕ)
        → keys.encode_key (f.topic ++ rest) (key_size f.topic) ≡ done (key_of f.topic)

  -- What the observer of a topic captures.
  abbrev pub subscription_of : List ℕ → Subscription K C
  subscription_of topic = record {
    is_prefix = contains b'#' topic;
    target_key = key_of topic;
    conn = heap;
  }

  abbrev capture : List ℕ → Option (Subscription K C) → Option (Subscription K C)
  capture topic observer = some (subscription_of topic)

  topic_callback-accepts :
      (f : Filter) (rest : List ℕ) (a : Option (Subscription K C)) (s : Packet C × W)
      → IsTopic f
      → conn.create_heap_copy (s.0.connection, s.1) ≡ done (heap, (s.0.connection, s.1))
      → topic_callback keys conn (record { data_ = f.topic ++ rest; length_ = length f.topic }) a s
        ≡ done ((true, capture f.topic a), s)
  unfolding topic_callback
  topic_callback-accepts f rest a (p, w) v copies =
      step _ _ (on_connection-done conn.create_heap_copy p w copies) (
        rw (take-append (length f.topic) f.topic rest refl, v.plain)
          (and_then-done _ _ (v.encodes rest) refl))

  -- The observer that is left after all topics: that of the last one.
  abbrev pub last_observer : List Filter → Option (Subscription K C) → Option (Subscription K C)
  last_observer [] observer = observer
  last_observer (f ∷ fs) observer = last_observer fs (some (subscription_of f.topic))

  -- Reading a SUBSCRIBE with the server's callback.
  module _ (waiting : List ℕ → C × W) (delivers : Delivers conn.read waiting) (after : List ℕ)
      (copies : (bytes : List ℕ)
        → conn.create_heap_copy (waiting bytes) ≡ done (heap, waiting bytes)) where
    IsAccepted-filters :
        (fs : List Filter)
        → All IsTopic fs
        → All (IsAccepted conn waiting delivers 0x82 after (topic_callback keys conn) capture) fs
    IsAccepted-filters [] v = tt
    IsAccepted-filters (f ∷ fs) (v, vs) = (
      record {
        formed = v.formed;
        accepts = λ out a rest.
            topic_callback-accepts f (drop (length f.topic) out.data_) a
              (packet_waiting conn waiting 0x82 after rest) v (copies (rest ++ after));
      },
      IsAccepted-filters fs vs,
    )

    captured-last :
        (fs : List Filter) (a : Option (Subscription K C))
        → captured conn waiting delivers 0x82 after (topic_callback keys conn) capture fs a
          ≡ last_observer fs a
    captured-last [] a = refl
    captured-last (f ∷ fs) a = captured-last fs (some (subscription_of f.topic))

    read_subscribe-topics :
        (id_high id_low : ℕ) (fs : List Filter) (store : DataStore K (Subscription K C))
        → All IsTopic fs
        → on_packet
            (read_subscribe (Packet.read conn) remaining (topic_callback keys conn) none)
            (broker_waiting conn waiting 0x82 after store (id_high ∷ id_low ∷ filters_wire fs))
          ≡ done (
            some (
              record { topic_name = empty_buffer 25; packet_id = id_high * 256 + id_low },
              last_observer fs none,
            ),
            broker_waiting conn waiting 0x82 after store [],
          )
    read_subscribe-topics id_high id_low fs store v =
        on_packet-done (read_subscribe (Packet.read conn) remaining (topic_callback keys conn) none)
          (broker_waiting conn waiting 0x82 after store (id_high ∷ id_low ∷ filters_wire fs))
          (read_subscribe-body conn waiting delivers 0x82 after (topic_callback keys conn) capture
              id_high id_low fs none (IsAccepted-filters fs v)
            ∙ ap
                (λ (o : Option (Subscription K C)). done (
                  some (
                    record { topic_name = empty_buffer 25; packet_id = id_high * 256 + id_low },
                    o,
                  ),
                  packet_waiting conn waiting 0x82 after [],
                ))
                (captured-last fs none))

-- The SUBACK: one response, whatever the number of topics.
module _ {K C W : Type 0} (keys : KeyType K) (conn : ClientConnection C W)
    (order : List (K × DataStoreEntry) → List (K × DataStoreEntry)) where
  -- The answer to a SUBSCRIBE, and then the observer.
  abbrev pub subscribe_answer : ℕ → ℕ → Option (Subscription K C) → Prog (Broker K C W) Status
  subscribe_answer id_high id_low observer =
      on_packet (on_connection (conn.write (0x90 ∷ 3 ∷ id_high ∷ id_low ∷ 0 ∷ []))) >>= λ sent.
      if sent
      then join keys conn order observer
      else pure (failure_status "Unable to send response.")

  ack_bytes :
      (id_high id_low : ℕ) (s : C × W)
      → id_high < 256
      → id_low < 256
      → send_subscribe_ack conn.write
          (ack_for keys conn order
            (record { topic_name = empty_buffer 25; packet_id = id_high * 256 + id_low }))
          s
        ≡ conn.write (0x90 ∷ 3 ∷ id_high ∷ id_low ∷ 0 ∷ []) s
  ack_bytes id_high id_low s hh hl =
      send_subscribe_ack-wire conn.write
        (ack_for keys conn order
          (record { topic_name = empty_buffer 25; packet_id = id_high * 256 + id_low }))
        s (record { id = omega arith; whole = refl }) (omega arith)
      ∙ ap₂ (λ (h l : ℕ). conn.write (0x90 ∷ 3 ∷ h ∷ l ∷ 0 ∷ []) s) (high_byte id_high id_low hl)
          (low_of id_high id_low hl)

  accept_subscribe-bytes :
      (id_high id_low : ℕ) (observer : Option (Subscription K C)) (b : Broker K C W)
      → id_high < 256
      → id_low < 256
      → accept_subscribe keys conn order
          (some
            (record { topic_name = empty_buffer 25; packet_id = id_high * 256 + id_low }, observer))
          b
        ≡ subscribe_answer id_high id_low observer b
  unfolding accept_subscribe on_packet on_connection ◌>>=◌
  accept_subscribe-bytes id_high id_low observer b hh hl =
      rw (ack_bytes id_high id_low (b.packet.connection, b.world) hh hl)

  -- On a connection that delivers its bytes and whose heap copy is the same at all of them, for
  -- topics of at most 128 bytes without + that have a key, the text before the last character for
  -- one with #, HandleMessage on a SUBSCRIBE packet uses it up, writes a SUBACK with its packet id
  -- and one response, and, where that worked, adds the observer of the last topic, with the
  -- matcher of its kind.
  pub handle_message-subscribe :
      (timestamp : Prog W ℕ) (memory : Connect) (heap : C) (key_of : List ℕ → K)
      (waiting : List ℕ → C × W) (delivers : Delivers conn.read waiting) (after : List ℕ)
      (store : DataStore K (Subscription K C)) (id_high id_low : ℕ) (fs : List Filter)
      → ((bytes : List ℕ) → conn.create_heap_copy (waiting bytes) ≡ done (heap, waiting bytes))
      → All (IsTopic keys conn heap key_of) fs
      → id_high < 256
      → id_low < 256
      → handle_message keys conn timestamp order memory
          (broker_waiting conn waiting 0x82 after store (id_high ∷ id_low ∷ filters_wire fs))
        ≡ subscribe_answer id_high id_low
            (last_observer keys conn heap key_of fs none)
            (broker_waiting conn waiting 0x82 after store [])
  unfolding handle_message handle_type handle_subscribe Packet.type packet_type
  handle_message-subscribe timestamp memory heap key_of waiting delivers after store id_high id_low
        fs copies v hh hl =
      step _ _
        (read_subscribe-topics keys conn heap key_of waiting delivers after copies id_high id_low fs
          store v)
        (accept_subscribe-bytes id_high id_low (last_observer keys conn heap key_of fs none)
          (broker_waiting conn waiting 0x82 after store []) hh hl)
