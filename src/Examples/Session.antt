-- ===== src/Examples/Session.antt =====
-- A SUBSCRIBE and a PUBLISH on the network of sockets.
use gnat.Base.{
  All, ℕ, ◌≡◌, refl, arith, List, [], ◌∷◌, ◌++◌, true, ◌==◌, if◌then◌else◌, length, take, ltb-false,
  take-append, drop-append, length-append,
}
use gnat.Base.Outcome.{done, pure}
use gnat.Buffer.Writes.{stored}
use gnat.DataStore.{DataStore}
use gnat.Fields.Channel.{Delivers}
use gnat.Header.{packet_type}
use gnat.Fields.Variable.{encoding}
use gnat.Key.{text_keys, text_prefix, encode_text}
use gnat.Key.Equality.{text_keys-IsEquality}
use gnat.Proto3.Connect.{default_connect}
use gnat.Server.Fanout.Joining.{handle_message-joins}
use gnat.Server.Fanout.Session.{subscribe-publish}
use gnat.Server.Subscribing.{IsTopic, key_size}
use gnat.Proto3.Subscribe.Reading.{Filter, filters_wire}
use gnat.Server.Handling.{handle_message}
use gnat.Server.Observer.{contains, matches}
use gnat.Server.Publishing.{entry_of}
use gnat.Server.State.{Broker, Subscription, broker_waiting}
use gnat.Status.{ok_status, same_text}
use gnat.Examples.Network.{
  Sockets, sockets_read, sockets, network, waiting, sockets-Delivers, subscriptions, subscribed,
  IsSendable-short,
}

-- The subscriber is on socket 3; a publisher on socket 4 sends after it.
abbrev publisher : Sockets → List ℕ → ℕ × Sockets
publisher w incoming = (4, record w { incoming = incoming })

publisher-Delivers : (w : Sockets) → Delivers sockets_read (publisher w)
unfolding sockets_read
publisher-Delivers w = record {
  front = λ xs rest. rw (
    ltb-false (length (xs ++ rest)) (length xs) (omega (arith, length-append xs rest)),
    take-append (length xs) xs rest refl,
    drop-append (length xs) xs rest refl,
  );
}

-- A data store with an entry for `ac`, and the observers of above.
abbrev stored_entry : DataStore (List ℕ) (Subscription (List ℕ) ℕ)
stored_entry = record subscribed { entries = (97 ∷ 99 ∷ [], entry_of (8 ∷ []) 3) ∷ [] }

-- The topics `b` and `a#`.
abbrev first_topic : Filter
first_topic = record { high = 0; low = 1; topic = 98 ∷ []; qos = 0 }

abbrev last_topic : Filter
last_topic = record { high = 0; low = 2; topic = 97 ∷ b'#' ∷ []; qos = 0 }

unfoldable topic_key : List ℕ → List ℕ
unfolding contains
topic_key topic = take (key_size text_keys sockets 3 (λ t. t) topic) topic

topics-IsTopic : All (IsTopic text_keys sockets 3 topic_key) (first_topic ∷ last_topic ∷ [])
unfolding topic_key contains encode_text
topics-IsTopic = (
  record {
    formed = record { low_byte = omega arith; sized = refl; short = omega arith };
    plain = refl;
    encodes = λ rest. rw (ltb-false (length (98 ∷ rest)) 1 (omega arith));
  },
  (
    record {
      formed = record { low_byte = omega arith; sized = refl; short = omega arith };
      plain = refl;
      encodes = λ rest. rw (ltb-false (length (97 ∷ b'#' ∷ rest)) 1 (omega arith));
    },
    tt,
  ),
)

handle_message-joins_example :
    (b' : Broker (List ℕ) ℕ Sockets) × (handle_message text_keys sockets
        (pure 5)
        (λ es. es)
        default_connect
        (broker_waiting sockets waiting 0x82 [] stored_entry
          (0 ∷ 7 ∷ filters_wire (first_topic ∷ last_topic ∷ [])))
      ≡ done (ok_status, b'))
    × (b'.store.entries ≡ stored_entry.entries)
    × (b'.store.observers
        ≡ subscriptions
          ++ record {
            client_id = 3;
            handler = record { is_prefix = true; target_key = 97 ∷ []; conn = 3 };
          }
            ∷ [])
    × ((n : ℕ)
        → network.sent n b'.world
          ≡ ([] ++ (if n == 3 then 0x90 ∷ 3 ∷ 0 ∷ 7 ∷ 0 ∷ [] else []))
            ++ ((if n == 3 then 0x30 ∷ 5 ∷ 0 ∷ 2 ∷ 97 ∷ 99 ∷ 8 ∷ [] else []) ++ []))
    × (b'.packet ≡ (broker_waiting sockets waiting 0x82 [] stored_entry []).packet)
    × ((n : ℕ) → network.pending n b'.world ≡ network.pending n (waiting []).1)
unfolding topic_key contains matches text_prefix encoding
handle_message-joins_example =
    handle_message-joins text_keys sockets network 0 (stored 128) 3 topic_key waiting
      sockets-Delivers (pure 5) (λ es. es) default_connect [] stored_entry 0 7 (first_topic ∷ [])
      last_topic (λ bytes. refl) (λ c w w'. refl) topics-IsTopic (omega arith) (omega arith)
      (IsSendable-short (97 ∷ 99 ∷ []) (8 ∷ []) 3 (omega arith) (omega arith), tt)

-- The PUBLISH of `ab` reaches the sockets 1 and 2, and the socket 3 through `a#`.
abbrev packet : List ℕ
packet = 0x30 ∷ 6 ∷ 0 ∷ 2 ∷ 97 ∷ 98 ∷ 5 ∷ 6 ∷ []

subscribe-publish_example :
    (b : Broker (List ℕ) ℕ Sockets) × (b' : Broker (List ℕ) ℕ Sockets) × (handle_message text_keys
        sockets
        (pure 5)
        (λ es. es)
        default_connect
        (broker_waiting sockets waiting 0x82 [] stored_entry
          (0 ∷ 7 ∷ filters_wire (first_topic ∷ last_topic ∷ [])))
      ≡ done (ok_status, b))
    × (handle_message text_keys sockets
          (pure 5)
          (λ es. es)
          default_connect
          (broker_waiting sockets
            (publisher b.world)
            0x30
            []
            b.store
            (0 ∷ 2 ∷ 97 ∷ 98 ∷ 5 ∷ 6 ∷ []))
        ≡ done (ok_status, b'))
    × ((n : ℕ)
        → network.sent n b'.world
          ≡ network.sent n b.world
            ++ (((if n == 1 then packet else [])
                  ++ ((if n == 2 then packet else []) ++ ((if n == 1 then packet else []) ++ [])))
                ++ (if n == 3 then packet else [])))
unfolding topic_key contains matches text_prefix encoding same_text encode_text packet_type
subscribe-publish_example =
    subscribe-publish text_keys sockets network 0 (stored 128) 3 topic_key (pure 5) (λ es. es)
      default_connect waiting sockets-Delivers publisher publisher-Delivers text_keys-IsEquality []
      [] stored_entry 0 7 (first_topic ∷ []) last_topic 0x30 0 2 (97 ∷ 98 ∷ []) (5 ∷ 6 ∷ []) 5
      (97 ∷ 98 ∷ []) (λ bytes. refl) (λ c w w'. refl) (λ n w. refl) topics-IsTopic (omega arith)
      (omega arith) (IsSendable-short (97 ∷ 99 ∷ []) (8 ∷ []) 3 (omega arith) (omega arith), tt)
      refl refl (omega arith) refl (omega arith) (λ w. refl) refl
      (IsSendable-short (97 ∷ 98 ∷ []) (5 ∷ 6 ∷ []) 5 (omega arith) (omega arith))
