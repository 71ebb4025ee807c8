-- ===== src/Examples/Serving.antt =====
-- Packets that the server handles.
use gnat.Base.{true, ℕ, ◌≡◌, ◌≢◌, refl, arith, List, [], ◌∷◌, false, All, take, ltb-false, length}
use gnat.Server.Failing.{handle_message-unread}
use gnat.Base.Outcome.{undefined, done, pure, and_then, ◌>>=◌}
use gnat.Buffer.{append, put, copy}
use gnat.Connection.{unknown, mqtt_311}
use gnat.DataStore.{DataStore, ObserverEntry, notify_loop, get_entry}
use gnat.Examples.Client.{Link, Wires, link, link-Delivers, wires, default_IsConnect}
use gnat.Header.{packet_code, packet_type}
use gnat.Key.{text_keys, encode_text, decode_text, fill_buffer}
use gnat.Key.Equality.{text_keys-IsEquality}
use gnat.Proto3.Connect.{default_connect}
use gnat.Proto3.Connect.RoundTrip.{connect_body}
use gnat.Proto3.Publish.{send_publish, fill_publish, put_length, length_loop, check_current_byte}
use gnat.Server.Handling.{handle_message}
use gnat.Server.Observer.{contains, matches, notify}
use gnat.Server.Publishing.{entry_of, handle_message-publish}
use gnat.Server.Replies.{handle_message-connect}
use gnat.Proto3.Subscribe.Reading.{Filter, filters_wire}
use gnat.Server.Answering.{handle_message-subscribes}
use gnat.Server.Subscribing.{IsTopic, key_size}
use gnat.Server.State.{Subscription, broker_waiting}
use gnat.Status.{same_text, ok_status}

abbrev no_store : DataStore (List ℕ) (Subscription (List ℕ) Link)
no_store = record { entries = []; observers = [] }

handle_message-connect_example :
    handle_message text_keys link
      (pure 5)
      (λ es. es)
      default_connect
      (broker_waiting link (wires []) 0x10 [] no_store (connect_body default_connect))
    ≡ done (
      ok_status,
      record {
        packet = record { control = 0x10; bytes_remaining = 6; connection = mqtt_311 };
        store = no_store;
        world = record {
          incoming = 0 ∷ 4 ∷ b'G' ∷ b'N' ∷ b'A' ∷ b'T' ∷ [];
          outgoing = 0x20 ∷ 2 ∷ 0 ∷ 0 ∷ [];
        };
      },
    )
unfolding and_then
handle_message-connect_example =
    handle_message-connect text_keys link (pure 5) (λ es. es) default_connect (wires [])
      (link-Delivers []) [] no_store default_connect default_IsConnect

-- The client 7 subscribed to the topic `ab`.
abbrev one_observer : List (ObserverEntry (Subscription (List ℕ) Link))
one_observer =
    record {
      client_id = 7;
      handler = record { is_prefix = false; target_key = 97 ∷ 98 ∷ []; conn = unknown };
    }
    ∷ []

abbrev subscribed : DataStore (List ℕ) (Subscription (List ℕ) Link)
subscribed = record { entries = []; observers = one_observer }

-- The PUBLISH that the client gets: the payload 5, 6 under its topic.
abbrev notified : Wires
notified = record { incoming = 9 ∷ []; outgoing = 0x30 ∷ 6 ∷ 0 ∷ 2 ∷ 97 ∷ 98 ∷ 5 ∷ 6 ∷ [] }

notified_run :
    notify_loop same_text
      (notify text_keys link)
      (97 ∷ 98 ∷ [])
      (entry_of (5 ∷ 6 ∷ []) 5)
      one_observer
      (record { incoming = 9 ∷ []; outgoing = [] })
    ≡ done (one_observer, notified)
unfolding notify_loop notify matches same_text decode_text fill_buffer send_publish fill_publish
    put_length length_loop check_current_byte put copy append packet_code and_then ◌>>=◌
notified_run = refl

handle_message-publish_example :
    (store' : DataStore (List ℕ) (Subscription (List ℕ) Link)) × (handle_message text_keys link
        (pure 5)
        (λ es. es)
        default_connect
        (broker_waiting link (wires []) 0x30 (9 ∷ []) subscribed (0 ∷ 2 ∷ 97 ∷ 98 ∷ 5 ∷ 6 ∷ []))
      ≡ done (
        ok_status,
        record (broker_waiting link (wires []) 0x30 (9 ∷ []) subscribed []) {
          store = store';
          world = notified;
        },
      ))
    × (get_entry same_text (notify text_keys link) (97 ∷ 98 ∷ []) store'
        ≡ done (entry_of (5 ∷ 6 ∷ []) 5))
    × ((other : List ℕ)
        → (97 ∷ 98 ∷ []) ≢ other
        → get_entry same_text (notify text_keys link) other store'
          ≡ get_entry same_text (notify text_keys link) other subscribed)
    × (store'.observers ≡ one_observer)
unfolding packet_type encode_text
handle_message-publish_example =
    handle_message-publish text_keys link (pure 5) (wires []) (link-Delivers []) (9 ∷ []) 0x30
      (λ es. es) default_connect text_keys-IsEquality subscribed 0 2 (97 ∷ 98 ∷ []) (5 ∷ 6 ∷ []) 5
      (97 ∷ 98 ∷ []) {observers = one_observer} {w = notified} refl refl (omega arith) refl
      (omega arith) refl refl notified_run

-- The topics `a#` and `b`.
abbrev two_topics : List Filter
two_topics =
    record { high = 0; low = 2; topic = 97 ∷ b'#' ∷ []; qos = 0 }
    ∷ record { high = 0; low = 1; topic = 98 ∷ []; qos = 0 }
    ∷ []

-- The string key of a topic.
unfoldable text_key : List ℕ → List ℕ
unfolding contains
text_key topic = take (key_size text_keys link unknown (λ t. t) topic) topic

two_IsTopic : All (IsTopic text_keys link unknown text_key) two_topics
unfolding text_key contains encode_text
two_IsTopic = (
  record {
    formed = record { low_byte = omega arith; sized = refl; short = omega arith };
    plain = refl;
    encodes = λ rest. rw (ltb-false (length (97 ∷ b'#' ∷ rest)) 1 (omega arith));
  },
  (
    record {
      formed = record { low_byte = omega arith; sized = refl; short = omega arith };
      plain = refl;
      encodes = λ rest. rw (ltb-false (length (98 ∷ rest)) 1 (omega arith));
    },
    tt,
  ),
)

-- An entry for `c`, which the topic `b` does not take.
abbrev one_entry : DataStore (List ℕ) (Subscription (List ℕ) Link)
one_entry = record { entries = (99 ∷ [], entry_of (8 ∷ []) 3) ∷ []; observers = [] }

handle_message-subscribes_example :
    handle_message text_keys link
      (pure 5)
      (λ es. es)
      default_connect
      (broker_waiting link (wires []) 0x82 [] one_entry (0 ∷ 7 ∷ filters_wire two_topics))
    ≡ done (
      ok_status,
      record {
        packet = record { control = 0x82; bytes_remaining = 0; connection = unknown };
        store = record one_entry {
          observers =
              record {
                client_id = 7;
                handler = record { is_prefix = false; target_key = 98 ∷ []; conn = unknown };
              }
              ∷ [];
        };
        world = record { incoming = []; outgoing = 0x90 ∷ 3 ∷ 0 ∷ 7 ∷ 0 ∷ [] };
      },
    )
unfolding text_key contains matches same_text
handle_message-subscribes_example =
    handle_message-subscribes text_keys link (λ es. es) (pure 5) default_connect unknown text_key
      (wires []) (link-Delivers []) [] one_entry 0 7
      (record { high = 0; low = 2; topic = 97 ∷ b'#' ∷ []; qos = 0 } ∷ [])
      (record { high = 0; low = 1; topic = 98 ∷ []; qos = 0 }) {sent = true} (λ t. refl) two_IsTopic
      (omega arith) (omega arith) (refl, tt) refl

-- A CONNECT of twelve bytes of which none came.
handle_message-unread_example :
    handle_message text_keys link
      (pure 5)
      (λ es. es)
      default_connect
      (record {
        packet = record { control = 0x10; bytes_remaining = 12; connection = unknown };
        store = no_store;
        world = record { incoming = []; outgoing = [] };
      })
    ≡ undefined
unfolding packet_type gnat.Packet.type gnat.Examples.Client.link_read
handle_message-unread_example =
    handle_message-unread text_keys link (pure 5) (λ es. es) default_connect
      (record {
        packet = record { control = 0x10; bytes_remaining = 12; connection = unknown };
        store = no_store;
        world = record { incoming = []; outgoing = [] };
      })
      refl refl
