-- ===== src/Server/Answering.antt =====
-- SUBSCRIBE on any connection, where no stored entry is due to the new observer.
use gnat.Server.Fanout.Joining.{last_observer-append}
use gnat.Status.{failure_status, ok_status}
use gnat.DataStore.{add_observer, ObserverEntry, DataStore, DataStoreEntry, replay_loop}
use gnat.Server.Observer.{contains, matches, notify}
use gnat.Base.Outcome.{pure, done, Prog, step, and_then-done}
use gnat.Base.{
  Bool, true, false, if◌then◌else◌, sym, ℕ, ◌<◌, ◌≡◌, refl, ap, ◌∙◌, List, [], ◌∷◌, ◌++◌, All,
  Option, some, none,
}
use gnat.Connection.{ClientConnection}
use gnat.Fields.Channel.{Delivers}
use gnat.Key.{KeyType}
use gnat.Packet.{on_connection}
use gnat.Packet.Channel.{on_connection-done}
use gnat.Proto3.Connect.{Connect}
use gnat.Proto3.Subscribe.Reading.{Filter, filters_wire}
use gnat.Server.Handling.{handle_message, join}
use gnat.Server.State.{Broker, Subscription, broker_waiting, on_packet-done, on_store}
use gnat.Server.Subscribing.{IsTopic, subscription_of, subscribe_answer, handle_message-subscribe}
use mathlib.Core.List.{append-nil}

module _ {K C W : Type 0} (keys : KeyType K) (conn : ClientConnection C W) where
  -- The matcher of a subscription takes none of the keys.
  abbrev pub IsSilent : Subscription K C → List (K × DataStoreEntry) → Type 0
  IsSilent s es = All (λ (x : K × DataStoreEntry). matches keys conn s x.0 ≡ false) es

  replay_loop-silent :
      (s : Subscription K C) (es : List (K × DataStoreEntry)) (w : W)
      → IsSilent s es
      → replay_loop keys.same (notify keys conn) s es w ≡ done (s, w)
  unfolding replay_loop notify
  replay_loop-silent s [] w h = refl
  replay_loop-silent s ((key, e) ∷ rest) w (h, hs) =
      step _ _ {a = (true, s)} (rw h refl) (replay_loop-silent s rest w hs)

  module _ (order : List (K × DataStoreEntry) → List (K × DataStoreEntry)) where
    join-silent :
        (s : Subscription K C) (b : Broker K C W)
        → IsSilent s (order b.store.entries)
        → join keys conn order (some s) b
          ≡ done (
            ok_status,
            record b {
              store = record b.store {
                observers =
                    b.store.observers
                    ++ record { client_id = conn.id (b.packet.connection, b.world); handler = s }
                      ∷ [];
              };
            },
          )
    unfolding join add_observer on_store
    join-silent s b h =
        step _ _
          (and_then-done _ _
            (and_then-done _ _ (replay_loop-silent s (order b.store.entries) b.world h) refl) refl)
          refl

    -- The observer joins where the answer was sent.
    answer-silent :
        (sent : Bool) (s : Subscription K C) (b : Broker K C W)
        → IsSilent s (order b.store.entries)
        → (if sent
              then join keys conn order (some s)
              else pure (failure_status "Unable to send response."))
            b
          ≡ done (
            if sent then ok_status else failure_status "Unable to send response.",
            record b {
              store = record b.store {
                observers =
                    b.store.observers
                    ++ (if sent
                        then record {
                          client_id = conn.id (b.packet.connection, b.world);
                          handler = s;
                        }
                          ∷ []
                        else []);
              };
            },
          )
    answer-silent true s b h = join-silent s b h
    answer-silent false s b h =
        ap
          (λ (os : List (ObserverEntry (Subscription K C))). done (
            failure_status "Unable to send response.",
            record b { store = record b.store { observers = os } },
          ))
          (sym (append-nil b.store.observers))

    module _ (timestamp : Prog W ℕ) (memory : Connect) (heap : C) (key_of : List ℕ → K)
        (waiting : List ℕ → C × W) (delivers : Delivers conn.read waiting) (after : List ℕ)
        (store : DataStore K (Subscription K C)) (id_high id_low : ℕ) (fs : List Filter)
        (f : Filter) where
      -- On a connection that delivers its bytes and whose heap copy is the same at all of them,
      -- for one topic or more of at most 128 bytes without + that have a key, the text before the
      -- last character for one with #, and where the last topic's matcher takes no stored key: if
      -- the connection's Write of a SUBACK with the packet id and one response ends, HandleMessage
      -- on the SUBSCRIBE packet ends with exactly the connection and the world that Write left,
      -- and the packet used up; where Write succeeded, it returns Ok and exactly one observer, of
      -- the last topic, comes behind the others, under the connection's id, with the kind, the key
      -- and the heap copy; where Write failed, it returns Failure and the data store is as before.
      pub handle_message-subscribes :
          {sent : Bool} {c : C} {w : W}
          → ((bytes : List ℕ) → conn.create_heap_copy (waiting bytes) ≡ done (heap, waiting bytes))
          → All (IsTopic keys conn heap key_of) (fs ++ f ∷ [])
          → id_high < 256
          → id_low < 256
          → IsSilent (subscription_of keys conn heap key_of f.topic) (order store.entries)
          → conn.write (0x90 ∷ 3 ∷ id_high ∷ id_low ∷ 0 ∷ []) (waiting after) ≡ done (sent, (c, w))
          → handle_message keys conn timestamp order memory (
              broker_waiting conn waiting 0x82 after store
                (id_high ∷ id_low ∷ filters_wire (fs ++ f ∷ [])))
            ≡ done (
              if sent then ok_status else failure_status "Unable to send response.",
              record {
                packet = record { control = 0x82; bytes_remaining = 0; connection = c };
                store = record store {
                  observers =
                      store.observers
                      ++ (if sent
                          then record {
                            client_id = conn.id (c, w);
                            handler = record {
                              is_prefix = contains b'#' f.topic;
                              target_key = key_of f.topic;
                              conn = heap;
                            };
                          }
                            ∷ []
                          else []);
                };
                world = w;
              },
            )
      handle_message-subscribes {sent} {c} {w} copies topics hh hl silent wrote =
          let s : Subscription K C = subscription_of keys conn heap key_of f.topic in
          let b : Broker K C W = broker_waiting conn waiting 0x82 after store [] in
          let suback : List ℕ = 0x90 ∷ 3 ∷ id_high ∷ id_low ∷ 0 ∷ [] in
          let answered =
            on_packet-done (on_connection (conn.write suback)) b
              (on_connection-done (conn.write suback) b.packet b.world wrote) in
          handle_message-subscribe keys conn order timestamp memory heap key_of waiting delivers
            after store id_high id_low (fs ++ f ∷ []) copies topics hh hl
          ∙ ap
              (λ (o : Option (Subscription K C)).
                subscribe_answer keys conn order id_high id_low o b)
              (last_observer-append keys conn heap key_of fs f none)
          ∙ step _ _ answered (
              answer-silent sent s
                (record b { packet = record b.packet { connection = c }; world = w }) silent)
