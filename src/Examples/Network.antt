-- ===== src/Examples/Network.antt =====
-- A broker on a network of numbered sockets: a connection is the number of its socket.
use gnat.Base.{
  ◌≤◌, ap, replicate, length-drop, ℕ, ◌≡◌, refl, arith, List, [], ◌∷◌, ◌++◌, Bool, true, false,
  Option, none, some, ◌==◌, if◌then◌else◌, length, take, drop, ltb, ltb-false, take-append,
  drop-append, length-append,
}
use gnat.Base.Outcome.{done, pure, Prog}
use gnat.Buffer.Writes.{stored}
use gnat.Connection.{ClientConnection, unknown}
use gnat.DataStore.{DataStore, ObserverEntry, get_entry}
use gnat.Fields.Channel.{Delivers}
use gnat.Header.{packet_type}
use gnat.Key.{text_keys, encode_text, decode_text, fill_buffer}
use gnat.Key.Equality.{text_keys-IsEquality}
use gnat.Proto3.Connect.{default_connect}
use gnat.Server.Fanout.{Network, IsSendable, deliveries, publish_packet}
use gnat.Server.Fanout.Delivery.{handle_message-deliveries}
use gnat.Server.Handling.{handle_message}
use gnat.Server.Observer.{notify}
use gnat.Server.Publishing.{entry_of}
use gnat.Server.State.{Broker, Subscription, broker_waiting}
use gnat.Status.{ok_status}

-- The bytes that wait at the server, and those that each socket was sent.
pub record Sockets : Type 0 where
  pub incoming : List ℕ
  pub sent : ℕ → List ℕ

unfoldable pub sockets_read : ℕ → Prog (ℕ × Sockets) (Option (List ℕ))
sockets_read n (c, w) =
    if ltb (length w.incoming) n
    then done (none, (c, w))
    else done (some (take n w.incoming), (c, record w { incoming = drop n w.incoming }))

-- Each write goes behind what its socket was sent.
abbrev pub sockets_write : List ℕ → Prog (ℕ × Sockets) Bool
sockets_write bytes (c, w) =
    done (true, (c, record w { sent = λ n. w.sent n ++ (if n == c then bytes else []) }))

abbrev pub sockets : ClientConnection ℕ Sockets
sockets = record {
  read = sockets_read;
  write = sockets_write;
  write_partial = sockets_write;
  drain = λ n (c, w). done (true, (c, record w { incoming = drop n w.incoming }));
  close = λ s. done (tt, s);
  id = λ s. s.0;
  connection_type = λ c. unknown;
  set_connection_type = λ t c. c;
  create_heap_copy = λ s. done (s.0, s);
}

abbrev pub network : Network sockets
network = record {
  socket = λ c. c;
  sent = λ n w. w.sent n;
  pending = λ n w. if n == 3 then w.incoming else [];
  writes = λ bytes c w. (
    record w { sent = λ n. w.sent n ++ (if n == c then bytes else []) },
    refl,
    λ n. refl,
    λ n. refl,
  );
  writes_partial = λ bytes c w. (
    record w { sent = λ n. w.sent n ++ (if n == c then bytes else []) },
    refl,
    λ n. refl,
    λ n. refl,
  );
}

-- The client on socket 3 sends.
abbrev pub waiting : List ℕ → ℕ × Sockets
waiting incoming = (3, record { incoming = incoming; sent = λ n. [] })

pub sockets-Delivers : Delivers sockets_read waiting
unfolding sockets_read
sockets-Delivers = record {
  front = λ xs rest. rw (
    ltb-false (length (xs ++ rest)) (length xs) (omega (arith, length-append xs rest)),
    take-append (length xs) xs rest refl,
    drop-append (length xs) xs rest refl,
  );
}

-- The sockets 1 and 2 subscribed to `ab`, the socket 2 to `b` too, and the socket 1 to `a#`.
abbrev pub subscriptions : List (ObserverEntry (Subscription (List ℕ) ℕ))
subscriptions =
    record {
      client_id = 1;
      handler = record { is_prefix = false; target_key = 97 ∷ 98 ∷ []; conn = 1 };
    }
    ∷ record {
      client_id = 2;
      handler = record { is_prefix = false; target_key = 98 ∷ []; conn = 2 };
    }
    ∷ record {
      client_id = 2;
      handler = record { is_prefix = false; target_key = 97 ∷ 98 ∷ []; conn = 2 };
    }
    ∷ record {
      client_id = 1;
      handler = record { is_prefix = true; target_key = 97 ∷ []; conn = 1 };
    }
    ∷ []

abbrev pub subscribed : DataStore (List ℕ) (Subscription (List ℕ) ℕ)
subscribed = record { entries = []; observers = subscriptions }

-- An entry of at most 100 bytes under a topic of at most 20.
pub IsSendable-short :
    (topic payload : List ℕ) (time : ℕ)
    → length topic ≤ 20
    → length payload ≤ 100
    → IsSendable text_keys sockets network 0 topic (stored 128 topic) (entry_of payload time)
unfolding decode_text fill_buffer
IsSendable-short topic payload time h k = record {
  few = omega arith;
  decodes = rw (ltb-false 128 (length topic) (omega arith)) (
      ap
        (λ (n : ℕ).
          done (record { data_ = topic ++ drop (length topic) (replicate 128 0); length_ = n }))
        (omega arith));
  fits = record {
    whole = omega (
      arith,
      length-append topic (drop (length topic) (replicate 128 0)),
      length-drop (length topic) (replicate {A = ℕ} 128 0),
    );
    fits = omega arith;
  };
  sized = refl;
  groups = omega arith;
  int = omega arith;
}

handle_message-deliveries_example :
    (b' : Broker (List ℕ) ℕ Sockets) × (handle_message text_keys sockets
        (pure 5)
        (λ es. es)
        default_connect
        (broker_waiting sockets waiting 0x30 [] subscribed (0 ∷ 2 ∷ 97 ∷ 98 ∷ 5 ∷ 6 ∷ []))
      ≡ done (ok_status, b'))
    × (get_entry text_keys.same (notify text_keys sockets) (97 ∷ 98 ∷ []) b'.store
        ≡ done (entry_of (5 ∷ 6 ∷ []) 5))
    × (b'.store.observers ≡ subscriptions)
    × ((n : ℕ)
        → network.sent n b'.world
          ≡ []
            ++ deliveries text_keys sockets network n
                (97 ∷ 98 ∷ [])
                (publish_packet text_keys sockets network 0
                  (stored 128 (97 ∷ 98 ∷ []))
                  (entry_of (5 ∷ 6 ∷ []) 5))
                subscriptions)
unfolding packet_type encode_text
handle_message-deliveries_example =
    handle_message-deliveries text_keys sockets network waiting sockets-Delivers [] 0x30 (pure 5)
      (λ es. es) default_connect text_keys-IsEquality subscribed 0 2 (97 ∷ 98 ∷ []) (5 ∷ 6 ∷ []) 5
      (97 ∷ 98 ∷ []) 0 refl refl (omega arith) refl (omega arith) refl refl
      (IsSendable-short (97 ∷ 98 ∷ []) (5 ∷ 6 ∷ []) 5 (omega arith) (omega arith))
