-- ===== src/Examples/Running.antt =====
-- Runs of the server and of a data store: what fails, what ends, and what is reached.
use gnat.Base.{
  ℕ, ◌≡◌, ◌≢◌, refl, arith, List, [], ◌∷◌, ◌++◌, Bool, true, false, ◌==◌, length, length-take, ltb,
  Bool-cases, inl, inr,
}
use gnat.Base.Outcome.{done, out_of_fuel, pure, Prog, and_then, ◌>>=◌, ◌>>=?◌}
use gnat.Connection.{unknown}
use gnat.DataStore.{DataStore, DataStoreEntry, lookup, remove_observers_for_client, remove_client}
use gnat.DataStore.Entries.{IsEquality}
use gnat.DataStore.Observers.{Call, logging}
use gnat.DataStore.Refinement.{Op, set, observe, forget, View, Shows, run, run_view, run-Shows}
use gnat.Examples.Client.{Link, Wires, link, link_read, wires}
use gnat.Fields.{StringBuffer, read_string}
use gnat.Header.{packet_type}
use gnat.Key.{text_keys, encode_text, decode_text, fill_buffer}
use gnat.Key.Equality.{text_keys-IsEquality, integer_keys-IsEquality}
use gnat.Packet
use gnat.Packet.{consume, on_connection}
use gnat.Packet.Shrinking.{Exact}
use gnat.Proto3.Connect.{default_connect}
use gnat.Proto3.Publish.{read_publish}
use gnat.Server.Ending.{Ends}
use gnat.Server.Handling.{handle_message, handle_type, handle_publish, accept_publish}
use gnat.Server.Publishing.{entry_of}
use gnat.Server.Reaching.{
  handle_message-failure, handle_message-ends, Step, handled, removed, here, next, IsStore,
  Reach-IsStore,
}
use gnat.Server.State.{Broker, Subscription, broker_waiting, on_packet}
use gnat.Status.{failure_status, is_ok}

abbrev one_entry : DataStore (List ℕ) (Subscription (List ℕ) Link)
one_entry = record {
  entries = (97 ∷ [], entry_of (5 ∷ 6 ∷ []) 5) ∷ [];
  observers =
      record {
        client_id = 7;
        handler = record { is_prefix = false; target_key = 98 ∷ []; conn = unknown };
      }
      ∷ [];
}

-- A PUBLISH whose topic is to have 200 bytes.
abbrev too_long : Broker (List ℕ) Link Wires
too_long = broker_waiting link (wires []) 0x30 [] one_entry (0 ∷ 200 ∷ 97 ∷ [])

abbrev refused : Broker (List ℕ) Link Wires
refused = broker_waiting link (wires []) 0x30 [] one_entry (97 ∷ [])

refused_run :
    handle_message text_keys link (pure 5) (λ es. es) default_connect too_long
    ≡ done (failure_status "No publish header!", refused)
unfolding handle_message handle_type handle_publish accept_publish read_publish read_string
    Packet.read Packet.type packet_type on_packet on_connection consume link_read and_then ◌>>=◌
    ◌>>=?◌ Packet.type_flags gnat.Fields.read_field
refused_run = refl

handle_message-failure_example : refused.store ≡ too_long.store
unfolding is_ok
handle_message-failure_example =
    handle_message-failure text_keys text_keys-IsEquality link (pure 5) (λ es. es) default_connect
      too_long (failure_status "No publish header!") refused refused_run refl

link_read_ends : (n : ℕ) (s : Link × Wires) → link_read n s ≢ out_of_fuel
unfolding link_read
link_read_ends n (c, w) = elim (Bool-cases (ltb (length w.incoming) n)) [
  | inl short ↦ rw short (λ e. cc)
  | inr enough ↦ rw enough (λ e. cc)
]

encode_text_ends : (bytes : List ℕ) (n : ℕ) → encode_text bytes n ≢ out_of_fuel
unfolding encode_text
encode_text_ends bytes n = elim (Bool-cases (ltb (length bytes) n)) [
  | inl short ↦ rw short (λ e. cc)
  | inr enough ↦ rw enough (λ e. cc)
]

decode_text_ends : (key : List ℕ) (out : StringBuffer) → decode_text key out ≢ out_of_fuel
unfolding decode_text fill_buffer
decode_text_ends key out = elim (Bool-cases (ltb (length out.data_) (length key))) [
  | inl short ↦ rw short (λ e. cc)
  | inr enough ↦ rw enough (λ e. cc)
]

link-Ends : Ends ⊥ text_keys link (pure 5)
link-Ends = record {
  read = link_read_ends;
  write = λ bytes s e. cc;
  write_partial = λ bytes s e. cc;
  close = λ s e. cc;
  copy = λ s e. cc;
  encode = encode_text_ends;
  decode = decode_text_ends;
  time = λ w e. cc;
}

handle_message-ends_example :
    handle_message text_keys link (pure 5) (λ es. es) default_connect too_long ≢ out_of_fuel
handle_message-ends_example =
    handle_message-ends text_keys text_keys-IsEquality link (pure 5) (λ es. es) default_connect
      link-Ends too_long

link_read-Exact : Exact (Unit {0}) link
unfolding link_read
link_read-Exact n (c, w) t bytes e = ground (arith, length-take n w.incoming)

-- The data store after its only client is gone.
abbrev no_observers : DataStore (List ℕ) (Subscription (List ℕ) Link)
no_observers = record one_entry { observers = [] }

removed-Step :
    Step text_keys text_keys-IsEquality link
      (pure 5)
      (λ es. es)
      default_connect
      one_entry
      no_observers
unfolding remove_observers_for_client remove_client
removed-Step = removed 7 refl

Reach-IsStore_example :
    IsStore text_keys text_keys-IsEquality link (pure 5) (λ es. es) default_connect no_observers
unfolding lookup
Reach-IsStore_example =
    Reach-IsStore text_keys text_keys-IsEquality link (pure 5) (λ es. es) default_connect
      link_read-Exact
      (next
        (next here
          (handled too_long (failure_status "No publish header!") refused refl refused_run refl))
        removed-Step)
      (record { unique = (refl, tt); sized = (refl, tt) })

-- A data store with one entry and one observer, the client 7.
abbrev one_client : DataStore ℕ ℕ
one_client = record {
  entries = (3, entry_of (5 ∷ []) 1) ∷ [];
  observers = record { client_id = 7; handler = 1 } ∷ [];
}

abbrev log_call : ℕ → ℕ → DataStoreEntry → Prog (List (Call ℕ ℕ)) (Bool × ℕ)
log_call = logging ◌==◌ (λ h k e. true)

equality : IsEquality ◌==◌
equality = integer_keys-IsEquality true

-- The key 4 is set, the client 8 observes, and the client 7 is forgotten.
abbrev three_ops : List (Op ℕ ℕ)
three_ops =
    set 4 (entry_of (6 ∷ []) 2) ∷ observe (record { client_id = 8; handler = 2 }) ∷ forget 7 ∷ []

abbrev one_view : View ◌==◌ equality log_call (λ es. es)
one_view = record { entry_of = λ k. lookup ◌==◌ log_call k one_client.entries; observing = 7 ∷ [] }

run-Shows_example :
    (store' : DataStore ℕ ℕ) × (log : List (Call ℕ ℕ)) × (run ◌==◌ equality log_call
        (λ es. es)
        three_ops
        (one_client, [])
      ≡ done (tt, (store', log)))
    × Shows ◌==◌ equality log_call
        (λ es. es)
        store'
        (run_view ◌==◌ equality log_call (λ es. es) three_ops one_view)
unfolding lookup
run-Shows_example =
    run-Shows ◌==◌ equality log_call (λ es. es)
      (record { back = λ h k e w. (true, h, w ++ (h, k, e) ∷ [], refl) }) three_ops one_client []
      one_view (record { entries = λ k. refl; observing = refl; unique = (refl, tt) })
