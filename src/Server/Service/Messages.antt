-- ===== src/Server/Service/Messages.antt =====
-- Each message, from its first byte to its answer.
use gnat.Base.{
  ℕ, zero, suc, ◌+◌, ◌-◌, ◌*◌, ◌/◌, ◌%◌, ◌≤◌, ◌<◌, ◌^◌, ◌≡◌, refl, sym, ap, ◌∙◌, arith, List, [],
  ◌∷◌, ◌++◌, map, All, Pairs, Pairs-append, Bool, true, false, ◌||◌, Bool-cases, inl, inr,
  if◌then◌else◌, ◌==◌, length, some, none, take, take-append, take-all, leb, ltb, ltb-false,
  length-append,
}
use gnat.Base.Outcome.{Outcome, Prog, done, step, and_then-done}
use gnat.Buffer.Writes.{text}
use gnat.Connection.{ConnectionType, mqtt_31, mqtt_311, mqtt_5}
use gnat.DataStore.{DataStore}
use gnat.Packet
use gnat.Packet.{Packet, destroy, on_connection}
use gnat.Packet.Channel.{on_connection-done, destroy-packet}
use gnat.Proto3.Connect.{Connect}
use gnat.Proto3.Connect.RoundTrip.{connect_body}
use gnat.Server.Signals.{handle_message-pingreq, handle_message-disconnect}
use gnat.Server.Replies.{connect_answer, write_status, handle_message-connect_answer}
use gnat.Server.Service.{Deployment, Post, serve, serve-packet}
use gnat.Server.Service.Mirrors.{Mirrors}
use gnat.Server.Service.Spec.{
  Message, connecting, pinging, disconnecting, View, Retained, after_message, replies, to, connack,
  wire_of, IsMessage,
}
use gnat.Server.State.{Broker, Subscription, broker_waiting, on_packet-done}
use gnat.Status.{ok_status}
use mathlib.Core.List.{append-nil}

connack_far :
    (level : ℕ) → connack (suc (suc (suc (suc (suc (suc level)))))) ≡ 0x20 ∷ 2 ∷ 0 ∷ 0x80 ∷ []
connack_far level = ground arith

module _ {K C W : Type 0} (d : Deployment K C W) where
  open d use {keys, conn, hub, timestamp, order, memory}

  -- The connection with bytes that wait on its socket.
  abbrev pub waiting : C → W → List ℕ → C × W
  waiting c w bytes = (c, hub.arrive (hub.socket c) bytes w)

  abbrev pub posted : C → DataStore K (Subscription K C) → List ℕ → W → Post K C W
  posted c store bytes w = record {
    connection = c;
    store = store;
    world = hub.arrive (hub.socket c) bytes w;
  }

  module _ (reorder : List Retained → List Retained) where
    -- The message is served: the broker shows the next view, and the sockets got the replies.
    abbrev pub Answers : C → DataStore K (Subscription K C) → W → View → Message → Type 0
    Answers c store w v m =
        (b : Post K C W) × (serve keys conn timestamp order memory (posted c store (wire_of m) w)
          ≡ done (some ok_status, b))
        × (hub.socket b.connection ≡ hub.socket c)
        × Mirrors d b.store (after_message m (hub.socket c) v)
        × ((n : ℕ)
            → hub.sent n b.world
              ≡ hub.sent n w ++ replies d.names.starts reorder n m (hub.socket c) v)
        × ((n : ℕ) → hub.pending n b.world ≡ hub.pending n w)

  pub pending-arrive_nothing :
      (n s : ℕ) (w : W) → hub.pending n (hub.arrive s [] w) ≡ hub.pending n w
  pending-arrive_nothing n s w =
      hub.pending-arrive n s [] w
      ∙ elim (Bool-cases (n == s)) [ inl own ↦ rw own refl | inr other ↦ rw other refl ]

  -- An empty packet has nothing to drain.
  pub destroy-empty :
      (control : ℕ) (c : C) (w : W)
      → destroy conn (record { control = control; bytes_remaining = 0; connection = c }, w)
        ≡ done (tt, (record { control = control; bytes_remaining = 0; connection = c }, w))
  unfolding destroy
  destroy-empty control c w = refl

  -- An answer on the packet's connection.
  write_status-sends :
      (bytes : List ℕ) (p : Packet C) (w : W)
      → write_status conn bytes (p, w)
        ≡ done (ok_status, (p, hub.post (hub.socket p.connection) bytes w))
  write_status-sends bytes p w =
      step _ _ (on_connection-done (conn.write bytes) p w (hub.writes bytes p.connection w)) refl

  pub serve-pinging :
      (reorder : List Retained → List Retained) (c : C) (store : DataStore K (Subscription K C))
      (w : W) (v : View)
      → Mirrors d store v
      → Answers reorder c store w v pinging
  unfolding Packet.type gnat.Header.packet_type
  serve-pinging reorder c store w v shown =
      let b : Broker K C W = broker_waiting conn (waiting c w) 0xc0 [] store [] in
      (
        record {
          connection = c;
          store = store;
          world = hub.post (hub.socket c) (0xd0 ∷ 0 ∷ []) (hub.arrive (hub.socket c) [] w);
        },
        serve-packet keys conn timestamp order memory (waiting c w) (hub.delivers c w) 0xc0 [] store
            (omega arith)
            (handle_message-pingreq keys conn timestamp order memory b refl
              ∙ on_packet-done (write_status conn (0xd0 ∷ 0 ∷ [])) b
                  (write_status-sends (0xd0 ∷ 0 ∷ []) b.packet b.world))
            (destroy-empty 0xc0 c _),
        refl,
        shown,
        λ n.
            hub.sent-post n (hub.socket c) (0xd0 ∷ 0 ∷ []) (hub.arrive (hub.socket c) [] w)
            ∙ ap (λ (xs : List ℕ). xs ++ to n (hub.socket c) (0xd0 ∷ 0 ∷ []))
                (hub.sent-arrive n (hub.socket c) [] w),
        λ n. hub.pending-post n (hub.socket c) _ _ ∙ pending-arrive_nothing n (hub.socket c) w,
      )

  pub serve-disconnecting :
      (reorder : List Retained → List Retained) (c : C) (store : DataStore K (Subscription K C))
      (w : W) (v : View)
      → Mirrors d store v
      → Answers reorder c store w v disconnecting
  unfolding Packet.type gnat.Header.packet_type
  serve-disconnecting reorder c store w v shown =
      let b : Broker K C W = broker_waiting conn (waiting c w) 0xe0 [] store [] in
      let (w', closed, same, kept) = hub.closes c (hub.arrive (hub.socket c) [] w) in
      (
        record { connection = c; store = store; world = w' },
        serve-packet keys conn timestamp order memory (waiting c w) (hub.delivers c w) 0xe0 [] store
            (omega arith)
            (handle_message-disconnect keys conn timestamp order memory b refl
              ∙ step _ _
                  (on_packet-done (on_connection conn.close) b
                    (on_connection-done conn.close b.packet b.world closed))
                  refl)
            (destroy-empty 0xe0 c _),
        refl,
        shown,
        λ n. same n ∙ hub.sent-arrive n (hub.socket c) [] w ∙ sym (append-nil (hub.sent n w)),
        λ n. kept n ∙ pending-arrive_nothing n (hub.socket c) w,
      )

  -- The CONNACK, and the connection with its type.
  abbrev WelcomesAs : ℕ → Packet C → W → Type 0
  WelcomesAs level p w =
      (c : C) × (connect_answer conn level (p, w)
        ≡ done
            (ok_status, (record p { connection = c }, hub.post (hub.socket c) (connack level) w)))
      × (hub.socket c ≡ hub.socket p.connection)

  refuse :
      (level : ℕ) (p : Packet C) (w : W)
      → connect_answer conn level (p, w) ≡ write_status conn (connack level) (p, w)
      → WelcomesAs level p w
  refuse level p w e = (p.connection, e ∙ write_status-sends (connack level) p w, refl)

  welcome :
      (level : ℕ) (t : ConnectionType) (p : Packet C) (w : W)
      → connect_answer conn level (p, w)
        ≡ write_status conn
            (connack level)
            (record p { connection = conn.set_connection_type t p.connection }, w)
      → WelcomesAs level p w
  welcome level t p w e = (
    conn.set_connection_type t p.connection,
    e
        ∙ write_status-sends (connack level)
            (record p { connection = conn.set_connection_type t p.connection }) w,
    hub.socket-set_type t p.connection,
  )

  connect_answer-welcomes : (level : ℕ) (p : Packet C) (w : W) → WelcomesAs level p w
  unfolding gnat.Server.Connecting.set_type gnat.Base.Outcome.◌>>=◌ gnat.Base.Outcome.and_then
  connect_answer-welcomes zero p w = refuse 0 p w refl
  connect_answer-welcomes (suc zero) p w = refuse 1 p w refl
  connect_answer-welcomes (suc (suc zero)) p w = refuse 2 p w refl
  connect_answer-welcomes (suc (suc (suc zero))) p w = welcome 3 mqtt_31 p w refl
  connect_answer-welcomes (suc (suc (suc (suc zero)))) p w = welcome 4 mqtt_311 p w refl
  connect_answer-welcomes (suc (suc (suc (suc (suc zero))))) p w = welcome 5 mqtt_5 p w refl
  connect_answer-welcomes (suc (suc (suc (suc (suc (suc level)))))) p w =
      refuse (suc (suc (suc (suc (suc (suc level)))))) p w
        (ap (λ (bytes : List ℕ). write_status conn bytes (p, w)) (sym (connack_far level)))

  pub serve-connecting :
      (reorder : List Retained → List Retained) (c : C) (store : DataStore K (Subscription K C))
      (w : W) (v : View) (m : Connect)
      → IsMessage d.IsName (connecting m)
      → Mirrors d store v
      → Answers reorder c store w v (connecting m)
  serve-connecting reorder c store w v m ok shown =
      let tail : List ℕ = 0 ∷ m.client_id.length_ ∷ text m.client_id in
      let b : Broker K C W = broker_waiting conn (waiting c w) 0x10 [] store tail in
      let (c', answered, same) = connect_answer-welcomes m.protocol_level b.packet b.world in
      let w1 : W = hub.post (hub.socket c') (connack m.protocol_level) w in
      let back : hub.post (hub.socket c') (connack m.protocol_level) b.world
          ≡ hub.arrive (hub.socket c') (tail ++ []) w1 =
        ap
          (λ (s : ℕ).
            hub.post (hub.socket c') (connack m.protocol_level) (hub.arrive s (tail ++ []) w))
          (sym same)
        ∙ hub.post-arrive (hub.socket c') (hub.socket c') (connack m.protocol_level) (tail ++ [])
            w in
      (
        record { connection = c'; store = store; world = hub.arrive (hub.socket c') [] w1 },
        serve-packet keys conn timestamp order memory (waiting c w) (hub.delivers c w) 0x10
            (connect_body m) store ok.small
            (handle_message-connect_answer keys conn timestamp order memory (waiting c w)
                (hub.delivers c w) [] store m ok.sound
              ∙ on_packet-done (connect_answer conn m.protocol_level) b answered)
            (ap (λ (x : W). destroy conn (record b.packet { connection = c' }, x)) back
              ∙ destroy-packet conn (waiting c' w1) (hub.drains c' w1) 0x10 [] tail),
        same,
        shown,
        λ n.
            hub.sent-arrive n (hub.socket c') [] w1
            ∙ hub.sent-post n (hub.socket c') (connack m.protocol_level) w
            ∙ ap (λ (s : ℕ). hub.sent n w ++ to n s (connack m.protocol_level)) same,
        λ n. pending-arrive_nothing n (hub.socket c') w1 ∙ hub.pending-post n (hub.socket c') _ w,
      )
