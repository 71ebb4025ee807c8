-- ===== src/Server/State.antt =====
-- The state of Server::HandleMessage (include/gnat/server.h): the packet, the data store and the world.
use gnat.Base.{ℕ, List, Bool, if◌then◌else◌, ◌≡◌, refl}
use gnat.Base.Outcome.{done, Prog, and_then, and_then-done, ◌>>=◌}
use gnat.Base.Ensures.{Ensures, Ensures-done, Ensures-and_then}
use gnat.Packet.{Packet}
use gnat.Packet.Channel.{packet_waiting}
use gnat.Connection.{ClientConnection}
use gnat.DataStore.{DataStore}
use gnat.Status.{Status, ok_status, failure_status}

-- What an observer captures: the key matcher and a connection of its own.
pub record Subscription (K C : Type 0) : Type 0 where
  pub is_prefix : Bool
  pub target_key : K
  pub conn : C

-- What HandleMessage works on: its packet, the data store, and the world.
pub record Broker (K C W : Type 0) : Type 0 where
  pub packet : Packet C
  pub store : DataStore K (Subscription K C)
  pub world : W

module _ {K C W : Type 0} where
  unfoldable pub on_packet : {A : Type 0} → Prog (Packet C × W) A → Prog (Broker K C W) A
  on_packet m b =
      and_then (m (b.packet, b.world)) λ (a, (p, w)). done (a, record b { packet = p; world = w })

  unfoldable pub on_store :
      {A : Type 0} → Prog (DataStore K (Subscription K C) × W) A → Prog (Broker K C W) A
  on_store m b =
      and_then (m (b.store, b.world)) λ (a, (s, w)). done (a, record b { store = s; world = w })

  unfoldable pub on_world : {A : Type 0} → Prog W A → Prog (Broker K C W) A
  on_world m b = and_then (m b.world) λ (a, w). done (a, record b { world = w })

-- The status of an answer that was sent or not.
abbrev pub response_status : Bool → Status
response_status sent = if sent then ok_status else failure_status "Unable to send response."

module _ {K C W : Type 0} where
  -- The packet's part of a broker is what a run on the packet sees.
  pub on_packet-step :
      {A B : Type 0} (m : Prog (Packet C × W) A) (f : A → Prog (Packet C × W) B) (b : Broker K C W)
      {a : A} {s : Packet C × W}
      → m (b.packet, b.world) ≡ done (a, s)
      → on_packet (m >>= f) b ≡ on_packet (f a) (record b { packet = s.0; world = s.1 })
  unfolding on_packet ◌>>=◌
  on_packet-step m f b e = rw e

  pub on_packet-same :
      {A : Type 0} (m n : Prog (Packet C × W) A) (b : Broker K C W)
      → m (b.packet, b.world) ≡ n (b.packet, b.world)
      → on_packet m b ≡ on_packet n b
  unfolding on_packet
  on_packet-same m n b e = rw e

  pub on_packet-done :
      {A : Type 0} (m : Prog (Packet C × W) A) (b : Broker K C W) {a : A} {s : Packet C × W}
      → m (b.packet, b.world) ≡ done (a, s)
      → on_packet m b ≡ done (a, record b { packet = s.0; world = s.1 })
  unfolding on_packet
  on_packet-done m b e = and_then-done _ _ e refl

-- A broker whose packet has the bytes `body` left, and whose connection has `after` behind them.
abbrev pub broker_waiting :
    {K C W : Type 0}
    → ClientConnection C W
    → (List ℕ → C × W)
    → ℕ
    → List ℕ
    → DataStore K (Subscription K C)
    → List ℕ
    → Broker K C W
broker_waiting conn waiting control after store body = record {
  packet = (packet_waiting conn waiting control after body).0;
  store = store;
  world = (packet_waiting conn waiting control after body).1;
}

module _ (stuck : Type 0) {K C W : Type 0} where
  pub on_packet-Ensures :
      {A : Type 0} (P : A × Broker K C W → Type 0) (Q : A × (Packet C × W) → Type 0)
      (m : Prog (Packet C × W) A) (b : Broker K C W)
      → Ensures stuck Q (m (b.packet, b.world))
      → ((a : A) (p : Packet C) (w : W) → Q (a, (p, w)) → P (a, record b { packet = p; world = w }))
      → Ensures stuck P (on_packet m b)
  unfolding on_packet
  on_packet-Ensures P Q m b h k =
      Ensures-and_then stuck Q P (m (b.packet, b.world)) _ h
        (λ (a, (p, w)) q. Ensures-done stuck P (k a p w q))

  pub on_store-Ensures :
      {A : Type 0} (P : A × Broker K C W → Type 0)
      (Q : A × (DataStore K (Subscription K C) × W) → Type 0)
      (m : Prog (DataStore K (Subscription K C) × W) A) (b : Broker K C W)
      → Ensures stuck Q (m (b.store, b.world))
      → ((a : A) (s : DataStore K (Subscription K C)) (w : W)
          → Q (a, (s, w))
          → P (a, record b { store = s; world = w }))
      → Ensures stuck P (on_store m b)
  unfolding on_store
  on_store-Ensures P Q m b h k =
      Ensures-and_then stuck Q P (m (b.store, b.world)) _ h
        (λ (a, (s, w)) q. Ensures-done stuck P (k a s w q))
