-- ===== src/Server/Service.antt =====
-- A packet from its first byte to its destructor, as the program around the server runs it: ReadNext,
-- HandleMessage, ~Packet. And what is asked of the connections of such a program.
pub mod Spec
pub mod Mirrors
pub mod Messages
pub mod Publishing
pub mod Topics
pub mod Turns
pub mod Running
use gnat.Base.{
  ℕ, ◌≡◌, List, [], ◌∷◌, ◌++◌, Bool, true, false, Option, none, some, if◌then◌else◌, ◌==◌, length,
  ◌<◌, ◌^◌, refl, sym, ap, ◌∙◌,
}
use gnat.Base.Outcome.{Outcome, Prog, done, and_then, and_then-done}
use gnat.Connection.{ClientConnection, ConnectionType}
use gnat.DataStore.{DataStore, DataStoreEntry, remove_observers_for_client}
use gnat.Fields.Channel.{Delivers}
use gnat.Fields.Variable.{encoding}
use gnat.Key.{KeyType}
use gnat.Key.Names.{Names}
use gnat.Packet
use gnat.Packet.{Packet, read_next, destroy}
use gnat.Packet.Channel.{Drains, packet_waiting, read_next-packet}
use gnat.Proto3.Connect.{Connect}
use gnat.Server.Fanout.{Network}
use gnat.Server.Handling.{handle_message}
use gnat.Server.State.{Broker, Subscription, broker_waiting}
use gnat.Status.{Status}
use mathlib.Core.List.{append-nil}

-- One connection, the data store and the world.
pub record Post (K C W : Type 0) : Type 0 where
  pub connection : C
  pub store : DataStore K (Subscription K C)
  pub world : W

module _ {K C W : Type 0} (keys : KeyType K) (conn : ClientConnection C W) (timestamp : Prog W ℕ)
    (order : List (K × DataStoreEntry) → List (K × DataStoreEntry)) (memory : Connect) where
  -- The packet is handled, and its destructor gives the connection back.
  unfoldable pub handle_next :
      DataStore K (Subscription K C)
      → Option (Packet C)
      → C × W
      → Outcome (Option Status × Post K C W)
  handle_next store none (c, w) = done (none, record { connection = c; store = store; world = w })
  handle_next store (some p) (c, w) =
      and_then
        (handle_message keys conn timestamp order memory
          (record { packet = p; store = store; world = w }))
        λ (st, b). and_then (destroy conn (b.packet, b.world)) λ (x, (p', w')).
          done (some st, record { connection = p'.connection; store = b.store; world = w' })

  -- `none` where ReadNext gave no packet.
  unfoldable pub serve : Prog (Post K C W) (Option Status)
  unfolding handle_next
  serve b = and_then (read_next conn (b.connection, b.world)) λ (got, s). handle_next b.store got s

  -- A packet of `body` whose handling and destructor are known.
  pub serve-packet :
      (waiting : List ℕ → C × W) (delivers : Delivers conn.read waiting) (control : ℕ)
      (body : List ℕ) (store : DataStore K (Subscription K C)) {st : Status} {b : Broker K C W}
      {p : Packet C} {w : W}
      → length body < 2 ^ 28
      → handle_message keys conn timestamp order memory
          (broker_waiting conn waiting control [] store body)
        ≡ done (st, b)
      → destroy conn (b.packet, b.world) ≡ done (tt, (p, w))
      → serve (record {
        connection = (waiting (control ∷ encoding 3 (length body) ++ body)).0;
        store = store;
        world = (waiting (control ∷ encoding 3 (length body) ++ body)).1;
      })
        ≡ done (some st, record { connection = p.connection; store = b.store; world = w })
  unfolding serve handle_next
  serve-packet waiting delivers control body store small handled destroyed =
      and_then-done _ _
        (ap (λ (bs : List ℕ). read_next conn (waiting (control ∷ encoding 3 (length body) ++ bs)))
            (sym (append-nil body))
          ∙ read_next-packet conn waiting delivers control body [] small)
        (and_then-done _ _ handled (and_then-done _ _ destroyed refl))

-- A network with sockets, on which every write succeeds. `pending` is what waits to be read on a
-- socket, `arrive` the world with bytes in front of that, and `post` the world after a write; reads and
-- writes are apart, and a connection keeps its socket.
pub record Hub {C W : Type 0} (conn : ClientConnection C W) : Type 0 where
  pub socket : C → ℕ
  pub sent : ℕ → W → List ℕ
  pub pending : ℕ → W → List ℕ
  pub post : ℕ → List ℕ → W → W
  pub arrive : ℕ → List ℕ → W → W
  pub writes :
      (bytes : List ℕ) (c : C) (w : W)
      → conn.write bytes (c, w) ≡ done (true, (c, post (socket c) bytes w))
  pub writes_partial :
      (bytes : List ℕ) (c : C) (w : W)
      → conn.write_partial bytes (c, w) ≡ done (true, (c, post (socket c) bytes w))
  pub sent-post :
      (n s : ℕ) (bytes : List ℕ) (w : W)
      → sent n (post s bytes w) ≡ sent n w ++ (if n == s then bytes else [])
  pub sent-arrive : (n s : ℕ) (bytes : List ℕ) (w : W) → sent n (arrive s bytes w) ≡ sent n w
  pub pending-post : (n s : ℕ) (bytes : List ℕ) (w : W) → pending n (post s bytes w) ≡ pending n w
  pub pending-arrive :
      (n s : ℕ) (bytes : List ℕ) (w : W)
      → pending n (arrive s bytes w) ≡ (if n == s then bytes else []) ++ pending n w
  pub splits :
      (s : ℕ) (xs rest : List ℕ) (w : W)
      → pending s w ≡ xs ++ rest
      → (w' : W) × (w ≡ arrive s xs w')
  pub post-arrive :
      (s t : ℕ) (xs ys : List ℕ) (w : W) → post s xs (arrive t ys w) ≡ arrive t ys (post s xs w)
  pub delivers : (c : C) (w : W) → Delivers conn.read (λ bytes. (c, arrive (socket c) bytes w))
  pub drains : (c : C) (w : W) → Drains conn.drain (λ bytes. (c, arrive (socket c) bytes w))
  pub copy : C → C
  pub copies : (c : C) (w : W) → conn.create_heap_copy (c, w) ≡ done (copy c, (c, w))
  pub socket-copy : (c : C) → socket (copy c) ≡ socket c
  pub id-socket : (c : C) (w : W) → conn.id (c, w) ≡ socket c
  pub socket-set_type :
      (t : ConnectionType) (c : C) → socket (conn.set_connection_type t c) ≡ socket c
  pub closes :
      (c : C) (w : W)
      → (w' : W) × (conn.close (c, w) ≡ done (tt, (c, w')))
        × ((n : ℕ) → sent n w' ≡ sent n w)
        × ((n : ℕ) → pending n w' ≡ pending n w)

abbrev pub network_of : {C W : Type 0} {conn : ClientConnection C W} → Hub conn → Network conn
network_of hub = record {
  socket = hub.socket;
  sent = hub.sent;
  pending = hub.pending;
  writes = λ bytes c w. (
    hub.post (hub.socket c) bytes w,
    hub.writes bytes c w,
    λ n. hub.sent-post n (hub.socket c) bytes w,
    λ n. hub.pending-post n (hub.socket c) bytes w,
  );
  writes_partial = λ bytes c w. (
    hub.post (hub.socket c) bytes w,
    hub.writes_partial bytes c w,
    λ n. hub.sent-post n (hub.socket c) bytes w,
    λ n. hub.pending-post n (hub.socket c) bytes w,
  );
}

-- A broker as it is set up: its key type with the texts that have keys, its connections, its clock,
-- the order of the map, and what uninitialised memory holds.
pub record Deployment (K C W : Type 0) : Type 1 where
  pub keys : KeyType K
  pub IsName : List ℕ → Type 0
  pub names : Names keys IsName
  pub conn : ClientConnection C W
  pub hub : Hub conn
  pub timestamp : Prog W ℕ
  pub now : W → ℕ
  pub clock : (w : W) → timestamp w ≡ done (now w, w)
  pub order : List (K × DataStoreEntry) → List (K × DataStoreEntry)
  pub memory : Connect
