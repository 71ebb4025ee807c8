-- ===== src/Server/Service/Turns.antt =====
-- The program around the server: it reads packets from its clients' connections in some order, and
-- forgets clients.
use gnat.Base.{ℕ, ◌≡◌, List, [], ◌∷◌, Bool, true, false, Option, none, some, if◌then◌else◌, ◌==◌}
use gnat.Base.Outcome.{Prog, done, pure, and_then, ◌>>=◌}
use gnat.DataStore.{DataStore, remove_observers_for_client}
use gnat.Server.Service.{Deployment, Post, serve}
use gnat.Server.Service.Spec.{Event, received, forgotten}
use gnat.Server.State.{Subscription}
use gnat.Status.{Status, is_ok}

-- The program's connections, by their sockets, its data store and the world.
pub record Site (K C W : Type 0) : Type 0 where
  pub connections : ℕ → C
  pub store : DataStore K (Subscription K C)
  pub world : W

-- What the program does next: it reads a packet from a socket, or forgets a client.
pub data Turn : Type 0 where
  reads forgets : ℕ → Turn

-- The turn that an event takes.
abbrev pub turn_of : Event → Turn
turn_of (received s m) = reads s
turn_of (forgotten s) = forgets s

-- ReadNext gave a packet, and HandleMessage served it.
abbrev pub served : Option Status → Bool
served none = false
served (some st) = is_ok st

module _ {K C W : Type 0} (d : Deployment K C W) where
  open d use {keys, conn, hub, timestamp, order, memory}

  -- The state after a packet on socket `s`.
  abbrev pub after_serving : ℕ → Post K C W → Site K C W → Site K C W
  after_serving s b site = record {
    connections = λ i. if i == s then b.connection else site.connections i;
    store = b.store;
    world = b.world;
  }

  -- The packet on a socket is served, or RemoveObserversForClient is called.
  unfoldable pub handle_turn : Turn → Prog (Site K C W) Bool
  handle_turn (reads s) site =
      and_then
        (serve keys conn timestamp order memory
          (record { connection = site.connections s; store = site.store; world = site.world }))
        λ (st, b). done (served st, after_serving s b site)
  handle_turn (forgets s) site =
      done (true, record site { store = remove_observers_for_client s site.store })

  -- The first packet that is not served ends the run.
  unfoldable pub run : List Turn → Prog (Site K C W) Bool
  unfolding handle_turn
  run [] = pure true
  run (t ∷ ts) = handle_turn t >>= λ ok. if ok then run ts else pure false

  -- Every connection is on its socket.
  abbrev pub IsWired : (ℕ → C) → Type 0
  IsWired connections = (s : ℕ) → hub.socket (connections s) ≡ s
