-- ===== src/Server/Failing.antt =====
-- HandleMessage on a CONNECT packet whose protocol name cannot be read.
use gnat.Base.{ℕ, ◌≡◌, refl, ap, ◌∙◌, List, none, Bool-cases, inl, inr, ltb, if◌then◌else◌}
use gnat.Base.Outcome.{done, aborted, undefined, Prog, ◌>>=◌, ◌>>=?◌, and_then, or_return}
use gnat.Connection.{ClientConnection}
use gnat.DataStore.{DataStoreEntry}
use gnat.Header.{connect}
use gnat.Key.{KeyType}
use gnat.Packet
use gnat.Packet.{Packet}
use gnat.Proto3.Connect.{Connect, read_connect}
use gnat.Server.Connecting.{handle_connect, or_undefined}
use gnat.Server.Handling.{handle_message, handle_type}
use gnat.Server.State.{Broker, on_packet}

module _ {K C W : Type 0} (keys : KeyType K) (conn : ClientConnection C W) (timestamp : Prog W ℕ)
    (order : List (K × DataStoreEntry) → List (K × DataStoreEntry)) (memory : Connect) where
  -- If the connection's Read of two bytes fails, HandleMessage on a CONNECT packet never answers:
  -- it fails the assert of Packet::Read where the packet has less than two bytes left, and is
  -- undefined otherwise, since the empty optional is dereferenced.
  pub handle_message-unread :
      (b : Broker K C W) {s : C × W}
      → Packet.type b.packet ≡ connect
      → conn.read 2 (b.packet.connection, b.world) ≡ done (none, s)
      → handle_message keys conn timestamp order memory b
        ≡ (if ltb b.packet.bytes_remaining 2 then aborted else undefined)
  unfolding handle_message handle_type handle_connect on_packet read_connect Packet.read
      or_undefined ◌>>=?◌ ◌>>=◌ and_then or_return gnat.Fields.read_string gnat.Packet.on_connection
  handle_message-unread b e failed =
      ap (λ t. handle_type keys conn timestamp order memory t b) e
      ∙ elim (Bool-cases (ltb b.packet.bytes_remaining 2)) [
        | inl short ↦ rw short refl
        | inr enough ↦ rw (enough, failed) refl
      ]
