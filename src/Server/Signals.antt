-- ===== src/Server/Signals.antt =====
-- The answers to PINGREQ and DISCONNECT, and to packets that the server does not know.
use gnat.Base.{ℕ, ◌≡◌, ◌≢◌, refl, ap, List, [], ◌∷◌}
use gnat.Base.Outcome.{done, Prog, pure, ◌>>=◌}
use gnat.Connection.{ClientConnection}
use gnat.DataStore.{DataStoreEntry}
use gnat.Packet
use gnat.Packet.{Packet, on_connection}
use gnat.Proto3.Connect.{Connect}
use gnat.Server.Handling.{handle_message, handle_type, handle_pingreq, handle_disconnect}
use gnat.Server.State.{Broker, on_packet}
use gnat.Key.{KeyType}
use gnat.Header.{
  PacketType, reserved, connect, connack, publish, puback, pubrec, pubrel, pubcomp, subscribe,
  suback, unsubscribe, unsuback, pingreq, pingresp, disconnect, auth, packet_code,
}
use gnat.Proto3.PingResp.{send_ping_resp}
use gnat.Status.{ok_status, failure_status}
use gnat.Server.Replies.{write_status}

module _ {K C W : Type 0} (keys : KeyType K) (conn : ClientConnection C W) (timestamp : Prog W ℕ)
    (order : List (K × DataStoreEntry) → List (K × DataStoreEntry)) (memory : Connect) where
  -- HandleMessage on a PINGREQ writes the two bytes of a PINGRESP to the packet's connection, and
  -- its status says whether that worked.
  pub handle_message-pingreq :
      (b : Broker K C W)
      → Packet.type b.packet ≡ pingreq
      → handle_message keys conn timestamp order memory b
        ≡ on_packet (write_status conn (0xd0 ∷ 0 ∷ [])) b
  unfolding handle_message handle_type handle_pingreq send_ping_resp packet_code
  handle_message-pingreq b e = ap (λ t. handle_type keys conn timestamp order memory t b) e

  pub handle_message-disconnect :
      (b : Broker K C W)
      → Packet.type b.packet ≡ disconnect
      → handle_message keys conn timestamp order memory b
        ≡ (on_packet (on_connection conn.close) >>= λ _. pure ok_status) b
  unfolding handle_message handle_type handle_disconnect
  handle_message-disconnect b e = ap (λ t. handle_type keys conn timestamp order memory t b) e

  -- The types that have no branch.
  abbrev pub IsUnsupported : PacketType → Type 0
  IsUnsupported t =
      (t ≢ connect) × (t ≢ publish) × (t ≢ subscribe) × (t ≢ pingreq) × (t ≢ disconnect)

  handle_type-unsupported :
      (t : PacketType) (b : Broker K C W)
      → IsUnsupported t
      → handle_type keys conn timestamp order memory t b
        ≡ done (failure_status "Unsupported packet type.", b)
  unfolding handle_type
  handle_type-unsupported connect b h = absurd (h.0 refl)
  handle_type-unsupported publish b h = absurd (h.1 refl)
  handle_type-unsupported subscribe b h = absurd (h.2 refl)
  handle_type-unsupported pingreq b h = absurd (h.3 refl)
  handle_type-unsupported disconnect b h = absurd (h.4 refl)
  handle_type-unsupported reserved b h = refl
  handle_type-unsupported connack b h = refl
  handle_type-unsupported puback b h = refl
  handle_type-unsupported pubrec b h = refl
  handle_type-unsupported pubrel b h = refl
  handle_type-unsupported pubcomp b h = refl
  handle_type-unsupported suback b h = refl
  handle_type-unsupported unsubscribe b h = refl
  handle_type-unsupported unsuback b h = refl
  handle_type-unsupported pingresp b h = refl
  handle_type-unsupported auth b h = refl

  -- HandleMessage on a packet that is none of CONNECT, PUBLISH, SUBSCRIBE, PINGREQ and DISCONNECT
  -- returns a Failure and changes nothing.
  pub handle_message-unsupported :
      (b : Broker K C W)
      → IsUnsupported (Packet.type b.packet)
      → handle_message keys conn timestamp order memory b
        ≡ done (failure_status "Unsupported packet type.", b)
  unfolding handle_message
  handle_message-unsupported b h = handle_type-unsupported (Packet.type b.packet) b h
