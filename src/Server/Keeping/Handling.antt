-- ===== src/Server/Keeping/Handling.antt =====
-- What HandleMessage keeps of the data store, in every branch.
use gnat.Base.{ℕ, refl, List, [], ◌∷◌}
use gnat.Base.Outcome.{Prog, done, pure, ◌>>=◌}
use gnat.Base.Ensures.{Any, Ensures, Ensures-done, Ensures-bind, Ensures-weaken}
use gnat.Connection.{ClientConnection}
use gnat.DataStore.{DataStoreEntry}
use gnat.DataStore.Entries.{IsEquality}
use gnat.Key.{KeyType}
use gnat.Packet
use gnat.Packet.{Packet, on_connection, remaining}
use gnat.Proto3.Connect.{Connect, read_connect}
use gnat.Proto3.Ending.{read_connect-Any}
use gnat.Proto3.PingResp.{send_ping_resp}
use gnat.Server.Connecting.{or_undefined, handle_connect}
use gnat.Server.Ending.Connecting.{or_undefined-Any}
use gnat.Server.Handling.{handle_message, handle_type, handle_pingreq, handle_disconnect}
use gnat.Header.{
  PacketType, reserved, connect, connack, publish, puback, pubrec, pubrel, pubcomp, subscribe,
  suback, unsubscribe, unsuback, pingreq, pingresp, disconnect, auth,
}
use gnat.Server.Ending.{Ends}
use gnat.Server.State.{Broker, response_status}
use gnat.Status.{ok_status, failure_status}
use gnat.Server.Keeping.{
  KeptBy, same_Kept, SameStore, on_packet-SameStore, packet_reads, on_connection-Any,
}
use gnat.Server.Keeping.Publishing.{handle_publish-Kept}
use gnat.Server.Keeping.Subscribing.{handle_subscribe-Kept}

module _ (stuck : Type 0) {K C W : Type 0} (keys : KeyType K) (equality : IsEquality keys.same)
    (conn : ClientConnection C W) (timestamp : Prog W ℕ)
    (ends : Ends stuck keys conn timestamp) where
  handle_connect-Kept :
      (memory : Connect) (b : Broker K C W)
      → Ensures stuck
          (KeptBy stuck keys equality conn timestamp ends b)
          (handle_connect conn memory b)
  unfolding handle_connect
  handle_connect-Kept memory b =
      Ensures-weaken stuck _
        (λ (st, b') e. same_Kept stuck keys equality conn timestamp ends b b' st e)
        (on_packet-SameStore stuck keys equality conn timestamp ends
          (read_connect (Packet.read conn) memory >>= or_undefined conn) b b refl
          λ s.
            Ensures-bind stuck Any Any _ _ s
              (read_connect-Any stuck (Packet.read conn) remaining
                (packet_reads stuck keys equality conn timestamp ends) memory s)
              λ c t q. or_undefined-Any stuck conn ends.write c t)

  handle_pingreq-Kept :
      (b : Broker K C W)
      → Ensures stuck (KeptBy stuck keys equality conn timestamp ends b) (handle_pingreq conn b)
  unfolding handle_pingreq send_ping_resp
  handle_pingreq-Kept b =
      Ensures-weaken stuck _
        (λ (st, b') e. same_Kept stuck keys equality conn timestamp ends b b' st e)
        (on_packet-SameStore stuck keys equality conn timestamp ends
          (on_connection (send_ping_resp conn.write) >>= λ sent. pure (response_status sent)) b b
          refl
          λ s.
            Ensures-bind stuck Any Any _ _ s
              (on_connection-Any stuck keys equality conn timestamp ends (send_ping_resp conn.write)
                s (ends.write (0xd0 ∷ 0 ∷ [])))
              λ sent t q. Ensures-done stuck Any tt)

  handle_disconnect-Kept :
      (b : Broker K C W)
      → Ensures stuck (KeptBy stuck keys equality conn timestamp ends b) (handle_disconnect conn b)
  unfolding handle_disconnect
  handle_disconnect-Kept b =
      Ensures-bind stuck (SameStore stuck keys equality conn timestamp ends b)
        (KeptBy stuck keys equality conn timestamp ends b) _ _ b
        (on_packet-SameStore stuck keys equality conn timestamp ends (on_connection conn.close) b b
          refl
          λ s. on_connection-Any stuck keys equality conn timestamp ends conn.close s ends.close)
        λ x c e.
          Ensures-done stuck (KeptBy stuck keys equality conn timestamp ends b)
            (same_Kept stuck keys equality conn timestamp ends b c ok_status e)

  module _ (order : List (K × DataStoreEntry) → List (K × DataStoreEntry)) (memory : Connect) where
    unsupported-Kept :
        (b : Broker K C W)
        → Ensures stuck
            (KeptBy stuck keys equality conn timestamp ends b)
            (done (failure_status "Unsupported packet type.", b))
    unsupported-Kept b = Ensures-done stuck (KeptBy stuck keys equality conn timestamp ends b) (
        same_Kept stuck keys equality conn timestamp ends b b
          (failure_status "Unsupported packet type.") refl)

    handle_type-Kept :
        (t : PacketType) (b : Broker K C W)
        → Ensures stuck
            (KeptBy stuck keys equality conn timestamp ends b)
            (handle_type keys conn timestamp order memory t b)
    unfolding handle_type
    handle_type-Kept connect b = handle_connect-Kept memory b
    handle_type-Kept publish b = handle_publish-Kept stuck keys equality conn timestamp ends b
    handle_type-Kept subscribe b =
        handle_subscribe-Kept stuck keys equality conn timestamp ends order b
    handle_type-Kept pingreq b = handle_pingreq-Kept b
    handle_type-Kept disconnect b = handle_disconnect-Kept b
    handle_type-Kept reserved b = unsupported-Kept b
    handle_type-Kept connack b = unsupported-Kept b
    handle_type-Kept puback b = unsupported-Kept b
    handle_type-Kept pubrec b = unsupported-Kept b
    handle_type-Kept pubrel b = unsupported-Kept b
    handle_type-Kept pubcomp b = unsupported-Kept b
    handle_type-Kept suback b = unsupported-Kept b
    handle_type-Kept unsubscribe b = unsupported-Kept b
    handle_type-Kept unsuback b = unsupported-Kept b
    handle_type-Kept pingresp b = unsupported-Kept b
    handle_type-Kept auth b = unsupported-Kept b

    pub handle_message-Kept :
        (b : Broker K C W)
        → Ensures stuck
            (KeptBy stuck keys equality conn timestamp ends b)
            (handle_message keys conn timestamp order memory b)
    unfolding handle_message
    handle_message-Kept b = handle_type-Kept (Packet.type b.packet) b
