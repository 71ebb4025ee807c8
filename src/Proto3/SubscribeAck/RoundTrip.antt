-- ===== src/Proto3/SubscribeAck/RoundTrip.antt =====
-- A SUBACK that SendOn wrote, read as a packet.
use gnat.Base.{
  ℕ, ◌≡◌, ◌<◌, ◌^◌, sym, ap, ◌∙◌, arith, List, [], ◌∷◌, ◌++◌, Bool, some, replicate, refl,
}
use gnat.Base.Outcome.{Prog, done}
use gnat.Connection.{ClientConnection}
use gnat.Fields.Channel.{Delivers}
use gnat.Fields.Variable.{encoding_one}
use gnat.Packet
use gnat.Packet.{read_next}
use gnat.Packet.Channel.{packet_waiting, packet-Delivers, read_next-packet}
use gnat.Proto3.SubscribeAck.{SubscribeAck, send_subscribe_ack, read_subscribe_ack}
use gnat.Proto3.SubscribeAck.Sending.{suback_body, send_subscribe_ack-wire, read_subscribe_ack-body}

-- One response, in an array of 32 bytes.
abbrev pub one_response : ℕ → ℕ → SubscribeAck
one_response id response = record {
  subscribe_packet_id = id;
  responses = response ∷ replicate 31 0;
  responses_count = 1;
}

abbrev pub suback_wire : ℕ → ℕ → List ℕ
suback_wire id response = 0x90 ∷ 3 ∷ suback_body (one_response id response)

module _ {C W : Type 0} (conn : ClientConnection C W) (waiting : List ℕ → C × W)
    (delivers : Delivers conn.read waiting) (after : List ℕ) where
  -- For a 16-bit packet id and one response in front of 31 zeros, SubscribeAck::SendOn hands the
  -- SUBACK packet to Write; on a connection that delivers its bytes, ReadNext takes the fixed
  -- header of these bytes off and gives a packet of the rest of them, and on that packet ReadFrom
  -- gives the same SubscribeAck back, and leaves nothing of the packet.
  pub read_subscribe_ack-send_subscribe_ack :
      {S : Type 0} (write : List ℕ → Prog S Bool) (s : S) (id response : ℕ)
      → id < 2 ^ 16
      → (send_subscribe_ack write (one_response id response) s ≡ write (suback_wire id response) s)
        × (read_next conn (waiting (suback_wire id response ++ after))
            ≡ done (
              some
                  (packet_waiting conn waiting 0x90 after
                    (suback_body (one_response id response))).0,
              waiting (suback_body (one_response id response) ++ after),
            ))
        × (read_subscribe_ack
              (Packet.read conn)
              (packet_waiting conn waiting 0x90 after (suback_body (one_response id response)))
            ≡ done (some (one_response id response), packet_waiting conn waiting 0x90 after []))
  read_subscribe_ack-send_subscribe_ack write s id response h = (
    send_subscribe_ack-wire write (one_response id response) s (record { id = h; whole = refl })
        (omega arith),
    ap
          (λ (size : List ℕ).
            read_next conn
              (waiting (0x90 ∷ size ++ (suback_body (one_response id response) ++ after))))
          (sym (encoding_one 3 (omega arith)))
        ∙ read_next-packet conn waiting delivers 0x90 (suback_body (one_response id response)) after
            (omega arith),
    read_subscribe_ack-body (Packet.read conn) (packet_waiting conn waiting 0x90 after)
        (packet-Delivers conn waiting delivers 0x90 after) (one_response id response) response
        (replicate 31 0) [] refl refl,
  )
