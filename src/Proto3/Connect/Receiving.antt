-- ===== src/Proto3/Connect/Receiving.antt =====
-- A CONNECT that SendOn wrote, read as a packet.
use gnat.Base.{ℕ, ◌≡◌, sym, ap, ◌∙◌, arith, List, [], ◌∷◌, ◌++◌, Bool, some, length}
use gnat.Base.Outcome.{Prog, done}
use gnat.Buffer.Writes.{text}
use gnat.Connection.{ClientConnection}
use gnat.Fields.Channel.{Delivers}
use gnat.Fields.Variable.{encoding_one}
use gnat.Packet
use gnat.Packet.{read_next}
use gnat.Packet.Channel.{packet_waiting, packet-Delivers, read_next-packet}
use gnat.Proto3.Connect.{Connect, read_connect, send_connect}
use gnat.Proto3.Connect.RoundTrip.{
  IsConnect, connect_body, connect_wire, received_connect, length-connect_body, send_connect-wire,
  read_connect-body,
}
use mathlib.Core.List.{append-nil}

module _ {C W : Type 0} (conn : ClientConnection C W) (waiting : List ℕ → C × W)
    (delivers : Delivers conn.read waiting) (after : List ℕ) (c : Connect) (v : IsConnect c) where
  read_next-connect_wire :
      read_next conn (waiting (connect_wire c ++ after))
      ≡ done (
        some (packet_waiting conn waiting 0x10 after (connect_body c)).0,
        waiting (connect_body c ++ after),
      )
  read_next-connect_wire =
      let n = length-connect_body c v in
      ap (λ (size : List ℕ). read_next conn (waiting (0x10 ∷ size ++ (connect_body c ++ after))))
        (sym (encoding_one (length (connect_body c)) (omega (arith, n, v.name.fits, v.id.fits))))
      ∙ read_next-packet conn waiting delivers 0x10 (connect_body c) after
          (omega (arith, n, v.name.fits, v.id.fits))

  -- CONNECT up to its client id, on a packet that holds nothing else.
  pub read_connect-packet :
      (memory : Connect)
      → read_connect
          (Packet.read conn)
          memory
          (packet_waiting conn waiting 0x10 after (connect_body c))
        ≡ done (
          some (received_connect c),
          packet_waiting conn waiting 0x10 after (0 ∷ c.client_id.length_ ∷ text c.client_id),
        )
  read_connect-packet memory =
      ap
        (λ (body : List ℕ).
          read_connect (Packet.read conn) memory (packet_waiting conn waiting 0x10 after body))
        (sym (append-nil (connect_body c)))
      ∙ read_connect-body (Packet.read conn) (packet_waiting conn waiting 0x10 after)
          (packet-Delivers conn waiting delivers 0x10 after) memory c [] v
      ∙ ap
          (λ (rest : List ℕ). done (
            some (received_connect c),
            packet_waiting conn waiting 0x10 after (0 ∷ c.client_id.length_ ∷ rest),
          ))
          (append-nil (text c.client_id))

  -- For a well-formed Connect, SendOn stays in its buffer and hands the CONNECT packet to Write;
  -- on a connection that delivers its bytes, ReadNext takes the fixed header of these bytes off
  -- and gives a packet of the rest of them, and on that packet ReadFrom gives every field back,
  -- whatever the memory held, except for the client id, which stays unread.
  pub read_connect-send_connect :
      {S : Type 0} (write : List ℕ → Prog S Bool) (s : S) (memory : Connect)
      → (send_connect write c s ≡ write (connect_wire c) s)
        × (read_next conn (waiting (connect_wire c ++ after))
            ≡ done (
              some (packet_waiting conn waiting 0x10 after (connect_body c)).0,
              waiting (connect_body c ++ after),
            ))
        × (read_connect
              (Packet.read conn)
              memory
              (packet_waiting conn waiting 0x10 after (connect_body c))
            ≡ done (
              some (received_connect c),
              packet_waiting conn waiting 0x10 after (0 ∷ c.client_id.length_ ∷ text c.client_id),
            ))
  read_connect-send_connect write s memory =
      (send_connect-wire write c s v, read_next-connect_wire, read_connect-packet memory)
