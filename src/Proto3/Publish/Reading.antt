-- ===== src/Proto3/Publish/Reading.antt =====
-- Publish::ReadFrom on a packet.
use gnat.Base.{
  ℕ, ◌+◌, ◌*◌, ◌/◌, ◌≤◌, ◌<◌, ◌≡◌, refl, bit_and, List, [], ◌∷◌, ◌++◌, some, length, true, false,
  ◌==◌,
}
use gnat.Base.Outcome.{done, aborted, step?, fail?}
use gnat.Buffer.Writes.{stored}
use gnat.Connection.{ClientConnection}
use gnat.Fields.{empty_buffer, read_field}
use gnat.Fields.Channel.{Delivers, read_bytes-two, read_string-fits, read_string-aborts}
use gnat.Packet
use gnat.Packet.{Packet, remaining}
use gnat.Packet.Channel.{packet_waiting, packet-Delivers, read-beyond}
use gnat.Proto3.Publish.{read_publish, skip_packet_id}

-- The bytes of a packet id, which are there for every QoS but 0.
abbrev pub HasId : ℕ → List ℕ → Type 0
HasId flags [] = (bit_and (flags / 2) 3 == 0) ≡ true
HasId flags (high ∷ []) = ⊥
HasId flags (high ∷ low ∷ []) = (bit_and (flags / 2) 3 == 0) ≡ false
HasId flags (high ∷ low ∷ more ∷ rest) = ⊥

module _ {C W : Type 0} (conn : ClientConnection C W) (waiting : List ℕ → C × W)
    (delivers : Delivers conn.read waiting) (control : ℕ) (after : List ℕ) where
  skip-none :
      (flags : ℕ) (s : Packet C × W)
      → (bit_and (flags / 2) 3 == 0) ≡ true
      → skip_packet_id (Packet.read conn) remaining flags s ≡ done (some 0, s)
  unfolding skip_packet_id read_field
  skip-none flags s qos = rw qos

  skip-some :
      (flags high low : ℕ) (rest : List ℕ)
      → (bit_and (flags / 2) 3 == 0) ≡ false
      → skip_packet_id
          (Packet.read conn)
          remaining
          flags
          (packet_waiting conn waiting control after (high ∷ low ∷ rest))
        ≡ done (some (high * 256 + low), packet_waiting conn waiting control after rest)
  unfolding skip_packet_id read_field
  skip-some flags high low rest qos = rw qos (
      read_bytes-two (Packet.read conn) (packet_waiting conn waiting control after)
        (packet-Delivers conn waiting delivers control after) high low 0 rest)

  -- On a connection that delivers its bytes, Publish::ReadFrom with flags of QoS 0 reads a topic
  -- of at most 128 bytes, stays in front of the payload, and gives its size.
  pub read_publish-body :
      (flags high low : ℕ) (topic payload : List ℕ)
      → (bit_and (flags / 2) 3 == 0) ≡ true
      → low < 256
      → high * 256 + low ≡ length topic
      → length topic ≤ 128
      → read_publish
          (Packet.read conn)
          remaining
          flags
          (packet_waiting conn waiting control after (high ∷ low ∷ topic ++ payload))
        ≡ done (
          some (record { topic = stored 128 topic; payload_bytes = length payload }),
          packet_waiting conn waiting control after payload,
        )
  unfolding read_publish read_field
  read_publish-body flags high low topic payload qos hl e fits =
      step? _ _
        (read_string-fits (Packet.read conn) (packet_waiting conn waiting control after)
          (packet-Delivers conn waiting delivers control after) (empty_buffer 128) topic payload
          high low hl e fits)
        (step? _ _ (skip-none flags _ qos) refl)

  -- On a connection that delivers its bytes, Publish::ReadFrom with flags of another QoS skips the
  -- two bytes of the packet id behind a topic of at most 128 bytes, so that the payload's size is
  -- right.
  pub read_publish-qos_body :
      (flags high low id_high id_low : ℕ) (topic payload : List ℕ)
      → (bit_and (flags / 2) 3 == 0) ≡ false
      → low < 256
      → high * 256 + low ≡ length topic
      → length topic ≤ 128
      → read_publish (Packet.read conn) remaining flags (
          packet_waiting conn waiting control after
            (high ∷ low ∷ topic ++ id_high ∷ id_low ∷ payload))
        ≡ done (
          some (record { topic = stored 128 topic; payload_bytes = length payload }),
          packet_waiting conn waiting control after payload,
        )
  unfolding read_publish read_field
  read_publish-qos_body flags high low id_high id_low topic payload qos hl e fits =
      step? _ _
        (read_string-fits (Packet.read conn) (packet_waiting conn waiting control after)
          (packet-Delivers conn waiting delivers control after) (empty_buffer 128) topic _ high low
          hl e fits)
        (step? _ _ (skip-some flags id_high id_low payload qos) refl)

  pub read_publish-any_body :
      (flags high low : ℕ) (id topic payload : List ℕ)
      → HasId flags id
      → low < 256
      → high * 256 + low ≡ length topic
      → length topic ≤ 128
      → read_publish
          (Packet.read conn)
          remaining
          flags
          (packet_waiting conn waiting control after (high ∷ low ∷ topic ++ (id ++ payload)))
        ≡ done (
          some (record { topic = stored 128 topic; payload_bytes = length payload }),
          packet_waiting conn waiting control after payload,
        )
  read_publish-any_body flags high low [] topic payload has =
      read_publish-body flags high low topic payload has
  read_publish-any_body flags high low (h ∷ []) topic payload has = absurd has
  read_publish-any_body flags high low (h ∷ l ∷ []) topic payload has =
      read_publish-qos_body flags high low h l topic payload has
  read_publish-any_body flags high low (h ∷ l ∷ m ∷ rest) topic payload has = absurd has

  -- On a connection that delivers its bytes, a PUBLISH packet whose topic length is at most 128
  -- but beyond the packet's end fails the assert of Packet::Read.
  pub read_publish-aborts :
      (flags high low : ℕ) (body : List ℕ)
      → low < 256
      → high * 256 + low ≤ 128
      → length body < high * 256 + low
      → read_publish
          (Packet.read conn)
          remaining
          flags
          (packet_waiting conn waiting control after (high ∷ low ∷ body))
        ≡ aborted
  unfolding read_publish read_field
  read_publish-aborts flags high low body hl fits short = fail? _ _ (
      read_string-aborts (Packet.read conn) (empty_buffer 128) {high = high} hl fits
        ((packet-Delivers conn waiting delivers control after).front (high ∷ low ∷ []) body)
        (read-beyond conn waiting _ _ _ short))
