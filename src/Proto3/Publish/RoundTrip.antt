-- ===== src/Proto3/Publish/RoundTrip.antt =====
-- A PUBLISH that SendOn wrote, read as a packet.
use gnat.Base.{
  ℕ, zero, suc, ◌+◌, ◌/◌, ◌%◌, ◌^◌, ◌<◌, ◌≡◌, refl, sym, ap, ◌∙◌, arith, List, ◌∷◌, ◌++◌, some,
  length, ltb, length-append, ltb-true, Bool-cases, inl, inr,
}
use gnat.Base.Outcome.{done}
use gnat.Buffer.Writes.{IsBuffer, text, stored, length-text}
use gnat.Connection.{ClientConnection}
use gnat.Fields.Channel.{Delivers}
use gnat.Fields.Variable.{encoding}
use gnat.Packet
use gnat.Packet.{remaining, read_next}
use gnat.Packet.Channel.{packet_waiting, read_next-packet}
use gnat.Proto3.Publish.{Publish, read_publish}
use gnat.Proto3.Publish.Reading.{read_publish-body}
use gnat.Proto3.Publish.Sending.{publish_size, publish_head}
use mathlib.Core.List.{append_assoc}
use mathlib.Core.Path.{ap₂}
use native.Mathlib.Nat.{pow-suc}

-- Room for more groups changes nothing.
encoding_more : (k v : ℕ) → v < 128 ^ suc k → encoding (suc k) v ≡ encoding k v
unfolding encoding
encoding_more zero v h = rw (ltb-true v 128 (omega arith))
encoding_more (suc k) v h = elim (Bool-cases (ltb v 128)) [
  | inl small ↦ rw small
  | inr large ↦
      rw large
        (ap (◌∷◌ (v % 128 + 128)) (encoding_more k (v / 128) (omega (arith, pow-suc 128 (suc k)))))
]

encoding_three : (k v : ℕ) → k < 4 → v < 128 ^ suc k → encoding 3 v ≡ encoding k v
encoding_three zero v hk h =
    encoding_more 2 v (omega arith) ∙ encoding_more 1 v (omega arith) ∙ encoding_more 0 v h
encoding_three (suc zero) v hk h = encoding_more 2 v (omega arith) ∙ encoding_more 1 v h
encoding_three (suc (suc zero)) v hk h = encoding_more 2 v h
encoding_three (suc (suc (suc zero))) v hk h = refl
encoding_three (suc (suc (suc (suc k)))) v hk h = absurd (omega arith)

below_four_groups : (k v : ℕ) → k < 4 → v < 128 ^ suc k → v < 2 ^ 28
below_four_groups zero v hk h = omega arith
below_four_groups (suc zero) v hk h = omega arith
below_four_groups (suc (suc zero)) v hk h = omega arith
below_four_groups (suc (suc (suc zero))) v hk h = omega arith
below_four_groups (suc (suc (suc (suc k)))) v hk h = absurd (omega arith)

-- What stands behind the fixed header.
abbrev pub publish_body : Publish → List ℕ → List ℕ
publish_body p payload = 0 ∷ p.topic.length_ ∷ text p.topic ++ payload

length-publish_body :
    (p : Publish) (payload : List ℕ)
    → IsBuffer 128 p.topic
    → length payload ≡ p.payload_bytes
    → length (publish_body p payload) ≡ publish_size p
length-publish_body p payload v e =
    omega (arith, length-append (text p.topic) payload, length-text p.topic v)

module _ {C W : Type 0} (conn : ClientConnection C W) (waiting : List ℕ → C × W)
    (delivers : Delivers conn.read waiting) (after : List ℕ) (k : ℕ) (p : Publish)
    (payload : List ℕ) (few : k < 4) (groups : publish_size p < 128 ^ suc k)
    (topic : IsBuffer 128 p.topic) (sized : length payload ≡ p.payload_bytes) where
  head_split :
      publish_head k p ++ (payload ++ after)
      ≡ 0x30 ∷ encoding 3 (length (publish_body p payload)) ++ (publish_body p payload ++ after)
  head_split = ap (◌∷◌ 0x30) (
      append_assoc (encoding k (publish_size p)) (0 ∷ p.topic.length_ ∷ text p.topic)
        (payload ++ after)
      ∙ ap₂ (λ (size rest : List ℕ). size ++ 0 ∷ p.topic.length_ ∷ rest)
          (sym (encoding_three k (publish_size p) few groups)
            ∙ ap (encoding 3) (sym (length-publish_body p payload topic sized)))
          (sym (append_assoc (text p.topic) payload after)))

  read_next-publish_head :
      read_next conn (waiting (publish_head k p ++ (payload ++ after)))
      ≡ done (
        some (packet_waiting conn waiting 0x30 after (publish_body p payload)).0,
        waiting (publish_body p payload ++ after),
      )
  read_next-publish_head =
      ap (λ (bytes : List ℕ). read_next conn (waiting bytes)) head_split
      ∙ read_next-packet conn waiting delivers 0x30 (publish_body p payload) after (
          omega (
            arith,
            length-publish_body p payload topic sized,
            below_four_groups k (publish_size p) few groups,
          ))

  read_publish-publish_body :
      read_publish
        (Packet.read conn)
        remaining
        0
        (packet_waiting conn waiting 0x30 after (publish_body p payload))
      ≡ done (
        some (record { topic = stored 128 (text p.topic); payload_bytes = p.payload_bytes }),
        packet_waiting conn waiting 0x30 after payload,
      )
  read_publish-publish_body =
      read_publish-body conn waiting delivers 0x30 after 0 0 p.topic.length_ (text p.topic) payload
        refl (omega (arith, topic.fits)) (omega (arith, length-text p.topic topic))
        (omega (arith, length-text p.topic topic, topic.fits))
      ∙ ap
          (λ (n : ℕ). done (
            some (record { topic = stored 128 (text p.topic); payload_bytes = n }),
            packet_waiting conn waiting 0x30 after payload,
          ))
          sized

  -- On a connection that delivers its bytes, for a topic that fits its buffer of 128 bytes and a
  -- payload of the size beside it, with a remaining length that fits k + 1 groups of seven bits, k
  -- below 4, ReadNext takes exactly the fixed header of the head that SendOn writes, and gives a
  -- packet of what follows it up to the payload's end; on that packet ReadFrom gives the topic and
  -- the size of the payload back, and leaves the payload.
  pub read_publish-publish_head :
      (read_next conn (waiting (publish_head k p ++ (payload ++ after)))
        ≡ done (
          some (packet_waiting conn waiting 0x30 after (publish_body p payload)).0,
          waiting (publish_body p payload ++ after),
        ))
      × (read_publish
            (Packet.read conn)
            remaining
            0
            (packet_waiting conn waiting 0x30 after (publish_body p payload))
          ≡ done (
            some (record { topic = stored 128 (text p.topic); payload_bytes = p.payload_bytes }),
            packet_waiting conn waiting 0x30 after payload,
          ))
  read_publish-publish_head = (read_next-publish_head, read_publish-publish_body)
