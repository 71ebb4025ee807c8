-- ===== src/Proto3/Subscribe/Reading.antt =====
-- Subscribe::ReadFrom on a packet.
use gnat.Base.{
  ℕ, zero, suc, ◌+◌, ◌*◌, ◌≤◌, ◌<◌, ◌≡◌, refl, arith, List, [], ◌∷◌, ◌++◌, All, Bool, some, length,
  true, drop, length-append, length-drop, suc-==_zero,
}
use gnat.Base.Outcome.{done, Prog, step?, step}
use gnat.Connection.{ClientConnection}
use gnat.Fields.{StringBuffer, empty_buffer, read_field}
use gnat.Fields.Channel.{Delivers, read_bytes-one, read_bytes-two, read_string-fits}
use gnat.Packet
use gnat.Packet.{Packet, remaining}
use gnat.Packet.Channel.{packet_waiting, packet-Delivers}
use gnat.Proto3.Subscribe.{topics_loop, read_subscribe}

-- A topic with the two bytes of its length, and its requested QoS.
pub record Filter : Type 0 where
  pub high : ℕ
  pub low : ℕ
  pub topic : List ℕ
  pub qos : ℕ

pub record IsFilter (f : Filter) : Type 0 where
  pub low_byte : f.low < 256
  pub sized : f.high * 256 + f.low ≡ length f.topic
  pub short : length f.topic ≤ 128

-- The payload of a SUBSCRIBE packet.
abbrev pub filters_wire : List Filter → List ℕ
filters_wire [] = []
filters_wire (f ∷ fs) = f.high ∷ f.low ∷ f.topic ++ f.qos ∷ filters_wire fs

-- The buffer of the loop after a topic: what it held before shows behind the text.
abbrev pub overwrite : StringBuffer → List ℕ → StringBuffer
overwrite out topic = record {
  data_ = topic ++ drop (length topic) out.data_;
  length_ = length topic;
}

length-overwrite :
    (out : StringBuffer) (topic : List ℕ)
    → length topic ≤ length out.data_
    → length (overwrite out topic).data_ ≡ length out.data_
length-overwrite out topic h = omega (
  arith,
  length-append topic (drop (length topic) out.data_),
  length-drop (length topic) out.data_,
)

module _ {C W A : Type 0} (conn : ClientConnection C W) (waiting : List ℕ → C × W)
    (delivers : Delivers conn.read waiting) (control : ℕ) (after : List ℕ)
    (callback : StringBuffer → A → Prog (Packet C × W) (Bool × A)) (capture : List ℕ → A → A) where
  -- The callback accepts the topic, whatever lies behind it in its buffer, and leaves the client.
  abbrev pub Accepts : List ℕ → Type 0
  Accepts topic =
      (out : StringBuffer) (a : A) (rest : List ℕ)
      → callback (overwrite out topic) a (packet_waiting conn waiting control after rest)
        ≡ done ((true, capture topic a), packet_waiting conn waiting control after rest)

  -- A filter that is well formed and whose topic is accepted.
  pub record IsAccepted (f : Filter) : Type 0 where
    pub formed : IsFilter f
    pub accepts : Accepts f.topic

  -- The captured variables after all topics, in their order.
  abbrev pub captured : List Filter → A → A
  captured [] a = a
  captured (f ∷ fs) a = captured fs (capture f.topic a)

  topics_loop-filters :
      (fs : List Filter) (fuel : ℕ) (out : StringBuffer) (a : A)
      → length (filters_wire fs) ≤ fuel
      → length out.data_ ≡ 128
      → All IsAccepted fs
      → topics_loop
          (Packet.read conn)
          remaining
          callback
          fuel
          out
          a
          (packet_waiting conn waiting control after (filters_wire fs))
        ≡ done (some (captured fs a), packet_waiting conn waiting control after [])
  unfolding topics_loop
  topics_loop-filters [] zero out a hf size h = refl
  topics_loop-filters [] (suc fuel) out a hf size h = refl
  topics_loop-filters (f ∷ fs) zero out a hf size h = absurd (omega arith)
  topics_loop-filters (f ∷ fs) (suc fuel) out a hf size (v, vs) =
      let ready = packet-Delivers conn waiting delivers control after in
      let here = packet_waiting conn waiting control after in
      rw (suc-==_zero (suc (length (f.topic ++ f.qos ∷ filters_wire fs)))) (
        step? _ _
          (read_string-fits (Packet.read conn) here ready out f.topic (f.qos ∷ filters_wire fs)
            f.high f.low v.formed.low_byte v.formed.sized (omega (arith, v.formed.short)))
          (step _ _ (v.accepts out a (f.qos ∷ filters_wire fs)) (
            step? _ _ (read_bytes-one (Packet.read conn) here ready f.qos 0 (filters_wire fs)) (
              topics_loop-filters fs fuel (overwrite out f.topic) (capture f.topic a)
                (omega (arith, length-append f.topic (f.qos ∷ filters_wire fs)))
                (omega (arith, length-overwrite out f.topic, v.formed.short)) vs))))

  -- On a connection that delivers its bytes, for topics of at most 128 bytes that the callback
  -- accepts without touching the packet, Subscribe::ReadFrom hands every topic of a packet to the
  -- callback, once and in order, gives the packet id, and leaves nothing of the packet.
  pub read_subscribe-body :
      (id_high id_low : ℕ) (fs : List Filter) (a : A)
      → All IsAccepted fs
      → read_subscribe
          (Packet.read conn)
          remaining
          callback
          a
          (packet_waiting conn waiting control after (id_high ∷ id_low ∷ filters_wire fs))
        ≡ done (
          some (
            record { topic_name = empty_buffer 25; packet_id = id_high * 256 + id_low },
            captured fs a,
          ),
          packet_waiting conn waiting control after [],
        )
  unfolding read_subscribe read_field
  read_subscribe-body id_high id_low fs a h =
      let ready = packet-Delivers conn waiting delivers control after in
      let here = packet_waiting conn waiting control after in
      step? _ _ (read_bytes-two (Packet.read conn) here ready id_high id_low 0 (filters_wire fs)) (
        step? _ _
          (topics_loop-filters fs (length (filters_wire fs)) (empty_buffer 128) a (omega arith) refl
            h)
          refl)
