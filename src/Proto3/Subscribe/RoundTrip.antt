-- ===== src/Proto3/Subscribe/RoundTrip.antt =====
-- A SUBSCRIBE that SendOn wrote, read as a packet.
use gnat.Base.{ℕ, ◌/◌, ◌%◌, ◌≡◌, sym, ap, ◌∙◌, arith, List, [], ◌∷◌, ◌++◌, Bool, some, length}
use gnat.Base.Outcome.{Prog, done}
use gnat.Buffer.Writes.{text, length-text}
use gnat.Connection.{ClientConnection}
use gnat.Fields.{StringBuffer, empty_buffer}
use gnat.Fields.Channel.{Delivers}
use gnat.Fields.Variable.{encoding_one}
use gnat.Packet
use gnat.Packet.{Packet, read_next, remaining}
use gnat.Packet.Channel.{packet_waiting, read_next-packet}
use gnat.Proto3.Subscribe.{Subscribe, read_subscribe, send_subscribe}
use gnat.Proto3.Subscribe.Reading.{Filter, Accepts, read_subscribe-body}
use gnat.Proto3.Subscribe.Sending.{
  IsSubscribe, subscribe_body, length-subscribe_body, send_subscribe-wire,
}

-- The one topic of the packet.
abbrev filter_of : Subscribe → Filter
filter_of p = record { high = 0; low = p.topic_name.length_; topic = text p.topic_name; qos = 0 }

module _ {C W : Type 0} (conn : ClientConnection C W) (waiting : List ℕ → C × W)
    (delivers : Delivers conn.read waiting) (after : List ℕ) (p : Subscribe)
    (v : IsSubscribe p) where
  abbrev pub subscribe_wire : List ℕ
  subscribe_wire = 0x82 ∷ length (subscribe_body p) ∷ subscribe_body p

  read_next-subscribe_wire :
      read_next conn (waiting (subscribe_wire ++ after))
      ≡ done (
        some (packet_waiting conn waiting 0x82 after (subscribe_body p)).0,
        waiting (subscribe_body p ++ after),
      )
  read_next-subscribe_wire =
      let n = length-subscribe_body p v in
      ap (λ (size : List ℕ). read_next conn (waiting (0x82 ∷ size ++ (subscribe_body p ++ after))))
        (sym (encoding_one (length (subscribe_body p)) (omega (arith, n, v.topic.fits))))
      ∙ read_next-packet conn waiting delivers 0x82 (subscribe_body p) after
          (omega (arith, n, v.topic.fits))

  module _ {A : Type 0} (callback : StringBuffer → A → Prog (Packet C × W) (Bool × A))
      (capture : List ℕ → A → A)
      (accepts : Accepts conn waiting delivers 0x82 after callback capture
        (text p.topic_name)) where
    read_subscribe-subscribe_body :
        (a : A)
        → read_subscribe
            (Packet.read conn)
            remaining
            callback
            a
            (packet_waiting conn waiting 0x82 after (subscribe_body p))
          ≡ done (
            some (
              record { topic_name = empty_buffer 25; packet_id = p.packet_id },
              capture (text p.topic_name) a,
            ),
            packet_waiting conn waiting 0x82 after [],
          )
    read_subscribe-subscribe_body a =
        read_subscribe-body conn waiting delivers 0x82 after callback capture (p.packet_id / 256)
          (p.packet_id % 256) (filter_of p ∷ []) a
          (
            record {
              formed = record {
                low_byte = omega (arith, v.topic.fits);
                sized = omega (arith, length-text p.topic_name v.topic);
                short = omega (arith, length-text p.topic_name v.topic, v.topic.fits);
              };
              accepts = accepts;
            },
            tt,
          )
        ∙ ap
            (λ (id : ℕ). done (
              some (
                record { topic_name = empty_buffer 25; packet_id = id },
                capture (text p.topic_name) a,
              ),
              packet_waiting conn waiting 0x82 after [],
            ))
            (omega arith)

    -- For a topic that fits its buffer and a 16-bit packet id, Subscribe::SendOn passes its assert
    -- and hands the SUBSCRIBE packet to Write; on a connection that delivers its bytes, ReadNext
    -- takes the fixed header of these bytes off and gives a packet of the rest of them, and on
    -- that packet ReadFrom, with a callback that accepts the topic without touching the packet,
    -- hands exactly this topic to it, gives the packet id back, and leaves nothing of the packet.
    pub read_subscribe-send_subscribe :
        {S : Type 0} (write : List ℕ → Prog S Bool) (s : S) (a : A)
        → (send_subscribe write p s ≡ write subscribe_wire s)
          × (read_next conn (waiting (subscribe_wire ++ after))
              ≡ done (
                some (packet_waiting conn waiting 0x82 after (subscribe_body p)).0,
                waiting (subscribe_body p ++ after),
              ))
          × (read_subscribe
                (Packet.read conn)
                remaining
                callback
                a
                (packet_waiting conn waiting 0x82 after (subscribe_body p))
              ≡ done (
                some (
                  record { topic_name = empty_buffer 25; packet_id = p.packet_id },
                  capture (text p.topic_name) a,
                ),
                packet_waiting conn waiting 0x82 after [],
              ))
    read_subscribe-send_subscribe write s a =
        (send_subscribe-wire write p s v, read_next-subscribe_wire, read_subscribe-subscribe_body a)
