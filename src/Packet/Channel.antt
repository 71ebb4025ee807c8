-- ===== src/Packet/Channel.antt =====
-- A packet over a connection that delivers bytes, or drains them.
use gnat.Base.{
  ℕ, ◌^◌, ◌<◌, ◌≡◌, refl, ap, arith, List, ◌∷◌, ◌++◌, some, length, length-append, ltb-true,
  ltb-false, [], Bool, true, suc-==_zero,
}
use gnat.Base.Outcome.{done, aborted, Prog, step, step?, and_then-done}
use gnat.Connection.{ClientConnection}
use gnat.Fields.Channel.{Delivers}
use gnat.Fields.Variable.{encoding}
use gnat.Header.Reading.{read_fixed_header-encoding}
use gnat.Packet.{Packet, on_connection, consume, read, read_next, drain, destroy}
use mathlib.Core.List.{append_assoc}

module _ {C W : Type 0} where
  pub on_connection-done :
      {A : Type 0} (m : Prog (C × W) A) (p : Packet C) (w : W) {a : A} {s : C × W}
      → m (p.connection, w) ≡ done (a, s)
      → on_connection m (p, w) ≡ done (a, (record p { connection = s.0 }, s.1))
  unfolding on_connection
  on_connection-done m p w e = and_then-done _ _ e refl

module _ {C W : Type 0} (conn : ClientConnection C W) (waiting : List ℕ → C × W) where
  -- A packet with the bytes `body` left, on a connection where `after` follows them.
  abbrev pub packet_waiting : ℕ → List ℕ → List ℕ → Packet C × W
  packet_waiting control after body = (
    record {
      control = control;
      bytes_remaining = length body;
      connection = (waiting (body ++ after)).0;
    },
    (waiting (body ++ after)).1,
  )

  -- A read beyond the packet's end fails the assert.
  pub read-beyond :
      (p : Packet C) (w : W) (size : ℕ) → p.bytes_remaining < size → read conn size (p, w) ≡ aborted
  unfolding read
  read-beyond p w size h = rw (ltb-true p.bytes_remaining size h)

  abbrev packet_left : ℕ → List ℕ → List ℕ → ℕ → Packet C × W
  packet_left control after rest n = (
    record { control = control; bytes_remaining = n; connection = (waiting (rest ++ after)).0 },
    (waiting (rest ++ after)).1,
  )

  module _ (delivers : Delivers conn.read waiting) where
    packet_front :
        (control : ℕ) (after xs rest : List ℕ)
        → read conn (length xs) (packet_waiting control after (xs ++ rest))
          ≡ done (some xs, packet_waiting control after rest)
    unfolding read consume
    packet_front control after xs rest =
        rw (ltb-false (length (xs ++ rest)) (length xs) (omega (arith, length-append xs rest))) (
          step? _ _
            (on_connection-done (conn.read (length xs)) _ _ {a = some xs}
              {s = waiting (rest ++ after)}
              (rw (append_assoc xs rest after) (delivers.front xs (rest ++ after))))
            (step _ _ refl (
              ap (λ (n : ℕ). done (some xs, packet_left control after rest n))
                (omega (arith, length-append xs rest)))))

    pub packet-Delivers :
        (control : ℕ) (after : List ℕ) → Delivers (read conn) (packet_waiting control after)
    packet-Delivers control after = record { front = packet_front control after }

    -- On a connection that delivers its bytes, ReadNext takes a control byte and the encoded size
    -- of a body of less than 2 ^ 28 bytes off the connection, and gives the packet that has
    -- exactly the body left.
    pub read_next-packet :
        (control : ℕ) (body after : List ℕ)
        → length body < 2 ^ 28
        → read_next conn (waiting (control ∷ encoding 3 (length body) ++ (body ++ after)))
          ≡ done (some (packet_waiting control after body).0, waiting (body ++ after))
    unfolding read_next
    read_next-packet control body after h =
        step? _ _
          (read_fixed_header-encoding conn.read waiting delivers control (length body)
            (body ++ after) h)
          refl

-- `drain` takes any front part off what can be read.
pub record Drains {S : Type 0} (drain : ℕ → Prog S Bool) (waiting : List ℕ → S) : Type 0 where
  pub front :
      (xs rest : List ℕ) → drain (length xs) (waiting (xs ++ rest)) ≡ done (true, waiting rest)

module _ {C W : Type 0} (conn : ClientConnection C W) (waiting : List ℕ → C × W)
    (drains : Drains conn.drain waiting) (control : ℕ) (after : List ℕ) where
  -- On a connection that drains what it is asked to, the destructor of a packet takes exactly the
  -- bytes that are left of it off the connection, so that the next packet comes first.
  pub destroy-packet :
      (body : List ℕ)
      → destroy conn (packet_waiting conn waiting control after body)
        ≡ done (
          tt,
          (
            record {
              control = control;
              bytes_remaining = length body;
              connection = (waiting after).0;
            },
            (waiting after).1,
          ),
        )
  unfolding destroy
  destroy-packet [] = refl
  destroy-packet (b ∷ bs) = rw (suc-==_zero (length bs)) (
      step _ _
        (on_connection-done (conn.drain (length (b ∷ bs))) _ _ {a = true} {s = waiting after}
          (drains.front (b ∷ bs) after))
        refl)

  -- On a connection that drains what it is asked to, Drain of a front part of a packet succeeds,
  -- and the packet then has exactly the rest left.
  pub drain-packet :
      (xs rest : List ℕ)
      → drain conn (length xs) (packet_waiting conn waiting control after (xs ++ rest))
        ≡ done (true, packet_waiting conn waiting control after rest)
  unfolding drain consume
  drain-packet xs rest =
      rw (ltb-false (length (xs ++ rest)) (length xs) (omega (arith, length-append xs rest))) (
        step _ _
          (on_connection-done (conn.drain (length xs)) _ _ {a = true} {s = waiting (rest ++ after)}
            (rw (append_assoc xs rest after) (drains.front xs (rest ++ after))))
          (step _ _ refl (
            ap (λ (n : ℕ). done (true, packet_left conn waiting control after rest n))
              (omega (arith, length-append xs rest)))))
