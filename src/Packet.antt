-- ===== src/Packet.antt =====
-- class Packet (include/gnat/packets.h, lines 490 to 581): a packet that streams from a connection.
pub mod Channel
pub mod Dumping
pub mod Shrinking
use gnat.Base.{
  ℕ, ◌-◌, ◌/◌, ◌*◌, bit_and, List, ◌++◌, Bool, true, false, Option, none, some, take, drop, ltb,
  ◌==◌, if◌then◌else◌, length,
}
use gnat.Base.Outcome.{
  Outcome, done, aborted, undefined, Prog, pure, raise, and_then, ◌>>=◌, ◌>>=?◌,
}
use gnat.Header.{PacketType, packet_type, FixedHeader, read_fixed_header}
use gnat.Connection.{ClientConnection}

pub record Packet (C : Type 0) : Type 0 where
  pub control : ℕ
  pub bytes_remaining : ℕ
  pub connection : C

module _ {C W : Type 0} where
  -- A call on the packet's own connection.
  unfoldable pub on_connection : {A : Type 0} → Prog (C × W) A → Prog (Packet C × W) A
  on_connection m (p, w) =
      and_then (m (p.connection, w)) λ (a, (c, w')). done (a, (record p { connection = c }, w'))

  -- `bytes_remaining_ -= size`.
  unfoldable pub consume : ℕ → Prog (Packet C × W) (Unit {0})
  consume size (p, w) = done (tt, (record p { bytes_remaining = p.bytes_remaining - size }, w))

  -- `bytes_remaining()`, on the state of a run.
  abbrev pub remaining : Packet C × W → ℕ
  remaining (p, w) = p.bytes_remaining

unfoldable pub type : {C : Type 0} → Packet C → PacketType
unfolding packet_type
type p = packet_type (p.control / 16)

unfoldable pub type_flags : {C : Type 0} → Packet C → ℕ
type_flags p = bit_and p.control 0xf

module _ {C W : Type 0} (conn : ClientConnection C W) where
  -- Packet::Read, with its assert.
  unfoldable pub read : ℕ → Prog (Packet C × W) (Option (List ℕ))
  unfolding on_connection consume
  read size (p, w) =
      if ltb p.bytes_remaining size
      then aborted
      else (on_connection (conn.read size) >>=? λ bytes. consume size >>= λ _. pure (some bytes))
          (p, w)

  -- Packet::Drain.
  unfoldable pub drain : ℕ → Prog (Packet C × W) Bool
  unfolding on_connection consume
  drain size (p, w) =
      if ltb p.bytes_remaining size
      then done (false, (p, w))
      else (on_connection (conn.drain size) >>= λ drained.
            if drained then (consume size >>= λ _. pure true) else pure false)
          (p, w)

  -- Packet::ReadNext: the packet takes the connection over.
  unfoldable pub read_next : Prog (C × W) (Option (Packet C))
  unfolding read_fixed_header
  read_next = read_fixed_header conn.read >>=? λ header. λ (c, w). done (
    some (record {
      control = header.control;
      bytes_remaining = header.remaining_size;
      connection = c;
    }),
    (c, w),
  )

  -- ~Packet: what is left of the packet is drained. The result of the drain is only logged.
  unfoldable pub destroy : Prog (Packet C × W) (Unit {0})
  unfolding on_connection
  destroy (p, w) =
      if p.bytes_remaining == 0
      then done (tt, (p, w))
      else (on_connection (conn.drain p.bytes_remaining) >>= λ drained. pure tt) (p, w)

-- Packet(Packet&&): the new packet, and what stays behind in `from`.
unfoldable pub move_packet : {C : Type 0} → Packet C → Packet C × Packet C
move_packet from = (from, record from { bytes_remaining = 0 })
