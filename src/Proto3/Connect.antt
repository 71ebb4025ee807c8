-- ===== src/Proto3/Connect.antt =====
-- struct Connect (include/gnat/packets.h, lines 157 to 236).
pub mod RoundTrip
pub mod CutOff
pub mod Receiving
use gnat.Base.{ℕ, ◌*◌, ◌/◌, bit_and, List, [], ◌∷◌, ◌++◌, Bool, Option, some, replicate}
use gnat.Base.Outcome.{Prog, pure, ◌>>=◌, ◌>>◌, ◌>>=?◌}
use gnat.Fields.{PacketField, StringBuffer, empty_buffer, type_string, type_bytes, read_field}
use gnat.Header.{connect, packet_code}
use gnat.Buffer.{put, copy, put_remaining_length, send}

pub record Connect : Type 0 where
  pub protocol_name : StringBuffer
  pub protocol_level : ℕ
  pub flags : ℕ
  pub keep_alive : ℕ
  pub client_id : StringBuffer

abbrev pub name_field : PacketField
name_field = record { byte_count = 0; type = type_string }

abbrev pub protocol_level_field : PacketField
protocol_level_field = record { byte_count = 1; type = type_bytes }

abbrev pub connect_flags_field : PacketField
connect_flags_field = record { byte_count = 1; type = type_bytes }

abbrev pub keep_alive_field : PacketField
keep_alive_field = record { byte_count = 2; type = type_bytes }

-- kDefaultConnect.
abbrev pub default_connect : Connect
default_connect = record {
  protocol_name = record { data_ = b'M' ∷ b'Q' ∷ b'T' ∷ b'T' ∷ 0 ∷ 0 ∷ []; length_ = 4 };
  protocol_level = 4;
  flags = 2;
  keep_alive = 0;
  client_id = record { data_ = b'G' ∷ b'N' ∷ b'A' ∷ b'T' ∷ replicate 19 0; length_ = 4 };
}

module _ {S : Type 0} where
  -- Connect::ReadFrom. The three integers of `Connect out;` start with whatever the memory held:
  -- `memory` is a Connect with those.
  unfoldable pub read_connect : (ℕ → Prog S (Option (List ℕ))) → Connect → Prog S (Option Connect)
  unfolding read_field
  read_connect read memory = read_field read name_field (empty_buffer 6) >>=? λ protocol_name.
      read_field read protocol_level_field memory.protocol_level >>=? λ protocol_level.
      read_field read connect_flags_field memory.flags >>=? λ flags.
      read_field read keep_alive_field memory.keep_alive >>=? λ keep_alive. pure (
        some (record {
          protocol_name = protocol_name;
          protocol_level = protocol_level;
          flags = flags;
          keep_alive = keep_alive;
          client_id = empty_buffer 23;
        }))

-- Connect::SendOn up to the length, which is put in last.
unfoldable pub fill_connect : Connect → Prog (List ℕ) (Unit {0})
fill_connect c = do
  put 128 (bit_and (packet_code connect * 16) 0xf0)
  put 128 0
  put 128 0
  put 128 c.protocol_name.length_
  copy 128 c.protocol_name.data_ c.protocol_name.length_
  put 128 c.protocol_level
  put 128 c.flags
  put 128 (c.keep_alive / 256)
  put 128 (bit_and c.keep_alive 0xff)
  put 128 0
  put 128 c.client_id.length_
  copy 128 c.client_id.data_ c.client_id.length_

module _ {S : Type 0} where
  unfoldable pub send_connect : (List ℕ → Prog S Bool) → Connect → Prog S Bool
  unfolding fill_connect
  send_connect write c = send (fill_connect c >> put_remaining_length) write
