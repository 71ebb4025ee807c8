-- ===== src/Proto3/SubscribeAck.antt =====
-- struct SubscribeAck (include/gnat/packets.h, lines 428 to 475).
pub mod Sending
pub mod RoundTrip
use gnat.Base.{ℕ, ◌*◌, ◌/◌, bit_and, List, Bool, Option, some, set, replicate}
use gnat.Base.Outcome.{Prog, pure, ◌>>◌, ◌>>=?◌}
use gnat.Fields.{PacketField, type_bytes, read_field}
use gnat.Header.{suback, packet_code}
use gnat.Buffer.{put, copy, put_remaining_length, send}

pub record SubscribeAck : Type 0 where
  pub subscribe_packet_id : ℕ
  pub responses : List ℕ
  pub responses_count : ℕ

abbrev pub packet_id_field : PacketField
packet_id_field = record { byte_count = 2; type = type_bytes }

abbrev pub response_field : PacketField
response_field = record { byte_count = 1; type = type_bytes }

module _ {S : Type 0} where
  -- SubscribeAck::ReadFrom: one response.
  unfoldable pub read_subscribe_ack : (ℕ → Prog S (Option (List ℕ))) → Prog S (Option SubscribeAck)
  unfolding read_field
  read_subscribe_ack read = read_field read packet_id_field 0 >>=? λ id.
      read_field read response_field 0 >>=? λ response. pure (
        some (record {
          subscribe_packet_id = id;
          responses = set (replicate 32 0) 0 response;
          responses_count = 1;
        }))

-- `current_byte` moves one past the responses, and `packet_size` is that less one.
unfoldable pub fill_subscribe_ack : SubscribeAck → Prog (List ℕ) (Unit {0})
fill_subscribe_ack ack = do
  put 32 (bit_and (packet_code suback * 16) 0xf0)
  put 32 0
  put 32 (ack.subscribe_packet_id / 256)
  put 32 (bit_and ack.subscribe_packet_id 0xff)
  copy 32 ack.responses ack.responses_count

module _ {S : Type 0} where
  unfoldable pub send_subscribe_ack : (List ℕ → Prog S Bool) → SubscribeAck → Prog S Bool
  unfolding fill_subscribe_ack
  send_subscribe_ack write ack = send (fill_subscribe_ack ack >> put_remaining_length) write
