-- ===== src/Proto3/Subscribe.antt =====
-- struct Subscribe (include/gnat/packets.h, lines 358 to 426).
pub mod Sending
pub mod RoundTrip
pub mod Reading
pub mod Shrinking
use gnat.Base.{
  ℕ, zero, suc, ◌+◌, ◌*◌, ◌/◌, bit_and, bit_or, List, [], ◌∷◌, Bool, true, false, Option, none,
  some, length, get_or, ltb, ◌==◌, if◌then◌else◌,
}
use gnat.Base.Outcome.{Prog, done, aborted, out_of_fuel, pure, raise, ◌>>=◌, ◌>>◌, ◌>>=?◌}
use gnat.Fields.{PacketField, StringBuffer, empty_buffer, type_string, type_bytes, read_field}
use gnat.Header.{subscribe, packet_code}
use gnat.Buffer.{put, copy, put_remaining_length, send}

pub record Subscribe : Type 0 where
  pub topic_name : StringBuffer
  pub packet_id : ℕ

abbrev pub packet_id_field : PacketField
packet_id_field = record { byte_count = 2; type = type_bytes }

abbrev pub topic_field : PacketField
topic_field = record { byte_count = 0; type = type_string }

abbrev pub flags_field : PacketField
flags_field = record { byte_count = 1; type = type_bytes }

-- `callback` is the TopicCallback: it has the topic and its captured variables, and returns the
-- bool and what it left in those.
module _ {S C : Type 0} (read : ℕ → Prog S (Option (List ℕ))) (bytes_remaining : S → ℕ)
    (callback : StringBuffer → C → Prog S (Bool × C)) where
  -- `while (client->bytes_remaining() > 0)`. The topic's buffer is that of the round before.
  unfoldable pub topics_loop : ℕ → StringBuffer → C → Prog S (Option C)
  unfolding read_field
  topics_loop zero topic c s = if bytes_remaining s == 0 then done (some c, s) else out_of_fuel
  topics_loop (suc rounds) topic c s =
      let round =
        (read_field read topic_field topic >>=? λ next. callback next c >>= λ (accepted, c').
        if accepted
        then (read_field read flags_field 0 >>=? λ _. topics_loop rounds next c')
        else pure none)
          s in
      if bytes_remaining s == 0 then done (some c, s) else round

  -- Subscribe::ReadFrom, with the callback's variables after it. A round that goes on has taken two
  -- bytes at least, so the bytes left are rounds enough.
  unfoldable pub read_subscribe : C → Prog S (Option (Subscribe × C))
  read_subscribe c = read_field read packet_id_field 0 >>=? λ packet_id.
      (λ s. topics_loop (bytes_remaining s) (empty_buffer 128) c s) >>=? λ c'.
      pure (some (record { topic_name = empty_buffer 25; packet_id = packet_id }, c'))

unfoldable pub fill_subscribe : Subscribe → Prog (List ℕ) (Unit {0})
fill_subscribe p = do
  put 128 (bit_or (packet_code subscribe * 16) 2)
  put 128 0
  put 128 (p.packet_id / 256)
  put 128 (bit_and p.packet_id 0xff)
  put 128 0
  put 128 p.topic_name.length_
  copy 128 p.topic_name.data_ p.topic_name.length_
  put 128 0

-- `assert(*remaining_length < 127)`.
unfoldable pub check_remaining_length : Prog (List ℕ) (Unit {0})
check_remaining_length buffer = if ltb (get_or buffer 1 0) 127 then done (tt, buffer) else aborted

module _ {S : Type 0} where
  unfoldable pub send_subscribe : (List ℕ → Prog S Bool) → Subscribe → Prog S Bool
  unfolding fill_subscribe check_remaining_length
  send_subscribe write p =
      send ((fill_subscribe p >> put_remaining_length) >> check_remaining_length) write
