-- ===== src/Proto3/Publish.antt =====
-- struct Publish (include/gnat/packets.h, lines 290 to 356).
pub mod Sending
pub mod Reading
pub mod RoundTrip
use gnat.Base.{
  ℕ, zero, suc, ◌+◌, ◌*◌, ◌/◌, ◌%◌, ◌^◌, bit_and, bit_or, List, [], Bool, true, false, Option, some,
  length, take, ltb, ◌==◌, if◌then◌else◌,
}
use gnat.Base.Outcome.{
  Prog, done, aborted, undefined, out_of_fuel, pure, raise, and_then, ◌>>=◌, ◌>>◌, ◌>>=?◌,
}
use gnat.Fields.{
  PacketField, StringBuffer, empty_buffer, type_string, type_bytes, int_max, read_field,
}
use gnat.Header.{publish, packet_code}
use gnat.Buffer.{put, copy}

pub record Publish : Type 0 where
  pub topic : StringBuffer
  pub payload_bytes : ℕ

abbrev pub topic_field : PacketField
topic_field = record { byte_count = 0; type = type_string }

abbrev pub packet_id_field : PacketField
packet_id_field = record { byte_count = 2; type = type_bytes }

module _ {S : Type 0} (read : ℕ → Prog S (Option (List ℕ))) (bytes_remaining : S → ℕ) where
  -- The packet id of a PUBLISH with a QoS is read and dropped.
  unfoldable pub skip_packet_id : ℕ → Prog S (Option ℕ)
  unfolding read_field
  skip_packet_id flags =
      if bit_and (flags / 2) 3 == 0 then pure (some 0) else read_field read packet_id_field 0

  -- Publish::ReadFrom.
  unfoldable pub read_publish : ℕ → Prog S (Option Publish)
  read_publish flags = read_field read topic_field (empty_buffer 128) >>=? λ topic.
      skip_packet_id flags >>=? λ _.
      λ s. done (some (record { topic = topic; payload_bytes = bytes_remaining s }), s)

-- The byte that a round of the loop below puts into the buffer.
abbrev pub length_byte : ℕ → ℕ
length_byte remaining = if ltb 127 remaining then bit_or (remaining % 128) 128 else remaining

-- `while (length > 0)` of SendOn, on an `int` that is not negative.
unfoldable pub length_loop : ℕ → ℕ → Prog (List ℕ) (Unit {0})
length_loop zero remaining = if remaining == 0 then pure tt else raise out_of_fuel
length_loop (suc rounds) remaining =
    let more = put 256 (length_byte remaining) >> length_loop rounds (remaining / 128) in
    if remaining == 0 then pure tt else more

-- `int length = 2 + topic.length + payload_bytes`: the sum is a uint32_t, and one beyond `int`
-- becomes negative, so that the loop does nothing. Five rounds are enough for 31 bits.
unfoldable pub put_length : Publish → Prog (List ℕ) (Unit {0})
unfolding length_loop
put_length p =
    let total = (2 + p.topic.length_ + p.payload_bytes) % 2 ^ 32 in
    if ltb int_max total then pure tt else length_loop 5 total

-- `assert(current_byte < kBufferSize)`: a uint8_t against 256.
unfoldable pub check_current_byte : Prog (List ℕ) (Unit {0})
check_current_byte buffer = if ltb (length buffer % 256) 256 then done (tt, buffer) else aborted

unfoldable pub fill_publish : Publish → Prog (List ℕ) (Unit {0})
unfolding put_length check_current_byte
fill_publish p = do
  put 256 (bit_or (bit_and (packet_code publish * 16) 0xf0) (bit_and 0 0xf))
  put_length p
  put 256 0
  put 256 p.topic.length_
  copy 256 p.topic.data_ p.topic.length_
  check_current_byte

module _ {S : Type 0} (write_partial write : List ℕ → Prog S Bool) where
  -- `Write(payload, payload_bytes)` on an array of the bytes `payload`.
  abbrev pub write_payload : List ℕ → ℕ → Prog S Bool
  write_payload payload count =
      if ltb (length payload) count then raise undefined else write (take count payload)

  -- Publish::SendOn. `header_size` is `current_byte`, a uint8_t.
  unfoldable pub send_publish : Publish → List ℕ → Prog S Bool
  unfolding fill_publish
  send_publish p payload s = and_then (fill_publish p []) λ (_, buffer).
      (write_partial (take (length buffer % 256) buffer) >>= λ written.
      if written then write_payload payload p.payload_bytes else pure false)
        s
