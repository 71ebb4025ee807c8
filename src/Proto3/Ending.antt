-- ===== src/Proto3/Ending.antt =====
-- Where the other readers and the senders of proto3 can run out of fuel: only in their client.
use gnat.Base.{
  ℕ, zero, suc, ◌+◌, ◌/◌, ◌%◌, ◌^◌, ◌<◌, ◌≡◌, arith, Bool, List, [], ◌∷◌, Option, ltb, ltb-false→le,
  length, take, bit_and, ◌==◌,
}
use gnat.Base.Outcome.{Prog, out_of_fuel, ◌>>◌}
use gnat.Base.Ensures.{
  Any, Ensures, Ensures-aborted, Ensures-undefined, Ensures-done, Ensures-weaken, Ensures-run,
  Ensures-if, Ensures-branch, Ensures-and_then, Ensures-bind, Ensures-bind?,
}
use gnat.Buffer.{append, put, copy, put_remaining_length, send}
use gnat.Proto3.SubscribeAck.{SubscribeAck, fill_subscribe_ack, send_subscribe_ack}
use gnat.Fields.{read_field, read_bytes, empty_buffer, int_max}
use gnat.Fields.Shrinking.{Shrunk, read_string-Shrunk, read_bytes-NoMore}
use gnat.Proto3.Connect.{Connect, read_connect}
use gnat.Proto3.Publish.{
  Publish, skip_packet_id, read_publish, length_byte, length_loop, put_length, check_current_byte,
  fill_publish, write_payload, send_publish,
}
use native.Mathlib.Nat.{pow-suc}

module _ (stuck : Type 0) {S : Type 0} (read : ℕ → Prog S (Option (List ℕ)))
    (bytes_remaining : S → ℕ)
    (shrinks : (n : ℕ) (s : S) → Ensures stuck (Shrunk stuck bytes_remaining n s) (read n s)) where
  skip_packet_id-Any :
      (flags : ℕ) (s : S) → Ensures stuck Any (skip_packet_id read bytes_remaining flags s)
  unfolding skip_packet_id read_field
  skip_packet_id-Any flags s =
      Ensures-branch stuck Any (bit_and (flags / 2) 3 == 0) _ _ s (λ _. Ensures-done stuck Any tt)
        λ _.
          Ensures-weaken stuck (read_bytes read 2 0 s) (λ x q. tt)
            (read_bytes-NoMore stuck bytes_remaining read shrinks 2 0 s)

  pub read_publish-Any :
      (flags : ℕ) (s : S) → Ensures stuck Any (read_publish read bytes_remaining flags s)
  unfolding read_publish read_field
  read_publish-Any flags s =
      Ensures-bind? stuck (Shrunk stuck bytes_remaining 2 s) Any _ _ s
        (read_string-Shrunk stuck bytes_remaining read shrinks (empty_buffer 128) s) (λ t q. tt)
        λ topic t q.
          Ensures-bind? stuck Any Any _ _ t (skip_packet_id-Any flags t) (λ u r. tt)
            λ id u r. Ensures-done stuck Any tt

  field-Any : (count out : ℕ) (s : S) → Ensures stuck Any (read_bytes read count out s)
  field-Any count out s =
      Ensures-weaken stuck (read_bytes read count out s) (λ x q. tt)
        (read_bytes-NoMore stuck bytes_remaining read shrinks count out s)

  pub read_connect-Any : (memory : Connect) (s : S) → Ensures stuck Any (read_connect read memory s)
  unfolding read_connect read_field
  read_connect-Any memory s =
      Ensures-bind? stuck (Shrunk stuck bytes_remaining 2 s) Any _ _ s
        (read_string-Shrunk stuck bytes_remaining read shrinks (empty_buffer 6) s) (λ t q. tt)
        λ name t q.
          Ensures-bind? stuck Any Any _ _ t (field-Any 1 memory.protocol_level t) (λ u r. tt)
            λ level u r.
              Ensures-bind? stuck Any Any _ _ u (field-Any 1 memory.flags u) (λ v x. tt)
                λ flags v x.
                  Ensures-bind? stuck Any Any _ _ v (field-Any 2 memory.keep_alive v) (λ y z. tt)
                    λ alive y z. Ensures-done stuck Any tt

-- The buffer of Publish::SendOn.
module _ (stuck : Type 0) where
  append-Any : (size : ℕ) (bytes buffer : List ℕ) → Ensures stuck Any (append size bytes buffer)
  unfolding append
  append-Any size bytes buffer =
      Ensures-if stuck Any (ltb size (length buffer + length bytes)) _ _
        (λ _. Ensures-undefined stuck Any) (λ _. Ensures-done stuck Any tt)

  put-Any : (size value : ℕ) (buffer : List ℕ) → Ensures stuck Any (put size value buffer)
  unfolding put
  put-Any size value buffer = append-Any size ((value % 256) ∷ []) buffer

  copy-Any :
      (size : ℕ) (from : List ℕ) (count : ℕ) (buffer : List ℕ)
      → Ensures stuck Any (copy size from count buffer)
  unfolding copy
  copy-Any size from count buffer =
      Ensures-branch stuck Any (ltb (length from) count) _ _ buffer
        (λ _. Ensures-undefined stuck Any) (λ _. append-Any size (take count from) buffer)

  -- Rounds for as many groups of seven bits as the number has are enough.
  length_loop-Any :
      (rounds v : ℕ) (buffer : List ℕ)
      → v < 128 ^ rounds
      → Ensures stuck Any (length_loop rounds v buffer)
  unfolding length_loop
  length_loop-Any zero v buffer h =
      let nothing : v ≡ 0 = omega arith in rw nothing (Ensures-done stuck Any tt)
  length_loop-Any (suc rounds) v buffer h =
      Ensures-branch stuck Any (v == 0) _ _ buffer (λ _. Ensures-done stuck Any tt)
        λ _.
          Ensures-bind stuck Any Any (put 256 (length_byte v)) _ buffer
            (put-Any 256 (length_byte v) buffer)
            λ x t q. length_loop-Any rounds (v / 128) t (omega (arith, pow-suc 128 rounds))

  put_length-Any : (p : Publish) (buffer : List ℕ) → Ensures stuck Any (put_length p buffer)
  unfolding put_length
  put_length-Any p buffer =
      let total = (2 + p.topic.length_ + p.payload_bytes) % 2 ^ 32 in
      Ensures-branch stuck Any (ltb int_max total) _ _ buffer (λ _. Ensures-done stuck Any tt)
        λ fits. length_loop-Any 5 total buffer (omega (arith, ltb-false→le int_max total fits))

  check_current_byte-Any : (buffer : List ℕ) → Ensures stuck Any (check_current_byte buffer)
  unfolding check_current_byte
  check_current_byte-Any buffer =
      Ensures-if stuck Any (ltb (length buffer % 256) 256) _ _ (λ _. Ensures-done stuck Any tt)
        (λ _. Ensures-aborted stuck Any)

  then_Any :
      (m k : Prog (List ℕ) (Unit {0})) (buffer : List ℕ)
      → Ensures stuck Any (m buffer)
      → ((b : List ℕ) → Ensures stuck Any (k b))
      → Ensures stuck Any ((m >> k) buffer)
  then_Any m k buffer h g = Ensures-bind stuck Any Any m _ buffer h (λ x t q. g t)

  fill_publish-Any : (p : Publish) (buffer : List ℕ) → Ensures stuck Any (fill_publish p buffer)
  unfolding fill_publish
  fill_publish-Any p buffer = then_Any _ _ buffer (put-Any 256 _ buffer) λ b.
      then_Any _ _ b (put_length-Any p b) λ b. then_Any _ _ b (put-Any 256 0 b) λ b.
        then_Any _ _ b (put-Any 256 p.topic.length_ b)
          λ b. then_Any _ _ b (copy-Any 256 p.topic.data_ p.topic.length_ b) check_current_byte-Any

  fill_subscribe_ack-Any :
      (ack : SubscribeAck) (buffer : List ℕ) → Ensures stuck Any (fill_subscribe_ack ack buffer)
  unfolding fill_subscribe_ack
  fill_subscribe_ack-Any ack buffer = then_Any _ _ buffer (put-Any 32 _ buffer) λ b.
      then_Any _ _ b (put-Any 32 0 b) λ b.
        then_Any _ _ b (put-Any 32 _ b)
          λ b. then_Any _ _ b (put-Any 32 _ b) λ b. copy-Any 32 ack.responses ack.responses_count b

  pub send_subscribe_ack-Any :
      {S : Type 0} (write : List ℕ → Prog S Bool)
      (write_ends : (bytes : List ℕ) (s : S) → write bytes s ≡ out_of_fuel → stuck)
      (ack : SubscribeAck) (s : S)
      → Ensures stuck Any (send_subscribe_ack write ack s)
  unfolding send_subscribe_ack send put_remaining_length
  send_subscribe_ack-Any write write_ends ack s =
      Ensures-and_then stuck Any Any ((fill_subscribe_ack ack >> put_remaining_length) []) _
        (then_Any (fill_subscribe_ack ack) put_remaining_length [] (fill_subscribe_ack-Any ack [])
          λ b. Ensures-done stuck Any tt)
        λ (x, buffer) q. Ensures-run stuck Any (write buffer s) (write_ends buffer s) (λ y e. tt)

  -- Publish::SendOn on a connection.
  module _ {S : Type 0} (write_partial write : List ℕ → Prog S Bool)
      (partial_ends : (bytes : List ℕ) (s : S) → write_partial bytes s ≡ out_of_fuel → stuck)
      (write_ends : (bytes : List ℕ) (s : S) → write bytes s ≡ out_of_fuel → stuck) where
    write_payload-Any :
        (payload : List ℕ) (count : ℕ) (s : S)
        → Ensures stuck Any (write_payload write_partial write payload count s)
    write_payload-Any payload count s =
        Ensures-branch stuck Any (ltb (length payload) count) _ _ s
          (λ _. Ensures-undefined stuck Any)
          λ _.
            Ensures-run stuck Any (write (take count payload) s) (write_ends (take count payload) s)
              (λ x e. tt)

    pub send_publish-Any :
        (p : Publish) (payload : List ℕ) (s : S)
        → Ensures stuck Any (send_publish write_partial write p payload s)
    unfolding send_publish
    send_publish-Any p payload s =
        Ensures-and_then stuck Any Any (fill_publish p []) _ (fill_publish-Any p [])
          λ (x, buffer) q.
            let head = take (length buffer % 256) buffer in
            Ensures-bind stuck Any Any (write_partial head) _ s
              (Ensures-run stuck Any (write_partial head s) (partial_ends head s) (λ x e. tt))
              λ written t r.
                Ensures-branch stuck Any written _ _ t
                  (λ _. write_payload-Any payload p.payload_bytes t)
                  (λ _. Ensures-done stuck Any tt)
