-- ===== src/Proto3/SubscribeAck/Sending.antt =====
-- What SubscribeAck::SendOn writes into its buffer of 32 bytes.
use gnat.Base.{
  ℕ, ◌+◌, ◌/◌, ◌%◌, ◌^◌, ◌≤◌, ◌<◌, ◌≡◌, refl, ap, ◌∙◌, arith, List, ◌∷◌, ◌++◌, Bool, Option, some,
  length, length-take, take, replicate, ltb-true, ltb-false,
}
use gnat.Base.Bits.{low_byte}
use gnat.Base.Outcome.{done, undefined, Prog, step?, and_then, ◌>>=◌}
use gnat.Buffer.{append, put, copy, send}
use gnat.Buffer.Writes.{Writes, Writes-append, put_then, patch-Writes, send-Writes}
use gnat.Fields.Channel.{Delivers, read_bytes-one, read_bytes-two}
use gnat.Header.{packet_code}
use gnat.Proto3.SubscribeAck.{
  SubscribeAck, fill_subscribe_ack, send_subscribe_ack, read_subscribe_ack,
}

-- The values that the C++ types allow.
pub record IsSubscribeAck (ack : SubscribeAck) : Type 0 where
  pub id : ack.subscribe_packet_id < 2 ^ 16
  pub whole : length ack.responses ≡ 32

-- A SUBACK packet behind its fixed header.
abbrev pub suback_body : SubscribeAck → List ℕ
suback_body ack =
    (ack.subscribe_packet_id / 256)
    ∷ (ack.subscribe_packet_id % 256)
    ∷ take ack.responses_count ack.responses

responses-Writes :
    (ack : SubscribeAck)
    → IsSubscribeAck ack
    → ack.responses_count ≤ 28
    → Writes 32 (copy 32 ack.responses ack.responses_count) (take ack.responses_count ack.responses)
unfolding copy
responses-Writes ack v few =
    rw (ltb-false (length ack.responses) ack.responses_count (omega (arith, v.whole)))
      (Writes-append (take ack.responses_count ack.responses))

fill_subscribe_ack-Writes :
    (ack : SubscribeAck)
    → IsSubscribeAck ack
    → ack.responses_count ≤ 28
    → Writes 32 (fill_subscribe_ack ack) (0x90 ∷ 0 ∷ suback_body ack)
unfolding fill_subscribe_ack packet_code
fill_subscribe_ack-Writes ack v few = rw (low_byte ack.subscribe_packet_id) (
    put_then _ _ (omega arith) (
      put_then _ _ (omega arith) (
        put_then _ _ (omega (arith, v.id))
          (put_then _ _ (omega arith) (responses-Writes ack v few)))))

-- SubscribeAck::SendOn with at most 28 responses and a 16-bit packet id stays in its buffer and
-- hands the SUBACK packet, with the packet id and the responses, to Write.
pub send_subscribe_ack-wire :
    {S : Type 0} (write : List ℕ → Prog S Bool) (ack : SubscribeAck) (s : S)
    → IsSubscribeAck ack
    → ack.responses_count ≤ 28
    → send_subscribe_ack write ack s ≡ write (0x90 ∷ (ack.responses_count + 2) ∷ suback_body ack) s
unfolding send_subscribe_ack
send_subscribe_ack-wire write ack s v few =
    let n = length-take ack.responses_count ack.responses in
    send-Writes _ write s (
      patch-Writes (fill_subscribe_ack-Writes ack v few) (omega (arith, n, few, v.whole))
      ∙ ap (λ (k : ℕ). done (tt, 0x90 ∷ k ∷ suback_body ack)) (omega (arith, n, few, v.whole)))

copy-overflow :
    (ack : SubscribeAck) (buffer : List ℕ)
    → IsSubscribeAck ack
    → length buffer ≡ 4
    → 28 < ack.responses_count
    → ack.responses_count ≤ 32
    → copy 32 ack.responses ack.responses_count buffer ≡ undefined
unfolding copy append
copy-overflow ack buffer v four many fits = rw (
  ltb-false (length ack.responses) ack.responses_count (omega (arith, v.whole)),
  ltb-true 32 (length buffer + length (take ack.responses_count ack.responses))
      (omega (arith, four, length-take ack.responses_count ack.responses, v.whole)),
)

-- With 29 to 32 responses, which its array has room for, SubscribeAck::SendOn copies beyond its
-- buffer of 32 bytes.
pub send_subscribe_ack-overflow :
    {S : Type 0} (write : List ℕ → Prog S Bool) (ack : SubscribeAck) (s : S)
    → IsSubscribeAck ack
    → 28 < ack.responses_count
    → ack.responses_count ≤ 32
    → send_subscribe_ack write ack s ≡ undefined
unfolding send_subscribe_ack fill_subscribe_ack send put append ◌>>=◌ and_then
send_subscribe_ack-overflow write ack s v many fits = rw (copy-overflow ack _ v refl many fits)

-- On a client that delivers its bytes, SubscribeAck::ReadFrom reads the body of a SUBACK with one
-- response back: the packet id, and the response in front of 31 zeros.
pub read_subscribe_ack-body :
    {S : Type 0} (read : ℕ → Prog S (Option (List ℕ))) (waiting : List ℕ → S)
    (delivers : Delivers read waiting) (ack : SubscribeAck) (response : ℕ) (responses rest : List ℕ)
    → ack.responses ≡ response ∷ responses
    → ack.responses_count ≡ 1
    → read_subscribe_ack read (waiting (suback_body ack ++ rest))
      ≡ done (
        some (record {
          subscribe_packet_id = ack.subscribe_packet_id;
          responses = response ∷ replicate 31 0;
          responses_count = 1;
        }),
        waiting rest,
      )
unfolding read_subscribe_ack
read_subscribe_ack-body read waiting delivers ack response responses rest e one =
    rw (e, one)
      (step? _ _
        (read_bytes-two read waiting delivers (ack.subscribe_packet_id / 256)
          (ack.subscribe_packet_id % 256) 0 _)
        (step? _ _ (read_bytes-one read waiting delivers response 0 rest) (
          ap
            (λ (k : ℕ). done (
              some (record {
                subscribe_packet_id = k;
                responses = response ∷ replicate 31 0;
                responses_count = 1;
              }),
              waiting rest,
            ))
            (omega arith))))
