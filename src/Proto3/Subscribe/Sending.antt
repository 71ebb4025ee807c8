-- ===== src/Proto3/Subscribe/Sending.antt =====
-- What Subscribe::SendOn writes.
use gnat.Base.{
  ℕ, ◌+◌, ◌/◌, ◌%◌, ◌^◌, ◌<◌, ◌≡◌, ap, ◌∙◌, arith, List, [], ◌∷◌, ◌++◌, Bool, length, length-append,
  ltb-true,
}
use gnat.Base.Bits.{low_byte}
use gnat.Base.Outcome.{done, Prog, step, ◌>>◌}
use gnat.Buffer.{put_remaining_length}
use gnat.Buffer.Writes.{
  IsBuffer, text, length-text, Writes, Writes-put, put_then, text_then, patch-Writes, send-Writes,
}
use gnat.Header.{packet_code}
use gnat.Proto3.Subscribe.{Subscribe, fill_subscribe, send_subscribe, check_remaining_length}

-- The values that the C++ types allow.
pub record IsSubscribe (p : Subscribe) : Type 0 where
  pub id : p.packet_id < 2 ^ 16
  pub topic : IsBuffer 25 p.topic_name

-- A SUBSCRIBE packet behind its fixed header: one topic, of QoS 0.
abbrev pub subscribe_body : Subscribe → List ℕ
subscribe_body p =
    (p.packet_id / 256) ∷ (p.packet_id % 256) ∷ 0 ∷ p.topic_name.length_ ∷ text p.topic_name
    ++ 0 ∷ []

fill_subscribe-Writes :
    (p : Subscribe) → IsSubscribe p → Writes 128 (fill_subscribe p) (0x82 ∷ 0 ∷ subscribe_body p)
unfolding fill_subscribe packet_code
fill_subscribe-Writes p v = rw (low_byte p.packet_id) (
    put_then _ _ (omega arith) (
      put_then _ _ (omega arith) (
        put_then _ _ (omega (arith, v.id)) (
          put_then _ _ (omega arith) (
            put_then _ _ (omega arith) (
              put_then _ _ (omega (arith, v.topic.fits))
                (text_then p.topic_name _ v.topic (Writes-put _ (omega arith)))))))))

pub length-subscribe_body :
    (p : Subscribe) → IsSubscribe p → length (subscribe_body p) ≡ p.topic_name.length_ + 5
length-subscribe_body p v =
    omega (arith, length-append (text p.topic_name) (0 ∷ []), length-text p.topic_name v.topic)

patched_subscribe :
    (p : Subscribe)
    → IsSubscribe p
    → (fill_subscribe p >> put_remaining_length) []
      ≡ done (tt, 0x82 ∷ length (subscribe_body p) ∷ subscribe_body p)
patched_subscribe p v =
    let n = length-subscribe_body p v in
    patch-Writes (fill_subscribe-Writes p v) (omega (arith, n, v.topic.fits))
    ∙ ap (λ (k : ℕ). done (tt, 0x82 ∷ k ∷ subscribe_body p)) (omega (arith, n, v.topic.fits))

-- Subscribe::SendOn of a topic that fits its buffer and a 16-bit packet id passes its assert and
-- hands the SUBSCRIBE packet, with its length and QoS 0, to Write.
pub send_subscribe-wire :
    {S : Type 0} (write : List ℕ → Prog S Bool) (p : Subscribe) (s : S)
    → IsSubscribe p
    → send_subscribe write p s ≡ write (0x82 ∷ length (subscribe_body p) ∷ subscribe_body p) s
unfolding send_subscribe check_remaining_length
send_subscribe-wire write p s v =
    let n = length-subscribe_body p v in
    send-Writes _ write s (
      step _ _ (patched_subscribe p v)
        (rw (ltb-true (length (subscribe_body p)) 127 (omega (arith, n, v.topic.fits)))))
