-- ===== src/Proto3/Publish/Sending.antt =====
-- What Publish::SendOn writes.
use gnat.Base.{
  ℕ, zero, suc, ◌+◌, ◌/◌, ◌%◌, ◌^◌, ◌≤◌, ◌<◌, ◌≡◌, refl, ap, arith, Bool, false, List, [], ◌∷◌,
  ◌++◌, length, take, take-all, length-append, ltb, ltb-true, ltb-false, pos-==_zero, Bool-cases,
  inl, inr, if◌then◌else◌, ltb→lt, ltb-false→le,
}
use gnat.Base.Bits.{set_top_bit}
use gnat.Base.Outcome.{Prog, pure, and_then-done, ◌>>=◌, ◌>>◌}
use gnat.Buffer.{copy}
use mathlib.Core.List.{append-nil}
use gnat.Buffer.Writes.{
  IsBuffer, text, Writes, Writes-pure, put_then, text_then, Writes-then, length-text,
}
use gnat.Fields.{StringBuffer, int_max}
use gnat.Fields.Variable.{encoding}
use gnat.Header.{packet_code}
use gnat.Proto3.Publish.{
  Publish, length_byte, length_loop, put_length, fill_publish, send_publish, check_current_byte,
}
use native.Mathlib.Nat.{pow-suc}

length_loop-zero : (k : ℕ) → length_loop k 0 ≡ pure tt
unfolding length_loop
length_loop-zero zero = refl
length_loop-zero (suc k) = refl

length_byte-last : (v : ℕ) → v < 128 → length_byte v ≡ v
length_byte-last v h = rw (ltb-false 127 v (omega arith))

length_byte-inner : (v : ℕ) → 128 ≤ v → length_byte v ≡ v % 128 + 128
length_byte-inner v h = rw (ltb-true 127 v h) (set_top_bit (v % 128) (omega arith))

last_round : (k v : ℕ) → 0 < v → v < 128 → Writes 256 (length_loop (suc k) v) (v ∷ [])
unfolding length_loop
last_round k v pos h =
    let none_left : v / 128 ≡ 0 = omega arith in
    rw (pos-==_zero v pos, length_byte-last v h, none_left, length_loop-zero k)
      (put_then v (pure tt) (omega arith) Writes-pure)

inner_round :
    (k v : ℕ) {bytes : List ℕ}
    → 128 ≤ v
    → Writes 256 (length_loop k (v / 128)) bytes
    → Writes 256 (length_loop (suc k) v) ((v % 128 + 128) ∷ bytes)
unfolding length_loop
inner_round k v h rest =
    rw (pos-==_zero v (omega arith), length_byte-inner v h)
      (put_then (v % 128 + 128) (length_loop k (v / 128)) (omega arith) rest)

-- The loop writes the encoding that ReadVariableByteInteger reads.
length_loop-encoding :
    (k r v : ℕ) → k < r → 0 < v → v < 128 ^ suc k → Writes 256 (length_loop r v) (encoding k v)
unfolding encoding
length_loop-encoding k zero v hr pos h = absurd (omega arith)
length_loop-encoding zero (suc r) v hr pos h = last_round r v pos (omega arith)
length_loop-encoding (suc k) (suc r) v hr pos h = elim (Bool-cases (ltb v 128)) [
  | inl small ↦ rw small (last_round r v pos (ltb→lt _ _ small))
  | inr large ↦
      let more : 128 ≤ v = ltb-false→le _ _ large in
      rw large (
        inner_round r v more (
          length_loop-encoding k r (v / 128) (omega arith) (omega arith)
            (omega (arith, pow-suc 128 (suc k)))))
]

-- The number that the fixed header holds.
abbrev pub publish_size : Publish → ℕ
publish_size p = 2 + p.topic.length_ + p.payload_bytes

-- The front of a PUBLISH packet, up to the payload.
abbrev pub publish_head : ℕ → Publish → List ℕ
publish_head k p = 0x30 ∷ encoding k (publish_size p) ++ 0 ∷ p.topic.length_ ∷ text p.topic

put_length-Writes :
    (k : ℕ) (p : Publish)
    → k < 5
    → publish_size p < 128 ^ suc k
    → publish_size p ≤ int_max
    → Writes 256 (put_length p) (encoding k (publish_size p))
unfolding put_length
put_length-Writes k p hk h fits =
    let exact : publish_size p % 2 ^ 32 ≡ publish_size p = omega arith in
    rw (exact, ltb-false int_max (publish_size p) fits)
      (length_loop-encoding k 5 (publish_size p) hk (omega arith) h)

Writes-check : Writes 256 check_current_byte []
unfolding check_current_byte
Writes-check = record {
  at = λ buffer h. rw (append-nil, ltb-true (length buffer % 256) 256 (omega arith));
}

text_then_check :
    (b : StringBuffer)
    → IsBuffer 128 b
    → Writes 256 (copy 256 b.data_ b.length_ >> check_current_byte) (text b)
text_then_check b v = rw append-nil at (text_then b check_current_byte v Writes-check)

fill_publish-Writes :
    (k : ℕ) (p : Publish)
    → k < 5
    → publish_size p < 128 ^ suc k
    → publish_size p ≤ int_max
    → IsBuffer 128 p.topic
    → Writes 256 (fill_publish p) (publish_head k p)
unfolding fill_publish packet_code
fill_publish-Writes k p hk h fits v = put_then _ _ (omega arith) (
    Writes-then _ _ (put_length-Writes k p hk h fits) (
      put_then _ _ (omega arith)
        (put_then _ _ (omega (arith, v.fits)) (text_then_check p.topic v))))

length-encoding-le : (k v : ℕ) → length (encoding k v) ≤ suc k
unfolding encoding
length-encoding-le zero v = omega arith
length-encoding-le (suc k) v = ground (arith, length-encoding-le k (v / 128))

length-publish_head-lt :
    (k : ℕ) (p : Publish) → k < 5 → IsBuffer 128 p.topic → length (publish_head k p) < 256
length-publish_head-lt k p hk v = omega (
  arith,
  length-append (encoding k (publish_size p)) (0 ∷ p.topic.length_ ∷ text p.topic),
  length-encoding-le k (publish_size p),
  length-text p.topic v,
  v.fits,
)

-- `header_size` is the whole head.
whole_head : (head : List ℕ) → length head < 256 → take (length head % 256) head ≡ head
whole_head head h = take-all (length head % 256) head (omega arith)

-- For a topic that fits its buffer, an array of at least as many bytes as the payload's size, and
-- a size that fits an int and k + 1 groups of seven bits, k below 5, Publish::SendOn stays in its
-- buffer and is exactly these calls: WritePartial of the type byte, the encoded size and the topic
-- and, where that worked, Write of the payload's bytes, whose result it gives back.
pub send_publish-wire :
    {S : Type 0} (write_partial write : List ℕ → Prog S Bool) (k : ℕ) (p : Publish)
    (payload : List ℕ) (s : S)
    → k < 5
    → publish_size p < 128 ^ suc k
    → publish_size p ≤ int_max
    → IsBuffer 128 p.topic
    → p.payload_bytes ≤ length payload
    → send_publish write_partial write p payload s
      ≡ (write_partial (publish_head k p) >>= λ written.
            if written then write (take p.payload_bytes payload) else pure false)
          s
unfolding send_publish
send_publish-wire write_partial write k p payload s hk h fits v enough =
    rw (ltb-false (length payload) p.payload_bytes enough) (
      and_then-done _ _
        ((fill_publish-Writes k p hk h fits v).at []
          (omega (arith, length-publish_head-lt k p hk v)))
        (ap
          (λ (head : List ℕ).
            (write_partial head >>= λ written.
            if written then write (take p.payload_bytes payload) else pure false)
              s)
          (whole_head _ (length-publish_head-lt k p hk v))))
