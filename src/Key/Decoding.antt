-- ===== src/Key/Decoding.antt =====
-- DecodeString on the key of a topic.
use gnat.Base.{
  ℕ, zero, suc, ◌+◌, ◌-◌, ◌*◌, ◌/◌, ◌%◌, ◌≤◌, ◌<◌, ◌≡◌, refl, ap, ◌∙◌, arith, List, [], ◌∷◌, ◌++◌,
  All, none, some, ltb, ltb→lt, ltb-false→le, Bool-cases, if◌then◌else◌, inl, inr, length, take,
  take-append, drop, replicate, ltb-false, pos-==_zero,
}
use gnat.Base.Outcome.{done, undefined, and_then, and_then-done}
use gnat.Fields.{StringBuffer, of_memory, to_memory}
use gnat.Key.{strlen, at_most_eight, decoded_size, decode_string, fill_buffer}
use mathlib.Core.List.{append-nil}

-- A character of a topic: a byte that is not zero.
pub record IsChar (c : ℕ) : Type 0 where
  pub pos : 0 < c
  pub byte : c < 256

to_memory-zero : (n : ℕ) → to_memory n 0 ≡ replicate n 0
to_memory-zero zero = refl
to_memory-zero (suc n) = ap (◌∷◌ 0) (to_memory-zero n)

to_memory-of_memory :
    (n : ℕ) (cs : List ℕ)
    → length cs ≤ n
    → All IsChar cs
    → to_memory n (of_memory cs) ≡ cs ++ replicate (n - length cs) 0
to_memory-of_memory n [] h v = to_memory-zero n ∙ ap (λ (k : ℕ). replicate k 0) (omega arith)
to_memory-of_memory zero (c ∷ cs) h v = absurd (omega arith)
to_memory-of_memory (suc n) (c ∷ cs) h (v, vs) =
    let low : (c + of_memory cs * 256) % 256 ≡ c = omega (arith, v.byte) in
    let high : (c + of_memory cs * 256) / 256 ≡ of_memory cs = omega (arith, v.byte) in
    let room : suc n - suc (length cs) ≡ n - length cs = omega arith in
    rw (low, high, room) (ap (◌∷◌ c) (to_memory-of_memory n cs (omega arith) vs))

pub strlen-append :
    (cs rest : List ℕ) {k : ℕ}
    → All IsChar cs
    → strlen rest ≡ some k
    → strlen (cs ++ rest) ≡ some (length cs + k)
unfolding strlen
strlen-append [] rest v e = e ∙ ap some (omega arith)
strlen-append (c ∷ cs) rest {k} (v, vs) e =
    rw (pos-==_zero c v.pos, strlen-append cs rest vs e) (ap some (omega arith))

strlen-none : (cs : List ℕ) → All IsChar cs → strlen cs ≡ none
unfolding strlen
strlen-none [] v = refl
strlen-none (c ∷ cs) (v, vs) = rw (pos-==_zero c v.pos, strlen-none cs vs) refl

strlen-zeros : (m : ℕ) → 0 < m → strlen (replicate m 0) ≡ some 0
unfolding strlen
strlen-zeros zero h = absurd (omega arith)
strlen-zeros (suc m) h = refl

module _ (cs : List ℕ) (short : length cs ≤ 8) (chars : All IsChar cs) where
  decoded_size-of_memory : length cs < 8 → decoded_size (of_memory cs) ≡ done (length cs)
  unfolding decoded_size
  decoded_size-of_memory room =
      let found : strlen (to_memory 8 (of_memory cs)) ≡ some (length cs + 0) =
        ap strlen (to_memory-of_memory 8 cs short chars)
        ∙ strlen-append cs (replicate (8 - length cs) 0) chars
            (strlen-zeros (8 - length cs) (omega arith)) in
      ap at_most_eight found ∙ ap done (omega arith)

  -- All eight bytes are characters.
  decoded_size-full : 8 ≤ length cs → decoded_size (of_memory cs) ≡ undefined
  unfolding decoded_size
  decoded_size-full full =
      let none_left : 8 - length cs ≡ 0 = omega arith in
      let whole : to_memory 8 (of_memory cs) ≡ cs =
        to_memory-of_memory 8 cs short chars
        ∙ ap (λ (m : ℕ). cs ++ replicate m 0) none_left
        ∙ append-nil cs in
      ap at_most_eight (ap strlen whole ∙ strlen-none cs chars)

  front : take (length cs) (to_memory 8 (of_memory cs)) ≡ cs
  front =
      rw (to_memory-of_memory 8 cs short chars)
        (take-append (length cs) cs (replicate (8 - length cs) 0) refl)

  -- DecodeString of the key of at most eight non-zero bytes, into a buffer with room for eight: up
  -- to seven bytes it puts those bytes at the front of the buffer and gives their number; with
  -- eight, strlen reads beyond the integer, which is undefined.
  pub decode_string-of_memory :
      (out : StringBuffer)
      → 8 ≤ length out.data_
      → decode_string (of_memory cs) out ≡ (
          if ltb (length cs) 8
          then done (record { data_ = cs ++ drop (length cs) out.data_; length_ = length cs })
          else undefined)
  unfolding decode_string fill_buffer and_then
  decode_string-of_memory out room = elim (Bool-cases (ltb (length cs) 8)) [
    | inl fits ↦ rw fits (
        and_then-done _ _ (decoded_size-of_memory (ltb→lt _ _ fits)) (
          rw (front, ltb-false (length out.data_) (length cs) (omega arith))
            (ap (λ (n : ℕ). done (record { data_ = cs ++ drop (length cs) out.data_; length_ = n }))
              (omega arith))))
    | inr full ↦ rw (full, decoded_size-full (ltb-false→le _ _ full)) refl
  ]
