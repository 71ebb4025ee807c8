-- ===== src/Fields/Channel.antt =====
-- The field readers on a client that delivers bytes, and on one whose reads fail.
use gnat.Base.{
  ℕ, ◌+◌, ◌*◌, ◌≤◌, ◌<◌, ◌≡◌, refl, ap, arith, List, [], ◌∷◌, ◌++◌, Option, none, some, length,
  drop, ltb-true, ltb-false,
}
use gnat.Base.Outcome.{done, aborted, fail?, Prog, step, step?}
use gnat.Base.Bits.{high-bit_or-low}
use gnat.Fields.{StringBuffer, read_string, read_bytes}

-- `waiting bs` is a state in which `bs` can be read: `read` hands out any front part of it.
pub record Delivers {S : Type 0} (read : ℕ → Prog S (Option (List ℕ))) (waiting : List ℕ → S)
    : Type 0 where
  pub front :
      (xs rest : List ℕ) → read (length xs) (waiting (xs ++ rest)) ≡ done (some xs, waiting rest)

module _ {S : Type 0} (read : ℕ → Prog S (Option (List ℕ))) (waiting : List ℕ → S)
    (delivers : Delivers read waiting) where
  pub read_bytes-one :
      (b out : ℕ) (rest : List ℕ)
      → read_bytes read 1 out (waiting (b ∷ rest)) ≡ done (some b, waiting rest)
  unfolding read_bytes
  read_bytes-one b out rest =
      step _ _ (step _ _ (delivers.front (b ∷ []) rest) refl)
        (ap (λ (v : ℕ). done (some v, waiting rest)) (omega arith))

  -- The first byte on the wire is the high one.
  pub read_bytes-two :
      (high low out : ℕ) (rest : List ℕ)
      → read_bytes read 2 out (waiting (high ∷ low ∷ rest))
        ≡ done (some (high * 256 + low), waiting rest)
  unfolding read_bytes
  read_bytes-two high low out rest =
      step _ _
        (step _ _ (delivers.front (high ∷ []) (low ∷ rest))
          (step _ _ (delivers.front (low ∷ []) rest) refl))
        (ap (λ (v : ℕ). done (some v, waiting rest)) (omega arith))

  -- A text that fits is copied to the front of the buffer.
  pub read_string-fits :
      (out : StringBuffer) (text rest : List ℕ) (high low : ℕ)
      → low < 256
      → high * 256 + low ≡ length text
      → length text ≤ length out.data_
      → read_string read out (waiting (high ∷ low ∷ text ++ rest))
        ≡ done (
          some (record { data_ = text ++ drop (length text) out.data_; length_ = length text }),
          waiting rest,
        )
  unfolding read_string
  read_string-fits out text rest high low hl e fits =
      step? _ _ (delivers.front (high ∷ low ∷ []) (text ++ rest)) (
        rw (high-bit_or-low 8 high low hl, e, ltb-false (length out.data_) (length text) fits)
          (step? _ _ (delivers.front text rest) refl))

  -- On a client that delivers its bytes, ReadString refuses a text whose length is beyond the
  -- buffer's size, and leaves the text unread.
  pub read_string-too_long :
      (out : StringBuffer) (rest : List ℕ) (high low : ℕ)
      → low < 256
      → length out.data_ < high * 256 + low
      → read_string read out (waiting (high ∷ low ∷ rest)) ≡ done (none, waiting rest)
  unfolding read_string
  read_string-too_long out rest high low hl long =
      step? _ _ (delivers.front (high ∷ low ∷ []) rest)
        (rw (high-bit_or-low 8 high low hl, ltb-true _ _ long))

-- A read of more than the client has aborts the whole reader, if the client does.
pub read_string-aborts :
    {S : Type 0} (read : ℕ → Prog S (Option (List ℕ))) (out : StringBuffer) {s t : S} {high low : ℕ}
    → low < 256
    → high * 256 + low ≤ length out.data_
    → read 2 s ≡ done (some (high ∷ low ∷ []), t)
    → read (high * 256 + low) t ≡ aborted
    → read_string read out s ≡ aborted
unfolding read_string
read_string-aborts read out {high} {low} hl fits first second = step? _ _ first (
    rw (high-bit_or-low 8 high low hl, ltb-false (length out.data_) (high * 256 + low) fits)
      (fail? _ _ second))
