-- ===== src/Buffer/Writes.antt =====
-- What a piece of code that fills a send buffer leaves there, one rule for each way to build it.
use gnat.Base.{
  ℕ, ◌+◌, ◌-◌, ◌%◌, ◌≤◌, ◌<◌, ◌≡◌, refl, sym, ap, ◌∙◌, arith, List, [], ◌∷◌, ◌++◌, Bool, length,
  length-append, take, set, ltb-false, drop, replicate, length-take,
}
use gnat.Base.Outcome.{done, Prog, pure, and_then-done, step, ◌>>◌}
use gnat.Fields.{StringBuffer}
use gnat.Buffer.{append, put, copy, put_remaining_length, send}
use mathlib.Core.List.{append-nil, append_assoc}

-- A StringBuffer as the program keeps it: the text fits its array.
pub record IsBuffer (size : ℕ) (b : StringBuffer) : Type 0 where
  pub whole : length b.data_ ≡ size
  pub fits : b.length_ ≤ size

abbrev pub text : StringBuffer → List ℕ
text b = take b.length_ b.data_

-- `m` adds `bytes` to any buffer of `size` bytes that has room for them.
pub record Writes (size : ℕ) (m : Prog (List ℕ) (Unit {0})) (bytes : List ℕ) : Type 0 where
  pub at :
      (buffer : List ℕ)
      → length buffer + length bytes ≤ size
      → m buffer ≡ done (tt, buffer ++ bytes)

module _ {size : ℕ} where
  pub Writes-append : (bytes : List ℕ) → Writes size (append size bytes) bytes
  unfolding append
  Writes-append bytes = record {
    at = λ buffer h. rw (ltb-false size (length buffer + length bytes) h);
  }

  -- A store of a value that is a byte.
  pub Writes-put : (value : ℕ) → value < 256 → Writes size (put size value) (value ∷ [])
  unfolding put
  Writes-put value h =
      let byte : value % 256 ≡ value = omega arith in rw byte (Writes-append (value ∷ []))

  pub Writes-pure : Writes size (pure tt) []
  Writes-pure = record {
    at = λ buffer h. ap (λ (bs : List ℕ). done (tt, bs)) (sym (append-nil buffer));
  }

  -- A copy of the text of a buffer.
  pub Writes-text :
      {n : ℕ} (b : StringBuffer) → IsBuffer n b → Writes size (copy size b.data_ b.length_) (text b)
  unfolding copy
  Writes-text b v =
      rw (ltb-false (length b.data_) b.length_ (omega (arith, v.whole, v.fits)))
        (Writes-append (text b))

  pub Writes-then :
      (m k : Prog (List ℕ) (Unit {0})) {xs ys : List ℕ}
      → Writes size m xs
      → Writes size k ys
      → Writes size (m >> k) (xs ++ ys)
  Writes-then m k {xs} {ys} f g = record {
    at = λ buffer h.
        let room : length buffer + length xs + length ys ≤ size =
          omega (arith, length-append xs ys) in
        step m (λ _. k) (f.at buffer (omega arith))
          (g.at (buffer ++ xs) (rw length-append room)
            ∙ ap (λ (bs : List ℕ). done (tt, bs)) (append_assoc buffer xs ys));
  }

  pub put_then :
      (value : ℕ) (k : Prog (List ℕ) (Unit {0})) {ys : List ℕ}
      → value < 256
      → Writes size k ys
      → Writes size (put size value >> k) (value ∷ ys)
  put_then value k h g = Writes-then _ k (Writes-put value h) g

  pub text_then :
      {n : ℕ} (b : StringBuffer) (k : Prog (List ℕ) (Unit {0})) {ys : List ℕ}
      → IsBuffer n b
      → Writes size k ys
      → Writes size (copy size b.data_ b.length_ >> k) (text b ++ ys)
  text_then b k v g = Writes-then _ k (Writes-text b v) g

-- The back-patch of the second byte, at the end.
pub patch-Writes :
    {size : ℕ} {m : Prog (List ℕ) (Unit {0})} {bytes : List ℕ}
    → Writes size m bytes
    → length bytes ≤ size
    → (m >> put_remaining_length) [] ≡ done (tt, set bytes 1 ((length bytes + 256 - 2) % 256))
unfolding put_remaining_length
patch-Writes {m} f h = step m _ (f.at [] (omega arith)) refl

module _ {S : Type 0} where
  pub send-Writes :
      (m : Prog (List ℕ) (Unit {0})) (write : List ℕ → Prog S Bool) (s : S) {bytes : List ℕ}
      → m [] ≡ done (tt, bytes)
      → send m write s ≡ write bytes s
  unfolding send
  send-Writes m write s e = and_then-done _ _ e refl

-- A buffer of `size` bytes, empty before, into which `t` was read.
abbrev pub stored : ℕ → List ℕ → StringBuffer
stored size t = record { data_ = t ++ drop (length t) (replicate size 0); length_ = length t }

pub length-text : {n : ℕ} (b : StringBuffer) → IsBuffer n b → length (text b) ≡ b.length_
length-text b v = omega (arith, length-take b.length_ b.data_, v.whole, v.fits)
