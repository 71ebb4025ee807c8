-- ===== src/Fields/Shrinking.antt =====
-- The field readers take bytes off a client, and put none back.
use gnat.Base.{
  ℕ, zero, suc, ◌+◌, ◌*◌, ◌≤◌, arith, List, Option, none, some, ltb, length, bit_or, get_or,
}
use gnat.Base.Outcome.{Prog}
use gnat.Base.Ensures.{
  Ensures, Ensures-done, Ensures-weaken, Ensures-branch, Ensures-bind, Ensures-bind?,
}
use gnat.Fields.{StringBuffer, read_string, bytes_loop, read_bytes, store_byte, to_memory}

module _ (stuck : Type 0) {S : Type 0} (measure : S → ℕ) where
  -- A read of `n` bytes that worked took them; one that failed added nothing.
  abbrev pub Shrunk : {A : Type 0} → ℕ → S → Option A × S → Type 0
  Shrunk n s (none, t) = measure t ≤ measure s
  Shrunk n s (some x, t) = measure t + n ≤ measure s

  abbrev pub NoMore : {A : Type 0} → S → A × S → Type 0
  NoMore s (a, t) = measure t ≤ measure s

  Shrunk-NoMore : {A : Type 0} (n : ℕ) (s : S) (x : Option A × S) → Shrunk n s x → NoMore s x
  Shrunk-NoMore n s (none, t) h = h
  Shrunk-NoMore n s (some x, t) h = omega arith

  module _ (read : ℕ → Prog S (Option (List ℕ)))
      (shrinks : (n : ℕ) (s : S) → Ensures stuck (Shrunk n s) (read n s)) where
    pub read_string-Shrunk :
        (out : StringBuffer) (s : S) → Ensures stuck (Shrunk 2 s) (read_string read out s)
    unfolding read_string
    read_string-Shrunk out s =
        Ensures-bind? stuck (Shrunk 2 s) (Shrunk 2 s) (read 2) _ s (shrinks 2 s) (λ t q. q)
          λ raw t q.
            let n = bit_or (get_or raw 0 0 * 256) (get_or raw 1 0) in
            Ensures-branch stuck (Shrunk 2 s) (ltb (length out.data_) n) _ _ t
              (λ _. Ensures-done stuck (Shrunk 2 s) (omega arith))
              λ _.
                Ensures-bind? stuck (Shrunk n t) (Shrunk 2 s) (read n) _ t (shrinks n t)
                  (λ u r. omega arith) λ x u r. Ensures-done stuck (Shrunk 2 s) (omega arith)

    bytes_loop-NoMore :
        (i : ℕ) (out : List ℕ) (s : S) → Ensures stuck (NoMore s) (bytes_loop read i out s)
    unfolding bytes_loop
    bytes_loop-NoMore zero out s = Ensures-done stuck (NoMore s) (omega arith)
    bytes_loop-NoMore (suc i) out s =
        Ensures-bind stuck (NoMore s) (NoMore s) (read 1) _ s
          (Ensures-weaken stuck (read 1 s) (Shrunk-NoMore 1 s) (shrinks 1 s))
          λ got t q.
            Ensures-weaken stuck (bytes_loop read i (store_byte got i out) t) (λ x r. omega arith)
              (bytes_loop-NoMore i (store_byte got i out) t)

    pub read_bytes-NoMore :
        (count out : ℕ) (s : S) → Ensures stuck (NoMore s) (read_bytes read count out s)
    unfolding read_bytes
    read_bytes-NoMore count out s =
        Ensures-bind stuck (NoMore s) (NoMore s) (bytes_loop read count (to_memory count out)) _ s
          (bytes_loop-NoMore count (to_memory count out) s)
          λ memory t q. Ensures-done stuck (NoMore s) q
