-- ===== src/Proto3/Subscribe/Shrinking.antt =====
-- Subscribe::ReadFrom takes bytes off its client in every round.
use gnat.Base.{ℕ, zero, suc, ◌≤◌, ◌≡◌, arith, Bool, List, Option, ◌==◌}
use gnat.Base.Outcome.{Prog}
use gnat.Base.Ensures.{
  Ensures, Ensures-done, Ensures-weaken, Ensures-if, Ensures-branch, Ensures-bind, Ensures-bind?,
}
use gnat.Fields.{StringBuffer, empty_buffer, read_field}
use gnat.Fields.Shrinking.{Shrunk, NoMore, read_string-Shrunk, read_bytes-NoMore}
use gnat.Proto3.Subscribe.{topics_loop, read_subscribe}

module _ (stuck : Type 0) {S A : Type 0} (read : ℕ → Prog S (Option (List ℕ)))
    (bytes_remaining : S → ℕ) (callback : StringBuffer → A → Prog S (Bool × A))
    (shrinks : (n : ℕ) (s : S) → Ensures stuck (Shrunk stuck bytes_remaining n s) (read n s))
    (calls : (out : StringBuffer) (a : A) (s : S)
      → Ensures stuck (NoMore stuck bytes_remaining s) (callback out a s)) where
  -- Rounds for as many bytes as are left are enough.
  topics_loop-NoMore :
      (fuel : ℕ) (out : StringBuffer) (a : A) (s : S)
      → bytes_remaining s ≤ fuel
      → Ensures stuck
          (NoMore stuck bytes_remaining s)
          (topics_loop read bytes_remaining callback fuel out a s)
  unfolding topics_loop read_field
  topics_loop-NoMore zero out a s h =
      let none_left : bytes_remaining s ≡ 0 = omega arith in
      rw none_left (Ensures-done stuck (NoMore stuck bytes_remaining s) (omega arith))
  topics_loop-NoMore (suc fuel) out a s h =
      Ensures-if stuck (NoMore stuck bytes_remaining s) (bytes_remaining s == 0) _ _
        (λ _. Ensures-done stuck (NoMore stuck bytes_remaining s) (omega arith))
        λ _.
          Ensures-bind? stuck (Shrunk stuck bytes_remaining 2 s) (NoMore stuck bytes_remaining s) _
            _ s (read_string-Shrunk stuck bytes_remaining read shrinks out s) (λ t q. q)
            λ next t q.
              Ensures-bind stuck (NoMore stuck bytes_remaining t) (NoMore stuck bytes_remaining s) _
                _ t (calls next a t)
                λ (accepted, a') u r.
                  Ensures-branch stuck (NoMore stuck bytes_remaining s) accepted _ _ u
                    (λ _.
                      Ensures-bind? stuck (NoMore stuck bytes_remaining u)
                        (NoMore stuck bytes_remaining s) _ _ u
                        (read_bytes-NoMore stuck bytes_remaining read shrinks 1 0 u)
                        (λ v x. omega arith)
                        λ flags v x.
                          Ensures-weaken stuck
                            (topics_loop read bytes_remaining callback fuel next a' v)
                            (λ y z. omega arith) (topics_loop-NoMore fuel next a' v (omega arith)))
                    (λ _. Ensures-done stuck (NoMore stuck bytes_remaining s) (omega arith))

  pub read_subscribe-NoMore :
      (a : A) (s : S)
      → Ensures stuck
          (NoMore stuck bytes_remaining s)
          (read_subscribe read bytes_remaining callback a s)
  unfolding read_subscribe read_field
  read_subscribe-NoMore a s =
      Ensures-bind? stuck (NoMore stuck bytes_remaining s) (NoMore stuck bytes_remaining s) _ _ s
        (read_bytes-NoMore stuck bytes_remaining read shrinks 2 0 s) (λ t q. q)
        λ id t q.
          Ensures-bind? stuck (NoMore stuck bytes_remaining t) (NoMore stuck bytes_remaining s) _ _
            t (topics_loop-NoMore (bytes_remaining t) (empty_buffer 128) a t (omega arith))
            (λ u r. omega arith)
            λ a' u r. Ensures-done stuck (NoMore stuck bytes_remaining s) (omega arith)
