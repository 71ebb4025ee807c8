-- ===== src/Buffer.antt =====
-- The send buffers of packets.h: `static uint8_t buffer[N]` and `current_byte`. The state is what
-- stands in front of `current_byte`; a store or `memcpy` beyond the buffer is undefined.
pub mod Writes
use gnat.Base.{
  ℕ, zero, suc, ◌+◌, ◌-◌, ◌%◌, ◌≤◌, ◌<◌, ◌≡◌, refl, ap, arith, List, [], ◌∷◌, ◌++◌, Bool, true,
  false, length, take, set, ltb, ltb-false, ltb-true, if◌then◌else◌,
}
use gnat.Base.Outcome.{Outcome, done, undefined, Prog, pure, raise, and_then}
use gnat.Fields.{StringBuffer}

-- The bytes that go to `buffer[current_byte]` and on, in a buffer of `size` bytes.
unfoldable pub append : ℕ → List ℕ → Prog (List ℕ) (Unit {0})
append size bytes buffer =
    if ltb size (length buffer + length bytes) then undefined else done (tt, buffer ++ bytes)

-- `buffer[current_byte++] = value`, a store of one byte.
unfoldable pub put : ℕ → ℕ → Prog (List ℕ) (Unit {0})
unfolding append
put size value = append size ((value % 256) ∷ [])

-- `memcpy(buffer + current_byte, from, count); current_byte += count`.
unfoldable pub copy : ℕ → List ℕ → ℕ → Prog (List ℕ) (Unit {0})
unfolding append
copy size from count =
    if ltb (length from) count then raise undefined else append size (take count from)

-- `*remaining_length = current_byte - 2`, for the second byte of the buffer.
unfoldable pub put_remaining_length : Prog (List ℕ) (Unit {0})
put_remaining_length buffer = done (tt, set buffer 1 ((length buffer + 256 - 2) % 256))

-- A finished buffer goes to the connection.
module _ {S : Type 0} where
  unfoldable pub send : Prog (List ℕ) (Unit {0}) → (List ℕ → Prog S Bool) → Prog S Bool
  send build write s = and_then (build []) (λ (_, buffer). write buffer s)
