-- ===== src/Arduino/Reading.antt =====
-- Read on a client that delivers in one piece, and in two.
use gnat.Base.{
  ℕ, zero, suc, ◌-◌, ◌≡◌, refl, ap, ◌∙◌, arith, List, ◌++◌, true, some, length, drop, ltb-true,
  suc-==_zero, drop-all,
}
use gnat.Base.Outcome.{done, step}
use mathlib.Core.List.{append-nil}
use gnat.Arduino.{WifiClient, received, wait_loop, read_loop}

-- From `x` on, the client is connected, has data, and answers a read of `n` bytes with `got`.
pub record Piece {X : Type 0} (client : WifiClient X) (n : ℕ) (got : List ℕ) (x x' : X)
    : Type 0 where
  pub has_data : (c : ℕ) × (client.available x ≡ done (suc c, x))
  pub connected : client.connected x ≡ done (true, x)
  pub reads : client.read n x ≡ done (received got, x')

module _ {X : Type 0} (client : WifiClient X) where
  wait_loop-ready :
      (fuel c : ℕ) (x : X)
      → client.available x ≡ done (suc c, x)
      → wait_loop client (suc fuel) x ≡ done (tt, x)
  unfolding wait_loop
  wait_loop-ready fuel c x e = step client.available _ e (rw (ltb-true 0 (suc c) (omega arith)))

  -- One round: the piece goes to the front of the buffer, whatever stood there.
  pub read_loop-Piece :
      (fuel n : ℕ) (got buffer : List ℕ) {x x' : X}
      → Piece client (suc n) got x x'
      → read_loop client (suc (suc fuel)) buffer (suc n) x
        ≡ read_loop client (suc fuel) (got ++ drop (length got) buffer) (suc n - length got) x'
  unfolding read_loop
  read_loop-Piece fuel n got buffer {x} p = rw (suc-==_zero n) (
      step _ _ (wait_loop-ready fuel p.has_data.0 x p.has_data.1)
        (step _ _ p.connected (step _ _ p.reads refl)))

  pub read_loop-zero :
      (fuel : ℕ) (buffer : List ℕ) (x : X)
      → read_loop client fuel buffer 0 x ≡ done (some buffer, x)
  unfolding read_loop
  read_loop-zero zero buffer x = refl
  read_loop-zero (suc fuel) buffer x = refl

  -- On a WiFiClient that is connected and delivers all the bytes asked for at once, Read fills the
  -- buffer with them.
  pub read_loop-at_once :
      (fuel n : ℕ) (got buffer : List ℕ) {x x' : X}
      → Piece client (suc n) got x x'
      → length got ≡ suc n
      → length buffer ≡ suc n
      → read_loop client (suc (suc fuel)) buffer (suc n) x ≡ done (some got, x')
  read_loop-at_once fuel n got buffer {x' = x'} p e h =
      let whole : got ++ drop (length got) buffer ≡ got =
        ap (◌++◌ got) (drop-all (length got) buffer (omega arith)) ∙ append-nil got in
      read_loop-Piece fuel n got buffer p
      ∙ ap (λ (k : ℕ). read_loop client (suc fuel) (got ++ drop (length got) buffer) k x')
          (omega arith)
      ∙ read_loop-zero (suc fuel) (got ++ drop (length got) buffer) x'
      ∙ ap (λ (bytes : List ℕ). done (some bytes, x')) whole

  -- On a WiFiClient that delivers the bytes in two pieces, Read succeeds and leaves the second
  -- piece over the front of the first, and stale bytes at the end.
  pub read_loop-in_two :
      (fuel n m : ℕ) (first second buffer : List ℕ) {x x' x'' : X}
      → Piece client (suc n) first x x'
      → suc n - length first ≡ suc m
      → Piece client (suc m) second x' x''
      → length second ≡ suc m
      → read_loop client (suc (suc (suc fuel))) buffer (suc n) x
        ≡ done (some (second ++ drop (length second) (first ++ drop (length first) buffer)), x'')
  read_loop-in_two fuel n m first second buffer {x' = x'} {x'' = x''} p e q h =
      let after_first = first ++ drop (length first) buffer in
      let after_second = second ++ drop (length second) after_first in
      read_loop-Piece (suc fuel) n first buffer p
      ∙ ap (λ (k : ℕ). read_loop client (suc (suc fuel)) after_first k x') e
      ∙ read_loop-Piece fuel m second after_first q
      ∙ ap (λ (k : ℕ). read_loop client (suc fuel) after_second k x'') (omega arith)
      ∙ read_loop-zero (suc fuel) after_second x''
