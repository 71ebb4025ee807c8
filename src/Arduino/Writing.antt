-- ===== src/Arduino/Writing.antt =====
-- Write on a client that takes a part of the buffer at a time.
use gnat.Base.{
  ℕ, zero, suc, ◌≤◌, ◌≡◌, refl, ap, sym, arith, List, [], ◌∷◌, ◌++◌, true, some, length, take, drop,
  length-drop, suc-==_zero,
}
use gnat.Base.Outcome.{done, step}
use gnat.Arduino.{WifiClient, write_loop}
use mathlib.Core.List.{append-nil, append_assoc}

-- A client that is connected and takes at least one of the bytes that it is given; `sent` is what it
-- has taken so far.
pub record Accepts {X : Type 0} (client : WifiClient X) (sent : X → List ℕ) : Type 0 where
  pub progress :
      (b : ℕ) (bs : List ℕ) (x : X)
      → (k : ℕ) × (x' : X) × (client.write (b ∷ bs) x ≡ done (some (suc k), x'))
        × (k ≤ length bs)
        × (sent x' ≡ sent x ++ b ∷ take k bs)
  pub alive : (x : X) → client.connected x ≡ done (true, x)

pub take-append-drop : (n : ℕ) (xs : List ℕ) → take n xs ++ drop n xs ≡ xs
take-append-drop zero xs = refl
take-append-drop (suc n) [] = refl
take-append-drop (suc n) (x ∷ xs) = ap (◌∷◌ x) (take-append-drop n xs)

module _ {X : Type 0} (client : WifiClient X) (sent : X → List ℕ)
    (accepts : Accepts client sent) where
  -- On a WiFiClient that stays connected and takes at least one byte at a time, Write with as many
  -- rounds as bytes succeeds, and the client has taken the whole buffer, in order.
  pub write_loop-sends :
      (fuel : ℕ) (buffer : List ℕ) (x : X)
      → length buffer ≤ fuel
      → (x' : X) × (write_loop client fuel buffer x ≡ done (true, x'))
        × (sent x' ≡ sent x ++ buffer)
  unfolding write_loop
  write_loop-sends zero [] x h = (x, refl, sym (append-nil (sent x)))
  write_loop-sends zero (b ∷ bs) x h = absurd (omega arith)
  write_loop-sends (suc fuel) [] x h = (x, refl, sym (append-nil (sent x)))
  write_loop-sends (suc fuel) (b ∷ bs) x h =
      let (k, x1, wrote, few, taken) = accepts.progress b bs x in
      let (x2, rest, got) =
        write_loop-sends fuel (drop k bs) x1 (omega (arith, length-drop k bs)) in
      (
        x2,
        rw (suc-==_zero (length bs)) (step _ _ wrote (step _ _ (accepts.alive x1) rest)),
        rw (got, taken, append_assoc)
            (ap (λ (t : List ℕ). sent x ++ b ∷ t) (take-append-drop k bs)),
      )
