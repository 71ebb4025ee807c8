-- ===== src/Arduino/Serving.antt =====
-- The Arduino connection as a ClientConnection, on a WiFiClient that has the bytes it is asked for.
use gnat.Base.{
  ℕ, zero, suc, ◌+◌, ◌-◌, ◌≤◌, ◌≡◌, refl, sym, ap, ◌∙◌, arith, List, [], ◌∷◌, ◌++◌, true, some,
  length, take, drop, suc-==_zero, false, ltb, ltb-false, length-append, length-take, length-drop,
  drop-all,
}
use gnat.Base.Outcome.{done, step, and_then-done}
use gnat.Arduino.{WifiClient, read_loop, drain_loop, on_client, Connection, arduino_connection}
use gnat.Arduino.Reading.{Piece, read_loop-Piece, read_loop-zero}
use gnat.Arduino.Writing.{take-append-drop}
use mathlib.Core.Path.{ap₂}
use gnat.Fields.Channel.{Delivers}
use mathlib.Core.List.{append-nil, append_assoc}
use Prim.Native.Nat.{min}

-- `waiting bs` is a client that is connected and has the bytes `bs`: a read gets all it asks for.
pub record HasBytes {X : Type 0} (client : WifiClient X) (waiting : List ℕ → X) : Type 0 where
  pub front :
      (x : ℕ) (xs rest : List ℕ)
      → Piece client (suc (length xs)) (x ∷ xs) (waiting (x ∷ xs ++ rest)) (waiting rest)

module _ {X : Type 0} (client : WifiClient X) (waiting : List ℕ → X)
    (has : HasBytes client waiting) where
  -- Read of a front part, in rounds enough.
  read_loop-front :
      (fuel : ℕ) (xs rest buffer : List ℕ)
      → read_loop client (suc (suc fuel)) buffer (length xs) (waiting (xs ++ rest))
        ≡ done (some (xs ++ drop (length xs) buffer), waiting rest)
  read_loop-front fuel [] rest buffer = read_loop-zero client (suc (suc fuel)) buffer (waiting rest)
  read_loop-front fuel (x ∷ xs) rest buffer =
      read_loop-Piece client fuel (length xs) (x ∷ xs) buffer (has.front x xs rest)
      ∙ ap
          (λ (n : ℕ).
            read_loop client (suc fuel) (x ∷ xs ++ drop (suc (length xs)) buffer) n (waiting rest))
          (omega arith)
      ∙ read_loop-zero client (suc fuel) (x ∷ xs ++ drop (suc (length xs)) buffer) (waiting rest)

  -- Read fills a buffer of the size asked for.
  read_loop-whole :
      (fuel : ℕ) (xs rest buffer : List ℕ)
      → length buffer ≡ length xs
      → read_loop client (suc (suc fuel)) buffer (length xs) (waiting (xs ++ rest))
        ≡ done (some xs, waiting rest)
  read_loop-whole fuel xs rest buffer e =
      read_loop-front fuel xs rest buffer
      ∙ ap (λ (bytes : List ℕ). done (some bytes, waiting rest))
          (ap (◌++◌ xs) (drop-all (length xs) buffer (omega arith)) ∙ append-nil xs)

  -- Drain takes its pieces of at most 64 bytes until all are gone.
  pub drain_loop-drains :
      (fuel : ℕ) (xs rest buffer : List ℕ)
      → length buffer ≡ 64
      → length xs + 2 ≤ fuel
      → drain_loop client fuel buffer (length xs) (waiting (xs ++ rest)) ≡ done (true, waiting rest)
  unfolding drain_loop
  drain_loop-drains zero xs rest buffer whole h = absurd (omega arith)
  drain_loop-drains (suc fuel) [] rest buffer whole h = refl
  drain_loop-drains (suc zero) (x ∷ xs) rest buffer whole h = absurd (omega arith)
  drain_loop-drains (suc (suc zero)) (x ∷ xs) rest buffer whole h = absurd (omega arith)
  drain_loop-drains (suc (suc (suc fuel))) (x ∷ xs) rest buffer whole h =
      let piece : List ℕ = take 64 (x ∷ xs) in
      let left : List ℕ = drop 64 (x ∷ xs) in
      let buffer' : List ℕ = piece ++ drop (length piece) buffer in
      let taken : min (suc (length xs)) 64 ≡ length piece =
        omega (arith, length-take 64 (x ∷ xs)) in
      let kept : suc (length xs) - min (suc (length xs)) 64 ≡ length left =
        omega (arith, length-drop 64 (x ∷ xs)) in
      let split : x ∷ xs ++ rest ≡ piece ++ (left ++ rest) =
        ap (λ (bs : List ℕ). bs ++ rest) (sym (take-append-drop 64 (x ∷ xs)))
        ∙ append_assoc piece left rest in
      let room : ltb (length buffer) (min (suc (length xs)) 64) ≡ false =
        ltb-false (length buffer) (min (suc (length xs)) 64) (omega (arith, whole)) in
      let whole' : length buffer' ≡ 64 = omega (
        arith,
        whole,
        length-append piece (drop (length piece) buffer),
        length-drop (length piece) buffer,
        length-take 64 (x ∷ xs),
      ) in
      rw (suc-==_zero (length xs), room)
        (step _ _
          (ap₂ (λ (n : ℕ) (bs : List ℕ). read_loop client (suc (suc fuel)) buffer n (waiting bs))
              taken split
            ∙ read_loop-front fuel piece (left ++ rest) buffer)
          (ap (λ (n : ℕ). drain_loop client (suc (suc fuel)) buffer' n (waiting (left ++ rest)))
              kept
            ∙ drain_loop-drains (suc (suc fuel)) left rest buffer' whole'
                (omega (arith, length-drop 64 (x ∷ xs)))))

  -- On a WiFiClient that is connected and has the bytes it is asked for, and for buffers of the
  -- size asked for, the Arduino connection with fuel for two rounds or more meets what the packets
  -- and the server ask of Read: a read of any front part of what is there gives exactly those
  -- bytes, and leaves the rest and the connection.
  pub arduino-Delivers :
      (fuel : ℕ) (stale : ℕ → List ℕ) (scratch : List ℕ) (c : Connection)
      → ((n : ℕ) → length (stale n) ≡ n)
      → Delivers
          (arduino_connection client (suc (suc fuel)) stale scratch).read
          (λ bytes. (c, waiting bytes))
  unfolding arduino_connection on_client
  arduino-Delivers fuel stale scratch c whole = record {
    front = λ xs rest.
        and_then-done _ _ (read_loop-whole fuel xs rest (stale (length xs)) (whole (length xs)))
          refl;
  }

  -- On a WiFiClient that is connected and has the bytes it is asked for, Drain of any front part
  -- of them, with a static buffer of 64 bytes, beyond which a Read is undefined, and fuel for two
  -- rounds more than bytes, ends with success, and leaves exactly the rest.
  pub arduino-Drains :
      (fuel : ℕ) (stale : ℕ → List ℕ) (scratch : List ℕ) (c : Connection) (xs after : List ℕ)
      → length scratch ≡ 64
      → length xs + 2 ≤ fuel
      → (arduino_connection client fuel stale scratch).drain (length xs) (c, waiting (xs ++ after))
        ≡ done (true, (c, waiting after))
  unfolding arduino_connection on_client
  arduino-Drains fuel stale scratch c xs after whole h =
      and_then-done _ _ (drain_loop-drains fuel xs after scratch whole h) refl
