-- ===== src/Packet/Shrinking.antt =====
-- What Packet::Read does to the count of the bytes that are left.
use gnat.Base.{
  ℕ, ◌+◌, ◌-◌, ◌≤◌, ◌≡◌, refl, arith, List, Option, none, some, length, ltb, ltb-false→le,
}
use gnat.Base.Outcome.{Prog, done, out_of_fuel, ◌>>=◌}
use gnat.Base.Ensures.{
  Ensures, Ensures-aborted, Ensures-done, Ensures-if, Ensures-run, Ensures-weaken, Ensures-and_then,
  Ensures-bind?,
}
use gnat.Connection.{ClientConnection}
use gnat.Fields.Shrinking.{Shrunk, NoMore}
use gnat.Packet.{Packet, on_connection, consume, remaining, read}

module _ (stuck : Type 0) {C W : Type 0} where
  -- A call on the packet's connection changes nothing else of the packet.
  pub on_connection-Ensures :
      {A : Type 0} (P : A × (Packet C × W) → Type 0) (m : Prog (C × W) A) (p : Packet C) (w : W)
      → (m (p.connection, w) ≡ out_of_fuel → stuck)
      → ((a : A) (c : C) (w' : W)
          → m (p.connection, w) ≡ done (a, (c, w'))
          → P (a, (record p { connection = c }, w')))
      → Ensures stuck P (on_connection m (p, w))
  unfolding on_connection
  on_connection-Ensures P m p w h k =
      Ensures-and_then stuck (λ (a, (c, w')). P (a, (record p { connection = c }, w'))) P
        (m (p.connection, w)) _
        (Ensures-run stuck _ (m (p.connection, w)) h (λ (a, (c, w')) e. k a c w' e))
        (λ (a, (c, w')) q. Ensures-done stuck P q)

  pub on_connection-NoMore :
      {A : Type 0} (m : Prog (C × W) A) (s : Packet C × W)
      → ((t : C × W) → m t ≡ out_of_fuel → stuck)
      → Ensures stuck (NoMore stuck remaining s) (on_connection m s)
  on_connection-NoMore m (p, w) h =
      on_connection-Ensures (NoMore stuck remaining (p, w)) m p w (h (p.connection, w))
        (λ a c w' e. omega arith)

  -- A connection whose reads give as many bytes as they were asked for.
  abbrev pub Exact : ClientConnection C W → Type 0
  Exact conn =
      (n : ℕ) (s t : C × W) (bytes : List ℕ)
      → conn.read n s ≡ done (some bytes, t)
      → length bytes ≡ n

  -- What a read of `n` bytes gave.
  abbrev pub Paid : ClientConnection C W → ℕ → Option (List ℕ) → Type 0
  Paid conn n none = Unit {0}
  Paid conn n (some bytes) = Exact conn → length bytes ≡ n

  module _ (conn : ClientConnection C W)
      (ends : (n : ℕ) (s : C × W) → conn.read n s ≡ out_of_fuel → stuck) where
    abbrev pub ReadBy : ℕ → Packet C × W → Option (List ℕ) × (Packet C × W) → Type 0
    ReadBy n s (got, t) = Shrunk stuck remaining n s (got, t) × Paid conn n got

    -- The count before the read is still there.
    abbrev Left : ℕ → Packet C → Option (List ℕ) × (Packet C × W) → Type 0
    Left n p (got, t) = (t.0.bytes_remaining ≡ p.bytes_remaining) × Paid conn n got

    paid :
        (n : ℕ) (got : Option (List ℕ)) (s t : C × W)
        → conn.read n s ≡ done (got, t)
        → Paid conn n got
    paid n none s t e = tt
    paid n (some bytes) s t e = λ exact. exact n s t bytes e

    pub read-ReadBy : (n : ℕ) (s : Packet C × W) → Ensures stuck (ReadBy n s) (read conn n s)
    unfolding read consume ◌>>=◌
    read-ReadBy n (p, w) =
        Ensures-if stuck (ReadBy n (p, w)) (ltb p.bytes_remaining n) _ _
          (λ _. Ensures-aborted stuck (ReadBy n (p, w)))
          λ fits.
            Ensures-bind? stuck (Left n p) (ReadBy n (p, w)) (on_connection (conn.read n)) _ (p, w)
              (on_connection-Ensures (Left n p) (conn.read n) p w (ends n (p.connection, w))
                (λ got c w' e. (refl, paid n got (p.connection, w) (c, w') e)))
              (λ t q. (omega (arith, q.0), tt))
              λ bytes t q.
                let took : t.0.bytes_remaining - n + n ≤ p.bytes_remaining =
                  omega (arith, q.0, ltb-false→le p.bytes_remaining n fits) in
                Ensures-done stuck (ReadBy n (p, w)) (took, q.1)

    pub read-Shrunk :
        (n : ℕ) (s : Packet C × W) → Ensures stuck (Shrunk stuck remaining n s) (read conn n s)
    read-Shrunk n s = Ensures-weaken stuck (read conn n s) (λ x q. q.0) (read-ReadBy n s)
