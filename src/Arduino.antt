-- ===== src/Arduino.antt =====
-- class arduino::Connection (include/gnat/arduino-connection.h, lines 22 to 110), over a WiFiClient
-- that is a parameter.
pub mod Writing
pub mod Reading
pub mod Serving
use gnat.Base.{
  ℕ, zero, suc, ◌+◌, ◌-◌, List, [], ◌∷◌, ◌++◌, Bool, true, false, Option, none, some, length, take,
  drop, replicate, ltb, ◌==◌, if◌then◌else◌,
}
use gnat.Base.Outcome.{Prog, done, undefined, out_of_fuel, pure, raise, and_then, ◌>>=◌, ◌>>◌}
use gnat.Connection.{ClientConnection, ConnectionType, unknown}
use Prim.Native.Nat.{min}

-- The values of `errno` that the code tells apart.
pub data Errno : Type 0 where
  enotconn eagain other : Errno

-- What `client_->read` returns: a count of at least 1 and as many bytes; or 0 or a negative number,
-- and `errno`, which was 0 before the call.
pub data ReadResult : Type 0 where
  received : List ℕ → ReadResult
  nothing : Errno → ReadResult
  negative : Errno → ReadResult

-- WiFiClient and `delay`, in a world `X`. A `write` of -1 is `none`.
pub record WifiClient (X : Type 0) : Type 0 where
  pub available : Prog X ℕ
  pub connected : Prog X Bool
  pub read : ℕ → Prog X ReadResult
  pub write : List ℕ → Prog X (Option ℕ)
  pub stop : Prog X (Unit {0})
  pub fd : X → ℕ
  pub delay : ℕ → Prog X (Unit {0})

module _ {X : Type 0} (client : WifiClient X) where
  -- `while (available() < 1 && connected()) delay(1)`
  unfoldable pub wait_loop : ℕ → Prog X (Unit {0})
  wait_loop zero = raise out_of_fuel
  wait_loop (suc fuel) = client.available >>= λ count.
      if ltb 0 count
      then pure tt
      else (client.connected >>= λ connected.
          if connected then (client.delay 1 >> wait_loop fuel) else pure tt)

  -- A round of the loop of Read, with `bytes` still to come; `again` is the next round. Every
  -- `client_->read` writes to the front of `buffer`, which does not move.
  unfoldable pub read_round :
      (List ℕ → ℕ → Prog X (Option (List ℕ))) → ℕ → List ℕ → ℕ → Prog X (Option (List ℕ))
  unfolding wait_loop
  read_round again fuel buffer bytes = do
    wait_loop fuel
    connected ← client.connected
    if connected
        then (client.read bytes >>= elim [
          | received got ↦ again (got ++ drop (length got) buffer) (bytes - length got)
          | nothing enotconn ↦ pure none
          | nothing eagain ↦ (client.delay 50 >> again buffer bytes)
          | nothing other ↦ again buffer bytes
          | negative enotconn ↦ pure none
          | negative eagain ↦ (client.delay 50 >> again buffer bytes)
          | negative other ↦ pure none
        ])
        else pure none

  unfoldable pub read_loop : ℕ → List ℕ → ℕ → Prog X (Option (List ℕ))
  unfolding read_round
  read_loop zero buffer bytes = if bytes == 0 then pure (some buffer) else raise out_of_fuel
  read_loop (suc fuel) buffer bytes =
      let round = read_round (read_loop fuel) fuel buffer bytes in
      if bytes == 0 then pure (some buffer) else round

  -- Drain, by reads of at most 64 bytes into the static buffer. A Read of more bytes than `buffer` has
  -- is undefined.
  unfoldable pub drain_loop : ℕ → List ℕ → ℕ → Prog X Bool
  unfolding read_loop
  drain_loop zero buffer bytes = if bytes == 0 then pure true else raise out_of_fuel
  drain_loop (suc fuel) buffer bytes =
      let to_drain = min bytes 64 in
      let round = read_loop fuel buffer to_drain >>= elim [
        | none ↦ pure false
        | some buffer' ↦ drain_loop fuel buffer' (bytes - to_drain)
      ] in
      if bytes == 0
      then pure true
      else if ltb (length buffer) to_drain
      then raise undefined
      else round

  -- A round of the loop of Write, whose buffer does move.
  unfoldable pub write_round : (List ℕ → Prog X Bool) → List ℕ → Prog X Bool
  write_round again buffer = client.write buffer >>= elim [
    | none ↦ pure false
    | some written ↦
        (client.connected >>= λ connected.
        if connected then again (drop written buffer) else pure false)
  ]

  unfoldable pub write_loop : ℕ → List ℕ → Prog X Bool
  unfolding write_round
  write_loop zero buffer = if length buffer == 0 then pure true else raise out_of_fuel
  write_loop (suc fuel) buffer =
      let round = write_round (write_loop fuel) buffer in
      if length buffer == 0 then pure true else round

-- The members of a Connection beside the client that it shares.
pub record Connection : Type 0 where
  pub connection_type_ : ConnectionType

-- A call that leaves the Connection object alone.
unfoldable pub on_client : {X A : Type 0} → Prog X A → Prog (Connection × X) A
on_client m (c, x) = and_then (m x) λ (a, x'). done (a, (c, x'))

-- The interface of server.h. `stale` is what the caller's buffer of a size held before, `scratch` the
-- static buffer of Drain, and `fuel` bounds the rounds of each loop. A heap copy shares the socket and
-- starts with an unknown type.
unfoldable pub arduino_connection :
    {X : Type 0} → WifiClient X → ℕ → (ℕ → List ℕ) → List ℕ → ClientConnection Connection X
unfolding read_loop drain_loop write_loop on_client
arduino_connection client fuel stale scratch = record {
  read = λ bytes. on_client (read_loop client fuel (stale bytes) bytes);
  write = λ buffer. on_client (write_loop client fuel buffer);
  write_partial = λ buffer. on_client (write_loop client fuel buffer);
  drain = λ bytes. on_client (drain_loop client fuel scratch bytes);
  close = on_client client.stop;
  id = λ (c, x). client.fd x;
  connection_type = λ c. c.connection_type_;
  set_connection_type = λ t c. record { connection_type_ = t };
  create_heap_copy = pure (record { connection_type_ = unknown });
}
