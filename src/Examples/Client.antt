-- ===== src/Examples/Client.antt =====
-- A client in memory: what it sends waits in a list, and what it is sent is kept in another.
use gnat.Base.{
  ℕ, ◌≢◌, refl, arith, List, ◌++◌, Bool, true, Option, none, some, length, take, drop, take-append,
  drop-append, length-append, ltb, ltb-false, Bool-cases, inl, inr, if◌then◌else◌,
}
use gnat.Base.Outcome.{done, out_of_fuel, Prog}
use gnat.Connection.{ClientConnection, ConnectionType, unknown}
use gnat.Proto3.Connect.{default_connect}
use gnat.Proto3.Connect.RoundTrip.{IsConnect}
use gnat.Packet.Channel.{Drains}
use gnat.Fields.Channel.{Delivers}

-- Reading from a list of bytes.
unfoldable pub list_read : ℕ → Prog (List ℕ) (Option (List ℕ))
list_read n bytes =
    if ltb (length bytes) n then done (none, bytes) else done (some (take n bytes), drop n bytes)

pub list-Delivers : Delivers list_read (λ bytes. bytes)
unfolding list_read
list-Delivers = record {
  front = λ xs rest. rw (
    ltb-false (length (xs ++ rest)) (length xs) (omega (arith, length-append xs rest)),
    take-append (length xs) xs rest refl,
    drop-append (length xs) xs rest refl,
  );
}

pub record Wires : Type 0 where
  pub incoming : List ℕ
  pub outgoing : List ℕ

-- The connection object is its type.
abbrev pub Link : Type 0
Link = ConnectionType

unfoldable pub link_read : ℕ → Prog (Link × Wires) (Option (List ℕ))
link_read n (c, w) =
    if ltb (length w.incoming) n
    then done (none, (c, w))
    else done (some (take n w.incoming), (c, record w { incoming = drop n w.incoming }))

abbrev pub link_write : List ℕ → Prog (Link × Wires) Bool
link_write bytes (c, w) = done (true, (c, record w { outgoing = w.outgoing ++ bytes }))

abbrev pub link_drain : ℕ → Prog (Link × Wires) Bool
link_drain n (c, w) = done (true, (c, record w { incoming = drop n w.incoming }))

abbrev pub link : ClientConnection Link Wires
link = record {
  read = link_read;
  write = link_write;
  write_partial = link_write;
  drain = link_drain;
  close = λ s. done (tt, s);
  id = λ s. 7;
  connection_type = λ c. c;
  set_connection_type = λ t c. t;
  create_heap_copy = λ s. done (unknown, s);
}

-- The link before any CONNECT, with bytes to read and bytes that were written.
abbrev pub wires : List ℕ → List ℕ → Link × Wires
wires outgoing incoming = (unknown, record { incoming = incoming; outgoing = outgoing })

pub link-Delivers : (outgoing : List ℕ) → Delivers link_read (wires outgoing)
unfolding link_read
link-Delivers outgoing = record {
  front = λ xs rest. rw (
    ltb-false (length (xs ++ rest)) (length xs) (omega (arith, length-append xs rest)),
    take-append (length xs) xs rest refl,
    drop-append (length xs) xs rest refl,
  );
}

pub list_read_ends : (n : ℕ) (bytes : List ℕ) → list_read n bytes ≢ out_of_fuel
unfolding list_read
list_read_ends n bytes = elim (Bool-cases (ltb (length bytes) n)) [
  | inl e ↦ rw e (λ p. cc)
  | inr e ↦ rw e (λ p. cc)
]

pub default_IsConnect : IsConnect default_connect
default_IsConnect = record {
  name = record { whole = refl; fits = omega arith };
  level = omega arith;
  flag_byte = omega arith;
  alive = omega arith;
  id = record { whole = refl; fits = omega arith };
}

pub link-Drains : (outgoing : List ℕ) → Drains link_drain (wires outgoing)
link-Drains outgoing = record { front = λ xs rest. rw (drop-append (length xs) xs rest refl) }
