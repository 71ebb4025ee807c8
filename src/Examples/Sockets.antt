-- ===== src/Examples/Sockets.antt =====
-- A WiFiClient in memory, which hands out prepared pieces and takes one byte at a time.
use gnat.Base.{
  ℕ, ◌≡◌, refl, arith, List, [], ◌∷◌, ◌++◌, true, Option, some, take, drop, length, replicate,
  length-replicate, take-append, drop-append,
}
use gnat.Base.Outcome.{done, Prog, pure}
use gnat.Arduino.{
  WifiClient, arduino_connection, ReadResult, received, nothing, eagain, read_loop, write_loop,
}
use gnat.Arduino.Writing.{Accepts, write_loop-sends}
use gnat.Arduino.Serving.{HasBytes, arduino-Delivers, arduino-Drains}
use gnat.Connection.{unknown}
use gnat.Fields.Channel.{Delivers}
use gnat.Arduino.Reading.{Piece, read_loop-in_two}

-- The pieces that come in, and the bytes that went out.
pub record Socket : Type 0 where
  pub pieces : List (List ℕ)
  pub sent : List ℕ

abbrev socket_read : ℕ → Prog Socket ReadResult
socket_read n x = elim x.pieces [
  | [] ↦ done (nothing eagain, x)
  | piece ∷ rest ↦ done (received piece, record x { pieces = rest })
]

abbrev socket_write : List ℕ → Prog Socket (Option ℕ)
socket_write [] x = done (some 0, x)
socket_write (b ∷ bs) x = done (some 1, record x { sent = x.sent ++ b ∷ [] })

abbrev socket : WifiClient Socket
socket = record {
  available = pure 1;
  connected = pure true;
  read = socket_read;
  write = socket_write;
  stop = pure tt;
  fd = λ x. 7;
  delay = λ n. pure tt;
}

socket-Accepts : Accepts socket (λ x. x.sent)
socket-Accepts = record {
  progress = λ b bs x. (0, record x { sent = x.sent ++ b ∷ [] }, refl, omega arith, refl);
  alive = λ x. refl;
}

abbrev with_pieces : List (List ℕ) → Socket
with_pieces pieces = record { pieces = pieces; sent = [] }

write_loop-sends_example :
    (x' : Socket) × (write_loop socket 3 (1 ∷ 2 ∷ 3 ∷ []) (with_pieces []) ≡ done (true, x'))
    × (x'.sent ≡ 1 ∷ 2 ∷ 3 ∷ [])
write_loop-sends_example =
    write_loop-sends socket (λ x. x.sent) socket-Accepts 3 (1 ∷ 2 ∷ 3 ∷ []) (with_pieces [])
      (omega arith)

Piece-with_pieces :
    (n : ℕ) (piece : List ℕ) (rest : List (List ℕ))
    → Piece socket n piece (with_pieces (piece ∷ rest)) (with_pieces rest)
Piece-with_pieces n piece rest = record { has_data = (0, refl); connected = refl; reads = refl }

-- Three bytes in two pieces: 1, 2 and then 3 give 3, 2, 0.
read_loop-in_two_example :
    read_loop socket 3 (0 ∷ 0 ∷ 0 ∷ []) 3 (with_pieces ((1 ∷ 2 ∷ []) ∷ (3 ∷ []) ∷ []))
    ≡ done (some (3 ∷ 2 ∷ 0 ∷ []), with_pieces [])
read_loop-in_two_example =
    read_loop-in_two socket 0 2 0 (1 ∷ 2 ∷ []) (3 ∷ []) (0 ∷ 0 ∷ 0 ∷ [])
      (Piece-with_pieces 3 (1 ∷ 2 ∷ []) ((3 ∷ []) ∷ [])) refl (Piece-with_pieces 1 (3 ∷ []) []) refl

-- A client that has all its bytes from the start.
abbrev stream_read : ℕ → Prog (List ℕ) ReadResult
stream_read n [] = done (nothing eagain, [])
stream_read n (b ∷ bs) = done (received (take n (b ∷ bs)), drop n (b ∷ bs))

abbrev stream : WifiClient (List ℕ)
stream = record {
  available = λ bytes. done (length bytes, bytes);
  connected = pure true;
  read = stream_read;
  write = λ bytes. pure (some (length bytes));
  stop = pure tt;
  fd = λ x. 7;
  delay = λ n. pure tt;
}

stream-HasBytes : HasBytes stream (λ bytes. bytes)
stream-HasBytes = record {
  front = λ x xs rest. record {
    has_data = (length (xs ++ rest), refl);
    connected = refl;
    reads = rw (take-append (length xs) xs rest refl, drop-append (length xs) xs rest refl) refl;
  };
}

arduino-Delivers_example :
    Delivers
      (arduino_connection stream 2 (λ n. replicate n 0) (replicate 64 0)).read
      (λ bytes. (record { connection_type_ = unknown }, bytes))
arduino-Delivers_example =
    arduino-Delivers stream (λ bytes. bytes) stream-HasBytes 0 (λ n. replicate n 0) (replicate 64 0)
      (record { connection_type_ = unknown }) (λ n. length-replicate n 0)

-- A hundred bytes are drained in two pieces.
arduino-Drains_example :
    (arduino_connection stream 102 (λ n. replicate n 0) (replicate 64 0)).drain 100
      (record { connection_type_ = unknown }, replicate 100 1 ++ 9 ∷ [])
    ≡ done (true, (record { connection_type_ = unknown }, 9 ∷ []))
arduino-Drains_example =
    arduino-Drains stream (λ bytes. bytes) stream-HasBytes 102 (λ n. replicate n 0) (replicate 64 0)
      (record { connection_type_ = unknown }) (replicate 100 1) (9 ∷ [])
      (length-replicate {A = ℕ} 64 0) (omega arith)
