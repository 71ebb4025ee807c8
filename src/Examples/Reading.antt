-- ===== src/Examples/Reading.antt =====
-- Packets that are read.
use gnat.Fields.{empty_buffer}
use gnat.Log.{Printers, Config}
use gnat.Connection.{unknown}
use gnat.Packet.Dumping.{dump, dump-read_next}
use gnat.Proto3.Connect.{default_connect, read_connect}
use gnat.Proto3.Connect.CutOff.{read_connect-ended}
use gnat.Base.{
  false, ℕ, none, suc, ltb-true, length-replicate, ◌≡◌, refl, arith, [], ◌∷◌, ◌++◌, some, replicate,
}
use gnat.Base.Outcome.{done, undefined, aborted}
use gnat.Examples.Client.{Wires, list_read, list-Delivers, link, link-Delivers, link-Drains, wires}
use gnat.Fields.{read_variable_byte_integer}
use gnat.Fields.Variable.{
  encoding, read_variable_byte_integer-encoding, read_variable_byte_integer-five,
}
use gnat.Packet
use gnat.Packet.{Packet, remaining, read_next, drain, destroy}
use gnat.Packet.Channel.{packet_waiting, read_next-packet, destroy-packet}
use gnat.Proto3.Publish.{read_publish}
use gnat.Proto3.Publish.Reading.{read_publish-aborts}

read_variable_byte_integer-encoding_example :
    read_variable_byte_integer list_read (0xac ∷ 0x02 ∷ 5 ∷ []) ≡ done (some 300, 5 ∷ [])
unfolding encoding
read_variable_byte_integer-encoding_example =
    read_variable_byte_integer-encoding list_read (λ bytes. bytes) list-Delivers 300 (5 ∷ [])
      (omega arith)

read_variable_byte_integer-five_example :
    read_variable_byte_integer list_read (0x80 ∷ 0x80 ∷ 0x80 ∷ 0x80 ∷ 1 ∷ []) ≡ undefined
read_variable_byte_integer-five_example =
    read_variable_byte_integer-five list_read (λ bytes. bytes) list-Delivers 0 0 0 0 1 []
      (omega arith) (omega arith) (omega arith) (omega arith)

read_next-packet_example :
    read_next link (wires [] (0x30 ∷ encoding 3 2 ++ (1 ∷ 2 ∷ 9 ∷ [])))
    ≡ done (
      some (packet_waiting link (wires []) 0x30 (9 ∷ []) (1 ∷ 2 ∷ [])).0,
      wires [] (1 ∷ 2 ∷ 9 ∷ []),
    )
read_next-packet_example =
    read_next-packet link (wires []) (link-Delivers []) 0x30 (1 ∷ 2 ∷ []) (9 ∷ []) (omega arith)

read_publish-aborts_example :
    read_publish
      (Packet.read link)
      remaining
      0
      (packet_waiting link (wires []) 0x30 [] (0 ∷ 100 ∷ 97 ∷ []))
    ≡ aborted
read_publish-aborts_example =
    read_publish-aborts link (wires []) (link-Delivers []) 0x30 [] 0 0 100 (97 ∷ []) (omega arith)
      (omega arith) (omega arith)

destroy-packet_example :
    destroy link (packet_waiting link (wires []) 0x30 (9 ∷ []) (1 ∷ 2 ∷ []))
    ≡ done (
      tt,
      (
        record { control = 0x30; bytes_remaining = 2; connection = (wires [] (9 ∷ [])).0 },
        (wires [] (9 ∷ [])).1,
      ),
    )
destroy-packet_example = destroy-packet link (wires []) (link-Drains []) 0x30 (9 ∷ []) (1 ∷ 2 ∷ [])

-- A printer that keeps the format and the values behind the bytes that were written.
abbrev printer : Printers Wires
printer = record {
  vsnprintf = λ n a. record { bytes = []; written = none };
  println = λ line w. w;
  printf = λ a w. record w { outgoing = w.outgoing ++ (a.format ++ a.values) };
}

abbrev hosted : Config
hosted = record { arduino = false; level = 1 }

-- The two bytes of the body are dumped.
dump-read_next_example :
    (read_next link (wires [] (0x30 ∷ encoding 3 2 ++ (1 ∷ 2 ∷ 9 ∷ [])))
      ≡ done (
        some (packet_waiting link (wires []) 0x30 (9 ∷ []) (1 ∷ 2 ∷ [])).0,
        wires [] (1 ∷ 2 ∷ 9 ∷ []),
      ))
    × (dump printer hosted link (replicate 1024 0) (
      (packet_waiting link (wires []) 0x30 (9 ∷ []) (1 ∷ 2 ∷ [])).0,
      (replicate 128 0, (wires [] (1 ∷ 2 ∷ 9 ∷ [])).1),
    )
        ≡ done (
          1 ∷ 2 ∷ replicate 1022 0,
          (
            record { control = 0x30; bytes_remaining = 0; connection = unknown },
            (
              replicate 128 0,
              record {
                incoming = 9 ∷ [];
                outgoing =
                    b'-' ∷ b'-' ∷ 10 ∷ b'%' ∷ b'X' ∷ b' ' ∷ 1 ∷ b'%' ∷ b'X' ∷ b' ' ∷ 2 ∷ b'-' ∷ b'-'
                    ∷ 10 ∷ [];
              },
            ),
          ),
        ))
dump-read_next_example =
    dump-read_next printer hosted refl link (wires []) (link-Delivers []) 0x30 (1 ∷ 2 ∷ []) (9 ∷ [])
      (replicate 1024 0) (replicate 128 0) (length-replicate {A = ℕ} 1024 0) (omega arith)

list_read-ended : (n : ℕ) → list_read (suc n) [] ≡ done (none, [])
unfolding list_read
list_read-ended n = rw (ltb-true 0 (suc n) (omega arith)) refl

-- A CONNECT that ends behind MQTT has the level of the memory.
read_connect-ended_example :
    read_connect list_read default_connect (0 ∷ 4 ∷ b'M' ∷ b'Q' ∷ b'T' ∷ b'T' ∷ [])
    ≡ done (some (record default_connect { client_id = empty_buffer 23 }), [])
read_connect-ended_example =
    read_connect-ended list_read (λ bytes. bytes) list-Delivers default_connect
      (b'M' ∷ b'Q' ∷ b'T' ∷ b'T' ∷ []) list_read-ended
      (record { level = omega arith; flag_byte = omega arith; alive = omega arith }) (omega arith)
