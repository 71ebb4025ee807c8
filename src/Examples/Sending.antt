-- ===== src/Examples/Sending.antt =====
-- Packets that are sent, to a list that collects the bytes.
use gnat.Proto3.SubscribeAck.{send_subscribe_ack, read_subscribe_ack}
use gnat.Proto3.SubscribeAck.RoundTrip.{one_response, read_subscribe_ack-send_subscribe_ack}
use gnat.Base.{
  length-replicate, ℕ, ◌≡◌, refl, arith, List, [], ◌∷◌, ◌++◌, Bool, true, false, some, take,
  replicate, if◌then◌else◌,
}
use gnat.Base.Outcome.{done, undefined, Prog, pure, ◌>>=◌}
use gnat.Examples.Client.{Link, Wires, default_IsConnect, link, link-Delivers, wires}
use gnat.Buffer.Writes.{text, stored}
use gnat.Packet
use gnat.Packet.{Packet, remaining, read_next}
use gnat.Packet.Channel.{packet_waiting}
use gnat.Proto3.Connect.{send_connect, read_connect, default_connect}
use gnat.Proto3.Connect.RoundTrip.{connect_body, connect_wire, received_connect}
use gnat.Proto3.Connect.Receiving.{read_connect-send_connect}
use gnat.Proto3.Publish.RoundTrip.{publish_body, read_publish-publish_head}
use gnat.Proto3.Publish.{Publish, read_publish, send_publish}
use gnat.Proto3.Publish.Sending.{publish_head, send_publish-wire}
use gnat.Proto3.Subscribe.RoundTrip.{read_subscribe-send_subscribe}
use gnat.Fields.{StringBuffer, empty_buffer}
use gnat.Proto3.Subscribe.{Subscribe, read_subscribe, send_subscribe}
use gnat.Proto3.Subscribe.Sending.{subscribe_body}
use gnat.Proto3.SubscribeAck.{SubscribeAck, send_subscribe_ack}
use gnat.Proto3.SubscribeAck.Sending.{send_subscribe_ack-overflow}

abbrev to_list : List ℕ → Prog (List ℕ) Bool
to_list bytes sent = done (true, sent ++ bytes)

read_connect-send_connect_example :
    (send_connect to_list default_connect [] ≡ to_list (connect_wire default_connect) [])
    × (read_next link (wires [] (connect_wire default_connect ++ 9 ∷ []))
        ≡ done (
          some (packet_waiting link (wires []) 0x10 (9 ∷ []) (connect_body default_connect)).0,
          wires [] (connect_body default_connect ++ 9 ∷ []),
        ))
    × (read_connect
          (Packet.read link)
          default_connect
          (packet_waiting link (wires []) 0x10 (9 ∷ []) (connect_body default_connect))
        ≡ done (
          some (received_connect default_connect),
          packet_waiting link (wires []) 0x10 (9 ∷ []) (0 ∷ 4 ∷ text default_connect.client_id),
        ))
read_connect-send_connect_example =
    read_connect-send_connect link (wires []) (link-Delivers []) (9 ∷ []) default_connect
      default_IsConnect to_list [] default_connect

-- The topic `ab` with 300 bytes, whose size takes two bytes.
abbrev long_publish : Publish
long_publish = record {
  topic = record { data_ = 97 ∷ 98 ∷ replicate 126 0; length_ = 2 };
  payload_bytes = 300;
}

send_publish-wire_example :
    send_publish to_list to_list long_publish (replicate 300 5) []
    ≡ (to_list (publish_head 1 long_publish) >>= λ written.
          if written then to_list (replicate 300 5) else pure false)
        []
send_publish-wire_example =
    send_publish-wire to_list to_list 1 long_publish (replicate 300 5) [] (omega arith)
      (omega arith) (omega arith) (record { whole = refl; fits = omega arith })
      (omega (arith, length-replicate {A = ℕ} 300 5))

abbrev subscribe_ab : Subscribe
subscribe_ab = record {
  topic_name = record { data_ = 97 ∷ 98 ∷ replicate 23 0; length_ = 2 };
  packet_id = 300;
}

-- A callback that accepts every topic and keeps the texts.
abbrev keep : StringBuffer → List (List ℕ) → Prog (Packet Link × Wires) (Bool × List (List ℕ))
keep topic texts s = done ((true, texts ++ take topic.length_ topic.data_ ∷ []), s)

read_subscribe-send_subscribe_example :
    (send_subscribe to_list subscribe_ab [] ≡ to_list (0x82 ∷ 7 ∷ subscribe_body subscribe_ab) [])
    × (read_next link (wires [] (0x82 ∷ 7 ∷ subscribe_body subscribe_ab ++ 9 ∷ []))
        ≡ done (
          some (packet_waiting link (wires []) 0x82 (9 ∷ []) (subscribe_body subscribe_ab)).0,
          wires [] (subscribe_body subscribe_ab ++ 9 ∷ []),
        ))
    × (read_subscribe
          (Packet.read link)
          remaining
          keep
          []
          (packet_waiting link (wires []) 0x82 (9 ∷ []) (subscribe_body subscribe_ab))
        ≡ done (
          some (record { topic_name = empty_buffer 25; packet_id = 300 }, (97 ∷ 98 ∷ []) ∷ []),
          packet_waiting link (wires []) 0x82 (9 ∷ []) [],
        ))
read_subscribe-send_subscribe_example =
    read_subscribe-send_subscribe link (wires []) (link-Delivers []) (9 ∷ []) subscribe_ab
      (record { id = omega arith; topic = record { whole = refl; fits = omega arith } }) keep
      (λ topic texts. texts ++ topic ∷ []) (λ out texts rest. refl) to_list [] []

abbrev ack_of : ℕ → SubscribeAck
ack_of count = record {
  subscribe_packet_id = 300;
  responses = replicate 32 1;
  responses_count = count;
}

send_subscribe_ack-overflow_example : send_subscribe_ack to_list (ack_of 29) [] ≡ undefined
send_subscribe_ack-overflow_example =
    send_subscribe_ack-overflow to_list (ack_of 29) [] (record { id = omega arith; whole = refl })
      (omega arith) (omega arith)

-- The same PUBLISH on the link, with a byte of the next packet behind it.
read_publish-publish_head_example :
    (read_next link (wires [] (publish_head 1 long_publish ++ (replicate 300 5 ++ 9 ∷ [])))
      ≡ done (
        some
            (packet_waiting link
              (wires [])
              0x30
              (9 ∷ [])
              (publish_body long_publish (replicate 300 5))).0,
        wires [] (publish_body long_publish (replicate 300 5) ++ 9 ∷ []),
      ))
    × (read_publish (Packet.read link) remaining 0 (
          packet_waiting link
            (wires [])
            0x30
            (9 ∷ [])
            (publish_body long_publish (replicate 300 5)))
        ≡ done (
          some (record { topic = stored 128 (text long_publish.topic); payload_bytes = 300 }),
          packet_waiting link (wires []) 0x30 (9 ∷ []) (replicate 300 5),
        ))
read_publish-publish_head_example =
    read_publish-publish_head link (wires []) (link-Delivers []) (9 ∷ []) 1 long_publish
      (replicate 300 5) (omega arith) (omega arith) (record { whole = refl; fits = omega arith })
      refl

read_subscribe_ack-send_subscribe_ack_example :
    (send_subscribe_ack to_list (one_response 258 1) [] ≡ to_list (0x90 ∷ 3 ∷ 1 ∷ 2 ∷ 1 ∷ []) [])
    × (read_next link (wires [] (0x90 ∷ 3 ∷ 1 ∷ 2 ∷ 1 ∷ 7 ∷ []))
        ≡ done (
          some (packet_waiting link (wires []) 0x90 (7 ∷ []) (1 ∷ 2 ∷ 1 ∷ [])).0,
          wires [] (1 ∷ 2 ∷ 1 ∷ 7 ∷ []),
        ))
    × (read_subscribe_ack
          (Packet.read link)
          (packet_waiting link (wires []) 0x90 (7 ∷ []) (1 ∷ 2 ∷ 1 ∷ []))
        ≡ done (some (one_response 258 1), packet_waiting link (wires []) 0x90 (7 ∷ []) []))
read_subscribe_ack-send_subscribe_ack_example =
    read_subscribe_ack-send_subscribe_ack link (wires []) (link-Delivers []) (7 ∷ []) to_list [] 258
      1 (omega arith)
