-- ===== src/Proto3/ConnectAck.antt =====
-- struct ConnectAck (include/gnat/packets.h, lines 238 to 288).
use gnat.Base.{
  ℕ, ◌*◌, ◌<◌, ◌≡◌, refl, arith, bit_and, List, [], ◌∷◌, Bool, false, Option, some, if◌then◌else◌,
}
use gnat.Base.Outcome.{done, Prog, pure, step?, ◌>>◌, ◌>>=?◌}
use gnat.Fields.{PacketField, type_bytes, read_field}
use gnat.Fields.Channel.{Delivers, read_bytes-one}
use gnat.Header.{connack, packet_code}
use gnat.Buffer.{put, put_remaining_length, send}
use gnat.Buffer.Writes.{Writes, put_then, Writes-put, patch-Writes, send-Writes}

pub record ConnectAck : Type 0 where
  pub error : Bool
  pub flags : ℕ
  pub return_code : ℕ

-- The members as their initialisers leave them.
abbrev pub new_connect_ack : ConnectAck
new_connect_ack = record { error = false; flags = 0; return_code = 0 }

abbrev pub ack_flags_field : PacketField
ack_flags_field = record { byte_count = 1; type = type_bytes }

abbrev pub return_code_field : PacketField
return_code_field = record { byte_count = 1; type = type_bytes }

module _ {S : Type 0} where
  unfoldable pub read_connect_ack : (ℕ → Prog S (Option (List ℕ))) → Prog S (Option ConnectAck)
  unfolding read_field
  read_connect_ack read = read_field read ack_flags_field 0 >>=? λ flags.
      read_field read return_code_field 0 >>=? λ return_code.
      pure (some (record new_connect_ack { flags = flags; return_code = return_code }))

unfoldable pub fill_connect_ack : ConnectAck → Prog (List ℕ) (Unit {0})
fill_connect_ack ack = do
  put 128 (bit_and (packet_code connack * 16) 0xf0)
  put 128 0
  put 128 0
  put 128 (if ack.error then 0x80 else 0)

module _ {S : Type 0} where
  unfoldable pub send_connect_ack : (List ℕ → Prog S Bool) → ConnectAck → Prog S Bool
  unfolding fill_connect_ack
  send_connect_ack write ack = send (fill_connect_ack ack >> put_remaining_length) write

-- The code that goes out.
abbrev pub sent_code : ConnectAck → ℕ
sent_code ack = if ack.error then 0x80 else 0

sent_code-lt : (ack : ConnectAck) → sent_code ack < 256
sent_code-lt ack = ground arith

fill_connect_ack-Writes :
    (ack : ConnectAck) → Writes 128 (fill_connect_ack ack) (0x20 ∷ 0 ∷ 0 ∷ sent_code ack ∷ [])
unfolding fill_connect_ack packet_code
fill_connect_ack-Writes ack =
    put_then _ _ (omega arith)
      (put_then _ _ (omega arith) (put_then _ _ (omega arith) (Writes-put _ (sent_code-lt ack))))

-- ConnectAck::SendOn hands the four bytes of a CONNACK to Write, with the code 0x80 for an error
-- and 0 otherwise, whatever the other members are.
pub send_connect_ack-wire :
    {S : Type 0} (write : List ℕ → Prog S Bool) (ack : ConnectAck) (s : S)
    → send_connect_ack write ack s ≡ write (0x20 ∷ 2 ∷ 0 ∷ sent_code ack ∷ []) s
unfolding send_connect_ack
send_connect_ack-wire write ack s =
    send-Writes _ write s (patch-Writes (fill_connect_ack-Writes ack) (omega arith))

-- On a client that delivers its bytes, ConnectAck::ReadFrom takes two bytes and gives them as the
-- flags and the return code, without an error.
pub read_connect_ack-body :
    {S : Type 0} (read : ℕ → Prog S (Option (List ℕ))) (waiting : List ℕ → S)
    (delivers : Delivers read waiting) (flags return_code : ℕ) (rest : List ℕ)
    → read_connect_ack read (waiting (flags ∷ return_code ∷ rest))
      ≡ done
          (some (record { error = false; flags = flags; return_code = return_code }), waiting rest)
unfolding read_connect_ack
read_connect_ack-body read waiting delivers flags return_code rest =
    step? _ _ (read_bytes-one read waiting delivers flags 0 _)
      (step? _ _ (read_bytes-one read waiting delivers return_code 0 rest) refl)
