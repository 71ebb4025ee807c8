-- ===== src/Header.antt =====
-- PacketType and FixedHeader (include/gnat/packets.h, lines 11 to 29 and 129 to 151).
pub mod Reading
use gnat.Base.{ℕ, suc, ◌/◌, ◌-◌, ◌==◌, List, if◌then◌else◌, Option, none, some, zero}
use gnat.Base.Outcome.{Prog, pure, ◌>>=?◌}
use gnat.Fields.{PacketField, type_variable, type_bytes, read_field}

pub data PacketType : Type 0 where
  reserved connect connack publish puback pubrec pubrel pubcomp subscribe suback unsubscribe
        unsuback pingreq pingresp disconnect auth :
      PacketType

-- The number of an enumerator.
unfoldable pub packet_code : PacketType → ℕ
packet_code reserved = 0
packet_code connect = 1
packet_code connack = 2
packet_code publish = 3
packet_code puback = 4
packet_code pubrec = 5
packet_code pubrel = 6
packet_code pubcomp = 7
packet_code subscribe = 8
packet_code suback = 9
packet_code unsubscribe = 10
packet_code unsuback = 11
packet_code pingreq = 12
packet_code pingresp = 13
packet_code disconnect = 14
packet_code auth = 15

-- `static_cast<PacketType>` of a number below 16.
unfoldable pub packet_type : ℕ → PacketType
packet_type n =
    if n == 0
    then reserved
    else if n == 1
    then connect
    else if n == 2
    then connack
    else if n == 3
    then publish
    else if n == 4
    then puback
    else if n == 5
    then pubrec
    else if n == 6
    then pubrel
    else if n == 7
    then pubcomp
    else if n == 8
    then subscribe
    else if n == 9
    then suback
    else if n == 10
    then unsubscribe
    else if n == 11
    then unsuback
    else if n == 12
    then pingreq
    else if n == 13
    then pingresp
    else if n == 14
    then disconnect
    else auth

pub record FixedHeader : Type 0 where
  pub control : ℕ
  pub remaining_size : ℕ

abbrev control_field : PacketField
control_field = record { byte_count = 1; type = type_bytes }

abbrev remaining_size_field : PacketField
remaining_size_field = record { byte_count = 0; type = type_variable }

module _ {S : Type 0} (read : ℕ → Prog S (Option (List ℕ))) where
  -- FixedHeader::ReadFrom. Both members start as 0.
  unfoldable pub read_fixed_header : Prog S (Option FixedHeader)
  unfolding read_field
  read_fixed_header = read_field read control_field 0 >>=? λ control.
      read_field read remaining_size_field 0 >>=? λ remaining_size.
      pure (some (record { control = control; remaining_size = remaining_size }))
