-- ===== src/Fields.antt =====
-- The readers of one field of a packet (include/gnat/packets.h, lines 32 to 127). A reader works on
-- whatever offers `Read`: the function `read`, over a state `S`.
pub mod Channel
pub mod Variable
pub mod Shrinking
use gnat.Base.{
  ℕ, zero, suc, ◌+◌, ◌-◌, ◌*◌, ◌/◌, ◌%◌, ◌^◌, bit_and, bit_or, List, [], ◌∷◌, ◌++◌, Option, none,
  some, length, get_or, set, drop, replicate, ltb, ◌==◌, if◌then◌else◌,
}
use gnat.Base.Outcome.{Prog, undefined, out_of_fuel, pure, raise, ◌>>=◌, ◌>>=?◌}

pub data FieldType : Type 0 where
  type_variable type_string type_bytes : FieldType

pub record PacketField : Type 0 where
  pub byte_count : ℕ
  pub type : FieldType

-- `StringBuffer<Size>`: `Size` is the length of `data`.
pub record StringBuffer : Type 0 where
  pub data_ : List ℕ
  pub length_ : ℕ

-- A buffer as its default member initialisers leave it.
abbrev pub empty_buffer : ℕ → StringBuffer
empty_buffer size = record { data_ = replicate size 0; length_ = 0 }

-- The type of the variable that a field is read into.
abbrev pub FieldValue : FieldType → Type 0
FieldValue type_variable = ℕ
FieldValue type_string = StringBuffer
FieldValue type_bytes = ℕ

-- The bytes of an integer in the memory of a little-endian target, and back.
abbrev pub to_memory : ℕ → ℕ → List ℕ
to_memory zero v = []
to_memory (suc n) v = (v % 256) ∷ to_memory n (v / 256)

abbrev pub of_memory : List ℕ → ℕ
of_memory [] = 0
of_memory (b ∷ bs) = b + of_memory bs * 256

-- The largest `int` of the targets, whose `int` has 32 bits.
abbrev pub int_max : ℕ
int_max = 2 ^ 31 - 1

-- One byte read by the loop below goes to its place; a failed read leaves the place as it was.
abbrev pub store_byte : Option (List ℕ) → ℕ → List ℕ → List ℕ
store_byte none i out = out
store_byte (some got) i out = set out i (get_or got 0 0)

module _ {S : Type 0} (read : ℕ → Prog S (Option (List ℕ))) where
  -- The `while (true)` of ReadVariableByteInteger, for `uint32_t* out`. A product beyond `int` is
  -- undefined; the check of the continuation bit comes after `multiplier *= 128`.
  unfoldable pub variable_loop : ℕ → ℕ → ℕ → Prog S (Option ℕ)
  variable_loop zero multiplier out = raise out_of_fuel
  variable_loop (suc rounds) multiplier out = read 1 >>=? λ got.
      let next_byte = get_or got 0 0 in
      let digit = bit_and next_byte 127 * multiplier in
      let out' = (out + digit) % 2 ^ 32 in
      let rest = variable_loop rounds (multiplier * 128) out' in
      if ltb int_max digit
      then raise undefined
      else if ltb int_max (multiplier * 128)
      then raise undefined
      else if bit_and next_byte 128 == 0
      then pure (some out')
      else rest

  -- A sixth round is never reached: the fifth takes `multiplier` beyond `int`.
  unfoldable pub read_variable_byte_integer : Prog S (Option ℕ)
  unfolding variable_loop
  read_variable_byte_integer = variable_loop 5 1 0

  -- ReadString. What lies in the buffer behind the text stays as it was.
  unfoldable pub read_string : StringBuffer → Prog S (Option StringBuffer)
  read_string out = read 2 >>=? λ length_raw.
      let text_length = bit_or (get_or length_raw 0 0 * 256) (get_or length_raw 1 0) in
      if ltb (length out.data_) text_length
      then pure none
      else read text_length >>=? λ text.
          pure (some (record { data_ = text ++ drop text_length out.data_; length_ = text_length }))

  -- The loop of TypedReadField for TYPE_BYTES, with the bytes from index `i` - 1 down to go. The
  -- result of `Read` is dropped.
  unfoldable pub bytes_loop : ℕ → List ℕ → Prog S (List ℕ)
  bytes_loop zero out = pure out
  bytes_loop (suc i) out = read 1 >>= λ got. bytes_loop i (store_byte got i out)

  -- `out` is what the variable held before; `result` stays true.
  unfoldable pub read_bytes : ℕ → ℕ → Prog S (Option ℕ)
  unfolding bytes_loop
  read_bytes byte_count out =
      bytes_loop byte_count (to_memory byte_count out) >>= λ memory. pure (some (of_memory memory))

  -- TypedReadField<Field, type>::Read.
  unfoldable pub typed_read_field :
      (type : FieldType) → ℕ → FieldValue type → Prog S (Option (FieldValue type))
  unfolding read_bytes read_string read_variable_byte_integer
  typed_read_field type_variable byte_count out = read_variable_byte_integer
  typed_read_field type_string byte_count out = read_string out
  typed_read_field type_bytes byte_count out = read_bytes byte_count out

  -- `*out` before the call is an argument; `none` is a result of false.
  unfoldable pub read_field :
      (field : PacketField) → FieldValue field.type → Prog S (Option (FieldValue field.type))
  unfolding typed_read_field
  read_field field out = typed_read_field field.type field.byte_count out
