-- ===== src/Key.antt =====
-- The integer keys of include/gnat/key.h, and the two key types of include/gnat/datastore.h (lines 84
-- to 141): a topic as a `uint64_t`, and as a std::string.
pub mod Encoding
pub mod Decoding
pub mod Prefix
pub mod Names
pub mod Equality
use gnat.Base.{
  ℕ, zero, suc, ◌+◌, ◌-◌, ◌*◌, ◌%◌, ◌^◌, bit_and, bit_or, List, [], ◌∷◌, ◌++◌, Bool, true, false,
  ◌&&◌, Option, none, some, length, take, drop, ltb, leb, ◌==◌, if◌then◌else◌,
}
use gnat.Base.Outcome.{Outcome, done, undefined, and_then}
use gnat.Fields.{StringBuffer, to_memory}
use gnat.Status.{same_text}
use mathlib.Core.Option
use Prim.Native.Nat.{min}

-- `static_cast<uint64_t>` of a `char`, given as its byte: a signed `char` from 128 on is negative.
unfoldable pub widen : Bool → ℕ → ℕ
widen char_signed c = if char_signed && leb 128 c then c + (2 ^ 64 - 256) else c

-- GetChar, for an index below 8: `uint64_t` keeps the low 64 bits of the shift.
unfoldable pub get_char : Bool → ℕ → ℕ → ℕ
unfolding widen
get_char char_signed c index = widen char_signed c * 2 ^ (8 * index) % 2 ^ 64

-- The loop of EncodeString from index `i` on. A shift by 64 or more is undefined.
unfoldable pub encode_loop : Bool → ℕ → ℕ → List ℕ → Outcome ℕ
unfolding get_char
encode_loop char_signed i encoded [] = done encoded
encode_loop char_signed i encoded (c ∷ cs) =
    let rest = encode_loop char_signed (i + 1) (bit_or encoded (get_char char_signed c i)) cs in
    if ltb i 8 then rest else undefined

-- EncodeString of the array `decoded`.
unfoldable pub encode_string : Bool → List ℕ → ℕ → Outcome ℕ
unfolding encode_loop
encode_string char_signed decoded topic_bytes =
    if ltb (length decoded) topic_bytes
    then undefined
    else encode_loop char_signed 0 0 (take topic_bytes decoded)

-- Encode of a literal, whose array ends with a zero: eight characters at most count.
unfoldable pub encode : Bool → List ℕ → Outcome ℕ
unfolding encode_loop
encode char_signed decoded = encode_loop char_signed 0 0 (take (min (length decoded) 8) decoded)

-- `strlen`; `none` where the memory ends first.
unfoldable pub strlen : List ℕ → Option ℕ
strlen [] = none
strlen (c ∷ cs) = let rest = Option.map suc (strlen cs) in if c == 0 then some 0 else rest

-- `std::min((size_t)8, strlen(…))`.
abbrev pub at_most_eight : Option ℕ → Outcome ℕ
at_most_eight none = undefined
at_most_eight (some n) = done (min 8 n)

-- The length that Decode and DecodeString find. Where none of the eight bytes is zero, `strlen` reads
-- beyond the integer, which is undefined.
unfoldable pub decoded_size : ℕ → Outcome ℕ
unfolding strlen
decoded_size encoded = at_most_eight (strlen (to_memory 8 encoded))

-- Decode.
unfoldable pub decode : ℕ → Outcome (List ℕ)
unfolding decoded_size
decode encoded = and_then (decoded_size encoded) λ n. done (take n (to_memory 8 encoded))

-- `memcpy` of a whole text into a buffer, with the length stored beside it.
unfoldable pub fill_buffer : StringBuffer → List ℕ → Outcome StringBuffer
fill_buffer out bytes =
    if ltb (length out.data_) (length bytes)
    then undefined
    else done
        (record { data_ = bytes ++ drop (length bytes) out.data_; length_ = length bytes % 2 ^ 16 })

-- DecodeString.
unfoldable pub decode_string : ℕ → StringBuffer → Outcome StringBuffer
unfolding decoded_size fill_buffer
decode_string encoded out =
    and_then (decoded_size encoded) λ n. fill_buffer out (take n (to_memory 8 encoded))

-- The static members of DataStore<KeyType>, and the equality of keys in its map.
pub record KeyType (K : Type 0) : Type 0 where
  pub same : K → K → Bool
  pub encode_key : List ℕ → ℕ → Outcome K
  pub decode_key : K → StringBuffer → Outcome StringBuffer
  pub full_key_matcher : K → K → Bool
  pub prefix_key_matcher : K → K → Bool

-- DataStore<uint64_t>.
unfoldable pub integer_prefix : ℕ → ℕ → Bool
integer_prefix target_key other_key = bit_and target_key other_key == target_key

abbrev pub integer_keys : Bool → KeyType ℕ
integer_keys char_signed = record {
  same = ◌==◌;
  encode_key = encode_string char_signed;
  decode_key = decode_string;
  full_key_matcher = ◌==◌;
  prefix_key_matcher = integer_prefix;
}

-- DataStore<std::string>.
unfoldable pub encode_text : List ℕ → ℕ → Outcome (List ℕ)
encode_text decoded count =
    if ltb (length decoded) count then undefined else done (take count decoded)

unfoldable pub decode_text : List ℕ → StringBuffer → Outcome StringBuffer
unfolding fill_buffer
decode_text key out = fill_buffer out key

-- `std::equal` over as many characters as both have.
unfoldable pub text_prefix : List ℕ → List ℕ → Bool
text_prefix [] other_key = true
text_prefix (x ∷ xs) [] = true
text_prefix (x ∷ xs) (y ∷ ys) = x == y && text_prefix xs ys

abbrev pub text_keys : KeyType (List ℕ)
text_keys = record {
  same = same_text;
  encode_key = encode_text;
  decode_key = decode_text;
  full_key_matcher = same_text;
  prefix_key_matcher = text_prefix;
}
