-- ===== src/Examples/Keys.antt =====
-- Keys of short topics.
use gnat.Base.{ℕ, zero, suc, All, ◌≡◌, refl, arith, List, [], ◌∷◌, true, ◌↔◌, ◌⊎◌, replicate}
use gnat.Base.Outcome.{done, undefined}
use gnat.Fields.{of_memory, empty_buffer}
use gnat.Key.{widen, encode_string, decode_string, integer_prefix, text_prefix}
use gnat.Key.Encoding.{encode_string-short, encode_string-long}
use gnat.Key.Decoding.{IsChar, decode_string-of_memory}
use gnat.Key.Prefix.{covers, integer_prefix-covers, text_prefix_iff}

encode_string-short_example :
    encode_string true (97 ∷ 98 ∷ 0 ∷ []) 2 ≡ done (of_memory (97 ∷ 98 ∷ []))
unfolding widen
encode_string-short_example =
    encode_string-short true (97 ∷ 98 ∷ 0 ∷ []) 2 (omega arith) (omega arith) (
      record { byte = omega arith; widens = refl },
      (record { byte = omega arith; widens = refl }, tt),
    )

encode_string-long_example : encode_string true (replicate 128 97) 9 ≡ undefined
encode_string-long_example =
    encode_string-long true (replicate 128 97) 9 (omega arith) (omega arith)

letters-IsChar : (n : ℕ) → All IsChar (replicate n 97)
letters-IsChar zero = tt
letters-IsChar (suc n) = (record { pos = omega arith; byte = omega arith }, letters-IsChar n)

decode_two :
    decode_string (of_memory (97 ∷ 97 ∷ [])) (empty_buffer 128)
    ≡ done (record { data_ = 97 ∷ 97 ∷ replicate 126 0; length_ = 2 })
decode_two =
    decode_string-of_memory (97 ∷ 97 ∷ []) (omega arith) (letters-IsChar 2) (empty_buffer 128)
      (omega arith)

-- Eight letters leave no room for a zero.
decode_string-of_memory_example :
    decode_string (of_memory (replicate 8 97)) (empty_buffer 128) ≡ undefined
decode_string-of_memory_example =
    decode_string-of_memory (replicate 8 97) (omega arith) (letters-IsChar 8) (empty_buffer 128)
      (omega arith)

-- The topic `c` has the bits of the target `a`, and is matched.
integer_prefix-covers_example :
    integer_prefix (of_memory (97 ∷ [])) (of_memory (99 ∷ [])) ≡ covers (97 ∷ []) (99 ∷ [])
integer_prefix-covers_example =
    integer_prefix-covers (97 ∷ []) (99 ∷ []) (omega arith, tt) (omega arith, tt)

text_prefix_iff_example : (text_prefix (97 ∷ 98 ∷ []) (97 ∷ []) ≡ true) ↔ (
    ((rest : List ℕ) × (97 ∷ [] ≡ 97 ∷ 98 ∷ rest)) ⊎ ((rest : List ℕ) × (97 ∷ 98 ∷ [] ≡ 97 ∷ rest)))
text_prefix_iff_example = text_prefix_iff (97 ∷ 98 ∷ []) (97 ∷ [])
