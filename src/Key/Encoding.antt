-- ===== src/Key/Encoding.antt =====
-- EncodeString: the key of a short topic is its bytes, lowest first; a longer topic has none.
use gnat.Base.{
  ℕ, ◌+◌, ◌*◌, ◌^◌, ◌≤◌, ◌<◌, ◌≡◌, ap, ◌∙◌, arith, bit_or, List, [], ◌∷◌, All, Bool, length, take,
  length-take, ltb-true, ltb-false,
}
use gnat.Base.Bits.{low-bit_or-high}
use gnat.Base.Outcome.{done, undefined}
use gnat.Fields.{of_memory}
use gnat.Key.{widen, get_char, encode_loop, encode_string}
use native.Mathlib.Nat.{pow-le-pow_right, mod-eq_of_lt, one-le-pow}
use native.Mathlib.Numerals.{towards_suc}

-- A byte that a `char` widens to itself: any with an unsigned `char`, those below 128 with a signed.
pub record IsPlain (char_signed : Bool) (c : ℕ) : Type 0 where
  pub byte : c < 256
  pub widens : widen char_signed c ≡ c

add_eight : (s : ℕ) → 2 ^ (s + 8) ≡ 2 ^ s * 256
add_eight s = simp towards_suc (omega arith)

next_place : (i : ℕ) → 2 ^ (8 * (i + 1)) ≡ 2 ^ (8 * i) * 256
next_place i = ap (λ (n : ℕ). 2 ^ n) (omega arith) ∙ add_eight (8 * i)

place-le : (i : ℕ) → i < 8 → 2 ^ (8 * i) * 256 ≤ 2 ^ 64
place-le i h =
    rw (← next_place i)
      (pow-le-pow_right {n = 2} (omega arith) {i = 8 * (i + 1)} {j = 64} (omega arith))

fits_place : (c p : ℕ) → 1 ≤ p → c < 256 → p * 256 ≤ 2 ^ 64 → c * p < 2 ^ 64
fits_place c p pos h g = grind arith

below_next : (c p e : ℕ) → c < 256 → e < p → c * p + e < p * 256
below_next c p e h g = grind arith

-- A character at an index below 8 loses no bits.
get_char-plain :
    (char_signed : Bool) (c i : ℕ)
    → i < 8
    → IsPlain char_signed c
    → get_char char_signed c i ≡ c * 2 ^ (8 * i)
unfolding get_char
get_char-plain char_signed c i h v = rw v.widens (
    mod-eq_of_lt
      (fits_place c (2 ^ (8 * i)) (one-le-pow (8 * i) 2 (omega arith)) v.byte (place-le i h)))

encode_loop-plain :
    (char_signed : Bool) (i encoded : ℕ) (cs : List ℕ)
    → encoded < 2 ^ (8 * i)
    → i + length cs ≤ 8
    → All (IsPlain char_signed) cs
    → encode_loop char_signed i encoded cs ≡ done (encoded + of_memory cs * 2 ^ (8 * i))
unfolding encode_loop
encode_loop-plain char_signed i encoded [] he h v = ap done (omega arith)
encode_loop-plain char_signed i encoded (c ∷ cs) he h (v, vs) =
    rw
      (
        ltb-true i 8 (omega arith),
        get_char-plain char_signed c i (omega arith) v,
        low-bit_or-high (8 * i) c encoded he,
      )
      (encode_loop-plain char_signed (i + 1) (c * 2 ^ (8 * i) + encoded) cs
          (rw next_place (below_next c (2 ^ (8 * i)) encoded v.byte he)) (omega arith) vs
        ∙ ap done (omega (arith, ap (λ (t : ℕ). of_memory cs * t) (next_place i))))

encode_loop-long :
    (char_signed : Bool) (i encoded : ℕ) (cs : List ℕ)
    → i ≤ 8
    → 8 < i + length cs
    → encode_loop char_signed i encoded cs ≡ undefined
unfolding encode_loop
encode_loop-long char_signed i encoded [] hi h = absurd (omega arith)
encode_loop-long char_signed i encoded (c ∷ cs) hi h =
    ground
      (arith, encode_loop-long char_signed (i + 1) (bit_or encoded (get_char char_signed c i)) cs)

-- EncodeString of at most eight characters, none of them negative as a char, gives the number
-- whose little-endian bytes they are.
pub encode_string-short :
    (char_signed : Bool) (decoded : List ℕ) (n : ℕ)
    → n ≤ length decoded
    → n ≤ 8
    → All (IsPlain char_signed) (take n decoded)
    → encode_string char_signed decoded n ≡ done (of_memory (take n decoded))
unfolding encode_string
encode_string-short char_signed decoded n h eight v = rw (ltb-false (length decoded) n h) (
    encode_loop-plain char_signed 0 0 (take n decoded) (omega arith)
      (omega (arith, length-take n decoded)) v
    ∙ ap done (omega arith))

-- EncodeString of nine or more characters shifts by 64 bits, which is undefined.
pub encode_string-long :
    (char_signed : Bool) (decoded : List ℕ) (n : ℕ)
    → n ≤ length decoded
    → 8 < n
    → encode_string char_signed decoded n ≡ undefined
unfolding encode_string
encode_string-long char_signed decoded n h long = rw (ltb-false (length decoded) n h) (
    encode_loop-long char_signed 0 0 (take n decoded) (omega arith)
      (omega (arith, length-take n decoded)))
