-- ===== src/Key/Prefix.antt =====
-- What PrefixKeyMatcher compares: bits for integer keys, characters for string keys.
use gnat.Base.{
  ℕ, ◌+◌, ◌*◌, ◌^◌, ◌<◌, ◌≡◌, refl, sym, ap, ◌∙◌, arith, bit_and, List, [], ◌∷◌, ◌++◌, All, Bool,
  true, ◌&&◌, ◌==◌, ==_iff, ==_self, Bool-cases, inl, inr, ◌⊎◌, ◌↔◌,
}
use mathlib.Core.Path.{ap₂}
use gnat.Base.Bits.{
  fields-bit_and-fields, bit_and-zero_left, bit_and-zero_right, bit_and_self, bit_and-le_left,
}
use gnat.Fields.{of_memory}
use gnat.Key.{integer_prefix, text_prefix}

-- Each character of the target has its bits in the character at its place; where the other text has
-- ended, the characters must be zero.
unfoldable pub covers : List ℕ → List ℕ → Bool
covers [] other = true
covers (t ∷ ts) [] = t == 0 && covers ts []
covers (t ∷ ts) (o ∷ os) = bit_and t o == t && covers ts os

low_field : (b m : ℕ) → b + m * 256 ≡ m * 2 ^ 8 + b
low_field b m = omega arith

-- The `&` of two keys, one character apart from the others.
key_step :
    (t o ts os : ℕ)
    → t < 256
    → o < 256
    → bit_and (t + ts * 256) (o + os * 256) ≡ bit_and ts os * 256 + bit_and t o
key_step t o ts os h g =
    ap₂ bit_and (low_field t ts) (low_field o os) ∙ fields-bit_and-fields 8 ts os t o h g

key_step_end : (t ts : ℕ) → t < 256 → bit_and (t + ts * 256) 0 ≡ bit_and ts 0 * 256 + bit_and t 0
key_step_end t ts h = simp bit_and-zero_right (omega arith)

-- Two numbers in base 256 are equal when the digits are.
same_fields :
    (a b m n : ℕ) → a < 256 → b < 256 → ((m * 256 + a) == (b + n * 256)) ≡ (a == b && m == n)
same_fields a b m n h g = ground arith

-- On the integer keys of two texts of bytes, the prefix matcher holds exactly when every character
-- of the target has its bits in the other text's character at the same place, which is not what a
-- prefix is.
pub integer_prefix-covers :
    (target other : List ℕ)
    → All (λ c. c < 256) target
    → All (λ c. c < 256) other
    → integer_prefix (of_memory target) (of_memory other) ≡ covers target other
unfolding integer_prefix covers
integer_prefix-covers [] other h g = rw (bit_and-zero_left (of_memory other))
integer_prefix-covers (t ∷ ts) [] (h, hs) g =
    let rest = integer_prefix-covers ts [] hs g in
    let rest' : (0 == of_memory ts) ≡ covers ts [] =
      ap (λ (m : ℕ). m == of_memory ts) (sym (bit_and-zero_right (of_memory ts))) ∙ rest in
    rw (bit_and-zero_right (t + of_memory ts * 256), ← rest') (ground arith)
integer_prefix-covers (t ∷ ts) (o ∷ os) (h, hs) (g, gs) =
    rw (key_step t o (of_memory ts) (of_memory os) h g) (
      same_fields (bit_and t o) t (bit_and (of_memory ts) (of_memory os)) (of_memory ts)
        (omega (arith, bit_and-le_left t o)) h
      ∙ ap (λ (b : Bool). bit_and t o == t && b) (integer_prefix-covers ts os hs gs))

covers-append :
    (target rest : List ℕ) → All (λ c. c < 256) target → covers target (target ++ rest) ≡ true
unfolding covers
covers-append [] rest h = refl
covers-append (t ∷ ts) rest (h, hs) = rw (bit_and_self 8 t h, ==_self t) (covers-append ts rest hs)

-- On integer keys, a text of bytes that begins with the target is matched by the prefix matcher.
pub integer_prefix-append :
    (target rest : List ℕ)
    → All (λ c. c < 256) target
    → All (λ c. c < 256) (target ++ rest)
    → integer_prefix (of_memory target) (of_memory (target ++ rest)) ≡ true
integer_prefix-append target rest h g =
    integer_prefix-covers target (target ++ rest) h g ∙ covers-append target rest h

-- On string keys the prefix matcher tells whether one of the two begins with the other.
text_prefix_sound :
    (target other : List ℕ)
    → text_prefix target other ≡ true
    → ((rest : List ℕ) × (other ≡ target ++ rest)) ⊎ ((rest : List ℕ) × (target ≡ other ++ rest))
unfolding text_prefix
text_prefix_sound [] other h = inl (other, refl)
text_prefix_sound (x ∷ xs) [] h = inr (x ∷ xs, refl)
text_prefix_sound (x ∷ xs) (y ∷ ys) h = elim (Bool-cases (x == y)) [
  | inl same ↦ elim (text_prefix_sound xs ys (rw same at h)) [
    | inl (rest, e) ↦ inl (rest, ap₂ ◌∷◌ (sym ((==_iff x y).0 same)) e)
    | inr (rest, e) ↦ inr (rest, ap₂ ◌∷◌ ((==_iff x y).0 same) e)
  ]
  | inr differ ↦ cc (differ, h)
]

text_prefix-left : (target rest : List ℕ) → text_prefix target (target ++ rest) ≡ true
unfolding text_prefix
text_prefix-left [] rest = refl
text_prefix-left (x ∷ xs) rest = rw (==_self x) (text_prefix-left xs rest)

text_prefix-right : (other rest : List ℕ) → text_prefix (other ++ rest) other ≡ true
unfolding text_prefix
text_prefix-right [] [] = refl
text_prefix-right [] (x ∷ xs) = refl
text_prefix-right (x ∷ xs) rest = rw (==_self x) (text_prefix-right xs rest)

-- On string keys, the prefix matcher holds exactly when the other key begins with the target or
-- the target begins with the other key.
pub text_prefix_iff :
    (target other : List ℕ)
    → (text_prefix target other ≡ true) ↔ (
        ((rest : List ℕ) × (other ≡ target ++ rest)) ⊎ ((rest : List ℕ) × (target ≡ other ++ rest)))
text_prefix_iff target other = (text_prefix_sound target other, back)
  where
    back :
        ((rest : List ℕ) × (other ≡ target ++ rest)) ⊎ ((rest : List ℕ) × (target ≡ other ++ rest))
        → text_prefix target other ≡ true
    back (inl (rest, e)) = rw e (text_prefix-left target rest)
    back (inr (rest, e)) = rw e (text_prefix-right other rest)
