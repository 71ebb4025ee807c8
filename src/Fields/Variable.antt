-- ===== src/Fields/Variable.antt =====
-- ReadVariableByteInteger on the encodings of one to four bytes, and on a fifth byte.
use gnat.Base.{
  ℕ, zero, suc, ◌+◌, ◌*◌, ◌/◌, ◌%◌, ◌^◌, ◌≤◌, ◌<◌, ◌≡◌, ap, ◌∙◌, arith, List, [], ◌∷◌, ◌++◌, Option,
  some, bit_and, ltb, Bool-cases, ◌==◌, inl, inr, ◌≢◌, ltb-false, ltb-true, refl, ltb-false→le,
  if◌then◌else◌, get_or,
}
use gnat.Base.Outcome.{done, undefined, out_of_fuel, Prog, step?, ends?, if-ends}
use gnat.Base.Bits.{low_seven_bits, top_bit}
use gnat.Fields.{variable_loop, read_variable_byte_integer, int_max}
use gnat.Fields.Channel.{Delivers}
use native.Mathlib.Nat.{div-add-mod, pow-suc, one-le-pow, mod-eq_of_lt}

-- The bytes of `v` in groups of seven bits, lowest first, for `v` below 128 ^ (k + 1).
unfoldable pub encoding : ℕ → ℕ → List ℕ
encoding zero v = v ∷ []
encoding (suc k) v =
    let rest = encoding k (v / 128) in if ltb v 128 then v ∷ [] else (v % 128 + 128) ∷ rest

pub encoding_one : (n : ℕ) → n < 128 → encoding 3 n ≡ n ∷ []
unfolding encoding
encoding_one n h = rw (ltb-true n 128 h) refl

-- What one round computes with a byte below 128 times the multiplier stays an `int`.
digit-le : (g multiplier : ℕ) → g < 128 → multiplier * 128 ≤ 2 ^ 28 → g * multiplier ≤ int_max
digit-le g multiplier hg hm = grind arith

last_low : (b : ℕ) → b < 128 → bit_and b 127 ≡ b
last_low b h = omega (arith, low_seven_bits b)

last_top : (b : ℕ) → b < 128 → bit_and b 128 ≡ 0
last_top b h = omega (arith, top_bit b)

inner_low : (g : ℕ) → g < 128 → bit_and (g + 128) 127 ≡ g
inner_low g h = omega (arith, low_seven_bits (g + 128))

inner_top : (g : ℕ) → g < 128 → bit_and (g + 128) 128 ≡ 128
inner_top g h = omega (arith, top_bit (g + 128))

-- The lowest digit of `v` and the others, at their weights.
digit_split : (v m : ℕ) → v * m ≡ v % 128 * m + v / 128 * (m * 128)
digit_split v m = omega (arith, ap (λ (t : ℕ). t * m) (div-add-mod v 128))

one_more : (k m : ℕ) → m * 128 * 128 ^ suc k ≡ m * 128 ^ suc (suc k)
one_more k m = omega (arith, ap (λ (t : ℕ). m * t) (pow-suc 128 (suc k)))

room : (k m : ℕ) → m * 128 ^ suc (suc k) ≤ 2 ^ 28 → m * 128 ≤ 2 ^ 28
room k m h = grind (arith, one_more k m, one-le-pow (suc k) 128)

module _ {S : Type 0} (read : ℕ → Prog S (Option (List ℕ))) (waiting : List ℕ → S)
    (delivers : Delivers read waiting) where
  last_byte :
      (r b multiplier out : ℕ) (rest : List ℕ)
      → b < 128
      → multiplier * 128 ≤ 2 ^ 28
      → out + b * multiplier < 2 ^ 32
      → variable_loop read (suc r) multiplier out (waiting (b ∷ rest))
        ≡ done (some (out + b * multiplier), waiting rest)
  unfolding variable_loop
  last_byte r b multiplier out rest hb hm fits = step? _ _ (delivers.front (b ∷ []) rest) (
      rw (
        last_low b hb,
        last_top b hb,
        ltb-false int_max (b * multiplier) (digit-le b multiplier hb hm),
        ltb-false int_max (multiplier * 128) (omega arith),
        mod-eq_of_lt fits,
      ))

  inner_byte :
      (r g multiplier out : ℕ) (rest : List ℕ)
      → g < 128
      → multiplier * 128 ≤ 2 ^ 28
      → out + g * multiplier < 2 ^ 32
      → variable_loop read (suc r) multiplier out (waiting ((g + 128) ∷ rest))
        ≡ variable_loop read r (multiplier * 128) (out + g * multiplier) (waiting rest)
  unfolding variable_loop
  inner_byte r g multiplier out rest hg hm fits = step? _ _ (delivers.front ((g + 128) ∷ []) rest) (
      rw (
        inner_low g hg,
        inner_top g hg,
        ltb-false int_max (g * multiplier) (digit-le g multiplier hg hm),
        ltb-false int_max (multiplier * 128) (omega arith),
        mod-eq_of_lt fits,
      ))

  variable_loop-encoding :
      (k r v multiplier out : ℕ) (rest : List ℕ)
      → k < r
      → v < 128 ^ suc k
      → multiplier * 128 ^ suc k ≤ 2 ^ 28
      → out + v * multiplier < 2 ^ 32
      → variable_loop read r multiplier out (waiting (encoding k v ++ rest))
        ≡ done (some (out + v * multiplier), waiting rest)
  unfolding encoding
  variable_loop-encoding k zero v multiplier out rest hr hv hm fits = absurd (omega arith)
  variable_loop-encoding zero (suc r) v multiplier out rest hr hv hm fits =
      last_byte r v multiplier out rest (omega arith) (omega arith) fits
  variable_loop-encoding (suc k) (suc r) v multiplier out rest hr hv hm fits = ground (
    arith,
    digit_split v multiplier,
    room k multiplier hm,
    pow-suc 128 (suc k),
    one_more k multiplier,
    last_byte r v multiplier out rest,
    inner_byte r (v % 128) multiplier out (encoding k (v / 128) ++ rest),
    variable_loop-encoding k r (v / 128) (multiplier * 128) (out + v % 128 * multiplier) rest,
  )

  -- On a client that delivers its bytes, ReadVariableByteInteger reads the encoding of a number
  -- below 2 ^ 28 in groups of seven bits back, and nothing behind it is touched.
  pub read_variable_byte_integer-encoding :
      (v : ℕ) (rest : List ℕ)
      → v < 2 ^ 28
      → read_variable_byte_integer read (waiting (encoding 3 v ++ rest))
        ≡ done (some v, waiting rest)
  unfolding read_variable_byte_integer
  read_variable_byte_integer-encoding v rest h =
      variable_loop-encoding 3 5 v 1 0 rest (omega arith) (omega arith) (omega arith) (omega arith)
      ∙ ap (λ (w : ℕ). done (some w, waiting rest)) (omega arith)

  fifth_byte :
      (b out : ℕ) (rest : List ℕ)
      → variable_loop read 1 (2 ^ 28) out (waiting (b ∷ rest)) ≡ undefined
  unfolding variable_loop
  fifth_byte b out rest =
      step? _ _ (delivers.front (b ∷ []) rest)
        (elim (Bool-cases (ltb int_max (bit_and b 127 * 2 ^ 28))) [ inl e ↦ rw e | inr e ↦ rw e ])

  -- On a client that delivers its bytes, four bytes with the continuation bit and any fifth byte
  -- take the int `multiplier` of ReadVariableByteInteger, or its product with the byte, beyond its
  -- range, which is undefined.
  pub read_variable_byte_integer-five :
      (a b c d e : ℕ) (rest : List ℕ)
      → a < 128
      → b < 128
      → c < 128
      → d < 128
      → read_variable_byte_integer read
          (waiting ((a + 128) ∷ (b + 128) ∷ (c + 128) ∷ (d + 128) ∷ e ∷ rest))
        ≡ undefined
  unfolding read_variable_byte_integer
  read_variable_byte_integer-five a b c d e rest ha hb hc hd =
      inner_byte 4 a 1 0 _ ha (omega arith) (omega arith)
      ∙ inner_byte 3 b 128 (0 + a * 1) _ hb (omega arith) (omega arith)
      ∙ inner_byte 2 c (128 * 128) (0 + a * 1 + b * 128) _ hc (omega arith) (omega arith)
      ∙ inner_byte 1 d (128 * 128 * 128) (0 + a * 1 + b * 128 + c * (128 * 128)) _ hd (omega arith)
          (omega arith)
      ∙ fifth_byte e (0 + a * 1 + b * 128 + c * (128 * 128) + d * (128 * 128 * 128)) rest

-- The loop ends on every client.
module _ {S : Type 0} (read : ℕ → Prog S (Option (List ℕ)))
    (read_ends : (n : ℕ) (s : S) → read n s ≢ out_of_fuel) where
  round-ends :
      (r multiplier out : ℕ) (s : S)
      → ((next : ℕ) (t : S)
          → multiplier * 128 ≤ int_max
          → variable_loop read r (multiplier * 128) next t ≢ out_of_fuel)
      → variable_loop read (suc r) multiplier out s ≢ out_of_fuel
  unfolding variable_loop
  round-ends r multiplier out s later = ends? _ _ (read_ends 1 s) λ got t.
      if-ends (ltb int_max (bit_and (get_or got 0 0) 127 * multiplier)) _ _ (λ _ e. cc)
        λ _.
          if-ends (ltb int_max (multiplier * 128)) _ _ (λ _ e. cc)
            λ fits.
              if-ends (bit_and (get_or got 0 0) 128 == 0) _ _ (λ _ e. cc)
                λ _.
                  later ((out + bit_and (get_or got 0 0) 127 * multiplier) % 2 ^ 32) t
                    (ltb-false→le _ _ fits)

  -- If no read of the client runs out of fuel, ReadVariableByteInteger does not either, whatever
  -- the client sends.
  pub read_variable_byte_integer-ends : (s : S) → read_variable_byte_integer read s ≢ out_of_fuel
  unfolding read_variable_byte_integer
  read_variable_byte_integer-ends s = round-ends 4 1 0 s λ o t _. round-ends 3 128 o t λ o t _.
      round-ends 2 (128 * 128) o t λ o t _.
        round-ends 1 (128 * 128 * 128) o t
          λ o t _. round-ends 0 (2 ^ 28) o t λ o t h. absurd (omega arith)
