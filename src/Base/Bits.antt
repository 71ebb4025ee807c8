-- ===== src/Base/Bits.antt =====
-- `|` and `&` of native numbers as arithmetic: one equation for the lowest binary digit, and the
-- laws of numbers that are put together from a low field and a high one.
use Prim.Native.Nat.{
  ℕ, zero, suc, ◌+◌, ◌-◌, ◌*◌, ◌/◌, ◌%◌, ◌^◌, ◌≤◌, ◌<◌, min, max, bit_and, bit_or, digits, bitwise,
  bit_and-bitwise, bit_or-bitwise,
}
use mathlib.Core.Path.{◌≡◌, refl, sym, ap, ap₂, ◌∙◌}
use native.Mathlib.Nat.{pow-suc}
use native.Mathlib.Omega.{arith}

module _ (z : ℕ → ℕ) (f : ℕ → ℕ → ℕ) where
  digits-zero : (n b : ℕ) → digits z f n 0 b ≡ z b
  digits-zero zero b = refl
  digits-zero (suc n) b = refl

  digits-fuel : (n m a b : ℕ) → a ≤ n → a ≤ m → digits z f n a b ≡ digits z f m a b
  digits-fuel n m zero b p q = digits-zero n b ∙ sym (digits-zero m b)
  digits-fuel zero m (suc a) b p q = absurd (omega arith)
  digits-fuel (suc n) zero (suc a) b p q = absurd (omega arith)
  digits-fuel (suc n) (suc m) (suc a) b p q =
      ap (λ (t : ℕ). t * 2 + f (suc a % 2) (b % 2))
        (digits-fuel n m (suc a / 2) (b / 2) (omega arith) (omega arith))

  bitwise_halves :
      (a b : ℕ)
      → bitwise z f (suc a) b ≡ bitwise z f (suc a / 2) (b / 2) * 2 + f (suc a % 2) (b % 2)
  bitwise_halves a b =
      ap (λ (t : ℕ). t * 2 + f (suc a % 2) (b % 2))
        (digits-fuel a (suc a / 2) (suc a / 2) (b / 2) (omega arith) (omega arith))

or_halves : (m n : ℕ) → bit_or m n ≡ bit_or (m / 2) (n / 2) * 2 + max (m % 2) (n % 2)
or_halves zero n = simp bit_or-bitwise (omega arith)
or_halves (suc m) n = simp bit_or-bitwise (bitwise_halves (λ d. d) max m n)

and_halves : (m n : ℕ) → bit_and m n ≡ bit_and (m / 2) (n / 2) * 2 + min (m % 2) (n % 2)
and_halves zero n = simp bit_and-bitwise (omega arith)
and_halves (suc m) n = simp bit_and-bitwise (bitwise_halves (λ d. 0) min m n)

pub zero-bit_or : (b : ℕ) → bit_or 0 b ≡ b
zero-bit_or b = bit_or-bitwise 0 b

bit_or-zero_below : (n a : ℕ) → a ≤ n → bit_or a 0 ≡ a
bit_or-zero_below n zero h = refl
bit_or-zero_below zero (suc a) h = absurd (omega arith)
bit_or-zero_below (suc n) (suc a) h =
    omega (arith, or_halves (suc a) 0, bit_or-zero_below n (suc a / 2) (omega arith))

pub bit_or-zero : (a : ℕ) → bit_or a 0 ≡ a
bit_or-zero a = bit_or-zero_below a a (omega arith)

mul-pow-suc : (q k : ℕ) → q * 2 ^ suc k ≡ q * 2 ^ k * 2
mul-pow-suc q k = omega (arith, ap (λ (t : ℕ). q * t) (pow-suc 2 k))

-- `high | low` and `low | high` are sums where `low` fits below `high`.
pub high-bit_or-low : (k q r : ℕ) → r < 2 ^ k → bit_or (q * 2 ^ k) r ≡ q * 2 ^ k + r
high-bit_or-low zero q r h = ground (arith, bit_or-zero (q * 1))
high-bit_or-low (suc k) q r h =
    ground (
      arith,
      or_halves (q * 2 ^ suc k) r,
      mul-pow-suc q k,
      pow-suc 2 k,
      high-bit_or-low k q (r / 2),
    )

pub low-bit_or-high : (k q r : ℕ) → r < 2 ^ k → bit_or r (q * 2 ^ k) ≡ q * 2 ^ k + r
low-bit_or-high zero q r h = ground (arith, zero-bit_or (q * 1))
low-bit_or-high (suc k) q r h =
    ground (
      arith,
      or_halves r (q * 2 ^ suc k),
      mul-pow-suc q k,
      pow-suc 2 k,
      low-bit_or-high k q (r / 2),
    )

and-zero_left : (b : ℕ) → bit_and 0 b ≡ 0
and-zero_left b = bit_and-bitwise 0 b

-- `low & (high + low)` keeps the whole of `low`.
pub low-bit_and_fields : (k q r : ℕ) → r < 2 ^ k → bit_and r (q * 2 ^ k + r) ≡ r
low-bit_and_fields zero q r h = ground (arith, and-zero_left (q * 1 + r))
low-bit_and_fields (suc k) q r h = ground (
  arith,
  and_halves r (q * 2 ^ suc k + r),
  mul-pow-suc q k,
  pow-suc 2 k,
  low-bit_and_fields k q (r / 2),
)

and-zero_below : (n a : ℕ) → a ≤ n → bit_and a 0 ≡ 0
and-zero_below n zero h = refl
and-zero_below zero (suc a) h = absurd (omega arith)
and-zero_below (suc n) (suc a) h =
    omega (arith, and_halves (suc a) 0, and-zero_below n (suc a / 2) (omega arith))

fields-bit_and-mask : (k q r : ℕ) → r < 2 ^ k → bit_and (q * 2 ^ k + r) (2 ^ k - 1) ≡ r
fields-bit_and-mask zero q r h =
    ground (arith, and-zero_below (q * 1 + r) (q * 1 + r) (omega arith))
fields-bit_and-mask (suc k) q r h = ground (
  arith,
  and_halves (q * 2 ^ suc k + r) (2 ^ suc k - 1),
  mul-pow-suc q k,
  pow-suc 2 k,
  fields-bit_and-mask k q (r / 2),
)

pub low_byte : (a : ℕ) → bit_and a 255 ≡ a % 256
low_byte a =
    ap (λ (t : ℕ). bit_and t 255) (omega arith)
    ∙ fields-bit_and-mask 8 (a / 256) (a % 256) (omega arith)

below_one : (r : ℕ) → r < 1 → r ≡ 0
below_one r h = omega arith

one_field : (p r : ℕ) → r < 1 → p * 1 + r ≡ p
one_field p r h = omega arith

-- `&` of two numbers, field by field.
pub fields-bit_and-fields :
    (k p q r s : ℕ)
    → r < 2 ^ k
    → s < 2 ^ k
    → bit_and (p * 2 ^ k + r) (q * 2 ^ k + s) ≡ bit_and p q * 2 ^ k + bit_and r s
fields-bit_and-fields zero p q r s h g = ground (
  arith,
  ap₂ bit_and (one_field p r h) (one_field q s g),
  and-zero_below 0 0,
  ap₂ bit_and (below_one r h) (below_one s g),
)
fields-bit_and-fields (suc k) p q r s h g = ground (
  arith,
  and_halves (p * 2 ^ suc k + r) (q * 2 ^ suc k + s),
  and_halves r s,
  mul-pow-suc p k,
  mul-pow-suc q k,
  mul-pow-suc (bit_and p q) k,
  pow-suc 2 k,
  fields-bit_and-fields k p q (r / 2) (s / 2),
)

pub bit_and-zero_right : (a : ℕ) → bit_and a 0 ≡ 0
bit_and-zero_right a = and-zero_below a a (omega arith)

pub bit_and-zero_left : (b : ℕ) → bit_and 0 b ≡ 0
bit_and-zero_left = and-zero_left

pub bit_and_self : (k a : ℕ) → a < 2 ^ k → bit_and a a ≡ a
bit_and_self k a h = ap (bit_and a) (omega arith) ∙ low-bit_and_fields k 0 a h

bit_and-le_below : (n a b : ℕ) → a ≤ n → bit_and a b ≤ a
bit_and-le_below n zero b h = omega (arith, and-zero_left b)
bit_and-le_below zero (suc a) b h = absurd (omega arith)
bit_and-le_below (suc n) (suc a) b h =
    omega (arith, and_halves (suc a) b, bit_and-le_below n (suc a / 2) (b / 2) (omega arith))

pub bit_and-le_left : (a b : ℕ) → bit_and a b ≤ a
bit_and-le_left a b = bit_and-le_below a a b (omega arith)

-- The masks of the source on a byte.
pub low_seven_bits : (b : ℕ) → b < 256 → bit_and b 127 ≡ b % 128
low_seven_bits b h =
    ap (λ (t : ℕ). bit_and t 127) (omega arith)
    ∙ fields-bit_and-mask 7 (b / 128) (b % 128) (omega arith)

one_bit : (q : ℕ) → q < 2 → bit_and q 1 ≡ q
one_bit zero h = refl
one_bit (suc zero) h = refl
one_bit (suc (suc q)) h = absurd (omega arith)

pub top_bit : (b : ℕ) → b < 256 → bit_and b 128 ≡ b / 128 * 128
top_bit b h =
    ap (λ (t : ℕ). bit_and t 128) (omega arith)
    ∙ fields-bit_and-fields 7 (b / 128) 1 (b % 128) 0 (omega arith) (omega arith)
    ∙ omega (arith, one_bit (b / 128), and-zero_below (b % 128) (b % 128))

pub set_top_bit : (b : ℕ) → b < 128 → bit_or b 128 ≡ b + 128
set_top_bit b h = low-bit_or-high 7 1 b h ∙ omega arith
