-- ===== src/Examples/Logging.antt =====
-- A console that keeps its lines, with a printf that knows a byte in hexadecimal and a run of letters.
use gnat.Base.{
  ℕ, zero, suc, ◌+◌, ◌<◌, ◌/◌, ◌%◌, ◌≡◌, refl, arith, List, [], ◌∷◌, ◌++◌, All, true, some, ltb,
  if◌then◌else◌, length, take, replicate,
}
use gnat.Base.Outcome.{undefined}
use gnat.Key.Decoding.{IsChar}
use gnat.Log.{Arguments, Printers, Config, serial_printf}
use gnat.Log.Printing.{IsVsnprintf, serial_printf-overflow}

-- A digit of a byte.
abbrev digit : ℕ → ℕ
digit n = if ltb n 10 then n + 48 else n % 16 + 55

abbrev digits : ℕ → List ℕ
digits b = digit (b / 16) ∷ digit (b % 16) ∷ []

-- No value is the end of a line, one is a byte, and with more the first counts letters.
abbrev shown : List ℕ → List ℕ
shown [] = 10 ∷ []
shown (b ∷ []) = digits (b % 256)
shown (n ∷ m ∷ values) = replicate n b'a'

abbrev text : Arguments → List ℕ
text a = shown a.values

abbrev console : Printers (List (List ℕ))
console = record {
  vsnprintf = λ n a. record {
    bytes = elim n [ zero ↦ [] | suc m ↦ take m (text a) ++ 0 ∷ [] ];
    written = some (length (text a));
  };
  println = λ line lines. lines ++ line ∷ [];
  printf = λ a lines. lines ++ text a ∷ [];
}

digit-IsChar : (n : ℕ) → n < 16 → IsChar (digit n)
digit-IsChar n h = record { pos = ground arith; byte = ground arith }

letters-IsChar : (n : ℕ) → All IsChar (replicate n b'a')
letters-IsChar zero = tt
letters-IsChar (suc n) = (record { pos = omega arith; byte = omega arith }, letters-IsChar n)

shown-IsChar : (values : List ℕ) → All IsChar (shown values)
shown-IsChar [] = (record { pos = omega arith; byte = omega arith }, tt)
shown-IsChar (b ∷ []) = (digit-IsChar _ (omega arith), (digit-IsChar _ (omega arith), tt))
shown-IsChar (n ∷ m ∷ values) = letters-IsChar n

console-IsVsnprintf : IsVsnprintf console text
console-IsVsnprintf = record {
  stores = λ n a h. refl;
  counts = λ n a h. refl;
  chars = λ a. shown-IsChar a.values;
}

-- As many letters as the first value says.
abbrev letters : ℕ → Arguments
letters n = record { format = b'a' ∷ []; values = n ∷ 0 ∷ [] }

abbrev empty_log : List ℕ
empty_log = replicate 128 0

serial_printf-overflow_example : serial_printf console (letters 128) (empty_log, []) ≡ undefined
serial_printf-overflow_example =
    serial_printf-overflow console text console-IsVsnprintf (letters 128) empty_log [] (omega arith)
      (omega arith) refl

abbrev arduino : Config
arduino = record { arduino = true; level = 1 }
