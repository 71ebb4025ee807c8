-- ===== src/Log/Printing.antt =====
-- What serial_printf and LogHex print, with a vsnprintf that does what C documents.
use gnat.Base.{
  ℕ, zero, suc, ◌+◌, ◌≤◌, ◌<◌, ◌≡◌, refl, ap, arith, List, [], ◌∷◌, ◌++◌, All, some, length, drop,
  take, set, ltb-true, ltb-false, All-take, length-append, length-take, length-set, length-drop,
  take-append,
}
use gnat.Base.Outcome.{done, undefined, step, ◌>>=◌}
use gnat.Fields.{int_max}
use gnat.Key.{strlen}
use gnat.Key.Decoding.{IsChar, strlen-append}
use gnat.Log.{Arguments, Printers, log_buffer_size, print_buffer, end_buffer, serial_printf}
use mathlib.Core.List.{append_assoc}

-- `text` is what the arguments stand for. vsnprintf stores as much of it as fits in front of a zero,
-- and returns its whole length.
pub record IsVsnprintf {W : Type 0} (printers : Printers W) (text : Arguments → List ℕ)
    : Type 0 where
  pub stores :
      (n : ℕ) (a : Arguments)
      → length (text a) ≤ int_max
      → (printers.vsnprintf (suc n) a).bytes ≡ take n (text a) ++ 0 ∷ []
  pub counts :
      (n : ℕ) (a : Arguments)
      → length (text a) ≤ int_max
      → (printers.vsnprintf n a).written ≡ some (length (text a))
  pub chars : (a : Arguments) → All IsChar (text a)

-- A zero at or behind the end of a text leaves the text.
end-text :
    (xs rest : List ℕ) (i : ℕ)
    → length xs ≤ i
    → (rest' : List ℕ) × (set (xs ++ 0 ∷ rest) i 0 ≡ xs ++ 0 ∷ rest') × (length rest' ≡ length rest)
end-text [] rest zero h = (rest, refl, refl)
end-text [] rest (suc i) h = (set rest i 0, refl, length-set rest i 0)
end-text (x ∷ xs) rest zero h = absurd (omega arith)
end-text (x ∷ xs) rest (suc i) h =
    let (rest', e, same) = end-text xs rest i (omega arith) in (rest', ap (◌∷◌ x) e, same)

strlen_zero : (rest : List ℕ) → strlen (0 ∷ rest) ≡ some 0
unfolding strlen
strlen_zero rest = refl

module _ {W : Type 0} (printers : Printers W) (text : Arguments → List ℕ)
    (vsnprintf : IsVsnprintf printers text) where
  print_buffer-text :
      (xs rest : List ℕ) (w : W)
      → All IsChar xs
      → print_buffer printers (xs ++ 0 ∷ rest, w)
        ≡ done (tt, (xs ++ 0 ∷ rest, printers.println xs w))
  unfolding print_buffer
  print_buffer-text xs rest w h =
      rw
        (
          strlen-append xs (0 ∷ rest) {k = 0} h (strlen_zero rest),
          print_buffer,
          take-append (length xs + 0) xs (0 ∷ rest) (omega arith),
        )
        refl

  -- With a vsnprintf that does what C documents and a log buffer of 128 bytes, serial_printf of a
  -- text of less than 128 characters prints one line, the first 126 characters of the text, and
  -- leaves a log buffer of 128 bytes.
  pub serial_printf-prints :
      (a : Arguments) (buffer : List ℕ) (w : W)
      → length (text a) < log_buffer_size
      → length buffer ≡ log_buffer_size
      → (buffer' : List ℕ) × (serial_printf printers a (buffer, w)
          ≡ done (tt, (buffer', printers.println (take 126 (text a)) w)))
        × (length buffer' ≡ log_buffer_size)
  unfolding serial_printf
  serial_printf-prints a buffer w fits whole =
      let xs : List ℕ = take 126 (text a) in
      let rest : List ℕ = drop (length (xs ++ 0 ∷ [])) buffer in
      let (rest', ended, same) =
        end-text xs rest (length (text a)) (omega (arith, length-take 126 (text a))) in
      let room : length (xs ++ 0 ∷ rest) ≡ log_buffer_size = omega (
        arith,
        length-append xs (0 ∷ rest),
        length-append xs (0 ∷ []),
        length-drop (length (xs ++ 0 ∷ [])) buffer,
        length-take 126 (text a),
      ) in
      (
        xs ++ 0 ∷ rest',
        rw
            (
              vsnprintf.stores 126 a (omega arith),
              vsnprintf.counts 127 a (omega arith),
              append_assoc xs (0 ∷ []) rest,
            )
            (step _ _
              (rw (ltb-true (length (text a)) (length (xs ++ 0 ∷ rest)) (omega arith), ended) refl)
              (print_buffer-text xs rest' w (All-take IsChar 126 (text a) (vsnprintf.chars a)))),
        omega (arith, length-append xs (0 ∷ rest'), length-append xs (0 ∷ rest)),
      )

  -- With a vsnprintf that does what C documents and a log buffer of 128 bytes, serial_printf of a
  -- text of 128 characters or more, up to the largest int, writes behind the log buffer, which is
  -- undefined.
  pub serial_printf-overflow :
      (a : Arguments) (buffer : List ℕ) (w : W)
      → log_buffer_size ≤ length (text a)
      → length (text a) ≤ int_max
      → length buffer ≡ log_buffer_size
      → serial_printf printers a (buffer, w) ≡ undefined
  unfolding serial_printf end_buffer ◌>>=◌
  serial_printf-overflow a buffer w long int whole =
      let xs : List ℕ = take 126 (text a) in
      let rest : List ℕ = drop (length (xs ++ 0 ∷ [])) buffer in
      let room : length (xs ++ 0 ∷ rest) ≡ log_buffer_size = omega (
        arith,
        length-append xs (0 ∷ rest),
        length-append xs (0 ∷ []),
        length-drop (length (xs ++ 0 ∷ [])) buffer,
        length-take 126 (text a),
      ) in
      rw
        (
          vsnprintf.stores 126 a int,
          vsnprintf.counts 127 a int,
          append_assoc xs (0 ∷ []) rest,
          ltb-false (length (text a)) (length (xs ++ 0 ∷ rest)) (omega arith),
        )
        refl

  -- One line after the other.
  abbrev pub println_all : List (List ℕ) → W → W
  println_all [] w = w
  println_all (line ∷ lines) w = println_all lines (printers.println line w)
