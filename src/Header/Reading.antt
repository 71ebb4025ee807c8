-- ===== src/Header/Reading.antt =====
-- FixedHeader::ReadFrom on a client that delivers a fixed header.
use gnat.Base.{ℕ, ◌^◌, ◌<◌, ◌≡◌, refl, List, ◌∷◌, ◌++◌, Option, some}
use gnat.Base.Outcome.{done, Prog, step?}
use gnat.Fields.Channel.{Delivers, read_bytes-one}
use gnat.Fields.Variable.{encoding, read_variable_byte_integer-encoding}
use gnat.Header.{read_fixed_header}

pub read_fixed_header-encoding :
    {S : Type 0} (read : ℕ → Prog S (Option (List ℕ))) (waiting : List ℕ → S)
    (delivers : Delivers read waiting) (control size : ℕ) (rest : List ℕ)
    → size < 2 ^ 28
    → read_fixed_header read (waiting (control ∷ encoding 3 size ++ rest))
      ≡ done (some (record { control = control; remaining_size = size }), waiting rest)
unfolding read_fixed_header
read_fixed_header-encoding read waiting delivers control size rest h =
    step? _ _ (read_bytes-one read waiting delivers control 0 _)
      (step? _ _ (read_variable_byte_integer-encoding read waiting delivers size rest h) refl)
