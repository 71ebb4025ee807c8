-- ===== src/Status.antt =====
-- class Status (include/gnat/status.h). The text of a message is the list of its characters.
use gnat.Base.{ℕ, List, [], ◌∷◌, Bool, true, false, ◌&&◌, Option, none, some, ◌==◌, if◌then◌else◌}
use Prim.Native.Char.{code}
use Prim.Native.String.{String}

pub data Code : Type 0 where
  ok failure : Code

-- A null `message_` is `none`.
pub record Status : Type 0 where
  pub code_ : Code
  pub message_ : Option (List ℕ)

abbrev pub codes : String → List ℕ
codes String.[] = []
codes (String.◌∷◌ c s) = code c ∷ codes s

-- Status::Ok and Status::Failure.
abbrev pub ok_status : Status
ok_status = record { code_ = ok; message_ = none }

abbrev pub failure_status : String → Status
failure_status text = record { code_ = failure; message_ = some (codes text) }

-- `message()`: kEmpty for a null pointer.
unfoldable pub message : Status → List ℕ
message s = elim s.message_ [ none ↦ [] | some text ↦ text ]

unfoldable pub is_ok : Status → Bool
is_ok s = elim s.code_ [ ok ↦ true | failure ↦ false ]

-- Equality of std::string.
unfoldable pub same_text : List ℕ → List ℕ → Bool
same_text [] [] = true
same_text [] (y ∷ ys) = false
same_text (x ∷ xs) [] = false
same_text (x ∷ xs) (y ∷ ys) = x == y && same_text xs ys

abbrev same_code : Code → Code → Bool
same_code ok ok = true
same_code failure failure = true
same_code _ _ = false

-- `operator==`.
unfoldable pub same_status : Status → Status → Bool
unfolding same_text message
same_status s t = if same_code s.code_ t.code_ then same_text (message s) (message t) else false
