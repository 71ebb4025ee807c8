-- ===== src/Key/Equality.antt =====
-- The equality of keys, for the two key types.
use gnat.Base.{ℕ, ◌≡◌, refl, List, [], ◌∷◌, Bool, true, ◌==◌, ==_iff, ==_self, Bool-cases, inl, inr}
use gnat.DataStore.Entries.{IsEquality}
use gnat.Key.{integer_keys, text_keys}
use gnat.Status.{same_text}
use mathlib.Core.Path.{ap₂}

pub same_text_self : (text : List ℕ) → same_text text text ≡ true
unfolding same_text
same_text_self [] = refl
same_text_self (x ∷ xs) = rw (==_self x) (same_text_self xs)

pub same_text_sound : (xs ys : List ℕ) → same_text xs ys ≡ true → xs ≡ ys
unfolding same_text
same_text_sound [] [] h = refl
same_text_sound [] (y ∷ ys) h = cc h
same_text_sound (x ∷ xs) [] h = cc h
same_text_sound (x ∷ xs) (y ∷ ys) h = elim (Bool-cases (x == y)) [
  | inl same ↦ ap₂ ◌∷◌ ((==_iff x y).0 same) (same_text_sound xs ys (rw same at h))
  | inr differ ↦ cc (differ, h)
]

pub text_keys-IsEquality : IsEquality text_keys.same
text_keys-IsEquality = record { self = same_text_self; sound = same_text_sound }

pub integer_keys-IsEquality : (char_signed : Bool) → IsEquality (integer_keys char_signed).same
integer_keys-IsEquality char_signed = record { self = ==_self; sound = λ k l e. (==_iff k l).0 e }
