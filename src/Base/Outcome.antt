-- ===== src/Base/Outcome.antt =====
-- What running a piece of the program can end in, and programs over an explicit state.
use mathlib.Core.Path.{◌≡◌, refl}
use mathlib.Core.Logic.{◌≢◌}
use mathlib.Core.Bool.{Bool, true, false}
use mathlib.Core.Option.{Option, none, some}
use gnat.Base.Tests.{if◌then◌else◌}

-- `aborted` is a failed `assert`, `thrown` an exception that nothing catches, `undefined` a run
-- that the C++ standard leaves undefined, and `out_of_fuel` no result: a loop used up its fuel.
pub data Outcome {ℓ} (A : Type ℓ) : Type ℓ where
  done : A → Outcome A
  aborted thrown undefined out_of_fuel : Outcome A

-- A program over a state; a value that is lost on the way loses the state too.
abbrev pub Prog {ℓ} : Type ℓ → Type ℓ → Type ℓ
Prog S A = S → Outcome (A × S)

module _ {ℓ} {A B : Type ℓ} where
  unfoldable pub and_then : Outcome A → (A → Outcome B) → Outcome B
  and_then (done a) f = f a
  and_then aborted f = aborted
  and_then thrown f = thrown
  and_then undefined f = undefined
  and_then out_of_fuel f = out_of_fuel

  pub and_then-done :
      (m : Outcome A) (f : A → Outcome B) {a : A} {r : Outcome B}
      → m ≡ done a
      → f a ≡ r
      → and_then m f ≡ r
  unfolding and_then
  and_then-done m f p q = rw p q

module _ {ℓ} {S A : Type ℓ} where
  abbrev pub pure : A → Prog S A
  pure a s = done (a, s)

  abbrev pub raise : Outcome (A × S) → Prog S A
  raise e s = e

  -- A branch that is taken ends if both ends do.
  pub if-ends :
      (b : Bool) (m n : Prog S A) {s : S}
      → (b ≡ true → m s ≢ out_of_fuel)
      → (b ≡ false → n s ≢ out_of_fuel)
      → (if b then m else n) s ≢ out_of_fuel
  if-ends true m n h k = h refl
  if-ends false m n h k = k refl

module _ {ℓ} {S A B : Type ℓ} where
  infixl 5 ◌>>=◌ ◌>>◌
  unfoldable pub ◌>>=◌ : Prog S A → (A → Prog S B) → Prog S B
  unfolding and_then
  ◌>>=◌ m f s = and_then (m s) (λ (a, t). f a t)

  abbrev pub ◌>>◌ : Prog S A → Prog S B → Prog S B
  m >> k = m >>= λ _. k

  -- One step of a run: the rest goes on from the value and the state of the first part.
  pub step :
      (m : Prog S A) (f : A → Prog S B) {s t : S} {a : A} {r : Outcome (B × S)}
      → m s ≡ done (a, t)
      → f a t ≡ r
      → (m >>= f) s ≡ r
  unfolding ◌>>=◌
  step m f p q = rw p q

  pub ends :
      (m : Prog S A) (f : A → Prog S B) {s : S}
      → m s ≢ out_of_fuel
      → ((a : A) (t : S) → f a t ≢ out_of_fuel)
      → (m >>= f) s ≢ out_of_fuel
  unfolding ◌>>=◌
  ends m f {s} h k =
      elim (m s) as (λ o. o ≢ out_of_fuel → and_then o (λ (a, t). f a t) ≢ out_of_fuel) [
        | done x ↦ λ _. k x.0 x.1
        | aborted ↦ λ _ e. cc
        | thrown ↦ λ _ e. cc
        | undefined ↦ λ _ e. cc
        | out_of_fuel ↦ λ g. absurd (g refl)
      ]
        h

-- Fallible reading: `none` is the `return {}` or `return false` of the source, which ends the
-- function at once.
module _ {ℓ} {S A B : Type ℓ} where
  unfoldable pub or_return : (A → Prog S (Option B)) → Option A → Prog S (Option B)
  or_return f none = pure none
  or_return f (some a) = f a

  or_return-ends :
      (f : A → Prog S (Option B))
      → ((a : A) (t : S) → f a t ≢ out_of_fuel)
      → (o : Option A) (t : S) → or_return f o t ≢ out_of_fuel
  unfolding or_return
  or_return-ends f k none t e = cc
  or_return-ends f k (some a) t e = k a t e

  infixl 5 ◌>>=?◌
  unfoldable pub ◌>>=?◌ : Prog S (Option A) → (A → Prog S (Option B)) → Prog S (Option B)
  unfolding or_return ◌>>=◌
  m >>=? f = m >>= or_return f

  pub step? :
      (m : Prog S (Option A)) (f : A → Prog S (Option B)) {s t : S} {a : A}
      {r : Outcome (Option B × S)}
      → m s ≡ done (some a, t)
      → f a t ≡ r
      → (m >>=? f) s ≡ r
  unfolding ◌>>=?◌
  step? m f p q = rw p q

  pub fail? :
      (m : Prog S (Option A)) (f : A → Prog S (Option B)) {s : S}
      → m s ≡ aborted
      → (m >>=? f) s ≡ aborted
  unfolding ◌>>=?◌
  fail? m f p = rw p

  pub ends? :
      (m : Prog S (Option A)) (f : A → Prog S (Option B)) {s : S}
      → m s ≢ out_of_fuel
      → ((a : A) (t : S) → f a t ≢ out_of_fuel)
      → (m >>=? f) s ≢ out_of_fuel
  unfolding ◌>>=?◌
  ends? m f h k = ends m (or_return f) h (or_return-ends f k)
