-- ===== src/Base/Ensures.antt =====
-- What holds of a run that ends: a condition on the value and the state, one rule for each way to put
-- programs together. `stuck` is what a run out of fuel proves: `Unit` where it is let pass, and the
-- empty type where it must not happen.
use mathlib.Core.Path.{◌≡◌, refl}
use mathlib.Core.Bool.{Bool, true, false}
use mathlib.Core.Option.{Option, none, some}
use gnat.Base.Tests.{if◌then◌else◌}
use gnat.Base.Outcome.{
  Outcome, done, aborted, thrown, undefined, out_of_fuel, Prog, and_then, or_return, ◌>>=◌, ◌>>=?◌,
}

-- No condition.
abbrev pub Any {ℓ} : {A : Type ℓ} → A → Type 0
Any a = Unit {0}

module _ (stuck : Type 0) where
  unfoldable pub Ensures {ℓ} : {A : Type ℓ} → (A → Type 0) → Outcome A → Type 0
  Ensures P (done a) = P a
  Ensures P aborted = Unit
  Ensures P thrown = Unit
  Ensures P undefined = Unit
  Ensures P out_of_fuel = stuck

  module _ {ℓ} {A : Type ℓ} where
    pub Ensures-done : (P : A → Type 0) {a : A} → P a → Ensures P (done a)
    unfolding Ensures
    Ensures-done P h = h

    pub Ensures-aborted : (P : A → Type 0) → Ensures P aborted
    unfolding Ensures
    Ensures-aborted P = tt

    pub Ensures-undefined : (P : A → Type 0) → Ensures P undefined
    unfolding Ensures
    Ensures-undefined P = tt

    pub Ensures-weaken :
        {P Q : A → Type 0} (o : Outcome A) → ((a : A) → Q a → P a) → Ensures Q o → Ensures P o
    unfolding Ensures
    Ensures-weaken (done a) f h = f a h
    Ensures-weaken aborted f h = tt
    Ensures-weaken thrown f h = tt
    Ensures-weaken undefined f h = tt
    Ensures-weaken out_of_fuel f h = h

    pub Ensures-if :
        (P : A → Type 0) (b : Bool) (m n : Outcome A)
        → (b ≡ true → Ensures P m)
        → (b ≡ false → Ensures P n)
        → Ensures P (if b then m else n)
    Ensures-if P true m n h k = h refl
    Ensures-if P false m n h k = k refl

    -- For a program that is chosen by a test.
    pub Ensures-branch {κ} :
        {S : Type κ} (P : A → Type 0) (b : Bool) (m n : S → Outcome A) (s : S)
        → (b ≡ true → Ensures P (m s))
        → (b ≡ false → Ensures P (n s))
        → Ensures P ((if b then m else n) s)
    Ensures-branch P true m n s h k = h refl
    Ensures-branch P false m n s h k = k refl

    -- What is known of a run: where it may run out of fuel, and of its results.
    pub Ensures-run :
        (P : A → Type 0) (o : Outcome A)
        → (o ≡ out_of_fuel → stuck)
        → ((a : A) → o ≡ done a → P a)
        → Ensures P o
    unfolding Ensures
    Ensures-run P (done a) h k = k a refl
    Ensures-run P aborted h k = tt
    Ensures-run P thrown h k = tt
    Ensures-run P undefined h k = tt
    Ensures-run P out_of_fuel h k = h refl

    pub Ensures-stuck : (P : A → Type 0) (o : Outcome A) → Ensures P o → o ≡ out_of_fuel → stuck
    unfolding Ensures
    Ensures-stuck P o h e = rw e at h

    pub Ensures-equal : (P : A → Type 0) {a : A} (o : Outcome A) → o ≡ done a → Ensures P o → P a
    unfolding Ensures
    Ensures-equal P o e h = rw e at h

  pub Ensures-and_then {ℓ} :
      {A B : Type ℓ} (Q : A → Type 0) (P : B → Type 0) (m : Outcome A) (f : A → Outcome B)
      → Ensures Q m
      → ((a : A) → Q a → Ensures P (f a))
      → Ensures P (and_then m f)
  unfolding Ensures and_then
  Ensures-and_then Q P (done a) f h k = k a h
  Ensures-and_then Q P aborted f h k = tt
  Ensures-and_then Q P thrown f h k = tt
  Ensures-and_then Q P undefined f h k = tt
  Ensures-and_then Q P out_of_fuel f h k = h

  module _ {ℓ} {S A B : Type ℓ} (Q : A × S → Type 0) where
    pub Ensures-bind :
        (P : B × S → Type 0) (m : Prog S A) (f : A → Prog S B) (s : S)
        → Ensures Q (m s)
        → ((a : A) (t : S) → Q (a, t) → Ensures P (f a t))
        → Ensures P ((m >>= f) s)
    unfolding ◌>>=◌
    Ensures-bind P m f s h k = Ensures-and_then Q P _ _ h (λ (a, t) q. k a t q)

  module _ {ℓ} {S A B : Type ℓ} (Q : Option A × S → Type 0) where
    pub Ensures-bind? :
        (P : Option B × S → Type 0) (m : Prog S (Option A)) (f : A → Prog S (Option B)) (s : S)
        → Ensures Q (m s)
        → ((t : S) → Q (none, t) → P (none, t))
        → ((a : A) (t : S) → Q (some a, t) → Ensures P (f a t))
        → Ensures P ((m >>=? f) s)
    unfolding ◌>>=?◌ or_return Ensures
    Ensures-bind? P m f s h n k = Ensures-bind Q P m (or_return f) s h λ a t q.
        elim a as (λ o. Q (o, t) → Ensures P (or_return f o t)) [ none ↦ n t | some x ↦ k x t ] q
