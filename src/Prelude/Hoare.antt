-- ===== src/Prelude/Hoare.antt =====
-- What an action needs of the object and what it leaves: from an object in `P` it ends in an error of
-- the program, or with a result and an object in `Q`.
use mathlib.Core.Path.{◌≡◌, refl, ap}
use mathlib.Core.Logic.{◌≢◌}
use mathlib.Core.Bool.{Bool, true, false}
use filecloud.Prelude.Tests.{if◌then◌else◌}
use filecloud.Prelude.Outcome.{Error, Result, ok, err, out_of_fuel}
use filecloud.Prelude.Action.{Action, pure, fail, lift, gets, modify, guard, ◌>>=◌, ◌>>◌, continue}

abbrev pub Meets : {S A : Type 0} → (A → S → Type 0) → Result (A × S) → Type 0
Meets Q (ok (a, t)) = Q a t
Meets Q (err e) = e ≢ out_of_fuel

pub record Runs {S A : Type 0} (P : S → Type 0) (act : Action S A) (Q : A → S → Type 0)
    : Type 0 where
  pub at : (s : S) → P s → Meets Q (act s)

module _ {S A B : Type 0} (Q : A → S → Type 0) (R : B → S → Type 0) where
  pub continue-meets :
      (o : Result (A × S)) (f : A → Action S B)
      → Meets Q o
      → ((a : A) (t : S) → o ≡ ok (a, t) → Q a t → Meets R (f a t))
      → Meets R (continue f o)
  continue-meets (ok (a, t)) f h k = k a t refl h
  continue-meets (err e) f h k = h

module _ {S A : Type 0} {P : S → Type 0} {Q : A → S → Type 0} where
  pub Runs-pure : (a : A) → ((s : S) → P s → Q a s) → Runs P (pure a) Q
  unfolding pure
  Runs-pure a k = record { at = k }

  pub Runs-gets : (f : S → A) → ((s : S) → P s → Q (f s) s) → Runs P (gets f) Q
  unfolding gets
  Runs-gets f k = record { at = k }

  pub Runs-fail : (e : Error) → e ≢ out_of_fuel → Runs P (fail e) Q
  unfolding fail
  Runs-fail e n = record { at = λ s h. n }

  pub Runs-if :
      (b : Bool) (m n : Action S A)
      → (b ≡ true → Runs P m Q)
      → (b ≡ false → Runs P n Q)
      → Runs P (if b then m else n) Q
  Runs-if true m n hm hn = hm refl
  Runs-if false m n hm hn = hn refl

  -- What every object in `P` tells.
  pub Runs-known :
      (X : Type 0) (m : Action S A) → ((s : S) → P s → X) → (X → Runs P m Q) → Runs P m Q
  Runs-known X m learn h = record { at = λ s p. (h (learn s p)).at s p }

module _ {S : Type 0} {P : S → Type 0} {Q : Unit {0} → S → Type 0} where
  pub Runs-modify : (f : S → S) → ((s : S) → P s → Q tt (f s)) → Runs P (modify f) Q
  unfolding modify
  Runs-modify f k = record { at = k }

module _ {S A B : Type 0} {P : S → Type 0} {R : B → S → Type 0} where
  pub Runs-bind :
      {Q : A → S → Type 0} (m : Action S A) (f : A → Action S B)
      → Runs P m Q
      → ((a : A) → Runs (Q a) (f a) R)
      → Runs P (m >>= f) R
  unfolding ◌>>=◌
  Runs-bind {Q} m f h k = record {
    at = λ s p. continue-meets Q R (m s) f (h.at s p) (λ a t e. (k a).at t);
  }

  -- Behind an outcome that does not touch the object, its success is known.
  pub Runs-lift :
      (r : Result A) (f : A → Action S B)
      → r ≢ err out_of_fuel
      → ((a : A) → r ≡ ok a → Runs P (f a) R)
      → Runs P (lift r >>= f) R
  unfolding ◌>>=◌ lift
  Runs-lift (ok a) f n k = record { at = (k a refl).at }
  Runs-lift (err e) f n k = record { at = λ s p h. n (ap err h) }

  -- Behind a look at the object, what was seen is known.
  pub Runs-look :
      (g : S → A) (f : A → Action S B)
      → ((a : A) → Runs (λ s. P s × (g s ≡ a)) (f a) R)
      → Runs P (gets g >>= f) R
  unfolding ◌>>=◌ gets
  Runs-look g f k = record { at = λ s p. (k (g s)).at s (p, refl) }

pub Runs-weaken :
    {S A : Type 0} {P P' : S → Type 0} {Q Q' : A → S → Type 0} (m : Action S A)
    → ((s : S) → P' s → P s)
    → ((a : A) (s : S) → Q a s → Q' a s)
    → Runs P m Q
    → Runs P' m Q'
Runs-weaken {S} {A} {P} {P'} {Q} {Q'} m pre post h = record {
  at = λ s p. weakened (m s) (h.at s (pre s p));
}
  where
    weakened : (o : Result (A × S)) → Meets Q o → Meets Q' o
    weakened (ok (a, t)) q = post a t q
    weakened (err e) n = n

pub Runs-guard :
    {S B : Type 0} {P : S → Type 0} {R : B → S → Type 0} (test : Bool) (e : Error) (m : Action S B)
    → e ≢ out_of_fuel
    → (test ≡ true → Runs P m R)
    → Runs P (guard test e >> m) R
unfolding ◌>>=◌ guard
Runs-guard true e m n k = record { at = (k refl).at }
Runs-guard false e m n k = record { at = λ s p h. n h }

-- A guard at the end.
pub Runs-test :
    {S : Type 0} {P : S → Type 0} {Q : Unit {0} → S → Type 0} (test : Bool) (e : Error)
    → e ≢ out_of_fuel
    → ((s : S) → P s → Q tt s)
    → Runs P (guard test e) Q
unfolding guard
Runs-test true e n k = record { at = k }
Runs-test false e n k = record { at = λ s p. n }
