-- ===== src/Prelude/Yields.antt =====
-- What the success of an action tells: from an object in `P`, the result and the object behind it are
-- in `Q`.
use mathlib.Core.Path.{◌≡◌, refl, subst}
use mathlib.Core.Bool.{Bool, true, false}
use filecloud.Prelude.Tests.{if◌then◌else◌}
use filecloud.Prelude.Outcome.{Error, Result, ok, err}
use filecloud.Prelude.Action.{Action, pure, fail, lift, gets, modify, guard, ◌>>=◌, ◌>>◌, continue}

pub record Yields {S A : Type 0} (P : S → Type 0) (act : Action S A) (Q : A → S → Type 0)
    : Type 0 where
  pub at : (s t : S) (a : A) → P s → act s ≡ ok (a, t) → Q a t

module _ {S A : Type 0} {P : S → Type 0} {Q : A → S → Type 0} where
  pub Yields-pure : (a : A) → ((s : S) → P s → Q a s) → Yields P (pure a) Q
  unfolding pure
  Yields-pure a k = record {
    at =
        λ s t b p e. let q : ◌≡◌ {A = A × S} (a, s) (b, t) = cc in subst (λ x. Q x.0 x.1) q (k s p);
  }

  pub Yields-fail : (e : Error) → Yields P (fail e) Q
  unfolding fail
  Yields-fail e = record { at = λ s t b p h. cc }

  pub Yields-if :
      (b : Bool) (m n : Action S A)
      → (b ≡ true → Yields P m Q)
      → (b ≡ false → Yields P n Q)
      → Yields P (if b then m else n) Q
  Yields-if true m n hm hn = hm refl
  Yields-if false m n hm hn = hn refl

module _ {S : Type 0} {P : S → Type 0} {Q : Unit {0} → S → Type 0} where
  pub Yields-modify : (f : S → S) → ((s : S) → P s → Q tt (f s)) → Yields P (modify f) Q
  unfolding modify
  Yields-modify f k = record {
    at = λ s t a p e.
        let q : ◌≡◌ {A = Unit {0} × S} (tt, f s) (a, t) = cc in subst (λ x. Q x.0 x.1) q (k s p);
  }

module _ {S A B : Type 0} {R : B → S → Type 0} where
  through :
      {Q : A → S → Type 0} (o : Result (A × S)) (f : A → Action S B) (t : S) (b : B)
      → ((a : A) (u : S) → o ≡ ok (a, u) → Q a u)
      → ((a : A) → Yields (Q a) (f a) R)
      → continue f o ≡ ok (b, t)
      → R b t
  through (ok (a, u)) f t b first next e = (next a).at u t b (first a u refl) e
  through (err x) f t b first next e = cc

module _ {S A B : Type 0} {P : S → Type 0} {R : B → S → Type 0} where
  pub Yields-bind :
      {Q : A → S → Type 0} (m : Action S A) (f : A → Action S B)
      → Yields P m Q
      → ((a : A) → Yields (Q a) (f a) R)
      → Yields P (m >>= f) R
  unfolding ◌>>=◌
  Yields-bind m f h k = record {
    at = λ s t b p e. through (m s) f t b (λ a u q. h.at s u a p q) k e;
  }

  -- Behind an outcome that does not touch the object, its success is known.
  pub Yields-lift :
      (r : Result A) (f : A → Action S B)
      → ((a : A) → r ≡ ok a → Yields P (f a) R)
      → Yields P (lift r >>= f) R
  unfolding ◌>>=◌ lift
  Yields-lift (ok a) f k = record { at = (k a refl).at }
  Yields-lift (err x) f k = record { at = λ s t b p e. cc }

  -- Behind a look at the object, what was seen is known.
  pub Yields-look :
      (g : S → A) (f : A → Action S B)
      → ((a : A) → Yields (λ s. P s × (g s ≡ a)) (f a) R)
      → Yields P (gets g >>= f) R
  unfolding ◌>>=◌ gets
  Yields-look g f k = record { at = λ s t b p e. (k (g s)).at s t b (p, refl) e }

module _ {S B : Type 0} {P : S → Type 0} {R : B → S → Type 0} where
  pub Yields-guard :
      (test : Bool) (e : Error) (m : Action S B)
      → (test ≡ true → Yields P m R)
      → Yields P (guard test e >> m) R
  unfolding ◌>>=◌ guard
  Yields-guard true e m k = record { at = (k refl).at }
  Yields-guard false e m k = record { at = λ s t b p h. cc }

  -- What every object in `P` tells.
  pub Yields-known :
      {X : Type 0} (m : Action S B) → ((s : S) → P s → X) → (X → Yields P m R) → Yields P m R
  Yields-known m learn h = record { at = λ s t b p e. (h (learn s p)).at s t b p e }

  pub Yields-weaken :
      {P' : S → Type 0} {R' : B → S → Type 0} (m : Action S B)
      → ((s : S) → P' s → P s)
      → ((b : B) (s : S) → R b s → R' b s)
      → Yields P m R
      → Yields P' m R'
  Yields-weaken m pre post h = record { at = λ s t b p e. post b t (h.at s t b (pre s p) e) }

-- A guard at the end.
pub Yields-test :
    {S : Type 0} {P : S → Type 0} {Q : Unit {0} → S → Type 0} (test : Bool) (e : Error)
    → ((s : S) → P s → test ≡ true → Q tt s)
    → Yields P (guard test e) Q
unfolding guard
Yields-test {S} {P} {Q} true e k = record {
  at = λ s t a p h.
      let q : ◌≡◌ {A = Unit {0} × S} (tt, s) (a, t) = cc in subst (λ x. Q x.0 x.1) q (k s p refl);
}
Yields-test false e k = record { at = λ s t a p h. cc }
