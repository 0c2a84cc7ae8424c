-- ===== src/Prelude/Action.antt =====
-- Methods that change an object and may fail: a function from the object to an error, or to a result
-- and the object behind the call. What a failing method has changed is dropped, since every caller
-- gives up the object with the error.
use mathlib.Core.Path.{◌≡◌, refl, subst}
use mathlib.Core.Logic.{◌≢◌}
use mathlib.Core.Bool.{Bool, true, false}
use mathlib.Core.List.{List, [], ◌∷◌}
use filecloud.Prelude.Tests.{if◌then◌else◌}
use filecloud.Prelude.Outcome.{Error, Result, ok, err, out_of_fuel}

abbrev pub Action : Type 0 → Type 0 → Type 0
Action S A = S → Result (A × S)

module _ {S A : Type 0} where
  unfoldable pub pure : A → Action S A
  pure a s = ok (a, s)

  unfoldable pub fail : Error → Action S A
  fail e s = err e

  -- An outcome of a function that does not touch the object.
  unfoldable pub lift : Result A → Action S A
  lift (ok a) s = ok (a, s)
  lift (err e) s = err e

  unfoldable pub gets : (S → A) → Action S A
  gets f s = ok (f s, s)

module _ {S : Type 0} where
  unfoldable pub modify : (S → S) → Action S (Unit {0})
  modify f s = ok (tt, f s)

  -- `if !test { return e }`
  unfoldable pub guard : Bool → Error → Action S (Unit {0})
  guard true e s = ok (tt, s)
  guard false e s = err e

module _ {S A B : Type 0} where
  abbrev pub continue : (A → Action S B) → Result (A × S) → Result (B × S)
  continue f (ok (a, s)) = f a s
  continue f (err e) = err e

  infixl 5 ◌>>=◌ ◌>>◌
  unfoldable pub ◌>>=◌ : Action S A → (A → Action S B) → Action S B
  unfolding pure fail lift gets modify guard
  ◌>>=◌ m f s = continue f (m s)

  abbrev pub ◌>>◌ : Action S A → Action S B → Action S B
  m >> k = m >>= λ _. k

-- `for _, a := range items { … }`
unfoldable pub for_each : {S A : Type 0} → (A → Action S (Unit {0})) → List A → Action S (Unit {0})
for_each f [] = pure tt
for_each f (a ∷ rest) = f a >> for_each f rest

-- The outcome has the object in `P`, or is an error of the program.
abbrev pub Good : {S A : Type 0} → (S → Type 0) → Result (A × S) → Type 0
Good P (ok (a, s)) = P s
Good P (err e) = e ≢ out_of_fuel

pub record Keeps {S A : Type 0} (P : S → Type 0) (m : Action S A) : Type 0 where
  pub at : (s : S) → P s → Good P (m s)

lifted :
    {S A : Type 0} (P : S → Type 0) (r : Result A)
    → ((e : Error) → r ≡ err e → e ≢ out_of_fuel)
    → (s : S) → P s
    → Good P (lift r s)
unfolding lift
lifted P (ok a) n s h = h
lifted P (err e) n s h = n e refl

guarded :
    {S : Type 0} (P : S → Type 0) (b : Bool) (e : Error)
    → e ≢ out_of_fuel
    → (s : S) → P s
    → Good P (guard b e s)
unfolding guard
guarded P true e n s h = h
guarded P false e n s h = n

module _ {S A : Type 0} {P : S → Type 0} where
  pub Keeps-pure : (a : A) → Keeps P (pure a)
  unfolding pure
  Keeps-pure a = record { at = λ s h. h }

  pub Keeps-fail : (e : Error) → e ≢ out_of_fuel → Keeps P (fail {A = A} e)
  unfolding fail
  Keeps-fail e n = record { at = λ s h. n }

  pub Keeps-gets : (f : S → A) → Keeps P (gets f)
  unfolding gets
  Keeps-gets f = record { at = λ s h. h }

  pub Keeps-lift : (r : Result A) → ((e : Error) → r ≡ err e → e ≢ out_of_fuel) → Keeps P (lift r)
  Keeps-lift r n = record { at = lifted P r n }

  pub Keeps-if :
      (test : Bool) (first second : Action S A)
      → (test ≡ true → Keeps P first)
      → (test ≡ false → Keeps P second)
      → Keeps P (if test then first else second)
  Keeps-if false first second on off = off refl
  Keeps-if true first second on off = on refl

module _ {S : Type 0} {P : S → Type 0} where
  pub Keeps-modify : (f : S → S) → ((s : S) → P s → P (f s)) → Keeps P (modify f)
  unfolding modify
  Keeps-modify f k = record { at = k }

  pub Keeps-guard : (b : Bool) (e : Error) → e ≢ out_of_fuel → Keeps P (guard b e)
  Keeps-guard b e n = record { at = guarded P b e n }

module _ {S A B : Type 0} {P : S → Type 0} where
  bound :
      (m : Result (A × S)) (f : A → Action S B)
      → Good P m
      → ((a : A) (s : S) → m ≡ ok (a, s) → P s → Good P (f a s))
      → Good P (continue f m)
  bound (ok (a, s)) f g k = k a s refl g
  bound (err e) f g k = g

  pub Keeps-bind :
      (m : Action S A) (f : A → Action S B)
      → Keeps P m
      → ((a : A) → Keeps P (f a))
      → Keeps P (m >>= f)
  unfolding ◌>>=◌
  Keeps-bind m f km kf = record {
    at = λ s h. bound (m s) f (km.at s h) (λ a s' e g. (kf a).at s' g);
  }

  -- The rest may use what every success of the first action tells.
  pub Keeps-bind-ok :
      (Q : A → Type 0) (m : Action S A) (f : A → Action S B)
      → Keeps P m
      → ((s s' : S) (a : A) → P s → m s ≡ ok (a, s') → Q a)
      → ((a : A) → Q a → Keeps P (f a))
      → Keeps P (m >>= f)
  unfolding ◌>>=◌
  Keeps-bind-ok Q m f km learn kf = record {
    at = λ s h. bound (m s) f (km.at s h) (λ a s' e g. (kf a (learn s s' a h e)).at s' g);
  }

-- Behind a guard the test is known.
pub Keeps-then :
    {S B : Type 0} {P : S → Type 0} (b : Bool) (e : Error) (k : Action S B)
    → e ≢ out_of_fuel
    → (b ≡ true → Keeps P k)
    → Keeps P (guard b e >> k)
unfolding ◌>>=◌
Keeps-then true e k n kk = record { at = λ s h. (kk refl).at s h }
Keeps-then false e k n kk = record { at = λ s h. n }

pub Keeps-for_each :
    {S A : Type 0} {P : S → Type 0} (f : A → Action S (Unit {0})) (items : List A)
    → ((a : A) → Keeps P (f a))
    → Keeps P (for_each f items)
unfolding for_each
Keeps-for_each f [] k = Keeps-pure tt
Keeps-for_each f (a ∷ rest) k = Keeps-bind (f a) _ (k a) (λ _. Keeps-for_each f rest k)

-- What holds of the result, and of the object behind it, whenever an action succeeds.
pub record Returns {S A : Type 0} (Q : A → S → Type 0) (m : Action S A) : Type 0 where
  pub at : (s s' : S) (a : A) → m s ≡ ok (a, s') → Q a s'

module _ {S A B : Type 0} {Q : B → S → Type 0} where
  returned :
      (m : Result (A × S)) (f : A → Action S B) (b : B) (t : S)
      → ((a : A) (s : S) → m ≡ ok (a, s) → Returns Q (f a))
      → continue f m ≡ ok (b, t)
      → Q b t
  returned (ok (a, s)) f b t k e = (k a s refl).at s t b e
  returned (err x) f b t k e = cc

  pub Returns-bind :
      (m : Action S A) (f : A → Action S B) → ((a : A) → Returns Q (f a)) → Returns Q (m >>= f)
  unfolding ◌>>=◌
  Returns-bind m f k = record { at = λ s t b e. returned (m s) f b t (λ a s' h. k a) e }

  -- The rest may use what the first action's success tells of its result.
  pub Returns-bind-ok :
      (R : A → Type 0) (m : Action S A) (f : A → Action S B)
      → Returns (λ a s. R a) m
      → ((a : A) → R a → Returns Q (f a))
      → Returns Q (m >>= f)
  unfolding ◌>>=◌
  Returns-bind-ok R m f r k = record {
    at = λ s t b e. returned (m s) f b t (λ a s' h. k a (r.at s s' a h)) e;
  }

module _ {S A : Type 0} {Q : A → S → Type 0} where
  pub Returns-gets : (f : S → A) → ((s : S) → Q (f s) s) → Returns Q (gets f)
  unfolding gets
  Returns-gets f k = record {
    at = λ s t a e. let q : ◌≡◌ {A = A × S} (f s, s) (a, t) = cc in subst (λ x. Q x.0 x.1) q (k s);
  }

  pub Returns-pure : (a : A) → ((s : S) → Q a s) → Returns Q (pure a)
  unfolding pure
  Returns-pure a k = record {
    at = λ s t b e. let q : ◌≡◌ {A = A × S} (a, s) (b, t) = cc in subst (λ x. Q x.0 x.1) q (k s);
  }

  pub Returns-fail : (e : Error) → Returns Q (fail e)
  unfolding fail
  Returns-fail e = record { at = λ s t b h. cc }

  pub Returns-if :
      (b : Bool) (m n : Action S A)
      → (b ≡ true → Returns Q m)
      → (b ≡ false → Returns Q n)
      → Returns Q (if b then m else n)
  Returns-if false m n km kn = kn refl
  Returns-if true m n km kn = km refl

-- The rules for `search`, one for each way to build an action.
pub ruleset keeps_rules = (Keeps-pure, Keeps-gets, Keeps-if, Keeps-bind, Keeps-for_each)
