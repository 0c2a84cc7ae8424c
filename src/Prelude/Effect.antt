-- ===== src/Prelude/Effect.antt =====
-- Code whose changes to the object stay behind an error: a function from the object to the outcome and
-- the object behind the call.
use mathlib.Core.Path.{◌≡◌, refl}
use mathlib.Core.Bool.{Bool, true, false}
use filecloud.Prelude.Tests.{if◌then◌else◌}
use filecloud.Prelude.Outcome.{Result, ok, err}

abbrev pub Effect : Type 0 → Type 0 → Type 0
Effect S A = S → Result A × S

module _ {S A : Type 0} where
  unfoldable pub pure : A → Effect S A
  pure a s = (ok a, s)

  unfoldable pub lift : Result A → Effect S A
  lift r s = (r, s)

  unfoldable pub gets : (S → A) → Effect S A
  gets f s = (ok (f s), s)

module _ {S : Type 0} where
  unfoldable pub modify : (S → S) → Effect S (Unit {0})
  modify f s = (ok tt, f s)

module _ {S A B : Type 0} where
  abbrev pub continue : (A → Effect S B) → Result A × S → Result B × S
  continue f (ok a, s) = f a s
  continue f (err e, s) = (err e, s)

  infixl 5 ◌>>=◌ ◌>>◌
  unfoldable pub ◌>>=◌ : Effect S A → (A → Effect S B) → Effect S B
  ◌>>=◌ m f s = continue f (m s)

  abbrev pub ◌>>◌ : Effect S A → Effect S B → Effect S B
  m >> k = m >>= λ _. k

-- Whatever the outcome, the object behind the call is in the relation to the one in front.
pub record Moves {S A : Type 0} (R : S → S → Type 0) (m : Effect S A) : Type 0 where
  pub at : (s : S) → R s (m s).1

module _ {S A : Type 0} {R : S → S → Type 0} (same : (s : S) → R s s) where
  pub Moves-pure : (a : A) → Moves R (pure a)
  unfolding pure
  Moves-pure a = record { at = same }

  pub Moves-lift : (r : Result A) → Moves R (lift r)
  unfolding lift
  Moves-lift r = record { at = same }

  pub Moves-gets : (f : S → A) → Moves R (gets f)
  unfolding gets
  Moves-gets f = record { at = same }

module _ {S A : Type 0} {R : S → S → Type 0} where
  pub Moves-if :
      (b : Bool) (m n : Effect S A)
      → (b ≡ true → Moves R m)
      → (b ≡ false → Moves R n)
      → Moves R (if b then m else n)
  Moves-if true m n hm hn = hm refl
  Moves-if false m n hm hn = hn refl

module _ {S A B : Type 0} {R : S → S → Type 0} (join : (s t u : S) → R s t → R t u → R s u) where
  pub continue-moves :
      (s : S) (o : Result A × S) (f : A → Effect S B)
      → R s o.1
      → ((a : A) → o.0 ≡ ok a → Moves R (f a))
      → R s (continue f o).1
  continue-moves s (ok a, t) f h k = join s t _ h ((k a refl).at t)
  continue-moves s (err e, t) f h k = h

  pub Moves-bind :
      (m : Effect S A) (f : A → Effect S B)
      → Moves R m
      → ((a : A) → Moves R (f a))
      → Moves R (m >>= f)
  unfolding ◌>>=◌
  Moves-bind m f h k = record { at = λ s. continue-moves s (m s) f (h.at s) (λ a e. k a) }

-- What a success of a chain tells of its parts.
module _ {S A B : Type 0} where
  chain :
      (o : Result A × S) (f : A → Effect S B) {b : B} {t : S}
      → ◌≡◌ {A = Result B × S} (continue f o) (ok b, t)
      → (a : A) × (u : S) × ◌≡◌ {A = Result A × S} o (ok a, u)
        × ◌≡◌ {A = Result B × S} (f a u) (ok b, t)
  chain (ok a, u) f h = (a, u, refl, h)
  chain (err e, u) f h = cc

  pub >>=-succeeds :
      (m : Effect S A) (f : A → Effect S B) (s : S) {b : B} {t : S}
      → ◌≡◌ {A = Result B × S} ((m >>= f) s) (ok b, t)
      → (a : A) × (u : S) × ◌≡◌ {A = Result A × S} (m s) (ok a, u)
        × ◌≡◌ {A = Result B × S} (f a u) (ok b, t)
  unfolding ◌>>=◌
  >>=-succeeds m f s h = chain (m s) f h
