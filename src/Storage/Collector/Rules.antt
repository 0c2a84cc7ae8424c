-- ===== src/Storage/Collector/Rules.antt =====
-- The rules by which an action of the collector advances: what it finds pending and what it leaves.
use filecloud.Prelude.{
  ℕ, ◌≡◌, refl, sym, subst, Bool, true, false, List, [], ◌∷◌, ◌++◌, Option, if◌then◌else◌,
}
use filecloud.Prelude.Outcome.{Result, ok, err, Error}
use filecloud.Prelude.Action.{Action, pure, fail, lift, gets, modify, ◌>>=◌, continue}
use filecloud.Storage.Objects.{Key, has, mark, Stored, Verifier}
use filecloud.Storage.Collector.{Marking, check_context, mark_key, unless_marked, tick}
use filecloud.Storage.Collector.Graph.{children}
use filecloud.Storage.Collector.Advance.{
  Advance, Advance-refl, Advance-trans, Advance-frame, Advance-reorder, Advance-skip, Advance-mark,
}

module _ (v : Verifier) (disk : List Stored) (G V : Key → Type 0) where
  pub record Advances {A : Type 0} (p : List Key) (act : Action Marking A) (left : A → List Key)
      : Type 0 where
    pub at :
        (s t : Marking) (a : A)
        → act s ≡ ok (a, t)
        → Advance v disk G V s.marked p t.marked (left a)

module _ {v : Verifier} {disk : List Stored} {G V : Key → Type 0} where
  pub Advances-pure :
      {A : Type 0} (left : A → List Key) (a : A) → Advances v disk G V (left a) (pure a) left
  unfolding pure
  Advances-pure {A} left a = record {
    at = λ s t b e.
        let q : ◌≡◌ {A = A × Marking} (a, s) (b, t) = cc in
        subst (λ x. Advance v disk G V s.marked (left a) x.1.marked (left x.0)) q
          (Advance-refl v disk G V s.marked (left a));
  }

  pub Advances-fail :
      {A : Type 0} (p : List Key) (e : Error) (left : A → List Key)
      → Advances v disk G V p (fail e) left
  unfolding fail
  Advances-fail p e left = record { at = λ s t b h. cc }

  continued :
      {A B : Type 0} (p : List Key) (left : A → List Key) (out : B → List Key) (s : Marking)
      (m : Result (A × Marking)) (f : A → Action Marking B) (t : Marking) (b : B)
      → ((a : A) (u : Marking) → m ≡ ok (a, u) → Advance v disk G V s.marked p u.marked (left a))
      → ((a : A) → Advances v disk G V (left a) (f a) out)
      → continue f m ≡ ok (b, t)
      → Advance v disk G V s.marked p t.marked (out b)
  continued p left out s (ok (a, u)) f t b first next e =
      Advance-trans v disk G V (first a u refl) ((next a).at u t b e)
  continued p left out s (err x) f t b first next e = cc

  pub Advances-bind :
      {A B : Type 0} {p : List Key} {left : A → List Key} {out : B → List Key}
      (m : Action Marking A) (f : A → Action Marking B)
      → Advances v disk G V p m left
      → ((a : A) → Advances v disk G V (left a) (f a) out)
      → Advances v disk G V p (m >>= f) out
  unfolding ◌>>=◌
  Advances-bind {p = p} {left} {out} m f first next = record {
    at = λ s t b e. continued p left out s (m s) f t b (λ a u h. first.at s u a h) next e;
  }

  -- Behind an outcome that does not touch the marks, its success is known.
  pub Advances-lift :
      {A B : Type 0} {p : List Key} {out : B → List Key} (r : Result A) (f : A → Action Marking B)
      → ((a : A) → r ≡ ok a → Advances v disk G V p (f a) out)
      → Advances v disk G V p (lift r >>= f) out
  unfolding ◌>>=◌ lift
  Advances-lift (ok a) f next = record { at = (next a refl).at }
  Advances-lift (err x) f next = record { at = λ s t b e. cc }

  pub Advances-frame :
      {A : Type 0} {p : List Key} {left : A → List Key} (r : List Key) (m : Action Marking A)
      → Advances v disk G V p m left
      → Advances v disk G V (p ++ r) m (λ a. left a ++ r)
  Advances-frame r m h = record { at = λ s t a e. Advance-frame v disk G V r (h.at s t a e) }

  pub Advances-reorder :
      {A : Type 0} {p : List Key} {left : A → List Key} (q : List Key) (m : Action Marking A)
      → ((c : Key) → has c q ≡ has c p)
      → Advances v disk G V p m left
      → Advances v disk G V q m left
  Advances-reorder q m same h = record {
    at = λ s t a e. Advance-reorder v disk G V q same (h.at s t a e);
  }

  pub Advances-head :
      {A : Type 0} {x y : Key} {p : List Key} {left : A → List Key} (m : Action Marking A)
      → x ≡ y
      → Advances v disk G V (y ∷ p) m left
      → Advances v disk G V (x ∷ p) m left
  Advances-head {p = p} {left} m e h = subst (λ z. Advances v disk G V (z ∷ p) m left) (sym e) h

  pub Advances-if :
      {A : Type 0} {p : List Key} {left : A → List Key} (b : Bool) (m n : Action Marking A)
      → (b ≡ true → Advances v disk G V p m left)
      → (b ≡ false → Advances v disk G V p n left)
      → Advances v disk G V p (if b then m else n) left
  Advances-if true m n hm hn = hm refl
  Advances-if false m n hm hn = hn refl

  ticked :
      (p : List Key) (s t : Marking) (a : Unit {0}) (r : Result (Option ℕ))
      → continue (λ left. modify (λ u. record u { patience = left })) (lift r s) ≡ ok (a, t)
      → Advance v disk G V s.marked p t.marked p
  unfolding lift modify
  ticked p s t a (err e) h = cc
  ticked p s t a (ok left) h =
      let q : ◌≡◌ {A = Unit {0} × Marking} (tt, record s { patience = left }) (a, t) = cc in
      subst (λ x. Advance v disk G V s.marked p x.1.marked p) q (Advance-refl v disk G V s.marked p)

  -- A test of the context marks nothing.
  pub Advances-check_context : (p : List Key) → Advances v disk G V p check_context (λ a. p)
  unfolding check_context ◌>>=◌ gets
  Advances-check_context p = record { at = λ s t a e. ticked p s t a (tick s.patience) e }

  pub Advances-mark_key :
      (k : Key)
      → ((c : Key) → G k → has c (children v disk k) ≡ true → G c)
      → V k
      → Advances v disk G V (k ∷ []) (mark_key k) (λ a. children v disk k)
  unfolding modify
  Advances-mark_key k close vk = record {
    at = λ s t a e.
        let q : ◌≡◌ {A = Unit {0} × Marking} (tt, record s { marked = mark k s.marked }) (a, t) =
          cc in
        subst (λ x. Advance v disk G V s.marked (k ∷ []) x.1.marked (children v disk k)) q
          (Advance-mark v disk G V s.marked k close vk);
  }

  chosen :
      {A : Type 0} (p : List Key) (left : A → List Key) (k : Key) (skip visit : Action Marking A)
      (s t : Marking) (a : A) (b : Bool)
      → has k s.marked ≡ b
      → Advances v disk G V p skip left
      → Advances v disk G V (k ∷ p) visit left
      → (elim b as (λ x. Action Marking A) [ true ↦ skip | false ↦ visit ]) s ≡ ok (a, t)
      → Advance v disk G V s.marked (k ∷ p) t.marked (left a)
  chosen p left k skip visit s t a true seen hs hv e =
      Advance-skip v disk G V k seen (hs.at s t a e)
  chosen p left k skip visit s t a false seen hs hv e = hv.at s t a e

  pub Advances-unless_marked :
      {A : Type 0} {p : List Key} {left : A → List Key} (k : Key) (skip visit : Action Marking A)
      → Advances v disk G V p skip left
      → Advances v disk G V (k ∷ p) visit left
      → Advances v disk G V (k ∷ p) (unless_marked k skip visit) left
  unfolding ◌>>=◌ gets
  Advances-unless_marked {p = p} {left} k skip visit hs hv = record {
    at = λ s t a e. chosen p left k skip visit s t a (has k s.marked) refl hs hv e;
  }
