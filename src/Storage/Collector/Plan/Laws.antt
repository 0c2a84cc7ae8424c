-- ===== src/Storage/Collector/Plan/Laws.antt =====
-- The candidates of a plan.
use filecloud.Prelude.{
  ℕ, ◌≡◌, ◌⊎◌, refl, sym, subst, true, false, ◌&&◌, Option, List, [], ◌∷◌, ◌++◌, length,
  length-take, take, drop, arith, All, All-append, Bool-cases, inl, inr, ◌==◌,
}
use filecloud.Prelude.Bytes.{Bytes, codes, has_prefix}
use filecloud.Prelude.ByteOrder.{before}
use filecloud.Prelude.Outcome.{ok, err, >>=-eq-ok}
use filecloud.Object.Ids.{valid_id}
use filecloud.Object.Ids.Laws.{valid_id_iff, IsLowerHex}
use filecloud.Storage.Objects.{Key, has, Stored, object_path, validate_object_location}
use filecloud.Storage.Objects.Laws.{located}
use filecloud.Storage.Collector.{tick}
use filecloud.Storage.Collector.Work.{take-append-drop}
use filecloud.Storage.Collector.Plan.{
  Visit, unreadable, directory, entry, Candidate, Planned, candidate, plan_candidate,
  is_collectable, is_expired, unmarked, is_temporary, new_report, counts_kind, plan_entry,
  plan_visit, plan_visits, insert_candidate, joined, sort_candidates, plan,
}

abbrev pub Member : {A : Type 0} → A → List A → Type 0
Member a [] = ⊥
Member a (x ∷ xs) = (a ≡ x) ⊎ Member a xs

Member-append : {A : Type 0} (a : A) (xs ys : List A) → Member a ys → Member a (xs ++ ys)
Member-append a [] ys h = h
Member-append a (x ∷ xs) ys h = inr (Member-append a xs ys h)

Member-left : {A : Type 0} (a : A) (xs ys : List A) → Member a xs → Member a (xs ++ ys)
Member-left a (x ∷ xs) ys (inl e) = inl e
Member-left a (x ∷ xs) ys (inr h) = inr (Member-left a xs ys h)
Member-left a [] ys h = absurd h

module _ (P : Candidate → Type 0) where
  insert-All :
      (c : Candidate) (cs : List Candidate) → P c → All P cs → All P (insert_candidate c cs)
  insert-All c [] pc h = (pc, tt)
  insert-All c (x ∷ xs) pc (px, h) = elim (Bool-cases (before (joined x.parts) (joined c.parts))) [
    | inl e ↦ rw e (px, insert-All c xs pc h)
    | inr e ↦ rw e (pc, (px, h))
  ]

  sort-All : (cs : List Candidate) → All P cs → All P (sort_candidates cs)
  sort-All [] h = tt
  sort-All (c ∷ cs) (pc, h) = insert-All c (sort_candidates cs) pc (sort-All cs h)

insert-Member :
    (d c : Candidate) (cs : List Candidate) → Member d (c ∷ cs) → Member d (insert_candidate c cs)
insert-Member d c [] h = h
insert-Member d c (x ∷ xs) h = elim (Bool-cases (before (joined x.parts) (joined c.parts))) [
  | inl e ↦ rw e (elim h [
    | inl q ↦ inr (insert-Member d c xs (inl q))
    | inr (inl q) ↦ inl q
    | inr (inr m) ↦ inr (insert-Member d c xs (inr m))
  ])
  | inr e ↦ rw e h
]

sort-Member : (d : Candidate) (cs : List Candidate) → Member d cs → Member d (sort_candidates cs)
sort-Member d (c ∷ cs) (inl q) = insert-Member d c (sort_candidates cs) (inl q)
sort-Member d (c ∷ cs) (inr m) = insert-Member d c (sort_candidates cs) (inr (sort-Member d cs m))
sort-Member d [] h = absurd h

module _ (marked : List Key) (now grace : ℕ) where
  -- A file that the walk has seen, that no marked key has and that is past its grace period.
  pub record IsGarbage (visits : List Visit) (c : Candidate) : Type 0 where
    pub file : Stored
    pub seen : Member (entry c.parts (ok file)) visits
    pub collectable : is_collectable marked c.parts ≡ true
    pub expired : is_expired now grace file ≡ true

  record Adds (x : Visit) (p q : Planned) : Type 0 where
    parts : List Bytes
    file : Stored
    is_entry : x ≡ entry parts (ok file)
    collectable : is_collectable marked parts ≡ true
    expired : is_expired now grace file ≡ true
    result : plan_candidate parts file p ≡ q

  -- A call of the walk's function adds nothing, or what is to be collected.
  plan_entry-cases :
      (x : Visit) (p q : Planned) → plan_entry marked now grace x p ≡ ok q → (p ≡ q) ⊎ Adds x p q
  plan_entry-cases (unreadable e) p q h = cc
  plan_entry-cases directory p q h = inl cc
  plan_entry-cases (entry parts (err e)) p q h = elim (Bool-cases (is_collectable marked parts)) [
    | inl c ↦ absurd (ground (arith, c, h))
    | inr c ↦ inl (cc (c, h))
  ]
  plan_entry-cases (entry parts (ok f)) p q h = elim (Bool-cases (is_collectable marked parts)) [
    | inr c ↦ inl (cc (c, h))
    | inl c ↦ elim (Bool-cases (is_expired now grace f)) [
      | inr x ↦ inl (cc (c, x, h))
      | inl x ↦ inr (record {
        parts = parts;
        file = f;
        is_entry = refl;
        collectable = c;
        expired = x;
        result = cc (c, x, h);
      })
    ]
  ]

  visited :
      (x : Visit) (s t : Option ℕ × Planned)
      → plan_visit marked now grace x s ≡ ok t
      → plan_entry marked now grace x s.1 ≡ ok t.1
  visited (unreadable e) s t h = cc
  visited directory (patience, p) t h =
      let (left, ticked, rest) = >>=-eq-ok (tick patience) _ h in cc
  visited (entry parts info) (patience, p) t h =
      let (left, ticked, rest) = >>=-eq-ok (tick patience) _ h in
      let (q, done, last) = >>=-eq-ok (plan_entry marked now grace (entry parts info) p) _ rest in
      let r : ◌≡◌ {A = Option ℕ × Planned} (left, q) t = cc in
      subst (λ u. plan_entry marked now grace (entry parts info) p ≡ ok u.1) r done

  grown :
      (x : Visit) (p q : Planned) (c : Candidate)
      → (p ≡ q) ⊎ Adds x p q
      → Member c p.0
      → Member c q.0
  grown x p q c (inl e) m = subst (λ r. Member c r.0) e m
  grown x p q c (inr a) m =
      subst (λ r. Member c r.0) a.result (Member-left c p.0 (candidate a.parts a.file ∷ []) m)

  plan_visits-grows :
      (xs : List Visit) (s t : Option ℕ × Planned) (c : Candidate)
      → plan_visits marked now grace xs s ≡ ok t
      → Member c s.1.0
      → Member c t.1.0
  plan_visits-grows [] s t c h m = let r : s ≡ t = cc in subst (λ u. Member c u.1.0) r m
  plan_visits-grows (x ∷ xs) s t c h m =
      let (u, first, rest) = >>=-eq-ok (plan_visit marked now grace x s) _ h in
      plan_visits-grows xs u t c rest
        (grown x s.1 u.1 c (plan_entry-cases x s.1 u.1 (visited x s u first)) m)

  -- All that is seen and is to be collected is planned.
  plan_visits-plans :
      (xs : List Visit) (s t : Option ℕ × Planned) (parts : List Bytes) (f : Stored)
      → plan_visits marked now grace xs s ≡ ok t
      → Member (entry parts (ok f)) xs
      → is_collectable marked parts ≡ true
      → is_expired now grace f ≡ true
      → Member (candidate parts f) t.1.0
  plan_visits-plans [] s t parts f h m c e = absurd m
  plan_visits-plans (x ∷ xs) s t parts f h (inr m) c e =
      let (u, first, rest) = >>=-eq-ok (plan_visit marked now grace x s) _ h in
      plan_visits-plans xs u t parts f rest m c e
  plan_visits-plans (x ∷ xs) s t parts f h (inl q) c e =
      let (u, first, rest) = >>=-eq-ok (plan_visit marked now grace x s) _ h in
      let done =
        subst (λ y. plan_entry marked now grace y s.1 ≡ ok u.1) (sym q) (visited x s u first) in
      let r : plan_candidate parts f s.1 ≡ u.1 = cc (c, e, done) in
      plan_visits-grows xs u t (candidate parts f) rest (
        subst (λ y. Member (candidate parts f) y.0) r
          (Member-append _ s.1.0 (candidate parts f ∷ []) (inl refl)))

  module _ (visits : List Visit) where
    plan_visits-All :
        (xs : List Visit) (s t : Option ℕ × Planned)
        → ((x : Visit) → Member x xs → Member x visits)
        → plan_visits marked now grace xs s ≡ ok t
        → All (IsGarbage visits) s.1.0
        → All (IsGarbage visits) t.1.0
    plan_visits-All [] s t sub h hs =
        let r : s ≡ t = cc in subst (λ u. All (IsGarbage visits) u.1.0) r hs
    plan_visits-All (x ∷ xs) s t sub h hs =
        let (u, first, rest) = >>=-eq-ok (plan_visit marked now grace x s) _ h in
        plan_visits-All xs u t (λ y m. sub y (inr m)) rest
          (kept x s.1 u.1 (sub x (inl refl)) (plan_entry-cases x s.1 u.1 (visited x s u first)) hs)
      where
        kept :
            (x : Visit) (p q : Planned)
            → Member x visits
            → (p ≡ q) ⊎ Adds x p q
            → All (IsGarbage visits) p.0
            → All (IsGarbage visits) q.0
        kept x p q m (inl e) hp = subst (λ r. All (IsGarbage visits) r.0) e hp
        kept x p q m (inr a) hp =
            subst (λ r. All (IsGarbage visits) r.0) a.result
              (All-append (IsGarbage visits) p.0 (candidate a.parts a.file ∷ []) hp (
                record {
                  file = a.file;
                  seen = subst (λ y. Member y visits) a.is_entry m;
                  collectable = a.collectable;
                  expired = a.expired;
                },
                tt,
              ))

    pub plan-IsGarbage :
        (patience left : Option ℕ) (q : Planned)
        → plan marked now grace visits patience ≡ ok (left, q)
        → All (IsGarbage visits) q.0
    unfolding plan
    plan-IsGarbage patience left q h =
        let (done, walked, last) =
          >>=-eq-ok (plan_visits marked now grace visits (patience, ([], new_report))) _ h in
        let r : ◌≡◌ {A = Option ℕ × Planned} (done.0, (sort_candidates done.1.0, done.1.1))
            (left, q) =
          cc in
        subst (λ u. All (IsGarbage visits) u.1.0) r
          (sort-All (IsGarbage visits) done.1.0
            (plan_visits-All visits _ done (λ x m. m) walked tt))

    pub plan-Member :
        (patience left : Option ℕ) (q : Planned) (parts : List Bytes) (f : Stored)
        → plan marked now grace visits patience ≡ ok (left, q)
        → Member (entry parts (ok f)) visits
        → is_collectable marked parts ≡ true
        → is_expired now grace f ≡ true
        → Member (candidate parts f) q.0
    unfolding plan
    plan-Member patience left q parts f h m c e =
        let (done, walked, last) =
          >>=-eq-ok (plan_visits marked now grace visits (patience, ([], new_report))) _ h in
        let r : ◌≡◌ {A = Option ℕ × Planned} (done.0, (sort_candidates done.1.0, done.1.1))
            (left, q) =
          cc in
        subst (λ u. Member (candidate parts f) u.1.0) r
          (sort-Member (candidate parts f) done.1.0
            (plan_visits-plans visits _ done parts f walked m c e))

-- The third digit of an identity is no dot.
not_temporary : (id : Bytes) → valid_id id ≡ true → is_temporary (drop 2 id) ≡ false
not_temporary id h = third id ((valid_id_iff id).0 h)
  where
    third : (s : Bytes) → (length s ≡ 64) × All IsLowerHex s → is_temporary (drop 2 s) ≡ false
    third [] (n, _) = absurd (omega arith)
    third (a ∷ []) (n, _) = absurd (omega arith)
    third (a ∷ b ∷ []) (n, _) = absurd (omega arith)
    third (a ∷ b ∷ c ∷ s) (n, digits) =
        let q : ((c == b'.') && has_prefix s (codes "filecloud-object-")) ≡ false =
          ground (arith, digits.1.1.0) in
        q

-- The file of a marked key is not collectable.
pub is_collectable-object_path :
    (marked : List Key) (k : Key)
    → valid_id k.id ≡ true
    → has k marked ≡ true
    → is_collectable marked (object_path k) ≡ false
unfolding object_path
is_collectable-object_path marked k valid h =
    let q : unmarked marked k.owner k.library k.kind (take 2 k.id) (drop 2 k.id) ≡ false =
      rw (not_temporary k.id valid, take-append-drop 2 k.id, valid, h) refl in
    ground (arith, q)

-- The file of an unmarked key is.
pub is_collectable-unmarked :
    (marked : List Key) (k : Key)
    → validate_object_location k ≡ ok tt
    → has k marked ≡ false
    → is_collectable marked (object_path k) ≡ true
unfolding object_path
is_collectable-unmarked marked k valid h =
    let (a, b, c, d) = located k valid in
    let q : unmarked marked k.owner k.library k.kind (take 2 k.id) (drop 2 k.id) ≡ true =
      rw (not_temporary k.id c, take-append-drop 2 k.id, c, h) refl in
    let kind : counts_kind k.kind new_report ≡ true = ground (arith, d) in
    let prefix : (length (take 2 k.id) == 2) ≡ true =
      rw (length-take 2 k.id, ((valid_id_iff k.id).0 c).0) refl in
    rw (a, b, kind, prefix, q) refl
