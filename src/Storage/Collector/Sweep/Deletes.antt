-- ===== src/Storage/Collector/Sweep/Deletes.antt =====
-- A successful collection deletes what is garbage.
use filecloud.Prelude.{
  ℕ, suc, ◌≡◌, refl, sym, ◌∙◌, ap, subst, Bool, true, false, Option, none, List, [], ◌∷◌, arith,
  if◌then◌else◌, Bool-cases, inl, inr,
}
use filecloud.Prelude.Bytes.{Bytes, same}
use filecloud.Prelude.Outcome.{Result, ok, err, failed}
use filecloud.Prelude.Effect.{
  Effect, pure, lift, gets, modify, ◌>>=◌, ◌>>◌, >>=-succeeds, Moves, Moves-pure, Moves-lift,
  Moves-bind,
}
use filecloud.Storage.Objects.{
  Key, has, Stored, Verifier, same_parts, find_file, object_path, validate_object_location,
}
use filecloud.Storage.Collector.{Root, tick}
use filecloud.Storage.Collector.Work.{work}
use filecloud.Storage.Collector.Graph.{Reach}
use filecloud.Storage.Collector.Closure.{mark_published-marks}
use filecloud.Storage.Collector.Plan.{
  Candidate, Planned, ObjectStats, entry, candidate, is_expired, Removal, removed, missing, refused,
  Attempt, Options, Surroundings, collection_plan, time_of,
}
use filecloud.Storage.Collector.Plan.Laws.{Member, plan-Member, is_collectable-unmarked}
use filecloud.Storage.Collector.Plan.Stages.{Planning, collection_plan-Planning}
use filecloud.Storage.Collector.Sweep.{
  without, remove_file, delete_candidate, delete_candidates, collect,
}

find_file-without-same :
    (parts : List Bytes) (disk : List Stored) → find_file parts (without parts disk) ≡ none
find_file-without-same parts [] = refl
find_file-without-same parts (f ∷ disk) = elim (Bool-cases (same_parts f.parts parts)) [
  | inl e ↦ rw e (find_file-without-same parts disk)
  | inr e ↦ rw (e, e) (find_file-without-same parts disk)
]

find_file-without-none :
    (parts other : List Bytes) (disk : List Stored)
    → find_file other disk ≡ none
    → find_file other (without parts disk) ≡ none
find_file-without-none parts other [] h = refl
find_file-without-none parts other (f ∷ disk) h = elim (Bool-cases (same_parts f.parts other)) [
  | inl q ↦ absurd (ground (arith, q, h))
  | inr q ↦ elim (Bool-cases (same_parts f.parts parts)) [
    | inl e ↦ rw e (find_file-without-none parts other disk (ground (arith, q, h)))
    | inr e ↦ rw (e, q) (find_file-without-none parts other disk (ground (arith, q, h)))
  ]
]

module _ (path : List Bytes) where
  -- A file that is gone stays gone.
  abbrev StaysGone : List Stored → List Stored → Type 0
  StaysGone s t = find_file path s ≡ none → find_file path t ≡ none

  joined_gone : (s t u : List Stored) → StaysGone s t → StaysGone t u → StaysGone s u
  joined_gone s t u a b h = b (a h)

  still_gone : (s : List Stored) → StaysGone s s
  still_gone s h = h

  remove_file-Moves : (parts : List Bytes) (r : Removal) → Moves StaysGone (remove_file parts r)
  unfolding modify
  remove_file-Moves parts removed = record { at = find_file-without-none parts path }
  remove_file-Moves parts missing = Moves-pure still_gone tt
  remove_file-Moves parts (refused e) = Moves-lift still_gone (err (failed "delete object"))

  module _ (attempt : Candidate → Attempt) where
    finish-Moves :
        (c : Candidate) (left : Option ℕ)
        → Moves StaysGone (lift (attempt c).synced >> (lift (attempt c).after_delete >> pure left))
    finish-Moves c left = Moves-bind joined_gone _ _ (Moves-lift still_gone _) (λ a.
        Moves-bind joined_gone _ _ (Moves-lift still_gone _) (λ b. Moves-pure still_gone left))

    delete_candidate-Moves :
        (c : Candidate) (patience : Option ℕ)
        → Moves StaysGone (delete_candidate attempt c patience)
    unfolding delete_candidate
    delete_candidate-Moves c patience =
        Moves-bind joined_gone _ _ (Moves-lift still_gone _) (λ left.
          Moves-bind joined_gone _ _ (Moves-lift still_gone _) (λ a.
            Moves-bind joined_gone _ _ (remove_file-Moves c.parts (attempt c).removal)
              (λ b. finish-Moves c left)))

    delete_candidates-Moves :
        (cs : List Candidate) (patience : Option ℕ)
        → Moves StaysGone (delete_candidates attempt cs patience)
    unfolding delete_candidates
    delete_candidates-Moves [] patience = Moves-pure still_gone tt
    delete_candidates-Moves (c ∷ cs) patience =
        Moves-bind joined_gone _ _ (delete_candidate-Moves c patience)
          (λ left. delete_candidates-Moves cs left)

lift-same :
    {S A : Type 0} (r : Result A) (s t : S) (a : A)
    → ◌≡◌ {A = Result A × S} (lift r s) (ok a, t)
    → s ≡ t
unfolding lift
lift-same r s t a h = ap (λ x. x.1) h

remove_file-gone :
    (parts : List Bytes) (r : Removal) (s t : List Stored)
    → (r ≡ missing → find_file parts s ≡ none)
    → ◌≡◌ {A = Result (Unit {0}) × List Stored} (remove_file parts r s) (ok tt, t)
    → find_file parts t ≡ none
unfolding modify pure lift
remove_file-gone parts removed s t absent h =
    subst (λ x. find_file parts x ≡ none) (ap (λ x. x.1) h) (find_file-without-same parts s)
remove_file-gone parts missing s t absent h =
    subst (λ x. find_file parts x ≡ none) (ap (λ x. x.1) h) (absent refl)
remove_file-gone parts (refused e) s t absent h = cc

-- os.Remove reports a missing file only where there is none.
abbrev pub IsHonest : (Candidate → Attempt) → List Stored → Type 0
IsHonest attempt disk =
    (c : Candidate) → (attempt c).removal ≡ missing → find_file c.parts disk ≡ none

module _ (attempt : Candidate → Attempt) where
  delete_candidate-gone :
      (c : Candidate) (patience left : Option ℕ) (s t : List Stored)
      → IsHonest attempt s
      → ◌≡◌ {A = Result (Option ℕ) × List Stored}
          (delete_candidate attempt c patience s)
          (ok left, t)
      → find_file c.parts t ≡ none
  unfolding delete_candidate
  delete_candidate-gone c patience left s t honest h =
      let (a, u, h₁, k₁) = >>=-succeeds (lift (tick patience)) _ s h in
      let (b, x, h₂, k₂) = >>=-succeeds (lift (attempt c).before_delete) _ u k₁ in
      let (d, y, h₃, k₃) = >>=-succeeds (remove_file c.parts (attempt c).removal) _ x k₂ in
      let e : s ≡ x =
        lift-same (tick patience) s u a h₁ ∙ lift-same (attempt c).before_delete u x b h₂ in
      let gone =
        remove_file-gone c.parts (attempt c).removal x y
          (λ m. subst (λ z. find_file c.parts z ≡ none) e (honest c m)) h₃ in
      subst (λ z. find_file c.parts z ≡ none) (ap (λ z. z.1) k₃)
        ((finish-Moves c.parts attempt c a).at y gone)

  delete_candidates-gone :
      (cs : List Candidate) (patience : Option ℕ) (s t : List Stored) (c : Candidate)
      → IsHonest attempt s
      → ◌≡◌ {A = Result (Unit {0}) × List Stored}
          (delete_candidates attempt cs patience s)
          (ok tt, t)
      → Member c cs
      → find_file c.parts t ≡ none
  unfolding delete_candidates
  delete_candidates-gone [] patience s t c honest h m = absurd m
  delete_candidates-gone (d ∷ cs) patience s t c honest h m =
      let (left, u, h₁, k₁) =
        >>=-succeeds (delete_candidate attempt d patience) (delete_candidates attempt cs) s h in
      gone left u h₁ k₁ (delete_candidates-gone cs left u t c) m
    where
      gone :
          (left : Option ℕ) (u : List Stored)
          → ◌≡◌ {A = Result (Option ℕ) × List Stored}
              (delete_candidate attempt d patience s)
              (ok left, u)
          → ◌≡◌ {A = Result (Unit {0}) × List Stored}
              (delete_candidates attempt cs left u)
              (ok tt, t)
          → (IsHonest attempt u
              → ◌≡◌ {A = Result (Unit {0}) × List Stored}
                  (delete_candidates attempt cs left u)
                  (ok tt, t)
              → Member c cs
              → find_file c.parts t ≡ none)
          → Member c (d ∷ cs)
          → find_file c.parts t ≡ none
      gone left u h₁ k₁ later (inl e) =
          subst (λ z. find_file z.parts t ≡ none) (sym e)
            (subst (λ z. find_file d.parts z ≡ none) (ap (λ z. z.1) k₁)
              ((delete_candidates-Moves d.parts attempt cs left).at u
                (delete_candidate-gone d patience left s u honest h₁)))
      gone left u h₁ k₁ later (inr m) =
          later
            (λ x absent.
              subst (λ z. find_file x.parts z ≡ none) (ap (λ z. z.1) h₁)
                ((delete_candidate-Moves x.parts attempt d patience).at s (honest x absent)))
            k₁ m

asked :
    {S A : Type 0} (f : S → Result A) (s t : S) (a : A)
    → ◌≡◌ {A = Result A × S} ((gets f >>= lift) s) (ok a, t)
    → (f s ≡ ok a) × (s ≡ t)
unfolding gets lift ◌>>=◌
asked f s t a h = (ap (λ x. x.0) h, ap (λ x. x.1) h)

wet_run :
    {S A : Type 0} {b : Bool} (m n : Effect S A) {r : Result A × S}
    → b ≡ false
    → (s : S) → (if b then m else n) s ≡ r
    → n s ≡ r
wet_run {b = false} m n e s h = h
wet_run {b = true} m n e s h = cc

pure-same :
    {S A : Type 0} (a : A) (s t : S) (b : A) → ◌≡◌ {A = Result A × S} (pure a s) (ok b, t) → s ≡ t
unfolding pure
pure-same a s t b h = ap (λ x. x.1) h

-- The plan behind a success that is no dry run, and its deletion.
collect-planned :
    (v : Verifier) (w : Surroundings) (o : Options) (disk left : List Stored)
    (report : List ObjectStats)
    → o.dry_run ≡ false
    → ◌≡◌ {A = Result (List ObjectStats) × List Stored} (collect v w o disk) (ok report, left)
    → (patience : Option ℕ) × (p : Planned) × Planning v w o disk patience p
      × ◌≡◌ {A = Result (Unit {0}) × List Stored}
          (delete_candidates w.attempt p.0 patience disk)
          (ok tt, left)
unfolding collect
collect-planned v w o disk left report wet done =
    let (planned, u, h₁, h₂) = >>=-succeeds (gets (collection_plan v w o) >>= lift) _ disk done in
    let (e, same) = asked (collection_plan v w o) disk u planned h₁ in
    let h₃ : ◌≡◌ {A = Result (List ObjectStats) × List Stored}
        ((delete_candidates w.attempt planned.1.0 planned.0 >> pure planned.1.1) u)
        (ok report, left) =
      wet_run _ _ wet u h₂ in
    let (a, t, h₄, h₅) =
      >>=-succeeds (delete_candidates w.attempt planned.1.0 planned.0) (λ a. pure planned.1.1) u
        h₃ in
    (
      planned.0,
      planned.1,
      collection_plan-Planning v w o disk planned.0 planned.1 e,
      subst
          (λ x.
            ◌≡◌ {A = Result (Unit {0}) × List Stored}
              (delete_candidates w.attempt planned.1.0 planned.0 disk) (ok tt, x))
          (pure-same planned.1.1 t left report h₅)
          (subst
            (λ x.
              ◌≡◌ {A = Result (Unit {0}) × List Stored}
                (delete_candidates w.attempt planned.1.0 planned.0 x) (ok tt, t))
            (sym same) h₄),
    )

-- After a successful collection that is no dry run, the file of an object at a valid location that
-- no queried root reaches is gone, if the walk has seen it as a regular file past the grace period,
-- and if os.Remove reports a missing file only where there is none.
pub collect-deletes :
    (v : Verifier) (w : Surroundings) (o : Options) (disk left : List Stored)
    (report : List ObjectStats) (roots : List Root) (k : Key) (f : Stored)
    → IsHonest w.attempt disk
    → w.roots ≡ ok roots
    → o.dry_run ≡ false
    → ◌≡◌ {A = Result (List ObjectStats) × List Stored} (collect v w o disk) (ok report, left)
    → validate_object_location k ≡ ok tt
    → Member (entry (object_path k) (ok f)) w.visits
    → is_expired (time_of o w) o.grace_period f ≡ true
    → ¬ Reach v disk roots k
    → find_file (object_path k) left ≡ none
collect-deletes v w o disk left report roots k f honest is_roots wet done valid seen expired
      garbage =
    let (patience, p, s, swept) = collect-planned v w o disk left report wet done in
    let q : s.roots ≡ roots = cc (is_roots, s.is_roots) in
    let marks =
      mark_published-marks v disk (suc (work v disk [])) s.roots w.patience s.end s.marking k in
    let unmarked : has k s.end.marked ≡ false = elim (Bool-cases (has k s.end.marked)) [
      | inl e ↦ absurd (garbage (subst (λ r. Reach v disk r k) q (marks.0 e)))
      | inr e ↦ e
    ] in
    delete_candidates-gone w.attempt p.0 patience disk left (candidate (object_path k) f) honest
      swept
      (plan-Member s.end.marked (time_of o w) o.grace_period w.visits s.end.patience patience p
        (object_path k) f s.planning seen (is_collectable-unmarked s.end.marked k valid unmarked)
        expired)
