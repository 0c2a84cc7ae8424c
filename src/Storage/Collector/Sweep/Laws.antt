-- ===== src/Storage/Collector/Sweep/Laws.antt =====
-- What a collection deletes, and what it keeps.
use filecloud.Prelude.{
  ℕ, suc, ◌≡◌, refl, sym, ◌∙◌, subst, true, false, Option, List, [], ◌∷◌, arith, if◌then◌else◌, All,
  All-weaken, Bool-cases, inl, inr,
}
use filecloud.Prelude.Bytes.{Bytes}
use filecloud.Prelude.Outcome.{ok, err, failed}
use filecloud.Prelude.Effect.{
  pure, lift, gets, modify, ◌>>=◌, ◌>>◌, continue-moves, Moves, Moves-pure, Moves-lift, Moves-bind,
  Moves-if,
}
use filecloud.Storage.Objects.{Key, Stored, Verifier, same_parts, find_file, object_path}
use filecloud.Storage.Objects.Laws.{same_parts→eq}
use filecloud.Storage.Collector.{Root}
use filecloud.Storage.Collector.Work.{work}
use filecloud.Storage.Objects.Verified.{IsChecked}
use filecloud.Storage.Collector.Graph.{Reach}
use filecloud.Storage.Collector.Closure.{mark_published-marks, Reach-HasValidId}
use filecloud.Storage.Collector.Plan.{
  Candidate, Planned, entry, is_collectable, is_expired, Removal, removed, missing, refused,
  Attempt, Options, Surroundings, collection_plan, time_of,
}
use filecloud.Storage.Collector.Plan.Laws.{
  Member, IsGarbage, plan-IsGarbage, is_collectable-object_path,
}
use filecloud.Storage.Collector.Plan.Stages.{Planning, collection_plan-Planning}
use filecloud.Storage.Collector.Sweep.{
  without, remove_file, delete_candidate, delete_candidates, collect,
}

find_file-without :
    (parts other : List Bytes) (disk : List Stored)
    → same_parts parts other ≡ false
    → find_file other (without parts disk) ≡ find_file other disk
find_file-without parts other [] n = refl
find_file-without parts other (f ∷ disk) n = elim (Bool-cases (same_parts f.parts parts)) [
  | inl e ↦
      let q : same_parts f.parts other ≡ false =
        subst (λ p. same_parts p other ≡ false) (sym (same_parts→eq f.parts parts e)) n in
      rw (e, q) (find_file-without parts other disk n)
  | inr e ↦ rw (e, find_file-without parts other disk n) refl
]

-- The file at a path is not changed.
abbrev SameFile : List Bytes → List Stored → List Stored → Type 0
SameFile path s t = find_file path t ≡ find_file path s

module _ (path : List Bytes) where
  SameFile-trans : (s t u : List Stored) → SameFile path s t → SameFile path t u → SameFile path s u
  SameFile-trans s t u a b = b ∙ a

  still : (s : List Stored) → SameFile path s s
  still s = refl

  remove_file-Moves :
      (parts : List Bytes) (r : Removal)
      → same_parts parts path ≡ false
      → Moves (SameFile path) (remove_file parts r)
  unfolding modify
  remove_file-Moves parts removed n = record { at = λ s. find_file-without parts path s n }
  remove_file-Moves parts missing n = Moves-pure still tt
  remove_file-Moves parts (refused e) n = Moves-lift still (err (failed "delete object"))

  module _ (attempt : Candidate → Attempt) where
    delete_candidate-Moves :
        (c : Candidate) (patience : Option ℕ)
        → same_parts c.parts path ≡ false
        → Moves (SameFile path) (delete_candidate attempt c patience)
    unfolding delete_candidate
    delete_candidate-Moves c patience n =
        Moves-bind (SameFile-trans) _ _ (Moves-lift still _) (λ left.
          Moves-bind (SameFile-trans) _ _ (Moves-lift still _) (λ a.
            Moves-bind (SameFile-trans) _ _ (remove_file-Moves c.parts (attempt c).removal n) (λ b.
              Moves-bind (SameFile-trans) _ _ (Moves-lift still _) (λ d.
                Moves-bind (SameFile-trans) _ _ (Moves-lift still _)
                  (λ e. Moves-pure still left)))))

    delete_candidates-Moves :
        (cs : List Candidate) (patience : Option ℕ)
        → All (λ c. same_parts c.parts path ≡ false) cs
        → Moves (SameFile path) (delete_candidates attempt cs patience)
    unfolding delete_candidates
    delete_candidates-Moves [] patience h = Moves-pure still tt
    delete_candidates-Moves (c ∷ cs) patience (n, h) =
        Moves-bind (SameFile-trans) _ _ (delete_candidate-Moves c patience n)
          (λ left. delete_candidates-Moves cs left h)

module _ (v : Verifier) (w : Surroundings) (o : Options) (disk : List Stored) where
  -- No candidate of a plan lies at the path of a reachable object.
  plan-avoids :
      (patience : Option ℕ) (p : Planned) (k : Key) (s : Planning v w o disk patience p)
      → IsChecked v
      → Reach v disk s.roots k
      → All (λ c. same_parts c.parts (object_path k) ≡ false) p.0
  plan-avoids patience p k s checked reach = All-weaken _ _ avoids p.0 (
      plan-IsGarbage s.end.marked (time_of o w) o.grace_period w.visits s.end.patience patience p
        s.planning)
    where
      avoids :
          (c : Candidate)
          → IsGarbage s.end.marked (time_of o w) o.grace_period w.visits c
          → same_parts c.parts (object_path k) ≡ false
      avoids c g = elim (Bool-cases (same_parts c.parts (object_path k))) [
        | inr e ↦ e
        | inl e ↦
            let marks =
              mark_published-marks v disk (suc (work v disk [])) s.roots w.patience s.end s.marking
                k in
            let valid =
              Reach-HasValidId v disk (suc (work v disk [])) s.roots w.patience s.end checked
                s.marking k reach in
            let kept = is_collectable-object_path s.end.marked k valid (marks.1 reach) in
            absurd (
              ground (
                arith,
                subst (λ p. is_collectable s.end.marked p ≡ true)
                    (same_parts→eq c.parts (object_path k) e) g.collectable,
                kept,
              ))
      ]

  swept :
      (path : List Bytes) (patience : Option ℕ) (p : Planned)
      → All (λ c. same_parts c.parts path ≡ false) p.0
      → Moves
          (SameFile path)
          (if o.dry_run then pure p.1 else (delete_candidates w.attempt p.0 patience >> pure p.1))
  swept path patience p h =
      Moves-if o.dry_run (pure p.1) _ (λ e. Moves-pure (still path) p.1)
        (λ e.
          Moves-bind (SameFile-trans path) (delete_candidates w.attempt p.0 patience) _
            (delete_candidates-Moves path w.attempt p.0 patience h)
            (λ a. Moves-pure (still path) p.1))

  -- Where VerifyFile accepts only files with valid block identities, a collection leaves the file
  -- of every object that the queried roots reach as it is, whether it succeeds, is a dry run, or
  -- stops at an error after some deletions.
  pub collect-keeps :
      (roots : List Root) (k : Key)
      → IsChecked v
      → w.roots ≡ ok roots
      → Reach v disk roots k
      → find_file (object_path k) (collect v w o disk).1 ≡ find_file (object_path k) disk
  unfolding collect ◌>>=◌ gets lift
  collect-keeps roots k checked is_roots reach =
      continue-moves (SameFile-trans (object_path k)) disk (collection_plan v w o disk, disk) _ refl
        (λ planned e.
          let s = collection_plan-Planning v w o disk planned.0 planned.1 e in
          let q : s.roots ≡ roots = cc (is_roots, s.is_roots) in
          swept (object_path k) planned.0 planned.1 (
            plan-avoids planned.0 planned.1 k s checked
              (subst (λ r. Reach v disk r k) (sym q) reach)))

  -- No candidate of a plan lies at a path at which the walk has seen no expired file.
  plan-spares :
      (patience : Option ℕ) (p : Planned) (path : List Bytes) (s : Planning v w o disk patience p)
      → ((f : Stored)
          → Member (entry path (ok f)) w.visits
          → is_expired (time_of o w) o.grace_period f ≡ false)
      → All (λ c. same_parts c.parts path ≡ false) p.0
  plan-spares patience p path s recent = All-weaken _ _ spares p.0 (
      plan-IsGarbage s.end.marked (time_of o w) o.grace_period w.visits s.end.patience patience p
        s.planning)
    where
      spares :
          (c : Candidate)
          → IsGarbage s.end.marked (time_of o w) o.grace_period w.visits c
          → same_parts c.parts path ≡ false
      spares c g = elim (Bool-cases (same_parts c.parts path)) [
        | inr e ↦ e
        | inl e ↦
            let seen =
              subst (λ q. Member (entry q (ok g.file)) w.visits) (same_parts→eq c.parts path e)
                g.seen in
            absurd (ground (arith, recent g.file seen, g.expired))
      ]

  -- A collection leaves the file at a path as it is, if every file that its walk has seen at that
  -- path is within the grace period or is no regular file.
  pub collect-spares :
      (path : List Bytes)
      → ((f : Stored)
          → Member (entry path (ok f)) w.visits
          → is_expired (time_of o w) o.grace_period f ≡ false)
      → find_file path (collect v w o disk).1 ≡ find_file path disk
  unfolding collect ◌>>=◌ gets lift
  collect-spares path recent =
      continue-moves (SameFile-trans path) disk (collection_plan v w o disk, disk) _ refl
        (λ planned e. swept path planned.0 planned.1 (
          plan-spares planned.0 planned.1 path
            (collection_plan-Planning v w o disk planned.0 planned.1 e) recent))
