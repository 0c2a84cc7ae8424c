-- ===== src/Storage/Collector/Plan/Stages.antt =====
-- The stages behind a plan: the roots, the marks and the walk.
use filecloud.Prelude.{ℕ, suc, ◌≡◌, ap, not, Option, List, [], ltb}
use filecloud.Prelude.Outcome.{Result, ok, err, require, >>=-eq-ok, require-ok, ◌>>◌}
use filecloud.Storage.Objects.{Stored, Verifier}
use filecloud.Storage.Collector.{Root, Marking, mark_published}
use filecloud.Storage.Collector.Work.{work}
use filecloud.Storage.Collector.Plan.{
  Planned, Options, Surroundings, plan, mark_all_published, collection_plan, time_of, unpaired,
  minimum_grace_period,
}

-- A plan in its parts.
pub record Planning (v : Verifier) (w : Surroundings) (o : Options) (disk : List Stored)
    (patience : Option ℕ) (p : Planned) : Type 0 where
  pub roots : List Root
  pub is_roots : w.roots ≡ ok roots
  pub end : Marking
  pub marking :
      mark_published v disk
        (suc (work v disk []))
        roots
        (record { marked = []; patience = w.patience })
      ≡ ok (tt, end)
  pub planning :
      plan end.marked (time_of o w) o.grace_period w.visits end.patience ≡ ok (patience, p)

unpaired-ok : (r : Result (Unit {0} × Marking)) (m : Marking) → unpaired r ≡ ok m → r ≡ ok (tt, m)
unpaired-ok (ok (u, n)) m h = let q : n ≡ m = cc in ap (λ x. ok (tt, x)) q
unpaired-ok (err e) m h = cc

pub collection_plan-Planning :
    (v : Verifier) (w : Surroundings) (o : Options) (disk : List Stored) (patience : Option ℕ)
    (p : Planned)
    → collection_plan v w o disk ≡ ok (patience, p)
    → Planning v w o disk patience p
unfolding collection_plan mark_all_published
collection_plan-Planning v w o disk patience p h =
    let (marking, h₁, h₂) = >>=-eq-ok (require _ _ >> mark_all_published v w disk) _ h in
    let (_, h₃) =
      require-ok (not (ltb o.grace_period minimum_grace_period)) _ (mark_all_published v w disk)
        h₁ in
    let (roots, h₄, h₅) = >>=-eq-ok w.roots _ h₃ in
    record {
      roots = roots;
      is_roots = h₄;
      end = marking;
      marking = unpaired-ok _ marking h₅;
      planning = h₂;
    }
