-- ===== src/Storage/Collector/Sweep.antt =====
-- Collect of internal/storage/gc.go: the deletion of the planned files.
pub mod Laws
pub mod Deletes
use filecloud.Prelude.{ℕ, Bool, true, false, Option, none, some, List, [], ◌∷◌, if◌then◌else◌}
use filecloud.Prelude.Bytes.{Bytes}
use filecloud.Prelude.Outcome.{Error, Result, ok, err, failed}
use filecloud.Prelude.Effect.{Effect, pure, lift, gets, modify, ◌>>=◌, ◌>>◌}
use filecloud.Storage.Objects.{Stored, same_parts, Verifier}
use filecloud.Storage.Collector.{tick}
use filecloud.Storage.Collector.Plan.{
  ObjectStats, Candidate, Planned, Removal, removed, missing, refused, Attempt, Options,
  Surroundings, collection_plan,
}

-- The object directory without the file at a path.
abbrev pub without : List Bytes → List Stored → List Stored
without parts [] = []
without parts (f ∷ disk) =
    if same_parts f.parts parts then without parts disk else f ∷ without parts disk

abbrev pub remove_file : List Bytes → Removal → Effect (List Stored) (Unit {0})
remove_file parts removed = modify (without parts)
remove_file parts missing = pure tt
remove_file parts (refused e) = lift (err (failed "delete object"))

module _ (attempt : Candidate → Attempt) where
  unfoldable pub delete_candidate : Candidate → Option ℕ → Effect (List Stored) (Option ℕ)
  delete_candidate c patience = do
    left ← lift (tick patience)
    lift (attempt c).before_delete
    remove_file c.parts (attempt c).removal
    lift (attempt c).synced
    lift (attempt c).after_delete
    pure left

  unfoldable pub delete_candidates : List Candidate → Option ℕ → Effect (List Stored) (Unit {0})
  delete_candidates [] patience = pure tt
  delete_candidates (c ∷ cs) patience = delete_candidate c patience >>= delete_candidates cs

module _ (v : Verifier) (w : Surroundings) where
  unfoldable pub collect : Options → Effect (List Stored) (List ObjectStats)
  collect o = (gets (collection_plan v w o) >>= lift) >>= λ planned.
      if o.dry_run
      then pure planned.1.1
      else (delete_candidates w.attempt planned.1.0 planned.0 >> pure planned.1.1)
