-- ===== src/Restore/Examples.antt =====
-- A small restore: the source holds one file that the current snapshot does not.
use filecloud.Prelude.{
  true, ℕ, zero, suc, ◌≡◌, ◌≢◌, refl, false, not, none, [], ◌∷◌, arith, if◌then◌else◌,
}
use filecloud.Prelude.Bytes.{Bytes, codes, same}
use filecloud.Prelude.Outcome.{Error, Result, ok, err, out_of_fuel}
use filecloud.Prelude.Action.{for_each, pure, fail, lift, gets, modify, guard}
use filecloud.Prelude.Action
use filecloud.Object.Ids.{valid_id}
use filecloud.Object.Values.{Directory, DirectoryEntry}
use filecloud.Restore.State.{Environment, Budget, ScanEntry, ScannedObject, CheckoutPath}
use filecloud.Restore.State
use filecloud.Restore.Lookup.{restore_directory_entry}
use filecloud.Restore.Lookup.Laws.{find, restore_directory_entry-find}
use filecloud.Restore.Walk.{walk_subtree, record_created_subtree}
use filecloud.Restore.Overlay.{merge_node, merge_directories, merge_directories_with, merge_names}
use filecloud.Restore.Path.{restore_path_parts, resolve_path, resolve_from, apply_path}
use filecloud.Restore.Invariant.{IsHonest}
use filecloud.Restore.Plan.{
  overlay, result_paths, entry_paths, Input, Plan, default_budget, new_restore_planner,
  plan_restore_overlay,
}
use filecloud.Restore.State.{Planner, new_planner}
use filecloud.Restore.Plan.Consistent.{
  IsConsistent, plan_restore_overlay-total, plan_restore_overlay-IsConsistent,
}

abbrev copies : ℕ → ℕ → Bytes
copies zero c = []
copies (suc n) c = c ∷ copies n c

abbrev empty_root : Bytes
empty_root = copies 64 b'a'

abbrev source_root : Bytes
source_root = copies 64 b'b'

abbrev file_id : Bytes
file_id = copies 64 b'c'

abbrev result_root : Bytes
result_root = copies 64 b'd'

abbrev note : DirectoryEntry
note = record {
  id = file_id;
  modified_at = codes "2024-02-29T23:59:58Z";
  name = codes "note";
  kind = codes "File";
}

abbrev todo : DirectoryEntry
todo = record note { name = codes "todo" }

restore_directory_entry-find_example :
    restore_directory_entry (note ∷ todo ∷ []) (codes "todo")
    ≡ find (note ∷ todo ∷ []) (codes "todo")
restore_directory_entry-find_example =
    restore_directory_entry-find (note ∷ todo ∷ []) (codes "todo") ((refl, tt), (tt, tt))

-- The empty directory has one identity, the directory of the note the two others.
abbrev directory_at : Bytes → Result Directory
directory_at id =
    if same id empty_root then ok (record { entries = [] }) else ok (record { entries = note ∷ [] })

abbrev environment : Environment
environment = record {
  load = λ kind id. ok id;
  verify_file = λ content id. ok (record { blocks = []; size = 0 });
  verify_directory = λ content id. directory_at id;
  valid_path = λ path. not (same path []);
  canonical_directory = λ path entries. ok (codes "content", result_root);
}

environment-IsHonest : IsHonest environment
environment-IsHonest = record {
  load_errors = λ k i e h. cc;
  file_errors = λ c i e h. cc;
  directory_errors = λ c i e h. never i e h;
  encoding_errors = λ p es e h. cc;
  empty_path = refl;
}
  where
    never : (i : Bytes) (e : Error) → directory_at i ≡ err e → e ≢ out_of_fuel
    never i e h = ground arith

abbrev input : Input
input = record {
  current_root = empty_root;
  source_root = source_root;
  source_path = codes ".";
  has_loader = true;
  budget = none;
}

plan_restore_overlay-total_example : plan_restore_overlay environment input ≢ err out_of_fuel
plan_restore_overlay-total_example =
    plan_restore_overlay-total environment environment-IsHonest input

abbrev plan : Plan
plan = record {
  result_root = result_root;
  directories =
      record { kind = codes "directories"; id = result_root; content = codes "content" } ∷ [];
  paths =
      record {
        path = codes "note";
        kind = codes "File";
        id = file_id;
        mtime = codes "2024-02-29T23:59:58Z";
        size = 0;
      }
      ∷ [];
  created_count = 1;
  updated_count = 0;
  type_replacement_count = 0;
  removed_descendant_count = 0;
  preserved_current_only_count = 0;
  changed_paths = codes "note" ∷ [];
  changed_path_count = 1;
  preview_truncated = false;
}

admitted : new_restore_planner environment input ≡ ok default_budget
unfolding new_restore_planner valid_id
admitted = refl

planned : plan_restore_overlay environment input ≡ ok plan
unfolding plan_restore_overlay new_restore_planner overlay valid_id Action.◌>>=◌
    State.load_directory State.load_file State.count_object State.check_directory_entries
    State.admit_directory State.validate_result_path State.record_created State.record_updated
    State.record_synthesized_directory resolve_path resolve_from restore_path_parts apply_path
    result_paths entry_paths merge_node merge_directories merge_directories_with merge_names
    record_created_subtree walk_subtree for_each restore_directory_entry
planned = refl

plan_restore_overlay-IsConsistent_example : IsConsistent environment default_budget plan
plan_restore_overlay-IsConsistent_example =
    plan_restore_overlay-IsConsistent environment environment-IsHonest input default_budget plan
      admitted planned

-- The planner behind that run.
abbrev final : Planner
final = elim (overlay environment default_budget input new_planner) [
  | ok (made, p) ↦ p
  | err e ↦ new_planner
]
