-- ===== src/Restore/Plan.antt =====
-- newRestorePlanner, resultPaths and planRestoreOverlay.
pub mod Sound
pub mod Paths
pub mod Consistent
use filecloud.Prelude.{
  ℕ, zero, suc, ◌+◌, Bool, true, false, not, ◌&&◌, ◌||◌, Option, none, some, List, [], ◌∷◌, ◌++◌,
  ltb, if◌then◌else◌, length, take,
}
use filecloud.Prelude.Bytes.{Bytes, codes, same}
use filecloud.Prelude.ByteOrder.{before}
use filecloud.Prelude.Sets.{ByteSet, member, add, remove}
use filecloud.Prelude.Outcome
use filecloud.Prelude.Outcome.{Result, ok, err, failed}
use filecloud.Prelude.Action.{Action, pure, fail, lift, gets, modify, guard, ◌>>=◌, ◌>>◌}
use filecloud.Object.Ids.{valid_id}
use filecloud.Object.Values.{File, Directory, DirectoryEntry}
use filecloud.Restore.State.{
  Environment, Budget, Node, Planner, new_planner, CheckoutPath, ScannedObject, child_of, get,
  load_directory, load_file, validate_result_path,
}
use filecloud.Restore.Walk.{is_file, enter_walk, leave_walk}
use filecloud.Restore.Overlay.{sort_names, directory_node}
use filecloud.Restore.Path.{restore_path_parts, resolve_path, apply_path}

-- restorePlanInput; of its loader, which Environment has, whether it is there.
pub record Input : Type 0 where
  pub current_root : Bytes
  pub source_root : Bytes
  pub source_path : Bytes
  pub has_loader : Bool
  pub budget : Option Budget

pub record Plan : Type 0 where
  pub result_root : Bytes
  pub directories : List ScannedObject
  pub paths : List CheckoutPath
  pub created_count : ℕ
  pub updated_count : ℕ
  pub type_replacement_count : ℕ
  pub removed_descendant_count : ℕ
  pub preserved_current_only_count : ℕ
  pub changed_paths : List Bytes
  pub changed_path_count : ℕ
  pub preview_truncated : Bool

abbrev pub preview_path_limit : ℕ
preview_path_limit = 100

abbrev pub default_budget : Budget
default_budget = record {
  max_depth = 256;
  max_objects = 2000000;
  max_paths = 2000000;
  max_path_bytes = 1024;
  max_directory_entries = 100000;
}

abbrev pub budget_or_default : Option Budget → Budget
budget_or_default none = default_budget
budget_or_default (some b) = b

abbrev pub not_positive : Budget → Bool
not_positive b =
    ltb b.max_depth 1
    || ltb b.max_objects 1
    || ltb b.max_paths 1
    || ltb b.max_path_bytes 1
    || ltb b.max_directory_entries 1

-- The keys of planner.synthesized, each once.
abbrev keys_of : List (Bytes × Bytes) → ByteSet
keys_of [] = []
keys_of ((id, content) ∷ rest) = add id (keys_of rest)

abbrev scanned_of : List (Bytes × Bytes) → Bytes → ScannedObject
scanned_of m id = record {
  kind = codes "directories";
  id = id;
  content = elim (get id m) [ none ↦ [] | some content ↦ content ];
}

abbrev all_scanned : List (Bytes × Bytes) → List Bytes → List ScannedObject
all_scanned m [] = []
all_scanned m (id ∷ ids) = scanned_of m id ∷ all_scanned m ids

-- The plan of a planner that is done.
abbrev pub plan_of : Bytes → List CheckoutPath → Planner → Plan
plan_of root paths p =
    let changed = sort_names p.changed in
    record {
      result_root = root;
      directories = all_scanned p.synthesized (sort_names (keys_of p.synthesized));
      paths = paths;
      created_count = p.created_count;
      updated_count = p.updated_count;
      type_replacement_count = length p.type_replacements;
      removed_descendant_count = length p.removed_descendants;
      preserved_current_only_count = length p.preserved_current_only;
      changed_paths =
          if ltb preview_path_limit (length changed)
          then take preview_path_limit changed
          else changed;
      changed_path_count = length changed;
      preview_truncated = ltb preview_path_limit (length changed);
    }

abbrev checkout_path : Bytes → DirectoryEntry → ℕ → CheckoutPath
checkout_path path e size = record {
  path = path;
  kind = e.kind;
  id = e.id;
  mtime = e.modified_at;
  size = size;
}

module _ (env : Environment) (budget : Budget) where
  abbrev pub path_size : DirectoryEntry → Action Planner ℕ
  path_size e =
      if is_file e.kind then (load_file env budget e.id >>= λ file. pure file.size) else pure 0

  -- The entries of a directory, with those below each, by `below`.
  unfoldable pub entry_paths :
      (Bytes → Bytes → Action Planner (List CheckoutPath))
      → Bytes
      → List DirectoryEntry
      → Action Planner (List CheckoutPath)
  entry_paths below prefix [] = pure []
  entry_paths below prefix (e ∷ rest) = do
    validate_result_path env budget (child_of prefix e.name)
    size ← path_size e
    children ← if is_file e.kind then pure [] else below e.id (child_of prefix e.name)
    others ← entry_paths below prefix rest
    pure (checkout_path (child_of prefix e.name) e size ∷ children ++ others)

  -- The first argument is the number of levels that the budget leaves: maxDepth + 1 - depth.
  unfoldable pub result_paths : ℕ → Bytes → Bytes → Action Planner (List CheckoutPath)
  result_paths zero id prefix = fail (failed "restore planner exceeds directory depth budget")
  result_paths (suc room) id prefix = do
    enter_walk id
    directory ← load_directory env budget id
    paths ← entry_paths (λ i p. result_paths room i p) prefix directory.entries
    leave_walk id
    pure paths

  abbrev pub check_source_path : Bytes → Action Planner (Unit {0})
  check_source_path path =
      if same path (codes ".") then pure tt else validate_result_path env budget path

  -- planRestoreOverlay behind the planner's construction.
  unfoldable pub overlay : Input → Action Planner Plan
  overlay input = do
    check_source_path input.source_path
    first ← load_directory env budget input.current_root
    second ← load_directory env budget input.source_root
    found ← resolve_path env budget input.source_root (restore_path_parts input.source_path)
    result ←
        apply_path env budget (directory_node input.current_root [])
          (directory_node input.source_root []) (restore_path_parts input.source_path) [] true
    paths ← result_paths (suc budget.max_depth) result.id []
    gets (plan_of result.id paths)

-- newRestorePlanner: its tests, and the budget in force.
unfoldable pub new_restore_planner : Environment → Input → Result Budget
new_restore_planner env input =
    if not (valid_id input.current_root) || not (valid_id input.source_root)
    then err (failed "restore roots must be complete lowercase object IDs")
    else if not (env.valid_path input.source_path)
    then err (failed "restore source path must be canonical")
    else if not input.has_loader
    then err (failed "restore object loader is required")
    else if not_positive (budget_or_default input.budget)
    then err (failed "restore planner budgets must be positive")
    else ok (budget_or_default input.budget)

abbrev pub plan_from : Result (Plan × Planner) → Result Plan
plan_from (ok (plan, p)) = ok plan
plan_from (err e) = err e

abbrev pub plan_in : Environment → Input → Result Budget → Result Plan
plan_in env input (err e) = err e
plan_in env input (ok budget) = plan_from (overlay env budget input new_planner)

unfoldable pub plan_restore_overlay : Environment → Input → Result Plan
unfolding overlay new_restore_planner
plan_restore_overlay env input = plan_in env input (new_restore_planner env input)
