-- ===== src/Restore/State.antt =====
-- restorePlanner, its loaders and its records of paths.
use filecloud.Prelude.{
  ℕ, ◌+◌, Bool, true, false, not, ◌&&◌, ◌||◌, Option, none, some, List, [], ◌∷◌, ◌++◌, leb, ltb,
  ◌==◌, if◌then◌else◌, length,
}
use filecloud.Prelude.Bytes.{Bytes, codes, same}
use filecloud.Prelude.Sets.{ByteSet, member, add}
use filecloud.Prelude.Outcome.{Result, ok, failed}
use filecloud.Prelude.Action.{Action, pure, fail, lift, gets, modify, guard, ◌>>=◌, ◌>>◌}
use filecloud.Object.Ids.{valid_id}
use filecloud.Object.Values.{File, Directory, DirectoryEntry}

-- scanEntry of worktree_scan.go
pub record ScanEntry : Type 0 where
  pub name : Bytes
  pub kind : Bytes
  pub id : Bytes
  pub modified : Bytes

-- checkoutPath of library_checkout.go, as far as a plan fills it in.
pub record CheckoutPath : Type 0 where
  pub path : Bytes
  pub kind : Bytes
  pub id : Bytes
  pub mtime : Bytes
  pub size : ℕ

-- scannedObject of worktree_scan.go
pub record ScannedObject : Type 0 where
  pub kind : Bytes
  pub id : Bytes
  pub content : Bytes

-- What the planner calls: the loader that it is given, VerifyFile, VerifyDirectory and ValidPath of
-- internal/object, and canonicalDirectory of worktree_scan.go.
pub record Environment : Type 0 where
  pub load : Bytes → Bytes → Result Bytes
  pub verify_file : Bytes → Bytes → Result File
  pub verify_directory : Bytes → Bytes → Result Directory
  pub valid_path : Bytes → Bool
  pub canonical_directory : Bytes → List ScanEntry → Result (Bytes × Bytes)

-- restorePlanBudget; a negative limit is refused like 0.
pub record Budget : Type 0 where
  pub max_depth : ℕ
  pub max_objects : ℕ
  pub max_paths : ℕ
  pub max_path_bytes : ℕ
  pub max_directory_entries : ℕ

-- restorePlanNode
pub record Node : Type 0 where
  pub present : Bool
  pub kind : Bytes
  pub id : Bytes
  pub mtime : Bytes

abbrev pub absent : Node
absent = record { present = false; kind = []; id = []; mtime = [] }

abbrev pub node_of : DirectoryEntry → Node
node_of e = record { present = true; kind = e.kind; id = e.id; mtime = e.modified_at }

-- restorePlanner without its input and its budget. A map from identities is the list of its pairs,
-- the newest first.
pub record Planner : Type 0 where
  pub directories : List (Bytes × Directory)
  pub files : List (Bytes × File)
  pub synthesized : List (Bytes × Bytes)
  pub active : ByteSet
  pub active_walk : ByteSet
  pub changed : ByteSet
  pub type_replacements : ByteSet
  pub removed_descendants : ByteSet
  pub preserved_current_only : ByteSet
  pub validated_paths : ByteSet
  pub object_count : ℕ
  pub created_count : ℕ
  pub updated_count : ℕ

abbrev pub new_planner : Planner
new_planner = record {
  directories = [];
  files = [];
  synthesized = [];
  active = [];
  active_walk = [];
  changed = [];
  type_replacements = [];
  removed_descendants = [];
  preserved_current_only = [];
  validated_paths = [];
  object_count = 0;
  created_count = 0;
  updated_count = 0;
}

-- `value, ok := m[k]`
abbrev pub get {ℓ} : {A : Type ℓ} → Bytes → List (Bytes × A) → Option A
get k [] = none
get k ((j, a) ∷ m) = if same j k then some a else get k m

abbrev pub slashes : Bytes → ℕ
slashes [] = 0
slashes (c ∷ s) = (if c == b'/' then 1 else 0) + slashes s

-- `childPath := name; if path != "" { childPath = path + "/" + name }`
abbrev pub child_of : Bytes → Bytes → Bytes
child_of path name = if same path [] then name else path ++ b'/' ∷ name

-- recordCreated, recordUpdated and recordTypeReplacement
unfoldable pub record_created : Bytes → Planner → Planner
record_created path p =
    if member path p.changed
    then p
    else record p { created_count = p.created_count + 1; changed = add path p.changed }

unfoldable pub record_updated : Bytes → Planner → Planner
record_updated path p =
    if member path p.changed
    then p
    else record p { updated_count = p.updated_count + 1; changed = add path p.changed }

unfoldable pub record_type_replacement : Bytes → Planner → Planner
record_type_replacement path p =
    if member path p.changed
    then p
    else record p { type_replacements = add path p.type_replacements; changed = add path p.changed }

unfoldable pub record_removed_descendant : Bytes → Planner → Planner
record_removed_descendant path p = record p { removed_descendants = add path p.removed_descendants }

unfoldable pub record_preserved : Bytes → Planner → Planner
record_preserved path p = record p { preserved_current_only = add path p.preserved_current_only }

unfoldable pub record_synthesized_directory : Bytes → Bytes → Bytes → Bytes → Planner → Planner
record_synthesized_directory id content current_id source_id p =
    if same id current_id || same id source_id
    then p
    else record p { synthesized = (id, content) ∷ p.synthesized }

module _ (env : Environment) (budget : Budget) where
  unfoldable pub count_object : Action Planner (Unit {0})
  count_object = do
    modify (λ p. record p { object_count = p.object_count + 1 })
    count ← gets (λ p. p.object_count)
    guard (leb count budget.max_objects) (failed "restore planner exceeds object budget")

  unfoldable pub check_directory_entries : ℕ → Action Planner (Unit {0})
  check_directory_entries count =
      guard (leb count budget.max_directory_entries)
        (failed "restore planner exceeds directory entry budget")

  -- A directory that is not in the cache, from its content.
  unfoldable pub admit_directory : Bytes → Result Bytes → Action Planner Directory
  unfolding check_directory_entries count_object
  admit_directory id content = do
    count_object
    found ← lift content
    directory ← lift (env.verify_directory found id)
    check_directory_entries (length directory.entries)
    modify (λ p. record p { directories = (id, directory) ∷ p.directories })
    pure directory

  abbrev pub load_uncached : Bytes → Option Bytes → Action Planner Directory
  load_uncached id none = admit_directory id (env.load (codes "directories") id)
  load_uncached id (some content) = admit_directory id (ok content)

  abbrev pub load_cached : Bytes → Option Directory → Action Planner Directory
  load_cached id (some directory) = pure directory
  load_cached id none = gets (λ p. get id p.synthesized) >>= load_uncached id

  unfoldable pub load_directory : Bytes → Action Planner Directory
  unfolding admit_directory
  load_directory id =
      if not (valid_id id)
      then fail (failed "restore directory reference is invalid")
      else gets (λ p. get id p.directories) >>= load_cached id

  abbrev pub load_file_cached : Bytes → Option File → Action Planner File
  load_file_cached id (some file) = pure file
  load_file_cached id none = do
    count_object
    content ← lift (env.load (codes "files") id)
    file ← lift (env.verify_file content id)
    modify (λ p. record p { files = (id, file) ∷ p.files })
    pure file

  unfoldable pub load_file : Bytes → Action Planner File
  unfolding count_object
  load_file id =
      if not (valid_id id)
      then fail (failed "restore file reference is invalid")
      else gets (λ p. get id p.files) >>= load_file_cached id

  -- A path that is seen for the first time counts against the budget.
  abbrev pub new_path : Bytes → Bool → Action Planner (Unit {0})
  new_path path true = pure tt
  new_path path false = do
    count ← gets (λ p. length p.validated_paths)
    guard (ltb count budget.max_paths) (failed "restore planner exceeds path count budget")
    modify (λ p. record p { validated_paths = add path p.validated_paths })

  abbrev pub within_path_budget : Bytes → Bool
  within_path_budget path =
      env.valid_path path && not (same path (codes ".")) && leb (length path) budget.max_path_bytes

  unfoldable pub validate_result_path : Bytes → Action Planner (Unit {0})
  validate_result_path path = do
    guard (leb (slashes path + 1) budget.max_depth)
        (failed "restore planner exceeds directory depth budget")
    guard (within_path_budget path) (failed "restore planner exceeds path budget")
    known ← gets (λ p. member path p.validated_paths)
    new_path path known
