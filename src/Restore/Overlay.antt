-- ===== src/Restore/Overlay.antt =====
-- mergeNode, replaceNode and mergeDirectories: a source node laid over a current one.
pub mod Sound
use filecloud.Prelude.{
  ℕ, zero, suc, ◌+◌, Bool, true, false, not, ◌&&◌, ◌||◌, Option, none, some, List, [], ◌∷◌, ◌++◌,
  if◌then◌else◌, length,
}
use filecloud.Prelude.Bytes.{Bytes, codes, same}
use filecloud.Prelude.ByteOrder.{before, later}
use filecloud.Prelude.Sets.{ByteSet, member, add, remove}
use filecloud.Prelude.Outcome.{failed, out_of_fuel, source_path_not_found}
use filecloud.Prelude.Action.{Action, pure, fail, lift, gets, modify, guard, ◌>>=◌, ◌>>◌}
use filecloud.Object.Values.{Directory, DirectoryEntry}
use filecloud.Restore.State.{
  Environment, Budget, Node, absent, node_of, Planner, ScanEntry, child_of, check_directory_entries,
  load_directory, load_file, validate_result_path, record_created, record_updated,
  record_type_replacement, record_removed_descendant, record_synthesized_directory,
}
use filecloud.Restore.Walk.{
  is_file, is_directory, walk_node_descendants, record_created_subtree, record_preserved_subtree,
  levels,
}

-- restoreEntriesByName; of two entries with one name the last would stay.
abbrev pub by_name : Bytes → List DirectoryEntry → Option DirectoryEntry
by_name name [] = none
by_name name (e ∷ rest) = elim (by_name name rest) [
  | some d ↦ some d
  | none ↦ if same e.name name then some e else none
]

abbrev pub insert_name : Bytes → List Bytes → List Bytes
insert_name name [] = name ∷ []
insert_name name (x ∷ xs) = if before x name then x ∷ insert_name name xs else name ∷ x ∷ xs

-- sort.Strings
abbrev pub sort_names : List Bytes → List Bytes
sort_names [] = []
sort_names (x ∷ xs) = insert_name x (sort_names xs)

abbrev pub add_names : List DirectoryEntry → ByteSet → ByteSet
add_names [] names = names
add_names (e ∷ rest) names = add_names rest (add e.name names)

-- The names of both directories, in order.
abbrev pub ordered_names : Directory → Directory → List Bytes
ordered_names current source = sort_names (add_names source.entries (add_names current.entries []))

abbrev pub entry_of : Bytes → Node → ScanEntry
entry_of name child = record {
  name = name;
  kind = child.kind;
  id = child.id;
  modified = child.mtime;
}

abbrev pub directory_node : Bytes → Bytes → Node
directory_node id mtime = record {
  present = true;
  kind = codes "Directory";
  id = id;
  mtime = mtime;
}

-- `!root && (result.id != current.id || result.mtime != current.mtime)`
abbrev pub note_update : Bool → Node → Node → Bytes → Planner → Planner
note_update root result current path p =
    if not root && (not (same result.id current.id) || not (same result.mtime current.mtime))
    then record_updated path p
    else p

-- `active` maps the two identities of the directories that are being merged.
abbrev pub key_of : Node → Node → Bytes
key_of current source = current.id ++ 0 ∷ source.id

abbrev pub enter_merge : Bytes → Action Planner (Unit {0})
enter_merge key = do
  active ← gets (λ p. member key p.active)
  guard (not active) (failed "restore directory graph contains a cycle")
  modify (λ p. record p { active = add key p.active })

abbrev pub leave_merge : Bytes → Action Planner (Unit {0})
leave_merge key = modify (λ p. record p { active = remove key p.active })

-- `result.mtime = ""` for the root.
abbrev pub root_mtime : Bool → Bytes → Bytes
root_mtime root mtime = if root then [] else mtime

module _ (env : Environment) (budget : Budget) where
  unfoldable pub replace_node : Node → Node → Bytes → Bool → Action Planner Node
  replace_node current source path root =
      if root then fail (failed "restore cannot replace the root object type") else do
        validate_result_path env budget path
        walk_node_descendants env budget record_removed_descendant current path
        walk_node_descendants env budget record_created source path
        modify (record_type_replacement path)
        pure source

  abbrev pub merge_files : Node → Node → Bytes → Bool → Action Planner Node
  merge_files current source path root = do
    first ← load_file env budget current.id
    second ← load_file env budget source.id
    if same current.id source.id && same current.mtime source.mtime
        then pure current
        else if root
        then pure source
        else modify (record_updated path) >>= λ _. pure source

  -- mergeNode, with mergeDirectories as an argument.
  abbrev pub merge_node_with :
      (Node → Node → Bytes → Bool → Action Planner Node)
      → Node
      → Node
      → Bytes
      → Bool
      → Action Planner Node
  merge_node_with directories current source path root =
      if not source.present
      then fail source_path_not_found
      else if not current.present
      then (record_created_subtree env budget source path root >>= λ _. pure source)
      else if not (same current.kind source.kind)
      then replace_node current source path root
      else if is_file source.kind
      then merge_files current source path root
      else if is_directory source.kind
      then directories current source path root
      else fail (failed "restore tree contains an invalid object type")

  -- The child of one name, by the three cases of the loop. Every name is one of an entry.
  abbrev pub merge_child :
      (Node → Node → Bytes → Bool → Action Planner Node)
      → Option DirectoryEntry
      → Option DirectoryEntry
      → Bytes
      → Action Planner Node
  merge_child merge (some c) none path =
      record_preserved_subtree env budget (node_of c) path >>= λ _. pure (node_of c)
  merge_child merge none none path = fail source_path_not_found
  merge_child merge none (some s) path = merge absent (node_of s) path false
  merge_child merge (some c) (some s) path = merge (node_of c) (node_of s) path false

  abbrev pub merge_name :
      (Node → Node → Bytes → Bool → Action Planner Node)
      → Directory
      → Directory
      → Bytes
      → Bytes
      → Action Planner ScanEntry
  merge_name merge current source path name = do
    validate_result_path env budget (child_of path name)
    child ←
        merge_child merge (by_name name current.entries) (by_name name source.entries)
          (child_of path name)
    pure (entry_of name child)

  unfoldable pub merge_names :
      (Node → Node → Bytes → Bool → Action Planner Node)
      → Directory
      → Directory
      → Bytes
      → List Bytes
      → Action Planner (List ScanEntry)
  merge_names merge current source path [] = pure []
  merge_names merge current source path (name ∷ rest) = do
    entry ← merge_name merge current source path name
    entries ← merge_names merge current source path rest
    pure (entry ∷ entries)

  -- mergeDirectories, with mergeNode as an argument.
  unfoldable pub merge_directories_with :
      (Node → Node → Bytes → Bool → Action Planner Node)
      → Node
      → Node
      → Bytes
      → Bool
      → Action Planner Node
  unfolding merge_names
  merge_directories_with merge current source path root = do
    enter_merge (key_of current source)
    current_directory ← load_directory env budget current.id
    source_directory ← load_directory env budget source.id
    let ordered = ordered_names current_directory source_directory
    check_directory_entries env budget (length ordered)
    entries ← merge_names merge current_directory source_directory path ordered
    (content, id) ← lift (env.canonical_directory path entries)
    modify (record_synthesized_directory id content current.id source.id)
    let result = directory_node id (root_mtime root (later current.mtime source.mtime))
    modify (note_update root result current path)
    leave_merge (key_of current source)
    pure result

  -- The first argument bounds how deep the calls go. Each level's paths are one component longer, and
  -- a path that is too deep is refused first, so that one level more than the budget is enough.
  unfoldable pub merge_directories : ℕ → Node → Node → Bytes → Bool → Action Planner Node
  merge_directories zero current source path root = fail out_of_fuel
  merge_directories (suc fuel) current source path root =
      merge_directories_with (merge_node_with (λ c s p r. merge_directories fuel c s p r)) current
        source path root

  unfoldable pub merge_node : Node → Node → Bytes → Bool → Action Planner Node
  unfolding merge_directories
  merge_node = merge_node_with (merge_directories (levels env budget))
