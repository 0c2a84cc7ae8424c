-- ===== src/Restore/Path.antt =====
-- restorePathParts, resolvePath, applyPath and buildMissingPath: the way down to the restored path.
pub mod Sound
use filecloud.Prelude.{
  ℕ, zero, suc, ◌+◌, Bool, true, false, not, ◌&&◌, ◌||◌, Option, none, some, List, [], ◌∷◌, ◌++◌,
  if◌then◌else◌, length, ◌==◌,
}
use filecloud.Prelude.Bytes.{Bytes, codes, same, split}
use filecloud.Prelude.ByteOrder.{before, later}
use filecloud.Prelude.Sets.{ByteSet, member, add}
use filecloud.Prelude.Outcome.{failed, source_path_not_found}
use filecloud.Prelude.Action.{Action, pure, fail, lift, gets, modify, guard, ◌>>=◌, ◌>>◌}
use filecloud.Object.Values.{Directory, DirectoryEntry}
use filecloud.Restore.State.{
  Environment, Budget, Node, absent, node_of, Planner, ScanEntry, child_of, check_directory_entries,
  load_directory, load_file, validate_result_path, record_created, record_synthesized_directory,
}
use filecloud.Restore.Lookup.{restore_directory_entry}
use filecloud.Restore.Walk.{is_file, is_directory}
use filecloud.Restore.Overlay.{
  entry_of, directory_node, note_update, root_mtime, replace_node, merge_node,
}

unfoldable pub restore_path_parts : Bytes → List Bytes
restore_path_parts path = if same path (codes ".") then [] else split path b'/'

-- strings.LastIndexByte: the text behind the last slash.
abbrev leaf_from : Bytes → Bytes → Bytes
leaf_from [] leaf = leaf
leaf_from (c ∷ s) leaf = if c == b'/' then leaf_from s s else leaf_from s leaf

unfoldable pub child_path_leaf : Bytes → Bytes
child_path_leaf path = leaf_from path path

-- sort.Slice by the name.
abbrev pub insert_entry : ScanEntry → List ScanEntry → List ScanEntry
insert_entry e [] = e ∷ []
insert_entry e (x ∷ xs) = if before x.name e.name then x ∷ insert_entry e xs else e ∷ x ∷ xs

abbrev pub sort_entries : List ScanEntry → List ScanEntry
sort_entries [] = []
sort_entries (x ∷ xs) = insert_entry x (sort_entries xs)

abbrev scan_of : DirectoryEntry → ScanEntry
scan_of e = record { name = e.name; kind = e.kind; id = e.id; modified = e.modified_at }

-- The entries of the current directory with the child in the place of the entry of its name; the flag
-- tells whether there was one.
abbrev pub replaced_entries : Bytes → ScanEntry → List DirectoryEntry → List ScanEntry × Bool
replaced_entries name child [] = ([], false)
replaced_entries name child (e ∷ rest) =
    let (entries, inserted) = replaced_entries name child rest in
    if same e.name name then (child ∷ entries, true) else (scan_of e ∷ entries, inserted)

abbrev with_child : Bytes → Node → List ScanEntry × Bool → List ScanEntry
with_child name child (entries, true) = entries
with_child name child (entries, false) = entries ++ entry_of name child ∷ []

abbrev pub entries_with_child : Bytes → Bytes → Node → List DirectoryEntry → List ScanEntry
entries_with_child name path child current =
    sort_entries (
      with_child name child (replaced_entries name (entry_of (child_path_leaf path) child) current))

abbrev pub node_or_absent : Option DirectoryEntry → Node
node_or_absent none = absent
node_or_absent (some e) = node_of e

module _ (env : Environment) (budget : Budget) where
  abbrev pub check_node : Node → Action Planner (Unit {0})
  check_node node =
      if is_file node.kind
      then (load_file env budget node.id >>= λ file. pure tt)
      else (load_directory env budget node.id >>= λ directory. pure tt)

  -- The loop of resolvePath; `seen` holds the directories passed so far.
  unfoldable pub resolve_from : ByteSet → Node → List Bytes → Action Planner Node
  resolve_from seen current [] = pure current
  resolve_from seen current (part ∷ rest) =
      if not (is_directory current.kind)
      then fail source_path_not_found
      else if member current.id seen
      then fail (failed "restore source tree contains a cycle")
      else load_directory env budget current.id >>= λ directory.
          elim (restore_directory_entry directory.entries part) [
            | none ↦ fail source_path_not_found
            | some e ↦ elim rest [
              | [] ↦ check_node (node_of e) >>= λ _. pure (node_of e)
              | _ ∷ _ ↦ resolve_from (add current.id seen) (node_of e) rest
            ]
          ]

  unfoldable pub resolve_path : Bytes → List Bytes → Action Planner Node
  unfolding resolve_from
  resolve_path root parts = resolve_from [] (directory_node root []) parts

  -- What buildMissingPath does behind the child: a directory that holds the child alone.
  abbrev pub build_single : Node → Bytes → Bytes → Bool → Node → Action Planner Node
  build_single source path name root child = do
    check_directory_entries env budget 1
    (content, id) ← lift (env.canonical_directory path (entry_of name child ∷ []))
    modify (record_synthesized_directory id content [] source.id)
    modify (if root then (λ p. p) else record_created path)
    pure (directory_node id (root_mtime root source.mtime))

  unfoldable pub build_missing_path : Node → List Bytes → Bytes → Bool → Action Planner Node
  build_missing_path source [] path root = fail source_path_not_found
  build_missing_path source (name ∷ rest) path root =
      if not source.present || not (is_directory source.kind)
      then fail source_path_not_found
      else load_directory env budget source.id >>= λ directory.
          elim (restore_directory_entry directory.entries name) [
            | none ↦ fail source_path_not_found
            | some e ↦ validate_result_path env budget (child_of path name) >>= λ _.
                elim rest [
                  | [] ↦ merge_node env budget absent (node_of e) (child_of path name) false
                  | _ ∷ _ ↦ build_missing_path (node_of e) rest (child_of path name) false
                ]
                >>= build_single source path name root
          ]

  -- What applyPath does behind the child.
  abbrev pub rebuild : Node → Node → Directory → Bytes → Bytes → Bool → Node → Action Planner Node
  rebuild current source directory path name root child = do
    let entries = entries_with_child name (child_of path name) child directory.entries
    check_directory_entries env budget (length entries)
    (content, id) ← lift (env.canonical_directory path entries)
    modify (record_synthesized_directory id content current.id source.id)
    let result = directory_node id (root_mtime root (later current.mtime source.mtime))
    modify (note_update root result current path)
    pure result

  unfoldable pub apply_path : Node → Node → List Bytes → Bytes → Bool → Action Planner Node
  apply_path current source [] path root = merge_node env budget current source path root
  apply_path current source (name ∷ rest) path root =
      if not source.present || not (is_directory source.kind)
      then fail source_path_not_found
      else if not current.present
      then build_missing_path source (name ∷ rest) path root
      else if not (same current.kind source.kind)
      then replace_node env budget current source path root
      else load_directory env budget current.id >>= λ current_directory.
          load_directory env budget source.id >>= λ source_directory.
          elim (restore_directory_entry source_directory.entries name) [
            | none ↦ fail source_path_not_found
            | some e ↦ validate_result_path env budget (child_of path name) >>= λ _.
                apply_path (node_or_absent (restore_directory_entry current_directory.entries name))
                  (node_of e) rest (child_of path name) false
                >>= rebuild current source current_directory path name root
          ]
