-- ===== src/Restore/Overlay/Sound.antt =====
-- The merge of two nodes keeps the planner's invariant, and its levels are enough.
use filecloud.Prelude.{
  ℕ, zero, suc, ◌+◌, ◌≤◌, ◌<◌, ◌≡◌, refl, Bool, false, not, ◌&&◌, ◌||◌, Option, none, some, List,
  [], ◌∷◌, arith, Bool-cases, inl, inr,
}
use filecloud.Prelude.Bytes.{Bytes, same}
use filecloud.Prelude.ByteOrder.{later}
use filecloud.Prelude.Sets.{add, remove}
use filecloud.Prelude.Action.{
  Action, modify, Keeps, Keeps-pure, Keeps-gets, Keeps-lift, Keeps-if, Keeps-bind, keeps_rules,
  Keeps-modify,
}
use filecloud.Object.Values.{Directory, DirectoryEntry}
use filecloud.Restore.State.{Environment, Budget, Node, node_of, absent, Planner, child_of}
use filecloud.Restore.Invariant.{
  depth, IsHonest, InBudget, IsSound, SameRecords-IsSound, record_created-IsSound,
  record_updated-IsSound, record_type_replacement-IsSound, record_removed-IsSound,
  record_synthesized-IsSound, failed-Keeps, missing-Keeps, guard-Keeps,
}
use filecloud.Restore.Loading.{
  check_entries-Keeps, load_directory-Keeps, load_file-Keeps, validate-Keeps, validate_then,
}
use filecloud.Restore.Walk.{is_file, is_directory, levels}
use filecloud.Restore.Walk.Sound.{
  slashes-child, walk_node_descendants-Keeps, record_created_subtree-Keeps,
  record_preserved_subtree-Keeps,
}
use filecloud.Restore.Overlay.{
  by_name, ordered_names, entry_of, directory_node, note_update, key_of, enter_merge, root_mtime,
  replace_node, merge_files, merge_node_with, merge_child, merge_names, merge_directories_with,
  merge_directories, merge_node,
}

module _ (env : Environment) (budget : Budget) (honest : IsHonest env) where
  nonempty : (path : Bytes) → InBudget env budget path → same path [] ≡ false
  nonempty [] fits = ground (arith, honest.empty_path, fits.within)
  nonempty (c ∷ path) fits = refl

  depth-InBudget : (path : Bytes) → InBudget env budget path → depth path ≤ budget.max_depth
  depth-InBudget path fits = ground (arith, nonempty path fits, fits.shallow)

  -- A child's path that is in the budget is at least one level below its parent's.
  depth-below :
      (path name : Bytes)
      → InBudget env budget (child_of path name)
      → depth path + 1 ≤ depth (child_of path name)
  depth-below [] name fits = ground (arith, nonempty name fits)
  depth-below (c ∷ path) name fits = omega (arith, slashes-child (c ∷ path) name)

  pub note_update-Keeps :
      (root : Bool) (result current : Node) (path : Bytes)
      → Keeps (IsSound env budget) (modify (note_update root result current path))
  note_update-Keeps root result current path = Keeps-modify _ noted
    where
      noted :
          (p : Planner)
          → IsSound env budget p
          → IsSound env budget (note_update root result current path p)
      noted p h =
          elim (Bool-cases (
            not root
            && (not (same result.id current.id) || not (same result.mtime current.mtime)))) [
              | inl new ↦ rw new (record_updated-IsSound env budget path p h)
              | inr old ↦ rw old h
            ]

  set_active :
      (f : Planner → List Bytes)
      → Keeps (IsSound env budget) (modify (λ p. record p { active = f p }))
  set_active f = Keeps-modify _ (λ p h.
      SameRecords-IsSound env budget p _
        (record {
          changed = refl;
          replacements = refl;
          created = refl;
          updated = refl;
          objects = refl;
          directories = refl;
          files = refl;
          validated = refl;
        })
        h)

  enter_merge-Keeps : (key : Bytes) → Keeps (IsSound env budget) (enter_merge key)
  enter_merge-Keeps key = Keeps-bind _ _ (Keeps-gets _) (λ active.
      Keeps-bind _ _ (guard-Keeps env budget _ _) (λ _. set_active (λ p. add key p.active)))

  pub replace_node-Keeps :
      (current source : Node) (path : Bytes) (root : Bool)
      → Keeps (IsSound env budget) (replace_node env budget current source path root)
  unfolding replace_node
  replace_node-Keeps current source path root =
      search
        (
          keeps_rules,
          failed-Keeps env budget,
          validate-Keeps env budget honest,
          walk_node_descendants-Keeps env budget honest,
          Keeps-modify,
          record_created-IsSound env budget,
          record_removed-IsSound env budget,
          record_type_replacement-IsSound env budget,
        )
        depth 14

  merge_files-Keeps :
      (current source : Node) (path : Bytes) (root : Bool)
      → Keeps (IsSound env budget) (merge_files env budget current source path root)
  merge_files-Keeps current source path root =
      search
        (
          keeps_rules,
          load_file-Keeps env budget honest,
          Keeps-modify,
          record_updated-IsSound env budget,
        )
        depth 14

  -- A merge of nodes keeps the invariant where the merge of directories does.
  merge_node_with-Keeps :
      (directories : Node → Node → Bytes → Bool → Action Planner Node) (current source : Node)
      (path : Bytes) (root : Bool)
      → Keeps (IsSound env budget) (directories current source path root)
      → Keeps (IsSound env budget) (merge_node_with env budget directories current source path root)
  merge_node_with-Keeps directories current source path root below =
      Keeps-if (not source.present) _ _ (λ _. missing-Keeps env budget)
        (λ _.
          Keeps-if (not current.present) _ _
            (λ _.
              Keeps-bind _ _ (record_created_subtree-Keeps env budget honest source path root)
                (λ _. Keeps-pure source))
            (λ _.
              Keeps-if (not (same current.kind source.kind)) _ _
                (λ _. replace_node-Keeps current source path root)
                (λ _.
                  Keeps-if (is_file source.kind) _ _
                    (λ _. merge_files-Keeps current source path root)
                    (λ _.
                      Keeps-if (is_directory source.kind) _ _ (λ _. below)
                        (λ _. failed-Keeps env budget _)))))

  module _ (merge : Node → Node → Bytes → Bool → Action Planner Node) (path : Bytes)
      (below : (name : Bytes)
        → InBudget env budget (child_of path name)
        → (c s : Node) → Keeps (IsSound env budget) (merge c s (child_of path name) false)) where
    merge_child-Keeps :
        (c s : Option DirectoryEntry) (name : Bytes)
        → InBudget env budget (child_of path name)
        → Keeps (IsSound env budget) (merge_child env budget merge c s (child_of path name))
    merge_child-Keeps (some c) none name fits =
        Keeps-bind _ _ (record_preserved_subtree-Keeps env budget honest (node_of c) _)
          (λ _. Keeps-pure (node_of c))
    merge_child-Keeps none none name fits = missing-Keeps env budget
    merge_child-Keeps none (some s) name fits = below name fits absent (node_of s)
    merge_child-Keeps (some c) (some s) name fits = below name fits (node_of c) (node_of s)

    merge_names-Keeps :
        (current source : Directory) (names : List Bytes)
        → Keeps (IsSound env budget) (merge_names env budget merge current source path names)
    unfolding merge_names
    merge_names-Keeps current source [] = Keeps-pure []
    merge_names-Keeps current source (name ∷ rest) =
        Keeps-bind _ _
          (validate_then env budget honest (child_of path name) _ (λ fits _.
            Keeps-bind _ _
              (merge_child-Keeps (by_name name current.entries) (by_name name source.entries) name
                fits)
              (λ child. Keeps-pure (entry_of name child))))
          (λ entry.
            Keeps-bind _ _ (merge_names-Keeps current source rest)
              (λ entries. Keeps-pure (entry ∷ entries)))

    -- What mergeDirectories does behind the load of both directories.
    merge_directories_with-Keeps :
        (current source : Node) (root : Bool)
        → Keeps
            (IsSound env budget)
            (merge_directories_with env budget merge current source path root)
    unfolding merge_directories_with
    merge_directories_with-Keeps current source root =
        Keeps-bind _ _ (enter_merge-Keeps (key_of current source)) (λ _.
          Keeps-bind _ _ (load_directory-Keeps env budget honest current.id) (λ first.
            Keeps-bind _ _ (load_directory-Keeps env budget honest source.id) (λ second.
              Keeps-bind _ _ (check_entries-Keeps env budget honest _) (λ _.
                Keeps-bind _ _ (merge_names-Keeps first second (ordered_names first second))
                  (λ entries.
                    Keeps-bind _ _ (Keeps-lift _ (honest.encoding_errors path entries)) (λ made.
                      Keeps-bind _ _
                        (Keeps-modify _ (
                          record_synthesized-IsSound env budget made.1 made.0 current.id source.id))
                        (λ _.
                          Keeps-bind _ _
                            (note_update-Keeps root
                              (directory_node made.1
                                (root_mtime root (later current.mtime source.mtime)))
                              current path)
                            (λ _.
                              Keeps-bind _ _
                                (set_active (λ p. remove (key_of current source) p.active))
                                (λ _. Keeps-pure _)))))))))

  merge_directories-Keeps :
      (fuel : ℕ) (current source : Node) (path : Bytes) (root : Bool)
      → 0 < fuel
      → budget.max_depth < depth path + fuel
      → Keeps (IsSound env budget) (merge_directories env budget fuel current source path root)
  unfolding merge_directories
  merge_directories-Keeps zero current source path root h enough = absurd (omega arith)
  merge_directories-Keeps (suc fuel) current source path root h enough =
      merge_directories_with-Keeps (merge_below fuel) path
        (λ name fits c s.
          merge_node_with-Keeps (λ c s p r. merge_directories env budget fuel c s p r) c s
            (child_of path name) false
            (merge_directories-Keeps fuel c s (child_of path name) false
              (omega (arith, depth-InBudget (child_of path name) fits, depth-below path name fits))
              (omega (arith, depth-below path name fits))))
        current source root
    where
      merge_below : ℕ → Node → Node → Bytes → Bool → Action Planner Node
      merge_below fuel =
          merge_node_with env budget (λ c s p r. merge_directories env budget fuel c s p r)

  pub merge_node-Keeps :
      (current source : Node) (path : Bytes) (root : Bool)
      → Keeps (IsSound env budget) (merge_node env budget current source path root)
  unfolding merge_node
  merge_node-Keeps current source path root =
      merge_node_with-Keeps (merge_directories env budget (levels env budget)) current source path
        root
        (merge_directories-Keeps (levels env budget) current source path root (omega arith)
          (omega arith))
