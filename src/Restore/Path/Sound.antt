-- ===== src/Restore/Path/Sound.antt =====
-- The way down to the restored path keeps the planner's invariant.
use filecloud.Prelude.{
  Bool, true, false, not, ◌||◌, Option, none, some, List, [], ◌∷◌, if◌then◌else◌,
}
use filecloud.Prelude.Bytes.{Bytes, same}
use filecloud.Prelude.Sets.{ByteSet, member, add}
use filecloud.Prelude.Outcome.{source_path_not_found}
use filecloud.Prelude.Action.{
  Action, fail, Keeps, Keeps-pure, Keeps-lift, Keeps-if, Keeps-bind, Keeps-modify, keeps_rules,
}
use filecloud.Object.Values.{Directory, DirectoryEntry}
use filecloud.Restore.State.{
  Environment, Budget, Node, node_of, absent, Planner, child_of, record_created,
}
use filecloud.Restore.Invariant.{
  IsHonest, IsSound, record_created-IsSound, record_synthesized-IsSound, failed-Keeps,
  missing-Keeps,
}
use filecloud.Restore.Loading.{
  check_entries-Keeps, load_directory-Keeps, load_file-Keeps, validate-Keeps,
}
use filecloud.Restore.Lookup.{restore_directory_entry}
use filecloud.Restore.Walk.{is_directory}
use filecloud.Restore.Overlay.{directory_node, entry_of, root_mtime}
use filecloud.Restore.Overlay.Sound.{note_update-Keeps, replace_node-Keeps, merge_node-Keeps}
use filecloud.Restore.Path.{
  check_node, resolve_from, resolve_path, build_single, build_missing_path, node_or_absent, rebuild,
  apply_path,
}

module _ (env : Environment) (budget : Budget) (honest : IsHonest env) where
  Keeps-found :
      (found : Option DirectoryEntry) (f : DirectoryEntry → Action Planner Node)
      → ((e : DirectoryEntry) → Keeps (IsSound env budget) (f e))
      → Keeps {A = Node} (IsSound env budget) (elim found as (λ o. Action Planner Node) [
        | none ↦ fail source_path_not_found
        | some e ↦ f e
      ])
  Keeps-found none f k = missing-Keeps env budget
  Keeps-found (some e) f k = k e

  Keeps-last :
      (rest : List Bytes) (last more : Action Planner Node)
      → Keeps (IsSound env budget) last
      → Keeps (IsSound env budget) more
      → Keeps {A = Node}
          (IsSound env budget)
          (elim rest as (λ o. Action Planner Node) [ [] ↦ last | _ ∷ _ ↦ more ])
  Keeps-last [] last more kl km = kl
  Keeps-last (x ∷ rest) last more kl km = km

  check_node-Keeps : (node : Node) → Keeps (IsSound env budget) (check_node env budget node)
  check_node-Keeps node =
      search
        (keeps_rules, load_file-Keeps env budget honest, load_directory-Keeps env budget honest)
        depth 8

  resolve_from-Keeps :
      (seen : ByteSet) (current : Node) (parts : List Bytes)
      → Keeps (IsSound env budget) (resolve_from env budget seen current parts)
  unfolding resolve_from
  resolve_from-Keeps seen current [] = Keeps-pure current
  resolve_from-Keeps seen current (part ∷ rest) =
      Keeps-if (not (is_directory current.kind)) _ _ (λ _. missing-Keeps env budget)
        (λ _.
          Keeps-if (member current.id seen) _ _ (λ _. failed-Keeps env budget _)
            (λ _. Keeps-bind _ _ (load_directory-Keeps env budget honest current.id) (λ directory.
              Keeps-found (restore_directory_entry directory.entries part) _ (λ e.
                Keeps-last rest _ _
                  (Keeps-bind _ _ (check_node-Keeps (node_of e)) (λ _. Keeps-pure (node_of e)))
                  (resolve_from-Keeps (add current.id seen) (node_of e) rest)))))

  pub resolve_path-Keeps :
      (root : Bytes) (parts : List Bytes)
      → Keeps (IsSound env budget) (resolve_path env budget root parts)
  unfolding resolve_path
  resolve_path-Keeps root parts = resolve_from-Keeps [] (directory_node root []) parts

  build_single-Keeps :
      (source : Node) (path name : Bytes) (root : Bool) (child : Node)
      → Keeps (IsSound env budget) (build_single env budget source path name root child)
  build_single-Keeps source path name root child =
      Keeps-bind _ _ (check_entries-Keeps env budget honest 1) (λ _.
        Keeps-bind _ _ (Keeps-lift _ (honest.encoding_errors path (entry_of name child ∷ [])))
          (λ made.
            Keeps-bind _ _
              (Keeps-modify _ (record_synthesized-IsSound env budget made.1 made.0 [] source.id))
              (λ _.
                Keeps-bind _ _ (Keeps-modify _ (noted root))
                  (λ _. Keeps-pure (directory_node made.1 (root_mtime root source.mtime))))))
    where
      noted :
          (root : Bool) (p : Planner)
          → IsSound env budget p
          → IsSound env budget ((if root then (λ p. p) else record_created path) p)
      noted true p h = h
      noted false p h = record_created-IsSound env budget path p h

  rebuild-Keeps :
      (current source : Node) (directory : Directory) (path name : Bytes) (root : Bool)
      (child : Node)
      → Keeps
          (IsSound env budget)
          (rebuild env budget current source directory path name root child)
  rebuild-Keeps current source directory path name root child =
      search
        (
          keeps_rules,
          check_entries-Keeps env budget honest,
          Keeps-lift,
          honest.encoding_errors,
          Keeps-modify,
          record_synthesized-IsSound env budget,
          note_update-Keeps env budget honest,
        )
        depth 14

  build_missing_path-Keeps :
      (source : Node) (parts : List Bytes) (path : Bytes) (root : Bool)
      → Keeps (IsSound env budget) (build_missing_path env budget source parts path root)
  unfolding build_missing_path
  build_missing_path-Keeps source [] path root = missing-Keeps env budget
  build_missing_path-Keeps source (name ∷ rest) path root =
      Keeps-if (not source.present || not (is_directory source.kind)) _ _
        (λ _. missing-Keeps env budget)
        (λ _. Keeps-bind _ _ (load_directory-Keeps env budget honest source.id) (λ directory.
          Keeps-found (restore_directory_entry directory.entries name) _ (λ e.
            Keeps-bind _ _ (validate-Keeps env budget honest (child_of path name)) (λ _.
              Keeps-bind _ _
                (Keeps-last rest _ _
                  (merge_node-Keeps env budget honest absent (node_of e) (child_of path name) false)
                  (build_missing_path-Keeps (node_of e) rest (child_of path name) false))
                (build_single-Keeps source path name root)))))

  pub apply_path-Keeps :
      (current source : Node) (parts : List Bytes) (path : Bytes) (root : Bool)
      → Keeps (IsSound env budget) (apply_path env budget current source parts path root)
  unfolding apply_path
  apply_path-Keeps current source [] path root =
      merge_node-Keeps env budget honest current source path root
  apply_path-Keeps current source (name ∷ rest) path root =
      Keeps-if (not source.present || not (is_directory source.kind)) _ _
        (λ _. missing-Keeps env budget)
        (λ _.
          Keeps-if (not current.present) _ _
            (λ _. build_missing_path-Keeps source (name ∷ rest) path root)
            (λ _.
              Keeps-if (not (same current.kind source.kind)) _ _
                (λ _. replace_node-Keeps env budget honest current source path root)
                (λ _. Keeps-bind _ _ (load_directory-Keeps env budget honest current.id) (λ old.
                  Keeps-bind _ _ (load_directory-Keeps env budget honest source.id) (λ directory.
                    Keeps-found (restore_directory_entry directory.entries name) _ (λ e.
                      Keeps-bind _ _ (validate-Keeps env budget honest (child_of path name)) (λ _.
                        Keeps-bind _ _
                          (apply_path-Keeps
                            (node_or_absent (restore_directory_entry old.entries name)) (node_of e)
                            rest (child_of path name) false)
                          (rebuild-Keeps current source old path name root))))))))
