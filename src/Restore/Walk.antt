-- ===== src/Restore/Walk.antt =====
-- walkSubtree, walkNodeDescendants and the records of whole subtrees.
pub mod Sound
use filecloud.Prelude.{
  ℕ, zero, suc, ◌+◌, Bool, true, false, not, Option, none, some, List, [], ◌∷◌, ◌++◌, if◌then◌else◌,
}
use filecloud.Prelude.Bytes.{Bytes, codes, same}
use filecloud.Prelude.Sets.{member, add, remove}
use filecloud.Prelude.Outcome.{failed, out_of_fuel}
use filecloud.Prelude.Action.{Action, pure, fail, gets, modify, guard, ◌>>=◌, ◌>>◌, for_each}
use filecloud.Object.Values.{Directory, DirectoryEntry}
use filecloud.Restore.State.{
  Environment, Budget, Node, node_of, Planner, load_directory, load_file, validate_result_path,
  record_created, record_preserved,
}

abbrev pub Visit : Type 0
Visit = Bytes → Planner → Planner

abbrev pub is_file : Bytes → Bool
is_file kind = same kind (codes "File")

abbrev pub is_directory : Bytes → Bool
is_directory kind = same kind (codes "Directory")

abbrev pub enter_walk : Bytes → Action Planner (Unit {0})
enter_walk id = do
  active ← gets (λ p. member id p.active_walk)
  guard (not active) (failed "restore directory graph contains a cycle")
  modify (λ p. record p { active_walk = add id p.active_walk })

abbrev pub leave_walk : Bytes → Action Planner (Unit {0})
leave_walk id = modify (λ p. record p { active_walk = remove id p.active_walk })

module _ (env : Environment) (budget : Budget) where
  abbrev pub visit_file : Visit → Node → Bytes → Action Planner (Unit {0})
  visit_file visit node path = load_file env budget node.id >>= λ file. modify (visit path)

  -- A directory, whose entries are walked by `walk`.
  abbrev pub visit_directory :
      Visit → (Node → Bytes → Action Planner (Unit {0})) → Node → Bytes → Action Planner (Unit {0})
  visit_directory visit walk node path = do
    enter_walk node.id
    directory ← load_directory env budget node.id
    modify (visit path)
    for_each (λ e. walk (node_of e) (path ++ b'/' ∷ e.name)) directory.entries
    leave_walk node.id

  -- The first argument bounds how deep the calls go. A path that is too deep is refused before its
  -- entries are walked, so that one level more than the budget is enough.
  unfoldable pub walk_subtree : ℕ → Visit → Node → Bytes → Action Planner (Unit {0})
  walk_subtree zero visit node path = fail out_of_fuel
  walk_subtree (suc fuel) visit node path = validate_result_path env budget path >>= λ _.
      if is_file node.kind
      then visit_file visit node path
      else if not (is_directory node.kind)
      then fail (failed "restore tree contains an invalid object type")
      else visit_directory visit (λ n p. walk_subtree fuel visit n p) node path

  -- The levels below any path that is in the budget.
  abbrev pub levels : ℕ
  levels = suc budget.max_depth

  unfoldable pub walk_node_descendants : Visit → Node → Bytes → Action Planner (Unit {0})
  unfolding walk_subtree
  walk_node_descendants visit node path =
      if is_file node.kind
      then (load_file env budget node.id >>= λ file. pure tt)
      else if not (is_directory node.kind)
      then fail (failed "restore tree contains an invalid object type")
      else load_directory env budget node.id >>= λ directory.
          for_each (λ e. walk_subtree levels visit (node_of e) (path ++ b'/' ∷ e.name))
            directory.entries

  unfoldable pub record_created_subtree : Node → Bytes → Bool → Action Planner (Unit {0})
  unfolding walk_subtree
  record_created_subtree node path root =
      if root
      then fail (failed "restore cannot create a root object")
      else walk_subtree levels record_created node path

  unfoldable pub record_preserved_subtree : Node → Bytes → Action Planner (Unit {0})
  unfolding walk_subtree
  record_preserved_subtree node path = walk_subtree levels record_preserved node path
