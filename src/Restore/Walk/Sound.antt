-- ===== src/Restore/Walk/Sound.antt =====
-- The walks keep the planner's invariant, and the levels given to them are enough.
use filecloud.Prelude.{ℕ, zero, suc, ◌+◌, ◌≤◌, ◌<◌, refl, Bool, not, List, [], ◌∷◌, ◌++◌, arith}
use filecloud.Prelude.Bytes.{Bytes}
use filecloud.Prelude.Sets.{remove}
use filecloud.Prelude.Action.{
  keeps_rules, Action, modify, Keeps, Keeps-pure, Keeps-if, Keeps-bind, Keeps-modify,
  Keeps-for_each,
}
use filecloud.Restore.State.{
  Environment, Budget, Node, node_of, Planner, slashes, record_created, record_preserved,
}
use filecloud.Restore.Invariant.{
  IsHonest, IsSound, SameRecords-IsSound, record_created-IsSound, record_preserved-IsSound,
  failed-Keeps, guard-Keeps,
}
use filecloud.Restore.Loading.{load_directory-Keeps, load_file-Keeps, validate_then}
use filecloud.Restore.Walk.{
  Visit, is_file, is_directory, enter_walk, leave_walk, visit_file, visit_directory, walk_subtree,
  levels, walk_node_descendants, record_created_subtree, record_preserved_subtree,
}

pub slashes-child : (path name : Bytes) → slashes path + 1 ≤ slashes (path ++ b'/' ∷ name)
slashes-child [] name = omega arith
slashes-child (c ∷ path) name = omega (arith, slashes-child path name)

module _ (env : Environment) (budget : Budget) where
  set_active_walk :
      (f : Planner → List Bytes)
      → Keeps (IsSound env budget) (modify (λ p. record p { active_walk = f p }))
  set_active_walk f = Keeps-modify _ (λ p h.
      SameRecords-IsSound env budget p _
        (record {
          changed = refl;
          replacements = refl;
          created = refl;
          updated = refl;
          objects = refl;
          directories = refl;
          files = refl;
          validated = refl;
        })
        h)

  pub enter_walk-Keeps : (id : Bytes) → Keeps (IsSound env budget) (enter_walk id)
  enter_walk-Keeps id = search (keeps_rules, guard-Keeps env budget, set_active_walk) depth 14

  pub leave_walk-Keeps : (id : Bytes) → Keeps (IsSound env budget) (leave_walk id)
  leave_walk-Keeps id = set_active_walk (λ p. remove id p.active_walk)

module _ (env : Environment) (budget : Budget) (honest : IsHonest env) where
  module _ (visit : Visit)
      (kept : (path : Bytes) (p : Planner)
        → IsSound env budget p
        → IsSound env budget (visit path p)) where
    visit_file-Keeps :
        (node : Node) (path : Bytes)
        → Keeps (IsSound env budget) (visit_file env budget visit node path)
    visit_file-Keeps node path =
        search (keeps_rules, load_file-Keeps env budget honest, Keeps-modify, kept) depth 14

    visit_directory-Keeps :
        (walk : Node → Bytes → Action Planner (Unit {0})) (node : Node) (path : Bytes)
        → ((n : Node) (name : Bytes) → Keeps (IsSound env budget) (walk n (path ++ b'/' ∷ name)))
        → Keeps (IsSound env budget) (visit_directory env budget visit walk node path)
    visit_directory-Keeps walk node path below =
        search
          (
            keeps_rules,
            load_directory-Keeps env budget honest,
            enter_walk-Keeps env budget,
            leave_walk-Keeps env budget,
            Keeps-modify,
            kept,
            below,
          )
          depth 14

    walk_subtree-Keeps :
        (fuel : ℕ) (node : Node) (path : Bytes)
        → 0 < fuel
        → budget.max_depth < slashes path + fuel
        → Keeps (IsSound env budget) (walk_subtree env budget fuel visit node path)
    unfolding walk_subtree
    walk_subtree-Keeps zero node path h enough = absurd (omega arith)
    walk_subtree-Keeps (suc fuel) node path h enough =
        validate_then env budget honest path _ (λ fits _.
          Keeps-if (is_file node.kind) _ _ (λ _. visit_file-Keeps node path)
            (λ _.
              Keeps-if (not (is_directory node.kind)) _ _ (λ _. failed-Keeps env budget _)
                (λ _.
                  visit_directory-Keeps (λ n p. walk_subtree env budget fuel visit n p) node path
                    (λ n name.
                      walk_subtree-Keeps fuel n (path ++ b'/' ∷ name) (omega (arith, fits.shallow))
                        (omega (arith, fits.shallow, slashes-child path name))))))

    pub walk_node_descendants-Keeps :
        (node : Node) (path : Bytes)
        → Keeps (IsSound env budget) (walk_node_descendants env budget visit node path)
    unfolding walk_node_descendants
    walk_node_descendants-Keeps node path =
        Keeps-if (is_file node.kind) _ _
          (λ _. Keeps-bind _ _ (load_file-Keeps env budget honest node.id) (λ file. Keeps-pure tt))
          (λ _.
            Keeps-if (not (is_directory node.kind)) _ _ (λ _. failed-Keeps env budget _)
              (λ _. Keeps-bind _ _ (load_directory-Keeps env budget honest node.id) (λ directory.
                Keeps-for_each _ directory.entries (λ e.
                  walk_subtree-Keeps (levels env budget) (node_of e) _ (omega arith)
                    (omega arith)))))

  pub record_created_subtree-Keeps :
      (node : Node) (path : Bytes) (root : Bool)
      → Keeps (IsSound env budget) (record_created_subtree env budget node path root)
  unfolding record_created_subtree
  record_created_subtree-Keeps node path root =
      Keeps-if root _ _ (λ _. failed-Keeps env budget _)
        (λ _.
          walk_subtree-Keeps record_created (record_created-IsSound env budget) (levels env budget)
            node path (omega arith) (omega arith))

  pub record_preserved_subtree-Keeps :
      (node : Node) (path : Bytes)
      → Keeps (IsSound env budget) (record_preserved_subtree env budget node path)
  unfolding record_preserved_subtree
  record_preserved_subtree-Keeps node path =
      walk_subtree-Keeps record_preserved (record_preserved-IsSound env budget) (levels env budget)
        node path (omega arith) (omega arith)
