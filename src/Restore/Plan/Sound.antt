-- ===== src/Restore/Plan/Sound.antt =====
-- A plan's counts and preview agree, and planning neither fails to end nor passes its budgets.
use filecloud.Prelude.{◌+◌, ◌≤◌, All, length, true, ◌≡◌, ℕ, zero, suc, refl, List, [], ◌∷◌, arith}
use filecloud.Prelude.Bytes.{Bytes}
use filecloud.Prelude.Action.{Action, Keeps, Keeps-pure, Keeps-if, Keeps-bind, keeps_rules}
use filecloud.Object.Values.{DirectoryEntry}
use filecloud.Restore.State.{
  slashes, Environment, Budget, Planner, new_planner, child_of, CheckoutPath,
}
use filecloud.Restore.Invariant.{IsHonest, IsSound, failed-Keeps}
use filecloud.Restore.Loading.{load_directory-Keeps, load_file-Keeps, validate-Keeps}
use filecloud.Restore.Walk.{is_file}
use filecloud.Restore.Walk.Sound.{enter_walk-Keeps, leave_walk-Keeps}
use filecloud.Restore.Path.Sound.{resolve_path-Keeps, apply_path-Keeps}
use filecloud.Restore.Plan.{Input, Plan, path_size, entry_paths, result_paths, overlay}

module _ (env : Environment) (budget : Budget) where
  -- The loaded objects and the admitted paths of a planner are within its budget.
  pub record IsBounded (p : Planner) : Type 0 where
    pub objects : length p.directories + length p.files ≤ budget.max_objects
    pub paths : length p.validated_paths ≤ budget.max_paths
    pub each :
        All
          (λ path.
            (slashes path + 1 ≤ budget.max_depth)
            × (env.valid_path path ≡ true)
            × (length path ≤ budget.max_path_bytes))
          p.validated_paths

module _ (env : Environment) (budget : Budget) (honest : IsHonest env) where
  path_size-Keeps : (e : DirectoryEntry) → Keeps (IsSound env budget) (path_size env budget e)
  path_size-Keeps e = search (keeps_rules, load_file-Keeps env budget honest) depth 8

  entry_paths-Keeps :
      (below : Bytes → Bytes → Action Planner (List CheckoutPath)) (prefix : Bytes)
      → ((id path : Bytes) → Keeps (IsSound env budget) (below id path))
      → (entries : List DirectoryEntry)
      → Keeps (IsSound env budget) (entry_paths env budget below prefix entries)
  unfolding entry_paths
  entry_paths-Keeps below prefix k [] = Keeps-pure []
  entry_paths-Keeps below prefix k (e ∷ rest) =
      Keeps-bind _ _ (validate-Keeps env budget honest (child_of prefix e.name)) (λ _.
        Keeps-bind _ _ (path_size-Keeps e) (λ size.
          Keeps-bind _ _
            (Keeps-if (is_file e.kind) _ _ (λ _. Keeps-pure [])
              (λ _. k e.id (child_of prefix e.name)))
            (λ children.
              Keeps-bind _ _ (entry_paths-Keeps below prefix k rest) (λ others. Keeps-pure _))))

  result_paths-Keeps :
      (room : ℕ) (id prefix : Bytes)
      → Keeps (IsSound env budget) (result_paths env budget room id prefix)
  unfolding result_paths
  result_paths-Keeps zero id prefix = failed-Keeps env budget _
  result_paths-Keeps (suc room) id prefix = Keeps-bind _ _ (enter_walk-Keeps env budget id) (λ _.
      Keeps-bind _ _ (load_directory-Keeps env budget honest id) (λ directory.
        Keeps-bind _ _
          (entry_paths-Keeps (λ i p. result_paths env budget room i p) prefix
            (λ i p. result_paths-Keeps room i p) directory.entries)
          (λ paths. Keeps-bind _ _ (leave_walk-Keeps env budget id) (λ _. Keeps-pure paths))))

  pub overlay-Keeps : (input : Input) → Keeps (IsSound env budget) (overlay env budget input)
  unfolding overlay
  overlay-Keeps input =
      search
        (
          keeps_rules,
          validate-Keeps env budget honest,
          result_paths-Keeps,
          load_directory-Keeps env budget honest,
          resolve_path-Keeps env budget honest,
          apply_path-Keeps env budget honest,
        )
        depth 14

  pub new_planner-IsSound : IsSound env budget new_planner
  new_planner-IsSound = record {
    counts = refl;
    replaced = λ k h. cc;
    objects = omega arith;
    loaded = omega arith;
    paths = omega arith;
    validated = tt;
  }
