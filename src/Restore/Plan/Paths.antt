-- ===== src/Restore/Plan/Paths.antt =====
-- Every path of a plan is in the budget, and a plan is its planner's last state.
use filecloud.Prelude.{ℕ, zero, suc, ◌≡◌, refl, List, [], ◌∷◌, All, All-append}
use filecloud.Prelude.Bytes.{Bytes}
use filecloud.Prelude.Action.{
  Action, Returns, Returns-bind, Returns-bind-ok, Returns-gets, Returns-pure, Returns-fail,
  Returns-if,
}
use filecloud.Object.Values.{DirectoryEntry}
use filecloud.Restore.State.{Environment, Budget, Planner, child_of, CheckoutPath}
use filecloud.Restore.Invariant.{InBudget, IsHonest}
use filecloud.Restore.Loading.{validate-InBudget}
use filecloud.Restore.Walk.{is_file}
use filecloud.Restore.Plan.{Input, Plan, plan_of, entry_paths, result_paths, overlay}

module _ (env : Environment) (budget : Budget) (honest : IsHonest env) where
  abbrev pub Fits : CheckoutPath → Type 0
  Fits c = InBudget env budget c.path

  entry_paths-Fits :
      (below : Bytes → Bytes → Action Planner (List CheckoutPath)) (prefix : Bytes)
      → ((id path : Bytes) → Returns (λ paths p. All Fits paths) (below id path))
      → (entries : List DirectoryEntry)
      → Returns (λ paths p. All Fits paths) (entry_paths env budget below prefix entries)
  unfolding entry_paths
  entry_paths-Fits below prefix k [] = Returns-pure [] (λ p. tt)
  entry_paths-Fits below prefix k (e ∷ rest) =
      Returns-bind-ok (λ _. InBudget env budget (child_of prefix e.name)) _ _
        (record {
          at = λ p q a h. validate-InBudget env budget honest (child_of prefix e.name) p q a h;
        })
        (λ _ fits. Returns-bind _ _ (λ size.
          Returns-bind-ok (All Fits) _ _
            (Returns-if (is_file e.kind) _ _ (λ _. Returns-pure [] (λ p. tt))
              (λ _. k e.id (child_of prefix e.name)))
            (λ children kept.
              Returns-bind-ok (All Fits) _ _ (entry_paths-Fits below prefix k rest) (λ others all.
                Returns-pure _ (λ p. (fits, All-append Fits children others kept all))))))

  result_paths-Fits :
      (room : ℕ) (id prefix : Bytes)
      → Returns (λ paths p. All Fits paths) (result_paths env budget room id prefix)
  unfolding result_paths
  result_paths-Fits zero id prefix = Returns-fail _
  result_paths-Fits (suc room) id prefix = Returns-bind _ _ (λ _. Returns-bind _ _ (λ directory.
      Returns-bind-ok (All Fits) _ _
        (entry_paths-Fits (λ i p. result_paths env budget room i p) prefix
          (λ i p. result_paths-Fits room i p) directory.entries)
        (λ paths fits. Returns-bind _ _ (λ _. Returns-pure paths (λ p. fits)))))

  -- A plan that comes from a planner in that state.
  abbrev pub PlannedBy : Plan → Planner → Type 0
  PlannedBy plan p =
      (root : Bytes) × (paths : List CheckoutPath) × (plan ≡ plan_of root paths p) × All Fits paths

  pub overlay-PlannedBy : (input : Input) → Returns PlannedBy (overlay env budget input)
  unfolding overlay
  overlay-PlannedBy input = Returns-bind _ _ (λ _. Returns-bind _ _ (λ first.
      Returns-bind _ _ (λ second. Returns-bind _ _ (λ found. Returns-bind _ _ (λ result.
        Returns-bind-ok (All Fits) _ _ (result_paths-Fits (suc budget.max_depth) result.id [])
          (λ paths fits.
            Returns-gets (plan_of result.id paths) (λ p. (result.id, paths, refl, fits))))))))
