-- ===== src/Restore/Plan/Consistent.antt =====
-- What a caller of planRestoreOverlay may rely on.
use filecloud.Prelude.{
  suc, ◌+◌, ◌≡◌, ◌≢◌, refl, List, [], ◌∷◌, arith, ltb, ltb→lt, if◌then◌else◌, length, take,
  length-take, All, Bool-cases, inl, inr, sym, ap, subst, ◌∙◌,
}
use filecloud.Prelude.Bytes.{Bytes}
use filecloud.Prelude.Outcome.{Result, ok, err, out_of_fuel}
use filecloud.Prelude.Action.{Good}
use filecloud.Restore.State.{Environment, Budget, Planner, new_planner, CheckoutPath}
use filecloud.Restore.Invariant.{InBudget, IsHonest, IsSound}
use filecloud.Restore.Overlay.{insert_name, sort_names}
use filecloud.Restore.Plan.Sound.{overlay-Keeps, new_planner-IsSound}
use filecloud.Restore.Plan.Paths.{PlannedBy, overlay-PlannedBy}
use filecloud.Restore.Plan.{
  Input, Plan, preview_path_limit, plan_of, overlay, new_restore_planner, plan_from, plan_in,
  plan_restore_overlay,
}

length-insert_name :
    (name : Bytes) (names : List Bytes) → length (insert_name name names) ≡ suc (length names)
length-insert_name name [] = refl
length-insert_name name (x ∷ xs) = ground (arith, length-insert_name name xs)

length-sort_names : (names : List Bytes) → length (sort_names names) ≡ length names
length-sort_names [] = refl
length-sort_names (x ∷ xs) = rw (length-insert_name x (sort_names xs), length-sort_names xs) refl

-- What a plan promises its reader.
pub record IsConsistent (env : Environment) (budget : Budget) (plan : Plan) : Type 0 where
  pub counts :
      plan.created_count + plan.updated_count + plan.type_replacement_count
      ≡ plan.changed_path_count
  pub preview :
      length plan.changed_paths
      ≡ (if plan.preview_truncated then preview_path_limit else plan.changed_path_count)
  pub truncated : plan.preview_truncated ≡ ltb preview_path_limit plan.changed_path_count
  pub paths : All (λ c. InBudget env budget c.path) plan.paths

length-preview :
    (names : List Bytes)
    → length
        (if ltb preview_path_limit (length names) then take preview_path_limit names else names)
      ≡ (if ltb preview_path_limit (length names) then preview_path_limit else length names)
length-preview names = elim (Bool-cases (ltb preview_path_limit (length names))) [
  | inl long ↦ rw long (
      omega (
        arith,
        length-take preview_path_limit names,
        ltb→lt preview_path_limit (length names) long,
      ))
  | inr short ↦ rw short refl
]

plan_of-IsConsistent :
    (env : Environment) (budget : Budget) (root : Bytes) (paths : List CheckoutPath) (p : Planner)
    → IsSound env budget p
    → All (λ c. InBudget env budget c.path) paths
    → IsConsistent env budget (plan_of root paths p)
plan_of-IsConsistent env budget root paths p h fits = record {
  counts = rw (length-sort_names p.changed) h.counts;
  preview = length-preview (sort_names p.changed);
  truncated = refl;
  paths = fits;
}

plan_from-total :
    (P : Planner → Type 0) (r : Result (Plan × Planner)) → Good P r → plan_from r ≢ err out_of_fuel
plan_from-total P (ok (plan, p)) g = λ e. cc
plan_from-total P (err x) g = λ e. g cc

module _ (env : Environment) (honest : IsHonest env) (input : Input) where
  good : (budget : Budget) → Good (IsSound env budget) (overlay env budget input new_planner)
  good budget =
      (overlay-Keeps env budget honest input).at new_planner (new_planner-IsSound env budget honest)

  planned : (r : Result Budget) → (r ≢ err out_of_fuel) → plan_in env input r ≢ err out_of_fuel
  planned (err e) n = λ h. n cc
  planned (ok budget) n = plan_from-total (IsSound env budget) _ (good budget)

  new_restore_planner-total : new_restore_planner env input ≢ err out_of_fuel
  unfolding new_restore_planner
  new_restore_planner-total = ground arith

  -- With callees that raise no error of the model's own, and for which the empty text is no path,
  -- planRestoreOverlay never runs out of the levels of recursion that its model has.
  pub plan_restore_overlay-total : plan_restore_overlay env input ≢ err out_of_fuel
  unfolding plan_restore_overlay
  plan_restore_overlay-total = planned _ new_restore_planner-total

  from_overlay :
      (budget : Budget) (r : Result (Plan × Planner)) (plan : Plan)
      → Good (IsSound env budget) r
      → ((plan : Plan) (p : Planner) → r ≡ ok (plan, p) → PlannedBy env budget honest plan p)
      → plan_from r ≡ ok plan
      → IsConsistent env budget plan
  from_overlay budget (err x) plan g k e = absurd (cc e)
  from_overlay budget (ok (made, p)) plan g k e =
      let (root, paths, q, fits) = k made p refl in
      let same_plan : made ≡ plan = cc in
      subst (IsConsistent env budget) (sym q ∙ same_plan)
        (plan_of-IsConsistent env budget root paths p g fits)

  -- With callees that raise no error of the model's own, whenever newRestorePlanner accepts the
  -- input and planRestoreOverlay returns a plan: the created, updated and replaced paths add up to
  -- the changed paths; the preview holds all of them, or 100 where there are more, as its flag
  -- tells; and every path of the result is within the budget's depth and length, and valid.
  pub plan_restore_overlay-IsConsistent :
      (budget : Budget) (plan : Plan)
      → new_restore_planner env input ≡ ok budget
      → plan_restore_overlay env input ≡ ok plan
      → IsConsistent env budget plan
  unfolding plan_restore_overlay
  plan_restore_overlay-IsConsistent budget plan admitted e =
      from_overlay budget (overlay env budget input new_planner) plan (good budget)
        (λ plan p h. (overlay-PlannedBy env budget honest input).at new_planner p plan h)
        (sym (ap (plan_in env input) admitted) ∙ e)
