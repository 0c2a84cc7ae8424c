-- ===== src/Restore/Loading.antt =====
-- The loaders and the test of paths keep the planner's invariant.
use filecloud.Prelude.{
  ◌≤◌, ℕ, ◌+◌, ◌≡◌, ◌≢◌, refl, Bool, true, false, not, Option, none, some, [], ◌∷◌, arith, leb, ltb,
  length, All, Bool-cases, inl, inr,
}
use filecloud.Prelude.Bytes.{Bytes, codes}
use filecloud.Prelude.Sets.{ByteSet, member, add, length-le-add}
use filecloud.Prelude.Outcome.{Error, Result, ok, err, out_of_fuel}
use filecloud.Prelude.Action.{
  Action, modify, ◌>>=◌, Good, Keeps, Keeps-pure, Keeps-gets, Keeps-if, Keeps-bind, Keeps-bind-ok,
  Keeps-then,
}
use filecloud.Prelude.Hoare.{Meets, Runs, Runs-pure, Runs-bind, Runs-lift, Runs-guard, Runs-modify}
use filecloud.Object.Ids.{valid_id}
use filecloud.Object.Values.{File, Directory}
use filecloud.Restore.State.{
  Environment, Budget, Planner, slashes, count_object, check_directory_entries, admit_directory,
  load_uncached, load_cached, load_file_cached, new_path, load_directory, load_file,
  validate_result_path, within_path_budget,
}
use filecloud.Restore.Invariant.{IsHonest, InBudget, IsSound, failed-Keeps, guard-Keeps}

module _ (env : Environment) (budget : Budget) (honest : IsHonest env) where
  pub check_entries-Keeps :
      (n : ℕ) → Keeps (IsSound env budget) (check_directory_entries env budget n)
  unfolding check_directory_entries
  check_entries-Keeps n = guard-Keeps env budget _ _

  -- Behind a count there is room for one more object in the caches.
  abbrev Counted : Planner → Type 0
  Counted p = IsSound env budget p × (length p.directories + length p.files + 1 ≤ p.object_count)

  Counted-count_object :
      (p : Planner) → IsSound env budget p → Meets (λ a. Counted) (count_object env budget p)
  unfolding count_object ◌>>=◌
  Counted-count_object p h = elim (Bool-cases (leb (p.object_count + 1) budget.max_objects)) [
    | inl fits ↦ rw fits (
      record {
        counts = h.counts;
        replaced = h.replaced;
        objects = ground arith;
        loaded = omega (arith, h.loaded);
        paths = h.paths;
        validated = h.validated;
      },
      omega (arith, h.loaded),
    )
    | inr full ↦ rw full (λ e. cc)
  ]

  count_object-Runs : Runs (IsSound env budget) (count_object env budget) (λ a. Counted)
  count_object-Runs = record { at = Counted-count_object }

  cache_directory :
      (id : Bytes) (d : Directory)
      → Runs Counted
          (modify (λ p. record p { directories = (id, d) ∷ p.directories }))
          (λ a. IsSound env budget)
  cache_directory id d = Runs-modify _ (λ p (h, room). record {
    counts = h.counts;
    replaced = h.replaced;
    objects = h.objects;
    loaded = omega (arith, room);
    paths = h.paths;
    validated = h.validated;
  })

  cache_file :
      (id : Bytes) (f : File)
      → Runs Counted
          (modify (λ p. record p { files = (id, f) ∷ p.files }))
          (λ a. IsSound env budget)
  cache_file id f = Runs-modify _ (λ p (h, room). record {
    counts = h.counts;
    replaced = h.replaced;
    objects = h.objects;
    loaded = omega (arith, room);
    paths = h.paths;
    validated = h.validated;
  })

  Keeps-Runs :
      {A : Type 0} (m : Action Planner A)
      → Runs (IsSound env budget) m (λ a. IsSound env budget)
      → Keeps (IsSound env budget) m
  Keeps-Runs m h = record { at = λ p s. good (m p) (h.at p s) }
    where
      good :
          {A : Type 0} (r : Result (A × Planner))
          → Meets (λ a. IsSound env budget) r
          → Good (IsSound env budget) r
      good (ok (a, p)) h = h
      good (err e) h = h

  admit-Keeps :
      (id : Bytes) (content : Result Bytes)
      → ((e : Error) → content ≡ err e → e ≢ out_of_fuel)
      → Keeps (IsSound env budget) (admit_directory env budget id content)
  unfolding admit_directory check_directory_entries
  admit-Keeps id content n = Keeps-Runs (admit_directory env budget id content) (
      Runs-bind (count_object env budget) _ count_object-Runs (λ _.
        Runs-lift content _ (λ h. n out_of_fuel h refl)
          (λ found _.
            Runs-lift (env.verify_directory found id) _
              (λ h. honest.directory_errors found id out_of_fuel h refl)
              (λ d _.
                Runs-guard (leb (length d.entries) budget.max_directory_entries) _ _ (λ e. cc)
                  (λ _.
                    Runs-bind (modify (λ p. record p { directories = (id, d) ∷ p.directories })) _
                      (cache_directory id d) (λ _. Runs-pure d (λ p h. h)))))))

  pub load_directory-Keeps :
      (id : Bytes) → Keeps (IsSound env budget) (load_directory env budget id)
  unfolding load_directory
  load_directory-Keeps id =
      Keeps-if (not (valid_id id)) _ _ (λ _. failed-Keeps env budget _)
        (λ _. Keeps-bind _ _ (Keeps-gets _) cached)
    where
      uncached : (o : Option Bytes) → Keeps (IsSound env budget) (load_uncached env budget id o)
      uncached none = admit-Keeps id _ (honest.load_errors (codes "directories") id)
      uncached (some content) = admit-Keeps id (ok content) (λ e h. cc)

      cached : (o : Option Directory) → Keeps (IsSound env budget) (load_cached env budget id o)
      cached none = Keeps-bind _ _ (Keeps-gets _) uncached
      cached (some d) = Keeps-pure d

  pub load_file-Keeps : (id : Bytes) → Keeps (IsSound env budget) (load_file env budget id)
  unfolding load_file
  load_file-Keeps id =
      Keeps-if (not (valid_id id)) _ _ (λ _. failed-Keeps env budget _)
        (λ _. Keeps-bind _ _ (Keeps-gets _) cached)
    where
      cached : (o : Option File) → Keeps (IsSound env budget) (load_file_cached env budget id o)
      cached (some f) = Keeps-pure f
      cached none = Keeps-Runs (load_file_cached env budget id none) (
          Runs-bind (count_object env budget) _ count_object-Runs (λ _.
            Runs-lift (env.load (codes "files") id) _
              (λ h. honest.load_errors (codes "files") id out_of_fuel h refl)
              (λ content _.
                Runs-lift (env.verify_file content id) _
                  (λ h. honest.file_errors content id out_of_fuel h refl)
                  (λ f _.
                    Runs-bind (modify (λ p. record p { files = (id, f) ∷ p.files })) _
                      (cache_file id f) (λ _. Runs-pure f (λ p h. h))))))

  All-add :
      (path : Bytes) (s : ByteSet)
      → InBudget env budget path
      → All (InBudget env budget) s
      → All (InBudget env budget) (add path s)
  All-add path s fits h = elim (Bool-cases (member path s)) [
    | inl old ↦ rw old h
    | inr new ↦ rw new (All-cons path s fits h)
  ]
    where
      All-cons :
          (path : Bytes) (s : ByteSet)
          → InBudget env budget path
          → All (InBudget env budget) s
          → All (InBudget env budget) (path ∷ s)
      All-cons path [] fits h = (fits, h)
      All-cons path (x ∷ s) fits h = (fits, h)

  counted_path :
      (path : Bytes)
      → InBudget env budget path
      → (p : Planner) → IsSound env budget p
      → Good (IsSound env budget) (new_path env budget path false p)
  unfolding ◌>>=◌
  counted_path path fits p h = elim (Bool-cases (ltb (length p.validated_paths) budget.max_paths)) [
    | inr full ↦ rw full (λ e. cc)
    | inl room ↦ rw room (record {
      counts = h.counts;
      replaced = h.replaced;
      objects = h.objects;
      loaded = h.loaded;
      paths = ground (arith, length-le-add path p.validated_paths);
      validated = All-add path p.validated_paths fits h.validated;
    })
  ]

  new_path-Keeps :
      (path : Bytes) (known : Bool)
      → InBudget env budget path
      → Keeps (IsSound env budget) (new_path env budget path known)
  new_path-Keeps path true fits = Keeps-pure tt
  new_path-Keeps path false fits = record { at = counted_path path fits }

  -- A path that passes is in the budget, and a new one is counted.
  pub validate-Keeps :
      (path : Bytes) → Keeps (IsSound env budget) (validate_result_path env budget path)
  unfolding validate_result_path
  validate-Keeps path =
      Keeps-then _ _ _ (λ e. cc)
        (λ shallow.
          Keeps-then _ _ _ (λ e. cc)
            (λ within. Keeps-bind _ _ (Keeps-gets _) (λ known.
              new_path-Keeps path known
                (record { shallow = ground (arith, shallow); within = within }))))

  pub validate-InBudget :
      (path : Bytes) (p q : Planner) (a : Unit {0})
      → validate_result_path env budget path p ≡ ok (a, q)
      → InBudget env budget path
  unfolding validate_result_path ◌>>=◌
  validate-InBudget path p q a e = elim (Bool-cases (leb (slashes path + 1) budget.max_depth)) [
    | inr deep ↦ absurd (cc (deep, e))
    | inl shallow ↦ elim (Bool-cases (within_path_budget env budget path)) [
      | inr out ↦ absurd (cc (shallow, out, e))
      | inl within ↦ record { shallow = ground (arith, shallow); within = within }
    ]
  ]

  -- What follows the test of a path may use that the path is in the budget.
  pub validate_then :
      {B : Type 0} (path : Bytes) (k : Unit {0} → Action Planner B)
      → (InBudget env budget path → (a : Unit {0}) → Keeps (IsSound env budget) (k a))
      → Keeps (IsSound env budget) (validate_result_path env budget path >>= k)
  validate_then path k next =
      Keeps-bind-ok (λ a. InBudget env budget path) _ k (validate-Keeps path)
        (λ p q a h e. validate-InBudget path p q a e) (λ a fits. next fits a)
