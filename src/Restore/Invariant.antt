-- ===== src/Restore/Invariant.antt =====
-- What holds of a planner at every moment: its counters agree with its sets, its budgets are kept.
-- An outcome of an action that keeps this is never the error of the model's own bounds.
use filecloud.Prelude.{
  ℕ, ◌+◌, ◌≤◌, ◌≡◌, ◌≢◌, refl, Bool, true, false, ◌||◌, List, [], arith, if◌then◌else◌, length, All,
  String, Bool-cases, inl, inr,
}
use filecloud.Prelude.Bytes.{Bytes, same}
use filecloud.Prelude.Sets.{member, member-add, length-add}
use filecloud.Prelude.Outcome.{Error, err, failed, out_of_fuel, source_path_not_found}
use filecloud.Prelude.Action.{fail, guard, Keeps, Keeps-fail, Keeps-guard}
use filecloud.Restore.State.{
  Environment, Budget, Planner, ScanEntry, slashes, record_created, record_updated,
  record_type_replacement, record_removed_descendant, record_preserved,
  record_synthesized_directory, within_path_budget,
}

-- The components of a path; the root has none.
abbrev pub depth : Bytes → ℕ
depth path = if same path [] then 0 else slashes path + 1

-- What the planner's callees promise: their errors are errors of the program, and the empty text is
-- no path.
pub record IsHonest (env : Environment) : Type 0 where
  pub load_errors : (k i : Bytes) (e : Error) → env.load k i ≡ err e → e ≢ out_of_fuel
  pub file_errors : (c i : Bytes) (e : Error) → env.verify_file c i ≡ err e → e ≢ out_of_fuel
  pub directory_errors :
      (c i : Bytes) (e : Error) → env.verify_directory c i ≡ err e → e ≢ out_of_fuel
  pub encoding_errors :
      (p : Bytes) (es : List ScanEntry) (e : Error)
      → env.canonical_directory p es ≡ err e
      → e ≢ out_of_fuel
  pub empty_path : env.valid_path [] ≡ false

module _ (env : Environment) (budget : Budget) where
  -- A path that validateResultPath lets pass.
  pub record InBudget (path : Bytes) : Type 0 where
    pub shallow : slashes path + 1 ≤ budget.max_depth
    pub within : within_path_budget env budget path ≡ true

  pub record IsSound (p : Planner) : Type 0 where
    pub counts : p.created_count + p.updated_count + length p.type_replacements ≡ length p.changed
    pub replaced : (k : Bytes) → member k p.type_replacements ≡ true → member k p.changed ≡ true
    pub objects : p.object_count ≤ budget.max_objects
    pub loaded : length p.directories + length p.files ≤ p.object_count
    pub paths : length p.validated_paths ≤ budget.max_paths
    pub validated : All InBudget p.validated_paths

  module _ (path : Bytes) (p : Planner) (h : IsSound p) where
    pub record_created-IsSound : IsSound (record_created path p)
    unfolding record_created
    record_created-IsSound = elim (Bool-cases (member path p.changed)) [
      | inl old ↦ rw old h
      | inr new ↦ rw new (record {
        counts = omega (arith, h.counts, length-add path p.changed new);
        replaced = λ k m. ground (arith, member-add path k p.changed, h.replaced k m);
        objects = h.objects;
        paths = h.paths;
        loaded = h.loaded;
        validated = h.validated;
      })
    ]

    pub record_updated-IsSound : IsSound (record_updated path p)
    unfolding record_updated
    record_updated-IsSound = elim (Bool-cases (member path p.changed)) [
      | inl old ↦ rw old h
      | inr new ↦ rw new (record {
        counts = omega (arith, h.counts, length-add path p.changed new);
        replaced = λ k m. ground (arith, member-add path k p.changed, h.replaced k m);
        objects = h.objects;
        paths = h.paths;
        loaded = h.loaded;
        validated = h.validated;
      })
    ]

    not_replaced : member path p.changed ≡ false → member path p.type_replacements ≡ false
    not_replaced new = elim (Bool-cases (member path p.type_replacements)) [
      | inl old ↦ cc (new, h.replaced path old)
      | inr fresh ↦ fresh
    ]

    pub record_type_replacement-IsSound : IsSound (record_type_replacement path p)
    unfolding record_type_replacement
    record_type_replacement-IsSound = elim (Bool-cases (member path p.changed)) [
      | inl old ↦ rw old h
      | inr new ↦ rw new (record {
        counts = omega (
          arith,
          h.counts,
          length-add path p.changed new,
          length-add path p.type_replacements (not_replaced new),
        );
        replaced = λ k m. ground (
          arith,
          m,
          member-add path k p.changed,
          member-add path k p.type_replacements,
          h.replaced k,
        );
        objects = h.objects;
        paths = h.paths;
        loaded = h.loaded;
        validated = h.validated;
      })
    ]

    pub record_removed-IsSound : IsSound (record_removed_descendant path p)
    unfolding record_removed_descendant
    record_removed-IsSound = record {
      counts = h.counts;
      replaced = h.replaced;
      objects = h.objects;
      paths = h.paths;
      loaded = h.loaded;
      validated = h.validated;
    }

    pub record_preserved-IsSound : IsSound (record_preserved path p)
    unfolding record_preserved
    record_preserved-IsSound = record {
      counts = h.counts;
      replaced = h.replaced;
      objects = h.objects;
      paths = h.paths;
      loaded = h.loaded;
      validated = h.validated;
    }

  -- A change of the synthesized or of the active directories is none of the invariant's concern.
  pub record SameRecords (p q : Planner) : Type 0 where
    pub changed : q.changed ≡ p.changed
    pub replacements : q.type_replacements ≡ p.type_replacements
    pub created : q.created_count ≡ p.created_count
    pub updated : q.updated_count ≡ p.updated_count
    pub objects : q.object_count ≡ p.object_count
    pub directories : q.directories ≡ p.directories
    pub files : q.files ≡ p.files
    pub validated : q.validated_paths ≡ p.validated_paths

  pub SameRecords-IsSound : (p q : Planner) → SameRecords p q → IsSound p → IsSound q
  SameRecords-IsSound p q e h = record {
    counts = rw (e.created, e.updated, e.replacements, e.changed) h.counts;
    replaced = λ k. rw (e.replacements, e.changed) (h.replaced k);
    objects = rw e.objects h.objects;
    loaded = rw (e.objects, e.directories, e.files) h.loaded;
    paths = rw e.validated h.paths;
    validated = rw e.validated h.validated;
  }

  pub record_synthesized-IsSound :
      (id content c s : Bytes) (p : Planner)
      → IsSound p
      → IsSound (record_synthesized_directory id content c s p)
  unfolding record_synthesized_directory
  record_synthesized-IsSound id content c s p h = elim (Bool-cases (same id c || same id s)) [
    | inl known ↦ rw known h
    | inr new ↦ rw new (
        SameRecords-IsSound p _
          (record {
            changed = refl;
            replacements = refl;
            created = refl;
            updated = refl;
            objects = refl;
            directories = refl;
            files = refl;
            validated = refl;
          })
          h)
  ]

  pub failed-Keeps : {A : Type 0} (what : String) → Keeps IsSound (fail {A = A} (failed what))
  failed-Keeps what = Keeps-fail (failed what) (λ e. cc)

  pub missing-Keeps : {A : Type 0} → Keeps IsSound (fail {A = A} source_path_not_found)
  missing-Keeps = Keeps-fail source_path_not_found (λ e. cc)

  pub guard-Keeps : (b : Bool) (what : String) → Keeps IsSound (guard b (failed what))
  guard-Keeps b what = Keeps-guard b (failed what) (λ e. cc)
