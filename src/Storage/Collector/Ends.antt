-- ===== src/Storage/Collector/Ends.antt =====
-- The loops of markPublished end: the rounds that the model allows are enough.
use filecloud.Prelude.{
  ℕ, zero, suc, ◌+◌, ◌≤◌, ◌≡◌, ◌≢◌, subst, true, false, not, ◌||◌, Option, none, some, List, [],
  ◌∷◌, length, arith, Bool-cases, inl, inr,
}
use filecloud.Prelude.Bytes.{Bytes, codes, same}
use filecloud.Prelude.Outcome.{Result, ok, err, failed, out_of_fuel, >>=-ends, >>=-eq-ok}
use filecloud.Prelude.Action.{Action, for_each}
use filecloud.Prelude.Hoare.{
  Meets, Runs, Runs-pure, Runs-fail, Runs-if, Runs-modify, Runs-bind, Runs-lift, Runs-look,
  Runs-known, Runs-weaken,
}
use filecloud.Object.Ids.{valid_id}
use filecloud.Object.Values.{DirectoryEntry}
use filecloud.Storage.Objects.{
  Key, has, Stored, Verifier, valid_object_scope_id, validate_object_location, regular_content,
  read_published_object, file_at, directory_at, commit_at,
}
use filecloud.Storage.Collector.{
  Root, Marking, at, push, tick, check_context, mark_key, unless_marked, mark_all, mark_file,
  mark_entries, visit_directory, mark_snapshot, visit_commit, commit_key, mark_commit_graph,
  mark_root, mark_published,
}
use filecloud.Storage.Objects.Verified.{IsTotal}
use filecloud.Storage.Collector.Work.{
  work, work-mark, work-read, degree, degree-directory, degree-commit,
}

pub tick-ends : (o : Option ℕ) → tick o ≢ err out_of_fuel
tick-ends none h = cc
tick-ends (some zero) h = cc
tick-ends (some (suc n)) h = cc

regular_content-ends : (o : Option Stored) → regular_content o ≢ err out_of_fuel
regular_content-ends none h = cc
regular_content-ends (some f) h = elim (Bool-cases f.regular) [
  | inl e ↦ ground arith
  | inr e ↦ ground arith
]

location-ends : (k : Key) → validate_object_location k ≢ err out_of_fuel
unfolding validate_object_location
location-ends k h = ground arith

length-push : (ids stack : List Bytes) → length (push ids stack) ≡ length ids + length stack
length-push [] stack = omega arith
length-push (i ∷ ids) stack = omega (arith, length-push ids (i ∷ stack))

Runs-check_context :
    (F : List Key → Type 0) → Runs (λ s. F s.marked) check_context (λ a s. F s.marked)
unfolding check_context
Runs-check_context F =
    Runs-look (λ s. tick s.patience) _
      (λ test.
        (Runs-known (test ≢ err out_of_fuel) _
          (λ s h. subst (λ t. t ≢ err out_of_fuel) h.1 (tick-ends s.patience))
          (λ n. Runs-lift test _ n (λ left e. Runs-modify _ (λ s h. h.0)))))

Runs-unless_marked :
    {A : Type 0} {P : Marking → Type 0} {Q : A → Marking → Type 0} (k : Key)
    (skip visit : Action Marking A)
    → Runs P skip Q
    → Runs (λ s. P s × (has k s.marked ≡ false)) visit Q
    → Runs P (unless_marked k skip visit) Q
Runs-unless_marked {A} {P} {Q} k skip visit hs hv =
    Runs-look (λ s. has k s.marked) _
      (λ seen.
        elim seen
          as (λ b.
            Runs (λ s. P s × (has k s.marked ≡ b))
              (elim b as (λ x. Action Marking A) [ true ↦ skip | false ↦ visit ]) Q) [
                | true ↦ Runs-weaken skip (λ s h. h.0) (λ a s h. h) hs
                | false ↦ hv
              ])

module _ (v : Verifier) (disk : List Stored) (total : IsTotal v) (n : ℕ) where
  -- So much of the work is left that `c` is spared.
  abbrev Spares : ℕ → Marking → Type 0
  Spares c s = work v disk s.marked + c ≤ n

  read-ends : (k : Key) → read_published_object disk k ≢ err out_of_fuel
  unfolding read_published_object
  read-ends k =
      >>=-ends (validate_object_location k) _ (location-ends k) (λ u. regular_content-ends _)

  file_at-ends : (k : Key) → file_at v disk k ≢ err out_of_fuel
  file_at-ends k = >>=-ends (read_published_object disk k) _ (read-ends k) (λ c. total.file c k.id)

  directory_at-ends : (k : Key) → directory_at v disk k ≢ err out_of_fuel
  directory_at-ends k =
      >>=-ends (read_published_object disk k) _ (read-ends k) (λ c. total.directory c k.id)

  commit_at-ends : (k : Key) → commit_at v disk k ≢ err out_of_fuel
  commit_at-ends k =
      >>=-ends (read_published_object disk k) _ (read-ends k) (λ c. total.commit c k.id)

  Runs-mark_key : (k : Key) (c : ℕ) → Runs (Spares c) (mark_key k) (λ a. Spares c)
  Runs-mark_key k c = Runs-modify _ (λ s h. omega (arith, work-mark v disk k s.marked))

  Runs-blocks :
      (k : Key) (c : ℕ) (blocks : List Bytes)
      → Runs (Spares c) (for_each (λ b. mark_key (at k (codes "blocks") b)) blocks) (λ a. Spares c)
  unfolding for_each
  Runs-blocks k c [] = Runs-pure tt (λ s h. h)
  Runs-blocks k c (b ∷ blocks) = Runs-bind _ _ (Runs-mark_key _ c) (λ a. Runs-blocks k c blocks)

  Runs-file : (k : Key) (c : ℕ) → Runs (Spares c) (mark_file v disk k) (λ a. Spares c)
  unfolding mark_file
  Runs-file k c = Runs-bind check_context _ (Runs-check_context (λ m. work v disk m + c ≤ n)) (λ a.
      Runs-unless_marked k _ _ (Runs-pure tt (λ s h. h)) (
        Runs-weaken _ (λ s h. h.0) (λ a s h. h)
          (Runs-lift (file_at v disk k) _ (file_at-ends k)
            (λ file e. Runs-bind _ _ (Runs-mark_key k c) (λ b. Runs-blocks k c file.blocks)))))

  Runs-entries :
      (k : Key) (c : ℕ) (entries : List DirectoryEntry)
      → Runs
          (Spares c)
          (mark_entries v disk k entries)
          (λ ids s. Spares c s × (length ids ≤ length entries))
  unfolding mark_entries
  Runs-entries k c [] = Runs-pure [] (λ s h. (h, omega arith))
  Runs-entries k c (e ∷ entries) =
      Runs-if (same e.kind (codes "Directory")) _ _
        (λ d.
          Runs-bind (mark_entries v disk k entries) _ (Runs-entries k c entries)
            (λ ids. Runs-pure (e.id ∷ ids) (λ s h. (h.0, omega (arith, h.1)))))
        (λ d.
          Runs-if (same e.kind (codes "File")) _ _
            (λ f. Runs-bind _ _ (Runs-file (at k (codes "files") e.id) c) (λ a.
              Runs-weaken _ (λ s h. h) (λ ids s h. (h.0, omega (arith, h.1)))
                (Runs-entries k c entries)))
            (λ f. Runs-fail _ (λ h. cc)))

  -- A new mark on an object that has been read.
  Runs-new :
      (k : Key) (c : ℕ) (content : Bytes)
      → read_published_object disk k ≡ ok content
      → Runs
          (λ s. Spares c s × (has k s.marked ≡ false))
          (mark_key k)
          (λ a. Spares (c + suc (degree v disk k)))
  Runs-new k c content e =
      Runs-modify _ (λ s h. omega (arith, h.0, work-read v disk k s.marked content h.1 e))

  Runs-directory :
      (k : Key) (c : ℕ)
      → Runs
          (λ s. Spares c s × (has k s.marked ≡ false))
          (visit_directory v disk k)
          (λ ids. Spares (c + suc (length ids)))
  unfolding visit_directory
  Runs-directory k c = Runs-lift (directory_at v disk k) _ (directory_at-ends k) (λ d e.
      let (content, found, valid) = >>=-eq-ok (read_published_object disk k) _ e in
      Runs-bind (mark_key k) _ (Runs-new k c content found) (λ a.
        Runs-weaken _ (λ s h. h) (λ ids s h. omega (arith, h.0, h.1, degree-directory v disk k d e))
          (Runs-entries k (c + suc (degree v disk k)) d.entries)))

  -- The loop ends when each visit spares a round for every identity that it pushes.
  Runs-mark_all :
      (key : Bytes → Key) (visit : Bytes → Action Marking (List Bytes))
      → ((id : Bytes) (c : ℕ)
          → Runs
              (λ s. Spares c s × (has (key id) s.marked ≡ false))
              (visit id)
              (λ ids. Spares (c + suc (length ids))))
      → (fuel c : ℕ) (stack : List Bytes) → length stack + n ≤ fuel + c
      → Runs (Spares c) (mark_all key visit fuel stack) (λ a. Spares c)
  unfolding mark_all
  Runs-mark_all key visit step fuel c [] enough = Runs-pure tt (λ s h. h)
  Runs-mark_all key visit step zero c (id ∷ stack) enough =
      Runs-known ⊥ _ (λ s h. omega arith) (λ b. absurd b)
  Runs-mark_all key visit step (suc fuel) c (id ∷ stack) enough =
      Runs-bind check_context _ (Runs-check_context (λ m. work v disk m + c ≤ n)) (λ a.
        Runs-unless_marked (key id) _ _ (Runs-mark_all key visit step fuel c stack (omega arith)) (
          Runs-bind (visit id) _ (step id c) (λ ids.
            Runs-weaken _ (λ s h. h) (λ a s h. omega (arith, h))
              (Runs-mark_all key visit step fuel (c + suc (length ids)) (push ids stack)
                (omega (arith, length-push ids stack))))))

  module _ (fuel : ℕ) (enough : suc n ≤ fuel) where
    Runs-snapshot :
        (k : Key) (c : ℕ) (id : Bytes)
        → Runs (Spares c) (mark_snapshot v disk fuel k id) (λ a. Spares c)
    unfolding mark_snapshot
    Runs-snapshot k c id =
        Runs-mark_all (λ i. at k (codes "directories") i) _
          (λ i. Runs-directory (at k (codes "directories") i)) fuel c (id ∷ []) (omega arith)

    Runs-commit :
        (k : Key) (c : ℕ)
        → Runs
            (λ s. Spares c s × (has k s.marked ≡ false))
            (visit_commit v disk fuel k)
            (λ ids. Spares (c + suc (length ids)))
    unfolding visit_commit
    Runs-commit k c = Runs-lift (commit_at v disk k) _ (commit_at-ends k) (λ commit e.
        let (content, found, valid) = >>=-eq-ok (read_published_object disk k) _ e in
        Runs-bind (mark_key k) _ (Runs-new k c content found) (λ a.
          Runs-bind _ _ (Runs-snapshot k (c + suc (degree v disk k)) commit.root) (λ b.
            Runs-pure commit.parents (λ s h. omega (arith, h, degree-commit v disk k commit e)))))

    Runs-root : (r : Root) → Runs (Spares 0) (mark_root v disk fuel r) (λ a. Spares 0)
    unfolding mark_root mark_commit_graph
    Runs-root r =
        Runs-if
          (not (valid_object_scope_id r.owner)
            || not (valid_object_scope_id r.library)
            || not (valid_id r.id))
          _ _ (λ h. Runs-fail (failed "invalid published object location") (λ e. cc))
          (λ h.
            Runs-mark_all (commit_key r) _ (λ id. Runs-commit (commit_key r id)) fuel 0 (r.id ∷ [])
              (omega arith))

    Runs-published :
        (roots : List Root) → Runs (Spares 0) (mark_published v disk fuel roots) (λ a. Spares 0)
    unfolding mark_published for_each
    Runs-published [] = Runs-pure tt (λ s h. h)
    Runs-published (r ∷ roots) = Runs-bind _ _ (Runs-root r) (λ a. Runs-published roots)

Meets-ends :
    {A S : Type 0} (Q : A → S → Type 0) (o : Result (A × S)) → Meets Q o → o ≢ err out_of_fuel
Meets-ends Q (ok r) m h = cc
Meets-ends Q (err e) m h = m cc

-- Where no Verify function raises the model's own error, markPublished never runs out of rounds:
-- more than the work on the disk, which counts the unmarked objects with the references in them,
-- are enough.
pub mark_published-ends :
    (v : Verifier) (disk : List Stored) (roots : List Root) (fuel : ℕ) (s : Marking)
    → IsTotal v
    → suc (work v disk s.marked) ≤ fuel
    → mark_published v disk fuel roots s ≢ err out_of_fuel
mark_published-ends v disk roots fuel s total enough =
    Meets-ends _ _
      ((Runs-published v disk total (work v disk s.marked) fuel enough roots).at s (omega arith))
