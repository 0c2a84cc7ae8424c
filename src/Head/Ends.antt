-- ===== src/Head/Ends.antt =====
-- The walk of validateRoot ends: each round but the first stands for a context, which the budget bounds.
use filecloud.Prelude.{
  ℕ, zero, suc, ◌+◌, ◌≤◌, ◌≡◌, ◌≢◌, subst, not, Option, none, some, List, length, [], ◌∷◌, ◌++◌,
  arith, length, length-append, ◌==◌,
}
use filecloud.Prelude.Bytes.{Bytes, codes, same}
use filecloud.Prelude.Sets.{member, add}
use filecloud.Prelude.Outcome.{
  ok, err, invalid_snapshot, payload_too_large, corrupt_object, out_of_fuel,
}
use filecloud.Prelude.Action.{pure, modify}
use filecloud.Prelude.Hoare.{
  Meets, Runs, Runs-pure, Runs-fail, Runs-if, Runs-modify, Runs-bind, Runs-lift, Runs-look,
  Runs-known, Runs-weaken, Runs-guard, Runs-test,
}
use filecloud.Object.Values.{Directory, DirectoryEntry}
use filecloud.Storage.Collector.{tick}
use filecloud.Storage.Collector.Ends.{tick-ends}
use filecloud.Head.State.{
  block_content, Limits, Opened, Store, State, cached, note_missing, check_context, add_context,
  plan_key, plan_new, plan, read_metadata,
}
use filecloud.Head.Reading.{
  IsTotalStore, or_corrupt-ends, block_content-ends, opened_content-ends, checked_block-ends,
}
use filecloud.Head.Snapshot.{
  max_file_body, max_directory_body, or_corrupt, check_total, remember_block, remember_directory,
  recall, increased, after_block, checked_block, settle_block, read_block, load_block, total_blocks,
  validate_content, settle_file, validate_new_file, validate_file, settle_directory, read_directory,
  load_directory, Work, has_ancestor, work_below, root_work, visit_subdirectory, visit_entries,
  visit_found, visit_work, visit_queue, validate_root,
}

-- Only the contexts count: what holds of their number is kept by the rest.
module _ (F : ℕ → Type 0) where
  pub Runs-check_context : Runs (λ s. F s.contexts) check_context (λ a s. F s.contexts)
  unfolding check_context
  Runs-check_context =
      Runs-look (λ s. tick s.patience) _
        (λ test.
          Runs-known (test ≢ err out_of_fuel) _
            (λ s h. subst (λ t. t ≢ err out_of_fuel) h.1 (tick-ends s.patience))
            (λ n. Runs-lift test _ n (λ left e. Runs-modify _ (λ s h. h.0))))

  pub Runs-plan :
      (limits : Limits) (kind id : Bytes)
      → Runs (λ s. F s.contexts) (plan limits kind id) (λ a s. F s.contexts)
  unfolding plan plan_new
  Runs-plan limits kind id = Runs-bind check_context _ Runs-check_context (λ a.
      Runs-look _ _ (λ known.
        Runs-if known (pure tt) (plan_new limits (plan_key limits kind id))
          (λ e. Runs-pure tt (λ s h. h.0))
          (λ e. Runs-look _ _ (λ full.
            Runs-guard (not full) payload_too_large _ (λ h. cc)
              (λ e. Runs-modify _ (λ s h. h.0.0))))))

module _ (store : Store) (limits : Limits) (total : IsTotalStore store) where
  pub read_metadata-ends :
      (kind id : Bytes) (maximum : ℕ) → read_metadata store kind id maximum ≢ err out_of_fuel
  unfolding read_metadata
  read_metadata-ends kind id maximum =
      opened_content-ends store maximum (store.get_object kind id) (total.get_object kind id)
        (λ o e. (total.reading kind id o e).0)

  module _ (F : ℕ → Type 0) where
    Runs-settle_block :
        (id : Bytes) (o : Option Opened)
        → store.get_object (codes "blocks") id ≡ ok o
        → Runs (λ s. F s.contexts) (settle_block store limits id o) (λ a s. F s.contexts)
    unfolding settle_block
    Runs-settle_block id none e = Runs-bind (note_missing id) _ (Runs-modify _ (λ s h. h)) (λ a.
        Runs-bind (remember_block id none) _ (Runs-modify _ (λ s h. h))
          (λ b. Runs-pure none (λ s h. h)))
    Runs-settle_block id (some o) e =
        Runs-lift (checked_block store id o.size (block_content o)) _
          (checked_block-ends store id o.size (block_content o)
            (block_content-ends o (total.reading (codes "blocks") id o e)))
          (λ size f.
            Runs-bind (remember_block id (some size)) _ (Runs-modify _ (λ s h. h))
              (λ b. Runs-pure (some size) (λ s h. h)))

    Runs-load_block :
        (id : Bytes) → Runs (λ s. F s.contexts) (load_block store limits id) (λ a s. F s.contexts)
    unfolding load_block read_block
    Runs-load_block id = Runs-look (λ s. cached id s.blocks) _ (λ known. recalled known)
      where
        recalled :
            (known : Option (Option ℕ))
            → Runs
                (λ s. F s.contexts × (cached id s.blocks ≡ known))
                (recall known (read_block store limits id))
                (λ a s. F s.contexts)
        recalled (some found) = Runs-pure found (λ s h. h.0)
        recalled none =
            Runs-weaken _ (λ s h. h.0) (λ a s h. h)
              (Runs-bind (plan limits (codes "blocks") id) _
                (Runs-plan F limits (codes "blocks") id)
                (λ a.
                  Runs-lift (store.get_object (codes "blocks") id) _
                    (total.get_object (codes "blocks") id) (λ o e. Runs-settle_block id o e)))

    Runs-total_blocks :
        (ids : List Bytes) (sum : Option ℕ)
        → Runs (λ s. F s.contexts) (total_blocks store limits ids sum) (λ a s. F s.contexts)
    unfolding total_blocks
    Runs-total_blocks [] sum = Runs-pure sum (λ s h. h)
    Runs-total_blocks (id ∷ ids) sum =
        Runs-bind (load_block store limits id) _ (Runs-load_block id)
          (λ block. after (λ t. Runs-total_blocks ids t) block)
      where
        after :
            ((t : Option ℕ)
              → Runs (λ s. F s.contexts) (total_blocks store limits ids t) (λ a s. F s.contexts))
            → (block : Option ℕ)
            → Runs
                (λ s. F s.contexts)
                (after_block ids sum block (total_blocks store limits ids))
                (λ a s. F s.contexts)
        after rest none = rest none
        after rest (some size) =
            Runs-guard _ corrupt_object _ (λ h. cc) (λ e. rest (increased sum size))

    Runs-settle_file :
        (id : Bytes) (content : Option Bytes)
        → Runs (λ s. F s.contexts) (settle_file store limits id content) (λ a s. F s.contexts)
    unfolding settle_file validate_content
    Runs-settle_file id none = Runs-modify _ (λ s h. h)
    Runs-settle_file id (some content) =
        Runs-lift (or_corrupt (store.verifier.verify_file content id)) _ (or_corrupt-ends _)
          (λ file e.
            Runs-bind (total_blocks store limits file.blocks (some 0)) _
              (Runs-total_blocks file.blocks (some 0)) (λ sum. checked file.size sum))
      where
        checked :
            (size : ℕ) (sum : Option ℕ)
            → Runs (λ s. F s.contexts) (check_total size sum) (λ a s. F s.contexts)
        checked size none = Runs-pure tt (λ s h. h)
        checked size (some n) = Runs-test _ corrupt_object (λ h. cc) (λ s h. h)

    Runs-validate_file :
        (id : Bytes)
        → Runs (λ s. F s.contexts) (validate_file store limits id) (λ a s. F s.contexts)
    unfolding validate_file validate_new_file
    Runs-validate_file id =
        Runs-look (λ s. member id s.files) _
          (λ known.
            Runs-weaken _ (λ s h. h.0) (λ a s h. h)
              (Runs-if known (pure tt) (validate_new_file store limits id)
                (λ e. Runs-pure tt (λ s h. h))
                (λ e.
                  Runs-bind (plan limits (codes "files") id) _
                    (Runs-plan F limits (codes "files") id)
                    (λ a.
                      Runs-bind (modify (λ s. record s { files = add id s.files })) _
                        (Runs-modify _ (λ s h. h))
                        (λ b.
                          Runs-lift (read_metadata store (codes "files") id max_file_body) _
                            (read_metadata-ends _ _ _)
                            (λ content e. Runs-settle_file id content))))))

    Runs-settle_directory :
        (id : Bytes) (content : Option Bytes)
        → Runs (λ s. F s.contexts) (settle_directory store limits id content) (λ a s. F s.contexts)
    unfolding settle_directory
    Runs-settle_directory id none = Runs-bind (note_missing id) _ (Runs-modify _ (λ s h. h)) (λ a.
        Runs-bind (remember_directory id none) _ (Runs-modify _ (λ s h. h))
          (λ b. Runs-pure none (λ s h. h)))
    Runs-settle_directory id (some content) =
        Runs-lift (or_corrupt (store.verifier.verify_directory content id)) _ (or_corrupt-ends _)
          (λ d e.
            Runs-bind (remember_directory id (some d)) _ (Runs-modify _ (λ s h. h))
              (λ b. Runs-pure (some d) (λ s h. h)))

    Runs-load_directory :
        (id : Bytes)
        → Runs (λ s. F s.contexts) (load_directory store limits id) (λ a s. F s.contexts)
    unfolding load_directory read_directory
    Runs-load_directory id = Runs-look (λ s. cached id s.directories) _ (λ known. recalled known)
      where
        recalled :
            (known : Option (Option Directory))
            → Runs
                (λ s. F s.contexts × (cached id s.directories ≡ known))
                (recall known (read_directory store limits id))
                (λ a s. F s.contexts)
        recalled (some found) = Runs-pure found (λ s h. h.0)
        recalled none =
            Runs-weaken _ (λ s h. h.0) (λ a s h. h)
              (Runs-lift (read_metadata store (codes "directories") id max_directory_body) _
                (read_metadata-ends _ _ _) (λ content e. Runs-settle_directory id content))

  -- So many works may still be in the queue, when so many rounds are left.
  abbrev pub Room : ℕ → ℕ → ℕ → Type 0
  Room works rounds contexts =
      (contexts ≤ limits.max_contexts) × (works + limits.max_contexts ≤ rounds + contexts)

  pub Runs-add_context :
      (r n : ℕ)
      → Runs (λ s. Room r n s.contexts) (add_context limits) (λ a s. Room (suc r) n s.contexts)
  unfolding add_context
  Runs-add_context r n = Runs-bind check_context _ (Runs-check_context (Room r n)) (λ a.
      Runs-look (λ s. s.contexts == limits.max_contexts) _
        (λ full.
          Runs-guard (not full) payload_too_large _ (λ h. cc)
            (λ e. Runs-modify _ (λ s h. ground (arith, h.0.0, h.0.1, h.1, e)))))

  Runs-visit_entries :
      (r n : ℕ) (w : Work) (entries : List DirectoryEntry)
      → Runs
          (λ s. Room r n s.contexts)
          (visit_entries store limits w entries)
          (λ works s. Room (r + length works) n s.contexts)
  unfolding visit_entries visit_subdirectory
  Runs-visit_entries r n w [] = Runs-pure [] (λ s h. (h.0, omega (arith, h.1)))
  Runs-visit_entries r n w (e ∷ entries) =
      Runs-guard _ invalid_snapshot _ (λ h. cc)
        (λ within.
          Runs-if (same e.kind (codes "Directory")) _ _
            (λ d.
              Runs-bind _ _
                (Runs-guard (not (has_ancestor e.id w.ancestors)) invalid_snapshot _ (λ h. cc)
                  (λ free.
                    Runs-bind (add_context limits) _ (Runs-add_context r n)
                      (λ a. Runs-plan (Room (suc r) n) limits (codes "directories") e.id)))
                (λ a.
                  Runs-bind (visit_entries store limits w entries) _
                    (Runs-visit_entries (suc r) n w entries)
                    (λ works.
                      Runs-pure (work_below w e ∷ works) (λ s h. (h.0, omega (arith, h.1))))))
            (λ d.
              Runs-if (same e.kind (codes "File")) _ _
                (λ f.
                  Runs-bind (validate_file store limits e.id) _ (Runs-validate_file (Room r n) e.id)
                    (λ a. Runs-visit_entries r n w entries))
                (λ f. Runs-fail invalid_snapshot (λ h. cc))))

  Runs-visit_work :
      (r n : ℕ) (w : Work)
      → Runs
          (λ s. Room r n s.contexts)
          (visit_work store limits w)
          (λ works s. Room (r + length works) n s.contexts)
  unfolding visit_work visit_found
  Runs-visit_work r n w = Runs-bind check_context _ (Runs-check_context (Room r n)) (λ a.
      Runs-bind (load_directory store limits w.id) _ (Runs-load_directory (Room r n) w.id)
        (λ found. visited found))
    where
      visited :
          (found : Option Directory)
          → Runs
              (λ s. Room r n s.contexts)
              (visit_found store limits w found)
              (λ works s. Room (r + length works) n s.contexts)
      visited none = Runs-pure [] (λ s h. (h.0, omega (arith, h.1)))
      visited (some d) = Runs-visit_entries r n w d.entries

  Runs-visit_queue :
      (fuel : ℕ) (queue : List Work)
      → Runs
          (λ s. Room (length queue) fuel s.contexts)
          (visit_queue store limits fuel queue)
          (λ a s. s.contexts ≤ limits.max_contexts)
  unfolding visit_queue
  Runs-visit_queue fuel [] = Runs-pure tt (λ s h. h.0)
  Runs-visit_queue zero (w ∷ queue) =
      Runs-known ⊥ _ (λ s h. omega (arith, h.0, h.1)) (λ b. absurd b)
  Runs-visit_queue (suc fuel) (w ∷ queue) =
      Runs-bind (visit_work store limits w) _ (Runs-visit_work (suc (length queue)) (suc fuel) w)
        (λ works.
          Runs-weaken _ (λ s h. (h.0, omega (arith, h.1, length-append queue works))) (λ a s h. h)
            (Runs-visit_queue fuel (queue ++ works)))

  -- From a number of contexts within the budget, the walk ends within it.
  pub Runs-validate_root :
      (root : Bytes)
      → Runs
          (λ s. s.contexts ≤ limits.max_contexts)
          (validate_root store limits root)
          (λ a s. s.contexts ≤ limits.max_contexts)
  unfolding validate_root
  Runs-validate_root root =
      Runs-bind (plan limits (codes "directories") root) _
        (Runs-plan (λ c. c ≤ limits.max_contexts) limits (codes "directories") root)
        (λ a.
          Runs-bind (add_context limits) _
            (Runs-weaken _ (λ s h. (h, omega arith)) (λ a s h. h)
              (Runs-add_context 0 (suc limits.max_contexts)))
            (λ b. Runs-visit_queue (suc limits.max_contexts) (root_work root ∷ [])))

-- The walk over a snapshot ends, whatever the store holds, with the contexts within their budget.
pub validate_root-ends :
    (store : Store) (limits : Limits) (root : Bytes) (s : State)
    → IsTotalStore store
    → s.contexts ≤ limits.max_contexts
    → Meets (λ a t. t.contexts ≤ limits.max_contexts) (validate_root store limits root s)
validate_root-ends store limits root s total within =
    (Runs-validate_root store limits total root).at s within
