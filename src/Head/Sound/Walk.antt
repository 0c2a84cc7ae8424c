-- ===== src/Head/Sound/Walk.antt =====
-- What the success of validateRoot tells.
use filecloud.Prelude.{
  ℕ, zero, suc, ◌≡◌, refl, sym, subst, not, Option, none, some, List, [], ◌∷◌, ◌++◌, All,
  Bool-cases, inl, inr,
}
use filecloud.Prelude.Bytes.{Bytes, codes, same, same→eq}
use filecloud.Prelude.Outcome.{ok, invalid_snapshot, out_of_fuel}
use filecloud.Prelude.Action.{fail}
use filecloud.Prelude.Yields.{
  Yields, Yields-pure, Yields-fail, Yields-if, Yields-modify, Yields-bind, Yields-lift, Yields-look,
  Yields-guard, Yields-weaken,
}
use filecloud.Object.Values.{Directory, DirectoryEntry}
use filecloud.Head.State.{
  Limits, Store, cached, note_missing, check_context, add_context, plan, read_metadata,
}
use filecloud.Head.Snapshot.{
  max_directory_body, or_corrupt, remember_directory, recall, settle_directory, read_directory,
  load_directory, validate_file, Work, has_ancestor, work_below, root_work, visit_subdirectory,
  visit_entries, visit_found, visit_work, visit_queue, validate_root,
}
use filecloud.Head.Complete.{
  IsDirectory, IsFile, Complete, complete, Entries, no_more, subdirectory, file,
}
use filecloud.Head.Sound.{
  Claims, Claims-map, Yields-check_context, Yields-add_context, Yields-plan, Yields-note_missing,
}
use filecloud.Head.Sound.Blocks.{or_corrupt-ok, some-eq, some_not_none}
use filecloud.Head.Sound.Files.{Nothing, Yields-validate_file}

All-split : {A : Type 0} (P : A → Type 0) (xs ys : List A) → All P (xs ++ ys) → All P xs × All P ys
All-split P [] ys h = (tt, h)
All-split P (x ∷ xs) ys (c, h) = let (a, b) = All-split P xs ys h in ((c, a), b)

module _ (store : Store) where
  abbrev FoundDirectory : Bytes → Option Directory → Type 0
  FoundDirectory id found = (d : Directory) × (found ≡ some d) × IsDirectory store id d

  abbrev AllComplete : List Work → Type 0
  AllComplete works = All (λ w. Complete store w.id) works

module _ {store : Store} {W : Bytes → Type 0} where
  remember_missing :
      {Y : Type 0} (id : Bytes)
      → Yields (Claims store W ⊥) (remember_directory id none) (λ a. Claims store W Y)
  remember_missing id = Yields-modify _ (λ s c. record {
    sound = record {
      listed = c.sound.listed;
      commits = c.sound.commits;
      no_commit_missing = c.sound.no_commit_missing;
      directories = λ j d h. elim (Bool-cases (same id j)) [
        | inl e ↦ cc (e, h)
        | inr e ↦ c.sound.directories j d (cc (e, h))
      ];
      no_directory_missing = λ clean j h. c.claim clean;
      files = c.sound.files;
      blocks = c.sound.blocks;
      no_block_missing = c.sound.no_block_missing;
    };
    claim = λ clean. absurd (c.claim clean);
  })

  remember_found :
      {X : Type 0} (id : Bytes) (d : Directory)
      → IsDirectory store id d
      → Yields (Claims store W X) (remember_directory id (some d)) (λ a. Claims store W X)
  remember_found id d is_directory = Yields-modify _ (λ s c. record {
    sound = record {
      listed = c.sound.listed;
      commits = c.sound.commits;
      no_commit_missing = c.sound.no_commit_missing;
      directories = λ j k h. elim (Bool-cases (same id j)) [
        | inl e ↦
            let q : d ≡ k = cc (e, h) in
            subst (λ z. IsDirectory store z k) (same→eq id j e)
              (subst (IsDirectory store id) q is_directory)
        | inr e ↦ c.sound.directories j k (cc (e, h))
      ];
      no_directory_missing = λ clean j h. elim (Bool-cases (same id j)) [
        | inl e ↦ cc (e, h)
        | inr e ↦ c.sound.no_directory_missing clean j (cc (e, h))
      ];
      files = c.sound.files;
      blocks = c.sound.blocks;
      no_block_missing = c.sound.no_block_missing;
    };
    claim = c.claim;
  })

module _ {store : Store} {W : Bytes → Type 0} {X : Type 0} (limits : Limits) where
  Yields-settle_directory :
      (id : Bytes) (content : Option Bytes)
      → read_metadata store (codes "directories") id max_directory_body ≡ ok content
      → Yields
          (Claims store W X)
          (settle_directory store limits id content)
          (λ found. Claims store W (X × FoundDirectory store id found))
  unfolding settle_directory
  Yields-settle_directory id none e =
      Yields-bind (note_missing id) _ (Yields-note_missing {Y = ⊥} id) (λ a.
        Yields-bind (remember_directory id none) _ (remember_missing {Y = ⊥} id)
          (λ b. Yields-pure none (λ s c. Claims-map s (λ z. absurd z) c)))
  Yields-settle_directory id (some content) e =
      Yields-lift (or_corrupt (store.verifier.verify_directory content id)) _ (λ d checked.
        let is_directory : IsDirectory store id d = record {
          content = content;
          stored = e;
          verified = or_corrupt-ok _ d checked;
        } in
        Yields-bind (remember_directory id (some d)) _ (remember_found id d is_directory)
          (λ b. Yields-pure (some d) (λ s c. Claims-map s (λ x. (x, (d, refl, is_directory))) c)))

  Yields-load_directory :
      (id : Bytes)
      → Yields
          (Claims store W X)
          (load_directory store limits id)
          (λ found. Claims store W (X × FoundDirectory store id found))
  unfolding load_directory read_directory
  Yields-load_directory id = Yields-look (λ s. cached id s.directories) _ (λ known. recalled known)
    where
      recalled :
          (known : Option (Option Directory))
          → Yields
              (λ s. Claims store W X s × (cached id s.directories ≡ known))
              (recall known (read_directory store limits id))
              (λ found. Claims store W (X × FoundDirectory store id found))
      recalled none =
          Yields-weaken _ (λ s h. h.0) (λ a s c. c)
            (Yields-lift (read_metadata store (codes "directories") id max_directory_body) _
              (λ content e. Yields-settle_directory id content e))
      recalled (some none) = Yields-pure none (λ s h. record {
        sound = h.0.sound;
        claim = λ clean. absurd (h.0.sound.no_directory_missing clean id h.1);
      })
      recalled (some (some d)) =
          Yields-pure (some d)
            (λ s h. Claims-map s (λ x. (x, (d, refl, h.0.sound.directories id d h.1))) h.0)

module _ {store : Store} (limits : Limits) where
  Yields-visit_entries :
      {X : Type 0} (w : Work) (entries : List DirectoryEntry)
      → Yields
          (Claims store Nothing X)
          (visit_entries store limits w entries)
          (λ works. Claims store Nothing (X × (AllComplete store works → Entries store entries)))
  unfolding visit_entries visit_subdirectory
  Yields-visit_entries w [] = Yields-pure [] (λ s c. Claims-map s (λ x. (x, λ a. no_more)) c)
  Yields-visit_entries {X} w (e ∷ entries) = Yields-guard _ invalid_snapshot _ (λ within.
      Yields-if (same e.kind (codes "Directory")) _ _
        (λ d.
          Yields-bind _ _
            (Yields-guard (not (has_ancestor e.id w.ancestors)) invalid_snapshot _ (λ free.
              Yields-bind (add_context limits) _ (Yields-add_context limits)
                (λ a. Yields-plan limits (codes "directories") e.id)))
            (λ a.
              Yields-bind (visit_entries store limits w entries) _ (Yields-visit_entries w entries)
                (λ works. Yields-pure (work_below w e ∷ works) (λ s c.
                  Claims-map s (λ (x, later). (x, λ (here, rest). subdirectory d here (later rest)))
                    c))))
        (λ n.
          Yields-if (same e.kind (codes "File")) _ (fail invalid_snapshot)
            (λ f.
              Yields-bind (validate_file store limits e.id) _ (Yields-validate_file limits e.id)
                (λ a.
                  Yields-weaken _ (λ s c. c)
                    (λ works s c.
                      Claims-map s
                        (λ ((x, is_file), later).
                          (x, λ all_works. file f is_file (later all_works)))
                        c)
                    (Yields-visit_entries {X = X × IsFile store e.id} w entries)))
            (λ g. Yields-fail invalid_snapshot)))

  Yields-visit_work :
      {X : Type 0} (w : Work)
      → Yields
          (Claims store Nothing X)
          (visit_work store limits w)
          (λ works. Claims store Nothing (X × (AllComplete store works → Complete store w.id)))
  unfolding visit_work visit_found
  Yields-visit_work {X} w = Yields-bind check_context _ Yields-check_context (λ a.
      Yields-bind (load_directory store limits w.id) _ (Yields-load_directory limits w.id)
        (λ found. visited found))
    where
      visited :
          (found : Option Directory)
          → Yields
              (Claims store Nothing (X × FoundDirectory store w.id found))
              (visit_found store limits w found)
              (λ works. Claims store Nothing (X × (AllComplete store works → Complete store w.id)))
      visited none =
          Yields-pure [] (λ s c. Claims-map s (λ (x, (d, e, h)). absurd (some_not_none d e)) c)
      visited (some d) =
          Yields-weaken _ (λ s c. c)
            (λ works s c.
              Claims-map s
                (λ ((x, (k, e, is_directory)), later). (
                  x,
                  λ all_works.
                      complete d (subst (IsDirectory store w.id) (sym (some-eq d k e)) is_directory)
                        (later all_works),
                ))
                c)
            (Yields-visit_entries w d.entries)

  Yields-visit_queue :
      (fuel : ℕ) (queue : List Work) (X : Type 0)
      → Yields
          (Claims store Nothing X)
          (visit_queue store limits fuel queue)
          (λ a. Claims store Nothing (X × AllComplete store queue))
  unfolding visit_queue
  Yields-visit_queue fuel [] X = Yields-pure tt (λ s c. Claims-map s (λ x. (x, tt)) c)
  Yields-visit_queue zero (w ∷ queue) X = Yields-fail out_of_fuel
  Yields-visit_queue (suc fuel) (w ∷ queue) X =
      Yields-bind (visit_work store limits w) _ (Yields-visit_work w) (λ works.
        Yields-weaken _ (λ s c. c)
          (λ a s c.
            Claims-map s
              (λ ((x, later), all_works).
                let (a, b) = All-split (λ z. Complete store z.id) queue works all_works in
                (x, (later b, a)))
              c)
          (Yields-visit_queue fuel (queue ++ works)
            (X × (AllComplete store works → Complete store w.id))))

  -- The root of a snapshot that validateRoot accepts is complete, unless something is missing.
  pub Yields-validate_root :
      {X : Type 0} (root : Bytes)
      → Yields
          (Claims store Nothing X)
          (validate_root store limits root)
          (λ a. Claims store Nothing (X × Complete store root))
  unfolding validate_root
  Yields-validate_root root =
      Yields-bind (plan limits (codes "directories") root) _
        (Yields-plan limits (codes "directories") root)
        (λ a. Yields-bind (add_context limits) _ (Yields-add_context limits) (λ b.
          Yields-weaken _ (λ s c. c) (λ d s c. Claims-map s (λ (x, (r, rest)). (x, r)) c)
            (Yields-visit_queue (suc limits.max_contexts) (root_work root ∷ []) _)))
