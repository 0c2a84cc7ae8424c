-- ===== src/Head/Candidate/Laws.antt =====
-- What the success of validateCandidate tells.
use filecloud.Prelude.{
  ℕ, zero, suc, ◌≡◌, sym, subst, true, Option, none, some, List, [], ◌∷◌, ◌++◌, All, All-append,
  &&-true,
}
use filecloud.Prelude.Bytes.{Bytes, same, same→eq}
use filecloud.Prelude.Sets.{ByteSet, add}
use filecloud.Prelude.Outcome.{ok, invalid_snapshot, payload_too_large, out_of_fuel}
use filecloud.Prelude.Action.{Action, pure, fail}
use filecloud.Prelude.Yields.{
  Yields, Yields-pure, Yields-fail, Yields-if, Yields-bind, Yields-lift, Yields-guard,
  Yields-weaken, Yields-test,
}
use filecloud.Object.Values.{CommitObject}
use filecloud.Storage.Heads.{Role, main_role}
use filecloud.Head.State.{Limits, Store, State, check_context, add_context}
use filecloud.Head.Snapshot.{validate_root}
use filecloud.Head.Complete.{IsCommit, Complete}
use filecloud.Head.Sound.{Claims, Claims-map, Yields-check_context, Yields-add_context}
use filecloud.Head.Sound.Blocks.{some-eq, some_not_none}
use filecloud.Head.Sound.Files.{Nothing}
use filecloud.Head.Sound.Walk.{Yields-validate_root}
use filecloud.Head.Candidate.Commits.{FoundCommit, Yields-load_commit}
use filecloud.Head.Candidate.{
  History, valid_commit_parents, is_mainline, one_or_two, second_parent, merge_source, load_commit,
  refuse_found, refuse_parent, accept_parent, follow_found, follow, check_head, validate_found,
  validate_candidate, new_state,
}

-- The commit of a role is there, is the owner's, and has a complete snapshot.
pub record IsReady (store : Store) (owner : Bytes) (r : Role) : Type 0 where
  pub commit : CommitObject
  pub is_commit : IsCommit store r.commit commit
  pub author : commit.author_user_id ≡ owner
  pub snapshot : Complete store commit.root

module _ (store : Store) (limits : Limits) (history : History) (owner candidate : Bytes)
    (X : Type 0) where
  abbrev Ready : List Role → Type 0
  Ready roles = X × All (IsReady store owner) roles

  abbrev Outcome : Action State (List Role) → List Role → Type 0
  Outcome act roles =
      Yields (Claims store Nothing (Ready roles)) act (λ out. Claims store Nothing (Ready out))

  Yields-refuse_parent :
      (parent : Bytes) (roles : List Role)
      → Outcome (refuse_parent store limits history owner candidate parent roles) roles
  unfolding refuse_parent
  Yields-refuse_parent parent roles = Yields-lift (history.is_published parent) _ (λ published e.
      Yields-if published (fail invalid_snapshot) _ (λ t. Yields-fail invalid_snapshot)
        (λ f.
          Yields-bind (load_commit store limits parent) _ (Yields-load_commit limits parent)
            (λ found. refused found)))
    where
      refused :
          (found : Option CommitObject)
          → Yields
              (Claims store Nothing (Ready roles × FoundCommit store parent found))
              (refuse_found store limits history owner candidate roles found)
              (λ out. Claims store Nothing (Ready out))
      refused none = unfold refuse_found in Yields-pure roles (λ s c. Claims-map s (λ (r, f). r) c)
      refused (some commit) = unfold refuse_found in Yields-fail invalid_snapshot

  Yields-accept_parent :
      (current parent : Bytes) (role : Option Role) (commit : CommitObject) (roles : List Role)
      (rest : List Role → Action State (List Role))
      → commit.author_user_id ≡ owner
      → ((out : List Role) → Outcome (rest out) out)
      → Yields
          (Claims store Nothing (Ready roles × IsCommit store current commit))
          (accept_parent store limits history owner candidate current parent role commit.root roles
            rest)
          (λ out. Claims store Nothing (Ready out))
  unfolding accept_parent
  Yields-accept_parent current parent none commit roles rest author next =
      Yields-weaken _ (λ s c. Claims-map s (λ (r, f). r) c) (λ out s c. c)
        (Yields-refuse_parent parent roles)
  Yields-accept_parent current parent (some role) commit roles rest author next =
      Yields-guard (is_mainline parent (some role)) invalid_snapshot _ (λ main.
        Yields-bind (validate_root store limits commit.root) _
          (Yields-validate_root limits commit.root)
          (λ a.
            Yields-weaken _
              (λ s c.
                Claims-map s
                  (λ ((ready, is_commit), snapshot). (
                    ready.0,
                    All-append (IsReady store owner) roles (merge_source candidate current ∷ [])
                        ready.1
                        (
                          record {
                            commit = commit;
                            is_commit = is_commit;
                            author = author;
                            snapshot = snapshot;
                          },
                          tt,
                        ),
                  ))
                  c)
              (λ out s c. c) (next (roles ++ merge_source candidate current ∷ []))))

  Yields-follow_found :
      (current : Bytes) (roles : List Role) (found : Option CommitObject)
      (rest : Bytes → List Role → Action State (List Role))
      → ((next : Bytes) (out : List Role) → Outcome (rest next out) out)
      → Yields
          (Claims store Nothing (Ready roles × FoundCommit store current found))
          (follow_found store limits history owner candidate current roles found rest)
          (λ out. Claims store Nothing (Ready out))
  unfolding follow_found
  Yields-follow_found current roles none rest next =
      Yields-pure roles (λ s c. Claims-map s (λ (r, f). r) c)
  Yields-follow_found current roles (some commit) rest next =
      Yields-guard (same commit.author_user_id owner) invalid_snapshot _ (λ author.
        Yields-lift (one_or_two commit.parents) _ (λ parents e.
          Yields-guard _ payload_too_large _ (λ few.
            Yields-lift (history.role_of parents.0) _ (λ role f.
              Yields-weaken _
                (λ s c.
                  Claims-map s
                    (λ (r, (d, q, is_commit)).
                      (r, subst (IsCommit store current) (sym (some-eq commit d q)) is_commit))
                    c)
                (λ out s c. c)
                (Yields-accept_parent current parents.0 role commit roles (rest parents.1)
                  (same→eq commit.author_user_id owner author) (next parents.1))))))

  Yields-follow :
      (fuel depth : ℕ) (seen : ByteSet) (current : Bytes) (roles : List Role)
      → Outcome (follow store limits history owner candidate fuel depth seen current roles) roles
  unfolding follow
  Yields-follow zero depth seen current roles = Yields-fail out_of_fuel
  Yields-follow (suc fuel) depth seen current roles =
      Yields-if (same current []) (pure roles) _ (λ e. Yields-pure roles (λ s c. c))
        (λ e. Yields-bind check_context _ Yields-check_context (λ a.
          Yields-guard _ payload_too_large _ (λ within. Yields-guard _ invalid_snapshot _ (λ new.
            Yields-bind (add_context limits) _ (Yields-add_context limits) (λ b.
              Yields-lift (history.role_of current) _ (λ role f.
                Yields-guard _ invalid_snapshot _ (λ unknown.
                  Yields-lift (history.is_published current) _ (λ published g.
                    Yields-guard _ invalid_snapshot _ (λ unpublished.
                      Yields-bind (load_commit store limits current) _
                        (Yields-load_commit limits current)
                        (λ found.
                          Yields-follow_found current roles found
                            (follow store limits history owner candidate fuel (suc depth)
                              (add current seen))
                            (λ next out.
                              Yields-follow fuel (suc depth) (add current seen) next out)))))))))))

-- What a validation that misses nothing has accepted: the candidate is there and is the owner's, its
-- parents go with the head, its snapshot is complete, and so it is with every other commit of a role.
pub record IsAccepted (store : Store) (owner candidate : Bytes) (head : Option Bytes)
    (roles : List Role) : Type 0 where
  pub commit : CommitObject
  pub is_commit : IsCommit store candidate commit
  pub author : commit.author_user_id ≡ owner
  pub parents : valid_commit_parents commit.parents head ≡ true
  pub snapshot : Complete store commit.root
  pub ready : All (IsReady store owner) roles

module _ (store : Store) (limits : Limits) (history : History) (owner candidate : Bytes) where
  Yields-check_head :
      {X : Type 0} (head : Option Bytes)
      → Yields
          (Claims store Nothing X)
          (check_head store limits history owner candidate head)
          (λ a. Claims store Nothing X)
  unfolding check_head
  Yields-check_head none = Yields-pure tt (λ s c. c)
  Yields-check_head (some head) =
      Yields-lift (history.role_of head) _
        (λ role e. Yields-test _ invalid_snapshot (λ s c main. c))

  Yields-validate_found :
      (head : Option Bytes) (found : Option CommitObject)
      → Yields
          (Claims store Nothing (Unit {0} × FoundCommit store candidate found))
          (validate_found store limits history owner candidate head found)
          (λ roles. Claims store Nothing (IsAccepted store owner candidate head roles))
  unfolding validate_found
  Yields-validate_found head none =
      Yields-pure [] (λ s c. Claims-map s (λ (u, (d, e, h)). absurd (some_not_none d e)) c)
  Yields-validate_found head (some commit) = Yields-guard _ invalid_snapshot _ (λ tested.
      let (author, parents) = &&-true (same commit.author_user_id owner) _ tested in
      let owned = same→eq commit.author_user_id owner author in
      Yields-bind (check_head store limits history owner candidate head) _ (Yields-check_head head)
        (λ a.
          Yields-bind (validate_root store limits commit.root) _
            (Yields-validate_root limits commit.root)
            (λ b.
              Yields-weaken _
                (λ s c.
                  Claims-map s
                    (λ ((u, (d, q, is_commit)), snapshot).
                      let known =
                        subst (IsCommit store candidate) (sym (some-eq commit d q)) is_commit in
                      (
                        (known, snapshot),
                        (
                          record {
                            commit = commit;
                            is_commit = known;
                            author = owned;
                            snapshot = snapshot;
                          },
                          tt,
                        ),
                      ))
                    c)
                (λ roles s c.
                  Claims-map s
                    (λ ((known, snapshot), ready). record {
                      commit = commit;
                      is_commit = known;
                      author = owned;
                      parents = parents;
                      snapshot = snapshot;
                      ready = ready;
                    })
                    c)
                (Yields-follow store limits history owner candidate
                  (IsCommit store candidate commit × Complete store commit.root)
                  (suc (suc limits.max_commit_depth)) 1 [] (second_parent commit.parents)
                  (main_role candidate ∷ [])))))

  start-Claims : (patience : Option ℕ) → Claims store Nothing (Unit {0}) (new_state patience)
  start-Claims patience = record {
    sound = record {
      listed = λ h. cc;
      commits = λ id c h. cc;
      no_commit_missing = λ clean id h. cc;
      directories = λ id d h. cc;
      no_directory_missing = λ clean id h. cc;
      files = λ clean id h. cc;
      blocks = λ id n h. cc;
      no_block_missing = λ clean id h. cc;
    };
    claim = λ clean. tt;
  }

  -- When validateCandidate succeeds from a new state and the state behind it lists no missing
  -- object: the candidate is stored and verified, its author is the owner, and its parents go with
  -- the head; it and every commit of the returned roles have a complete snapshot, which means that
  -- every directory, file and block below the root is stored and verified, and that the blocks of
  -- each file are full up to the last and add up to its size.
  pub validate_candidate-IsAccepted :
      (head : Option Bytes) (patience : Option ℕ) (roles : List Role) (end : State)
      → validate_candidate store limits history owner candidate head (new_state patience)
        ≡ ok (roles, end)
      → end.missing.ids ≡ []
      → IsAccepted store owner candidate head roles
  unfolding validate_candidate
  validate_candidate-IsAccepted head patience roles end done clean =
      let yields = Yields-bind check_context _ Yields-check_context (λ a.
        Yields-bind (load_commit store limits candidate) _ (Yields-load_commit limits candidate)
          (λ found. Yields-validate_found head found)) in
      (yields.at (new_state patience) end roles (start-Claims patience) done).claim clean
