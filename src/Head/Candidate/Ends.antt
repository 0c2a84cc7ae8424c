-- ===== src/Head/Candidate/Ends.antt =====
-- validateCandidate ends, whatever the store and the history hold.
use filecloud.Prelude.{ℕ, zero, suc, ◌+◌, ◌≤◌, ◌≡◌, ◌≢◌, Option, none, some, List, [], ◌∷◌, arith}
use filecloud.Prelude.Bytes.{Bytes, codes, same}
use filecloud.Prelude.Sets.{ByteSet, add}
use filecloud.Prelude.Outcome.{err, invalid_snapshot, payload_too_large, out_of_fuel}
use filecloud.Prelude.Action.{Action, pure, fail}
use filecloud.Prelude.Hoare.{
  Meets, Runs, Runs-pure, Runs-fail, Runs-if, Runs-modify, Runs-bind, Runs-lift, Runs-look,
  Runs-weaken, Runs-guard, Runs-test,
}
use filecloud.Object.Values.{CommitObject}
use filecloud.Storage.Heads.{Role, main_role}
use filecloud.Head.State.{
  Limits, Store, State, cached, note_missing, check_context, add_context, plan, read_metadata,
}
use filecloud.Head.Snapshot.{max_commit_body, or_corrupt, recall, validate_root}
use filecloud.Head.Reading.{IsTotalStore, or_corrupt-ends}
use filecloud.Head.Ends.{
  read_metadata-ends, Runs-check_context, Runs-plan, Runs-add_context, Runs-validate_root,
}
use filecloud.Head.Candidate.{
  History, is_mainline, one_or_two, second_parent, remember_commit, settle_commit, read_commit,
  load_commit, refuse_found, refuse_parent, accept_parent, follow_found, follow, check_head,
  validate_found, validate_candidate, new_state,
}

-- No query ends in the model's own error.
pub record IsTotalHistory (history : History) : Type 0 where
  pub role_of : (id : Bytes) → history.role_of id ≢ err out_of_fuel
  pub is_published : (id : Bytes) → history.is_published id ≢ err out_of_fuel

one_or_two-ends : (parents : List Bytes) → one_or_two parents ≢ err out_of_fuel
one_or_two-ends [] h = cc
one_or_two-ends (p ∷ []) h = cc
one_or_two-ends (p ∷ q ∷ []) h = cc
one_or_two-ends (p ∷ q ∷ r ∷ rest) h = cc

module _ (store : Store) (limits : Limits) (history : History) (owner candidate : Bytes)
    (total : IsTotalStore store) (known : IsTotalHistory history) where
  abbrev Within : State → Type 0
  Within s = s.contexts ≤ limits.max_contexts

  abbrev Ending : {A : Type 0} → Action State A → Type 0
  Ending act = Runs Within act (λ a. Within)

  Runs-settle_commit :
      (id : Bytes) (content : Option Bytes) → Ending (settle_commit store limits id content)
  unfolding settle_commit
  Runs-settle_commit id none = Runs-bind (note_missing id) _ (Runs-modify _ (λ s h. h)) (λ a.
      Runs-bind (remember_commit id none) _ (Runs-modify _ (λ s h. h))
        (λ b. Runs-pure none (λ s h. h)))
  Runs-settle_commit id (some content) =
      Runs-lift (or_corrupt (store.verifier.verify_commit content id)) _ (or_corrupt-ends _) (λ d e.
        Runs-bind (remember_commit id (some d)) _ (Runs-modify _ (λ s h. h))
          (λ b. Runs-pure (some d) (λ s h. h)))

  Runs-load_commit : (id : Bytes) → Ending (load_commit store limits id)
  unfolding load_commit read_commit
  Runs-load_commit id = Runs-look (λ s. cached id s.commits) _ (λ found. recalled found)
    where
      recalled :
          (found : Option (Option CommitObject))
          → Runs
              (λ s. Within s × (cached id s.commits ≡ found))
              (recall found (read_commit store limits id))
              (λ a. Within)
      recalled (some found) = Runs-pure found (λ s h. h.0)
      recalled none =
          Runs-weaken _ (λ s h. h.0) (λ a s h. h)
            (Runs-bind (plan limits (codes "commits") id) _
              (Runs-plan (λ c. c ≤ limits.max_contexts) limits (codes "commits") id)
              (λ a.
                Runs-lift (read_metadata store (codes "commits") id max_commit_body) _
                  (read_metadata-ends store limits total _ _ _)
                  (λ content e. Runs-settle_commit id content)))

  Runs-refuse_parent :
      (parent : Bytes) (roles : List Role)
      → Ending (refuse_parent store limits history owner candidate parent roles)
  unfolding refuse_parent
  Runs-refuse_parent parent roles =
      Runs-lift (history.is_published parent) _ (known.is_published parent) (λ published e.
        Runs-if published (fail invalid_snapshot) _ (λ t. Runs-fail invalid_snapshot (λ h. cc))
          (λ f.
            Runs-bind (load_commit store limits parent) _ (Runs-load_commit parent)
              (λ found. refused found)))
    where
      refused :
          (found : Option CommitObject)
          → Ending (refuse_found store limits history owner candidate roles found)
      refused none = unfold refuse_found in Runs-pure roles (λ s h. h)
      refused (some commit) = unfold refuse_found in Runs-fail invalid_snapshot (λ h. cc)

  Runs-accept_parent :
      (current parent : Bytes) (role : Option Role) (root : Bytes) (roles : List Role)
      (rest : List Role → Action State (List Role))
      → ((out : List Role) → Ending (rest out))
      → Ending
          (accept_parent store limits history owner candidate current parent role root roles rest)
  unfolding accept_parent
  Runs-accept_parent current parent none root roles rest next = Runs-refuse_parent parent roles
  Runs-accept_parent current parent (some role) root roles rest next =
      Runs-guard (is_mainline parent (some role)) invalid_snapshot _ (λ h. cc)
        (λ main.
          Runs-bind (validate_root store limits root) _ (Runs-validate_root store limits total root)
            (λ a. next _))

  Runs-follow_found :
      (current : Bytes) (roles : List Role) (found : Option CommitObject)
      (rest : Bytes → List Role → Action State (List Role))
      → ((next : Bytes) (out : List Role) → Ending (rest next out))
      → Ending (follow_found store limits history owner candidate current roles found rest)
  unfolding follow_found
  Runs-follow_found current roles none rest next = Runs-pure roles (λ s h. h)
  Runs-follow_found current roles (some commit) rest next =
      Runs-guard (same commit.author_user_id owner) invalid_snapshot _ (λ h. cc)
        (λ author.
          Runs-lift (one_or_two commit.parents) _ (one_or_two-ends commit.parents) (λ parents e.
            Runs-guard _ payload_too_large _ (λ h. cc)
              (λ few. Runs-lift (history.role_of parents.0) _ (known.role_of parents.0) (λ role f.
                Runs-accept_parent current parents.0 role commit.root roles (rest parents.1)
                  (next parents.1)))))

  -- A round is entered only behind the test of the depth, so that the rounds are enough.
  Runs-follow :
      (fuel depth : ℕ) (seen : ByteSet) (current : Bytes) (roles : List Role)
      → depth ≤ suc limits.max_commit_depth
      → suc (suc limits.max_commit_depth) ≤ depth + fuel
      → Ending (follow store limits history owner candidate fuel depth seen current roles)
  unfolding follow
  Runs-follow zero depth seen current roles low enough = absurd (omega arith)
  Runs-follow (suc fuel) depth seen current roles low enough =
      Runs-if (same current []) (pure roles) _ (λ e. Runs-pure roles (λ s h. h))
        (λ e. Runs-bind check_context _ (Runs-check_context (λ c. c ≤ limits.max_contexts)) (λ a.
          Runs-guard _ payload_too_large _ (λ h. cc)
            (λ within.
              Runs-guard _ invalid_snapshot _ (λ h. cc)
                (λ new.
                  Runs-bind (add_context limits) _
                    (Runs-weaken _ (λ s h. (h, omega arith)) (λ b s h. h.0)
                      (Runs-add_context store limits total 0 limits.max_contexts))
                    (λ b. Runs-lift (history.role_of current) _ (known.role_of current) (λ role f.
                      Runs-guard _ invalid_snapshot _ (λ h. cc)
                        (λ unknown.
                          Runs-lift (history.is_published current) _ (known.is_published current)
                            (λ published g.
                              Runs-guard _ invalid_snapshot _ (λ h. cc)
                                (λ unpublished.
                                  Runs-bind (load_commit store limits current) _
                                    (Runs-load_commit current)
                                    (λ found.
                                      Runs-follow_found current roles found
                                        (follow store limits history owner candidate fuel
                                          (suc depth) (add current seen))
                                        (λ next out.
                                          Runs-follow fuel (suc depth) (add current seen) next out
                                            (ground (arith, within)) (omega arith))))))))))))

  Runs-check_head :
      (head : Option Bytes) → Ending (check_head store limits history owner candidate head)
  unfolding check_head
  Runs-check_head none = Runs-pure tt (λ s h. h)
  Runs-check_head (some head) =
      Runs-lift (history.role_of head) _ (known.role_of head)
        (λ role e. Runs-test _ invalid_snapshot (λ h. cc) (λ s h. h))

  Runs-validate_found :
      (head : Option Bytes) (found : Option CommitObject)
      → Ending (validate_found store limits history owner candidate head found)
  unfolding validate_found
  Runs-validate_found head none = Runs-pure [] (λ s h. h)
  Runs-validate_found head (some commit) =
      Runs-guard _ invalid_snapshot _ (λ h. cc)
        (λ tested.
          Runs-bind (check_head store limits history owner candidate head) _ (Runs-check_head head)
            (λ a.
              Runs-bind (validate_root store limits commit.root) _
                (Runs-validate_root store limits total commit.root)
                (λ b.
                  Runs-follow (suc (suc limits.max_commit_depth)) 1 []
                    (second_parent commit.parents) (main_role candidate ∷ []) (omega arith)
                    (omega arith))))

  -- Where neither the store nor the history raises the model's own error, validateCandidate from a
  -- new state ends in an error of the program, or with at most MaxTraversalContexts contexts: the
  -- bounds on the rounds of its loops are enough.
  pub validate_candidate-ends :
      (head : Option Bytes) (patience : Option ℕ)
      → Meets
          (λ roles t. t.contexts ≤ limits.max_contexts)
          (validate_candidate store limits history owner candidate head (new_state patience))
  unfolding validate_candidate
  validate_candidate-ends head patience =
      let runs = Runs-bind check_context _ (Runs-check_context (λ c. c ≤ limits.max_contexts)) (λ a.
        Runs-bind (load_commit store limits candidate) _ (Runs-load_commit candidate)
          (λ found. Runs-validate_found head found)) in
      runs.at (new_state patience) (omega arith)
