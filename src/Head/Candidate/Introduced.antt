-- ===== src/Head/Candidate/Introduced.antt =====
-- The commits that a validation introduces besides the candidate.
use filecloud.Prelude.{
  ℕ, zero, suc, ◌≤◌, ◌≡◌, ◌⊎◌, refl, ap, ◌∙◌, not, true, false, Option, none, some, List, [], ◌∷◌,
  ◌++◌, arith, length, length-append, ◌==◌, All, All-append, All-weaken, inl, inr,
}
use filecloud.Prelude.Bytes.{Bytes, codes, same, same_refl}
use filecloud.Prelude.Sets.{ByteSet, member, add, member-add}
use filecloud.Prelude.Outcome.{ok, invalid_snapshot, payload_too_large, out_of_fuel}
use filecloud.Prelude.Action.{Action, pure, fail}
use filecloud.Prelude.Yields.{
  Yields-look, Yields-modify, Yields, Yields-pure, Yields-fail, Yields-if, Yields-bind, Yields-lift,
  Yields-guard, Yields-weaken,
}
use filecloud.Object.Values.{CommitObject}
use filecloud.Storage.Heads.{Role, main_role, merge_source_role}
use filecloud.Storage.Collector.{tick}
use filecloud.Head.State.{
  cached, note_missing, plan, read_metadata, Limits, Store, State, check_context, add_context,
}
use filecloud.Head.Snapshot.{max_commit_body, or_corrupt, recall, validate_root}
use filecloud.Head.Candidate.Distinct.{Distinct, Distinct-append, names_unseen}
use filecloud.Head.Candidate.{
  settle_commit, remember_commit, read_commit, History, is_mainline, is_unknown, one_or_two,
  second_parent, merge_source, load_commit, refuse_found, refuse_parent, accept_parent,
  follow_found, follow, check_head, validate_found, validate_candidate, new_state,
}

-- A commit that the library has neither a role for nor published, in the role of a merge source.
pub record IsNew (history : History) (candidate : Bytes) (r : Role) : Type 0 where
  pub role : r.role ≡ merge_source_role
  pub mainline : r.mainline ≡ candidate
  pub no_role : history.role_of r.commit ≡ ok none
  pub not_published : history.is_published r.commit ≡ ok false

pub record Introduces (limits : Limits) (history : History) (candidate : Bytes)
    (sources : List Role) : Type 0 where
  pub new : All (IsNew history candidate) sources
  pub distinct : Distinct sources
  pub few : length sources ≤ limits.max_introduced

is_unknown-none : (role : Option Role) → is_unknown role ≡ true → role ≡ none
is_unknown-none none h = refl
is_unknown-none (some r) h = cc

module _ {S A : Type 0} where
  Yields-unit : (act : Action S A) → Yields (λ s. Unit {0}) act (λ a s. Unit {0})
  Yields-unit act = record { at = λ s t a p h. tt }

module _ (store : Store) (limits : Limits) (history : History) (owner candidate : Bytes) where
  abbrev Roles : List Role → Type 0
  Roles roles =
      (sources : List Role) × (roles ≡ main_role candidate ∷ sources)
      × Introduces limits history candidate sources

  record Following (seen : ByteSet) (roles : List Role) : Type 0 where
    sources : List Role
    shape : roles ≡ main_role candidate ∷ sources
    introduces : Introduces limits history candidate sources
    seen_all : All (λ r. member r.commit seen ≡ true) sources

  Following-Roles : (seen : ByteSet) (roles : List Role) → Following seen roles → Roles roles
  Following-Roles seen roles f = (f.sources, f.shape, f.introduces)

  abbrev Introducing : Action State (List Role) → Type 0
  Introducing act = Yields (λ s. Unit {0}) act (λ out s. Roles out)

  one_more :
      (seen : ByteSet) (current : Bytes) (roles : List Role)
      → member current seen ≡ false
      → history.role_of current ≡ ok none
      → history.is_published current ≡ ok false
      → (length roles == suc limits.max_introduced) ≡ false
      → Following seen roles
      → Following (add current seen) (roles ++ merge_source candidate current ∷ [])
  one_more seen current roles e no_role unpublished room f = record {
    sources = f.sources ++ merge_source candidate current ∷ [];
    shape = ap (λ x. x ++ merge_source candidate current ∷ []) f.shape;
    introduces = record {
      new =
          All-append (IsNew history candidate) f.sources (merge_source candidate current ∷ [])
            f.introduces.new
            (
              record {
                role = refl;
                mainline = refl;
                no_role = no_role;
                not_published = unpublished;
              },
              tt,
            );
      distinct =
          Distinct-append f.sources (merge_source candidate current) f.introduces.distinct
            (names_unseen seen current f.sources e f.seen_all);
      few =
          let old = f.introduces.few in
          let size : length roles ≡ suc (length f.sources) = ap (λ x. length x) f.shape in
          ground
            (arith, old, size, room, length-append f.sources (merge_source candidate current ∷ []));
    };
    seen_all =
        All-append (λ r. member r.commit (add current seen) ≡ true) f.sources
          (merge_source candidate current ∷ [])
          (All-weaken (λ r. member r.commit seen ≡ true)
            (λ r. member r.commit (add current seen) ≡ true)
            (λ r h. ground (arith, h, member-add current r.commit seen)) f.sources f.seen_all)
          (ground (arith, member-add current current seen, same_refl current), tt);
  }

  Introducing-refuse_parent :
      (parent : Bytes) (roles : List Role)
      → Roles roles
      → Introducing (refuse_parent store limits history owner candidate parent roles)
  unfolding refuse_parent
  Introducing-refuse_parent parent roles h =
      Yields-lift (history.is_published parent) _ (λ published e.
        Yields-if published (fail invalid_snapshot) _ (λ t. Yields-fail invalid_snapshot)
          (λ f.
            Yields-bind (load_commit store limits parent) _
              (Yields-unit (load_commit store limits parent)) (λ found. refused found)))
    where
      refused :
          (found : Option CommitObject)
          → Introducing (refuse_found store limits history owner candidate roles found)
      refused none = unfold refuse_found in Yields-pure roles (λ s p. h)
      refused (some commit) = unfold refuse_found in Yields-fail invalid_snapshot

  Introducing-accept_parent :
      (current parent : Bytes) (role : Option Role) (root : Bytes) (roles : List Role)
      (rest : List Role → Action State (List Role))
      → Roles roles
      → Introducing (rest (roles ++ merge_source candidate current ∷ []))
      → Introducing
          (accept_parent store limits history owner candidate current parent role root roles rest)
  unfolding accept_parent
  Introducing-accept_parent current parent none root roles rest h next =
      Introducing-refuse_parent parent roles h
  Introducing-accept_parent current parent (some role) root roles rest h next =
      Yields-guard (is_mainline parent (some role)) invalid_snapshot _ (λ main.
        Yields-bind (validate_root store limits root) _
          (Yields-unit (validate_root store limits root)) (λ a. next))

  Introducing-follow_found :
      (current : Bytes) (roles : List Role) (found : Option CommitObject)
      (rest : Bytes → List Role → Action State (List Role))
      → Roles roles
      → ((next : Bytes)
          → (length roles == suc limits.max_introduced) ≡ false
          → Introducing (rest next (roles ++ merge_source candidate current ∷ [])))
      → Introducing (follow_found store limits history owner candidate current roles found rest)
  unfolding follow_found
  Introducing-follow_found current roles none rest h next = Yields-pure roles (λ s p. h)
  Introducing-follow_found current roles (some commit) rest h next =
      Yields-guard (same commit.author_user_id owner) invalid_snapshot _ (λ author.
        Yields-lift (one_or_two commit.parents) _ (λ parents e.
          Yields-guard (not (length roles == suc limits.max_introduced)) payload_too_large _
            (λ room. Yields-lift (history.role_of parents.0) _ (λ role f.
              Introducing-accept_parent current parents.0 role commit.root roles (rest parents.1) h
                (next parents.1 (ground (arith, room)))))))

  Introducing-follow :
      (fuel depth : ℕ) (seen : ByteSet) (current : Bytes) (roles : List Role)
      → Following seen roles
      → Introducing (follow store limits history owner candidate fuel depth seen current roles)
  unfolding follow
  Introducing-follow zero depth seen current roles h = Yields-fail out_of_fuel
  Introducing-follow (suc fuel) depth seen current roles h =
      Yields-if (same current []) (pure roles) _
        (λ e. Yields-pure roles (λ s p. Following-Roles seen roles h))
        (λ e. Yields-bind check_context _ (Yields-unit check_context) (λ a.
          Yields-guard _ payload_too_large _ (λ within.
            Yields-guard (not (member current seen)) invalid_snapshot _ (λ new.
              Yields-bind (add_context limits) _ (Yields-unit (add_context limits)) (λ b.
                Yields-lift (history.role_of current) _ (λ role f.
                  Yields-guard (is_unknown role) invalid_snapshot _ (λ unknown.
                    Yields-lift (history.is_published current) _ (λ published g.
                      Yields-guard (not published) invalid_snapshot _ (λ unpublished.
                        Yields-bind (load_commit store limits current) _
                          (Yields-unit (load_commit store limits current))
                          (λ found.
                            Introducing-follow_found current roles found
                              (follow store limits history owner candidate fuel (suc depth)
                                (add current seen))
                              (Following-Roles seen roles h)
                              (λ next room.
                                Introducing-follow fuel (suc depth) (add current seen) next
                                  (roles ++ merge_source candidate current ∷ [])
                                  (one_more seen current roles (ground (arith, new))
                                    (f ∙ ap (λ x. ok x) (is_unknown-none role unknown))
                                    (g ∙ ap (λ x. ok x) (ground (arith, unpublished))) room
                                    h))))))))))))

  start : Following [] (main_role candidate ∷ [])
  start = record {
    sources = [];
    shape = refl;
    introduces = record { new = tt; distinct = tt; few = omega arith };
    seen_all = tt;
  }

  -- A commit that is not found, in a state that has read none, is not stored.
  abbrev Unstored : Bytes → Option CommitObject → State → Type 0
  Unstored id found s =
      found ≡ none → read_metadata store (codes "commits") id max_commit_body ≡ ok none

  Yields-settle_commit :
      (id : Bytes) (content : Option Bytes)
      → read_metadata store (codes "commits") id max_commit_body ≡ ok content
      → Yields (λ s. Unit {0}) (settle_commit store limits id content) (Unstored id)
  unfolding settle_commit
  Yields-settle_commit id none e =
      Yields-bind (note_missing id) _ (Yields-unit (note_missing id)) (λ a.
        Yields-bind (remember_commit id none) _ (Yields-unit (remember_commit id none))
          (λ b. Yields-pure none (λ s p n. e)))
  Yields-settle_commit id (some content) e =
      Yields-lift (or_corrupt (store.verifier.verify_commit content id)) _ (λ d checked.
        Yields-bind (remember_commit id (some d)) _ (Yields-unit (remember_commit id (some d)))
          (λ b. Yields-pure (some d) (λ s p n. absurd (cc n))))

  Yields-load_commit :
      (id : Bytes) → Yields (λ s. s.commits ≡ []) (load_commit store limits id) (Unstored id)
  unfolding load_commit read_commit
  Yields-load_commit id = Yields-look (λ s. cached id s.commits) _ (λ known. recalled known)
    where
      recalled :
          (known : Option (Option CommitObject))
          → Yields
              (λ s. (s.commits ≡ []) × (cached id s.commits ≡ known))
              (recall known (read_commit store limits id))
              (Unstored id)
      recalled none =
          Yields-weaken _ (λ s h. tt) (λ a s h. h)
            (Yields-bind (plan limits (codes "commits") id) _
              (Yields-unit (plan limits (codes "commits") id))
              (λ a.
                Yields-lift (read_metadata store (codes "commits") id max_commit_body) _
                  (λ content e. Yields-settle_commit id content e)))
      recalled (some found) =
          Yields-pure found (λ s h. absurd (cc (h.1, ap (λ x. cached id x) h.0)))

  Yields-first_check : Yields (λ s. s.commits ≡ []) check_context (λ a s. s.commits ≡ [])
  unfolding check_context
  Yields-first_check =
      Yields-look (λ s. tick s.patience) _
        (λ test. Yields-lift test _ (λ left e. Yields-modify _ (λ s h. h.0)))

  Yields-found :
      (head : Option Bytes) (found : Option CommitObject)
      → Yields
          (Unstored candidate found)
          (validate_found store limits history owner candidate head found)
          (λ out s.
            ((out ≡ [])
              × (read_metadata store (codes "commits") candidate max_commit_body ≡ ok none))
            ⊎ Roles out)
  unfolding validate_found
  Yields-found head none = Yields-pure [] (λ s unstored. inl (refl, unstored refl))
  Yields-found head (some commit) = Yields-guard _ invalid_snapshot _ (λ tested.
      Yields-weaken _ (λ s p. tt) (λ out s r. inr r)
        (Yields-bind (check_head store limits history owner candidate head) _
          (Yields-unit (check_head store limits history owner candidate head))
          (λ a.
            Yields-bind (validate_root store limits commit.root) _
              (Yields-unit (validate_root store limits commit.root))
              (λ b.
                Introducing-follow (suc (suc limits.max_commit_depth)) 1 []
                  (second_parent commit.parents) (main_role candidate ∷ []) start))))

  -- When validateCandidate succeeds from a new state, it returns no roles and the candidate's
  -- commit is not stored, or it returns the candidate's mainline role with merge-source roles of
  -- the candidate behind it; their commits differ from each other, the library has neither a role
  -- for them nor has published them, and there are at most MaxIntroducedCommits.
  pub validate_candidate-Introduces :
      (head : Option Bytes) (patience : Option ℕ) (roles : List Role) (end : State)
      → validate_candidate store limits history owner candidate head (new_state patience)
        ≡ ok (roles, end)
      → ((roles ≡ []) × (read_metadata store (codes "commits") candidate max_commit_body ≡ ok none))
        ⊎ ((sources : List Role) × (roles ≡ main_role candidate ∷ sources)
            × Introduces limits history candidate sources)
  unfolding validate_candidate
  validate_candidate-Introduces head patience roles end done =
      let yields = Yields-bind check_context _ Yields-first_check (λ a.
        Yields-bind (load_commit store limits candidate) _ (Yields-load_commit candidate)
          (λ found. Yields-found head found)) in
      yields.at (new_state patience) end roles refl done
