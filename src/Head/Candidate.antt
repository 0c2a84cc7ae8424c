-- ===== src/Head/Candidate.antt =====
-- validateCandidate: the commit that is to become the head, and the chain of the commits behind its second
-- parent.
pub mod Commits
pub mod Laws
pub mod Ends
pub mod Distinct
pub mod Introduced
use filecloud.Prelude.{
  ℕ, zero, suc, Bool, true, false, not, ◌&&◌, ◌||◌, Option, none, some, List, [], ◌∷◌, ◌++◌, length,
  ltb, ◌==◌, if◌then◌else◌,
}
use filecloud.Prelude.Bytes.{Bytes, codes, same}
use filecloud.Prelude.Sets.{ByteSet, member, add}
use filecloud.Prelude.Outcome.{
  Error, Result, ok, err, payload_too_large, invalid_snapshot, out_of_fuel,
}
use filecloud.Prelude.Action.{Action, pure, fail, lift, gets, modify, guard, ◌>>=◌, ◌>>◌}
use filecloud.Object.Values.{CommitObject}
use filecloud.Storage.Heads.{Role, mainline_role, merge_source_role, main_role}
use filecloud.Head.State.{
  Limits, Store, State, Missing, cached, note_missing, check_context, add_context, plan,
  read_metadata,
}
use filecloud.Head.Snapshot.{max_commit_body, or_corrupt, recall, validate_root}

-- GetPublishedCommitRole and IsCommitPublished, of the library.
pub record History : Type 0 where
  pub role_of : Bytes → Result (Option Role)
  pub is_published : Bytes → Result Bool

-- validCommitParents
abbrev pub valid_commit_parents : List Bytes → Option Bytes → Bool
valid_commit_parents parents none = length parents == 0
valid_commit_parents [] (some head) = false
valid_commit_parents (p ∷ parents) (some head) = ltb (length parents) 2 && same p head

-- `found && role.Role == mainline && role.MainlineCommitID == id`
abbrev pub is_mainline : Bytes → Option Role → Bool
is_mainline id none = false
is_mainline id (some r) = same r.role mainline_role && same r.mainline id

abbrev pub is_unknown : Option Role → Bool
is_unknown none = true
is_unknown (some r) = false

-- The first parent, and the second one or the empty text, of a commit with one or two parents.
abbrev pub one_or_two : List Bytes → Result (Bytes × Bytes)
one_or_two (p ∷ []) = ok (p, [])
one_or_two (p ∷ q ∷ []) = ok (p, q)
one_or_two _ = err invalid_snapshot

abbrev pub second_parent : List Bytes → Bytes
second_parent (p ∷ q ∷ parents) = q
second_parent _ = []

abbrev pub remember_commit : Bytes → Option CommitObject → Action State (Unit {0})
remember_commit id found = modify (λ s. record s { commits = (id, found) ∷ s.commits })

abbrev pub merge_source : Bytes → Bytes → Role
merge_source candidate id = record { commit = id; role = merge_source_role; mainline = candidate }

module _ (store : Store) (limits : Limits) where
  unfoldable pub settle_commit : Bytes → Option Bytes → Action State (Option CommitObject)
  settle_commit id none = do note_missing id; remember_commit id none; pure none
  settle_commit id (some content) = do
    commit ← lift (or_corrupt (store.verifier.verify_commit content id))
    remember_commit id (some commit)
    pure (some commit)

  unfoldable pub read_commit : Bytes → Action State (Option CommitObject)
  read_commit id =
      plan limits (codes "commits") id
      >> (lift (read_metadata store (codes "commits") id max_commit_body) >>= settle_commit id)

  -- loadCommit
  unfoldable pub load_commit : Bytes → Action State (Option CommitObject)
  load_commit id = gets (λ s. cached id s.commits) >>= λ known. recall known (read_commit id)

  module _ (history : History) (owner candidate : Bytes) where
    -- A first parent without a role is never accepted; it may be missing.
    unfoldable pub refuse_found : List Role → Option CommitObject → Action State (List Role)
    refuse_found roles none = pure roles
    refuse_found roles (some commit) = fail invalid_snapshot

    unfoldable pub refuse_parent : Bytes → List Role → Action State (List Role)
    refuse_parent parent roles = lift (history.is_published parent) >>= λ published.
        if published then fail invalid_snapshot else (load_commit parent >>= refuse_found roles)

    -- Behind the tests of a commit of the chain: its first parent, its snapshot, and the rest of the chain.
    unfoldable pub accept_parent :
        Bytes
        → Bytes
        → Option Role
        → Bytes
        → List Role
        → (List Role → Action State (List Role))
        → Action State (List Role)
    accept_parent current parent none root roles rest = refuse_parent parent roles
    accept_parent current parent (some role) root roles rest =
        guard (is_mainline parent (some role)) invalid_snapshot
        >> (validate_root store limits root >> rest (roles ++ merge_source candidate current ∷ []))

    unfoldable pub follow_found :
        Bytes
        → List Role
        → Option CommitObject
        → (Bytes → List Role → Action State (List Role))
        → Action State (List Role)
    follow_found current roles none rest = pure roles
    follow_found current roles (some commit) rest =
        guard (same commit.author_user_id owner) invalid_snapshot
        >> (lift (one_or_two commit.parents) >>= λ parents.
            guard (not (length roles == suc limits.max_introduced)) payload_too_large
            >> (lift (history.role_of parents.0) >>= λ role.
                accept_parent current parents.0 role commit.root roles (rest parents.1)))

    -- The loop over the chain, with the roles so far. The first argument bounds the rounds.
    unfoldable pub follow : ℕ → ℕ → ByteSet → Bytes → List Role → Action State (List Role)
    follow zero depth seen current roles = fail out_of_fuel
    follow (suc fuel) depth seen current roles =
        if same current []
        then pure roles
        else (check_context
            >> (guard (not (ltb limits.max_commit_depth depth)) payload_too_large
                >> (guard (not (member current seen)) invalid_snapshot
                    >> (add_context limits
                        >> (lift (history.role_of current) >>= λ role.
                            guard (is_unknown role) invalid_snapshot
                            >> (lift (history.is_published current) >>= λ published.
                                guard (not published) invalid_snapshot
                                >> (load_commit current >>= λ found.
                                    follow_found current roles found
                                      (follow fuel (suc depth) (add current seen)))))))))

    unfoldable pub check_head : Option Bytes → Action State (Unit {0})
    check_head none = pure tt
    check_head (some head) =
        lift (history.role_of head) >>= λ role. guard (is_mainline head role) invalid_snapshot

    unfoldable pub validate_found : Option Bytes → Option CommitObject → Action State (List Role)
    validate_found head none = pure []
    validate_found head (some commit) =
        guard (same commit.author_user_id owner && valid_commit_parents commit.parents head)
          invalid_snapshot
        >> (check_head head
            >> (validate_root store limits commit.root
                >> follow (suc (suc limits.max_commit_depth)) 1 [] (second_parent commit.parents)
                    (main_role candidate ∷ [])))

    -- The roles of the candidate and of the commits behind its second parent; what is missing stands in
    -- the state behind the call.
    unfoldable pub validate_candidate : Option Bytes → Action State (List Role)
    validate_candidate head = check_context >> (load_commit candidate >>= validate_found head)

abbrev pub new_state : Option ℕ → State
new_state patience = record {
  patience = patience;
  missing = record { ids = []; seen = []; truncated = false };
  planned = [];
  commits = [];
  directories = [];
  files = [];
  blocks = [];
  contexts = 0;
}
