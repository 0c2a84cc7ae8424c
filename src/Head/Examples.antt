-- ===== src/Head/Examples.antt =====
-- A validation of a new head on a small store, and uses of the theorems there.
use filecloud.Prelude.{
  ◌≤◌, ◌≡◌, ◌≢◌, ◌⊎◌, refl, false, Option, none, some, [], ◌∷◌, List, arith, if◌then◌else◌,
}
use filecloud.Prelude.Bytes.{Bytes, codes, same}
use filecloud.Prelude.Outcome.{Result, ok, err, out_of_fuel}
use filecloud.Prelude.Action.{pure, fail, lift, gets, modify, guard, ◌>>=◌}
use filecloud.Prelude.Hoare.{Meets}
use filecloud.Object.Ids.{valid_id}
use filecloud.Object.Values.{CommitObject, no_commit}
use filecloud.Storage.Heads.{Role, main_role}
use filecloud.Storage.Examples.{copies, commit_id, directory_id, file_id, block_id, small_verifier}
use filecloud.Head.State.{
  Limits, Opened, Store, State, plan_key, check_context, add_context, plan, plan_new, read_metadata,
}
use filecloud.Head.Snapshot.{
  max_commit_body, settle_directory, read_directory, load_directory, settle_block, read_block,
  load_block, total_blocks, validate_content, settle_file, validate_new_file, validate_file,
  visit_subdirectory, visit_entries, visit_found, visit_work, visit_queue, validate_root,
}
use filecloud.Head.Reading.{IsTotalStore}
use filecloud.Head.Candidate.{
  merge_source, follow_found, accept_parent, History, new_state, settle_commit, read_commit,
  load_commit, follow, check_head, validate_found, validate_candidate,
}
use filecloud.Head.Candidate.Laws.{IsAccepted, validate_candidate-IsAccepted}
use filecloud.Head.Candidate.Introduced.{Introduces, validate_candidate-Introduces}
use filecloud.Head.Candidate.Ends.{IsTotalHistory, validate_candidate-ends}

-- The objects of one commit: a directory with one file of one block.
abbrev small_object : Bytes → Result (Option Opened)
small_object id =
    if same id commit_id
    then ok (some (record { size = 64; content = directory_id; failure = none; closing = none }))
    else if same id directory_id
    then ok (some (record { size = 64; content = file_id; failure = none; closing = none }))
    else if same id file_id
    then ok (some (record { size = 64; content = block_id; failure = none; closing = none }))
    else if same id block_id
    then ok (some (record { size = 1; content = (codes "x"); failure = none; closing = none }))
    else ok none

abbrev pub small_store : Store
small_store = record {
  verifier = small_verifier;
  get_object = λ kind id. small_object id;
  digest = λ content. block_id;
}

abbrev pub small_limits : Limits
small_limits = record {
  max_snapshot_depth = 4;
  max_contexts = 8;
  max_commit_depth = 4;
  max_introduced = 4;
  max_objects = 8;
}

abbrev pub no_history : History
no_history = record { role_of = λ id. ok none; is_published = λ id. ok false }

abbrev validated : State
validated = record {
  patience = none;
  missing = record { ids = []; seen = []; truncated = false };
  planned =
      plan_key small_limits (codes "blocks") block_id
      ∷ plan_key small_limits (codes "files") file_id
      ∷ plan_key small_limits (codes "directories") directory_id
      ∷ plan_key small_limits (codes "commits") commit_id
      ∷ [];
  commits = (commit_id, some (record no_commit { root = directory_id })) ∷ [];
  directories =
      (
        directory_id,
        some (record {
          entries =
              record { id = file_id; modified_at = []; name = codes "a"; kind = codes "File" } ∷ [];
        }),
      )
      ∷ [];
  files = file_id ∷ [];
  blocks = (block_id, some 1) ∷ [];
  contexts = 1;
}

validation :
    validate_candidate small_store small_limits no_history [] commit_id none (new_state none)
    ≡ ok (main_role commit_id ∷ [], validated)
unfolding validate_candidate check_context plan plan_new add_context read_metadata settle_directory
    read_directory load_directory settle_block read_block load_block total_blocks validate_content
    settle_file validate_new_file validate_file visit_subdirectory visit_entries visit_found
    visit_work visit_queue validate_root settle_commit read_commit load_commit follow check_head
    validate_found pure fail lift gets modify guard ◌>>=◌ valid_id
validation = refl

validate_candidate-IsAccepted_example :
    IsAccepted small_store [] commit_id none (main_role commit_id ∷ [])
validate_candidate-IsAccepted_example =
    validate_candidate-IsAccepted small_store small_limits no_history [] commit_id none none
      (main_role commit_id ∷ []) validated validation refl

small_object-ends : (id : Bytes) → small_object id ≢ err out_of_fuel
small_object-ends id h = ground (arith, h)

small_store-IsTotalStore : IsTotalStore small_store
small_store-IsTotalStore = record {
  get_object = λ kind id. small_object-ends id;
  reading = λ kind id o h. (λ e. ground (arith, h, e), λ e. ground (arith, h, e));
}

no_history-IsTotalHistory : IsTotalHistory no_history
no_history-IsTotalHistory = record { role_of = λ id h. cc; is_published = λ id h. cc }

validate_candidate-ends_example :
    Meets
      (λ roles t. t.contexts ≤ 8)
      (validate_candidate small_store small_limits no_history [] commit_id none (new_state none))
validate_candidate-ends_example =
    validate_candidate-ends small_store small_limits no_history [] commit_id
      small_store-IsTotalStore no_history-IsTotalHistory none none

-- A merge: the candidate has the head and a commit of the other side, whose parent is the head, as parents.
abbrev head_id : Bytes
head_id = copies 64 b'e'

abbrev source_id : Bytes
source_id = copies 64 b'f'

abbrev merge_commit : Bytes → Bytes → CommitObject
merge_commit content id = record no_commit {
  root = content;
  parents = if same id commit_id then head_id ∷ source_id ∷ [] else head_id ∷ [];
}

abbrev merge_store : Store
merge_store = record small_store {
  verifier = record small_verifier { verify_commit = λ content id. ok (merge_commit content id) };
  get_object = λ kind id. small_object (if same id source_id then commit_id else id);
}

abbrev one_head : History
one_head = record {
  role_of = λ id. ok (if same id head_id then some (main_role head_id) else none);
  is_published = λ id. ok (same id head_id);
}

abbrev merge_roles : List Role
merge_roles = main_role commit_id ∷ merge_source commit_id source_id ∷ []

abbrev merged : State
merged = record {
  patience = none;
  missing = record { ids = []; seen = []; truncated = false };
  planned =
      plan_key small_limits (codes "commits") source_id
      ∷ plan_key small_limits (codes "blocks") block_id
      ∷ plan_key small_limits (codes "files") file_id
      ∷ plan_key small_limits (codes "directories") directory_id
      ∷ plan_key small_limits (codes "commits") commit_id
      ∷ [];
  commits =
      (source_id, some (merge_commit directory_id source_id))
      ∷ (commit_id, some (merge_commit directory_id commit_id))
      ∷ [];
  directories = validated.directories;
  files = file_id ∷ [];
  blocks = (block_id, some 1) ∷ [];
  contexts = 3;
}

merge_validation :
    validate_candidate merge_store small_limits one_head [] commit_id
      (some head_id)
      (new_state none)
    ≡ ok (merge_roles, merged)
unfolding validate_candidate check_context plan plan_new add_context read_metadata settle_directory
    read_directory load_directory settle_block read_block load_block total_blocks validate_content
    settle_file validate_new_file validate_file visit_subdirectory visit_entries visit_found
    visit_work visit_queue validate_root settle_commit read_commit load_commit follow follow_found
    accept_parent check_head validate_found pure fail lift gets modify guard ◌>>=◌ valid_id
merge_validation = refl

validate_candidate-Introduces_example :
    ((merge_roles ≡ [])
      × (read_metadata merge_store (codes "commits") commit_id max_commit_body ≡ ok none))
    ⊎ ((sources : List Role) × (merge_roles ≡ main_role commit_id ∷ sources)
        × Introduces small_limits one_head commit_id sources)
validate_candidate-Introduces_example =
    validate_candidate-Introduces merge_store small_limits one_head [] commit_id (some head_id) none
      merge_roles merged merge_validation
