-- ===== src/Head/UpdateExamples.antt =====
-- A request that moves the head of a new library to its first commit, and uses of the theorems there.
use filecloud.Prelude.{◌⊎◌, ◌≡◌, ◌↔◌, arith, refl, true, Option, none, some, List, [], ◌∷◌}
use filecloud.Prelude.Bytes.{codes}
use filecloud.Prelude.Outcome.{Error, err, failed}
use filecloud.Prelude.Action.{pure, fail, lift, gets, modify, guard, ◌>>=◌}
use filecloud.Object.Ids.{valid_id}
use filecloud.Object.Decimal.{parse_int, format}
use filecloud.Storage.Heads.{
  Library, Tables, NewLibrary, new_library, Request, create, statement, update_row, read_row,
  record_role, record_roles, move_head, create_row, replay_row, create_library, serve, serve_all,
  empty_tables,
}
use filecloud.Storage.Heads.Proven.{IsProven}
use filecloud.Storage.Heads.Served.{serve_all-IsProven}
use filecloud.Storage.Examples.{commit_id}
use filecloud.Head.State.{check_context, add_context, plan, plan_new, read_metadata}
use filecloud.Head.Snapshot.{
  settle_directory, read_directory, load_directory, settle_block, read_block, load_block,
  total_blocks, validate_content, settle_file, validate_new_file, validate_file, visit_subdirectory,
  visit_entries, visit_found, visit_work, visit_queue, validate_root,
}
use filecloud.Head.Candidate.{
  settle_commit, read_commit, load_commit, follow, check_head, validate_found, validate_candidate,
}
use filecloud.Head.Etag.{head_etag, parse_head_etag}
use filecloud.Head.Etag.Laws.{parse_head_etag_iff}
use filecloud.Head.Update.{Call, head_reply, update_head}
use filecloud.Head.Update.Laws.{IsPublication, update_head-IsPublication, update_head-publishes}
use filecloud.Head.Examples.{small_store, small_limits, no_history}

abbrev new_notes : NewLibrary
new_notes = record { owner = []; id = codes "l"; name = codes "notes"; now = codes "1" }

abbrev requests : List (Request × List (Option Error))
requests = (create new_notes, []) ∷ []

abbrev tables : Tables
tables = serve_all requests empty_tables

tables-IsProven : IsProven tables
tables-IsProven = serve_all-IsProven requests

abbrev call : Call
call = record {
  owner = [];
  library = codes "l";
  if_match = codes "\"head-version-0\"" ∷ [];
  request = some (some commit_id);
  admitted = true;
  patience = none;
  now = codes "2";
  before_update = none;
  failures = [];
  latest = err (failed "library not found");
  after_update = none;
}

abbrev row : Library
row = record (new_library new_notes) { head = some commit_id; version = 1; updated_at = codes "2" }

abbrev behind : Tables
behind = (update_head small_store small_limits no_history call (new_library new_notes) tables).1

updated :
    update_head small_store small_limits no_history call (new_library new_notes) tables
    ≡ (head_reply row, behind)
unfolding validate_candidate check_context plan plan_new add_context read_metadata settle_directory
    read_directory load_directory settle_block read_block load_block total_blocks validate_content
    settle_file validate_new_file validate_file visit_subdirectory visit_entries visit_found
    visit_work visit_queue validate_root settle_commit read_commit load_commit follow check_head
    validate_found pure fail lift gets modify guard ◌>>=◌ valid_id parse_int format serve
    create_library create_row replay_row statement move_head update_row record_roles record_role
    read_row
updated = refl

update_head-IsPublication_example :
    IsPublication small_store call (new_library new_notes) tables behind
update_head-IsPublication_example =
    update_head-IsPublication small_store small_limits no_history call (new_library new_notes)
      tables behind row tables-IsProven updated

-- The hook behind the transaction fails.
abbrev hooked : Call
hooked = record call { after_update = some (failed "injected") }

update_head-publishes_example :
    ((update_head small_store small_limits no_history hooked (new_library new_notes) tables).1
      ≡ tables)
    ⊎ IsPublication small_store hooked
        (new_library new_notes)
        tables
        (update_head small_store small_limits no_history hooked (new_library new_notes) tables).1
update_head-publishes_example =
    update_head-publishes small_store small_limits no_history hooked (new_library new_notes) tables
      tables-IsProven

parse_head_etag_iff_example :
    (parse_head_etag (codes "\"head-version-7\"" ∷ []) ≡ some 7)
    ↔ (codes "\"head-version-7\"" ∷ [] ≡ head_etag 7 ∷ [])
parse_head_etag_iff_example = parse_head_etag_iff (codes "\"head-version-7\"" ∷ []) 7 (omega arith)
