-- ===== src/Storage/HeadExamples.antt =====
-- Transactions on the tables of libraries and heads, and uses of their theorems there.
use filecloud.Prelude.{◌≡◌, refl, true, false, Option, none, some, List, [], ◌∷◌}
use filecloud.Prelude.Bytes.{codes}
use filecloud.Prelude.Outcome.{Error, ok, failed}
use filecloud.Prelude.Action.{lift, gets, modify, guard, pure, ◌>>=◌}
use filecloud.Storage.Objects.{
  find_file, object_path, read_published_object, validate_object_location, valid_object_scope_id,
}
use filecloud.Object.Ids.{valid_id}
use filecloud.Storage.Collector.Graph.{Reach, root, refer}
use filecloud.Storage.Collector.Plan.{Surroundings}
use filecloud.Storage.Collector.Sweep.{collect}
use filecloud.Storage.Examples.{
  small_verifier, small_verifier-IsChecked, surroundings, options, disk, key, commit_id,
  directory_id,
}
use filecloud.Storage.Heads.{
  Tables, Move, NewLibrary, main_role, Request, create, move, statement, update_row, read_row,
  record_role, record_roles, move_head, create_row, replay_row, create_library, serve, serve_all,
  empty_tables, published_roots,
}
use filecloud.Storage.Heads.Proven.{IsProven}
use filecloud.Storage.Heads.Served.{serve_all-IsProven}
use filecloud.Storage.Heads.Race.{IsSwap, move-IsSwap, move-once}
use filecloud.Storage.Heads.Kept.{candidate_root, collect-published}

abbrev new_notes : NewLibrary
new_notes = record { owner = codes "u"; id = codes "l"; name = codes "notes"; now = codes "1" }

abbrev first_requests : List (Request × List (Option Error))
first_requests =
    (create new_notes, none ∷ some (failed "disk I/O error") ∷ []) ∷ (create new_notes, []) ∷ []

abbrev first_move : Move
first_move = record {
  owner = codes "u";
  library = codes "l";
  expected_head = none;
  expected_version = 0;
  commit = commit_id;
  now = codes "2";
}

abbrev other_move : Move
other_move = record first_move { commit = directory_id; now = codes "3" }

abbrev tables : Tables
tables = serve_all first_requests empty_tables

tables-IsProven : IsProven tables
tables-IsProven = serve_all-IsProven first_requests

first_committed : (serve (move first_move (main_role commit_id ∷ [])) [] tables).1 ≡ true
unfolding serve create_library create_row replay_row statement move_head update_row record_roles
    record_role read_row lift gets modify guard pure ◌>>=◌
first_committed = refl

serve_all-IsProven_example :
    IsProven (serve_all ((move first_move (main_role commit_id ∷ []), []) ∷ []) empty_tables)
serve_all-IsProven_example =
    serve_all-IsProven ((move first_move (main_role commit_id ∷ []), []) ∷ [])

move-IsSwap_example :
    IsSwap
      (codes "u")
      (codes "l")
      none
      0
      commit_id
      (codes "2")
      tables
      (serve (move first_move (main_role commit_id ∷ [])) [] tables).0
move-IsSwap_example =
    move-IsSwap first_move (main_role commit_id ∷ []) [] tables tables-IsProven first_committed

move-once_example :
    (serve (move other_move (main_role directory_id ∷ [])) [] (
      serve_all
        ((create new_notes, []) ∷ [])
        (serve (move first_move (main_role commit_id ∷ [])) [] tables).0)).1
    ≡ false
move-once_example =
    move-once first_move other_move (main_role commit_id ∷ []) (main_role directory_id ∷ []) [] []
      ((create new_notes, []) ∷ []) tables tables-IsProven first_committed refl refl refl

directory_reached :
    Reach small_verifier disk
      (candidate_root first_move ∷ [])
      (key (codes "directories") directory_id)
unfolding read_published_object object_path validate_object_location valid_object_scope_id valid_id
directory_reached = refer {k = key (codes "commits") commit_id} (root refl) refl

abbrev later_surroundings : Surroundings
later_surroundings = record surroundings {
  roots = ok (
      published_roots
        (serve_all [] (serve (move first_move (main_role commit_id ∷ [])) [] tables).0));
}

collect-published_example :
    find_file
      (object_path (key (codes "directories") directory_id))
      (collect small_verifier later_surroundings options disk).1
    ≡ find_file (object_path (key (codes "directories") directory_id)) disk
collect-published_example =
    collect-published small_verifier later_surroundings options disk first_move
      (main_role commit_id ∷ []) [] [] tables (key (codes "directories") directory_id)
      small_verifier-IsChecked tables-IsProven first_committed refl directory_reached
