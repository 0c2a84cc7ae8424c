-- ===== src/Storage/Examples.antt =====
-- Runs of internal/storage on a small object directory, and uses of its theorems there.
use filecloud.Prelude.{
  ℕ, zero, suc, ◌≡◌, ◌≢◌, ◌↔◌, refl, subst, true, false, Bool-cases, inl, inr, none, some, List, [],
  ◌∷◌, arith, if◌then◌else◌, All,
}
use filecloud.Prelude.Bytes.{Bytes, codes}
use filecloud.Prelude.Outcome.{Result, ok, err, failed, out_of_fuel}
use filecloud.Prelude.Action.{for_each, lift, gets, modify, pure, fail, ◌>>=◌}
use filecloud.Prelude.Effect
use filecloud.Object.Ids.{valid_id}
use filecloud.Object.Values.{File, no_commit}
use filecloud.Storage.Objects.{
  Key, has, Stored, Verifier, find_file, object_path, validate_object_location,
  valid_object_scope_id, read_published_object,
}
use filecloud.Storage.Objects.Verified.{IsTotal, IsChecked}
use filecloud.Storage.Collector.{
  Root, Marking, check_context, mark_all, mark_file, mark_entries, visit_directory, mark_snapshot,
  visit_commit, mark_commit_graph, mark_root, mark_published,
}
use filecloud.Storage.Collector.Graph.{Reach, root, refer}
use filecloud.Storage.Collector.Work.{work}
use filecloud.Storage.Collector.Closure.{mark_published-marks}
use filecloud.Storage.Collector.Ends.{mark_published-ends}
use filecloud.Storage.Collector.Plan.{
  entry, directory, ObjectStats, removed, Options, Surroundings, is_expired, plan,
  mark_all_published, collection_plan,
}
use filecloud.Storage.Collector.Plan.Laws.{Member}
use filecloud.Storage.Collector.Sweep.{delete_candidate, delete_candidates, collect}
use filecloud.Storage.Collector.Sweep.Laws.{collect-keeps, collect-spares}
use filecloud.Storage.Collector.Sweep.Deletes.{collect-deletes}

abbrev pub copies : ℕ → ℕ → Bytes
copies zero c = []
copies (suc n) c = c ∷ copies n c

abbrev pub commit_id : Bytes
commit_id = copies 64 b'a'

abbrev pub directory_id : Bytes
directory_id = copies 64 b'b'

abbrev pub file_id : Bytes
file_id = copies 64 b'c'

abbrev pub block_id : Bytes
block_id = copies 64 b'd'

-- A commit's content is its root, a directory's the identity of its one file, a file's its one block.
abbrev pub small_file : Bytes → Result File
small_file content =
    if valid_id content
    then ok (record { blocks = content ∷ []; size = 1 })
    else err (failed "invalid persisted object")

abbrev pub small_verifier : Verifier
small_verifier = record {
  verify_commit = λ content id. ok (record no_commit { root = content });
  verify_directory = λ content id. ok (record {
    entries = record { id = content; modified_at = []; name = codes "a"; kind = codes "File" } ∷ [];
  });
  verify_file = λ content id. small_file content;
}

small_verifier-IsTotal : IsTotal small_verifier
small_verifier-IsTotal = record {
  file = λ c id h. elim (Bool-cases (valid_id c)) [
    | inl e ↦ ground (arith, e, h)
    | inr e ↦ ground (arith, e, h)
  ];
  directory = λ c id h. cc;
  commit = λ c id h. cc;
}

pub small_verifier-IsChecked : IsChecked small_verifier
small_verifier-IsChecked content id f h = elim (Bool-cases (valid_id content)) [
  | inr e ↦ absurd (ground (arith, e, h))
  | inl e ↦
      let q : ◌≡◌ {A = File} (record { blocks = content ∷ []; size = 1 }) f = cc (e, h) in
      subst (λ x. All (λ b. valid_id b ≡ true) x.blocks) q (e, tt)
]

abbrev pub key : Bytes → Bytes → Key
key kind id = record { owner = codes "u"; library = codes "l"; kind = kind; id = id }

abbrev pub stored : Key → ℕ → Bytes → Stored
stored k modified content = record {
  parts = object_path k;
  regular = true;
  modified = modified;
  content = content;
}

abbrev pub lost : Key
lost = key (codes "blocks") commit_id

abbrev pub lost_file : Stored
lost_file = stored lost 5 []

abbrev pub disk : List Stored
disk =
    stored (key (codes "commits") commit_id) 1 directory_id
    ∷ stored (key (codes "directories") directory_id) 1 file_id
    ∷ stored (key (codes "files") file_id) 1 block_id
    ∷ stored (key (codes "blocks") block_id) 1 (codes "x")
    ∷ lost_file
    ∷ []

abbrev roots : List Root
roots = record { owner = codes "u"; library = codes "l"; id = commit_id } ∷ []

abbrev unlimited : Marking
unlimited = record { marked = []; patience = none }

abbrev marked_keys : List Key
marked_keys =
    key (codes "blocks") block_id
    ∷ key (codes "files") file_id
    ∷ key (codes "directories") directory_id
    ∷ key (codes "commits") commit_id
    ∷ []

marking :
    mark_published small_verifier disk 20 roots unlimited
    ≡ ok (tt, record { marked = marked_keys; patience = none })
unfolding mark_published for_each mark_root mark_commit_graph mark_all check_context visit_commit
    mark_snapshot visit_directory mark_entries mark_file read_published_object object_path
    validate_object_location valid_object_scope_id valid_id lift gets modify pure fail ◌>>=◌
marking = refl

block_reached : Reach small_verifier disk roots (key (codes "blocks") block_id)
unfolding read_published_object object_path validate_object_location valid_object_scope_id valid_id
block_reached =
    refer {k = key (codes "files") file_id}
      (refer {k = key (codes "directories") directory_id}
        (refer {k = key (codes "commits") commit_id} (root refl) refl) refl)
      refl

mark_published-marks_example :
    (has (key (codes "blocks") block_id) marked_keys ≡ true)
    ↔ Reach small_verifier disk roots (key (codes "blocks") block_id)
mark_published-marks_example =
    mark_published-marks small_verifier disk 20 roots none
      (record { marked = marked_keys; patience = none }) marking (key (codes "blocks") block_id)

mark_published-ends_example :
    mark_published small_verifier disk (suc (work small_verifier disk [])) roots unlimited
    ≢ err out_of_fuel
mark_published-ends_example =
    mark_published-ends small_verifier disk roots (suc (work small_verifier disk [])) unlimited
      small_verifier-IsTotal (omega arith)

abbrev pub surroundings : Surroundings
surroundings = record {
  roots = ok roots;
  visits =
      directory
      ∷ entry (object_path (key (codes "commits") commit_id))
          (ok (stored (key (codes "commits") commit_id) 1 directory_id))
      ∷ entry (object_path lost) (ok lost_file)
      ∷ [];
  clock = 0;
  patience = none;
  attempt = λ c. record {
    before_delete = ok tt;
    removal = removed;
    synced = ok tt;
    after_delete = ok tt;
  };
}

abbrev pub options : Options
options = record { dry_run = false; grace_period = 86400000000000; now = some 86400000000005 }

abbrev rest_of_disk : List Stored
rest_of_disk =
    stored (key (codes "commits") commit_id) 1 directory_id
    ∷ stored (key (codes "directories") directory_id) 1 file_id
    ∷ stored (key (codes "files") file_id) 1 block_id
    ∷ stored (key (codes "blocks") block_id) 1 (codes "x")
    ∷ []

abbrev report : List ObjectStats
report =
    record { kind = codes "blocks"; count = 1; bytes = 0 }
    ∷ record { kind = codes "files"; count = 0; bytes = 0 }
    ∷ record { kind = codes "directories"; count = 0; bytes = 0 }
    ∷ record { kind = codes "commits"; count = 0; bytes = 0 }
    ∷ []

collected :
    ◌≡◌ {A = Result (List ObjectStats) × List Stored}
      (collect small_verifier surroundings options disk)
      (ok report, rest_of_disk)
unfolding collect collection_plan mark_all_published plan delete_candidates delete_candidate
    mark_published for_each mark_root mark_commit_graph mark_all check_context visit_commit
    mark_snapshot visit_directory mark_entries mark_file read_published_object object_path
    validate_object_location valid_object_scope_id valid_id lift gets modify pure fail ◌>>=◌
    Effect.lift Effect.gets Effect.modify Effect.pure Effect.◌>>=◌
collected = refl

lost_unreached : ¬ Reach small_verifier disk roots lost
unfolding mark_published
lost_unreached r =
    let h =
      (mark_published-marks small_verifier disk 20 roots none
          (record { marked = marked_keys; patience = none }) marking lost).1
        r in
    cc

collect-keeps_example :
    find_file
      (object_path (key (codes "blocks") block_id))
      (collect small_verifier surroundings options disk).1
    ≡ find_file (object_path (key (codes "blocks") block_id)) disk
collect-keeps_example =
    collect-keeps small_verifier surroundings options disk roots (key (codes "blocks") block_id)
      small_verifier-IsChecked refl block_reached

collect-deletes_example : find_file (object_path lost) rest_of_disk ≡ none
unfolding validate_object_location valid_object_scope_id valid_id
collect-deletes_example =
    collect-deletes small_verifier surroundings options disk rest_of_disk report roots lost
      lost_file (λ c h. cc) refl refl collected refl (inr (inr (inl refl))) refl lost_unreached

collect-spares_example :
    find_file
      (object_path (key (codes "files") file_id))
      (collect small_verifier surroundings options disk).1
    ≡ find_file (object_path (key (codes "files") file_id)) disk
unfolding object_path
collect-spares_example =
    collect-spares small_verifier surroundings options disk
      (object_path (key (codes "files") file_id)) (λ f m. unseen f m)
  where
    unseen :
        (f : Stored)
        → Member (entry (object_path (key (codes "files") file_id)) (ok f)) surroundings.visits
        → is_expired 86400000000005 86400000000000 f ≡ false
    unseen f (inl e) = cc
    unseen f (inr (inl e)) = cc
    unseen f (inr (inr (inl e))) = cc
    unseen f (inr (inr (inr e))) = absurd e
