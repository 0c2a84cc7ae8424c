-- ===== src/Head/Snapshot.antt =====
-- loadDirectory, validateFile and validateRoot: the walk over the snapshot of a commit.
use filecloud.Prelude.{
  ℕ, zero, suc, ◌+◌, ◌*◌, Bool, false, not, ◌||◌, Option, none, some, List, [], ◌∷◌, ◌++◌, length,
  ltb, ◌==◌, if◌then◌else◌,
}
use filecloud.Prelude.Bytes.{Bytes, codes, same}
use filecloud.Prelude.Sets.{member, add}
use filecloud.Prelude.Outcome.{Result, ok, err, corrupt_object, invalid_snapshot, out_of_fuel}
use filecloud.Prelude.Action.{Action, pure, fail, lift, gets, modify, guard, ◌>>=◌, ◌>>◌}
use filecloud.Object.Values.{Directory, DirectoryEntry}
use filecloud.Object.Canonical.{max_block_size}
use filecloud.Head.State.{
  block_content, Limits, Opened, Store, State, cached, note_missing, check_context, add_context,
  plan, read_metadata,
}

-- MaxCommitSize, MaxFileObjectSize and MaxDirectoryObjectSize.
abbrev pub max_commit_body : ℕ
max_commit_body = 64 * 1024

abbrev pub max_file_body : ℕ
max_file_body = 20 * 1048576

abbrev pub max_directory_body : ℕ
max_directory_body = 32 * 1048576

abbrev pub max_snapshot_path_bytes : ℕ
max_snapshot_path_bytes = 1024

-- Every error of a Verify function becomes errCorruptObject.
abbrev pub or_corrupt {ℓ} : {A : Type ℓ} → Result A → Result A
or_corrupt (ok a) = ok a
or_corrupt (err e) = err corrupt_object

-- directoryWork; the ancestors are those of directoryPath, the directory itself first.
pub record Work : Type 0 where
  pub id : Bytes
  pub path : Bytes
  pub depth : ℕ
  pub ancestors : List Bytes

-- hasDirectoryAncestor
abbrev pub has_ancestor : Bytes → List Bytes → Bool
has_ancestor id [] = false
has_ancestor id (a ∷ ancestors) = same a id || has_ancestor id ancestors

abbrev pub path_below : Bytes → Bytes → Bytes
path_below path name = if same path [] then name else path ++ codes "/" ++ name

abbrev pub work_below : Work → DirectoryEntry → Work
work_below w e = record {
  id = e.id;
  path = path_below w.path e.name;
  depth = suc w.depth;
  ancestors = e.id ∷ w.ancestors;
}

abbrev pub root_work : Bytes → Work
root_work root = record { id = root; path = []; depth = 1; ancestors = root ∷ [] }

abbrev pub check_total : ℕ → Option ℕ → Action State (Unit {0})
check_total size none = pure tt
check_total size (some total) = guard (total == size) corrupt_object

abbrev pub remember_block : Bytes → Option ℕ → Action State (Unit {0})
remember_block id found = modify (λ s. record s { blocks = (id, found) ∷ s.blocks })

abbrev pub remember_directory : Bytes → Option Directory → Action State (Unit {0})
remember_directory id found = modify (λ s. record s { directories = (id, found) ∷ s.directories })

-- The cached value, or else what a read finds.
abbrev pub recall :
    {A : Type 0} → Option (Option A) → Action State (Option A) → Action State (Option A)
recall none read = read
recall (some found) read = pure found

abbrev pub increased : Option ℕ → ℕ → Option ℕ
increased none size = none
increased (some total) size = some (total + size)

-- The rest of the loop over the blocks, behind a block that is missing or has a size.
abbrev pub after_block :
    List Bytes
    → Option ℕ
    → Option ℕ
    → (Option ℕ → Action State (Option ℕ))
    → Action State (Option ℕ)
after_block ids total none rest = rest none
after_block ids total (some size) rest =
    guard (ltb (length ids) 1 || (size == max_block_size)) corrupt_object
    >> rest (increased total size)

module _ (store : Store) where
  -- The size of a block whose content has its identity.
  abbrev pub checked_block : Bytes → ℕ → Result Bytes → Result ℕ
  checked_block id size (err e) = err e
  checked_block id size (ok content) =
      if not (same (store.digest content) id) || ltb size 1 || ltb max_block_size size
      then err corrupt_object
      else ok size

module _ (store : Store) (limits : Limits) where
  unfoldable pub settle_directory : Bytes → Option Bytes → Action State (Option Directory)
  settle_directory id none = do note_missing id; remember_directory id none; pure none
  settle_directory id (some content) = do
    directory ← lift (or_corrupt (store.verifier.verify_directory content id))
    remember_directory id (some directory)
    pure (some directory)

  unfoldable pub read_directory : Bytes → Action State (Option Directory)
  read_directory id =
      lift (read_metadata store (codes "directories") id max_directory_body) >>= settle_directory id

  -- loadDirectory; none stands for a directory that is missing.
  unfoldable pub load_directory : Bytes → Action State (Option Directory)
  load_directory id =
      gets (λ s. cached id s.directories) >>= λ known. recall known (read_directory id)

  unfoldable pub settle_block : Bytes → Option Opened → Action State (Option ℕ)
  settle_block id none = do note_missing id; remember_block id none; pure none
  settle_block id (some file) = do
    size ← lift (checked_block store id file.size (block_content file))
    remember_block id (some size)
    pure (some size)

  unfoldable pub read_block : Bytes → Action State (Option ℕ)
  read_block id =
      plan limits (codes "blocks") id
      >> (lift (store.get_object (codes "blocks") id) >>= settle_block id)

  unfoldable pub load_block : Bytes → Action State (Option ℕ)
  load_block id = gets (λ s. cached id s.blocks) >>= λ known. recall known (read_block id)

  -- The loop over the blocks of a file, with the total so far; the result is the total, or none where a
  -- block is missing.
  unfoldable pub total_blocks : List Bytes → Option ℕ → Action State (Option ℕ)
  total_blocks [] total = pure total
  total_blocks (id ∷ ids) total =
      load_block id >>= λ block. after_block ids total block (total_blocks ids)

  unfoldable pub validate_content : Bytes → Bytes → Action State (Unit {0})
  validate_content id data_read = do
    file ← lift (or_corrupt (store.verifier.verify_file data_read id))
    total ← total_blocks file.blocks (some 0)
    check_total file.size total

  unfoldable pub settle_file : Bytes → Option Bytes → Action State (Unit {0})
  settle_file id none = note_missing id
  settle_file id (some content) = validate_content id content

  unfoldable pub validate_new_file : Bytes → Action State (Unit {0})
  validate_new_file id =
      plan limits (codes "files") id
      >> (modify (λ s. record s { files = add id s.files })
          >> (lift (read_metadata store (codes "files") id max_file_body) >>= settle_file id))

  unfoldable pub validate_file : Bytes → Action State (Unit {0})
  validate_file id =
      gets (λ s. member id s.files) >>= λ known. if known then pure tt else validate_new_file id

  unfoldable pub visit_subdirectory : Work → DirectoryEntry → Action State (Unit {0})
  visit_subdirectory w e = do
    guard (not (has_ancestor e.id w.ancestors)) invalid_snapshot
    add_context limits
    plan limits (codes "directories") e.id

  -- The loop over the entries of a directory; it returns what is appended to the queue.
  unfoldable pub visit_entries : Work → List DirectoryEntry → Action State (List Work)
  visit_entries w [] = pure []
  visit_entries w (e ∷ entries) =
      guard
        (not (
          ltb max_snapshot_path_bytes (length (path_below w.path e.name))
          || (w.depth == limits.max_snapshot_depth)))
        invalid_snapshot
      >> (if same e.kind (codes "Directory")
          then (visit_subdirectory w e
              >> (visit_entries w entries >>= λ works. pure (work_below w e ∷ works)))
          else if same e.kind (codes "File")
          then (validate_file e.id >> visit_entries w entries)
          else fail invalid_snapshot)

  unfoldable pub visit_found : Work → Option Directory → Action State (List Work)
  visit_found w none = pure []
  visit_found w (some directory) = visit_entries w directory.entries

  unfoldable pub visit_work : Work → Action State (List Work)
  visit_work w = check_context >> (load_directory w.id >>= visit_found w)

  -- The loop over the queue. The first argument bounds the rounds: see Ends.
  unfoldable pub visit_queue : ℕ → List Work → Action State (Unit {0})
  visit_queue fuel [] = pure tt
  visit_queue zero (w ∷ queue) = fail out_of_fuel
  visit_queue (suc fuel) (w ∷ queue) = visit_work w >>= λ works. visit_queue fuel (queue ++ works)

  unfoldable pub validate_root : Bytes → Action State (Unit {0})
  validate_root root = do
    plan limits (codes "directories") root
    add_context limits
    visit_queue (suc limits.max_contexts) (root_work root ∷ [])
