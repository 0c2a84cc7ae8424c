-- ===== src/Storage/Collector.antt =====
-- GarbageCollector of internal/storage/gc.go: what it marks. The SQL query behind publishedRoots gives
-- the list of the roots.
pub mod Graph
pub mod Advance
pub mod Rules
pub mod Closure
pub mod Work
pub mod Ends
pub mod Plan
pub mod Sweep
use filecloud.Prelude.{
  ℕ, zero, suc, ◌+◌, Bool, true, false, not, ◌||◌, Option, none, some, List, [], ◌∷◌, ◌++◌, map,
  if◌then◌else◌, length,
}
use filecloud.Prelude.Bytes.{Bytes, codes, same}
use filecloud.Prelude.Outcome.{Result, ok, err, failed, canceled, out_of_fuel}
use filecloud.Prelude.Action.{Action, pure, fail, lift, gets, modify, guard, ◌>>=◌, ◌>>◌, for_each}
use filecloud.Object.Ids.{valid_id}
use filecloud.Object.Values.{File, Directory, DirectoryEntry, CommitObject}
use filecloud.Storage.Objects.{
  Key, has, mark, Stored, Verifier, valid_object_scope_id, file_at, directory_at, commit_at,
}

-- gcRoot
pub record Root : Type 0 where
  pub owner : Bytes
  pub library : Bytes
  pub id : Bytes

-- The keys that are marked, and how many more tests the request's context passes before it is
-- canceled; none if it never is.
pub record Marking : Type 0 where
  pub marked : List Key
  pub patience : Option ℕ

-- `ctx.Err()`
abbrev pub tick : Option ℕ → Result (Option ℕ)
tick none = ok none
tick (some zero) = err canceled
tick (some (suc n)) = ok (some n)

unfoldable pub check_context : Action Marking (Unit {0})
check_context = gets (λ s. tick s.patience) >>= λ test.
    lift test >>= λ left. modify (λ s. record s { patience = left })

abbrev pub mark_key : Key → Action Marking (Unit {0})
mark_key k = modify (λ s. record s { marked = mark k s.marked })

-- `if _, exists := marked[key]; exists`
abbrev pub unless_marked :
    {A : Type 0} → Key → Action Marking A → Action Marking A → Action Marking A
unless_marked k skip visit =
    gets (λ s. has k s.marked) >>= λ seen. elim seen [ true ↦ skip | false ↦ visit ]

-- The key of another object in the same library.
abbrev pub at : Key → Bytes → Bytes → Key
at k kind id = record k { kind = kind; id = id }

abbrev pub commit_key : Root → Bytes → Key
commit_key root id = record {
  owner = root.owner;
  library = root.library;
  kind = codes "commits";
  id = id;
}

-- `append(stack, ids...)`, of a stack whose top is its first element here.
abbrev pub push : List Bytes → List Bytes → List Bytes
push [] stack = stack
push (id ∷ ids) stack = push ids (id ∷ stack)

-- `for len(stack) > 0`: the top is dropped if it is marked, and visited otherwise; a visit returns the
-- identities to push. The first argument bounds the rounds.
module _ (key : Bytes → Key) (visit : Bytes → Action Marking (List Bytes)) where
  unfoldable pub mark_all : ℕ → List Bytes → Action Marking (Unit {0})
  mark_all fuel [] = pure tt
  mark_all zero (id ∷ stack) = fail out_of_fuel
  mark_all (suc fuel) (id ∷ stack) =
      check_context
      >> unless_marked (key id) (mark_all fuel stack)
          (visit id >>= λ ids. mark_all fuel (push ids stack))

module _ (v : Verifier) (disk : List Stored) where
  abbrev pub mark_new_file : Key → Action Marking (Unit {0})
  mark_new_file k = do
    file ← lift (file_at v disk k)
    mark_key k
    for_each (λ b. mark_key (at k (codes "blocks") b)) file.blocks

  unfoldable pub mark_file : Key → Action Marking (Unit {0})
  mark_file k = check_context >> unless_marked k (pure tt) (mark_new_file k)

  -- The loop over the entries of a directory; it returns the subdirectories.
  unfoldable pub mark_entries : Key → List DirectoryEntry → Action Marking (List Bytes)
  mark_entries k [] = pure []
  mark_entries k (e ∷ entries) =
      if same e.kind (codes "Directory")
      then (mark_entries k entries >>= λ ids. pure (e.id ∷ ids))
      else if same e.kind (codes "File")
      then (mark_file (at k (codes "files") e.id) >>= λ done. mark_entries k entries)
      else fail (failed "invalid published directory entry type")

  unfoldable pub visit_directory : Key → Action Marking (List Bytes)
  visit_directory k = do
    directory ← lift (directory_at v disk k)
    mark_key k
    mark_entries k directory.entries

  unfoldable pub mark_snapshot : ℕ → Key → Bytes → Action Marking (Unit {0})
  mark_snapshot fuel k root =
      mark_all (λ id. at k (codes "directories") id)
        (λ id. visit_directory (at k (codes "directories") id)) fuel (root ∷ [])

  unfoldable pub visit_commit : ℕ → Key → Action Marking (List Bytes)
  visit_commit fuel k = do
    commit ← lift (commit_at v disk k)
    mark_key k
    mark_snapshot fuel k commit.root
    pure commit.parents

  unfoldable pub mark_commit_graph : ℕ → Root → Action Marking (Unit {0})
  mark_commit_graph fuel root =
      mark_all (commit_key root) (λ id. visit_commit fuel (commit_key root id)) fuel (root.id ∷ [])

  unfoldable pub mark_root : ℕ → Root → Action Marking (Unit {0})
  mark_root fuel root =
      if not (valid_object_scope_id root.owner)
        || not (valid_object_scope_id root.library)
        || not (valid_id root.id)
      then fail (failed "invalid published object location")
      else mark_commit_graph fuel root

  -- markPublished, on the roots that the query returns.
  unfoldable pub mark_published : ℕ → List Root → Action Marking (Unit {0})
  mark_published fuel roots = for_each (mark_root fuel) roots
