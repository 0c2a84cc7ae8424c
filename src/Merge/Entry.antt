-- ===== src/Merge/Entry.antt =====
-- sameMergeEntry, localConflictCopy and mergeEntry of cmd/filecloud/library_merge.go. A nil entry is
-- none.
pub mod Laws
pub mod Conflict
use filecloud.Prelude.{Bool, true, false, not, ◌&&◌, ◌||◌, Option, none, some, if◌then◌else◌}
use filecloud.Prelude.Bytes.{Bytes, codes, same}
use filecloud.Prelude.ByteOrder.{later}
use filecloud.Prelude.Outcome.{failed}
use filecloud.Prelude.Action.{Action, pure, fail, ◌>>=◌}
use filecloud.Object.Values.{DirectoryEntry}

unfoldable pub same_merge_entry : Option DirectoryEntry → Option DirectoryEntry → Bool
same_merge_entry none none = true
same_merge_entry none (some r) = false
same_merge_entry (some l) none = false
same_merge_entry (some l) (some r) =
    same l.kind r.kind && same l.id r.id && same l.modified_at r.modified_at

abbrev is_file : DirectoryEntry → Bool
is_file e = same e.kind (codes "File")

-- The tests of localConflictCopy on a local entry that is there:
-- `remote == nil || local.Type != remote.Type || local.Type == "File" && local.ID != remote.ID`
abbrev pub asks_copy : DirectoryEntry → Option DirectoryEntry → Bool
asks_copy l none = true
asks_copy l (some r) = not (same l.kind r.kind) || (is_file l && not (same l.id r.id))

abbrev pub conflicting : Option DirectoryEntry → Option DirectoryEntry → Bool
conflicting none remote = false
conflicting (some l) remote = asks_copy l remote

unfoldable pub local_conflict_copy :
    Option DirectoryEntry → Option DirectoryEntry → Option DirectoryEntry → Bool
local_conflict_copy base local remote =
    if same_merge_entry local base || same_merge_entry remote base || same_merge_entry local remote
    then false
    else conflicting local remote

-- The switch over the identity of the merged directory.
abbrev pub merged_modified : Bytes → DirectoryEntry → DirectoryEntry → Bytes
merged_modified id l r =
    if same id l.id && same id r.id
    then later l.modified_at r.modified_at
    else if same id r.id
    then r.modified_at
    else if not (same id l.id)
    then later l.modified_at r.modified_at
    else l.modified_at

abbrev pub base_id : Bytes → Option DirectoryEntry → Bytes
base_id empty none = empty
base_id empty (some b) = if same b.kind (codes "Directory") then b.id else empty

-- The same tests of mergeEntry, where both entries are there.
abbrev pub unallocated : DirectoryEntry → DirectoryEntry → Bool
unallocated l r = not (same l.kind r.kind) || (is_file l && not (same l.id r.id))

-- `S` is the state of the tree merger, `merge` its merge of directories one level down, and `empty`
-- adds the empty directory to the directories it knows and returns its identity.
module _ {S : Type 0} (empty : Action S Bytes)
    (merge : Bytes → Bytes → Bytes → Action S Bytes) where
  abbrev pub merge_directories :
      Option DirectoryEntry → DirectoryEntry → DirectoryEntry → Action S (Option DirectoryEntry)
  merge_directories base l r = do
    e ← empty
    id ← merge (base_id e base) l.id r.id
    pure (
        some (record {
          id = id;
          modified_at = merged_modified id l r;
          name = l.name;
          kind = codes "Directory";
        }))

  -- Behind the tests of sameMergeEntry.
  abbrev pub merge_changed :
      Option DirectoryEntry
      → Option DirectoryEntry
      → Option DirectoryEntry
      → Action S (Option DirectoryEntry)
  merge_changed base none remote = pure remote
  merge_changed base (some l) none =
      fail (failed "local structural conflict was not allocated by its directory")
  merge_changed base (some l) (some r) =
      if unallocated l r
      then fail (failed "local structural conflict was not allocated by its directory")
      else if is_file l
      then pure (some (record l { modified_at = later l.modified_at r.modified_at }))
      else merge_directories base l r

  unfoldable pub merge_entry :
      Option DirectoryEntry
      → Option DirectoryEntry
      → Option DirectoryEntry
      → Action S (Option DirectoryEntry)
  merge_entry base local remote =
      if same_merge_entry local base
      then pure remote
      else if same_merge_entry remote base
      then pure local
      else if same_merge_entry local remote
      then pure local
      else merge_changed base local remote
