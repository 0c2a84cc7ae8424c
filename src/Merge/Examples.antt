-- ===== src/Merge/Examples.antt =====
-- A conflict on one entry, and the names of its copies.
use filecloud.Prelude.{ℕ, zero, suc, ◌≡◌, ◌↔◌, inr, false, refl, true, none, some, List, [], ◌∷◌}
use filecloud.Prelude.Bytes.{Bytes, codes, split}
use filecloud.Prelude.Outcome.{payload_too_large, ok, err, failed}
use filecloud.Prelude.Action.{Action, pure, fail}
use filecloud.Object.Text.{Unicode, to_lower}
use filecloud.Object.Ids.{valid_id}
use filecloud.Object.Names.{valid_name, bad_form, bad_char, reserved}
use filecloud.Object.Decimal.{format}
use filecloud.Object.Timestamp.{
  parse_canonical_protocol_mtime, canonical_protocol_mtime, parse_time, format_time, in_range,
}
use filecloud.Object.Values.{DirectoryEntry, CommitObject, no_commit}
use filecloud.Merge.Entry.{same_merge_entry, local_conflict_copy, merge_entry}
use filecloud.Merge.Entry.Laws.{Keeps, merge_entry-Keeps}
use filecloud.Merge.Entry.Conflict.{IsAllocated, merge_entry_iff}
use filecloud.Merge.Names.{
  conflict_copy_name, free_name, truncate_utf8, conflict_leaf_budget, fallback_conflict_name,
}
use filecloud.Merge.Names.Laws.{IsConflictName, conflict_copy_name-IsConflictName}
use filecloud.Merge.Names.Fallback.{IsFallbackName, fallback_conflict_name-IsFallbackName}

abbrev ascii : Unicode
ascii = record { nfc = λ s. s; fold = to_lower }

abbrev base : DirectoryEntry
base = record {
  id = codes "1";
  modified_at = codes "2024-01-01T00:00:00Z";
  name = codes "notes.txt";
  kind = codes "File";
}

-- The local side edits the file; the remote side deletes it.
abbrev edited : DirectoryEntry
edited = record base { id = codes "2" }

-- The remote side edits it in the same way, later.
abbrev edited_later : DirectoryEntry
edited_later = record edited { modified_at = codes "2024-02-02T00:00:00Z" }

abbrev no_directory : Action ℕ Bytes
no_directory = pure (codes "0")

abbrev take_local : Bytes → Bytes → Bytes → Action ℕ Bytes
take_local b l r = pure l

no_directory-IsAllocated : IsAllocated no_directory
unfolding pure
no_directory-IsAllocated = record { at = λ s h. cc }

-- A merge of directories that is at its limit.
abbrev too_deep : Bytes → Bytes → Bytes → Action ℕ Bytes
too_deep b l r = fail payload_too_large

too_deep-IsAllocated : (b l r : Bytes) → IsAllocated (too_deep b l r)
unfolding fail
too_deep-IsAllocated b l r = record { at = λ s h. cc }

edited_changed : same_merge_entry (some edited_later) (some base) ≡ false
unfolding same_merge_entry
edited_changed = refl

both_edited :
    merge_entry no_directory take_local (some base) (some edited) (some edited_later) 0
    ≡ ok (some edited_later, 0)
unfolding merge_entry same_merge_entry pure
both_edited = refl

merge_entry-Keeps_example : Keeps edited_later (some edited_later)
merge_entry-Keeps_example =
    merge_entry-Keeps no_directory take_local (some base) edited_later refl (some edited)
      (some edited_later) (some edited_later) 0 0 edited_changed (inr refl) both_edited

merge_entry_iff_example : (local_conflict_copy (some base) (some edited) none ≡ true) ↔ (
    merge_entry no_directory too_deep (some base) (some edited) none 0
    ≡ err (failed "local structural conflict was not allocated by its directory"))
merge_entry_iff_example =
    merge_entry_iff no_directory too_deep (some base) (some edited) none 0 no_directory-IsAllocated
      too_deep-IsAllocated

abbrev seed : CommitObject
seed = record no_commit {
  created_at = codes "2024-02-29T23:59:58Z";
  device_id = codes "0f8fad5b-d9cb-469f-a165-70867728950e";
}

abbrev copy_name : Bytes
copy_name = codes "notes (Filecloud conflict 0f8fad5b 20240229T235958Z) 2.txt"

-- The first name is taken, in other case.
abbrev occupied : List Bytes
occupied = codes "notes.txt" ∷ codes "Notes (Filecloud conflict 0f8fad5b 20240229T235958Z).txt" ∷ []

copy_named :
    conflict_copy_name ascii (codes "notes.txt") (codes "docs") seed occupied ≡ ok copy_name
unfolding conflict_copy_name parse_canonical_protocol_mtime canonical_protocol_mtime parse_time
    format_time in_range free_name truncate_utf8 conflict_leaf_budget valid_name bad_form bad_char
    reserved format split
copy_named = refl

conflict_copy_name-IsConflictName_example : IsConflictName ascii (codes "docs") occupied copy_name
conflict_copy_name-IsConflictName_example =
    conflict_copy_name-IsConflictName ascii (codes "notes.txt") (codes "docs") seed occupied
      copy_name copy_named

abbrev copies : ℕ → ℕ → Bytes
copies zero c = []
copies (suc n) c = c ∷ copies n c

abbrev fallback_name : Bytes
fallback_name = codes "aaaaaaaaaaaa-notes.txt (Filecloud conflict 3)"

fallback_named :
    fallback_conflict_name ascii
      (codes "notes.txt")
      (codes "Filecloud Conflicts")
      (copies 64 b'a')
      3
    ≡ ok fallback_name
unfolding fallback_conflict_name valid_id truncate_utf8 conflict_leaf_budget valid_name bad_form
    bad_char reserved format split
fallback_named = refl

fallback_conflict_name-IsFallbackName_example :
    IsFallbackName ascii (codes "Filecloud Conflicts") fallback_name
fallback_conflict_name-IsFallbackName_example =
    fallback_conflict_name-IsFallbackName ascii (codes "notes.txt") (codes "Filecloud Conflicts")
      (copies 64 b'a') 3 fallback_name fallback_named
