-- ===== src/Merge/Names.antt =====
-- conflictCopyName, conflictLeafBudget and fallbackConflictName of cmd/filecloud/library_merge.go, with
-- truncateUTF8 and validRecoveryVisibleName of client_fs_actions.go.
pub mod Laws
pub mod Fallback
use filecloud.Prelude.{
  ℕ, zero, suc, ◌+◌, ◌-◌, ◌/◌, ◌%◌, min, Bool, true, false, not, ◌&&◌, ◌||◌, Option, none, some,
  List, [], ◌∷◌, ◌++◌, map, leb, ltb, ◌==◌, if◌then◌else◌, length, take, get_elem?,
}
use filecloud.Prelude.Bytes.{Bytes, codes, same, split}
use filecloud.Prelude.Sets.{member}
use filecloud.Prelude.Outcome.{Result, ok, err, failed, path_needs_fallback, ◌>>=◌}
use filecloud.Object.Text.{Unicode, to_lower}
use filecloud.Object.Ids.{valid_id}
use filecloud.Object.Names.{valid_name}
use filecloud.Object.Decimal.{format}
use filecloud.Object.Timestamp.{Civil, Time, tens, ones, parse_canonical_protocol_mtime}
use filecloud.Object.Values.{CommitObject}

abbrev pub merge_max_path : ℕ
merge_max_path = 1024

abbrev pub conflict_max_ordinal : ℕ
conflict_max_ordinal = 9999

abbrev conflict_marker_prefix : Bytes
conflict_marker_prefix = codes " (Filecloud conflict "

-- utf8.RuneStart of the byte at an index, which the caller keeps inside the text.
abbrev starts_rune : Option ℕ → Bool
starts_rune none = true
starts_rune (some c) = ltb c 0x80 || ltb 0xbf c

-- `for limit > 0 && !utf8.RuneStart(value[limit])`
abbrev rune_limit : Bytes → ℕ → ℕ
rune_limit value zero = zero
rune_limit value (suc n) =
    let rest = rune_limit value n in if starts_rune (get_elem? value (suc n)) then suc n else rest

unfoldable pub truncate_utf8 : Bytes → ℕ → Bytes
truncate_utf8 value limit =
    if leb (length value) limit then value else take (rune_limit value limit) value

-- strings.LastIndexByte of the dot: the text in front of it, and the text from it on.
abbrev last_dot : Bytes → Option (Bytes × Bytes)
last_dot [] = none
last_dot (c ∷ s) = elim (last_dot s) [
  | some (stem, extension) ↦ some (c ∷ stem, extension)
  | none ↦ if c == b'.' then some ([], c ∷ s) else none
]

-- `index > 0`
abbrev stem_and_extension : Bytes → Option (Bytes × Bytes) → Bytes × Bytes
stem_and_extension leaf none = (leaf, [])
stem_and_extension leaf (some ([], extension)) = (leaf, [])
stem_and_extension leaf (some (c ∷ stem, extension)) = (c ∷ stem, extension)

-- Time.Format of "20060102T150405Z"
abbrev compact_time : Civil → Bytes
compact_time t =
    tens (t.year / 100)
    ∷ ones (t.year / 100)
    ∷ tens (t.year % 100)
    ∷ ones (t.year % 100)
    ∷ tens t.month
    ∷ ones t.month
    ∷ tens t.day
    ∷ ones t.day
    ∷ b'T'
    ∷ tens t.hour
    ∷ ones t.hour
    ∷ tens t.minute
    ∷ ones t.minute
    ∷ tens t.second
    ∷ ones t.second
    ∷ b'Z'
    ∷ []

-- The source repeats the tests of validName here.
abbrev pub valid_recovery_visible_name : Unicode → Bytes → Bool
valid_recovery_visible_name = valid_name

-- What a name in a directory may take of the path. A negative budget of the source is 0 here, and both
-- are below what any marker needs.
unfoldable pub conflict_leaf_budget : Bytes → ℕ
conflict_leaf_budget parent =
    min (if same parent [] then merge_max_path else merge_max_path - (length parent + 1)) 240

-- The first part of a device identity of five parts, as long as one of a UUID. A device identity of a
-- verified commit has ASCII bytes alone, which to_lower is for.
abbrev device_part : List Bytes → Option Bytes
device_part (d ∷ b ∷ c ∷ e ∷ f ∷ []) =
    if not (length d == 8) || not (same (to_lower d) d) then none else some d
device_part _ = none

abbrev pub marker_of : Bytes → Time → Bytes
marker_of device created =
    conflict_marker_prefix ++ device ++ b' ' ∷ compact_time created.local ++ codes ")"

abbrev suffix_of : ℕ → Bytes
suffix_of number = if ltb 1 number then b' ' ∷ format number else []

abbrev pub wrong_fallback_seed : Bytes → ℕ → Bool
wrong_fallback_seed seed_id ordinal =
    not (valid_id seed_id)
    || not (same (to_lower seed_id) seed_id)
    || ltb ordinal 1
    || ltb conflict_max_ordinal ordinal

-- `seedID[:12] + "-"`
abbrev pub fallback_prefix : Bytes → Bytes
fallback_prefix seed_id = take 12 seed_id ++ codes "-"

abbrev pub fallback_marker : ℕ → Bytes
fallback_marker ordinal = conflict_marker_prefix ++ format ordinal ++ codes ")"

module _ (u : Unicode) where
  abbrev pub candidate_of : Bytes → Bytes → Bytes → Bytes → ℕ → Bytes
  candidate_of stem extension marker suffix available =
      truncate_utf8 stem (available - length marker - length suffix - length extension)
      ++ marker
      ++ suffix
      ++ extension

  -- The loop over the ordinals: the first argument is the number of those that are left.
  unfoldable pub free_name : ℕ → ℕ → Bytes × Bytes → Bytes → ℕ → List Bytes → Result Bytes
  free_name zero number (stem, extension) marker available folded =
      err (failed "conflict copy collision sequence exhausted")
  free_name (suc left) number (stem, extension) marker available folded =
      let rest = free_name left (number + 1) (stem, extension) marker available folded in
      let suffix = suffix_of number in
      let candidate = candidate_of stem extension marker suffix available in
      if ltb available (length marker + length suffix + length extension)
      then err path_needs_fallback
      else if not (valid_recovery_visible_name u candidate)
      then err path_needs_fallback
      else if not (member (u.fold candidate) folded)
      then ok candidate
      else rest

  abbrev pub name_with_seed : Bytes → Bytes → List Bytes → Option Bytes → Result Time → Result Bytes
  name_with_seed leaf parent occupied none created =
      err (failed "local conflict-name seed is not canonical")
  name_with_seed leaf parent occupied (some device) (err e) =
      err (failed "local conflict-name seed is not canonical")
  name_with_seed leaf parent occupied (some device) (ok created) =
      free_name conflict_max_ordinal 1 (stem_and_extension (u.nfc leaf) (last_dot (u.nfc leaf)))
        (marker_of device created) (conflict_leaf_budget parent) (map u.fold occupied)

  unfoldable pub conflict_copy_name : Bytes → Bytes → CommitObject → List Bytes → Result Bytes
  conflict_copy_name leaf parent seed occupied =
      name_with_seed leaf parent occupied (device_part (split seed.device_id b'-'))
        (parse_canonical_protocol_mtime seed.created_at)

  abbrev pub fallback_candidate : Bytes → Bytes → Bytes → ℕ → Bytes
  fallback_candidate leaf prefix marker available =
      prefix ++ truncate_utf8 leaf (available - length prefix - length marker) ++ marker

  abbrev pub checked_fallback : Bytes → Bytes → Bytes → ℕ → Result Bytes
  checked_fallback leaf prefix marker available =
      if ltb available (length prefix + length marker)
      then err (failed "fallback conflict path exceeds protocol limits")
      else if not (valid_recovery_visible_name u (fallback_candidate leaf prefix marker available))
      then err (failed "fallback conflict name is invalid")
      else ok (fallback_candidate leaf prefix marker available)

  unfoldable pub fallback_conflict_name : Bytes → Bytes → Bytes → ℕ → Result Bytes
  fallback_conflict_name leaf parent seed_id ordinal =
      if wrong_fallback_seed seed_id ordinal
      then err (failed "fallback conflict-name seed is invalid")
      else checked_fallback (u.nfc leaf) (fallback_prefix seed_id) (fallback_marker ordinal)
          (conflict_leaf_budget parent)
