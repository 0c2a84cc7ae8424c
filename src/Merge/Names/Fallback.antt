-- ===== src/Merge/Names/Fallback.antt =====
-- The name of a fallback copy fits into its directory's path.
use filecloud.Prelude.{
  ℕ, ◌+◌, ◌-◌, ◌≤◌, ◌≡◌, refl, Bool, true, false, not, [], ◌++◌, arith, ltb, if◌then◌else◌, length,
  length-append, subst,
}
use filecloud.Prelude.Bytes.{Bytes, same}
use filecloud.Prelude.Outcome.{Result, ok, err, failed}
use filecloud.Object.Text.{Unicode}
use filecloud.Merge.Names.{
  fallback_prefix, fallback_marker, wrong_fallback_seed, merge_max_path, truncate_utf8,
  valid_recovery_visible_name, conflict_leaf_budget, fallback_candidate, checked_fallback,
  fallback_conflict_name,
}
use filecloud.Merge.Names.Laws.{truncate_utf8-le, within, in_path}

module _ (u : Unicode) where
  length-fallback_candidate :
      (leaf prefix marker : Bytes) (available : ℕ)
      → length prefix + length marker ≤ available
      → length (fallback_candidate u leaf prefix marker available) ≤ available
  length-fallback_candidate leaf prefix marker available h =
      let rest = truncate_utf8 leaf (available - length prefix - length marker) in
      omega (
        arith,
        length-append (prefix ++ rest) marker,
        length-append prefix rest,
        truncate_utf8-le leaf (available - length prefix - length marker),
      )

  checked_parts :
      (a b : Bool) (candidate name : Bytes)
      → (if a
          then err (failed "fallback conflict path exceeds protocol limits")
          else if not b
          then err (failed "fallback conflict name is invalid")
          else ok candidate)
        ≡ ok name
      → (a ≡ false) × (b ≡ true) × (candidate ≡ name)
  checked_parts true b candidate name h = absurd (cc h)
  checked_parts false false candidate name h = absurd (cc h)
  checked_parts false true candidate name h = (refl, refl, cc)

  -- A name that a fallback copy may get in that directory.
  pub record IsFallbackName (parent name : Bytes) : Type 0 where
    pub visible : valid_recovery_visible_name u name ≡ true
    pub short : length name ≤ 240
    pub in_path :
        (if same parent [] then length name else length parent + 1 + length name) ≤ merge_max_path

  candidate-IsFallbackName :
      (leaf prefix marker parent : Bytes)
      → 1 ≤ length marker
      → length prefix + length marker ≤ conflict_leaf_budget parent
      → valid_recovery_visible_name u
          (fallback_candidate u leaf prefix marker (conflict_leaf_budget parent))
        ≡ true
      → IsFallbackName parent
          (fallback_candidate u leaf prefix marker (conflict_leaf_budget parent))
  candidate-IsFallbackName leaf prefix marker parent n room visible =
      let (short, within_path) =
        in_path u (same parent []) (length parent) (length prefix + length marker)
          (length (fallback_candidate u leaf prefix marker (conflict_leaf_budget parent)))
          (omega arith) (unfold conflict_leaf_budget in room)
          (unfold conflict_leaf_budget in
            length-fallback_candidate leaf prefix marker (conflict_leaf_budget parent) room) in
      record { visible = visible; short = short; in_path = within_path }

  checked-IsFallbackName :
      (leaf prefix marker parent name : Bytes)
      → 1 ≤ length marker
      → checked_fallback u leaf prefix marker (conflict_leaf_budget parent) ≡ ok name
      → IsFallbackName parent name
  checked-IsFallbackName leaf prefix marker parent name n h =
      let (fits, visible, e) =
        checked_parts (ltb (conflict_leaf_budget parent) (length prefix + length marker))
          (valid_recovery_visible_name u
            (fallback_candidate u leaf prefix marker (conflict_leaf_budget parent)))
          (fallback_candidate u leaf prefix marker (conflict_leaf_budget parent)) name h in
      subst (IsFallbackName parent) e
        (candidate-IsFallbackName leaf prefix marker parent n (within u _ _ fits) visible)

  seeded :
      (a : Bool) (r : Result Bytes) (name : Bytes)
      → (if a then err (failed "fallback conflict-name seed is invalid") else r) ≡ ok name
      → r ≡ ok name
  seeded true r name h = absurd (cc h)
  seeded false r name h = h

  -- Whatever fallbackConflictName returns is a valid visible name of at most 240 bytes, which
  -- leaves the path in its directory within 1024 bytes.
  pub fallback_conflict_name-IsFallbackName :
      (leaf parent seed_id : Bytes) (ordinal : ℕ) (name : Bytes)
      → fallback_conflict_name u leaf parent seed_id ordinal ≡ ok name
      → IsFallbackName parent name
  unfolding fallback_conflict_name
  fallback_conflict_name-IsFallbackName leaf parent seed_id ordinal name h =
      checked-IsFallbackName (u.nfc leaf) (fallback_prefix seed_id) (fallback_marker ordinal) parent
        name (omega arith)
        (seeded (wrong_fallback_seed seed_id ordinal)
          (checked_fallback u (u.nfc leaf) (fallback_prefix seed_id) (fallback_marker ordinal)
            (conflict_leaf_budget parent))
          name h)
