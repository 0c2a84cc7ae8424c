-- ===== src/Merge/Names/Laws.antt =====
-- The name of a conflict copy fits into its directory's path and collides with no name there.
use filecloud.Prelude.{
  min, ℕ, zero, suc, ◌+◌, ◌-◌, ◌≤◌, ◌≡◌, ◌≢◌, refl, Bool, true, false, not, ◌⊎◌, inl, inr, Option,
  none, some, List, [], ◌∷◌, ◌++◌, map, arith, leb, ltb, if◌then◌else◌, length, length-append,
  length-take, All, Bool-cases, ||-false, subst,
}
use filecloud.Prelude.Bytes.{Bytes, same, same_iff}
use filecloud.Prelude.Sets.{member}
use filecloud.Prelude.Outcome.{Result, ok, err, path_needs_fallback}
use filecloud.Object.Text.{Unicode}
use filecloud.Object.Timestamp.{Time}
use filecloud.Object.Values.{CommitObject}
use filecloud.Merge.Names.{
  merge_max_path, conflict_max_ordinal, rune_limit, truncate_utf8, valid_recovery_visible_name,
  conflict_leaf_budget, suffix_of, stem_and_extension, last_dot, marker_of, candidate_of, free_name,
  name_with_seed, conflict_copy_name,
}

rune_limit-le : (value : Bytes) (n : ℕ) → rune_limit value n ≤ n
rune_limit-le value zero = omega arith
rune_limit-le value (suc n) = ground (arith, rune_limit-le value n)

pub truncate_utf8-le : (value : Bytes) (limit : ℕ) → length (truncate_utf8 value limit) ≤ limit
unfolding truncate_utf8
truncate_utf8-le value limit = elim (Bool-cases (leb (length value) limit)) [
  | inl short ↦ rw short (ground (arith, short))
  | inr long ↦
      rw long (omega (arith, length-take (rune_limit value limit) value, rune_limit-le value limit))
]

module _ (u : Unicode) where
  length_four :
      (stem marker suffix extension : Bytes)
      → length (stem ++ marker ++ suffix ++ extension)
        ≡ length stem + length marker + length suffix + length extension
  length_four stem marker suffix extension = omega (
    arith,
    length-append (stem ++ marker ++ suffix) extension,
    length-append (stem ++ marker) suffix,
    length-append stem marker,
  )

  length-candidate_of :
      (stem extension marker suffix : Bytes) (available : ℕ)
      → length marker + length suffix + length extension ≤ available
      → length (candidate_of u stem extension marker suffix available) ≤ available
  length-candidate_of stem extension marker suffix available h = omega (
    arith,
    length_four (truncate_utf8 stem (available - length marker - length suffix - length extension))
        marker suffix extension,
    truncate_utf8-le stem (available - length marker - length suffix - length extension),
  )

  -- What the loop promises of the name that it returns.
  record IsFree (marker : Bytes) (available : ℕ) (folded : List Bytes) (name : Bytes) : Type 0 where
    visible : valid_recovery_visible_name u name ≡ true
    free : member (u.fold name) folded ≡ false
    room : length marker ≤ available
    short : length name ≤ available

  round :
      (a b c : Bool) (candidate name : Bytes) (rest : Result Bytes)
      → (if a
          then err path_needs_fallback
          else if not b
          then err path_needs_fallback
          else if not c
          then ok candidate
          else rest)
        ≡ ok name
      → ((a ≡ false) × (b ≡ true) × (c ≡ false) × (candidate ≡ name)) ⊎ (rest ≡ ok name)
  round true b c candidate name rest h = absurd (cc h)
  round false false c candidate name rest h = absurd (cc h)
  round false true true candidate name rest h = inr h
  round false true false candidate name rest h = inl (refl, refl, refl, cc)

  pub within : (a b : ℕ) → ltb a b ≡ false → b ≤ a
  within a b h = ground arith

  free_name-IsFree :
      (left number : ℕ) (stem extension marker : Bytes) (available : ℕ) (folded : List Bytes)
      (name : Bytes)
      → free_name u left number (stem, extension) marker available folded ≡ ok name
      → IsFree marker available folded name
  unfolding free_name
  free_name-IsFree zero number stem extension marker available folded name h = absurd (cc h)
  free_name-IsFree (suc left) number stem extension marker available folded name h =
      elim (round (ltb available (length marker + length (suffix_of number) + length extension))
        (valid_recovery_visible_name u
          (candidate_of u stem extension marker (suffix_of number) available))
        (member (u.fold (candidate_of u stem extension marker (suffix_of number) available)) folded)
        (candidate_of u stem extension marker (suffix_of number) available) name
        (free_name u left (number + 1) (stem, extension) marker available folded) h) [
          | inl (fits, visible, free, e) ↦ subst (IsFree marker available folded) e (record {
            visible = visible;
            free = free;
            room = omega (arith, within _ _ fits);
            short =
                length-candidate_of stem extension marker (suffix_of number) available
                  (within _ _ fits);
          })
          | inr later ↦
              free_name-IsFree left (number + 1) stem extension marker available folded name later
        ]

  fresh_names :
      (folded : Bytes) (occupied : List Bytes)
      → member folded (map u.fold occupied) ≡ false
      → All (λ o. u.fold o ≢ folded) occupied
  fresh_names folded [] h = tt
  fresh_names folded (o ∷ rest) h =
      let (first, others) = ||-false (same (u.fold o) folded) (member folded (map u.fold rest)) h in
      ((λ e. cc (first, (same_iff (u.fold o) folded).1 e)), fresh_names folded rest others)

  -- A name that a conflict copy may get in a directory with those names.
  pub record IsConflictName (parent : Bytes) (occupied : List Bytes) (name : Bytes) : Type 0 where
    pub visible : valid_recovery_visible_name u name ≡ true
    pub fresh : All (λ o. u.fold o ≢ u.fold name) occupied
    pub short : length name ≤ 240
    pub in_path :
        (if same parent [] then length name else length parent + 1 + length name) ≤ merge_max_path

  pub in_path :
      (top : Bool) (parent marker name : ℕ)
      → 1 ≤ marker
      → marker ≤ min (if top then merge_max_path else merge_max_path - (parent + 1)) 240
      → name ≤ min (if top then merge_max_path else merge_max_path - (parent + 1)) 240
      → (name ≤ 240) × ((if top then name else parent + 1 + name) ≤ merge_max_path)
  in_path true parent marker name n room short = (omega arith, omega arith)
  in_path false parent marker name n room short = (omega arith, omega arith)

  IsFree-IsConflictName :
      (marker parent : Bytes) (occupied : List Bytes) (name : Bytes)
      → 1 ≤ length marker
      → IsFree marker (conflict_leaf_budget parent) (map u.fold occupied) name
      → IsConflictName parent occupied name
  unfolding conflict_leaf_budget
  IsFree-IsConflictName marker parent occupied name n h =
      let (short, within_path) =
        in_path (same parent []) (length parent) (length marker) (length name) n h.room h.short in
      record {
        visible = h.visible;
        fresh = fresh_names (u.fold name) occupied h.free;
        short = short;
        in_path = within_path;
      }

  length-marker_of : (device : Bytes) (created : Time) → 1 ≤ length (marker_of device created)
  length-marker_of device created = omega arith

  with_seed-IsConflictName :
      (leaf parent : Bytes) (occupied : List Bytes) (device : Option Bytes) (created : Result Time)
      (name : Bytes)
      → name_with_seed u leaf parent occupied device created ≡ ok name
      → IsConflictName parent occupied name
  with_seed-IsConflictName leaf parent occupied none created name h = absurd (cc h)
  with_seed-IsConflictName leaf parent occupied (some device) (err e) name h = absurd (cc h)
  with_seed-IsConflictName leaf parent occupied (some device) (ok created) name h =
      let (stem, extension) = stem_and_extension (u.nfc leaf) (last_dot (u.nfc leaf)) in
      IsFree-IsConflictName (marker_of device created) parent occupied name
        (length-marker_of device created)
        (free_name-IsFree conflict_max_ordinal 1 stem extension (marker_of device created)
          (conflict_leaf_budget parent) (map u.fold occupied) name h)

  -- Whatever conflictCopyName returns is a valid visible name, which folds to none of the occupied
  -- names, has at most 240 bytes, and leaves the path in its directory within 1024 bytes.
  pub conflict_copy_name-IsConflictName :
      (leaf parent : Bytes) (seed : CommitObject) (occupied : List Bytes) (name : Bytes)
      → conflict_copy_name u leaf parent seed occupied ≡ ok name
      → IsConflictName parent occupied name
  unfolding conflict_copy_name
  conflict_copy_name-IsConflictName leaf parent seed occupied name h =
      with_seed-IsConflictName leaf parent occupied _ _ name h
