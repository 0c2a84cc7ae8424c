-- ===== src/Merge/Entry/Conflict.antt =====
-- mergeEntry fails of its own accord exactly where localConflictCopy asks for a copy.
use filecloud.Prelude.{
  ◌≡◌, ◌≢◌, refl, Bool, true, false, ◌||◌, Option, none, some, arith, if◌then◌else◌, ◌↔◌,
  Bool-cases, inl, inr,
}
use filecloud.Prelude.Bytes.{Bytes, codes, same}
use filecloud.Prelude.Outcome.{Error, Result, ok, err, failed}
use filecloud.Prelude.Action.{Action, pure, fail, continue, ◌>>=◌}
use filecloud.Object.Values.{DirectoryEntry}
use filecloud.Merge.Entry.{
  same_merge_entry, base_id, unallocated, conflicting, local_conflict_copy, merge_changed,
  merge_entry,
}

abbrev pub structural : Error
structural = failed "local structural conflict was not allocated by its directory"

-- An action that never ends in the error of a conflict that was not allocated.
pub record IsAllocated {S A : Type 0} (m : Action S A) : Type 0 where
  pub at : (s : S) → m s ≢ err structural

IsAllocated-pure : {S A : Type 0} (a : A) → IsAllocated {S = S} (pure a)
unfolding pure
IsAllocated-pure a = record { at = λ s h. cc }

IsAllocated-bind :
    {S A B : Type 0} (m : Action S A) (f : A → Action S B)
    → IsAllocated m
    → ((a : A) → IsAllocated (f a))
    → IsAllocated (m >>= f)
unfolding ◌>>=◌
IsAllocated-bind m f km kf = record { at = λ s. continued (m s) f (km.at s) kf }
  where
    continued :
        {S A B : Type 0} (r : Result (A × S)) (f : A → Action S B)
        → r ≢ err structural
        → ((a : A) → IsAllocated (f a))
        → continue f r ≢ err structural
    continued (ok (a, s)) f h k = (k a).at s
    continued (err e) f h k = λ q. h (cc q)

IsAllocated-if :
    {S A : Type 0} (b : Bool) (m n : Action S A)
    → (b ≡ true → IsAllocated m)
    → (b ≡ false → IsAllocated n)
    → IsAllocated (if b then m else n)
IsAllocated-if false m n km kn = kn refl
IsAllocated-if true m n km kn = km refl

module _ {S : Type 0} (empty : Action S Bytes) (merge : Bytes → Bytes → Bytes → Action S Bytes)
    (base : Option DirectoryEntry) where
  changed-IsAllocated :
      (local remote : Option DirectoryEntry)
      → IsAllocated empty
      → ((b l r : Bytes) → IsAllocated (merge b l r))
      → conflicting local remote ≡ false
      → IsAllocated (merge_changed empty merge base local remote)
  changed-IsAllocated none remote te tm h = IsAllocated-pure remote
  changed-IsAllocated (some l) none te tm h = absurd (cc h)
  changed-IsAllocated (some l) (some r) te tm h =
      IsAllocated-if (unallocated l r) _ _ (λ k. absurd (cc (h, k)))
        (λ _.
          IsAllocated-if (same l.kind (codes "File")) _ _ (λ _. IsAllocated-pure _)
            (λ _. IsAllocated-bind _ _ te (λ e.
              IsAllocated-bind _ _ (tm (base_id e base) l.id r.id) (λ id. IsAllocated-pure _))))

  changed-fails :
      (local remote : Option DirectoryEntry) (s : S)
      → conflicting local remote ≡ true
      → merge_changed empty merge base local remote s ≡ err structural
  unfolding fail
  changed-fails none remote s h = absurd (cc h)
  changed-fails (some l) none s h = refl
  changed-fails (some l) (some r) s h = rw h refl

  entry-IsAllocated :
      (local remote : Option DirectoryEntry)
      → IsAllocated empty
      → ((b l r : Bytes) → IsAllocated (merge b l r))
      → local_conflict_copy base local remote ≡ false
      → IsAllocated (merge_entry empty merge base local remote)
  unfolding merge_entry local_conflict_copy
  entry-IsAllocated local remote te tm h =
      IsAllocated-if (same_merge_entry local base) _ _ (λ _. IsAllocated-pure remote)
        (λ a.
          IsAllocated-if (same_merge_entry remote base) _ _ (λ _. IsAllocated-pure local)
            (λ b.
              IsAllocated-if (same_merge_entry local remote) _ _ (λ _. IsAllocated-pure local)
                (λ c. changed-IsAllocated local remote te tm (no_copy _ _ _ _ a b c h))))
    where
      no_copy :
          (a b c d : Bool)
          → a ≡ false
          → b ≡ false
          → c ≡ false
          → (if a || b || c then false else d) ≡ false
          → d ≡ false
      no_copy a b c d ha hb hc h = ground arith

  entry-fails :
      (local remote : Option DirectoryEntry) (s : S)
      → local_conflict_copy base local remote ≡ true
      → merge_entry empty merge base local remote s ≡ err structural
  unfolding merge_entry local_conflict_copy
  entry-fails local remote s h =
      let (a, b, c, d) =
        copy (same_merge_entry local base) (same_merge_entry remote base)
          (same_merge_entry local remote) (conflicting local remote) h in
      rw (a, b, c) (changed-fails local remote s d)
    where
      copy :
          (a b c d : Bool)
          → (if a || b || c then false else d) ≡ true
          → (a ≡ false) × (b ≡ false) × (c ≡ false) × (d ≡ true)
      copy a b c d h = ground arith

  -- Where the merge of directories and the empty directory never end in the error of a conflict
  -- that was not allocated, the merge of an entry ends in it exactly if localConflictCopy asks for
  -- a copy.
  pub merge_entry_iff :
      (local remote : Option DirectoryEntry) (s : S)
      → IsAllocated empty
      → ((b l r : Bytes) → IsAllocated (merge b l r))
      → (local_conflict_copy base local remote ≡ true)
        ↔ (merge_entry empty merge base local remote s ≡ err structural)
  merge_entry_iff local remote s te tm = (
    entry-fails local remote s,
    λ e. elim (Bool-cases (local_conflict_copy base local remote)) [
      | inl copy ↦ copy
      | inr settled ↦ absurd ((entry-IsAllocated local remote te tm settled).at s e)
    ],
  )
