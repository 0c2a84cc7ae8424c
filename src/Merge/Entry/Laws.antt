-- ===== src/Merge/Entry/Laws.antt =====
-- What a three-way merge of one entry keeps of a file.
use filecloud.Prelude.{
  ◌≡◌, refl, Bool-cases, true, false, Option, none, some, ◌⊎◌, inl, inr, sym, subst, arith, &&-true,
}
use filecloud.Prelude.Bytes.{Bytes, codes, same, same→eq}
use filecloud.Prelude.ByteOrder.{before, later, before_irrefl, before_asymm}
use filecloud.Prelude.Outcome.{ok}
use filecloud.Prelude.Action.{Action, Returns, Returns-pure, Returns-fail, Returns-if}
use filecloud.Object.Values.{DirectoryEntry}
use filecloud.Merge.Entry.{same_merge_entry, unallocated, merge_changed, merge_entry}

-- The result is a file with the content of the entry, of its time or a later one.
pub record Keeps (e : DirectoryEntry) (result : Option DirectoryEntry) : Type 0 where
  pub entry : DirectoryEntry
  pub present : result ≡ some entry
  pub kind : entry.kind ≡ e.kind
  pub content : entry.id ≡ e.id
  pub time : before entry.modified_at e.modified_at ≡ false

later-left : (a b : Bytes) → before (later a b) a ≡ false
later-left a b = elim (Bool-cases (before a b)) [
  | inl e ↦ rw e (before_asymm a b e)
  | inr e ↦ rw e (before_irrefl a)
]

later-right : (a b : Bytes) → before (later a b) b ≡ false
later-right a b = elim (Bool-cases (before a b)) [ inl e ↦ rw e (before_irrefl b) | inr e ↦ rw e e ]

Keeps-same :
    (e x : DirectoryEntry)
    → x.kind ≡ e.kind
    → x.id ≡ e.id
    → x.modified_at ≡ e.modified_at
    → Keeps e (some x)
Keeps-same e x k i t = record {
  entry = x;
  present = refl;
  kind = k;
  content = i;
  time = subst (λ z. before z e.modified_at ≡ false) (sym t) (before_irrefl e.modified_at);
}

Keeps-itself : (e : DirectoryEntry) → Keeps e (some e)
Keeps-itself e = Keeps-same e e refl refl refl

-- The other side is the same as the file.
Keeps-agreed :
    (l : Option DirectoryEntry) (e : DirectoryEntry)
    → same_merge_entry l (some e) ≡ true
    → Keeps e l
unfolding same_merge_entry
Keeps-agreed none e h = cc
Keeps-agreed (some x) e h =
    let (a, time) = &&-true _ (same x.modified_at e.modified_at) h in
    let (kind, id) = &&-true (same x.kind e.kind) (same x.id e.id) a in
    Keeps-same e x (same→eq x.kind e.kind kind) (same→eq x.id e.id id)
      (same→eq x.modified_at e.modified_at time)

settled_file :
    (l r : DirectoryEntry)
    → unallocated l r ≡ false
    → same l.kind (codes "File") ≡ true
    → (l.kind ≡ r.kind) × (l.id ≡ r.id)
settled_file l r h f =
    (same→eq l.kind r.kind (ground (arith, h)), same→eq l.id r.id (ground (arith, h, f)))

settled_kind : (l r : DirectoryEntry) → unallocated l r ≡ false → l.kind ≡ r.kind
settled_kind l r h = same→eq l.kind r.kind (ground (arith, h))

abbrev pub IsFileEntry : DirectoryEntry → Type 0
IsFileEntry e = same e.kind (codes "File") ≡ true

module _ {S : Type 0} (empty : Action S Bytes) (merge : Bytes → Bytes → Bytes → Action S Bytes)
    (base : Option DirectoryEntry) (e : DirectoryEntry) (is_file : IsFileEntry e) where
  abbrev Kept : Option DirectoryEntry → S → Type 0
  Kept result s = Keeps e result

  -- The changed file is the local one.
  local-Kept :
      (remote : Option DirectoryEntry)
      → Returns Kept (merge_changed empty merge base (some e) remote)
  local-Kept none = Returns-fail _
  local-Kept (some r) =
      Returns-if (unallocated e r) _ _ (λ _. Returns-fail _)
        (λ _.
          Returns-if (same e.kind (codes "File")) _ _
            (λ _. Returns-pure _ (λ s. record {
              entry = record e { modified_at = later e.modified_at r.modified_at };
              present = refl;
              kind = refl;
              content = refl;
              time = later-left e.modified_at r.modified_at;
            }))
            (λ n. absurd (cc (is_file, n))))

  -- It is the remote one.
  remote-Kept :
      (local : Option DirectoryEntry) → Returns Kept (merge_changed empty merge base local (some e))
  remote-Kept none = Returns-pure (some e) (λ s. Keeps-itself e)
  remote-Kept (some l) =
      Returns-if (unallocated l e) _ _ (λ _. Returns-fail _)
        (λ settled.
          Returns-if (same l.kind (codes "File")) _ _
            (λ f.
              let (kind, id) = settled_file l e settled f in
              Returns-pure _ (λ s. record {
                entry = record l { modified_at = later l.modified_at e.modified_at };
                present = refl;
                kind = kind;
                content = id;
                time = later-right l.modified_at e.modified_at;
              }))
            (λ n. absurd (
              cc (
                subst (λ k. same k (codes "File") ≡ true) (sym (settled_kind l e settled)) is_file,
                n,
              ))))

  entry-local :
      (remote : Option DirectoryEntry)
      → same_merge_entry (some e) base ≡ false
      → Returns Kept (merge_entry empty merge base (some e) remote)
  unfolding merge_entry
  entry-local remote changed =
      Returns-if (same_merge_entry (some e) base) _ _ (λ kept. absurd (cc (changed, kept)))
        (λ _.
          Returns-if (same_merge_entry remote base) _ _
            (λ _. Returns-pure (some e) (λ s. Keeps-itself e))
            (λ _.
              Returns-if (same_merge_entry (some e) remote) _ _
                (λ _. Returns-pure (some e) (λ s. Keeps-itself e)) (λ _. local-Kept remote)))

  entry-remote :
      (local : Option DirectoryEntry)
      → same_merge_entry (some e) base ≡ false
      → Returns Kept (merge_entry empty merge base local (some e))
  unfolding merge_entry
  entry-remote local changed =
      Returns-if (same_merge_entry local base) _ _
        (λ _. Returns-pure (some e) (λ s. Keeps-itself e))
        (λ _.
          Returns-if (same_merge_entry (some e) base) _ _ (λ kept. absurd (cc (changed, kept)))
            (λ _.
              Returns-if (same_merge_entry local (some e)) _ _
                (λ agree. Returns-pure local (λ s. Keeps-agreed local e agree))
                (λ _. remote-Kept local)))

  -- Where the local or the remote entry is a file that differs from the base, a merge of the entry
  -- that succeeds returns an entry of the same kind and the same content, whose modification time
  -- is not before that file's.
  pub merge_entry-Keeps :
      (local remote result : Option DirectoryEntry) (s t : S)
      → same_merge_entry (some e) base ≡ false
      → (local ≡ some e) ⊎ (remote ≡ some e)
      → merge_entry empty merge base local remote s ≡ ok (result, t)
      → Keeps e result
  merge_entry-Keeps local remote result s t changed (inl h) done =
      (entry-local remote changed).at s t result
        (subst (λ x. merge_entry empty merge base x remote s ≡ ok (result, t)) h done)
  merge_entry-Keeps local remote result s t changed (inr h) done =
      (entry-remote local changed).at s t result
        (subst (λ x. merge_entry empty merge base local x s ≡ ok (result, t)) h done)
