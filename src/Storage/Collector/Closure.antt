-- ===== src/Storage/Collector/Closure.antt =====
-- markPublished marks what is reachable from the published roots, and nothing else.
use filecloud.Prelude.{
  ℕ, zero, suc, ◌≡◌, ◌↔◌, refl, sym, subst, true, false, not, ◌||◌, List, [], ◌∷◌, ◌++◌, map,
  Option, arith, All,
}
use filecloud.Prelude.Bytes.{Bytes, codes, same}
use filecloud.Prelude.Outcome.{ok, failed, out_of_fuel, >>=-eq-ok}
use filecloud.Prelude.Action.{Action, pure, fail, ◌>>◌, for_each}
use filecloud.Object.Ids.{valid_id}
use filecloud.Object.Values.{File, DirectoryEntry}
use filecloud.Storage.Objects.{
  Key, has, Stored, Verifier, valid_object_scope_id, validate_object_location,
  read_published_object, file_at, directory_at, commit_at,
}
use filecloud.Storage.Objects.Laws.{has-append, located}
use filecloud.Storage.Collector.{
  Root, Marking, at, push, check_context, mark_key, mark_all, mark_file, mark_entries,
  visit_directory, mark_snapshot, visit_commit, commit_key, mark_commit_graph, mark_root,
  mark_published,
}
use filecloud.Storage.Collector.Graph.{
  children, entry_key, Reach, root, refer, root_key, file_children, directory_children,
  commit_children,
}
use filecloud.Storage.Collector.Advance.{Advance}
use filecloud.Storage.Collector.Rules.{
  Advances, Advances-pure, Advances-fail, Advances-bind, Advances-lift, Advances-frame,
  Advances-reorder, Advances-head, Advances-if, Advances-check_context, Advances-mark_key,
  Advances-unless_marked,
}

has-map-push :
    (key : Bytes → Key) (c : Key) (ids stack : List Bytes)
    → has c (map key (push ids stack)) ≡ has c (map key ids ++ map key stack)
has-map-push key c [] stack = refl
has-map-push key c (i ∷ ids) stack = ground (
  arith,
  has-map-push key c ids (i ∷ stack),
  has-append c (map key ids) (key i ∷ map key stack),
  has-append c (map key ids) (map key stack),
)

has-turned : (c x : Key) (xs : List Key) → has c (x ∷ xs) ≡ has c (xs ++ x ∷ [])
has-turned c x xs = ground (arith, has-append c xs (x ∷ []))

entry_key-directory :
    (k : Key) (e : DirectoryEntry)
    → same e.kind (codes "Directory") ≡ true
    → entry_key k e ≡ at k (codes "directories") e.id
entry_key-directory k e h = rw h refl

entry_key-file :
    (k : Key) (e : DirectoryEntry)
    → same e.kind (codes "Directory") ≡ false
    → entry_key k e ≡ at k (codes "files") e.id
entry_key-file k e h = rw h refl

module _ {v : Verifier} {disk : List Stored} {G V : Key → Type 0}
    (close : (k c : Key) → G k → has c (children v disk k) ≡ true → G c)
    (vouch : (k : Key) (content : Bytes) → read_published_object disk k ≡ ok content → V k)
    (vouch_blocks : (k : Key) (f : File)
      → file_at v disk k ≡ ok f
      → All (λ b. V (at k (codes "blocks") b)) f.blocks) where
  mark_all-Advances :
      (key : Bytes → Key) (visit : Bytes → Action Marking (List Bytes))
      → ((id : Bytes) → Advances v disk G V (key id ∷ []) (visit id) (map key))
      → (fuel : ℕ) (stack : List Bytes)
      → Advances v disk G V (map key stack) (mark_all key visit fuel stack) (λ a. [])
  unfolding mark_all
  mark_all-Advances key visit step fuel [] = Advances-pure (λ a. []) tt
  mark_all-Advances key visit step zero (id ∷ stack) =
      Advances-fail (map key (id ∷ stack)) out_of_fuel (λ a. [])
  mark_all-Advances key visit step (suc fuel) (id ∷ stack) =
      Advances-bind check_context _ (Advances-check_context (map key (id ∷ stack))) (λ a.
        Advances-unless_marked (key id) _ _ (mark_all-Advances key visit step fuel stack) (
          Advances-bind (visit id) _ (Advances-frame (map key stack) (visit id) (step id)) (λ ids.
            Advances-reorder (map key ids ++ map key stack) _
              (λ c. sym (has-map-push key c ids stack))
              (mark_all-Advances key visit step fuel (push ids stack)))))

  blocks-Advances :
      (k : Key) (blocks : List Bytes)
      → All (λ b. V (at k (codes "blocks") b)) blocks
      → Advances v disk G V
          (map (λ b. at k (codes "blocks") b) blocks)
          (for_each (λ b. mark_key (at k (codes "blocks") b)) blocks)
          (λ a. [])
  unfolding for_each
  blocks-Advances k [] h = Advances-pure (λ a. []) tt
  blocks-Advances k (b ∷ blocks) (vb, h) =
      Advances-bind (mark_key (at k (codes "blocks") b)) _
        (Advances-frame (map (λ b. at k (codes "blocks") b) blocks) _
          (Advances-mark_key (at k (codes "blocks") b) (close (at k (codes "blocks") b)) vb))
        (λ a. blocks-Advances k blocks h)

  file-Advances :
      (k : Key) (id : Bytes)
      → Advances v disk G V
          (at k (codes "files") id ∷ [])
          (mark_file v disk (at k (codes "files") id))
          (λ a. [])
  unfolding mark_file
  file-Advances k id =
      let f = at k (codes "files") id in
      Advances-bind check_context _ (Advances-check_context (f ∷ [])) (λ a.
        Advances-unless_marked f _ _ (Advances-pure (λ a. []) tt) (
          Advances-lift (file_at v disk f) _ (λ file e.
            Advances-bind (mark_key f) _
              (Advances-mark_key f (close f) (
                let (content, read, rest) = >>=-eq-ok (read_published_object disk f) _ e in
                vouch f content read))
              (λ a.
                subst
                  (λ r.
                    Advances v disk G V (file_children f r)
                      (for_each (λ b. mark_key (at f (codes "blocks") b)) file.blocks) (λ a. []))
                  (sym e) (blocks-Advances f file.blocks (vouch_blocks f file e))))))

  entries-Advances :
      (k : Key) (entries : List DirectoryEntry)
      → Advances v disk G V
          (map (entry_key k) entries)
          (mark_entries v disk k entries)
          (map (λ id. at k (codes "directories") id))
  unfolding mark_entries
  entries-Advances k [] = Advances-pure (map (λ id. at k (codes "directories") id)) []
  entries-Advances k (e ∷ entries) =
      let rest = entries-Advances k entries in
      Advances-if (same e.kind (codes "Directory")) _ _
        (λ d. Advances-head _ (entry_key-directory k e d) (
          Advances-reorder (at k (codes "directories") e.id ∷ map (entry_key k) entries) _
            (λ c. has-turned c (at k (codes "directories") e.id) (map (entry_key k) entries))
            (Advances-bind (mark_entries v disk k entries) _
              (Advances-frame (at k (codes "directories") e.id ∷ []) (mark_entries v disk k entries)
                rest)
              (λ ids.
                Advances-reorder _ _
                  (λ c. sym (
                    has-turned c (at k (codes "directories") e.id)
                      (map (λ id. at k (codes "directories") id) ids)))
                  (Advances-pure (map (λ id. at k (codes "directories") id)) (e.id ∷ ids))))))
        (λ n.
          Advances-if (same e.kind (codes "File")) _ _
            (λ f. Advances-head _ (entry_key-file k e n) (
              Advances-bind (mark_file v disk (at k (codes "files") e.id)) _
                (Advances-frame (map (entry_key k) entries) _ (file-Advances k e.id)) (λ a. rest)))
            (λ g. Advances-fail _ _ _))

  directory-Advances :
      (k : Key) (id : Bytes)
      → Advances v disk G V
          (at k (codes "directories") id ∷ [])
          (visit_directory v disk (at k (codes "directories") id))
          (map (λ i. at k (codes "directories") i))
  unfolding visit_directory
  directory-Advances k id =
      let f = at k (codes "directories") id in
      Advances-lift (directory_at v disk f) _ (λ directory e.
        Advances-bind (mark_key f) _
          (Advances-mark_key f (close f) (
            let (content, read, rest) = >>=-eq-ok (read_published_object disk f) _ e in
            vouch f content read))
          (λ a.
            subst
              (λ r.
                Advances v disk G V (directory_children f r)
                  (mark_entries v disk f directory.entries)
                  (map (λ i. at k (codes "directories") i)))
              (sym e) (entries-Advances f directory.entries)))

  snapshot-Advances :
      (fuel : ℕ) (k : Key) (id : Bytes)
      → Advances v disk G V
          (at k (codes "directories") id ∷ [])
          (mark_snapshot v disk fuel k id)
          (λ a. [])
  unfolding mark_snapshot
  snapshot-Advances fuel k id =
      mark_all-Advances (λ i. at k (codes "directories") i) _ (directory-Advances k) fuel (id ∷ [])

  commit-Advances :
      (fuel : ℕ) (r : Root) (id : Bytes)
      → Advances v disk G V
          (commit_key r id ∷ [])
          (visit_commit v disk fuel (commit_key r id))
          (map (commit_key r))
  unfolding visit_commit
  commit-Advances fuel r id =
      let f = commit_key r id in
      Advances-lift (commit_at v disk f) _ (λ commit e.
        Advances-bind (mark_key f) _
          (Advances-mark_key f (close f) (
            let (content, read, rest) = >>=-eq-ok (read_published_object disk f) _ e in
            vouch f content read))
          (λ a.
            subst
              (λ x.
                Advances v disk G V (commit_children f x)
                  (mark_snapshot v disk fuel f commit.root >> pure commit.parents)
                  (map (commit_key r)))
              (sym e)
              (Advances-bind (mark_snapshot v disk fuel f commit.root) _
                (Advances-frame (map (commit_key r) commit.parents) _
                  (snapshot-Advances fuel f commit.root))
                (λ b. Advances-pure (map (commit_key r)) commit.parents))))

  root-Advances :
      (fuel : ℕ) (r : Root)
      → Advances v disk G V (root_key r ∷ []) (mark_root v disk fuel r) (λ a. [])
  unfolding mark_root mark_commit_graph
  root-Advances fuel r =
      Advances-if
        (not (valid_object_scope_id r.owner)
          || not (valid_object_scope_id r.library)
          || not (valid_id r.id))
        (fail (failed "invalid published object location")) _
        (λ h. Advances-fail _ (failed "invalid published object location") _)
        (λ h. mark_all-Advances (commit_key r) _ (commit-Advances fuel r) fuel (r.id ∷ []))

  roots-advance :
      (fuel : ℕ) (roots : List Root)
      → Advances v disk G V (map root_key roots) (mark_published v disk fuel roots) (λ a. [])
  unfolding mark_published for_each
  roots-advance fuel [] = Advances-pure (λ a. []) tt
  roots-advance fuel (r ∷ roots) =
      Advances-bind (mark_root v disk fuel r) _
        (Advances-frame (map root_key roots) _ (root-Advances fuel r))
        (λ a. roots-advance fuel roots)

All-tt : {A : Type 0} (xs : List A) → All (λ x. Unit {0}) xs
All-tt [] = tt
All-tt (x ∷ xs) = (tt, All-tt xs)

read-valid :
    (disk : List Stored) (k : Key) (content : Bytes)
    → read_published_object disk k ≡ ok content
    → valid_id k.id ≡ true
unfolding read_published_object
read-valid disk k content h =
    let (u, valid, found) = >>=-eq-ok (validate_object_location k) _ h in (located k valid).2

marked-Reach :
    (v : Verifier) (disk : List Stored) (roots : List Root) (marked : List Key) (V : Key → Type 0)
    → Advance v disk (Reach v disk roots) V [] (map root_key roots) marked []
    → (k : Key) → Reach v disk roots k
    → has k marked ≡ true
marked-Reach v disk roots marked V a k (root h) = ground (arith, a.covers k h)
marked-Reach v disk roots marked V a k (refer {k = j} r h) =
    ground (arith, a.closes j k (marked-Reach v disk roots marked V a j r) refl h)

-- Once markPublished has ended without an error, the marked keys are those of the objects that the
-- roots reach, and no others.
pub mark_published-marks :
    (v : Verifier) (disk : List Stored) (fuel : ℕ) (roots : List Root) (patience : Option ℕ)
    (end : Marking)
    → mark_published v disk fuel roots (record { marked = []; patience = patience }) ≡ ok (tt, end)
    → (k : Key) → (has k end.marked ≡ true) ↔ Reach v disk roots k
mark_published-marks v disk fuel roots patience end done k =
    let a =
      (roots-advance {V = λ k. Unit {0}} (λ k c. refer) (λ k c h. tt) (λ k f h. All-tt f.blocks)
          fuel roots).at
        (record { marked = []; patience = patience }) end tt done in
    (
      λ h. a.stays (λ c e. cc) (λ c. root) k (ground arith),
      marked-Reach v disk roots end.marked _ a k,
    )

-- So the identity of every such key is valid, where VerifyFile checks those of the blocks.
pub Reach-HasValidId :
    (v : Verifier) (disk : List Stored) (fuel : ℕ) (roots : List Root) (patience : Option ℕ)
    (end : Marking)
    → ((content id : Bytes) (f : File)
        → v.verify_file content id ≡ ok f
        → All (λ b. valid_id b ≡ true) f.blocks)
    → mark_published v disk fuel roots (record { marked = []; patience = patience }) ≡ ok (tt, end)
    → (k : Key) → Reach v disk roots k
    → valid_id k.id ≡ true
Reach-HasValidId v disk fuel roots patience end checked done k reach =
    let a =
      (roots-advance {G = Reach v disk roots} {V = λ k. valid_id k.id ≡ true} (λ k c. refer)
          (read-valid disk)
          (λ k f h.
            let (content, read, verified) = >>=-eq-ok (read_published_object disk k) _ h in
            checked content k.id f verified)
          fuel roots).at
        (record { marked = []; patience = patience }) end tt done in
    a.vouches k (marked-Reach v disk roots end.marked _ a k reach) refl
