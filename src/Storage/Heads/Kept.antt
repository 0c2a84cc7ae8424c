-- ===== src/Storage/Heads/Kept.antt =====
-- Publication and garbage collection together: what has been published once is kept.
use filecloud.Prelude.{
  ◌≡◌, refl, sym, subst, Bool, Bool-cases, ||-false, true, false, ◌||◌, ◌&&◌, ◌++◌, Option, List,
  [], ◌∷◌, map, arith, inl, inr,
}
use mathlib.Core.List.{map-append}
use filecloud.Prelude.Bytes.{Bytes, same, same→eq}
use filecloud.Prelude.ByteOrder.{before, before_total}
use filecloud.Prelude.Outcome.{Error, ok}
use filecloud.Storage.Objects.{Key, has, same_key, Stored, Verifier, find_file, object_path}
use filecloud.Storage.Objects.Laws.{has-append, same_key→eq}
use filecloud.Storage.Objects.Verified.{IsChecked}
use filecloud.Storage.Collector.{Root}
use filecloud.Storage.Collector.Graph.{Reach, root, refer, root_key}
use filecloud.Storage.Collector.Plan.{Options, Surroundings}
use filecloud.Storage.Collector.Sweep.{collect}
use filecloud.Storage.Collector.Sweep.Laws.{collect-keeps}
use filecloud.Storage.Heads.{
  Published, Role, Tables, Move, is_published, main_role, Request, create, move, serve, serve_all,
  head_roots, root_of, root_before, insert_root, ordered_union, published_roots,
}
use filecloud.Storage.Heads.Proven.{IsProven}
use filecloud.Storage.Heads.Served.{
  Change, changed_nothing, has_created, has_moved, serve-Change, serve-IsProven, move-IsMoved,
}

Change-published :
    (t : Tables) (r : Request) (after : Tables) (b : Bool) (owner library commit : Bytes)
    → Change t r after b
    → is_published owner library commit t.published ≡ true
    → is_published owner library commit after.published ≡ true
Change-published t r after b owner library commit changed_nothing h = h
Change-published t (create n) after b owner library commit (has_created (inl e)) h =
    subst (λ x. is_published owner library commit x.published ≡ true) (sym e) h
Change-published t (create n) after b owner library commit (has_created (inr (fresh, e))) h =
    subst (λ x. is_published owner library commit x.published ≡ true) (sym e) h
Change-published t (move m roles) after b owner library commit (has_moved l k) h =
    k.moving.keeps_published owner library commit h

-- A published commit stays published.
serve_all-published :
    (rs : List (Request × List (Option Error))) (t : Tables) (owner library commit : Bytes)
    → IsProven t
    → is_published owner library commit t.published ≡ true
    → is_published owner library commit (serve_all rs t).published ≡ true
serve_all-published [] t owner library commit p h = h
serve_all-published ((r, failures) ∷ rs) t owner library commit p h =
    serve_all-published rs (serve r failures t).0 owner library commit
      (serve-IsProven r failures t p)
      (Change-published t r _ _ owner library commit (serve-Change r failures t p) h)

-- Where neither of two texts comes first, the rest decides.
tied :
    (a b : Bytes) (x y : Bool)
    → (before a b || (same a b && x)) ≡ false
    → (before b a || (same b a && y)) ≡ false
    → (a ≡ b) × (x ≡ false) × (y ≡ false)
tied a b x y h k =
    let (p, p') = ||-false (before a b) _ h in
    let (q, q') = ||-false (before b a) _ k in
    let e = before_total a b p q in
    let f = before_total b a q p in (same→eq a b e, ground (arith, e, p'), ground (arith, f, q'))

root_total : (r x : Root) → root_before r x ≡ false → root_before x r ≡ false → r ≡ x
root_total r x h k =
    let (owner, h₁, k₁) = tied r.owner x.owner _ _ h k in
    let (library, h₂, k₂) = tied r.library x.library _ _ h₁ k₁ in
    let id = same→eq r.id x.id (before_total r.id x.id h₂ k₂) in
    λ i. record { owner = owner i; library = library i; id = id i }

-- The union loses no row.
has-insert_root :
    (r : Root) (xs : List Root) (k : Key)
    → has k (map root_key (r ∷ xs)) ≡ true
    → has k (map root_key (insert_root r xs)) ≡ true
has-insert_root r [] k h = h
has-insert_root r (x ∷ xs) k h = elim (Bool-cases (root_before r x)) [
  | inl e ↦ rw e h
  | inr e ↦ elim (Bool-cases (root_before x r)) [
    | inl f ↦ rw (e, f) (ground (arith, h, has-insert_root r xs k))
    | inr f ↦
        let q = root_total r x e f in
        rw (e, f)
          (ground (
            arith,
            h,
            subst
                (λ z.
                  (same_key (root_key z) k || (same_key (root_key x) k || has k (map root_key xs)))
                  ≡ true)
                q h,
          ))
  ]
]

has-ordered_union :
    (rs : List Root) (k : Key)
    → has k (map root_key rs) ≡ true
    → has k (map root_key (ordered_union rs)) ≡ true
has-ordered_union [] k h = h
has-ordered_union (r ∷ rs) k h =
    has-insert_root r (ordered_union rs) k (ground (arith, h, has-ordered_union rs k))

has-published :
    (ps : List Published) (r : Root)
    → is_published r.owner r.library r.id ps ≡ true
    → has (root_key r) (map root_key (map root_of ps)) ≡ true
has-published [] r h = cc
has-published (p ∷ ps) r h = ground (arith, h, has-published ps r)

Reach-more :
    (v : Verifier) (disk : List Stored) (fewer more : List Root)
    → ((k : Key) → has k (map root_key fewer) ≡ true → has k (map root_key more) ≡ true)
    → (k : Key) → Reach v disk fewer k
    → Reach v disk more k
Reach-more v disk fewer more sub k (root h) = root (sub k h)
Reach-more v disk fewer more sub k (refer {k = j} r h) =
    refer (Reach-more v disk fewer more sub j r) h

abbrev pub candidate_root : Move → Root
candidate_root m = record { owner = m.owner; library = m.library; id = m.commit }

-- The commit of a committed move is a root of every later collection.
move-published :
    (m : Move) (roles : List Role) (failures : List (Option Error))
    (rs : List (Request × List (Option Error))) (t : Tables)
    → IsProven t
    → (serve (move m roles) failures t).1 ≡ true
    → has
        (root_key (candidate_root m))
        (map root_key (published_roots (serve_all rs (serve (move m roles) failures t).0)))
      ≡ true
move-published m roles failures rs t p done =
    let after = (serve (move m roles) failures t).0 in
    let (l, h) = move-IsMoved m roles failures t p done in
    let now =
      h.moving.published m.owner m.library m.commit (main_role m.commit)
        (h.moving.candidate refl) in
    let then_too =
      serve_all-published rs after m.owner m.library m.commit
        (serve-IsProven (move m roles) failures t p) now in
    let last = serve_all rs after in
    has-ordered_union (head_roots last.libraries ++ map root_of last.published)
      (root_key (candidate_root m))
      (subst (λ ks. has (root_key (candidate_root m)) ks ≡ true)
        (sym (map-append root_key (head_roots last.libraries) _))
        (ground (
          arith,
          has-append (root_key (candidate_root m)) (map root_key (head_roots last.libraries))
              (map root_key (map root_of last.published)),
          has-published last.published (candidate_root m) then_too,
        )))

-- On proven tables, after a committed move, the file of an object that the moved-to commit reaches
-- is left alone by every collection behind any later transactions, if the query of the roots
-- returns the ordered union of the heads and published commits of the tables then, and VerifyFile
-- accepts only files with valid block identities.
pub collect-published :
    (v : Verifier) (w : Surroundings) (o : Options) (disk : List Stored) (m : Move)
    (roles : List Role) (failures : List (Option Error)) (rs : List (Request × List (Option Error)))
    (t : Tables) (k : Key)
    → IsChecked v
    → IsProven t
    → (serve (move m roles) failures t).1 ≡ true
    → w.roots ≡ ok (published_roots (serve_all rs (serve (move m roles) failures t).0))
    → Reach v disk (candidate_root m ∷ []) k
    → find_file (object_path k) (collect v w o disk).1 ≡ find_file (object_path k) disk
collect-published v w o disk m roles failures rs t k checked p done queried reach =
    collect-keeps v w o disk _ k checked queried (
      Reach-more v disk (candidate_root m ∷ []) _
        (λ j h.
          subst
            (λ x.
              has x
                (map root_key (published_roots (serve_all rs (serve (move m roles) failures t).0)))
              ≡ true)
            (same_key→eq (root_key (candidate_root m)) j (ground (arith, h)))
            (move-published m roles failures rs t p done))
        k reach)
