-- ===== src/Storage/Heads/Race.antt =====
-- The compare-and-swap of a head: a version is taken once.
use filecloud.Prelude.{
  ℕ, suc, ◌≤◌, ◌≡◌, refl, sym, ap, ◌∙◌, subst, Bool, true, false, ◌&&◌, Option, none, some, List,
  [], ◌∷◌, arith, ◌==◌, ==_iff, Bool-cases, inl, inr, &&-true,
}
use filecloud.Prelude.Bytes.{Bytes, same, same→eq, same_refl}
use filecloud.Prelude.Outcome.{Error}
use filecloud.Storage.Heads.{
  Library, Role, Tables, Move, NewLibrary, new_library, insert_library, is_library, same_head,
  is_expected, find_library, moved, is_taken, Request, create, move, serve, serve_all,
}
use filecloud.Storage.Heads.Rows.{
  shifted, shift_found, find_library-move_rows, move_rows-one, is_taken-find, find_library-is,
}
use filecloud.Storage.Heads.Proven.{IsProven}
use filecloud.Storage.Heads.Invariant.{IsMoved}
use filecloud.Storage.Heads.Served.{
  Change, changed_nothing, has_created, has_moved, serve-Change, serve-IsProven,
  serve_all-keeps-IsProven, move-IsMoved,
}

-- The version of a library's head; 0 before the library is there.
abbrev pub version_of : Option Library → ℕ
version_of none = 0
version_of (some l) = l.version

shift_found-grows : (m : Move) (o : Option Library) → version_of o ≤ version_of (shift_found m o)
shift_found-grows m none = omega arith
shift_found-grows m (some l) = elim (Bool-cases (is_expected m l)) [
  | inl e ↦ rw e (omega arith)
  | inr e ↦ rw e (omega arith)
]

insert-grows :
    (n : NewLibrary) (t : Tables) (owner id : Bytes)
    → is_taken n t.libraries ≡ false
    → version_of (find_library owner id t.libraries)
      ≤ version_of (find_library owner id (insert_library n t).libraries)
insert-grows n t owner id fresh = elim (Bool-cases (is_library owner id (new_library n))) [
  | inr e ↦ rw e (omega arith)
  | inl e ↦
      let (e₁, e₂) = &&-true (same n.owner owner) (same n.id id) e in
      let none_before : find_library owner id t.libraries ≡ none =
        subst (λ o. find_library o id t.libraries ≡ none) (same→eq n.owner owner e₁)
          (subst (λ i. find_library n.owner i t.libraries ≡ none) (same→eq n.id id e₂)
            (is_taken-find n t.libraries fresh)) in
      rw none_before (omega arith)
]

Change-grows :
    (t : Tables) (r : Request) (after : Tables) (b : Bool) (owner id : Bytes)
    → Change t r after b
    → version_of (find_library owner id t.libraries)
      ≤ version_of (find_library owner id after.libraries)
Change-grows t r after b owner id changed_nothing = omega arith
Change-grows t (create n) after b owner id (has_created (inl e)) =
    subst
      (λ x.
        version_of (find_library owner id t.libraries)
        ≤ version_of (find_library owner id x.libraries))
      (sym e) (omega arith)
Change-grows t (create n) after b owner id (has_created (inr (fresh, e))) =
    subst
      (λ x.
        version_of (find_library owner id t.libraries)
        ≤ version_of (find_library owner id x.libraries))
      (sym e) (insert-grows n t owner id fresh)
Change-grows t (move m roles) after b owner id (has_moved l h) =
    subst
      (λ ls. version_of (find_library owner id t.libraries) ≤ version_of (find_library owner id ls))
      (sym h.moving.libraries)
      (subst (λ o. version_of (find_library owner id t.libraries) ≤ version_of o)
        (sym (find_library-move_rows m t.libraries owner id))
        (shift_found-grows m (find_library owner id t.libraries)))

serve_all-grows :
    (rs : List (Request × List (Option Error))) (t : Tables) (owner id : Bytes)
    → IsProven t
    → version_of (find_library owner id t.libraries)
      ≤ version_of (find_library owner id (serve_all rs t).libraries)
serve_all-grows [] t owner id p = omega arith
serve_all-grows ((r, failures) ∷ rs) t owner id p = omega (
  arith,
  Change-grows t r _ _ owner id (serve-Change r failures t p),
  serve_all-grows rs (serve r failures t).0 owner id (serve-IsProven r failures t p),
)

-- The row of a library, before and behind a move from one head and version to a commit.
pub record IsSwap (owner library : Bytes) (head : Option Bytes) (version : ℕ) (commit now : Bytes)
    (before after : Tables) : Type 0 where
  pub old : Library
  pub new : Library
  pub found : find_library owner library before.libraries ≡ some old
  pub old_version : old.version ≡ version
  pub old_head : old.head ≡ head
  pub swapped : find_library owner library after.libraries ≡ some new
  pub new_version : new.version ≡ suc version
  pub new_head : new.head ≡ some commit
  pub new_time : new.updated_at ≡ now
  pub kept :
      (new.id ≡ old.id)
      × (new.owner ≡ old.owner)
      × (new.name ≡ old.name)
      × (new.created_at ≡ old.created_at)
  pub others :
      (o i : Bytes)
      → (same owner o && same library i) ≡ false
      → find_library o i after.libraries ≡ find_library o i before.libraries

same_head→eq : (a b : Option Bytes) → same_head a b ≡ true → b ≡ a
same_head→eq none none h = refl
same_head→eq (some a) (some b) h = ap some (sym (same→eq a b h))
same_head→eq none (some b) h = cc
same_head→eq (some a) none h = cc

abbrev pub MoveSwap : Move → Tables → Tables → Type 0
MoveSwap m before after =
    IsSwap m.owner m.library m.expected_head m.expected_version m.commit m.now before after

IsMoved-IsSwap :
    (m : Move) (t after : Tables) (l : Library)
    → IsProven t
    → IsMoved m t l after
    → MoveSwap m t after
IsMoved-IsSwap m t after l p h =
    let (old, found, expected) = move_rows-one m t.libraries p.unique h.one in
    let (e₁, e₂) = &&-true _ (same_head m.expected_head old.head) expected in
    let (_, e₃) =
      &&-true (is_library m.owner m.library old) (old.version == m.expected_version) e₁ in
    record {
      old = old;
      new = moved m old;
      new_version = ap (λ n. suc n) ((==_iff old.version m.expected_version).0 e₃);
      new_head = refl;
      new_time = refl;
      kept = (refl, refl, refl, refl);
      found = found;
      old_version = (==_iff old.version m.expected_version).0 e₃;
      old_head = same_head→eq m.expected_head old.head e₂;
      swapped =
          behind m.owner m.library
          ∙ ap (shift_found m) found
          ∙ ap some (shifted-expected old expected);
      others = λ o i other. behind o i ∙ unmoved o i other (find_library o i t.libraries) refl;
    }
  where
    behind :
        (o i : Bytes)
        → find_library o i after.libraries ≡ shift_found m (find_library o i t.libraries)
    behind o i = ap (find_library o i) h.moving.libraries ∙ find_library-move_rows m t.libraries o i

    shifted-expected : (x : Library) → is_expected m x ≡ true → shifted m x ≡ moved m x
    shifted-expected x e = rw e refl

    unmoved :
        (o i : Bytes)
        → (same m.owner o && same m.library i) ≡ false
        → (f : Option Library) → find_library o i t.libraries ≡ f
        → shift_found m f ≡ f
    unmoved o i other none e = refl
    unmoved o i other (some x) e = elim (Bool-cases (is_expected m x)) [
      | inr k ↦ rw k refl
      | inl k ↦
          let (k₁, _) = &&-true _ (same_head m.expected_head x.head) k in
          let (k₂, _) = &&-true (is_library m.owner m.library x) _ k₁ in
          let (k₃, k₄) = &&-true (same x.owner m.owner) (same x.id m.library) k₂ in
          let (a, b) = find_library-is o i t.libraries x e in
          absurd (
            clash o i other (sym (same→eq x.owner m.owner k₃) ∙ a)
              (sym (same→eq x.id m.library k₄) ∙ b))
    ]
      where
        clash :
            (o i : Bytes)
            → (same m.owner o && same m.library i) ≡ false
            → m.owner ≡ o
            → m.library ≡ i
            → ⊥
        clash o i other a b = ground (
          arith,
          other,
          subst (λ z. same m.owner z ≡ true) a (same_refl m.owner),
          subst (λ z. same m.library z ≡ true) b (same_refl m.library),
        )

-- On proven tables a committed move has met the version and the head that it expects; the library's
-- row behind it has the commit as its head, the next version and the move's time, and is as before
-- in its identity, owner, name and creation; the rows of all other libraries are as they were.
pub move-IsSwap :
    (m : Move) (roles : List Role) (failures : List (Option Error)) (t : Tables)
    → IsProven t
    → (serve (move m roles) failures t).1 ≡ true
    → MoveSwap m t (serve (move m roles) failures t).0
move-IsSwap m roles failures t p done =
    let (l, h) = move-IsMoved m roles failures t p done in IsMoved-IsSwap m t _ l p h

-- On proven tables, after a committed move, no later move of the same library that expects the same
-- version is committed, whatever transactions lie between the two.
pub move-once :
    (m n : Move) (roles later_roles : List Role) (failures later_failures : List (Option Error))
    (rs : List (Request × List (Option Error))) (t : Tables)
    → IsProven t
    → (serve (move m roles) failures t).1 ≡ true
    → n.owner ≡ m.owner
    → n.library ≡ m.library
    → n.expected_version ≡ m.expected_version
    → (serve
        (move n later_roles)
        later_failures
        (serve_all rs (serve (move m roles) failures t).0)).1
      ≡ false
move-once m n roles later_roles failures later_failures rs t p done e₁ e₂ e₃ =
    let after = (serve (move m roles) failures t).0 in
    let last = serve_all rs after in
    let p_after = serve-IsProven (move m roles) failures t p in
    elim (Bool-cases (serve (move n later_roles) later_failures last).1) [
      | inr e ↦ e
      | inl e ↦
          let s = move-IsSwap m roles failures t p done in
          let s' =
            move-IsSwap n later_roles later_failures last
              (serve_all-keeps-IsProven rs after p_after) e in
          let grows = serve_all-grows rs after m.owner m.library p_after in
          let found : find_library m.owner m.library last.libraries ≡ some s'.old =
            subst (λ o. find_library o m.library last.libraries ≡ some s'.old) e₁
              (subst (λ i. find_library n.owner i last.libraries ≡ some s'.old) e₂ s'.found) in
          let first : version_of (find_library m.owner m.library after.libraries)
              ≡ suc m.expected_version =
            ap version_of s.swapped ∙ s.new_version in
          let second : version_of (find_library m.owner m.library last.libraries) ≡ s'.old.version =
            ap version_of found in
          absurd (omega (arith, grows, first, second, s'.old_version, e₃))
    ]
