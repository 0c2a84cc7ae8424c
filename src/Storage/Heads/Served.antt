-- ===== src/Storage/Heads/Served.antt =====
-- The transactions one after the other: what all of them keep.
use filecloud.Prelude.{◌≡◌, refl, sym, subst, Bool, true, false, Option, List, [], ◌∷◌, inl, inr}
use filecloud.Prelude.Outcome.{Error, Result, ok, err}
use filecloud.Storage.Heads.{
  Library, Role, Tables, Transaction, Move, NewLibrary, Request, create, move, committed, serve,
  serve_all, empty_tables,
}
use filecloud.Storage.Heads.Proven.{IsProven, empty_tables-IsProven}
use filecloud.Storage.Heads.Invariant.{
  IsMoved, IsCreated, Yields-move_head, Yields-create_library, IsMoved-IsProven,
  insert_library-IsProven,
}

-- What a request may do to the tables.
pub data Change (t : Tables) : Request → Tables → Bool → Type 0 where
  changed_nothing : {r : Request} → Change t r t false
  has_created :
      {n : NewLibrary} {after : Tables} → IsCreated n t after → Change t (create n) after true
  has_moved :
      {m : Move} {roles : List Role} {after : Tables} (l : Library)
      → IsMoved m t l after
      → Change t (move m roles) after true

committed-Change :
    {A : Type 0} (t : Tables) (r : Request) (o : Result (A × Transaction))
    → ((a : A) (after : Transaction) → o ≡ ok (a, after) → Change t r after.tables true)
    → Change t r (committed t o).0 (committed t o).1
committed-Change t r (ok (a, after)) k = k a after refl
committed-Change t r (err e) k = changed_nothing

pub serve-Change :
    (r : Request) (failures : List (Option Error)) (t : Tables)
    → IsProven t
    → Change t r (serve r failures t).0 (serve r failures t).1
unfolding serve
serve-Change (create n) failures t p = committed-Change t (create n) _ (λ a after e.
    has_created
      ((Yields-create_library n t).at (record { tables = t; failures = failures }) after a refl e))
serve-Change (move m roles) failures t p = committed-Change t (move m roles) _ (λ l after e.
    has_moved l (
      (Yields-move_head m t p roles).at (record { tables = t; failures = failures }) after l refl
        e))

Change-IsProven :
    (t : Tables) (r : Request) (after : Tables) (b : Bool)
    → IsProven t
    → Change t r after b
    → IsProven after
Change-IsProven t r after b p changed_nothing = p
Change-IsProven t (create n) after b p (has_created (inl e)) = subst IsProven (sym e) p
Change-IsProven t (create n) after b p (has_created (inr (fresh, e))) =
    subst IsProven (sym e) (insert_library-IsProven n t fresh p)
Change-IsProven t (move m roles) after b p (has_moved l h) = IsMoved-IsProven m t after l p h

pub serve-IsProven :
    (r : Request) (failures : List (Option Error)) (t : Tables)
    → IsProven t
    → IsProven (serve r failures t).0
serve-IsProven r failures t p = Change-IsProven t r _ _ p (serve-Change r failures t p)

pub serve_all-keeps-IsProven :
    (rs : List (Request × List (Option Error))) (t : Tables)
    → IsProven t
    → IsProven (serve_all rs t)
serve_all-keeps-IsProven [] t p = p
serve_all-keeps-IsProven ((r, failures) ∷ rs) t p =
    serve_all-keeps-IsProven rs _ (serve-IsProven r failures t p)

-- Any transactions on empty tables, of which each may fail at any statement, leave proven tables:
-- the keys of the libraries are unique, every role is that of a published commit and names a
-- mainline commit of its library, and every head is a mainline commit.
pub serve_all-IsProven :
    (rs : List (Request × List (Option Error))) → IsProven (serve_all rs empty_tables)
serve_all-IsProven rs = serve_all-keeps-IsProven rs empty_tables empty_tables-IsProven

-- What a committed move has done.
pub move-IsMoved :
    (m : Move) (roles : List Role) (failures : List (Option Error)) (t : Tables)
    → IsProven t
    → (serve (move m roles) failures t).1 ≡ true
    → (l : Library) × IsMoved m t l (serve (move m roles) failures t).0
move-IsMoved m roles failures t p = of_move _ _ (serve-Change (move m roles) failures t p)
  where
    of_move :
        (after : Tables) (b : Bool)
        → Change t (move m roles) after b
        → b ≡ true
        → (l : Library) × IsMoved m t l after
    of_move after b changed_nothing e = cc
    of_move after b (has_moved l h) e = (l, h)
