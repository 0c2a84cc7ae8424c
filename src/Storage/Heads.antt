-- ===== src/Storage/Heads.antt =====
-- The tables of libraries, of published commits and of their roles, as internal/storage/libraries.go and
-- published_roles.go keep them, with the transactions that create a library and that move its head.
pub mod Rows
pub mod Proven
pub mod Steps
pub mod Invariant
pub mod Served
pub mod Race
pub mod Kept
use filecloud.Prelude.{
  ℕ, zero, suc, ◌+◌, Bool, true, false, not, ◌&&◌, ◌||◌, Option, none, some, List, [], ◌∷◌, ◌++◌,
  map, if◌then◌else◌, ◌==◌,
}
use filecloud.Prelude.Bytes.{Bytes, codes, same}
use filecloud.Prelude.ByteOrder.{before}
use filecloud.Prelude.Sets.{ByteSet, member, add}
use filecloud.Prelude.Outcome.{Error, Result, ok, err, failed, head_conflict}
use filecloud.Prelude.Action.{Action, pure, fail, lift, gets, modify, guard, ◌>>=◌, ◌>>◌}
use filecloud.Storage.Collector.{Root}

-- Library, with its times as they are stored.
pub record Library : Type 0 where
  pub id : Bytes
  pub owner : Bytes
  pub name : Bytes
  pub head : Option Bytes
  pub version : ℕ
  pub created_at : Bytes
  pub updated_at : Bytes

-- PublishedCommitRole
pub record Role : Type 0 where
  pub commit : Bytes
  pub role : Bytes
  pub mainline : Bytes

-- A row of published_commits, and one of published_commit_roles.
pub record Published : Type 0 where
  pub owner : Bytes
  pub library : Bytes
  pub commit : Bytes

pub record RoleRow : Type 0 where
  pub owner : Bytes
  pub library : Bytes
  pub role : Role

pub record Tables : Type 0 where
  pub libraries : List Library
  pub published : List Published
  pub roles : List RoleRow

-- A transaction: the tables as it sees them, and what its next statements fail with.
pub record Transaction : Type 0 where
  pub tables : Tables
  pub failures : List (Option Error)

abbrev pub first_failure : List (Option Error) → Result (Unit {0})
first_failure [] = ok tt
first_failure (none ∷ rest) = ok tt
first_failure (some e ∷ rest) = err e

abbrev pub later_failures : List (Option Error) → List (Option Error)
later_failures [] = []
later_failures (f ∷ rest) = rest

-- A call of database/sql, which may fail whatever it asks for.
unfoldable pub statement : Action Transaction (Unit {0})
statement = gets (λ t. first_failure t.failures) >>= λ outcome.
    lift outcome >> modify (λ t. record t { failures = later_failures t.failures })

abbrev pub change_tables : (Tables → Tables) → Action Transaction (Unit {0})
change_tables f = statement >> modify (λ t. record t { tables = f t.tables })

abbrev pub mainline_role : Bytes
mainline_role = codes "mainline"

abbrev pub merge_source_role : Bytes
merge_source_role = codes "merge-source"

-- `(? IS NULL AND head_commit_id IS NULL) OR head_commit_id = ?`
abbrev pub same_head : Option Bytes → Option Bytes → Bool
same_head none none = true
same_head (some a) (some b) = same a b
same_head none (some b) = false
same_head (some a) none = false

abbrev pub is_library : Bytes → Bytes → Library → Bool
is_library owner id l = same l.owner owner && same l.id id

abbrev pub find_library : Bytes → Bytes → List Library → Option Library
find_library owner id [] = none
find_library owner id (l ∷ ls) = if is_library owner id l then some l else find_library owner id ls

-- What the UPDATE of a head asks for.
pub record Move : Type 0 where
  pub owner : Bytes
  pub library : Bytes
  pub expected_head : Option Bytes
  pub expected_version : ℕ
  pub commit : Bytes
  pub now : Bytes

abbrev pub is_expected : Move → Library → Bool
is_expected m l =
    is_library m.owner m.library l
    && (l.version == m.expected_version)
    && same_head m.expected_head l.head

abbrev pub moved : Move → Library → Library
moved m l = record l { head = some m.commit; version = suc l.version; updated_at = m.now }

-- The rows behind the UPDATE, and how many of them it has changed.
abbrev pub move_rows : Move → List Library → List Library × ℕ
move_rows m [] = ([], 0)
move_rows m (l ∷ ls) =
    let (rest, count) = move_rows m ls in
    if is_expected m l then (moved m l ∷ rest, suc count) else (l ∷ rest, count)

abbrev pub is_published : Bytes → Bytes → Bytes → List Published → Bool
is_published owner library commit [] = false
is_published owner library commit (p ∷ ps) =
    (same p.owner owner && same p.library library && same p.commit commit)
    || is_published owner library commit ps

abbrev pub find_role : Bytes → Bytes → Bytes → List RoleRow → Option Role
find_role owner library commit [] = none
find_role owner library commit (r ∷ rs) =
    if same r.owner owner && same r.library library && same r.role.commit commit
    then some r.role
    else find_role owner library commit rs

-- `INSERT OR IGNORE`, and `ON CONFLICT … DO NOTHING`.
abbrev pub publish : Move → Bytes → Tables → Tables
publish m commit t = if is_published m.owner m.library commit t.published then t else record t {
  published = record { owner = m.owner; library = m.library; commit = commit } ∷ t.published;
}

abbrev pub insert_role : Move → Role → Tables → Tables
insert_role m r t = elim (find_role m.owner m.library r.commit t.roles) [
  | some existing ↦ t
  | none ↦ record t { roles = record { owner = m.owner; library = m.library; role = r } ∷ t.roles }
]

abbrev pub same_role : Role → Role → Bool
same_role a b = same a.commit b.commit && same a.role b.role && same a.mainline b.mainline

abbrev pub invalid_role : Role → Bool
invalid_role r =
    same r.commit []
    || same r.mainline []
    || (not (same r.role mainline_role) && not (same r.role merge_source_role))

-- The role that a commit must have in a move: mainline for the candidate, merge source for the others.
abbrev pub fits_move : Move → Role → Bool
fits_move m r =
    (if same r.commit m.commit then same r.role mainline_role else same r.role merge_source_role)
    && same r.mainline m.commit

abbrev pub found_role : Option Role → Result Role
found_role none = err (failed "verify published commit role")
found_role (some r) = ok r

unfoldable pub record_role : Move → Role → Action Transaction (Unit {0})
record_role m r = do
  change_tables (publish m r.commit)
  change_tables (insert_role m r)
  statement
  existing ← gets (λ t. found_role (find_role m.owner m.library r.commit t.tables.roles))
  stored ← lift existing
  guard (same_role stored r) (failed "published commit role conflict")

-- The loop over the roles; it returns whether the candidate is among them.
unfoldable pub record_roles : Move → ByteSet → Bool → List Role → Action Transaction Bool
record_roles m seen found [] = pure found
record_roles m seen found (r ∷ roles) = do
  guard (not (invalid_role r)) (failed "invalid published commit role")
  guard (not (member r.commit seen)) (failed "duplicate published commit role")
  guard (fits_move m r) (failed "published commit role is invalid")
  record_role m r
  record_roles m (add r.commit seen) (found || same r.commit m.commit) roles

abbrev pub scan_library : Option Library → Result Library
scan_library none = err (failed "library not found")
scan_library (some l) = ok l

abbrev pub with_moved : Move → Tables → Tables
with_moved m t = record t { libraries = (move_rows m t.libraries).0 }

-- The UPDATE of the head, and the test of the rows that it has changed.
unfoldable pub update_row : Move → Action Transaction (Unit {0})
update_row m = do
  statement
  statement
  statement
  count ← gets (λ t. (move_rows m t.tables.libraries).1)
  modify (λ t. record t { tables = with_moved m t.tables })
  guard (count == 1) head_conflict

unfoldable pub read_row : Move → Action Transaction Library
read_row m = do
  statement
  row ← gets (λ t. scan_library (find_library m.owner m.library t.tables.libraries))
  library ← lift row
  statement
  pure library

unfoldable pub move_head : Move → List Role → Action Transaction Library
move_head m roles = do
  update_row m
  found ← record_roles m [] false roles
  guard found (failed "candidate published commit role is missing")
  read_row m

-- The columns of a new library; its name is the NFC form, which is its key too.
pub record NewLibrary : Type 0 where
  pub owner : Bytes
  pub id : Bytes
  pub name : Bytes
  pub now : Bytes

abbrev pub new_library : NewLibrary → Library
new_library n = record {
  id = n.id;
  owner = n.owner;
  name = n.name;
  head = none;
  version = 0;
  created_at = n.now;
  updated_at = n.now;
}

-- A primary key or a name of the owner that is taken, for which INSERT OR IGNORE does nothing.
abbrev pub is_taken : NewLibrary → List Library → Bool
is_taken n [] = false
is_taken n (l ∷ ls) =
    (same l.owner n.owner && (same l.id n.id || same l.name n.name)) || is_taken n ls

abbrev pub replayed : NewLibrary → Option Library → Result (Library × Bool)
replayed n none = err (failed "library already exists")
replayed n (some l) =
    if same l.name n.name then ok (l, false) else err (failed "library object conflict")

abbrev pub insert_library : NewLibrary → Tables → Tables
insert_library n t = record t { libraries = new_library n ∷ t.libraries }

-- Behind the INSERT: a new row, or the row that is there, if it is the same library.
unfoldable pub create_row : NewLibrary → Action Transaction (Library × Bool)
create_row n = do
  modify (λ t. record t { tables = insert_library n t.tables })
  statement
  pure (new_library n, true)

unfoldable pub replay_row : NewLibrary → Action Transaction (Library × Bool)
replay_row n = do
  statement
  row ← gets (λ t. replayed n (find_library n.owner n.id t.tables.libraries))
  found ← lift row
  statement
  pure found

-- The library, and whether it is new.
unfoldable pub create_library : NewLibrary → Action Transaction (Library × Bool)
create_library n = do
  statement
  statement
  statement
  taken ← gets (λ t. is_taken n t.tables.libraries)
  if taken then replay_row n else create_row n

-- The roles with which UpdateLibraryHead calls UpdateLibraryHeadWithRoles.
abbrev pub introduced_roles : Bytes → List Bytes → List Role
introduced_roles commit [] = []
introduced_roles commit (id ∷ ids) =
    if same id commit
    then introduced_roles commit ids
    else record { commit = id; role = merge_source_role; mainline = commit }
      ∷ introduced_roles commit ids

abbrev pub main_role : Bytes → Role
main_role commit = record { commit = commit; role = mainline_role; mainline = commit }

unfoldable pub update_library_head : Move → List Bytes → Action Transaction Library
update_library_head m introduced =
    move_head m (main_role m.commit ∷ introduced_roles m.commit introduced)

-- A call from outside, with what its statements fail with. A transaction that ends in an error is rolled
-- back; the outcome tells whether it was committed.
pub data Request : Type 0 where
  create : NewLibrary → Request
  move : Move → List Role → Request

abbrev pub committed : {A : Type 0} → Tables → Result (A × Transaction) → Tables × Bool
committed t (ok (a, after)) = (after.tables, true)
committed t (err e) = (t, false)

unfoldable pub serve : Request → List (Option Error) → Tables → Tables × Bool
serve (create n) failures t =
    committed t (create_library n (record { tables = t; failures = failures }))
serve (move m roles) failures t =
    committed t (move_head m roles (record { tables = t; failures = failures }))

-- Transactions run one after the other: SQLite has one writer.
abbrev pub serve_all : List (Request × List (Option Error)) → Tables → Tables
serve_all [] t = t
serve_all ((r, failures) ∷ rest) t = serve_all rest (serve r failures t).0

abbrev pub empty_tables : Tables
empty_tables = record { libraries = []; published = []; roles = [] }

-- The two halves of the query of publishedRoots in gc.go.
abbrev pub head_roots : List Library → List Root
head_roots [] = []
head_roots (l ∷ ls) = elim l.head [
  | none ↦ head_roots ls
  | some commit ↦ record { owner = l.owner; library = l.id; id = commit } ∷ head_roots ls
]

abbrev pub root_of : Published → Root
root_of p = record { owner = p.owner; library = p.library; id = p.commit }

-- `ORDER BY 1, 2, 3`, of which SQLite compares the bytes.
abbrev pub root_before : Root → Root → Bool
root_before a b =
    before a.owner b.owner
    || (same a.owner b.owner
        && (before a.library b.library || (same a.library b.library && before a.id b.id)))

-- A row of the UNION, which is dropped where it is there already.
abbrev pub insert_root : Root → List Root → List Root
insert_root r [] = r ∷ []
insert_root r (x ∷ xs) =
    if root_before r x then r ∷ x ∷ xs else if root_before x r then x ∷ insert_root r xs else x ∷ xs

abbrev pub ordered_union : List Root → List Root
ordered_union [] = []
ordered_union (r ∷ rs) = insert_root r (ordered_union rs)

abbrev pub published_roots : Tables → List Root
published_roots t = ordered_union (head_roots t.libraries ++ map root_of t.published)
