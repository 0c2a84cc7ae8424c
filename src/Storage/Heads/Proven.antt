-- ===== src/Storage/Heads/Proven.antt =====
-- What the tables keep: published commits have proven roles, and every head is a mainline commit.
use filecloud.Prelude.{◌≡◌, ◌⊎◌, Bool, true, some}
use filecloud.Prelude.Bytes.{Bytes}
use filecloud.Storage.Heads.{
  Library, Role, Tables, Move, find_library, is_published, find_role, main_role, empty_tables,
}
use filecloud.Storage.Heads.Rows.{IsUnique}

-- The role of a published commit names a commit of the library's mainline, and a head is one.
pub record IsProven (t : Tables) : Type 0 where
  pub unique : IsUnique t.libraries
  pub published :
      (owner library commit : Bytes) (r : Role)
      → find_role owner library commit t.roles ≡ some r
      → is_published owner library commit t.published ≡ true
  pub mainline :
      (owner library commit : Bytes) (r : Role)
      → find_role owner library commit t.roles ≡ some r
      → find_role owner library r.mainline t.roles ≡ some (main_role r.mainline)
  pub head :
      (owner library : Bytes) (l : Library) (commit : Bytes)
      → find_library owner library t.libraries ≡ some l
      → l.head ≡ some commit
      → find_role owner library commit t.roles ≡ some (main_role commit)

-- What the loop of a move knows: new roles may wait for the one of the candidate.
pub record IsMoving (m : Move) (before : Tables) (seen : Bool) (t : Tables) : Type 0 where
  pub libraries : t.libraries ≡ before.libraries
  pub keeps :
      (owner library commit : Bytes) (r : Role)
      → find_role owner library commit before.roles ≡ some r
      → find_role owner library commit t.roles ≡ some r
  pub keeps_published :
      (owner library commit : Bytes)
      → is_published owner library commit before.published ≡ true
      → is_published owner library commit t.published ≡ true
  pub published :
      (owner library commit : Bytes) (r : Role)
      → find_role owner library commit t.roles ≡ some r
      → is_published owner library commit t.published ≡ true
  pub mainline :
      (owner library commit : Bytes) (r : Role)
      → find_role owner library commit t.roles ≡ some r
      → (find_role owner library r.mainline t.roles ≡ some (main_role r.mainline))
        ⊎ ((owner ≡ m.owner) × (library ≡ m.library) × (r.mainline ≡ m.commit))
  pub candidate :
      seen ≡ true → find_role m.owner m.library m.commit t.roles ≡ some (main_role m.commit)

pub empty_tables-IsProven : IsProven empty_tables
empty_tables-IsProven = record {
  unique = tt;
  published = λ o l c r h. cc;
  mainline = λ o l c r h. cc;
  head = λ o i l c h k. cc;
}
