-- ===== src/Restore/Lookup/Verified.antt =====
-- The search of the planner in a directory that VerifyDirectory has accepted.
use filecloud.Prelude.{◌≡◌, true, false, List, [], ◌∷◌, All}
use filecloud.Prelude.Bytes.{Bytes, same}
use filecloud.Prelude.ByteOrder.{before}
use filecloud.Prelude.Outcome.{ok}
use filecloud.Object.Text.{Unicode}
use filecloud.Object.Stream.{Stream}
use filecloud.Object.Values.{Directory, DirectoryEntry}
use filecloud.Object.Canonical.{verify_directory}
use filecloud.Object.Canonical.Order.{IsSorted}
use filecloud.Object.Canonical.Verified.{verify_directory-IsVerifiedDirectory}
use filecloud.Restore.Lookup.{restore_directory_entry}
use filecloud.Restore.Lookup.Laws.{IsOrdered, find, restore_directory_entry-find}

module _ (u : Unicode) where
  later_names :
      (e : DirectoryEntry) (rest : List DirectoryEntry)
      → All
          (λ d. (before e.name d.name ≡ true) × (same (u.fold e.name) (u.fold d.name) ≡ false))
          rest
      → All (λ d. before e.name d.name ≡ true) rest
  later_names e [] h = tt
  later_names e (d ∷ rest) ((first, fresh), others) = (first, later_names e rest others)

  IsSorted-IsOrdered : (entries : List DirectoryEntry) → IsSorted u entries → IsOrdered entries
  IsSorted-IsOrdered [] h = tt
  IsSorted-IsOrdered (e ∷ rest) (valid, others, sorted) =
      (later_names e rest others, IsSorted-IsOrdered rest sorted)

-- In a directory that VerifyDirectory accepts, the binary search returns the entry that a look at
-- each of them finds, and nothing where there is none.
pub restore_directory_entry-verify_directory :
    (u : Unicode) (sha256 : Bytes → Bytes) (tokens : Bytes → Stream) (content expected name : Bytes)
    (d : Directory)
    → verify_directory u sha256 tokens content expected ≡ ok d
    → restore_directory_entry d.entries name ≡ find d.entries name
restore_directory_entry-verify_directory u sha256 tokens content expected name d h =
    restore_directory_entry-find d.entries name (
      IsSorted-IsOrdered u d.entries
        (verify_directory-IsVerifiedDirectory u sha256 tokens content expected d h).sorted)
