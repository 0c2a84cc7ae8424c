-- ===== src/Restore/Lookup.antt =====
-- restoreDirectoryEntry: the binary search of sort.Search in the sorted entries of a directory.
pub mod Laws
pub mod Verified
use filecloud.Prelude.{
  ℕ, zero, suc, ◌+◌, ◌-◌, ◌/◌, Bool, true, false, not, Option, none, some, List, [], ◌∷◌, ltb,
  if◌then◌else◌, length, get_elem?,
}
use filecloud.Prelude.Bytes.{Bytes, same}
use filecloud.Prelude.ByteOrder.{before}
use filecloud.Object.Values.{DirectoryEntry}

-- `directory.Entries[index].Name >= name`; the search asks only for indices in range.
abbrev pub reached : Bytes → Option DirectoryEntry → Bool
reached name none = true
reached name (some e) = not (before e.name name)

-- The loop of sort.Search between `i` and `j`. It halves the gap, so that a bound of the gap itself is
-- enough rounds.
search : ℕ → List DirectoryEntry → Bytes → ℕ → ℕ → ℕ
search zero entries name i j = i
search (suc fuel) entries name i j =
    let h = (i + j) / 2 in
    elim (ltb i j) [
      | false ↦ i
      | true ↦ elim (reached name (get_elem? entries h)) [
        | true ↦ search fuel entries name i h
        | false ↦ search fuel entries name (h + 1) j
      ]
    ]

abbrev entry_at : Bytes → Option DirectoryEntry → Option DirectoryEntry
entry_at name none = none
entry_at name (some e) = if same e.name name then some e else none

unfoldable pub restore_directory_entry : List DirectoryEntry → Bytes → Option DirectoryEntry
unfolding search
restore_directory_entry entries name =
    entry_at name (get_elem? entries (search (length entries) entries name 0 (length entries)))
