-- ===== src/Restore/Lookup/Laws.antt =====
-- On sorted entries the binary search finds what a look at every entry finds.
use filecloud.Prelude.{
  ℕ, zero, suc, ◌+◌, ◌/◌, ◌≤◌, ◌<◌, ◌≡◌, refl, true, false, not, Option, none, some, List, [], ◌∷◌,
  arith, ltb, if◌then◌else◌, length, get_elem?, All, Bool-cases, inl, inr,
}
use filecloud.Prelude.Bytes.{Bytes, same, same_iff}
use filecloud.Prelude.ByteOrder.{before, before-same, before_total, before_trans}
use filecloud.Object.Values.{DirectoryEntry}
use filecloud.Restore.Lookup.{reached, search, entry_at, restore_directory_entry}

-- The entry of that name, by a look at each.
abbrev pub find : List DirectoryEntry → Bytes → Option DirectoryEntry
find [] name = none
find (e ∷ rest) name = if same e.name name then some e else find rest name

-- The names come in strict order, which canonicalDirectory ensures.
abbrev pub IsOrdered : List DirectoryEntry → Type 0
IsOrdered [] = Unit
IsOrdered (e ∷ rest) = All (λ d. before e.name d.name ≡ true) rest × IsOrdered rest

-- How many entries come before a name.
abbrev rank : List DirectoryEntry → Bytes → ℕ
rank [] name = 0
rank (e ∷ rest) name = if before e.name name then suc (rank rest name) else 0

abbrev Above : Bytes → List DirectoryEntry → Type 0
Above e = All (λ d. before e d.name ≡ true)

later_reached :
    (e name : Bytes) (rest : List DirectoryEntry) (i : ℕ)
    → Above e rest
    → before e name ≡ false
    → reached name (get_elem? rest i) ≡ true
later_reached e name [] i above h = refl
later_reached e name (d ∷ rest) zero (hd, above) h = ground (arith, before_trans e d.name name hd)
later_reached e name (d ∷ rest) (suc i) (hd, above) h = later_reached e name rest i above h

later_missing :
    (e name : Bytes) (rest : List DirectoryEntry)
    → Above e rest
    → before name e ≡ true
    → find rest name ≡ none
later_missing e name [] above h = refl
later_missing e name (d ∷ rest) (hd, above) h = ground (
  arith,
  same_iff d.name name,
  before-same name d.name (before_trans name e d.name h hd),
  same_iff name d.name,
  later_missing e name rest above h,
)

-- The test of the search turns from false to true at the rank.
reached-rank :
    (entries : List DirectoryEntry) (name : Bytes) (i : ℕ)
    → IsOrdered entries
    → i < length entries
    → reached name (get_elem? entries i) ≡ not (ltb i (rank entries name))
reached-rank [] name i o h = absurd (omega arith)
reached-rank (e ∷ rest) name zero o h = ground arith
reached-rank (e ∷ rest) name (suc i) (above, o) h = elim (Bool-cases (before e.name name)) [
  | inl first ↦ rw first (ground (arith, reached-rank rest name i o))
  | inr behind ↦ rw behind (ground (arith, later_reached e.name name rest i above behind))
]

rank-le : (entries : List DirectoryEntry) (name : Bytes) → rank entries name ≤ length entries
rank-le [] name = omega arith
rank-le (e ∷ rest) name = ground (arith, rank-le rest name)

search-rank :
    (fuel : ℕ) (entries : List DirectoryEntry) (name : Bytes) (i j : ℕ)
    → IsOrdered entries
    → j ≤ length entries
    → i ≤ rank entries name
    → rank entries name ≤ j
    → j ≤ i + fuel
    → search fuel entries name i j ≡ rank entries name
unfolding search
search-rank zero entries name i j o hj lo hi f = omega arith
search-rank (suc fuel) entries name i j o hj lo hi f = ground (
  arith,
  reached-rank entries name ((i + j) / 2) o,
  search-rank fuel entries name i ((i + j) / 2) o,
  search-rank fuel entries name ((i + j) / 2 + 1) j o,
)

-- The entry at the rank is the only one that can have the name.
find-rank :
    (entries : List DirectoryEntry) (name : Bytes)
    → IsOrdered entries
    → entry_at name (get_elem? entries (rank entries name)) ≡ find entries name
find-rank [] name o = refl
find-rank (e ∷ rest) name (above, o) = elim (Bool-cases (before e.name name)) [
  | inl first ↦ rw (first, before-same e.name name first) (find-rank rest name o)
  | inr behind ↦ rw behind (
      ground (
        arith,
        before_total e.name name behind,
        Bool-cases (before name e.name),
        later_missing e.name name rest above,
      ))
]

-- On entries in strict order of their names the binary search returns the entry that a look at each
-- of them finds, and nothing where there is none.
pub restore_directory_entry-find :
    (entries : List DirectoryEntry) (name : Bytes)
    → IsOrdered entries
    → restore_directory_entry entries name ≡ find entries name
unfolding restore_directory_entry
restore_directory_entry-find entries name o =
    rw
      (search-rank (length entries) entries name 0 (length entries) o (omega arith) (omega arith)
        (rank-le entries name) (omega arith))
      (find-rank entries name o)
