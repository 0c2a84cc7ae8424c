-- ===== src/Object/Canonical/Order.antt =====
-- The entries of a canonical directory object are in strict order, and their folded names differ.
use filecloud.Prelude.{
  ◌≡◌, refl, Bool, true, false, not, Option, none, some, List, [], ◌∷◌, arith, if◌then◌else◌, All,
}
use filecloud.Prelude.Bytes.{Bytes, codes, same}
use filecloud.Prelude.ByteOrder.{before, before_trans}
use filecloud.Prelude.Sets.{ByteSet, member, add, member-add}
use filecloud.Prelude.Outcome.{Result, ok, err, failed, >>=-eq-ok, require-ok}
use filecloud.Object.Text.{Unicode}
use filecloud.Object.Stream.{Stream}
use filecloud.Object.Values.{DirectoryEntry, DirectoryObject}
use filecloud.Object.Decode.{decode_directory}
use filecloud.Object.Encode.{append_directory}
use filecloud.Object.Canonical.{
  valid_entry, check_entries, checked_directory, canonical_directory, wrong_header, comes_later,
}

header_parts :
    (wrong : Bool) (r : Result Bytes) (content : Bytes)
    → (if wrong then err (failed "invalid directory object") else r) ≡ ok content
    → r ≡ ok content
header_parts wrong r content h = ground arith

module _ (u : Unicode) where
  -- Each entry is valid, its name comes before the later names, and no later name folds to the same.
  abbrev pub IsSorted : List DirectoryEntry → Type 0
  IsSorted [] = Unit
  IsSorted (e ∷ rest) =
      (valid_entry u e ≡ true)
      × All (λ d. (before e.name d.name ≡ true) × (same (u.fold e.name) (u.fold d.name) ≡ false))
          rest
      × IsSorted rest

  -- What the loop knows of the names so far, of the entries that it still accepts.
  record Accepted (previous : Option Bytes) (seen : ByteSet) (entries : List DirectoryEntry)
      : Type 0 where
    sorted : IsSorted entries
    behind : (p : Bytes) → previous ≡ some p → All (λ d. before p d.name ≡ true) entries
    unseen : All (λ d. member (u.fold d.name) seen ≡ false) entries

  behind_head :
      (p : Bytes) (e : DirectoryEntry) (rest : List DirectoryEntry)
      → before p e.name ≡ true
      → All (λ d. before e.name d.name ≡ true) rest
      → All (λ d. before p d.name ≡ true) rest
  behind_head p e [] h k = tt
  behind_head p e (d ∷ rest) h (hd, k) =
      (before_trans p e.name d.name h hd, behind_head p e rest h k)

  both :
      (e : DirectoryEntry) (seen : ByteSet) (rest : List DirectoryEntry)
      → All (λ d. before e.name d.name ≡ true) rest
      → All (λ d. member (u.fold d.name) (add (u.fold e.name) seen) ≡ false) rest
      → All
          (λ d. (before e.name d.name ≡ true) × (same (u.fold e.name) (u.fold d.name) ≡ false))
          rest
        × All (λ d. member (u.fold d.name) seen ≡ false) rest
  both e seen [] h k = (tt, tt)
  both e seen (d ∷ rest) (hd, h) (kd, k) =
      let (a, b) = both e seen rest h k in
      let m = member-add (u.fold e.name) (u.fold d.name) seen in
      (((hd, ground arith), a), (ground arith, b))

  Accepted-cons :
      (previous : Option Bytes) (seen : ByteSet) (e : DirectoryEntry) (rest : List DirectoryEntry)
      → valid_entry u e ≡ true
      → comes_later previous e.name ≡ true
      → not (member (u.fold e.name) seen) ≡ true
      → Accepted (some e.name) (add (u.fold e.name) seen) rest
      → Accepted previous seen (e ∷ rest)
  Accepted-cons previous seen e rest valid later fresh a =
      let behind = a.behind e.name refl in
      let (apart, unseen) = both e seen rest behind a.unseen in
      record {
        sorted = (valid, apart, a.sorted);
        behind = λ p q.
            let before_e : before p e.name ≡ true = cc (later, q) in
            (before_e, behind_head p e rest before_e behind);
        unseen = (ground arith, unseen);
      }

  accepted :
      (previous : Option Bytes) (seen : ByteSet) (entries : List DirectoryEntry)
      → check_entries u previous seen entries ≡ ok tt
      → Accepted previous seen entries
  unfolding check_entries
  accepted previous seen [] h = record { sorted = tt; behind = λ p e. tt; unseen = tt }
  accepted previous seen (e ∷ rest) h =
      let (valid, h₁) = require-ok (valid_entry u e) _ _ h in
      let (later, h₂) = require-ok (comes_later previous e.name) _ _ h₁ in
      let (fresh, h₃) = require-ok (not (member (u.fold e.name) seen)) _ _ h₂ in
      Accepted-cons previous seen e rest valid later fresh
        (accepted (some e.name) (add (u.fold e.name) seen) rest h₃)

  checked_directory_parts :
      (value : DirectoryObject) (o : Option (List DirectoryEntry)) (content : Bytes)
      → checked_directory u value o ≡ ok content
      → (entries : List DirectoryEntry) × (o ≡ some entries)
        × IsSorted entries
        × (content ≡ append_directory value)
  checked_directory_parts value none content h = cc
  checked_directory_parts value (some entries) content h =
      let (done, passes, encoded) =
        >>=-eq-ok (check_entries u none [] entries) _
          (header_parts (wrong_header value.kind (codes "Directory") value.version) _ content h) in
      (entries, refl, (accepted none [] entries passes).sorted, cc)

  -- Whatever canonicalDirectory returns is the encoding of the decoded object; its entries are
  -- valid, in strict order of their names, and their folded names differ.
  pub canonical_directory-IsSorted :
      (s : Stream) (content : Bytes)
      → canonical_directory u s ≡ ok content
      → (value : DirectoryObject) × (entries : List DirectoryEntry) × (decode_directory s
          ≡ ok value)
        × (value.entries ≡ some entries)
        × IsSorted entries
        × (content ≡ append_directory value)
  unfolding canonical_directory
  canonical_directory-IsSorted s content h =
      let (value, decoded, checked) = >>=-eq-ok (decode_directory s) _ h in
      let (entries, has, sorted, encoded) =
        checked_directory_parts value value.entries content checked in
      (value, entries, decoded, has, sorted, encoded)
