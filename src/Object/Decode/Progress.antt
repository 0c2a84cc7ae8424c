-- ===== src/Object/Decode/Progress.antt =====
-- The decoders end on every input: the loops' bounds in the model are always enough.
use filecloud.Prelude.{ℕ, suc, ◌≡◌, ◌≢◌, refl, Bool, true, false, arith, if◌then◌else◌, String}
use filecloud.Prelude.Bytes.{Bytes}
use filecloud.Prelude.Outcome.{Result, ok, err, failed, out_of_fuel, ◌>>=◌, ◌>>◌, require, Error}
use filecloud.Object.Decimal.{parse_decimal}
use filecloud.Object.Ids.{valid_id}
use filecloud.Object.Decimal.Laws.{parse_decimal-err}
use filecloud.Object.Stream.{
  delim, number, Stream, eof, broken, ◌▸◌, size, next, at_end, decode_container, decode_string,
  consume_value, consume_container,
}
use filecloud.Object.Stream.Progress.{
  WithinPair, Ends, Within-le, Pair-Within, Pair-pair, Pair-unit, Ends-pair, Ends-Within,
  Within-pair, require-Ends, at_end-Ends, next-WithinPair, decode_container-Within,
  decode_string-WithinPair, decode_int-WithinPair, consume_value-Within, refused,
  consume_container-Within,
}
use filecloud.Object.Decode.Loops.{
  decode_object-WithinPair, decode_array-WithinPair, fields_from-WithinPair, is_delim-Within,
}
use filecloud.Object.Values.{FileObject, DirectoryEntry, DirectoryObject, CommitObject}
use filecloud.Object.Decode.{
  is_delim, decode_array, alone, into, file_field, budget_field, check_file_budgets, decode_file,
  entry_field, decode_directory_entry, directory_field, decode_directory, tested,
  decode_commit_parent, decode_commit_parents, decode_commit_version, commit_field, decode_commit,
  max_file_size, max_blocks, max_entries, max_parents,
}

-- `WithinPair`, in a form that a tactic takes apart by its rules.
record Reads {ℓ} {A : Type ℓ} (n : ℕ) (r : Result (A × Stream)) : Type 0 where
  at : WithinPair n r

if-Reads {ℓ} :
    {V : Type ℓ} {n : ℕ} (b : Bool) (x y : Result (V × Stream))
    → Reads n x
    → Reads n y
    → Reads n (if b then x else y)
if-Reads true x y hx hy = hx
if-Reads false x y hx hy = hy

unknown-Reads {ℓ} : {V : Type ℓ} (n : ℕ) (what : String) → Reads {A = V} n (err (failed what))
unknown-Reads n what = record { at = λ h. cc }

-- A value that is read with fewer tokens left fits in the place of a field's value.
into-Reads {ℓ} :
    {V A : Type ℓ} (n : ℕ) (store : A → V) (r : Result (A × Stream))
    → WithinPair n r
    → Reads (suc n) (into store r)
into-Reads n store (ok (a, s)) w = record { at = omega arith }
into-Reads n store (err e) w = record { at = w }

tested-WithinPair :
    (n : ℕ) (test : Bytes → Bool) (what : String) (r : Result (Bytes × Stream))
    → WithinPair n r
    → WithinPair n (tested test what r)
tested-WithinPair n test what (ok (v, s)) w =
    Pair-unit n (require (test v) (failed what)) _ (require-Ends (test v) what) (λ _. w)
tested-WithinPair n test what (err e) w = w

blocks-WithinPair :
    (s : Stream)
    → WithinPair (size s) (decode_array max_blocks (decode_string 3 "block id") 2 "file blocks" s)
blocks-WithinPair s =
    decode_array-WithinPair max_blocks (decode_string 3 "block id")
      (decode_string-WithinPair 3 "block id") 2 "file blocks" s

ruleset readers = (
  if-Reads, unknown-Reads, into-Reads, decode_string-WithinPair, decode_int-WithinPair,
  blocks-WithinPair, tested-WithinPair,
)

file_field-Reads :
    (name : Bytes) (value : FileObject) (s : Stream)
    → Reads (suc (size s)) (file_field name value s)
unfolding file_field
file_field-Reads name value s = search readers depth 9

Ends-of {ℓ} : {A : Type ℓ} (r : Result A) → ((e : Error) → r ≡ err e → e ≢ out_of_fuel) → Ends r
Ends-of (ok a) h = tt
Ends-of (err e) h = h e refl

budget_size-Reads :
    (s : Stream)
    → Reads (suc (size s)) (
        decode_string 2 "file size" s >>= λ (digits, s₁).
        parse_decimal digits max_file_size >>= λ n. ok (tt {0}, s₁))
budget_size-Reads s = record {
  at =
      Pair-pair (size s) (suc (size s)) (decode_string 2 "file size" s) _
        (decode_string-WithinPair 2 "file size" s)
        (λ digits s₁ k.
          Pair-unit (suc (size s)) (parse_decimal digits max_file_size) _
            (Ends-of _ (parse_decimal-err digits max_file_size)) (λ n. omega arith));
}

budget_skip-Reads :
    (s : Stream) → Reads (suc (size s)) (consume_value 2 s >>= λ s₁. ok (tt {0}, s₁))
budget_skip-Reads s = record {
  at =
      Pair-Within (size s) (suc (size s)) (consume_value 2 s) _ (consume_value-Within 2 s)
        (λ r k. omega arith);
}

budget_field-Reads :
    (name : Bytes) (value : Unit {0}) (s : Stream)
    → Reads (suc (size s)) (budget_field name value s)
unfolding budget_field
budget_field-Reads name value s = search (readers, budget_size-Reads, budget_skip-Reads) depth 9

alone-Ends {ℓ} : {V : Type ℓ} (n : ℕ) (r : Result (V × Stream)) → WithinPair n r → Ends (alone r)
alone-Ends n (ok (v, s)) w = at_end_then s
  where
    at_end_then : (s : Stream) → Ends (at_end s >>= λ _. ok v)
    at_end_then eof = tt
    at_end_then (broken b) = λ h. cc
    at_end_then (t ▸ s) = λ h. cc
alone-Ends n (err e) w = w

check_file_budgets-Ends : (s : Stream) → Ends (check_file_budgets s)
unfolding check_file_budgets
check_file_budgets-Ends s =
    Ends-Within (size s) (decode_container b'{' 1 "file object" s) _
      (decode_container-Within b'{' 1 "file object" s)
      (λ s₁ k.
        Ends-pair (suc (size s₁)) _ _
          (fields_from-WithinPair budget_field (λ n v r. (budget_field-Reads n v r).at)
            (suc (size s₁)) _ s₁ (omega arith))
          (λ r s₂.
            Ends-Within (size s₂) (next s₂ >>= is_delim b'}' "invalid file object") _
              (Within-pair (size s₂) (size s₂) (next s₂) _ (next-WithinPair s₂) (λ t q m.
                Within-le (suc (size q)) (size s₂) _ (omega arith)
                  (is_delim-Within b'}' "invalid file object" t q)))
              (λ q m. at_end-Ends q)))

then-Ends {ℓ} :
    {A : Type ℓ} (r : Result (Unit {0})) (k : Result A) → Ends r → Ends k → Ends (r >> k)
then-Ends (ok tt) k hr hk = hk
then-Ends (err e) k hr hk = hr

decode_file-Ends : (s : Stream) → Ends (decode_file s)
unfolding decode_file
decode_file-Ends s = then-Ends (check_file_budgets s) _ (check_file_budgets-Ends s) (
    alone-Ends (size s) _ (
      decode_object-WithinPair file_field (λ n v r. (file_field-Reads n v r).at) 1 4 "file object" _
        s))

entry_field-Reads :
    (name : Bytes) (value : DirectoryEntry) (s : Stream)
    → Reads (suc (size s)) (entry_field name value s)
unfolding entry_field
entry_field-Reads name value s = search readers depth 9

entries-WithinPair :
    (s : Stream)
    → WithinPair (size s) (decode_array max_entries decode_directory_entry 2 "directory entries" s)
unfolding decode_directory_entry
entries-WithinPair s =
    decode_array-WithinPair max_entries decode_directory_entry
      (decode_object-WithinPair entry_field (λ n v r. (entry_field-Reads n v r).at) 3 4
        "directory entry" _)
      2 "directory entries" s

directory_field-Reads :
    (name : Bytes) (value : DirectoryObject) (s : Stream)
    → Reads (suc (size s)) (directory_field name value s)
unfolding directory_field
directory_field-Reads name value s = search (readers, entries-WithinPair) depth 9

decode_directory-Ends : (s : Stream) → Ends (decode_directory s)
unfolding decode_directory
decode_directory-Ends s = alone-Ends (size s) _ (
    decode_object-WithinPair directory_field (λ n v r. (directory_field-Reads n v r).at) 1 3
      "directory object" _ s)

parents-WithinPair : (s : Stream) → WithinPair (size s) (decode_commit_parents s)
unfolding decode_commit_parents decode_commit_parent
parents-WithinPair s =
    decode_array-WithinPair max_parents decode_commit_parent
      (λ r.
        tested-WithinPair (size r) valid_id "invalid parent id" _
          (decode_string-WithinPair 3 "commit Parents item" r))
      2 "commit Parents" s

version-WithinPair : (s : Stream) → WithinPair (size s) (decode_commit_version s)
unfolding decode_commit_version
version-WithinPair eof = λ h. cc
version-WithinPair (broken b) = λ h. cc
version-WithinPair (number v ▸ s) = ground arith
version-WithinPair (delim d ▸ s) =
    refused _ (suc (size s)) (consume_container d 2 s) "invalid commit version"
      (consume_container-Within d 2 s)
version-WithinPair (_ ▸ s) = λ h. cc

commit_field-Reads :
    (name : Bytes) (value : CommitObject) (s : Stream)
    → Reads (suc (size s)) (commit_field name value s)
unfolding commit_field
commit_field-Reads name value s = search (readers, parents-WithinPair, version-WithinPair) depth 14

decode_commit-Ends : (s : Stream) → Ends (decode_commit s)
unfolding decode_commit
decode_commit-Ends s = alone-Ends (size s) _ (
    decode_object-WithinPair commit_field (λ n v r. (commit_field-Reads n v r).at) 1 8
      "invalid commit object" _ s)

-- On every stream of tokens each decoder returns an object or an error of the program: the bounds
-- on the rounds of its loops, which stand in the model alone, are always enough.
pub decoders-Ends :
    (s : Stream) → Ends (decode_file s) × Ends (decode_directory s) × Ends (decode_commit s)
decoders-Ends s = (decode_file-Ends s, decode_directory-Ends s, decode_commit-Ends s)
