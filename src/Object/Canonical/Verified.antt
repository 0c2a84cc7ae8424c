-- ===== src/Object/Canonical/Verified.antt =====
-- What VerifyFile and VerifyDirectory of internal/object/verified.go promise of a stored object.
use filecloud.Prelude.{
  ℕ, ◌+◌, ◌-◌, ◌/◌, ◌≡◌, refl, sym, ap, subst, ◌∙◌, Bool, true, false, not, ◌||◌, Option, none,
  some, List, [], if◌then◌else◌, length, All,
}
use filecloud.Prelude.Bytes.{Bytes, codes, same, same→eq}
use filecloud.Prelude.Outcome.{Error, Result, ok, err, failed, ◌>>=◌, >>=-eq-ok}
use filecloud.Object.Text.{Unicode, valid_utf8}
use filecloud.Object.Surrogates.{valid_escaped_surrogates}
use filecloud.Object.Ids.{id, valid_id}
use filecloud.Object.Stream.{Stream}
use filecloud.Object.Values.{File, FileObject, Directory, DirectoryEntry, DirectoryObject}
use filecloud.Object.Decimal.{parse_decimal}
use filecloud.Object.Decode.{max_file_size, decode_file, decode_directory}
use filecloud.Object.Canonical.{
  max_block_size, canonicalize, canonical_kind, is_persisted, or_invalid, verify_file,
  verify_directory,
}
use filecloud.Object.Canonical.Sizes.{IsFile, canonical_file-IsFile}
use filecloud.Object.Canonical.Order.{IsSorted, canonical_directory-IsSorted}

or_invalid-ok :
    {A : Type 0} (u : Unicode) (sha256 : Bytes → Bytes) (tokens : Bytes → Stream) (r : Result A)
    (a : A)
    → or_invalid u sha256 tokens r ≡ ok a
    → r ≡ ok a
or_invalid-ok u sha256 tokens (ok b) a h = h
or_invalid-ok u sha256 tokens (err e) a h = cc

past_test :
    {A : Type 0} (b : Bool) (e : Error) (r : Result A) (a : A)
    → (if b then err e else r) ≡ ok a
    → r ≡ ok a
past_test true e r a h = cc
past_test false e r a h = h

both_same :
    (a b : Bool) (e : Error) (x : Unit {0})
    → (if not a || not b then err e else ok tt) ≡ ok x
    → (a ≡ true) × (b ≡ true)
both_same true true e x h = (refl, refl)
both_same true false e x h = absurd (cc h)
both_same false b e x h = absurd (cc h)

module _ (u : Unicode) (sha256 : Bytes → Bytes) (tokens : Bytes → Stream)
    (content expected : Bytes) where
  persisted :
      (r : Result (Bytes × Bytes)) (a : Unit {0})
      → (r >>= is_persisted u sha256 tokens content expected) ≡ ok a
      → r ≡ ok (content, expected)
  persisted (err e) a h = cc
  persisted (ok (canonical, actual)) a h =
      let (same_id, same_content) =
        both_same (same actual expected) (same canonical content)
          (failed "invalid persisted object") a h in
      cc (same→eq actual expected same_id, same→eq canonical content same_content)

  canonical_parts :
      (kind canonical actual : Bytes)
      → canonicalize u sha256 tokens kind content ≡ ok (canonical, actual)
      → (canonical_kind u sha256 tokens kind content ≡ ok canonical)
        × (id sha256 canonical ≡ actual)
  unfolding canonicalize
  canonical_parts kind canonical actual h =
      let found =
        past_test (not (valid_utf8 content) || not (valid_escaped_surrogates content))
          (failed "object is not valid unicode JSON") _ (canonical, actual) h in
      let (c, kind_ok, e) = >>=-eq-ok (canonical_kind u sha256 tokens kind content) _ found in
      let q : ◌≡◌ {A = Bytes × Bytes} (c, id sha256 c) (canonical, actual) = cc in
      (
        cc (kind_ok, ap (λ x. x.0) q),
        ap (λ x. id sha256 x) (sym (ap (λ x. x.0) q)) ∙ ap (λ x. x.1) q,
      )

  -- The test that the Verify functions begin with.
  persisted_parts :
      (kind : Bytes) (a : Unit {0})
      → (canonicalize u sha256 tokens kind content
          >>= is_persisted u sha256 tokens content expected)
        ≡ ok a
      → (canonical_kind u sha256 tokens kind content ≡ ok content) × (id sha256 content ≡ expected)
  persisted_parts kind a h = canonical_parts kind content expected (persisted _ a h)

  pub record IsVerifiedDirectory (d : Directory) : Type 0 where
    pub identity : id sha256 content ≡ expected
    pub sorted : IsSorted u d.entries

  abbrev listed_or_nil : {A : Type 0} → Option (List A) → List A
  listed_or_nil o = elim o [ none ↦ [] | some e ↦ e ]

  listed_some :
      {A : Type 0} (o : Option (List A)) (entries : List A)
      → o ≡ some entries
      → listed_or_nil o ≡ entries
  listed_some none entries h = cc
  listed_some (some e) entries h = cc

  directory_of :
      (value found : DirectoryObject) (entries : List DirectoryEntry) (d : Directory)
      → ok value ≡ ok found
      → value.entries ≡ some entries
      → ok (record { entries = elim found.entries [ none ↦ [] | some e ↦ e ] }) ≡ ok d
      → IsSorted u entries
      → IsSorted u d.entries
  directory_of value found entries d e has h sorted =
      let same_value : value ≡ found = cc in
      let listed = sym (ap (λ v. v.entries) same_value) ∙ has in
      let made : ◌≡◌ {A = Directory} (record { entries = listed_or_nil found.entries }) d = cc in
      subst (IsSorted u) (sym (listed_some found.entries entries listed) ∙ ap (λ v. v.entries) made)
        sorted

  -- Where VerifyDirectory accepts a content, the expected identity is that of the content, and the
  -- entries are valid, in strict order of their names, with folded names that differ.
  pub verify_directory-IsVerifiedDirectory :
      (d : Directory)
      → verify_directory u sha256 tokens content expected ≡ ok d
      → IsVerifiedDirectory d
  unfolding verify_directory
  verify_directory-IsVerifiedDirectory d h =
      let made = or_invalid-ok u sha256 tokens _ d h in
      let (a, tested, rest) =
        >>=-eq-ok
          (canonicalize u sha256 tokens (codes "directories") content
            >>= is_persisted u sha256 tokens content expected)
          _ made in
      let (found, decoded, built) = >>=-eq-ok (decode_directory (tokens content)) _ rest in
      let (canonical, identity) = persisted_parts (codes "directories") a tested in
      let (value, entries, decoded_too, has, sorted, encoded) =
        canonical_directory-IsSorted u (tokens content) content canonical in
      record {
        identity = identity;
        sorted = directory_of value found entries d (sym decoded_too ∙ decoded) has built sorted;
      }

  pub record IsVerifiedFile (f : File) : Type 0 where
    pub identity : id sha256 content ≡ expected
    pub valid_blocks : All (λ b. valid_id b ≡ true) f.blocks
    pub count : length f.blocks ≡ (f.size + (max_block_size - 1)) / max_block_size

  -- Where VerifyFile accepts a content, the expected identity is that of the content, and the
  -- blocks are valid identities, as many as the size takes at the block boundary.
  pub verify_file-IsVerifiedFile :
      (f : File) → verify_file u sha256 tokens content expected ≡ ok f → IsVerifiedFile f
  unfolding verify_file
  verify_file-IsVerifiedFile f h =
      let made = or_invalid-ok u sha256 tokens _ f h in
      let (a, tested, rest) =
        >>=-eq-ok
          (canonicalize u sha256 tokens (codes "files") content
            >>= is_persisted u sha256 tokens content expected)
          _ made in
      let (found, decoded, sized) = >>=-eq-ok (decode_file (tokens content)) _ rest in
      let (size, parsed, built) = >>=-eq-ok (parse_decimal found.size max_file_size) _ sized in
      let (canonical, identity) = persisted_parts (codes "files") a tested in
      let (value, decoded_too, file) = canonical_file-IsFile (tokens content) content canonical in
      file_of value found size f identity (sym decoded_too ∙ decoded) parsed built file
    where
      file_of :
          (value found : FileObject) (size : ℕ) (f : File)
          → id sha256 content ≡ expected
          → ok value ≡ ok found
          → parse_decimal found.size max_file_size ≡ ok size
          → ok (record { blocks = listed_or_nil found.blocks; size = size }) ≡ ok f
          → IsFile value content
          → IsVerifiedFile f
      file_of value found size f identity e parsed h file =
          let same_value : value ≡ found = cc in
          let listed = sym (ap (λ v. v.blocks) same_value) ∙ file.has_blocks in
          let made : ◌≡◌ {A = File} (record { blocks = listed_or_nil found.blocks; size = size })
              f =
            cc in
          let same_blocks =
            sym (listed_some found.blocks file.blocks listed) ∙ ap (λ v. v.blocks) made in
          let parsed_too : ◌≡◌ {A = Result ℕ} (ok file.size) (ok size) =
            sym file.has_size ∙ ap (λ v. parse_decimal v.size max_file_size) same_value ∙ parsed in
          let same_size : file.size ≡ size = cc in
          record {
            identity = identity;
            valid_blocks = subst (All (λ b. valid_id b ≡ true)) same_blocks file.valid_blocks;
            count = rw (sym same_blocks, sym (ap (λ v. v.size) made), sym same_size) file.count;
          }
