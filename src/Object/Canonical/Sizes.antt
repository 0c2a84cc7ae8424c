-- ===== src/Object/Canonical/Sizes.antt =====
-- A canonical file object has as many blocks as its size needs.
use filecloud.Prelude.{
  ℕ, ◌+◌, ◌-◌, ◌/◌, ◌≤◌, ◌≡◌, refl, Bool, true, Option, none, some, List, [], ◌∷◌, arith,
  if◌then◌else◌, length, all, All, all→All,
}
use filecloud.Prelude.Bytes.{Bytes, codes}
use filecloud.Prelude.Outcome.{Result, ok, err, failed, >>=-eq-ok}
use filecloud.Object.Ids.{valid_id}
use filecloud.Object.Decimal.{parse_decimal}
use filecloud.Object.Stream.{Stream}
use filecloud.Object.Values.{FileObject}
use filecloud.Object.Decode.{max_file_size, decode_file}
use filecloud.Object.Encode.{append_file}
use filecloud.Object.Canonical.{
  max_block_size, minimum_size, maximum_size, sized, checked_file, canonical_file, wrong_header,
}

-- What a canonical file object says: valid block identities, and exactly as many as the size needs.
pub record IsFile (value : FileObject) (content : Bytes) : Type 0 where
  pub blocks : List Bytes
  pub size : ℕ
  pub has_blocks : value.blocks ≡ some blocks
  pub has_size : parse_decimal value.size max_file_size ≡ ok size
  pub valid_blocks : All (λ b. valid_id b ≡ true) blocks
  pub count : length blocks ≡ (size + (max_block_size - 1)) / max_block_size
  pub encoded : content ≡ append_file value

block_count :
    (blocks : List Bytes) (size : ℕ)
    → minimum_size blocks ≤ size
    → size ≤ maximum_size blocks
    → length blocks ≡ (size + (max_block_size - 1)) / max_block_size
block_count [] size h k = omega arith
block_count (b ∷ bs) size h k = omega arith

sized_parts :
    (value : FileObject) (blocks : List Bytes) (size : ℕ) (content : Bytes)
    → sized value blocks size ≡ ok content
    → (all valid_id blocks ≡ true)
      × (minimum_size blocks ≤ size)
      × (size ≤ maximum_size blocks)
      × (content ≡ append_file value)
sized_parts value blocks size content h = ground arith

kind_parts :
    (wrong : Bool) (r : Result Bytes) (content : Bytes)
    → (if wrong then err (failed "invalid file object") else r) ≡ ok content
    → r ≡ ok content
kind_parts wrong r content h = ground arith

checked_file-IsFile :
    (value : FileObject) (o : Option (List Bytes)) (content : Bytes)
    → value.blocks ≡ o
    → checked_file value o ≡ ok content
    → IsFile value content
checked_file-IsFile value none content e h = cc
checked_file-IsFile value (some blocks) content e h =
    let (size, has_size, sized_ok) =
      >>=-eq-ok (parse_decimal value.size max_file_size) (sized value blocks)
        (kind_parts (wrong_header value.kind (codes "File") value.version) _ content h) in
    let (valid, low, high, encoded) = sized_parts value blocks size content sized_ok in
    record {
      blocks = blocks;
      size = size;
      has_blocks = e;
      has_size = has_size;
      valid_blocks = all→All valid_id blocks valid;
      count = block_count blocks size low high;
      encoded = encoded;
    }

-- Whatever canonicalFile returns is the encoding of the decoded object; its size is a decimal
-- within the limit, its blocks are valid identities, and as many as the size takes at the block
-- boundary.
pub canonical_file-IsFile :
    (s : Stream) (content : Bytes)
    → canonical_file s ≡ ok content
    → (value : FileObject) × (decode_file s ≡ ok value) × IsFile value content
unfolding canonical_file
canonical_file-IsFile s content h =
    let (value, decoded, checked) = >>=-eq-ok (decode_file s) _ h in
    (value, decoded, checked_file-IsFile value value.blocks content refl checked)
