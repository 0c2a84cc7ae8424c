-- ===== src/Head/Etag.antt =====
-- The entity tags of heads: headETag of internal/library/handler.go and parseHeadETag of head.go.
pub mod Laws
use filecloud.Prelude.{
  ℕ, zero, suc, not, ◌||◌, Option, none, some, List, [], ◌∷◌, ◌++◌, length, if◌then◌else◌,
}
use filecloud.Prelude.Bytes.{Bytes, codes, same, has_prefix, ends_with, contains_byte}
use filecloud.Prelude.Int.{ℤ, pos, negsuc}
use filecloud.Object.Decimal.{format, parse_int, leading_zero}

abbrev pub etag_prefix : Bytes
etag_prefix = b'"' ∷ codes "head-version-"

-- headETag, of a version that is not negative.
abbrev pub head_etag : ℕ → Bytes
head_etag version = etag_prefix ++ format version ++ b'"' ∷ []

-- s[n:]
abbrev pub skip : ℕ → Bytes → Bytes
skip zero s = s
skip (suc n) [] = []
skip (suc n) (c ∷ s) = skip n s

-- s[:len(s)-1]
abbrev pub without_last : Bytes → Bytes
without_last [] = []
without_last (c ∷ []) = []
without_last (c ∷ d ∷ s) = c ∷ without_last (d ∷ s)

-- The tests behind ParseInt.
abbrev pub printed_version : Bytes → Option ℤ → Option ℕ
printed_version number none = none
printed_version number (some (negsuc n)) = none
printed_version number (some (pos n)) = if same (format n) number then some n else none

abbrev pub parse_version : Bytes → Option ℕ
parse_version number =
    if same number [] || leading_zero number
    then none
    else printed_version number (parse_int number)

abbrev pub parse_head_etag : List Bytes → Option ℕ
parse_head_etag (value ∷ []) =
    if not (has_prefix value etag_prefix) || not (ends_with value b'"') || contains_byte value b','
    then none
    else parse_version (without_last (skip (length etag_prefix) value))
parse_head_etag _ = none
