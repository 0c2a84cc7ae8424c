-- ===== src/Prelude/Bytes.antt =====
-- Go strings and byte slices as lists of bytes, with the functions of package strings that the
-- program calls on them.
use Prim.Native.Char.{code}
use Prim.Native.Nat.{ℕ}
use Prim.Native.String.{String}
use mathlib.Core.Path.{◌≡◌, refl, ap₂}
use mathlib.Core.Logic.{◌↔◌, ◌≢◌}
use mathlib.Core.Bool.{Bool, true, false, ◌&&◌, ◌||◌}
use mathlib.Core.List.{List, [], ◌∷◌, ◌++◌, append-nil, append_assoc}
use mathlib.Core.Option.{Option, none, some}
use native.Mathlib.Omega.{arith}
use filecloud.Prelude.Tests.{◌==◌, if◌then◌else◌, &&-true, ==_iff}

abbrev pub Bytes : Type 0
Bytes = List ℕ

-- The code points of a literal: its bytes, if it is ASCII.
abbrev pub codes : String → Bytes
codes String.[] = []
codes (String.◌∷◌ c s) = code c ∷ codes s

-- `a == b` on strings.
abbrev pub same : Bytes → Bytes → Bool
same [] [] = true
same [] (y ∷ ys) = false
same (x ∷ xs) [] = false
same (x ∷ xs) (y ∷ ys) = (x == y) && same xs ys

pub same→eq : (xs ys : Bytes) → same xs ys ≡ true → xs ≡ ys
same→eq [] [] h = refl
same→eq [] (y ∷ ys) h = cc
same→eq (x ∷ xs) [] h = cc
same→eq (x ∷ xs) (y ∷ ys) h =
    let s = &&-true (x == y) (same xs ys) h in
    ap₂ (λ a b. a ∷ b) ((==_iff x y).0 s.0) (same→eq xs ys s.1)

pub same_refl : (xs : Bytes) → same xs xs ≡ true
same_refl [] = refl
same_refl (x ∷ xs) = ground (arith, same_refl xs)

pub same_iff : (xs ys : Bytes) → (same xs ys ≡ true) ↔ (xs ≡ ys)
same_iff xs ys = (same→eq xs ys, λ e. cc (same_refl xs, e))

-- strings.HasPrefix
abbrev pub has_prefix : Bytes → Bytes → Bool
has_prefix s [] = true
has_prefix [] (p ∷ ps) = false
has_prefix (c ∷ s) (p ∷ ps) = (c == p) && has_prefix s ps

-- strings.IndexByte, as an Option; strings.Contains of one byte.
abbrev pub contains_byte : Bytes → ℕ → Bool
contains_byte [] b = false
contains_byte (c ∷ s) b = (c == b) || contains_byte s b

-- The last byte, if there is one.
abbrev pub last? : Bytes → Option ℕ
last? [] = none
last? (c ∷ []) = some c
last? (c ∷ d ∷ s) = last? (d ∷ s)

-- strings.HasSuffix with a suffix of one byte.
abbrev pub ends_with : Bytes → ℕ → Bool
ends_with s b = elim (last? s) [ none ↦ false | some c ↦ c == b ]

-- The text in front of the first `b`, or all of it: s[:strings.IndexByte(s, b)].
abbrev pub before_byte : ℕ → Bytes → Bytes
before_byte b [] = []
before_byte b (c ∷ s) = if c == b then [] else c ∷ before_byte b s

-- strings.Split and strings.SplitSeq with a separator of one byte: always at least one part.
pub split_from : ℕ → Bytes → Bytes → List Bytes
split_from sep [] cur = cur ∷ []
split_from sep (c ∷ s) cur = elim (c == sep) [
  | true ↦ cur ∷ split_from sep s []
  | false ↦ split_from sep s (cur ++ c ∷ [])
]

unfoldable pub split : Bytes → ℕ → List Bytes
unfolding split_from
split s sep = split_from sep s []

-- strings.Join with a separator of one byte.
abbrev pub join : List Bytes → ℕ → Bytes
join [] sep = []
join (p ∷ []) sep = p
join (p ∷ q ∷ ps) sep = p ++ sep ∷ join (q ∷ ps) sep

split_from-ne-nil : (sep : ℕ) (s cur : Bytes) → split_from sep s cur ≢ []
unfolding split_from
split_from-ne-nil sep [] cur h = cc
split_from-ne-nil sep (c ∷ s) cur h = ground (arith, split_from-ne-nil sep s (cur ++ c ∷ []))

join-cons :
    (p : Bytes) (ps : List Bytes) (sep : ℕ) → ps ≢ [] → join (p ∷ ps) sep ≡ p ++ sep ∷ join ps sep
join-cons p [] sep h = absurd (h refl)
join-cons p (q ∷ ps) sep h = refl

join-split_from : (sep : ℕ) (s cur : Bytes) → join (split_from sep s cur) sep ≡ cur ++ s
unfolding split_from
join-split_from sep [] cur = rw append-nil
join-split_from sep (c ∷ s) cur = ground (
  arith,
  join-cons cur (split_from sep s []) sep (split_from-ne-nil sep s []),
  join-split_from sep s [],
  join-split_from sep s (cur ++ c ∷ []),
  append_assoc cur (c ∷ []) s,
)

-- Joining the parts of a split gives the text back.
pub join-split : (s : Bytes) (sep : ℕ) → join (split s sep) sep ≡ s
unfolding split
join-split s sep = join-split_from sep s []
