-- ===== src/Prelude/ByteOrder.antt =====
-- The bytewise order of Go strings, and sort.Strings.
use mathlib.Core.Path.{◌≡◌, refl}
use mathlib.Core.Bool.{Bool, true, false, ◌&&◌, ◌||◌}
use mathlib.Core.List.{[], ◌∷◌}
use native.Mathlib.Omega.{arith}
use filecloud.Prelude.Tests.{ltb, ◌==◌, if◌then◌else◌}
use filecloud.Prelude.Bytes.{Bytes, same}

-- `a < b`, and strings.Compare(a, b) < 0.
abbrev pub before : Bytes → Bytes → Bool
before [] [] = false
before [] (y ∷ ys) = true
before (x ∷ xs) [] = false
before (x ∷ xs) (y ∷ ys) = ltb x y || ((x == y) && before xs ys)

pub before_irrefl : (xs : Bytes) → before xs xs ≡ false
before_irrefl [] = refl
before_irrefl (x ∷ xs) = ground (arith, before_irrefl xs)

pub before_trans :
    (xs ys zs : Bytes) → before xs ys ≡ true → before ys zs ≡ true → before xs zs ≡ true
before_trans [] [] zs h k = cc
before_trans [] (y ∷ ys) [] h k = cc
before_trans [] (y ∷ ys) (z ∷ zs) h k = refl
before_trans (x ∷ xs) [] zs h k = cc
before_trans (x ∷ xs) (y ∷ ys) [] h k = cc
before_trans (x ∷ xs) (y ∷ ys) (z ∷ zs) h k = ground (arith, before_trans xs ys zs)

-- Two texts of which neither comes first are equal.
pub before_total : (xs ys : Bytes) → before xs ys ≡ false → before ys xs ≡ false → same xs ys ≡ true
before_total [] [] h k = refl
before_total [] (y ∷ ys) h k = cc
before_total (x ∷ xs) [] h k = cc
before_total (x ∷ xs) (y ∷ ys) h k = ground (arith, before_total xs ys)

pub before_asymm : (xs ys : Bytes) → before xs ys ≡ true → before ys xs ≡ false
before_asymm [] [] h = refl
before_asymm [] (y ∷ ys) h = refl
before_asymm (x ∷ xs) [] h = cc
before_asymm (x ∷ xs) (y ∷ ys) h = ground (arith, before_asymm xs ys)

pub before-same : (xs ys : Bytes) → before xs ys ≡ true → same xs ys ≡ false
before-same [] [] h = cc
before-same [] (y ∷ ys) h = refl
before-same (x ∷ xs) [] h = refl
before-same (x ∷ xs) (y ∷ ys) h = ground (arith, before-same xs ys)

-- The larger of two texts, as `if right > left { return right }`.
abbrev pub later : Bytes → Bytes → Bytes
later left right = if before left right then right else left
