-- ===== src/Prelude/Sets.antt =====
-- A Go map[string]struct{} or map[string]bool that the program only adds to and asks: the list of
-- its keys, each once.
use Prim.Native.Nat.{suc, ◌≤◌}
use mathlib.Core.Path.{◌≡◌, refl}
use mathlib.Core.Logic.{inl, inr}
use mathlib.Core.Bool.{Bool, false, ◌||◌}
use mathlib.Core.List.{List, [], ◌∷◌}
use native.Mathlib.Omega.{arith}
use filecloud.Prelude.Tests.{if◌then◌else◌, Bool-cases}
use filecloud.Prelude.Lists.{length}
use filecloud.Prelude.Bytes.{Bytes, same, same→eq}

abbrev pub ByteSet : Type 0
ByteSet = List Bytes

abbrev pub member : Bytes → ByteSet → Bool
member k [] = false
member k (x ∷ s) = same x k || member k s

-- `set[k] = struct{}{}`
abbrev pub add : Bytes → ByteSet → ByteSet
add k s = if member k s then s else k ∷ s

-- `delete(set, k)`
abbrev pub remove : Bytes → ByteSet → ByteSet
remove k [] = []
remove k (x ∷ s) = if same x k then remove k s else x ∷ remove k s

pub member-add : (k j : Bytes) (s : ByteSet) → member j (add k s) ≡ (same k j || member j s)
member-add k j s = elim (Bool-cases (same k j)) [
  | inl e ↦ ground (arith, same→eq k j e)
  | inr e ↦ ground arith
]

pub member-remove_self : (k : Bytes) (s : ByteSet) → member k (remove k s) ≡ false
member-remove_self k [] = refl
member-remove_self k (x ∷ s) = ground (arith, member-remove_self k s)

pub length-add : (k : Bytes) (s : ByteSet) → member k s ≡ false → length (add k s) ≡ suc (length s)
length-add k s h = ground arith

pub length-le-add : (k : Bytes) (s : ByteSet) → length (add k s) ≤ suc (length s)
length-le-add k s = ground arith
