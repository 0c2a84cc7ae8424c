-- ===== src/Storage/Objects/Laws.antt =====
-- Sets of keys, and the files at their paths.
use filecloud.Prelude.{
  ◌≡◌, refl, Bool, true, false, not, ◌||◌, List, [], ◌∷◌, ◌++◌, arith, if◌then◌else◌, Bool-cases,
  inl, inr, &&-true,
}
use filecloud.Prelude.Bytes.{Bytes, same, same→eq, same_refl}
use filecloud.Storage.Objects.{
  Key, same_key, has, mark, same_parts, valid_object_scope_id, valid_kind, validate_object_location,
}
use filecloud.Prelude.Outcome.{Error, Result, ok, err}
use filecloud.Object.Ids.{valid_id}

pub same_key→eq : (a b : Key) → same_key a b ≡ true → a ≡ b
same_key→eq a b h =
    let (h₁, h₂) = &&-true _ (same a.id b.id) h in
    let (h₃, h₄) = &&-true _ (same a.kind b.kind) h₁ in
    let (h₅, h₆) = &&-true (same a.owner b.owner) (same a.library b.library) h₃ in
    λ i. record {
      owner = same→eq a.owner b.owner h₅ i;
      library = same→eq a.library b.library h₆ i;
      kind = same→eq a.kind b.kind h₄ i;
      id = same→eq a.id b.id h₂ i;
    }

pub same_key_refl : (k : Key) → same_key k k ≡ true
same_key_refl k = rw (same_refl k.owner, same_refl k.library, same_refl k.kind, same_refl k.id) refl

pub has-append : (k : Key) (xs ys : List Key) → has k (xs ++ ys) ≡ (has k xs || has k ys)
has-append k [] ys = refl
has-append k (x ∷ xs) ys = ground (arith, has-append k xs ys)

pub has-mark : (k j : Key) (m : List Key) → has j (mark k m) ≡ (same_key k j || has j m)
has-mark k j m = elim (Bool-cases (same_key k j)) [
  | inl e ↦ ground (arith, same_key→eq k j e)
  | inr e ↦ ground arith
]

pub same_parts→eq : (ps qs : List Bytes) → same_parts ps qs ≡ true → ps ≡ qs
same_parts→eq [] [] h = refl
same_parts→eq [] (q ∷ qs) h = cc
same_parts→eq (p ∷ ps) [] h = cc
same_parts→eq (p ∷ ps) (q ∷ qs) h =
    let (h₁, h₂) = &&-true (same p q) (same_parts ps qs) h in
    λ i. same→eq p q h₁ i ∷ same_parts→eq ps qs h₂ i

located_if :
    (a b c d : Bool) (e e' : Error)
    → ◌≡◌ {A = Result (Unit {0})}
        (if not a || not b || not c then err e else if not d then err e' else ok tt)
        (ok tt)
    → (a ≡ true) × (b ≡ true) × (c ≡ true) × (d ≡ true)
located_if true true true true e e' h = (refl, refl, refl, refl)
located_if true true true false e e' h = cc
located_if true true false d e e' h = cc
located_if true false c d e e' h = cc
located_if false b c d e e' h = cc

-- The parts of a valid location.
pub located :
    (k : Key)
    → validate_object_location k ≡ ok tt
    → (valid_object_scope_id k.owner ≡ true)
      × (valid_object_scope_id k.library ≡ true)
      × (valid_id k.id ≡ true)
      × (valid_kind k.kind ≡ true)
unfolding validate_object_location
located k h =
    located_if (valid_object_scope_id k.owner) (valid_object_scope_id k.library) (valid_id k.id)
      (valid_kind k.kind) _ _ h
