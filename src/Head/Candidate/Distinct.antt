-- ===== src/Head/Candidate/Distinct.antt =====
-- Roles of commits that differ from each other.
use filecloud.Prelude.{
  ◌≡◌, refl, subst, Bool, true, false, ◌||◌, List, [], ◌∷◌, ◌++◌, arith, All, Bool-cases, inl, inr,
}
use filecloud.Prelude.Bytes.{Bytes, same, same→eq, same_refl}
use filecloud.Prelude.Sets.{ByteSet, member}
use filecloud.Storage.Heads.{Role}

abbrev pub names : Bytes → List Role → Bool
names id [] = false
names id (r ∷ rs) = same r.commit id || names id rs

abbrev pub Distinct : List Role → Type 0
Distinct [] = Unit
Distinct (r ∷ rs) = (names r.commit rs ≡ false) × Distinct rs

names-append :
    (id : Bytes) (rs : List Role) (r : Role)
    → names id rs ≡ false
    → same r.commit id ≡ false
    → names id (rs ++ r ∷ []) ≡ false
names-append id [] r h k = ground (arith, k)
names-append id (x ∷ rs) r h k = elim (Bool-cases (same x.commit id)) [
  | inl e ↦ absurd (ground (arith, e, h))
  | inr e ↦ ground (arith, e, names-append id rs r (rw e at h) k)
]

same_sym : (a b : Bytes) → same a b ≡ false → same b a ≡ false
same_sym a b h = elim (Bool-cases (same b a)) [
  | inr e ↦ e
  | inl e ↦ absurd (ground (arith, h, subst (λ x. same x b ≡ true) (same→eq b a e) (same_refl b)))
]

pub Distinct-append :
    (rs : List Role) (r : Role) → Distinct rs → names r.commit rs ≡ false → Distinct (rs ++ r ∷ [])
Distinct-append [] r d h = (refl, tt)
Distinct-append (x ∷ rs) r (n, d) h = elim (Bool-cases (same x.commit r.commit)) [
  | inl e ↦ absurd (ground (arith, e, h))
  | inr e ↦ (
    names-append x.commit rs r n (same_sym x.commit r.commit e),
    Distinct-append rs r d (rw e at h),
  )
]

-- What is not in a set that has all the commits is none of them.
pub names_unseen :
    (seen : ByteSet) (id : Bytes) (rs : List Role)
    → member id seen ≡ false
    → All (λ r. member r.commit seen ≡ true) rs
    → names id rs ≡ false
names_unseen seen id [] e h = refl
names_unseen seen id (r ∷ rs) e (h, k) = elim (Bool-cases (same r.commit id)) [
  | inl q ↦ absurd (ground (arith, e, subst (λ x. member x seen ≡ true) (same→eq r.commit id q) h))
  | inr q ↦ ground (arith, q, names_unseen seen id rs e k)
]
