-- ===== src/Storage/Collector/Work.antt =====
-- How many rounds the loops of the collector still have: the stored objects that are not marked, each
-- with the references in it.
use filecloud.Prelude.{
  ℕ, zero, suc, ◌+◌, ◌≤◌, ◌≡◌, refl, sym, ap, subst, false, Option, none, some, List, [], ◌∷◌, ◌++◌,
  length, take, drop, arith, if◌then◌else◌, Bool-cases, inl, inr,
}
use filecloud.Prelude.Bytes.{Bytes}
use filecloud.Prelude.Outcome.{Result, ok, err, >>=-eq-ok}
use filecloud.Object.Values.{Directory, CommitObject}
use filecloud.Storage.Objects.{
  Key, has, mark, Stored, Verifier, same_parts, find_file, object_path, validate_object_location,
  regular_content, read_published_object, directory_at, commit_at,
}
use filecloud.Storage.Objects.Laws.{same_key_refl, has-mark, same_parts→eq}

pub take-append-drop {ℓ} : {A : Type ℓ} (n : ℕ) (xs : List A) → take n xs ++ drop n xs ≡ xs
take-append-drop zero xs = refl
take-append-drop (suc n) [] = refl
take-append-drop (suc n) (x ∷ xs) = ap (λ ys. x ∷ ys) (take-append-drop n xs)

abbrev part : ℕ → List Bytes → Bytes
part n [] = []
part zero (p ∷ parts) = p
part (suc n) (p ∷ parts) = part n parts

-- The key under which a file of the object directory is read.
abbrev pub key_of : List Bytes → Key
key_of parts = record {
  owner = part 0 parts;
  library = part 1 parts;
  kind = part 2 parts;
  id = part 3 parts ++ part 4 parts;
}

pub key_of-object_path : (k : Key) → key_of (object_path k) ≡ k
unfolding object_path
key_of-object_path k = λ i. record {
  owner = k.owner;
  library = k.library;
  kind = k.kind;
  id = take-append-drop 2 k.id i;
}

abbrev degree_of_directory : Result Directory → ℕ
degree_of_directory (ok d) = length d.entries
degree_of_directory (err e) = 0

abbrev degree_of_commit : Result CommitObject → ℕ
degree_of_commit (ok c) = length c.parents
degree_of_commit (err e) = 0

module _ (v : Verifier) (disk : List Stored) where
  -- At least as many as the identities that a visit of the key may push.
  abbrev pub degree : Key → ℕ
  degree k = degree_of_directory (directory_at v disk k) + degree_of_commit (commit_at v disk k)

  abbrev weigh : List Key → Key → ℕ
  weigh m k = if has k m then 0 else suc (degree k)

  abbrev pub weigh_all : List Key → List Stored → ℕ
  weigh_all m [] = 0
  weigh_all m (f ∷ fs) = weigh m (key_of f.parts) + weigh_all m fs

  abbrev pub work : List Key → ℕ
  work m = weigh_all m disk

  weigh-mark : (k j : Key) (m : List Key) → weigh (mark k m) j ≤ weigh m j
  weigh-mark k j m = elim (Bool-cases (has j m)) [
    | inl e ↦ ground (arith, has-mark k j m)
    | inr e ↦ elim (Bool-cases (has j (mark k m))) [
      | inl f ↦ rw f (omega arith)
      | inr f ↦ rw (e, f) (omega arith)
    ]
  ]

  weigh_all-mark :
      (k : Key) (m : List Key) (fs : List Stored) → weigh_all (mark k m) fs ≤ weigh_all m fs
  weigh_all-mark k m [] = omega arith
  weigh_all-mark k m (f ∷ fs) =
      omega (arith, weigh-mark k (key_of f.parts) m, weigh_all-mark k m fs)

  weigh-new :
      (k : Key) (m : List Key) → has k m ≡ false → weigh (mark k m) k + suc (degree k) ≤ weigh m k
  weigh-new k m e = rw (has-mark k k m, same_key_refl k, e) (omega arith)

  pub work-mark : (k : Key) (m : List Key) → work (mark k m) ≤ work m
  work-mark k m = weigh_all-mark k m disk

  weigh_all-found :
      (k : Key) (m : List Key) (fs : List Stored) (f : Stored)
      → has k m ≡ false
      → find_file (object_path k) fs ≡ some f
      → weigh_all (mark k m) fs + suc (degree k) ≤ weigh_all m fs
  weigh_all-found k m [] f e h = cc
  weigh_all-found k m (g ∷ fs) f e h = elim (Bool-cases (same_parts g.parts (object_path k))) [
    | inl s ↦
        subst
          (λ j.
            weigh (mark k m) j + weigh_all (mark k m) fs + suc (degree k)
            ≤ weigh m j + weigh_all m fs)
          (sym (
            subst (λ ps. key_of ps ≡ k) (sym (same_parts→eq g.parts (object_path k) s))
              (key_of-object_path k)))
          (omega (arith, weigh-new k m e, weigh_all-mark k m fs))
    | inr s ↦
        omega (arith, weigh-mark k (key_of g.parts) m, weigh_all-found k m fs f e (ground arith))
  ]

  regular_content-found :
      (o : Option Stored) (c : Bytes) → regular_content o ≡ ok c → (f : Stored) × (o ≡ some f)
  regular_content-found none c h = cc
  regular_content-found (some f) c h = (f, refl)

  -- A new mark on an object that has been read takes its weight away.
  pub work-read :
      (k : Key) (m : List Key) (c : Bytes)
      → has k m ≡ false
      → read_published_object disk k ≡ ok c
      → work (mark k m) + suc (degree k) ≤ work m
  unfolding read_published_object
  work-read k m c e h =
      let (u, valid, found) = >>=-eq-ok (validate_object_location k) _ h in
      let (f, at) = regular_content-found (find_file (object_path k) disk) c found in
      weigh_all-found k m disk f e at

  pub degree-directory :
      (k : Key) (d : Directory) → directory_at v disk k ≡ ok d → length d.entries ≤ degree k
  degree-directory k d e = rw e (omega arith)

  pub degree-commit :
      (k : Key) (c : CommitObject) → commit_at v disk k ≡ ok c → length c.parents ≤ degree k
  degree-commit k c e = rw e (omega arith)
