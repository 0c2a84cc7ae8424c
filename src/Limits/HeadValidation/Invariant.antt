-- ===== src/Limits/HeadValidation/Invariant.antt =====
-- Whatever the calls, the limiter counts the validations that run, keeps its limit, and lets at most
-- one run for each library.
use filecloud.Prelude.{
  ℕ, zero, suc, ◌+◌, ◌≤◌, ◌<◌, ◌≡◌, refl, Bool, true, false, Option, none, some, List, [], ◌∷◌,
  arith, leb, if◌then◌else◌, Bool-cases, inl, inr,
}
use filecloud.Prelude.Bytes.{same_iff}
use filecloud.Prelude.Outcome.{ok}
use filecloud.Limits.HeadValidation.{
  Key, same_key, has_key, delete_key, HeadLimiter, new_head_limiter, try_acquire, release, Lease,
  System, granted, fire, fired, Call, acquire, call_release, step, run,
}

-- The validations that run, in all and of one library.
abbrev pub out : List Lease → ℕ
out [] = 0
out (x ∷ xs) = (if x.done then 0 else 1) + out xs

abbrev pub out_of : Key → List Lease → ℕ
out_of k [] = 0
out_of k (x ∷ xs) = (if x.done then 0 else if same_key x.key k then 1 else 0) + out_of k xs

-- `g` is the limit that the limiter was made with.
pub record IsConsistent (g : ℕ) (s : System) : Type 0 where
  pub global_limit : s.limiter.global_limit ≡ g
  pub global : s.limiter.global ≡ out s.leases
  pub within_global : s.limiter.global ≤ g
  pub per_library : (k : Key) → out_of k s.leases ≡ (if has_key k s.limiter.libraries then 1 else 0)

has_key-same : (k j : Key) (m : List Key) → same_key k j ≡ true → has_key k m ≡ has_key j m
has_key-same k j [] h = refl
has_key-same k j (i ∷ m) h = ground (
  arith,
  has_key-same k j m h,
  same_iff k.owner_id j.owner_id,
  same_iff k.library_id j.library_id,
)

has_key-delete :
    (k j : Key) (m : List Key)
    → has_key j (delete_key k m) ≡ (if same_key k j then false else has_key j m)
has_key-delete k j [] = ground arith
has_key-delete k j (i ∷ m) = ground (
  arith,
  has_key-delete k j m,
  same_iff k.owner_id j.owner_id,
  same_iff k.library_id j.library_id,
  same_iff i.owner_id j.owner_id,
  same_iff i.library_id j.library_id,
  same_iff i.owner_id k.owner_id,
  same_iff i.library_id k.library_id,
)

-- What a call of a closure does: the first one ends one validation of its library.
abbrev GivesBack : List Lease → Option (Key × List Lease) → Type 0
GivesBack xs none = Unit
GivesBack xs (some (key, ys)) =
    (out xs ≡ suc (out ys))
    × ((k : Key) → out_of k xs ≡ (if same_key key k then 1 else 0) + out_of k ys)

GivesBack-cons :
    (x : Lease) (xs : List Lease) (r : Option (Key × List Lease))
    → GivesBack xs r
    → GivesBack (x ∷ xs) (elim r [ none ↦ none | some (key, ys) ↦ some (key, x ∷ ys) ])
GivesBack-cons x xs none g = tt
GivesBack-cons x xs (some (key, ys)) (total, each) = (omega arith, λ k. omega (arith, each k))

GivesBack-first :
    (x : Lease) (xs : List Lease) (done : Bool)
    → x.done ≡ done
    → GivesBack
        (x ∷ xs)
        (if done then none else some (x.key, record { key = x.key; done = true } ∷ xs))
GivesBack-first x xs true e = tt
GivesBack-first x xs false e = (ground arith, λ k. ground arith)

fire-GivesBack : (n : ℕ) (xs : List Lease) → GivesBack xs (fire n xs)
fire-GivesBack n [] = tt
fire-GivesBack zero (x ∷ xs) = GivesBack-first x xs x.done refl
fire-GivesBack (suc n) (x ∷ xs) = GivesBack-cons x xs (fire n xs) (fire-GivesBack n xs)

module _ (g : ℕ) (key : Key) (s : System) (v : IsConsistent g s) where
  admitted :
      s.limiter.global < s.limiter.global_limit
      → has_key key s.limiter.libraries ≡ false
      → IsConsistent g (
          granted key s (
            some (record s.limiter {
              global = s.limiter.global + 1;
              libraries = key ∷ s.limiter.libraries;
            })))
  admitted room free = record {
    global_limit = v.global_limit;
    global = omega (arith, v.global);
    within_global = omega (arith, v.global_limit);
    per_library = λ k. ground (arith, v.per_library k, has_key-same key k s.limiter.libraries);
  }

  acquired : IsConsistent g (granted key s (try_acquire key s.limiter))
  unfolding try_acquire
  acquired = elim (Bool-cases (leb s.limiter.global_limit s.limiter.global)) [
    | inl full ↦ rw full v
    | inr room ↦ elim (Bool-cases (has_key key s.limiter.libraries)) [
      | inl busy ↦ rw (room, busy) v
      | inr free ↦ rw (room, free) (admitted (ground arith) free)
    ]
  ]

  released :
      (ys : List Lease)
      → GivesBack s.leases (some (key, ys))
      → IsConsistent g (record { limiter = release key s.limiter; leases = ys })
  unfolding release
  released ys (total, each) = record {
    global_limit = v.global_limit;
    global = omega (arith, v.global);
    within_global = omega (arith, v.within_global);
    per_library =
        λ k. ground (arith, each k, v.per_library k, has_key-delete key k s.limiter.libraries);
  }

call_fired :
    (g : ℕ) (s : System) (r : Option (Key × List Lease))
    → IsConsistent g s
    → GivesBack s.leases r
    → IsConsistent g (fired s r)
call_fired g s none v gives = v
call_fired g s (some (key, ys)) v gives = released g key s v ys gives

step-IsConsistent : (g : ℕ) (c : Call) (s : System) → IsConsistent g s → IsConsistent g (step c s)
unfolding step
step-IsConsistent g (acquire key) s v = acquired g key s v
step-IsConsistent g (call_release n) s v =
    call_fired g s (fire n s.leases) v (fire-GivesBack n s.leases)

run-IsConsistent :
    (g : ℕ) (calls : List Call) (s : System) → IsConsistent g s → IsConsistent g (run calls s)
unfolding run
run-IsConsistent g [] s v = v
run-IsConsistent g (c ∷ calls) s v = run-IsConsistent g calls (step c s) (step-IsConsistent g c s v)

new-IsConsistent :
    (g : ℕ) (l : HeadLimiter)
    → new_head_limiter g ≡ ok l
    → IsConsistent g (record { limiter = l; leases = [] })
unfolding new_head_limiter
new-IsConsistent g l h = record {
  global_limit = ground arith;
  global = ground arith;
  within_global = ground arith;
  per_library = λ k. ground arith;
}

-- From a new limiter, any calls of tryAcquire and of the release closures, in any order and
-- repeated, leave the counter equal to the number of slots that are out, within the limit, and the
-- set of libraries equal to those with a slot that is out, of which there is one for each.
pub run-new_head_limiter :
    (g : ℕ) (l : HeadLimiter) (calls : List Call)
    → new_head_limiter g ≡ ok l
    → IsConsistent g (run calls (record { limiter = l; leases = [] }))
run-new_head_limiter g l calls h =
    run-IsConsistent g calls (record { limiter = l; leases = [] }) (new-IsConsistent g l h)
