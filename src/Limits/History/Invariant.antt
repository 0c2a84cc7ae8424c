-- ===== src/Limits/History/Invariant.antt =====
-- Whatever the calls, the limiter counts the slots that are out, and keeps both limits.
use filecloud.Prelude.{
  ℕ, zero, suc, ◌+◌, ◌-◌, ◌≤◌, ◌<◌, ◌≡◌, refl, Bool, true, false, ◌||◌, Option, none, some, List,
  [], ◌∷◌, arith, leb, if◌then◌else◌, Bool-cases, inl, inr,
}
use filecloud.Prelude.Bytes.{Bytes, same, same_iff}
use filecloud.Prelude.Outcome.{ok}
use filecloud.Limits.History.{
  Counts, count, set_count, delete, HistoryLimiter, new_history_limiter, try_acquire, release,
  Lease, System, append_lease, granted, fire, fired, Call, acquire, call_release, step, run,
}

-- The slots that are out, of all users and of one.
abbrev pub out : List Lease → ℕ
out [] = 0
out (x ∷ xs) = (if x.done then 0 else 1) + out xs

abbrev pub out_of : Bytes → List Lease → ℕ
out_of u [] = 0
out_of u (x ∷ xs) = (if x.done then 0 else if same x.user u then 1 else 0) + out_of u xs

-- `g` and `k` are the limits that the limiter was made with.
pub record IsConsistent (g k : ℕ) (s : System) : Type 0 where
  pub global_limit : s.limiter.global_limit ≡ g
  pub user_limit : s.limiter.user_limit ≡ k
  pub global : s.limiter.global ≡ out s.leases
  pub per_user : (u : Bytes) → count u s.limiter.users ≡ out_of u s.leases
  pub within_global : s.limiter.global ≤ g
  pub within_user : (u : Bytes) → count u s.limiter.users ≤ k

count-set :
    (k j : Bytes) (n : ℕ) (m : Counts)
    → count j (set_count k n m) ≡ (if same k j then n else count j m)
count-set k j n [] = refl
count-set k j n ((i, x) ∷ m) =
    ground (arith, count-set k j n m, same_iff i k, same_iff k j, same_iff i j)

count-delete :
    (k j : Bytes) (m : Counts) → count j (delete k m) ≡ (if same k j then 0 else count j m)
count-delete k j [] = ground arith
count-delete k j ((i, x) ∷ m) =
    ground (arith, count-delete k j m, same_iff i k, same_iff k j, same_iff i j)

out-append :
    (x : Lease) (xs : List Lease) → out (append_lease x xs) ≡ (if x.done then 0 else 1) + out xs
out-append x [] = refl
out-append x (y ∷ ys) = omega (arith, out-append x ys)

out_of-append :
    (u : Bytes) (x : Lease) (xs : List Lease)
    → out_of u (append_lease x xs)
      ≡ (if x.done then 0 else if same x.user u then 1 else 0) + out_of u xs
out_of-append u x [] = refl
out_of-append u x (y ∷ ys) = omega (arith, out_of-append u x ys)

-- What a call of a closure does to the slots: the first one gives back one slot of its user.
abbrev GivesBack : List Lease → Option (Bytes × List Lease) → Type 0
GivesBack xs none = Unit
GivesBack xs (some (user, ys)) =
    (out xs ≡ suc (out ys))
    × ((u : Bytes) → out_of u xs ≡ (if same user u then 1 else 0) + out_of u ys)

GivesBack-cons :
    (x : Lease) (xs : List Lease) (r : Option (Bytes × List Lease))
    → GivesBack xs r
    → GivesBack (x ∷ xs) (elim r [ none ↦ none | some (user, ys) ↦ some (user, x ∷ ys) ])
GivesBack-cons x xs none g = tt
GivesBack-cons x xs (some (user, ys)) (total, each) = (omega arith, λ u. omega (arith, each u))

GivesBack-first :
    (x : Lease) (xs : List Lease) (done : Bool)
    → x.done ≡ done
    → GivesBack
        (x ∷ xs)
        (if done then none else some (x.user, record { user = x.user; done = true } ∷ xs))
GivesBack-first x xs true e = tt
GivesBack-first x xs false e = (ground arith, λ u. ground arith)

fire-GivesBack : (n : ℕ) (xs : List Lease) → GivesBack xs (fire n xs)
fire-GivesBack n [] = tt
fire-GivesBack zero (x ∷ xs) = GivesBack-first x xs x.done refl
fire-GivesBack (suc n) (x ∷ xs) = GivesBack-cons x xs (fire n xs) (fire-GivesBack n xs)

module _ (g k : ℕ) (user : Bytes) (s : System) (v : IsConsistent g k s) where
  admitted :
      s.limiter.global < s.limiter.global_limit
      → count user s.limiter.users < s.limiter.user_limit
      → IsConsistent g k (
          granted user s (
            some (record s.limiter {
              global = s.limiter.global + 1;
              users = set_count user (count user s.limiter.users + 1) s.limiter.users;
            })))
  admitted room room_of_user = record {
    global_limit = v.global_limit;
    user_limit = v.user_limit;
    global = omega (arith, v.global, out-append lease s.leases);
    per_user = λ u. ground (
      arith,
      count-set user u (count user s.limiter.users + 1) s.limiter.users,
      out_of-append u lease s.leases,
      v.per_user u,
      same_iff user u,
    );
    within_global = omega arith;
    within_user = λ u.
        ground (
          arith,
          count-set user u (count user s.limiter.users + 1) s.limiter.users,
          v.within_user u,
        );
  }
    where
      lease : Lease
      lease = record { user = user; done = false }

  acquired : IsConsistent g k (granted user s (try_acquire user s.limiter))
  unfolding try_acquire
  acquired =
      elim (Bool-cases (
        leb s.limiter.global_limit s.limiter.global
        || leb s.limiter.user_limit (count user s.limiter.users))) [
          | inl full ↦ rw full v
          | inr free ↦ rw free (admitted (ground arith) (ground arith))
        ]

  -- The count of a user behind the decrement, where a zero entry is deleted.
  count-release :
      (u : Bytes)
      → count u (release user s.limiter).users
        ≡ count u s.limiter.users - (if same user u then 1 else 0)
  unfolding release
  count-release u = ground (
    arith,
    count-delete user u (set_count user (count user s.limiter.users - 1) s.limiter.users),
    count-set user u (count user s.limiter.users - 1) s.limiter.users,
    count-set user user (count user s.limiter.users - 1) s.limiter.users,
    same_iff user u,
    same_iff user user,
  )

  released :
      (ys : List Lease)
      → GivesBack s.leases (some (user, ys))
      → IsConsistent g k (record { limiter = release user s.limiter; leases = ys })
  released ys (total, each) = record {
    global_limit = unfold release in v.global_limit;
    user_limit = unfold release in v.user_limit;
    global = unfold release in omega (arith, v.global);
    per_user = λ u. omega (arith, count-release u, each u, v.per_user u);
    within_global = unfold release in omega (arith, v.within_global);
    within_user = λ u. unfold release in omega (arith, count-release u, v.within_user u);
  }

call_fired :
    (g k : ℕ) (s : System) (r : Option (Bytes × List Lease))
    → IsConsistent g k s
    → GivesBack s.leases r
    → IsConsistent g k (fired s r)
call_fired g k s none v gives = v
call_fired g k s (some (user, ys)) v gives = released g k user s v ys gives

step-IsConsistent :
    (g k : ℕ) (c : Call) (s : System) → IsConsistent g k s → IsConsistent g k (step c s)
unfolding step
step-IsConsistent g k (acquire user) s v = acquired g k user s v
step-IsConsistent g k (call_release n) s v =
    call_fired g k s (fire n s.leases) v (fire-GivesBack n s.leases)

run-IsConsistent :
    (g k : ℕ) (calls : List Call) (s : System) → IsConsistent g k s → IsConsistent g k (run calls s)
unfolding run
run-IsConsistent g k [] s v = v
run-IsConsistent g k (c ∷ calls) s v =
    run-IsConsistent g k calls (step c s) (step-IsConsistent g k c s v)

new-IsConsistent :
    (g k : ℕ) (l : HistoryLimiter)
    → new_history_limiter g k ≡ ok l
    → IsConsistent g k (record { limiter = l; leases = [] })
unfolding new_history_limiter
new-IsConsistent g k l h = record {
  global_limit = ground arith;
  user_limit = ground arith;
  global = ground arith;
  per_user = λ u. ground arith;
  within_global = ground arith;
  within_user = λ u. ground arith;
}

-- From a new limiter, any calls of tryAcquire and of the release closures, in any order and
-- repeated, leave the counters equal to the slots that are out, in all and for each user, and
-- within both limits.
pub run-new_history_limiter :
    (g k : ℕ) (l : HistoryLimiter) (calls : List Call)
    → new_history_limiter g k ≡ ok l
    → IsConsistent g k (run calls (record { limiter = l; leases = [] }))
run-new_history_limiter g k l calls h =
    run-IsConsistent g k calls (record { limiter = l; leases = [] }) (new-IsConsistent g k l h)
