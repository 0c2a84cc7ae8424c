-- ===== src/Limits/HeadValidation.antt =====
-- headValidationLimiter of internal/library/head_limits.go. Every method runs under one mutex, so a
-- run is a sequence of calls.
pub mod Invariant
use filecloud.Prelude.{
  ℕ, zero, suc, ◌+◌, ◌-◌, Bool, true, false, ◌&&◌, ◌||◌, Option, none, some, List, [], ◌∷◌, leb,
  ltb, if◌then◌else◌,
}
use filecloud.Prelude.Bytes.{Bytes, same}
use filecloud.Prelude.Outcome.{Result, ok, err, failed}

-- headValidationKey
pub record Key : Type 0 where
  pub owner_id : Bytes
  pub library_id : Bytes

abbrev pub same_key : Key → Key → Bool
same_key a b = same a.owner_id b.owner_id && same a.library_id b.library_id

-- map[headValidationKey]struct{}
abbrev pub has_key : Key → List Key → Bool
has_key k [] = false
has_key k (j ∷ m) = same_key j k || has_key k m

abbrev pub delete_key : Key → List Key → List Key
delete_key k [] = []
delete_key k (j ∷ m) = if same_key j k then delete_key k m else j ∷ delete_key k m

pub record HeadLimiter : Type 0 where
  pub global_limit : ℕ
  pub global : ℕ
  pub libraries : List Key

unfoldable pub new_head_limiter : ℕ → Result HeadLimiter
new_head_limiter global_limit =
    if ltb global_limit 1
    then err (failed "head validation concurrency limit must be positive")
    else ok (record { global_limit = global_limit; global = 0; libraries = [] })

-- tryAcquire; none stands for `nil, false`, which leaves the limiter as it was.
unfoldable pub try_acquire : Key → HeadLimiter → Option HeadLimiter
try_acquire key l =
    if leb l.global_limit l.global
    then none
    else if has_key key l.libraries
    then none
    else some (record l { global = l.global + 1; libraries = key ∷ l.libraries })

-- The body of once.Do. The counter is positive there, so that `-` does not stop at 0.
unfoldable pub release : Key → HeadLimiter → HeadLimiter
release key l = record l { global = l.global - 1; libraries = delete_key key l.libraries }

-- A release closure: the key that it was made for, and whether its sync.Once is done.
pub record Lease : Type 0 where
  pub key : Key
  pub done : Bool

-- The limiter and every closure that it has handed out, the newest first.
pub record System : Type 0 where
  pub limiter : HeadLimiter
  pub leases : List Lease

abbrev pub granted : Key → System → Option HeadLimiter → System
granted key s none = s
granted key s (some l) = record {
  limiter = l;
  leases = record { key = key; done = false } ∷ s.leases;
}

-- The closure at a position: its key if this call is the first, and the closures behind the call.
abbrev pub fire : ℕ → List Lease → Option (Key × List Lease)
fire n [] = none
fire zero (x ∷ xs) = if x.done then none else some (x.key, record { key = x.key; done = true } ∷ xs)
fire (suc n) (x ∷ xs) = elim (fire n xs) [ none ↦ none | some (key, ys) ↦ some (key, x ∷ ys) ]

abbrev pub fired : System → Option (Key × List Lease) → System
fired s none = s
fired s (some (key, leases)) = record { limiter = release key s.limiter; leases = leases }

pub data Call : Type 0 where
  acquire : Key → Call
  call_release : ℕ → Call

unfoldable pub step : Call → System → System
step (acquire key) s = granted key s (try_acquire key s.limiter)
step (call_release n) s = fired s (fire n s.leases)

pub run : List Call → System → System
run [] s = s
run (c ∷ calls) s = run calls (step c s)
