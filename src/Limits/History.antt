-- ===== src/Limits/History.antt =====
-- historyLimiter of internal/library/history_limits.go. Every method runs under one mutex, so a run
-- is a sequence of calls.
pub mod Invariant
use filecloud.Prelude.{
  ℕ, zero, suc, ◌+◌, ◌-◌, Bool, true, false, ◌||◌, Option, none, some, List, [], ◌∷◌, leb, ltb,
  ◌==◌, if◌then◌else◌,
}
use filecloud.Prelude.Bytes.{Bytes, same}
use filecloud.Prelude.Outcome.{Result, ok, err, failed}

-- map[string]int: the keys that are present, each with its value.
abbrev pub Counts : Type 0
Counts = List (Bytes × ℕ)

-- `m[k]`, which is 0 for a missing key.
abbrev pub count : Bytes → Counts → ℕ
count k [] = 0
count k ((j, n) ∷ m) = if same j k then n else count k m

-- `m[k] = n`
abbrev pub set_count : Bytes → ℕ → Counts → Counts
set_count k n [] = (k, n) ∷ []
set_count k n ((j, i) ∷ m) = if same j k then (k, n) ∷ m else (j, i) ∷ set_count k n m

-- `delete(m, k)`
abbrev pub delete : Bytes → Counts → Counts
delete k [] = []
delete k ((j, i) ∷ m) = if same j k then delete k m else (j, i) ∷ delete k m

pub record HistoryLimiter : Type 0 where
  pub global_limit : ℕ
  pub user_limit : ℕ
  pub global : ℕ
  pub users : Counts

unfoldable pub new_history_limiter : ℕ → ℕ → Result HistoryLimiter
new_history_limiter global_limit user_limit =
    if ltb global_limit 1 || ltb user_limit 1
    then err (failed "history concurrency limits must be positive")
    else ok
        (record { global_limit = global_limit; user_limit = user_limit; global = 0; users = [] })

-- tryAcquire; none stands for `nil, false`, which leaves the limiter as it was.
unfoldable pub try_acquire : Bytes → HistoryLimiter → Option HistoryLimiter
try_acquire user l =
    if leb l.global_limit l.global || leb l.user_limit (count user l.users)
    then none
    else some (record l {
      global = l.global + 1;
      users = set_count user (count user l.users + 1) l.users;
    })

-- The body of once.Do. The counters are positive there, so that `-` does not stop at 0.
unfoldable pub release : Bytes → HistoryLimiter → HistoryLimiter
release user l =
    let users = set_count user (count user l.users - 1) l.users in
    record l {
      global = l.global - 1;
      users = if count user users == 0 then delete user users else users;
    }

-- A release closure: the user that it was made for, and whether its sync.Once is done.
pub record Lease : Type 0 where
  pub user : Bytes
  pub done : Bool

-- The limiter and every closure that it has handed out, the oldest first.
pub record System : Type 0 where
  pub limiter : HistoryLimiter
  pub leases : List Lease

abbrev append_lease : Lease → List Lease → List Lease
append_lease x [] = x ∷ []
append_lease x (y ∷ ys) = y ∷ append_lease x ys

abbrev pub granted : Bytes → System → Option HistoryLimiter → System
granted user s none = s
granted user s (some l) = record {
  limiter = l;
  leases = append_lease (record { user = user; done = false }) s.leases;
}

-- The closure at a position: its user if this call is the first, and the closures behind the call.
abbrev pub fire : ℕ → List Lease → Option (Bytes × List Lease)
fire n [] = none
fire zero (x ∷ xs) =
    if x.done then none else some (x.user, record { user = x.user; done = true } ∷ xs)
fire (suc n) (x ∷ xs) = elim (fire n xs) [ none ↦ none | some (user, ys) ↦ some (user, x ∷ ys) ]

abbrev pub fired : System → Option (Bytes × List Lease) → System
fired s none = s
fired s (some (user, leases)) = record { limiter = release user s.limiter; leases = leases }

pub data Call : Type 0 where
  acquire : Bytes → Call
  call_release : ℕ → Call

unfoldable pub step : Call → System → System
step (acquire user) s = granted user s (try_acquire user s.limiter)
step (call_release n) s = fired s (fire n s.leases)

pub run : List Call → System → System
run [] s = s
run (c ∷ calls) s = run calls (step c s)
