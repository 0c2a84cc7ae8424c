-- ===== src/Head/State.antt =====
-- validationState: the budgets, the caches and the missing objects of one validation.
use filecloud.Prelude.{
  ℕ, suc, Bool, true, not, Option, none, some, List, [], ◌∷◌, ◌++◌, length, take, ltb, ◌==◌,
  if◌then◌else◌,
}
use filecloud.Prelude.Bytes.{Bytes, codes, same}
use filecloud.Prelude.Sets.{ByteSet, member, add}
use filecloud.Prelude.Outcome.{Error, Result, ok, err, payload_too_large, corrupt_object}
use filecloud.Prelude.Action.{Action, pure, lift, gets, modify, guard, ◌>>=◌, ◌>>◌}
use filecloud.Object.Values.{Directory, CommitObject}
use filecloud.Storage.Objects.{Verifier}
use filecloud.Storage.Collector.{tick}

-- The limits of the normalized configuration, which are positive.
pub record Limits : Type 0 where
  pub max_snapshot_depth : ℕ
  pub max_contexts : ℕ
  pub max_commit_depth : ℕ
  pub max_introduced : ℕ
  pub max_objects : ℕ

-- What GetObject opens: the size of the file, the bytes that reading it yields and the error that
-- reading ends in behind them, and the error of Close.
pub record Opened : Type 0 where
  pub size : ℕ
  pub content : Bytes
  pub failure : Option Error
  pub closing : Option Error

-- The library's objects: none stands for ErrObjectNotFound. `digest` is the identity of a content.
pub record Store : Type 0 where
  pub verifier : Verifier
  pub get_object : Bytes → Bytes → Result (Option Opened)
  pub digest : Bytes → Bytes

-- missingObjects
pub record Missing : Type 0 where
  pub ids : List Bytes
  pub seen : ByteSet
  pub truncated : Bool

-- A Go map by identity, whose values say whether the object was found.
abbrev pub Cache : Type 0 → Type 0
Cache A = List (Bytes × Option A)

abbrev pub cached : {A : Type 0} → Bytes → Cache A → Option (Option A)
cached id [] = none
cached id ((k, found) ∷ cache) = if same k id then some found else cached id cache

pub record State : Type 0 where
  pub patience : Option ℕ
  pub missing : Missing
  pub planned : ByteSet
  pub commits : Cache CommitObject
  pub directories : Cache Directory
  pub files : ByteSet
  pub blocks : Cache ℕ
  pub contexts : ℕ

abbrev pub max_missing : ℕ
max_missing = 100

abbrev pub add_missing : Bytes → Missing → Missing
add_missing id m = if member id m.seen then m else record {
  seen = add id m.seen;
  ids = if ltb (length m.ids) max_missing then m.ids ++ id ∷ [] else m.ids;
  truncated = if ltb (length m.ids) max_missing then m.truncated else true;
}

abbrev pub note_missing : Bytes → Action State (Unit {0})
note_missing id = modify (λ s. record s { missing = add_missing id s.missing })

-- `r.Context().Err()`
unfoldable pub check_context : Action State (Unit {0})
check_context = gets (λ s. tick s.patience) >>= λ test.
    lift test >>= λ left. modify (λ s. record s { patience = left })

module _ (limits : Limits) where
  unfoldable pub add_context : Action State (Unit {0})
  add_context = do
    check_context
    full ← gets (λ s. s.contexts == limits.max_contexts)
    guard (not full) payload_too_large
    modify (λ s. record s { contexts = suc s.contexts })

  abbrev pub plan_key : Bytes → Bytes → Bytes
  plan_key kind id = kind ++ codes "/" ++ id

  unfoldable pub plan_new : Bytes → Action State (Unit {0})
  plan_new key = do
    full ← gets (λ s. length s.planned == limits.max_objects)
    guard (not full) payload_too_large
    modify (λ s. record s { planned = add key s.planned })

  unfoldable pub plan : Bytes → Bytes → Action State (Unit {0})
  plan kind id = do
    check_context
    known ← gets (λ s. member (plan_key kind id) s.planned)
    if known then pure tt else plan_new (plan_key kind id)

abbrev pub unless_failed : Option Error → Result Bytes → Result Bytes
unless_failed none content = content
unless_failed (some e) content = err e

-- io.ReadAll of the first `maximum + 1` bytes: an error behind them is not met.
abbrev pub limited_content : ℕ → Opened → Result Bytes
limited_content maximum file =
    if ltb maximum (length file.content)
    then ok (take (suc maximum) file.content)
    else unless_failed file.failure (ok file.content)

-- io.Copy of the whole file, and Close.
abbrev pub block_content : Opened → Result Bytes
block_content file = unless_failed file.failure (unless_failed file.closing (ok file.content))

module _ (store : Store) where
  -- The test of the size behind the reading.
  abbrev pub sized_content : ℕ → Result Bytes → Result (Option Bytes)
  sized_content size (err e) = err e
  sized_content size (ok content) =
      if not (length content == size) then err corrupt_object else ok (some content)

  abbrev pub opened_content : ℕ → Result (Option Opened) → Result (Option Bytes)
  opened_content maximum (err e) = err e
  opened_content maximum (ok none) = ok none
  opened_content maximum (ok (some file)) =
      if ltb maximum file.size
      then err corrupt_object
      else sized_content file.size (limited_content maximum file)

  unfoldable pub read_metadata : Bytes → Bytes → ℕ → Result (Option Bytes)
  read_metadata kind id maximum = opened_content maximum (store.get_object kind id)
