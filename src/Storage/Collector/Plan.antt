-- ===== src/Storage/Collector/Plan.antt =====
-- plan of internal/storage/gc.go, and the first part of Collect: which files are to be deleted.
pub mod Laws
pub mod Stages
use filecloud.Prelude.{
  ℕ, suc, ◌+◌, ◌*◌, Bool, true, false, not, ◌&&◌, ◌||◌, Option, none, some, List, [], ◌∷◌, ◌++◌,
  length, ltb, leb, ◌==◌, if◌then◌else◌,
}
use filecloud.Prelude.Bytes.{Bytes, codes, same, has_prefix}
use filecloud.Prelude.ByteOrder.{before}
use filecloud.Prelude.Outcome.{Error, Result, ok, err, failed, require, ◌>>=◌, ◌>>◌}
use filecloud.Object.Ids.{valid_id}
use filecloud.Storage.Objects.{Key, has, Stored, Verifier, valid_object_scope_id}
use filecloud.Storage.Collector.{Root, Marking, tick, mark_published}
use filecloud.Storage.Collector.Work.{work}

-- MinimumGarbageCollectionGracePeriod, in nanoseconds.
abbrev pub minimum_grace_period : ℕ
minimum_grace_period = 24 * 3600 * 1000000000

-- GarbageCollectionObjectStats
pub record ObjectStats : Type 0 where
  pub kind : Bytes
  pub count : ℕ
  pub bytes : ℕ

-- gcCandidate, with the parts of its path below the object directory.
pub record Candidate : Type 0 where
  pub parts : List Bytes
  pub kind : Bytes
  pub size : ℕ

-- What filepath.WalkDir hands to its function: an error, a directory, or another entry with its path
-- below the object directory and the outcome of its Info.
pub data Visit : Type 0 where
  unreadable : Error → Visit
  directory : Visit
  entry : List Bytes → Result Stored → Visit

-- `report.Objects` before the walk
abbrev pub new_report : List ObjectStats
new_report =
    record { kind = codes "blocks"; count = 0; bytes = 0 }
    ∷ record { kind = codes "files"; count = 0; bytes = 0 }
    ∷ record { kind = codes "directories"; count = 0; bytes = 0 }
    ∷ record { kind = codes "commits"; count = 0; bytes = 0 }
    ∷ []

-- `stats[kind] != nil`
abbrev pub counts_kind : Bytes → List ObjectStats → Bool
counts_kind kind [] = false
counts_kind kind (s ∷ stats) = same kind s.kind || counts_kind kind stats

-- `kindStats.Count++; kindStats.Bytes += size`
abbrev pub count_object : Bytes → ℕ → List ObjectStats → List ObjectStats
count_object kind size [] = []
count_object kind size (s ∷ stats) =
    if same kind s.kind
    then record s { count = suc s.count; bytes = s.bytes + size } ∷ stats
    else s ∷ count_object kind size stats

abbrev pub is_temporary : Bytes → Bool
is_temporary leaf = has_prefix leaf (codes ".filecloud-object-")

-- Of an entry: whether the walk goes on to ask for its Info.
abbrev pub unmarked : List Key → Bytes → Bytes → Bytes → Bytes → Bytes → Bool
unmarked marked owner library kind prefix leaf =
    if is_temporary leaf
    then true
    else if not (valid_id (prefix ++ leaf))
    then false
    else not
        (has (record { owner = owner; library = library; kind = kind; id = prefix ++ leaf }) marked)

abbrev pub is_collectable : List Key → List Bytes → Bool
is_collectable marked (owner ∷ library ∷ kind ∷ prefix ∷ leaf ∷ []) =
    valid_object_scope_id owner
    && valid_object_scope_id library
    && counts_kind kind new_report
    && length prefix == 2
    && unmarked marked owner library kind prefix leaf
is_collectable marked _ = false

abbrev pub kind_of : List Bytes → Bytes
kind_of (owner ∷ library ∷ kind ∷ rest) = kind
kind_of _ = []

-- `!info.ModTime().After(now.Add(-gracePeriod))`, without the subtraction.
abbrev pub is_expired : ℕ → ℕ → Stored → Bool
is_expired now grace f = f.regular && leb (f.modified + grace) now

abbrev pub Planned : Type 0
Planned = List Candidate × List ObjectStats

abbrev pub candidate : List Bytes → Stored → Candidate
candidate parts f = record { parts = parts; kind = kind_of parts; size = length f.content }

abbrev pub plan_candidate : List Bytes → Stored → Planned → Planned
plan_candidate parts f p =
    (p.0 ++ candidate parts f ∷ [], count_object (kind_of parts) (length f.content) p.1)

module _ (marked : List Key) (now grace : ℕ) where
  abbrev pub plan_info : List Bytes → Result Stored → Planned → Result Planned
  plan_info parts (err e) p = err (failed "stat stored object")
  plan_info parts (ok f) p = if is_expired now grace f then ok (plan_candidate parts f p) else ok p

  abbrev pub plan_entry : Visit → Planned → Result Planned
  plan_entry (unreadable e) p = err e
  plan_entry directory p = ok p
  plan_entry (entry parts info) p =
      if is_collectable marked parts then plan_info parts info p else ok p

  -- The function of the walk, on the context and on the candidates and the report so far.
  abbrev pub plan_visit : Visit → Option ℕ × Planned → Result (Option ℕ × Planned)
  plan_visit (unreadable e) (patience, p) = err e
  plan_visit visit (patience, p) =
      tick patience >>= λ left. plan_entry visit p >>= λ q. ok (left, q)

  abbrev pub plan_visits : List Visit → Option ℕ × Planned → Result (Option ℕ × Planned)
  plan_visits [] p = ok p
  plan_visits (visit ∷ visits) p = plan_visit visit p >>= plan_visits visits

-- The paths of two candidates differ where their paths below the object directory do.
abbrev pub joined : List Bytes → Bytes
joined [] = []
joined (p ∷ parts) = b'/' ∷ p ++ joined parts

abbrev pub insert_candidate : Candidate → List Candidate → List Candidate
insert_candidate c [] = c ∷ []
insert_candidate c (x ∷ xs) =
    if before (joined x.parts) (joined c.parts) then x ∷ insert_candidate c xs else c ∷ x ∷ xs

-- sort.Slice by the path.
abbrev pub sort_candidates : List Candidate → List Candidate
sort_candidates [] = []
sort_candidates (c ∷ cs) = insert_candidate c (sort_candidates cs)

unfoldable pub plan : List Key → ℕ → ℕ → List Visit → Option ℕ → Result (Option ℕ × Planned)
plan marked now grace visits patience =
    plan_visits marked now grace visits (patience, ([], new_report)) >>= λ done.
    ok (done.0, (sort_candidates done.1.0, done.1.1))

-- What os.Remove says.
pub data Removal : Type 0 where
  removed : Removal
  missing : Removal
  refused : Error → Removal

-- What the surroundings do in the deletion of a candidate: the two faults that tests inject, os.Remove,
-- and syncDirectory.
pub record Attempt : Type 0 where
  pub before_delete : Result (Unit {0})
  pub removal : Removal
  pub synced : Result (Unit {0})
  pub after_delete : Result (Unit {0})

-- GarbageCollectionOptions; `now` is none where Now is the zero time.
pub record Options : Type 0 where
  pub dry_run : Bool
  pub grace_period : ℕ
  pub now : Option ℕ

-- What a run meets: the roots that the query returns, the walk, the clock, the context and the deletions.
pub record Surroundings : Type 0 where
  pub roots : Result (List Root)
  pub visits : List Visit
  pub clock : ℕ
  pub patience : Option ℕ
  pub attempt : Candidate → Attempt

abbrev pub time_of : Options → Surroundings → ℕ
time_of o w = elim o.now [ none ↦ w.clock | some now ↦ now ]

abbrev pub unpaired : Result (Unit {0} × Marking) → Result Marking
unpaired (ok p) = ok p.1
unpaired (err e) = err e

module _ (v : Verifier) (w : Surroundings) where
  -- markPublished, with rounds enough for its loops.
  unfoldable pub mark_all_published : List Stored → Result Marking
  mark_all_published disk = w.roots >>= λ roots. unpaired (
      mark_published v disk (suc (work v disk [])) roots
        (record { marked = []; patience = w.patience }))

  unfoldable pub collection_plan : Options → List Stored → Result (Option ℕ × Planned)
  collection_plan o disk =
      require (not (ltb o.grace_period minimum_grace_period))
        (failed "gc grace period must be at least 24h")
      >> mark_all_published disk
      >>= λ m. plan m.marked (time_of o w) o.grace_period w.visits m.patience
