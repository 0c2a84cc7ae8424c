-- ===== src/Head/Reading.antt =====
-- What readMetadata and the loop over the blocks read of an object ends in an error of the program.
use filecloud.Prelude.{
  ℕ, ◌≡◌, ◌≢◌, refl, subst, Option, none, some, length, ltb, arith, length, ltb, if◌then◌else◌,
  Bool-cases, inl, inr,
}
use filecloud.Prelude.Bytes.{Bytes}
use filecloud.Prelude.Outcome.{Error, Result, ok, err, corrupt_object, out_of_fuel}
use filecloud.Head.State.{
  limited_content, block_content, unless_failed, Opened, Store, sized_content, opened_content,
}
use filecloud.Head.Snapshot.{or_corrupt, checked_block}

-- No call of the store ends in the model's own error.
pub record IsTotalStore (store : Store) : Type 0 where
  pub get_object : (kind id : Bytes) → store.get_object kind id ≢ err out_of_fuel
  pub reading :
      (kind id : Bytes) (o : Opened)
      → store.get_object kind id ≡ ok (some o)
      → (o.failure ≢ some out_of_fuel) × (o.closing ≢ some out_of_fuel)

pub or_corrupt-ends : {A : Type 0} (r : Result A) → or_corrupt r ≢ err out_of_fuel
or_corrupt-ends (ok a) h = cc
or_corrupt-ends (err e) h = cc

unless_failed-ends :
    (failure : Option Error) (r : Result Bytes)
    → failure ≢ some out_of_fuel
    → r ≢ err out_of_fuel
    → unless_failed failure r ≢ err out_of_fuel
unless_failed-ends none r n k h = k h
unless_failed-ends (some e) r n k h = n (cc h)

ok_content : (content : Bytes) → ◌≢◌ {A = Result Bytes} (ok content) (err out_of_fuel)
ok_content content h = cc

limited_content-ends :
    (maximum : ℕ) (o : Opened)
    → o.failure ≢ some out_of_fuel
    → limited_content maximum o ≢ err out_of_fuel
limited_content-ends maximum o n = elim (Bool-cases (ltb maximum (length o.content))) [
  | inl e ↦ rw e (ok_content _)
  | inr e ↦ rw e (unless_failed-ends o.failure (ok o.content) n (ok_content o.content))
]

pub block_content-ends :
    (o : Opened)
    → (o.failure ≢ some out_of_fuel) × (o.closing ≢ some out_of_fuel)
    → block_content o ≢ err out_of_fuel
block_content-ends o n =
    unless_failed-ends o.failure _ n.0 (unless_failed-ends o.closing _ n.1 (ok_content o.content))

sized_content-ends :
    (store : Store) (size : ℕ) (r : Result Bytes)
    → r ≢ err out_of_fuel
    → sized_content store size r ≢ err out_of_fuel
sized_content-ends store size (err e) n h = n cc
sized_content-ends store size (ok content) n h = ground (arith, h)

pub opened_content-ends :
    (store : Store) (maximum : ℕ) (r : Result (Option Opened))
    → r ≢ err out_of_fuel
    → ((o : Opened) → r ≡ ok (some o) → o.failure ≢ some out_of_fuel)
    → opened_content store maximum r ≢ err out_of_fuel
opened_content-ends store maximum (err e) n k h = n cc
opened_content-ends store maximum (ok none) n k h = cc
opened_content-ends store maximum (ok (some o)) n k h = elim (Bool-cases (ltb maximum o.size)) [
  | inl e ↦ ground (arith, e, h)
  | inr e ↦
      sized_content-ends store o.size (limited_content maximum o)
        (limited_content-ends maximum o (k o refl))
        (subst
          (λ b.
            (if b
              then err corrupt_object
              else sized_content store o.size (limited_content maximum o))
            ≡ err out_of_fuel)
          e h)
]

pub checked_block-ends :
    (store : Store) (id : Bytes) (size : ℕ) (r : Result Bytes)
    → r ≢ err out_of_fuel
    → checked_block store id size r ≢ err out_of_fuel
checked_block-ends store id size (err e) n h = n cc
checked_block-ends store id size (ok content) n h = ground (arith, h)
