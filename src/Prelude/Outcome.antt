-- ===== src/Prelude/Outcome.antt =====
-- Go's pairs (value, error). A sentinel error that callers test by errors.Is has a constructor of
-- its own, which fmt.Errorf with %w and errors.Join keep; the others carry their message.
use Prim.Native.String.{String}
use mathlib.Core.Path.{◌≡◌, refl}
use mathlib.Core.Logic.{◌≢◌}
use mathlib.Core.Bool.{Bool, true, false}

pub data Error : Type 0 where
  payload_too_large : Error
  path_needs_fallback : Error
  source_path_not_found : Error
  failed : String → Error
  canceled : Error
  invalid_snapshot : Error
  corrupt_object : Error
  head_conflict : Error
  upload_rate_limited : Error
  upload_unavailable : Error
  -- not an error of the program: the model's recursion bound was too small
  out_of_fuel : Error

pub data Result {ℓ} (A : Type ℓ) : Type ℓ where
  ok : A → Result A
  err : Error → Result A

-- `if !test { return e }`
abbrev pub require : Bool → Error → Result (Unit {0})
require false reason = err reason
require true reason = ok tt

-- `if err != nil { return err }` behind a call.
infixl 5 ◌>>=◌
abbrev pub ◌>>=◌ {ℓ κ} : {A : Type ℓ} {B : Type κ} → Result A → (A → Result B) → Result B
err reason >>= next = err reason
ok value >>= next = next value

infixl 5 ◌>>◌
abbrev pub ◌>>◌ {ℓ} : {B : Type ℓ} → Result (Unit {0}) → Result B → Result B
first >> second = first >>= λ _. second

pub require-ok {ℓ} :
    {B : Type ℓ} (t : Bool) (e : Error) (k : Result B) {b : B}
    → (require t e >> k) ≡ ok b
    → (t ≡ true) × (k ≡ ok b)
require-ok true e k h = (refl, h)
require-ok false e k h = cc

-- What a success of a chain tells of its first part.
pub >>=-eq-ok {ℓ κ} :
    {A : Type ℓ} {B : Type κ} (first : Result A) (next : A → Result B) {result : B}
    → (first >>= next) ≡ ok result
    → (value : A) × (first ≡ ok value) × (next value ≡ ok result)
>>=-eq-ok (err reason) next done = cc
>>=-eq-ok (ok value) next done = (value, refl, done)

-- A chain of which no part runs out of fuel.
pub >>=-ends {ℓ κ} :
    {A : Type ℓ} {B : Type κ} (first : Result A) (next : A → Result B)
    → first ≢ err out_of_fuel
    → ((value : A) → next value ≢ err out_of_fuel)
    → (first >>= next) ≢ err out_of_fuel
>>=-ends (ok value) next n k h = k value h
>>=-ends (err reason) next n k h = n cc
