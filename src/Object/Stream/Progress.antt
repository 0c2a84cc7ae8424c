-- ===== src/Object/Stream/Progress.antt =====
-- Every reader of one value ends, with fewer tokens left or with an error of the program.
use filecloud.Prelude.{
  ℕ, zero, suc, ◌+◌, ◌≤◌, ◌<◌, ◌≢◌, Bool, true, false, arith, ltb, ◌==◌, if◌then◌else◌, String,
  Bool-cases, inl, inr, Option, none, some,
}
use filecloud.Prelude.Outcome.{
  Result, ok, err, failed, payload_too_large, out_of_fuel, ◌>>=◌, ◌>>◌, require,
}
use filecloud.Prelude.Int.{ℤ}
use filecloud.Object.Decimal.{parse_int}
use filecloud.Object.Stream.{
  Token, delim, text, number, Stream, eof, broken, ◌▸◌, size, more, next, at_end, enter,
  consume_one, consume_items, consume_container, consume_value, decode_container, decode_string,
  decode_int, closed_by, skip_key, key_of, int_of, refuse, max_nesting,
}

-- The run ends by itself, and what is left has fewer than `n` tokens.
abbrev pub Within : ℕ → Result Stream → Type 0
Within n (ok s) = size s < n
Within n (err e) = e ≢ out_of_fuel

abbrev pub WithinPair {ℓ} : {A : Type ℓ} → ℕ → Result (A × Stream) → Type 0
WithinPair n (ok (a, s)) = size s < n
WithinPair n (err e) = e ≢ out_of_fuel

-- An error is one of the program's.
abbrev pub Ends {ℓ} : {A : Type ℓ} → Result A → Type 0
Ends (ok a) = Unit
Ends (err e) = e ≢ out_of_fuel

pub Within-le : (m n : ℕ) (r : Result Stream) → m ≤ n → Within m r → Within n r
Within-le m n (ok s) h w = omega arith
Within-le m n (err e) h w = w

pub Within-bind :
    (m n : ℕ) (r : Result Stream) (f : Stream → Result Stream)
    → Within m r
    → ((s : Stream) → size s < m → Within n (f s))
    → Within n (r >>= f)
Within-bind m n (ok s) f w h = h s w
Within-bind m n (err e) f w h = w

pub Within-pair {ℓ} :
    {A : Type ℓ} (m n : ℕ) (r : Result (A × Stream)) (f : A × Stream → Result Stream)
    → WithinPair m r
    → ((a : A) (s : Stream) → size s < m → Within n (f (a, s)))
    → Within n (r >>= f)
Within-pair m n (ok (a, s)) f w h = h a s w
Within-pair m n (err e) f w h = w

pub Pair-Within {ℓ} :
    {B : Type ℓ} (m n : ℕ) (r : Result Stream) (f : Stream → Result (B × Stream))
    → Within m r
    → ((s : Stream) → size s < m → WithinPair n (f s))
    → WithinPair n (r >>= f)
Pair-Within m n (ok s) f w h = h s w
Pair-Within m n (err e) f w h = w

pub Pair-pair {ℓ κ} :
    {A : Type ℓ} {B : Type κ} (m n : ℕ) (r : Result (A × Stream))
    (f : A × Stream → Result (B × Stream))
    → WithinPair m r
    → ((a : A) (s : Stream) → size s < m → WithinPair n (f (a, s)))
    → WithinPair n (r >>= f)
Pair-pair m n (ok (a, s)) f w h = h a s w
Pair-pair m n (err e) f w h = w

pub Pair-unit {ℓ κ} :
    {A : Type ℓ} {B : Type κ} (n : ℕ) (r : Result A) (f : A → Result (B × Stream))
    → Ends r
    → ((a : A) → WithinPair n (f a))
    → WithinPair n (r >>= f)
Pair-unit n (ok a) f e w = w a
Pair-unit n (err x) f e w = e

pub Ends-pair {ℓ κ} :
    {A : Type ℓ} {B : Type κ} (n : ℕ) (r : Result (A × Stream)) (f : A × Stream → Result B)
    → WithinPair n r
    → ((a : A) (s : Stream) → Ends (f (a, s)))
    → Ends (r >>= f)
Ends-pair n (ok (a, s)) f w h = h a s
Ends-pair n (err e) f w h = w

pub Ends-Within {ℓ} :
    {B : Type ℓ} (n : ℕ) (r : Result Stream) (f : Stream → Result B)
    → Within n r
    → ((s : Stream) → size s < n → Ends (f s))
    → Ends (r >>= f)
Ends-Within n (ok s) f w h = h s w
Ends-Within n (err e) f w h = w

pub Pair-le {ℓ} :
    {A : Type ℓ} (m n : ℕ) (r : Result (A × Stream)) → m ≤ n → WithinPair m r → WithinPair n r
Pair-le m n (ok (a, s)) h w = omega arith
Pair-le m n (err e) h w = w

pub require-Ends : (t : Bool) (what : String) → Ends (require t (failed what))
require-Ends true what = tt
require-Ends false what = λ h. cc

pub at_end-Ends : (s : Stream) → Ends (at_end s)
at_end-Ends eof = tt
at_end-Ends (broken b) = λ h. cc
at_end-Ends (t ▸ s) = λ h. cc

pub Within-unit :
    (n : ℕ) (r : Result (Unit {0})) (k : Result Stream) → Ends r → Within n k → Within n (r >> k)
Within-unit n (ok tt) k e w = w
Within-unit n (err x) k e w = e

enter-Ends : (opening depth : ℕ) → Ends (enter opening depth)
enter-Ends opening depth = ground arith

pub next-WithinPair : (s : Stream) → WithinPair (size s) (next s)
next-WithinPair eof = λ h. cc
next-WithinPair (broken b) = λ h. cc
next-WithinPair (t ▸ s) = omega arith

closed_by-Within :
    (opening : ℕ) (t : Token) (s : Stream) → Within (suc (size s)) (closed_by opening (t, s))
closed_by-Within opening (delim c) s = ground arith
closed_by-Within opening _ s = λ h. cc

key_of-Within : (t : Token) (s : Stream) → Within (suc (size s)) (key_of (t, s))
key_of-Within (text name) s = omega arith
key_of-Within _ s = λ h. cc

skip_key-Within : (opening : ℕ) (s : Stream) → Within (suc (size s)) (skip_key opening s)
skip_key-Within opening s = elim (Bool-cases (opening == b'{')) [
  | inl e ↦ rw e (
      Within-pair (size s) (suc (size s)) (next s) key_of (next-WithinPair s)
        (λ t r h. Within-le (suc (size r)) (suc (size s)) _ (omega arith) (key_of-Within t r)))
  | inr e ↦ rw e (omega arith)
]

module _ (n : ℕ) (loop : ℕ → ℕ → Stream → Result Stream)
    (ih : (opening depth : ℕ) (s : Stream)
      → size s < n
      → Within (size s) (loop opening depth s)) where
  consume_one-Within :
      (opening depth : ℕ) (t : Token) (s : Stream)
      → size s < n
      → Within (suc (size s)) (consume_one loop opening depth (t, s))
  consume_one-Within opening depth (delim d) s h =
      Within-unit (suc (size s)) (enter d (depth + 1)) _ (enter-Ends d (depth + 1)) (
        Within-bind (size s) (suc (size s)) (loop d (depth + 1) s) _ (ih d (depth + 1) s h) (λ r k.
          Within-le (size r) (suc (size s)) _ (omega arith) (ih opening depth r (omega arith))))
  consume_one-Within opening depth _ s h =
      Within-le (size s) (suc (size s)) _ (omega arith) (ih opening depth s h)

  open_round :
      (opening depth : ℕ) (s r : Stream)
      → size s < suc n
      → size r < suc (size s)
      → Within (size s) (next r >>= consume_one loop opening depth)
  open_round opening depth s r h k =
      Within-pair (size r) (size s) (next r) _ (next-WithinPair r) (λ t q j.
        Within-le (suc (size q)) (size s) _ (omega arith)
          (consume_one-Within opening depth t q (omega arith)))

  closing_round : (opening : ℕ) (s : Stream) → Within (size s) (next s >>= closed_by opening)
  closing_round opening s =
      Within-pair (size s) (size s) (next s) (closed_by opening) (next-WithinPair s)
        (λ t r k. Within-le (suc (size r)) (size s) _ (omega arith) (closed_by-Within opening t r))

  consume_round :
      (opening depth : ℕ) (s : Stream) (b : Bool)
      → size s < suc n
      → Within (size s) (elim b [
        | false ↦ next s >>= closed_by opening
        | true ↦ skip_key opening s >>= λ s₁. next s₁ >>= consume_one loop opening depth
      ])
  consume_round opening depth s false h = closing_round opening s
  consume_round opening depth s true h =
      Within-bind (suc (size s)) (size s) (skip_key opening s) _ (skip_key-Within opening s)
        (λ r k. open_round opening depth s r h k)

consume_items-Within :
    (fuel opening depth : ℕ) (s : Stream)
    → size s < fuel
    → Within (size s) (consume_items fuel opening depth s)
unfolding consume_items
consume_items-Within zero opening depth s h = absurd (omega arith)
consume_items-Within (suc fuel) opening depth s h =
    consume_round fuel (consume_items fuel) (consume_items-Within fuel) opening depth s (more s) h

-- A container is read to its end, or refused, and never because the model's bound is too small.
pub consume_container-Within :
    (opening depth : ℕ) (s : Stream) → Within (suc (size s)) (consume_container opening depth s)
unfolding consume_container
consume_container-Within opening depth s =
    Within-unit (suc (size s)) (enter opening depth) _ (enter-Ends opening depth) (
      Within-le (size s) (suc (size s)) _ (omega arith)
        (consume_items-Within (suc (size s)) opening depth s (omega arith)))

pub consume_value-Within : (depth : ℕ) (s : Stream) → Within (size s) (consume_value depth s)
unfolding consume_value
consume_value-Within depth eof = λ h. cc
consume_value-Within depth (broken b) = λ h. cc
consume_value-Within depth (delim d ▸ s) = consume_container-Within d depth s
consume_value-Within depth (_ ▸ s) = omega arith

pub refused {ℓ} :
    (A : Type ℓ) (n : ℕ) (r : Result Stream) (what : String)
    → Within n r
    → WithinPair {A = A} n (r >>= λ _. err (failed what))
refused A n (ok s) what w = λ h. cc
refused A n (err e) what w = w

pub decode_string-WithinPair :
    (depth : ℕ) (what : String) (s : Stream) → WithinPair (size s) (decode_string depth what s)
unfolding decode_string
decode_string-WithinPair depth what eof = λ h. cc
decode_string-WithinPair depth what (broken b) = λ h. cc
decode_string-WithinPair depth what (text v ▸ s) = omega arith
decode_string-WithinPair depth what (delim d ▸ s) =
    refused _ (suc (size s)) (consume_container d depth s) what (consume_container-Within d depth s)
decode_string-WithinPair depth what (_ ▸ s) = λ h. cc

int_of-WithinPair :
    (o : Option ℤ) (what : String) (s : Stream) → WithinPair (suc (size s)) (int_of o what s)
int_of-WithinPair none what s = λ h. cc
int_of-WithinPair (some n) what s = omega arith

pub decode_int-WithinPair :
    (depth : ℕ) (what : String) (s : Stream) → WithinPair (size s) (decode_int depth what s)
unfolding decode_int
decode_int-WithinPair depth what eof = λ h. cc
decode_int-WithinPair depth what (broken b) = λ h. cc
decode_int-WithinPair depth what (number v ▸ s) = int_of-WithinPair (parse_int v) what s
decode_int-WithinPair depth what (delim d ▸ s) =
    refused _ (suc (size s)) (consume_container d depth s) what (consume_container-Within d depth s)
decode_int-WithinPair depth what (_ ▸ s) = λ h. cc

refused_here :
    (n : ℕ) (r : Result Stream) (what : String)
    → Within n r
    → Within n (r >>= λ _. err (failed what))
refused_here n (ok s) what w = λ h. cc
refused_here n (err e) what w = w

expected-Within :
    (b : Bool) (d depth : ℕ) (what : String) (s : Stream)
    → Within (suc (size s)) (
        if b
        then (if ltb max_nesting depth then err payload_too_large else ok s)
        else refuse depth (delim d, s) what)
expected-Within true d depth what s = ground arith
expected-Within false d depth what s =
    refused_here (suc (size s)) (consume_container d depth s) what
      (consume_container-Within d depth s)

pub decode_container-Within :
    (expected depth : ℕ) (what : String) (s : Stream)
    → Within (size s) (decode_container expected depth what s)
unfolding decode_container
decode_container-Within expected depth what eof = λ h. cc
decode_container-Within expected depth what (broken b) = λ h. cc
decode_container-Within expected depth what (delim d ▸ s) =
    expected-Within (d == expected) d depth what s
decode_container-Within expected depth what (_ ▸ s) = λ h. cc
