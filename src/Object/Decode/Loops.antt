-- ===== src/Object/Decode/Loops.antt =====
-- The loops over the fields of an object and over the items of an array end.
use filecloud.Prelude.{
  ℕ, zero, suc, ◌<◌, Bool, true, false, List, [], ◌∷◌, ◌++◌, arith, ◌==◌, if◌then◌else◌, String,
  length,
}
use filecloud.Prelude.Bytes.{Bytes}
use filecloud.Prelude.Sets.{ByteSet, add}
use filecloud.Prelude.Outcome.{Result, ok, err, failed, payload_too_large, ◌>>=◌, require}
use filecloud.Object.Stream.{Token, delim, text, Stream, size, more, next, decode_container}
use filecloud.Object.Stream.Progress.{
  Within, WithinPair, Within-le, Pair-Within, Pair-pair, Pair-unit, Pair-le, Within-pair,
  require-Ends, next-WithinPair, decode_container-Within,
}
use filecloud.Object.Decode.{
  Fields, new_field, fields_from, items_from, is_delim, closed, decode_object, decode_array,
}

pub new_field-WithinPair :
    (seen : ByteSet) (t : Token) (s : Stream) → WithinPair (suc (size s)) (new_field seen (t, s))
new_field-WithinPair seen (text name) s = ground arith
new_field-WithinPair seen _ s = λ h. cc

pub is_delim-Within :
    (c : ℕ) (what : String) (t : Token) (s : Stream)
    → Within (suc (size s)) (is_delim c what (t, s))
is_delim-Within c what (delim d) s = ground arith
is_delim-Within c what _ s = λ h. cc

-- A field's reader gives back no more tokens than it was given, or an error of the program.
abbrev pub IsReader {ℓ} : {V : Type ℓ} → (Bytes → V → Stream → Result (V × Stream)) → Type ℓ
IsReader {V = V} field =
    (name : Bytes) (value : V) (s : Stream) → WithinPair (suc (size s)) (field name value s)

module _ {ℓ} {V : Type ℓ} (field : Bytes → V → Stream → Result (V × Stream))
    (reads : IsReader field) where
  fields_round :
      (fuel : ℕ) (r : Fields V) (s : Stream) (b : Bool)
      → size s < suc fuel
      → ((r : Fields V) (s : Stream)
          → size s < fuel
          → WithinPair (suc (size s)) (fields_from field fuel r s))
      → WithinPair (suc (size s)) (elim b [
        | false ↦ ok (r, s)
        | true ↦ next s >>= new_field r.seen >>= λ (name, s₁).
            field name r.value s₁ >>= λ (value, s₂).
            fields_from field fuel (record { seen = add name r.seen; value = value }) s₂
      ])
  fields_round fuel r s false h ih = omega arith
  fields_round fuel r s true h ih =
      Pair-pair (size s) (suc (size s)) (next s >>= new_field r.seen) _ name_read (λ name s₁ k.
        Pair-pair (suc (size s₁)) (suc (size s)) (field name r.value s₁) _ (reads name r.value s₁)
          (λ value s₂ j.
            Pair-le (suc (size s₂)) (suc (size s)) _ (omega arith) (ih _ s₂ (omega arith))))
    where
      name_read : WithinPair (size s) (next s >>= new_field r.seen)
      name_read = Pair-pair (size s) (size s) (next s) _ (next-WithinPair s) (λ t s₁ k.
          Pair-le (suc (size s₁)) (size s) _ (omega arith) (new_field-WithinPair r.seen t s₁))

  pub fields_from-WithinPair :
      (fuel : ℕ) (r : Fields V) (s : Stream)
      → size s < fuel
      → WithinPair (suc (size s)) (fields_from field fuel r s)
  unfolding fields_from
  fields_from-WithinPair zero r s h = absurd (omega arith)
  fields_from-WithinPair (suc fuel) r s h =
      fields_round fuel r s (more s) h (fields_from-WithinPair fuel)

  closed-WithinPair :
      (count : ℕ) (what : String) (r : Fields V) (s : Stream)
      → WithinPair (size s) (closed count what (r, s))
  closed-WithinPair count what r s =
      Pair-Within (size s) (size s) (next s >>= is_delim b'}' what) _
        (Within-pair (size s) (size s) (next s) _ (next-WithinPair s) (λ t q k.
          Within-le (suc (size q)) (size s) _ (omega arith) (is_delim-Within b'}' what t q)))
        (λ q k.
          Pair-unit (size s) (require (length r.seen == count) (failed what)) _
            (require-Ends (length r.seen == count) what) (λ _. k))

  pub decode_object-WithinPair :
      (depth count : ℕ) (what : String) (start : V) (s : Stream)
      → WithinPair (size s) (decode_object field depth count what start s)
  unfolding decode_object
  decode_object-WithinPair depth count what start s =
      Pair-Within (size s) (size s) (decode_container b'{' depth what s) _
        (decode_container-Within b'{' depth what s)
        (λ s₁ k.
          Pair-pair (suc (size s₁)) (size s) _ _
            (fields_from-WithinPair (suc (size s₁)) _ s₁ (omega arith))
            (λ r s₂ j.
              Pair-le (size s₂) (size s) _ (omega arith) (closed-WithinPair count what r s₂)))

module _ {ℓ} {A : Type ℓ} (limit : ℕ) (item : Stream → Result (A × Stream))
    (reads : (s : Stream) → WithinPair (size s) (item s)) where
  items_round :
      (fuel : ℕ) (items : List A) (s : Stream) (b full : Bool)
      → size s < suc fuel
      → ((items : List A) (s : Stream)
          → size s < fuel
          → WithinPair (suc (size s)) (items_from limit item fuel items s))
      → WithinPair (suc (size s)) (elim b [
        | false ↦ ok (items, s)
        | true ↦
            if full
            then err payload_too_large
            else item s >>= λ (a, s₁). items_from limit item fuel (items ++ a ∷ []) s₁
      ])
  items_round fuel items s false full h ih = omega arith
  items_round fuel items s true true h ih = λ e. cc
  items_round fuel items s true false h ih =
      Pair-pair (size s) (suc (size s)) (item s) _ (reads s) (λ a s₁ k.
        Pair-le (suc (size s₁)) (suc (size s)) _ (omega arith)
          (ih (items ++ a ∷ []) s₁ (omega arith)))

  items_from-WithinPair :
      (fuel : ℕ) (items : List A) (s : Stream)
      → size s < fuel
      → WithinPair (suc (size s)) (items_from limit item fuel items s)
  unfolding items_from
  items_from-WithinPair zero items s h = absurd (omega arith)
  items_from-WithinPair (suc fuel) items s h =
      items_round fuel items s (more s) (length items == limit) h (items_from-WithinPair fuel)

  pub decode_array-WithinPair :
      (depth : ℕ) (what : String) (s : Stream)
      → WithinPair (size s) (decode_array limit item depth what s)
  unfolding decode_array
  decode_array-WithinPair depth what s =
      Pair-Within (size s) (size s) (decode_container b'[' depth what s) _
        (decode_container-Within b'[' depth what s)
        (λ s₁ k.
          Pair-pair (suc (size s₁)) (size s) _ _
            (items_from-WithinPair (suc (size s₁)) [] s₁ (omega arith))
            (λ items s₂ j.
              Pair-Within (size s₂) (size s) (next s₂ >>= is_delim b']' what) _
                (Within-pair (size s₂) (size s₂) (next s₂) _ (next-WithinPair s₂) (λ t q m.
                  Within-le (suc (size q)) (size s₂) _ (omega arith)
                    (is_delim-Within b']' what t q)))
                (λ q m. omega arith)))
