-- ===== src/Head/Etag/Laws.antt =====
-- Which header reads which version.
use filecloud.Prelude.{
  ℕ, ◌^◌, ◌<◌, ◌≡◌, ◌↔◌, refl, ap, sym, ◌∙◌, subst, true, false, ◌||◌, Option, none, some, List, [],
  ◌∷◌, ◌++◌, arith, length, ◌==◌, Bool-cases, inl, inr, &&-true,
}
use filecloud.Prelude.Bytes.{Bytes, same, same→eq, same_refl, has_prefix, ends_with, contains_byte}
use filecloud.Prelude.Int.{ℤ, pos, negsuc}
use filecloud.Object.Decimal.{format, parse_int, leading_zero}
use filecloud.Object.Decimal.RoundTrip.{
  parse_int-format, leading_zero-format, format-nil, contains_byte-format,
}
use filecloud.Head.Etag.{
  etag_prefix, head_etag, skip, without_last, printed_version, parse_version, parse_head_etag,
}

head_eq : (a b : ℕ) (s t : Bytes) → (a == b) ≡ true → s ≡ t → a ∷ s ≡ b ∷ t
head_eq a b s t e h = ground (arith, e, h)

has_prefix-skip : (s p : Bytes) → has_prefix s p ≡ true → s ≡ p ++ skip (length p) s
has_prefix-skip s [] h = refl
has_prefix-skip [] (c ∷ p) h = cc
has_prefix-skip (d ∷ s) (c ∷ p) h =
    let (e, k) = &&-true (d == c) (has_prefix s p) h in head_eq d c s _ e (has_prefix-skip s p k)

ends_with-without_last : (s : Bytes) (b : ℕ) → ends_with s b ≡ true → s ≡ without_last s ++ b ∷ []
ends_with-without_last [] b h = cc
ends_with-without_last (c ∷ []) b h = head_eq c b [] [] h refl
ends_with-without_last (c ∷ d ∷ s) b h = ap (λ x. c ∷ x) (ends_with-without_last (d ∷ s) b h)

ends_with-snoc : (s : Bytes) (b : ℕ) → ends_with (s ++ b ∷ []) b ≡ true
ends_with-snoc [] b = ground arith
ends_with-snoc (c ∷ []) b = ground arith
ends_with-snoc (c ∷ d ∷ s) b = ends_with-snoc (d ∷ s) b

without_last-snoc : (s : Bytes) (b : ℕ) → without_last (s ++ b ∷ []) ≡ s
without_last-snoc [] b = refl
without_last-snoc (c ∷ []) b = refl
without_last-snoc (c ∷ d ∷ s) b = ap (λ x. c ∷ x) (without_last-snoc (d ∷ s) b)

contains_byte-append :
    (s t : Bytes) (b : ℕ)
    → contains_byte t b ≡ false
    → contains_byte s b ≡ false
    → contains_byte (s ++ t) b ≡ false
contains_byte-append [] t b h k = h
contains_byte-append (c ∷ s) t b h k = elim (Bool-cases (c == b)) [
  | inl e ↦ absurd (ground (arith, e, k))
  | inr e ↦ ground (arith, e, contains_byte-append s t b h (rw e at k))
]

printed_version_sound :
    (number : Bytes) (r : Option ℤ) (v : ℕ) → printed_version number r ≡ some v → number ≡ format v
printed_version_sound number none v h = cc
printed_version_sound number (some (negsuc n)) v h = cc
printed_version_sound number (some (pos n)) v h = elim (Bool-cases (same (format n) number)) [
  | inl e ↦ sym (same→eq (format n) number e) ∙ ap format (ground (arith, e, h))
  | inr e ↦ absurd (ground (arith, e, h))
]

parse_version_sound : (number : Bytes) (v : ℕ) → parse_version number ≡ some v → number ≡ format v
parse_version_sound number v h = elim (Bool-cases (same number [] || leading_zero number)) [
  | inl bad ↦ let h' = (rw bad at h) in cc
  | inr good ↦ printed_version_sound number (parse_int number) v (rw good at h)
]

parse_version-format : (v : ℕ) → v < 2 ^ 63 → parse_version (format v) ≡ some v
parse_version-format v fits =
    rw (format-nil v, leading_zero-format v, parse_int-format v fits, same_refl (format v)) refl

-- A value with the prefix and the quote, around what stands between them.
between :
    (rest : Bytes)
    → ends_with (etag_prefix ++ rest) b'"' ≡ true
    → rest ≡ without_last rest ++ b'"' ∷ []
between [] h = cc
between (c ∷ s) h = ends_with-without_last (c ∷ s) b'"' h

parse_head_etag_sound :
    (value : Bytes) (v : ℕ) → parse_head_etag (value ∷ []) ≡ some v → value ≡ head_etag v
parse_head_etag_sound value v h = elim (Bool-cases (has_prefix value etag_prefix)) [
  | inr e ↦ let h' = (rw e at h) in cc
  | inl e ↦ elim (Bool-cases (ends_with value b'"')) [
    | inr f ↦ let h' = (rw (e, f) at h) in cc
    | inl f ↦ elim (Bool-cases (contains_byte value b',')) [
      | inl g ↦ let h' = (rw (e, f, g) at h) in cc
      | inr g ↦
          let rest = skip (length etag_prefix) value in
          let whole : value ≡ etag_prefix ++ rest = has_prefix-skip value etag_prefix e in
          let number : without_last rest ≡ format v =
            parse_version_sound (without_last rest) v (rw (e, f, g) at h) in
          let tail : rest ≡ without_last rest ++ b'"' ∷ [] =
            between rest (subst (λ x. ends_with x b'"' ≡ true) whole f) in
          whole ∙ ap (λ x. etag_prefix ++ x) (tail ∙ ap (λ x. x ++ b'"' ∷ []) number)
    ]
  ]
]

parse_head_etag_complete : (v : ℕ) → v < 2 ^ 63 → parse_head_etag (head_etag v ∷ []) ≡ some v
parse_head_etag_complete v fits =
    rw
      (
        ends_with-snoc (etag_prefix ++ format v) b'"',
        contains_byte-append (format v) (b'"' ∷ []) b',' refl
            (contains_byte-format v b',' (omega arith)),
        without_last-snoc (format v) b'"',
      )
      (parse_version-format v fits)

-- For a version below 2 ^ 63, parseHeadETag returns it exactly where the header has one value and
-- that is the entity tag of the version.
pub parse_head_etag_iff :
    (values : List Bytes) (v : ℕ)
    → v < 2 ^ 63
    → (parse_head_etag values ≡ some v) ↔ (values ≡ head_etag v ∷ [])
parse_head_etag_iff values v fits = (
  sound values,
  λ e. subst (λ x. parse_head_etag x ≡ some v) (sym e) (parse_head_etag_complete v fits),
)
  where
    sound : (values : List Bytes) → parse_head_etag values ≡ some v → values ≡ head_etag v ∷ []
    sound [] h = cc
    sound (value ∷ []) h = ap (λ x. x ∷ []) (parse_head_etag_sound value v h)
    sound (value ∷ w ∷ values) h = cc
