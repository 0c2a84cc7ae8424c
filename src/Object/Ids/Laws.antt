-- ===== src/Object/Ids/Laws.antt =====
-- What ValidID accepts, and that it accepts every ID.
use filecloud.Prelude.{
  ℕ, zero, suc, ◌+◌, ◌-◌, ◌*◌, ◌/◌, ◌%◌, ◌≤◌, ◌<◌, ◌≡◌, refl, ◌⊎◌, ◌↔◌, inl, inr, Bool, true, false,
  not, ◌||◌, Option, none, some, [], ◌∷◌, arith, ◌==◌, if◌then◌else◌, length, All, &&-true, ==_iff,
}
use filecloud.Prelude.Bytes.{Bytes, same}
use filecloud.Object.Text.{
  lower, to_lower, hex_decode, hex_encode, hex_value, hex_digit, pair_value,
}
use filecloud.Object.Ids.{id, valid_id, decodes}

-- A digit 0-9 or a letter a-f.
abbrev pub IsLowerHex : ℕ → Type 0
IsLowerHex c = ((b'0' ≤ c) × (c ≤ b'9')) ⊎ ((b'a' ≤ c) × (c ≤ b'f'))

lower_digit : (c x : ℕ) → hex_value c ≡ some x → (lower c == c) ≡ true → IsLowerHex c
lower_digit c x h k = ground arith

digit_lower : (c : ℕ) → IsLowerHex c → (lower c == c) ≡ true
digit_lower c h = ground arith

digit_value : (c : ℕ) → IsLowerHex c → (x : ℕ) × (hex_value c ≡ some x)
digit_value c (inl (a, b)) = (c - b'0', ground arith)
digit_value c (inr (a, b)) = (c - b'a' + 10, ground arith)

decodes_pair :
    (x y : Option ℕ) (rest : Option Bytes)
    → decodes (pair_value x y rest) ≡ true
    → (m : ℕ) × (n : ℕ) × (x ≡ some m) × (y ≡ some n) × (decodes rest ≡ true)
decodes_pair (some m) (some n) (some rest) h = (m, n, refl, refl, refl)
decodes_pair _ _ _ h = cc

decodes_sound :
    (s : Bytes) → decodes (hex_decode s) ≡ true → same (to_lower s) s ≡ true → All IsLowerHex s
decodes_sound [] h k = tt
decodes_sound (a ∷ []) h k = cc
decodes_sound (a ∷ b ∷ s) h k =
    let (m, n, ea, eb, rest) = decodes_pair (hex_value a) (hex_value b) (hex_decode s) h in
    let (ka, k') = &&-true (lower a == a) _ k in
    let (kb, ks) = &&-true (lower b == b) (same (to_lower s) s) k' in
    (lower_digit a m ea ka, (lower_digit b n eb kb, decodes_sound s rest ks))

pair_decodes :
    (x y : Option ℕ) (rest : Option Bytes) (m n : ℕ)
    → x ≡ some m
    → y ≡ some n
    → decodes rest ≡ true
    → decodes (pair_value x y rest) ≡ true
pair_decodes x y (some r) m n ex ey h = rw (ex, ey)
pair_decodes x y none m n ex ey h = cc

decodes_complete :
    (k : ℕ) (s : Bytes) → length s ≡ 2 * k → All IsLowerHex s → decodes (hex_decode s) ≡ true
decodes_complete k [] e h = refl
decodes_complete k (a ∷ []) e h = absurd (omega arith)
decodes_complete zero (a ∷ b ∷ s) e h = absurd (omega arith)
decodes_complete (suc k) (a ∷ b ∷ s) e (ha, (hb, hs)) =
    let (m, ea) = digit_value a ha in
    let (n, eb) = digit_value b hb in
    pair_decodes (hex_value a) (hex_value b) (hex_decode s) m n ea eb
      (decodes_complete k s (omega arith) hs)

lower-same : (s : Bytes) → All IsLowerHex s → same (to_lower s) s ≡ true
lower-same [] h = refl
lower-same (c ∷ s) (hc, hs) = ground (arith, digit_lower c hc, lower-same s hs)

-- The shape of the test in ValidID.
guarded_iff :
    (a b c : Bool)
    → ((if not a || not b then false else c) ≡ true) ↔ ((a ≡ true) × (b ≡ true) × (c ≡ true))
guarded_iff a b c = ground arith

-- ValidID accepts exactly the texts of 64 lowercase hexadecimal digits.
pub valid_id_iff :
    (value : Bytes) → (valid_id value ≡ true) ↔ ((length value ≡ 64) × All IsLowerHex value)
unfolding valid_id
valid_id_iff value = (sound, complete)
  where
    parts : (valid_id value ≡ true) ↔ (
        ((length value == 64) ≡ true)
        × (same (to_lower value) value ≡ true)
        × (decodes (hex_decode value) ≡ true))
    parts =
        guarded_iff (length value == 64) (same (to_lower value) value) (decodes (hex_decode value))

    sound : valid_id value ≡ true → (length value ≡ 64) × All IsLowerHex value
    sound h = let (n, l, d) = parts.0 h in ((==_iff (length value) 64).0 n, decodes_sound value d l)

    complete : (length value ≡ 64) × All IsLowerHex value → valid_id value ≡ true
    complete (n, h) = parts.1 (
      (==_iff (length value) 64).1 n,
      lower-same value h,
      decodes_complete 32 value (omega arith) h,
    )

IsLowerHex-digit : (d : ℕ) → d < 16 → IsLowerHex (hex_digit d)
IsLowerHex-digit d h = ground arith

IsLowerHex-encode : (s : Bytes) → All (λ b. b < 256) s → All IsLowerHex (hex_encode s)
IsLowerHex-encode [] h = tt
IsLowerHex-encode (b ∷ s) (hb, hs) = (
  IsLowerHex-digit (b / 16) (omega arith),
  (IsLowerHex-digit (b % 16) (omega arith), IsLowerHex-encode s hs),
)

length-encode : (s : Bytes) → length (hex_encode s) ≡ 2 * length s
length-encode [] = refl
length-encode (b ∷ s) = omega (arith, length-encode s)

-- What crypto/sha256 promises: a digest is 32 bytes.
pub record IsDigest (sha256 : Bytes → Bytes) : Type 0 where
  pub size : (s : Bytes) → length (sha256 s) ≡ 32
  pub bytes : (s : Bytes) → All (λ b. b < 256) (sha256 s)

-- The identity of any content is valid, where a digest is 32 bytes.
pub valid_id-id :
    (sha256 : Bytes → Bytes)
    → IsDigest sha256
    → (content : Bytes) → valid_id (id sha256 content) ≡ true
unfolding id
valid_id-id sha256 digest content = (valid_id_iff (hex_encode (sha256 content))).1 (
  omega (arith, length-encode (sha256 content), digest.size content),
  IsLowerHex-encode (sha256 content) (digest.bytes content),
)
