-- ===== src/Object/Names/Laws.antt =====
-- What validName and ValidPath promise to the code that writes names to a file system.
use filecloud.Prelude.{
  ℕ, ◌+◌, ◌≤◌, ◌<◌, ◌≡◌, ◌≢◌, ◌↔◌, ◌⊎◌, inl, inr, refl, Bool, true, false, not, ◌||◌, List, [], ◌∷◌,
  arith, ltb, if◌then◌else◌, length, any, All, Bool-cases, ||-false,
}
use filecloud.Prelude.Bytes.{
  Bytes, codes, same, same_iff, has_prefix, ends_with, before_byte, split,
}
use filecloud.Object.Text.{Unicode, to_upper, valid_utf8}
use filecloud.Object.Names.{
  max_path_depth, max_path_bytes, bad_char, bad_form, reserved, valid_name, valid_components,
  valid_path,
}

-- No control character, and none of the characters that a file system of the three reserves.
abbrev pub IsPlain : ℕ → Type 0
IsPlain c =
    (31 < c)
    × (c ≢ b'<')
    × (c ≢ b'>')
    × (c ≢ b':')
    × (c ≢ b'"')
    × (c ≢ b'/')
    × (c ≢ b'\\')
    × (c ≢ b'|')
    × (c ≢ b'?')
    × (c ≢ b'*')

IsPlain-of_good : (c : ℕ) → bad_char c ≡ false → IsPlain c
unfolding bad_char
IsPlain-of_good c h = ground arith

All-IsPlain : (s : Bytes) → any bad_char s ≡ false → All IsPlain s
All-IsPlain [] h = tt
All-IsPlain (c ∷ s) h =
    let (hc, hs) = ||-false (bad_char c) (any bad_char s) h in
    (IsPlain-of_good c hc, All-IsPlain s hs)

pub record IsSafeName (u : Unicode) (name : Bytes) : Type 0 where
  pub nonempty : name ≢ []
  pub normal : name ≡ u.nfc name
  pub short : length name ≤ 240
  pub not_dot : name ≢ codes "."
  pub not_dot_dot : name ≢ codes ".."
  pub not_internal : has_prefix name (codes ".filecloud-internal-") ≡ false
  pub not_trailing_space : ends_with name b' ' ≡ false
  pub not_trailing_dot : ends_with name b'.' ≡ false
  pub plain : All IsPlain name
  pub not_device : reserved (to_upper (before_byte b'.' name)) ≡ false

ne_of_same : (a b : Bytes) → same a b ≡ false → a ≢ b
ne_of_same a b h e = cc ((same_iff a b).1 e)

form_parts :
    (a b c d e f g h : Bool)
    → (a || not b || c || d || e || f || g || h) ≡ false
    → (a ≡ false)
      × (b ≡ true)
      × (c ≡ false)
      × (d ≡ false)
      × (e ≡ false)
      × (f ≡ false)
      × (g ≡ false)
      × (h ≡ false)
form_parts a b c d e f g h k = ground arith

le_of_ltb : (a b : ℕ) → ltb a b ≡ false → b ≤ a
le_of_ltb a b h = ground arith

valid_parts :
    (a b c : Bool)
    → (if a then false else if b then false else not c) ≡ true
    → (a ≡ false) × (b ≡ false) × (c ≡ false)
valid_parts a b c h = ground arith

-- A name that validName accepts is not empty, is its own NFC form, has at most 240 bytes, is
-- neither . nor .., does not start like an internal name, ends in no space and no dot, has no
-- control character up to 0x1f and none of < > : " / \ | ? *, and no device name in front of its
-- first dot.
pub valid_name-IsSafeName :
    (u : Unicode) (name : Bytes) → valid_name u name ≡ true → IsSafeName u name
unfolding valid_name bad_form
valid_name-IsSafeName u name h = record {
  nonempty = ne_of_same name [] form.0;
  normal = (same_iff name (u.nfc name)).0 form.1;
  short = le_of_ltb 240 (length name) form.2;
  not_dot = ne_of_same name (codes ".") form.3;
  not_dot_dot = ne_of_same name (codes "..") form.4;
  not_internal = form.5;
  not_trailing_space = form.6;
  not_trailing_dot = form.7;
  plain = All-IsPlain name parts.1;
  not_device = parts.2;
}
  where
    parts :
        (bad_form u name ≡ false)
        × (any bad_char name ≡ false)
        × (reserved (to_upper (before_byte b'.' name)) ≡ false)
    parts =
        valid_parts (bad_form u name) (any bad_char name)
          (reserved (to_upper (before_byte b'.' name))) h

    form :
        (same name [] ≡ false)
        × (same name (u.nfc name) ≡ true)
        × (ltb 240 (length name) ≡ false)
        × (same name (codes ".") ≡ false)
        × (same name (codes "..") ≡ false)
        × (has_prefix name (codes ".filecloud-internal-") ≡ false)
        × (ends_with name b' ' ≡ false)
        × (ends_with name b'.' ≡ false)
    form = form_parts _ _ _ _ _ _ _ _ parts.0

abbrev AllValid : Unicode → List Bytes → Type 0
AllValid u = All (λ p. valid_name u p ≡ true)

components_sound :
    (u : Unicode) (depth : ℕ) (parts : List Bytes)
    → depth ≤ max_path_depth
    → valid_components u depth parts ≡ true
    → AllValid u parts × (depth + length parts ≤ max_path_depth)
unfolding valid_components
components_sound u depth [] room h = (tt, omega arith)
components_sound u depth (p ∷ rest) room h = ground (arith, components_sound u (depth + 1) rest)

components_complete :
    (u : Unicode) (depth : ℕ) (parts : List Bytes)
    → AllValid u parts
    → depth + length parts ≤ max_path_depth
    → valid_components u depth parts ≡ true
unfolding valid_components
components_complete u depth [] h room = refl
components_complete u depth (p ∷ rest) (hp, h) room =
    ground (arith, components_complete u (depth + 1) rest h)

-- What a path other than the root marker has to meet.
pub record IsRelativePath (u : Unicode) (value : Bytes) : Type 0 where
  pub nonempty : value ≢ []
  pub short : length value ≤ max_path_bytes
  pub unicode : valid_utf8 value ≡ true
  pub names : AllValid u (split value b'/')
  pub shallow : length (split value b'/') ≤ max_path_depth

path_iff :
    (root empty long utf8 components : Bool)
    → ((if root then true else if empty || long || not utf8 then false else components) ≡ true)
      ↔ ((root ≡ true) ⊎ ((empty ≡ false) × (long ≡ false) × (utf8 ≡ true) × (components ≡ true)))
path_iff true empty long utf8 components = ((λ h. inl refl), (λ h. refl))
path_iff false empty long utf8 components = ground arith

same-false : (a b : Bytes) → a ≢ b → same a b ≡ false
same-false a b h = elim (Bool-cases (same a b)) [
  | inl e ↦ absurd (h ((same_iff a b).0 e))
  | inr e ↦ e
]

ltb-false : (a b : ℕ) → b ≤ a → ltb a b ≡ false
ltb-false a b h = ground arith

module _ (u : Unicode) (value : Bytes) where
  path_parts : (valid_path u value ≡ true) ↔ (
      (same value (codes ".") ≡ true)
      ⊎ ((same value [] ≡ false)
          × (ltb max_path_bytes (length value) ≡ false)
          × (valid_utf8 value ≡ true)
          × (valid_components u 0 (split value b'/') ≡ true)))
  unfolding valid_path
  path_parts = path_iff _ _ _ _ _

  valid_path_sound : valid_path u value ≡ true → (value ≡ codes ".") ⊎ IsRelativePath u value
  valid_path_sound h = elim (path_parts.0 h) [
    | inl root ↦ inl ((same_iff value (codes ".")).0 root)
    | inr (empty, long, utf8, components) ↦
        let (names, depth) = components_sound u 0 (split value b'/') (omega arith) components in
        inr (record {
          nonempty = ne_of_same value [] empty;
          short = le_of_ltb max_path_bytes (length value) long;
          unicode = utf8;
          names = names;
          shallow = omega arith;
        })
  ]

  valid_path_complete : (value ≡ codes ".") ⊎ IsRelativePath u value → valid_path u value ≡ true
  valid_path_complete (inl root) = path_parts.1 (inl ((same_iff value (codes ".")).1 root))
  valid_path_complete (inr p) = path_parts.1 (
      inr (
        same-false value [] p.nonempty,
        ltb-false max_path_bytes (length value) p.short,
        p.unicode,
        components_complete u 0 (split value b'/') p.names (omega (arith, p.shallow)),
      ))

  -- ValidPath accepts the root marker, and the non-empty UTF-8 texts of at most 1024 bytes with at
  -- most 256 components, each a valid name, and nothing else.
  pub valid_path_iff : (valid_path u value ≡ true) ↔ ((value ≡ codes ".") ⊎ IsRelativePath u value)
  valid_path_iff = (valid_path_sound, valid_path_complete)
