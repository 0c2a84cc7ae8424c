-- ===== src/Storage/Heads/Rows.antt =====
-- Look-ups in the tables behind a change of them.
use filecloud.Prelude.{
  ◌≡◌, ◌⊎◌, refl, sym, ◌∙◌, ap, subst, Bool, true, false, ◌&&◌, Option, none, some, List, [], ◌∷◌,
  arith, if◌then◌else◌, Bool-cases, inl, inr, &&-true,
}
use filecloud.Prelude.Bytes.{Bytes, same, same→eq, same_refl}
use filecloud.Storage.Heads.{
  Library, Role, RoleRow, Tables, Move, is_library, find_library, is_expected, moved, move_rows,
  is_published, find_role, publish, insert_role, same_role, NewLibrary, is_taken,
}

pub same_role→eq : (a b : Role) → same_role a b ≡ true → a ≡ b
same_role→eq a b h =
    let (h₁, h₂) = &&-true _ (same a.mainline b.mainline) h in
    let (h₃, h₄) = &&-true (same a.commit b.commit) (same a.role b.role) h₁ in
    λ i. record {
      commit = same→eq a.commit b.commit h₃ i;
      role = same→eq a.role b.role h₄ i;
      mainline = same→eq a.mainline b.mainline h₂ i;
    }

-- A role that is found is that of the commit.
pub find_role-commit :
    (owner library commit : Bytes) (rows : List RoleRow) (r : Role)
    → find_role owner library commit rows ≡ some r
    → r.commit ≡ commit
find_role-commit owner library commit [] r h = cc
find_role-commit owner library commit (x ∷ rows) r h =
    elim (Bool-cases (same x.owner owner && same x.library library && same x.role.commit commit)) [
      | inl e ↦
          let q : x.role ≡ r = cc (e, h) in
          subst (λ y. y.commit ≡ commit) q
            (same→eq x.role.commit commit (&&-true _ (same x.role.commit commit) e).1)
      | inr e ↦ find_role-commit owner library commit rows r (cc (e, h))
    ]

-- An inserted role changes no role that is there.
pub find_role-insert_role :
    (m : Move) (r : Role) (t : Tables) (owner library commit : Bytes) (x : Role)
    → find_role owner library commit t.roles ≡ some x
    → find_role owner library commit (insert_role m r t).roles ≡ some x
find_role-insert_role m r t owner library commit x h =
    go (find_role m.owner m.library r.commit t.roles) refl
  where
    fresh :
        find_role m.owner m.library r.commit t.roles ≡ none
        → (b : Bool) → (same m.owner owner && same m.library library && same r.commit commit) ≡ b
        → (if b then some r else find_role owner library commit t.roles) ≡ some x
    fresh n false e = h
    fresh n true e =
        let (e₁, e₂) = &&-true _ (same r.commit commit) e in
        let (e₃, e₄) = &&-true (same m.owner owner) (same m.library library) e₁ in
        let q : find_role owner library commit t.roles ≡ none =
          subst (λ o. find_role o library commit t.roles ≡ none) (same→eq m.owner owner e₃)
            (subst (λ l. find_role m.owner l commit t.roles ≡ none) (same→eq m.library library e₄)
              (subst (λ c. find_role m.owner m.library c t.roles ≡ none)
                (same→eq r.commit commit e₂) n)) in
        absurd (ground (arith, q, h))

    go :
        (o : Option Role)
        → find_role m.owner m.library r.commit t.roles ≡ o
        → find_role owner library commit
            (elim o as (λ z. Tables) [
              | some existing ↦ t
              | none ↦ record t {
                roles = record { owner = m.owner; library = m.library; role = r } ∷ t.roles;
              }
            ]).roles
          ≡ some x
    go (some existing) e = h
    go none e = fresh e _ refl

-- What is found behind an insertion was there, or is the inserted role.
pub find_role-origin :
    (m : Move) (r : Role) (t : Tables) (owner library commit : Bytes) (x : Role)
    → find_role owner library commit (insert_role m r t).roles ≡ some x
    → (find_role owner library commit t.roles ≡ some x)
      ⊎ ((owner ≡ m.owner) × (library ≡ m.library) × (commit ≡ r.commit) × (x ≡ r))
find_role-origin m r t owner library commit x h =
    go (find_role m.owner m.library r.commit t.roles) h
  where
    new :
        (b : Bool)
        → (same m.owner owner && same m.library library && same r.commit commit) ≡ b
        → (if b then some r else find_role owner library commit t.roles) ≡ some x
        → (find_role owner library commit t.roles ≡ some x)
          ⊎ ((owner ≡ m.owner) × (library ≡ m.library) × (commit ≡ r.commit) × (x ≡ r))
    new false e k = inl k
    new true e k =
        let (e₁, e₂) = &&-true _ (same r.commit commit) e in
        let (e₃, e₄) = &&-true (same m.owner owner) (same m.library library) e₁ in
        inr (
          sym (same→eq m.owner owner e₃),
          sym (same→eq m.library library e₄),
          sym (same→eq r.commit commit e₂),
          cc,
        )

    go :
        (o : Option Role)
        → find_role owner library commit
            (elim o as (λ z. Tables) [
              | some existing ↦ t
              | none ↦ record t {
                roles = record { owner = m.owner; library = m.library; role = r } ∷ t.roles;
              }
            ]).roles
          ≡ some x
        → (find_role owner library commit t.roles ≡ some x)
          ⊎ ((owner ≡ m.owner) × (library ≡ m.library) × (commit ≡ r.commit) × (x ≡ r))
    go (some existing) k = inl k
    go none k = new _ refl k

pub libraries-insert_role :
    (m : Move) (r : Role) (t : Tables) → (insert_role m r t).libraries ≡ t.libraries
libraries-insert_role m r t = go (find_role m.owner m.library r.commit t.roles)
  where
    go :
        (o : Option Role)
        → (elim o as (λ z. Tables) [
          | some existing ↦ t
          | none ↦ record t {
            roles = record { owner = m.owner; library = m.library; role = r } ∷ t.roles;
          }
        ]).libraries
          ≡ t.libraries
    go (some existing) = refl
    go none = refl

pub published-insert_role :
    (m : Move) (r : Role) (t : Tables) → (insert_role m r t).published ≡ t.published
published-insert_role m r t = go (find_role m.owner m.library r.commit t.roles)
  where
    go :
        (o : Option Role)
        → (elim o as (λ z. Tables) [
          | some existing ↦ t
          | none ↦ record t {
            roles = record { owner = m.owner; library = m.library; role = r } ∷ t.roles;
          }
        ]).published
          ≡ t.published
    go (some existing) = refl
    go none = refl

pub is_published-publish :
    (m : Move) (c : Bytes) (t : Tables) (owner library commit : Bytes)
    → is_published owner library commit t.published ≡ true
    → is_published owner library commit (publish m c t).published ≡ true
is_published-publish m c t owner library commit h =
    elim (Bool-cases (is_published m.owner m.library c t.published)) [
      | inl e ↦ rw e h
      | inr e ↦ rw e (ground (arith, h))
    ]

pub is_published-published :
    (m : Move) (c : Bytes) (t : Tables)
    → is_published m.owner m.library c (publish m c t).published ≡ true
is_published-published m c t = elim (Bool-cases (is_published m.owner m.library c t.published)) [
  | inl e ↦ rw e e
  | inr e ↦ rw (e, same_refl m.owner, same_refl m.library, same_refl c) refl
]

pub roles-publish : (m : Move) (c : Bytes) (t : Tables) → (publish m c t).roles ≡ t.roles
roles-publish m c t = elim (Bool-cases (is_published m.owner m.library c t.published)) [
  | inl e ↦ rw e refl
  | inr e ↦ rw e refl
]

pub libraries-publish :
    (m : Move) (c : Bytes) (t : Tables) → (publish m c t).libraries ≡ t.libraries
libraries-publish m c t = elim (Bool-cases (is_published m.owner m.library c t.published)) [
  | inl e ↦ rw e refl
  | inr e ↦ rw e refl
]

-- A row behind an UPDATE.
abbrev pub shifted : Move → Library → Library
shifted m l = if is_expected m l then moved m l else l

abbrev pub shift_found : Move → Option Library → Option Library
shift_found m none = none
shift_found m (some l) = some (shifted m l)

pub find_library-move_rows :
    (m : Move) (ls : List Library) (owner id : Bytes)
    → find_library owner id (move_rows m ls).0 ≡ shift_found m (find_library owner id ls)
find_library-move_rows m [] owner id = refl
find_library-move_rows m (x ∷ ls) owner id = elim (Bool-cases (is_expected m x)) [
  | inl e ↦ elim (Bool-cases (is_library owner id x)) [
    | inl i ↦ rw (e, i, e) refl
    | inr i ↦ rw (e, i) (find_library-move_rows m ls owner id)
  ]
  | inr e ↦ elim (Bool-cases (is_library owner id x)) [
    | inl i ↦ rw (e, i, e) refl
    | inr i ↦ rw (e, i) (find_library-move_rows m ls owner id)
  ]
]

-- No row at all is changed where the library has none.
move_rows-none :
    (m : Move) (ls : List Library)
    → find_library m.owner m.library ls ≡ none
    → (move_rows m ls).1 ≡ 0
move_rows-none m [] h = refl
move_rows-none m (x ∷ ls) h = elim (Bool-cases (is_library m.owner m.library x)) [
  | inl i ↦ absurd (ground (arith, i, h))
  | inr i ↦ rw i (move_rows-none m ls (cc (i, h)))
]

-- The primary key of the table of libraries.
abbrev pub IsUnique : List Library → Type 0
IsUnique [] = Unit
IsUnique (l ∷ ls) = (find_library l.owner l.id ls ≡ none) × IsUnique ls

-- The one row that an UPDATE has changed is the library's, with the version and the head that it asks for.
pub move_rows-one :
    (m : Move) (ls : List Library)
    → IsUnique ls
    → (move_rows m ls).1 ≡ 1
    → (l : Library) × (find_library m.owner m.library ls ≡ some l) × (is_expected m l ≡ true)
move_rows-one m [] u h = absurd (omega arith)
move_rows-one m (x ∷ ls) (fresh, u) h = elim (Bool-cases (is_library m.owner m.library x)) [
  | inr i ↦ let (l, found, expected) = move_rows-one m ls u (cc (i, h)) in (l, rw i found, expected)
  | inl i ↦ elim (Bool-cases (is_expected m x)) [
    | inl e ↦ (x, rw i refl, e)
    | inr e ↦
        let (i₁, i₂) = &&-true (same x.owner m.owner) (same x.id m.library) i in
        let gone : find_library m.owner m.library ls ≡ none =
          subst (λ o. find_library o m.library ls ≡ none) (same→eq x.owner m.owner i₁)
            (subst (λ d. find_library x.owner d ls ≡ none) (same→eq x.id m.library i₂) fresh) in
        let zero_rows : (move_rows m ls).1 ≡ 0 = move_rows-none m ls gone in
        absurd (ground (arith, e, h, zero_rows))
  ]
]

pub move_rows-IsUnique : (m : Move) (ls : List Library) → IsUnique ls → IsUnique (move_rows m ls).0
move_rows-IsUnique m [] u = tt
move_rows-IsUnique m (x ∷ ls) (fresh, u) = elim (Bool-cases (is_expected m x)) [
  | inl e ↦ rw e (still, move_rows-IsUnique m ls u)
  | inr e ↦ rw e (still, move_rows-IsUnique m ls u)
]
  where
    still : find_library x.owner x.id (move_rows m ls).0 ≡ none
    still = find_library-move_rows m ls x.owner x.id ∙ ap (shift_found m) fresh

pub find_library-is :
    (owner id : Bytes) (ls : List Library) (l : Library)
    → find_library owner id ls ≡ some l
    → (l.owner ≡ owner) × (l.id ≡ id)
find_library-is owner id [] l h = cc
find_library-is owner id (x ∷ ls) l h = elim (Bool-cases (is_library owner id x)) [
  | inr i ↦ find_library-is owner id ls l (cc (i, h))
  | inl i ↦
      let q : x ≡ l = cc (i, h) in
      let (i₁, i₂) = &&-true (same x.owner owner) (same x.id id) i in
      subst (λ y. (y.owner ≡ owner) × (y.id ≡ id)) q (same→eq x.owner owner i₁, same→eq x.id id i₂)
]

pub is_taken-find :
    (n : NewLibrary) (ls : List Library)
    → is_taken n ls ≡ false
    → find_library n.owner n.id ls ≡ none
is_taken-find n [] h = refl
is_taken-find n (x ∷ ls) h = ground (arith, is_taken-find n ls, h)
