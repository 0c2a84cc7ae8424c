-- ===== src/Storage/Heads/Invariant.antt =====
-- Every transaction keeps the tables proven.
use filecloud.Prelude.{
  ◌≡◌, ◌⊎◌, refl, sym, ap, ◌∙◌, subst, true, false, Option, none, some, List, [], ◌==◌, ==_iff,
  Bool-cases, inl, inr, &&-true,
}
use filecloud.Prelude.Bytes.{Bytes, same, same→eq}
use filecloud.Prelude.Outcome.{ok, failed, head_conflict}
use filecloud.Prelude.Action.{modify}
use filecloud.Prelude.Yields.{
  Yields, Yields-pure, Yields-if, Yields-modify, Yields-bind, Yields-lift, Yields-look,
  Yields-guard, Yields-weaken, Yields-known, Yields-test,
}
use filecloud.Storage.Heads.{
  Library, Role, Tables, Transaction, Move, NewLibrary, new_library, insert_library, statement,
  find_library, is_expected, move_rows, find_role, main_role, record_roles, is_library, same_head,
  scan_library, with_moved, update_row, read_row, move_head, create_row, replay_row, create_library,
  is_taken, replayed,
}
use filecloud.Storage.Heads.Rows.{
  IsUnique, shifted, shift_found, find_library-move_rows, move_rows-IsUnique, find_library-is,
  is_taken-find,
}
use filecloud.Storage.Heads.Proven.{IsProven, IsMoving}
use filecloud.Storage.Heads.Steps.{Yields-statement, Yields-record_roles}

-- What a committed move has done.
pub record IsMoved (m : Move) (before : Tables) (l : Library) (after : Tables) : Type 0 where
  pub one : (move_rows m before.libraries).1 ≡ 1
  pub moving : IsMoving m (with_moved m before) true after
  pub row : find_library m.owner m.library after.libraries ≡ some l

start-IsMoving :
    (m : Move) (t : Tables) → IsProven t → IsMoving m (with_moved m t) false (with_moved m t)
start-IsMoving m t p = record {
  libraries = refl;
  keeps = λ o l c r h. h;
  keeps_published = λ o l c h. h;
  published = p.published;
  mainline = λ o l c r h. inl (p.mainline o l c r h);
  candidate = λ e. cc;
}

scan_library-ok : (o : Option Library) (l : Library) → scan_library o ≡ ok l → o ≡ some l
scan_library-ok none l h = cc
scan_library-ok (some x) l h = cc

module _ (m : Move) (before : Tables) (proven : IsProven before) where
  Yields-update_row :
      Yields
        (λ (t : Transaction). t.tables ≡ before)
        (update_row m)
        (λ a t.
          ((move_rows m before.libraries).1 ≡ 1) × IsMoving m (with_moved m before) false t.tables)
  unfolding update_row
  Yields-update_row = Yields-bind statement _ (Yields-statement (λ x. x ≡ before)) (λ a.
      Yields-bind statement _ (Yields-statement (λ x. x ≡ before)) (λ b.
        Yields-bind statement _ (Yields-statement (λ x. x ≡ before)) (λ c.
          Yields-look (λ t. (move_rows m t.tables.libraries).1) _
            (λ count.
              Yields-bind
                {Q = λ d t.
                  ((move_rows m before.libraries).1 ≡ count)
                  × IsMoving m (with_moved m before) false t.tables}
                (modify (λ t. record t { tables = with_moved m t.tables })) _
                (Yields-modify _ (λ t h. (
                  subst (λ x. (move_rows m x.libraries).1 ≡ count) h.0 h.1,
                  subst (λ x. IsMoving m (with_moved m before) false (with_moved m x)) (sym h.0)
                      (start-IsMoving m before proven),
                )))
                (λ d.
                  Yields-test (count == 1) head_conflict
                    (λ t h one. (h.0 ∙ (==_iff count 1).0 one, h.1)))))))

  Yields-read_row :
      (P : Tables → Type 0)
      → Yields
          (λ (t : Transaction). P t.tables)
          (read_row m)
          (λ l t. P t.tables × (find_library m.owner m.library t.tables.libraries ≡ some l))
  unfolding read_row
  Yields-read_row P = Yields-bind statement _ (Yields-statement P) (λ a.
      Yields-look (λ t. scan_library (find_library m.owner m.library t.tables.libraries)) _
        (λ row. Yields-lift row _ (λ l e.
          Yields-bind
            {Q = λ b t. P t.tables × (find_library m.owner m.library t.tables.libraries ≡ some l)}
            statement _
            (Yields-weaken statement (λ t h. (h.0, scan_library-ok _ l (h.1 ∙ e))) (λ b t h. h)
              (Yields-statement (λ x. P x × (find_library m.owner m.library x.libraries ≡ some l))))
            (λ b. Yields-pure l (λ t h. h)))))

  pub Yields-move_head :
      (roles : List Role)
      → Yields
          (λ (t : Transaction). t.tables ≡ before)
          (move_head m roles)
          (λ l t. IsMoved m before l t.tables)
  unfolding move_head
  Yields-move_head roles = Yields-bind (update_row m) _ Yields-update_row (λ a.
      Yields-known _ (λ t h. h.0)
        (λ one.
          Yields-bind {Q = λ found t. IsMoving m (with_moved m before) found t.tables}
            (record_roles m [] false roles) _
            (Yields-weaken _ (λ t h. h.1) (λ found t h. h)
              (Yields-record_roles m (with_moved m before) roles [] false))
            (λ found.
              Yields-guard found (failed "candidate published commit role is missing") _
                (λ yes_found.
                  Yields-weaken (read_row m)
                    (λ t h. subst (λ b. IsMoving m (with_moved m before) b t.tables) yes_found h)
                    (λ l t h. record { one = one; moving = h.0; row = h.1 })
                    (Yields-read_row (IsMoving m (with_moved m before) true))))))

-- A library's row behind a move: the row in front, or that row moved.
pub found_before :
    (m : Move) (before after : Tables) (owner id : Bytes) (l : Library)
    → after.libraries ≡ (with_moved m before).libraries
    → find_library owner id after.libraries ≡ some l
    → (x : Library) × (find_library owner id before.libraries ≡ some x) × (l ≡ shifted m x)
found_before m before after owner id l same_rows h =
    from (find_library owner id before.libraries) refl (
      sym (find_library-move_rows m before.libraries owner id)
      ∙ subst (λ ls. find_library owner id ls ≡ some l) same_rows h)
  where
    from :
        (o : Option Library)
        → find_library owner id before.libraries ≡ o
        → shift_found m o ≡ some l
        → (x : Library) × (find_library owner id before.libraries ≡ some x) × (l ≡ shifted m x)
    from none e k = cc
    from (some x) e k = (x, e, cc)

shifted-head :
    (m : Move) (x : Library) (commit : Bytes)
    → (shifted m x).head ≡ some commit
    → (x.head ≡ some commit) ⊎ ((x.owner ≡ m.owner) × (x.id ≡ m.library) × (commit ≡ m.commit))
shifted-head m x commit h = elim (Bool-cases (is_expected m x)) [
  | inr e ↦ inl (cc (e, h))
  | inl e ↦
      let (e₁, _) = &&-true _ (same_head m.expected_head x.head) e in
      let (e₂, _) = &&-true (is_library m.owner m.library x) _ e₁ in
      let (e₃, e₄) = &&-true (same x.owner m.owner) (same x.id m.library) e₂ in
      inr (same→eq x.owner m.owner e₃, same→eq x.id m.library e₄, cc (e, h))
]

pub IsMoved-IsProven :
    (m : Move) (before after : Tables) (l : Library)
    → IsProven before
    → IsMoved m before l after
    → IsProven after
IsMoved-IsProven m before after l p h =
    let main = h.moving.candidate refl in
    record {
      unique =
          subst IsUnique (sym h.moving.libraries) (move_rows-IsUnique m before.libraries p.unique);
      published = h.moving.published;
      mainline = λ o i c r k. elim (h.moving.mainline o i c r k) [
        | inl found ↦ found
        | inr (a, b, d) ↦ at_candidate o i r.mainline a b d main
      ];
      head = λ o i x c k e.
          let (y, found, moved_row) = found_before m before after o i x h.moving.libraries k in
          let (a, b) = find_library-is o i before.libraries y found in
          elim (shifted-head m y c (ap (λ z. z.head) (sym moved_row) ∙ e)) [
            | inl old ↦ h.moving.keeps o i c _ (p.head o i y c found old)
            | inr (d, f, g) ↦ at_candidate o i c (sym a ∙ d) (sym b ∙ f) g main
          ];
    }
  where
    at_candidate :
        (o i c : Bytes)
        → o ≡ m.owner
        → i ≡ m.library
        → c ≡ m.commit
        → find_role m.owner m.library m.commit after.roles ≡ some (main_role m.commit)
        → find_role o i c after.roles ≡ some (main_role c)
    at_candidate o i c a b d k =
        subst (λ z. find_role z i c after.roles ≡ some (main_role c)) (sym a)
          (subst (λ z. find_role m.owner z c after.roles ≡ some (main_role c)) (sym b)
            (subst (λ z. find_role m.owner m.library z after.roles ≡ some (main_role z)) (sym d) k))

pub insert_library-IsProven :
    (n : NewLibrary) (t : Tables)
    → is_taken n t.libraries ≡ false
    → IsProven t
    → IsProven (insert_library n t)
insert_library-IsProven n t fresh p = record {
  unique = (is_taken-find n t.libraries fresh, p.unique);
  published = p.published;
  mainline = p.mainline;
  head = λ o i l c h e. elim (Bool-cases (is_library o i (new_library n))) [
    | inl k ↦ let q : new_library n ≡ l = cc (k, h) in absurd (no_head l q e)
    | inr k ↦ p.head o i l c (cc (k, h)) e
  ];
}
  where
    no_head : (l : Library) {c : Bytes} → new_library n ≡ l → l.head ≡ some c → ⊥
    no_head l q e = let z : (new_library n).head ≡ some _ = ap (λ x. x.head) q ∙ e in cc

module _ (n : NewLibrary) (before : Tables) where
  -- A committed creation has added the library, or nothing.
  abbrev pub IsCreated : Tables → Type 0
  IsCreated after =
      (after ≡ before) ⊎ ((is_taken n before.libraries ≡ false) × (after ≡ insert_library n before))

  Yields-create_row :
      is_taken n before.libraries ≡ false
      → Yields (λ (t : Transaction). t.tables ≡ before) (create_row n) (λ l t. IsCreated t.tables)
  unfolding create_row
  Yields-create_row fresh =
      Yields-bind {Q = λ a t. IsCreated t.tables}
        (modify (λ t. record t { tables = insert_library n t.tables })) _
        (Yields-modify _ (λ t h. inr (fresh, ap (insert_library n) h)))
        (λ a. Yields-bind statement _ (Yields-statement IsCreated) (λ b. Yields-pure _ (λ t h. h)))

  Yields-replay_row :
      Yields (λ (t : Transaction). t.tables ≡ before) (replay_row n) (λ l t. IsCreated t.tables)
  unfolding replay_row
  Yields-replay_row = Yields-bind statement _ (Yields-statement (λ x. x ≡ before)) (λ a.
      Yields-look (λ t. replayed n (find_library n.owner n.id t.tables.libraries)) _
        (λ row. Yields-lift row _ (λ l e.
          Yields-weaken _ (λ t h. h.0) (λ b t h. h)
            (Yields-bind statement _ (Yields-statement (λ x. x ≡ before))
              (λ b. Yields-pure l (λ t h. inl h))))))

  pub Yields-create_library :
      Yields (λ (t : Transaction). t.tables ≡ before) (create_library n) (λ l t. IsCreated t.tables)
  unfolding create_library
  Yields-create_library = Yields-bind statement _ (Yields-statement (λ x. x ≡ before)) (λ a.
      Yields-bind statement _ (Yields-statement (λ x. x ≡ before)) (λ b.
        Yields-bind statement _ (Yields-statement (λ x. x ≡ before)) (λ c.
          Yields-look (λ t. is_taken n t.tables.libraries) _
            (λ taken.
              Yields-if taken (replay_row n) (create_row n)
                (λ e. Yields-weaken _ (λ t h. h.0) (λ l t h. h) Yields-replay_row)
                (λ e.
                  Yields-known _ (λ t h. subst (λ x. is_taken n x.libraries ≡ false) h.0 (h.1 ∙ e))
                    (λ fresh.
                      Yields-weaken _ (λ t h. h.0) (λ l t h. h) (Yields-create_row fresh)))))))
