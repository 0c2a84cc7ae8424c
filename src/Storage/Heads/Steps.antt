-- ===== src/Storage/Heads/Steps.antt =====
-- The statements of a move, one by one.
use filecloud.Prelude.{
  ◌≡◌, ◌⊎◌, sym, ap, ◌∙◌, subst, Bool, true, not, ◌||◌, Option, none, some, List, [], ◌∷◌, arith,
  Bool-cases, inl, inr, &&-true,
}
use filecloud.Prelude.Bytes.{Bytes, same, same→eq}
use filecloud.Prelude.Sets.{ByteSet, member, add}
use filecloud.Prelude.Outcome.{ok, failed}
use filecloud.Prelude.Yields.{
  Yields, Yields-pure, Yields-modify, Yields-bind, Yields-lift, Yields-look, Yields-guard,
  Yields-test,
}
use filecloud.Storage.Heads.{
  Role, Tables, Move, first_failure, statement, change_tables, is_published, find_role, found_role,
  publish, insert_role, same_role, invalid_role, fits_move, main_role, mainline_role, record_role,
  record_roles,
}
use filecloud.Storage.Heads.Rows.{
  same_role→eq, find_role-insert_role, find_role-origin, libraries-insert_role,
  published-insert_role, is_published-publish, is_published-published, roles-publish,
  libraries-publish,
}
use filecloud.Storage.Heads.Proven.{IsMoving}

-- A statement that only asks keeps what holds of the tables.
pub Yields-statement :
    (P : Tables → Type 0) → Yields (λ t. P t.tables) statement (λ a t. P t.tables)
unfolding statement
Yields-statement P =
    Yields-look (λ t. first_failure t.failures) _
      (λ outcome. Yields-lift outcome _ (λ a e. Yields-modify _ (λ t h. h.0)))

pub Yields-change_tables :
    (P Q : Tables → Type 0) (f : Tables → Tables)
    → ((t : Tables) → P t → Q (f t))
    → Yields (λ t. P t.tables) (change_tables f) (λ a t. Q t.tables)
Yields-change_tables P Q f k =
    Yields-bind statement _ (Yields-statement P) (λ a. Yields-modify _ (λ t h. k t.tables h))

found_role-ok : (o : Option Role) (r : Role) → found_role o ≡ ok r → o ≡ some r
found_role-ok none r h = cc
found_role-ok (some x) r h = cc

fits-candidate :
    (m : Move) (r : Role)
    → fits_move m r ≡ true
    → same r.commit m.commit ≡ true
    → r ≡ main_role m.commit
fits-candidate m r h e =
    let (h₁, h₂) = &&-true _ (same r.mainline m.commit) h in
    let main : same r.role mainline_role ≡ true = ground (arith, e, h₁) in
    λ i. record {
      commit = same→eq r.commit m.commit e i;
      role = same→eq r.role mainline_role main i;
      mainline = same→eq r.mainline m.commit h₂ i;
    }

module _ (m : Move) (before : Tables) where
  -- What one round adds to what the loop knows.
  publish-IsMoving :
      (c : Bytes) (seen : Bool) (t : Tables)
      → IsMoving m before seen t
      → IsMoving m before seen (publish m c t)
  publish-IsMoving c seen t g = record {
    libraries = libraries-publish m c t ∙ g.libraries;
    keeps = λ o l x r h.
        subst (λ rows. find_role o l x rows ≡ some r) (sym (roles-publish m c t))
          (g.keeps o l x r h);
    keeps_published = λ o l x h. is_published-publish m c t o l x (g.keeps_published o l x h);
    published = λ o l x r h. is_published-publish m c t o l x (
        g.published o l x r
          (subst (λ rows. find_role o l x rows ≡ some r) (roles-publish m c t) h));
    mainline = λ o l x r h.
        subst
          (λ rows.
            (find_role o l r.mainline rows ≡ some (main_role r.mainline))
            ⊎ ((o ≡ m.owner) × (l ≡ m.library) × (r.mainline ≡ m.commit)))
          (sym (roles-publish m c t))
          (g.mainline o l x r
            (subst (λ rows. find_role o l x rows ≡ some r) (roles-publish m c t) h));
    candidate = λ e.
        subst (λ rows. find_role m.owner m.library m.commit rows ≡ some (main_role m.commit))
          (sym (roles-publish m c t)) (g.candidate e);
  }

  insert-IsMoving :
      (r : Role) (seen : Bool) (t : Tables)
      → fits_move m r ≡ true
      → is_published m.owner m.library r.commit t.published ≡ true
      → IsMoving m before seen t
      → IsMoving m before seen (insert_role m r t)
  insert-IsMoving r seen t fits known g = record {
    libraries = libraries-insert_role m r t ∙ g.libraries;
    keeps = λ o l c x h. find_role-insert_role m r t o l c x (g.keeps o l c x h);
    keeps_published = λ o l c h. unchanged o l c (g.keeps_published o l c h);
    published = λ o l c x h. unchanged o l c (elim (find_role-origin m r t o l c x h) [
      | inl k ↦ g.published o l c x k
      | inr (a, b, d, e) ↦
          subst (λ z. is_published z l c t.published ≡ true) (sym a)
            (subst (λ z. is_published m.owner z c t.published ≡ true) (sym b)
              (subst (λ z. is_published m.owner m.library z t.published ≡ true) (sym d) known))
    ]);
    mainline = λ o l c x h. elim (find_role-origin m r t o l c x h) [
      | inl k ↦ elim (g.mainline o l c x k) [
        | inl found ↦ inl (find_role-insert_role m r t o l x.mainline _ found)
        | inr waits ↦ inr waits
      ]
      | inr (a, b, d, e) ↦ inr (
        a,
        b,
        ap (λ z. z.mainline) e
            ∙ same→eq r.mainline m.commit (&&-true _ (same r.mainline m.commit) fits).1,
      )
    ];
    candidate = λ e. find_role-insert_role m r t m.owner m.library m.commit _ (g.candidate e);
  }
    where
      unchanged :
          (o l c : Bytes)
          → is_published o l c t.published ≡ true
          → is_published o l c (insert_role m r t).published ≡ true
      unchanged o l c h =
          subst (λ p. is_published o l c p ≡ true) (sym (published-insert_role m r t)) h

  seen-IsMoving :
      (r : Role) (seen : Bool) (t : Tables)
      → fits_move m r ≡ true
      → find_role m.owner m.library r.commit t.roles ≡ some r
      → IsMoving m before seen t
      → IsMoving m before (seen || same r.commit m.commit) t
  seen-IsMoving r seen t fits found g = record {
    libraries = g.libraries;
    keeps = g.keeps;
    keeps_published = g.keeps_published;
    published = g.published;
    mainline = g.mainline;
    candidate = λ e. elim (Bool-cases seen) [
      | inl s ↦ g.candidate s
      | inr s ↦ candidate_found (ground (arith, e, s))
    ];
  }
    where
      candidate_found :
          same r.commit m.commit ≡ true
          → find_role m.owner m.library m.commit t.roles ≡ some (main_role m.commit)
      candidate_found e =
          subst (λ c. find_role m.owner m.library c t.roles ≡ some (main_role m.commit))
            (same→eq r.commit m.commit e)
            (subst (λ x. find_role m.owner m.library r.commit t.roles ≡ some x)
              (fits-candidate m r fits e) found)

  Yields-record_role :
      (r : Role) (seen : Bool)
      → fits_move m r ≡ true
      → Yields
          (λ t. IsMoving m before seen t.tables)
          (record_role m r)
          (λ a t. IsMoving m before (seen || same r.commit m.commit) t.tables)
  unfolding record_role
  Yields-record_role r seen fits =
      Yields-bind (change_tables (publish m r.commit)) _
        (Yields-change_tables (IsMoving m before seen)
          (λ t.
            IsMoving m before seen t × (is_published m.owner m.library r.commit t.published ≡ true))
          (publish m r.commit)
          (λ t g. (publish-IsMoving r.commit seen t g, is_published-published m r.commit t)))
        (λ a.
          Yields-bind (change_tables (insert_role m r)) _
            (Yields-change_tables _ (IsMoving m before seen) (insert_role m r)
              (λ t g. insert-IsMoving r seen t fits g.1 g.0))
            (λ b. Yields-bind statement _ (Yields-statement (IsMoving m before seen)) (λ c.
              Yields-look (λ t. found_role (find_role m.owner m.library r.commit t.tables.roles)) _
                (λ existing. Yields-lift existing _ (λ stored e.
                  Yields-test (same_role stored r) (failed "published commit role conflict")
                    (λ t h same.
                      seen-IsMoving r seen t.tables fits
                        (found_role-ok _ r (h.1 ∙ e ∙ ap ok (same_role→eq stored r same))) h.0))))))

  pub Yields-record_roles :
      (roles : List Role) (names : ByteSet) (seen : Bool)
      → Yields
          (λ t. IsMoving m before seen t.tables)
          (record_roles m names seen roles)
          (λ found t. IsMoving m before found t.tables)
  unfolding record_roles
  Yields-record_roles [] names seen = Yields-pure seen (λ t g. g)
  Yields-record_roles (r ∷ roles) names seen =
      Yields-guard (not (invalid_role r)) (failed "invalid published commit role") _ (λ valid.
        Yields-guard (not (member r.commit names)) (failed "duplicate published commit role") _
          (λ new.
            Yields-guard (fits_move m r) (failed "published commit role is invalid") _ (λ fits.
              Yields-bind (record_role m r) _ (Yields-record_role r seen fits) (λ a.
                Yields-record_roles roles (add r.commit names) (seen || same r.commit m.commit)))))
