-- ===== src/Storage/Collector/Advance.antt =====
-- What marking does to the set of the marked keys and to the keys that are still to be visited, as a
-- relation that composes, and its rules for the actions of the collector.
use filecloud.Prelude.{
  ◌≡◌, sym, subst, true, false, ◌||◌, List, [], ◌∷◌, ◌++◌, arith, Bool-cases, inl, inr,
}
use filecloud.Storage.Objects.{Key, same_key, has, mark, Stored, Verifier}
use filecloud.Storage.Objects.Laws.{same_key→eq, same_key_refl, has-append, has-mark}
use filecloud.Storage.Collector.Graph.{children}

module _ (v : Verifier) (disk : List Stored) (G V : Key → Type 0) where
  -- From the marked keys `m` and the pending keys `p` to `m'` and `p'`: no key is lost, what a newly
  -- marked object refers to is marked or pending, `V` holds of every newly marked key, and nothing leaves
  -- `G` which holds what its members refer to.
  pub record Advance (m p m' p' : List Key) : Type 0 where
    pub grows : (c : Key) → has c m ≡ true → has c m' ≡ true
    pub covers : (c : Key) → has c p ≡ true → (has c m' || has c p') ≡ true
    pub closes :
        (k c : Key)
        → has k m' ≡ true
        → has k m ≡ false
        → has c (children v disk k) ≡ true
        → (has c m' || has c p') ≡ true
    pub vouches : (k : Key) → has k m' ≡ true → has k m ≡ false → V k
    pub stays :
        ((c : Key) → has c m ≡ true → G c)
        → ((c : Key) → has c p ≡ true → G c)
        → (c : Key) → (has c m' || has c p') ≡ true
        → G c

  either :
      (m p : List Key)
      → ((c : Key) → has c m ≡ true → G c)
      → ((c : Key) → has c p ≡ true → G c)
      → (c : Key) → (has c m || has c p) ≡ true
      → G c
  either m p hm hp c h = elim (Bool-cases (has c m)) [
    | inl e ↦ hm c e
    | inr e ↦ hp c (ground arith)
  ]

  pub Advance-refl : (m p : List Key) → Advance m p m p
  Advance-refl m p = record {
    grows = λ c h. h;
    covers = λ c h. ground arith;
    closes = λ k c h n r. cc;
    vouches = λ k h n. cc;
    stays = either m p;
  }

  pub Advance-trans :
      {m p m' p' n q : List Key} → Advance m p m' p' → Advance m' p' n q → Advance m p n q
  Advance-trans {m} {p} {m'} {p'} {n} {q} a b = record {
    grows = λ c h. b.grows c (a.grows c h);
    covers = λ c h. ground (arith, a.covers c h, b.grows c, b.covers c);
    closes = λ k c h f r. elim (Bool-cases (has k m')) [
      | inl e ↦ ground (arith, a.closes k c e f r, b.grows c, b.covers c)
      | inr e ↦ b.closes k c h e r
    ];
    vouches =
        λ k h f. elim (Bool-cases (has k m')) [ inl e ↦ a.vouches k e f | inr e ↦ b.vouches k h e ];
    stays = λ hm hp.
        b.stays (λ c h. a.stays hm hp c (ground arith)) (λ c h. a.stays hm hp c (ground arith));
  }

  -- Other keys may be pending beside.
  pub Advance-frame :
      {m p m' p' : List Key} (r : List Key) → Advance m p m' p' → Advance m (p ++ r) m' (p' ++ r)
  Advance-frame {m} {p} {m'} {p'} r a = record {
    grows = a.grows;
    covers = λ c h. ground (arith, has-append c p r, has-append c p' r, a.covers c);
    closes = λ k c h f t. ground (arith, has-append c p' r, a.closes k c h f t);
    vouches = a.vouches;
    stays = λ hm hp c h. elim (Bool-cases (has c r)) [
      | inl e ↦ hp c (ground (arith, has-append c p r))
      | inr e ↦
          a.stays hm (λ x g. hp x (ground (arith, has-append x p r))) c
            (ground (arith, has-append c p' r))
    ];
  }

  -- The order of the pending keys does not count.
  pub Advance-reorder :
      {m p m' p' : List Key} (q : List Key)
      → ((c : Key) → has c q ≡ has c p)
      → Advance m p m' p'
      → Advance m q m' p'
  Advance-reorder {m} {p} {m'} {p'} q e a = record {
    grows = a.grows;
    covers = λ c h. a.covers c (subst (λ b. b ≡ true) (e c) h);
    closes = a.closes;
    vouches = a.vouches;
    stays = λ hm hq. a.stays hm (λ c h. hq c (subst (λ b. b ≡ true) (sym (e c)) h));
  }

  -- A key that is marked already need not be pending.
  pub Advance-skip :
      {m p m' p' : List Key} (k : Key)
      → has k m ≡ true
      → Advance m p m' p'
      → Advance m (k ∷ p) m' p'
  Advance-skip {m} {p} {m'} {p'} k e a = record {
    grows = a.grows;
    covers = λ c h. elim (Bool-cases (same_key k c)) [
      | inl s ↦
          subst (λ x. (has x m' || has x p') ≡ true) (same_key→eq k c s)
            (ground (arith, a.grows k e))
      | inr s ↦ a.covers c (ground arith)
    ];
    closes = a.closes;
    vouches = a.vouches;
    stays = λ hm hp. a.stays hm (λ c h. hp c (ground arith));
  }

  -- A marked key leaves what its object refers to.
  pub Advance-mark :
      (m : List Key) (k : Key)
      → ((c : Key) → G k → has c (children v disk k) ≡ true → G c)
      → V k
      → Advance m (k ∷ []) (mark k m) (children v disk k)
  Advance-mark m k close vk = record {
    grows = λ c h. ground (arith, has-mark k c m);
    covers = λ c h. ground (arith, has-mark k c m);
    closes = λ x c h f r. elim (Bool-cases (same_key k x)) [
      | inl s ↦
          subst
            (λ y.
              has c (children v disk y) ≡ true
              → (has c (mark k m) || has c (children v disk k)) ≡ true)
            (same_key→eq k x s) (λ g. ground arith) r
      | inr s ↦ absurd (ground (arith, has-mark k x m))
    ];
    vouches = λ x h f. subst V (same_key→eq k x (ground (arith, has-mark k x m))) vk;
    stays = λ hm hp.
        either (mark k m) (children v disk k)
          (λ c h. elim (Bool-cases (has c m)) [
            | inl e ↦ hm c e
            | inr e ↦
                subst G (same_key→eq k c (ground (arith, has-mark k c m)))
                  (hp k (ground (arith, same_key_refl k)))
          ])
          (λ c h. close c (hp k (ground (arith, same_key_refl k))) h);
  }
