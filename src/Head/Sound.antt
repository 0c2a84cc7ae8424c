-- ===== src/Head/Sound.antt =====
-- A validation that succeeds and misses nothing has seen a complete snapshot.
pub mod Blocks
pub mod Files
pub mod Walk
use filecloud.Prelude.{
  ℕ, ◌≡◌, ◌⊎◌, refl, sym, subst, suc, not, Bool, true, false, Option, none, some, List, [], ◌∷◌,
  ◌++◌, length, ltb, arith, if◌then◌else◌, Bool-cases, inl, inr,
}
use filecloud.Prelude.Bytes.{Bytes, same, same→eq}
use filecloud.Prelude.Sets.{ByteSet, member, add}
use filecloud.Prelude.Outcome.{Error, Result, ok, payload_too_large}
use filecloud.Prelude.Action.{Action, pure, lift, gets, modify, guard, ◌>>=◌, ◌>>◌}
use filecloud.Prelude.Yields.{
  Yields, Yields-pure, Yields-if, Yields-modify, Yields-bind, Yields-lift, Yields-look,
  Yields-guard, Yields-weaken,
}
use filecloud.Object.Values.{Directory, CommitObject}
use filecloud.Storage.Collector.{tick}
use filecloud.Head.State.{
  Limits, Store, State, Missing, Cache, cached, add_missing, note_missing, check_context,
  add_context, plan_key, plan_new, plan,
}
use filecloud.Head.Complete.{IsBlock, IsFile, IsDirectory, IsCommit}

abbrev pub IsClean : State → Type 0
IsClean s = s.missing.ids ≡ []

append_one-not_nil : (xs : List Bytes) (x : Bytes) → xs ++ x ∷ [] ≡ [] → ⊥
append_one-not_nil [] x h = cc
append_one-not_nil (y ∷ ys) x h = cc

listed_known : (id : Bytes) (seen : ByteSet) → seen ≡ [] → member id seen ≡ true → ⊥
listed_known id seen e h = absurd (ground (arith, subst (λ z. member id z ≡ true) e h))

add_missing-not_clean :
    (id : Bytes) (m : Missing) → (m.ids ≡ [] → m.seen ≡ []) → (add_missing id m).ids ≡ [] → ⊥
add_missing-not_clean id m listed h = elim (Bool-cases (member id m.seen)) [
  | inl e ↦ listed_known id m.seen (listed (ground (arith, e, h))) e
  | inr e ↦ elim (Bool-cases (ltb (length m.ids) 100)) [
    | inl k ↦ append_one-not_nil m.ids id (ground (arith, e, k, h))
    | inr k ↦
        let nil : m.ids ≡ [] = ground (arith, e, k, h) in
        absurd (ground (arith, subst (λ z. ltb (length z) 100 ≡ false) nil k))
  ]
]

module _ (store : Store) where
  -- The caches agree with the store; while nothing is missing, they hold nothing that is missing, and the
  -- visited files are files, but for those in `W`.
  pub record IsSound (W : Bytes → Type 0) (s : State) : Type 0 where
    pub commits :
        (id : Bytes) (c : CommitObject) → cached id s.commits ≡ some (some c) → IsCommit store id c
    pub no_commit_missing : IsClean s → (id : Bytes) → cached id s.commits ≡ some none → ⊥
    pub directories :
        (id : Bytes) (d : Directory)
        → cached id s.directories ≡ some (some d)
        → IsDirectory store id d
    pub no_directory_missing : IsClean s → (id : Bytes) → cached id s.directories ≡ some none → ⊥
    pub files : IsClean s → (id : Bytes) → member id s.files ≡ true → IsFile store id ⊎ W id
    pub blocks : (id : Bytes) (n : ℕ) → cached id s.blocks ≡ some (some n) → IsBlock store id n
    pub no_block_missing : IsClean s → (id : Bytes) → cached id s.blocks ≡ some none → ⊥
    pub listed : s.missing.ids ≡ [] → s.missing.seen ≡ []

  -- Sound, and `X` holds if nothing is missing so far.
  pub record Claims (W : Bytes → Type 0) (X : Type 0) (s : State) : Type 0 where
    pub sound : IsSound W s
    pub claim : IsClean s → X

module _ {store : Store} {W : Bytes → Type 0} where
  pub Claims-map : {X Y : Type 0} (s : State) → (X → Y) → Claims store W X s → Claims store W Y s
  Claims-map s f c = record { sound = c.sound; claim = λ h. f (c.claim h) }

  -- The context and the budgets do not count.
  pub Claims-touch :
      {X : Type 0} (s : State) (patience : Option ℕ) (planned : ByteSet) (contexts : ℕ)
      → Claims store W X s
      → Claims store W X (record s { patience = patience; planned = planned; contexts = contexts })
  Claims-touch s patience planned contexts c = record {
    sound = record {
      commits = c.sound.commits;
      no_commit_missing = c.sound.no_commit_missing;
      directories = c.sound.directories;
      no_directory_missing = c.sound.no_directory_missing;
      files = c.sound.files;
      blocks = c.sound.blocks;
      no_block_missing = c.sound.no_block_missing;
      listed = c.sound.listed;
    };
    claim = c.claim;
  }

  module _ {X : Type 0} where
    pub Yields-check_context : Yields (Claims store W X) check_context (λ a. Claims store W X)
    unfolding check_context
    Yields-check_context =
        Yields-look (λ s. tick s.patience) _
          (λ test.
            Yields-lift test _
              (λ left e. Yields-modify _ (λ s h. Claims-touch s left s.planned s.contexts h.0)))

    pub Yields-add_context :
        (limits : Limits) → Yields (Claims store W X) (add_context limits) (λ a. Claims store W X)
    unfolding add_context
    Yields-add_context limits = Yields-bind check_context _ Yields-check_context (λ a.
        Yields-look _ _ (λ full.
          Yields-guard (not full) payload_too_large _ (λ e.
            Yields-modify _ (λ s h. Claims-touch s s.patience s.planned (suc s.contexts) h.0))))

    pub Yields-plan :
        (limits : Limits) (kind id : Bytes)
        → Yields (Claims store W X) (plan limits kind id) (λ a. Claims store W X)
    unfolding plan plan_new
    Yields-plan limits kind id = Yields-bind check_context _ Yields-check_context (λ a.
        Yields-look _ _ (λ known.
          Yields-if known (pure tt) (plan_new limits (plan_key limits kind id))
            (λ e. Yields-pure tt (λ s h. h.0))
            (λ e. Yields-look _ _ (λ full. Yields-guard (not full) payload_too_large _ (λ e.
              Yields-modify _ (λ s h.
                Claims-touch s s.patience (add (plan_key limits kind id) s.planned) s.contexts
                  h.0.0))))))

    -- Behind a missing object nothing is claimed.
    pub Yields-note_missing :
        {Y : Type 0} (id : Bytes)
        → Yields (Claims store W X) (note_missing id) (λ a. Claims store W Y)
    Yields-note_missing id = Yields-modify _ (λ s c.
        let dirty : IsClean (record s { missing = add_missing id s.missing }) → ⊥ =
          λ h. add_missing-not_clean id s.missing c.sound.listed h in
        record {
          sound = record {
            commits = c.sound.commits;
            no_commit_missing = λ h. absurd (dirty h);
            directories = c.sound.directories;
            no_directory_missing = λ h. absurd (dirty h);
            files = λ h. absurd (dirty h);
            blocks = c.sound.blocks;
            no_block_missing = λ h. absurd (dirty h);
            listed = λ h. absurd (dirty h);
          };
          claim = λ h. absurd (dirty h);
        })
