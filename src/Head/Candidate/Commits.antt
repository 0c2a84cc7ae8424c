-- ===== src/Head/Candidate/Commits.antt =====
-- What the success of loadCommit tells.
use filecloud.Prelude.{◌≡◌, refl, subst, Option, none, some, Bool-cases, inl, inr}
use filecloud.Prelude.Bytes.{Bytes, codes, same, same→eq}
use filecloud.Prelude.Outcome.{ok}
use filecloud.Prelude.Yields.{
  Yields, Yields-pure, Yields-modify, Yields-bind, Yields-lift, Yields-look, Yields-weaken,
}
use filecloud.Object.Values.{CommitObject}
use filecloud.Head.State.{Limits, Store, cached, note_missing, plan, read_metadata}
use filecloud.Head.Snapshot.{max_commit_body, or_corrupt, recall}
use filecloud.Head.Complete.{IsCommit}
use filecloud.Head.Sound.{Claims, Claims-map, Yields-plan, Yields-note_missing}
use filecloud.Head.Sound.Blocks.{or_corrupt-ok}
use filecloud.Head.Candidate.{remember_commit, settle_commit, read_commit, load_commit}

abbrev pub FoundCommit : Store → Bytes → Option CommitObject → Type 0
FoundCommit store id found = (c : CommitObject) × (found ≡ some c) × IsCommit store id c

module _ {store : Store} {W : Bytes → Type 0} where
  remember_missing :
      {Y : Type 0} (id : Bytes)
      → Yields (Claims store W ⊥) (remember_commit id none) (λ a. Claims store W Y)
  remember_missing id = Yields-modify _ (λ s c. record {
    sound = record {
      listed = c.sound.listed;
      commits = λ j d h. elim (Bool-cases (same id j)) [
        | inl e ↦ cc (e, h)
        | inr e ↦ c.sound.commits j d (cc (e, h))
      ];
      no_commit_missing = λ clean j h. c.claim clean;
      directories = c.sound.directories;
      no_directory_missing = c.sound.no_directory_missing;
      files = c.sound.files;
      blocks = c.sound.blocks;
      no_block_missing = c.sound.no_block_missing;
    };
    claim = λ clean. absurd (c.claim clean);
  })

  remember_found :
      {X : Type 0} (id : Bytes) (d : CommitObject)
      → IsCommit store id d
      → Yields (Claims store W X) (remember_commit id (some d)) (λ a. Claims store W X)
  remember_found id d is_commit = Yields-modify _ (λ s c. record {
    sound = record {
      listed = c.sound.listed;
      commits = λ j k h. elim (Bool-cases (same id j)) [
        | inl e ↦
            let q : d ≡ k = cc (e, h) in
            subst (λ z. IsCommit store z k) (same→eq id j e) (subst (IsCommit store id) q is_commit)
        | inr e ↦ c.sound.commits j k (cc (e, h))
      ];
      no_commit_missing = λ clean j h. elim (Bool-cases (same id j)) [
        | inl e ↦ cc (e, h)
        | inr e ↦ c.sound.no_commit_missing clean j (cc (e, h))
      ];
      directories = c.sound.directories;
      no_directory_missing = c.sound.no_directory_missing;
      files = c.sound.files;
      blocks = c.sound.blocks;
      no_block_missing = c.sound.no_block_missing;
    };
    claim = c.claim;
  })

module _ {store : Store} {W : Bytes → Type 0} {X : Type 0} (limits : Limits) where
  Yields-settle_commit :
      (id : Bytes) (content : Option Bytes)
      → read_metadata store (codes "commits") id max_commit_body ≡ ok content
      → Yields
          (Claims store W X)
          (settle_commit store limits id content)
          (λ found. Claims store W (X × FoundCommit store id found))
  unfolding settle_commit
  Yields-settle_commit id none e =
      Yields-bind (note_missing id) _ (Yields-note_missing {Y = ⊥} id) (λ a.
        Yields-bind (remember_commit id none) _ (remember_missing {Y = ⊥} id)
          (λ b. Yields-pure none (λ s c. Claims-map s (λ z. absurd z) c)))
  Yields-settle_commit id (some content) e =
      Yields-lift (or_corrupt (store.verifier.verify_commit content id)) _ (λ d checked.
        let is_commit : IsCommit store id d = record {
          content = content;
          stored = e;
          verified = or_corrupt-ok _ d checked;
        } in
        Yields-bind (remember_commit id (some d)) _ (remember_found id d is_commit)
          (λ b. Yields-pure (some d) (λ s c. Claims-map s (λ x. (x, (d, refl, is_commit))) c)))

  pub Yields-load_commit :
      (id : Bytes)
      → Yields
          (Claims store W X)
          (load_commit store limits id)
          (λ found. Claims store W (X × FoundCommit store id found))
  unfolding load_commit read_commit
  Yields-load_commit id = Yields-look (λ s. cached id s.commits) _ (λ known. recalled known)
    where
      recalled :
          (known : Option (Option CommitObject))
          → Yields
              (λ s. Claims store W X s × (cached id s.commits ≡ known))
              (recall known (read_commit store limits id))
              (λ found. Claims store W (X × FoundCommit store id found))
      recalled none =
          Yields-bind (plan limits (codes "commits") id) _
            (Yields-weaken _ (λ s h. h.0) (λ a s c. c) (Yields-plan limits (codes "commits") id))
            (λ a.
              Yields-lift (read_metadata store (codes "commits") id max_commit_body) _
                (λ content e. Yields-settle_commit id content e))
      recalled (some none) = Yields-pure none (λ s h. record {
        sound = h.0.sound;
        claim = λ clean. absurd (h.0.sound.no_commit_missing clean id h.1);
      })
      recalled (some (some d)) =
          Yields-pure (some d)
            (λ s h. Claims-map s (λ x. (x, (d, refl, h.0.sound.commits id d h.1))) h.0)
