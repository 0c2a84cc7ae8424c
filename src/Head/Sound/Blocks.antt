-- ===== src/Head/Sound/Blocks.antt =====
-- What the success of the loop over the blocks of a file tells.
use filecloud.Prelude.{
  ℕ, ◌+◌, ◌≡◌, refl, sym, ap, ◌∙◌, subst, Option, none, some, List, [], ◌∷◌, arith, ◌==◌, ==_iff,
  Bool-cases, inl, inr,
}
use filecloud.Prelude.Bytes.{Bytes, codes, same, same→eq}
use filecloud.Prelude.Outcome.{Result, ok, err, corrupt_object}
use filecloud.Prelude.Yields.{
  Yields, Yields-pure, Yields-modify, Yields-bind, Yields-lift, Yields-look, Yields-guard,
  Yields-weaken, Yields-test,
}
use filecloud.Object.Values.{File}
use filecloud.Head.State.{block_content, Limits, Opened, Store, cached, note_missing, plan}
use filecloud.Head.Snapshot.{
  or_corrupt, check_total, remember_block, recall, increased, after_block, checked_block,
  settle_block, read_block, load_block, total_blocks, validate_content,
}
use filecloud.Head.Complete.{IsBlock, AddUp}
use filecloud.Head.Sound.{Claims, Claims-map, Yields-plan, Yields-note_missing}

pub or_corrupt-ok : {A : Type 0} (r : Result A) (a : A) → or_corrupt r ≡ ok a → r ≡ ok a
or_corrupt-ok (ok b) a h = h
or_corrupt-ok (err e) a h = cc

pub some-eq : {A : Type 0} (a b : A) → some a ≡ some b → a ≡ b
some-eq a b h = cc

pub some_not_none : {A : Type 0} (a : A) → none ≡ some a → ⊥
some_not_none a h = cc

-- The content of a file: its blocks add up to its size.
abbrev pub HasContent : Store → Bytes → Bytes → Type 0
HasContent store id content =
    (f : File) × (store.verifier.verify_file content id ≡ ok f) × AddUp store f.blocks f.size

-- A block that is found.
abbrev pub Found : Store → Bytes → Option ℕ → Type 0
Found store id found = (n : ℕ) × (found ≡ some n) × IsBlock store id n

module _ {store : Store} {W : Bytes → Type 0} (limits : Limits) where
  -- Something is missing already.
  remember_missing :
      {Y : Type 0} (id : Bytes)
      → Yields (Claims store W ⊥) (remember_block id none) (λ a. Claims store W Y)
  remember_missing id = Yields-modify _ (λ s c. record {
    sound = record {
      listed = c.sound.listed;
      commits = c.sound.commits;
      no_commit_missing = c.sound.no_commit_missing;
      directories = c.sound.directories;
      no_directory_missing = c.sound.no_directory_missing;
      files = c.sound.files;
      blocks = λ j k h. elim (Bool-cases (same id j)) [
        | inl e ↦ cc (e, h)
        | inr e ↦ c.sound.blocks j k (cc (e, h))
      ];
      no_block_missing = λ clean j h. c.claim clean;
    };
    claim = λ clean. absurd (c.claim clean);
  })

  module _ {X : Type 0} where
    remember_found :
        (id : Bytes) (n : ℕ)
        → IsBlock store id n
        → Yields (Claims store W X) (remember_block id (some n)) (λ a. Claims store W X)
    remember_found id n block = Yields-modify _ (λ s c. record {
      sound = record {
        listed = c.sound.listed;
        commits = c.sound.commits;
        no_commit_missing = c.sound.no_commit_missing;
        directories = c.sound.directories;
        no_directory_missing = c.sound.no_directory_missing;
        files = c.sound.files;
        blocks = λ j k h. elim (Bool-cases (same id j)) [
          | inl e ↦
              let q : n ≡ k = cc (e, h) in
              subst (λ z. IsBlock store z k) (same→eq id j e) (subst (IsBlock store id) q block)
          | inr e ↦ c.sound.blocks j k (cc (e, h))
        ];
        no_block_missing = λ clean j h. elim (Bool-cases (same id j)) [
          | inl e ↦ cc (e, h)
          | inr e ↦ c.sound.no_block_missing clean j (cc (e, h))
        ];
      };
      claim = c.claim;
    })

    Yields-settle_block :
        (id : Bytes) (opened : Option Opened)
        → store.get_object (codes "blocks") id ≡ ok opened
        → Yields
            (Claims store W X)
            (settle_block store limits id opened)
            (λ found. Claims store W (X × Found store id found))
    unfolding settle_block
    Yields-settle_block id none e =
        Yields-bind (note_missing id) _ (Yields-note_missing {Y = ⊥} id) (λ a.
          Yields-bind (remember_block id none) _ (remember_missing {Y = ⊥} id)
            (λ b. Yields-pure none (λ s c. Claims-map s (λ z. absurd z) c)))
    Yields-settle_block id (some file) e =
        Yields-lift (checked_block store id file.size (block_content file)) _ (λ size checked.
          let block : IsBlock store id size = record {
            file = file;
            stored = e;
            checked = checked;
          } in
          Yields-bind (remember_block id (some size)) _ (remember_found id size block)
            (λ b. Yields-pure (some size) (λ s c. Claims-map s (λ x. (x, (size, refl, block))) c)))

    Yields-load_block :
        (id : Bytes)
        → Yields
            (Claims store W X)
            (load_block store limits id)
            (λ found. Claims store W (X × Found store id found))
    unfolding load_block read_block
    Yields-load_block id = Yields-look (λ s. cached id s.blocks) _ (λ known. recalled known)
      where
        recalled :
            (known : Option (Option ℕ))
            → Yields
                (λ s. Claims store W X s × (cached id s.blocks ≡ known))
                (recall known (read_block store limits id))
                (λ found. Claims store W (X × ((n : ℕ) × (found ≡ some n) × IsBlock store id n)))
        recalled none =
            Yields-bind (plan limits (codes "blocks") id) _
              (Yields-weaken _ (λ s h. h.0) (λ a s h. h) (Yields-plan limits (codes "blocks") id))
              (λ a.
                Yields-lift (store.get_object (codes "blocks") id) _
                  (λ opened e. Yields-settle_block id opened e))
        recalled (some none) = Yields-pure none (λ s h. record {
          sound = h.0.sound;
          claim = λ clean. absurd (h.0.sound.no_block_missing clean id h.1);
        })
        recalled (some (some n)) =
            Yields-pure (some n)
              (λ s h. Claims-map s (λ x. (x, (n, refl, h.0.sound.blocks id n h.1))) h.0)

  -- The blocks of a file from here on, whose total is known to be `n` where it is known at all.
  Yields-total_blocks :
      {X : Type 0} (ids : List Bytes) (total : Option ℕ)
      → Yields
          (Claims store W (X × ((n : ℕ) × (total ≡ some n))))
          (total_blocks store limits ids total)
          (λ out.
            Claims store W (
              X
              × ((n : ℕ) × (k : ℕ) × (total ≡ some n) × (out ≡ some (n + k)) × AddUp store ids k)))
  unfolding total_blocks
  Yields-total_blocks [] total =
      Yields-pure total
        (λ s c. Claims-map s (λ (x, (n, e)). (x, (n, 0, e, e ∙ ap some (omega arith), refl))) c)
  Yields-total_blocks {X} (id ∷ ids) total =
      Yields-bind (load_block store limits id) _ (Yields-load_block id)
        (λ block. counted (λ Y t. Yields-total_blocks {X = Y} ids t) block)
    where
      counted :
          ((Y : Type 0) (t : Option ℕ)
            → Yields
                (Claims store W (Y × ((n : ℕ) × (t ≡ some n))))
                (total_blocks store limits ids t)
                (λ out. Claims store W (
                  Y
                  × ((n : ℕ) × (k : ℕ) × (t ≡ some n) × (out ≡ some (n + k)) × AddUp store ids k))))
          → (block : Option ℕ)
          → Yields
              (Claims store W ((X × ((n : ℕ) × (total ≡ some n))) × Found store id block))
              (after_block ids total block (total_blocks store limits ids))
              (λ out. Claims store W (
                X
                × ((n : ℕ) × (k : ℕ) × (total ≡ some n)
                    × (out ≡ some (n + k))
                    × AddUp store (id ∷ ids) k)))
      counted rest none =
          Yields-weaken _ (λ s c. Claims-map s (λ (x, (n, e, b)). absurd (some_not_none n e)) c)
            (λ out s c. Claims-map s (λ (b, r). absurd b) c) (rest ⊥ none)
      counted rest (some size) = Yields-guard _ corrupt_object _ (λ full.
          Yields-weaken _
            (λ s c.
              Claims-map s
                (λ ((x, (n, e)), (m, q, b)). (
                  (x, ((n, e), subst (IsBlock store id) (sym (some-eq size m q)) b)),
                  (n + size, ap (λ t. increased t size) e),
                ))
                c)
            (λ out s c.
              Claims-map s
                (λ ((x, ((n, e), b)), (m, k, grown, done, add_up)).
                  let same_total : n + size ≡ m =
                    some-eq (n + size) m (sym (ap (λ t. increased t size) e) ∙ grown) in
                  (
                    x,
                    (
                      n,
                      size + k,
                      e,
                      done ∙ ap some (omega (arith, same_total)),
                      (size, k, b, full, add_up, refl),
                    ),
                  ))
                c)
            (rest (X × (((n : ℕ) × (total ≡ some n)) × IsBlock store id size))
              (increased total size)))

  Yields-check_total :
      {X : Type 0} (size : ℕ) (total : Option ℕ)
      → Yields
          (Claims store W (X × ((k : ℕ) × (total ≡ some k))))
          (check_total size total)
          (λ a. Claims store W (X × (total ≡ some size)))
  Yields-check_total size none =
      Yields-pure tt (λ s c. Claims-map s (λ (x, (k, e)). absurd (some_not_none k e)) c)
  Yields-check_total size (some total) =
      Yields-test (total == size) corrupt_object
        (λ s c same_size. Claims-map s (λ (x, r). (x, ap some ((==_iff total size).0 same_size))) c)

  pub Yields-validate_content :
      {X : Type 0} (id content : Bytes)
      → Yields
          (Claims store W X)
          (validate_content store limits id content)
          (λ a. Claims store W (X × HasContent store id content))
  unfolding validate_content
  Yields-validate_content {X} id content =
      Yields-lift (or_corrupt (store.verifier.verify_file content id)) _ (λ file e.
        Yields-bind (total_blocks store limits file.blocks (some 0)) _
          (Yields-weaken _ (λ s c. Claims-map s (λ x. (x, (0, refl))) c) (λ out s c. c)
            (Yields-total_blocks file.blocks (some 0)))
          (λ out.
            Yields-weaken (check_total file.size out)
              (λ s c.
                Claims-map s
                  (λ (x, (n, k, e₀, done, add_up)).
                    let counted : out ≡ some k = done ∙ ap some (omega (arith, some-eq 0 n e₀)) in
                    ((x, (k, counted, add_up)), (k, counted)))
                  c)
              (λ a s c.
                Claims-map s
                  (λ ((x, (n, counted, add_up)), all_of_it). (
                    x,
                    (
                      file,
                      or_corrupt-ok _ file e,
                      subst (AddUp store file.blocks)
                          (some-eq n file.size (sym counted ∙ all_of_it)) add_up,
                    ),
                  ))
                  c)
              (Yields-check_total {X = X × ((n : ℕ) × (out ≡ some n) × AddUp store file.blocks n)}
                file.size out)))
