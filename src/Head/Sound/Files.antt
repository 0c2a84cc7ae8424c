-- ===== src/Head/Sound/Files.antt =====
-- What the success of validateFile tells.
use filecloud.Prelude.{◌≡◌, sym, ◌∙◌, subst, Option, none, some, arith, Bool-cases, inl, inr}
use filecloud.Prelude.Bytes.{Bytes, codes, same, same→eq}
use filecloud.Prelude.Sets.{member, add, member-add}
use filecloud.Prelude.Outcome.{ok}
use filecloud.Prelude.Action.{pure, modify}
use filecloud.Prelude.Yields.{
  Yields, Yields-pure, Yields-if, Yields-modify, Yields-bind, Yields-lift, Yields-look,
  Yields-weaken,
}
use filecloud.Head.State.{Limits, Store, State, plan, read_metadata}
use filecloud.Head.Snapshot.{max_file_body, settle_file, validate_new_file, validate_file}
use filecloud.Head.Complete.{IsFile}
use filecloud.Head.Sound.Blocks.{Yields-validate_content}
use filecloud.Head.Sound.{Claims, Claims-map, Yields-plan, Yields-note_missing}

-- The file that is being validated is among the visited ones already.
abbrev Only : Bytes → Bytes → Type 0
Only id j = j ≡ id

abbrev pub Nothing : Bytes → Type 0
Nothing j = ⊥

module _ {store : Store} where
  Yields-visit_file :
      {X : Type 0} (id : Bytes)
      → Yields
          (Claims store Nothing X)
          (modify (λ s. record s { files = add id s.files }))
          (λ a. Claims store (Only id) X)
  Yields-visit_file id = Yields-modify _ (λ s c. record {
    sound = record {
      listed = c.sound.listed;
      commits = c.sound.commits;
      no_commit_missing = c.sound.no_commit_missing;
      directories = c.sound.directories;
      no_directory_missing = c.sound.no_directory_missing;
      files = λ clean j h. elim (Bool-cases (same id j)) [
        | inl e ↦ inr (sym (same→eq id j e))
        | inr e ↦ elim (c.sound.files clean j (ground (arith, e, h, member-add id j s.files))) [
          | inl f ↦ inl f
          | inr n ↦ absurd n
        ]
      ];
      blocks = c.sound.blocks;
      no_block_missing = c.sound.no_block_missing;
    };
    claim = c.claim;
  })

  visited-IsFile :
      {X : Type 0} (id : Bytes) (s : State)
      → Claims store (Only id) (X × IsFile store id) s
      → Claims store Nothing (X × IsFile store id) s
  visited-IsFile id s c = record {
    sound = record {
      listed = c.sound.listed;
      commits = c.sound.commits;
      no_commit_missing = c.sound.no_commit_missing;
      directories = c.sound.directories;
      no_directory_missing = c.sound.no_directory_missing;
      files = λ clean j h. elim (c.sound.files clean j h) [
        | inl f ↦ inl f
        | inr e ↦ inl (subst (IsFile store) (sym e) (c.claim clean).1)
      ];
      blocks = c.sound.blocks;
      no_block_missing = c.sound.no_block_missing;
    };
    claim = c.claim;
  }

module _ {store : Store} (limits : Limits) where
  Yields-settle_file :
      {X : Type 0} (id : Bytes) (content : Option Bytes)
      → read_metadata store (codes "files") id max_file_body ≡ ok content
      → Yields
          (Claims store (Only id) X)
          (settle_file store limits id content)
          (λ a. Claims store (Only id) (X × IsFile store id))
  unfolding settle_file
  Yields-settle_file id none e = Yields-note_missing id
  Yields-settle_file id (some content) e =
      Yields-weaken _ (λ s c. c)
        (λ a s c.
          Claims-map s
            (λ (x, (f, verified, add_up)). (
              x,
              record {
                content = content;
                stored = e;
                file = f;
                verified = verified;
                blocks = add_up;
              },
            ))
            c)
        (Yields-validate_content limits id content)

  -- A file that validateFile accepts is there with all of its blocks, unless something is missing.
  pub Yields-validate_file :
      {X : Type 0} (id : Bytes)
      → Yields
          (Claims store Nothing X)
          (validate_file store limits id)
          (λ a. Claims store Nothing (X × IsFile store id))
  unfolding validate_file validate_new_file
  Yields-validate_file {X} id =
      Yields-look (λ s. member id s.files) _
        (λ known.
          Yields-if known (pure tt) (validate_new_file store limits id)
            (λ e. Yields-pure tt (λ s h. record {
              sound = h.0.sound;
              claim = λ clean. elim (h.0.sound.files clean id (h.1 ∙ e)) [
                | inl f ↦ (h.0.claim clean, f)
                | inr n ↦ absurd n
              ];
            }))
            (λ e.
              Yields-bind (plan limits (codes "files") id) _
                (Yields-weaken _ (λ s h. h.0) (λ a s c. c) (Yields-plan limits (codes "files") id))
                (λ a.
                  Yields-bind (modify (λ s. record s { files = add id s.files })) _
                    (Yields-visit_file id)
                    (λ b.
                      Yields-lift (read_metadata store (codes "files") id max_file_body) _
                        (λ content read.
                          Yields-weaken _ (λ s c. c) (λ d s c. visited-IsFile id s c)
                            (Yields-settle_file id content read))))))
