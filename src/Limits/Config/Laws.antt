-- ===== src/Limits/Config/Laws.antt =====
-- The limits in force are positive, and no configuration goes beyond the protocol's.
use filecloud.Prelude.{
  ℕ, zero, suc, ◌≤◌, ◌≢◌, ◌⊎◌, inl, inr, ◌↔◌, ◌≡◌, refl, Bool, true, false, ◌||◌, arith,
  if◌then◌else◌, subst, sym,
}
use filecloud.Prelude.Int.{ℤ, pos, negsuc, less}
use filecloud.Prelude.Outcome.{ok, err, failed}
use filecloud.Limits.Config.{
  HeadValidationConfig, or_default, with_defaults, not_positive, default_head_validation_config,
  not_all_positive, exceeds, checked, normalize_head_validation_config,
}

-- What an accepted configuration meets.
record IsNormal (c : HeadValidationConfig) : Type 0 where
  pub positive : not_all_positive c ≡ false
  pub in_protocol : exceeds default_head_validation_config c ≡ false

checked_parts :
    (a b : Bool) (c d : HeadValidationConfig)
    → (if a
        then err (failed "head validation limits must be positive")
        else if b
        then err (failed "head validation limits exceed protocol maximum")
        else ok c)
      ≡ ok d
    → (a ≡ false) × (b ≡ false) × (c ≡ d)
checked_parts true b c d h = cc
checked_parts false true c d h = cc
checked_parts false false c d h = (refl, refl, cc)

positive_parts :
    (a b c d e f g : Bool)
    → (a || b || c || d || e || f || g) ≡ false
    → (a ≡ false)
      × (b ≡ false)
      × (c ≡ false)
      × (d ≡ false)
      × (e ≡ false)
      × (f ≡ false)
      × (g ≡ false)
positive_parts a b c d e f g h = ground arith

checked_normal :
    (c : HeadValidationConfig) → IsNormal c → checked default_head_validation_config c ≡ ok c
checked_normal c n = rw (n.positive, n.in_protocol)

checked-IsNormal :
    (c d : HeadValidationConfig)
    → checked default_head_validation_config c ≡ ok d
    → IsNormal d × (d ≡ c)
checked-IsNormal c d h =
    let (positive, within, e) =
      checked_parts (not_all_positive c) (exceeds default_head_validation_config c) c d h in
    (subst IsNormal e (record { positive = positive; in_protocol = within }), sym e)

-- A value that was given, or the standard for a zero.
abbrev Settled : ℕ → ℤ → ℤ → Type 0
Settled standard value d = ((value ≡ pos 0) × (d ≡ pos standard)) ⊎ ((value ≢ pos 0) × (d ≡ value))

abbrev IsPositive : ℤ → Type 0
IsPositive d = (n : ℕ) × (d ≡ pos n) × (1 ≤ n)

abbrev Within : ℕ → ℤ → Type 0
Within maximum d = (n : ℕ) × (d ≡ pos n) × (1 ≤ n) × (n ≤ maximum)

-- The configuration in force for a given one, in the numbers of the protocol.
pub record IsNormalized (c d : HeadValidationConfig) : Type 0 where
  pub global_concurrency :
      Settled 2 c.global_concurrency d.global_concurrency × IsPositive d.global_concurrency
  pub request_timeout :
      Settled 120000000000 c.request_timeout d.request_timeout × IsPositive d.request_timeout
  pub max_snapshot_depth :
      Settled 256 c.max_snapshot_depth d.max_snapshot_depth × Within 256 d.max_snapshot_depth
  pub max_traversal_contexts :
      Settled 65536 c.max_traversal_contexts d.max_traversal_contexts
      × Within 65536 d.max_traversal_contexts
  pub max_commit_depth :
      Settled 1024 c.max_commit_depth d.max_commit_depth × Within 1024 d.max_commit_depth
  pub max_introduced_commits :
      Settled 1024 c.max_introduced_commits d.max_introduced_commits
      × Within 1024 d.max_introduced_commits
  pub max_validated_objects :
      Settled 2000000 c.max_validated_objects d.max_validated_objects
      × Within 2000000 d.max_validated_objects

or_default-Settled :
    (standard : ℕ) (value : ℤ) → Settled standard value (or_default value (pos standard))
or_default-Settled standard (pos zero) = inl (refl, refl)
or_default-Settled standard (pos (suc n)) = inr (λ h. cc, refl)
or_default-Settled standard (negsuc n) = inr (λ h. cc, refl)

Settled-or_default :
    (standard : ℕ) (value d : ℤ) → Settled standard value d → or_default value (pos standard) ≡ d
Settled-or_default standard (pos zero) d (inl (h, e)) = sym e
Settled-or_default standard (pos zero) d (inr (h, e)) = absurd (h refl)
Settled-or_default standard (pos (suc n)) d (inl (h, e)) = cc
Settled-or_default standard (pos (suc n)) d (inr (h, e)) = sym e
Settled-or_default standard (negsuc n) d (inl (h, e)) = cc
Settled-or_default standard (negsuc n) d (inr (h, e)) = sym e

not_positive-IsPositive : (d : ℤ) → not_positive d ≡ false → IsPositive d
not_positive-IsPositive (pos n) h = (n, refl, ground (arith, h))
not_positive-IsPositive (negsuc n) h = cc

IsPositive-not_positive : (d : ℤ) → IsPositive d → not_positive d ≡ false
IsPositive-not_positive d (n, e, h) = rw e (ground arith)

less-Within :
    (maximum : ℕ) (d : ℤ) → not_positive d ≡ false → less (pos maximum) d ≡ false → Within maximum d
less-Within maximum (pos n) h k = (n, refl, ground (arith, h), ground (arith, k))
less-Within maximum (negsuc n) h k = cc

Within-less :
    (maximum : ℕ) (d : ℤ)
    → Within maximum d
    → (not_positive d ≡ false) × (less (pos maximum) d ≡ false)
Within-less maximum d (n, e, h, k) = (rw e (ground arith), rw e (ground arith))

five_parts :
    (a b c d e : Bool)
    → (a || b || c || d || e) ≡ false
    → (a ≡ false) × (b ≡ false) × (c ≡ false) × (d ≡ false) × (e ≡ false)
five_parts a b c d e h = ground arith

defaults-IsNormalized :
    (c : HeadValidationConfig)
    → IsNormal (with_defaults default_head_validation_config c)
    → IsNormalized c (with_defaults default_head_validation_config c)
defaults-IsNormalized c n =
    let d = with_defaults default_head_validation_config c in
    let p =
      positive_parts (not_positive d.global_concurrency) (not_positive d.request_timeout)
        (not_positive d.max_snapshot_depth) (not_positive d.max_traversal_contexts)
        (not_positive d.max_commit_depth) (not_positive d.max_introduced_commits)
        (not_positive d.max_validated_objects) n.positive in
    let q =
      five_parts (less (pos 256) d.max_snapshot_depth) (less (pos 65536) d.max_traversal_contexts)
        (less (pos 1024) d.max_commit_depth) (less (pos 1024) d.max_introduced_commits)
        (less (pos 2000000) d.max_validated_objects) n.in_protocol in
    record {
      global_concurrency =
          (or_default-Settled 2 c.global_concurrency, not_positive-IsPositive _ p.0);
      request_timeout =
          (or_default-Settled 120000000000 c.request_timeout, not_positive-IsPositive _ p.1);
      max_snapshot_depth = (or_default-Settled 256 c.max_snapshot_depth, less-Within 256 _ p.2 q.0);
      max_traversal_contexts =
          (or_default-Settled 65536 c.max_traversal_contexts, less-Within 65536 _ p.3 q.1);
      max_commit_depth = (or_default-Settled 1024 c.max_commit_depth, less-Within 1024 _ p.4 q.2);
      max_introduced_commits =
          (or_default-Settled 1024 c.max_introduced_commits, less-Within 1024 _ p.5 q.3);
      max_validated_objects =
          (or_default-Settled 2000000 c.max_validated_objects, less-Within 2000000 _ p.6 q.4);
    }

IsNormalized-defaults :
    (c d : HeadValidationConfig)
    → IsNormalized c d
    → with_defaults default_head_validation_config c ≡ d
IsNormalized-defaults c d n = λ i. record {
  global_concurrency = Settled-or_default 2 _ _ n.global_concurrency.0 i;
  request_timeout = Settled-or_default 120000000000 _ _ n.request_timeout.0 i;
  max_snapshot_depth = Settled-or_default 256 _ _ n.max_snapshot_depth.0 i;
  max_traversal_contexts = Settled-or_default 65536 _ _ n.max_traversal_contexts.0 i;
  max_commit_depth = Settled-or_default 1024 _ _ n.max_commit_depth.0 i;
  max_introduced_commits = Settled-or_default 1024 _ _ n.max_introduced_commits.0 i;
  max_validated_objects = Settled-or_default 2000000 _ _ n.max_validated_objects.0 i;
}

IsNormalized-IsNormal : (c d : HeadValidationConfig) → IsNormalized c d → IsNormal d
IsNormalized-IsNormal c d n =
    let (a, a') = Within-less 256 d.max_snapshot_depth n.max_snapshot_depth.1 in
    let (b, b') = Within-less 65536 d.max_traversal_contexts n.max_traversal_contexts.1 in
    let (e, e') = Within-less 1024 d.max_commit_depth n.max_commit_depth.1 in
    let (f, f') = Within-less 1024 d.max_introduced_commits n.max_introduced_commits.1 in
    let (g, g') = Within-less 2000000 d.max_validated_objects n.max_validated_objects.1 in
    let h = IsPositive-not_positive d.global_concurrency n.global_concurrency.1 in
    let k = IsPositive-not_positive d.request_timeout n.request_timeout.1 in
    record { positive = rw (h, k, a, b, e, f, g) refl; in_protocol = rw (a', b', e', f', g') refl }

-- A given configuration is normalized to another exactly if each value of the other is the given
-- one, or for a zero the protocol's number, and all are positive and the five limits of a snapshot
-- at most the protocol's numbers.
pub normalize_head_validation_config_iff :
    (c d : HeadValidationConfig) → (normalize_head_validation_config c ≡ ok d) ↔ IsNormalized c d
unfolding normalize_head_validation_config
normalize_head_validation_config_iff c d = (
  λ h.
      let (normal, e) = checked-IsNormal (with_defaults default_head_validation_config c) d h in
      subst (λ x. IsNormalized c x) (sym e) (defaults-IsNormalized c (subst IsNormal e normal)),
  λ n.
      subst (λ x. checked default_head_validation_config x ≡ ok d)
        (sym (IsNormalized-defaults c d n)) (checked_normal d (IsNormalized-IsNormal c d n)),
)
