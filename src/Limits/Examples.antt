-- ===== src/Limits/Examples.antt =====
-- Runs of the limiters, and uses of their theorems there.
use filecloud.Prelude.{◌≡◌, ◌↔◌, refl, List, [], ◌∷◌}
use filecloud.Prelude.Bytes.{Bytes, codes}
use filecloud.Prelude.Int.{pos}
use filecloud.Prelude.Outcome.{ok}
use filecloud.Limits.History
use filecloud.Limits.History.Invariant as HistoryInvariant
use filecloud.Limits.HeadValidation
use filecloud.Limits.HeadValidation.Invariant as HeadInvariant
use filecloud.Limits.Config.{
  HeadValidationConfig, with_defaults, default_head_validation_config,
  normalize_head_validation_config,
}
use filecloud.Limits.Config.Laws.{IsNormalized, normalize_head_validation_config_iff}

abbrev history_limiter : History.HistoryLimiter
history_limiter = record { global_limit = 2; user_limit = 1; global = 0; users = [] }

-- One user is refused a second slot, another gets one, and one release is called twice.
abbrev history_calls : List History.Call
history_calls =
    History.acquire (codes "ann")
    ∷ History.acquire (codes "ann")
    ∷ History.acquire (codes "bob")
    ∷ History.call_release 0
    ∷ History.call_release 0
    ∷ []

history_limiter_made : History.new_history_limiter 2 1 ≡ ok history_limiter
unfolding History.new_history_limiter
history_limiter_made = refl

run-new_history_limiter_example :
    HistoryInvariant.IsConsistent 2 1
      (History.run history_calls (record { limiter = history_limiter; leases = [] }))
run-new_history_limiter_example =
    HistoryInvariant.run-new_history_limiter 2 1 history_limiter history_calls history_limiter_made

abbrev head_limiter : HeadValidation.HeadLimiter
head_limiter = record { global_limit = 2; global = 0; libraries = [] }

abbrev library : Bytes → HeadValidation.Key
library name = record { owner_id = codes "ann"; library_id = name }

-- A library is refused a second validation until the first has ended.
abbrev head_calls : List HeadValidation.Call
head_calls =
    HeadValidation.acquire (library (codes "photos"))
    ∷ HeadValidation.acquire (library (codes "photos"))
    ∷ HeadValidation.call_release 0
    ∷ HeadValidation.call_release 0
    ∷ HeadValidation.acquire (library (codes "photos"))
    ∷ []

head_limiter_made : HeadValidation.new_head_limiter 2 ≡ ok head_limiter
unfolding HeadValidation.new_head_limiter
head_limiter_made = refl

run-new_head_limiter_example :
    HeadInvariant.IsConsistent 2
      (HeadValidation.run head_calls (record { limiter = head_limiter; leases = [] }))
run-new_head_limiter_example =
    HeadInvariant.run-new_head_limiter 2 head_limiter head_calls head_limiter_made

-- A configuration that sets the concurrency and the depth alone.
abbrev partial_config : HeadValidationConfig
partial_config = record {
  global_concurrency = pos 5;
  request_timeout = pos 0;
  max_snapshot_depth = pos 128;
  max_traversal_contexts = pos 0;
  max_commit_depth = pos 0;
  max_introduced_commits = pos 0;
  max_validated_objects = pos 0;
}

abbrev full_config : HeadValidationConfig
full_config = with_defaults default_head_validation_config partial_config

partial_config_accepted : normalize_head_validation_config partial_config ≡ ok full_config
unfolding normalize_head_validation_config
partial_config_accepted = refl

normalize_head_validation_config_iff_example :
    (normalize_head_validation_config partial_config ≡ ok full_config)
    ↔ IsNormalized partial_config full_config
normalize_head_validation_config_iff_example =
    normalize_head_validation_config_iff partial_config full_config
