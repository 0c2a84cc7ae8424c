-- ===== src/Limits/Config.antt =====
-- normalizeHeadValidationConfig of internal/library/head_limits.go and normalizeHistoryConfig of
-- history_limits.go. A duration is a number of nanoseconds.
pub mod Laws
use filecloud.Prelude.{Bool, true, false, ◌||◌, if◌then◌else◌}
use filecloud.Prelude.Int.{ℤ, pos, negsuc, is_zero, less}
use filecloud.Prelude.Outcome.{Result, ok, err, failed}

pub record HeadValidationConfig : Type 0 where
  pub global_concurrency : ℤ
  pub request_timeout : ℤ
  pub max_snapshot_depth : ℤ
  pub max_traversal_contexts : ℤ
  pub max_commit_depth : ℤ
  pub max_introduced_commits : ℤ
  pub max_validated_objects : ℤ

-- `if value == 0 { value = standard }`
abbrev pub or_default : ℤ → ℤ → ℤ
or_default value standard = if is_zero value then standard else value

abbrev pub with_defaults : HeadValidationConfig → HeadValidationConfig → HeadValidationConfig
with_defaults standard c = record {
  global_concurrency = or_default c.global_concurrency standard.global_concurrency;
  request_timeout = or_default c.request_timeout standard.request_timeout;
  max_snapshot_depth = or_default c.max_snapshot_depth standard.max_snapshot_depth;
  max_traversal_contexts = or_default c.max_traversal_contexts standard.max_traversal_contexts;
  max_commit_depth = or_default c.max_commit_depth standard.max_commit_depth;
  max_introduced_commits = or_default c.max_introduced_commits standard.max_introduced_commits;
  max_validated_objects = or_default c.max_validated_objects standard.max_validated_objects;
}

-- `value < 1`, and `value <= 0` of a duration.
abbrev pub not_positive : ℤ → Bool
not_positive value = less value (pos 1)

-- DefaultHeadValidationConfig
abbrev pub default_head_validation_config : HeadValidationConfig
default_head_validation_config = record {
  global_concurrency = pos 2;
  request_timeout = pos 120000000000;
  max_snapshot_depth = pos 256;
  max_traversal_contexts = pos 65536;
  max_commit_depth = pos 1024;
  max_introduced_commits = pos 1024;
  max_validated_objects = pos 2000000;
}

abbrev pub not_all_positive : HeadValidationConfig → Bool
not_all_positive c =
    not_positive c.global_concurrency
    || not_positive c.request_timeout
    || not_positive c.max_snapshot_depth
    || not_positive c.max_traversal_contexts
    || not_positive c.max_commit_depth
    || not_positive c.max_introduced_commits
    || not_positive c.max_validated_objects

-- Some protocol limit of the second is above that of the first.
abbrev pub exceeds : HeadValidationConfig → HeadValidationConfig → Bool
exceeds standard c =
    less standard.max_snapshot_depth c.max_snapshot_depth
    || less standard.max_traversal_contexts c.max_traversal_contexts
    || less standard.max_commit_depth c.max_commit_depth
    || less standard.max_introduced_commits c.max_introduced_commits
    || less standard.max_validated_objects c.max_validated_objects

-- The two tests, of a configuration in which the defaults are filled in.
abbrev pub checked : HeadValidationConfig → HeadValidationConfig → Result HeadValidationConfig
checked standard c =
    if not_all_positive c
    then err (failed "head validation limits must be positive")
    else if exceeds standard c
    then err (failed "head validation limits exceed protocol maximum")
    else ok c

unfoldable pub normalize_head_validation_config : HeadValidationConfig → Result HeadValidationConfig
normalize_head_validation_config config =
    checked default_head_validation_config (with_defaults default_head_validation_config config)

pub record HistoryConfig : Type 0 where
  pub global_concurrency : ℤ
  pub user_concurrency : ℤ
  pub request_timeout : ℤ

-- DefaultHistoryConfig
abbrev pub default_history_config : HistoryConfig
default_history_config = record {
  global_concurrency = pos 2;
  user_concurrency = pos 1;
  request_timeout = pos 120000000000;
}

abbrev history_with_defaults : HistoryConfig → HistoryConfig → HistoryConfig
history_with_defaults standard c = record {
  global_concurrency = or_default c.global_concurrency standard.global_concurrency;
  user_concurrency = or_default c.user_concurrency standard.user_concurrency;
  request_timeout = or_default c.request_timeout standard.request_timeout;
}

abbrev history_checked : HistoryConfig → Result HistoryConfig
history_checked c =
    if not_positive c.global_concurrency
      || not_positive c.user_concurrency
      || not_positive c.request_timeout
    then err (failed "history limits must be positive")
    else ok c

unfoldable pub normalize_history_config : HistoryConfig → Result HistoryConfig
normalize_history_config config =
    history_checked (history_with_defaults default_history_config config)
