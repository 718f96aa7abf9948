-- ===== src/Jobs/Retry.antt =====
-- app/jobs/retry.py: which errors are retried, and after how long.
use ai_game.Base.{ℕ, ◌-◌, ◌*◌, ◌^◌, ltb, if◌then◌else◌}
use ai_game.Errors.{
  Error, retryable_job, llm_timeout, llm_rate_limit, llm_provider_unavailable, database_unavailable,
  tool_timeout, job_lease_lost, operational, dbapi,
}
use ai_game.Constants.{JobErrorClassification, retryable, non_retryable}

-- The `isinstance` tests of `classify_job_error`: the listed classes, and a lost connection.
-- `OperationalError` is a `DBAPIError`.
unfoldable pub classify_job_error : Error → JobErrorClassification
classify_job_error retryable_job = retryable
classify_job_error llm_timeout = retryable
classify_job_error llm_rate_limit = retryable
classify_job_error llm_provider_unavailable = retryable
classify_job_error database_unavailable = retryable
classify_job_error tool_timeout = retryable
classify_job_error job_lease_lost = retryable
classify_job_error operational = retryable
classify_job_error (dbapi connection_invalidated) =
    if connection_invalidated then retryable else non_retryable
classify_job_error _ = non_retryable

abbrev pub min : ℕ → ℕ → ℕ
min a b = if ltb b a then b else a

-- The delay before the next attempt: doubled each time, up to a maximum.
unfoldable pub retry_delay_seconds : ℕ → ℕ → ℕ → ℕ
retry_delay_seconds attempt_count base_seconds maximum_seconds =
    if ltb attempt_count 1
    then base_seconds
    else min (base_seconds * 2 ^ (attempt_count - 1)) maximum_seconds
