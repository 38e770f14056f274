-- ===== src/Retry/Defs.antt =====
-- Retryer.Do, DoWithResult and IsRetryable of internal/retry/retry.go.
use reservation_worker.Base.{
  ℕ, zero, suc, String, Bool, true, false, ◌&&◌, Option, none, some, Error, canceled,
  deadline_exceeded, operation_failed, operation_failed_nil, Result, ok, err, pos, leb_ℤ, ltb_ℤ,
  if◌then◌else◌,
}
use reservation_worker.Config.{Config, get_backoff_duration}
use reservation_worker.Runtime.{wait, Env, M, ◌>>=◌, return, ask}

-- fmt.Errorf("operation %s failed after %d attempts: %w", operation, r.config.MaxRetries, lastErr)
abbrev pub failed_after : Config → String → Option Error → Error
failed_after cfg operation none = operation_failed_nil operation cfg.max_retries
failed_after cfg operation (some e) = operation_failed operation cfg.max_retries e

-- attempt == r.config.MaxRetries-1
abbrev pub is_last : Config → ℕ → Bool
is_last cfg attempt =
    leb_ℤ (pos (suc attempt)) cfg.max_retries && leb_ℤ cfg.max_retries (pos (suc attempt))

-- A result `none` of the loops means that their fuel ran out.
module _ (env : Env) (cfg : Config) (operation : String) where
  module _ (fn : M (Option Error)) where
    -- What follows a call of the function; `again` is the rest of the loop, from the last error on.
    unfoldable pub after_call :
        ℕ → (Option Error → M (Option (Option Error))) → Option Error → M (Option (Option Error))
    after_call attempt again none = return (some none)
    after_call attempt again (some e) =
        let backoff = get_backoff_duration cfg attempt in
        if is_last cfg attempt
        then return (some (some (failed_after cfg operation (some e))))
        else do
          stopped ← ask (wait backoff) (λ past. env.on_wait past backoff)
          elim stopped [ some c ↦ return (some (some c)) | none ↦ again (some e) ]

    unfoldable pub do_loop : ℕ → ℕ → Option Error → M (Option (Option Error))
    unfolding after_call
    do_loop zero attempt last s = (none, s)
    do_loop (suc fuel) attempt last s =
        let again = do_loop fuel (suc attempt) in
        if ltb_ℤ (pos attempt) cfg.max_retries
        then elim (env.ctx_err s.trace) [
          | some c ↦ (some (some c), s)
          | none ↦ let (e, t) = fn s in after_call attempt again e t
        ]
        else (some (some (failed_after cfg operation last)), s)

    -- Retryer.Do, with fuel for its loop.
    unfoldable pub do_retry : ℕ → M (Option (Option Error))
    unfolding do_loop
    do_retry fuel = do_loop fuel 0 none

  -- `zero_value` is the zero value of the type parameter.
  module _ {A : Type 0} (zero_value : A) (fn : M (Result A)) where
    unfoldable pub after_result_call :
        ℕ
        → (Option Error → M (Option (A × Option Error)))
        → Result A
        → M (Option (A × Option Error))
    after_result_call attempt again (ok a) = return (some (a, none))
    after_result_call attempt again (err e) =
        let backoff = get_backoff_duration cfg attempt in
        if is_last cfg attempt
        then return (some (zero_value, some (failed_after cfg operation (some e))))
        else do
          stopped ← ask (wait backoff) (λ past. env.on_wait past backoff)
          elim stopped [ some c ↦ return (some (zero_value, some c)) | none ↦ again (some e) ]

    unfoldable pub result_loop : ℕ → ℕ → Option Error → M (Option (A × Option Error))
    unfolding after_result_call
    result_loop zero attempt last s = (none, s)
    result_loop (suc fuel) attempt last s =
        let again = result_loop fuel (suc attempt) in
        if ltb_ℤ (pos attempt) cfg.max_retries
        then elim (env.ctx_err s.trace) [
          | some c ↦ (some (zero_value, some c), s)
          | none ↦ let (r, t) = fn s in after_result_call attempt again r t
        ]
        else (some (zero_value, some (failed_after cfg operation last)), s)

    -- DoWithResult, with fuel for its loop.
    unfoldable pub do_with_result : ℕ → M (Option (A × Option Error))
    unfolding result_loop
    do_with_result fuel = result_loop fuel 0 none

-- IsRetryable: the two errors of a context that has ended, compared as they are.
unfoldable pub is_retryable : Error → Bool
is_retryable canceled = false
is_retryable deadline_exceeded = false
is_retryable _ = true
