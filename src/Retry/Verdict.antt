-- ===== src/Retry/Verdict.antt =====
-- DoWithResult of internal/retry/retry.go: how a call ends.
use reservation_worker.Base.{
  ℕ, zero, suc, ◌+◌, String, true, false, Option, none, some, Option-cases, Bool-cases, Error, ◌∷◌,
  operation_failed, operation_failed_nil, Result, ok, err, ◌≡◌, refl, arith, pos, pos_part, ◌≤ℤ◌,
  ◌<ℤ◌, ltb_ℤ, inl, inr,
}
use reservation_worker.Config.{Config, get_backoff_duration}
use reservation_worker.Runtime.{wait, Env, State, M}
use reservation_worker.Retry.Defs.{after_result_call, result_loop, do_with_result, is_last}

module _ (env : Env) (cfg : Config) (operation : String) {A : Type 0} (zero_value : A)
    (fn : M (Result A)) where
  -- `Attempts value error t attempt s`: from this attempt on, in the state `s`, the calls of the
  -- function end with this value and error in the state `t`. One call succeeds; or the last one
  -- allowed fails; or one fails and, after the wait, the next attempt follows; or the context ends,
  -- before an attempt or in a wait.
  pub data Attempts (value : A) (error : Option Error) (t : State) : ℕ → State → Type 0 where
    succeeded :
        {attempt : ℕ} {s : State}
        → env.ctx_err s.trace ≡ none
        → fn s ≡ (ok value, t)
        → error ≡ none
        → Attempts value error t attempt s
    exhausted :
        {attempt : ℕ} {s : State} (e : Error)
        → env.ctx_err s.trace ≡ none
        → fn s ≡ (err e, t)
        → cfg.max_retries ≡ pos (suc attempt)
        → value ≡ zero_value
        → error ≡ some (operation_failed operation cfg.max_retries e)
        → Attempts value error t attempt s
    retried :
        {attempt : ℕ} {s : State} (e : Error) (u : State)
        → env.ctx_err s.trace ≡ none
        → fn s ≡ (err e, u)
        → pos (suc attempt) <ℤ cfg.max_retries
        → env.on_wait u.trace (get_backoff_duration cfg attempt) ≡ none
        → Attempts value error t
            (suc attempt)
            (record u { trace = wait (get_backoff_duration cfg attempt) ∷ u.trace })
        → Attempts value error t attempt s
    stopped_before :
        {attempt : ℕ} {s : State} (c : Error)
        → env.ctx_err s.trace ≡ some c
        → t ≡ s
        → value ≡ zero_value
        → error ≡ some c
        → Attempts value error t attempt s
    stopped_waiting :
        {attempt : ℕ} {s : State} (e c : Error) (u : State)
        → env.ctx_err s.trace ≡ none
        → fn s ≡ (err e, u)
        → pos (suc attempt) <ℤ cfg.max_retries
        → env.on_wait u.trace (get_backoff_duration cfg attempt) ≡ some c
        → t ≡ record u { trace = wait (get_backoff_duration cfg attempt) ∷ u.trace }
        → value ≡ zero_value
        → error ≡ some c
        → Attempts value error t attempt s

  pub record Ends (attempt : ℕ) (s : State) (out : Option (A × Option Error) × State) : Type 0 where
    pub value : A
    pub error : Option Error
    pub returned : out.0 ≡ some (value, error)
    pub attempts : Attempts value error out.1 attempt s

  -- The last attempt is told apart by its number.
  not_last :
      (attempt : ℕ)
      → pos attempt <ℤ cfg.max_retries
      → is_last cfg attempt ≡ false
      → pos (suc attempt) <ℤ cfg.max_retries
  not_last attempt less h = ground arith

  is_last-max : (attempt : ℕ) → is_last cfg attempt ≡ true → cfg.max_retries ≡ pos (suc attempt)
  is_last-max attempt h = ground arith

  Ends-retried :
      {attempt : ℕ} {s : State} {e : Error} {u : State} {out : Option (A × Option Error) × State}
      → env.ctx_err s.trace ≡ none
      → fn s ≡ (err e, u)
      → pos (suc attempt) <ℤ cfg.max_retries
      → env.on_wait u.trace (get_backoff_duration cfg attempt) ≡ none
      → Ends
          (suc attempt)
          (record u { trace = wait (get_backoff_duration cfg attempt) ∷ u.trace })
          out
      → Ends attempt s out
  Ends-retried {e} {u} live called less waited h = record {
    value = h.value;
    error = h.error;
    returned = h.returned;
    attempts = retried e u live called less waited h.attempts;
  }

  after_result_call-Ends :
      (attempt : ℕ) (again : Option Error → M (Option (A × Option Error))) (s : State)
      (r : Result A) (t : State)
      → env.ctx_err s.trace ≡ none
      → fn s ≡ (r, t)
      → pos attempt <ℤ cfg.max_retries
      → ((last : Option Error) (u : State)
          → pos (suc attempt) <ℤ cfg.max_retries
          → Ends (suc attempt) u (again last u))
      → Ends attempt s (after_result_call env cfg operation zero_value fn attempt again r t)
  unfolding after_result_call
  after_result_call-Ends attempt again s (ok a) t live called less h = record {
    value = a;
    error = none;
    returned = refl;
    attempts = succeeded live called refl;
  }
  after_result_call-Ends attempt again s (err e) t live called less h =
      elim (Bool-cases (is_last cfg attempt)) [
        | inl last ↦ rw last (record {
          value = zero_value;
          error = some (operation_failed operation cfg.max_retries e);
          returned = refl;
          attempts = exhausted e live called (is_last-max attempt last) refl refl;
        })
        | inr more ↦ elim (Option-cases (env.on_wait t.trace (get_backoff_duration cfg attempt))) [
          | inl waited ↦
              rw (more, waited)
                (Ends-retried live called (not_last attempt less more) waited
                  (h (some e) _ (not_last attempt less more)))
          | inr (c, stopped) ↦
              rw (more, stopped)
                (record {
                  value = zero_value;
                  error = some c;
                  returned = refl;
                  attempts =
                      stopped_waiting e c t live called (not_last attempt less more) stopped refl
                        refl refl;
                })
        ]
      ]

  result_loop-Ends :
      (fuel attempt : ℕ) (last : Option Error) (s : State)
      → pos attempt <ℤ cfg.max_retries
      → cfg.max_retries ≤ℤ pos (attempt + fuel)
      → Ends attempt s (result_loop env cfg operation zero_value fn fuel attempt last s)
  unfolding result_loop
  result_loop-Ends zero attempt last s less enough = absurd (omega arith)
  result_loop-Ends (suc fuel) attempt last s less enough =
      let tested : ltb_ℤ (pos attempt) cfg.max_retries ≡ true = ground arith in
      elim (Option-cases (env.ctx_err s.trace)) [
        | inl live ↦
            rw (tested, live)
              (after_result_call-Ends attempt
                (result_loop env cfg operation zero_value fn fuel (suc attempt)) s _ _ live refl
                less (λ e u less'. result_loop-Ends fuel (suc attempt) e u less' (omega arith)))
        | inr (c, stopped) ↦
            rw (tested, stopped)
              (record {
                value = zero_value;
                error = some c;
                returned = refl;
                attempts = stopped_before c stopped refl refl refl;
              })
      ]

  -- With at least one attempt allowed, and that much fuel, DoWithResult returns. It ends as a run of
  -- attempts from 0 on: the first success is its answer, the context's error ends it before an attempt
  -- or in the wait between two, each wait is the backoff of the attempt before it, and it wraps the
  -- function's error after exactly max_retries failures.
  pub do_with_result-Ends :
      (s : State)
      → pos 1 ≤ℤ cfg.max_retries
      → Ends 0 s (do_with_result env cfg operation zero_value fn (pos_part cfg.max_retries) s)
  unfolding do_with_result
  do_with_result-Ends s h =
      result_loop-Ends (pos_part cfg.max_retries) 0 none s (omega arith) (ground arith)

  -- With no attempt allowed DoWithResult never calls the function: nothing happens, and the error
  -- wraps nil.
  pub do_with_result-none :
      (fuel : ℕ) (s : State)
      → cfg.max_retries ≤ℤ pos 0
      → do_with_result env cfg operation zero_value fn (suc fuel) s
        ≡ (some (zero_value, some (operation_failed_nil operation cfg.max_retries)), s)
  unfolding do_with_result
  do_with_result-none fuel s h = ground arith
