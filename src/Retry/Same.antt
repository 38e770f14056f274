-- ===== src/Retry/Same.antt =====
-- Retryer.Do and DoWithResult of internal/retry/retry.go, side by side.
use reservation_worker.Base.{
  ℕ, zero, suc, String, Option, none, some, Option-cases, Bool-cases, Error, Result, ok, err, ◌≡◌,
  refl, pos, ltb_ℤ, inl, inr,
}
use reservation_worker.Config.{Config, get_backoff_duration}
use reservation_worker.Runtime.{Env, State, M}
use reservation_worker.Retry.Defs.{
  after_call, do_loop, do_retry, after_result_call, result_loop, do_with_result, is_last,
}

abbrev pub to_result : Option Error → Result (Unit {0})
to_result none = ok tt
to_result (some e) = err e

-- A function that returns an error, as one that returns an empty result or an error.
abbrev pub with_unit : M (Option Error) → M (Result (Unit {0}))
with_unit fn s = (to_result (fn s).0, (fn s).1)

abbrev pub add_unit : Option (Option Error) → Option (Unit {0} × Option Error)
add_unit none = none
add_unit (some e) = some (tt, e)

abbrev pub add_unit_to : Option (Option Error) × State → Option (Unit {0} × Option Error) × State
add_unit_to out = (add_unit out.0, out.1)

module _ (env : Env) (cfg : Config) (operation : String) (fn : M (Option Error)) where
  after_call-eq :
      (attempt : ℕ) (again : Option Error → M (Option (Option Error)))
      (again' : Option Error → M (Option (Unit {0} × Option Error)))
      → ((last : Option Error) (u : State) → again' last u ≡ add_unit_to (again last u))
      → (e : Option Error) (t : State)
      → after_result_call env cfg operation tt (with_unit fn) attempt again' (to_result e) t
        ≡ add_unit_to (after_call env cfg operation fn attempt again e t)
  unfolding after_call after_result_call
  after_call-eq attempt again again' h none t = refl
  after_call-eq attempt again again' h (some e) t = elim (Bool-cases (is_last cfg attempt)) [
    | inl last ↦ rw last
    | inr more ↦ elim (Option-cases (env.on_wait t.trace (get_backoff_duration cfg attempt))) [
      | inl waited ↦ rw (more, waited) (h (some e) _)
      | inr (c, stopped) ↦ rw (more, stopped)
    ]
  ]

  loops-eq :
      (fuel attempt : ℕ) (last : Option Error) (s : State)
      → result_loop env cfg operation tt (with_unit fn) fuel attempt last s
        ≡ add_unit_to (do_loop env cfg operation fn fuel attempt last s)
  unfolding do_loop result_loop
  loops-eq zero attempt last s = refl
  loops-eq (suc fuel) attempt last s = elim (Bool-cases (ltb_ℤ (pos attempt) cfg.max_retries)) [
    | inl less ↦ elim (Option-cases (env.ctx_err s.trace)) [
      | inl live ↦
          rw (less, live)
            (after_call-eq attempt (do_loop env cfg operation fn fuel (suc attempt))
              (result_loop env cfg operation tt (with_unit fn) fuel (suc attempt))
              (loops-eq fuel (suc attempt)) (fn s).0 (fn s).1)
      | inr (c, stopped) ↦ rw (less, stopped)
    ]
    | inr over ↦ rw over
  ]

  -- On every path Retryer.Do, and DoWithResult for a function without a result, return the same
  -- error in the same state.
  pub do_retry-do_with_result :
      (fuel : ℕ) (s : State)
      → do_with_result env cfg operation tt (with_unit fn) fuel s
        ≡ add_unit_to (do_retry env cfg operation fn fuel s)
  unfolding do_retry do_with_result
  do_retry-do_with_result fuel s = loops-eq fuel 0 none s
