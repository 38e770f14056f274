-- ===== src/Dispatcher/Slept.antt =====
-- How long HandleEvent of internal/worker/dispatcher.go sleeps, and so holds its worker.
use Prim.Native.Nat.{min}
use reservation_worker.Base.{
  ℕ, zero, suc, ◌+◌, ◌-◌, ◌*◌, ◌^◌, ◌≤◌, none, some, List, [], ◌∷◌, ◌≡◌, ◌⊎◌, refl, arith, ap, ltb,
  if◌then◌else◌, pos, pos_part,
}
use reservation_worker.Event.{Event}
use reservation_worker.Event.Laws.{Kind, kind_of_type}
use reservation_worker.Config.{Config, get_backoff_duration}
use reservation_worker.Config.Backoff.{max_base_ms, get_backoff_duration-exact}
use reservation_worker.Runtime.{Call, sleep, wait, Env, State}
use reservation_worker.Handler.Outcomes.{select_calls, is_wait}
use reservation_worker.Dispatcher.Defs.{handle_event}
use reservation_worker.Dispatcher.Runs.{backoffs}
use reservation_worker.Dispatcher.Verdict.{enough_fuel, worker_call-Ends}

-- The nanoseconds that were slept.
abbrev pub slept : List Call → ℕ
slept [] = 0
slept (sleep d ∷ rest) = pos_part d + slept rest
slept (_ ∷ rest) = slept rest

-- The sum of the powers of two, capped at 16, of the attempts 1 to `retries`.
abbrev pub backoff_units : ℕ → ℕ
backoff_units retries = if ltb retries 4 then 2 ^ suc retries - 2 else 16 * retries - 34

units_from : ℕ → ℕ → ℕ
units_from attempt zero = 0
units_from attempt (suc n) = 2 ^ min attempt 4 + units_from (suc attempt) n

units_from-late : (attempt n : ℕ) → 4 ≤ attempt → units_from attempt n ≡ 16 * n
unfolding units_from
units_from-late attempt zero h = refl
units_from-late attempt (suc n) h =
    let capped : min attempt 4 ≡ 4 = omega arith in
    rw capped (omega (arith, units_from-late (suc attempt) n))

units_from-closed : (n : ℕ) → units_from 1 n ≡ backoff_units n
unfolding units_from
units_from-closed zero = refl
units_from-closed (suc zero) = refl
units_from-closed (suc (suc zero)) = refl
units_from-closed (suc (suc (suc zero))) = refl
units_from-closed (suc (suc (suc (suc n)))) = ground (arith, units_from-late 4 (suc n))

slept-select : (calls : List Call) → slept (select_calls is_wait calls) ≡ slept calls
slept-select [] = refl
slept-select (sleep d ∷ rest) = omega (arith, slept-select rest)
slept-select (wait d ∷ rest) = slept-select rest
slept-select (_ ∷ rest) = slept-select rest

module _ (cfg : Config) (b : ℕ) (base : cfg.backoff_base_ms ≡ pos b) (fits : b ≤ max_base_ms) where
  slept-backoffs :
      (attempt n : ℕ) (before : List Call)
      → slept (backoffs cfg attempt n before) ≡ slept before + b * units_from attempt n * 1000000
  unfolding units_from
  slept-backoffs attempt zero before = omega arith
  slept-backoffs attempt (suc n) before =
      let this = get_backoff_duration-exact cfg b attempt base fits in
      let d = get_backoff_duration cfg attempt in
      let exact : pos_part d ≡ b * 2 ^ min attempt 4 * 1000000 = ap pos_part this in
      grind (arith, slept-backoffs (suc attempt) n (sleep d ∷ before))

  -- With a base that is not negative and not above the bound max_base_ms, a worker's call for an event
  -- of a known type sleeps, in all its retries, for the base times 2, 4, 8 and then 16 milliseconds
  -- each; there are fewer retries than max_retries, and, if it returns an
  -- error, exactly one fewer (none if max_retries is less than one).
  pub worker_call-slept :
      (env : Env) (event : Event) (s : State) {k : Kind}
      → kind_of_type event.event_type ≡ some k
      → let (result, t) = handle_event env cfg (enough_fuel env cfg) event 1 s in
        (retries : ℕ) × (slept t.trace ≡ slept s.trace + b * backoff_units retries * 1000000)
        × (retries ≤ pos_part cfg.max_retries - 1)
        × ((result ≡ some none) ⊎ (retries ≡ pos_part cfg.max_retries - 1))
  worker_call-slept env event s h =
      let run = worker_call-Ends env cfg event s h in
      let t = (handle_event env cfg (enough_fuel env cfg) event 1 s).1 in
      (
        run.retries,
        omega (
          arith,
          slept-select t.trace,
          slept-select s.trace,
          ap slept run.ran.waited,
          slept-backoffs 1 run.retries (select_calls is_wait s.trace),
          ap (λ (u : ℕ). b * u * 1000000) (units_from-closed run.retries),
        ),
        ground arith,
        ground arith,
      )
