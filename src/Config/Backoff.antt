-- ===== src/Config/Backoff.antt =====
-- GetBackoffDuration of internal/config/config.go.
use Prim.Native.Nat.{min}
use reservation_worker.Base.{
  ℕ, zero, suc, ◌*◌, ◌^◌, ◌≤◌, ◌≡◌, refl, arith, pos, scale, to_int64, to_int64-Fits,
}
use reservation_worker.Config.Defs.{Config, double_from, get_backoff_duration}

-- The loop computes a power of two.
double_from-pow : (attempt : ℕ) → double_from 4 0 attempt 1 ≡ 2 ^ min attempt 4
unfolding double_from
double_from-pow zero = refl
double_from-pow (suc zero) = refl
double_from-pow (suc (suc zero)) = refl
double_from-pow (suc (suc (suc zero))) = refl
double_from-pow (suc (suc (suc (suc n)))) =
    let capped : min (suc (suc (suc (suc n)))) 4 ≡ 4 = omega arith in rw capped (ground arith)

-- The largest base for which no delay leaves the range of time.Duration.
abbrev pub max_base_ms : ℕ
max_base_ms = 576460752303

pow_min-le : (attempt : ℕ) → 2 ^ min attempt 4 ≤ 16
pow_min-le zero = omega arith
pow_min-le (suc zero) = omega arith
pow_min-le (suc (suc zero)) = omega arith
pow_min-le (suc (suc (suc zero))) = omega arith
pow_min-le (suc (suc (suc (suc n)))) =
    let capped : min (suc (suc (suc (suc n)))) 4 ≡ 4 = omega arith in rw capped (omega arith)

millis_fit : (b m : ℕ) → b ≤ max_base_ms → m ≤ 16 → b * m ≤ max_base_ms * 16
millis_fit b m h k = grind arith

scaled :
    (b m : ℕ)
    → b * m ≤ max_base_ms * 16
    → to_int64 (scale (to_int64 (scale (pos b) m)) 1000000) ≡ pos (b * m * 1000000)
unfolding scale
scaled b m h =
    rw (to_int64-Fits (pos (b * m)) (omega arith))
      (to_int64-Fits (pos (b * m * 1000000)) (omega arith))

-- With a base that is not negative and not above the bound max_base_ms, the delay in nanoseconds is
-- the base times 1, 2, 4, 8 and 16 milliseconds from attempt 0 on, and 16 times the base ever
-- after.
pub get_backoff_duration-exact :
    (c : Config) (b attempt : ℕ)
    → c.backoff_base_ms ≡ pos b
    → b ≤ max_base_ms
    → get_backoff_duration c attempt ≡ pos (b * 2 ^ min attempt 4 * 1000000)
unfolding get_backoff_duration
get_backoff_duration-exact c b attempt e h =
    rw (double_from-pow attempt, e)
      (scaled b (2 ^ min attempt 4) (millis_fit b (2 ^ min attempt 4) h (pow_min-le attempt)))
