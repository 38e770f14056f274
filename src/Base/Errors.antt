-- ===== src/Base/Errors.antt =====
-- Go's `error` values as the program makes them, and results that may be an error.
use mathlib.Core.Path.{◌≡◌, refl}
use mathlib.Core.Logic.{◌⊎◌, inl, inr}
use Prim.Native.Nat.{ℕ}
use Prim.Native.String.{String}
use reservation_worker.Base.Int.{ℤ}

-- `canceled` and `deadline_exceeded` are context.Canceled and context.DeadlineExceeded. `foreign` is
-- an error that a library returned. `plain` is fmt.Errorf without `%w`, `wrapped` is
-- fmt.Errorf("<text>: %w", err); the messages with a number have constructors of their own.
pub data Error : Type 0 where
  canceled : Error
  deadline_exceeded : Error
  foreign : String → Error
  plain : String → Error
  wrapped : String → Error → Error
  unknown_event_type : String → Error
  unexpected_status_code : ℕ → String → Error
  operation_failed : String → ℤ → Error → Error
  operation_failed_nil : String → ℤ → Error
  listen_failed : ℤ → Error → Error

pub data Result {ℓ} (A : Type ℓ) : Type ℓ where
  ok : A → Result A
  err : Error → Result A

pub Result-cases {ℓ} :
    {A : Type ℓ} (r : Result A) → ((a : A) × (r ≡ ok a)) ⊎ ((e : Error) × (r ≡ err e))
Result-cases (ok a) = inl (a, refl)
Result-cases (err e) = inr (e, refl)
