-- ===== src/Process/Losses.antt =====
-- What a shutdown of cmd/reservation-worker/main.go leaves of the events that its pool accepted.
use reservation_worker.Base.{ℕ, ◌+◌, Bool, false, ◌≡◌, refl, arith}
use reservation_worker.Event.{Event}
use reservation_worker.Pool.Order.{in_hand}
use reservation_worker.Pool.Accounting.{dropped, count, working-IsAtRest, Reach-accounted}
use reservation_worker.Process.Exit.{exited-IsAtRest}
use reservation_worker.Process.Refine.{Reach-pool}
use reservation_worker.Process.Shutdown.{Ending, exited, Process, Reach}

module _ (p : Event → Bool) where
  -- When main has returned and dispatcher.Stop() did not overtake Dispatcher.Start, every accepted
  -- event was handled, given up after a timeout, or is left in the queue.
  pub exited-accounted :
      {n : ℕ} {s : Process} (e : Ending)
      → Reach n s
      → s.main ≡ exited e
      → s.overtaken ≡ false
      → count p s.pool.accepted
        ≡ count p s.pool.queue + count p (dropped s.pool.settled) + count p s.pool.handled
  exited-accounted {n} {s} e r m o =
      let reached = Reach-pool r in
      let rest = exited-IsAtRest e r m o in
      let none_working = working-IsAtRest p reached rest in
      let empty_hand : count p (in_hand s.pool.dispatcher) ≡ 0 = rw rest.dispatcher refl in
      omega (arith, Reach-accounted p reached)
