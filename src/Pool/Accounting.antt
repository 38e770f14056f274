-- ===== src/Pool/Accounting.antt =====
-- Where the events that the pool of internal/worker/dispatcher.go accepted are.
use reservation_worker.Base.{
  ◌<◌, ℕ, suc, ◌+◌, Bool, List, [], ◌∷◌, ◌++◌, map, ◌≡◌, ap, arith, if◌then◌else◌, ltb, ltb→lt,
  Bool-cases, inl, inr, refl,
}
use reservation_worker.Event.{Event}
use reservation_worker.Pool.Count.{total, total-zero}
use reservation_worker.Pool.Order.{in_hand, event_of, Reach-IsOrdered}
use reservation_worker.Pool.Gauge.{IsAtRest}
use reservation_worker.Pool.Ownership.{Reach-absent}
use reservation_worker.Pool.Work.{below, total-update}
use reservation_worker.Pool.Defs.{
  WorkerAt, absent, registering, selecting, handling, gone, Fate, delivered, no_worker,
  not_received, Pool, Step, give_up, deliver, time_out, register, stop_worker, finish, Reach, start,
  later,
}

-- The events that dispatch gave up, and those that it gave to a worker.
abbrev pub dropped : List (Event × Fate) → List Event
dropped [] = []
dropped ((e, delivered i) ∷ rest) = dropped rest
dropped ((e, no_worker) ∷ rest) = e ∷ dropped rest
dropped ((e, not_received) ∷ rest) = e ∷ dropped rest

abbrev pub given : List (Event × Fate) → List Event
given [] = []
given ((e, delivered i) ∷ rest) = e ∷ given rest
given ((e, no_worker) ∷ rest) = given rest
given ((e, not_received) ∷ rest) = given rest

-- The event that a worker handles.
abbrev pub at_worker : WorkerAt → List Event
at_worker (handling e) = e ∷ []
at_worker _ = []

module _ (p : Event → Bool) where
  -- How many of the events have the property.
  abbrev pub count : List Event → ℕ
  count [] = 0
  count (e ∷ es) = if p e then suc (count es) else count es

  pub count-append : (xs ys : List Event) → count (xs ++ ys) ≡ count xs + count ys
  count-append [] ys = omega arith
  count-append (x ∷ xs) ys = ground (arith, count-append xs ys)

  count-settled :
      (fates : List (Event × Fate))
      → count (map event_of fates) ≡ count (given fates) + count (dropped fates)
  count-settled [] = omega arith
  count-settled ((e, delivered i) ∷ rest) = ground (arith, count-settled rest)
  count-settled ((e, no_worker) ∷ rest) = ground (arith, count-settled rest)
  count-settled ((e, not_received) ∷ rest) = ground (arith, count-settled rest)

  given-append :
      (xs ys : List (Event × Fate)) → count (given (xs ++ ys)) ≡ count (given xs) + count (given ys)
  given-append [] ys = omega arith
  given-append ((e, delivered i) ∷ rest) ys = ground (arith, given-append rest ys)
  given-append ((e, no_worker) ∷ rest) ys = given-append rest ys
  given-append ((e, not_received) ∷ rest) ys = given-append rest ys

  abbrev pub working : ℕ → Pool → ℕ
  working n s = total (λ i. count (at_worker (s.workers i))) n

  -- What was given to a worker is being handled or has been.
  abbrev IsGiven : ℕ → Pool → Type 0
  IsGiven n s = count (given s.settled) ≡ working n s + count s.handled

  Step-IsGiven : {n : ℕ} {s t : Pool} → Reach n s → Step n s t → IsGiven n s → IsGiven n t
  Step-IsGiven {s} r (give_up e d) g =
      omega (arith, g, given-append s.settled ((e, no_worker) ∷ []))
  Step-IsGiven {s} r (time_out e i d) g =
      omega (arith, g, given-append s.settled ((e, not_received) ∷ []))
  Step-IsGiven {n} {s} r (deliver e i d h) g = ground (
    arith,
    given-append s.settled ((e, delivered i) ∷ []),
    total-update (λ w. count (at_worker w)) n i s.workers (handling e) (below r i (λ a. cc)),
  )
  Step-IsGiven {n} {s} r (register i h l) g =
      ground (
        arith,
        total-update (λ w. count (at_worker w)) n i s.workers selecting (below r i (λ a. cc)),
      )
  Step-IsGiven {n} {s} r (stop_worker i h c) g =
      ground
        (arith, total-update (λ w. count (at_worker w)) n i s.workers gone (below r i (λ a. cc)))
  Step-IsGiven {n} {s} r (finish e i h) g = ground (
    arith,
    count-append s.handled (e ∷ []),
    total-update (λ w. count (at_worker w)) n i s.workers registering (below r i (λ a. cc)),
  )
  Step-IsGiven r st g = g

  Reach-IsGiven : {n : ℕ} {s : Pool} → Reach n s → IsGiven n s
  Reach-IsGiven {n} start = omega (
    arith,
    total-zero (λ i. count (at_worker (if ltb i n then registering else absent))) n
        (λ i. ground arith),
  )
  Reach-IsGiven (later r st) = Step-IsGiven r st (Reach-IsGiven r)

  -- Of the accepted events with any property, each is in exactly one place: queued, in the hands of
  -- dispatch, given up after a timeout, being handled by a worker, or handled.
  pub Reach-accounted :
      {n : ℕ} {s : Pool}
      → Reach n s
      → count s.accepted
        ≡ count s.queue
          + count (in_hand s.dispatcher)
          + count (dropped s.settled)
          + working n s
          + count s.handled
  Reach-accounted {n} {s} r =
      let hand = in_hand s.dispatcher in
      omega (
        arith,
        ap count (Reach-IsOrdered r),
        count-append (map event_of s.settled) (hand ++ s.queue),
        count-append hand s.queue,
        count-settled s.settled,
        Reach-IsGiven r,
      )

  -- Nothing is being handled.
  pub working-none :
      {n : ℕ} {s : Pool}
      → Reach n s
      → ((i : ℕ) → i < n → at_worker (s.workers i) ≡ [])
      → working n s ≡ 0
  working-none {n} {s} r none_at =
      total-zero (λ i. count (at_worker (s.workers i))) n
        (λ i. elim (Bool-cases (ltb i n)) [
          | inl less ↦ rw (none_at i (ltb→lt i n less)) refl
          | inr above ↦ rw (Reach-absent r i (ground arith)) refl
        ])

  pub working-IsAtRest : {n : ℕ} {s : Pool} → Reach n s → IsAtRest n s → working n s ≡ 0
  working-IsAtRest r rest = working-none r (λ i l. rw (rest.workers i l) refl)
