-- ===== src/Pool/Tests.antt =====
-- A pool of one worker that handles one event, and the theorems about the pool at its states.
use reservation_worker.Base.{
  Bool, ◌==◌, ◌≤◌, inl, ◌⊎◌, ◌<◌, [], ◌∷◌, ◌≡◌, refl, arith, length, true,
}
use reservation_worker.Pool.Defs.{
  Pool, choosing, holding, not_received, started, time_out, update, returned, registering,
  selecting, handling, sending, delivered, enqueue, receive, pick, deliver, register, finish, gone,
  cancel, close_stop, stop_dispatch, Reach, start, later,
}
use reservation_worker.Pool.Order.{IsOrdered, Reach-IsOrdered}
use reservation_worker.Pool.Ownership.{IsOwned, Reach-IsOwned, register_never_blocks}
use reservation_worker.Pool.Work.{work}
use reservation_worker.Pool.Progress.{Internal, Run, halt, go_on}
use reservation_worker.Pool.Rest.{Run-comes_to_rest}
use reservation_worker.Pool.Prompt.{Prompt, InTime, start_in_time, later_in_time}
use reservation_worker.Pool.Serves.{IsServed, Run-serves}
use reservation_worker.Pool.Service.{Serve}
use reservation_worker.Pool.Refine.{service, Step-Serves}
use reservation_worker.Pool.Lost.{IsLost, timed_out-IsLost}
use reservation_worker.Event.{Event}
use reservation_worker.Pool.Gauge.{IsAtRest}
use reservation_worker.Pool.Shutdown.{Steps, here, more, accepted_may_strand}
use reservation_worker.Samples.{expired_event, approved_event}

-- Worker 0 has registered, and dispatch sends it the first of two events.
abbrev busy : Pool
busy = record (started 1) {
  queue = approved_event ∷ [];
  dispatcher = sending expired_event 0;
  workers = update (started 1).workers 0 selecting;
  accepted = expired_event ∷ approved_event ∷ [];
}

busy-Reach : Reach 1 busy
busy-Reach =
    later
      (later
        (later
          (later (later start (register 0 refl (omega arith)))
            (enqueue expired_event (omega arith)))
          (enqueue approved_event (omega arith)))
        (receive expired_event (approved_event ∷ []) refl refl))
      (pick expired_event 0 [] refl refl)

-- The worker has handled the event and is about to register again.
abbrev again : Pool
again = record busy {
  dispatcher = choosing;
  workers = update (update busy.workers 0 (handling expired_event)) 0 registering;
  settled = (expired_event, delivered 0) ∷ [];
  handled = expired_event ∷ [];
}

again-Reach : Reach 1 again
again-Reach =
    later (later busy-Reach (deliver expired_event 0 refl refl)) (finish expired_event 0 refl)

Reach-IsOrdered_example : IsOrdered busy
Reach-IsOrdered_example = Reach-IsOrdered busy-Reach

Reach-IsOwned_example : IsOwned busy 0
Reach-IsOwned_example = Reach-IsOwned busy-Reach 0

register_never_blocks_example : length again.idle < 1
register_never_blocks_example = register_never_blocks again-Reach 0 (omega arith) refl

accepted_may_strand_example :
    (s : Pool) × Reach 1 s
    × (s.accepted ≡ expired_event ∷ [])
    × ((t : Pool) → Steps 1 s t → t.settled ≡ [])
accepted_may_strand_example = accepted_may_strand 1 expired_event (omega arith)

-- The pool of one worker after its shutdown.
abbrev rested : Pool
rested = record (started 1) {
  idle = 0 ∷ [];
  workers = update (update (started 1).workers 0 selecting) 0 gone;
  dispatcher = returned;
  cancelled = true;
  stopping = true;
  announced = true;
  active = 0;
}

-- The same pool, told to stop.
abbrev told : Pool
told = record (started 1) {
  idle = 0 ∷ [];
  workers = update (started 1).workers 0 selecting;
  cancelled = true;
  stopping = true;
}

told-Reach : Reach 1 told
told-Reach = later (later (later start (register 0 refl (omega arith))) cancel) close_stop

one_turn : Run (Internal 1) told 1 (record told { dispatcher = returned })
one_turn = go_on halt (record { step = stop_dispatch refl (inl refl); internal = refl })

Run-comes_to_rest_example :
    let t = record told { dispatcher = returned } in
    (1 ≤ work 1 told) × (IsAtRest 1 t ⊎ ((u : Pool) × Internal 1 t u))
Run-comes_to_rest_example = Run-comes_to_rest told-Reach refl one_turn

abbrev is_expiry : Event → Bool
is_expiry e = e.event_type == "reservation.expired"

-- No timeout fired before the send of `busy`.
busy-InTime : InTime 1 busy
busy-InTime =
    later_in_time
      (later_in_time
        (later_in_time
          (later_in_time (later_in_time start_in_time (register 0 refl (omega arith)) refl)
            (enqueue expired_event (omega arith)) refl)
          (enqueue approved_event (omega arith)) refl)
        (receive expired_event (approved_event ∷ []) refl refl) refl)
      (pick expired_event 0 [] refl refl) refl

-- The worker of `busy` has its event.
abbrev given : Pool
given = record busy {
  dispatcher = choosing;
  workers = update busy.workers 0 (handling expired_event);
  settled = (expired_event, delivered 0) ∷ [];
}

one_delivery : Run (Prompt 1) busy 1 given
one_delivery =
    go_on halt
      (record { step = deliver expired_event 0 refl refl; internal = refl; in_time = refl })

Run-serves_example : (1 ≤ work 1 busy) × (IsServed 1 given ⊎ ((u : Pool) × Prompt 1 given u))
Run-serves_example = Run-serves (omega arith) busy-InTime refl refl one_delivery

Step-Serves_example :
    (service 1 given ≡ service 1 busy) ⊎ Serve 1 (service 1 busy) (service 1 given)
Step-Serves_example = Step-Serves busy-Reach (deliver expired_event 0 refl refl)

-- The send of `busy` has timed out, and dispatch has gone on to the next event.
abbrev skipped : Pool
skipped = record busy {
  queue = [];
  dispatcher = holding approved_event;
  settled = (expired_event, not_received) ∷ [];
}

timed_out-IsLost_example : IsLost 0 0 skipped
timed_out-IsLost_example =
    timed_out-IsLost expired_event 0 busy-Reach refl refl (time_out expired_event 0 refl) refl
      (more here (receive approved_event [] refl refl))
