-- ===== src/Handler/Refine.antt =====
-- The contracts of internal/handler/expired.go, approved.go and failed.go, as lists of steps.
use reservation_worker.Base.{
  Option, Error, String, none, some, List, [], ◌∷◌, ◌≡◌, ◌↔◌, arith, if◌then◌else◌,
}
use reservation_worker.Event.{ReservationExpiredDetail, PaymentApprovedDetail, PaymentFailedDetail}
use reservation_worker.Client.{
  client_release_hold, client_commit_reservation, update_reservation_status,
}
use reservation_worker.Runtime.{Env, State, M}
use reservation_worker.Event.{Detail, expired, approved, failed}
use reservation_worker.Event.Laws.{kind_of_detail}
use reservation_worker.Handler.Kinds.{handler_name, span_name, attributes_of, process}
use reservation_worker.Handler.Saga.{Step, saga, AllSucceed, saga-none}
use reservation_worker.Handler.Finish.{open_span, has_seats}
use reservation_worker.Handler.Expired.{release_of_expired, status_of_expired, process_expired}
use reservation_worker.Handler.Approved.{status_of_approved, commit_of_approved, process_approved}
use reservation_worker.Handler.Failed.{status_of_failed, release_of_failed, process_failed}

module _ (env : Env) (base_url : String) where
  -- Release the hold, then mark the reservation EXPIRED; both are required.
  abbrev pub expired_steps : ReservationExpiredDetail → List Step
  expired_steps d =
      record {
        action = client_release_hold env (release_of_expired d);
        context = some "failed to release hold";
      }
      ∷ record {
        action = update_reservation_status env base_url (status_of_expired d);
        context = some "failed to update reservation status";
      }
      ∷ []

  -- Mark the reservation CONFIRMED, which is required; commit the seats if there are any.
  abbrev pub approved_steps : PaymentApprovedDetail → List Step
  approved_steps d =
      record {
        action = update_reservation_status env base_url (status_of_approved d);
        context = some "failed to update reservation status";
      }
      ∷ (if has_seats d.event_id d.seat_ids
          then record {
            action = client_commit_reservation env (commit_of_approved d);
            context = none;
          }
            ∷ []
          else [])

  -- Mark the reservation CANCELLED, then release the hold if there are seats; both are required.
  abbrev pub failed_steps : PaymentFailedDetail → List Step
  failed_steps d =
      record {
        action = update_reservation_status env base_url (status_of_failed d);
        context = some "failed to update reservation status";
      }
      ∷ (if has_seats d.event_id d.seat_ids
          then record {
            action = client_release_hold env (release_of_failed d);
            context = some "failed to release hold";
          }
            ∷ []
          else [])

  abbrev pub steps_of : Detail → List Step
  steps_of (expired d) = expired_steps d
  steps_of (approved d) = approved_steps d
  steps_of (failed d) = failed_steps d

  -- The contract of a detail.
  abbrev pub saga_of : Detail → M (Option Error)
  saga_of d =
      let k = kind_of_detail d in saga (handler_name k) (span_name k) (attributes_of d) (steps_of d)

  process-eq : (d : Detail) (s : State) → process env base_url d s ≡ saga_of d s
  unfolding process_expired process_approved process_failed saga
  process-eq (expired d) s = ground arith
  process-eq (approved d) s = ground arith
  process-eq (failed d) s = ground arith

  -- With a detail of its kind, Handle of each handler is the contract of its steps, in result and in
  -- state; it returns no error exactly when every required step succeeds in the state that the steps
  -- before it leave.
  pub process-saga :
      (d : Detail) (s : State)
      → (process env base_url d s ≡ saga_of d s)
        × (((process env base_url d s).0 ≡ none)
            ↔ AllSucceed
                (steps_of d)
                (open_span (span_name (kind_of_detail d)) (attributes_of d) s).1)
  process-saga d s =
      let k = kind_of_detail d in
      (
        process-eq d s,
        rw (process-eq d s)
            (saga-none (handler_name k) (span_name k) (attributes_of d) (steps_of d) s),
      )
