-- ===== src/Retry/Tests.antt =====
-- The theorems about the retry loop, for a function that asks the reservation API.
use reservation_worker.Base.{Option, Error, ◌≡◌, arith}
use reservation_worker.Runtime.{M}
use reservation_worker.Client.{UpdateStatusRequest, update_reservation_status}
use reservation_worker.Retry.Defs.{do_retry, do_with_result}
use reservation_worker.Retry.Verdict.{Ends, do_with_result-Ends}
use reservation_worker.Retry.Same.{with_unit, add_unit_to, do_retry-do_with_result}
use reservation_worker.Samples.{config, broken, fresh}

abbrev confirm : UpdateStatusRequest
confirm = record { reservation_id = "rsv_1"; status = "CONFIRMED"; order_id = "" }

abbrev attempt_update : M (Option Error)
attempt_update = update_reservation_status broken "http://api" confirm

do_with_result-Ends_example :
    Ends broken config "confirm" tt
      (with_unit attempt_update)
      0
      fresh
      (do_with_result broken config "confirm" tt (with_unit attempt_update) 3 fresh)
do_with_result-Ends_example =
    do_with_result-Ends broken config "confirm" tt (with_unit attempt_update) fresh (omega arith)

do_retry-do_with_result_example :
    do_with_result broken config "confirm" tt (with_unit attempt_update) 3 fresh
    ≡ add_unit_to (do_retry broken config "confirm" attempt_update 3 fresh)
do_retry-do_with_result_example =
    do_retry-do_with_result broken config "confirm" attempt_update 3 fresh
