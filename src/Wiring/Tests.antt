-- ===== src/Wiring/Tests.antt =====
-- The objects of a process with two workers.
use reservation_worker.Base.{ℕ, ◌<◌, ◌≤◌, ◌^◌, ◌⊎◌, none, some, ◌≡◌, refl, arith}
use reservation_worker.Samples.{config}
use reservation_worker.Wiring.Defs.{Parts, Dispatcher, SqsPoller, wire}
use reservation_worker.Wiring.Shared.{IsWired, wire-IsWired}

abbrev parts : Parts
parts = record { inventory_client = 10; reservation_client = 11; logger = 12; metrics = 13 }

wire-IsWired_example :
    let n : ℕ = 2 in
    ((n < 2 ^ 62)
      × (d : Dispatcher) × (p : SqsPoller) × (wire config parts 0 ≡ some (d, p))
      × IsWired n config parts d p)
    ⊎ ((2 ^ 62 ≤ n) × (wire config parts 0 ≡ none))
wire-IsWired_example = wire-IsWired config parts 0 2 refl (omega arith)
