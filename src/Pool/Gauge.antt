-- ===== src/Pool/Gauge.antt =====
-- The gauge of active workers that Start and Stop of internal/worker/dispatcher.go set.
use reservation_worker.Base.{false, ℕ, ◌<◌, true, ◌≡◌, ◌⊎◌, arith}
use reservation_worker.Pool.Defs.{
  gone, returned, Pool, Step, enqueue, hand_over, receive, stop_dispatch, pick, give_up, deliver,
  time_out, register, stop_worker, finish, cancel, close_stop, set_gauge, end_early, end_stop,
}

-- Every goroutine of the pool has returned.
pub record IsAtRest (n : ℕ) (s : Pool) : Type 0 where
  pub dispatcher : s.dispatcher ≡ returned
  pub workers : (i : ℕ) → i < n → s.workers i ≡ gone

pub Step-IsAtRest : {n : ℕ} {s t : Pool} → Step n s t → IsAtRest n s → IsAtRest n t
Step-IsAtRest (enqueue e h) r = record { dispatcher = r.dispatcher; workers = r.workers }
Step-IsAtRest (hand_over e d q) r = ground arith
Step-IsAtRest (receive e rest d q) r = ground arith
Step-IsAtRest (stop_dispatch d h) r = ground arith
Step-IsAtRest (pick e j rest d h) r = ground arith
Step-IsAtRest (give_up e d) r = ground arith
Step-IsAtRest (deliver e j d h) r = record {
  dispatcher = ground arith;
  workers = λ i l. ground (arith, r.workers i l);
}
Step-IsAtRest (time_out e j d) r = ground arith
Step-IsAtRest (register j h l) r = record {
  dispatcher = ground arith;
  workers = λ i l. ground (arith, r.workers i l);
}
Step-IsAtRest (stop_worker j h c) r = record {
  dispatcher = ground arith;
  workers = λ i l. ground (arith, r.workers i l);
}
Step-IsAtRest (finish e j h) r = record {
  dispatcher = ground arith;
  workers = λ i l. ground (arith, r.workers i l);
}
Step-IsAtRest cancel r = record { dispatcher = r.dispatcher; workers = r.workers }
Step-IsAtRest close_stop r = record { dispatcher = r.dispatcher; workers = r.workers }
Step-IsAtRest (set_gauge y) r = record { dispatcher = r.dispatcher; workers = r.workers }
Step-IsAtRest (end_early y z) r = record { dispatcher = r.dispatcher; workers = r.workers }
Step-IsAtRest (end_stop p d w) r = record { dispatcher = r.dispatcher; workers = r.workers }

-- The gauge shows 0 until Start has set it, and from then on the number of workers, or 0 after Stop with
-- the pool at rest.
abbrev pub IsGauged : ℕ → Pool → Type 0
IsGauged n s =
    ((s.announced ≡ false) × (s.active ≡ 0))
    ⊎ ((s.announced ≡ true) × (s.active ≡ n))
    ⊎ ((s.announced ≡ true) × (s.active ≡ 0) × (s.stopping ≡ true) × IsAtRest n s)
