-- ===== src/Pool/Refine.antt =====
-- That the pool of internal/worker keeps its promise.
use reservation_worker.Base.{
  ap, ℕ, zero, suc, ◌+◌, ◌≤◌, ◌<◌, Bool, true, List, [], ◌∷◌, ◌++◌, ◌≡◌, ◌⊎◌, inl, inr, refl, arith,
  length, length-append, sym,
}
use mathlib.Core.List.{append_assoc, append-nil}
use reservation_worker.Event.{Event}
use reservation_worker.Pool.Count.{total, total-lt, total-zero}
use reservation_worker.Pool.Work.{below, total-update}
use reservation_worker.Pool.Order.{in_hand}
use reservation_worker.Pool.Accounting.{at_worker, dropped, count, count-append}
use reservation_worker.Pool.Prompt.{dropped-append}
use reservation_worker.Pool.Service.{
  Bag, bag, put, size, size-bag, bag-eq, put-eq, Service, no_events, Serve, accept, assign, lose,
  complete,
}
use reservation_worker.Pool.Defs.{
  WorkerAt, absent, registering, selecting, handling, gone, DispatchAt, choosing, holding, sending,
  returned, Fate, delivered, no_worker, not_received, Pool, update, Step, enqueue, hand_over,
  receive, stop_dispatch, pick, give_up, deliver, time_out, register, stop_worker, finish, cancel,
  close_stop, set_gauge, end_early, end_stop, Reach, start, later, started,
}

-- The events that the workers handle.
abbrev pub running_events : (ℕ → WorkerAt) → ℕ → List Event
running_events f zero = []
running_events f (suc n) = running_events f n ++ at_worker (f n)

abbrev pub service : ℕ → Pool → Service
service n s = record {
  pending = in_hand s.dispatcher ++ s.queue;
  running = bag (running_events s.workers n);
  lost = bag (dropped s.settled);
  done = bag s.handled;
}

count-running :
    (p : Event → Bool) (f : ℕ → WorkerAt) (n : ℕ)
    → count p (running_events f n) ≡ total (λ i. count p (at_worker (f i))) n
unfolding total
count-running p f zero = refl
count-running p f (suc n) =
    omega (arith, count-append p (running_events f n) (at_worker (f n)), count-running p f n)

-- What is counted after one worker has moved on.
running-update :
    (p : Event → Bool) (n i : ℕ) (f : ℕ → WorkerAt) (a : WorkerAt)
    → i < n
    → count p (running_events (update f i a) n) + count p (at_worker (f i))
      ≡ count p (running_events f n) + count p (at_worker a)
running-update p n i f a l = omega (
  arith,
  count-running p f n,
  count-running p (update f i a) n,
  total-update (λ w. count p (at_worker w)) n i f a l,
)

one_at_worker : (w : WorkerAt) → count (λ e. true) (at_worker w) ≤ 1
one_at_worker absent = omega arith
one_at_worker registering = omega arith
one_at_worker selecting = omega arith
one_at_worker (handling e) = omega arith
one_at_worker gone = omega arith

size-running :
    (n i : ℕ) (f : ℕ → WorkerAt) → i < n → f i ≡ selecting → size (bag (running_events f n)) < n
size-running n i f l h = omega (
  arith,
  size-bag (running_events f n),
  count-running (λ e. true) f n,
  total-lt (λ j. count (λ e. true) (at_worker (f j))) n i (λ j. one_at_worker (f j)) (rw h refl) l,
)

bag-snoc : (e : Event) (xs : List Event) → bag (xs ++ e ∷ []) ≡ put e (bag xs)
bag-snoc e xs = put-eq e xs (xs ++ e ∷ []) (λ p. ground (arith, count-append p xs (e ∷ [])))

service-eq :
    {p q : List Event} {r u l k d c : Bag}
    → p ≡ q
    → r ≡ u
    → l ≡ k
    → d ≡ c
    → ◌≡◌ {A = Service}
        (record { pending = p; running = r; lost = l; done = d })
        (record { pending = q; running = u; lost = k; done = c })
service-eq a b c d = λ i. record { pending = a i; running = b i; lost = c i; done = d i }

-- A worker that moves on without an event, takes one, or is done with one.
module _ (n i : ℕ) (f : ℕ → WorkerAt) (l : i < n) where
  running-quiet :
      (a : WorkerAt)
      → at_worker (f i) ≡ []
      → at_worker a ≡ []
      → bag (running_events (update f i a) n) ≡ bag (running_events f n)
  running-quiet a before after =
      bag-eq (running_events (update f i a) n) (running_events f n)
        (λ p. omega (arith, running-update p n i f a l, ap (count p) before, ap (count p) after))

  running-take :
      (e : Event)
      → at_worker (f i) ≡ []
      → bag (running_events (update f i (handling e)) n) ≡ put e (bag (running_events f n))
  running-take e before =
      put-eq e (running_events f n) (running_events (update f i (handling e)) n)
        (λ p. ground (arith, running-update p n i f (handling e) l, ap (count p) before))

  running-done :
      (a : WorkerAt) (e : Event)
      → f i ≡ handling e
      → at_worker a ≡ []
      → bag (running_events f n) ≡ put e (bag (running_events (update f i a) n))
  running-done a e before after =
      put-eq e (running_events (update f i a) n) (running_events f n) (λ p. ground (
        arith,
        running-update p n i f a l,
        ap (λ w. count p (at_worker w)) before,
        ap (count p) after,
      ))

in_hand_le : (d : DispatchAt) → length (in_hand d) ≤ 1
in_hand_le choosing = omega arith
in_hand_le (holding e) = omega arith
in_hand_le (sending e i) = omega arith
in_hand_le returned = omega arith

-- What dispatch gives up is lost.
dropped-snoc :
    (xs : List (Event × Fate)) (e : Event) (fate : Fate)
    → dropped ((e, fate) ∷ []) ≡ e ∷ []
    → bag (dropped (xs ++ (e, fate) ∷ [])) ≡ put e (bag (dropped xs))
dropped-snoc xs e fate h = rw (dropped-append xs ((e, fate) ∷ []), h) (bag-snoc e (dropped xs))

-- One step of the pool is one of the service, or is not seen there.
pub Step-Serves :
    {n : ℕ} {s t : Pool}
    → Reach n s
    → Step n s t
    → (service n t ≡ service n s) ⊎ Serve n (service n s) (service n t)
Step-Serves {n} {s} r (enqueue e h) =
    let hand = in_hand s.dispatcher in
    inr (
      accept e (omega (arith, length-append hand s.queue, in_hand_le s.dispatcher))
        (service-eq (sym (append_assoc hand s.queue (e ∷ []))) refl refl refl))
Step-Serves {s} r (hand_over e d q) =
    inr (accept e (rw (d, q) (omega arith)) (service-eq (rw (d, q) refl) refl refl refl))
Step-Serves r (receive e rest d q) = inl (service-eq (rw (d, q) refl) refl refl refl)
Step-Serves r (stop_dispatch d h) = inl (service-eq (rw d refl) refl refl refl)
Step-Serves r (pick e j rest d h) = inl (service-eq (rw d refl) refl refl refl)
Step-Serves {s} r (give_up e d) = inr (
    lose e s.queue (rw d refl)
      (service-eq refl refl (dropped-snoc s.settled e no_worker refl) refl))
Step-Serves {n} {s} r (deliver e j d h) =
    let l = below r j (λ a. cc) in
    let kept : dropped (s.settled ++ (e, delivered j) ∷ []) ≡ dropped s.settled =
      rw (dropped-append s.settled ((e, delivered j) ∷ [])) (append-nil (dropped s.settled)) in
    inr (
      assign e s.queue (rw d refl) (size-running n j s.workers l h)
        (service-eq refl (running-take n j s.workers l e (rw h refl)) (ap bag kept) refl))
Step-Serves {s} r (time_out e j d) = inr (
    lose e s.queue (rw d refl)
      (service-eq refl refl (dropped-snoc s.settled e not_received refl) refl))
Step-Serves {n} {s} r (register j h l) =
    let at = below r j (λ a. cc) in
    inl (service-eq refl (running-quiet n j s.workers at selecting (rw h refl) refl) refl refl)
Step-Serves {n} {s} r (stop_worker j h c) =
    let at = below r j (λ a. cc) in
    inl (service-eq refl (running-quiet n j s.workers at gone (rw h refl) refl) refl refl)
Step-Serves {n} {s} r (finish e j h) =
    let at = below r j (λ a. cc) in
    let others = bag (running_events (update s.workers j registering) n) in
    inr (
      complete e others (running-done n j s.workers at registering e h refl)
        (service-eq refl refl refl (bag-snoc e s.handled)))
Step-Serves r cancel = inl refl
Step-Serves r close_stop = inl refl
Step-Serves r (set_gauge y) = inl refl
Step-Serves r (end_early y z) = inl refl
Step-Serves r (end_stop q d w) = inl refl

-- What the service can come to.
pub data Serving (n : ℕ) : Service → Type 0 where
  idle_yet : Serving n no_events
  and_then : {v w : Service} → Serving n v → Serve n v w → Serving n w

started-no_events : (n : ℕ) → service n (started n) ≡ no_events
started-no_events n =
    let f = (started n).workers in
    let none_at =
      λ (p : Event → Bool). total-zero (λ i. count p (at_worker (f i))) n (λ i. ground arith) in
    service-eq refl
      (bag-eq (running_events f n) [] (λ p. omega (arith, count-running p f n, none_at p))) refl
      refl

-- Every reachable state of the pool is one that the service can come to.
pub Reach-Serving : {n : ℕ} {s : Pool} → Reach n s → Serving n (service n s)
Reach-Serving {n} start = rw (started-no_events n) idle_yet
Reach-Serving (later r st) = elim (Step-Serves r st) [
  | inl unseen ↦ rw unseen (Reach-Serving r)
  | inr served ↦ and_then (Reach-Serving r) served
]
