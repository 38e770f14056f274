-- ===== src/Pool/Service.antt =====
-- What the pool of internal/worker promises: a bounded queue in front of a number of servers. It
-- forgets which worker handles an event, and in which order events are handled and lost.
use Prim.Native.Nat.{ℕ}
use mathlib.Core.Quot
use mathlib.Core.Quot.{Quot, Quot-set}
use native.Mathlib.Nat.{ℕ_set}
use reservation_worker.Base.{
  ◌*◌, ◌≤◌, ◌<◌, Bool, true, List, [], ◌∷◌, ◌++◌, ◌≡◌, refl, arith, length,
}
use reservation_worker.Event.{Event}
use reservation_worker.Pool.Accounting.{count}

-- The same events, as often.
abbrev pub SameEvents : List Event → List Event → Type 0
SameEvents xs ys = (p : Event → Bool) → count p xs ≡ count p ys

abbrev pub Bag : Type 0
Bag = Quot SameEvents

abbrev pub bag : List Event → Bag
bag = Quot.mk

SameEvents-cons : (e : Event) (xs ys : List Event) → SameEvents xs ys → SameEvents (e ∷ xs) (e ∷ ys)
SameEvents-cons e xs ys h p = ground (arith, h p)

pub put : Event → Bag → Bag
put e = Quot.lift Quot-set (λ xs. bag (e ∷ xs)) (λ xs ys h. Quot.sound (SameEvents-cons e xs ys h))

pub size : Bag → ℕ
size = Quot.lift ℕ_set (count (λ e. true)) (λ xs ys h. h (λ e. true))

pub size-bag : (xs : List Event) → size (bag xs) ≡ count (λ e. true) xs
unfolding size
size-bag xs = refl

-- Two lists that count alike are one bag.
pub bag-eq : (xs ys : List Event) → SameEvents xs ys → bag xs ≡ bag ys
bag-eq xs ys h = Quot.sound h

pub put-eq :
    (e : Event) (xs ys : List Event)
    → ((p : Event → Bool) → count p ys ≡ count p (e ∷ xs))
    → bag ys ≡ put e (bag xs)
unfolding put
put-eq e xs ys h = Quot.sound h

pub record Service : Type 0 where
  pub pending : List Event
  pub running : Bag
  pub lost : Bag
  pub done : Bag

abbrev pub no_events : Service
no_events = record { pending = []; running = bag []; lost = bag []; done = bag [] }

-- What the service may do.
pub data Serve (n : ℕ) (v w : Service) : Type 0 where
  accept :
      (e : Event)
      → length v.pending ≤ n * 2
      → w ≡ record v { pending = v.pending ++ e ∷ [] }
      → Serve n v w
  assign :
      (e : Event) (rest : List Event)
      → v.pending ≡ e ∷ rest
      → size v.running < n
      → w ≡ record v { pending = rest; running = put e v.running }
      → Serve n v w
  lose :
      (e : Event) (rest : List Event)
      → v.pending ≡ e ∷ rest
      → w ≡ record v { pending = rest; lost = put e v.lost }
      → Serve n v w
  complete :
      (e : Event) (others : Bag)
      → v.running ≡ put e others
      → w ≡ record v { running = others; done = put e v.done }
      → Serve n v w
