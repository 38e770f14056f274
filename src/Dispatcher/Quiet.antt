-- ===== src/Dispatcher/Quiet.antt =====
-- What the handlers do to the parts of the state that HandleEvent of internal/worker/dispatcher.go reads.
use reservation_worker.Base.{
  Result, ok, err, suc, Bool, true, false, Option, none, some, Error, ◌≡◌, arith, length,
  if◌then◌else◌,
}
use mathlib.Core.Path.{subst}
use reservation_worker.Event.{Event}
use reservation_worker.Config.{Config}
use reservation_worker.Runtime.{Env, State, M}
use reservation_worker.Handler.{handle_expired, handle_approved, handle_failed}
use reservation_worker.Event.{Detail, expired, approved, failed}
use reservation_worker.Event.Laws.{Kind, expiry, approval, failure}
use reservation_worker.Handler.Kinds.{handle}
use reservation_worker.Handler.Outcomes.{select_calls, is_wait, Handled, handle-Handled}
use reservation_worker.Dispatcher.Defs.{route}

pub record IsQuiet (s t : State) : Type 0 where
  pub events_total : t.metrics.events_total ≡ s.metrics.events_total
  pub latency : t.metrics.latency_histogram ≡ s.metrics.latency_histogram
  pub measured : length t.metrics.processing_duration ≡ suc (length s.metrics.processing_duration)
  pub waits : select_calls is_wait t.trace ≡ select_calls is_wait s.trace
  pub events : t.events_chan ≡ s.events_chan

Handled-IsQuiet :
    (k : Kind) (d : Result Detail) (s : State) (r : Option Error × State)
    → Handled k d s r
    → IsQuiet s r.1
Handled-IsQuiet expiry (ok (expired d)) s (r, t) h = ground arith
Handled-IsQuiet expiry (ok (approved d)) s (r, t) h = ground arith
Handled-IsQuiet expiry (ok (failed d)) s (r, t) h = ground arith
Handled-IsQuiet expiry (err e) s (r, t) h = ground arith
Handled-IsQuiet approval (ok (expired d)) s (r, t) h = ground arith
Handled-IsQuiet approval (ok (approved d)) s (r, t) h = ground arith
Handled-IsQuiet approval (ok (failed d)) s (r, t) h = ground arith
Handled-IsQuiet approval (err e) s (r, t) h = ground arith
Handled-IsQuiet failure (ok (expired d)) s (r, t) h = ground arith
Handled-IsQuiet failure (ok (approved d)) s (r, t) h = ground arith
Handled-IsQuiet failure (ok (failed d)) s (r, t) h = ground arith
Handled-IsQuiet failure (err e) s (r, t) h = ground arith

RouteIsQuiet : Option (M (Option Error)) → Type 0
RouteIsQuiet none = Unit
RouteIsQuiet (some handle) = (s : State) → IsQuiet s (handle s).1

RouteIsQuiet-none : RouteIsQuiet none
unfolding RouteIsQuiet
RouteIsQuiet-none = tt

RouteIsQuiet-if :
    (b : Bool) (h : M (Option Error)) (k : Option (M (Option Error)))
    → ((s : State) → IsQuiet s (h s).1)
    → RouteIsQuiet k
    → RouteIsQuiet (if b then some h else k)
unfolding RouteIsQuiet
RouteIsQuiet-if true h k p q = p
RouteIsQuiet-if false h k p q = q

module _ (env : Env) (cfg : Config) where
  handle-IsQuiet :
      (k : Kind) (e : Event) (s : State) → IsQuiet s (handle env cfg.reservation_api_base k e s).1
  handle-IsQuiet k e s = Handled-IsQuiet k _ s _ (handle-Handled env cfg.reservation_api_base k e s)

  route-RouteIsQuiet : (e : Event) → RouteIsQuiet (route env cfg e)
  unfolding route
  route-RouteIsQuiet e =
      let base_url = cfg.reservation_api_base in
      RouteIsQuiet-if _ (handle_expired env base_url e) _ (handle-IsQuiet expiry e) (
        RouteIsQuiet-if _ (handle_approved env base_url e) _ (handle-IsQuiet approval e) (
          RouteIsQuiet-if _ (handle_failed env base_url e) none (handle-IsQuiet failure e)
            RouteIsQuiet-none))

  pub route-IsQuiet :
      (event : Event) {handle : M (Option Error)}
      → route env cfg event ≡ some handle
      → (s : State) → IsQuiet s (handle s).1
  unfolding RouteIsQuiet
  route-IsQuiet event h = subst RouteIsQuiet h (route-RouteIsQuiet event)
