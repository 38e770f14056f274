-- ===== src/Handler/Saga.antt =====
-- The contract of a Handle method of internal/handler, apart from its code: a span around steps that
-- run in order, of which some are required and the others are best effort.
use reservation_worker.Base.{String, Option, none, some, List, [], ◌∷◌, Error, ◌≡◌, ◌↔◌, refl}
use reservation_worker.Runtime.{Attribute, State, M, ◌>>◌}
use reservation_worker.Handler.Finish.{open_span, fail_handler, succeed_handler}

-- `context` is the text put in front of the error of a required step.
pub record Step : Type 0 where
  pub action : M (Option Error)
  pub context : Option String

abbrev pub settle : String → Option String → Option Error → M (Option Error) → M (Option Error)
settle handler (some c) (some e) rest = fail_handler handler c e
settle handler _ _ rest = rest

unfoldable pub run_steps : String → List Step → M (Option Error)
run_steps handler [] s = succeed_handler handler s
run_steps handler (st ∷ rest) s =
    let (e, t) = st.action s in settle handler st.context e (run_steps handler rest) t

unfoldable pub saga : String → String → List (String × Attribute) → List Step → M (Option Error)
unfolding run_steps
saga handler span attributes steps = do open_span span attributes; run_steps handler steps

-- Every required step succeeds in the state that the steps before it leave.
abbrev pub StepSucceeds : Option String → Option Error → Type 0
StepSucceeds (some c) (some e) = ⊥
StepSucceeds _ _ = Unit

abbrev pub AllSucceed : List Step → State → Type 0
AllSucceed [] s = Unit
AllSucceed (st ∷ rest) s = StepSucceeds st.context (st.action s).0 × AllSucceed rest (st.action s).1

settle-none :
    (handler : String) (c : Option String) (e : Option Error) (rest : M (Option Error)) (t : State)
    {P : Type 0}
    → ((rest t).0 ≡ none) ↔ P
    → ((settle handler c e rest t).0 ≡ none) ↔ (StepSucceeds c e × P)
unfolding fail_handler
settle-none handler (some c) (some e) rest t h = (λ p. absurd (cc), λ p. absurd p.0)
settle-none handler (some c) none rest t h = (λ p. (tt, h.0 p), λ p. h.1 p.1)
settle-none handler none e rest t h = (λ p. (tt, h.0 p), λ p. h.1 p.1)

run_steps-none :
    (handler : String) (steps : List Step) (s : State)
    → ((run_steps handler steps s).0 ≡ none) ↔ AllSucceed steps s
unfolding run_steps succeed_handler
run_steps-none handler [] s = (λ _. tt, λ _. refl)
run_steps-none handler (st ∷ rest) s =
    settle-none handler st.context (st.action s).0 (run_steps handler rest) (st.action s).1
      (run_steps-none handler rest (st.action s).1)

-- A contract returns no error exactly when every required step succeeds.
pub saga-none :
    (handler span : String) (attributes : List (String × Attribute)) (steps : List Step) (s : State)
    → ((saga handler span attributes steps s).0 ≡ none)
      ↔ AllSucceed steps (open_span span attributes s).1
unfolding saga
saga-none handler span attributes steps s =
    run_steps-none handler steps (open_span span attributes s).1
