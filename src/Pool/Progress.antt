-- ===== src/Pool/Progress.antt =====
-- Runs of dispatch and the workers of internal/worker/dispatcher.go by themselves, and where they end.
use reservation_worker.Base.{
  ℕ, zero, suc, ◌+◌, ◌<◌, ◌≤◌, true, Bool-cases, ◌≡◌, ◌⊎◌, inl, inr, arith, ltb, ltb→lt,
}
use reservation_worker.Pool.Work.{is_internal, work, Step-work}
use reservation_worker.Pool.Defs.{Pool, Step, Reach, later}

-- A step by dispatch or a worker.
pub record Internal (n : ℕ) (s t : Pool) : Type 0 where
  pub step : Step n s t
  pub internal : is_internal step ≡ true

-- So many steps of one kind.
pub data Run (Move : Pool → Pool → Type 0) (s : Pool) : ℕ → Pool → Type 0 where
  halt : Run Move s 0 s
  go_on : {k : ℕ} {t u : Pool} → Run Move s k t → Move t u → Run Move s (suc k) u

abbrev pub Next : (Pool → Pool → Type 0) → Pool → Type 0
Next Move s = (t : Pool) × Move s t

Run-append :
    {Move : Pool → Pool → Type 0} {s t : Pool} {k : ℕ} {u : Pool} {j : ℕ}
    → Run Move s j t
    → Run Move t k u
    → (i : ℕ) × Run Move s i u
Run-append first halt = (_, first)
Run-append first (go_on run m) = let (i, all) = Run-append first run in (suc i, go_on all m)

-- Something holds of all numbers below a bound, or there is something else.
pub below-or :
    {P : ℕ → Type 0} {N : Type 0} (k : ℕ)
    → ((i : ℕ) → i < k → P i ⊎ N)
    → ((i : ℕ) → i < k → P i) ⊎ N
below-or zero go = inl (λ i l. absurd (omega arith))
below-or {P} {N} (suc k) go = elim (go k (omega arith)) [
  | inr next ↦ inr next
  | inl last ↦ elim (below-or {P = P} {N = N} k (λ i l. go i (omega arith))) [
    | inr next ↦ inr next
    | inl rest ↦ inl (λ i l. elim (Bool-cases (ltb i k)) [
      | inl less ↦ rest i (ltb→lt i k less)
      | inr same ↦ let e : i ≡ k = ground arith in rw e last
    ])
  ]
]

-- While `C` holds, which the moves keep, the pool is in a state of `P` or can move on.
module _ {n : ℕ} (Move : Pool → Pool → Type 0) (internal : (s t : Pool) → Move s t → Internal n s t)
    (C P : Pool → Type 0) (keep : (s t : Pool) → Move s t → C s → C t)
    (goes_on : (s : Pool) → Reach n s → C s → P s ⊎ Next Move s) where
  Move-work : (s t : Pool) → Reach n s → Move s t → Reach n t × (work n t < work n s)
  Move-work s t r m = let st = internal s t m in (later r st.step, Step-work r st.step st.internal)

  Run-keep :
      {s : Pool} {k : ℕ} {t : Pool}
      → Reach n s
      → C s
      → Run Move s k t
      → Reach n t × C t × (k + work n t ≤ work n s)
  Run-keep r c halt = (r, c, omega arith)
  Run-keep r c (go_on {t} {u} run m) =
      let (there, holds, less) = Run-keep r c run in
      let (further, work_done) = Move-work t u there m in (further, keep t u m holds, omega arith)

  pub Run-goes_on :
      {s : Pool} {k : ℕ} {t : Pool}
      → Reach n s
      → C s
      → Run Move s k t
      → (k ≤ work n s) × (P t ⊎ Next Move t)
  Run-goes_on r c run =
      let (there, holds, less) = Run-keep r c run in (omega arith, goes_on _ there holds)

  Run-ends_within :
      (m : ℕ) {s : Pool}
      → Reach n s
      → C s
      → work n s < m
      → (t : Pool) × (k : ℕ) × Run Move s k t × P t
  Run-ends_within zero r c l = elim l [ ]
  Run-ends_within (suc m) {s} r c l = elim (goes_on s r c) [
    | inl there ↦ (s, 0, halt, there)
    | inr (t, st) ↦
        let (further, work_done) = Move-work s t r st in
        let (u, k, run, there) = Run-ends_within m further (keep s t st c) (omega arith) in
        let (i, all) = Run-append (go_on halt st) run in (u, i, all, there)
  ]

  pub Run-ends : {s : Pool} → Reach n s → C s → (t : Pool) × (k : ℕ) × Run Move s k t × P t
  Run-ends {s} r c = Run-ends_within (suc (work n s)) r c (omega arith)
