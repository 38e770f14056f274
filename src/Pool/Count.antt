-- ===== src/Pool/Count.antt =====
-- How often a number occurs in a list, for the channels in the pool of internal/worker/dispatcher.go.
use reservation_worker.Base.{
  ℕ, zero, suc, ◌+◌, ◌<◌, ◌≤◌, List, [], ◌∷◌, ◌++◌, ◌≡◌, ◌≢◌, inl, inr, refl, ap, ◌∙◌, arith,
  length, eqb, ltb, ltb→lt, if◌then◌else◌, Bool-cases,
}

abbrev pub occurs : ℕ → List ℕ → ℕ
occurs i [] = 0
occurs i (j ∷ js) = if eqb i j then suc (occurs i js) else occurs i js

pub occurs-append : (i : ℕ) (xs ys : List ℕ) → occurs i (xs ++ ys) ≡ occurs i xs + occurs i ys
occurs-append i [] ys = omega arith
occurs-append i (x ∷ xs) ys = ground (arith, occurs-append i xs ys)

-- Occurrences of the numbers below a bound.
unfoldable pub total : (ℕ → ℕ) → ℕ → ℕ
total f zero = 0
total f (suc n) = total f n + f n

total-cons :
    (n x : ℕ) (xs : List ℕ)
    → total (λ i. occurs i (x ∷ xs)) n ≡ total (λ i. occurs i xs) n + (if ltb x n then 1 else 0)
unfolding total
total-cons zero x xs = ground arith
total-cons (suc n) x xs = ground (arith, total-cons n x xs)

total-nil : (n : ℕ) → total (λ i. occurs i []) n ≡ 0
unfolding total
total-nil zero = refl
total-nil (suc n) = omega (arith, total-nil n)

occurs_self : (x : ℕ) (xs : List ℕ) → 1 ≤ occurs x (x ∷ xs)
occurs_self x xs = ground arith

occurs-le-cons : (i x : ℕ) (xs : List ℕ) → occurs i xs ≤ occurs i (x ∷ xs)
occurs-le-cons i x xs = ground arith

-- A list whose elements are below `n` is as long as their occurrences say.
pub length-total :
    (n : ℕ) (xs : List ℕ)
    → ((i : ℕ) → n ≤ i → occurs i xs ≡ 0)
    → length xs ≡ total (λ i. occurs i xs) n
length-total n [] h = omega (arith, total-nil n)
length-total n (x ∷ xs) h = ground (
  arith,
  total-cons n x xs,
  h x,
  occurs_self x xs,
  length-total n xs (λ i le. omega (arith, h i le, occurs-le-cons i x xs)),
)

total-le : (f : ℕ → ℕ) (n : ℕ) → ((i : ℕ) → f i ≤ 1) → total f n ≤ n
unfolding total
total-le f zero h = omega arith
total-le f (suc n) h = omega (arith, total-le f n h, h n)

pub total-lt : (f : ℕ → ℕ) (n j : ℕ) → ((i : ℕ) → f i ≤ 1) → f j ≡ 0 → j < n → total f n < n
unfolding total
total-lt f zero j h z l = absurd (omega arith)
total-lt f (suc n) j h z l = elim (Bool-cases (ltb j n)) [
  | inl below ↦ omega (arith, total-lt f n j h z (ltb→lt j n below), h n)
  | inr last ↦ let same : n ≡ j = ground arith in omega (arith, total-le f n h, ap f same ∙ z)
]

total-same : (v w : ℕ → ℕ) (n : ℕ) → ((j : ℕ) → j < n → v j ≡ w j) → total v n ≡ total w n
unfolding total
total-same v w zero h = refl
total-same v w (suc n) h =
    omega (arith, total-same v w n (λ j l. h j (omega arith)), h n (omega arith))

-- The total after a change at one number below the bound.
pub total-change :
    (v w : ℕ → ℕ) (i n : ℕ)
    → i < n
    → ((j : ℕ) → j ≢ i → v j ≡ w j)
    → total v n + w i ≡ total w n + v i
unfolding total
total-change v w i zero l h = elim l [ ]
total-change v w i (suc n) l h = elim (Bool-cases (ltb i n)) [
  | inl below ↦ omega (arith, total-change v w i n (ltb→lt i n below) h, h n (λ e. ground arith))
  | inr last ↦
      let same : n ≡ i = ground arith in
      omega (arith, total-same v w n (λ j less. h j (λ e. omega arith)), ap v same, ap w same)
]

pub total-zero : (f : ℕ → ℕ) (n : ℕ) → ((i : ℕ) → f i ≡ 0) → total f n ≡ 0
unfolding total
total-zero f zero h = refl
total-zero f (suc n) h = omega (arith, total-zero f n h, h n)
