-- ===== src/Base/ResultDo.antt =====
-- The bind of `Result`, for `do` blocks: the first error ends the chain.
use reservation_worker.Base.Errors.{Result, ok, err}

infixl 5 ◌>>=◌
abbrev pub ◌>>=◌ {ℓ κ} : {A : Type ℓ} {B : Type κ} → Result A → (A → Result B) → Result B
ok a >>= f = f a
err e >>= f = err e
