-- ===== src/Approval/Exec.antt =====
-- Python methods that change state and may raise: the state survives the exception.

-- The exceptions of approval_queue.py. `not_pending` is "already '<status>'"; `patch_refused` is the
-- ValueError made from an HTTPStatusError; `http_failure` any other error of the HTTP client;
-- `overflow` the OverflowError of `int(float("inf"))`.
pub data Failure : Type 0 where
  not_found not_pending patch_refused http_failure overflow : Failure

pub data Result {ℓ} (A : Type ℓ) : Type ℓ where
  ok : A → Result A
  err : Failure → Result A

abbrev pub Exec {ℓ κ} : Type ℓ → Type κ → Type (ℓ ⊔ κ)
Exec S A = S → Result A × S

module _ {ℓ κ} {S : Type ℓ} {A : Type κ} where
  abbrev pub pure : A → Exec S A
  pure a s = (ok a, s)

  abbrev pub raise : Failure → Exec S A
  raise e s = (err e, s)

-- The rest of a method after a step that returned or raised.
abbrev pub resume {ℓ κ μ} :
    {S : Type ℓ} {A : Type κ} {B : Type μ} → (A → Exec S B) → Result A × S → Result B × S
resume f (ok a, s) = f a s
resume f (err e, s) = (err e, s)

infixl 5 ◌>>=◌
abbrev pub ◌>>=◌ {ℓ κ μ} :
    {S : Type ℓ} {A : Type κ} {B : Type μ} → Exec S A → (A → Exec S B) → Exec S B
◌>>=◌ m f s = resume f (m s)

-- The rest of a method keeps what holds of the state, if it does so after each value.
pub resume-keeps {ℓ κ μ ν} :
    {S : Type ℓ} {A : Type κ} {B : Type μ} (P : S → Type ν) (f : A → Exec S B) (r : Result A × S)
    → P r.1
    → ((a : A) (s : S) → P s → P (f a s).1)
    → P (resume f r).1
resume-keeps P f (ok a, s) p h = h a s p
resume-keeps P f (err e, s) p h = p
