-- ===== src/Grooming/Floats.antt =====
-- Python's floats, as far as grooming uses them: parameters, of which a theorem assumes no law.
use paperless_iq.Prelude.{ℕ, Bool}

pub record Floats (F : Type 0) : Type 0 where
  pub nought : F
  -- `a < b` and `a - b`
  pub less : F → F → Bool
  pub minus : F → F → F
  -- `a >= b`
  pub at_least : F → F → Bool
  -- `100.0 * i / (n - 1)`, and `pct <= n` for an int
  pub percent : ℕ → ℕ → F
  pub at_most_int : F → ℕ → Bool
  -- `round(a, 4)` and `round(a, 1)`
  pub round4 : F → F
  pub round1 : F → F
