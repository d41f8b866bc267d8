-- ===== src/Inbox/Batches.antt =====
-- The scheduler's batches (run_batch in backend/inbox_monitor.py).
use mathlib.Core.Path.{subst}
use native.Mathlib.Nat.{div-add-mod, mod-lt}
use paperless_iq.Prelude.{
  ℕ, zero, suc, ◌+◌, ◌*◌, ◌%◌, ◌≤◌, ◌<◌, ◌≡◌, refl, sym, ap, ◌∙◌, Bool, List, [], ◌∷◌, ◌++◌, arith,
  length, take, drop, nat_eq, string_eq,
}
use paperless_iq.Approval.Listing.{take-add}
use paperless_iq.Prelude.{take_all}
use paperless_iq.Inbox.Monitor.{Answer, returned, raised, Inbox, and_then, slice, num_batches}

abbrev pub joined : List (List ℕ) → List ℕ
joined [] = []
joined (b ∷ bs) = b ++ joined bs

drop_nil : (n : ℕ) (xs : List ℕ) → xs ≡ [] → drop n xs ≡ []
drop_nil zero xs h = h
drop_nil (suc n) [] h = refl
drop_nil (suc n) (x ∷ xs) h = cc

drop-drop : (a b : ℕ) (xs : List ℕ) → drop b (drop a xs) ≡ drop (a + b) xs
drop-drop zero b xs = ap (λ n. drop n xs) (omega arith)
drop-drop (suc a) b [] = drop_nil b [] refl ∙ sym (drop_nil (suc a + b) [] refl)
drop-drop (suc a) b (x ∷ xs) = drop-drop a b xs ∙ ap (λ n. drop n (x ∷ xs)) (shift a b)
  where
    shift : (a b : ℕ) → suc (a + b) ≡ suc a + b
    shift a b = omega arith

-- A postcondition of a method that returns.
abbrev pub Good {ℓ κ} :
    {S : Type 0} {A : Type ℓ} → (A → Inbox S → Type κ) → Answer A × Inbox S → Type κ
Good P (returned a, s) = P a s
Good P (raised e, s) = Unit

pub Good-out {ℓ κ} :
    {S : Type 0} {A : Type ℓ} (P : A → Inbox S → Type κ) (r : Answer A × Inbox S) (a : A)
    → Good P r
    → r.0 ≡ returned a
    → P a r.1
Good-out P (returned b, s) a g h =
    subst (λ c. P c s) (ap (λ r. elim r [ returned x ↦ x | raised e ↦ a ]) h) g
Good-out P (raised e, s) a g h = cc

pub and_then-Good {ℓ κ μ ν} :
    {S : Type 0} {A : Type ℓ} {B : Type κ} (P : A → Inbox S → Type μ) (Q : B → Inbox S → Type ν)
    (r : Answer A × Inbox S) (f : A → Inbox S → Answer B × Inbox S)
    → Good P r
    → ((a : A) (s : Inbox S) → P a s → Good Q (f a s))
    → Good Q (and_then r f)
and_then-Good P Q (returned a, s) f g h = h a s g
and_then-Good P Q (raised e, s) f g h = tt

module _ {S : Type 0} (submit : ℕ → S → Bool × S) where
  -- The batches from `i` on.
  abbrev pub slices : List ℕ → ℕ → ℕ → ℕ → List (List ℕ)
  slices un size i zero = []
  slices un size i (suc k) = slice submit un size i ∷ slices un size (suc i) k

  more : (i size : ℕ) → i * size + size ≡ suc i * size
  more i size = grind arith

  more_first : (k size : ℕ) → size + k * size ≡ suc k * size
  more_first k size = grind arith

  nothing : (size : ℕ) → 0 ≡ 0 * size
  nothing size = grind arith

  joined-slices :
      (un : List ℕ) (size i k : ℕ)
      → joined (slices un size i k) ≡ take (k * size) (drop (i * size) un)
  joined-slices un size i zero = ap (λ n. take n (drop (i * size) un)) (nothing size)
  joined-slices un size i (suc k) =
      ap (◌++◌ (slice submit un size i)) (
        joined-slices un size (suc i) k
        ∙ ap (take (k * size))
            (sym (drop-drop (i * size) size un ∙ ap (λ n. drop n un) (more i size))))
      ∙ (take-add size (k * size) (drop (i * size) un)
          ∙ ap (λ n. take n (drop (i * size) un)) (more_first k size))

  below : (n b : ℕ) → (n + b) % suc b < suc b
  below n b = mod-lt (n + b) (omega arith)

  enough : (n b : ℕ) → n ≤ num_batches submit n (suc b) * suc b
  enough n b = grind (arith, div-add-mod (n + b) (suc b), below n b)

  pub all_slices :
      (d : ℕ) (ds : List ℕ) (b : ℕ)
      → joined (slices (d ∷ ds) (suc b) 0 (num_batches submit (length (d ∷ ds)) (suc b))) ≡ d ∷ ds
  all_slices d ds b =
      joined-slices (d ∷ ds) (suc b) 0 n
      ∙ (ap (λ k. take (n * suc b) (drop k (d ∷ ds))) (sym (nothing (suc b)))
          ∙ take_all (n * suc b) (d ∷ ds) (enough (length (d ∷ ds)) b))
    where
      n : ℕ
      n = num_batches submit (length (d ∷ ds)) (suc b)
