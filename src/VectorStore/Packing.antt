-- ===== src/VectorStore/Packing.antt =====
-- The packing of sentences into chunks by _chunk_text_sentences (backend/vector_store.py).
use paperless_iq.Prelude.{
  ℕ, ◌+◌, ◌≤◌, ◌<◌, ◌≡◌, refl, sym, ap, ◌∙◌, inl, inr, Option, some, List, [], ◌∷◌, ◌++◌, arith,
  ltb, Bool-cases, length, All, length-append, nat_eq, string_eq, Somewhere, Somewhere-right,
}
use mathlib.Core.List.{append_assoc, append-nil}
use paperless_iq.VectorStore.Chunks.{chunk_text, carry_loop, join, flush}

module _ {ℓ} {A : Type ℓ} (P : A → Type 0) where
  pub All-init : (xs : List A) (x : A) → All P (xs ++ x ∷ []) → All P xs × P x
  All-init [] x a = (tt, a.0)
  All-init (y ∷ xs) x a = let r = All-init xs x a.1 in ((a.0, r.0), r.1)

pub weaken {ℓ} :
    {A : Type ℓ} (P : A → Type 0) (Q : A → Type 0) (xs : List A)
    → ((x : A) → P x → Q x)
    → All P xs
    → All Q xs
weaken P Q [] f a = tt
weaken P Q (x ∷ xs) f a = (f x a.0, weaken P Q xs f a.1)

module _ {C : Type 0} where
  -- The text stands in the chunk without a cut.
  abbrev pub Whole : List C → List C → Type 0
  Whole s c = (before : List C) × (after : List C) × (c ≡ before ++ (s ++ after))

  -- The pieces stand in the list, one behind the other.
  abbrev pub Run : List (List C) → List (List C) → Type 0
  Run pieces chunks =
      (before : List (List C)) × (after : List (List C)) × (chunks ≡ before ++ (pieces ++ after))

  -- `current_len`: one more than its length for every sentence.
  abbrev pub joined_len : List (List C) → ℕ
  joined_len [] = 0
  joined_len (s ∷ current) = length s + 1 + joined_len current

  pub joined_len-append :
      (xs : List (List C)) (s : List C) → joined_len (xs ++ s ∷ []) ≡ joined_len xs + (length s + 1)
  joined_len-append [] s = omega arith
  joined_len-append (x ∷ xs) s = omega (arith, joined_len-append xs s)

  length-join :
      (space : C) (s : List C) (current : List (List C))
      → length (join space (s ∷ current)) + 1 ≡ joined_len (s ∷ current)
  unfolding join
  length-join space s [] = omega arith
  length-join space s (t ∷ current) =
      omega
        (arith, length-append {0} s (space ∷ join space (t ∷ current)), length-join space t current)

  later : (space : C) (s u c : List C) → Whole u c → Whole u (s ++ space ∷ c)
  later space s u c (before, after, e) = (
    s ++ space ∷ before,
    after,
    ap (λ x. s ++ space ∷ x) e ∙ sym (append_assoc s (space ∷ before) (u ++ after)),
  )

  join-Whole :
      (space : C) (s : List C) (current : List (List C))
      → All (λ u. Whole u (join space (s ∷ current))) (s ∷ current)
  unfolding join
  join-Whole space s [] = (([], [], sym (append-nil s)), tt)
  join-Whole space s (t ∷ current) = (
    ([], space ∷ join space (t ∷ current), refl),
    weaken (λ u. Whole u (join space (t ∷ current)))
        (λ u. Whole u (s ++ space ∷ join space (t ∷ current))) (t ∷ current)
        (λ u. later space s u (join space (t ∷ current))) (join-Whole space t current),
  )

  pub flush-Whole :
      (space : C) (current : List (List C))
      → All (λ u. Somewhere (Whole u) (flush space current)) current
  unfolding flush
  flush-Whole space [] = tt
  flush-Whole space (s ∷ current) =
      weaken (λ u. Whole u (join space (s ∷ current)))
        (λ u. Somewhere (Whole u) (join space (s ∷ current) ∷ [])) (s ∷ current) (λ u. inl)
        (join-Whole space s current)

  pub flush_bounded :
      (space : C) (b : ℕ) (current : List (List C))
      → joined_len current ≤ b + 1
      → All (λ c. length c ≤ b) (flush space current)
  unfolding flush
  flush_bounded space b [] h = tt
  flush_bounded space b (s ∷ current) h = (omega (arith, length-join space s current), tt)

  pub carry_len_lem :
      (overlap : ℕ) (sents carry : List (List C)) (carry_len : ℕ)
      → carry_len ≡ joined_len carry
      → carry_len ≤ overlap
      → ((carry_loop overlap sents carry carry_len).1
          ≡ joined_len (carry_loop overlap sents carry carry_len).0)
        × ((carry_loop overlap sents carry carry_len).1 ≤ overlap)
  unfolding carry_loop
  carry_len_lem overlap [] carry carry_len e l = (e, l)
  carry_len_lem overlap (prev ∷ sents) carry carry_len e l =
      elim (Bool-cases (ltb overlap (carry_len + length prev + 1))) [
        | inl h ↦ rw h (e, l)
        | inr h ↦ rw h (
            carry_len_lem overlap sents (prev ∷ carry) (carry_len + (length prev + 1)) (omega arith)
              (ground arith))
      ]

module _ {C : Type 0} (fuel : ℕ) (space : C) (size overlap : ℕ) where
  -- A sentence that fits stands whole in a chunk; the pieces of another stand there in a run.
  abbrev pub Kept : List (List C) → List C → Type 0
  Kept chunks s =
      (length s ≤ size → Somewhere (Whole s) chunks)
      × (size < length s
          → (pieces : List (List C)) × (chunk_text fuel s size overlap ≡ some pieces)
            × Run pieces chunks)

  pub Kept-right :
      (front chunks : List (List C)) (s : List C) → Kept chunks s → Kept (front ++ chunks) s
  Kept-right front chunks s k =
      (λ h. Somewhere-right (Whole s) front chunks (k.0 h), λ h. moved (k.1 h))
    where
      moved :
          (pieces : List (List C)) × (chunk_text fuel s size overlap ≡ some pieces)
            × Run pieces chunks
          → (pieces : List (List C)) × (chunk_text fuel s size overlap ≡ some pieces)
            × Run pieces (front ++ chunks)
      moved (pieces, e, (before, after, q)) = (
        pieces,
        e,
        (
          front ++ before,
          after,
          ap (λ x. front ++ x) q ∙ sym (append_assoc front before (pieces ++ after)),
        ),
      )

  -- What is promised of the loop over the sentences.
  pub record Packed (sents current : List (List C)) (answer : Option (List (List C))) : Type 0 where
    pub chunks : List (List C)
    pub returns : answer ≡ some chunks
    pub bounded : All (λ c. length c ≤ size + overlap) chunks
    pub current_kept : All (λ s. Somewhere (Whole s) chunks) current
    pub kept : All (Kept chunks) sents
