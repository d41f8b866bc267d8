-- ===== src/VectorStore/Chunks.antt =====
-- _chunk_text, _chunk_text_sentences and _chunk (backend/vector_store.py). A text is a list of
-- characters. The regular expression that splits at sentence boundaries and `str.strip` are the
-- parameters `split` and `strip`. The loop of _chunk_text is on fuel; None is running out of it.
use paperless_iq.Prelude.{
  ℕ, zero, suc, ◌+◌, ◌-◌, String, Bool, true, false, ◌&&◌, not, Option, none, some, List, [], ◌∷◌,
  ◌++◌, ltb, leb, if◌then◌else◌, length, take, drop, nat_eq, string_eq, ◌==◌,
}

-- text[start:end]
abbrev pub slice_text {ℓ} : {C : Type ℓ} → List C → ℕ → ℕ → List C
slice_text text start end_ = take (end_ - start) (drop start text)

-- The pieces that a loop appends before it goes on.
abbrev pub then_chunks {ℓ} :
    {C : Type ℓ} → List (List C) → Option (List (List C)) → Option (List (List C))
then_chunks chunks none = none
then_chunks chunks (some rest) = some (chunks ++ rest)

module _ {ℓ} {C : Type ℓ} where
  -- The `while` loop. With an overlap above the size `start` only falls, and the loop has no exit
  -- but `start >= len(text)`: there is no result.
  unfoldable pub chunk_loop : ℕ → List C → ℕ → ℕ → ℕ → Option (List (List C))
  chunk_loop zero text size overlap start = none
  chunk_loop (suc fuel) text size overlap start =
      let rest = chunk_loop fuel text size overlap (start + (size - overlap)) in
      if ltb start (length text)
      then if ltb size overlap
        then none
        else then_chunks (slice_text text start (start + size) ∷ []) rest
      else some []

  unfoldable pub chunk_text : ℕ → List C → ℕ → ℕ → Option (List (List C))
  unfolding chunk_loop
  chunk_text fuel [] size overlap = some []
  chunk_text fuel (c ∷ text) size overlap =
      if leb (length (c ∷ text)) size
      then some ((c ∷ text) ∷ [])
      else chunk_loop fuel (c ∷ text) size overlap 0

  -- `reversed(current)`
  abbrev pub reversed : List (List C) → List (List C)
  reversed [] = []
  reversed (s ∷ current) = reversed current ++ s ∷ []

  -- The trailing sentences for the next chunk, with `carry_len`.
  unfoldable pub carry_loop : ℕ → List (List C) → List (List C) → ℕ → List (List C) × ℕ
  carry_loop overlap [] carry carry_len = (carry, carry_len)
  carry_loop overlap (prev ∷ sents) carry carry_len =
      let next = carry_loop overlap sents (prev ∷ carry) (carry_len + (length prev + 1)) in
      if ltb overlap (carry_len + length prev + 1) then (carry, carry_len) else next

  -- `" ".join(current)`
  unfoldable pub join : C → List (List C) → List C
  join space [] = []
  join space (s ∷ []) = s
  join space (s ∷ t ∷ current) = s ++ space ∷ join space (t ∷ current)

  -- `if current: chunks.append(" ".join(current))`
  unfoldable pub flush : C → List (List C) → List (List C)
  unfolding join
  flush space [] = []
  flush space (s ∷ current) = join space (s ∷ current) ∷ []

  abbrev pub no_sentences : List (List C) → Bool
  no_sentences [] = true
  no_sentences (s ∷ current) = false

  -- `if current and current_len + len(sent) + 1 > chunk_size`
  unfoldable pub is_full : ℕ → List (List C) → ℕ → List C → Bool
  is_full size current current_len sent =
      not (no_sentences current) && ltb size (current_len + length sent + 1)

  -- `chunks.extend(_chunk_text(...))`
  abbrev pub then_pieces : Option (List (List C)) → Option (List (List C)) → Option (List (List C))
  then_pieces none rest = none
  then_pieces (some pieces) rest = then_chunks pieces rest

  -- The loop over the sentences, from the next one on: the chunks that it still appends.
  unfoldable pub pack : ℕ → C → ℕ → ℕ → List (List C) → List (List C) → ℕ → Option (List (List C))
  unfolding chunk_text flush is_full carry_loop
  pack fuel space size overlap [] current current_len = some (flush space current)
  pack fuel space size overlap (sent ∷ sents) current current_len =
      let carry = carry_loop overlap (reversed current) [] 0 in
      let oversized = pack fuel space size overlap sents [] 0 in
      let carried =
        pack fuel space size overlap sents (carry.0 ++ sent ∷ []) (carry.1 + (length sent + 1)) in
      let joined =
        pack fuel space size overlap sents (current ++ sent ∷ [])
          (current_len + (length sent + 1)) in
      if ltb size (length sent)
      then then_chunks (flush space current)
          (then_pieces (chunk_text fuel sent size overlap) oversized)
      else if is_full size current current_len sent
      then then_chunks (flush space current) carried
      else joined

  abbrev pub keep_stripped : List C → List (List C) → List (List C)
  keep_stripped [] rest = rest
  keep_stripped (c ∷ s) rest = (c ∷ s) ∷ rest

  -- `[s.strip() for s in split(text) if s.strip()]`
  abbrev pub stripped : (List C → List C) → List (List C) → List (List C)
  stripped strip [] = []
  stripped strip (s ∷ parts) = let rest = stripped strip parts in keep_stripped (strip s) rest

  unfoldable pub chunk_text_sentences :
      ℕ → (List C → List (List C)) → (List C → List C) → C → List C → ℕ → ℕ → Option (List (List C))
  unfolding pack
  chunk_text_sentences fuel split strip space [] size overlap = some []
  chunk_text_sentences fuel split strip space (c ∷ text) size overlap =
      if leb (length (c ∷ text)) size
      then some ((c ∷ text) ∷ [])
      else pack fuel space size overlap (stripped strip (split (c ∷ text))) [] 0

unfoldable pub chunk {ℓ} :
    {C : Type ℓ}
    → ℕ
    → (List C → List (List C))
    → (List C → List C)
    → C
    → List C
    → ℕ
    → ℕ
    → String
    → Option (List (List C))
unfolding chunk_text chunk_text_sentences
chunk fuel split strip space text size overlap strategy =
    if strategy == "sentence"
    then chunk_text_sentences fuel split strip space text size overlap
    else chunk_text fuel text size overlap
