-- ===== src/VectorStore/Sentences.antt =====
-- The loop over the sentences in _chunk_text_sentences (backend/vector_store.py), step by step.
use paperless_iq.Prelude.{
  ℕ, ◌+◌, ◌≤◌, ◌<◌, ◌≡◌, refl, ap, ◌∙◌, inl, inr, false, Option, some, List, [], ◌∷◌, ◌++◌, arith,
  ltb, leb, ltb→lt, leb→le, Bool-cases, length, All, All-append, nat_eq, string_eq, Somewhere,
  Somewhere-left, Somewhere-right,
}
use paperless_iq.VectorStore.Chunks.{
  then_chunks, then_pieces, chunk_text, reversed, carry_loop, flush, is_full, pack, stripped,
  chunk_text_sentences,
}
use paperless_iq.VectorStore.Reassembly.{chunk_text_cuts}
use paperless_iq.VectorStore.Packing.{
  All-init, weaken, Whole, joined_len, joined_len-append, flush-Whole, flush_bounded, carry_len_lem,
  Kept, Kept-right, Packed,
}

module _ {C : Type 0} (fuel : ℕ) (space : C) (size overlap : ℕ) (positive : overlap < size) where
  done_packs :
      (current : List (List C))
      → joined_len current ≤ size + overlap + 1
      → Packed fuel space size overlap [] current (some (flush space current))
  done_packs current l = record {
    chunks = flush space current;
    returns = refl;
    bounded = flush_bounded space (size + overlap) current l;
    current_kept = flush-Whole space current;
    kept = tt;
  }

  -- The sentence joins the current ones.
  joined_packs :
      (sent : List C) (sents current : List (List C)) (answer : Option (List (List C)))
      → length sent ≤ size
      → Packed fuel space size overlap sents (current ++ sent ∷ []) answer
      → Packed fuel space size overlap (sent ∷ sents) current answer
  joined_packs sent sents current answer fits p =
      let parts = All-init (λ s. Somewhere (Whole s) p.chunks) current sent p.current_kept in
      record {
        chunks = p.chunks;
        returns = p.returns;
        bounded = p.bounded;
        current_kept = parts.0;
        kept = (((λ h. parts.1), (λ h. absurd (omega (arith, h, fits)))), p.kept);
      }

  -- The current sentences are put out, and the sentence follows what is carried on.
  carried_packs :
      (sent : List C) (sents current carry : List (List C)) (answer : Option (List (List C)))
      → length sent ≤ size
      → joined_len current ≤ size + overlap + 1
      → Packed fuel space size overlap sents (carry ++ sent ∷ []) answer
      → Packed fuel space size overlap
          (sent ∷ sents)
          current
          (then_chunks (flush space current) answer)
  carried_packs sent sents current carry answer fits l p =
      let own = (All-init (λ s. Somewhere (Whole s) p.chunks) carry sent p.current_kept).1 in
      record {
        chunks = flush space current ++ p.chunks;
        returns = ap (then_chunks (flush space current)) p.returns;
        bounded =
            All-append (λ c. length c ≤ size + overlap) (flush space current) p.chunks
              (flush_bounded space (size + overlap) current l) p.bounded;
        current_kept =
            weaken (λ s. Somewhere (Whole s) (flush space current))
              (λ s. Somewhere (Whole s) (flush space current ++ p.chunks)) current
              (λ s. Somewhere-left (Whole s) (flush space current) p.chunks)
              (flush-Whole space current);
        kept = (
          (
            (λ h. Somewhere-right (Whole sent) (flush space current) p.chunks own),
            (λ h. absurd (omega (arith, h, fits))),
          ),
          weaken (Kept fuel space size overlap p.chunks)
              (Kept fuel space size overlap (flush space current ++ p.chunks)) sents
              (Kept-right fuel space size overlap (flush space current) p.chunks) p.kept,
        );
      }

  -- The current sentences are put out, and the pieces of a sentence that is too long.
  oversized_packs :
      (sent : List C) (sents current : List (List C)) (answer : Option (List (List C)))
      → size < length sent
      → length sent < fuel
      → joined_len current ≤ size + overlap + 1
      → Packed fuel space size overlap sents [] answer
      → Packed fuel space size overlap (sent ∷ sents) current (
          then_chunks
            (flush space current)
            (then_pieces (chunk_text fuel sent size overlap) answer))
  oversized_packs sent sents current answer long enough l p =
      let cut = chunk_text_cuts fuel size overlap sent positive enough (omega (arith, long)) in
      let pieces = cut.head ∷ cut.more in
      record {
        chunks = flush space current ++ (pieces ++ p.chunks);
        returns =
            ap (λ o. then_chunks (flush space current) (then_pieces o answer)) cut.returns
            ∙ ap (λ o. then_chunks (flush space current) (then_chunks pieces o)) p.returns;
        bounded =
            All-append (λ c. length c ≤ size + overlap) (flush space current) (pieces ++ p.chunks)
              (flush_bounded space (size + overlap) current l)
              (All-append (λ c. length c ≤ size + overlap) pieces p.chunks
                (weaken (λ c. (0 < length c) × (length c ≤ size)) (λ c. length c ≤ size + overlap)
                  pieces (λ c h. omega (arith, h.1)) cut.bounded)
                p.bounded);
        current_kept =
            weaken (λ s. Somewhere (Whole s) (flush space current))
              (λ s. Somewhere (Whole s) (flush space current ++ (pieces ++ p.chunks))) current
              (λ s. Somewhere-left (Whole s) (flush space current) (pieces ++ p.chunks))
              (flush-Whole space current);
        kept = (
          (
            (λ h. absurd (omega (arith, h, long))),
            (λ h. (pieces, cut.returns, (flush space current, p.chunks, refl))),
          ),
          weaken (Kept fuel space size overlap p.chunks)
              (Kept fuel space size overlap (flush space current ++ (pieces ++ p.chunks))) sents
              (λ s k.
                Kept-right fuel space size overlap (flush space current) (pieces ++ p.chunks) s
                  (Kept-right fuel space size overlap pieces p.chunks s k))
              p.kept,
        );
      }

  not_full :
      (current : List (List C)) (current_len : ℕ) (sent : List C)
      → current_len ≡ joined_len current
      → length sent ≤ size
      → is_full size current current_len sent ≡ false
      → current_len + (length sent + 1) ≤ size + overlap + 1
  unfolding is_full
  not_full [] current_len sent e fits h = omega arith
  not_full (s ∷ current) current_len sent e fits h = ground arith

  pub pack_lem :
      (sents current : List (List C)) (current_len : ℕ)
      → All (λ s. length s < fuel) sents
      → current_len ≡ joined_len current
      → joined_len current ≤ size + overlap + 1
      → Packed fuel space size overlap sents current
          (pack fuel space size overlap sents current current_len)
  unfolding pack
  pack_lem [] current current_len enough e l = done_packs current l
  pack_lem (sent ∷ sents) current current_len enough e l =
      elim (Bool-cases (ltb size (length sent))) [
        | inl big ↦ rw big (
            oversized_packs sent sents current (pack fuel space size overlap sents [] 0)
              (ltb→lt size (length sent) big) enough.0 l
              (pack_lem sents [] 0 enough.1 refl (omega arith)))
        | inr small ↦ rw small (elim (Bool-cases (is_full size current current_len sent)) [
          | inl full ↦ rw full (
              let carry = carry_loop overlap (reversed current) [] 0 in
              let c = carry_len_lem overlap (reversed current) [] 0 refl (omega arith) in
              carried_packs sent sents current carry.0
                (pack fuel space size overlap sents (carry.0 ++ sent ∷ [])
                  (carry.1 + (length sent + 1)))
                (ground arith) l
                (pack_lem sents (carry.0 ++ sent ∷ []) (carry.1 + (length sent + 1)) enough.1
                  (omega (arith, c.0, joined_len-append carry.0 sent))
                  (omega (arith, c.0, c.1, joined_len-append carry.0 sent, fits sent small))))
          | inr room ↦ rw room (
              joined_packs sent sents current
                (pack fuel space size overlap sents (current ++ sent ∷ [])
                  (current_len + (length sent + 1)))
                (fits sent small)
                (pack_lem sents (current ++ sent ∷ []) (current_len + (length sent + 1)) enough.1
                  (omega (arith, e, joined_len-append current sent))
                  (omega (
                    arith,
                    e,
                    joined_len-append current sent,
                    not_full current current_len sent e (fits sent small) room,
                  ))))
        ])
      ]
    where
      fits : (s : List C) → ltb size (length s) ≡ false → length s ≤ size
      fits s h = ground arith

-- With an overlap below the size and fuel above every sentence, `chunk_text_sentences` returns chunks
-- of at most `size + overlap` characters for a text that is longer than `size`; a sentence of at most
-- `size` characters stands whole in one of them, and the pieces of a longer one stand there in a run.
pub chunk_text_sentences_lem :
    {C : Type 0} (fuel : ℕ) (split : List C → List (List C)) (strip : List C → List C) (space : C)
    (text : List C) (size overlap : ℕ)
    → overlap < size
    → size < length text
    → All (λ s. length s < fuel) (stripped strip (split text))
    → Packed fuel space size overlap
        (stripped strip (split text))
        []
        (chunk_text_sentences fuel split strip space text size overlap)
unfolding chunk_text_sentences
chunk_text_sentences_lem fuel split strip space [] size overlap p long enough = absurd (omega arith)
chunk_text_sentences_lem fuel split strip space (c ∷ text) size overlap p long enough =
    elim (Bool-cases (leb (length (c ∷ text)) size)) [
      | inl e ↦ absurd (omega (arith, long, leb→le (length (c ∷ text)) size e))
      | inr e ↦ rw e (
          pack_lem fuel space size overlap p (stripped strip (split (c ∷ text))) [] 0 enough refl
            (omega arith))
    ]
