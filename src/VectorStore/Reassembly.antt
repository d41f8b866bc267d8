-- ===== src/VectorStore/Reassembly.antt =====
-- The chunks of _chunk_text (backend/vector_store.py), laid one behind the other again.
use paperless_iq.Prelude.{
  ℕ, zero, suc, ◌+◌, ◌-◌, ◌≤◌, ◌<◌, ◌≡◌, refl, sym, ap, ◌∙◌, inl, inr, false, Option, none, some,
  List, [], ◌∷◌, ◌++◌, arith, ltb, leb, ltb→lt, lt→ltb, leb→le, Bool-cases, length, take, drop, All,
  take-append-drop, length-take, length-drop, nat_eq, string_eq, drop-drop, take-take, drop-take,
  take_all,
}
use paperless_iq.VectorStore.Chunks.{then_chunks, slice_text, chunk_loop, chunk_text}

module _ {ℓ} {C : Type ℓ} where
  -- The first `step` characters of every chunk but the last, and the last one whole.
  abbrev pub rejoin : ℕ → List (List C) → List C
  rejoin step [] = []
  rejoin step (c ∷ []) = c
  rejoin step (c ∷ d ∷ chunks) = take step c ++ rejoin step (d ∷ chunks)

  -- What a chunk has after `step` characters, the next one begins with, `overlap` characters long.
  abbrev pub Overlapping : ℕ → ℕ → List (List C) → Type ℓ
  Overlapping step overlap [] = Unit
  Overlapping step overlap (c ∷ []) = Unit
  Overlapping step overlap (c ∷ d ∷ chunks) =
      (drop step c ≡ take overlap d) × Overlapping step overlap (d ∷ chunks)

-- What is promised of the chunks of a text.
pub record Cut {ℓ} {C : Type ℓ} (size overlap : ℕ) (text : List C) (answer : Option (List (List C)))
    : Type ℓ where
  pub head : List C
  pub more : List (List C)
  pub returns : answer ≡ some (head ∷ more)
  pub rejoins : rejoin (size - overlap) (head ∷ more) ≡ text
  pub overlaps : Overlapping (size - overlap) overlap (head ∷ more)
  pub bounded : All (λ c. (0 < length c) × (length c ≤ size)) (head ∷ more)

module _ {ℓ} {C : Type ℓ} (size overlap : ℕ) (text : List C) (positive : overlap < size) where
  -- The chunk that begins at `start`.
  piece : (start : ℕ) → slice_text text start (start + size) ≡ take size (drop start text)
  piece start = ap (λ n. take n (drop start text)) (omega arith)

  piece_bounded :
      (start : ℕ)
      → start < length text
      → (0 < length (take size (drop start text))) × (length (take size (drop start text)) ≤ size)
  piece_bounded start h = (
    omega (arith, positive, length-take {ℓ} size (drop start text), length-drop {ℓ} start text),
    omega (arith, length-take {ℓ} size (drop start text)),
  )

  front :
      (start : ℕ)
      → take (size - overlap) (take size (drop start text)) ++ drop (start + (size - overlap)) text
        ≡ drop start text
  front start =
      ap (λ x. x ++ drop (start + (size - overlap)) text)
        (take-take (size - overlap) size (drop start text) (omega arith))
      ∙ (ap (λ x. take (size - overlap) (drop start text) ++ x)
            (sym (drop-drop (size - overlap) start text))
          ∙ take-append-drop (size - overlap) (drop start text))

  shared :
      (start : ℕ)
      → drop (size - overlap) (take size (drop start text))
        ≡ take overlap (take size (drop (start + (size - overlap)) text))
  shared start =
      ap (λ n. drop (size - overlap) (take n (drop start text))) (omega (arith, positive))
      ∙ (drop-take (size - overlap) overlap (drop start text)
          ∙ (ap (take overlap) (drop-drop (size - overlap) start text)
              ∙ sym (
                  take-take overlap size (drop (start + (size - overlap)) text)
                    (omega (arith, positive)))))

  -- The chunks from `start` on: the first one is known.
  record From (start : ℕ) (answer : Option (List (List C))) : Type ℓ where
    cut : Cut size overlap (drop start text) answer
    begins : cut.head ≡ take size (drop start text)

  next_pieces :
      (start : ℕ)
      → start < length text
      → (answer : Option (List (List C))) → From (start + (size - overlap)) answer
      → From start (then_chunks (slice_text text start (start + size) ∷ []) answer)
  next_pieces start h answer rest = record {
    cut = record {
      head = take size (drop start text);
      more = rest.cut.head ∷ rest.cut.more;
      returns =
          ap (λ c. then_chunks (c ∷ []) answer) (piece start)
          ∙ ap (then_chunks (take size (drop start text) ∷ [])) rest.cut.returns;
      rejoins =
          ap (λ x. take (size - overlap) (take size (drop start text)) ++ x) rest.cut.rejoins
          ∙ front start;
      overlaps = (shared start ∙ ap (take overlap) (sym rest.begins), rest.cut.overlaps);
      bounded = (piece_bounded start h, rest.cut.bounded);
    };
    begins = refl;
  }

  last-From :
      (start : ℕ)
      → start < length text
      → length text ≤ start + (size - overlap)
      → (answer : Option (List (List C))) → answer ≡ some []
      → From start (then_chunks (slice_text text start (start + size) ∷ []) answer)
  last-From start h e answer q = record {
    cut = record {
      head = take size (drop start text);
      more = [];
      returns =
          ap (λ c. then_chunks (c ∷ []) answer) (piece start)
          ∙ ap (then_chunks (take size (drop start text) ∷ [])) q;
      rejoins = take_all size (drop start text) (omega (arith, length-drop {ℓ} start text));
      overlaps = tt;
      bounded = (piece_bounded start h, tt);
    };
    begins = refl;
  }

  loop_ends :
      (fuel start : ℕ)
      → 0 < fuel
      → ltb start (length text) ≡ false
      → chunk_loop fuel text size overlap start ≡ some []
  unfolding chunk_loop
  loop_ends zero start p e = absurd (omega arith)
  loop_ends (suc fuel) start p e = rw e refl

  not_negative : ltb size overlap ≡ false
  not_negative = ground arith

  loop_cuts :
      (fuel start : ℕ)
      → start < length text
      → length text < fuel + start
      → From start (chunk_loop fuel text size overlap start)
  unfolding chunk_loop
  loop_cuts zero start h l = absurd (omega arith)
  loop_cuts (suc fuel) start h l = rw (lt→ltb start (length text) h) (
      rw not_negative (elim (Bool-cases (ltb (start + (size - overlap)) (length text))) [
        | inl e ↦
            next_pieces start h (chunk_loop fuel text size overlap (start + (size - overlap))) (
              loop_cuts fuel (start + (size - overlap))
                (ltb→lt (start + (size - overlap)) (length text) e) (omega (arith, positive, l)))
        | inr e ↦
            last-From start h (ground arith)
              (chunk_loop fuel text size overlap (start + (size - overlap)))
              (loop_ends fuel (start + (size - overlap)) (omega arith) e)
      ]))

-- With an overlap below the size and more fuel than characters, `chunk_text` cuts a text that is not
-- empty into chunks of one to `size` characters. What a chunk has behind its first `size - overlap`
-- characters is what the next one begins with, `overlap` characters of it at most; and these first
-- characters of every chunk but the last, with the last one whole, are the text.
pub chunk_text_cuts :
    {C : Type 0} (fuel size overlap : ℕ) (text : List C)
    → overlap < size
    → length text < fuel
    → 0 < length text
    → Cut size overlap text (chunk_text fuel text size overlap)
unfolding chunk_text
chunk_text_cuts fuel size overlap [] p l h = absurd (omega arith)
chunk_text_cuts fuel size overlap (c ∷ text) p l h =
    elim (Bool-cases (leb (length (c ∷ text)) size)) [
      | inl e ↦ rw e (record {
        head = c ∷ text;
        more = [];
        returns = refl;
        rejoins = refl;
        overlaps = tt;
        bounded = ((h, leb→le (length (c ∷ text)) size e), tt);
      })
      | inr e ↦ rw e (loop_cuts size overlap (c ∷ text) p fuel 0 h (omega arith)).cut
    ]

loop_stuck :
    {C : Type 0} (size overlap : ℕ) (text : List C)
    → size ≤ overlap
    → (fuel start : ℕ) → start < length text
    → chunk_loop fuel text size overlap start ≡ none
unfolding chunk_loop
loop_stuck size overlap text p zero start h = refl
loop_stuck size overlap text p (suc fuel) start h =
    rw (lt→ltb start (length text) h) (elim (Bool-cases (ltb size overlap)) [
      | inl e ↦ rw e refl
      | inr e ↦ rw e (
          ap (then_chunks (slice_text text start (start + size) ∷ []))
            (loop_stuck size overlap text p fuel (start + (size - overlap)) (omega (arith, p, h))))
    ])

-- With an overlap that is not below the size, `chunk_text` returns nothing for a text longer than the
-- size, whatever the fuel.
pub chunk_text_stuck :
    {C : Type 0} (fuel size overlap : ℕ) (text : List C)
    → size ≤ overlap
    → size < length text
    → chunk_text fuel text size overlap ≡ none
unfolding chunk_text
chunk_text_stuck fuel size overlap [] p h = absurd (omega arith)
chunk_text_stuck fuel size overlap (c ∷ text) p h =
    ground (arith, loop_stuck size overlap (c ∷ text) p fuel 0 (omega arith))
