-- ===== src/VectorStore/Ranking.antt =====
-- The search results of _assemble_doc_results (backend/vector_store.py).
use paperless_iq.Prelude.{
  ℕ, suc, ◌≤◌, String, ◌≡◌, refl, ap, ◌≢◌, ◌⊎◌, inl, inr, true, Option, none, some, List, [], ◌∷◌,
  map, arith, leb, leb→le, le→leb, length, take, keep, All, length-take, nat_eq, string_eq,
  Somewhere,
}
use paperless_iq.Prelude.Dict.{Dict, get}
use paperless_iq.VectorStore.Results.{
  ChunkCandidate, SearchResult, Best, score_of, best_chunks, best_first, search_result,
}
use paperless_iq.VectorStore.Sorting.{
  Descending, Distinct, All-best_first, Somewhere-best_first, Descending-best_first,
  Distinct-best_first,
}
use paperless_iq.VectorStore.Collecting.{Chosen, Highest, Collected, best_chunks_lem}
use paperless_iq.VectorStore.Entries.{Tidy, best_chunks-Tidy, entries, Distinct-entries, get-entry}
use paperless_iq.VectorStore.Selecting.{
  kept_pass, Somewhere-keep, Descending-keep, Distinct-keep, All-map, Somewhere-map, Descending-map,
  Distinct-map, All-take, Descending-take, Distinct-take, Somewhere-take,
}
use paperless_iq.VectorStore.Packing.{weaken}

-- A candidate of the document has this score.
abbrev pub Scored : Option (List ℕ) → ℕ → List ChunkCandidate → ℕ → ℕ → Type 0
Scored rerank_scores i [] d x = ⊥
Scored rerank_scores i (c ∷ candidates) d x =
    ((c.document_id ≡ d) × (score_of rerank_scores i c ≡ some x))
    ⊎ Scored rerank_scores (suc i) candidates d x

-- The best chunk of a document, and good enough.
pub record BestOf (rerank_scores : Option (List ℕ)) (candidates : List ChunkCandidate)
    (min_score : ℕ) (e : ℕ × Best) : Type 0 where
  pub chosen : Chosen rerank_scores 0 candidates e.0 e.1
  pub highest : Highest rerank_scores 0 candidates e.0 e.1.score
  pub enough : min_score ≤ e.1.score

-- What is promised of the search results.
pub record Ranked (deeplink : ℕ → String) (candidates : List ChunkCandidate)
    (rerank_scores : Option (List ℕ)) (min_score top_n : ℕ) (results : List SearchResult)
    : Type 0 where
  pub few : length results ≤ top_n
  pub descending : Descending (λ r. r.score) results
  pub distinct : Distinct (λ r. r.score) (λ r. r.document_id) results
  pub each :
      All
        (λ r.
          (e : ℕ × Best) × (r ≡ search_result deeplink e)
          × BestOf rerank_scores candidates min_score e)
        results
  pub complete :
      (d x : ℕ)
      → d ≢ 0
      → Scored rerank_scores 0 candidates d x
      → min_score ≤ x
      → Somewhere (λ r. r.document_id ≡ d) results
        ⊎ ((length results ≡ top_n) × All (λ r. x ≤ r.score) results)

Scored-present :
    (rerank_scores : Option (List ℕ)) (i : ℕ) (candidates : List ChunkCandidate) (d x : ℕ)
    → Scored rerank_scores i candidates d x
    → Somewhere (λ c. c.document_id ≡ d) candidates
Scored-present rerank_scores i [] d x h = h
Scored-present rerank_scores i (c ∷ candidates) d x (inl h) = inl h.0
Scored-present rerank_scores i (c ∷ candidates) d x (inr h) =
    inr (Scored-present rerank_scores (suc i) candidates d x h)

Scored-Highest :
    (rerank_scores : Option (List ℕ)) (i : ℕ) (candidates : List ChunkCandidate) (d x s : ℕ)
    → Scored rerank_scores i candidates d x
    → Highest rerank_scores i candidates d s
    → x ≤ s
Scored-Highest rerank_scores i [] d x s h a = absurd h
Scored-Highest rerank_scores i (c ∷ candidates) d x s (inl h) a = a.0 x h.0 h.1
Scored-Highest rerank_scores i (c ∷ candidates) d x s (inr h) a =
    Scored-Highest rerank_scores (suc i) candidates d x s h a.1

-- The results from the dictionary that the loop has filled.
module _ (deeplink : ℕ → String) (candidates : List ChunkCandidate)
    (rerank_scores : Option (List ℕ)) (min_score top_n : ℕ) (seen : Dict ℕ Best)
    (filled : best_chunks rerank_scores 0 candidates [] ≡ some seen) where
  tidy : Tidy seen
  unfolding get
  tidy =
      best_chunks-Tidy rerank_scores 0 candidates [] seen (record { unique = tt; no_zero = refl })
        filled

  best_entry :
      (e : ℕ × Best)
      → get seen e.0 ≡ some e.1
      → Chosen rerank_scores 0 candidates e.0 e.1 × Highest rerank_scores 0 candidates e.0 e.1.score
  unfolding get
  best_entry e h = (new (c.chosen e.1 h), c.highest e.1 h)
    where
      not_zero : e.0 ≢ 0
      not_zero q = cc (tidy.no_zero, ap (get seen) q, h)

      c : Collected rerank_scores 0 candidates [] e.0 (get seen e.0)
      c = best_chunks_lem rerank_scores 0 candidates [] seen e.0 not_zero filled

      new :
          Chosen rerank_scores 0 candidates e.0 e.1 ⊎ (none ≡ some e.1)
          → Chosen rerank_scores 0 candidates e.0 e.1
      new (inl q) = q
      new (inr q) = absurd (cc (q))

  abbrev sorted : List (ℕ × Best)
  sorted = best_first (λ e. e.1.score) seen

  abbrev good : List (ℕ × Best)
  good = keep (λ e. leb min_score e.1.score) sorted

  all_good : All (λ e. BestOf rerank_scores candidates min_score e) good
  all_good =
      weaken (λ e. (get seen e.0 ≡ some e.1) × (leb min_score e.1.score ≡ true))
        (λ e. BestOf rerank_scores candidates min_score e) good
        (λ e h.
          let b = best_entry e h.0 in
          record { chosen = b.0; highest = b.1; enough = leb→le min_score e.1.score h.1 })
        (kept_pass (λ e. leb min_score e.1.score) (λ e. get seen e.0 ≡ some e.1) sorted
          (All-best_first (λ e. e.1.score) (λ e. get seen e.0 ≡ some e.1) seen
            (entries seen tidy.unique)))

  found :
      (d x : ℕ)
      → d ≢ 0
      → Scored rerank_scores 0 candidates d x
      → min_score ≤ x
      → Somewhere (λ e. (e.0 ≡ d) × (x ≤ e.1.score)) good
  found d x nz h m =
      Somewhere-keep (λ e. leb min_score e.1.score) (λ e. (e.0 ≡ d) × (x ≤ e.1.score))
        (λ e q. le→leb min_score e.1.score (omega (arith, q.1, m))) sorted
        (Somewhere-best_first (λ e. e.1.score) (λ e. (e.0 ≡ d) × (x ≤ e.1.score)) seen
          (somewhere_weaken seen (get-entry seen d b.0 b.1)))
    where
      c : Collected rerank_scores 0 candidates [] d (get seen d)
      c = best_chunks_lem rerank_scores 0 candidates [] seen d nz filled

      b : (best : Best) × (get seen d ≡ some best)
      b = c.present (Scored-present rerank_scores 0 candidates d x h)

      x_le : x ≤ b.0.score
      x_le = Scored-Highest rerank_scores 0 candidates d x b.0.score h (c.highest b.0 b.1)

      somewhere_weaken :
          (xs : Dict ℕ Best)
          → Somewhere (λ e. (e.0 ≡ d) × (e.1 ≡ b.0)) xs
          → Somewhere (λ e. (e.0 ≡ d) × (x ≤ e.1.score)) xs
      somewhere_weaken = elim [
        | [] ↦ λ q. q
        | e ∷ (xs → ih) ↦ λ q. elim q [
          | inl r ↦ inl (r.0, omega (arith, x_le, ap (λ (v : Best). v.score) r.1))
          | inr r ↦ inr (ih r)
        ]
      ]

  pub Ranked-seen :
      Ranked deeplink candidates rerank_scores min_score top_n
        (take top_n (map (search_result deeplink) good))
  unfolding search_result
  Ranked-seen = record {
    few = omega (arith, length-take {0} top_n (map (search_result deeplink) good));
    descending = Descending-take (λ r. r.score) top_n (map (search_result deeplink) good) ranked;
    distinct =
        Distinct-take (λ r. r.score) (λ r. r.document_id) top_n (map (search_result deeplink) good)
          (Distinct-map (search_result deeplink) (λ e. e.1.score) (λ r. r.score)
            (λ r. r.document_id) good
            (Distinct-keep (λ e. leb min_score e.1.score) (λ e. e.1.score) (λ e. e.0) sorted
              (Distinct-best_first (λ e. e.1.score) (λ e. e.0) seen
                (Distinct-entries seen tidy.unique))));
    each =
        All-take
          (λ r.
            (e : ℕ × Best) × (r ≡ search_result deeplink e)
            × BestOf rerank_scores candidates min_score e)
          top_n (map (search_result deeplink) good)
          (All-map (search_result deeplink)
            (λ r.
              (e : ℕ × Best) × (r ≡ search_result deeplink e)
              × BestOf rerank_scores candidates min_score e)
            good
            (weaken (λ e. BestOf rerank_scores candidates min_score e)
              (λ f.
                (e : ℕ × Best) × (search_result deeplink f ≡ search_result deeplink e)
                × BestOf rerank_scores candidates min_score e)
              good (λ e q. (e, refl, q)) all_good));
    complete = λ d x nz h m. first d x (
        Somewhere-take (λ r. r.score) (λ r. (r.document_id ≡ d) × (x ≤ r.score)) x top_n
          (map (search_result deeplink) good) ranked (λ r q. q.1)
          (Somewhere-map (search_result deeplink) (λ r. (r.document_id ≡ d) × (x ≤ r.score)) good
            (found d x nz h m)));
  }
    where
      ranked : Descending (λ r. r.score) (map (search_result deeplink) good)
      ranked =
          Descending-map (search_result deeplink) (λ r. r.score) good
            (Descending-keep (λ e. leb min_score e.1.score) (λ e. e.1.score) sorted
              (Descending-best_first (λ e. e.1.score) seen))

      drop_score :
          (d x : ℕ) (rs : List SearchResult)
          → Somewhere (λ r. (r.document_id ≡ d) × (x ≤ r.score)) rs
          → Somewhere (λ r. r.document_id ≡ d) rs
      drop_score d x = elim [
        | [] ↦ λ q. q
        | r ∷ (rs → ih) ↦ λ q. elim q [ inl a ↦ inl a.0 | inr a ↦ inr (ih a) ]
      ]

      first :
          (d x : ℕ)
          → Somewhere
              (λ r. (r.document_id ≡ d) × (x ≤ r.score))
              (take top_n (map (search_result deeplink) good))
            ⊎ ((length (take top_n (map (search_result deeplink) good)) ≡ top_n)
                × All (λ r. x ≤ r.score) (take top_n (map (search_result deeplink) good)))
          → Somewhere (λ r. r.document_id ≡ d) (take top_n (map (search_result deeplink) good))
            ⊎ ((length (take top_n (map (search_result deeplink) good)) ≡ top_n)
                × All (λ r. x ≤ r.score) (take top_n (map (search_result deeplink) good)))
      first d x (inl q) = inl (drop_score d x (take top_n (map (search_result deeplink) good)) q)
      first d x (inr q) = inr q
