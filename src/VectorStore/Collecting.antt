-- ===== src/VectorStore/Collecting.antt =====
-- The loop over the candidates in _assemble_doc_results (backend/vector_store.py).
use paperless_iq.Prelude.{
  ℕ, suc, ◌≤◌, ◌≡◌, refl, sym, ap, ◌∙◌, ◌≢◌, ◌⊎◌, inl, inr, true, false, Option, none, some, List,
  [], ◌∷◌, arith, ltb, eqb, if◌then◌else◌, eqb_iff, Bool-cases, Option-cases, nat_eq, string_eq,
  Somewhere,
}
use paperless_iq.Prelude.Dict.{Dict, get, get-put}
use paperless_iq.VectorStore.Results.{ChunkCandidate, Best, score_of, is_better, see, best_chunks}

-- A candidate of the document, from the index `i` on, has this score, passage and title.
abbrev pub Chosen : Option (List ℕ) → ℕ → List ChunkCandidate → ℕ → Best → Type 0
Chosen rerank_scores i [] d best = ⊥
Chosen rerank_scores i (c ∷ candidates) d best =
    ((c.document_id ≡ d)
      × (score_of rerank_scores i c ≡ some best.score)
      × (c.passage ≡ best.passage)
      × (c.title ≡ best.title))
    ⊎ Chosen rerank_scores (suc i) candidates d best

-- No candidate of the document has a higher score.
abbrev pub Highest : Option (List ℕ) → ℕ → List ChunkCandidate → ℕ → ℕ → Type 0
Highest rerank_scores i [] d s = Unit
Highest rerank_scores i (c ∷ candidates) d s =
    ((x : ℕ) → c.document_id ≡ d → score_of rerank_scores i c ≡ some x → x ≤ s)
    × Highest rerank_scores (suc i) candidates d s

abbrev entry : ChunkCandidate → ℕ → Best
entry c score = record { score = score; passage = c.passage; title = c.title }

get-see :
    (seen : Dict ℕ Best) (c : ChunkCandidate) (x d : ℕ)
    → get (see seen c x) d ≡ (
        if eqb c.document_id d
        then (if is_better (get seen d) x then some (entry c x) else get seen d)
        else get seen d)
unfolding see
get-see seen c x d = elim (Bool-cases (eqb c.document_id d)) [
  | inl q ↦
      let same : is_better (get seen c.document_id) x ≡ is_better (get seen d) x =
        ap (λ k. is_better (get seen k) x) ((eqb_iff c.document_id d).0 q) in
      elim (Bool-cases (is_better (get seen d) x)) [
        | inl e ↦ rw (same ∙ e) (rw e (rw (get-put seen c.document_id d (entry c x)) (rw q refl)))
        | inr e ↦ rw (same ∙ e) (rw e (rw q refl))
      ]
  | inr q ↦ elim (Bool-cases (is_better (get seen c.document_id) x)) [
    | inl e ↦ rw e (rw (get-put seen c.document_id d (entry c x)) (rw q refl))
    | inr e ↦ rw e (rw q refl)
  ]
]

-- What one candidate does to the entry of a document.
record Seen (seen : Dict ℕ Best) (c : ChunkCandidate) (x d : ℕ) (now : Option Best) : Type 0 where
  source :
      (best : Best)
      → now ≡ some best
      → ((c.document_id ≡ d)
          × (x ≡ best.score)
          × (c.passage ≡ best.passage)
          × (c.title ≡ best.title))
        ⊎ (get seen d ≡ some best)
  counted : c.document_id ≡ d → (best : Best) × (now ≡ some best) × (x ≤ best.score)
  grows :
      (old : Best)
      → get seen d ≡ some old
      → (best : Best) × (now ≡ some best) × (old.score ≤ best.score)

some_inj {ℓ} : {A : Type ℓ} (a b : A) → some a ≡ some b → a ≡ b
some_inj a b h = cc

replaced :
    (seen : Dict ℕ Best) (c : ChunkCandidate) (x d : ℕ)
    → c.document_id ≡ d
    → is_better (get seen d) x ≡ true
    → Seen seen c x d (some (entry c x))
unfolding is_better
replaced seen c x d same better = record {
  source = λ best e.
      let q = some_inj (entry c x) best e in
      inl (
        same,
        ap (λ (b : Best). b.score) q,
        ap (λ (b : Best). b.passage) q,
        ap (λ (b : Best). b.title) q,
      );
  counted = λ _. (entry c x, refl, omega arith);
  grows = λ old e. (entry c x, refl, lower old (ap (λ o. is_better o x) (sym e) ∙ better));
}
  where
    lower : (old : Best) → ltb old.score x ≡ true → old.score ≤ x
    lower old h = ground arith

not_better :
    (o : Option Best) (x : ℕ)
    → is_better o x ≡ false
    → (best : Best) × (o ≡ some best) × (x ≤ best.score)
unfolding is_better
not_better none x h = absurd (cc)
not_better (some best) x h = (best, refl, ground arith)

unchanged :
    (seen : Dict ℕ Best) (c : ChunkCandidate) (x d : ℕ)
    → (c.document_id ≡ d → is_better (get seen d) x ≡ false)
    → Seen seen c x d (get seen d)
unchanged seen c x d h = record {
  source = λ best e. inr e;
  counted = λ same. not_better (get seen d) x (h same);
  grows = λ old e. (old, e, omega arith);
}

see-Seen :
    (seen : Dict ℕ Best) (c : ChunkCandidate) (x d : ℕ) → Seen seen c x d (get (see seen c x) d)
see-Seen seen c x d = rw (get-see seen c x d) (elim (Bool-cases (eqb c.document_id d)) [
  | inl q ↦ rw q (elim (Bool-cases (is_better (get seen d) x)) [
    | inl e ↦ rw e (replaced seen c x d ((eqb_iff c.document_id d).0 q) e)
    | inr e ↦ rw e (unchanged seen c x d (λ _. e))
  ])
  | inr q ↦ rw q (unchanged seen c x d (λ same. absurd (ground (arith, q, same))))
])

-- What the loop does to the entry of a document.
pub record Collected (rerank_scores : Option (List ℕ)) (i : ℕ) (candidates : List ChunkCandidate)
    (seen : Dict ℕ Best) (d : ℕ) (now : Option Best) : Type 0 where
  pub chosen :
      (best : Best)
      → now ≡ some best
      → Chosen rerank_scores i candidates d best ⊎ (get seen d ≡ some best)
  pub highest : (best : Best) → now ≡ some best → Highest rerank_scores i candidates d best.score
  pub grows :
      (old : Best)
      → get seen d ≡ some old
      → (best : Best) × (now ≡ some best) × (old.score ≤ best.score)
  pub present : Somewhere (λ c. c.document_id ≡ d) candidates → (best : Best) × (now ≡ some best)

skipped :
    (rerank_scores : Option (List ℕ)) (i : ℕ) (c : ChunkCandidate)
    (candidates : List ChunkCandidate) (seen : Dict ℕ Best) (d : ℕ) (now : Option Best)
    → c.document_id ≢ d
    → Collected rerank_scores (suc i) candidates seen d now
    → Collected rerank_scores i (c ∷ candidates) seen d now
skipped rerank_scores i c candidates seen d now other rest = record {
  chosen = λ best e. further best (rest.chosen best e);
  highest = λ best e. ((λ x same. absurd (other same)), rest.highest best e);
  grows = rest.grows;
  present = λ h. behind h;
}
  where
    further :
        (best : Best)
        → Chosen rerank_scores (suc i) candidates d best ⊎ (get seen d ≡ some best)
        → Chosen rerank_scores i (c ∷ candidates) d best ⊎ (get seen d ≡ some best)
    further best (inl h) = inl (inr h)
    further best (inr h) = inr h

    behind : Somewhere (λ c. c.document_id ≡ d) (c ∷ candidates) → (best : Best) × (now ≡ some best)
    behind (inl h) = absurd (other h)
    behind (inr h) = rest.present h

counted_step :
    (rerank_scores : Option (List ℕ)) (i : ℕ) (c : ChunkCandidate)
    (candidates : List ChunkCandidate) (seen : Dict ℕ Best) (x d : ℕ) (now : Option Best)
    → score_of rerank_scores i c ≡ some x
    → Collected rerank_scores (suc i) candidates (see seen c x) d now
    → Collected rerank_scores i (c ∷ candidates) seen d now
counted_step rerank_scores i c candidates seen x d now scored rest = record {
  chosen = λ best e. from best (rest.chosen best e);
  highest = λ best e. (
    (λ y same sy. ap_le (some_inj x y (sym scored ∙ sy)) (at_least best e same)),
    rest.highest best e,
  );
  grows = λ old e.
      let one = s.grows old e in
      let two = rest.grows one.0 one.1 in (two.0, two.1, omega (arith, one.2, two.2));
  present = λ h. found h;
}
  where
    s : Seen seen c x d (get (see seen c x) d)
    s = see-Seen seen c x d

    ap_le : {a b m : ℕ} → a ≡ b → a ≤ m → b ≤ m
    ap_le e h = omega arith

    at_least : (best : Best) → now ≡ some best → c.document_id ≡ d → x ≤ best.score
    at_least best e same =
        let one = s.counted same in
        let two = rest.grows one.0 one.1 in
        let q = ap (λ (b : Best). b.score) (some_inj two.0 best (sym two.1 ∙ e)) in
        omega (arith, one.2, two.2, q)

    head_or :
        (best : Best)
        → ((c.document_id ≡ d)
            × (x ≡ best.score)
            × (c.passage ≡ best.passage)
            × (c.title ≡ best.title))
          ⊎ (get seen d ≡ some best)
        → Chosen rerank_scores i (c ∷ candidates) d best ⊎ (get seen d ≡ some best)
    head_or best (inl h) = inl (inl (h.0, scored ∙ ap some h.1, h.2, h.3))
    head_or best (inr h) = inr h

    from :
        (best : Best)
        → Chosen rerank_scores (suc i) candidates d best ⊎ (get (see seen c x) d ≡ some best)
        → Chosen rerank_scores i (c ∷ candidates) d best ⊎ (get seen d ≡ some best)
    from best (inl h) = inl (inr h)
    from best (inr h) = head_or best (s.source best h)

    found : Somewhere (λ c. c.document_id ≡ d) (c ∷ candidates) → (best : Best) × (now ≡ some best)
    found (inl h) = let one = s.counted h in let two = rest.grows one.0 one.1 in (two.0, two.1)
    found (inr h) = rest.present h

pub best_chunks_lem :
    (rerank_scores : Option (List ℕ)) (i : ℕ) (candidates : List ChunkCandidate)
    (seen final : Dict ℕ Best) (d : ℕ)
    → d ≢ 0
    → best_chunks rerank_scores i candidates seen ≡ some final
    → Collected rerank_scores i candidates seen d (get final d)
unfolding best_chunks
best_chunks_lem rerank_scores i [] seen final d nz h = rw (some_inj final seen (sym h)) (record {
  chosen = λ best e. inr e;
  highest = λ best e. tt;
  grows = λ old e. (old, e, omega arith);
  present = λ h. absurd h;
})
best_chunks_lem rerank_scores i (c ∷ candidates) seen final d nz h =
    elim (Bool-cases (eqb c.document_id 0)) [
      | inl e ↦
          skipped rerank_scores i c candidates seen d (get final d)
            (λ same. nz (sym same ∙ (eqb_iff c.document_id 0).0 e))
            (best_chunks_lem rerank_scores (suc i) candidates seen final d nz (rw e at h))
      | inr e ↦ elim (Option-cases (score_of rerank_scores i c)) [
        | inl n ↦ absurd (cc (rw (e, n) at h))
        | inr (x, q) ↦ counted_step rerank_scores i c candidates seen x d (get final d) q (
            best_chunks_lem rerank_scores (suc i) candidates (see seen c x) final d nz
              (rw (e, q) at h))
      ]
    ]
