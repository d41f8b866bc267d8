-- ===== src/VectorStore/Entries.antt =====
-- The dictionary `seen` of _assemble_doc_results (backend/vector_store.py).
use paperless_iq.Prelude.{
  ℕ, suc, ◌≡◌, refl, sym, ap, ◌≢◌, inl, inr, false, Option, none, some, List, [], ◌∷◌, arith, eqb,
  eqb_iff, Bool-cases, Option-cases, All, nat_eq, string_eq, Somewhere,
}
use paperless_iq.Prelude.Dict.{Dict, get, put, get-put}
use paperless_iq.VectorStore.Results.{ChunkCandidate, Best, score_of, see, is_better, best_chunks}
use paperless_iq.VectorStore.Sorting.{Distinct}
use paperless_iq.VectorStore.Packing.{weaken}

-- A dictionary has one entry for each key, and none for 0.
abbrev pub Unique : Dict ℕ Best → Type 0
Unique [] = Unit
Unique ((k, v) ∷ d) = (get d k ≡ none) × Unique d

Unique-put : (d : Dict ℕ Best) (k : ℕ) (v : Best) → Unique d → Unique (put d k v)
unfolding put get
Unique-put [] k v u = (refl, tt)
Unique-put ((j, w) ∷ d) k v u = elim (Bool-cases (eqb j k)) [
  | inl e ↦ rw e u
  | inr e ↦
      rw e
        (rw (get-put d k j v) (ground (arith, u.0, eqb_iff k j, eqb_iff j k)), Unique-put d k v u.1)
]

pub record Tidy (d : Dict ℕ Best) : Type 0 where
  pub unique : Unique d
  pub no_zero : get d 0 ≡ none

see-Tidy :
    (seen : Dict ℕ Best) (c : ChunkCandidate) (x : ℕ)
    → eqb c.document_id 0 ≡ false
    → Tidy seen
    → Tidy (see seen c x)
unfolding see
see-Tidy seen c x nz t = elim (Bool-cases (is_better (get seen c.document_id) x)) [
  | inl e ↦ rw e (record {
    unique =
        Unique-put seen c.document_id (record { score = x; passage = c.passage; title = c.title })
          t.unique;
    no_zero =
        rw
          (get-put seen c.document_id 0
            (record { score = x; passage = c.passage; title = c.title }))
          (rw nz t.no_zero);
  })
  | inr e ↦ rw e t
]

pub best_chunks-Tidy :
    (rerank_scores : Option (List ℕ)) (i : ℕ) (candidates : List ChunkCandidate)
    (seen final : Dict ℕ Best)
    → Tidy seen
    → best_chunks rerank_scores i candidates seen ≡ some final
    → Tidy final
unfolding best_chunks
best_chunks-Tidy rerank_scores i [] seen final t h = let same : seen ≡ final = cc in rw (sym same) t
best_chunks-Tidy rerank_scores i (c ∷ candidates) seen final t h =
    elim (Bool-cases (eqb c.document_id 0)) [
      | inl e ↦ best_chunks-Tidy rerank_scores (suc i) candidates seen final t (rw e at h)
      | inr e ↦ elim (Option-cases (score_of rerank_scores i c)) [
        | inl n ↦ absurd (cc (rw (e, n) at h))
        | inr (x, q) ↦
            best_chunks-Tidy rerank_scores (suc i) candidates (see seen c x) final
              (see-Tidy seen c x e t) (rw (e, q) at h)
      ]
    ]

pub entries : (d : Dict ℕ Best) → Unique d → All (λ e. get d e.0 ≡ some e.1) d
unfolding get
entries [] u = tt
entries ((k, v) ∷ d) u = (
  rw ((eqb_iff k k).1 refl) refl,
  weaken (λ e. get d e.0 ≡ some e.1) (λ e. get ((k, v) ∷ d) e.0 ≡ some e.1) d (λ e h. behind e h)
      (entries d u.1),
)
  where
    behind : (e : ℕ × Best) → get d e.0 ≡ some e.1 → get ((k, v) ∷ d) e.0 ≡ some e.1
    behind e h = elim (Bool-cases (eqb k e.0)) [
      | inl q ↦ absurd (cc (u.0, ap (get d) ((eqb_iff k e.0).0 q), h))
      | inr q ↦ rw q h
    ]

pub Distinct-entries : (d : Dict ℕ Best) → Unique d → Distinct (λ e. e.1.score) (λ e. e.0) d
Distinct-entries [] u = tt
Distinct-entries ((k, v) ∷ d) u = (
  weaken (λ e. get d e.0 ≡ some e.1) (λ e. e.0 ≢ k) d (λ e h same. cc (u.0, ap (get d) same, h))
      (entries d u.1),
  Distinct-entries d u.1,
)

pub get-entry :
    (d : Dict ℕ Best) (k : ℕ) (v : Best)
    → get d k ≡ some v
    → Somewhere (λ e. (e.0 ≡ k) × (e.1 ≡ v)) d
unfolding get
get-entry [] k v h = absurd (cc)
get-entry ((j, w) ∷ d) k v h = elim (Bool-cases (eqb j k)) [
  | inl e ↦ let q = rw e at h in inl ((eqb_iff j k).0 e, cc q)
  | inr e ↦ inr (get-entry d k v (rw e at h))
]
