-- ===== src/Grooming/Justified.antt =====
-- The loops of the classification against a description of one document at a time.
use paperless_iq.Prelude.{
  ℕ, ◌≡◌, refl, sym, ap, ◌∙◌, inl, inr, Bool, true, false, ◌||◌, Option, none, some, List, [], ◌∷◌,
  ◌++◌, arith, eqb, if◌then◌else◌, eqb_iff, Bool-cases, keep, keep-append, nat_eq, string_eq, ◌==◌,
  contains,
}
use paperless_iq.Prelude.Dict.{Dict, get}
use paperless_iq.Grooming.Floats.{Floats}
use paperless_iq.Grooming.Classify.{
  Reason, Candidate, Thresholds, Found, supports_add, add_candidate, add_loop, mismatch,
  with_mismatch, mismatch_loop,
}

-- A dict holds a key once; so does a list made from a set.
abbrev pub UniqueKeys {ℓ} : {V : Type ℓ} → Dict ℕ V → Type ℓ
UniqueKeys [] = Unit
UniqueKeys ((k, v) ∷ es) = (get es k ≡ none) × UniqueKeys es

abbrev pub Distinct : List ℕ → Type 0
Distinct [] = Unit
Distinct (x ∷ xs) = (contains xs x ≡ false) × Distinct xs

append_nil {ℓ} : {A : Type ℓ} (xs : List A) → xs ++ [] ≡ xs
append_nil [] = refl
append_nil (x ∷ xs) = ap (◌∷◌ x) (append_nil xs)

pub or_false : (b : Bool) → b ≡ (b || false)
or_false b = ground arith

module _ {F : Type 0} (fl : Floats F) (th : Thresholds F) (found : Found F) where
  -- The entries of a list of actions that are about one document.
  unfoldable pub about : ℕ → List (Candidate F) → List (Candidate F)
  about d cs = keep (λ c. c.document_id == d) cs

  -- The action on a document that is not blocked, by its score.
  unfoldable pub added_for : (ℕ → Bool) → ℕ → Option F → List (Candidate F)
  added_for blocked d none = []
  added_for blocked d (some score) =
      if blocked d
      then []
      else if supports_add fl th found d score
      then add_candidate fl th found d score ∷ []
      else []

  -- The action on an assigned document.
  unfoldable pub mismatched_for : (ℕ → Option F → Reason × F → Candidate F) → ℕ → List (Candidate F)
  mismatched_for make d =
      with_mismatch fl th found make d (get found.cohort_percentiles d)
        (mismatch fl th found (get found.doc_scores d) (get found.cohort_percentiles d)) []

  rest_none : (blocked : ℕ → Bool) (d : ℕ) (o : Option F) → o ≡ none → added_for blocked d o ≡ []
  unfolding added_for
  rest_none blocked d none h = refl
  rest_none blocked d (some s) h = cc

  about-add_loop :
      (blocked : ℕ → Bool) (d : ℕ) (es : Dict ℕ F)
      → UniqueKeys es
      → about d (add_loop fl th found blocked es) ≡ added_for blocked d (get es d)
  unfolding about add_loop added_for get
  about-add_loop blocked d [] u = refl
  about-add_loop blocked d ((k, s) ∷ es) u = elim (Bool-cases (eqb k d)) [
    | inl e ↦ ground (
      arith,
      about-add_loop blocked d es u.1,
      rest_none blocked d (get es d),
      u.0,
      (eqb_iff k d).0 e,
    )
    | inr e ↦ ground (arith, about-add_loop blocked d es u.1)
  ]

  about-with_mismatch :
      (make : ℕ → Option F → Reason × F → Candidate F) (d x : ℕ) (pct : Option F)
      (o : Option (Reason × F)) (rest : List (Candidate F))
      → ((i : ℕ) (p : Option F) (m : Reason × F) → (make i p m).document_id ≡ i)
      → about d (with_mismatch fl th found make x pct o rest)
        ≡ (if eqb x d then with_mismatch fl th found make x pct o (about d rest) else about d rest)
  unfolding about
  about-with_mismatch make d x pct none rest own = ground arith
  about-with_mismatch make d x pct (some m) rest own =
      ap (λ i. if eqb i d then make x pct m ∷ about d rest else about d rest) (own x pct m)

  about-mismatch_loop :
      (make : ℕ → Option F → Reason × F → Candidate F) (d : ℕ) (docs : List ℕ)
      → ((i : ℕ) (pct : Option F) (m : Reason × F) → (make i pct m).document_id ≡ i)
      → Distinct docs
      → about d (mismatch_loop fl th found make docs)
        ≡ (if contains docs d then mismatched_for make d else [])
  unfolding mismatch_loop mismatched_for
  about-mismatch_loop make d [] own u = unfold about in refl
  about-mismatch_loop make d (x ∷ docs) own u = elim (Bool-cases (eqb x d)) [
    | inl e ↦
        about-with_mismatch make d x _ _ (mismatch_loop fl th found make docs) own
        ∙ rw (e, about-mismatch_loop make d docs own u.1, sym ((eqb_iff x d).0 e), u.0) refl
    | inr e ↦
        about-with_mismatch make d x _ _ (mismatch_loop fl th found make docs) own
        ∙ rw (e, about-mismatch_loop make d docs own u.1) refl
  ]

  all_blocked : (d : ℕ) (o : Option F) → added_for (λ i. true) d o ≡ []
  unfolding added_for
  all_blocked d none = refl
  all_blocked d (some s) = refl

  -- Two conditions that block the same.
  added_for-same :
      (blocked free : ℕ → Bool) (d : ℕ) (o : Option F)
      → blocked d ≡ free d
      → added_for blocked d o ≡ added_for free d o
  unfolding added_for
  added_for-same blocked free d none h = refl
  added_for-same blocked free d (some s) h = rw h refl

  pub both_loops :
      (blocked free : ℕ → Bool) (make : ℕ → Option F → Reason × F → Candidate F) (d : ℕ)
      → blocked d ≡ (contains found.assigned d || free d)
      → ((i : ℕ) (pct : Option F) (m : Reason × F) → (make i pct m).document_id ≡ i)
      → UniqueKeys found.doc_scores
      → Distinct found.assigned
      → about d (
          add_loop fl th found blocked found.doc_scores
          ++ mismatch_loop fl th found make found.assigned)
        ≡ (if contains found.assigned d
            then mismatched_for make d
            else added_for free d (get found.doc_scores d))
  both_loops blocked free make d h own u v =
      unfold about in
      keep-append (λ c. c.document_id == d) (add_loop fl th found blocked found.doc_scores)
        (mismatch_loop fl th found make found.assigned)
      ∙ (ap (λ l. l ++ about d (mismatch_loop fl th found make found.assigned))
            (about-add_loop blocked d found.doc_scores u)
          ∙ (ap (◌++◌ (added_for blocked d (get found.doc_scores d)))
                (about-mismatch_loop make d found.assigned own v)
              ∙ joined (contains found.assigned d) (get found.doc_scores d) h))
    where
      joined :
          (b : Bool) (o : Option F)
          → blocked d ≡ (b || free d)
          → (added_for blocked d o ++ (if b then mismatched_for make d else []))
            ≡ (if b then mismatched_for make d else added_for free d o)
      joined true o e =
          ap (λ l. l ++ mismatched_for make d)
            (added_for-same blocked (λ i. true) d o e ∙ all_blocked d o)
      joined false o e = append_nil (added_for blocked d o) ∙ added_for-same blocked free d o e
