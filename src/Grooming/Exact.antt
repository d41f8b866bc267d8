-- ===== src/Grooming/Exact.antt =====
-- What the classification answers for each document.
use paperless_iq.Prelude.{
  ℕ, ◌≡◌, refl, ◌∙◌, ◌≢◌, Bool, true, false, ◌&&◌, Option, none, some, List, [], ◌∷◌, if◌then◌else◌,
  is_some, or_else, All, All-append, nat_eq, string_eq, contains,
}
use paperless_iq.Prelude.Dict.{Dict, get}
use paperless_iq.Grooming.Floats.{Floats}
use paperless_iq.Grooming.Classify.{
  remove, Reason, Candidate, Thresholds, Found, supports_add, add_candidate, add_loop, mismatch,
  with_mismatch, mismatch_loop, remove_candidate, is_assigned, classify_tag_entity, has_incumbent,
  is_taken, replace_or_review, against, replace_candidate, review_candidate,
  classify_single_valued_entity,
}
use paperless_iq.Grooming.Justified.{
  UniqueKeys, Distinct, about, mismatched_for, both_loops, or_false,
}
use paperless_iq.Grooming.Rules.{
  addition, reason_of, removal, exchange, added_by_rule, removed_by_rule, exchanged_by_rule,
}

module _ {F : Type 0} (fl : Floats F) (th : Thresholds F) (found : Found F) where
  -- The action of a tag on one document.
  unfoldable pub tag_action : ℕ → List (Candidate F)
  tag_action d =
      if contains found.assigned d
      then removal fl th found d (or_else (get found.doc_scores d) fl.nought)
          (get found.cohort_percentiles d)
          (reason_of fl th found (get found.doc_scores d) (get found.cohort_percentiles d))
      else addition fl th found d (get found.doc_scores d) (get found.supporting_chunks d)

  own_remove :
      (i : ℕ) (pct : Option F) (m : Reason × F)
      → (remove_candidate fl th found i pct m).document_id ≡ i
  own_remove i pct (r, s) = refl

  -- For every document, when the scan lists no document twice, the classification of a tag has exactly
  -- the action of the document's own rule: an assigned document is removed for the first reason that
  -- holds (a score below the threshold; not found though the scan asked for three times as many
  -- documents as are assigned; the bottom of its cohort) and left alone otherwise, and any other
  -- document is added when its score and its supporting chunks suffice. None has two actions.
  pub classify_tag_entity_exact :
      (d : ℕ)
      → UniqueKeys found.doc_scores
      → Distinct found.assigned
      → about fl th found d (classify_tag_entity fl th found) ≡ tag_action d
  unfolding classify_tag_entity tag_action mismatched_for
  classify_tag_entity_exact d u v =
      both_loops fl th found (is_assigned fl th found) (λ i. false) (remove_candidate fl th found) d
        (unfold is_assigned in or_false (contains found.assigned d)) own_remove u v
      ∙ rw (removed_by_rule fl th found d (get found.doc_scores d) (get found.cohort_percentiles d))
          (rw (added_by_rule fl th found (λ i. false) d (get found.doc_scores d)) refl)

  module _ (incumbent_by_doc : Dict ℕ (Option ℕ)) (competitor_best : Dict ℕ (ℕ × F)) where
    -- The action of a single-valued field on one document.
    unfoldable pub single_action : ℕ → List (Candidate F)
    single_action d =
        if contains found.assigned d
        then exchange fl th found d (or_else (get found.doc_scores d) fl.nought)
            (get found.cohort_percentiles d)
            (reason_of fl th found (get found.doc_scores d) (get found.cohort_percentiles d))
            (get competitor_best d)
        else if is_some (or_else (get incumbent_by_doc d) none)
        then []
        else addition fl th found d (get found.doc_scores d) (get found.supporting_chunks d)

    own_against :
        (i : ℕ) (pct : Option F) (m : Reason × F) (o : Option (ℕ × F))
        → (against fl th found incumbent_by_doc competitor_best i pct m o).document_id ≡ i
    own_against i pct (r, s) none = refl
    own_against i pct (r, s) (some (other, best)) =
        chosen (fl.at_least best th.add_threshold && fl.less s best)
      where
        chosen :
            (b : Bool)
            → (if b
                then replace_candidate fl th found incumbent_by_doc competitor_best i pct
                    (r, s)
                    (other, best)
                else review_candidate fl th found incumbent_by_doc competitor_best i pct
                    (r, s)).document_id
              ≡ i
        chosen true = refl
        chosen false = refl

    -- For every document, when the scan lists no document twice, the classification of a correspondent
    -- or document type has exactly the action of the document's own rule: an assigned document for
    -- which one of the three reasons of a removal holds is replaced when the best competitor reaches
    -- the threshold and outscores the incumbent, and reviewed otherwise; any other assigned document
    -- is left alone; and a document that is not assigned is added only when it has no incumbent and
    -- its score and supporting chunks suffice. None has two actions.
    pub classify_single_valued_entity_exact :
        (d : ℕ)
        → UniqueKeys found.doc_scores
        → Distinct found.assigned
        → about fl th found d
            (classify_single_valued_entity fl th found incumbent_by_doc competitor_best)
          ≡ single_action d
    unfolding classify_single_valued_entity single_action mismatched_for has_incumbent
    classify_single_valued_entity_exact d u v =
        both_loops fl th found (is_taken fl th found incumbent_by_doc competitor_best)
          (has_incumbent fl th found incumbent_by_doc competitor_best)
          (replace_or_review fl th found incumbent_by_doc competitor_best) d
          (unfold is_taken is_assigned in refl)
          (unfold replace_or_review in (λ i pct m. own_against i pct m (get competitor_best i))) u v
        ∙ rw
            (exchanged_by_rule fl th found incumbent_by_doc competitor_best d
              (get found.doc_scores d) (get found.cohort_percentiles d))
            (rw
              (added_by_rule fl th found
                (has_incumbent fl th found incumbent_by_doc competitor_best) d
                (get found.doc_scores d))
              refl)

    no_remove :
        (d : ℕ) (pct : Option F) (m : Reason × F) (o : Option (ℕ × F))
        → (against fl th found incumbent_by_doc competitor_best d pct m o).action ≢ remove
    no_remove d pct (r, s) none e = cc
    no_remove d pct (r, s) (some (other, best)) e =
        chosen (fl.at_least best th.add_threshold && fl.less s best) e
      where
        chosen :
            (b : Bool)
            → (if b
                then replace_candidate fl th found incumbent_by_doc competitor_best d pct
                    (r, s)
                    (other, best)
                else review_candidate fl th found incumbent_by_doc competitor_best d pct
                    (r, s)).action
              ≢ remove
        chosen true h = cc
        chosen false h = cc

    add_loop_keeps :
        (blocked : ℕ → Bool) (es : Dict ℕ F)
        → All (λ c. c.action ≢ remove) (add_loop fl th found blocked es)
    unfolding add_loop
    add_loop_keeps blocked [] = tt
    add_loop_keeps blocked ((k, s) ∷ es) =
        chosen (blocked k) (supports_add fl th found k s) (add_loop_keeps blocked es)
      where
        chosen :
            (b c : Bool)
            → All (λ x. x.action ≢ remove) (add_loop fl th found blocked es)
            → All
                (λ x. x.action ≢ remove)
                (if b
                  then add_loop fl th found blocked es
                  else if c
                  then add_candidate fl th found k s ∷ add_loop fl th found blocked es
                  else add_loop fl th found blocked es)
        chosen true c h = h
        chosen false true h = ((λ e. cc), h)
        chosen false false h = h

    mismatch_loop_keeps :
        (docs : List ℕ)
        → All
            (λ c. c.action ≢ remove)
            (mismatch_loop fl th found
              (replace_or_review fl th found incumbent_by_doc competitor_best)
              docs)
    unfolding mismatch_loop replace_or_review
    mismatch_loop_keeps [] = tt
    mismatch_loop_keeps (d ∷ docs) =
        go (mismatch fl th found (get found.doc_scores d) (get found.cohort_percentiles d))
          (mismatch_loop_keeps docs)
      where
        go :
            (o : Option (Reason × F))
            → All
                (λ c. c.action ≢ remove)
                (mismatch_loop fl th found
                  (replace_or_review fl th found incumbent_by_doc competitor_best)
                  docs)
            → All
                (λ c. c.action ≢ remove)
                (with_mismatch fl th found
                  (replace_or_review fl th found incumbent_by_doc competitor_best)
                  d
                  (get found.cohort_percentiles d)
                  o
                  (mismatch_loop fl th found
                    (replace_or_review fl th found incumbent_by_doc competitor_best)
                    docs))
        go none h = h
        go (some m) h = (no_remove d (get found.cohort_percentiles d) m (get competitor_best d), h)

    -- A single-valued field never gets a bare remove.
    never_bare_remove :
        All
          (λ c. c.action ≢ remove)
          (classify_single_valued_entity fl th found incumbent_by_doc competitor_best)
    unfolding classify_single_valued_entity
    never_bare_remove =
        All-append (λ (c : Candidate F). c.action ≢ remove)
          (add_loop fl th found (is_taken fl th found incumbent_by_doc competitor_best)
            found.doc_scores)
          _
          (add_loop_keeps (is_taken fl th found incumbent_by_doc competitor_best) found.doc_scores)
          (mismatch_loop_keeps found.assigned)
