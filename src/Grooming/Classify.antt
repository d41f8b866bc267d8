-- ===== src/Grooming/Classify.antt =====
-- compute_cohort_percentiles, classify_tag_entity and classify_single_valued_entity
-- (backend/grooming.py). `sorted` of a set of ids is taken as done: `assigned` is the sorted list.
use paperless_iq.Prelude.{
  ℕ, suc, ◌*◌, max, Bool, false, ◌&&◌, ◌||◌, Option, none, some, List, [], ◌∷◌, ◌++◌, ltb, leb,
  if◌then◌else◌, is_some, or_else, length, nat_eq, string_eq, contains,
}
use paperless_iq.Prelude.Dict.{Dict, get}
use paperless_iq.Grooming.Floats.{Floats}

pub data Action : Type 0 where
  add remove replace review : Action

pub data Reason : Type 0 where
  low_score absent cohort_bottom : Reason

-- One entry of `actions`. An add has no reason, and only a replace has a replacement.
pub record Candidate (F : Type 0) : Type 0 where
  pub document_id : ℕ
  pub action : Action
  pub score : F
  pub cohort_percentile : Option F
  pub distance : F
  pub reason : Option Reason
  pub replacement : Option (ℕ × F)

-- The thresholds of the configuration.
pub record Thresholds (F : Type 0) : Type 0 where
  pub add_threshold : F
  pub remove_threshold : F
  pub remove_percentile : ℕ
  pub min_supporting_chunks : ℕ
  pub top_k : ℕ

-- What the scan found for one entity.
pub record Found (F : Type 0) : Type 0 where
  pub doc_scores : Dict ℕ F
  pub supporting_chunks : Dict ℕ ℕ
  pub assigned : List ℕ
  pub cohort_percentiles : Dict ℕ F

abbrev pub min_cohort : ℕ
min_cohort = 10

-- `absence_is_evidence`
unfoldable pub absence_is_evidence : ℕ → List ℕ → Bool
absence_is_evidence top_k assigned = leb (3 * max (length assigned) 1) top_k

module _ {F : Type 0} (fl : Floats F) where
  -- `sorted(items, key=score)`: stable, ascending.
  unfoldable pub insert_score : ℕ × F → List (ℕ × F) → List (ℕ × F)
  insert_score e [] = e ∷ []
  insert_score e (x ∷ xs) =
      let rest = insert_score e xs in if fl.less x.1 e.1 then x ∷ rest else e ∷ x ∷ xs

  unfoldable pub sort_scores : List (ℕ × F) → List (ℕ × F)
  unfolding insert_score
  sort_scores [] = []
  sort_scores (e ∷ es) = insert_score e (sort_scores es)

  unfoldable pub ranks : ℕ → ℕ → List (ℕ × F) → Dict ℕ F
  ranks i n [] = []
  ranks i n ((doc_id, s) ∷ es) = (doc_id, fl.percent i n) ∷ ranks (suc i) n es

  unfoldable pub compute_cohort_percentiles : Dict ℕ F → Dict ℕ F
  unfolding sort_scores ranks
  compute_cohort_percentiles cohort_scores =
      if ltb (length cohort_scores) min_cohort
      then []
      else ranks 0 (length cohort_scores) (sort_scores cohort_scores)

  module _ (th : Thresholds F) (found : Found F) where
    -- The `add` rule, on a document that is not assigned.
    unfoldable pub supports_add : ℕ → F → Bool
    unfolding get
    supports_add doc_id score =
        fl.at_least score th.add_threshold
        && leb th.min_supporting_chunks (or_else (get found.supporting_chunks doc_id) 0)

    abbrev pub add_candidate : ℕ → F → Candidate F
    add_candidate doc_id score = record {
      document_id = doc_id;
      action = add;
      score = fl.round4 score;
      cohort_percentile = none;
      distance = fl.minus score th.add_threshold;
      reason = none;
      replacement = none;
    }

    -- The loop over `doc_scores`; `blocked` are the documents it passes over.
    unfoldable pub add_loop : (ℕ → Bool) → Dict ℕ F → List (Candidate F)
    unfolding supports_add
    add_loop blocked [] = []
    add_loop blocked ((doc_id, score) ∷ es) =
        let rest = add_loop blocked es in
        if blocked doc_id
        then rest
        else if supports_add doc_id score
        then add_candidate doc_id score ∷ rest
        else rest

    abbrev pub bottom : Option F → Bool
    bottom none = false
    bottom (some pct) = fl.at_most_int pct th.remove_percentile

    -- The three mismatch rules, in their order: the reason, and the score after them.
    unfoldable pub mismatch : Option F → Option F → Option (Reason × F)
    unfolding absence_is_evidence
    mismatch (some score) pct =
        if fl.less score th.remove_threshold
        then some (low_score, score)
        else if bottom pct
        then some (cohort_bottom, score)
        else none
    mismatch none pct =
        if absence_is_evidence th.top_k found.assigned
        then some (absent, fl.nought)
        else if bottom pct
        then some (cohort_bottom, fl.nought)
        else none

    abbrev pub rounded : Option F → Option F
    rounded none = none
    rounded (some pct) = some (fl.round1 pct)

    abbrev pub remove_candidate : ℕ → Option F → Reason × F → Candidate F
    remove_candidate doc_id pct (reason, score) = record {
      document_id = doc_id;
      action = remove;
      score = fl.round4 score;
      cohort_percentile = rounded pct;
      distance = fl.minus th.remove_threshold score;
      reason = some reason;
      replacement = none;
    }

    -- `blocked`: the ids in `assigned_doc_ids`.
    unfoldable pub is_assigned : ℕ → Bool
    is_assigned doc_id = contains found.assigned doc_id

    abbrev pub with_mismatch :
        (ℕ → Option F → Reason × F → Candidate F)
        → ℕ
        → Option F
        → Option (Reason × F)
        → List (Candidate F)
        → List (Candidate F)
    with_mismatch make doc_id pct none rest = rest
    with_mismatch make doc_id pct (some m) rest = make doc_id pct m ∷ rest

    -- The loop over the assigned documents.
    unfoldable pub mismatch_loop :
        (ℕ → Option F → Reason × F → Candidate F) → List ℕ → List (Candidate F)
    unfolding mismatch get
    mismatch_loop make [] = []
    mismatch_loop make (doc_id ∷ docs) =
        with_mismatch make doc_id (get found.cohort_percentiles doc_id)
          (mismatch (get found.doc_scores doc_id) (get found.cohort_percentiles doc_id))
          (mismatch_loop make docs)

    unfoldable pub classify_tag_entity : List (Candidate F)
    unfolding add_loop is_assigned mismatch_loop
    classify_tag_entity =
        add_loop is_assigned found.doc_scores ++ mismatch_loop remove_candidate found.assigned

    module _ (incumbent_by_doc : Dict ℕ (Option ℕ)) (competitor_best : Dict ℕ (ℕ × F)) where
      -- `incumbent_by_doc.get(doc_id) is not None`
      unfoldable pub has_incumbent : ℕ → Bool
      unfolding get
      has_incumbent doc_id = is_some (or_else (get incumbent_by_doc doc_id) none)

      unfoldable pub is_taken : ℕ → Bool
      unfolding is_assigned has_incumbent
      is_taken doc_id = is_assigned doc_id || has_incumbent doc_id

      abbrev pub review_candidate : ℕ → Option F → Reason × F → Candidate F
      review_candidate doc_id pct (reason, score) = record {
        document_id = doc_id;
        action = review;
        score = fl.round4 score;
        cohort_percentile = rounded pct;
        distance = fl.minus th.remove_threshold score;
        reason = some reason;
        replacement = none;
      }

      abbrev pub replace_candidate : ℕ → Option F → Reason × F → ℕ × F → Candidate F
      replace_candidate doc_id pct (reason, score) (other, best) = record {
        document_id = doc_id;
        action = replace;
        score = fl.round4 score;
        cohort_percentile = rounded pct;
        distance = fl.minus best score;
        reason = some reason;
        replacement = some (other, fl.round4 best);
      }

      abbrev pub against : ℕ → Option F → Reason × F → Option (ℕ × F) → Candidate F
      against doc_id pct (reason, score) none = review_candidate doc_id pct (reason, score)
      against doc_id pct (reason, score) (some (other, best)) =
          if fl.at_least best th.add_threshold && fl.less score best
          then replace_candidate doc_id pct (reason, score) (other, best)
          else review_candidate doc_id pct (reason, score)

      -- A replace when a competitor clears the threshold and outscores the incumbent, else a review.
      unfoldable pub replace_or_review : ℕ → Option F → Reason × F → Candidate F
      unfolding get
      replace_or_review doc_id pct m = against doc_id pct m (get competitor_best doc_id)

      unfoldable pub classify_single_valued_entity : List (Candidate F)
      unfolding add_loop is_taken mismatch_loop replace_or_review
      classify_single_valued_entity =
          add_loop is_taken found.doc_scores ++ mismatch_loop replace_or_review found.assigned
