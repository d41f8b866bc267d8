-- ===== src/Grooming/Rules.antt =====
-- The rules of classify_tag_entity and classify_single_valued_entity (backend/grooming.py) for one
-- document, spelled out over what the scan found: the description that their loops are compared with.
use paperless_iq.Prelude.{
  ℕ, ◌*◌, max, ◌≡◌, refl, ap, ◌∙◌, Bool, ◌&&◌, Option, none, some, List, [], ◌∷◌, arith, leb,
  if◌then◌else◌, or_else, length, nat_eq, string_eq,
}
use paperless_iq.Prelude.Dict.{Dict, get}
use paperless_iq.Grooming.Floats.{Floats}
use paperless_iq.Grooming.Classify.{
  add, remove, replace, review, Reason, low_score, absent, cohort_bottom, Candidate, Thresholds,
  Found, supports_add, absence_is_evidence, mismatch, with_mismatch, remove_candidate, against,
  replace_or_review,
}
use paperless_iq.Grooming.Justified.{added_for}

module _ {F : Type 0} (fl : Floats F) (th : Thresholds F) (found : Found F) where
  -- An unassigned document is added when its score reaches the threshold and it has enough
  -- supporting chunks.
  unfoldable pub addition : ℕ → Option F → Option ℕ → List (Candidate F)
  addition d none chunks = []
  addition d (some score) chunks =
      if fl.at_least score th.add_threshold && leb th.min_supporting_chunks (or_else chunks 0)
      then record {
        document_id = d;
        action = add;
        score = fl.round4 score;
        cohort_percentile = none;
        distance = fl.minus score th.add_threshold;
        reason = none;
        replacement = none;
      }
        ∷ []
      else []

  -- Why an assigned document with this score and percentile does not fit: its score is low; or it was
  -- not found, though the scan asked for three times as many documents as are assigned; or it is at
  -- the bottom of its cohort.
  unfoldable pub reason_of : Option F → Option F → Option Reason
  reason_of (some score) none = if fl.less score th.remove_threshold then some low_score else none
  reason_of (some score) (some pct) =
      if fl.less score th.remove_threshold
      then some low_score
      else if fl.at_most_int pct th.remove_percentile
      then some cohort_bottom
      else none
  reason_of none none =
      if leb (3 * max (length found.assigned) 1) th.top_k then some absent else none
  reason_of none (some pct) =
      if leb (3 * max (length found.assigned) 1) th.top_k
      then some absent
      else if fl.at_most_int pct th.remove_percentile
      then some cohort_bottom
      else none

  abbrev shown : Option F → Option F
  shown none = none
  shown (some pct) = some (fl.round1 pct)

  unfoldable pub removal : ℕ → F → Option F → Option Reason → List (Candidate F)
  removal d score pct none = []
  removal d score pct (some reason) =
      record {
        document_id = d;
        action = remove;
        score = fl.round4 score;
        cohort_percentile = shown pct;
        distance = fl.minus th.remove_threshold score;
        reason = some reason;
        replacement = none;
      }
      ∷ []

  -- A misfit of a single-valued field is replaced by the best competitor when that reaches the
  -- threshold of an add and has a higher score than the incumbent, and reviewed otherwise.
  unfoldable pub exchange : ℕ → F → Option F → Option Reason → Option (ℕ × F) → List (Candidate F)
  exchange d score pct none competitor = []
  exchange d score pct (some reason) none =
      record {
        document_id = d;
        action = review;
        score = fl.round4 score;
        cohort_percentile = shown pct;
        distance = fl.minus th.remove_threshold score;
        reason = some reason;
        replacement = none;
      }
      ∷ []
  exchange d score pct (some reason) (some (other, best)) =
      if fl.at_least best th.add_threshold && fl.less score best
      then record {
        document_id = d;
        action = replace;
        score = fl.round4 score;
        cohort_percentile = shown pct;
        distance = fl.minus best score;
        reason = some reason;
        replacement = some (other, fl.round4 best);
      }
        ∷ []
      else record {
        document_id = d;
        action = review;
        score = fl.round4 score;
        cohort_percentile = shown pct;
        distance = fl.minus th.remove_threshold score;
        reason = some reason;
        replacement = none;
      }
        ∷ []

  pub added_by_rule :
      (blocked : ℕ → Bool) (d : ℕ) (o : Option F)
      → added_for fl th found blocked d o
        ≡ (if blocked d then [] else addition d o (get found.supporting_chunks d))
  unfolding added_for addition supports_add
  added_by_rule blocked d none = ground arith
  added_by_rule blocked d (some score) = refl

  pub removed_by_rule :
      (d : ℕ) (o pct : Option F)
      → with_mismatch fl th found
          (remove_candidate fl th found)
          d
          pct
          (mismatch fl th found o pct)
          []
        ≡ removal d (or_else o fl.nought) pct (reason_of o pct)
  unfolding mismatch removal reason_of absence_is_evidence
  removed_by_rule d (some score) none = ground arith
  removed_by_rule d (some score) (some pct) = ground arith
  removed_by_rule d none none = ground arith
  removed_by_rule d none (some pct) = ground arith

  module _ (incumbent_by_doc : Dict ℕ (Option ℕ)) (competitor_best : Dict ℕ (ℕ × F)) where
    exchanged_reason :
        (d : ℕ) (score : F) (pct : Option F) (reason : Reason) (c : Option (ℕ × F))
        → against fl th found incumbent_by_doc competitor_best d pct (reason, score) c ∷ []
          ≡ exchange d score pct (some reason) c
    unfolding exchange
    exchanged_reason d score pct reason none = refl
    exchanged_reason d score pct reason (some (other, best)) = ground arith

    paired : F → Option Reason → Option (Reason × F)
    paired score none = none
    paired score (some reason) = some (reason, score)

    mismatch_reason :
        (o pct : Option F)
        → mismatch fl th found o pct ≡ paired (or_else o fl.nought) (reason_of o pct)
    unfolding mismatch reason_of absence_is_evidence paired
    mismatch_reason (some score) none = ground arith
    mismatch_reason (some score) (some pct) = ground arith
    mismatch_reason none none = ground arith
    mismatch_reason none (some pct) = ground arith

    pub exchanged_by_rule :
        (d : ℕ) (o pct : Option F)
        → with_mismatch fl th found
            (replace_or_review fl th found incumbent_by_doc competitor_best)
            d
            pct
            (mismatch fl th found o pct)
            []
          ≡ exchange d (or_else o fl.nought) pct (reason_of o pct) (get competitor_best d)
    unfolding replace_or_review
    exchanged_by_rule d o pct =
        ap
          (λ m.
            with_mismatch fl th found
              (replace_or_review fl th found incumbent_by_doc competitor_best) d pct m [])
          (mismatch_reason o pct)
        ∙ by_reason (reason_of o pct)
      where
        by_reason :
            (r : Option Reason)
            → with_mismatch fl th found
                (replace_or_review fl th found incumbent_by_doc competitor_best)
                d
                pct
                (paired (or_else o fl.nought) r)
                []
              ≡ exchange d (or_else o fl.nought) pct r (get competitor_best d)
        by_reason none = unfold paired exchange in refl
        by_reason (some reason) =
            unfold paired in
            exchanged_reason d (or_else o fl.nought) pct reason (get competitor_best d)
