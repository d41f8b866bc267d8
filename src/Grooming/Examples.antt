-- ===== src/Grooming/Examples.antt =====
-- The theorems about grooming at small concrete inputs.
use mathlib.Core.List.{Perm}
use paperless_iq.Prelude.{
  ℕ, ◌+◌, ◌-◌, ◌*◌, ◌/◌, ◌≡◌, refl, inr, true, none, some, List, [], ◌∷◌, arith, ltb, leb,
  if◌then◌else◌, length, take, keep, nat_eq, string_eq, contains,
}
use paperless_iq.Prelude.Dict.{get}
use paperless_iq.Approval.Rows.{
  pending, grooming, EvidenceAction, actions, SuggestionRow, Db, get_row,
}
use paperless_iq.Approval.Service.{RejectArgs}
use paperless_iq.Approval.Operations.{reject}
use paperless_iq.Grooming.Floats.{Floats}
use paperless_iq.Grooming.Classify.{
  remove, replace, review, Thresholds, Found, classify_tag_entity, classify_single_valued_entity,
}
use paperless_iq.Grooming.Justified.{about}
use paperless_iq.Grooming.Exact.{
  tag_action, single_action, classify_tag_entity_exact, classify_single_valued_entity_exact,
}
use paperless_iq.Grooming.Dismissals.{
  load_dismissed_keys, is_dismissed, is_dismissed_pair, dismiss_dedup_pair,
}
use paperless_iq.Grooming.Memory.{reject_dismisses, dismiss_dedup_pair_lem}
use paperless_iq.Grooming.Corrections.{tag, correspondent, Proposal, Current, Corrected, correct}
use paperless_iq.Grooming.TagCorrections.{proposes}
use paperless_iq.Grooming.TagCorrections.Outcome.{has_after, is_recorded, correct_tag_exact}
use paperless_iq.Grooming.Selection.{
  sort_candidates, select_docs, documents, capped, select_docs_lem,
}
use paperless_iq.VectorStore.Sorting.{Descending}

-- Scores in hundredths.
abbrev hundredths : Floats ℕ
hundredths = record {
  nought = 0;
  less = ltb;
  minus = λ a b. a - b;
  at_least = λ a b. leb b a;
  percent = λ i n. 100 * i / (n - 1);
  at_most_int = leb;
  round4 = λ a. a;
  round1 = λ a. a;
}

abbrev thresholds : Thresholds ℕ
thresholds = record {
  add_threshold = 80;
  remove_threshold = 35;
  remove_percentile = 10;
  min_supporting_chunks = 2;
  top_k = 100;
}

-- Document 1 is well scored, 2 is assigned and scored low, 3 is assigned and absent.
abbrev found : Found ℕ
found = record {
  doc_scores = (1, 90) ∷ (2, 20) ∷ [];
  supporting_chunks = (1, 3) ∷ [];
  assigned = 2 ∷ 3 ∷ [];
  cohort_percentiles = [];
}

classify_tag_entity_exact_example :
    about hundredths thresholds found 2 (classify_tag_entity hundredths thresholds found)
    ≡ tag_action hundredths thresholds found 2
unfolding get
classify_tag_entity_exact_example =
    classify_tag_entity_exact hundredths thresholds found 2 (refl, (refl, tt)) (refl, (refl, tt))

classify_single_valued_entity_exact_example :
    about hundredths thresholds found 2
      (classify_single_valued_entity hundredths thresholds found [] ((2, (7, 95)) ∷ []))
    ≡ single_action hundredths thresholds found [] ((2, (7, 95)) ∷ []) 2
unfolding get
classify_single_valued_entity_exact_example =
    classify_single_valued_entity_exact hundredths thresholds found [] ((2, (7, 95)) ∷ []) 2
      (refl, (refl, tt)) (refl, (refl, tt))

abbrev evidence : List EvidenceAction
evidence =
    record {
      entity_type = "correspondent";
      entity_id = some 7;
      action = "review";
      replacement_entity_id = none;
    }
    ∷ []

abbrev grooming_row : SuggestionRow
grooming_row = record {
  id = 1;
  document_id = 12;
  status = pending;
  created_at = 1;
  title = none;
  tags = none;
  correspondent = none;
  document_type = none;
  storage_path = none;
  custom_fields = none;
  llm_provider = "";
  llm_model = "";
  analysis_mode = grooming;
  prompt_used = "";
  raw_llm_response = "";
  extracted_content = none;
  original_ocr_content = none;
  evidence_json = actions evidence;
}

abbrev db : Db
db = record { suggestions = grooming_row ∷ []; audit_log = []; dismissals = [] }

abbrev args : RejectArgs
args = record {
  change_source = "ui";
  document_title = none;
  session_id = none;
  record_dismissals = true;
  now = 1000;
}

reject_dismisses_example :
    is_dismissed
      (load_dismissed_keys ("correspondent" ∷ []) 1 50000 (reject 1 args db).1.dismissals)
      "correspondent"
      7
      12
      replace
    ≡ true
unfolding get_row
reject_dismisses_example =
    reject_dismisses 1 args db grooming_row evidence ("correspondent" ∷ []) "correspondent" 7 1
      50000 review replace refl refl refl refl refl refl refl (inr (omega arith))
      (inr (inr (refl, refl)))

dismiss_dedup_pair_lem_example :
    (is_dismissed_pair "tag" 3 4 (dismiss_dedup_pair "tag" 3 4 9 []) ≡ true)
    × (is_dismissed_pair "tag" 4 3 (dismiss_dedup_pair "tag" 3 4 9 []) ≡ true)
    × (load_dismissed_keys ("tag" ∷ []) 0 10 (dismiss_dedup_pair "tag" 3 4 9 [])
        ≡ load_dismissed_keys ("tag" ∷ []) 0 10 [])
dismiss_dedup_pair_lem_example = dismiss_dedup_pair_lem "tag" 3 4 9 10 ("tag" ∷ []) 0 []

-- A candidate here is its document and a distance.
abbrev document : ℕ × ℕ → ℕ
document c = c.0

abbrev candidates : List (ℕ × ℕ)
candidates = (5, 70) ∷ (8, 60) ∷ (6, 80) ∷ (5, 90) ∷ []

select_docs_lem_example :
    (cs : List (ℕ × ℕ)) × Perm cs candidates
    × Descending (λ c. c.1) cs
    × (select_docs document 2 [] (sort_candidates document (λ c. c.1) candidates)
        ≡ take 2 (documents document [] cs))
    × (length (select_docs document 2 [] (sort_candidates document (λ c. c.1) candidates))
          + capped document 2 (sort_candidates document (λ c. c.1) candidates)
        ≡ length (documents document [] cs))
select_docs_lem_example = select_docs_lem document (λ c. c.1) 2 candidates

abbrev proposal : Proposal
proposal = record {
  kind = tag;
  action = remove;
  entity_id = 7;
  entity_name = "tax";
  replacement_entity_name = none;
}

abbrev other_proposal : Proposal
other_proposal = record {
  kind = correspondent;
  action = review;
  entity_id = 2;
  entity_name = "tax";
  replacement_entity_name = none;
}

abbrev unset : Current
unset = record { correspondent_id = none; document_type_id = none }

abbrev tagged : Corrected
tagged = record {
  corrected_tags = "tax" ∷ "bank" ∷ [];
  corrected_corr = none;
  corrected_dt = none;
  valid_actions = [];
}

correct_tag_exact_example :
    (contains (correct unset (other_proposal ∷ proposal ∷ []) tagged).corrected_tags "tax"
      ≡ has_after remove (contains tagged.corrected_tags "tax"))
    × (keep (proposes "tax") (correct unset (other_proposal ∷ proposal ∷ []) tagged).valid_actions
        ≡ (if is_recorded remove (contains tagged.corrected_tags "tax") then proposal ∷ [] else []))
correct_tag_exact_example =
    correct_tag_exact unset "tax" proposal (other_proposal ∷ proposal ∷ []) tagged
      (refl, (refl, tt)) refl refl
