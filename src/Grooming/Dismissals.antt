-- ===== src/Grooming/Dismissals.antt =====
-- The memory of dismissals: _load_dismissed_keys, _is_dismissed, dismiss_dedup_pair, and the pairs
-- that get_dedup_candidates passes over; and _entity_needs_rescan (backend/grooming.py). Times are
-- seconds.
use paperless_iq.Prelude.{
  ℕ, zero, suc, ◌+◌, ◌*◌, String, Bool, true, false, ◌&&◌, ◌||◌, not, Option, none, some, List, [],
  ◌∷◌, ◌++◌, ltb, eqb, keep, any, nat_eq, string_eq, ◌==◌, contains,
}
use paperless_iq.Approval.Rows.{Dismissal}
use paperless_iq.Grooming.Classify.{Action, add, remove, replace, review}

abbrev pub action_name : Action → String
action_name add = "add"
action_name remove = "remove"
action_name replace = "replace"
action_name review = "review"

-- `grooming_resuggest_after_days`; 0 is never.
abbrev pub seconds_per_day : ℕ
seconds_per_day = 86400

-- `cutoff is not None and dismissed_at < cutoff`
unfoldable pub is_expired : ℕ → ℕ → Dismissal → Bool
is_expired zero now d = false
is_expired (suc days) now d = ltb (d.dismissed_at + suc days * seconds_per_day) now

unfoldable pub in_force : List String → ℕ → ℕ → Dismissal → Bool
unfolding is_expired
in_force entity_types resuggest_days now d =
    contains entity_types d.entity_type
    && (not (d.action == "dedup") && not (is_expired resuggest_days now d))

-- The dismissals whose keys are in the answer.
unfoldable pub load_dismissed_keys : List String → ℕ → ℕ → List Dismissal → List Dismissal
unfolding in_force
load_dismissed_keys entity_types resuggest_days now rows =
    keep (in_force entity_types resuggest_days now) rows

-- The key (entity_type, entity_id, document_id, action).
unfoldable pub has_key : String → ℕ → ℕ → String → Dismissal → Bool
has_key entity_type entity_id document_id action d =
    (d.entity_type == entity_type)
    && ((d.entity_id == entity_id) && ((d.document_id == document_id) && (d.action == action)))

abbrev pub key_actions : Action → List String
key_actions add = "add" ∷ []
key_actions remove = "remove" ∷ []
key_actions replace = "replace" ∷ "review" ∷ []
key_actions review = "replace" ∷ "review" ∷ []

-- `(..., a) in dismissed`
unfoldable pub key_in : List Dismissal → String → ℕ → ℕ → String → Bool
unfolding has_key
key_in dismissed entity_type entity_id document_id a =
    any (has_key entity_type entity_id document_id a) dismissed

unfoldable pub is_dismissed : List Dismissal → String → ℕ → ℕ → Action → Bool
unfolding key_in
is_dismissed dismissed entity_type entity_id document_id action =
    any (key_in dismissed entity_type entity_id document_id) (key_actions action)

-- The two rows of a dismissed pair.
unfoldable pub dismiss_dedup_pair : String → ℕ → ℕ → ℕ → List Dismissal → List Dismissal
dismiss_dedup_pair entity_type entity_id other_entity_id now rows =
    rows
    ++ (record {
      entity_type = entity_type;
      entity_id = entity_id;
      document_id = 0;
      action = "dedup";
      other_entity_id = some other_entity_id;
      dismissed_at = now;
    }
        ∷ record {
          entity_type = entity_type;
          entity_id = other_entity_id;
          document_id = 0;
          action = "dedup";
          other_entity_id = some entity_id;
          dismissed_at = now;
        }
        ∷ [])

-- `frozenset([a, b]) == frozenset([x, y])`
unfoldable pub same_pair : ℕ → ℕ → ℕ → ℕ → Bool
same_pair a b x y = (eqb a x && eqb b y) || (eqb a y && eqb b x)

abbrev pub pair_is : ℕ → ℕ → ℕ → Option ℕ → Bool
pair_is a b x none = false
pair_is a b x (some y) = same_pair a b x y

-- `pair_key in dismissed_pairs`
unfoldable pub is_dismissed_pair : String → ℕ → ℕ → List Dismissal → Bool
unfolding same_pair
is_dismissed_pair entity_type a b rows =
    any
      (λ d.
        (d.entity_type == entity_type)
        && ((d.action == "dedup") && pair_is a b d.entity_id d.other_entity_id))
      rows

abbrev pub later : Option ℕ → ℕ → Bool
later none last = false
later (some t) last = ltb last t

-- The columns of an entity that decide whether a scheduled scan looks at it again.
unfoldable pub entity_needs_rescan : Option ℕ → Option ℕ → Option ℕ → Bool
entity_needs_rescan none description_updated_at latest_doc_embed = true
entity_needs_rescan (some last) description_updated_at latest_doc_embed =
    later description_updated_at last || later latest_doc_embed last
