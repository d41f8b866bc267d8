-- ===== src/Approval/Events.antt =====
-- The decision events of the audit log, counted for each suggestion.
use paperless_iq.Prelude.{
  ℕ, ◌+◌, String, ◌≡◌, refl, ap, ◌∙◌, inl, inr, Bool, true, false, ◌&&◌, not, Option, none, some,
  List, [], ◌∷◌, ◌++◌, map, arith, if◌then◌else◌, Bool-cases, length, keep, length-append,
  keep-append, nat_eq, string_eq, ◌==◌,
}
use paperless_iq.Approval.Py.{Py}
use paperless_iq.Approval.Rows.{
  SuggestionRow, AuditValue, AuditRow, ActionType, field_change, approved_event, rejected_event,
  get_row,
}
use paperless_iq.Approval.Service.{
  ApproveArgs, is_sibling, superseded_event, superseded_events, field_audits, content_audits,
  content_applied, approval_event, approval_audits, change_row,
}
use paperless_iq.Approval.Unique.{Unique}

-- `true` counts approvals, `false` rejections.
abbrev pub is_decision : Bool → ActionType → Bool
is_decision d field_change = false
is_decision d approved_event = d
is_decision d rejected_event = not d

abbrev pub decides : Bool → ℕ → AuditRow → Bool
decides d j e = is_decision d e.action_type && (e.suggestion_id == j)

-- How many approvals (or rejections) of suggestion `j` the log holds.
abbrev pub decisions : Bool → ℕ → List AuditRow → ℕ
decisions d j log = length (keep (decides d j) log)

pub decisions-append :
    (d : Bool) (j : ℕ) (xs ys : List AuditRow)
    → decisions d j (xs ++ ys) ≡ decisions d j xs + decisions d j ys
decisions-append d j xs ys =
    ap length (keep-append (decides d j) xs ys)
    ∙ length-append (keep (decides d j) xs) (keep (decides d j) ys)

-- None of the rows is a decision.
record Quiet (xs : List AuditRow) : Type 0 where
  none_left : (d : Bool) (j : ℕ) → keep (decides d j) xs ≡ []

Quiet-append : {xs ys : List AuditRow} → Quiet xs → Quiet ys → Quiet (xs ++ ys)
Quiet-append {xs} {ys} a b = record {
  none_left = λ d j. rw (keep-append (decides d j) xs ys, a.none_left d j) (b.none_left d j);
}

Quiet-change_row :
    (row : SuggestionRow) (t : Option String) (args : ApproveArgs) (name : String) (b : Bool)
    (x y : Option AuditValue)
    → Quiet (change_row row t args name b x y)
unfolding change_row
Quiet-change_row row t args name true x y = record { none_left = λ d j. refl }
Quiet-change_row row t args name false x y = record { none_left = λ d j. refl }

module _ {F : Type 0} (py : Py F) where
  Quiet-field_audits :
      (original row : SuggestionRow) (t : Option String) (args : ApproveArgs)
      → Quiet (field_audits py original row t args)
  unfolding field_audits
  Quiet-field_audits original row t args = Quiet-append (Quiet-change_row row t args _ _ _ _) (
      Quiet-append (Quiet-change_row row t args _ _ _ _) (
        Quiet-append (Quiet-change_row row t args _ _ _ _) (
          Quiet-append (Quiet-change_row row t args _ _ _ _) (
            Quiet-append (Quiet-change_row row t args _ _ _ _)
              (Quiet-change_row row t args _ _ _ _)))))

  quiet-content_audits :
      (d : Bool) (j : ℕ) (row : SuggestionRow) (t : Option String) (args : ApproveArgs)
      → keep (decides d j) (content_audits py row t args) ≡ []
  unfolding content_audits
  quiet-content_audits d j row t args = elim (Bool-cases (content_applied args.apply_content row)) [
    | inl e ↦ rw e
    | inr e ↦ rw e
  ]

  -- The rows that an approval writes for itself hold one decision, its own.
  pub decisions-written :
      (d : Bool) (j : ℕ) (original row : SuggestionRow) (t : Option String) (args : ApproveArgs)
      → decisions d j (approval_audits py original row t args)
        ≡ (if d && (row.id == j) then 1 else 0)
  unfolding approval_event approval_audits
  decisions-written d j original row t args =
      rw
        (
          keep-append (decides d j) (field_audits py original row t args),
          (Quiet-field_audits original row t args).none_left d j,
          keep-append (decides d j) (content_audits py row t args),
          quiet-content_audits d j row t args,
        )
        (elim (Bool-cases (d && (row.id == j))) [ inl e ↦ rw e | inr e ↦ rw e ])

abbrev pub sibling_count : SuggestionRow → Option SuggestionRow → ℕ
sibling_count row none = 0
sibling_count row (some x) = if is_sibling row x then 1 else 0

module _ (row : SuggestionRow) (t : Option String) (args : ApproveArgs) where
  no_event :
      (j : ℕ) (rows : List SuggestionRow)
      → get_row rows j ≡ none
      → keep (decides false j) (map (superseded_event row t args) (keep (is_sibling row) rows)) ≡ []
  unfolding get_row superseded_event
  no_event j [] h = refl
  no_event j (r ∷ rows) h = ground (arith, no_event j rows)

  -- Superseding writes one rejection for each sibling, and no approval.
  pub decisions-superseded :
      (j : ℕ) (rows : List SuggestionRow)
      → Unique rows
      → decisions false j (superseded_events row t args rows) ≡ sibling_count row (get_row rows j)
  unfolding superseded_events get_row superseded_event
  decisions-superseded j [] u = refl
  decisions-superseded j (r ∷ rows) u =
      ground (arith, decisions-superseded j rows u.1, no_event j rows)

  pub approvals-superseded :
      (j : ℕ) (rows : List SuggestionRow) → decisions true j (superseded_events row t args rows) ≡ 0
  unfolding superseded_events superseded_event
  approvals-superseded j [] = refl
  approvals-superseded j (r ∷ rows) = ground (arith, approvals-superseded j rows)
