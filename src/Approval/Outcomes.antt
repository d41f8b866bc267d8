-- ===== src/Approval/Outcomes.antt =====
-- What one approval or rejection does, on each of its branches.
use paperless_iq.Prelude.{
  ℕ, ◌≡◌, refl, sym, ap, ◌∙◌, ◌≢◌, inl, inr, Bool, true, false, Option, none, some, arith,
  if◌then◌else◌, Bool-cases, Option-cases, nat_eq, string_eq, ◌==◌,
}
use paperless_iq.Approval.Exec.{Result, ok, err, Failure}
use paperless_iq.Approval.Py.{Py}
use paperless_iq.Approval.Rows.{
  Status, pending, approved, rejected, SuggestionRow, MetadataSuggestion, Db, get_row, is_pending,
}
use paperless_iq.Approval.Entities.{Server, Net}
use paperless_iq.Approval.Patch.{patch_paperless}
use paperless_iq.Approval.Service.{
  World, ApproveArgs, apply_edits, is_sibling, commit_approval, payload_of,
}
use paperless_iq.Approval.Operations.{approve, approve_loaded, after_patch}
use paperless_iq.Approval.Lookup.{map_row, id_of_get, superseded}
use paperless_iq.Approval.Lifecycle.{get-commit, document-apply_edits, marked_row}

superseded-settled :
    (row x : SuggestionRow)
    → x.id ≢ row.id
    → (superseded row x).document_id ≡ row.document_id
    → is_pending (superseded row x).status ≡ false
unfolding is_sibling
superseded-settled row x ne d = ground arith

approved-settled :
    (row y : SuggestionRow) → y.status ≡ approved → is_pending (superseded row y).status ≡ false
approved-settled row y e = ground arith

module _ {F : Type 0} (py : Py F) (original row : SuggestionRow) (args : ApproveArgs)
    (db : Db) where
  marked_settled :
      (j : ℕ) (o : Option SuggestionRow) (r : SuggestionRow)
      → ((x : SuggestionRow) → o ≡ some x → x.id ≡ j)
      → map_row
          (superseded row)
          (if row.id == j then map_row (λ x. record row { status = approved }) o else o)
        ≡ some r
      → r.document_id ≡ row.document_id
      → is_pending r.status ≡ false
  marked_settled j none r at h d = absurd (ground arith)
  marked_settled j (some x) r at h d = elim (Bool-cases (row.id == j)) [
    | inl e ↦ ground (arith, approved-settled row (record row { status = approved }))
    | inr e ↦ ground (arith, superseded-settled row x, at x refl)
  ]

  settled :
      (j : ℕ) (r : SuggestionRow)
      → args.supersede_siblings ≡ true
      → get_row (commit_approval py original row args db).suggestions j ≡ some r
      → r.document_id ≡ row.document_id
      → is_pending r.status ≡ false
  settled j r s h = marked_settled j (get_row db.suggestions j) r (id_of_get db.suggestions j) (
      ap
        (λ b.
          if b
          then map_row (superseded row) (marked_row py original row args db j)
          else marked_row py original row args db j)
        (sym s)
      ∙ sym (get-commit py original row args db j)
      ∙ h)

module _ {F S : Type 0} (py : Py F) (api : Server S) (configured : Bool) where
  approve_loaded_failed :
      (row : SuggestionRow) (status : Status) (args : ApproveArgs) (w : World S) (e : Failure)
      → (approve_loaded py api configured row status args w).0 ≡ err e
      → (approve_loaded py api configured row status args w).1.db ≡ w.db
  unfolding approve_loaded
  approve_loaded_failed row approved args w e h = refl
  approve_loaded_failed row rejected args w e h = refl
  approve_loaded_failed row pending args w e h = patched _ h
    where
      patched :
          (r : Result (Unit {0}) × Net S)
          → (after_patch py api configured row (apply_edits args.edits row) args w.db r).0 ≡ err e
          → (after_patch py api configured row (apply_edits args.edits row) args w.db r).1.db ≡ w.db
      patched (err f, net) h = refl
      patched (ok u, net) h = cc

  -- An approval that raises, be it for a missing id, a decided suggestion or a failed write to
  -- Paperless, leaves all three tables as they were.
  pub approve_failed :
      (sid : ℕ) (args : ApproveArgs) (w : World S) (e : Failure)
      → (approve py api configured sid args w).0 ≡ err e
      → (approve py api configured sid args w).1.db ≡ w.db
  unfolding approve
  approve_failed sid args w e h = elim (Option-cases (get_row w.db.suggestions sid)) [
    | inl n ↦ rw (n, approve)
    | inr (row, s) ↦
        rw (s, approve) (approve_loaded_failed row row.status args w e (rw (s, approve) at h))
  ]

  -- What a successful approval found and did.
  pub record Approval (sid : ℕ) (args : ApproveArgs) (w : World S) : Type 0 where
    pub original : SuggestionRow
    pub found : get_row w.db.suggestions sid ≡ some original
    pub was_pending : original.status ≡ pending
    pub written :
        (patch_paperless py api configured
          (apply_edits args.edits original).document_id
          (payload_of (apply_edits args.edits original) args)
          args.merge_tags
          args.create_missing
          args.now
          w.net).0
        ≡ ok tt
    pub committed :
        (approve py api configured sid args w).1.db
        ≡ commit_approval py original (apply_edits args.edits original) args w.db

  approve_loaded_ok :
      (row : SuggestionRow) (status : Status) (args : ApproveArgs) (w : World S)
      (s : MetadataSuggestion)
      → (approve_loaded py api configured row status args w).0 ≡ ok s
      → (status ≡ pending)
        × ((patch_paperless py api configured
              (apply_edits args.edits row).document_id
              (payload_of (apply_edits args.edits row) args)
              args.merge_tags
              args.create_missing
              args.now
              w.net).0
            ≡ ok tt)
        × ((approve_loaded py api configured row status args w).1.db
            ≡ commit_approval py row (apply_edits args.edits row) args w.db)
  unfolding approve_loaded
  approve_loaded_ok row approved args w s h = cc
  approve_loaded_ok row rejected args w s h = cc
  approve_loaded_ok row pending args w s h = patched _ h
    where
      edited : SuggestionRow
      edited = apply_edits args.edits row

      patched :
          (r : Result (Unit {0}) × Net S)
          → (after_patch py api configured row edited args w.db r).0 ≡ ok s
          → (pending ≡ pending)
            × (r.0 ≡ ok tt)
            × ((after_patch py api configured row edited args w.db r).1.db
                ≡ commit_approval py row edited args w.db)
      patched (err f, net) h = cc
      patched (ok tt, net) h = (refl, refl, refl)

  pub approve_ok :
      (sid : ℕ) (args : ApproveArgs) (w : World S) (s : MetadataSuggestion)
      → (approve py api configured sid args w).0 ≡ ok s
      → Approval sid args w
  unfolding approve
  approve_ok sid args w s h = elim (Option-cases (get_row w.db.suggestions sid)) [
    | inl n ↦ absurd (cc (rw (n, approve) at h))
    | inr (row, e) ↦
        let facts = approve_loaded_ok row row.status args w s (rw (e, approve) at h) in
        record {
          original = row;
          found = e;
          was_pending = facts.0;
          written = facts.1;
          committed = rw (e, approve) facts.2;
        }
  ]

  -- After an approval that supersedes its siblings, no suggestion of its document is pending.
  pub approve_settles :
      (sid : ℕ) (args : ApproveArgs) (w : World S) (s : MetadataSuggestion)
      (original : SuggestionRow) (j : ℕ) (r : SuggestionRow)
      → (approve py api configured sid args w).0 ≡ ok s
      → args.supersede_siblings ≡ true
      → get_row w.db.suggestions sid ≡ some original
      → get_row (approve py api configured sid args w).1.db.suggestions j ≡ some r
      → r.document_id ≡ original.document_id
      → is_pending r.status ≡ false
  approve_settles sid args w s original j r h sup at_sid at_j d =
      let a = approve_ok sid args w s h in
      settled py a.original (apply_edits args.edits a.original) args w.db j r sup
        (ap (λ (db : Db). get_row db.suggestions j) (sym a.committed) ∙ at_j)
        (d
          ∙ (same a.original (sym a.found ∙ at_sid)
              ∙ sym (document-apply_edits args.edits a.original)))
    where
      same : (x : SuggestionRow) → some x ≡ some original → original.document_id ≡ x.document_id
      same x e = cc
