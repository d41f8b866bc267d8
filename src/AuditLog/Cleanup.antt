-- ===== src/AuditLog/Cleanup.antt =====
-- Cleanup and queries of the audit log (backend/audit_log.py).
use paperless_iq.Prelude.{
  ℕ, ◌+◌, ◌-◌, ◌*◌, ◌≤◌, String, ◌≡◌, refl, ap, inl, inr, Bool, true, false, ◌&&◌, not, Option,
  none, some, List, [], ◌∷◌, arith, ltb, leb, leb→le, Bool-cases, length, take, drop, keep, All,
  nat_eq, string_eq, ◌==◌,
}
use paperless_iq.VectorStore.Results.{best_first}
use paperless_iq.AuditLog.Service.{
  AuditLogEntry, Filters, given, build_conditions, matching, query, export_rows, cutoff, cleanup,
}

module _ {A : Type 0} (p q : A → Bool) where
  keep-keep : (xs : List A) → ((x : A) → p x ≡ true → q x ≡ true) → keep p (keep q xs) ≡ keep p xs
  keep-keep [] h = refl
  keep-keep (x ∷ xs) h = elim (Bool-cases (p x)) [
    | inl e ↦ rw (h x e) (rw e (ap (◌∷◌ x) (keep-keep xs h)))
    | inr e ↦ elim (Bool-cases (q x)) [
      | inl f ↦ rw f (rw e (keep-keep xs h))
      | inr f ↦ rw f (rw e (keep-keep xs h))
    ]
  ]

module _ {A : Type 0} (p : A → Bool) where
  length-split : (xs : List A) → length (keep p xs) + length (keep (λ x. not (p x)) xs) ≡ length xs
  length-split [] = refl
  length-split (x ∷ xs) = ground (arith, length-split xs)

-- What is promised of a cleanup.
pub record Cleaned (ilike : String → String → Bool) (now retention_days : ℕ)
    (rows : List AuditLogEntry) (deleted : ℕ) (after : List AuditLogEntry) : Type 0 where
  pub counted : deleted + length after ≡ length rows
  pub none_old : All (λ r. cutoff now retention_days ≤ r.changed_at) after
  pub same_pages :
      (filters : Filters) (from page page_size : ℕ)
      → filters.date_from ≡ some from
      → cutoff now retention_days ≤ from
      → query ilike filters page page_size after ≡ query ilike filters page page_size rows
  pub same_export :
      (filters : Filters) (from max_rows : ℕ)
      → filters.date_from ≡ some from
      → cutoff now retention_days ≤ from
      → export_rows ilike filters max_rows after ≡ export_rows ilike filters max_rows rows

and_left : (a b : Bool) → (a && b) ≡ true → a ≡ true
and_left true b h = refl
and_left false b h = absurd (cc h)

and_right : (a b : Bool) → (a && b) ≡ true → b ≡ true
and_right true b h = h
and_right false b h = absurd (cc h)

from_holds : (o : Option ℕ) (from t : ℕ) → o ≡ some from → given o (λ f. leb f t) ≡ true → from ≤ t
from_holds none from t e h = absurd (cc e)
from_holds (some f) from t e h = let same : f ≡ from = cc e in omega (arith, same, leb→le f t h)

module _ (ilike : String → String → Bool) (now retention_days : ℕ) (rows : List AuditLogEntry) where
  abbrev is_old : AuditLogEntry → Bool
  is_old r = ltb r.changed_at (cutoff now retention_days)

  recent :
      (filters : Filters) (from : ℕ)
      → filters.date_from ≡ some from
      → cutoff now retention_days ≤ from
      → (r : AuditLogEntry) → build_conditions ilike filters r ≡ true
      → not (is_old r) ≡ true
  unfolding build_conditions
  recent filters from e l r h =
      let dated = from_holds filters.date_from from r.changed_at e (
        and_left (given filters.date_from (λ t. leb t r.changed_at)) _
          (and_right (given filters.document_id (λ d. r.document_id == d)) _ h)) in
      ground (arith, l, dated)

  kept :
      (filters : Filters) (from : ℕ)
      → filters.date_from ≡ some from
      → cutoff now retention_days ≤ from
      → keep (build_conditions ilike filters) (keep (λ r. not (is_old r)) rows)
        ≡ keep (build_conditions ilike filters) rows
  kept filters from e l =
      keep-keep (build_conditions ilike filters) (λ r. not (is_old r)) rows
        (recent filters from e l)

  none_old_lem :
      (xs : List AuditLogEntry)
      → All (λ r. cutoff now retention_days ≤ r.changed_at) (keep (λ r. not (is_old r)) xs)
  none_old_lem [] = tt
  none_old_lem (r ∷ xs) = elim (Bool-cases (is_old r)) [
    | inl e ↦ rw e (none_old_lem xs)
    | inr e ↦ rw e (ground arith, none_old_lem xs)
  ]

  -- A cleanup deletes the rows from before the retention period, all of them, and counts them; a query
  -- or an export from a date within the period answers the same after it as before.
  pub cleanup_lem :
      Cleaned ilike now retention_days rows
        (cleanup now retention_days rows).0
        (cleanup now retention_days rows).1
  unfolding cleanup query export_rows matching
  cleanup_lem = record {
    counted = length-split is_old rows;
    none_old = none_old_lem rows;
    same_pages = λ filters from page page_size e l.
        ap
          (λ found. (
            take page_size (drop ((page - 1) * page_size) (best_first (λ r. r.changed_at) found)),
            length found,
          ))
          (kept filters from e l);
    same_export = λ filters from max_rows e l.
        ap (λ found. take max_rows (best_first (λ r. r.changed_at) found)) (kept filters from e l);
  }
