-- ===== src/Grooming/Memory.antt =====
-- What a rejection of a grooming suggestion does to later scans.
use paperless_iq.Prelude.{
  ℕ, zero, suc, ◌+◌, ◌*◌, ◌≤◌, String, ◌≡◌, refl, ap, ◌∙◌, ◌⊎◌, inl, inr, Bool, true, false, ◌&&◌,
  ◌||◌, Option, none, some, List, [], ◌∷◌, ◌++◌, arith, eqb, eqb_iff, Bool-cases, keep, any,
  keep-append, nat_eq, string_eq, ◌==◌, ==_refl, eq_of_==, contains,
}
use paperless_iq.Approval.Rows.{
  pending, grooming, EvidenceAction, actions, SuggestionRow, Dismissal, Db, get_row,
}
use paperless_iq.Approval.Service.{RejectArgs}
use paperless_iq.Approval.Operations.{
  action_dismissals, evidence_dismissals, reject, reject_loaded, reject_pending,
}
use paperless_iq.Grooming.Classify.{Action, add, remove, replace, review}
use paperless_iq.Grooming.Dismissals.{
  action_name, is_expired, in_force, load_dismissed_keys, has_key, key_actions, key_in,
  is_dismissed, dismiss_dedup_pair, is_dismissed_pair, same_pair,
}

abbrev names_entity : ℕ → Option ℕ → Bool
names_entity eid none = false
names_entity eid (some i) = eqb i eid

-- An action of the evidence that is about the entity.
abbrev pub acts_on : String → ℕ → String → EvidenceAction → Bool
acts_on entity_type eid action a =
    (a.entity_type == entity_type) && ((a.action == action) && names_entity eid a.entity_id)

key_in-append :
    (xs ys : List Dismissal) (t : String) (eid doc : ℕ) (a : String)
    → key_in (xs ++ ys) t eid doc a ≡ (key_in xs t eid doc a || key_in ys t eid doc a)
unfolding key_in
key_in-append [] ys t eid doc a = refl
key_in-append (x ∷ xs) ys t eid doc a = ground (arith, key_in-append xs ys t eid doc a)

-- A row that a rejection at time `at` writes is in force at `now`.
written_in_force :
    (types : List String) (days now : ℕ) (d : Dismissal)
    → contains types d.entity_type ≡ true
    → (d.action == "dedup") ≡ false
    → is_expired days now d ≡ false
    → in_force types days now d ≡ true
unfolding in_force
written_in_force types days now d t a e = rw (t, a, e)

module _ (types : List String) (days now doc : ℕ) (t : String) (eid : ℕ) (action : String) where
  abbrev Blocked : List Dismissal → Type 0
  Blocked ds = key_in (load_dismissed_keys types days now ds) t eid doc action ≡ true

  cons_key :
      (d : Dismissal) (ds : List Dismissal)
      → in_force types days now d ≡ true
      → has_key t eid doc action d ≡ true
      → Blocked (d ∷ ds)
  unfolding load_dismissed_keys key_in
  cons_key d ds f k = rw f (rw k refl)

  cons_rest : (d : Dismissal) (ds : List Dismissal) → Blocked ds → Blocked (d ∷ ds)
  unfolding load_dismissed_keys key_in
  cons_rest d ds h = ground (arith, h)

  before : (xs ds : List Dismissal) → Blocked ds → Blocked (xs ++ ds)
  before [] ds h = h
  before (x ∷ xs) ds h = cons_rest x (xs ++ ds) (before xs ds h)

  -- The row of an action, and the rows of the actions behind it.
  row_key :
      (at : ℕ) (e : EvidenceAction) (i : ℕ) (d : Dismissal) (ds : List Dismissal)
      → contains types t ≡ true
      → (action == "dedup") ≡ false
      → is_expired days now d ≡ false
      → d.entity_type ≡ e.entity_type
      → d.action ≡ e.action
      → d.entity_id ≡ i
      → d.document_id ≡ doc
      → ((e.entity_type == t) && ((e.action == action) && eqb i eid)) ≡ true
      → Blocked (d ∷ ds)
  unfolding has_key
  row_key at e i d ds c n x dt da di dd h =
      cons_key d ds
        (written_in_force types days now d (rw (dt, eq_of_== e.entity_type t (ground arith)) c)
          (rw (da, eq_of_== e.action action (ground arith)) n) x)
        (rw (dt, da, di, dd) (ground (arith, eqb_iff doc doc)))

  written_head :
      (at : ℕ) (e : EvidenceAction) (o : Option ℕ) (ds : List Dismissal) (rest : Bool)
      → contains types t ≡ true
      → (action == "dedup") ≡ false
      → ((d : Dismissal) → d.dismissed_at ≡ at → is_expired days now d ≡ false)
      → (((e.entity_type == t) && ((e.action == action) && names_entity eid o)) || rest) ≡ true
      → (rest ≡ true → Blocked ds)
      → Blocked (elim o [
        | none ↦ ds
        | some i ↦
            record {
              entity_type = e.entity_type;
              entity_id = i;
              document_id = doc;
              action = e.action;
              other_entity_id = e.replacement_entity_id;
              dismissed_at = at;
            }
            ∷ ds
      ])
  written_head at e none ds rest c n x h later = later (ground arith)
  written_head at e (some i) ds rest c n x h later =
      elim (Bool-cases ((e.entity_type == t) && ((e.action == action) && eqb i eid))) [
        | inl k ↦ row_key at e i _ ds c n (x _ refl) refl refl refl refl k
        | inr k ↦ cons_rest _ ds (later (ground arith))
      ]

  key_in-written :
      (at : ℕ) (as₁ : List EvidenceAction)
      → contains types t ≡ true
      → (action == "dedup") ≡ false
      → ((d : Dismissal) → d.dismissed_at ≡ at → is_expired days now d ≡ false)
      → any (acts_on t eid action) as₁ ≡ true
      → Blocked (action_dismissals at doc as₁)
  unfolding action_dismissals
  key_in-written at [] c n x h = cc
  key_in-written at (e ∷ as₁) c n x h =
      written_head at e e.entity_id (action_dismissals at doc as₁) (any (acts_on t eid action) as₁)
        c n x h (λ r. key_in-written at as₁ c n x r)

any_of_contained :
    (p : String → Bool) (a : String) (xs : List String)
    → contains xs a ≡ true
    → p a ≡ true
    → any p xs ≡ true
any_of_contained p a [] h k = cc
any_of_contained p a (x ∷ xs) h k = elim (Bool-cases (x == a)) [
  | inl e ↦ rw (eq_of_== x a e, k) refl
  | inr e ↦ ground (arith, any_of_contained p a xs)
]

in_family :
    (ds : List Dismissal) (t : String) (eid doc : ℕ) (act c : Action)
    → contains (key_actions c) (action_name act) ≡ true
    → key_in ds t eid doc (action_name act) ≡ true
    → is_dismissed ds t eid doc c ≡ true
unfolding is_dismissed
in_family ds t eid doc act c f k =
    any_of_contained (key_in ds t eid doc) (action_name act) (key_actions c) f k

not_dedup : (act : Action) → (action_name act == "dedup") ≡ false
not_dedup add = refl
not_dedup remove = refl
not_dedup replace = refl
not_dedup review = refl

unexpired :
    (days now at : ℕ) (d : Dismissal)
    → (days ≡ 0) ⊎ (now ≤ at + days * 86400)
    → d.dismissed_at ≡ at
    → is_expired days now d ≡ false
unfolding is_expired
unexpired zero now at d h e = refl
unexpired (suc days) now at d (inl h) e = absurd (omega arith)
unexpired (suc days) now at d (inr h) e = rw e (ground (arith, h))

-- A rejected action covers a candidate with the same action; a replace and a review cover each other.
abbrev pub Covers : Action → Action → Type 0
Covers act c = (c ≡ act) ⊎ ((act ≡ replace) × (c ≡ review)) ⊎ ((act ≡ review) × (c ≡ replace))

own_key : (act : Action) → contains (key_actions act) (action_name act) ≡ true
own_key add = refl
own_key remove = refl
own_key replace = refl
own_key review = refl

covered_key : (act c : Action) → Covers act c → contains (key_actions c) (action_name act) ≡ true
covered_key act c (inl e) = rw e (own_key act)
covered_key act c (inr (inl e)) = rw (e.0, e.1) refl
covered_key act c (inr (inr e)) = rw (e.0, e.1) refl

-- Rejecting a pending grooming suggestion with its dismissals recorded blocks every candidate of a
-- later scan for the same entity and document whose action is one of the rejected ones, a replace
-- and a review standing for each other, as long as dismissals do not expire or the scan runs within
-- the days after which they do.
pub reject_dismisses :
    (sid : ℕ) (args : RejectArgs) (db : Db) (row : SuggestionRow) (as₁ : List EvidenceAction)
    (types : List String) (t : String) (eid days now : ℕ) (act c : Action)
    → get_row db.suggestions sid ≡ some row
    → row.status ≡ pending
    → row.analysis_mode ≡ grooming
    → row.evidence_json ≡ actions as₁
    → args.record_dismissals ≡ true
    → any (acts_on t eid (action_name act)) as₁ ≡ true
    → contains types t ≡ true
    → (days ≡ 0) ⊎ (now ≤ args.now + days * 86400)
    → Covers act c
    → is_dismissed
        (load_dismissed_keys types days now (reject sid args db).1.dismissals)
        t
        eid
        row.document_id
        c
      ≡ true
unfolding reject reject_loaded reject_pending evidence_dismissals
reject_dismisses sid args db row as₁ types t eid days now act c g p m v r h k e f =
    in_family _ t eid row.document_id act c (covered_key act c f) (
      rw (g, reject, p, reject_loaded, m, v, r)
        (before types days now row.document_id t eid (action_name act) db.dismissals
          (action_dismissals args.now row.document_id as₁)
          (key_in-written types days now row.document_id t eid (action_name act) args.now as₁ k
            (not_dedup act) (λ d q. unexpired days now args.now d e q) h)))

same_pair_swaps : (a b : ℕ) → (same_pair a b a b ≡ true) × (same_pair b a a b ≡ true)
unfolding same_pair
same_pair_swaps a b = (ground arith, ground arith)

append_nil : (xs : List Dismissal) → xs ++ [] ≡ xs
append_nil [] = refl
append_nil (x ∷ xs) = ap (◌∷◌ x) (append_nil xs)

pair_blocked :
    (t : String) (a b now : ℕ) (rows : List Dismissal)
    → is_dismissed_pair t a b (dismiss_dedup_pair t a b now rows) ≡ true
unfolding is_dismissed_pair dismiss_dedup_pair
pair_blocked t a b now [] = ground (arith, ==_refl t, same_pair_swaps a b)
pair_blocked t a b now (x ∷ rows) = ground (arith, pair_blocked t a b now rows)

pair_blocked_back :
    (t : String) (a b now : ℕ) (rows : List Dismissal)
    → is_dismissed_pair t b a (dismiss_dedup_pair t a b now rows) ≡ true
unfolding is_dismissed_pair dismiss_dedup_pair
pair_blocked_back t a b now [] = ground (arith, ==_refl t, same_pair_swaps b a)
pair_blocked_back t a b now (x ∷ rows) = ground (arith, pair_blocked_back t a b now rows)

dedup_out :
    (types : List String) (days later : ℕ) (d : Dismissal)
    → d.action ≡ "dedup"
    → in_force types days later d ≡ false
unfolding in_force
dedup_out types days later d e = rw e (ground arith)

pair_silent :
    (types : List String) (days later : ℕ) (t : String) (a b now : ℕ) (rows : List Dismissal)
    → load_dismissed_keys types days later (dismiss_dedup_pair t a b now rows)
      ≡ load_dismissed_keys types days later rows
unfolding load_dismissed_keys dismiss_dedup_pair
pair_silent types days later t a b now rows =
    keep-append (in_force types days later) rows _
    ∙ (ap (λ l. keep (in_force types days later) rows ++ l) (rw (dedup_out types days later) refl)
        ∙ append_nil (keep (in_force types days later) rows))

-- A dismissed pair is passed over in either order, and the keys in force stay as they were: a pair
-- blocks no candidate of a scan.
pub dismiss_dedup_pair_lem :
    (t : String) (a b now later : ℕ) (types : List String) (days : ℕ) (rows : List Dismissal)
    → (is_dismissed_pair t a b (dismiss_dedup_pair t a b now rows) ≡ true)
      × (is_dismissed_pair t b a (dismiss_dedup_pair t a b now rows) ≡ true)
      × (load_dismissed_keys types days later (dismiss_dedup_pair t a b now rows)
          ≡ load_dismissed_keys types days later rows)
dismiss_dedup_pair_lem t a b now later types days rows = (
  pair_blocked t a b now rows,
  pair_blocked_back t a b now rows,
  pair_silent types days later t a b now rows,
)
