-- ===== src/Grooming/TagCorrections.antt =====
-- The corrected tags against the proposals of a document.
pub mod Outcome
use paperless_iq.Prelude.{
  ℕ, zero, suc, ◌+◌, ◌-◌, ◌*◌, ◌/◌, ◌%◌, ◌≤◌, ◌<◌, min, max, String, ◌≡◌, refl, sym, ap, ◌∙◌, ◌≢◌,
  ◌↔◌, ◌⊎◌, inl, inr, Bool, true, false, ◌&&◌, ◌||◌, not, Option, none, some, List, [], ◌∷◌, ◌++◌,
  map, arith, ltb, leb, eqb, if◌then◌else◌, ltb→lt, lt→ltb, leb→le, le→leb, eqb_iff, tests,
  Bool-cases, Option-cases, is_some, or_else, length, take, drop, get_elem?, set, replicate, keep,
  any, All, length-append, length-keep-le, take-append-drop, length-take, length-drop, keep-append,
  All-append, All-keep, Eq, nat_eq, string_eq, ◌==◌, ==_refl, eq_of_==, contains, length-map,
  occurrences, one_if,
}
use mathlib.Core.Path.{subst}
use paperless_iq.Grooming.Classify.{Action, add, remove, replace, review}
use paperless_iq.Grooming.Corrections.{
  Kind, tag, correspondent, document_type, Proposal, Current, Corrected, remove_first, accept,
  tag_step, set_field, field_step, correct_one, correct, is_current,
}

abbrev is_tag : Kind → Bool
is_tag tag = true
is_tag correspondent = false
is_tag document_type = false

-- A proposal that adds or removes the tag.
abbrev pub proposes : String → Proposal → Bool
proposes n p = is_tag p.kind && (p.entity_name == n)

-- Tags are distinct.
abbrev pub Names : List String → Type 0
Names [] = Unit
Names (t ∷ ts) = (contains ts t ≡ false) × Names ts

contains-append :
    (ts us : List String) (n : String) → contains (ts ++ us) n ≡ (contains ts n || contains us n)
contains-append [] us n = refl
contains-append (t ∷ ts) us n = ground (arith, contains-append ts us n)

contains-remove_first :
    (m : String) (ts : List String) (n : String)
    → (m == n) ≡ false
    → contains (remove_first m ts) n ≡ contains ts n
unfolding remove_first
contains-remove_first m [] n h = refl
contains-remove_first m (t ∷ ts) n h =
    ground (arith, contains-remove_first m ts n, eq_of_== t m, eq_of_== t n, ==_refl n)

removed_gone : (n : String) (ts : List String) → Names ts → contains (remove_first n ts) n ≡ false
unfolding remove_first
removed_gone n [] u = refl
removed_gone n (t ∷ ts) u = elim (Bool-cases (t == n)) [
  | inl e ↦ rw e (rw (← eq_of_== t n e) u.0)
  | inr e ↦ ground (arith, removed_gone n ts u.1)
]

subset_out :
    (m : String) (ts : List String) (n : String)
    → contains ts n ≡ false
    → contains (remove_first m ts) n ≡ false
unfolding remove_first
subset_out m [] n h = refl
subset_out m (t ∷ ts) n h = ground (arith, subset_out m ts n)

Names-remove_first : (m : String) (ts : List String) → Names ts → Names (remove_first m ts)
unfolding remove_first
Names-remove_first m [] u = tt
Names-remove_first m (t ∷ ts) u = elim (Bool-cases (t == m)) [
  | inl e ↦ rw e u.1
  | inr e ↦ rw e (subset_out m ts t u.0, Names-remove_first m ts u.1)
]

Names-append :
    (ts : List String) (n : String) → Names ts → contains ts n ≡ false → Names (ts ++ n ∷ [])
Names-append [] n u h = (refl, tt)
Names-append (t ∷ ts) n u h = (
  (contains-append ts (n ∷ []) t ∙ ground (arith, u.0, eq_of_== n t, ==_refl t)),
  Names-append ts n u.1 (ground arith),
)

-- What a proposal that is not about the tag leaves alone.
record Same (n : String) (c d : Corrected) : Type 0 where
  tags : contains d.corrected_tags n ≡ contains c.corrected_tags n
  valid : keep (proposes n) d.valid_actions ≡ keep (proposes n) c.valid_actions

tag_step-Names :
    (p : Proposal) (a : Action) (c : Corrected)
    → Names c.corrected_tags
    → Names (tag_step p a c).corrected_tags
unfolding tag_step
tag_step-Names p add c u = elim (Bool-cases (contains c.corrected_tags p.entity_name)) [
  | inl e ↦ rw e u
  | inr e ↦ rw e (Names-append c.corrected_tags p.entity_name u e)
]
tag_step-Names p remove c u = elim (Bool-cases (contains c.corrected_tags p.entity_name)) [
  | inl e ↦ rw e (Names-remove_first p.entity_name c.corrected_tags u)
  | inr e ↦ rw e u
]
tag_step-Names p replace c u = u
tag_step-Names p review c u = u

set_field_lem :
    (kind : Kind) (o : Option String) (c : Corrected)
    → ((set_field kind o c).corrected_tags ≡ c.corrected_tags)
      × ((set_field kind o c).valid_actions ≡ c.valid_actions)
set_field_lem kind none c = (refl, refl)
set_field_lem correspondent (some name) c = (refl, refl)
set_field_lem document_type (some name) c = (refl, refl)
set_field_lem tag (some name) c = (refl, refl)

-- A step that leaves the tags and records the proposal or nothing.
record Aside (p : Proposal) (c d : Corrected) : Type 0 where
  tags : d.corrected_tags ≡ c.corrected_tags
  valid : (d.valid_actions ≡ c.valid_actions) ⊎ (d.valid_actions ≡ c.valid_actions ++ p ∷ [])

accept_field :
    (p : Proposal) (kind : Kind) (o : Option String) (c : Corrected)
    → Aside p c (accept p (set_field kind o c))
accept_field p kind o c = record {
  tags = (set_field_lem kind o c).0;
  valid = inr (ap (λ l. l ++ p ∷ []) (set_field_lem kind o c).1);
}

untouched : (p : Proposal) (c : Corrected) → Aside p c c
untouched p c = record { tags = refl; valid = inl refl }

choose-Aside :
    (p : Proposal) (c d e : Corrected) (b : Bool)
    → Aside p c d
    → Aside p c e
    → Aside p c (if b then d else e)
choose-Aside p c d e true x y = x
choose-Aside p c d e false x y = y

field_step-Aside :
    (kind : Kind) (o : Option ℕ) (p : Proposal) (a : Action) (c : Corrected)
    → Aside p c (field_step kind o p a c)
unfolding field_step
field_step-Aside kind o p add c =
    choose-Aside p c _ _ (is_some o) (untouched p c) (accept_field p kind (some p.entity_name) c)
field_step-Aside kind o p replace c =
    choose-Aside p c _ _ (is_current o p.entity_id)
      (accept_field p kind p.replacement_entity_name c) (untouched p c)
field_step-Aside kind o p remove c =
    choose-Aside p c _ _ (is_current o p.entity_id) (accept_field p kind none c) (untouched p c)
field_step-Aside kind o p review c =
    choose-Aside p c _ _ (is_current o p.entity_id) (accept_field p kind none c) (untouched p c)

keep_dropped :
    (n : String) (p : Proposal) (vs : List Proposal)
    → proposes n p ≡ false
    → keep (proposes n) (vs ++ p ∷ []) ≡ keep (proposes n) vs
keep_dropped n p [] h = rw h refl
keep_dropped n p (v ∷ vs) h = ground (arith, keep_dropped n p vs h)

keep_kept :
    (n : String) (p : Proposal) (vs : List Proposal)
    → proposes n p ≡ true
    → keep (proposes n) (vs ++ p ∷ []) ≡ keep (proposes n) vs ++ p ∷ []
keep_kept n p [] h = rw h refl
keep_kept n p (v ∷ vs) h = ground (arith, keep_kept n p vs h)

Aside-Same :
    (n : String) (p : Proposal) (c d : Corrected) → proposes n p ≡ false → Aside p c d → Same n c d
Aside-Same n p c d h a = record {
  tags = ap (λ l. contains l n) a.tags;
  valid = elim a.valid [
    | inl e ↦ ap (keep (proposes n)) e
    | inr e ↦ ap (keep (proposes n)) e ∙ keep_dropped n p c.valid_actions h
  ];
}

-- A tag proposal for another name.
tag_step-Same :
    (n : String) (p : Proposal) (a : Action) (c : Corrected)
    → proposes n p ≡ false
    → (p.entity_name == n) ≡ false
    → Same n c (tag_step p a c)
unfolding tag_step
tag_step-Same n p add c h e = elim (Bool-cases (contains c.corrected_tags p.entity_name)) [
  | inl o ↦ rw o (record { tags = refl; valid = refl })
  | inr o ↦ rw o (record {
    tags = contains-append c.corrected_tags (p.entity_name ∷ []) n ∙ ground (arith, e);
    valid = keep_dropped n p c.valid_actions h;
  })
]
tag_step-Same n p remove c h e = elim (Bool-cases (contains c.corrected_tags p.entity_name)) [
  | inl o ↦ rw o (record {
    tags = contains-remove_first p.entity_name c.corrected_tags n e;
    valid = keep_dropped n p c.valid_actions h;
  })
  | inr o ↦ rw o (record { tags = refl; valid = refl })
]
tag_step-Same n p replace c h e = record { tags = refl; valid = keep_dropped n p c.valid_actions h }
tag_step-Same n p review c h e = record { tags = refl; valid = keep_dropped n p c.valid_actions h }

step-Same :
    (now : Current) (n : String) (p : Proposal) (k : Kind) (c : Corrected)
    → p.kind ≡ k
    → proposes n p ≡ false
    → Same n c (correct_one now p k c)
unfolding correct_one
step-Same now n p tag c e h =
    tag_step-Same n p p.action c h (ap (λ k. is_tag k && (p.entity_name == n)) (sym e) ∙ h)
step-Same now n p correspondent c e h =
    Aside-Same n p c _ h (field_step-Aside correspondent now.correspondent_id p p.action c)
step-Same now n p document_type c e h =
    Aside-Same n p c _ h (field_step-Aside document_type now.document_type_id p p.action c)

step-Names :
    (now : Current) (p : Proposal) (k : Kind) (c : Corrected)
    → Names c.corrected_tags
    → Names (correct_one now p k c).corrected_tags
unfolding correct_one
step-Names now p tag c u = tag_step-Names p p.action c u
step-Names now p correspondent c u =
    subst Names (sym (field_step-Aside correspondent now.correspondent_id p p.action c).tags) u
step-Names now p document_type c u =
    subst Names (sym (field_step-Aside document_type now.document_type_id p p.action c).tags) u

run-Same :
    (now : Current) (n : String) (ps : List Proposal) (c : Corrected)
    → keep (proposes n) ps ≡ []
    → Same n c (correct now ps c)
unfolding correct
run-Same now n [] c h = record { tags = refl; valid = refl }
run-Same now n (p ∷ ps) c h = elim (Bool-cases (proposes n p)) [
  | inl e ↦ absurd (cc (rw e at h))
  | inr e ↦
      let s = step-Same now n p p.kind c refl e in
      let r = run-Same now n ps (correct_one now p p.kind c) (rw e at h) in
      record { tags = r.tags ∙ s.tags; valid = r.valid ∙ s.valid }
]
