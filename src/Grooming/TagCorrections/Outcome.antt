-- ===== src/Grooming/TagCorrections/Outcome.antt =====
-- What becomes of the one proposal about a tag.
use paperless_iq.Prelude.{
  String, ◌≡◌, refl, sym, ap, ◌∙◌, inl, inr, Bool, true, false, ◌&&◌, not, List, [], ◌∷◌, ◌++◌,
  if◌then◌else◌, Bool-cases, keep, nat_eq, string_eq, ◌==◌, ==_refl, eq_of_==, contains,
}
use mathlib.Core.Path.{subst}
use paperless_iq.Grooming.Classify.{Action, add, remove, replace, review}
use paperless_iq.Grooming.Corrections.{
  Kind, tag, correspondent, document_type, Proposal, Current, Corrected, tag_step, correct_one,
  correct,
}
use paperless_iq.Grooming.TagCorrections.{
  is_tag, proposes, Names, contains-append, removed_gone, keep_kept, step-Same, step-Names,
  run-Same,
}

-- Whether the document has the tag after the action, and whether the action changes that.
abbrev pub has_after : Action → Bool → Bool
has_after add b = true
has_after remove b = false
has_after replace b = b
has_after review b = b

abbrev pub is_recorded : Action → Bool → Bool
is_recorded add b = not b
is_recorded remove b = b
is_recorded replace b = true
is_recorded review b = true

record Settled (n : String) (p : Proposal) (a : Action) (c d : Corrected) : Type 0 where
  tags : contains d.corrected_tags n ≡ has_after a (contains c.corrected_tags n)
  valid :
      keep (proposes n) d.valid_actions
      ≡ keep (proposes n) c.valid_actions
        ++ (if is_recorded a (contains c.corrected_tags n) then p ∷ [] else [])

append_nil : (xs : List Proposal) → xs ≡ xs ++ []
append_nil [] = refl
append_nil (x ∷ xs) = ap (◌∷◌ x) (append_nil xs)

-- The step of the tag's own proposal.
own_step :
    (p : Proposal) (a : Action) (c : Corrected)
    → proposes p.entity_name p ≡ true
    → Names c.corrected_tags
    → Settled p.entity_name p a c (tag_step p a c)
unfolding tag_step
own_step p add c h u = elim (Bool-cases (contains c.corrected_tags p.entity_name)) [
  | inl o ↦ rw o (record {
    tags = o;
    valid = rw o (append_nil (keep (proposes p.entity_name) c.valid_actions));
  })
  | inr o ↦ rw o (record {
    tags =
        contains-append c.corrected_tags (p.entity_name ∷ []) p.entity_name
        ∙ rw (o, ==_refl p.entity_name) refl;
    valid = keep_kept p.entity_name p c.valid_actions h ∙ rw o refl;
  })
]
own_step p remove c h u = elim (Bool-cases (contains c.corrected_tags p.entity_name)) [
  | inl o ↦ rw o (record {
    tags = removed_gone p.entity_name c.corrected_tags u;
    valid = keep_kept p.entity_name p c.valid_actions h ∙ rw o refl;
  })
  | inr o ↦ rw o (record {
    tags = o;
    valid = rw o (append_nil (keep (proposes p.entity_name) c.valid_actions));
  })
]
own_step p replace c h u = record {
  tags = refl;
  valid = keep_kept p.entity_name p c.valid_actions h;
}
own_step p review c h u = record {
  tags = refl;
  valid = keep_kept p.entity_name p c.valid_actions h;
}

own_one :
    (now : Current) (n : String) (p : Proposal) (k : Kind) (c : Corrected)
    → p.kind ≡ k
    → proposes n p ≡ true
    → Names c.corrected_tags
    → Settled n p p.action c (correct_one now p k c)
unfolding correct_one
own_one now n p tag c e h u =
    let named = eq_of_== p.entity_name n (ap (λ k. is_tag k && (p.entity_name == n)) (sym e) ∙ h) in
    subst (λ m. Settled m p p.action c (tag_step p p.action c)) named
      (own_step p p.action c (ap (λ m. proposes m p) named ∙ h) u)
own_one now n p correspondent c e h u =
    absurd (cc (ap (λ k. is_tag k && (p.entity_name == n)) (sym e) ∙ h))
own_one now n p document_type c e h u =
    absurd (cc (ap (λ k. is_tag k && (p.entity_name == n)) (sym e) ∙ h))

tail : List Proposal → List Proposal
tail [] = []
tail (x ∷ xs) = xs

head : Proposal → List Proposal → Proposal
head p [] = p
head p (x ∷ xs) = x

run_settles :
    (now : Current) (n : String) (p : Proposal) (qs : List Proposal) (d : Corrected)
    → Names d.corrected_tags
    → keep (proposes n) qs ≡ p ∷ []
    → Settled n p p.action d (correct now qs d)
unfolding correct tail head
run_settles now n p [] d w e = cc
run_settles now n p (q ∷ qs) d w e = elim (Bool-cases (proposes n q)) [
  | inl o ↦
      let f = rw o at e in
      let s = own_one now n q q.kind d refl o w in
      let r = run-Same now n qs (correct_one now q q.kind d) (ap tail f) in
      subst (λ x. Settled n x x.action d (correct now qs (correct_one now q q.kind d)))
        (ap (head q) f) (record { tags = r.tags ∙ s.tags; valid = r.valid ∙ s.valid })
  | inr o ↦
      let s = step-Same now n q q.kind d refl o in
      let r =
        run_settles now n p qs (correct_one now q q.kind d) (step-Names now q q.kind d w)
          (rw o at e) in
      record {
        tags = r.tags ∙ ap (has_after p.action) s.tags;
        valid =
            r.valid
            ∙ (ap
                  (λ l.
                    l
                    ++ (if is_recorded p.action
                          (contains (correct_one now q q.kind d).corrected_tags n)
                        then p ∷ []
                        else []))
                  s.valid
                ∙ ap
                    (λ b.
                      keep (proposes n) d.valid_actions
                      ++ (if is_recorded p.action b then p ∷ [] else []))
                    s.tags);
      }
]

-- The proposals of a document among which one is about the tag, whatever else they are about: the
-- corrected tags hold the tag if it is added and lack it if it is removed, and the action is
-- recorded as valid exactly when the document did not have, or did have, the tag; so a stale action
-- is dropped.
pub correct_tag_exact :
    (now : Current) (n : String) (p : Proposal) (ps : List Proposal) (c : Corrected)
    → Names c.corrected_tags
    → c.valid_actions ≡ []
    → keep (proposes n) ps ≡ p ∷ []
    → (contains (correct now ps c).corrected_tags n
        ≡ has_after p.action (contains c.corrected_tags n))
      × (keep (proposes n) (correct now ps c).valid_actions
          ≡ (if is_recorded p.action (contains c.corrected_tags n) then p ∷ [] else []))
correct_tag_exact now n p ps c u v h =
    let s = run_settles now n p ps c u h in
    (
      s.tags,
      s.valid
          ∙ ap
              (λ l.
                keep (proposes n) l
                ++ (if is_recorded p.action (contains c.corrected_tags n) then p ∷ [] else []))
              v,
    )
