-- ===== src/Analyzer/OptionLabels.antt =====
-- The labels of a select field in _apply_creation_policy (backend/analyzer.py) and the search for its
-- options in _resolve_custom_fields (backend/approval_queue.py).
use paperless_iq.Prelude.{
  String, ◌≡◌, refl, sym, ap, ◌∙◌, ◌⊎◌, inl, inr, false, Option, none, some, List, [], ◌∷◌,
  if◌then◌else◌, Bool-cases, All, nat_eq, string_eq, ◌==◌, ==_refl, eq_of_==, Somewhere,
}
use paperless_iq.Prelude.Dict.{Dict, get, put, get-put}
use paperless_iq.Approval.Py.{Py, text}
use paperless_iq.Approval.CustomFields.{option_by_id, option_by_label}
use paperless_iq.Analyzer.Policy.{label_lookup}

-- `str` of a text is the text, and no label is only spaces.
pub record Labels {F : Type 0} (py : Py F) (options : List (Option String × Option String))
    : Type 0 where
  pub rendered : (s : String) → py.render (text s) ≡ s
  pub with_id :
      All (λ o. (label : String) → o.1 ≡ some label → (oid : String) × (o.0 ≡ some oid)) options
  pub visible :
      All
        (λ o.
          (label : String)
          → o.1 ≡ some label
          → (label == "") ≡ false
          → (py.strip label == "") ≡ false)
        options

module _ {F : Type 0} (py : Py F) where
  -- The id belongs to an option with this label, up to case and outer spaces, or is itself the text
  -- of the label.
  abbrev pub OptionFor : List (Option String × Option String) → String → String → Type 0
  OptionFor options label oid =
      Somewhere
        (λ o.
          (o.0 ≡ some oid)
          × ((oid ≡ py.strip label)
              ⊎ ((l : String) × (o.1 ≡ some l)
                  × (py.lower (py.strip l) ≡ py.lower (py.strip label)))))
        options

  -- Every label that the lookup holds is one of an option.
  pub label_found :
      (options : List (Option String × Option String)) (d : Dict String String) (k label : String)
      → get (label_lookup py options d) k ≡ some label
      → Somewhere
          (λ o. (o.1 ≡ some label) × ((label == "") ≡ false) × (py.lower (py.strip label) ≡ k))
          options
        ⊎ (get d k ≡ some label)
  unfolding label_lookup
  label_found [] d k label h = inr h
  label_found ((oid, none) ∷ options) d k label h = later (label_found options d k label h)
    where
      later :
          Somewhere
              (λ o. (o.1 ≡ some label) × ((label == "") ≡ false) × (py.lower (py.strip label) ≡ k))
              options
            ⊎ (get d k ≡ some label)
          → Somewhere
              (λ o. (o.1 ≡ some label) × ((label == "") ≡ false) × (py.lower (py.strip label) ≡ k))
              ((oid, none) ∷ options)
            ⊎ (get d k ≡ some label)
      later (inl q) = inl (inr q)
      later (inr q) = inr q
  label_found ((oid, some l) ∷ options) d k label h = elim (Bool-cases (l == "")) [
    | inl e ↦ later (label_found options d k label (rw e at h))
    | inr e ↦ elim (label_found options (put d (py.lower (py.strip l)) l) k label (rw e at h)) [
      | inl q ↦ inl (inr q)
      | inr q ↦ here e (sym (get-put d (py.lower (py.strip l)) k l) ∙ q)
    ]
  ]
    where
      later :
          Somewhere
              (λ o. (o.1 ≡ some label) × ((label == "") ≡ false) × (py.lower (py.strip label) ≡ k))
              options
            ⊎ (get d k ≡ some label)
          → Somewhere
              (λ o. (o.1 ≡ some label) × ((label == "") ≡ false) × (py.lower (py.strip label) ≡ k))
              ((oid, some l) ∷ options)
            ⊎ (get d k ≡ some label)
      later (inl q) = inl (inr q)
      later (inr q) = inr q

      here :
          (l == "") ≡ false
          → (if py.lower (py.strip l) == k then some l else get d k) ≡ some label
          → Somewhere
              (λ o. (o.1 ≡ some label) × ((label == "") ≡ false) × (py.lower (py.strip label) ≡ k))
              ((oid, some l) ∷ options)
            ⊎ (get d k ≡ some label)
      here e q = elim (Bool-cases (py.lower (py.strip l) == k)) [
        | inl m ↦
            let same : l ≡ label = cc (rw m at q) in
            inl (
              inl (
                ap some same,
                ap (λ x. x == "") (sym same) ∙ e,
                ap (λ x. py.lower (py.strip x)) (sym same) ∙ eq_of_== (py.lower (py.strip l)) k m,
              ))
        | inr m ↦ inr (rw m at q)
      ]

  pub by_id :
      (options : List (Option String × Option String)) (label oid : String)
      → option_by_id py options (py.strip label) ≡ some oid
      → OptionFor options label oid
  unfolding option_by_id
  by_id [] label oid h = absurd (cc h)
  by_id ((none, l) ∷ options) label oid h = inr (by_id options label oid h)
  by_id ((some o, l) ∷ options) label oid h = elim (Bool-cases (o == py.strip label)) [
    | inl e ↦
        let same : o ≡ oid = cc (rw e at h) in
        inl (ap some same, inl (sym same ∙ eq_of_== o (py.strip label) e))
    | inr e ↦ inr (by_id options label oid (rw e at h))
  ]

  -- An option with the label has an id, so the search by label ends at some id.
  pub by_label :
      (options : List (Option String × Option String)) (label : String)
      → All (λ o. (l : String) → o.1 ≡ some l → (oid : String) × (o.0 ≡ some oid)) options
      → Somewhere (λ o. o.1 ≡ some label) options
      → (oid : String) × (option_by_label py options (py.lower (py.strip label)) ≡ some oid)
        × OptionFor options label oid
  unfolding option_by_label
  by_label [] label w h = absurd h
  by_label ((none, none) ∷ options) label w h = elim h [
    | inl e ↦ absurd (cc e)
    | inr q ↦ let r = by_label options label w.1 q in (r.0, r.1, inr r.2)
  ]
  by_label ((none, some l) ∷ options) label w h = absurd (cc ((w.0 l refl).1))
  by_label ((some o, none) ∷ options) label w h = elim h [
    | inl e ↦ absurd (cc e)
    | inr q ↦ let r = by_label options label w.1 q in (r.0, r.1, inr r.2)
  ]
  by_label ((some o, some l) ∷ options) label w h =
      elim (Bool-cases (py.lower (py.strip l) == py.lower (py.strip label))) [
        | inl e ↦ rw e (
          o,
          refl,
          inl (refl, inr (l, refl, eq_of_== (py.lower (py.strip l)) (py.lower (py.strip label)) e)),
        )
        | inr e ↦ rw e (elim h [
          | inl q ↦ absurd (
              cc (
                sym e
                ∙ ap (λ x. py.lower (py.strip x) == py.lower (py.strip label))
                    (let s : l ≡ label = cc q in s)
                ∙ ==_refl (py.lower (py.strip label))))
          | inr q ↦ let r = by_label options label w.1 q in (r.0, r.1, inr r.2)
        ])
      ]

  pub is_visible :
      (options : List (Option String × Option String)) (label k : String)
      → All
          (λ o. (l : String) → o.1 ≡ some l → (l == "") ≡ false → (py.strip l == "") ≡ false)
          options
      → Somewhere
          (λ o. (o.1 ≡ some label) × ((label == "") ≡ false) × (py.lower (py.strip label) ≡ k))
          options
      → ((py.strip label == "") ≡ false) × Somewhere (λ o. o.1 ≡ some label) options
  is_visible [] label k v h = absurd h
  is_visible (o ∷ options) label k v (inl h) = (v.0 label h.0 h.1, inl h.0)
  is_visible (o ∷ options) label k v (inr h) =
      let r = is_visible options label k v.1 h in (r.0, inr r.1)
