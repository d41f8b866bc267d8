-- ===== src/Settings/Exported.antt =====
-- The exported configuration (backend/settings_service.py): export_config.
use paperless_iq.Prelude.{
  String, ◌≡◌, refl, sym, ap, ◌∙◌, ◌⊎◌, inl, inr, Bool, true, false, ◌&&◌, some, List, [], ◌∷◌,
  Bool-cases, All, nat_eq, string_eq, ◌==◌, eq_of_==, contains,
}
use mathlib.Core.Path.{subst}
use paperless_iq.Prelude.Dict.{Dict, get, put, get-put}
use paperless_iq.Settings.Store.{
  Pydantic, credential_fields, is_truthy, json_dump, redact_field, redact, export_config,
}

module _ {V : Type 0} (P : String × V → Type 0) where
  pub All-put : (d : Dict String V) (k : String) (v : V) → P (k, v) → All P d → All P (put d k v)
  unfolding put
  All-put [] k v p a = (p, tt)
  All-put ((j, w) ∷ d) k v p a = elim (Bool-cases (j == k)) [
    | inl e ↦ rw e (subst (λ i. P (i, v)) (sym (eq_of_== j k e)) p, a.1)
    | inr e ↦ rw e (a.0, All-put d k v p a.1)
  ]

module _ {V : Type 0} (py : Pydantic V) (config : Dict String V) where
  -- The entry is a field of the configuration as JSON.
  pub record FromConfig (e : String × V) : Type 0 where
    pub stored : V
    pub is_stored : get config e.0 ≡ some stored
    pub is_json : e.1 ≡ py.json_value stored

  -- The entry is a credential behind the placeholder.
  abbrev pub redacted_entry : String × V → Bool
  redacted_entry e = contains credential_fields e.0 && py.is_redacted e.1

  abbrev pub Exported : String × V → Type 0
  Exported e = FromConfig e ⊎ (redacted_entry e ≡ true)

  json_entries :
      (d : Dict String V) → All (λ e. get config e.0 ≡ some e.1) d → All Exported (json_dump py d)
  unfolding json_dump
  json_entries [] a = tt
  json_entries ((k, v) ∷ d) a =
      (inl (record { stored = v; is_stored = a.0; is_json = refl }), json_entries d a.1)

  redact_entries :
      py.is_redacted py.redacted_placeholder ≡ true
      → (fields : List String) → All (λ f. contains credential_fields f ≡ true) fields
      → (d : Dict String V) → All Exported d
      → All Exported (redact py fields d)
  unfolding redact redact_field
  redact_entries p [] c d a = a
  redact_entries p (f ∷ fields) c d a =
      elim (Bool-cases (is_truthy py (get (redact py fields d) f))) [
        | inl e ↦ rw e (
            All-put Exported (redact py fields d) f py.redacted_placeholder (inr (rw c.0 p))
              (redact_entries p fields c.1 d a))
        | inr e ↦ rw e (redact_entries p fields c.1 d a)
      ]

  pub Exported-entries :
      py.is_redacted py.redacted_placeholder ≡ true
      → All (λ e. get config e.0 ≡ some e.1) config
      → All Exported (export_config py config)
  unfolding export_config
  Exported-entries p a =
      redact_entries p credential_fields (refl, (refl, (refl, (refl, (refl, tt)))))
        (json_dump py config) (json_entries config a)

module _ {V : Type 0} (py : Pydantic V) where
  -- A credential that shows is the placeholder, or there is none.
  abbrev pub Hidden : V → Type 0
  Hidden v = (v ≡ py.redacted_placeholder) ⊎ (py.is_set v ≡ false)

  Hidden-now :
      (d : Dict String V) (f g : String) (v : V)
      → (eqs : (f == g) ≡ true) → get (redact_field py f d) g ≡ some v
      → Hidden v
  unfolding redact_field
  Hidden-now d f g v e h = elim (Bool-cases (is_truthy py (get d f))) [
    | inl t ↦
        let q = rw (get-put d f g py.redacted_placeholder) at (rw t at h) in
        let same : py.redacted_placeholder ≡ v = cc (rw e at q) in inl (sym same)
    | inr t ↦
        let there = rw t at h in
        inr (sym (ap (is_truthy py) (ap (get d) (eq_of_== f g e) ∙ there)) ∙ t)
  ]

  Hidden-later :
      (d : Dict String V) (f g : String) → (f == g) ≡ false → get (redact_field py f d) g ≡ get d g
  unfolding redact_field
  Hidden-later d f g e = elim (Bool-cases (is_truthy py (get d f))) [
    | inl t ↦ rw t (rw (get-put d f g py.redacted_placeholder) (rw e refl))
    | inr t ↦ rw t refl
  ]

  redact-Hidden :
      (fields : List String) (d : Dict String V) (g : String) (v : V)
      → contains fields g ≡ true
      → get (redact py fields d) g ≡ some v
      → Hidden v
  unfolding redact
  redact-Hidden [] d g v c h = absurd (cc c)
  redact-Hidden (f ∷ fields) d g v c h = elim (Bool-cases (f == g)) [
    | inl e ↦ Hidden-now (redact py fields d) f g v e h
    | inr e ↦
        redact-Hidden fields d g v (rw e at c) (sym (Hidden-later (redact py fields d) f g e) ∙ h)
  ]

  pub export-Hidden :
      (config : Dict String V) (field : String) (v : V)
      → contains credential_fields field ≡ true
      → get (export_config py config) field ≡ some v
      → Hidden v
  unfolding export_config
  export-Hidden config field v c h =
      redact-Hidden credential_fields (json_dump py config) field v c h
