-- ===== src/Settings/Imported.antt =====
-- The import of an exported configuration (backend/settings_service.py): import_config.
use mathlib.Core.Path.{subst}
use mathlib.Core.List.{append_assoc, append-nil}
use paperless_iq.Prelude.{
  String, ◌≡◌, refl, sym, ap, ◌∙◌, ◌⊎◌, inl, inr, Bool, true, false, ◌&&◌, not, some, [], ◌∷◌, ◌++◌,
  map, if◌then◌else◌, Bool-cases, or_else, keep, All, nat_eq, string_eq, ◌==◌, eq_of_==, contains,
}
use paperless_iq.Prelude.Dict.{Dict, get, put, get-put}
use paperless_iq.Settings.Store.{
  Pydantic, credential_fields, update_all, re_enter_manually, ImportSummary, export_config,
  apply_field, skip_field, import_field, import_fields, no_values, import_config,
}
use paperless_iq.Settings.Exported.{
  FromConfig, redacted_entry, Exported, Exported-entries, All-put, Hidden, export-Hidden,
}

-- What is asked of the model: the placeholder is equal to itself, the fields are known, and the
-- constructor reads a configuration back when some of its fields are written as JSON.
pub record ReadsBack {V : Type 0} (py : Pydantic V) (config : Dict String V) : Type 0 where
  pub placeholder : py.is_redacted py.redacted_placeholder ≡ true
  pub known : (k : String) (v : V) → get config k ≡ some v → contains py.known_fields k ≡ true
  pub reads_back :
      (d : Dict String V)
      → ((k : String)
          → (get d k ≡ get config k)
            ⊎ ((w : V) × (get config k ≡ some w) × (get d k ≡ some (py.json_value w))))
      → py.construct d ≡ some config

module _ {V : Type 0} (py : Pydantic V) (config : Dict String V) (back : ReadsBack py config) where
  abbrev SameFields : Dict String V → Type 0
  SameFields d =
      (k : String)
      → (get d k ≡ get config k)
        ⊎ ((w : V) × (get config k ≡ some w) × (get d k ≡ some (py.json_value w)))

  SameFields-put :
      (d : Dict String V) (e : String × V)
      → FromConfig py config e
      → SameFields d
      → SameFields (put d e.0 e.1)
  SameFields-put d e f s k = elim (Bool-cases (e.0 == k)) [
    | inl q ↦ inr (
      f.stored,
      ap (get config) (sym (eq_of_== e.0 k q)) ∙ f.is_stored,
      rw (get-put d e.0 k e.1) (rw q (ap some f.is_json)),
    )
    | inr q ↦ rw (get-put d e.0 k e.1) (rw q (s k))
  ]

  SameFields-update :
      (values d : Dict String V)
      → All (FromConfig py config) values
      → SameFields d
      → SameFields (update_all d values)
  unfolding update_all
  SameFields-update [] d a s = s
  SameFields-update ((k, v) ∷ values) d a s =
      SameFields-update values (put d k v) a.1 (SameFields-put d (k, v) a.0 s)

  accepted :
      (k : String) (v : V) (summary : ImportSummary V)
      → FromConfig py config (k, v)
      → redacted_entry py config (k, v) ≡ false
      → import_field py config k v summary ≡ apply_field py k v summary
  unfolding import_field
  accepted k v summary f r = elim (Bool-cases (contains credential_fields k)) [
    | inl c ↦ rw c (rw (not_redacted c) refl)
    | inr c ↦ rw c (
        rw (back.known k f.stored f.is_stored) (
          rw (back.reads_back (put config k v) (SameFields-put config (k, v) f (λ j. inl refl)))
            refl))
  ]
    where
      not_redacted : contains credential_fields k ≡ true → py.is_redacted v ≡ false
      not_redacted c = ap (λ b. b && py.is_redacted v) (sym c) ∙ r

  skipped_entry :
      (k : String) (v : V) (summary : ImportSummary V)
      → redacted_entry py config (k, v) ≡ true
      → import_field py config k v summary ≡ skip_field py k re_enter_manually summary
  unfolding import_field
  skipped_entry k v summary r = elim (Bool-cases (contains credential_fields k)) [
    | inl c ↦ rw c (rw (ap (λ b. b && py.is_redacted v) (sym c) ∙ r) refl)
    | inr c ↦ absurd (cc (ap (λ b. b && py.is_redacted v) (sym c) ∙ r))
  ]

  -- What the loop adds to a summary.
  record Added (values : Dict String V) (summary after : ImportSummary V) : Type 0 where
    from_config : All (FromConfig py config) after.valid_values
    applied :
        after.applied
        ≡ summary.applied ++ map (λ e. e.0) (keep (λ e. not (redacted_entry py config e)) values)
    skipped :
        after.skipped
        ≡ summary.skipped
          ++ map (λ e. (e.0, re_enter_manually)) (keep (redacted_entry py config) values)

  skip_adds :
      (k : String) (v : V) (values : Dict String V) (summary after : ImportSummary V)
      → redacted_entry py config (k, v) ≡ true
      → Added values (skip_field py k re_enter_manually summary) after
      → Added ((k, v) ∷ values) summary after
  unfolding skip_field
  skip_adds k v values summary after r a = record {
    from_config = a.from_config;
    applied =
        a.applied
        ∙ ap
            (λ (b : Bool).
              summary.applied ++ map (λ e. e.0) (if not b then (k, v) ∷ rest else rest))
            (sym r);
    skipped =
        a.skipped
        ∙ (append_assoc summary.skipped ((k, re_enter_manually) ∷ [])
              (map (λ e. (e.0, re_enter_manually)) redacted)
            ∙ ap
                (λ (b : Bool).
                  summary.skipped
                  ++ map (λ e. (e.0, re_enter_manually))
                      (if b then (k, v) ∷ redacted else redacted))
                (sym r));
  }
    where
      rest : Dict String V
      rest = keep (λ e. not (redacted_entry py config e)) values

      redacted : Dict String V
      redacted = keep (redacted_entry py config) values

  accept_adds :
      (k : String) (v : V) (values : Dict String V) (summary after : ImportSummary V)
      → redacted_entry py config (k, v) ≡ false
      → Added values (apply_field py k v summary) after
      → Added ((k, v) ∷ values) summary after
  unfolding apply_field
  accept_adds k v values summary after r a = record {
    from_config = a.from_config;
    applied =
        a.applied
        ∙ (append_assoc summary.applied (k ∷ []) (map (λ e. e.0) rest)
            ∙ ap
                (λ (b : Bool).
                  summary.applied ++ map (λ e. e.0) (if not b then (k, v) ∷ rest else rest))
                (sym r));
    skipped =
        a.skipped
        ∙ ap
            (λ (b : Bool).
              summary.skipped
              ++ map (λ e. (e.0, re_enter_manually)) (if b then (k, v) ∷ redacted else redacted))
            (sym r);
  }
    where
      rest : Dict String V
      rest = keep (λ e. not (redacted_entry py config e)) values

      redacted : Dict String V
      redacted = keep (redacted_entry py config) values

  field_of :
      (e : String × V)
      → Exported py config e
      → redacted_entry py config e ≡ false
      → FromConfig py config e
  field_of e (inl f) r = f
  field_of e (inr q) r = absurd (cc (q, r))

  accept_keeps :
      (k : String) (v : V) (summary : ImportSummary V)
      → FromConfig py config (k, v)
      → All (FromConfig py config) summary.valid_values
      → All (FromConfig py config) (apply_field py k v summary).valid_values
  unfolding apply_field
  accept_keeps k v summary f a = All-put (FromConfig py config) summary.valid_values k v f a

  skip_keeps :
      (k : String) (summary : ImportSummary V)
      → All (FromConfig py config) summary.valid_values
      → All (FromConfig py config) (skip_field py k re_enter_manually summary).valid_values
  unfolding skip_field
  skip_keeps k summary a = a

  import_adds :
      (values : Dict String V) (summary : ImportSummary V)
      → All (Exported py config) values
      → All (FromConfig py config) summary.valid_values
      → Added values summary (import_fields py config values summary)
  unfolding import_fields
  import_adds [] summary a f = record {
    from_config = f;
    applied = sym (append-nil summary.applied);
    skipped = sym (append-nil summary.skipped);
  }
  import_adds ((k, v) ∷ values) summary a f = elim (Bool-cases (redacted_entry py config (k, v))) [
    | inl r ↦
        subst (λ s. Added ((k, v) ∷ values) summary (import_fields py config values s))
          (sym (skipped_entry k v summary r))
          (skip_adds k v values summary
            (import_fields py config values (skip_field py k re_enter_manually summary)) r
            (import_adds values (skip_field py k re_enter_manually summary) a.1
              (skip_keeps k summary f)))
    | inr r ↦
        let from = field_of (k, v) a.0 r in
        subst (λ s. Added ((k, v) ∷ values) summary (import_fields py config values s))
          (sym (accepted k v summary from r))
          (accept_adds k v values summary
            (import_fields py config values (apply_field py k v summary)) r
            (import_adds values (apply_field py k v summary) a.1 (accept_keeps k v summary from f)))
  ]

  combined :
      (values : Dict String V)
      → All (FromConfig py config) values
      → (if no_values py values
          then config
          else or_else (py.construct (update_all config values)) config)
        ≡ config
  combined [] a = refl
  combined ((k, v) ∷ values) a =
      ap (λ o. or_else o config)
        (back.reads_back (update_all config ((k, v) ∷ values))
          (SameFields-update ((k, v) ∷ values) config a (λ j. inl refl)))

-- What is promised of the import of a configuration's own export.
pub record RoundTrip {V : Type 0} (py : Pydantic V) (config : Dict String V) : Type 0 where
  pub unchanged : (import_config py config (export_config py config)).0 ≡ config
  pub applied :
      (import_config py config (export_config py config)).1.applied
      ≡ map (λ e. e.0) (keep (λ e. not (redacted_entry py config e)) (export_config py config))
  pub skipped :
      (import_config py config (export_config py config)).1.skipped
      ≡ map
          (λ e. (e.0, re_enter_manually))
          (keep (redacted_entry py config) (export_config py config))
  pub hidden :
      (field : String) (v : V)
      → contains credential_fields field ≡ true
      → get (export_config py config) field ≡ some v
      → Hidden py v

-- When the constructor reads fields back from their JSON and the keys of the configuration are
-- distinct, importing its own export leaves the configuration as it is, its credentials included: the
-- fields that the export redacts are skipped, all others are applied. In the export every credential
-- is the placeholder or falsy.
pub export_import :
    {V : Type 0} (py : Pydantic V) (config : Dict String V)
    → ReadsBack py config
    → All (λ e. get config e.0 ≡ some e.1) config
    → RoundTrip py config
unfolding import_config
export_import py config back entries =
    let a =
      import_adds py config back (export_config py config)
        (record { valid_values = []; applied = []; skipped = [] })
        (Exported-entries py config back.placeholder entries) tt in
    record {
      unchanged =
          combined py config back
            (import_fields py config (export_config py config)
              (record { valid_values = []; applied = []; skipped = [] })).valid_values
            a.from_config;
      applied = a.applied;
      skipped = a.skipped;
      hidden = export-Hidden py config;
    }
