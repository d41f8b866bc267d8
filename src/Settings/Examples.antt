-- ===== src/Settings/Examples.antt =====
-- Runs of SettingsService (backend/settings_service.py).
use paperless_iq.Prelude.{
  String, ◌≡◌, refl, sym, ap, ◌∙◌, ◌⊎◌, inl, inr, true, not, Option, none, some, [], ◌∷◌,
  if◌then◌else◌, Bool-cases, nat_eq, string_eq, ◌==◌, contains,
}
use paperless_iq.Prelude.Dict.{Dict, get, put, remove}
use paperless_iq.Settings.Store.{
  Pydantic, update_all, unrecognized_field, json_dump, redact_field, redact, export_config,
  drop_redacted, merge_values, restore_prompt, update, apply_field, skip_field, import_field,
  import_fields, import_config,
}
use paperless_iq.Settings.Imported.{ReadsBack, RoundTrip, export_import}

abbrev both : Option String → Option String → Option (Dict String String)
both none secret = none
both (some model) none = none
both (some model) (some secret) = some (("llm_model", model) ∷ ("webhook_secret", secret) ∷ [])

-- A model of two text fields.
abbrev two_fields : Pydantic String
two_fields = record {
  construct = λ d. both (get d "llm_model") (get d "webhook_secret");
  known_fields = "llm_model" ∷ "webhook_secret" ∷ [];
  json_value = λ v. v;
  is_set = λ v. not (v == "");
  redacted_placeholder = "__REDACTED__";
  is_redacted = λ v. v == "__REDACTED__";
  boolean = λ b. if b then "true" else "false";
  string = λ s. s;
  loads = λ v. none;
  dumps = λ d. "";
  is_blank_prompt = λ v. v == "";
  default_prompt = "prompt";
}

abbrev stored : Dict String String
stored = ("llm_model", "llama3") ∷ ("webhook_secret", "hush") ∷ []

stored_exported :
    export_config two_fields stored
    ≡ ("llm_model", "llama3") ∷ ("webhook_secret", "__REDACTED__") ∷ []
unfolding export_config redact redact_field json_dump get put
stored_exported = refl

-- The placeholder does not overwrite the secret.
stored_updated :
    update two_fields stored (("llm_model", "phi") ∷ ("webhook_secret", "__REDACTED__") ∷ [])
    ≡ some (("llm_model", "phi") ∷ ("webhook_secret", "hush") ∷ [])
unfolding update drop_redacted merge_values update_all restore_prompt get put remove
stored_updated = refl

stored_imported :
    (import_config two_fields stored (("colour", "red") ∷ ("llm_model", "phi") ∷ [])).1.skipped
    ≡ ("colour", unrecognized_field) ∷ []
unfolding import_config import_fields import_field apply_field skip_field get put
stored_imported = refl

same_field :
    (k : String) (d : Dict String String)
    → (get d k ≡ get stored k) ⊎ ((w : String) × (get stored k ≡ some w) × (get d k ≡ some w))
    → get d k ≡ get stored k
same_field k d (inl e) = e
same_field k d (inr (w, a, b)) = b ∙ sym a

stored_known :
    (k v : String) → get stored k ≡ some v → contains ("llm_model" ∷ "webhook_secret" ∷ []) k ≡ true
unfolding get
stored_known k v h = elim (Bool-cases ("llm_model" == k)) [
  | inl e ↦ rw e refl
  | inr e ↦ rw e (elim (Bool-cases ("webhook_secret" == k)) [
    | inl q ↦ rw q refl
    | inr q ↦ absurd (cc (rw (e, q) at h))
  ])
]

stored-ReadsBack : ReadsBack two_fields stored
unfolding get
stored-ReadsBack = record {
  placeholder = refl;
  known = stored_known;
  reads_back = λ d s.
      ap (λ o. both o (get d "webhook_secret")) (same_field "llm_model" d (s "llm_model"))
      ∙ ap (both (some "llama3")) (same_field "webhook_secret" d (s "webhook_secret"));
}

export_import_example : RoundTrip two_fields stored
unfolding get
export_import_example = export_import two_fields stored stored-ReadsBack (refl, (refl, tt))
