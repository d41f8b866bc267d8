-- ===== src/Settings/Store.antt =====
-- SettingsService (backend/settings_service.py): get_masked, update, export_config, import_config, and
-- the writing and reading of the row. A configuration is the dictionary of its fields. Pydantic, JSON
-- and the encryption are parameters (Pydantic, Crypto); None is a ValidationError of the constructor.
use paperless_iq.Prelude.{
  String, Bool, true, false, ◌||◌, not, Option, none, some, List, [], ◌∷◌, ◌++◌, if◌then◌else◌,
  is_some, or_else, nat_eq, string_eq, ◌==◌, contains,
}
use paperless_iq.Prelude.Dict.{Dict, get, put, remove}

-- Field values of type `V`, and what the service uses of the model and of JSON.
pub record Pydantic (V : Type 0) : Type 0 where
  -- `PaperlessIQConfig(**data)`, as its fields.
  pub construct : Dict String V → Option (Dict String V)
  -- `model_fields`
  pub known_fields : List String
  -- A value of `model_dump(mode="json")`.
  pub json_value : V → V
  pub is_set : V → Bool
  -- REDACTED_PLACEHOLDER, and the comparison with it.
  pub redacted_placeholder : V
  pub is_redacted : V → Bool
  pub boolean : Bool → V
  pub string : String → V
  -- `json.loads` of a blob of credentials: the texts of an object; None for all else.
  pub loads : V → Option (Dict String String)
  pub dumps : Dict String String → V
  -- A prompt template with nothing but spaces, and the default one.
  pub is_blank_prompt : V → Bool
  pub default_prompt : V

abbrev pub credential_fields : List String
credential_fields =
    "llm_credentials" ∷ "webhook_secret" ∷ "qdrant_api_key" ∷ "embed_credentials" ∷ "rerank_api_key"
    ∷ []

-- `d.update(values)`
unfoldable pub update_all {ℓ} : {V : Type ℓ} → Dict String V → Dict String V → Dict String V
unfolding put
update_all d [] = d
update_all d ((k, v) ∷ values) = update_all (put d k v) values

-- Why a field was skipped.
pub data SkipReason : Type 0 where
  re_enter_manually unrecognized_field invalid_value : SkipReason

pub record ImportSummary (V : Type 0) : Type 0 where
  pub valid_values : Dict String V
  pub applied : List String
  pub skipped : List (String × SkipReason)

module _ {V : Type 0} (py : Pydantic V) where
  abbrev pub is_truthy : Option V → Bool
  is_truthy none = false
  is_truthy (some v) = py.is_set v

  -- `self._config.model_dump(mode="json")`
  unfoldable pub json_dump : Dict String V → Dict String V
  json_dump [] = []
  json_dump ((k, v) ∷ config) = (k, py.json_value v) ∷ json_dump config

  unfoldable pub redact_field : String → Dict String V → Dict String V
  unfolding get put
  redact_field field d = if is_truthy (get d field) then put d field py.redacted_placeholder else d

  unfoldable pub redact : List String → Dict String V → Dict String V
  unfolding redact_field
  redact [] d = d
  redact (field ∷ fields) d = redact_field field (redact fields d)

  unfoldable pub export_config : Dict String V → Dict String V
  unfolding redact json_dump
  export_config config = redact credential_fields (json_dump config)

  -- The parts of a Bedrock blob that the UI may see.
  unfoldable pub bedrock_fields : Option (Dict String String) → Dict String V → Dict String V
  unfolding get put
  bedrock_fields none d = d
  bedrock_fields (some creds) d =
      put
        (put
          (put (put d "bedrock_region" (py.string (or_else (get creds "region") "")))
            "bedrock_access_key_id" (py.string (or_else (get creds "access_key_id") "")))
          "bedrock_has_secret"
          (py.boolean (not (or_else (get creds "secret_access_key") "" == ""))))
        "bedrock_has_session_token"
        (py.boolean (not (or_else (get creds "session_token") "" == "")))

  abbrev pub creds_of : Option V → Option (Dict String String)
  creds_of none = none
  creds_of (some blob) = py.loads blob

  unfoldable pub get_masked : Bool → Dict String V → Dict String V
  unfolding redact json_dump bedrock_fields get put
  get_masked is_bedrock config =
      let plain = json_dump config in
      let bedrock =
        if is_bedrock
        then bedrock_fields (creds_of (get config "llm_credentials")) plain
        else plain in
      redact credential_fields (
        put
          (put
            (put bedrock "qdrant_api_key_stored"
              (py.boolean (is_truthy (get config "qdrant_api_key"))))
            "embed_credentials_stored" (py.boolean (is_truthy (get config "embed_credentials"))))
          "rerank_api_key_stored" (py.boolean (is_truthy (get config "rerank_api_key"))))

  abbrev pub is_placeholder : Option V → Bool
  is_placeholder none = false
  is_placeholder (some v) = py.is_redacted v

  -- "Don't overwrite credentials with the redacted placeholder"
  unfoldable pub drop_redacted : List String → Dict String V → Dict String V
  unfolding get remove
  drop_redacted [] values = values
  drop_redacted (field ∷ fields) values =
      drop_redacted fields
        (if is_placeholder (get values field) then remove values field else values)

  abbrev pub keeps : Option String → Bool
  keeps none = false
  keeps (some s) = s == "__KEEP__"

  -- The merge of `__KEEP__` with the stored credentials.
  unfoldable pub merge_creds : Dict String String → Dict String String → Dict String String
  unfolding get put remove
  merge_creds existing new =
      let secret =
        if keeps (get new "secret_access_key")
        then put new "secret_access_key" (or_else (get existing "secret_access_key") "")
        else new in
      let token = or_else (get existing "session_token") "" in
      if keeps (get secret "session_token")
      then if token == "" then remove secret "session_token" else put secret "session_token" token
      else secret

  unfoldable pub merge_values :
      Dict String V → Dict String V → Option (Dict String String) → Dict String V
  unfolding get put merge_creds
  merge_values config values none = values
  merge_values config values (some new) =
      if keeps (get new "secret_access_key") || keeps (get new "session_token")
      then put values "llm_credentials"
          (py.dumps (merge_creds (or_else (creds_of (get config "llm_credentials")) []) new))
      else values

  -- "Revert global_prompt_template to default if cleared"
  unfoldable pub restore_prompt : Option V → Dict String V → Dict String V
  unfolding put
  restore_prompt none config = config
  restore_prompt (some prompt) config =
      if py.is_blank_prompt prompt
      then put config "global_prompt_template" py.default_prompt
      else config

  abbrev pub restored : Option (Dict String V) → Option (Dict String V)
  unfolding get restore_prompt
  restored none = none
  restored (some config) = some (restore_prompt (get config "global_prompt_template") config)

  -- The new configuration; None is the ValueError.
  unfoldable pub update : Dict String V → Dict String V → Option (Dict String V)
  unfolding drop_redacted merge_values update_all get
  update config values =
      let kept = drop_redacted credential_fields values in
      restored (
        py.construct
          (update_all config (merge_values config kept (creds_of (get kept "llm_credentials")))))

  unfoldable pub apply_field : String → V → ImportSummary V → ImportSummary V
  unfolding put
  apply_field key v summary = record summary {
    valid_values = put summary.valid_values key v;
    applied = summary.applied ++ key ∷ [];
  }

  unfoldable pub skip_field : String → SkipReason → ImportSummary V → ImportSummary V
  skip_field key reason summary = record summary { skipped = summary.skipped ++ (key, reason) ∷ [] }

  unfoldable pub import_field : Dict String V → String → V → ImportSummary V → ImportSummary V
  unfolding put apply_field skip_field
  import_field config key v summary =
      if contains credential_fields key
      then if py.is_redacted v
        then skip_field key re_enter_manually summary
        else apply_field key v summary
      else if contains py.known_fields key
      then if is_some (py.construct (put config key v))
        then apply_field key v summary
        else skip_field key invalid_value summary
      else skip_field key unrecognized_field summary

  -- The loop over the imported fields.
  unfoldable pub import_fields : Dict String V → Dict String V → ImportSummary V → ImportSummary V
  unfolding import_field
  import_fields config [] summary = summary
  import_fields config ((key, v) ∷ values) summary =
      import_fields config values (import_field config key v summary)

  abbrev pub no_values : Dict String V → Bool
  no_values [] = true
  no_values (e ∷ d) = false

  -- The configuration after it, and the summary.
  unfoldable pub import_config : Dict String V → Dict String V → Dict String V × ImportSummary V
  unfolding import_fields update_all
  import_config config values =
      let summary =
        import_fields config values (record { valid_values = []; applied = []; skipped = [] }) in
      let combined = or_else (py.construct (update_all config summary.valid_values)) config in
      (if no_values summary.valid_values then config else combined, summary)
