-- ===== src/Prompts/Validator.antt =====
-- The stage between a model's reply and the rest: src/aidss/prompts/validator.py. `json.loads`, the
-- schema's `model_validate` and the two searches by regular expressions, for a code fence and for
-- execution language, are arguments. The texts of a failure are left out, but for what they quote.
pub mod Language
use stock_recommendation_be.Base.{String, Option, none, some, List, [], ◌∷◌, ◌++◌, ◌⊎◌, inl, inr}
use stock_recommendation_be.Base.Json.{
  Json, null, bool, num, str, arr, obj, Items, nil, cons, Fields, end, field,
}

-- `_collect_text`: every text inside a payload, keys apart.
mutual
  pub collect_text : Json → List String
  collect_text null = []
  collect_text (bool b) = []
  collect_text (num n) = []
  collect_text (str s) = s ∷ []
  collect_text (arr items) = collect_items items
  collect_text (obj fields) = collect_fields fields

  pub collect_items : Items → List String
  collect_items nil = []
  collect_items (cons item items) = collect_text item ++ collect_items items

  pub collect_fields : Fields → List String
  collect_fields end = []
  collect_fields (field key value fields) = collect_text value ++ collect_fields fields

-- What `find_execution_language` matched, and why it is refused.
pub record LanguageViolation : Type 0 where
  pub matched_text : String
  pub reason : String

-- One constructor for each `raise`.
pub data ValidationFailure : Type 0 where
  not_json : String → ValidationFailure
  not_an_object : Json → ValidationFailure
  execution_language : List LanguageViolation → ValidationFailure
  schema : List String → ValidationFailure

-- The loop of `check_language` over the texts.
unfoldable pub scan : (String → List LanguageViolation) → List String → List LanguageViolation
scan find_execution_language [] = []
scan find_execution_language (text ∷ texts) =
    find_execution_language text ++ scan find_execution_language texts

unfoldable pub check_language : (String → List LanguageViolation) → Json → List LanguageViolation
unfolding scan collect_text
check_language find_execution_language payload = scan find_execution_language (collect_text payload)

-- The arguments of `validate`: the standard library, the schema of an agent's output, and the word
-- list of execution language.
pub record Checks {ℓ} (M : Type ℓ) : Type ℓ where
  pub strip_code_fence : String → String
  pub loads : String → String ⊎ Json
  pub find_execution_language : String → List LanguageViolation
  pub model_validate : Json → List String ⊎ M

module _ {ℓ} {M : Type ℓ} (checks : Checks M) where
  -- Past the test for a JSON object.
  unfoldable pub validate_object : Json → ValidationFailure ⊎ M
  unfolding check_language
  validate_object payload = elim (check_language checks.find_execution_language payload) [
    | [] ↦ elim (checks.model_validate payload) [
      | inl reasons ↦ inl (schema reasons)
      | inr validated ↦ inr validated
    ]
    | v ∷ violations ↦ inl (execution_language (v ∷ violations))
  ]

  unfoldable pub validate_payload : Json → ValidationFailure ⊎ M
  unfolding validate_object
  validate_payload (obj fields) = validate_object (obj fields)
  validate_payload payload = inl (not_an_object payload)

  unfoldable pub validate : String → ValidationFailure ⊎ M
  unfolding validate_payload
  validate raw = elim (checks.loads (checks.strip_code_fence raw)) [
    | inl error ↦ inl (not_json error)
    | inr payload ↦ validate_payload payload
  ]
