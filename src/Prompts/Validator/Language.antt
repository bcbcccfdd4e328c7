-- ===== src/Prompts/Validator/Language.antt =====
-- What a validated reply cannot say: src/aidss/prompts/validator.py.
use stock_recommendation_be.Base.{
  ◌≡◌, refl, sym, ◌∙◌, String, List, [], ◌∷◌, ◌++◌, ◌⊎◌, inl, inr, append_assoc, append-nil_inv, ap,
}
use stock_recommendation_be.Base.Json.{
  Json, null, bool, num, str, arr, obj, Items, cons, Fields, field,
}
use stock_recommendation_be.Prompts.Validator.{
  collect_text, collect_items, collect_fields, LanguageViolation, ValidationFailure,
  execution_language, schema, scan, check_language, Checks, validate_object, validate_payload,
  validate,
}

-- A text is a value of the payload, however deep.
mutual
  pub data Occurs (text : String) : Json → Type 0 where
    itself : Occurs text (str text)
    in_list : {items : Items} → OccursItem text items → Occurs text (arr items)
    in_dict : {fields : Fields} → OccursField text fields → Occurs text (obj fields)

  pub data OccursItem (text : String) : Items → Type 0 where
    first_item : {j : Json} {items : Items} → Occurs text j → OccursItem text (cons j items)
    next_item : {j : Json} {items : Items} → OccursItem text items → OccursItem text (cons j items)

  pub data OccursField (text : String) : Fields → Type 0 where
    first_field :
        {k : String} {j : Json} {fields : Fields}
        → Occurs text j
        → OccursField text (field k j fields)
    next_field :
        {k : String} {j : Json} {fields : Fields}
        → OccursField text fields
        → OccursField text (field k j fields)

module _ (find : String → List LanguageViolation) where
  scan-append : (xs ys : List String) → scan find (xs ++ ys) ≡ scan find xs ++ scan find ys
  unfolding scan
  scan-append [] ys = refl
  scan-append (x ∷ xs) ys =
      ap (λ r. find x ++ r) (scan-append xs ys)
      ∙ sym (append_assoc (find x) (scan find xs) (scan find ys))

  mutual
    unfolding collect_text scan

    Occurs-clean :
        {text : String} {j : Json}
        → Occurs text j
        → scan find (collect_text j) ≡ []
        → find text ≡ []
    Occurs-clean itself h = (append-nil_inv _ _ h).0
    Occurs-clean (in_list o) h = OccursItem-clean o h
    Occurs-clean (in_dict o) h = OccursField-clean o h

    OccursItem-clean :
        {text : String} {items : Items}
        → OccursItem text items
        → scan find (collect_items items) ≡ []
        → find text ≡ []
    OccursItem-clean (first_item {j} {items} o) h =
        Occurs-clean o
          (append-nil_inv _ _ (sym (scan-append (collect_text j) (collect_items items)) ∙ h)).0
    OccursItem-clean (next_item {j} {items} o) h =
        OccursItem-clean o
          (append-nil_inv _ _ (sym (scan-append (collect_text j) (collect_items items)) ∙ h)).1

    OccursField-clean :
        {text : String} {fields : Fields}
        → OccursField text fields
        → scan find (collect_fields fields) ≡ []
        → find text ≡ []
    OccursField-clean (first_field {k} {j} {fields} o) h =
        Occurs-clean o
          (append-nil_inv _ _ (sym (scan-append (collect_text j) (collect_fields fields)) ∙ h)).0
    OccursField-clean (next_field {k} {j} {fields} o) h =
        OccursField-clean o
          (append-nil_inv _ _ (sym (scan-append (collect_text j) (collect_fields fields)) ∙ h)).1

module _ {ℓ} {M : Type ℓ} (checks : Checks M) where
  validate_object_clean :
      (payload : Json) (m : M)
      → validate_object checks payload ≡ inr m
      → check_language checks.find_execution_language payload ≡ []
  unfolding validate_object
  validate_object_clean payload m h =
      by_cases (check_language checks.find_execution_language payload) h
    where
      by_cases :
          (vs : List LanguageViolation)
          → ◌≡◌ {A = ValidationFailure ⊎ M}
              (elim vs [
                | [] ↦ elim (checks.model_validate payload) [
                  | inl reasons ↦ inl (schema reasons)
                  | inr v ↦ inr v
                ]
                | v ∷ violations ↦ inl (execution_language (v ∷ violations))
              ])
              (inr m)
          → vs ≡ []
      by_cases [] e = refl
      by_cases (v ∷ vs) e = cc

  validate_payload_clean :
      (payload : Json) (m : M)
      → validate_payload checks payload ≡ inr m
      → check_language checks.find_execution_language payload ≡ []
  unfolding validate_payload
  validate_payload_clean (obj fields) m h = validate_object_clean (obj fields) m h
  validate_payload_clean null m h = cc
  validate_payload_clean (bool b) m h = cc
  validate_payload_clean (num n) m h = cc
  validate_payload_clean (str t) m h = cc
  validate_payload_clean (arr items) m h = cc

-- In what passes validation, no text of the payload, however deep it stands, has a match of
-- the word list of execution language.
pub validated_text_is_clean {ℓ} :
    {M : Type ℓ} (checks : Checks M) (raw : String) (m : M) (payload : Json) (text : String)
    → validate checks raw ≡ inr m
    → checks.loads (checks.strip_code_fence raw) ≡ inr payload
    → Occurs text payload
    → checks.find_execution_language text ≡ []
unfolding validate check_language
validated_text_is_clean checks raw m payload text h e o =
    Occurs-clean checks.find_execution_language o
      (validate_payload_clean checks payload m (rw (e, validate) at h))
