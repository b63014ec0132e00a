-- ===== src/Proxy/Redacted.antt =====
-- service/proxy.go: which texts remain in a redacted payload.
use new_api_gateway.Prelude.{
  Text, codes, trim_space, false, Bool-cases, if-true, if-false, if◌then◌else◌, ◌≡◌, ◌∙◌, ap, ◌⊎◌,
  inl, inr, subst,
}
use new_api_gateway.Proxy.Json.{
  Json, Items, Fields, null, boolean, number, string, array, object, no_items, item, no_fields,
  field,
}
use new_api_gateway.Proxy.Redact.{
  is_credential_like_key, looks_like_credential_value, token_summary, redact_keyed, redact_string,
  redact_credential_like_values, redact_fields, redact_items,
}

-- A text is a value in a payload.
abbrev mutual
  pub IsValueOf : Text → Json → Type 0
  IsValueOf t (string s) = t ≡ s
  IsValueOf t (null) = ⊥
  IsValueOf t (boolean b) = ⊥
  IsValueOf t (number x) = ⊥
  IsValueOf t (array items) = IsValueOfItems t items
  IsValueOf t (object entries) = IsValueOfFields t entries

  pub IsValueOfItems : Text → Items → Type 0
  IsValueOfItems t no_items = ⊥
  IsValueOfItems t (item v rest) = IsValueOf t v ⊎ IsValueOfItems t rest

  pub IsValueOfFields : Text → Fields → Type 0
  IsValueOfFields t no_fields = ⊥
  IsValueOfFields t (field k v rest) = IsValueOf t v ⊎ IsValueOfFields t rest

-- A text is a value in a payload that is under no key of a credential.
abbrev mutual
  pub IsOpenIn : Text → Json → Type 0
  IsOpenIn t (string s) = t ≡ s
  IsOpenIn t (null) = ⊥
  IsOpenIn t (boolean b) = ⊥
  IsOpenIn t (number x) = ⊥
  IsOpenIn t (array items) = IsOpenInItems t items
  IsOpenIn t (object entries) = IsOpenInFields t entries

  pub IsOpenInItems : Text → Items → Type 0
  IsOpenInItems t no_items = ⊥
  IsOpenInItems t (item v rest) = IsOpenIn t v ⊎ IsOpenInItems t rest

  pub IsOpenInFields : Text → Fields → Type 0
  IsOpenInFields t no_fields = ⊥
  IsOpenInFields t (field k v rest) =
      ((is_credential_like_key k ≡ false) × IsOpenIn t v) ⊎ IsOpenInFields t rest

module _ (fingerprint : Text → Text) where
  -- A summary or the mark of a redaction.
  abbrev pub IsMarked : Text → Type 0
  IsMarked t = ((s : Text) × (t ≡ token_summary fingerprint s)) ⊎ (t ≡ codes "(redacted)")

  abbrev pub IsPlain : Text → Type 0
  IsPlain t = looks_like_credential_value (trim_space t) ≡ false

  redact_string-cases :
      (t s : Text) → t ≡ redact_string fingerprint s → (IsPlain t × (t ≡ s)) ⊎ IsMarked t
  unfolding redact_string
  redact_string-cases t s h =
      let P : Text → Type 0 = λ u. t ≡ u → (IsPlain t × (t ≡ s)) ⊎ IsMarked t in
      elim (Bool-cases (looks_like_credential_value (trim_space s))) [
        | inl e ↦ if-true P _ _ e (λ is. inr (inl (trim_space s, is))) h
        | inr e ↦
            if-false P _ _ e
              (λ is. inl (ap (λ u. looks_like_credential_value (trim_space u)) is ∙ e, is)) h
      ]

  redact_keyed-IsMarked :
      (t : Text) (v : Json) → IsValueOf t (redact_keyed fingerprint v) → IsMarked t
  unfolding redact_keyed
  redact_keyed-IsMarked t (string s) h = inl (s, h)
  redact_keyed-IsMarked t (null) h = inr h
  redact_keyed-IsMarked t (boolean b) h = inr h
  redact_keyed-IsMarked t (number x) h = inr h
  redact_keyed-IsMarked t (array items) h = inr h
  redact_keyed-IsMarked t (object entries) h = inr h

  mutual
    unfolding redact_credential_like_values

    values_left :
        (t : Text) (v : Json)
        → IsValueOf t (redact_credential_like_values fingerprint v)
        → (IsPlain t × IsOpenIn t v) ⊎ IsMarked t
    values_left t (string s) h = redact_string-cases t s h
    values_left t (array items) h = items_left t items h
    values_left t (object entries) h = fields_left t entries h
    values_left t (null) h = absurd h
    values_left t (boolean b) h = absurd h
    values_left t (number x) h = absurd h

    items_left :
        (t : Text) (items : Items)
        → IsValueOfItems t (redact_items fingerprint items)
        → (IsPlain t × IsOpenInItems t items) ⊎ IsMarked t
    items_left t no_items h = absurd h
    items_left t (item v rest) (inl h) = elim (values_left t v h) [
      | inl (plain, open_) ↦ inl (plain, inl open_)
      | inr marked ↦ inr marked
    ]
    items_left t (item v rest) (inr h) = elim (items_left t rest h) [
      | inl (plain, open_) ↦ inl (plain, inr open_)
      | inr marked ↦ inr marked
    ]

    fields_left :
        (t : Text) (entries : Fields)
        → IsValueOfFields t (redact_fields fingerprint entries)
        → (IsPlain t × IsOpenInFields t entries) ⊎ IsMarked t
    fields_left t no_fields h = absurd h
    fields_left t (field k v rest) (inr h) = elim (fields_left t rest h) [
      | inl (plain, open_) ↦ inl (plain, inr open_)
      | inr marked ↦ inr marked
    ]
    fields_left t (field k v rest) (inl h) = elim (Bool-cases (is_credential_like_key k)) [
      | inl e ↦ inr (
          redact_keyed-IsMarked t v (
            subst
              (λ b. IsValueOf t (
                if b
                then redact_keyed fingerprint v
                else redact_credential_like_values fingerprint v))
              e h))
      | inr e ↦
          elim (values_left t v (
            subst
              (λ b. IsValueOf t (
                if b
                then redact_keyed fingerprint v
                else redact_credential_like_values fingerprint v))
              e h)) [ inl (plain, open_) ↦ inl (plain, inl (e, open_)) | inr marked ↦ inr marked ]
    ]

  -- Each text left in a redacted payload was in the payload under no key of a credential and does not
  -- look like one, or is a summary or the mark of a redaction.
  pub redact_credential_like_values-IsPlain :
      (t : Text) (v : Json)
      → IsValueOf t (redact_credential_like_values fingerprint v)
      → (IsPlain t × IsOpenIn t v) ⊎ IsMarked t
  redact_credential_like_values-IsPlain t v h = values_left t v h
