-- ===== src/Verification/Lifetime.antt =====
-- common/verification.go: which codes are accepted after a registration.
use new_api_gateway.Prelude.{
  ℕ, ◌-◌, ◌/◌, ◌≤◌, ltb, Text, text_eq, text_eq_iff, Bool, true, false, ◌&&◌, Option, none, some,
  if◌then◌else◌, [], ◌∷◌, ◌++◌, length, ◌≡◌, refl, sym, ap, ◌∙◌, arith, Bool-cases, inl, inr,
  if-true, if-false,
}
use new_api_gateway.Verification.Codes.{
  VerificationValue, CodeMap, max_size, delete_entry, find_entry, is_live, remove_expired_pairs,
  register_code, verify_code,
}

-- Whether the map accepts a code for a map key.
abbrev pub accepts : ℕ → CodeMap → Text → Text → ℕ → Bool
accepts lifetime m map_key code now = elim (find_entry map_key m) [
  | none ↦ false
  | some v ↦ is_live lifetime now v && text_eq code v.code
]

is_live-later :
    (lifetime cleaning now : ℕ) (v : VerificationValue)
    → cleaning ≤ now
    → is_live lifetime cleaning v ≡ false
    → is_live lifetime now v ≡ false
unfolding is_live
is_live-later lifetime cleaning now v h e = ground arith

find_entry-delete_entry :
    (m : CodeMap) (gone map_key : Text)
    → text_eq gone map_key ≡ false
    → find_entry map_key (delete_entry gone m) ≡ find_entry map_key m
unfolding delete_entry find_entry
find_entry-delete_entry [] gone map_key h = refl
find_entry-delete_entry ((k, v) ∷ m) gone map_key h = elim (Bool-cases (text_eq k gone)) [
  | inl e ↦
      rw (e, ap (λ t. text_eq t map_key) ((text_eq_iff k gone).0 e) ∙ h)
        (find_entry-delete_entry m gone map_key h)
  | inr e ↦
      rw e (
        ap (λ r. if text_eq k map_key then some v else r)
          (find_entry-delete_entry m gone map_key h))
]

find_entry-deleted : (m : CodeMap) (gone : Text) → find_entry gone (delete_entry gone m) ≡ none
unfolding delete_entry find_entry
find_entry-deleted [] gone = refl
find_entry-deleted ((k, v) ∷ m) gone = elim (Bool-cases (text_eq k gone)) [
  | inl e ↦ rw e (find_entry-deleted m gone)
  | inr e ↦ rw (e, e) (find_entry-deleted m gone)
]

-- Each key of the map once.
abbrev pub IsMap : CodeMap → Type 0
IsMap [] = Unit
IsMap ((k, v) ∷ m) = (find_entry k m ≡ none) × IsMap m

find_entry-deleted_none :
    (m : CodeMap) (gone key : Text)
    → find_entry key m ≡ none
    → find_entry key (delete_entry gone m) ≡ none
unfolding delete_entry find_entry
find_entry-deleted_none [] gone key h = refl
find_entry-deleted_none ((k, v) ∷ m) gone key h = ground (arith, find_entry-deleted_none m gone key)

delete_entry-IsMap : (m : CodeMap) (gone : Text) → IsMap m → IsMap (delete_entry gone m)
unfolding delete_entry
delete_entry-IsMap [] gone h = tt
delete_entry-IsMap ((k, v) ∷ m) gone h = elim (Bool-cases (text_eq k gone)) [
  | inl e ↦ rw e (delete_entry-IsMap m gone h.1)
  | inr e ↦ rw e (find_entry-deleted_none m gone k h.0, delete_entry-IsMap m gone h.1)
]

module _ (lifetime cleaning now : ℕ) (later : cleaning ≤ now) where
  find_entry-expired_none :
      (m : CodeMap) (key : Text)
      → find_entry key m ≡ none
      → find_entry key (remove_expired_pairs lifetime cleaning m) ≡ none
  unfolding remove_expired_pairs find_entry
  find_entry-expired_none [] key h = refl
  find_entry-expired_none ((k, v) ∷ m) key h = ground (arith, find_entry-expired_none m key)

  module _ (k : Text) (v : VerificationValue) (m : CodeMap) where
    remove_expired_pairs-live :
        is_live lifetime cleaning v ≡ true
        → remove_expired_pairs lifetime cleaning ((k, v) ∷ m)
          ≡ (k, v) ∷ remove_expired_pairs lifetime cleaning m
    unfolding remove_expired_pairs
    remove_expired_pairs-live e = rw e refl

    remove_expired_pairs-dead :
        is_live lifetime cleaning v ≡ false
        → remove_expired_pairs lifetime cleaning ((k, v) ∷ m)
          ≡ remove_expired_pairs lifetime cleaning m
    unfolding remove_expired_pairs
    remove_expired_pairs-dead e = rw e refl

    accepts-same :
        (map_key code : Text)
        → text_eq k map_key ≡ true
        → accepts lifetime ((k, v) ∷ m) map_key code now
          ≡ is_live lifetime now v && text_eq code v.code
    unfolding find_entry
    accepts-same map_key code e = ground arith

    accepts-other :
        (map_key code : Text)
        → text_eq k map_key ≡ false
        → accepts lifetime ((k, v) ∷ m) map_key code now ≡ accepts lifetime m map_key code now
    unfolding find_entry
    accepts-other map_key code e = ground arith

  accepts-missing :
      (m : CodeMap) (map_key code : Text)
      → find_entry map_key m ≡ none
      → accepts lifetime m map_key code now ≡ false
  accepts-missing m map_key code e = ground arith

  -- What is removed would not have been accepted.
  accepts-remove_expired_pairs :
      (m : CodeMap) (map_key code : Text)
      → IsMap m
      → accepts lifetime (remove_expired_pairs lifetime cleaning m) map_key code now
        ≡ accepts lifetime m map_key code now
  unfolding remove_expired_pairs
  accepts-remove_expired_pairs [] map_key code h = refl
  accepts-remove_expired_pairs ((k, v) ∷ m) map_key code h =
      let rest = remove_expired_pairs lifetime cleaning m in
      elim (Bool-cases (is_live lifetime cleaning v)) [
        | inl e ↦
            ap (λ n. accepts lifetime n map_key code now) (remove_expired_pairs-live k v m e)
            ∙ elim (Bool-cases (text_eq k map_key)) [
              | inl s ↦
                  accepts-same k v rest map_key code s ∙ sym (accepts-same k v m map_key code s)
              | inr s ↦
                  accepts-other k v rest map_key code s
                  ∙ accepts-remove_expired_pairs m map_key code h.1
                  ∙ sym (accepts-other k v m map_key code s)
            ]
        | inr e ↦
            ap (λ n. accepts lifetime n map_key code now) (remove_expired_pairs-dead k v m e)
            ∙ elim (Bool-cases (text_eq k map_key)) [
              | inl s ↦
                  accepts-missing rest map_key code (
                    find_entry-expired_none m map_key
                      (ap (λ t. find_entry t m) (sym ((text_eq_iff k map_key).0 s)) ∙ h.0))
                  ∙ sym (
                      accepts-same k v m map_key code s
                      ∙ ap (λ b. b && text_eq code v.code)
                          (is_live-later lifetime cleaning now v later e))
              | inr s ↦
                  accepts-remove_expired_pairs m map_key code h.1
                  ∙ sym (accepts-other k v m map_key code s)
            ]
      ]

  module _ (m : CodeMap) (distinct : IsMap m) (key code purpose : Text) (at : ℕ) where
    abbrev added : CodeMap
    added = (purpose ++ key, record { code = code; time = at }) ∷ delete_entry (purpose ++ key) m

    added-IsMap : IsMap added
    added-IsMap =
        (find_entry-deleted m (purpose ++ key), delete_entry-IsMap m (purpose ++ key) distinct)

    register-accepts :
        (map_key tried : Text)
        → accepts lifetime (register_code lifetime m key code purpose at cleaning) map_key tried now
          ≡ accepts lifetime added map_key tried now
    unfolding register_code
    register-accepts map_key tried = elim (Bool-cases (ltb max_size (length added))) [
      | inl e ↦
          if-true
            (λ n. accepts lifetime n map_key tried now ≡ accepts lifetime added map_key tried now) _
            _ e (accepts-remove_expired_pairs added map_key tried added-IsMap)
      | inr e ↦
          if-false
            (λ n. accepts lifetime n map_key tried now ≡ accepts lifetime added map_key tried now) _
            _ e refl
    ]

    -- In a map that holds each key once, after a registration, at any time from the cleaning on, the registered key is accepted with the
    -- registered code alone and within its lifetime, and every other key as it was before, whether or
    -- not the map was cleaned; keys are told apart by purpose and key written together.
    pub verify_code-register_code :
        (key' tried purpose' : Text)
        → verify_code lifetime
            (register_code lifetime m key code purpose at cleaning)
            key'
            tried
            purpose'
            now
          ≡ (if text_eq (purpose ++ key) (purpose' ++ key')
              then ltb ((now - at) / 1000000000) lifetime && text_eq tried code
              else verify_code lifetime m key' tried purpose' now)
    unfolding verify_code is_live
    verify_code-register_code key' tried purpose' =
        let name = purpose' ++ key' in
        let rest = delete_entry (purpose ++ key) m in
        let v : VerificationValue = record { code = code; time = at } in
        register-accepts name tried ∙ elim (Bool-cases (text_eq (purpose ++ key) name)) [
          | inl s ↦
              if-true (λ x. accepts lifetime added name tried now ≡ x) _ _ s
                (accepts-same (purpose ++ key) v rest name tried s)
          | inr s ↦
              if-false (λ x. accepts lifetime added name tried now ≡ x) _ _ s
                (accepts-other (purpose ++ key) v rest name tried s
                  ∙ ap (accepted_value tried) (find_entry-delete_entry m (purpose ++ key) name s))
        ]
      where
        accepted_value : Text → Option VerificationValue → Bool
        accepted_value tried o = elim o [
          | none ↦ false
          | some v ↦ is_live lifetime now v && text_eq tried v.code
        ]
