-- ===== src/Proxy/Private.antt =====
-- service/proxy.go: which headers of the client an upstream sees.
use new_api_gateway.Prelude.{
  Text, codes, is_empty, equal_fold, true, not, if-true, if-false, Bool-cases, List, [], ◌∷◌, ◌++◌,
  ◌≡◌, refl, ap, All, ◌⊎◌, inl, inr,
}
use new_api_gateway.Proxy.Request.{
  ClientRequest, Headers, del_header, set_header, safe_headers, revealing_headers,
  is_anthropic_path, is_gemini_path, copy_safe, anthropic_headers, gemini_headers, delete_all,
  upstream_headers,
}

-- A name is one of a list.
abbrev pub IsOneOf : Text → List Text → Type 0
IsOneOf name [] = ⊥
IsOneOf name (n ∷ ns) = (name ≡ n) ⊎ IsOneOf name ns

module _ (c : ClientRequest) (sk_key : Text) where
  -- A header with the key of the provider's token, or a copy of a header of the client that is not a
  -- credential.
  abbrev pub IsPrivate : Text × Text → Type 0
  IsPrivate h =
      ((h.0 ≡ codes "Authorization") × (h.1 ≡ codes "Bearer " ++ sk_key))
      ⊎ ((h.0 ≡ codes "x-api-key") × (h.1 ≡ sk_key) × (is_anthropic_path c.path ≡ true))
      ⊎ ((h.0 ≡ codes "x-goog-api-key") × (h.1 ≡ sk_key) × (is_gemini_path c.path ≡ true))
      ⊎ ((h.0 ≡ codes "anthropic-version")
          × (h.1 ≡ c.header (codes "anthropic-version"))
          × (is_anthropic_path c.path ≡ true))
      ⊎ (IsOneOf h.0 safe_headers × (h.1 ≡ c.header h.0))

  abbrev ArePrivate : Headers → Type 0
  ArePrivate hs = All IsPrivate hs

  del_header-ArePrivate :
      (name : Text) (hs : Headers) → ArePrivate hs → ArePrivate (del_header name hs)
  unfolding del_header
  del_header-ArePrivate name [] p = tt
  del_header-ArePrivate name (h ∷ hs) p = elim (Bool-cases (equal_fold h.0 name)) [
    | inl e ↦ if-true ArePrivate _ _ e (del_header-ArePrivate name hs p.1)
    | inr e ↦ if-false ArePrivate _ _ e (p.0, del_header-ArePrivate name hs p.1)
  ]

  set_header-ArePrivate :
      (name value : Text) (hs : Headers)
      → IsPrivate (name, value)
      → ArePrivate hs
      → ArePrivate (set_header name value hs)
  unfolding set_header
  set_header-ArePrivate name value hs h p = (h, del_header-ArePrivate name hs p)

  copy_safe-ArePrivate :
      (names : List Text) (hs : Headers)
      → All (λ n. IsOneOf n safe_headers) names
      → ArePrivate hs
      → ArePrivate (copy_safe c names hs)
  unfolding copy_safe
  copy_safe-ArePrivate [] hs s p = p
  copy_safe-ArePrivate (name ∷ names) hs s p =
      copy_safe-ArePrivate names _ s.1 (elim (Bool-cases (not (is_empty (c.header name)))) [
        | inl e ↦
            if-true ArePrivate _ _ e
              (set_header-ArePrivate name (c.header name) hs (inr (inr (inr (inr (s.0, refl))))) p)
        | inr e ↦ if-false ArePrivate _ _ e p
      ])

  anthropic_headers-ArePrivate :
      (hs : Headers) → ArePrivate hs → ArePrivate (anthropic_headers c sk_key hs)
  unfolding anthropic_headers
  anthropic_headers-ArePrivate hs p = elim (Bool-cases (is_anthropic_path c.path)) [
    | inr e ↦ if-true ArePrivate _ _ (ap not e) p
    | inl e ↦
        let keyed =
          set_header-ArePrivate (codes "x-api-key") sk_key hs (inr (inl (refl, refl, e))) p in
        if-false ArePrivate _ _ (ap not e)
          (elim (Bool-cases (not (is_empty (c.header (codes "anthropic-version"))))) [
            | inl v ↦
                if-true ArePrivate _ _ v
                  (set_header-ArePrivate _ _ _ (inr (inr (inr (inl (refl, refl, e))))) keyed)
            | inr v ↦ if-false ArePrivate _ _ v keyed
          ])
  ]

  gemini_headers-ArePrivate :
      (hs : Headers) → ArePrivate hs → ArePrivate (gemini_headers c sk_key hs)
  unfolding gemini_headers
  gemini_headers-ArePrivate hs p = elim (Bool-cases (is_gemini_path c.path)) [
    | inl e ↦
        if-true ArePrivate _ _ e (set_header-ArePrivate _ _ hs (inr (inr (inl (refl, refl, e)))) p)
    | inr e ↦ if-false ArePrivate _ _ e p
  ]

  delete_all-ArePrivate :
      (names : List Text) (hs : Headers) → ArePrivate hs → ArePrivate (delete_all names hs)
  unfolding delete_all
  delete_all-ArePrivate [] hs p = p
  delete_all-ArePrivate (name ∷ names) hs p =
      delete_all-ArePrivate names _ (del_header-ArePrivate name hs p)

  -- The names of the list of safe headers are on it.
  safe_names : All (λ n. IsOneOf n safe_headers) safe_headers
  safe_names = (
    inl refl,
    (
      inr (inl refl),
      (
        inr (inr (inl refl)),
        (
          inr (inr (inr (inl refl))),
          (inr (inr (inr (inr (inl refl)))), (inr (inr (inr (inr (inr (inl refl))))), tt)),
        ),
      ),
    ),
  )

  -- Every header sent upstream carries the key of the provider's token under a credential's name, or
  -- is the client's API version or one of its six safe headers; so none is a credential of the client.
  pub upstream_headers-ArePrivate : All IsPrivate (upstream_headers c sk_key)
  unfolding upstream_headers
  upstream_headers-ArePrivate = delete_all-ArePrivate revealing_headers _ (
      gemini_headers-ArePrivate _ (
        anthropic_headers-ArePrivate _ (
          set_header-ArePrivate _ _ _ (inl (refl, refl))
            (copy_safe-ArePrivate safe_headers [] safe_names tt))))
