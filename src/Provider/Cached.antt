-- ===== src/Provider/Cached.antt =====
-- service/provider_http.go: the cache of the relay's HTTP clients over any sequence of calls.
use new_api_gateway.Prelude.{
  Text, text_eq, text_eq_iff, is_empty, trim_space, true, false, Option, none, some, Bool-cases,
  List, [], ◌∷◌, ◌≡◌, ◌≢◌, ◌↔◌, refl, sym, ap, ◌∙◌, subst, arith, All, ◌⊎◌, inl, inr,
}
use new_api_gateway.Provider.Rows.{Provider}
use new_api_gateway.Provider.ProxyConfig.{Url, validate_provider_proxy_config, validate_parsed}
use new_api_gateway.Provider.Client.{
  ClientError, HttpClient, ClientCache, direct_key, cached_client, relay_client_cache_key,
  transport_proxy, new_provider_http_client, get_relay_http_client,
}

module _ (parse_url : Text → Option Url) where
  -- The cache after a sequence of calls.
  unfoldable pub cache_after : List (Option Provider) → ClientCache
  cache_after [] = []
  cache_after (p ∷ earlier) = (get_relay_http_client parse_url p (cache_after earlier)).1

  abbrev pub IsProxied : Text → HttpClient → Type 0
  IsProxied key c =
      (u : Url) × (parse_url key ≡ some u)
      × (is_empty key ≡ false)
      × (is_empty u.host ≡ false)
      × (is_empty u.scheme ≡ false)
      × (c ≡ record { proxy = some u })

  -- What is cached under a key is what the key says.
  abbrev pub IsSound : Text → HttpClient → Type 0
  IsSound key c = ((key ≡ direct_key) × (c ≡ record { proxy = none })) ⊎ IsProxied key c

  cached_client-IsSound :
      (key : Text) (c : HttpClient) (cache : ClientCache)
      → All (λ e. IsSound e.0 e.1) cache
      → cached_client key cache ≡ some c
      → IsSound key c
  unfolding cached_client
  cached_client-IsSound key c [] h e = absurd (ground arith)
  cached_client-IsSound key c ((k, d) ∷ rest) h e = elim (Bool-cases (text_eq k key)) [
    | inl t ↦
        let same : k ≡ key = (text_eq_iff k key).0 t in
        let found : d ≡ c = ground arith in
        subst (λ d. IsSound key d) found (subst (λ k. IsSound k d) same h.0)
    | inr t ↦ cached_client-IsSound key c rest h.1 (ground arith)
  ]

  Url-cases : (o : Option Url) → (o ≡ none) ⊎ ((u : Url) × (o ≡ some u))
  Url-cases none = inl refl
  Url-cases (some u) = inr (u, refl)

  module _ (p : Provider) where
    key_direct :
        (p.proxy_enabled ≡ false) ⊎ (is_empty (trim_space p.proxy_url) ≡ true)
        → relay_client_cache_key (some p) ≡ direct_key
    unfolding relay_client_cache_key
    key_direct h = ground arith

    key_of_url :
        p.proxy_enabled ≡ true
        → is_empty (trim_space p.proxy_url) ≡ false
        → relay_client_cache_key (some p) ≡ trim_space p.proxy_url
    unfolding relay_client_cache_key
    key_of_url e h = ground arith

    new_direct :
        p.proxy_enabled ≡ false
        → new_provider_http_client parse_url (some p) ≡ inr (record { proxy = none })
    unfolding new_provider_http_client validate_provider_proxy_config
    new_direct e = rw e refl

    new_blank :
        (c : HttpClient)
        → p.proxy_enabled ≡ true
        → is_empty (trim_space p.proxy_url) ≡ true
        → new_provider_http_client parse_url (some p) ≢ inr c
    unfolding new_provider_http_client validate_provider_proxy_config
    new_blank c e h = λ k. ground arith

    new_unparsed :
        (c : HttpClient)
        → p.proxy_enabled ≡ true
        → is_empty (trim_space p.proxy_url) ≡ false
        → parse_url (trim_space p.proxy_url) ≡ none
        → new_provider_http_client parse_url (some p) ≢ inr c
    unfolding new_provider_http_client validate_provider_proxy_config validate_parsed
    new_unparsed c e h k = λ m. ground arith

    new_proxied :
        (c : HttpClient) (u : Url)
        → p.proxy_enabled ≡ true
        → is_empty (trim_space p.proxy_url) ≡ false
        → parse_url (trim_space p.proxy_url) ≡ some u
        → (new_provider_http_client parse_url (some p) ≡ inr c) ↔ (
            (is_empty u.host ≡ false)
            × (is_empty u.scheme ≡ false)
            × (c ≡ record { proxy = some u }))
    unfolding new_provider_http_client validate_provider_proxy_config validate_parsed
        transport_proxy
    new_proxied c u e h k = (λ m. ground arith, λ m. ground arith)

    new_client-IsSound :
        (c : HttpClient)
        → new_provider_http_client parse_url (some p) ≡ inr c
        → IsSound (relay_client_cache_key (some p)) c
    new_client-IsSound c n = elim (Bool-cases p.proxy_enabled) [
      | inr e ↦ inl (key_direct (inl e), ground (arith, new_direct e))
      | inl e ↦ elim (Bool-cases (is_empty (trim_space p.proxy_url))) [
        | inl h ↦ absurd (new_blank c e h n)
        | inr h ↦ elim (Url-cases (parse_url (trim_space p.proxy_url))) [
          | inl k ↦ absurd (new_unparsed c e h k n)
          | inr (u, k) ↦
              let (host, scheme, made) = (new_proxied c u e h k).0 n in
              subst (λ key. IsSound key c) (sym (key_of_url e h))
                (inr (u, k, h, host, scheme, made))
        ]
      ]
    ]

  Client-cases : (o : Option HttpClient) → (o ≡ none) ⊎ ((c : HttpClient) × (o ≡ some c))
  Client-cases none = inl refl
  Client-cases (some c) = inr (c, refl)

  Made-cases :
      (o : ClientError ⊎ HttpClient)
      → ((e : ClientError) × (o ≡ inl e)) ⊎ ((c : HttpClient) × (o ≡ inr c))
  Made-cases (inl e) = inl (e, refl)
  Made-cases (inr c) = inr (c, refl)

  module _ (p : Option Provider) (cache : ClientCache) where
    get_from_cache :
        (c : HttpClient)
        → cached_client (relay_client_cache_key p) cache ≡ some c
        → get_relay_http_client parse_url p cache ≡ (inr c, cache)
    unfolding get_relay_http_client
    get_from_cache c h = ground arith

    get_failed :
        (e : ClientError)
        → cached_client (relay_client_cache_key p) cache ≡ none
        → new_provider_http_client parse_url p ≡ inl e
        → get_relay_http_client parse_url p cache ≡ (inl e, cache)
    unfolding get_relay_http_client
    get_failed e h k = ground arith

    get_made :
        (c : HttpClient)
        → cached_client (relay_client_cache_key p) cache ≡ none
        → new_provider_http_client parse_url p ≡ inr c
        → get_relay_http_client parse_url p cache ≡ (inr c, (relay_client_cache_key p, c) ∷ cache)
    unfolding get_relay_http_client
    get_made c h k = ground arith

    made_again :
        (q : Option Provider) (c : HttpClient)
        → new_provider_http_client parse_url q ≡ inr c
        → IsSound (relay_client_cache_key q) c
    unfolding relay_client_cache_key new_provider_http_client
    made_again none c e = inl (refl, ground (arith, e))
    made_again (some q) c e = new_client-IsSound q c e

    get-IsSound :
        All (λ e. IsSound e.0 e.1) cache
        → All (λ e. IsSound e.0 e.1) (get_relay_http_client parse_url p cache).1
    get-IsSound h = elim (Client-cases (cached_client (relay_client_cache_key p) cache)) [
      | inr (c, e) ↦ rw (get_from_cache c e) h
      | inl e ↦ elim (Made-cases (new_provider_http_client parse_url p)) [
        | inl (x, k) ↦ rw (get_failed x e k) h
        | inr (c, k) ↦ rw (get_made c e k) (made_again p c k, h)
      ]
    ]

  cache_after-IsSound :
      (requests : List (Option Provider)) → All (λ e. IsSound e.0 e.1) (cache_after requests)
  unfolding cache_after
  cache_after-IsSound [] = tt
  cache_after-IsSound (p ∷ earlier) =
      get-IsSound p (cache_after earlier) (cache_after-IsSound earlier)

  -- url.Parse finds no host in the key of direct clients.
  module _ (no_host : (u : Url) → parse_url direct_key ≡ some u → is_empty u.host ≡ true) where
    elsewhere_key : (c : HttpClient) (key : Text) → key ≡ direct_key → ¬ IsProxied key c
    elsewhere_key c key e (u, k, h, host, scheme, made) =
        let none_there : is_empty u.host ≡ true = no_host u (ap parse_url (sym e) ∙ k) in cc

    module _ (p : Provider)
        (proper : (p.proxy_enabled ≡ false)
          ⊎ (text_eq (relay_client_cache_key (some p)) direct_key ≡ false)) where
      new_of_sound :
          (c : HttpClient)
          → IsSound (relay_client_cache_key (some p)) c
          → new_provider_http_client parse_url (some p) ≡ inr c
      new_of_sound c s = elim (Bool-cases p.proxy_enabled) [
        | inr e ↦ elim s [
          | inl (k, d) ↦ new_direct p e ∙ ap inr (sym d)
          | inr d ↦ absurd (elsewhere_key c _ (key_direct p (inl e)) d)
        ]
        | inl e ↦
            let other : text_eq (relay_client_cache_key (some p)) direct_key ≡ false =
              ground arith in
            elim s [
              | inl (k, d) ↦ absurd (distinct other k)
              | inr d ↦ elim (Bool-cases (is_empty (trim_space p.proxy_url))) [
                | inl h ↦ absurd (distinct other (key_direct p (inr h)))
                | inr h ↦
                    let (u, k, x, host, scheme, made) =
                      subst (λ key. IsProxied key c) (key_of_url p e h) d in
                    (new_proxied p c u e h k).1 (host, scheme, made)
              ]
            ]
      ]
        where
          distinct :
              text_eq (relay_client_cache_key (some p)) direct_key ≡ false
              → relay_client_cache_key (some p) ≢ direct_key
          distinct other k =
              let same = (text_eq_iff (relay_client_cache_key (some p)) direct_key).1 k in cc

      -- After any calls, a provider gets the client that would be made for it afresh, or the same
      -- error, if it uses no proxy or its trimmed proxy address is neither empty nor `direct`.
      pub get_relay_http_client-fresh :
          (requests : List (Option Provider))
          → (get_relay_http_client parse_url (some p) (cache_after requests)).0
            ≡ new_provider_http_client parse_url (some p)
      get_relay_http_client-fresh requests =
          let cache = cache_after requests in
          elim (Client-cases (cached_client (relay_client_cache_key (some p)) cache)) [
            | inr (c, e) ↦ rw (get_from_cache (some p) cache c e) (
                sym (
                  new_of_sound c
                    (cached_client-IsSound _ c cache (cache_after-IsSound requests) e)))
            | inl e ↦ elim (Made-cases (new_provider_http_client parse_url (some p))) [
              | inl (x, k) ↦ rw (get_failed (some p) cache x e k) (sym k)
              | inr (c, k) ↦ rw (get_made (some p) cache c e k) (sym k)
            ]
          ]
