-- ===== src/Provider/Client.antt =====
-- service/provider_http.go: the HTTP clients of the relay and their cache. `connect` is http.Client
-- for a proxy, `none` for none.
use new_api_gateway.Prelude.{
  Text, codes, text_eq, is_empty, trim_space, not, ◌||◌, Option, none, some, if◌then◌else◌, List,
  [], ◌∷◌, ◌⊎◌, inl, inr,
}
use new_api_gateway.Provider.Rows.{Provider}
use new_api_gateway.Provider.ProxyConfig.{Url, ProxyConfigError, validate_provider_proxy_config}

-- The errors of buildProviderTransport.
pub data ClientError : Type 0 where
  bad_config : ProxyConfigError → ClientError
  invalid_proxy : ClientError

-- What a client is made of: the proxy of its transport, if any.
pub record HttpClient : Type 0 where
  pub proxy : Option Url

abbrev pub direct_key : Text
direct_key = codes "direct"

-- relayHTTPClientCache.clients, with each key once.
abbrev pub ClientCache : Type 0
ClientCache = List (Text × HttpClient)

unfoldable pub cached_client : Text → ClientCache → Option HttpClient
cached_client key [] = none
cached_client key ((k, c) ∷ rest) =
    let later = cached_client key rest in if text_eq k key then some c else later

unfoldable pub relay_client_cache_key : Option Provider → Text
relay_client_cache_key none = direct_key
relay_client_cache_key (some p) =
    if not p.proxy_enabled || is_empty (trim_space p.proxy_url)
    then direct_key
    else trim_space p.proxy_url

module _ (parse_url : Text → Option Url) where
  unfoldable pub transport_proxy : Option Url → ClientError ⊎ HttpClient
  transport_proxy none = inl invalid_proxy
  transport_proxy (some u) =
      if is_empty u.host || is_empty u.scheme
      then inl invalid_proxy
      else inr (record { proxy = some u })

  -- NewProviderHTTPClient, with buildProviderTransport.
  unfoldable pub new_provider_http_client : Option Provider → ClientError ⊎ HttpClient
  new_provider_http_client none = inr (record { proxy = none })
  new_provider_http_client (some p) =
      elim (validate_provider_proxy_config parse_url p.proxy_enabled p.proxy_url) [
        | some e ↦ inl (bad_config e)
        | none ↦
            if not p.proxy_enabled
            then inr (record { proxy = none })
            else transport_proxy (parse_url (trim_space p.proxy_url))
      ]

  -- The client for a provider, and the cache after the call.
  unfoldable pub get_relay_http_client :
      Option Provider → ClientCache → (ClientError ⊎ HttpClient) × ClientCache
  get_relay_http_client provider cache =
      let key = relay_client_cache_key provider in
      elim (cached_client key cache) [
        | some c ↦ (inr c, cache)
        | none ↦ elim (new_provider_http_client provider) [
          | inl e ↦ (inl e, cache)
          | inr c ↦ (inr c, (key, c) ∷ cache)
        ]
      ]
