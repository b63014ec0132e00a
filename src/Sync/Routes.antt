-- ===== src/Sync/Routes.antt =====
-- service/sync.go: the routes that RebuildProviderRoutes derives from the enabled tokens and the
-- prices of a provider. A price's groups are json.Unmarshal of its column, with `none` for an error.
-- The key that a route is counted once by is kept as the pair that it prints.
use new_api_gateway.Prelude.{
  ℕ, ℤ, pos, eqbℤ, Text, text_eq, is_empty, trim_space, split_on, any, Bool, true, false, not, ◌&&◌,
  ◌||◌, Option, none, some, if◌then◌else◌, List, [], ◌∷◌, ◌++◌,
}
use new_api_gateway.Token.Rows.{ProviderToken}
use new_api_gateway.Routing.Rows.{ModelRoute}

-- The columns of a price that are read.
pub record PriceGroups : Type 0 where
  pub model_name : Text
  pub groups : Option (List Text)

abbrev comma : ℕ
comma = 44

unfoldable pub models_for : Text → Text → List Text → List Text
models_for group name [] = []
models_for group name (g ∷ gs) =
    let rest = models_for group name gs in if text_eq g group then name ∷ rest else rest

-- groupModels at a group: the models of the prices that list it, once for each time.
unfoldable pub group_models : Text → List PriceGroups → List Text
group_models group [] = []
group_models group (p ∷ ps) =
    let rest = group_models group ps in
    elim p.groups [ none ↦ rest | some gs ↦ models_for group p.model_name gs ++ rest ]

-- Whether a token's limits let a model pass.
unfoldable pub passes_limits : Text → Text → Bool
passes_limits limits name =
    is_empty limits || any (λ m. text_eq (trim_space m) name) (split_on comma limits)

unfoldable pub route_of : ℤ → ProviderToken → Text → ModelRoute
route_of provider_id t name = record {
  id = pos 0;
  model_name = name;
  provider_token_id = t.id;
  provider_id = provider_id;
  enabled = true;
  priority = t.priority;
  weight = t.weight;
}

-- Whether a route for a token and a model is there.
unfoldable pub in_route_set : ℤ → Text → List ModelRoute → Bool
in_route_set token_id name [] = false
in_route_set token_id name (r ∷ rs) =
    (eqbℤ r.provider_token_id token_id && text_eq r.model_name name)
    || in_route_set token_id name rs

unfoldable pub add_model : ℤ → ProviderToken → Text → List ModelRoute → List ModelRoute
add_model provider_id t name routes =
    if not (passes_limits t.model_limits name)
    then routes
    else if in_route_set t.id name routes
    then routes
    else routes ++ (route_of provider_id t name ∷ [])

unfoldable pub add_models : ℤ → ProviderToken → List Text → List ModelRoute → List ModelRoute
add_models provider_id t [] routes = routes
add_models provider_id t (name ∷ names) routes =
    add_models provider_id t names (add_model provider_id t name routes)

unfoldable pub add_tokens :
    ℤ → List PriceGroups → List ProviderToken → List ModelRoute → List ModelRoute
add_tokens provider_id prices [] routes = routes
add_tokens provider_id prices (t ∷ ts) routes =
    add_tokens provider_id prices ts
      (add_models provider_id t (group_models t.group_name prices) routes)

unfoldable pub provider_routes : ℤ → List ProviderToken → List PriceGroups → List ModelRoute
provider_routes provider_id tokens prices = add_tokens provider_id prices tokens []
