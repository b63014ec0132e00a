-- ===== src/Sync/Derived.antt =====
-- service/sync.go: which routes are derived from the tokens and prices of a provider.
use new_api_gateway.Prelude.{
  ℤ, eqbℤ, Text, text_eq, text_eq_iff, true, not, ◌&&◌, Bool-cases, if-true, if-false, List, [],
  ◌∷◌, ◌≡◌, ◌↔◌, refl, sym, ap, ◌∙◌, subst, arith, ◌⊎◌, inl, inr,
}
use new_api_gateway.Token.Rows.{ProviderToken}
use new_api_gateway.Routing.Rows.{ModelRoute}
use new_api_gateway.Catalog.Membership.{IsIn, IsIn-append_iff}
use new_api_gateway.Sync.Routes.{
  PriceGroups, group_models, passes_limits, route_of, in_route_set, add_model, add_models,
  add_tokens, provider_routes,
}

abbrev pub IsNameIn : Text → List Text → Type 0
IsNameIn t [] = ⊥
IsNameIn t (x ∷ xs) = (t ≡ x) ⊎ IsNameIn t xs

abbrev pub IsTokenIn : ProviderToken → List ProviderToken → Type 0
IsTokenIn t [] = ⊥
IsTokenIn t (x ∷ xs) = (t ≡ x) ⊎ IsTokenIn t xs

-- Tokens of one id are one token.
abbrev pub HaveIds : List ProviderToken → Type 0
HaveIds tokens =
    (t u : ProviderToken) → IsTokenIn t tokens → IsTokenIn u tokens → eqbℤ t.id u.id ≡ true → t ≡ u

-- A route in the set has the token and the model.
in_route_set-IsIn :
    (token_id : ℤ) (name : Text) (routes : List ModelRoute)
    → in_route_set token_id name routes ≡ true
    → (x : ModelRoute) × IsIn x routes
      × (eqbℤ x.provider_token_id token_id ≡ true)
      × (x.model_name ≡ name)
unfolding in_route_set
in_route_set-IsIn token_id name [] h = absurd cc
in_route_set-IsIn token_id name (y ∷ routes) h =
    elim (Bool-cases (eqbℤ y.provider_token_id token_id && text_eq y.model_name name)) [
      | inl e ↦
          (y, inl refl, ground (arith, e), (text_eq_iff y.model_name name).0 (ground (arith, e)))
      | inr e ↦
          let (x, there, same, named) =
            in_route_set-IsIn token_id name routes (ground (arith, h)) in
          (x, inr there, same, named)
    ]

module _ (provider_id : ℤ) where
  abbrev pub IsRouteOf : List ProviderToken → ModelRoute → Type 0
  IsRouteOf tokens x =
      (t : ProviderToken) × (name : Text) × IsTokenIn t tokens × (x ≡ route_of provider_id t name)

  abbrev AreRoutes : List ProviderToken → List ModelRoute → Type 0
  AreRoutes tokens routes = (x : ModelRoute) → IsIn x routes → IsRouteOf tokens x

  module _ (r : ModelRoute) where
    -- The route of a token for a model that the limits of the token let pass.
    abbrev pub IsRouteFor : ProviderToken → Text → Type 0
    IsRouteFor t name =
        (passes_limits t.model_limits name ≡ true) × (r ≡ route_of provider_id t name)

    add_model_iff :
        (tokens : List ProviderToken) (t : ProviderToken) (name : Text) (routes : List ModelRoute)
        → HaveIds tokens
        → IsTokenIn t tokens
        → AreRoutes tokens routes
        → IsIn r (add_model provider_id t name routes) ↔ (IsRouteFor t name ⊎ IsIn r routes)
    unfolding add_model route_of
    add_model_iff tokens t name routes ids known made =
        let P : List ModelRoute → Type 0 = λ ys. IsIn r ys ↔ (IsRouteFor t name ⊎ IsIn r routes) in
        elim (Bool-cases (passes_limits t.model_limits name)) [
          | inr e ↦
              if-true P _ _ (ap not e)
                (λ h. inr h, λ h. elim h [ inl (passed, _) ↦ absurd cc | inr there ↦ there ])
          | inl e ↦ if-false P _ _ (ap not e) (elim (Bool-cases (in_route_set t.id name routes)) [
            | inr k ↦ if-false P _ _ k (
              λ h. elim ((IsIn-append_iff r routes (route_of provider_id t name ∷ [])).0 h) [
                | inl there ↦ inr there
                | inr (inl is) ↦ inl (e, is)
                | inr (inr out_) ↦ absurd out_
              ],
              λ h.
                  (IsIn-append_iff r routes (route_of provider_id t name ∷ [])).1
                    (elim h [ inl (_, is) ↦ inr (inl is) | inr there ↦ inl there ]),
            )
            | inl k ↦
                let (x, there, same, named) = in_route_set-IsIn t.id name routes k in
                let (u, n, inside, is) = made x there in
                let token : u ≡ t =
                  ids u t inside known (ap (λ y. eqbℤ y.provider_token_id t.id) (sym is) ∙ same) in
                let model : n ≡ name = ap (λ y. y.model_name) (sym is) ∙ named in
                if-true P _ _ k (
                  λ h. inr h,
                  λ h. elim h [
                    | inl (_, kind) ↦
                        let whole : x ≡ route_of provider_id t name =
                          is
                          ∙ (ap (λ y. route_of provider_id y n) token
                              ∙ ap (λ m. route_of provider_id t m) model) in
                        subst (λ y. IsIn y routes) (whole ∙ sym kind) there
                    | inr old ↦ old
                  ],
                )
          ])
        ]

  -- What is derived from some names of a token, and from some tokens.
  abbrev IsFrom : ModelRoute → ProviderToken → List Text → Type 0
  IsFrom r t names = (name : Text) × IsNameIn name names × IsRouteFor r t name

  module _ (tokens : List ProviderToken) (ids : HaveIds tokens) where
    add_models_iff :
        (t : ProviderToken) (names : List Text) (routes : List ModelRoute)
        → IsTokenIn t tokens
        → AreRoutes tokens routes
        → (r : ModelRoute)
        → IsIn r (add_models provider_id t names routes) ↔ (IsFrom r t names ⊎ IsIn r routes)
    unfolding add_models
    add_models_iff t [] routes known made r =
        (λ h. inr h, λ h. elim h [ inl (n, out_, k) ↦ absurd out_ | inr there ↦ there ])
    add_models_iff t (name ∷ names) routes known made r =
        let step : (x : ModelRoute)
            → IsIn x (add_model provider_id t name routes) ↔ (IsRouteFor x t name ⊎ IsIn x routes) =
          λ x. add_model_iff x tokens t name routes ids known made in
        let (to, from) =
          add_models_iff t names (add_model provider_id t name routes) known
            (λ x h. elim ((step x).0 h) [
              | inl (_, is) ↦ (t, name, known, is)
              | inr old ↦ made x old
            ])
            r in
        (
          λ h. elim (to h) [
            | inl (n, inside, kind) ↦ inl (n, inr inside, kind)
            | inr h ↦ elim ((step r).0 h) [
              | inl kind ↦ inl (name, inl refl, kind)
              | inr old ↦ inr old
            ]
          ],
          λ h. elim h [
            | inl (n, inl is, kind) ↦ from (inr ((step r).1 (inl (subst (IsRouteFor r t) is kind))))
            | inl (n, inr inside, kind) ↦ from (inl (n, inside, kind))
            | inr old ↦ from (inr ((step r).1 (inr old)))
          ],
        )

    module _ (prices : List PriceGroups) where
      abbrev pub IsDerived : List ProviderToken → ModelRoute → Type 0
      IsDerived ts r =
          (t : ProviderToken) × (name : Text) × IsTokenIn t ts
          × IsNameIn name (group_models t.group_name prices)
          × (passes_limits t.model_limits name ≡ true)
          × (r ≡ route_of provider_id t name)

      add_tokens_iff :
          (ts : List ProviderToken) (routes : List ModelRoute)
          → ((t : ProviderToken) → IsTokenIn t ts → IsTokenIn t tokens)
          → AreRoutes tokens routes
          → (r : ModelRoute)
          → IsIn r (add_tokens provider_id prices ts routes) ↔ (IsDerived ts r ⊎ IsIn r routes)
      unfolding add_tokens
      add_tokens_iff [] routes known made r = (
        λ h. inr h,
        λ h. elim h [ inl (t, n, out_, listed, passed, is) ↦ absurd out_ | inr there ↦ there ],
      )
      add_tokens_iff (t ∷ ts) routes known made r =
          let names = group_models t.group_name prices in
          let step : (x : ModelRoute)
              → IsIn x (add_models provider_id t names routes)
                ↔ (IsFrom x t names ⊎ IsIn x routes) =
            λ x. add_models_iff t names routes (known t (inl refl)) made x in
          let (to, from) =
            add_tokens_iff ts (add_models provider_id t names routes)
              (λ u inside. known u (inr inside))
              (λ x h. elim ((step x).0 h) [
                | inl (n, inside, (passed, is)) ↦ (t, n, known t (inl refl), is)
                | inr old ↦ made x old
              ])
              r in
          (
            λ h. elim (to h) [
              | inl (u, n, inside, listed, passed, is) ↦ inl (u, n, inr inside, listed, passed, is)
              | inr h ↦ elim ((step r).0 h) [
                | inl (n, listed, (passed, is)) ↦ inl (t, n, inl refl, listed, passed, is)
                | inr old ↦ inr old
              ]
            ],
            λ h. elim h [
              | inl (u, n, inl same, listed, passed, is) ↦ from (
                  inr (
                    (step r).1 (
                      inl (
                        n,
                        subst (λ v. IsNameIn n (group_models v.group_name prices)) same listed,
                        (
                          subst (λ v. passes_limits v.model_limits n ≡ true) same passed,
                          is ∙ ap (λ v. route_of provider_id v n) same,
                        ),
                      ))))
              | inl (u, n, inr inside, listed, passed, is) ↦
                  from (inl (u, n, inside, listed, passed, is))
              | inr old ↦ from (inr ((step r).1 (inr old)))
            ],
          )

      -- A route is derived exactly when it is the route of an enabled token for a model that a price
      -- enables for the token's group and that the token's limits let pass.
      pub provider_routes_iff :
          (r : ModelRoute) → IsIn r (provider_routes provider_id tokens prices) ↔ IsDerived tokens r
      unfolding provider_routes
      provider_routes_iff r =
          let (to, from) = add_tokens_iff tokens [] (λ t inside. inside) (λ x h. absurd h) r in
          (λ h. elim (to h) [ inl derived ↦ derived | inr out_ ↦ absurd out_ ], λ h. from (inl h))
