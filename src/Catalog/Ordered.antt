-- ===== src/Catalog/Ordered.antt =====
-- model/model_route_cache.go: what the candidates' map and its sorted values hold.
use new_api_gateway.Prelude.{
  ℤ, eqbℤ, true, Bool-cases, if-true, if-false, List, [], ◌∷◌, ◌≡◌, ◌↔◌, refl, ap, ◌∙◌, ◌⊎◌, inl,
  inr,
}
use new_api_gateway.Routing.Rows.{ModelRoute}
use new_api_gateway.Catalog.Membership.{IsIn}
use new_api_gateway.Catalog.Snapshot.{
  routes_of_provider, put_route, append_candidates, candidate_before, insert_candidate,
  sort_candidates,
}

module _ (r : ModelRoute) where
  pub routes_of_provider_iff :
      (id : ℤ) (rs : List ModelRoute)
      → IsIn r (routes_of_provider id rs) ↔ (IsIn r rs × (eqbℤ r.provider_id id ≡ true))
  unfolding routes_of_provider
  routes_of_provider_iff id [] = (λ h. absurd h, λ h. absurd h.0)
  routes_of_provider_iff id (x ∷ rs) =
      let (to, from) = routes_of_provider_iff id rs in
      let P : List ModelRoute → Type 0 =
        λ ys. IsIn r ys ↔ (IsIn r (x ∷ rs) × (eqbℤ r.provider_id id ≡ true)) in
      elim (Bool-cases (eqbℤ x.provider_id id)) [
        | inl e ↦ if-true P _ _ e (
          λ h. elim h [
            | inl is ↦ (inl is, ap (λ y. eqbℤ y.provider_id id) is ∙ e)
            | inr rest ↦ let (there, same) = to rest in (inr there, same)
          ],
          λ h. elim h.0 [ inl is ↦ inl is | inr there ↦ inr (from (there, h.1)) ],
        )
        | inr e ↦ if-false P _ _ e (
          λ h. let (there, same) = to h in (inr there, same),
          λ h. elim h.0 [
            | inl is ↦ absurd (let other = ap (λ y. eqbℤ y.provider_id id) is ∙ e in cc)
            | inr there ↦ from (there, h.1)
          ],
        )
      ]

  pub insert_candidate_iff :
      (x : ModelRoute) (rs : List ModelRoute)
      → IsIn r (insert_candidate x rs) ↔ ((r ≡ x) ⊎ IsIn r rs)
  unfolding insert_candidate
  insert_candidate_iff x [] = (λ h. h, λ h. h)
  insert_candidate_iff x (y ∷ rs) =
      let (to, from) = insert_candidate_iff x rs in
      let P : List ModelRoute → Type 0 = λ ys. IsIn r ys ↔ ((r ≡ x) ⊎ IsIn r (y ∷ rs)) in
      elim (Bool-cases (candidate_before y x)) [
        | inr e ↦ if-false P _ _ e (λ h. h, λ h. h)
        | inl e ↦ if-true P _ _ e (
          λ h. elim h [
            | inl is ↦ inr (inl is)
            | inr rest ↦ elim (to rest) [ inl is ↦ inl is | inr there ↦ inr (inr there) ]
          ],
          λ h. elim h [
            | inl is ↦ inr (from (inl is))
            | inr (inl is) ↦ inl is
            | inr (inr there) ↦ inr (from (inr there))
          ],
        )
      ]

  pub sort_candidates_iff : (rs : List ModelRoute) → IsIn r (sort_candidates rs) ↔ IsIn r rs
  unfolding sort_candidates
  sort_candidates_iff [] = (λ h. h, λ h. h)
  sort_candidates_iff (x ∷ rs) =
      let (to, from) = sort_candidates_iff rs in
      let (in_, out) = insert_candidate_iff x (sort_candidates rs) in
      (
        λ h. elim (in_ h) [ inl is ↦ inl is | inr there ↦ inr (to there) ],
        λ h. elim h [ inl is ↦ out (inl is) | inr there ↦ out (inr (from there)) ],
      )

-- Routes of one id are one route.
abbrev pub HaveIds : List ModelRoute → Type 0
HaveIds routes = (x y : ModelRoute) → IsIn x routes → IsIn y routes → eqbℤ x.id y.id ≡ true → x ≡ y

abbrev AreOf : List ModelRoute → List ModelRoute → Type 0
AreOf routes rs = (y : ModelRoute) → IsIn y rs → IsIn y routes

module _ (routes : List ModelRoute) (ids : HaveIds routes) (r : ModelRoute) where
  put_route_iff :
      (x : ModelRoute) (m : List ModelRoute)
      → IsIn x routes
      → AreOf routes m
      → IsIn r (put_route x m) ↔ ((r ≡ x) ⊎ IsIn r m)
  unfolding put_route
  put_route_iff x [] h k = (λ h. h, λ h. h)
  put_route_iff x (y ∷ m) h k =
      let (to, from) = put_route_iff x m h (λ z there. k z (inr there)) in
      let P : List ModelRoute → Type 0 = λ ys. IsIn r ys ↔ ((r ≡ x) ⊎ IsIn r (y ∷ m)) in
      elim (Bool-cases (eqbℤ y.id x.id)) [
        | inl e ↦
            let same : y ≡ x = ids y x (k y (inl refl)) h e in
            if-true P _ _ e (
              λ h. elim h [ inl is ↦ inl is | inr there ↦ inr (inr there) ],
              λ h. elim h [
                | inl is ↦ inl is
                | inr (inl is) ↦ inl (is ∙ same)
                | inr (inr there) ↦ inr there
              ],
            )
        | inr e ↦ if-false P _ _ e (
          λ h. elim h [
            | inl is ↦ inr (inl is)
            | inr rest ↦ elim (to rest) [ inl is ↦ inl is | inr there ↦ inr (inr there) ]
          ],
          λ h. elim h [
            | inl is ↦ inr (from (inl is))
            | inr (inl is) ↦ inl is
            | inr (inr there) ↦ inr (from (inr there))
          ],
        )
      ]

module _ (routes : List ModelRoute) (ids : HaveIds routes) where
  pub append_candidates_iff :
      (r : ModelRoute) (rs m : List ModelRoute)
      → AreOf routes rs
      → AreOf routes m
      → IsIn r (append_candidates rs m) ↔ (IsIn r rs ⊎ IsIn r m)
  unfolding append_candidates
  append_candidates_iff r [] m h k = (λ x. inr x, λ x. elim x [ inl n ↦ absurd n | inr y ↦ y ])
  append_candidates_iff r (x ∷ rs) m h k =
      let put : (z : ModelRoute) → IsIn z (put_route x m) ↔ ((z ≡ x) ⊎ IsIn z m) =
        λ z. put_route_iff routes ids z x m (h x (inl refl)) k in
      let (to, from) =
        append_candidates_iff r rs (put_route x m) (λ z there. h z (inr there))
          (λ z there. elim ((put z).0 there) [ inl is ↦ h z (inl is) | inr old ↦ k z old ]) in
      (
        λ a. elim (to a) [
          | inl there ↦ inl (inr there)
          | inr b ↦ elim ((put r).0 b) [ inl is ↦ inl (inl is) | inr old ↦ inr old ]
        ],
        λ a. elim a [
          | inl (inl is) ↦ from (inr ((put r).1 (inl is)))
          | inl (inr there) ↦ from (inl there)
          | inr old ↦ from (inr ((put r).1 (inr old)))
        ],
      )
