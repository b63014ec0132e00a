-- ===== src/Routing/Division.antt =====
-- The shape of a plan: groups for descending priorities, and what weighing and grouping keep.
use new_api_gateway.Prelude.{
  ℤ, Bool, List, [], ◌∷◌, ◌++◌, map, ◌≡◌, refl, Bool-cases, inl, inr, ap, All,
}
use new_api_gateway.Floats.{Floats}
use new_api_gateway.Options.Tuning.{TuningConfig}
use new_api_gateway.Token.Rows.{ProviderToken}
use new_api_gateway.Provider.Rows.{Provider}
use new_api_gateway.Routing.Rows.{ModelRoute, RouteMetrics, RouteAttempt}
use new_api_gateway.Routing.Groups.{Covered}
use new_api_gateway.Routing.Sound.{keep}
use new_api_gateway.Routing.Plan.{with_contribution}

abbrev pub concat {ℓ} : {A : Type ℓ} → List (List A) → List A
concat [] = []
concat (g ∷ gs) = g ++ concat gs

-- The groups of a plan for a list of priorities: at most one group for each, in their order, none
-- of them empty, and each element as `P` says for its priority.
pub data GroupsOf {A : Type 0} (P : ℤ → A → Type 0) : List ℤ → List (List A) → Type 0 where
  done : GroupsOf P [] []
  skipped : (k : ℤ) {ks : List ℤ} {gs : List (List A)} → GroupsOf P ks gs → GroupsOf P (k ∷ ks) gs
  grouped :
      (k : ℤ) (a : A) (others : List A) {ks : List ℤ} {gs : List (List A)}
      → All (P k) (a ∷ others)
      → GroupsOf P ks gs
      → GroupsOf P (k ∷ ks) ((a ∷ others) ∷ gs)

pub map-append {ℓ κ} :
    {A : Type ℓ} {B : Type κ} (g : A → B) (xs ys : List A) → map g (xs ++ ys) ≡ map g xs ++ map g ys
map-append g [] ys = refl
map-append g (x ∷ xs) ys = ap (λ zs. g x ∷ zs) (map-append g xs ys)

pub Covered-keep :
    (u : ModelRoute → Bool) (ks : List ℤ) (rs : List ModelRoute)
    → Covered ks rs
    → Covered ks (keep u rs)
Covered-keep u ks [] c = tt
Covered-keep u ks (r ∷ rs) c = elim (Bool-cases (u r)) [
  | inl e ↦ rw e (c.0, Covered-keep u ks rs c.1)
  | inr e ↦ rw e (Covered-keep u ks rs c.1)
]

module _ (f : Floats) (config : TuningConfig f) (metrics : List (ℤ × RouteMetrics f))
    (best : f.F) where
  -- Weighing changes neither the route, the provider nor the token of an attempt.
  pub with_contribution-routes :
      (xs : List (RouteAttempt f))
      → map (λ a. a.route) (map (with_contribution f config metrics best) xs)
        ≡ map (λ a. a.route) xs
  unfolding with_contribution
  with_contribution-routes [] = refl
  with_contribution-routes (a ∷ xs) = ap (λ rs. a.route ∷ rs) (with_contribution-routes xs)

  pub with_contribution-All :
      (P : ModelRoute → Provider → ProviderToken → Type 0) (xs : List (RouteAttempt f))
      → All (λ a. P a.route a.provider a.token) xs
      → All (λ a. P a.route a.provider a.token) (map (with_contribution f config metrics best) xs)
  unfolding with_contribution
  with_contribution-All P [] h = tt
  with_contribution-All P (a ∷ xs) h = (h.0, with_contribution-All P xs h.1)
