-- ===== src/Routing/Shuffle.antt =====
-- model/model_route.go: weightedShuffleAttempts. The random numbers are a parameter: `real n` and
-- `below n` are the numbers that rand.Float64() and rand.Intn(n) give while n attempts are left.
use new_api_gateway.Prelude.{
  ℕ, zero, suc, ◌<◌, Option, none, some, if◌then◌else◌, List, [], ◌∷◌, length,
}
use new_api_gateway.Floats.{Floats}
use new_api_gateway.Routing.Rows.{RouteAttempt}

pub record Random (f : Floats) : Type 0 where
  pub real : ℕ → f.F
  pub below : ℕ → ℕ

-- rand.Intn(n) lies below n.
pub record RandomLaws {f : Floats} (r : Random f) : Type 0 where
  pub below_lt : (n : ℕ) → 0 < n → r.below n < n

-- pool[i], and the pool without it; `none` is the panic on an index out of range.
unfoldable pub take_at {ℓ} : {A : Type ℓ} → ℕ → List A → Option (A × List A)
take_at i [] = none
take_at zero (x ∷ xs) = some (x, xs)
take_at (suc i) (x ∷ xs) = elim (take_at i xs) [ none ↦ none | some (y, ys) ↦ some (y, x ∷ ys) ]

module _ (f : Floats) where
  open f use {F, decimal, add, mul, lt, le}

  -- The sum of the positive contributions, from the left.
  unfoldable pub total_weight : F → List (RouteAttempt f) → F
  total_weight total [] = total
  total_weight total (a ∷ others) =
      total_weight (if lt (decimal 0 0) a.contribution then add total a.contribution else total)
        others

  -- The index of the first attempt at which the running sum reaches `pick`; 0 if there is none.
  unfoldable pub pick_index : F → F → ℕ → List (RouteAttempt f) → ℕ
  pick_index pick acc i [] = 0
  pick_index pick acc i (a ∷ others) =
      let weight = if lt a.contribution (decimal 0 0) then decimal 0 0 else a.contribution in
      let rest = pick_index pick (add acc weight) (suc i) others in
      if le pick (add acc weight) then i else rest

  module _ (r : Random f) where
    unfoldable pub select_index : List (RouteAttempt f) → ℕ
    unfolding total_weight pick_index
    select_index pool =
        let total = total_weight (decimal 0 0) pool in
        if lt (decimal 0 0) total
        then pick_index (mul (r.real (length pool)) total) (decimal 0 0) 0 pool
        else r.below (length pool)

    -- The loop, on fuel: `none` is a panic, or that the fuel is gone.
    unfoldable pub shuffle_loop : ℕ → List (RouteAttempt f) → Option (List (RouteAttempt f))
    shuffle_loop fuel [] = some []
    shuffle_loop zero (a ∷ others) = none
    shuffle_loop (suc fuel) (a ∷ others) = elim (take_at (select_index (a ∷ others)) (a ∷ others)) [
      | none ↦ none
      | some (chosen, rest) ↦ elim (shuffle_loop fuel rest) [
        | none ↦ none
        | some ordered ↦ some (chosen ∷ ordered)
      ]
    ]

    unfoldable pub weighted_shuffle : List (RouteAttempt f) → Option (List (RouteAttempt f))
    unfolding shuffle_loop
    weighted_shuffle attempts = shuffle_loop (length attempts) attempts
