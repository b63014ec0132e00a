-- ===== src/Routing/Shuffled.antt =====
-- weightedShuffleAttempts always ends, never reads out of range, and returns its attempts in another
-- order.
use mathlib.Core.List.{Perm}
use mathlib.Core.List.Perm
use new_api_gateway.Prelude.{
  ℕ, zero, suc, ◌+◌, ◌<◌, ◌≤◌, some, if◌then◌else◌, List, [], ◌∷◌, length, All, ◌≡◌, refl, arith,
  Bool-cases, ◌⊎◌, inl, inr, ap,
}
use new_api_gateway.Floats.{Floats}
use new_api_gateway.Routing.Rows.{RouteAttempt}
use new_api_gateway.Routing.Shuffle.{
  Random, RandomLaws, take_at, pick_index, total_weight, select_index, shuffle_loop,
  weighted_shuffle,
}

module _ {ℓ κ} {A : Type ℓ} (P : A → Type κ) where
  -- Within range, `take_at` splits the list into an element and the others.
  take_at_lem :
      (i : ℕ) (xs : List A)
      → i < length xs
      → (x : A) × (ys : List A) × (take_at i xs ≡ some (x, ys))
        × Perm xs (x ∷ ys)
        × (length xs ≡ suc (length ys))
        × (All P xs → P x × All P ys)
  unfolding take_at
  take_at_lem i [] h = absurd (omega arith)
  take_at_lem zero (x ∷ xs) h = (x, xs, refl, Perm.refl (x ∷ xs), refl, λ a. a)
  take_at_lem (suc i) (x ∷ xs) h =
      let (y, ys, e, p, l, k) = take_at_lem i xs (omega arith) in
      (
        y,
        x ∷ ys,
        rw e,
        Perm.trans (Perm.cons x p) (Perm.swap y x ys),
        ap suc l,
        λ a. ((k a.1).0, (a.0, (k a.1).1)),
      )

module _ (f : Floats) (r : Random f) where
  pick_index_bound :
      (pick acc : f.F) (i : ℕ) (pool : List (RouteAttempt f))
      → (pick_index f pick acc i pool ≡ 0) ⊎ (pick_index f pick acc i pool < i + length pool)
  unfolding pick_index
  pick_index_bound pick acc i [] = inl refl
  pick_index_bound pick acc i (a ∷ others) = ground (
    arith,
    pick_index_bound pick
        (f.add acc (if f.lt a.contribution (f.decimal 0 0) then f.decimal 0 0 else a.contribution))
        (suc i) others,
  )

  module _ (laws : RandomLaws r) where
    select_index-lt :
        (pool : List (RouteAttempt f)) → 0 < length pool → select_index f r pool < length pool
    unfolding select_index
    select_index-lt pool h =
        elim (Bool-cases (f.lt (f.decimal 0 0) (total_weight f (f.decimal 0 0) pool))) [
          | inl e ↦ rw e (
              ground (
                arith,
                pick_index_bound
                    (f.mul (r.real (length pool)) (total_weight f (f.decimal 0 0) pool))
                    (f.decimal 0 0) 0 pool,
              ))
          | inr e ↦ rw e (laws.below_lt (length pool) h)
        ]

    shuffle_step :
        (fuel : ℕ) (a : RouteAttempt f) (others : List (RouteAttempt f)) {x : RouteAttempt f}
        {rest ordered : List (RouteAttempt f)}
        → take_at (select_index f r (a ∷ others)) (a ∷ others) ≡ some (x, rest)
        → shuffle_loop f r fuel rest ≡ some ordered
        → shuffle_loop f r (suc fuel) (a ∷ others) ≡ some (x ∷ ordered)
    unfolding shuffle_loop
    shuffle_step fuel a others e d = ground arith

    module _ (P : RouteAttempt f → Type 0) where
      shuffle_loop_lem :
          (fuel : ℕ) (pool : List (RouteAttempt f))
          → length pool ≤ fuel
          → (ordered : List (RouteAttempt f)) × (shuffle_loop f r fuel pool ≡ some ordered)
            × Perm pool ordered
            × (All P pool → All P ordered)
      unfolding shuffle_loop
      shuffle_loop_lem zero [] h = ([], refl, Perm.refl [], λ a. a)
      shuffle_loop_lem (suc fuel) [] h = ([], refl, Perm.refl [], λ a. a)
      shuffle_loop_lem zero (a ∷ others) h = absurd (omega arith)
      shuffle_loop_lem (suc fuel) (a ∷ others) h =
          let (x, rest, e, p, l, k) =
            take_at_lem P (select_index f r (a ∷ others)) (a ∷ others)
              (select_index-lt (a ∷ others) (omega arith)) in
          let (ordered, d, q, m) = shuffle_loop_lem fuel rest (omega arith) in
          (
            x ∷ ordered,
            shuffle_step fuel a others e d,
            Perm.trans p (Perm.cons x q),
            λ b. ((k b).0, m (k b).1),
          )

      -- The shuffle returns, with what held of every attempt of its pool.
      pub weighted_shuffle_lem :
          (attempts : List (RouteAttempt f))
          → (ordered : List (RouteAttempt f)) × (weighted_shuffle f r attempts ≡ some ordered)
            × Perm attempts ordered
            × (All P attempts → All P ordered)
      unfolding weighted_shuffle
      weighted_shuffle_lem attempts = shuffle_loop_lem (length attempts) attempts (omega arith)

    -- If rand.Intn(n) stays below n, the shuffle returns for every pool, whatever the weights and the random numbers, and what it
    -- returns is a permutation of the pool.
    pub weighted_shuffle-perm :
        (attempts : List (RouteAttempt f))
        → (ordered : List (RouteAttempt f)) × (weighted_shuffle f r attempts ≡ some ordered)
          × Perm attempts ordered
    weighted_shuffle-perm attempts =
        let (ordered, e, p, k) = weighted_shuffle_lem (λ _. Unit) attempts in (ordered, e, p)
