-- ===== src/RateLimit/Runs.antt =====
-- common/rate-limit.go: the limiter under any sequence of requests and cleaning passes.
use new_api_gateway.Prelude.{
  ℕ, suc, ◌≤◌, ℤ, pos, pos_part, Text, text_eq, true, Option, some, if◌then◌else◌, List, [], ◌∷◌,
  ◌≡◌,
}
use new_api_gateway.RateLimit.Limiter.{Store, Event, requested, cleared}
use new_api_gateway.RateLimit.Window.{IsClock, IsTracked, queue_of}
use new_api_gateway.RateLimit.Accepted.{is_stored}

abbrev pub time_of : Event → ℤ
time_of (requested key t) = t
time_of (cleared t) = t

-- The clock never goes back.
abbrev pub IsTimed : ℤ → List Event → Type 0
IsTimed c [] = Unit
IsTimed c (e ∷ es) =
    IsClock (time_of e) × (pos_part c ≤ pos_part (time_of e)) × IsTimed (time_of e) es

-- The accepted requests of one key.
abbrev pub log_of : Text → List (Text × ℤ) → List ℤ
log_of key [] = []
log_of key ((k, t) ∷ log) = let rest = log_of key log in if text_eq k key then t ∷ rest else rest

module _ (x : ℕ) (limits : Text → ℤ × ℤ) (key : Text) (m d : ℕ)
    (limits_of_key : limits key ≡ (pos (suc m), pos d)) (kept : d ≤ x) where
  pub record IsState (c : ℤ) (s : Store × List (Text × ℤ)) : Type 0 where
    pub stored : (k : Text) → is_stored (s.0 k) ≡ true
    pub tracked : IsTracked m d c (queue_of m d (s.0 key)) (log_of key s.1)

  module _ (c : ℤ) (store : Store) (log : List (Text × ℤ)) (h : IsState c (store, log)) (now : ℤ)
      (clock : IsClock now) (later : pos_part c ≤ pos_part now) where
    abbrev IsStep : Option (Store × List (Text × ℤ)) → Type 0
    IsStep o = (t : Store × List (Text × ℤ)) × (o ≡ some t) × IsState now t
