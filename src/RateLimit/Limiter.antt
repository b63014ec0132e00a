-- ===== src/RateLimit/Limiter.antt =====
-- common/rate-limit.go: InMemoryRateLimiter. The mutex makes each call of Request and each pass of
-- clearExpiredItems one step; the clock is an argument.
use new_api_gateway.Prelude.{
  ◌+◌, ℤ, pos, pos_part, neg_part, sub_ℕ, wrap64, ltbℤ, lebℤ, Text, text_eq, Bool, true, false,
  Option, none, some, if◌then◌else◌, List, [], ◌∷◌, ◌++◌, length,
}

-- store: the queue of each key, the oldest request first.
abbrev pub Store : Type 0
Store = Text → Option (List ℤ)

-- Subtraction of two int64 values.
unfoldable pub sub64 : ℤ → ℤ → ℤ
sub64 a b = wrap64 (sub_ℕ (pos_part a + neg_part b) (pos_part b + neg_part a))

unfoldable pub put : Store → Text → List ℤ → Store
put store key queue other = if text_eq key other then some queue else store other

-- Request, for the queue of its key; `none` is the panic on an empty queue.
unfoldable pub request_queue : Option (List ℤ) → ℤ → ℤ → ℤ → Option (Bool × List ℤ)
request_queue none max_request_num duration now = some (true, now ∷ [])
request_queue (some []) max_request_num duration now =
    if ltbℤ (pos 0) max_request_num then some (true, now ∷ []) else none
request_queue (some (oldest ∷ newer)) max_request_num duration now =
    if ltbℤ (pos (length (oldest ∷ newer))) max_request_num
    then some (true, oldest ∷ newer ++ (now ∷ []))
    else if lebℤ duration (sub64 now oldest)
    then some (true, newer ++ (now ∷ []))
    else some (false, oldest ∷ newer)

unfoldable pub request : Store → Text → ℤ → ℤ → ℤ → Option (Bool × Store)
request store key max_request_num duration now =
    elim (request_queue (store key) max_request_num duration now) [
      | none ↦ none
      | some (accepted, queue) ↦ some (accepted, put store key queue)
    ]

unfoldable pub newest : ℤ → List ℤ → ℤ
newest last [] = last
newest last (t ∷ ts) = newest t ts

unfoldable pub newest_of : List ℤ → Option ℤ
newest_of [] = none
newest_of (t ∷ ts) = some (newest t ts)

-- What a pass of clearExpiredItems leaves of a queue; `expiration` is the duration in seconds.
unfoldable pub clear_queue : ℤ → ℤ → List ℤ → Option (List ℤ)
clear_queue expiration now queue = elim (newest_of queue) [
  | none ↦ none
  | some last ↦ if ltbℤ expiration (sub64 now last) then none else some queue
]

unfoldable pub clear_expired_items : ℤ → Store → ℤ → Store
clear_expired_items expiration store now key = elim (store key) [
  | none ↦ none
  | some queue ↦ clear_queue expiration now queue
]

-- What happens to the limiter: a request for a key, and a pass of clearExpiredItems, each at its time.
pub data Event : Type 0 where
  requested : Text → ℤ → Event
  cleared : ℤ → Event

-- One event, with the log of the accepted requests, the newest first. `limits` gives the arguments
-- maxRequestNum and duration that the requests for a key come with.
module _ (expiration : ℤ) (limits : Text → ℤ × ℤ) where
  abbrev pub Log : Type 0
  Log = List (Text × ℤ)

  unfoldable pub step : Store × Log → Event → Option (Store × Log)
  step (store, log) (cleared now) = some (clear_expired_items expiration store now, log)
  step (store, log) (requested key now) =
      elim (request store key (limits key).0 (limits key).1 now) [
        | none ↦ none
        | some (accepted, after) ↦ some (after, if accepted then (key, now) ∷ log else log)
      ]

  unfoldable pub run : Store × Log → List Event → Option (Store × Log)
  run s [] = some s
  run s (e ∷ es) = elim (step s e) [ none ↦ none | some t ↦ run t es ]
