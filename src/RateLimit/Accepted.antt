-- ===== src/RateLimit/Accepted.antt =====
-- common/rate-limit.go: the limiter under any sequence of requests and cleaning passes.
use new_api_gateway.Prelude.{
  ℕ, suc, ◌≤◌, ℤ, pos, pos_part, ltbℤ, lebℤ, Bool, true, false, Option, none, some, if◌then◌else◌,
  List, [], ◌∷◌, ◌++◌, length, ◌≡◌, refl, arith, Bool-cases, inl, inr,
}
use new_api_gateway.RateLimit.Limiter.{sub64, request_queue, newest, newest_of, clear_queue}
use new_api_gateway.RateLimit.Window.{
  IsClock, sub64_parts, IsTracked, queue_of, later-IsTracked, room-IsTracked, full-IsTracked,
  forgotten-IsTracked, IsTracked-oldest, IsTracked-newest,
}

-- No queue of the store is empty.
abbrev pub is_stored : Option (List ℤ) → Bool
is_stored none = true
is_stored (some []) = false
is_stored (some (t ∷ ts)) = true

is_stored-snoc : (ts : List ℤ) (t : ℤ) → is_stored (some (ts ++ (t ∷ []))) ≡ true
is_stored-snoc [] t = refl
is_stored-snoc (u ∷ ts) t = refl

pub request_queue-is_stored :
    (q : Option (List ℤ)) (max_request_num duration now : ℤ)
    → is_stored q ≡ true
    → (accepted : Bool) × (queue : List ℤ) × (request_queue q max_request_num duration now
        ≡ some (accepted, queue))
      × (is_stored (some queue) ≡ true)
unfolding request_queue
request_queue-is_stored none mx du now h = (true, now ∷ [], refl, refl)
request_queue-is_stored (some []) mx du now h = absurd (ground arith)
request_queue-is_stored (some (o ∷ ts)) mx du now h =
    elim (Bool-cases (ltbℤ (pos (length (o ∷ ts))) mx)) [
      | inl e ↦ (true, o ∷ ts ++ (now ∷ []), ground arith, refl)
      | inr e ↦ elim (Bool-cases (lebℤ du (sub64 now o))) [
        | inl k ↦ (true, ts ++ (now ∷ []), ground arith, is_stored-snoc ts now)
        | inr k ↦ (false, o ∷ ts, ground arith, refl)
      ]
    ]

pub clear_queue-is_stored :
    (expiration now : ℤ) (ts : List ℤ)
    → is_stored (some ts) ≡ true
    → is_stored (clear_queue expiration now ts) ≡ true
unfolding clear_queue newest_of
clear_queue-is_stored x now [] h = absurd (ground arith)
clear_queue-is_stored x now (t ∷ ts) h = ground arith

module _ (m d : ℕ) where
  module _ (c now : ℤ) (log : List ℤ) (later : pos_part c ≤ pos_part now)
      (now_clock : IsClock now) where
    abbrev pub IsRequest : Option (Bool × List ℤ) → Type 0
    IsRequest o =
        (accepted : Bool) × (queue : List ℤ) × (o ≡ some (accepted, queue))
        × (is_stored (some queue) ≡ true)
        × IsTracked m d now queue (if accepted then now ∷ log else log)

    pub request_queue-IsTracked :
        (q : Option (List ℤ))
        → is_stored q ≡ true
        → IsTracked m d c (queue_of m d q) log
        → IsRequest (request_queue q (pos (suc m)) (pos d) now)
    unfolding request_queue
    request_queue-IsTracked none s h = (
      true,
      now ∷ [],
      refl,
      refl,
      room-IsTracked m d c now log later now_clock [] h (omega arith),
    )
    request_queue-IsTracked (some []) s h = absurd (ground arith)
    request_queue-IsTracked (some (o ∷ ts)) s h =
        elim (Bool-cases (ltbℤ (pos (length (o ∷ ts))) (pos (suc m)))) [
          | inl e ↦ (
            true,
            o ∷ ts ++ (now ∷ []),
            ground arith,
            refl,
            room-IsTracked m d c now log later now_clock (o ∷ ts) h (ground arith),
          )
          | inr e ↦ elim (Bool-cases (lebℤ (pos d) (sub64 now o))) [
            | inl k ↦ (
              true,
              ts ++ (now ∷ []),
              ground arith,
              is_stored-snoc ts now,
              full-IsTracked m d c now log later now_clock o ts h (ground (arith, h.bounded))
                  (ground (arith, sub64_parts now o now_clock (IsTracked-oldest m d c log o ts h))),
            )
            | inr k ↦ (
              false,
              o ∷ ts,
              ground arith,
              refl,
              later-IsTracked m d c now log later now_clock (o ∷ ts) h,
            )
          ]
        ]

    pub clear_queue-IsTracked :
        (x : ℕ) (ts : List ℤ)
        → d ≤ x
        → is_stored (some ts) ≡ true
        → IsTracked m d c ts log
        → IsTracked m d now (queue_of m d (clear_queue (pos x) now ts)) log
    unfolding clear_queue newest_of
    clear_queue-IsTracked x [] l s h = absurd (ground arith)
    clear_queue-IsTracked x (t ∷ ts) l s h =
        elim (Bool-cases (ltbℤ (pos x) (sub64 now (newest t ts)))) [
          | inl e ↦ rw e (
              forgotten-IsTracked m d c now log later now_clock t ts h (
                ground (
                  arith,
                  sub64_parts now (newest t ts) now_clock (IsTracked-newest m d c log t ts h),
                )))
          | inr e ↦ rw e (later-IsTracked m d c now log later now_clock (t ∷ ts) h)
        ]
