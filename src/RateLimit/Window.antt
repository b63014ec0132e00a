-- ===== src/RateLimit/Window.antt =====
-- common/rate-limit.go: the queue of one key against the log of its accepted requests.
use mathlib.Core.List.{append_assoc}
use new_api_gateway.Prelude.{
  ℕ, zero, suc, ◌+◌, ◌≤◌, ◌<◌, ℤ, pos, negsuc, pos_part, neg_part, sub_ℕ, wrap64, wrap64_exact,
  Option, none, some, List, [], ◌∷◌, ◌++◌, length, length-append, get_elem?, All, All-map_imp, ◌≡◌,
  refl, sym, ap, ◌∙◌, arith, ◌⊎◌, inl, inr, subst,
}
use new_api_gateway.RateLimit.Limiter.{sub64, newest}

-- A Unix time within int64.
abbrev pub IsClock : ℤ → Type 0
IsClock t = (neg_part t ≡ 0) × (pos_part t < 9223372036854775808)

pub sub64_parts : (a b : ℤ) → IsClock a → IsClock b → sub64 a b ≡ sub_ℕ (pos_part a) (pos_part b)
unfolding sub64
sub64_parts (pos a) (pos b) h k = wrapped a b h.1 k.1
  where
    wrapped :
        (a b : ℕ)
        → a < 9223372036854775808
        → b < 9223372036854775808
        → wrap64 (sub_ℕ (a + 0) (b + 0)) ≡ sub_ℕ a b
    wrapped a b h k = wrap64_exact (sub_ℕ (a + 0) (b + 0)) (ground arith) ∙ ground arith
sub64_parts (negsuc a) b h k = absurd (omega (arith, h.0))
sub64_parts (pos a) (negsuc b) h k = absurd (omega (arith, k.0))

-- The newest first.
abbrev pub rev : List ℤ → List ℤ
rev [] = []
rev (t ∷ ts) = rev ts ++ (t ∷ [])

rev-snoc : (ts : List ℤ) (t : ℤ) → rev (ts ++ (t ∷ [])) ≡ t ∷ rev ts
rev-snoc [] t = refl
rev-snoc (u ∷ ts) t = ap (λ xs. xs ++ (u ∷ [])) (rev-snoc ts t)

rev-length : (ts : List ℤ) → length (rev ts) ≡ length ts
rev-length [] = refl
rev-length (t ∷ ts) = omega (arith, length-append (rev ts) (t ∷ []), rev-length ts)

newest-rev : (t : ℤ) (ts : List ℤ) → (older : List ℤ) × (rev (t ∷ ts) ≡ newest t ts ∷ older)
unfolding newest
newest-rev t [] = ([], refl)
newest-rev t (u ∷ us) =
    let (older, e) = newest-rev u us in (older ++ (t ∷ []), ap (λ xs. xs ++ (t ∷ [])) e)

abbrev pub Holds : (ℤ → Type 0) → Option ℤ → Type 0
Holds P none = Unit
Holds P (some t) = P t

get_elem-past :
    (P : ℤ → Type 0) (xs ys : List ℤ) (i : ℕ)
    → length xs ≤ i
    → All P ys
    → Holds P (get_elem? (xs ++ ys) i)
get_elem-past P [] [] i h a = tt
get_elem-past P [] (y ∷ ys) zero h a = a.0
get_elem-past P [] (y ∷ ys) (suc i) h a = get_elem-past P [] ys i (omega arith) a.1
get_elem-past P (x ∷ xs) ys zero h a = absurd (omega arith)
get_elem-past P (x ∷ xs) ys (suc i) h a = get_elem-past P xs ys i (omega arith) a

get_elem-middle :
    (P : ℤ → Type 0) (xs ys : List ℤ) (y : ℤ) (i : ℕ)
    → length xs ≡ i
    → P y
    → Holds P (get_elem? (xs ++ (y ∷ ys)) i)
get_elem-middle P [] ys y zero h p = p
get_elem-middle P [] ys y (suc i) h p = absurd (omega arith)
get_elem-middle P (x ∷ xs) ys y zero h p = absurd (omega arith)
get_elem-middle P (x ∷ xs) ys y (suc i) h p = get_elem-middle P xs ys y i (omega arith) p

module _ (m d : ℕ) where
  -- Each time of a log, the newest first, comes at least `d` seconds after the one `suc m` places
  -- before it.
  abbrev pub IsSpaced : List ℤ → Type 0
  IsSpaced [] = Unit
  IsSpaced (t ∷ log) = Holds (λ u. pos_part u + d ≤ pos_part t) (get_elem? log m) × IsSpaced log

  abbrev IsNewest : List ℤ → Type 0
  IsNewest [] = Unit
  IsNewest (t ∷ log) = All (λ u. pos_part u ≤ pos_part t) log

  -- The queue holds the end of the log: at most `suc m` times, and all those within the window if
  -- they are fewer.
  pub record IsTracked (c : ℤ) (queue log : List ℤ) : Type 0 where
    pub clock : IsClock c
    pub older : List ℤ
    pub split : log ≡ rev queue ++ older
    pub bounded : length queue ≤ suc m
    pub recent : (length queue ≡ suc m) ⊎ All (λ t. pos_part t + d ≤ pos_part c) older
    pub spaced : IsSpaced log
    pub past : All (λ t. IsClock t × (pos_part t ≤ pos_part c)) log
    pub newest_first : IsNewest log

  abbrev pub queue_of : Option (List ℤ) → List ℤ
  queue_of none = []
  queue_of (some queue) = queue

  module _ (c now : ℤ) (log : List ℤ) (later : pos_part c ≤ pos_part now)
      (now_clock : IsClock now) where
    -- The clock moves on.
    pub later-IsTracked : (queue : List ℤ) → IsTracked c queue log → IsTracked now queue log
    later-IsTracked queue h = record {
      clock = now_clock;
      older = h.older;
      split = h.split;
      bounded = h.bounded;
      recent = elim h.recent [
        | inl e ↦ inl e
        | inr a ↦ inr (All-map_imp _ _ h.older (λ t k. omega (arith, k, later)) a)
      ];
      spaced = h.spaced;
      past = All-map_imp _ _ log (λ t k. (k.0, omega (arith, k.1, later))) h.past;
      newest_first = h.newest_first;
    }

    -- With room in the queue, the times before it are outside the window.
    older_past :
        (queue : List ℤ) (h : IsTracked c queue log)
        → length queue ≤ m
        → All (λ t. pos_part t + d ≤ pos_part now) h.older
    older_past queue h room = elim h.recent [
      | inl e ↦ absurd (omega (arith, e, room))
      | inr a ↦ All-map_imp _ _ h.older (λ t k. omega (arith, k, later)) a
    ]

    -- A request is accepted while the queue has room.
    pub room-IsTracked :
        (queue : List ℤ)
        → IsTracked c queue log
        → length queue ≤ m
        → IsTracked now (queue ++ (now ∷ [])) (now ∷ log)
    room-IsTracked queue h room = record {
      clock = now_clock;
      older = h.older;
      split = ap (λ xs. now ∷ xs) h.split ∙ ap (λ xs. xs ++ h.older) (sym (rev-snoc queue now));
      bounded = omega (arith, room, length-append queue (now ∷ []));
      recent = inr (older_past queue h room);
      spaced = (
        subst (λ xs. Holds (λ u. pos_part u + d ≤ pos_part now) (get_elem? xs m)) (sym h.split)
            (get_elem-past _ (rev queue) h.older m (omega (arith, rev-length queue, room))
              (older_past queue h room)),
        h.spaced,
      );
      past = ((now_clock, omega arith), (later-IsTracked queue h).past);
      newest_first = All-map_imp _ _ log (λ t k. k.1) (later-IsTracked queue h).past;
    }

    -- A full queue gives up its oldest time when that is outside the window.
    pub full-IsTracked :
        (oldest : ℤ) (newer : List ℤ)
        → IsTracked c (oldest ∷ newer) log
        → length newer ≡ m
        → pos_part oldest + d ≤ pos_part now
        → IsTracked now (newer ++ (now ∷ [])) (now ∷ log)
    full-IsTracked oldest newer h full waited = record {
      clock = now_clock;
      older = oldest ∷ h.older;
      split =
          ap (λ xs. now ∷ xs) (h.split ∙ append_assoc (rev newer) (oldest ∷ []) h.older)
          ∙ ap (λ xs. xs ++ (oldest ∷ h.older)) (sym (rev-snoc newer now));
      bounded = omega (arith, full, length-append newer (now ∷ []));
      recent = inl (omega (arith, full, length-append newer (now ∷ [])));
      spaced = (
        subst (λ xs. Holds (λ u. pos_part u + d ≤ pos_part now) (get_elem? xs m))
            (sym (h.split ∙ append_assoc (rev newer) (oldest ∷ []) h.older))
            (get_elem-middle _ (rev newer) h.older oldest m (omega (arith, rev-length newer, full))
              waited),
        h.spaced,
      );
      past = ((now_clock, omega arith), (later-IsTracked (oldest ∷ newer) h).past);
      newest_first = All-map_imp _ _ log (λ t k. k.1) (later-IsTracked (oldest ∷ newer) h).past;
    }

    -- A key is forgotten when even its newest time is outside the window.
    pub forgotten-IsTracked :
        (t : ℤ) (ts : List ℤ)
        → IsTracked c (t ∷ ts) log
        → pos_part (newest t ts) + d ≤ pos_part now
        → IsTracked now [] log
    forgotten-IsTracked t ts h waited = record {
      clock = now_clock;
      older = log;
      split = refl;
      bounded = omega arith;
      recent = inr all_waited;
      spaced = h.spaced;
      past = (later-IsTracked (t ∷ ts) h).past;
      newest_first = h.newest_first;
    }
      where
        newest_split : (rest : List ℤ) × (log ≡ newest t ts ∷ rest)
        newest_split =
            let (older, e) = newest-rev t ts in
            (older ++ h.older, h.split ∙ ap (λ xs. xs ++ h.older) e)

        all_waited : All (λ u. pos_part u + d ≤ pos_part now) log
        all_waited =
            let (rest, e) = newest_split in
            subst (All (λ u. pos_part u + d ≤ pos_part now)) (sym e) (
              waited,
              All-map_imp _ _ rest (λ u k. omega (arith, k, waited))
                  (subst IsNewest e h.newest_first),
            )

All-right : (P : ℤ → Type 0) (xs ys : List ℤ) → All P (xs ++ ys) → All P ys
All-right P [] ys h = h
All-right P (x ∷ xs) ys h = All-right P xs ys h.1

module _ (m d : ℕ) (c : ℤ) (log : List ℤ) (t : ℤ) (ts : List ℤ)
    (h : IsTracked m d c (t ∷ ts) log) where
  pub IsTracked-oldest : IsClock t
  IsTracked-oldest =
      (All-right _ (rev ts) (t ∷ h.older) (
        subst (All (λ u. IsClock u × (pos_part u ≤ pos_part c)))
          (h.split ∙ append_assoc (rev ts) (t ∷ []) h.older) h.past)).0.0

  pub IsTracked-newest : IsClock (newest t ts)
  IsTracked-newest =
      let (older, e) = newest-rev t ts in
      (subst (All (λ u. IsClock u × (pos_part u ≤ pos_part c)))
        (h.split ∙ ap (λ xs. xs ++ h.older) e) h.past).0.0
