-- ===== src/Catalog/Sorted.antt =====
-- model/model_route_cache.go: the order of the candidates.
use new_api_gateway.Prelude.{
  eqbℤ, ltbℤ, eqbℤ→eq, sym, true, false, Bool-cases, if-true, if-false, List, [], ◌∷◌, ◌≡◌, ap, ◌∙◌,
  arith, ◌⊎◌, inl, inr,
}
use new_api_gateway.Routing.Rows.{ModelRoute}
use new_api_gateway.Catalog.Snapshot.{
  put_route, append_candidates, candidate_before, insert_candidate, sort_candidates,
}

-- A route of a higher priority stands first, and of two with one priority the one with the lower id.
abbrev pub IsInOrder : ModelRoute → ModelRoute → Type 0
IsInOrder x y =
    (ltbℤ y.priority x.priority ≡ true) ⊎ ((x.priority ≡ y.priority) × (ltbℤ x.id y.id ≡ true))

abbrev pub IsHeadOf : ModelRoute → List ModelRoute → Type 0
IsHeadOf x [] = Unit
IsHeadOf x (y ∷ ys) = IsInOrder x y

-- Sorted in this order, which is strict, so that no route stands there twice.
abbrev pub IsSorted : List ModelRoute → Type 0
IsSorted [] = Unit
IsSorted (x ∷ xs) = IsHeadOf x xs × IsSorted xs

abbrev IsApart : ModelRoute → List ModelRoute → Type 0
IsApart x [] = Unit
IsApart x (y ∷ ys) = (eqbℤ y.id x.id ≡ false) × IsApart x ys

abbrev AreApart : List ModelRoute → Type 0
AreApart [] = Unit
AreApart (x ∷ xs) = IsApart x xs × AreApart xs

put_route-IsApart :
    (s r : ModelRoute) (m : List ModelRoute)
    → eqbℤ r.id s.id ≡ false
    → IsApart s m
    → IsApart s (put_route r m)
unfolding put_route
put_route-IsApart s r [] h k = (h, tt)
put_route-IsApart s r (y ∷ m) h (k, ks) = elim (Bool-cases (eqbℤ y.id r.id)) [
  | inl e ↦ if-true (IsApart s) _ _ e (h, ks)
  | inr e ↦ if-false (IsApart s) _ _ e (k, put_route-IsApart s r m h ks)
]

IsApart-same : (s r : ModelRoute) (m : List ModelRoute) → s.id ≡ r.id → IsApart s m → IsApart r m
IsApart-same s r [] e h = tt
IsApart-same s r (y ∷ m) e (h, hs) = (ap (λ i. eqbℤ y.id i) (sym e) ∙ h, IsApart-same s r m e hs)

put_route-AreApart : (r : ModelRoute) (m : List ModelRoute) → AreApart m → AreApart (put_route r m)
unfolding put_route
put_route-AreApart r [] h = (tt, tt)
put_route-AreApart r (y ∷ m) (h, hs) = elim (Bool-cases (eqbℤ y.id r.id)) [
  | inl e ↦ if-true AreApart _ _ e (IsApart-same y r m (eqbℤ→eq y.id r.id e) h, hs)
  | inr e ↦
      if-false AreApart _ _ e (put_route-IsApart y r m (ground arith) h, put_route-AreApart r m hs)
]

pub append_candidates-AreApart :
    (rs m : List ModelRoute) → AreApart m → AreApart (append_candidates rs m)
unfolding append_candidates
append_candidates-AreApart [] m h = h
append_candidates-AreApart (r ∷ rs) m h =
    append_candidates-AreApart rs (put_route r m) (put_route-AreApart r m h)

candidate_before-IsInOrder : (x y : ModelRoute) → candidate_before x y ≡ true → IsInOrder x y
unfolding candidate_before
candidate_before-IsInOrder x y h = elim (Bool-cases (eqbℤ x.priority y.priority)) [
  | inl e ↦ inr (eqbℤ→eq x.priority y.priority e, ground arith)
  | inr e ↦ inl (ground arith)
]

candidate_after-IsInOrder :
    (x y : ModelRoute) → eqbℤ y.id x.id ≡ false → candidate_before y x ≡ false → IsInOrder x y
unfolding candidate_before
candidate_after-IsInOrder x y k h = elim (Bool-cases (eqbℤ y.priority x.priority)) [
  | inl e ↦ inr (sym (eqbℤ→eq y.priority x.priority e), ground arith)
  | inr e ↦ inl (ground arith)
]

insert_candidate-IsApart :
    (s x : ModelRoute) (rs : List ModelRoute)
    → eqbℤ x.id s.id ≡ false
    → IsApart s rs
    → IsApart s (insert_candidate x rs)
unfolding insert_candidate
insert_candidate-IsApart s x [] h k = (h, tt)
insert_candidate-IsApart s x (y ∷ rs) h (k, ks) = elim (Bool-cases (candidate_before y x)) [
  | inl e ↦ if-true (IsApart s) _ _ e (k, insert_candidate-IsApart s x rs h ks)
  | inr e ↦ if-false (IsApart s) _ _ e (h, (k, ks))
]

sort_candidates-IsApart :
    (s : ModelRoute) (rs : List ModelRoute) → IsApart s rs → IsApart s (sort_candidates rs)
unfolding sort_candidates
sort_candidates-IsApart s [] h = tt
sort_candidates-IsApart s (x ∷ rs) (h, hs) =
    insert_candidate-IsApart s x (sort_candidates rs) h (sort_candidates-IsApart s rs hs)

insert_candidate-IsHeadOf :
    (s x : ModelRoute) (rs : List ModelRoute)
    → IsInOrder s x
    → IsHeadOf s rs
    → IsHeadOf s (insert_candidate x rs)
unfolding insert_candidate
insert_candidate-IsHeadOf s x [] h k = h
insert_candidate-IsHeadOf s x (y ∷ rs) h k = elim (Bool-cases (candidate_before y x)) [
  | inl e ↦ if-true (IsHeadOf s) _ _ e k
  | inr e ↦ if-false (IsHeadOf s) _ _ e h
]

insert_candidate-IsSorted :
    (x : ModelRoute) (rs : List ModelRoute)
    → IsApart x rs
    → IsSorted rs
    → IsSorted (insert_candidate x rs)
unfolding insert_candidate
insert_candidate-IsSorted x [] k h = (tt, tt)
insert_candidate-IsSorted x (y ∷ rs) (k, ks) h = elim (Bool-cases (candidate_before y x)) [
  | inl e ↦ if-true IsSorted _ _ e (
    insert_candidate-IsHeadOf y x rs (candidate_before-IsInOrder y x e) h.0,
    insert_candidate-IsSorted x rs ks h.1,
  )
  | inr e ↦ if-false IsSorted _ _ e (candidate_after-IsInOrder x y k e, h)
]

pub sort_candidates-IsSorted : (rs : List ModelRoute) → AreApart rs → IsSorted (sort_candidates rs)
unfolding sort_candidates
sort_candidates-IsSorted [] h = tt
sort_candidates-IsSorted (x ∷ rs) (h, hs) =
    insert_candidate-IsSorted x (sort_candidates rs) (sort_candidates-IsApart x rs h)
      (sort_candidates-IsSorted rs hs)
