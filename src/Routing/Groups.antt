-- ===== src/Routing/Groups.antt =====
-- The priorities of a plan, and how they divide the routes.
use mathlib.Core.List.{Perm, perm_middle}
use mathlib.Core.List.Perm
use mathlib.Core.Bool.{false≢true}
use new_api_gateway.Prelude.{
  ℤ, eqbℤ, ltbℤ, lebℤ, eqbℤ→eq, true, false, not, ◌&&◌, ◌||◌, List, [], ◌∷◌, ◌++◌, map, ◌≡◌, refl,
  arith, Bool-cases, inl, inr, ap, ◌∙◌, All,
}
use new_api_gateway.Routing.Rows.{ModelRoute}
use new_api_gateway.Routing.Plan.{
  mem_int, distinct_ints, insert_desc, sort_desc, routes_of_priority,
}

-- Each number is greater than all those after it.
abbrev pub IsDesc : List ℤ → Type 0
IsDesc [] = Unit
IsDesc (k ∷ ks) = All (λ j. ltbℤ j k ≡ true) ks × IsDesc ks

abbrev IsDistinct : List ℤ → Type 0
IsDistinct [] = Unit
IsDistinct (k ∷ ks) = (mem_int k ks ≡ false) × IsDistinct ks

mem_int-eq : (j k : ℤ) (ks : List ℤ) → eqbℤ j k ≡ true → mem_int j ks ≡ mem_int k ks
mem_int-eq j k ks h = ap (λ i. mem_int i ks) (eqbℤ→eq j k h)

-- The distinct numbers of a list are those of the list that were not seen before.
mem_int-distinct_ints :
    (j : ℤ) (seen ks : List ℤ)
    → mem_int j (distinct_ints seen ks) ≡ not (mem_int j seen) && mem_int j ks
unfolding mem_int distinct_ints
mem_int-distinct_ints j seen [] = ground arith
mem_int-distinct_ints j seen (k ∷ ks) = ground (
  arith,
  mem_int-distinct_ints j seen ks,
  mem_int-distinct_ints j (k ∷ seen) ks,
  mem_int-eq j k seen,
)

distinct_ints-IsDistinct : (seen ks : List ℤ) → IsDistinct (distinct_ints seen ks)
unfolding distinct_ints
distinct_ints-IsDistinct seen [] = tt
distinct_ints-IsDistinct seen (k ∷ ks) = elim (Bool-cases (mem_int k seen)) [
  | inl e ↦ rw e (distinct_ints-IsDistinct seen ks)
  | inr e ↦ rw e (
    mem_int-distinct_ints k (k ∷ seen) ks ∙ (unfold mem_int in ground arith),
    distinct_ints-IsDistinct (k ∷ seen) ks,
  )
]

mem_int-insert_desc : (j k : ℤ) (ks : List ℤ) → mem_int j (insert_desc k ks) ≡ mem_int j (k ∷ ks)
unfolding mem_int insert_desc
mem_int-insert_desc j k [] = refl
mem_int-insert_desc j k (i ∷ ks) = ground (arith, mem_int-insert_desc j k ks)

mem_int-sort_desc : (j : ℤ) (ks : List ℤ) → mem_int j (sort_desc ks) ≡ mem_int j ks
unfolding mem_int sort_desc
mem_int-sort_desc j [] = refl
mem_int-sort_desc j (k ∷ ks) =
    mem_int-insert_desc j k (sort_desc ks) ∙ ap (λ b. eqbℤ k j || b) (mem_int-sort_desc j ks)

All-below : (k : ℤ) (ks : List ℤ) → All (λ j. ltbℤ j k ≡ true) ks → mem_int k ks ≡ false
unfolding mem_int
All-below k [] h = refl
All-below k (j ∷ ks) h = ground (arith, All-below k ks h.1)

All-weaken :
    (k l : ℤ) (ks : List ℤ)
    → ltbℤ k l ≡ true
    → All (λ j. ltbℤ j k ≡ true) ks
    → All (λ j. ltbℤ j l ≡ true) ks
All-weaken k l [] h a = tt
All-weaken k l (j ∷ ks) h a = (ground arith, All-weaken k l ks h a.1)

All-insert_desc :
    (k l : ℤ) (ks : List ℤ)
    → ltbℤ k l ≡ true
    → All (λ j. ltbℤ j l ≡ true) ks
    → All (λ j. ltbℤ j l ≡ true) (insert_desc k ks)
unfolding insert_desc
All-insert_desc k l [] h a = (h, tt)
All-insert_desc k l (j ∷ ks) h a = elim (Bool-cases (lebℤ j k)) [
  | inl e ↦ rw e (h, a)
  | inr e ↦ rw e (a.0, All-insert_desc k l ks h a.1)
]

insert_desc-IsDesc :
    (k : ℤ) (ks : List ℤ) → IsDesc ks → mem_int k ks ≡ false → IsDesc (insert_desc k ks)
unfolding insert_desc mem_int
insert_desc-IsDesc k [] h m = (tt, tt)
insert_desc-IsDesc k (j ∷ ks) h m = elim (Bool-cases (lebℤ j k)) [
  | inl e ↦ rw e ((ground arith, All-weaken j k ks (ground arith) h.0), h)
  | inr e ↦
      rw e (All-insert_desc k j ks (ground arith) h.0, insert_desc-IsDesc k ks h.1 (ground arith))
]

sort_desc-IsDesc : (ks : List ℤ) → IsDistinct ks → IsDesc (sort_desc ks)
unfolding sort_desc
sort_desc-IsDesc [] h = tt
sort_desc-IsDesc (k ∷ ks) h =
    insert_desc-IsDesc k (sort_desc ks) (sort_desc-IsDesc ks h.1) (mem_int-sort_desc k ks ∙ h.0)

-- The routes, priority by priority.
abbrev pub by_priority : List ℤ → List ModelRoute → List ModelRoute
by_priority [] rs = []
by_priority (k ∷ ks) rs = routes_of_priority k rs ++ by_priority ks rs

abbrev pub Covered : List ℤ → List ModelRoute → Type 0
Covered ks rs = All (λ r. mem_int r.priority ks ≡ true) rs

by_priority-skip :
    (ks : List ℤ) (r : ModelRoute) (rs : List ModelRoute)
    → mem_int r.priority ks ≡ false
    → by_priority ks (r ∷ rs) ≡ by_priority ks rs
unfolding mem_int routes_of_priority
by_priority-skip [] r rs h = refl
by_priority-skip (k ∷ ks) r rs h = ground (arith, by_priority-skip ks r rs)

by_priority-cons :
    (ks : List ℤ) (r : ModelRoute) (rs : List ModelRoute)
    → IsDesc ks
    → mem_int r.priority ks ≡ true
    → Perm (by_priority ks (r ∷ rs)) (r ∷ by_priority ks rs)
unfolding mem_int routes_of_priority
by_priority-cons [] r rs d h = absurd (false≢true h)
by_priority-cons (k ∷ ks) r rs d h = elim (Bool-cases (eqbℤ r.priority k)) [
  | inl e ↦
      rw (e, by_priority-skip ks r rs (rw (mem_int-eq r.priority k ks e) (All-below k ks d.0)))
        (Perm.refl _)
  | inr e ↦ rw e (
      Perm.trans
        (Perm.append_left (routes_of_priority k rs) (by_priority-cons ks r rs d.1 (ground arith)))
        (perm_middle (routes_of_priority k rs) (by_priority ks rs)))
]

by_priority-nil : (ks : List ℤ) → by_priority ks [] ≡ []
unfolding routes_of_priority
by_priority-nil [] = refl
by_priority-nil (k ∷ ks) = by_priority-nil ks

-- Descending priorities that cover the routes divide them without loss.
pub by_priority-perm :
    (ks : List ℤ) (rs : List ModelRoute) → IsDesc ks → Covered ks rs → Perm (by_priority ks rs) rs
by_priority-perm ks [] d c = rw (by_priority-nil ks) (Perm.refl [])
by_priority-perm ks (r ∷ rs) d c =
    Perm.trans (by_priority-cons ks r rs d c.0) (Perm.cons r (by_priority-perm ks rs d c.1))

-- The priorities of a list of routes, as the plan sorts them.
abbrev pub sorted_priorities : List ModelRoute → List ℤ
sorted_priorities rs = sort_desc (distinct_ints [] (map (λ r. r.priority) rs))

pub sorted_priorities-IsDesc : (rs : List ModelRoute) → IsDesc (sorted_priorities rs)
sorted_priorities-IsDesc rs =
    sort_desc-IsDesc (distinct_ints [] (map (λ r. r.priority) rs))
      (distinct_ints-IsDistinct [] (map (λ r. r.priority) rs))

Covered-by :
    (ks : List ℤ) (rs : List ModelRoute)
    → ((j : ℤ) → mem_int j (map (λ r. r.priority) rs) ≡ true → mem_int j ks ≡ true)
    → Covered ks rs
unfolding mem_int
Covered-by ks [] h = tt
Covered-by ks (r ∷ rs) h =
    (h r.priority (ground arith), Covered-by ks rs (λ j m. h j (ground arith)))

pub sorted_priorities-Covered : (rs : List ModelRoute) → Covered (sorted_priorities rs) rs
unfolding mem_int
sorted_priorities-Covered rs = Covered-by (sorted_priorities rs) rs λ j m.
    mem_int-sort_desc j (distinct_ints [] (map (λ r. r.priority) rs))
    ∙ mem_int-distinct_ints j [] (map (λ r. r.priority) rs)
    ∙ m
