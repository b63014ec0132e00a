-- ===== src/Catalog/Membership.antt =====
-- model/model_route_cache.go: which routes the maps and lists of a snapshot hold.
use new_api_gateway.Prelude.{
  Text, text_eq, text_eq_iff, text_eq_refl, is_empty, true, false, none, some, Bool-cases,
  if◌then◌else◌, List, [], ◌∷◌, ◌++◌, ◌≡◌, ◌↔◌, refl, sym, ap, ◌∙◌, subst, arith, ◌⊎◌, inl, inr,
}
use new_api_gateway.Routing.Rows.{ModelRoute}
use new_api_gateway.Catalog.Buckets.{map_get, map_put}
use new_api_gateway.Catalog.Snapshot.{RouteIndex, index_at, append_route, index_by}

abbrev pub IsIn : ModelRoute → List ModelRoute → Type 0
IsIn r [] = ⊥
IsIn r (x ∷ xs) = (r ≡ x) ⊎ IsIn r xs

module _ (r : ModelRoute) where
  pub IsIn-append_iff : (xs ys : List ModelRoute) → IsIn r (xs ++ ys) ↔ (IsIn r xs ⊎ IsIn r ys)
  IsIn-append_iff [] ys = (λ h. inr h, λ h. elim h [ inl k ↦ absurd k | inr k ↦ k ])
  IsIn-append_iff (x ∷ xs) ys =
      let (to, from) = IsIn-append_iff xs ys in
      (
        λ h. elim h [
          | inl e ↦ inl (inl e)
          | inr k ↦ elim (to k) [ inl a ↦ inl (inr a) | inr b ↦ inr b ]
        ],
        λ h. elim h [
          | inl (inl e) ↦ inl e
          | inl (inr a) ↦ inr (from (inl a))
          | inr b ↦ inr (from (inr b))
        ],
      )

module _ {V : Type 0} where
  get-put_same : (k : Text) (v : V) (m : List (Text × V)) → map_get k (map_put k v m) ≡ some v
  unfolding map_get map_put
  get-put_same k v [] = rw (text_eq_refl k) refl
  get-put_same k v ((l, w) ∷ m) = elim (Bool-cases (text_eq l k)) [
    | inl e ↦ rw (e, text_eq_refl k) refl
    | inr e ↦ rw (e, e) (get-put_same k v m)
  ]

  get-put_other :
      (k key : Text) (v : V) (m : List (Text × V))
      → text_eq key k ≡ false
      → map_get k (map_put key v m) ≡ map_get k m
  unfolding map_get map_put
  get-put_other k key v [] h = rw h refl
  get-put_other k key v ((l, w) ∷ m) h = elim (Bool-cases (text_eq l key)) [
    | inl e ↦
        let same : l ≡ key = (text_eq_iff l key).0 e in
        rw (e, h, ap (λ x. text_eq x k) same ∙ h) refl
    | inr e ↦ rw e (ap (λ o. if text_eq l k then some w else o) (get-put_other k key v m h))
  ]

index_at-some :
    (k : Text) (m : RouteIndex) (rs : List ModelRoute) → map_get k m ≡ some rs → index_at k m ≡ rs
unfolding index_at
index_at-some k m rs h = ground arith

index_at_same :
    (k : Text) (m n : RouteIndex) → map_get k m ≡ map_get k n → index_at k m ≡ index_at k n
unfolding index_at
index_at_same k m n h = ap (λ o. the (List ModelRoute) (elim o [ none ↦ [] | some rs ↦ rs ])) h
  where
    the : (A : Type 0) → A → A
    the A a = a

append_route-filled :
    (key : Text) (x : ModelRoute) (m : RouteIndex)
    → is_empty key ≡ false
    → append_route key x m ≡ map_put key (index_at key m ++ (x ∷ [])) m
unfolding append_route
append_route-filled key x m h = rw h refl

append_route-blank :
    (key : Text) (x : ModelRoute) (m : RouteIndex) → is_empty key ≡ true → append_route key x m ≡ m
unfolding append_route
append_route-blank key x m h = rw h refl

module _ (r : ModelRoute) (k : Text) where
  append_route-same :
      (x : ModelRoute) (m : RouteIndex)
      → is_empty k ≡ false
      → index_at k (append_route k x m) ≡ index_at k m ++ (x ∷ [])
  append_route-same x m h =
      ap (index_at k) (append_route-filled k x m h)
      ∙ index_at-some k _ _ (get-put_same k (index_at k m ++ (x ∷ [])) m)

  append_route-other :
      (key : Text) (x : ModelRoute) (m : RouteIndex)
      → text_eq key k ≡ false
      → index_at k (append_route key x m) ≡ index_at k m
  append_route-other key x m h = elim (Bool-cases (is_empty key)) [
    | inl e ↦ ap (index_at k) (append_route-blank key x m e)
    | inr e ↦
        ap (index_at k) (append_route-filled key x m e)
        ∙ index_at_same k _ m (get-put_other k key (index_at key m ++ (x ∷ [])) m h)
  ]

  append_route_iff :
      (key : Text) (x : ModelRoute) (m : RouteIndex)
      → IsIn r (index_at k (append_route key x m))
        ↔ (((r ≡ x) × (key ≡ k) × (is_empty k ≡ false)) ⊎ IsIn r (index_at k m))
  append_route_iff key x m = elim (Bool-cases (text_eq key k)) [
    | inr other ↦ (
      λ h. inr (subst (IsIn r) (append_route-other key x m other) h),
      λ h. elim h [
        | inl (_, same, _) ↦ absurd (let is = (text_eq_iff key k).1 same in cc)
        | inr old ↦ subst (IsIn r) (sym (append_route-other key x m other)) old
      ],
    )
    | inl e ↦
        let same : key ≡ k = (text_eq_iff key k).0 e in
        subst
          (λ l.
            IsIn r (index_at k (append_route l x m))
            ↔ (((r ≡ x) × (l ≡ k) × (is_empty k ≡ false)) ⊎ IsIn r (index_at k m)))
          (sym same) (here x m)
  ]
    where
      here :
          (x : ModelRoute) (m : RouteIndex)
          → IsIn r (index_at k (append_route k x m))
            ↔ (((r ≡ x) × (k ≡ k) × (is_empty k ≡ false)) ⊎ IsIn r (index_at k m))
      here x m = elim (Bool-cases (is_empty k)) [
        | inl blank ↦ (
          λ h. inr (subst (λ n. IsIn r (index_at k n)) (append_route-blank k x m blank) h),
          λ h. elim h [
            | inl (_, _, full) ↦ absurd cc
            | inr old ↦
                subst (λ n. IsIn r (index_at k n)) (sym (append_route-blank k x m blank)) old
          ],
        )
        | inr full ↦ (
          λ h.
              elim ((IsIn-append_iff r (index_at k m) (x ∷ [])).0
                (subst (IsIn r) (append_route-same x m full) h)) [
                  | inl old ↦ inr old
                  | inr (inl is) ↦ inl (is, refl, full)
                  | inr (inr out_) ↦ absurd out_
                ],
          λ h. subst (IsIn r) (sym (append_route-same x m full)) (
              (IsIn-append_iff r (index_at k m) (x ∷ [])).1
                (elim h [ inl (is, _, _) ↦ inr (inl is) | inr old ↦ inl old ])),
        )
      ]

  -- The routes under a key: those whose key it is, if it is not empty, and those that were there.
  pub index_by_iff :
      (key : ModelRoute → Text) (rs : List ModelRoute) (m : RouteIndex)
      → IsIn r (index_at k (index_by key rs m))
        ↔ ((IsIn r rs × (key r ≡ k) × (is_empty k ≡ false)) ⊎ IsIn r (index_at k m))
  unfolding index_by
  index_by_iff key [] m = (λ h. inr h, λ h. elim h [ inl (a, b, c) ↦ absurd a | inr a ↦ a ])
  index_by_iff key (x ∷ rs) m =
      let (to, from) = index_by_iff key rs (append_route (key x) x m) in
      let (in_, out) = append_route_iff (key x) x m in
      (
        λ h. elim (to h) [
          | inl (there, same, full) ↦ inl (inr there, same, full)
          | inr h ↦ elim (in_ h) [
            | inl (is, same, full) ↦ inl (inl is, ap key is ∙ same, full)
            | inr old ↦ inr old
          ]
        ],
        λ h. elim h [
          | inl (inr there, same, full) ↦ from (inl (there, same, full))
          | inl (inl is, same, full) ↦ from (inr (out (inl (is, sym (ap key is) ∙ same, full))))
          | inr old ↦ from (inr (out (inr old)))
        ],
      )
