-- ===== src/Alias/Folds.antt =====
-- model/provider_alias_mapping.go: what a map holds after a loop over the entries of a mapping.
use new_api_gateway.Prelude.{
  Text, text_eq, text_eq_iff, text_eq_refl, is_empty, trim_space, Bool, true, false, not, ◌||◌,
  Option, none, some, Bool-cases, if-true, if-false, if◌then◌else◌, [], ◌∷◌, ◌≡◌, ◌≢◌, refl, sym,
  ap, ◌∙◌, subst, arith, ◌⊎◌, inl, inr,
}
use new_api_gateway.Alias.Names.{text_lt}
use new_api_gateway.Alias.Lookup.{TextMap, find, insert_source, sort_sources, put_key, put_first}

abbrev pub Entry : Type 0
Entry = Text × Text

abbrev pub IsIn : Entry → TextMap → Type 0
IsIn e [] = ⊥
IsIn e (x ∷ xs) = (e ≡ x) ⊎ IsIn e xs

module _ (e : Entry) where
  insert_source-IsIn :
      (x : Entry) (xs : TextMap) → (e ≡ x) ⊎ IsIn e xs → IsIn e (insert_source x xs)
  unfolding insert_source
  insert_source-IsIn x [] h = h
  insert_source-IsIn x (y ∷ ys) h = elim (Bool-cases (text_lt y.0 x.0)) [
    | inr b ↦ if-false (IsIn e) _ _ b h
    | inl b ↦ if-true (IsIn e) _ _ b (elim h [
      | inl same ↦ inr (insert_source-IsIn x ys (inl same))
      | inr (inl same) ↦ inl same
      | inr (inr later) ↦ inr (insert_source-IsIn x ys (inr later))
    ])
  ]

  IsIn-insert_source :
      (x : Entry) (xs : TextMap) → IsIn e (insert_source x xs) → (e ≡ x) ⊎ IsIn e xs
  unfolding insert_source
  IsIn-insert_source x [] h = h
  IsIn-insert_source x (y ∷ ys) h = elim (Bool-cases (text_lt y.0 x.0)) [
    | inr b ↦ subst (λ b. IsIn e (if b then y ∷ insert_source x ys else x ∷ y ∷ ys)) b h
    | inl b ↦ elim (subst (λ b. IsIn e (if b then y ∷ insert_source x ys else x ∷ y ∷ ys)) b h) [
      | inl same ↦ inr (inl same)
      | inr later ↦ elim (IsIn-insert_source x ys later) [
        | inl same ↦ inl same
        | inr inside ↦ inr (inr inside)
      ]
    ]
  ]

  pub sort_sources-IsIn : (xs : TextMap) → IsIn e xs → IsIn e (sort_sources xs)
  unfolding sort_sources
  sort_sources-IsIn [] h = h
  sort_sources-IsIn (x ∷ xs) (inl same) = insert_source-IsIn x _ (inl same)
  sort_sources-IsIn (x ∷ xs) (inr later) = insert_source-IsIn x _ (inr (sort_sources-IsIn xs later))

  pub IsIn-sort_sources : (xs : TextMap) → IsIn e (sort_sources xs) → IsIn e xs
  unfolding sort_sources
  IsIn-sort_sources [] h = h
  IsIn-sort_sources (x ∷ xs) h = elim (IsIn-insert_source x _ h) [
    | inl same ↦ inl same
    | inr later ↦ inr (IsIn-sort_sources xs later)
  ]

find_here : (k v : Text) (m : TextMap) → find k ((k, v) ∷ m) ≡ some v
unfolding find
find_here k v m = rw (text_eq_refl k) refl

find_later : (k l v : Text) (m : TextMap) → text_eq l k ≡ false → find k ((l, v) ∷ m) ≡ find k m
unfolding find
find_later k l v m h = rw h refl

-- What a way to put a value under a key does.
abbrev pub IsPut : (Text → Text → TextMap → TextMap) → Type 0
IsPut put =
    ((key value : Text) (m : TextMap) (k u : Text)
      → find k (put key value m) ≡ some u
      → ((k ≡ key) × (u ≡ value)) ⊎ (find k m ≡ some u))
    × ((key value : Text) (m : TextMap) (k : Text)
        → ((k ≡ key) × (is_empty k ≡ false)) ⊎ (find k m ≢ none)
        → find k (put key value m) ≢ none)

Find-cases : (o : Option Text) → (o ≡ none) ⊎ ((v : Text) × (o ≡ some v))
Find-cases none = inl refl
Find-cases (some v) = inr (v, refl)

module _ (key value : Text) (m : TextMap) (k : Text) where
  cons_found :
      (u : Text)
      → find k ((key, value) ∷ m) ≡ some u
      → ((k ≡ key) × (u ≡ value)) ⊎ (find k m ≡ some u)
  unfolding find
  cons_found u h = elim (Bool-cases (text_eq key k)) [
    | inl e ↦ inl (sym ((text_eq_iff key k).0 e), ground arith)
    | inr e ↦ inr (ground arith)
  ]

  cons_kept : (k ≡ key) ⊎ (find k m ≢ none) → find k ((key, value) ∷ m) ≢ none
  cons_kept (inl same) =
      subst (λ l. find k ((l, value) ∷ m) ≢ none) same (rw (find_here k value m) (λ e. cc))
  cons_kept (inr h) = elim (Bool-cases (text_eq key k)) [
    | inl e ↦
        subst (λ l. find k ((l, value) ∷ m) ≢ none) (sym ((text_eq_iff key k).0 e))
          (rw (find_here k value m) (λ e. cc))
    | inr e ↦ rw (find_later k key value m e) h
  ]

  put_key_found :
      (u : Text)
      → find k (put_key key value m) ≡ some u
      → ((k ≡ key) × (u ≡ value)) ⊎ (find k m ≡ some u)
  unfolding put_key
  put_key_found u = elim (Bool-cases (is_empty key)) [
    | inl e ↦ rw e (λ h. inr h)
    | inr e ↦ rw e (λ h. cons_found u h)
  ]

  put_key_kept :
      ((k ≡ key) × (is_empty k ≡ false)) ⊎ (find k m ≢ none) → find k (put_key key value m) ≢ none
  unfolding put_key
  put_key_kept h = elim (Bool-cases (is_empty key)) [
    | inl e ↦ rw e (elim h [
      | inl (same, full) ↦ absurd (let blank = ap is_empty same ∙ e in cc)
      | inr there ↦ there
    ])
    | inr e ↦ rw e (cons_kept (elim h [ inl (same, full) ↦ inl same | inr there ↦ inr there ]))
  ]

  put_first_old : (v : Text) → find key m ≡ some v → put_first key value m ≡ m
  unfolding put_first
  put_first_old v h = ground arith

  put_first_new : find key m ≡ none → put_first key value m ≡ put_key key value m
  unfolding put_first put_key
  put_first_new h = ground arith

  put_first_found :
      (u : Text)
      → find k (put_first key value m) ≡ some u
      → ((k ≡ key) × (u ≡ value)) ⊎ (find k m ≡ some u)
  put_first_found u h = elim (Find-cases (find key m)) [
    | inr (v, e) ↦ inr (subst (λ n. find k n ≡ some u) (put_first_old v e) h)
    | inl e ↦ put_key_found u (subst (λ n. find k n ≡ some u) (put_first_new e) h)
  ]

  put_first_kept :
      ((k ≡ key) × (is_empty k ≡ false)) ⊎ (find k m ≢ none) → find k (put_first key value m) ≢ none
  put_first_kept h = elim (Find-cases (find key m)) [
    | inr (v, e) ↦ rw (put_first_old v e) (elim h [
      | inl (same, full) ↦ rw (ap (λ l. find l m) same ∙ e) (λ x. cc)
      | inr there ↦ there
    ])
    | inl e ↦ rw (put_first_new e) (put_key_kept h)
  ]

pub cons-IsPut : IsPut (λ key value m. (key, value) ∷ m)
cons-IsPut = (
  λ key value m k u h. cons_found key value m k u h,
  λ key value m k h.
      cons_kept key value m k (elim h [ inl (same, full) ↦ inl same | inr there ↦ inr there ]),
)

pub put_key-IsPut : IsPut put_key
put_key-IsPut = (
  λ key value m k u h. put_key_found key value m k u h,
  λ key value m k h. put_key_kept key value m k h,
)

pub put_first-IsPut : IsPut put_first
put_first-IsPut = (
  λ key value m k u h. put_first_found key value m k u h,
  λ key value m k h. put_first_kept key value m k h,
)

-- An entry of which neither side is blank.
abbrev pub is_filled : Entry → Bool
is_filled e = not (is_empty (trim_space e.0) || is_empty (trim_space e.1))

module _ (put : Text → Text → TextMap → TextMap) (laws : IsPut put) (key value : Entry → Text) where
  unfoldable pub put_all : TextMap → TextMap → TextMap
  put_all [] m = m
  put_all (e ∷ es) m = put_all es (if is_filled e then put (key e) (value e) m else m)

  -- What is found comes from an entry with that key or was there before.
  abbrev pub IsFrom : TextMap → TextMap → Text → Text → Type 0
  IsFrom es m k u =
      ((e : Entry) × IsIn e es × (is_filled e ≡ true) × (k ≡ key e) × (u ≡ value e))
      ⊎ (find k m ≡ some u)

  pub put_all-found :
      (es m : TextMap) (k u : Text) → find k (put_all es m) ≡ some u → IsFrom es m k u
  unfolding put_all
  put_all-found [] m k u h = inr h
  put_all-found (e ∷ es) m k u h =
      elim (put_all-found es (if is_filled e then put (key e) (value e) m else m) k u h) [
        | inl (x, there, full, same, val) ↦ inl (x, inr there, full, same, val)
        | inr before ↦ elim (Bool-cases (is_filled e)) [
          | inl full ↦
              elim (laws.0 (key e) (value e) m k u (
                subst (λ b. find k (if b then put (key e) (value e) m else m) ≡ some u) full
                  before)) [
                    | inl (same, val) ↦ inl (e, inl refl, full, same, val)
                    | inr old ↦ inr old
                  ]
          | inr blank ↦
              inr (
                subst (λ b. find k (if b then put (key e) (value e) m else m) ≡ some u) blank
                  before)
        ]
      ]

  put_all_kept : (es m : TextMap) (k : Text) → find k m ≢ none → find k (put_all es m) ≢ none
  unfolding put_all
  put_all_kept [] m k h = h
  put_all_kept (e ∷ es) m k h = put_all_kept es _ k (elim (Bool-cases (is_filled e)) [
    | inl full ↦ if-true (λ n. find k n ≢ none) _ _ full (laws.1 (key e) (value e) m k (inr h))
    | inr blank ↦ if-false (λ n. find k n ≢ none) _ _ blank h
  ])

  pub put_all-keeps :
      (es m : TextMap) (e : Entry)
      → IsIn e es
      → is_filled e ≡ true
      → is_empty (key e) ≡ false
      → find (key e) (put_all es m) ≢ none
  unfolding put_all
  put_all-keeps (x ∷ es) m e (inl same) full h = put_all_kept es _ (key e) (
      if-true (λ n. find (key e) n ≢ none) _ _ (ap is_filled (sym same) ∙ full)
        (laws.1 (key x) (value x) m (key e) (inl (ap key same, h))))
  put_all-keeps (x ∷ es) m e (inr later) full h = put_all-keeps es _ e later full h
  put_all-keeps [] m e there full h = absurd there
