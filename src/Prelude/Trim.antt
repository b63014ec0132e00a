-- ===== src/Prelude/Trim.antt =====
-- Laws of trimming, prefixes and substrings.
use Prim.Native.Nat.{ℕ}
use mathlib.Core.Path.{◌≡◌, refl, ap, ◌∙◌, subst}
use mathlib.Core.Logic.{inl, inr}
use mathlib.Core.Bool.{Bool, true, false}
use mathlib.Core.List.{[], ◌∷◌, ◌++◌}
use native.Mathlib.Omega.{arith}
use new_api_gateway.Prelude.Tests.{Bool-cases, ==_iff}
use new_api_gateway.Prelude.Strings.{
  Text, is_empty, is_space, drop_while, drop_while_end, trim, trim_space, has_prefix, drop_prefix,
  trim_prefix,
}

module _ (p : ℕ → Bool) where
  -- `t` starts with no character that `p` accepts.
  abbrev StartsClean : Text → Type 0
  StartsClean [] = Unit
  StartsClean (x ∷ t) = p x ≡ false

  drop_while-StartsClean : (t : Text) → StartsClean (drop_while p t)
  unfolding drop_while
  drop_while-StartsClean [] = tt
  drop_while-StartsClean (x ∷ t) = elim (Bool-cases (p x)) [
    | inl e ↦ rw e (drop_while-StartsClean t)
    | inr e ↦ rw e e
  ]

  drop_while_end-StartsClean : (t : Text) → StartsClean t → StartsClean (drop_while_end p t)
  unfolding drop_while_end
  drop_while_end-StartsClean [] h = tt
  drop_while_end-StartsClean (x ∷ t) h = elim (Bool-cases (is_empty (drop_while_end p t))) [
    | inl e ↦ rw (e, h) h
    | inr e ↦ rw e h
  ]

  drop_while_fix : (t : Text) → StartsClean t → drop_while p t ≡ t
  unfolding drop_while
  drop_while_fix [] h = refl
  drop_while_fix (x ∷ t) h = rw h

  pub drop_while_end-drop_while_end :
      (t : Text) → drop_while_end p (drop_while_end p t) ≡ drop_while_end p t
  unfolding drop_while_end
  drop_while_end-drop_while_end [] = refl
  drop_while_end-drop_while_end (x ∷ t) = ground (arith, drop_while_end-drop_while_end t)

  pub trim-trim : (t : Text) → trim p (trim p t) ≡ trim p t
  unfolding trim
  trim-trim t =
      ap (drop_while_end p) (
        drop_while_fix (drop_while_end p (drop_while p t))
          (drop_while_end-StartsClean (drop_while p t) (drop_while-StartsClean t)))
      ∙ drop_while_end-drop_while_end (drop_while p t)

pub trim_space-trim_space : (t : Text) → trim_space (trim_space t) ≡ trim_space t
unfolding trim_space
trim_space-trim_space t = trim-trim is_space t

drop_while_end-trim_space : (t : Text) → drop_while_end is_space (trim_space t) ≡ trim_space t
unfolding trim_space
drop_while_end-trim_space t = drop_while_end-drop_while_end is_space (drop_while is_space t)

pub has_prefix-drop_prefix : (t s : Text) → has_prefix t s ≡ true → s ++ drop_prefix t s ≡ t
unfolding has_prefix drop_prefix
has_prefix-drop_prefix t [] h = refl
has_prefix-drop_prefix [] (x ∷ s) h = cc
has_prefix-drop_prefix (y ∷ t) (x ∷ s) h = ground (arith, ==_iff y x, has_prefix-drop_prefix t s)

pub append-trim_prefix : (t s : Text) → has_prefix t s ≡ true → s ++ trim_prefix t s ≡ t
unfolding trim_prefix
append-trim_prefix t s h = rw h (has_prefix-drop_prefix t s h)

pub trim_prefix_absent : (t s : Text) → has_prefix t s ≡ false → trim_prefix t s ≡ t
unfolding trim_prefix
trim_prefix_absent t s h = rw h

-- A letter in front of a trimmed text leaves it trimmed.
drop_while_end-cons :
    (p : ℕ → Bool) (x : ℕ) (t : Text)
    → p x ≡ false
    → drop_while_end p (x ∷ t) ≡ x ∷ drop_while_end p t
unfolding drop_while_end
drop_while_end-cons p x t h = elim (Bool-cases (is_empty (drop_while_end p t))) [
  | inl e ↦ rw (e, h)
  | inr e ↦ rw e
]

module _ (a b c : ℕ) (ha : is_space a ≡ false) (hb : is_space b ≡ false)
    (hc : is_space c ≡ false) where
  trim_space-cons : (t : Text) → trim_space t ≡ t → trim_space (a ∷ b ∷ c ∷ t) ≡ a ∷ b ∷ c ∷ t
  unfolding trim_space trim drop_while
  trim_space-cons t h = rw ha (
      drop_while_end-cons is_space a (b ∷ c ∷ t) ha
      ∙ ap (λ r. a ∷ r)
          (drop_while_end-cons is_space b (c ∷ t) hb
            ∙ ap (λ r. b ∷ r)
                (drop_while_end-cons is_space c t hc ∙ ap (λ r. c ∷ r) (ends_clean t h))))
    where
      ends_clean : (t : Text) → trim_space t ≡ t → drop_while_end is_space t ≡ t
      ends_clean t e = subst (λ u. drop_while_end is_space u ≡ u) e (drop_while_end-trim_space t)

  -- The marker `a b c` put back in front of a trimmed text that has lost it, or never had it.
  pub trim_space-marked :
      (t : Text)
      → trim_space t ≡ t
      → let s = a ∷ b ∷ c ∷ [] in trim_space (s ++ trim_prefix t s) ≡ s ++ trim_prefix t s
  unfolding trim_prefix
  trim_space-marked t h = elim (Bool-cases (has_prefix t (a ∷ b ∷ c ∷ []))) [
    | inl e ↦ rw (e, has_prefix-drop_prefix t (a ∷ b ∷ c ∷ []) e) h
    | inr e ↦ rw e (trim_space-cons t h)
  ]
