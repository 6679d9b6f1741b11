-- ===== src/Base/Splits.antt =====
-- Cutting texts: strings.Index, strings.LastIndex, strings.TrimSpace and strings.Fields, with the
-- slices that the code takes of their results.
use Prim.Native.Nat.{ℕ}
use mathlib.Core.Path.{◌≡◌, refl}
use mathlib.Core.Bool.{Bool, false, ◌&&◌, ◌||◌}
use mathlib.Core.Option.{Option, none, some}
use mathlib.Core.List.{List, [], ◌∷◌, ◌++◌}
use native.Mathlib.Omega.{arith}
use mcptrust.Base.Tests.{◌==◌, if◌then◌else◌}
use mcptrust.Base.Lists.{All, is_empty}
use mcptrust.Base.Texts.{Bytes}

-- The byte does not stand in the text.
abbrev pub Lacks : ℕ → Bytes → Type 0
Lacks c s = All (λ x. (x == c) ≡ false) s

abbrev pub has_byte : ℕ → Bytes → Bool
has_byte c [] = false
has_byte c (x ∷ s) = x == c || has_byte c s

-- s[:i] and s[i+1:] at the first occurrence of the byte.
unfoldable pub split_first : ℕ → Bytes → Option (Bytes × Bytes)
split_first c [] = none
split_first c (x ∷ s) =
    if x == c
    then some ([], s)
    else elim (split_first c s) [ none ↦ none | some (a, b) ↦ some (x ∷ a, b) ]

-- s[:i] and s[i+1:] at the last occurrence.
unfoldable pub split_last : ℕ → Bytes → Option (Bytes × Bytes)
split_last c [] = none
split_last c (x ∷ s) = elim (split_last c s) [
  | some (a, b) ↦ some (x ∷ a, b)
  | none ↦ if x == c then some ([], s) else none
]

pub split_first-Lacks : (c : ℕ) (s : Bytes) → Lacks c s → split_first c s ≡ none
unfolding split_first
split_first-Lacks c [] h = refl
split_first-Lacks c (x ∷ s) h = rw (h.0, split_first-Lacks c s h.1) refl

pub split_last-Lacks : (c : ℕ) (s : Bytes) → Lacks c s → split_last c s ≡ none
unfolding split_last
split_last-Lacks c [] h = refl
split_last-Lacks c (x ∷ s) h = rw (split_last-Lacks c s h.1, h.0) refl

pub split_first-append :
    (c : ℕ) (a b : Bytes) → Lacks c a → split_first c (a ++ (c ∷ b)) ≡ some (a, b)
unfolding split_first
split_first-append c [] b h = ground arith
split_first-append c (x ∷ a) b h = rw (h.0, split_first-append c a b h.1) refl

pub split_last-append :
    (c : ℕ) (a b : Bytes) → Lacks c b → split_last c (a ++ (c ∷ b)) ≡ some (a, b)
unfolding split_last
split_last-append c [] b h = rw (split_last-Lacks c b h) (ground arith)
split_last-append c (x ∷ a) b h = rw (split_last-append c a b h) refl

pub has_byte-Lacks : (c : ℕ) (s : Bytes) → Lacks c s → has_byte c s ≡ false
has_byte-Lacks c [] h = refl
has_byte-Lacks c (x ∷ s) h = rw (h.0, has_byte-Lacks c s h.1) refl

module _ (is_space : ℕ → Bool) where
  unfoldable pub trim_left : Bytes → Bytes
  trim_left [] = []
  trim_left (c ∷ s) = let rest = trim_left s in if is_space c then rest else c ∷ s

  unfoldable pub trim_right : Bytes → Bytes
  trim_right [] = []
  trim_right (c ∷ s) =
      let rest = trim_right s in if is_empty rest && is_space c then [] else c ∷ rest

  unfoldable pub trim_space : Bytes → Bytes
  unfolding trim_left trim_right
  trim_space s = trim_right (trim_left s)

  -- The field that is read, and the fields behind it.
  fields_from : Bytes → Bytes → List Bytes
  fields_from current [] = if is_empty current then [] else current ∷ []
  fields_from current (c ∷ s) =
      let next = fields_from [] s in
      let more = fields_from (current ++ (c ∷ [])) s in
      if is_space c then (if is_empty current then next else current ∷ next) else more

  unfoldable pub fields : Bytes → List Bytes
  unfolding fields_from
  fields s = fields_from [] s

  pub trim_right-lem : (s : Bytes) → All (λ c. is_space c ≡ false) s → trim_right s ≡ s
  unfolding trim_right
  trim_right-lem [] h = refl
  trim_right-lem (c ∷ s) h = ground (arith, trim_right-lem s h.1)

  -- A text with no space is not trimmed.
  pub trim_space_lem : (s : Bytes) → All (λ c. is_space c ≡ false) s → trim_space s ≡ s
  unfolding trim_space trim_left
  trim_space_lem [] h = refl
  trim_space_lem (c ∷ s) h = rw (h.0) (trim_right-lem (c ∷ s) h)
