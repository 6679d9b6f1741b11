-- ===== src/Base/Texts.antt =====
-- Go strings as lists of bytes, and what package strings does on them.
use Prim.Native.Nat.{ℕ}
use Prim.Native.Char.{code}
use Prim.Native.String.{String}
use mathlib.Core.Path.{◌≡◌, refl}
use mathlib.Core.Logic.{◌↔◌, ◌≢◌, inl, inr}
use mathlib.Core.Bool.{Bool, true, false, ◌&&◌, ◌||◌}
use mathlib.Core.List.{List, [], ◌∷◌, ◌++◌}
use native.Mathlib.Omega.{arith}
use mcptrust.Base.Tests.{◌==◌, ltb, Bool-cases}

abbrev pub Bytes : Type 0
Bytes = List ℕ

-- The bytes of an ASCII literal. `String` has its own `[]` and `∷`.
abbrev pub codes : String → Bytes
codes String.[] = []
codes (String.◌∷◌ c s) = code c ∷ codes s

unfoldable pub bytes_eq : Bytes → Bytes → Bool
bytes_eq [] [] = true
bytes_eq [] (b ∷ t) = false
bytes_eq (a ∷ s) [] = false
bytes_eq (a ∷ s) (b ∷ t) = a == b && bytes_eq s t

bytes_eq→eq : (s t : Bytes) → bytes_eq s t ≡ true → s ≡ t
unfolding bytes_eq
bytes_eq→eq [] [] h = refl
bytes_eq→eq [] (b ∷ t) h = ground arith
bytes_eq→eq (a ∷ s) [] h = ground arith
bytes_eq→eq (a ∷ s) (b ∷ t) h = ground (arith, bytes_eq→eq s t)

pub bytes_eq_refl : (s : Bytes) → bytes_eq s s ≡ true
unfolding bytes_eq
bytes_eq_refl [] = refl
bytes_eq_refl (a ∷ s) = ground (arith, bytes_eq_refl s)

eq→bytes_eq : (s t : Bytes) → s ≡ t → bytes_eq s t ≡ true
eq→bytes_eq s t h = rw (← h) (bytes_eq_refl s)

pub bytes_eq→ne : (s t : Bytes) → bytes_eq s t ≡ false → s ≢ t
bytes_eq→ne s t h e = let same = eq→bytes_eq s t e in cc

pub ne→bytes_eq : (s t : Bytes) → s ≢ t → bytes_eq s t ≡ false
ne→bytes_eq s t n = elim (Bool-cases (bytes_eq s t)) [
  | inl same ↦ absurd (n (bytes_eq→eq s t same))
  | inr other ↦ other
]

pub bytes_eq_iff : (s t : Bytes) → (bytes_eq s t ≡ true) ↔ (s ≡ t)
bytes_eq_iff s t = (bytes_eq→eq s t, eq→bytes_eq s t)

-- strings.HasPrefix(s, p).
unfoldable pub has_prefix : Bytes → Bytes → Bool
has_prefix s [] = true
has_prefix [] (b ∷ p) = false
has_prefix (a ∷ s) (b ∷ p) = a == b && has_prefix s p

-- strings.Contains(s, p).
unfoldable pub contains : Bytes → Bytes → Bool
unfolding has_prefix
contains [] p = has_prefix [] p
contains (a ∷ s) p = has_prefix (a ∷ s) p || contains s p

pub has_prefix-append : (p s : Bytes) → has_prefix (p ++ s) p ≡ true
unfolding has_prefix
has_prefix-append [] s = refl
has_prefix-append (b ∷ p) s = ground (arith, has_prefix-append p s)

abbrev pub elem : Bytes → List Bytes → Bool
elem k [] = false
elem k (u ∷ us) = bytes_eq u k || elem k us

-- s < t on Go strings: byte by byte.
unfoldable pub bytes_lt : Bytes → Bytes → Bool
bytes_lt s [] = false
bytes_lt [] (b ∷ t) = true
bytes_lt (a ∷ s) (b ∷ t) = ltb a b || (a == b && bytes_lt s t)
