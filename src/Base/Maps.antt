-- ===== src/Base/Maps.antt =====
-- A Go map with string keys as an association list. The order of the list stands for the order
-- in which a range statement visits the map, which Go leaves open.
use Prim.Native.Nat.{suc, ◌≤◌}
use mathlib.Core.Path.{◌≡◌, refl, subst}
use mathlib.Core.Logic.{inl, inr}
use mathlib.Core.Option.{Option, none, some}
use mathlib.Core.List.{List, [], ◌∷◌}
use native.Mathlib.Omega.{arith}
use mcptrust.Base.Tests.{if◌then◌else◌, Bool-cases}
use mcptrust.Base.Lists.{length, All}
use mcptrust.Base.Texts.{Bytes, bytes_eq, bytes_eq_refl, bytes_eq_iff}

abbrev pub GoMap {ℓ} : Type ℓ → Type ℓ
GoMap V = List (Bytes × V)

module _ {ℓ} {V : Type ℓ} where
  unfoldable pub lookup : Bytes → GoMap V → Option V
  lookup k [] = none
  lookup k ((j, v) ∷ m) = if bytes_eq j k then some v else lookup k m

  unfoldable pub insert : Bytes → V → GoMap V → GoMap V
  insert k v [] = (k, v) ∷ []
  insert k v ((j, w) ∷ m) = if bytes_eq j k then (k, v) ∷ m else (j, w) ∷ insert k v m

  unfoldable pub delete : Bytes → GoMap V → GoMap V
  delete k [] = []
  delete k ((j, w) ∷ m) = if bytes_eq j k then delete k m else (j, w) ∷ delete k m

  pub lookup-insert :
      (k j : Bytes) (v : V) (m : GoMap V)
      → lookup j (insert k v m) ≡ (if bytes_eq k j then some v else lookup j m)
  unfolding lookup insert
  lookup-insert k j v [] = refl
  lookup-insert k j v ((i, w) ∷ m) =
      ground (arith, bytes_eq_iff k j, bytes_eq_iff i k, bytes_eq_iff i j, lookup-insert k j v m)

  pub lookup-delete :
      (k j : Bytes) (m : GoMap V)
      → lookup j (delete k m) ≡ (if bytes_eq k j then none else lookup j m)
  unfolding lookup delete
  lookup-delete k j [] = ground arith
  lookup-delete k j ((i, w) ∷ m) =
      ground (arith, bytes_eq_iff k j, bytes_eq_iff i k, bytes_eq_iff i j, lookup-delete k j m)

  pub length-insert_new :
      (k : Bytes) (v : V) (m : GoMap V) → lookup k m ≡ none → length (insert k v m) ≡ suc (length m)
  unfolding lookup insert
  length-insert_new k v [] h = refl
  length-insert_new k v ((i, w) ∷ m) h = ground (arith, length-insert_new k v m)

  pub length-insert-le : (k : Bytes) (v : V) (m : GoMap V) → length (insert k v m) ≤ suc (length m)
  unfolding insert
  length-insert-le k v [] = omega arith
  length-insert-le k v ((i, w) ∷ m) = ground (arith, length-insert-le k v m)

  pub length-delete-le : (k : Bytes) (m : GoMap V) → length (delete k m) ≤ length m
  unfolding delete
  length-delete-le k [] = omega arith
  length-delete-le k ((i, w) ∷ m) = ground (arith, length-delete-le k m)

  -- Deleting a key that is there makes the map shorter.
  pub length-delete-lt :
      (k : Bytes) (v : V) (m : GoMap V) → lookup k m ≡ some v → suc (length (delete k m)) ≤ length m
  unfolding lookup delete
  length-delete-lt k v [] h = ground arith
  length-delete-lt k v ((i, w) ∷ m) h = ground (arith, length-delete-lt k v m, length-delete-le k m)

  -- No key stands twice, as in every Go map.
  abbrev pub Distinct : GoMap V → Type ℓ
  Distinct [] = Unit
  Distinct ((k, v) ∷ m) = (lookup k m ≡ none) × Distinct m

  -- What holds of all entries holds of what a key is mapped to, and conversely.
  pub All-lookup {κ} :
      (P : Bytes → V → Type κ) (m : GoMap V) (k : Bytes) (v : V)
      → All (λ e. P e.0 e.1) m
      → lookup k m ≡ some v
      → P k v
  unfolding lookup
  All-lookup P [] k v h e = cc
  All-lookup P ((j, w) ∷ m) k v h e = elim (Bool-cases (bytes_eq j k)) [
    | inl same ↦
        (let same_value : w ≡ v = ground (arith, e, same) in
          subst (P k) same_value (subst (λ i. P i w) ((bytes_eq_iff j k).0 same) h.0))
    | inr other ↦ All-lookup P m k v h.1 (ground (arith, e, other))
  ]

  pub lookup-All {κ} :
      (P : Bytes → V → Type κ) (m : GoMap V)
      → Distinct m
      → ((k : Bytes) (v : V) → lookup k m ≡ some v → P k v)
      → All (λ e. P e.0 e.1) m
  unfolding lookup
  lookup-All P [] d h = tt
  lookup-All P ((j, w) ∷ m) d h = (
    h j w (rw (bytes_eq_refl j) refl),
    lookup-All P m d.1 (λ k v e. h k v (ground (arith, e, d.0, bytes_eq_iff j k))),
  )
