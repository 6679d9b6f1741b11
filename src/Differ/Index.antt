-- ===== src/Differ/Index.antt =====
-- The loops of differ/v3.go over any kind of item, and the maps that they look into.
use mcptrust.Base.{
  ◌≡◌, refl, ◌∙◌, ap, true, false, some, List, [], ◌∷◌, ◌++◌, append-eq-nil, arith, All, Bytes,
  bytes_eq, bytes_eq_iff, bytes_eq_refl, GoMap, lookup, insert, lookup-insert, is_some, Result, ok,
  ◌>>=◌, >>=-eq-ok, ok-injective,
}
use mcptrust.Differ.{DriftItem, index, removed, each}

abbrev pub DistinctBy : {A : Type 0} → (A → Bytes) → List A → Type 0
DistinctBy key [] = Unit
DistinctBy key (x ∷ xs) = All (λ y. bytes_eq (key x) (key y) ≡ false) xs × DistinctBy key xs

pub All-map :
    {A : Type 0} {P Q : A → Type 0} → ((a : A) → P a → Q a) → (xs : List A) → All P xs → All Q xs
All-map f [] h = h
All-map f (x ∷ xs) h = (f x h.0, All-map f xs h.1)

pub bytes_eq_sym : (s t : Bytes) → bytes_eq s t ≡ false → bytes_eq t s ≡ false
bytes_eq_sym s t h = ground (arith, bytes_eq_iff s t, bytes_eq_iff t s)

-- Nothing was removed exactly when the scan has every locked name.
pub removed-nil :
    {A B : Type 0} (item : Bytes → DriftItem) (m : GoMap A) (current : GoMap B)
    → All (λ e. is_some (lookup e.0 current) ≡ true) m
    → removed item m current ≡ []
unfolding removed
removed-nil item [] current h = refl
removed-nil item (e ∷ m) current h = rw (h.0) (removed-nil item m current h.1)

pub nil-removed :
    {A B : Type 0} (item : Bytes → DriftItem) (m : GoMap A) (current : GoMap B)
    → removed item m current ≡ []
    → All (λ e. is_some (lookup e.0 current) ≡ true) m
unfolding removed
nil-removed item [] current h = tt
nil-removed item (e ∷ m) current h = (ground arith, nil-removed item m current (ground arith))

pub each-nil :
    {A : Type 0} (items : A → Result Bytes (List DriftItem)) (xs : List A)
    → All (λ x. items x ≡ ok []) xs
    → each items xs ≡ ok []
unfolding each
each-nil items [] h = refl
each-nil items (x ∷ xs) h = rw (h.0, each-nil items xs h.1) refl

pub nil-each :
    {A : Type 0} (items : A → Result Bytes (List DriftItem)) (xs : List A)
    → each items xs ≡ ok []
    → All (λ x. items x ≡ ok []) xs
unfolding each
nil-each items [] h = tt
nil-each items (x ∷ xs) h =
    let here = >>=-eq-ok (items x) (λ a. each items xs >>= λ rest. ok (a ++ rest)) h in
    let rest = >>=-eq-ok (each items xs) (λ r. ok (here.0 ++ r)) here.2 in
    let both =
      append-eq-nil here.0 rest.0
        (ok-injective (here.0 ++ rest.0) [] (ok (here.0 ++ rest.0)) refl rest.2) in
    (here.1 ∙ ap ok both.0, nil-each items xs (rest.1 ∙ ap ok both.1))

-- What index leaves in the map.
pub index-keeps :
    {A : Type 0} (key : A → Bytes) (xs : List A) (m : GoMap A) (k : Bytes)
    → is_some (lookup k m) ≡ true
    → is_some (lookup k (index key xs m)) ≡ true
unfolding index
index-keeps key [] m k h = h
index-keeps key (x ∷ xs) m k h =
    index-keeps key xs (insert (key x) x m) k (ground (arith, lookup-insert (key x) k x m))

pub index-keys :
    {A : Type 0} (key : A → Bytes) (xs : List A) (m : GoMap A)
    → All (λ x. is_some (lookup (key x) (index key xs m)) ≡ true) xs
unfolding index
index-keys key [] m = tt
index-keys key (x ∷ xs) m = (
  index-keeps key xs (insert (key x) x m) (key x)
      (ground (arith, lookup-insert (key x) (key x) x m, bytes_eq_refl (key x))),
  index-keys key xs (insert (key x) x m),
)

pub index-other :
    {A : Type 0} (key : A → Bytes) (xs : List A) (m : GoMap A) (k : Bytes)
    → All (λ x. bytes_eq (key x) k ≡ false) xs
    → lookup k (index key xs m) ≡ lookup k m
unfolding index
index-other key [] m k h = refl
index-other key (x ∷ xs) m k h =
    rw (index-other key xs (insert (key x) x m) k h.1, lookup-insert (key x) k x m, h.0) refl

pub index-found :
    {A : Type 0} (key : A → Bytes) (xs : List A) (m : GoMap A)
    → DistinctBy key xs
    → All (λ x. lookup (key x) (index key xs m) ≡ some x) xs
unfolding index
index-found key [] m d = tt
index-found key (x ∷ xs) m d = (
  rw
      (
        index-other key xs (insert (key x) x m) (key x)
            (All-map (λ y h. bytes_eq_sym (key x) (key y) h) xs d.0),
        lookup-insert (key x) (key x) x m,
        bytes_eq_refl (key x),
      )
      refl,
  index-found key xs (insert (key x) x m) d.1,
)
