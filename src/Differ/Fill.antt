-- ===== src/Differ/Fill.antt =====
-- The loops of locker/builder_v3.go that fill a map, over any kind of item.
use mcptrust.Base.{
  ◌≡◌, refl, ◌∙◌, ap, sym, subst, ◌⊎◌, inl, inr, Bool, true, false, some, List, [], ◌∷◌, All, Bytes,
  bytes_eq, bytes_eq_refl, GoMap, lookup, insert, lookup-insert, Result, ok, ◌>>=◌, >>=-eq-ok,
  ok-injective, if◌then◌else◌,
}
use mcptrust.Differ.Index.{DistinctBy, bytes_eq_sym}

-- The loops of buildPrompts and buildTools: a map of what each item gives.
unfoldable pub fill :
    {A V : Type 0} → (A → Bytes) → (A → Result Bytes V) → List A → GoMap V → Result Bytes (GoMap V)
fill key make [] m = ok m
fill key make (x ∷ xs) m = make x >>= λ v. fill key make xs (insert (key x) v m)

pub fill-other :
    {A V : Type 0} (key : A → Bytes) (make : A → Result Bytes V) (xs : List A) (m r : GoMap V)
    (k : Bytes)
    → All (λ x. bytes_eq k (key x) ≡ false) xs
    → fill key make xs m ≡ ok r
    → lookup k r ≡ lookup k m
unfolding fill
fill-other key make [] m r k d h = ap (lookup k) (sym (ok-injective m r _ refl h))
fill-other key make (x ∷ xs) m r k d h =
    let run = >>=-eq-ok (make x) (λ v. fill key make xs (insert (key x) v m)) h in
    fill-other key make xs (insert (key x) run.0 m) r k d.1 run.2
    ∙ lookup-insert (key x) k run.0 m
    ∙ rw (bytes_eq_sym k (key x) d.0) refl

abbrev pub Made : {A V : Type 0} → (A → Bytes) → (A → Result Bytes V) → GoMap V → A → Type 0
Made {V = V} key make r x = (v : V) × (make x ≡ ok v) × (lookup (key x) r ≡ some v)

pub fill-Made :
    {A V : Type 0} (key : A → Bytes) (make : A → Result Bytes V) (xs : List A) (m r : GoMap V)
    → DistinctBy key xs
    → fill key make xs m ≡ ok r
    → All (Made key make r) xs
unfolding fill
fill-Made key make [] m r d h = tt
fill-Made key make (x ∷ xs) m r d h =
    let run = >>=-eq-ok (make x) (λ v. fill key make xs (insert (key x) v m)) h in
    (
      (
        run.0,
        run.1,
        fill-other key make xs (insert (key x) run.0 m) r (key x) d.0 run.2
            ∙ lookup-insert (key x) (key x) run.0 m
            ∙ rw (bytes_eq_refl (key x)) refl,
      ),
      fill-Made key make xs (insert (key x) run.0 m) r d.1 run.2,
    )

-- A predicate of a conditional, from and to its branches.
pub either_branch :
    {A : Type 0} (Q : A → Type 0) (b : Bool) (x y : A) → Q x → Q y → Q (if b then x else y)
either_branch Q true x y h k = h
either_branch Q false x y h k = k

pub branch_taken :
    {A : Type 0} (Q : A → Type 0) (b : Bool) (x y : A) → Q (if b then x else y) → Q x ⊎ Q y
branch_taken Q true x y h = inl h
branch_taken Q false x y h = inr h

pub All-insert :
    {V : Type 0} (P : Bytes → Type 0) (k : Bytes) (v : V) (m : GoMap V)
    → P k
    → All (λ e. P e.0) m
    → All (λ e. P e.0) (insert k v m)
unfolding insert
All-insert P k v [] p h = (p, tt)
All-insert P k v (e ∷ m) p h =
    either_branch (All (λ e. P e.0)) (bytes_eq e.0 k) _ _ (p, h.1) (h.0, All-insert P k v m p h.1)

pub fill-keys :
    {A V : Type 0} (P : Bytes → Type 0) (key : A → Bytes) (make : A → Result Bytes V) (xs : List A)
    (m r : GoMap V)
    → All (λ x. P (key x)) xs
    → All (λ e. P e.0) m
    → fill key make xs m ≡ ok r
    → All (λ e. P e.0) r
unfolding fill
fill-keys P key make [] m r p q h = subst (All (λ e. P e.0)) (ok-injective m r _ refl h) q
fill-keys P key make (x ∷ xs) m r p q h =
    let run = >>=-eq-ok (make x) (λ v. fill key make xs (insert (key x) v m)) h in
    fill-keys P key make xs (insert (key x) run.0 m) r p.1 (All-insert P (key x) run.0 m p.0 q)
      run.2
