-- ===== src/Redact/Cleaned.antt =====
-- RedactArgs of observability/receipt/redact.go: no secret that it knows is left.
use mcptrust.Base.{
  ℕ, suc, ◌≡◌, ◌≢◌, refl, ◌∙◌, ap, ap₂, sym, subst, ◌⊎◌, inl, inr, Bool, true, false, not, ◌&&◌,
  ◌||◌, Option, none, some, List, [], ◌∷◌, ◌++◌, ◌==◌, arith, Bool-cases, or_false, Option-cases,
  is_empty, length, Bytes, split_first, split_first-append, has_prefix,
}
use mcptrust.Redact.{
  has_any_prefix, is_sensitive_value, redacted_value, cut_value, named_value, matches_jwt,
  matches_long_secret, is_sensitive_flag, takes_secret, redact_pair, redact_plain, put, redact_loop,
  redact_args,
}

-- The part in front of the first occurrence stays in front of it, whatever follows.
split_first-again :
    (c : ℕ) (s a b other : Bytes)
    → split_first c s ≡ some (a, b)
    → split_first c (a ++ (c ∷ other)) ≡ some (a, other)
unfolding split_first
split_first-again c [] a b other h = cc
split_first-again c (x ∷ s) a b other h = elim (Bool-cases (x == c)) [
  | inl e ↦
      (let nothing : [] ≡ a = ground (arith, e, h) in
        subst (λ f. split_first c (f ++ (c ∷ other)) ≡ some (f, other)) nothing
          (split_first-append c [] other tt))
  | inr e ↦ elim (Option-cases (split_first c s)) [
    | inl f ↦ ground (arith, e, f, h)
    | inr ((front, back), f) ↦
        (let longer : x ∷ front ≡ a = ground (arith, e, f, h) in
          subst (λ f. split_first c (f ++ (c ∷ other)) ≡ some (f, other)) longer
            (rw (e, split_first-again c s front back other f) refl))
  ]
]

cut_value-again :
    (arg flag value other : Bytes)
    → cut_value arg ≡ some (flag, value)
    → cut_value (flag ++ (b'=' ∷ other)) ≡ some (flag, other)
unfolding cut_value named_value
cut_value-again arg flag value other h = elim (Option-cases (split_first b'=' arg)) [
  | inl f ↦ ground (arith, f, h)
  | inr ((front, back), f) ↦ elim (Bool-cases (is_empty front)) [
    | inl e ↦ ground (arith, e, f, h)
    | inr e ↦
        (let same : front ≡ flag = ground (arith, e, f, h) in
          subst (λ x. cut_value (x ++ (b'=' ∷ other)) ≡ some (x, other)) same
            (ap named_value (split_first-again b'=' arg front back other f) ∙ rw (e) refl))
  ]
]

redacted-insensitive : is_sensitive_value redacted_value ≡ false
unfolding is_sensitive_value has_any_prefix matches_jwt matches_long_secret has_prefix split_first
redacted-insensitive = refl

and_left : (a b : Bool) → (a && b) ≡ true → a ≡ true
and_left true b h = refl
and_left false b h = cc

and_kept : (a : Bool) → (a && true) ≡ false → a ≡ false
and_kept true h = cc
and_kept false h = refl

-- Each argument has its place in the result, and where nothing is marked nothing is changed.
abbrev pub KeepsPlaces : List Bytes → List Bytes × Bool → Type 0
KeepsPlaces args result = (length result.0 ≡ length args) × (result.1 ≡ false → result.0 ≡ args)

put-KeepsPlaces :
    (arg : Bytes) (args : List Bytes) (one : Bytes × Bool) (rest : List Bytes × Bool)
    → (one.1 ≡ false → one.0 ≡ arg)
    → KeepsPlaces args rest
    → KeepsPlaces (arg ∷ args) (put one rest)
put-KeepsPlaces arg args one rest h k = (
  ap (λ n. suc n) k.0,
  λ e. let both = or_false one.1 rest.1 e in ap₂ (λ a bs. a ∷ bs) (h both.0) (k.1 both.1),
)

module _ (to_lower : Bytes → Bytes) where
  -- An argument of the result: what stands behind its '=' is no secret, nor is the argument itself.
  abbrev pub IsClean : Bytes → Option (Bytes × Bytes) → Type 0
  IsClean arg none = (is_sensitive_value arg ≡ false) ⊎ (takes_secret to_lower arg ≡ true)
  IsClean arg (some (flag, value)) =
      (is_sensitive_value value ≡ false)
      × ((value ≡ redacted_value) ⊎ (is_sensitive_flag to_lower flag ≡ false))

  -- The argument behind a flag that takes a secret is the text "[REDACTED]".
  abbrev pub IsShielded : List Bytes → Type 0
  IsShielded [] = Unit
  IsShielded (arg ∷ args) = arg ≡ redacted_value

  abbrev pub AreClean : List Bytes → Type 0
  AreClean [] = Unit
  AreClean (arg ∷ args) =
      IsClean arg (cut_value arg)
      × (cut_value arg ≡ none → takes_secret to_lower arg ≡ true → IsShielded args)
      × AreClean args

  redacted-IsClean : IsClean redacted_value (cut_value redacted_value)
  unfolding cut_value split_first named_value
  redacted-IsClean = inl redacted-insensitive

  -- The result for one argument that is not cut.
  plain-IsClean :
      (arg : Bytes)
      → cut_value arg ≡ none
      → IsClean (redact_plain to_lower arg).0 (cut_value (redact_plain to_lower arg).0)
  unfolding redact_plain
  plain-IsClean arg h = elim (Bool-cases (is_sensitive_value arg)) [
    | inl e ↦ rw (e) redacted-IsClean
    | inr e ↦ rw (e, h) (inl e)
  ]

  pair-IsClean :
      (arg flag value : Bytes)
      → cut_value arg ≡ some (flag, value)
      → IsClean
          (redact_pair to_lower arg (flag, value)).0
          (cut_value (redact_pair to_lower arg (flag, value)).0)
  unfolding redact_pair
  pair-IsClean arg flag value h =
      elim (Bool-cases (is_sensitive_flag to_lower flag || is_sensitive_value value)) [
        | inl e ↦
            rw (e, cut_value-again arg flag value redacted_value h) (redacted-insensitive, inl refl)
        | inr e ↦
            rw (e, h)
              (let both = or_false (is_sensitive_flag to_lower flag) (is_sensitive_value value) e in
                (both.1, inr both.0))
      ]

  loop-pair :
      (arg : Bytes) (args : List Bytes) (parts : Bytes × Bytes)
      → cut_value arg ≡ some parts
      → redact_loop to_lower false (arg ∷ args)
        ≡ put (redact_pair to_lower arg parts) (redact_loop to_lower false args)
  unfolding redact_loop
  loop-pair arg args parts e = rw (e, redact_loop) refl

  loop-flag :
      (arg : Bytes) (args : List Bytes)
      → cut_value arg ≡ none
      → (takes_secret to_lower arg && not (is_empty args)) ≡ true
      → redact_loop to_lower false (arg ∷ args) ≡ put (arg, true) (redact_loop to_lower true args)
  unfolding redact_loop
  loop-flag arg args e f = rw (e, f, redact_loop) refl

  loop-plain :
      (arg : Bytes) (args : List Bytes)
      → cut_value arg ≡ none
      → (takes_secret to_lower arg && not (is_empty args)) ≡ false
      → redact_loop to_lower false (arg ∷ args)
        ≡ put (redact_plain to_lower arg) (redact_loop to_lower false args)
  unfolding redact_loop
  loop-plain arg args e f = rw (e, f, redact_loop) refl

  -- A cut argument stays cut.
  pair-some :
      (arg flag value : Bytes)
      → cut_value arg ≡ some (flag, value)
      → cut_value (redact_pair to_lower arg (flag, value)).0 ≢ none
  unfolding redact_pair
  pair-some arg flag value h =
      elim (Bool-cases (is_sensitive_flag to_lower flag || is_sensitive_value value)) [
        | inl e ↦ rw (e, cut_value-again arg flag value redacted_value h) (λ n. cc)
        | inr e ↦ rw (e, h) (λ n. cc)
      ]

  redacted-no_flag : takes_secret to_lower redacted_value ≡ false
  unfolding takes_secret has_prefix
  redacted-no_flag = refl

  plain-last :
      (arg : Bytes) (args : List Bytes)
      → (takes_secret to_lower arg && not (is_empty args)) ≡ false
      → takes_secret to_lower (redact_plain to_lower arg).0 ≡ true
      → args ≡ []
  unfolding redact_plain
  plain-last arg [] f t = refl
  plain-last arg (a ∷ args) f t =
      let no = redacted-no_flag in
      elim (Bool-cases (is_sensitive_value arg)) [
        | inl e ↦
            (let shown : (redact_plain to_lower arg).0 ≡ redacted_value = rw (e) refl in
              let yes = subst (λ x. takes_secret to_lower x ≡ true) shown t in cc)
        | inr e ↦
            (let shown : (redact_plain to_lower arg).0 ≡ arg = rw (e) refl in
              let yes = subst (λ x. takes_secret to_lower x ≡ true) shown t in
              let not_yes = and_kept (takes_secret to_lower arg) f in cc)
      ]

  -- What the loop keeps, as it starts on an argument and on the value of a sensitive flag.
  abbrev IsKept : List Bytes → Type 0
  IsKept args =
      AreClean (redact_loop to_lower false args).0
      × AreClean (redact_loop to_lower true args).0
      × IsShielded (redact_loop to_lower true args).0

  nothing-IsShielded : IsShielded (redact_loop to_lower false []).0
  unfolding redact_loop
  nothing-IsShielded = tt

  loop-false :
      (arg : Bytes) (args : List Bytes)
      → IsKept args
      → AreClean (redact_loop to_lower false (arg ∷ args)).0
  loop-false arg args k = elim (Option-cases (cut_value arg)) [
    | inr ((flag, value), e) ↦
        rw (loop-pair arg args (flag, value) e)
          (pair-IsClean arg flag value e, λ n _. elim (pair-some arg flag value e n) [ ], k.0)
    | inl e ↦ elim (Bool-cases (takes_secret to_lower arg && not (is_empty args))) [
      | inl f ↦ rw (loop-flag arg args e f, e) (inr (and_left _ _ f), λ _ _. k.2, k.1)
      | inr f ↦ rw (loop-plain arg args e f) (
        plain-IsClean arg e,
        λ n t.
            subst (λ a. IsShielded (redact_loop to_lower false a).0) (sym (plain-last arg args f t))
              nothing-IsShielded,
        k.0,
      )
    ]
  ]

  loop-IsKept : (args : List Bytes) → IsKept args
  unfolding redact_loop
  loop-IsKept [] = (tt, tt, tt)
  loop-IsKept (arg ∷ args) =
      let rest = loop-IsKept args in
      (
        loop-false arg args rest,
        (redacted-IsClean, λ n t. (let no = redacted-no_flag in cc), rest.0),
        refl,
      )

  pair-same :
      (arg : Bytes) (parts : Bytes × Bytes)
      → (redact_pair to_lower arg parts).1 ≡ false
      → (redact_pair to_lower arg parts).0 ≡ arg
  unfolding redact_pair
  pair-same arg (flag, value) h =
      elim (Bool-cases (is_sensitive_flag to_lower flag || is_sensitive_value value)) [
        | inl e ↦ (let yes : (redact_pair to_lower arg (flag, value)).1 ≡ true = rw (e) refl in cc)
        | inr e ↦ rw (e) refl
      ]

  plain-same :
      (arg : Bytes) → (redact_plain to_lower arg).1 ≡ false → (redact_plain to_lower arg).0 ≡ arg
  unfolding redact_plain
  plain-same arg h = elim (Bool-cases (is_sensitive_value arg)) [
    | inl e ↦ ground (arith, e, h)
    | inr e ↦ rw (e) refl
  ]

  loop-KeepsPlaces :
      (args : List Bytes)
      → KeepsPlaces args (redact_loop to_lower false args)
        × (length (redact_loop to_lower true args).0 ≡ length args)
  unfolding redact_loop
  loop-KeepsPlaces [] = ((refl, λ _. refl), refl)
  loop-KeepsPlaces (arg ∷ args) =
      let rest = loop-KeepsPlaces args in
      (
        elim (Option-cases (cut_value arg)) [
          | inr (parts, e) ↦ rw (loop-pair arg args parts e) (
              put-KeepsPlaces arg args (redact_pair to_lower arg parts)
                (redact_loop to_lower false args) (pair-same arg parts) rest.0)
          | inl e ↦ elim (Bool-cases (takes_secret to_lower arg && not (is_empty args))) [
            | inl f ↦ rw (loop-flag arg args e f) (ap (λ n. suc n) rest.1, λ h. cc)
            | inr f ↦ rw (loop-plain arg args e f) (
                put-KeepsPlaces arg args (redact_plain to_lower arg)
                  (redact_loop to_lower false args) (plain-same arg) rest.0)
          ]
        ],
        ap (λ n. suc n) rest.0.0,
      )

  -- In the redacted arguments no value behind '=' is a secret, nor is one of a sensitive flag left
  -- there, no other argument is a secret unless it is a sensitive flag itself, and behind such a flag
  -- stands "[REDACTED]" or nothing. There are as many arguments as before, and if the function says
  -- that it redacted none, they are the same.
  pub redact_args-AreClean :
      (args : List Bytes)
      → AreClean (redact_args to_lower args).0 × KeepsPlaces args (redact_args to_lower args)
  unfolding redact_args
  redact_args-AreClean args = ((loop-IsKept args).0, (loop-KeepsPlaces args).0)
