-- ===== src/Runner/Override.antt =====
-- ValidateArtifactMatch of runner/sanitize.go: a command that is given in place of the pinned one has
-- to name the pinned package.
use mcptrust.Base.{
  ℕ, ◌≡◌, refl, ap, ◌↔◌, ◌⊎◌, inl, inr, Bool, true, false, not, ◌&&◌, ◌||◌, List, [], ◌∷◌, ◌++◌,
  arith, if◌then◌else◌, Bool-cases, is_empty, All, Bytes, codes, bytes_eq, bytes_eq_iff, has_prefix,
  contains, elem, Result, ok, err, ◌>>=◌, >>=-eq-ok,
}
use mcptrust.Artifact.Reference.{parse_package_spec}
use mcptrust.Runner.Command.{
  CommandError, other_package, other_version, no_package_spec, parse_server_command,
}

abbrev skip_binaries : List Bytes
skip_binaries =
    codes "npx" ∷ codes "docker" ∷ codes "run" ∷ codes "node" ∷ codes "npm" ∷ codes "env" ∷ []

-- The words that the loop passes over: known programs, flags and paths.
unfoldable pub is_passed : Bytes → Bool
is_passed arg =
    elem arg skip_binaries
    || (has_prefix arg (codes "-")
        || (not (has_prefix arg (codes "@"))
            && (has_prefix arg (codes "/")
                || (has_prefix arg (codes "./")
                    || (has_prefix arg (codes "../")
                        || (contains arg (codes "/") && not (contains arg (codes "@"))))))))

-- The verdict on the first other word.
unfoldable pub match_package : Bytes → Bytes → Bytes → Result {0} CommandError Unit
unfolding parse_package_spec
match_package pinned_name pinned_version arg =
    let spec = parse_package_spec arg in
    if not (bytes_eq spec.0 pinned_name)
    then err (other_package spec.0 pinned_name)
    else if not (is_empty spec.1) && not (bytes_eq spec.1 pinned_version)
    then err (other_version spec.1 pinned_version)
    else ok tt

unfoldable pub match_args : Bytes → Bytes → List Bytes → Result {0} CommandError Unit
unfolding is_passed match_package
match_args pinned_name pinned_version [] = err no_package_spec
match_args pinned_name pinned_version (arg ∷ args) =
    if is_passed arg
    then match_args pinned_name pinned_version args
    else match_package pinned_name pinned_version arg

unfoldable pub validate_artifact_match :
    (ℕ → Bool) → Bytes → Bytes → Bytes → Result {0} CommandError Unit
unfolding match_args
validate_artifact_match is_space pinned_name pinned_version command =
    if is_empty command
    then ok tt
    else parse_server_command is_space command >>= λ args.
        match_args pinned_name pinned_version args

-- A specification of the pinned package, without a version or with the pinned one.
abbrev pub IsPinned : Bytes → Bytes → Bytes → Type 0
IsPinned name version arg =
    ((parse_package_spec arg).0 ≡ name)
    × ((is_empty (parse_package_spec arg).1 ≡ true) ⊎ ((parse_package_spec arg).1 ≡ version))

-- The first word that is not passed over names the pinned package.
abbrev pub NamesPinned : Bytes → Bytes → List Bytes → Type 0
NamesPinned name version args =
    (front : List Bytes) × (arg : Bytes) × (back : List Bytes) × (args ≡ front ++ (arg ∷ back))
    × All (λ a. is_passed a ≡ true) front
    × (is_passed arg ≡ false)
    × IsPinned name version arg

module _ (name version : Bytes) where
  match_package→IsPinned :
      (arg : Bytes) → match_package name version arg ≡ ok tt → IsPinned name version arg
  unfolding match_package
  match_package→IsPinned arg h =
      let spec = parse_package_spec arg in
      elim (Bool-cases (bytes_eq spec.0 name)) [
        | inr e ↦ ground (arith, e, h)
        | inl e ↦ (
          (bytes_eq_iff spec.0 name).0 e,
          elim (Bool-cases (is_empty spec.1)) [
            | inl f ↦ inl f
            | inr f ↦ elim (Bool-cases (bytes_eq spec.1 version)) [
              | inl g ↦ inr ((bytes_eq_iff spec.1 version).0 g)
              | inr g ↦ ground (arith, e, f, g, h)
            ]
          ],
        )
      ]

  IsPinned→match_package :
      (arg : Bytes) → IsPinned name version arg → match_package name version arg ≡ ok tt
  unfolding match_package
  IsPinned→match_package arg (n, inl v) =
      rw ((bytes_eq_iff (parse_package_spec arg).0 name).1 n, v) refl
  IsPinned→match_package arg (n, inr v) =
      rw
        (
          (bytes_eq_iff (parse_package_spec arg).0 name).1 n,
          (bytes_eq_iff (parse_package_spec arg).1 version).1 v,
        )
        (ground arith)

  match_args→NamesPinned :
      (args : List Bytes) → match_args name version args ≡ ok tt → NamesPinned name version args
  unfolding match_args
  match_args→NamesPinned [] h = cc
  match_args→NamesPinned (arg ∷ args) h = elim (Bool-cases (is_passed arg)) [
    | inr e ↦ ([], arg, args, refl, tt, e, match_package→IsPinned arg (ground (arith, e, h)))
    | inl e ↦
        let (front, a, back, split, passed, other, pinned) =
          match_args→NamesPinned args (ground (arith, e, h)) in
        (arg ∷ front, a, back, ap (λ l. arg ∷ l) split, (e, passed), other, pinned)
  ]

  front-match_args :
      (front back : List Bytes) (arg : Bytes)
      → All (λ a. is_passed a ≡ true) front
      → is_passed arg ≡ false
      → IsPinned name version arg
      → match_args name version (front ++ (arg ∷ back)) ≡ ok tt
  unfolding match_args
  front-match_args [] back arg p o i = rw (o) (IsPinned→match_package arg i)
  front-match_args (a ∷ front) back arg p o i = rw (p.0) (front-match_args front back arg p.1 o i)

  accepted :
      (is_space : ℕ → Bool) (command : Bytes)
      → is_empty command ≡ false
      → (is_empty command ≡ true)
        ⊎ ((args : List Bytes) × (parse_server_command is_space command ≡ ok args)
            × NamesPinned name version args)
      → validate_artifact_match is_space name version command ≡ ok tt
  unfolding validate_artifact_match
  accepted is_space command ne (inl e) = cc
  accepted is_space command ne (inr (args, e, (front, arg, back, split, p, o, i))) =
      rw (ne, e, split) (front-match_args front back arg p o i)

  -- A given command is accepted exactly when it is empty, or when it is split into arguments of which
  -- the first that is no known program, flag or path names the pinned package with no version or with
  -- the pinned one.
  pub validate_artifact_match-NamesPinned :
      (is_space : ℕ → Bool) (command : Bytes)
      → (validate_artifact_match is_space name version command ≡ ok tt) ↔ (
          (is_empty command ≡ true)
          ⊎ ((args : List Bytes) × (parse_server_command is_space command ≡ ok args)
              × NamesPinned name version args))
  unfolding validate_artifact_match
  validate_artifact_match-NamesPinned is_space [] = (λ _. inl refl, λ _. refl)
  validate_artifact_match-NamesPinned is_space (c ∷ command) = (
    λ h.
        let run =
          >>=-eq-ok (parse_server_command is_space (c ∷ command))
            (λ args. match_args name version args) h in
        inr (run.0, run.1, match_args→NamesPinned run.0 run.2),
    accepted is_space (c ∷ command) refl,
  )
