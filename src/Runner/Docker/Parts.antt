-- ===== src/Runner/Docker/Parts.antt =====
-- ParseDockerRunCommand and ReplaceImage of runner/docker_parser.go: what the parts make up.
use mcptrust.Base.{
  ℕ, suc, ◌≡◌, refl, ◌∙◌, ap, sym, inl, inr, Bool, true, false, not, List, [], ◌∷◌, ◌++◌,
  append_assoc, arith, All, if◌then◌else◌, is_empty, Bytes, codes, bytes_eq, bytes_eq_iff,
  Bool-cases, Result, ok, err, ◌>>=◌, >>=-eq-ok, ok-injective,
}
use mcptrust.Runner.Docker.{
  DockerRunArgs, DockerError, ArgKind, end_of_options, option, option_with_value, image_argument,
  ambiguous_option, ambiguous_flag, add_option, arg_kind, after_double_hyphen, parse_args,
  with_image, parse_docker_run_command, replace_image,
}

-- The argument is not the separator.
abbrev pub NoHyphens : Bytes → Type 0
NoHyphens a = bytes_eq a (codes "--") ≡ false

pub parse_args-kind :
    (k : ArgKind) (i : ℕ) (a : Bytes) (rest : List Bytes) (d : DockerRunArgs)
    → arg_kind a rest ≡ k
    → parse_args false i (a ∷ rest) d ≡ elim k [
      | end_of_options ↦ ok (after_double_hyphen (suc i) rest d)
      | option ↦ parse_args false (suc i) rest (add_option a d)
      | option_with_value ↦ parse_args true (suc i) rest (add_option a d)
      | ambiguous_option b ↦ err (ambiguous_flag a b)
      | image_argument ↦ ok (record d { image = a; image_idx = i; command = rest })
    ]
unfolding parse_args
parse_args-kind k i a rest d e = rw (e, parse_args) refl

pub arg_kind-end :
    (a : Bytes) (rest : List Bytes) → NoHyphens a → ¬ (arg_kind a rest ≡ end_of_options)
unfolding arg_kind
arg_kind-end a [] h = ground arith
arg_kind-end a (b ∷ rest) h = ground arith

parse_args-parts :
    (value : Bool) (i : ℕ) (args : List Bytes) (d r : DockerRunArgs)
    → All NoHyphens args
    → d.image ≡ []
    → is_empty r.image ≡ false
    → parse_args value i args d ≡ ok r
    → d.options ++ args ≡ r.options ++ (r.image ∷ r.command)
unfolding parse_args add_option
parse_args-parts value i [] d r h f g e =
    let same = ok-injective d r (parse_args value i [] d) refl e in
    let never : true ≡ false =
      sym (ap is_empty f) ∙ ap (λ (x : DockerRunArgs). is_empty x.image) same ∙ g in
    cc
parse_args-parts true i (a ∷ rest) d r h f g e =
    sym (append_assoc d.options (a ∷ []) rest)
    ∙ parse_args-parts false (suc i) rest (add_option a d) r h.1 f g e
parse_args-parts false i (a ∷ rest) d r h f g e =
    kind_parts (λ v. parse_args-parts v (suc i) rest (add_option a d) r h.1 f g) (arg_kind a rest)
      refl
  where
    kind_parts :
        ((v : Bool)
          → parse_args v (suc i) rest (add_option a d) ≡ ok r
          → (d.options ++ (a ∷ [])) ++ rest ≡ r.options ++ (r.image ∷ r.command))
        → (k : ArgKind) → arg_kind a rest ≡ k
        → d.options ++ (a ∷ rest) ≡ r.options ++ (r.image ∷ r.command)
    kind_parts next end_of_options s = ground (arith, arg_kind-end a rest)
    kind_parts next option s =
        sym (append_assoc d.options (a ∷ []) rest)
        ∙ next false (sym (parse_args-kind option i a rest d s) ∙ e)
    kind_parts next option_with_value s =
        sym (append_assoc d.options (a ∷ []) rest)
        ∙ next true (sym (parse_args-kind option_with_value i a rest d s) ∙ e)
    kind_parts next (ambiguous_option b) s =
        let failed = parse_args-kind (ambiguous_option b) i a rest d s in cc
    kind_parts next image_argument s =
        ap (λ (x : DockerRunArgs). x.options ++ (x.image ∷ x.command))
          (ok-injective (record d { image = a; image_idx = i; command = rest }) r _
            (parse_args-kind image_argument i a rest d s) e)

abbrev pub nothing_parsed : DockerRunArgs
nothing_parsed = record { options = []; image = []; command = []; image_idx = 0 }

with_image-eq-ok :
    (r d : DockerRunArgs) → with_image r ≡ ok d → (r ≡ d) × (is_empty d.image ≡ false)
unfolding with_image
with_image-eq-ok r d e = elim (Bool-cases (is_empty r.image)) [
  | inl t ↦ ground arith
  | inr f ↦
      let same = ok-injective r d (with_image r) (rw (f) refl) e in
      (same, ap (λ (x : DockerRunArgs). is_empty x.image) (sym same) ∙ f)
]

-- A check that ends in an error, and what is left when it does not.
refusal-eq-ok :
    {A : Type 0} (b : Bool) (x : DockerError) (r : Result DockerError A) (a : A)
    → (if b then err x else r) ≡ ok a
    → (b ≡ false) × (r ≡ ok a)
refusal-eq-ok true x r a h = cc
refusal-eq-ok false x r a h = (refl, h)

guard-eq-ok :
    {A : Type 0} (b : Bool) (x : DockerError) (r : Result DockerError A) (a : A)
    → (if not b then err x else r) ≡ ok a
    → (b ≡ true) × (r ≡ ok a)
guard-eq-ok true x r a h = (refl, h)
guard-eq-ok false x r a h = cc

parse_docker_run_command-guards :
    (a b : Bytes) (rest : List Bytes) (d : DockerRunArgs)
    → parse_docker_run_command (a ∷ b ∷ rest) ≡ ok d
    → (bytes_eq a (codes "docker") ≡ true)
      × (bytes_eq b (codes "run") ≡ true)
      × ((parse_args false 2 rest nothing_parsed >>= with_image) ≡ ok d)
unfolding parse_docker_run_command
parse_docker_run_command-guards a b rest d e =
    let first = guard-eq-ok (bytes_eq a (codes "docker")) _ _ d e in
    let second = guard-eq-ok (bytes_eq b (codes "run")) _ _ d first.1 in
    (first.0, second.0, (refusal-eq-ok (is_empty rest) _ _ d second.1).1)

pub parse_docker_run_command-eq-ok :
    (a b : Bytes) (rest : List Bytes) (d : DockerRunArgs)
    → parse_docker_run_command (a ∷ b ∷ rest) ≡ ok d
    → (a ≡ codes "docker")
      × (b ≡ codes "run")
      × (parse_args false 2 rest nothing_parsed ≡ ok d)
      × (is_empty d.image ≡ false)
parse_docker_run_command-eq-ok a b rest d e =
    let guards = parse_docker_run_command-guards a b rest d e in
    let run = >>=-eq-ok (parse_args false 2 rest nothing_parsed) with_image guards.2 in
    let same = with_image-eq-ok run.0 d run.2 in
    (
      (bytes_eq_iff a (codes "docker")).0 guards.0,
      (bytes_eq_iff b (codes "run")).0 guards.1,
      run.1 ∙ ap ok same.0,
      same.1,
    )

-- The parts of a docker run command without "--" make up the command, in its order.
pub replace_image-parse_docker_run_command :
    (args : List Bytes) (d : DockerRunArgs)
    → All NoHyphens args
    → parse_docker_run_command args ≡ ok d
    → codes "docker" ∷ replace_image d d.image ≡ args
unfolding parse_docker_run_command replace_image
replace_image-parse_docker_run_command [] d h e = ground arith
replace_image-parse_docker_run_command (a ∷ []) d h e = ground arith
replace_image-parse_docker_run_command (a ∷ b ∷ rest) d h e =
    let parts = parse_docker_run_command-eq-ok a b rest d e in
    rw (parts.0, parts.1, parse_args-parts false 2 rest nothing_parsed d h.1.1 refl parts.3 parts.2)
      refl
