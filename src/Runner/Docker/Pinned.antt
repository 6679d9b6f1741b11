-- ===== src/Runner/Docker/Pinned.antt =====
-- ReplaceImage of runner/docker_parser.go: the pinned command is read as the one that was parsed.
use mcptrust.Base.{
  ℕ, suc, ◌≡◌, refl, ◌∙◌, ap, sym, subst, ◌⊎◌, inl, inr, Bool, true, false, Option, none, some,
  List, [], ◌∷◌, ◌++◌, append_assoc, arith, All, is_empty, Bytes, codes, bytes_eq, has_prefix, ok,
  ok-injective,
}
use mcptrust.Runner.Docker.{
  DockerRunArgs, ArgKind, end_of_options, option, option_with_value, image_argument,
  ambiguous_option, add_option, arg_kind, flag_kind, parse_args, with_image,
  parse_docker_run_command, replace_image,
}
use mcptrust.Runner.Docker.Parts.{
  NoHyphens, parse_args-kind, arg_kind-end, nothing_parsed, parse_docker_run_command-eq-ok,
}

-- What the loop sees of the argument behind a flag.
abbrev ahead : List Bytes → Option Bool
ahead [] = none
ahead (b ∷ rest) = some (has_prefix b (codes "-"))

flag_kind-ahead :
    (k : ArgKind) (a : Bytes) (x y : List Bytes)
    → (k ≡ option) ⊎ (k ≡ option_with_value)
    → ahead x ≡ ahead y
    → flag_kind a x ≡ k
    → flag_kind a y ≡ k
unfolding flag_kind
flag_kind-ahead k a [] [] c s h = h
flag_kind-ahead k a [] (c ∷ y) o s h = cc
flag_kind-ahead k a (b ∷ x) [] o s h = cc
flag_kind-ahead k a (b ∷ x) (c ∷ y) (inl o) s h = ground arith
flag_kind-ahead k a (b ∷ x) (c ∷ y) (inr o) s h = ground arith

arg_kind-ahead :
    (k : ArgKind) (a : Bytes) (x y : List Bytes)
    → (k ≡ option) ⊎ (k ≡ option_with_value)
    → ahead x ≡ ahead y
    → arg_kind a x ≡ k
    → arg_kind a y ≡ k
unfolding arg_kind
arg_kind-ahead k a x y o s h = ground (arith, flag_kind-ahead k a x y o s)

flag_kind-image : (a : Bytes) (rest : List Bytes) → ¬ (flag_kind a rest ≡ image_argument)
unfolding flag_kind
flag_kind-image a [] h = ground arith
flag_kind-image a (b ∷ rest) h = ground arith

arg_kind-image :
    (a : Bytes) (rest : List Bytes)
    → arg_kind a rest ≡ image_argument
    → has_prefix a (codes "-") ≡ false
unfolding arg_kind
arg_kind-image a rest h = ground (arith, flag_kind-image a rest)

not_hyphens : (a : Bytes) → has_prefix a (codes "-") ≡ false → bytes_eq a (codes "--") ≡ false
unfolding has_prefix bytes_eq
not_hyphens [] h = refl
not_hyphens (c ∷ a) h = ground arith

image-arg_kind :
    (a : Bytes) (rest : List Bytes)
    → has_prefix a (codes "-") ≡ false
    → arg_kind a rest ≡ image_argument
unfolding arg_kind
image-arg_kind a rest h = ground (arith, not_hyphens a)

-- The command line with another image, read in the same state with the same result.
abbrev Repinned : Bool → ℕ → List Bytes → DockerRunArgs → DockerRunArgs → Bytes → Type 0
Repinned value i args d r pinned =
    (tail : List Bytes) × (d.options ++ tail ≡ r.options ++ (pinned ∷ r.command))
    × (parse_args value i tail d ≡ ok (record r { image = pinned }))
    × (ahead args ≡ ahead tail)

-- An argument that the loop adds to the options, with the rest read further.
step-Repinned :
    (value next_value : Bool) (i : ℕ) (a : Bytes) (rest : List Bytes) (d r : DockerRunArgs)
    (pinned : Bytes)
    → ((tail : List Bytes)
        → ahead rest ≡ ahead tail
        → parse_args value i (a ∷ tail) d ≡ parse_args next_value (suc i) tail (add_option a d))
    → Repinned next_value (suc i) rest (add_option a d) r pinned
    → Repinned value i (a ∷ rest) d r pinned
unfolding add_option
step-Repinned value next_value i a rest d r pinned step found = (
  a ∷ found.0,
  sym (append_assoc d.options (a ∷ []) found.0) ∙ found.1,
  step found.0 found.3 ∙ found.2,
  refl,
)

parse_args-Repinned :
    (value : Bool) (i : ℕ) (args : List Bytes) (d r : DockerRunArgs) (pinned : Bytes)
    → has_prefix pinned (codes "-") ≡ false
    → All NoHyphens args
    → d.image ≡ []
    → is_empty r.image ≡ false
    → parse_args value i args d ≡ ok r
    → Repinned value i args d r pinned
unfolding parse_args add_option
parse_args-Repinned value i [] d r pinned q h f g e =
    let same = ok-injective d r (parse_args value i [] d) refl e in
    let never : true ≡ false =
      sym (ap is_empty f) ∙ ap (λ (x : DockerRunArgs). is_empty x.image) same ∙ g in
    ground arith
parse_args-Repinned true i (a ∷ rest) d r pinned q h f g e =
    step-Repinned true false i a rest d r pinned (λ tail s. refl)
      (parse_args-Repinned false (suc i) rest (add_option a d) r pinned q h.1 f g e)
parse_args-Repinned false i (a ∷ rest) d r pinned q h f g e =
    by_kind (λ v. parse_args-Repinned v (suc i) rest (add_option a d) r pinned q h.1 f g)
      (arg_kind a rest) refl
  where
    by_kind :
        ((v : Bool)
          → parse_args v (suc i) rest (add_option a d) ≡ ok r
          → Repinned v (suc i) rest (add_option a d) r pinned)
        → (k : ArgKind) → arg_kind a rest ≡ k
        → Repinned false i (a ∷ rest) d r pinned
    by_kind next end_of_options s = ground (arith, arg_kind-end a rest)
    by_kind next option s =
        step-Repinned false false i a rest d r pinned
          (λ tail same.
            parse_args-kind option i a tail d (arg_kind-ahead option a rest tail (inl refl) same s))
          (next false (sym (parse_args-kind option i a rest d s) ∙ e))
    by_kind next option_with_value s =
        step-Repinned false true i a rest d r pinned
          (λ tail same.
            parse_args-kind option_with_value i a tail d
              (arg_kind-ahead option_with_value a rest tail (inr refl) same s))
          (next true (sym (parse_args-kind option_with_value i a rest d s) ∙ e))
    by_kind next (ambiguous_option b) s =
        let failed = parse_args-kind (ambiguous_option b) i a rest d s in ground arith
    by_kind next image_argument s =
        let same =
          ok-injective (record d { image = a; image_idx = i; command = rest }) r _
            (parse_args-kind image_argument i a rest d s) e in
        (
          pinned ∷ rest,
          ap (λ (x : DockerRunArgs). x.options ++ (pinned ∷ x.command)) same,
          parse_args-kind image_argument i pinned rest d (image-arg_kind pinned rest q)
              ∙ ap (λ (x : DockerRunArgs). ok (record x { image = pinned })) same,
          ap some (arg_kind-image a rest s ∙ sym q),
        )

is_empty-append :
    (xs : List Bytes) (y : Bytes) (ys : List Bytes) → is_empty (xs ++ (y ∷ ys)) ≡ false
is_empty-append [] y ys = refl
is_empty-append (x ∷ xs) y ys = refl

-- The command that ReplaceImage makes of a parsed command without "--", for a pinned reference
-- that is not empty and begins with no hyphen, is read as the same options, image position and
-- command with the pinned reference as the image.
pub parse_docker_run_command-replace_image :
    (args : List Bytes) (d : DockerRunArgs) (pinned : Bytes)
    → All NoHyphens args
    → has_prefix pinned (codes "-") ≡ false
    → is_empty pinned ≡ false
    → parse_docker_run_command args ≡ ok d
    → parse_docker_run_command (codes "docker" ∷ replace_image d pinned)
      ≡ ok (record d { image = pinned })
unfolding parse_docker_run_command replace_image with_image bytes_eq
parse_docker_run_command-replace_image [] d pinned h q p e = ground arith
parse_docker_run_command-replace_image (a ∷ []) d pinned h q p e = ground arith
parse_docker_run_command-replace_image (a ∷ b ∷ rest) d pinned h q p e =
    let parts = parse_docker_run_command-eq-ok a b rest d e in
    let found =
      parse_args-Repinned false 2 rest nothing_parsed d pinned q h.1.1 refl parts.3 parts.2 in
    let reparsed : parse_args false 2 (d.options ++ (pinned ∷ d.command)) nothing_parsed
        ≡ ok (record d { image = pinned }) =
      subst (λ t. parse_args false 2 t nothing_parsed ≡ ok (record d { image = pinned })) found.1
        found.2 in
    rw (is_empty-append d.options pinned d.command, reparsed, p) refl
