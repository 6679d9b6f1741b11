-- ===== src/Runner/Docker.antt =====
-- runner/docker_parser.go: the parts of a docker run command. An error carries what its text names.
use mcptrust.Base.{
  ℕ, suc, Bool, true, false, not, ◌&&◌, ◌||◌, List, [], ◌∷◌, ◌++◌, if◌then◌else◌, is_empty, Bytes,
  codes, bytes_eq, has_prefix, contains, elem, Result, ok, err, ◌>>=◌,
}
pub mod Flags
pub mod Parts
pub mod Pinned
use Flags.{known_docker_flags, known_docker_boolean_flags}

pub record DockerRunArgs : Type 0 where
  pub options : List Bytes
  pub image : Bytes
  pub command : List Bytes
  pub image_idx : ℕ

pub data DockerError : Type 0 where
  command_too_short no_image_argument image_not_identified : DockerError
  not_a_docker_command only_run_supported : Bytes → DockerError
  ambiguous_flag : Bytes → Bytes → DockerError
  tag_not_digest no_digest : Bytes → DockerError

unfoldable pub add_option : Bytes → DockerRunArgs → DockerRunArgs
add_option a d = record d { options = d.options ++ (a ∷ []) }

-- What the loop does with an argument, which depends on the one behind it.
pub data ArgKind : Type 0 where
  end_of_options option option_with_value image_argument : ArgKind
  ambiguous_option : Bytes → ArgKind

-- The argument behind this one, if there is one that is no flag.
unfoldable pub flag_kind : Bytes → List Bytes → ArgKind
flag_kind a [] = option
flag_kind a (b ∷ rest) =
    if contains a (codes "=") || has_prefix b (codes "-")
    then option
    else if elem a known_docker_flags
    then option_with_value
    else if elem a known_docker_boolean_flags
    then option
    else if has_prefix a (codes "--")
    then ambiguous_option b
    else option

unfoldable pub arg_kind : Bytes → List Bytes → ArgKind
unfolding flag_kind
arg_kind a rest =
    if bytes_eq a (codes "--")
    then end_of_options
    else if has_prefix a (codes "-")
    then flag_kind a rest
    else image_argument

-- The loop once it has met "--".
unfoldable pub after_double_hyphen : ℕ → List Bytes → DockerRunArgs → DockerRunArgs
after_double_hyphen i [] d = d
after_double_hyphen i (a ∷ rest) d = after_double_hyphen (suc i) rest (
    if bytes_eq a (codes "--")
    then d
    else if is_empty d.image
    then record d { image = a; image_idx = i }
    else record d { command = d.command ++ (a ∷ []) })

-- The loop before "--"; `true` where the argument is the value of the flag before it.
unfoldable pub parse_args : Bool → ℕ → List Bytes → DockerRunArgs → Result DockerError DockerRunArgs
unfolding arg_kind
parse_args value i [] d = ok d
parse_args true i (a ∷ rest) d = parse_args false (suc i) rest (add_option a d)
parse_args false i (a ∷ rest) d = elim (arg_kind a rest) [
  | end_of_options ↦ ok (after_double_hyphen (suc i) rest d)
  | option ↦ parse_args false (suc i) rest (add_option a d)
  | option_with_value ↦ parse_args true (suc i) rest (add_option a d)
  | ambiguous_option b ↦ err (ambiguous_flag a b)
  | image_argument ↦ ok (record d { image = a; image_idx = i; command = rest })
]

unfoldable pub with_image : DockerRunArgs → Result DockerError DockerRunArgs
with_image d = if is_empty d.image then err image_not_identified else ok d

unfoldable pub parse_docker_run_command : List Bytes → Result DockerError DockerRunArgs
unfolding parse_args with_image
parse_docker_run_command [] = err command_too_short
parse_docker_run_command (a ∷ []) = err command_too_short
parse_docker_run_command (a ∷ b ∷ rest) =
    if not (bytes_eq a (codes "docker"))
    then err (not_a_docker_command a)
    else if not (bytes_eq b (codes "run"))
    then err (only_run_supported b)
    else if is_empty rest
    then err no_image_argument
    else parse_args false 2 rest (record { options = []; image = []; command = []; image_idx = 0 })
      >>= with_image

unfoldable pub replace_image : DockerRunArgs → Bytes → List Bytes
replace_image d pinned_ref = codes "run" ∷ (d.options ++ (pinned_ref ∷ d.command))

unfoldable pub validate_image_has_digest : Bytes → Result {0} DockerError Unit
validate_image_has_digest image =
    if not (contains image (codes "@sha256:"))
    then err (if contains image (codes ":") then tag_not_digest image else no_digest image)
    else ok tt
