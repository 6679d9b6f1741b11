-- ===== src/Artifact/Reference.antt =====
-- artifact/resolver.go: the package and the image that a command runs. Texts are lists of code
-- points; `is_space` is unicode.IsSpace.
use mcptrust.Base.{
  ℕ, Bool, true, false, not, ◌&&◌, ◌||◌, Option, none, some, List, [], ◌∷◌, ◌++◌, ◌==◌, leb,
  if◌then◌else◌, is_empty, Bytes, codes, bytes_eq, has_prefix, contains, has_byte, split_first,
  split_last, trim_space, fields, elem, length, take, drop, Result, ok, err,
}
use mcptrust.Models.{ArtifactType, npm, oci, local}

pub data RefError : Type 0 where
  empty_command not_npx no_package_spec empty_image missing_repository no_image : RefError

pub record NpmPackageRef : Type 0 where
  pub name : Bytes
  pub version : Bytes
  pub args : Bytes

pub record OciImageRef : Type 0 where
  pub registry : Bytes
  pub repository : Bytes
  pub tag : Bytes
  pub digest : Bytes

-- A name and a version, without which it is empty.
unfoldable pub cut_version : Bytes → Option (Bytes × Bytes) → Bytes × Bytes
cut_version spec none = (spec, [])
cut_version spec (some parts) = parts

unfoldable pub cut_scoped : Bytes → Option (Bytes × Bytes) → Bytes × Bytes
cut_scoped spec none = (spec, [])
cut_scoped spec (some (scope, version)) = (b'@' ∷ scope, version)

-- parsePackageSpec, which runner/sanitize.go holds a second time.
unfoldable pub parse_package_spec : Bytes → Bytes × Bytes
unfolding cut_version cut_scoped
parse_package_spec [] = ([], [])
parse_package_spec (c ∷ spec) =
    if c == b'@'
    then cut_scoped (c ∷ spec) (split_first b'@' spec)
    else cut_version (c ∷ spec) (split_last b'@' (c ∷ spec))

-- The fields behind the first "npx".
unfoldable pub behind_npx : List Bytes → Option (List Bytes)
behind_npx [] = none
behind_npx (p ∷ parts) = if bytes_eq p (codes "npx") then some parts else behind_npx parts

unfoldable pub join_space : List Bytes → Bytes
join_space [] = []
join_space (p ∷ []) = p
join_space (p ∷ q ∷ parts) = p ++ (32 ∷ join_space (q ∷ parts))

-- The flags of npx are passed over; the first other field is the package.
unfoldable pub find_package : List Bytes → Result RefError NpmPackageRef
unfolding parse_package_spec join_space
find_package [] = err no_package_spec
find_package (p ∷ parts) =
    if has_prefix p (codes "-")
    then find_package parts
    else (let spec = parse_package_spec p in
        ok (record { name = spec.0; version = spec.1; args = join_space parts }))

unfoldable pub parse_npx_command : (ℕ → Bool) → Bytes → Result RefError NpmPackageRef
unfolding behind_npx find_package
parse_npx_command is_space command =
    let parts = fields is_space command in
    if is_empty parts
    then err empty_command
    else elim (behind_npx parts) [ none ↦ err not_npx | some rest ↦ find_package rest ]

-- OCIImageRef.String.
unfoldable pub image_text : OciImageRef → Bytes
image_text r =
    (if is_empty r.registry then [] else r.registry ++ (b'/' ∷ []))
    ++ (r.repository
        ++ (if not (is_empty r.digest)
            then b'@' ∷ r.digest
            else if not (is_empty r.tag)
            then b':' ∷ r.tag
            else []))

-- The digest behind the last '@', and what stands before it.
unfoldable pub at_digest : Bytes → Option (Bytes × Bytes) → Bytes × Bytes
at_digest ref none = (ref, [])
at_digest ref (some parts) = parts

unfoldable pub cut_digest : Bytes → Bytes × Bytes
unfolding at_digest
cut_digest ref = at_digest ref (split_last b'@' ref)

-- The last ':' stands behind the last '/' when no '/' follows it.
unfoldable pub at_tag : Bytes → Option (Bytes × Bytes) → Bytes × Bytes
at_tag ref none = (ref, [])
at_tag ref (some (a, b)) = if has_byte b'/' b then (ref, []) else (a, b)

unfoldable pub cut_tag : Bytes → Bytes × Bytes
unfolding at_tag
cut_tag ref = at_tag ref (split_last b':' ref)

-- The registry and the repository.
unfoldable pub at_registry : Bytes → Option (Bytes × Bytes) → Bytes × Bytes
at_registry ref none = ([], ref)
at_registry ref (some (a, b)) = if has_byte b'.' a || has_byte b':' a then (a, b) else ([], ref)

unfoldable pub cut_registry : Bytes → Bytes × Bytes
unfolding at_registry
cut_registry ref = at_registry ref (split_first b'/' ref)

unfoldable pub parse_trimmed : Bytes → Result RefError OciImageRef
unfolding cut_digest cut_tag cut_registry
parse_trimmed [] = err empty_image
parse_trimmed (c ∷ text) =
    let digest_cut = cut_digest (c ∷ text) in
    let tag_cut = cut_tag digest_cut.0 in
    let path = cut_registry tag_cut.0 in
    if is_empty path.1
    then err missing_repository
    else ok
        (record { registry = path.0; repository = path.1; tag = tag_cut.1; digest = digest_cut.1 })

unfoldable pub parse_oci_reference : (ℕ → Bool) → Bytes → Result RefError OciImageRef
unfolding parse_trimmed
parse_oci_reference is_space ref = parse_trimmed (trim_space is_space ref)

abbrev pub flags_with_value : List Bytes
flags_with_value =
    codes "-v"
    ∷ codes "--volume"
    ∷ codes "-e"
    ∷ codes "--env"
    ∷ codes "-p"
    ∷ codes "--publish"
    ∷ codes "--name"
    ∷ codes "--network"
    ∷ []

-- The inner loop of ParseDockerCommand; `true` where the argument is the value of a flag.
unfoldable pub find_image : Bool → List Bytes → Option Bytes
find_image skip [] = none
find_image true (a ∷ args) = find_image false args
find_image false (a ∷ args) =
    if has_prefix a (codes "-") then find_image (elem a flags_with_value) args else some a

-- The outer loop, over the places of "docker" with "run" behind it.
unfoldable pub find_docker_run : List Bytes → Option Bytes
unfolding find_image
find_docker_run [] = none
find_docker_run (a ∷ []) = none
find_docker_run (a ∷ b ∷ rest) =
    let later = find_docker_run (b ∷ rest) in
    if bytes_eq a (codes "docker") && bytes_eq b (codes "run")
    then elim (find_image false rest) [ some image ↦ some image | none ↦ later ]
    else later

unfoldable pub parse_docker_command : (ℕ → Bool) → Bytes → Result RefError OciImageRef
unfolding find_docker_run
parse_docker_command is_space command = elim (find_docker_run (fields is_space command)) [
  | none ↦ err no_image
  | some arg ↦ parse_oci_reference is_space arg
]

-- [A-Za-z0-9_] of the regular expression, and its \s.
is_word : ℕ → Bool
is_word c =
    (leb b'a' c && leb c b'z')
    || (leb b'A' c && leb c b'Z')
    || (leb b'0' c && leb c b'9')
    || c == b'_'

is_regexp_space : ℕ → Bool
is_regexp_space c = c == 32 || c == 9 || c == 10 || c == 12 || c == 13

word_end : Bytes → Bool
unfolding is_word
word_end [] = true
word_end (c ∷ s) = not (is_word c)

-- \s+run\b, where `seen` says whether a space was read.
run_follows : Bool → Bytes → Bool
unfolding is_regexp_space word_end
run_follows seen [] = false
run_follows seen (c ∷ s) =
    let rest = run_follows true s in
    if is_regexp_space c
    then rest
    else seen && (has_prefix (c ∷ s) (codes "run") && word_end (drop 3 (c ∷ s)))

-- dockerPattern.MatchString; `after_word` says whether a word character stands before the text.
unfoldable pub matches_docker : Bool → Bytes → Bool
unfolding run_follows is_word
matches_docker after_word [] = false
matches_docker after_word (c ∷ s) =
    (not after_word && (has_prefix (c ∷ s) (codes "docker") && run_follows false (drop 6 (c ∷ s))))
    || matches_docker (is_word c) s

unfoldable pub detect_artifact_type : (ℕ → Bool) → Bytes → ArtifactType
unfolding matches_docker
detect_artifact_type is_space command =
    let text = trim_space is_space command in
    if has_prefix text (codes "npx ") || contains text (codes " npx ")
    then npm
    else if matches_docker false text
    then oci
    else local

is_hex_digit : ℕ → Bool
is_hex_digit c =
    (leb b'0' c && leb c b'9') || (leb b'a' c && leb c b'f') || (leb b'A' c && leb c b'F')

all_hex : Bytes → Bool
unfolding is_hex_digit
all_hex [] = true
all_hex (c ∷ s) = is_hex_digit c && all_hex s

-- isValidDigest of artifact/pin.go.
unfoldable pub is_valid_digest : Bytes → Bool
unfolding all_hex
is_valid_digest digest =
    length digest == 71 && (bytes_eq (take 7 digest) (codes "sha256:") && all_hex (drop 7 digest))
