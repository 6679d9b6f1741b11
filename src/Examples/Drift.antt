-- ===== src/Examples/Drift.antt =====
-- The drift comparison, the canonical form and the docker parser on small inputs. The hash function
-- of the tests is the identity, and every value that is no array and no object is written alike.
use mcptrust.Base.{
  ◌≡◌, refl, ◌↔◌, err, true, false, some, none, List, [], ◌∷◌, Bytes, codes, ok, bytes_eq, All,
  has_prefix, contains, insert, bytes_lt,
}
use mcptrust.Json.{str, obj, end, field, set_field}
use mcptrust.Models.{Tool, Prompt, ResourceTemplate, ScanReport, LockfileV3, low}
use mcptrust.Locker.Canonical.{
  Encoding, canonicalize_v1, write_jcs_value, write_object, write_members, sort_members, utf16_lt,
  insert_member, jcs_format_number, join_comma, write_array, write_jcs_string,
}
use mcptrust.Locker.Hash.{
  hash_prompt_arguments, argument_map, hash_template, hash_json, has_float, hash_jcs_json,
  hash_normalized_string, hash_string, normalize_string,
}
use mcptrust.Locker.Canonical.Order.{in_object, swap, canonicalize_v1-Reordered}
use mcptrust.Locker.Build.{
  Stamp, build, build_prompts, build_templates, template_locks, build_tools, insert_lock,
  prompt_definition, sort_locks, template_lock, tool_lock,
}
use mcptrust.Differ.{compare_v3}
use mcptrust.Differ.Matches.{Matches}
use mcptrust.Differ.NoDrift.{compare_v3-Matches}
use mcptrust.Differ.RoundTrip.{compare_v3-build}
use mcptrust.Runner.Docker.{DockerRunArgs, add_option, parse_docker_run_command, replace_image}
use mcptrust.Runner.Docker.Flags.{known_docker_flags}
use mcptrust.Runner.Docker.Pinned.{parse_docker_run_command-replace_image}
use mcptrust.Runner.Docker.Parts.{NoHyphens, replace_image-parse_docker_run_command}

abbrev pub plain : Encoding
plain = record {
  sha256_hex = λ s. s;
  marshal = λ v. ok (codes "v");
  marshal_string = λ s. ok s;
  runes = λ s. s;
  rune_bytes = λ r. r ∷ [];
  parse_float = λ s. ok 0;
  is_nan = λ f. false;
  is_infinite = λ f. false;
  is_zero = λ f. false;
  is_safe_integer = λ f. true;
  format_int_of = λ f. codes "0";
  format_float = λ f. codes "0";
  format_int = λ i. codes "0";
}

abbrev pub read_file : Tool
read_file = record {
  name = codes "read";
  description = codes "Reads";
  input_schema = some (field (codes "type") (str (codes "object")) end);
  risk_level = low;
  risk_reasons = [];
}

abbrev greet : Prompt
greet = record {
  name = codes "greet";
  description = codes "Hi";
  arguments = record { name = codes "who"; description = []; required = true } ∷ [];
}

abbrev page : ResourceTemplate
page = record { uri_template = codes "f:{x}"; name = codes "p"; description = []; mime_type = [] }

abbrev pub scanned : ScanReport
scanned = record {
  timestamp = 0;
  command = codes "srv";
  server_info = none;
  tools = read_file ∷ [];
  resources = [];
  prompts = greet ∷ [];
  resource_templates = page ∷ [];
  error = [];
}

abbrev pub stamp : Stamp
stamp = record { updated_at = codes "now"; build_version = codes "1" }

pub built : LockfileV3
built = elim (build plain stamp scanned) [
  | ok l ↦ l
  | err e ↦ record {
    lock_file_version = [];
    meta = record { generator = []; updated_at = [] };
    server = record { name = []; artifact = none };
    prompts = [];
    templates = [];
    tools = [];
  }
]

builds : build plain stamp scanned ≡ ok built
unfolding built build build_prompts hash_prompt_arguments argument_map set_field bytes_eq
    write_jcs_value write_object write_members sort_members utf16_lt build_templates template_locks
    hash_template build_tools hash_json canonicalize_v1 insert bytes_lt insert_lock
    prompt_definition sort_locks template_lock tool_lock insert_member jcs_format_number join_comma
    write_array write_jcs_string has_float hash_jcs_json hash_normalized_string hash_string
    normalize_string
builds = refl

compare_v3-build_example :
    compare_v3 plain built scanned ≡ ok (record { has_drift = false; drifts = [] })
compare_v3-build_example =
    compare_v3-build plain stamp scanned built (tt, tt) (tt, tt) (tt, tt) builds

pub compare_v3-built :
    compare_v3 plain built scanned ≡ ok (record { has_drift = false; drifts = [] })
compare_v3-built = compare_v3-build plain stamp scanned built (tt, tt) (tt, tt) (tt, tt) builds

compare_v3-Matches_example :
    (compare_v3 plain built scanned ≡ ok (record { has_drift = false; drifts = [] }))
    ↔ Matches plain built scanned
compare_v3-Matches_example = compare_v3-Matches plain built scanned

canonicalize_v1-Reordered_example :
    canonicalize_v1 plain
      (obj (field (codes "b") (str (codes "x")) (field (codes "a") (str (codes "y")) end)))
    ≡ canonicalize_v1 plain
        (obj (field (codes "a") (str (codes "y")) (field (codes "b") (str (codes "x")) end)))
unfolding bytes_eq
canonicalize_v1-Reordered_example = canonicalize_v1-Reordered plain _ _ (in_object (swap refl))

abbrev docker_command : List Bytes
docker_command =
    codes "docker"
    ∷ codes "run"
    ∷ codes "--rm"
    ∷ codes "-e"
    ∷ codes "A=1"
    ∷ codes "img"
    ∷ codes "serve"
    ∷ []

abbrev docker_parts : DockerRunArgs
docker_parts = record {
  options = codes "--rm" ∷ codes "-e" ∷ codes "A=1" ∷ [];
  image = codes "img";
  command = codes "serve" ∷ [];
  image_idx = 5;
}

parses_docker : parse_docker_run_command docker_command ≡ ok docker_parts
unfolding parse_docker_run_command bytes_eq has_prefix contains known_docker_flags add_option
parses_docker = refl

no_hyphens : All NoHyphens docker_command
unfolding bytes_eq
no_hyphens = (refl, (refl, (refl, (refl, (refl, (refl, (refl, tt)))))))

replace_image-parse_docker_run_command_example :
    codes "docker" ∷ replace_image docker_parts (codes "img") ≡ docker_command
replace_image-parse_docker_run_command_example =
    replace_image-parse_docker_run_command docker_command docker_parts no_hyphens parses_docker

parse_docker_run_command-replace_image_example :
    parse_docker_run_command (codes "docker" ∷ replace_image docker_parts (codes "img@sha256:0"))
    ≡ ok (record docker_parts { image = codes "img@sha256:0" })
unfolding has_prefix
parse_docker_run_command-replace_image_example =
    parse_docker_run_command-replace_image docker_command docker_parts (codes "img@sha256:0")
      no_hyphens refl refl parses_docker
