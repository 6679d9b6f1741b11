-- ===== src/Redact.antt =====
-- observability/receipt/redact.go: the secrets in the arguments that a receipt holds. `to_lower` is
-- strings.ToLower.
use mcptrust.Base.{
  ℕ, ◌≡◌, refl, Bool, true, false, not, ◌&&◌, ◌||◌, Option, none, some, List, [], ◌∷◌, ◌++◌, ◌==◌,
  leb, if◌then◌else◌, is_empty, length, drop, Bytes, codes, has_prefix, has_byte, elem, split_first,
}
pub mod Cleaned

abbrev sensitive_flags : List Bytes
sensitive_flags =
    codes "token"
    ∷ codes "key"
    ∷ codes "password"
    ∷ codes "secret"
    ∷ codes "identity-token"
    ∷ codes "pat"
    ∷ codes "api-key"
    ∷ codes "apikey"
    ∷ codes "auth"
    ∷ codes "credential"
    ∷ codes "credentials"
    ∷ codes "bearer"
    ∷ codes "access-token"
    ∷ codes "refresh-token"
    ∷ codes "private-key"
    ∷ []

abbrev sensitive_prefixes : List Bytes
sensitive_prefixes =
    codes "sk-"
    ∷ codes "ghp_"
    ∷ codes "github_pat_"
    ∷ codes "gho_"
    ∷ codes "ghu_"
    ∷ codes "ghs_"
    ∷ codes "xoxb-"
    ∷ codes "xoxp-"
    ∷ codes "AKIA"
    ∷ codes "ya29."
    ∷ codes "AIza"
    ∷ codes "npm_"
    ∷ codes "pypi-"
    ∷ []

-- [A-Za-z0-9_-] of the regular expressions.
is_token_char : ℕ → Bool
is_token_char c =
    (leb b'a' c && leb c b'z')
    || ((leb b'A' c && leb c b'Z') || ((leb b'0' c && leb c b'9') || (c == b'_' || c == b'-')))

all_chars : (ℕ → Bool) → Bytes → Bool
all_chars test [] = true
all_chars test (c ∷ s) = test c && all_chars test s

-- One part of jwtRegex.
is_jwt_part : Bytes → Bool
unfolding all_chars is_token_char
is_jwt_part s = leb 10 (length s) && all_chars is_token_char s

-- jwtRegex: three parts with dots between them, none of which holds a dot.
unfoldable pub matches_jwt : Bytes → Bool
unfolding is_jwt_part
matches_jwt value = elim (split_first b'.' value) [
  | none ↦ false
  | some first ↦ elim (split_first b'.' first.1) [
    | none ↦ false
    | some second ↦ is_jwt_part first.0 && (is_jwt_part second.0 && is_jwt_part second.1)
  ]
]

-- longSecretRegex.
unfoldable pub matches_long_secret : Bytes → Bool
unfolding all_chars is_token_char
matches_long_secret value =
    leb 32 (length value)
    && all_chars (λ c. is_token_char c || (c == b'+' || (c == b'/' || c == b'='))) value

has_any_prefix : Bytes → List Bytes → Bool
has_any_prefix value [] = false
has_any_prefix value (p ∷ ps) = has_prefix value p || has_any_prefix value ps

unfoldable pub is_sensitive_value : Bytes → Bool
unfolding has_any_prefix matches_jwt matches_long_secret
is_sensitive_value value =
    has_any_prefix value sensitive_prefixes
    || (matches_jwt value
        || ((leb 32 (length value) && (not (has_byte b'/' value) && not (has_byte b'.' value)))
            && matches_long_secret value))

abbrev pub redacted_value : Bytes
redacted_value = codes "[REDACTED]"

named_value : Option (Bytes × Bytes) → Option (Bytes × Bytes)
named_value none = none
named_value (some (flag, value)) = if is_empty flag then none else some (flag, value)

-- The flag and the value of an argument with '=' behind its first byte.
unfoldable pub cut_value : Bytes → Option (Bytes × Bytes)
unfolding named_value
cut_value arg = named_value (split_first b'=' arg)

abbrev trim_prefix : Bytes → Bytes → Bytes
trim_prefix s p = if has_prefix s p then drop (length p) s else s

abbrev put : Bytes × Bool → List Bytes × Bool → List Bytes × Bool
put (a, b) (rest, was) = (a ∷ rest, b || was)

module _ (to_lower : Bytes → Bytes) where
  unfoldable pub extract_flag_name : Bytes → Bytes
  extract_flag_name s = to_lower (trim_prefix (trim_prefix s (codes "--")) (codes "-"))

  unfoldable pub is_sensitive_flag : Bytes → Bool
  unfolding extract_flag_name
  is_sensitive_flag s = elem (extract_flag_name s) sensitive_flags

  -- A flag whose value is the next argument.
  unfoldable pub takes_secret : Bytes → Bool
  unfolding is_sensitive_flag
  takes_secret arg = has_prefix arg (codes "-") && is_sensitive_flag arg

  redact_pair : Bytes → Bytes × Bytes → Bytes × Bool
  unfolding is_sensitive_flag is_sensitive_value
  redact_pair arg (flag, value) =
      if is_sensitive_flag flag || is_sensitive_value value
      then (flag ++ (b'=' ∷ redacted_value), true)
      else (arg, false)

  redact_plain : Bytes → Bytes × Bool
  unfolding is_sensitive_value
  redact_plain arg = if is_sensitive_value arg then (redacted_value, true) else (arg, false)

  -- The loop; `secret` says that the argument is the value of a sensitive flag.
  unfoldable pub redact_loop : Bool → List Bytes → List Bytes × Bool
  unfolding redact_pair redact_plain cut_value takes_secret
  redact_loop secret [] = ([], false)
  redact_loop true (arg ∷ args) = put (redacted_value, true) (redact_loop false args)
  redact_loop false (arg ∷ args) = elim (cut_value arg) [
    | some parts ↦ put (redact_pair arg parts) (redact_loop false args)
    | none ↦ elim (takes_secret arg && not (is_empty args)) [
      | true ↦ put (arg, true) (redact_loop true args)
      | false ↦ put (redact_plain arg) (redact_loop false args)
    ]
  ]

  unfoldable pub redact_args : List Bytes → List Bytes × Bool
  unfolding redact_loop
  redact_args args = redact_loop false args
