-- ===== src/Runner/Command.antt =====
-- runner/sanitize.go: how a server command is split into arguments, and which commands are refused.
-- A command is the list of its code points; `is_space` is unicode.IsSpace.
use mcptrust.Base.{
  ℕ, Bool, true, false, not, ◌&&◌, ◌||◌, List, [], ◌∷◌, ◌++◌, ◌==◌, if◌then◌else◌, is_empty, Bytes,
  codes, bytes_eq, has_prefix, contains, elem, Result, ok, err, ◌>>=◌,
}
pub mod Words
pub mod Split
pub mod Safety

abbrev pub backslash : ℕ
backslash = b'\\'

abbrev pub single_quote : ℕ
single_quote = 39

abbrev pub double_quote : ℕ
double_quote = 34

pub data CommandError : Type 0 where
  empty_command trailing_backslash unclosed_quote no_arguments : CommandError
  not_npx no_package backtick : CommandError
  shell_metacharacter shell_operator : Bytes → CommandError
  other_package other_version : Bytes → Bytes → CommandError
  no_package_spec : CommandError

-- The variables of the loop of ParseServerCommand.
pub record Splitter : Type 0 where
  pub args : List Bytes
  pub current : Bytes
  pub in_quote : Bool
  pub quote_char : ℕ
  pub escaped : Bool

abbrev pub put_rune : Splitter → ℕ → Splitter
put_rune s r = record s { current = s.current ++ (r ∷ []) }

-- The argument so far, if it is not empty, becomes one of the arguments.
unfoldable pub flush : Splitter → Splitter
flush s =
    if is_empty s.current then s else record s { args = s.args ++ (s.current ∷ []); current = [] }

unfoldable pub split_end : Splitter → Result CommandError (List Bytes)
unfolding flush
split_end s =
    if s.escaped
    then err trailing_backslash
    else if s.in_quote
    then err unclosed_quote
    else if is_empty (flush s).args
    then err no_arguments
    else ok (flush s).args

abbrev pub split_start : Splitter
split_start = record { args = []; current = []; in_quote = false; quote_char = 0; escaped = false }

module _ (is_space : ℕ → Bool) where
  unfoldable pub split_step : Splitter → ℕ → Splitter
  unfolding flush
  split_step s r =
      if s.escaped
      then record (put_rune s r) { escaped = false }
      else if r == backslash
      then (if s.in_quote && s.quote_char == single_quote
          then put_rune s r
          else record s { escaped = true })
      else if s.in_quote
      then (if r == s.quote_char then record s { in_quote = false } else put_rune s r)
      else if r == double_quote || r == single_quote
      then record s { in_quote = true; quote_char = r }
      else if is_space r
      then flush s
      else put_rune s r

  unfoldable pub split_run : Splitter → Bytes → Splitter
  unfolding split_step
  split_run s [] = s
  split_run s (r ∷ rs) = split_run (split_step s r) rs

  unfoldable pub parse_server_command : Bytes → Result CommandError (List Bytes)
  unfolding split_run split_end
  parse_server_command command =
      if is_empty command then err empty_command else split_end (split_run split_start command)

-- The arguments behind npx, with "npx" itself taken off.
unfoldable pub after_npx : List Bytes → Result CommandError (List Bytes)
after_npx [] = err not_npx
after_npx (a ∷ rest) = if bytes_eq a (codes "npx") then ok rest else after_npx rest

-- The loop that looks for the package: every flag is passed over.
unfoldable pub after_package : List Bytes → Result CommandError (List Bytes)
after_package [] = err no_package
after_package (a ∷ rest) = if has_prefix a (codes "-") then after_package rest else ok rest

unfoldable pub extract_npx_args : (ℕ → Bool) → Bytes → Result CommandError (List Bytes)
unfolding after_npx after_package
extract_npx_args is_space command =
    parse_server_command is_space command >>= λ args. after_npx args >>= λ rest. after_package rest

-- The first of the texts that stands in the command.
unfoldable pub find_in : Bytes → List Bytes → Result {0} Bytes Unit
find_in s [] = ok tt
find_in s (d ∷ ds) = if contains s d then err d else find_in s ds

abbrev pub metacharacters : List Bytes
metacharacters = codes ";" ∷ codes "|" ∷ codes "&" ∷ codes "`" ∷ (10 ∷ []) ∷ (13 ∷ []) ∷ []

unfoldable pub validate_no_shell_metacharacters : Bytes → Result {0} CommandError Unit
unfolding find_in
validate_no_shell_metacharacters s = elim (find_in s metacharacters) [
  | ok u ↦ ok tt
  | err d ↦ err (shell_metacharacter d)
]

-- The variables of the scanner of ValidateCommandSafety.
pub record Scan : Type 0 where
  pub in_quote : Bool
  pub quote_char : ℕ
  pub escaped : Bool
  pub unquoted : Bytes

unfoldable pub safety_step : Scan → ℕ → Scan
safety_step s r =
    if s.escaped
    then record s { escaped = false }
    else if r == backslash && (not s.in_quote || s.quote_char == double_quote)
    then record s { escaped = true }
    else if s.in_quote
    then (if r == s.quote_char then record s { in_quote = false } else s)
    else if r == double_quote || r == single_quote
    then record s { in_quote = true; quote_char = r }
    else record s { unquoted = s.unquoted ++ (r ∷ []) }

unfoldable pub safety_run : Scan → Bytes → Scan
unfolding safety_step
safety_run s [] = s
safety_run s (r ∷ rs) = safety_run (safety_step s r) rs

abbrev pub scan_start : Scan
scan_start = record { in_quote = false; quote_char = 0; escaped = false; unquoted = [] }

abbrev pub shell_patterns : List Bytes
shell_patterns =
    codes " | "
    ∷ codes " && "
    ∷ codes " || "
    ∷ codes " ; "
    ∷ codes " > "
    ∷ codes " >> "
    ∷ codes " < "
    ∷ []

unfoldable pub validate_command_safety : Bytes → Result {0} CommandError Unit
unfolding find_in safety_run
validate_command_safety command =
    if contains command (codes "`")
    then err backtick
    else elim (find_in (safety_run scan_start command).unquoted shell_patterns) [
      | ok u ↦ ok tt
      | err p ↦ err (shell_operator p)
    ]
