-- ===== src/Locker/Hash.antt =====
-- locker/hasher.go and locker/hasher_v3.go: the hashes that a lockfile holds.
use mcptrust.Base.{
  ℕ, Bool, true, false, ◌&&◌, ◌||◌, Option, none, some, List, [], ◌∷◌, ◌++◌, ◌==◌, if◌then◌else◌,
  is_empty, Bytes, codes, bytes_lt, Result, ok, err,
}
use mcptrust.Json.{
  Value, null, bool, str, number, float64, int, int64, arr, obj, Items, nil, cons, Fields, end,
  field, set_field,
}
use mcptrust.Models.{PromptArgument}
use mcptrust.Locker.Canonical.{Encoding, canonicalize_v1, write_jcs_value}

-- strings.ReplaceAll for the two line endings.
replace_crlf : Bytes → Bytes
replace_crlf [] = []
replace_crlf (a ∷ []) = a ∷ []
replace_crlf (a ∷ b ∷ s) =
    let pair = 10 ∷ replace_crlf s in
    let one = a ∷ replace_crlf (b ∷ s) in if a == 13 && b == 10 then pair else one

replace_cr : Bytes → Bytes
replace_cr [] = []
replace_cr (a ∷ s) = (if a == 13 then 10 else a) ∷ replace_cr s

is_blank : ℕ → Bool
is_blank c = c == 32 || c == 9

-- The rest of the line is blank.
blank_line : Bytes → Bool
blank_line [] = true
blank_line (c ∷ s) = if c == 10 then true else is_blank c && blank_line s

-- Splitting at newlines, TrimRight of each line and joining again: a blank is dropped where only
-- blanks follow it on its line.
trim_lines : Bytes → Bytes
trim_lines [] = []
trim_lines (c ∷ s) =
    let rest = trim_lines s in if is_blank c && blank_line s then rest else c ∷ rest

unfoldable pub normalize_string : Bytes → Bytes
unfolding replace_crlf replace_cr trim_lines blank_line is_blank
normalize_string s = trim_lines (replace_cr (replace_crlf s))

-- rejectFloats.
unfoldable mutual
  pub has_float : Value → Bool
  has_float (float64 f) = true
  has_float (arr xs) = has_float_items xs
  has_float (obj m) = has_float_fields m
  has_float null = false
  has_float (bool b) = false
  has_float (str s) = false
  has_float (number s) = false
  has_float (int i) = false
  has_float (int64 i) = false

  pub has_float_items : Items → Bool
  has_float_items nil = false
  has_float_items (cons v vs) = has_float v || has_float_items vs

  pub has_float_fields : Fields → Bool
  has_float_fields end = false
  has_float_fields (field k v m) = has_float v || has_float_fields m

-- sort.Slice by name; arguments of one name keep their order here, which Go leaves open.
insert_argument : PromptArgument → List PromptArgument → List PromptArgument
insert_argument a [] = a ∷ []
insert_argument a (b ∷ bs) = if bytes_lt b.name a.name then b ∷ insert_argument a bs else a ∷ b ∷ bs

sort_arguments : List PromptArgument → List PromptArgument
sort_arguments [] = []
sort_arguments (a ∷ as') = insert_argument a (sort_arguments as')

unfoldable pub argument_map : PromptArgument → Fields
argument_map a =
    let named = field (codes "name") (str a.name) end in
    let described =
      if is_empty a.description
      then named
      else set_field (codes "description") (str a.description) named in
    if a.required then set_field (codes "required") (bool true) described else described

argument_maps : List PromptArgument → Items
argument_maps [] = nil
argument_maps (a ∷ rest) = cons (obj (argument_map a)) (argument_maps rest)

template_map : Bytes → Bytes → Fields
template_map uri_template mime_type =
    let named = field (codes "uriTemplate") (str uri_template) end in
    if is_empty mime_type then named else set_field (codes "mimeType") (str mime_type) named

module _ (enc : Encoding) where
  -- fmt.Sprintf("sha256:%x", sha256.Sum256(data)).
  sha256_text : Bytes → Bytes
  sha256_text text = codes "sha256:" ++ enc.sha256_hex text

  unfoldable pub hash_string : Bytes → Bytes
  unfolding sha256_text
  hash_string s = sha256_text s

  -- HashJSON of an input schema: the nil map and the empty map give the empty string.
  unfoldable pub hash_json : Option Fields → Result Bytes Bytes
  unfolding sha256_text
  hash_json none = ok []
  hash_json (some end) = ok []
  hash_json (some (field k v m)) = elim (canonicalize_v1 enc (obj (field k v m))) [
    | ok canonical ↦ ok (sha256_text canonical)
    | err e ↦ err (codes "failed to canonicalize JSON: " ++ e)
  ]

  unfoldable pub hash_normalized_string : Bytes → Bytes
  unfolding sha256_text normalize_string
  hash_normalized_string s = sha256_text (normalize_string s)

  -- The text of the error for a float leaves out its value and where it stands.
  unfoldable pub hash_jcs_json : Value → Result Bytes Bytes
  unfolding sha256_text has_float
  hash_jcs_json null = ok []
  hash_jcs_json v =
      if has_float v
      then err (codes "float64 values not allowed in lockfile hashing")
      else elim (write_jcs_value enc v) [
        | ok canonical ↦ ok (sha256_text canonical)
        | err e ↦ err (codes "failed to canonicalize JSON: " ++ e)
      ]

  unfoldable pub hash_prompt_arguments : List PromptArgument → Result Bytes Bytes
  unfolding hash_jcs_json argument_maps sort_arguments insert_argument
  hash_prompt_arguments args = hash_jcs_json (arr (argument_maps (sort_arguments args)))

  unfoldable pub hash_template : Bytes → Bytes → Result Bytes Bytes
  unfolding hash_jcs_json template_map
  hash_template uri_template mime_type = hash_jcs_json (obj (template_map uri_template mime_type))
