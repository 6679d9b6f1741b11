-- ===== src/Locker/Canonical.antt =====
-- locker/canonical.go: the two canonical forms of a JSON value. What the code takes from packages
-- encoding/json, strconv, crypto/sha256 and from the arithmetic of float64 is the record Encoding;
-- an error is its text.
use mcptrust.Base.{
  ℕ, ◌+◌, ◌-◌, ◌*◌, ◌/◌, ◌%◌, Bool, true, false, ◌&&◌, ◌||◌, Option, none, some, List, [], ◌∷◌,
  ◌++◌, ◌==◌, if◌then◌else◌, ltb, leb, Bytes, codes, bytes_eq, Result, ok, err, ◌>>=◌, bytes_lt,
}
use mcptrust.Json.{
  Value, null, bool, str, number, float64, int, int64, arr, obj, Items, nil, cons, Fields, end,
  field, ℤ,
}
pub mod Order

pub record Encoding : Type 0 where
  -- fmt.Sprintf("%x", sha256.Sum256(data)).
  pub sha256_hex : Bytes → Bytes
  -- json.Marshal of a value that is no array and no object.
  pub marshal : Value → Result Bytes Bytes
  -- json.Marshal of a string.
  pub marshal_string : Bytes → Result Bytes Bytes
  -- The code points of a string, and the bytes of a code point.
  pub runes : Bytes → List ℕ
  pub rune_bytes : ℕ → Bytes
  -- json.Number.Float64.
  pub parse_float : Bytes → Result Bytes ℕ
  pub is_nan : ℕ → Bool
  pub is_infinite : ℕ → Bool
  pub is_zero : ℕ → Bool
  -- f == float64(int64(f)), between -9007199254740991 and 9007199254740991.
  pub is_safe_integer : ℕ → Bool
  -- strconv.FormatInt(int64(f), 10) and strconv.FormatFloat(f, 'g', -1, 64).
  pub format_int_of : ℕ → Bytes
  pub format_float : ℕ → Bytes
  pub format_int : ℤ → Bytes

pub data CanonVersion : Type 0 where
  canon_v1 canon_v2 : CanonVersion
  other_version : Bytes → CanonVersion

-- A member of an object: its key, and the text of its value or the error of writing it.
abbrev pub Member : Type 0
Member = Bytes × Result Bytes Bytes

-- Sorting the keys of an object: each is put before the first key that is not less.
unfoldable pub insert_member : (Bytes → Bytes → Bool) → Member → List Member → List Member
insert_member less m [] = m ∷ []
insert_member less m (n ∷ ns) = if less n.0 m.0 then n ∷ insert_member less m ns else m ∷ n ∷ ns

unfoldable pub sort_members : (Bytes → Bytes → Bool) → List Member → List Member
unfolding insert_member
sort_members less [] = []
sort_members less (m ∷ ms) = insert_member less m (sort_members less ms)

unfoldable pub join_comma : List Bytes → Bytes
join_comma [] = []
join_comma (x ∷ []) = x
join_comma (x ∷ y ∷ xs) = x ++ b',' ∷ join_comma (y ∷ xs)

-- The members in order, with the writer of keys; the first error ends it.
unfoldable pub write_members :
    (Bytes → Result Bytes Bytes) → List Member → Result Bytes (List Bytes)
write_members key [] = ok []
write_members key ((k, r) ∷ ms) = do
  key_text ← key k
  value_text ← r
  rest ← write_members key ms
  ok ((key_text ++ b':' ∷ value_text) ∷ rest)

-- orderedMapV1.MarshalJSON and writeJCSObject, for their order of keys and writer of keys.
unfoldable pub write_object :
    (Bytes → Bytes → Bool) → (Bytes → Result Bytes Bytes) → List Member → Result Bytes Bytes
unfolding join_comma
write_object less key ms = do
  texts ← write_members key (sort_members less ms)
  ok (b'{' ∷ (join_comma texts ++ b'}' ∷ []))

unfoldable pub write_array : List Bytes → Bytes
unfolding join_comma
write_array texts = b'[' ∷ (join_comma texts ++ b']' ∷ [])

-- utf16.Encode.
utf16_encode : List ℕ → List ℕ
utf16_encode [] = []
utf16_encode (r ∷ rs) =
    let rest = utf16_encode rs in
    if ltb r 0x10000
    then r ∷ rest
    else (0xd800 + (r - 0x10000) / 1024) ∷ (0xdc00 + (r - 0x10000) % 1024) ∷ rest

module _ (enc : Encoding) where
  open enc use {
    marshal, marshal_string, runes, rune_bytes, parse_float, is_nan, is_infinite, is_zero,
    is_safe_integer, format_int_of, format_float, format_int,
  }

  unfoldable mutual
    pub canonicalize_v1 : Value → Result Bytes Bytes
    canonicalize_v1 (arr xs) = canonicalize_items_v1 xs >>= λ texts. ok (write_array texts)
    canonicalize_v1 (obj m) = write_object bytes_lt marshal_string (canonicalize_fields_v1 m)
    canonicalize_v1 null = marshal null
    canonicalize_v1 (bool b) = marshal (bool b)
    canonicalize_v1 (str s) = marshal (str s)
    canonicalize_v1 (number s) = marshal (number s)
    canonicalize_v1 (float64 f) = marshal (float64 f)
    canonicalize_v1 (int i) = marshal (int i)
    canonicalize_v1 (int64 i) = marshal (int64 i)

    pub canonicalize_items_v1 : Items → Result Bytes (List Bytes)
    canonicalize_items_v1 nil = ok []
    canonicalize_items_v1 (cons v vs) =
        canonicalize_v1 v >>= λ text. canonicalize_items_v1 vs >>= λ texts. ok (text ∷ texts)

    pub canonicalize_fields_v1 : Fields → List Member
    canonicalize_fields_v1 end = []
    canonicalize_fields_v1 (field k v m) = (k, canonicalize_v1 v) ∷ canonicalize_fields_v1 m

  -- compareUTF16(a, b) < 0.
  unfoldable pub utf16_lt : Bytes → Bytes → Bool
  unfolding utf16_encode bytes_lt
  utf16_lt a b = bytes_lt (utf16_encode (runes a)) (utf16_encode (runes b))

  hex4 : ℕ → Bytes
  hex4 r =
      codes "\\u00"
      ++ (b'0' + r / 16) ∷ (if ltb (r % 16) 10 then b'0' + r % 16 else b'a' + (r % 16 - 10)) ∷ []

  write_rune : ℕ → Bytes
  write_rune r =
      if r == 34
      then codes "\\\""
      else if r == 92
      then codes "\\\\"
      else if r == 8
      then codes "\\b"
      else if r == 12
      then codes "\\f"
      else if r == 10
      then codes "\\n"
      else if r == 13
      then codes "\\r"
      else if r == 9
      then codes "\\t"
      else if ltb r 0x20
      then hex4 r
      else rune_bytes r

  write_runes : List ℕ → Bytes
  write_runes [] = []
  write_runes (r ∷ rs) = write_rune r ++ write_runes rs

  unfoldable pub write_jcs_string : Bytes → Bytes
  unfolding write_runes write_rune hex4
  write_jcs_string s = 34 ∷ (write_runes (runes s) ++ 34 ∷ [])

  unfoldable pub jcs_format_number : ℕ → Result Bytes Bytes
  jcs_format_number f =
      if is_nan f
      then err (codes "NaN is not a valid JSON number")
      else if is_infinite f
      then err (codes "infinity is not a valid JSON number")
      else if is_zero f
      then ok (codes "0")
      else if is_safe_integer f
      then ok (format_int_of f)
      else ok (format_float f)

  unfoldable mutual
    pub write_jcs_value : Value → Result Bytes Bytes
    write_jcs_value null = ok (codes "null")
    write_jcs_value (bool true) = ok (codes "true")
    write_jcs_value (bool false) = ok (codes "false")
    write_jcs_value (float64 f) = jcs_format_number f
    write_jcs_value (number s) = parse_float s >>= λ f. jcs_format_number f
    write_jcs_value (int i) = ok (format_int i)
    write_jcs_value (int64 i) = ok (format_int i)
    write_jcs_value (str s) = ok (write_jcs_string s)
    write_jcs_value (arr xs) = write_jcs_items xs >>= λ texts. ok (write_array texts)
    write_jcs_value (obj m) =
        write_object utf16_lt (λ k. ok (write_jcs_string k)) (write_jcs_fields m)

    pub write_jcs_items : Items → Result Bytes (List Bytes)
    write_jcs_items nil = ok []
    write_jcs_items (cons v vs) =
        write_jcs_value v >>= λ text. write_jcs_items vs >>= λ texts. ok (text ∷ texts)

    pub write_jcs_fields : Fields → List Member
    write_jcs_fields end = []
    write_jcs_fields (field k v m) = (k, write_jcs_value v) ∷ write_jcs_fields m

  unfoldable pub canonicalize_json_with_version : Value → CanonVersion → Result Bytes Bytes
  canonicalize_json_with_version v canon_v1 = canonicalize_v1 v
  canonicalize_json_with_version v canon_v2 = write_jcs_value v
  canonicalize_json_with_version v (other_version t) =
      err (codes "unknown canonicalization version: " ++ t)
