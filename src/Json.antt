-- ===== src/Json.antt =====
-- JSON as package encoding/json decodes it into interface{} (proxy/bridge.go): an object is a
-- map[string]interface{}, a number keeps its literal. Numbers of the Go types int and int64 are
-- built by the proxy itself; a float64 is its 64-bit pattern.
use mcptrust.Base.{
  ℕ, ◌≡◌, refl, Bool, Option, none, some, [], arith, if◌then◌else◌, Bytes, bytes_eq, bytes_eq_iff,
}

pub data ℤ : Type 0 where
  pos : ℕ → ℤ
  negsuc : ℕ → ℤ

mutual
  pub data Value : Type 0 where
    null : Value
    bool : Bool → Value
    str : Bytes → Value
    number : Bytes → Value
    float64 : ℕ → Value
    int : ℤ → Value
    int64 : ℤ → Value
    obj : Fields → Value
    arr : Items → Value

  -- The members of an object.
  pub data Fields : Type 0 where
    field : Bytes → Value → Fields → Fields
    end : Fields

  -- The elements of an array.
  pub data Items : Type 0 where
    cons : Value → Items → Items
    nil : Items

-- m[k], with whether the key is there.
unfoldable pub get_field : Bytes → Fields → Option Value
get_field k end = none
get_field k (field j v m) = if bytes_eq j k then some v else get_field k m

-- m[k] = v.
unfoldable pub set_field : Bytes → Value → Fields → Fields
set_field k v end = field k v end
set_field k v (field j w m) = if bytes_eq j k then field k v m else field j w (set_field k v m)

-- delete(m, k).
unfoldable pub delete_field : Bytes → Fields → Fields
delete_field k end = end
delete_field k (field j w m) =
    if bytes_eq j k then delete_field k m else field j w (delete_field k m)

pub get_field-set_field :
    (k j : Bytes) (v : Value) (m : Fields)
    → get_field j (set_field k v m) ≡ (if bytes_eq k j then some v else get_field j m)
unfolding get_field set_field
get_field-set_field k j v end = refl
get_field-set_field k j v (field i w m) =
    ground
      (arith, bytes_eq_iff k j, bytes_eq_iff i k, bytes_eq_iff i j, get_field-set_field k j v m)

pub get_field-delete_field :
    (k j : Bytes) (m : Fields)
    → get_field j (delete_field k m) ≡ (if bytes_eq k j then none else get_field j m)
unfolding get_field delete_field
get_field-delete_field k j end = ground arith
get_field-delete_field k j (field i w m) =
    ground
      (arith, bytes_eq_iff k j, bytes_eq_iff i k, bytes_eq_iff i j, get_field-delete_field k j m)

-- v.(string), v.(map[string]interface{}) and v.([]interface{}), with whether they succeed.
abbrev pub as_string : Value → Option Bytes
as_string (str s) = some s
as_string _ = none

abbrev pub as_object : Value → Option Fields
as_object (obj m) = some m
as_object _ = none

abbrev pub as_array : Value → Option Items
as_array (arr xs) = some xs
as_array _ = none

-- s, _ := m[k].(string): the empty string where it fails.
unfoldable pub string_field : Bytes → Fields → Bytes
string_field k m = elim (get_field k m) [
  | none ↦ []
  | some v ↦ elim (as_string v) [ none ↦ [] | some s ↦ s ]
]

-- o, _ := m[k].(map[string]interface{}): the nil map, which reads as empty, where it fails.
unfoldable pub object_field : Bytes → Fields → Fields
object_field k m = elim (get_field k m) [
  | none ↦ end
  | some v ↦ elim (as_object v) [ none ↦ end | some o ↦ o ]
]

-- xs, ok := m[k].([]interface{}), and the same for an object.
unfoldable pub array_field? : Bytes → Fields → Option Items
array_field? k m = elim (get_field k m) [ none ↦ none | some v ↦ as_array v ]

unfoldable pub object_field? : Bytes → Fields → Option Fields
object_field? k m = elim (get_field k m) [ none ↦ none | some v ↦ as_object v ]
