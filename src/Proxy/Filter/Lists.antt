-- ===== src/Proxy/Filter/Lists.antt =====
-- The list filters (proxy/filter.go): what is left of a list, and that nothing else reaches the
-- host in answer to a list request.
use mcptrust.Base.{
  ◌≡◌, refl, ◌↔◌, ◌⊎◌, inl, inr, true, false, none, some, arith, Bytes, bytes_eq, bytes_eq_refl,
  codes, Bool-cases, Option-cases, subst,
}
use mcptrust.Json.{
  Value, arr, obj, Items, nil, cons, Fields, end, field, get_field, string_field, array_field?,
}
use mcptrust.Proxy.Enforce.{NameSet, has_name, Enforcer}
use mcptrust.Proxy.Filter.{
  keep_allowed, filter_list, filter_tools_list, filter_prompts_list, filter_templates_list,
  filter_resources_list, filter_by_method,
}

abbrev pub InItems : Value → Items → Type 0
InItems v nil = ⊥
InItems v (cons w rest) = (v ≡ w) ⊎ InItems v rest

-- An object whose name is in the set.
abbrev pub Listed : Bytes → NameSet → Value → Type 0
Listed name_key allowed v =
    (o : Fields) × (v ≡ obj o) × (has_name (string_field name_key o) allowed ≡ true)

keep_allowed-mem :
    (nk : Bytes) (al : NameSet) (v : Value) (items : Items)
    → InItems v (keep_allowed nk al items)
    → InItems v items × Listed nk al v
unfolding keep_allowed
keep_allowed-mem nk al v nil h = absurd h
keep_allowed-mem nk al v (cons (obj o) rest) h =
    elim (Bool-cases (has_name (string_field nk o) al)) [
      | inl y ↦ elim (kept y) [
        | inl e ↦ (inl e, (o, e, y))
        | inr m ↦ let (i, l) = keep_allowed-mem nk al v rest m in (inr i, l)
      ]
      | inr n ↦ let (i, l) = keep_allowed-mem nk al v rest (skipped n) in (inr i, l)
    ]
  where
    kept :
        has_name (string_field nk o) al ≡ true → InItems v (cons (obj o) (keep_allowed nk al rest))
    kept y = rw y at h

    skipped : has_name (string_field nk o) al ≡ false → InItems v (keep_allowed nk al rest)
    skipped n = rw n at h
keep_allowed-mem nk al v (cons w rest) h =
    let (i, l) = keep_allowed-mem nk al v rest h in (inr i, l)

mem-keep_allowed :
    (nk : Bytes) (al : NameSet) (v : Value) (items : Items)
    → InItems v items
    → Listed nk al v
    → InItems v (keep_allowed nk al items)
unfolding keep_allowed
mem-keep_allowed nk al v nil h l = h
mem-keep_allowed nk al v (cons (obj o) rest) (inl e) (p, q, y) =
    let same : o ≡ p = cc in
    let y' : has_name (string_field nk o) al ≡ true = rw same y in rw y' (inl e)
mem-keep_allowed nk al v (cons (obj o) rest) (inr m) l =
    let rest' = mem-keep_allowed nk al v rest m l in
    elim (Bool-cases (has_name (string_field nk o) al)) [
      | inl y ↦ rw y (inr rest')
      | inr n ↦ rw n rest'
    ]
mem-keep_allowed nk al v (cons w rest) (inl e) (p, q, y) = cc
mem-keep_allowed nk al v (cons w rest) (inr m) l = mem-keep_allowed nk al v rest m l

-- A filtered list holds exactly the items of the list that are objects with an allowed name.
pub keep_allowed_iff :
    (name_key : Bytes) (allowed : NameSet) (v : Value) (items : Items)
    → InItems v (keep_allowed name_key allowed items)
      ↔ (InItems v items × Listed name_key allowed v)
keep_allowed_iff nk al v items =
    (keep_allowed-mem nk al v items, λ p. mem-keep_allowed nk al v items p.0 p.1)

filter_list-array :
    (key nk : Bytes) (result : Fields) (al : NameSet) (items : Items)
    → array_field? key result ≡ some items
    → filter_list key nk result al ≡ field key (arr (keep_allowed nk al items)) end
unfolding filter_list
filter_list-array key nk result al items h = rw (h, filter_list)

filter_list-other :
    (key nk : Bytes) (result : Fields) (al : NameSet)
    → array_field? key result ≡ none
    → filter_list key nk result al ≡ result
unfolding filter_list
filter_list-other key nk result al h = rw (h, filter_list)

array_field?-one :
    (key : Bytes) (items : Items) → array_field? key (field key (arr items) end) ≡ some items
unfolding array_field? get_field
array_field?-one key items = ground (arith, bytes_eq_refl key)

-- A list in a filtered result has allowed names only.
pub filter_list-Listed :
    (key nk : Bytes) (result : Fields) (al : NameSet) (items : Items) (v : Value)
    → array_field? key (filter_list key nk result al) ≡ some items
    → InItems v items
    → Listed nk al v
filter_list-Listed key nk result al items v h m = elim (Option-cases (array_field? key result)) [
  | inl n ↦
      let gone : array_field? key result ≡ some items =
        rw (filter_list-other key nk result al n) at h in
      cc (gone, n)
  | inr (xs, e) ↦
      let kept : array_field? key (field key (arr (keep_allowed nk al xs)) end) ≡ some items =
        rw (filter_list-array key nk result al xs e) at h in
      let same : items ≡ keep_allowed nk al xs =
        cc (kept, array_field?-one key (keep_allowed nk al xs)) in
      ((keep_allowed_iff nk al v xs).0 (subst (λ (t : Items). InItems v t) same m)).1
]

-- The requests whose answers are filtered, and what filters them.
pub data Listing : Type 0 where
  tools prompts templates resources : Listing

abbrev pub method_of : Listing → Bytes
method_of tools = codes "tools/list"
method_of prompts = codes "prompts/list"
method_of templates = codes "resources/templates/list"
method_of resources = codes "resources/list"

abbrev pub key_of : Listing → Bytes
key_of tools = codes "tools"
key_of prompts = codes "prompts"
key_of templates = codes "resourceTemplates"
key_of resources = codes "resources"

abbrev pub name_key_of : Listing → Bytes
name_key_of tools = codes "name"
name_key_of prompts = codes "name"
name_key_of templates = codes "uriTemplate"
name_key_of resources = codes "uri"

abbrev pub allowed_of : Listing → Enforcer → NameSet
allowed_of tools e = e.allowed_tools
allowed_of prompts e = e.allowed_prompts
allowed_of templates e = e.allowed_template_uris
allowed_of resources e = e.static_resources

-- Resource lists are filtered only where static resources are on.
abbrev pub IsFiltered : Listing → Enforcer → Type 0
IsFiltered resources e = e.allow_static_resources ≡ true
IsFiltered _ e = Unit {0}

pub filter_by_method-listing :
    (l : Listing) (e : Enforcer) (result : Fields)
    → IsFiltered l e
    → filter_by_method e (method_of l) result
      ≡ some (filter_list (key_of l) (name_key_of l) result (allowed_of l e))
unfolding filter_by_method filter_tools_list filter_prompts_list filter_templates_list
    filter_resources_list bytes_eq
filter_by_method-listing tools e result h = refl
filter_by_method-listing prompts e result h = refl
filter_by_method-listing templates e result h = refl
filter_by_method-listing resources e result h = rw h
