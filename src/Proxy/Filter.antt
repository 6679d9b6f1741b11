-- ===== src/Proxy/Filter.antt =====
-- proxy/filter.go: the ResponseFilter, which gives each host request an ID of its own towards the
-- server and lets a response through once. Each method holds the filter's lock, so that it is one
-- step. The clock and the random source are arguments; times are nanoseconds.
use mcptrust.Base.{
  ℕ, zero, suc, ◌+◌, ◌-◌, ◌/◌, ◌%◌, Bool, true, false, ◌&&◌, not, Option, none, some, List, [], ◌∷◌,
  ◌++◌, if◌then◌else◌, ltb, leb, length, is_empty, Bytes, codes, bytes_eq, GoMap, lookup, insert,
  delete, is_some, Result, ok, err,
}
use mcptrust.Json.{
  Value, str, arr, obj, Items, nil, cons, Fields, end, field, get_field, set_field, delete_field,
  as_string, as_object, string_field, array_field?, object_field?,
}
use mcptrust.Proxy.Limits.{
  ProxyError, pending_map_full, no_unique_id, rng_failed, validate_host_id, max_pending_requests,
  max_recent_used_ids, used_id_ttl,
}
use mcptrust.Proxy.Enforce.{NameSet, has_name, Enforcer}
pub mod Lists
pub mod Prune
pub mod Answered
pub mod Invariant
pub mod Register
pub mod Apply

pub record PendingEntry : Type 0 where
  pub method : Bytes
  pub host_id : Value

pub record ResponseFilter : Type 0 where
  pub enforcer : Enforcer
  pub audit_only : Bool
  pub pending : GoMap PendingEntry
  -- The time of use of each ID.
  pub recent_used : GoMap ℕ
  pub prune_counter : ℕ

unfoldable pub new_response_filter : Enforcer → Bool → ResponseFilter
new_response_filter e audit_only = record {
  enforcer = e;
  audit_only = audit_only;
  pending = [];
  recent_used = [];
  prune_counter = 0;
}

-- hex.EncodeToString.
unfoldable pub hex_digit : ℕ → ℕ
hex_digit n = if ltb n 10 then b'0' + n else b'a' + (n - 10)

unfoldable pub encode_to_string : Bytes → Bytes
unfolding hex_digit
encode_to_string [] = []
encode_to_string (b ∷ s) = hex_digit (b / 16) ∷ hex_digit (b % 16) ∷ encode_to_string s

-- One reading of the random source: 16 bytes, or the text of its error.
pub data Draw : Type 0 where
  drawn : Bytes → Draw
  failed : Bytes → Draw

unfoldable pub generate_proxy_id : Draw → Result ProxyError Bytes
unfolding encode_to_string
generate_proxy_id (drawn buf) = ok (codes "mcp_" ++ encode_to_string buf)
generate_proxy_id (failed e) = err (rng_failed e)

-- The loop of Register: `left` attempts remain, and the next one reads draw number `i`.
unfoldable pub attempts :
    ℕ → ℕ → (ℕ → Draw) → Value → Bytes → ResponseFilter → ResponseFilter × Result ProxyError Bytes
attempts zero i draw host_id method f = (f, err no_unique_id)
attempts (suc left) i draw host_id method f = elim (generate_proxy_id (draw i)) [
  | err e ↦ (f, err e)
  | ok id ↦
      let retry = attempts left (suc i) draw host_id method f in
      if is_some (lookup id f.pending)
      then retry
      else if is_some (lookup id f.recent_used)
      then retry
      else (
        record f { pending = insert id (record { method = method; host_id = host_id }) f.pending },
        ok id,
      )
]

unfoldable pub register :
    (ℕ → Draw) → Value → Bytes → ResponseFilter → ResponseFilter × Result ProxyError Bytes
unfolding attempts generate_proxy_id
register draw host_id method f = elim (validate_host_id host_id) [
  | some e ↦ (f, err e)
  | none ↦
      if leb max_pending_requests (length f.pending)
      then (f, err pending_map_full)
      else attempts 3 0 draw host_id method f
]

-- pruneRecentUsed, phase 1: drop what was used before now - UsedIDTTL.
unfoldable pub drop_expired : ℕ → GoMap ℕ → GoMap ℕ
drop_expired now [] = []
drop_expired now ((k, used_at) ∷ m) =
    let rest = drop_expired now m in
    if ltb (used_at + used_id_ttl) now then rest else (k, used_at) ∷ rest

-- The inner loop of phase 2, with the oldest entry so far.
unfoldable pub find_oldest : Bytes → ℕ → GoMap ℕ → Bytes
find_oldest key time [] = key
find_oldest key time ((k, t) ∷ m) =
    find_oldest (if ltb t time then k else key) (if ltb t time then t else time) m

unfoldable pub oldest_key : GoMap ℕ → Bytes
unfolding find_oldest
oldest_key [] = []
oldest_key ((k, t) ∷ m) = find_oldest k t m

-- Phase 2: drop the oldest entry while there are more than MaxRecentUsedIDs. The fuel is the size
-- of the map.
unfoldable pub drop_oldest : ℕ → GoMap ℕ → GoMap ℕ
drop_oldest zero m = m
drop_oldest (suc fuel) m =
    let rest = drop_oldest fuel (delete (oldest_key m) m) in
    if ltb max_recent_used_ids (length m) then (if is_empty (oldest_key m) then m else rest) else m

unfoldable pub prune_recent_used : ℕ → GoMap ℕ → GoMap ℕ
prune_recent_used now m = let m' = drop_expired now m in drop_oldest (length m') m'

-- filterToolsList, filterPromptsList, filterTemplatesList and filterResourcesList: the objects of
-- the list under `key` whose `name_key` is allowed.
unfoldable pub keep_allowed : Bytes → NameSet → Items → Items
keep_allowed name_key allowed nil = nil
keep_allowed name_key allowed (cons (obj o) rest) =
    let kept = keep_allowed name_key allowed rest in
    if has_name (string_field name_key o) allowed then cons (obj o) kept else kept
keep_allowed name_key allowed (cons v rest) = keep_allowed name_key allowed rest

unfoldable pub filter_list : Bytes → Bytes → Fields → NameSet → Fields
filter_list key name_key result allowed = elim (array_field? key result) [
  | none ↦ result
  | some items ↦ field key (arr (keep_allowed name_key allowed items)) end
]

unfoldable pub filter_tools_list : Fields → NameSet → Fields
filter_tools_list = filter_list (codes "tools") (codes "name")

unfoldable pub filter_prompts_list : Fields → NameSet → Fields
filter_prompts_list = filter_list (codes "prompts") (codes "name")

unfoldable pub filter_templates_list : Fields → NameSet → Fields
filter_templates_list = filter_list (codes "resourceTemplates") (codes "uriTemplate")

unfoldable pub filter_resources_list : Fields → NameSet → Fields
filter_resources_list = filter_list (codes "resources") (codes "uri")

-- The switch of Apply on the method of the request, for a result that is an object.
unfoldable pub filter_by_method : Enforcer → Bytes → Fields → Option Fields
filter_by_method e method result =
    if bytes_eq method (codes "tools/list")
    then some (filter_tools_list result e.allowed_tools)
    else if bytes_eq method (codes "prompts/list")
    then some (filter_prompts_list result e.allowed_prompts)
    else if bytes_eq method (codes "resources/templates/list")
    then some (filter_templates_list result e.allowed_template_uris)
    else if bytes_eq method (codes "resources/list") && e.allow_static_resources
    then some (filter_resources_list result e.static_resources)
    else none

-- The end of Apply, where the result of a list request is filtered.
unfoldable pub filter_result : Enforcer → Bytes → Fields → Fields × Bool
filter_result e method resp = elim (object_field? (codes "result") resp) [
  | none ↦ (resp, false)
  | some result ↦ elim (filter_by_method e method result) [
    | none ↦ (resp, false)
    | some filtered ↦ (set_field (codes "result") (obj filtered) resp, true)
  ]
]

-- Apply behind its critical section: the host's ID comes back, and the lists are filtered.
unfoldable pub deliver : ResponseFilter → PendingEntry → Bool → Fields → Fields × Bool
deliver f entry has_error resp =
    let resp' = set_field (codes "id") entry.host_id resp in
    if has_error
    then (resp', false)
    else if f.audit_only
    then (resp', false)
    else filter_result f.enforcer entry.method resp'

-- The writes of the critical section for a pending ID.
unfoldable pub consume : ℕ → ℕ → Bytes → ResponseFilter → ResponseFilter
consume now prune_at id f =
    let recent = insert id now f.recent_used in
    if ltb max_recent_used_ids (length recent) && leb 256 (suc f.prune_counter)
    then record f {
      pending = delete id f.pending;
      recent_used = prune_recent_used prune_at recent;
      prune_counter = 0;
    }
    else record f {
      pending = delete id f.pending;
      recent_used = recent;
      prune_counter = suc f.prune_counter;
    }

-- if hasError && hasResult { delete(resp, "result") }.
unfoldable pub drop_result : Fields → Fields
drop_result resp =
    if is_some (get_field (codes "error") resp) && is_some (get_field (codes "result") resp)
    then delete_field (codes "result") resp
    else resp

-- Apply for a response with an ID: `none` is the nil map, a response that is dropped.
unfoldable pub apply_id :
    ℕ → ℕ → Value → Fields → ResponseFilter → ResponseFilter × Option (Fields × Bool)
apply_id now prune_at id resp f = elim (as_string id) [
  | none ↦ (f, none)
  | some proxy_id ↦
      if is_some (lookup proxy_id f.recent_used)
      then (f, none)
      else elim (lookup proxy_id f.pending) [
        | none ↦ (f, none)
        | some entry ↦ (
          consume now prune_at proxy_id f,
          some (deliver f entry (is_some (get_field (codes "error") resp)) resp),
        )
      ]
]

-- `now` and `prune_at` are the two readings of the clock.
unfoldable pub apply : ℕ → ℕ → Fields → ResponseFilter → ResponseFilter × Option (Fields × Bool)
unfolding apply_id drop_result
apply now prune_at resp f = elim (get_field (codes "id") resp) [
  | none ↦
      if is_some (get_field (codes "result") resp)
      then (f, none)
      else if is_some (get_field (codes "error") resp)
      then (f, none)
      else (f, some (resp, false))
  | some id ↦ apply_id now prune_at id (drop_result resp) f
]

unfoldable pub clear_pending : ResponseFilter → ResponseFilter
clear_pending f = record f { pending = []; recent_used = [] }

unfoldable pub pending_count : ResponseFilter → ℕ
pending_count f = length f.pending

unfoldable pub recent_used_count : ResponseFilter → ℕ
recent_used_count f = length f.recent_used
