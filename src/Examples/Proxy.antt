-- ===== src/Examples/Proxy.antt =====
-- proxy/filter.go and proxy/proxy.go on an enforcer that allows the tool "read" alone.
use mcptrust.Base.{
  ℕ, ◌+◌, ◌≤◌, ◌≡◌, refl, inl, Bool, true, false, none, some, List, [], ◌∷◌, ◌++◌, if◌then◌else◌,
  Bytes, bytes_eq, codes, All, length, lookup, insert, delete, is_some,
}
use mcptrust.Json.{
  Value, str, number, arr, obj, Items, nil, cons, Fields, end, field, get_field, set_field,
  string_field, object_field, array_field?, object_field?,
}
use mcptrust.Proxy.Limits.{validate_host_id, max_pending_requests, max_recent_used_ids}
use mcptrust.Proxy.Enforce.{Enforcer, allow_tool}
use mcptrust.Proxy.Filter.{
  PendingEntry, ResponseFilter, new_response_filter, consume, encode_to_string, Draw, drawn,
  register, apply, deliver, filter_result, filter_by_method, filter_tools_list, filter_list,
  prune_recent_used, keep_allowed,
}
use mcptrust.Proxy.Filter.Prune.{prune_recent_used-le}
use mcptrust.Proxy.Filter.Register.{RegisterOutcome, register_outcome}
use mcptrust.Proxy.Filter.Lists.{tools, Listed}
use mcptrust.Proxy.Filter.Answered.{apply-Listed, apply_once}
use mcptrust.Proxy.Filter.Invariant.{
  Call, registers, applies, step, run, trace, answers, issues, answers-le-issues, run-bounds,
}
use mcptrust.Proxy.Session.{
  Proxy, to_host, to_server, enforce, handle_host_request, handle_server_response,
}
use mcptrust.Proxy.Session.Forward.{IsPermitted, Forwarded}
use mcptrust.Proxy.Session.Exchange.{denial, handle_host_request-denial, exchange}
use mcptrust.Proxy.Session.Served.{Message, from_host, FromHost, serve, serve-IsPermitted}

abbrev read_only : Enforcer
read_only = record {
  allowed_tools = (codes "read", tt) ∷ [];
  allowed_prompts = [];
  allowed_template_uris = [];
  template_matchers = [];
  static_resources = [];
  allow_static_resources = false;
}

-- The random source reads the byte 165 over and over.
abbrev source : ℕ → Draw
source i = drawn (165 ∷ [])

abbrev proxy_id : Bytes
proxy_id = codes "mcp_a5"

abbrev fresh : ResponseFilter
fresh = record {
  enforcer = read_only;
  audit_only = false;
  pending = [];
  recent_used = [];
  prune_counter = 0;
}

abbrev list_entry : PendingEntry
list_entry = record { method = codes "tools/list"; host_id = number (codes "7") }

abbrev listing : ResponseFilter
listing = record fresh { pending = (proxy_id, list_entry) ∷ [] }

abbrev tool : Bytes → Value
tool name = obj (field (codes "name") (str name) end)

abbrev two_tools : Items
two_tools = cons (tool (codes "read")) (cons (tool (codes "exec")) nil)

abbrev list_response : Fields
list_response =
    field (codes "id") (str proxy_id)
      (field (codes "result") (obj (field (codes "tools") (arr two_tools) end)) end)

abbrev list_answer : Fields
list_answer = field (codes "id") (number (codes "7")) (
    field (codes "result") (obj (field (codes "tools") (arr (cons (tool (codes "read")) nil)) end))
      end)

filters_list : (apply 5 6 list_response listing).1 ≡ some (list_answer, true)
unfolding apply deliver filter_result filter_by_method filter_tools_list filter_list keep_allowed
    get_field set_field string_field array_field? object_field? lookup bytes_eq
filters_list = refl

apply-Listed_example : Listed (codes "name") read_only.allowed_tools (tool (codes "read"))
unfolding apply deliver filter_result filter_by_method filter_tools_list filter_list keep_allowed
    get_field set_field string_field array_field? object_field? lookup bytes_eq
apply-Listed_example =
    apply-Listed tools 5 6 list_response list_answer
      (field (codes "tools") (arr (cons (tool (codes "read")) nil)) end) true listing proxy_id
      list_entry (cons (tool (codes "read")) nil) (tool (codes "read")) refl tt refl refl refl refl
      refl refl refl (inl refl)

apply_once_example :
    (out : Fields × Bool) × ((apply 5 6 list_response listing).1 ≡ some out)
    × (get_field (codes "id") out.0 ≡ some (number (codes "7")))
    × (lookup proxy_id (apply 5 6 list_response listing).0.pending ≡ none)
    × (apply 7 8 list_response (apply 5 6 list_response listing).0
        ≡ ((apply 5 6 list_response listing).0, none))
unfolding get_field lookup bytes_eq
apply_once_example =
    apply_once 5 6 7 8 list_response list_response listing proxy_id list_entry refl refl refl refl

register_outcome_example :
    RegisterOutcome fresh
      (number (codes "7"))
      (codes "tools/list")
      (register source (number (codes "7")) (codes "tools/list") fresh)
register_outcome_example = register_outcome source (number (codes "7")) (codes "tools/list") fresh

-- A request, its answer, and the answer once more.
abbrev history : List Call
history =
    registers source (number (codes "7")) (codes "tools/list")
    ∷ applies 5 6 list_response
    ∷ applies 7 8 list_response
    ∷ []

counts : answers proxy_id (trace (new_response_filter read_only false) history) ≡ 1
unfolding trace step new_response_filter register validate_host_id encode_to_string apply deliver
    consume filter_result filter_by_method filter_tools_list filter_list keep_allowed get_field
    set_field string_field array_field? object_field? lookup insert delete bytes_eq
counts = refl

answers-le-issues_example :
    answers proxy_id (trace (new_response_filter read_only false) history)
      + (if is_some (lookup proxy_id (run (new_response_filter read_only false) history).pending)
          then 1
          else 0)
    ≤ issues proxy_id (trace (new_response_filter read_only false) history)
answers-le-issues_example = answers-le-issues proxy_id read_only false history

run-bounds_example :
    (length (run (new_response_filter read_only false) history).pending ≤ max_pending_requests)
    × (length (run (new_response_filter read_only false) history).recent_used
        ≤ max_recent_used_ids + 255)
    × ((k : Bytes)
        → is_some (lookup k (run (new_response_filter read_only false) history).pending) ≡ true
        → lookup k (run (new_response_filter read_only false) history).recent_used ≡ none)
run-bounds_example = run-bounds read_only false history

prune_recent_used-le_example :
    length (prune_recent_used 9 ((proxy_id, 5) ∷ [])) ≤ max_recent_used_ids
prune_recent_used-le_example = prune_recent_used-le 9 ((proxy_id, 5) ∷ []) (refl, tt)

abbrev proxy : Proxy
proxy = record { enforcer = read_only; audit_only = false; filter_only = false; filter = fresh }

abbrev call : Bytes → Fields
call name = field (codes "id") (number (codes "8")) (
    field (codes "method") (str (codes "tools/call"))
      (field (codes "params") (obj (field (codes "name") (str name) end)) end))

-- The %q of a plain name.
abbrev quoted : Bytes → Bytes
quoted s = codes "\"" ++ s ++ codes "\""

exec_not-IsPermitted : ¬ IsPermitted read_only (call (codes "exec"))
unfolding allow_tool lookup bytes_eq string_field object_field get_field
exec_not-IsPermitted h = cc (h.tool refl)

handle_host_request-denial_example :
    (reason : Bytes) × (identifier : Bytes) × (handle_host_request quoted source
        (call (codes "exec"))
        proxy
      ≡ denial proxy (codes "tools/call") (some (number (codes "8"))) reason identifier)
unfolding string_field get_field bytes_eq
handle_host_request-denial_example =
    handle_host_request-denial quoted source proxy (call (codes "exec")) refl refl
      exec_not-IsPermitted

abbrev two_calls : List Message
two_calls = from_host source (call (codes "read")) ∷ from_host source (call (codes "exec")) ∷ []

serve-IsPermitted_example :
    All
      (Forwarded (λ m. IsPermitted read_only m × FromHost two_calls m))
      (serve quoted proxy two_calls)
serve-IsPermitted_example = serve-IsPermitted quoted proxy two_calls refl refl

abbrev called : ResponseFilter
called = record fresh {
  pending = (proxy_id, record { method = codes "tools/call"; host_id = number (codes "8") }) ∷ [];
}

exchange_example :
    (handle_host_request quoted source (call (codes "read")) proxy ≡ (
      record proxy { filter = called },
      [] ++ to_server (set_field (codes "id") (str proxy_id) (call (codes "read"))) ∷ [],
    ))
    × ((out : Fields) × ((handle_server_response 5 6 list_response
            (record proxy { filter = called })).1
          ≡ to_host out ∷ [])
        × (get_field (codes "id") out ≡ some (number (codes "8"))))
unfolding enforce register validate_host_id encode_to_string allow_tool string_field object_field
    get_field lookup insert bytes_eq
exchange_example =
    exchange quoted source proxy (call (codes "read")) list_response [] (number (codes "8")) called
      proxy_id 5 6 refl refl refl refl
