-- ===== src/Proxy/Session.antt =====
-- proxy/proxy.go and proxy/errors.go: what the two goroutines do with one message. A step is one
-- round of a loop; reads and writes succeed in it, and what a step writes is its list of outputs.
-- `quote` is the %q of package fmt.
use mcptrust.Base.{
  ℕ, ◌-◌, Bool, true, false, not, Option, none, some, List, [], ◌∷◌, ◌++◌, if◌then◌else◌, leb,
  length, take, Bytes, codes, bytes_eq, Result, ok, err,
}
use mcptrust.Json.{
  Value, str, int, obj, Fields, end, field, ℤ, negsuc, get_field, set_field, string_field,
  object_field,
}
use mcptrust.Proxy.Limits.{
  ProxyError, line_too_long, pending_map_full, host_id_too_large, host_id_invalid_type,
  no_unique_id, rng_failed,
}
use mcptrust.Proxy.Enforce.{Enforcer, allow_tool, allow_prompt, allow_resource_uri}
use mcptrust.Proxy.Filter.{ResponseFilter, Draw, register, apply}
pub mod Forward
pub mod Exchange
pub mod Served

-- The fields of Proxy that the loops read, with the filter that Run creates.
pub record Proxy : Type 0 where
  pub enforcer : Enforcer
  pub audit_only : Bool
  pub filter_only : Bool
  pub filter : ResponseFilter

pub data Output : Type 0 where
  to_host to_server : Fields → Output
  log_block : Bytes → Bytes → Bytes → Bool → Output
  log_audit : Bytes → Bytes → Output

error_message : Value → ℤ → Bytes → Fields
error_message id code message = field (codes "jsonrpc") (str (codes "2.0")) (
    field (codes "id") id (
      field (codes "error")
        (obj (field (codes "code") (int code) (field (codes "message") (str message) end))) end))

-- The codes are -32001, -32002 and -32600.
unfoldable pub deny_error : Value → Bytes → Fields
unfolding error_message
deny_error id reason = error_message id (negsuc 32000) (codes "MCPTRUST_DENIED: " ++ reason)

unfoldable pub overloaded_error : Value → Fields
unfolding error_message
overloaded_error id =
    error_message id (negsuc 32001)
      (codes "MCPTRUST_OVERLOADED: proxy at capacity, cannot process request safely")

unfoldable pub invalid_request_error : Value → Bytes → Fields
unfolding error_message
invalid_request_error id reason =
    error_message id (negsuc 32599) (codes "Invalid Request: " ++ reason)

-- err.Error().
unfoldable pub error_text : ProxyError → Bytes
error_text line_too_long = codes "NDJSON line exceeds maximum size"
error_text pending_map_full = codes "pending request map at capacity"
error_text host_id_too_large = codes "host ID exceeds maximum size"
error_text host_id_invalid_type =
    codes "host ID must be a JSON-RPC scalar (string, number, or null)"
error_text no_unique_id = codes "failed to generate unique proxyID after retries"
error_text (rng_failed e) = codes "crypto/rand failed: " ++ e

unfoldable pub truncate_uri : Bytes → Bytes
truncate_uri uri = if leb (length uri) 50 then uri else take 47 uri ++ codes "..."

-- The result of an enforcement: let through, with what was logged, or denied with a reason and an
-- identifier.
pub data Verdict : Type 0 where
  allowed : List Output → Verdict
  denied : Bytes → Bytes → Verdict

-- A name that is not allowed: only logged in audit-only mode.
unfoldable pub refuse : Proxy → Bytes → Bytes → Bytes → Verdict
refuse p method reason identifier =
    if p.audit_only
    then allowed (log_audit method (codes "would-block") ∷ [])
    else denied reason identifier

module _ (quote : Bytes → Bytes) where
  unfoldable pub enforce_tools_call : Proxy → Fields → Verdict
  unfolding refuse
  enforce_tools_call p req =
      let name = string_field (codes "name") (object_field (codes "params") req) in
      if allow_tool p.enforcer name
      then allowed []
      else refuse p (codes "tools/call")
          (codes "tool " ++ quote name ++ codes " not in lockfile allowlist") name

  unfoldable pub enforce_prompts_get : Proxy → Fields → Verdict
  unfolding refuse
  enforce_prompts_get p req =
      let name = string_field (codes "name") (object_field (codes "params") req) in
      if allow_prompt p.enforcer name
      then allowed []
      else refuse p (codes "prompts/get")
          (codes "prompt " ++ quote name ++ codes " not in lockfile allowlist") name

  unfoldable pub enforce_resources_read : Proxy → Fields → Verdict
  unfolding refuse truncate_uri
  enforce_resources_read p req =
      let uri = string_field (codes "uri") (object_field (codes "params") req) in
      if allow_resource_uri p.enforcer uri
      then allowed []
      else refuse p (codes "resources/read")
          (codes "resource URI does not match any locked template") (truncate_uri uri)

  -- The switch on the method: in filter-only mode no call is enforced.
  unfoldable pub enforce : Proxy → Bytes → Fields → Verdict
  unfolding enforce_tools_call enforce_prompts_get enforce_resources_read
  enforce p method req =
      if bytes_eq method (codes "tools/call")
      then (if p.filter_only then allowed [] else enforce_tools_call p req)
      else if bytes_eq method (codes "prompts/get")
      then (if p.filter_only then allowed [] else enforce_prompts_get p req)
      else if bytes_eq method (codes "resources/read")
      then (if p.filter_only then allowed [] else enforce_resources_read p req)
      else allowed []

  -- The end of the round for a request with an ID: register it and forward it under the new ID.
  unfoldable pub forward_request :
      Proxy
      → Bytes
      → Value
      → Fields
      → ResponseFilter × Result ProxyError Bytes
      → Proxy × List Output
  unfolding error_text overloaded_error invalid_request_error
  forward_request p method id req (filter, err pending_map_full) = (
    record p { filter = filter },
    log_block method (codes "pending-map-full") (codes "cannot register filter safely") false
        ∷ to_host (overloaded_error id)
        ∷ [],
  )
  forward_request p method id req (filter, err e) = (
    record p { filter = filter },
    log_block method (codes "invalid-request-id") (error_text e) false
        ∷ to_host (invalid_request_error id (error_text e))
        ∷ [],
  )
  forward_request p method id req (filter, ok proxy_id) =
      (record p { filter = filter }, to_server (set_field (codes "id") (str proxy_id) req) ∷ [])

  unfoldable pub forward : (ℕ → Draw) → Proxy → Bytes → Option Value → Fields → Proxy × List Output
  unfolding forward_request
  forward draw p method none req = (p, to_server req ∷ [])
  forward draw p method (some id) req =
      forward_request p method id req (register draw id method p.filter)

  -- The block of a denied call: an answer goes to the host unless it was a notification.
  unfoldable pub block : Proxy → Bytes → Option Value → Bytes → Bytes → Proxy × List Output
  unfolding deny_error
  block p method none reason identifier = (p, log_block method identifier reason true ∷ [])
  block p method (some id) reason identifier =
      (p, log_block method identifier reason false ∷ to_host (deny_error id reason) ∷ [])

  abbrev decide_request :
      (ℕ → Draw) → Proxy → Bytes → Option Value → Fields → Verdict → Proxy × List Output
  decide_request draw p method id req (denied reason identifier) =
      block p method id reason identifier
  decide_request draw p method id req (allowed logs) =
      let (p', outputs) = forward draw p method id req in (p', logs ++ outputs)

  -- One round of handleHostRequests.
  unfoldable pub handle_host_request : (ℕ → Draw) → Fields → Proxy → Proxy × List Output
  unfolding enforce block forward
  handle_host_request draw req p =
      decide_request draw p (string_field (codes "method") req) (get_field (codes "id") req) req
        (enforce p (string_field (codes "method") req) req)

-- One round of handleServerResponses.
abbrev pass_response : Proxy → ResponseFilter × Option (Fields × Bool) → Proxy × List Output
pass_response p (filter, none) = (
  record p { filter = filter },
  log_audit (codes "response") (codes "dropped-unknown-or-duplicate") ∷ [],
)
pass_response p (filter, some (out, modified)) = (record p { filter = filter }, to_host out ∷ [])

unfoldable pub handle_server_response : ℕ → ℕ → Fields → Proxy → Proxy × List Output
handle_server_response now prune_at resp p = pass_response p (apply now prune_at resp p.filter)
