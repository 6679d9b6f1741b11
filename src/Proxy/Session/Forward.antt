-- ===== src/Proxy/Session/Forward.antt =====
-- What the proxy forwards to the server (proxy/proxy.go).
use mcptrust.Base.{
  ℕ, ◌≡◌, refl, sym, ◌⊎◌, inl, inr, ◌∙◌, true, false, Option, none, some, List, [], ◌∷◌, arith,
  Bytes, bytes_eq, codes, All, All-append, Result, ok, err,
}
use mcptrust.Json.{
  Value, str, Fields, get_field, set_field, get_field-set_field, string_field, object_field,
}
use mcptrust.Proxy.Limits.{ProxyError, pending_map_full}
use mcptrust.Proxy.Enforce.{Enforcer, allow_tool, allow_prompt, allow_resource_uri}
use mcptrust.Proxy.Filter.{ResponseFilter, Draw, register}
use mcptrust.Proxy.Filter.Register.{IsDrawn, DrawnOutcome, register-DrawnOutcome}
use mcptrust.Proxy.Session.{
  Proxy, Output, to_host, to_server, log_block, log_audit, Verdict, allowed, denied, enforce,
  forward_request, forward, block, decide_request, handle_host_request,
}

abbrev pub method_field : Fields → Bytes
method_field m = string_field (codes "method") m

abbrev pub param : Bytes → Fields → Bytes
param k m = string_field k (object_field (codes "params") m)

-- The enforcer permits the call that the message makes.
pub record IsPermitted (e : Enforcer) (m : Fields) : Type 0 where
  pub tool : method_field m ≡ codes "tools/call" → allow_tool e (param (codes "name") m) ≡ true
  pub prompt : method_field m ≡ codes "prompts/get" → allow_prompt e (param (codes "name") m) ≡ true
  pub resource :
      method_field m ≡ codes "resources/read" → allow_resource_uri e (param (codes "uri") m) ≡ true

-- What the server may get of a message of the host: a notification as it is, and a request with an ID
-- in place of its own that the proxy made of its draws.
abbrev pub Sent : (ℕ → Draw) → Fields → Fields → Type 0
Sent draw req m =
    ((get_field (codes "id") req ≡ none) × (m ≡ req))
    ⊎ ((id : Bytes) × (host_id : Value) × (get_field (codes "id") req ≡ some host_id)
        × (m ≡ set_field (codes "id") (str id) req)
        × IsDrawn draw id)

abbrev pub Forwarded : (Fields → Type 0) → Output → Type 0
Forwarded P (to_server m) = P m
Forwarded P _ = Unit

get_field-id :
    (k : Bytes) (v : Value) (m : Fields)
    → bytes_eq (codes "id") k ≡ false
    → get_field k (set_field (codes "id") v m) ≡ get_field k m
get_field-id k v m n = get_field-set_field (codes "id") k v m ∙ rw n refl

string_field-id :
    (k : Bytes) (v : Value) (m : Fields)
    → bytes_eq (codes "id") k ≡ false
    → string_field k (set_field (codes "id") v m) ≡ string_field k m
unfolding string_field
string_field-id k v m n = rw (get_field-id k v m n, string_field)

object_field-id :
    (k : Bytes) (v : Value) (m : Fields)
    → bytes_eq (codes "id") k ≡ false
    → object_field k (set_field (codes "id") v m) ≡ object_field k m
unfolding object_field
object_field-id k v m n = rw (get_field-id k v m n, object_field)

id_method : bytes_eq (codes "id") (codes "method") ≡ false
unfolding bytes_eq
id_method = refl

id_params : bytes_eq (codes "id") (codes "params") ≡ false
unfolding bytes_eq
id_params = refl

-- The ID of a message has no part in what is permitted.
IsPermitted-id :
    (e : Enforcer) (v : Value) (m : Fields)
    → IsPermitted e m
    → IsPermitted e (set_field (codes "id") v m)
IsPermitted-id e v m h =
    let same_method = string_field-id (codes "method") v m id_method in
    let same_params = object_field-id (codes "params") v m id_params in
    record {
      tool = λ q. rw same_params (h.tool (sym same_method ∙ q));
      prompt = λ q. rw same_params (h.prompt (sym same_method ∙ q));
      resource = λ q. rw same_params (h.resource (sym same_method ∙ q));
    }

module _ (quote : Bytes → Bytes) where
  enforce-tool :
      (p : Proxy) (req : Fields) (logs : List Output)
      → p.audit_only ≡ false
      → p.filter_only ≡ false
      → enforce quote p (codes "tools/call") req ≡ allowed logs
      → allow_tool p.enforcer (param (codes "name") req) ≡ true
  unfolding enforce bytes_eq
  enforce-tool p req logs a f h = ground arith

  enforce-prompt :
      (p : Proxy) (req : Fields) (logs : List Output)
      → p.audit_only ≡ false
      → p.filter_only ≡ false
      → enforce quote p (codes "prompts/get") req ≡ allowed logs
      → allow_prompt p.enforcer (param (codes "name") req) ≡ true
  unfolding enforce bytes_eq
  enforce-prompt p req logs a f h = ground arith

  enforce-resource :
      (p : Proxy) (req : Fields) (logs : List Output)
      → p.audit_only ≡ false
      → p.filter_only ≡ false
      → enforce quote p (codes "resources/read") req ≡ allowed logs
      → allow_resource_uri p.enforcer (param (codes "uri") req) ≡ true
  unfolding enforce bytes_eq
  enforce-resource p req logs a f h = ground arith

  pub enforce-IsPermitted :
      (p : Proxy) (req : Fields) (logs : List Output)
      → p.audit_only ≡ false
      → p.filter_only ≡ false
      → enforce quote p (method_field req) req ≡ allowed logs
      → IsPermitted p.enforcer req
  enforce-IsPermitted p req logs a f h = record {
    tool = λ e. enforce-tool p req logs a f (rw e at h);
    prompt = λ e. enforce-prompt p req logs a f (rw e at h);
    resource = λ e. enforce-resource p req logs a f (rw e at h);
  }

  -- What is safe to forward for a proxy `p` that has read `req`.
  abbrev IsSafe : Proxy → (ℕ → Draw) → Fields → Fields → Type 0
  IsSafe p draw req m = IsPermitted p.enforcer m × Sent draw req m

  forward_request-IsSafe :
      (draw : ℕ → Draw) (p : Proxy) (method : Bytes) (id : Value) (req : Fields)
      (r : ResponseFilter × Result ProxyError Bytes)
      → get_field (codes "id") req ≡ some id
      → IsPermitted p.enforcer req
      → DrawnOutcome draw r
      → All (Forwarded (IsSafe p draw req)) (forward_request quote p method id req r).1
  unfolding forward_request
  forward_request-IsSafe draw p method id req (g, err pending_map_full) e h o = (tt, (tt, tt))
  forward_request-IsSafe draw p method id req (g, err _) e h o = (tt, (tt, tt))
  forward_request-IsSafe draw p method id req (g, ok proxy_id) e h o =
      ((IsPermitted-id p.enforcer (str proxy_id) req h, inr (proxy_id, id, e, refl, o)), tt)

  forward-IsSafe :
      (draw : ℕ → Draw) (p : Proxy) (method : Bytes) (id : Option Value) (req : Fields)
      → get_field (codes "id") req ≡ id
      → IsPermitted p.enforcer req
      → All (Forwarded (IsSafe p draw req)) (forward quote draw p method id req).1
  unfolding forward
  forward-IsSafe draw p method none req e h = ((h, inl (e, refl)), tt)
  forward-IsSafe draw p method (some id) req e h =
      forward_request-IsSafe draw p method id req (register draw id method p.filter) e h
        (register-DrawnOutcome draw id method p.filter)

  -- What an enforcement logs goes to no one.
  abbrev IsLog : Output → Type 0
  IsLog (to_host m) = ⊥
  IsLog (to_server m) = ⊥
  IsLog _ = Unit

  abbrev OnlyLogs : Verdict → Type 0
  OnlyLogs (allowed logs) = All IsLog logs
  OnlyLogs (denied reason identifier) = Unit

  enforce-OnlyLogs :
      (p : Proxy) (method : Bytes) (req : Fields) → OnlyLogs (enforce quote p method req)
  unfolding enforce
  enforce-OnlyLogs p method req = ground arith

  logs-safe : (P : Fields → Type 0) (logs : List Output) → All IsLog logs → All (Forwarded P) logs
  logs-safe P [] h = tt
  logs-safe P (to_host m ∷ os) h = absurd h.0
  logs-safe P (to_server m ∷ os) h = absurd h.0
  logs-safe P (log_block a b c d ∷ os) h = (tt, logs-safe P os h.1)
  logs-safe P (log_audit a b ∷ os) h = (tt, logs-safe P os h.1)

  block-safe :
      (P : Fields → Type 0) (p : Proxy) (method : Bytes) (id : Option Value)
      (reason identifier : Bytes)
      → All (Forwarded P) (block quote p method id reason identifier).1
  unfolding block
  block-safe P p method none reason identifier = (tt, tt)
  block-safe P p method (some id) reason identifier = (tt, (tt, tt))

  decide_request-IsSafe :
      (draw : ℕ → Draw) (p : Proxy) (req : Fields) (v : Verdict)
      → p.audit_only ≡ false
      → p.filter_only ≡ false
      → enforce quote p (method_field req) req ≡ v
      → OnlyLogs v
      → All
          (Forwarded (IsSafe p draw req))
          (decide_request quote draw p (method_field req) (get_field (codes "id") req) req v).1
  decide_request-IsSafe draw p req (denied reason identifier) a f e l =
      block-safe (IsSafe p draw req) p (method_field req) (get_field (codes "id") req) reason
        identifier
  decide_request-IsSafe draw p req (allowed logs) a f e l =
      All-append _ logs _ (logs-safe (IsSafe p draw req) logs l) (
        forward-IsSafe draw p (method_field req) (get_field (codes "id") req) req refl
          (enforce-IsPermitted p req logs a f e))

  -- In enforcing mode every message that a host request makes the proxy send to the server is
  -- permitted by the enforcer, and is the notification itself or the request under an ID that the
  -- proxy made.
  pub handle_host_request-safe :
      (draw : ℕ → Draw) (p : Proxy) (req : Fields)
      → p.audit_only ≡ false
      → p.filter_only ≡ false
      → All
          (Forwarded (λ m. IsPermitted p.enforcer m × Sent draw req m))
          (handle_host_request quote draw req p).1
  unfolding handle_host_request
  handle_host_request-safe draw p req a f =
      decide_request-IsSafe draw p req (enforce quote p (method_field req) req) a f refl
        (enforce-OnlyLogs p (method_field req) req)
