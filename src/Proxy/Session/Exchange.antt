-- ===== src/Proxy/Session/Exchange.antt =====
-- A denied request, and a request with its response (proxy/proxy.go).
use mcptrust.Base.{
  ℕ, ◌≡◌, refl, ◌∙◌, ap, subst, Bool, true, false, Option, none, some, List, [], ◌∷◌, ◌++◌, Bytes,
  bytes_eq_refl, codes, lookup, lookup-insert, Result, ok,
}
use mcptrust.Json.{Value, str, int, obj, negsuc, end, field, Fields, get_field, set_field}
use mcptrust.Proxy.Limits.{ProxyError}
use mcptrust.Proxy.Filter.{PendingEntry, ResponseFilter, Draw, register}
use mcptrust.Proxy.Filter.Register.{Registered, RegisterOutcome, register_outcome}
use mcptrust.Proxy.Filter.Answered.{apply_once}
use mcptrust.Proxy.Session.{
  Proxy, Output, to_host, to_server, log_block, Verdict, allowed, denied, deny_error, enforce,
  forward_request, forward, block, decide_request, handle_host_request, pass_response,
  handle_server_response,
}
use mcptrust.Proxy.Session.Forward.{method_field, IsPermitted, enforce-IsPermitted}

-- The error -32001 under an ID, as JSON-RPC has it.
abbrev pub denial_message : Value → Bytes → Fields
denial_message id reason = field (codes "jsonrpc") (str (codes "2.0")) (
    field (codes "id") id (
      field (codes "error")
        (obj (
          field (codes "code") (int (negsuc 32000))
            (field (codes "message") (str (codes "MCPTRUST_DENIED: " ++ reason)) end)))
        end))

-- What a denied request leads to: a log entry, and the error -32001 under the host's own ID if
-- the request has one. The server gets nothing, and the proxy stays as it was.
abbrev pub denial : Proxy → Bytes → Option Value → Bytes → Bytes → Proxy × List Output
denial p method none reason identifier = (p, log_block method identifier reason true ∷ [])
denial p method (some id) reason identifier =
    (p, log_block method identifier reason false ∷ to_host (denial_message id reason) ∷ [])

pass_response-some :
    (p : Proxy) (r : ResponseFilter × Option (Fields × Bool)) (out : Fields × Bool)
    → r.1 ≡ some out
    → (pass_response p r).1 ≡ to_host out.0 ∷ []
pass_response-some p (g, none) out h = cc
pass_response-some p (g, some o) out h =
    let e : o ≡ out = cc in ap (λ (t : Fields × Bool). to_host t.0 ∷ []) e

module _ (quote : Bytes → Bytes) where
  block-denial :
      (p : Proxy) (method : Bytes) (id : Option Value) (reason identifier : Bytes)
      → block quote p method id reason identifier ≡ denial p method id reason identifier
  unfolding block deny_error
  block-denial p method none reason identifier = refl
  block-denial p method (some id) reason identifier = refl

  decide_request-denial :
      (draw : ℕ → Draw) (p : Proxy) (req : Fields) (v : Verdict)
      → p.audit_only ≡ false
      → p.filter_only ≡ false
      → ¬ IsPermitted p.enforcer req
      → enforce quote p (method_field req) req ≡ v
      → (reason : Bytes) × (identifier : Bytes) × (decide_request quote draw p
            (method_field req)
            (get_field (codes "id") req)
            req
            v
          ≡ denial p (method_field req) (get_field (codes "id") req) reason identifier)
  decide_request-denial draw p req (denied reason identifier) a f n e = (
    reason,
    identifier,
    block-denial p (method_field req) (get_field (codes "id") req) reason identifier,
  )
  decide_request-denial draw p req (allowed logs) a f n e =
      absurd (n (enforce-IsPermitted quote p req logs a f e))

  -- In enforcing mode a request that the enforcer does not permit is denied: the server gets
  -- nothing, the proxy's state stays as it was, and the host gets the error -32001 under its own
  -- ID, or nothing if the request was a notification.
  pub handle_host_request-denial :
      (draw : ℕ → Draw) (p : Proxy) (req : Fields)
      → p.audit_only ≡ false
      → p.filter_only ≡ false
      → ¬ IsPermitted p.enforcer req
      → (reason : Bytes) × (identifier : Bytes) × (handle_host_request quote draw req p
          ≡ denial p (method_field req) (get_field (codes "id") req) reason identifier)
  unfolding handle_host_request
  handle_host_request-denial draw p req a f n =
      decide_request-denial draw p req (enforce quote p (method_field req) req) a f n refl

  handle_host_request-allowed :
      (draw : ℕ → Draw) (p : Proxy) (req : Fields) (logs : List Output)
      → enforce quote p (method_field req) req ≡ allowed logs
      → handle_host_request quote draw req p ≡ (
        (forward quote draw p (method_field req) (get_field (codes "id") req) req).0,
        logs ++ (forward quote draw p (method_field req) (get_field (codes "id") req) req).1,
      )
  unfolding handle_host_request
  handle_host_request-allowed draw p req logs e =
      ap
        (λ (v : Verdict).
          decide_request quote draw p (method_field req) (get_field (codes "id") req) req v)
        e

  forward-ok :
      (draw : ℕ → Draw) (p : Proxy) (method : Bytes) (req : Fields) (host_id : Value)
      (g : ResponseFilter) (id : Bytes)
      → register draw host_id method p.filter ≡ (g, ok id)
      → forward quote draw p method (some host_id) req
        ≡ (record p { filter = g }, to_server (set_field (codes "id") (str id) req) ∷ [])
  unfolding forward
  forward-ok draw p method req host_id g id r =
      ap
        (λ (t : ResponseFilter × Result ProxyError Bytes).
          forward_request quote p method host_id req t)
        r

  registered :
      (draw : ℕ → Draw) (p : Proxy) (method : Bytes) (host_id : Value) (g : ResponseFilter)
      (id : Bytes)
      → register draw host_id method p.filter ≡ (g, ok id)
      → Registered p.filter g host_id method id
  registered draw p method host_id g id r =
      subst
        (λ (t : ResponseFilter × Result ProxyError Bytes).
          RegisterOutcome p.filter host_id method t)
        r (register_outcome draw host_id method p.filter)

  -- What the proxy does with the response to a request that it registered.
  response_reaches_host :
      (p : Proxy) (g : ResponseFilter) (host_id : Value) (method id : Bytes) (resp : Fields)
      (now prune_at : ℕ)
      → Registered p.filter g host_id method id
      → get_field (codes "id") resp ≡ some (str id)
      → (out : Fields) × ((handle_server_response now prune_at resp (record p { filter = g })).1
          ≡ to_host out ∷ [])
        × (get_field (codes "id") out ≡ some host_id)
  unfolding handle_server_response
  response_reaches_host p g host_id method id resp now prune_at r q =
      let entry : PendingEntry = record { method = method; host_id = host_id } in
      let i = r.issued in
      let pending : lookup id g.pending ≡ some entry =
        rw i.state (lookup-insert id id entry p.filter.pending ∙ rw (bytes_eq_refl id) refl) in
      let unused : lookup id g.recent_used ≡ none = rw i.state i.not_used in
      let (out, passed, restored, _, _) =
        apply_once now prune_at now prune_at resp resp g id entry q q pending unused in
      (out.0, pass_response-some (record p { filter = g }) _ out passed, restored)

  -- A request that is let through goes to the server under a new ID only, and the server's
  -- response to that ID reaches the host under the ID of the host's request.
  pub exchange :
      (draw : ℕ → Draw) (p : Proxy) (req resp : Fields) (logs : List Output) (host_id : Value)
      (g : ResponseFilter) (id : Bytes) (now prune_at : ℕ)
      → enforce quote p (method_field req) req ≡ allowed logs
      → get_field (codes "id") req ≡ some host_id
      → register draw host_id (method_field req) p.filter ≡ (g, ok id)
      → get_field (codes "id") resp ≡ some (str id)
      → (handle_host_request quote draw req p
          ≡ (record p { filter = g }, logs ++ to_server (set_field (codes "id") (str id) req) ∷ []))
        × ((out : Fields) × ((handle_server_response now prune_at resp (record p { filter = g })).1
              ≡ to_host out ∷ [])
            × (get_field (codes "id") out ≡ some host_id))
  exchange draw p req resp logs host_id g id now prune_at e h r q = (
    handle_host_request-allowed draw p req logs e
        ∙ rw h (
            ap (λ (t : Proxy × List Output). (t.0, logs ++ t.1))
              (forward-ok draw p (method_field req) req host_id g id r)),
    response_reaches_host p g host_id (method_field req) id resp now prune_at
        (registered draw p (method_field req) host_id g id r) q,
  )
