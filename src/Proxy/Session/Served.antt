-- ===== src/Proxy/Session/Served.antt =====
-- Any interleaving of the rounds of handleHostRequests and handleServerResponses (proxy/proxy.go).
use mcptrust.Base.{
  ℕ, ◌≡◌, refl, ◌⊎◌, inl, inr, ◌∙◌, subst, Bool, false, Option, none, some, List, [], ◌∷◌, ◌++◌,
  Bytes, codes, All, All-append, Result, ok, err,
}
use mcptrust.Json.{Value, Fields, get_field}
use mcptrust.Proxy.Limits.{ProxyError, pending_map_full}
use mcptrust.Proxy.Enforce.{Enforcer}
use mcptrust.Proxy.Filter.{ResponseFilter, Draw, register, apply}
use mcptrust.Proxy.Session.{
  Proxy, Output, to_host, to_server, log_block, log_audit, Verdict, allowed, denied, enforce,
  forward_request, forward, block, decide_request, handle_host_request, pass_response,
  handle_server_response,
}
use mcptrust.Proxy.Session.Forward.{
  method_field, IsPermitted, Sent, Forwarded, handle_host_request-safe,
}

-- A message that one of the two goroutines has read, with what it draws or reads from the clock.
pub data Message : Type 0 where
  from_host : (ℕ → Draw) → Fields → Message
  from_server : ℕ → ℕ → Fields → Message

-- A message for the server comes from one of the messages of the host.
abbrev pub FromHost : List Message → Fields → Type 0
FromHost [] m = ⊥
FromHost (from_host draw req ∷ ms) m = Sent draw req m ⊎ FromHost ms m
FromHost (from_server now prune_at resp ∷ ms) m = FromHost ms m

from_later :
    (first : Message) (ms : List Message) (m : Fields) → FromHost ms m → FromHost (first ∷ ms) m
from_later (from_host draw req) ms m h = inr h
from_later (from_server now prune_at resp) ms m h = h

module _ (quote : Bytes → Bytes) where
  unfoldable pub handle : Message → Proxy → Proxy × List Output
  handle (from_host draw req) p = handle_host_request quote draw req p
  handle (from_server now prune_at resp) p = handle_server_response now prune_at resp p

  -- The outputs of any interleaving of messages.
  unfoldable pub serve : Proxy → List Message → List Output
  serve p [] = []
  serve p (m ∷ ms) = (handle m p).1 ++ serve (handle m p).0 ms

  -- The settings of the proxy do not change.
  record SameSettings (p q : Proxy) : Type 0 where
    enforcer : q.enforcer ≡ p.enforcer
    audit_only : q.audit_only ≡ p.audit_only
    filter_only : q.filter_only ≡ p.filter_only

  forward_request-settings :
      (p : Proxy) (method : Bytes) (id : Value) (req : Fields)
      (r : ResponseFilter × Result ProxyError Bytes)
      → SameSettings p (forward_request quote p method id req r).0
  unfolding forward_request
  forward_request-settings p method id req (g, ok x) = record {
    enforcer = refl;
    audit_only = refl;
    filter_only = refl;
  }
  forward_request-settings p method id req (g, err pending_map_full) = record {
    enforcer = refl;
    audit_only = refl;
    filter_only = refl;
  }
  forward_request-settings p method id req (g, err _) = record {
    enforcer = refl;
    audit_only = refl;
    filter_only = refl;
  }

  decide_request-settings :
      (draw : ℕ → Draw) (p : Proxy) (method : Bytes) (id : Option Value) (req : Fields)
      (v : Verdict)
      → SameSettings p (decide_request quote draw p method id req v).0
  unfolding forward block
  decide_request-settings draw p method none req (denied reason identifier) = record {
    enforcer = refl;
    audit_only = refl;
    filter_only = refl;
  }
  decide_request-settings draw p method (some id) req (denied reason identifier) = record {
    enforcer = refl;
    audit_only = refl;
    filter_only = refl;
  }
  decide_request-settings draw p method none req (allowed logs) = record {
    enforcer = refl;
    audit_only = refl;
    filter_only = refl;
  }
  decide_request-settings draw p method (some id) req (allowed logs) =
      forward_request-settings p method id req (register draw id method p.filter)

  pass_response-settings :
      (p : Proxy) (r : ResponseFilter × Option (Fields × Bool))
      → SameSettings p (pass_response p r).0
  pass_response-settings p (g, none) = record {
    enforcer = refl;
    audit_only = refl;
    filter_only = refl;
  }
  pass_response-settings p (g, some o) = record {
    enforcer = refl;
    audit_only = refl;
    filter_only = refl;
  }

  handle-settings : (m : Message) (p : Proxy) → SameSettings p (handle m p).0
  unfolding handle handle_host_request handle_server_response
  handle-settings (from_host draw req) p =
      decide_request-settings draw p (method_field req) (get_field (codes "id") req) req
        (enforce quote p (method_field req) req)
  handle-settings (from_server now prune_at resp) p =
      pass_response-settings p (apply now prune_at resp p.filter)

  abbrev IsServed : Enforcer → List Message → Fields → Type 0
  IsServed e ms m = IsPermitted e m × FromHost ms m

  Forwarded-map :
      (P Q : Fields → Type 0)
      → ((m : Fields) → P m → Q m)
      → (os : List Output) → All (Forwarded P) os
      → All (Forwarded Q) os
  Forwarded-map P Q f [] h = tt
  Forwarded-map P Q f (to_host m ∷ os) h = (tt, Forwarded-map P Q f os h.1)
  Forwarded-map P Q f (to_server m ∷ os) h = (f m h.0, Forwarded-map P Q f os h.1)
  Forwarded-map P Q f (log_block a b c d ∷ os) h = (tt, Forwarded-map P Q f os h.1)
  Forwarded-map P Q f (log_audit a b ∷ os) h = (tt, Forwarded-map P Q f os h.1)

  pass_response-served :
      (P : Fields → Type 0) (p : Proxy) (r : ResponseFilter × Option (Fields × Bool))
      → All (Forwarded P) (pass_response p r).1
  pass_response-served P p (g, none) = (tt, tt)
  pass_response-served P p (g, some o) = (tt, tt)

  handle-IsServed :
      (m : Message) (ms : List Message) (p : Proxy)
      → p.audit_only ≡ false
      → p.filter_only ≡ false
      → All (Forwarded (IsServed p.enforcer (m ∷ ms))) (handle m p).1
  unfolding handle handle_server_response
  handle-IsServed (from_host draw req) ms p a f =
      Forwarded-map (λ m. IsPermitted p.enforcer m × Sent draw req m)
        (IsServed p.enforcer (from_host draw req ∷ ms)) (λ m h. (h.0, inl h.1))
        (handle_host_request quote draw req p).1 (handle_host_request-safe quote draw p req a f)
  handle-IsServed (from_server now prune_at resp) ms p a f =
      pass_response-served (IsServed p.enforcer (from_server now prune_at resp ∷ ms)) p
        (apply now prune_at resp p.filter)

  -- In enforcing mode, whatever the host and the server send in whatever order, every message that
  -- reaches the server is permitted by the allowlists that the proxy began with. It is a notification
  -- of the host as it was, or a request of the host that differs in the ID only, which the proxy has
  -- made of the random bytes that it drew for the request.
  pub serve-IsPermitted :
      (p : Proxy) (ms : List Message)
      → p.audit_only ≡ false
      → p.filter_only ≡ false
      → All (Forwarded (λ m. IsPermitted p.enforcer m × FromHost ms m)) (serve p ms)
  unfolding serve
  serve-IsPermitted p [] a f = tt
  serve-IsPermitted p (m ∷ ms) a f =
      let s = handle-settings m p in
      let rest = serve-IsPermitted (handle m p).0 ms (s.audit_only ∙ a) (s.filter_only ∙ f) in
      All-append _ (handle m p).1 _ (handle-IsServed m ms p a f) (
        Forwarded-map (IsServed (handle m p).0.enforcer ms) (IsServed p.enforcer (m ∷ ms))
          (λ x h. (subst (λ (e : Enforcer). IsPermitted e x) s.enforcer h.0, from_later m ms x h.1))
          (serve (handle m p).0 ms) rest)
