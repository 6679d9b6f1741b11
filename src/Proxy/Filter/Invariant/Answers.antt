-- ===== src/Proxy/Filter/Invariant/Answers.antt =====
-- How often an ID is answered, over any history of calls of the ResponseFilter (proxy/filter.go).
use mcptrust.Base.{
  ℕ, ◌+◌, ◌≤◌, ◌≡◌, refl, inl, inr, Bool, Option, none, some, List, [], ◌∷◌, arith, if◌then◌else◌,
  Bytes, bytes_eq, bytes_eq_iff, codes, lookup, lookup-insert, lookup-delete, is_some, Result, ok,
  err,
}
use mcptrust.Json.{Value, str, Fields, get_field}
use mcptrust.Proxy.Limits.{ProxyError}
use mcptrust.Proxy.Enforce.{Enforcer}
use mcptrust.Proxy.Filter.{ResponseFilter, new_response_filter, register, apply, clear_pending}
use mcptrust.Proxy.Filter.Register.{RegisterOutcome, register_outcome}
use mcptrust.Proxy.Filter.Apply.{ApplyOutcome, apply_outcome}
use mcptrust.Proxy.Filter.Invariant.Keeps.{
  Call, registers, applies, clears, step, run, consume-pending,
}

-- What a call shows: an ID given to a request, the ID of a response let through, or neither.
pub data Event : Type 0 where
  issued answered : Bytes → Event
  quiet : Event

abbrev pub issue_event : Result ProxyError Bytes → Event
issue_event (ok id) = issued id
issue_event (err e) = quiet

abbrev pub answer_event : Option Value → Option (Fields × Bool) → Event
answer_event (some (str id)) (some r) = answered id
answer_event _ _ = quiet

unfoldable pub event : ResponseFilter → Call → Event
event f (registers draw host_id method) = issue_event (register draw host_id method f).1
event f (applies now prune_at resp) =
    answer_event (get_field (codes "id") resp) (apply now prune_at resp f).1
event f clears = quiet

unfoldable pub trace : ResponseFilter → List Call → List Event
unfolding event
trace f [] = []
trace f (c ∷ cs) = event f c ∷ trace (step f c) cs

abbrev pub issues_one : Bytes → Event → ℕ
issues_one k (issued id) = if bytes_eq id k then 1 else 0
issues_one k (answered id) = 0
issues_one k quiet = 0

abbrev pub answers_one : Bytes → Event → ℕ
answers_one k (issued id) = 0
answers_one k (answered id) = if bytes_eq id k then 1 else 0
answers_one k quiet = 0

-- How often the ID `k` is issued, and answered, in the events.
abbrev pub issues : Bytes → List Event → ℕ
issues k [] = 0
issues k (e ∷ es) = issues_one k e + issues k es

abbrev pub answers : Bytes → List Event → ℕ
answers k [] = 0
answers k (e ∷ es) = answers_one k e + answers k es

abbrev open_requests : Bytes → ResponseFilter → ℕ
open_requests k f = if is_some (lookup k f.pending) then 1 else 0

-- The balance of one call.
abbrev Balanced : Bytes → ResponseFilter → ResponseFilter → Event → Type 0
Balanced k f g e = answers_one k e + open_requests k g ≤ issues_one k e + open_requests k f

register-Balanced :
    (k : Bytes) (f : ResponseFilter) (host_id : Value) (method : Bytes)
    (r : ResponseFilter × Result ProxyError Bytes)
    → RegisterOutcome f host_id method r
    → Balanced k f r.0 (issue_event r.1)
register-Balanced k f host_id method (g, err e) o = rw o (omega arith)
register-Balanced k f host_id method (g, ok id) o =
    let i = o.issued in
    rw i.state (
      ground (
        arith,
        lookup-insert id k (record { method = method; host_id = host_id }) f.pending,
        bytes_eq_iff id k,
        i.not_pending,
      ))

no_answer : (v : Option Value) → answer_event v none ≡ quiet
no_answer none = refl
no_answer (some (str s)) = refl
no_answer (some _) = refl

apply-Balanced :
    (k : Bytes) (now prune_at : ℕ) (f : ResponseFilter) (resp : Fields)
    (r : ResponseFilter × Option (Fields × Bool))
    → ApplyOutcome now prune_at f resp r
    → Balanced k f r.0 (answer_event (get_field (codes "id") resp) r.1)
apply-Balanced k now prune_at f resp (g, none) o =
    rw (no_answer (get_field (codes "id") resp), o) (omega arith)
apply-Balanced k now prune_at f resp (g, some (out, modified)) (inl u) =
    rw (u.no_id, u.same_state) (omega arith)
apply-Balanced k now prune_at f resp (g, some (out, modified)) (inr p) =
    rw (p.id_field, p.state)
      (ground (
        arith,
        consume-pending now prune_at p.id f,
        lookup-delete p.id k f.pending,
        bytes_eq_iff p.id k,
        p.was_pending,
      ))

step-Balanced : (k : Bytes) (f : ResponseFilter) (c : Call) → Balanced k f (step f c) (event f c)
unfolding step event
step-Balanced k f (registers draw host_id method) =
    register-Balanced k f host_id method _ (register_outcome draw host_id method f)
step-Balanced k f (applies now prune_at resp) =
    apply-Balanced k now prune_at f resp _ (apply_outcome now prune_at resp f)
step-Balanced k f clears = unfold clear_pending lookup in omega arith

run-Balanced :
    (k : Bytes) (f : ResponseFilter) (cs : List Call)
    → answers k (trace f cs) + open_requests k (run f cs)
      ≤ issues k (trace f cs) + open_requests k f
unfolding trace run
run-Balanced k f [] = omega arith
run-Balanced k f (c ∷ cs) = omega (arith, step-Balanced k f c, run-Balanced k (step f c) cs)

new_has_no_request :
    (k : Bytes) (e : Enforcer) (audit_only : Bool)
    → open_requests k (new_response_filter e audit_only) ≡ 0
unfolding new_response_filter lookup
new_has_no_request k e audit_only = refl

-- After any calls in any order, an ID has been answered at most as often as it was issued, and
-- less often while it is pending: no response is let through twice, and none that was not asked
-- for.
pub answers-le-issues :
    (k : Bytes) (e : Enforcer) (audit_only : Bool) (cs : List Call)
    → answers k (trace (new_response_filter e audit_only) cs)
        + (if is_some (lookup k (run (new_response_filter e audit_only) cs).pending) then 1 else 0)
      ≤ issues k (trace (new_response_filter e audit_only) cs)
answers-le-issues k e audit_only cs =
    omega (
      arith,
      run-Balanced k (new_response_filter e audit_only) cs,
      new_has_no_request k e audit_only,
    )
