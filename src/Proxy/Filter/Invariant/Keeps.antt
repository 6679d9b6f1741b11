-- ===== src/Proxy/Filter/Invariant/Keeps.antt =====
-- The invariant of the ResponseFilter (proxy/filter.go), kept by every call.
use mcptrust.Base.{
  ℕ, ◌+◌, ◌≤◌, ◌<◌, ◌≡◌, refl, ◌⊎◌, inl, inr, ◌∙◌, Bool, true, false, Option, none, some, List, [],
  ◌∷◌, arith, length, is_empty, Bytes, bytes_eq, bytes_eq_iff, codes, has_prefix, lookup, insert,
  delete, lookup-insert, lookup-delete, length-insert-le, length-delete-le, is_some, Result, ok,
  err,
}
use mcptrust.Json.{Value, Fields}
use mcptrust.Proxy.Limits.{ProxyError, max_pending_requests, max_recent_used_ids}
use mcptrust.Proxy.Enforce.{Enforcer}
use mcptrust.Proxy.Filter.{
  PendingEntry, ResponseFilter, new_response_filter, Draw, consume, register, apply, clear_pending,
}
use mcptrust.Proxy.Filter.Prune.{
  NonemptyKeys, insert-NonemptyKeys, prune_recent_used-le, prune_recent_used-NonemptyKeys,
  prune_recent_used-absent,
}
use mcptrust.Proxy.Filter.Register.{Registered, RegisterOutcome, register_outcome}
use mcptrust.Proxy.Filter.Apply.{ApplyOutcome, apply_outcome}

pub record Inv (f : ResponseFilter) : Type 0 where
  -- An ID is not both pending and used.
  pub disjoint : (k : Bytes) → is_some (lookup k f.pending) ≡ true → lookup k f.recent_used ≡ none
  pub filled : (k : Bytes) → is_some (lookup k f.pending) ≡ true → is_empty k ≡ false
  pub pending_bound : length f.pending ≤ max_pending_requests
  pub keys : NonemptyKeys f.recent_used
  -- The used IDs pass their limit only while the counter runs up to the next pruning.
  pub used_bound :
      (length f.recent_used ≤ max_recent_used_ids)
      ⊎ ((f.prune_counter < 256) × (length f.recent_used ≤ max_recent_used_ids + f.prune_counter))

-- A call of one of the filter's methods.
pub data Call : Type 0 where
  registers : (ℕ → Draw) → Value → Bytes → Call
  applies : ℕ → ℕ → Fields → Call
  clears : Call

unfoldable pub step : ResponseFilter → Call → ResponseFilter
step f (registers draw host_id method) = (register draw host_id method f).0
step f (applies now prune_at resp) = (apply now prune_at resp f).0
step f clears = clear_pending f

unfoldable pub run : ResponseFilter → List Call → ResponseFilter
run f [] = f
run f (c ∷ cs) = run (step f c) cs

prefixed_filled : (id : Bytes) → has_prefix id (codes "mcp_") ≡ true → is_empty id ≡ false
unfolding has_prefix
prefixed_filled [] h = cc
prefixed_filled (c ∷ id) h = refl

Registered-Inv :
    {f g : ResponseFilter} {host_id : Value} {method id : Bytes}
    → Registered f g host_id method id
    → Inv f
    → Inv g
Registered-Inv {f} {g} {host_id} {method} {id} r v =
    let entry : PendingEntry = record { method = method; host_id = host_id } in
    let i = r.issued in
    rw i.state (record {
      disjoint = λ k h.
          ground (
            arith,
            lookup-insert id k entry f.pending,
            bytes_eq_iff id k,
            v.disjoint k,
            i.not_used,
          );
      filled = λ k h. ground (
        arith,
        lookup-insert id k entry f.pending,
        bytes_eq_iff id k,
        v.filled k,
        prefixed_filled id i.prefixed,
      );
      pending_bound = omega (arith, r.room, length-insert-le id entry f.pending);
      keys = v.keys;
      used_bound = v.used_bound;
    })

pub consume-pending :
    (now prune_at : ℕ) (id : Bytes) (f : ResponseFilter)
    → (consume now prune_at id f).pending ≡ delete id f.pending
unfolding consume
consume-pending now prune_at id f = ground arith

consume-absent :
    (now prune_at : ℕ) (id k : Bytes) (f : ResponseFilter)
    → bytes_eq id k ≡ false
    → lookup k f.recent_used ≡ none
    → lookup k (consume now prune_at id f).recent_used ≡ none
unfolding consume
consume-absent now prune_at id k f n h =
    let still : lookup k (insert id now f.recent_used) ≡ none =
      lookup-insert id k now f.recent_used ∙ rw n h in
    ground (arith, prune_recent_used-absent prune_at k (insert id now f.recent_used) still)

consume-keys :
    (now prune_at : ℕ) (id : Bytes) (f : ResponseFilter)
    → is_empty id ≡ false
    → NonemptyKeys f.recent_used
    → NonemptyKeys (consume now prune_at id f).recent_used
unfolding consume
consume-keys now prune_at id f e h =
    let k = insert-NonemptyKeys id now f.recent_used e h in
    ground (arith, prune_recent_used-NonemptyKeys prune_at (insert id now f.recent_used) k)

abbrev UsedBound : ResponseFilter → Type 0
UsedBound f =
    (length f.recent_used ≤ max_recent_used_ids)
    ⊎ ((f.prune_counter < 256) × (length f.recent_used ≤ max_recent_used_ids + f.prune_counter))

consume-UsedBound :
    (now prune_at : ℕ) (id : Bytes) (f : ResponseFilter)
    → is_empty id ≡ false
    → NonemptyKeys f.recent_used
    → UsedBound f
    → UsedBound (consume now prune_at id f)
unfolding consume
consume-UsedBound now prune_at id f e h b =
    let k = insert-NonemptyKeys id now f.recent_used e h in
    ground (
      arith,
      prune_recent_used-le prune_at (insert id now f.recent_used) k,
      length-insert-le id now f.recent_used,
    )

consume-Inv :
    (now prune_at : ℕ) (id : Bytes) (f : ResponseFilter) (entry : PendingEntry)
    → lookup id f.pending ≡ some entry
    → Inv f
    → Inv (consume now prune_at id f)
consume-Inv now prune_at id f entry h v =
    let e : is_empty id ≡ false = v.filled id (rw h refl) in
    let p = consume-pending now prune_at id f in
    record {
      disjoint = λ k q.
          let n : bytes_eq id k ≡ false = ground (arith, p, lookup-delete id k f.pending) in
          consume-absent now prune_at id k f n
            (v.disjoint k (ground (arith, p, lookup-delete id k f.pending)));
      filled = λ k q. v.filled k (ground (arith, p, lookup-delete id k f.pending));
      pending_bound = rw p (omega (arith, length-delete-le id f.pending, v.pending_bound));
      keys = consume-keys now prune_at id f e v.keys;
      used_bound = consume-UsedBound now prune_at id f e v.keys v.used_bound;
    }

Registered_or_same :
    (f : ResponseFilter) (host_id : Value) (method : Bytes)
    (r : ResponseFilter × Result ProxyError Bytes)
    → RegisterOutcome f host_id method r
    → Inv f
    → Inv r.0
Registered_or_same f host_id method (g, ok id) o v = Registered-Inv o v
Registered_or_same f host_id method (g, err e) o v = rw o v

Applied_or_same :
    (now prune_at : ℕ) (f : ResponseFilter) (resp : Fields)
    (r : ResponseFilter × Option (Fields × Bool))
    → ApplyOutcome now prune_at f resp r
    → Inv f
    → Inv r.0
Applied_or_same now prune_at f resp (g, none) o v = rw o v
Applied_or_same now prune_at f resp (g, some (out, modified)) (inl u) v = rw u.same_state v
Applied_or_same now prune_at f resp (g, some (out, modified)) (inr p) v =
    rw p.state (consume-Inv now prune_at p.id f p.entry p.was_pending v)

clear_pending-Inv : (f : ResponseFilter) → Inv (clear_pending f)
unfolding clear_pending lookup
clear_pending-Inv f = record {
  disjoint = λ k h. refl;
  filled = λ k h. cc;
  pending_bound = omega arith;
  keys = tt;
  used_bound = inl (omega arith);
}

-- Every call of the filter, failing or not, keeps the invariant.
pub step-Inv : (f : ResponseFilter) (c : Call) → Inv f → Inv (step f c)
unfolding step
step-Inv f (registers draw host_id method) v =
    Registered_or_same f host_id method _ (register_outcome draw host_id method f) v
step-Inv f (applies now prune_at resp) v =
    Applied_or_same now prune_at f resp _ (apply_outcome now prune_at resp f) v
step-Inv f clears v = clear_pending-Inv f

pub run-Inv : (f : ResponseFilter) (cs : List Call) → Inv f → Inv (run f cs)
unfolding run
run-Inv f [] v = v
run-Inv f (c ∷ cs) v = run-Inv (step f c) cs (step-Inv f c v)

pub new_response_filter-Inv :
    (e : Enforcer) (audit_only : Bool) → Inv (new_response_filter e audit_only)
unfolding new_response_filter lookup
new_response_filter-Inv e audit_only = record {
  disjoint = λ k h. refl;
  filled = λ k h. cc;
  pending_bound = omega arith;
  keys = tt;
  used_bound = inl (omega arith);
}

-- After any calls in any order at most MaxPendingRequests requests are pending, at most
-- MaxRecentUsedIDs + 255 used IDs are remembered, and no ID is both pending and used.
pub run-bounds :
    (e : Enforcer) (audit_only : Bool) (cs : List Call)
    → (length (run (new_response_filter e audit_only) cs).pending ≤ max_pending_requests)
      × (length (run (new_response_filter e audit_only) cs).recent_used ≤ max_recent_used_ids + 255)
      × ((k : Bytes)
          → is_some (lookup k (run (new_response_filter e audit_only) cs).pending) ≡ true
          → lookup k (run (new_response_filter e audit_only) cs).recent_used ≡ none)
run-bounds e audit_only cs =
    let v = run-Inv (new_response_filter e audit_only) cs (new_response_filter-Inv e audit_only) in
    (v.pending_bound, ground (arith, v.used_bound), v.disjoint)
