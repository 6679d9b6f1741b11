-- ===== src/Proxy/Filter/Register.antt =====
-- Register (proxy/filter.go): the ID that it issues is fresh, and a refusal changes nothing.
use mcptrust.Base.{
  ℕ, zero, suc, ◌≤◌, ◌<◌, ◌≡◌, ◌++◌, refl, inl, inr, true, false, ◌||◌, Option, none, some, arith,
  leb, length, Bytes, codes, has_prefix, has_prefix-append, lookup, insert, is_some, Result, ok,
  err, Bool-cases, Option-cases, Result-cases, le→leb, leb→le,
}
use mcptrust.Json.{Value}
use mcptrust.Proxy.Limits.{ProxyError, pending_map_full, validate_host_id, max_pending_requests}
use mcptrust.Proxy.Filter.{
  ResponseFilter, Draw, drawn, failed, generate_proxy_id, encode_to_string, attempts, register,
}

-- What a successful registration did: the ID begins with mcp_, was neither pending nor recently
-- used, and is now pending for the host's ID and method. Nothing else has changed.
pub record Issued (f g : ResponseFilter) (host_id : Value) (method id : Bytes) : Type 0 where
  pub prefixed : has_prefix id (codes "mcp_") ≡ true
  pub not_pending : lookup id f.pending ≡ none
  pub not_used : lookup id f.recent_used ≡ none
  pub state :
      g ≡ record f { pending = insert id (record { method = method; host_id = host_id }) f.pending }

-- The outcome of a registration.
abbrev pub Outcome :
    ResponseFilter → Value → Bytes → ResponseFilter × Result ProxyError Bytes → Type 0
Outcome f host_id method (g, ok id) = Issued f g host_id method id
Outcome f host_id method (g, err e) = g ≡ f

generate_proxy_id-prefix :
    (d : Draw) (id : Bytes) → generate_proxy_id d ≡ ok id → has_prefix id (codes "mcp_") ≡ true
unfolding generate_proxy_id
generate_proxy_id-prefix (drawn buf) id h =
    ground (arith, has_prefix-append (codes "mcp_") (encode_to_string buf))
generate_proxy_id-prefix (failed e) id h = cc

-- One attempt, by what the random source gave.
attempts-taken :
    (left i : ℕ) (draw : ℕ → Draw) (host_id : Value) (method : Bytes) (f : ResponseFilter)
    (id : Bytes)
    → generate_proxy_id (draw i) ≡ ok id
    → (is_some (lookup id f.pending) || is_some (lookup id f.recent_used)) ≡ true
    → attempts (suc left) i draw host_id method f ≡ attempts left (suc i) draw host_id method f
unfolding attempts
attempts-taken left i draw host_id method f id e h = rw (e, attempts) (ground arith)

attempts-free :
    (left i : ℕ) (draw : ℕ → Draw) (host_id : Value) (method : Bytes) (f : ResponseFilter)
    (id : Bytes)
    → generate_proxy_id (draw i) ≡ ok id
    → (is_some (lookup id f.pending) || is_some (lookup id f.recent_used)) ≡ false
    → attempts (suc left) i draw host_id method f ≡ (
      record f { pending = insert id (record { method = method; host_id = host_id }) f.pending },
      ok id,
    )
unfolding attempts
attempts-free left i draw host_id method f id e h = rw (e, attempts) (ground arith)

attempts-failed :
    (left i : ℕ) (draw : ℕ → Draw) (host_id : Value) (method : Bytes) (f : ResponseFilter)
    (x : ProxyError)
    → generate_proxy_id (draw i) ≡ err x
    → attempts (suc left) i draw host_id method f ≡ (f, err x)
unfolding attempts
attempts-failed left i draw host_id method f x e = rw (e, attempts)

attempts-none :
    (i : ℕ) (draw : ℕ → Draw) (host_id : Value) (method : Bytes) (f : ResponseFilter)
    → Outcome f host_id method (attempts 0 i draw host_id method f)
unfolding attempts
attempts-none i draw host_id method f = refl

not_some→none : {A : Type 0} (o : Option A) → is_some o ≡ false → o ≡ none
not_some→none none h = refl
not_some→none (some a) h = cc

attempts-Outcome :
    (left i : ℕ) (draw : ℕ → Draw) (host_id : Value) (method : Bytes) (f : ResponseFilter)
    → Outcome f host_id method (attempts left i draw host_id method f)
attempts-Outcome zero i draw host_id method f = attempts-none i draw host_id method f
attempts-Outcome (suc left) i draw host_id method f =
    elim (Result-cases (generate_proxy_id (draw i))) [
      | inl (id, e) ↦
          elim (Bool-cases (is_some (lookup id f.pending) || is_some (lookup id f.recent_used))) [
            | inl taken ↦
                rw (attempts-taken left i draw host_id method f id e taken)
                  (attempts-Outcome left (suc i) draw host_id method f)
            | inr free ↦ rw (attempts-free left i draw host_id method f id e free) (record {
              prefixed = generate_proxy_id-prefix (draw i) id e;
              not_pending = not_some→none _ (ground arith);
              not_used = not_some→none _ (ground arith);
              state = refl;
            })
          ]
      | inr (x, e) ↦ rw (attempts-failed left i draw host_id method f x e) refl
    ]

-- The ID is made of the bytes of one of the draws.
abbrev pub IsDrawn : (ℕ → Draw) → Bytes → Type 0
IsDrawn draw id =
    (n : ℕ) × (buf : Bytes) × (draw n ≡ drawn buf) × (id ≡ codes "mcp_" ++ encode_to_string buf)

abbrev pub DrawnOutcome : (ℕ → Draw) → ResponseFilter × Result ProxyError Bytes → Type 0
DrawnOutcome draw (g, ok id) = IsDrawn draw id
DrawnOutcome draw (g, err e) = Unit

generate_proxy_id-drawn :
    (d : Draw) (id : Bytes)
    → generate_proxy_id d ≡ ok id
    → (buf : Bytes) × (d ≡ drawn buf) × (id ≡ codes "mcp_" ++ encode_to_string buf)
unfolding generate_proxy_id
generate_proxy_id-drawn (drawn buf) id h = (buf, refl, cc)
generate_proxy_id-drawn (failed e) id h = cc

attempts-DrawnOutcome :
    (left i : ℕ) (draw : ℕ → Draw) (host_id : Value) (method : Bytes) (f : ResponseFilter)
    → DrawnOutcome draw (attempts left i draw host_id method f)
unfolding attempts
attempts-DrawnOutcome zero i draw host_id method f = tt
attempts-DrawnOutcome (suc left) i draw host_id method f =
    elim (Result-cases (generate_proxy_id (draw i))) [
      | inl (id, e) ↦
          elim (Bool-cases (is_some (lookup id f.pending) || is_some (lookup id f.recent_used))) [
            | inl taken ↦
                rw (attempts-taken left i draw host_id method f id e taken)
                  (attempts-DrawnOutcome left (suc i) draw host_id method f)
            | inr free ↦
                let (buf, d, t) = generate_proxy_id-drawn (draw i) id e in
                rw (attempts-free left i draw host_id method f id e free) (i, buf, d, t)
          ]
      | inr (x, e) ↦ rw (attempts-failed left i draw host_id method f x e) tt
    ]

register_invalid :
    (draw : ℕ → Draw) (host_id : Value) (method : Bytes) (f : ResponseFilter) (x : ProxyError)
    → validate_host_id host_id ≡ some x
    → register draw host_id method f ≡ (f, err x)
unfolding register
register_invalid draw host_id method f x e = rw (e, register)

-- A full table refuses every host ID that is valid, and nothing is registered.
pub register_full :
    (draw : ℕ → Draw) (host_id : Value) (method : Bytes) (f : ResponseFilter)
    → validate_host_id host_id ≡ none
    → max_pending_requests ≤ length f.pending
    → register draw host_id method f ≡ (f, err pending_map_full)
unfolding register
register_full draw host_id method f v h = rw (v, register) (rw (le→leb _ _ h))

register_room :
    (draw : ℕ → Draw) (host_id : Value) (method : Bytes) (f : ResponseFilter)
    → validate_host_id host_id ≡ none
    → length f.pending < max_pending_requests
    → register draw host_id method f ≡ attempts 3 0 draw host_id method f
unfolding register
register_room draw host_id method f v h = rw (v, register) (ground arith)

-- The table has room, when an ID was issued.
pub record Registered (f g : ResponseFilter) (host_id : Value) (method id : Bytes) : Type 0 where
  pub issued : Issued f g host_id method id
  pub valid : validate_host_id host_id ≡ none
  pub room : length f.pending < max_pending_requests

abbrev pub RegisterOutcome :
    ResponseFilter → Value → Bytes → ResponseFilter × Result ProxyError Bytes → Type 0
RegisterOutcome f host_id method (g, ok id) = Registered f g host_id method id
RegisterOutcome f host_id method (g, err e) = g ≡ f

with_room :
    (f : ResponseFilter) (host_id : Value) (method : Bytes)
    (r : ResponseFilter × Result ProxyError Bytes)
    → validate_host_id host_id ≡ none
    → length f.pending < max_pending_requests
    → Outcome f host_id method r
    → RegisterOutcome f host_id method r
with_room f host_id method (g, ok id) v h o = record { issued = o; valid = v; room = h }
with_room f host_id method (g, err e) v h o = o

pub register-DrawnOutcome :
    (draw : ℕ → Draw) (host_id : Value) (method : Bytes) (f : ResponseFilter)
    → DrawnOutcome draw (register draw host_id method f)
register-DrawnOutcome draw host_id method f = elim (Option-cases (validate_host_id host_id)) [
  | inl v ↦ elim (Bool-cases (leb max_pending_requests (length f.pending))) [
    | inl full ↦ rw (register_full draw host_id method f v (leb→le _ _ full)) tt
    | inr room ↦
        let h : length f.pending < max_pending_requests = ground arith in
        rw (register_room draw host_id method f v h)
          (attempts-DrawnOutcome 3 0 draw host_id method f)
  ]
  | inr (x, e) ↦ rw (register_invalid draw host_id method f x e) tt
]

-- Every registration either issues an ID that begins with mcp_, is neither pending nor recently
-- used and is now pending for the host's ID, which is valid, in a table that had room; or it
-- returns an error and leaves the filter as it was.
pub register_outcome :
    (draw : ℕ → Draw) (host_id : Value) (method : Bytes) (f : ResponseFilter)
    → RegisterOutcome f host_id method (register draw host_id method f)
register_outcome draw host_id method f = elim (Option-cases (validate_host_id host_id)) [
  | inl v ↦ elim (Bool-cases (leb max_pending_requests (length f.pending))) [
    | inl full ↦ rw (register_full draw host_id method f v (leb→le _ _ full)) refl
    | inr room ↦
        let h : length f.pending < max_pending_requests = ground arith in
        rw (register_room draw host_id method f v h)
          (with_room f host_id method _ v h (attempts-Outcome 3 0 draw host_id method f))
  ]
  | inr (x, e) ↦ rw (register_invalid draw host_id method f x e) refl
]
