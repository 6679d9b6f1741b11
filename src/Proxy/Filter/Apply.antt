-- ===== src/Proxy/Filter/Apply.antt =====
-- Apply (proxy/filter.go): which responses pass, and what the host sees of them.
use mcptrust.Base.{
  ℕ, ◌≡◌, refl, ◌⊎◌, inl, inr, ◌∙◌, ap, Bool, true, false, Option, none, some, arith, if◌then◌else◌,
  Bytes, bytes_eq, bytes_eq_refl, codes, lookup, is_some, Bool-cases, Option-cases,
}
use mcptrust.Json.{
  Value, str, obj, Fields, get_field, set_field, get_field-set_field, as_string, object_field?,
}
use mcptrust.Proxy.Enforce.{Enforcer}
use mcptrust.Proxy.Filter.{
  PendingEntry, ResponseFilter, deliver, filter_result, consume, drop_result, filter_by_method,
  apply_id, apply,
}

abbrev pub has_field : Bytes → Fields → Bool
has_field k m = is_some (get_field k m)

-- A response passed: its ID was pending for `entry` and not used before, the ID is consumed, and
-- the host gets what `deliver` makes of the response.
pub record Passed (now prune_at : ℕ) (f g : ResponseFilter) (resp out : Fields) (modified : Bool)
    : Type 0 where
  pub id : Bytes
  pub entry : PendingEntry
  pub id_field : get_field (codes "id") resp ≡ some (str id)
  pub was_pending : lookup id f.pending ≡ some entry
  pub not_used : lookup id f.recent_used ≡ none
  pub state : g ≡ consume now prune_at id f
  pub output :
      deliver f entry (has_field (codes "error") (drop_result resp)) (drop_result resp)
      ≡ (out, modified)

-- A message with no ID, which is neither a result nor an error, passes as it is.
pub record Unrelated (f g : ResponseFilter) (resp out : Fields) (modified : Bool) : Type 0 where
  pub no_id : get_field (codes "id") resp ≡ none
  pub no_result : get_field (codes "result") resp ≡ none
  pub no_error : get_field (codes "error") resp ≡ none
  pub same_state : g ≡ f
  pub same_message : out ≡ resp
  pub unmodified : modified ≡ false

abbrev pub ApplyOutcome :
    ℕ → ℕ → ResponseFilter → Fields → ResponseFilter × Option (Fields × Bool) → Type 0
ApplyOutcome now prune_at f resp (g, none) = g ≡ f
ApplyOutcome now prune_at f resp (g, some (out, modified)) =
    Unrelated f g resp out modified ⊎ Passed now prune_at f g resp out modified

not_some : {A : Type 0} (o : Option A) → is_some o ≡ false → o ≡ none
not_some none h = refl
not_some (some a) h = cc

-- Each way through Apply as an equation.
apply_no_id :
    (now prune_at : ℕ) (resp : Fields) (f : ResponseFilter)
    → get_field (codes "id") resp ≡ none
    → apply now prune_at resp f ≡ (
        if is_some (get_field (codes "result") resp)
        then (f, none)
        else if is_some (get_field (codes "error") resp)
        then (f, none)
        else (f, some (resp, false)))
unfolding apply
apply_no_id now prune_at resp f e = rw (e, apply)

pub apply_with_id :
    (now prune_at : ℕ) (resp : Fields) (f : ResponseFilter) (v : Value)
    → get_field (codes "id") resp ≡ some v
    → apply now prune_at resp f ≡ apply_id now prune_at v (drop_result resp) f
unfolding apply
apply_with_id now prune_at resp f v e = rw (e, apply)

pub apply_id_used :
    (now prune_at : ℕ) (id : Bytes) (resp : Fields) (f : ResponseFilter)
    → is_some (lookup id f.recent_used) ≡ true
    → apply_id now prune_at (str id) resp f ≡ (f, none)
unfolding apply_id
apply_id_used now prune_at id resp f h = rw h

pub apply_id_unknown :
    (now prune_at : ℕ) (id : Bytes) (resp : Fields) (f : ResponseFilter)
    → lookup id f.pending ≡ none
    → apply_id now prune_at (str id) resp f ≡ (f, none)
unfolding apply_id
apply_id_unknown now prune_at id resp f h = rw (h, apply_id) (ground arith)

pub apply_id_pending :
    (now prune_at : ℕ) (id : Bytes) (resp : Fields) (f : ResponseFilter) (entry : PendingEntry)
    → is_some (lookup id f.recent_used) ≡ false
    → lookup id f.pending ≡ some entry
    → apply_id now prune_at (str id) resp f
      ≡ (consume now prune_at id f, some (deliver f entry (has_field (codes "error") resp) resp))
unfolding apply_id
apply_id_pending now prune_at id resp f entry h e = rw (e, apply_id) (rw h)

apply_id_other :
    (now prune_at : ℕ) (v : Value) (resp : Fields) (f : ResponseFilter)
    → as_string v ≡ none
    → apply_id now prune_at v resp f ≡ (f, none)
unfolding apply_id
apply_id_other now prune_at v resp f h = rw (h, apply_id)

apply_str_outcome :
    (now prune_at : ℕ) (id : Bytes) (resp : Fields) (f : ResponseFilter)
    → get_field (codes "id") resp ≡ some (str id)
    → ApplyOutcome now prune_at f resp (apply_id now prune_at (str id) (drop_result resp) f)
apply_str_outcome now prune_at id resp f e = elim (Bool-cases (is_some (lookup id f.recent_used))) [
  | inl used ↦ rw (apply_id_used now prune_at id (drop_result resp) f used) refl
  | inr fresh ↦ elim (Option-cases (lookup id f.pending)) [
    | inl unknown ↦ rw (apply_id_unknown now prune_at id (drop_result resp) f unknown) refl
    | inr (entry, p) ↦ rw (apply_id_pending now prune_at id (drop_result resp) f entry fresh p) (
        inr (record {
          id = id;
          entry = entry;
          id_field = e;
          was_pending = p;
          not_used = not_some _ fresh;
          state = refl;
          output = refl;
        }))
  ]
]

as_string-cases : (v : Value) → (as_string v ≡ none) ⊎ ((s : Bytes) × (v ≡ str s))
as_string-cases (str s) = inr (s, refl)
as_string-cases _ = inl refl

no_id_outcome :
    (now prune_at : ℕ) (resp : Fields) (f : ResponseFilter)
    → get_field (codes "id") resp ≡ none
    → ApplyOutcome now prune_at f resp (apply now prune_at resp f)
no_id_outcome now prune_at resp f e = elim (Option-cases (get_field (codes "result") resp)) [
  | inr (r, h) ↦ rw (apply_no_id now prune_at resp f e, h) refl
  | inl h ↦ elim (Option-cases (get_field (codes "error") resp)) [
    | inr (r, k) ↦ rw (apply_no_id now prune_at resp f e, h, k) refl
    | inl k ↦
        rw (apply_no_id now prune_at resp f e, h, k)
          (inl (record {
            no_id = e;
            no_result = h;
            no_error = k;
            same_state = refl;
            same_message = refl;
            unmodified = refl;
          }))
  ]
]

-- A message from the server is dropped with the filter unchanged, or it has no ID and is neither
-- a result nor an error and passes unchanged, or its ID was pending and unused, is consumed, and
-- the response passes as `deliver` makes it.
pub apply_outcome :
    (now prune_at : ℕ) (resp : Fields) (f : ResponseFilter)
    → ApplyOutcome now prune_at f resp (apply now prune_at resp f)
apply_outcome now prune_at resp f = elim (Option-cases (get_field (codes "id") resp)) [
  | inl e ↦ no_id_outcome now prune_at resp f e
  | inr (v, e) ↦ elim (as_string-cases v) [
    | inl n ↦
        rw
          (
            apply_with_id now prune_at resp f v e,
            apply_id_other now prune_at v (drop_result resp) f n,
          )
          refl
    | inr (s, q) ↦
        rw (apply_with_id now prune_at resp f v e)
          (rw q (apply_str_outcome now prune_at s resp f (e ∙ ap some q)))
  ]
]

id_result : bytes_eq (codes "result") (codes "id") ≡ false
unfolding bytes_eq
id_result = refl

pub filter_result-object :
    (e : Enforcer) (method : Bytes) (resp result : Fields)
    → object_field? (codes "result") resp ≡ some result
    → filter_result e method resp ≡ elim (filter_by_method e method result) [
      | none ↦ (resp, false)
      | some filtered ↦ (set_field (codes "result") (obj filtered) resp, true)
    ]
unfolding filter_result
filter_result-object e method resp result h = rw (h, filter_result)

pub filter_result-other :
    (e : Enforcer) (method : Bytes) (resp : Fields)
    → object_field? (codes "result") resp ≡ none
    → filter_result e method resp ≡ (resp, false)
unfolding filter_result
filter_result-other e method resp h = rw (h, filter_result)

-- Filtering touches no field but the result.
pub filter_result-field :
    (e : Enforcer) (method : Bytes) (resp : Fields) (k : Bytes)
    → bytes_eq (codes "result") k ≡ false
    → get_field k (filter_result e method resp).0 ≡ get_field k resp
filter_result-field e method resp k n = elim (Option-cases (object_field? (codes "result") resp)) [
  | inl h ↦ rw (filter_result-other e method resp h) refl
  | inr (result, h) ↦ elim (Option-cases (filter_by_method e method result)) [
    | inl q ↦ rw (filter_result-object e method resp result h, q) refl
    | inr (x, q) ↦
        rw (filter_result-object e method resp result h, q)
          (get_field-set_field (codes "result") k (obj x) resp ∙ rw n refl)
  ]
]

pub get_field-set_field_self :
    (k : Bytes) (v : Value) (m : Fields) → get_field k (set_field k v m) ≡ some v
get_field-set_field_self k v m = get_field-set_field k k v m ∙ rw (bytes_eq_refl k) refl

-- Whatever the method, the response that passes carries the host's own ID.
pub deliver-id :
    (f : ResponseFilter) (entry : PendingEntry) (has_error : Bool) (resp : Fields)
    → get_field (codes "id") (deliver f entry has_error resp).0 ≡ some entry.host_id
unfolding deliver
deliver-id f entry has_error resp =
    let self = get_field-set_field_self (codes "id") entry.host_id resp in
    ground (
      arith,
      self,
      filter_result-field f.enforcer entry.method (set_field (codes "id") entry.host_id resp)
          (codes "id") id_result,
    )
