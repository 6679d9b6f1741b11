-- ===== src/Proxy/Filter/Answered.antt =====
-- What the host sees of the answer to a list request (Apply of proxy/filter.go).
use mcptrust.Base.{
  ℕ, ◌≡◌, refl, inl, inr, ◌∙◌, ap, Bool, true, false, Option, none, some, arith, Bytes, bytes_eq,
  bytes_eq_refl, lookup-delete, codes, lookup, is_some, Bool-cases, Option-cases,
}
use mcptrust.Json.{
  Value, str, obj, Items, Fields, get_field, set_field, get_field-set_field, get_field-delete_field,
  array_field?, object_field?,
}
use mcptrust.Proxy.Enforce.{Enforcer}
use mcptrust.Proxy.Filter.{
  PendingEntry, ResponseFilter, filter_list, filter_result, deliver, drop_result, consume, apply,
}
use mcptrust.Proxy.Filter.Lists.{
  Listing, method_of, key_of, name_key_of, allowed_of, IsFiltered, Listed, InItems,
  filter_list-Listed, filter_by_method-listing,
}
use mcptrust.Proxy.Filter.Invariant.{consume-pending}
use mcptrust.Proxy.Filter.Apply.{
  has_field, deliver-id, filter_result-object, filter_result-other, get_field-set_field_self,
  apply_with_id, apply_id_pending, apply_id_unknown,
}

object_field?-get :
    (k : Bytes) (m r : Fields) → get_field k m ≡ some (obj r) → object_field? k m ≡ some r
unfolding object_field?
object_field?-get k m r h = rw (h, object_field?)

filter_result-Listed :
    (l : Listing) (e : Enforcer) (resp r : Fields) (items : Items) (v : Value)
    → IsFiltered l e
    → get_field (codes "result") (filter_result e (method_of l) resp).0 ≡ some (obj r)
    → array_field? (key_of l) r ≡ some items
    → InItems v items
    → Listed (name_key_of l) (allowed_of l e) v
filter_result-Listed l e resp r items v i g a m =
    elim (Option-cases (object_field? (codes "result") resp)) [
      | inl n ↦
          let same : get_field (codes "result") resp ≡ some (obj r) =
            rw (filter_result-other e (method_of l) resp n) at g in
          cc (n, object_field?-get (codes "result") resp r same)
      | inr (result, o) ↦
          let filtered : Fields = filter_list (key_of l) (name_key_of l) result (allowed_of l e) in
          let out : get_field (codes "result") (set_field (codes "result") (obj filtered) resp)
              ≡ some (obj r) =
            rw
              (
                filter_result-object e (method_of l) resp result o,
                filter_by_method-listing l e result i,
              )
              at g in
          let same : filtered ≡ r =
            cc (out, get_field-set_field_self (codes "result") (obj filtered) resp) in
          filter_list-Listed (key_of l) (name_key_of l) result (allowed_of l e) items v (rw same a)
            m
    ]

result_id : bytes_eq (codes "id") (codes "result") ≡ false
unfolding bytes_eq
result_id = refl

-- A response with an error has no result when it reaches the host.
drop_result-error :
    (resp : Fields)
    → has_field (codes "error") (drop_result resp) ≡ true
    → get_field (codes "result") (drop_result resp) ≡ none
unfolding drop_result bytes_eq
drop_result-error resp h = ground (
  arith,
  get_field-delete_field (codes "result") (codes "result") resp,
  get_field-delete_field (codes "result") (codes "error") resp,
)

deliver-error :
    (f : ResponseFilter) (entry : PendingEntry) (resp : Fields)
    → deliver f entry true resp ≡ (set_field (codes "id") entry.host_id resp, false)
unfolding deliver
deliver-error f entry resp = refl

deliver-enforced :
    (f : ResponseFilter) (entry : PendingEntry) (resp : Fields)
    → f.audit_only ≡ false
    → deliver f entry false resp
      ≡ filter_result f.enforcer entry.method (set_field (codes "id") entry.host_id resp)
unfolding deliver
deliver-enforced f entry resp a = rw a

deliver-Listed :
    (l : Listing) (f : ResponseFilter) (entry : PendingEntry) (resp r : Fields) (items : Items)
    (v : Value)
    → f.audit_only ≡ false
    → entry.method ≡ method_of l
    → IsFiltered l f.enforcer
    → get_field
        (codes "result")
        (deliver f entry (has_field (codes "error") (drop_result resp)) (drop_result resp)).0
      ≡ some (obj r)
    → array_field? (key_of l) r ≡ some items
    → InItems v items
    → Listed (name_key_of l) (allowed_of l f.enforcer) v
deliver-Listed l f entry resp r items v a q i g x m =
    elim (Bool-cases (has_field (codes "error") (drop_result resp))) [
      | inl e ↦
          let out : get_field (codes "result")
                (set_field (codes "id") entry.host_id (drop_result resp))
              ≡ some (obj r) =
            rw (e, deliver-error f entry (drop_result resp)) at g in
          let old : get_field (codes "result")
                (set_field (codes "id") entry.host_id (drop_result resp))
              ≡ none =
            get_field-set_field (codes "id") (codes "result") entry.host_id (drop_result resp)
            ∙ rw result_id (drop_result-error resp e) in
          cc
      | inr n ↦
          let out : get_field (codes "result")
                (filter_result f.enforcer (method_of l)
                  (set_field (codes "id") entry.host_id (drop_result resp))).0
              ≡ some (obj r) =
            rw (n, deliver-enforced f entry (drop_result resp) a, q) at g in
          filter_result-Listed l f.enforcer
            (set_field (codes "id") entry.host_id (drop_result resp)) r items v i out x m
    ]

not_used→false : {A : Type 0} (o : Option A) → o ≡ none → is_some o ≡ false
not_used→false none h = refl
not_used→false (some a) h = cc

-- The response to a pending ID, as a whole.
apply-pending :
    (now prune_at : ℕ) (resp : Fields) (f : ResponseFilter) (id : Bytes) (entry : PendingEntry)
    → get_field (codes "id") resp ≡ some (str id)
    → lookup id f.pending ≡ some entry
    → lookup id f.recent_used ≡ none
    → apply now prune_at resp f ≡ (
      consume now prune_at id f,
      some (deliver f entry (has_field (codes "error") (drop_result resp)) (drop_result resp)),
    )
apply-pending now prune_at resp f id entry e p u =
    apply_with_id now prune_at resp f (str id) e
    ∙ apply_id_pending now prune_at id (drop_result resp) f entry (not_used→false _ u) p

-- In enforcing mode, the list that reaches the host in answer to a request for tools, prompts,
-- templates or (with static resources) resources holds only objects whose name, or URI, is in
-- the allowlist of the enforcer.
pub apply-Listed :
    (l : Listing) (now prune_at : ℕ) (resp out r : Fields) (modified : Bool) (f : ResponseFilter)
    (id : Bytes) (entry : PendingEntry) (items : Items) (v : Value)
    → f.audit_only ≡ false
    → IsFiltered l f.enforcer
    → get_field (codes "id") resp ≡ some (str id)
    → lookup id f.pending ≡ some entry
    → lookup id f.recent_used ≡ none
    → entry.method ≡ method_of l
    → (apply now prune_at resp f).1 ≡ some (out, modified)
    → get_field (codes "result") out ≡ some (obj r)
    → array_field? (key_of l) r ≡ some items
    → InItems v items
    → Listed (name_key_of l) (allowed_of l f.enforcer) v
apply-Listed l now prune_at resp out r modified f id entry items v a i e p u q h g x m =
    let passed =
      ap (λ (t : ResponseFilter × Option (Fields × Bool)). t.1)
        (apply-pending now prune_at resp f id entry e p u) in
    let same : out
        ≡ (deliver f entry (has_field (codes "error") (drop_result resp)) (drop_result resp)).0 =
      cc (passed, h) in
    deliver-Listed l f entry resp r items v a q i (rw same at g) x m

-- A response to a pending ID passes once: the host gets it under the ID of its own request, the
-- ID is pending no longer, and every further response with that ID is dropped.
pub apply_once :
    (now prune_at later prune_later : ℕ) (resp again : Fields) (f : ResponseFilter) (id : Bytes)
    (entry : PendingEntry)
    → get_field (codes "id") resp ≡ some (str id)
    → get_field (codes "id") again ≡ some (str id)
    → lookup id f.pending ≡ some entry
    → lookup id f.recent_used ≡ none
    → (out : Fields × Bool) × ((apply now prune_at resp f).1 ≡ some out)
      × (get_field (codes "id") out.0 ≡ some entry.host_id)
      × (lookup id (apply now prune_at resp f).0.pending ≡ none)
      × (apply later prune_later again (apply now prune_at resp f).0
          ≡ ((apply now prune_at resp f).0, none))
apply_once now prune_at later prune_later resp again f id entry e e' p u =
    let he : Bool = has_field (codes "error") (drop_result resp) in
    let passed = apply-pending now prune_at resp f id entry e p u in
    let gone : lookup id (consume now prune_at id f).pending ≡ none =
      rw consume-pending (lookup-delete id id f.pending ∙ rw (bytes_eq_refl id) refl) in
    (
      deliver f entry he (drop_result resp),
      rw passed refl,
      deliver-id f entry he (drop_result resp),
      rw passed gone,
      rw passed (
          apply_with_id later prune_later again (consume now prune_at id f) (str id) e'
          ∙ apply_id_unknown later prune_later id (drop_result again) (consume now prune_at id f)
              gone),
    )
