-- ===== src/Scanner/Pages.antt =====
-- ListPrompts and ListResourceTemplates of scanner/engine.go: the pages that their loop reads.
use mcptrust.Base.{
  ℕ, zero, suc, ◌+◌, ◌≤◌, ◌<◌, ◌≡◌, refl, ◌∙◌, ap, ap₂, sym, subst, ◌⊎◌, inl, inr, Bool, true,
  false, ◌||◌, Option, none, some, List, [], ◌∷◌, ◌++◌, append_assoc, arith, ltb, if◌then◌else◌,
  Bool-cases, is_empty, length, length-append, All, Bytes, bytes_eq_iff, elem, GoMap, lookup,
  Distinct, Result, ok, err,
}
use mcptrust.Json.{ℤ}
use mcptrust.Scanner.{
  RpcError, Response, Page, Turn, done, again, max_scan_items_total, turn_page, turn_result,
  turn_response, turn, list_pages, is_method_not_found,
}

-- A result that holds at most the 10,000 items of the limit.
abbrev pub Within : {A : Type 0} → Result Bytes (List A) → Type 0
Within (ok items) = length items ≤ max_scan_items_total
Within (err e) = Unit

abbrev TurnWithin : {A : Type 0} → Turn A → Type 0
TurnWithin (done r) = Within r
TurnWithin (again next items) = length items ≤ max_scan_items_total

-- What the server answers to the cursor of each page, whatever the ID of the request.
abbrev pub AreServed :
    {A : Type 0}
    → (ℕ → Bytes → Result Bytes (Response (Page A)))
    → Bytes
    → List A
    → GoMap (List A)
    → Type 0
AreServed answer cursor items [] =
    (id : ℕ)
    → answer id cursor
      ≡ ok (record { error = none; result = some (record { items = items; next_cursor = [] }) })
AreServed answer cursor items ((next, more) ∷ rest) =
    ((id : ℕ)
      → answer id cursor
        ≡ ok
            (record { error = none; result = some (record { items = items; next_cursor = next }) }))
    × (is_empty next ≡ false)
    × AreServed answer next more rest

abbrev pub all_items : {A : Type 0} → List A → GoMap (List A) → List A
all_items items [] = items
all_items items ((next, more) ∷ rest) = items ++ all_items more rest

module _ {A : Type 0} (show_int : ℤ → Bytes) (method noun : Bytes) where
  -- A result under the limit ends the loop or goes on, within the limit both ways.
  next-within :
      (stop : Bool) (next : Bytes) (items : List A)
      → length items ≤ max_scan_items_total
      → TurnWithin (if stop then done (ok items) else again next items)
  next-within true next items h = h
  next-within false next items h = h

  turn_page-within :
      (page : Page A) (seen : List Bytes) (items : List A)
      → TurnWithin (turn_page show_int method noun page seen items)
  unfolding turn_page
  turn_page-within page seen items =
      elim (Bool-cases (ltb max_scan_items_total (length items + length page.items))) [
        | inl over ↦ rw (over) tt
        | inr fits ↦ rw (fits) (
            next-within (is_empty page.next_cursor || elem page.next_cursor seen) page.next_cursor
              (items ++ page.items) (ground (arith, length-append items page.items)))
      ]

  turn_result-within :
      (result : Option (Page A)) (seen : List Bytes) (items : List A)
      → length items ≤ max_scan_items_total
      → TurnWithin (turn_result show_int method noun result seen items)
  unfolding turn_result
  turn_result-within none seen items h = h
  turn_result-within (some page) seen items h = turn_page-within page seen items

  turn_response-within :
      (error : Option RpcError) (result : Option (Page A)) (seen : List Bytes) (items : List A)
      → length items ≤ max_scan_items_total
      → TurnWithin (turn_response show_int method noun error result seen items)
  unfolding turn_response
  turn_response-within none result seen items h = turn_result-within result seen items h
  turn_response-within (some e) result seen items h =
      elim (Bool-cases (is_method_not_found e.code)) [
        | inl unknown ↦ rw (unknown) (omega arith)
        | inr other ↦ rw (other) tt
      ]

  turn-within :
      (reply : Result Bytes (Response (Page A))) (seen : List Bytes) (items : List A)
      → length items ≤ max_scan_items_total
      → TurnWithin (turn show_int method noun reply seen items)
  unfolding turn
  turn-within (err e) seen items h = tt
  turn-within (ok response) seen items h =
      turn_response-within response.error response.result seen items h

  Turn-cases :
      (t : Turn A)
      → ((r : Result Bytes (List A)) × (t ≡ done r))
        ⊎ ((next : Bytes) × (items : List A) × (t ≡ again next items))
  Turn-cases (done r) = inl (r, refl)
  Turn-cases (again next items) = inr (next, items, refl)

  module _ (answer : ℕ → Bytes → Result Bytes (Response (Page A))) (pages id : ℕ)
      (cursor : Bytes) where
    list_pages-done :
        (seen : List Bytes) (items : List A) (r : Result Bytes (List A))
        → turn show_int method noun (answer (suc id) cursor) seen items ≡ done r
        → list_pages show_int method noun answer (suc pages) id cursor seen items ≡ (suc id, r)
    unfolding list_pages
    list_pages-done seen items r e = rw (e, list_pages) refl

    list_pages-again :
        (seen : List Bytes) (items : List A) (next : Bytes) (more : List A)
        → turn show_int method noun (answer (suc id) cursor) seen items ≡ again next more
        → list_pages show_int method noun answer (suc pages) id cursor seen items
          ≡ list_pages show_int method noun answer pages (suc id) next (next ∷ seen) more
    unfolding list_pages
    list_pages-again seen items next more e = rw (e, list_pages) refl

  -- Whatever the server answers, the loop makes at most one request for each page that is left, with
  -- IDs that go up by one, and a list that it returns has at most 10,000 items.
  pub list_pages-Within :
      (answer : ℕ → Bytes → Result Bytes (Response (Page A))) (pages id : ℕ) (cursor : Bytes)
      (seen : List Bytes) (items : List A)
      → length items ≤ max_scan_items_total
      → Within (list_pages show_int method noun answer pages id cursor seen items).1
        × ((list_pages show_int method noun answer pages id cursor seen items).0 ≤ id + pages)
  unfolding list_pages
  list_pages-Within answer zero id cursor seen items h = (h, omega arith)
  list_pages-Within answer (suc pages) id cursor seen items h =
      let step = turn show_int method noun (answer (suc id) cursor) seen items in
      let kept = turn-within (answer (suc id) cursor) seen items h in
      elim (Turn-cases step) [
        | inl (r, e) ↦
            subst (λ l. Within l.1 × (l.0 ≤ id + suc pages))
              (sym (list_pages-done answer pages id cursor seen items r e))
              (subst TurnWithin e kept, omega arith)
        | inr (next, more, e) ↦
            let rest =
              list_pages-Within answer pages (suc id) next (next ∷ seen) more
                (subst TurnWithin e kept) in
            subst (λ l. Within l.1 × (l.0 ≤ id + suc pages))
              (sym (list_pages-again answer pages id cursor seen items next more e))
              (rest.0, omega (arith, rest.1))
      ]

  turn-page :
      (items page : List A) (next : Bytes) (seen : List Bytes)
      → length (items ++ page) ≤ max_scan_items_total
      → is_empty next ≡ false
      → elem next seen ≡ false
      → turn_page show_int method noun (record { items = page; next_cursor = next }) seen items
        ≡ again next (items ++ page)
  unfolding turn_page
  turn-page items page next seen h e u = rw (e, u) (ground (arith, length-append items page))

  turn-last :
      (items page : List A) (seen : List Bytes)
      → length (items ++ page) ≤ max_scan_items_total
      → turn_page show_int method noun (record { items = page; next_cursor = [] }) seen items
        ≡ done (ok (items ++ page))
  unfolding turn_page
  turn-last items page seen h = ground (arith, length-append items page)

  -- The cursor that is read now does not come again.
  new_cursors :
      (next : Bytes) (seen : List Bytes) (rest : GoMap (List A))
      → lookup next rest ≡ none
      → All (λ e. elem e.0 seen ≡ false) rest
      → All (λ e. elem e.0 (next ∷ seen) ≡ false) rest
  unfolding lookup
  new_cursors next seen [] h u = tt
  new_cursors next seen ((c, page) ∷ rest) h u = (
    ground (arith, bytes_eq_iff c next, bytes_eq_iff next c, u.0),
    new_cursors next seen rest (ground (arith, bytes_eq_iff c next)) u.1,
  )

  length-front :
      (xs ys : List A) → length (xs ++ ys) ≤ max_scan_items_total → length xs ≤ max_scan_items_total
  length-front xs ys h = omega (arith, h, length-append xs ys)

  -- A server that answers each cursor with its page, on fewer pages than the loop may read, with
  -- distinct cursors that were not seen and with at most 10,000 items, is read in full, with one
  -- request for each page.
  pub list_pages-AreServed :
      (answer : ℕ → Bytes → Result Bytes (Response (Page A))) (pages id : ℕ) (cursor : Bytes)
      (seen : List Bytes) (items page : List A) (rest : GoMap (List A))
      → AreServed answer cursor page rest
      → Distinct rest
      → All (λ e. elem e.0 seen ≡ false) rest
      → length rest < pages
      → length (items ++ all_items page rest) ≤ max_scan_items_total
      → list_pages show_int method noun answer pages id cursor seen items
        ≡ (id + suc (length rest), ok (items ++ all_items page rest))
  unfolding turn turn_response turn_result
  list_pages-AreServed answer zero id cursor seen items page rest a d u f h = ground (arith, f)
  list_pages-AreServed answer (suc pages) id cursor seen items page [] a d u f h =
      list_pages-done answer pages id cursor seen items (ok (items ++ page))
        (rw (a (suc id)) (turn-last items page seen h))
      ∙ ap (λ n. (n, ok (items ++ page))) (omega arith)
  list_pages-AreServed answer (suc pages) id cursor seen items page ((next, more) ∷ rest) a d u f
        h =
      let regroup = append_assoc items page (all_items more rest) in
      let total : length ((items ++ page) ++ all_items more rest) ≤ max_scan_items_total =
        rw (regroup) h in
      list_pages-again answer pages id cursor seen items next (items ++ page) (
        rw (a.0 (suc id)) (
          turn-page items page next seen (length-front (items ++ page) (all_items more rest) total)
            a.1 u.0))
      ∙ list_pages-AreServed answer pages (suc id) next (next ∷ seen) (items ++ page) more rest a.2
          d.1 (new_cursors next seen rest d.0 u.1) (omega (arith, f)) total
      ∙ ap₂ (λ n l. (n, ok l)) (omega arith) regroup
