-- ===== src/Locker/Canonical/Order.antt =====
-- The order of the keys of an object in canonicalizeV1 of locker/canonical.go.
use mcptrust.Base.{
  ◌≡◌, refl, ◌∙◌, true, false, not, List, [], ◌∷◌, arith, Bytes, bytes_eq, bytes_lt,
}
use mcptrust.Json.{Value, arr, obj, Items, nil, cons, Fields, end, field}
use mcptrust.Locker.Canonical.{
  Encoding, Member, insert_member, sort_members, write_object, canonicalize_v1,
  canonicalize_items_v1, canonicalize_fields_v1,
}

-- Keys are compared byte by byte, so that of two different keys exactly one is less.
one_less : (s t : Bytes) → bytes_eq s t ≡ false → bytes_lt t s ≡ not (bytes_lt s t)
unfolding bytes_eq bytes_lt
one_less [] [] h = ground arith
one_less [] (b ∷ t) h = refl
one_less (a ∷ s) [] h = refl
one_less (a ∷ s) (b ∷ t) h = ground (arith, one_less s t)

bytes_lt-between :
    (s t u : Bytes) → bytes_lt s u ≡ true → bytes_lt s t ≡ false → bytes_lt t u ≡ true
unfolding bytes_lt
bytes_lt-between s t [] h f = ground arith
bytes_lt-between [] [] (c ∷ u) h f = refl
bytes_lt-between (a ∷ s) [] (c ∷ u) h f = refl
bytes_lt-between [] (b ∷ t) (c ∷ u) h f = ground arith
bytes_lt-between (a ∷ s) (b ∷ t) (c ∷ u) h f = ground (arith, bytes_lt-between s t u)

-- One of the two ways in which two insertions meet an entry.
insert_member_comm :
    (x y : Member) (ms : List Member)
    → bytes_eq x.0 y.0 ≡ false
    → insert_member bytes_lt x (insert_member bytes_lt y ms)
      ≡ insert_member bytes_lt y (insert_member bytes_lt x ms)
unfolding insert_member
insert_member_comm x y [] d = ground (arith, one_less x.0 y.0)
insert_member_comm x y (n ∷ ns) d = ground (
  arith,
  one_less x.0 y.0,
  bytes_lt-between n.0 x.0 y.0,
  bytes_lt-between n.0 y.0 x.0,
  insert_member_comm x y ns d,
)

-- Values that differ in the order of the members of their objects, at any depth.
mutual
  pub data Reordered : Value → Value → Type 0 where
    same : {v : Value} → Reordered v v
    in_array : {xs ys : Items} → ReorderedItems xs ys → Reordered (arr xs) (arr ys)
    in_object : {m n : Fields} → ReorderedFields m n → Reordered (obj m) (obj n)

  pub data ReorderedItems : Items → Items → Type 0 where
    no_items : ReorderedItems nil nil
    items :
        {v w : Value} {xs ys : Items}
        → Reordered v w
        → ReorderedItems xs ys
        → ReorderedItems (cons v xs) (cons w ys)

  pub data ReorderedFields : Fields → Fields → Type 0 where
    no_fields : ReorderedFields end end
    member :
        {k : Bytes} {v w : Value} {m n : Fields}
        → Reordered v w
        → ReorderedFields m n
        → ReorderedFields (field k v m) (field k w n)
    swap :
        {k j : Bytes} {v w : Value} {m : Fields}
        → bytes_eq k j ≡ false
        → ReorderedFields (field k v (field j w m)) (field j w (field k v m))
    in_turn : {m n o : Fields} → ReorderedFields m n → ReorderedFields n o → ReorderedFields m o

module _ (enc : Encoding) where
  mutual
    unfolding canonicalize_v1 write_object sort_members

    value-Reordered : (v w : Value) → Reordered v w → canonicalize_v1 enc v ≡ canonicalize_v1 enc w
    value-Reordered v w same = refl
    value-Reordered v w (in_array {xs} {ys} r) = rw (canonicalize_items-Reordered xs ys r) refl
    value-Reordered v w (in_object {m} {n} r) = rw (sort_members-Reordered m n r) refl

    canonicalize_items-Reordered :
        (xs ys : Items)
        → ReorderedItems xs ys
        → canonicalize_items_v1 enc xs ≡ canonicalize_items_v1 enc ys
    canonicalize_items-Reordered xs ys no_items = refl
    canonicalize_items-Reordered xs ys (items {v} {w} {xs = vs} {ys = ws} r rs) =
        rw (value-Reordered v w r, canonicalize_items-Reordered vs ws rs) refl

    sort_members-Reordered :
        (m n : Fields)
        → ReorderedFields m n
        → sort_members bytes_lt (canonicalize_fields_v1 enc m)
          ≡ sort_members bytes_lt (canonicalize_fields_v1 enc n)
    sort_members-Reordered m n no_fields = refl
    sort_members-Reordered m n (member {k} {v} {w} {m = m'} {n = n'} r rs) =
        rw (value-Reordered v w r, sort_members-Reordered m' n' rs) refl
    sort_members-Reordered m n (swap {k} {j} {v} {w} {m = o} d) =
        insert_member_comm (k, canonicalize_v1 enc v) (j, canonicalize_v1 enc w)
          (sort_members bytes_lt (canonicalize_fields_v1 enc o)) d
    sort_members-Reordered m n (in_turn {n = o} r s) =
        sort_members-Reordered m o r ∙ sort_members-Reordered o n s

  -- The canonical text (version 1) of a value, or the error, is the same for values that differ
  -- in the order in which the members of their objects stand, at any depth, as long as the
  -- keys that change places are different.
  pub canonicalize_v1-Reordered :
      (v w : Value) → Reordered v w → canonicalize_v1 enc v ≡ canonicalize_v1 enc w
  canonicalize_v1-Reordered v w r = value-Reordered v w r
