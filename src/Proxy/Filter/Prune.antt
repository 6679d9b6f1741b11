-- ===== src/Proxy/Filter/Prune.antt =====
-- pruneRecentUsed (proxy/filter.go) ends below its limit, and only forgets.
use mcptrust.Base.{
  ℕ, zero, suc, ◌≤◌, ◌<◌, ◌≡◌, refl, true, false, none, [], ◌∷◌, arith, ltb, length, is_empty,
  Bytes, bytes_eq_refl, GoMap, lookup, insert, delete, is_some, length-delete-lt, lookup-delete,
  Bool-cases, Option-cases, tests, All, inl, inr, ◌⊎◌,
}
use mcptrust.Proxy.Limits.{max_recent_used_ids}
use mcptrust.Proxy.Filter.{drop_expired, find_oldest, oldest_key, drop_oldest, prune_recent_used}

-- No key of the map is the empty string, as the safety test of the loop assumes.
abbrev pub NonemptyKeys : GoMap ℕ → Type 0
NonemptyKeys = All (λ e. is_empty e.0 ≡ false)

length-drop_expired-le : (now : ℕ) (m : GoMap ℕ) → length (drop_expired now m) ≤ length m
unfolding drop_expired
length-drop_expired-le now [] = omega arith
length-drop_expired-le now ((k, t) ∷ m) = ground (arith, length-drop_expired-le now m)

drop_expired-NonemptyKeys :
    (now : ℕ) (m : GoMap ℕ) → NonemptyKeys m → NonemptyKeys (drop_expired now m)
unfolding drop_expired
drop_expired-NonemptyKeys now [] h = tt
drop_expired-NonemptyKeys now ((k, t) ∷ m) h = ground (arith, drop_expired-NonemptyKeys now m h.1)

delete-NonemptyKeys : (k : Bytes) (m : GoMap ℕ) → NonemptyKeys m → NonemptyKeys (delete k m)
unfolding delete
delete-NonemptyKeys k [] h = tt
delete-NonemptyKeys k ((j, t) ∷ m) h = ground (arith, delete-NonemptyKeys k m h.1)

pub insert-NonemptyKeys :
    (k : Bytes) (t : ℕ) (m : GoMap ℕ)
    → is_empty k ≡ false
    → NonemptyKeys m
    → NonemptyKeys (insert k t m)
unfolding insert
insert-NonemptyKeys k t [] e h = (e, tt)
insert-NonemptyKeys k t ((j, s) ∷ m) e h = ground (arith, insert-NonemptyKeys k t m e h.1)

-- The key stands in the map.
abbrev Present : Bytes → GoMap ℕ → Type 0
Present k m = is_some (lookup k m) ≡ true

Present-here : (k : Bytes) (t : ℕ) (m : GoMap ℕ) → Present k ((k, t) ∷ m)
unfolding lookup
Present-here k t m = rw (bytes_eq_refl k)

Present-there : (r k : Bytes) (t : ℕ) (m : GoMap ℕ) → Present r m → Present r ((k, t) ∷ m)
unfolding lookup
Present-there r k t m h = ground arith

find_oldest-older :
    (key k : Bytes) (time t : ℕ) (m : GoMap ℕ)
    → ltb t time ≡ true
    → find_oldest key time ((k, t) ∷ m) ≡ find_oldest k t m
unfolding find_oldest
find_oldest-older key k time t m h = rw h

find_oldest-newer :
    (key k : Bytes) (time t : ℕ) (m : GoMap ℕ)
    → ltb t time ≡ false
    → find_oldest key time ((k, t) ∷ m) ≡ find_oldest key time m
unfolding find_oldest
find_oldest-newer key k time t m h = rw h

find_oldest-nil : (key : Bytes) (time : ℕ) → find_oldest key time [] ≡ key
unfolding find_oldest
find_oldest-nil key time = refl

-- The key found is one of the map, or the one that the search began with.
find_oldest-mem :
    (key : Bytes) (time : ℕ) (m : GoMap ℕ)
    → is_empty key ≡ false
    → NonemptyKeys m
    → (is_empty (find_oldest key time m) ≡ false)
      × ((find_oldest key time m ≡ key) ⊎ Present (find_oldest key time m) m)
find_oldest-mem key time [] e h = rw find_oldest-nil (e, inl refl)
find_oldest-mem key time ((k, t) ∷ m) e h = elim (Bool-cases (ltb t time)) [
  | inl y ↦
      let (filled, found) = find_oldest-mem k t m h.0 h.1 in
      rw (find_oldest-older key k time t m y) (
        filled,
        elim found [
          | inl q ↦ inr (rw q (Present-here k t m))
          | inr q ↦ inr (Present-there _ k t m q)
        ],
      )
  | inr n ↦
      let (filled, found) = find_oldest-mem key time m e h.1 in
      rw (find_oldest-newer key k time t m n)
        (filled, elim found [ inl q ↦ inl q | inr q ↦ inr (Present-there _ k t m q) ])
]

oldest_key-mem :
    (m : GoMap ℕ)
    → NonemptyKeys m
    → 0 < length m
    → (is_empty (oldest_key m) ≡ false) × Present (oldest_key m) m
unfolding oldest_key
oldest_key-mem [] h p = absurd (omega arith)
oldest_key-mem ((k, t) ∷ m) h p =
    let (filled, found) = find_oldest-mem k t m h.0 h.1 in
    (filled, elim found [ inl q ↦ rw q (Present-here k t m) | inr q ↦ Present-there _ k t m q ])

length-delete-oldest :
    (m : GoMap ℕ) → NonemptyKeys m → 0 < length m → length (delete (oldest_key m) m) < length m
length-delete-oldest m h p = elim (Option-cases (lookup (oldest_key m) m)) [
  | inl e ↦ absurd (ground (arith, oldest_key-mem m h p))
  | inr (v, e) ↦ length-delete-lt (oldest_key m) v m e
]

-- The loop ends at the limit: fuel for the size of the map is enough.
drop_oldest-le :
    (fuel : ℕ) (m : GoMap ℕ)
    → NonemptyKeys m
    → length m ≤ fuel
    → length (drop_oldest fuel m) ≤ max_recent_used_ids
unfolding drop_oldest
drop_oldest-le zero m h p = omega arith
drop_oldest-le (suc fuel) m h p = elim (Bool-cases (ltb max_recent_used_ids (length m))) [
  | inl more ↦
      let big : 0 < length m = omega tests in
      let (found, _) = oldest_key-mem m h big in
      rw (more, found)
        (drop_oldest-le fuel (delete (oldest_key m) m) (delete-NonemptyKeys (oldest_key m) m h)
          (omega (arith, length-delete-oldest m h big)))
  | inr done ↦ rw done (ground arith)
]

drop_oldest-NonemptyKeys :
    (fuel : ℕ) (m : GoMap ℕ) → NonemptyKeys m → NonemptyKeys (drop_oldest fuel m)
unfolding drop_oldest
drop_oldest-NonemptyKeys zero m h = h
drop_oldest-NonemptyKeys (suc fuel) m h = ground (
  arith,
  drop_oldest-NonemptyKeys fuel (delete (oldest_key m) m) (delete-NonemptyKeys (oldest_key m) m h),
)

-- After a pruning at most MaxRecentUsedIDs IDs are left.
pub prune_recent_used-le :
    (now : ℕ) (m : GoMap ℕ)
    → NonemptyKeys m
    → length (prune_recent_used now m) ≤ max_recent_used_ids
unfolding prune_recent_used
prune_recent_used-le now m h =
    drop_oldest-le (length (drop_expired now m)) (drop_expired now m)
      (drop_expired-NonemptyKeys now m h) (omega arith)

pub prune_recent_used-NonemptyKeys :
    (now : ℕ) (m : GoMap ℕ) → NonemptyKeys m → NonemptyKeys (prune_recent_used now m)
unfolding prune_recent_used
prune_recent_used-NonemptyKeys now m h =
    drop_oldest-NonemptyKeys _ (drop_expired now m) (drop_expired-NonemptyKeys now m h)

-- A key that is not there is not there afterwards.
drop_expired-absent :
    (now : ℕ) (k : Bytes) (m : GoMap ℕ) → lookup k m ≡ none → lookup k (drop_expired now m) ≡ none
unfolding drop_expired lookup
drop_expired-absent now k [] h = h
drop_expired-absent now k ((j, t) ∷ m) h = ground (arith, drop_expired-absent now k m)

drop_oldest-absent :
    (fuel : ℕ) (k : Bytes) (m : GoMap ℕ) → lookup k m ≡ none → lookup k (drop_oldest fuel m) ≡ none
unfolding drop_oldest
drop_oldest-absent zero k m h = h
drop_oldest-absent (suc fuel) k m h =
    ground
      (arith, lookup-delete (oldest_key m) k m, drop_oldest-absent fuel k (delete (oldest_key m) m))

pub prune_recent_used-absent :
    (now : ℕ) (k : Bytes) (m : GoMap ℕ)
    → lookup k m ≡ none
    → lookup k (prune_recent_used now m) ≡ none
unfolding prune_recent_used
prune_recent_used-absent now k m h =
    drop_oldest-absent _ k (drop_expired now m) (drop_expired-absent now k m h)
