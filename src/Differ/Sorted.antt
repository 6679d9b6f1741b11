-- ===== src/Differ/Sorted.antt =====
-- The sorted template locks of locker/builder_v3.go.
use mcptrust.Base.{◌≡◌, inl, inr, false, List, [], ◌∷◌, All, Bytes, bytes_eq, bytes_lt}
use mcptrust.Models.{ResourceTemplateLock}
use mcptrust.Locker.Build.{insert_lock, sort_locks}
use mcptrust.Differ.Index.{DistinctBy, bytes_eq_sym}
use mcptrust.Differ.Fill.{either_branch, branch_taken}

-- Sorting by URI template keeps the locks and that they are distinct.
abbrev pub uri_of : ResourceTemplateLock → Bytes
uri_of l = l.uri_template

pub All-insert_lock :
    (P : ResourceTemplateLock → Type 0) (l : ResourceTemplateLock) (ls : List ResourceTemplateLock)
    → P l
    → All P ls
    → All P (insert_lock l ls)
unfolding insert_lock
All-insert_lock P l [] p h = (p, tt)
All-insert_lock P l (k ∷ ks) p h =
    either_branch (All P) (bytes_lt k.uri_template l.uri_template) _ _
      (h.0, All-insert_lock P l ks p h.1) (p, h)

insert_lock-All :
    (P : ResourceTemplateLock → Type 0) (l : ResourceTemplateLock) (ls : List ResourceTemplateLock)
    → All P (insert_lock l ls)
    → P l × All P ls
unfolding insert_lock
insert_lock-All P l [] h = h
insert_lock-All P l (k ∷ ks) h =
    elim (branch_taken (All P) (bytes_lt k.uri_template l.uri_template) (k ∷ insert_lock l ks)
      (l ∷ k ∷ ks) h) [
        | inl later ↦ let both = insert_lock-All P l ks later.1 in (both.0, (later.0, both.1))
        | inr first ↦ first
      ]

pub sort_locks-All :
    (P : ResourceTemplateLock → Type 0) (ls : List ResourceTemplateLock)
    → All P (sort_locks ls)
    → All P ls
unfolding sort_locks
sort_locks-All P [] h = h
sort_locks-All P (l ∷ ls) h =
    let both = insert_lock-All P l (sort_locks ls) h in (both.0, sort_locks-All P ls both.1)

pub All-sort_locks :
    (P : ResourceTemplateLock → Type 0) (ls : List ResourceTemplateLock)
    → All P ls
    → All P (sort_locks ls)
unfolding sort_locks
All-sort_locks P [] h = h
All-sort_locks P (l ∷ ls) h = All-insert_lock P l (sort_locks ls) h.0 (All-sort_locks P ls h.1)

insert_lock-DistinctBy :
    (l : ResourceTemplateLock) (ls : List ResourceTemplateLock)
    → All (λ k. bytes_eq (uri_of l) (uri_of k) ≡ false) ls
    → DistinctBy uri_of ls
    → DistinctBy uri_of (insert_lock l ls)
unfolding insert_lock
insert_lock-DistinctBy l [] h d = (tt, tt)
insert_lock-DistinctBy l (k ∷ ks) h d =
    either_branch (DistinctBy uri_of) (bytes_lt k.uri_template l.uri_template) _ _
      (
        All-insert_lock (λ j. bytes_eq (uri_of k) (uri_of j) ≡ false) l ks
            (bytes_eq_sym (uri_of l) (uri_of k) h.0) d.0,
        insert_lock-DistinctBy l ks h.1 d.1,
      )
      (h, d)

pub sort_locks-DistinctBy :
    (ls : List ResourceTemplateLock) → DistinctBy uri_of ls → DistinctBy uri_of (sort_locks ls)
unfolding sort_locks
sort_locks-DistinctBy [] d = d
sort_locks-DistinctBy (l ∷ ls) d =
    insert_lock-DistinctBy l (sort_locks ls) (All-sort_locks _ ls d.0)
      (sort_locks-DistinctBy ls d.1)
