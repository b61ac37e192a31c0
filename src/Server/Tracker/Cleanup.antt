-- ===== src/Server/Tracker/Cleanup.antt =====
-- `cleanupExpired`: which entries go, and which of them are reported.
use go_pkicmp_ng.Prelude.{
  ◌≡◌, refl, ◌⊎◌, true, false, Option, none, some, List, [], ◌∷◌, ◌++◌, inl, inr, Bytes, arith,
  bytes_eq, bytes_eq_iff, bytes_eq_refl, is_some, Bool-cases, if◌then◌else◌,
}
use go_pkicmp_ng.Prelude.Int.{pos, ltb_ℤ}
use go_pkicmp_ng.Prelude.Assoc.{
  Assoc, lookup, Distinct, Distinct-remove, lookup-remove, put, lookup-put, Distinct-put,
}
use go_pkicmp_ng.Pkicmp.Types.{Time, Duration}
use go_pkicmp_ng.Server.Entry.{pending, issued, TransactionEntry, Cell, TransactionTracker}
use go_pkicmp_ng.Server.Tracker.{
  compare_and_swap, drop_entry, cleanup_entry, cleanup_range, cleanup_expired, is_expired,
  expired_issue, ExpiredIssued,
}

pub cleanup_entry_lem :
    (max_age : Duration) (now : Time) (key : Bytes) (c : Cell) (t : TransactionTracker)
    → ((is_expired max_age now c.entry ≡ true)
        × ((cleanup_entry max_age now key c t).0 ≡ drop_entry key t))
      ⊎ ((is_expired max_age now c.entry ≡ false) × ((cleanup_entry max_age now key c t).0 ≡ t))
cleanup_entry_lem max_age now key c t = elim (Bool-cases (is_expired max_age now c.entry)) [
  | inl e ↦ inl (e, unfold cleanup_entry in ground arith)
  | inr e ↦ inr (e, unfold cleanup_entry in ground arith)
]

-- The certificates that a table holds issued and expired.
unfoldable pub expired_issues : Duration → Time → Assoc Cell → List ExpiredIssued
expired_issues max_age now [] = []
expired_issues max_age now ((k, c) ∷ m) =
    (if is_expired max_age now c.entry then expired_issue c.entry else [])
    ++ expired_issues max_age now m

-- What is left of a cell.
abbrev pub survivor : Duration → Time → Option Cell → Option Cell
survivor max_age now none = none
survivor max_age now (some c) = if is_expired max_age now c.entry then none else some c

-- The table still holds the entries that the loop has yet to visit.
abbrev Holds : Assoc Cell → TransactionTracker → Type 0
Holds m t = (k : Bytes) (c : Cell) → lookup k m ≡ some c → lookup k t.transactions ≡ some c

cleanup_entry_held :
    (max_age : Duration) (now : Time) (k : Bytes) (c : Cell) (t : TransactionTracker)
    → Distinct t.transactions
    → lookup k t.transactions ≡ some c
    → ((cleanup_entry max_age now k c t).1
        ≡ (if is_expired max_age now c.entry then expired_issue c.entry else []))
      × ((j : Bytes)
          → lookup j (cleanup_entry max_age now k c t).0.transactions
            ≡ (if bytes_eq k j then survivor max_age now (some c) else lookup j t.transactions))
      × Distinct (cleanup_entry max_age now k c t).0.transactions
unfolding cleanup_entry
cleanup_entry_held max_age now k c t d h = (
  ground arith,
  λ j. ground (arith, lookup-remove k j t.transactions d, bytes_eq_iff k j),
  ground (arith, Distinct-remove k t.transactions d),
)

cleanup_range_lem :
    (max_age : Duration) (now : Time) (m : Assoc Cell) (t : TransactionTracker)
    → Distinct m
    → Distinct t.transactions
    → Holds m t
    → ((cleanup_range max_age now m t).1 ≡ expired_issues max_age now m)
      × ((j : Bytes)
          → lookup j (cleanup_range max_age now m t).0.transactions ≡ (
              if is_some (lookup j m)
              then survivor max_age now (lookup j m)
              else lookup j t.transactions))
unfolding cleanup_range expired_issues lookup
cleanup_range_lem max_age now [] t dm dt h = (refl, λ j. refl)
cleanup_range_lem max_age now ((k, c) ∷ m) t dm dt h =
    let t' = (cleanup_entry max_age now k c t).0 in
    let visited = cleanup_entry_held max_age now k c t dt (h k c (rw bytes_eq_refl)) in
    let rest = cleanup_range_lem max_age now m t' dm.1 visited.2 (holds t' visited.1) in
    (
      rw (visited.0, rest.0),
      λ j. ground (arith, rest.1 j, visited.1 j, bytes_eq_iff k j, dm.0, h j c),
    )
  where
    holds :
        (t' : TransactionTracker)
        → ((j : Bytes)
            → lookup j t'.transactions
              ≡ (if bytes_eq k j then survivor max_age now (some c) else lookup j t.transactions))
        → Holds m t'
    holds t' e j d g = ground (arith, e j, h j d, bytes_eq_iff k j, dm.0)

-- A positive limit removes exactly the entries older than it, and reports the certificates of those
-- that were issued and never confirmed. Another limit removes and reports nothing.
pub cleanup_expired-exact :
    (max_age : Duration) (now : Time) (t : TransactionTracker)
    → Distinct t.transactions
    → ((cleanup_expired max_age now t).1
        ≡ (if ltb_ℤ (pos 0) max_age then expired_issues max_age now t.transactions else []))
      × ((j : Bytes)
          → lookup j (cleanup_expired max_age now t).0.transactions ≡ (
              if ltb_ℤ (pos 0) max_age
              then survivor max_age now (lookup j t.transactions)
              else lookup j t.transactions))
unfolding cleanup_expired
cleanup_expired-exact max_age now t d = elim (Bool-cases (ltb_ℤ (pos 0) max_age)) [
  | inl h ↦
      let all = cleanup_range_lem max_age now t.transactions t d d (λ k c e. e) in
      (rw h all.0, λ j. rw h (ground (arith, all.1 j)))
  | inr h ↦ (rw h, λ j. rw h)
]

-- The loop of the cleanup reads an entry and deletes its key in two steps. When another goroutine
-- issues the certificate of an expired pending transaction in between, the deletion takes the new
-- entry, which has not expired, and the certificate is not reported.
pub cleanup_entry-loses_issued :
    (max_age : Duration) (now : Time) (key : Bytes) (old : Cell) (e : TransactionEntry)
    (t : TransactionTracker)
    → Distinct t.transactions
    → lookup key t.transactions ≡ some old
    → old.entry.state ≡ pending
    → is_expired max_age now old.entry ≡ true
    → e.state ≡ issued
    → let u = compare_and_swap key old.addr e t in
      let r = cleanup_entry max_age now key old u.0 in
      (u.1 ≡ true) × (lookup key r.0.transactions ≡ none) × (r.1 ≡ [])
unfolding cleanup_entry compare_and_swap
cleanup_entry-loses_issued max_age now key old e t d h p x i =
    let c : Cell = record { addr = t.allocated; entry = e } in
    let m = put key c t.transactions in
    (
      ground arith,
      ground (
        arith,
        lookup-put key key c t.transactions,
        lookup-remove key key m (Distinct-put key c t.transactions d),
        bytes_eq_refl key,
      ),
      ground (arith, lookup-put key key c t.transactions, bytes_eq_refl key),
    )
