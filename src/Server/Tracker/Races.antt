-- ===== src/Server/Tracker/Races.antt =====
-- Starts, evictions and transitions of many goroutines, interleaved at the atomic operations of
-- transaction.go: `startIfAbsent` reserves its places before it stores, and whoever removes an entry
-- releases its places afterwards. An entry under a key always carries the credential of that key
-- (`Valid`), so an eviction may read it from the entry that it deletes.
pub mod Safety
pub mod Limits
use mathlib.Core.Path.{fun_ext}
use go_pkicmp_ng.Prelude.{
  ℕ, zero, suc, ◌+◌, ◌≤◌, ◌≡◌, refl, Bool, true, false, Option, none, some, List, [], ◌∷◌, ◌++◌,
  inl, inr, Bytes, bytes_eq, bytes_eq_iff, bytes_eq_refl, length, subst, arith, if◌then◌else◌,
  Bool-cases, Option-cases,
}
use go_pkicmp_ng.Prelude.Int.{ℤ, pos, incr, decr, ltb_ℤ, ◌≤ℤ◌}
use go_pkicmp_ng.Prelude.Assoc.{
  Assoc, lookup, put, remove, count_where, lookup-put, count_where-put_new, count_where-put_old,
  count_where-remove, length-eq-count_where,
}
use go_pkicmp_ng.Pkicmp.Types.{Time}
use go_pkicmp_ng.Server.Entry.{
  active, TransactionEntry, blank, Cell, TransactionTracker, new_transaction_tracker,
}
use go_pkicmp_ng.Server.Tracker.{
  counter, cred_count, add_cred, add_count, store_entry, compare_and_swap,
}
use go_pkicmp_ng.Server.Tracker.Invariant.{owned, owned_by}

-- Where a goroutine stands between two atomic operations.
pub data Phase : Type 0 where
  -- its `count.Add(1)` passed the test; next is `credCount.Add(1)`
  counted : Bytes → Bytes → Time → Phase
  -- both tests passed; next is `LoadOrStore`
  reserved : Bytes → Bytes → Time → Phase
  -- next are `credCount.Add(-1)` and `count.Add(-1)`
  release_credential : Bytes → Phase
  -- next is `count.Add(-1)`, and nothing after it
  release_count : Phase
  -- after a `LoadAndDelete`, next are `count.Add(-1)` and `credCount.Add(-1)`
  deleted : Bytes → Phase
  -- next is the `credCount.Add(-1)` of a deletion
  deleted_counted : Bytes → Phase

-- The next atomic operation of a goroutine, and where it stands after it.
unfoldable pub run : Phase → TransactionTracker → TransactionTracker × List Phase
unfolding add_cred add_count store_entry
run (counted key ck now) t =
    let t' = add_cred incr ck t in
    (
      t',
      (if ltb_ℤ t.max_transactions_per_credential (cred_count ck t')
            then release_credential ck
            else reserved key ck now)
          ∷ [],
    )
run (reserved key ck now) t = elim (lookup key t.transactions) [
  | some _ ↦ (t, release_credential ck ∷ [])
  | none ↦ (store_entry key (blank active now ck) t, [])
]
run (release_credential ck) t = (add_cred decr ck t, release_count ∷ [])
run release_count t = (add_count decr t, [])
run (deleted ck) t = (add_count decr t, deleted_counted ck ∷ [])
run (deleted_counted ck) t = (add_cred decr ck t, [])

-- `count.Add(1)` and the test on its result.
unfoldable pub reserve : Bytes → Bytes → Time → TransactionTracker → TransactionTracker × Phase
unfolding add_count
reserve key ck now t =
    let t' = add_count incr t in
    (t', if ltb_ℤ t.max_transactions t'.count then release_count else counted key ck now)

-- `LoadAndDelete(key)`
unfoldable pub load_and_delete : Bytes → TransactionTracker → TransactionTracker × List Phase
load_and_delete key t = elim (lookup key t.transactions) [
  | none ↦ (t, [])
  | some c ↦
      (record t { transactions = remove key t.transactions }, deleted c.entry.credential_key ∷ [])
]

pub record System : Type 0 where
  pub tracker : TransactionTracker
  pub threads : List Phase

pub data Next (s : System) : System → Type 0 where
  begin :
      (key ck : Bytes) (now : Time)
      → Next s (record {
        tracker = (reserve key ck now s.tracker).0;
        threads = (reserve key ck now s.tracker).1 ∷ s.threads;
      })
  move :
      (before after : List Phase) (p : Phase)
      → s.threads ≡ before ++ (p ∷ after)
      → Next s (record {
        tracker = (run p s.tracker).0;
        threads = before ++ ((run p s.tracker).1 ++ after);
      })
  evict :
      (key : Bytes)
      → Next s (record {
        tracker = (load_and_delete key s.tracker).0;
        threads = (load_and_delete key s.tracker).1 ++ s.threads;
      })
  swap :
      (key : Bytes) (old : Cell) (e : TransactionEntry)
      → e.credential_key ≡ old.entry.credential_key
      → lookup key s.tracker.transactions ≡ some old
      → Next s (record s { tracker = (compare_and_swap key old.addr e s.tracker).0 })

-- A sum over the goroutines.
unfoldable pub sum : (Phase → ℕ) → List Phase → ℕ
sum f [] = 0
sum f (p ∷ ps) = f p + sum f ps

-- The places that a goroutine has counted and will release or hand to an entry.
abbrev pub holds : Phase → ℕ
holds (deleted_counted _) = 0
holds _ = 1

-- The goroutines that may still store an entry.
abbrev pub may_store : Phase → ℕ
may_store (counted _ _ _) = 1
may_store (reserved _ _ _) = 1
may_store _ = 0

abbrev same : Bytes → Bytes → ℕ
same ck ck' = if bytes_eq ck ck' then 1 else 0

abbrev pub holds_for : Bytes → Phase → ℕ
holds_for ck (counted _ _ _) = 0
holds_for ck (reserved _ ck' _) = same ck' ck
holds_for ck (release_credential ck') = same ck' ck
holds_for ck release_count = 0
holds_for ck (deleted ck') = same ck' ck
holds_for ck (deleted_counted ck') = same ck' ck

abbrev pub may_store_for : Bytes → Phase → ℕ
may_store_for ck (reserved _ ck' _) = same ck' ck
may_store_for ck _ = 0
