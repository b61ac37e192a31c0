-- ===== src/Server/Tracker/Operations.antt =====
-- What each operation of the tracker does to the table, on every branch.
use go_pkicmp_ng.Prelude.{
  ◌≡◌, refl, ◌⊎◌, Bool, true, false, none, some, inl, inr, Bytes, bytes_eq_refl, arith, is_some,
  Bool-cases, Option-cases,
}
use go_pkicmp_ng.Prelude.Int.{incr, ltb_ℤ}
use go_pkicmp_ng.Prelude.Result.{Result, ok, err}
use go_pkicmp_ng.Prelude.Assoc.{lookup}
use go_pkicmp_ng.Pkicmp.Types.{Time}
use go_pkicmp_ng.Server.Entry.{active, completed, TransactionEntry, blank, Cell, TransactionTracker}
use go_pkicmp_ng.Server.Tracker.{
  make_key, make_credential_key, cred_count, add_cred, add_count, store_entry, load_or_store,
  start_if_absent, StartError, maximum_transactions, per_credential_transactions, advance, is_open,
  complete_round, set_completed,
}
use go_pkicmp_ng.Server.Tracker.Invariant.{
  SameTable, SameTable-release_count, SameTable-release, cred_count-add_cred,
}

-- A start either stores a fresh active entry under a key that was free, with one more reserved place
-- in both counters, both within their limits, or it reports another outcome and leaves the table and
-- the counters as they were.
pub data Started (sha256 : Bytes → Bytes) (cred txn : Bytes) (now : Time) (t : TransactionTracker)
    (r : TransactionTracker × Result StartError Bool) : Type 0 where
  stored :
      lookup (make_key sha256 cred txn) t.transactions ≡ none
      → ltb_ℤ t.max_transactions (incr t.count) ≡ false
      → ltb_ℤ t.max_transactions_per_credential
          (incr (cred_count (make_credential_key sha256 cred) t))
        ≡ false
      → r ≡ (
        store_entry
            (make_key sha256 cred txn)
            (blank active now (make_credential_key sha256 cred))
            (add_cred incr (make_credential_key sha256 cred) (add_count incr t)),
        ok false,
      )
      → Started sha256 cred txn now t r
  full :
      ltb_ℤ t.max_transactions (incr t.count) ≡ true
      → r.1 ≡ err maximum_transactions
      → SameTable t r.0
      → Started sha256 cred txn now t r
  credential_full :
      ltb_ℤ t.max_transactions_per_credential
          (incr (cred_count (make_credential_key sha256 cred) t))
        ≡ true
      → r.1 ≡ err per_credential_transactions
      → SameTable t r.0
      → Started sha256 cred txn now t r
  existing :
      is_some (lookup (make_key sha256 cred txn) t.transactions) ≡ true
      → r.1 ≡ ok true
      → SameTable t r.0
      → Started sha256 cred txn now t r

reserved_count :
    (ck : Bytes) (t : TransactionTracker)
    → cred_count ck (add_cred incr ck (add_count incr t)) ≡ incr (cred_count ck t)
unfolding add_count cred_count
reserved_count ck t = rw cred_count-add_cred (unfold cred_count in rw bytes_eq_refl)

-- The part of a start that runs once both places are reserved.
load_or_store-Started :
    (sha256 : Bytes → Bytes) (cred txn : Bytes) (now : Time) (t : TransactionTracker)
    → ltb_ℤ t.max_transactions (incr t.count) ≡ false
    → ltb_ℤ t.max_transactions_per_credential
        (incr (cred_count (make_credential_key sha256 cred) t))
      ≡ false
    → Started sha256 cred txn now t (
        load_or_store
          (make_key sha256 cred txn)
          (make_credential_key sha256 cred)
          now
          (add_cred incr (make_credential_key sha256 cred) (add_count incr t)))
load_or_store-Started sha256 cred txn now t room each =
    let ck = make_credential_key sha256 cred in
    elim (Option-cases (lookup (make_key sha256 cred txn) t.transactions)) [
      | inl h ↦ stored h room each (unfold load_or_store in ground arith)
      | inr (c, h) ↦
          existing (rw h) (unfold load_or_store in ground arith)
            (unfold load_or_store in rw (h, load_or_store) (SameTable-release ck t))
    ]

-- Every start has one of the four outcomes.
pub start_if_absent-Started :
    (sha256 : Bytes → Bytes) (cred txn : Bytes) (now : Time) (t : TransactionTracker)
    → Started sha256 cred txn now t (start_if_absent sha256 cred txn now t)
unfolding start_if_absent
start_if_absent-Started sha256 cred txn now t =
    let ck = make_credential_key sha256 cred in
    elim (Bool-cases (ltb_ℤ t.max_transactions (incr t.count))) [
      | inl e ↦ rw e (full e refl (SameTable-release_count t))
      | inr e ↦
          rw e
            (elim (Bool-cases (
              ltb_ℤ t.max_transactions_per_credential
                (cred_count ck (add_cred incr ck (add_count incr t))))) [
                  | inl e' ↦
                      rw e'
                        (credential_full (rw reserved_count at e') refl (SameTable-release ck t))
                  | inr e' ↦
                      rw e'
                        (load_or_store-Started sha256 cred txn now t e (rw reserved_count at e'))
                ])
    ]

-- A start does not touch the limits.
pub limits :
    (sha256 : Bytes → Bytes) (cred txn : Bytes) (now : Time) (t : TransactionTracker)
    → ((start_if_absent sha256 cred txn now t).0.max_transactions ≡ t.max_transactions)
      × ((start_if_absent sha256 cred txn now t).0.max_transactions_per_credential
          ≡ t.max_transactions_per_credential)
unfolding start_if_absent
limits sha256 cred txn now t = ground arith

-- `advance` swaps in the new entry if the key holds an open one, and otherwise changes nothing.
pub advance_lem :
    (key : Bytes) (e : TransactionEntry) (t : TransactionTracker)
    → ((old : Cell) × (lookup key t.transactions ≡ some old)
        × (is_open old.entry.state ≡ true)
        × (advance key e t ≡ (store_entry key e t, true)))
      ⊎ (advance key e t ≡ (t, false))
advance_lem key e t = elim (Option-cases (lookup key t.transactions)) [
  | inl h ↦ inr (unfold advance in rw (h, advance))
  | inr (old, h) ↦ elim (Bool-cases (is_open old.entry.state)) [
    | inl o ↦ inl (old, h, o, unfold advance in ground arith)
    | inr o ↦ inr (unfold advance in ground arith)
  ]
]

-- Whoever runs `setCompleted` alone leaves its loop after one round.
pub complete_round_ends :
    (key : Bytes) (now : Time) (t : TransactionTracker) → (complete_round key now t).1 ≡ true
unfolding complete_round
complete_round_ends key now t = ground arith

-- What a round leaves: the entry completed, or an absent one left absent.
pub set_completed-cases :
    (sha256 : Bytes → Bytes) (cred txn : Bytes) (now : Time) (t : TransactionTracker)
    → ((lookup (make_key sha256 cred txn) t.transactions ≡ none)
        × (set_completed sha256 cred txn now t ≡ t))
      ⊎ ((old : Cell) × (lookup (make_key sha256 cred txn) t.transactions ≡ some old)
          × (set_completed sha256 cred txn now t
              ≡ store_entry
                  (make_key sha256 cred txn)
                  (record (old.entry) { state = completed; last_activity = now })
                  t))
unfolding set_completed
set_completed-cases sha256 cred txn now t =
    elim (Option-cases (lookup (make_key sha256 cred txn) t.transactions)) [
      | inl h ↦ inl (h, ground arith)
      | inr (old, h) ↦ inr (old, h, ground arith)
    ]
