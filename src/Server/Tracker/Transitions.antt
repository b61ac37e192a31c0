-- ===== src/Server/Tracker/Transitions.antt =====
-- The life of one transaction: what a transition needs, what it leaves, and whom it can touch.
use go_pkicmp_ng.Prelude.{
  ◌≡◌, ◌≢◌, refl, Bool, true, false, Option, none, some, inl, inr, Bytes, bytes_eq, bytes_eq_iff,
  bytes_eq_refl, arith, if◌then◌else◌, is_some,
}
use go_pkicmp_ng.Prelude.Result.{ok}
use go_pkicmp_ng.Prelude.Assoc.{lookup, lookup-put}
use go_pkicmp_ng.Pkicmp.Types.{Time, Duration}
use go_pkicmp_ng.Server.Entry.{completed, RequestType, TransactionEntry, Cell, TransactionTracker}
use go_pkicmp_ng.Server.Tracker.{
  make_key, make_credential_key, store_entry, start_if_absent, advance, is_open, set_pending,
  set_issued, set_completed, get_pending, get_issued, pending_entry, issued_entry, Issuance,
}
use go_pkicmp_ng.Server.Tracker.Operations.{
  stored, full, credential_full, existing, start_if_absent-Started, set_completed-cases,
}

pub lookup-store_entry :
    (key j : Bytes) (e : TransactionEntry) (t : TransactionTracker)
    → lookup j (store_entry key e t).transactions ≡ (
        if bytes_eq key j
        then some (record { addr = t.allocated; entry = e })
        else lookup j t.transactions)
unfolding store_entry
lookup-store_entry key j e t =
    lookup-put key j (record { addr = t.allocated; entry = e }) t.transactions

abbrev pub open_at : Option Cell → Bool
open_at none = false
open_at (some c) = is_open c.entry.state

-- `set_pending` succeeds exactly when the key holds an open entry. It then leaves the pending entry
-- for the next poll and every other key as it was; otherwise it leaves the tracker as it was.
pub set_pending-outcome :
    (sha256 : Bytes → Bytes) (cred txn : Bytes) (q : RequestType) (ref nonce : Bytes)
    (check : Duration) (last now : Time) (t : TransactionTracker)
    → let key = make_key sha256 cred txn in
      let r = set_pending sha256 cred txn q ref nonce check last now t in
      (r.1 ≡ open_at (lookup key t.transactions))
      × (r.1 ≡ true
          → (get_pending sha256 cred txn r.0
              ≡ some (pending_entry now (make_credential_key sha256 cred) q ref nonce check last))
            × ((j : Bytes) → key ≢ j → lookup j r.0.transactions ≡ lookup j t.transactions))
      × (r.1 ≡ false → r.0 ≡ t)
unfolding set_pending get_pending pending_entry store_entry
set_pending-outcome sha256 cred txn q ref nonce check last now t =
    let key = make_key sha256 cred txn in
    let e = pending_entry now (make_credential_key sha256 cred) q ref nonce check last in
    let c : Cell = record { addr = t.allocated; entry = e } in
    (
      ground arith,
      λ h. (
        ground (arith, lookup-put key key c t.transactions, bytes_eq_refl key),
        λ j ne. ground (arith, lookup-put key j c t.transactions, bytes_eq_iff key j),
      ),
      λ h. ground arith,
    )

-- The same for `set_issued`, which leaves the issued certificate for the confirmation.
pub set_issued-outcome :
    (sha256 : Bytes → Bytes) (cred txn : Bytes) (i : Issuance) (now : Time) (t : TransactionTracker)
    → let key = make_key sha256 cred txn in
      let r = set_issued sha256 cred txn i now t in
      (r.1 ≡ open_at (lookup key t.transactions))
      × (r.1 ≡ true
          → (get_issued sha256 cred txn r.0
              ≡ some (issued_entry now (make_credential_key sha256 cred) i))
            × ((j : Bytes) → key ≢ j → lookup j r.0.transactions ≡ lookup j t.transactions))
      × (r.1 ≡ false → r.0 ≡ t)
unfolding set_issued get_issued issued_entry store_entry
set_issued-outcome sha256 cred txn i now t =
    let key = make_key sha256 cred txn in
    let e = issued_entry now (make_credential_key sha256 cred) i in
    let c : Cell = record { addr = t.allocated; entry = e } in
    (
      ground arith,
      λ h. (
        ground (arith, lookup-put key key c t.transactions, bytes_eq_refl key),
        λ j ne. ground (arith, lookup-put key j c t.transactions, bytes_eq_iff key j),
      ),
      λ h. ground arith,
    )

-- A stored start had a free key.
start_if_absent-free :
    (sha256 : Bytes → Bytes) (cred txn : Bytes) (now : Time) (t : TransactionTracker)
    → (start_if_absent sha256 cred txn now t).1 ≡ ok false
    → lookup (make_key sha256 cred txn) t.transactions ≡ none
start_if_absent-free sha256 cred txn now t h =
    elim (start_if_absent-Started sha256 cred txn now t) [
      | stored absent _ _ _ ↦ absent
      | full _ e _ ↦ cc
      | credential_full _ e _ ↦ cc
      | existing _ e _ ↦ ground arith
    ]

closed_at :
    (sha256 : Bytes → Bytes) (cred txn : Bytes) (c : Cell) (u : TransactionTracker)
    → lookup (make_key sha256 cred txn) u.transactions ≡ some c
    → c.entry.state ≡ completed
    → (get_pending sha256 cred txn u ≡ none)
      × (get_issued sha256 cred txn u ≡ none)
      × ((e : TransactionEntry) → advance (make_key sha256 cred txn) e u ≡ (u, false))
      × ((later : Time) → (start_if_absent sha256 cred txn later u).1 ≢ ok false)
unfolding get_pending get_issued advance
closed_at sha256 cred txn c u h d = (
  ground arith,
  ground arith,
  λ e. ground arith,
  λ later started. cc (h, start_if_absent-free sha256 cred txn later u started),
)

-- A completed transaction stays in the table and is closed: no getter sees it, no transition leaves
-- it, and a start with its identifier is refused.
pub set_completed-closes :
    (sha256 : Bytes → Bytes) (cred txn : Bytes) (now : Time) (t : TransactionTracker)
    → is_some (lookup (make_key sha256 cred txn) t.transactions) ≡ true
    → let u = set_completed sha256 cred txn now t in
      (get_pending sha256 cred txn u ≡ none)
      × (get_issued sha256 cred txn u ≡ none)
      × ((e : TransactionEntry) → advance (make_key sha256 cred txn) e u ≡ (u, false))
      × ((later : Time) → (start_if_absent sha256 cred txn later u).1 ≢ ok false)
set_completed-closes sha256 cred txn now t h = elim (set_completed-cases sha256 cred txn now t) [
  | inl (e, _) ↦ cc e
  | inr (old, e, r) ↦ rw r (
      closed_at sha256 cred txn
        (record {
          addr = t.allocated;
          entry = record (old.entry) { state = completed; last_activity = now };
        })
        _ (rw (lookup-store_entry, bytes_eq_refl)) refl)
]
