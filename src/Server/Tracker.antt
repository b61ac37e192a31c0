-- ===== src/Server/Tracker.antt =====
-- server/transaction.go: the operations of the transaction tracker. An operation returns the new
-- tracker and its result. `CompareAndSwap` on `*transactionEntry` compares addresses.
pub mod Keys
pub mod Invariant
pub mod Valid
pub mod Operations
pub mod Cleanup
pub mod Steps
pub mod Transitions
pub mod Isolation
pub mod Races
use go_pkicmp_ng.Prelude.{
  ℕ, suc, ◌+◌, Bool, true, false, Option, none, some, List, [], ◌∷◌, ◌++◌, Bytes, put_uint32,
  length, ltb, ◌==◌, if◌then◌else◌,
}
use go_pkicmp_ng.Prelude.Int.{ℤ, pos, incr, decr, pos_part, neg_part, ltb_ℤ}
use go_pkicmp_ng.Prelude.Assoc.{Assoc, lookup, put, remove}
use go_pkicmp_ng.Prelude.Result.{Result, ok, err}
use go_pkicmp_ng.Server.Entry.{
  TxnState, active, pending, issued, completed, RequestType, TransactionEntry, blank, Cell,
  TransactionTracker, new_transaction_tracker,
}
use go_pkicmp_ng.Pkicmp.Types.{Time, Duration, Opaque, Certificate, AlgorithmIdentifier}

-- What `makeKey` hands to the hash.
unfoldable pub key_material : Bytes → Bytes → Bytes
key_material credential_id transaction_id =
    put_uint32 (length credential_id)
    ++ (credential_id ++ (put_uint32 (length transaction_id) ++ transaction_id))

unfoldable pub make_key : (Bytes → Bytes) → Bytes → Bytes → Bytes
make_key sha256 credential_id transaction_id = sha256 (key_material credential_id transaction_id)

unfoldable pub make_credential_key : (Bytes → Bytes) → Bytes → Bytes
make_credential_key sha256 credential_id = sha256 credential_id

-- The counter behind a credential key. `getOrCreateCredCount` creates it at zero.
abbrev pub counter : Option ℤ → ℤ
counter none = pos 0
counter (some n) = n

unfoldable pub cred_count : Bytes → TransactionTracker → ℤ
cred_count ck t = counter (lookup ck t.credential_counts)

-- `getOrCreateCredCount(ck).Add(±1)`
unfoldable pub add_cred : (ℤ → ℤ) → Bytes → TransactionTracker → TransactionTracker
unfolding cred_count
add_cred f ck t = record t { credential_counts = put ck (f (cred_count ck t)) t.credential_counts }

unfoldable pub add_count : (ℤ → ℤ) → TransactionTracker → TransactionTracker
add_count f t = record t { count = f t.count }

-- A fresh entry under a key.
unfoldable pub store_entry : Bytes → TransactionEntry → TransactionTracker → TransactionTracker
store_entry key e t = record t {
  transactions = put key (record { addr = t.allocated; entry = e }) t.transactions;
  allocated = suc t.allocated;
}

pub data StartError : Type 0 where
  maximum_transactions per_credential_transactions : StartError

-- The last step of `startIfAbsent`: `LoadOrStore`, and the release of what was reserved.
unfoldable pub load_or_store :
    Bytes → Bytes → Time → TransactionTracker → TransactionTracker × Result StartError Bool
unfolding add_cred add_count store_entry
load_or_store key ck now t = elim (lookup key t.transactions) [
  | some _ ↦ (add_count decr (add_cred decr ck t), ok true)
  | none ↦ (store_entry key (blank active now ck) t, ok false)
]

-- Whether the transaction already existed.
unfoldable pub start_if_absent :
    (Bytes → Bytes)
    → Bytes
    → Bytes
    → Time
    → TransactionTracker
    → TransactionTracker × Result StartError Bool
unfolding load_or_store add_cred add_count
start_if_absent sha256 credential_id transaction_id now t =
    let ck = make_credential_key sha256 credential_id in
    let t1 = add_count incr t in
    if ltb_ℤ t.max_transactions t1.count
    then (add_count decr t1, err maximum_transactions)
    else let t2 = add_cred incr ck t1 in
      if ltb_ℤ t.max_transactions_per_credential (cred_count ck t2)
      then (add_count decr (add_cred decr ck t2), err per_credential_transactions)
      else load_or_store (make_key sha256 credential_id transaction_id) ck now t2

-- `CompareAndSwap(key, old, new)`
unfoldable pub compare_and_swap :
    Bytes → ℕ → TransactionEntry → TransactionTracker → TransactionTracker × Bool
unfolding store_entry
compare_and_swap key old e t = elim (lookup key t.transactions) [
  | none ↦ (t, false)
  | some cur ↦ if cur.addr == old then (store_entry key e t, true) else (t, false)
]

-- The states from which a request is answered.
abbrev pub is_open : TxnState → Bool
is_open active = true
is_open pending = true
is_open _ = false

-- Loads the entry, checks its state and swaps in the next one.
unfoldable pub advance : Bytes → TransactionEntry → TransactionTracker → TransactionTracker × Bool
unfolding compare_and_swap
advance key e t = elim (lookup key t.transactions) [
  | none ↦ (t, false)
  | some old ↦ if is_open old.entry.state then compare_and_swap key old.addr e t else (t, false)
]

unfoldable pub pending_entry :
    Time → Bytes → RequestType → Bytes → Bytes → Duration → Time → TransactionEntry
pending_entry now ck req_type poll_ref nonce check last_poll = record (blank pending now ck) {
  req_type = req_type;
  poll_ref = poll_ref;
  sender_nonce = nonce;
  last_poll_time = last_poll;
  check_after = check;
}

unfoldable pub set_pending :
    (Bytes → Bytes)
    → Bytes
    → Bytes
    → RequestType
    → Bytes
    → Bytes
    → Duration
    → Time
    → Time
    → TransactionTracker
    → TransactionTracker × Bool
unfolding advance pending_entry
set_pending sha256 credential_id transaction_id req_type poll_ref nonce check last_poll now t =
    advance (make_key sha256 credential_id transaction_id)
      (pending_entry now (make_credential_key sha256 credential_id) req_type poll_ref nonce check
        last_poll)
      t

abbrev pub when_pending : Option Cell → Option TransactionEntry
when_pending none = none
when_pending (some c) = elim c.entry.state [ pending ↦ some c.entry | _ ↦ none ]

abbrev pub when_issued : Option Cell → Option TransactionEntry
when_issued none = none
when_issued (some c) = elim c.entry.state [ issued ↦ some c.entry | _ ↦ none ]

unfoldable pub get_pending :
    (Bytes → Bytes) → Bytes → Bytes → TransactionTracker → Option TransactionEntry
get_pending sha256 credential_id transaction_id t =
    when_pending (lookup (make_key sha256 credential_id transaction_id) t.transactions)

unfoldable pub get_issued :
    (Bytes → Bytes) → Bytes → Bytes → TransactionTracker → Option TransactionEntry
get_issued sha256 credential_id transaction_id t =
    when_issued (lookup (make_key sha256 credential_id transaction_id) t.transactions)

-- What `setIssued` records of an issuance.
pub record Issuance : Type 0 where
  pub req_type : RequestType
  pub cert_req_id : ℤ
  pub cert : Certificate
  pub issue_ref : Option Opaque
  pub sender_nonce : Bytes
  pub client_sender_nonce : Bytes
  pub protection_params : Option Opaque
  pub algorithm : Option AlgorithmIdentifier

unfoldable pub issued_entry : Time → Bytes → Issuance → TransactionEntry
issued_entry now ck i = record (blank issued now ck) {
  req_type = i.req_type;
  cert_req_id = some i.cert_req_id;
  cert = some i.cert;
  issue_ref = i.issue_ref;
  issued_sender_nonce = i.sender_nonce;
  client_sender_nonce = i.client_sender_nonce;
  protection_algorithm = i.algorithm;
  protection_params = i.protection_params;
}

unfoldable pub set_issued :
    (Bytes → Bytes)
    → Bytes
    → Bytes
    → Issuance
    → Time
    → TransactionTracker
    → TransactionTracker × Bool
unfolding advance issued_entry
set_issued sha256 credential_id transaction_id i now t =
    advance (make_key sha256 credential_id transaction_id)
      (issued_entry now (make_credential_key sha256 credential_id) i) t

-- One round of the loop of `setCompleted`, and whether the loop ends with it.
unfoldable pub complete_round : Bytes → Time → TransactionTracker → TransactionTracker × Bool
unfolding compare_and_swap
complete_round key now t = elim (lookup key t.transactions) [
  | none ↦ (t, true)
  | some old ↦
      compare_and_swap key old.addr (record (old.entry) { state = completed; last_activity = now })
        t
]

-- With no other goroutine between its load and its swap the loop ends in its first round
-- (`complete_round_ends`); the races are those of `Server.Tracker.Races`.
unfoldable pub set_completed :
    (Bytes → Bytes) → Bytes → Bytes → Time → TransactionTracker → TransactionTracker
unfolding complete_round
set_completed sha256 credential_id transaction_id now t =
    (complete_round (make_key sha256 credential_id transaction_id) now t).0

-- `LoadAndDelete`, and the release of the capacity that the entry held.
unfoldable pub drop_entry : Bytes → TransactionTracker → TransactionTracker
unfolding add_cred add_count
drop_entry key t = elim (lookup key t.transactions) [
  | none ↦ t
  | some c ↦
      add_cred decr c.entry.credential_key
        (add_count decr (record t { transactions = remove key t.transactions }))
]

unfoldable pub delete : (Bytes → Bytes) → Bytes → Bytes → TransactionTracker → TransactionTracker
unfolding drop_entry
delete sha256 credential_id transaction_id =
    drop_entry (make_key sha256 credential_id transaction_id)

pub record ExpiredIssued : Type 0 where
  pub cert : Certificate
  pub issue_ref : Option Opaque

-- What an expired entry adds to the result: an issued certificate that was never confirmed.
abbrev pub expired_issue : TransactionEntry → List ExpiredIssued
expired_issue e = elim e.state [
  | issued ↦ elim e.cert [ none ↦ [] | some c ↦ record { cert = c; issue_ref = e.issue_ref } ∷ [] ]
  | _ ↦ []
]

-- `entry.lastActivity.Before(now - maxAge)`
abbrev pub is_expired : Duration → Time → TransactionEntry → Bool
is_expired max_age now e = ltb (e.last_activity + pos_part max_age) (now + neg_part max_age)

-- The body of the range loop, on one entry that it visits. The credential whose place is released is
-- read from the deleted entry: the entries of one key have one credential.
unfoldable pub cleanup_entry :
    Duration → Time → Bytes → Cell → TransactionTracker → TransactionTracker × List ExpiredIssued
unfolding drop_entry
cleanup_entry max_age now key c t =
    if is_expired max_age now c.entry
    then elim (lookup key t.transactions) [
      | none ↦ (t, [])
      | some _ ↦ (drop_entry key t, expired_issue c.entry)
    ]
    else (t, [])

unfoldable pub cleanup_range :
    Duration → Time → Assoc Cell → TransactionTracker → TransactionTracker × List ExpiredIssued
unfolding cleanup_entry
cleanup_range max_age now [] t = (t, [])
cleanup_range max_age now ((key, c) ∷ rest) t =
    let (t', found) = cleanup_entry max_age now key c t in
    let (t'', more) = cleanup_range max_age now rest t' in (t'', found ++ more)

unfoldable pub cleanup_expired :
    Duration → Time → TransactionTracker → TransactionTracker × List ExpiredIssued
unfolding cleanup_range
cleanup_expired max_age now t =
    if ltb_ℤ (pos 0) max_age then cleanup_range max_age now t.transactions t else (t, [])
