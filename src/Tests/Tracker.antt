-- ===== src/Tests/Tracker.antt =====
-- server/transaction.go on small inputs.
use go_pkicmp_ng.Prelude.{
  ◌+◌, ◌≡◌, ◌≢◌, refl, true, false, none, some, [], ◌∷◌, Bytes, length, arith, put_uint32, bytes_eq,
}
use go_pkicmp_ng.Prelude.Int.{pos, ◌≤ℤ◌}
use go_pkicmp_ng.Prelude.Result.{ok, err}
use go_pkicmp_ng.Prelude.Assoc.{lookup, put}
use go_pkicmp_ng.Pkicmp.Types.{Time, Certificate, sha256_with_rsa}
use go_pkicmp_ng.Server.Entry.{
  pending, issued, blank, TransactionEntry, TransactionTracker, new_transaction_tracker,
}
use go_pkicmp_ng.Server.Tracker.{
  key_material, make_key, make_credential_key, advance, cleanup_expired, get_issued, cred_count,
  start_if_absent, set_pending, set_issued, set_completed, get_pending, delete, cleanup_entry,
  compare_and_swap, pending_entry, issued_entry, Issuance, per_credential_transactions,
}
use go_pkicmp_ng.Server.Tracker.Keys.{IsCollisionFree, make_key-injective}
use go_pkicmp_ng.Server.Tracker.Invariant.{owned}
use go_pkicmp_ng.Server.Tracker.Operations.{Started, start_if_absent-Started}
use go_pkicmp_ng.Server.Tracker.Steps.{here, next, start, wait, tracker_counts}
use go_pkicmp_ng.Server.Tracker.Transitions.{
  set_pending-outcome, set_issued-outcome, set_completed-closes, open_at,
}
use go_pkicmp_ng.Server.Tracker.Isolation.{release, ByCredential-isolated}
use go_pkicmp_ng.Server.Tracker.Cleanup.{
  cleanup_expired-exact, cleanup_entry-loses_issued, expired_issues, survivor,
}
use go_pkicmp_ng.Server.Tracker.Races.{System, sum, holds, begin, reserve}
use go_pkicmp_ng.Server.Tracker.Races.Limits
use go_pkicmp_ng.Server.Tracker.Races.Limits.{interleaved_limits}

-- A hash with no collision.
abbrev plain : Bytes → Bytes
plain b = b

plain-IsCollisionFree : IsCollisionFree plain
plain-IsCollisionFree a b e = e

abbrev alice : Bytes
alice = 65 ∷ []

abbrev bob : Bytes
bob = 66 ∷ []

abbrev txn : Bytes
txn = 1 ∷ 2 ∷ []

abbrev fresh : TransactionTracker
fresh = new_transaction_tracker (pos 2) (pos 1)

abbrev started : TransactionTracker
started = (start_if_absent plain alice txn 10 fresh).0

abbrev cert : Certificate
cert = record {
  raw = 48 ∷ [];
  raw_subject = 1 ∷ [];
  raw_issuer = 2 ∷ [];
  serial_number = some (pos 7);
  subject_key_id = 3 ∷ [];
  raw_subject_public_key_info = 4 ∷ [];
  signature_algorithm = sha256_with_rsa;
  public_key = none;
  not_before = 0;
  not_after = 1000;
  key_usage = 0;
  extensions = [];
  unhandled_critical_extensions = [];
  basic_constraints_valid = false;
  max_path_len = pos 0;
  max_path_len_zero = false;
}

start_runs :
    ((start_if_absent plain alice txn 10 fresh).1 ≡ ok false)
    × ((start_if_absent plain alice txn 11 started).1 ≡ err per_credential_transactions)
    × ((start_if_absent plain bob txn 11 started).1 ≡ ok false)
unfolding start_if_absent make_key make_credential_key key_material new_transaction_tracker
    put_uint32 lookup put bytes_eq
start_runs = (refl, refl, refl)

make_key-injective_example : (alice ≡ alice) × (txn ≡ txn)
make_key-injective_example =
    make_key-injective plain alice alice txn txn plain-IsCollisionFree (omega arith) (omega arith)
      (omega arith) (omega arith) refl

start_if_absent-Started_example :
    Started plain alice txn 10 fresh (start_if_absent plain alice txn 10 fresh)
start_if_absent-Started_example = start_if_absent-Started plain alice txn 10 fresh

abbrev waiting : TransactionTracker
waiting = (set_pending plain alice txn (pos 0) (9 ∷ []) (7 ∷ []) (pos 5) 0 20 started).0

tracker_counts_example :
    (waiting.count ≡ pos (length waiting.transactions))
    × (pos (length waiting.transactions) ≤ℤ pos 2)
    × ((ck : Bytes)
        → (cred_count ck waiting ≡ pos (owned ck waiting.transactions))
          × (pos (owned ck waiting.transactions) ≤ℤ pos 1))
tracker_counts_example =
    tracker_counts plain (pos 2) (pos 1) waiting plain-IsCollisionFree (omega arith) (omega arith) (
      next (next here (start alice txn 10 fresh (omega arith) (omega arith)))
        (wait alice txn (pos 0) (9 ∷ []) (7 ∷ []) (pos 5) 0 20 started (omega arith) (omega arith)))

set_pending-outcome_example :
    let r = set_pending plain alice txn (pos 0) (9 ∷ []) (7 ∷ []) (pos 5) 0 20 started in
    (r.1 ≡ open_at (lookup (make_key plain alice txn) started.transactions))
    × (r.1 ≡ true
        → (get_pending plain alice txn r.0
            ≡ some (
                pending_entry 20
                  (make_credential_key plain alice)
                  (pos 0)
                  (9 ∷ [])
                  (7 ∷ [])
                  (pos 5)
                  0))
          × ((j : Bytes)
              → make_key plain alice txn ≢ j
              → lookup j r.0.transactions ≡ lookup j started.transactions))
    × (r.1 ≡ false → r.0 ≡ started)
set_pending-outcome_example =
    set_pending-outcome plain alice txn (pos 0) (9 ∷ []) (7 ∷ []) (pos 5) 0 20 started

abbrev issuance : Issuance
issuance = record {
  req_type = pos 0;
  cert_req_id = pos 0;
  cert = cert;
  issue_ref = none;
  sender_nonce = 8 ∷ [];
  client_sender_nonce = 5 ∷ [];
  protection_params = none;
  algorithm = none;
}

set_issued-outcome_example :
    let r = set_issued plain alice txn issuance 30 started in
    (r.1 ≡ open_at (lookup (make_key plain alice txn) started.transactions))
    × (r.1 ≡ true
        → (get_issued plain alice txn r.0
            ≡ some (issued_entry 30 (make_credential_key plain alice) issuance))
          × ((j : Bytes)
              → make_key plain alice txn ≢ j
              → lookup j r.0.transactions ≡ lookup j started.transactions))
    × (r.1 ≡ false → r.0 ≡ started)
set_issued-outcome_example = set_issued-outcome plain alice txn issuance 30 started

set_completed-closes_example :
    let u = set_completed plain alice txn 40 started in
    (get_pending plain alice txn u ≡ none)
    × (get_issued plain alice txn u ≡ none)
    × ((e : TransactionEntry) → advance (make_key plain alice txn) e u ≡ (u, false))
    × ((later : Time) → (start_if_absent plain alice txn later u).1 ≢ ok false)
unfolding start_if_absent make_key make_credential_key key_material new_transaction_tracker
    put_uint32 lookup put bytes_eq
set_completed-closes_example = set_completed-closes plain alice txn 40 started refl

ByCredential-isolated_example :
    lookup (make_key plain alice txn) (delete plain bob txn started).transactions
    ≡ lookup (make_key plain alice txn) started.transactions
unfolding start_if_absent make_key make_credential_key key_material new_transaction_tracker
    put_uint32 lookup put bytes_eq
ByCredential-isolated_example =
    ByCredential-isolated plain bob alice txn started (delete plain bob txn started)
      plain-IsCollisionFree (omega arith) (omega arith) (omega arith) (refl, tt) (λ e. ground arith)
      (release txn (omega arith))

cleanup_expired-exact_example :
    ((cleanup_expired (pos 5) 100 started).1 ≡ expired_issues (pos 5) 100 started.transactions)
    × ((j : Bytes)
        → lookup j (cleanup_expired (pos 5) 100 started).0.transactions
          ≡ survivor (pos 5) 100 (lookup j started.transactions))
unfolding start_if_absent make_key make_credential_key key_material new_transaction_tracker
    put_uint32 lookup put bytes_eq
cleanup_expired-exact_example = cleanup_expired-exact (pos 5) 100 started (refl, tt)

abbrev key : Bytes
key = 1 ∷ []

abbrev old_entry : TransactionEntry
old_entry = blank pending 10 alice

abbrev held : TransactionTracker
held = record fresh {
  transactions = (key, record { addr = 0; entry = old_entry }) ∷ [];
  allocated = 1;
}

cleanup_entry-loses_issued_example :
    let u = compare_and_swap key 0 (blank issued 100 alice) held in
    let r = cleanup_entry (pos 5) 100 key (record { addr = 0; entry = old_entry }) u.0 in
    (u.1 ≡ true) × (lookup key r.0.transactions ≡ none) × (r.1 ≡ [])
unfolding new_transaction_tracker lookup bytes_eq
cleanup_entry-loses_issued_example =
    cleanup_entry-loses_issued (pos 5) 100 key (record { addr = 0; entry = old_entry })
      (blank issued 100 alice) held (refl, tt) refl refl refl refl

interleaved_limits_example :
    let u : System = record {
      tracker = (reserve key alice 10 fresh).0;
      threads = (reserve key alice 10 fresh).1 ∷ [];
    } in
    (u.tracker.count ≡ pos (length u.tracker.transactions + sum holds u.threads))
    × (pos (length u.tracker.transactions) ≤ℤ pos 2)
    × ((ck : Bytes) → pos (owned ck u.tracker.transactions) ≤ℤ pos 1)
interleaved_limits_example =
    interleaved_limits (pos 2) (pos 1) _ (omega arith) (omega arith)
      (Limits.next Limits.here (begin key alice 10))
