-- ===== src/Server/Entry.antt =====
-- server/transaction.go: the state of a transaction, its entry, and the tracker that holds the
-- entries. A cell carries the address of its entry, since the source compares pointers.
use go_pkicmp_ng.Prelude.{ℕ, Option, none, [], Bytes}
use go_pkicmp_ng.Prelude.Int.{ℤ, pos}
use go_pkicmp_ng.Prelude.Assoc.{Assoc}
use go_pkicmp_ng.Pkicmp.Types.{Time, Duration, Opaque, Certificate, AlgorithmIdentifier}

pub data TxnState : Type 0 where
  active pending issued completed : TxnState

-- `RequestType` is an int: IR 0, CR 2, P10CR 4, KUR 7.
abbrev pub RequestType : Type 0
RequestType = ℤ

pub record TransactionEntry : Type 0 where
  pub state : TxnState
  pub last_activity : Time
  pub credential_key : Bytes
  pub req_type : RequestType
  pub poll_ref : Bytes
  pub sender_nonce : Bytes
  pub last_poll_time : Time
  pub check_after : Duration
  pub cert_req_id : Option ℤ
  pub cert : Option Certificate
  pub issue_ref : Option Opaque
  pub issued_sender_nonce : Bytes
  pub client_sender_nonce : Bytes
  pub protection_algorithm : Option AlgorithmIdentifier
  pub protection_params : Option Opaque

-- The entry with nothing but what every transition sets; Go leaves the other fields zero.
abbrev pub blank : TxnState → Time → Bytes → TransactionEntry
blank st now ck = record {
  state = st;
  last_activity = now;
  credential_key = ck;
  req_type = pos 0;
  poll_ref = [];
  sender_nonce = [];
  last_poll_time = 0;
  check_after = pos 0;
  cert_req_id = none;
  cert = none;
  issue_ref = none;
  issued_sender_nonce = [];
  client_sender_nonce = [];
  protection_algorithm = none;
  protection_params = none;
}

-- `*transactionEntry`
pub record Cell : Type 0 where
  pub addr : ℕ
  pub entry : TransactionEntry

pub record TransactionTracker : Type 0 where
  pub transactions : Assoc Cell
  pub count : ℤ
  pub max_transactions : ℤ
  pub credential_counts : Assoc ℤ
  pub max_transactions_per_credential : ℤ
  -- the addresses below this one have been handed out
  pub allocated : ℕ

unfoldable pub new_transaction_tracker : ℤ → ℤ → TransactionTracker
new_transaction_tracker max_txn max_per_cred = record {
  transactions = [];
  count = pos 0;
  max_transactions = max_txn;
  credential_counts = [];
  max_transactions_per_credential = max_per_cred;
  allocated = 0;
}
