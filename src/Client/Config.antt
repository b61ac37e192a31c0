-- ===== src/Client/Config.antt =====
-- client/client.go and errors.go: the client's settings, the messages that it sends and receives, its
-- errors, and what it asks of the network and of the libraries.
use go_pkicmp_ng.Prelude.{ℕ, Bool, Option, List, Bytes}
use go_pkicmp_ng.Prelude.Int.{ℤ}
use go_pkicmp_ng.Pkicmp.Types.{Time, Opaque, Certificate}
use go_pkicmp_ng.Pkicmp.Errors.{Failure}
use go_pkicmp_ng.Pkicmp.Status.{PkiStatusInfo, StatusError}
use go_pkicmp_ng.Pkicmp.Algorithms.{Hashes}
use go_pkicmp_ng.Pkicmp.Algorithms.Confirmation.{CertStatus}
use go_pkicmp_ng.Pkicmp.Message.{PkiHeader}
use go_pkicmp_ng.Pkicmp.Pop.{KeyLibrary}
use go_pkicmp_ng.Pkicmp.Protect.{PkiMessage, MacLibrary}
use go_pkicmp_ng.Pkicmp.Verify.{ProtectionMechanism, CertificateLibrary}

-- `Client`; spans of time are in nanoseconds, and no option makes one negative.
pub record Client : Type 0 where
  pub trusted_cas : Option Opaque
  pub server_certs : List Certificate
  pub response_protection : ProtectionMechanism
  pub max_response_bytes : ℤ
  pub max_polls : ℤ
  pub min_check_after : ℕ
  pub max_check_after : ℕ
  pub allow_sha1_signatures : Bool

-- `CertResponse`: the certificate is none where the pair is missing, and `some none` when encrypted.
pub record CertResponse : Type 0 where
  pub cert_req_id : ℤ
  pub status : PkiStatusInfo
  pub certified_key_pair : Option (Option Bytes)

-- `CertRepMessage`
pub record CertRepMessage : Type 0 where
  pub ca_pubs : List Bytes
  pub response : List CertResponse

-- The bodies that a client reads, each by the result of its accessor; a pollRep by its checkAfters.
pub data Reply : Type 0 where
  ip cp kup : Option CertRepMessage → Reply
  rp : Option (List PkiStatusInfo) → Reply
  poll_rep : Option (List ℤ) → Reply
  error_reply : Option PkiStatusInfo → Reply
  pki_conf : Reply
  other_reply : ℕ → Reply

-- A response that was parsed (`cmpHTTPResponse`): the message, its body, its HTTP status.
pub record Received : Type 0 where
  pub message : PkiMessage
  pub reply : Reply
  pub status_code : ℕ

-- The bodies that a client sends; those that begin an operation by the certReqIds that they carry.
pub data Outgoing : Type 0 where
  cert_request : Option (List ℤ) → Outgoing
  p10cr_request : Outgoing
  rev_request : Outgoing
  poll_request : ℤ → Outgoing
  cert_confirm : CertStatus → Outgoing

pub record Sent : Type 0 where
  pub header : PkiHeader
  pub body : Outgoing
  pub protection : Bytes

-- What a client does, newest first in a log: it sends a message, or waits before a poll.
pub data Event : Type 0 where
  sent : Sent → Event
  waited : ℕ → Event

-- The ends without a value: a failed step (`Error`), a status, an HTTP status around an error, the
-- unverified status of an error message, and a refusal of which the CA was not told. With `no_error` the
-- code returns neither a value nor an error, with `nil_dereference` it panics.
pub data Step : Type 0 where
  read_cert_req_id protect_message marshal_message http_request read_response response_too_large :
      Step
  content_type parse_response transaction_id_mismatch recipient_nonce_mismatch : Step
  missing_protection_alg protocol_version body_type bad_content empty_response many_responses : Step
  cert_req_id_mismatch missing_key_pair encrypted_certificate bad_certificate certificate_trust :
      Step
  issued_key compute_cert_hash waiting_cancelled polls_exceeded no_credentials : Step

pub data ClientError : Type 0 where
  failed : Step → ClientError
  verification : Failure → ClientError
  status : StatusError → ClientError
  no_error nil_dereference : ClientError
  http_status : ℕ → ClientError
  with_http_status : ℕ → ClientError → ClientError
  unverified_status : PkiStatusInfo → ClientError → ClientError
  not_confirmed : ClientError → ClientError → ClientError

-- The answer of net/http: its status, whether mime reads its media type as that of CMP, its body.
pub record HttpReply : Type 0 where
  pub status_code : ℕ
  pub is_cmp : Bool
  pub body : Bytes

-- `Credentials`: the protection of a message, and the secret of those that have one.
pub record Credentials : Type 0 where
  pub protect : Sent → Option Sent
  pub shared_secret : Bytes

-- The network, the clock, the random source and the libraries. The log holds all that was sent, so a
-- server may answer as it likes; the numbers drawn depend on it too.
pub record Env : Type 0 where
  pub mac : MacLibrary
  pub keys : KeyLibrary
  pub certs : CertificateLibrary
  pub hashes : Hashes
  pub marshals : Sent → Bool
  pub transport : List Event → Option HttpReply
  pub parse : Bytes → Option (PkiMessage × Reply)
  pub now : List Event → Time
  pub fresh_transaction_id : List Event → Bytes
  pub fresh_nonce : List Event → Bytes
  pub cancelled : List Event → Bool
  -- a clone of the pool, or a new one, with more certificates
  pub add_certs : Option Opaque → List Certificate → Opaque
