-- ===== src/Tests/Fixtures.antt =====
-- Test data for the handlers: the environment, its configuration, its CA and a request.
use go_pkicmp_ng.Prelude.{true, false, Option, none, some, [], ◌∷◌, Bytes, bytes_eq, text}
use go_pkicmp_ng.Prelude.Int.{pos}
use go_pkicmp_ng.Prelude.Result.{ok}
use go_pkicmp_ng.Pkicmp.Types.{
  Opaque, RdnSequence, Certificate, AlgorithmIdentifier, sha256_with_rsa,
}
use go_pkicmp_ng.Pkicmp.Algorithms.{Hashes}
use go_pkicmp_ng.Pkicmp.Pop.{KeyLibrary}
use go_pkicmp_ng.Pkicmp.Message.{
  Request, PkiHeader, GeneralName, Content, ir, rr, CertReqMsg, CertTemplate,
}
use go_pkicmp_ng.Server.Entry.{new_transaction_tracker}
use go_pkicmp_ng.Server.Tracker.{start_if_absent}
use go_pkicmp_ng.Server.Config.{
  Env, Config, SenderIdentity, HandlerContext, Handler, Response, csr_valid,
}
use go_pkicmp_ng.Server.Response.{Reading, Reply, no_name, pki_conf, unprotected}
use go_pkicmp_ng.Server.State.{State, Inputs, Outcome, answered, panicked}
use go_pkicmp_ng.Server.Protection.{Access}
use go_pkicmp_ng.Server.Ca.{Ca}

abbrev pub hashes : Hashes
hashes = record { available = λ h. true; digest = λ h b. b; composite_pre_hash = λ b. none }

-- A key is the first byte of its encoding, and its signature is that byte.
abbrev first : Bytes → Option Opaque
first [] = none
first (b ∷ _) = some b

abbrev encoded : Option Opaque → Option Bytes
encoded none = none
encoded (some k) = some (k ∷ [])

abbrev pub key_library : KeyLibrary
key_library = record {
  parse_public_key = first;
  marshal_public_key = encoded;
  keys_equal = λ a b. false;
  composite_from_oid = λ oid. none;
  composite_of_key = λ k. none;
  composite_verify = λ k m s. false;
  check_signature = λ k a m s. bytes_eq s (k ∷ []);
}

abbrev nobody : RdnSequence
nobody = []

abbrev somebody : RdnSequence
somebody = (((2 ∷ 5 ∷ 4 ∷ 3 ∷ []), 1) ∷ []) ∷ []

abbrev pub env : Env
env = record {
  sha256 = λ b. b;
  sha1 = λ b. b;
  rdn_string = λ n. text "CN=a";
  name_string = λ n. text "CN=a";
  hashes = hashes;
  mac_protects = λ s p. true;
  signer_protects = true;
  key_library = key_library;
  check_csr_signature = λ c. csr_valid;
  unmarshal_extensions = λ b. none;
  unmarshal_name = λ b. some (somebody, []);
  unmarshal_basic_constraints = λ b. none;
  unmarshal_enumerated = λ b. none;
  pop_error_text = λ e. [];
  parse_error_text = λ b. [];
  marshal_error_text = λ k. [];
  error_string = λ s f t. t;
}

abbrev pub cfg : Config
cfg = record {
  signer_cert = none;
  extra_certs = [];
  sender = record { common_name = []; organization = []; text = [] };
  confirm_wait = pos 10000000000;
  implicit_confirm = false;
  strict_profile = false;
  allow_sha1_signatures = false;
  message_time_tolerance = pos 0;
  has_confirmer = false;
  has_signer_creds = true;
  signer_err = false;
}

abbrev pub context : HandlerContext
context = record {
  poll_ref = none;
  issued_cert = none;
  issue_ref = none;
  allow_sha1_signatures = false;
}

abbrev pub cert : Certificate
cert = record {
  raw = 48 ∷ 1 ∷ [];
  raw_subject = 48 ∷ 2 ∷ [];
  raw_issuer = 48 ∷ 3 ∷ [];
  serial_number = some (pos 77);
  subject_key_id = [];
  raw_subject_public_key_info = 5 ∷ [];
  signature_algorithm = sha256_with_rsa;
  public_key = some 5;
  not_before = 0;
  not_after = 1000;
  key_usage = 0;
  extensions = [];
  unhandled_critical_extensions = [];
  basic_constraints_valid = false;
  max_path_len = pos 0;
  max_path_len_zero = false;
}

abbrev pub name : GeneralName
name = record { directory_name = somebody; raw = [] }

abbrev pub rsa : AlgorithmIdentifier
rsa = record { algorithm = 1 ∷ 2 ∷ 840 ∷ 113549 ∷ 1 ∷ 1 ∷ 11 ∷ []; parameters = [] }

abbrev pub header : PkiHeader
header = record {
  pvno = pos 2;
  sender = name;
  recipient = name;
  message_time = 0;
  message_time_present = false;
  protection_alg = some rsa;
  sender_kid = [];
  transaction_id = 7 ∷ 7 ∷ [];
  sender_nonce = 1 ∷ 2 ∷ [];
  recip_nonce = [];
  general_info = [];
}

abbrev pub template : CertTemplate
template = record {
  serial_number = some (pos 77);
  issuer = 48 ∷ 3 ∷ [];
  subject = somebody;
  public_key = 5 ∷ [];
  extensions = [];
}

abbrev pub message : CertReqMsg
message = record {
  cert_req_id = pos 0;
  cert_template = template;
  cert_req_raw = 48 ∷ 0 ∷ [];
  popo = some (record {
    ra_verified = false;
    signature = some (record { algorithm = rsa; signature = 5 ∷ [] });
  });
}

abbrev pub request : Request
request = record {
  header = header;
  content = ir (some (message ∷ []));
  protection = 1 ∷ [];
  extra_certs = [];
}

abbrev pub revocation : Content
revocation = rr (
    some (
      record { cert_details = record template { subject = nobody }; crl_entry_extensions = some [] }
      ∷ []))

abbrev pub sender : SenderIdentity
sender = record {
  identity = record {
    certificate = some cert;
    sender_name = somebody;
    sender_kid = [];
    mac_verified = false;
    secret = [];
    protection_params = none;
    header_sender = record { directory_name = []; raw = [] };
  };
  ra = none;
}

abbrev pub reading : Reading
reading = record { now = 100; nonce = 9 ∷ 9 ∷ [] }

abbrev pub inputs : Inputs
inputs = record {
  assigned_id = 8 ∷ [];
  checked = 100;
  started = 100;
  polled = 100;
  poll_recorded = 100;
  stored = 100;
  reply = reading;
  error_reply = reading;
}

abbrev pub empty_state : State
empty_state = record { tracker = new_transaction_tracker (pos 10) (pos 5); log = [] }

-- The transaction of the request has begun.
abbrev pub begun : State
begun = record {
  tracker = (start_if_absent env.sha256 cert.raw header.transaction_id 100 empty_state.tracker).0;
  log = [];
}

abbrev pub response : Response
response = record { certificate = some cert; ca_certs = []; waiting = none; issue_ref = none }

-- A handler that always issues.
abbrev pub issuing : Handler
issuing ctx req s log = (ok (some response), log)

abbrev pub ca : Ca
ca = record {
  issue = λ q t s log. ok (some response);
  pending_checker = none;
  confirmer = none;
  revoker = some (λ r s log. ok tt);
  revocation_authorizer = none;
}

abbrev pub access : Access
access = record {
  secret_lookup = none;
  certificate_lookup = some (λ i n k. some cert);
  ra_authorizer = some (λ ra r s. ok tt);
  verify_mac = λ r s. ok none;
  verify_signature = λ r c a. ok tt;
  parse_certificate = λ b. none;
  signed_by = λ c d. false;
  subject_text = λ c. [];
}

-- The reply of an outcome, where there is one.
abbrev pub reply_of : Outcome → Reply
reply_of (answered r) = r
reply_of panicked = record {
  pvno = pos 0;
  sender = no_name;
  recipient = name;
  message_time = 0;
  sender_kid = [];
  transaction_id = [];
  sender_nonce = [];
  recip_nonce = [];
  general_info = [];
  extra_certs = [];
  body = pki_conf;
  protection = unprotected;
}
