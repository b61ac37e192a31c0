-- ===== src/Server/Config.antt =====
-- server/options.go, handler.go, errors.go and ca.go: the configuration, the sender of a request, the
-- interface of a handler, and what the server takes from other packages.
use go_pkicmp_ng.Prelude.{
  Bool, Option, none, some, List, [], ◌∷◌, ◌++◌, Bytes, put_uint32, length, is_empty, text,
  if◌then◌else◌,
}
use go_pkicmp_ng.Prelude.Int.{ℤ}
use go_pkicmp_ng.Prelude.Result.{Result}
use go_pkicmp_ng.Pkicmp.Types.{RdnSequence, Duration, Opaque, Certificate, Extension}
use go_pkicmp_ng.Pkicmp.Status.{
  PkiStatus, FailInfo, PkiStatusInfo, status_rejection, fail_system_failure,
}
use go_pkicmp_ng.Pkicmp.Algorithms.{Hashes}
use go_pkicmp_ng.Pkicmp.Pop.{KeyLibrary, PopError}
use go_pkicmp_ng.Pkicmp.Message.{GeneralName, Request, Csr}
use go_pkicmp_ng.Server.Entry.{RequestType}

-- `basicConstraints` of certrequest.go, as its decoder fills it.
pub record BasicConstraints : Type 0 where
  pub is_ca : Bool
  pub max_path_len : ℤ

-- `pkix.Name`: the two fields that the server tests, and its text.
pub record Name : Type 0 where
  pub common_name : Bytes
  pub organization : List Bytes
  pub text : Bytes

-- What `compositex509.CheckCertificateRequestSignature` finds.
pub data CsrCheck : Type 0 where
  csr_valid csr_unsupported : CsrCheck
  csr_invalid : Bytes → CsrCheck

-- Functions of the standard library and of the composite key library. A public key is a value that
-- the code hands back to them.
pub record Env : Type 0 where
  pub sha256 : Bytes → Bytes
  pub sha1 : Bytes → Bytes
  -- `pkix.RDNSequence.String`, and `pkix.Name.String` after `FillFromRDNSequence`
  pub rdn_string : RdnSequence → Bytes
  pub name_string : RdnSequence → Bytes
  pub hashes : Hashes
  -- whether the credentials can be made and can protect a message
  pub mac_protects : Bytes → Option Opaque → Bool
  pub signer_protects : Bool
  pub key_library : KeyLibrary
  pub open key_library use *
  pub check_csr_signature : Csr → CsrCheck
  -- `asn1.Unmarshal` into extensions (what follows is ignored or not), names, BasicConstraints, a
  -- reason code
  pub unmarshal_extensions : Bytes → Option (List Extension × Bytes)
  pub unmarshal_name : Bytes → Option (RdnSequence × Bytes)
  pub unmarshal_basic_constraints : Bytes → Option (BasicConstraints × Bytes)
  pub unmarshal_enumerated : Bytes → Option (ℤ × Bytes)
  -- the texts of errors: of a proof of possession, of the parser of a key, of the encoder of a key,
  -- of a server error
  pub pop_error_text : PopError → Bytes
  pub parse_error_text : Bytes → Bytes
  pub marshal_error_text : Option Opaque → Bytes
  pub error_string : PkiStatus → FailInfo → Bytes → Bytes

-- A sender without the registration authority that forwarded its request.
pub record Identity : Type 0 where
  pub certificate : Option Certificate
  pub sender_name : RdnSequence
  pub sender_kid : Bytes
  pub mac_verified : Bool
  pub secret : Bytes
  pub protection_params : Option Opaque
  pub header_sender : GeneralName

-- `SenderIdentity`
pub record SenderIdentity : Type 0 where
  pub identity : Identity
  pub open identity use *
  pub ra : Option Identity

-- `senderNameKey`
unfoldable pub sender_name_key : Env → GeneralName → Bytes
sender_name_key env name =
    if is_empty name.directory_name
    then name.raw
    else text "dn:" ++ env.rdn_string name.directory_name

-- `writeLengthPrefixed`
unfoldable pub length_prefixed : Bytes → Bytes
length_prefixed b = put_uint32 (length b) ++ b

abbrev certificate_id : (Bytes → Bytes) → Option Certificate → Option Bytes
certificate_id sha256 none = none
certificate_id sha256 (some c) = some (sha256 c.raw)

-- `credentialID`, which fails on a sender without credentials.
unfoldable pub credential_id : Env → SenderIdentity → Option Bytes
unfolding sender_name_key length_prefixed
credential_id env s =
    if s.mac_verified
    then some (
        env.sha256 (
          text "cmp-mac"
          ++ (length_prefixed s.sender_kid
              ++ length_prefixed (sender_name_key env s.header_sender))))
    else certificate_id env.sha256 s.certificate

-- `*Error`, and any other error of a handler.
pub record ServerError : Type 0 where
  pub status : PkiStatus
  pub failure_info : FailInfo
  pub status_text : Bytes

pub data HandlerError : Type 0 where
  server_error : ServerError → HandlerError
  internal : HandlerError

unfoldable pub rejection : FailInfo → Bytes → ServerError
rejection f text = record { status = status_rejection; failure_info = f; status_text = text }

abbrev pub text_list : Bytes → List Bytes
text_list t = if is_empty t then [] else t ∷ []

unfoldable pub error_to_status_info : HandlerError → PkiStatusInfo
error_to_status_info (server_error e) = record {
  status = e.status;
  status_string = text_list e.status_text;
  fail_info = e.failure_info;
}
error_to_status_info internal = record {
  status = status_rejection;
  status_string = [];
  fail_info = fail_system_failure;
}

pub record WaitingResponse : Type 0 where
  pub check_after : Duration
  pub reason : Bytes
  pub poll_ref : Bytes

-- `Response` of a handler.
pub record Response : Type 0 where
  pub certificate : Option Certificate
  pub ca_certs : List Certificate
  pub waiting : Option WaitingResponse
  pub issue_ref : Option Opaque

pub data ConfirmStatus : Type 0 where
  confirm_accepted confirm_rejected confirm_implicit confirm_expired : ConfirmStatus

-- The template that the CA is asked to sign.
pub record Template : Type 0 where
  pub subject : RdnSequence
  pub public_key : Option Opaque
  pub subject_key_id : Bytes
  pub extra_extensions : List Extension

-- `RevocationRequest`
pub record RevocationRequest : Type 0 where
  pub issuer : RdnSequence
  pub raw_issuer : Bytes
  pub serial_number : ℤ
  pub reason : ℤ
  pub extensions : List Extension
  pub subject : RdnSequence
  pub public_key : Bytes
  pub has_reason : Bool

-- What reaches the CA, newest first in a log. What a CA answers may depend on all that it was asked.
pub data CaCall : Type 0 where
  issue_certificate : RequestType → Template → SenderIdentity → CaCall
  check_pending : Bytes → SenderIdentity → CaCall
  confirm_certificate : Certificate → ConfirmStatus → Option Opaque → CaCall
  authorize_revocation : RevocationRequest → SenderIdentity → CaCall
  revoke_certificate : RevocationRequest → SenderIdentity → CaCall

abbrev pub Log : Type 0
Log = List CaCall

-- The values that the server passes to its handler in the context.
pub record HandlerContext : Type 0 where
  pub poll_ref : Option Bytes
  pub issued_cert : Option Certificate
  pub issue_ref : Option Opaque
  pub allow_sha1_signatures : Bool

-- A handler's `(*Response, error)`; `ok none` is a nil response with no error.
abbrev pub Handled : Type 0
Handled = Result HandlerError (Option Response)

-- `Handler`
abbrev pub Handler : Type 0
Handler = HandlerContext → Request → SenderIdentity → Log → Handled × Log

pub record Config : Type 0 where
  pub signer_cert : Option Certificate
  pub extra_certs : List Certificate
  pub sender : Name
  pub confirm_wait : Duration
  pub implicit_confirm : Bool
  pub strict_profile : Bool
  pub allow_sha1_signatures : Bool
  pub message_time_tolerance : Duration
  -- whether the CA confirms certificates
  pub has_confirmer : Bool
  pub has_signer_creds : Bool
  pub signer_err : Bool
