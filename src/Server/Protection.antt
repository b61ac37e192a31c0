-- ===== src/Server/Protection.antt =====
-- The verification of a request's protection (server/protection.go). The lookups and
-- `PKIMessage.Verify` are an interface.
use go_pkicmp_ng.Prelude.{
  Bool, true, false, ◌||◌, Option, none, some, [], Bytes, is_empty, text, if◌then◌else◌,
}
use go_pkicmp_ng.Prelude.Result.{Result, ok, err}
use go_pkicmp_ng.Pkicmp.Types.{Oid, Opaque, RdnSequence, Certificate}
use go_pkicmp_ng.Pkicmp.Status.{
  FailInfo, fail_bad_alg, fail_bad_message_check, fail_signer_not_trusted,
}
use go_pkicmp_ng.Pkicmp.Algorithms.{oid_eq, oid_password_based_mac, oid_pbmac1}
use go_pkicmp_ng.Pkicmp.Message.{Request}
use go_pkicmp_ng.Server.Config.{Env, Config, SenderIdentity, HandlerError, ServerError, rejection}

pub data VerifyError : Type 0 where
  unsupported_algorithm sender_mismatch other_verify_error : VerifyError

-- What the server asks of its lookups, of the authorizer of registration authorities, of
-- `PKIMessage.Verify` and of the parser of certificates.
pub record Access : Type 0 where
  pub secret_lookup : Option (RdnSequence → Bytes → Option Bytes)
  pub certificate_lookup : Option (RdnSequence → RdnSequence → Bytes → Option Certificate)
  pub ra_authorizer : Option (SenderIdentity → Request → SenderIdentity → Result HandlerError Unit)
  pub verify_mac : Request → Bytes → Result VerifyError (Option Opaque)
  pub verify_signature : Request → Certificate → Bool → Result VerifyError Unit
  pub parse_certificate : Bytes → Option Certificate
  -- `CheckSignatureFrom`
  pub signed_by : Certificate → Certificate → Bool
  -- the text of a certificate's subject
  pub subject_text : Certificate → Bytes

-- `isMACAlgorithm`
unfoldable pub is_mac_algorithm : Oid → Bool
is_mac_algorithm oid = oid_eq oid oid_password_based_mac || oid_eq oid oid_pbmac1

abbrev pub fails : {A : Type 0} → FailInfo → Bytes → Result ServerError A
fails f t = err (rejection f t)

module _ (env : Env) (cfg : Config) (access : Access) where
  abbrev mac_sender : Request → Bytes → Option Opaque → SenderIdentity
  mac_sender req secret params = record {
    identity = record {
      certificate = none;
      sender_name = req.header.sender.directory_name;
      sender_kid = req.header.sender_kid;
      mac_verified = true;
      secret = secret;
      protection_params = params;
      header_sender = req.header.sender;
    };
    ra = none;
  }

  abbrev signature_sender : Request → Certificate → SenderIdentity
  signature_sender req cert = record {
    identity = record {
      certificate = some cert;
      sender_name = req.header.sender.directory_name;
      sender_kid = [];
      mac_verified = false;
      secret = [];
      protection_params = none;
      header_sender = record { directory_name = []; raw = [] };
    };
    ra = none;
  }

  abbrev mac_verdict :
      Request → Bytes → Result VerifyError (Option Opaque) → Result ServerError SenderIdentity
  mac_verdict req secret (ok params) = ok (mac_sender req secret params)
  mac_verdict req secret (err unsupported_algorithm) =
      fails fail_bad_alg (text "unsupported protection algorithm")
  mac_verdict req secret (err _) = fails fail_bad_message_check (text "MAC verification failed")

  abbrev signature_verdict :
      Request → Certificate → Result VerifyError Unit → Result ServerError SenderIdentity
  signature_verdict req cert (ok _) = ok (signature_sender req cert)
  signature_verdict req cert (err sender_mismatch) =
      fails fail_bad_message_check
        (text "sender does not match the certificate that signed the message")
  signature_verdict req cert (err unsupported_algorithm) =
      fails fail_bad_alg (text "unsupported protection algorithm")
  signature_verdict req cert (err other_verify_error) =
      fails fail_signer_not_trusted (text "signature verification failed")

  unfoldable pub verify_mac_protection : Request → Result ServerError SenderIdentity
  unfolding rejection
  verify_mac_protection req = elim access.secret_lookup [
    | none ↦ fails fail_bad_message_check (text "MAC protection not configured")
    | some find ↦ elim (find req.header.sender.directory_name req.header.sender_kid) [
      | none ↦ fails fail_bad_message_check (text "unknown sender")
      | some secret ↦ mac_verdict req secret (access.verify_mac req secret)
    ]
  ]

  unfoldable pub verify_signature_protection : Request → Result ServerError SenderIdentity
  unfolding rejection
  verify_signature_protection req = elim access.certificate_lookup [
    | none ↦ fails fail_signer_not_trusted (text "signature protection not configured")
    | some find ↦
        elim (find req.header.recipient.directory_name req.header.sender.directory_name
          req.header.sender_kid) [
            | none ↦ fails fail_signer_not_trusted (text "unknown sender")
            | some cert ↦
                signature_verdict req cert
                  (access.verify_signature req cert cfg.allow_sha1_signatures)
          ]
  ]

  -- `verifyProtection`
  unfoldable pub verify_protection : Request → Result ServerError SenderIdentity
  unfolding verify_mac_protection verify_signature_protection is_mac_algorithm
  verify_protection req = elim req.header.protection_alg [
    | none ↦ fails fail_bad_message_check (text "message not protected")
    | some alg ↦
        if is_empty req.protection
        then fails fail_bad_message_check (text "message not protected")
        else if is_mac_algorithm alg.algorithm
        then verify_mac_protection req
        else verify_signature_protection req
  ]
