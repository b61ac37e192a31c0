-- ===== src/Tests/Protection.antt =====
-- pkicmp/protect.go, credentials.go and verify.go on small messages.
use go_pkicmp_ng.Prelude.{
  ◌≡◌, refl, inl, true, false, none, some, [], ◌∷◌, bytes_eq, is_empty, arith,
}
use go_pkicmp_ng.Prelude.Result.{Result, ok, err}
use go_pkicmp_ng.Pkicmp.Types.{AlgorithmIdentifier, sha256_with_rsa}
use go_pkicmp_ng.Pkicmp.Errors.{Failure, verification_failure, no_candidate_signer}
use go_pkicmp_ng.Pkicmp.Protect.{PkiMessage}
use go_pkicmp_ng.Pkicmp.Credentials.{MacCredentials, zero_config, mac_credentials_protect}
use go_pkicmp_ng.Pkicmp.Sign.{Signer, rsa, protect_with_signature}
use go_pkicmp_ng.Pkicmp.Sign.ExtraCerts.{IsSigned, protect_with_signature-IsSigned}
use go_pkicmp_ng.Pkicmp.Verify
use go_pkicmp_ng.Pkicmp.Verify.{
  VerifyOptions, VerifyResult, protection_any, protection_signature, classical, verify_chain,
  parsed_certificates,
}
use go_pkicmp_ng.Pkicmp.Verify.Accepted.{IsAccepted, verify-IsAccepted}
use go_pkicmp_ng.Pkicmp.Verify.Reasons.{expected_reason, verify_chain-reason}
use go_pkicmp_ng.Pkicmp.Verify.Shared.{verify-mac_credentials_protect}
use go_pkicmp_ng.Tests.Fixtures.{header, cert, key_library}
use go_pkicmp_ng.Tests.Libraries.{mac_library, mac_laws, certificate_library}

abbrev pub message : PkiMessage
message = record {
  header = header;
  body = some 9;
  protection = [];
  extra_certs = (48 ∷ 2 ∷ []) ∷ (48 ∷ 2 ∷ []) ∷ [];
  raw_header = [];
  raw_body = [];
}

abbrev credentials : MacCredentials
credentials = record { secret = 1 ∷ 2 ∷ []; config = zero_config }

abbrev or_message : Result Failure PkiMessage → PkiMessage
or_message (ok m) = m
or_message (err _) = message

abbrev pub protected : PkiMessage
protected = or_message (mac_credentials_protect mac_library credentials (8 ∷ 8 ∷ []) message)

abbrev options : VerifyOptions
options = record {
  required_protection = protection_any;
  shared_secret = 1 ∷ 2 ∷ [];
  trust_pool = some 0;
  trusted_cert = none;
  extra_certs = (48 ∷ 2 ∷ []) ∷ [];
  sender_kid = 6 ∷ [];
  require_digital_signature_key_usage = true;
  allow_sha1_signatures = false;
}

protects : mac_credentials_protect mac_library credentials (8 ∷ 8 ∷ []) message ≡ ok protected
unfolding mac_credentials_protect bytes_eq
protects = refl

verify-mac_credentials_protect_example :
    (r : VerifyResult) × (Verify.verify mac_library key_library certificate_library options 10
        protected
      ≡ ok r)
    × (r.mac_verified ≡ true)
verify-mac_credentials_protect_example =
    verify-mac_credentials_protect mac_library key_library certificate_library mac_laws credentials
      (8 ∷ 8 ∷ []) message protected options 10
      (record {
        not_echoed = refl;
        suite = inl refl;
        owf_parameters = inl refl;
        mac_parameters = inl refl;
      })
      refl (λ e. ground arith) protects

abbrev verified : VerifyResult
unfolding Verify.verify bytes_eq
verified = elim (Verify.verify mac_library key_library certificate_library options 10 protected) [
  | ok r ↦ r
  | err _ ↦ record { mac_verified = false; protection_params = none; protection_certificate = none }
]

verifies :
    Verify.verify mac_library key_library certificate_library options 10 protected ≡ ok verified
unfolding Verify.verify bytes_eq mac_credentials_protect
verifies = refl

verify-IsAccepted_example :
    (alg : AlgorithmIdentifier) × (protected.header.protection_alg ≡ some alg)
    × (is_empty protected.protection ≡ false)
    × IsAccepted mac_library key_library certificate_library options 10 protected alg verified
verify-IsAccepted_example =
    verify-IsAccepted mac_library key_library certificate_library options 10 protected verified
      verifies

abbrev failure : Failure
failure = verification_failure no_candidate_signer

-- The only certificate does not have the key identifier that is asked for.
refused :
    verify_chain mac_library key_library certificate_library options 10 message
      (classical sha256_with_rsa)
      []
      0
    ≡ err failure
unfolding verify_chain bytes_eq Verify.has_kid
refused = refl

verify_chain-reason_example :
    let cs = parsed_certificates mac_library key_library certificate_library options.extra_certs in
    failure
    ≡ verification_failure (
        expected_reason mac_library key_library certificate_library options 10 message
          (classical sha256_with_rsa)
          []
          0
          cs
          cs)
verify_chain-reason_example =
    verify_chain-reason mac_library key_library certificate_library options 10 message
      (classical sha256_with_rsa) [] 0 failure refused

abbrev signer : Signer
signer = record { public = rsa 2048; sign = λ digest h. some digest }

abbrev signed : PkiMessage
unfolding protect_with_signature bytes_eq
signed = or_message (protect_with_signature mac_library signer cert (cert ∷ []) message)

signs : protect_with_signature mac_library signer cert (cert ∷ []) message ≡ ok signed
unfolding protect_with_signature bytes_eq
signs = refl

-- The two copies of each certificate are one.
carried : signed.extra_certs ≡ cert.raw ∷ (48 ∷ 2 ∷ []) ∷ []
unfolding protect_with_signature bytes_eq
carried = refl

protect_with_signature-IsSigned_example :
    IsSigned mac_library signer cert (cert.raw ∷ message.extra_certs) signed
protect_with_signature-IsSigned_example =
    protect_with_signature-IsSigned mac_library signer cert (cert ∷ []) message signed signs
