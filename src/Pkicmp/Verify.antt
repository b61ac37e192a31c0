-- ===== src/Pkicmp/Verify.antt =====
-- pkicmp/verify.go: the verification of a message's protection. The certificates that crypto/x509
-- parses and checks are an interface; the time of the call is an input.
pub mod MacAccepted
pub mod Signers
pub mod Accepted
pub mod RoundTrip
pub mod Reasons
pub mod Shared
use go_pkicmp_ng.Prelude.{
  ℕ, zero, suc, ◌+◌, ◌%◌, Bool, true, false, not, ◌&&◌, ◌||◌, Option, none, some, List, [], ◌∷◌,
  Bytes, bytes_eq, ltb, ◌==◌, is_empty, is_some, if◌then◌else◌,
}
use go_pkicmp_ng.Prelude.Int.{ℤ, pos}
use go_pkicmp_ng.Prelude.Result.{Result, ok, err, ◌>>=◌, ◌>>◌}
use go_pkicmp_ng.Pkicmp.Types.{
  Time, Oid, Opaque, RdnSequence, SigAlg, Certificate, Extension, AlgorithmIdentifier,
}
use go_pkicmp_ng.Pkicmp.Errors.{
  InvalidReason, Failure, parse_failure, verification_failure, unsupported_algorithm,
  missing_shared_secret, bad_mac, signature_failed, missing_trust_anchors, unexpected_protection,
  sender_mismatch, key_usage_not_permitted, certificate_expired, no_candidate_signer,
}
use go_pkicmp_ng.Pkicmp.Algorithms.{
  Hash, SigAlgError, sha1_not_enabled, oid_eq, oid_password_based_mac, oid_pbmac1, hash_from_oid,
  hmac_hash_from_oid, sig_alg_from_oid, sha1_sig_alg_from_oid, signature_algorithm,
}
use go_pkicmp_ng.Pkicmp.Message.{GeneralName}
use go_pkicmp_ng.Pkicmp.Pop.{KeyLibrary, composite_signature_algorithm}
use go_pkicmp_ng.Pkicmp.Protect.{
  PkiMessage, MacLibrary, PbmParameter, Pbkdf2Params, Pbmac1Params, oid_pbkdf2, refuse, or_fail,
  int_or, validate_pbm_iteration_count, validate_pbkdf2_key_length, derive_pbm_key, protected_part,
  unmarshal_pbm, parse_pbkdf2_params,
}
use go_pkicmp_ng.Pkicmp.Credentials.{MacCredentialConfig, MacCredentialOption}
use go_pkicmp_ng.Certpath
use go_pkicmp_ng.Certpath.{Links, carries}

-- `ProtectionMechanism`
pub data ProtectionMechanism : Type 0 where
  protection_any protection_mac protection_signature : ProtectionMechanism

-- `VerifyOptions`; a pool is a value that crypto/x509 knows.
pub record VerifyOptions : Type 0 where
  pub required_protection : ProtectionMechanism
  pub shared_secret : Bytes
  pub trust_pool : Option Opaque
  pub trusted_cert : Option Certificate
  pub extra_certs : List Bytes
  pub sender_kid : Bytes
  pub require_digital_signature_key_usage : Bool
  pub allow_sha1_signatures : Bool

-- `VerifyResult`
pub record VerifyResult : Type 0 where
  pub mac_verified : Bool
  pub protection_params : Option MacCredentialOption
  pub protection_certificate : Option Certificate

-- crypto/x509 and encoding/asn1.
pub record CertificateLibrary : Type 0 where
  pub parse_certificate : Bytes → Option Certificate
  -- `cert.Verify` under a pool, with intermediates, at a time
  pub chains : Opaque → List Certificate → Time → Certificate → Option (List (List Certificate))
  pub composite_signed_by : Certificate → Certificate → Bool
  -- `cert.CheckSignature`
  pub check_signature : Certificate → SigAlg → Bytes → Bytes → Bool
  pub unmarshal_name : Bytes → Option RdnSequence
  pub rdn_string : RdnSequence → Bytes

abbrev oid_extension_key_usage : Oid
oid_extension_key_usage = 2 ∷ 5 ∷ 29 ∷ 15 ∷ []

-- `cert.KeyUsage&x509.KeyUsageDigitalSignature != 0`: the lowest bit.
unfoldable pub permitted_to_sign : Certificate → Bool
unfolding carries
permitted_to_sign cert =
    if carries oid_extension_key_usage cert.extensions then not (cert.key_usage % 2 == 0) else true

abbrev verify_err : {A : Type 0} → InvalidReason → Result Failure A
verify_err r = err (verification_failure r)

abbrev pub or_unsupported : {A : Type 0} → Result Failure A → Result Failure A
or_unsupported (ok a) = ok a
or_unsupported (err e) = err (verification_failure unsupported_algorithm)

abbrev pub mac_result : MacCredentialOption → VerifyResult
mac_result params = record {
  mac_verified = true;
  protection_params = some params;
  protection_certificate = none;
}

abbrev pub pbm_params : PbmParameter → MacCredentialOption
pbm_params p c = record c {
  algorithm = oid_password_based_mac;
  iteration_count = p.iteration_count;
  owf = p.owf.algorithm;
  mac = p.mac.algorithm;
  owf_parameters = p.owf.parameters;
  mac_parameters = p.mac.parameters;
}

abbrev pub pbmac1_params : Pbkdf2Params → ℤ → Oid → MacCredentialOption
pbmac1_params kdf key_length mac_oid c = record c {
  algorithm = oid_pbmac1;
  iteration_count = kdf.iteration_count;
  key_length = key_length;
  owf = kdf.prf.algorithm;
  mac = mac_oid;
}

-- What `signatureChecker` returns: the algorithm that its check uses.
pub data Checker : Type 0 where
  composite : ℕ → Checker
  classical : SigAlg → Checker

-- The errors of `signatureAlgorithm`: for SHA-1 that is not enabled it gives a reason.
abbrev sig_alg_failure : SigAlgError → Failure
sig_alg_failure sha1_not_enabled = verification_failure unsupported_algorithm
sig_alg_failure _ = parse_failure

abbrev composite_key : ℕ → Option ℕ → Bool
composite_key a none = false
composite_key a (some k) = k == a

abbrev pub signature_result : Certificate → VerifyResult
signature_result cert = record {
  mac_verified = false;
  protection_params = none;
  protection_certificate = some cert;
}

-- What the loop over the candidates keeps.
pub record Tally : Type 0 where
  pub sender_mismatches : Bool
  pub key_usage_rejected : Bool
  pub candidates : ℕ

unfoldable pub has_kid : VerifyOptions → Certificate → Bool
has_kid opts cert =
    is_empty opts.sender_kid
    || not (is_empty cert.subject_key_id) && bytes_eq cert.subject_key_id opts.sender_kid

-- What a candidate adds: it is accepted, or a tally.
pub data Verdict : Type 0 where
  accepted : Verdict
  rejected : Tally → Verdict

-- The reason that the tally gives.
unfoldable pub tally_reason : Tally → InvalidReason
tally_reason t =
    if t.candidates == 0
    then no_candidate_signer
    else if t.sender_mismatches
    then sender_mismatch
    else if t.key_usage_rejected
    then key_usage_not_permitted
    else signature_failed

abbrev pub no_tally : Tally
no_tally = record { sender_mismatches = false; key_usage_rejected = false; candidates = 0 }

abbrev pub requires_signature : ProtectionMechanism → Bool
requires_signature protection_signature = true
requires_signature _ = false

abbrev pub requires_mac : ProtectionMechanism → Bool
requires_mac protection_mac = true
requires_mac _ = false

abbrev pub is_mac : Oid → Bool
is_mac oid = oid_eq oid oid_password_based_mac || oid_eq oid oid_pbmac1

module _ (mac : MacLibrary) (keys : KeyLibrary) (certs : CertificateLibrary) where
  -- `!hash.Available()`
  abbrev pub usable : Hash → Result Failure Unit
  usable h = refuse (not (mac.hashes.available h)) (verification_failure unsupported_algorithm)

  -- The comparison of the MAC, and the result.
  abbrev pub compare_mac :
      PkiMessage → Hash → Bytes → MacCredentialOption → Bytes → Result Failure VerifyResult
  compare_mac m mac_hash part params key =
      refuse (not (bytes_eq (mac.hmac mac_hash key part) m.protection))
        (verification_failure bad_mac)
      >> ok (mac_result params)

  unfoldable pub verify_pbm :
      VerifyOptions → PkiMessage → AlgorithmIdentifier → Result Failure VerifyResult
  unfolding unmarshal_pbm validate_pbm_iteration_count hash_from_oid hmac_hash_from_oid
      protected_part derive_pbm_key
  verify_pbm opts m alg =
      refuse (is_empty opts.shared_secret) (verification_failure missing_shared_secret)
      >> (unmarshal_pbm mac alg.parameters >>= λ p.
          validate_pbm_iteration_count p.iteration_count
          >> (or_fail (verification_failure unsupported_algorithm) (hash_from_oid p.owf.algorithm)
              >>= λ hash.
                  usable hash
                  >> (or_fail (verification_failure unsupported_algorithm)
                        (hmac_hash_from_oid p.mac.algorithm)
                      >>= λ mac_hash.
                          usable mac_hash
                          >> (protected_part mac m >>= λ part.
                              or_unsupported (
                                derive_pbm_key mac opts.shared_secret p.salt p.iteration_count hash
                                  mac_hash)
                              >>= λ key. compare_mac m mac_hash part (pbm_params p) key))))

  unfoldable pub verify_pbmac1 :
      VerifyOptions → PkiMessage → AlgorithmIdentifier → Result Failure VerifyResult
  unfolding parse_pbkdf2_params validate_pbm_iteration_count hmac_hash_from_oid
      validate_pbkdf2_key_length protected_part
  verify_pbmac1 opts m alg =
      refuse (is_empty opts.shared_secret) (verification_failure missing_shared_secret)
      >> (or_fail parse_failure (mac.unmarshal_pbmac1 alg.parameters) >>= λ p.
          refuse (not (oid_eq p.key_derivation_func.algorithm oid_pbkdf2))
            (verification_failure unsupported_algorithm)
          >> (parse_pbkdf2_params mac p.key_derivation_func.parameters >>= λ kdf.
              validate_pbm_iteration_count kdf.iteration_count
              >> (or_fail (verification_failure unsupported_algorithm)
                    (hmac_hash_from_oid kdf.prf.algorithm)
                  >>= λ prf_hash.
                      usable prf_hash
                      >> (or_fail (verification_failure unsupported_algorithm)
                            (hmac_hash_from_oid p.message_auth_scheme.algorithm)
                          >>= λ mac_hash.
                              let key_length = int_or kdf.key_length (pos (mac.size mac_hash)) in
                              usable mac_hash
                              >> validate_pbkdf2_key_length mac key_length mac_hash
                              >> (protected_part mac m >>= λ part.
                                  compare_mac m mac_hash part
                                    (pbmac1_params kdf key_length p.message_auth_scheme.algorithm)
                                    (mac.pbkdf2_key opts.shared_secret kdf.salt kdf.iteration_count
                                      key_length prf_hash))))))

  unfoldable pub signature_checker : AlgorithmIdentifier → Bool → Result Failure Checker
  unfolding composite_signature_algorithm signature_algorithm
  signature_checker alg allow_sha1 = elim (composite_signature_algorithm keys alg) [
    | err _ ↦ err parse_failure
    | ok (some a) ↦ ok (composite a)
    | ok none ↦ elim (signature_algorithm alg allow_sha1) [
      | err e ↦ err (sig_alg_failure e)
      | ok a ↦ ok (classical a)
    ]
  ]

  -- The check that the checker makes of data and a signature, with the key of a certificate.
  unfoldable pub check_with : Checker → Certificate → Bytes → Bytes → Bool
  check_with (classical a) cert part signature = certs.check_signature cert a part signature
  check_with (composite a) cert part signature =
      elim (keys.parse_public_key cert.raw_subject_public_key_info) [
        | none ↦ false
        | some key ↦
            composite_key a (keys.composite_of_key key) && keys.composite_verify key part signature
      ]

  unfoldable pub sender_matches_certificate : GeneralName → Certificate → Bool
  sender_matches_certificate sender cert =
      if is_empty sender.directory_name
      then true
      else elim (certs.unmarshal_name cert.raw_subject) [
        | none ↦ false
        | some subject ↦
            bytes_eq (certs.rdn_string sender.directory_name) (certs.rdn_string subject)
      ]

  -- The branch for `opts.TrustedCert`.
  unfoldable pub verify_trusted :
      VerifyOptions
      → Time
      → PkiMessage
      → Checker
      → Bytes
      → Certificate
      → Result Failure VerifyResult
  unfolding sender_matches_certificate permitted_to_sign check_with
  verify_trusted opts now m check part cert =
      refuse (ltb now cert.not_before || ltb cert.not_after now)
        (verification_failure certificate_expired)
      >> refuse (not (sender_matches_certificate m.header.sender cert))
          (verification_failure sender_mismatch)
      >> refuse (opts.require_digital_signature_key_usage && not (permitted_to_sign cert))
          (verification_failure key_usage_not_permitted)
      >> refuse (not (check_with check cert part m.protection))
          (verification_failure signature_failed)
      >> ok (signature_result cert)

  unfoldable pub parsed_certificates : List Bytes → List Certificate
  parsed_certificates [] = []
  parsed_certificates (raw ∷ rest) = elim (certs.parse_certificate raw) [
    | none ↦ parsed_certificates rest
    | some cert ↦ cert ∷ parsed_certificates rest
  ]

  abbrev links : Opaque → List Certificate → Time → Links
  links pool intermediates now = record {
    chains = certs.chains pool intermediates now;
    signed_by = certs.composite_signed_by;
  }

  unfoldable pub chains_to : Opaque → List Certificate → Time → Certificate → Bool
  unfolding Certpath.verify
  chains_to pool intermediates now cert =
      Certpath.verify (links pool intermediates now) intermediates now cert

  unfoldable pub try_candidate :
      VerifyOptions
      → Opaque
      → List Certificate
      → Time
      → PkiMessage
      → Checker
      → Bytes
      → Certificate
      → Tally
      → Verdict
  unfolding chains_to sender_matches_certificate permitted_to_sign check_with
  try_candidate opts pool intermediates now m check part cert t =
      let seen = record t { candidates = suc t.candidates } in
      if not (has_kid opts cert)
      then rejected t
      else if not (chains_to pool intermediates now cert)
      then rejected seen
      else if not (sender_matches_certificate m.header.sender cert)
      then rejected (record seen { sender_mismatches = true })
      else if opts.require_digital_signature_key_usage && not (permitted_to_sign cert)
      then rejected (record seen { key_usage_rejected = true })
      else if check_with check cert part m.protection
      then accepted
      else rejected seen

  -- The loop over `opts.ExtraCerts`, of those that parse.
  unfoldable pub try_candidates :
      VerifyOptions
      → Opaque
      → List Certificate
      → Time
      → PkiMessage
      → Checker
      → Bytes
      → List Certificate
      → Tally
      → Result Tally Certificate
  unfolding try_candidate
  try_candidates opts pool intermediates now m check part [] t = err t
  try_candidates opts pool intermediates now m check part (cert ∷ rest) t =
      elim (try_candidate opts pool intermediates now m check part cert t) [
        | accepted ↦ ok cert
        | rejected t' ↦ try_candidates opts pool intermediates now m check part rest t'
      ]

  unfoldable pub verify_chain :
      VerifyOptions → Time → PkiMessage → Checker → Bytes → Opaque → Result Failure VerifyResult
  unfolding parsed_certificates try_candidates tally_reason
  verify_chain opts now m check part pool =
      let intermediates = parsed_certificates opts.extra_certs in
      elim (try_candidates opts pool intermediates now m check part intermediates no_tally) [
        | ok cert ↦ ok (signature_result cert)
        | err t ↦ err (verification_failure (tally_reason t))
      ]

  unfoldable pub verify_signature :
      VerifyOptions → Time → PkiMessage → AlgorithmIdentifier → Result Failure VerifyResult
  unfolding signature_checker protected_part verify_trusted verify_chain
  verify_signature opts now m alg = signature_checker alg opts.allow_sha1_signatures >>= λ check.
      protected_part mac m >>= λ part. elim opts.trusted_cert [
        | some cert ↦ verify_trusted opts now m check part cert
        | none ↦ elim opts.trust_pool [
          | none ↦ err (verification_failure missing_trust_anchors)
          | some pool ↦ verify_chain opts now m check part pool
        ]
      ]

  -- `sigAlgFromOID`, `sha1SigAlgFromOID` or the composite library knows the identifier.
  abbrev pub is_signature : Oid → Bool
  is_signature oid =
      is_some (sig_alg_from_oid oid)
      || is_some (sha1_sig_alg_from_oid oid)
      || is_some (keys.composite_from_oid oid)

  unfoldable pub dispatch :
      VerifyOptions → Time → PkiMessage → AlgorithmIdentifier → Result Failure VerifyResult
  unfolding verify_pbm verify_pbmac1 verify_signature sig_alg_from_oid sha1_sig_alg_from_oid
  dispatch opts now m alg =
      if is_mac alg.algorithm
      then refuse (requires_signature opts.required_protection)
          (verification_failure unexpected_protection)
        >> (if oid_eq alg.algorithm oid_password_based_mac
            then verify_pbm opts m alg
            else verify_pbmac1 opts m alg)
      else if is_signature alg.algorithm
      then refuse (requires_mac opts.required_protection)
          (verification_failure unexpected_protection)
        >> verify_signature opts now m alg
      else verify_err unsupported_algorithm

  -- `PKIMessage.Verify`
  unfoldable pub verify : VerifyOptions → Time → PkiMessage → Result Failure VerifyResult
  unfolding dispatch
  verify opts now m = elim m.header.protection_alg [
    | none ↦ err parse_failure
    | some alg ↦
        refuse (is_empty m.protection) parse_failure
        >> refuse (not (is_some m.body)) parse_failure
        >> dispatch opts now m alg
  ]
