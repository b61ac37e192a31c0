-- ===== src/Pkicmp/Pop.antt =====
-- pkicmp/pop.go: the proof of possession in a CRMF request.
use go_pkicmp_ng.Prelude.{ℕ, Bool, not, Option, none, some, Bytes, ◌==◌, is_empty, if◌then◌else◌}
use go_pkicmp_ng.Prelude.Result.{Result, ok, err}
use go_pkicmp_ng.Pkicmp.Types.{Oid, SigAlg, Opaque, AlgorithmIdentifier}
use go_pkicmp_ng.Pkicmp.Algorithms.{SigAlgError, signature_algorithm}
use go_pkicmp_ng.Pkicmp.Message.{CertReqMsg, Popo, PopoSignature}

-- The composite key library and crypto/x509. A public key is a value that the code hands back to
-- them.
pub record KeyLibrary : Type 0 where
  -- compositex509's `ParsePKIXPublicKey` and `MarshalPKIXPublicKey`, the latter of a key or nil
  pub parse_public_key : Bytes → Option Opaque
  pub marshal_public_key : Option Opaque → Option Bytes
  -- whether a key has an `Equal` that holds for the other
  pub keys_equal : Opaque → Option Opaque → Bool
  -- the composite algorithm that an identifier names, and that of a composite key
  pub composite_from_oid : Oid → Option ℕ
  pub composite_of_key : Opaque → Option ℕ
  pub composite_verify : Opaque → Bytes → Bytes → Bool
  -- `CheckSignature` of a certificate with that key
  pub check_signature : Opaque → SigAlg → Bytes → Bytes → Bool

-- The errors of `VerifyPOPWithOptions`.
pub data PopError : Type 0 where
  ra_verified_pop no_template_key : PopError
  bad_template_key : Bytes → PopError
  no_cert_req_raw composite_parameters key_mismatch composite_failed : PopError
  bad_sig_alg : SigAlgError → PopError
  signature_failed : PopError

module _ (lib : KeyLibrary) where
  -- `compositeSignatureAlgorithm`: an algorithm if the identifier names one.
  unfoldable pub composite_signature_algorithm : AlgorithmIdentifier → Result PopError (Option ℕ)
  composite_signature_algorithm alg = elim (lib.composite_from_oid alg.algorithm) [
    | none ↦ ok none
    | some a ↦ if is_empty alg.parameters then ok (some a) else err composite_parameters
  ]

  abbrev check : Bool → PopError → Result PopError Unit
  check b e = if b then ok tt else err e

  -- A signature under the algorithm of the identifier and of the key, where these are composite.
  abbrev verify_by_kind :
      Option ℕ → Option ℕ → Opaque → PopoSignature → Bytes → Bool → Result PopError Unit
  verify_by_kind (some a) (some k) key s raw allow_sha1 =
      if k == a
      then check (lib.composite_verify key raw s.signature) composite_failed
      else err key_mismatch
  verify_by_kind (some a) none key s raw allow_sha1 = err key_mismatch
  verify_by_kind none (some k) key s raw allow_sha1 = err key_mismatch
  verify_by_kind none none key s raw allow_sha1 =
      elim (signature_algorithm s.algorithm allow_sha1) [
        | err e ↦ err (bad_sig_alg e)
        | ok a ↦ check (lib.check_signature key a raw s.signature) signature_failed
      ]

  unfoldable pub verify_signature_pop : CertReqMsg → PopoSignature → Bool → Result PopError Unit
  unfolding composite_signature_algorithm signature_algorithm
  verify_signature_pop msg s allow_sha1 =
      if is_empty msg.cert_template.public_key
      then err no_template_key
      else elim (lib.parse_public_key msg.cert_template.public_key) [
        | none ↦ err (bad_template_key msg.cert_template.public_key)
        | some key ↦
            if is_empty msg.cert_req_raw
            then err no_cert_req_raw
            else elim (composite_signature_algorithm s.algorithm) [
              | err e ↦ err e
              | ok a ↦ verify_by_kind a (lib.composite_of_key key) key s msg.cert_req_raw allow_sha1
            ]
      ]

  abbrev verify_popo : CertReqMsg → Popo → Option PopoSignature → Bool → Result PopError Unit
  verify_popo msg p none allow_sha1 = check (not p.ra_verified) ra_verified_pop
  verify_popo msg p (some s) allow_sha1 =
      if p.ra_verified then err ra_verified_pop else verify_signature_pop msg s allow_sha1

  -- `VerifyPOPWithOptions`; a request without a signature passes.
  unfoldable pub verify_pop : CertReqMsg → Bool → Result PopError Unit
  unfolding verify_signature_pop
  verify_pop msg allow_sha1 = elim msg.popo [
    | none ↦ ok tt
    | some p ↦ verify_popo msg p p.signature allow_sha1
  ]
