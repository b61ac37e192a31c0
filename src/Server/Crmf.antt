-- ===== src/Server/Crmf.antt =====
-- server/certrequest.go: what a certificate request asks for, its proof of possession, and its
-- BasicConstraints.
use go_pkicmp_ng.Prelude.{
  Bool, false, not, ◌&&◌, ◌||◌, Option, none, some, List, [], ◌∷◌, Bytes, is_empty, is_some, text,
  if◌then◌else◌,
}
use go_pkicmp_ng.Prelude.Int.{ℤ, pos, negsuc, ltb_ℤ, eqb_ℤ}
use go_pkicmp_ng.Prelude.Result.{Result, ok, err, ◌>>=◌}
use go_pkicmp_ng.Pkicmp.Types.{Opaque, RdnSequence, Extension}
use go_pkicmp_ng.Pkicmp.Status.{
  FailInfo, fail_bad_alg, fail_bad_request, fail_bad_data_format, fail_bad_pop, fail_not_authorized,
  fail_bad_cert_template,
}
use go_pkicmp_ng.Pkicmp.Algorithms.{oid_eq, sha1_not_enabled}
use go_pkicmp_ng.Pkicmp.Pop.{PopError, ra_verified_pop, bad_sig_alg, verify_pop}
use go_pkicmp_ng.Pkicmp.Message.{Content, ir, cr, kur, p10cr, CertReqMsg, Popo}
use go_pkicmp_ng.Server.Config.{
  Env, BasicConstraints, CsrCheck, csr_valid, csr_invalid, csr_unsupported, HandlerError,
  server_error, internal, rejection,
}

pub record ParsedCrmf : Type 0 where
  pub cert_req_id : ℤ
  pub subject : RdnSequence
  pub public_key : Option Opaque
  pub extensions : List Extension
  pub signature_pop : Bool

-- A rejection, as an error of a handler.
abbrev pub reject : {A : Type 0} → FailInfo → Bytes → Result HandlerError A
reject f t = err (server_error (rejection f t))

abbrev has_signature : Option Popo → Bool
has_signature none = false
has_signature (some p) = is_some p.signature

-- The accessors of the three CRMF bodies.
abbrev pub crmf_messages : Content → Result HandlerError (List CertReqMsg)
crmf_messages (ir (some ms)) = ok ms
crmf_messages (cr (some ms)) = ok ms
crmf_messages (kur (some ms)) = ok ms
crmf_messages (ir none) = err internal
crmf_messages (cr none) = err internal
crmf_messages (kur none) = err internal
crmf_messages _ = reject fail_bad_request []

abbrev single : List CertReqMsg → Result HandlerError CertReqMsg
single [] = reject fail_bad_data_format (text "empty CertReqMessages")
single (m ∷ []) = ok m
single (m ∷ _ ∷ _) = reject fail_bad_request (text "multiple CertReqMsg not supported")

module _ (env : Env) where
  abbrev parsed_key : Bytes → Result HandlerError (Option Opaque)
  parsed_key spki = if is_empty spki then ok none else elim (env.parse_public_key spki) [
    | none ↦ reject fail_bad_alg (env.parse_error_text spki)
    | some key ↦ ok (some key)
  ]

  abbrev parsed_extensions : Bytes → Result HandlerError (List Extension)
  parsed_extensions der =
      if is_empty der
      then ok []
      else elim (env.unmarshal_extensions der) [ none ↦ err internal | some (exts, _) ↦ ok exts ]

  abbrev parse_cert_req : CertReqMsg → Result HandlerError ParsedCrmf
  parse_cert_req m = parsed_key m.cert_template.public_key >>= (λ key.
      parsed_extensions m.cert_template.extensions >>= (λ exts. ok (record {
        cert_req_id = m.cert_req_id;
        subject = m.cert_template.subject;
        public_key = key;
        extensions = exts;
        signature_pop = has_signature m.popo;
      })))

  -- `parseCRMFMsg`
  unfoldable pub parse_crmf_msg : Content → Result HandlerError ParsedCrmf
  unfolding rejection
  parse_crmf_msg body = crmf_messages body >>= single >>= parse_cert_req

  -- `certReqIDFromRequest`
  unfoldable pub cert_req_id_from_request : Content → ℤ
  unfolding parse_crmf_msg
  cert_req_id_from_request (p10cr _) = negsuc 0
  cert_req_id_from_request body = elim (parse_crmf_msg body) [
    | err _ ↦ pos 0
    | ok crmf ↦ crmf.cert_req_id
  ]

  abbrev pop_fail_info : PopError → FailInfo
  pop_fail_info ra_verified_pop = fail_not_authorized
  pop_fail_info (bad_sig_alg sha1_not_enabled) = fail_bad_alg
  pop_fail_info _ = fail_bad_pop

  abbrev verify_first : List CertReqMsg → Bool → Result PopError Unit
  verify_first [] allow_sha1 = ok tt
  verify_first (m ∷ _) allow_sha1 = verify_pop env.key_library m allow_sha1

  -- `verifyPOPMsg`; an error of an accessor has been reported before it is called.
  unfoldable pub verify_pop_msg : Content → Bool → Result PopError Unit
  unfolding verify_pop
  verify_pop_msg body allow_sha1 = elim (crmf_messages body) [
    | err _ ↦ ok tt
    | ok ms ↦ verify_first ms allow_sha1
  ]

  -- What is required of a parsed request, given the verdict on its proof.
  abbrev require_proof : ParsedCrmf → Result PopError Unit → Result HandlerError Unit
  require_proof crmf (err e) = reject (pop_fail_info e) (env.pop_error_text e)
  require_proof crmf (ok _) =
      if not (is_some crmf.public_key)
      then reject fail_bad_cert_template (text "public key required")
      else if not crmf.signature_pop
      then reject fail_bad_pop (text "proof of possession by signature required")
      else ok tt

  abbrev csr_proof : CsrCheck → Result HandlerError Unit
  csr_proof csr_valid = ok tt
  csr_proof csr_unsupported = reject fail_bad_alg (text "unsupported signature algorithm")
  csr_proof (csr_invalid t) = reject fail_bad_pop t

  abbrev pub crmf_proof : Content → Bool → Result HandlerError Unit
  crmf_proof body allow_sha1 =
      parse_crmf_msg body >>= (λ crmf. require_proof crmf (verify_pop_msg body allow_sha1))

  -- `enforceProofOfPossession`
  unfoldable pub enforce_proof_of_possession : Content → Bool → Result HandlerError Unit
  unfolding parse_crmf_msg verify_pop_msg rejection
  enforce_proof_of_possession (p10cr none) allow_sha1 = reject fail_bad_data_format []
  enforce_proof_of_possession (p10cr (some csr)) allow_sha1 =
      csr_proof (env.check_csr_signature csr)
  enforce_proof_of_possession (ir ms) allow_sha1 = crmf_proof (ir ms) allow_sha1
  enforce_proof_of_possession (cr ms) allow_sha1 = crmf_proof (cr ms) allow_sha1
  enforce_proof_of_possession (kur ms) allow_sha1 = crmf_proof (kur ms) allow_sha1
  enforce_proof_of_possession _ allow_sha1 = ok tt

  abbrev decoded : Bytes → Result HandlerError BasicConstraints
  decoded der = elim (env.unmarshal_basic_constraints der) [
    | some (bc, []) ↦ ok bc
    | _ ↦ reject fail_bad_cert_template (text "malformed BasicConstraints")
  ]

  -- `decodeBasicConstraints`
  unfoldable pub decode_basic_constraints :
      List Extension → Result HandlerError (List BasicConstraints)
  unfolding rejection
  decode_basic_constraints [] = ok []
  decode_basic_constraints (x ∷ xs) =
      let rest = decode_basic_constraints xs in
      if oid_eq x.id (2 ∷ 5 ∷ 29 ∷ 19 ∷ [])
      then decoded x.value >>= (λ bc. rest >>= (λ bcs. ok (bc ∷ bcs)))
      else rest

  -- A path length below zero, or one that is not zero without cA.
  abbrev pub bad_path : BasicConstraints → Bool
  bad_path bc =
      ltb_ℤ bc.max_path_len (pos 0) || (not bc.is_ca && not (eqb_ℤ bc.max_path_len (pos 0)))

  abbrev pub any_of : (BasicConstraints → Bool) → List BasicConstraints → Bool
  any_of f [] = false
  any_of f (x ∷ xs) = f x || any_of f xs

  -- `checkBasicConstraints`
  unfoldable pub check_basic_constraints : List Extension → Result HandlerError Unit
  unfolding decode_basic_constraints rejection
  check_basic_constraints exts = decode_basic_constraints exts >>= (λ all.
      if any_of bad_path all
      then reject fail_bad_cert_template (text "invalid path-length in BasicConstraints")
      else if any_of (λ bc. bc.is_ca) all
      then reject fail_not_authorized (text "CA certificates not allowed")
      else ok tt)
