-- ===== src/Client/Response.antt =====
-- client/transport.go: the checks that a client makes of a response and of a certificate.
use go_pkicmp_ng.Prelude.{
  ℕ, ◌==◌, Bool, true, false, not, ◌&&◌, ◌||◌, Option, none, some, List, [], ◌∷◌, ◌++◌, Bytes,
  bytes_eq, is_empty, is_some, map, if◌then◌else◌,
}
use go_pkicmp_ng.Prelude.Int.{ℤ, pos, negsuc, eqb_ℤ, ltb_ℤ}
use go_pkicmp_ng.Prelude.Result.{Result, ok, err, ◌>>=◌, ◌>>◌}
use go_pkicmp_ng.Pkicmp.Types.{Time, Opaque, Certificate}
use go_pkicmp_ng.Pkicmp.Status.{PkiStatusInfo, status_accepted, status_granted_with_mods, as_error}
use go_pkicmp_ng.Pkicmp.Message.{PkiHeader}
use go_pkicmp_ng.Pkicmp.Errors.{Failure}
use go_pkicmp_ng.Pkicmp.Credentials.{certificate_key}
use go_pkicmp_ng.Pkicmp.Verify
use go_pkicmp_ng.Pkicmp.Verify.{VerifyOptions, VerifyResult, parsed_certificates, chains_to}
use go_pkicmp_ng.Client.Config.{
  Client, Env, Credentials, CertResponse, CertRepMessage, Reply, ip, cp, kup, error_reply, Received,
  Outgoing, cert_request, p10cr_request, ClientError, failed, verification, status, no_error,
  with_http_status, unverified_status, transaction_id_mismatch, recipient_nonce_mismatch,
  missing_protection_alg, protocol_version, body_type, bad_content, empty_response, many_responses,
  cert_req_id_mismatch, missing_key_pair, encrypted_certificate, bad_certificate, issued_key,
  read_cert_req_id,
}

abbrev pub require : Bool → ClientError → Result ClientError Unit
require b e = if b then ok tt else err e

abbrev pub or_fail : {A : Type 0} → ClientError → Option A → Result ClientError A
or_fail e none = err e
or_fail e (some a) = ok a

-- The types of response that a request expects.
pub data RepType : Type 0 where
  expects_ip expects_cp expects_kup : RepType

-- `wrapError`
abbrev pub wrap_error : ℕ → ClientError → ClientError
wrap_error code e = if code == 200 then e else with_http_status code e

-- `withUnverifiedStatus`
abbrev pub with_unverified_status : Reply → ClientError → ClientError
with_unverified_status (error_reply (some si)) e = unverified_status si e
with_unverified_status _ e = e

-- `parseErrorResponse` of an error message: the error is nil for accepted and grantedWithMods.
abbrev pub parse_error_response : Option PkiStatusInfo → ClientError
parse_error_response none = failed bad_content
parse_error_response (some si) = elim (as_error si) [ some e ↦ status e | none ↦ no_error ]

-- `answeringCertReqIDs`
unfoldable pub answering_cert_req_ids : Outgoing → Result ClientError (List ℤ)
answering_cert_req_ids p10cr_request = ok (negsuc 0 ∷ pos 0 ∷ [])
answering_cert_req_ids (cert_request (some ids)) = ok ids
answering_cert_req_ids _ = err (failed read_cert_req_id)

-- `checkCertReqID`
unfoldable pub contains_id : ℤ → List ℤ → Bool
contains_id id [] = false
contains_id id (i ∷ ids) = if eqb_ℤ i id then true else contains_id id ids

abbrev pub check_cert_req_id : CertResponse → List ℤ → Result ClientError Unit
check_cert_req_id resp ids =
    require (contains_id resp.cert_req_id ids) (failed cert_req_id_mismatch)

-- `extractCertRespAndRep`: the content of the expected type, and its only response.
unfoldable pub content_of : RepType → Reply → Result ClientError CertRepMessage
content_of expects_ip (ip c) = or_fail (failed bad_content) c
content_of expects_cp (cp c) = or_fail (failed bad_content) c
content_of expects_kup (kup c) = or_fail (failed bad_content) c
content_of _ _ = err (failed body_type)

abbrev single : CertRepMessage → Result ClientError (CertResponse × CertRepMessage)
single rep = elim rep.response [
  | [] ↦ err (failed empty_response)
  | resp ∷ rest ↦ elim rest [ [] ↦ ok (resp, rep) | _ ∷ _ ↦ err (failed many_responses) ]
]

unfoldable pub extract_cert_resp_and_rep :
    RepType → Reply → Result ClientError (CertResponse × CertRepMessage)
unfolding content_of
extract_cert_resp_and_rep expected reply = content_of expected reply >>= single

-- `extractCertificate`, with the parser of certificates.
unfoldable pub extract_certificate : Env → CertResponse → Result ClientError Certificate
extract_certificate env resp = elim resp.certified_key_pair [
  | none ↦ err (failed missing_key_pair)
  | some none ↦ err (failed encrypted_certificate)
  | some (some raw) ↦ or_fail (failed bad_certificate) (env.certs.parse_certificate raw)
]

-- `certResp.Status.Status` is accepted or grantedWithMods.
abbrev pub is_granted : CertResponse → Bool
is_granted r =
    eqb_ℤ r.status.status status_accepted || eqb_ℤ r.status.status status_granted_with_mods

module _ (env : Env) (c : Client) where
  -- The extra certificates of the response, then the known signer, then the configured ones.
  abbrev pub candidates : Received → Option Certificate → List Bytes
  candidates resp known =
      resp.message.extra_certs
      ++ ((elim known as (λ _. List Bytes) [ none ↦ [] | some k ↦ k.raw ∷ [] ])
          ++ map (λ (s : Certificate). s.raw) c.server_certs)

  abbrev pub verify_options :
      Credentials → Received → Option Opaque → Option Certificate → VerifyOptions
  verify_options creds resp trusted known = record {
    required_protection = c.response_protection;
    shared_secret = creds.shared_secret;
    trust_pool = trusted;
    trusted_cert = none;
    extra_certs = candidates resp known;
    sender_kid = resp.message.header.sender_kid;
    require_digital_signature_key_usage = false;
    allow_sha1_signatures = c.allow_sha1_signatures;
  }

  abbrev pub nonce_matches : PkiHeader → Received → Option Bytes → Bool
  nonce_matches req resp alternative =
      bytes_eq resp.message.header.recip_nonce req.sender_nonce
      || (elim alternative as (λ _. Bool) [
        | none ↦ false
        | some nonce ↦ bytes_eq resp.message.header.recip_nonce nonce
      ])

  abbrev or_verification : {A : Type 0} → Result Failure A → Result ClientError A
  or_verification (ok a) = ok a
  or_verification (err e) = err (verification e)

  -- `verifyResponse`
  unfoldable pub verify_response :
      PkiHeader
      → Received
      → Credentials
      → Option Opaque
      → Option Certificate
      → Option Bytes
      → Time
      → Result ClientError VerifyResult
  unfolding Verify.verify
  verify_response req resp creds trusted known alternative now =
      require (bytes_eq resp.message.header.transaction_id req.transaction_id)
        (failed transaction_id_mismatch)
      >> require (nonce_matches req resp alternative) (failed recipient_nonce_mismatch)
      >> require (is_some resp.message.header.protection_alg) (failed missing_protection_alg)
      >> or_verification (
          Verify.verify env.mac env.keys env.certs (verify_options creds resp trusted known) now
            resp.message)

  -- `resp.Header.PVNO` is 2 or 3.
  abbrev pub check_version : Received → Result ClientError Unit
  check_version resp =
      require
        (not (ltb_ℤ resp.message.header.pvno (pos 2))
          && not (ltb_ℤ (pos 3) resp.message.header.pvno))
        (failed protocol_version)

  -- `checkIssuedKey`; no requested key is nil.
  unfoldable pub check_issued_key : Certificate → Option Opaque → Result ClientError Unit
  check_issued_key cert none = ok tt
  check_issued_key cert (some requested) = elim (certificate_key env.keys cert) [
    | none ↦ err (failed issued_key)
    | some key ↦ require (env.keys.keys_equal key (some requested)) (failed issued_key)
  ]

  -- `enrollmentTrustPool`
  unfoldable pub enrollment_trust_pool : VerifyResult → List Certificate → Option Opaque
  enrollment_trust_pool vr ca_pubs =
      if not vr.mac_verified || is_empty ca_pubs
      then c.trusted_cas
      else some (env.add_certs c.trusted_cas ca_pubs)

  -- `parseCMPCertificates`
  unfoldable pub parse_cmp_certificates : List Bytes → List Certificate
  unfolding parsed_certificates
  parse_cmp_certificates raws = parsed_certificates env.mac env.keys env.certs raws

  -- `verifyIssuedCertificate`
  unfoldable pub verify_issued_certificate : Certificate → Opaque → List Certificate → Time → Bool
  unfolding chains_to
  verify_issued_certificate cert roots found now =
      chains_to env.mac env.keys env.certs roots found now cert
