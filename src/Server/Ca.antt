-- ===== src/Server/Ca.antt =====
-- server/ca.go: the handler that answers through a CA.
pub mod Safety
pub mod Issuance
use go_pkicmp_ng.Prelude.{
  ℕ, Bool, true, false, not, ◌&&◌, Option, none, some, List, [], ◌∷◌, Bytes, text, if◌then◌else◌,
}
use go_pkicmp_ng.Prelude.Int.{ℤ, pos, eqb_ℤ}
use go_pkicmp_ng.Prelude.Result.{Result, ok, err, ◌>>=◌, ◌>>◌}
use go_pkicmp_ng.Pkicmp.Types.{Opaque, RdnSequence, Certificate, Extension}
use go_pkicmp_ng.Pkicmp.Status.{
  fail_bad_alg, fail_bad_request, fail_bad_data_format, fail_not_authorized, status_rejection,
  PkiStatusInfo,
}
use go_pkicmp_ng.Pkicmp.Algorithms.Confirmation.{CertStatus}
use go_pkicmp_ng.Pkicmp.Message.{Request, Content, ir, cr, kur, p10cr, cert_conf, poll_req, rr, Csr}
use go_pkicmp_ng.Server.Entry.{RequestType}
use go_pkicmp_ng.Server.Config.{
  Env, SenderIdentity, Handler, Handled, HandlerError, HandlerContext, Log, Template, ConfirmStatus,
  confirm_accepted, confirm_rejected, RevocationRequest, issue_certificate, check_pending,
  confirm_certificate, authorize_revocation, revoke_certificate,
}
use go_pkicmp_ng.Server.Crmf.{
  reject, parse_crmf_msg, enforce_proof_of_possession, decode_basic_constraints,
}
use go_pkicmp_ng.Server.Revocation.{parse_revocation_request, identifies, match_certificate}

-- `CA` and the interfaces that a CA may implement, `none` where it does not. What a CA answers may
-- depend on all that it was asked before.
pub record Ca : Type 0 where
  pub issue : RequestType → Template → SenderIdentity → Log → Handled
  pub pending_checker : Option (Bytes → SenderIdentity → Log → Handled)
  pub confirmer :
      Option (Certificate → ConfirmStatus → Option Opaque → Log → Result HandlerError Unit)
  pub revoker : Option (RevocationRequest → SenderIdentity → Log → Result HandlerError Unit)
  pub revocation_authorizer :
      Option (RevocationRequest → SenderIdentity → Log → Result HandlerError Unit)

-- `certStatusRejects`
unfoldable pub cert_status_rejects : CertStatus → Bool
cert_status_rejects cs = elim cs.status_info [
  | none ↦ false
  | some si ↦ eqb_ℤ si.status status_rejection
]

-- What `caHandler.handleCertConf` tells the CA.
unfoldable pub verdict : List CertStatus → ConfirmStatus
unfolding cert_status_rejects
verdict [] = confirm_rejected
verdict (cs ∷ _) = if cert_status_rejects cs then confirm_rejected else confirm_accepted

-- `bodyTypeToRequestType`
unfoldable pub body_type_to_request_type : Content → RequestType
body_type_to_request_type (cr _) = pos 2
body_type_to_request_type (kur _) = pos 7
body_type_to_request_type (p10cr _) = pos 4
body_type_to_request_type _ = pos 0

-- An answer that carries nothing.
abbrev no_response : Result HandlerError Unit → Handled
no_response r = r >>= (λ _. ok none)

-- What is asked of the CA: subject, key, extensions.
pub record Asked : Type 0 where
  pub subject : RdnSequence
  pub public_key : Option Opaque
  pub extensions : List Extension

module _ (env : Env) (ca : Ca) where
  abbrev asked_by_csr : Csr → Result HandlerError Asked
  asked_by_csr csr = elim (env.parse_public_key csr.raw_subject_public_key_info) [
    | none ↦ reject fail_bad_alg (env.parse_error_text csr.raw_subject_public_key_info)
    | some key ↦
        ok (record { subject = csr.subject; public_key = some key; extensions = csr.extensions })
  ]

  abbrev asked : Content → Result HandlerError Asked
  asked (p10cr none) = reject fail_bad_data_format []
  asked (p10cr (some csr)) = asked_by_csr csr
  asked body = parse_crmf_msg env body >>= (λ crmf. ok (record {
    subject = crmf.subject;
    public_key = crmf.public_key;
    extensions = crmf.extensions;
  }))

  abbrev with_key_id : Asked → Result HandlerError Template
  with_key_id a = elim (env.marshal_public_key a.public_key) [
    | none ↦ reject fail_bad_alg (env.marshal_error_text a.public_key)
    | some der ↦ ok (record {
      subject = a.subject;
      public_key = a.public_key;
      subject_key_id = env.sha1 der;
      extra_extensions = a.extensions;
    })
  ]

  -- `caHandler.handleCertRequest`, up to the call of the CA.
  unfoldable pub build_template : Content → Bool → Result HandlerError Template
  unfolding enforce_proof_of_possession parse_crmf_msg decode_basic_constraints
  build_template body allow_sha1 =
      enforce_proof_of_possession env body allow_sha1
      >> (asked body >>= (λ a. decode_basic_constraints env a.extensions >> with_key_id a))

  abbrev issue_if :
      RequestType → SenderIdentity → Log → Result HandlerError Template → Handled × Log
  issue_if q sender log (err e) = (err e, log)
  issue_if q sender log (ok t) = (ca.issue q t sender log, issue_certificate q t sender ∷ log)

  abbrev ca_cert_request : HandlerContext → Request → SenderIdentity → Log → Handled × Log
  ca_cert_request ctx req sender log =
      issue_if (body_type_to_request_type req.content) sender log
        (build_template req.content ctx.allow_sha1_signatures)

  -- `caHandler.handleCertConf`
  unfoldable pub ca_cert_conf : HandlerContext → Option (List CertStatus) → Log → Handled × Log
  unfolding verdict
  ca_cert_conf ctx conf log = elim ca.confirmer [
    | none ↦ (ok none, log)
    | some confirm ↦ elim conf [
      | none ↦ (reject fail_bad_data_format [], log)
      | some statuses ↦ elim ctx.issued_cert [
        | none ↦ (reject fail_bad_request (text "no issued certificate"), log)
        | some cert ↦ (
          no_response (confirm cert (verdict statuses) ctx.issue_ref log),
          confirm_certificate cert (verdict statuses) ctx.issue_ref ∷ log,
        )
      ]
    ]
  ]

  -- `caHandler.handlePollReq`
  unfoldable pub ca_poll_req : HandlerContext → SenderIdentity → Log → Handled × Log
  ca_poll_req ctx sender log = elim ca.pending_checker [
    | none ↦ (reject fail_bad_request (text "polling not supported"), log)
    | some check ↦ elim ctx.poll_ref [
      | none ↦ (reject fail_bad_request (text "no pending certificate"), log)
      | some r ↦ (check r sender log, check_pending r sender ∷ log)
    ]
  ]

  -- Whether the sender signed with the certificate that the request names.
  unfoldable pub signed_by_named : RevocationRequest → SenderIdentity → Bool
  signed_by_named r sender = elim sender.certificate [
    | none ↦ false
    | some cert ↦ identifies env r cert
  ]

  abbrev match_sender : RevocationRequest → SenderIdentity → Result HandlerError Unit
  match_sender r sender = elim sender.certificate [
    | none ↦ ok tt
    | some cert ↦ match_certificate env r cert
  ]

  -- Who authorizes the request, and what the CA was asked for it.
  unfoldable pub authorize_request :
      RevocationRequest → SenderIdentity → Log → Result HandlerError Unit × Log
  unfolding signed_by_named
  authorize_request r sender log =
      if signed_by_named r sender
      then (match_sender r sender, log)
      else elim ca.revocation_authorizer [
        | none ↦ (
          reject fail_not_authorized
              (text "revocation request must be signed with the certificate being revoked"),
          log,
        )
        | some authorize ↦ (authorize r sender log, authorize_revocation r sender ∷ log)
      ]

  abbrev revoke_if :
      (RevocationRequest → SenderIdentity → Log → Result HandlerError Unit)
      → RevocationRequest
      → SenderIdentity
      → Result HandlerError Unit × Log
      → Handled × Log
  revoke_if revoke r sender (err e, log) = (err e, log)
  revoke_if revoke r sender (ok _, log) =
      (no_response (revoke r sender log), revoke_certificate r sender ∷ log)

  -- `caHandler.handleRevocation`
  unfoldable pub ca_revocation : Content → SenderIdentity → Log → Handled × Log
  unfolding parse_revocation_request authorize_request
  ca_revocation body sender log = elim ca.revoker [
    | none ↦ (reject fail_bad_request (text "revocation not supported"), log)
    | some revoke ↦ elim (parse_revocation_request env body) [
      | err e ↦ (err e, log)
      | ok r ↦ revoke_if revoke r sender (authorize_request r sender log)
    ]
  ]

  abbrev by_body : HandlerContext → Request → SenderIdentity → Content → Log → Handled × Log
  by_body ctx req sender (ir _) log = ca_cert_request ctx req sender log
  by_body ctx req sender (cr _) log = ca_cert_request ctx req sender log
  by_body ctx req sender (kur _) log = ca_cert_request ctx req sender log
  by_body ctx req sender (p10cr _) log = ca_cert_request ctx req sender log
  by_body ctx req sender (cert_conf conf) log = ca_cert_conf ctx conf log
  by_body ctx req sender (poll_req _) log = ca_poll_req ctx sender log
  by_body ctx req sender (rr ds) log = ca_revocation (rr ds) sender log
  by_body ctx req sender _ log = (reject fail_bad_request [], log)

  -- `caHandler.HandleCMP`
  unfoldable pub ca_handler : Handler
  unfolding build_template ca_cert_conf ca_poll_req ca_revocation body_type_to_request_type
  ca_handler ctx req sender log = by_body ctx req sender req.content log
