-- ===== src/Server/Policy.antt =====
-- server/lwpolicy.go: the rules of RFC 9483 that wrap a handler.
use go_pkicmp_ng.Prelude.{Bool, not, ◌&&◌, some, [], is_empty, text, if◌then◌else◌}
use go_pkicmp_ng.Prelude.Int.{pos, eqb_ℤ}
use go_pkicmp_ng.Prelude.Result.{Result, ok, err, ◌>>=◌, ◌>>◌}
use go_pkicmp_ng.Pkicmp.Types.{RdnSequence}
use go_pkicmp_ng.Pkicmp.Status.{
  fail_bad_request, fail_bad_data_format, fail_bad_message_check, fail_wrong_integrity,
  fail_bad_cert_template,
}
use go_pkicmp_ng.Pkicmp.Message.{Request, Content, ir, cr, kur, p10cr, rr}
use go_pkicmp_ng.Server.Config.{Env, SenderIdentity, Handler, HandlerError, Handled, Log}
use go_pkicmp_ng.Server.Crmf.{
  reject, parse_crmf_msg, enforce_proof_of_possession, check_basic_constraints,
}
use go_pkicmp_ng.Server.Revocation.{parse_revocation_request}

module _ (env : Env) where
  -- A request without a subject has an empty name.
  abbrev require_subject : RdnSequence → Result HandlerError Unit
  require_subject n =
      if is_empty (env.name_string n)
      then reject fail_bad_cert_template (text "subject required")
      else ok tt

  -- `validateP10CR`
  unfoldable pub validate_p10cr : Content → Bool → Result HandlerError Unit
  unfolding enforce_proof_of_possession check_basic_constraints
  validate_p10cr (p10cr (some csr)) allow_sha1 =
      enforce_proof_of_possession env (p10cr (some csr)) allow_sha1
      >> (require_subject csr.subject >> check_basic_constraints env csr.extensions)
  validate_p10cr _ allow_sha1 = reject fail_bad_data_format []

  -- `validateRR`
  unfoldable pub validate_rr : Content → SenderIdentity → Result HandlerError Unit
  unfolding parse_revocation_request
  validate_rr body sender =
      if sender.mac_verified
      then reject fail_wrong_integrity (text "revocation requires signature protection")
      else parse_revocation_request env body >>= (λ r.
        if r.has_reason then ok tt else reject fail_bad_request (text "reasonCode required"))

  -- `validateCRMF`
  unfoldable pub validate_crmf : Content → Bool → Result HandlerError Unit
  unfolding parse_crmf_msg enforce_proof_of_possession check_basic_constraints
  validate_crmf body allow_sha1 = parse_crmf_msg env body >>= (λ crmf.
      if not (eqb_ℤ crmf.cert_req_id (pos 0))
      then reject fail_bad_request (text "certReqId must be 0")
      else enforce_proof_of_possession env body allow_sha1
        >> (require_subject crmf.subject >> check_basic_constraints env crmf.extensions))

  abbrev not_mac : SenderIdentity → Result HandlerError Unit
  not_mac sender =
      if sender.mac_verified
      then reject fail_wrong_integrity (text "KUR requires signature protection")
      else ok tt

  -- The rules for each body.
  unfoldable pub body_rules : Content → Bool → SenderIdentity → Result HandlerError Unit
  unfolding validate_p10cr validate_rr validate_crmf
  body_rules (rr ds) allow_sha1 sender = validate_rr (rr ds) sender
  body_rules (kur ms) allow_sha1 sender = not_mac sender >> validate_crmf (kur ms) allow_sha1
  body_rules (ir ms) allow_sha1 sender = validate_crmf (ir ms) allow_sha1
  body_rules (cr ms) allow_sha1 sender = validate_crmf (cr ms) allow_sha1
  body_rules (p10cr csr) allow_sha1 sender = validate_p10cr (p10cr csr) allow_sha1
  body_rules _ allow_sha1 sender = ok tt

  -- All that the policy asks of a request.
  unfoldable pub policy_rules : Request → Bool → SenderIdentity → Result HandlerError Unit
  unfolding body_rules
  policy_rules req allow_sha1 sender =
      if sender.mac_verified
        && (is_empty req.header.sender.directory_name && is_empty req.header.sender_kid)
      then reject fail_bad_message_check (text "MAC protection requires a sender name or senderKID")
      else body_rules req.content allow_sha1 sender

  abbrev next_if : Result HandlerError Unit → Log → Handled × Log → Handled × Log
  next_if (err e) log next = (err e, log)
  next_if (ok _) log next = next

  -- `LightweightPolicy`
  unfoldable pub lightweight_policy : Handler → Handler
  unfolding policy_rules
  lightweight_policy next ctx req sender log =
      next_if (policy_rules req ctx.allow_sha1_signatures sender) log (next ctx req sender log)
