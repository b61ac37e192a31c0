-- ===== src/Server/CertRequest.antt =====
-- `handleCertRequest` of server/response.go.
pub mod Delivery
use go_pkicmp_ng.Prelude.{
  ℕ, Bool, true, false, not, ◌&&◌, ◌||◌, Option, none, some, List, [], ◌∷◌, Bytes, is_some,
  if◌then◌else◌,
}
use go_pkicmp_ng.Prelude.Int.{ℤ, pos, negsuc}
use go_pkicmp_ng.Prelude.Result.{Result, ok, err}
use go_pkicmp_ng.Pkicmp.Types.{Time, Opaque, Certificate}
use go_pkicmp_ng.Pkicmp.Status.{
  PkiStatusInfo, status_accepted, status_waiting, has_fail, fail_bad_alg, fail_bad_message_check,
  fail_transaction_id_in_use, fail_system_failure,
}
use go_pkicmp_ng.Pkicmp.Message.{
  Request, Content, ir, cr, kur, p10cr, cert_conf, poll_req, rr, CertReqMsg,
}
use go_pkicmp_ng.Server.Entry.{RequestType, TransactionTracker}
use go_pkicmp_ng.Server.Tracker.{get_pending, set_pending, set_issued, set_completed, Issuance}
use go_pkicmp_ng.Server.Config.{
  Env, Config, SenderIdentity, Handler, Handled, HandlerError, HandlerContext, Response,
  WaitingResponse, credential_id, error_to_status_info, Log, confirm_certificate, confirm_implicit,
}
use go_pkicmp_ng.Server.Response.{
  Reply, status_only, build_error_response, build_cert_rep_response, request_has_implicit_confirm,
}
use go_pkicmp_ng.Server.Crmf.{cert_req_id_from_request}
use go_pkicmp_ng.Server.State.{State, Inputs, Outcome, answered, panicked}

-- `requestTypeFromBody`; another body gives its tag.
unfoldable pub request_type_from_body : Content → RequestType
request_type_from_body (ir _) = pos 0
request_type_from_body (cr _) = pos 2
request_type_from_body (kur _) = pos 7
request_type_from_body (p10cr _) = pos 4
request_type_from_body (cert_conf _) = pos 24
request_type_from_body (poll_req _) = pos 25
request_type_from_body (rr _) = pos 11
request_type_from_body Content.error_message = pos 23
request_type_from_body Content.nested_again = pos 20
request_type_from_body (Content.other_body n) = pos n

abbrev pub accepted : PkiStatusInfo
accepted = record { status = status_accepted; status_string = []; fail_info = 0 }

abbrev pub is_p10cr : Content → Bool
is_p10cr (p10cr _) = true
is_p10cr _ = false

module _ (env : Env) (cfg : Config) where
  -- The answer to a handler's error.
  unfoldable pub reject_cert_request : Inputs → Request → SenderIdentity → PkiStatusInfo → Reply
  unfolding cert_req_id_from_request
  reject_cert_request inp req sender si =
      if has_fail si.fail_info fail_bad_alg && is_p10cr req.content
      then build_error_response env cfg inp.reply req.header (some sender) si
      else if has_fail si.fail_info fail_bad_message_check
      then build_error_response env cfg inp.reply req.header (some sender) si
      else build_cert_rep_response env cfg inp.reply req.header
          (cert_req_id_from_request env req.content) si none [] (some sender)
          (request_type_from_body req.content) none

  -- A waiting response is recorded for the polls.
  unfoldable pub defer_cert_request :
      Inputs → Bytes → Request → SenderIdentity → WaitingResponse → State → Outcome × State
  defer_cert_request inp cred req sender w st =
      let q = request_type_from_body req.content in
      let reply =
        build_cert_rep_response env cfg inp.reply req.header
          (cert_req_id_from_request env req.content)
          (record { status = status_waiting; status_string = []; fail_info = 0 }) none []
          (some sender) q none in
      let (tracker, done) =
        set_pending env.sha256 cred req.header.transaction_id q w.poll_ref reply.sender_nonce
          w.check_after 0 inp.stored st.tracker in
      (
        answered (
            if done
            then reply
            else build_error_response env cfg inp.error_reply req.header (some sender)
                (status_only fail_system_failure)),
        record st { tracker = tracker },
      )

  -- The certificate of an accepted request, recorded for its confirmation or confirmed implicitly.
  -- `params` are those of the reply, `cert_req_id` and `q` those of the request that began it.
  unfoldable pub deliver :
      Inputs
      → Bytes
      → Request
      → SenderIdentity
      → RequestType
      → ℤ
      → Response
      → Reply
      → Certificate
      → State
      → Outcome × State
  deliver inp cred req sender q cert_req_id resp reply cert st =
      if cfg.implicit_confirm && request_has_implicit_confirm env cfg req.header.general_info
      then (
        answered reply,
        record {
          tracker = set_completed env.sha256 cred req.header.transaction_id inp.stored st.tracker;
          log =
              if cfg.has_confirmer
              then confirm_certificate cert confirm_implicit resp.issue_ref ∷ st.log
              else st.log;
        },
      )
      else let (tracker, done) =
          set_issued env.sha256 cred req.header.transaction_id
            (record {
              req_type = q;
              cert_req_id = cert_req_id;
              cert = cert;
              issue_ref = resp.issue_ref;
              sender_nonce = reply.sender_nonce;
              client_sender_nonce = req.header.sender_nonce;
              protection_params = sender.protection_params;
              algorithm = req.header.protection_alg;
            })
            inp.stored st.tracker in
        (
          answered (
              if done
              then reply
              else build_error_response env cfg inp.error_reply req.header (some sender)
                  (status_only fail_transaction_id_in_use)),
          record st { tracker = tracker },
        )

  abbrev pub deliver_if_any :
      Inputs
      → Bytes
      → Request
      → SenderIdentity
      → RequestType
      → ℤ
      → Response
      → Reply
      → Option Certificate
      → State
      → Outcome × State
  deliver_if_any inp cred req sender q id resp reply none st = (answered reply, st)
  deliver_if_any inp cred req sender q id resp reply (some cert) st =
      deliver inp cred req sender q id resp reply cert st

  -- An answer of the handler without an error.
  abbrev pub accept_cert_request :
      Inputs
      → Bytes
      → Request
      → SenderIdentity
      → Response
      → Option WaitingResponse
      → State
      → Outcome × State
  accept_cert_request inp cred req sender resp (some w) st =
      defer_cert_request inp cred req sender w st
  accept_cert_request inp cred req sender resp none st =
      let q = request_type_from_body req.content in
      let id = cert_req_id_from_request env req.content in
      deliver_if_any inp cred req sender q id resp
        (build_cert_rep_response env cfg inp.reply req.header id accepted resp.certificate
          resp.ca_certs (some sender) q sender.protection_params)
        resp.certificate st

  abbrev pub answer_cert_request :
      Inputs → Bytes → Request → SenderIdentity → Handled → State → Outcome × State
  answer_cert_request inp cred req sender (err e) st =
      (answered (reject_cert_request inp req sender (error_to_status_info e)), st)
  answer_cert_request inp cred req sender (ok none) st = (panicked, st)
  answer_cert_request inp cred req sender (ok (some resp)) st =
      accept_cert_request inp cred req sender resp resp.waiting st

  module _ (handle : Handler) where
    -- `handleCertRequest`, once the sender has credentials.
    unfoldable pub cert_request_for :
        Inputs → HandlerContext → Bytes → Request → SenderIdentity → State → Outcome × State
    unfolding reject_cert_request defer_cert_request deliver request_type_from_body
    cert_request_for inp ctx cred req sender st =
        if is_some (get_pending env.sha256 cred req.header.transaction_id st.tracker)
        then (
          answered (
              build_error_response env cfg inp.reply req.header (some sender)
                (status_only fail_transaction_id_in_use)),
          st,
        )
        else let (handled, log) = handle ctx req sender st.log in
          answer_cert_request inp cred req sender handled (record st { log = log })

    unfoldable pub handle_cert_request :
        Inputs → HandlerContext → Request → SenderIdentity → State → Outcome × State
    unfolding cert_request_for
    handle_cert_request inp ctx req sender st = elim (credential_id env sender) [
      | none ↦ (
        answered (
            build_error_response env cfg inp.reply req.header (some sender)
              (status_only fail_bad_message_check)),
        st,
      )
      | some cred ↦ cert_request_for inp ctx cred req sender st
    ]
