-- ===== src/Server/Process.antt =====
-- `process`, `handleNested` and `CleanupExpired` of server/server.go and nested.go.
pub mod Gates
pub mod Nested
pub mod Replay
use go_pkicmp_ng.Prelude.{
  ℕ, Bool, true, false, not, ◌&&◌, ◌||◌, Option, none, some, List, [], ◌∷◌, Bytes, bytes_eq, length,
  ltb, is_empty, text, if◌then◌else◌,
}
use go_pkicmp_ng.Prelude.Int.{ℤ, pos, ltb_ℤ}
use go_pkicmp_ng.Prelude.Result.{Result, ok, err, ◌>>=◌, ◌>>◌}
use go_pkicmp_ng.Pkicmp.Types.{Time}
use go_pkicmp_ng.Pkicmp.Status.{
  PkiStatusInfo, FailInfo, has_fail, fail_bad_alg, fail_bad_data_format, fail_bad_message_check,
  fail_bad_request, fail_bad_sender_nonce, fail_system_failure, fail_unsupported_version,
  status_rejection,
}
use go_pkicmp_ng.Pkicmp.Message.{
  Request, PkiHeader, Content, Incoming, plain, nested, nested_again, ir, cr, kur, p10cr, cert_conf,
  poll_req, rr,
}
use go_pkicmp_ng.Server.Entry.{TransactionTracker}
use go_pkicmp_ng.Server.Tracker.{cleanup_expired, ExpiredIssued}
use go_pkicmp_ng.Server.Config.{
  Env, Config, SenderIdentity, Handler, HandlerContext, HandlerError, ServerError,
  error_to_status_info, Log, confirm_certificate, confirm_expired,
}
use go_pkicmp_ng.Server.Response.{
  Reply, pki_conf, status_only, status_text, build_response, build_error_response,
}
use go_pkicmp_ng.Server.State.{State, Inputs, Outcome, answered, refused}
use go_pkicmp_ng.Server.Protection.{Access, verify_protection}
use go_pkicmp_ng.Server.Header.{
  verify_recipient, valid_profile_sender, validate_profile_extra_certs, lacks_transaction_id,
  with_transaction_id, check_header, register,
}
use go_pkicmp_ng.Server.CertRequest.{handle_cert_request}
use go_pkicmp_ng.Server.CertConf.{handle_cert_conf}
use go_pkicmp_ng.Server.PollReq.{handle_poll_req}
use go_pkicmp_ng.Server.Revoke.{handle_revocation}

-- A refusal before the header is validated: to whom the error message goes, and its version.
pub record Refusal : Type 0 where
  pub status_info : PkiStatusInfo
  pub peer : Option SenderIdentity
  pub version : ℤ

module _ (env : Env) (cfg : Config) (access : Access) (handle : Handler) where
  abbrev refusal_reply : Inputs → PkiHeader → Refusal → Reply
  refusal_reply inp h r = record (build_error_response env cfg inp.reply h r.peer r.status_info) {
    pvno = r.version;
  }

  abbrev refuse_unless : Bool → Refusal → Result Refusal Unit
  refuse_unless b r = if b then ok tt else err r

  abbrev unauthenticated : PkiHeader → PkiStatusInfo → Refusal
  unauthenticated h si = record { status_info = si; peer = none; version = h.pvno }

  -- The closest version that is supported, 2 or 3.
  abbrev closest : ℤ → ℤ
  closest v = if ltb_ℤ (pos 3) v then pos 3 else if ltb_ℤ v (pos 2) then pos 2 else v

  abbrev protection_status : ServerError → PkiStatusInfo
  protection_status e =
      status_text
        (if has_fail e.failure_info fail_bad_alg then fail_bad_alg else fail_bad_message_check)
        (env.error_string e.status e.failure_info e.status_text)

  abbrev verified : Request → Result ServerError SenderIdentity → Result Refusal SenderIdentity
  verified req (err e) = err (unauthenticated req.header (protection_status e))
  verified req (ok sender) = ok sender

  abbrev valid_certs : Request → SenderIdentity → Result Bytes Unit → Result Refusal Unit
  valid_certs req sender (ok _) = ok tt
  valid_certs req sender (err t) = err (record {
    status_info = status_text fail_bad_message_check t;
    peer = some sender;
    version = req.header.pvno;
  })

  abbrev profile : Request → SenderIdentity → Result Refusal Unit
  profile req sender =
      if cfg.strict_profile
      then refuse_unless (valid_profile_sender env cfg access req sender) (record {
        status_info =
            status_text fail_bad_message_check
              (text "MAC protection requires directoryName sender");
        peer = some sender;
        version = req.header.pvno;
      })
        >> valid_certs req sender (validate_profile_extra_certs env cfg access req sender)
      else ok tt

  -- The first part of `process`: the sender, once all that precedes the body has passed.
  unfoldable pub authenticate : Request → Result Refusal SenderIdentity
  unfolding verify_recipient verify_protection valid_profile_sender validate_profile_extra_certs
  authenticate req =
      refuse_unless (not cfg.signer_err)
        (unauthenticated req.header (status_text fail_system_failure (text "server misconfigured")))
      >> (refuse_unless (not (ltb_ℤ req.header.pvno (pos 2) || ltb_ℤ (pos 3) req.header.pvno))
            (record {
              status_info = status_only fail_unsupported_version;
              peer = none;
              version = closest req.header.pvno;
            })
          >> (refuse_unless (verify_recipient env cfg access req.header) (
                unauthenticated req.header (
                  status_text fail_bad_request (
                    env.error_string status_rejection fail_bad_request
                      (text "recipient does not match server identity"))))
              >> (verified req (verify_protection env cfg access req)
                  >>= (λ sender. profile req sender >> ok sender))))

  abbrev context : HandlerContext
  context = record {
    poll_ref = none;
    issued_cert = none;
    issue_ref = none;
    allow_sha1_signatures = cfg.allow_sha1_signatures;
  }

  -- The dispatch by body type.
  abbrev dispatch : Inputs → Request → SenderIdentity → Content → State → Outcome × State
  dispatch inp req sender (cert_conf conf) st =
      handle_cert_conf env cfg handle inp context req sender conf st
  dispatch inp req sender (poll_req ids) st =
      handle_poll_req env cfg handle inp context req sender ids st
  dispatch inp req sender (rr _) st = handle_revocation env cfg handle inp context req sender st
  dispatch inp req sender Content.error_message st =
      (answered (build_response env cfg inp.reply req.header pki_conf (some sender)), st)
  dispatch inp req sender (ir _) st = handle_cert_request env cfg handle inp context req sender st
  dispatch inp req sender (cr _) st = handle_cert_request env cfg handle inp context req sender st
  dispatch inp req sender (kur _) st = handle_cert_request env cfg handle inp context req sender st
  dispatch inp req sender (p10cr _) st =
      handle_cert_request env cfg handle inp context req sender st
  dispatch inp req sender _ st = refused env cfg inp req sender (status_only fail_bad_request) st

  abbrev header_status : ServerError → PkiStatusInfo
  header_status e = record {
    status = e.status;
    status_string = e.status_text ∷ [];
    fail_info = e.failure_info;
  }

  abbrev dispatch_if :
      Inputs
      → Request
      → SenderIdentity
      → Result ServerError Unit × TransactionTracker
      → State
      → Outcome × State
  dispatch_if inp req sender (err e, t) st =
      refused env cfg inp req sender (header_status e) (record st { tracker = t })
  dispatch_if inp req sender (ok _, t) st =
      dispatch inp req sender req.content (record st { tracker = t })

  abbrev start_if :
      Inputs → Request → SenderIdentity → Result ServerError Unit → State → Outcome × State
  start_if inp req sender (err e) st = refused env cfg inp req sender (header_status e) st
  start_if inp req sender (ok _) st =
      dispatch_if inp req sender (register env cfg access req sender inp.started st.tracker) st

  -- The last part of `process`, from `validateHeader` on.
  unfoldable pub answer_request : Inputs → Request → SenderIdentity → State → Outcome × State
  unfolding lacks_transaction_id with_transaction_id check_header register handle_cert_request
      handle_cert_conf handle_poll_req handle_revocation
  answer_request inp req sender st =
      if lacks_transaction_id env cfg access req
      then refused env cfg inp req sender
          (status_text fail_bad_data_format (text "missing transactionID")) st
      else let req' = with_transaction_id env cfg access req inp.assigned_id in
        start_if inp req' sender (check_header env cfg access req' inp.checked) st

  -- A request that was sent directly.
  abbrev process_direct : Inputs → Request → Result Refusal SenderIdentity → State → Outcome × State
  process_direct inp req (err r) st = (answered (refusal_reply inp req.header r), st)
  process_direct inp req (ok sender) st = answer_request inp req sender st

  -- The verdict of the authorizer on a forwarded request.
  abbrev forward_if :
      Inputs
      → Request
      → SenderIdentity
      → Request
      → SenderIdentity
      → Result HandlerError Unit
      → State
      → Outcome × State
  forward_if inp outer ra req sender (err e) st =
      refused env cfg inp outer ra (error_to_status_info e) st
  forward_if inp outer ra req sender (ok _) st = answer_request inp req sender st

  abbrev process_forwarded :
      (SenderIdentity → Request → SenderIdentity → Result HandlerError Unit)
      → Inputs
      → Request
      → SenderIdentity
      → Request
      → Result Refusal SenderIdentity
      → State
      → Outcome × State
  process_forwarded authorize inp outer ra req (err r) st =
      (answered (refusal_reply inp req.header r), st)
  process_forwarded authorize inp outer ra req (ok sender) st =
      let sender' : SenderIdentity = record sender { ra = some (ra.identity) } in
      forward_if inp outer ra req sender' (authorize ra req sender') st

  -- The single message that a nested message may carry.
  unfoldable pub forwarded_request :
      PkiHeader → Option (List Request) → Result PkiStatusInfo Request
  forwarded_request h none = err (status_text fail_bad_data_format (text "invalid nested message"))
  forwarded_request h (some (req ∷ [])) = elim req.content [
    | nested_again ↦
        err (status_text fail_bad_request (text "nested message inside a nested message"))
    | _ ↦
        if not (bytes_eq h.transaction_id req.header.transaction_id)
        then err
            (status_text fail_bad_request (text "transactionID differs from the forwarded message"))
        else if not (bytes_eq h.sender_nonce req.header.sender_nonce)
        then err (
            status_text fail_bad_sender_nonce
              (text "senderNonce differs from the forwarded message"))
        else ok req
  ]
  forwarded_request h (some _) =
      err (status_text fail_bad_request (text "batched messages not supported"))

  -- `handleNested`
  unfoldable pub handle_nested :
      Inputs → Request → SenderIdentity → Option (List Request) → State → Outcome × State
  unfolding forwarded_request authenticate answer_request
  handle_nested inp outer ra inner st = elim access.ra_authorizer [
    | none ↦
        refused env cfg inp outer ra
          (status_text fail_bad_request (text "nested messages not accepted")) st
    | some authorize ↦ elim (forwarded_request outer.header inner) [
      | err si ↦ refused env cfg inp outer ra si st
      | ok req ↦ process_forwarded authorize inp outer ra req (authenticate req) st
    ]
  ]

  abbrev process_nested :
      Inputs
      → Request
      → Option (List Request)
      → Result Refusal SenderIdentity
      → State
      → Outcome × State
  process_nested inp outer inner (err r) st = (answered (refusal_reply inp outer.header r), st)
  process_nested inp outer inner (ok ra) st = handle_nested inp outer ra inner st

  -- `processMessage`
  unfoldable pub process_message : Inputs → Incoming → State → Outcome × State
  unfolding authenticate answer_request handle_nested
  process_message inp (plain req) st = process_direct inp req (authenticate req) st
  process_message inp (nested outer inner) st =
      let msg : Request = record outer { content = nested_again } in
      process_nested inp msg inner (authenticate msg) st

-- The notifications of `Server.CleanupExpired`.
abbrev expire_all : List ExpiredIssued → Log → Log
expire_all [] log = log
expire_all (e ∷ es) log =
    expire_all es (confirm_certificate e.cert confirm_expired e.issue_ref ∷ log)

-- `Server.CleanupExpired`
unfoldable pub server_cleanup : Config → Time → State → State
unfolding cleanup_expired
server_cleanup cfg now st =
    let (tracker, found) = cleanup_expired cfg.confirm_wait now st.tracker in
    record {
      tracker = tracker;
      log = if cfg.has_confirmer then expire_all found st.log else st.log;
    }
