-- ===== src/Client/Enroll.antt =====
-- client/transport.go: an enrollment, from the request to the confirmation of the certificate.
pub mod Certified
pub mod Enrolled
pub mod Rejected
pub mod Unconfirmed
use go_pkicmp_ng.Prelude.{
  ℕ, Bool, true, false, not, ◌&&◌, ◌||◌, Option, none, some, List, [], ◌∷◌, ◌++◌, Bytes, text,
  if◌then◌else◌,
}
use go_pkicmp_ng.Prelude.Int.{ℤ, eqb_ℤ}
use go_pkicmp_ng.Prelude.Result.{Result, ok, err, ◌>>=◌, ◌>>◌}
use go_pkicmp_ng.Pkicmp.Types.{Time, Opaque, Certificate}
use go_pkicmp_ng.Pkicmp.Status.{PkiStatusInfo, status_waiting, status_rejection, as_error}
use go_pkicmp_ng.Pkicmp.Algorithms.Confirmation.{CertStatus, new_cert_status}
use go_pkicmp_ng.Pkicmp.Message.{GeneralName, PkiHeader}
use go_pkicmp_ng.Pkicmp.Verify.{VerifyResult}
use go_pkicmp_ng.Client.Config.{
  Client, Env, Credentials, Received, Reply, pki_conf, error_reply, CertResponse, CertRepMessage,
  Outgoing, cert_confirm, Sent, Event, ClientError, failed, status, no_error, nil_dereference,
  not_confirmed, protect_message, body_type, certificate_trust, compute_cert_hash,
}
use go_pkicmp_ng.Client.Response.{
  RepType, wrap_error, or_fail, parse_error_response, answering_cert_req_ids, contains_id,
  check_cert_req_id, extract_cert_resp_and_rep, extract_certificate, is_granted, check_issued_key,
  enrollment_trust_pool, parse_cmp_certificates, verify_issued_certificate,
}
use go_pkicmp_ng.Client.Exchange.{
  Logged, stop, exchange, exchange_first, no_alternative, new_pki_message, follow_up, prepare,
}
use go_pkicmp_ng.Client.Poll.{poll, kept}

-- `EnrollResult`
pub record EnrollResult : Type 0 where
  pub certificate : Certificate
  pub ca_pubs : List Certificate
  pub extra_certificates : List Certificate

-- `certConfirmation`
pub record Confirmation : Type 0 where
  pub req : PkiHeader
  pub resp : Received
  pub trust_pool : Option Opaque
  pub known_signer : Option Certificate

-- The response that carries the certificate, with what its verification gave.
pub record Answer : Type 0 where
  pub resp : Received
  pub verified : VerifyResult
  pub known_signer : Option Certificate
  pub cert_resp : CertResponse
  pub rep : CertRepMessage

-- The names and the key identifier that the options give to the first message.
pub record Names : Type 0 where
  pub sender : GeneralName
  pub recipient : GeneralName
  pub sender_kid : Bytes

abbrev pub wrapped : {A : Type 0} → Received → Result ClientError A → Result ClientError A
wrapped resp (ok a) = ok a
wrapped resp (err e) = err (wrap_error resp.status_code e)

module _ (env : Env) (c : Client) (creds : Credentials) where
  -- What the client makes of the answer to a certConf; a nil error is no failure.
  abbrev pub unless_nil : ClientError → Result ClientError Unit
  unless_nil no_error = ok tt
  unless_nil e = err e

  abbrev pub read_reply : Received → Reply → Result ClientError Unit
  read_reply resp pki_conf = ok tt
  read_reply resp (error_reply si) =
      unless_nil (wrap_error resp.status_code (parse_error_response si))
  read_reply resp _ = err (wrap_error resp.status_code (failed body_type))

  abbrev pub read_confirmation :
      Result ClientError (Received × VerifyResult) → Result ClientError Unit
  read_confirmation (err e) = err e
  read_confirmation (ok (resp, vr)) = read_reply resp resp.reply

  -- `sendCertConf`
  unfoldable pub send_cert_conf : Confirmation → CertStatus → List Event → Logged Unit
  unfolding prepare exchange
  send_cert_conf conf s log =
      elim (prepare env c creds
        (follow_up env c conf.req conf.resp.message.header.sender_nonce log (cert_confirm s))) [
          | err e ↦ stop log e
          | ok m ↦
              let (log', got) =
                exchange env c m.header creds conf.trust_pool conf.known_signer
                  (no_alternative env c) m log in
              (log', read_confirmation got)
        ]

  abbrev pub rejecting : CertStatus → Bytes → CertStatus
  rejecting s reason = record s {
    status_info =
        some (record { status = status_rejection; status_string = reason ∷ []; fail_info = 0 });
  }

  abbrev pub refused : {A : Type 0} → ClientError → Logged Unit → Logged A
  refused reason (log, ok _) = stop log reason
  refused reason (log, err e) = stop log (not_confirmed reason e)

  -- `rejectCertificate`
  unfoldable pub reject_certificate :
      {A : Type 0} → Confirmation → Certificate → ℤ → Bytes → ClientError → List Event → Logged A
  unfolding send_cert_conf new_cert_status
  reject_certificate conf cert id reason e log = elim (new_cert_status env.hashes cert id) [
    | none ↦ stop log (not_confirmed e (failed compute_cert_hash))
    | some s ↦ refused e (send_cert_conf conf (rejecting s reason) log)
  ]

  -- The checks of an issued certificate, by the first that fails: the text of the rejection and the
  -- error.
  abbrev pub objection :
      Bool → Bytes → ClientError → Option (Bytes × ClientError) → Option (Bytes × ClientError)
  objection holds reason e next = if holds then next else some (reason, e)

  abbrev pub is_ok : {A : Type 0} → Result ClientError A → Bool
  is_ok (ok _) = true
  is_ok (err _) = false

  abbrev error_of : Result ClientError Unit → ClientError
  error_of (ok _) = no_error
  error_of (err e) = e

  abbrev pub chains_to_pool : Option Opaque → Certificate → List Certificate → Time → Bool
  chains_to_pool none cert found now = true
  chains_to_pool (some pool) cert found now = verify_issued_certificate env c cert pool found now

  unfoldable pub first_objection :
      Answer
      → Certificate
      → Option Opaque
      → List Certificate
      → List ℤ
      → Option Opaque
      → Time
      → Option (Bytes × ClientError)
  unfolding contains_id check_issued_key verify_issued_certificate text
  first_objection a cert pool found ids requested now =
      let id = check_cert_req_id a.cert_resp ids in
      let key = check_issued_key env c cert requested in
      objection (is_ok id) (text "certReqId does not match the request")
        (wrap_error a.resp.status_code (error_of id))
        (objection (chains_to_pool pool cert found now) (text "certificate validation failed")
          (wrap_error a.resp.status_code (failed certificate_trust))
          (objection (is_ok key) (text "certificate does not certify the requested public key")
            (wrap_error a.resp.status_code (error_of key)) none))

  -- The end of `enroll`: the certificate of a granting response is rejected, or confirmed and returned.
  abbrev pub confirmed : EnrollResult → Logged Unit → Logged EnrollResult
  confirmed r (log, ok _) = (log, ok r)
  confirmed r (log, err e) = stop log e

  unfoldable pub settle :
      PkiHeader → Answer → List ℤ → Option Opaque → Certificate → List Event → Logged EnrollResult
  unfolding parse_cmp_certificates enrollment_trust_pool first_objection reject_certificate
      new_cert_status send_cert_conf
  settle req a ids requested cert log =
      let ca_pubs = parse_cmp_certificates env c a.rep.ca_pubs in
      let extra = parse_cmp_certificates env c a.resp.message.extra_certs in
      let pool = enrollment_trust_pool env c a.verified ca_pubs in
      let conf : Confirmation = record {
        req = req;
        resp = a.resp;
        trust_pool = pool;
        known_signer = a.known_signer;
      } in
      elim (first_objection a cert pool (extra ++ ca_pubs) ids requested (env.now log)) [
        | some (reason, e) ↦ reject_certificate conf cert a.cert_resp.cert_req_id reason e log
        | none ↦ elim (new_cert_status env.hashes cert a.cert_resp.cert_req_id) [
          | none ↦ stop log (wrap_error a.resp.status_code (failed compute_cert_hash))
          | some s ↦
              confirmed
                (record { certificate = cert; ca_pubs = ca_pubs; extra_certificates = extra })
                (send_cert_conf conf s log)
        ]
      ]

  abbrev pub status_failure : CertResponse → ClientError
  status_failure r = elim (as_error r.status) [ some e ↦ status e | none ↦ no_error ]

  unfoldable pub conclude :
      PkiHeader → Answer → List ℤ → Option Opaque → List Event → Logged EnrollResult
  unfolding extract_certificate settle
  conclude req a ids requested log =
      if not (is_granted a.cert_resp)
      then stop log (wrap_error a.resp.status_code (status_failure a.cert_resp))
      else elim (extract_certificate env a.cert_resp) [
        | err e ↦ stop log (wrap_error a.resp.status_code e)
        | ok cert ↦ settle req a ids requested cert log
      ]

  -- The certificate response in a verified response.
  abbrev pub answer_of :
      RepType → Option Certificate → Received × VerifyResult → Result ClientError Answer
  answer_of expected known (resp, vr) =
      wrapped resp (extract_cert_resp_and_rep expected resp.reply) >>= λ found. ok (record {
        resp = resp;
        verified = vr;
        known_signer = kept vr known;
        cert_resp = found.0;
        rep = found.1;
      })

  -- Where polling gives neither a response nor an error, `cmpResp.message` is a nil dereference.
  abbrev pub used : ClientError → ClientError
  used no_error = nil_dereference
  used e = e

  abbrev pub polled_answer :
      RepType → Option Certificate → Logged (Received × VerifyResult) → Logged Answer
  polled_answer expected known (log, ok got) = (log, answer_of expected known got)
  polled_answer expected known (log, err e) = stop log (used e)

  -- A waiting response is polled for, the others stand.
  unfoldable pub await : PkiHeader → RepType → List ℤ → Answer → List Event → Logged Answer
  unfolding contains_id poll extract_cert_resp_and_rep
  await req expected ids a log =
      if eqb_ℤ a.cert_resp.status.status status_waiting
      then (elim (check_cert_req_id a.cert_resp ids) [
        | err e ↦ stop log (wrap_error a.resp.status_code e)
        | ok _ ↦
            polled_answer expected a.known_signer
              (poll env c creds req a.cert_resp.cert_req_id a.resp a.known_signer log)
      ])
      else (log, ok a)

  -- The first response: an error message, or the expected content.
  abbrev pub first_reply : RepType → Received → VerifyResult → Reply → Result ClientError Answer
  first_reply expected resp vr (error_reply si) =
      err (wrap_error resp.status_code (parse_error_response si))
  first_reply expected resp vr _ = answer_of expected none (resp, vr)

  abbrev pub first_answer : RepType → Received × VerifyResult → Result ClientError Answer
  first_answer expected (resp, vr) = first_reply expected resp vr resp.reply

  -- `newRequest`
  abbrev pub new_request : Names → Outgoing → List Event → Result ClientError Sent
  new_request names body log =
      let m = new_pki_message env c names.sender names.recipient [] log body in
      or_fail (failed protect_message)
        (creds.protect (record m { header = record (m.header) { sender_kid = names.sender_kid } }))

  abbrev pub then_do : {A B : Type 0} → Logged A → (A → List Event → Logged B) → Logged B
  then_do (log, err e) next = stop log e
  then_do (log, ok a) next = next a log

  -- `enroll`
  unfoldable pub enroll :
      Names → Outgoing → RepType → Option Opaque → List Event → Logged EnrollResult
  unfolding answering_cert_req_ids exchange_first extract_cert_resp_and_rep await conclude
  enroll names body expected requested log =
      then_do (log, answering_cert_req_ids body)
        (λ ids log.
          then_do (log, new_request names body log)
            (λ req log. then_do (exchange_first env c creds req log) (λ got log.
              then_do (log, first_answer expected got)
                (λ a log.
                  then_do (await req.header expected ids a log)
                    (λ b log. conclude req.header b ids requested log)))))
