-- ===== src/Server/CertRequest/Delivery.antt =====
-- No certificate leaves the server unrecorded.
use go_pkicmp_ng.Prelude.{
  ◌≡◌, refl, ap, ◌∙◌, ◌⊎◌, inl, inr, Bool, true, false, ◌&&◌, Option, none, some, List, ◌∷◌, Bytes,
  arith, Option-cases, Bool-cases, is_some,
}
use go_pkicmp_ng.Prelude.Int.{ℤ}
use go_pkicmp_ng.Prelude.Result.{ok, err}
use go_pkicmp_ng.Pkicmp.Types.{Opaque, Certificate}
use go_pkicmp_ng.Pkicmp.Status.{PkiStatusInfo, fail_bad_message_check, fail_transaction_id_in_use}
use go_pkicmp_ng.Pkicmp.Message.{Request, PkiHeader}
use go_pkicmp_ng.Server.Entry.{TransactionEntry, RequestType}
use go_pkicmp_ng.Server.Tracker.{
  get_issued, set_issued, get_pending, issued_entry, Issuance, make_credential_key,
}
use go_pkicmp_ng.Server.Tracker.Transitions.{set_issued-outcome}
use go_pkicmp_ng.Server.Config.{
  Env, Config, SenderIdentity, Handler, Handled, HandlerContext, Response, WaitingResponse, Log,
  credential_id, confirm_certificate, confirm_implicit, error_to_status_info,
}
use go_pkicmp_ng.Server.Response.{
  Reading, Reply, ReplyBody, ip, kup, cp, build_response_internal, build_error_response,
  build_response, status_only, build_cert_rep_response, request_has_implicit_confirm,
}
use go_pkicmp_ng.Server.CertRequest.{
  request_type_from_body, accepted, deliver, reject_cert_request, defer_cert_request,
  cert_request_for, handle_cert_request, answer_cert_request, accept_cert_request,
}
use go_pkicmp_ng.Server.Crmf.{cert_req_id_from_request}
use go_pkicmp_ng.Server.State.{State, Inputs, answered}

-- The certificate that a reply carries.
unfoldable pub delivered_certificate : ReplyBody → Option Bytes
delivered_certificate (ip rep) = rep.certificate
delivered_certificate (kup rep) = rep.certificate
delivered_certificate (cp rep) = rep.certificate
delivered_certificate _ = none

-- Whether the certificate of this request is confirmed without a certConf.
abbrev pub confirms_implicitly : Env → Config → Request → Bool
confirms_implicitly env cfg req =
    cfg.implicit_confirm && request_has_implicit_confirm env cfg req.header.general_info

-- A delivered certificate is recorded: under the credential of the sender, with the nonce of the reply,
-- for its confirmation; or it is confirmed at once, as far as the CA wants to know.
pub IsRecorded : Env → Config → Request → Bytes → Reply → Bytes → State → Type 0
IsRecorded env cfg req cred reply raw st =
    (cert : Certificate) × (cert.raw ≡ raw)
    × (((confirms_implicitly env cfg req ≡ false)
          × ((entry : TransactionEntry) × (get_issued env.sha256 cred req.header.transaction_id
                  st.tracker
                ≡ some entry)
              × (entry.cert ≡ some cert)
              × (entry.issued_sender_nonce ≡ reply.sender_nonce)
              × (entry.client_sender_nonce ≡ req.header.sender_nonce)))
        ⊎ ((confirms_implicitly env cfg req ≡ true)
            × (cfg.has_confirmer ≡ true
                → (ref : Option Opaque) × (before : Log) × (st.log
                    ≡ confirm_certificate cert confirm_implicit ref ∷ before))))

error-carries_none :
    (env : Env) (cfg : Config) (rd : Reading) (h : PkiHeader) (s : Option SenderIdentity)
    (si : PkiStatusInfo)
    → delivered_certificate (build_error_response env cfg rd h s si).body ≡ none
unfolding build_error_response build_response build_response_internal delivered_certificate
error-carries_none env cfg rd h s si = ground arith

-- Only an accepted response with a certificate carries one.
cert_rep-carries :
    (env : Env) (cfg : Config) (rd : Reading) (h : PkiHeader) (id : ℤ) (si : PkiStatusInfo)
    (cert : Option Certificate) (cas : List Certificate) (s : Option SenderIdentity)
    (q : RequestType) (params : Option Opaque) (raw : Bytes)
    → delivered_certificate (build_cert_rep_response env cfg rd h id si cert cas s q params).body
      ≡ some raw
    → (c : Certificate) × (cert ≡ some c) × (c.raw ≡ raw)
unfolding build_cert_rep_response build_response_internal delivered_certificate
cert_rep-carries env cfg rd h id si none cas s q params raw e = ground arith
cert_rep-carries env cfg rd h id si (some c) cas s q params raw e = (c, refl, ground arith)

of_reply :
    (reply reply' : Reply) (cert : Certificate) (raw : Bytes)
    → (delivered_certificate reply.body ≡ some raw → cert.raw ≡ raw)
    → reply ≡ reply'
    → delivered_certificate reply'.body ≡ some raw
    → cert.raw ≡ raw
of_reply reply reply' cert raw is e d = is (ap (λ (r : Reply). delivered_certificate r.body) e ∙ d)

deliver-IsRecorded :
    (env : Env) (cfg : Config) (inp : Inputs) (cred : Bytes) (req : Request)
    (sender : SenderIdentity) (q : RequestType) (id : ℤ) (resp : Response) (reply reply' : Reply)
    (cert : Certificate) (st st' : State) (raw : Bytes)
    → (delivered_certificate reply.body ≡ some raw → cert.raw ≡ raw)
    → deliver env cfg inp cred req sender q id resp reply cert st ≡ (answered reply', st')
    → delivered_certificate reply'.body ≡ some raw
    → IsRecorded env cfg req cred reply' raw st'
unfolding deliver IsRecorded
deliver-IsRecorded env cfg inp cred req sender q id resp reply reply' cert st st' raw is e d =
    elim (Bool-cases (confirms_implicitly env cfg req)) [
      | inl implicit ↦ (
        cert,
        of_reply reply reply' cert raw is (ground arith) d,
        inr (implicit, λ has. (resp.issue_ref, st.log, ground arith)),
      )
      | inr explicit ↦
          let i : Issuance = record {
            req_type = q;
            cert_req_id = id;
            cert = cert;
            issue_ref = resp.issue_ref;
            sender_nonce = reply.sender_nonce;
            client_sender_nonce = req.header.sender_nonce;
            protection_params = sender.protection_params;
            algorithm = req.header.protection_alg;
          } in
          let set =
            set_issued-outcome env.sha256 cred req.header.transaction_id i inp.stored st.tracker in
          elim (Bool-cases
            (set_issued env.sha256 cred req.header.transaction_id i inp.stored st.tracker).1) [
              | inl done ↦ (
                cert,
                of_reply reply reply' cert raw is (ground arith) d,
                inl (
                  explicit,
                  (
                    issued_entry inp.stored (make_credential_key env.sha256 cred) i,
                    ground (arith, (set.1 done).0),
                    unfold issued_entry in refl,
                    unfold issued_entry in ground arith,
                    unfold issued_entry in refl,
                  ),
                ),
              )
              | inr lost ↦ ground (
                arith,
                error-carries_none env cfg inp.error_reply req.header (some sender)
                    (status_only fail_transaction_id_in_use),
              )
            ]
    ]

-- No other answer to a certificate request carries a certificate.
refusals-carry_none :
    (env : Env) (cfg : Config) (inp : Inputs) (cred : Bytes) (req : Request)
    (sender : SenderIdentity) (si : PkiStatusInfo)
    → delivered_certificate (reject_cert_request env cfg inp req sender si).body ≡ none
unfolding reject_cert_request build_error_response build_response build_response_internal
    build_cert_rep_response delivered_certificate
refusals-carry_none env cfg inp cred req sender si = ground arith

deferral-carries_none :
    (env : Env) (cfg : Config) (inp : Inputs) (cred : Bytes) (req : Request)
    (sender : SenderIdentity) (w : WaitingResponse) (st st' : State) (reply : Reply)
    → defer_cert_request env cfg inp cred req sender w st ≡ (answered reply, st')
    → delivered_certificate reply.body ≡ none
unfolding defer_cert_request build_error_response build_response build_response_internal
    build_cert_rep_response delivered_certificate
deferral-carries_none env cfg inp cred req sender w st st' reply e = ground arith

accepted-IsRecorded :
    (env : Env) (cfg : Config) (inp : Inputs) (cred : Bytes) (req : Request)
    (sender : SenderIdentity) (resp : Response) (st st' : State) (reply : Reply) (raw : Bytes)
    → accept_cert_request env cfg inp cred req sender resp none st ≡ (answered reply, st')
    → delivered_certificate reply.body ≡ some raw
    → IsRecorded env cfg req cred reply raw st'
accepted-IsRecorded env cfg inp cred req sender resp st st' reply raw e d =
    let q = request_type_from_body req.content in
    let id = cert_req_id_from_request env req.content in
    let rep =
      build_cert_rep_response env cfg inp.reply req.header id accepted resp.certificate
        resp.ca_certs (some sender) q sender.protection_params in
    let carries =
      cert_rep-carries env cfg inp.reply req.header id accepted resp.certificate resp.ca_certs
        (some sender) q sender.protection_params raw in
    elim (Option-cases resp.certificate) [
      | inl no_cert ↦
          let same : rep ≡ reply = ground arith in
          let found = carries (ap (λ (r : Reply). delivered_certificate r.body) same ∙ d) in
          ground (arith, found.1)
      | inr (cert, has) ↦
          let delivers : deliver env cfg inp cred req sender q id resp rep cert st
              ≡ (answered reply, st') =
            ground arith in
          deliver-IsRecorded env cfg inp cred req sender q id resp rep reply cert st st' raw
            (λ carried. let found = carries carried in cc (found.1, found.2, has)) delivers d
    ]

answer-IsRecorded :
    (env : Env) (cfg : Config) (inp : Inputs) (cred : Bytes) (req : Request)
    (sender : SenderIdentity) (handled : Handled) (st st' : State) (reply : Reply) (raw : Bytes)
    → answer_cert_request env cfg inp cred req sender handled st ≡ (answered reply, st')
    → delivered_certificate reply.body ≡ some raw
    → IsRecorded env cfg req cred reply raw st'
answer-IsRecorded env cfg inp cred req sender (err e') st st' reply raw e d =
    ground (arith, refusals-carry_none env cfg inp cred req sender (error_to_status_info e'))
answer-IsRecorded env cfg inp cred req sender (ok none) st st' reply raw e d = ground arith
answer-IsRecorded env cfg inp cred req sender (ok (some resp)) st st' reply raw e d =
    elim (Option-cases resp.waiting) [
      | inl ready ↦
          accepted-IsRecorded env cfg inp cred req sender resp st st' reply raw (ground arith) d
      | inr (w, waits) ↦
          ground
            (arith, deferral-carries_none env cfg inp cred req sender w st st' reply (ground arith))
    ]

cert_request_for-IsRecorded :
    (env : Env) (cfg : Config) (handle : Handler) (inp : Inputs) (ctx : HandlerContext)
    (req : Request) (sender : SenderIdentity) (st st' : State) (reply : Reply) (raw cred : Bytes)
    → cert_request_for env cfg handle inp ctx cred req sender st ≡ (answered reply, st')
    → delivered_certificate reply.body ≡ some raw
    → IsRecorded env cfg req cred reply raw st'
unfolding cert_request_for
cert_request_for-IsRecorded env cfg handle inp ctx req sender st st' reply raw cred e d =
    elim (Bool-cases (is_some (get_pending env.sha256 cred req.header.transaction_id st.tracker))) [
      | inl waiting ↦ ground (
        arith,
        error-carries_none env cfg inp.reply req.header (some sender)
            (status_only fail_transaction_id_in_use),
      )
      | inr free ↦
          answer-IsRecorded env cfg inp cred req sender (handle ctx req sender st.log).0
            (record st { log = (handle ctx req sender st.log).1 }) st' reply raw (ground arith) d
    ]

-- When the answer to a certificate request carries a certificate, that certificate is recorded.
pub handle_cert_request-IsRecorded :
    (env : Env) (cfg : Config) (handle : Handler) (inp : Inputs) (ctx : HandlerContext)
    (req : Request) (sender : SenderIdentity) (st st' : State) (reply : Reply) (raw : Bytes)
    → handle_cert_request env cfg handle inp ctx req sender st ≡ (answered reply, st')
    → delivered_certificate reply.body ≡ some raw
    → (cred : Bytes) × (credential_id env sender ≡ some cred)
      × IsRecorded env cfg req cred reply raw st'
unfolding handle_cert_request
handle_cert_request-IsRecorded env cfg handle inp ctx req sender st st' reply raw e d =
    elim (Option-cases (credential_id env sender)) [
      | inl nobody ↦ ground (
        arith,
        error-carries_none env cfg inp.reply req.header (some sender)
            (status_only fail_bad_message_check),
      )
      | inr (cred, holder) ↦ (
        cred,
        holder,
        cert_request_for-IsRecorded env cfg handle inp ctx req sender st st' reply raw cred
            (ground arith) d,
      )
    ]
