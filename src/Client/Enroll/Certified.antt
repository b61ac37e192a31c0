-- ===== src/Client/Enroll/Certified.antt =====
-- client/transport.go: what an enrollment that succeeds has checked.
use go_pkicmp_ng.Prelude.{
  ◌⊎◌, ◌==◌, ℕ, ◌≡◌, refl, ap, subst, inl, inr, Bool, true, false, Option, none, some, List, ◌∷◌,
  ◌++◌, Bytes, arith, Bool-cases, Option-cases,
}
use go_pkicmp_ng.Prelude.Int.{ℤ}
use go_pkicmp_ng.Prelude.Result.{Result, ok, err, ok_or_err, ok_injective}
use go_pkicmp_ng.Pkicmp.Types.{Opaque, Certificate}
use go_pkicmp_ng.Pkicmp.Message.{PkiHeader}
use go_pkicmp_ng.Pkicmp.Algorithms.Confirmation.{CertStatus, new_cert_status}
use go_pkicmp_ng.Pkicmp.Verify.{VerifyResult}
use go_pkicmp_ng.Client.Config.{
  Client, Env, Credentials, Received, Reply, ip, cp, kup, rp, poll_rep, error_reply, pki_conf,
  other_reply, CertResponse, cert_confirm, Event, sent, Sent, ClientError, no_error,
}
use go_pkicmp_ng.Client.Response.{
  RepType, wrap_error, parse_error_response, contains_id, check_cert_req_id,
  extract_cert_resp_and_rep, check_issued_key, enrollment_trust_pool, parse_cmp_certificates,
}
use go_pkicmp_ng.Client.Exchange.{exchange, round_trip, Logged, no_alternative, follow_up, prepare}
use go_pkicmp_ng.Pkicmp.Status.{PkiStatusInfo, as_error}
use go_pkicmp_ng.Client.Poll.{delayed_nonce}
use go_pkicmp_ng.Client.Poll.Answered.{IsVerified, exchange-IsVerified}
use go_pkicmp_ng.Client.Enroll.{
  EnrollResult, Confirmation, Answer, unless_nil, read_reply, read_confirmation, send_cert_conf,
  rejecting, refused, reject_certificate, objection, is_ok, chains_to_pool, first_objection,
  confirmed, settle,
}

module _ (env : Env) (c : Client) (creds : Credentials) where
  -- A response of the expected content, which is verified as the answer to the message sent last; after
  -- polling it may carry the nonce of the first request instead.
  pub record IsAnswer (req : PkiHeader) (expected : RepType) (a : Answer) (log : List Event)
      : Type 0 where
    pub verified :
        IsVerified env c creds c.trusted_cas none a.resp a.verified log
        ⊎ IsVerified env c creds c.trusted_cas
            (delayed_nonce env c creds req a.resp)
            a.resp
            a.verified
            log
    pub content : extract_cert_resp_and_rep expected a.resp.reply ≡ ok (a.cert_resp, a.rep)

  -- What the code takes for a confirmation: pkiConf; or, with the HTTP status 200, an error message whose
  -- status is accepted or grantedWithMods, for which `parseErrorResponse` gives a nil error.
  pub data Confirms (resp : Received) : Type 0 where
    by_pki_conf : resp.reply ≡ pki_conf → Confirms resp
    by_nil_error :
        (si : PkiStatusInfo)
        → resp.reply ≡ error_reply (some si)
        → as_error si ≡ none
        → resp.status_code ≡ 200
        → Confirms resp

  -- The server has confirmed a certificate status: the message sent last is the certConf that carries it,
  -- and the answer with its nonce is verified.
  pub record IsConfirmed (conf : Confirmation) (s : CertStatus) (log : List Event) : Type 0 where
    pub resp : Received
    pub result : VerifyResult
    pub verified : IsVerified env c creds conf.trust_pool none resp result log
    pub m : Sent
    pub before : List Event
    pub last_sent : log ≡ sent m ∷ before
    pub told :
        prepare env c creds
          (follow_up env c conf.req conf.resp.message.header.sender_nonce before (cert_confirm s))
        ≡ ok m
    pub confirms : Confirms resp

  abbrev pub pool_of : Answer → Option Opaque
  pool_of a = enrollment_trust_pool env c a.verified (parse_cmp_certificates env c a.rep.ca_pubs)

  abbrev pub candidates_of : Answer → List Certificate
  candidates_of a =
      parse_cmp_certificates env c a.resp.message.extra_certs
      ++ parse_cmp_certificates env c a.rep.ca_pubs

  abbrev pub conf_of : PkiHeader → Answer → Confirmation
  conf_of req a = record {
    req = req;
    resp = a.resp;
    trust_pool = pool_of a;
    known_signer = a.known_signer;
  }

  -- The certificate passes the checks: at the log before the confirmation, and with it after.
  pub record IsCertified (req : PkiHeader) (a : Answer) (ids : List ℤ) (requested : Option Opaque)
      (cert : Certificate) (before log : List Event) : Type 0 where
    pub answers : contains_id a.cert_resp.cert_req_id ids ≡ true
    pub chains :
        chains_to_pool env c creds (pool_of a) cert (candidates_of a) (env.now before) ≡ true
    pub key : check_issued_key env c cert requested ≡ ok tt
    pub cert_status : CertStatus
    pub hashed : new_cert_status env.hashes cert a.cert_resp.cert_req_id ≡ some cert_status
    pub confirmed : IsConfirmed (conf_of req a) cert_status log

  unless_nil_lem : (e : ClientError) → unless_nil env c creds e ≡ ok tt → e ≡ no_error
  unless_nil_lem e h = ground arith

  -- An error message gives no error only where its status is none and HTTP adds none.
  nil_error :
      (code : ℕ) (si : PkiStatusInfo)
      → wrap_error code (parse_error_response (some si)) ≡ no_error
      → (as_error si ≡ none) × (code ≡ 200)
  nil_error code si h = elim (Bool-cases (code == 200)) [
    | inr other ↦ ground arith
    | inl plain ↦ elim (Option-cases (as_error si)) [
      | inr (e, has) ↦ ground arith
      | inl gone ↦ (gone, ground arith)
    ]
  ]

  read_reply-Confirms :
      (resp : Received) (r : Reply)
      → resp.reply ≡ r
      → read_reply env c creds resp r ≡ ok tt
      → Confirms resp
  read_reply-Confirms resp pki_conf e h = by_pki_conf e
  read_reply-Confirms resp (ip _) e h = ground arith
  read_reply-Confirms resp (cp _) e h = ground arith
  read_reply-Confirms resp (kup _) e h = ground arith
  read_reply-Confirms resp (rp _) e h = ground arith
  read_reply-Confirms resp (poll_rep _) e h = ground arith
  read_reply-Confirms resp (error_reply none) e h = ground arith
  read_reply-Confirms resp (error_reply (some si)) e h =
      let (gone, plain) = nil_error resp.status_code si (unless_nil_lem _ h) in
      by_nil_error si e gone plain
  read_reply-Confirms resp (other_reply _) e h = ground arith

  read_confirmation_lem :
      (got : Result ClientError (Received × VerifyResult))
      → read_confirmation env c creds got ≡ ok tt
      → (resp : Received) × (vr : VerifyResult) × (got ≡ ok (resp, vr)) × Confirms resp
  read_confirmation_lem (err e) h = ground arith
  read_confirmation_lem (ok (resp, vr)) h =
      (resp, vr, refl, read_reply-Confirms resp resp.reply refl h)

  pub send_cert_conf-IsConfirmed :
      (conf : Confirmation) (s : CertStatus) (log : List Event)
      → (send_cert_conf env c creds conf s log).1 ≡ ok tt
      → IsConfirmed conf s (send_cert_conf env c creds conf s log).0
  unfolding send_cert_conf exchange round_trip
  send_cert_conf-IsConfirmed conf s log =
      let m = follow_up env c conf.req conf.resp.message.header.sender_nonce log (cert_confirm s) in
      elim (ok_or_err (prepare env c creds m)) [
        | inr (e, bad) ↦ rw (bad, send_cert_conf) (λ h. ground arith)
        | inl (m', good) ↦
            rw (good, send_cert_conf)
              (λ h.
                let (resp, vr, got, confirms) = read_confirmation_lem _ h in
                record {
                  resp = resp;
                  result = vr;
                  verified =
                      exchange-IsVerified env c creds m' conf.trust_pool conf.known_signer
                        (no_alternative env c) log resp vr got;
                  m = m';
                  before = log;
                  last_sent = refl;
                  told = good;
                  confirms = confirms;
                })
      ]

  objection_lem :
      (holds : Bool) (reason : Bytes) (e : ClientError) (next : Option (Bytes × ClientError))
      → objection env c creds holds reason e next ≡ none
      → (holds ≡ true) × (next ≡ none)
  objection_lem true reason e next h = (refl, h)
  objection_lem false reason e next h = ground arith

  is_ok_lem : (r : Result ClientError Unit) → is_ok env c creds r ≡ true → r ≡ ok tt
  is_ok_lem (ok u) h = refl
  is_ok_lem (err e) h = ground arith

  refused_lem :
      {A P : Type 0} (e : ClientError) (x : Logged Unit) (a : A)
      → (refused env c creds e x).1 ≡ ok a
      → P
  refused_lem e (log, ok u) a h = ground arith
  refused_lem e (log, err e') a h = ground arith

  reject_certificate_lem :
      {A P : Type 0} (conf : Confirmation) (cert : Certificate) (id : ℤ) (reason : Bytes)
      (e : ClientError) (log : List Event) (a : A)
      → (reject_certificate env c creds conf cert id reason e log).1 ≡ ok a
      → P
  unfolding reject_certificate
  reject_certificate_lem conf cert id reason e log a =
      elim (Option-cases (new_cert_status env.hashes cert id)) [
        | inl gone ↦ rw (gone, reject_certificate) (λ h. ground arith)
        | inr (s, good) ↦
            rw (good, reject_certificate)
              (refused_lem e (send_cert_conf env c creds conf (rejecting env c creds s reason) log)
                a)
      ]

  -- No objection is made to a certificate that passes all checks only.
  first_objection_lem :
      (a : Answer) (cert : Certificate) (pool : Option Opaque) (found : List Certificate)
      (ids : List ℤ) (requested : Option Opaque) (now : ℕ)
      → first_objection env c creds a cert pool found ids requested now ≡ none
      → (is_ok env c creds (check_cert_req_id a.cert_resp ids) ≡ true)
        × (chains_to_pool env c creds pool cert found now ≡ true)
        × (is_ok env c creds (check_issued_key env c cert requested) ≡ true)
  unfolding first_objection
  first_objection_lem a cert pool found ids requested now h =
      let (id, next) =
        objection_lem (is_ok env c creds (check_cert_req_id a.cert_resp ids)) _ _ _ h in
      let (chains, next') =
        objection_lem (chains_to_pool env c creds pool cert found now) _ _ _ next in
      let (key, _) =
        objection_lem (is_ok env c creds (check_issued_key env c cert requested)) _ _ _ next' in
      (id, chains, key)

  contains_id_lem :
      (resp : CertResponse) (ids : List ℤ)
      → is_ok env c creds (check_cert_req_id resp ids) ≡ true
      → contains_id resp.cert_req_id ids ≡ true
  contains_id_lem resp ids = elim (Bool-cases (contains_id resp.cert_req_id ids)) [
    | inl found ↦ λ h. found
    | inr lost ↦ rw lost (λ h. ground arith)
  ]

  confirmed_lem :
      (r r' : EnrollResult) (x : Logged Unit)
      → (confirmed env c creds r x).1 ≡ ok r'
      → (x.1 ≡ ok tt) × (r ≡ r')
  confirmed_lem r r' (log, ok u) h = (refl, ok_injective h)
  confirmed_lem r r' (log, err e) h = ground arith

  confirmed-log : (r : EnrollResult) (x : Logged Unit) → x.0 ≡ (confirmed env c creds r x).0
  confirmed-log r (log, ok u) = refl
  confirmed-log r (log, err e) = refl

  -- A certificate that `enroll` returns is the one given, and it passed the checks.
  pub settle-IsCertified :
      (req : PkiHeader) (a : Answer) (ids : List ℤ) (requested : Option Opaque) (cert : Certificate)
      (log : List Event) (r : EnrollResult)
      → (settle env c creds req a ids requested cert log).1 ≡ ok r
      → (cert ≡ r.certificate)
        × IsCertified req a ids requested cert log
            (settle env c creds req a ids requested cert log).0
  unfolding settle
  settle-IsCertified req a ids requested cert log r =
      let pool = pool_of a in
      let conf : Confirmation = record {
        req = req;
        resp = a.resp;
        trust_pool = pool;
        known_signer = a.known_signer;
      } in
      elim (Option-cases
        (first_objection env c creds a cert pool (candidates_of a) ids requested (env.now log))) [
          | inr ((reason, e), bad) ↦
              rw (bad, settle)
                (reject_certificate_lem conf cert a.cert_resp.cert_req_id reason e log r)
          | inl none_made ↦
              elim (Option-cases (new_cert_status env.hashes cert a.cert_resp.cert_req_id)) [
                | inl gone ↦ rw (none_made, gone, settle) (λ h. ground arith)
                | inr (s, hashed) ↦
                    rw (none_made, hashed, settle)
                      (λ h.
                        let result : EnrollResult = record {
                          certificate = cert;
                          ca_pubs = parse_cmp_certificates env c a.rep.ca_pubs;
                          extra_certificates =
                              parse_cmp_certificates env c a.resp.message.extra_certs;
                        } in
                        let x = send_cert_conf env c creds conf s log in
                        let (delivered, same) = confirmed_lem result r x h in
                        let (id, chains, key) =
                          first_objection_lem a cert pool (candidates_of a) ids requested
                            (env.now log) none_made in
                        (
                          ap (λ (q : EnrollResult). q.certificate) same,
                          record {
                            answers = contains_id_lem a.cert_resp ids id;
                            chains = chains;
                            key = is_ok_lem (check_issued_key env c cert requested) key;
                            cert_status = s;
                            hashed = hashed;
                            confirmed =
                                subst (IsConfirmed conf s) (confirmed-log result x)
                                  (send_cert_conf-IsConfirmed conf s log delivered);
                          },
                        ))
              ]
        ]
