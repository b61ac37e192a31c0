-- ===== src/Client/Enroll/Enrolled.antt =====
-- client/transport.go: an enrollment that succeeds, from the request to the returned certificate.
use go_pkicmp_ng.Prelude.{
  ◌⊎◌, ◌≡◌, refl, ap, subst, ◌∙◌, inl, inr, true, Option, none, List, arith, Bool-cases,
}
use go_pkicmp_ng.Prelude.Int.{ℤ, eqb_ℤ}
use go_pkicmp_ng.Prelude.Result.{Result, ok, err, ok_or_err, bind_ok, ok_injective}
use go_pkicmp_ng.Pkicmp.Types.{Opaque, Certificate}
use go_pkicmp_ng.Pkicmp.Status.{status_waiting}
use go_pkicmp_ng.Pkicmp.Message.{PkiHeader}
use go_pkicmp_ng.Pkicmp.Verify.{VerifyResult}
use go_pkicmp_ng.Client.Config.{
  Client, Env, Credentials, Received, Reply, error_reply, Outgoing, Sent, Event, ClientError,
}
use go_pkicmp_ng.Client.Response.{
  RepType, answering_cert_req_ids, check_cert_req_id, extract_cert_resp_and_rep,
  extract_certificate, is_granted,
}
use go_pkicmp_ng.Client.Exchange.{Logged, exchange_first}
use go_pkicmp_ng.Client.Poll.{poll, delayed_nonce}
use go_pkicmp_ng.Client.Poll.Answered.{IsVerified, exchange_first-IsVerified, poll-IsVerified}
use go_pkicmp_ng.Client.Enroll.{
  EnrollResult, Answer, Names, wrapped, settle, conclude, answer_of, polled_answer, await,
  first_reply, first_answer, new_request, then_do, enroll,
}
use go_pkicmp_ng.Client.Enroll.Certified.{IsAnswer, IsCertified, settle-IsCertified}

module _ (env : Env) (c : Client) (creds : Credentials) where
  wrapped_lem :
      {A : Type 0} (resp : Received) (r : Result ClientError A) (a : A)
      → wrapped resp r ≡ ok a
      → r ≡ ok a
  wrapped_lem resp (ok b) a h = h
  wrapped_lem resp (err e) a h = ground arith

  -- The response is verified, as the answer to the message sent last or to the first request.
  abbrev IsVerifiedFor : PkiHeader → Received → VerifyResult → List Event → Type 0
  IsVerifiedFor req resp vr log =
      IsVerified env c creds c.trusted_cas none resp vr log
      ⊎ IsVerified env c creds c.trusted_cas (delayed_nonce env c creds req resp) resp vr log

  answer_of-IsAnswer :
      (req : PkiHeader) (expected : RepType) (known : Option Certificate) (resp : Received)
      (vr : VerifyResult) (log : List Event) (a : Answer)
      → IsVerifiedFor req resp vr log
      → answer_of env c creds expected known (resp, vr) ≡ ok a
      → IsAnswer env c creds req expected a log
  answer_of-IsAnswer req expected known resp vr log a v h =
      let (found, extracted, made) =
        bind_ok (wrapped resp (extract_cert_resp_and_rep expected resp.reply)) _ a h in
      subst (λ b. IsAnswer env c creds req expected b log) (ok_injective made)
        (record { verified = v; content = wrapped_lem resp _ found extracted })

  first_reply-IsAnswer :
      (req : PkiHeader) (expected : RepType) (resp : Received) (vr : VerifyResult)
      (log : List Event) (a : Answer) (r : Reply)
      → IsVerified env c creds c.trusted_cas none resp vr log
      → first_reply env c creds expected resp vr r ≡ ok a
      → IsAnswer env c creds req expected a log
  first_reply-IsAnswer req expected resp vr log a (error_reply si) v h = ground arith
  first_reply-IsAnswer req expected resp vr log a _ v h =
      answer_of-IsAnswer req expected none resp vr log a (inl v) h

  polled_answer-IsAnswer :
      (req : PkiHeader) (expected : RepType) (known : Option Certificate)
      (x : Logged (Received × VerifyResult)) (a : Answer)
      → ((resp : Received) (vr : VerifyResult)
          → x.1 ≡ ok (resp, vr)
          → IsVerified env c creds c.trusted_cas (delayed_nonce env c creds req resp) resp vr x.0)
      → (polled_answer env c creds expected known x).1 ≡ ok a
      → IsAnswer env c creds req expected a (polled_answer env c creds expected known x).0
  polled_answer-IsAnswer req expected known (log, err e) a v h = ground arith
  polled_answer-IsAnswer req expected known (log, ok (resp, vr)) a v h =
      answer_of-IsAnswer req expected known resp vr log a (inr (v resp vr refl)) h

  await-IsAnswer :
      (req : PkiHeader) (expected : RepType) (ids : List ℤ) (a b : Answer) (log : List Event)
      → IsAnswer env c creds req expected a log
      → (await env c creds req expected ids a log).1 ≡ ok b
      → IsAnswer env c creds req expected b (await env c creds req expected ids a log).0
  unfolding await
  await-IsAnswer req expected ids a b log v =
      elim (Bool-cases (eqb_ℤ a.cert_resp.status.status status_waiting)) [
        | inr ready ↦
            rw (ready, await)
              (λ h. subst (λ x. IsAnswer env c creds req expected x log) (ok_injective h) v)
        | inl waits ↦ elim (ok_or_err (check_cert_req_id a.cert_resp ids)) [
          | inr (e, bad) ↦ rw (waits, bad, await) (λ h. ground arith)
          | inl (u, good) ↦
              rw (waits, good, await)
                (polled_answer-IsAnswer req expected a.known_signer
                  (poll env c creds req a.cert_resp.cert_req_id a.resp a.known_signer log) b
                  (poll-IsVerified env c creds req a.cert_resp.cert_req_id a.resp a.known_signer
                    log))
        ]
      ]

  -- What an enrollment has checked, which returns a result and leaves a log.
  pub record IsEnrolled (names : Names) (body : Outgoing) (expected : RepType)
      (requested : Option Opaque) (start : List Event) (r : EnrollResult) (log : List Event)
      : Type 0 where
    pub ids : List ℤ
    pub asked : answering_cert_req_ids body ≡ ok ids
    pub req : Sent
    pub made : new_request env c creds names body start ≡ ok req
    pub answer : Answer
    pub before : List Event
    pub answered : IsAnswer env c creds req.header expected answer before
    pub granted : is_granted answer.cert_resp ≡ true
    pub carried : extract_certificate env answer.cert_resp ≡ ok r.certificate
    pub certified : IsCertified env c creds req.header answer ids requested r.certificate before log

  conclude-IsEnrolled :
      (names : Names) (start : List Event) (req : Sent) (a : Answer) (body : Outgoing)
      (expected : RepType) (ids : List ℤ) (requested : Option Opaque) (log : List Event)
      (r : EnrollResult)
      → answering_cert_req_ids body ≡ ok ids
      → new_request env c creds names body start ≡ ok req
      → IsAnswer env c creds req.header expected a log
      → (conclude env c creds req.header a ids requested log).1 ≡ ok r
      → IsEnrolled names body expected requested start r
          (conclude env c creds req.header a ids requested log).0
  unfolding conclude
  conclude-IsEnrolled names start req a body expected ids requested log r asked made v =
      elim (Bool-cases (is_granted a.cert_resp)) [
        | inr refused ↦ rw (refused, conclude) (λ h. ground arith)
        | inl granted ↦ elim (ok_or_err (extract_certificate env a.cert_resp)) [
          | inr (e, bad) ↦ rw (granted, bad, conclude) (λ h. ground arith)
          | inl (cert, good) ↦
              rw (granted, good, conclude)
                (λ h.
                  let (same, certified) =
                    settle-IsCertified env c creds req.header a ids requested cert log r h in
                  record {
                    ids = ids;
                    asked = asked;
                    req = req;
                    made = made;
                    answer = a;
                    before = log;
                    answered = v;
                    granted = granted;
                    carried = good ∙ ap ok same;
                    certified =
                        subst
                          (λ x.
                            IsCertified env c creds req.header a ids requested x log
                              (settle env c creds req.header a ids requested cert log).0)
                          same certified;
                  })
        ]
      ]

  -- A step that succeeds gives a value to the next one.
  then_do_lem :
      {A B : Type 0} (x : Logged A) (next : A → List Event → Logged B) (b : B)
      (Holds : List Event → Type 0)
      → ((a : A) → x.1 ≡ ok a → (next a x.0).1 ≡ ok b → Holds (next a x.0).0)
      → (then_do env c creds x next).1 ≡ ok b
      → Holds (then_do env c creds x next).0
  then_do_lem (log, err e) next b Holds step h = ground arith
  then_do_lem (log, ok a) next b Holds step h = step a refl h

  -- A certificate that `enroll` returns was carried by a granting response of the expected type. The
  -- response was verified, with the nonce of the message sent last or, after polling, of the first
  -- request. The certificate answers a certReqId of the request, chains to the trust pool, where there is
  -- one, and certifies the requested key, where one is known. The server has answered the status with the
  -- certificate's hash, verified with that message's nonce: by pkiConf; or, with the HTTP status 200, by an
  -- error message whose status is accepted or grantedWithMods.
  pub enroll-IsEnrolled :
      (names : Names) (body : Outgoing) (expected : RepType) (requested : Option Opaque)
      (log : List Event) (r : EnrollResult)
      → (enroll env c creds names body expected requested log).1 ≡ ok r
      → IsEnrolled names body expected requested log r
          (enroll env c creds names body expected requested log).0
  unfolding enroll
  enroll-IsEnrolled names body expected requested log r =
      let Ends = IsEnrolled names body expected requested log r in
      then_do_lem (log, answering_cert_req_ids body) _ r Ends
        (λ ids asked.
          then_do_lem (log, new_request env c creds names body log) _ r Ends
            (λ req made.
              let x = exchange_first env c creds req log in
              then_do_lem x _ r Ends (λ got exchanged.
                then_do_lem (x.0, first_answer env c creds expected got) _ r Ends
                  (λ a first.
                    then_do_lem (await env c creds req.header expected ids a x.0) _ r Ends
                      (λ b awaited.
                        conclude-IsEnrolled names log req b body expected ids requested _ r asked
                          made
                          (await-IsAnswer req.header expected ids a b _
                            (first_reply-IsAnswer req.header expected got.0 got.1 _ a got.0.reply
                              (exchange_first-IsVerified env c creds req log got.0 got.1 exchanged)
                              first)
                            awaited))))))
