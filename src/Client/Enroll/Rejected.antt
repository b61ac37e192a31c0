-- ===== src/Client/Enroll/Rejected.antt =====
-- client/transport.go: what an enrollment does about a certificate that fails a check.
use go_pkicmp_ng.Prelude.{◌≡◌, true, false, Option, none, some, List, ◌∷◌, Bytes, text}
use go_pkicmp_ng.Prelude.Int.{ℤ}
use go_pkicmp_ng.Prelude.Result.{ok, err}
use go_pkicmp_ng.Pkicmp.Types.{Time, Opaque, Certificate}
use go_pkicmp_ng.Pkicmp.Algorithms.Confirmation.{CertStatus, new_cert_status}
use go_pkicmp_ng.Client.Config.{
  Client, Env, Credentials, ClientError, not_confirmed, cert_confirm, failed, certificate_trust,
  compute_cert_hash, Event, sent, Sent,
}
use go_pkicmp_ng.Client.Response.{wrap_error, check_cert_req_id, check_issued_key}
use go_pkicmp_ng.Client.Exchange.{Logged, follow_up, prepare}
use go_pkicmp_ng.Client.Enroll.{
  EnrollResult, Confirmation, Answer, rejecting, is_ok, error_of, chains_to_pool,
}
use go_pkicmp_ng.Client.Enroll.Certified.{pool_of, candidates_of, IsConfirmed}

module _ (env : Env) (c : Client) (creds : Credentials) where
  -- The check that a certificate fails first, with the text of its rejection and its error.
  pub data Fails (a : Answer) (cert : Certificate) (ids : List ℤ) (requested : Option Opaque)
      (now : Time) : Bytes → ClientError → Type 0 where
    fails_id :
        is_ok env c creds (check_cert_req_id a.cert_resp ids) ≡ false
        → Fails a cert ids requested now (text "certReqId does not match the request") (
            wrap_error a.resp.status_code
              (error_of env c creds (check_cert_req_id a.cert_resp ids)))
    fails_trust :
        is_ok env c creds (check_cert_req_id a.cert_resp ids) ≡ true
        → chains_to_pool env c creds (pool_of env c creds a) cert (candidates_of env c creds a) now
          ≡ false
        → Fails a cert ids requested now
            (text "certificate validation failed")
            (wrap_error a.resp.status_code (failed certificate_trust))
    fails_key :
        is_ok env c creds (check_cert_req_id a.cert_resp ids) ≡ true
        → chains_to_pool env c creds (pool_of env c creds a) cert (candidates_of env c creds a) now
          ≡ true
        → is_ok env c creds (check_issued_key env c cert requested) ≡ false
        → Fails a cert ids requested now
            (text "certificate does not certify the requested public key")
            (wrap_error a.resp.status_code
              (error_of env c creds (check_issued_key env c cert requested)))

  -- The end of the rejection of a certificate for a reason and an error: nothing is sent where the hash
  -- cannot be computed or the message not be protected, and the error says that the CA was not told;
  -- else the certConf that rejects the certificate for the reason is sent last, and the error is the
  -- given one where the CA confirms it, or says that the CA did not.
  pub data IsRejected (conf : Confirmation) (cert : Certificate) (id : ℤ) (reason : Bytes)
      (e : ClientError) (log : List Event) (x : Logged EnrollResult) : Type 0 where
    unhashed :
        new_cert_status env.hashes cert id ≡ none
        → x ≡ (log, err (not_confirmed e (failed compute_cert_hash)))
        → IsRejected conf cert id reason e log x
    unprotected :
        (s : CertStatus) (e' : ClientError)
        → new_cert_status env.hashes cert id ≡ some s
        → prepare env c creds (
            follow_up env c conf.req conf.resp.message.header.sender_nonce log
              (cert_confirm (rejecting env c creds s reason)))
          ≡ err e'
        → x ≡ (log, err (not_confirmed e e'))
        → IsRejected conf cert id reason e log x
    unconfirmed :
        (s : CertStatus) (m : Sent) (e' : ClientError)
        → new_cert_status env.hashes cert id ≡ some s
        → prepare env c creds (
            follow_up env c conf.req conf.resp.message.header.sender_nonce log
              (cert_confirm (rejecting env c creds s reason)))
          ≡ ok m
        → x ≡ (sent m ∷ log, err (not_confirmed e e'))
        → IsRejected conf cert id reason e log x
    told :
        (s : CertStatus)
        → new_cert_status env.hashes cert id ≡ some s
        → IsConfirmed env c creds conf (rejecting env c creds s reason) x.0
        → x.1 ≡ err e
        → IsRejected conf cert id reason e log x
