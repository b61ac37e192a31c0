-- ===== src/Client/Enroll/Unconfirmed.antt =====
-- client/transport.go: what the client makes of an error message that answers its certConf.
use go_pkicmp_ng.Prelude.{◌≡◌, ◌||◌, ◌↔◌, Bool, true, some, List, arith}
use go_pkicmp_ng.Prelude.Int.{eqb_ℤ}
use go_pkicmp_ng.Prelude.Result.{ok}
use go_pkicmp_ng.Pkicmp.Status.{PkiStatusInfo, status_accepted, status_granted_with_mods, as_error}
use go_pkicmp_ng.Pkicmp.Algorithms.Confirmation.{CertStatus}
use go_pkicmp_ng.Pkicmp.Verify.{VerifyResult}
use go_pkicmp_ng.Client.Config.{
  Client, Env, Credentials, Received, error_reply, cert_confirm, Event, Sent,
}
use go_pkicmp_ng.Client.Exchange.{exchange, no_alternative, follow_up, prepare}
use go_pkicmp_ng.Client.Enroll.{Confirmation, read_reply, read_confirmation, send_cert_conf}

abbrev pub is_positive : PkiStatusInfo → Bool
is_positive si = eqb_ℤ si.status status_accepted || eqb_ℤ si.status status_granted_with_mods

module _ (env : Env) (c : Client) (creds : Credentials) where
  read_reply_lem :
      (resp : Received) (si : PkiStatusInfo)
      → resp.status_code ≡ 200
      → (read_reply env c creds resp (error_reply (some si)) ≡ ok tt) ↔ (is_positive si ≡ true)
  unfolding as_error
  read_reply_lem resp si plain = ground arith

  -- A certConf that is answered, with the HTTP status 200, by a verified error message has succeeded
  -- exactly when the status in that message is accepted or grantedWithMods.
  pub send_cert_conf-error :
      (conf : Confirmation) (s : CertStatus) (log : List Event) (m : Sent) (resp : Received)
      (vr : VerifyResult) (si : PkiStatusInfo)
      → prepare env c creds
          (follow_up env c conf.req conf.resp.message.header.sender_nonce log (cert_confirm s))
        ≡ ok m
      → (exchange env c m.header creds conf.trust_pool conf.known_signer
          (no_alternative env c)
          m
          log).1
        ≡ ok (resp, vr)
      → resp.reply ≡ error_reply (some si)
      → resp.status_code ≡ 200
      → ((send_cert_conf env c creds conf s log).1 ≡ ok tt) ↔ (is_positive si ≡ true)
  unfolding send_cert_conf
  send_cert_conf-error conf s log m resp vr si good answered is_error plain =
      rw (good, send_cert_conf)
        (rw (answered, read_confirmation) (rw is_error (read_reply_lem resp si plain)))
