-- ===== src/Server/CertConf/Confirmed.antt =====
-- What a confirmation has shown before the handler learns of it.
use go_pkicmp_ng.Prelude.{◌≡◌, ◌⊎◌, Bool, true, false, Option, some, List, Bytes, is_empty, All}
use go_pkicmp_ng.Prelude.Result.{ok, err}
use go_pkicmp_ng.Pkicmp.Types.{Certificate}
use go_pkicmp_ng.Pkicmp.Algorithms.Confirmation.{CertStatus, certificate_hash}
use go_pkicmp_ng.Pkicmp.Message.{Request}
use go_pkicmp_ng.Server.Entry.{TransactionEntry}
use go_pkicmp_ng.Server.Tracker.{get_issued, delete}
use go_pkicmp_ng.Server.Config.{
  Env, Config, SenderIdentity, Handler, HandlerContext, HandlerError, Response, credential_id,
}
use go_pkicmp_ng.Server.Ca.{cert_status_rejects}
use go_pkicmp_ng.Server.CertConf.{cert_req_id_matches, first_rejects, signed_with_new}
use go_pkicmp_ng.Server.State.{State}

-- A status names the issued certificate, by its hash and its request, and decides as `rejects` says.
pub Names : Env → TransactionEntry → Bool → CertStatus → Type 0
Names env entry rejects cs =
    ((cert : Certificate) × (entry.cert ≡ some cert)
      × (certificate_hash env.hashes cs cert ≡ some cs.cert_hash))
    × (cert_req_id_matches entry cs.cert_req_id ≡ true)
    × (cert_status_rejects cs ≡ rejects)

-- What a confirmation shows: its sender holds the credential under which the certificate was issued,
-- every status names that certificate, all decide alike, the nonce is that of the reply with the
-- certificate, and the certificate itself did not sign.
pub record IsConfirmation (env : Env) (req : Request) (sender : SenderIdentity)
    (conf : List CertStatus) (st : State) (cred : Bytes) (entry : TransactionEntry) : Type 0 where
  pub holder : credential_id env sender ≡ some cred
  pub outstanding : get_issued env.sha256 cred req.header.transaction_id st.tracker ≡ some entry
  pub statuses : All (Names env entry (first_rejects env conf)) conf
  pub nonce : req.header.recip_nonce ≡ entry.issued_sender_nonce
  pub has_nonce : is_empty req.header.recip_nonce ≡ false
  pub not_self_signed : signed_with_new env sender.certificate entry.cert ≡ false

-- The context in which the handler sees a confirmation.
pub told : HandlerContext → TransactionEntry → HandlerContext
told ctx entry = record ctx { issued_cert = entry.cert; issue_ref = entry.issue_ref }

-- What a confirmation does: it is refused and changes nothing, or it is one, the handler is told the
-- certificate, and the transaction is released exactly when the handler accepts.
pub CertConfOutcome :
    (env : Env)
    → Handler
    → HandlerContext
    → Request
    → SenderIdentity
    → List CertStatus
    → State
    → State
    → Type 0
CertConfOutcome env handle ctx req sender conf st st' =
    (st' ≡ st)
    ⊎ ((cred : Bytes) × (entry : TransactionEntry) × IsConfirmation env req sender conf st cred
          entry
        × (st'.log ≡ (handle (told ctx entry) req sender st.log).1)
        × (((e : HandlerError) × ((handle (told ctx entry) req sender st.log).0 ≡ err e)
              × (st'.tracker ≡ st.tracker))
            ⊎ ((r : Option Response) × ((handle (told ctx entry) req sender st.log).0 ≡ ok r)
                × (st'.tracker ≡ delete env.sha256 cred req.header.transaction_id st.tracker))))
