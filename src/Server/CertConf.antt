-- ===== src/Server/CertConf.antt =====
-- `handleCertConf` of server/confirm_poll.go.
pub mod Confirmed
use go_pkicmp_ng.Prelude.{
  ℕ, Bool, true, false, not, ◌&&◌, ◌||◌, Option, none, some, List, [], ◌∷◌, Bytes, bytes_eq,
  is_empty, text, if◌then◌else◌,
}
use go_pkicmp_ng.Prelude.Int.{ℤ, pos, negsuc, eqb_ℤ}
use go_pkicmp_ng.Prelude.Result.{Result, ok, err, ◌>>=◌, ◌>>◌}
use go_pkicmp_ng.Pkicmp.Types.{Opaque, Certificate}
use go_pkicmp_ng.Pkicmp.Status.{
  PkiStatusInfo, FailInfo, status_accepted, fail_bad_alg, fail_bad_request, fail_bad_cert_id,
  fail_bad_data_format, fail_bad_message_check, fail_bad_recipient_nonce, fail_bad_sender_nonce,
}
use go_pkicmp_ng.Prelude.{◌==◌, length, ltb}
use go_pkicmp_ng.Pkicmp.Algorithms.Confirmation.{CertStatus, certificate_hash}
use go_pkicmp_ng.Pkicmp.Message.{Request, PkiHeader}
use go_pkicmp_ng.Server.Entry.{TransactionEntry}
use go_pkicmp_ng.Server.Tracker.{get_issued, delete}
use go_pkicmp_ng.Server.Config.{
  Env, Config, SenderIdentity, Handler, Handled, HandlerContext, Log, credential_id,
  error_to_status_info,
}
use go_pkicmp_ng.Server.Response.{
  Reply, error_body, pki_conf, status_only, status_text, build_error_response,
  build_response_with_echo_protection,
}
use go_pkicmp_ng.Server.Revocation.{certificate_public_key}
use go_pkicmp_ng.Server.Ca.{cert_status_rejects}
use go_pkicmp_ng.Server.State.{State, Inputs, Outcome, answered, refused}

-- A check that passes or refuses with a failure and a text.
abbrev pub Check : Type 0
Check = Result PkiStatusInfo Unit

abbrev pub refuse_if : Bool → FailInfo → Bytes → Check
refuse_if b f t = if b then err (status_text f t) else ok tt

abbrev contradicts : CertStatus → Bool
contradicts cs = elim cs.status_info [
  | none ↦ false
  | some si ↦ eqb_ℤ si.status status_accepted && not (si.fail_info == 0)
]

unfoldable pub contradictory : List CertStatus → Bool
contradictory [] = false
contradictory (cs ∷ rest) = contradicts cs || contradictory rest

-- `certReqIDMatches`
unfoldable pub cert_req_id_matches : TransactionEntry → ℤ → Bool
cert_req_id_matches entry id = elim entry.cert_req_id [
  | none ↦ true
  | some expected ↦
      eqb_ℤ id expected
      || (eqb_ℤ entry.req_type (pos 4) && (eqb_ℤ id (pos 0) || eqb_ℤ id (negsuc 0)))
]

abbrev same_bool : Bool → Bool → Bool
same_bool true b = b
same_bool false b = not b

module _ (env : Env) where
  abbrev hash_for : CertStatus → Option Certificate → Option Bytes
  hash_for cs none = none
  hash_for cs (some cert) = certificate_hash env.hashes cs cert

  -- One round of the loop of `checkCertStatuses`; `first` is how the first entry decides. An issued
  -- entry always has a certificate.
  unfoldable pub check_cert_status : TransactionEntry → Bool → CertStatus → Check
  unfolding certificate_hash cert_req_id_matches cert_status_rejects
  check_cert_status entry first cs = elim (hash_for cs entry.cert) [
    | none ↦ err (status_text fail_bad_alg (text "cannot compute certHash"))
    | some expected ↦
        refuse_if (not (bytes_eq cs.cert_hash expected)) fail_bad_cert_id (text "certHash mismatch")
        >> (refuse_if (not (cert_req_id_matches entry cs.cert_req_id)) fail_bad_cert_id
              (text "certReqId does not match the issued certificate")
            >> refuse_if (not (same_bool (cert_status_rejects cs) first)) fail_bad_request
                (text "CertStatus entries disagree"))
  ]

  unfoldable pub check_each : TransactionEntry → Bool → List CertStatus → Check
  unfolding check_cert_status
  check_each entry first [] = ok tt
  check_each entry first (cs ∷ rest) =
      let others = check_each entry first rest in check_cert_status entry first cs >> others

  abbrev pub first_rejects : List CertStatus → Bool
  first_rejects [] = false
  first_rejects (cs ∷ _) = cert_status_rejects cs

  -- `checkCertStatuses`
  unfoldable pub check_cert_statuses : Config → TransactionEntry → List CertStatus → Check
  unfolding check_each
  check_cert_statuses cfg entry statuses =
      refuse_if (cfg.strict_profile && ltb 1 (length statuses)) fail_bad_request
        (text "more than one CertStatus")
      >> check_each entry (first_rejects statuses) statuses

  abbrev equal_if_some : Option Bytes → Option Bytes → Bool
  equal_if_some (some a) (some b) = bytes_eq a b
  equal_if_some _ _ = false

  -- `publicKeysEqual`
  unfoldable pub public_keys_equal : Option Opaque → Option Opaque → Bool
  public_keys_equal a b = equal_if_some (env.marshal_public_key a) (env.marshal_public_key b)

  abbrev pub signed_with_new : Option Certificate → Option Certificate → Bool
  signed_with_new (some signer) (some cert) =
      public_keys_equal (certificate_public_key env signer) (certificate_public_key env cert)
  signed_with_new _ _ = false

  abbrev reuses_nonce : PkiHeader → TransactionEntry → Bool
  reuses_nonce h entry =
      bytes_eq h.sender_nonce entry.issued_sender_nonce
      || (not (is_empty entry.client_sender_nonce)
          && bytes_eq h.sender_nonce entry.client_sender_nonce)

  -- What is checked of a confirmation against the entry that it confirms, in this order.
  unfoldable pub check_cert_conf :
      Config → PkiHeader → SenderIdentity → TransactionEntry → List CertStatus → Check
  unfolding check_cert_statuses public_keys_equal certificate_public_key
  check_cert_conf cfg h sender entry conf =
      check_cert_statuses cfg entry conf
      >> (refuse_if (is_empty h.recip_nonce) fail_bad_recipient_nonce (text "missing recipNonce")
          >> (refuse_if (not (bytes_eq h.recip_nonce entry.issued_sender_nonce))
                fail_bad_recipient_nonce (text "recipNonce mismatch")
              >> (refuse_if (cfg.strict_profile && reuses_nonce h entry) fail_bad_sender_nonce
                    (text "senderNonce reused")
                  >> refuse_if (signed_with_new sender.certificate entry.cert)
                      fail_bad_message_check
                      (text "certConf signed with newly issued certificate"))))

  module _ (cfg : Config) (handle : Handler) where
    -- The answer once the handler has answered; only its success releases the transaction.
    abbrev conclude :
        Inputs
        → Bytes
        → Request
        → SenderIdentity
        → TransactionEntry
        → Handled
        → State
        → Outcome × State
    conclude inp cred req sender entry (err e) st = (
      answered (
          build_response_with_echo_protection env cfg inp.reply req.header
            (error_body (error_to_status_info e)) (some sender) entry.protection_params),
      st,
    )
    conclude inp cred req sender entry (ok _) st = (
      answered (
          build_response_with_echo_protection env cfg inp.reply req.header pki_conf (some sender)
            entry.protection_params),
      record st { tracker = delete env.sha256 cred req.header.transaction_id st.tracker },
    )

    abbrev confirm_if :
        Inputs
        → HandlerContext
        → Bytes
        → Request
        → SenderIdentity
        → TransactionEntry
        → Check
        → State
        → Outcome × State
    confirm_if inp ctx cred req sender entry (err si) st = refused env cfg inp req sender si st
    confirm_if inp ctx cred req sender entry (ok _) st =
        let (handled, log) =
          handle (record ctx { issued_cert = entry.cert; issue_ref = entry.issue_ref }) req sender
            st.log in
        conclude inp cred req sender entry handled (record st { log = log })

    -- `handleCertConf` of a readable content, from a sender with credentials.
    unfoldable pub cert_conf_for :
        Inputs
        → HandlerContext
        → Bytes
        → Request
        → SenderIdentity
        → List CertStatus
        → State
        → Outcome × State
    unfolding check_cert_conf
    cert_conf_for inp ctx cred req sender conf st =
        elim (get_issued env.sha256 cred req.header.transaction_id st.tracker) [
          | none ↦
              refused env cfg inp req sender
                (status_text fail_bad_request (text "unknown transaction")) st
          | some entry ↦
              confirm_if inp ctx cred req sender entry
                (check_cert_conf cfg req.header sender entry conf) st
        ]

    unfoldable pub handle_cert_conf :
        Inputs
        → HandlerContext
        → Request
        → SenderIdentity
        → Option (List CertStatus)
        → State
        → Outcome × State
    unfolding cert_conf_for contradictory
    handle_cert_conf inp ctx req sender none st =
        refused env cfg inp req sender (status_only fail_bad_data_format) st
    handle_cert_conf inp ctx req sender (some conf) st =
        if contradictory conf
        then refused env cfg inp req sender
            (status_text fail_bad_request (text "accepted status with failInfo set")) st
        else elim (credential_id env sender) [
          | none ↦ refused env cfg inp req sender (status_only fail_bad_message_check) st
          | some cred ↦ cert_conf_for inp ctx cred req sender conf st
        ]
