-- ===== src/Server/Header.antt =====
-- The checks of server/server.go on the header of a request.
use go_pkicmp_ng.Prelude.{
  ◌+◌, Bool, true, false, not, ◌&&◌, ◌||◌, Option, none, some, List, [], ◌∷◌, Bytes, bytes_eq,
  length, ltb, is_empty, text, if◌then◌else◌,
}
use go_pkicmp_ng.Prelude.Int.{pos, ltb_ℤ, pos_part, neg_part}
use go_pkicmp_ng.Prelude.Result.{Result, ok, err, ◌>>◌}
use go_pkicmp_ng.Pkicmp.Types.{Time, Certificate}
use go_pkicmp_ng.Pkicmp.Status.{
  FailInfo, fail_bad_message_check, fail_bad_recipient_nonce, fail_bad_sender_nonce, fail_bad_time,
  fail_system_unavail, fail_transaction_id_in_use,
}
use go_pkicmp_ng.Pkicmp.Message.{Request, PkiHeader, Content, ir, cr, kur, p10cr, rr, nested_again}
use go_pkicmp_ng.Server.Entry.{TransactionTracker}
use go_pkicmp_ng.Server.Tracker.{
  start_if_absent, StartError, maximum_transactions, per_credential_transactions,
}
use go_pkicmp_ng.Server.Config.{Env, Config, SenderIdentity, ServerError, rejection, credential_id}
use go_pkicmp_ng.Server.Protection.{Access, fails}

-- `isInitialRequest`
unfoldable pub is_initial_request : Content → Bool
is_initial_request (ir _) = true
is_initial_request (cr _) = true
is_initial_request (kur _) = true
is_initial_request (p10cr _) = true
is_initial_request (rr _) = true
is_initial_request _ = false

module _ (env : Env) (cfg : Config) (access : Access) where
  -- The name that the server goes by, if any.
  abbrev server_name : Option Bytes
  server_name =
      if not (is_empty cfg.sender.common_name) || not (is_empty cfg.sender.organization)
      then some cfg.sender.text
      else elim cfg.signer_cert [ none ↦ none | some c ↦ some (access.subject_text c) ]

  -- `verifyRecipient`
  unfoldable pub verify_recipient : PkiHeader → Bool
  verify_recipient h = elim server_name [
    | none ↦ true
    | some name ↦
        is_empty h.recipient.directory_name
        || bytes_eq (env.name_string h.recipient.directory_name) name
  ]

  -- `validateProfileSender`; a nested message may leave the sender out.
  unfoldable pub valid_profile_sender : Request → SenderIdentity → Bool
  valid_profile_sender req sender = elim req.content [
    | nested_again ↦ true
    | _ ↦ not sender.mac_verified || not (is_empty req.header.sender.directory_name)
  ]

  abbrev parse_all : List Bytes → Option (List Certificate)
  parse_all [] = some []
  parse_all (b ∷ bs) =
      let rest = parse_all bs in
      elim (access.parse_certificate b) [
        | none ↦ none
        | some c ↦ elim rest [ none ↦ none | some cs ↦ some (c ∷ cs) ]
      ]

  -- Each certificate is signed by the next, and the last by itself; the text of the refusal.
  abbrev chain_from : Certificate → List Certificate → Result Bytes Unit
  chain_from c [] =
      if access.signed_by c c
      then ok tt
      else err (text "incomplete certificate chain in extraCerts")
  chain_from c (d ∷ ds) =
      let rest = chain_from d ds in
      if access.signed_by c d
      then rest
      else err (text "extraCerts is not an ordered certificate chain")

  abbrev is_signer : Certificate → Option Certificate → Bool
  is_signer c none = true
  is_signer c (some d) = bytes_eq c.raw d.raw

  abbrev check_chain : Option (List Certificate) → SenderIdentity → Result Bytes Unit
  check_chain none sender = err (text "undecodable certificate in extraCerts")
  check_chain (some []) sender = err (text "signature protection without extraCerts")
  check_chain (some (c ∷ cs)) sender =
      if is_signer c sender.certificate
      then chain_from c cs
      else err (text "first certificate in extraCerts is not the CMP protection certificate")

  abbrev is_nested : Content → Bool
  is_nested nested_again = true
  is_nested _ = false

  -- `validateProfileExtraCerts`
  unfoldable pub validate_profile_extra_certs : Request → SenderIdentity → Result Bytes Unit
  unfolding is_initial_request
  validate_profile_extra_certs req sender =
      if sender.mac_verified
      then ok tt
      else if not (is_initial_request req.content) && not (is_nested req.content)
      then ok tt
      else check_chain (parse_all req.extra_certs) sender

  abbrev too_old : PkiHeader → Time → Bool
  too_old h now =
      ltb (h.message_time + pos_part cfg.message_time_tolerance)
        (now + neg_part cfg.message_time_tolerance)

  abbrev too_new : PkiHeader → Time → Bool
  too_new h now =
      ltb (now + pos_part cfg.message_time_tolerance)
        (h.message_time + neg_part cfg.message_time_tolerance)

  abbrev fails_if : Bool → FailInfo → Bytes → Result ServerError Unit
  fails_if b f t = if b then fails f t else ok tt

  -- Whether `validateHeader` misses a transaction identifier that the client has to give.
  unfoldable pub lacks_transaction_id : Request → Bool
  unfolding is_initial_request
  lacks_transaction_id req =
      is_empty req.header.transaction_id
      && (cfg.strict_profile || not (is_initial_request req.content))

  -- The checks of `validateHeader` between the assignment of an identifier and the start of the
  -- transaction.
  unfoldable pub check_header : Request → Time → Result ServerError Unit
  unfolding rejection is_initial_request
  check_header req now =
      fails_if (cfg.strict_profile && is_empty req.header.sender_nonce) fail_bad_sender_nonce
        (text "missing senderNonce")
      >> (fails_if (cfg.strict_profile && ltb (length req.header.sender_nonce) 16)
            fail_bad_sender_nonce (text "senderNonce too short")
          >> (fails_if
                (ltb_ℤ (pos 0) cfg.message_time_tolerance
                  && (req.header.message_time_present
                      && (too_old req.header now || too_new req.header now)))
                fail_bad_time (text "messageTime outside allowed tolerance")
              >> fails_if (is_initial_request req.content && not (is_empty req.header.recip_nonce))
                  fail_bad_recipient_nonce (text "recipNonce in first message")))

  -- `newTransactionID` where the request has none.
  unfoldable pub with_transaction_id : Request → Bytes → Request
  with_transaction_id req assigned =
      if is_empty req.header.transaction_id
      then record req { header = record (req.header) { transaction_id = assigned } }
      else req

  abbrev start_error_text : StartError → Bytes
  start_error_text maximum_transactions = text "maximum transaction limit reached"
  start_error_text per_credential_transactions = text "per-credential transaction limit reached"

  abbrev started :
      TransactionTracker × Result StartError Bool → Result ServerError Unit × TransactionTracker
  started (t, err e) = (fails fail_system_unavail (start_error_text e), t)
  started (t, ok true) = (fails fail_transaction_id_in_use (text "transactionID already in use"), t)
  started (t, ok false) = (ok tt, t)

  -- The registration of the transaction at the end of `validateHeader`.
  unfoldable pub register :
      Request
      → SenderIdentity
      → Time
      → TransactionTracker
      → Result ServerError Unit × TransactionTracker
  unfolding rejection is_initial_request
  register req sender now t = elim (credential_id env sender) [
    | none ↦ (fails fail_bad_message_check (text "invalid sender credentials"), t)
    | some cred ↦
        if is_initial_request req.content
        then started (start_if_absent env.sha256 cred req.header.transaction_id now t)
        else (ok tt, t)
  ]
