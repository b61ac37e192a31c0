-- ===== src/Server/PollReq.antt =====
-- `handlePollReq` of server/response.go.
pub mod Polled
use go_pkicmp_ng.Prelude.{
  ℕ, zero, suc, ◌+◌, ◌/◌, Bool, true, false, not, ◌&&◌, ◌||◌, Option, none, some, List, [], ◌∷◌,
  Bytes, bytes_eq, is_empty, text, ltb, ◌==◌, if◌then◌else◌,
}
use go_pkicmp_ng.Prelude.Int.{ℤ, pos, negsuc, pos_part, neg_part}
use go_pkicmp_ng.Prelude.Result.{Result, ok, err, ◌>>=◌, ◌>>◌}
use go_pkicmp_ng.Pkicmp.Types.{Time, Duration, Certificate}
use go_pkicmp_ng.Pkicmp.Status.{
  fail_bad_request, fail_bad_data_format, fail_bad_message_check, fail_bad_recipient_nonce,
  fail_system_failure, PkiStatusInfo,
}
use go_pkicmp_ng.Pkicmp.Message.{Request, PkiHeader}
use go_pkicmp_ng.Server.Entry.{TransactionEntry}
use go_pkicmp_ng.Server.Tracker.{get_pending, set_pending}
use go_pkicmp_ng.Server.Config.{
  Env, Config, SenderIdentity, Handler, Handled, HandlerContext, Response, WaitingResponse,
  credential_id, error_to_status_info, text_list,
}
use go_pkicmp_ng.Server.Response.{
  poll_rep, status_only, status_text, build_response, build_error_response, build_cert_rep_response,
}
use go_pkicmp_ng.Server.State.{State, Inputs, Outcome, answered, panicked, refused}
use go_pkicmp_ng.Server.CertRequest.{accepted, deliver_if_any}
use go_pkicmp_ng.Server.CertConf.{Check, refuse_if}

-- `time.Since(last) < check_after`, for a last poll that is not the zero time.
unfoldable pub polls_too_early : TransactionEntry → Time → Bool
polls_too_early entry now =
    not (entry.last_poll_time == 0)
    && ltb (now + neg_part entry.check_after) (entry.last_poll_time + pos_part entry.check_after)

abbrev at_least_one : ℕ → ℤ
at_least_one zero = pos 1
at_least_one (suc n) = pos (suc n)

-- `max(int64(d/time.Second), 1)`; the quotient of a negative span is at most 0.
unfoldable pub check_after_seconds : Duration → ℤ
check_after_seconds d = at_least_one (pos_part d / 1000000000)

-- What is checked of a poll against the entry that it asks about, in this order.
unfoldable pub check_poll : PkiHeader → TransactionEntry → Time → Check
unfolding polls_too_early
check_poll h entry now =
    refuse_if (is_empty h.recip_nonce) fail_bad_recipient_nonce (text "missing recipNonce")
    >> (refuse_if (not (bytes_eq h.recip_nonce entry.sender_nonce)) fail_bad_recipient_nonce
          (text "recipNonce mismatch")
        >> refuse_if (polls_too_early entry now) fail_bad_request (text "polling too frequently"))

abbrev pub first_id : List ℤ → ℤ
first_id [] = pos 0
first_id (id ∷ _) = id

module _ (env : Env) (cfg : Config) (handle : Handler) where
  -- Still waiting: the entry is renewed for the next poll.
  unfoldable pub keep_waiting :
      Inputs
      → Bytes
      → Request
      → SenderIdentity
      → TransactionEntry
      → ℤ
      → WaitingResponse
      → State
      → Outcome × State
  unfolding check_after_seconds
  keep_waiting inp cred req sender entry id w st =
      let reply =
        build_response env cfg inp.reply req.header
          (poll_rep id (check_after_seconds w.check_after) (text_list w.reason)) (some sender) in
      let (tracker, done) =
        set_pending env.sha256 cred req.header.transaction_id entry.req_type w.poll_ref
          reply.sender_nonce w.check_after inp.poll_recorded inp.stored st.tracker in
      (
        answered (
            if done
            then reply
            else build_error_response env cfg inp.error_reply req.header (some sender)
                (status_only fail_system_failure)),
        record st { tracker = tracker },
      )

  abbrev answer_poll :
      Inputs
      → Bytes
      → Request
      → SenderIdentity
      → TransactionEntry
      → ℤ
      → Response
      → Option WaitingResponse
      → State
      → Outcome × State
  answer_poll inp cred req sender entry id resp (some w) st =
      keep_waiting inp cred req sender entry id w st
  answer_poll inp cred req sender entry id resp none st =
      deliver_if_any env cfg inp cred req sender entry.req_type id resp
        (build_cert_rep_response env cfg inp.reply req.header id accepted resp.certificate
          resp.ca_certs (some sender) entry.req_type none)
        resp.certificate st

  abbrev conclude_poll :
      Inputs
      → Bytes
      → Request
      → SenderIdentity
      → TransactionEntry
      → ℤ
      → Handled
      → State
      → Outcome × State
  conclude_poll inp cred req sender entry id (err e) st =
      refused env cfg inp req sender (error_to_status_info e) st
  conclude_poll inp cred req sender entry id (ok none) st = (panicked, st)
  conclude_poll inp cred req sender entry id (ok (some resp)) st =
      answer_poll inp cred req sender entry id resp resp.waiting st

  abbrev poll_if :
      Inputs
      → HandlerContext
      → Bytes
      → Request
      → SenderIdentity
      → TransactionEntry
      → ℤ
      → Check
      → State
      → Outcome × State
  poll_if inp ctx cred req sender entry id (err si) st = refused env cfg inp req sender si st
  poll_if inp ctx cred req sender entry id (ok _) st =
      let (handled, log) =
        handle (record ctx { poll_ref = some entry.poll_ref }) req sender st.log in
      conclude_poll inp cred req sender entry id handled (record st { log = log })

  -- `handlePollReq` of a readable content, from a sender with credentials.
  unfoldable pub poll_req_for :
      Inputs → HandlerContext → Bytes → Request → SenderIdentity → ℤ → State → Outcome × State
  unfolding check_poll keep_waiting
  poll_req_for inp ctx cred req sender id st =
      elim (get_pending env.sha256 cred req.header.transaction_id st.tracker) [
        | none ↦
            refused env cfg inp req sender
              (status_text fail_bad_request (text "no pending certificate")) st
        | some entry ↦
            poll_if inp ctx cred req sender entry id (check_poll req.header entry inp.polled) st
      ]

  unfoldable pub handle_poll_req :
      Inputs → HandlerContext → Request → SenderIdentity → Option (List ℤ) → State → Outcome × State
  unfolding poll_req_for
  handle_poll_req inp ctx req sender none st =
      refused env cfg inp req sender (status_only fail_bad_data_format) st
  handle_poll_req inp ctx req sender (some ids) st = elim (credential_id env sender) [
    | none ↦ refused env cfg inp req sender (status_only fail_bad_message_check) st
    | some cred ↦ poll_req_for inp ctx cred req sender (first_id ids) st
  ]
