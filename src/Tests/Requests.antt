-- ===== src/Tests/Requests.antt =====
-- The server's handlers on a small request.
use go_pkicmp_ng.Prelude.{
  ◌≡◌, refl, ◌⊎◌, true, false, none, some, [], ◌∷◌, Bytes, arith, put_uint32, bytes_eq, is_some,
  text, All,
}
use go_pkicmp_ng.Prelude.Int.{pos}
use go_pkicmp_ng.Prelude.Result.{ok}
use go_pkicmp_ng.Prelude.Assoc.{lookup, put}
use go_pkicmp_ng.Pkicmp.Message.{nested, nested_again}
use go_pkicmp_ng.Pkicmp.Algorithms.Confirmation.{CertStatus}
use go_pkicmp_ng.Server.Config.{
  credential_id, Template, issue_certificate, revoke_certificate, RevocationRequest,
}
use go_pkicmp_ng.Server.Response.{Reply, build_cert_rep_response}
use go_pkicmp_ng.Server.State.{State, answered}
use go_pkicmp_ng.Server.CertRequest.{handle_cert_request}
use go_pkicmp_ng.Server.CertRequest.Delivery.{
  delivered_certificate, IsRecorded, handle_cert_request-IsRecorded,
}
use go_pkicmp_ng.Server.PollReq.{handle_poll_req}
use go_pkicmp_ng.Server.PollReq.Polled.{PollOutcome, handle_poll_req-outcome}
use go_pkicmp_ng.Server.Ca.{ca_handler, ca_revocation}
use go_pkicmp_ng.Server.Ca.Safety.{HasProof}
use go_pkicmp_ng.Server.Ca.Issuance.{
  IsEndEntity, MayRevoke, lightweight_policy-template, ca_revocation-MayRevoke,
}
use go_pkicmp_ng.Server.Entry.{new_transaction_tracker}
use go_pkicmp_ng.Server.Tracker.{
  get_pending, set_issued, start_if_absent, make_credential_key, make_key, key_material,
}
use go_pkicmp_ng.Server.Header.{is_initial_request}
use go_pkicmp_ng.Server.Revocation.{identifies, match_certificate, parse_revocation_request}
use go_pkicmp_ng.Server.Policy.{lightweight_policy, policy_rules}
use go_pkicmp_ng.Server.Process.{process_message, answer_request}
use go_pkicmp_ng.Server.Process.Nested.{Reached, process_message-Reached}
use go_pkicmp_ng.Server.Process.Replay.{answer_request-replayed}
use go_pkicmp_ng.Tests.Fixtures.{
  env, cfg, context, cert, header, message, request, revocation, sender, inputs, empty_state, begun,
  issuing, ca, access, reply_of,
}

process_message-Reached_example :
    ((process_message env cfg access issuing inputs
        (nested (record request { content = nested_again }) (some (request ∷ [])))
        empty_state).1
      ≡ empty_state)
    ⊎ Reached env cfg access
        (nested (record request { content = nested_again }) (some (request ∷ [])))
process_message-Reached_example =
    process_message-Reached env cfg access issuing inputs
      (nested (record request { content = nested_again }) (some (request ∷ []))) empty_state

abbrev asked_template : Template
asked_template = record {
  subject = message.cert_template.subject;
  public_key = some 5;
  subject_key_id = 5 ∷ [];
  extra_extensions = [];
}

issues :
    (lightweight_policy env (ca_handler env ca) context request sender []).1
    ≡ issue_certificate (pos 0) asked_template sender ∷ []
unfolding lightweight_policy ca_handler bytes_eq text
issues = refl

lightweight_policy-template_example :
    HasProof env request.content false
    × All (IsEndEntity env) asked_template.extra_extensions
    × (policy_rules env request false sender ≡ ok tt)
lightweight_policy-template_example =
    lightweight_policy-template env ca context request sender sender [] (pos 0) asked_template
      issues

abbrev named : RevocationRequest
named = record {
  issuer = message.cert_template.subject;
  raw_issuer = 48 ∷ 3 ∷ [];
  serial_number = pos 77;
  reason = pos 0;
  extensions = [];
  subject = [];
  public_key = 5 ∷ [];
  has_reason = false;
}

revokes : (ca_revocation env ca revocation sender []).1 ≡ revoke_certificate named sender ∷ []
unfolding ca_revocation identifies match_certificate bytes_eq
revokes = refl

ca_revocation-MayRevoke_example :
    (parse_revocation_request env revocation ≡ ok named) × MayRevoke env ca named sender []
ca_revocation-MayRevoke_example =
    ca_revocation-MayRevoke env ca revocation sender sender [] [] named revokes (λ e. ground arith)

abbrev after : State
after = (handle_cert_request env cfg issuing inputs context request sender begun).1

abbrev reply : Reply
reply = reply_of (handle_cert_request env cfg issuing inputs context request sender begun).0

answers :
    handle_cert_request env cfg issuing inputs context request sender begun
    ≡ (answered reply, after)
unfolding handle_cert_request credential_id get_pending lookup start_if_absent
    new_transaction_tracker put bytes_eq make_credential_key make_key key_material put_uint32
answers = refl

carries : delivered_certificate reply.body ≡ some cert.raw
unfolding handle_cert_request delivered_certificate credential_id get_pending lookup start_if_absent
    new_transaction_tracker put bytes_eq make_credential_key make_key key_material put_uint32
    set_issued build_cert_rep_response
carries = refl

handle_cert_request-IsRecorded_example :
    (cred : Bytes) × (credential_id env sender ≡ some cred)
    × IsRecorded env cfg request cred reply cert.raw after
handle_cert_request-IsRecorded_example =
    handle_cert_request-IsRecorded env cfg issuing inputs context request sender begun after reply
      cert.raw answers carries

abbrev status : CertStatus
status = record { cert_hash = cert.raw; cert_req_id = pos 0; status_info = none; hash_alg = none }

handle_poll_req-outcome_example :
    PollOutcome env request sender 100 after
      (handle_poll_req env cfg issuing inputs context request sender (some (pos 0 ∷ [])) after).1
handle_poll_req-outcome_example =
    handle_poll_req-outcome env cfg issuing inputs context request sender (some (pos 0 ∷ [])) after

taken :
    is_some (lookup (make_key env.sha256 cert.raw header.transaction_id) begun.tracker.transactions)
    ≡ true
unfolding lookup start_if_absent new_transaction_tracker put bytes_eq make_credential_key make_key
    key_material put_uint32
taken = refl

answer_request-replayed_example :
    ((answer_request env cfg access issuing inputs request sender begun).1.log ≡ begun.log)
    × ((answer_request env cfg access issuing inputs request sender begun).1.tracker.transactions
        ≡ begun.tracker.transactions)
answer_request-replayed_example =
    answer_request-replayed env cfg access issuing inputs request sender begun cert.raw
      (unfold credential_id in refl) (unfold is_initial_request in refl) refl taken
