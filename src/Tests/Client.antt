-- ===== src/Tests/Client.antt =====
-- client/transport.go against a server that lets the client wait, then answers.
use go_pkicmp_ng.Prelude.{
  ◌↔◌, ◌⊎◌, not, ◌&&◌, is_empty, ◌≡◌, refl, ◌≤◌, ◌*◌, true, false, none, some, List, [], ◌∷◌, Bytes,
  length, bytes_eq, arith, ◌==◌, if◌then◌else◌,
}
use go_pkicmp_ng.Prelude.Int.{ℤ, pos, negsuc, pos_part}
use go_pkicmp_ng.Prelude.Result.{Result, ok, err}
use go_pkicmp_ng.Pkicmp.Algorithms.Confirmation.{CertStatus}
use go_pkicmp_ng.Pkicmp.Status.{PkiStatusInfo, as_error}
use go_pkicmp_ng.Pkicmp.Credentials.{mac_credentials_protect}
use go_pkicmp_ng.Pkicmp.Verify
use go_pkicmp_ng.Pkicmp.Verify.{VerifyResult, protection_any}
use go_pkicmp_ng.Client.Config.{
  Sent, cert_confirm, Client, Env, Credentials, failed, not_confirmed, body_type, error_reply,
  ClientError, cert_req_id_mismatch, CertRepMessage, Reply, cp, poll_rep, pki_conf, Received,
  cert_request, HttpReply, Outgoing, Event, sent, waited,
}
use go_pkicmp_ng.Client.Wait.{
  second, HasLimits, exact_wait, clamp_check_after, with_check_after_limits,
  clamp_check_after-exact, with_check_after_limits-HasLimits,
}
use go_pkicmp_ng.Client.Http.{read_body, read_http, supports_cmp_response, read_http-all}
use go_pkicmp_ng.Client.Response.{expects_cp}
use go_pkicmp_ng.Client.Exchange.{exchange, no_alternative, follow_up, prepare, Logged}
use go_pkicmp_ng.Client.Poll.{poll}
use go_pkicmp_ng.Client.Poll.Bounds.{Extends, poll-Extends}
use go_pkicmp_ng.Client.Enroll.{
  EnrollResult, Answer, Confirmation, send_cert_conf, Names, enroll, settle, read_reply,
}
use go_pkicmp_ng.Client.Enroll.Certified.{conf_of}
use go_pkicmp_ng.Client.Enroll.Unconfirmed.{is_positive, send_cert_conf-error}
use go_pkicmp_ng.Client.Enroll.Enrolled.{IsEnrolled, enroll-IsEnrolled}
use go_pkicmp_ng.Tests.Fixtures.{header, cert, hashes, key_library}
use go_pkicmp_ng.Tests.Libraries.{mac_library, certificate_library}
use go_pkicmp_ng.Tests.Protection.{protected}

abbrev client : Client
client = record {
  trusted_cas = some 0;
  server_certs = [];
  response_protection = protection_any;
  max_response_bytes = pos 100;
  max_polls = pos 3;
  min_check_after = 5 * second;
  max_check_after = 60 * second;
  allow_sha1_signatures = false;
}

limits : HasLimits client
limits = record { ordered = omega arith; narrow = omega arith }

clamp_check_after-exact_example :
    (clamp_check_after client (pos 90) ≡ exact_wait client (pos 90))
    × (client.min_check_after ≤ clamp_check_after client (pos 90))
    × (clamp_check_after client (pos 90) ≤ client.max_check_after)
clamp_check_after-exact_example = clamp_check_after-exact client (pos 90) limits

-- A product that would wrap around as an int64 is not formed.
no_overflow : clamp_check_after client (pos 18446744074) ≡ 60 * second
unfolding clamp_check_after
no_overflow = refl

with_check_after_limits-HasLimits_example :
    HasLimits (with_check_after_limits (pos 9) (negsuc 4) client)
with_check_after_limits-HasLimits_example =
    with_check_after_limits-HasLimits (pos 9) (negsuc 4) client (omega arith) (omega arith)

abbrev granting : ℤ → CertRepMessage
granting status = record {
  ca_pubs = [];
  response =
      record {
        cert_req_id = pos 0;
        status = record { status = status; status_string = []; fail_info = 0 };
        certified_key_pair = some (some (48 ∷ []));
      }
      ∷ [];
}

-- The answers by the length of the log: wait, wait again, the certificate, the confirmation.
abbrev reply_to : Bytes → Reply
reply_to [] = pki_conf
reply_to (n ∷ _) =
    if n == 1
    then cp (some (granting (pos 3)))
    else if n == 2
    then poll_rep (some (pos 30 ∷ []))
    else if n == 4
    then cp (some (granting (pos 0)))
    else pki_conf

-- Every answer is protected alike, and the client draws the numbers that it names.
abbrev env : Env
env = record {
  mac = mac_library;
  keys = key_library;
  certs = certificate_library;
  hashes = hashes;
  marshals = λ m. true;
  transport = λ log. some (record { status_code = 200; is_cmp = true; body = length log ∷ [] });
  parse = λ body. some (protected, reply_to body);
  now = λ log. 10;
  fresh_transaction_id = λ log. header.transaction_id;
  fresh_nonce = λ log. header.recip_nonce;
  cancelled = λ log. false;
  add_certs = λ pool cs. 0;
}

abbrev creds : Credentials
creds = record { protect = λ m. some m; shared_secret = 1 ∷ 2 ∷ [] }

abbrev names : Names
names = record { sender = header.sender; recipient = header.recipient; sender_kid = [] }

abbrev request : Outgoing
request = cert_request (some (pos 0 ∷ []))

abbrev enrollment : Logged EnrollResult
enrollment = enroll env client creds names request expects_cp none []

abbrev result : EnrollResult
result = record { certificate = cert; ca_pubs = []; extra_certificates = cert ∷ cert ∷ [] }

-- An enrollment: the request, a poll, a wait, a poll, the confirmation.
abbrev waits : List Event → List ℤ
waits [] = []
waits (waited w ∷ log) = pos w ∷ waits log
waits (sent m ∷ log) = negsuc 0 ∷ waits log

enrolls :
    (waits enrollment.0 ≡ negsuc 0 ∷ negsuc 0 ∷ pos (30 * second) ∷ negsuc 0 ∷ negsuc 0 ∷ [])
    × (enrollment.1 ≡ ok result)
unfolding enroll Verify.verify bytes_eq mac_credentials_protect
enrolls = (refl, refl)

enroll-IsEnrolled_example :
    IsEnrolled env client creds names request expects_cp none [] result enrollment.0
enroll-IsEnrolled_example =
    enroll-IsEnrolled env client creds names request expects_cp none [] result enrolls.1

abbrev waiting : Received
waiting = record { message = protected; reply = reply_to (1 ∷ []); status_code = 200 }

poll-Extends_example :
    Extends client true
      (pos_part client.max_polls)
      []
      (poll env client creds header (pos 0) waiting none []).0
poll-Extends_example = poll-Extends env client creds header limits (pos 0) waiting none []

abbrev answer : HttpReply
answer = record { status_code = 200; is_cmp = true; body = 1 ∷ 2 ∷ [] }

reads : read_http client answer ≡ ok answer.body
unfolding read_http
reads = refl

read_http-all_example :
    (answer.body ≡ answer.body)
    × ((pos_part client.max_response_bytes ≡ 0)
        ⊎ (length answer.body ≤ pos_part client.max_response_bytes))
    × (supports_cmp_response 200 ≡ true)
    × (true ≡ true)
    × (not (is_empty answer.body && not (200 == 200)) ≡ true)
read_http-all_example = read_http-all client answer answer.body (omega arith) reads

-- Under the largest int64 as the limit, nothing is read.
nothing_read : read_body (pos 9223372036854775807) (1 ∷ 2 ∷ []) ≡ []
unfolding read_body
nothing_read = refl

-- A certificate for another request: it is rejected, and the CA is told so.
abbrev unasked : Answer
unasked = record {
  resp = waiting;
  verified = record {
    mac_verified = true;
    protection_params = none;
    protection_certificate = none;
  };
  known_signer = none;
  cert_resp = record {
    cert_req_id = pos 7;
    status = record { status = pos 0; status_string = []; fail_info = 0 };
    certified_key_pair = some (some (48 ∷ []));
  };
  rep = granting (pos 0);
}

-- This server does not confirm the rejection.
rejected :
    (settle env client creds header unasked (pos 0 ∷ []) none cert []).1
    ≡ err (not_confirmed (failed cert_req_id_mismatch) (failed body_type))
unfolding settle mac_credentials_protect bytes_eq Verify.verify
rejected = refl

-- An error message whose status is accepted passes for a confirmation.
nil_confirmation :
    read_reply env client creds waiting
      (error_reply (some (record { status = pos 0; status_string = []; fail_info = 0 })))
    ≡ ok tt
unfolding as_error
nil_confirmation = refl

abbrev positive : PkiStatusInfo
positive = record { status = pos 0; status_string = []; fail_info = 0 }

-- A server that answers every message with an error message of the status accepted.
abbrev odd_env : Env
odd_env = record env { parse = λ body. some (protected, error_reply (some positive)) }

abbrev confirmation : Confirmation
confirmation = conf_of odd_env client creds header unasked

abbrev status_of_cert : CertStatus
status_of_cert = record { cert_hash = []; cert_req_id = pos 0; status_info = none; hash_alg = none }

abbrev told : Sent
told =
    follow_up odd_env client header protected.header.sender_nonce [] (cert_confirm status_of_cert)

abbrev odd_answer : Received
odd_answer = record { message = protected; reply = error_reply (some positive); status_code = 200 }

abbrev verdict : Result ClientError (Received × VerifyResult)
verdict =
    (exchange odd_env client told.header creds confirmation.trust_pool none
      (no_alternative odd_env client) told []).1

abbrev result_of : Result ClientError (Received × VerifyResult) → VerifyResult
result_of (ok (resp, vr)) = vr
result_of (err e) = record {
  mac_verified = false;
  protection_params = none;
  protection_certificate = none;
}

send_cert_conf-error_example :
    ((send_cert_conf odd_env client creds confirmation status_of_cert []).1 ≡ ok tt)
    ↔ (is_positive positive ≡ true)
unfolding prepare exchange mac_credentials_protect bytes_eq Verify.verify
send_cert_conf-error_example =
    send_cert_conf-error odd_env client creds confirmation status_of_cert [] told odd_answer
      (result_of verdict) positive refl refl refl refl
