-- ===== src/Client/Exchange.antt =====
-- client/transport.go: one exchange over HTTP, and the first message of an operation.
use go_pkicmp_ng.Prelude.{ℕ, false, Option, none, some, List, [], ◌∷◌, Bytes, if◌then◌else◌}
use go_pkicmp_ng.Prelude.Int.{pos}
use go_pkicmp_ng.Prelude.Result.{Result, ok, err, ◌>>=◌, ◌>>◌}
use go_pkicmp_ng.Pkicmp.Types.{Time, Opaque, Certificate}
use go_pkicmp_ng.Pkicmp.Message.{GeneralName, PkiHeader}
use go_pkicmp_ng.Pkicmp.Protect.{PkiMessage}
use go_pkicmp_ng.Pkicmp.Verify.{VerifyResult}
use go_pkicmp_ng.Client.Config.{
  Client, Env, Credentials, Reply, Received, HttpReply, Outgoing, Sent, Event, sent, ClientError,
  failed, protect_message, marshal_message, http_request, parse_response,
}
use go_pkicmp_ng.Client.Http.{read_http}
use go_pkicmp_ng.Client.Response.{
  require, or_fail, wrap_error, with_unverified_status, verify_response, check_version,
}

-- The state of an operation is the log of what the client did.
abbrev pub Logged : Type 0 → Type 0
Logged A = List Event × Result ClientError A

abbrev pub stop : {A : Type 0} → List Event → ClientError → Logged A
stop log e = (log, err e)

abbrev or_read : Option HttpReply → Client → Result ClientError HttpReply
or_read none c = err (failed http_request)
or_read (some r) c = ok r

module _ (env : Env) (c : Client) where
  abbrev pub with_status : ℕ → Option (PkiMessage × Reply) → Result ClientError Received
  with_status code none = err (wrap_error code (failed parse_response))
  with_status code (some (m, r)) = ok (record { message = m; reply = r; status_code = code })

  -- `sendHTTP` and `parse`: the message is sent, whatever comes back.
  unfoldable pub round_trip : Sent → List Event → Logged Received
  unfolding read_http
  round_trip m log =
      let log' = sent m ∷ log in
      (
        log',
        or_read (env.transport log') c >>= λ r.
            read_http c r >>= λ body. with_status r.status_code (env.parse body),
      )

  -- `NewPKIMessage`, with the numbers drawn.
  abbrev pub new_pki_message : GeneralName → GeneralName → Bytes → List Event → Outgoing → Sent
  new_pki_message sender recipient recip_nonce log body = record {
    header = record {
      pvno = pos 2;
      sender = sender;
      recipient = recipient;
      message_time = env.now log;
      message_time_present = false;
      protection_alg = none;
      sender_kid = [];
      transaction_id = env.fresh_transaction_id log;
      sender_nonce = env.fresh_nonce log;
      recip_nonce = recip_nonce;
      general_info = [];
    };
    body = body;
    protection = [];
  }

  -- A later message of an operation: the names, the transaction and the key identifier are those of
  -- the first.
  abbrev pub follow_up : PkiHeader → Bytes → List Event → Outgoing → Sent
  follow_up orig recip_nonce log body =
      let m = new_pki_message orig.sender orig.recipient recip_nonce log body in
      record m {
        header = record (m.header) {
          transaction_id = orig.transaction_id;
          sender_kid = orig.sender_kid;
        };
      }

  -- `creds.Protect` and `MarshalBinary`
  unfoldable pub prepare : Credentials → Sent → Result ClientError Sent
  prepare creds m = or_fail (failed protect_message) (creds.protect m) >>= λ m'.
      require (env.marshals m') (failed marshal_message) >> ok m'

  abbrev pub judged :
      Received → Result ClientError VerifyResult → Result ClientError (Received × VerifyResult)
  judged resp (err e) = err (wrap_error resp.status_code (with_unverified_status resp.reply e))
  judged resp (ok vr) = ok (resp, vr)

  -- A response that is verified as the answer to a message, or the error with the status that it claims.
  unfoldable pub checked :
      PkiHeader
      → Credentials
      → Option Opaque
      → Option Certificate
      → Option Bytes
      → Time
      → Received
      → Result ClientError (Received × VerifyResult)
  unfolding verify_response
  checked req creds trusted known alternative now resp =
      judged resp (verify_response env c req resp creds trusted known alternative now)

  abbrev pub unless_refused :
      Received × VerifyResult
      → Result ClientError Unit
      → Result ClientError (Received × VerifyResult)
  unless_refused (resp, vr) (err e) = err (wrap_error resp.status_code e)
  unless_refused (resp, vr) (ok _) = ok (resp, vr)

  abbrev pub versioned : Received × VerifyResult → Result ClientError (Received × VerifyResult)
  versioned (resp, vr) = unless_refused (resp, vr) (check_version env c resp)

  -- One message and its verified response.
  unfoldable pub exchange :
      PkiHeader
      → Credentials
      → Option Opaque
      → Option Certificate
      → (Received → Option Bytes)
      → Sent
      → List Event
      → Logged (Received × VerifyResult)
  unfolding round_trip checked
  exchange req creds trusted known alternative m log =
      let (log', got) = round_trip m log in
      (log', got >>= λ resp. checked req creds trusted known (alternative resp) (env.now log') resp)

  abbrev pub no_alternative : Received → Option Bytes
  no_alternative _ = none

  -- `exchangeFirst`
  unfoldable pub exchange_first : Credentials → Sent → List Event → Logged (Received × VerifyResult)
  unfolding exchange
  exchange_first creds m log =
      if env.marshals m
      then (let (log', got) = exchange m.header creds c.trusted_cas none no_alternative m log in
          (log', got >>= versioned))
      else stop log (failed marshal_message)
