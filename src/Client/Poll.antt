-- ===== src/Client/Poll.antt =====
-- client/transport.go: polling for a delayed answer.
pub mod Bounds
pub mod Answered
use go_pkicmp_ng.Prelude.{
  ℕ, zero, suc, Bool, true, false, Option, none, some, List, [], ◌∷◌, Bytes, if◌then◌else◌,
}
use go_pkicmp_ng.Prelude.Int.{ℤ, pos, pos_part}
use go_pkicmp_ng.Prelude.Result.{Result, ok, err, ◌>>=◌}
use go_pkicmp_ng.Pkicmp.Types.{Certificate}
use go_pkicmp_ng.Pkicmp.Message.{PkiHeader}
use go_pkicmp_ng.Pkicmp.Verify.{VerifyResult}
use go_pkicmp_ng.Client.Config.{
  Client, Env, Credentials, Received, Reply, poll_rep, error_reply, poll_request, Event, waited,
  ClientError, failed, bad_content, waiting_cancelled, polls_exceeded,
}
use go_pkicmp_ng.Client.Wait.{clamp_check_after}
use go_pkicmp_ng.Client.Response.{wrap_error, parse_error_response}
use go_pkicmp_ng.Client.Exchange.{Logged, stop, exchange, versioned, follow_up, prepare}

-- What one round of polling comes to.
pub data Round : Type 0 where
  ended : ClientError → Round
  answered : Received → VerifyResult → Round
  again : ℕ → Received → Option Certificate → Round

abbrev first_check_after : List ℤ → ℤ
first_check_after [] = pos 0
first_check_after (s ∷ _) = s

-- The signer to keep: that of the last response that names one.
abbrev pub kept : VerifyResult → Option Certificate → Option Certificate
kept vr known = elim vr.protection_certificate [ some cert ↦ some cert | none ↦ known ]

module _ (env : Env) (c : Client) (creds : Credentials) (orig : PkiHeader) where
  -- What the code does with the body of a verified response.
  unfoldable pub judge_reply : Option Certificate → Received → VerifyResult → Reply → Round
  unfolding clamp_check_after
  judge_reply known resp vr (error_reply si) =
      ended (wrap_error resp.status_code (parse_error_response si))
  judge_reply known resp vr (poll_rep none) = ended (failed bad_content)
  judge_reply known resp vr (poll_rep (some after)) =
      again (clamp_check_after c (first_check_after after)) resp (kept vr known)
  judge_reply known resp vr _ = answered resp vr

  unfoldable pub judge : Option Certificate → Result ClientError (Received × VerifyResult) → Round
  unfolding judge_reply
  judge known (err e) = ended e
  judge known (ok (resp, vr)) = judge_reply known resp vr resp.reply

  -- The final response may refer to the delayed request instead of the pollReq; for a pollRep the code
  -- passes a nil nonce, which an absent one equals.
  abbrev pub delayed_nonce : Received → Option Bytes
  delayed_nonce resp = elim resp.reply [ poll_rep _ ↦ some [] | _ ↦ some orig.sender_nonce ]

  unfoldable pub poll_once : ℤ → Received → Option Certificate → List Event → List Event × Round
  unfolding judge prepare exchange
  poll_once id last known log =
      elim (prepare env c creds
        (follow_up env c orig last.message.header.sender_nonce log (poll_request id))) [
          | err e ↦ (log, ended e)
          | ok m ↦
              let (log', got) =
                exchange env c m.header creds c.trusted_cas known delayed_nonce m log in
              (log', judge known (got >>= versioned env c))
        ]

  -- The wait before a poll, except the first: none where the context ends it.
  unfoldable pub pause : Option ℕ → List Event → Option (List Event)
  pause none log = some log
  pause (some wait) log = if env.cancelled log then none else some (waited wait ∷ log)

  -- The end of the loop, or its next round.
  unfoldable pub resume :
      (ℕ → Received → Option Certificate → List Event → Logged (Received × VerifyResult))
      → List Event × Round
      → Logged (Received × VerifyResult)
  resume next (log, ended e) = stop log e
  resume next (log, answered resp vr) = (log, ok (resp, vr))
  resume next (log, again wait resp known) = next wait resp known log

  -- The loop, with the polls that are left and the wait before the next one.
  unfoldable pub poll_loop :
      ℕ
      → ℤ
      → Option ℕ
      → Received
      → Option Certificate
      → List Event
      → Logged (Received × VerifyResult)
  unfolding pause poll_once resume
  poll_loop zero id wait last known log = stop log (failed polls_exceeded)
  poll_loop (suc n) id wait last known log = elim (pause wait log) [
    | none ↦ stop log (failed waiting_cancelled)
    | some log1 ↦
        resume (λ w resp known' log'. poll_loop n id (some w) resp known' log')
          (poll_once id last known log1)
  ]

  -- `poll`
  unfoldable pub poll :
      ℤ → Received → Option Certificate → List Event → Logged (Received × VerifyResult)
  unfolding poll_loop
  poll id last known log = poll_loop (pos_part c.max_polls) id none last known log
