-- ===== src/Client/Poll/Bounds.antt =====
-- client/transport.go: polling ends, and waits within the limits.
use go_pkicmp_ng.Prelude.{
  Bool, true, false, ℕ, zero, suc, ◌≤◌, ◌≡◌, refl, subst, sym, ◌⊎◌, inl, inr, Option, none, some,
  List, ◌∷◌, Bool-cases,
}
use go_pkicmp_ng.Prelude.Int.{ℤ, pos_part}
use go_pkicmp_ng.Prelude.Result.{Result, ok, err, ok_or_err}
use go_pkicmp_ng.Pkicmp.Types.{Certificate}
use go_pkicmp_ng.Pkicmp.Message.{PkiHeader}
use go_pkicmp_ng.Client.Config.{
  Client, Env, Credentials, Received, Reply, poll_rep, error_reply, poll_request, ClientError,
  Event, sent, waited, Sent,
}
use go_pkicmp_ng.Client.Wait.{HasLimits, clamp_check_after-exact}
use go_pkicmp_ng.Client.Exchange.{Logged, exchange, round_trip, follow_up, prepare}
use go_pkicmp_ng.Pkicmp.Verify.{VerifyResult}
use go_pkicmp_ng.Client.Poll.{
  Round, ended, answered, again, first_check_after, resume, judge, judge_reply, poll_once, pause,
  poll_loop, poll,
}

abbrev pub IsWithin : Client → ℕ → Type 0
IsWithin c w = (c.min_check_after ≤ w) × (w ≤ c.max_check_after)

-- A log that goes on from another with at most `n` messages, and with a wait within the limits before
-- each; before the first where `ready` is false.
pub data Extends (c : Client) : Bool → ℕ → List Event → List Event → Type 0 where
  done : (ready : Bool) (n : ℕ) (log : List Event) → Extends c ready n log log
  rest :
      {n : ℕ} {log log' : List Event} (w : ℕ)
      → IsWithin c w
      → Extends c true n (waited w ∷ log) log'
      → Extends c false n log log'
  send :
      {n : ℕ} {log log' : List Event} (m : Sent)
      → Extends c false n (sent m ∷ log) log'
      → Extends c true (suc n) log log'

abbrev WaitsWithin : Client → Option ℕ → Type 0
WaitsWithin c none = Unit
WaitsWithin c (some w) = IsWithin c w

module _ (env : Env) (c : Client) (creds : Credentials) (orig : PkiHeader)
    (limits : HasLimits c) where
  -- A round leaves the log and ends the polling, or adds one message.
  poll_once-log :
      (id : ℤ) (last : Received) (known : Option Certificate) (log : List Event)
      → let r = poll_once env c creds orig id last known log in
        ((e : ClientError) × (r ≡ (log, ended e))) ⊎ ((m : Sent) × (r.0 ≡ sent m ∷ log))
  unfolding poll_once exchange round_trip
  poll_once-log id last known log =
      let m = follow_up env c orig last.message.header.sender_nonce log (poll_request id) in
      elim (ok_or_err (prepare env c creds m)) [
        | inr (e, bad) ↦ inl (e, rw (bad, poll_once) refl)
        | inl (m', good) ↦ inr (m', rw (good, poll_once) refl)
      ]

  abbrev RoundWithin : Round → Type 0
  RoundWithin (again w resp known) = IsWithin c w
  RoundWithin _ = Unit

  judge_reply-RoundWithin :
      (known : Option Certificate) (resp : Received) (vr : VerifyResult) (r : Reply)
      → RoundWithin (judge_reply env c creds orig known resp vr r)
  unfolding judge_reply
  judge_reply-RoundWithin known resp vr (poll_rep (some after)) =
      let exact = clamp_check_after-exact c (first_check_after after) limits in (exact.1, exact.2)
  judge_reply-RoundWithin known resp vr (poll_rep none) = tt
  judge_reply-RoundWithin known resp vr (error_reply si) = tt
  judge_reply-RoundWithin known resp vr _ = tt

  judge-RoundWithin :
      (known : Option Certificate) (r : Result ClientError (Received × VerifyResult))
      → RoundWithin (judge env c creds orig known r)
  unfolding judge
  judge-RoundWithin known (err e) = tt
  judge-RoundWithin known (ok (resp, vr)) = judge_reply-RoundWithin known resp vr resp.reply

  poll_once-RoundWithin :
      (id : ℤ) (last : Received) (known : Option Certificate) (log : List Event)
      → RoundWithin (poll_once env c creds orig id last known log).1
  unfolding poll_once
  poll_once-RoundWithin id last known log =
      let m = follow_up env c orig last.message.header.sender_nonce log (poll_request id) in
      elim (ok_or_err (prepare env c creds m)) [
        | inr (e, bad) ↦ rw (bad, poll_once) tt
        | inl (m', good) ↦ rw (good, poll_once) (judge-RoundWithin known _)
      ]

  resume-Extends :
      (n : ℕ)
      (next : ℕ → Received → Option Certificate → List Event → Logged (Received × VerifyResult))
      (r : List Event × Round)
      → ((w : ℕ) (resp : Received) (known : Option Certificate) (log : List Event)
          → IsWithin c w
          → Extends c false n log (next w resp known log).0)
      → RoundWithin r.1
      → Extends c false n r.0 (resume env c creds orig next r).0
  unfolding resume
  resume-Extends n next (log, ended e) go h = done false n log
  resume-Extends n next (log, answered resp vr) go h = done false n log
  resume-Extends n next (log, again w resp known) go h = go w resp known log h

  round-Extends :
      (n : ℕ)
      (next : ℕ → Received → Option Certificate → List Event → Logged (Received × VerifyResult))
      (id : ℤ) (last : Received) (known : Option Certificate) (log : List Event)
      → ((w : ℕ) (resp : Received) (known : Option Certificate) (log : List Event)
          → IsWithin c w
          → Extends c false n log (next w resp known log).0)
      → Extends c true
          (suc n)
          log
          (resume env c creds orig next (poll_once env c creds orig id last known log)).0
  unfolding resume
  round-Extends n next id last known log go =
      let r = poll_once env c creds orig id last known log in
      elim (poll_once-log id last known log) [
        | inl (e, over) ↦
            subst
              (λ (x : List Event × Round).
                Extends c true (suc n) log (resume env c creds orig next x).0)
              (sym over) (done true (suc n) log)
        | inr (m, more) ↦ send m (
            subst (λ l. Extends c false n l (resume env c creds orig next r).0) more
              (resume-Extends n next r go (poll_once-RoundWithin id last known log)))
      ]

  -- The loop is ready to send where it has not been told to wait.
  abbrev ready : Option ℕ → Bool
  ready none = true
  ready (some w) = false

  poll_loop-Extends :
      (n : ℕ) (id : ℤ) (wait : Option ℕ) (last : Received) (known : Option Certificate)
      (log : List Event)
      → WaitsWithin c wait
      → Extends c (ready wait) n log (poll_loop env c creds orig n id wait last known log).0
  unfolding poll_loop pause
  poll_loop-Extends zero id wait last known log within = done (ready wait) zero log
  poll_loop-Extends (suc n) id none last known log within =
      round-Extends n (λ w resp k l. poll_loop env c creds orig n id (some w) resp k l) id last
        known log (λ w resp k l h. poll_loop-Extends n id (some w) resp k l h)
  poll_loop-Extends (suc n) id (some w) last known log within =
      elim (Bool-cases (env.cancelled log)) [
        | inl over ↦ rw (over, poll_loop) (done false (suc n) log)
        | inr more ↦
            rw (more, poll_loop)
              (rest w within (
                round-Extends n (λ w resp k l. poll_loop env c creds orig n id (some w) resp k l) id
                  last known (waited w ∷ log)
                  (λ w resp k l h. poll_loop-Extends n id (some w) resp k l h)))
      ]

  -- Polling ends after at most the configured number of messages, and waits for a time within the
  -- configured limits before each message but the first.
  pub poll-Extends :
      (id : ℤ) (last : Received) (known : Option Certificate) (log : List Event)
      → Extends c true (pos_part c.max_polls) log (poll env c creds orig id last known log).0
  unfolding poll
  poll-Extends id last known log =
      poll_loop-Extends (pos_part c.max_polls) id none last known log tt
