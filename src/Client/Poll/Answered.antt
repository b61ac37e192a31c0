-- ===== src/Client/Poll/Answered.antt =====
-- client/transport.go: a response that an exchange or polling gives is verified.
use go_pkicmp_ng.Prelude.{
  ℕ, zero, suc, ◌≡◌, refl, ap, subst, ◌∙◌, inl, inr, Option, none, some, List, ◌∷◌, Bytes, arith,
  Bool-cases, Option-cases,
}
use go_pkicmp_ng.Prelude.Int.{ℤ, pos_part}
use go_pkicmp_ng.Prelude.Result.{Result, ok, err, ok_or_err, bind_ok, ok_injective, ◌>>=◌}
use go_pkicmp_ng.Pkicmp.Types.{Opaque, Certificate}
use go_pkicmp_ng.Pkicmp.Message.{PkiHeader}
use go_pkicmp_ng.Pkicmp.Verify.{VerifyResult}
use go_pkicmp_ng.Client.Config.{
  Client, Env, Credentials, Received, Reply, poll_rep, error_reply, poll_request, ClientError,
  Event, sent, Sent,
}
use go_pkicmp_ng.Client.Response.{verify_response}
use go_pkicmp_ng.Client.Exchange.{
  judged, unless_refused, Logged, exchange, exchange_first, round_trip, checked, versioned,
  no_alternative, follow_up, prepare,
}
use go_pkicmp_ng.Client.Poll.{
  Round, ended, answered, again, judge, judge_reply, poll_once, pause, resume, poll_loop, poll,
  delayed_nonce,
}

module _ (env : Env) (c : Client) (creds : Credentials) where
  -- The response is verified as the answer to the message that was sent last, under a pool: with the
  -- nonce of that message, or with the alternative, where one is given.
  pub record IsVerified (pool : Option Opaque) (alternative : Option Bytes) (resp : Received)
      (vr : VerifyResult) (log : List Event) : Type 0 where
    pub m : Sent
    pub before : List Event
    pub last_sent : log ≡ sent m ∷ before
    pub known : Option Certificate
    pub verified :
        verify_response env c m.header resp creds pool known alternative (env.now log) ≡ ok vr

  -- A verdict that stands is that of the verification, on the response itself.
  judged_lem :
      (got resp : Received) (vr : VerifyResult) (v : Result ClientError VerifyResult)
      → judged env c got v ≡ ok (resp, vr)
      → (got ≡ resp) × (v ≡ ok vr)
  judged_lem got resp vr (err e) h = ground arith
  judged_lem got resp vr (ok r) h =
      let same : (got, r) ≡ (resp, vr) = ok_injective h in
      (
        ap (λ (p : Received × VerifyResult). p.0) same,
        ap ok (ap (λ (p : Received × VerifyResult). p.1) same),
      )

  unless_refused_lem :
      (got a : Received × VerifyResult) (v : Result ClientError Unit)
      → unless_refused env c got v ≡ ok a
      → got ≡ a
  unless_refused_lem (resp, vr) a (err e) h = ground arith
  unless_refused_lem (resp, vr) a (ok u) h = ok_injective h

  -- What a verified exchange leaves.
  pub exchange-IsVerified :
      (m : Sent) (pool : Option Opaque) (known : Option Certificate)
      (alternative : Received → Option Bytes) (log : List Event) (resp : Received)
      (vr : VerifyResult)
      → (exchange env c m.header creds pool known alternative m log).1 ≡ ok (resp, vr)
      → IsVerified pool
          (alternative resp)
          resp
          vr
          (exchange env c m.header creds pool known alternative m log).0
  unfolding exchange round_trip checked
  exchange-IsVerified m pool known alternative log resp vr h =
      let log' = sent m ∷ log in
      let (got, received, judgement) = bind_ok (round_trip env c m log).1 _ (resp, vr) h in
      let (same, good) = judged_lem got resp vr _ judgement in
      record {
        m = m;
        before = log;
        last_sent = refl;
        known = known;
        verified =
            subst
              (λ r.
                verify_response env c m.header r creds pool known (alternative r) (env.now log')
                ≡ ok vr)
              same good;
      }

  exchange_versioned-IsVerified :
      (m : Sent) (pool : Option Opaque) (known : Option Certificate)
      (alternative : Received → Option Bytes) (log : List Event) (resp : Received)
      (vr : VerifyResult)
      → (exchange env c m.header creds pool known alternative m log).1 >>= versioned env c
        ≡ ok (resp, vr)
      → IsVerified pool
          (alternative resp)
          resp
          vr
          (exchange env c m.header creds pool known alternative m log).0
  exchange_versioned-IsVerified m pool known alternative log resp vr h =
      let x = exchange env c m.header creds pool known alternative m log in
      let (a, first, second) = bind_ok x.1 _ (resp, vr) h in
      exchange-IsVerified m pool known alternative log resp vr
        (first ∙ ap ok (unless_refused_lem a (resp, vr) _ second))

  pub exchange_first-IsVerified :
      (m : Sent) (log : List Event) (resp : Received) (vr : VerifyResult)
      → (exchange_first env c creds m log).1 ≡ ok (resp, vr)
      → IsVerified c.trusted_cas none resp vr (exchange_first env c creds m log).0
  unfolding exchange_first
  exchange_first-IsVerified m log resp vr = elim (Bool-cases (env.marshals m)) [
    | inr bad ↦ rw (bad, exchange_first) (λ h. ground arith)
    | inl fits ↦
        rw (fits, exchange_first)
          (exchange_versioned-IsVerified m c.trusted_cas none (no_alternative env c) log resp vr)
  ]

module _ (env : Env) (c : Client) (creds : Credentials) (orig : PkiHeader) where
  -- A round that ends with a response has verified it.
  abbrev RoundIsVerified : List Event × Round → Type 0
  RoundIsVerified (log, answered resp vr) =
      IsVerified env c creds c.trusted_cas (delayed_nonce env c creds orig resp) resp vr log
  RoundIsVerified (log, ended e) = Unit
  RoundIsVerified (log, again w resp known) = Unit

  judge_reply-RoundIsVerified :
      (known : Option Certificate) (resp : Received) (vr : VerifyResult) (log : List Event)
      (r : Reply)
      → IsVerified env c creds c.trusted_cas (delayed_nonce env c creds orig resp) resp vr log
      → RoundIsVerified (log, judge_reply env c creds orig known resp vr r)
  unfolding judge_reply
  judge_reply-RoundIsVerified known resp vr log (error_reply si) v = tt
  judge_reply-RoundIsVerified known resp vr log (poll_rep none) v = tt
  judge_reply-RoundIsVerified known resp vr log (poll_rep (some after)) v = tt
  judge_reply-RoundIsVerified known resp vr log _ v = v

  judge-RoundIsVerified :
      (known : Option Certificate) (log : List Event)
      (r : Result ClientError (Received × VerifyResult))
      → ((resp : Received) (vr : VerifyResult)
          → r ≡ ok (resp, vr)
          → IsVerified env c creds c.trusted_cas (delayed_nonce env c creds orig resp) resp vr log)
      → RoundIsVerified (log, judge env c creds orig known r)
  unfolding judge
  judge-RoundIsVerified known log (err e) v = tt
  judge-RoundIsVerified known log (ok (resp, vr)) v =
      judge_reply-RoundIsVerified known resp vr log resp.reply (v resp vr refl)

  poll_once-RoundIsVerified :
      (id : ℤ) (last : Received) (known : Option Certificate) (log : List Event)
      → RoundIsVerified (poll_once env c creds orig id last known log)
  unfolding poll_once
  poll_once-RoundIsVerified id last known log =
      let m = follow_up env c orig last.message.header.sender_nonce log (poll_request id) in
      elim (ok_or_err (prepare env c creds m)) [
        | inr (e, bad) ↦ rw (bad, poll_once) tt
        | inl (m', good) ↦
            rw (good, poll_once)
              (judge-RoundIsVerified known _ _ (λ resp vr h.
                exchange_versioned-IsVerified env c creds m' c.trusted_cas known
                  (delayed_nonce env c creds orig) log resp vr h))
      ]

  abbrev ResultIsVerified : Logged (Received × VerifyResult) → Type 0
  ResultIsVerified r =
      (resp : Received) (vr : VerifyResult)
      → r.1 ≡ ok (resp, vr)
      → IsVerified env c creds c.trusted_cas (delayed_nonce env c creds orig resp) resp vr r.0

  resume-IsVerified :
      (next : ℕ → Received → Option Certificate → List Event → Logged (Received × VerifyResult))
      (r : List Event × Round)
      → ((w : ℕ) (resp : Received) (known : Option Certificate) (log : List Event)
          → ResultIsVerified (next w resp known log))
      → RoundIsVerified r
      → ResultIsVerified (resume env c creds orig next r)
  unfolding resume
  resume-IsVerified next (log, ended e) go v resp vr h = ground arith
  resume-IsVerified next (log, answered got r) go v resp vr h =
      subst
        (λ (p : Received × VerifyResult).
          IsVerified env c creds c.trusted_cas (delayed_nonce env c creds orig p.0) p.0 p.1 log)
        (ok_injective h) v
  resume-IsVerified next (log, again w got known) go v resp vr h = go w got known log resp vr h

  poll_loop-IsVerified :
      (n : ℕ) (id : ℤ) (wait : Option ℕ) (last : Received) (known : Option Certificate)
      (log : List Event)
      → ResultIsVerified (poll_loop env c creds orig n id wait last known log)
  unfolding poll_loop
  poll_loop-IsVerified zero id wait last known log = λ resp vr h. ground arith
  poll_loop-IsVerified (suc n) id wait last known log =
      elim (Option-cases (pause env c creds orig wait log)) [
        | inl over ↦ rw (over, poll_loop) (λ resp vr h. ground arith)
        | inr (log1, more) ↦
            rw (more, poll_loop)
              (resume-IsVerified (λ w resp k l. poll_loop env c creds orig n id (some w) resp k l)
                (poll_once env c creds orig id last known log1)
                (λ w resp k l. poll_loop-IsVerified n id (some w) resp k l)
                (poll_once-RoundIsVerified id last known log1))
      ]

  -- The response that polling gives is verified, as the answer to the message that was sent last or to
  -- the first request.
  pub poll-IsVerified :
      (id : ℤ) (last : Received) (known : Option Certificate) (log : List Event) (resp : Received)
      (vr : VerifyResult)
      → (poll env c creds orig id last known log).1 ≡ ok (resp, vr)
      → IsVerified env c creds c.trusted_cas
          (delayed_nonce env c creds orig resp)
          resp
          vr
          (poll env c creds orig id last known log).0
  unfolding poll
  poll-IsVerified id last known log =
      poll_loop-IsVerified (pos_part c.max_polls) id none last known log
