-- ===== src/Server/PollReq/Polled.antt =====
-- What a poll has shown before the handler learns of it.
use go_pkicmp_ng.Prelude.{
  ◌+◌, ◌≡◌, ◌≤◌, refl, ◌⊎◌, inl, inr, false, Option, none, some, List, Bytes, bytes_eq_sound,
  is_empty, arith, Option-cases, subst, sym,
}
use go_pkicmp_ng.Prelude.Int.{ℤ, pos_part, neg_part}
use go_pkicmp_ng.Prelude.Result.{ok, ok_or_err}
use go_pkicmp_ng.Pkicmp.Types.{Time}
use go_pkicmp_ng.Pkicmp.Message.{Request}
use go_pkicmp_ng.Server.Entry.{TransactionEntry}
use go_pkicmp_ng.Server.Tracker.{get_pending}
use go_pkicmp_ng.Server.Config.{Env, Config, SenderIdentity, Handler, HandlerContext, credential_id}
use go_pkicmp_ng.Server.PollReq.{
  first_id, polls_too_early, check_poll, poll_req_for, handle_poll_req,
}
use go_pkicmp_ng.Server.State.{State, Inputs}

-- A poll that the handler learns of: it comes from the holder of a pending request, with the nonce of
-- the last reply; and where the entry has a time of its last poll, no earlier after it than the wait that
-- the entry has.
pub record IsDuePoll (env : Env) (req : Request) (sender : SenderIdentity) (now : Time) (st : State)
    (cred : Bytes) (entry : TransactionEntry) : Type 0 where
  pub holder : credential_id env sender ≡ some cred
  pub outstanding : get_pending env.sha256 cred req.header.transaction_id st.tracker ≡ some entry
  pub nonce : req.header.recip_nonce ≡ entry.sender_nonce
  pub has_nonce : is_empty req.header.recip_nonce ≡ false
  pub due :
      (entry.last_poll_time ≡ 0)
      ⊎ (entry.last_poll_time + pos_part entry.check_after ≤ now + neg_part entry.check_after)

check_poll-IsDuePoll :
    (env : Env) (req : Request) (sender : SenderIdentity) (now : Time) (st : State) (cred : Bytes)
    (entry : TransactionEntry)
    → credential_id env sender ≡ some cred
    → get_pending env.sha256 cred req.header.transaction_id st.tracker ≡ some entry
    → check_poll req.header entry now ≡ ok tt
    → IsDuePoll env req sender now st cred entry
unfolding check_poll polls_too_early
check_poll-IsDuePoll env req sender now st cred entry holder found h = record {
  holder = holder;
  outstanding = found;
  nonce = bytes_eq_sound req.header.recip_nonce entry.sender_nonce (ground arith);
  has_nonce = ground arith;
  due = ground arith;
}

-- What a poll does: it is refused and changes nothing, or it is due.
pub PollOutcome : Env → Request → SenderIdentity → Time → State → State → Type 0
PollOutcome env req sender now st st' =
    (st' ≡ st)
    ⊎ ((cred : Bytes) × (entry : TransactionEntry) × IsDuePoll env req sender now st cred entry)

poll_req_for-outcome :
    (env : Env) (cfg : Config) (handle : Handler) (inp : Inputs) (ctx : HandlerContext)
    (req : Request) (sender : SenderIdentity) (id : ℤ) (st : State) (cred : Bytes)
    → credential_id env sender ≡ some cred
    → PollOutcome env req sender inp.polled st
        (poll_req_for env cfg handle inp ctx cred req sender id st).1
unfolding poll_req_for PollOutcome
poll_req_for-outcome env cfg handle inp ctx req sender id st cred holder =
    elim (Option-cases (get_pending env.sha256 cred req.header.transaction_id st.tracker)) [
      | inl unknown ↦ inl (ground arith)
      | inr (entry, found) ↦ elim (ok_or_err (check_poll req.header entry inp.polled)) [
        | inr (si, refused) ↦ inl (ground arith)
        | inl (_, good) ↦ inr (
          cred,
          entry,
          check_poll-IsDuePoll env req sender inp.polled st cred entry holder found good,
        )
      ]
    ]

-- A poll changes nothing, or it comes from the holder of a pending request, with the nonce of the last
-- reply; and where the entry has a time of its last poll, no earlier after it than the wait that the entry
-- has. The first poll may come at any time.
pub handle_poll_req-outcome :
    (env : Env) (cfg : Config) (handle : Handler) (inp : Inputs) (ctx : HandlerContext)
    (req : Request) (sender : SenderIdentity) (ids : Option (List ℤ)) (st : State)
    → PollOutcome env req sender inp.polled st
        (handle_poll_req env cfg handle inp ctx req sender ids st).1
unfolding handle_poll_req PollOutcome
handle_poll_req-outcome env cfg handle inp ctx req sender none st = inl refl
handle_poll_req-outcome env cfg handle inp ctx req sender (some ids) st =
    elim (Option-cases (credential_id env sender)) [
      | inl nobody ↦ inl (ground arith)
      | inr (cred, holder) ↦
          let same : (handle_poll_req env cfg handle inp ctx req sender (some ids) st).1
              ≡ (poll_req_for env cfg handle inp ctx cred req sender (first_id ids) st).1 =
            ground arith in
          subst (λ (st' : State). PollOutcome env req sender inp.polled st st') (sym same)
            (poll_req_for-outcome env cfg handle inp ctx req sender (first_id ids) st cred holder)
    ]
