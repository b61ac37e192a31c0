-- ===== src/Server/Process/Replay.antt =====
-- A request that repeats a transaction does not reach the handler.
use go_pkicmp_ng.Prelude.{◌≡◌, ◌≢◌, inl, inr, true, false, some, Bytes, is_empty, is_some, arith}
use go_pkicmp_ng.Prelude.Assoc.{lookup}
use go_pkicmp_ng.Prelude.Result.{ok, ok_or_err}
use go_pkicmp_ng.Pkicmp.Message.{Request}
use go_pkicmp_ng.Server.Config.{Env, Config, SenderIdentity, Handler, credential_id}
use go_pkicmp_ng.Server.Tracker.{make_key}
use go_pkicmp_ng.Server.Tracker.Operations.{
  stored, full, credential_full, existing, start_if_absent-Started,
}
use go_pkicmp_ng.Server.Protection.{Access}
use go_pkicmp_ng.Server.Header.{
  is_initial_request, lacks_transaction_id, with_transaction_id, check_header, register,
}
use go_pkicmp_ng.Server.State.{State, Inputs}
use go_pkicmp_ng.Server.Process.{answer_request}

keeps_transaction_id :
    (env : Env) (cfg : Config) (access : Access) (req : Request) (assigned : Bytes)
    → is_empty req.header.transaction_id ≡ false
    → with_transaction_id env cfg access req assigned ≡ req
unfolding with_transaction_id
keeps_transaction_id env cfg access req assigned named = ground arith

register-refuses :
    (env : Env) (cfg : Config) (access : Access) (req : Request) (sender : SenderIdentity)
    (inp : Inputs) (st : State) (cred : Bytes)
    → credential_id env sender ≡ some cred
    → is_initial_request req.content ≡ true
    → is_some (lookup (make_key env.sha256 cred req.header.transaction_id) st.tracker.transactions)
      ≡ true
    → let r = register env cfg access req sender inp.started st.tracker in
      (r.0 ≢ ok tt) × (r.1.transactions ≡ st.tracker.transactions)
unfolding register
register-refuses env cfg access req sender inp st cred holder initial taken =
    elim (start_if_absent-Started env.sha256 cred req.header.transaction_id inp.started
      st.tracker) [
        | stored absent _ _ _ ↦ ground arith
        | full _ e same ↦ (λ f. ground arith, ground (arith, same.transactions))
        | credential_full _ e same ↦ (λ f. ground arith, ground (arith, same.transactions))
        | existing _ e same ↦ (λ f. ground arith, ground (arith, same.transactions))
      ]

-- When the key of a request that begins a transaction is in the table, whatever its state, the handler
-- is not asked and the table stays as it was.
pub answer_request-replayed :
    (env : Env) (cfg : Config) (access : Access) (handle : Handler) (inp : Inputs) (req : Request)
    (sender : SenderIdentity) (st : State) (cred : Bytes)
    → credential_id env sender ≡ some cred
    → is_initial_request req.content ≡ true
    → is_empty req.header.transaction_id ≡ false
    → is_some (lookup (make_key env.sha256 cred req.header.transaction_id) st.tracker.transactions)
      ≡ true
    → let st' = (answer_request env cfg access handle inp req sender st).1 in
      (st'.log ≡ st.log) × (st'.tracker.transactions ≡ st.tracker.transactions)
unfolding answer_request lacks_transaction_id
answer_request-replayed env cfg access handle inp req sender st cred holder initial named taken =
    let same = keeps_transaction_id env cfg access req inp.assigned_id named in
    let (refused, table) =
      register-refuses env cfg access req sender inp st cred holder initial taken in
    elim (ok_or_err (check_header env cfg access req inp.checked)) [
      | inr (e', bad) ↦ ground arith
      | inl (_, good) ↦
          elim (ok_or_err (register env cfg access req sender inp.started st.tracker).0) [
            | inl (_, done) ↦ ground (arith, refused done)
            | inr (e, failed) ↦ ground arith
          ]
    ]
