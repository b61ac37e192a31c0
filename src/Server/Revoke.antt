-- ===== src/Server/Revoke.antt =====
-- `handleRevocation` of server/revocation.go.
use go_pkicmp_ng.Prelude.{Bool, false, Option, none, some, is_some, if◌then◌else◌}
use go_pkicmp_ng.Prelude.Result.{ok, err}
use go_pkicmp_ng.Pkicmp.Status.{
  PkiStatusInfo, has_fail, fail_bad_message_check, fail_system_failure,
}
use go_pkicmp_ng.Pkicmp.Message.{Request}
use go_pkicmp_ng.Server.Tracker.{set_completed}
use go_pkicmp_ng.Server.Config.{
  Env, Config, SenderIdentity, Handler, Handled, HandlerContext, Response, credential_id,
  error_to_status_info,
}
use go_pkicmp_ng.Server.Response.{Reply, status_only, build_error_response, build_rev_rep_response}
use go_pkicmp_ng.Server.CertRequest.{accepted}
use go_pkicmp_ng.Server.State.{State, Inputs, Outcome, answered, refused}

abbrev is_waiting : Option Response → Bool
is_waiting none = false
is_waiting (some r) = is_some r.waiting

module _ (env : Env) (cfg : Config) where
  abbrev rejected_revocation : Inputs → Request → SenderIdentity → PkiStatusInfo → Reply
  rejected_revocation inp req sender si =
      if has_fail si.fail_info fail_bad_message_check
      then build_error_response env cfg inp.reply req.header (some sender) si
      else build_rev_rep_response env cfg inp.reply req.header si (some sender)

  abbrev revocation_reply : Inputs → Request → SenderIdentity → Handled → Reply
  revocation_reply inp req sender (err e) =
      rejected_revocation inp req sender (error_to_status_info e)
  revocation_reply inp req sender (ok resp) =
      build_rev_rep_response env cfg inp.reply req.header
        (if is_waiting resp then status_only fail_system_failure else accepted) (some sender)

  -- `handleRevocation`; the transaction is completed after every answer of the handler.
  unfoldable pub handle_revocation :
      Handler → Inputs → HandlerContext → Request → SenderIdentity → State → Outcome × State
  handle_revocation handle inp ctx req sender st = elim (credential_id env sender) [
    | none ↦ refused env cfg inp req sender (status_only fail_bad_message_check) st
    | some cred ↦
        let (handled, log) = handle ctx req sender st.log in
        (
          answered (revocation_reply inp req sender handled),
          record {
            tracker = set_completed env.sha256 cred req.header.transaction_id inp.stored st.tracker;
            log = log;
          },
        )
  ]
