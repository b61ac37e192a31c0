-- ===== src/Server/State.antt =====
-- The state of a server, what one request reads from the clock and the random source, and the
-- outcome of a request.
use go_pkicmp_ng.Prelude.{some, Bytes}
use go_pkicmp_ng.Pkicmp.Types.{Time}
use go_pkicmp_ng.Pkicmp.Status.{PkiStatusInfo}
use go_pkicmp_ng.Pkicmp.Message.{Request}
use go_pkicmp_ng.Server.Entry.{TransactionTracker}
use go_pkicmp_ng.Server.Config.{Env, Config, SenderIdentity, Log}
use go_pkicmp_ng.Server.Response.{Reading, Reply, build_error_response}

pub record State : Type 0 where
  pub tracker : TransactionTracker
  pub log : Log

-- Each reading of the clock and of the random source that a request makes on some branch.
pub record Inputs : Type 0 where
  -- `newTransactionID`
  pub assigned_id : Bytes
  -- `validateHeader`, `startIfAbsent`
  pub checked : Time
  pub started : Time
  -- the rate limit of polls, and the poll recorded
  pub polled : Time
  pub poll_recorded : Time
  -- `setPending`, `setIssued`, `setCompleted`
  pub stored : Time
  -- the reply, and the error that may replace it
  pub reply : Reading
  pub error_reply : Reading

-- A reply, or the panic of a nil dereference.
pub data Outcome : Type 0 where
  answered : Reply → Outcome
  panicked : Outcome

-- An error message that changes nothing.
abbrev pub refused :
    Env → Config → Inputs → Request → SenderIdentity → PkiStatusInfo → State → Outcome × State
refused env cfg inp req sender si st =
    (answered (build_error_response env cfg inp.reply req.header (some sender) si), st)
