-- ===== src/Pkicmp/Status.antt =====
-- pkicmp/status.go: PKIStatus, PKIFailureInfo and PKIStatusInfo, and the conversion to an error.
use Prim.Native.Nat.{bit_and}
use go_pkicmp_ng.Prelude.{
  ℕ, ◌^◌, Bool, not, Option, none, some, List, Bytes, ◌==◌, if◌then◌else◌, ◌||◌,
}
use go_pkicmp_ng.Prelude.Int.{ℤ, pos, eqb_ℤ}

-- `PKIStatus` is an int.
abbrev pub PkiStatus : Type 0
PkiStatus = ℤ

abbrev pub status_accepted : PkiStatus
status_accepted = pos 0

abbrev pub status_granted_with_mods : PkiStatus
status_granted_with_mods = pos 1

abbrev pub status_rejection : PkiStatus
status_rejection = pos 2

abbrev pub status_waiting : PkiStatus
status_waiting = pos 3

-- `PKIFailureInfo` is a uint32 with a bit for each reason.
abbrev pub FailInfo : Type 0
FailInfo = ℕ

abbrev pub fail_bad_alg : FailInfo
fail_bad_alg = 2 ^ 31

abbrev pub fail_bad_message_check : FailInfo
fail_bad_message_check = 2 ^ 30

abbrev pub fail_bad_request : FailInfo
fail_bad_request = 2 ^ 29

abbrev pub fail_bad_time : FailInfo
fail_bad_time = 2 ^ 28

abbrev pub fail_bad_cert_id : FailInfo
fail_bad_cert_id = 2 ^ 27

abbrev pub fail_bad_data_format : FailInfo
fail_bad_data_format = 2 ^ 26

abbrev pub fail_bad_pop : FailInfo
fail_bad_pop = 2 ^ 22

abbrev pub fail_wrong_integrity : FailInfo
fail_wrong_integrity = 2 ^ 19

abbrev pub fail_bad_recipient_nonce : FailInfo
fail_bad_recipient_nonce = 2 ^ 18

abbrev pub fail_add_info_not_available : FailInfo
fail_add_info_not_available = 2 ^ 14

abbrev pub fail_bad_sender_nonce : FailInfo
fail_bad_sender_nonce = 2 ^ 13

abbrev pub fail_bad_cert_template : FailInfo
fail_bad_cert_template = 2 ^ 12

abbrev pub fail_signer_not_trusted : FailInfo
fail_signer_not_trusted = 2 ^ 11

abbrev pub fail_transaction_id_in_use : FailInfo
fail_transaction_id_in_use = 2 ^ 10

abbrev pub fail_unsupported_version : FailInfo
fail_unsupported_version = 2 ^ 9

abbrev pub fail_not_authorized : FailInfo
fail_not_authorized = 2 ^ 8

abbrev pub fail_system_unavail : FailInfo
fail_system_unavail = 2 ^ 7

abbrev pub fail_system_failure : FailInfo
fail_system_failure = 2 ^ 6

-- `f & bit != 0`
unfoldable pub has_fail : FailInfo → FailInfo → Bool
has_fail f bit = not (bit_and f bit == 0)

pub record PkiStatusInfo : Type 0 where
  pub status : PkiStatus
  pub status_string : List Bytes
  pub fail_info : FailInfo

-- The errors of `AsError`: `ErrWaiting`, and `*PKIStatusError` with the texts to be joined.
pub data StatusError : Type 0 where
  waiting : StatusError
  status_error : PkiStatusInfo → StatusError

unfoldable pub as_error : PkiStatusInfo → Option StatusError
as_error si =
    if eqb_ℤ si.status status_accepted || eqb_ℤ si.status status_granted_with_mods
    then none
    else if eqb_ℤ si.status status_waiting
    then some waiting
    else some (status_error si)
