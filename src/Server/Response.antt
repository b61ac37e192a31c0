-- ===== src/Server/Response.antt =====
-- server/response.go and protection.go: how a reply is built and protected.
pub mod Guarantees
use go_pkicmp_ng.Prelude.{
  ℕ, Bool, true, false, not, ◌&&◌, ◌||◌, Option, none, some, List, [], ◌∷◌, ◌++◌, map, Bytes,
  bytes_eq, length, is_empty, text, if◌then◌else◌,
}
use go_pkicmp_ng.Prelude.Int.{ℤ, pos, ltb_ℤ, eqb_ℤ}
use go_pkicmp_ng.Pkicmp.Types.{Time, Duration, Opaque, Certificate}
use go_pkicmp_ng.Pkicmp.Status.{
  PkiStatusInfo, status_accepted, status_rejection, fail_system_failure, FailInfo,
}
use go_pkicmp_ng.Pkicmp.Algorithms.{oid_implicit_confirm, oid_eq}
use go_pkicmp_ng.Pkicmp.Message.{GeneralName, InfoTypeAndValue, PkiHeader, Request}
use go_pkicmp_ng.Server.Entry.{RequestType}
use go_pkicmp_ng.Server.Config.{Env, Config, SenderIdentity, Name}

pub record CertRep : Type 0 where
  pub cert_req_id : ℤ
  pub status : PkiStatusInfo
  pub certificate : Option Bytes
  pub ca_pubs : List Bytes

pub data ReplyBody : Type 0 where
  ip kup cp : CertRep → ReplyBody
  error_body : PkiStatusInfo → ReplyBody
  pki_conf : ReplyBody
  poll_rep : ℤ → ℤ → List Bytes → ReplyBody
  rp : PkiStatusInfo → ReplyBody

-- What protects a reply.
pub data Protection : Type 0 where
  unprotected : Protection
  mac : Bytes → Option Opaque → Protection
  signature : Protection

-- The sender of a reply: the configured name, the subject of the signer as encoded, or no name.
pub data ReplySender : Type 0 where
  configured : Name → ReplySender
  subject_of_signer : Bytes → ReplySender
  no_name : ReplySender

-- The generalInfo of a reply; the deadline is the instant of the reply plus the wait.
pub data ReplyInfo : Type 0 where
  implicit_confirm_info : ReplyInfo
  confirm_wait_info : Duration → ReplyInfo

pub record Reply : Type 0 where
  pub pvno : ℤ
  pub sender : ReplySender
  pub recipient : GeneralName
  pub message_time : Time
  pub sender_kid : Bytes
  pub transaction_id : Bytes
  pub sender_nonce : Bytes
  pub recip_nonce : Bytes
  pub general_info : List ReplyInfo
  pub extra_certs : List Bytes
  pub body : ReplyBody
  pub protection : Protection

-- The clock and the random bytes that one reply reads.
pub record Reading : Type 0 where
  pub now : Time
  pub nonce : Bytes

abbrev pub status_only : FailInfo → PkiStatusInfo
status_only f = record { status = status_rejection; status_string = []; fail_info = f }

abbrev pub status_text : FailInfo → Bytes → PkiStatusInfo
status_text f t = record { status = status_rejection; status_string = t ∷ []; fail_info = f }

abbrev pub protection_unavailable : Bytes
protection_unavailable = text "response protection unavailable"

module _ (env : Env) (cfg : Config) where
  abbrev has_name : Bool
  has_name = not (is_empty cfg.sender.common_name) || not (is_empty cfg.sender.organization)

  abbrev signer_subject : Option Certificate → ReplySender
  signer_subject none = no_name
  signer_subject (some c) = subject_of_signer c.raw_subject

  unfoldable pub reply_sender : ReplySender
  reply_sender = if has_name then configured cfg.sender else signer_subject cfg.signer_cert

  abbrev mac_kid : Option SenderIdentity → Bytes
  mac_kid none = []
  mac_kid (some s) = if s.mac_verified then s.sender_kid else []

  abbrev kid_of : Option Certificate → Option SenderIdentity → Bytes
  kid_of (some c) s = c.subject_key_id
  kid_of none s = mac_kid s

  -- Signature protection, or none without a signer; `none` is an error.
  abbrev sign_reply : Option Protection
  sign_reply =
      if cfg.signer_err
      then none
      else if cfg.has_signer_creds
      then (if env.signer_protects then some signature else none)
      else some unprotected

  -- `protectResponseWithOptions`
  unfoldable pub protect_response : Option SenderIdentity → Option Opaque → Option Protection
  protect_response none params = sign_reply
  protect_response (some s) params =
      if s.mac_verified && not (is_empty s.secret)
      then (if env.mac_protects s.secret params then some (mac s.secret params) else none)
      else sign_reply

  abbrev pub params_or_sender : Option Opaque → Option SenderIdentity → Option Opaque
  params_or_sender (some p) s = some p
  params_or_sender none none = none
  params_or_sender none (some s) = s.protection_params

  -- An error without protection when the protection fails.
  abbrev protected_or_error : Reply → Option Protection → Reply
  protected_or_error r (some p) = record r { protection = p }
  protected_or_error r none = record r {
    body = error_body (status_text fail_system_failure protection_unavailable);
    protection = unprotected;
  }

  -- `buildResponseInternal`
  unfoldable pub build_response_internal :
      Reading
      → PkiHeader
      → ReplyBody
      → Option SenderIdentity
      → List ReplyInfo
      → Option Opaque
      → Reply
  unfolding reply_sender protect_response
  build_response_internal rd req body sender general_info params =
      protected_or_error
        (record {
          pvno = req.pvno;
          sender = reply_sender;
          recipient = req.sender;
          message_time = rd.now;
          sender_kid = kid_of cfg.signer_cert sender;
          transaction_id = req.transaction_id;
          sender_nonce = rd.nonce;
          recip_nonce = req.sender_nonce;
          general_info = general_info;
          extra_certs = map (λ c. c.raw) cfg.extra_certs;
          body = body;
          protection = unprotected;
        })
        (protect_response sender (params_or_sender params sender))

  unfoldable pub build_response : Reading → PkiHeader → ReplyBody → Option SenderIdentity → Reply
  unfolding build_response_internal
  build_response rd req body sender = build_response_internal rd req body sender [] none

  unfoldable pub build_response_with_echo_protection :
      Reading → PkiHeader → ReplyBody → Option SenderIdentity → Option Opaque → Reply
  unfolding build_response_internal
  build_response_with_echo_protection rd req body sender params =
      build_response_internal rd req body sender [] params

  unfoldable pub build_error_response :
      Reading → PkiHeader → Option SenderIdentity → PkiStatusInfo → Reply
  unfolding build_response
  build_error_response rd req sender si = build_response rd req (error_body si) sender

  unfoldable pub build_rev_rep_response :
      Reading → PkiHeader → PkiStatusInfo → Option SenderIdentity → Reply
  unfolding build_response
  build_rev_rep_response rd req si sender = build_response rd req (rp si) sender

  -- `requestHasImplicitConfirm`
  unfoldable pub request_has_implicit_confirm : List InfoTypeAndValue → Bool
  request_has_implicit_confirm [] = false
  request_has_implicit_confirm (i ∷ is) =
      oid_eq i.info_type oid_implicit_confirm || request_has_implicit_confirm is

  abbrev body_for : RequestType → CertRep → ReplyBody
  body_for t rep = if eqb_ℤ t (pos 0) then ip rep else if eqb_ℤ t (pos 7) then kup rep else cp rep

  abbrev delivered : Option Certificate → PkiStatusInfo → Option Bytes
  delivered none si = none
  delivered (some c) si = if eqb_ℤ si.status status_accepted then some c.raw else none

  abbrev confirmation_info : PkiHeader → PkiStatusInfo → List ReplyInfo
  confirmation_info req si =
      if cfg.implicit_confirm && request_has_implicit_confirm req.general_info
      then implicit_confirm_info ∷ []
      else if ltb_ℤ (pos 0) cfg.confirm_wait && eqb_ℤ si.status status_accepted
      then confirm_wait_info cfg.confirm_wait ∷ []
      else []

  -- `buildCertRepResponseForType`
  unfoldable pub build_cert_rep_response :
      Reading
      → PkiHeader
      → ℤ
      → PkiStatusInfo
      → Option Certificate
      → List Certificate
      → Option SenderIdentity
      → RequestType
      → Option Opaque
      → Reply
  unfolding build_response_internal request_has_implicit_confirm
  build_cert_rep_response rd req cert_req_id si cert ca_certs sender t params =
      build_response_internal rd req
        (body_for t (record {
          cert_req_id = cert_req_id;
          status = si;
          certificate = delivered cert si;
          ca_pubs = map (λ c. c.raw) ca_certs;
        }))
        sender (confirmation_info req si) params
