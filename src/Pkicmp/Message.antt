-- ===== src/Pkicmp/Message.antt =====
-- The parsed PKIMessage (pkimessage.go, pkibody.go, crmf.go, revocation.go): the header, and the body
-- by the result of its accessor, `none` where the accessor refuses the content.
use go_pkicmp_ng.Prelude.{ℕ, Bool, List, Option, Bytes}
use go_pkicmp_ng.Prelude.Int.{ℤ}
use go_pkicmp_ng.Pkicmp.Types.{Time, Oid, RdnSequence, AlgorithmIdentifier, Extension}
use go_pkicmp_ng.Pkicmp.Algorithms.Confirmation.{CertStatus}

-- `GeneralName`: the relative names of a directory name, and the encoding.
pub record GeneralName : Type 0 where
  pub directory_name : RdnSequence
  pub raw : Bytes

pub record InfoTypeAndValue : Type 0 where
  pub info_type : Oid
  pub info_value : Bytes

pub record PkiHeader : Type 0 where
  pub pvno : ℤ
  pub sender : GeneralName
  pub recipient : GeneralName
  pub message_time : Time
  pub message_time_present : Bool
  pub protection_alg : Option AlgorithmIdentifier
  pub sender_kid : Bytes
  pub transaction_id : Bytes
  pub sender_nonce : Bytes
  pub recip_nonce : Bytes
  pub general_info : List InfoTypeAndValue

pub record PopoSignature : Type 0 where
  pub algorithm : AlgorithmIdentifier
  pub signature : Bytes

-- `ProofOfPossession`
pub record Popo : Type 0 where
  pub ra_verified : Bool
  pub signature : Option PopoSignature

-- `CertTemplate`, by the fields that the server reads.
pub record CertTemplate : Type 0 where
  pub serial_number : Option ℤ
  pub issuer : Bytes
  pub subject : RdnSequence
  pub public_key : Bytes
  pub extensions : Bytes

pub record CertReqMsg : Type 0 where
  pub cert_req_id : ℤ
  pub cert_template : CertTemplate
  pub cert_req_raw : Bytes
  pub popo : Option Popo

-- `x509.CertificateRequest`, by the fields that the code reads.
pub record Csr : Type 0 where
  pub raw : Bytes
  pub subject : RdnSequence
  pub raw_subject_public_key_info : Bytes
  pub extensions : List Extension

pub record RevDetails : Type 0 where
  pub cert_details : CertTemplate
  -- `CRLEntryExtensions`, `none` where it fails
  pub crl_entry_extensions : Option (List Extension)

-- The bodies that a server answers. `nested_again` is a nested message inside a nested one, whose
-- content the server does not read.
pub data Content : Type 0 where
  ir cr kur : Option (List CertReqMsg) → Content
  p10cr : Option Csr → Content
  cert_conf : Option (List CertStatus) → Content
  poll_req : Option (List ℤ) → Content
  rr : Option (List RevDetails) → Content
  error_message : Content
  nested_again : Content
  other_body : ℕ → Content

pub record Request : Type 0 where
  pub header : PkiHeader
  pub content : Content
  pub protection : Bytes
  pub extra_certs : List Bytes

-- A message as it arrives: a request, or a nested message with the requests that it wraps.
pub data Incoming : Type 0 where
  plain : Request → Incoming
  nested : Request → Option (List Request) → Incoming
