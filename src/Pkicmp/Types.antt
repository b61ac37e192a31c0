-- ===== src/Pkicmp/Types.antt =====
-- The data that the server and the client pass around: certificates of crypto/x509 by the fields
-- that the code reads, algorithm identifiers, instants and spans of time.
use go_pkicmp_ng.Prelude.{ℕ, Bool, List, Option, Bytes}
use go_pkicmp_ng.Prelude.Int.{ℤ}

-- `time.Time` in nanoseconds since the zero time, at which `IsZero` holds.
abbrev pub Time : Type 0
Time = ℕ

-- `time.Duration` in nanoseconds.
abbrev pub Duration : Type 0
Duration = ℤ

-- A value that the code stores and hands back without looking into it (`any`, option functions),
-- by a number that tells it from others.
abbrev pub Opaque : Type 0
Opaque = ℕ

-- `asn1.ObjectIdentifier`
abbrev pub Oid : Type 0
Oid = List ℕ

-- `pkix.RDNSequence`; an attribute value, of any Go type, by a number that tells it from others.
abbrev pub RdnSequence : Type 0
RdnSequence = List (List (Oid × Opaque))

-- `x509.SignatureAlgorithm`
pub data SigAlg : Type 0 where
  unknown_signature md2_with_rsa md5_with_rsa sha1_with_rsa sha256_with_rsa sha384_with_rsa : SigAlg
  sha512_with_rsa dsa_with_sha1 dsa_with_sha256 ecdsa_with_sha1 ecdsa_with_sha256 : SigAlg
  ecdsa_with_sha384 ecdsa_with_sha512 sha256_with_rsapss sha384_with_rsapss : SigAlg
  sha512_with_rsapss pure_ed25519 mldsa44 mldsa65 mldsa87 : SigAlg

-- `pkix.Extension`
pub record Extension : Type 0 where
  pub id : Oid
  pub value : Bytes

-- `x509.Certificate`, by the fields that the code reads.
pub record Certificate : Type 0 where
  pub raw : Bytes
  pub raw_subject : Bytes
  pub raw_issuer : Bytes
  pub serial_number : Option ℤ
  pub subject_key_id : Bytes
  pub raw_subject_public_key_info : Bytes
  pub signature_algorithm : SigAlg
  -- nil for a key that crypto/x509 does not know
  pub public_key : Option Opaque
  pub not_before : Time
  pub not_after : Time
  pub key_usage : ℕ
  pub extensions : List Extension
  pub unhandled_critical_extensions : List Oid
  pub basic_constraints_valid : Bool
  pub max_path_len : ℤ
  pub max_path_len_zero : Bool

-- `pkicmp.AlgorithmIdentifier`
pub record AlgorithmIdentifier : Type 0 where
  pub algorithm : Oid
  pub parameters : Bytes
