-- ===== src/Pkicmp/Sign.antt =====
-- pkicmp/protect.go and algorithms.go: the protection of a message with a signature.
pub mod ExtraCerts
use go_pkicmp_ng.Prelude.{
  ℕ, Bool, true, false, not, Option, none, some, List, [], ◌∷◌, ◌++◌, Bytes, bytes_eq, leb, ◌==◌,
  is_empty, is_some, map, if◌then◌else◌,
}
use go_pkicmp_ng.Prelude.Result.{Result, ok, err, ◌>>=◌, ◌>>◌}
use go_pkicmp_ng.Pkicmp.Types.{Oid, Opaque, Certificate, AlgorithmIdentifier}
use go_pkicmp_ng.Pkicmp.Errors.{
  Failure, parse_failure, protection_failure, other_failure, unsupported_algorithm,
}
use go_pkicmp_ng.Pkicmp.Algorithms.{
  Hash, sha256, sha384, sha512, oid_sha256_with_rsa, oid_sha384_with_rsa, oid_sha512_with_rsa,
  oid_ecdsa_with_sha256, oid_ecdsa_with_sha384, oid_ecdsa_with_sha512, oid_ed25519, oid_mldsa44,
  oid_mldsa65, oid_mldsa87,
}
use go_pkicmp_ng.Pkicmp.Message.{PkiHeader}
use go_pkicmp_ng.Pkicmp.Protect.{
  PkiMessage, MacLibrary, refuse, or_fail, marshal_for_protection, protected_part,
}

-- The kinds of public key that `signatureAlgorithmFromKey` tells apart, by what it asks of each: the
-- length of an RSA modulus, the size of a curve, the ML-DSA parameters, a composite's identifier.
pub data PublicKey : Type 0 where
  rsa ecdsa : ℕ → PublicKey
  ed25519 : PublicKey
  mldsa : ℕ → PublicKey
  composite_mldsa : Oid → PublicKey
  other_key : PublicKey

unfoldable pub signature_algorithm_from_key : PublicKey → Option (Oid × Hash)
signature_algorithm_from_key (rsa bits) =
    if leb 4096 bits
    then some (oid_sha512_with_rsa, sha512)
    else if leb 3072 bits
    then some (oid_sha384_with_rsa, sha384)
    else some (oid_sha256_with_rsa, sha256)
signature_algorithm_from_key (ecdsa bits) =
    if bits == 256
    then some (oid_ecdsa_with_sha256, sha256)
    else if bits == 384
    then some (oid_ecdsa_with_sha384, sha384)
    else if bits == 521
    then some (oid_ecdsa_with_sha512, sha512)
    else none
signature_algorithm_from_key ed25519 = some (oid_ed25519, 0)
signature_algorithm_from_key (mldsa parameters) =
    if parameters == 44
    then some (oid_mldsa44, 0)
    else if parameters == 65
    then some (oid_mldsa65, 0)
    else if parameters == 87
    then some (oid_mldsa87, 0)
    else none
signature_algorithm_from_key (composite_mldsa oid) = some (oid, 0)
signature_algorithm_from_key other_key = none

-- Whether a certificate was seen.
unfoldable pub seen : Bytes → List Bytes → Bool
seen raw [] = false
seen raw (r ∷ rs) = if bytes_eq r raw then true else seen raw rs

-- The loop of `dedupeCertificates`, with the certificates already put out.
unfoldable pub dedupe_from : List Bytes → List Bytes → List Bytes
unfolding seen
dedupe_from earlier [] = []
dedupe_from earlier (c ∷ cs) =
    if seen c earlier then dedupe_from earlier cs else c ∷ dedupe_from (c ∷ earlier) cs

unfoldable pub dedupe_certificates : List Bytes → List Bytes
unfolding dedupe_from
dedupe_certificates cs = dedupe_from [] cs

-- `crypto.Signer`: its public key, and the signature of a digest under a hash, 0 for the message itself.
pub record Signer : Type 0 where
  pub public : PublicKey
  pub sign : Bytes → Hash → Option Bytes

module _ (lib : MacLibrary) where
  abbrev pub digest_for : Hash → Bytes → Bytes
  digest_for h part = if h == 0 then part else lib.hashes.digest h part

  -- The message with its algorithm, key identifier and certificates, before it is signed.
  unfoldable pub with_signer : PkiMessage → Oid → Certificate → List Certificate → PkiMessage
  unfolding dedupe_certificates
  with_signer m oid cert chain = record m {
    header = record (m.header) {
      protection_alg = some (record { algorithm = oid; parameters = [] });
      sender_kid =
          if is_empty cert.subject_key_id then m.header.sender_kid else cert.subject_key_id;
    };
    extra_certs =
        dedupe_certificates (cert.raw ∷ (map (λ (c : Certificate). c.raw) chain ++ m.extra_certs));
  }

  -- `protectWithSignature`
  unfoldable pub protect_with_signature :
      Signer → Certificate → List Certificate → PkiMessage → Result Failure PkiMessage
  unfolding signature_algorithm_from_key with_signer marshal_for_protection protected_part
  protect_with_signature key cert chain m =
      refuse (not (is_some m.body)) parse_failure
      >> (or_fail (protection_failure unsupported_algorithm)
            (signature_algorithm_from_key key.public)
          >>= λ alg. marshal_for_protection lib (with_signer m alg.0 cert chain) >>= λ m'.
              protected_part lib m' >>= λ part.
              or_fail other_failure (key.sign (digest_for alg.1 part) alg.1) >>= λ signature.
              ok (record m' { protection = signature }))
