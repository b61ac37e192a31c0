-- ===== src/Pkicmp/Algorithms/Confirmation.antt =====
-- The hash by which a certConf names its certificate: how the client computes it and how the server
-- recomputes it (algorithms.go, enrollment.go).
use go_pkicmp_ng.Prelude.{
  ◌≡◌, ◌⊎◌, not, ◌&&◌, ◌||◌, Option, none, some, [], ◌∷◌, Bytes, bytes_eq, ltb, is_empty,
  if◌then◌else◌,
}
use go_pkicmp_ng.Prelude.Int.{ℤ}
use go_pkicmp_ng.Pkicmp.Types.{SigAlg, mldsa44, mldsa65, mldsa87, Certificate, AlgorithmIdentifier}
use go_pkicmp_ng.Pkicmp.Status.{PkiStatusInfo}
use go_pkicmp_ng.Pkicmp.Algorithms.{
  Hash, Hashes, sha256, sha384, sha512, oid_sha512, hash_from_oid, hash_from_sig_alg, hash_oid,
  cert_hash,
}

-- `CertStatus`
pub record CertStatus : Type 0 where
  pub cert_hash : Bytes
  pub cert_req_id : ℤ
  pub status_info : Option PkiStatusInfo
  pub hash_alg : Option AlgorithmIdentifier

abbrev explicit : Bytes → ℤ → Option AlgorithmIdentifier → CertStatus
explicit h id alg = record { cert_hash = h; cert_req_id = id; status_info = none; hash_alg = alg }

abbrev named_pre_hash : Option Hash → Option AlgorithmIdentifier
named_pre_hash none = none
named_pre_hash (some h) = some (record { algorithm = hash_oid h; parameters = [] })

abbrev with_hash : ℤ → Option AlgorithmIdentifier → Option Bytes → Option CertStatus
with_hash id alg none = none
with_hash id alg (some h) = some (explicit h id alg)

module _ (hs : Hashes) where
  -- `NewCertStatus`, by the signature algorithm of the certificate.
  by_sig_alg : SigAlg → Certificate → ℤ → Option CertStatus
  unfolding cert_hash
  by_sig_alg mldsa44 cert id = some (
      explicit (hs.digest sha512 cert.raw) id
        (some (record { algorithm = oid_sha512; parameters = [] })))
  by_sig_alg mldsa65 cert id = some (
      explicit (hs.digest sha512 cert.raw) id
        (some (record { algorithm = oid_sha512; parameters = [] })))
  by_sig_alg mldsa87 cert id = some (
      explicit (hs.digest sha512 cert.raw) id
        (some (record { algorithm = oid_sha512; parameters = [] })))
  by_sig_alg _ cert id =
      with_hash id (named_pre_hash (hs.composite_pre_hash cert.raw)) (cert_hash hs cert)

  unfoldable pub new_cert_status : Certificate → ℤ → Option CertStatus
  unfolding by_sig_alg
  new_cert_status cert id = by_sig_alg cert.signature_algorithm cert id

  -- The explicit branch of `CertificateHash`.
  explicit_hash : AlgorithmIdentifier → Certificate → Option Bytes
  unfolding hash_from_oid
  explicit_hash alg cert = elim (hash_from_oid alg.algorithm) [
    | none ↦ none
    | some h ↦
        if ltb h sha256 || not (hs.available h)
        then none
        else if not (is_empty alg.parameters) && not (bytes_eq alg.parameters (5 ∷ 0 ∷ []))
        then none
        else some (hs.digest h cert.raw)
  ]

  unfoldable pub certificate_hash : CertStatus → Certificate → Option Bytes
  unfolding explicit_hash cert_hash
  certificate_hash s cert = elim s.hash_alg [
    | none ↦ cert_hash hs cert
    | some alg ↦ explicit_hash alg cert
  ]

  -- What the composite library documents: a pre-hash is one of three SHA-2 hashes, and crypto/x509
  -- does not know the signature algorithm of such a certificate.
  pub record CompositePreHashes : Type 0 where
    pub sha2 :
        (raw : Bytes) (h : Hash)
        → hs.composite_pre_hash raw ≡ some h
        → (h ≡ sha256) ⊎ ((h ≡ sha384) ⊎ (h ≡ sha512))
    pub unknown :
        (cert : Certificate) (h : Hash)
        → hs.composite_pre_hash cert.raw ≡ some h
        → hash_from_sig_alg cert.signature_algorithm ≡ 0

  abbrev mldsa_status : Certificate → ℤ → CertStatus
  mldsa_status cert id =
      explicit (hs.digest sha512 cert.raw) id
        (some (record { algorithm = oid_sha512; parameters = [] }))
