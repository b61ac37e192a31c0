-- ===== src/Pkicmp/Algorithms.antt =====
-- pkicmp/algorithms.go: which algorithm an identifier names, and the certificate hash of a
-- confirmation. The hash functions and the composite algorithms are those of other packages.
pub mod Confirmation
use go_pkicmp_ng.Prelude.{
  ℕ, Bool, true, false, not, ◌&&◌, ◌||◌, Option, none, some, List, [], ◌∷◌, Bytes, bytes_eq, ltb,
  ◌==◌, is_empty, if◌then◌else◌,
}
use go_pkicmp_ng.Prelude.Int.{ℤ}
use go_pkicmp_ng.Prelude.Result.{Result, ok, err}
use go_pkicmp_ng.Pkicmp.Types.{
  Oid, SigAlg, unknown_signature, md2_with_rsa, md5_with_rsa, sha1_with_rsa, sha256_with_rsa,
  sha384_with_rsa, sha512_with_rsa, dsa_with_sha1, dsa_with_sha256, ecdsa_with_sha1,
  ecdsa_with_sha256, ecdsa_with_sha384, ecdsa_with_sha512, sha256_with_rsapss, sha384_with_rsapss,
  sha512_with_rsapss, pure_ed25519, mldsa44, mldsa65, mldsa87, Certificate, AlgorithmIdentifier,
}
use go_pkicmp_ng.Pkicmp.Status.{PkiStatusInfo}

-- `crypto.Hash`: the numbers of Go's constants, 0 for none.
abbrev pub Hash : Type 0
Hash = ℕ

abbrev pub sha1 : Hash
sha1 = 3

abbrev pub sha224 : Hash
sha224 = 4

abbrev pub sha256 : Hash
sha256 = 5

abbrev pub sha384 : Hash
sha384 = 6

abbrev pub sha512 : Hash
sha512 = 7

-- crypto's hash functions and compositex509, which gives the pre-hash of a composite signature.
pub record Hashes : Type 0 where
  pub available : Hash → Bool
  pub digest : Hash → Bytes → Bytes
  pub composite_pre_hash : Bytes → Option Hash

-- `oid.Equal`
abbrev pub oid_eq : Oid → Oid → Bool
oid_eq = bytes_eq

abbrev pub oid_sha1 : Oid
oid_sha1 = 1 ∷ 3 ∷ 14 ∷ 3 ∷ 2 ∷ 26 ∷ []

abbrev nist : ℕ → ℕ → Oid
nist group n = 2 ∷ 16 ∷ 840 ∷ 1 ∷ 101 ∷ 3 ∷ 4 ∷ group ∷ n ∷ []

abbrev pub oid_sha224 : Oid
oid_sha224 = nist 2 4

abbrev pub oid_sha256 : Oid
oid_sha256 = nist 2 1

abbrev pub oid_sha384 : Oid
oid_sha384 = nist 2 2

abbrev pub oid_sha512 : Oid
oid_sha512 = nist 2 3

abbrev pkcs1 : ℕ → Oid
pkcs1 n = 1 ∷ 2 ∷ 840 ∷ 113549 ∷ 1 ∷ 1 ∷ n ∷ []

abbrev hmac_sha2 : ℕ → Oid
hmac_sha2 n = 1 ∷ 2 ∷ 840 ∷ 113549 ∷ 2 ∷ n ∷ []

abbrev pub oid_hmac_with_sha1 : Oid
oid_hmac_with_sha1 = hmac_sha2 7

abbrev pub oid_hmac_with_sha224 : Oid
oid_hmac_with_sha224 = hmac_sha2 8

abbrev pub oid_hmac_with_sha256 : Oid
oid_hmac_with_sha256 = hmac_sha2 9

abbrev pub oid_hmac_with_sha384 : Oid
oid_hmac_with_sha384 = hmac_sha2 10

abbrev pub oid_hmac_with_sha512 : Oid
oid_hmac_with_sha512 = hmac_sha2 11

abbrev pub oid_pbm_mac_hmac_sha1 : Oid
oid_pbm_mac_hmac_sha1 = 1 ∷ 3 ∷ 6 ∷ 1 ∷ 5 ∷ 5 ∷ 8 ∷ 1 ∷ 2 ∷ []

abbrev ecdsa_sha2 : ℕ → Oid
ecdsa_sha2 n = 1 ∷ 2 ∷ 840 ∷ 10045 ∷ 4 ∷ 3 ∷ n ∷ []

abbrev pub oid_sha256_with_rsa : Oid
oid_sha256_with_rsa = pkcs1 11

abbrev pub oid_sha384_with_rsa : Oid
oid_sha384_with_rsa = pkcs1 12

abbrev pub oid_sha512_with_rsa : Oid
oid_sha512_with_rsa = pkcs1 13

abbrev pub oid_ecdsa_with_sha256 : Oid
oid_ecdsa_with_sha256 = ecdsa_sha2 2

abbrev pub oid_ecdsa_with_sha384 : Oid
oid_ecdsa_with_sha384 = ecdsa_sha2 3

abbrev pub oid_ecdsa_with_sha512 : Oid
oid_ecdsa_with_sha512 = ecdsa_sha2 4

abbrev pub oid_ed25519 : Oid
oid_ed25519 = 1 ∷ 3 ∷ 101 ∷ 112 ∷ []

abbrev pub oid_mldsa44 : Oid
oid_mldsa44 = nist 3 17

abbrev pub oid_mldsa65 : Oid
oid_mldsa65 = nist 3 18

abbrev pub oid_mldsa87 : Oid
oid_mldsa87 = nist 3 19

abbrev pub oid_password_based_mac : Oid
oid_password_based_mac = 1 ∷ 2 ∷ 840 ∷ 113533 ∷ 7 ∷ 66 ∷ 13 ∷ []

abbrev pub oid_pbmac1 : Oid
oid_pbmac1 = 1 ∷ 2 ∷ 840 ∷ 113549 ∷ 1 ∷ 5 ∷ 14 ∷ []

abbrev pub oid_implicit_confirm : Oid
oid_implicit_confirm = 1 ∷ 3 ∷ 6 ∷ 1 ∷ 5 ∷ 5 ∷ 7 ∷ 4 ∷ 13 ∷ []

abbrev pub oid_confirm_wait_time : Oid
oid_confirm_wait_time = 1 ∷ 3 ∷ 6 ∷ 1 ∷ 5 ∷ 5 ∷ 7 ∷ 4 ∷ 14 ∷ []

unfoldable pub hash_from_oid : Oid → Option Hash
hash_from_oid oid =
    if oid_eq oid oid_sha1
    then some sha1
    else if oid_eq oid oid_sha224
    then some sha224
    else if oid_eq oid oid_sha256
    then some sha256
    else if oid_eq oid oid_sha384
    then some sha384
    else if oid_eq oid oid_sha512
    then some sha512
    else none

unfoldable pub hmac_hash_from_oid : Oid → Option Hash
hmac_hash_from_oid oid =
    if oid_eq oid oid_hmac_with_sha1 || oid_eq oid oid_pbm_mac_hmac_sha1
    then some sha1
    else if oid_eq oid oid_hmac_with_sha224
    then some sha224
    else if oid_eq oid oid_hmac_with_sha256
    then some sha256
    else if oid_eq oid oid_hmac_with_sha384
    then some sha384
    else if oid_eq oid oid_hmac_with_sha512
    then some sha512
    else none

unfoldable pub sig_alg_from_oid : Oid → Option SigAlg
sig_alg_from_oid oid =
    if oid_eq oid oid_sha256_with_rsa
    then some sha256_with_rsa
    else if oid_eq oid oid_sha384_with_rsa
    then some sha384_with_rsa
    else if oid_eq oid oid_sha512_with_rsa
    then some sha512_with_rsa
    else if oid_eq oid oid_ecdsa_with_sha256
    then some ecdsa_with_sha256
    else if oid_eq oid oid_ecdsa_with_sha384
    then some ecdsa_with_sha384
    else if oid_eq oid oid_ecdsa_with_sha512
    then some ecdsa_with_sha512
    else if oid_eq oid oid_ed25519
    then some pure_ed25519
    else if oid_eq oid oid_mldsa44
    then some mldsa44
    else if oid_eq oid oid_mldsa65
    then some mldsa65
    else if oid_eq oid oid_mldsa87
    then some mldsa87
    else none

unfoldable pub sha1_sig_alg_from_oid : Oid → Option SigAlg
sha1_sig_alg_from_oid oid =
    if oid_eq oid (pkcs1 5)
    then some sha1_with_rsa
    else if oid_eq oid (1 ∷ 2 ∷ 840 ∷ 10045 ∷ 4 ∷ 1 ∷ [])
    then some ecdsa_with_sha1
    else none

pub data SigAlgError : Type 0 where
  mldsa_parameters sha1_not_enabled unsupported_signature : SigAlgError

unfoldable pub is_mldsa : Oid → Bool
is_mldsa oid = oid_eq oid oid_mldsa44 || oid_eq oid oid_mldsa65 || oid_eq oid oid_mldsa87

abbrev or_unsupported : Option SigAlg → Result SigAlgError SigAlg
or_unsupported none = err unsupported_signature
or_unsupported (some a) = ok a

unfoldable pub signature_algorithm : AlgorithmIdentifier → Bool → Result SigAlgError SigAlg
unfolding is_mldsa sha1_sig_alg_from_oid sig_alg_from_oid
signature_algorithm alg allow_sha1 =
    if is_mldsa alg.algorithm && not (is_empty alg.parameters)
    then err mldsa_parameters
    else elim (sha1_sig_alg_from_oid alg.algorithm) [
      | some a ↦ if allow_sha1 then ok a else err sha1_not_enabled
      | none ↦ or_unsupported (sig_alg_from_oid alg.algorithm)
    ]

unfoldable pub hash_from_sig_alg : SigAlg → Hash
hash_from_sig_alg sha1_with_rsa = sha1
hash_from_sig_alg dsa_with_sha1 = sha1
hash_from_sig_alg ecdsa_with_sha1 = sha1
hash_from_sig_alg sha256_with_rsa = sha256
hash_from_sig_alg ecdsa_with_sha256 = sha256
hash_from_sig_alg sha256_with_rsapss = sha256
hash_from_sig_alg sha384_with_rsa = sha384
hash_from_sig_alg ecdsa_with_sha384 = sha384
hash_from_sig_alg sha384_with_rsapss = sha384
hash_from_sig_alg sha512_with_rsa = sha512
hash_from_sig_alg ecdsa_with_sha512 = sha512
hash_from_sig_alg sha512_with_rsapss = sha512
hash_from_sig_alg pure_ed25519 = sha512
hash_from_sig_alg _ = 0

unfoldable pub hash_oid : Hash → Oid
hash_oid h = if h == sha256 then oid_sha256 else if h == sha384 then oid_sha384 else oid_sha512

module _ (hs : Hashes) where
  abbrev or_zero : Option Hash → Hash
  or_zero none = 0
  or_zero (some h) = h

  unfoldable pub cert_hash_func : Certificate → Hash
  unfolding hash_from_sig_alg
  cert_hash_func cert =
      let known = hash_from_sig_alg cert.signature_algorithm in
      if not (known == 0) then known else or_zero (hs.composite_pre_hash cert.raw)

  -- `CertHash`, which fails when no hash is defined for the certificate.
  unfoldable pub cert_hash : Certificate → Option Bytes
  unfolding cert_hash_func
  cert_hash cert =
      let h = cert_hash_func cert in
      if h == 0 || not (hs.available h) then none else some (hs.digest h cert.raw)
