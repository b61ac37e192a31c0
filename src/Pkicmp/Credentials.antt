-- ===== src/Pkicmp/Credentials.antt =====
-- pkicmp/credentials.go: the credentials with which a message is protected.
use go_pkicmp_ng.Prelude.{
  Option, none, some, List, [], ◌∷◌, Bytes, bytes_eq, ltb, ◌==◌, is_empty, if◌then◌else◌,
}
use go_pkicmp_ng.Prelude.Int.{ℤ, pos}
use go_pkicmp_ng.Prelude.Result.{Result, ok, err, ◌>>=◌, ◌>>◌}
use go_pkicmp_ng.Pkicmp.Types.{Oid, Opaque, Certificate, AlgorithmIdentifier}
use go_pkicmp_ng.Pkicmp.Errors.{
  Failure, protection_failure, unsupported_algorithm, missing_shared_secret, missing_signer,
}
use go_pkicmp_ng.Pkicmp.Algorithms.{
  Hash, sha1, sha224, sha256, sha384, sha512, oid_eq, oid_sha1, oid_sha224, oid_sha256, oid_sha384,
  oid_sha512, oid_hmac_with_sha224, oid_hmac_with_sha256, oid_hmac_with_sha384,
  oid_hmac_with_sha512, oid_pbm_mac_hmac_sha1, oid_password_based_mac, oid_pbmac1,
}
use go_pkicmp_ng.Pkicmp.Pop.{KeyLibrary}
use go_pkicmp_ng.Pkicmp.Protect.{
  MacOptions, Pbmac1Options, PkiMessage, MacLibrary, refuse, or_fail, oid_or,
  protect_with_mac_options, protect_with_pbmac1_options, protect_with_mac_algorithm,
}

-- `macCredentialConfig`: an empty identifier is nil.
pub record MacCredentialConfig : Type 0 where
  pub algorithm : Oid
  pub iteration_count : ℤ
  pub key_length : ℤ
  pub owf : Oid
  pub mac : Oid
  pub owf_parameters : Bytes
  pub mac_parameters : Bytes
  pub protection_alg : Option AlgorithmIdentifier
  pub failure : Option Failure

abbrev pub zero_config : MacCredentialConfig
zero_config = record {
  algorithm = [];
  iteration_count = pos 0;
  key_length = pos 0;
  owf = [];
  mac = [];
  owf_parameters = [];
  mac_parameters = [];
  protection_alg = none;
  failure = none;
}

-- `MACCredentialOption`
abbrev pub MacCredentialOption : Type 0
MacCredentialOption = MacCredentialConfig → MacCredentialConfig

unfoldable pub with_pbm : MacCredentialOption
with_pbm c = record c { algorithm = oid_password_based_mac }

unfoldable pub with_mac_iteration_count : ℤ → MacCredentialOption
with_mac_iteration_count n c = record c { iteration_count = n }

unfoldable pub with_protection_algorithm : Option AlgorithmIdentifier → MacCredentialOption
with_protection_algorithm none c = c
with_protection_algorithm (some alg) c = record c { protection_alg = some alg }

-- The maps `owfOIDs` and `macOIDs`.
unfoldable pub owf_oid : Hash → Option Oid
owf_oid h =
    if h == sha1
    then some oid_sha1
    else if h == sha224
    then some oid_sha224
    else if h == sha256
    then some oid_sha256
    else if h == sha384
    then some oid_sha384
    else if h == sha512
    then some oid_sha512
    else none

unfoldable pub mac_oid : Hash → Option Oid
mac_oid h =
    if h == sha1
    then some oid_pbm_mac_hmac_sha1
    else if h == sha224
    then some oid_hmac_with_sha224
    else if h == sha256
    then some oid_hmac_with_sha256
    else if h == sha384
    then some oid_hmac_with_sha384
    else if h == sha512
    then some oid_hmac_with_sha512
    else none

-- `MACCredentials`
pub record MacCredentials : Type 0 where
  pub secret : Bytes
  pub config : MacCredentialConfig

-- `SignatureCredentials`; a key is known by its public key.
pub record SignatureCredentials : Type 0 where
  pub public_key : Opaque
  pub cert : Certificate
  pub chain : List Certificate

-- The options that the credentials give to each of the two protections.
abbrev pub pbmac1_options_of : MacCredentials → Pbmac1Options
pbmac1_options_of c = record {
  secret = c.secret;
  iteration_count = c.config.iteration_count;
  key_length = c.config.key_length;
  prf = c.config.owf;
  mac = c.config.mac;
}

abbrev pub mac_options_of : MacCredentials → Oid → MacOptions
mac_options_of c alg = record {
  secret = c.secret;
  algorithm = alg;
  iteration_count = c.config.iteration_count;
  owf = c.config.owf;
  mac = c.config.mac;
  owf_parameters = c.config.owf_parameters;
  mac_parameters = c.config.mac_parameters;
}

module _ (lib : MacLibrary) where
  unfoldable pub pbm_algorithm_oids : Hash → Hash → Result Failure (Oid × Oid)
  unfolding owf_oid mac_oid
  pbm_algorithm_oids owf mac =
      or_fail (protection_failure unsupported_algorithm) (owf_oid owf) >>= λ o.
      or_fail (protection_failure unsupported_algorithm) (mac_oid mac) >>= λ m.
      refuse (ltb (lib.size owf) (lib.size mac)) (protection_failure unsupported_algorithm)
      >> ok (o, m)

  abbrev set_algorithms : MacCredentialConfig → Result Failure (Oid × Oid) → MacCredentialConfig
  set_algorithms c (err e) = record c { failure = some e }
  set_algorithms c (ok (o, m)) = record c { owf = o; mac = m }

  unfoldable pub with_pbm_algorithms : Hash → Hash → MacCredentialOption
  unfolding pbm_algorithm_oids
  with_pbm_algorithms owf mac c =
      set_algorithms (record c { algorithm = oid_password_based_mac }) (pbm_algorithm_oids owf mac)

  unfoldable pub apply_options : List MacCredentialOption → MacCredentialOption
  apply_options [] c = c
  apply_options (o ∷ os) c = apply_options os (o c)

  unfoldable pub new_mac_credentials :
      Bytes → List MacCredentialOption → Result Failure MacCredentials
  unfolding apply_options
  new_mac_credentials secret opts =
      let config = apply_options opts zero_config in
      refuse (is_empty secret) (protection_failure missing_shared_secret) >> elim config.failure [
        | some e ↦ err e
        | none ↦ ok (record { secret = secret; config = config })
      ]

  -- `MACCredentials.Protect`, with the salt that it draws.
  unfoldable pub mac_credentials_protect :
      MacCredentials → Bytes → PkiMessage → Result Failure PkiMessage
  unfolding protect_with_mac_options protect_with_pbmac1_options protect_with_mac_algorithm
  mac_credentials_protect c salt m = elim c.config.protection_alg [
    | some alg ↦ protect_with_mac_algorithm lib c.secret alg salt m
    | none ↦
        let alg = oid_or c.config.algorithm oid_pbmac1 in
        if oid_eq alg oid_pbmac1
        then protect_with_pbmac1_options lib (pbmac1_options_of c) salt m
        else protect_with_mac_options lib (mac_options_of c alg) salt m
  ]

-- The key of a certificate, which crypto/x509 leaves nil for composite keys.
abbrev pub certificate_key : KeyLibrary → Certificate → Option Opaque
certificate_key keys cert = elim cert.public_key [
  | some k ↦ some k
  | none ↦ keys.parse_public_key cert.raw_subject_public_key_info
]

-- `NewSignatureCredentials` of a key and a certificate that are not nil.
unfoldable pub new_signature_credentials :
    KeyLibrary → Opaque → Certificate → List Certificate → Result Failure SignatureCredentials
new_signature_credentials keys key cert chain = elim (keys.marshal_public_key (some key)) [
  | none ↦ err (protection_failure missing_signer)
  | some mine ↦ elim (keys.marshal_public_key (certificate_key keys cert)) [
    | none ↦ err (protection_failure missing_signer)
    | some theirs ↦
        if bytes_eq mine theirs
        then ok (record { public_key = key; cert = cert; chain = chain })
        else err (protection_failure missing_signer)
  ]
]
