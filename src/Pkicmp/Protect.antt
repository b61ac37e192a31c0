-- ===== src/Pkicmp/Protect.antt =====
-- pkicmp/protect.go: the protection of a message with a shared secret (PasswordBasedMac and PBMAC1).
pub mod Sealed
use go_pkicmp_ng.Prelude.{
  ◌≡◌, arith, ℕ, zero, suc, ◌-◌, ◌||◌, Bool, true, false, not, Option, none, some, List, [], ◌∷◌,
  ◌++◌, Bytes, ltb, is_empty, is_some, if◌then◌else◌,
}
use go_pkicmp_ng.Prelude.Int.{ℤ, pos, ltb_ℤ, eqb_ℤ, pos_part}
use go_pkicmp_ng.Prelude.Result.{Result, ok, err, ◌>>=◌, ◌>>◌}
use go_pkicmp_ng.Pkicmp.Types.{Oid, Opaque, AlgorithmIdentifier}
use go_pkicmp_ng.Pkicmp.Errors.{
  Failure, parse_failure, protection_failure, other_failure, missing_shared_secret,
}
use go_pkicmp_ng.Pkicmp.Algorithms.{
  Hash, Hashes, oid_eq, oid_sha256, oid_hmac_with_sha1, oid_hmac_with_sha256,
  oid_password_based_mac, oid_pbmac1, hash_from_oid, hmac_hash_from_oid,
}
use go_pkicmp_ng.Pkicmp.Message.{PkiHeader}
use go_pkicmp_ng.Pkicmp.Der.{Cryptobyte, tag_sequence, tag_octet_string}
use go_pkicmp_ng.Pkicmp.Der.AlgorithmIdentifiers.{marshal_algorithm, unmarshal_algorithm}

-- `PKIMessage`: a body is a value that the encoder knows, none for nil.
pub record PkiMessage : Type 0 where
  pub header : PkiHeader
  pub body : Option Opaque
  pub protection : Bytes
  pub extra_certs : List Bytes
  pub raw_header : Bytes
  pub raw_body : Bytes

-- `pbkdf2ParamsASN1` and the two identifiers of PBMAC1-params.
pub record Pbkdf2Params : Type 0 where
  pub salt : Bytes
  pub iteration_count : ℤ
  pub key_length : ℤ
  pub prf : AlgorithmIdentifier

pub record Pbmac1Params : Type 0 where
  pub key_derivation_func : AlgorithmIdentifier
  pub message_auth_scheme : AlgorithmIdentifier

-- crypto, hmac, pbkdf2, cryptobyte and encoding/asn1, and the encoders of bodies and headers: a body
-- may raise the version that the header must have.
pub record MacLibrary : Type 0 where
  pub hashes : Hashes
  pub size : Hash → ℕ
  pub block_size : Hash → ℕ
  pub hmac : Hash → Bytes → Bytes → Bytes
  pub pbkdf2_key : Bytes → Bytes → ℤ → ℤ → Hash → Bytes
  pub cryptobyte : Cryptobyte
  pub marshal_pbkdf2 : Pbkdf2Params → Option Bytes
  pub unmarshal_pbkdf2 : Bytes → Option Pbkdf2Params
  pub marshal_pbmac1 : Pbmac1Params → Option Bytes
  pub unmarshal_pbmac1 : Bytes → Option Pbmac1Params
  pub marshal_body : Opaque → ℤ → Option (Bytes × ℤ)
  pub marshal_header : PkiHeader → Option Bytes

-- `pbmParameter`
pub record PbmParameter : Type 0 where
  pub salt : Bytes
  pub owf : AlgorithmIdentifier
  pub iteration_count : ℤ
  pub mac : AlgorithmIdentifier

-- `macOptions`: an empty identifier is nil.
pub record MacOptions : Type 0 where
  pub secret : Bytes
  pub algorithm : Oid
  pub iteration_count : ℤ
  pub owf : Oid
  pub mac : Oid
  pub owf_parameters : Bytes
  pub mac_parameters : Bytes

-- `pbmac1Options`
pub record Pbmac1Options : Type 0 where
  pub secret : Bytes
  pub iteration_count : ℤ
  pub key_length : ℤ
  pub prf : Oid
  pub mac : Oid

abbrev pub oid_pbkdf2 : Oid
oid_pbkdf2 = 1 ∷ 2 ∷ 840 ∷ 113549 ∷ 1 ∷ 5 ∷ 12 ∷ []

abbrev pub default_pbm_iteration_count : ℤ
default_pbm_iteration_count = pos 10000

abbrev pub pvno2 : ℤ
pvno2 = pos 2

abbrev pub min_iteration_count : ℤ
min_iteration_count = pos 1

abbrev pub max_iteration_count : ℤ
max_iteration_count = pos 500000

abbrev pub min_key_length : ℤ
min_key_length = pos 16

abbrev pub refuse : Bool → Failure → Result Failure Unit
refuse b e = if b then err e else ok tt

abbrev pub or_fail : {A : Type 0} → Failure → Option A → Result Failure A
or_fail e none = err e
or_fail e (some a) = ok a

pub refuse_ok : (b : Bool) (e : Failure) (u : Unit) → refuse b e ≡ ok u → b ≡ false
refuse_ok b e u h = ground arith

pub require_ok : (b : Bool) (e : Failure) (u : Unit) → refuse (not b) e ≡ ok u → b ≡ true
require_ok b e u h = ground arith

pub or_fail_ok : {A : Type 0} (e : Failure) (o : Option A) (a : A) → or_fail e o ≡ ok a → o ≡ some a
or_fail_ok e none a h = ground arith
or_fail_ok e (some b) a h = ground arith

-- A value or, where it is the zero value, its default.
abbrev pub oid_or : Oid → Oid → Oid
oid_or oid default = if is_empty oid then default else oid

abbrev pub int_or : ℤ → ℤ → ℤ
int_or n default = if eqb_ℤ n (pos 0) then default else n

unfoldable pub validate_pbm_iteration_count : ℤ → Result Failure Unit
validate_pbm_iteration_count n =
    refuse (ltb_ℤ n min_iteration_count) parse_failure
    >> refuse (ltb_ℤ max_iteration_count n) parse_failure

-- The loop of `derivePBMKey`: the digest applied `n` more times.
unfoldable pub rehash : (Bytes → Bytes) → ℕ → Bytes → Bytes
rehash digest zero k = k
rehash digest (suc n) k = rehash digest n (digest k)

module _ (lib : MacLibrary) where
  unfoldable pub validate_pbkdf2_key_length : ℤ → Hash → Result Failure Unit
  validate_pbkdf2_key_length n mac_hash =
      refuse (ltb_ℤ n min_key_length) parse_failure
      >> refuse (ltb_ℤ (pos (lib.block_size mac_hash)) n) parse_failure

  unfoldable pub derive_pbm_key : Bytes → Bytes → ℤ → Hash → Hash → Result Failure Bytes
  unfolding rehash
  derive_pbm_key secret salt iterations hash mac_hash =
      if ltb (lib.size hash) (lib.size mac_hash)
      then err other_failure
      else ok (
          rehash (lib.hashes.digest hash) (pos_part iterations - 1)
            (lib.hashes.digest hash (secret ++ salt)))

  -- `protectedPart`
  unfoldable pub protected_part : PkiMessage → Result Failure Bytes
  protected_part m = elim m.body [
    | none ↦ err parse_failure
    | some _ ↦
        if is_empty m.raw_header || is_empty m.raw_body
        then err parse_failure
        else or_fail other_failure
            (lib.cryptobyte.add_asn1 tag_sequence (m.raw_header ++ m.raw_body))
  ]

  abbrev with_header : PkiMessage → Bytes → ℤ → Result Failure PkiMessage
  with_header m raw_body pvno =
      let header = record (m.header) { pvno = pvno } in
      or_fail other_failure (lib.marshal_header header) >>= λ raw_header.
      ok (record m { header = header; raw_header = raw_header; raw_body = raw_body })

  -- `marshalForProtection`, of a message with a body.
  unfoldable pub marshal_for_protection : PkiMessage → Result Failure PkiMessage
  marshal_for_protection m = elim m.body [
    | none ↦ err parse_failure
    | some body ↦
        or_fail other_failure
          (lib.marshal_body body (if ltb_ℤ pvno2 m.header.pvno then m.header.pvno else pvno2))
        >>= λ encoded. with_header m encoded.0 encoded.1
  ]

  -- The message under a protection algorithm, encoded, with the MAC of its protected part.
  unfoldable pub seal :
      PkiMessage → AlgorithmIdentifier → Hash → Result Failure Bytes → Result Failure PkiMessage
  unfolding marshal_for_protection protected_part
  seal m alg mac_hash key =
      marshal_for_protection (record m { header = record (m.header) { protection_alg = some alg } })
      >>= λ m'. protected_part m' >>= λ part.
          key >>= λ k. ok (record m' { protection = lib.hmac mac_hash k part })

  unfoldable pub marshal_pbm : PbmParameter → Option Bytes
  unfolding marshal_algorithm
  marshal_pbm p = elim (lib.cryptobyte.add_asn1 tag_octet_string p.salt) [
    | none ↦ none
    | some salt ↦ elim (marshal_algorithm lib.cryptobyte p.owf) [
      | none ↦ none
      | some owf ↦ elim (marshal_algorithm lib.cryptobyte p.mac) [
        | none ↦ none
        | some mac ↦
            lib.cryptobyte.add_asn1 tag_sequence
              (salt ++ (owf ++ (lib.cryptobyte.add_int64 p.iteration_count ++ mac)))
      ]
    ]
  ]

  -- `pbmParameter.unmarshal`
  unfoldable pub unmarshal_pbm : Bytes → Result Failure PbmParameter
  unfolding unmarshal_algorithm validate_pbm_iteration_count
  unmarshal_pbm s = or_fail parse_failure (lib.cryptobyte.read_asn1 tag_sequence s) >>= λ seq.
      or_fail parse_failure (lib.cryptobyte.read_asn1 tag_octet_string seq.0) >>= λ salt.
      unmarshal_algorithm lib.cryptobyte salt.1 >>= λ owf.
      or_fail parse_failure (lib.cryptobyte.read_int64 owf.1) >>= λ count.
      validate_pbm_iteration_count count.0
      >> (unmarshal_algorithm lib.cryptobyte count.1 >>= λ mac.
          ok (record { salt = salt.0; owf = owf.0; iteration_count = count.0; mac = mac.0 }))

  -- `protectWithMACOptions`, with the salt that was drawn.
  unfoldable pub protect_with_mac_options :
      MacOptions → Bytes → PkiMessage → Result Failure PkiMessage
  unfolding validate_pbm_iteration_count hash_from_oid hmac_hash_from_oid marshal_pbm seal
      derive_pbm_key
  protect_with_mac_options o salt m =
      let iterations = int_or o.iteration_count default_pbm_iteration_count in
      let owf = oid_or o.owf oid_sha256 in
      let mac = oid_or o.mac oid_hmac_with_sha256 in
      refuse (not (is_some m.body)) parse_failure
      >> refuse (is_empty o.secret) (protection_failure missing_shared_secret)
      >> refuse (is_empty o.algorithm) parse_failure
      >> validate_pbm_iteration_count iterations
      >> (or_fail parse_failure (hash_from_oid owf) >>= λ hash.
          or_fail parse_failure (hmac_hash_from_oid mac) >>= λ mac_hash.
          or_fail other_failure (
            marshal_pbm (record {
              salt = salt;
              owf = record { algorithm = owf; parameters = o.owf_parameters };
              iteration_count = iterations;
              mac = record { algorithm = mac; parameters = o.mac_parameters };
            }))
          >>= λ params.
              seal m (record { algorithm = o.algorithm; parameters = params }) mac_hash
                (derive_pbm_key o.secret salt iterations hash mac_hash))

  -- The PBKDF2-params that `marshalPBMAC1Params` writes: the default prf is left out.
  abbrev pub pbkdf2_params : Bytes → ℤ → ℤ → Oid → Pbkdf2Params
  pbkdf2_params salt iterations key_length prf = record {
    salt = salt;
    iteration_count = iterations;
    key_length = key_length;
    prf = record { algorithm = if oid_eq prf oid_hmac_with_sha1 then [] else prf; parameters = [] };
  }

  unfoldable pub marshal_pbmac1_params : Bytes → ℤ → ℤ → Oid → Oid → Option Bytes
  marshal_pbmac1_params salt iterations key_length prf mac =
      elim (lib.marshal_pbkdf2 (pbkdf2_params salt iterations key_length prf)) [
        | none ↦ none
        | some params ↦ lib.marshal_pbmac1 (record {
          key_derivation_func = record { algorithm = oid_pbkdf2; parameters = params };
          message_auth_scheme = record { algorithm = mac; parameters = [] };
        })
      ]

  unfoldable pub parse_pbkdf2_params : Bytes → Result Failure Pbkdf2Params
  parse_pbkdf2_params der = or_fail parse_failure (lib.unmarshal_pbkdf2 der) >>= λ p.
      ok (record p {
        prf = record (p.prf) { algorithm = oid_or p.prf.algorithm oid_hmac_with_sha1 };
      })

  -- `protectWithPBMAC1Options`
  unfoldable pub protect_with_pbmac1_options :
      Pbmac1Options → Bytes → PkiMessage → Result Failure PkiMessage
  unfolding validate_pbm_iteration_count hmac_hash_from_oid validate_pbkdf2_key_length
      marshal_pbmac1_params seal
  protect_with_pbmac1_options o salt m =
      let iterations = int_or o.iteration_count default_pbm_iteration_count in
      let prf = oid_or o.prf oid_hmac_with_sha256 in
      let mac = oid_or o.mac oid_hmac_with_sha256 in
      refuse (not (is_some m.body)) parse_failure
      >> refuse (is_empty o.secret) (protection_failure missing_shared_secret)
      >> validate_pbm_iteration_count iterations
      >> (or_fail parse_failure (hmac_hash_from_oid mac) >>= λ mac_hash.
          or_fail parse_failure (hmac_hash_from_oid prf) >>= λ prf_hash.
          let key_length = int_or o.key_length (pos (lib.size mac_hash)) in
          validate_pbkdf2_key_length key_length mac_hash
          >> (or_fail other_failure (marshal_pbmac1_params salt iterations key_length prf mac)
              >>= λ params.
                  seal m (record { algorithm = oid_pbmac1; parameters = params }) mac_hash
                    (ok (lib.pbkdf2_key o.secret salt iterations key_length prf_hash))))

  -- `protectWithMACAlgorithm`
  unfoldable pub protect_with_mac_algorithm :
      Bytes → AlgorithmIdentifier → Bytes → PkiMessage → Result Failure PkiMessage
  unfolding parse_pbkdf2_params protect_with_pbmac1_options unmarshal_pbm protect_with_mac_options
  protect_with_mac_algorithm secret alg salt m =
      if oid_eq alg.algorithm oid_pbmac1
      then (or_fail parse_failure (lib.unmarshal_pbmac1 alg.parameters) >>= λ p.
          refuse (not (oid_eq p.key_derivation_func.algorithm oid_pbkdf2)) parse_failure
          >> (parse_pbkdf2_params p.key_derivation_func.parameters >>= λ kdf.
              protect_with_pbmac1_options
                (record {
                  secret = secret;
                  iteration_count = kdf.iteration_count;
                  key_length = kdf.key_length;
                  prf = kdf.prf.algorithm;
                  mac = p.message_auth_scheme.algorithm;
                })
                salt m))
      else if oid_eq alg.algorithm oid_password_based_mac
      then (unmarshal_pbm alg.parameters >>= λ p.
          protect_with_mac_options
            (record {
              secret = secret;
              algorithm = alg.algorithm;
              iteration_count = p.iteration_count;
              owf = p.owf.algorithm;
              mac = p.mac.algorithm;
              owf_parameters = p.owf.parameters;
              mac_parameters = p.mac.parameters;
            })
            salt m)
      else err parse_failure
