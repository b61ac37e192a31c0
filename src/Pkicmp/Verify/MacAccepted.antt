-- ===== src/Pkicmp/Verify/MacAccepted.antt =====
-- pkicmp/verify.go: what an accepted MAC shows.
use go_pkicmp_ng.Prelude.{
  ◌≡◌, refl, true, false, not, none, some, Bytes, is_empty, bytes_eq, bytes_eq_sound, arith,
}
use go_pkicmp_ng.Prelude.Int.{ℤ, pos, ◌≤ℤ◌}
use go_pkicmp_ng.Prelude.Result.{Result, ok, err, bind_ok, ◌>>◌}
use go_pkicmp_ng.Pkicmp.Types.{AlgorithmIdentifier}
use go_pkicmp_ng.Pkicmp.Errors.{
  Failure, verification_failure, missing_shared_secret, unsupported_algorithm, parse_failure,
  bad_mac,
}
use go_pkicmp_ng.Pkicmp.Algorithms.{Hash, oid_eq, hash_from_oid, hmac_hash_from_oid}
use go_pkicmp_ng.Pkicmp.Pop.{KeyLibrary}
use go_pkicmp_ng.Pkicmp.Protect.{
  PkiMessage, MacLibrary, PbmParameter, Pbkdf2Params, Pbmac1Params, min_iteration_count,
  max_iteration_count, min_key_length, oid_pbkdf2, int_or, refuse, or_fail, refuse_ok, require_ok,
  or_fail_ok, validate_pbm_iteration_count, validate_pbkdf2_key_length, derive_pbm_key,
  protected_part, unmarshal_pbm, parse_pbkdf2_params,
}
use go_pkicmp_ng.Pkicmp.Credentials.{MacCredentialOption}
use go_pkicmp_ng.Pkicmp.Verify.{
  VerifyOptions, VerifyResult, CertificateLibrary, usable, or_unsupported, compare_mac, pbm_params,
  verify_pbm, verify_pbmac1,
}

abbrev unsupported : Failure
unsupported = verification_failure unsupported_algorithm

-- The work that a peer may ask for.
pub IsBoundedCount : ℤ → Type 0
IsBoundedCount n = (min_iteration_count ≤ℤ n) × (n ≤ℤ max_iteration_count)

validate_pbm_iteration_count_lem :
    (n : ℤ) (u : Unit) → validate_pbm_iteration_count n ≡ ok u → IsBoundedCount n
unfolding validate_pbm_iteration_count IsBoundedCount
validate_pbm_iteration_count_lem n u h = ground arith

module _ (mac : MacLibrary) where
  pub IsBoundedKey : ℤ → Hash → Type 0
  IsBoundedKey n h = (min_key_length ≤ℤ n) × (n ≤ℤ pos (mac.block_size h))

  validate_pbkdf2_key_length_lem :
      (n : ℤ) (h : Hash) (u : Unit) → validate_pbkdf2_key_length mac n h ≡ ok u → IsBoundedKey n h
  unfolding validate_pbkdf2_key_length IsBoundedKey
  validate_pbkdf2_key_length_lem n h u e = ground arith

  -- A key that PasswordBasedMac derives from the secret under the parameters of the message.
  pub record IsPbmKey (secret : Bytes) (alg : AlgorithmIdentifier) (mac_hash : Hash) (key : Bytes)
      : Type 0 where
    pub params : PbmParameter
    pub hash : Hash
    pub parsed : unmarshal_pbm mac alg.parameters ≡ ok params
    pub owf : hash_from_oid params.owf.algorithm ≡ some hash
    pub mac_alg : hmac_hash_from_oid params.mac.algorithm ≡ some mac_hash
    pub count : IsBoundedCount params.iteration_count
    pub derived :
        derive_pbm_key mac secret params.salt params.iteration_count hash mac_hash ≡ ok key

  -- A key that PBKDF2 derives from the secret under the parameters of the message.
  pub record IsPbmac1Key (secret : Bytes) (alg : AlgorithmIdentifier) (mac_hash : Hash)
      (key : Bytes) : Type 0 where
    pub params : Pbmac1Params
    pub kdf : Pbkdf2Params
    pub prf_hash : Hash
    pub parsed : mac.unmarshal_pbmac1 alg.parameters ≡ some params
    pub parsed_kdf : parse_pbkdf2_params mac params.key_derivation_func.parameters ≡ ok kdf
    pub is_pbkdf2 : oid_eq params.key_derivation_func.algorithm oid_pbkdf2 ≡ true
    pub prf : hmac_hash_from_oid kdf.prf.algorithm ≡ some prf_hash
    pub mac_alg : hmac_hash_from_oid params.message_auth_scheme.algorithm ≡ some mac_hash
    pub count : IsBoundedCount kdf.iteration_count
    pub key_length : IsBoundedKey (int_or kdf.key_length (pos (mac.size mac_hash))) mac_hash
    pub derived :
        mac.pbkdf2_key secret kdf.salt kdf.iteration_count
          (int_or kdf.key_length (pos (mac.size mac_hash)))
          prf_hash
        ≡ key

  -- The protection is the MAC of the protected part under such a key, and the result says so.
  pub record IsMacAccepted (opts : VerifyOptions) (m : PkiMessage) (alg : AlgorithmIdentifier)
      (IsKey : Hash → Bytes → Type 0) (r : VerifyResult) : Type 0 where
    pub has_secret : is_empty opts.shared_secret ≡ false
    pub mac_hash : Hash
    pub key : Bytes
    pub part : Bytes
    pub is_key : IsKey mac_hash key
    pub covers : protected_part mac m ≡ ok part
    pub tag : mac.hmac mac_hash key part ≡ m.protection
    pub verified : r.mac_verified ≡ true
    pub no_certificate : r.protection_certificate ≡ none

  module _ (keys : KeyLibrary) (certs : CertificateLibrary) where
    or_unsupported_ok :
        {A : Type 0} (r : Result Failure A) (a : A) → or_unsupported r ≡ ok a → r ≡ ok a
    or_unsupported_ok (ok b) a h = h
    or_unsupported_ok (err e) a h = ground arith

    compared :
        (m : PkiMessage) (mac_hash : Hash) (part : Bytes) (params : MacCredentialOption)
        (key : Bytes) (r : VerifyResult)
        → compare_mac mac keys certs m mac_hash part params key ≡ ok r
        → (mac.hmac mac_hash key part ≡ m.protection)
          × (r.mac_verified ≡ true)
          × (r.protection_certificate ≡ none)
    compared m mac_hash part params key r h =
        let (_, same, h1) =
          bind_ok
            (refuse (not (bytes_eq (mac.hmac mac_hash key part) m.protection))
              (verification_failure bad_mac))
            _ r h in
        (bytes_eq_sound _ _ (require_ok _ _ _ same), ground arith, ground arith)

    pub verify_pbm-IsMacAccepted :
        (opts : VerifyOptions) (m : PkiMessage) (alg : AlgorithmIdentifier) (r : VerifyResult)
        → verify_pbm mac keys certs opts m alg ≡ ok r
        → IsMacAccepted opts m alg (IsPbmKey opts.shared_secret alg) r
    unfolding verify_pbm
    verify_pbm-IsMacAccepted opts m alg r h =
        let (_, secret, h1) =
          bind_ok
            (refuse (is_empty opts.shared_secret) (verification_failure missing_shared_secret)) _ r
            h in
        let (p, parsed, h2) = bind_ok (unmarshal_pbm mac alg.parameters) _ r h1 in
        let (_, count, h3) = bind_ok (validate_pbm_iteration_count p.iteration_count) _ r h2 in
        let (hash, owf, h4) =
          bind_ok (or_fail unsupported (hash_from_oid p.owf.algorithm)) _ r h3 in
        let (_, _, h5) = bind_ok (usable mac keys certs hash) _ r h4 in
        let (mac_hash, mac_alg, h6) =
          bind_ok (or_fail unsupported (hmac_hash_from_oid p.mac.algorithm)) _ r h5 in
        let (_, _, h7) = bind_ok (usable mac keys certs mac_hash) _ r h6 in
        let (part, covers, h8) = bind_ok (protected_part mac m) _ r h7 in
        let (key, derived, h9) =
          bind_ok
            (or_unsupported
              (derive_pbm_key mac opts.shared_secret p.salt p.iteration_count hash mac_hash))
            _ r h8 in
        let tag = compared m mac_hash part (pbm_params p) key r h9 in
        record {
          has_secret = refuse_ok _ _ _ secret;
          mac_hash = mac_hash;
          key = key;
          part = part;
          is_key = record {
            params = p;
            hash = hash;
            parsed = parsed;
            owf = or_fail_ok _ _ _ owf;
            mac_alg = or_fail_ok _ _ _ mac_alg;
            count = validate_pbm_iteration_count_lem _ _ count;
            derived = or_unsupported_ok _ _ derived;
          };
          covers = covers;
          tag = tag.0;
          verified = tag.1;
          no_certificate = tag.2;
        }

    pub verify_pbmac1-IsMacAccepted :
        (opts : VerifyOptions) (m : PkiMessage) (alg : AlgorithmIdentifier) (r : VerifyResult)
        → verify_pbmac1 mac keys certs opts m alg ≡ ok r
        → IsMacAccepted opts m alg (IsPbmac1Key opts.shared_secret alg) r
    unfolding verify_pbmac1
    verify_pbmac1-IsMacAccepted opts m alg r h =
        let (_, secret, h1) =
          bind_ok
            (refuse (is_empty opts.shared_secret) (verification_failure missing_shared_secret)) _ r
            h in
        let (p, parsed, h2) =
          bind_ok (or_fail parse_failure (mac.unmarshal_pbmac1 alg.parameters)) _ r h1 in
        let (_, is_pbkdf2, h3) =
          bind_ok (refuse (not (oid_eq p.key_derivation_func.algorithm oid_pbkdf2)) unsupported) _ r
            h2 in
        let (kdf, parsed_kdf, h4) =
          bind_ok (parse_pbkdf2_params mac p.key_derivation_func.parameters) _ r h3 in
        let (_, count, h5) = bind_ok (validate_pbm_iteration_count kdf.iteration_count) _ r h4 in
        let (prf_hash, prf, h6) =
          bind_ok (or_fail unsupported (hmac_hash_from_oid kdf.prf.algorithm)) _ r h5 in
        let (_, _, h7) = bind_ok (usable mac keys certs prf_hash) _ r h6 in
        let (mac_hash, mac_alg, h8) =
          bind_ok (or_fail unsupported (hmac_hash_from_oid p.message_auth_scheme.algorithm)) _ r
            h7 in
        let (_, key_length, h10) =
          bind_ok
            (usable mac keys certs mac_hash
              >> validate_pbkdf2_key_length mac (int_or kdf.key_length (pos (mac.size mac_hash)))
                  mac_hash)
            _ r h8 in
        let (_, _, bounded) = bind_ok (usable mac keys certs mac_hash) _ _ key_length in
        let (part, covers, h11) = bind_ok (protected_part mac m) _ r h10 in
        let tag = compared m mac_hash part _ _ r h11 in
        record {
          has_secret = refuse_ok _ _ _ secret;
          mac_hash = mac_hash;
          key = _;
          part = part;
          is_key = record {
            params = p;
            kdf = kdf;
            prf_hash = prf_hash;
            parsed = or_fail_ok _ _ _ parsed;
            parsed_kdf = parsed_kdf;
            is_pbkdf2 = require_ok _ _ _ is_pbkdf2;
            prf = or_fail_ok _ _ _ prf;
            mac_alg = or_fail_ok _ _ _ mac_alg;
            count = validate_pbm_iteration_count_lem _ _ count;
            key_length = validate_pbkdf2_key_length_lem _ _ _ bounded;
            derived = refl;
          };
          covers = covers;
          tag = tag.0;
          verified = tag.1;
          no_certificate = tag.2;
        }
