-- ===== src/Pkicmp/Verify/RoundTrip.antt =====
-- pkicmp/protect.go and verify.go: a message that was protected with a secret verifies with it.
use go_pkicmp_ng.Prelude.{
  ◌<◌, ◌^◌, ◌≡◌, ◌≢◌, refl, sym, subst, ap, ◌∙◌, inl, inr, true, false, not, some, [], Bytes,
  bytes_eq, bytes_eq_refl, bytes_eq_sound, is_empty, is_some, if◌then◌else◌, arith, Option-cases,
  Bool-cases,
}
use go_pkicmp_ng.Prelude.Int.{ℤ, pos, eqb_ℤ}
use go_pkicmp_ng.Prelude.Result.{Result, ok, bind_ok, ok_injective, ◌>>◌}
use go_pkicmp_ng.Pkicmp.Types.{Time, Oid, AlgorithmIdentifier}
use go_pkicmp_ng.Pkicmp.Errors.{
  Failure, parse_failure, other_failure, protection_failure, missing_shared_secret,
}
use go_pkicmp_ng.Pkicmp.Algorithms.{
  Hash, oid_eq, oid_sha256, oid_hmac_with_sha1, oid_hmac_with_sha256, oid_password_based_mac,
  oid_pbmac1, hash_from_oid, hmac_hash_from_oid,
}
use go_pkicmp_ng.Pkicmp.Pop.{KeyLibrary}
use go_pkicmp_ng.Pkicmp.Der.{CryptobyteLaws, FitsInt64}
use go_pkicmp_ng.Pkicmp.Der.AlgorithmIdentifiers.{IsElement}
use go_pkicmp_ng.Pkicmp.Protect.{
  PkiMessage, MacLibrary, MacOptions, Pbmac1Options, PbmParameter, Pbkdf2Params, Pbmac1Params,
  refuse, or_fail, refuse_ok, or_fail_ok, oid_or, int_or, oid_pbkdf2, default_pbm_iteration_count,
  validate_pbm_iteration_count, validate_pbkdf2_key_length, derive_pbm_key, unmarshal_pbm,
  marshal_pbm, parse_pbkdf2_params, marshal_pbmac1_params, pbkdf2_params, protect_with_mac_options,
  protect_with_pbmac1_options,
}
use go_pkicmp_ng.Pkicmp.Protect.Sealed.{
  validate_pbm_iteration_count-FitsInt64, IsSealed, seal-IsSealed, unmarshal_pbm-marshal_pbm,
}
use go_pkicmp_ng.Pkicmp.Verify.{
  VerifyOptions, VerifyResult, CertificateLibrary, protection_signature, verify, dispatch,
  verify_pbm, verify_pbmac1, mac_result, pbm_params, pbmac1_params, requires_signature,
  ProtectionMechanism,
}

-- What the libraries document: a reader inverts its builder; encoding/asn1 reads back what it wrote, of
-- parameters whose integers are of 64 bits and whose raw parts are absent or one encoding that it made;
-- crypto/x509 links in SHA-1 and SHA-2; the block size of a hash is an int; and the MAC of a hash that is
-- linked in is not empty.
pub record MacLaws (lib : MacLibrary) : Type 0 where
  pub cryptobyte : CryptobyteLaws lib.cryptobyte
  pub pbkdf2_asn1 :
      (p : Pbkdf2Params) (e : Bytes)
      → FitsInt64 p.iteration_count
      → FitsInt64 p.key_length
      → p.prf.parameters ≡ []
      → lib.marshal_pbkdf2 p ≡ some e
      → lib.unmarshal_pbkdf2 e ≡ some p
  pub pbmac1_asn1 :
      (p : Pbmac1Params) (kdf : Pbkdf2Params) (e : Bytes)
      → lib.marshal_pbkdf2 kdf ≡ some p.key_derivation_func.parameters
      → p.message_auth_scheme.parameters ≡ []
      → lib.marshal_pbmac1 p ≡ some e
      → lib.unmarshal_pbmac1 e ≡ some p
  pub hash_available :
      (oid : Oid) (h : Hash) → hash_from_oid oid ≡ some h → lib.hashes.available h ≡ true
  pub hmac_hash_available :
      (oid : Oid) (h : Hash) → hmac_hash_from_oid oid ≡ some h → lib.hashes.available h ≡ true
  pub block_size_fits : (h : Hash) → lib.block_size h < 2 ^ 63
  pub hmac_nonempty :
      (h : Hash) (k part : Bytes)
      → lib.hashes.available h ≡ true
      → is_empty (lib.hmac h k part) ≡ false

module _ (lib : MacLibrary) (keys : KeyLibrary) (certs : CertificateLibrary)
    (laws : MacLaws lib) where
  -- A sealed message passes the tests before the dispatch.
  verify-sealed :
      (opts : VerifyOptions) (now : Time) (m m' : PkiMessage) (alg : AlgorithmIdentifier) (h : Hash)
      (key : Result Failure Bytes)
      → lib.hashes.available h ≡ true
      → IsSealed lib m alg h key m'
      → verify lib keys certs opts now m' ≡ dispatch lib keys certs opts now m' alg
  unfolding verify
  verify-sealed opts now m m' alg h key linked s =
      let full : is_empty m'.protection ≡ false =
        ap is_empty s.tag ∙ laws.hmac_nonempty h s.k s.part linked in
      rw (s.algorithm, verify) (ground arith)

  mac_allowed : (p : ProtectionMechanism) → p ≢ protection_signature → requires_signature p ≡ false
  mac_allowed p h = ground arith

  verify_pbm-made :
      (opts : VerifyOptions) (m m' : PkiMessage) (alg : AlgorithmIdentifier) (p : PbmParameter)
      (hash mac_hash : Hash)
      → is_empty opts.shared_secret ≡ false
      → unmarshal_pbm lib alg.parameters ≡ ok p
      → validate_pbm_iteration_count p.iteration_count ≡ ok tt
      → hash_from_oid p.owf.algorithm ≡ some hash
      → hmac_hash_from_oid p.mac.algorithm ≡ some mac_hash
      → IsSealed lib m alg mac_hash
          (derive_pbm_key lib opts.shared_secret p.salt p.iteration_count hash mac_hash)
          m'
      → verify_pbm lib keys certs opts m' alg ≡ ok (mac_result (pbm_params p))
  unfolding verify_pbm
  verify_pbm-made opts m m' alg p hash mac_hash secret parsed count owf mac s =
      let tag : bytes_eq (lib.hmac mac_hash s.k s.part) m'.protection ≡ true =
        ap (bytes_eq (lib.hmac mac_hash s.k s.part)) s.tag ∙ bytes_eq_refl _ in
      rw
        (
          verify_pbm,
          secret,
          parsed,
          count,
          owf,
          laws.hash_available p.owf.algorithm hash owf,
          mac,
          laws.hmac_hash_available p.mac.algorithm mac_hash mac,
          s.covers,
          s.derived,
          tag,
        )
        refl

  verify_pbmac1-made :
      (opts : VerifyOptions) (m m' : PkiMessage) (alg : AlgorithmIdentifier) (p : Pbmac1Params)
      (kdf : Pbkdf2Params) (prf_hash mac_hash : Hash) (length : ℤ)
      → is_empty opts.shared_secret ≡ false
      → lib.unmarshal_pbmac1 alg.parameters ≡ some p
      → oid_eq p.key_derivation_func.algorithm oid_pbkdf2 ≡ true
      → parse_pbkdf2_params lib p.key_derivation_func.parameters ≡ ok kdf
      → validate_pbm_iteration_count kdf.iteration_count ≡ ok tt
      → hmac_hash_from_oid kdf.prf.algorithm ≡ some prf_hash
      → hmac_hash_from_oid p.message_auth_scheme.algorithm ≡ some mac_hash
      → int_or kdf.key_length (pos (lib.size mac_hash)) ≡ length
      → validate_pbkdf2_key_length lib length mac_hash ≡ ok tt
      → IsSealed lib m alg mac_hash
          (ok (lib.pbkdf2_key opts.shared_secret kdf.salt kdf.iteration_count length prf_hash))
          m'
      → verify_pbmac1 lib keys certs opts m' alg
        ≡ ok (mac_result (pbmac1_params kdf length p.message_auth_scheme.algorithm))
  unfolding verify_pbmac1
  verify_pbmac1-made opts m m' alg p kdf prf_hash mac_hash length secret parsed is_pbkdf2 kdf_parsed
        count prf mac resolved bounded s =
      let key = lib.pbkdf2_key opts.shared_secret kdf.salt kdf.iteration_count length prf_hash in
      let tag : bytes_eq (lib.hmac mac_hash key s.part) m'.protection ≡ true =
        ap (bytes_eq (lib.hmac mac_hash key s.part))
          (s.tag ∙ ap (λ (k : Bytes). lib.hmac mac_hash k s.part) (sym (ok_injective s.derived)))
        ∙ bytes_eq_refl _ in
      rw
        (
          verify_pbmac1,
          secret,
          parsed,
          is_pbkdf2,
          kdf_parsed,
          count,
          prf,
          laws.hmac_hash_available kdf.prf.algorithm prf_hash prf,
          mac,
          laws.hmac_hash_available p.message_auth_scheme.algorithm mac_hash mac,
          resolved,
          bounded,
          s.covers,
          tag,
        )
        refl

  dispatch-pbm :
      (opts : VerifyOptions) (now : Time) (m : PkiMessage) (alg : AlgorithmIdentifier)
      → alg.algorithm ≡ oid_password_based_mac
      → requires_signature opts.required_protection ≡ false
      → dispatch lib keys certs opts now m alg ≡ verify_pbm lib keys certs opts m alg
  unfolding dispatch bytes_eq
  dispatch-pbm opts now m alg e allowed = rw (dispatch, e, allowed) refl

  dispatch-pbmac1 :
      (opts : VerifyOptions) (now : Time) (m : PkiMessage) (params : Bytes)
      → requires_signature opts.required_protection ≡ false
      → dispatch lib keys certs opts now m (record { algorithm = oid_pbmac1; parameters = params })
        ≡ verify_pbmac1 lib keys certs opts m
            (record { algorithm = oid_pbmac1; parameters = params })
  unfolding dispatch bytes_eq
  dispatch-pbmac1 opts now m params allowed = rw (dispatch, allowed) refl

  -- A message that PasswordBasedMac protected verifies with the secret.
  pub verify-protect_with_mac_options :
      (o : MacOptions) (salt : Bytes) (m m' : PkiMessage) (opts : VerifyOptions) (now : Time)
      → o.algorithm ≡ oid_password_based_mac
      → IsElement lib.cryptobyte o.owf_parameters
      → IsElement lib.cryptobyte o.mac_parameters
      → opts.shared_secret ≡ o.secret
      → opts.required_protection ≢ protection_signature
      → protect_with_mac_options lib o salt m ≡ ok m'
      → (r : VerifyResult) × (verify lib keys certs opts now m' ≡ ok r) × (r.mac_verified ≡ true)
  unfolding protect_with_mac_options
  verify-protect_with_mac_options o salt m m' opts now algorithm owf_whole mac_whole same allowed
        h =
      let iterations = int_or o.iteration_count default_pbm_iteration_count in
      let owf = oid_or o.owf oid_sha256 in
      let mac = oid_or o.mac oid_hmac_with_sha256 in
      let p : PbmParameter = record {
        salt = salt;
        owf = record { algorithm = owf; parameters = o.owf_parameters };
        iteration_count = iterations;
        mac = record { algorithm = mac; parameters = o.mac_parameters };
      } in
      let (_, guards, h1) =
        bind_ok
          (refuse (not (is_some m.body)) parse_failure
            >> refuse (is_empty o.secret) (protection_failure missing_shared_secret)
            >> refuse (is_empty o.algorithm) parse_failure
            >> validate_pbm_iteration_count iterations)
          _ m' h in
      let (hash, hash_known, h2) = bind_ok (or_fail parse_failure (hash_from_oid owf)) _ m' h1 in
      let (mac_hash, mac_known, h3) =
        bind_ok (or_fail parse_failure (hmac_hash_from_oid mac)) _ m' h2 in
      let (params, marshalled, h4) = bind_ok (or_fail other_failure (marshal_pbm lib p)) _ m' h3 in
      let (_, nonempty, count) =
        bind_ok
          (refuse (not (is_some m.body)) parse_failure
            >> refuse (is_empty o.secret) (protection_failure missing_shared_secret)
            >> refuse (is_empty o.algorithm) parse_failure)
          _ tt guards in
      let (_, nonempty1, _) =
        bind_ok
          (refuse (not (is_some m.body)) parse_failure
            >> refuse (is_empty o.secret) (protection_failure missing_shared_secret))
          _ tt nonempty in
      let (_, _, secret) = bind_ok (refuse (not (is_some m.body)) parse_failure) _ tt nonempty1 in
      let alg : AlgorithmIdentifier = record { algorithm = o.algorithm; parameters = params } in
      let parsed =
        unmarshal_pbm-marshal_pbm lib p params laws.cryptobyte owf_whole mac_whole count
          (or_fail_ok _ _ _ marshalled) in
      let sealed = seal-IsSealed lib m alg mac_hash _ m' h4 in
      let made =
        verify_pbm-made opts m m' alg p hash mac_hash (ap is_empty same ∙ refuse_ok _ _ _ secret)
          parsed count (or_fail_ok _ _ _ hash_known) (or_fail_ok _ _ _ mac_known)
          (subst
            (λ (k : Bytes).
              IsSealed lib m alg mac_hash (derive_pbm_key lib k salt iterations hash mac_hash) m')
            (sym same) sealed) in
      (
        mac_result (pbm_params p),
        verify-sealed opts now m m' alg mac_hash _
              (laws.hmac_hash_available mac mac_hash (or_fail_ok _ _ _ mac_known)) sealed
            ∙ dispatch-pbm opts now m' alg algorithm (mac_allowed opts.required_protection allowed)
            ∙ made,
        refl,
      )

  oid_or-default :
      (prf : Oid)
      → is_empty prf ≡ false
      → oid_or (if oid_eq prf oid_hmac_with_sha1 then [] else prf) oid_hmac_with_sha1 ≡ prf
  oid_or-default prf h = elim (Bool-cases (oid_eq prf oid_hmac_with_sha1)) [
    | inl same ↦ rw same (sym (bytes_eq_sound prf oid_hmac_with_sha1 same))
    | inr other ↦ rw (other, h) refl
  ]

  int_or-twice : (n d : ℤ) → int_or (int_or n d) d ≡ int_or n d
  int_or-twice n d = elim (Bool-cases (eqb_ℤ n (pos 0))) [
    | inl e ↦ rw e (elim (Bool-cases (eqb_ℤ d (pos 0))) [ inl f ↦ rw f refl | inr f ↦ rw f refl ])
    | inr e ↦ rw e (rw e refl)
  ]

  -- A length of a key that is accepted is at most that of a block.
  validate_pbkdf2_key_length-FitsInt64 :
      (n : ℤ) (h : Hash) → validate_pbkdf2_key_length lib n h ≡ ok tt → FitsInt64 n
  unfolding validate_pbkdf2_key_length
  validate_pbkdf2_key_length-FitsInt64 n h e =
      let small = laws.block_size_fits h in record { upper = ground arith; lower = ground arith }

  -- The parameters of PBMAC1 are read back as they were written, the default prf included.
  marshal_pbmac1_params_lem :
      (salt : Bytes) (iterations length : ℤ) (prf mac : Oid) (e : Bytes)
      → is_empty prf ≡ false
      → FitsInt64 iterations
      → FitsInt64 length
      → marshal_pbmac1_params lib salt iterations length prf mac ≡ some e
      → (der : Bytes) × (lib.unmarshal_pbmac1 e
          ≡ some (record {
            key_derivation_func = record { algorithm = oid_pbkdf2; parameters = der };
            message_auth_scheme = record { algorithm = mac; parameters = [] };
          }))
        × (parse_pbkdf2_params lib der
            ≡ ok (record {
              salt = salt;
              iteration_count = iterations;
              key_length = length;
              prf = record { algorithm = prf; parameters = [] };
            }))
  unfolding marshal_pbmac1_params parse_pbkdf2_params
  marshal_pbmac1_params_lem salt iterations length prf mac e named small short h =
      elim (Option-cases (lib.marshal_pbkdf2 (pbkdf2_params lib salt iterations length prf))) [
        | inl bad ↦ ground arith
        | inr (der, good) ↦ (
          der,
          laws.pbmac1_asn1 _ _ e good refl (ground arith),
          rw (laws.pbkdf2_asn1 _ der small short refl good, parse_pbkdf2_params)
              (ap
                (λ (oid : Oid). ok (record {
                  salt = salt;
                  iteration_count = iterations;
                  key_length = length;
                  prf = record { algorithm = oid; parameters = [] };
                }))
                (oid_or-default prf named)),
        )
      ]

  -- A message that PBMAC1 protected verifies with the secret.
  pub verify-protect_with_pbmac1_options :
      (o : Pbmac1Options) (salt : Bytes) (m m' : PkiMessage) (opts : VerifyOptions) (now : Time)
      → opts.shared_secret ≡ o.secret
      → opts.required_protection ≢ protection_signature
      → protect_with_pbmac1_options lib o salt m ≡ ok m'
      → (r : VerifyResult) × (verify lib keys certs opts now m' ≡ ok r) × (r.mac_verified ≡ true)
  unfolding protect_with_pbmac1_options bytes_eq
  verify-protect_with_pbmac1_options o salt m m' opts now same allowed h =
      let iterations = int_or o.iteration_count default_pbm_iteration_count in
      let prf = oid_or o.prf oid_hmac_with_sha256 in
      let mac = oid_or o.mac oid_hmac_with_sha256 in
      let (_, guards, h1) =
        bind_ok
          (refuse (not (is_some m.body)) parse_failure
            >> refuse (is_empty o.secret) (protection_failure missing_shared_secret)
            >> validate_pbm_iteration_count iterations)
          _ m' h in
      let (mac_hash, mac_known, h2) =
        bind_ok (or_fail parse_failure (hmac_hash_from_oid mac)) _ m' h1 in
      let (prf_hash, prf_known, h3) =
        bind_ok (or_fail parse_failure (hmac_hash_from_oid prf)) _ m' h2 in
      let length = int_or o.key_length (pos (lib.size mac_hash)) in
      let (_, bounded, h4) = bind_ok (validate_pbkdf2_key_length lib length mac_hash) _ m' h3 in
      let (params, marshalled, h5) =
        bind_ok (or_fail other_failure (marshal_pbmac1_params lib salt iterations length prf mac)) _
          m' h4 in
      let (_, nonempty, count) =
        bind_ok
          (refuse (not (is_some m.body)) parse_failure
            >> refuse (is_empty o.secret) (protection_failure missing_shared_secret))
          _ tt guards in
      let (_, _, secret) = bind_ok (refuse (not (is_some m.body)) parse_failure) _ tt nonempty in
      let alg : AlgorithmIdentifier = record { algorithm = oid_pbmac1; parameters = params } in
      let (der, parsed, parsed_kdf) =
        marshal_pbmac1_params_lem salt iterations length prf mac params (ground arith)
          (validate_pbm_iteration_count-FitsInt64 lib iterations count)
          (validate_pbkdf2_key_length-FitsInt64 length mac_hash bounded)
          (or_fail_ok _ _ _ marshalled) in
      let sealed = seal-IsSealed lib m alg mac_hash _ m' h5 in
      let made =
        verify_pbmac1-made opts m m' alg _ _ prf_hash mac_hash length
          (ap is_empty same ∙ refuse_ok _ _ _ secret) parsed refl parsed_kdf count
          (or_fail_ok _ _ _ prf_known) (or_fail_ok _ _ _ mac_known)
          (int_or-twice o.key_length (pos (lib.size mac_hash))) bounded
          (subst
            (λ (k : Bytes).
              IsSealed lib m alg mac_hash (ok (lib.pbkdf2_key k salt iterations length prf_hash))
                m')
            (sym same) sealed) in
      (
        _,
        verify-sealed opts now m m' alg mac_hash _
              (laws.hmac_hash_available mac mac_hash (or_fail_ok _ _ _ mac_known)) sealed
            ∙ dispatch-pbmac1 opts now m' params (mac_allowed opts.required_protection allowed)
            ∙ made,
        refl,
      )
