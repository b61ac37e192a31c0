-- ===== src/Pkicmp/Verify/Accepted.antt =====
-- pkicmp/verify.go: what an accepted message shows.
use go_pkicmp_ng.Prelude.{
  ◌≡◌, ◌≢◌, inl, inr, false, some, is_empty, arith, Bool-cases, Option-cases,
}
use go_pkicmp_ng.Prelude.Result.{ok}
use go_pkicmp_ng.Pkicmp.Types.{Time, AlgorithmIdentifier}
use go_pkicmp_ng.Pkicmp.Algorithms.{oid_eq, oid_password_based_mac}
use go_pkicmp_ng.Pkicmp.Pop.{KeyLibrary}
use go_pkicmp_ng.Pkicmp.Protect.{PkiMessage, MacLibrary}
use go_pkicmp_ng.Pkicmp.Verify.{
  VerifyOptions, VerifyResult, CertificateLibrary, ProtectionMechanism, protection_mac,
  protection_signature, verify, dispatch, is_mac, is_signature, requires_mac, requires_signature,
}
use go_pkicmp_ng.Pkicmp.Verify.MacAccepted.{
  IsMacAccepted, IsPbmKey, IsPbmac1Key, verify_pbm-IsMacAccepted, verify_pbmac1-IsMacAccepted,
}
use go_pkicmp_ng.Pkicmp.Verify.Signers.{IsSignatureAccepted, verify_signature-IsSignatureAccepted}

module _ (mac : MacLibrary) (keys : KeyLibrary) (certs : CertificateLibrary) where
  -- What an accepted message shows, by the kind of its protection algorithm, which is the kind that the
  -- caller requires.
  pub data IsAccepted (opts : VerifyOptions) (now : Time) (m : PkiMessage)
      (alg : AlgorithmIdentifier) (r : VerifyResult) : Type 0 where
    by_pbm :
        opts.required_protection ≢ protection_signature
        → IsMacAccepted mac opts m alg (IsPbmKey mac opts.shared_secret alg) r
        → IsAccepted opts now m alg r
    by_pbmac1 :
        opts.required_protection ≢ protection_signature
        → IsMacAccepted mac opts m alg (IsPbmac1Key mac opts.shared_secret alg) r
        → IsAccepted opts now m alg r
    by_signature :
        opts.required_protection ≢ protection_mac
        → IsSignatureAccepted mac keys certs opts now m alg r
        → IsAccepted opts now m alg r

  no_signature : (p : ProtectionMechanism) → requires_signature p ≡ false → p ≢ protection_signature
  no_signature p h e = ground arith

  no_mac : (p : ProtectionMechanism) → requires_mac p ≡ false → p ≢ protection_mac
  no_mac p h e = ground arith

  dispatch-IsAccepted :
      (opts : VerifyOptions) (now : Time) (m : PkiMessage) (alg : AlgorithmIdentifier)
      (r : VerifyResult)
      → dispatch mac keys certs opts now m alg ≡ ok r
      → IsAccepted opts now m alg r
  unfolding dispatch
  dispatch-IsAccepted opts now m alg r h = elim (Bool-cases (is_mac alg.algorithm)) [
    | inl by_mac ↦ elim (Bool-cases (requires_signature opts.required_protection)) [
      | inl e ↦ ground arith
      | inr allowed ↦ elim (Bool-cases (oid_eq alg.algorithm oid_password_based_mac)) [
        | inl pbm ↦
            by_pbm (no_signature opts.required_protection allowed)
              (verify_pbm-IsMacAccepted mac keys certs opts m alg r (ground arith))
        | inr pbmac1 ↦
            by_pbmac1 (no_signature opts.required_protection allowed)
              (verify_pbmac1-IsMacAccepted mac keys certs opts m alg r (ground arith))
      ]
    ]
    | inr other ↦ elim (Bool-cases (is_signature mac keys certs alg.algorithm)) [
      | inr e ↦ ground arith
      | inl signed ↦ elim (Bool-cases (requires_mac opts.required_protection)) [
        | inl e ↦ ground arith
        | inr allowed ↦
            by_signature (no_mac opts.required_protection allowed)
              (verify_signature-IsSignatureAccepted mac keys certs opts now m alg r (ground arith))
      ]
    ]
  ]

  -- A message is accepted only by the mechanism that the caller requires, and then its protection is
  -- the MAC of its protected part under a key that the shared secret gives with bounded work, or a
  -- signature of that part by a certificate that is trusted. The subject of that certificate prints
  -- as the sender's directory name, where the sender has one; and where the caller requires it, the
  -- certificate's key usage permits signing.
  pub verify-IsAccepted :
      (opts : VerifyOptions) (now : Time) (m : PkiMessage) (r : VerifyResult)
      → verify mac keys certs opts now m ≡ ok r
      → (alg : AlgorithmIdentifier) × (m.header.protection_alg ≡ some alg)
        × (is_empty m.protection ≡ false)
        × IsAccepted opts now m alg r
  unfolding verify
  verify-IsAccepted opts now m r h = elim (Option-cases m.header.protection_alg) [
    | inl absent ↦ ground arith
    | inr (alg, present) ↦
        (alg, present, ground arith, dispatch-IsAccepted opts now m alg r (ground arith))
  ]
