-- ===== src/Pkicmp/Verify/Shared.antt =====
-- pkicmp/credentials.go and verify.go: credentials with a shared secret, and a verifier that has it.
use go_pkicmp_ng.Prelude.{
  ◌≡◌, ◌≢◌, ◌⊎◌, inl, inr, refl, true, none, [], Bytes, bytes_eq, arith, Bool-cases,
}
use go_pkicmp_ng.Prelude.Result.{ok}
use go_pkicmp_ng.Pkicmp.Types.{Time}
use go_pkicmp_ng.Pkicmp.Algorithms.{oid_eq, oid_password_based_mac, oid_pbmac1}
use go_pkicmp_ng.Pkicmp.Pop.{KeyLibrary}
use go_pkicmp_ng.Pkicmp.Der.AlgorithmIdentifiers.{IsElement}
use go_pkicmp_ng.Pkicmp.Protect.{PkiMessage, MacLibrary, oid_or}
use go_pkicmp_ng.Pkicmp.Credentials.{
  MacCredentials, MacCredentialConfig, mac_options_of, pbmac1_options_of, mac_credentials_protect,
}
use go_pkicmp_ng.Pkicmp.Verify.{
  VerifyOptions, VerifyResult, CertificateLibrary, protection_signature, verify,
}
use go_pkicmp_ng.Pkicmp.Verify.RoundTrip.{
  MacLaws, verify-protect_with_mac_options, verify-protect_with_pbmac1_options,
}

-- Credentials that name their own algorithm: none, which is PBMAC1, or one of the two.
pub record IsOwnSuite (lib : MacLibrary) (c : MacCredentialConfig) : Type 0 where
  pub not_echoed : c.protection_alg ≡ none
  pub suite :
      (c.algorithm ≡ []) ⊎ ((c.algorithm ≡ oid_pbmac1) ⊎ (c.algorithm ≡ oid_password_based_mac))
  pub owf_parameters : IsElement lib.cryptobyte c.owf_parameters
  pub mac_parameters : IsElement lib.cryptobyte c.mac_parameters

own_suite :
    (c : MacCredentialConfig)
    → (c.algorithm ≡ []) ⊎ ((c.algorithm ≡ oid_pbmac1) ⊎ (c.algorithm ≡ oid_password_based_mac))
    → (oid_eq (oid_or c.algorithm oid_pbmac1) oid_pbmac1 ≡ true)
      ⊎ (oid_or c.algorithm oid_pbmac1 ≡ oid_password_based_mac)
unfolding bytes_eq
own_suite c (inl e) = inl (rw e refl)
own_suite c (inr (inl e)) = inl (rw e refl)
own_suite c (inr (inr e)) = inr (rw e refl)

module _ (lib : MacLibrary) (keys : KeyLibrary) (certs : CertificateLibrary)
    (laws : MacLaws lib) where
  -- Whatever credentials with a shared secret protect, under PBMAC1 or PasswordBasedMac, not under the
  -- algorithm of a received message, and with algorithm parameters that are absent or one DER element,
  -- verifies for a verifier that has the secret and does not require a signature, and as a MAC, where the
  -- libraries have the laws of MacLaws.
  pub verify-mac_credentials_protect :
      (c : MacCredentials) (salt : Bytes) (m m' : PkiMessage) (opts : VerifyOptions) (now : Time)
      → IsOwnSuite lib c.config
      → opts.shared_secret ≡ c.secret
      → opts.required_protection ≢ protection_signature
      → mac_credentials_protect lib c salt m ≡ ok m'
      → (r : VerifyResult) × (verify lib keys certs opts now m' ≡ ok r) × (r.mac_verified ≡ true)
  unfolding mac_credentials_protect
  verify-mac_credentials_protect c salt m m' opts now own same allowed h =
      let chosen = oid_or c.config.algorithm oid_pbmac1 in
      let with_pbmac1 =
        verify-protect_with_pbmac1_options lib keys certs laws (pbmac1_options_of c) salt m m' opts
          now same allowed in
      elim (Bool-cases (oid_eq chosen oid_pbmac1)) [
        | inl pbmac1 ↦ with_pbmac1 (ground (arith, own.not_echoed))
        | inr other ↦ elim (own_suite c.config own.suite) [
          | inl pbmac1 ↦ ground arith
          | inr pbm ↦
              verify-protect_with_mac_options lib keys certs laws (mac_options_of c chosen) salt m
                m' opts now pbm own.owf_parameters own.mac_parameters same allowed
                (ground (arith, own.not_echoed))
        ]
      ]
