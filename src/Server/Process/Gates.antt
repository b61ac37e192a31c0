-- ===== src/Server/Process/Gates.antt =====
-- Which requests change anything: only those whose protection verified, and forwarded ones only with
-- the consent of the authorizer.
use go_pkicmp_ng.Prelude.{
  ◌≡◌, ◌⊎◌, inl, inr, true, false, ◌||◌, Option, some, Bytes, is_empty, arith, Option-cases,
  Bool-cases,
}
use go_pkicmp_ng.Prelude.Int.{pos, ltb_ℤ}
use go_pkicmp_ng.Prelude.Result.{ok, ok_or_err}
use go_pkicmp_ng.Pkicmp.Types.{Opaque, Certificate, RdnSequence, AlgorithmIdentifier}
use go_pkicmp_ng.Pkicmp.Message.{Request}
use go_pkicmp_ng.Server.Config.{Env, Config, SenderIdentity, Handler}
use go_pkicmp_ng.Server.Protection.{
  Access, is_mac_algorithm, verify_protection, verify_mac_protection, verify_signature_protection,
}
use go_pkicmp_ng.Server.Header.{verify_recipient}
use go_pkicmp_ng.Server.Process.{authenticate}

-- The protection of a request verified: with the secret that the lookup gives for its sender, or with
-- the certificate that the lookup gives.
pub IsAuthentic : Config → Access → Request → SenderIdentity → Type 0
IsAuthentic cfg access req sender =
    (is_empty req.protection ≡ false)
    × ((alg : AlgorithmIdentifier) × (req.header.protection_alg ≡ some alg)
        × (((find : RdnSequence → Bytes → Option Bytes) × (params : Option Opaque)
              × (is_mac_algorithm alg.algorithm ≡ true)
              × (access.secret_lookup ≡ some find)
              × (find req.header.sender.directory_name req.header.sender_kid ≡ some sender.secret)
              × (access.verify_mac req sender.secret ≡ ok params)
              × (sender.mac_verified ≡ true))
            ⊎ ((find : RdnSequence → RdnSequence → Bytes → Option Certificate)
                × (cert : Certificate) × (access.certificate_lookup ≡ some find)
                × (find req.header.recipient.directory_name req.header.sender.directory_name
                      req.header.sender_kid
                    ≡ some cert)
                × (access.verify_signature req cert cfg.allow_sha1_signatures ≡ ok tt)
                × (sender.certificate ≡ some cert)
                × (sender.mac_verified ≡ false))))

verify_mac_protection-cases :
    (env : Env) (cfg : Config) (access : Access) (req : Request) (sender : SenderIdentity)
    → verify_mac_protection env cfg access req ≡ ok sender
    → (find : RdnSequence → Bytes → Option Bytes) × (params : Option Opaque) × (access.secret_lookup
        ≡ some find)
      × (find req.header.sender.directory_name req.header.sender_kid ≡ some sender.secret)
      × (access.verify_mac req sender.secret ≡ ok params)
      × (sender.mac_verified ≡ true)
unfolding verify_mac_protection
verify_mac_protection-cases env cfg access req sender h = elim (Option-cases access.secret_lookup) [
  | inl nowhere ↦ ground arith
  | inr (find, has) ↦
      elim (Option-cases (find req.header.sender.directory_name req.header.sender_kid)) [
        | inl unknown ↦ ground arith
        | inr (secret, known) ↦ elim (ok_or_err (access.verify_mac req secret)) [
          | inr (e, bad) ↦ ground arith
          | inl (params, good) ↦ (find, params, has, ground arith, ground arith, ground arith)
        ]
      ]
]

verify_signature_protection-cases :
    (env : Env) (cfg : Config) (access : Access) (req : Request) (sender : SenderIdentity)
    → verify_signature_protection env cfg access req ≡ ok sender
    → (find : RdnSequence → RdnSequence → Bytes → Option Certificate) × (cert : Certificate)
      × (access.certificate_lookup ≡ some find)
      × (find req.header.recipient.directory_name req.header.sender.directory_name
            req.header.sender_kid
          ≡ some cert)
      × (access.verify_signature req cert cfg.allow_sha1_signatures ≡ ok tt)
      × (sender.certificate ≡ some cert)
      × (sender.mac_verified ≡ false)
unfolding verify_signature_protection
verify_signature_protection-cases env cfg access req sender h =
    elim (Option-cases access.certificate_lookup) [
      | inl nowhere ↦ ground arith
      | inr (find, has) ↦
          elim (Option-cases (
            find req.header.recipient.directory_name req.header.sender.directory_name
              req.header.sender_kid)) [
                | inl unknown ↦ ground arith
                | inr (cert, known) ↦
                    elim (ok_or_err (access.verify_signature req cert cfg.allow_sha1_signatures)) [
                      | inr (e, bad) ↦ ground arith
                      | inl (_, good) ↦
                          (find, cert, has, known, ground arith, ground arith, ground arith)
                    ]
              ]
    ]

verify_protection-IsAuthentic :
    (env : Env) (cfg : Config) (access : Access) (req : Request) (sender : SenderIdentity)
    → verify_protection env cfg access req ≡ ok sender
    → IsAuthentic cfg access req sender
unfolding verify_protection IsAuthentic
verify_protection-IsAuthentic env cfg access req sender h =
    elim (Option-cases req.header.protection_alg) [
      | inl unprotected ↦ ground arith
      | inr (alg, has) ↦ elim (Bool-cases (is_mac_algorithm alg.algorithm)) [
        | inl mac ↦
            let (find, params, a, b, c, d) =
              verify_mac_protection-cases env cfg access req sender (ground arith) in
            (ground arith, (alg, has, inl (find, params, mac, a, b, c, d)))
        | inr signed ↦ (
          ground arith,
          (
            alg,
            has,
            inr (verify_signature_protection-cases env cfg access req sender (ground arith)),
          ),
        )
      ]
    ]

-- What is known of a request that passed the first checks.
pub record IsAdmitted (env : Env) (cfg : Config) (access : Access) (req : Request)
    (sender : SenderIdentity) : Type 0 where
  pub configured : cfg.signer_err ≡ false
  pub version : (ltb_ℤ req.header.pvno (pos 2) || ltb_ℤ (pos 3) req.header.pvno) ≡ false
  pub recipient : verify_recipient env cfg access req.header ≡ true
  pub authentic : IsAuthentic cfg access req sender

pub authenticate-IsAdmitted :
    (env : Env) (cfg : Config) (access : Access) (handle : Handler) (req : Request)
    (sender : SenderIdentity)
    → authenticate env cfg access handle req ≡ ok sender
    → IsAdmitted env cfg access req sender
unfolding authenticate
authenticate-IsAdmitted env cfg access handle req sender h = record {
  configured = ground arith;
  version = ground arith;
  recipient = ground arith;
  authentic = verify_protection-IsAuthentic env cfg access req sender (ground arith);
}
