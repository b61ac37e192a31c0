-- ===== src/Pkicmp/Verify/Signers.antt =====
-- pkicmp/verify.go: what an accepted signature shows.
use go_pkicmp_ng.Prelude.{
  ◌≡◌, refl, subst, ◌⊎◌, inl, inr, true, false, not, ◌&&◌, ◌||◌, none, some, List, [], ◌∷◌, Bytes,
  ltb, arith, Bool-cases, Option-cases,
}
use go_pkicmp_ng.Prelude.Result.{ok, bind_ok, ok_or_err}
use go_pkicmp_ng.Pkicmp.Types.{Time, Opaque, Certificate, AlgorithmIdentifier}
use go_pkicmp_ng.Pkicmp.Pop.{KeyLibrary}
use go_pkicmp_ng.Pkicmp.Protect.{PkiMessage, MacLibrary, protected_part}
use go_pkicmp_ng.Pkicmp.Verify.{
  VerifyOptions, VerifyResult, CertificateLibrary, Checker, Tally, Verdict, accepted, rejected,
  no_tally, verify_signature, verify_trusted, verify_chain, try_candidate, try_candidates,
  parsed_certificates, check_with, chains_to, has_kid, permitted_to_sign,
  sender_matches_certificate, signature_checker, signature_result,
}
use go_pkicmp_ng.Certpath.Spec.{Among, first, later}

module _ (mac : MacLibrary) (keys : KeyLibrary) (certs : CertificateLibrary) where
  -- Why a signer is trusted: the verifier resolved its certificate, which is valid at the time; or it
  -- is one of the extra certificates, has the key identifier asked for, and chains to the pool.
  pub data IsTrusted (opts : VerifyOptions) (now : Time) (cert : Certificate) : Type 0 where
    resolved :
        opts.trusted_cert ≡ some cert
        → (ltb now cert.not_before || ltb cert.not_after now) ≡ false
        → IsTrusted opts now cert
    chained :
        (pool : Opaque)
        → opts.trusted_cert ≡ none
        → opts.trust_pool ≡ some pool
        → Among cert (parsed_certificates mac keys certs opts.extra_certs)
        → has_kid opts cert ≡ true
        → chains_to mac keys certs pool
            (parsed_certificates mac keys certs opts.extra_certs)
            now
            cert
          ≡ true
        → IsTrusted opts now cert

  -- A signer accepts a message: its subject prints as the sender's directory name, where there is one; it
  -- may sign, where that is required; and its key verifies the protection of the protected part.
  pub record IsSigner (opts : VerifyOptions) (m : PkiMessage) (check : Checker) (part : Bytes)
      (cert : Certificate) : Type 0 where
    pub named : sender_matches_certificate mac keys certs m.header.sender cert ≡ true
    pub permitted :
        (opts.require_digital_signature_key_usage && not (permitted_to_sign cert)) ≡ false
    pub signature : check_with mac keys certs check cert part m.protection ≡ true

  verify_trusted-IsSigner :
      (opts : VerifyOptions) (now : Time) (m : PkiMessage) (check : Checker) (part : Bytes)
      (cert : Certificate) (r : VerifyResult)
      → verify_trusted mac keys certs opts now m check part cert ≡ ok r
      → ((ltb now cert.not_before || ltb cert.not_after now) ≡ false)
        × IsSigner opts m check part cert
        × (r ≡ signature_result cert)
  unfolding verify_trusted
  verify_trusted-IsSigner opts now m check part cert r h =
      let valid = ltb now cert.not_before || ltb cert.not_after now in
      let may_sign = opts.require_digital_signature_key_usage && not (permitted_to_sign cert) in
      elim (Bool-cases valid) [
        | inl e ↦ ground arith
        | inr valid_now ↦
            elim (Bool-cases (sender_matches_certificate mac keys certs m.header.sender cert)) [
              | inr e ↦ ground arith
              | inl named ↦ elim (Bool-cases may_sign) [
                | inl e ↦ ground arith
                | inr permitted ↦
                    elim (Bool-cases (check_with mac keys certs check cert part m.protection)) [
                      | inr e ↦ ground arith
                      | inl good ↦ (
                        valid_now,
                        record { named = named; permitted = permitted; signature = good },
                        ground arith,
                      )
                    ]
              ]
            ]
      ]

  -- The candidate that the loop accepts.
  try_candidate-IsSigner :
      (opts : VerifyOptions) (pool : Opaque) (intermediates : List Certificate) (now : Time)
      (m : PkiMessage) (check : Checker) (part : Bytes) (cert : Certificate) (t : Tally)
      → try_candidate mac keys certs opts pool intermediates now m check part cert t ≡ accepted
      → IsSigner opts m check part cert
        × (has_kid opts cert ≡ true)
        × (chains_to mac keys certs pool intermediates now cert ≡ true)
  unfolding try_candidate
  try_candidate-IsSigner opts pool intermediates now m check part cert t h = (
    record { named = ground arith; permitted = ground arith; signature = ground arith },
    ground arith,
    ground arith,
  )

  try_candidates-IsSigner :
      (opts : VerifyOptions) (pool : Opaque) (intermediates : List Certificate) (now : Time)
      (m : PkiMessage) (check : Checker) (part : Bytes) (cs : List Certificate) (t : Tally)
      (cert : Certificate)
      → try_candidates mac keys certs opts pool intermediates now m check part cs t ≡ ok cert
      → Among cert cs
        × IsSigner opts m check part cert
        × (has_kid opts cert ≡ true)
        × (chains_to mac keys certs pool intermediates now cert ≡ true)
  unfolding try_candidates
  try_candidates-IsSigner opts pool intermediates now m check part [] t cert h = ground arith
  try_candidates-IsSigner opts pool intermediates now m check part (c ∷ cs) t cert h =
      elim (verdict-cases
        (try_candidate mac keys certs opts pool intermediates now m check part c t)) [
          | inl taken ↦
              let same : c ≡ cert = ground arith in
              let (signer, kid, chain) =
                try_candidate-IsSigner opts pool intermediates now m check part c t taken in
              subst
                (λ d.
                  Among d (c ∷ cs)
                  × IsSigner opts m check part d
                  × (has_kid opts d ≡ true)
                  × (chains_to mac keys certs pool intermediates now d ≡ true))
                same (first, signer, kid, chain)
          | inr (t', passed) ↦
              let (among, signer, kid, chain) =
                try_candidates-IsSigner opts pool intermediates now m check part cs t' cert
                  (ground arith) in
              (later among, signer, kid, chain)
        ]
    where
      verdict-cases : (v : Verdict) → (v ≡ accepted) ⊎ ((t : Tally) × (v ≡ rejected t))
      verdict-cases accepted = inl refl
      verdict-cases (rejected t) = inr (t, refl)

  -- A signature was accepted: the protection covers the protected part, under a signer that is trusted,
  -- and the result names it.
  pub record IsSignatureAccepted (opts : VerifyOptions) (now : Time) (m : PkiMessage)
      (alg : AlgorithmIdentifier) (r : VerifyResult) : Type 0 where
    pub check : Checker
    pub part : Bytes
    pub cert : Certificate
    pub checker : signature_checker mac keys certs alg opts.allow_sha1_signatures ≡ ok check
    pub covers : protected_part mac m ≡ ok part
    pub signer : IsSigner opts m check part cert
    pub trusted : IsTrusted opts now cert
    pub result : r ≡ signature_result cert

  verify_chain-IsSigner :
      (opts : VerifyOptions) (now : Time) (m : PkiMessage) (check : Checker) (part : Bytes)
      (pool : Opaque) (r : VerifyResult)
      → opts.trusted_cert ≡ none
      → opts.trust_pool ≡ some pool
      → verify_chain mac keys certs opts now m check part pool ≡ ok r
      → (cert : Certificate) × IsSigner opts m check part cert
        × IsTrusted opts now cert
        × (r ≡ signature_result cert)
  unfolding verify_chain
  verify_chain-IsSigner opts now m check part pool r untrusted has_pool h =
      let cs = parsed_certificates mac keys certs opts.extra_certs in
      elim (ok_or_err (try_candidates mac keys certs opts pool cs now m check part cs no_tally)) [
        | inr (t, failed) ↦ ground arith
        | inl (cert, found) ↦
            let (among, signer, kid, chain) =
              try_candidates-IsSigner opts pool cs now m check part cs no_tally cert found in
            (cert, signer, chained pool untrusted has_pool among kid chain, ground arith)
      ]

  pub verify_signature-IsSignatureAccepted :
      (opts : VerifyOptions) (now : Time) (m : PkiMessage) (alg : AlgorithmIdentifier)
      (r : VerifyResult)
      → verify_signature mac keys certs opts now m alg ≡ ok r
      → IsSignatureAccepted opts now m alg r
  unfolding verify_signature
  verify_signature-IsSignatureAccepted opts now m alg r h =
      let (check, checker, h1) =
        bind_ok (signature_checker mac keys certs alg opts.allow_sha1_signatures) _ r h in
      let (part, covers, h2) = bind_ok (protected_part mac m) _ r h1 in
      elim (Option-cases opts.trusted_cert) [
        | inr (cert, resolved_cert) ↦
            let (valid, signer, result) =
              verify_trusted-IsSigner opts now m check part cert r (ground arith) in
            record {
              check = check;
              part = part;
              cert = cert;
              checker = checker;
              covers = covers;
              signer = signer;
              trusted = resolved resolved_cert valid;
              result = result;
            }
        | inl untrusted ↦ elim (Option-cases opts.trust_pool) [
          | inl no_pool ↦ ground arith
          | inr (pool, has_pool) ↦
              let (cert, signer, trusted, result) =
                verify_chain-IsSigner opts now m check part pool r untrusted has_pool
                  (ground arith) in
              record {
                check = check;
                part = part;
                cert = cert;
                checker = checker;
                covers = covers;
                signer = signer;
                trusted = trusted;
                result = result;
              }
        ]
      ]
