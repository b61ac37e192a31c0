-- ===== src/Pkicmp/Verify/Reasons.antt =====
-- pkicmp/verify.go: the reason that is given when no candidate signed.
use go_pkicmp_ng.Prelude.{
  ◌≡◌, refl, ◌⊎◌, inl, inr, Bool, false, not, ◌&&◌, ◌||◌, List, [], ◌∷◌, Bytes, if◌then◌else◌,
  arith, Bool-cases, ◌==◌,
}
use go_pkicmp_ng.Prelude.Result.{err, ok_or_err}
use go_pkicmp_ng.Pkicmp.Types.{Time, Opaque, Certificate}
use go_pkicmp_ng.Pkicmp.Errors.{
  InvalidReason, Failure, verification_failure, no_candidate_signer, sender_mismatch,
  key_usage_not_permitted, signature_failed,
}
use go_pkicmp_ng.Pkicmp.Pop.{KeyLibrary}
use go_pkicmp_ng.Pkicmp.Protect.{PkiMessage, MacLibrary}
use go_pkicmp_ng.Pkicmp.Verify.{
  VerifyOptions, CertificateLibrary, Checker, Tally, Verdict, accepted, rejected, no_tally, has_kid,
  chains_to, sender_matches_certificate, permitted_to_sign, try_candidate, try_candidates,
  tally_reason, verify_chain, parsed_certificates,
}

any_of : (Certificate → Bool) → List Certificate → Bool
any_of p [] = false
any_of p (c ∷ cs) = p c || any_of p cs

module _ (mac : MacLibrary) (keys : KeyLibrary) (certs : CertificateLibrary) (opts : VerifyOptions)
    (now : Time) (m : PkiMessage) (check : Checker) (part : Bytes) (pool : Opaque)
    (all : List Certificate) where
  -- A candidate that is trusted under the pool.
  is_trusted_candidate : Certificate → Bool
  is_trusted_candidate cert = has_kid opts cert && chains_to mac keys certs pool all now cert

  -- A candidate that is trusted and does not have the sender's name.
  is_misnamed : Certificate → Bool
  unfolding is_trusted_candidate
  is_misnamed cert =
      is_trusted_candidate cert
      && not (sender_matches_certificate mac keys certs m.header.sender cert)

  -- A candidate that is trusted and has the name, but may not sign.
  is_barred : Certificate → Bool
  unfolding is_trusted_candidate
  is_barred cert =
      is_trusted_candidate cert
      && (sender_matches_certificate mac keys certs m.header.sender cert
          && (opts.require_digital_signature_key_usage && not (permitted_to_sign cert)))

  -- The reason for a list of candidates of which none signed.
  pub expected_reason : List Certificate → InvalidReason
  unfolding any_of is_misnamed is_barred
  expected_reason cs =
      if not (any_of (has_kid opts) cs)
      then no_candidate_signer
      else if any_of is_misnamed cs
      then sender_mismatch
      else if any_of is_barred cs
      then key_usage_not_permitted
      else signature_failed

  -- What one rejected candidate adds to the tally.
  record Counts (c : Certificate) (t t' : Tally) : Type 0 where
    some_candidate : (t'.candidates == 0) ≡ ((t.candidates == 0) && not (has_kid opts c))
    mismatch : t'.sender_mismatches ≡ (t.sender_mismatches || is_misnamed c)
    usage : t'.key_usage_rejected ≡ (t.key_usage_rejected || is_barred c)

  rejected-Counts :
      (c : Certificate) (t t' : Tally)
      → try_candidate mac keys certs opts pool all now m check part c t ≡ rejected t'
      → Counts c t t'
  unfolding try_candidate is_misnamed is_barred is_trusted_candidate
  rejected-Counts c t t' h = elim (Bool-cases (has_kid opts c)) [
    | inr no_kid ↦ record {
      some_candidate = ground arith;
      mismatch = ground arith;
      usage = ground arith;
    }
    | inl kid ↦ elim (Bool-cases (chains_to mac keys certs pool all now c)) [
      | inr no_chain ↦ record {
        some_candidate = ground arith;
        mismatch = ground arith;
        usage = ground arith;
      }
      | inl chain ↦
          elim (Bool-cases (sender_matches_certificate mac keys certs m.header.sender c)) [
            | inr misnamed ↦ record {
              some_candidate = ground arith;
              mismatch = ground arith;
              usage = ground arith;
            }
            | inl named ↦ record {
              some_candidate = ground arith;
              mismatch = ground arith;
              usage = ground arith;
            }
          ]
    ]
  ]

  record CountsAll (cs : List Certificate) (t t' : Tally) : Type 0 where
    some_candidate : (t'.candidates == 0) ≡ ((t.candidates == 0) && not (any_of (has_kid opts) cs))
    mismatch : t'.sender_mismatches ≡ (t.sender_mismatches || any_of is_misnamed cs)
    usage : t'.key_usage_rejected ≡ (t.key_usage_rejected || any_of is_barred cs)

  CountsAll-next :
      (c : Certificate) (cs : List Certificate) (t u v : Tally)
      → Counts c t u
      → CountsAll cs u v
      → CountsAll (c ∷ cs) t v
  unfolding any_of
  CountsAll-next c cs t u v one rest = record {
    some_candidate = ground (arith, one.some_candidate, rest.some_candidate);
    mismatch = ground (arith, one.mismatch, rest.mismatch);
    usage = ground (arith, one.usage, rest.usage);
  }

  verdict-cases : (v : Verdict) → (v ≡ accepted) ⊎ ((t : Tally) × (v ≡ rejected t))
  verdict-cases accepted = inl refl
  verdict-cases (rejected t) = inr (t, refl)

  try_candidates-CountsAll :
      (cs : List Certificate) (t t' : Tally)
      → try_candidates mac keys certs opts pool all now m check part cs t ≡ err t'
      → CountsAll cs t t'
  unfolding try_candidates any_of
  try_candidates-CountsAll [] t t' h = record {
    some_candidate = ground arith;
    mismatch = ground arith;
    usage = ground arith;
  }
  try_candidates-CountsAll (c ∷ cs) t t' h =
      elim (verdict-cases (try_candidate mac keys certs opts pool all now m check part c t)) [
        | inl taken ↦ ground arith
        | inr (u, passed) ↦
            CountsAll-next c cs t u t' (rejected-Counts c t u passed)
              (try_candidates-CountsAll cs u t' (ground arith))
      ]

  CountsAll-reason :
      (cs : List Certificate) (t : Tally)
      → CountsAll cs no_tally t
      → tally_reason t ≡ expected_reason cs
  unfolding tally_reason expected_reason
  CountsAll-reason cs t a = ground (arith, a.some_candidate, a.mismatch, a.usage)

-- When no extra certificate signed, the reason is that none has the key identifier asked for; or else
-- that a trusted one has another name than the sender; or else that a trusted one with the name may
-- not sign; or else that the signature failed.
pub verify_chain-reason :
    (mac : MacLibrary) (keys : KeyLibrary) (certs : CertificateLibrary) (opts : VerifyOptions)
    (now : Time) (m : PkiMessage) (check : Checker) (part : Bytes) (pool : Opaque) (e : Failure)
    → verify_chain mac keys certs opts now m check part pool ≡ err e
    → let cs = parsed_certificates mac keys certs opts.extra_certs in
      e ≡ verification_failure (expected_reason mac keys certs opts now m check part pool cs cs)
unfolding verify_chain
verify_chain-reason mac keys certs opts now m check part pool e h =
    let cs = parsed_certificates mac keys certs opts.extra_certs in
    elim (ok_or_err (try_candidates mac keys certs opts pool cs now m check part cs no_tally)) [
      | inl (cert, found) ↦ ground arith
      | inr (t, failed) ↦ ground (
        arith,
        CountsAll-reason mac keys certs opts now m check part pool cs cs t (
            try_candidates-CountsAll mac keys certs opts now m check part pool cs cs no_tally t
              failed),
      )
    ]
