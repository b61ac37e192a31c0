-- ===== src/Certpath/Cache.antt =====
-- The cache of chains in the search of internal/certpath/certpath.go.
use go_pkicmp_ng.Prelude.{
  ℕ, zero, suc, ◌≡◌, refl, List, arith, Option-cases, inl, inr, bytes_eq_iff,
}
use go_pkicmp_ng.Prelude.Assoc.{lookup, put, lookup-put}
use go_pkicmp_ng.Pkicmp.Types.{Time, Certificate}
use go_pkicmp_ng.Certpath.{Links, Search, upper_chains, anchored_above, or_nil}
use go_pkicmp_ng.Certpath.Spec.{IsParsed, IsCached, Answers, Anchor}

module _ (x : Links) (candidates : List Certificate) (now : Time) (parsed : IsParsed x) where
  IsCached-put :
      (cert : Certificate) (s : Search)
      → IsCached x s
      → IsCached x (record s { upper = put cert.raw (or_nil (x.chains cert)) s.upper })
  IsCached-put cert s c d chains h = ground (
    arith,
    c d chains,
    parsed cert d,
    lookup-put cert.raw d.raw (or_nil (x.chains cert)) s.upper,
    bytes_eq_iff cert.raw d.raw,
  )

  -- The cached chains of a certificate are those that crypto/x509 gives.
  upper_chains_lem :
      (cert : Certificate) (s : Search)
      → IsCached x s
      → let r = upper_chains x candidates now cert s in
        (r.0 ≡ or_nil (x.chains cert))
        × IsCached x r.1
        × (r.1.on_path ≡ s.on_path)
        × (r.1.checks_left ≡ s.checks_left)
  unfolding upper_chains
  upper_chains_lem cert s c = elim (Option-cases (lookup cert.raw s.upper)) [
    | inr (cs, hit) ↦ rw (hit, upper_chains) (c cert cs hit, c, refl, refl)
    | inl miss ↦ rw (miss, upper_chains) (refl, IsCached-put cert s c, refl, refl)
  ]

  pub anchored_above_lem :
      (cert : Certificate) (depth : ℕ) (s : Search)
      → IsCached x s
      → Answers x s (Anchor x cert depth) (anchored_above x candidates now cert depth s)
  unfolding anchored_above
  anchored_above_lem cert zero s c = record {
    same_path = refl;
    cached = c;
    budget = omega arith;
    sound = λ e. ground arith;
    complete = λ e n p. p;
  }
  anchored_above_lem cert (suc below) s c =
      let (same, cached, path, budget) = upper_chains_lem cert s c in
      record {
        same_path = path;
        cached = cached;
        budget = omega arith;
        sound = λ e. ground arith;
        complete = λ e n p. ground arith;
      }
