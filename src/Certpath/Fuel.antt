-- ===== src/Certpath/Fuel.antt =====
-- The fuel of the search in internal/certpath/certpath.go.
use go_pkicmp_ng.Prelude.{
  ℕ, zero, suc, ◌+◌, ◌<◌, ◌≤◌, ◌≡◌, sym, ap, ◌∙◌, Bool, true, false, not, ◌||◌, List, arith, leb,
  inl, inr, Bool-cases,
}
use mathlib.Core.Path.{fun_ext}
use go_pkicmp_ng.Pkicmp.Types.{Time, Certificate}
use go_pkicmp_ng.Certpath.{
  Links, Search, max_depth, anchored_above, try_parents, trusted, valid_at, enter, leave,
}

module _ (x : Links) (candidates : List Certificate) (now : Time) where
  pub trusted-found :
      (n : ℕ) (cert : Certificate) (depth : ℕ) (s : Search)
      → (anchored_above x candidates now cert depth s).0 ≡ true
      → trusted x candidates now (suc n) cert depth s
        ≡ (true, (anchored_above x candidates now cert depth s).1)
  unfolding trusted
  trusted-found n cert depth s h = ground arith

  pub trusted-stop :
      (n : ℕ) (cert : Certificate) (depth : ℕ) (s : Search)
      → (anchored_above x candidates now cert depth s).0 ≡ false
      → (leb max_depth depth || not (valid_at cert now)) ≡ true
      → trusted x candidates now (suc n) cert depth s
        ≡ (false, (anchored_above x candidates now cert depth s).1)
  unfolding trusted
  trusted-stop n cert depth s h stop = ground arith

  pub trusted-go :
      (n : ℕ) (cert : Certificate) (depth : ℕ) (s : Search)
      → (anchored_above x candidates now cert depth s).0 ≡ false
      → (leb max_depth depth || not (valid_at cert now)) ≡ false
      → trusted x candidates now (suc n) cert depth s
        ≡ leave cert (
            try_parents x candidates now
              (λ p t. trusted x candidates now n p (suc depth) t)
              cert
              depth
              candidates
              (enter cert (anchored_above x candidates now cert depth s).1))
  unfolding trusted
  trusted-go n cert depth s h go = ground arith

  -- The search ends by its depth limit, not by its fuel: at a depth within the limit, all amounts of
  -- fuel above the depth that is left give one result.
  pub trusted-fuel :
      (n m : ℕ) (cert : Certificate) (depth : ℕ) (s : Search)
      → depth ≤ max_depth
      → max_depth < n + depth
      → max_depth < m + depth
      → trusted x candidates now n cert depth s ≡ trusted x candidates now m cert depth s
  trusted-fuel zero m cert depth s small enough also = ground arith
  trusted-fuel (suc n) zero cert depth s small enough also = ground arith
  trusted-fuel (suc n) (suc m) cert depth s small enough also =
      elim (Bool-cases (anchored_above x candidates now cert depth s).0) [
        | inl found ↦ trusted-found n cert depth s found ∙ sym (trusted-found m cert depth s found)
        | inr missed ↦ elim (Bool-cases (leb max_depth depth || not (valid_at cert now))) [
          | inl stop ↦
              trusted-stop n cert depth s missed stop
              ∙ sym (trusted-stop m cert depth s missed stop)
          | inr go ↦
              trusted-go n cert depth s missed go
              ∙ ap
                  (λ (rec : Certificate → Search → Bool × Search). leave cert (
                    try_parents x candidates now rec cert depth candidates
                      (enter cert (anchored_above x candidates now cert depth s).1)))
                  (fun_ext (λ p. fun_ext (λ t.
                    trusted-fuel n m p (suc depth) t (ground arith) (omega arith) (omega arith))))
              ∙ sym (trusted-go m cert depth s missed go)
        ]
      ]
