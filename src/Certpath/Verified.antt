-- ===== src/Certpath/Verified.antt =====
-- The search of internal/certpath/certpath.go decides whether a path exists, while its budget lasts.
use go_pkicmp_ng.Prelude.{
  ℕ, zero, suc, ◌+◌, ◌≤◌, ◌<◌, ◌≡◌, ◌≢◌, refl, Bool, true, false, none, List, [], ◌∷◌, Bytes, arith,
  is_some, Bool-cases, ◌⊎◌, inl, inr, sym, subst, ap, ◌∙◌, bytes_eq_refl, leb, not, ◌||◌,
}
use go_pkicmp_ng.Prelude.Assoc.{Assoc, lookup, put, remove}
use go_pkicmp_ng.Pkicmp.Types.{Time, Certificate}
use go_pkicmp_ng.Certpath.{
  Links, Search, max_depth, anchored_above, trusted, verify, valid_at, new_search, enter, leave,
}
use go_pkicmp_ng.Certpath.Spec.{
  TrustPath, link, IsParsed, IsCached, Answers, Anchor, Onward, Anchor-TrustPath, TrustPath-start,
}
use go_pkicmp_ng.Certpath.Cache.{anchored_above_lem}
use go_pkicmp_ng.Certpath.Loop.{nat-cases, Recursion, Answers-subst, try_parents_lem}
use go_pkicmp_ng.Certpath.Fuel.{trusted-found, trusted-stop, trusted-go}

remove-put :
    {V : Type 0} (k : Bytes) (v : V) (m : Assoc V) → lookup k m ≡ none → remove k (put k v m) ≡ m
unfolding lookup put remove
remove-put k v [] h = ground (arith, bytes_eq_refl k)
remove-put k v ((j, w) ∷ m) h = ground (arith, remove-put k v m)

module _ (x : Links) (candidates : List Certificate) (now : Time) (parsed : IsParsed x) where
  -- Answers from the loop, entered with the certificate on the path and left with the path as before.
  Answers-leave :
      (cert : Certificate) (depth : ℕ) (s : Search) (r : Bool × Search)
      → lookup cert.raw s.on_path ≡ none
      → depth < max_depth
      → valid_at cert now ≡ true
      → (s.checks_left ≢ 0 → ¬ Anchor x cert depth)
      → Answers x
          (enter cert s)
          (Onward x candidates now candidates (put cert.raw tt s.on_path) cert depth)
          r
      → Answers x s (TrustPath x candidates now s.on_path cert depth) (leave cert r)
  Answers-leave cert depth s r new d v not_anchored a = record {
    same_path = ap (remove cert.raw) a.same_path ∙ remove-put cert.raw tt s.on_path new;
    cached = a.cached;
    budget = a.budget;
    sound = λ h.
        (let o = a.sound h in link s.on_path cert o.parent depth d v o.candidate o.is_link o.above);
    complete = λ h n p. elim (TrustPath-start p) [
      | inl q ↦ not_anchored (λ z. n (omega (arith, a.budget))) q
      | inr (_, _, o) ↦ a.complete h n o
    ];
  }

  -- Answers from a state with the same path.
  Answers-after :
      (cert : Certificate) (depth : ℕ) (s t : Search) (r : Bool × Search)
      → t.on_path ≡ s.on_path
      → t.checks_left ≤ s.checks_left
      → Answers x t (TrustPath x candidates now t.on_path cert depth) r
      → Answers x s (TrustPath x candidates now s.on_path cert depth) r
  Answers-after cert depth s t r e b a = record {
    same_path = a.same_path ∙ e;
    cached = a.cached;
    budget = omega (arith, a.budget);
    sound = λ h. subst (λ u. TrustPath x candidates now u cert depth) e (a.sound h);
    complete =
        λ h n p. a.complete h n (subst (λ u. TrustPath x candidates now u cert depth) (sym e) p);
  }

  -- No path below the depth limit, or outside the validity of the certificate.
  Answers-stop :
      (cert : Certificate) (depth : ℕ) (s t : Search)
      → Answers x s (Anchor x cert depth) (false, t)
      → (leb max_depth depth || not (valid_at cert now)) ≡ true
      → Answers x s (TrustPath x candidates now s.on_path cert depth) (false, t)
  Answers-stop cert depth s t a stop = record {
    same_path = a.same_path;
    cached = a.cached;
    budget = a.budget;
    sound = λ h. ground arith;
    complete = λ h n p. elim (TrustPath-start p) [
      | inl q ↦ a.complete refl n q
      | inr (d, v, _) ↦ ground arith
    ];
  }

  Answers-found :
      (cert : Certificate) (depth : ℕ) (s t : Search)
      → Answers x s (Anchor x cert depth) (true, t)
      → Answers x s (TrustPath x candidates now s.on_path cert depth) (true, t)
  Answers-found cert depth s t a = record {
    same_path = a.same_path;
    cached = a.cached;
    budget = a.budget;
    sound = λ h. Anchor-TrustPath x candidates now s.on_path cert depth (a.sound h);
    complete = λ h. ground arith;
  }

  with_found : (b : Bool) (r : Bool × Search) → r.0 ≡ b → (b, r.1) ≡ r
  with_found b r h = ap (λ z. (z, r.1)) (sym h)

  -- The search answers the question whether there is a path, where its fuel covers the depth left.
  trusted-Answers :
      (n : ℕ) (cert : Certificate) (depth : ℕ) (s : Search)
      → max_depth < n + depth
      → depth ≤ max_depth
      → lookup cert.raw s.on_path ≡ none
      → IsCached x s
      → Answers x s
          (TrustPath x candidates now s.on_path cert depth)
          (trusted x candidates now n cert depth s)
  unfolding Recursion
  trusted-Answers zero cert depth s enough small new c = ground arith
  trusted-Answers (suc n) cert depth s enough small new c =
      let first : Bool × Search = anchored_above x candidates now cert depth s in
      let a : Answers x s (Anchor x cert depth) first =
        anchored_above_lem x candidates now parsed cert depth s c in
      elim (Bool-cases first.0) [
        | inl found ↦
            Answers-subst x candidates now parsed
              (trusted-found x candidates now n cert depth s found)
              (Answers-found cert depth s first.1
                (Answers-subst x candidates now parsed (with_found true first found) a))
        | inr missed ↦ elim (Bool-cases (leb max_depth depth || not (valid_at cert now))) [
          | inl stop ↦
              Answers-subst x candidates now parsed
                (trusted-stop x candidates now n cert depth s missed stop)
                (Answers-stop cert depth s first.1
                  (Answers-subst x candidates now parsed (with_found false first missed) a) stop)
          | inr go ↦
              Answers-subst x candidates now parsed
                (trusted-go x candidates now n cert depth s missed go)
                (Answers-after cert depth s first.1 _ a.same_path a.budget (
                  Answers-leave cert depth first.1 _ (ap (lookup cert.raw) a.same_path ∙ new)
                    (ground arith) (ground arith) (λ n q. a.complete missed n q)
                    (try_parents_lem x candidates now parsed
                      (λ p t. trusted x candidates now n p (suc depth) t) _ cert depth candidates
                      (enter cert first.1)
                      (λ p t e u k.
                        subst
                          (λ v.
                            Answers x t (TrustPath x candidates now v p (suc depth))
                              (trusted x candidates now n p (suc depth) t))
                          e
                          (trusted-Answers n p (suc depth) t (omega arith) (ground arith)
                            (ap (lookup p.raw) e ∙ u) k))
                      refl a.cached)))
        ]
      ]

  new_search-IsCached : IsCached x new_search
  unfolding lookup
  new_search-IsCached c chains h = ground arith

  -- A certificate that is accepted has a chain that crypto/x509 builds, or a path of at most eight
  -- links that end below such a chain: each parent is a candidate, not used below, that the certificate
  -- names as its issuer and that signed it, has no name constraints and allows the path below it, and
  -- each certificate of the links is valid at the time.
  pub verify-TrustPath :
      (cert : Certificate)
      → verify x candidates now cert ≡ true
      → (is_some (x.chains cert) ≡ true) ⊎ TrustPath x candidates now [] cert 0
  unfolding verify lookup
  verify-TrustPath cert h = elim (Bool-cases (is_some (x.chains cert))) [
    | inl chained ↦ inl chained
    | inr other ↦ inr (
        (trusted-Answers (suc max_depth) cert 0 new_search (omega arith) (omega arith) refl
            new_search-IsCached).sound
          (ground arith))
  ]

  -- A certificate is refused only when it has no such chain, and no such path unless all of the
  -- hundred signature checks were spent.
  pub verify-refused :
      (cert : Certificate)
      → verify x candidates now cert ≡ false
      → (is_some (x.chains cert) ≡ false)
        × ((¬ TrustPath x candidates now [] cert 0)
            ⊎ ((trusted x candidates now (suc max_depth) cert 0 new_search).1.checks_left ≡ 0))
  unfolding verify lookup
  verify-refused cert h = (
    ground arith,
    elim (nat-cases (trusted x candidates now (suc max_depth) cert 0 new_search).1.checks_left) [
      | inl spent ↦ inr spent
      | inr (m, spare) ↦ inl (
          (trusted-Answers (suc max_depth) cert 0 new_search (omega arith) (omega arith) refl
              new_search-IsCached).complete
            (ground arith) (λ z. omega arith))
    ],
  )
