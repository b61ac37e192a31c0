-- ===== src/Certpath/Loop.antt =====
-- The loop over the candidates in the search of internal/certpath/certpath.go, round by round.
use go_pkicmp_ng.Prelude.{
  ℕ, zero, suc, ◌≤◌, ◌≡◌, ◌≢◌, refl, Bool, true, false, none, List, [], ◌∷◌, arith, if◌then◌else◌,
  Bool-cases, ◌⊎◌, inl, inr, sym, subst, ◌∙◌, bytes_eq_iff,
}
use go_pkicmp_ng.Prelude.Assoc.{lookup}
use go_pkicmp_ng.Pkicmp.Types.{Time, Certificate}
use go_pkicmp_ng.Certpath.{Links, Search, passes_over, try_parents, Used, is_on_path}
use go_pkicmp_ng.Certpath.Spec.{
  Among, first, later, IsLink, TrustPath, IsParsed, IsCached, Answers, Onward,
}

pub nat-cases : (n : ℕ) → (n ≡ 0) ⊎ ((m : ℕ) × (n ≡ suc m))
nat-cases zero = inl refl
nat-cases (suc m) = inr (m, refl)

unused_none :
    (p : Certificate) (used : Used) → is_on_path p.raw used ≡ false → lookup p.raw used ≡ none
unused_none p used h = ground arith

module _ (x : Links) (candidates : List Certificate) (now : Time) (parsed : IsParsed x) where
  Onward-later :
      {p : Certificate} {ps : List Certificate} {used : Used} {cert : Certificate} {depth : ℕ}
      → Onward x candidates now ps used cert depth
      → Onward x candidates now (p ∷ ps) used cert depth
  Onward-later o = record {
    parent = o.parent;
    candidate = later o.candidate;
    is_link = o.is_link;
    above = o.above;
  }

  Onward-split :
      {p : Certificate} {ps : List Certificate} {used : Used} {cert : Certificate} {depth : ℕ}
      → Onward x candidates now (p ∷ ps) used cert depth
      → (IsLink x used cert depth p × TrustPath x candidates now used p (suc depth))
        ⊎ Onward x candidates now ps used cert depth
  Onward-split o = go o.parent o.candidate o.is_link o.above
    where
      go :
          {p : Certificate} {ps : List Certificate} {used : Used} {cert : Certificate} {depth : ℕ}
          (q : Certificate)
          → Among q (p ∷ ps)
          → IsLink x used cert depth q
          → TrustPath x candidates now used q (suc depth)
          → (IsLink x used cert depth p × TrustPath x candidates now used p (suc depth))
            ⊎ Onward x candidates now ps used cert depth
      go q first l above = inl (l, above)
      go q (later m) l above =
          inr (record { parent = q; candidate = m; is_link = l; above = above })

  none_left :
      {used : Used} {cert : Certificate} {depth : ℕ} → ¬ Onward x candidates now [] used cert depth
  none_left o = elim o.candidate [ ]

  -- What the search from one parent answers.
  unfoldable pub Recursion : (Certificate → Search → Bool × Search) → Used → ℕ → Type 0
  Recursion rec used depth =
      (p : Certificate) (t : Search)
      → t.on_path ≡ used
      → lookup p.raw used ≡ none
      → IsCached x t
      → Answers x t (TrustPath x candidates now used p (suc depth)) (rec p t)

  -- A parent that the loop does not pass over is one that a link may lead to, but for its signature.
  IsLink-try :
      (cert parent : Certificate) (depth : ℕ) (s : Search)
      → passes_over x candidates now cert depth parent s ≡ false
      → x.signed_by cert parent ≡ true
      → IsLink x s.on_path cert depth parent
  unfolding passes_over
  IsLink-try cert parent depth s h g = record {
    unused = ground arith;
    issuer = ground (arith, bytes_eq_iff parent.raw_subject cert.raw_issuer);
    unconstrained = ground arith;
    allowed = ground arith;
    signature = g;
  }

  IsLink-pass :
      (cert parent : Certificate) (depth : ℕ) (s : Search)
      → passes_over x candidates now cert depth parent s ≡ true
      → ¬ IsLink x s.on_path cert depth parent
  unfolding passes_over
  IsLink-pass cert parent depth s h l = ground (
    arith,
    l.unused,
    l.unconstrained,
    l.allowed,
    l.issuer,
    bytes_eq_iff parent.raw_subject cert.raw_issuer,
  )

  -- One round of the loop, by what it does with the parent.
  data Round (rec : Certificate → Search → Bool × Search) (used : Used) (cert : Certificate)
      (depth : ℕ) (p : Certificate) (ps : List Certificate) (s : Search) (r : Bool × Search)
      : Type 0 where
    passed :
        ¬ IsLink x s.on_path cert depth p
        → r ≡ try_parents x candidates now rec cert depth ps s
        → Round rec used cert depth p ps s r
    exhausted : s.checks_left ≡ 0 → r ≡ (false, s) → Round rec used cert depth p ps s r
    unsigned :
        (left : ℕ)
        → s.checks_left ≡ suc left
        → ¬ IsLink x s.on_path cert depth p
        → r ≡ try_parents x candidates now rec cert depth ps (record s { checks_left = left })
        → Round rec used cert depth p ps s r
    searched :
        (left : ℕ) (above : Bool × Search)
        → s.checks_left ≡ suc left
        → IsLink x s.on_path cert depth p
        → rec p (record s { checks_left = left }) ≡ above
        → r ≡ (
            if above.0
            then (true, above.1)
            else try_parents x candidates now rec cert depth ps above.1)
        → Round rec used cert depth p ps s r

  round :
      (rec : Certificate → Search → Bool × Search) (used : Used) (cert : Certificate) (depth : ℕ)
      (p : Certificate) (ps : List Certificate) (s : Search)
      → Round rec used cert depth p ps s (try_parents x candidates now rec cert depth (p ∷ ps) s)
  unfolding try_parents
  round rec used cert depth p ps s =
      elim (Bool-cases (passes_over x candidates now cert depth p s)) [
        | inl pass ↦ passed (IsLink-pass cert p depth s pass) (rw (pass, try_parents) refl)
        | inr try ↦ elim (nat-cases s.checks_left) [
          | inl spent ↦ exhausted spent (ground arith)
          | inr (left, some_left) ↦ elim (Bool-cases (x.signed_by cert p)) [
            | inr bad ↦
                unsigned left some_left (λ l. ground (arith, l.signature))
                  (rw (try, some_left, bad, try_parents) refl)
            | inl good ↦
                searched left (rec p (record s { checks_left = left })) some_left
                  (IsLink-try cert p depth s try good) refl
                  (rw (try, some_left, good, try_parents) refl)
          ]
        ]
      ]

  pub Answers-subst :
      {s : Search} {P : Type 0} {q r : Bool × Search} → q ≡ r → Answers x s P r → Answers x s P q
  Answers-subst {s} {P} e a = subst (λ q. Answers x s P q) (sym e) a

  -- Answers about the remaining parents, as answers about all of them.
  Answers-skip :
      {p : Certificate} {ps : List Certificate} {used : Used} {cert : Certificate} {depth : ℕ}
      (s t : Search) (r : Bool × Search)
      → s.on_path ≡ t.on_path
      → t.checks_left ≤ s.checks_left
      → (r.1.checks_left ≢ 0
          → ¬ (IsLink x used cert depth p × TrustPath x candidates now used p (suc depth)))
      → Answers x t (Onward x candidates now ps used cert depth) r
      → Answers x s (Onward x candidates now (p ∷ ps) used cert depth) r
  Answers-skip s t r e b no_path a = record {
    same_path = a.same_path ∙ sym e;
    cached = a.cached;
    budget = omega (arith, a.budget);
    sound = λ h. Onward-later (a.sound h);
    complete = λ h n o. elim (Onward-split o) [
      | inl here ↦ no_path n here
      | inr there ↦ a.complete h n there
    ];
  }

  -- The search from a parent, and the remaining parents where it finds nothing.
  Answers-searched :
      {p : Certificate} {ps : List Certificate} {used : Used} {cert : Certificate} {depth : ℕ}
      (s t : Search) (above rest : Bool × Search)
      → t.on_path ≡ s.on_path
      → t.checks_left ≤ s.checks_left
      → IsLink x used cert depth p
      → Answers x t (TrustPath x candidates now used p (suc depth)) above
      → (above.1.on_path ≡ s.on_path
          → IsCached x above.1
          → Answers x above.1 (Onward x candidates now ps used cert depth) rest)
      → Answers x s
          (Onward x candidates now (p ∷ ps) used cert depth)
          (if above.0 then (true, above.1) else rest)
  Answers-searched {p} s t above rest e b l a more = elim (Bool-cases above.0) [
    | inl found ↦ rw found (record {
      same_path = a.same_path ∙ e;
      cached = a.cached;
      budget = omega (arith, a.budget);
      sound = λ h. record { parent = p; candidate = first; is_link = l; above = a.sound found };
      complete = λ h. ground arith;
    })
    | inr missed ↦
        let o = more (a.same_path ∙ e) a.cached in
        rw missed (
          Answers-skip s above.1 rest (sym (a.same_path ∙ e)) (omega (arith, a.budget))
            (λ n both. a.complete missed (λ z. n (omega (arith, o.budget))) both.1) o)
  ]

  pub try_parents_lem :
      (rec : Certificate → Search → Bool × Search) (used : Used) (cert : Certificate) (depth : ℕ)
      (ps : List Certificate) (s : Search)
      → Recursion rec used depth
      → s.on_path ≡ used
      → IsCached x s
      → Answers x s
          (Onward x candidates now ps used cert depth)
          (try_parents x candidates now rec cert depth ps s)
  unfolding Recursion
  try_parents_lem rec used cert depth [] s r e c =
      unfold try_parents in
      record {
        same_path = refl;
        cached = c;
        budget = omega arith;
        sound = λ h. ground arith;
        complete = λ h n. none_left;
      }
  try_parents_lem rec used cert depth (p ∷ ps) s r e c = elim (round rec used cert depth p ps s) [
    | passed no_link same ↦ Answers-subst same (
        Answers-skip s s _ refl (omega arith)
          (λ n l. no_link (subst (λ u. IsLink x u cert depth p) (sym e) l.0))
          (try_parents_lem rec used cert depth ps s r e c))
    | exhausted spent same ↦ Answers-subst same (record {
      same_path = refl;
      cached = c;
      budget = omega arith;
      sound = λ h. ground arith;
      complete = λ h n o. n spent;
    })
    | unsigned left spare no_link same ↦ Answers-subst same (
        Answers-skip s (record s { checks_left = left }) _ refl (omega arith)
          (λ n l. no_link (subst (λ u. IsLink x u cert depth p) (sym e) l.0))
          (try_parents_lem rec used cert depth ps (record s { checks_left = left }) r e c))
    | searched left above spare l h same ↦ Answers-subst same (
        Answers-searched s (record s { checks_left = left }) above _ refl (omega arith)
          (subst (λ u. IsLink x u cert depth p) e l)
          (Answers-subst (sym h) (
            r p (record s { checks_left = left }) e
              (unused_none p used (subst (λ u. IsLink x u cert depth p) e l).unused) c))
          (λ same_path cached.
            try_parents_lem rec used cert depth ps above.1 r (same_path ∙ e) cached))
  ]
