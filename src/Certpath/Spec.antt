-- ===== src/Certpath/Spec.antt =====
-- What a certification path of internal/certpath/certpath.go is.
use go_pkicmp_ng.Prelude.{
  ℕ, zero, suc, ◌⊎◌, inl, inr, ◌<◌, ◌≤◌, ◌≡◌, ◌≢◌, Bool, true, false, some, List, ◌∷◌,
}
use go_pkicmp_ng.Prelude.Assoc.{lookup, put}
use go_pkicmp_ng.Pkicmp.Types.{Time, Certificate}
use go_pkicmp_ng.Certpath.{
  Links, max_depth, has_name_constraints, valid_at, allows_following, accepts_lower_path, or_nil,
  is_on_path, Search, Used,
}

pub data Among : Certificate → List Certificate → Type 0 where
  first : {c : Certificate} {cs : List Certificate} → Among c (c ∷ cs)
  later : {c d : Certificate} {cs : List Certificate} → Among c cs → Among c (d ∷ cs)

-- A link of a path: the parent is not used below, is the issuer that the certificate names and
-- signed it, has no name constraints, and its path length constraint allows the certificates below.
pub record IsLink (x : Links) (used : Used) (cert : Certificate) (depth : ℕ) (parent : Certificate)
    : Type 0 where
  pub unused : is_on_path parent.raw used ≡ false
  pub issuer : parent.raw_subject ≡ cert.raw_issuer
  pub unconstrained : has_name_constraints parent ≡ false
  pub allowed : allows_following parent depth ≡ true
  pub signature : x.signed_by cert parent ≡ true

-- A path from a certificate that has `depth` certificates below it: crypto/x509 has a chain above it
-- that permits these, or a link leads to a path from its parent.
pub data TrustPath (x : Links) (candidates : List Certificate) (now : Time)
    : Used → Certificate → ℕ → Type 0 where
  anchored :
      (used : Used) (cert : Certificate) (below : ℕ)
      → accepts_lower_path (or_nil (x.chains cert)) (suc below) ≡ true
      → TrustPath x candidates now used cert (suc below)
  link :
      (used : Used) (cert parent : Certificate) (depth : ℕ)
      → depth < max_depth
      → valid_at cert now ≡ true
      → Among parent candidates
      → IsLink x (put cert.raw tt used) cert depth parent
      → TrustPath x candidates now (put cert.raw tt used) parent (suc depth)
      → TrustPath x candidates now used cert depth

-- crypto/x509 builds chains from the encoding of a certificate.
abbrev pub IsParsed : Links → Type 0
IsParsed x = (c d : Certificate) → c.raw ≡ d.raw → x.chains c ≡ x.chains d

-- The cache holds what crypto/x509 gives.
abbrev pub IsCached : Links → Search → Type 0
IsCached x s =
    (c : Certificate) (chains : List (List Certificate))
    → lookup c.raw s.upper ≡ some chains
    → chains ≡ or_nil (x.chains c)

-- What the search from a certificate answers about the paths from it: the state keeps its cache and
-- its path, the budget only shrinks, true means a path, and false with a budget left means none.
pub record Answers (x : Links) (s : Search) (P : Type 0) (r : Bool × Search) : Type 0 where
  pub same_path : r.1.on_path ≡ s.on_path
  pub cached : IsCached x r.1
  pub budget : r.1.checks_left ≤ s.checks_left
  pub sound : r.0 ≡ true → P
  pub complete : r.0 ≡ false → r.1.checks_left ≢ 0 → ¬ P

-- A link to one of the parents, and a path from it.
pub record Onward (x : Links) (candidates : List Certificate) (now : Time)
    (parents : List Certificate) (used : Used) (cert : Certificate) (depth : ℕ) : Type 0 where
  pub parent : Certificate
  pub candidate : Among parent parents
  pub is_link : IsLink x used cert depth parent
  pub above : TrustPath x candidates now used parent (suc depth)

-- The chains of crypto/x509 above a certificate that is not the first of the path.
abbrev pub Anchor : Links → Certificate → ℕ → Type 0
Anchor x cert zero = ⊥
Anchor x cert (suc below) = accepts_lower_path (or_nil (x.chains cert)) (suc below) ≡ true

pub Anchor-TrustPath :
    (x : Links) (candidates : List Certificate) (now : Time) (used : Used) (cert : Certificate)
    (depth : ℕ)
    → Anchor x cert depth
    → TrustPath x candidates now used cert depth
Anchor-TrustPath x candidates now used cert zero h = elim h [ ]
Anchor-TrustPath x candidates now used cert (suc below) h = anchored used cert below h

-- A path starts with one of the two.
pub TrustPath-start :
    {x : Links} {candidates : List Certificate} {now : Time} {used : Used} {cert : Certificate}
    {depth : ℕ}
    → TrustPath x candidates now used cert depth
    → Anchor x cert depth
      ⊎ ((depth < max_depth)
          × (valid_at cert now ≡ true)
          × Onward x candidates now candidates (put cert.raw tt used) cert depth)
TrustPath-start (anchored used cert below h) = inl h
TrustPath-start (link used cert parent depth d v m l p) =
    inr (d, v, record { parent = parent; candidate = m; is_link = l; above = p })
