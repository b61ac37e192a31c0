-- ===== src/Tests/Certpath.antt =====
-- internal/certpath/certpath.go on a certificate below a composite issuer that crypto/x509 trusts.
use go_pkicmp_ng.Prelude.{
  ◌≡◌, refl, ◌⊎◌, true, false, none, some, [], ◌∷◌, bytes_eq, arith, if◌then◌else◌, is_some,
}
use go_pkicmp_ng.Prelude.Assoc.{lookup, put}
use go_pkicmp_ng.Pkicmp.Types.{Certificate}
use go_pkicmp_ng.Certpath.{Links, trusted, verify, new_search}
use go_pkicmp_ng.Certpath.Spec.{TrustPath, IsParsed}
use go_pkicmp_ng.Certpath.Verified.{verify-TrustPath, verify-refused}
use go_pkicmp_ng.Certpath.Fuel.{trusted-fuel}
use go_pkicmp_ng.Tests.Fixtures.{cert}

abbrev issuer : Certificate
issuer = record cert { raw = 48 ∷ 9 ∷ []; raw_subject = cert.raw_issuer; raw_issuer = 48 ∷ 8 ∷ [] }

abbrev anchor : Certificate
anchor = record cert { raw = 48 ∷ 7 ∷ []; raw_subject = 48 ∷ 8 ∷ [] }

-- crypto/x509 has a chain for the issuer only; whoever is asked signed.
abbrev links : Links
links = record {
  chains = λ c. if bytes_eq c.raw (48 ∷ 9 ∷ []) then some ((issuer ∷ anchor ∷ []) ∷ []) else none;
  signed_by = λ c p. true;
}

links-IsParsed : IsParsed links
links-IsParsed c d e = ground arith

accepted : verify links (issuer ∷ []) 10 cert ≡ true
unfolding verify bytes_eq lookup put
accepted = refl

refused : verify links (anchor ∷ []) 10 cert ≡ false
unfolding verify bytes_eq lookup put
refused = refl

verify-TrustPath_example :
    (is_some (links.chains cert) ≡ true) ⊎ TrustPath links (issuer ∷ []) 10 [] cert 0
verify-TrustPath_example = verify-TrustPath links (issuer ∷ []) 10 links-IsParsed cert accepted

verify-refused_example :
    (is_some (links.chains cert) ≡ false)
    × ((¬ TrustPath links (anchor ∷ []) 10 [] cert 0)
        ⊎ ((trusted links (anchor ∷ []) 10 9 cert 0 new_search).1.checks_left ≡ 0))
verify-refused_example = verify-refused links (anchor ∷ []) 10 links-IsParsed cert refused

trusted-fuel_example :
    trusted links (issuer ∷ []) 10 9 cert 0 new_search
    ≡ trusted links (issuer ∷ []) 10 20 cert 0 new_search
trusted-fuel_example =
    trusted-fuel links (issuer ∷ []) 10 9 20 cert 0 new_search (omega arith) (omega arith)
      (omega arith)
