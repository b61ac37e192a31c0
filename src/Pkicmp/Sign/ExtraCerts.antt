-- ===== src/Pkicmp/Sign/ExtraCerts.antt =====
-- pkicmp/protect.go: the certificates that a signed message carries.
use go_pkicmp_ng.Prelude.{
  bytes_eq, if◌then◌else◌, ◌≡◌, refl, sym, ap, subst, ◌∙◌, inl, inr, false, not, ◌||◌, some, List,
  [], ◌∷◌, ◌++◌, Bytes, bytes_eq_sound, is_some, map, arith, Bool-cases,
}
use go_pkicmp_ng.Prelude.Result.{ok, bind_ok, ok_injective}
use go_pkicmp_ng.Pkicmp.Types.{Oid, Certificate}
use go_pkicmp_ng.Pkicmp.Errors.{
  parse_failure, protection_failure, other_failure, unsupported_algorithm,
}
use go_pkicmp_ng.Pkicmp.Algorithms.{Hash}
use go_pkicmp_ng.Pkicmp.Protect.{
  PkiMessage, MacLibrary, refuse, or_fail, or_fail_ok, marshal_for_protection, protected_part,
}
use go_pkicmp_ng.Pkicmp.Protect.Sealed.{marshal_for_protection_lem}
use go_pkicmp_ng.Pkicmp.Sign.{
  Signer, seen, dedupe_from, dedupe_certificates, with_signer, protect_with_signature, digest_for,
  signature_algorithm_from_key,
}

-- No certificate stands twice in a list, or among those before it.
abbrev pub IsFresh : List Bytes → List Bytes → Type 0
IsFresh earlier [] = Unit
IsFresh earlier (c ∷ cs) = (seen c earlier ≡ false) × IsFresh (c ∷ earlier) cs

-- Every certificate is in one list or the other when it is in the two together.
seen-dedupe_from :
    (raw : Bytes) (earlier cs : List Bytes)
    → (seen raw earlier || seen raw (dedupe_from earlier cs)) ≡ (seen raw earlier || seen raw cs)
unfolding seen dedupe_from
seen-dedupe_from raw earlier [] = refl
seen-dedupe_from raw earlier (c ∷ cs) = elim (Bool-cases (seen c earlier)) [
  | inl dup ↦ ground (arith, seen-dedupe_from raw earlier cs, bytes_eq_sound c raw)
  | inr new ↦ ground (arith, seen-dedupe_from raw (c ∷ earlier) cs)
]

dedupe_from-IsFresh : (earlier cs : List Bytes) → IsFresh earlier (dedupe_from earlier cs)
unfolding dedupe_from
dedupe_from-IsFresh earlier [] = tt
dedupe_from-IsFresh earlier (c ∷ cs) = elim (Bool-cases (seen c earlier)) [
  | inl dup ↦ rw dup (dedupe_from-IsFresh earlier cs)
  | inr new ↦ rw new (new, dedupe_from-IsFresh (c ∷ earlier) cs)
]

-- A list without one of its items.
abbrev pub remove : Bytes → List Bytes → List Bytes
remove c [] = []
remove c (x ∷ xs) = if bytes_eq c x then remove c xs else x ∷ remove c xs

-- A list has the items of another, each once, in the order in which they first stand there.
pub data IsFirsts : List Bytes → List Bytes → Type 0 where
  none_left : IsFirsts [] []
  first :
      (c : Bytes) (cs rest : List Bytes)
      → IsFirsts (remove c cs) rest
      → IsFirsts (c ∷ cs) (c ∷ rest)

-- What is left of a list when all that was put out is removed.
abbrev unseen : List Bytes → List Bytes → List Bytes
unseen earlier [] = []
unseen earlier (x ∷ xs) = if seen x earlier then unseen earlier xs else x ∷ unseen earlier xs

remove-unseen :
    (c : Bytes) (earlier cs : List Bytes) → remove c (unseen earlier cs) ≡ unseen (c ∷ earlier) cs
unfolding seen
remove-unseen c earlier [] = refl
remove-unseen c earlier (x ∷ xs) = elim (Bool-cases (seen x earlier)) [
  | inl old ↦ elim (Bool-cases (bytes_eq c x)) [
    | inl same ↦ rw (old, same) (remove-unseen c earlier xs)
    | inr other ↦ rw (old, other) (remove-unseen c earlier xs)
  ]
  | inr new ↦ elim (Bool-cases (bytes_eq c x)) [
    | inl same ↦ rw (new, same) (remove-unseen c earlier xs)
    | inr other ↦ rw (new, other) (ap (λ (ys : List Bytes). x ∷ ys) (remove-unseen c earlier xs))
  ]
]

dedupe_from-IsFirsts :
    (earlier cs : List Bytes) → IsFirsts (unseen earlier cs) (dedupe_from earlier cs)
unfolding dedupe_from
dedupe_from-IsFirsts earlier [] = none_left
dedupe_from-IsFirsts earlier (c ∷ cs) = elim (Bool-cases (seen c earlier)) [
  | inl old ↦ rw old (dedupe_from-IsFirsts earlier cs)
  | inr new ↦ rw new (
      first c (unseen earlier cs) (dedupe_from (c ∷ earlier) cs) (
        subst (λ (xs : List Bytes). IsFirsts xs (dedupe_from (c ∷ earlier) cs))
          (sym (remove-unseen c earlier cs)) (dedupe_from-IsFirsts (c ∷ earlier) cs)))
]

unseen_nil : (cs : List Bytes) → unseen [] cs ≡ cs
unfolding seen
unseen_nil [] = refl
unseen_nil (c ∷ cs) = ap (λ (xs : List Bytes). c ∷ xs) (unseen_nil cs)

dedupe_certificates-IsFirsts : (cs : List Bytes) → IsFirsts cs (dedupe_from [] cs)
dedupe_certificates-IsFirsts cs =
    subst (λ (xs : List Bytes). IsFirsts xs (dedupe_from [] cs)) (unseen_nil cs)
      (dedupe_from-IsFirsts [] cs)

-- What a signed message carries: its protection is the signature of its protected part under the
-- algorithm of the key, and its extra certificates are the signer's and the given ones, each once, in
-- the order in which they first stand there.
pub record IsSigned (lib : MacLibrary) (key : Signer) (cert : Certificate) (given : List Bytes)
    (m : PkiMessage) : Type 0 where
  pub algorithm : Oid
  pub hash : Hash
  pub known : signature_algorithm_from_key key.public ≡ some (algorithm, hash)
  pub named : m.header.protection_alg ≡ some (record { algorithm = algorithm; parameters = [] })
  pub part : Bytes
  pub covers : protected_part lib m ≡ ok part
  pub signature : key.sign (digest_for lib hash part) hash ≡ some m.protection
  pub rest : List Bytes
  pub signer_first : m.extra_certs ≡ cert.raw ∷ rest
  pub in_order : IsFirsts (cert.raw ∷ given) m.extra_certs
  pub once : IsFresh [] m.extra_certs
  pub same_certs : (raw : Bytes) → seen raw m.extra_certs ≡ seen raw (cert.raw ∷ given)

-- A message that was protected with a signature carries the signature of its protected part under the
-- algorithm of the key. Its extra certificates are the signer's, those of the chain and those it had, in
-- this order, each once, where it first stands.
pub protect_with_signature-IsSigned :
    (lib : MacLibrary) (key : Signer) (cert : Certificate) (chain : List Certificate)
    (m m' : PkiMessage)
    → protect_with_signature lib key cert chain m ≡ ok m'
    → IsSigned lib key cert (map (λ (c : Certificate). c.raw) chain ++ m.extra_certs) m'
unfolding protect_with_signature protected_part with_signer dedupe_certificates dedupe_from seen
protect_with_signature-IsSigned lib key cert chain m m' h =
    let (_, _, h1) = bind_ok (refuse (not (is_some m.body)) parse_failure) _ m' h in
    let (alg, known, h2) =
      bind_ok
        (or_fail (protection_failure unsupported_algorithm)
          (signature_algorithm_from_key key.public))
        _ m' h1 in
    let (m1, encoded, h3) =
      bind_ok (marshal_for_protection lib (with_signer lib m alg.0 cert chain)) _ m' h2 in
    let (part, covers, h4) = bind_ok (protected_part lib m1) _ m' h3 in
    let (signature, made, h5) =
      bind_ok (or_fail other_failure (key.sign (digest_for lib alg.1 part) alg.1)) _ m' h4 in
    let (named, _, carried) =
      marshal_for_protection_lem lib (with_signer lib m alg.0 cert chain) m1 encoded in
    let given = map (λ (c : Certificate). c.raw) chain ++ m.extra_certs in
    subst (λ q. IsSigned lib key cert given q) (ok_injective h5)
      (record {
        algorithm = alg.0;
        hash = alg.1;
        known = or_fail_ok _ _ _ known;
        named = named;
        part = part;
        covers = covers;
        signature = or_fail_ok _ _ _ made;
        rest = dedupe_from (cert.raw ∷ []) given;
        signer_first = carried;
        in_order =
            subst (IsFirsts (cert.raw ∷ given)) (sym carried)
              (dedupe_certificates-IsFirsts (cert.raw ∷ given));
        once = subst (IsFresh []) (sym carried) (dedupe_from-IsFresh [] (cert.raw ∷ given));
        same_certs = λ raw. (ap (seen raw) carried ∙ seen-dedupe_from raw [] (cert.raw ∷ given));
      })
