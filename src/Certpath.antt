-- ===== src/Certpath.antt =====
-- internal/certpath/certpath.go: certification paths with composite ML-DSA signatures. crypto/x509
-- and the composite library check the links; both are an interface.
pub mod Spec
pub mod Cache
pub mod Loop
pub mod Verified
pub mod Fuel
use go_pkicmp_ng.Prelude.{
  ℕ, zero, suc, ◌+◌, Bool, true, false, not, ◌&&◌, ◌||◌, Option, none, some, List, [], ◌∷◌, Bytes,
  bytes_eq, ltb, leb, is_empty, is_some, ◌==◌, if◌then◌else◌,
}
use go_pkicmp_ng.Prelude.Int.{ℤ, pos, ltb_ℤ, eqb_ℤ}
use go_pkicmp_ng.Prelude.Assoc.{Assoc, lookup, put, remove}
use go_pkicmp_ng.Pkicmp.Types.{Time, Oid, Certificate, Extension}

-- crypto/x509 and compositex509: the chains that `cert.Verify` builds to the trust anchors, and
-- whether the second certificate's key verifies the signature of the first. `chains` fixes the
-- options of one call, which the search never changes.
pub record Links : Type 0 where
  pub chains : Certificate → Option (List (List Certificate))
  pub signed_by : Certificate → Certificate → Bool

abbrev pub max_depth : ℕ
max_depth = 8

abbrev pub max_signature_checks : ℕ
max_signature_checks = 100

abbrev oid_name_constraints : Oid
oid_name_constraints = 2 ∷ 5 ∷ 29 ∷ 30 ∷ []

unfoldable pub carries : Oid → List Extension → Bool
carries oid [] = false
carries oid (x ∷ xs) = if bytes_eq x.id oid then true else carries oid xs

unfoldable pub has_name_constraints : Certificate → Bool
unfolding carries
has_name_constraints cert = carries oid_name_constraints cert.extensions

unfoldable pub valid_at : Certificate → Time → Bool
valid_at cert now =
    not (ltb now cert.not_before)
    && not (ltb cert.not_after now)
    && is_empty cert.unhandled_critical_extensions

unfoldable pub allows_following : Certificate → ℕ → Bool
allows_following issuer intermediates =
    if not issuer.basic_constraints_valid
      || ltb_ℤ issuer.max_path_len (pos 0)
      || eqb_ℤ issuer.max_path_len (pos 0) && not issuer.max_path_len_zero
    then true
    else not (ltb_ℤ issuer.max_path_len (pos intermediates))

-- The ancestors of a chain after its first certificate, with `k` certificates below the next one.
unfoldable pub ancestors_allow : ℕ → List Certificate → Bool
unfolding has_name_constraints allows_following
ancestors_allow k [] = true
ancestors_allow k (a ∷ rest) =
    if has_name_constraints a || not (allows_following a k)
    then false
    else ancestors_allow (suc k) rest

unfoldable pub chain_accepts : ℕ → List Certificate → Bool
unfolding has_name_constraints ancestors_allow
chain_accepts depth [] = true
chain_accepts depth (cert ∷ above) =
    if has_name_constraints cert then false else ancestors_allow depth above

unfoldable pub accepts_lower_path : List (List Certificate) → ℕ → Bool
unfolding chain_accepts
accepts_lower_path [] depth = false
accepts_lower_path (chain ∷ chains) depth =
    if chain_accepts depth chain then true else accepts_lower_path chains depth

-- A set of certificates, by their encodings: a map whose values are all true.
abbrev pub Used : Type 0
Used = Assoc {0} Unit

-- `search`, without the options, which do not change.
pub record Search : Type 0 where
  pub checks_left : ℕ
  pub upper : Assoc (List (List Certificate))
  pub on_path : Used

abbrev pub or_nil : Option (List (List Certificate)) → List (List Certificate)
or_nil none = []
or_nil (some cs) = cs

-- `s.onPath[raw]`
abbrev pub is_on_path : Bytes → Used → Bool
is_on_path raw path = is_some (lookup raw path)

abbrev pub new_search : Search
new_search = record { checks_left = max_signature_checks; upper = []; on_path = [] }

abbrev pub enter : Certificate → Search → Search
enter cert s = record s { on_path = put cert.raw tt s.on_path }

abbrev pub leave : Certificate → Bool × Search → Bool × Search
leave cert (found, s) = (found, record s { on_path = remove cert.raw s.on_path })

module _ (x : Links) (candidates : List Certificate) (now : Time) where
  unfoldable pub upper_chains : Certificate → Search → List (List Certificate) × Search
  upper_chains cert s = elim (lookup cert.raw s.upper) [
    | some cs ↦ (cs, s)
    | none ↦
        (or_nil (x.chains cert), record s { upper = put cert.raw (or_nil (x.chains cert)) s.upper })
  ]

  -- `depth > 0 && acceptsLowerPath(s.upperChains(cert), depth)`
  unfoldable pub anchored_above : Certificate → ℕ → Search → Bool × Search
  unfolding upper_chains accepts_lower_path
  anchored_above cert zero s = (false, s)
  anchored_above cert (suc d) s =
      let (cs, s') = upper_chains cert s in (accepts_lower_path cs (suc d), s')

  -- Whether the loop passes over a parent before it looks at its budget.
  unfoldable pub passes_over : Certificate → ℕ → Certificate → Search → Bool
  unfolding has_name_constraints allows_following
  passes_over cert depth parent s =
      is_on_path parent.raw s.on_path
      || not (bytes_eq parent.raw_subject cert.raw_issuer)
      || has_name_constraints parent
      || not (allows_following parent depth)

  -- The loop over the candidates; `rec` is the search from a parent.
  unfoldable pub try_parents :
      (Certificate → Search → Bool × Search)
      → Certificate
      → ℕ
      → List Certificate
      → Search
      → Bool × Search
  unfolding passes_over
  try_parents rec cert depth [] s = (false, s)
  try_parents rec cert depth (parent ∷ rest) s =
      if passes_over cert depth parent s
      then try_parents rec cert depth rest s
      else elim s.checks_left [
        | zero ↦ (false, s)
        | suc left ↦
            let s' = record s { checks_left = left } in
            if not (x.signed_by cert parent)
            then try_parents rec cert depth rest s'
            else let (found, s'') = rec parent s' in
              if found then (true, s'') else try_parents rec cert depth rest s''
      ]

  -- `trusted`, on fuel: the depth that is left below `max_depth` is enough.
  unfoldable pub trusted : ℕ → Certificate → ℕ → Search → Bool × Search
  unfolding anchored_above valid_at try_parents
  trusted zero cert depth s = (false, s)
  trusted (suc n) cert depth s =
      let (found, s') = anchored_above cert depth s in
      if found
      then (true, s')
      else if leb max_depth depth || not (valid_at cert now)
      then (false, s')
      else leave cert
          (try_parents (λ p t. trusted n p (suc depth) t) cert depth candidates (enter cert s'))

  -- `Verify`: whether it accepts.
  unfoldable pub verify : Certificate → Bool
  unfolding trusted
  verify cert =
      if is_some (x.chains cert) then true else (trusted (suc max_depth) cert 0 new_search).0
