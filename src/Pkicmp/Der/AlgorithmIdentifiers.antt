-- ===== src/Pkicmp/Der/AlgorithmIdentifiers.antt =====
-- pkicmp/types.go: the encoding of an AlgorithmIdentifier.
use go_pkicmp_ng.Prelude.{
  ◌≡◌, refl, ap, ◌⊎◌, inl, inr, Option, none, some, [], ◌∷◌, ◌++◌, Bytes, is_empty, arith,
  if◌then◌else◌, Option-cases,
}
use go_pkicmp_ng.Prelude.Result.{Result, ok, err, ◌>>=◌}
use go_pkicmp_ng.Pkicmp.Types.{AlgorithmIdentifier}
use go_pkicmp_ng.Pkicmp.Errors.{Failure, parse_failure}
use go_pkicmp_ng.Pkicmp.Der.{Cryptobyte, CryptobyteLaws, tag_sequence}

module _ (c : Cryptobyte) where
  -- `marshalInner` inside `AddASN1`
  unfoldable pub marshal_algorithm : AlgorithmIdentifier → Option Bytes
  marshal_algorithm a = elim (c.add_oid a.algorithm) [
    | none ↦ none
    | some oid ↦ c.add_asn1 tag_sequence (oid ++ a.parameters)
  ]

  -- The parameters after the identifier: the first element, or all that is left.
  abbrev read_parameters : Bytes → Bytes
  read_parameters rest =
      if is_empty rest
      then []
      else elim (c.read_element rest) [ some (params, _) ↦ params | none ↦ rest ]

  unfoldable pub unmarshal_inner : Bytes → Result Failure AlgorithmIdentifier
  unmarshal_inner seq = elim (c.read_oid seq) [
    | none ↦ err parse_failure
    | some (oid, rest) ↦ ok (record { algorithm = oid; parameters = read_parameters rest })
  ]

  -- `unmarshal`: the identifier and what follows it.
  unfoldable pub unmarshal_algorithm : Bytes → Result Failure (AlgorithmIdentifier × Bytes)
  unfolding unmarshal_inner
  unmarshal_algorithm s = elim (c.read_asn1 tag_sequence s) [
    | none ↦ err parse_failure
    | some (seq, rest) ↦ unmarshal_inner seq >>= λ a. ok (a, rest)
  ]

  -- Parameters that the reader takes whole: none, or one element.
  abbrev pub IsElement : Bytes → Type 0
  IsElement p = (p ≡ []) ⊎ (c.read_element p ≡ some (p, []))

  pub read_parameters_lem : (p : Bytes) → IsElement p → read_parameters p ≡ p
  read_parameters_lem [] h = refl
  read_parameters_lem (b ∷ p) (inl e) = ground arith
  read_parameters_lem (b ∷ p) (inr e) = rw e refl

  -- An algorithm identifier is read back as it was written.
  pub unmarshal_algorithm-marshal_algorithm :
      (a : AlgorithmIdentifier) (e rest : Bytes)
      → CryptobyteLaws c
      → IsElement a.parameters
      → marshal_algorithm a ≡ some e
      → unmarshal_algorithm (e ++ rest) ≡ ok (a, rest)
  unfolding unmarshal_algorithm unmarshal_inner marshal_algorithm
  unmarshal_algorithm-marshal_algorithm a e rest laws whole h =
      elim (Option-cases (c.add_oid a.algorithm)) [
        | inl bad ↦ ground arith
        | inr (oid, good) ↦
            let seq = laws.read_add tag_sequence (oid ++ a.parameters) e rest (ground arith) in
            let name = laws.oid_read_add a.algorithm oid a.parameters good in
            rw (seq, name, unmarshal_algorithm, unmarshal_inner)
              (ap (λ (p : Bytes). ok (record { algorithm = a.algorithm; parameters = p }, rest))
                (read_parameters_lem a.parameters whole))
      ]
