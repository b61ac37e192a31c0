-- ===== src/Pkicmp/Protect/Sealed.antt =====
-- pkicmp/protect.go: a message as it is protected, and its parameters read back.
use go_pkicmp_ng.Prelude.{
  ◌≡◌, refl, sym, subst, ap, inl, inr, true, some, [], ◌∷◌, ◌++◌, Bytes, is_some, if◌then◌else◌,
  arith, Option-cases,
}
use go_pkicmp_ng.Prelude.Int.{ℤ, ltb_ℤ}
use go_pkicmp_ng.Prelude.Result.{Result, ok, bind_ok, ok_injective}
use go_pkicmp_ng.Pkicmp.Types.{AlgorithmIdentifier}
use go_pkicmp_ng.Pkicmp.Errors.{Failure}
use go_pkicmp_ng.Pkicmp.Algorithms.{Hash}
use go_pkicmp_ng.Pkicmp.Der.{CryptobyteLaws, FitsInt64, tag_sequence, tag_octet_string}
use go_pkicmp_ng.Pkicmp.Der.AlgorithmIdentifiers.{
  marshal_algorithm, IsElement, unmarshal_algorithm-marshal_algorithm,
}
use go_pkicmp_ng.Pkicmp.Protect.{
  PkiMessage, MacLibrary, PbmParameter, pvno2, seal, marshal_for_protection, protected_part,
  marshal_pbm, unmarshal_pbm, validate_pbm_iteration_count,
}

append_nil : (xs : Bytes) → xs ++ [] ≡ xs
append_nil [] = refl
append_nil (x ∷ xs) = ap (λ (ys : Bytes). x ∷ ys) (append_nil xs)

append_assoc : (xs ys zs : Bytes) → (xs ++ ys) ++ zs ≡ xs ++ (ys ++ zs)
append_assoc [] ys zs = refl
append_assoc (x ∷ xs) ys zs = ap (λ (ws : Bytes). x ∷ ws) (append_assoc xs ys zs)

module _ (lib : MacLibrary) where
  -- A sealed message carries the algorithm and the MAC of its protected part under the key.
  pub record IsSealed (m : PkiMessage) (alg : AlgorithmIdentifier) (h : Hash)
      (key : Result Failure Bytes) (m' : PkiMessage) : Type 0 where
    pub algorithm : m'.header.protection_alg ≡ some alg
    pub has_body : is_some m'.body ≡ true
    pub k : Bytes
    pub derived : key ≡ ok k
    pub part : Bytes
    pub covers : protected_part lib m' ≡ ok part
    pub tag : m'.protection ≡ lib.hmac h k part

  pub marshal_for_protection_lem :
      (m m' : PkiMessage)
      → marshal_for_protection lib m ≡ ok m'
      → (m'.header.protection_alg ≡ m.header.protection_alg)
        × (is_some m'.body ≡ true)
        × (m'.extra_certs ≡ m.extra_certs)
  unfolding marshal_for_protection
  marshal_for_protection_lem m m' h = elim (Option-cases m.body) [
    | inl nil ↦ ground arith
    | inr (body, present) ↦
        let version = if ltb_ℤ pvno2 m.header.pvno then m.header.pvno else pvno2 in
        elim (Option-cases (lib.marshal_body body version)) [
          | inl bad ↦ ground arith
          | inr (encoded, good) ↦
              elim (Option-cases (lib.marshal_header (record (m.header) { pvno = encoded.1 }))) [
                | inl bad ↦ ground arith
                | inr (raw_header, fine) ↦ (ground arith, ground arith, ground arith)
              ]
        ]
  ]

  pub seal-IsSealed :
      (m : PkiMessage) (alg : AlgorithmIdentifier) (h : Hash) (key : Result Failure Bytes)
      (m' : PkiMessage)
      → seal lib m alg h key ≡ ok m'
      → IsSealed m alg h key m'
  unfolding seal protected_part
  seal-IsSealed m alg h key m' e =
      let start : PkiMessage = record m {
        header = record (m.header) { protection_alg = some alg };
      } in
      let (m1, encoded, e1) = bind_ok (marshal_for_protection lib start) _ m' e in
      let (part, covers, e2) = bind_ok (protected_part lib m1) _ m' e1 in
      let (k, derived, e3) = bind_ok key _ m' e2 in
      subst (λ q. IsSealed m alg h key q) (ok_injective e3)
        (record {
          algorithm = (marshal_for_protection_lem start m1 encoded).0;
          has_body = (marshal_for_protection_lem start m1 encoded).1;
          k = k;
          derived = derived;
          part = part;
          covers = covers;
          tag = refl;
        })

  -- A count of iterations that is accepted is small.
  pub validate_pbm_iteration_count-FitsInt64 :
      (n : ℤ) → validate_pbm_iteration_count n ≡ ok tt → FitsInt64 n
  unfolding validate_pbm_iteration_count
  validate_pbm_iteration_count-FitsInt64 n h = record { upper = ground arith; lower = ground arith }

  -- The PBM parameters are read back as they were written.
  pub unmarshal_pbm-marshal_pbm :
      (p : PbmParameter) (e : Bytes)
      → CryptobyteLaws lib.cryptobyte
      → IsElement lib.cryptobyte p.owf.parameters
      → IsElement lib.cryptobyte p.mac.parameters
      → validate_pbm_iteration_count p.iteration_count ≡ ok tt
      → marshal_pbm lib p ≡ some e
      → unmarshal_pbm lib e ≡ ok p
  unfolding marshal_pbm unmarshal_pbm
  unmarshal_pbm-marshal_pbm p e laws owf_whole mac_whole valid h =
      elim (Option-cases (lib.cryptobyte.add_asn1 tag_octet_string p.salt)) [
        | inl bad ↦ ground arith
        | inr (salt, s) ↦ elim (Option-cases (marshal_algorithm lib.cryptobyte p.owf)) [
          | inl bad ↦ ground arith
          | inr (owf, o) ↦ elim (Option-cases (marshal_algorithm lib.cryptobyte p.mac)) [
            | inl bad ↦ ground arith
            | inr (mac, k) ↦
                let tail = lib.cryptobyte.add_int64 p.iteration_count ++ mac in
                let seq = laws.read_add tag_sequence (salt ++ (owf ++ tail)) e [] (ground arith) in
                let first = laws.read_add tag_octet_string p.salt salt (owf ++ tail) s in
                let second =
                  unmarshal_algorithm-marshal_algorithm lib.cryptobyte p.owf owf tail laws owf_whole
                    o in
                let third =
                  laws.int64_read_add p.iteration_count mac
                    (validate_pbm_iteration_count-FitsInt64 p.iteration_count valid) in
                let fourth =
                  unmarshal_algorithm-marshal_algorithm lib.cryptobyte p.mac mac [] laws mac_whole
                    k in
                rw (sym (append_nil e)) (
                  rw (seq, unmarshal_pbm, first, second, third, valid)
                    (rw (sym (append_nil mac)) (rw fourth refl)))
          ]
        ]
      ]
