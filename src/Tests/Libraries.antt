-- ===== src/Tests/Libraries.antt =====
-- Libraries for the tests of pkicmp: encodings with a length before each part, which read back.
use go_pkicmp_ng.Prelude.{
  ℕ, zero, suc, ◌≡◌, refl, sym, ap, ◌∙◌, false, Option, none, some, [], ◌∷◌, ◌++◌, Bytes, length,
  bytes_eq, arith,
}
use go_pkicmp_ng.Prelude.Int.{ℤ, pos, negsuc}
use go_pkicmp_ng.Pkicmp.Types.{AlgorithmIdentifier}
use go_pkicmp_ng.Pkicmp.Der.{Cryptobyte}
use go_pkicmp_ng.Pkicmp.Protect.{MacLibrary, Pbkdf2Params, Pbmac1Params}
use go_pkicmp_ng.Pkicmp.Verify.{CertificateLibrary}
use go_pkicmp_ng.Pkicmp.Verify.RoundTrip.{MacLaws}
use go_pkicmp_ng.Tests.Fixtures.{hashes, cert}

abbrev take_bytes : ℕ → Bytes → Option (Bytes × Bytes)
take_bytes zero bs = some ([], bs)
take_bytes (suc n) [] = none
take_bytes (suc n) (b ∷ bs) = elim (take_bytes n bs) [
  | none ↦ none
  | some (front, back) ↦ some (b ∷ front, back)
]

abbrev add_part : Bytes → Bytes
add_part bs = length bs ∷ bs

abbrev read_part : Bytes → Option (Bytes × Bytes)
read_part [] = none
read_part (n ∷ bs) = take_bytes n bs

read_add_part : (bs rest : Bytes) → take_bytes (length bs) (bs ++ rest) ≡ some (bs, rest)
read_add_part [] rest = refl
read_add_part (b ∷ bs) rest = rw (read_add_part bs rest) refl

abbrev add_number : ℤ → Bytes
add_number (pos n) = 0 ∷ n ∷ []
add_number (negsuc n) = 1 ∷ n ∷ []

abbrev read_number : Bytes → Option (ℤ × Bytes)
read_number (zero ∷ n ∷ bs) = some (pos n, bs)
read_number (suc _ ∷ n ∷ bs) = some (negsuc n, bs)
read_number _ = none

read_add_number : (n : ℤ) (rest : Bytes) → read_number (add_number n ++ rest) ≡ some (n, rest)
read_add_number (pos n) rest = refl
read_add_number (negsuc n) rest = refl

abbrev codec : Cryptobyte
codec = record {
  read_asn1 = λ tag bs. elim bs [ [] ↦ none | _ ∷ rest ↦ read_part rest ];
  add_asn1 = λ tag contents. some (tag ∷ add_part contents);
  read_element = λ bs. none;
  read_oid = read_part;
  add_oid = λ oid. some (add_part oid);
  read_int64 = read_number;
  add_int64 = add_number;
}

abbrev add_algorithm : AlgorithmIdentifier → Bytes → Bytes
add_algorithm a rest = add_part a.algorithm ++ (add_part a.parameters ++ rest)

abbrev read_algorithm : Bytes → Option (AlgorithmIdentifier × Bytes)
read_algorithm bs = elim (read_part bs) [
  | none ↦ none
  | some (oid, rest) ↦ elim (read_part rest) [
    | none ↦ none
    | some (params, back) ↦ some (record { algorithm = oid; parameters = params }, back)
  ]
]

read_add_algorithm :
    (a : AlgorithmIdentifier) (rest : Bytes)
    → read_algorithm (add_algorithm a rest) ≡ some (a, rest)
read_add_algorithm a rest =
    rw (read_add_part a.algorithm (add_part a.parameters ++ rest), read_algorithm)
      (rw (read_add_part a.parameters rest) refl)

abbrev add_pbkdf2 : Pbkdf2Params → Bytes
add_pbkdf2 p =
    add_part p.salt
    ++ (add_number p.iteration_count ++ (add_number p.key_length ++ add_algorithm p.prf []))

abbrev read_pbkdf2 : Bytes → Option Pbkdf2Params
read_pbkdf2 bs = elim (read_part bs) [
  | none ↦ none
  | some (salt, r) ↦ elim (read_number r) [
    | none ↦ none
    | some (count, s) ↦ elim (read_number s) [
      | none ↦ none
      | some (size, t) ↦ elim (read_algorithm t) [
        | none ↦ none
        | some (prf, _) ↦
            some (record { salt = salt; iteration_count = count; key_length = size; prf = prf })
      ]
    ]
  ]
]

read_add_pbkdf2 : (p : Pbkdf2Params) → read_pbkdf2 (add_pbkdf2 p) ≡ some p
read_add_pbkdf2 p =
    let tail = add_algorithm p.prf [] in
    rw
      (
        read_add_part p.salt (add_number p.iteration_count ++ (add_number p.key_length ++ tail)),
        read_pbkdf2,
      )
      (rw (read_add_number p.iteration_count (add_number p.key_length ++ tail))
        (rw (read_add_number p.key_length tail) (rw (read_add_algorithm p.prf []) refl)))

abbrev add_pbmac1 : Pbmac1Params → Bytes
add_pbmac1 p = add_algorithm p.key_derivation_func (add_algorithm p.message_auth_scheme [])

abbrev read_pbmac1 : Bytes → Option Pbmac1Params
read_pbmac1 bs = elim (read_algorithm bs) [
  | none ↦ none
  | some (kdf, r) ↦ elim (read_algorithm r) [
    | none ↦ none
    | some (mac, _) ↦ some (record { key_derivation_func = kdf; message_auth_scheme = mac })
  ]
]

read_add_pbmac1 : (p : Pbmac1Params) → read_pbmac1 (add_pbmac1 p) ≡ some p
read_add_pbmac1 p =
    rw
      (
        read_add_algorithm p.key_derivation_func (add_algorithm p.message_auth_scheme []),
        read_pbmac1,
      )
      (rw (read_add_algorithm p.message_auth_scheme []) refl)

abbrev pub mac_library : MacLibrary
mac_library = record {
  hashes = hashes;
  size = λ h. 32;
  block_size = λ h. 64;
  hmac = λ h k part. h ∷ k ++ part;
  pbkdf2_key = λ secret salt n size h. secret ++ salt;
  cryptobyte = codec;
  marshal_pbkdf2 = λ p. some (add_pbkdf2 p);
  unmarshal_pbkdf2 = read_pbkdf2;
  marshal_pbmac1 = λ p. some (add_pbmac1 p);
  unmarshal_pbmac1 = read_pbmac1;
  marshal_body = λ body pvno. some (body ∷ [], pvno);
  marshal_header = λ h. some (7 ∷ h.transaction_id);
}

some_injective : {A : Type 0} (a b : A) → some a ≡ some b → a ≡ b
some_injective a b h = ground arith

pub mac_laws : MacLaws mac_library
mac_laws = record {
  cryptobyte = record {
    read_add = λ tag contents e rest h.
        (ap (codec.read_asn1 tag) (ap (λ (bs : Bytes). bs ++ rest) (sym (some_injective _ _ h)))
          ∙ read_add_part contents rest);
    oid_read_add = λ oid e rest h.
        (ap read_part (ap (λ (bs : Bytes). bs ++ rest) (sym (some_injective _ _ h)))
          ∙ read_add_part oid rest);
    int64_read_add = λ n rest h. read_add_number n rest;
  };
  pbkdf2_asn1 = λ p e i k r h. ap read_pbkdf2 (sym (some_injective _ _ h)) ∙ read_add_pbkdf2 p;
  pbmac1_asn1 = λ p kdf e d r h. ap read_pbmac1 (sym (some_injective _ _ h)) ∙ read_add_pbmac1 p;
  hash_available = λ oid h e. refl;
  hmac_hash_available = λ oid h e. refl;
  block_size_fits = λ h. omega arith;
  hmac_nonempty = λ h k part e. refl;
}

-- One certificate, which its key signs with its first byte; crypto/x509 trusts it.
abbrev pub certificate_library : CertificateLibrary
certificate_library = record {
  parse_certificate = λ raw. elim raw [ [] ↦ none | _ ∷ _ ↦ some cert ];
  chains = λ pool intermediates now c. some ((c ∷ []) ∷ []);
  composite_signed_by = λ c p. false;
  check_signature = λ c alg part signature. bytes_eq signature part;
  unmarshal_name = λ raw. none;
  rdn_string = λ n. [];
}
