-- ===== src/Pkicmp/Der.antt =====
-- The DER codec of pkicmp/types.go and pkimessage.go over cryptobyte, which is an interface with the
-- laws that its documentation gives.
pub mod AlgorithmIdentifiers
use go_pkicmp_ng.Prelude.{ℕ, ◌<◌, ◌≤◌, ◌^◌, ◌≡◌, Option, none, some, List, [], ◌++◌, Bytes}
use go_pkicmp_ng.Prelude.Int.{ℤ, pos_part, neg_part}
use go_pkicmp_ng.Pkicmp.Types.{Oid}

-- cryptobyte's readers give what they read and the rest of the input; its builders give an encoding,
-- none for an error.
pub record Cryptobyte : Type 0 where
  -- `ReadASN1` and `AddASN1` with a tag
  pub read_asn1 : ℕ → Bytes → Option (Bytes × Bytes)
  pub add_asn1 : ℕ → Bytes → Option Bytes
  -- `ReadAnyASN1Element`
  pub read_element : Bytes → Option (Bytes × Bytes)
  pub read_oid : Bytes → Option (Oid × Bytes)
  pub add_oid : Oid → Option Bytes
  -- `ReadASN1Integer` into an int64 and `AddASN1Int64`
  pub read_int64 : Bytes → Option (ℤ × Bytes)
  pub add_int64 : ℤ → Bytes

abbrev pub tag_octet_string : ℕ
tag_octet_string = 4

abbrev pub tag_sequence : ℕ
tag_sequence = 48

-- A value of an int64, or of an int on a machine of 64 bits.
pub record FitsInt64 (n : ℤ) : Type 0 where
  pub upper : pos_part n < 2 ^ 63
  pub lower : neg_part n ≤ 2 ^ 63

-- What a builder adds, the matching reader reads, whatever follows.
pub record CryptobyteLaws (c : Cryptobyte) : Type 0 where
  pub read_add :
      (tag : ℕ) (contents e rest : Bytes)
      → c.add_asn1 tag contents ≡ some e
      → c.read_asn1 tag (e ++ rest) ≡ some (contents, rest)
  pub oid_read_add :
      (oid : Oid) (e rest : Bytes)
      → c.add_oid oid ≡ some e
      → c.read_oid (e ++ rest) ≡ some (oid, rest)
  pub int64_read_add :
      (n : ℤ) (rest : Bytes) → FitsInt64 n → c.read_int64 (c.add_int64 n ++ rest) ≡ some (n, rest)
