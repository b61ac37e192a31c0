-- ===== src/Prelude/ByteStrings.antt =====
-- Byte strings (`[]byte`, `string`) as lists of numbers, and the comparison of Go's `bytes.Equal`.
use Prim.Native.Nat.{ℕ, ◌/◌, ◌%◌, ◌^◌}
use mathlib.Core.Path.{◌≡◌, refl}
use mathlib.Core.Logic.{◌↔◌}
use mathlib.Core.Bool.{Bool, true, false, ◌&&◌}
use mathlib.Core.List.{List, [], ◌∷◌}
use Prim.Native.Char.{code}
use Prim.Native.String.{String}
use native.Mathlib.Omega.{arith}
use go_pkicmp_ng.Prelude.Tests.{◌==◌}

abbrev pub Bytes : Type 0
Bytes = List ℕ

-- `bytes.Equal`
unfoldable pub bytes_eq : Bytes → Bytes → Bool
bytes_eq [] [] = true
bytes_eq (x ∷ xs) (y ∷ ys) = (x == y) && bytes_eq xs ys
bytes_eq _ _ = false

pub bytes_eq_sound : (xs ys : Bytes) → bytes_eq xs ys ≡ true → xs ≡ ys
unfolding bytes_eq
bytes_eq_sound [] [] h = refl
bytes_eq_sound [] (y ∷ ys) h = ground arith
bytes_eq_sound (x ∷ xs) [] h = ground arith
bytes_eq_sound (x ∷ xs) (y ∷ ys) h = ground (arith, bytes_eq_sound xs ys)

pub bytes_eq_refl : (xs : Bytes) → bytes_eq xs xs ≡ true
unfolding bytes_eq
bytes_eq_refl [] = refl
bytes_eq_refl (x ∷ xs) = ground (arith, bytes_eq_refl xs)

pub bytes_eq_iff : (xs ys : Bytes) → (bytes_eq xs ys ≡ true) ↔ (xs ≡ ys)
bytes_eq_iff xs ys = (bytes_eq_sound xs ys, λ e. ground (arith, bytes_eq_refl xs))

-- `binary.BigEndian.PutUint32` of `uint32(n)`.
unfoldable pub put_uint32 : ℕ → Bytes
put_uint32 n = (n / 2 ^ 24) % 256 ∷ (n / 2 ^ 16) % 256 ∷ (n / 2 ^ 8) % 256 ∷ n % 256 ∷ []

-- The bytes of a string literal of the source, which is ASCII.
unfoldable pub text : String → Bytes
text String.[] = []
text (String.◌∷◌ c s) = code c ∷ text s
