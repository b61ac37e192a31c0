-- ===== src/Server/Tracker/Keys.antt =====
-- The length-prefixed material of `makeKey` determines both identifiers.
use go_pkicmp_ng.Prelude.{
  ℕ, ◌^◌, ◌<◌, ◌≡◌, refl, List, [], ◌∷◌, ◌++◌, Bytes, put_uint32, length, arith,
}
use go_pkicmp_ng.Server.Tracker.{key_material, make_key}

-- The lengths that `uint32(len(x))` keeps.
abbrev pub IsShort : Bytes → Type 0
IsShort b = length b < 2 ^ 32

-- The hash has no collision.
abbrev pub IsCollisionFree : (Bytes → Bytes) → Type 0
IsCollisionFree hash = (a b : Bytes) → hash a ≡ hash b → a ≡ b

pub append-split {ℓ} :
    {A : Type ℓ} (xs xs' ys ys' : List A)
    → length xs ≡ length xs'
    → xs ++ ys ≡ xs' ++ ys'
    → (xs ≡ xs') × (ys ≡ ys')
append-split [] [] ys ys' l e = (refl, e)
append-split [] (x' ∷ xs') ys ys' l e = absurd (omega arith)
append-split (x ∷ xs) [] ys ys' l e = absurd (omega arith)
append-split (x ∷ xs) (x' ∷ xs') ys ys' l e = ground (arith, append-split xs xs' ys ys')

pub put_uint32-injective :
    (n m : ℕ) (xs ys : Bytes)
    → n < 2 ^ 32
    → m < 2 ^ 32
    → put_uint32 n ++ xs ≡ put_uint32 m ++ ys
    → (n ≡ m) × (xs ≡ ys)
unfolding put_uint32
put_uint32-injective n m xs ys hn hm e = ground arith

pub key_material-injective :
    (c c' t t' : Bytes)
    → IsShort c
    → IsShort c'
    → IsShort t
    → IsShort t'
    → key_material c t ≡ key_material c' t'
    → (c ≡ c') × (t ≡ t')
unfolding key_material
key_material-injective c c' t t' hc hc' ht ht' e =
    let outer =
      put_uint32-injective (length c) (length c') (c ++ (put_uint32 (length t) ++ t))
        (c' ++ (put_uint32 (length t') ++ t')) hc hc' e in
    let inner =
      append-split c c' (put_uint32 (length t) ++ t) (put_uint32 (length t') ++ t') outer.0
        outer.1 in
    (inner.0, (put_uint32-injective (length t) (length t') t t' ht ht' inner.1).1)

-- Under a hash with no collision, two pairs of a credential and a transaction with one composite key
-- are the same pair.
pub make_key-injective :
    (sha256 : Bytes → Bytes) (c c' t t' : Bytes)
    → IsCollisionFree sha256
    → IsShort c
    → IsShort c'
    → IsShort t
    → IsShort t'
    → make_key sha256 c t ≡ make_key sha256 c' t'
    → (c ≡ c') × (t ≡ t')
unfolding make_key
make_key-injective sha256 c c' t t' free hc hc' ht ht' e =
    key_material-injective c c' t t' hc hc' ht ht' (free (key_material c t) (key_material c' t') e)
